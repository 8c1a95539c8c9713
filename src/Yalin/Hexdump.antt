-- ===== src/Yalin/Hexdump.antt =====
-- The dumps of yalin/yalin/hexdump.h, as the text that they print.
pub mod Line
pub mod Rows
pub mod Reader
pub mod ReadBack
mod Tests
use hspp.Prelude.{
  ℕ, zero, suc, ◌+◌, ◌-◌, ltb, leb, ◌==◌, ◌&&◌, if◌then◌else◌, List, [], ◌∷◌, ◌++◌, Text, codes,
  length, take, drop, Option, none, some, ◌≡◌, refl,
}
use hspp.Printf.{hex0}

-- A byte that is not printable shows as a dot.
unfoldable pub printable : ℕ → ℕ
printable c = if leb 0x20 c && leb c 0x7e then c else b'.'

-- `" %02x"` for each byte, with one more space before byte 8.
unfoldable pub hex_cells : ℕ → List ℕ → Text
hex_cells i [] = []
hex_cells i (b ∷ bs) =
    (if i == 8 then codes " " else []) ++ codes " " ++ hex0 2 b ++ hex_cells (i + 1) bs

-- The bytes as characters, with two spaces before byte 8.
unfoldable pub char_cells : ℕ → List ℕ → Text
unfolding printable
char_cells i [] = []
char_cells i (b ∷ bs) = (if i == 8 then codes "  " else []) ++ printable b ∷ char_cells (i + 1) bs

unfoldable pub blanks : ℕ → Text → Text
blanks zero cell = []
blanks (suc k) cell = cell ++ blanks k cell

unfoldable pub hexdump_line : ℕ → List ℕ → Text
unfolding hex_cells char_cells blanks
hexdump_line row bs =
    hex0 4 row
    ++ codes ":   "
    ++ hex_cells 0 bs
    ++ blanks (16 - length bs) (codes "   ")
    ++ codes "   "
    ++ char_cells 0 bs
    ++ codes "\n"

-- `while (bufferlen > 0)`, on fuel; `hexdump` gives as much as there are bytes.
unfoldable pub hexdump_rows : ℕ → ℕ → List ℕ → Text
unfolding hexdump_line
hexdump_rows fuel row [] = []
hexdump_rows zero row (b ∷ bs) = []
hexdump_rows (suc fuel) row (b ∷ bs) =
    let n = (if ltb (length (b ∷ bs)) 16 then length (b ∷ bs) else 16) in
    hexdump_line row (take n (b ∷ bs)) ++ hexdump_rows fuel (row + n) (drop n (b ∷ bs))

unfoldable pub hexdump : List ℕ → Text
unfolding hexdump_rows
hexdump buffer = hexdump_rows (length buffer) 0 buffer

-- `"0x%02x, "` for each byte.
unfoldable pub array_cells : List ℕ → Text
array_cells [] = []
array_cells (b ∷ bs) = codes "0x" ++ hex0 2 b ++ codes ", " ++ array_cells bs

unfoldable pub carrydump_line : List ℕ → Text
unfolding array_cells char_cells blanks
carrydump_line bs =
    codes "  "
    ++ array_cells bs
    ++ blanks (8 - length bs) (codes "      ")
    ++ codes "   /*"
    ++ char_cells 0 bs
    ++ codes "*/"
    ++ codes "\n"

unfoldable pub carrydump_rows : ℕ → List ℕ → Text
unfolding carrydump_line
carrydump_rows fuel [] = []
carrydump_rows zero (b ∷ bs) = []
carrydump_rows (suc fuel) (b ∷ bs) =
    let n = (if ltb (length (b ∷ bs)) 8 then length (b ∷ bs) else 8) in
    carrydump_line (take n (b ∷ bs)) ++ carrydump_rows fuel (drop n (b ∷ bs))

-- `none` is a NULL comment.
unfoldable pub carrydump_comment : Option Text → Text
carrydump_comment none = []
carrydump_comment (some comment) = codes "// " ++ comment ++ codes " \n"

unfoldable pub carrydump : Option Text → List ℕ → Text
unfolding carrydump_comment carrydump_rows
carrydump comment buffer =
    carrydump_comment comment
    ++ codes "static uint8_t arry[] = {\n"
    ++ carrydump_rows (length buffer) buffer
    ++ codes "};\n"

dump_row :
    hexdump_line 16 (0x20 ∷ 0x00 ∷ [])
    ≡ codes "0010:    20 00                                              .\n"
unfolding hexdump_line hex0
dump_row = refl
