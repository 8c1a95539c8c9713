-- ===== src/Yalin/Hexdump/Reader.antt =====
-- A reader of arrays of bytes as C writes them, and what it reads of the cells of a row.
use hspp.Prelude.{
  ℕ, zero, suc, ◌+◌, ◌-◌, ◌*◌, ◌/◌, ◌%◌, ◌^◌, ◌<◌, ◌≡◌, refl, ap, ap₂, ◌∙◌, arith, Bool, true,
  false, ltb, ◌==◌, ◌&&◌, if◌then◌else◌, List, [], ◌∷◌, ◌++◌, Text, codes, drop,
}
use hspp.Memory.Bounds.{IsBytes}
use hspp.Printf.{digit, hex0}
use hspp.Printf.Padded.{hex0-fixed}
use hspp.Yalin.Hexdump.{printable, char_cells, blanks, array_cells}

-- What ends with a newline, line by line.
abbrev pub push : ℕ → List Text → List Text
push c [] = (c ∷ []) ∷ []
push c (t ∷ ts) = (c ∷ t) ∷ ts

abbrev pub lines : Text → List Text
lines [] = []
lines (c ∷ cs) = let rest = lines cs in if c == b'\n' then [] ∷ rest else push c rest

abbrev pub hex_value : ℕ → ℕ
hex_value c = if ltb c b'a' then c - b'0' else c - b'a' + 10

-- The cells `0x.., ` at the start of a text.
abbrev pub read_cells : Text → List ℕ
read_cells (z ∷ x ∷ h ∷ l ∷ comma ∷ space ∷ rest) =
    let more = read_cells rest in
    if (z == b'0') && (x == b'x') then (hex_value h * 16 + hex_value l) ∷ more else []
read_cells _ = []

-- The bytes of all lines; each line has its cells behind two characters.
abbrev pub read_lines : List Text → List ℕ
read_lines [] = []
read_lines (t ∷ ts) = read_cells (drop 2 t) ++ read_lines ts

abbrev pub read_back : Text → List ℕ
read_back text = read_lines (lines text)

abbrev pub NoNewline : Text → Type 0
NoNewline [] = Unit
NoNewline (c ∷ cs) = ((c == b'\n') ≡ false) × NoNewline cs

pub lines-append : (t rest : Text) → NoNewline t → lines (t ++ b'\n' ∷ rest) ≡ t ∷ lines rest
lines-append [] rest h = refl
lines-append (c ∷ t) rest (other, h) = rw (other, lines-append t rest h) refl

pub append-NoNewline : (s t : Text) → NoNewline s → NoNewline t → NoNewline (s ++ t)
append-NoNewline [] t hs ht = ht
append-NoNewline (c ∷ s) t (other, hs) ht = (other, append-NoNewline s t hs ht)

pub digit-NoNewline : (d : ℕ) → (digit d == b'\n') ≡ false
digit-NoNewline d = ground arith

pub hex_value-digit : (d : ℕ) → d < 16 → hex_value (digit d) ≡ d
hex_value-digit d lt = ground arith

-- A byte prints as two digits.
pub hex0-byte : (b : ℕ) → b < 2 ^ 8 → hex0 2 b ≡ digit (b / 16) ∷ digit (b % 16) ∷ []
hex0-byte b lt =
    hex0-fixed 1 b (omega arith) (omega arith)
    ∙ ap (λ d. digit d ∷ digit (b % 16) ∷ []) (omega arith)

-- The cells of a row, before a character other than a zero.
pub read_cells-none : (c : ℕ) (rest : Text) → (c == b'0') ≡ false → read_cells (c ∷ rest) ≡ []
read_cells-none c [] e = refl
read_cells-none c (_ ∷ []) e = refl
read_cells-none c (_ ∷ _ ∷ []) e = refl
read_cells-none c (_ ∷ _ ∷ _ ∷ []) e = refl
read_cells-none c (_ ∷ _ ∷ _ ∷ _ ∷ []) e = refl
read_cells-none c (x ∷ _ ∷ _ ∷ _ ∷ _ ∷ rest) e = rw e refl

pub read_cells-array :
    (bs : List ℕ) (c : ℕ) (rest : Text)
    → IsBytes bs
    → (c == b'0') ≡ false
    → read_cells (array_cells bs ++ c ∷ rest) ≡ bs
unfolding array_cells
read_cells-array [] c rest h e = read_cells-none c rest e
read_cells-array (b ∷ bs) c rest (lt, h) e =
    rw (hex0-byte b lt) (ap₂ (λ x xs. x ∷ xs) two_digits (read_cells-array bs c rest h e))
  where
    two_digits : hex_value (digit (b / 16)) * 16 + hex_value (digit (b % 16)) ≡ b
    two_digits =
        omega
          (arith, hex_value-digit (b / 16) (omega arith), hex_value-digit (b % 16) (omega arith))

pub array_cells-NoNewline : (bs : List ℕ) → IsBytes bs → NoNewline (array_cells bs)
unfolding array_cells
array_cells-NoNewline [] h = tt
array_cells-NoNewline (b ∷ bs) (lt, h) = rw (hex0-byte b lt) (
  refl,
  (
    refl,
    (
      digit-NoNewline (b / 16),
      (digit-NoNewline (b % 16), (refl, (refl, array_cells-NoNewline bs h))),
    ),
  ),
)

pub printable-NoNewline : (c : ℕ) → (printable c == b'\n') ≡ false
unfolding printable
printable-NoNewline c = ground arith

pub char_cells-NoNewline : (i : ℕ) (bs : List ℕ) → NoNewline (char_cells i bs)
unfolding char_cells
char_cells-NoNewline i [] = tt
char_cells-NoNewline i (b ∷ bs) =
    append-NoNewline (if i == 8 then codes "  " else []) _ (gap (i == 8))
      (printable-NoNewline b, char_cells-NoNewline (i + 1) bs)
  where
    gap : (at_8 : Bool) → NoNewline (if at_8 then codes "  " else [])
    gap true = (refl, (refl, tt))
    gap false = tt

pub blanks-NoNewline : (k : ℕ) (cell : Text) → NoNewline cell → NoNewline (blanks k cell)
unfolding blanks
blanks-NoNewline zero cell h = tt
blanks-NoNewline (suc k) cell h = append-NoNewline cell _ h (blanks-NoNewline k cell h)
