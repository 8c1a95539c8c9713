-- ===== src/Yalin/Hexdump/Rows.antt =====
-- The rows of the two dumps: full rows and a last one, whatever the length of the buffer.
use hspp.Prelude.{
  ℕ, zero, suc, ◌+◌, ◌*◌, ◌<◌, ◌≤◌, ◌≡◌, refl, sym, ap, ap₂, ◌∙◌, arith, ltb, if◌then◌else◌, List,
  [], ◌∷◌, ◌++◌, Text, length, take, drop, length-append, append-nil, append_assoc,
}
use hspp.Yalin.Hexdump.Line.{shown_line, hexdump_line_lem}
use hspp.Yalin.Hexdump.{hexdump_line, hexdump_rows, hexdump}

abbrev pub FullRows : List (List ℕ) → Type 0
FullRows [] = Unit
FullRows (r ∷ rs) = (length r ≡ 16) × FullRows rs

abbrev pub bytes_of : List (List ℕ) → List ℕ
bytes_of [] = []
bytes_of (r ∷ rs) = r ++ bytes_of rs

abbrev pub full_lines : ℕ → List (List ℕ) → Text
full_lines row [] = []
full_lines row (r ∷ rs) = shown_line row r ++ full_lines (row + 16) rs

take-append_whole : (xs ys : List ℕ) → take (length xs) (xs ++ ys) ≡ xs
take-append_whole [] ys = refl
take-append_whole (x ∷ xs) ys = ap (λ t. x ∷ t) (take-append_whole xs ys)

drop-append_whole : (xs ys : List ℕ) → drop (length xs) (xs ++ ys) ≡ ys
drop-append_whole [] ys = refl
drop-append_whole (x ∷ xs) ys = drop-append_whole xs ys

full_row :
    (fuel row : ℕ) (r ys : List ℕ)
    → length r ≡ 16
    → hexdump_rows (suc fuel) row (r ++ ys) ≡ shown_line row r ++ hexdump_rows fuel (row + 16) ys
unfolding hexdump_rows
full_row fuel row [] ys h = absurd (omega arith)
full_row fuel row (b ∷ bs) ys h = rw width (
    ap₂ (λ t d. hexdump_line row t ++ hexdump_rows fuel (row + length (b ∷ bs)) d)
      (take-append_whole (b ∷ bs) ys) (drop-append_whole (b ∷ bs) ys)
    ∙ ap₂ (λ t n. t ++ hexdump_rows fuel (row + n) ys) (hexdump_line_lem row (b ∷ bs)) h)
  where
    width :
        (if ltb (length (b ∷ (bs ++ ys))) 16 then length (b ∷ (bs ++ ys)) else 16) ≡ length (b ∷ bs)
    width = ground (arith, length-append bs ys)

-- A last row that is not full, or nothing.
abbrev pub last_line : ℕ → List ℕ → Text
last_line row [] = []
last_line row (b ∷ bs) = shown_line row (b ∷ bs)

last_row :
    (fuel row : ℕ) (l : List ℕ)
    → length l < 16
    → length l ≤ fuel
    → hexdump_rows fuel row l ≡ last_line row l
unfolding hexdump_rows
last_row fuel row [] h e = refl
last_row zero row (b ∷ bs) h e = absurd (omega arith)
last_row (suc fuel) row (b ∷ bs) h e = rw width (
    ap₂ (λ t d. hexdump_line row t ++ hexdump_rows fuel (row + length (b ∷ bs)) d)
      (ap (take (length (b ∷ bs))) (sym (append-nil (b ∷ bs))) ∙ take-append_whole (b ∷ bs) [])
      (ap (drop (length (b ∷ bs))) (sym (append-nil (b ∷ bs))) ∙ drop-append_whole (b ∷ bs) [])
    ∙ append-nil (hexdump_line row (b ∷ bs))
    ∙ hexdump_line_lem row (b ∷ bs))
  where
    width : (if ltb (length (b ∷ bs)) 16 then length (b ∷ bs) else 16) ≡ length (b ∷ bs)
    width = ground arith

all_rows :
    (fuel row : ℕ) (rs : List (List ℕ)) (l : List ℕ)
    → FullRows rs
    → length l < 16
    → length (bytes_of rs ++ l) ≤ fuel
    → hexdump_rows fuel row (bytes_of rs ++ l)
      ≡ full_lines row rs ++ last_line (row + 16 * length rs) l
all_rows fuel row [] l good h e = last_row fuel row l h e ∙ ap (λ n. last_line n l) (omega arith)
all_rows zero row (r ∷ rs) l good h e =
    absurd
      (omega (arith, length-append (r ++ bytes_of rs) l, length-append r (bytes_of rs), good.0))
all_rows (suc fuel) row (r ∷ rs) l good h e =
    ap (hexdump_rows (suc fuel) row) (append_assoc r (bytes_of rs) l)
    ∙ full_row fuel row r (bytes_of rs ++ l) good.0
    ∙ ap (λ t. shown_line row r ++ t)
        (all_rows fuel (row + 16) rs l good.1 h (
          omega (
            arith,
            length-append (r ++ bytes_of rs) l,
            length-append r (bytes_of rs),
            length-append (bytes_of rs) l,
            good.0,
          )))
    ∙ ap (λ n. shown_line row r ++ (full_lines (row + 16) rs ++ last_line n l)) (omega arith)
    ∙ sym (append_assoc (shown_line row r) (full_lines (row + 16) rs) _)

-- The dump of a buffer of full rows of 16 bytes and a rest of less than 16 is a line for each full
-- row and a line for the rest unless it is empty: the offset of its first byte, all its bytes in
-- hexadecimal and all as characters, each with a gap before the ninth, aligned by blanks.
pub hexdump_lem :
    (rs : List (List ℕ)) (l : List ℕ)
    → FullRows rs
    → length l < 16
    → hexdump (bytes_of rs ++ l) ≡ full_lines 0 rs ++ last_line (16 * length rs) l
unfolding hexdump
hexdump_lem rs l good h =
    all_rows (length (bytes_of rs ++ l)) 0 rs l good h (omega arith)
    ∙ ap (λ n. full_lines 0 rs ++ last_line n l) (omega arith)
