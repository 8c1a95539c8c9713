-- ===== src/Yalin/Hexdump/Line.antt =====
-- The line of a row of `hexdump`, told in halves of eight bytes: the specification side.
use hspp.Prelude.{
  ℕ, zero, suc, ◌+◌, ◌-◌, ◌*◌, ◌<◌, ◌≡◌, refl, sym, ap, ap₂, ◌∙◌, arith, leb, false, ◌==◌, ◌&&◌,
  if◌then◌else◌, List, [], ◌∷◌, ◌++◌, Text, codes, length, take, drop, replicate, append_assoc,
}
use hspp.Printf.{hex0}
use hspp.Yalin.Hexdump.{printable, hex_cells, char_cells, blanks, hexdump_line}

-- Each byte as a space and two hexadecimal digits.
abbrev pub shown_bytes : List ℕ → Text
shown_bytes [] = []
shown_bytes (b ∷ bs) = codes " " ++ hex0 2 b ++ shown_bytes bs

-- Each byte as its character if it is printable, else as a dot.
abbrev pub shown_chars : List ℕ → Text
shown_chars [] = []
shown_chars (b ∷ bs) = (if leb 0x20 b && leb b 0x7e then b else b'.') ∷ shown_chars bs

-- What stands before a second half.
abbrev pub gap : Text → List ℕ → Text
gap spaces [] = []
gap spaces (b ∷ bs) = spaces

abbrev line_of : ℕ → Text → Text → Text → Text
line_of row cells spaces chars =
    hex0 4 row ++ codes ":   " ++ cells ++ spaces ++ codes "   " ++ chars ++ codes "\n"

abbrev pub shown_line : ℕ → List ℕ → Text
shown_line row bs =
    line_of row
      (shown_bytes (take 8 bs) ++ (gap (codes " ") (drop 8 bs) ++ shown_bytes (drop 8 bs)))
      (replicate (3 * (16 - length bs)) b' ')
      (shown_chars (take 8 bs) ++ (gap (codes "  ") (drop 8 bs) ++ shown_chars (drop 8 bs)))

not_eight : (i : ℕ) → 8 < i → (i == 8) ≡ false
not_eight i h = ground arith

before_eight : (i k : ℕ) → i + suc k ≡ 8 → (i == 8) ≡ false
before_eight i k h = ground arith

hex_cells-second : (i : ℕ) (bs : List ℕ) → 8 < i → hex_cells i bs ≡ shown_bytes bs
unfolding hex_cells
hex_cells-second i [] h = refl
hex_cells-second i (b ∷ bs) h =
    rw (not_eight i h)
      (ap (λ t. codes " " ++ hex0 2 b ++ t) (hex_cells-second (i + 1) bs (omega arith)))

hex_cells-halves :
    (k i : ℕ) (bs : List ℕ)
    → i + k ≡ 8
    → hex_cells i bs
      ≡ shown_bytes (take k bs) ++ (gap (codes " ") (drop k bs) ++ shown_bytes (drop k bs))
unfolding hex_cells
hex_cells-halves zero i [] h = refl
hex_cells-halves (suc k) i [] h = refl
hex_cells-halves zero i (b ∷ bs) h =
    ap (λ j. hex_cells j (b ∷ bs)) {x = i} {y = 8} (omega arith)
    ∙ ap (λ t. codes "  " ++ hex0 2 b ++ t) (hex_cells-second 9 bs (omega arith))
hex_cells-halves (suc k) i (b ∷ bs) h = rw (before_eight i k h) (
    ap (λ t. codes " " ++ hex0 2 b ++ t) (hex_cells-halves k (i + 1) bs (omega arith))
    ∙ sym (append_assoc (codes " " ++ hex0 2 b) (shown_bytes (take k bs)) _))

char_cells-second : (i : ℕ) (bs : List ℕ) → 8 < i → char_cells i bs ≡ shown_chars bs
unfolding char_cells printable
char_cells-second i [] h = refl
char_cells-second i (b ∷ bs) h =
    rw (not_eight i h) (ap (λ t. printable b ∷ t) (char_cells-second (i + 1) bs (omega arith)))

char_cells-halves :
    (k i : ℕ) (bs : List ℕ)
    → i + k ≡ 8
    → char_cells i bs
      ≡ shown_chars (take k bs) ++ (gap (codes "  ") (drop k bs) ++ shown_chars (drop k bs))
unfolding char_cells printable
char_cells-halves zero i [] h = refl
char_cells-halves (suc k) i [] h = refl
char_cells-halves zero i (b ∷ bs) h =
    ap (λ j. char_cells j (b ∷ bs)) {x = i} {y = 8} (omega arith)
    ∙ ap (λ t. codes "  " ++ printable b ∷ t) (char_cells-second 9 bs (omega arith))
char_cells-halves (suc k) i (b ∷ bs) h =
    rw (before_eight i k h)
      (ap (λ t. printable b ∷ t) (char_cells-halves k (i + 1) bs (omega arith)))

blanks-replicate : (k : ℕ) → blanks k (codes "   ") ≡ replicate (3 * k) b' '
unfolding blanks
blanks-replicate zero = refl
blanks-replicate (suc k) =
    ap (λ t. codes "   " ++ t) (blanks-replicate k)
    ∙ ap (λ n. replicate n b' ') {x = suc (suc (suc (3 * k)))} {y = 3 * suc k} (omega arith)

pub hexdump_line_lem : (row : ℕ) (bs : List ℕ) → hexdump_line row bs ≡ shown_line row bs
unfolding hexdump_line
hexdump_line_lem row bs =
    ap₂ (λ cells spaces. line_of row cells spaces (char_cells 0 bs)) (hex_cells-halves 8 0 bs refl)
      (blanks-replicate (16 - length bs))
    ∙ ap (line_of row _ _) (char_cells-halves 8 0 bs refl)
