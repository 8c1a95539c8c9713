-- ===== src/Yalin/Hexdump/ReadBack.antt =====
-- The array that `carrydump` prints, read back line by line.
use hspp.Prelude.{
  ℕ, zero, suc, ◌-◌, ◌≤◌, ◌≡◌, refl, sym, ap, ◌∙◌, arith, ltb, if◌then◌else◌, List, [], ◌∷◌, ◌++◌,
  Text, codes, length, take, drop, append_assoc, append-nil, Option, none, some, take-append-drop,
  length-drop,
}
use hspp.Memory.Bounds.{IsBytes}
use hspp.Yalin.Hexdump.{
  char_cells, blanks, array_cells, carrydump_line, carrydump_rows, carrydump_comment, carrydump,
}
use hspp.Yalin.Hexdump.Reader.{
  read_cells, read_lines, read_back, NoNewline, lines-append, append-NoNewline, read_cells-none,
  read_cells-array, array_cells-NoNewline, char_cells-NoNewline, blanks-NoNewline,
}

-- A row without its newline, behind its two spaces.
abbrev row : List ℕ → Text
row bs =
    array_cells bs
    ++ (blanks (8 - length bs) (codes "      ")
        ++ (codes "   /*" ++ (char_cells 0 bs ++ codes "*/")))

row-NoNewline : (bs : List ℕ) → IsBytes bs → NoNewline (row bs)
row-NoNewline bs h = append-NoNewline (array_cells bs) _ (array_cells-NoNewline bs h) (
    append-NoNewline (blanks (8 - length bs) (codes "      ")) _
      (blanks-NoNewline (8 - length bs) _ (refl, (refl, (refl, (refl, (refl, (refl, tt)))))))
      (
        refl,
        (
          refl,
          (
            refl,
            (
              refl,
              (
                refl,
                append-NoNewline (char_cells 0 bs) _ (char_cells-NoNewline 0 bs) (refl, (refl, tt)),
              ),
            ),
          ),
        ),
      ))

after_cells :
    (k : ℕ) (t : Text)
    → (rest : Text) × (blanks k (codes "      ") ++ (codes "   /*" ++ t) ≡ b' ' ∷ rest)
unfolding blanks
after_cells zero t = (_, refl)
after_cells (suc k) t = (_, refl)

read_cells-row : (bs : List ℕ) → IsBytes bs → read_cells (row bs) ≡ bs
read_cells-row bs h =
    let (rest, e) = after_cells (8 - length bs) (char_cells 0 bs ++ codes "*/") in
    ap (λ t. read_cells (array_cells bs ++ t)) e ∙ read_cells-array bs b' ' rest h refl

carrydump_line-row :
    (bs : List ℕ) (rest : Text) → carrydump_line bs ++ rest ≡ (codes "  " ++ row bs) ++ b'\n' ∷ rest
unfolding carrydump_line
carrydump_line-row bs rest = simp (append_assoc)

read_back-line :
    (bs : List ℕ) (rest : Text)
    → IsBytes bs
    → read_back (carrydump_line bs ++ rest) ≡ bs ++ read_back rest
read_back-line bs rest h =
    ap read_back (carrydump_line-row bs rest)
    ∙ ap read_lines (lines-append (codes "  " ++ row bs) rest (refl, (refl, row-NoNewline bs h)))
    ∙ ap (λ cells. cells ++ read_back rest) (read_cells-row bs h)

take-IsBytes : (n : ℕ) (bs : List ℕ) → IsBytes bs → IsBytes (take n bs)
take-IsBytes zero bs h = tt
take-IsBytes (suc n) [] h = tt
take-IsBytes (suc n) (b ∷ bs) (lt, h) = (lt, take-IsBytes n bs h)

drop-IsBytes : (n : ℕ) (bs : List ℕ) → IsBytes bs → IsBytes (drop n bs)
drop-IsBytes zero bs h = h
drop-IsBytes (suc n) [] h = tt
drop-IsBytes (suc n) (b ∷ bs) (lt, h) = drop-IsBytes n bs h

read_back-rows :
    (fuel : ℕ) (bs : List ℕ) (rest : Text)
    → IsBytes bs
    → length bs ≤ fuel
    → read_back (carrydump_rows fuel bs ++ rest) ≡ bs ++ read_back rest
unfolding carrydump_rows
read_back-rows fuel [] rest h le = refl
read_back-rows zero (b ∷ bs) rest h le = ground arith
read_back-rows (suc fuel) (b ∷ bs) rest h le =
    ap read_back (append_assoc (carrydump_line (take n (b ∷ bs))) _ rest)
    ∙ read_back-line (take n (b ∷ bs)) _ (take-IsBytes n (b ∷ bs) h)
    ∙ ap (λ t. take n (b ∷ bs) ++ t)
        (read_back-rows fuel (drop n (b ∷ bs)) rest (drop-IsBytes n (b ∷ bs) h) shorter)
    ∙ sym (append_assoc (take n (b ∷ bs)) _ _)
    ∙ ap (λ t. t ++ read_back rest) (take-append-drop n (b ∷ bs))
  where
    n : ℕ
    n = if ltb (length (b ∷ bs)) 8 then length (b ∷ bs) else 8

    shorter : length (drop n (b ∷ bs)) ≤ fuel
    shorter = ground (arith, length-drop n (b ∷ bs))

-- A comment, if there is one, is a line of its own.
abbrev pub IsOneLine : Option Text → Type 0
IsOneLine none = Unit
IsOneLine (some comment) = NoNewline comment

comment_line :
    (comment rest : Text)
    → carrydump_comment (some comment) ++ rest
      ≡ (codes "// " ++ (comment ++ codes " ")) ++ b'\n' ∷ rest
unfolding carrydump_comment
comment_line comment rest = simp (append_assoc)

read_back-comment :
    (comment : Option Text) (rest : Text)
    → IsOneLine comment
    → read_back (carrydump_comment comment ++ rest) ≡ read_back rest
unfolding carrydump_comment
read_back-comment none rest h = refl
read_back-comment (some comment) rest h =
    ap read_back (comment_line comment rest)
    ∙ ap read_lines (
        lines-append (codes "// " ++ (comment ++ codes " ")) rest
          (refl, (refl, (refl, append-NoNewline comment _ h (refl, tt)))))
    ∙ ap (λ cells. cells ++ read_back rest) (read_cells-none b' ' (comment ++ codes " ") refl)

carrydump-parts :
    (comment : Option Text) (buffer : List ℕ)
    → carrydump comment buffer
      ≡ carrydump_comment comment
        ++ (codes "static uint8_t arry[] = {\n"
            ++ (carrydump_rows (length buffer) buffer ++ codes "};\n"))
unfolding carrydump
carrydump-parts comment buffer = simp (append_assoc)

-- For a buffer of bytes, and a comment without a newline or none: the cells of the array that
-- `carrydump` prints, read line by line, are the bytes of the buffer.
pub read_back-carrydump :
    (comment : Option Text) (buffer : List ℕ)
    → IsOneLine comment
    → IsBytes buffer
    → read_back (carrydump comment buffer) ≡ buffer
read_back-carrydump comment buffer line h =
    ap read_back (carrydump-parts comment buffer)
    ∙ read_back-comment comment
        (codes "static uint8_t arry[] = {\n"
          ++ (carrydump_rows (length buffer) buffer ++ codes "};\n"))
        line
    ∙ read_back-rows (length buffer) buffer (codes "};\n") h (omega arith)
    ∙ append-nil buffer
