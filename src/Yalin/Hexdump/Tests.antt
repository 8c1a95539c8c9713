-- ===== src/Yalin/Hexdump/Tests.antt =====
-- The theorems on the dumps at a buffer of 18 bytes and at one of 5.
use hspp.Prelude.{ℕ, ◌≡◌, refl, arith, List, [], ◌∷◌, ◌++◌, replicate, some, codes}
use hspp.Memory.Bounds.{IsBytes}
use hspp.Yalin.Hexdump.{hexdump, carrydump}
use hspp.Yalin.Hexdump.Reader.{read_back}
use hspp.Yalin.Hexdump.ReadBack.{IsOneLine, read_back-carrydump}
use hspp.Yalin.Hexdump.Rows.{bytes_of, full_lines, last_line, hexdump_lem}

abbrev rows : List (List ℕ)
rows = replicate 16 0x41 ∷ []

hexdump_lem_example :
    hexdump (bytes_of rows ++ (1 ∷ 2 ∷ [])) ≡ full_lines 0 rows ++ last_line 16 (1 ∷ 2 ∷ [])
hexdump_lem_example = hexdump_lem rows (1 ∷ 2 ∷ []) (refl, tt) (omega arith)

-- The third and fourth byte end the comment of the row.
read_back-carrydump_example :
    read_back (carrydump (some (codes "test")) (1 ∷ 0xff ∷ 0x2a ∷ 0x2f ∷ 0x30 ∷ []))
    ≡ 1 ∷ 0xff ∷ 0x2a ∷ 0x2f ∷ 0x30 ∷ []
read_back-carrydump_example =
    read_back-carrydump (some (codes "test")) (1 ∷ 0xff ∷ 0x2a ∷ 0x2f ∷ 0x30 ∷ []) one_line
      all_bytes
  where
    one_line : IsOneLine (some (codes "test"))
    one_line = (refl, (refl, (refl, (refl, tt))))

    all_bytes : IsBytes (1 ∷ 0xff ∷ 0x2a ∷ 0x2f ∷ 0x30 ∷ [])
    all_bytes = ground arith
