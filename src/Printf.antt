-- ===== src/Printf.antt =====
-- The conversions of `printf` that the sources use, and `snprintf` into a buffer.
pub mod Padded
pub mod CString
use hspp.Prelude.{
  ℕ, zero, suc, ◌+◌, ◌-◌, ◌/◌, ◌%◌, ◌≡◌, refl, ltb, ◌==◌, if◌then◌else◌, [], ◌∷◌, ◌++◌, Text, codes,
  length, take, replicate,
}

abbrev pub digit : ℕ → ℕ
digit d = if ltb d 10 then b'0' + d else b'a' + (d - 10)

-- The digits of `n` before `out`, at most `fuel` of them.
unfoldable pub digits : ℕ → ℕ → ℕ → Text → Text
digits base zero n out = out
digits base (suc fuel) n out =
    let out' = digit (n % base) ∷ out in
    let rest = digits base fuel (n / base) out' in if n / base == 0 then out' else rest

-- A 64-bit number has at most 20 decimal digits and at most 16 hexadecimal ones.
-- `%u`, `%zd`, `%llu`: decimal.
unfoldable pub dec : ℕ → Text
unfolding digits
dec n = digits 10 20 n []

unfoldable pub hex : ℕ → Text
unfolding digits
hex n = digits 16 16 n []

-- `%0<width>x`: hexadecimal, filled up with zeros on the left.
unfoldable pub hex0 : ℕ → ℕ → Text
unfolding hex
hex0 width n = replicate (width - length (hex n)) b'0' ++ hex n

-- `snprintf(str, size, …)` keeps the first `size - 1` bytes of the text, before a NUL.
unfoldable pub snprintf : ℕ → Text → Text
snprintf size text = take (size - 1) text

dec_example : dec 1800 ≡ codes "1800"
unfolding dec
dec_example = refl

hex0_example : hex0 4 0x8a ≡ codes "008a"
unfolding hex0
hex0_example = refl
