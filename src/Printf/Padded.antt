-- ===== src/Printf/Padded.antt =====
-- A number printed with leading zeros is its digits, as many as the width says.
use hspp.Prelude.{
  ℕ, zero, suc, ◌-◌, ◌/◌, ◌%◌, ◌≡◌, ◌<◌, refl, sym, ap, ◌∙◌, arith, ◌==◌, [], ◌∷◌, ◌++◌, Text,
  length, length-append, replicate, append_assoc, Bool-cases, inl, inr, ==_iff,
}
use hspp.Printf.{digit, digits, hex, hex0}

-- The last `w` hexadecimal digits of `n`, and that it has no more.
abbrev pub fixed : ℕ → ℕ → Text
fixed zero n = []
fixed (suc w) n = fixed w (n / 16) ++ digit (n % 16) ∷ []

abbrev pub Fits : ℕ → ℕ → Type 0
Fits zero n = n ≡ 0
Fits (suc w) n = Fits w (n / 16)

replicate-last : (w c : ℕ) → replicate w c ++ c ∷ [] ≡ c ∷ replicate w c
replicate-last zero c = refl
replicate-last (suc w) c = ap (λ t. c ∷ t) (replicate-last w c)

fixed-zero : (w : ℕ) → fixed w 0 ≡ replicate w b'0'
fixed-zero zero = refl
fixed-zero (suc w) = ap (λ t. t ++ b'0' ∷ []) (fixed-zero w) ∙ replicate-last w b'0'

digits-out : (fuel n : ℕ) (out : Text) → digits 16 fuel n out ≡ digits 16 fuel n [] ++ out
unfolding digits
digits-out zero n out = refl
digits-out (suc fuel) n out = elim (Bool-cases (n / 16 == 0)) [
  | inl last ↦ rw last refl
  | inr more ↦ rw more (
      digits-out fuel (n / 16) (digit (n % 16) ∷ out)
      ∙ sym (
          ap (λ t. t ++ out) (digits-out fuel (n / 16) (digit (n % 16) ∷ []))
          ∙ append_assoc _ (digit (n % 16) ∷ []) out))
]

padded :
    (fuel w n : ℕ)
    → w < fuel
    → Fits (suc w) n
    → replicate (suc w - length (digits 16 fuel n [])) b'0' ++ digits 16 fuel n [] ≡ fixed (suc w) n
unfolding digits
padded zero w n h fits = ground arith
padded (suc fuel) zero n h fits = rw ((==_iff (n / 16) 0).1 fits) refl
padded (suc fuel) (suc w) n h fits = elim (Bool-cases (n / 16 == 0)) [
  | inl last ↦ rw last (
      ap (λ k. replicate k b'0' ++ digit (n % 16) ∷ []) {x = suc (suc w) - 1} {y = suc w}
        (omega arith)
      ∙ ap (λ t. t ++ digit (n % 16) ∷ [])
          (sym (ap (fixed (suc w)) ((==_iff (n / 16) 0).0 last) ∙ fixed-zero (suc w))))
  | inr more ↦ rw more (
      ap (λ t. replicate (suc (suc w) - length t) b'0' ++ t)
        (digits-out fuel (n / 16) (digit (n % 16) ∷ []))
      ∙ ap (λ k. replicate k b'0' ++ (digits 16 fuel (n / 16) [] ++ digit (n % 16) ∷ []))
          {x = suc (suc w) - length (digits 16 fuel (n / 16) [] ++ digit (n % 16) ∷ [])}
          {y = suc w - length (digits 16 fuel (n / 16) [])}
          (omega (arith, length-append (digits 16 fuel (n / 16) []) (digit (n % 16) ∷ [])))
      ∙ sym (append_assoc _ (digits 16 fuel (n / 16) []) (digit (n % 16) ∷ []))
      ∙ ap (λ t. t ++ digit (n % 16) ∷ []) (padded fuel w (n / 16) (omega arith) fits))
]

pub hex0-fixed : (w n : ℕ) → w < 16 → Fits (suc w) n → hex0 (suc w) n ≡ fixed (suc w) n
unfolding hex0 hex
hex0-fixed w n h fits = padded 16 w n h fits
