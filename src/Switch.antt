-- ===== src/Switch.antt =====
-- A C `switch` over case labels that a header defines: the label's value is a parameter, and the
-- model's enumeration has a constructor for each label.
use hspp.Prelude.{
  ℕ, zero, suc, Bool, true, false, ◌≡◌, refl, ◌==◌, ==_iff, if◌then◌else◌, ◌&&◌, not, List, [], ◌∷◌,
  map, Option, none, some, get_elem?, arith, ap, Text, ◌↔◌, Bool-cases, inl, inr,
}

-- C refuses a switch with two equal labels.
abbrev pub mem_ℕ : ℕ → List ℕ → Bool
mem_ℕ v [] = false
mem_ℕ v (x ∷ xs) = if v == x then true else mem_ℕ v xs

abbrev pub distinct : List ℕ → Bool
distinct [] = true
distinct (x ∷ xs) = not (mem_ℕ x xs) && distinct xs

pub some_eq {ℓ} : {A : Type ℓ} {a b : A} → some a ≡ some b → a ≡ b
some_eq h = cc

and_right : (a b : Bool) → (a && b) ≡ true → b ≡ true
and_right a b h = ground arith

module _ {K : Type 0} (value : K → ℕ) where
  -- The label that is selected; `none` is the default case.
  unfoldable pub switch : List K → ℕ → Option K
  switch [] v = none
  switch (k ∷ ks) v = if value k == v then some k else switch ks v

  pub switch_sound : (ks : List K) (v : ℕ) {k : K} → switch ks v ≡ some k → value k ≡ v
  unfolding switch
  switch_sound [] v h = cc
  switch_sound (j ∷ ks) v {k} h = elim (Bool-cases (value j == v)) [
    | inl e ↦ ground (arith, ==_iff (value j) v)
    | inr e ↦ switch_sound ks v (rw e at h)
  ]

  mem_of_elem :
      (ks : List K) (i : ℕ) {k : K}
      → get_elem? ks i ≡ some k
      → mem_ℕ (value k) (map value ks) ≡ true
  mem_of_elem [] i h = cc
  mem_of_elem (j ∷ ks) zero {k} h = ground (arith, ap value (some_eq h))
  mem_of_elem (j ∷ ks) (suc i) {k} h = ground (arith, mem_of_elem ks i h)

  -- With distinct labels, each label is selected by its own value.
  pub switch_label :
      (ks : List K) (i : ℕ) {k : K}
      → distinct (map value ks) ≡ true
      → get_elem? ks i ≡ some k
      → switch ks (value k) ≡ some k
  unfolding switch
  switch_label [] i d h = cc
  switch_label (j ∷ ks) zero {k} d h = ground (arith, ap value (some_eq h))
  switch_label (j ∷ ks) (suc i) {k} d h = ground (
    arith,
    mem_of_elem ks i h,
    switch_label ks i (and_right (not (mem_ℕ (value j) (map value ks))) (distinct (map value ks)) d)
        h,
  )

  pub switch_default : (ks : List K) (v : ℕ) → mem_ℕ v (map value ks) ≡ false → switch ks v ≡ none
  unfolding switch
  switch_default [] v h = refl
  switch_default (k ∷ ks) v h = ground (arith, switch_default ks v)

-- Texts are compared byte by byte, as `strcmp` does.
unfoldable pub text_eq : Text → Text → Bool
text_eq [] [] = true
text_eq [] (d ∷ t) = false
text_eq (c ∷ s) [] = false
text_eq (c ∷ s) (d ∷ t) = c == d && text_eq s t

pub text_eq_iff : (s t : Text) → (text_eq s t ≡ true) ↔ (s ≡ t)
unfolding text_eq
text_eq_iff [] [] = ((λ _. refl), (λ _. refl))
text_eq_iff [] (d ∷ t) = ((λ h. cc), (λ h. cc))
text_eq_iff (c ∷ s) [] = ((λ h. cc), (λ h. cc))
text_eq_iff (c ∷ s) (d ∷ t) = ground (arith, text_eq_iff s t)
