-- ===== src/Outcome.antt =====
-- How a C function ends: with a value, or in one of the ways in which the process stops.
pub mod Ensures
use hspp.Prelude.{Bool, true, false, ◌≡◌, refl, ◌⊎◌, inl, inr}

-- `exit_one` is `exit(1)`, `assert_failed` an `assert` that fails or `rte_panic`, which both abort,
-- `bad_access` a read or a write outside the memory at hand, `null_access` a read through NULL.
-- `no_fuel` is no behaviour of the program: it says that the model's bound on the rounds of a loop
-- was too small.
pub data Stop : Type 0 where
  exit_one assert_failed bad_access null_access no_fuel : Stop

pub data Outcome {ℓ} (A : Type ℓ) : Type ℓ where
  ok : A → Outcome A
  stop : Stop → Outcome A

infixl 5 ◌>>=◌ ◌>>◌
abbrev pub require : Bool → Stop → Outcome (Unit {0})
require true reason = ok tt
require false reason = stop reason

abbrev pub ◌>>=◌ {ℓ κ} : {B : Type κ} {A : Type ℓ} → Outcome A → (A → Outcome B) → Outcome B
stop reason >>= next = stop reason
ok value >>= next = next value

abbrev pub ◌>>◌ {ℓ} : {B : Type ℓ} → Outcome (Unit {0}) → Outcome B → Outcome B
run >> next = run >>= λ _. next

-- A run that gives a result went through both parts.
pub >>=-eq-ok {ℓ κ} :
    {B : Type κ} {A : Type ℓ} (run : Outcome A) (next : A → Outcome B) {result : B}
    → (run >>= next) ≡ ok result
    → (value : A) × (run ≡ ok value) × (next value ≡ ok result)
>>=-eq-ok (stop reason) next h = cc
>>=-eq-ok (ok value) next h = (value, refl, h)

pub Outcome-cases {ℓ} :
    {A : Type ℓ} (run : Outcome A) → ((a : A) × (run ≡ ok a)) ⊎ ((s : Stop) × (run ≡ stop s))
Outcome-cases (ok a) = inl (a, refl)
Outcome-cases (stop s) = inr (s, refl)

pub same_ok {ℓ} : {A : Type ℓ} {a b : A} → ok a ≡ ok b → a ≡ b
same_ok e = cc
