-- ===== src/Outcome/Ensures.antt =====
-- What holds of the result of a run, if it gives one.
use hspp.Prelude.{◌≡◌, subst, Bool, true, false, if◌then◌else◌}
use hspp.Outcome.{Outcome, ok, stop, Stop, same_ok, ◌>>=◌}

pub data Ensures {ℓ} {A : Type ℓ} (P : A → Type 0) : Outcome A → Type ℓ where
  ensured : {a : A} → P a → Ensures P (ok a)
  halted : {s : Stop} → Ensures P (stop s)

-- A result that nothing is said of, and one of which something is known.
pub any-Ensures {ℓ κ} :
    {A : Type ℓ} {B : Type κ} (run : Outcome A) {next : A → Outcome B} {Q : B → Type 0}
    → ((a : A) → Ensures Q (next a))
    → Ensures Q (run >>= next)
any-Ensures (ok a) later = later a
any-Ensures (stop s) later = halted

pub known-Ensures {ℓ κ} :
    {A : Type ℓ} {B : Type κ} {P : A → Type 0} (run : Outcome A) {next : A → Outcome B}
    {Q : B → Type 0}
    → Ensures P run
    → ((a : A) → P a → Ensures Q (next a))
    → Ensures Q (run >>= next)
known-Ensures (ok a) (ensured p) later = later a p
known-Ensures (stop s) known later = halted

pub if-Ensures {ℓ} :
    {A : Type ℓ} {P : A → Type 0} (test : Bool) {yes no : Outcome A}
    → Ensures P yes
    → Ensures P no
    → Ensures P (if test then yes else no)
if-Ensures true a b = a
if-Ensures false a b = b

-- What is known of the result that a run gave.
pub result {ℓ} :
    {A : Type ℓ} {P : A → Type 0} (run : Outcome A) {a : A} → Ensures P run → run ≡ ok a → P a
result {P = P} (ok b) (ensured p) e = subst P (same_ok e) p
result (stop s) known e = cc
