-- ===== src/Calls/Bind.antt =====
-- Runs of composed programs.
use hspp.Prelude.{◌≡◌, refl}
use hspp.Outcome.{Outcome, Stop, ok, stop}
use hspp.Calls.{Program, ret, halt, call, ◌>>=◌, Trace, Environment, run}

-- A composed program that returns went through both parts.
pub run->>=_ok :
    {C A B : Type 0} (env : Environment C) (k : A → Program C B) {b : B} (p : Program C A)
    (past : Trace C)
    → (run env past (p >>= k)).0 ≡ ok b
    → (a : A) × ((run env past p).0 ≡ ok a)
      × (run env past (p >>= k) ≡ run env (run env past p).1 (k a))
run->>=_ok env k (ret a) past e = (a, refl, refl)
run->>=_ok env k (halt s) past e = cc
run->>=_ok env k (call c answer) past e = run->>=_ok env k (answer (env past c)) _ e

-- A run that returns did not stop.
pub halted :
    {C A P : Type 0} {result : Outcome A × Trace C} {a : A} {why : Stop} {t : Trace C}
    → result.0 ≡ ok a
    → result ≡ (stop why, t)
    → P
halted returns stops = cc
