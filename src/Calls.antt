-- ===== src/Calls.antt =====
-- Programs that call the operating system or a library. A program is a tree of the calls that it
-- makes, and an environment answers each call by a number, which may depend on the calls before.
pub mod Checked
pub mod Made
pub mod Bind
pub mod Replay
pub mod Triple
use hspp.Prelude.{ℕ, ◌==◌, Bool, true, false, leb, ◌^◌, if◌then◌else◌, List, [], ◌∷◌, ◌++◌}
use hspp.Outcome.{Outcome, ok, stop, Stop, exit_one}

pub data Program (C A : Type 0) : Type 0 where
  ret : A → Program C A
  halt : Stop → Program C A
  call : C → (ℕ → Program C A) → Program C A

infixl 5 ◌>>=◌ ◌>>◌
abbrev pub ◌>>=◌ : {C A B : Type 0} → Program C A → (A → Program C B) → Program C B
ret a >>= next = next a
halt reason >>= next = halt reason
call c answer >>= next = call c (λ n. answer n >>= next)

abbrev pub ◌>>◌ : {C B : Type 0} → Program C (Unit {0}) → Program C B → Program C B
first >> next = first >>= λ _. next

-- The call, and its answer as the result.
abbrev pub ask : {C : Type 0} → C → Program C ℕ
ask c = call c ret

-- The call, with an answer that the program does not look at.
abbrev pub tell : {C : Type 0} → C → Program C (Unit {0})
tell c = call c (λ _. ret tt)

-- What was called and answered, in order.
abbrev pub Trace : Type 0 → Type 0
Trace C = List (C × ℕ)

abbrev pub Environment : Type 0 → Type 0
Environment C = Trace C → C → ℕ

-- The result, and the trace `past` with what the program adds to it.
abbrev pub run : {C A : Type 0} → Environment C → Trace C → Program C A → Outcome A × Trace C
run env past (ret a) = (ok a, past)
run env past (halt reason) = (stop reason, past)
run env past (call c answer) = run env (past ++ (c, env past c) ∷ []) (answer (env past c))

-- An `int` is a 32-bit pattern; from 2 ^ 31 on it is negative.
abbrev pub is_negative : ℕ → Bool
is_negative n = leb (2 ^ 31) n

-- `if (ret < 0) rte_exit(EXIT_FAILURE, …)`
abbrev pub check : {C : Type 0} → C → Program C (Unit {0})
check c = call c (λ n. if is_negative n then halt exit_one else ret tt)

-- A result of 0 is NULL, and ends the process.
abbrev pub ask_pointer : {C : Type 0} → C → Program C ℕ
ask_pointer c = do p ← ask c; if p == 0 then halt exit_one else ret p

-- `if (ret != 0) rte_exit(EXIT_FAILURE, …)`
abbrev pub check_zero : {C : Type 0} → C → Program C (Unit {0})
check_zero c = do n ← ask c; if n == 0 then ret tt else halt exit_one

-- A descriptor; a negative one ends the process.
abbrev pub ask_fd : {C : Type 0} → C → Program C ℕ
ask_fd c = do fd ← ask c; if is_negative fd then halt exit_one else ret fd

-- A part of the program that makes no calls.
abbrev pub lift : {C A : Type 0} → Outcome A → Program C A
lift (ok a) = ret a
lift (stop reason) = halt reason
