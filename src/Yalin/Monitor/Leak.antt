-- ===== src/Yalin/Monitor/Leak.antt =====
-- The receive loop never returns a result with which `main` would go on.
use hspp.Prelude.{◌≡◌}
use hspp.Outcome.{Outcome}
use hspp.Memory.{Memory}
use hspp.Yalin.Monitor.{Process, exit_code}

-- An exit code, if there is one, is 1.
abbrev pub IsFailure : Process → Type 0
IsFailure (exit_code code out) = code ≡ 1
IsFailure _ = Unit
