-- ===== src/Calls/Replay.antt =====
-- A state that the calls of a trace change one after another, and what is held, as a list.
use hspp.Prelude.{ℕ, ◌==◌, if◌then◌else◌, ◌≡◌, refl, ap, ◌∙◌, List, [], ◌∷◌, ◌++◌}
use hspp.Calls.{Trace, Environment}
use hspp.Calls.Made.{made, added, made-added}

-- The list without the first occurrence of `a`.
abbrev pub without : ℕ → List ℕ → List ℕ
without a [] = []
without a (b ∷ bs) = let rest = without a bs in if a == b then bs else b ∷ rest

module _ {C S : Type 0} (after_call : S → C → ℕ → S) where
  abbrev pub replay : S → Trace C → S
  replay s [] = s
  replay s ((c, n) ∷ t) = replay (after_call s c n) t

  pub replay-append : (s : S) (t u : Trace C) → replay s (t ++ u) ≡ replay (replay s t) u
  replay-append s [] u = refl
  replay-append s ((c, n) ∷ t) u = replay-append (after_call s c n) t u

  pub replay-made :
      (env : Environment C) (s : S) (past : Trace C) (cs : List C)
      → replay s (made env past cs) ≡ replay (replay s past) (added env past cs)
  replay-made env s past cs = ap (replay s) (made-added env past cs) ∙ replay-append s past _
