-- ===== src/Calls/Made.antt =====
-- Traces that a list of calls makes.
use hspp.Prelude.{◌≡◌, ◌∙◌, append_assoc, append-nil, sym, List, [], ◌∷◌, ◌++◌}
use hspp.Calls.{Trace, Environment}

-- The trace with more calls, and what is added to it.
abbrev pub made : {C : Type 0} → Environment C → Trace C → List C → Trace C
made env past [] = past
made env past (c ∷ cs) = made env (past ++ (c, env past c) ∷ []) cs

abbrev pub added : {C : Type 0} → Environment C → Trace C → List C → Trace C
added env past [] = []
added env past (c ∷ cs) = (c, env past c) ∷ added env (past ++ (c, env past c) ∷ []) cs

pub made-added :
    {C : Type 0} (env : Environment C) (past : Trace C) (cs : List C)
    → made env past cs ≡ past ++ added env past cs
made-added env past [] = sym (append-nil past)
made-added env past (c ∷ cs) = made-added env _ cs ∙ append_assoc past _ _
