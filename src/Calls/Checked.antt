-- ===== src/Calls/Checked.antt =====
-- Runs of calls that are each checked: all of them, or up to the first that fails.
use mathlib.Core.Path.{fun_ext}
use hspp.Prelude.{
  ℕ, ◌≡◌, refl, sym, ap, ◌∙◌, ◌⊎◌, inl, inr, Bool, true, false, if◌then◌else◌, List, [], ◌∷◌, ◌++◌,
  append_assoc, append-nil, Bool-cases,
}
use hspp.Outcome.{stop, exit_one}
use hspp.Calls.{Program, ret, halt, call, ◌>>◌, Trace, Environment, run, is_negative, check}

module _ {C : Type 0} where
  unfoldable pub checked : List C → Program C (Unit {0})
  checked [] = ret tt
  checked (c ∷ cs) = do check c; checked cs

  abbrev pub calls_of : Trace C → List C
  calls_of [] = []
  calls_of ((c, n) ∷ t) = c ∷ calls_of t

  -- No answer is negative.
  abbrev pub AllGranted : Trace C → Type 0
  AllGranted [] = Unit
  AllGranted ((c, n) ∷ t) = (is_negative n ≡ false) × AllGranted t

  pub checked-append :
      (cs ds : List C) (k : Program C (Unit {0}))
      → (checked (cs ++ ds) >> k) ≡ (checked cs >> (checked ds >> k))
  unfolding checked
  checked-append [] ds k = refl
  checked-append (c ∷ cs) ds k = ap (call c) (
      fun_ext λ n. elim (Bool-cases (is_negative n)) [
        | inl failed ↦ rw failed refl
        | inr granted ↦ rw granted (checked-append cs ds k)
      ])

  pub checked-one : (c : C) (k : Program C (Unit {0})) → (checked (c ∷ []) >> k) ≡ (check c >> k)
  unfolding checked
  checked-one c k = ap (call c) (
      fun_ext λ n. elim (Bool-cases (is_negative n)) [
        | inl failed ↦ rw failed refl
        | inr granted ↦ rw granted refl
      ])

  -- A run of `checked cs` and then `k`: either every call is answered by a number that is not
  -- negative, and `k` follows; or one is not, and it is the last.
  pub run-checked :
      {A : Type 0} (env : Environment C) (past : Trace C) (cs : List C) (k : Program C A)
      → ((new : Trace C) × (calls_of new ≡ cs)
          × AllGranted new
          × (run env past (checked cs >> k) ≡ run env (past ++ new) k))
        ⊎ ((new : Trace C) × (c : C) × (todo : List C) × (n : ℕ) × (cs ≡ calls_of new ++ c ∷ todo)
            × AllGranted new
            × (is_negative n ≡ true)
            × (run env past (checked cs >> k) ≡ (stop exit_one, past ++ (new ++ (c, n) ∷ []))))
  unfolding checked
  run-checked env past [] k = inl ([], refl, tt, ap (λ t. run env t k) (sym (append-nil past)))
  run-checked env past (c ∷ cs) k = elim (Bool-cases (is_negative (env past c))) [
    | inl failed ↦ inr ([], c, cs, env past c, refl, tt, failed, after_first failed)
    | inr granted ↦ elim (run-checked env (past ++ (c, env past c) ∷ []) cs k) [
      | inl (new, e, all, r) ↦ inl (
        (c, env past c) ∷ new,
        ap (λ t. c ∷ t) e,
        (granted, all),
        after_first granted ∙ r ∙ ap (λ t. run env t k) (append_assoc past _ new),
      )
      | inr (new, d, todo, n, e, all, neg, r) ↦ inr (
        (c, env past c) ∷ new,
        d,
        todo,
        n,
        ap (λ t. c ∷ t) e,
        (granted, all),
        neg,
        after_first granted
            ∙ r
            ∙ ap (λ t. (stop exit_one, t)) (append_assoc past _ (new ++ (d, n) ∷ [])),
      )
    ]
  ]
    where
      after_first :
          {b : Bool}
          → is_negative (env past c) ≡ b
          → run env past (checked (c ∷ cs) >> k)
            ≡ run env
                (past ++ (c, env past c) ∷ [])
                (((if b then halt exit_one else ret tt) >> checked cs) >> k)
      after_first e =
          ap
            (λ (b : Bool).
              run env (past ++ (c, env past c) ∷ [])
                (((if b then halt exit_one else ret tt) >> checked cs) >> k))
            e
