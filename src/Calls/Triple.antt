-- ===== src/Calls/Triple.antt =====
-- What a program does to a state that the calls change: from a state before it to what holds of its
-- result and of the state after it, if it returns.
use hspp.Prelude.{
  ℕ, ◌≡◌, refl, sym, ap, ◌∙◌, subst, Bool, true, false, if◌then◌else◌, ◌==◌, [], ◌∷◌, ◌++◌,
}
use hspp.Outcome.{ok, exit_one, same_ok, Stop}
use hspp.Calls.{
  Program, ret, halt, ◌>>=◌, ask, tell, check, ask_pointer, ask_fd, Trace, Environment, run,
  is_negative,
}
use hspp.Calls.Bind.{run->>=_ok}
use hspp.Calls.Replay.{replay, replay-append}

module _ {C S : Type 0} (after_call : S → C → ℕ → S) (start : S) where
  abbrev pub state : Trace C → S
  state = replay after_call start

  pub record Triple {A : Type 0} (s : S) (p : Program C A) (Post : A → S → Type 0) : Type 0 where
    pub holds :
        (env : Environment C) (past : Trace C) (a : A)
        → state past ≡ s
        → (run env past p).0 ≡ ok a
        → Post a (state (run env past p).1)

  state-call :
      {s : S} (c : C) (env : Environment C) (past : Trace C)
      → state past ≡ s
      → state (past ++ (c, env past c) ∷ []) ≡ after_call s c (env past c)
  state-call c env past e =
      replay-append after_call start past ((c, env past c) ∷ [])
      ∙ ap (λ t. after_call t c (env past c)) e

module _ {C S : Type 0} {after_call : S → C → ℕ → S} {start : S} where
  pub triple_ret :
      {A : Type 0} {s : S} {a : A} {Post : A → S → Type 0}
      → Post a s
      → Triple after_call start s (ret a) Post
  triple_ret {A} {s} {a} {Post} known = record {
    holds = λ env past b e returns.
        subst (λ t. Post b t) (sym e) (subst (λ c. Post c s) (same_ok returns) known);
  }

  pub triple_halt :
      {A : Type 0} {s : S} {why : Stop} {Post : A → S → Type 0}
      → Triple after_call start s (halt why) Post
  triple_halt = record { holds = λ env past b e returns. cc }

  -- A program, and what follows it in the state that it leaves.
  pub triple_bind :
      {A B : Type 0} {s : S} (p : Program C A) {k : A → Program C B} {left : A → S}
      {Post : B → S → Type 0}
      → Triple after_call start s p (λ a t. t ≡ left a)
      → ((a : A) → Triple after_call start (left a) (k a) Post)
      → Triple after_call start s (p >>= k) Post
  triple_bind {s = s} p {k} {left} {Post} first second = record {
    holds = λ env past b e returns.
        let (a, ea, er) = run->>=_ok env k p past returns in
        subst (λ r. Post b (state after_call start r.1)) (sym er)
          ((second a).holds env (run env past p).1 b (first.holds env past a e ea)
            (ap (λ r. r.0) (sym er) ∙ returns));
  }

  pub triple_ask :
      {s : S} {left : ℕ → S} (c : C)
      → ((n : ℕ) → after_call s c n ≡ left n)
      → Triple after_call start s (ask c) (λ n t. t ≡ left n)
  triple_ask {s} {left} c same = record {
    holds = λ env past a e returns.
        state-call after_call start c env past e ∙ same (env past c) ∙ ap left (same_ok returns);
  }

  pub triple_tell :
      {s s' : S} (c : C)
      → ((n : ℕ) → after_call s c n ≡ s')
      → Triple after_call start s (tell c) (λ _ t. t ≡ s')
  triple_tell c same = record {
    holds = λ env past a e returns. state-call after_call start c env past e ∙ same (env past c);
  }

  -- A call whose answer is tested, and ends the process where the test holds.
  triple_test :
      {A : Type 0} {s : S} {left : A → S} (c : C) (test : ℕ → Bool) (value : ℕ → A)
      → ((n : ℕ) → test n ≡ false → after_call s c n ≡ left (value n))
      → Triple after_call start s
          (do n ← ask c; if test n then halt exit_one else ret (value n))
          (λ a t. t ≡ left a)
  triple_test {A} {s} {left} c test value same = record {
    holds = λ env past a e returns.
        tested env past a (test (env past c)) (state-call after_call start c env past e)
          (same (env past c)) returns;
  }
    where
      tested :
          (env : Environment C) (past : Trace C) (a : A) (b : Bool)
          → state after_call start (past ++ (c, env past c) ∷ []) ≡ after_call s c (env past c)
          → (b ≡ false → after_call s c (env past c) ≡ left (value (env past c)))
          → (run env
              (past ++ (c, env past c) ∷ [])
              (if b then halt exit_one else ret (value (env past c)))).0
            ≡ ok a
          → state after_call start
              (run env
                (past ++ (c, env past c) ∷ [])
                (if b then halt exit_one else ret (value (env past c)))).1
            ≡ left a
      tested env past a true e known returns = cc
      tested env past a false e known returns = e ∙ known refl ∙ ap left (same_ok returns)

  pub triple_check :
      {s s' : S} (c : C)
      → ((n : ℕ) → is_negative n ≡ false → after_call s c n ≡ s')
      → Triple after_call start s (check c) (λ _ t. t ≡ s')
  triple_check {s' = s'} c same = triple_test {left = λ _. s'} c is_negative (λ _. tt) same

  pub triple_pointer :
      {s : S} {left : ℕ → S} (c : C)
      → ((n : ℕ) → (n == 0) ≡ false → after_call s c n ≡ left n)
      → Triple after_call start s (ask_pointer c) (λ p t. t ≡ left p)
  triple_pointer {left = left} c same = triple_test {left = left} c (λ n. n == 0) (λ n. n) same

  pub triple_fd :
      {s : S} {left : ℕ → S} (c : C)
      → ((n : ℕ) → is_negative n ≡ false → after_call s c n ≡ left n)
      → Triple after_call start s (ask_fd c) (λ fd t. t ≡ left fd)
  triple_fd {left = left} c same = triple_test {left = left} c is_negative (λ n. n) same
