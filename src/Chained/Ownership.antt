-- ===== src/Chained/Ownership.antt =====
-- The buffers that `main` frees.
use hspp.Prelude.{
  ℕ, ◌≡◌, refl, ap, ◌∙◌, sym, subst, true, false, ◌==◌, List, [], ◌∷◌, take, inl, inr,
}
use hspp.Outcome.{ok}
use hspp.Calls.{Program, Environment, Trace, run, ◌>>=◌}
use hspp.Calls.Bind.{halted}
use hspp.Dpdk.{DpdkCall, chain}
use hspp.Chained.{rte_pktmbuf_alloc_set, chain_and_send, send_three}
use hspp.Calls.Made.{made}
use hspp.Chained.Ledger.{bad_frees, owned, allocated, AllDifferent}
use hspp.Chained.Fill.{m, filled, run-alloc_set, owned-filled}
use hspp.Chained.Send.{ntx, all_calls, run-chain_and_send, allocated-all, bad_frees-all}

module _ (env : Environment DpdkCall) (mp : ℕ) (buf0 buf1 buf2 : List ℕ) where
  abbrev t1 : Trace DpdkCall
  t1 = filled env mp [] buf0

  abbrev t2 : Trace DpdkCall
  t2 = filled env mp t1 buf1

  abbrev t3 : Trace DpdkCall
  t3 = filled env mp t2 buf2

  abbrev m0 : ℕ
  m0 = m env mp [] buf0

  abbrev m1 : ℕ
  m1 = m env mp t1 buf1

  abbrev m2 : ℕ
  m2 = m env mp t2 buf2

  -- A run that returns makes all calls.
  run-send_three :
      (run env [] (send_three mp buf0 buf1 buf2)).0 ≡ ok 0
      → ((m0 == 0) ≡ false)
        × ((m1 == 0) ≡ false)
        × ((m2 == 0) ≡ false)
        × ((ntx env mp m0 m1 m2 t3 == 1) ≡ true)
        × ((run env [] (send_three mp buf0 buf1 buf2)).1
            ≡ made env t3 (all_calls env mp m0 m1 m2 t3))
  unfolding send_three
  run-send_three e = elim (run-alloc_set env mp [] buf0 then0) [
    | inl (n0, r0) ↦ halted e r0
    | inr (n0, r0) ↦ elim (run-alloc_set env mp t1 buf1 then1) [
      | inl (n1, r1) ↦ halted e (r0 ∙ r1)
      | inr (n1, r1) ↦ elim (run-alloc_set env mp t2 buf2 (chain_and_send mp m0 m1)) [
        | inl (n2, r2) ↦ halted e (r0 ∙ r1 ∙ r2)
        | inr (n2, r2) ↦ elim (run-chain_and_send env mp m0 m1 m2 t3) [
          | inl (taken, r) ↦ (n0, n1, n2, taken, ap (λ x. x.1) (r0 ∙ r1 ∙ r2 ∙ r))
          | inr (refused, r) ↦ halted e (r0 ∙ r1 ∙ r2 ∙ r)
        ]
      ]
    ]
  ]
    where
      then1 : ℕ → Program DpdkCall ℕ
      then1 b = do m2 ← rte_pktmbuf_alloc_set mp buf2 1000; chain_and_send mp m0 b m2

      then0 : ℕ → Program DpdkCall ℕ
      then0 a = do
        b ← rte_pktmbuf_alloc_set mp buf1 1000
        m2 ← rte_pktmbuf_alloc_set mp buf2 1000
        chain_and_send mp a b m2

  owned-t3 :
      (m0 == 0) ≡ false
      → (m1 == 0) ≡ false
      → (m2 == 0) ≡ false
      → owned [] t3 ≡ (m2 ∷ []) ∷ (m1 ∷ []) ∷ (m0 ∷ []) ∷ []
  owned-t3 n0 n1 n2 =
      owned-filled env mp t2 buf2 [] n2
      ∙ ap (λ o. (m2 ∷ []) ∷ o)
          (owned-filled env mp t1 buf1 [] n1
            ∙ ap (λ o. (m1 ∷ []) ∷ o) (owned-filled env mp [] buf0 [] n0))

  -- Where the pool hands out different buffers and chaining succeeds: if the program returns, it has
  -- called `rte_pktmbuf_free` for the first two of its three buffers, and owned neither of them.
  pub bad_frees-send_three :
      ((t : Trace DpdkCall) (a b : ℕ) → env t (chain a b) ≡ 0)
      → (run env [] (send_three mp buf0 buf1 buf2)).0 ≡ ok 0
      → AllDifferent (allocated (run env [] (send_three mp buf0 buf1 buf2)).1)
      → bad_frees [] (run env [] (send_three mp buf0 buf1 buf2)).1
        ≡ take 2 (allocated (run env [] (send_three mp buf0 buf1 buf2)).1)
  bad_frees-send_three chains e d =
      let (n0, n1, n2, taken, r) = run-send_three e in
      let all = ap allocated r ∙ allocated-all env mp m0 m1 m2 t3 in
      ap (bad_frees []) r
      ∙ bad_frees-all env mp m0 m1 m2 t3 chains taken (subst AllDifferent all d) (owned-t3 n0 n1 n2)
          refl
      ∙ sym (ap (take 2) all)
