-- ===== src/Chained/Send.antt =====
-- The calls from the first `rte_pktmbuf_chain` on: what they make of a trace.
use hspp.Prelude.{
  ℕ, ◌≡◌, ◌≢◌, ap, ◌∙◌, append-nil, arith, Bool, true, false, ◌==◌, if◌then◌else◌, List, [], ◌∷◌,
  ◌++◌, take, ◌⊎◌, inl, inr, Bool-cases,
}
use hspp.Outcome.{ok, stop, exit_one}
use hspp.Calls.{Program, halt, ret, tell, Environment, Trace, run, ◌>>◌}
use hspp.Dpdk.{DpdkCall, mbuf_dump, mempool_free, chain, linearize, tx_burst, mbuf_free}
use hspp.Chained.{chain_and_send}
use hspp.Calls.Made.{made, added, made-added}
use hspp.Chained.Ledger.{
  bad_frees, owned, allocated, AllDifferent, bad_frees-append, allocated-append,
}

abbrev pub chain_calls : ℕ → ℕ → ℕ → List DpdkCall
chain_calls m0 m1 m2 = chain m0 m1 ∷ chain m0 m2 ∷ linearize m0 ∷ mbuf_dump m0 ∷ tx_burst 0 m0 ∷ []

abbrev pub free_calls : ℕ → ℕ → ℕ → List DpdkCall
free_calls mp m0 m1 = mbuf_free m0 ∷ mbuf_free m1 ∷ mempool_free mp ∷ []

pub bad_frees-sent :
    (mp m0 m1 m2 l d n f f' g : ℕ) {c1 c2 : ℕ}
    → c1 ≡ 0
    → c2 ≡ 0
    → (n == 1) ≡ true
    → m0 ≢ m1
    → m0 ≢ m2
    → m1 ≢ m2
    → bad_frees ((m2 ∷ []) ∷ (m1 ∷ []) ∷ (m0 ∷ []) ∷ []) (
        (chain m0 m1, c1)
        ∷ (chain m0 m2, c2)
        ∷ (linearize m0, l)
        ∷ (mbuf_dump m0, d)
        ∷ (tx_burst 0 m0, n)
        ∷ (mbuf_free m0, f)
        ∷ (mbuf_free m1, f')
        ∷ (mempool_free mp, g)
        ∷ [])
      ≡ m0 ∷ m1 ∷ []
bad_frees-sent mp m0 m1 m2 l d n f f' g e1 e2 taken h01 h02 h12 = ground arith

module _ (env : Environment DpdkCall) (mp m0 m1 m2 : ℕ) (past : Trace DpdkCall) where
  abbrev pub burst : Trace DpdkCall
  burst = made env past (chain_calls m0 m1 m2)

  abbrev pub ntx : ℕ
  ntx =
      env (made env past (chain m0 m1 ∷ chain m0 m2 ∷ linearize m0 ∷ mbuf_dump m0 ∷ []))
        (tx_burst 0 m0)

  abbrev pub all_calls : List DpdkCall
  all_calls = chain_calls m0 m1 m2 ++ free_calls mp m0 m1

  pub run-chain_and_send :
      ((ntx == 1) ≡ true)
        × (run env past (chain_and_send mp m0 m1 m2) ≡ (ok 0, made env past all_calls))
      ⊎ ((ntx == 1) ≡ false) × (run env past (chain_and_send mp m0 m1 m2) ≡ (stop exit_one, burst))
  unfolding chain_and_send
  run-chain_and_send = elim (Bool-cases (ntx == 1)) [
    | inl taken ↦ inl (taken, after_burst taken)
    | inr refused ↦ inr (refused, after_burst refused)
  ]
    where
      free_all : Program DpdkCall ℕ
      free_all = do tell (mbuf_free m0); tell (mbuf_free m1); tell (mempool_free mp); ret 0

      after_burst :
          {b : Bool}
          → (ntx == 1) ≡ b
          → run env past (chain_and_send mp m0 m1 m2)
            ≡ run env burst (if b then free_all else halt exit_one)
      after_burst e = ap (λ (b : Bool). run env burst (if b then free_all else halt exit_one)) e

  pub allocated-all : allocated (made env past all_calls) ≡ allocated past
  allocated-all =
      ap allocated (made-added env past all_calls) ∙ allocated-append past _ ∙ append-nil _

  pub bad_frees-all :
      ((t : Trace DpdkCall) (a b : ℕ) → env t (chain a b) ≡ 0)
      → (ntx == 1) ≡ true
      → AllDifferent (m0 ∷ m1 ∷ m2 ∷ [])
      → owned [] past ≡ (m2 ∷ []) ∷ (m1 ∷ []) ∷ (m0 ∷ []) ∷ []
      → bad_frees [] past ≡ []
      → bad_frees [] (made env past all_calls) ≡ m0 ∷ m1 ∷ []
  bad_frees-all chains taken d own none =
      ap (bad_frees []) (made-added env past all_calls)
      ∙ bad_frees-append [] past _
      ∙ ap (λ f. f ++ bad_frees (owned [] past) (added env past all_calls)) none
      ∙ ap (λ o. bad_frees o (added env past all_calls)) own
      ∙ bad_frees-sent mp m0 m1 m2 (answer 2 (linearize m0)) (answer 3 (mbuf_dump m0)) ntx
          (answer 5 (mbuf_free m0)) (answer 6 (mbuf_free m1)) (answer 7 (mempool_free mp))
          (chains past m0 m1) (chains (made env past (chain m0 m1 ∷ [])) m0 m2) taken d.0.0 d.0.1.0
          d.1.0.0
    where
      answer : ℕ → DpdkCall → ℕ
      answer i c = env (made env past (take i all_calls)) c
