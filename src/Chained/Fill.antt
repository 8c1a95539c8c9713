-- ===== src/Chained/Fill.antt =====
-- One call of `rte_pktmbuf_alloc_set`: what it makes of a trace.
use hspp.Prelude.{
  ℕ, ◌≡◌, ap, ◌∙◌, append-nil, Bool, true, false, ◌==◌, if◌then◌else◌, List, [], ◌∷◌, ◌++◌, take,
  ◌⊎◌, inl, inr, Bool-cases,
}
use hspp.Outcome.{stop, null_access}
use hspp.Calls.{Program, halt, ret, tell, Environment, Trace, run, ◌>>=◌, ◌>>◌}
use hspp.Dpdk.{DpdkCall, mbuf_alloc, set_pkt_len, set_data_len, memcpy}
use hspp.Chained.{rte_pktmbuf_alloc_set}
use hspp.Calls.Replay.{replay-append}
use hspp.Calls.Made.{made, made-added}
use hspp.Chained.Ledger.{
  after_call, Packets, bad_frees, owned, allocated, bad_frees-append, allocated-append,
}

abbrev pub fill_calls : ℕ → List ℕ → ℕ → List DpdkCall
fill_calls mp buf m =
    mbuf_alloc mp ∷ set_pkt_len m 1000 ∷ set_data_len m 1000 ∷ memcpy m (take 1000 buf) ∷ []

module _ (env : Environment DpdkCall) (mp : ℕ) (past : Trace DpdkCall) (buf : List ℕ) where
  abbrev pub m : ℕ
  m = env past (mbuf_alloc mp)

  abbrev pub filled : Trace DpdkCall
  filled = made env past (fill_calls mp buf m)

  module _ {A : Type 0} (k : ℕ → Program DpdkCall A) where
    -- What the program goes on with, if the pool gave a buffer and if it did not.
    pub run-alloc_set :
        ((m == 0) ≡ true)
          × (run env past (rte_pktmbuf_alloc_set mp buf 1000 >>= k)
              ≡ (stop null_access, made env past (mbuf_alloc mp ∷ [])))
        ⊎ ((m == 0) ≡ false)
          × (run env past (rte_pktmbuf_alloc_set mp buf 1000 >>= k) ≡ run env filled (k m))
    unfolding rte_pktmbuf_alloc_set
    run-alloc_set = elim (Bool-cases (m == 0)) [
      | inl null ↦ inl (null, after_alloc null)
      | inr some ↦ inr (some, after_alloc some)
    ]
      where
        stored : Program DpdkCall ℕ
        stored = do
          tell (set_pkt_len m 1000)
          tell (set_data_len m 1000)
          tell (memcpy m (take 1000 buf))
          ret m

        after_alloc :
            {b : Bool}
            → (m == 0) ≡ b
            → run env past (rte_pktmbuf_alloc_set mp buf 1000 >>= k)
              ≡ run env
                  (made env past (mbuf_alloc mp ∷ []))
                  ((if b then halt null_access else stored) >>= k)
        after_alloc e =
            ap
              (λ (b : Bool).
                run env (made env past (mbuf_alloc mp ∷ []))
                  ((if b then halt null_access else stored) >>= k))
              e

  pub owned-filled :
      (own : Packets) → (m == 0) ≡ false → owned own filled ≡ (m ∷ []) ∷ owned own past
  owned-filled own h =
      ap (owned own) (made-added env past (fill_calls mp buf m))
      ∙ replay-append after_call own past _
      ∙ ap (λ (b : Bool). if b then owned own past else (m ∷ []) ∷ owned own past) h

  pub bad_frees-filled : (own : Packets) → bad_frees own filled ≡ bad_frees own past
  bad_frees-filled own =
      ap (bad_frees own) (made-added env past (fill_calls mp buf m))
      ∙ bad_frees-append own past _
      ∙ append-nil _

  pub allocated-filled : allocated filled ≡ allocated past ++ m ∷ []
  allocated-filled =
      ap allocated (made-added env past (fill_calls mp buf m)) ∙ allocated-append past _
