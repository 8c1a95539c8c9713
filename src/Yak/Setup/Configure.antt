-- ===== src/Yak/Setup/Configure.antt =====
-- A port is configured by its calls in order, or the process ends at the first that fails.
use hspp.Prelude.{
  ℕ, zero, suc, ◌+◌, ◌≡◌, refl, sym, ap, ◌∙◌, ◌⊎◌, inl, inr, true, List, [], ◌∷◌, ◌++◌,
}
use hspp.Outcome.{ok, stop, exit_one}
use hspp.Calls.{Program, ◌>>◌, Trace, Environment, run, is_negative, check, tell}
use hspp.Calls.Checked.{checked, calls_of, AllGranted, checked-append, checked-one, run-checked}
use hspp.Dpdk.{
  DpdkCall, EthConf, dev_configure, rx_queue_setup, tx_queue_setup, dev_start, promiscuous_enable,
}
use hspp.Yak.Setup.{rx_queues, tx_queues, port_configure}

module _ (socket_id : ℕ → ℕ) (port nb_rxq nb_txq : ℕ) (conf : EthConf) (mp : ℕ) where
  -- `n` receive queues from queue `q` on, of 128 descriptors each, and transmit queues of 512
  -- with all flags zero.
  abbrev pub rx_calls : ℕ → ℕ → List DpdkCall
  rx_calls zero q = []
  rx_calls (suc n) q = rx_queue_setup port q 128 (socket_id port) mp ∷ rx_calls n (q + 1)

  abbrev pub tx_calls : ℕ → ℕ → List DpdkCall
  tx_calls zero q = []
  tx_calls (suc n) q = tx_queue_setup port q 512 (socket_id port) 0 ∷ tx_calls n (q + 1)

  abbrev pub configure_calls : List DpdkCall
  configure_calls =
      dev_configure port nb_rxq nb_txq conf ∷ []
      ++ (rx_calls nb_rxq 0 ++ (tx_calls nb_txq 0 ++ dev_start port ∷ []))

  rx_queues-checked : (n q : ℕ) → rx_queues socket_id n q port mp ≡ checked (rx_calls n q)
  unfolding rx_queues checked
  rx_queues-checked zero q = refl
  rx_queues-checked (suc n) q =
      ap (λ r. check (rx_queue_setup port q 128 (socket_id port) mp) >> r)
        (rx_queues-checked n (q + 1))

  tx_queues-checked : (n q : ℕ) → tx_queues socket_id n q port ≡ checked (tx_calls n q)
  unfolding tx_queues checked
  tx_queues-checked zero q = refl
  tx_queues-checked (suc n) q =
      ap (λ r. check (tx_queue_setup port q 512 (socket_id port) 0) >> r)
        (tx_queues-checked n (q + 1))

  port_configure-checked :
      port_configure socket_id port nb_rxq nb_txq conf mp
      ≡ (checked configure_calls >> tell (promiscuous_enable port))
  unfolding port_configure
  port_configure-checked =
      ap
        (λ r.
          check (dev_configure port nb_rxq nb_txq conf)
          >> (r >> (tx_queues socket_id nb_txq 0 port >> last)))
        (rx_queues-checked nb_rxq 0)
      ∙ ap
          (λ r.
            check (dev_configure port nb_rxq nb_txq conf)
            >> (checked (rx_calls nb_rxq 0) >> (r >> last)))
          (tx_queues-checked nb_txq 0)
      ∙ sym (
          checked-append (dev_configure port nb_rxq nb_txq conf ∷ []) _ on
          ∙ checked-one (dev_configure port nb_rxq nb_txq conf) _
          ∙ ap (λ r. check (dev_configure port nb_rxq nb_txq conf) >> r)
              (checked-append (rx_calls nb_rxq 0) (tx_calls nb_txq 0 ++ dev_start port ∷ []) on
                ∙ ap (λ r. checked (rx_calls nb_rxq 0) >> r)
                    (checked-append (tx_calls nb_txq 0) (dev_start port ∷ []) on
                      ∙ ap (λ r. checked (tx_calls nb_txq 0) >> r)
                          (checked-one (dev_start port) on))))
    where
      on : Program DpdkCall (Unit {0})
      on = tell (promiscuous_enable port)

      last : Program DpdkCall (Unit {0})
      last = check (dev_start port) >> on

  -- Every call succeeds, and the port is put into promiscuous mode.
  abbrev pub AllCalled : Environment DpdkCall → Trace DpdkCall → Type 0
  AllCalled env past =
      (new : Trace DpdkCall) × (n : ℕ) × (calls_of new ≡ configure_calls)
      × AllGranted new
      × (run env past (port_configure socket_id port nb_rxq nb_txq conf mp)
          ≡ (ok tt, (past ++ new) ++ (promiscuous_enable port, n) ∷ []))

  -- A call fails, it is the last, and the process ends.
  abbrev pub FirstFailed : Environment DpdkCall → Trace DpdkCall → Type 0
  FirstFailed env past =
      (new : Trace DpdkCall) × (c : DpdkCall) × (todo : List DpdkCall) × (n : ℕ) × (configure_calls
        ≡ calls_of new ++ c ∷ todo)
      × AllGranted new
      × (is_negative n ≡ true)
      × (run env past (port_configure socket_id port nb_rxq nb_txq conf mp)
          ≡ (stop exit_one, past ++ (new ++ (c, n) ∷ [])))

  -- `port_configure` makes the calls `dev_configure`, one for each receive queue, one for each
  -- transmit queue, and `dev_start`, in that order. Either all of them succeed, and it puts the
  -- port into promiscuous mode and returns; or the first that gives a negative result is the last
  -- call, and the process exits with 1.
  pub port_configure_all :
      (env : Environment DpdkCall) (past : Trace DpdkCall)
      → AllCalled env past ⊎ FirstFailed env past
  port_configure_all env past =
      elim (run-checked env past configure_calls (tell (promiscuous_enable port))) [
        | inl (new, e, all, r) ↦ inl (
          new,
          env (past ++ new) (promiscuous_enable port),
          e,
          all,
          ap (run env past) port_configure-checked ∙ r,
        )
        | inr (new, c, todo, n, e, all, neg, r) ↦
            inr (new, c, todo, n, e, all, neg, ap (run env past) port_configure-checked ∙ r)
      ]
