-- ===== src/Yak/System/Rounds.antt =====
-- What one round of a thread releases, whenever it ends normally.
use hspp.Prelude.{
  ℕ, ◌≡◌, refl, ap, ◌∙◌, arith, ◌==◌, if◌then◌else◌, List, [], ◌∷◌, ◌++◌, length, some, Bool-cases,
  inl, inr, append-nil,
}
use hspp.Outcome.{ok, >>=-eq-ok, ◌>>=◌}
use hspp.Memory.{Memory, load16}
use hspp.Yak.{
  Event, Port, FwdInput, TapInput, is_error, htons, ether_type_offset, is_forwarded, tap_send,
  tap_recv, fwd_transmit, tap_port, port_input, port_inputs, fwd_port,
}
use hspp.Yak.Ownership.{released, released-append, released-fwd_transmit, from_ring}

module _ {Mbuf : Type 0} where
  pub released-tap_port :
      (input : TapInput Mbuf) (m : Mbuf) {es : List (Event Mbuf)}
      → input.alloc ≡ some m
      → tap_port input ≡ ok es
      → released es ≡ (if input.ring_enqueue == 0 then m ∷ [] else [])
  unfolding tap_port tap_recv
  released-tap_port input m a e = ground arith

module _ {Mbuf : Type 0} (data_of : Mbuf → Memory) where
  released-port_input :
      (m : Mbuf) (pp : Port) (len : ℕ) {es : List (Event Mbuf)}
      → port_input data_of m pp len ≡ ok es
      → released es ≡ m ∷ []
  unfolding port_input tap_send
  released-port_input m pp len e =
      let (type, _, e') = >>=-eq-ok (load16 (data_of m) ether_type_offset) _ e in
      elim (Bool-cases (is_forwarded (htons type))) [
        | inr other ↦ ground arith
        | inl known ↦ elim (Bool-cases (is_error len)) [
          | inl failed ↦ ground arith
          | inr written ↦ ground arith
        ]
      ]

  released-port_inputs :
      (pp : Port) (w : Mbuf → ℕ) (ms : List Mbuf) {es : List (Event Mbuf)}
      → port_inputs data_of pp w ms ≡ ok es
      → released es ≡ ms
  unfolding port_inputs
  released-port_inputs pp w [] e = ground arith
  released-port_inputs pp w (m ∷ ms) e =
      let (es, e1, e2) = >>=-eq-ok (port_input data_of m pp (w m)) _ e in
      let (later, e3, e4) =
        >>=-eq-ok (port_inputs data_of pp w ms) (λ later. ok (es ++ later)) e2 in
      ground (
        arith,
        released-append es later,
        released-port_input m pp (w m) e1,
        released-port_inputs pp w ms e3,
      )

  sent_events : Port → FwdInput Mbuf → List (Event Mbuf)
  sent_events pp input =
      if input.ring_empty == 0 then fwd_transmit pp.dpdk_pid input.tx_burst input.dequeued else []

  released-sent_events :
      (pp : Port) (input : FwdInput Mbuf) → released (sent_events pp input) ≡ from_ring input
  unfolding sent_events
  released-sent_events pp input = elim (Bool-cases (input.ring_empty == 0)) [
    | inl e ↦ rw (e, released-fwd_transmit) refl
    | inr e ↦ rw e refl
  ]

  released-receive :
      (pp : Port) (w : Mbuf → ℕ) (sent : List (Event Mbuf)) (ms : List Mbuf)
      {es : List (Event Mbuf)}
      → (if length ms == 0
          then ok sent
          else (do passed ← port_inputs data_of pp w ms; ok (sent ++ passed)))
        ≡ ok es
      → released es ≡ released sent ++ ms
  released-receive pp w sent [] e = ground (arith, append-nil (released sent))
  released-receive pp w sent (m ∷ ms) {es} e =
      let e' : (do passed ← port_inputs data_of pp w (m ∷ ms); ok (sent ++ passed)) ≡ ok es =
        ground arith in
      let (passed, e1, e2) =
        >>=-eq-ok (port_inputs data_of pp w (m ∷ ms)) (λ passed. ok (sent ++ passed)) e' in
      ground (arith, released-append sent passed, released-port_inputs pp w (m ∷ ms) e1)

  pub released-fwd_port :
      (pp : Port) (input : FwdInput Mbuf) {es : List (Event Mbuf)}
      → fwd_port data_of pp input ≡ ok es
      → released es ≡ from_ring input ++ input.received
  unfolding fwd_port sent_events
  released-fwd_port pp input e =
      released-receive pp input.write_len (sent_events pp input) input.received e
      ∙ ap (λ t. t ++ input.received) (released-sent_events pp input)
