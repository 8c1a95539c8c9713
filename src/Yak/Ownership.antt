-- ===== src/Yak/Ownership.antt =====
-- Where the buffers go: each is given back once, in order, and only IP, ARP and VLAN frames reach
-- the host interface.
use hspp.Prelude.{
  ℕ, ◌+◌, ◌*◌, ◌/◌, ◌%◌, ◌^◌, ◌<◌, Bool, ◌&&◌, ◌||◌, ==_iff, ◌≡◌, refl, sym, ap, ap₂, ◌∙◌, false,
  ◌==◌, if◌then◌else◌, List, [], ◌∷◌, ◌++◌, length, arith, Bool-cases, inl, inr, append-nil,
}
use hspp.Outcome.{ok, ◌>>=◌}
use hspp.Memory.{Memory, load16}
use hspp.Yak.{
  Event, wrote, transmitted, freed, enqueued, Port, FwdInput, is_error, htons, ether_type_offset,
  is_forwarded, tap_send, fwd_transmit, port_input, port_inputs, fwd_port, fwd_main,
}

module _ {Mbuf : Type 0} where
  -- The buffers that are handed on or given back, in order.
  abbrev pub released : List (Event Mbuf) → List Mbuf
  released [] = []
  released (wrote fd m ∷ es) = released es
  released (transmitted pid m ∷ es) = m ∷ released es
  released (freed m ∷ es) = m ∷ released es
  released (enqueued m ∷ es) = m ∷ released es

  -- What the host interfaces get, in order.
  abbrev pub hosted : List (Event Mbuf) → List (ℕ × Mbuf)
  hosted [] = []
  hosted (wrote fd m ∷ es) = (fd, m) ∷ hosted es
  hosted (transmitted pid m ∷ es) = hosted es
  hosted (freed m ∷ es) = hosted es
  hosted (enqueued m ∷ es) = hosted es

  pub released-append :
      (es fs : List (Event Mbuf)) → released (es ++ fs) ≡ released es ++ released fs
  released-append [] fs = refl
  released-append (wrote fd m ∷ es) fs = released-append es fs
  released-append (transmitted pid m ∷ es) fs = ap (λ t. m ∷ t) (released-append es fs)
  released-append (freed m ∷ es) fs = ap (λ t. m ∷ t) (released-append es fs)
  released-append (enqueued m ∷ es) fs = ap (λ t. m ∷ t) (released-append es fs)

  hosted-append : (es fs : List (Event Mbuf)) → hosted (es ++ fs) ≡ hosted es ++ hosted fs
  hosted-append [] fs = refl
  hosted-append (wrote fd m ∷ es) fs = ap (λ t. (fd, m) ∷ t) (hosted-append es fs)
  hosted-append (transmitted pid m ∷ es) fs = hosted-append es fs
  hosted-append (freed m ∷ es) fs = hosted-append es fs
  hosted-append (enqueued m ∷ es) fs = hosted-append es fs

  -- The buffers that one round takes over.
  abbrev pub from_ring : FwdInput Mbuf → List Mbuf
  from_ring input = if input.ring_empty == 0 then input.dequeued else []

  abbrev pub acquired : List (Port × FwdInput Mbuf) → List Mbuf
  acquired [] = []
  acquired ((pp, input) ∷ rounds) = (from_ring input ++ input.received) ++ acquired rounds

  -- No `write` fails.
  abbrev pub AllWritten : List (Port × FwdInput Mbuf) → Type 0
  AllWritten [] = Unit
  AllWritten ((pp, input) ∷ rounds) =
      ((m : Mbuf) → is_error (input.write_len m) ≡ false) × AllWritten rounds

  pub released-fwd_transmit :
      (pid : ℕ) (tx : Mbuf → ℕ) (ms : List Mbuf) → released (fwd_transmit pid tx ms) ≡ ms
  unfolding fwd_transmit
  released-fwd_transmit pid tx [] = refl
  released-fwd_transmit pid tx (m ∷ ms) = elim (Bool-cases (tx m == 1)) [
    | inl e ↦ rw e (ap (λ t. m ∷ t) (released-fwd_transmit pid tx ms))
    | inr e ↦ rw e (ap (λ t. m ∷ t) (released-fwd_transmit pid tx ms))
  ]

  hosted-fwd_transmit :
      (pid : ℕ) (tx : Mbuf → ℕ) (ms : List Mbuf) → hosted (fwd_transmit pid tx ms) ≡ []
  unfolding fwd_transmit
  hosted-fwd_transmit pid tx [] = refl
  hosted-fwd_transmit pid tx (m ∷ ms) = elim (Bool-cases (tx m == 1)) [
    | inl e ↦ rw e (hosted-fwd_transmit pid tx ms)
    | inr e ↦ rw e (hosted-fwd_transmit pid tx ms)
  ]

-- The first and the second byte of the ether types that belong to the host.
abbrev pub is_host_type : ℕ → ℕ → Bool
is_host_type first second =
    first == 0x86 && second == 0xdd
    || first == 0x08 && second == 0x00
    || first == 0x08 && second == 0x06
    || first == 0x81 && second == 0x00

two_bytes :
    (a b c d : ℕ) → b < 2 ^ 8 → d < 2 ^ 8 → (a * 2 ^ 8 + b == c * 2 ^ 8 + d) ≡ (a == c && b == d)
two_bytes a b c d small1 small2 = elim (Bool-cases (a * 2 ^ 8 + b == c * 2 ^ 8 + d)) [
  | inl e ↦ ground (arith, ==_iff (a * 2 ^ 8 + b) (c * 2 ^ 8 + d), ==_iff a c, ==_iff b d)
  | inr e ↦ ground (arith, ==_iff (a * 2 ^ 8 + b) (c * 2 ^ 8 + d), ==_iff a c, ==_iff b d)
]

is_forwarded-htons : (v : ℕ) → is_forwarded (htons v) ≡ is_host_type (v % 2 ^ 8) (v / 2 ^ 8 % 2 ^ 8)
is_forwarded-htons v =
    rw
      (
        two_bytes (v % 2 ^ 8) (v / 2 ^ 8 % 2 ^ 8) 0x86 0xdd (omega arith) (omega arith),
        two_bytes (v % 2 ^ 8) (v / 2 ^ 8 % 2 ^ 8) 0x08 0x00 (omega arith) (omega arith),
        two_bytes (v % 2 ^ 8) (v / 2 ^ 8 % 2 ^ 8) 0x08 0x06 (omega arith) (omega arith),
        two_bytes (v % 2 ^ 8) (v / 2 ^ 8 % 2 ^ 8) 0x81 0x00 (omega arith) (omega arith),
      )
      refl

module _ {Mbuf : Type 0} (data_of : Mbuf → Memory) (type_of : Mbuf → ℕ)
    (header : (m : Mbuf) → load16 (data_of m) ether_type_offset ≡ ok (type_of m)) where
  -- The frames among them that belong to the host, for the interface `fd`: by the two bytes of the
  -- ether type, IPv6 is 86 dd, IPv4 is 08 00, ARP is 08 06 and VLAN is 81 00.
  abbrev pub for_host : ℕ → List Mbuf → List (ℕ × Mbuf)
  for_host fd [] = []
  for_host fd (m ∷ ms) =
      let rest = for_host fd ms in
      if is_host_type (type_of m % 2 ^ 8) (type_of m / 2 ^ 8 % 2 ^ 8) then (fd, m) ∷ rest else rest

  abbrev pub all_for_host : List (Port × FwdInput Mbuf) → List (ℕ × Mbuf)
  all_for_host [] = []
  all_for_host ((pp, input) ∷ rounds) = for_host pp.hostif_fd input.received ++ all_for_host rounds

  -- The events for received frames when no `write` fails.
  host_events : ℕ → List Mbuf → List (Event Mbuf)
  host_events fd [] = []
  host_events fd (m ∷ ms) =
      let rest = freed m ∷ host_events fd ms in
      if is_forwarded (htons (type_of m)) then wrote fd m ∷ rest else rest

  port_inputs-events :
      (pp : Port) (write_len : Mbuf → ℕ) (ms : List Mbuf)
      → ((m : Mbuf) → is_error (write_len m) ≡ false)
      → port_inputs data_of pp write_len ms ≡ ok (host_events pp.hostif_fd ms)
  unfolding port_inputs port_input tap_send host_events
  port_inputs-events pp w [] good = refl
  port_inputs-events pp w (m ∷ ms) good = elim (Bool-cases (is_forwarded (htons (type_of m)))) [
    | inl e ↦ rw (header m, e, good m, port_inputs-events pp w ms good) refl
    | inr e ↦ rw (header m, e, port_inputs-events pp w ms good) refl
  ]

  released-host_events : (fd : ℕ) (ms : List Mbuf) → released (host_events fd ms) ≡ ms
  unfolding host_events
  released-host_events fd [] = refl
  released-host_events fd (m ∷ ms) = elim (Bool-cases (is_forwarded (htons (type_of m)))) [
    | inl e ↦ rw e (ap (λ t. m ∷ t) (released-host_events fd ms))
    | inr e ↦ rw e (ap (λ t. m ∷ t) (released-host_events fd ms))
  ]

  hosted-host_events : (fd : ℕ) (ms : List Mbuf) → hosted (host_events fd ms) ≡ for_host fd ms
  unfolding host_events
  hosted-host_events fd [] = refl
  hosted-host_events fd (m ∷ ms) = elim (Bool-cases (is_forwarded (htons (type_of m)))) [
    | inl e ↦
        rw (e, sym (is_forwarded-htons (type_of m)) ∙ e)
          (ap (λ t. (fd, m) ∷ t) (hosted-host_events fd ms))
    | inr e ↦ rw (e, sym (is_forwarded-htons (type_of m)) ∙ e) (hosted-host_events fd ms)
  ]

  round_events : Port → FwdInput Mbuf → List (Event Mbuf)
  round_events pp input =
      (if input.ring_empty == 0 then fwd_transmit pp.dpdk_pid input.tx_burst input.dequeued else [])
      ++ host_events pp.hostif_fd input.received

  not_empty : (m : Mbuf) (ms : List Mbuf) → (length (m ∷ ms) == 0) ≡ false
  not_empty m ms = ground arith

  receive_part :
      (pp : Port) (write_len : Mbuf → ℕ) (sent : List (Event Mbuf)) (ms : List Mbuf)
      → ((m : Mbuf) → is_error (write_len m) ≡ false)
      → (if length ms == 0
          then ok sent
          else (do passed ← port_inputs data_of pp write_len ms; ok (sent ++ passed)))
        ≡ ok (sent ++ host_events pp.hostif_fd ms)
  unfolding host_events
  receive_part pp w sent [] good = ap ok (sym (append-nil sent))
  receive_part pp w sent (m ∷ ms) good =
      rw (not_empty m ms, port_inputs-events pp w (m ∷ ms) good) refl

  trace : List (Port × FwdInput Mbuf) → List (Event Mbuf)
  trace [] = []
  trace ((pp, input) ∷ rounds) = round_events pp input ++ trace rounds

  fwd_main-trace :
      (rounds : List (Port × FwdInput Mbuf))
      → AllWritten rounds
      → fwd_main data_of rounds ≡ ok (trace rounds)
  unfolding fwd_main fwd_port trace round_events
  fwd_main-trace [] good = refl
  fwd_main-trace ((pp, input) ∷ rounds) good =
      rw (receive_part pp input.write_len _ input.received good.0, fwd_main-trace rounds good.1)
        refl

  released-round :
      (pp : Port) (input : FwdInput Mbuf)
      → released (round_events pp input) ≡ from_ring input ++ input.received
  unfolding round_events
  released-round pp input = elim (Bool-cases (input.ring_empty == 0)) [
    | inl e ↦ rw (e, released-append, released-fwd_transmit, released-host_events) refl
    | inr e ↦ rw (e, released-host_events) refl
  ]

  hosted-round :
      (pp : Port) (input : FwdInput Mbuf)
      → hosted (round_events pp input) ≡ for_host pp.hostif_fd input.received
  unfolding round_events
  hosted-round pp input = elim (Bool-cases (input.ring_empty == 0)) [
    | inl e ↦ rw (e, hosted-append, hosted-fwd_transmit, hosted-host_events) refl
    | inr e ↦ rw (e, hosted-host_events) refl
  ]

  released-trace :
      (rounds : List (Port × FwdInput Mbuf)) → released (trace rounds) ≡ acquired rounds
  unfolding trace
  released-trace [] = refl
  released-trace ((pp, input) ∷ rounds) =
      released-append (round_events pp input) (trace rounds)
      ∙ ap₂ (λ s t. s ++ t) (released-round pp input) (released-trace rounds)

  hosted-trace :
      (rounds : List (Port × FwdInput Mbuf)) → hosted (trace rounds) ≡ all_for_host rounds
  unfolding trace
  hosted-trace [] = refl
  hosted-trace ((pp, input) ∷ rounds) =
      hosted-append (round_events pp input) (trace rounds)
      ∙ ap₂ (λ s t. s ++ t) (hosted-round pp input) (hosted-trace rounds)

  -- Where every buffer holds a frame's header and no `write` fails, any number of rounds of
  -- `fwd_main` ends normally, and the buffers that it transmits or frees are the ones that it took
  -- from the ring and from the port, each once and in order.
  pub released-fwd_main :
      (rounds : List (Port × FwdInput Mbuf))
      → AllWritten rounds
      → (do es ← fwd_main data_of rounds; ok (released es)) ≡ ok (acquired rounds)
  released-fwd_main rounds good = rw (fwd_main-trace rounds good) (ap ok (released-trace rounds))

  -- Where every buffer holds a frame's header and no `write` fails, the host interfaces get the
  -- received frames with an ether type of IPv6, IPv4, ARP or VLAN, each on the interface of its port,
  -- in order, and no other frame.
  pub hosted-fwd_main :
      (rounds : List (Port × FwdInput Mbuf))
      → AllWritten rounds
      → (do es ← fwd_main data_of rounds; ok (hosted es)) ≡ ok (all_for_host rounds)
  hosted-fwd_main rounds good = rw (fwd_main-trace rounds good) (ap ok (hosted-trace rounds))
