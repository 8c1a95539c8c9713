-- ===== src/Yak/System/Tests.antt =====
-- A run of the two threads: the tap thread puts buffer 7 in the ring, a second one is put behind
-- it, and the forwarder takes the first and receives buffer 9.
use hspp.Prelude.{ℕ, ◌≡◌, refl, arith, [], ◌∷◌, replicate, some}
use hspp.Outcome.{ok}
use hspp.Memory.{Memory, load16}
use hspp.Yak.{
  Port, FwdInput, TapInput, tap_port, tap_recv, fwd_port, port_inputs, port_input, fwd_transmit,
  transmitted, freed, enqueued,
}
use hspp.Yak.System.{System, tap_enqueues, fwd_round, Reach, start, later}
use hspp.Yak.System.Invariant.{IsSound, Reach-IsSound}

abbrev zeros : ℕ → Memory
zeros m = replicate 14 0

abbrev from_tap : ℕ → TapInput ℕ
from_tap m = record { alloc = some m; read_len = 60; ring_enqueue = 0 }

abbrev round : FwdInput ℕ
round = record {
  ring_empty = 0;
  dequeued = 7 ∷ [];
  tx_burst = λ m. 1;
  received = 9 ∷ [];
  write_len = λ m. 60;
}

abbrev port : Port
port = record { hostif_fd = 3; dpdk_pid = 0 }

tap_runs : (m : ℕ) → tap_port (from_tap m) ≡ ok (enqueued m ∷ [])
unfolding tap_port tap_recv
tap_runs m = refl

fwd_runs : fwd_port zeros port round ≡ ok (transmitted 0 7 ∷ freed 9 ∷ [])
unfolding fwd_port fwd_transmit port_inputs port_input load16
fwd_runs = refl

abbrev last : System
last = record {
  ring = 8 ∷ [];
  acquired = 9 ∷ 8 ∷ 7 ∷ [];
  gone = 7 ∷ 9 ∷ [];
  refused = [];
  entered = 7 ∷ 8 ∷ [];
  left = 7 ∷ [];
}

reached : Reach zeros last
reached =
    later
      (later
        (later start
          (tap_enqueues (from_tap 7) 7 refl (λ a. ground arith) (tap_runs 7) refl (omega arith)))
        (tap_enqueues (from_tap 8) 8 refl (λ a. ground arith) (tap_runs 8) refl (omega arith)))
      (fwd_round port round (8 ∷ []) refl (λ a. ground arith) fwd_runs)

Reach-IsSound_example : IsSound last
Reach-IsSound_example = Reach-IsSound zeros reached
