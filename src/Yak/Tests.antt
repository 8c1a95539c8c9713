-- ===== src/Yak/Tests.antt =====
-- The theorems on the forwarder at one round each: an IPv4 frame and one of an unknown type arrive,
-- and two frames come from the ring, of which the port takes one.
use hspp.Prelude.{ℕ, ◌≡◌, refl, arith, List, [], ◌∷◌, ◌++◌, replicate, ◌==◌, if◌then◌else◌}
use hspp.Outcome.{ok, ◌>>=◌}
use hspp.Memory.{Memory, load16}
use hspp.Yak.{Port, FwdInput, fwd_main, tap_main}
use hspp.Yak.Ownership.{released, hosted, released-fwd_main, hosted-fwd_main}
use hspp.Yak.TapRing.{tap_inputs, released-tap_main}

-- Buffers are numbers; buffer 7 holds an IPv4 frame.
abbrev bytes_of : ℕ → Memory
bytes_of m = replicate 12 0 ++ (if m == 7 then 0x08 ∷ 0x00 ∷ [] else 0x12 ∷ 0x34 ∷ [])

abbrev raw_type : ℕ → ℕ
raw_type m = if m == 7 then 0x0008 else 0x3412

raw_type-bytes : (m : ℕ) → load16 (bytes_of m) 12 ≡ ok (raw_type m)
unfolding load16
raw_type-bytes m = ground arith

abbrev rounds : List (Port × FwdInput ℕ)
rounds =
    (
      record { hostif_fd = 3; dpdk_pid = 0 },
      record {
        ring_empty = 0;
        dequeued = 1 ∷ 2 ∷ [];
        tx_burst = λ m. if m == 1 then 1 else 0;
        received = 7 ∷ 8 ∷ [];
        write_len = λ m. 60;
      },
    )
    ∷ []

released-fwd_main_example :
    (do es ← fwd_main bytes_of rounds; ok (released es)) ≡ ok (1 ∷ 2 ∷ 7 ∷ 8 ∷ [])
released-fwd_main_example =
    released-fwd_main bytes_of raw_type raw_type-bytes rounds ((λ m. refl), tt)

hosted-fwd_main_example : (do es ← fwd_main bytes_of rounds; ok (hosted es)) ≡ ok ((3, 7) ∷ [])
hosted-fwd_main_example = hosted-fwd_main bytes_of raw_type raw_type-bytes rounds ((λ m. refl), tt)

abbrev tap_rounds : List (ℕ × ℕ × ℕ)
tap_rounds = (1, 60, 0) ∷ (2, 60, 5) ∷ []

released-tap_main_example :
    (do es ← tap_main (tap_inputs tap_rounds); ok (released es)) ≡ ok (1 ∷ [])
released-tap_main_example = released-tap_main tap_rounds (refl, (refl, tt))
