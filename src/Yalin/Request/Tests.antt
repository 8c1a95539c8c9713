-- ===== src/Yalin/Request/Tests.antt =====
-- The theorems on the receive loop at concrete inputs, with a callback that notes each length.
use hspp.Prelude.{
  ℕ, ◌+◌, ◌*◌, ◌/◌, ◌≡◌, refl, arith, List, [], ◌∷◌, ◌++◌, map, length, replicate, true, false, sym,
  ap, ◌∙◌,
}
use native.Mathlib.Nat.{add-zero}
use hspp.Outcome.{Outcome, ok, stop, no_fuel, ◌>>=◌}
use hspp.Memory.{Memory, load8, load16, load32}
use hspp.Memory.Laws.{load32-append, load32-bytes32}
use hspp.Yalin.Request.{
  eagain, other_error, failed, received, returned, blocked, netlink_listen, message_loop, minus_one,
  is_negative,
}
use hspp.Yalin.Request.Encode.{Message, encode, Input, transient, datagram, recv_of}
use hspp.Yalin.Request.Visit.{Aligns}
use hspp.Yalin.Request.Deliver.{Handles, listen_all}
use hspp.Yalin.Request.Negative.{listen-IsNegative}
use hspp.Yalin.Request.Hang.{zero_length_hangs}

abbrev nlmsg_align : ℕ → ℕ
nlmsg_align n = (n + 3) / 4 * 4

nlmsg_align-Aligns : Aligns nlmsg_align
nlmsg_align-Aligns n h = refl

abbrev note_length : List ℕ → Memory → ℕ → Outcome (List ℕ × ℕ)
note_length st buf h = do len ← load32 buf h; ok (st ++ len ∷ [], 0)

abbrev note : List ℕ → Message → List ℕ
note st m = st ++ m.len ∷ []

note_length-Handles : Handles note_length note
note_length-Handles st m pre rest good = rw (
    ap (load32 (pre ++ (encode m ++ rest))) (sym (add-zero (length pre)))
    ∙ load32-append pre (encode m ++ rest) 0
    ∙ load32-bytes32 m.len (m.body ++ rest) (omega arith))

-- A header alone, and a message of 18 bytes with two bytes of padding.
abbrev bare : Message
bare = record { len = 16; body = replicate 12 0 }

abbrev padded : Message
padded = record { len = 18; body = replicate 16 7 }

abbrev inputs : List Input
inputs = transient eagain ∷ datagram (bare ∷ padded ∷ []) false ∷ datagram (padded ∷ []) true ∷ []

listen_all_example :
    (netlink_listen nlmsg_align note_length (map recv_of inputs) [] []
      ≡ blocked (16 ∷ 18 ∷ 18 ∷ []))
    × (netlink_listen nlmsg_align note_length (map recv_of inputs ++ failed other_error ∷ []) [] []
        ≡ returned (16 ∷ 18 ∷ 18 ∷ []) minus_one)
    × (netlink_listen nlmsg_align note_length (map recv_of inputs ++ received [] false ∷ []) [] []
        ≡ returned (16 ∷ 18 ∷ 18 ∷ []) minus_one)
listen_all_example =
    listen_all nlmsg_align note_length note nlmsg_align-Aligns note_length-Handles inputs [] []
      false (refl, omega arith)

listen-IsNegative_example : is_negative minus_one ≡ true
unfolding netlink_listen
listen-IsNegative_example =
    listen-IsNegative nlmsg_align note_length (received [] false ∷ []) [] (7 ∷ []) {st' = 7 ∷ []}
      refl

-- Sixteen bytes of zeros are a message of length 0.
abbrev zeros : Memory
zeros = replicate 16 0

abbrev count_calls : ℕ → Memory → ℕ → Outcome (ℕ × ℕ)
count_calls st buf h = ok (st + 1, 0)

zeros_len : load32 zeros 0 ≡ ok 0
unfolding load32 load16 load8
zeros_len = refl

zero_length_hangs_example : message_loop nlmsg_align count_calls 1000 zeros 0 16 5 ≡ stop no_fuel
zero_length_hangs_example =
    zero_length_hangs nlmsg_align count_calls (λ n. n + 1) zeros nlmsg_align-Aligns 1000 0 16 5
      zeros_len (λ s. refl) (omega arith) (omega arith)

-- A datagram of sixteen bytes whose length field says 20, and behind it what is left in the buffer:
-- four bytes, and a message of 16 bytes.
abbrev cut_off : Memory
cut_off = (20 ∷ replicate 15 0) ++ replicate 4 0 ++ 16 ∷ replicate 15 0

-- A message of length 4, in a buffer with no more bytes.
abbrev short_message : Memory
short_message = 4 ∷ 0 ∷ 0 ∷ 0 ∷ []
