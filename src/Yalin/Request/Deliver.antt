-- ===== src/Yalin/Request/Deliver.antt =====
-- Every message of every datagram reaches the callback, once and in order.
use mathlib.Core.List.{foldl, foldl-append}
use hspp.Prelude.{
  ℕ, ◌+◌, ◌≡◌, refl, sym, ap, ◌∙◌, List, [], ◌∷◌, ◌++◌, map, length, length-append, append_assoc,
  append-nil, drop, Bool,
}
use hspp.Outcome.{Outcome, ok}
use hspp.Memory.{Memory}
use hspp.Yalin.Request.{
  other_error, Recv, Listen, failed, received, returned, blocked, done, netlink_listen, minus_one,
}
use hspp.Yalin.Request.Encode.{
  Message, encode, encode_all, IsMessage, AllMessages, Input, transient, datagram, recv_of,
  messages_of, AllInputs,
}
use hspp.Yalin.Request.Visit.{Aligns, filled, visit, deliver}
use hspp.Yalin.Request.Whole.{listen-deliver}

-- A callback that reads the message at hand and no more, and returns 0.
abbrev pub Handles : {S : Type 0} → (S → Memory → ℕ → Outcome (S × ℕ)) → (S → Message → S) → Type 0
Handles {S} handler step =
    (st : S) (m : Message) (pre rest : List ℕ)
    → IsMessage m
    → handler st (pre ++ (encode m ++ rest)) (length pre) ≡ ok (step st m, 0)

module _ {S : Type 0} (nlmsg_align : ℕ → ℕ) (handler : S → Memory → ℕ → Outcome (S × ℕ))
    (step : S → Message → S) (aligns : Aligns nlmsg_align) (handles : Handles handler step) where
  visit-encode_all :
      (ms : List Message) (pre rest : List ℕ) (st : S)
      → AllMessages ms
      → visit handler (pre ++ (encode_all ms ++ rest)) (length pre) ms st
        ≡ ok (done (foldl step st ms) 0)
  unfolding visit
  visit-encode_all [] pre rest st good = refl
  visit-encode_all (m ∷ ms) pre rest st good =
      ap (λ b. visit handler (pre ++ b) (length pre) (m ∷ ms) st)
        (append_assoc (encode m) (encode_all ms) rest)
      ∙ rw (handles st m pre (encode_all ms ++ rest) good.0) (
          ap (λ b. visit handler b (length pre + length (encode m)) ms (step st m))
            (sym (append_assoc pre (encode m) (encode_all ms ++ rest)))
          ∙ ap (λ h. visit handler ((pre ++ encode m) ++ (encode_all ms ++ rest)) h ms (step st m))
              (sym (length-append pre (encode m)))
          ∙ visit-encode_all ms (pre ++ encode m) rest (step st m) good.1)

  -- The buffer after the inputs.
  buf_after : List Input → Memory → Memory
  buf_after [] buf = buf
  buf_after (transient e ∷ inputs) buf = buf_after inputs buf
  buf_after (datagram ms truncated ∷ inputs) buf = buf_after inputs (filled ms buf)

  deliver-foldl :
      (finally : Memory → S → Listen S) (inputs : List Input) (buf : Memory) (st : S)
      → AllInputs inputs
      → deliver handler finally inputs buf st
        ≡ finally (buf_after inputs buf) (foldl step st (messages_of inputs))
  unfolding deliver buf_after
  deliver-foldl finally [] buf st good = refl
  deliver-foldl finally (transient e ∷ inputs) buf st good =
      deliver-foldl finally inputs buf st good.1
  deliver-foldl finally (datagram ms truncated ∷ inputs) buf st good =
      rw (visit-encode_all ms [] (drop (length (encode_all ms)) buf) st good.0.0, deliver)
        (deliver-foldl finally inputs (filled ms buf) (foldl step st ms) good.1
          ∙ ap (finally (buf_after inputs (filled ms buf)))
              (sym (foldl-append step st ms (messages_of inputs))))

  listen-inputs :
      (inputs : List Input) (more : List Recv) (buf : Memory) (st : S)
      → AllInputs inputs
      → netlink_listen nlmsg_align handler (map recv_of inputs ++ more) buf st
        ≡ netlink_listen nlmsg_align handler more
            (buf_after inputs buf)
            (foldl step st (messages_of inputs))
  listen-inputs inputs more buf st good =
      listen-deliver nlmsg_align handler aligns inputs more buf st good
      ∙ deliver-foldl (netlink_listen nlmsg_align handler more) inputs buf st good

  -- Under what NLMSG_ALIGN and the callback promise: on transient errors and datagrams of whole
  -- messages the callback gets every message once and in order, and the monitor waits for more; an
  -- other error or the end of the stream then makes it return -1.
  pub listen_all :
      (inputs : List Input) (buf : Memory) (st : S) (truncated : Bool)
      → AllInputs inputs
      → (netlink_listen nlmsg_align handler (map recv_of inputs) buf st
          ≡ blocked (foldl step st (messages_of inputs)))
        × (netlink_listen nlmsg_align handler (map recv_of inputs ++ failed other_error ∷ []) buf st
            ≡ returned (foldl step st (messages_of inputs)) minus_one)
        × (netlink_listen nlmsg_align handler
              (map recv_of inputs ++ received [] truncated ∷ [])
              buf
              st
            ≡ returned (foldl step st (messages_of inputs)) minus_one)
  unfolding netlink_listen
  listen_all inputs buf st truncated good = (
    ap (λ r. netlink_listen nlmsg_align handler r buf st) (sym (append-nil (map recv_of inputs)))
        ∙ listen-inputs inputs [] buf st good,
    listen-inputs inputs (failed other_error ∷ []) buf st good,
    listen-inputs inputs (received [] truncated ∷ []) buf st good,
  )
