-- ===== src/Yalin/Request/Whole.antt =====
-- The receive loop on whole datagrams and transient errors, whatever the callback does.
use hspp.Prelude.{
  ℕ, suc, ◌+◌, ◌<◌, ◌≤◌, ◌≡◌, refl, ◌∙◌, List, [], ◌∷◌, ◌++◌, map, length, drop, arith, true, false,
  Bool, ◌==◌, if◌then◌else◌,
}
use hspp.Outcome.{Outcome, ok, stop, >>=-eq-ok}
use hspp.Memory.{Memory}
use hspp.Yalin.Request.{
  Errno, Recv, failed, Listen, returned, stopped, exited, Inner, done, refused, message_loop,
  netlink_listen, is_transient, sizeof_buf,
}
use hspp.Prelude.{length-append}
use hspp.Yalin.Request.Encode.{
  Message, encode, encode_all, AllMessages, length-encode_all_mono, Input, transient, datagram,
  recv_of, IsInput, AllInputs,
}
use hspp.Yalin.Request.Visit.{Aligns, filled, visit, deliver, message_loop-encode_all}

module _ {S : Type 0} (nlmsg_align : ℕ → ℕ) (handler : S → Memory → ℕ → Outcome (S × ℕ))
    (aligns : Aligns nlmsg_align) where
  not_empty :
      (ms : List Message) → AllMessages ms → 0 < length ms → (length (encode_all ms) == 0) ≡ false
  not_empty ms good some_message = ground (arith, length-encode_all_mono ms good)

  whole_datagram :
      (ms : List Message) (buf : Memory) (st : S)
      → AllMessages ms
      → length (encode_all ms) ≤ sizeof_buf
      → message_loop nlmsg_align handler
          (suc (length (filled ms buf)))
          (filled ms buf)
          0
          (length (encode_all ms))
          st
        ≡ visit handler (filled ms buf) 0 ms st
  whole_datagram ms buf st good small =
      message_loop-encode_all nlmsg_align handler aligns ms (suc (length (filled ms buf))) []
        (drop (length (encode_all ms)) buf) st good
        (omega (
          arith,
          length-encode_all_mono ms good,
          length-append (encode_all ms) (drop (length (encode_all ms)) buf),
        ))
        small

  -- The callback leaves nothing of a datagram of whole messages.
  visit-done :
      (buf : Memory) (h : ℕ) (ms : List Message) (st : S) {st' : S} {n : ℕ}
      → visit handler buf h ms st ≡ ok (done st' n)
      → n ≡ 0
  unfolding visit
  visit-done buf h [] st e = cc
  visit-done buf h (m ∷ ms) st {st'} {n} e =
      let (r, _, e1) = >>=-eq-ok (handler st buf h) _ e in
      ground (arith, visit-done buf (h + length (encode m)) ms r.0 {st' = st'} {n = n})

  -- How the receive loop goes on behind a datagram.
  abbrev behind_datagram : Bool → Outcome (Inner S) → (S → Listen S) → Listen S
  behind_datagram truncated inner next = elim inner [
    | stop s ↦ stopped s
    | ok (refused st' err) ↦ returned st' err
    | ok (done st' status) ↦
        let again = next st' in
        if truncated then again else if status == 0 then again else exited st'
  ]

  behind_datagram-eq :
      (truncated : Bool) (inner : Outcome (Inner S)) {f g : S → Listen S}
      → ((st : S) (n : ℕ) → inner ≡ ok (done st n) → n ≡ 0)
      → ((st : S) → f st ≡ g st)
      → behind_datagram truncated inner f ≡ behind_datagram true inner g
  behind_datagram-eq truncated (stop s) all same = refl
  behind_datagram-eq truncated (ok (refused st err)) all same = refl
  behind_datagram-eq true (ok (done st n)) all same = same st
  behind_datagram-eq false (ok (done st n)) all same = rw (all st n refl, same st)

  listen-datagram :
      (finally : Memory → S → Listen S) (ms : List Message) (truncated : Bool) (more : List Recv)
      (buf : Memory) (st : S)
      → IsInput (datagram ms truncated)
      → ((st' : S)
          → netlink_listen nlmsg_align handler more (filled ms buf) st'
            ≡ finally (filled ms buf) st')
      → netlink_listen nlmsg_align handler (recv_of (datagram ms truncated) ∷ more) buf st
        ≡ deliver handler finally (datagram ms truncated ∷ []) buf st
  unfolding netlink_listen deliver
  listen-datagram finally ms truncated more buf st good later =
      rw (not_empty ms good.0 good.1, whole_datagram ms buf st good.0 good.2, netlink_listen)
        (behind_datagram-eq truncated (visit handler (filled ms buf) 0 ms st)
          (λ st' n e. visit-done (filled ms buf) 0 ms st e) later)

  listen-transient :
      (e : Errno) (more : List Recv) (buf : Memory) (st : S)
      → is_transient e ≡ true
      → netlink_listen nlmsg_align handler (failed e ∷ more) buf st
        ≡ netlink_listen nlmsg_align handler more buf st
  unfolding netlink_listen
  listen-transient e more buf st h = rw h

  -- On transient errors and datagrams of whole messages, the receive loop does what `deliver` says,
  -- whatever the callback does, and goes on with the rest of the inputs.
  pub listen-deliver :
      (inputs : List Input) (more : List Recv) (buf : Memory) (st : S)
      → AllInputs inputs
      → netlink_listen nlmsg_align handler (map recv_of inputs ++ more) buf st
        ≡ deliver handler (netlink_listen nlmsg_align handler more) inputs buf st
  unfolding deliver
  listen-deliver [] more buf st good = refl
  listen-deliver (transient e ∷ inputs) more buf st good =
      listen-transient e (map recv_of inputs ++ more) buf st good.0
      ∙ listen-deliver inputs more buf st good.1
  listen-deliver (datagram ms truncated ∷ inputs) more buf st good =
      listen-datagram (deliver handler (netlink_listen nlmsg_align handler more) inputs) ms
        truncated (map recv_of inputs ++ more) buf st good.0
        (λ st'. listen-deliver inputs more (filled ms buf) st' good.1)
