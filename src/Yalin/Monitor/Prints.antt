-- ===== src/Yalin/Monitor/Prints.antt =====
-- What the monitor has printed when it waits for more input, or has ended.
use hspp.Prelude.{
  ℕ, ◌+◌, ◌≡◌, refl, sym, ap, ◌∙◌, List, [], ◌∷◌, ◌++◌, append_assoc, append-nil, length, map, Text,
  Bool, Option, some, inl, inr,
}
use hspp.Outcome.{Outcome, Outcome-cases, ok, stop, ◌>>=◌}
use hspp.Memory.{Memory}
use hspp.Calls.{Environment, run}
use hspp.Yalin.Request.{
  Recv, Listen, other_error, failed, received, netlink_listen, done, stopped, blocked, returned,
  minus_one,
}
use hspp.Yalin.Request.Encode.{Message, encode, Input, transient, datagram, recv_of, AllInputs}
use hspp.Yalin.Request.Visit.{Aligns, filled, visit, deliver}
use hspp.Yalin.Request.Whole.{listen-deliver}
use hspp.Yalin.Socket.{Netlink, SocketCall, netlink_open}
use hspp.Yalin.Dump.{DumpHeader, netlink_msg_dump}
use hspp.Yalin.Monitor.{
  Process, exit_code, waits, dies, all_groups, dump_msg, after_listen, after_open, main,
}

module _ (h : DumpHeader) where
  -- The dumps of the messages of a buffer, the first at `at`.
  abbrev pub dumps : Memory → ℕ → List Message → Outcome Text
  dumps buf at [] = ok []
  dumps buf at (m ∷ ms) = do
    text ← netlink_msg_dump h buf at
    later ← dumps buf (at + length (encode m)) ms
    ok (text ++ later)

  -- The dumps of all messages, each in the buffer that `recvmsg` filled last.
  abbrev pub printed : List Input → Memory → Outcome Text
  printed [] buf = ok []
  printed (transient e ∷ inputs) buf = printed inputs buf
  printed (datagram ms truncated ∷ inputs) buf = do
    text ← dumps (filled ms buf) 0 ms
    later ← printed inputs (filled ms buf)
    ok (text ++ later)

  joined :
      (later : Outcome Text) (out text : Text) {B : Type 0} (f : Text → Outcome B)
      → (later >>= λ more. f ((out ++ text) ++ more))
        ≡ ((later >>= λ more. ok (text ++ more)) >>= λ all. f (out ++ all))
  joined (stop s) out text f = refl
  joined (ok more) out text f = ap f (append_assoc out text more)

  visit-dump_msg :
      (buf : Memory) (at : ℕ) (ms : List Message) (out : Text)
      → visit (dump_msg h) buf at ms out ≡ (do text ← dumps buf at ms; ok (done (out ++ text) 0))
  unfolding visit dump_msg
  visit-dump_msg buf at [] out = ap (λ s. ok (done s 0)) (sym (append-nil out))
  visit-dump_msg buf at (m ∷ ms) out = elim (Outcome-cases (netlink_msg_dump h buf at)) [
    | inr (s, e) ↦ rw (e, visit) refl
    | inl (text, e) ↦
        rw (e, visit)
          (visit-dump_msg buf (at + length (encode m)) ms (out ++ text)
            ∙ joined (dumps buf (at + length (encode m)) ms) out text (λ all. ok (done all 0)))
  ]

  -- How the loop ends: as `finally` says of what is printed, or by a dump that stops.
  abbrev ended : (Text → Listen Text) → Outcome Text → Listen Text
  ended finally (stop s) = stopped s
  ended finally (ok text) = finally text

  ended-joined :
      (finally : Text → Listen Text) (out text : Text) (later : Outcome Text)
      → ended (λ more. finally ((out ++ text) ++ more)) later
        ≡ ended (λ all. finally (out ++ all)) (later >>= λ more. ok (text ++ more))
  ended-joined finally out text (stop s) = refl
  ended-joined finally out text (ok more) = ap finally (append_assoc out text more)

  deliver-dump_msg :
      (finally : Text → Listen Text) (inputs : List Input) (buf : Memory) (out : Text)
      → deliver (dump_msg h) (λ _ st. finally st) inputs buf out
        ≡ ended (λ text. finally (out ++ text)) (printed inputs buf)
  unfolding deliver
  deliver-dump_msg finally [] buf out = ap finally (sym (append-nil out))
  deliver-dump_msg finally (transient e ∷ inputs) buf out = deliver-dump_msg finally inputs buf out
  deliver-dump_msg finally (datagram ms truncated ∷ inputs) buf out =
      elim (Outcome-cases (dumps (filled ms buf) 0 ms)) [
        | inr (s, e) ↦ rw (visit-dump_msg (filled ms buf) 0 ms out, e, deliver, printed) refl
        | inl (text, e) ↦
            rw (visit-dump_msg (filled ms buf) 0 ms out, e, deliver, printed)
              (deliver-dump_msg finally inputs (filled ms buf) (out ++ text)
                ∙ ended-joined finally out text (printed inputs (filled ms buf)))
      ]

-- How the process is found: as `finally` says of its stdout, or dead.
abbrev pub found : (Text → Process) → Outcome Text → Process
found finally (stop s) = dies s
found finally (ok text) = finally text

module _ (h : DumpHeader) (nlmsg_align : ℕ → ℕ) (netlink_route : ℕ) (env : Environment SocketCall)
    (aligns : Aligns nlmsg_align) (nl : Netlink)
    (opened : (run env [] (netlink_open all_groups netlink_route)).0 ≡ ok (some nl)) where
  main-listen :
      (inputs : List Recv) (buf : Memory)
      → (main h nlmsg_align netlink_route env inputs buf).0
        ≡ (after_listen h nlmsg_align netlink_route env inputs buf nl
            (run env [] (netlink_open all_groups netlink_route)).1
            (netlink_listen nlmsg_align (dump_msg h) inputs buf [])).0
  unfolding main after_open
  main-listen inputs buf =
      ap
        (λ (o : Outcome (Option Netlink)).
          (after_open h nlmsg_align netlink_route env inputs buf o
            (run env [] (netlink_open all_groups netlink_route)).1).0)
        opened

  listen-printed :
      (inputs : List Input) (more : List Recv) (finally : Text → Listen Text) (buf : Memory)
      → ((buf' : Memory) (st : Text)
          → netlink_listen nlmsg_align (dump_msg h) more buf' st ≡ finally st)
      → AllInputs inputs
      → netlink_listen nlmsg_align (dump_msg h) (map recv_of inputs ++ more) buf []
        ≡ ended h finally (printed h inputs buf)
  listen-printed inputs more finally buf ends good =
      listen-deliver nlmsg_align (dump_msg h) aligns inputs more buf [] good
      ∙ ap (λ (f : Memory → Text → Listen Text). deliver (dump_msg h) f inputs buf [])
          (λ i buf' st. ends buf' st i)
      ∙ deliver-dump_msg h finally inputs buf []

  main-inputs :
      (inputs : List Input) (more : List Recv) (finally : Text → Listen Text)
      (last : Text → Process) (buf : Memory)
      → ((buf' : Memory) (st : Text)
          → netlink_listen nlmsg_align (dump_msg h) more buf' st ≡ finally st)
      → ((st : Text)
          → (after_listen h nlmsg_align netlink_route env
              (map recv_of inputs ++ more)
              buf
              nl
              (run env [] (netlink_open all_groups netlink_route)).1
              (finally st)).0
            ≡ last st)
      → AllInputs inputs
      → (main h nlmsg_align netlink_route env (map recv_of inputs ++ more) buf).0
        ≡ found last (printed h inputs buf)
  unfolding after_listen
  main-inputs inputs more finally last buf ends exits good =
      main-listen (map recv_of inputs ++ more) buf
      ∙ ap
          (λ (l : Listen Text).
            (after_listen h nlmsg_align netlink_route env (map recv_of inputs ++ more) buf nl
              (run env [] (netlink_open all_groups netlink_route)).1 l).0)
          (listen-printed inputs more finally buf ends good)
      ∙ how (printed h inputs buf)
    where
      how :
          (o : Outcome Text)
          → (after_listen h nlmsg_align netlink_route env
              (map recv_of inputs ++ more)
              buf
              nl
              (run env [] (netlink_open all_groups netlink_route)).1
              (ended h finally o)).0
            ≡ found last o
      how (stop s) = refl
      how (ok text) = exits text

  -- Under what NLMSG_ALIGN promises, where `netlink_open` gives a handle: on transient errors and
  -- datagrams of whole messages the monitor has printed the dumps of all messages in order and waits
  -- for more, or it has died of the first dump that stops; if it lives, another error or the end of
  -- the stream then ends it with exit code 1 and the same text.
  pub main_prints :
      (inputs : List Input) (buf : Memory) (truncated : Bool)
      → AllInputs inputs
      → ((main h nlmsg_align netlink_route env (map recv_of inputs) buf).0
          ≡ found waits (printed h inputs buf))
        × ((main h nlmsg_align netlink_route env
              (map recv_of inputs ++ failed other_error ∷ [])
              buf).0
            ≡ found (exit_code 1) (printed h inputs buf))
        × ((main h nlmsg_align netlink_route env
              (map recv_of inputs ++ received [] truncated ∷ [])
              buf).0
            ≡ found (exit_code 1) (printed h inputs buf))
  unfolding netlink_listen after_listen
  main_prints inputs buf truncated good = (
    ap (λ r. (main h nlmsg_align netlink_route env r buf).0) (sym (append-nil (map recv_of inputs)))
        ∙ main-inputs inputs [] blocked waits buf (λ _ _. refl) (λ _. refl) good,
    main-inputs inputs (failed other_error ∷ []) (λ st. returned st minus_one) (exit_code 1) buf
        (λ _ _. refl) (λ _. refl) good,
    main-inputs inputs (received [] truncated ∷ []) (λ st. returned st minus_one) (exit_code 1) buf
        (λ _ _. refl) (λ _. refl) good,
  )
