-- ===== src/Yalin/Monitor/Addresses.antt =====
-- The monitor on datagrams of address messages, from what the kernel says to what stdout shows.
use hspp.Prelude.{
  ℕ, ◌+◌, ◌%◌, ◌<◌, ◌≤◌, ◌≡◌, refl, sym, ap, ◌∙◌, arith, false, List, [], ◌∷◌, ◌++◌, append_assoc,
  map, drop, length, length-append, length-map, Text, some,
}
use hspp.Outcome.{Outcome, ok, stop, ◌>>=◌}
use hspp.Memory.{Memory}
use hspp.Memory.Laws.{bytes16, bytes32}
use hspp.Calls.{Environment, run}
use hspp.Yalin.RtaText.{RtaHeader}
use hspp.Yalin.RtaText.LinkAttr.{LinkAttr, encode_attr, encode_attrs, length-encode_attr}
use hspp.Yalin.Request.{other_error, failed, sizeof_buf}
use hspp.Yalin.Request.Encode.{
  Message, encode, encode_all, IsMessage, AllMessages, Input, datagram, recv_of, AllInputs,
}
use hspp.Yalin.Request.Visit.{Aligns, filled}
use hspp.Yalin.Socket.{Netlink, SocketCall, netlink_open}
use hspp.Yalin.Dump.{DumpHeader}
use hspp.Yalin.Dump.AddrMessage.{AddrMessage, HasAddrLayout, IsAddr, label, total, addr_text}
use hspp.Yalin.Dump.AddrDump.{netlink_msg_dump-encode_addr}
use hspp.Yalin.Monitor.{waits, exit_code, all_groups, main}
use hspp.Yalin.Monitor.Prints.{dumps, printed, found, main_prints}

-- The messages of all datagrams.
abbrev pub all_of : List (List AddrMessage) → List AddrMessage
all_of [] = []
all_of (ms ∷ more) = ms ++ all_of more

module _ (h : DumpHeader) where
  -- An address message as the receive loop sees it: its length, and what stands behind.
  abbrev pub message : AddrMessage → Message
  message m = record {
    len = total h m;
    body =
        bytes16 (h.rtm (label m.kind))
        ++ (bytes16 m.flags
            ++ (bytes32 m.seq
                ++ (bytes32 m.pid
                    ++ (m.family ∷ m.prefixlen ∷ m.addr_flags ∷ m.scope ∷ bytes32 m.index))))
        ++ encode_attrs h.attributes m.attributes;
  }

  abbrev pub texts : List AddrMessage → Outcome Text
  texts [] = ok []
  texts (m ∷ ms) = do text ← addr_text h m; later ← texts ms; ok (text ++ later)

  abbrev pub AllAddrs : List AddrMessage → Type 0
  AllAddrs [] = Unit
  AllAddrs (m ∷ ms) = IsAddr h m × AllAddrs ms

  -- One datagram for each list of messages.
  abbrev pub arrive : List (List AddrMessage) → List Input
  arrive [] = []
  arrive (ms ∷ more) = datagram (map message ms) false ∷ arrive more

  -- A datagram has a message, and fits in the buffer.
  abbrev pub AllGroups : List (List AddrMessage) → Type 0
  AllGroups [] = Unit
  AllGroups (ms ∷ more) =
      (AllAddrs ms × (0 < length ms) × (length (encode_all (map message ms)) ≤ sizeof_buf))
      × AllGroups more

length-encode_attrs_whole :
    (h : RtaHeader) (attributes : List LinkAttr) → length (encode_attrs h attributes) % 4 ≡ 0
length-encode_attrs_whole h [] = refl
length-encode_attrs_whole h (a ∷ more) = omega (
  arith,
  length-append (encode_attr h a) (encode_attrs h more),
  length-encode_attr h a,
  length-encode_attrs_whole h more,
)

module _ (h : DumpHeader) (good : HasAddrLayout h) where
  message-IsMessage : (m : AddrMessage) → IsAddr h m → IsMessage (message h m)
  message-IsMessage m fits = record {
    header_in = omega arith;
    small = fits.total_fits;
    padded = omega (arith, length-encode_attrs_whole h.attributes m.attributes);
  }

  all-AllMessages : (ms : List AddrMessage) → AllAddrs h ms → AllMessages (map (message h) ms)
  all-AllMessages [] fit = tt
  all-AllMessages (m ∷ ms) fit = (message-IsMessage m fit.0, all-AllMessages ms fit.1)

  arrive-AllInputs :
      (groups : List (List AddrMessage)) → AllGroups h groups → AllInputs (arrive h groups)
  arrive-AllInputs [] fit = tt
  arrive-AllInputs (ms ∷ more) fit = (
    (all-AllMessages ms fit.0.0, omega (arith, length-map ms (message h)), fit.0.2),
    arrive-AllInputs more fit.1,
  )

  dumps-encode_all :
      (pre rest : List ℕ) (ms : List AddrMessage)
      → AllAddrs h ms
      → dumps h (pre ++ (encode_all (map (message h) ms) ++ rest)) (length pre) (map (message h) ms)
        ≡ texts h ms
  dumps-encode_all pre rest [] fit = refl
  dumps-encode_all pre rest (m ∷ ms) fit =
      ap (λ b. dumps h (pre ++ b) (length pre) (map (message h) (m ∷ ms))) (append_assoc e es rest)
      ∙ ap
          (λ (first : Outcome Text). (do
            text ← first
            later ←
                dumps h (pre ++ (e ++ (es ++ rest))) (length pre + length e) (map (message h) ms)
            ok (text ++ later)))
          (netlink_msg_dump-encode_addr h good pre (es ++ rest) m fit.0)
      ∙ ap
          (λ (rest_text : Outcome Text). (do
            text ← addr_text h m
            later ← rest_text
            ok (text ++ later)))
          (ap (λ b. dumps h b (length pre + length e) (map (message h) ms))
              (sym (append_assoc pre e (es ++ rest)))
            ∙ ap (λ at. dumps h ((pre ++ e) ++ (es ++ rest)) at (map (message h) ms))
                (sym (length-append pre e))
            ∙ dumps-encode_all (pre ++ e) rest ms fit.1)
    where
      e : List ℕ
      e = encode (message h m)

      es : List ℕ
      es = encode_all (map (message h) ms)

  texts-append :
      (first second : List AddrMessage)
      → (do text ← texts h first; later ← texts h second; ok (text ++ later))
        ≡ texts h (first ++ second)
  texts-append [] second = simple (texts h second)
    where
      simple : (o : Outcome Text) → (do later ← o; ok ([] ++ later)) ≡ o
      simple (stop s) = refl
      simple (ok text) = refl
  texts-append (m ∷ ms) second =
      regroup (addr_text h m) (texts h ms) (texts h second)
      ∙ ap (λ (later : Outcome Text). (do text ← addr_text h m; all ← later; ok (text ++ all)))
          (texts-append ms second)
    where
      regroup :
          (a b c : Outcome Text)
          → (do text ← (do x ← a; y ← b; ok (x ++ y)); later ← c; ok (text ++ later))
            ≡ (do text ← a; all ← (do y ← b; z ← c; ok (y ++ z)); ok (text ++ all))
      regroup (stop s) b c = refl
      regroup (ok x) (stop s) c = refl
      regroup (ok x) (ok y) (stop s) = refl
      regroup (ok x) (ok y) (ok z) = ap ok (append_assoc x y z)

  printed-arrive :
      (groups : List (List AddrMessage)) (buf : Memory)
      → AllGroups h groups
      → printed h (arrive h groups) buf ≡ texts h (all_of groups)
  printed-arrive [] buf fit = refl
  printed-arrive (ms ∷ more) buf fit =
      ap
        (λ (first : Outcome Text). (do
          text ← first
          later ← printed h (arrive h more) (filled (map (message h) ms) buf)
          ok (text ++ later)))
        (dumps-encode_all [] (drop (length (encode_all (map (message h) ms))) buf) ms fit.0.0)
      ∙ ap
          (λ (rest_text : Outcome Text). (do
            text ← texts h ms
            later ← rest_text
            ok (text ++ later)))
          (printed-arrive more (filled (map (message h) ms) buf) fit.1)
      ∙ texts-append ms (all_of more)

module _ (h : DumpHeader) (good : HasAddrLayout h) (nlmsg_align : ℕ → ℕ) (netlink_route : ℕ)
    (env : Environment SocketCall) (aligns : Aligns nlmsg_align) (nl : Netlink)
    (opened : (run env [] (netlink_open all_groups netlink_route)).0 ≡ ok (some nl)) where
  -- With the kernel's layout and what NLMSG_ALIGN promises, where `netlink_open` gives a handle: when
  -- datagrams of address messages arrive, whose fields and attributes have their sizes, and whose
  -- attributes are not of the types that IFLA_STATS, IFLA_STATS64, IFLA_MAP and IFLA_LINKINFO are
  -- for links, the monitor has printed the fields and the attributes of all messages, in order, and waits; or it died of the
  -- first that has no text. If it lives, another error of `recvmsg` ends it with exit code 1 and the
  -- same text.
  pub main_prints_addresses :
      (groups : List (List AddrMessage)) (buf : Memory)
      → AllGroups h groups
      → ((main h nlmsg_align netlink_route env (map recv_of (arrive h groups)) buf).0
          ≡ found waits (texts h (all_of groups)))
        × ((main h nlmsg_align netlink_route env
              (map recv_of (arrive h groups) ++ failed other_error ∷ [])
              buf).0
            ≡ found (exit_code 1) (texts h (all_of groups)))
  main_prints_addresses groups buf fit =
      let said =
        main_prints h nlmsg_align netlink_route env aligns nl opened (arrive h groups) buf false
          (arrive-AllInputs h good groups fit) in
      (
        said.0 ∙ ap (found waits) (printed-arrive h good groups buf fit),
        said.1 ∙ ap (found (exit_code 1)) (printed-arrive h good groups buf fit),
      )
