-- ===== src/Yalin/Dump/AddrDump.antt =====
-- `netlink_msg_dump` on an address message prints its fields and its attributes.
use hspp.Prelude.{
  ℕ, ◌+◌, ◌≡◌, refl, sym, ap, ◌∙◌, List, ◌++◌, append_assoc, length, length-append, Text, codes,
  arith, some,
}
use hspp.Outcome.{Outcome, ok, stop, ◌>>=◌}
use hspp.Memory.{Memory, load8, load16, load32}
use hspp.Memory.Laws.{load8-append, load16-append, load32-append}
use hspp.Yalin.Types.NlmsgType.{switch_rtm, nlmsg_type_to_str_label}
use hspp.Yalin.Flags.{nlmsg_flags_to_str_get, nlmsg_flags_to_str_new}
use hspp.Yalin.Types.IfaFamily.{ifa_family_to_str}
use hspp.Yalin.RtaText.LinkAttr.{encode_attrs}
use hspp.Yalin.Request.{sizeof_nlmsghdr}
use hspp.Yalin.Dump.{
  DumpHeader, some_name, nlmsg_len, nlmsg_type, nlmsg_flags, nlmsg_seq, nlmsg_pid, ifa_family,
  ifa_prefixlen, ifa_flags, ifa_scope, ifa_index, attrs, msg_case, msg_header,
  netlink_addr_msg_dump, netlink_msg_dump,
}
use hspp.Yalin.Dump.Attributes.{lines, attrs-lines}
use hspp.Yalin.Dump.AddrMessage.{
  AddrMessage, AddrKind, new_addr, label, HasAddrLayout, total, front, encode_addr, IsAddr,
  header_text, fields_text, addr_text,
}

-- The header and the body one after the other, or everything in one block.
in_parts :
    (get new family name later : Outcome Text) (header : Text → Text → Text)
    (body : Text → Text → Text → Text) (end : Text)
    → (do
      first ← (do g ← get; n ← new; ok (header g n))
      second ← (do f ← family; i ← name; l ← later; ok (body f i l))
      ok (first ++ second ++ end))
      ≡ (do g ← get; n ← new; f ← family; i ← name; l ← later; ok (header g n ++ body f i l ++ end))
in_parts (stop s) new family name later header body end = refl
in_parts (ok g) (stop s) family name later header body end = refl
in_parts (ok g) (ok n) (stop s) name later header body end = refl
in_parts (ok g) (ok n) (ok f) (stop s) later header body end = refl
in_parts (ok g) (ok n) (ok f) (ok i) (stop s) header body end = refl
in_parts (ok g) (ok n) (ok f) (ok i) (ok l) header body end = refl

module _ (h : DumpHeader) (good : HasAddrLayout h) (pre rest : List ℕ) (m : AddrMessage)
    (fits : IsAddr h m) where
  abbrev mem : Memory
  mem = pre ++ (encode_addr h m ++ rest)

  body : List ℕ
  body = encode_addr h m ++ rest

  -- A field at the offset `k` of the message, and one of `struct ifaddrmsg`, which starts at 16.
  word_at : (k n : ℕ) → n ≡ k → load32 mem (length pre + n) ≡ load32 body k
  unfolding body
  word_at k n e = ap (λ j. load32 mem (length pre + j)) e ∙ load32-append pre body k

  half_at : (k n : ℕ) → n ≡ k → load16 mem (length pre + n) ≡ load16 body k
  unfolding body
  half_at k n e = ap (λ j. load16 mem (length pre + j)) e ∙ load16-append pre body k

  byte_at : (k n : ℕ) → n ≡ k → load8 mem (length pre + sizeof_nlmsghdr + n) ≡ load8 body (16 + k)
  unfolding body
  byte_at k n e =
      ap (load8 mem) {x = length pre + sizeof_nlmsghdr + n} {y = length pre + (16 + k)}
        (omega (arith, e))
      ∙ load8-append pre body (16 + k)

  load_len : load32 mem (length pre + h.at nlmsg_len) ≡ ok (total h m)
  unfolding body load32 load16 load8
  load_len = word_at 0 _ good.len_at ∙ ap ok (omega (arith, fits.total_fits))

  load_type : load16 mem (length pre + h.at nlmsg_type) ≡ ok (h.rtm (label m.kind))
  unfolding body load16 load8
  load_type = half_at 4 _ good.type_at ∙ ap ok (omega (arith, good.small (label m.kind)))

  load_flags : load16 mem (length pre + h.at nlmsg_flags) ≡ ok m.flags
  unfolding body load16 load8
  load_flags = half_at 6 _ good.flags_at ∙ ap ok (omega (arith, fits.flags_fit))

  load_seq : load32 mem (length pre + h.at nlmsg_seq) ≡ ok m.seq
  unfolding body load32 load16 load8
  load_seq = word_at 8 _ good.seq_at ∙ ap ok (omega (arith, fits.seq_fits))

  load_pid : load32 mem (length pre + h.at nlmsg_pid) ≡ ok m.pid
  unfolding body load32 load16 load8
  load_pid = word_at 12 _ good.pid_at ∙ ap ok (omega (arith, fits.pid_fits))

  load_family : load8 mem (length pre + sizeof_nlmsghdr + h.at ifa_family) ≡ ok m.family
  unfolding body load8
  load_family = byte_at 0 _ good.family_at

  load_prefixlen : load8 mem (length pre + sizeof_nlmsghdr + h.at ifa_prefixlen) ≡ ok m.prefixlen
  unfolding body load8
  load_prefixlen = byte_at 1 _ good.prefixlen_at

  load_addr_flags : load8 mem (length pre + sizeof_nlmsghdr + h.at ifa_flags) ≡ ok m.addr_flags
  unfolding body load8
  load_addr_flags = byte_at 2 _ good.addr_flags_at

  load_scope : load8 mem (length pre + sizeof_nlmsghdr + h.at ifa_scope) ≡ ok m.scope
  unfolding body load8
  load_scope = byte_at 3 _ good.scope_at

  load_index : load32 mem (length pre + sizeof_nlmsghdr + h.at ifa_index) ≡ ok m.index
  unfolding body load32 load16 load8
  load_index =
      ap (load32 mem) {x = length pre + sizeof_nlmsghdr + h.at ifa_index} {y = length pre + 20}
        (omega (arith, good.index_at))
      ∙ word_at 20 20 refl
      ∙ ap ok (omega (arith, fits.index_fits))

  -- The attributes stand behind the headers.
  attributes_at :
      attrs h mem 512 (length pre) (h.ifa_rta (length pre + sizeof_nlmsghdr))
      ≡ lines h.attributes 512 0 m.attributes
  attributes_at =
      ap (attrs h mem 512 (length pre)) place
      ∙ ap (λ b. attrs h b 512 (length pre) (length (pre ++ front h m))) (sym whole)
      ∙ attrs-lines h good.macros good.types 512 (pre ++ front h m) rest m.attributes (length pre)
          (total h m) 0 fits.attributes_fit
          (ap (λ b. load32 b (length pre + h.at nlmsg_len)) whole ∙ load_len)
          (good.payload (total h m) (omega arith) ∙ omega arith) (omega arith)
    where
      place : h.ifa_rta (length pre + sizeof_nlmsghdr) ≡ length (pre ++ front h m)
      place =
          good.first (length pre + sizeof_nlmsghdr) ∙ omega (arith, length-append pre (front h m))

      whole : (pre ++ front h m) ++ (encode_attrs h.attributes m.attributes ++ rest) ≡ mem
      whole = append_assoc pre (front h m) (encode_attrs h.attributes m.attributes ++ rest)

  addr_case :
      (k : AddrKind)
      → msg_case h mem (length pre) (some (label k)) ≡ netlink_addr_msg_dump h mem (length pre)
  unfolding msg_case
  addr_case new_addr = refl
  addr_case _ = refl

  -- With the kernel's layout and distinct message types: on an address message whose fields and
  -- attributes have their sizes, and whose attributes are not of the types that IFLA_STATS,
  -- IFLA_STATS64, IFLA_MAP and IFLA_LINKINFO are for links, wherever it stands, `netlink_msg_dump`
  -- prints its fields and the lines of its attributes, or ends as the first of them does that has
  -- no name or does not fit.
  pub netlink_msg_dump-encode_addr : netlink_msg_dump h mem (length pre) ≡ addr_text h m
  unfolding netlink_msg_dump msg_header netlink_addr_msg_dump
  netlink_msg_dump-encode_addr =
      rw
        (
          load_len,
          load_type,
          load_flags,
          load_seq,
          load_pid,
          nlmsg_type_to_str_label h.rtm (label m.kind) good.kinds,
          switch_rtm h.rtm (label m.kind) good.kinds,
          addr_case m.kind,
          load_family,
          load_prefixlen,
          load_addr_flags,
          load_scope,
          load_index,
          attributes_at,
        )
        (in_parts (nlmsg_flags_to_str_get m.flags 100) (nlmsg_flags_to_str_new m.flags 100)
          (ifa_family_to_str h.family m.family) (some_name (h.if_indextoname m.index))
          (lines h.attributes 512 0 m.attributes) (header_text h m) (fields_text h m)
          (codes "-----NLMSG-END-----------------------------\n"))
