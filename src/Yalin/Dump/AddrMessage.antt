-- ===== src/Yalin/Dump/AddrMessage.antt =====
-- Address messages with their fields and attributes, as the kernel lays them out and as the dump
-- shows them: the specification side of `netlink_addr_msg_dump`. The types of the attributes,
-- IFA_ADDRESS and so on, are read as those of a link: IFA_FLAGS is IFLA_COST, and IFA_CACHEINFO is
-- IFLA_QDISC with 16 bytes. IFA_MULTICAST, which is IFLA_STATS, is not among them.
use hspp.Prelude.{ℕ, ◌+◌, ◌-◌, ◌^◌, ◌<◌, ◌≤◌, ◌≡◌, true, List, ◌∷◌, ◌++◌, length, map, Text, codes}
use hspp.Outcome.{Outcome, ok, ◌>>=◌}
use hspp.Memory.Laws.{bytes16, bytes32}
use hspp.Printf.{dec, hex}
use hspp.Switch.{distinct}
use hspp.Yalin.Flags.{nlmsg_flags_to_str_get, nlmsg_flags_to_str_new}
use hspp.Yalin.Types.IfaFamily.{ifa_family_to_str}
use hspp.Yalin.Types.NlmsgType.{Rtm, rtm_labels, rtm_newaddr, rtm_deladdr, rtm_getaddr, rtm_name}
use hspp.Yalin.RtaText.LinkAttr.{LinkAttr, encode_attrs, AllAttrs, IsRtaHeader}
use hspp.Yalin.Request.{sizeof_buf}
use hspp.Yalin.Dump.{
  DumpHeader, some_name, line, named, noted, dec_int, nlmsg_len, nlmsg_type, nlmsg_flags, nlmsg_seq,
  nlmsg_pid, ifa_family, ifa_prefixlen, ifa_flags, ifa_scope, ifa_index,
}
use hspp.Yalin.Dump.Attributes.{HasRtaMacros, lines}

pub data AddrKind : Type 0 where
  new_addr del_addr get_addr : AddrKind

pub record AddrMessage : Type 0 where
  pub kind : AddrKind
  pub flags : ℕ
  pub seq : ℕ
  pub pid : ℕ
  pub family : ℕ
  pub prefixlen : ℕ
  pub addr_flags : ℕ
  pub scope : ℕ
  pub index : ℕ
  pub attributes : List LinkAttr

abbrev pub label : AddrKind → Rtm
label new_addr = rtm_newaddr
label del_addr = rtm_deladdr
label get_addr = rtm_getaddr

-- The layout of `struct nlmsghdr` and `struct ifaddrmsg`, and the macros on them.
pub record HasAddrLayout (h : DumpHeader) : Type 0 where
  pub macros : HasRtaMacros h
  pub types : IsRtaHeader h.attributes
  pub kinds : distinct (map h.rtm rtm_labels) ≡ true
  pub small : (k : Rtm) → h.rtm k < 2 ^ 16
  pub len_at : h.at nlmsg_len ≡ 0
  pub type_at : h.at nlmsg_type ≡ 4
  pub flags_at : h.at nlmsg_flags ≡ 6
  pub seq_at : h.at nlmsg_seq ≡ 8
  pub pid_at : h.at nlmsg_pid ≡ 12
  pub family_at : h.at ifa_family ≡ 0
  pub prefixlen_at : h.at ifa_prefixlen ≡ 1
  pub addr_flags_at : h.at ifa_flags ≡ 2
  pub scope_at : h.at ifa_scope ≡ 3
  pub index_at : h.at ifa_index ≡ 4
  pub payload : (n : ℕ) → 24 ≤ n → h.ifa_payload n ≡ n - 24
  pub first : (ifa : ℕ) → h.ifa_rta ifa ≡ ifa + 8

module _ (h : DumpHeader) where
  abbrev pub total : AddrMessage → ℕ
  total m = 24 + length (encode_attrs h.attributes m.attributes)

  -- The two headers.
  abbrev pub front : AddrMessage → List ℕ
  front m =
      bytes32 (total m)
      ++ (bytes16 (h.rtm (label m.kind))
          ++ (bytes16 m.flags
              ++ (bytes32 m.seq
                  ++ (bytes32 m.pid
                      ++ (m.family ∷ m.prefixlen ∷ m.addr_flags ∷ m.scope ∷ bytes32 m.index)))))

  abbrev pub encode_addr : AddrMessage → List ℕ
  encode_addr m = front m ++ encode_attrs h.attributes m.attributes

  -- Every field is of its size.
  pub record IsAddr (m : AddrMessage) : Type 0 where
    pub flags_fit : m.flags < 2 ^ 16
    pub seq_fits : m.seq < 2 ^ 32
    pub pid_fits : m.pid < 2 ^ 32
    pub index_fits : m.index < 2 ^ 32
    pub total_fits : total m ≤ sizeof_buf
    pub attributes_fit : AllAttrs h.attributes m.attributes

  -- The lines of the message header, and those of the address.
  abbrev pub header_text : AddrMessage → Text → Text → Text
  header_text m get new =
      codes "-----NLMSG-BEGIN---------------------------\n"
      ++ line (codes "nlmsg_len") (dec (total m))
      ++ line (codes "nlmsg_type") (named (dec (h.rtm (label m.kind))) (rtm_name (label m.kind)))
      ++ line (codes "nlmsg_flags(get)") (named (codes "0x" ++ hex m.flags) get)
      ++ line (codes "nlmsg_flags(new)") (named (codes "0x" ++ hex m.flags) new)
      ++ line (codes "nlmsg_seq") (dec m.seq)
      ++ line (codes "nlmsg_pid") (dec m.pid)

  abbrev pub fields_text : AddrMessage → Text → Text → Text → Text
  fields_text m family_name name attribute_lines =
      line (codes "ifa_family") (noted (dec m.family) family_name)
      ++ line (codes "ifa_prefixlen") (dec m.prefixlen)
      ++ line (codes "ifa_flags") (codes "0x" ++ hex m.addr_flags)
      ++ line (codes "ifa_scope") (dec m.scope)
      ++ line (codes "ifa_index") (noted (dec_int m.index) name)
      ++ attribute_lines

  -- What is printed. A family or an interface that has no name ends the process, and so may an
  -- attribute.
  abbrev pub addr_text : AddrMessage → Outcome Text
  addr_text m = do
    get ← nlmsg_flags_to_str_get m.flags 100
    new ← nlmsg_flags_to_str_new m.flags 100
    family_name ← ifa_family_to_str h.family m.family
    name ← some_name (h.if_indextoname m.index)
    attribute_lines ← lines h.attributes 512 0 m.attributes
    ok (
        header_text m get new
        ++ fields_text m family_name name attribute_lines
        ++ codes "-----NLMSG-END-----------------------------\n")
