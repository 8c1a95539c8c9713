-- ===== src/Yalin/Dump/AttrTests.antt =====
-- The theorems on the attributes of a message at address messages.
use hspp.Prelude.{
  ℕ, ◌^◌, ◌<◌, ◌≤◌, ◌≡◌, ap, ◌∙◌, refl, arith, true, false, leb, ◌&&◌, List, [], ◌∷◌, ◌++◌,
  replicate, codes, Bool,
}
use hspp.Outcome.{Outcome, ok, ◌>>=◌}
use hspp.Memory.{Memory, load8, load16, load32}
use hspp.Memory.Laws.{bytes32}
use hspp.Printf.{dec, digits, snprintf}
use hspp.Yalin.Types.RtaType.{Ifla, ifla_unspec, ifla_cost, ifla_name}
use hspp.Yalin.RtaText.{rta_to_str}
use hspp.Yalin.RtaText.Tests.{linux}
use hspp.Yalin.TypesTests.{ifla_value}
use hspp.Yalin.RtaText.LinkAttr.{
  LinkAttr, ifname, address, word, mtu, promiscuity, uncased, broadcast, qdisc, unlabelled,
  encode_attr, encode_attrs, AllAttrs, IsRtaHeader,
}
use hspp.Yalin.RtaText.ReadAttr.{rta_to_str-encode_attr}
use hspp.Yalin.Dump.{DumpHeader, attrs}
use hspp.Yalin.Dump.Tests.{headers}
use hspp.Yalin.Dump.Attributes.{HasRtaMacros, lines, attrs-lines}
use hspp.Printf.{hex}
use hspp.Switch.{switch}
use hspp.Yalin.TypesTests.{rtm_value}
use hspp.Yalin.Flags.{
  nlmsg_flags_to_str_get, nlmsg_flags_to_str_new, snprintflags_long, flags_loop, flag_is_set,
  strncat,
}
use hspp.Yalin.Types.IfaFamily.{ifa_family_to_str, family_name}
use hspp.Yalin.Types.NlmsgType.{Rtm, rtm_newlink, rtm_name}
use hspp.Yalin.Dump.{netlink_msg_dump}
use hspp.Yalin.Dump.AddrMessage.{
  AddrMessage, new_addr, HasAddrLayout, IsAddr, encode_addr, addr_text,
}
use hspp.Yalin.Dump.AddrDump.{netlink_msg_dump-encode_addr}

-- RTA_OK reads the attribute only if four bytes are left.
abbrev read_if : Bool → Memory → ℕ → ℕ → Outcome Bool
read_if false mem rta n = ok false
read_if true mem rta n = do len ← load16 mem rta; ok (leb 4 len && leb len n)

abbrev rta_ok : Memory → ℕ → ℕ → Outcome Bool
rta_ok mem rta n = read_if (leb 4 n) mem rta n

abbrev pub layout : DumpHeader
layout = record headers { rta_ok = rta_ok }

few : (n : ℕ) → n < 4 → leb 4 n ≡ false
few n h = ground arith

enough : (n : ℕ) → 4 ≤ n → leb 4 n ≡ true
enough n h = ground arith

layout-HasRtaMacros : HasRtaMacros layout
layout-HasRtaMacros = record {
  short = λ mem rta n h. ap (λ b. read_if b mem rta n) (few n h);
  holds = λ mem rta n len e h.
      ap (λ b. read_if b mem rta n) (enough n h)
      ∙ ap (λ (o : Outcome ℕ). (do l ← o; ok (leb 4 l && leb l n))) e;
  moves = λ mem rta n len e h. rw e refl;
}

ifla_small : (k : Ifla) → ifla_value k < 2 ^ 16
ifla_small ifla_unspec = omega arith
ifla_small _ = omega arith

linux-IsRtaHeader : IsRtaHeader linux
linux-IsRtaHeader = record { small = ifla_small; apart = refl }

abbrev attributes : List LinkAttr
attributes =
    ifname (codes "eth0") []
    ∷ address (2 ∷ 0 ∷ 0 ∷ 0 ∷ 0 ∷ 1 ∷ [])
    ∷ word mtu 1500 []
    ∷ promiscuity 0 []
    ∷ unlabelled 999 (7 ∷ [])
    ∷ []

attributes-AllAttrs : AllAttrs linux attributes
attributes-AllAttrs = ground arith

three_lines :
    lines linux 1000 0 (ifname (codes "eth0") [] ∷ word mtu 1500 [] ∷ promiscuity 0 [] ∷ [])
    ≡ ok (
        codes
          "attr[0]: IFLA_IFNAME <eth0>\nattr[1]: IFLA_MTU <1500>\nattr[2]: IFLA_PROMISCUITY <promisc=off>\n")
unfolding ifla_name dec digits snprintf
three_lines = refl

-- A buffer that starts with the length of the message and zeros for the rest of the headers.
abbrev starts : ℕ → ℕ → List ℕ
starts len n = bytes32 len ++ replicate n 0

-- An address message: headers of 16 and 8 bytes, and the five attributes.
abbrev addr_buffer : Memory
addr_buffer = starts 72 20 ++ (encode_attrs linux attributes ++ 9 ∷ 9 ∷ [])

addr_len : load32 addr_buffer 0 ≡ ok 72
unfolding load32 load16 load8
addr_len = refl

attrs-lines_example : attrs layout addr_buffer 512 0 24 ≡ lines linux 512 0 attributes
attrs-lines_example =
    attrs-lines layout layout-HasRtaMacros linux-IsRtaHeader 512 (starts 72 20) (9 ∷ 9 ∷ [])
      attributes 0 72 0 attributes-AllAttrs addr_len refl (omega arith)

abbrev left_over : LinkAttr
left_over = word mtu 1500 []

rta_to_str-encode_attr_example :
    rta_to_str linux (7 ∷ 7 ∷ (encode_attr linux left_over ++ 5 ∷ [])) 2 100
    ≡ ok (codes "IFLA_MTU <1500>", [])
unfolding ifla_name dec digits snprintf
rta_to_str-encode_attr_example =
    rta_to_str-encode_attr linux linux-IsRtaHeader (7 ∷ 7 ∷ []) 100 left_over (5 ∷ [])
      (ground arith)

rtm_small : (k : Rtm) → rtm_value k < 2 ^ 16
rtm_small rtm_newlink = omega arith
rtm_small _ = omega arith

pub layout-HasAddrLayout : HasAddrLayout layout
layout-HasAddrLayout = record {
  macros = layout-HasRtaMacros;
  types = linux-IsRtaHeader;
  kinds = refl;
  small = rtm_small;
  len_at = refl;
  type_at = refl;
  flags_at = refl;
  seq_at = refl;
  pid_at = refl;
  family_at = refl;
  prefixlen_at = refl;
  addr_flags_at = refl;
  scope_at = refl;
  index_at = refl;
  payload = λ n long. refl;
  first = λ ifa. refl;
}

-- 127.0.0.1/8 of the interface 1 with two of its attributes: the types IFA_ADDRESS and IFA_LABEL are
-- 1 and 3, which are IFLA_ADDRESS and IFLA_IFNAME among the attributes of a link.
abbrev named_loopback : AddrMessage
named_loopback = record {
  kind = new_addr;
  flags = 2;
  seq = 7;
  pid = 0;
  family = 2;
  prefixlen = 8;
  addr_flags = 128;
  scope = 254;
  index = 1;
  attributes = address (127 ∷ 0 ∷ 0 ∷ 1 ∷ []) ∷ ifname (codes "lo") [] ∷ [];
}

-- With all the attributes that the kernel sends: IFA_LOCAL, IFA_FLAGS and IFA_CACHEINFO besides,
-- which are IFLA_BROADCAST, IFLA_COST and IFLA_QDISC.
abbrev pub loopback : AddrMessage
loopback = record named_loopback {
  attributes =
      address (127 ∷ 0 ∷ 0 ∷ 1 ∷ [])
      ∷ broadcast (127 ∷ 0 ∷ 0 ∷ 1 ∷ [])
      ∷ ifname (codes "lo") []
      ∷ uncased ifla_cost (128 ∷ 0 ∷ 0 ∷ 0 ∷ [])
      ∷ word qdisc 0xffffffff (255 ∷ 255 ∷ 255 ∷ 255 ∷ 7 ∷ 0 ∷ 0 ∷ 0 ∷ 7 ∷ 0 ∷ 0 ∷ 0 ∷ [])
      ∷ [];
}

pub loopback-IsAddr : IsAddr layout loopback
loopback-IsAddr = record {
  flags_fit = omega arith;
  seq_fits = omega arith;
  pid_fits = omega arith;
  index_fits = omega arith;
  total_fits = omega arith;
  attributes_fit = ground arith;
}

named_loopback_text :
    addr_text layout named_loopback
    ≡ ok (
        codes "-----NLMSG-BEGIN---------------------------\n"
        ++ codes "nlmsg_len: 40\n"
        ++ codes "nlmsg_type: 20 <RTM_NEWADDR>\n"
        ++ codes "nlmsg_flags(get): 0x2 <NLM_F_MULTI>\n"
        ++ codes "nlmsg_flags(new): 0x2 <NLM_F_MULTI>\n"
        ++ codes "nlmsg_seq: 7\n"
        ++ codes "nlmsg_pid: 0\n"
        ++ codes "ifa_family: 2 (AF_INET)\n"
        ++ codes "ifa_prefixlen: 8\n"
        ++ codes "ifa_flags: 0x80\n"
        ++ codes "ifa_scope: 254\n"
        ++ codes "ifa_index: 1 (lo)\n"
        ++ codes "attr[0]: IFLA_ADDRESS <7f:00:00:01:>\n"
        ++ codes "attr[1]: IFLA_IFNAME <lo>\n"
        ++ codes "-----NLMSG-END-----------------------------\n")
unfolding ifla_name dec digits hex snprintf nlmsg_flags_to_str_get nlmsg_flags_to_str_new
    snprintflags_long flags_loop flag_is_set strncat ifa_family_to_str switch family_name rtm_name
named_loopback_text = refl

netlink_msg_dump-encode_addr_example :
    netlink_msg_dump layout (5 ∷ 5 ∷ (encode_addr layout loopback ++ 9 ∷ [])) 2
    ≡ addr_text layout loopback
netlink_msg_dump-encode_addr_example =
    netlink_msg_dump-encode_addr layout layout-HasAddrLayout (5 ∷ 5 ∷ []) (9 ∷ []) loopback
      loopback-IsAddr
