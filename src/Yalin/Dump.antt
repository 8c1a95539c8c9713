-- ===== src/Yalin/Dump.antt =====
-- The dump of a netlink message (yalin/yalin/dump.h), as the text that it prints to stdout; what
-- goes to stderr is left out. A message is the offset of its header in the memory.
pub mod Attributes
pub mod AddrMessage
pub mod AddrDump
pub mod AttrTests
pub mod Tests
use hspp.Prelude.{
  ℕ, zero, suc, ◌+◌, ◌-◌, ◌^◌, Bool, true, false, ltb, if◌then◌else◌, List, [], ◌∷◌, ◌++◌, Text,
  codes, length, Option, none, some,
}
use hspp.Outcome.{Outcome, ok, stop, no_fuel, null_access, ◌>>=◌}
use hspp.Memory.{Memory, load8, load16, load32}
use hspp.Printf.{dec, hex}
use hspp.Switch.{switch}
use hspp.Yalin.Request.{sizeof_nlmsghdr}
use hspp.Yalin.Flags.{ifi_flags_to_str, nlmsg_flags_to_str_get, nlmsg_flags_to_str_new}
use hspp.Yalin.Linkinfo.{load_bytes}
use hspp.Yalin.RtaText.{RtaHeader, rta_to_str}
use hspp.Yalin.Types.IfiType.{Arphrd, ifi_type_to_str}
use hspp.Yalin.Types.IfaFamily.{Family, ifa_family_to_str}
use hspp.Yalin.Types.RtnType.{Rtn, rtn_type_to_str}
use hspp.Yalin.Types.NlmsgType.{
  Rtm, nlmsg_type_to_str, rtm_labels, rtm_newlink, rtm_dellink, rtm_getlink, rtm_newaddr,
  rtm_deladdr, rtm_getaddr, rtm_newroute, rtm_delroute, rtm_getroute, rtm_newneigh, rtm_delneigh,
  rtm_getneigh,
}

-- The fields that are printed, of `struct nlmsghdr` and of the header of each kind of message.
pub data Field : Type 0 where
  nlmsg_len nlmsg_type nlmsg_flags nlmsg_seq nlmsg_pid : Field
  ifi_family ifi_type ifi_index ifi_flags ifi_change : Field
  ifa_family ifa_prefixlen ifa_flags ifa_scope ifa_index : Field
  rtm_family rtm_dst_len rtm_src_len rtm_tos rtm_table rtm_protocol rtm_scope rtm_type rtm_flags :
      Field
  ndm_family ndm_pad1 ndm_pad2 ndm_ifindex ndm_state ndm_flags ndm_type : Field

-- What the kernel's headers and the C library define: the values of the constants, the offset of
-- each field in its structure, the macros on attributes, and `if_indextoname`:
-- what it gives for an index, taken to stay the same during the run, or `none` where it returns
-- NULL, which `printf` is then given for a string.
pub record DumpHeader : Type 0 where
  pub attributes : RtaHeader
  pub rtm : Rtm → ℕ
  pub family : Family → ℕ
  pub arphrd : Arphrd → ℕ
  pub rtn : Rtn → ℕ
  pub at : Field → ℕ
  pub ifa_payload : ℕ → ℕ
  pub ifla_rta : ℕ → ℕ
  pub ifa_rta : ℕ → ℕ
  pub rtm_rta : ℕ → ℕ
  pub nlmsg_align : ℕ → ℕ
  pub sizeof_ndmsg : ℕ
  pub rta_ok : Memory → ℕ → ℕ → Outcome Bool
  pub rta_next : Memory → ℕ → ℕ → Outcome (ℕ × ℕ)
  pub if_indextoname : ℕ → Option Text

-- `%d` of a 32-bit pattern.
abbrev pub dec_int : ℕ → Text
dec_int n = if ltb n (2 ^ 31) then dec n else codes "-" ++ dec (2 ^ 32 - n)

-- A line of a dump: a name, the value, and the name of the value.
abbrev pub line : Text → Text → Text
line name value = name ++ codes ": " ++ value ++ codes "\n"

abbrev pub named : Text → Text → Text
named value name = value ++ codes " <" ++ name ++ codes ">"

abbrev pub noted : Text → Text → Text
noted value name = value ++ codes " (" ++ name ++ codes ")"

-- A name for `%s`.
abbrev pub some_name : Option Text → Outcome Text
some_name none = stop null_access
some_name (some name) = ok name

module _ (h : DumpHeader) (mem : Memory) where
  -- `NDM_RTA`
  abbrev pub ndm_rta : ℕ → ℕ
  ndm_rta r = r + h.nlmsg_align h.sizeof_ndmsg

  -- The loop over the attributes, from the attribute `i` on, on fuel; `size` is that of `str`.
  -- A step moves the pointer on, so there are no more steps in the memory than bytes.
  unfoldable pub attr_lines : ℕ → ℕ → ℕ → ℕ → ℕ → Outcome Text
  attr_lines zero size i rta rta_len = stop no_fuel
  attr_lines (suc fuel) size i rta rta_len = do
    more ← h.rta_ok mem rta rta_len
    elim more [
      | false ↦ ok []
      | true ↦ do
        (str, out) ← rta_to_str h.attributes mem rta size
        (rta', rta_len') ← h.rta_next mem rta rta_len
        later ← attr_lines fuel size (i + 1) rta' rta_len'
        ok (out ++ codes "attr[" ++ dec i ++ codes "]: " ++ str ++ codes "\n" ++ later)
    ]

  -- The loop as the four functions start it: at `rta`, with what the message `hdr` has left.
  unfoldable pub attrs : ℕ → ℕ → ℕ → Outcome Text
  attrs size hdr rta = do
    len ← load32 mem (hdr + h.at nlmsg_len)
    attr_lines (suc (length mem)) size 0 rta (h.ifa_payload len)

  unfoldable pub netlink_link_msg_dump : ℕ → Outcome Text
  netlink_link_msg_dump hdr = do
    let ifm = hdr + sizeof_nlmsghdr
    family ← load8 mem (ifm + h.at ifi_family)
    family_name ← ifa_family_to_str h.family family
    type ← load16 mem (ifm + h.at ifi_type)
    index ← load32 mem (ifm + h.at ifi_index)
    flags ← load32 mem (ifm + h.at ifi_flags)
    flags_text ← ifi_flags_to_str flags 100
    change ← load32 mem (ifm + h.at ifi_change)
    lines ← attrs 1000 hdr (h.ifla_rta ifm)
    ok (
        line (codes "ifi_family") (named (dec family) family_name)
        ++ line (codes "ifi_type") (named (dec type) (ifi_type_to_str h.arphrd type))
        ++ line (codes "ifi_index") (dec_int index)
        ++ line (codes "ifi_flags") (named (codes "0x" ++ hex flags) flags_text)
        ++ line (codes "ifi_change") (codes "0x" ++ hex change)
        ++ lines)

  unfoldable pub netlink_addr_msg_dump : ℕ → Outcome Text
  netlink_addr_msg_dump hdr = do
    let ifa = hdr + sizeof_nlmsghdr
    family ← load8 mem (ifa + h.at ifa_family)
    family_name ← ifa_family_to_str h.family family
    prefixlen ← load8 mem (ifa + h.at ifa_prefixlen)
    flags ← load8 mem (ifa + h.at ifa_flags)
    scope ← load8 mem (ifa + h.at ifa_scope)
    index ← load32 mem (ifa + h.at ifa_index)
    name ← some_name (h.if_indextoname index)
    lines ← attrs 512 hdr (h.ifa_rta ifa)
    ok (
        line (codes "ifa_family") (noted (dec family) family_name)
        ++ line (codes "ifa_prefixlen") (dec prefixlen)
        ++ line (codes "ifa_flags") (codes "0x" ++ hex flags)
        ++ line (codes "ifa_scope") (dec scope)
        ++ line (codes "ifa_index") (noted (dec_int index) name)
        ++ lines)

  unfoldable pub netlink_route_msg_dump : ℕ → Outcome Text
  netlink_route_msg_dump hdr = do
    let rtm = hdr + sizeof_nlmsghdr
    family ← load8 mem (rtm + h.at rtm_family)
    family_name ← ifa_family_to_str h.family family
    dst_len ← load8 mem (rtm + h.at rtm_dst_len)
    src_len ← load8 mem (rtm + h.at rtm_src_len)
    tos ← load8 mem (rtm + h.at rtm_tos)
    table ← load8 mem (rtm + h.at rtm_table)
    protocol ← load8 mem (rtm + h.at rtm_protocol)
    scope ← load8 mem (rtm + h.at rtm_scope)
    type ← load8 mem (rtm + h.at rtm_type)
    type_name ← rtn_type_to_str h.rtn type
    flags ← load32 mem (rtm + h.at rtm_flags)
    lines ← attrs 512 hdr (h.rtm_rta rtm)
    ok (
        line (codes "rtm_family") (noted (dec family) family_name)
        ++ line (codes "rtm_dst_len") (dec dst_len)
        ++ line (codes "rtm_src_len") (dec src_len)
        ++ line (codes "rtm_tos") (dec tos)
        ++ line (codes "rtm_table") (dec table)
        ++ line (codes "rtm_protocol") (dec protocol)
        ++ line (codes "rtm_scope") (dec scope)
        ++ line (codes "rtm_type") (noted (dec type) type_name)
        ++ line (codes "rtm_flags") (codes "0x" ++ hex flags)
        ++ lines)

  unfoldable pub netlink_neigh_msg_dump : ℕ → Outcome Text
  netlink_neigh_msg_dump hdr = do
    let ndm = hdr + sizeof_nlmsghdr
    family ← load8 mem (ndm + h.at ndm_family)
    pad1 ← load8 mem (ndm + h.at ndm_pad1)
    pad2 ← load16 mem (ndm + h.at ndm_pad2)
    ifindex ← load32 mem (ndm + h.at ndm_ifindex)
    state ← load16 mem (ndm + h.at ndm_state)
    flags ← load8 mem (ndm + h.at ndm_flags)
    type ← load8 mem (ndm + h.at ndm_type)
    lines ← attrs 512 hdr (ndm_rta ndm)
    ok (
        line (codes "ndm_family") (dec family)
        ++ line (codes "ndm_pad1") (dec pad1)
        ++ line (codes "ndm_pad2") (dec pad2)
        ++ line (codes "ndm_ifindex") (dec_int ifindex)
        ++ line (codes "ndm_state") (dec state)
        ++ line (codes "ndm_flags") (codes "0x" ++ hex flags)
        ++ line (codes "ndm_type") (dec type)
        ++ lines)

  -- The cases of the switch over the type. In the default the bytes are read for stderr.
  unfoldable pub msg_case : ℕ → Option Rtm → Outcome Text
  msg_case hdr (some rtm_newlink) = netlink_link_msg_dump hdr
  msg_case hdr (some rtm_dellink) = netlink_link_msg_dump hdr
  msg_case hdr (some rtm_getlink) = netlink_link_msg_dump hdr
  msg_case hdr (some rtm_newaddr) = netlink_addr_msg_dump hdr
  msg_case hdr (some rtm_deladdr) = netlink_addr_msg_dump hdr
  msg_case hdr (some rtm_getaddr) = netlink_addr_msg_dump hdr
  msg_case hdr (some rtm_newroute) = netlink_route_msg_dump hdr
  msg_case hdr (some rtm_delroute) = netlink_route_msg_dump hdr
  msg_case hdr (some rtm_getroute) = netlink_route_msg_dump hdr
  msg_case hdr (some rtm_newneigh) = netlink_neigh_msg_dump hdr
  msg_case hdr (some rtm_delneigh) = netlink_neigh_msg_dump hdr
  msg_case hdr (some rtm_getneigh) = netlink_neigh_msg_dump hdr
  msg_case hdr _ = do len ← load32 mem (hdr + h.at nlmsg_len); bs ← load_bytes mem hdr len; ok []

  -- The lines before the switch.
  unfoldable pub msg_header : ℕ → Outcome Text
  msg_header hdr = do
    len ← load32 mem (hdr + h.at nlmsg_len)
    type ← load16 mem (hdr + h.at nlmsg_type)
    flags ← load16 mem (hdr + h.at nlmsg_flags)
    get ← nlmsg_flags_to_str_get flags 100
    new ← nlmsg_flags_to_str_new flags 100
    seq ← load32 mem (hdr + h.at nlmsg_seq)
    pid ← load32 mem (hdr + h.at nlmsg_pid)
    ok (
        codes "-----NLMSG-BEGIN---------------------------\n"
        ++ line (codes "nlmsg_len") (dec len)
        ++ line (codes "nlmsg_type") (named (dec type) (nlmsg_type_to_str h.rtm type))
        ++ line (codes "nlmsg_flags(get)") (named (codes "0x" ++ hex flags) get)
        ++ line (codes "nlmsg_flags(new)") (named (codes "0x" ++ hex flags) new)
        ++ line (codes "nlmsg_seq") (dec seq)
        ++ line (codes "nlmsg_pid") (dec pid))

  unfoldable pub netlink_msg_dump : ℕ → Outcome Text
  netlink_msg_dump hdr = do
    header ← msg_header hdr
    type ← load16 mem (hdr + h.at nlmsg_type)
    body ← msg_case hdr (switch h.rtm rtm_labels type)
    ok (header ++ body ++ codes "-----NLMSG-END-----------------------------\n")
