-- ===== src/Yalin/Dump/Tests.antt =====
-- A link message with one attribute, by the layouts of the kernel headers; eight bytes follow it in
-- the buffer, since IFA_PAYLOAD counts the attributes of a link message eight bytes too long.
use hspp.Prelude.{some, ℕ, ◌+◌, ◌-◌, ◌*◌, ◌/◌, ◌≡◌, refl, leb, ◌&&◌, [], ◌∷◌, ◌++◌, codes}
use hspp.Outcome.{ok, ◌>>=◌}
use hspp.Memory.{Memory, load8, load16, load32}
use hspp.Printf.{dec, digits, hex, snprintf}
use hspp.Switch.{switch}
use hspp.Yalin.Flags.{ifi_flags_to_str, snprintflags_long, flags_loop, flag_is_set, strncat}
use hspp.Yalin.Rtattr.{rtattr_type}
use hspp.Yalin.Types.IfaFamily.{ifa_family_to_str, family_name}
use hspp.Yalin.Types.IfiType.{ifi_type_to_str, arphrd_name}
use hspp.Yalin.Types.RtaType.{rta_type_to_str, ifla_name}
use hspp.Yalin.Types.NlmsgType.{rtm_newlink}
use hspp.Yalin.RtaText.{rta_to_str, rta_case, num32_text}
use hspp.Yalin.RtaText.Tests.{linux}
use hspp.Yalin.TypesTests.{rtm_value, rtn_value, family_value, arphrd_value}
use hspp.Yalin.Dump.{
  DumpHeader, Field, attrs, attr_lines, netlink_link_msg_dump, nlmsg_len, nlmsg_type, nlmsg_flags,
  nlmsg_seq, nlmsg_pid, ifi_family, ifi_type, ifi_index, ifi_flags, ifi_change, ifa_family,
  ifa_prefixlen, ifa_flags, ifa_scope, ifa_index, rtm_family, rtm_dst_len, rtm_src_len, rtm_tos,
  rtm_table, rtm_protocol, rtm_scope, rtm_type, rtm_flags, ndm_family, ndm_pad1, ndm_pad2,
  ndm_ifindex, ndm_state, ndm_flags, ndm_type,
}

abbrev offset : Field → ℕ
offset nlmsg_len = 0
offset nlmsg_type = 4
offset nlmsg_flags = 6
offset nlmsg_seq = 8
offset nlmsg_pid = 12
offset ifi_family = 0
offset ifi_type = 2
offset ifi_index = 4
offset ifi_flags = 8
offset ifi_change = 12
offset ifa_family = 0
offset ifa_prefixlen = 1
offset ifa_flags = 2
offset ifa_scope = 3
offset ifa_index = 4
offset rtm_family = 0
offset rtm_dst_len = 1
offset rtm_src_len = 2
offset rtm_tos = 3
offset rtm_table = 4
offset rtm_protocol = 5
offset rtm_scope = 6
offset rtm_type = 7
offset rtm_flags = 8
offset ndm_family = 0
offset ndm_pad1 = 1
offset ndm_pad2 = 2
offset ndm_ifindex = 4
offset ndm_state = 8
offset ndm_flags = 10
offset ndm_type = 11

abbrev pub headers : DumpHeader
headers = record {
  attributes = linux;
  rtm = rtm_value;
  family = family_value;
  arphrd = arphrd_value;
  rtn = rtn_value;
  at = offset;
  ifa_payload = λ len. len - 24;
  ifla_rta = λ r. r + 16;
  ifa_rta = λ r. r + 8;
  rtm_rta = λ r. r + 12;
  nlmsg_align = λ n. (n + 3) / 4 * 4;
  sizeof_ndmsg = 12;
  rta_ok = λ mem rta n. (do len ← load16 mem rta; ok (leb 4 n && (leb 4 len && leb len n)));
  rta_next =
      λ mem rta n. (do len ← load16 mem rta; ok (rta + (len + 3) / 4 * 4, n - (len + 3) / 4 * 4));
  if_indextoname = λ i. some (codes "lo");
}

abbrev pub message : Memory
message =
    40
    ∷ 0
    ∷ 0
    ∷ 0
    ∷ rtm_value rtm_newlink
    ∷ 0
    ∷ 0
    ∷ 0
    ∷ 7
    ∷ 0
    ∷ 0
    ∷ 0
    ∷ 0
    ∷ 0
    ∷ 0
    ∷ 0
    ∷ 0
    ∷ 0
    ∷ 1
    ∷ 0
    ∷ 2
    ∷ 0
    ∷ 0
    ∷ 0
    ∷ 1
    ∷ 0
    ∷ 0
    ∷ 0
    ∷ 0
    ∷ 0
    ∷ 0
    ∷ 0
    ∷ 8
    ∷ 0
    ∷ 4
    ∷ 0
    ∷ 0xdc
    ∷ 5
    ∷ 0
    ∷ 0
    ∷ 0
    ∷ 0
    ∷ 0
    ∷ 0
    ∷ 0
    ∷ 0
    ∷ 0
    ∷ 0
    ∷ []

link_text :
    netlink_link_msg_dump headers message 0
    ≡ ok (
        codes "ifi_family: 0 <AF_UNSPEC>\nifi_type: 1 <ETHER>\nifi_index: 2\n"
        ++ codes "ifi_flags: 0x1 <IFA_F_TEMPORARY>\nifi_change: 0x0\nattr[0]: IFLA_MTU <1500>\n")
unfolding netlink_link_msg_dump load8 ifa_family_to_str family_name switch load16 load32
    ifi_flags_to_str snprintflags_long flags_loop flag_is_set strncat attrs attr_lines rta_to_str
    rtattr_type rta_case num32_text dec digits hex snprintf ifi_type_to_str arphrd_name
    rta_type_to_str ifla_name
link_text = refl
