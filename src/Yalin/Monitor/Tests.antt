-- ===== src/Yalin/Monitor/Tests.antt =====
-- The theorems on the monitor where every call is granted: the stream ends at once, or a link
-- message arrives before.
use hspp.Prelude.{
  ◌≡◌, [], ◌∷◌, ◌++◌, List, map, drop, take, replicate, false, some, refl, arith, codes,
}
use hspp.Outcome.{ok}
use hspp.Memory.{Memory, load8, load16, load32}
use hspp.Printf.{dec, digits, hex, snprintf}
use hspp.Switch.{switch}
use hspp.Calls.{run}
use hspp.Yalin.Request.{eintr, other_error, failed, received}
use hspp.Yalin.Request.Encode.{Message, AllMessages, Input, transient, datagram, recv_of}
use hspp.Yalin.Request.Visit.{Aligns}
use hspp.Yalin.Socket.{Netlink, netlink_open}
use hspp.Yalin.Socket.Tests.{grants}
use hspp.Yalin.Flags.{
  ifi_flags_to_str, nlmsg_flags_to_str_get, nlmsg_flags_to_str_new, snprintflags_long, flags_loop,
  flag_is_set, strncat,
}
use hspp.Yalin.Rtattr.{rtattr_type}
use hspp.Yalin.RtaText.{rta_to_str, rta_case, num32_text}
use hspp.Yalin.Types.IfaFamily.{ifa_family_to_str, family_name}
use hspp.Yalin.Types.IfiType.{ifi_type_to_str, arphrd_name}
use hspp.Yalin.Types.RtaType.{rta_type_to_str, ifla_name}
use hspp.Yalin.Types.NlmsgType.{nlmsg_type_to_str}
use hspp.Yalin.Dump.{
  netlink_msg_dump, msg_header, msg_case, netlink_link_msg_dump, attrs, attr_lines,
}
use hspp.Yalin.Dump.Tests.{headers, message}
use hspp.Yalin.Monitor.{all_groups, main, waits, exit_code}
use hspp.Yalin.Dump.AddrMessage.{AddrMessage}
use hspp.Yalin.Dump.AttrTests.{layout, layout-HasAddrLayout, loopback, loopback-IsAddr}
use hspp.Yalin.Monitor.Addresses.{texts, arrive, main_prints_addresses}
use hspp.Yalin.Monitor.Prints.{printed, found, main_prints}

-- A link message of 40 bytes; the buffer holds zeros before.
abbrev link_message : Message
link_message = record { len = 40; body = drop 4 (take 40 message) }

abbrev inputs : List Input
inputs = transient eintr ∷ datagram (link_message ∷ []) false ∷ []

abbrev zeros : Memory
zeros = replicate 48 0

abbrev handle : Netlink
handle = record { address = 4096; fd = 3; proto = 0; groups = 5 }

opened : (run grants [] (netlink_open all_groups 0)).0 ≡ ok (some handle)
unfolding netlink_open
opened = refl

headers-Aligns : Aligns headers.nlmsg_align
headers-Aligns n small = refl

inputs_text :
    printed headers inputs zeros
    ≡ ok (
        codes "-----NLMSG-BEGIN---------------------------\n"
        ++ codes "nlmsg_len: 40\n"
        ++ codes "nlmsg_type: 16 <RTM_NEWLINK>\n"
        ++ codes "nlmsg_flags(get): 0x0 <>\n"
        ++ codes "nlmsg_flags(new): 0x0 <>\n"
        ++ codes "nlmsg_seq: 7\n"
        ++ codes "nlmsg_pid: 0\n"
        ++ codes "ifi_family: 0 <AF_UNSPEC>\n"
        ++ codes "ifi_type: 1 <ETHER>\n"
        ++ codes "ifi_index: 2\n"
        ++ codes "ifi_flags: 0x1 <IFA_F_TEMPORARY>\n"
        ++ codes "ifi_change: 0x0\n"
        ++ codes "attr[0]: IFLA_MTU <1500>\n"
        ++ codes "-----NLMSG-END-----------------------------\n")
unfolding netlink_msg_dump msg_header msg_case netlink_link_msg_dump load8 ifa_family_to_str
    family_name switch load16 load32 ifi_flags_to_str nlmsg_flags_to_str_get nlmsg_flags_to_str_new
    snprintflags_long flags_loop flag_is_set strncat attrs attr_lines rta_to_str rtattr_type
    rta_case num32_text dec digits hex snprintf ifi_type_to_str arphrd_name rta_type_to_str
    ifla_name nlmsg_type_to_str
inputs_text = refl

link_message-IsMessage : AllMessages (link_message ∷ [])
link_message-IsMessage =
    (record { header_in = omega arith; small = omega arith; padded = refl }, tt)

main_prints_example :
    ((main headers headers.nlmsg_align 0 grants (map recv_of inputs) zeros).0
      ≡ found waits (printed headers inputs zeros))
    × ((main headers headers.nlmsg_align 0 grants
          (map recv_of inputs ++ failed other_error ∷ [])
          zeros).0
        ≡ found (exit_code 1) (printed headers inputs zeros))
    × ((main headers headers.nlmsg_align 0 grants
          (map recv_of inputs ++ received [] false ∷ [])
          zeros).0
        ≡ found (exit_code 1) (printed headers inputs zeros))
main_prints_example =
    main_prints headers headers.nlmsg_align 0 grants headers-Aligns handle opened inputs zeros false
      (refl, ((link_message-IsMessage, omega arith, omega arith), tt))

-- One datagram with one address message and one with two.
abbrev groups : List (List AddrMessage)
groups = (loopback ∷ []) ∷ (loopback ∷ loopback ∷ []) ∷ []

layout-Aligns : Aligns layout.nlmsg_align
layout-Aligns n small = refl

main_prints_addresses_example :
    ((main layout layout.nlmsg_align 0 grants (map recv_of (arrive layout groups)) []).0
      ≡ found waits (texts layout (loopback ∷ loopback ∷ loopback ∷ [])))
    × ((main layout layout.nlmsg_align 0 grants
          (map recv_of (arrive layout groups) ++ failed other_error ∷ [])
          []).0
        ≡ found (exit_code 1) (texts layout (loopback ∷ loopback ∷ loopback ∷ [])))
main_prints_addresses_example =
    main_prints_addresses layout layout-HasAddrLayout layout.nlmsg_align 0 grants layout-Aligns
      handle opened groups []
      (
        ((loopback-IsAddr, tt), omega arith, omega arith),
        (((loopback-IsAddr, (loopback-IsAddr, tt)), omega arith, omega arith), tt),
      )
