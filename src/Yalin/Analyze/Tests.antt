-- ===== src/Yalin/Analyze/Tests.antt =====
-- The text of the two programs, with the values of the constants that the array shows.
use hspp.Prelude.{◌≡◌, refl, [], ◌++◌, codes}
use hspp.Outcome.{ok}
use hspp.Memory.{load16, load32, load64, load_str}
use hspp.Printf.{dec, hex0, snprintf}
use hspp.Switch.{switch, text_eq}
use hspp.Yalin.Hexdump.{hexdump}
use hspp.Yalin.Rtattr.{
  align, rtattr_type, rtattr_len, rtattr_payload_len, rtattr_next, rtattr_read_16bit,
  rtattr_read_64bit, rtattr_read_str,
}
use hspp.Yalin.Linkinfo.{
  rta_to_str_ifla_linkinfo, vlan_kind, vlan_data, vlan_loop, vlan_attr, vlan_text,
  rta_to_str_ifla_af_spec,
}
use hspp.Yalin.Linkinfo.Tests.{linux}
use hspp.Yalin.Analyze.{linkinfo_arry, main_linkinfo, af_spec_arry, main_af_spec}

linkinfo_printed :
    main_linkinfo linux
    ≡ ok (
        hexdump linkinfo_arry
        ++ codes "--------------\n"
        ++ []
        ++ codes "IFLA_LINKINFO vlan(id:10, proto:0x0081, flags:0xffffffff00000001)"
        ++ codes "\n")
unfolding main_linkinfo rta_to_str_ifla_linkinfo vlan_kind vlan_data vlan_loop vlan_attr vlan_text
    rtattr_type rtattr_len rtattr_payload_len rtattr_next rtattr_read_16bit rtattr_read_64bit
    rtattr_read_str load16 load32 load64 load_str snprintf dec hex0 switch text_eq align
linkinfo_printed = refl

af_spec_printed :
    main_af_spec
    ≡ ok (
        hexdump af_spec_arry
        ++ codes "--------------\n"
        ++ []
        ++ codes "IFLA_AF_SPEC <unsupported yet>"
        ++ codes "\n")
unfolding main_af_spec rta_to_str_ifla_af_spec snprintf
af_spec_printed = refl
