-- ===== src/Yalin/Linkinfo/Tests.antt =====
-- Runs of `rta_to_str_IFLA_LINKINFO` on the array of yalin/test/analyze_rta_IFLA_LINKINFO.c.
use hspp.Prelude.{ℕ, ◌+◌, ◌%◌, ◌^◌, ◌<◌, ◌≤◌, ◌≡◌, ◌≢◌, refl, List, [], ◌∷◌, codes, arith, some}
use hspp.Outcome.{ok, stop, null_access, no_fuel}
use hspp.Yalin.Analyze.{linkinfo_arry}
use hspp.Memory.{Memory, load16, load_str}
use hspp.Printf.{snprintf, hex0}
use hspp.Yalin.Rtattr.{rtattr_type, rtattr_len, rtattr_next, rtattr_read_str, align}
use hspp.Yalin.Rtattr.Next.{rtattr_next_lem}
use hspp.Yalin.Rtattr.Align.{align_least}
use hspp.Yalin.Linkinfo.Encode.{Setting, set_id, set_flags, set_proto, IsLinkHeader}
use hspp.Yalin.Linkinfo.Message.{linkinfo_bytes, linkinfo_vlan}
use hspp.Yalin.Linkinfo.Total.{linkinfo-fuel}
use hspp.Yalin.Linkinfo.Null.{linkinfo_null}
use hspp.Yalin.Linkinfo.{
  LinkHeader, VlanAttr, ifla_vlan_id, ifla_vlan_flags, ifla_vlan_protocol, ifla_vlan_unspec,
  ifla_vlan_egress_qos, ifla_vlan_ingress_qos, vlan_text, rta_to_str_ifla_linkinfo,
}

-- The values that the array shows.
abbrev linux_vlan : VlanAttr → ℕ
linux_vlan ifla_vlan_unspec = 0
linux_vlan ifla_vlan_id = 1
linux_vlan ifla_vlan_flags = 2
linux_vlan ifla_vlan_egress_qos = 3
linux_vlan ifla_vlan_ingress_qos = 4
linux_vlan ifla_vlan_protocol = 5

abbrev pub linux : LinkHeader
linux = record {
  ifla_linkinfo = 0x12;
  ifla_info_kind = 1;
  ifla_info_data = 2;
  vlan = linux_vlan;
  show_ptr = λ p. hex0 1 p;
}

linux-vlan-lt : (k : VlanAttr) → linux_vlan k < 2 ^ 16
linux-vlan-lt ifla_vlan_unspec = omega arith
linux-vlan-lt ifla_vlan_id = omega arith
linux-vlan-lt ifla_vlan_flags = omega arith
linux-vlan-lt ifla_vlan_egress_qos = omega arith
linux-vlan-lt ifla_vlan_ingress_qos = omega arith
linux-vlan-lt ifla_vlan_protocol = omega arith

linux-IsLinkHeader : IsLinkHeader linux
linux-IsLinkHeader = record {
  linkinfo_fits = omega arith;
  kind_fits = omega arith;
  data_fits = omega arith;
  vlan_fits = linux-vlan-lt;
  vlan_distinct = refl;
}

abbrev settings : List Setting
settings = set_id 10 ∷ set_flags 1 ∷ []

linkinfo_vlan_example :
    rta_to_str_ifla_linkinfo linux (linkinfo_bytes linux (set_proto 0x8100 ∷ settings) []) 0 1000
    ≡ ok (snprintf 1000 (vlan_text (record { proto = 0x81; id = 10; flags = 1 })), [])
linkinfo_vlan_example =
    linkinfo_vlan linux linux-IsLinkHeader (set_proto 0x8100) settings [] (omega arith)
      (omega arith) 1000

linkinfo-fuel_example : rta_to_str_ifla_linkinfo linux linkinfo_arry 0 1000 ≢ stop no_fuel
linkinfo-fuel_example = linkinfo-fuel linux linkinfo_arry 0 1000 (omega arith)

-- The kind attribute of the array with its padding counted: "vlan" and four NULs.
abbrev padded_kind : Memory
padded_kind =
    0x10 ∷ 0x00 ∷ 0x12 ∷ 0x00 ∷ 0x0c ∷ 0x00 ∷ 0x01 ∷ 0x00 ∷ 0x76 ∷ 0x6c ∷ 0x61 ∷ 0x6e ∷ 0x00 ∷ 0x00
    ∷ 0x00 ∷ 0x00 ∷ []

padded_kind_types :
    (rtattr_type padded_kind 0 ≡ ok 0x12)
    × (rtattr_type padded_kind 4 ≡ ok 1)
    × (rtattr_len padded_kind 4 ≡ ok 12)
unfolding rtattr_type rtattr_len load16
padded_kind_types = (refl, refl, refl)

padded_kind_text : rtattr_read_str padded_kind 4 100 ≡ ok (codes "vlan", 8)
unfolding rtattr_read_str load16 load_str snprintf align
padded_kind_text = refl

linkinfo_null_example : rta_to_str_ifla_linkinfo linux padded_kind 0 1000 ≡ stop null_access
linkinfo_null_example =
    linkinfo_null linux padded_kind 0 12 8 1000 padded_kind_types.0 padded_kind_types.1
      padded_kind_text padded_kind_types.2 (omega arith) (omega arith) refl

kind_len : rtattr_len linkinfo_arry 4 ≡ ok 9
unfolding rtattr_len load16
kind_len = refl

-- The kind attribute of the array, with the 44 bytes behind the header of the root attribute.
rtattr_next_lem_example : rtattr_next linkinfo_arry 4 44 ≡ ok (some 16, 32)
rtattr_next_lem_example =
    rtattr_next_lem linkinfo_arry 4 9 44 kind_len (omega arith) (omega arith) (omega arith)
      (omega arith)

align_least_example :
    (9 ≤ align 9 (2 ^ 2)) × (align 9 (2 ^ 2) < 9 + 2 ^ 2) × (align 9 (2 ^ 2) % 2 ^ 2 ≡ 0)
align_least_example = align_least 62 2 9 refl (omega arith)
