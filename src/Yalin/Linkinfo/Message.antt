-- ===== src/Yalin/Linkinfo/Message.antt =====
-- The whole attribute of a vlan link, from the bytes to the text.
use mathlib.Core.List.{foldl}
use hspp.Prelude.{
  ℕ, ◌+◌, ◌^◌, ◌<◌, ◌≤◌, ◌≡◌, refl, List, [], ◌∷◌, ◌++◌, length, codes, Text, arith, ==_iff,
}
use hspp.Outcome.{ok}
use hspp.Memory.{Memory}
use hspp.Memory.Laws.{bytes16, until_nul-append}
use hspp.Printf.{snprintf}
use hspp.Switch.{text_eq_iff}
use hspp.Yalin.Rtattr.{rtattr_next, rtattr_read_str, align}
use hspp.Yalin.Rtattr.Encode.{
  attr_bytes, rtattr_len-bytes, rtattr_type-bytes, rtattr_payload_len-bytes, load_str-payload,
}
use hspp.Yalin.Linkinfo.{
  LinkHeader, vlaninfo_zero, vlan_text, vlan_data, vlan_kind, max_rounds, rta_to_str_ifla_linkinfo,
}
use hspp.Yalin.Linkinfo.Encode.{
  Setting, set_id, set_flags, set_proto, AllFit, apply, IsLinkHeader, encode_all,
}
use hspp.Yalin.Linkinfo.Vlan.{vlan_loop-encode}

abbrev pub vlan_kind_text : Text
vlan_kind_text = codes "vlan"

module _ (h : LinkHeader) (ss : List Setting) (rest : List ℕ) where
  abbrev data_attr : List ℕ
  data_attr = attr_bytes (length (encode_all h ss) + 4) h.ifla_info_data (encode_all h ss ++ rest)

  abbrev kind_attr : List ℕ
  kind_attr = attr_bytes 9 h.ifla_info_kind (vlan_kind_text ++ (0 ∷ 0 ∷ 0 ∷ 0 ∷ data_attr))

  -- IFLA_LINKINFO, with the kind "vlan" and the settings inside, and any bytes behind.
  abbrev pub linkinfo_bytes : Memory
  linkinfo_bytes = attr_bytes (length (encode_all h ss) + 20) h.ifla_linkinfo kind_attr

module _ (h : LinkHeader) (ss : List Setting) where
  abbrev root_header : List ℕ
  root_header = bytes16 (length (encode_all h ss) + 20) ++ bytes16 h.ifla_linkinfo

  abbrev before_data : List ℕ
  before_data =
      root_header
      ++ (bytes16 9 ++ (bytes16 h.ifla_info_kind ++ (vlan_kind_text ++ (0 ∷ 0 ∷ 0 ∷ 0 ∷ []))))

length-le : (h : LinkHeader) (ss : List Setting) → length ss ≤ length (encode_all h ss)
length-le h [] = omega arith
length-le h (set_id v ∷ ss) = omega (arith, length-le h ss)
length-le h (set_flags v ∷ ss) = omega (arith, length-le h ss)
length-le h (set_proto v ∷ ss) = omega (arith, length-le h ss)

read_kind :
    (h : LinkHeader) (ss : List Setting) (rest : List ℕ)
    → rtattr_read_str (linkinfo_bytes h ss rest) 4 100 ≡ ok (vlan_kind_text, 8)
unfolding rtattr_read_str align snprintf
read_kind h ss rest = rw (
  rtattr_payload_len-bytes (root_header h ss) 9 h.ifla_info_kind
      (vlan_kind_text ++ (0 ∷ 0 ∷ 0 ∷ 0 ∷ data_attr h ss rest)) (omega arith) (omega arith) 5 refl,
  load_str-payload (root_header h ss) 9 h.ifla_info_kind
      (vlan_kind_text ++ (0 ∷ 0 ∷ 0 ∷ 0 ∷ data_attr h ss rest)),
  until_nul-append vlan_kind_text (0 ∷ 0 ∷ 0 ∷ data_attr h ss rest) (omega arith),
)

module _ (h : LinkHeader) (good : IsLinkHeader h) (s : Setting) (ss : List Setting) (rest : List ℕ)
    (fits : AllFit (s ∷ ss)) (small : length (encode_all h (s ∷ ss)) + 20 < 2 ^ 16) where
  abbrev mem : Memory
  mem = linkinfo_bytes h (s ∷ ss) rest

  rounds_enough : length (s ∷ ss) ≤ max_rounds
  rounds_enough = omega (arith, length-le h (s ∷ ss))

  data_lem :
      (len : ℕ)
      → vlan_data h mem 16 len
        ≡ ok (snprintf len (vlan_text (foldl apply vlaninfo_zero (s ∷ ss))), [])
  unfolding vlan_data
  data_lem len = rw (
    rtattr_payload_len-bytes (before_data h (s ∷ ss)) (length (encode_all h (s ∷ ss)) + 4)
        h.ifla_info_data (encode_all h (s ∷ ss) ++ rest) (omega arith) (omega arith)
        (length (encode_all h (s ∷ ss))) refl,
    vlan_loop-encode h good max_rounds
        (before_data h (s ∷ ss)
          ++ (bytes16 (length (encode_all h (s ∷ ss)) + 4) ++ bytes16 h.ifla_info_data))
        rest s ss vlaninfo_zero [] fits rounds_enough (omega arith),
  )

  kind_lem :
      (len : ℕ)
      → vlan_kind h mem 0 4 vlan_kind_text len
        ≡ ok (snprintf len (vlan_text (foldl apply vlaninfo_zero (s ∷ ss))), [])
  unfolding vlan_kind rtattr_next align
  kind_lem len =
      rw
        (
          rtattr_len-bytes (root_header h (s ∷ ss)) 9 h.ifla_info_kind
              (vlan_kind_text ++ (0 ∷ 0 ∷ 0 ∷ 0 ∷ data_attr h (s ∷ ss) rest)) (omega arith),
          rtattr_type-bytes (before_data h (s ∷ ss)) (length (encode_all h (s ∷ ss)) + 4)
              h.ifla_info_data (encode_all h (s ∷ ss) ++ rest) good.data_fits,
          (==_iff h.ifla_info_data h.ifla_info_data).1 refl,
        )
        (data_lem len)

  -- On an IFLA_LINKINFO attribute that a sender wrote with kind "vlan" and one or more settings of
  -- the identifier, the flags or the protocol, where the protocol is sent in network order, the text
  -- is that of the identifier, the flags and, with its two bytes swapped, the protocol, cut to the
  -- array, and nothing goes to stdout. A later setting of a kind replaces an earlier one.
  pub linkinfo_vlan :
      (len : ℕ)
      → rta_to_str_ifla_linkinfo h mem 0 len
        ≡ ok (snprintf len (vlan_text (foldl apply vlaninfo_zero (s ∷ ss))), [])
  unfolding rta_to_str_ifla_linkinfo
  linkinfo_vlan len =
      rw
        (
          rtattr_type-bytes [] (length (encode_all h (s ∷ ss)) + 20) h.ifla_linkinfo
              (kind_attr h (s ∷ ss) rest) good.linkinfo_fits,
          (==_iff h.ifla_linkinfo h.ifla_linkinfo).1 refl,
          rtattr_type-bytes (root_header h (s ∷ ss)) 9 h.ifla_info_kind
              (vlan_kind_text ++ (0 ∷ 0 ∷ 0 ∷ 0 ∷ data_attr h (s ∷ ss) rest)) good.kind_fits,
          (==_iff h.ifla_info_kind h.ifla_info_kind).1 refl,
          read_kind h (s ∷ ss) rest,
          (text_eq_iff vlan_kind_text vlan_kind_text).1 refl,
        )
        (kind_lem len)
