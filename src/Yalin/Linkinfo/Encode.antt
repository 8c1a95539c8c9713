-- ===== src/Yalin/Linkinfo/Encode.antt =====
-- The bytes that the kernel sends for a vlan link: the specification side of the vlan text. The
-- protocol is in network order, the other values in the order of the machine.
use hspp.Prelude.{
  ℕ, ◌+◌, ◌*◌, ◌/◌, ◌%◌, ◌^◌, ◌<◌, ◌≡◌, refl, true, List, [], ◌∷◌, ◌++◌, map, length, Text, arith,
  some, none,
}
use hspp.Outcome.{ok}
use hspp.Memory.{Memory}
use hspp.Memory.Laws.{bytes16, bytes64}
use hspp.Switch.{switch, switch_label, distinct}
use hspp.Yalin.Rtattr.Encode.{
  rtattr_len-bytes, rtattr_type-bytes, rtattr_read_16bit-bytes, rtattr_read_64bit-bytes,
}
use hspp.Yalin.Rtattr.{rtattr_type, rtattr_len, rtattr_next, align}
use hspp.Yalin.Linkinfo.{
  LinkHeader, VlanAttr, ifla_vlan_id, ifla_vlan_flags, ifla_vlan_protocol, vlan_labels, VlanInfo,
  vlan_attr,
}

-- One nested attribute.
pub data Setting : Type 0 where
  set_id set_flags set_proto : ℕ → Setting

abbrev pub attr : Setting → VlanAttr
attr (set_id v) = ifla_vlan_id
attr (set_flags v) = ifla_vlan_flags
attr (set_proto v) = ifla_vlan_protocol

-- The two bytes of a 16-bit value, swapped.
abbrev pub htons : ℕ → ℕ
htons v = v % 2 ^ 8 * 2 ^ 8 + v / 2 ^ 8 % 2 ^ 8

htons-fits : (v : ℕ) → htons v < 2 ^ 16
htons-fits v = omega arith

-- Its length without padding.
abbrev pub size : Setting → ℕ
size (set_id v) = 6
size (set_flags v) = 12
size (set_proto v) = 6

abbrev pub payload : Setting → List ℕ
payload (set_id v) = bytes16 v ++ 0 ∷ 0 ∷ []
payload (set_flags v) = bytes64 v
payload (set_proto v) = bytes16 (htons v) ++ 0 ∷ 0 ∷ []

abbrev pub Fits : Setting → Type 0
Fits (set_id v) = v < 2 ^ 16
Fits (set_flags v) = v < 2 ^ 64
Fits (set_proto v) = v < 2 ^ 16

abbrev pub AllFit : List Setting → Type 0
AllFit [] = Unit
AllFit (s ∷ ss) = Fits s × AllFit ss

abbrev pub apply : VlanInfo → Setting → VlanInfo
apply info (set_id v) = record info { id = v }
apply info (set_flags v) = record info { flags = v }
apply info (set_proto v) = record info { proto = htons v }

-- The header's constants are 16-bit values, and the labels of the switch are distinct.
pub record IsLinkHeader (h : LinkHeader) : Type 0 where
  pub linkinfo_fits : h.ifla_linkinfo < 2 ^ 16
  pub kind_fits : h.ifla_info_kind < 2 ^ 16
  pub data_fits : h.ifla_info_data < 2 ^ 16
  pub vlan_fits : (k : VlanAttr) → h.vlan k < 2 ^ 16
  pub vlan_distinct : distinct (map h.vlan vlan_labels) ≡ true

module _ (h : LinkHeader) where
  abbrev pub encode : Setting → List ℕ
  encode s = bytes16 (size s) ++ bytes16 (h.vlan (attr s)) ++ payload s

  abbrev pub encode_all : List Setting → List ℕ
  encode_all [] = []
  encode_all (s ∷ ss) = encode s ++ encode_all ss

pub switch-attr :
    (h : LinkHeader) (s : Setting)
    → IsLinkHeader h
    → switch h.vlan vlan_labels (h.vlan (attr s)) ≡ some (attr s)
switch-attr h (set_id v) good = switch_label h.vlan vlan_labels 0 good.vlan_distinct refl
switch-attr h (set_flags v) good = switch_label h.vlan vlan_labels 1 good.vlan_distinct refl
switch-attr h (set_proto v) good = switch_label h.vlan vlan_labels 2 good.vlan_distinct refl

pub size-fits : (s : Setting) → size s < 2 ^ 16
size-fits (set_id v) = omega arith
size-fits (set_flags v) = omega arith
size-fits (set_proto v) = omega arith

-- At any place of the memory, the code reads such an attribute as it was written.
module _ (h : LinkHeader) (good : IsLinkHeader h) (pre rest : List ℕ) where
  abbrev here : Setting → Memory
  here s = pre ++ (encode h s ++ rest)

  pub vlan_attr-encode :
      (s : Setting) (type : ℕ) (info : VlanInfo) (out : Text)
      → Fits s
      → vlan_attr h (here s) (length pre) type (info, out) (some (attr s)) ≡ ok (apply info s, out)
  unfolding vlan_attr
  vlan_attr-encode (set_id v) type info out fits =
      rw (rtattr_read_16bit-bytes pre (h.vlan ifla_vlan_id) v (0 ∷ 0 ∷ rest) fits)
  vlan_attr-encode (set_flags v) type info out fits =
      rw (rtattr_read_64bit-bytes pre (h.vlan ifla_vlan_flags) v rest fits)
  vlan_attr-encode (set_proto v) type info out fits = rw (
      rtattr_read_16bit-bytes pre (h.vlan ifla_vlan_protocol) (htons v) (0 ∷ 0 ∷ rest)
        (htons-fits v))

  pub rtattr_type-encode : (s : Setting) → rtattr_type (here s) (length pre) ≡ ok (h.vlan (attr s))
  rtattr_type-encode s =
      rtattr_type-bytes pre (size s) (h.vlan (attr s)) (payload s ++ rest) (good.vlan_fits (attr s))

  pub rtattr_len-encode : (s : Setting) → rtattr_len (here s) (length pre) ≡ ok (size s)
  rtattr_len-encode s =
      rtattr_len-bytes pre (size s) (h.vlan (attr s)) (payload s ++ rest) (size-fits s)

  -- Behind the last attribute there is no next one; behind another, the next one is as far on as
  -- the padded attribute is long.
  pub rtattr_next-last :
      (s : Setting)
      → rtattr_next (here s) (length pre) (length (encode h s)) ≡ ok (none, length (encode h s))
  unfolding rtattr_next align
  rtattr_next-last (set_id v) = rw (rtattr_len-encode (set_id v))
  rtattr_next-last (set_flags v) = rw (rtattr_len-encode (set_flags v))
  rtattr_next-last (set_proto v) = rw (rtattr_len-encode (set_proto v))

  pub rtattr_next-more :
      (s : Setting) (n : ℕ)
      → 4 < n
      → n < 2 ^ 16
      → rtattr_next (here s) (length pre) (length (encode h s) + n)
        ≡ ok (some (length pre + length (encode h s)), n)
  unfolding rtattr_next align
  rtattr_next-more (set_id v) n more small = rw (rtattr_len-encode (set_id v)) (ground arith)
  rtattr_next-more (set_flags v) n more small = rw (rtattr_len-encode (set_flags v)) (ground arith)
  rtattr_next-more (set_proto v) n more small = rw (rtattr_len-encode (set_proto v)) (ground arith)
