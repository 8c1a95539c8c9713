-- ===== src/Yalin/Linkinfo.antt =====
-- `rta_to_str_IFLA_LINKINFO` and `rta_to_str_IFLA_AF_SPEC` (yalin/yalin/rtattr.h): the text left in
-- `str`, beside the text printed to stdout. `%p` is the parameter `show_ptr` of the header record.
pub mod Encode
pub mod Vlan
pub mod Message
pub mod Total
pub mod Null
pub mod CString
pub mod Tests
use hspp.Prelude.{
  ℕ, zero, suc, ◌+◌, ◌≡◌, refl, ◌==◌, ◌&&◌, if◌then◌else◌, Bool, List, [], ◌∷◌, ◌++◌, Option, none,
  some, Text, codes, get_elem?,
}
use hspp.Outcome.{
  Outcome, ok, stop, Stop, exit_one, assert_failed, null_access, bad_access, no_fuel, ◌>>=◌, ◌>>◌,
  require,
}
use hspp.Memory.{Memory, load8}
use hspp.Printf.{snprintf, dec, hex0}
use hspp.Switch.{switch, text_eq}
use hspp.Yalin.Hexdump.{carrydump}
use hspp.Yalin.Rtattr.{
  rtattr_type, rtattr_len, rtattr_payload_len, rtattr_payload_ptr, rtattr_nest_next, rtattr_next,
  rtattr_read_16bit, rtattr_read_64bit, rtattr_read_str, is_not_positive,
}

-- The attributes inside IFLA_INFO_DATA of a vlan link.
pub data VlanAttr : Type 0 where
  ifla_vlan_id ifla_vlan_flags ifla_vlan_protocol : VlanAttr
  ifla_vlan_unspec ifla_vlan_egress_qos ifla_vlan_ingress_qos : VlanAttr

abbrev pub vlan_labels : List VlanAttr
vlan_labels =
    ifla_vlan_id ∷ ifla_vlan_flags ∷ ifla_vlan_protocol ∷ ifla_vlan_unspec ∷ ifla_vlan_egress_qos
    ∷ ifla_vlan_ingress_qos ∷ []

-- What the kernel's headers and the C library define: the attribute types, and the text of `%p`.
pub record LinkHeader : Type 0 where
  pub ifla_linkinfo : ℕ
  pub ifla_info_kind : ℕ
  pub ifla_info_data : ℕ
  pub vlan : VlanAttr → ℕ
  pub show_ptr : ℕ → Text

-- `struct interface_info_vlan`
pub record VlanInfo : Type 0 where
  pub proto : ℕ
  pub id : ℕ
  pub flags : ℕ

abbrev pub vlaninfo_zero : VlanInfo
vlaninfo_zero = record { proto = 0; id = 0; flags = 0 }

-- The structure and what has been printed so far.
abbrev pub State : Type 0
State = VlanInfo × Text

-- The bytes from `a` on, `n` of them.
unfoldable pub load_bytes : Memory → ℕ → ℕ → Outcome (List ℕ)
load_bytes mem a zero = ok []
load_bytes mem a (suc n) = do b ← load8 mem a; bs ← load_bytes mem (a + 1) n; ok (b ∷ bs)

unfoldable pub skip_text : LinkHeader → ℕ → ℕ → Text
skip_text h type nrta =
    codes "unsupport ... skip type=0x" ++ hex0 4 type ++ codes " @" ++ h.show_ptr nrta ++ codes "\n"

-- The body of the switch over the type of a nested attribute.
unfoldable pub vlan_attr : LinkHeader → Memory → ℕ → ℕ → State → Option VlanAttr → Outcome State
unfolding skip_text
vlan_attr h mem nrta type (info, out) (some ifla_vlan_id) = do
  v ← rtattr_read_16bit mem nrta
  ok (record info { id = v }, out)
vlan_attr h mem nrta type (info, out) (some ifla_vlan_flags) = do
  v ← rtattr_read_64bit mem nrta
  ok (record info { flags = v }, out)
vlan_attr h mem nrta type (info, out) (some ifla_vlan_protocol) = do
  v ← rtattr_read_16bit mem nrta
  ok (record info { proto = v }, out)
vlan_attr h mem nrta type (info, out) (some _) = ok (info, out ++ skip_text h type nrta)
vlan_attr h mem nrta type st none = ok st

-- `while (nrta)`: the loop is entered with a pointer that is not NULL.
unfoldable pub vlan_loop : ℕ → LinkHeader → Memory → ℕ → ℕ → State → Outcome State
vlan_loop zero h mem nrta nbuflen st = stop no_fuel
vlan_loop (suc fuel) h mem nrta nbuflen st = do
  type ← rtattr_type mem nrta
  st' ← vlan_attr h mem nrta type st (switch h.vlan vlan_labels type)
  (next, nbuflen') ← rtattr_next mem nrta nbuflen
  elim next [
    | none ↦ ok st'
    | some p ↦
        let rest = vlan_loop fuel h mem p nbuflen' st' in
        if is_not_positive nbuflen' then ok st' else rest
  ]

unfoldable pub vlan_text : VlanInfo → Text
vlan_text info =
    codes "IFLA_LINKINFO vlan(id:"
    ++ dec info.id
    ++ codes ", proto:0x"
    ++ hex0 4 info.proto
    ++ codes ", flags:0x"
    ++ hex0 8 info.flags
    ++ codes ")"

-- A payload is shorter than 2 ^ 16 bytes, and each round takes at least 4 of them.
abbrev pub max_rounds : ℕ
max_rounds = 0x10000

-- What follows the `if` over the kind.
unfoldable pub unknown_kind : Memory → ℕ → Text → ℕ → Outcome (Text × Text)
unfolding load_bytes
unknown_kind mem root_rta strbuf len = do
  n ← rtattr_len mem root_rta
  bs ← load_bytes mem root_rta n
  ok (
    snprintf len (codes "UNKNOWN LINK KIND (" ++ strbuf ++ codes ")"),
    carrydump (some (codes "IFLA_LINKINFO Unknown-link-kind")) bs,
  )

-- The data attribute of a vlan link.
unfoldable pub vlan_data : LinkHeader → Memory → ℕ → ℕ → Outcome (Text × Text)
vlan_data h mem rta len = do
  nbuflen ← rtattr_payload_len mem rta
  (info, out) ← vlan_loop max_rounds h mem (rtattr_payload_ptr rta) nbuflen (vlaninfo_zero, [])
  ok (snprintf len (vlan_text info), out)

-- The branch for `strcmp(strbuf, "vlan") == 0`; the type of the next attribute is read through the
-- pointer before the test for NULL is used.
unfoldable pub vlan_kind : LinkHeader → Memory → ℕ → ℕ → Text → ℕ → Outcome (Text × Text)
vlan_kind h mem root_rta rta strbuf len = do
  l ← rtattr_len mem rta
  (next, l') ← rtattr_next mem rta l
  elim next [
    | none ↦ stop null_access
    | some data_rta ↦ do
      t ← rtattr_type mem data_rta
      if t == h.ifla_info_data
          then vlan_data h mem data_rta len
          else unknown_kind mem root_rta strbuf len
  ]

unfoldable pub rta_to_str_ifla_linkinfo : LinkHeader → Memory → ℕ → ℕ → Outcome (Text × Text)
rta_to_str_ifla_linkinfo h mem root_rta len = do
  root_type ← rtattr_type mem root_rta
  require (root_type == h.ifla_linkinfo) assert_failed
  let rta = rtattr_nest_next root_rta
  kind_type ← rtattr_type mem rta
  require (kind_type == h.ifla_info_kind) assert_failed
  (strbuf, used) ← rtattr_read_str mem rta 100
  if text_eq strbuf (codes "vlan")
      then vlan_kind h mem root_rta rta strbuf len
      else unknown_kind mem root_rta strbuf len

unfoldable pub rta_to_str_ifla_af_spec : ℕ → Text
rta_to_str_ifla_af_spec len = snprintf len (codes "IFLA_AF_SPEC <unsupported yet>")
