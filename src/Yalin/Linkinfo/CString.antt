-- ===== src/Yalin/Linkinfo/CString.antt =====
-- The text of `rta_to_str_IFLA_LINKINFO` is a C string that fits in its array.
use hspp.Prelude.{ℕ, ◌<◌, ◌==◌, refl, ◌-◌, [], ltb, if◌then◌else◌, Option, some, none, Text, codes}
use hspp.Outcome.{stop, null_access, ◌>>=◌, require, assert_failed}
use hspp.Outcome.Ensures.{Ensures, ensured, halted, any-Ensures, known-Ensures, if-Ensures}
use hspp.Memory.{Memory, load_str}
use hspp.Memory.CString.{load_str-Clean}
use hspp.Printf.CString.{
  Clean, ◌&◌, literal, dec-Clean, hex0-Clean, take-Clean, IsCString, snprintf-IsCString,
}
use hspp.Printf.{snprintf}
use hspp.Switch.{text_eq}
use hspp.Yalin.Rtattr.{
  rtattr_type, rtattr_len, rtattr_payload_len, rtattr_payload_ptr, rtattr_next, rtattr_nest_next,
  rtattr_read_str,
}
use hspp.Yalin.Linkinfo.{
  LinkHeader, VlanInfo, vlaninfo_zero, vlan_loop, max_rounds, load_bytes, vlan_text, vlan_data,
  vlan_kind, unknown_kind, rta_to_str_ifla_linkinfo, rta_to_str_ifla_af_spec,
}

vlan_text-Clean : (info : VlanInfo) → Clean (vlan_text info)
unfolding vlan_text
vlan_text-Clean info =
    literal (codes "IFLA_LINKINFO vlan(id:") refl
    & dec-Clean info.id
    & literal (codes ", proto:0x") refl
    & hex0-Clean 4 info.proto
    & literal (codes ", flags:0x") refl
    & hex0-Clean 8 info.flags
    & literal (codes ")") refl

rtattr_read_str-Clean :
    (mem : Memory) (attr size : ℕ) → Ensures (λ read. Clean read.0) (rtattr_read_str mem attr size)
unfolding rtattr_read_str snprintf
rtattr_read_str-Clean mem attr size = any-Ensures (rtattr_payload_len mem attr) (λ n.
    if-Ensures (ltb size n) halted (
      known-Ensures (load_str mem (rtattr_payload_ptr attr))
        (load_str-Clean mem (rtattr_payload_ptr attr)) (λ s a. ensured (take-Clean (size - 1) a))))

pub af_spec-Clean : (len : ℕ) → 0 < len → IsCString len (rta_to_str_ifla_af_spec len)
unfolding rta_to_str_ifla_af_spec
af_spec-Clean len room =
    snprintf-IsCString len room (literal (codes "IFLA_AF_SPEC <unsupported yet>") refl)

module _ (h : LinkHeader) (mem : Memory) (root_rta len : ℕ) (room : 0 < len) where
  abbrev Fits : Text × Text → Type 0
  Fits shown = IsCString len shown.0

  unknown_kind-Clean :
      (strbuf : Text) → Clean strbuf → Ensures Fits (unknown_kind mem root_rta strbuf len)
  unfolding unknown_kind
  unknown_kind-Clean strbuf a = any-Ensures (rtattr_len mem root_rta) (λ n.
      any-Ensures (load_bytes mem root_rta n) (λ bs. ensured (
        snprintf-IsCString len room
          (literal (codes "UNKNOWN LINK KIND (") refl & a & literal (codes ")") refl))))

  vlan_data-Clean : (rta : ℕ) → Ensures Fits (vlan_data h mem rta len)
  unfolding vlan_data
  vlan_data-Clean rta = any-Ensures (rtattr_payload_len mem rta) (λ n.
      any-Ensures (vlan_loop max_rounds h mem (rtattr_payload_ptr rta) n (vlaninfo_zero, []))
        (λ st. ensured (snprintf-IsCString len room (vlan_text-Clean st.0))))

  vlan_kind-Clean :
      (rta : ℕ) (strbuf : Text)
      → Clean strbuf
      → Ensures Fits (vlan_kind h mem root_rta rta strbuf len)
  unfolding vlan_kind
  vlan_kind-Clean rta strbuf a =
      any-Ensures (rtattr_len mem rta)
        (λ l. any-Ensures (rtattr_next mem rta l) (λ next. with_next next.0))
    where
      with_next :
          (next : Option ℕ)
          → Ensures Fits (elim next [
            | none ↦ stop null_access
            | some data_rta ↦ do
              t ← rtattr_type mem data_rta
              if t == h.ifla_info_data
                  then vlan_data h mem data_rta len
                  else unknown_kind mem root_rta strbuf len
          ])
      with_next none = halted
      with_next (some data_rta) = any-Ensures (rtattr_type mem data_rta) (λ t.
          if-Ensures (t == h.ifla_info_data) (vlan_data-Clean data_rta)
            (unknown_kind-Clean strbuf a))

  pub rta_to_str_ifla_linkinfo-Clean : Ensures Fits (rta_to_str_ifla_linkinfo h mem root_rta len)
  unfolding rta_to_str_ifla_linkinfo
  rta_to_str_ifla_linkinfo-Clean = any-Ensures (rtattr_type mem root_rta) (λ root_type.
      any-Ensures (require (root_type == h.ifla_linkinfo) assert_failed) (λ _.
        any-Ensures (rtattr_type mem (rtattr_nest_next root_rta)) (λ kind_type.
          any-Ensures (require (kind_type == h.ifla_info_kind) assert_failed) (λ _.
            known-Ensures (rtattr_read_str mem (rtattr_nest_next root_rta) 100)
              (rtattr_read_str-Clean mem (rtattr_nest_next root_rta) 100)
              (λ read a.
                if-Ensures (text_eq read.0 (codes "vlan"))
                  (vlan_kind-Clean (rtattr_nest_next root_rta) read.0 a)
                  (unknown_kind-Clean read.0 a))))))
