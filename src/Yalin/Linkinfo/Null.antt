-- ===== src/Yalin/Linkinfo/Null.antt =====
-- The read through NULL behind a kind attribute with no padding.
use hspp.Prelude.{ℕ, ◌+◌, ◌%◌, ◌^◌, ◌<◌, ◌≡◌, refl, arith, codes, ==_iff, ◌∙◌, none}
use hspp.Outcome.{ok, stop, null_access}
use hspp.Memory.{Memory}
use hspp.Switch.{text_eq_iff}
use hspp.Yalin.Rtattr.{rtattr_type, rtattr_len, rtattr_next, rtattr_read_str}
use hspp.Yalin.Rtattr.Next.{rtattr_next_lem}
use hspp.Yalin.Linkinfo.{LinkHeader, vlan_kind, rta_to_str_ifla_linkinfo}

-- Where the kind of an IFLA_LINKINFO attribute is "vlan" and the length of the kind attribute is a
-- positive multiple of 4, the code reads the type of the next attribute through NULL.
pub linkinfo_null :
    (h : LinkHeader) (mem : Memory) (root_rta n used len : ℕ)
    → rtattr_type mem root_rta ≡ ok h.ifla_linkinfo
    → rtattr_type mem (root_rta + 4) ≡ ok h.ifla_info_kind
    → rtattr_read_str mem (root_rta + 4) 100 ≡ ok (codes "vlan", used)
    → rtattr_len mem (root_rta + 4) ≡ ok n
    → 0 < n
    → n < 2 ^ 16
    → n % 4 ≡ 0
    → rta_to_str_ifla_linkinfo h mem root_rta len ≡ stop null_access
unfolding rta_to_str_ifla_linkinfo vlan_kind
linkinfo_null h mem root_rta n used len root kind str size pos small aligned = rw (
  root,
  (==_iff h.ifla_linkinfo h.ifla_linkinfo).1 refl,
  kind,
  (==_iff h.ifla_info_kind h.ifla_info_kind).1 refl,
  str,
  (text_eq_iff (codes "vlan") (codes "vlan")).1 refl,
  size,
  no_next,
)
  where
    no_next : rtattr_next mem (root_rta + 4) n ≡ ok (none, n)
    no_next = rtattr_next_lem mem (root_rta + 4) n n size pos small pos (omega arith) ∙ ground arith
