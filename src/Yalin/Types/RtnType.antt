-- ===== src/Yalin/Types/RtnType.antt =====
-- `rtn_type_to_str` of yalin/yalin/types.h: the route types RTN_…. A kernel header
-- defines their values.
use hspp.Prelude.{ℕ, true, ◌≡◌, refl, List, [], ◌∷◌, map, none, some, get_elem?, Text, codes}
use hspp.Switch.{switch, switch_label, distinct}
use hspp.Outcome.{Outcome, ok, stop, exit_one}

pub data Rtn : Type 0 where
  rtn_unspec rtn_unicast rtn_local rtn_broadcast : Rtn
  rtn_anycast rtn_multicast rtn_blackhole rtn_unreachable : Rtn
  rtn_prohibit rtn_throw rtn_nat rtn_xresolve : Rtn

-- The case labels, in the order of the source.
abbrev pub rtn_labels : List Rtn
rtn_labels =
    rtn_unspec ∷ rtn_unicast ∷ rtn_local ∷ rtn_broadcast ∷ rtn_anycast ∷ rtn_multicast
    ∷ rtn_blackhole ∷ rtn_unreachable ∷ rtn_prohibit ∷ rtn_throw ∷ rtn_nat ∷ rtn_xresolve ∷ []

index : Rtn → ℕ
index rtn_unspec = 0
index rtn_unicast = 1
index rtn_local = 2
index rtn_broadcast = 3
index rtn_anycast = 4
index rtn_multicast = 5
index rtn_blackhole = 6
index rtn_unreachable = 7
index rtn_prohibit = 8
index rtn_throw = 9
index rtn_nat = 10
index rtn_xresolve = 11

labels-index : (k : Rtn) → get_elem? rtn_labels (index k) ≡ some k
unfolding index
labels-index rtn_unspec = refl
labels-index _ = refl

-- What the case of a label returns.
unfoldable pub rtn_name : Rtn → Text
rtn_name rtn_unspec = codes "RTN_UNSPEC"
rtn_name rtn_unicast = codes "RTN_UNICAST"
rtn_name rtn_local = codes "RTN_LOCAL"
rtn_name rtn_broadcast = codes "RTN_BROADCAST"
rtn_name rtn_anycast = codes "RTN_ANYCAST"
rtn_name rtn_multicast = codes "RTN_MULTICAST"
rtn_name rtn_blackhole = codes "RTN_BLACKHOLE"
rtn_name rtn_unreachable = codes "RTN_UNREACHABLE"
rtn_name rtn_prohibit = codes "RTN_PROHIBIT"
rtn_name rtn_throw = codes "RTN_THROW"
rtn_name rtn_nat = codes "RTN_NAT"
rtn_name rtn_xresolve = codes "RTN_XRESOLVE"

unfoldable pub rtn_type_to_str : (Rtn → ℕ) → ℕ → Outcome Text
unfolding rtn_name
rtn_type_to_str value v = elim (switch value rtn_labels v) [
  | some k ↦ ok (rtn_name k)
  | none ↦ stop exit_one
]

rtn_type_to_str_label :
    (value : Rtn → ℕ) (k : Rtn)
    → distinct (map value rtn_labels) ≡ true
    → rtn_type_to_str value (value k) ≡ ok (rtn_name k)
unfolding rtn_type_to_str
rtn_type_to_str_label value k d =
    rw (switch_label value rtn_labels (index k) d (labels-index k), rtn_type_to_str)
