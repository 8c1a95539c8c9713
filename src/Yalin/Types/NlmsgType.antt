-- ===== src/Yalin/Types/NlmsgType.antt =====
-- `nlmsg_type_to_str` of yalin/yalin/types.h: the message types RTM_…. A kernel header
-- defines their values.
use hspp.Prelude.{
  ap, sym, ◌∙◌, ℕ, true, ◌≡◌, refl, List, [], ◌∷◌, map, none, some, get_elem?, Text, codes,
}
use hspp.Switch.{switch, switch_label, distinct, some_eq}

pub data Rtm : Type 0 where
  rtm_newlink rtm_dellink rtm_getlink rtm_newaddr : Rtm
  rtm_deladdr rtm_getaddr rtm_newroute rtm_delroute : Rtm
  rtm_getroute rtm_newneigh rtm_delneigh rtm_getneigh : Rtm
  rtm_newrule rtm_delrule rtm_getrule rtm_newqdisc : Rtm
  rtm_delqdisc rtm_getqdisc rtm_newtclass rtm_deltclass : Rtm
  rtm_gettclass rtm_newtfilter rtm_deltfilter rtm_gettfilter : Rtm

-- The case labels, in the order of the source.
abbrev pub rtm_labels : List Rtm
rtm_labels =
    rtm_newlink ∷ rtm_dellink ∷ rtm_getlink ∷ rtm_newaddr ∷ rtm_deladdr ∷ rtm_getaddr ∷ rtm_newroute
    ∷ rtm_delroute ∷ rtm_getroute ∷ rtm_newneigh ∷ rtm_delneigh ∷ rtm_getneigh ∷ rtm_newrule
    ∷ rtm_delrule ∷ rtm_getrule ∷ rtm_newqdisc ∷ rtm_delqdisc ∷ rtm_getqdisc ∷ rtm_newtclass
    ∷ rtm_deltclass ∷ rtm_gettclass ∷ rtm_newtfilter ∷ rtm_deltfilter ∷ rtm_gettfilter ∷ []

index : Rtm → ℕ
index rtm_newlink = 0
index rtm_dellink = 1
index rtm_getlink = 2
index rtm_newaddr = 3
index rtm_deladdr = 4
index rtm_getaddr = 5
index rtm_newroute = 6
index rtm_delroute = 7
index rtm_getroute = 8
index rtm_newneigh = 9
index rtm_delneigh = 10
index rtm_getneigh = 11
index rtm_newrule = 12
index rtm_delrule = 13
index rtm_getrule = 14
index rtm_newqdisc = 15
index rtm_delqdisc = 16
index rtm_getqdisc = 17
index rtm_newtclass = 18
index rtm_deltclass = 19
index rtm_gettclass = 20
index rtm_newtfilter = 21
index rtm_deltfilter = 22
index rtm_gettfilter = 23

labels-index : (k : Rtm) → get_elem? rtm_labels (index k) ≡ some k
unfolding index
labels-index rtm_newlink = refl
labels-index _ = refl

-- What the case of a label returns.
unfoldable pub rtm_name : Rtm → Text
rtm_name rtm_newlink = codes "RTM_NEWLINK"
rtm_name rtm_dellink = codes "RTM_DELLINK"
rtm_name rtm_getlink = codes "RTM_GETLINK"
rtm_name rtm_newaddr = codes "RTM_NEWADDR"
rtm_name rtm_deladdr = codes "RTM_DELADDR"
rtm_name rtm_getaddr = codes "RTM_GETADDR"
rtm_name rtm_newroute = codes "RTM_NEWROUTE"
rtm_name rtm_delroute = codes "RTM_DELROUTE"
rtm_name rtm_getroute = codes "RTM_GETROUTE"
rtm_name rtm_newneigh = codes "RTM_NEWNEIGH"
rtm_name rtm_delneigh = codes "RTM_DELNEIGH"
rtm_name rtm_getneigh = codes "RTM_GETNEIGH"
rtm_name rtm_newrule = codes "RTM_NEWRULE"
rtm_name rtm_delrule = codes "RTM_DELRULE"
rtm_name rtm_getrule = codes "RTM_GETRULE"
rtm_name rtm_newqdisc = codes "RTM_NEWQDISC"
rtm_name rtm_delqdisc = codes "RTM_DELQDISC"
rtm_name rtm_getqdisc = codes "RTM_GETQDISC"
rtm_name rtm_newtclass = codes "RTM_NEWTCLASS"
rtm_name rtm_deltclass = codes "RTM_DELTCLASS"
rtm_name rtm_gettclass = codes "RTM_GETTCLASS"
rtm_name rtm_newtfilter = codes "RTM_NEWTFILTER"
rtm_name rtm_deltfilter = codes "RTM_DELTFILTER"
rtm_name rtm_gettfilter = codes "RTM_GETTFILTER"

unfoldable pub nlmsg_type_to_str : (Rtm → ℕ) → ℕ → Text
unfolding rtm_name
nlmsg_type_to_str value v = elim (switch value rtm_labels v) [
  | some k ↦ rtm_name k
  | none ↦ codes "UNKOWN"
]

pub switch_rtm :
    (value : Rtm → ℕ) (k : Rtm)
    → distinct (map value rtm_labels) ≡ true
    → switch value rtm_labels (value k) ≡ some k
switch_rtm value k d = switch_label value rtm_labels (index k) d (labels-index k)

pub nlmsg_type_to_str_label :
    (value : Rtm → ℕ) (k : Rtm)
    → distinct (map value rtm_labels) ≡ true
    → nlmsg_type_to_str value (value k) ≡ rtm_name k
unfolding nlmsg_type_to_str
nlmsg_type_to_str_label value k d = rw (switch_rtm value k d, nlmsg_type_to_str)

pub label_unique :
    (value : Rtm → ℕ) (k j : Rtm)
    → distinct (map value rtm_labels) ≡ true
    → value k ≡ value j
    → k ≡ j
label_unique value k j d e = some_eq (
    sym (switch_label value rtm_labels (index k) d (labels-index k))
    ∙ ap (switch value rtm_labels) e
    ∙ switch_label value rtm_labels (index j) d (labels-index j))
