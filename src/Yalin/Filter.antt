-- ===== src/Yalin/Filter.antt =====
-- `netlink_is_link_msg` (yalin/yalin/filter.h).
use hspp.Prelude.{
  ℕ, ◌≡◌, refl, ◌==◌, ==_iff, ◌||◌, Bool, true, false, map, arith, ap, inl, inr, ◌↔◌, ◌⊎◌,
}
use hspp.Switch.{distinct}
use hspp.Yalin.Types.NlmsgType.{
  Rtm, rtm_newlink, rtm_dellink, rtm_getlink, rtm_labels, label_unique,
}

-- `type` is the field `nlmsg_type` of the header.
unfoldable pub netlink_is_link_msg : (Rtm → ℕ) → ℕ → Bool
netlink_is_link_msg value type =
    type == value rtm_newlink || (type == value rtm_dellink || type == value rtm_getlink)

or_cases : (a b : Bool) → (a || b) ≡ true → (a ≡ true) ⊎ (b ≡ true)
or_cases true b h = inl refl
or_cases false b h = inr h

or_left : (a b : Bool) → a ≡ true → (a || b) ≡ true
or_left a b h = ground arith

or_right : (a b : Bool) → b ≡ true → (a || b) ≡ true
or_right true b h = refl
or_right false b h = h

-- With distinct label values, the filter lets through the three link messages, and no other of the
-- message types that `nlmsg_type_to_str` knows.
pub is_link_msg_iff :
    (value : Rtm → ℕ) (k : Rtm)
    → distinct (map value rtm_labels) ≡ true
    → (netlink_is_link_msg value (value k) ≡ true)
      ↔ ((k ≡ rtm_newlink) ⊎ (k ≡ rtm_dellink) ⊎ (k ≡ rtm_getlink))
unfolding netlink_is_link_msg
is_link_msg_iff value k d = (
  (λ h. elim (or_cases (value k == value rtm_newlink) _ h) [
    | inl e ↦ inl (label_of rtm_newlink e)
    | inr h' ↦ inr (elim (or_cases (value k == value rtm_dellink) _ h') [
      | inl e ↦ inl (label_of rtm_dellink e)
      | inr e ↦ inr (label_of rtm_getlink e)
    ])
  ]),
  (λ h. elim h [
    | inl e ↦ or_left (same rtm_newlink) _ (matches rtm_newlink e)
    | inr h' ↦ elim h' [
      | inl e ↦ or_right (same rtm_newlink) _ (or_left (same rtm_dellink) _ (matches rtm_dellink e))
      | inr e ↦
          or_right (same rtm_newlink) _ (or_right (same rtm_dellink) _ (matches rtm_getlink e))
    ]
  ]),
)
  where
    same : Rtm → Bool
    same j = value k == value j

    matches : (j : Rtm) → k ≡ j → (value k == value j) ≡ true
    matches j e = (==_iff (value k) (value j)).1 (ap value e)

    label_of : (j : Rtm) → (value k == value j) ≡ true → k ≡ j
    label_of j e = label_unique value k j d ((==_iff (value k) (value j)).0 e)
