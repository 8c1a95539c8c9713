-- ===== src/Yalin/Linkinfo/Total.antt =====
-- The bound on the rounds of the vlan loop is enough, whatever the memory holds.
use hspp.Prelude.{
  ℕ, zero, suc, ◌+◌, ◌^◌, ◌<◌, ◌≡◌, ◌≢◌, refl, arith, ap, ◌∙◌, Bool, true, false, Bool-cases, inl,
  inr, ◌⊎◌, Option, some, none, Text, codes, if◌then◌else◌, ◌==◌, [],
}
use hspp.Outcome.{
  Outcome, ok, stop, no_fuel, assert_failed, null_access, bad_access, exit_one, ◌>>=◌, require,
  >>=-eq-ok,
}
use hspp.Memory.{Memory, load16}
use hspp.Memory.Bounds.{IsBytes, load8-fuel, load16-fuel, load64-fuel, load_str-fuel, load16-lt}
use hspp.Switch.{switch, text_eq}
use hspp.Yalin.Rtattr.{
  rtattr_type, rtattr_len, rtattr_payload_len, rtattr_next, rtattr_read_16bit, rtattr_read_64bit,
  rtattr_read_str, is_not_positive, size_sub, rtattr_payload_ptr,
}
use hspp.Yalin.Rtattr.Next.{rtattr_next-decreases, rtattr_next-stops, rtattr_next-fuel}
use hspp.Yalin.Linkinfo.{
  LinkHeader, VlanAttr, ifla_vlan_id, ifla_vlan_flags, ifla_vlan_protocol, ifla_vlan_unspec,
  ifla_vlan_egress_qos, ifla_vlan_ingress_qos, vlan_labels, State, load_bytes, vlan_attr, vlan_loop,
  vlan_data, vlan_kind, unknown_kind, max_rounds, rta_to_str_ifla_linkinfo, vlaninfo_zero,
}

rtattr_type-fuel : (mem : Memory) (rta : ℕ) → rtattr_type mem rta ≢ stop no_fuel
unfolding rtattr_type
rtattr_type-fuel mem rta = load16-fuel mem (rta + 2)

rtattr_len-fuel : (mem : Memory) (rta : ℕ) → rtattr_len mem rta ≢ stop no_fuel
unfolding rtattr_len
rtattr_len-fuel mem rta = load16-fuel mem rta

rtattr_payload_len-fuel : (mem : Memory) (rta : ℕ) → rtattr_payload_len mem rta ≢ stop no_fuel
unfolding rtattr_payload_len
rtattr_payload_len-fuel mem rta = ground (arith, load16-fuel mem rta)

rtattr_read_16bit-fuel : (mem : Memory) (rta : ℕ) → rtattr_read_16bit mem rta ≢ stop no_fuel
unfolding rtattr_read_16bit
rtattr_read_16bit-fuel mem rta =
    ground (arith, load16-fuel mem rta, load16-fuel mem (rtattr_payload_ptr rta))

rtattr_read_64bit-fuel : (mem : Memory) (rta : ℕ) → rtattr_read_64bit mem rta ≢ stop no_fuel
unfolding rtattr_read_64bit
rtattr_read_64bit-fuel mem rta =
    ground (arith, load16-fuel mem rta, load64-fuel mem (rtattr_payload_ptr rta))

rtattr_read_str-fuel : (mem : Memory) (rta n : ℕ) → rtattr_read_str mem rta n ≢ stop no_fuel
unfolding rtattr_read_str
rtattr_read_str-fuel mem rta n =
    ground (arith, load16-fuel mem rta, load_str-fuel mem (rtattr_payload_ptr rta))

vlan_attr-fuel :
    (h : LinkHeader) (mem : Memory) (nrta type : ℕ) (st : State) (k : Option VlanAttr)
    → vlan_attr h mem nrta type st k ≢ stop no_fuel
unfolding vlan_attr
vlan_attr-fuel h mem nrta type (info, out) none = ground arith
vlan_attr-fuel h mem nrta type (info, out) (some ifla_vlan_id) =
    ground (arith, rtattr_read_16bit-fuel mem nrta)
vlan_attr-fuel h mem nrta type (info, out) (some ifla_vlan_flags) =
    ground (arith, rtattr_read_64bit-fuel mem nrta)
vlan_attr-fuel h mem nrta type (info, out) (some ifla_vlan_protocol) =
    ground (arith, rtattr_read_16bit-fuel mem nrta)
vlan_attr-fuel h mem nrta type (info, out) (some ifla_vlan_unspec) = ground arith
vlan_attr-fuel h mem nrta type (info, out) (some ifla_vlan_egress_qos) = ground arith
vlan_attr-fuel h mem nrta type (info, out) (some ifla_vlan_ingress_qos) = ground arith

-- A bind does not want for fuel if neither part does.
pub bind-fuel :
    {A B : Type 0} (m : Outcome A) (f : A → Outcome B)
    → m ≢ stop no_fuel
    → ((a : A) → m ≡ ok a → f a ≢ stop no_fuel)
    → (m >>= f) ≢ stop no_fuel
bind-fuel (ok a) f hm hf = hf a refl
bind-fuel (stop no_fuel) f hm hf = absurd (hm refl)
bind-fuel (stop exit_one) f hm hf = ground arith
bind-fuel (stop assert_failed) f hm hf = ground arith
bind-fuel (stop bad_access) f hm hf = ground arith
bind-fuel (stop null_access) f hm hf = ground arith

-- The end of a round.
next-fuel :
    (h : LinkHeader) (fuel : ℕ) (mem : Memory) (st : State) (next : Option ℕ) (n : ℕ)
    → ((p : ℕ)
        → next ≡ some p
        → is_not_positive n ≡ false
        → vlan_loop fuel h mem p n st ≢ stop no_fuel)
    → elim next [
      | none ↦ ok st
      | some p ↦ let rest = vlan_loop fuel h mem p n st in if is_not_positive n then ok st else rest
    ]
      ≢ stop no_fuel
next-fuel h fuel mem st none n ih = ground arith
next-fuel h fuel mem st (some p) n ih = elim (Bool-cases (is_not_positive n)) [
  | inl e ↦ rw e (ground arith)
  | inr e ↦ rw e (ih p refl e)
]

-- What remains when the loop goes on is less than before, and there is fuel for it.
remaining-lt :
    (mem : Memory) (nrta nbuflen fuel p n : ℕ)
    → IsBytes mem
    → nbuflen < 2 ^ 64
    → (nbuflen < suc fuel) ⊎ ((is_not_positive nbuflen ≡ true) × (0 < suc fuel))
    → rtattr_next mem nrta nbuflen ≡ ok (some p, n)
    → is_not_positive n ≡ false
    → (n < fuel) × (n < 2 ^ 64)
remaining-lt mem nrta nbuflen fuel p n m small enough e positive = elim enough [
  | inl lt ↦ omega (arith, rtattr_next-decreases mem nrta nbuflen p n m small e positive)
  | inr (neg, pos) ↦ absurd (rtattr_next-stops mem nrta nbuflen p n neg e)
]

vlan_loop-fuel :
    (h : LinkHeader) (fuel : ℕ) (mem : Memory) (nrta nbuflen : ℕ) (st : State)
    → IsBytes mem
    → nbuflen < 2 ^ 64
    → (nbuflen < fuel) ⊎ ((is_not_positive nbuflen ≡ true) × (0 < fuel))
    → vlan_loop fuel h mem nrta nbuflen st ≢ stop no_fuel
unfolding vlan_loop
vlan_loop-fuel h zero mem nrta nbuflen st m small enough = absurd (ground arith)
vlan_loop-fuel h (suc fuel) mem nrta nbuflen st m small enough =
    bind-fuel (rtattr_type mem nrta) _ (rtattr_type-fuel mem nrta) λ type _.
      bind-fuel (vlan_attr h mem nrta type st (switch h.vlan vlan_labels type)) _
        (vlan_attr-fuel h mem nrta type st (switch h.vlan vlan_labels type))
        λ st' _.
          bind-fuel (rtattr_next mem nrta nbuflen) _ (rtattr_next-fuel mem nrta nbuflen) λ r e.
            next-fuel h fuel mem st' r.0 r.1 λ p q positive.
              let lt =
                remaining-lt mem nrta nbuflen fuel p r.1 m small enough
                  (e ∙ ap (λ (o : Option ℕ). ok (o, r.1)) q) positive in
              vlan_loop-fuel h fuel mem p r.1 st' m lt.1 (inl lt.0)

load_bytes-fuel : (mem : Memory) (a n : ℕ) → load_bytes mem a n ≢ stop no_fuel
unfolding load_bytes
load_bytes-fuel mem a zero = ground arith
load_bytes-fuel mem a (suc n) = ground (arith, load8-fuel mem a, load_bytes-fuel mem (a + 1) n)

unknown_kind-fuel :
    (mem : Memory) (root_rta : ℕ) (strbuf : Text) (len : ℕ)
    → unknown_kind mem root_rta strbuf len ≢ stop no_fuel
unfolding unknown_kind
unknown_kind-fuel mem root_rta strbuf len =
    bind-fuel (rtattr_len mem root_rta) _ (rtattr_len-fuel mem root_rta) λ n _.
      bind-fuel (load_bytes mem root_rta n) _ (load_bytes-fuel mem root_rta n) λ bs _. ground arith

payload_len-bound :
    (mem : Memory) (rta n : ℕ)
    → IsBytes mem
    → rtattr_payload_len mem rta ≡ ok n
    → (n < 2 ^ 64) × ((n < max_rounds) ⊎ ((is_not_positive n ≡ true) × (0 < max_rounds)))
unfolding rtattr_payload_len rtattr_len
payload_len-bound mem rta n m h =
    let (len, e, h') = >>=-eq-ok (load16 mem rta) (λ (k : ℕ). ok (size_sub k 4)) h in
    ground (arith, load16-lt mem rta m e)

vlan_data-fuel :
    (h : LinkHeader) (mem : Memory) (rta len : ℕ)
    → IsBytes mem
    → vlan_data h mem rta len ≢ stop no_fuel
unfolding vlan_data
vlan_data-fuel h mem rta len m =
    bind-fuel (rtattr_payload_len mem rta) _ (rtattr_payload_len-fuel mem rta) λ n e.
      let bound = payload_len-bound mem rta n m e in
      bind-fuel (vlan_loop max_rounds h mem (rtattr_payload_ptr rta) n (vlaninfo_zero, [])) _
        (vlan_loop-fuel h max_rounds mem (rtattr_payload_ptr rta) n (vlaninfo_zero, []) m bound.0
          bound.1)
        λ st _. ground arith

vlan_kind-fuel :
    (h : LinkHeader) (mem : Memory) (root_rta rta : ℕ) (strbuf : Text) (len : ℕ)
    → IsBytes mem
    → vlan_kind h mem root_rta rta strbuf len ≢ stop no_fuel
unfolding vlan_kind
vlan_kind-fuel h mem root_rta rta strbuf len m =
    bind-fuel (rtattr_len mem rta) _ (rtattr_len-fuel mem rta)
      λ l _. bind-fuel (rtattr_next mem rta l) _ (rtattr_next-fuel mem rta l) λ r _. data_part r.0
  where
    chosen :
        (p t : ℕ) (same : Bool)
        → (if same then vlan_data h mem p len else unknown_kind mem root_rta strbuf len)
          ≢ stop no_fuel
    chosen p t true = vlan_data-fuel h mem p len m
    chosen p t false = unknown_kind-fuel mem root_rta strbuf len

    data_part :
        (next : Option ℕ)
        → elim next [
          | none ↦ stop null_access
          | some data_rta ↦ do
            t ← rtattr_type mem data_rta
            if t == h.ifla_info_data
                then vlan_data h mem data_rta len
                else unknown_kind mem root_rta strbuf len
        ]
          ≢ stop no_fuel
    data_part none = ground arith
    data_part (some p) =
        bind-fuel (rtattr_type mem p) _ (rtattr_type-fuel mem p)
          λ t _. chosen p t (t == h.ifla_info_data)

require-fuel : (b : Bool) → require b assert_failed ≢ stop no_fuel
require-fuel true = ground arith
require-fuel false = ground arith

-- Over a memory of bytes, wherever the attribute stands and whatever it holds, the run of
-- `rta_to_str_IFLA_LINKINFO` ends: the bound on the rounds of its loop is never reached.
pub linkinfo-fuel :
    (h : LinkHeader) (mem : Memory) (root_rta len : ℕ)
    → IsBytes mem
    → rta_to_str_ifla_linkinfo h mem root_rta len ≢ stop no_fuel
unfolding rta_to_str_ifla_linkinfo
linkinfo-fuel h mem root_rta len m =
    bind-fuel (rtattr_type mem root_rta) _ (rtattr_type-fuel mem root_rta) λ t _.
      bind-fuel (require (t == h.ifla_linkinfo) assert_failed) _
        (require-fuel (t == h.ifla_linkinfo))
        λ _ _.
          bind-fuel (rtattr_type mem (rtattr_payload_ptr root_rta)) _
            (rtattr_type-fuel mem (rtattr_payload_ptr root_rta))
            λ k _.
              bind-fuel (require (k == h.ifla_info_kind) assert_failed) _
                (require-fuel (k == h.ifla_info_kind))
                λ _ _.
                  bind-fuel (rtattr_read_str mem (rtattr_payload_ptr root_rta) 100) _
                    (rtattr_read_str-fuel mem (rtattr_payload_ptr root_rta) 100)
                    λ r _. kind_part r.0 (text_eq r.0 (codes "vlan"))
  where
    kind_part :
        (strbuf : Text) (same : Bool)
        → (if same
            then vlan_kind h mem root_rta (rtattr_payload_ptr root_rta) strbuf len
            else unknown_kind mem root_rta strbuf len)
          ≢ stop no_fuel
    kind_part strbuf true = vlan_kind-fuel h mem root_rta (rtattr_payload_ptr root_rta) strbuf len m
    kind_part strbuf false = unknown_kind-fuel mem root_rta strbuf len
