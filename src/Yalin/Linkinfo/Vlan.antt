-- ===== src/Yalin/Linkinfo/Vlan.antt =====
-- What `rta_to_str_IFLA_LINKINFO` says of a vlan link is what the kernel encoded.
use mathlib.Core.List.{foldl}
use hspp.Prelude.{
  ℕ, zero, suc, ◌+◌, ◌^◌, ◌<◌, ◌≤◌, ◌≡◌, List, [], ◌∷◌, ◌++◌, length, length-append, Text, arith,
  ap, append_assoc, append-nil, sym, ◌∙◌,
}
use hspp.Outcome.{ok}
use hspp.Yalin.Linkinfo.{LinkHeader, VlanInfo, vlan_loop}
use hspp.Yalin.Linkinfo.Encode.{
  Setting, set_id, set_flags, set_proto, attr, Fits, AllFit, apply, IsLinkHeader, encode,
  encode_all, vlan_attr-encode, rtattr_type-encode, rtattr_next-last, rtattr_next-more, switch-attr,
}

encode_all-long :
    (h : LinkHeader) (s : Setting) (ss : List Setting) → 4 < length (encode_all h (s ∷ ss))
encode_all-long h (set_id v) ss = omega arith
encode_all-long h (set_flags v) ss = omega arith
encode_all-long h (set_proto v) ss = omega arith

-- One round of the loop at an attribute, with none behind it and with some behind it.
module _ (h : LinkHeader) (good : IsLinkHeader h) (fuel : ℕ) (pre rest : List ℕ) (s : Setting)
    (info : VlanInfo) (out : Text) (fits : Fits s) where
  round_last :
      vlan_loop
        (suc fuel)
        h
        (pre ++ (encode h s ++ rest))
        (length pre)
        (length (encode h s))
        (info, out)
      ≡ ok (apply info s, out)
  unfolding vlan_loop
  round_last = rw (
    rtattr_type-encode h good pre rest s,
    switch-attr h s good,
    vlan_attr-encode h good pre rest s (h.vlan (attr s)) info out fits,
    rtattr_next-last h good pre rest s,
  )

  round_more :
      (n : ℕ)
      → 4 < n
      → n < 2 ^ 16
      → vlan_loop
          (suc fuel)
          h
          (pre ++ (encode h s ++ rest))
          (length pre)
          (length (encode h s) + n)
          (info, out)
        ≡ vlan_loop fuel h
            (pre ++ (encode h s ++ rest))
            (length pre + length (encode h s))
            n
            (apply info s, out)
  unfolding vlan_loop
  round_more n more small =
      rw
        (
          rtattr_type-encode h good pre rest s,
          switch-attr h s good,
          vlan_attr-encode h good pre rest s (h.vlan (attr s)) info out fits,
          rtattr_next-more h good pre rest s n more small,
        )
        (ground arith)

-- The loop applies the attributes in their order.
pub vlan_loop-encode :
    (h : LinkHeader)
    → IsLinkHeader h
    → (fuel : ℕ) (pre rest : List ℕ) (s : Setting) (ss : List Setting) (info : VlanInfo)
      (out : Text)
    → AllFit (s ∷ ss)
    → length (s ∷ ss) ≤ fuel
    → length (encode_all h (s ∷ ss)) < 2 ^ 16
    → vlan_loop fuel h
        (pre ++ (encode_all h (s ∷ ss) ++ rest))
        (length pre)
        (length (encode_all h (s ∷ ss)))
        (info, out)
      ≡ ok (foldl apply info (s ∷ ss), out)
vlan_loop-encode h good zero pre rest s ss info out fits f small = absurd (omega arith)
vlan_loop-encode h good (suc fuel) pre rest s [] info out fits f small =
    ap (λ e. vlan_loop (suc fuel) h (pre ++ (e ++ rest)) (length pre) (length e) (info, out))
      (append-nil (encode h s))
    ∙ round_last h good fuel pre rest s info out fits.0
vlan_loop-encode h good (suc fuel) pre rest s (t ∷ ss) info out fits f small =
    ap (λ m. vlan_loop (suc fuel) h (pre ++ m) (length pre) (length (e ++ es)) (info, out))
      (append_assoc e es rest)
    ∙ ap (λ n. vlan_loop (suc fuel) h (pre ++ (e ++ (es ++ rest))) (length pre) n (info, out))
        (length-append e es)
    ∙ round_more h good fuel pre (es ++ rest) s info out fits.0 (length es) (encode_all-long h t ss)
        (omega (arith, length-append e es))
    ∙ ap (λ m. vlan_loop fuel h m (length pre + length e) (length es) (apply info s, out))
        (sym (append_assoc pre e (es ++ rest)))
    ∙ ap (λ a. vlan_loop fuel h ((pre ++ e) ++ (es ++ rest)) a (length es) (apply info s, out))
        (sym (length-append pre e))
    ∙ vlan_loop-encode h good fuel (pre ++ e) rest t ss (apply info s) out fits.1 (omega arith)
        (omega (arith, length-append e es))
  where
    e : List ℕ
    e = encode h s

    es : List ℕ
    es = encode_all h (t ∷ ss)
