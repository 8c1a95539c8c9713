-- ===== src/Yalin/RtaText/ReadAttr.antt =====
-- `rta_to_str` on an encoded attribute gives the text of its value, wherever the attribute stands.
use native.Mathlib.Nat.{add-zero}
use hspp.Prelude.{
  ℕ, ◌+◌, ◌*◌, ◌^◌, ◌<◌, ◌≡◌, refl, sym, ap, ◌∙◌, arith, ltb, ◌==◌, if◌then◌else◌, List, [], ◌∷◌,
  ◌++◌, append_assoc, Text, codes, length, length-append, some, Bool-cases, inl, inr,
}
use hspp.Outcome.{Outcome, ok, ◌>>=◌}
use hspp.Memory.{Memory, load8, load_str, until_nul}
use hspp.Memory.Laws.{bytes32, NoNul, load8-append, load32-bytes32, until_nul-append}
use hspp.Printf.{dec, snprintf}
use hspp.Switch.{switch_default}
use hspp.Yalin.Linkinfo.{load_bytes}
use hspp.Yalin.Rtattr.Encode.{
  attr_bytes, at_attr, rtattr_type-bytes, rtattr_len-bytes, rtattr_payload_len-bytes,
  load_str-payload, load8-payload, load32-payload,
}
use hspp.Yalin.Types.RtaType.{
  Ifla, ifla_labels, ifla_name, ifla_address, ifla_broadcast, ifla_promiscuity, ifla_ifname,
  ifla_af_spec, rta_type_to_str, rta_type_to_str_default, switch_ifla, rta_type_to_str_label,
}
use hspp.Yalin.RtaText.{
  RtaHeader, rta_case, rta_to_str, num8_text, num32_text, unsupported_text, in_brackets,
}
use hspp.Yalin.RtaText.Address.{octets-payload, length-octets_text, address_text-bytes}
use hspp.Yalin.RtaText.Octets.{AllBytes}
use hspp.Yalin.RtaText.Cases.{byte_case, word_case, af_spec_case, uncased_case}
use hspp.Yalin.RtaText.LinkAttr.{
  LinkAttr, ifname, address, broadcast, byte, word, promiscuity, af_spec, uncased, unlabelled,
  unsupported_shown, byte_label, word_label, payload, attr_len, padding, attr_type, encode_attr,
  IsAttr, shown, attr_text, IsRtaHeader,
}

first_byte : (pre : List ℕ) (b : ℕ) (rest : List ℕ) → load8 (pre ++ (b ∷ rest)) (length pre) ≡ ok b
unfolding load8
first_byte pre b rest =
    ap (load8 (pre ++ (b ∷ rest))) (sym (add-zero (length pre))) ∙ load8-append pre (b ∷ rest) 0

load_bytes-append :
    (pre bs rest : List ℕ) → load_bytes (pre ++ (bs ++ rest)) (length pre) (length bs) ≡ ok bs
unfolding load_bytes
load_bytes-append pre [] rest = refl
load_bytes-append pre (b ∷ bs) rest =
    rw (first_byte pre b (bs ++ rest), load_bytes)
      (ap (λ (o : Outcome (List ℕ)). o >>= λ later. ok (b ∷ later))
        (ap (λ m. load_bytes m (length pre + 1) (length bs))
            (sym (append_assoc pre (b ∷ []) (bs ++ rest)))
          ∙ ap (λ a. load_bytes ((pre ++ b ∷ []) ++ (bs ++ rest)) a (length bs))
              (sym (length-append pre (b ∷ [])))
          ∙ load_bytes-append (pre ++ b ∷ []) bs rest))

module _ (h : RtaHeader) (good : IsRtaHeader h) (pre : List ℕ) (size : ℕ) where
  -- The brackets around the name of a label.
  in_brackets-label :
      (mem : Memory) (k : Ifla) (text : Text)
      → in_brackets h mem (length pre) size (h.ifla k) text ≡ shown size k text
  in_brackets-label mem k text =
      ap (λ (t : Text). ok (snprintf size (t ++ codes " <" ++ text ++ codes ">"), []))
        (rta_type_to_str_label h.ifla k good.apart)

  num8_text-bytes :
      (k : Ifla) (n v : ℕ) (body : List ℕ)
      → num8_text h (at_attr pre n (h.ifla k) (v ∷ body)) (length pre) size (h.ifla k)
        ≡ shown size k (dec v)
  unfolding num8_text load8
  num8_text-bytes k n v body =
      rw (load8-payload pre n (h.ifla k) (v ∷ body))
        (in_brackets-label (at_attr pre n (h.ifla k) (v ∷ body)) k (dec v))

  num32_text-bytes :
      (k : Ifla) (n v : ℕ) (body : List ℕ)
      → v < 2 ^ 32
      → num32_text h (at_attr pre n (h.ifla k) (bytes32 v ++ body)) (length pre) size (h.ifla k)
        ≡ shown size k (dec v)
  unfolding num32_text
  num32_text-bytes k n v body fits =
      rw (load32-payload pre n (h.ifla k) (bytes32 v ++ body), load32-bytes32 v body fits)
        (in_brackets-label (at_attr pre n (h.ifla k) (bytes32 v ++ body)) k (dec v))

  -- The case that the switch selects.
  rta_to_str-case :
      (k : Ifla) (n : ℕ) (body : List ℕ) {text : Outcome (Text × Text)}
      → rta_case h (at_attr pre n (h.ifla k) body) (length pre) size (h.ifla k) (some k) ≡ text
      → rta_to_str h (at_attr pre n (h.ifla k) body) (length pre) size ≡ text
  unfolding rta_to_str
  rta_to_str-case k n body e =
      rw (rtattr_type-bytes pre n (h.ifla k) body (good.small k), switch_ifla h.ifla k good.apart) e

  unsupported_text-bytes :
      (type : ℕ) (name : Text) (bs rest : List ℕ)
      → length bs + 4 < 2 ^ 16
      → rta_type_to_str h.ifla type ≡ name
      → AllBytes bs
      → unsupported_text h (at_attr pre (length bs + 4) type (bs ++ rest)) (length pre) size type
        ≡ unsupported_shown h size type name bs
  unfolding unsupported_text
  unsupported_text-bytes type name bs rest small named value =
      rw
        (
          rtattr_payload_len-bytes pre (length bs + 4) type (bs ++ rest) small (omega arith)
              (length bs) refl,
          octets-payload 10000 6 [] pre (length bs + 4) type bs rest (omega arith) value
              (omega arith),
          length-octets_text [] bs,
          rtattr_len-bytes pre (length bs + 4) type (bs ++ rest) small,
          named,
        )
        (elim (Bool-cases (ltb (length bs * 2) 10000)) [
          | inr e ↦ rw e refl
          | inl e ↦ rw (e, whole) refl
        ])
    where
      whole :
          load_bytes (at_attr pre (length bs + 4) type (bs ++ rest)) (length pre) (length bs + 4)
          ≡ ok (attr_bytes (length bs + 4) type bs)
      whole =
          ap (load_bytes (at_attr pre (length bs + 4) type (bs ++ rest)) (length pre))
            {x = length bs + 4} {y = length (attr_bytes (length bs + 4) type bs)} (omega arith)
          ∙ load_bytes-append pre (attr_bytes (length bs + 4) type bs) rest

  -- With the padding and what follows.
  abbrev at_value : LinkAttr → List ℕ → Memory
  at_value a rest = at_attr pre (attr_len a) (attr_type h a) (payload a ++ rest)

  name_read :
      (name : Text) (tail rest : List ℕ)
      → NoNul name
      → load_str (at_value (ifname name tail) rest) (length pre + 4) ≡ ok name
  name_read name tail rest clean =
      load_str-payload pre (attr_len (ifname name tail)) (h.ifla ifla_ifname)
        ((name ++ 0 ∷ tail) ++ rest)
      ∙ ap until_nul (append_assoc name (0 ∷ tail) rest)
      ∙ until_nul-append name (tail ++ rest) clean

  rta_to_str-value :
      (a : LinkAttr) (rest : List ℕ)
      → IsAttr h a
      → rta_to_str h (at_value a rest) (length pre) size ≡ attr_text h size a
  unfolding rta_case rta_to_str
  rta_to_str-value (ifname name tail) rest fits =
      rta_to_str-case ifla_ifname (attr_len (ifname name tail)) ((name ++ 0 ∷ tail) ++ rest) (
        rw (name_read name tail rest fits.1)
          (in_brackets-label (at_value (ifname name tail) rest) ifla_ifname name))
  rta_to_str-value (address bs) rest fits =
      rta_to_str-case ifla_address (length bs + 4) (bs ++ rest)
        (address_text-bytes h good.apart pre bs rest size fits.1 fits.0 ifla_address)
  rta_to_str-value (broadcast bs) rest fits =
      rta_to_str-case ifla_broadcast (length bs + 4) (bs ++ rest)
        (address_text-bytes h good.apart pre bs rest size fits.1 fits.0 ifla_broadcast)
  rta_to_str-value (af_spec bs) rest fits =
      rta_to_str-case ifla_af_spec (length bs + 4) (bs ++ rest)
        (af_spec_case h pre size (at_value (af_spec bs) rest) (h.ifla ifla_af_spec))
  rta_to_str-value (byte k v tail) rest fits =
      rta_to_str-case (byte_label k) (attr_len (byte k v tail)) (v ∷ (tail ++ rest)) (
        byte_case h pre size k (at_value (byte k v tail) rest) (h.ifla (byte_label k))
        ∙ num8_text-bytes (byte_label k) (attr_len (byte k v tail)) v (tail ++ rest))
  rta_to_str-value (word k v tail) rest fits =
      rta_to_str-case (word_label k) (attr_len (word k v tail)) (bytes32 v ++ (tail ++ rest)) (
        word_case h pre size k (at_value (word k v tail) rest) (h.ifla (word_label k))
        ∙ num32_text-bytes (word_label k) (attr_len (word k v tail)) v (tail ++ rest) fits.1)
  rta_to_str-value (promiscuity v tail) rest fits =
      rta_to_str-case ifla_promiscuity (attr_len (promiscuity v tail)) (bytes32 v ++ (tail ++ rest))
        (rw
          (
            load32-payload pre (attr_len (promiscuity v tail)) (h.ifla ifla_promiscuity)
                (bytes32 v ++ (tail ++ rest)),
            load32-bytes32 v (tail ++ rest) fits.1,
          )
          (in_brackets-label (at_value (promiscuity v tail) rest) ifla_promiscuity
            (if v == 0 then codes "promisc=off" else codes "promisc=on")))
  rta_to_str-value (uncased k bs) rest fits = rta_to_str-case k (length bs + 4) (bs ++ rest) (
      uncased_case h pre size k (at_value (uncased k bs) rest) (h.ifla k) fits.1.0
      ∙ unsupported_text-bytes (h.ifla k) (ifla_name k) bs rest fits.0
          (rta_type_to_str_label h.ifla k good.apart) fits.1.1)
  rta_to_str-value (unlabelled type bs) rest fits =
      rw
        (
          rtattr_type-bytes pre (length bs + 4) type (bs ++ rest) fits.1.0,
          switch_default h.ifla ifla_labels type fits.1.1,
        )
        (unsupported_text-bytes type (codes "unknown") bs rest fits.0
          (rta_type_to_str_default h.ifla type fits.1.1) fits.1.2)

  -- With distinct 16-bit attribute types, on the encoding of an attribute of any type but
  -- IFLA_STATS, IFLA_STATS64, IFLA_MAP and IFLA_LINKINFO, wherever it stands: the text of
  -- `rta_to_str` is the one of its name, address, byte, word or promiscuity, the fixed text of
  -- IFLA_AF_SPEC, or for a type with no case, labelled in types.h or not, that of its bytes beside
  -- their hexdump; an address or such bytes that are too long for the inner array are written
  -- behind it.
  pub rta_to_str-encode_attr :
      (a : LinkAttr) (rest : List ℕ)
      → IsAttr h a
      → rta_to_str h (pre ++ (encode_attr h a ++ rest)) (length pre) size ≡ attr_text h size a
  rta_to_str-encode_attr a rest fits =
      ap (λ body. rta_to_str h (at_attr pre (attr_len a) (attr_type h a) body) (length pre) size)
        (append_assoc (payload a) (padding (attr_len a)) rest)
      ∙ rta_to_str-value a (padding (attr_len a) ++ rest) fits
