-- ===== src/Yalin/RtaText/Address.antt =====
-- The text of a hardware address and of an attribute of unknown type, from its bytes.
use hspp.Prelude.{
  ℕ, ◌+◌, ◌*◌, ◌^◌, ◌<◌, ◌≡◌, refl, sym, ap₂, ◌∙◌, arith, true, ltb, if◌then◌else◌, List, [], ◌∷◌,
  ◌++◌, append_assoc, Text, codes, length, length-append, map, Bool-cases, inl, inr,
}
use hspp.Outcome.{Outcome, ok, stop, bad_access}
use hspp.Memory.{Memory}
use hspp.Memory.Laws.{bytes16}
use hspp.Printf.{snprintf}
use hspp.Switch.{distinct}
use hspp.Yalin.Flags.Join.{fit}
use hspp.Yalin.Rtattr.Encode.{at_attr, rtattr_type-bytes, rtattr_payload_len-bytes}
use hspp.Yalin.Types.RtaType.{
  Ifla, ifla_labels, ifla_name, ifla_address, ifla_broadcast, switch_ifla, rta_type_to_str_label,
}
use hspp.Yalin.RtaText.{RtaHeader, octets, address_text, rta_case, rta_to_str}
use hspp.Yalin.RtaText.Octets.{AllBytes, octets_text, octets_lem}

abbrev pub header_of : ℕ → ℕ → List ℕ
header_of len type = bytes16 len ++ bytes16 type

pub length-octets_text :
    (sep : Text) (bs : List ℕ) → length (octets_text sep bs) ≡ length bs * (2 + length sep)
length-octets_text sep [] = omega arith
length-octets_text sep (b ∷ bs) =
    grind (arith, length-append sep (octets_text sep bs), length-octets_text sep bs)

-- The loop over the payload of an attribute.
pub octets-payload :
    (size k : ℕ) (sep : Text) (pre : List ℕ) (n type : ℕ) (bs rest : List ℕ)
    → length sep + 2 < k
    → AllBytes bs
    → 0 < size
    → octets size k sep (at_attr pre n type (bs ++ rest)) (length pre + 4) (length bs) []
      ≡ fit size (octets_text sep bs)
octets-payload size k sep pre n type bs rest h good pos =
    ap₂ (λ m a. octets size k sep m a (length bs) [])
      (sym (append_assoc pre (header_of n type) (bs ++ rest)))
      (sym (length-append pre (header_of n type)))
    ∙ octets_lem size k sep (pre ++ header_of n type) bs rest [] h good pos

module _ (h : RtaHeader) (bs : List ℕ) where
  abbrev pub address_attr : List ℕ → List ℕ → Ifla → Memory
  address_attr pre rest k = at_attr pre (length bs + 4) (h.ifla k) (bs ++ rest)

  abbrev pub address_result : ℕ → Ifla → Outcome (Text × Text)
  address_result len k =
      if ltb (length bs * 3) 1000
      then ok
          (snprintf len (ifla_name k ++ codes " <" ++ octets_text (codes ":") bs ++ codes ">"), [])
      else stop bad_access

module _ (h : RtaHeader) (d : distinct (map h.ifla ifla_labels) ≡ true) (pre bs rest : List ℕ)
    (len : ℕ) (good : AllBytes bs) (small : length bs + 4 < 2 ^ 16) where
  pub address_text-bytes :
      (k : Ifla)
      → address_text h (address_attr h bs pre rest k) (length pre) len (h.ifla k)
        ≡ address_result h bs len k
  unfolding address_text
  address_text-bytes k =
      rw
        (
          rtattr_payload_len-bytes pre (length bs + 4) (h.ifla k) (bs ++ rest) small (omega arith)
              (length bs) refl,
          octets-payload 1000 100 (codes ":") pre (length bs + 4) (h.ifla k) bs rest (omega arith)
              good (omega arith),
          length-octets_text (codes ":") bs,
          rta_type_to_str_label h.ifla k d,
        )
        (elim (Bool-cases (ltb (length bs * 3) 1000)) [ inl e ↦ rw e refl | inr e ↦ rw e refl ])

  -- On an IFLA_ADDRESS or IFLA_BROADCAST attribute of less than 334 bytes, the text is the name of
  -- the type and the bytes as two hexadecimal digits each with a colon behind them, cut to the
  -- array; on a longer one the code writes behind its inner array.
  pub rta_to_str_address :
      h.ifla ifla_address < 2 ^ 16
      → h.ifla ifla_broadcast < 2 ^ 16
      → (rta_to_str h (address_attr h bs pre rest ifla_address) (length pre) len
          ≡ address_result h bs len ifla_address)
        × (rta_to_str h (address_attr h bs pre rest ifla_broadcast) (length pre) len
            ≡ address_result h bs len ifla_broadcast)
  unfolding rta_to_str rta_case
  rta_to_str_address a b = (
    rw
        (
          rtattr_type-bytes pre (length bs + 4) (h.ifla ifla_address) (bs ++ rest) a,
          switch_ifla h.ifla ifla_address d,
        )
        (address_text-bytes ifla_address),
    rw
        (
          rtattr_type-bytes pre (length bs + 4) (h.ifla ifla_broadcast) (bs ++ rest) b,
          switch_ifla h.ifla ifla_broadcast d,
        )
        (address_text-bytes ifla_broadcast),
  )
