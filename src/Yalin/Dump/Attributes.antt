-- ===== src/Yalin/Dump/Attributes.antt =====
-- The lines that a dump prints for the attributes of a message, from the values of the attributes.
use native.Mathlib.Nat.{add-zero}
use hspp.Prelude.{
  ℕ, zero, suc, ◌+◌, ◌-◌, ◌*◌, ◌/◌, ◌<◌, ◌≤◌, ◌≡◌, sym, ap, ◌∙◌, arith, true, false, leb, ◌&&◌,
  List, [], ◌∷◌, ◌++◌, append_assoc, Text, codes, length, length-append,
}
use hspp.Outcome.{Outcome, ok, ◌>>=◌}
use hspp.Memory.{Memory, load16, load32}
use hspp.Memory.Laws.{bytes16, load16-append, load16-bytes16}
use hspp.Printf.{dec}
use hspp.Yalin.RtaText.{RtaHeader}
use hspp.Yalin.RtaText.LinkAttr.{
  LinkAttr, attr_len, attr_type, payload, padding, encode_attr, encode_attrs, IsAttr, AllAttrs,
  attr_text, IsRtaHeader, length-encode_attr,
}
use hspp.Yalin.RtaText.ReadAttr.{rta_to_str-encode_attr}
use hspp.Yalin.Dump.{DumpHeader, nlmsg_len, attr_lines, attrs}

abbrev pub aligned : ℕ → ℕ
aligned n = (n + 3) / 4 * 4

-- What the kernel's header says of RTA_OK and RTA_NEXT: fewer than 4 bytes are no attribute, and
-- are not read; an attribute must fit in what is left, and the next one is behind its padding.
pub record HasRtaMacros (h : DumpHeader) : Type 0 where
  pub short : (mem : Memory) (rta n : ℕ) → n < 4 → h.rta_ok mem rta n ≡ ok false
  pub holds :
      (mem : Memory) (rta n len : ℕ)
      → load16 mem rta ≡ ok len
      → 4 ≤ n
      → h.rta_ok mem rta n ≡ ok (leb 4 len && leb len n)
  pub moves :
      (mem : Memory) (rta n len : ℕ)
      → load16 mem rta ≡ ok len
      → aligned len ≤ n
      → h.rta_next mem rta n ≡ ok (rta + aligned len, n - aligned len)

-- One line for each attribute, with its number; the first that does not fit ends the dump.
abbrev pub lines : RtaHeader → ℕ → ℕ → List LinkAttr → Outcome Text
lines h size i [] = ok []
lines h size i (a ∷ more) = do
  (str, out) ← attr_text h size a
  later ← lines h size (i + 1) more
  ok (out ++ codes "attr[" ++ dec i ++ codes "]: " ++ str ++ codes "\n" ++ later)

abbrev step_to : ℕ → ℕ → Outcome (ℕ × ℕ)
step_to rta left = ok (rta, left)

length-encode_attrs_mono :
    (h : RtaHeader) (attributes : List LinkAttr)
    → length attributes ≤ length (encode_attrs h attributes)
length-encode_attrs_mono h [] = omega arith
length-encode_attrs_mono h (a ∷ more) = omega (
  arith,
  length-append (encode_attr h a) (encode_attrs h more),
  length-encode_attr h a,
  length-encode_attrs_mono h more,
)

module _ (h : DumpHeader) (macros : HasRtaMacros h) (good : IsRtaHeader h.attributes)
    (size : ℕ) where
  encoded : LinkAttr → List ℕ
  encoded = encode_attr h.attributes

  load_len :
      (pre rest : List ℕ) (a : LinkAttr)
      → IsAttr h.attributes a
      → load16 (pre ++ (encode_attr h.attributes a ++ rest)) (length pre) ≡ ok (attr_len a)
  load_len pre rest a fits =
      ap (load16 (pre ++ (encode_attr h.attributes a ++ rest))) (sym (add-zero (length pre)))
      ∙ load16-append pre (encode_attr h.attributes a ++ rest) 0
      ∙ load16-bytes16 (attr_len a)
          (bytes16 (attr_type h.attributes a) ++ (payload a ++ padding (attr_len a)) ++ rest) fits.0

  enters :
      (pre rest : List ℕ) (a : LinkAttr) (n : ℕ)
      → IsAttr h.attributes a
      → h.rta_ok
          (pre ++ (encode_attr h.attributes a ++ rest))
          (length pre)
          (length (encode_attr h.attributes a) + n)
        ≡ ok true
  enters pre rest a n fits =
      macros.holds (pre ++ (encode_attr h.attributes a ++ rest)) (length pre)
        (length (encode_attr h.attributes a) + n) (attr_len a) (load_len pre rest a fits)
        (omega arith)
      ∙ ap ok (
          both (attr_len a) (length (encode_attr h.attributes a) + n) (omega arith)
            (omega (arith, length-encode_attr h.attributes a)))
    where
      both : (len left : ℕ) → 4 ≤ len → len ≤ left → (leb 4 len && leb len left) ≡ true
      both len left long fits = ground arith

  next_one :
      (pre rest : List ℕ) (a : LinkAttr) (n : ℕ)
      → IsAttr h.attributes a
      → h.rta_next
          (pre ++ (encode_attr h.attributes a ++ rest))
          (length pre)
          (length (encode_attr h.attributes a) + n)
        ≡ ok (length pre + length (encode_attr h.attributes a), n)
  next_one pre rest a n fits =
      macros.moves (pre ++ (encode_attr h.attributes a ++ rest)) (length pre)
        (length (encode_attr h.attributes a) + n) (attr_len a) (load_len pre rest a fits)
        (omega (arith, length-encode_attr h.attributes a))
      ∙ place (length (encode_attr h.attributes a)) (attr_len a) (length-encode_attr h.attributes a)
    where
      place :
          (e len : ℕ)
          → e ≡ aligned len
          → step_to (length pre + aligned len) (e + n - aligned len) ≡ step_to (length pre + e) n
      place e len same =
          ap (λ at. step_to at (e + n - aligned len)) {x = length pre + aligned len}
            {y = length pre + e} (omega (arith, same))
          ∙ ap (step_to (length pre + e)) {x = e + n - aligned len} {y = n} (omega (arith, same))

  -- How a round goes on behind the text of an attribute.
  abbrev with_line : ℕ → Outcome (Text × Text) → Outcome Text → Outcome Text
  with_line i text rest = do
    (str, out) ← text
    later ← rest
    ok (out ++ codes "attr[" ++ dec i ++ codes "]: " ++ str ++ codes "\n" ++ later)

  round :
      (fuel i n : ℕ) (pre rest : List ℕ) (a : LinkAttr)
      → IsAttr h.attributes a
      → attr_lines h
          (pre ++ (encode_attr h.attributes a ++ rest))
          (suc fuel)
          size
          i
          (length pre)
          (length (encode_attr h.attributes a) + n)
        ≡ with_line i (attr_text h.attributes size a) (
            attr_lines h
              (pre ++ (encode_attr h.attributes a ++ rest))
              fuel
              size
              (i + 1)
              (length pre + length (encode_attr h.attributes a))
              n)
  unfolding attr_lines
  round fuel i n pre rest a fits = rw (
    enters pre rest a n fits,
    rta_to_str-encode_attr h.attributes good pre size a rest fits,
    next_one pre rest a n fits,
  )

  walk-lines :
      (fuel i n : ℕ) (pre rest : List ℕ) (attributes : List LinkAttr)
      → AllAttrs h.attributes attributes
      → n < 4
      → length attributes < fuel
      → attr_lines h
          (pre ++ (encode_attrs h.attributes attributes ++ rest))
          fuel
          size
          i
          (length pre)
          (length (encode_attrs h.attributes attributes) + n)
        ≡ lines h.attributes size i attributes
  unfolding attr_lines
  walk-lines zero i n pre rest attributes fit few enough = absurd (omega arith)
  walk-lines (suc fuel) i n pre rest [] fit few enough =
      rw (macros.short (pre ++ rest) (length pre) (0 + n) (omega arith))
  walk-lines (suc fuel) i n pre rest (a ∷ more) fit few enough =
      ap (λ k. loop (suc fuel) i (pre ++ ((e ++ es) ++ rest)) (length pre) k) left
      ∙ ap (λ b. loop (suc fuel) i (pre ++ b) (length pre) (length e + (length es + n)))
          (append_assoc e es rest)
      ∙ round fuel i (length es + n) pre (es ++ rest) a fit.0
      ∙ ap (with_line i (attr_text h.attributes size a)) (
          ap (λ b. loop fuel (i + 1) b (length pre + length e) (length es + n))
            (sym (append_assoc pre e (es ++ rest)))
          ∙ ap (λ at. loop fuel (i + 1) ((pre ++ e) ++ (es ++ rest)) at (length es + n))
              (sym (length-append pre e))
          ∙ walk-lines fuel (i + 1) n (pre ++ e) rest more fit.1 few (omega arith))
    where
      e : List ℕ
      e = encode_attr h.attributes a

      es : List ℕ
      es = encode_attrs h.attributes more

      loop : ℕ → ℕ → Memory → ℕ → ℕ → Outcome Text
      loop f k mem rta len = attr_lines h mem f size k rta len

      left : length (e ++ es) + n ≡ length e + (length es + n)
      left = omega (arith, length-append e es)

  -- Under what RTA_OK and RTA_NEXT promise, with distinct attribute types: where attributes of
  -- any types but IFLA_STATS, IFLA_STATS64, IFLA_MAP and IFLA_LINKINFO stand from `rta` on, and the
  -- length that the walk computes from the message ends less than 4 bytes behind the last,
  -- the walk prints one line for each, with its number and the text of its value, or it stops as the
  -- first text does that does not fit.
  pub attrs-lines :
      (pre rest : List ℕ) (attributes : List LinkAttr) (hdr len n : ℕ)
      → AllAttrs h.attributes attributes
      → load32 (pre ++ (encode_attrs h.attributes attributes ++ rest)) (hdr + h.at nlmsg_len)
        ≡ ok len
      → h.ifa_payload len ≡ length (encode_attrs h.attributes attributes) + n
      → n < 4
      → attrs h (pre ++ (encode_attrs h.attributes attributes ++ rest)) size hdr (length pre)
        ≡ lines h.attributes size 0 attributes
  unfolding attrs
  attrs-lines pre rest attributes hdr len n fit loaded left few =
      rw (loaded, left)
        (walk-lines (suc (length (pre ++ (encode_attrs h.attributes attributes ++ rest)))) 0 n pre
          rest attributes fit few
          (omega (
            arith,
            length-append pre (encode_attrs h.attributes attributes ++ rest),
            length-append (encode_attrs h.attributes attributes) rest,
            length-encode_attrs_mono h.attributes attributes,
          )))
