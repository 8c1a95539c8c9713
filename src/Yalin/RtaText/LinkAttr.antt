-- ===== src/Yalin/RtaText/LinkAttr.antt =====
-- The attributes of a message with their values, as the kernel lays them out, and the text of each:
-- the specification side of `rta_to_str`. Not among them are IFLA_STATS, IFLA_STATS64, IFLA_MAP and
-- IFLA_LINKINFO; each other type is, with or without a case or a label.
use hspp.Prelude.{
  Bool, refl, sym, ap, ◌∙◌, append_assoc, ℕ, ◌+◌, ◌-◌, ◌*◌, ◌/◌, ◌^◌, ◌<◌, ◌≡◌, true, false, ltb,
  ◌==◌, if◌then◌else◌, List, [], ◌∷◌, ◌++◌, length, length-append, length-replicate, map, replicate,
  Text, codes, arith,
}
use hspp.Outcome.{Outcome, ok, stop, bad_access}
use hspp.Memory.Laws.{bytes32, NoNul}
use hspp.Printf.{dec, snprintf}
use hspp.Switch.{distinct, mem_ℕ}
use hspp.Yalin.Hexdump.{hexdump}
use hspp.Yalin.Rtattr.Encode.{attr_bytes}
use hspp.Yalin.Types.RtaType.{
  Ifla, ifla_labels, ifla_name, ifla_ifname, ifla_address, ifla_broadcast, ifla_promiscuity,
  ifla_proto_down, ifla_operstate, ifla_linkmode, ifla_carrier, ifla_num_tx_queues,
  ifla_num_rx_queues, ifla_mtu, ifla_link, ifla_group, ifla_qdisc, ifla_carrier_changes,
  ifla_txqlen, ifla_stats64, ifla_stats, ifla_map, ifla_linkinfo, ifla_af_spec,
}
use hspp.Yalin.RtaText.{RtaHeader}
use hspp.Yalin.RtaText.Octets.{AllBytes, octets_text}

-- The attributes that hold one byte, and those that hold a 32-bit word.
pub data ByteAttr : Type 0 where
  proto_down operstate linkmode carrier : ByteAttr

pub data WordAttr : Type 0 where
  num_tx_queues num_rx_queues mtu link group qdisc carrier_changes txqlen : WordAttr

-- Behind a name, a byte or a word, more bytes may follow, as they do where the attribute of an
-- address has the type of a shorter one of a link. `uncased` is of a label of types.h for which
-- `rta_to_str` has no case, `unlabelled` of any other type.
pub data LinkAttr : Type 0 where
  ifname : Text → List ℕ → LinkAttr
  address broadcast af_spec : List ℕ → LinkAttr
  byte : ByteAttr → ℕ → List ℕ → LinkAttr
  word : WordAttr → ℕ → List ℕ → LinkAttr
  promiscuity : ℕ → List ℕ → LinkAttr
  uncased : Ifla → List ℕ → LinkAttr
  unlabelled : ℕ → List ℕ → LinkAttr

-- The labels for which `rta_to_str` has a case.
abbrev pub has_case : Ifla → Bool
has_case ifla_ifname = true
has_case ifla_address = true
has_case ifla_broadcast = true
has_case ifla_stats64 = true
has_case ifla_stats = true
has_case ifla_map = true
has_case ifla_promiscuity = true
has_case ifla_proto_down = true
has_case ifla_operstate = true
has_case ifla_linkmode = true
has_case ifla_carrier = true
has_case ifla_num_tx_queues = true
has_case ifla_num_rx_queues = true
has_case ifla_mtu = true
has_case ifla_link = true
has_case ifla_group = true
has_case ifla_qdisc = true
has_case ifla_carrier_changes = true
has_case ifla_txqlen = true
has_case ifla_linkinfo = true
has_case ifla_af_spec = true
has_case _ = false

abbrev pub byte_label : ByteAttr → Ifla
byte_label proto_down = ifla_proto_down
byte_label operstate = ifla_operstate
byte_label linkmode = ifla_linkmode
byte_label carrier = ifla_carrier

abbrev pub word_label : WordAttr → Ifla
word_label num_tx_queues = ifla_num_tx_queues
word_label num_rx_queues = ifla_num_rx_queues
word_label mtu = ifla_mtu
word_label link = ifla_link
word_label group = ifla_group
word_label qdisc = ifla_qdisc
word_label carrier_changes = ifla_carrier_changes
word_label txqlen = ifla_txqlen

abbrev pub payload : LinkAttr → List ℕ
payload (ifname name tail) = name ++ 0 ∷ tail
payload (address bs) = bs
payload (broadcast bs) = bs
payload (af_spec bs) = bs
payload (byte k v tail) = v ∷ tail
payload (word k v tail) = bytes32 v ++ tail
payload (promiscuity v tail) = bytes32 v ++ tail
payload (uncased k bs) = bs
payload (unlabelled type bs) = bs

abbrev pub attr_len : LinkAttr → ℕ
attr_len a = length (payload a) + 4

-- Zeros up to a multiple of 4.
abbrev pub padding : ℕ → List ℕ
padding n = replicate ((n + 3) / 4 * 4 - n) 0

module _ (h : RtaHeader) where
  abbrev pub attr_type : LinkAttr → ℕ
  attr_type (ifname name tail) = h.ifla ifla_ifname
  attr_type (address bs) = h.ifla ifla_address
  attr_type (broadcast bs) = h.ifla ifla_broadcast
  attr_type (af_spec bs) = h.ifla ifla_af_spec
  attr_type (byte k v tail) = h.ifla (byte_label k)
  attr_type (word k v tail) = h.ifla (word_label k)
  attr_type (promiscuity v tail) = h.ifla ifla_promiscuity
  attr_type (uncased k bs) = h.ifla k
  attr_type (unlabelled type bs) = type

  abbrev pub encode_attr : LinkAttr → List ℕ
  encode_attr a = attr_bytes (attr_len a) (attr_type a) (payload a ++ padding (attr_len a))

  abbrev pub encode_attrs : List LinkAttr → List ℕ
  encode_attrs [] = []
  encode_attrs (a ∷ more) = encode_attr a ++ encode_attrs more

  -- Names and payloads as the kernel can send them.
  abbrev pub IsValue : LinkAttr → Type 0
  IsValue (ifname name tail) = NoNul name
  IsValue (address bs) = AllBytes bs
  IsValue (broadcast bs) = AllBytes bs
  IsValue (af_spec bs) = Unit
  IsValue (byte k v tail) = v < 2 ^ 8
  IsValue (word k v tail) = v < 2 ^ 32
  IsValue (promiscuity v tail) = v < 2 ^ 32
  IsValue (uncased k bs) = (has_case k ≡ false) × AllBytes bs
  IsValue (unlabelled type bs) =
      (type < 2 ^ 16) × (mem_ℕ type (map h.ifla ifla_labels) ≡ false) × AllBytes bs

  abbrev pub IsAttr : LinkAttr → Type 0
  IsAttr a = (attr_len a < 2 ^ 16) × IsValue a

  abbrev pub AllAttrs : List LinkAttr → Type 0
  AllAttrs [] = Unit
  AllAttrs (a ∷ more) = IsAttr a × AllAttrs more

-- The text for an array of `size` bytes, and what goes to stdout besides. The inner array for the
-- bytes of an address holds 1000 bytes, that for the bytes of an attribute with no case 10000.
abbrev pub shown : ℕ → Ifla → Text → Outcome (Text × Text)
shown size k text = ok (snprintf size (ifla_name k ++ codes " <" ++ text ++ codes ">"), [])

module _ (h : RtaHeader) (size : ℕ) where
  abbrev pub address_shown : Ifla → List ℕ → Outcome (Text × Text)
  address_shown k bs =
      if ltb (length bs * 3) 1000
      then shown size k (octets_text (codes ":") bs)
      else stop bad_access

  abbrev pub unsupported_shown : ℕ → Text → List ℕ → Outcome (Text × Text)
  unsupported_shown type name bs =
      if ltb (length bs * 2) 10000
      then ok (
        snprintf size (name ++ codes " unsupport-data=<" ++ octets_text [] bs ++ codes ">"),
        hexdump (attr_bytes (length bs + 4) type bs),
      )
      else stop bad_access

  abbrev pub attr_text : LinkAttr → Outcome (Text × Text)
  attr_text (ifname name tail) = shown size ifla_ifname name
  attr_text (address bs) = address_shown ifla_address bs
  attr_text (broadcast bs) = address_shown ifla_broadcast bs
  attr_text (af_spec bs) = ok (snprintf size (codes "IFLA_AF_SPEC <unsupported yet>"), [])
  attr_text (byte k v tail) = shown size (byte_label k) (dec v)
  attr_text (word k v tail) = shown size (word_label k) (dec v)
  attr_text (promiscuity v tail) =
      shown size ifla_promiscuity (if v == 0 then codes "promisc=off" else codes "promisc=on")
  attr_text (uncased k bs) = unsupported_shown (h.ifla k) (ifla_name k) bs
  attr_text (unlabelled type bs) = unsupported_shown type (codes "unknown") bs

-- The attribute values of the header are 16-bit numbers and distinct.
pub record IsRtaHeader (h : RtaHeader) : Type 0 where
  pub small : (k : Ifla) → h.ifla k < 2 ^ 16
  pub apart : distinct (map h.ifla ifla_labels) ≡ true

pub length-encode_attr :
    (h : RtaHeader) (a : LinkAttr) → length (encode_attr h a) ≡ (attr_len a + 3) / 4 * 4
length-encode_attr h a = omega (
  arith,
  length-append (payload a) (padding (attr_len a)),
  length-replicate {A = ℕ} ((attr_len a + 3) / 4 * 4 - attr_len a) 0,
)

pub encode_attrs-append :
    (h : RtaHeader) (first second : List LinkAttr)
    → encode_attrs h (first ++ second) ≡ encode_attrs h first ++ encode_attrs h second
encode_attrs-append h [] second = refl
encode_attrs-append h (a ∷ more) second =
    ap (λ bs. encode_attr h a ++ bs) (encode_attrs-append h more second)
    ∙ sym (append_assoc (encode_attr h a) (encode_attrs h more) (encode_attrs h second))

pub append-AllAttrs :
    (h : RtaHeader) (first second : List LinkAttr)
    → AllAttrs h first
    → AllAttrs h second
    → AllAttrs h (first ++ second)
append-AllAttrs h [] second good1 good2 = good2
append-AllAttrs h (a ∷ more) second good1 good2 =
    (good1.0, append-AllAttrs h more second good1.1 good2)
