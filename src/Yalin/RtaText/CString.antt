-- ===== src/Yalin/RtaText/CString.antt =====
-- The text of `rta_to_str` is a C string that fits in its array, whatever the memory holds.
use hspp.Prelude.{
  ℕ, zero, suc, ◌+◌, ◌-◌, ◌<◌, ◌≡◌, refl, Bool, true, false, ltb, ◌==◌, if◌then◌else◌, List, [],
  ◌∷◌, ◌++◌, Text, codes, length, take, Option, some, none,
}
use hspp.Outcome.{Outcome, ok, stop, bad_access}
use hspp.Outcome.Ensures.{Ensures, ensured, halted, any-Ensures, known-Ensures, result}
use hspp.Memory.{Memory, load8, load16, load32, load64, load_str}
use hspp.Memory.Laws.{NoNul}
use hspp.Printf.{dec, hex0, snprintf}
use hspp.Printf.CString.{
  no_nul, Clean, clean, ◌&◌, if-Clean, literal, dec-Clean, hex0-Clean, take-Clean, IsCString,
  snprintf-IsCString,
}
use hspp.Switch.{switch}
use hspp.Yalin.Flags.{strncat}
use hspp.Yalin.Rtattr.{rtattr_payload_ptr, rtattr_payload_len, rtattr_len, rtattr_type}
use hspp.Yalin.Linkinfo.{load_bytes}
use hspp.Memory.CString.{load_str-Clean}
use hspp.Yalin.Linkinfo.CString.{rta_to_str_ifla_linkinfo-Clean, af_spec-Clean}
use hspp.Yalin.Types.RtaType.{
  Ifla, ifla_labels, ifla_name, ifla_unspec, rta_type_to_str, ifla_ifname, ifla_address,
  ifla_broadcast, ifla_stats64, ifla_stats, ifla_map, ifla_promiscuity, ifla_proto_down,
  ifla_operstate, ifla_linkmode, ifla_carrier, ifla_num_tx_queues, ifla_num_rx_queues, ifla_mtu,
  ifla_link, ifla_group, ifla_qdisc, ifla_carrier_changes, ifla_txqlen, ifla_linkinfo, ifla_af_spec,
}
use hspp.Yalin.RtaText.{
  RtaHeader, Stat, rx_packets, stats, stat_name, breaks64, breaks32, counters, octets, in_brackets,
  address_text, map_text, num8_text, num32_text, unsupported_text, rta_case, rta_to_str,
}

strncat-Clean :
    (size n : ℕ) (s src : Text) → Clean s → Clean src → Ensures Clean (strncat size s src n)
unfolding strncat
strncat-Clean size n s src a b = choose (ltb (length (s ++ take n src)) size)
  where
    choose : (fits : Bool) → Ensures Clean (if fits then ok (s ++ take n src) else stop bad_access)
    choose true = ensured (a & take-Clean n b)
    choose false = halted

octets-Clean :
    (size sub_size : ℕ) (sep : Text) (mem : Memory) (ptr n : ℕ) (str : Text)
    → Clean sep
    → Clean str
    → Ensures Clean (octets size sub_size sep mem ptr n str)
unfolding octets snprintf
octets-Clean size sub_size sep mem ptr zero str a b = ensured b
octets-Clean size sub_size sep mem ptr (suc n) str a b = any-Ensures (load8 mem ptr) (λ byte.
    let sub = snprintf sub_size (hex0 2 byte ++ sep) in
    known-Ensures (strncat size str sub (length sub))
      (strncat-Clean size (length sub) str sub b
        (take-Clean (sub_size - 1) (hex0-Clean 2 byte & a)))
      (λ str' c. octets-Clean size sub_size sep mem (ptr + 1) n str' a c))

stat_name-Clean : (s : Stat) → no_nul (stat_name s) ≡ true
stat_name-Clean rx_packets = refl
stat_name-Clean _ = refl

ifla_name-Clean : (k : Ifla) → no_nul (ifla_name k) ≡ true
unfolding ifla_name
ifla_name-Clean ifla_unspec = refl
ifla_name-Clean _ = refl

rta_type_to_str-Clean : (value : Ifla → ℕ) (v : ℕ) → Clean (rta_type_to_str value v)
unfolding rta_type_to_str
rta_type_to_str-Clean value v = named (switch value ifla_labels v)
  where
    named : (o : Option Ifla) → Clean (elim o [ some k ↦ ifla_name k | none ↦ codes "unknown" ])
    named (some k) = literal (ifla_name k) (ifla_name-Clean k)
    named none = literal (codes "unknown") refl

counters-Clean :
    (load : ℕ → Outcome ℕ) (breaks : Stat → Bool) (offset : Stat → ℕ) (ss : List Stat)
    → Ensures Clean (counters load breaks offset ss)
unfolding counters
counters-Clean load breaks offset [] = ensured (clean tt)
counters-Clean load breaks offset (s ∷ ss) = any-Ensures (load (offset s)) (λ v.
    known-Ensures (counters load breaks offset ss) (counters-Clean load breaks offset ss) (λ text a.
      ensured (
        if-Clean (breaks s) (literal (codes " \n\t") refl) (literal (codes " ") refl)
        & literal (stat_name s) (stat_name-Clean s)
        & literal (codes ":") refl
        & dec-Clean v
        & a)))

module _ (h : RtaHeader) (mem : Memory) (rta len : ℕ) (room : 0 < len) where
  abbrev Fits : Text × Text → Type 0
  Fits shown = IsCString len shown.0

  in_brackets-Clean :
      (type : ℕ) (text : Text) → Clean text → Ensures Fits (in_brackets h mem rta len type text)
  in_brackets-Clean type text a = ensured (
      snprintf-IsCString len room (
        rta_type_to_str-Clean h.ifla type
        & literal (codes " <") refl
        & a
        & literal (codes ">") refl))

  num8_text-Clean : (type : ℕ) → Ensures Fits (num8_text h mem rta len type)
  unfolding num8_text
  num8_text-Clean type =
      any-Ensures (load8 mem (rtattr_payload_ptr rta))
        (λ num. in_brackets-Clean type (dec num) (dec-Clean num))

  num32_text-Clean : (type : ℕ) → Ensures Fits (num32_text h mem rta len type)
  unfolding num32_text
  num32_text-Clean type =
      any-Ensures (load32 mem (rtattr_payload_ptr rta))
        (λ num. in_brackets-Clean type (dec num) (dec-Clean num))

  address_text-Clean : (type : ℕ) → Ensures Fits (address_text h mem rta len type)
  unfolding address_text
  address_text-Clean type = any-Ensures (rtattr_payload_len mem rta) (λ n.
      known-Ensures (octets 1000 100 (codes ":") mem (rtattr_payload_ptr rta) n [])
        (octets-Clean 1000 100 (codes ":") mem (rtattr_payload_ptr rta) n []
          (literal (codes ":") refl) (clean tt))
        (λ text a. in_brackets-Clean type text a))

  map_text-Clean : (type : ℕ) → Ensures Fits (map_text h mem rta len type)
  unfolding map_text
  map_text-Clean type =
      let ifmap = rtattr_payload_ptr rta in
      any-Ensures (load64 mem (ifmap + h.mem_start_at)) (λ mem_start.
        any-Ensures (load64 mem (ifmap + h.mem_end_at)) (λ mem_end.
          any-Ensures (load64 mem (ifmap + h.base_addr_at)) (λ base_addr.
            any-Ensures (load16 mem (ifmap + h.irq_at)) (λ irq.
              any-Ensures (load8 mem (ifmap + h.dma_at)) (λ dma.
                any-Ensures (load8 mem (ifmap + h.port_at)) (λ port. ensured (
                  snprintf-IsCString len room (
                    rta_type_to_str-Clean h.ifla type
                    & literal (codes " \n\tmem_start:") refl
                    & dec-Clean mem_start
                    & literal (codes " mem_end:") refl
                    & dec-Clean mem_end
                    & literal (codes " \n\tbase_addr:") refl
                    & dec-Clean base_addr
                    & literal (codes " irq:") refl
                    & dec-Clean irq
                    & literal (codes " dma:") refl
                    & dec-Clean dma
                    & literal (codes " port:") refl
                    & dec-Clean port))))))))

  unsupported_text-Clean : (type : ℕ) → Ensures Fits (unsupported_text h mem rta len type)
  unfolding unsupported_text
  unsupported_text-Clean type = any-Ensures (rtattr_payload_len mem rta) (λ n.
      known-Ensures (octets 10000 6 [] mem (rtattr_payload_ptr rta) n [])
        (octets-Clean 10000 6 [] mem (rtattr_payload_ptr rta) n [] (clean tt) (clean tt))
        (λ dstr a. any-Ensures (rtattr_len mem rta) (λ total.
          any-Ensures (load_bytes mem rta total) (λ bs. ensured (
            snprintf-IsCString len room (
              rta_type_to_str-Clean h.ifla type
              & literal (codes " unsupport-data=<") refl
              & a
              & literal (codes ">") refl))))))

  rta_case-Clean : (type : ℕ) (k : Option Ifla) → Ensures Fits (rta_case h mem rta len type k)
  unfolding rta_case
  rta_case-Clean type (some ifla_ifname) =
      known-Ensures (load_str mem (rtattr_payload_ptr rta))
        (load_str-Clean mem (rtattr_payload_ptr rta)) (λ name a. in_brackets-Clean type name a)
  rta_case-Clean type (some ifla_address) = address_text-Clean type
  rta_case-Clean type (some ifla_broadcast) = address_text-Clean type
  rta_case-Clean type (some ifla_stats64) =
      known-Ensures
        (counters (λ o. load64 mem (rtattr_payload_ptr rta + o)) breaks64 h.stats64_at stats)
        (counters-Clean (λ o. load64 mem (rtattr_payload_ptr rta + o)) breaks64 h.stats64_at stats)
        (λ text a. ensured (
          snprintf-IsCString len room
            (rta_type_to_str-Clean h.ifla type & a & literal (codes " \n") refl)))
  rta_case-Clean type (some ifla_stats) =
      known-Ensures
        (counters (λ o. load32 mem (rtattr_payload_ptr rta + o)) breaks32 h.stats_at stats)
        (counters-Clean (λ o. load32 mem (rtattr_payload_ptr rta + o)) breaks32 h.stats_at stats)
        (λ text a. ensured (snprintf-IsCString len room (rta_type_to_str-Clean h.ifla type & a)))
  rta_case-Clean type (some ifla_map) = map_text-Clean type
  rta_case-Clean type (some ifla_promiscuity) =
      any-Ensures (load32 mem (rtattr_payload_ptr rta)) (λ promisc. in_brackets-Clean type _ (
        if-Clean (promisc == 0) (literal (codes "promisc=off") refl)
          (literal (codes "promisc=on") refl)))
  rta_case-Clean type (some ifla_proto_down) = num8_text-Clean type
  rta_case-Clean type (some ifla_operstate) = num8_text-Clean type
  rta_case-Clean type (some ifla_linkmode) = num8_text-Clean type
  rta_case-Clean type (some ifla_carrier) = num8_text-Clean type
  rta_case-Clean type (some ifla_num_tx_queues) = num32_text-Clean type
  rta_case-Clean type (some ifla_num_rx_queues) = num32_text-Clean type
  rta_case-Clean type (some ifla_mtu) = num32_text-Clean type
  rta_case-Clean type (some ifla_link) = num32_text-Clean type
  rta_case-Clean type (some ifla_group) = num32_text-Clean type
  rta_case-Clean type (some ifla_qdisc) = num32_text-Clean type
  rta_case-Clean type (some ifla_carrier_changes) = num32_text-Clean type
  rta_case-Clean type (some ifla_txqlen) = num32_text-Clean type
  rta_case-Clean type (some ifla_linkinfo) =
      rta_to_str_ifla_linkinfo-Clean (record h.link { ifla_linkinfo = h.ifla ifla_linkinfo }) mem
        rta len room
  rta_case-Clean type (some ifla_af_spec) = ensured (af_spec-Clean len room)
  rta_case-Clean type (some _) = unsupported_text-Clean type
  rta_case-Clean type none = unsupported_text-Clean type

  -- Whatever the memory and the header hold: if `rta_to_str` returns, the text that it leaves in an
  -- array of at least one byte has no NUL before its end and fits in the array with the NUL behind it.
  pub rta_to_str-IsCString :
      {str out : Text} → rta_to_str h mem rta len ≡ ok (str, out) → NoNul str × (length str < len)
  unfolding rta_to_str
  rta_to_str-IsCString e =
      result (rta_to_str h mem rta len)
        (any-Ensures (rtattr_type mem rta)
          (λ type. rta_case-Clean type (switch h.ifla ifla_labels type)))
        e
