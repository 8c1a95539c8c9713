-- ===== src/Yalin/RtaText/Cases.antt =====
-- The cases of the switch of `rta_to_str` that do the same.
use hspp.Prelude.{ℕ, false, ◌≡◌, refl, List, [], codes, length, some}
use hspp.Outcome.{ok}
use hspp.Memory.{Memory}
use hspp.Printf.{snprintf}
use hspp.Yalin.Linkinfo.{rta_to_str_ifla_af_spec}
use hspp.Yalin.Types.RtaType.{
  Ifla, ifla_address, ifla_broadcast, ifla_promiscuity, ifla_ifname, ifla_stats64, ifla_stats,
  ifla_map, ifla_proto_down, ifla_operstate, ifla_linkmode, ifla_carrier, ifla_num_tx_queues,
  ifla_num_rx_queues, ifla_mtu, ifla_link, ifla_group, ifla_qdisc, ifla_carrier_changes,
  ifla_txqlen, ifla_linkinfo, ifla_af_spec,
}
use hspp.Yalin.RtaText.{RtaHeader, rta_case, num8_text, num32_text, unsupported_text}
use hspp.Yalin.RtaText.LinkAttr.{
  ByteAttr, proto_down, WordAttr, num_tx_queues, has_case, byte_label, word_label,
}

module _ (h : RtaHeader) (pre : List ℕ) (size : ℕ) where
  pub byte_case :
      (k : ByteAttr) (mem : Memory) (type : ℕ)
      → rta_case h mem (length pre) size type (some (byte_label k))
        ≡ num8_text h mem (length pre) size type
  unfolding rta_case
  byte_case proto_down mem type = refl
  byte_case _ mem type = refl

  pub word_case :
      (k : WordAttr) (mem : Memory) (type : ℕ)
      → rta_case h mem (length pre) size type (some (word_label k))
        ≡ num32_text h mem (length pre) size type
  unfolding rta_case
  word_case num_tx_queues mem type = refl
  word_case _ mem type = refl

  pub af_spec_case :
      (mem : Memory) (type : ℕ)
      → rta_case h mem (length pre) size type (some ifla_af_spec)
        ≡ ok (snprintf size (codes "IFLA_AF_SPEC <unsupported yet>"), [])
  unfolding rta_case rta_to_str_ifla_af_spec
  af_spec_case mem type = refl

  -- The cases that share the default.
  pub uncased_case :
      (k : Ifla) (mem : Memory) (type : ℕ)
      → has_case k ≡ false
      → rta_case h mem (length pre) size type (some k)
        ≡ unsupported_text h mem (length pre) size type
  unfolding rta_case
  uncased_case ifla_ifname mem type e = cc
  uncased_case ifla_address mem type e = cc
  uncased_case ifla_broadcast mem type e = cc
  uncased_case ifla_stats64 mem type e = cc
  uncased_case ifla_stats mem type e = cc
  uncased_case ifla_map mem type e = cc
  uncased_case ifla_promiscuity mem type e = cc
  uncased_case ifla_proto_down mem type e = cc
  uncased_case ifla_operstate mem type e = cc
  uncased_case ifla_linkmode mem type e = cc
  uncased_case ifla_carrier mem type e = cc
  uncased_case ifla_num_tx_queues mem type e = cc
  uncased_case ifla_num_rx_queues mem type e = cc
  uncased_case ifla_mtu mem type e = cc
  uncased_case ifla_link mem type e = cc
  uncased_case ifla_group mem type e = cc
  uncased_case ifla_qdisc mem type e = cc
  uncased_case ifla_carrier_changes mem type e = cc
  uncased_case ifla_txqlen mem type e = cc
  uncased_case ifla_linkinfo mem type e = cc
  uncased_case ifla_af_spec mem type e = cc
  uncased_case _ mem type e = refl
