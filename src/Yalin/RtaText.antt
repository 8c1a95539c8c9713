-- ===== src/Yalin/RtaText.antt =====
-- `rta_to_str` (yalin/yalin/rtattr.h): the text of an attribute by its type, left in `str`, beside
-- the text printed to stdout.
pub mod Octets
pub mod LinkAttr
pub mod Cases
pub mod ReadAttr
pub mod CString
pub mod Address
pub mod Tests
use hspp.Prelude.{
  ℕ, zero, suc, ◌+◌, ◌==◌, Bool, true, false, if◌then◌else◌, List, [], ◌∷◌, ◌++◌, Text, codes,
  length, Option, none, some,
}
use hspp.Outcome.{Outcome, ok, stop, bad_access, ◌>>=◌}
use hspp.Memory.{Memory, load8, load16, load32, load64, load_str}
use hspp.Printf.{dec, hex0, snprintf}
use hspp.Switch.{switch}
use hspp.Yalin.Flags.{strncat}
use hspp.Yalin.Hexdump.{hexdump}
use hspp.Yalin.Rtattr.{rtattr_type, rtattr_len, rtattr_payload_len, rtattr_payload_ptr}
use hspp.Yalin.Linkinfo.{LinkHeader, load_bytes, rta_to_str_ifla_linkinfo, rta_to_str_ifla_af_spec}
use hspp.Yalin.Types.RtaType.{
  Ifla, ifla_labels, rta_type_to_str, ifla_ifname, ifla_address, ifla_broadcast, ifla_stats64,
  ifla_stats, ifla_map, ifla_promiscuity, ifla_proto_down, ifla_operstate, ifla_linkmode,
  ifla_carrier, ifla_num_tx_queues, ifla_num_rx_queues, ifla_mtu, ifla_link, ifla_group, ifla_qdisc,
  ifla_carrier_changes, ifla_txqlen, ifla_linkinfo, ifla_af_spec,
}

-- The counters of `struct rtnl_link_stats` and `struct rtnl_link_stats64` that are printed.
pub data Stat : Type 0 where
  rx_packets tx_packets rx_bytes tx_bytes rx_errors tx_errors rx_dropped tx_dropped : Stat
  multicast collisions rx_length_errors rx_over_errors rx_crc_errors rx_frame_errors : Stat
  rx_fifo_errors rx_missed_errors tx_aborted_errors tx_carrier_errors tx_fifo_errors : Stat
  tx_heartbeat_errors tx_window_errors rx_compressed tx_compressed : Stat

-- In the order in which both formats print them.
abbrev pub stats : List Stat
stats =
    rx_packets ∷ tx_packets ∷ rx_bytes ∷ tx_bytes ∷ rx_errors ∷ tx_errors ∷ rx_dropped ∷ tx_dropped
    ∷ multicast ∷ collisions ∷ rx_length_errors ∷ rx_over_errors ∷ rx_crc_errors ∷ rx_frame_errors
    ∷ rx_fifo_errors ∷ rx_missed_errors ∷ tx_aborted_errors ∷ tx_carrier_errors ∷ tx_fifo_errors
    ∷ tx_heartbeat_errors ∷ tx_window_errors ∷ rx_compressed ∷ tx_compressed ∷ []

abbrev pub stat_name : Stat → Text
stat_name rx_packets = codes "rx_packets"
stat_name tx_packets = codes "tx_packets"
stat_name rx_bytes = codes "rx_bytes"
stat_name tx_bytes = codes "tx_bytes"
stat_name rx_errors = codes "rx_errors"
stat_name tx_errors = codes "tx_errors"
stat_name rx_dropped = codes "rx_dropped"
stat_name tx_dropped = codes "tx_dropped"
stat_name multicast = codes "multicast"
stat_name collisions = codes "collisions"
stat_name rx_length_errors = codes "rx_length_errors"
stat_name rx_over_errors = codes "rx_over_errors"
stat_name rx_crc_errors = codes "rx_crc_errors"
stat_name rx_frame_errors = codes "rx_frame_errors"
stat_name rx_fifo_errors = codes "rx_fifo_errors"
stat_name rx_missed_errors = codes "rx_missed_errors"
stat_name tx_aborted_errors = codes "tx_aborted_errors"
stat_name tx_carrier_errors = codes "tx_carrier_errors"
stat_name tx_fifo_errors = codes "tx_fifo_errors"
stat_name tx_heartbeat_errors = codes "tx_heartbeat_errors"
stat_name tx_window_errors = codes "tx_window_errors"
stat_name rx_compressed = codes "rx_compressed"
stat_name tx_compressed = codes "tx_compressed"

-- The counters that the format for IFLA_STATS64 puts first on a line.
abbrev pub breaks64 : Stat → Bool
breaks64 rx_packets = true
breaks64 rx_errors = true
breaks64 multicast = true
breaks64 rx_crc_errors = true
breaks64 rx_missed_errors = true
breaks64 tx_fifo_errors = true
breaks64 rx_compressed = true
breaks64 _ = false

-- And the format for IFLA_STATS.
abbrev pub breaks32 : Stat → Bool
breaks32 rx_packets = true
breaks32 tx_errors = true
breaks32 rx_length_errors = true
breaks32 rx_fifo_errors = true
breaks32 tx_carrier_errors = true
breaks32 tx_window_errors = true
breaks32 _ = false

-- What the kernel's headers define: the attribute types, and the offsets of the counters and of the
-- fields of `struct rtnl_link_ifmap`.
pub record RtaHeader : Type 0 where
  pub ifla : Ifla → ℕ
  pub link : LinkHeader
  pub stats64_at : Stat → ℕ
  pub stats_at : Stat → ℕ
  pub mem_start_at : ℕ
  pub mem_end_at : ℕ
  pub base_addr_at : ℕ
  pub irq_at : ℕ
  pub dma_at : ℕ
  pub port_at : ℕ

-- The loops that append `%02x` and `sep` for each byte to an array of `size` bytes; `sub_size` is
-- the size of the array for one byte.
unfoldable pub octets : ℕ → ℕ → Text → Memory → ℕ → ℕ → Text → Outcome Text
unfolding strncat snprintf
octets size sub_size sep mem ptr zero str = ok str
octets size sub_size sep mem ptr (suc n) str = do
  b ← load8 mem ptr
  let sub = snprintf sub_size (hex0 2 b ++ sep)
  str' ← strncat size str sub (length sub)
  octets size sub_size sep mem (ptr + 1) n str'

unfoldable pub counters : (ℕ → Outcome ℕ) → (Stat → Bool) → (Stat → ℕ) → List Stat → Outcome Text
counters load breaks offset [] = ok []
counters load breaks offset (s ∷ ss) = do
  v ← load (offset s)
  text ← counters load breaks offset ss
  ok ((if breaks s then codes " \n\t" else codes " ") ++ stat_name s ++ codes ":" ++ dec v ++ text)

module _ (h : RtaHeader) (mem : Memory) (rta len : ℕ) where
  -- `"%s <…>"`
  abbrev pub in_brackets : ℕ → Text → Outcome (Text × Text)
  in_brackets type text =
      ok (snprintf len (rta_type_to_str h.ifla type ++ codes " <" ++ text ++ codes ">"), [])

  unfoldable pub address_text : ℕ → Outcome (Text × Text)
  address_text type = do
    data_len ← rtattr_payload_len mem rta
    substr ← octets 1000 100 (codes ":") mem (rtattr_payload_ptr rta) data_len []
    in_brackets type substr

  unfoldable pub map_text : ℕ → Outcome (Text × Text)
  map_text type = do
    let ifmap = rtattr_payload_ptr rta
    mem_start ← load64 mem (ifmap + h.mem_start_at)
    mem_end ← load64 mem (ifmap + h.mem_end_at)
    base_addr ← load64 mem (ifmap + h.base_addr_at)
    irq ← load16 mem (ifmap + h.irq_at)
    dma ← load8 mem (ifmap + h.dma_at)
    port ← load8 mem (ifmap + h.port_at)
    ok (
      snprintf len (
          rta_type_to_str h.ifla type
          ++ codes " \n\tmem_start:"
          ++ dec mem_start
          ++ codes " mem_end:"
          ++ dec mem_end
          ++ codes " \n\tbase_addr:"
          ++ dec base_addr
          ++ codes " irq:"
          ++ dec irq
          ++ codes " dma:"
          ++ dec dma
          ++ codes " port:"
          ++ dec port),
      [],
    )

  unfoldable pub num8_text : ℕ → Outcome (Text × Text)
  num8_text type = do num ← load8 mem (rtattr_payload_ptr rta); in_brackets type (dec num)

  unfoldable pub num32_text : ℕ → Outcome (Text × Text)
  num32_text type = do num ← load32 mem (rtattr_payload_ptr rta); in_brackets type (dec num)

  unfoldable pub unsupported_text : ℕ → Outcome (Text × Text)
  unsupported_text type = do
    n ← rtattr_payload_len mem rta
    dstr ← octets 10000 6 [] mem (rtattr_payload_ptr rta) n []
    total ← rtattr_len mem rta
    bs ← load_bytes mem rta total
    ok (
      snprintf len (rta_type_to_str h.ifla type ++ codes " unsupport-data=<" ++ dstr ++ codes ">"),
      hexdump bs,
    )

  -- The cases of the switch.
  unfoldable pub rta_case : ℕ → Option Ifla → Outcome (Text × Text)
  rta_case type (some ifla_ifname) = do
    name ← load_str mem (rtattr_payload_ptr rta)
    in_brackets type name
  rta_case type (some ifla_address) = address_text type
  rta_case type (some ifla_broadcast) = address_text type
  rta_case type (some ifla_stats64) = do
    text ← counters (λ o. load64 mem (rtattr_payload_ptr rta + o)) breaks64 h.stats64_at stats
    ok (snprintf len (rta_type_to_str h.ifla type ++ text ++ codes " \n"), [])
  rta_case type (some ifla_stats) = do
    text ← counters (λ o. load32 mem (rtattr_payload_ptr rta + o)) breaks32 h.stats_at stats
    ok (snprintf len (rta_type_to_str h.ifla type ++ text), [])
  rta_case type (some ifla_map) = map_text type
  rta_case type (some ifla_promiscuity) = do
    promisc ← load32 mem (rtattr_payload_ptr rta)
    in_brackets type (if promisc == 0 then codes "promisc=off" else codes "promisc=on")
  rta_case type (some ifla_proto_down) = num8_text type
  rta_case type (some ifla_operstate) = num8_text type
  rta_case type (some ifla_linkmode) = num8_text type
  rta_case type (some ifla_carrier) = num8_text type
  rta_case type (some ifla_num_tx_queues) = num32_text type
  rta_case type (some ifla_num_rx_queues) = num32_text type
  rta_case type (some ifla_mtu) = num32_text type
  rta_case type (some ifla_link) = num32_text type
  rta_case type (some ifla_group) = num32_text type
  rta_case type (some ifla_qdisc) = num32_text type
  rta_case type (some ifla_carrier_changes) = num32_text type
  rta_case type (some ifla_txqlen) = num32_text type
  rta_case type (some ifla_linkinfo) =
      rta_to_str_ifla_linkinfo (record h.link { ifla_linkinfo = h.ifla ifla_linkinfo }) mem rta len
  rta_case type (some ifla_af_spec) = ok (rta_to_str_ifla_af_spec len, [])
  rta_case type (some _) = unsupported_text type
  rta_case type none = unsupported_text type

  -- Types that `rta_to_str` does not name are in its default.
  unfoldable pub rta_to_str : Outcome (Text × Text)
  rta_to_str = do type ← rtattr_type mem rta; rta_case type (switch h.ifla ifla_labels type)
