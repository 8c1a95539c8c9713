-- ===== src/Yalin/RtaText/Tests.antt =====
-- Runs of `rta_to_str`, with the layouts of the 64-bit kernel headers.
use hspp.Prelude.{length, ◌<◌, ℕ, ◌*◌, ◌≡◌, refl, arith, List, [], ◌∷◌, codes}
use hspp.Memory.Laws.{NoNul}
use hspp.Yalin.RtaText.CString.{rta_to_str-IsCString}
use hspp.Outcome.{ok}
use hspp.Memory.{load16, load32}
use hspp.Printf.{dec, snprintf}
use hspp.Switch.{switch}
use hspp.Yalin.Rtattr.{rtattr_type}
use hspp.Yalin.RtaText.Octets.{AllBytes}
use hspp.Yalin.Linkinfo.{LinkHeader}
use hspp.Yalin.Types.RtaType.{ifla_address, ifla_mtu, ifla_promiscuity, ifla_name, rta_type_to_str}
use hspp.Yalin.RtaText.{
  RtaHeader, Stat, rta_to_str, rta_case, num32_text, rx_packets, tx_packets, rx_bytes, tx_bytes,
  rx_errors, tx_errors, rx_dropped, tx_dropped, multicast, collisions, rx_length_errors,
  rx_over_errors, rx_crc_errors, rx_frame_errors, rx_fifo_errors, rx_missed_errors,
  tx_aborted_errors, tx_carrier_errors, tx_fifo_errors, tx_heartbeat_errors, tx_window_errors,
  rx_compressed, tx_compressed,
}
use hspp.Yalin.RtaText.Address.{address_result}
use hspp.Yalin.TypesTests.{ifla_value}

-- The place of a counter in both structures.
abbrev rank : Stat → ℕ
rank rx_packets = 0
rank tx_packets = 1
rank rx_bytes = 2
rank tx_bytes = 3
rank rx_errors = 4
rank tx_errors = 5
rank rx_dropped = 6
rank tx_dropped = 7
rank multicast = 8
rank collisions = 9
rank rx_length_errors = 10
rank rx_over_errors = 11
rank rx_crc_errors = 12
rank rx_frame_errors = 13
rank rx_fifo_errors = 14
rank rx_missed_errors = 15
rank tx_aborted_errors = 16
rank tx_carrier_errors = 17
rank tx_fifo_errors = 18
rank tx_heartbeat_errors = 19
rank tx_window_errors = 20
rank rx_compressed = 21
rank tx_compressed = 22

abbrev link : LinkHeader
link = record {
  ifla_linkinfo = 18;
  ifla_info_kind = 1;
  ifla_info_data = 2;
  vlan = λ k. 0;
  show_ptr = λ p. codes "0x0";
}

abbrev pub linux : RtaHeader
linux = record {
  ifla = ifla_value;
  link = link;
  stats64_at = λ s. 8 * rank s;
  stats_at = λ s. 4 * rank s;
  mem_start_at = 0;
  mem_end_at = 8;
  base_addr_at = 16;
  irq_at = 24;
  dma_at = 26;
  port_at = 27;
}

mtu_text :
    rta_to_str linux (8 ∷ 0 ∷ ifla_value ifla_mtu ∷ 0 ∷ 0xdc ∷ 5 ∷ 0 ∷ 0 ∷ []) 0 100
    ≡ ok (codes "IFLA_MTU <1500>", [])
unfolding rta_to_str rtattr_type load16 rta_case switch num32_text load32 snprintf rta_type_to_str
    dec
mtu_text = refl

promiscuity_text :
    rta_to_str linux (8 ∷ 0 ∷ ifla_value ifla_promiscuity ∷ 0 ∷ 1 ∷ 0 ∷ 0 ∷ 0 ∷ []) 0 100
    ≡ ok (codes "IFLA_PROMISCUITY <promisc=on>", [])
unfolding rta_to_str rtattr_type load16 rta_case switch load32 snprintf rta_type_to_str
promiscuity_text = refl

abbrev mac : List ℕ
mac = 0x00 ∷ 0x16 ∷ 0x3e ∷ 0x0a ∷ 0xb0 ∷ 0xff ∷ []

mac-AllBytes : AllBytes mac
mac-AllBytes =
    (omega arith, (omega arith, (omega arith, (omega arith, (omega arith, (omega arith, tt))))))

mac_result :
    address_result linux mac 100 ifla_address ≡ ok (codes "IFLA_ADDRESS <00:16:3e:0a:b0:ff:>", [])
unfolding snprintf ifla_name
mac_result = refl

rta_to_str-IsCString_example :
    NoNul (codes "IFLA_MTU <1500>") × (length (codes "IFLA_MTU <1500>") < 100)
rta_to_str-IsCString_example =
    rta_to_str-IsCString linux (8 ∷ 0 ∷ ifla_value ifla_mtu ∷ 0 ∷ 0xdc ∷ 5 ∷ 0 ∷ 0 ∷ []) 0 100
      (omega arith) mtu_text
