-- ===== src/Dpdk.antt =====
-- What the programs over DPDK call: its functions, those of the C library and of libpcap, as data. A
-- pointer is a number, and NULL is 0.
use hspp.Prelude.{ℕ, List, Text}

-- The fields of `struct rte_eth_conf` that the programs set to a number; all of them also set
-- `rxmode.mq_mode` to ETH_MQ_RX_NONE, `max_rx_pkt_len` to ETHER_MAX_LEN and `txmode.mq_mode` to
-- ETH_MQ_TX_NONE.
pub record EthConf : Type 0 where
  pub header_split : ℕ
  pub jumbo_frame : ℕ
  pub enable_scatter : ℕ
  pub ignore_offload_bitfield : ℕ

-- The `txq_flags` of the programs: all bits are zero, and clearing ETH_TXQ_FLAGS_NOMULTSEGS leaves them.
abbrev pub txq_flags : ℕ
txq_flags = 0

-- The calls of DPDK and of the C library. `tunsetiff` and what follows up to `siocsifflags` are requests of `ioctl`; `ifr_flags`
-- reads what SIOCGIFFLAGS wrote, and `macaddr_get` gives the address that it writes, as a number.
pub data DpdkCall : Type 0 where
  eal_init dev_count : DpdkCall
  malloc : DpdkCall
  pool_create : Text → ℕ → ℕ → ℕ → DpdkCall
  dev_configure : ℕ → ℕ → ℕ → EthConf → DpdkCall
  rx_queue_setup : ℕ → ℕ → ℕ → ℕ → ℕ → DpdkCall
  -- The last argument is the field `txq_flags` of the configuration, which is zero besides.
  tx_queue_setup : ℕ → ℕ → ℕ → ℕ → ℕ → DpdkCall
  dev_start promiscuous_enable dev_stop macaddr_get : ℕ → DpdkCall
  ring_create : Text → ℕ → DpdkCall
  mempool_free ring_free : ℕ → DpdkCall
  open_tun socket_inet : DpdkCall
  tunsetiff : ℕ → Text → DpdkCall
  siocsifhwaddr : ℕ → ℕ → DpdkCall
  siocgifflags : ℕ → Text → DpdkCall
  ifr_flags : ℕ → DpdkCall
  siocsifflags : ℕ → Text → ℕ → DpdkCall
  close : ℕ → DpdkCall
  pthread_create pthread_join : ℕ → DpdkCall
  -- On packet buffers: `set_pkt_len` and `set_data_len` write the fields, `memcpy` the bytes.
  mbuf_alloc : ℕ → DpdkCall
  set_pkt_len set_data_len set_l2_len set_l3_len : ℕ → ℕ → DpdkCall
  memcpy : ℕ → List ℕ → DpdkCall
  chain : ℕ → ℕ → DpdkCall
  linearize mbuf_dump mbuf_free : ℕ → DpdkCall
  tx_burst : ℕ → ℕ → DpdkCall
  -- On tables of IP fragments: `now` is `rte_get_tsc_cycles`, `tsc_hz` is `rte_get_tsc_hz`.
  now tsc_hz : DpdkCall
  frag_table_create : ℕ → ℕ → ℕ → ℕ → DpdkCall
  frag_reassemble : ℕ → ℕ → ℕ → DpdkCall
  frag_table_destroy : ℕ → DpdkCall
  -- On a capture: `pcap_len` reads the field `len` of the header that `pcap_next` wrote.
  pcap_open_offline : Text → DpdkCall
  pcap_next pcap_len pcap_close : ℕ → DpdkCall
