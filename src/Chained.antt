-- ===== src/Chained.antt =====
-- The example chained_mbuf (chained_mbuf/main.c and chained_mbuf/dpdk.h): three buffers are filled,
-- chained into one packet and sent. `socket_id` stands for `rte_eth_dev_socket_id`.
pub mod Ledger
pub mod Fill
pub mod Send
pub mod Ownership
mod Tests
use hspp.Prelude.{ℕ, zero, suc, ◌+◌, ◌==◌, if◌then◌else◌, List, codes, take, replicate}
use hspp.Outcome.{exit_one, null_access}
use hspp.Calls.{Program, ret, halt, ◌>>=◌, ◌>>◌, ask, tell, check, ask_pointer}
use hspp.Dpdk.{
  DpdkCall, EthConf, txq_flags, eal_init, pool_create, dev_configure, rx_queue_setup,
  tx_queue_setup, dev_start, promiscuous_enable, mbuf_alloc, set_pkt_len, set_data_len, memcpy,
  chain, linearize, mbuf_dump, mbuf_free, tx_burst, mempool_free,
}

-- The fields are written through `m`, which may be NULL.
unfoldable pub rte_pktmbuf_set : ℕ → List ℕ → ℕ → Program DpdkCall (Unit {0})
rte_pktmbuf_set m ptr len =
    if m == 0
    then halt null_access
    else (do tell (set_pkt_len m len); tell (set_data_len m len); tell (memcpy m (take len ptr)))

unfoldable pub rte_pktmbuf_alloc_set : ℕ → List ℕ → ℕ → Program DpdkCall ℕ
rte_pktmbuf_alloc_set mp ptr len = do
  m ← ask (mbuf_alloc mp)
  if m == 0 then halt null_access else (do
    tell (set_pkt_len m len)
    tell (set_data_len m len)
    tell (memcpy m (take len ptr))
    ret m)

module _ (socket_id : ℕ → ℕ) where
  -- The loops over the queues, with the rounds left and the queue at hand.
  unfoldable pub rx_queues : ℕ → ℕ → ℕ → ℕ → Program DpdkCall (Unit {0})
  rx_queues zero q port mp = ret tt
  rx_queues (suc n) q port mp = do
    check (rx_queue_setup port q 128 (socket_id port) mp)
    rx_queues n (q + 1) port mp

  unfoldable pub tx_queues : ℕ → ℕ → ℕ → Program DpdkCall (Unit {0})
  tx_queues zero q port = ret tt
  tx_queues (suc n) q port = do
    check (tx_queue_setup port q 512 (socket_id port) txq_flags)
    tx_queues n (q + 1) port

  unfoldable pub rte_eth_dev_configure_easy : ℕ → ℕ → ℕ → EthConf → ℕ → Program DpdkCall (Unit {0})
  rte_eth_dev_configure_easy port nb_rxq nb_txq port_conf mp = do
    check (dev_configure port nb_rxq nb_txq port_conf)
    rx_queues nb_rxq 0 port mp
    tx_queues nb_txq 0 port
    check (dev_start port)
    tell (promiscuous_enable port)

abbrev pub port_conf : EthConf
port_conf = record {
  header_split = 0;
  jumbo_frame = 1;
  enable_scatter = 1;
  ignore_offload_bitfield = 0;
}

-- `main` from the first `rte_pktmbuf_chain` on.
unfoldable pub chain_and_send : ℕ → ℕ → ℕ → ℕ → Program DpdkCall ℕ
chain_and_send mp m0 m1 m2 = do
  tell (chain m0 m1)
  tell (chain m0 m2)
  tell (linearize m0)
  tell (mbuf_dump m0)
  ntx ← ask (tx_burst 0 m0)
  if ntx == 1
      then (do tell (mbuf_free m0); tell (mbuf_free m1); tell (mempool_free mp); ret 0)
      else halt exit_one

-- `main` from the three buffers on, which are filled from the arrays.
unfoldable pub send_three : ℕ → List ℕ → List ℕ → List ℕ → Program DpdkCall ℕ
unfolding rte_pktmbuf_alloc_set chain_and_send
send_three mp buf0 buf1 buf2 = do
  m0 ← rte_pktmbuf_alloc_set mp buf0 1000
  m1 ← rte_pktmbuf_alloc_set mp buf1 1000
  m2 ← rte_pktmbuf_alloc_set mp buf2 1000
  chain_and_send mp m0 m1 m2

unfoldable pub main : (ℕ → ℕ) → Program DpdkCall ℕ
unfolding rte_eth_dev_configure_easy send_three
main socket_id = do
  check eal_init
  mp ← ask_pointer (pool_create (codes "mp") 8192 0 0)
  rte_eth_dev_configure_easy socket_id 0 1 1 port_conf mp
  send_three mp (replicate 1000 0x11) (replicate 1000 0x22) (replicate 1000 0x33)
