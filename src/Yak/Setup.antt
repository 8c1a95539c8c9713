-- ===== src/Yak/Setup.antt =====
-- The setup of yak (yak/port.c, `tap_alloc` and `tap_free` of yak/tap.c, `main` of yak/main.c), over
-- an environment that answers the calls of DPDK and of the C library. A pointer is a number and
-- NULL is 0. `socket_id` stands for `rte_eth_dev_socket_id`. Printed text is left out.
pub mod Configure
pub mod Tap
pub mod Resources
pub mod Held
mod Tests
use Prim.Native.Nat.{bit_or}
use hspp.Prelude.{ℕ, zero, suc, ◌+◌, ◌%◌, ◌^◌, List, [], ◌∷◌, ◌++◌, Text, codes, take}
use hspp.Dpdk.{
  DpdkCall, EthConf, txq_flags, eal_init, dev_count, malloc, pool_create, dev_configure,
  rx_queue_setup, tx_queue_setup, dev_start, promiscuous_enable, dev_stop, macaddr_get, ring_create,
  mempool_free, ring_free, open_tun, socket_inet, tunsetiff, siocsifhwaddr, siocgifflags, ifr_flags,
  siocsifflags, close, pthread_create, pthread_join,
}
use hspp.Printf.{dec, snprintf}
use hspp.Calls.{Program, ret, ◌>>=◌, ◌>>◌, ask, tell, check, ask_pointer, ask_fd, check_zero}

-- `port_t`: where it stands, and its fields but `hostif_addr`, which nothing sets.
pub record PortHandle : Type 0 where
  pub address : ℕ
  pub hostif_fd : ℕ
  pub dpdk_pid : ℕ
  pub nrxq : ℕ
  pub ntxq : ℕ
  pub hwaddr : ℕ
  pub from_hostif : ℕ
  pub mp : ℕ

-- `IFNAMSIZ` and `IFF_UP`.
abbrev pub ifnamsiz : ℕ
ifnamsiz = 16

abbrev pub iff_up : ℕ
iff_up = 1

unfoldable pub tap_alloc : Text → ℕ → Program DpdkCall ℕ
tap_alloc ifname hwaddr = do
  fd ← ask_fd open_tun
  check (tunsetiff fd (take ifnamsiz ifname))
  check (siocsifhwaddr fd hwaddr)
  sock ← ask socket_inet
  let name = take 15 ifname
  check (siocgifflags sock name)
  flags ← ask (ifr_flags sock)
  check (siocsifflags sock name (bit_or flags iff_up))
  tell (close sock)
  ret fd

unfoldable pub tap_free : ℕ → Program DpdkCall (Unit {0})
tap_free fd = tell (close fd)

abbrev pub port_conf : EthConf
port_conf = record {
  header_split = 0;
  jumbo_frame = 1;
  enable_scatter = 1;
  ignore_offload_bitfield = 1;
}

abbrev pub rx_ring_size : ℕ
rx_ring_size = 128

abbrev pub tx_ring_size : ℕ
tx_ring_size = 512

module _ (socket_id : ℕ → ℕ) where
  -- The loops over the queues, with the rounds left and the queue at hand.
  unfoldable pub rx_queues : ℕ → ℕ → ℕ → ℕ → Program DpdkCall (Unit {0})
  rx_queues zero q port mp = ret tt
  rx_queues (suc n) q port mp = do
    check (rx_queue_setup port q rx_ring_size (socket_id port) mp)
    rx_queues n (q + 1) port mp

  unfoldable pub tx_queues : ℕ → ℕ → ℕ → Program DpdkCall (Unit {0})
  tx_queues zero q port = ret tt
  tx_queues (suc n) q port = do
    check (tx_queue_setup port q tx_ring_size (socket_id port) txq_flags)
    tx_queues n (q + 1) port

  unfoldable pub port_configure : ℕ → ℕ → ℕ → EthConf → ℕ → Program DpdkCall (Unit {0})
  port_configure port nb_rxq nb_txq port_conf mp = do
    check (dev_configure port nb_rxq nb_txq port_conf)
    rx_queues nb_rxq 0 port mp
    tx_queues nb_txq 0 port
    check (dev_start port)
    tell (promiscuous_enable port)

  -- The port identifier has 16 bits, and 8 of them reach `port_configure`.
  unfoldable pub port_alloc : ℕ → ℕ → ℕ → Text → Program DpdkCall PortHandle
  unfolding port_configure tap_alloc
  port_alloc dpdk_pid nrxq ntxq ifname = do
    port ← ask_pointer malloc
    mp ← ask_pointer (
        pool_create (snprintf 100 (codes "PORT" ++ dec dpdk_pid ++ codes "_MBUFPOOL")) 8191 250
          (socket_id dpdk_pid))
    port_configure (dpdk_pid % 2 ^ 8) nrxq ntxq port_conf mp
    hwaddr ← ask (macaddr_get dpdk_pid)
    hostif_fd ← tap_alloc ifname hwaddr
    ring ←
        ask_pointer
          (ring_create (snprintf 100 (codes "PORT" ++ dec dpdk_pid ++ codes "_HOSTRING")) 8192)
    ret (record {
      address = port;
      hostif_fd = hostif_fd;
      dpdk_pid = dpdk_pid;
      nrxq = nrxq;
      ntxq = ntxq;
      hwaddr = hwaddr;
      from_hostif = ring;
      mp = mp;
    })

  unfoldable pub port_free : PortHandle → Program DpdkCall (Unit {0})
  unfolding tap_free
  port_free port = do
    tap_free port.hostif_fd
    tell (dev_stop port.dpdk_pid)
    tell (mempool_free port.mp)
    tell (ring_free port.from_hostif)

  -- The loop over the ports, with the rounds left and the port at hand.
  unfoldable pub alloc_ports : ℕ → ℕ → Program DpdkCall (List PortHandle)
  alloc_ports zero i = ret []
  alloc_ports (suc n) i = do
    port ← port_alloc i 1 1 (snprintf 100 (codes "ge-0-0-" ++ dec i))
    ports ← alloc_ports n (i + 1)
    ret (port ∷ ports)

  -- The ports that the threads work on, and the result; thread 0 runs `fwd_main`, thread 1 runs
  -- `tap_main`.
  unfoldable pub yak_main : Program DpdkCall (List PortHandle × ℕ)
  yak_main = do
    check eal_init
    nb_ports ← ask dev_count
    ports ← alloc_ports nb_ports 0
    check_zero (pthread_create 0)
    check_zero (pthread_create 1)
    tell (pthread_join 0)
    tell (pthread_join 1)
    ret (ports, 0)
