-- ===== src/Yak/Setup/Tests.antt =====
-- The setup of one port where every call is granted, and where the queue of transmission is refused.
use hspp.Prelude.{◌-◌, ◌^◌, ◌≡◌, refl, arith, ◌⊎◌, [], ◌∷◌, codes}
use hspp.Outcome.{ok}
use hspp.Calls.{Environment, run}
use hspp.Dpdk.{
  DpdkCall, dev_count, malloc, pool_create, ring_create, tx_queue_setup, open_tun, socket_inet,
  macaddr_get,
}
use hspp.Yak.Setup.{
  PortHandle, tap_alloc, rx_queues, tx_queues, port_configure, port_alloc, port_free, alloc_ports,
  yak_main, port_conf,
}
use hspp.Yak.Setup.Configure.{AllCalled, FirstFailed, port_configure_all}
use hspp.Yak.Setup.Resources.{block, pool, ring, descriptor, device, held_after}
use hspp.Yak.Setup.Held.{held-port_free}

abbrev grants : Environment DpdkCall
grants past dev_count = 1
grants past malloc = 4096
grants past (pool_create name n cache socket) = 8192
grants past (ring_create name size) = 12288
grants past open_tun = 4
grants past socket_inet = 5
grants past (macaddr_get pid) = 0x16
grants past _ = 0

abbrev no_tx : Environment DpdkCall
no_tx past (tx_queue_setup port q size socket flags) = 2 ^ 32 - 1
no_tx past c = grants past c

abbrev first_port : PortHandle
first_port = record {
  address = 4096;
  hostif_fd = 4;
  dpdk_pid = 0;
  nrxq = 1;
  ntxq = 1;
  hwaddr = 0x16;
  from_hostif = 12288;
  mp = 8192;
}

main_runs : (run grants [] (yak_main (λ port. 0))).0 ≡ ok (first_port ∷ [], 0)
unfolding yak_main alloc_ports port_alloc port_configure rx_queues tx_queues tap_alloc
main_runs = refl

port_configure_all_example :
    AllCalled (λ port. 0) 0 1 1 port_conf 8192 no_tx []
    ⊎ FirstFailed (λ port. 0) 0 1 1 port_conf 8192 no_tx []
port_configure_all_example = port_configure_all (λ port. 0) 0 1 1 port_conf 8192 no_tx []

port_returns : (run grants [] (port_alloc (λ port. 0) 0 1 1 (codes "ge-0-0-0"))).0 ≡ ok first_port
unfolding port_alloc port_configure rx_queues tx_queues tap_alloc
port_returns = refl

-- Another port had a block before.
held-port_free_example :
    (held_after (block 64 ∷ []) (run grants [] (port_alloc (λ port. 0) 0 1 1 (codes "ge-0-0-0"))).1
      ≡ ring 12288 ∷ descriptor 4 ∷ device 0 ∷ pool 8192 ∷ block 4096 ∷ block 64 ∷ [])
    × (held_after
          (block 64 ∷ [])
          (run grants
            (run grants [] (port_alloc (λ port. 0) 0 1 1 (codes "ge-0-0-0"))).1
            (port_free (λ port. 0) first_port)).1
        ≡ block 4096 ∷ block 64 ∷ [])
held-port_free_example =
    held-port_free (λ port. 0) grants [] (block 64 ∷ []) 0 1 1 (codes "ge-0-0-0") first_port
      (omega arith) port_returns
