-- ===== src/Yak/Setup/Held.antt =====
-- What a port of yak holds: its block, its packet pool, its device, its host interface and its ring.
use Prim.Native.Nat.{bit_or}
use hspp.Prelude.{
  Bool-cases, inl, inr, ℕ, zero, suc, ◌+◌, ◌%◌, ◌^◌, ◌<◌, ◌==◌, true, arith, ◌≡◌, refl, ap, List,
  ◌∷◌, Text, take,
}
use hspp.Outcome.{ok}
use hspp.Calls.{
  Program, ret, Environment, Trace, run, ◌>>=◌, ◌>>◌, ask, tell, check, ask_pointer, ask_fd,
  is_negative,
}
use hspp.Calls.Triple.{
  Triple, triple_ret, triple_bind, triple_ask, triple_tell, triple_check, triple_pointer, triple_fd,
}
use hspp.Dpdk.{
  DpdkCall, EthConf, txq_flags, malloc, dev_configure, rx_queue_setup, tx_queue_setup, dev_start,
  promiscuous_enable, dev_stop, macaddr_get, mempool_free, ring_free, open_tun, socket_inet,
  tunsetiff, siocsifhwaddr, siocgifflags, ifr_flags, siocsifflags, close,
}
use hspp.Yak.Setup.{
  PortHandle, tap_alloc, tap_free, rx_queues, tx_queues, port_configure, port_alloc, port_free,
  port_conf, rx_ring_size, tx_ring_size, ifnamsiz, iff_up,
}
use hspp.Yak.Setup.Resources.{
  Resource, block, pool, ring, descriptor, device, after_call, held_after, opened, with_port,
  same_refl, without_first, closed,
}

module _ (start : List Resource) where
  abbrev Leaves : {A : Type 0} → List Resource → Program DpdkCall A → (A → List Resource) → Type 0
  Leaves s p left = Triple after_call start s p (λ a t. t ≡ left a)

  module _ (socket_id : ℕ → ℕ) {s : List Resource} where
    rx_queues-Leaves : (n q port mp : ℕ) → Leaves s (rx_queues socket_id n q port mp) (λ _. s)
    unfolding rx_queues
    rx_queues-Leaves zero q port mp = triple_ret refl
    rx_queues-Leaves (suc n) q port mp =
        triple_bind (check (rx_queue_setup port q rx_ring_size (socket_id port) mp)) {left = λ _. s}
          (triple_check _ (λ n _. refl)) (λ _. rx_queues-Leaves n (q + 1) port mp)

    tx_queues-Leaves : (n q port : ℕ) → Leaves s (tx_queues socket_id n q port) (λ _. s)
    unfolding tx_queues
    tx_queues-Leaves zero q port = triple_ret refl
    tx_queues-Leaves (suc n) q port =
        triple_bind (check (tx_queue_setup port q tx_ring_size (socket_id port) txq_flags))
          {left = λ _. s} (triple_check _ (λ n _. refl)) (λ _. tx_queues-Leaves n (q + 1) port)

    port_configure-Leaves :
        (port nrxq ntxq : ℕ) (conf : EthConf) (mp : ℕ)
        → Leaves s (port_configure socket_id port nrxq ntxq conf mp) (λ _. device port ∷ s)
    unfolding port_configure
    port_configure-Leaves port nrxq ntxq conf mp =
        triple_bind (check (dev_configure port nrxq ntxq conf)) {left = λ _. s}
          (triple_check _ (λ n _. refl))
          (λ _.
            triple_bind (rx_queues socket_id nrxq 0 port mp) {left = λ _. s}
              (rx_queues-Leaves nrxq 0 port mp)
              (λ _.
                triple_bind (tx_queues socket_id ntxq 0 port) {left = λ _. s}
                  (tx_queues-Leaves ntxq 0 port)
                  (λ _.
                    triple_bind (check (dev_start port)) {left = λ _. device port ∷ s}
                      (triple_check _ (λ n granted. rw granted refl))
                      (λ _. triple_tell (promiscuous_enable port) (λ n. refl)))))

    tap_alloc-Leaves :
        (ifname : Text) (hwaddr : ℕ) → Leaves s (tap_alloc ifname hwaddr) (λ fd. opened fd s)
    unfolding tap_alloc
    tap_alloc-Leaves ifname hwaddr =
        triple_bind (ask_fd open_tun) {left = λ fd. opened fd s} (triple_fd _ (λ n _. refl)) (λ fd.
          triple_bind (check (tunsetiff fd (take ifnamsiz ifname))) {left = λ _. opened fd s}
            (triple_check _ (λ n _. refl))
            (λ _.
              triple_bind (check (siocsifhwaddr fd hwaddr)) {left = λ _. opened fd s}
                (triple_check _ (λ n _. refl))
                (λ _.
                  triple_bind (ask socket_inet) {left = λ sock. opened sock (opened fd s)}
                    (triple_ask _ (λ n. refl)) (λ sock. with_socket fd sock))))
      where
        with_socket :
            (fd sock : ℕ)
            → Leaves
                (opened sock (opened fd s))
                (do
                  let name = take 15 ifname
                  check (siocgifflags sock name)
                  flags ← ask (ifr_flags sock)
                  check (siocsifflags sock name (bit_or flags iff_up))
                  tell (close sock)
                  ret fd)
                (λ result. opened result s)
        with_socket fd sock =
            triple_bind (check (siocgifflags sock (take 15 ifname)))
              {left = λ _. opened sock (opened fd s)} (triple_check _ (λ n _. refl))
              (λ _.
                triple_bind (ask (ifr_flags sock)) {left = λ _. opened sock (opened fd s)}
                  (triple_ask _ (λ n. refl))
                  (λ flags.
                    triple_bind (check (siocsifflags sock (take 15 ifname) (bit_or flags iff_up)))
                      {left = λ _. opened sock (opened fd s)} (triple_check _ (λ n _. refl))
                      (λ _.
                        triple_bind (tell (close sock)) {left = λ _. opened fd s}
                          (triple_tell (close sock) (λ n. closed sock (opened fd s)))
                          (λ _. triple_ret refl))))

  module _ (socket_id : ℕ → ℕ) {s : List Resource} where
    port_alloc-Leaves :
        (dpdk_pid nrxq ntxq : ℕ) (ifname : Text)
        → Leaves s (port_alloc socket_id dpdk_pid nrxq ntxq ifname) (λ h. with_port h s)
    unfolding port_alloc
    port_alloc-Leaves dpdk_pid nrxq ntxq ifname =
        triple_bind (ask_pointer malloc) {left = λ port. block port ∷ s}
          (triple_pointer _ (λ n found. rw found refl))
          (λ port.
            triple_bind (ask_pointer _) {left = λ mp. pool mp ∷ block port ∷ s}
              (triple_pointer _ (λ n found. rw found refl))
              (λ mp.
                triple_bind (port_configure socket_id (dpdk_pid % 2 ^ 8) nrxq ntxq port_conf mp)
                  {left = λ _. device (dpdk_pid % 2 ^ 8) ∷ pool mp ∷ block port ∷ s}
                  (port_configure-Leaves socket_id (dpdk_pid % 2 ^ 8) nrxq ntxq port_conf mp)
                  (λ _.
                    triple_bind (ask (macaddr_get dpdk_pid))
                      {left = λ _. device (dpdk_pid % 2 ^ 8) ∷ pool mp ∷ block port ∷ s}
                      (triple_ask _ (λ n. refl))
                      (λ hwaddr.
                        triple_bind (tap_alloc ifname hwaddr)
                          {left = λ fd.
                            opened fd (device (dpdk_pid % 2 ^ 8) ∷ pool mp ∷ block port ∷ s)}
                          (tap_alloc-Leaves socket_id ifname hwaddr)
                          (λ fd.
                            triple_bind (ask_pointer _)
                              {left = λ r.
                                ring r
                                ∷ opened fd (device (dpdk_pid % 2 ^ 8) ∷ pool mp ∷ block port ∷ s)}
                              (triple_pointer _ (λ n found. rw found refl))
                              (λ r. triple_ret refl))))))

    -- `port_free` gives back all but the block.
    port_free-Leaves :
        (h : PortHandle)
        → h.dpdk_pid < 2 ^ 8
        → Leaves (with_port h s) (port_free socket_id h) (λ _. block h.address ∷ s)
    unfolding port_free tap_free
    port_free-Leaves h small =
        triple_bind (tell (close h.hostif_fd))
          {left = λ _.
            ring h.from_hostif ∷ device (h.dpdk_pid % 2 ^ 8) ∷ pool h.mp ∷ block h.address ∷ s}
          (triple_tell _ (λ n. off n))
          (λ _.
            triple_bind (tell (dev_stop h.dpdk_pid))
              {left = λ _. ring h.from_hostif ∷ pool h.mp ∷ block h.address ∷ s}
              (triple_tell _ (λ n. rw (same_device) refl))
              (λ _.
                triple_bind (tell (mempool_free h.mp))
                  {left = λ _. ring h.from_hostif ∷ block h.address ∷ s}
                  (triple_tell _ (λ n. rw (same_refl (pool h.mp)) refl))
                  (λ _.
                    triple_tell (ring_free h.from_hostif)
                      (λ n. without_first (ring h.from_hostif) (block h.address ∷ s)))))
      where
        same_device : (h.dpdk_pid == h.dpdk_pid % 2 ^ 8) ≡ true
        same_device = ground arith

        off :
            (n : ℕ)
            → after_call (with_port h s) (close h.hostif_fd) n
              ≡ ring h.from_hostif ∷ device (h.dpdk_pid % 2 ^ 8) ∷ pool h.mp ∷ block h.address ∷ s
        off n = elim (Bool-cases (is_negative h.hostif_fd)) [
          | inl e ↦ rw e refl
          | inr e ↦ rw e (
              ap (λ l. ring h.from_hostif ∷ l)
                (without_first (descriptor h.hostif_fd)
                  (device (h.dpdk_pid % 2 ^ 8) ∷ pool h.mp ∷ block h.address ∷ s)))
        ]

-- Whatever the calls return and whatever was held before: if `port_alloc` returns a port whose
-- identifier is less than 2 ^ 8, the process holds its block, its pool, its device, which runs, its host interface and its ring besides, and no
-- other descriptor; `port_free` then gives back all of them but the block.
pub held-port_free :
    (socket_id : ℕ → ℕ) (env : Environment DpdkCall) (past : Trace DpdkCall) (start : List Resource)
    (dpdk_pid nrxq ntxq : ℕ) (ifname : Text) (h : PortHandle)
    → h.dpdk_pid < 2 ^ 8
    → (run env past (port_alloc socket_id dpdk_pid nrxq ntxq ifname)).0 ≡ ok h
    → (held_after start (run env past (port_alloc socket_id dpdk_pid nrxq ntxq ifname)).1
        ≡ with_port h (held_after start past))
      × (held_after start
            (run env
              (run env past (port_alloc socket_id dpdk_pid nrxq ntxq ifname)).1
              (port_free socket_id h)).1
          ≡ block h.address ∷ held_after start past)
unfolding port_free tap_free
held-port_free socket_id env past start dpdk_pid nrxq ntxq ifname h small returns =
    let held =
      (port_alloc-Leaves start socket_id dpdk_pid nrxq ntxq ifname).holds env past h refl returns in
    (
      held,
      (port_free-Leaves start socket_id h small).holds env
          (run env past (port_alloc socket_id dpdk_pid nrxq ntxq ifname)).1 tt held refl,
    )
