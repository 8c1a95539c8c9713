-- ===== src/Yak.antt =====
-- The forwarder yak (yak/main.c, yak/tap.c): what its two threads do with the packet buffers that
-- DPDK hands to them. `Mbuf` is any type; `data_of` stands for `rte_pktmbuf_mtod` and gives the bytes
-- of a buffer. What DPDK and the system calls return are inputs, what they are told are events.
-- The text printed to stdout, which includes the dump of DPDK, is left out.
pub mod Ownership
pub mod TapRing
pub mod System
pub mod Setup
mod Tests
use hspp.Prelude.{
  ℕ, ◌+◌, ◌*◌, ◌/◌, ◌%◌, ◌^◌, Bool, true, false, leb, ◌==◌, ◌||◌, if◌then◌else◌, List, [], ◌∷◌,
  ◌++◌, length, Option, none, some,
}
use hspp.Outcome.{Outcome, ok, stop, exit_one, null_access, ◌>>=◌}
use hspp.Memory.{Memory, load16}

-- What the threads tell DPDK and the kernel: a frame for the host interface `fd`, a frame that
-- the port `pid` took for transmission, a buffer given back to its pool, a buffer in the ring.
pub data Event (Mbuf : Type 0) : Type 0 where
  wrote : ℕ → Mbuf → Event Mbuf
  transmitted : ℕ → Mbuf → Event Mbuf
  freed : Mbuf → Event Mbuf
  enqueued : Mbuf → Event Mbuf

-- The fields of `port_t` that the threads use.
pub record Port : Type 0 where
  pub hostif_fd : ℕ
  pub dpdk_pid : ℕ

-- What the calls for one port return in one pass of `fwd_main`: `rte_ring_empty`, the buffers of
-- `rte_ring_dequeue_burst`, `rte_eth_tx_burst` for each of them, the buffers of `rte_eth_rx_burst`,
-- and `write` for each of them.
pub record FwdInput (Mbuf : Type 0) : Type 0 where
  pub ring_empty : ℕ
  pub dequeued : List Mbuf
  pub tx_burst : Mbuf → ℕ
  pub received : List Mbuf
  pub write_len : Mbuf → ℕ

-- What the calls for one port return in one pass of `tap_main`: `rte_pktmbuf_alloc` (`none` is
-- NULL), `read`, and `rte_ring_enqueue`.
pub record TapInput (Mbuf : Type 0) : Type 0 where
  pub alloc : Option Mbuf
  pub read_len : ℕ
  pub ring_enqueue : ℕ

-- A `ssize_t` is a 64-bit pattern.
abbrev pub is_error : ℕ → Bool
is_error n = leb (2 ^ 63) n

-- `htons` on a little endian machine.
abbrev pub htons : ℕ → ℕ
htons v = v % 2 ^ 8 * 2 ^ 8 + v / 2 ^ 8 % 2 ^ 8

abbrev pub ether_type_offset : ℕ
ether_type_offset = 12

-- The case labels of `port_input`.
abbrev pub is_forwarded : ℕ → Bool
is_forwarded type = type == 0x86dd || type == 0x0800 || type == 0x0806 || type == 0x8100

module _ {Mbuf : Type 0} where
  unfoldable pub tap_send : ℕ → Mbuf → ℕ → Outcome (List (Event Mbuf))
  tap_send fd m len = if is_error len then stop exit_one else ok (wrote fd m ∷ freed m ∷ [])

  -- The buffer and the length that it gets.
  unfoldable pub tap_recv : Option Mbuf → ℕ → Outcome (Mbuf × ℕ)
  tap_recv none len = stop null_access
  tap_recv (some m) len = if is_error len then stop exit_one else ok (m, len)

  -- The buffers from the ring, one `rte_eth_tx_burst` for each.
  unfoldable pub fwd_transmit : ℕ → (Mbuf → ℕ) → List Mbuf → List (Event Mbuf)
  fwd_transmit pid tx_burst [] = []
  fwd_transmit pid tx_burst (m ∷ ms) =
      (if tx_burst m == 1 then transmitted pid m else freed m) ∷ fwd_transmit pid tx_burst ms

  unfoldable pub tap_port : TapInput Mbuf → Outcome (List (Event Mbuf))
  tap_port input = do
    (m, len) ← tap_recv input.alloc input.read_len
    ok (if input.ring_enqueue == 0 then enqueued m ∷ [] else [])

  -- One pass over the ports, and any number of passes one after another.
  unfoldable pub tap_main : List (TapInput Mbuf) → Outcome (List (Event Mbuf))
  tap_main [] = ok []
  tap_main (input ∷ inputs) = do
    events ← tap_port input
    later ← tap_main inputs
    ok (events ++ later)

module _ {Mbuf : Type 0} (data_of : Mbuf → Memory) where
  unfoldable pub port_input : Mbuf → Port → ℕ → Outcome (List (Event Mbuf))
  port_input m pp len = do
    ether_type ← load16 (data_of m) ether_type_offset
    if is_forwarded (htons ether_type) then tap_send pp.hostif_fd m len else ok (freed m ∷ [])

  unfoldable pub port_inputs : Port → (Mbuf → ℕ) → List Mbuf → Outcome (List (Event Mbuf))
  port_inputs pp write_len [] = ok []
  port_inputs pp write_len (m ∷ ms) = do
    events ← port_input m pp (write_len m)
    later ← port_inputs pp write_len ms
    ok (events ++ later)

  -- The body of the loop over the ports.
  unfoldable pub fwd_port : Port → FwdInput Mbuf → Outcome (List (Event Mbuf))
  fwd_port pp input = do
    let sent =
        (if input.ring_empty == 0
          then fwd_transmit pp.dpdk_pid input.tx_burst input.dequeued
          else [])
    if length input.received == 0
        then ok sent
        else (do passed ← port_inputs pp input.write_len input.received; ok (sent ++ passed))

  -- The rounds of the loops: each is a port with what its calls return.
  unfoldable pub fwd_main : List (Port × FwdInput Mbuf) → Outcome (List (Event Mbuf))
  fwd_main [] = ok []
  fwd_main ((pp, input) ∷ rounds) = do
    events ← fwd_port pp input
    later ← fwd_main rounds
    ok (events ++ later)
