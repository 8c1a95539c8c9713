-- ===== src/Reassembly.antt =====
-- The example ip_reassembly (ip_reassembly/main.c and ip_reassembly/pcapw.h): seven packets of a
-- capture are copied into buffers, and fragments of IPv4 packets go to the fragment table of DPDK.
-- The globals `mp` and `tbl` are arguments, `dr` is left out. `data_at` stands for the bytes of the
-- capture at a pointer that `pcap_next` gives, `room` for what the data room of a buffer holds, and
-- `is_fragmented` for `rte_ipv4_frag_pkt_is_fragmented` on the header at an offset of the buffer.
pub mod Held
mod Tests
use hspp.Prelude.{
  ℕ, zero, suc, ◌+◌, ◌-◌, ◌*◌, ◌/◌, ◌%◌, ◌^◌, ◌==◌, ◌&&◌, ◌||◌, not, ltb, Bool, if◌then◌else◌, List,
  ◌++◌, codes, take, drop, length,
}
use hspp.Outcome.{Outcome, ok, stop, bad_access, null_access}
use hspp.Memory.{Memory, load16}
use hspp.Calls.{Program, ret, halt, ◌>>=◌, ◌>>◌, ask, tell, check, ask_pointer, lift}
use hspp.Yak.{htons}
use hspp.Dpdk.{
  DpdkCall, eal_init, pool_create, mbuf_alloc, memcpy, set_pkt_len, set_data_len, set_l2_len,
  set_l3_len, now, tsc_hz, frag_table_create, frag_reassemble, frag_table_destroy, mbuf_dump,
  mempool_free, pcap_open_offline, pcap_next, pcap_len, pcap_close,
}

unfoldable pub pcapw_open_offline : List ℕ → Program DpdkCall ℕ
pcapw_open_offline filepath = ask_pointer (pcap_open_offline filepath)

-- The result, and what `bufptr` points to afterwards.
unfoldable pub pcapw_recv : ℕ → Program DpdkCall (ℕ × ℕ)
pcapw_recv handle = do ptr ← ask (pcap_next handle); len ← ask (pcap_len handle); ret (len, ptr)

unfoldable pub pcapw_close : ℕ → Program DpdkCall (Unit {0})
pcapw_close handle = tell (pcap_close handle)

-- `rte_memcpy` of `len` bytes at `ptr` into the room of `m`: what the room holds afterwards.
unfoldable pub copy_in : ℕ → Memory → ℕ → Memory → ℕ → Outcome Memory
copy_in m room ptr bytes len =
    if (m == 0) || ((ptr == 0) && not (len == 0))
    then stop null_access
    else if ltb (length bytes) len || ltb (length room) len
    then stop bad_access
    else ok (take len bytes ++ drop len room)

module _ (data_at room : ℕ → Memory) (is_fragmented : Memory → ℕ → Bool) where
  -- The lines under the test of `rte_ipv4_frag_pkt_is_fragmented`.
  unfoldable pub reassemble : ℕ → ℕ → Program DpdkCall (Unit {0})
  reassemble tbl m = do
    tell (set_l2_len m 14)
    tell (set_l3_len m 20)
    tms ← ask now
    mo ← ask (frag_reassemble tbl m tms)
    if mo == 0 then ret tt else tell (mbuf_dump mo)

  unfoldable pub recvpkt : ℕ → ℕ → ℕ → Program DpdkCall (Unit {0})
  unfolding pcapw_recv reassemble
  recvpkt mp tbl ph = do
    (len, ptr) ← pcapw_recv ph
    m ← ask (mbuf_alloc mp)
    mem ← lift (copy_in m (room m) ptr (data_at ptr) len)
    tell (memcpy m (take len (data_at ptr)))
    tell (set_pkt_len m (len % 2 ^ 32))
    tell (set_data_len m (len % 2 ^ 16))
    ether_type ← lift (load16 mem 12)
    if ether_type == htons 0x0800
        then (if is_fragmented mem 14 then reassemble tbl m else ret tt)
        else ret tt

  -- A call of `recvpkt` for each of the lines that are left.
  unfoldable pub recv_packets : ℕ → ℕ → ℕ → ℕ → Program DpdkCall (Unit {0})
  recv_packets mp tbl ph zero = ret tt
  recv_packets mp tbl ph (suc n) = do recvpkt mp tbl ph; recv_packets mp tbl ph n

  unfoldable pub main : Program DpdkCall ℕ
  unfolding recv_packets pcapw_open_offline pcapw_close
  main = do
    check eal_init
    mp ← ask_pointer (pool_create (codes "mp") 8192 0 0)
    hz ← ask tsc_hz
    let frag_cycles = (hz + 1000 - 1) % 2 ^ 64 / 1000 * 3600000 % 2 ^ 64
    tbl ← ask_pointer (frag_table_create 0x1000 16 0x1000 frag_cycles)
    ph ← pcapw_open_offline (codes "in.pcap")
    recv_packets mp tbl ph 7
    tell (frag_table_destroy tbl)
    tell (mempool_free mp)
    pcapw_close ph
    ret 0
