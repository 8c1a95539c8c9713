-- ===== src/Reassembly/Tests.antt =====
-- A capture whose packets are all the same: an IPv4 packet, which is a fragment or is not.
use hspp.Prelude.{
  ℕ, ◌+◌, ◌≡◌, refl, Bool, true, false, [], ◌∷◌, replicate, length, ◌++◌, if◌then◌else◌,
}
use hspp.Outcome.{ok}
use hspp.Memory.{Memory, load8, load16}
use hspp.Calls.{Environment, run}
use hspp.Dpdk.{
  DpdkCall, pool_create, mbuf_alloc, frag_table_create, pcap_open_offline, pcap_next, pcap_len,
}
use hspp.Reassembly.{
  copy_in, pcapw_open_offline, pcapw_recv, pcapw_close, reassemble, recvpkt, recv_packets, main,
}
use hspp.Reassembly.Held.{held_after, held-recvpkt, is_fragment, whole, m}

-- The table keeps every fragment.
abbrev grants : Environment DpdkCall
grants past (pool_create name n cache socket) = 1
grants past (frag_table_create flows entries max cycles) = 2
grants past (pcap_open_offline name) = 3
grants past (pcap_next ph) = 4096
grants past (pcap_len ph) = 16
grants past (mbuf_alloc mp) = 8192 + length past
grants past _ = 0

abbrev packets : ℕ → Memory
packets ptr = replicate 12 0 ++ 8 ∷ 0 ∷ 69 ∷ 0 ∷ []

abbrev rooms : ℕ → Memory
rooms m = replicate 20 0

abbrev fragments : Memory → ℕ → Bool
fragments mem h = true

receives : (run grants [] (recvpkt packets rooms fragments 1 2 3)).0 ≡ ok tt
unfolding recvpkt pcapw_recv reassemble copy_in load16 load8
receives = refl

is_one : is_fragment packets rooms fragments grants 1 2 3 [] ≡ true
unfolding load16 load8
is_one = refl

held-recvpkt_example :
    held_after [] (run grants [] (recvpkt packets rooms fragments 1 2 3)).1
    ≡ (if is_fragment packets rooms fragments grants 1 2 3 []
        then whole packets rooms fragments grants 1 2 3 []
        else m packets rooms fragments grants 1 2 3 [] ∷ [])
      ++ []
held-recvpkt_example = held-recvpkt packets rooms fragments grants 1 2 3 [] receives

abbrev whole_packets : Memory → ℕ → Bool
whole_packets mem h = false

main_returns : (run grants [] (main packets rooms whole_packets)).0 ≡ ok 0
unfolding main pcapw_open_offline pcapw_close recv_packets recvpkt pcapw_recv reassemble copy_in
    load16 load8
main_returns = refl
