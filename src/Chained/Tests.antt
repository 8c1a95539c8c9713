-- ===== src/Chained/Tests.antt =====
-- A run in which every call succeeds and the pool hands out the buffers 4096, 8192 and so on.
use hspp.Prelude.{ℕ, suc, ◌*◌, ◌≡◌, refl, arith, List, [], ◌∷◌, length, take}
use hspp.Outcome.{ok}
use hspp.Calls.{Environment, run}
use hspp.Dpdk.{DpdkCall, mbuf_alloc, tx_burst}
use hspp.Chained.{rte_pktmbuf_alloc_set, chain_and_send, send_three}
use hspp.Chained.Ledger.{bad_frees, allocated, AllDifferent}
use hspp.Chained.Ownership.{bad_frees-send_three}

abbrev grants : Environment DpdkCall
grants past (mbuf_alloc mp) = 4096 * suc (length past)
grants past (tx_burst port m) = 1
grants past _ = 0

abbrev bytes : List ℕ
bytes = 1 ∷ 2 ∷ []

sends_three : (run grants [] (send_three 7 bytes bytes bytes)).0 ≡ ok 0
unfolding send_three rte_pktmbuf_alloc_set chain_and_send
sends_three = refl

different : AllDifferent (allocated (run grants [] (send_three 7 bytes bytes bytes)).1)
unfolding send_three rte_pktmbuf_alloc_set chain_and_send
different = ground arith

bad_frees-send_three_example :
    bad_frees [] (run grants [] (send_three 7 bytes bytes bytes)).1
    ≡ take 2 (allocated (run grants [] (send_three 7 bytes bytes bytes)).1)
bad_frees-send_three_example =
    bad_frees-send_three grants 7 bytes bytes bytes (λ t a b. refl) sends_three different
