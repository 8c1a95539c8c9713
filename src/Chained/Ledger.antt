-- ===== src/Chained/Ledger.antt =====
-- Who owns the buffers, by what DPDK documents of its calls: `rte_pktmbuf_alloc` gives a packet of
-- one buffer; `rte_pktmbuf_chain` appends one packet to another and `rte_pktmbuf_linearize` frees
-- all buffers of a packet but its head, where they return 0; `rte_eth_tx_burst` takes the packet if
-- it returns 1; and `rte_pktmbuf_free` is for a packet, and takes it.
use hspp.Prelude.{
  ℕ, ◌≡◌, ◌≢◌, refl, ap, ◌∙◌, append_assoc, sym, Bool, false, ◌==◌, if◌then◌else◌, List, [], ◌∷◌,
  ◌++◌, take,
}
use hspp.Calls.{Trace}
use hspp.Calls.Replay.{replay}
use hspp.Dpdk.{DpdkCall, mbuf_alloc, chain, linearize, tx_burst, mbuf_free}

-- The packets that the program owns, each as the list of its buffers.
abbrev pub Packets : Type 0
Packets = List (List ℕ)

abbrev pub is_packet : ℕ → List ℕ → Bool
is_packet m [] = false
is_packet m (b ∷ bs) = m == b

abbrev pub packet : ℕ → Packets → List ℕ
packet m [] = []
packet m (p ∷ ps) = let other = packet m ps in if is_packet m p then p else other

abbrev pub without : ℕ → Packets → Packets
without m [] = []
without m (p ∷ ps) = let rest = without m ps in if is_packet m p then ps else p ∷ rest

abbrev pub after_call : Packets → DpdkCall → ℕ → Packets
after_call own (mbuf_alloc mp) p = if p == 0 then own else (p ∷ []) ∷ own
after_call own (chain a b) n =
    if n == 0 then (packet a own ++ packet b own) ∷ without a (without b own) else own
after_call own (linearize a) n = if n == 0 then take 1 (packet a own) ∷ without a own else own
after_call own (tx_burst port m) n = if n == 1 then without m own else own
after_call own (mbuf_free m) n = without m own
after_call own _ n = own

-- The buffers that are freed and are no packet of the program at the time.
abbrev pub bad_free : Packets → DpdkCall → List ℕ
bad_free own (mbuf_free m) = if is_packet m (packet m own) then [] else m ∷ []
bad_free own _ = []

abbrev pub bad_frees : Packets → Trace DpdkCall → List ℕ
bad_frees own [] = []
bad_frees own ((c, n) ∷ t) = bad_free own c ++ bad_frees (after_call own c n) t

abbrev pub owned : Packets → Trace DpdkCall → Packets
owned = replay after_call

-- The buffers that are handed out.
abbrev pub handed_out : DpdkCall → ℕ → List ℕ
handed_out (mbuf_alloc mp) p = p ∷ []
handed_out _ n = []

abbrev pub allocated : Trace DpdkCall → List ℕ
allocated [] = []
allocated ((c, n) ∷ t) = handed_out c n ++ allocated t

abbrev pub IsNew : ℕ → List ℕ → Type 0
IsNew m [] = Unit
IsNew m (b ∷ bs) = (m ≢ b) × IsNew m bs

abbrev pub AllDifferent : List ℕ → Type 0
AllDifferent [] = Unit
AllDifferent (b ∷ bs) = IsNew b bs × AllDifferent bs

pub bad_frees-append :
    (own : Packets) (t u : Trace DpdkCall)
    → bad_frees own (t ++ u) ≡ bad_frees own t ++ bad_frees (owned own t) u
bad_frees-append own [] u = refl
bad_frees-append own ((c, n) ∷ t) u =
    ap (λ f. bad_free own c ++ f) (bad_frees-append (after_call own c n) t u)
    ∙ sym (append_assoc (bad_free own c) _ _)

pub allocated-append : (t u : Trace DpdkCall) → allocated (t ++ u) ≡ allocated t ++ allocated u
allocated-append [] u = refl
allocated-append ((c, n) ∷ t) u =
    ap (λ f. handed_out c n ++ f) (allocated-append t u) ∙ sym (append_assoc (handed_out c n) _ _)
