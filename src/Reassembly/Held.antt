-- ===== src/Reassembly/Held.antt =====
-- Which buffers the program holds after the calls of a trace: `rte_pktmbuf_alloc` gives one,
-- `rte_ipv4_frag_reassemble_packet` takes the fragment and may give a whole packet, and
-- `rte_pktmbuf_free` takes one.
use hspp.Prelude.{
  ℕ, arith, ◌%◌, ◌^◌, ◌≡◌, sym, ap, ◌∙◌, ◌⊎◌, inl, inr, Bool, true, false, ◌==◌, ◌&&◌,
  if◌then◌else◌, List, [], ◌∷◌, ◌++◌, take, drop, Bool-cases,
}
use hspp.Outcome.{Outcome-cases, Outcome, ok, stop}
use hspp.Memory.{Memory, load16}
use hspp.Calls.{Program, Environment, Trace, run, ret, ◌>>=◌, ◌>>◌, tell, lift}
use hspp.Calls.Replay.{without, replay, replay-made}
use hspp.Calls.Bind.{halted}
use hspp.Calls.Made.{made}
use hspp.Yak.{htons}
use hspp.Dpdk.{
  DpdkCall, mbuf_alloc, mbuf_free, memcpy, set_pkt_len, set_data_len, set_l2_len, set_l3_len, now,
  frag_reassemble, mbuf_dump, pcap_next, pcap_len,
}
use hspp.Reassembly.{copy_in, pcapw_recv, reassemble, recvpkt}

abbrev pub after_call : List ℕ → DpdkCall → ℕ → List ℕ
after_call held (mbuf_alloc mp) p = if p == 0 then held else p ∷ held
after_call held (frag_reassemble tbl m tms) mo =
    if mo == 0 then without m held else mo ∷ without m held
after_call held (mbuf_free m) n = without m held
after_call held _ n = held

abbrev pub held_after : List ℕ → Trace DpdkCall → List ℕ
held_after = replay after_call

copy_in-ok :
    (m : ℕ) (room : Memory) (ptr : ℕ) (bytes : Memory) (len : ℕ) {mem : Memory}
    → copy_in m room ptr bytes len ≡ ok mem
    → ((m == 0) ≡ false) × (mem ≡ take len bytes ++ drop len room)
unfolding copy_in
copy_in-ok m room ptr bytes len e = ground arith

held-table :
    (held : List ℕ) (mp tbl m tms mo : ℕ)
    → (m == 0) ≡ false
    → after_call (after_call held (mbuf_alloc mp) m) (frag_reassemble tbl m tms) mo
      ≡ (if mo == 0 then [] else mo ∷ []) ++ held
held-table held mp tbl m tms mo some = ground arith

module _ (data_at room : ℕ → Memory) (is_fragmented : Memory → ℕ → Bool)
    (env : Environment DpdkCall) (mp tbl ph : ℕ) (past : Trace DpdkCall) where
  -- What the first calls of `recvpkt` return: the packet, its length, and the buffer.
  abbrev pub ptr : ℕ
  ptr = env past (pcap_next ph)

  abbrev pub len : ℕ
  len = env (made env past (pcap_next ph ∷ [])) (pcap_len ph)

  abbrev pub m : ℕ
  m = env (made env past (pcap_next ph ∷ pcap_len ph ∷ [])) (mbuf_alloc mp)

  abbrev pub received : List DpdkCall
  received =
      pcap_next ph
      ∷ pcap_len ph
      ∷ mbuf_alloc mp
      ∷ memcpy m (take len (data_at ptr))
      ∷ set_pkt_len m (len % 2 ^ 32)
      ∷ set_data_len m (len % 2 ^ 16)
      ∷ []

  abbrev pub tms : ℕ
  tms = env (made env past (received ++ set_l2_len m 14 ∷ set_l3_len m 20 ∷ [])) now

  abbrev pub handed : List DpdkCall
  handed = received ++ set_l2_len m 14 ∷ set_l3_len m 20 ∷ now ∷ frag_reassemble tbl m tms ∷ []

  abbrev pub mo : ℕ
  mo =
      env (made env past (received ++ set_l2_len m 14 ∷ set_l3_len m 20 ∷ now ∷ []))
        (frag_reassemble tbl m tms)

  -- The buffer with the packet in it, and whether it holds a fragment of an IPv4 packet.
  abbrev pub contents : Memory
  contents = take len (data_at ptr) ++ drop len (room m)

  abbrev pub is_ipv4 : Outcome ℕ → Bool
  is_ipv4 (ok ether_type) = ether_type == htons 0x0800
  is_ipv4 (stop s) = false

  abbrev pub is_fragment : Bool
  is_fragment = is_ipv4 (load16 contents 12) && is_fragmented contents 14

  run-reassemble :
      ((mo == 0) ≡ true)
        × (run env (made env past received) (reassemble data_at room is_fragmented tbl m)
            ≡ (ok tt, made env past handed))
      ⊎ ((mo == 0) ≡ false)
        × (run env (made env past received) (reassemble data_at room is_fragmented tbl m)
            ≡ (ok tt, made env past (handed ++ mbuf_dump mo ∷ [])))
  unfolding reassemble
  run-reassemble = elim (Bool-cases (mo == 0)) [
    | inl null ↦ inl (null, after_handed null)
    | inr whole ↦ inr (whole, after_handed whole)
  ]
    where
      after_handed :
          {b : Bool}
          → (mo == 0) ≡ b
          → run env (made env past received) (reassemble data_at room is_fragmented tbl m)
            ≡ run env (made env past handed) (if b then ret tt else tell (mbuf_dump mo))
      after_handed e =
          ap
            (λ (b : Bool).
              run env (made env past handed) (if b then ret tt else tell (mbuf_dump mo)))
            e

  abbrev packet : ℕ → Program DpdkCall (Unit {0})
  packet ether_type =
      if ether_type == htons 0x0800
      then (if is_fragmented contents 14
          then reassemble data_at room is_fragmented tbl m
          else ret tt)
      else ret tt

  -- A run of `recvpkt` that returns copies the packet, reads its type, and goes on with it.
  run-received :
      (run env past (recvpkt data_at room is_fragmented mp tbl ph)).0 ≡ ok tt
      → (ether_type : ℕ) × ((m == 0) ≡ false)
        × (load16 contents 12 ≡ ok ether_type)
        × (run env past (recvpkt data_at room is_fragmented mp tbl ph)
            ≡ run env (made env past received) (packet ether_type))
  unfolding recvpkt pcapw_recv
  run-received e = elim (Outcome-cases (copy_in m (room m) ptr (data_at ptr) len)) [
    | inr (s, failed) ↦ halted e (after_copy failed)
    | inl (mem, copied) ↦
        let (some, same) = copy_in-ok m (room m) ptr (data_at ptr) len copied in
        let r = after_copy copied ∙ ap (λ x. run env (made env past received) (typed x)) same in
        elim (Outcome-cases (load16 contents 12)) [
          | inr (s, failed) ↦ halted e (r ∙ after_load failed)
          | inl (ether_type, read) ↦ (ether_type, some, read, r ∙ after_load read)
        ]
  ]
    where
      typed : Memory → Program DpdkCall (Unit {0})
      typed mem = do
        ether_type ← lift (load16 mem 12)
        if ether_type == htons 0x0800
            then (if is_fragmented mem 14
                then reassemble data_at room is_fragmented tbl m
                else ret tt)
            else ret tt

      filled : Memory → Program DpdkCall (Unit {0})
      filled mem = do
        tell (memcpy m (take len (data_at ptr)))
        tell (set_pkt_len m (len % 2 ^ 32))
        tell (set_data_len m (len % 2 ^ 16))
        typed mem

      after_copy :
          {o : Outcome Memory}
          → copy_in m (room m) ptr (data_at ptr) len ≡ o
          → run env past (recvpkt data_at room is_fragmented mp tbl ph)
            ≡ run env
                (made env past (pcap_next ph ∷ pcap_len ph ∷ mbuf_alloc mp ∷ []))
                (lift o >>= filled)
      after_copy c =
          ap
            (λ o.
              run env (made env past (pcap_next ph ∷ pcap_len ph ∷ mbuf_alloc mp ∷ []))
                (lift o >>= filled))
            c

      after_load :
          {o : Outcome ℕ}
          → load16 contents 12 ≡ o
          → run env (made env past received) (typed contents)
            ≡ run env (made env past received) (lift o >>= packet)
      after_load c = ap (λ o. run env (made env past received) (lift o >>= packet)) c

  held-received : (m == 0) ≡ false → held_after [] (made env past received) ≡ m ∷ held_after [] past
  held-received some =
      replay-made after_call env [] past received
      ∙ ap (λ (b : Bool). if b then held_after [] past else m ∷ held_after [] past) some

  -- The whole packet that the table gives, if any.
  abbrev pub whole : List ℕ
  whole = if mo == 0 then [] else mo ∷ []

  held-handed :
      (m == 0) ≡ false → held_after [] (made env past handed) ≡ whole ++ held_after [] past
  held-handed some =
      replay-made after_call env [] past handed
      ∙ held-table (held_after [] past) mp tbl m tms mo some

  held-dumped :
      (m == 0) ≡ false
      → held_after [] (made env past (handed ++ mbuf_dump mo ∷ [])) ≡ whole ++ held_after [] past
  held-dumped some =
      replay-made after_call env [] past (handed ++ mbuf_dump mo ∷ [])
      ∙ held-table (held_after [] past) mp tbl m tms mo some

  held-packet :
      (m == 0) ≡ false
      → (ipv4 fragmented : Bool)
      → held_after []
          (run env (made env past received) (
            if ipv4
            then (if fragmented then reassemble data_at room is_fragmented tbl m else ret tt)
            else ret tt)).1
        ≡ (if ipv4 && fragmented then whole else m ∷ []) ++ held_after [] past
  held-packet some false fragmented = held-received some
  held-packet some true false = held-received some
  held-packet some true true = elim run-reassemble [
    | inl (null, r) ↦ ap (λ x. held_after [] x.1) r ∙ held-handed some
    | inr (given, r) ↦ ap (λ x. held_after [] x.1) r ∙ held-dumped some
  ]

  -- If `recvpkt` returns: it holds one buffer more than before, the one that it copied the packet to;
  -- or the packet is a fragment, and it holds the whole packet that the table gave for it, if any.
  pub held-recvpkt :
      (run env past (recvpkt data_at room is_fragmented mp tbl ph)).0 ≡ ok tt
      → held_after [] (run env past (recvpkt data_at room is_fragmented mp tbl ph)).1
        ≡ (if is_fragment then whole else m ∷ []) ++ held_after [] past
  held-recvpkt e =
      let (ether_type, some, read, r) = run-received e in
      ap (λ x. held_after [] x.1) r
      ∙ held-packet some (ether_type == htons 0x0800) (is_fragmented contents 14)
      ∙ ap
          (λ o.
            (if is_ipv4 o && is_fragmented contents 14 then whole else m ∷ [])
            ++ held_after [] past)
          (sym read)
