-- ===== src/Yak/System.antt =====
-- The two threads of yak at the two ends of the ring of one port, interleaved in any order. A buffer
-- is named by its address. What DPDK documents of a ring and of a pool stands in the premises of the
-- steps: the ring takes a buffer exactly if there is room, gives the oldest ones first, and a
-- buffer that a pool or the port hands out is not held by anybody.
pub mod Rounds
pub mod Invariant
mod Tests
use hspp.Prelude.{
  ℕ, ◌+◌, ◌≤◌, ◌<◌, ◌≡◌, ◌==◌, false, if◌then◌else◌, List, [], ◌∷◌, ◌++◌, length, some,
}
use hspp.Outcome.{ok}
use hspp.Memory.{Memory}
use hspp.Yak.{Event, Port, FwdInput, TapInput, tap_port, fwd_port}
use hspp.Yak.Ownership.{released, from_ring}

-- How often `a` is in the list.
abbrev pub count : ℕ → List ℕ → ℕ
count a [] = 0
count a (b ∷ bs) = (if a == b then 1 else 0) + count a bs

-- `ringsize` of `port_alloc` is 8192; a ring of DPDK holds one less.
abbrev pub ring_capacity : ℕ
ring_capacity = 8191

-- The ring, and the history: what the pool and the port handed out, what was transmitted or given
-- back, what the ring refused, and what went into the ring and came out of it.
pub record System : Type 0 where
  pub ring : List ℕ
  pub acquired : List ℕ
  pub gone : List ℕ
  pub refused : List ℕ
  pub entered : List ℕ
  pub left : List ℕ

abbrev pub init : System
init = record { ring = []; acquired = []; gone = []; refused = []; entered = []; left = [] }

-- A list of buffers that nobody holds, each once.
abbrev pub AreFree : System → List ℕ → Type 0
AreFree s ms = (a : ℕ) → count a ms + count a s.acquired ≤ count a s.gone + 1

pub data Step (data_of : ℕ → Memory) (s : System) : System → Type 0 where
  -- A round of `tap_main`; the result of `rte_ring_enqueue` is 0 exactly if there is room.
  tap_enqueues :
      (input : TapInput ℕ) (m : ℕ) {es : List (Event ℕ)}
      → input.alloc ≡ some m
      → AreFree s (m ∷ [])
      → tap_port input ≡ ok es
      → input.ring_enqueue ≡ 0
      → length s.ring < ring_capacity
      → Step data_of s (record s {
        ring = s.ring ++ released es;
        acquired = m ∷ s.acquired;
        entered = s.entered ++ released es;
      })
  tap_loses :
      (input : TapInput ℕ) (m : ℕ) {es : List (Event ℕ)}
      → input.alloc ≡ some m
      → AreFree s (m ∷ [])
      → tap_port input ≡ ok es
      → (input.ring_enqueue == 0) ≡ false
      → length s.ring ≡ ring_capacity
      → Step data_of s (record s {
        acquired = m ∷ s.acquired;
        gone = released es ++ s.gone;
        refused = m ∷ s.refused;
      })
  -- A round of `fwd_main`.
  fwd_round :
      (pp : Port) (input : FwdInput ℕ) (rest : List ℕ) {es : List (Event ℕ)}
      → s.ring ≡ from_ring input ++ rest
      → AreFree s input.received
      → fwd_port data_of pp input ≡ ok es
      → Step data_of s (record s {
        ring = rest;
        acquired = input.received ++ s.acquired;
        gone = released es ++ s.gone;
        left = s.left ++ from_ring input;
      })

pub data Reach (data_of : ℕ → Memory) : System → Type 0 where
  start : Reach data_of init
  later : {s t : System} → Reach data_of s → Step data_of s t → Reach data_of t
