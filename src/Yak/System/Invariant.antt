-- ===== src/Yak/System/Invariant.antt =====
-- What holds in every reachable state of the two threads.
use hspp.Prelude.{
  ℕ, ◌+◌, ◌≤◌, ◌<◌, ◌≡◌, refl, sym, ap, ◌∙◌, arith, List, [], ◌∷◌, ◌++◌, length, length-append,
  append_assoc,
}
use hspp.Memory.{Memory}
use hspp.Yak.Ownership.{released, from_ring}
use hspp.Yak.System.{
  count, ring_capacity, System, init, AreFree, Step, tap_enqueues, tap_loses, fwd_round, Reach,
  start, later,
}
use hspp.Yak.System.Rounds.{released-tap_port, released-fwd_port}

count-append :
    (older newer : List ℕ) (m : ℕ) → count m (older ++ newer) ≡ count m newer + count m older
count-append [] newer m = ground arith
count-append (next ∷ older) newer m = ground (arith, count-append older newer m)

-- Each buffer that was handed out is transmitted or given back, in the ring, or lost; the ring and
-- the lost ones hold no buffer twice; the ring is a queue, and it is within its bound.
pub record IsSound (s : System) : Type 0 where
  pub conserved :
      (a : ℕ) → count a s.acquired ≡ count a s.gone + (count a s.ring + count a s.refused)
  pub apart : (a : ℕ) → count a s.ring + count a s.refused ≤ 1
  pub fifo : s.entered ≡ s.left ++ s.ring
  pub bounded : length s.ring ≤ ring_capacity

init-IsSound : IsSound init
init-IsSound = record {
  conserved = λ a. refl;
  apart = λ a. omega arith;
  fifo = refl;
  bounded = omega arith;
}

-- A new buffer goes to the ring, or is lost.
push-IsSound :
    (s : System) (m : ℕ)
    → IsSound s
    → AreFree s (m ∷ [])
    → length s.ring < ring_capacity
    → IsSound (record s {
      ring = s.ring ++ m ∷ [];
      acquired = m ∷ s.acquired;
      entered = s.entered ++ m ∷ [];
    })
push-IsSound s m v free lt = record {
  conserved = λ b. ground (arith, v.conserved b, count-append s.ring (m ∷ []) b);
  apart = λ b. ground (arith, v.conserved b, v.apart b, free b, count-append s.ring (m ∷ []) b);
  fifo = rw v.fifo (append_assoc s.left s.ring (m ∷ []));
  bounded = omega (arith, length-append s.ring (m ∷ []));
}

lose-IsSound :
    (s : System) (m : ℕ)
    → IsSound s
    → AreFree s (m ∷ [])
    → IsSound (record s { acquired = m ∷ s.acquired; refused = m ∷ s.refused })
lose-IsSound s m v free = record {
  conserved = λ b. ground (arith, v.conserved b);
  apart = λ b. ground (arith, v.conserved b, v.apart b, free b);
  fifo = v.fifo;
  bounded = v.bounded;
}

-- The oldest buffers of the ring go, and so do the received ones.
pop-IsSound :
    (s : System) (old rest got : List ℕ)
    → IsSound s
    → s.ring ≡ old ++ rest
    → IsSound (record s {
      ring = rest;
      acquired = got ++ s.acquired;
      gone = (old ++ got) ++ s.gone;
      left = s.left ++ old;
    })
pop-IsSound s old rest got v split = record {
  conserved = λ b. omega (
    arith,
    v.conserved b,
    ap (count b) split,
    count-append old rest b,
    count-append got s.acquired b,
    count-append (old ++ got) s.gone b,
    count-append old got b,
  );
  apart = λ b. omega (arith, v.apart b, ap (count b) split, count-append old rest b);
  fifo = v.fifo ∙ ap (λ r. s.left ++ r) split ∙ sym (append_assoc s.left old rest);
  bounded = omega (arith, v.bounded, ap length split, length-append old rest);
}

module _ (data_of : ℕ → Memory) where
  Step-IsSound : {s t : System} → Step data_of s t → IsSound s → IsSound t
  Step-IsSound {s} (tap_enqueues input m {es} a free run room lt) v =
      let got : released es ≡ m ∷ [] = ground (arith, released-tap_port input m a run) in
      rw got (push-IsSound s m v free lt)
  Step-IsSound {s} (tap_loses input m {es} a free run full eq) v =
      let got : released es ≡ [] = ground (arith, released-tap_port input m a run) in
      rw got (lose-IsSound s m v free)
  Step-IsSound {s} (fwd_round pp input rest {es} split free run) v =
      rw (released-fwd_port data_of pp input run)
        (pop-IsSound s (from_ring input) rest input.received v split)

  -- In every state that the two threads reach, by any interleaving of their rounds: each buffer that
  -- the pool and the port handed out has been transmitted or given back, is in the ring, or was lost
  -- to a full ring; the ring and the lost ones hold no buffer twice, nor share one; what came out of
  -- the ring and what is in it is what went in, in that order; and the ring is within its bound.
  pub Reach-IsSound : {s : System} → Reach data_of s → IsSound s
  Reach-IsSound start = init-IsSound
  Reach-IsSound (later r st) = Step-IsSound st (Reach-IsSound r)
