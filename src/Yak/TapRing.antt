-- ===== src/Yak/TapRing.antt =====
-- What `tap_main` does with its buffers when the ring refuses one.
use hspp.Prelude.{
  ℕ, ◌≡◌, refl, ap, false, ◌==◌, if◌then◌else◌, List, [], ◌∷◌, ◌++◌, some, Bool-cases, inl, inr,
}
use hspp.Outcome.{ok, ◌>>=◌}
use hspp.Yak.{Event, enqueued, TapInput, is_error, tap_recv, tap_port, tap_main}
use hspp.Yak.Ownership.{released}

module _ {Mbuf : Type 0} where
  -- Rounds of `tap_main` in which the pool gives a buffer: the buffer, and what `read` and
  -- `rte_ring_enqueue` return.
  abbrev pub tap_inputs : List (Mbuf × ℕ × ℕ) → List (TapInput Mbuf)
  tap_inputs [] = []
  tap_inputs ((m, len, code) ∷ rs) =
      record { alloc = some m; read_len = len; ring_enqueue = code } ∷ tap_inputs rs

  abbrev pub AllRead : List (Mbuf × ℕ × ℕ) → Type 0
  AllRead [] = Unit
  AllRead ((m, len, code) ∷ rs) = (is_error len ≡ false) × AllRead rs

  abbrev pub taken_by_ring : List (Mbuf × ℕ × ℕ) → List Mbuf
  taken_by_ring [] = []
  taken_by_ring ((m, len, code) ∷ rs) =
      let rest = taken_by_ring rs in if code == 0 then m ∷ rest else rest

  tap_trace : List (Mbuf × ℕ × ℕ) → List (Event Mbuf)
  tap_trace [] = []
  tap_trace ((m, len, code) ∷ rs) = (if code == 0 then enqueued m ∷ [] else []) ++ tap_trace rs

  tap_main-trace :
      (rs : List (Mbuf × ℕ × ℕ)) → AllRead rs → tap_main (tap_inputs rs) ≡ ok (tap_trace rs)
  unfolding tap_main tap_port tap_recv tap_trace
  tap_main-trace [] good = refl
  tap_main-trace ((m, len, code) ∷ rs) good = rw (good.0, tap_main-trace rs good.1) refl

  released-tap_trace : (rs : List (Mbuf × ℕ × ℕ)) → released (tap_trace rs) ≡ taken_by_ring rs
  unfolding tap_trace
  released-tap_trace [] = refl
  released-tap_trace ((m, len, code) ∷ rs) = elim (Bool-cases (code == 0)) [
    | inl e ↦ rw e (ap (λ t. m ∷ t) (released-tap_trace rs))
    | inr e ↦ rw e (released-tap_trace rs)
  ]

  -- Where the pool gives a buffer and `read` succeeds in each round, the buffers that `tap_main`
  -- hands on or gives back are those that the ring took: one that the ring refuses is lost.
  pub released-tap_main :
      (rs : List (Mbuf × ℕ × ℕ))
      → AllRead rs
      → (do es ← tap_main (tap_inputs rs); ok (released es)) ≡ ok (taken_by_ring rs)
  released-tap_main rs good = rw (tap_main-trace rs good) (ap ok (released-tap_trace rs))
