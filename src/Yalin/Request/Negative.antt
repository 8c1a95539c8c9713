-- ===== src/Yalin/Request/Negative.antt =====
-- The sign of what the receive loop returns.
use hspp.Prelude.{
  ℕ, zero, suc, ◌+◌, ◌≡◌, ◌⊎◌, refl, arith, true, List, [], ◌∷◌, ◌++◌, leb, length, drop,
  Bool-cases, inl, inr,
}
use hspp.Outcome.{Outcome, ok, stop, Stop, >>=-eq-ok}
use hspp.Memory.{Memory, load32}
use hspp.Yalin.Request.{
  eintr, eagain, enobufs, other_error, Recv, failed, received, returned, Inner, done, refused,
  message_loop, netlink_listen, is_negative, size_of_int, int_sub, sizeof_nlmsghdr,
}

module _ {S : Type 0} (nlmsg_align : ℕ → ℕ) (handler : S → Memory → ℕ → Outcome (S × ℕ)) where
  loop_cases :
      (r : Outcome (Inner S))
      → ((s : Stop) × (r ≡ stop s))
        ⊎ ((st : S) × (n : ℕ) × (r ≡ ok (done st n)))
        ⊎ ((st : S) × (n : ℕ) × (r ≡ ok (refused st n)))
  loop_cases (stop s) = inl (s, refl)
  loop_cases (ok (done st n)) = inr (inl (st, n, refl))
  loop_cases (ok (refused st n)) = inr (inr (st, n, refl))

  refused-IsNegative :
      (fuel : ℕ) (buf : Memory) (h status : ℕ) (st : S) {st' : S} {err : ℕ}
      → message_loop nlmsg_align handler fuel buf h status st ≡ ok (refused st' err)
      → is_negative err ≡ true
  unfolding message_loop
  refused-IsNegative zero buf h status st e = cc
  refused-IsNegative (suc fuel) buf h status st {st'} {err} e =
      elim (Bool-cases (leb sizeof_nlmsghdr (size_of_int status))) [
        | inr less ↦ ground arith
        | inl more ↦
            let e' = rw (more, message_loop) at e in
            let (len, _, e1) = >>=-eq-ok (load32 buf h) _ e' in
            let (r, _, e2) = >>=-eq-ok (handler st buf h) _ e1 in
            ground (
              arith,
              refused-IsNegative fuel buf (h + nlmsg_align len) (int_sub status (nlmsg_align len))
                  r.0 {st' = st'} {err = err},
            )
      ]

  -- Whatever arrives and whatever the callback does: if `netlink_listen` returns, its result is
  -- negative.
  pub listen-IsNegative :
      (inputs : List Recv) (buf : Memory) (st : S) {st' : S} {ret : ℕ}
      → netlink_listen nlmsg_align handler inputs buf st ≡ returned st' ret
      → is_negative ret ≡ true
  unfolding netlink_listen
  listen-IsNegative [] buf st e = cc
  listen-IsNegative (failed eintr ∷ inputs) buf st e = listen-IsNegative inputs buf st e
  listen-IsNegative (failed eagain ∷ inputs) buf st e = listen-IsNegative inputs buf st e
  listen-IsNegative (failed enobufs ∷ inputs) buf st e = listen-IsNegative inputs buf st e
  listen-IsNegative (failed other_error ∷ inputs) buf st e = ground arith
  listen-IsNegative (received bs truncated ∷ inputs) buf st {st'} {ret} e =
      elim (loop_cases (
        message_loop nlmsg_align handler (suc (length (bs ++ drop (length bs) buf)))
          (bs ++ drop (length bs) buf) 0 (length bs) st)) [
            | inl (reason, q) ↦ ground arith
            | inr (inl (st2, n, q)) ↦ ground (
              arith,
              listen-IsNegative inputs (bs ++ drop (length bs) buf) st2 {st' = st'} {ret = ret},
            )
            | inr (inr (st2, n, q)) ↦ ground (
              arith,
              refused-IsNegative (suc (length (bs ++ drop (length bs) buf)))
                  (bs ++ drop (length bs) buf) 0 (length bs) st q,
            )
          ]
