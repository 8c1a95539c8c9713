-- ===== src/Yalin/Request/Visit.antt =====
-- The receive loop on whole messages, whatever the callback does: it calls the callback on one
-- message after the other and stops at the first that fails.
use hspp.Prelude.{
  ℕ, zero, suc, ◌+◌, ◌*◌, ◌/◌, ◌^◌, ◌<◌, ◌≤◌, ◌≡◌, refl, sym, ap, ◌∙◌, List, [], ◌∷◌, ◌++◌, length,
  length-append, append_assoc, drop, arith, true, leb, if◌then◌else◌,
}
use native.Mathlib.Nat.{add-zero}
use hspp.Outcome.{Outcome, ok, stop, ◌>>=◌}
use hspp.Memory.{Memory, load32}
use hspp.Memory.Laws.{load32-append, load32-bytes32}
use hspp.Yalin.Request.{
  Listen, returned, stopped, Inner, done, refused, message_loop, is_negative, size_of_int, int_sub,
  sizeof_buf, sizeof_nlmsghdr,
}
use hspp.Yalin.Request.Encode.{
  Message, encode, encode_all, IsMessage, AllMessages, Input, transient, datagram,
}

-- What the kernel's header says of NLMSG_ALIGN, where the sum does not wrap.
abbrev pub Aligns : (ℕ → ℕ) → Type 0
Aligns nlmsg_align = (n : ℕ) → n + 3 < 2 ^ 32 → nlmsg_align n ≡ (n + 3) / 4 * 4

-- The buffer after a datagram.
abbrev pub filled : List Message → Memory → Memory
filled ms buf = encode_all ms ++ drop (length (encode_all ms)) buf

module _ {S : Type 0} (handler : S → Memory → ℕ → Outcome (S × ℕ)) where
  -- The callback on one message after the other, the first at `h`.
  unfoldable pub visit : Memory → ℕ → List Message → S → Outcome (Inner S)
  visit buf h [] st = ok (done st 0)
  visit buf h (m ∷ ms) st = do
    (st', err) ← handler st buf h
    let later = visit buf (h + length (encode m)) ms st'
    if is_negative err then ok (refused st' err) else later

  -- The inputs one after the other, each in the buffer that the last one left; `finally` goes on
  -- with the buffer and the state.
  unfoldable pub deliver : (Memory → S → Listen S) → List Input → Memory → S → Listen S
  deliver finally [] buf st = finally buf st
  deliver finally (transient e ∷ inputs) buf st = deliver finally inputs buf st
  deliver finally (datagram ms truncated ∷ inputs) buf st = elim (visit (filled ms buf) 0 ms st) [
    | stop s ↦ stopped s
    | ok (refused st' err) ↦ returned st' err
    | ok (done st' status) ↦ deliver finally inputs (filled ms buf) st'
  ]

module _ {S : Type 0} (nlmsg_align : ℕ → ℕ) (handler : S → Memory → ℕ → Outcome (S × ℕ))
    (aligns : Aligns nlmsg_align) where
  load_len :
      (pre rest : List ℕ) (m : Message)
      → IsMessage m
      → load32 (pre ++ (encode m ++ rest)) (length pre) ≡ ok m.len
  load_len pre rest m good =
      ap (load32 (pre ++ (encode m ++ rest))) (sym (add-zero (length pre)))
      ∙ load32-append pre (encode m ++ rest) 0
      ∙ load32-bytes32 m.len (m.body ++ rest) (omega arith)

  enter :
      (m : Message) (n : ℕ)
      → IsMessage m
      → n ≤ sizeof_buf
      → leb sizeof_nlmsghdr (size_of_int (length (encode m) + n)) ≡ true
  enter m n good small = ground arith

  align_len : (m : Message) → IsMessage m → nlmsg_align m.len ≡ length (encode m)
  align_len m good = omega (arith, aligns m.len (omega arith))

  left_over :
      (m : Message) (n : ℕ)
      → IsMessage m
      → n ≤ sizeof_buf
      → int_sub (length (encode m) + n) (length (encode m)) ≡ n
  left_over m n good small = omega arith

  -- A round: the callback's result, and the rest of the loop.
  abbrev after_call : Outcome (S × ℕ) → (S → Outcome (Inner S)) → Outcome (Inner S)
  after_call called next = do
    (st', err) ← called
    let later = next st'
    if is_negative err then ok (refused st' err) else later

  round :
      (fuel : ℕ) (pre rest : List ℕ) (m : Message) (n : ℕ) (st : S)
      → IsMessage m
      → n ≤ sizeof_buf
      → message_loop nlmsg_align handler
          (suc fuel)
          (pre ++ (encode m ++ rest))
          (length pre)
          (length (encode m) + n)
          st
        ≡ after_call (handler st (pre ++ (encode m ++ rest)) (length pre)) (
            message_loop nlmsg_align handler fuel
              (pre ++ (encode m ++ rest))
              (length pre + length (encode m))
              n)
  unfolding message_loop
  round fuel pre rest m n st good small =
      rw (enter m n good small, message_loop)
        (rw (load_len pre rest m good, align_len m good, left_over m n good small))

  after_call-eq :
      (called : Outcome (S × ℕ)) {f g : S → Outcome (Inner S)}
      → ((st : S) → f st ≡ g st)
      → after_call called f ≡ after_call called g
  after_call-eq (stop s) same = refl
  after_call-eq (ok (st, err)) same =
      ap (λ (later : Outcome (Inner S)). if is_negative err then ok (refused st err) else later)
        (same st)

  pub message_loop-encode_all :
      (ms : List Message) (fuel : ℕ) (pre rest : List ℕ) (st : S)
      → AllMessages ms
      → length ms < fuel
      → length (encode_all ms) ≤ sizeof_buf
      → message_loop nlmsg_align handler fuel
          (pre ++ (encode_all ms ++ rest))
          (length pre)
          (length (encode_all ms))
          st
        ≡ visit handler (pre ++ (encode_all ms ++ rest)) (length pre) ms st
  unfolding message_loop visit
  message_loop-encode_all ms zero pre rest st good f small = absurd (omega arith)
  message_loop-encode_all [] (suc fuel) pre rest st good f small = refl
  message_loop-encode_all (m ∷ ms) (suc fuel) pre rest st good f small =
      ap (λ n. loop (suc fuel) (pre ++ ((e ++ es) ++ rest)) (length pre) n st) (length-append e es)
      ∙ ap (λ b. loop (suc fuel) b (length pre) (length e + length es) st) together
      ∙ round fuel pre (es ++ rest) m (length es) st good.0 (omega (arith, length-append e es))
      ∙ after_call-eq (handler st (pre ++ (e ++ (es ++ rest))) (length pre)) (λ st'. later st' (
          message_loop-encode_all ms fuel (pre ++ e) rest st' good.1 (omega arith)
            (omega (arith, length-append e es))))
      ∙ ap (λ b. visit handler b (length pre) (m ∷ ms) st) (sym together)
    where
      e : List ℕ
      e = encode m

      es : List ℕ
      es = encode_all ms

      loop : ℕ → Memory → ℕ → ℕ → S → Outcome (Inner S)
      loop = message_loop nlmsg_align handler

      together : pre ++ ((e ++ es) ++ rest) ≡ pre ++ (e ++ (es ++ rest))
      together = ap (λ b. pre ++ b) (append_assoc e es rest)

      behind :
          (at : ℕ → Memory → Outcome (Inner S))
          → at (length (pre ++ e)) ((pre ++ e) ++ (es ++ rest))
            ≡ at (length pre + length e) (pre ++ (e ++ (es ++ rest)))
      behind at =
          ap (λ n. at n ((pre ++ e) ++ (es ++ rest))) (length-append pre e)
          ∙ ap (at (length pre + length e)) (append_assoc pre e (es ++ rest))

      later :
          (st' : S)
          → loop fuel ((pre ++ e) ++ (es ++ rest)) (length (pre ++ e)) (length es) st'
            ≡ visit handler ((pre ++ e) ++ (es ++ rest)) (length (pre ++ e)) ms st'
          → loop fuel (pre ++ (e ++ (es ++ rest))) (length pre + length e) (length es) st'
            ≡ visit handler (pre ++ (e ++ (es ++ rest))) (length pre + length e) ms st'
      later st' ih =
          sym (behind (λ n b. loop fuel b n (length es) st'))
          ∙ ih
          ∙ behind (λ n b. visit handler b n ms st')
