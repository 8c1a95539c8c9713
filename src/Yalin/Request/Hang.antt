-- ===== src/Yalin/Request/Hang.antt =====
-- What the loop over the messages does on lengths that it does not check.
use hspp.Prelude.{ℕ, zero, suc, ◌+◌, ◌^◌, ◌<◌, ◌≤◌, ◌≡◌, refl, arith, true, leb}
use hspp.Outcome.{Outcome, ok, stop, no_fuel}
use hspp.Memory.{Memory, load32}
use hspp.Yalin.Request.{message_loop, size_of_int, int_sub, sizeof_nlmsghdr}
use hspp.Yalin.Request.Visit.{Aligns}

module _ {S : Type 0} (nlmsg_align : ℕ → ℕ) (handler : S → Memory → ℕ → Outcome (S × ℕ))
    (step : S → S) (buf : Memory) (aligns : Aligns nlmsg_align) where
  stays : (h : ℕ) → h + nlmsg_align 0 ≡ h
  stays h = omega (arith, aligns 0 (omega arith))

  same_status : (status : ℕ) → status < 2 ^ 31 → int_sub status (nlmsg_align 0) ≡ status
  same_status status small = omega (arith, aligns 0 (omega arith))

  enter :
      (status : ℕ) → 16 ≤ status → status < 2 ^ 31 → leb sizeof_nlmsghdr (size_of_int status) ≡ true
  enter status big small = ground arith

  -- A message of length 0 with at least 16 bytes left, and a callback that returns 0: the loop runs
  -- out of any fuel, that is, it never ends.
  pub zero_length_hangs :
      (fuel h status : ℕ) (st : S)
      → load32 buf h ≡ ok 0
      → ((s : S) → handler s buf h ≡ ok (step s, 0))
      → 16 ≤ status
      → status < 2 ^ 31
      → message_loop nlmsg_align handler fuel buf h status st ≡ stop no_fuel
  unfolding message_loop
  zero_length_hangs zero h status st len handles big small = refl
  zero_length_hangs (suc fuel) h status st len handles big small =
      rw (enter status big small, message_loop)
        (rw (len, handles st, stays h, same_status status small)
          (zero_length_hangs fuel h status (step st) len handles big small))
