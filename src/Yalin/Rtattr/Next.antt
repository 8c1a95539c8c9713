-- ===== src/Yalin/Rtattr/Next.antt =====
-- `rtattr_next`: which attribute it steps to, for any attribute and any remaining length.
use hspp.Prelude.{
  ℕ, ◌+◌, ◌-◌, ◌*◌, ◌/◌, ◌^◌, ◌<◌, ◌≡◌, ◌≢◌, arith, ltb, if◌then◌else◌, none, some, true, false,
}
use hspp.Outcome.{ok, stop, no_fuel, >>=-eq-ok}
use hspp.Memory.{Memory, load16}
use hspp.Memory.Bounds.{IsBytes, load16-lt, load16-fuel}
use hspp.Yalin.Rtattr.{rtattr_len, rtattr_next, is_not_positive}
use hspp.Yalin.Rtattr.Align.{align_four}

-- At an attribute of length `len` that is not 0, with a positive `*buflen`: where more than four
-- bytes remain behind the padded attribute, the next attribute is the one behind it and `*buflen`
-- is what remains; where the padded attribute is longer than `*buflen`, the result is a pointer
-- behind the end and `*buflen` a negative number; otherwise the result is NULL.
pub rtattr_next_lem :
    (mem : Memory) (rta len buflen : ℕ)
    → rtattr_len mem rta ≡ ok len
    → 0 < len
    → len < 2 ^ 16
    → 0 < buflen
    → buflen < 2 ^ 63
    → rtattr_next mem rta buflen ≡ (
        let seek = (len + 3) / 4 * 4 in
        if ltb (seek + 4) buflen
        then ok (some (rta + seek), buflen - seek)
        else if ltb buflen seek
        then ok (some (rta + seek), 2 ^ 64 - (seek - buflen))
        else ok (none, buflen))
unfolding rtattr_next
rtattr_next_lem mem rta len buflen e pos small bpos bsmall =
    rw (e, align_four len (omega arith)) (ground arith)

-- The step makes a positive `*buflen` smaller, or negative.
pub rtattr_next-decreases :
    (mem : Memory) (rta buflen p n : ℕ)
    → IsBytes mem
    → buflen < 2 ^ 64
    → rtattr_next mem rta buflen ≡ ok (some p, n)
    → is_not_positive n ≡ false
    → n < buflen
unfolding rtattr_next rtattr_len
rtattr_next-decreases mem rta buflen p n m small h positive =
    let (len, e, h') = >>=-eq-ok (load16 mem rta) _ h in
    ground (arith, align_four len (omega (arith, load16-lt mem rta m e)), load16-lt mem rta m e)

pub rtattr_next-fuel : (mem : Memory) (rta buflen : ℕ) → rtattr_next mem rta buflen ≢ stop no_fuel
unfolding rtattr_next rtattr_len
rtattr_next-fuel mem rta buflen = ground (arith, load16-fuel mem rta)

pub rtattr_next-stops :
    (mem : Memory) (rta buflen p n : ℕ)
    → is_not_positive buflen ≡ true
    → rtattr_next mem rta buflen ≢ ok (some p, n)
unfolding rtattr_next rtattr_len
rtattr_next-stops mem rta buflen p n stopped h =
    let (len, e, h') = >>=-eq-ok (load16 mem rta) _ h in ground arith
