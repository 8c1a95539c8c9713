-- ===== src/Yalin/Rtattr/Align.antt =====
-- `align` rounds up to a multiple of a power of two.
use native.Mathlib.Nat.{
  pow-suc, one-le-pow, mod-eq_of_lt, div-lt_iff_lt-mul, mul-mod_left, lt-div-mul-add,
  div-mul-le_self,
}
use hspp.Prelude.{ℕ, zero, suc, ◌+◌, ◌-◌, ◌*◌, ◌/◌, ◌%◌, ◌^◌, ◌≤◌, ◌<◌, ◌≡◌, refl, arith, ap}
use hspp.Prelude.Bits.{bit_and_ones, bit_and_shifted}
use hspp.Yalin.Rtattr.{align, size_add, size_sub, size_not}

pow-add : (j k : ℕ) → 2 ^ (j + k) ≡ 2 ^ j * 2 ^ k
pow-add zero k = omega (arith, ap (λ (t : ℕ). 2 ^ t) zero_k)
  where
    zero_k : 0 + k ≡ k
    zero_k = omega arith
pow-add (suc j) k = omega (
  arith,
  ap (λ (t : ℕ). 2 ^ t) suc_sum,
  pow-suc 2 (j + k),
  pow-suc 2 j,
  ap (λ (t : ℕ). t * 2 ^ k) (pow-suc 2 j),
  pow-add j k,
)
  where
    suc_sum : suc j + k ≡ suc (j + k)
    suc_sum = omega arith

split_64 : (j k : ℕ) → j + k ≡ 64 → 2 ^ j * 2 ^ k ≡ 2 ^ 64
split_64 j k e = omega (arith, pow-add j k, ap (λ (t : ℕ). 2 ^ t) e)

module _ (j k n : ℕ) (e : j + k ≡ 64) (h : n + 2 ^ k ≤ 2 ^ 64) where
  mask : size_not (size_sub (2 ^ k) 1) ≡ (2 ^ j - 1) * 2 ^ k
  mask = omega (arith, split_64 j k e, one-le-pow k 2, ap (λ (t : ℕ). t * 2 ^ k) one_more)
    where
      one_more : 2 ^ j ≡ 2 ^ j - 1 + 1
      one_more = omega (arith, one-le-pow j 2)

  sum : size_sub (size_add n (2 ^ k)) 1 ≡ n + 2 ^ k - 1
  sum = grind (arith, one-le-pow k 2)

  quotient-lt : (n + 2 ^ k - 1) / 2 ^ k < 2 ^ j
  quotient-lt =
      (div-lt_iff_lt-mul (one-le-pow k 2 (omega arith))).1
        (omega (arith, split_64 j k e, one-le-pow k 2))

  -- Where the sum does not wrap, `align` to `2 ^ k` is the multiple of `2 ^ k` by division.
  pub align_power : align n (2 ^ k) ≡ (n + 2 ^ k - 1) / 2 ^ k * 2 ^ k
  unfolding align
  align_power = rw (
    mask,
    sum,
    bit_and_shifted k (n + 2 ^ k - 1) (2 ^ j - 1),
    bit_and_ones j,
    mod-eq_of_lt quotient-lt,
  )

  -- `align n (2 ^ k)`, for `k` up to 64 and no wrap in the sum, is the least multiple of `2 ^ k`
  -- that is not below `n`.
  pub align_least :
      (n ≤ align n (2 ^ k)) × (align n (2 ^ k) < n + 2 ^ k) × (align n (2 ^ k) % 2 ^ k ≡ 0)
  align_least = rw align_power (
    omega (arith, lt-div-mul-add {a = n + 2 ^ k - 1} (one-le-pow k 2 (omega arith))),
    omega (arith, div-mul-le_self (n + 2 ^ k - 1) (2 ^ k), one-le-pow k 2),
    mul-mod_left _ _,
  )

pub align_four : (n : ℕ) → n + 4 ≤ 2 ^ 64 → align n 4 ≡ (n + 3) / 4 * 4
align_four n h = omega (arith, align_power 62 2 n refl h)
