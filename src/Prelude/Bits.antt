-- ===== src/Prelude/Bits.antt =====
-- Laws of the bitwise operations at variables: the lowest digit, masks, and disjoint fields.
use Prim.Native.Nat.{ℕ, zero, suc, ◌+◌, ◌-◌, ◌*◌, ◌/◌, ◌%◌, ◌^◌, ◌≤◌, ◌<◌, min, max}
use Prim.Native.Nat.{bit_and, bit_or, digits, bitwise, bit_and-bitwise, bit_or-bitwise}
use mathlib.Core.Path.{◌≡◌, refl, ap}
use native.Mathlib.Nat.{
  pow-suc, one-le-pow, mul_comm, mod_def, div-div-eq-div-mul, mul-one, div-one,
}
use native.Mathlib.Omega.{arith}

-- Any two amounts of fuel that reach the end of the first number give the same digits.
module _ (zeros : ℕ → ℕ) (op : ℕ → ℕ → ℕ) where
  digits_agree : (i j x y : ℕ) → x ≤ i → x ≤ j → digits zeros op i x y ≡ digits zeros op j x y
  digits_agree zero zero x y hi hj = refl
  digits_agree zero (suc j) zero y hi hj = refl
  digits_agree zero (suc j) (suc x) y hi hj = absurd (omega arith)
  digits_agree (suc i) zero zero y hi hj = refl
  digits_agree (suc i) zero (suc x) y hi hj = absurd (omega arith)
  digits_agree (suc i) (suc j) zero y hi hj = refl
  digits_agree (suc i) (suc j) (suc x) y hi hj =
      omega (arith, digits_agree i j (suc x / 2) (y / 2) (omega arith) (omega arith))

  bitwise_halves :
      (x y : ℕ)
      → bitwise zeros op (suc x) y
        ≡ bitwise zeros op (suc x / 2) (y / 2) * 2 + op (suc x % 2) (y % 2)
  bitwise_halves x y =
      omega (arith, digits_agree x (suc x / 2) (suc x / 2) (y / 2) (omega arith) (omega arith))

pub bit_and_halves : (x y : ℕ) → bit_and x y ≡ bit_and (x / 2) (y / 2) * 2 + min (x % 2) (y % 2)
bit_and_halves zero y = simp bit_and-bitwise (omega arith)
bit_and_halves (suc x) y = simp bit_and-bitwise (bitwise_halves (λ _. 0) min x y)

pub bit_or_halves : (x y : ℕ) → bit_or x y ≡ bit_or (x / 2) (y / 2) * 2 + max (x % 2) (y % 2)
bit_or_halves zero y = simp bit_or-bitwise (omega arith)
bit_or_halves (suc x) y = simp bit_or-bitwise (bitwise_halves (λ n. n) max x y)

bit_or-zero_upto : (n x : ℕ) → x ≤ n → bit_or x 0 ≡ x
bit_or-zero_upto n zero h = refl
bit_or-zero_upto zero (suc x) h = absurd (omega arith)
bit_or-zero_upto (suc n) (suc x) h =
    omega (arith, bit_or_halves (suc x) 0, bit_or-zero_upto n (suc x / 2) (omega arith))

pub bit_or-zero : (x : ℕ) → bit_or x 0 ≡ x
bit_or-zero x = bit_or-zero_upto x x (omega arith)

bit_and-zero_upto : (n x : ℕ) → x ≤ n → bit_and x 0 ≡ 0
bit_and-zero_upto n zero h = refl
bit_and-zero_upto zero (suc x) h = absurd (omega arith)
bit_and-zero_upto (suc n) (suc x) h =
    omega (arith, bit_and_halves (suc x) 0, bit_and-zero_upto n (suc x / 2) (omega arith))

pub bit_and-zero : (x : ℕ) → bit_and x 0 ≡ 0
bit_and-zero x = bit_and-zero_upto x x (omega arith)

double_pow : (q k : ℕ) → q * 2 ^ suc k ≡ q * 2 ^ k * 2
double_pow q k = omega (arith, ap (λ (t : ℕ). q * t) (pow-suc 2 k))

half_double : (n : ℕ) → n * 2 / 2 ≡ n
half_double n = omega arith

-- The low `k` bits.
pub bit_and_ones : (k x : ℕ) → bit_and x (2 ^ k - 1) ≡ x % 2 ^ k
bit_and_ones zero x = rw bit_and-zero (omega arith)
bit_and_ones (suc k) x =
    rw (bit_and_halves x (2 ^ suc k - 1), half_ones, bit_and_ones k (x / 2), suc_mod)
      (omega (arith, pow-suc 2 k, one-le-pow k 2))
  where
    half_ones : (2 ^ suc k - 1) / 2 ≡ 2 ^ k - 1
    half_ones = omega (arith, pow-suc 2 k, one-le-pow k 2)

    suc_mod : x % 2 ^ suc k ≡ x / 2 % 2 ^ k * 2 + x % 2
    suc_mod =
        rw (pow-suc, mul_comm (2 ^ k) 2)
          (omega (
            arith,
            mod_def x (2 * 2 ^ k),
            mod_def (x / 2) (2 ^ k),
            ap (λ (t : ℕ). 2 ^ k * t) (div-div-eq-div-mul x 2 (2 ^ k)),
          ))

-- A mask whose low `k` bits are clear leaves the low bits out.
pub bit_and_shifted : (k x m : ℕ) → bit_and x (m * 2 ^ k) ≡ bit_and (x / 2 ^ k) m * 2 ^ k
bit_and_shifted zero x m = rw (div-one, mul-one) (omega arith)
bit_and_shifted (suc k) x m =
    rw
      (
        double_pow m k,
        bit_and_halves x (m * 2 ^ k * 2),
        half_double,
        bit_and_shifted k (x / 2) m,
        div-div-eq-div-mul,
        pow-suc 2 k,
        mul_comm (2 ^ k) 2,
      )
      (omega arith)

-- Two numbers with no bit in common: `|` is their sum.
pub bit_or_disjoint : (k q r : ℕ) → r < 2 ^ k → bit_or (q * 2 ^ k) r ≡ q * 2 ^ k + r
bit_or_disjoint zero q r h = rw (mul-one, no_rest, bit_or-zero) (omega arith)
  where
    no_rest : r ≡ 0
    no_rest = omega arith
bit_or_disjoint (suc k) q r h =
    rw
      (
        double_pow q k,
        bit_or_halves (q * 2 ^ k * 2) r,
        half_double,
        bit_or_disjoint k q (r / 2) (omega (arith, pow-suc 2 k)),
      )
      (omega arith)
