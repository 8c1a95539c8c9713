-- ===== src/Bpf/Swap.antt =====
-- The byte swaps as arithmetic.
use Prim.Native.Nat.{bit_and, bit_or}
use hspp.Prelude.{ℕ, ◌+◌, ◌*◌, ◌/◌, ◌%◌, ◌^◌, ◌<◌, ◌≡◌, ◌∙◌, arith}
use hspp.Prelude.Bits.{bit_and_ones, bit_and_shifted, bit_or_disjoint}
use hspp.Bpf.{bswap16, bswap32}

-- One byte of a word, picked by a mask.
byte0 : (w : ℕ) → bit_and w 0xff ≡ w % 2 ^ 8
byte0 w = bit_and_ones 8 w

byte1 : (w : ℕ) → bit_and w 0xff00 ≡ w / 2 ^ 8 % 2 ^ 8 * 2 ^ 8
byte1 w = rw (bit_and_shifted 8 w 0xff, bit_and_ones 8 (w / 2 ^ 8))

byte2 : (w : ℕ) → bit_and w 0xff0000 ≡ w / 2 ^ 16 % 2 ^ 8 * 2 ^ 16
byte2 w = rw (bit_and_shifted 16 w 0xff, bit_and_ones 8 (w / 2 ^ 16))

byte3 : (w : ℕ) → bit_and w 0xff000000 ≡ w / 2 ^ 24 % 2 ^ 8 * 2 ^ 24
byte3 w = rw (bit_and_shifted 24 w 0xff, bit_and_ones 8 (w / 2 ^ 24))

or_pair : (a b : ℕ) → b < 2 ^ 8 → bit_or (a * 2 ^ 8) b ≡ a * 2 ^ 8 + b
or_pair a b h = bit_or_disjoint 8 a b h

or_four :
    (a b c d : ℕ)
    → b < 2 ^ 8
    → c < 2 ^ 8
    → d < 2 ^ 8
    → bit_or (bit_or (bit_or (a * 2 ^ 24) (b * 2 ^ 16)) (c * 2 ^ 8)) d
      ≡ a * 2 ^ 24 + b * 2 ^ 16 + c * 2 ^ 8 + d
or_four a b c d hb hc hd =
    rw
      (
        bit_or_disjoint 24 a (b * 2 ^ 16) (omega arith),
        ab,
        bit_or_disjoint 16 (a * 2 ^ 8 + b) (c * 2 ^ 8) (omega arith),
        abc,
        bit_or_disjoint 8 (a * 2 ^ 16 + b * 2 ^ 8 + c) d hd,
      )
      (omega arith)
  where
    ab : a * 2 ^ 24 + b * 2 ^ 16 ≡ (a * 2 ^ 8 + b) * 2 ^ 16
    ab = omega arith

    abc : (a * 2 ^ 8 + b) * 2 ^ 16 + c * 2 ^ 8 ≡ (a * 2 ^ 16 + b * 2 ^ 8 + c) * 2 ^ 8
    abc = omega arith

shift0 : (v : ℕ) → v % 2 ^ 32 % 2 ^ 8 * 2 ^ 24 % 2 ^ 32 ≡ v % 2 ^ 8 * 2 ^ 24
shift0 v = omega arith

shift1 : (v : ℕ) → v % 2 ^ 32 / 2 ^ 8 % 2 ^ 8 * 2 ^ 8 * 2 ^ 8 % 2 ^ 32 ≡ v / 2 ^ 8 % 2 ^ 8 * 2 ^ 16
shift1 v = omega arith

shift2 : (v : ℕ) → v % 2 ^ 32 / 2 ^ 16 % 2 ^ 8 * 2 ^ 16 / 2 ^ 8 ≡ v / 2 ^ 16 % 2 ^ 8 * 2 ^ 8
shift2 v = omega arith

shift3 : (v : ℕ) → v < 2 ^ 32 → v % 2 ^ 32 / 2 ^ 24 % 2 ^ 8 * 2 ^ 24 / 2 ^ 24 ≡ v / 2 ^ 24
shift3 v h = omega arith

pub bswap16_lem : (v : ℕ) → v < 2 ^ 16 → bswap16 v ≡ v % 2 ^ 8 * 2 ^ 8 + v / 2 ^ 8
unfolding bswap16
bswap16_lem v h =
    rw
      (
        byte0,
        byte1,
        or_pair (v % 2 ^ 16 % 2 ^ 8) (v % 2 ^ 16 / 2 ^ 8 % 2 ^ 8 * 2 ^ 8 / 2 ^ 8) (omega arith),
      )
      (omega arith)

-- The bytes of a 32-bit word in the opposite order.
pub bswap32_lem :
    (v : ℕ)
    → v < 2 ^ 32
    → bswap32 v
      ≡ v % 2 ^ 8 * 2 ^ 24 + v / 2 ^ 8 % 2 ^ 8 * 2 ^ 16 + v / 2 ^ 16 % 2 ^ 8 * 2 ^ 8 + v / 2 ^ 24
unfolding bswap32
bswap32_lem v h =
    rw (byte0, byte1, byte2, byte3, shift0, shift1, shift2, shift3 v h)
      (or_four (v % 2 ^ 8) (v / 2 ^ 8 % 2 ^ 8) (v / 2 ^ 16 % 2 ^ 8) (v / 2 ^ 24) (omega arith)
        (omega arith) (omega arith))

-- Swapping the bytes of a 16-bit or of a 32-bit word twice gives the word back.
bswap-bswap :
    (v w : ℕ) → v < 2 ^ 16 → w < 2 ^ 32 → (bswap16 (bswap16 v) ≡ v) × (bswap32 (bswap32 w) ≡ w)
bswap-bswap v w hv hw = (
  rw bswap16_lem_v (bswap16_lem _ (omega arith) ∙ omega arith),
  rw bswap32_lem_w (bswap32_lem _ (omega arith) ∙ omega arith),
)
  where
    bswap16_lem_v : bswap16 v ≡ v % 2 ^ 8 * 2 ^ 8 + v / 2 ^ 8
    bswap16_lem_v = bswap16_lem v hv

    bswap32_lem_w :
        bswap32 w
        ≡ w % 2 ^ 8 * 2 ^ 24 + w / 2 ^ 8 % 2 ^ 8 * 2 ^ 16 + w / 2 ^ 16 % 2 ^ 8 * 2 ^ 8 + w / 2 ^ 24
    bswap32_lem_w = bswap32_lem w hw
