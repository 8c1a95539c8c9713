-- ===== src/Memory/Bounds.antt =====
-- Loads from a memory of bytes give words, and never end a run for want of fuel.
use hspp.Prelude.{
  ℕ, zero, suc, ◌+◌, ◌*◌, ◌^◌, ◌<◌, ◌≡◌, ◌≢◌, [], ◌∷◌, some, get_elem?, arith, drop, length,
}
use hspp.Outcome.{ok, stop, no_fuel, >>=-eq-ok}
use hspp.Memory.{Memory, load8, load16, load32, load64, until_nul, load_str}

abbrev pub IsBytes : Memory → Type 0
IsBytes [] = Unit
IsBytes (b ∷ mem) = (b < 2 ^ 8) × IsBytes mem

get_elem?-lt : (mem : Memory) (a : ℕ) {b : ℕ} → IsBytes mem → get_elem? mem a ≡ some b → b < 2 ^ 8
get_elem?-lt [] a m h = cc
get_elem?-lt (c ∷ mem) zero m h = ground arith
get_elem?-lt (c ∷ mem) (suc a) m h = get_elem?-lt mem a m.1 h

pub load8-lt : (mem : Memory) (a : ℕ) {b : ℕ} → IsBytes mem → load8 mem a ≡ ok b → b < 2 ^ 8
unfolding load8
load8-lt mem a {b} m h = ground (arith, get_elem?-lt mem a {b = b} m)

pub load16-lt : (mem : Memory) (a : ℕ) {v : ℕ} → IsBytes mem → load16 mem a ≡ ok v → v < 2 ^ 16
unfolding load16
load16-lt mem a m h =
    let (lo, e, h') = >>=-eq-ok (load8 mem a) _ h in
    let (hi, e', h'') = >>=-eq-ok (load8 mem (a + 1)) (λ (hi : ℕ). ok (lo + hi * 2 ^ 8)) h' in
    ground (arith, load8-lt mem a m e, load8-lt mem (a + 1) m e')

pub load8-fuel : (mem : Memory) (a : ℕ) → load8 mem a ≢ stop no_fuel
unfolding load8
load8-fuel mem a = ground arith

pub load16-fuel : (mem : Memory) (a : ℕ) → load16 mem a ≢ stop no_fuel
unfolding load16
load16-fuel mem a = ground (arith, load8-fuel mem a, load8-fuel mem (a + 1))

pub load32-fuel : (mem : Memory) (a : ℕ) → load32 mem a ≢ stop no_fuel
unfolding load32
load32-fuel mem a = ground (arith, load16-fuel mem a, load16-fuel mem (a + 2))

pub load64-fuel : (mem : Memory) (a : ℕ) → load64 mem a ≢ stop no_fuel
unfolding load64
load64-fuel mem a = ground (arith, load32-fuel mem a, load32-fuel mem (a + 4))

until_nul-fuel : (mem : Memory) → until_nul mem ≢ stop no_fuel
unfolding until_nul
until_nul-fuel [] = ground arith
until_nul-fuel (c ∷ mem) = ground (arith, until_nul-fuel mem)

pub load_str-fuel : (mem : Memory) (a : ℕ) → load_str mem a ≢ stop no_fuel
unfolding load_str
load_str-fuel mem a = until_nul-fuel (drop a mem)

get_elem?-inside : (mem : Memory) (a : ℕ) {b : ℕ} → get_elem? mem a ≡ some b → a < length mem
get_elem?-inside [] a h = cc
get_elem?-inside (c ∷ mem) zero h = ground arith
get_elem?-inside (c ∷ mem) (suc a) h = omega (arith, get_elem?-inside mem a h)

load8-inside : (mem : Memory) (a : ℕ) {b : ℕ} → load8 mem a ≡ ok b → a < length mem
unfolding load8
load8-inside mem a {b} h = ground (arith, get_elem?-inside mem a {b = b})

pub load16-inside : (mem : Memory) (a : ℕ) {v : ℕ} → load16 mem a ≡ ok v → a < length mem
unfolding load16
load16-inside mem a h = let (lo, e, h') = >>=-eq-ok (load8 mem a) _ h in load8-inside mem a e

pub load32-inside : (mem : Memory) (a : ℕ) {v : ℕ} → load32 mem a ≡ ok v → a < length mem
unfolding load32
load32-inside mem a h = let (lo, e, h') = >>=-eq-ok (load16 mem a) _ h in load16-inside mem a e
