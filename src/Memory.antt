-- ===== src/Memory.antt =====
-- Memory as the bytes of one object, and a pointer into it as the offset of its first byte.
-- Words are little endian, as in the byte arrays of yalin/test.
pub mod Laws
pub mod Bounds
pub mod CString
use hspp.Prelude.{
  ℕ, ◌+◌, ◌*◌, ◌/◌, ◌%◌, ◌^◌, ◌++◌, ltb, take, length, ◌==◌, if◌then◌else◌, List, [], ◌∷◌, Option,
  none, some, Text, get_elem?, drop,
}
use hspp.Outcome.{Outcome, ok, stop, Stop, bad_access, ◌>>=◌}

abbrev pub Memory : Type 0
Memory = List ℕ

abbrev pub or_fault {ℓ} : {A : Type ℓ} → Option A → Outcome A
or_fault none = stop bad_access
or_fault (some b) = ok b

unfoldable pub load8 : Memory → ℕ → Outcome ℕ
load8 mem a = or_fault (get_elem? mem a)

unfoldable pub load16 : Memory → ℕ → Outcome ℕ
unfolding load8
load16 mem a = do lo ← load8 mem a; hi ← load8 mem (a + 1); ok (lo + hi * 2 ^ 8)

unfoldable pub load32 : Memory → ℕ → Outcome ℕ
load32 mem a = do lo ← load16 mem a; hi ← load16 mem (a + 2); ok (lo + hi * 2 ^ 16)

unfoldable pub load64 : Memory → ℕ → Outcome ℕ
load64 mem a = do lo ← load32 mem a; hi ← load32 mem (a + 4); ok (lo + hi * 2 ^ 32)

-- The bytes up to the first NUL; a string with no NUL before the end of the memory is a fault.
unfoldable pub until_nul : Memory → Outcome Text
until_nul [] = stop bad_access
until_nul (c ∷ cs) = let rest = until_nul cs in if c == 0 then ok [] else (do s ← rest; ok (c ∷ s))

unfoldable pub load_str : Memory → ℕ → Outcome Text
unfolding until_nul
load_str mem a = until_nul (drop a mem)

-- A word is written as its four bytes, if all of them lie in the memory.
unfoldable pub store32 : Memory → ℕ → ℕ → Outcome Memory
store32 mem a v =
    if ltb (a + 3) (length mem)
    then ok (
        take a mem
        ++ (v % 2 ^ 8
            ∷ v / 2 ^ 8 % 2 ^ 8
            ∷ v / 2 ^ 16 % 2 ^ 8
            ∷ v / 2 ^ 24 % 2 ^ 8
            ∷ drop (a + 4) mem))
    else stop bad_access
