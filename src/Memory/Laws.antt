-- ===== src/Memory/Laws.antt =====
-- What a load gives where the bytes at its address are known.
use native.Mathlib.Nat.{add_assoc}
use hspp.Prelude.{
  ℕ, zero, some, take, ltb, true, lt→ltb, length-append, suc, ◌+◌, ◌*◌, ◌/◌, ◌%◌, ◌^◌, ◌<◌, ◌≡◌,
  ◌≢◌, refl, List, [], ◌∷◌, ◌++◌, Text, length, get_elem?, drop, arith, ap, ◌∙◌,
}
use hspp.Outcome.{ok}
use hspp.Memory.{load8, load16, load32, load64, until_nul, store32}

-- The little-endian bytes of a word.
abbrev pub bytes16 : ℕ → List ℕ
bytes16 v = v % 2 ^ 8 ∷ v / 2 ^ 8 % 2 ^ 8 ∷ []

abbrev pub bytes32 : ℕ → List ℕ
bytes32 v = bytes16 (v % 2 ^ 16) ++ bytes16 (v / 2 ^ 16)

abbrev pub bytes64 : ℕ → List ℕ
bytes64 v = bytes32 (v % 2 ^ 32) ++ bytes32 (v / 2 ^ 32)

-- Every byte of a text but its end is not NUL.
abbrev pub NoNul : Text → Type 0
NoNul [] = Unit
NoNul (c ∷ s) = (c ≢ 0) × NoNul s

pub get_elem?-append :
    (pre xs : List ℕ) (i : ℕ) → get_elem? (pre ++ xs) (length pre + i) ≡ get_elem? xs i
get_elem?-append [] xs i = ap (get_elem? xs) (omega arith)
get_elem?-append (p ∷ pre) xs i =
    ap (get_elem? (p ∷ pre ++ xs)) (next (length pre)) ∙ get_elem?-append pre xs i
  where
    next : (n : ℕ) → suc n + i ≡ suc (n + i)
    next n = omega arith

pub drop-append : (pre xs : List ℕ) (i : ℕ) → drop (length pre + i) (pre ++ xs) ≡ drop i xs
drop-append [] xs i = ap (λ n. drop n xs) (omega arith)
drop-append (p ∷ pre) xs i =
    ap (λ n. drop n (p ∷ pre ++ xs)) (next (length pre)) ∙ drop-append pre xs i
  where
    next : (n : ℕ) → suc n + i ≡ suc (n + i)
    next n = omega arith

-- A load behind a prefix is a load of what follows the prefix.
module _ (pre xs : List ℕ) where
  pub load8-append : (i : ℕ) → load8 (pre ++ xs) (length pre + i) ≡ load8 xs i
  unfolding load8
  load8-append i = rw get_elem?-append

  pub load16-append : (i : ℕ) → load16 (pre ++ xs) (length pre + i) ≡ load16 xs i
  unfolding load16
  load16-append i = simp (add_assoc, load8-append)

  pub load32-append : (i : ℕ) → load32 (pre ++ xs) (length pre + i) ≡ load32 xs i
  unfolding load32
  load32-append i = simp (add_assoc, load16-append)

  pub load64-append : (i : ℕ) → load64 (pre ++ xs) (length pre + i) ≡ load64 xs i
  unfolding load64
  load64-append i = simp (add_assoc, load32-append)

-- The bytes of a word are read back.
pub load16-bytes16 : (v : ℕ) (rest : List ℕ) → v < 2 ^ 16 → load16 (bytes16 v ++ rest) 0 ≡ ok v
unfolding load16 load8
load16-bytes16 v rest h = ap ok (omega arith)

pub load32-bytes32 : (v : ℕ) (rest : List ℕ) → v < 2 ^ 32 → load32 (bytes32 v ++ rest) 0 ≡ ok v
unfolding load32 load16 load8
load32-bytes32 v rest h = ap ok (omega arith)

pub load64-bytes64 : (v : ℕ) (rest : List ℕ) → v < 2 ^ 64 → load64 (bytes64 v ++ rest) 0 ≡ ok v
unfolding load64 load32 load16 load8
load64-bytes64 v rest h = ap ok (omega arith)

-- A text with no NUL in it is read up to the NUL behind it.
pub until_nul-append : (s rest : Text) → NoNul s → until_nul (s ++ 0 ∷ rest) ≡ ok s
unfolding until_nul
until_nul-append [] rest h = refl
until_nul-append (c ∷ s) rest h = ground (arith, until_nul-append s rest h.1)

pub get_elem?-prefix :
    (pre xs : List ℕ) (i : ℕ) {b : ℕ} → get_elem? pre i ≡ some b → get_elem? (pre ++ xs) i ≡ some b
get_elem?-prefix [] xs i h = cc
get_elem?-prefix (p ∷ pre) xs zero h = h
get_elem?-prefix (p ∷ pre) xs (suc i) h = get_elem?-prefix pre xs i h

pub load16-prefix :
    (pre xs : List ℕ) (i lo hi : ℕ)
    → get_elem? pre i ≡ some lo
    → get_elem? pre (i + 1) ≡ some hi
    → load16 (pre ++ xs) i ≡ ok (lo + hi * 2 ^ 8)
unfolding load16
load16-prefix pre xs i lo hi e e' =
    rw (get_elem?-prefix pre xs i e, get_elem?-prefix pre xs (i + 1) e')

take-append : (pre xs : List ℕ) → take (length pre) (pre ++ xs) ≡ pre
take-append [] xs = refl
take-append (p ∷ pre) xs = ap (λ l. p ∷ l) (take-append pre xs)

-- A store behind a prefix replaces the four bytes there.
pub store32-append :
    (pre post : List ℕ) (a b c d v : ℕ)
    → store32 (pre ++ (a ∷ b ∷ c ∷ d ∷ post)) (length pre) v
      ≡ ok (pre ++ (v % 2 ^ 8 ∷ v / 2 ^ 8 % 2 ^ 8 ∷ v / 2 ^ 16 % 2 ^ 8 ∷ v / 2 ^ 24 % 2 ^ 8 ∷ post))
unfolding store32
store32-append pre post a b c d v =
    rw (inside, take-append pre (a ∷ b ∷ c ∷ d ∷ post), drop-append pre (a ∷ b ∷ c ∷ d ∷ post) 4)
  where
    inside : ltb (length pre + 3) (length (pre ++ (a ∷ b ∷ c ∷ d ∷ post))) ≡ true
    inside = lt→ltb _ _ (omega (arith, length-append pre (a ∷ b ∷ c ∷ d ∷ post)))
