-- ===== src/Printf/CString.antt =====
-- Texts without a NUL in them, and what `snprintf` leaves in an array of a given size.
use hspp.Prelude.{
  ℕ, zero, suc, ◌-◌, ◌/◌, ◌%◌, ◌<◌, ◌≤◌, ◌≡◌, ◌≢◌, arith, Bool, true, false, ◌==◌, not, ◌&&◌,
  if◌then◌else◌, [], ◌∷◌, ◌++◌, Text, length, take, replicate,
}
use hspp.Memory.Laws.{NoNul}
use hspp.Printf.{digit, digits, dec, hex, hex0, snprintf}

append-NoNul : (s t : Text) → NoNul s → NoNul t → NoNul (s ++ t)
append-NoNul [] t a b = b
append-NoNul (c ∷ s) t a b = (a.0, append-NoNul s t a.1 b)

take-NoNul : (n : ℕ) (s : Text) → NoNul s → NoNul (take n s)
take-NoNul zero s a = tt
take-NoNul (suc n) [] a = tt
take-NoNul (suc n) (c ∷ s) a = (a.0, take-NoNul n s a.1)

-- A test for the texts of the source.
abbrev pub no_nul : Text → Bool
no_nul [] = true
no_nul (c ∷ s) = not (c == 0) && no_nul s

no_nul-NoNul : (s : Text) → no_nul s ≡ true → NoNul s
no_nul-NoNul [] e = tt
no_nul-NoNul (c ∷ s) e = ground (arith, no_nul-NoNul s)

replicate-NoNul : (n c : ℕ) → c ≢ 0 → NoNul (replicate n c)
replicate-NoNul zero c a = tt
replicate-NoNul (suc n) c a = (a, replicate-NoNul n c a)

digit-NoNul : (d : ℕ) → digit d ≢ 0
digit-NoNul d = ground arith

digits-NoNul : (base fuel n : ℕ) (out : Text) → NoNul out → NoNul (digits base fuel n out)
unfolding digits
digits-NoNul base zero n out a = a
digits-NoNul base (suc fuel) n out a = ground (
  arith,
  digit-NoNul (n % base),
  digits-NoNul base fuel (n / base) (digit (n % base) ∷ out) (digit-NoNul (n % base), a),
)

dec-NoNul : (n : ℕ) → NoNul (dec n)
unfolding dec
dec-NoNul n = digits-NoNul 10 20 n [] tt

hex-NoNul : (n : ℕ) → NoNul (hex n)
unfolding hex
hex-NoNul n = digits-NoNul 16 16 n [] tt

hex0-NoNul : (width n : ℕ) → NoNul (hex0 width n)
unfolding hex0
hex0-NoNul width n =
    append-NoNul (replicate (width - length (hex n)) b'0') (hex n)
      (replicate-NoNul (width - length (hex n)) b'0' (λ e. omega (arith, e))) (hex-NoNul n)

length-take_least : (n : ℕ) (s : Text) → length (take n s) ≤ n
length-take_least zero s = omega arith
length-take_least (suc n) [] = omega arith
length-take_least (suc n) (c ∷ s) = omega (arith, length-take_least n s)

-- A text without a NUL.
pub data Clean (s : Text) : Type 0 where
  clean : NoNul s → Clean s

both-Clean : (s t : Text) → Clean s → Clean t → Clean (s ++ t)
both-Clean s t (clean a) (clean b) = clean (append-NoNul s t a b)

infixl 6 ◌&◌
pub ◌&◌ : {s t : Text} → Clean s → Clean t → Clean (s ++ t)
a & b = both-Clean _ _ a b

pub if-Clean : (test : Bool) {s t : Text} → Clean s → Clean t → Clean (if test then s else t)
if-Clean true a b = a
if-Clean false a b = b

pub literal : (s : Text) → no_nul s ≡ true → Clean s
literal s e = clean (no_nul-NoNul s e)

pub dec-Clean : (n : ℕ) → Clean (dec n)
dec-Clean n = clean (dec-NoNul n)

pub hex0-Clean : (width n : ℕ) → Clean (hex0 width n)
hex0-Clean width n = clean (hex0-NoNul width n)

pub take-Clean : (n : ℕ) {s : Text} → Clean s → Clean (take n s)
take-Clean n {s} (clean a) = clean (take-NoNul n s a)

-- A text in an array of `size` bytes, with room for the NUL behind it.
abbrev pub IsCString : ℕ → Text → Type 0
IsCString size s = NoNul s × (length s < size)

pub snprintf-IsCString :
    (size : ℕ) {s : Text} → 0 < size → Clean s → IsCString size (snprintf size s)
unfolding snprintf
snprintf-IsCString size {s} room (clean a) =
    (take-NoNul (size - 1) s a, omega (arith, length-take_least (size - 1) s))
