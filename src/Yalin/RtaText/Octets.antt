-- ===== src/Yalin/RtaText/Octets.antt =====
-- The loops that append two digits for each byte, as one text or as a write behind the array.
use native.Mathlib.Decide.{dec_le}
use native.Mathlib.Nat.{add-zero}
use hspp.Prelude.{
  ℕ, suc, ◌+◌, ◌-◌, ◌/◌, ◌%◌, ◌^◌, ◌<◌, ◌≤◌, ◌≡◌, refl, sym, ap, ap₂, ◌∙◌, arith, false, lt→ltb,
  ◌==◌, List, [], ◌∷◌, ◌++◌, append_assoc, append-nil, Text, length, length-append, ==_iff,
}
use hspp.Outcome.{ok}
use hspp.Memory.{load8}
use hspp.Memory.Laws.{load8-append}
use hspp.Printf.{digit, digits, hex, hex0, snprintf}
use hspp.Yalin.Flags.{strncat}
use hspp.Yalin.Flags.Join.{fit, fit-bind, take_all}
use hspp.Yalin.RtaText.{octets}

abbrev pub AllBytes : List ℕ → Type 0
AllBytes [] = Unit
AllBytes (b ∷ bs) = (b < 2 ^ 8) × AllBytes bs

-- Two digits for each byte, and `sep` behind them.
abbrev pub octets_text : Text → List ℕ → Text
octets_text sep [] = []
octets_text sep (b ∷ bs) = digit (b / 16) ∷ digit (b % 16) ∷ sep ++ octets_text sep bs

digits_last : (f n : ℕ) (out : Text) → n < 16 → digits 16 (suc f) n out ≡ digit n ∷ out
unfolding digits
digits_last f n out h =
    rw ((==_iff (n / 16) 0).1 (omega arith), digits) (ap (λ d. digit d ∷ out) (omega arith))

quotient_test : (n : ℕ) → 16 ≤ n → (n / 16 == 0) ≡ false
quotient_test n h = ground arith

digits_more :
    (f n : ℕ) (out : Text)
    → 16 ≤ n
    → digits 16 (suc f) n out ≡ digits 16 f (n / 16) (digit (n % 16) ∷ out)
unfolding digits
digits_more f n out h = rw (quotient_test n h, digits) refl

no_quotient : (n : ℕ) → n < 16 → 0 ≡ n / 16
no_quotient n h = omega arith

own_remainder : (n : ℕ) → n < 16 → n ≡ n % 16
own_remainder n h = omega arith

pub hex0_two : (b : ℕ) → b < 2 ^ 8 → hex0 2 b ≡ digit (b / 16) ∷ digit (b % 16) ∷ []
unfolding hex0 hex
hex0_two b h = elim (dec_le 16 b) [
  | no small ↦ rw (digits_last 15 b [] (omega arith)) (
      ap (λ d. digit d ∷ digit b ∷ []) (no_quotient b (omega arith))
      ∙ ap (λ e. digit (b / 16) ∷ digit e ∷ []) (own_remainder b (omega arith)))
  | yes big ↦
      rw (digits_more 15 b [] big, digits_last 14 (b / 16) (digit (b % 16) ∷ []) (omega arith)) refl
]

sub_text :
    (sep : Text) (k b : ℕ)
    → length sep + 2 < k
    → b < 2 ^ 8
    → snprintf k (hex0 2 b ++ sep) ≡ digit (b / 16) ∷ digit (b % 16) ∷ sep
unfolding snprintf
sub_text sep k b h hb =
    rw (hex0_two b hb) (take_all (k - 1) (digit (b / 16) ∷ digit (b % 16) ∷ sep) (omega arith))

strncat-whole : (size : ℕ) (s src : Text) → strncat size s src (length src) ≡ fit size (s ++ src)
unfolding strncat
strncat-whole size s src = rw (take_all (length src) src (omega arith))

load8-here : (pre : List ℕ) (b : ℕ) (xs : List ℕ) → load8 (pre ++ (b ∷ xs)) (length pre) ≡ ok b
unfolding load8
load8-here pre b xs =
    ap (load8 (pre ++ (b ∷ xs))) (sym (add-zero (length pre))) ∙ load8-append pre (b ∷ xs) 0

-- On bytes, the loop appends the digits of all of them if the text fits, and otherwise writes
-- behind the array.
pub octets_lem :
    (size k : ℕ) (sep : Text) (pre bs rest : List ℕ) (str : Text)
    → length sep + 2 < k
    → AllBytes bs
    → length str < size
    → octets size k sep (pre ++ (bs ++ rest)) (length pre) (length bs) str
      ≡ fit size (str ++ octets_text sep bs)
unfolding octets
octets_lem size k sep pre [] rest str h good small = rw (append-nil str, lt→ltb _ _ small)
octets_lem size k sep pre (b ∷ bs) rest str h good small =
    rw (load8-here pre b (bs ++ rest), sub_text sep k b h good.0, strncat-whole size str two)
      (fit-bind size (str ++ two) (octets_text sep bs) _
          (later (octets_lem size k sep (pre ++ (b ∷ [])) bs rest (str ++ two) h good.1))
        ∙ ap (fit size) (append_assoc str two (octets_text sep bs)))
  where
    two : Text
    two = digit (b / 16) ∷ digit (b % 16) ∷ sep

    later :
        (length (str ++ two) < size
          → octets size k sep
              ((pre ++ (b ∷ [])) ++ (bs ++ rest))
              (length (pre ++ (b ∷ [])))
              (length bs)
              (str ++ two)
            ≡ fit size ((str ++ two) ++ octets_text sep bs))
        → length (str ++ two) < size
        → octets size k sep (pre ++ (b ∷ (bs ++ rest))) (length pre + 1) (length bs) (str ++ two)
          ≡ fit size ((str ++ two) ++ octets_text sep bs)
    later hyp fits =
        ap₂ (λ m a. octets size k sep m a (length bs) (str ++ two))
          (sym (append_assoc pre (b ∷ []) (bs ++ rest))) (sym (length-append pre (b ∷ [])))
        ∙ hyp fits
