-- ===== src/Yalin/Flags/Join.antt =====
-- The text of a flag word is the names of the bits that are set, in order, with bars between.
use native.Mathlib.Nat.{one-le-pow, add-zero}
use native.Mathlib.Decide.{dec_le}
use hspp.Prelude.Bits.{bit_and_ones, bit_and_shifted}
use hspp.Prelude.{
  ℕ, zero, suc, ◌+◌, ◌*◌, ◌/◌, ◌%◌, ◌^◌, ◌<◌, ◌≤◌, ◌≡◌, refl, sym, ap, ◌∙◌, Bool, true, false, ltb,
  ◌==◌, if◌then◌else◌, List, [], ◌∷◌, ◌++◌, append_assoc, append-nil, Text, codes, length,
  length-append, length-take, take, get_elem?, some, arith, Bool-cases, ltb→lt, lt→ltb, inl, inr,
}
use hspp.Outcome.{Outcome, ok, stop, bad_access, ◌>>=◌}
use hspp.Memory.{or_fault}
use hspp.Yalin.Flags.{FlagsStr, strncat, flag_is_set, min_macro, flags_loop, snprintflags_long}

-- A text in an array of `len` bytes, or a fault.
abbrev pub fit : ℕ → Text → Outcome Text
fit len t = if ltb (length t) len then ok t else stop bad_access

-- The names of the bits that are set from bit `i` on.
abbrev pub set_names : (FlagsStr → Text) → ℕ → ℕ → List FlagsStr → List Text
set_names name flags i [] = []
set_names name flags i (e ∷ es) =
    if flags / 2 ^ i % 2 == 1
    then name e ∷ set_names name flags (i + 1) es
    else set_names name flags (i + 1) es

abbrev pub barred : List Text → Text
barred [] = []
barred (n ∷ ns) = codes "|" ++ (n ++ barred ns)

abbrev pub joined : List Text → Text
joined [] = []
joined (n ∷ ns) = n ++ barred ns

pub take_all : (n : ℕ) (s : Text) → length s ≤ n → take n s ≡ s
take_all zero [] h = refl
take_all zero (c ∷ s) h = absurd (omega arith)
take_all (suc n) [] h = refl
take_all (suc n) (c ∷ s) h = ap (λ t. c ∷ t) (take_all n s (omega arith))

strncat-fit : (len : ℕ) (s src : Text) → strncat len s src len ≡ fit len (s ++ src)
unfolding strncat
strncat-fit len s src = elim (dec_le (length src) len) [
  | yes small ↦ rw (take_all len src small)
  | no big ↦
      ground (arith, length-append s src, length-append s (take len src), length-take len src)
]

pub fit-bind :
    (len : ℕ) (t u : Text) (f : Text → Outcome Text)
    → (length t < len → f t ≡ fit len (t ++ u))
    → (fit len t >>= f) ≡ fit len (t ++ u)
fit-bind len t u f h = elim (Bool-cases (ltb (length t) len)) [
  | inl e ↦ rw e (h (ltb→lt _ _ e))
  | inr e ↦ rw e (ground (arith, length-append t u))
]

digit_test : (r p : ℕ) → r < 2 → 1 ≤ p → (if r * p == 0 then false else true) ≡ (r == 1)
digit_test zero p h q = ground arith
digit_test (suc zero) p h q = ground arith
digit_test (suc (suc r)) p h q = absurd (omega arith)

flag_is_set-bit : (flags i : ℕ) → flag_is_set flags i ≡ (flags / 2 ^ i % 2 == 1)
unfolding flag_is_set
flag_is_set-bit flags i =
    rw (bit_and_shifted i flags 1, bit_and_ones 1 (flags / 2 ^ i))
      (digit_test (flags / 2 ^ i % 2) (2 ^ i) (omega arith) (one-le-pow i 2 (omega arith)))

-- What the loop appends, before the first name and behind it.
abbrev rest_of : Bool → List Text → Text
rest_of true ns = joined ns
rest_of false ns = barred ns

-- The entries from index `i` on are `es`.
abbrev From : List FlagsStr → ℕ → List FlagsStr → Type 0
From fstr i es = (j : ℕ) → get_elem? fstr (i + j) ≡ get_elem? es j

From-head :
    (fstr : List FlagsStr) (i : ℕ) (e : FlagsStr) (es : List FlagsStr)
    → From fstr i (e ∷ es)
    → get_elem? fstr i ≡ some e
From-head fstr i e es h = ap (get_elem? fstr) (sym (add-zero i)) ∙ h 0

From-tail :
    (fstr : List FlagsStr) (i : ℕ) (e : FlagsStr) (es : List FlagsStr)
    → From fstr i (e ∷ es)
    → From fstr (i + 1) es
From-tail fstr i e es h j = ap (get_elem? fstr) (omega arith) ∙ h (suc j)

module _ (name : FlagsStr → Text) (len flags : ℕ) (fstr : List FlagsStr) where
  -- One name is appended, and the loop goes on.
  append_name :
      (i : ℕ) (e : FlagsStr) (es : List FlagsStr) (s : Text)
      → get_elem? fstr i ≡ some e
      → ((t : Text)
          → length t < len
          → flags_loop name len flags fstr (length es) (i + 1) false t
            ≡ fit len (t ++ barred (set_names name flags (i + 1) es)))
      → (do
        entry ← or_fault (get_elem? fstr i)
        t ← strncat len s (name entry) len
        flags_loop name len flags fstr (length es) (i + 1) false t)
        ≡ fit len (s ++ (name e ++ barred (set_names name flags (i + 1) es)))
  append_name i e es s at ih =
      rw (at, strncat-fit)
        (fit-bind len (s ++ name e) (barred (set_names name flags (i + 1) es)) _ (ih (s ++ name e))
          ∙ ap (fit len) (append_assoc s (name e) _))

  nothing_left :
      (first : Bool) (str : Text) → length str < len → ok str ≡ fit len (str ++ rest_of first [])
  nothing_left true str h = rw (append-nil, lt→ltb _ _ h)
  nothing_left false str h = rw (append-nil, lt→ltb _ _ h)

  -- The first name needs no bar.
  append_more :
      (i : ℕ) (e : FlagsStr) (es : List FlagsStr) (first : Bool) (str : Text)
      → length str < len
      → get_elem? fstr i ≡ some e
      → ((t : Text)
          → length t < len
          → flags_loop name len flags fstr (length es) (i + 1) false t
            ≡ fit len (t ++ barred (set_names name flags (i + 1) es)))
      → (do
        s ← if first then ok str else strncat len str (codes "|") len
        entry ← or_fault (get_elem? fstr i)
        t ← strncat len s (name entry) len
        flags_loop name len flags fstr (length es) (i + 1) false t)
        ≡ fit len (str ++ rest_of first (name e ∷ set_names name flags (i + 1) es))
  append_more i e es true str h at ih = append_name i e es str at ih
  append_more i e es false str h at ih = rw strncat-fit (
      fit-bind len (str ++ codes "|") (name e ++ barred (set_names name flags (i + 1) es)) _
        (λ _. append_name i e es (str ++ codes "|") at ih)
      ∙ ap (fit len) (append_assoc str (codes "|") _))

  flags_loop-fit :
      (i : ℕ) (es : List FlagsStr) (first : Bool) (str : Text)
      → From fstr i es
      → length str < len
      → flags_loop name len flags fstr (length es) i first str
        ≡ fit len (str ++ rest_of first (set_names name flags i es))
  unfolding flags_loop
  flags_loop-fit i [] first str from h = nothing_left first str h
  flags_loop-fit i (e ∷ es) first str from h = elim (Bool-cases (flags / 2 ^ i % 2 == 1)) [
    | inl on ↦
        rw (flag_is_set-bit flags i ∙ on, on, flags_loop)
          (append_more i e es first str h (From-head fstr i e es from)
            λ t lt. flags_loop-fit (i + 1) es false t (From-tail fstr i e es from) lt)
    | inr off ↦
        rw (flag_is_set-bit flags i ∙ off, off, flags_loop)
          (flags_loop-fit (i + 1) es first str (From-tail fstr i e es from) h)
  ]

-- For a table of at most 32 entries and an array of `len` bytes, `len` not 0: the text is the long
-- names of the bits of `flags` that are set, lowest bit first, with a bar between two names, if it
-- has less than `len` bytes; otherwise the code writes behind the array.
pub snprintflags_long_lem :
    (len flags : ℕ) (fstr : List FlagsStr)
    → 0 < len
    → length fstr ≤ 32
    → snprintflags_long len flags fstr (length fstr) ≡ (
        let text = joined (set_names (λ e. e.name_long) flags 0 fstr) in
        if ltb (length text) len then ok text else stop bad_access)
unfolding snprintflags_long
snprintflags_long_lem len flags fstr pos short =
    rw whole (flags_loop-fit (λ e. e.name_long) len flags fstr 0 fstr true [] from_start pos)
  where
    whole : min_macro (length fstr) 32 ≡ length fstr
    whole = ground arith

    from_start : From fstr 0 fstr
    from_start j = ap (get_elem? fstr) (omega arith)
