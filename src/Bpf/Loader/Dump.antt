-- ===== src/Bpf/Loader/Dump.antt =====
-- What the dump of a program prints: the bytes of each instruction, in the order of the memory.
use hspp.Prelude.{
  ℕ, suc, ◌+◌, ◌*◌, ◌/◌, ◌%◌, ◌^◌, ◌≡◌, ◌<◌, refl, sym, subst, ap, ◌∙◌, arith, List, [], ◌∷◌, ◌++◌,
  Text, codes, length, map, append_assoc, append-nil,
}
use hspp.Outcome.{ok}
use hspp.Memory.Bounds.{IsBytes}
use hspp.Printf.{digit, hex0}
use hspp.Printf.Padded.{fixed, Fits, hex0-fixed}
use hspp.Calls.{Environment, Trace, run}
use hspp.Calls.Made.{made}
use hspp.Bpf.Loader.{BpfCall, Stream, stdout, print, dump_lines, rte_bpf_dump}

-- Two hexadecimal digits for each byte.
abbrev pub pairs : List ℕ → Text
pairs [] = []
pairs (b ∷ bs) = digit (b / 16) ∷ digit (b % 16) ∷ pairs bs

-- The number that the bytes are, the first one the lowest, and behind `acc` the first one the highest.
abbrev pub little_endian : List ℕ → ℕ
little_endian [] = 0
little_endian (b ∷ bs) = b + 2 ^ 8 * little_endian bs

abbrev pub big_endian : ℕ → List ℕ → ℕ
big_endian acc [] = acc
big_endian acc (b ∷ bs) = big_endian (acc * 2 ^ 8 + b) bs

-- The digits of `w` and of the bytes behind it.
abbrev width : ℕ → List ℕ → ℕ
width k [] = k
width k (b ∷ bs) = width (suc (suc k)) bs

above : (acc b : ℕ) → b < 2 ^ 8 → (acc * 2 ^ 8 + b) / 16 / 16 ≡ acc
above acc b lt = omega arith

high : (acc b : ℕ) → b < 2 ^ 8 → (acc * 2 ^ 8 + b) / 16 % 16 ≡ b / 16
high acc b lt = omega arith

low : (acc b : ℕ) → (acc * 2 ^ 8 + b) % 16 ≡ b % 16
low acc b = omega arith

fixed-big_endian :
    (k acc : ℕ) (bs : List ℕ)
    → IsBytes bs
    → fixed (width k bs) (big_endian acc bs) ≡ fixed k acc ++ pairs bs
fixed-big_endian k acc [] h = sym (append-nil _)
fixed-big_endian k acc (b ∷ bs) (lt, h) =
    fixed-big_endian (suc (suc k)) (acc * 2 ^ 8 + b) bs h
    ∙ rw (above acc b lt, high acc b lt, low acc b)
        (append_assoc (fixed k acc ++ digit (b / 16) ∷ []) _ (pairs bs)
          ∙ append_assoc (fixed k acc) _ _)

Fits-big_endian :
    (k acc : ℕ) (bs : List ℕ) → IsBytes bs → Fits k acc → Fits (width k bs) (big_endian acc bs)
Fits-big_endian k acc [] h fits = fits
Fits-big_endian k acc (b ∷ bs) (lt, h) fits =
    Fits-big_endian (suc (suc k)) (acc * 2 ^ 8 + b) bs h (rw (above acc b lt) fits)

-- A word: eight bytes.
abbrev pub IsWord : List ℕ → Type 0
IsWord bs = (length bs ≡ 8) × IsBytes bs

abbrev pub AllWords : List (List ℕ) → Type 0
AllWords [] = Unit
AllWords (w ∷ ws) = IsWord w × AllWords ws

width_word : (k : ℕ) (bs : List ℕ) → width k bs ≡ k + (length bs + length bs)
width_word k [] = omega arith
width_word k (b ∷ bs) = omega (arith, width_word (suc (suc k)) bs)

hex0-big_endian : (bs : List ℕ) → IsWord bs → hex0 16 (big_endian 0 bs) ≡ pairs bs
hex0-big_endian bs (eight, h) =
    hex0-fixed 15 (big_endian 0 bs) (omega arith)
      (subst (λ w. Fits w (big_endian 0 bs)) sixteen (Fits-big_endian 0 0 bs h refl))
    ∙ ap (λ w. fixed w (big_endian 0 bs)) (sym sixteen)
    ∙ fixed-big_endian 0 0 bs h
  where
    sixteen : width 0 bs ≡ 16
    sixteen = omega (arith, width_word 0 bs, eight)

-- The lines for the words, the first of which has number `i`: its offset, and its bytes in order.
abbrev pub byte_lines : ℕ → List (List ℕ) → List BpfCall
byte_lines i [] = []
byte_lines i (w ∷ ws) =
    print stdout (codes "  0x" ++ hex0 4 (i * 8 % 2 ^ 64) ++ codes ": " ++ pairs w ++ codes "\n")
    ∷ byte_lines (i + 1) ws

module _ (instructions : ℕ → List ℕ) (rte_bswap64 : ℕ → ℕ) (pointer : ℕ → Text)
    (swaps : (bs : List ℕ) → IsWord bs → rte_bswap64 (little_endian bs) ≡ big_endian 0 bs)
    (env : Environment BpfCall) where
  run-dump_lines :
      (i : ℕ) (ws : List (List ℕ)) (past : Trace BpfCall)
      → AllWords ws
      → run env past (dump_lines instructions rte_bswap64 pointer i (map little_endian ws))
        ≡ (ok tt, made env past (byte_lines i ws))
  unfolding dump_lines
  run-dump_lines i [] past h = refl
  run-dump_lines i (w ∷ ws) past (word, h) =
      rw (ap (hex0 16) (swaps w word) ∙ hex0-big_endian w word) (run-dump_lines (i + 1) ws _ h)

  -- Where `rte_bswap64` swaps the bytes of a word: the dump of a program whose instructions are the
  -- words `ws`, as bytes in memory, prints its header to the stream, and to stdout a line for each
  -- word, with its offset and its bytes in the order of the memory.
  pub run-rte_bpf_dump :
      (f : Stream) (bpf : ℕ) (ws : List (List ℕ)) (past : Trace BpfCall)
      → AllWords ws
      → instructions bpf ≡ map little_endian ws
      → run env past (rte_bpf_dump instructions rte_bswap64 pointer f bpf) ≡ (
        ok tt,
        made env past
            (print f (codes "bpf </pmd/md/t.o>@" ++ pointer bpf ++ codes "\n") ∷ byte_lines 0 ws),
      )
  unfolding rte_bpf_dump
  run-rte_bpf_dump f bpf ws past h e = rw e (run-dump_lines 0 ws _ h)
