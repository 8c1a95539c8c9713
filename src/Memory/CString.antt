-- ===== src/Memory/CString.antt =====
-- A string that is read from the memory has no NUL in it.
use hspp.Prelude.{ℕ, refl, ◌==◌, Bool-cases, inl, inr, [], ◌∷◌, drop}
use hspp.Outcome.Ensures.{Ensures, ensured, halted, known-Ensures}
use hspp.Memory.{Memory, until_nul, load_str}
use hspp.Printf.CString.{Clean, clean, ◌&◌, literal}

until_nul-Clean : (mem : Memory) → Ensures Clean (until_nul mem)
unfolding until_nul
until_nul-Clean [] = halted
until_nul-Clean (c ∷ mem) = elim (Bool-cases (c == 0)) [
  | inl e ↦ rw e (ensured (clean tt))
  | inr e ↦ rw e (
      known-Ensures (until_nul mem) (until_nul-Clean mem)
        (λ s a. ensured (literal (c ∷ []) (rw e refl) & a)))
]

pub load_str-Clean : (mem : Memory) (a : ℕ) → Ensures Clean (load_str mem a)
unfolding load_str
load_str-Clean mem a = until_nul-Clean (drop a mem)
