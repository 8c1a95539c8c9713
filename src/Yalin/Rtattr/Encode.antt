-- ===== src/Yalin/Rtattr/Encode.antt =====
-- An attribute as bytes: its length, its type and what follows, wherever it stands in the memory.
use native.Mathlib.Nat.{add-zero}
use hspp.Prelude.{ℕ, ◌+◌, ◌^◌, ◌<◌, ◌≤◌, ◌≡◌, refl, List, ◌++◌, length, ap, ◌∙◌, arith, sym}
use hspp.Outcome.{ok}
use hspp.Memory.{Memory, load8, load16, load32, load64, load_str, until_nul}
use hspp.Memory.Laws.{
  bytes16, bytes64, load64-bytes64, load8-append, load32-append, load16-append, load64-append,
  load16-bytes16, drop-append,
}
use hspp.Yalin.Rtattr.{
  rtattr_type, rtattr_len, rtattr_payload_len, rtattr_read_16bit, rtattr_read_64bit,
}

abbrev pub attr_bytes : ℕ → ℕ → List ℕ → List ℕ
attr_bytes len type body = bytes16 len ++ bytes16 type ++ body

module _ (pre : List ℕ) (len type : ℕ) (body : List ℕ) where
  abbrev pub at_attr : Memory
  at_attr = pre ++ attr_bytes len type body

  pub rtattr_len-bytes : len < 2 ^ 16 → rtattr_len at_attr (length pre) ≡ ok len
  unfolding rtattr_len
  rtattr_len-bytes h =
      ap (load16 at_attr) (sym (add-zero (length pre)))
      ∙ load16-append pre (attr_bytes len type body) 0
      ∙ load16-bytes16 len (bytes16 type ++ body) h

  pub rtattr_type-bytes : type < 2 ^ 16 → rtattr_type at_attr (length pre) ≡ ok type
  unfolding rtattr_type
  rtattr_type-bytes h =
      load16-append pre (attr_bytes len type body) 2
      ∙ load16-append (bytes16 len) (bytes16 type ++ body) 0
      ∙ load16-bytes16 type body h

  pub rtattr_payload_len-bytes :
      len < 2 ^ 16
      → 4 ≤ len
      → (n : ℕ) → len ≡ n + 4
      → rtattr_payload_len at_attr (length pre) ≡ ok n
  unfolding rtattr_payload_len
  rtattr_payload_len-bytes h h' n e = rw (rtattr_len-bytes h) (ap ok (omega arith))

  pub load8-payload : load8 at_attr (length pre + 4) ≡ load8 body 0
  load8-payload =
      load8-append pre (attr_bytes len type body) 4
      ∙ load8-append (bytes16 len ++ bytes16 type) body 0

  pub load32-payload : load32 at_attr (length pre + 4) ≡ load32 body 0
  load32-payload =
      load32-append pre (attr_bytes len type body) 4
      ∙ load32-append (bytes16 len ++ bytes16 type) body 0

  pub load16-payload : load16 at_attr (length pre + 4) ≡ load16 body 0
  load16-payload =
      load16-append pre (attr_bytes len type body) 4
      ∙ load16-append (bytes16 len ++ bytes16 type) body 0

  pub load64-payload : load64 at_attr (length pre + 4) ≡ load64 body 0
  load64-payload =
      load64-append pre (attr_bytes len type body) 4
      ∙ load64-append (bytes16 len ++ bytes16 type) body 0

  pub load_str-payload : load_str at_attr (length pre + 4) ≡ until_nul body
  unfolding load_str
  load_str-payload = ap until_nul (drop-append pre (attr_bytes len type body) 4)

-- The readers give the value that the payload holds.
pub rtattr_read_16bit-bytes :
    (pre : List ℕ) (type v : ℕ) (rest : List ℕ)
    → v < 2 ^ 16
    → rtattr_read_16bit (at_attr pre 6 type (bytes16 v ++ rest)) (length pre) ≡ ok v
unfolding rtattr_read_16bit
rtattr_read_16bit-bytes pre type v rest h =
    rw
      (
        rtattr_payload_len-bytes pre 6 type (bytes16 v ++ rest) (omega arith) (omega arith) 2 refl,
        load16-payload pre 6 type (bytes16 v ++ rest),
      )
      (load16-bytes16 v rest h)

pub rtattr_read_64bit-bytes :
    (pre : List ℕ) (type v : ℕ) (rest : List ℕ)
    → v < 2 ^ 64
    → rtattr_read_64bit (at_attr pre 12 type (bytes64 v ++ rest)) (length pre) ≡ ok v
unfolding rtattr_read_64bit
rtattr_read_64bit-bytes pre type v rest h =
    rw
      (
        rtattr_payload_len-bytes pre 12 type (bytes64 v ++ rest) (omega arith) (omega arith) 8 refl,
        load64-payload pre 12 type (bytes64 v ++ rest),
      )
      (load64-bytes64 v rest h)
