-- ===== src/Bpf/Rewrite.antt =====
-- What the packet programs do to a frame: only the source address of an IPv4 packet changes.
use hspp.Prelude.{
  ℕ, ◌+◌, ◌*◌, ◌^◌, ◌<◌, ◌≡◌, refl, sym, ap, ◌∙◌, arith, Bool, true, false, ◌==◌, ◌&&◌,
  if◌then◌else◌, List, [], ◌∷◌, ◌++◌, length, get_elem?, some, Bool-cases, inl, inr,
}
use native.Mathlib.Nat.{add-zero}
use hspp.Outcome.{ok, ◌>>=◌}
use hspp.Memory.{Memory, load8, load16, load32, store32}
use hspp.Memory.Laws.{load16-prefix, load32-append, store32-append}
use hspp.Bpf.{bswap16, bswap32, eentry_t2, eentry_t3}
use hspp.Bpf.Swap.{bswap16_lem, bswap32_lem}

-- An IPv4 address by its four bytes in the order of the wire.
pub record Address : Type 0 where
  pub a : ℕ
  pub b : ℕ
  pub c : ℕ
  pub d : ℕ

abbrev pub address_bytes : Address → List ℕ
address_bytes s = s.a ∷ s.b ∷ s.c ∷ s.d ∷ []

abbrev pub address : ℕ → ℕ → ℕ → ℕ → Address
address a b c d = record { a = a; b = b; c = c; d = d }

unfoldable pub same_address : Address → Address → Bool
same_address s t = s.a == t.a && (s.b == t.b && (s.c == t.c && s.d == t.d))

-- A frame whose data starts at offset `p`: what stands before the source address, with the two
-- bytes of the EtherType in it, the address, and the rest.
pub record Frame : Type 0 where
  pub before : List ℕ
  pub type_hi : ℕ
  pub type_lo : ℕ
  pub source : Address
  pub rest : List ℕ

abbrev pub frame_bytes : Frame → Memory
frame_bytes f = f.before ++ (address_bytes f.source ++ f.rest)

pub record IsFrame (p : ℕ) (f : Frame) : Type 0 where
  pub place : length f.before ≡ p + 26
  pub hi_at : get_elem? f.before (p + 12) ≡ some f.type_hi
  pub lo_at : get_elem? f.before (p + 12 + 1) ≡ some f.type_lo
  pub hi_byte : f.type_hi < 2 ^ 8
  pub lo_byte : f.type_lo < 2 ^ 8
  pub a_byte : f.source.a < 2 ^ 8
  pub b_byte : f.source.b < 2 ^ 8
  pub c_byte : f.source.c < 2 ^ 8
  pub d_byte : f.source.d < 2 ^ 8

-- EtherType 08 00
unfoldable pub is_ipv4 : Frame → Bool
is_ipv4 f = f.type_hi == 0x08 && f.type_lo == 0x00

-- The source address `from` of an IPv4 packet becomes `to`.
unfoldable pub readdress : Address → Address → Frame → Frame
readdress from to f =
    if is_ipv4 f && same_address f.source from then record f { source = to } else f

word : Address → ℕ
word s = s.a + s.b * 2 ^ 8 + (s.c + s.d * 2 ^ 8) * 2 ^ 16

module _ (p : ℕ) (f : Frame) (good : IsFrame p f) where
  load_type : load16 (frame_bytes f) (p + 12) ≡ ok (f.type_hi + f.type_lo * 2 ^ 8)
  load_type = load16-prefix f.before _ (p + 12) f.type_hi f.type_lo good.hi_at good.lo_at

  at_source : p + 14 + 12 ≡ length f.before
  at_source = omega arith

  load_source : load32 (frame_bytes f) (p + 14 + 12) ≡ ok (word f.source)
  unfolding word load32 load16 load8
  load_source =
      ap (load32 (frame_bytes f)) (at_source ∙ sym (add-zero (length f.before)))
      ∙ load32-append f.before (address_bytes f.source ++ f.rest) 0

  word-lt : word f.source < 2 ^ 32
  unfolding word
  word-lt = omega arith

  type_test : (bswap16 (f.type_hi + f.type_lo * 2 ^ 8) == 0x0800) ≡ is_ipv4 f
  unfolding is_ipv4
  type_test = rw (bswap16_lem (f.type_hi + f.type_lo * 2 ^ 8) (omega arith)) (ground arith)

  swapped :
      bswap32 (word f.source)
      ≡ f.source.a * 2 ^ 24 + f.source.b * 2 ^ 16 + f.source.c * 2 ^ 8 + f.source.d
  unfolding word
  swapped = bswap32_lem (word f.source) word-lt ∙ omega arith

  source_test :
      (x : ℕ)
      → x < 2 ^ 8
      → (bswap32 (word f.source) == 0x0a000000 + x) ≡ same_address f.source (address 10 0 0 x)
  unfolding same_address
  source_test x h = rw swapped (ground arith)

  store_source :
      (x : ℕ)
      → x < 2 ^ 8
      → store32 (frame_bytes f) (p + 14 + 12) (bswap32 (0x0a000000 + x))
        ≡ ok (frame_bytes (record f { source = address 10 0 0 x }))
  store_source x h =
      rw (at_source, bswap32_lem (0x0a000000 + x) (omega arith), store32-append) (ground arith)

keep : (f : Frame) (from to : Address) → is_ipv4 f ≡ false → readdress from to f ≡ f
unfolding readdress
keep f from to other = rw other

keep_source :
    (f : Frame) (from to : Address) → same_address f.source from ≡ false → readdress from to f ≡ f
unfolding readdress
keep_source f from to other = elim (Bool-cases (is_ipv4 f)) [
  | inl ip ↦ rw (ip, other)
  | inr no_ip ↦ rw no_ip
]

change :
    (f : Frame) (from to : Address)
    → is_ipv4 f ≡ true
    → same_address f.source from ≡ true
    → readdress from to f ≡ record f { source = to }
unfolding readdress
change f from to ip same = rw (ip, same)

module _ {Mbuf : Type 0} (mtod : Mbuf → ℕ) (m : Mbuf) (f : Frame) (good : IsFrame (mtod m) f) where
  -- On a frame, the program of t2.c returns 0; in an IPv4 packet from 10.0.0.2 it makes the source
  -- 10.0.0.20, and it changes nothing else.
  pub t2_readdress :
      eentry_t2 mtod (frame_bytes f) m
      ≡ ok (frame_bytes (readdress (address 10 0 0 2) (address 10 0 0 20) f), 0)
  unfolding eentry_t2
  t2_readdress =
      rw (load_type (mtod m) f good, type_test (mtod m) f good)
        (elim (Bool-cases (is_ipv4 f)) [
          | inr no_ip ↦ rw (no_ip, keep f _ _ no_ip)
          | inl ip ↦
              rw (ip, load_source (mtod m) f good, source_test (mtod m) f good 2 (omega arith))
                (elim (Bool-cases (same_address f.source (address 10 0 0 2))) [
                  | inr other ↦ rw (other, keep_source f _ _ other)
                  | inl same ↦ rw (
                    same,
                    store_source (mtod m) f good 20 (omega arith),
                    change f _ (address 10 0 0 20) ip same,
                  )
                ])
        ])

  -- On a frame, the program of t3.c returns 0; in an IPv4 packet from 10.0.0.20 it makes the source
  -- 10.0.0.2, and it changes nothing else.
  pub t3_readdress :
      eentry_t3 mtod (frame_bytes f) m
      ≡ ok (frame_bytes (readdress (address 10 0 0 20) (address 10 0 0 2) f), 0)
  unfolding eentry_t3
  t3_readdress =
      rw (load_type (mtod m) f good, type_test (mtod m) f good)
        (elim (Bool-cases (is_ipv4 f)) [
          | inr no_ip ↦ rw (no_ip, keep f _ _ no_ip)
          | inl ip ↦
              rw (ip, load_source (mtod m) f good, source_test (mtod m) f good 20 (omega arith))
                (elim (Bool-cases (same_address f.source (address 10 0 0 20))) [
                  | inr other ↦ rw (other, keep_source f _ _ other)
                  | inl same ↦ rw (
                    same,
                    store_source (mtod m) f good 2 (omega arith),
                    change f _ (address 10 0 0 2) ip same,
                  )
                ])
        ])

same_address-eq :
    (s : Address) (x : ℕ) → same_address s (address 10 0 0 x) ≡ true → s ≡ address 10 0 0 x
unfolding same_address
same_address-eq s x h = ground arith

readdress-IsFrame :
    (p : ℕ) (f : Frame) (x y : ℕ)
    → y < 2 ^ 8
    → IsFrame p f
    → IsFrame p (readdress (address 10 0 0 x) (address 10 0 0 y) f)
unfolding readdress
readdress-IsFrame p f x y h good =
    elim (Bool-cases (is_ipv4 f && same_address f.source (address 10 0 0 x))) [
      | inl yes_both ↦ rw yes_both (record {
        place = good.place;
        hi_at = good.hi_at;
        lo_at = good.lo_at;
        hi_byte = good.hi_byte;
        lo_byte = good.lo_byte;
        a_byte = omega arith;
        b_byte = omega arith;
        c_byte = omega arith;
        d_byte = h;
      })
      | inr not_both ↦ rw not_both good
    ]

ipv4_of_source : (f : Frame) (s : Address) → is_ipv4 (record f { source = s }) ≡ is_ipv4 f
unfolding is_ipv4
ipv4_of_source f s = refl

twenty-same : same_address (address 10 0 0 20) (address 10 0 0 20) ≡ true
unfolding same_address
twenty-same = refl

readdress_back :
    (f : Frame)
    → same_address f.source (address 10 0 0 20) ≡ false
    → readdress
        (address 10 0 0 20)
        (address 10 0 0 2)
        (readdress (address 10 0 0 2) (address 10 0 0 20) f)
      ≡ f
readdress_back f h = elim (Bool-cases (is_ipv4 f)) [
  | inr no_ip ↦ rw (keep f _ _ no_ip) (keep f _ _ no_ip)
  | inl ip ↦ elim (Bool-cases (same_address f.source (address 10 0 0 2))) [
    | inr other ↦ rw (keep_source f _ _ other) (keep_source f _ _ h)
    | inl same ↦ rw (change f _ (address 10 0 0 20) ip same) (
        change (record f { source = address 10 0 0 20 }) (address 10 0 0 20) (address 10 0 0 2)
          (ipv4_of_source f (address 10 0 0 20) ∙ ip) twenty-same
        ∙ ap (λ a. record f { source = a }) (sym (same_address-eq f.source 2 same)))
  ]
]

module _ {Mbuf : Type 0} (mtod : Mbuf → ℕ) (m : Mbuf) (f : Frame) (good : IsFrame (mtod m) f) where
  -- On a frame whose source is not 10.0.0.20, the program of t3.c undoes that of t2.c, and returns 0.
  t3-t2 :
      same_address f.source (address 10 0 0 20) ≡ false
      → (do (mem, code) ← eentry_t2 mtod (frame_bytes f) m; eentry_t3 mtod mem m)
        ≡ ok (frame_bytes f, 0)
  t3-t2 h = rw (t2_readdress mtod m f good) (
      t3_readdress mtod m (readdress (address 10 0 0 2) (address 10 0 0 20) f)
        (readdress-IsFrame (mtod m) f 2 20 (omega arith) good)
      ∙ ap (λ g. ok (frame_bytes g, 0)) (readdress_back f h))
