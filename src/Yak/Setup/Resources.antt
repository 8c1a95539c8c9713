-- ===== src/Yak/Setup/Resources.antt =====
-- What yak holds after the calls of a trace: blocks, packet pools, rings, descriptors and devices.
use hspp.Prelude.{
  Bool-cases, inl, inr, ℕ, ◌%◌, ◌^◌, ◌≡◌, refl, Bool, true, false, ◌==◌, if◌then◌else◌, List, [],
  ◌∷◌, arith,
}
use hspp.Calls.{Trace, is_negative}
use hspp.Calls.Triple.{state}
use hspp.Dpdk.{
  DpdkCall, malloc, pool_create, dev_start, dev_stop, ring_create, mempool_free, ring_free,
  open_tun, socket_inet, close,
}
use hspp.Yak.Setup.{PortHandle}

pub data Resource : Type 0 where
  block pool ring descriptor device : ℕ → Resource

abbrev pub same : Resource → Resource → Bool
same (block p) (block q) = p == q
same (pool p) (pool q) = p == q
same (ring p) (ring q) = p == q
same (descriptor p) (descriptor q) = p == q
same (device p) (device q) = p == q
same _ _ = false

abbrev pub without : Resource → List Resource → List Resource
without r [] = []
without r (x ∷ xs) = let rest = without r xs in if same r x then xs else x ∷ rest

-- What is held after one more call.
abbrev pub after_call : List Resource → DpdkCall → ℕ → List Resource
after_call held malloc p = if p == 0 then held else block p ∷ held
after_call held (pool_create name n cache socket) p = if p == 0 then held else pool p ∷ held
after_call held (ring_create name size) p = if p == 0 then held else ring p ∷ held
after_call held open_tun fd = if is_negative fd then held else descriptor fd ∷ held
after_call held socket_inet fd = if is_negative fd then held else descriptor fd ∷ held
after_call held (dev_start port) n = if is_negative n then held else device port ∷ held
after_call held (dev_stop port) n = without (device port) held
after_call held (mempool_free p) n = without (pool p) held
after_call held (ring_free p) n = without (ring p) held
after_call held (close fd) n = if is_negative fd then held else without (descriptor fd) held
after_call held _ n = held

abbrev pub held_after : List Resource → Trace DpdkCall → List Resource
held_after start = state after_call start

-- With a descriptor, unless it is an error.
abbrev pub opened : ℕ → List Resource → List Resource
opened fd held = if is_negative fd then held else descriptor fd ∷ held

-- With all that belongs to a port; the device that runs has the lower 8 bits of its identifier.
abbrev pub with_port : PortHandle → List Resource → List Resource
with_port h held =
    ring h.from_hostif
    ∷ opened h.hostif_fd (device (h.dpdk_pid % 2 ^ 8) ∷ pool h.mp ∷ block h.address ∷ held)

pub same_refl : (r : Resource) → same r r ≡ true
same_refl (block p) = ground arith
same_refl (pool p) = ground arith
same_refl (ring p) = ground arith
same_refl (descriptor p) = ground arith
same_refl (device p) = ground arith

pub without_first : (r : Resource) (held : List Resource) → without r (r ∷ held) ≡ held
without_first r held = rw (same_refl r) refl

pub closed :
    (fd : ℕ) (held : List Resource)
    → (if is_negative fd then opened fd held else without (descriptor fd) (opened fd held)) ≡ held
closed fd held = elim (Bool-cases (is_negative fd)) [
  | inl e ↦ rw e refl
  | inr e ↦ rw e (without_first (descriptor fd) held)
]
