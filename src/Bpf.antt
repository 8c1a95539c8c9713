-- ===== src/Bpf.antt =====
-- The packet programs of bpf/code. `mtod` stands for `rte_pktmbuf_mtod`: it gives the offset of the
-- packet's data in the memory for an mbuf, which is any type here.
pub mod Swap
pub mod Rewrite
pub mod Loader
mod Tests
use Prim.Native.Nat.{bit_and, bit_or}
use hspp.Prelude.{
  ℕ, ◌+◌, ◌*◌, ◌/◌, ◌%◌, ◌^◌, Bool, true, false, ltb, ◌==◌, not, if◌then◌else◌, List, ◌++◌, take,
  drop, length,
}
use hspp.Outcome.{Outcome, ok, stop, bad_access, ◌>>=◌}
use hspp.Memory.{Memory, load16, load32, store32}

-- The macro `bswap16`, converted to `uint16_t` by its use.
unfoldable pub bswap16 : ℕ → ℕ
bswap16 v =
    bit_or (bit_and (v % 2 ^ 16) 0x00ff * 2 ^ 8) (bit_and (v % 2 ^ 16) 0xff00 / 2 ^ 8) % 2 ^ 16

-- The macro `bswap32`; a shift to the left drops what does not fit 32 bits.
unfoldable pub bswap32 : ℕ → ℕ
bswap32 v =
    let w = v % 2 ^ 32 in
    bit_or
      (bit_or
        (bit_or (bit_and w 0x000000ff * 2 ^ 24 % 2 ^ 32) (bit_and w 0x0000ff00 * 2 ^ 8 % 2 ^ 32))
        (bit_and w 0x00ff0000 / 2 ^ 8))
      (bit_and w 0xff000000 / 2 ^ 24)

-- `sizeof(struct ether_header)` and the offsets of `ether_type` and of `saddr` in `struct iphdr`.
abbrev pub sizeof_ether_header : ℕ
sizeof_ether_header = 14

abbrev pub ether_type_offset : ℕ
ether_type_offset = 12

abbrev pub saddr_offset : ℕ
saddr_offset = 12

-- The body that t2.c and t3.c share, but for the two addresses.
module _ {Mbuf : Type 0} (mtod : Mbuf → ℕ) where
  unfoldable pub entry_drop : Memory → Mbuf → ℕ
  entry_drop mem pkt = 1

  unfoldable pub eentry_t2 : Memory → Mbuf → Outcome (Memory × ℕ)
  eentry_t2 mem m = do
    let eh = mtod m
    ether_type ← load16 mem (eh + ether_type_offset)
    let type = bswap16 ether_type
    if not (type == 0x0800) then ok (mem, 0) else (do
      let ih = eh + sizeof_ether_header
      raw ← load32 mem (ih + saddr_offset)
      let saddr = bswap32 raw
      if saddr == 0x0a000002
          then (do mem' ← store32 mem (ih + saddr_offset) (bswap32 0x0a000014); ok (mem', 0))
          else ok (mem, 0))

  unfoldable pub eentry_t3 : Memory → Mbuf → Outcome (Memory × ℕ)
  eentry_t3 mem m = do
    let eh = mtod m
    ether_type ← load16 mem (eh + ether_type_offset)
    let type = bswap16 ether_type
    if not (type == 0x0800) then ok (mem, 0) else (do
      let ih = eh + sizeof_ether_header
      raw ← load32 mem (ih + saddr_offset)
      let saddr = bswap32 raw
      if saddr == 0x0a000014
          then (do mem' ← store32 mem (ih + saddr_offset) (bswap32 0x0a000002); ok (mem', 0))
          else ok (mem, 0))
