-- ===== src/Bpf/Tests.antt =====
-- The theorems on the packet programs at one frame: an IPv4 packet from 10.0.0.2.
use hspp.Prelude.{ℕ, ◌≡◌, refl, List, [], ◌∷◌, ◌++◌, replicate, arith}
use hspp.Outcome.{ok}
use hspp.Bpf.{eentry_t2, eentry_t3}
use hspp.Bpf.Rewrite.{address, Frame, frame_bytes, IsFrame, readdress, t2_readdress, t3_readdress}

abbrev headers : List ℕ
headers = replicate 12 0xaa ++ 0x08 ∷ 0x00 ∷ replicate 12 0x45

abbrev frame : Frame
frame = record {
  before = headers;
  type_hi = 0x08;
  type_lo = 0x00;
  source = address 10 0 0 2;
  rest = 10 ∷ 0 ∷ 0 ∷ 1 ∷ [];
}

frame-IsFrame : IsFrame 0 frame
frame-IsFrame = record {
  place = refl;
  hi_at = refl;
  lo_at = refl;
  hi_byte = omega arith;
  lo_byte = omega arith;
  a_byte = omega arith;
  b_byte = omega arith;
  c_byte = omega arith;
  d_byte = omega arith;
}

-- Here an mbuf is the offset of its data.
abbrev mtod : ℕ → ℕ
mtod m = m

t2_readdress_example :
    eentry_t2 mtod (frame_bytes frame) 0
    ≡ ok (frame_bytes (readdress (address 10 0 0 2) (address 10 0 0 20) frame), 0)
t2_readdress_example = t2_readdress mtod 0 frame frame-IsFrame

t3_readdress_example :
    eentry_t3 mtod (frame_bytes frame) 0
    ≡ ok (frame_bytes (readdress (address 10 0 0 20) (address 10 0 0 2) frame), 0)
t3_readdress_example = t3_readdress mtod 0 frame frame-IsFrame
