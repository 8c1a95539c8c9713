-- ===== src/Yalin/Request/Encode.antt =====
-- Netlink messages as the kernel lays them out in a datagram.
use hspp.Prelude.{
  ℕ, ◌+◌, ◌*◌, ◌/◌, ◌<◌, ◌≤◌, ◌≡◌, List, [], ◌∷◌, ◌++◌, length, length-append, arith, Bool,
}
use hspp.Memory.Laws.{bytes32}
use hspp.Yalin.Request.{Errno, Recv, failed, received, is_transient, sizeof_buf}
use hspp.Prelude.{true}

-- `body` is what stands behind the length field, padding included.
pub record Message : Type 0 where
  pub len : ℕ
  pub body : List ℕ

abbrev pub encode : Message → List ℕ
encode m = bytes32 m.len ++ m.body

abbrev pub encode_all : List Message → List ℕ
encode_all [] = []
encode_all (m ∷ ms) = encode m ++ encode_all ms

-- A message holds its header, and takes its length rounded up to a multiple of 4.
pub record IsMessage (m : Message) : Type 0 where
  pub header_in : 16 ≤ m.len
  pub small : m.len ≤ sizeof_buf
  pub padded : length m.body + 4 ≡ (m.len + 3) / 4 * 4

abbrev pub AllMessages : List Message → Type 0
AllMessages [] = Unit
AllMessages (m ∷ ms) = IsMessage m × AllMessages ms

pub length-encode_all_mono :
    (ms : List Message) → AllMessages ms → length ms * 16 ≤ length (encode_all ms)
length-encode_all_mono [] h = omega arith
length-encode_all_mono (m ∷ ms) h =
    omega (arith, length-append m.body (encode_all ms), length-encode_all_mono ms h.1)

-- An input on which the monitor goes on: a transient error, or a datagram of whole messages.
pub data Input : Type 0 where
  transient : Errno → Input
  datagram : List Message → Bool → Input

abbrev pub recv_of : Input → Recv
recv_of (transient e) = failed e
recv_of (datagram ms truncated) = received (encode_all ms) truncated

abbrev pub messages_of : List Input → List Message
messages_of [] = []
messages_of (transient e ∷ inputs) = messages_of inputs
messages_of (datagram ms truncated ∷ inputs) = ms ++ messages_of inputs

abbrev pub IsInput : Input → Type 0
IsInput (transient e) = is_transient e ≡ true
IsInput (datagram ms truncated) =
    AllMessages ms × (0 < length ms) × (length (encode_all ms) ≤ sizeof_buf)

abbrev pub AllInputs : List Input → Type 0
AllInputs [] = Unit
AllInputs (i ∷ inputs) = IsInput i × AllInputs inputs
