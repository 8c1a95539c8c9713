-- ===== src/Yalin/Rtattr.antt =====
-- Attributes of a netlink message (yalin/yalin/rtattr.h): accessors, the step to the next
-- attribute, and the readers. A `struct rtattr *` is the offset of the attribute in the memory.
-- `size_t` and `ssize_t` are 64-bit patterns; a pattern of 2 ^ 63 or more is a negative `ssize_t`.
pub mod Align
pub mod Next
pub mod Encode
use Prim.Native.Nat.{bit_and}
use hspp.Prelude.{
  ℕ, ◌+◌, ◌-◌, ◌%◌, ◌^◌, Bool, ltb, leb, ◌==◌, if◌then◌else◌, ◌||◌, Option, none, some, Text, List,
  [], ◌∷◌, ◌≡◌, refl,
}
use hspp.Outcome.{Outcome, ok, stop, Stop, exit_one, ◌>>=◌}
use hspp.Memory.{Memory, load8, load16, load32, load64, load_str}
use hspp.Printf.{snprintf}

abbrev pub size_add : ℕ → ℕ → ℕ
size_add a b = (a + b) % 2 ^ 64

abbrev pub size_sub : ℕ → ℕ → ℕ
size_sub a b = (a + 2 ^ 64 - b) % 2 ^ 64

-- `~` of a `size_t`
abbrev pub size_not : ℕ → ℕ
size_not a = 2 ^ 64 - 1 - a

-- `n <= 0` of an `ssize_t`
abbrev pub is_not_positive : ℕ → Bool
is_not_positive n = n == 0 || leb (2 ^ 63) n

-- `sizeof(struct rtattr)`: the 16-bit length and the 16-bit type
abbrev pub sizeof_rtattr : ℕ
sizeof_rtattr = 4

unfoldable pub align : ℕ → ℕ → ℕ
align blocklen alignlen =
    bit_and (size_sub (size_add blocklen alignlen) 1) (size_not (size_sub alignlen 1))

unfoldable pub rtattr_type : Memory → ℕ → Outcome ℕ
rtattr_type mem rta = load16 mem (rta + 2)

unfoldable pub rtattr_len : Memory → ℕ → Outcome ℕ
rtattr_len mem rta = load16 mem rta

unfoldable pub rtattr_payload_len : Memory → ℕ → Outcome ℕ
unfolding rtattr_len
rtattr_payload_len mem rta = do n ← rtattr_len mem rta; ok (size_sub n sizeof_rtattr)

abbrev pub rtattr_payload_ptr : ℕ → ℕ
rtattr_payload_ptr rta = rta + sizeof_rtattr

-- The next attribute (`none` is NULL), and `*buflen` after the call.
unfoldable pub rtattr_next : Memory → ℕ → ℕ → Outcome (Option ℕ × ℕ)
unfolding rtattr_len
rtattr_next mem rta buflen = do
  len ← rtattr_len mem rta
  let seek_len = align len 4
  if is_not_positive buflen
      then ok (none, buflen)
      else if leb seek_len 0
      then ok (none, buflen)
      else if ltb sizeof_rtattr (size_sub buflen seek_len)
      then ok (some (rta + seek_len), size_sub buflen seek_len)
      else ok (none, buflen)

abbrev pub rtattr_nest_next : ℕ → ℕ
rtattr_nest_next rta = rtattr_payload_ptr rta

unfoldable pub rtattr_read_8bit : Memory → ℕ → Outcome ℕ
unfolding rtattr_payload_len
rtattr_read_8bit mem attr = do
  n ← rtattr_payload_len mem attr
  if ltb 1 n then stop exit_one else load8 mem (rtattr_payload_ptr attr)

unfoldable pub rtattr_read_16bit : Memory → ℕ → Outcome ℕ
unfolding rtattr_payload_len
rtattr_read_16bit mem attr = do
  n ← rtattr_payload_len mem attr
  if ltb 2 n then stop exit_one else load16 mem (rtattr_payload_ptr attr)

unfoldable pub rtattr_read_32bit : Memory → ℕ → Outcome ℕ
unfolding rtattr_payload_len
rtattr_read_32bit mem attr = do
  n ← rtattr_payload_len mem attr
  if ltb 4 n then stop exit_one else load32 mem (rtattr_payload_ptr attr)

unfoldable pub rtattr_read_64bit : Memory → ℕ → Outcome ℕ
unfolding rtattr_payload_len
rtattr_read_64bit mem attr = do
  n ← rtattr_payload_len mem attr
  if ltb 8 n then stop exit_one else load64 mem (rtattr_payload_ptr attr)

-- The text left in `str`, and the result. `%s` reads up to the first NUL behind the header. The text
-- that goes to stdout before exit(1) is left out.
unfoldable pub rtattr_read_str : Memory → ℕ → ℕ → Outcome (Text × ℕ)
unfolding rtattr_payload_len
rtattr_read_str mem attr strbuflen = do
  n ← rtattr_payload_len mem attr
  if ltb strbuflen n
      then stop exit_one
      else (do s ← load_str mem (rtattr_payload_ptr attr); ok (snprintf strbuflen s, align n 4))
