-- ===== src/Yalin/Request.antt =====
-- `netlink_listen` (yalin/yalin/request.h): the receive loop and the loop over the messages of one
-- datagram. What `recvmsg` returns is a list of inputs; the callback is a parameter.
pub mod Encode
pub mod Visit
pub mod Whole
pub mod Deliver
pub mod Negative
pub mod Hang
pub mod Rounds
mod Tests
use hspp.Prelude.{
  ℕ, zero, suc, ◌+◌, ◌-◌, ◌%◌, ◌^◌, ltb, leb, ◌==◌, if◌then◌else◌, Bool, true, false, List, [], ◌∷◌,
  ◌++◌, length, drop,
}
pub use hspp.Calls.{is_negative}
use hspp.Outcome.{Outcome, ok, stop, Stop, no_fuel, ◌>>=◌}
use hspp.Memory.{Memory, load32}

-- An `int` and an `unsigned` are 32-bit patterns; an `int` of 2 ^ 31 or more is negative.
-- The conversion of an `int` to `size_t` extends the sign.
abbrev pub size_of_int : ℕ → ℕ
size_of_int n = if ltb n (2 ^ 31) then n else n + (2 ^ 64 - 2 ^ 32)

abbrev pub int_sub : ℕ → ℕ → ℕ
int_sub a b = (a + 2 ^ 32 - b) % 2 ^ 32

abbrev pub minus_one : ℕ
minus_one = 2 ^ 32 - 1

-- `sizeof(struct nlmsghdr)`: length, type, flags, sequence number and port.
abbrev pub sizeof_nlmsghdr : ℕ
sizeof_nlmsghdr = 16

-- `sizeof(buf)`
abbrev pub sizeof_buf : ℕ
sizeof_buf = 16384

pub data Errno : Type 0 where
  eintr eagain enobufs other_error : Errno

-- What one call of `recvmsg` gives: an error, or the bytes that it wrote to `buf` and whether
-- MSG_TRUNC is set. No bytes is the end of the stream.
pub data Recv : Type 0 where
  failed : Errno → Recv
  received : List ℕ → Bool → Recv

-- How `netlink_listen` ends; `blocked` waits for the next input.
pub data Listen (S : Type 0) : Type 0 where
  returned : S → ℕ → Listen S
  blocked : S → Listen S
  exited : S → Listen S
  stopped : Stop → Listen S

-- How the loop over the messages ends: with what is left of `status`, or by the callback's error.
pub data Inner (S : Type 0) : Type 0 where
  done : S → ℕ → Inner S
  refused : S → ℕ → Inner S

abbrev pub is_transient : Errno → Bool
is_transient eintr = true
is_transient eagain = true
is_transient enobufs = true
is_transient other_error = false

-- `nlmsg_align` stands for the macro NLMSG_ALIGN, `handler` for the callback: it is called on the
-- buffer and the offset of a message, and returns its new state and an `int`.
module _ {S : Type 0} (nlmsg_align : ℕ → ℕ) (handler : S → Memory → ℕ → Outcome (S × ℕ)) where
  unfoldable pub message_loop : ℕ → Memory → ℕ → ℕ → S → Outcome (Inner S)
  message_loop zero buf h status st = stop no_fuel
  message_loop (suc fuel) buf h status st = elim (leb sizeof_nlmsghdr (size_of_int status)) [
    | false ↦ ok (done st status)
    | true ↦ do
      len ← load32 buf h
      (st', err) ← handler st buf h
      let rest = message_loop fuel buf (h + nlmsg_align len) (int_sub status (nlmsg_align len)) st'
      if is_negative err then ok (refused st' err) else rest
  ]

  unfoldable pub netlink_listen : List Recv → Memory → S → Listen S
  netlink_listen [] buf st = blocked st
  netlink_listen (failed e ∷ inputs) buf st =
      let again = netlink_listen inputs buf st in
      if is_transient e then again else returned st minus_one
  netlink_listen (received bs truncated ∷ inputs) buf st =
      let buf' = bs ++ drop (length bs) buf in
      let inner = message_loop (suc (length buf')) buf' 0 (length bs) st in
      if length bs == 0 then returned st minus_one else elim inner [
        | stop s ↦ stopped s
        | ok (refused st' err) ↦ returned st' err
        | ok (done st' status) ↦
            let again = netlink_listen inputs buf' st' in
            if truncated then again else if status == 0 then again else exited st'
      ]
