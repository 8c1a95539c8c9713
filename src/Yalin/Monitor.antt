-- ===== src/Yalin/Monitor.antt =====
-- The program yalin/main.c, and yalin/test/monitor.c, which is the same: a socket for all groups,
-- and the receive loop with a callback that dumps each message to stdout.
pub mod Leak
pub mod Prints
pub mod Addresses
mod Tests
use hspp.Prelude.{ℕ, ◌+◌, ◌-◌, ◌^◌, ◌++◌, if◌then◌else◌, List, [], Text, Option, none, some}
use hspp.Outcome.{Outcome, ok, stop, Stop, ◌>>=◌}
use hspp.Memory.{Memory}
use hspp.Calls.{Environment, Trace, run}
use hspp.Yalin.Request.{
  Recv, Listen, returned, blocked, exited, stopped, netlink_listen, is_negative,
}
use hspp.Yalin.Socket.{Netlink, SocketCall, netlink_open, netlink_close}
use hspp.Yalin.Dump.{DumpHeader, netlink_msg_dump}

-- How the process is found: it waits for input, or it has ended; with what stdout has then, where
-- the model keeps it.
pub data Process : Type 0 where
  exit_code : ℕ → Text → Process
  waits : Text → Process
  exits : Text → Process
  dies : Stop → Process

-- `~0U`
abbrev pub all_groups : ℕ
all_groups = 2 ^ 32 - 1

-- The state of the callback is what stdout has so far.
unfoldable pub dump_msg : DumpHeader → Text → Memory → ℕ → Outcome (Text × ℕ)
dump_msg h out mem n = do text ← netlink_msg_dump h mem n; ok (out ++ text, 0)

-- `buf` is what the buffer of the receive loop holds at first, `inputs` what `recvmsg` returns, and
-- `netlink_route` stands for the constant NETLINK_ROUTE.
module _ (h : DumpHeader) (nlmsg_align : ℕ → ℕ) (netlink_route : ℕ) (env : Environment SocketCall)
    (inputs : List Recv) (buf : Memory) where
  -- What follows the receive loop.
  unfoldable pub after_listen :
      Netlink → Trace SocketCall → Listen Text → Process × Trace SocketCall
  after_listen nl t (blocked out) = (waits out, t)
  after_listen nl t (exited out) = (exits out, t)
  after_listen nl t (stopped s) = (dies s, t)
  after_listen nl t (returned out ret) =
      if is_negative ret
      then (exit_code 1 out, t)
      else (exit_code 0 out, (run env t (netlink_close nl)).1)

  -- What follows `netlink_open`.
  unfoldable pub after_open :
      Outcome (Option Netlink) → Trace SocketCall → Process × Trace SocketCall
  unfolding after_listen
  after_open (stop s) t = (dies s, t)
  after_open (ok none) t = (exit_code 1 [], t)
  after_open (ok (some nl)) t =
      after_listen nl t (netlink_listen nlmsg_align (dump_msg h) inputs buf [])

  unfoldable pub main : Process × Trace SocketCall
  unfolding after_open
  main = let (opened, t) = run env [] (netlink_open all_groups netlink_route) in after_open opened t
