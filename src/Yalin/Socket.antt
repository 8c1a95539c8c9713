-- ===== src/Yalin/Socket.antt =====
-- `netlink_open` and `netlink_close` (yalin/yalin/socket.h), over an environment that answers the
-- calls of the C library. A pointer is a number, and NULL is 0; messages to stderr are left out.
pub mod Held
pub mod Tests
use hspp.Prelude.{ℕ, ◌==◌, Bool, not, if◌then◌else◌, Option, none, some}
use hspp.Outcome.{null_access}
use hspp.Calls.{Program, ret, halt, ◌>>=◌, ◌>>◌, ask, tell, is_negative}

-- `struct netlink_s`: where it stands, and the fields that the functions set to something else
-- than zero. `getsockname` writes all of `local`; of what it writes, `groups` is the field
-- `nl_groups`, and the port number is left out.
pub record Netlink : Type 0 where
  pub address : ℕ
  pub fd : ℕ
  pub proto : ℕ
  pub groups : ℕ

-- The socket options: SO_SNDBUF and SO_RCVBUF of SOL_SOCKET, NETLINK_EXT_ACK of SOL_NETLINK.
pub data SocketOption : Type 0 where
  so_sndbuf so_rcvbuf netlink_ext_ack : SocketOption

-- The calls: `socket` is of family AF_NETLINK and type SOCK_RAW | SOCK_CLOEXEC, `bind` takes the
-- groups of the local address. `nl_groups` reads the field of the local address that the last
-- `getsockname` wrote.
pub data SocketCall : Type 0 where
  malloc : SocketCall
  socket : ℕ → SocketCall
  setsockopt : ℕ → SocketOption → ℕ → SocketCall
  bind : ℕ → ℕ → SocketCall
  getsockname nl_groups : ℕ → SocketCall
  close : ℕ → SocketCall
  free : ℕ → SocketCall

-- `none` is NULL.
unfoldable pub netlink_open : ℕ → ℕ → Program SocketCall (Option Netlink)
netlink_open subscriptions protocol = do
  nl ← ask malloc
  if nl == 0 then halt null_access else (do
    fd ← ask (socket protocol)
    if is_negative fd then ret none else (do
      sent ← ask (setsockopt fd so_sndbuf 32768)
      if is_negative sent then ret none else (do
        received ← ask (setsockopt fd so_rcvbuf 0x100000)
        if is_negative received then ret none else (do
          tell (setsockopt fd netlink_ext_ack 1)
          bound ← ask (bind fd subscriptions)
          if is_negative bound then ret none else (do
            named ← ask (getsockname fd)
            if is_negative named then ret none else (do
              groups ← ask (nl_groups fd)
              ret (some (record { address = nl; fd = fd; proto = protocol; groups = groups }))))))))

unfoldable pub netlink_close : Netlink → Program SocketCall (Unit {0})
netlink_close nl = do
  if is_negative nl.fd then ret tt else tell (close nl.fd)
  tell (free nl.address)
