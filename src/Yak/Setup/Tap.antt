-- ===== src/Yak/Setup/Tap.antt =====
-- The descriptors of `tap_alloc`.
use hspp.Prelude.{ℕ, ◌≡◌, arith, false, if◌then◌else◌, List, [], ◌∷◌, Text}
use hspp.Outcome.{ok}
use hspp.Calls.{Environment, Trace, run, is_negative}
use hspp.Calls.Replay.{without, replay}
use hspp.Dpdk.{DpdkCall, open_tun, socket_inet, close}
use hspp.Yak.Setup.{tap_alloc}

-- The descriptors that are open after one more call, and after the calls of a trace.
abbrev after_call : List ℕ → DpdkCall → ℕ → List ℕ
after_call fds open_tun n = if is_negative n then fds else n ∷ fds
after_call fds socket_inet n = if is_negative n then fds else n ∷ fds
after_call fds (close fd) n = without fd fds
after_call fds _ n = fds

abbrev open_after : List ℕ → Trace DpdkCall → List ℕ
open_after = replay after_call

module _ (env : Environment DpdkCall) (ifname : Text) (hwaddr : ℕ) where
  -- If `tap_alloc` returns, its result is a descriptor that is open, and no other one is: the socket
  -- that it asks for the flags is closed again.
  tap_alloc_open :
      (fd : ℕ)
      → (run env [] (tap_alloc ifname hwaddr)).0 ≡ ok fd
      → (is_negative fd ≡ false)
        × (open_after [] (run env [] (tap_alloc ifname hwaddr)).1 ≡ fd ∷ [])
  unfolding tap_alloc
  tap_alloc_open fd e = ground arith
