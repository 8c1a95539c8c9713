-- ===== src/Yalin/Socket/Held.antt =====
-- What the process holds after the calls of a trace: blocks of memory and descriptors.
use hspp.Prelude.{ℕ, ◌≡◌, ◌≢◌, arith, Bool, false, ◌==◌, if◌then◌else◌, List, [], ◌∷◌, some}
use hspp.Outcome.{ok}
use hspp.Calls.{Environment, Trace, run, is_negative}
use hspp.Calls.Replay.{replay}
use hspp.Yalin.Socket.{
  SocketCall, malloc, socket, close, free, Netlink, netlink_open, netlink_close,
}

pub data Resource : Type 0 where
  block : ℕ → Resource
  descriptor : ℕ → Resource

abbrev pub same : Resource → Resource → Bool
same (block p) (block q) = p == q
same (descriptor a) (descriptor b) = a == b
same _ _ = false

abbrev pub without : Resource → List Resource → List Resource
without r [] = []
without r (x ∷ xs) = let rest = without r xs in if same r x then xs else x ∷ rest

-- One call with its answer.
abbrev pub after_call : List Resource → SocketCall → ℕ → List Resource
after_call held malloc p = if p == 0 then held else block p ∷ held
after_call held (socket protocol) fd = if is_negative fd then held else descriptor fd ∷ held
after_call held (close fd) n = without (descriptor fd) held
after_call held (free p) n = without (block p) held
after_call held _ n = held

abbrev pub held_from : List Resource → Trace SocketCall → List Resource
held_from = replay after_call

module _ (env : Environment SocketCall) (subscriptions protocol : ℕ) where
  abbrev pub address : ℕ
  address = env [] malloc

  abbrev pub fd : ℕ
  fd = env ((malloc, address) ∷ []) (socket protocol)

  -- Whatever the calls after `malloc` and `socket` return, `netlink_open` leaves the block and the
  -- descriptor held, if `socket` gave one: when it returns NULL, nobody can give them back.
  pub held-netlink_open :
      address ≢ 0
      → held_from [] (run env [] (netlink_open subscriptions protocol)).1
        ≡ (if is_negative fd then block address ∷ [] else descriptor fd ∷ block address ∷ [])
  unfolding netlink_open
  held-netlink_open h = ground arith

  -- A handle from `netlink_open` has the protocol of the call, and `netlink_close` gives back all
  -- that `netlink_open` took.
  pub held-netlink_close :
      (nl : Netlink)
      → (run env [] (netlink_open subscriptions protocol)).0 ≡ ok (some nl)
      → (nl.proto ≡ protocol)
        × (held_from []
              (run env (run env [] (netlink_open subscriptions protocol)).1 (netlink_close nl)).1
            ≡ [])
  unfolding netlink_open netlink_close
  held-netlink_close nl h = ground arith
