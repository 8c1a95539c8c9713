-- ===== src/Yalin/Socket/Tests.antt =====
-- The theorems on the socket at environments that grant every call, or refuse `bind`.
use hspp.Prelude.{◌-◌, ◌^◌, ◌≡◌, refl, arith, [], ◌∷◌, some}
use hspp.Outcome.{ok}
use hspp.Calls.{Environment, run}
use hspp.Yalin.Socket.{
  SocketCall, malloc, socket, nl_groups, bind, Netlink, netlink_open, netlink_close,
}
use hspp.Yalin.Socket.Held.{block, descriptor, held_from, held-netlink_open, held-netlink_close}

abbrev pub grants : Environment SocketCall
grants past malloc = 4096
grants past (socket protocol) = 3
grants past (nl_groups fd) = 5
grants past _ = 0

abbrev refuses_bind : Environment SocketCall
refuses_bind past malloc = 4096
refuses_bind past (socket protocol) = 3
refuses_bind past (bind fd groups) = 2 ^ 32 - 1
refuses_bind past _ = 0

held-netlink_open_example :
    held_from [] (run refuses_bind [] (netlink_open 5 0)).1 ≡ descriptor 3 ∷ block 4096 ∷ []
held-netlink_open_example = held-netlink_open refuses_bind 5 0 (λ e. omega (arith, e))

abbrev handle : Netlink
handle = record { address = 4096; fd = 3; proto = 0; groups = 5 }

opened : (run grants [] (netlink_open 5 0)).0 ≡ ok (some handle)
unfolding netlink_open
opened = refl

held-netlink_close_example :
    (handle.proto ≡ 0)
    × (held_from [] (run grants (run grants [] (netlink_open 5 0)).1 (netlink_close handle)).1 ≡ [])
held-netlink_close_example = held-netlink_close grants 5 0 handle opened
