-- ===== src/Yalin/Types/IfaFamily.antt =====
-- `ifa_family_to_str` of yalin/yalin/types.h: the address families AF_…. A kernel header
-- defines their values.
use hspp.Prelude.{ℕ, true, ◌≡◌, refl, List, [], ◌∷◌, map, none, some, get_elem?, Text, codes}
use hspp.Switch.{switch, switch_label, distinct}
use hspp.Outcome.{Outcome, ok, stop, exit_one}

pub data Family : Type 0 where
  af_unspec af_unix af_inet af_ax25 : Family
  af_ipx af_appletalk af_netrom af_bridge : Family
  af_atmpvc af_x25 af_inet6 af_rose : Family
  af_decnet af_netbeui af_security af_key : Family
  af_netlink af_packet af_ash af_econet : Family
  af_atmsvc af_rds af_sna af_irda : Family
  af_pppox af_wanpipe af_llc af_ib : Family
  af_mpls af_can af_tipc af_bluetooth : Family
  af_iucv af_rxrpc af_isdn af_phonet : Family
  af_ieee802154 af_caif af_alg af_nfc : Family
  af_vsock af_max : Family

-- The case labels, in the order of the source.
abbrev pub family_labels : List Family
family_labels =
    af_unspec ∷ af_unix ∷ af_inet ∷ af_ax25 ∷ af_ipx ∷ af_appletalk ∷ af_netrom ∷ af_bridge
    ∷ af_atmpvc ∷ af_x25 ∷ af_inet6 ∷ af_rose ∷ af_decnet ∷ af_netbeui ∷ af_security ∷ af_key
    ∷ af_netlink ∷ af_packet ∷ af_ash ∷ af_econet ∷ af_atmsvc ∷ af_rds ∷ af_sna ∷ af_irda ∷ af_pppox
    ∷ af_wanpipe ∷ af_llc ∷ af_ib ∷ af_mpls ∷ af_can ∷ af_tipc ∷ af_bluetooth ∷ af_iucv ∷ af_rxrpc
    ∷ af_isdn ∷ af_phonet ∷ af_ieee802154 ∷ af_caif ∷ af_alg ∷ af_nfc ∷ af_vsock ∷ af_max ∷ []

index : Family → ℕ
index af_unspec = 0
index af_unix = 1
index af_inet = 2
index af_ax25 = 3
index af_ipx = 4
index af_appletalk = 5
index af_netrom = 6
index af_bridge = 7
index af_atmpvc = 8
index af_x25 = 9
index af_inet6 = 10
index af_rose = 11
index af_decnet = 12
index af_netbeui = 13
index af_security = 14
index af_key = 15
index af_netlink = 16
index af_packet = 17
index af_ash = 18
index af_econet = 19
index af_atmsvc = 20
index af_rds = 21
index af_sna = 22
index af_irda = 23
index af_pppox = 24
index af_wanpipe = 25
index af_llc = 26
index af_ib = 27
index af_mpls = 28
index af_can = 29
index af_tipc = 30
index af_bluetooth = 31
index af_iucv = 32
index af_rxrpc = 33
index af_isdn = 34
index af_phonet = 35
index af_ieee802154 = 36
index af_caif = 37
index af_alg = 38
index af_nfc = 39
index af_vsock = 40
index af_max = 41

labels-index : (k : Family) → get_elem? family_labels (index k) ≡ some k
unfolding index
labels-index af_unspec = refl
labels-index _ = refl

-- What the case of a label returns.
unfoldable pub family_name : Family → Text
family_name af_unspec = codes "AF_UNSPEC"
family_name af_unix = codes "AF_UNIX"
family_name af_inet = codes "AF_INET"
family_name af_ax25 = codes "AF_AX25"
family_name af_ipx = codes ";AF_IPX"
family_name af_appletalk = codes "AF_APPLETALK"
family_name af_netrom = codes "AF_NETROM"
family_name af_bridge = codes "AF_BRIDGE"
family_name af_atmpvc = codes "AF_ATMPVC"
family_name af_x25 = codes "AF_X25"
family_name af_inet6 = codes "AF_INET6"
family_name af_rose = codes "AF_ROSE"
family_name af_decnet = codes "AF_DECnet"
family_name af_netbeui = codes "AF_NETBEUI"
family_name af_security = codes "AF_SECURITY"
family_name af_key = codes "AF_KEY"
family_name af_netlink = codes "AF_NETLINK"
family_name af_packet = codes "AF_PACKET"
family_name af_ash = codes "AF_ASH"
family_name af_econet = codes "AF_ECONET"
family_name af_atmsvc = codes "AF_ATMSVC"
family_name af_rds = codes "AF_RDS"
family_name af_sna = codes "AF_SNA"
family_name af_irda = codes "AF_IRDA"
family_name af_pppox = codes "AF_PPPOX"
family_name af_wanpipe = codes "AF_WANPIPE"
family_name af_llc = codes "AF_LLC"
family_name af_ib = codes "AF_IB"
family_name af_mpls = codes "AF_MPLS"
family_name af_can = codes "AF_CAN"
family_name af_tipc = codes "AF_TIPC"
family_name af_bluetooth = codes "AF_BLUETOOTH"
family_name af_iucv = codes "AF_IUCV"
family_name af_rxrpc = codes "AF_RXRPC"
family_name af_isdn = codes "AF_ISDN"
family_name af_phonet = codes "AF_PHONET"
family_name af_ieee802154 = codes "AF_IEEE802154"
family_name af_caif = codes "AF_CAIF"
family_name af_alg = codes "AF_ALG"
family_name af_nfc = codes "AF_NFC"
family_name af_vsock = codes "AF_VSOCK"
family_name af_max = codes "AF_MAX"

unfoldable pub ifa_family_to_str : (Family → ℕ) → ℕ → Outcome Text
unfolding family_name
ifa_family_to_str value v = elim (switch value family_labels v) [
  | some k ↦ ok (family_name k)
  | none ↦ stop exit_one
]

ifa_family_to_str_label :
    (value : Family → ℕ) (k : Family)
    → distinct (map value family_labels) ≡ true
    → ifa_family_to_str value (value k) ≡ ok (family_name k)
unfolding ifa_family_to_str
ifa_family_to_str_label value k d =
    rw (switch_label value family_labels (index k) d (labels-index k), ifa_family_to_str)
