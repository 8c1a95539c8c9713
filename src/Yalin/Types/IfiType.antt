-- ===== src/Yalin/Types/IfiType.antt =====
-- `ifi_type_to_str` of yalin/yalin/types.h: the interface types ARPHRD_…. A kernel header
-- defines their values.
use hspp.Prelude.{ℕ, true, ◌≡◌, refl, List, [], ◌∷◌, map, none, some, get_elem?, Text, codes}
use hspp.Switch.{switch, switch_label, distinct}

pub data Arphrd : Type 0 where
  arphrd_netrom arphrd_ether arphrd_eether arphrd_ax25 : Arphrd
  arphrd_pronet arphrd_chaos arphrd_ieee802 arphrd_arcnet : Arphrd
  arphrd_appletlk arphrd_dlci arphrd_atm arphrd_metricom : Arphrd
  arphrd_ieee1394 arphrd_eui64 arphrd_infiniband arphrd_slip : Arphrd
  arphrd_cslip arphrd_slip6 arphrd_cslip6 arphrd_rsrvd : Arphrd
  arphrd_adapt arphrd_rose arphrd_x25 arphrd_hwx25 : Arphrd
  arphrd_ppp arphrd_cisco arphrd_lapb arphrd_ddcmp : Arphrd
  arphrd_rawhdlc arphrd_tunnel arphrd_tunnel6 arphrd_frad : Arphrd
  arphrd_skip arphrd_loopback arphrd_localtlk arphrd_fddi : Arphrd
  arphrd_bif arphrd_sit arphrd_ipddp arphrd_ipgre : Arphrd
  arphrd_pimreg arphrd_hippi arphrd_ash arphrd_econet : Arphrd
  arphrd_irda arphrd_fcpp arphrd_fcal arphrd_fcpl : Arphrd
  arphrd_fcfabric arphrd_ieee802_tr arphrd_ieee80211 arphrd_ieee80211_prism : Arphrd
  arphrd_ieee80211_radiotap arphrd_ieee802154 arphrd_void arphrd_none : Arphrd

-- The case labels, in the order of the source.
abbrev pub arphrd_labels : List Arphrd
arphrd_labels =
    arphrd_netrom ∷ arphrd_ether ∷ arphrd_eether ∷ arphrd_ax25 ∷ arphrd_pronet ∷ arphrd_chaos
    ∷ arphrd_ieee802 ∷ arphrd_arcnet ∷ arphrd_appletlk ∷ arphrd_dlci ∷ arphrd_atm ∷ arphrd_metricom
    ∷ arphrd_ieee1394 ∷ arphrd_eui64 ∷ arphrd_infiniband ∷ arphrd_slip ∷ arphrd_cslip ∷ arphrd_slip6
    ∷ arphrd_cslip6 ∷ arphrd_rsrvd ∷ arphrd_adapt ∷ arphrd_rose ∷ arphrd_x25 ∷ arphrd_hwx25
    ∷ arphrd_ppp ∷ arphrd_cisco ∷ arphrd_lapb ∷ arphrd_ddcmp ∷ arphrd_rawhdlc ∷ arphrd_tunnel
    ∷ arphrd_tunnel6 ∷ arphrd_frad ∷ arphrd_skip ∷ arphrd_loopback ∷ arphrd_localtlk ∷ arphrd_fddi
    ∷ arphrd_bif ∷ arphrd_sit ∷ arphrd_ipddp ∷ arphrd_ipgre ∷ arphrd_pimreg ∷ arphrd_hippi
    ∷ arphrd_ash ∷ arphrd_econet ∷ arphrd_irda ∷ arphrd_fcpp ∷ arphrd_fcal ∷ arphrd_fcpl
    ∷ arphrd_fcfabric ∷ arphrd_ieee802_tr ∷ arphrd_ieee80211 ∷ arphrd_ieee80211_prism
    ∷ arphrd_ieee80211_radiotap ∷ arphrd_ieee802154 ∷ arphrd_void ∷ arphrd_none ∷ []

index : Arphrd → ℕ
index arphrd_netrom = 0
index arphrd_ether = 1
index arphrd_eether = 2
index arphrd_ax25 = 3
index arphrd_pronet = 4
index arphrd_chaos = 5
index arphrd_ieee802 = 6
index arphrd_arcnet = 7
index arphrd_appletlk = 8
index arphrd_dlci = 9
index arphrd_atm = 10
index arphrd_metricom = 11
index arphrd_ieee1394 = 12
index arphrd_eui64 = 13
index arphrd_infiniband = 14
index arphrd_slip = 15
index arphrd_cslip = 16
index arphrd_slip6 = 17
index arphrd_cslip6 = 18
index arphrd_rsrvd = 19
index arphrd_adapt = 20
index arphrd_rose = 21
index arphrd_x25 = 22
index arphrd_hwx25 = 23
index arphrd_ppp = 24
index arphrd_cisco = 25
index arphrd_lapb = 26
index arphrd_ddcmp = 27
index arphrd_rawhdlc = 28
index arphrd_tunnel = 29
index arphrd_tunnel6 = 30
index arphrd_frad = 31
index arphrd_skip = 32
index arphrd_loopback = 33
index arphrd_localtlk = 34
index arphrd_fddi = 35
index arphrd_bif = 36
index arphrd_sit = 37
index arphrd_ipddp = 38
index arphrd_ipgre = 39
index arphrd_pimreg = 40
index arphrd_hippi = 41
index arphrd_ash = 42
index arphrd_econet = 43
index arphrd_irda = 44
index arphrd_fcpp = 45
index arphrd_fcal = 46
index arphrd_fcpl = 47
index arphrd_fcfabric = 48
index arphrd_ieee802_tr = 49
index arphrd_ieee80211 = 50
index arphrd_ieee80211_prism = 51
index arphrd_ieee80211_radiotap = 52
index arphrd_ieee802154 = 53
index arphrd_void = 54
index arphrd_none = 55

labels-index : (k : Arphrd) → get_elem? arphrd_labels (index k) ≡ some k
unfolding index
labels-index arphrd_netrom = refl
labels-index _ = refl

-- What the case of a label returns.
unfoldable pub arphrd_name : Arphrd → Text
arphrd_name arphrd_netrom = codes "NETROM"
arphrd_name arphrd_ether = codes "ETHER"
arphrd_name arphrd_eether = codes "EETHER"
arphrd_name arphrd_ax25 = codes "AX25"
arphrd_name arphrd_pronet = codes "PRONET"
arphrd_name arphrd_chaos = codes "CHAOS"
arphrd_name arphrd_ieee802 = codes "IEEE802"
arphrd_name arphrd_arcnet = codes "ARCNET"
arphrd_name arphrd_appletlk = codes "APPLETLK"
arphrd_name arphrd_dlci = codes "DLCI"
arphrd_name arphrd_atm = codes "ATM"
arphrd_name arphrd_metricom = codes "METRICOM"
arphrd_name arphrd_ieee1394 = codes "IEEE1394"
arphrd_name arphrd_eui64 = codes "EUI64"
arphrd_name arphrd_infiniband = codes "INFINIBAND"
arphrd_name arphrd_slip = codes "SLIP"
arphrd_name arphrd_cslip = codes "CSLIP"
arphrd_name arphrd_slip6 = codes "SLIP6"
arphrd_name arphrd_cslip6 = codes "CSLIP6"
arphrd_name arphrd_rsrvd = codes "RSRVD"
arphrd_name arphrd_adapt = codes "ADAPT"
arphrd_name arphrd_rose = codes "ROSE"
arphrd_name arphrd_x25 = codes "X25"
arphrd_name arphrd_hwx25 = codes "HWX25"
arphrd_name arphrd_ppp = codes "PPP"
arphrd_name arphrd_cisco = codes "CISCO"
arphrd_name arphrd_lapb = codes "LAPB"
arphrd_name arphrd_ddcmp = codes "DDCMP"
arphrd_name arphrd_rawhdlc = codes "RAWHDLC"
arphrd_name arphrd_tunnel = codes "TUNNEL"
arphrd_name arphrd_tunnel6 = codes "TUNNEL6"
arphrd_name arphrd_frad = codes "FRAD"
arphrd_name arphrd_skip = codes "SKIP"
arphrd_name arphrd_loopback = codes "LOOPBACK"
arphrd_name arphrd_localtlk = codes "LOCALTLK"
arphrd_name arphrd_fddi = codes "FDDI"
arphrd_name arphrd_bif = codes "BIF"
arphrd_name arphrd_sit = codes "SIT"
arphrd_name arphrd_ipddp = codes "IPDDP"
arphrd_name arphrd_ipgre = codes "IPGRE"
arphrd_name arphrd_pimreg = codes "PIMREG"
arphrd_name arphrd_hippi = codes "HIPPI"
arphrd_name arphrd_ash = codes "ASH"
arphrd_name arphrd_econet = codes "ECONET"
arphrd_name arphrd_irda = codes "IRDA"
arphrd_name arphrd_fcpp = codes "FCPP"
arphrd_name arphrd_fcal = codes "FCAL"
arphrd_name arphrd_fcpl = codes "FCPL"
arphrd_name arphrd_fcfabric = codes "FCFABRIC"
arphrd_name arphrd_ieee802_tr = codes "IEEE802_TR"
arphrd_name arphrd_ieee80211 = codes "IEEE80211"
arphrd_name arphrd_ieee80211_prism = codes "IEEE80211_PRISM"
arphrd_name arphrd_ieee80211_radiotap = codes "IEEE80211_RADIOTAP"
arphrd_name arphrd_ieee802154 = codes "IEEE802154"
arphrd_name arphrd_void = codes "VOID"
arphrd_name arphrd_none = codes "NONE"

unfoldable pub ifi_type_to_str : (Arphrd → ℕ) → ℕ → Text
unfolding arphrd_name
ifi_type_to_str value v = elim (switch value arphrd_labels v) [
  | some k ↦ arphrd_name k
  | none ↦ codes "unknown"
]

ifi_type_to_str_label :
    (value : Arphrd → ℕ) (k : Arphrd)
    → distinct (map value arphrd_labels) ≡ true
    → ifi_type_to_str value (value k) ≡ arphrd_name k
unfolding ifi_type_to_str
ifi_type_to_str_label value k d =
    rw (switch_label value arphrd_labels (index k) d (labels-index k), ifi_type_to_str)
