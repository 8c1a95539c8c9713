-- ===== src/Yalin/TypesTests.antt =====
-- One assignment of values to the labels, as a header might define them, with the ARPHRD values
-- numbered in order, and the theorem on the filter at it.
use hspp.Prelude.{ℕ, ◌≡◌, refl, ◌↔◌, ◌⊎◌, true}
use hspp.Yalin.Types.IfiType.{
  arphrd_netrom, arphrd_ether, arphrd_eether, arphrd_ax25, arphrd_pronet, arphrd_chaos,
  arphrd_ieee802, arphrd_arcnet, arphrd_appletlk, arphrd_dlci, arphrd_atm, arphrd_metricom,
  arphrd_ieee1394, arphrd_eui64, arphrd_infiniband, arphrd_slip, arphrd_cslip, arphrd_slip6,
  arphrd_cslip6, arphrd_rsrvd, arphrd_adapt, arphrd_rose, arphrd_x25, arphrd_hwx25, arphrd_ppp,
  arphrd_cisco, arphrd_lapb, arphrd_ddcmp, arphrd_rawhdlc, arphrd_tunnel, arphrd_tunnel6,
  arphrd_frad, arphrd_skip, arphrd_loopback, arphrd_localtlk, arphrd_fddi, arphrd_bif, arphrd_sit,
  arphrd_ipddp, arphrd_ipgre, arphrd_pimreg, arphrd_hippi, arphrd_ash, arphrd_econet, arphrd_irda,
  arphrd_fcpp, arphrd_fcal, arphrd_fcpl, arphrd_fcfabric, arphrd_ieee802_tr, arphrd_ieee80211,
  arphrd_ieee80211_prism, arphrd_ieee80211_radiotap, arphrd_ieee802154, arphrd_void, arphrd_none,
  Arphrd,
}
use hspp.Yalin.Types.NlmsgType.{
  rtm_newlink, rtm_dellink, rtm_getlink, rtm_newaddr, rtm_deladdr, rtm_getaddr, rtm_newroute,
  rtm_delroute, rtm_getroute, rtm_newneigh, rtm_delneigh, rtm_getneigh, rtm_newrule, rtm_delrule,
  rtm_getrule, rtm_newqdisc, rtm_delqdisc, rtm_getqdisc, rtm_newtclass, rtm_deltclass,
  rtm_gettclass, rtm_newtfilter, rtm_deltfilter, rtm_gettfilter, Rtm,
}
use hspp.Yalin.Types.RtnType.{
  rtn_unspec, rtn_unicast, rtn_local, rtn_broadcast, rtn_anycast, rtn_multicast, rtn_blackhole,
  rtn_unreachable, rtn_prohibit, rtn_throw, rtn_nat, rtn_xresolve, Rtn,
}
use hspp.Yalin.Types.IfaFamily.{
  af_unspec, af_unix, af_inet, af_ax25, af_ipx, af_appletalk, af_netrom, af_bridge, af_atmpvc,
  af_x25, af_inet6, af_rose, af_decnet, af_netbeui, af_security, af_key, af_netlink, af_packet,
  af_ash, af_econet, af_atmsvc, af_rds, af_sna, af_irda, af_pppox, af_wanpipe, af_llc, af_ib,
  af_mpls, af_can, af_tipc, af_bluetooth, af_iucv, af_rxrpc, af_isdn, af_phonet, af_ieee802154,
  af_caif, af_alg, af_nfc, af_vsock, af_max, Family,
}
use hspp.Yalin.Types.RtaType.{
  ifla_unspec, ifla_address, ifla_broadcast, ifla_ifname, ifla_mtu, ifla_link, ifla_qdisc,
  ifla_stats, ifla_cost, ifla_priority, ifla_master, ifla_wireless, ifla_protinfo, ifla_txqlen,
  ifla_map, ifla_weight, ifla_operstate, ifla_linkmode, ifla_linkinfo, ifla_net_ns_pid,
  ifla_ifalias, ifla_num_vf, ifla_vfinfo_list, ifla_stats64, ifla_vf_ports, ifla_port_self,
  ifla_af_spec, ifla_group, ifla_net_ns_fd, ifla_ext_mask, ifla_promiscuity, ifla_num_tx_queues,
  ifla_num_rx_queues, ifla_carrier, ifla_phys_port_id, ifla_carrier_changes, ifla_phys_switch_id,
  ifla_link_netnsid, ifla_phys_port_name, ifla_proto_down, Ifla,
}
use hspp.Yalin.Filter.{netlink_is_link_msg, is_link_msg_iff}

abbrev pub arphrd_value : Arphrd → ℕ
arphrd_value arphrd_netrom = 0
arphrd_value arphrd_ether = 1
arphrd_value arphrd_eether = 2
arphrd_value arphrd_ax25 = 3
arphrd_value arphrd_pronet = 4
arphrd_value arphrd_chaos = 5
arphrd_value arphrd_ieee802 = 6
arphrd_value arphrd_arcnet = 7
arphrd_value arphrd_appletlk = 8
arphrd_value arphrd_dlci = 9
arphrd_value arphrd_atm = 10
arphrd_value arphrd_metricom = 11
arphrd_value arphrd_ieee1394 = 12
arphrd_value arphrd_eui64 = 13
arphrd_value arphrd_infiniband = 14
arphrd_value arphrd_slip = 15
arphrd_value arphrd_cslip = 16
arphrd_value arphrd_slip6 = 17
arphrd_value arphrd_cslip6 = 18
arphrd_value arphrd_rsrvd = 19
arphrd_value arphrd_adapt = 20
arphrd_value arphrd_rose = 21
arphrd_value arphrd_x25 = 22
arphrd_value arphrd_hwx25 = 23
arphrd_value arphrd_ppp = 24
arphrd_value arphrd_cisco = 25
arphrd_value arphrd_lapb = 26
arphrd_value arphrd_ddcmp = 27
arphrd_value arphrd_rawhdlc = 28
arphrd_value arphrd_tunnel = 29
arphrd_value arphrd_tunnel6 = 30
arphrd_value arphrd_frad = 31
arphrd_value arphrd_skip = 32
arphrd_value arphrd_loopback = 33
arphrd_value arphrd_localtlk = 34
arphrd_value arphrd_fddi = 35
arphrd_value arphrd_bif = 36
arphrd_value arphrd_sit = 37
arphrd_value arphrd_ipddp = 38
arphrd_value arphrd_ipgre = 39
arphrd_value arphrd_pimreg = 40
arphrd_value arphrd_hippi = 41
arphrd_value arphrd_ash = 42
arphrd_value arphrd_econet = 43
arphrd_value arphrd_irda = 44
arphrd_value arphrd_fcpp = 45
arphrd_value arphrd_fcal = 46
arphrd_value arphrd_fcpl = 47
arphrd_value arphrd_fcfabric = 48
arphrd_value arphrd_ieee802_tr = 49
arphrd_value arphrd_ieee80211 = 50
arphrd_value arphrd_ieee80211_prism = 51
arphrd_value arphrd_ieee80211_radiotap = 52
arphrd_value arphrd_ieee802154 = 53
arphrd_value arphrd_void = 54
arphrd_value arphrd_none = 55

abbrev pub rtm_value : Rtm → ℕ
rtm_value rtm_newlink = 16
rtm_value rtm_dellink = 17
rtm_value rtm_getlink = 18
rtm_value rtm_newaddr = 20
rtm_value rtm_deladdr = 21
rtm_value rtm_getaddr = 22
rtm_value rtm_newroute = 24
rtm_value rtm_delroute = 25
rtm_value rtm_getroute = 26
rtm_value rtm_newneigh = 28
rtm_value rtm_delneigh = 29
rtm_value rtm_getneigh = 30
rtm_value rtm_newrule = 32
rtm_value rtm_delrule = 33
rtm_value rtm_getrule = 34
rtm_value rtm_newqdisc = 36
rtm_value rtm_delqdisc = 37
rtm_value rtm_getqdisc = 38
rtm_value rtm_newtclass = 40
rtm_value rtm_deltclass = 41
rtm_value rtm_gettclass = 42
rtm_value rtm_newtfilter = 44
rtm_value rtm_deltfilter = 45
rtm_value rtm_gettfilter = 46

abbrev pub rtn_value : Rtn → ℕ
rtn_value rtn_unspec = 0
rtn_value rtn_unicast = 1
rtn_value rtn_local = 2
rtn_value rtn_broadcast = 3
rtn_value rtn_anycast = 4
rtn_value rtn_multicast = 5
rtn_value rtn_blackhole = 6
rtn_value rtn_unreachable = 7
rtn_value rtn_prohibit = 8
rtn_value rtn_throw = 9
rtn_value rtn_nat = 10
rtn_value rtn_xresolve = 11

abbrev pub family_value : Family → ℕ
family_value af_unspec = 0
family_value af_unix = 1
family_value af_inet = 2
family_value af_ax25 = 3
family_value af_ipx = 4
family_value af_appletalk = 5
family_value af_netrom = 6
family_value af_bridge = 7
family_value af_atmpvc = 8
family_value af_x25 = 9
family_value af_inet6 = 10
family_value af_rose = 11
family_value af_decnet = 12
family_value af_netbeui = 13
family_value af_security = 14
family_value af_key = 15
family_value af_netlink = 16
family_value af_packet = 17
family_value af_ash = 18
family_value af_econet = 19
family_value af_atmsvc = 20
family_value af_rds = 21
family_value af_sna = 22
family_value af_irda = 23
family_value af_pppox = 24
family_value af_wanpipe = 25
family_value af_llc = 26
family_value af_ib = 27
family_value af_mpls = 28
family_value af_can = 29
family_value af_tipc = 30
family_value af_bluetooth = 31
family_value af_iucv = 32
family_value af_rxrpc = 33
family_value af_isdn = 34
family_value af_phonet = 35
family_value af_ieee802154 = 36
family_value af_caif = 37
family_value af_alg = 38
family_value af_nfc = 39
family_value af_vsock = 40
family_value af_max = 45

abbrev pub ifla_value : Ifla → ℕ
ifla_value ifla_unspec = 0
ifla_value ifla_address = 1
ifla_value ifla_broadcast = 2
ifla_value ifla_ifname = 3
ifla_value ifla_mtu = 4
ifla_value ifla_link = 5
ifla_value ifla_qdisc = 6
ifla_value ifla_stats = 7
ifla_value ifla_cost = 8
ifla_value ifla_priority = 9
ifla_value ifla_master = 10
ifla_value ifla_wireless = 11
ifla_value ifla_protinfo = 12
ifla_value ifla_txqlen = 13
ifla_value ifla_map = 14
ifla_value ifla_weight = 15
ifla_value ifla_operstate = 16
ifla_value ifla_linkmode = 17
ifla_value ifla_linkinfo = 18
ifla_value ifla_net_ns_pid = 19
ifla_value ifla_ifalias = 20
ifla_value ifla_num_vf = 21
ifla_value ifla_vfinfo_list = 22
ifla_value ifla_stats64 = 23
ifla_value ifla_vf_ports = 24
ifla_value ifla_port_self = 25
ifla_value ifla_af_spec = 26
ifla_value ifla_group = 27
ifla_value ifla_net_ns_fd = 28
ifla_value ifla_ext_mask = 29
ifla_value ifla_promiscuity = 30
ifla_value ifla_num_tx_queues = 31
ifla_value ifla_num_rx_queues = 32
ifla_value ifla_carrier = 33
ifla_value ifla_phys_port_id = 34
ifla_value ifla_carrier_changes = 35
ifla_value ifla_phys_switch_id = 36
ifla_value ifla_link_netnsid = 37
ifla_value ifla_phys_port_name = 38
ifla_value ifla_proto_down = 39

is_link_msg_iff_example :
    (netlink_is_link_msg rtm_value 16 ≡ true)
    ↔ ((rtm_newlink ≡ rtm_newlink) ⊎ (rtm_newlink ≡ rtm_dellink) ⊎ (rtm_newlink ≡ rtm_getlink))
is_link_msg_iff_example = is_link_msg_iff rtm_value rtm_newlink refl
