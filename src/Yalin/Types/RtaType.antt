-- ===== src/Yalin/Types/RtaType.antt =====
-- `rta_type_to_str` of yalin/yalin/types.h: the attribute types IFLA_…. A kernel header
-- defines their values.
use hspp.Prelude.{ℕ, true, false, ◌≡◌, refl, List, [], ◌∷◌, map, none, some, get_elem?, Text, codes}
use hspp.Switch.{switch, switch_label, switch_default, distinct, mem_ℕ}

pub data Ifla : Type 0 where
  ifla_unspec ifla_address ifla_broadcast ifla_ifname : Ifla
  ifla_mtu ifla_link ifla_qdisc ifla_stats : Ifla
  ifla_cost ifla_priority ifla_master ifla_wireless : Ifla
  ifla_protinfo ifla_txqlen ifla_map ifla_weight : Ifla
  ifla_operstate ifla_linkmode ifla_linkinfo ifla_net_ns_pid : Ifla
  ifla_ifalias ifla_num_vf ifla_vfinfo_list ifla_stats64 : Ifla
  ifla_vf_ports ifla_port_self ifla_af_spec ifla_group : Ifla
  ifla_net_ns_fd ifla_ext_mask ifla_promiscuity ifla_num_tx_queues : Ifla
  ifla_num_rx_queues ifla_carrier ifla_phys_port_id ifla_carrier_changes : Ifla
  ifla_phys_switch_id ifla_link_netnsid ifla_phys_port_name ifla_proto_down : Ifla

-- The case labels, in the order of the source.
abbrev pub ifla_labels : List Ifla
ifla_labels =
    ifla_unspec ∷ ifla_address ∷ ifla_broadcast ∷ ifla_ifname ∷ ifla_mtu ∷ ifla_link ∷ ifla_qdisc
    ∷ ifla_stats ∷ ifla_cost ∷ ifla_priority ∷ ifla_master ∷ ifla_wireless ∷ ifla_protinfo
    ∷ ifla_txqlen ∷ ifla_map ∷ ifla_weight ∷ ifla_operstate ∷ ifla_linkmode ∷ ifla_linkinfo
    ∷ ifla_net_ns_pid ∷ ifla_ifalias ∷ ifla_num_vf ∷ ifla_vfinfo_list ∷ ifla_stats64 ∷ ifla_vf_ports
    ∷ ifla_port_self ∷ ifla_af_spec ∷ ifla_group ∷ ifla_net_ns_fd ∷ ifla_ext_mask ∷ ifla_promiscuity
    ∷ ifla_num_tx_queues ∷ ifla_num_rx_queues ∷ ifla_carrier ∷ ifla_phys_port_id
    ∷ ifla_carrier_changes ∷ ifla_phys_switch_id ∷ ifla_link_netnsid ∷ ifla_phys_port_name
    ∷ ifla_proto_down ∷ []

index : Ifla → ℕ
index ifla_unspec = 0
index ifla_address = 1
index ifla_broadcast = 2
index ifla_ifname = 3
index ifla_mtu = 4
index ifla_link = 5
index ifla_qdisc = 6
index ifla_stats = 7
index ifla_cost = 8
index ifla_priority = 9
index ifla_master = 10
index ifla_wireless = 11
index ifla_protinfo = 12
index ifla_txqlen = 13
index ifla_map = 14
index ifla_weight = 15
index ifla_operstate = 16
index ifla_linkmode = 17
index ifla_linkinfo = 18
index ifla_net_ns_pid = 19
index ifla_ifalias = 20
index ifla_num_vf = 21
index ifla_vfinfo_list = 22
index ifla_stats64 = 23
index ifla_vf_ports = 24
index ifla_port_self = 25
index ifla_af_spec = 26
index ifla_group = 27
index ifla_net_ns_fd = 28
index ifla_ext_mask = 29
index ifla_promiscuity = 30
index ifla_num_tx_queues = 31
index ifla_num_rx_queues = 32
index ifla_carrier = 33
index ifla_phys_port_id = 34
index ifla_carrier_changes = 35
index ifla_phys_switch_id = 36
index ifla_link_netnsid = 37
index ifla_phys_port_name = 38
index ifla_proto_down = 39

labels-index : (k : Ifla) → get_elem? ifla_labels (index k) ≡ some k
unfolding index
labels-index ifla_unspec = refl
labels-index _ = refl

-- What the case of a label returns.
unfoldable pub ifla_name : Ifla → Text
ifla_name ifla_unspec = codes "IFLA_UNSPEC"
ifla_name ifla_address = codes "IFLA_ADDRESS"
ifla_name ifla_broadcast = codes "IFLA_BROADCAST"
ifla_name ifla_ifname = codes "IFLA_IFNAME"
ifla_name ifla_mtu = codes "IFLA_MTU"
ifla_name ifla_link = codes "IFLA_LINK "
ifla_name ifla_qdisc = codes "IFLA_QDISC"
ifla_name ifla_stats = codes "IFLA_STATS"
ifla_name ifla_cost = codes "IFLA_COST"
ifla_name ifla_priority = codes "IFLA_PRIORITY"
ifla_name ifla_master = codes "IFLA_MASTER"
ifla_name ifla_wireless = codes "IFLA_WIRELESS"
ifla_name ifla_protinfo = codes "IFLA_PROTINFO"
ifla_name ifla_txqlen = codes "IFLA_TXQLEN"
ifla_name ifla_map = codes "IFLA_MAP"
ifla_name ifla_weight = codes "IFLA_WEIGHT"
ifla_name ifla_operstate = codes "IFLA_OPERSTATE"
ifla_name ifla_linkmode = codes "IFLA_LINKMODE"
ifla_name ifla_linkinfo = codes "IFLA_LINKINFO"
ifla_name ifla_net_ns_pid = codes "IFLA_NET_NS_PID"
ifla_name ifla_ifalias = codes "IFLA_IFALIAS"
ifla_name ifla_num_vf = codes "IFLA_NUM_VF"
ifla_name ifla_vfinfo_list = codes "IFLA_VFINFO_LIST"
ifla_name ifla_stats64 = codes "IFLA_STATS64"
ifla_name ifla_vf_ports = codes "IFLA_VF_PORTS"
ifla_name ifla_port_self = codes "IFLA_PORT_SELF"
ifla_name ifla_af_spec = codes "IFLA_AF_SPEC"
ifla_name ifla_group = codes "IFLA_GROUP"
ifla_name ifla_net_ns_fd = codes "IFLA_NET_NS_FD"
ifla_name ifla_ext_mask = codes "IFLA_EXT_MASK"
ifla_name ifla_promiscuity = codes "IFLA_PROMISCUITY"
ifla_name ifla_num_tx_queues = codes "IFLA_NUM_TX_QUEUES"
ifla_name ifla_num_rx_queues = codes "IFLA_NUM_RX_QUEUES"
ifla_name ifla_carrier = codes "IFLA_CARRIER"
ifla_name ifla_phys_port_id = codes "IFLA_PHYS_PORT_ID"
ifla_name ifla_carrier_changes = codes "IFLA_CARRIER_CHANGES"
ifla_name ifla_phys_switch_id = codes "IFLA_PHYS_SWITCH_ID"
ifla_name ifla_link_netnsid = codes "IFLA_LINK_NETNSID"
ifla_name ifla_phys_port_name = codes "IFLA_PHYS_PORT_NAME"
ifla_name ifla_proto_down = codes "IFLA_PROTO_DOWN"

unfoldable pub rta_type_to_str : (Ifla → ℕ) → ℕ → Text
unfolding ifla_name
rta_type_to_str value v = elim (switch value ifla_labels v) [
  | some k ↦ ifla_name k
  | none ↦ codes "unknown"
]

pub switch_ifla :
    (value : Ifla → ℕ) (k : Ifla)
    → distinct (map value ifla_labels) ≡ true
    → switch value ifla_labels (value k) ≡ some k
switch_ifla value k d = switch_label value ifla_labels (index k) d (labels-index k)

pub rta_type_to_str_label :
    (value : Ifla → ℕ) (k : Ifla)
    → distinct (map value ifla_labels) ≡ true
    → rta_type_to_str value (value k) ≡ ifla_name k
unfolding rta_type_to_str
rta_type_to_str_label value k d = rw (switch_ifla value k d, rta_type_to_str)

pub rta_type_to_str_default :
    (value : Ifla → ℕ) (v : ℕ)
    → mem_ℕ v (map value ifla_labels) ≡ false
    → rta_type_to_str value v ≡ codes "unknown"
unfolding rta_type_to_str
rta_type_to_str_default value v absent =
    rw (switch_default value ifla_labels v absent, rta_type_to_str)
