-- ===== src/Topology.antt =====
-- resources/libraries/python/topology.py: the nodes of the active topology and their interfaces.
-- A node is a dictionary of known keys, so it is a record; so is an interface, where each key may be
-- missing. `interfaces` is a dictionary, whose order the lookups follow.
pub mod Query
pub mod Ports
mod Sockets
pub mod Virtual
pub mod Neighbours
pub mod References
pub mod Links
mod Tests
use csit.Base.{ℕ, zero, suc, Option, none, some, List, [], ◌∷◌, ◌++◌, map, Bool, if◌then◌else◌}
use csit.Base.Int.{ℤ, pos, show_int}
use csit.Base.Dict.{Dict, lookup, insert, remove, has, keys}
use csit.Base.Text.{Text, codes, text_eq, starts_with}
use csit.Base.Result.{Result, ok, raise, key_error, ◌>>=◌, or_raise}

pub record Interface : Type 0 where
  pub link : Option Text
  pub name : Option Text
  pub model : Option Text
  pub mac_address : Option Text
  pub pci_address : Option Text
  pub driver : Option Text
  pub ip4_address : Option Text
  pub ip4_prefix_length : Option ℤ
  pub vlan : Option ℤ
  pub mtu : Option ℤ
  pub numa_node : Option ℤ
  pub vpp_sw_index : Option ℤ
  pub vhost_socket : Option Text
  pub memif_socket : Option Text
  pub memif_id : Option Text
  pub memif_role : Option Text
  pub dev_name : Option Text

-- `dict()`
abbrev pub no_keys : Interface
no_keys = record {
  link = none;
  name = none;
  model = none;
  mac_address = none;
  pci_address = none;
  driver = none;
  ip4_address = none;
  ip4_prefix_length = none;
  vlan = none;
  mtu = none;
  numa_node = none;
  vpp_sw_index = none;
  vhost_socket = none;
  memif_socket = none;
  memif_id = none;
  memif_role = none;
  dev_name = none;
}

pub record Node : Type 0 where
  pub host : Text
  pub kind : Text
  pub arch : Option Text
  pub cpuinfo : Option (List (List ℤ))
  pub interfaces : Dict Interface
  pub cryptodev : Option Text
  pub uio_driver : Option Text
  pub sockets : Option (Dict (Dict Text))

-- `for i in range(i, i + rounds)`: the first name that is free.
first_free : Dict Interface → Text → ℕ → ℕ → Option Text
first_free interfaces ptype i zero = none
first_free interfaces ptype i (suc rounds) =
    let iface = ptype ++ show_int (pos i) in
    let later = first_free interfaces ptype (suc i) rounds in
    if has iface interfaces then later else some iface

abbrev added : Node → Option Text → Node × Option Text
added node none = (node, none)
added node (some iface) =
    (record node { interfaces = insert iface no_keys node.interfaces }, some iface)

-- `max_ports` is 1000000, and the range stops before it.
add_new_port_below : ℕ → Node → Text → Node × Option Text
unfolding first_free
add_new_port_below rounds node ptype = added node (first_free node.interfaces ptype 1 rounds)

pub add_new_port : Node → Text → Node × Option Text
unfolding add_new_port_below
add_new_port = add_new_port_below 999999

pub remove_port : Node → Text → Node
remove_port node iface_key = record node { interfaces = remove iface_key node.interfaces }

-- The `for` loop over a copy of the keys.
pub remove_where : (Text → Bool) → List Text → Dict Interface → Dict Interface
remove_where test [] d = d
remove_where test (if_key ∷ rest) d =
    remove_where test rest (if test if_key then remove if_key d else d)

pub remove_all_ports : Node → Text → Node
unfolding remove_where
remove_all_ports node ptype = record node {
  interfaces =
      remove_where (λ if_key. starts_with if_key ptype) (keys node.interfaces) node.interfaces;
}

abbrev port_types : List Text
port_types =
    codes "subinterface"
    ∷ codes "vlan_subif"
    ∷ codes "memif"
    ∷ codes "tap"
    ∷ codes "vhost"
    ∷ codes "loopback"
    ∷ codes "gre_tunnel"
    ∷ codes "vxlan_tunnel"
    ∷ codes "eth_bond"
    ∷ codes "eth_avf"
    ∷ codes "eth_rdma"
    ∷ []

remove_port_types : Node → List Text → Node
unfolding remove_all_ports
remove_port_types node [] = node
remove_port_types node (ptype ∷ rest) = remove_port_types (remove_all_ports node ptype) rest

pub remove_all_added_ports_on_all_duts_from_topology : List Node → List Node
unfolding remove_port_types
remove_all_added_ports_on_all_duts_from_topology nodes =
    map
      (λ node. if text_eq node.kind (codes "DUT") then remove_port_types node port_types else node)
      nodes

-- `node["interfaces"][iface_key][key] = value`
update_interface : Node → Text → (Interface → Interface) → Result Node
update_interface node iface_key change = do
  interface ← or_raise key_error (lookup iface_key node.interfaces)
  ok (record node { interfaces = insert iface_key (change interface) node.interfaces })

pub update_interface_sw_if_index : Node → Text → ℤ → Result Node
unfolding update_interface
update_interface_sw_if_index node iface_key sw_if_index =
    update_interface node iface_key (λ i. record i { vpp_sw_index = some sw_if_index })

pub update_interface_name : Node → Text → Text → Result Node
unfolding update_interface
update_interface_name node iface_key name =
    update_interface node iface_key (λ i. record i { name = some name })

pub update_interface_mac_address : Node → Text → Text → Result Node
unfolding update_interface
update_interface_mac_address node iface_key mac_address =
    update_interface node iface_key (λ i. record i { mac_address = some mac_address })

pub update_interface_pci_address : Node → Text → Text → Result Node
unfolding update_interface
update_interface_pci_address node iface_key pci_address =
    update_interface node iface_key (λ i. record i { pci_address = some pci_address })

pub update_interface_vlan : Node → Text → ℤ → Result Node
unfolding update_interface
update_interface_vlan node iface_key vlan =
    update_interface node iface_key (λ i. record i { vlan = some vlan })

-- The node, and the key or `None` if there is no such interface.
pub set_interface_numa_node : Node → Text → ℤ → Node × Option Text
unfolding update_interface
set_interface_numa_node node iface_key numa_node_id =
    elim (update_interface node iface_key (λ i. record i { numa_node = some numa_node_id })) [
      | ok updated ↦ (updated, some iface_key)
      | raise _ ↦ (node, none)
    ]
