-- ===== src/Topology/Tests.antt =====
-- A node with three interfaces, and the theorems at it.
use csit.Base.{if◌then◌else◌, ◌&&◌, map, Bool, Option, true, false, none, some, [], ◌∷◌, ◌≡◌, refl}
use csit.Base.Int.{int_eq, ℤ, pos, show_int}
use csit.Base.Dict.{lookup, insert, remove, has}
use csit.Base.Text.{Text, codes, text_eq, starts_with}
use csit.Base.Result.{Result, ok, raise, runtime_error, key_error, value_error, ◌>>=◌}
use csit.Topology.{
  Interface, no_keys, Node, add_new_port, add_new_port_below, remove_port, remove_all_ports,
  remove_port_types, port_types, set_interface_numa_node, update_interface_mac_address,
  update_interface_name, update_interface_sw_if_index, update_interface_pci_address,
  update_interface_vlan, remove_all_added_ports_on_all_duts_from_topology,
}
use csit.Topology.Query.{
  get_interface_name, get_interface_sw_index, get_interface_pci_addr, get_interface_vlan,
  get_interface_mtu, get_first_active_connecting_link, elem, get_interface_by_link_name,
  get_interface_by_name, get_active_connecting_links, get_interfaces_numa_node, index, named,
  convert_interface_reference_to_key,
}
use csit.Topology.Links.{found, connecting_link-found}
use csit.Topology.Virtual.{
  is_vif, remove_all_vif_ports, remove_all_added_vif_ports_on_all_duts_from_topology,
  update_interface_vhost_socket, update_interface_memif_socket, update_interface_memif_id,
  update_interface_memif_role, update_interface_tap_dev_name, add_new_socket, del_node_socket_id,
  get_node_sockets, of_one_type, clean_sockets_on_all_nodes,
}
use csit.Topology.Neighbours.{
  get_adjacent_node_and_interface, link_name_of, find_link, get_node_link_mac, link_mac,
  get_first_egress_interface_for_nodes, get_egress_interfaces_name_for_nodes, is_tg_node,
  get_node_arch, get_interface_sw_index_by_name, convert_interface_reference, a_name,
  get_interface_ip4_prefix_length, default, get_interfaces_by_link_names, interfaces_from,
  get_node_interfaces, get_links_dict_from_nodes, one_link, links,
}
use csit.Topology.Sockets.{socket_at, del_node_socket_id-add_new_socket}
use csit.Topology.Ports.{remove_port-add_new_port, remove_all_ports-lookup}
use csit.Topology.References.{Found, convert_interface_reference_to_key-Found}

abbrev port1 : Interface
port1 = record no_keys {
  link = some (codes "l1");
  name = some (codes "eth1");
  numa_node = some (pos 0);
  vpp_sw_index = some (pos 1);
}

abbrev dut : Node
dut = record {
  host = codes "10.0.0.1";
  kind = codes "DUT";
  arch = none;
  cpuinfo = none;
  cryptodev = none;
  uio_driver = none;
  sockets = none;
  interfaces =
      (codes "port1", port1)
      ∷ (
        codes "port2",
        record port1 {
          link = some (codes "l2");
          name = some (codes "eth2");
          numa_node = some (pos 1);
          vpp_sw_index = some (pos 2);
        },
      )
      ∷ (codes "memif1", no_keys)
      ∷ [];
}

abbrev with_memif2 : Node
with_memif2 = (add_new_port dut (codes "memif")).0

program : Unit {0}
unfolding add_new_port remove_port remove_all_ports remove_port_types get_active_connecting_links
    get_interface_by_link_name get_interfaces_numa_node convert_interface_reference_to_key elem
    text_eq set_interface_numa_node update_interface_mac_address lookup insert remove show_int
    starts_with
program = tt

next_memif : (add_new_port dut (codes "memif")).1 ≡ some (codes "memif2")
unfolding program
next_memif = refl

names_taken : add_new_port_below 1 dut (codes "memif") ≡ (dut, none)
unfolding program
names_taken = refl

no_added_ports : has (codes "memif1") (remove_port_types with_memif2 port_types).interfaces ≡ false
unfolding program
no_added_ports = refl

numa_of_both : get_interfaces_numa_node dut (codes "port1" ∷ codes "port2" ∷ []) ≡ some (pos 0)
unfolding program
numa_of_both = refl

numa_of_nothing : get_interfaces_numa_node dut [] ≡ some (pos 0)
unfolding program
numa_of_nothing = refl

-- An interface without the key `numa_node` gives `None`.
numa_unknown : get_interfaces_numa_node dut (codes "memif1" ∷ []) ≡ none
unfolding program
numa_unknown = refl

by_index : convert_interface_reference_to_key dut (index (pos 2)) ≡ ok (some (codes "port2"))
unfolding program
by_index = refl

by_link : convert_interface_reference_to_key dut (named (codes "l1")) ≡ ok (some (codes "port1"))
unfolding program
by_link = refl

by_nothing : convert_interface_reference_to_key dut (named (codes "l9")) ≡ raise runtime_error
unfolding program
by_nothing = refl

no_numa_to_set : set_interface_numa_node dut (codes "port9") (pos 1) ≡ (dut, none)
unfolding program
no_numa_to_set = refl

after_updates : ℤ → Text → Result Node
after_updates n s = do
  named_node ← update_interface_name dut (codes "port1") s
  indexed ← update_interface_sw_if_index named_node (codes "port1") n
  addressed ← update_interface_pci_address indexed (codes "port1") s
  update_interface_vlan addressed (codes "port1") n

abbrev read : (Node → Bool) → Result Node → Bool
read test (ok node) = test node
read test (raise e) = false

is_some_int : ℤ → Option ℤ → Bool
is_some_int n none = false
is_some_int n (some m) = int_eq m n

is_some_text : Text → Option Text → Bool
is_some_text s none = false
is_some_text s (some t) = text_eq t s

updates_read :
    read
      (λ node.
        is_some_text (codes "new") (get_interface_name node (codes "port1"))
        && is_some_int (pos 7) (get_interface_sw_index node (codes "port1"))
        && is_some_text (codes "new") (get_interface_pci_addr node (codes "port1"))
        && is_some_int (pos 7) (get_interface_vlan node (codes "port1"))
        && is_some_text (codes "eth2") (get_interface_name node (codes "port2")))
      (after_updates (pos 7) (codes "new"))
    ≡ true
unfolding program after_updates is_some_int is_some_text update_interface_name
    update_interface_sw_if_index update_interface_pci_address update_interface_vlan
    get_interface_name get_interface_sw_index get_interface_pci_addr get_interface_vlan
updates_read = refl

no_port_to_name : update_interface_name dut (codes "port9") (codes "new") ≡ raise key_error
unfolding program update_interface_name
no_port_to_name = refl

no_mtu : get_interface_mtu dut (codes "port1") ≡ none
unfolding program get_interface_mtu
no_mtu = refl

first_link : get_first_active_connecting_link dut dut ≡ ok (codes "l1")
unfolding program get_first_active_connecting_link
first_link = refl

ports_of_dut :
    map
      (λ (n : Node). has (codes "memif2") n.interfaces)
      (remove_all_added_ports_on_all_duts_from_topology
        (with_memif2 ∷ record with_memif2 { kind = codes "TG" } ∷ []))
    ≡ false ∷ true ∷ []
unfolding program remove_all_added_ports_on_all_duts_from_topology
ports_of_dut = refl

connecting_link-found_example :
    (found (get_interface_by_link_name dut (codes "l2")) ≡ true)
    × (found (get_interface_by_link_name dut (codes "l2")) ≡ true)
unfolding program
connecting_link-found_example =
    connecting_link-found dut dut none none (codes "l1" ∷ codes "l2" ∷ []) (codes "l2") refl refl

remove_port-add_new_port_example :
    (has (codes "memif2") dut.interfaces ≡ false) × (remove_port with_memif2 (codes "memif2") ≡ dut)
unfolding program
remove_port-add_new_port_example =
    remove_port-add_new_port dut with_memif2 (codes "memif") (codes "memif2") refl

remove_all_ports-lookup_example :
    lookup (codes "port1") (remove_all_ports dut (codes "memif")).interfaces ≡ some port1
unfolding program
remove_all_ports-lookup_example = remove_all_ports-lookup dut (codes "memif") (codes "port1")

convert_interface_reference_to_key-Found_example :
    Found dut (named (codes "eth1")) (some (codes "port1"))
unfolding program
convert_interface_reference_to_key-Found_example =
    convert_interface_reference_to_key-Found dut (named (codes "eth1")) (some (codes "port1")) refl

virtual_ports :
    (is_vif (codes "port1_vif2x") ≡ true)
    × (is_vif (codes "port_vif2") ≡ false)
    × (is_vif (codes "port12_vif") ≡ false)
    × (get_node_interfaces (
          remove_all_vif_ports
            (record dut { interfaces = (codes "port1_vif1", no_keys) ∷ dut.interfaces }))
        ≡ codes "port1" ∷ codes "port2" ∷ codes "memif1" ∷ [])
unfolding program is_vif remove_all_vif_ports get_node_interfaces
virtual_ports = (refl, refl, refl, refl)

vifs_of_duts : remove_all_added_vif_ports_on_all_duts_from_topology (dut ∷ []) ≡ dut ∷ []
unfolding program is_vif remove_all_vif_ports remove_all_added_vif_ports_on_all_duts_from_topology
vifs_of_duts = refl

-- The values of a memif interface that was updated.
values_of : Result Node → Option Text × Option Text × Option Text × Option Text × Option Text
values_of (raise e) = (none, none, none, none, none)
values_of (ok node) = elim (lookup (codes "memif1") node.interfaces) [
  | none ↦ (none, none, none, none, none)
  | some i ↦ (i.vhost_socket, i.memif_socket, i.memif_id, i.memif_role, i.dev_name)
]

updated_virtual : Result Node
unfolding update_interface_vhost_socket update_interface_memif_socket update_interface_memif_id
    update_interface_memif_role update_interface_tap_dev_name
updated_virtual = do
  a ← update_interface_vhost_socket dut (codes "memif1") (codes "a")
  b ← update_interface_memif_socket a (codes "memif1") (codes "b")
  c ← update_interface_memif_id b (codes "memif1") (codes "c")
  d ← update_interface_memif_role c (codes "memif1") (codes "d")
  update_interface_tap_dev_name d (codes "memif1") (codes "e")

virtual_values :
    values_of updated_virtual
    ≡ (some (codes "a"), some (codes "b"), some (codes "c"), some (codes "d"), some (codes "e"))
unfolding program values_of updated_virtual update_interface_vhost_socket
    update_interface_memif_socket update_interface_memif_id update_interface_memif_role
    update_interface_tap_dev_name
virtual_values = refl

abbrev peer : Node
peer = record dut {
  host = codes "10.0.0.2";
  kind = codes "TG";
  interfaces =
      (codes "port7", record no_keys { link = some (codes "l2"); mac_address = some (codes "m") })
      ∷ [];
}

neighbours :
    (get_adjacent_node_and_interface (dut ∷ peer ∷ []) dut (codes "port2")
      ≡ ok (some (peer, codes "port7")))
    × (get_adjacent_node_and_interface (dut ∷ peer ∷ []) dut (codes "port1") ≡ ok none)
    × (get_adjacent_node_and_interface (dut ∷ peer ∷ []) dut (codes "memif1") ≡ raise key_error)
    × (get_node_link_mac peer (codes "l2") ≡ some (codes "m"))
    × (get_first_egress_interface_for_nodes dut peer ≡ ok (codes "eth1"))
    × (is_tg_node peer ≡ true)
    × ((get_node_arch peer).1 ≡ codes "x86_64")
    × (get_interface_sw_index_by_name dut (codes "eth2") ≡ some (pos 2))
    × (convert_interface_reference dut (named (codes "l2")) (codes "name")
        ≡ ok (a_name (some (codes "eth2"))))
    × (convert_interface_reference dut (named (codes "l2")) (codes "mac") ≡ raise value_error)
    × (get_interface_ip4_prefix_length dut (codes "port1") ≡ ok (default (codes "24")))
    × (get_interfaces_by_link_names dut (codes "l2" ∷ [])
        ≡ (codes "interface1", some (codes "eth2")) ∷ [])
    × (get_links_dict_from_nodes peer dut dut
        ≡ ok (
            (codes "DUT1_DUT2_LINK", one_link (codes "l1"))
            ∷ (codes "DUT1_TG_LINK", one_link (codes "l2"))
            ∷ (codes "DUT2_TG_LINK", one_link (codes "l2"))
            ∷ (codes "TG_TRAFFIC_LINKS", links (codes "l2" ∷ codes "l2" ∷ []))
            ∷ (codes "DUT1_BD_LINKS", links (codes "l1" ∷ codes "l2" ∷ []))
            ∷ (codes "DUT2_BD_LINKS", links (codes "l1" ∷ codes "l2" ∷ []))
            ∷ []))
unfolding program get_adjacent_node_and_interface link_name_of find_link get_node_link_mac link_mac
    get_first_egress_interface_for_nodes get_egress_interfaces_name_for_nodes is_tg_node
    get_node_arch get_interface_sw_index_by_name convert_interface_reference get_interface_name
    get_interface_ip4_prefix_length get_interfaces_by_link_names interfaces_from
    get_interface_by_name get_interface_sw_index get_links_dict_from_nodes
    get_first_active_connecting_link
neighbours = (refl, refl, refl, refl, refl, refl, refl, refl, refl, refl, refl, refl, refl)

sockets_read :
    (get_node_sockets
        (add_new_socket dut (codes "memif") (codes "1") (codes "/run/m"))
        (some (codes "memif"))
      ≡ some (of_one_type ((codes "1", codes "/run/m") ∷ [])))
    × (get_node_sockets dut none ≡ none)
    × (del_node_socket_id dut (codes "memif") (codes "1") ≡ raise key_error)
    × (clean_sockets_on_all_nodes (add_new_socket dut (codes "a") (codes "b") (codes "c") ∷ [])
        ≡ dut ∷ [])
unfolding program add_new_socket get_node_sockets del_node_socket_id clean_sockets_on_all_nodes
sockets_read = (refl, refl, refl, refl)

del_node_socket_id-add_new_socket_example :
    (later : Node) × (del_node_socket_id
        (add_new_socket dut (codes "memif") (codes "1") (codes "/run/m"))
        (codes "memif")
        (codes "1")
      ≡ ok later)
    × ((t i : Text)
        → socket_at t i later ≡ (
            if text_eq (codes "memif") t && text_eq (codes "1") i then none else socket_at t i dut))
del_node_socket_id-add_new_socket_example =
    del_node_socket_id-add_new_socket dut (codes "memif") (codes "1") (codes "/run/m")
