-- ===== src/Topology/Neighbours.antt =====
-- resources/libraries/python/topology.py: the node next to an interface, links between nodes, and the
-- readers that remain.
use csit.Base.{ℕ, suc, Bool, Option, none, some, List, [], ◌∷◌, ◌++◌, if◌then◌else◌}
use csit.Base.Int.{ℤ, pos, show_int}
use csit.Base.Dict.{Dict, lookup, insert, keys}
use csit.Base.Text.{Text, codes, text_eq}
use csit.Base.Result.{Result, ok, raise, key_error, value_error, runtime_error, ◌>>=◌, or_raise}
use csit.Topology.{Interface, Node}
use csit.Topology.Query.{
  elem, holds, interface_value, get_interface_by_name, get_interface_by_link_name,
  get_interface_name, get_interface_sw_index, convert_interface_reference_to_key, Reference,
  get_active_connecting_links, get_first_active_connecting_link, find_interface,
}

-- `None`, or the name of an interface that may have none.
abbrev pub name_of : Node → Option Text → Option Text
name_of node none = none
name_of node (some iface_key) = get_interface_name node iface_key

-- `None` is the key of no interface.
abbrev pub sw_index_of : Node → Option Text → Option ℤ
sw_index_of node none = none
sw_index_of node (some iface_key) = get_interface_sw_index node iface_key

unfoldable pub interfaces_from : ℕ → Node → List Text → Dict (Option Text) → Dict (Option Text)
interfaces_from interface_number node [] retval = retval
interfaces_from interface_number node (link_name ∷ link_names) retval =
    interfaces_from (suc interface_number) node link_names (
      insert (codes "interface" ++ show_int (pos interface_number))
        (name_of node (get_interface_by_link_name node link_name)) retval)

unfoldable pub get_interfaces_by_link_names : Node → List Text → Dict (Option Text)
get_interfaces_by_link_names node link_names = interfaces_from 1 node link_names []

-- For a name that is a text.
unfoldable pub get_interface_sw_index_by_name : Node → Text → Option ℤ
get_interface_sw_index_by_name node iface_name = elim (get_interface_by_name node iface_name) [
  | none ↦ none
  | some iface_key ↦ interface_value node iface_key (λ i. i.vpp_sw_index)
]

pub data Converted : Type 0 where
  a_key : Option Text → Converted
  a_name : Option Text → Converted
  a_sw_if_index : Option ℤ → Converted

abbrev pub converted : Node → Text → Option Text → Result Converted
converted node wanted_format key =
    if text_eq wanted_format (codes "key")
    then ok (a_key key)
    else if text_eq wanted_format (codes "name")
    then ok (a_name (name_of node key))
    else if text_eq wanted_format (codes "sw_if_index")
    then ok (a_sw_if_index (sw_index_of node key))
    else raise value_error

unfoldable pub convert_interface_reference : Node → Reference → Text → Result Converted
convert_interface_reference node interface wanted_format = do
  key ← convert_interface_reference_to_key node interface
  converted node wanted_format key

-- A length of the topology file, or the constant's text.
pub data PrefixLength : Type 0 where
  from_file : ℤ → PrefixLength
  default : Text → PrefixLength

unfoldable pub get_interface_ip4_prefix_length : Node → Text → Result PrefixLength
get_interface_ip4_prefix_length node iface_key = do
  interface ← or_raise key_error (lookup iface_key node.interfaces)
  ok (elim interface.ip4_prefix_length [
    | none ↦ default (codes "24")
    | some length ↦ from_file length
  ])

-- The first loop, which passes over the key `mgmt`; `if_val["link"]` raises where there is no link.
unfoldable pub link_name_of : Text → Dict Interface → Result (Option Text)
link_name_of iface_key [] = ok none
link_name_of iface_key ((if_key, if_val) ∷ rest) =
    let later = link_name_of iface_key rest in
    if text_eq if_key (codes "mgmt")
    then later
    else if text_eq if_key iface_key
    then (do link ← or_raise key_error if_val.link; ok (some link))
    else later

-- The second loop, over the nodes at other hosts.
unfoldable pub find_link : Text → Node → List Node → Option (Node × Text)
find_link link_name node [] = none
find_link link_name node (node_data ∷ rest) =
    let later = find_link link_name node rest in
    if text_eq node_data.host node.host
    then later
    else elim (find_interface (λ i. holds text_eq link_name i.link) node_data.interfaces) [
      | none ↦ later
      | some if_key ↦ some (node_data, if_key)
    ]

unfoldable pub get_adjacent_node_and_interface :
    List Node → Node → Text → Result (Option (Node × Text))
get_adjacent_node_and_interface nodes_info node iface_key = do
  link_name ← link_name_of iface_key node.interfaces
  ok (elim link_name [ none ↦ none | some link ↦ find_link link node nodes_info ])

unfoldable pub get_node_interfaces : Node → List Text
get_node_interfaces node = keys node.interfaces

-- The first port with the link, whose address may be missing.
unfoldable pub link_mac : Text → Dict Interface → Option Text
link_mac link_name [] = none
link_mac link_name ((if_key, port) ∷ rest) =
    if holds text_eq link_name port.link then port.mac_address else link_mac link_name rest

unfoldable pub get_node_link_mac : Node → Text → Option Text
get_node_link_mac node link_name = link_mac link_name node.interfaces

-- The names of interfaces with a link that is not one of the given ones.
abbrev pub egress_name : List Text → Option Text → Option Text → List Text
egress_name linked none name = []
egress_name linked (some link) none = []
egress_name linked (some link) (some name) = if elem link linked then [] else name ∷ []

abbrev pub egress_names : List Text → Dict Interface → List Text
egress_names linked [] = []
egress_names linked ((if_key, interface) ∷ rest) =
    egress_name linked interface.link interface.name ++ egress_names linked rest

abbrev pub if_linked : Node → Option (List Text) → Result (List Text)
if_linked node1 none = raise runtime_error
if_linked node1 (some []) = raise runtime_error
if_linked node1 (some (link ∷ more)) = ok (egress_names (link ∷ more) node1.interfaces)

unfoldable pub get_egress_interfaces_name_for_nodes : Node → Node → Result (List Text)
get_egress_interfaces_name_for_nodes node1 node2 =
    if_linked node1 (get_active_connecting_links node1 node2 none none)

abbrev pub first_of : List Text → Result Text
first_of [] = raise runtime_error
first_of (interface ∷ interfaces) = ok interface

unfoldable pub get_first_egress_interface_for_nodes : Node → Node → Result Text
get_first_egress_interface_for_nodes node1 node2 = do
  interfaces ← get_egress_interfaces_name_for_nodes node1 node2
  first_of interfaces

-- A link, or a list of links.
pub data LinkValue : Type 0 where
  one_link : Text → LinkValue
  links : List Text → LinkValue

unfoldable pub get_links_dict_from_nodes : Node → Node → Node → Result (Dict LinkValue)
get_links_dict_from_nodes tgen dut1 dut2 = do
  dut1_dut2_link ← get_first_active_connecting_link dut1 dut2
  dut1_tg_link ← get_first_active_connecting_link dut1 tgen
  dut2_tg_link ← get_first_active_connecting_link dut2 tgen
  ok (
      (codes "DUT1_DUT2_LINK", one_link dut1_dut2_link)
      ∷ (codes "DUT1_TG_LINK", one_link dut1_tg_link)
      ∷ (codes "DUT2_TG_LINK", one_link dut2_tg_link)
      ∷ (codes "TG_TRAFFIC_LINKS", links (dut1_tg_link ∷ dut2_tg_link ∷ []))
      ∷ (codes "DUT1_BD_LINKS", links (dut1_dut2_link ∷ dut1_tg_link ∷ []))
      ∷ (codes "DUT2_BD_LINKS", links (dut1_dut2_link ∷ dut2_tg_link ∷ []))
      ∷ [])

unfoldable pub is_tg_node : Node → Bool
is_tg_node node = text_eq node.kind (codes "TG")

-- The node with its architecture filled in, and the architecture.
unfoldable pub get_node_arch : Node → Node × Text
get_node_arch node = elim node.arch [
  | none ↦ (record node { arch = some (codes "x86_64") }, codes "x86_64")
  | some arch ↦ (node, arch)
]
