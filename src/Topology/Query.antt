-- ===== src/Topology/Query.antt =====
-- The methods of `Topology` that only read: an interface by a value, links of nodes, the NUMA node of
-- interfaces, and references to an interface in any format.
use csit.Base.{
  ℕ, suc, ltb, true, Bool, false, ◌||◌, Option, none, some, List, [], ◌∷◌, ◌++◌, if◌then◌else◌,
}
use csit.Base.Int.{ℤ, pos, negsuc, int_eq}
use csit.Base.Dict.{Dict, lookup, has}
use csit.Base.Text.{Text, text_eq}
use csit.Base.Result.{Result, ok, raise, runtime_error}
use csit.Topology.{Interface, Node}

-- `s in texts`
unfoldable pub elem : Text → List Text → Bool
elem s [] = false
elem s (t ∷ ts) = text_eq s t || elem s ts

abbrev pub holds {ℓ} : {A : Type ℓ} → (A → A → Bool) → A → Option A → Bool
holds eq value none = false
holds eq value (some k_val) = eq k_val value

-- The `for` loop over the items: the first key whose interface passes the test.
unfoldable pub find_interface : (Interface → Bool) → Dict Interface → Option Text
find_interface test [] = none
find_interface test ((if_key, if_val) ∷ rest) =
    if test if_val then some if_key else find_interface test rest

unfoldable pub get_interface_by_key_value {ℓ} :
    {A : Type ℓ} → Node → (Interface → Option A) → (A → A → Bool) → A → Option Text
unfolding find_interface
get_interface_by_key_value node key eq value =
    find_interface (λ if_val. holds eq value (key if_val)) node.interfaces

unfoldable pub get_interface_by_name : Node → Text → Option Text
unfolding get_interface_by_key_value
get_interface_by_name node iface_name =
    get_interface_by_key_value node (λ i. i.name) text_eq iface_name

unfoldable pub get_interface_by_link_name : Node → Text → Option Text
unfolding get_interface_by_key_value
get_interface_by_link_name node link_name =
    get_interface_by_key_value node (λ i. i.link) text_eq link_name

unfoldable pub get_interface_by_sw_index : Node → ℤ → Option Text
unfolding get_interface_by_key_value
get_interface_by_sw_index node sw_if_index =
    get_interface_by_key_value node (λ i. i.vpp_sw_index) int_eq sw_if_index

unfoldable pub get_node_by_hostname : List Node → Text → Option Node
get_node_by_hostname [] hostname = none
get_node_by_hostname (node ∷ nodes) hostname =
    if text_eq node.host hostname then some node else get_node_by_hostname nodes hostname

-- `links.append(link)` for a link that is there and not in the list.
unfoldable pub add_link : List Text → Option Text → List Text
unfolding elem
add_link links none = links
add_link links (some link) = if elem link links then links else links ++ link ∷ []

unfoldable pub add_links : List Text → Dict Interface → List Text
unfolding add_link
add_links links [] = links
add_links links ((if_key, interface) ∷ rest) = add_links (add_link links interface.link) rest

unfoldable pub links_from : List Text → List Node → List Text
unfolding add_links
links_from links [] = links
links_from links (node ∷ nodes) = links_from (add_links links node.interfaces) nodes

unfoldable pub get_links : List Node → List Text
unfolding links_from
get_links = links_from []

-- `node["interfaces"][iface_key].get(key)`, and `None` where `KeyError` is caught.
abbrev pub interface_value {ℓ} : {A : Type ℓ} → Node → Text → (Interface → Option A) → Option A
interface_value node iface_key key = elim (lookup iface_key node.interfaces) [
  | none ↦ none
  | some i ↦ key i
]

unfoldable pub get_interface_name : Node → Text → Option Text
get_interface_name node iface_key = interface_value node iface_key (λ i. i.name)

unfoldable pub get_interface_sw_index : Node → Text → Option ℤ
get_interface_sw_index node iface_key = interface_value node iface_key (λ i. i.vpp_sw_index)

unfoldable pub get_interface_mtu : Node → Text → Option ℤ
get_interface_mtu node iface_key = interface_value node iface_key (λ i. i.mtu)

unfoldable pub get_interface_numa_node : Node → Text → Option ℤ
get_interface_numa_node node iface_key = interface_value node iface_key (λ i. i.numa_node)

unfoldable pub get_interface_mac : Node → Text → Option Text
get_interface_mac node iface_key = interface_value node iface_key (λ i. i.mac_address)

unfoldable pub get_interface_ip4 : Node → Text → Option Text
get_interface_ip4 node iface_key = interface_value node iface_key (λ i. i.ip4_address)

unfoldable pub get_interface_pci_addr : Node → Text → Option Text
get_interface_pci_addr node iface_key = interface_value node iface_key (λ i. i.pci_address)

unfoldable pub get_interface_driver : Node → Text → Option Text
get_interface_driver node iface_key = interface_value node iface_key (λ i. i.driver)

unfoldable pub get_interface_vlan : Node → Text → Option ℤ
get_interface_vlan node iface_key = interface_value node iface_key (λ i. i.vlan)

-- The `for` loop of `get_interfaces_numa_node`: a key without an interface is passed over.
unfoldable pub numa_list : Node → List Text → List (Option ℤ)
numa_list node [] = []
numa_list node (if_key ∷ iface_keys) =
    let rest = numa_list node iface_keys in
    elim (lookup if_key node.interfaces) [ none ↦ rest | some i ↦ i.numa_node ∷ rest ]

abbrev pub numa_eq : Option ℤ → Option ℤ → Bool
numa_eq none none = true
numa_eq (some a) (some b) = int_eq a b
numa_eq _ _ = false

-- `Counter`: the values with their counts, in the order of their first appearance.
unfoldable pub count_in : Option ℤ → List (Option ℤ × ℕ) → List (Option ℤ × ℕ)
count_in v [] = (v, 1) ∷ []
count_in v ((w, n) ∷ counts) =
    if numa_eq w v then (w, suc n) ∷ counts else (w, n) ∷ count_in v counts

unfoldable pub counter : List (Option ℤ × ℕ) → List (Option ℤ) → List (Option ℤ × ℕ)
unfolding count_in
counter counts [] = counts
counter counts (v ∷ values) = counter (count_in v counts) values

-- `most_common()`: by falling counts, and values of one count in the counter's order.
unfoldable pub insert_by_count : Option ℤ × ℕ → List (Option ℤ × ℕ) → List (Option ℤ × ℕ)
insert_by_count (v, n) [] = (v, n) ∷ []
insert_by_count (v, n) ((w, m) ∷ sorted) =
    if ltb n m then (w, m) ∷ insert_by_count (v, n) sorted else (v, n) ∷ (w, m) ∷ sorted

unfoldable pub most_common : List (Option ℤ × ℕ) → List (Option ℤ × ℕ)
unfolding insert_by_count
most_common [] = []
most_common (c ∷ counts) = insert_by_count c (most_common counts)

-- The choice among the sorted values; -1 is an unknown location.
unfoldable pub choose_numa : List (Option ℤ × ℕ) → Option ℤ
choose_numa [] = some (pos 0)
choose_numa ((v, n) ∷ []) = if numa_eq v (some (negsuc 0)) then some (pos 0) else v
choose_numa ((v, n) ∷ (w, m) ∷ rest) = if numa_eq v (some (negsuc 0)) then w else v

unfoldable pub get_interfaces_numa_node : Node → List Text → Option ℤ
unfolding numa_list counter most_common choose_numa
get_interfaces_numa_node node iface_keys =
    choose_numa (most_common (counter [] (numa_list node iface_keys)))

-- `if key is None: raise RuntimeError`
abbrev pub found_or_raise : Option Text → Result (Option Text)
found_or_raise none = raise runtime_error
found_or_raise (some key) = ok (some key)

-- A reference to an interface: a `sw_if_index`, or a key, a link or a name.
pub data Reference : Type 0 where
  index : ℤ → Reference
  named : Text → Reference

-- The key, which a lookup by link name may leave `None`.
unfoldable pub convert_interface_reference_to_key : Node → Reference → Result (Option Text)
unfolding get_interface_by_sw_index get_interface_by_name get_interface_by_link_name get_links
convert_interface_reference_to_key node (index n) =
    found_or_raise (get_interface_by_sw_index node n)
convert_interface_reference_to_key node (named interface) =
    if has interface node.interfaces
    then ok (some interface)
    else if elem interface (get_links (node ∷ []))
    then ok (get_interface_by_link_name node interface)
    else found_or_raise (get_interface_by_name node interface)

-- The links of the interfaces that the filter lets through, once for each filter that matches.
unfoldable pub matching : Text → Text → List Text → List Text
matching link model [] = []
matching link model (filt ∷ filters) =
    let rest = matching link model filters in if text_eq filt model then link ∷ rest else rest

unfoldable pub links_of : Option (List Text) → Option Text → Option Text → List Text
unfolding matching
links_of filter_list none model = []
links_of none (some link) model = link ∷ []
links_of (some filters) (some link) none = []
links_of (some filters) (some link) (some model) = matching link model filters

unfoldable pub active_links : Option (List Text) → Dict Interface → List Text
unfolding links_of
active_links filter_list [] = []
active_links filter_list ((if_key, interface) ∷ rest) =
    links_of filter_list interface.link interface.model ++ active_links filter_list rest

-- `None` in place of an empty list.
abbrev pub none_if_empty : List Text → Option (List Text)
none_if_empty [] = none
none_if_empty (l ∷ ls) = some (l ∷ ls)

unfoldable pub get_node_active_link_names : Node → Option (List Text) → Option (List Text)
unfolding active_links
get_node_active_link_names node filter_list =
    none_if_empty (active_links filter_list node.interfaces)

unfoldable pub shared : List Text → List Text → List Text
unfolding elem
shared [] second = []
shared (link ∷ first) second =
    let rest = shared first second in if elem link second then link ∷ rest else rest

unfoldable pub connecting : Option (List Text) → Option (List Text) → Option (List Text)
unfolding shared
connecting none node2_links = none
connecting (some node1_links) none = none
connecting (some node1_links) (some node2_links) = some (shared node1_links node2_links)

unfoldable pub get_active_connecting_links :
    Node → Node → Option (List Text) → Option (List Text) → Option (List Text)
unfolding get_node_active_link_names connecting
get_active_connecting_links node1 node2 filter_list_node1 filter_list_node2 =
    connecting (get_node_active_link_names node1 filter_list_node1)
      (get_node_active_link_names node2 filter_list_node2)

unfoldable pub get_first_active_connecting_link : Node → Node → Result Text
unfolding get_active_connecting_links
get_first_active_connecting_link node1 node2 =
    elim (get_active_connecting_links node1 node2 none none) [
      | some (link ∷ links) ↦ ok link
      | _ ↦ raise runtime_error
    ]
