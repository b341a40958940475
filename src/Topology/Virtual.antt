-- ===== src/Topology/Virtual.antt =====
-- resources/libraries/python/topology.py: virtual functions' ports, the values of virtual interfaces, and
-- the socket files of a node.
use csit.Base.{
  ℕ, leb, Bool, true, false, ◌&&◌, Option, none, some, List, [], ◌∷◌, map, if◌then◌else◌,
}
use csit.Base.Dict.{Dict, lookup, insert, remove, keys}
use csit.Base.Text.{Text, codes, text_eq}
use csit.Base.Result.{Result, ok, key_error, ◌>>=◌, or_raise}
use csit.Topology.{Node, remove_where, update_interface}

-- `\d` of an ASCII text.
abbrev pub is_digit : ℕ → Bool
is_digit c = leb 48 c && leb c 57

-- What is behind the digits, of which there has to be one.
abbrev pub behind_more_digits : Text → Text
behind_more_digits [] = []
behind_more_digits (c ∷ s) = if is_digit c then behind_more_digits s else c ∷ s

abbrev pub behind_digits : Text → Option Text
behind_digits [] = none
behind_digits (c ∷ s) = if is_digit c then some (behind_more_digits s) else none

-- What is behind a text that has to come first.
abbrev pub behind : Text → Text → Option Text
behind [] s = some s
behind (a ∷ t) [] = none
behind (a ∷ t) (c ∷ s) = if text_eq (a ∷ []) (c ∷ []) then behind t s else none

abbrev pub and_behind : Option Text → (Text → Option Text) → Option Text
and_behind none next = none
and_behind (some s) next = next s

-- The name of a port, an underscore, and that of a virtual function; `re.match` ends anywhere.
unfoldable pub is_vif : Text → Bool
is_vif if_key =
    elim (and_behind (behind (codes "port") if_key) (λ s.
      and_behind (behind_digits s) (λ t. and_behind (behind (codes "_vif") t) behind_digits))) [
        | none ↦ false
        | some rest ↦ true
      ]

unfoldable pub remove_all_vif_ports : Node → Node
unfolding remove_where
remove_all_vif_ports node = record node {
  interfaces = remove_where is_vif (keys node.interfaces) node.interfaces;
}

unfoldable pub remove_all_added_vif_ports_on_all_duts_from_topology : List Node → List Node
remove_all_added_vif_ports_on_all_duts_from_topology nodes =
    map (λ node. if text_eq node.kind (codes "DUT") then remove_all_vif_ports node else node) nodes

unfoldable pub update_interface_vhost_socket : Node → Text → Text → Result Node
unfolding update_interface
update_interface_vhost_socket node iface_key vhost_socket =
    update_interface node iface_key (λ i. record i { vhost_socket = some vhost_socket })

unfoldable pub update_interface_memif_socket : Node → Text → Text → Result Node
unfolding update_interface
update_interface_memif_socket node iface_key memif_socket =
    update_interface node iface_key (λ i. record i { memif_socket = some memif_socket })

unfoldable pub update_interface_memif_id : Node → Text → Text → Result Node
unfolding update_interface
update_interface_memif_id node iface_key memif_id =
    update_interface node iface_key (λ i. record i { memif_id = some memif_id })

unfoldable pub update_interface_memif_role : Node → Text → Text → Result Node
unfolding update_interface
update_interface_memif_role node iface_key memif_role =
    update_interface node iface_key (λ i. record i { memif_role = some memif_role })

unfoldable pub update_interface_tap_dev_name : Node → Text → Text → Result Node
unfolding update_interface
update_interface_tap_dev_name node iface_key dev_name =
    update_interface node iface_key (λ i. record i { dev_name = some dev_name })

-- A dictionary that may be missing.
abbrev pub or_empty {ℓ} : {V : Type ℓ} → Option (Dict V) → Dict V
or_empty none = []
or_empty (some d) = d

-- `add_node_item` with the path of a socket, below which there are dictionaries only.
unfoldable pub add_new_socket : Node → Text → Text → Text → Node
add_new_socket node socket_type socket_id socket_path =
    let sockets = or_empty node.sockets in
    let of_type = or_empty (lookup socket_type sockets) in
    record node {
      sockets = some (insert socket_type (insert socket_id socket_path of_type) sockets);
    }

unfoldable pub del_node_socket_id : Node → Text → Text → Result Node
del_node_socket_id node socket_type socket_id = do
  sockets ← or_raise key_error node.sockets
  of_type ← or_raise key_error (lookup socket_type sockets)
  path ← or_raise key_error (lookup socket_id of_type)
  ok (record node { sockets = some (insert socket_type (remove socket_id of_type) sockets) })

pub data Sockets : Type 0 where
  of_all_types : Dict (Dict Text) → Sockets
  of_one_type : Dict Text → Sockets

abbrev pub sockets_for : Option Text → Dict (Dict Text) → Option Sockets
sockets_for none sockets = some (of_all_types sockets)
sockets_for (some []) sockets = some (of_all_types sockets)
sockets_for (some (c ∷ s)) sockets = elim (lookup (c ∷ s) sockets) [
  | none ↦ none
  | some of_type ↦ some (of_one_type of_type)
]

unfoldable pub get_node_sockets : Node → Option Text → Option Sockets
get_node_sockets node socket_type = elim node.sockets [
  | none ↦ none
  | some sockets ↦ sockets_for socket_type sockets
]

unfoldable pub clean_sockets_on_all_nodes : List Node → List Node
clean_sockets_on_all_nodes nodes = map (λ (node : Node). record node { sockets = none }) nodes
