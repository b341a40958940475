-- ===== src/Topology/Sockets.antt =====
-- Socket files and virtual functions' ports of nodes: additions and removals.
use csit.Base.{
  true, ◌&&◌, Option, none, some, ◌≡◌, refl, sym, ap, ◌∙◌, arith, Bool-cases, inl, inr,
  if◌then◌else◌,
}
use csit.Base.Dict.{Dict, lookup, insert, remove, keys, lookup-insert, lookup-remove}
use csit.Base.Text.{Text, text_eq, text_eq_iff}
use csit.Base.Result.{ok}
use csit.Topology.{Node}
use csit.Topology.Ports.{lookup-remove_where, lookup-keys}
use csit.Topology.Virtual.{
  or_empty, add_new_socket, del_node_socket_id, is_vif, remove_all_vif_ports,
}

-- The socket file of a type and an ID.
abbrev pub in_type : Text → Option (Dict Text) → Option Text
in_type socket_id none = none
in_type socket_id (some of_type) = lookup socket_id of_type

abbrev pub socket_at : Text → Text → Node → Option Text
socket_at socket_type socket_id node =
    in_type socket_id (lookup socket_type (or_empty node.sockets))

in_type-or_empty :
    (socket_id : Text) (o : Option (Dict Text))
    → in_type socket_id o ≡ lookup socket_id (or_empty o)
unfolding lookup
in_type-or_empty socket_id none = refl
in_type-or_empty socket_id (some of_type) = refl

same_text : (s : Text) → text_eq s s ≡ true
same_text s = (text_eq_iff s s).1 refl

lookup-insert_same {ℓ} :
    {V : Type ℓ} (k : Text) (v : V) (d : Dict V) → lookup k (insert k v d) ≡ some v
lookup-insert_same k v d = rw (lookup-insert k k v d, same_text k) refl

-- What is left of a type from which a new socket is removed.
lookup-remove-insert :
    (id i path : Text) (of_type : Dict Text)
    → lookup i (remove id (insert id path of_type))
      ≡ (if text_eq id i then none else lookup i of_type)
lookup-remove-insert id i path of_type =
    lookup-remove id i (insert id path of_type)
    ∙ ground (arith, lookup-insert id i path of_type, text_eq_iff id i)

-- The sockets after both calls.
abbrev pub left : Text → Text → Text → Dict (Dict Text) → Dict (Dict Text)
left socket_type socket_id path sockets =
    let inner = insert socket_id path (or_empty (lookup socket_type sockets)) in
    insert socket_type (remove socket_id inner) (insert socket_type inner sockets)

in_left :
    (socket_type socket_id path t i : Text) (sockets : Dict (Dict Text))
    → in_type i (lookup t (left socket_type socket_id path sockets)) ≡ (
        if text_eq socket_type t && text_eq socket_id i then none else in_type i (lookup t sockets))
in_left socket_type socket_id path t i sockets =
    let of_type = or_empty (lookup socket_type sockets) in
    let inner = insert socket_id path of_type in
    let before = insert socket_type inner sockets in
    let outer = lookup-insert socket_type t (remove socket_id inner) before in
    elim (Bool-cases (text_eq socket_type t)) [
      | inr apart ↦
          let at_t : lookup t (insert socket_type (remove socket_id inner) before)
              ≡ lookup t sockets =
            outer ∙ rw (apart, lookup-insert socket_type t inner sockets, apart) refl in
          rw apart (ap (in_type i) at_t)
      | inl same ↦
          let e = (text_eq_iff socket_type t).0 same in
          let at_t : lookup t (insert socket_type (remove socket_id inner) before)
              ≡ some (remove socket_id inner) =
            outer ∙ rw same refl in
          let here : lookup i of_type ≡ in_type i (lookup t sockets) =
            sym (in_type-or_empty i (lookup socket_type sockets))
            ∙ ap (λ k. in_type i (lookup k sockets)) e in
          rw same (
            ap (in_type i) at_t
            ∙ (lookup-remove-insert socket_id i path of_type
                ∙ ap (λ (o : Option Text). if text_eq socket_id i then none else o) here))
    ]

-- Deleting a socket that was just added returns: there is no socket of that type and ID then, and all
-- others are as they were before the addition.
pub del_node_socket_id-add_new_socket :
    (node : Node) (socket_type socket_id path : Text)
    → (later : Node) × (del_node_socket_id
          (add_new_socket node socket_type socket_id path)
          socket_type
          socket_id
        ≡ ok later)
      × ((t i : Text)
          → socket_at t i later
            ≡ (if text_eq socket_type t && text_eq socket_id i then none else socket_at t i node))
unfolding del_node_socket_id add_new_socket
del_node_socket_id-add_new_socket node socket_type socket_id path =
    let sockets = or_empty node.sockets in
    let inner = insert socket_id path (or_empty (lookup socket_type sockets)) in
    (
      record node { sockets = some (left socket_type socket_id path sockets) },
      rw (lookup-insert_same socket_type inner sockets, lookup-insert_same socket_id path _) refl,
      λ t i. in_left socket_type socket_id path t i sockets,
    )

-- After remove_all_vif_ports no interface is left whose key begins like one of a virtual function, and
-- every other interface is as it was.
pub remove_all_vif_ports-lookup :
    (node : Node) (key : Text)
    → lookup key (remove_all_vif_ports node).interfaces
      ≡ (if is_vif key then none else lookup key node.interfaces)
unfolding remove_all_vif_ports
remove_all_vif_ports-lookup node key =
    lookup-remove_where key is_vif (keys node.interfaces) node.interfaces
    ∙ ground (arith, lookup-keys key node.interfaces)
