-- ===== src/Topology/Ports.antt =====
-- Ports added to a node and removed from it again.
use csit.Base.{
  Bool, ℕ, zero, suc, false, ◌&&◌, Option, none, some, List, [], ◌∷◌, ◌++◌, ◌≡◌, refl, sym, ap,
  subst, ◌∙◌, inl, inr, arith, if◌then◌else◌, Bool-cases,
}
use csit.Base.Int.{pos, show_int}
use csit.Base.Dict.{Dict, lookup, insert, remove, has, keys, lookup-remove}
use csit.Base.Text.{Text, text_eq_iff, starts_with}
use csit.Topology.{
  Interface, no_keys, Node, first_free, add_new_port_below, add_new_port, remove_port, remove_where,
  remove_all_ports, added,
}
use csit.Topology.Query.{elem}

first_free-free :
    (d : Dict Interface) (ptype : Text) (i rounds : ℕ) {iface : Text}
    → first_free d ptype i rounds ≡ some iface
    → has iface d ≡ false
unfolding first_free
first_free-free d ptype i zero h = cc
first_free-free d ptype i (suc rounds) {iface} h =
    elim (Bool-cases (has (ptype ++ show_int (pos i)) d)) [
      | inl e ↦ first_free-free d ptype (suc i) rounds (sym (rw e refl) ∙ h)
      | inr e ↦ ground arith
    ]

remove-missing : (k : Text) (d : Dict Interface) → has k d ≡ false → remove k d ≡ d
unfolding remove lookup
remove-missing k [] h = refl
remove-missing k ((j, v) ∷ d) h = ground (arith, remove-missing k d)

remove-insert :
    (k : Text) (v : Interface) (d : Dict Interface) → has k d ≡ false → remove k (insert k v d) ≡ d
unfolding remove insert lookup
remove-insert k v [] h = ground (arith, text_eq_iff k k)
remove-insert k v ((j, w) ∷ d) h = ground (arith, remove-insert k v d)

remove_port-insert :
    (node : Node) (key : Text)
    → has key node.interfaces ≡ false
    → remove_port (record node { interfaces = insert key no_keys node.interfaces }) key ≡ node
unfolding remove_port
remove_port-insert node key h =
    ap (λ (d : Dict Interface). record node { interfaces = d })
      (remove-insert key no_keys node.interfaces h)

added-remove_port :
    (node : Node) (free : Option Text) {later : Node} {key : Text}
    → added node free ≡ (later, some key)
    → ((iface : Text) → free ≡ some iface → has iface node.interfaces ≡ false)
    → (has key node.interfaces ≡ false) × (remove_port later key ≡ node)
added-remove_port node none h is_free = cc
added-remove_port node (some iface) {later} {key} h is_free =
    let same : iface ≡ key = cc in
    let e : (record node { interfaces = insert iface no_keys node.interfaces }) ≡ later =
      ap (λ p. p.0) h in
    let unused = is_free iface refl in
    (
      subst (λ k. has k node.interfaces ≡ false) same unused,
      subst (λ k. remove_port later k ≡ node) same
          (subst (λ n. remove_port n iface ≡ node) e (remove_port-insert node iface unused)),
    )

-- If `add_new_port` returns a key, the node had no interface under it, and removing that port gives
-- the node back as it was.
pub remove_port-add_new_port :
    (node later : Node) (ptype key : Text)
    → add_new_port node ptype ≡ (later, some key)
    → (has key node.interfaces ≡ false) × (remove_port later key ≡ node)
unfolding add_new_port add_new_port_below
remove_port-add_new_port node later ptype key h =
    added-remove_port node (first_free node.interfaces ptype 1 999999) h
      (λ iface e. first_free-free node.interfaces ptype 1 999999 e)

pub lookup-remove_where :
    (k : Text) (test : Text → Bool) (ks : List Text) (d : Dict Interface)
    → lookup k (remove_where test ks d) ≡ (if test k && elem k ks then none else lookup k d)
unfolding remove_where elem
lookup-remove_where k test [] d = ground arith
lookup-remove_where k test (j ∷ ks) d =
    let same = λ (e : j ≡ k). ap test e in
    ground (
      arith,
      same,
      lookup-remove j k d,
      text_eq_iff k j,
      text_eq_iff j k,
      lookup-remove_where k test ks d,
      lookup-remove_where k test ks (remove j d),
    )

pub lookup-keys : (k : Text) (d : Dict Interface) → elem k (keys d) ≡ false → lookup k d ≡ none
unfolding elem lookup
lookup-keys k [] h = refl
lookup-keys k ((j, v) ∷ d) h = ground (arith, text_eq_iff k j, text_eq_iff j k, lookup-keys k d)

-- After `remove_all_ports` no interface is left whose key starts with the port type, and every other
-- interface is as it was.
pub remove_all_ports-lookup :
    (node : Node) (ptype key : Text)
    → lookup key (remove_all_ports node ptype).interfaces
      ≡ (if starts_with key ptype then none else lookup key node.interfaces)
unfolding remove_all_ports
remove_all_ports-lookup node ptype key =
    lookup-remove_where key (λ if_key. starts_with if_key ptype) (keys node.interfaces)
      node.interfaces
    ∙ ground (arith, lookup-keys key node.interfaces)
