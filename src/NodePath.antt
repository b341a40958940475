-- ===== src/NodePath.antt =====
-- resources/libraries/python/NodePath.py: a path over nodes of the topology and its interfaces.
-- The lists that the methods mutate are the fields; what a method has changed before it raises stays.
pub mod Walk
pub mod Fresh
pub mod Iterate
pub mod Ends
pub mod Circular
mod Named
mod Tests
use csit.Base.{
  Bool, true, false, not, Option, none, some, List, [], ◌∷◌, ◌++◌, if◌then◌else◌, leb, ltb, length,
  get_elem?, last?,
}
use mathlib.Core.List.{reverse}
use csit.Base.Text.{Text}
use csit.Base.Result.{Result, ok, raise, runtime_error, index_error, ◌>>=◌, or_raise}
use csit.Topology.{Node}
use csit.Topology.Query.{elem, get_active_connecting_links, get_interface_by_link_name}

-- An interface key, or `None`, and its node.
abbrev pub Hop : Type 0
Hop = Option Text × Node

abbrev pub Filter : Type 0
Filter = Option (List Text)

pub record NodePath : Type 0 where
  pub nodes : List Node
  pub nodes_filter : List Filter
  pub links : List Text
  pub path : List Hop
  pub path_iter : List Hop

abbrev pub init : NodePath
init = record { nodes = []; nodes_filter = []; links = []; path = []; path_iter = [] }

unfoldable pub append_node : NodePath → Node → Filter → NodePath
append_node self node filter_list = record self {
  nodes_filter = self.nodes_filter ++ filter_list ∷ [];
  nodes = self.nodes ++ node ∷ [];
}

unfoldable pub append_nodes : NodePath → List Node → Filter → NodePath
unfolding append_node
append_nodes self [] filter_list = self
append_nodes self (node ∷ nodes) filter_list =
    append_nodes (append_node self node filter_list) nodes filter_list

unfoldable pub clear_path : NodePath → NodePath
clear_path self = init

-- `[link for link in links if (link in used) == wanted]`
unfoldable pub select : Bool → List Text → List Text → List Text
select wanted used [] = []
select wanted used (link ∷ links) =
    let rest = select wanted used links in
    if (if elem link used then wanted else not wanted) then link ∷ rest else rest

-- The first link of `l_set`, or what is done if there is none.
abbrev pub first_or : Result Text → List Text → Result Text
first_or otherwise [] = otherwise
first_or otherwise (link ∷ l_set) = ok link

unfoldable pub choose_link : Bool → List Text → List Text → Result Text
unfolding select
choose_link always_same_link used [] = raise runtime_error
choose_link true used (link ∷ links) = first_or (ok link) (select true used (link ∷ links))
choose_link false used (link ∷ links) =
    first_or (raise runtime_error) (select false used (link ∷ links))

-- `None` and an empty list are one to the test `if not links`.
abbrev pub or_empty : Option (List Text) → List Text
or_empty none = []
or_empty (some links) = links

-- One round of the `for` loop over `idx`.
unfoldable pub connect :
    Bool → NodePath → Node → Node → Filter → Filter → NodePath × Result (Unit {0})
connect always_same_link self node1 node2 n1_list n2_list =
    let links = or_empty (get_active_connecting_links node1 node2 n1_list n2_list) in
    elim (choose_link always_same_link self.links links) [
      | raise e ↦ (self, raise e)
      | ok link ↦ (
        record self {
          links = self.links ++ link ∷ [];
          path =
              self.path
              ++ (get_interface_by_link_name node1 link, node1)
                ∷ (get_interface_by_link_name node2 link, node2)
                ∷ [];
        },
        ok tt,
      )
    ]

-- An exception ends the loop, and leaves the state as it is.
abbrev pub after :
    Result (Unit {0})
    → NodePath
    → (NodePath → NodePath × Result (Unit {0}))
    → NodePath × Result (Unit {0})
after (ok _) next f = f next
after (raise e) next f = (next, raise e)

-- The `for` loop: consecutive nodes with their filters.
unfoldable pub connect_all :
    Bool → NodePath → List Node → List Filter → NodePath × Result (Unit {0})
connect_all always_same_link self (node1 ∷ node2 ∷ nodes) (n1_list ∷ n2_list ∷ filters) =
    let (next, result) = connect always_same_link self node1 node2 n1_list n2_list in
    after result next (λ s. connect_all always_same_link s (node2 ∷ nodes) (n2_list ∷ filters))
connect_all always_same_link self (node1 ∷ node2 ∷ nodes) _ = (self, raise index_error)
connect_all always_same_link self _ _ = (self, ok tt)

abbrev pub iterated : NodePath → NodePath
iterated s = record s { path_iter = reverse (s.path_iter ++ s.path) }

unfoldable pub compute_path : NodePath → Bool → NodePath × Result (Unit {0})
compute_path self always_same_link =
    let (done, result) = connect_all always_same_link self self.nodes self.nodes_filter in
    if ltb (length self.nodes) 2
    then (self, raise runtime_error)
    else after result done (λ s. (iterated s, ok tt))

-- `items.pop()`: the other items and the last.
unfoldable pub pop {ℓ} : {A : Type ℓ} → List A → Option (List A × A)
pop [] = none
pop (x ∷ []) = some ([], x)
pop (x ∷ y ∷ ys) = elim (pop (y ∷ ys)) [ none ↦ none | some (rest, z) ↦ some (x ∷ rest, z) ]

-- `(None, None)` is `none`.
unfoldable pub next_interface : NodePath → NodePath × Option Hop
next_interface self = elim (pop self.path_iter) [
  | none ↦ (self, none)
  | some (rest, hop) ↦ (record self { path_iter = rest }, some hop)
]

abbrev pub with_path {ℓ} : {A : Type ℓ} → List Hop → Result A → Result A
with_path [] result = raise runtime_error
with_path (hop ∷ path) result = result

unfoldable pub first_interface : NodePath → Result Hop
first_interface self = with_path self.path (or_raise index_error (get_elem? self.path 0))

unfoldable pub last_interface : NodePath → Result Hop
last_interface self = with_path self.path (or_raise index_error (last? self.path))

unfoldable pub first_ingress_interface : NodePath → Result Hop
first_ingress_interface self = with_path self.path (or_raise index_error (get_elem? self.path 1))

-- `items[-2]`
abbrev pub last_but_one? {ℓ} : {A : Type ℓ} → List A → Option A
last_but_one? [] = none
last_but_one? (x ∷ []) = none
last_but_one? (x ∷ y ∷ []) = some x
last_but_one? (x ∷ y ∷ z ∷ zs) = last_but_one? (y ∷ z ∷ zs)

unfoldable pub last_egress_interface : NodePath → Result Hop
last_egress_interface self = with_path self.path (or_raise index_error (last_but_one? self.path))
