-- ===== src/NodePath/Walk.antt =====
-- What `compute_path` adds to the path: a walk over the nodes, link by link.
use csit.Base.{
  Bool, true, false, Option, none, some, List, [], ◌∷◌, ◌++◌, ◌≡◌, refl, sym, ap, ◌∙◌, ◌≤◌, inl,
  inr, arith, ◌⊎◌, length, Option-cases,
}
use mathlib.Core.List.{append_assoc, append-nil, reverse}
use csit.Base.Text.{Text, text_eq_iff}
use csit.Base.Result.{Exception, Result, ok, raise, runtime_error}
use csit.Topology.{Node}
use csit.Topology.Query.{elem, get_active_connecting_links, get_interface_by_link_name}
use csit.Topology.Links.{found, connecting_link-found}
use csit.NodePath.{
  Hop, Filter, NodePath, select, first_or, choose_link, or_empty, connect, connect_all,
  compute_path,
}

-- The hops of consecutive nodes, each pair over one link that ends on an interface of either node.
pub data Walk : List Node → List Hop → List Text → Type 0 where
  stop : (node : Node) → Walk (node ∷ []) [] []
  step :
      {node1 node2 : Node} {nodes : List Node} {hops : List Hop} {links : List Text}
      (link if1 if2 : Text)
      → get_interface_by_link_name node1 link ≡ some if1
      → get_interface_by_link_name node2 link ≡ some if2
      → Walk (node2 ∷ nodes) hops links
      → Walk (node1 ∷ node2 ∷ nodes) ((some if1, node1) ∷ (some if2, node2) ∷ hops) (link ∷ links)

pub elem-head : (l : Text) (ls : List Text) → elem l (l ∷ ls) ≡ true
unfolding elem
elem-head l ls = ground (arith, text_eq_iff l l)

-- What is selected is a link, and is in the used ones just as wanted.
pub elem-select :
    (l : Text) (wanted : Bool) (used links : List Text)
    → elem l (select wanted used links) ≡ true
    → (elem l links ≡ true) × (elem l used ≡ wanted)
unfolding elem select
elem-select l wanted used [] h = cc
elem-select l wanted used (x ∷ links) h =
    ground (arith, text_eq_iff l x, elem-select l wanted used links)

elem-first_or :
    (otherwise : Result Text) (ls : List Text) (l : Text)
    → first_or otherwise ls ≡ ok l
    → (otherwise ≡ ok l) ⊎ (elem l ls ≡ true)
elem-first_or otherwise [] l e = inl e
elem-first_or otherwise (x ∷ ls) l e =
    let same : x ≡ l = cc in inr (ap (λ t. elem t (x ∷ ls)) (sym same) ∙ elem-head x ls)

choose_link-elem :
    (always : Bool) (used links : List Text) (l : Text)
    → choose_link always used links ≡ ok l
    → elem l links ≡ true
unfolding choose_link
choose_link-elem always used [] l e = cc
choose_link-elem true used (x ∷ links) l e =
    elim (elem-first_or (ok x) (select true used (x ∷ links)) l e) [
      | inl first ↦
          let same : x ≡ l = cc in ap (λ t. elem t (x ∷ links)) (sym same) ∙ elem-head x links
      | inr later ↦ (elem-select l true used (x ∷ links) later).0
    ]
choose_link-elem false used (x ∷ links) l e =
    elim (elem-first_or (raise runtime_error) (select false used (x ∷ links)) l e) [
      | inl never ↦ cc
      | inr later ↦ (elem-select l false used (x ∷ links) later).0
    ]

pub choose_link-unused :
    (used links : List Text) (l : Text) → choose_link false used links ≡ ok l → elem l used ≡ false
unfolding choose_link
choose_link-unused used [] l e = cc
choose_link-unused used (x ∷ links) l e =
    elim (elem-first_or (raise runtime_error) (select false used (x ∷ links)) l e) [
      | inl never ↦ cc
      | inr later ↦ (elem-select l false used (x ∷ links) later).1
    ]

found-some : (o : Option Text) → found o ≡ true → (i : Text) × (o ≡ some i)
found-some none h = cc
found-some (some i) h = (i, refl)

not_elem-nil : (l : Text) → elem l [] ≡ false
unfolding elem
not_elem-nil l = refl

-- Every link of a choice connects the two nodes.
connecting_ends :
    (node1 node2 : Node) (f1 f2 : Filter) (l : Text)
    → elem l (or_empty (get_active_connecting_links node1 node2 f1 f2)) ≡ true
    → (i : Text) × (j : Text) × (get_interface_by_link_name node1 l ≡ some i)
      × (get_interface_by_link_name node2 l ≡ some j)
connecting_ends node1 node2 f1 f2 l h =
    elim (Option-cases (get_active_connecting_links node1 node2 f1 f2)) [
      | inl e ↦ let none_there : elem l [] ≡ true = rw e at h in cc (not_elem-nil l)
      | inr (links, e) ↦
          let inside : elem l links ≡ true = rw e at h in
          let both = connecting_link-found node1 node2 f1 f2 links l e inside in
          let (i, e1) = found-some (get_interface_by_link_name node1 l) both.0 in
          let (j, e2) = found-some (get_interface_by_link_name node2 l) both.1 in (i, j, e1, e2)
    ]

-- The state after a round that picked a link between two interfaces.
abbrev extended : NodePath → Text → Hop → Hop → NodePath
extended self link hop1 hop2 = record self {
  links = self.links ++ link ∷ [];
  path = self.path ++ hop1 ∷ hop2 ∷ [];
}

pub Result-cases {ℓ} :
    {A : Type ℓ} (r : Result A) → ((a : A) × (r ≡ ok a)) ⊎ ((e : Exception) × (r ≡ raise e))
Result-cases (ok a) = inl (a, refl)
Result-cases (raise e) = inr (e, refl)

module _ (always : Bool) (self : NodePath) (node1 node2 : Node) (f1 f2 : Filter) where
  abbrev pub choice : Result Text
  choice = choose_link always self.links (or_empty (get_active_connecting_links node1 node2 f1 f2))

  pub connect-raise :
      (e : Exception) → choice ≡ raise e → connect always self node1 node2 f1 f2 ≡ (self, raise e)
  unfolding connect
  connect-raise e h = rw (h, connect)

  connect-ok :
      (l i j : Text)
      → choice ≡ ok l
      → get_interface_by_link_name node1 l ≡ some i
      → get_interface_by_link_name node2 l ≡ some j
      → connect always self node1 node2 f1 f2
        ≡ (extended self l (some i, node1) (some j, node2), ok tt)
  unfolding connect
  connect-ok l i j h e1 e2 = rw (h, e1, e2, connect)

-- `done` is `self` with a walk over `nodes` at the end of its path.
pub record Walked (always : Bool) (self done : NodePath) (nodes : List Node) : Type 0 where
  pub hops : List Hop
  pub links : List Text
  pub path_eq : done.path ≡ self.path ++ hops
  pub links_eq : done.links ≡ self.links ++ links
  pub iter_eq : done.path_iter ≡ self.path_iter
  pub walk : Walk nodes hops links

Walked-stop : (always : Bool) (self : NodePath) (node : Node) → Walked always self self (node ∷ [])
Walked-stop always self node = record {
  hops = [];
  links = [];
  path_eq = sym (append-nil self.path);
  links_eq = sym (append-nil self.links);
  iter_eq = refl;
  walk = stop node;
}

Walked-step :
    (always : Bool) (self done : NodePath) (node1 node2 : Node) (nodes : List Node) (l i j : Text)
    → get_interface_by_link_name node1 l ≡ some i
    → get_interface_by_link_name node2 l ≡ some j
    → Walked always (extended self l (some i, node1) (some j, node2)) done (node2 ∷ nodes)
    → Walked always self done (node1 ∷ node2 ∷ nodes)
Walked-step always self done node1 node2 nodes l i j e1 e2 w = record {
  hops = (some i, node1) ∷ (some j, node2) ∷ w.hops;
  links = l ∷ w.links;
  path_eq = w.path_eq ∙ append_assoc self.path _ _;
  links_eq = w.links_eq ∙ append_assoc self.links _ _;
  iter_eq = w.iter_eq;
  walk = step l i j e1 e2 w.walk;
}

module _ (always : Bool) (self : NodePath) (node1 node2 : Node) (nodes : List Node) (f1 f2 : Filter)
    (filters : List Filter) where
  connect_all-raise :
      (e : Exception)
      → choice always self node1 node2 f1 f2 ≡ raise e
      → connect_all always self (node1 ∷ node2 ∷ nodes) (f1 ∷ f2 ∷ filters) ≡ (self, raise e)
  unfolding connect_all
  connect_all-raise e h =
      let raised = connect-raise always self node1 node2 f1 f2 e h in rw (raised, connect_all)

  connect_all-ok :
      (next : NodePath)
      → connect always self node1 node2 f1 f2 ≡ (next, ok tt)
      → connect_all always self (node1 ∷ node2 ∷ nodes) (f1 ∷ f2 ∷ filters)
        ≡ connect_all always next (node2 ∷ nodes) (f2 ∷ filters)
  unfolding connect_all
  connect_all-ok next h = rw (h, connect_all)

connect_all-Walked :
    (always : Bool) (self : NodePath) (node : Node) (nodes : List Node) (filters : List Filter)
    → (connect_all always self (node ∷ nodes) filters).1 ≡ ok tt
    → Walked always self (connect_all always self (node ∷ nodes) filters).0 (node ∷ nodes)
unfolding connect_all
connect_all-Walked always self node [] filters e = Walked-stop always self node
connect_all-Walked always self node (node2 ∷ nodes) [] e = cc
connect_all-Walked always self node (node2 ∷ nodes) (f1 ∷ []) e = cc
connect_all-Walked always self node (node2 ∷ nodes) (f1 ∷ f2 ∷ filters) e =
    elim (Result-cases (choice always self node node2 f1 f2)) [
      | inl (l, h) ↦
          let (i, j, e1, e2) =
            connecting_ends node node2 f1 f2 l (choose_link-elem always self.links _ l h) in
          let next = extended self l (some i, node) (some j, node2) in
          let same =
            connect_all-ok always self node node2 nodes f1 f2 filters next
              (connect-ok always self node node2 f1 f2 l i j h e1 e2) in
          rw same (
            Walked-step always self _ node node2 nodes l i j e1 e2
              (connect_all-Walked always next node2 nodes (f2 ∷ filters) (rw same at e)))
      | inr (x, h) ↦
          let raised =
            ap (λ (r : NodePath × Result Unit). r.1)
              (connect_all-raise always self node node2 nodes f1 f2 filters x h) in
          cc raised
    ]

-- A run of `compute_path` that returns has walked all nodes.
module _ (always : Bool) (self : NodePath) (node : Node) (nodes : List Node)
    (starts : self.nodes ≡ node ∷ nodes) where
  abbrev loop : NodePath × Result (Unit {0})
  loop = connect_all always self self.nodes self.nodes_filter

  compute_path-ok :
      (compute_path self always).1 ≡ ok tt
      → (loop.1 ≡ ok tt)
        × ((compute_path self always).0
            ≡ record loop.0 { path_iter = reverse (loop.0.path_iter ++ loop.0.path) })
        × (2 ≤ length self.nodes)
  unfolding compute_path
  compute_path-ok e = ground arith

-- A returning call of `compute_path` on at least one node, with any filters and in either mode, adds to
-- the path the hops of a walk over all nodes in their order, where each pair of hops is joined by a
-- link on which both nodes have an interface, and adds that walk's links to the used ones.
pub compute_path-Walked :
    (always : Bool) (self : NodePath) (node : Node) (nodes : List Node)
    → self.nodes ≡ node ∷ nodes
    → (compute_path self always).1 ≡ ok tt
    → (hops : List Hop) × (links : List Text) × ((compute_path self always).0.path
        ≡ self.path ++ hops)
      × ((compute_path self always).0.links ≡ self.links ++ links)
      × Walk (node ∷ nodes) hops links
compute_path-Walked always self node nodes starts e =
    let (went, done, _) = compute_path-ok always self node nodes starts e in
    let same = ap (λ ns. connect_all always self ns self.nodes_filter) starts in
    let w =
      connect_all-Walked always self node nodes self.nodes_filter
        (ap (λ (r : NodePath × Result Unit). r.1) (sym same) ∙ went) in
    let path_same =
      ap (λ (s : NodePath). s.path) done ∙ ap (λ (r : NodePath × Result Unit). r.0.path) same in
    let links_same =
      ap (λ (s : NodePath). s.links) done ∙ ap (λ (r : NodePath × Result Unit). r.0.links) same in
    (w.hops, w.links, path_same ∙ w.path_eq, links_same ∙ w.links_eq, w.walk)

-- The iterator of a returning call: what was left of it and the whole path, last hop first.
pub path_iter-compute_path :
    (always : Bool) (self : NodePath) (node : Node) (nodes : List Node)
    → self.nodes ≡ node ∷ nodes
    → (compute_path self always).1 ≡ ok tt
    → (compute_path self always).0.path_iter
      ≡ reverse (self.path_iter ++ (compute_path self always).0.path)
path_iter-compute_path always self node nodes starts e =
    let (went, done, _) = compute_path-ok always self node nodes starts e in
    let same = ap (λ ns. connect_all always self ns self.nodes_filter) starts in
    let w =
      connect_all-Walked always self node nodes self.nodes_filter
        (ap (λ (r : NodePath × Result Unit). r.1) (sym same) ∙ went) in
    let kept = ap (λ (r : NodePath × Result Unit). r.0.path_iter) same ∙ w.iter_eq in
    ap (λ (s : NodePath). s.path_iter) done
    ∙ ap (λ l. reverse (l ++ (connect_all always self self.nodes self.nodes_filter).0.path)) kept
    ∙ ap (λ (s : NodePath). reverse (self.path_iter ++ s.path)) (sym done)
