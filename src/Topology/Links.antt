-- ===== src/Topology/Links.antt =====
-- Links of nodes: what the lists of links hold.
use csit.Base.{
  Bool, true, false, ◌||◌, Option, none, some, List, [], ◌∷◌, ◌++◌, ◌≡◌, refl, sym, ap, ◌∙◌, arith,
}
use csit.Base.Dict.{Dict}
use csit.Base.Text.{Text, text_eq, text_eq_iff}
use csit.Topology.{Interface, Node}
use csit.Topology.Query.{
  elem, holds, find_interface, get_interface_by_link_name, matching, links_of, active_links,
  none_if_empty, connecting, shared, get_active_connecting_links,
}

-- An interface is found.
abbrev pub found {ℓ} : {A : Type ℓ} → Option A → Bool
found none = false
found (some a) = true

pub elem-append : (s : Text) (xs ys : List Text) → elem s (xs ++ ys) ≡ (elem s xs || elem s ys)
unfolding elem
elem-append s [] ys = refl
elem-append s (x ∷ xs) ys = ground (arith, elem-append s xs ys)

pub elem-shared :
    (s : Text) (xs ys : List Text)
    → elem s (shared xs ys) ≡ true
    → (elem s xs ≡ true) × (elem s ys ≡ true)
unfolding elem shared
elem-shared s [] ys h = cc
elem-shared s (x ∷ xs) ys h = ground (arith, text_eq_iff s x, elem-shared s xs ys)

elem-matching :
    (s link model : Text) (filters : List Text)
    → elem s (matching link model filters) ≡ true
    → s ≡ link
unfolding elem matching
elem-matching s link model [] h = cc
elem-matching s link model (f ∷ filters) h =
    ground (arith, text_eq_iff s link, elem-matching s link model filters)

elem-links_of :
    (s : Text) (filter_list : Option (List Text)) (link model : Option Text)
    → elem s (links_of filter_list link model) ≡ true
    → holds text_eq s link ≡ true
unfolding elem links_of
elem-links_of s filter_list none model h = cc
elem-links_of s none (some link) model h = ground (arith, text_eq_iff s link, text_eq_iff link s)
elem-links_of s (some filters) (some link) none h = cc
elem-links_of s (some filters) (some link) (some model) h =
    (text_eq_iff link s).1 (sym (elem-matching s link model filters h))

found-find_interface :
    (s : Text) (filter_list : Option (List Text)) (d : Dict Interface)
    → elem s (active_links filter_list d) ≡ true
    → found (find_interface (λ i. holds text_eq s i.link) d) ≡ true
unfolding active_links find_interface
found-find_interface s filter_list [] h = unfold elem in cc
found-find_interface s filter_list ((k, i) ∷ d) h =
    let whole =
      sym (elem-append s (links_of filter_list i.link i.model) (active_links filter_list d)) ∙ h in
    ground (
      arith,
      whole,
      elem-links_of s filter_list i.link i.model,
      found-find_interface s filter_list d,
    )

none_if_empty-some : (l names : List Text) → none_if_empty l ≡ some names → l ≡ names
none_if_empty-some [] names e = cc
none_if_empty-some (x ∷ l) names e = cc

node-found :
    (s : Text) (node : Node) (filter_list : Option (List Text)) (names : List Text)
    → none_if_empty (active_links filter_list node.interfaces) ≡ some names
    → elem s names ≡ true
    → found (get_interface_by_link_name node s) ≡ true
unfolding get_interface_by_link_name
node-found s node filter_list names e h =
    found-find_interface s filter_list node.interfaces
      (ap (elem s) (none_if_empty-some (active_links filter_list node.interfaces) names e) ∙ h)

connecting-some :
    (o p : Option (List Text)) (links : List Text) (s : Text)
    → connecting o p ≡ some links
    → elem s links ≡ true
    → (xs : List Text) × (ys : List Text) × (o ≡ some xs)
      × (p ≡ some ys)
      × (elem s xs ≡ true)
      × (elem s ys ≡ true)
unfolding connecting
connecting-some none p links s e h = cc
connecting-some (some xs) none links s e h = cc
connecting-some (some xs) (some ys) links s e h =
    let same_links : shared xs ys ≡ links = cc in
    let in_both = elem-shared s xs ys (ap (elem s) same_links ∙ h) in
    (xs, ys, refl, refl, in_both.0, in_both.1)

-- Whatever the filters, a link that `get_active_connecting_links` reports is the link of an interface
-- on each of the two nodes, so that both lookups by the link's name find a key.
pub connecting_link-found :
    (node1 node2 : Node) (filter1 filter2 : Option (List Text)) (links : List Text) (link : Text)
    → get_active_connecting_links node1 node2 filter1 filter2 ≡ some links
    → elem link links ≡ true
    → (found (get_interface_by_link_name node1 link) ≡ true)
      × (found (get_interface_by_link_name node2 link) ≡ true)
unfolding get_active_connecting_links
connecting_link-found node1 node2 filter1 filter2 links link e h =
    let (xs, ys, e1, e2, in1, in2) =
      connecting-some (none_if_empty (active_links filter1 node1.interfaces))
        (none_if_empty (active_links filter2 node2.interfaces)) links link e h in
    (node-found link node1 filter1 xs e1 in1, node-found link node2 filter2 ys e2 in2)
