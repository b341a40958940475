-- ===== src/NodePath/Ends.antt =====
-- The four accessors at the ends of a walk.
use csit.Base.{Bool, ◌++◌, some, List, [], ◌∷◌, ◌≡◌, refl, ap, ◌∙◌, last?, get_elem?}
use csit.Base.Text.{Text}
use csit.Base.Result.{ok, index_error, or_raise}
use csit.Topology.{Node}
use csit.NodePath.{
  Hop, NodePath, with_path, last_but_one?, first_interface, last_interface, first_ingress_interface,
  last_egress_interface, compute_path,
}
use csit.NodePath.Walk.{Walk, stop, step, compute_path-Walked}

module _ {ℓ} {A : Type ℓ} where
  last-some : (x : A) (xs : List A) → (y : A) × (last? (x ∷ xs) ≡ some y)
  last-some x [] = (x, refl)
  last-some x (y ∷ xs) = last-some y xs

  last_but_one-some : (x y : A) (xs : List A) → (z : A) × (last_but_one? (x ∷ y ∷ xs) ≡ some z)
  last_but_one-some x y [] = (x, refl)
  last_but_one-some x y (z ∷ xs) = last_but_one-some y z xs

-- The last hop of a walk stands at its last node, and the hop before it at the node before.
last-Walk :
    {nodes : List Node} {hops : List Hop} {links : List Text} (hop before : Hop)
    → Walk nodes hops links
    → last? hops ≡ some hop
    → last_but_one? hops ≡ some before
    → (last? nodes ≡ some hop.1) × (last_but_one? nodes ≡ some before.1)
last-Walk hop before (stop node) e b = cc
last-Walk hop before (step link if1 if2 e1 e2 (stop node)) e b = (cc, cc)
last-Walk hop before (step link if1 if2 e1 e2 (step link' if3 if4 e3 e4 w)) e b =
    last-Walk hop before (step link' if3 if4 e3 e4 w) e b

-- Every accessor returns: the first interface is on the first node, the first ingress interface on the
-- second, the last interface on the last node and the last egress interface on the node before it.
pub record HasEnds (self : NodePath) (node1 node2 : Node) (nodes : List Node) : Type 0 where
  pub first : Text
  pub ingress : Text
  pub egress : Hop
  pub final : Hop
  pub first_returns : first_interface self ≡ ok (some first, node1)
  pub ingress_returns : first_ingress_interface self ≡ ok (some ingress, node2)
  pub egress_returns : last_egress_interface self ≡ ok egress
  pub final_returns : last_interface self ≡ ok final
  pub egress_node : last_but_one? (node1 ∷ node2 ∷ nodes) ≡ some egress.1
  pub final_node : last? (node1 ∷ node2 ∷ nodes) ≡ some final.1

HasEnds-Walk :
    (self : NodePath) {node1 node2 : Node} {nodes : List Node} {hops : List Hop} {links : List Text}
    → self.path ≡ hops
    → Walk (node1 ∷ node2 ∷ nodes) hops links
    → HasEnds self node1 node2 nodes
unfolding first_interface first_ingress_interface last_egress_interface last_interface
HasEnds-Walk self {node1} {node2} e (step {hops = rest} link if1 if2 e1 e2 w) =
    let hop1 : Hop = (some if1, node1) in
    let hop2 : Hop = (some if2, node2) in
    let (final, is_last) = last-some hop1 (hop2 ∷ rest) in
    let (egress, is_before) = last_but_one-some hop1 hop2 rest in
    let (at_last, at_before) =
      last-Walk final egress (step link if1 if2 e1 e2 w) is_last is_before in
    record {
      first = if1;
      ingress = if2;
      egress = egress;
      final = final;
      first_returns = ap (λ p. with_path p (or_raise index_error (get_elem? p 0))) e;
      ingress_returns = ap (λ p. with_path p (or_raise index_error (get_elem? p 1))) e;
      egress_returns =
          ap (λ p. with_path p (or_raise index_error (last_but_one? p))) e
          ∙ ap (or_raise index_error) is_before;
      final_returns =
          ap (λ p. with_path p (or_raise index_error (last? p))) e
          ∙ ap (or_raise index_error) is_last;
      egress_node = at_before;
      final_node = at_last;
    }

-- After a returning call of `compute_path` on a builder with no path yet and at least two nodes, every
-- accessor returns: the first interface is on the first node, the first ingress interface on the
-- second, the last interface on the last node and the last egress interface on the node before it.
pub compute_path-HasEnds :
    (always : Bool) (self : NodePath) (node1 node2 : Node) (nodes : List Node)
    → self.nodes ≡ node1 ∷ node2 ∷ nodes
    → self.path ≡ []
    → (compute_path self always).1 ≡ ok tt
    → HasEnds (compute_path self always).0 node1 node2 nodes
compute_path-HasEnds always self node1 node2 nodes starts fresh e =
    let (hops, links, path, _, walk) =
      compute_path-Walked always self node1 (node2 ∷ nodes) starts e in
    HasEnds-Walk (compute_path self always).0 (path ∙ ap (λ p. p ++ hops) fresh) walk
