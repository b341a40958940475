-- ===== src/NodePath/Iterate.antt =====
-- The iterator of NodePath.py, `next_interface`, on a computed path.
use csit.Base.{
  ℕ, zero, suc, Bool, Option, none, some, List, [], ◌∷◌, ◌++◌, map, ◌≡◌, refl, ap, ◌∙◌, length,
}
use mathlib.Core.List.{reverse, reverse-append}
use csit.Base.Result.{ok}
use csit.Topology.{Node}
use csit.NodePath.{Hop, NodePath, pop, next_interface, compute_path}
use csit.NodePath.Walk.{path_iter-compute_path}

-- The results of the next `n` calls of `next_interface`.
unfoldable pub visits : ℕ → NodePath → List (Option Hop)
visits zero self = []
visits (suc n) self =
    let (after, hop) = next_interface self in let rest = visits n after in hop ∷ rest

pop-snoc {ℓ} : {A : Type ℓ} (xs : List A) (x : A) → pop (xs ++ x ∷ []) ≡ some (xs, x)
unfolding pop
pop-snoc [] x = refl
pop-snoc (y ∷ []) x = refl
pop-snoc (y ∷ z ∷ zs) x = rw (pop-snoc (z ∷ zs) x)

next_interface-nil : (self : NodePath) → self.path_iter ≡ [] → next_interface self ≡ (self, none)
unfolding next_interface pop
next_interface-nil self e =
    let popped : pop self.path_iter ≡ none = ap (pop {A = Hop}) e in rw (popped, next_interface)

next_interface-snoc :
    (self : NodePath) (xs : List Hop) (x : Hop)
    → self.path_iter ≡ xs ++ x ∷ []
    → next_interface self ≡ (record self { path_iter = xs }, some x)
unfolding next_interface
next_interface-snoc self xs x e =
    let popped = ap (pop {A = Hop}) e ∙ pop-snoc xs x in rw (popped, next_interface)

visits-reverse :
    (path : List Hop) (self : NodePath)
    → self.path_iter ≡ reverse path
    → visits (suc (length path)) self ≡ map some path ++ none ∷ []
unfolding visits
visits-reverse [] self e = cc (next_interface-nil self e)
visits-reverse (hop ∷ path) self e =
    let next = next_interface-snoc self (reverse path) hop (e ∙ reverse-append (hop ∷ []) path) in
    let later = visits-reverse path (record self { path_iter = reverse path }) refl in
    cc (
      ap (λ (r : NodePath × Option Hop). r.1) next,
      ap (λ (r : NodePath × Option Hop). visits (suc (length path)) r.0) next,
      later,
    )

-- After a returning call of `compute_path` on a builder with at least one node whose iterator is used
-- up, as many calls of `next_interface` as the path has hops give the hops in order, and one more
-- gives the end.
pub visits-compute_path :
    (always : Bool) (self : NodePath) (node : Node) (nodes : List Node)
    → self.nodes ≡ node ∷ nodes
    → self.path_iter ≡ []
    → (compute_path self always).1 ≡ ok tt
    → visits (suc (length (compute_path self always).0.path)) (compute_path self always).0
      ≡ map some (compute_path self always).0.path ++ none ∷ []
visits-compute_path always self node nodes starts used_up e =
    let path = (compute_path self always).0.path in
    visits-reverse path (compute_path self always).0 (
      path_iter-compute_path always self node nodes starts e
      ∙ ap (λ l. reverse (l ++ path)) used_up)
