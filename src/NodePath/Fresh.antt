-- ===== src/NodePath/Fresh.antt =====
-- The used links of NodePath.py without `always_same_link`.
use csit.Base.{false, List, [], ◌∷◌, ◌++◌, ◌≡◌, refl, ◌∙◌, inl, inr, arith, Bool-cases, ltb, length}
use csit.Base.Text.{Text, text_eq_iff}
use csit.Base.Result.{Result, ok, raise}
use csit.Topology.{Node}
use csit.Topology.Query.{elem}
use csit.Topology.Links.{elem-append}
use csit.NodePath.{Filter, NodePath, after, connect, connect_all, compute_path}
use csit.NodePath.Walk.{choose_link-unused, Result-cases, choice, connect-raise}

abbrev pub NoRepeat : List Text → Type 0
NoRepeat [] = Unit
NoRepeat (l ∷ ls) = (elem l ls ≡ false) × NoRepeat ls

NoRepeat-snoc :
    (ls : List Text) (l : Text) → NoRepeat ls → elem l ls ≡ false → NoRepeat (ls ++ l ∷ [])
unfolding elem
NoRepeat-snoc [] l h e = (refl, tt)
NoRepeat-snoc (x ∷ ls) l h e = (
  elem-append x ls (l ∷ []) ∙ ground (arith, text_eq_iff x l, text_eq_iff l x),
  NoRepeat-snoc ls l h.1 (ground arith),
)

module _ (self : NodePath) (node1 node2 : Node) (f1 f2 : Filter) where
  links-connect :
      (l : Text)
      → choice false self node1 node2 f1 f2 ≡ ok l
      → (connect false self node1 node2 f1 f2).0.links ≡ self.links ++ l ∷ []
  unfolding connect
  links-connect l h = rw (h, connect)

  NoRepeat-connect : NoRepeat self.links → NoRepeat (connect false self node1 node2 f1 f2).0.links
  NoRepeat-connect n = elim (Result-cases (choice false self node1 node2 f1 f2)) [
    | inl (l, h) ↦
        rw (links-connect l h) (NoRepeat-snoc self.links l n (choose_link-unused self.links _ l h))
    | inr (x, h) ↦ rw (connect-raise false self node1 node2 f1 f2 x h) n
  ]

NoRepeat-after :
    (r : Result (Unit {0})) (next : NodePath) (f : NodePath → NodePath × Result (Unit {0}))
    → NoRepeat next.links
    → NoRepeat (f next).0.links
    → NoRepeat (after r next f).0.links
NoRepeat-after (ok _) next f a b = b
NoRepeat-after (raise e) next f a b = a

NoRepeat-connect_all :
    (self : NodePath) (nodes : List Node) (filters : List Filter)
    → NoRepeat self.links
    → NoRepeat (connect_all false self nodes filters).0.links
unfolding connect_all
NoRepeat-connect_all self [] filters n = n
NoRepeat-connect_all self (node ∷ []) filters n = n
NoRepeat-connect_all self (node ∷ node2 ∷ nodes) [] n = n
NoRepeat-connect_all self (node ∷ node2 ∷ nodes) (f1 ∷ []) n = n
NoRepeat-connect_all self (node ∷ node2 ∷ nodes) (f1 ∷ f2 ∷ filters) n =
    let once = NoRepeat-connect self node node2 f1 f2 n in
    NoRepeat-after (connect false self node node2 f1 f2).1 (connect false self node node2 f1 f2).0 _
      once
      (NoRepeat-connect_all (connect false self node node2 f1 f2).0 (node2 ∷ nodes) (f2 ∷ filters)
        once)

-- In the mode without `always_same_link` the used links stay free of repetition, whether the call
-- returns or raises.
pub compute_path-NoRepeat :
    (self : NodePath) → NoRepeat self.links → NoRepeat (compute_path self false).0.links
unfolding compute_path
compute_path-NoRepeat self n = elim (Bool-cases (ltb (length self.nodes) 2)) [
  | inl short ↦ rw short n
  | inr long ↦
      let looped = NoRepeat-connect_all self self.nodes self.nodes_filter n in
      rw long (
        NoRepeat-after (connect_all false self self.nodes self.nodes_filter).1
          (connect_all false self self.nodes self.nodes_filter).0 _ looped looped)
]
