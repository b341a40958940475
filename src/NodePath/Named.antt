-- ===== src/NodePath/Named.antt =====
-- compute_circular_topology of resources/libraries/python/NodePath.py: its loop, and what is left of the
-- path.
use csit.Base.{
  ℕ, zero, suc, ◌<◌, Bool, Option, none, some, List, [], ◌∷◌, ◌≡◌, refl, ap, inl, inr, arith,
  Option-cases, length, subst,
}
use csit.Base.Dict.{Dict, keys}
use csit.Base.Result.{Result, ok, raise}
use csit.Topology.{Node}
use csit.NodePath.{NodePath, Hop, Filter, init, pop, next_interface, compute_path, clear_path}
use csit.NodePath.Circular.{
  Value, Indices, Step, at_hop, go_on, hop_recorded, name_loop, cleared, named_path, start,
  first_indices, and_step, appended_all, duts_of, compute_circular_topology,
}

-- What a list of hops is longer than.
abbrev pub IsNext : ℕ → Option (List Hop × Hop) → Type 0
IsNext n none = Unit
IsNext n (some (rest, hop)) = n ≡ suc (length rest)

pop-IsNext : (hops : List Hop) → IsNext (length hops) (pop hops)
unfolding pop
pop-IsNext [] = tt
pop-IsNext (x ∷ []) = refl
pop-IsNext (x ∷ y ∷ ys) = pushed (pop (y ∷ ys)) (pop-IsNext (y ∷ ys))
  where
    pushed :
        (o : Option (List Hop × Hop))
        → IsNext (suc (length ys)) o
        → IsNext
            (suc (suc (length ys)))
            (elim o [ none ↦ none | some (rest, z) ↦ some (x ∷ rest, z) ])
    pushed none h = tt
    pushed (some (rest, z)) h = ap suc h

-- The call comes to an end: with an exception, or with an empty path.
abbrev pub Returns : Option (NodePath × Result (Dict Value)) → Type 0
Returns none = ⊥
Returns (some (self, raise e)) = Unit
Returns (some (self, ok t_dict)) = self ≡ init

-- The loop comes to an end.
abbrev pub Stops : Option (NodePath × Result (Dict Value)) → Type 0
Stops none = ⊥
Stops (some ended) = Unit

name_loop-Stops :
    (rounds : ℕ) (topo_has_tg always_same_link : Bool) (self : NodePath) (i : Indices)
    (t_dict : Dict Value)
    → length self.path_iter < rounds
    → Stops (name_loop rounds topo_has_tg always_same_link self i t_dict)
unfolding name_loop next_interface
name_loop-Stops zero topo_has_tg always_same_link self i t_dict h = elim h [ ]
name_loop-Stops (suc rounds) topo_has_tg always_same_link self i t_dict h =
    elim (Option-cases (pop self.path_iter)) [
      | inl e ↦ rw (e, next_interface) tt
      | inr ((rest, hop), e) ↦
          let shorter = subst (IsNext (length self.path_iter)) e (pop-IsNext self.path_iter) in
          rw (e, next_interface)
            (stops hop (record self { path_iter = rest })
              (λ i_2 t_dict_2.
                name_loop-Stops rounds topo_has_tg always_same_link
                  (record self { path_iter = rest }) i_2 t_dict_2 (omega (arith, shorter))))
    ]
  where
    stops :
        (hop : Hop) (later : NodePath)
        → ((i_2 : Indices) (t_dict_2 : Dict Value)
            → Stops (name_loop rounds topo_has_tg always_same_link later i_2 t_dict_2))
        → Stops (
            at_hop topo_has_tg always_same_link i t_dict
              (name_loop rounds topo_has_tg always_same_link later)
              later
              (some hop))
    stops (none, node) later k = tt
    stops (some [], node) later k = tt
    stops (some (c ∷ interface), node) later k =
        on_end (hop_recorded topo_has_tg always_same_link i t_dict (c ∷ interface) node)
      where
        on_end :
            (r : Result (Indices × Dict Value))
            → Stops (
                go_on later r (λ (indices, written).
                  name_loop rounds topo_has_tg always_same_link later indices written))
        on_end (raise e) = tt
        on_end (ok (indices, written)) = k indices written

cleared-Returns : (o : Option (NodePath × Result (Dict Value))) → Stops o → Returns (cleared o)
unfolding clear_path
cleared-Returns none h = h
cleared-Returns (some (self, raise e)) h = tt
cleared-Returns (some (self, ok t_dict)) h = refl

-- compute_circular_topology comes to an end, whatever the nodes and the options: it raises, or it returns
-- and leaves the builder empty.
pub compute_circular_topology-Returns :
    (self : NodePath) (nodes : Dict Node) (filter_list : Filter) (nic_pfs : ℕ)
    (always_same_link topo_has_tg : Bool)
    → Returns
        (compute_circular_topology self nodes filter_list nic_pfs always_same_link topo_has_tg)
unfolding compute_circular_topology
compute_circular_topology-Returns self nodes filter_list nic_pfs always_same_link topo_has_tg =
    returns (
      and_step (appended_all self nodes filter_list nic_pfs topo_has_tg)
        (λ next. compute_path next always_same_link))
  where
    returns :
        (step : Step)
        → Returns (named_path topo_has_tg always_same_link (duts_of (keys nodes)) step)
    returns (later, raise e) = tt
    returns (later, ok _) = cleared-Returns _ (
        name_loop-Stops (suc (length later.path_iter)) topo_has_tg always_same_link later
          first_indices (start (duts_of (keys nodes))) (omega arith))
