-- ===== src/NodePath/Tests.antt =====
-- A path TG -> DUT -> TG over two links, and the theorems at it.
use csit.Base.{true, false, Option, none, some, List, [], ◌∷◌, ◌++◌, map, ◌≡◌, refl, suc, length}
use csit.Base.Text.{Text, codes, text_eq, starts_with}
use csit.Base.Result.{Result, ok, raise, runtime_error, key_error}
use csit.Base.Dict.{Dict, lookup, insert, keys}
use csit.Base.Int.{show_int}
use csit.Topology.{Node, Interface, no_keys}
use csit.Topology.Query.{get_active_connecting_links, get_interface_by_link_name}
use csit.NodePath.{
  Hop, NodePath, init, append_nodes, choose_link, connect, connect_all, compute_path,
  next_interface, pop, append_node, clear_path,
}
use csit.NodePath.Walk.{Walk, compute_path-Walked}
use csit.NodePath.Fresh.{NoRepeat, compute_path-NoRepeat}
use csit.NodePath.Circular.{
  Value, names, word, compute_circular_topology, name_loop, record_hop, prefixes_of, append_rounds,
  append_duts, append_tg,
}
use csit.NodePath.Named.{Returns, compute_circular_topology-Returns}
use csit.Topology.Neighbours.{get_interface_ip4_prefix_length}
use csit.NodePath.Iterate.{visits, visits-compute_path}
use csit.NodePath.Ends.{HasEnds, compute_path-HasEnds}

abbrev linked : Text → Interface
linked link = record no_keys { link = some link }

abbrev host : Text → Text → Node
host name kind = record {
  host = name;
  kind = kind;
  arch = none;
  cpuinfo = none;
  cryptodev = none;
  uio_driver = none;
  sockets = none;
  interfaces =
      (codes "mgmt", no_keys)
      ∷ (codes "port1", linked (codes "l1"))
      ∷ (codes "port2", linked (codes "l2"))
      ∷ [];
}

abbrev tg : Node
tg = host (codes "a") (codes "TG")

abbrev dut : Node
dut = host (codes "b") (codes "DUT")

abbrev ready : NodePath
ready = record init { nodes = tg ∷ dut ∷ tg ∷ []; nodes_filter = none ∷ none ∷ none ∷ [] }

appended : append_nodes init (tg ∷ dut ∷ tg ∷ []) none ≡ ready
unfolding append_nodes
appended = refl

program : Unit {0}
unfolding compute_path connect_all connect choose_link get_active_connecting_links
    get_interface_by_link_name text_eq
program = tt

ready_returns : (compute_path ready false).1 ≡ ok tt
unfolding program
ready_returns = refl

ready_links : (compute_path ready false).0.links ≡ codes "l1" ∷ codes "l2" ∷ []
unfolding program
ready_links = refl

-- A third hop has no free link.
no_free_link :
    (compute_path
      (record init {
        nodes = tg ∷ dut ∷ tg ∷ dut ∷ [];
        nodes_filter = none ∷ none ∷ none ∷ none ∷ [];
      })
      false).1
    ≡ raise runtime_error
unfolding program
no_free_link = refl

compute_path-Walked_example :
    (hops : List Hop) × (links : List Text) × ((compute_path ready false).0.path ≡ [] ++ hops)
    × ((compute_path ready false).0.links ≡ [] ++ links)
    × Walk (tg ∷ dut ∷ tg ∷ []) hops links
compute_path-Walked_example = compute_path-Walked false ready tg (dut ∷ tg ∷ []) refl ready_returns

compute_path-NoRepeat_example : NoRepeat (compute_path ready false).0.links
compute_path-NoRepeat_example = compute_path-NoRepeat ready tt

visits-compute_path_example :
    visits (suc (length (compute_path ready false).0.path)) (compute_path ready false).0
    ≡ map some (compute_path ready false).0.path ++ none ∷ []
visits-compute_path_example =
    visits-compute_path false ready tg (dut ∷ tg ∷ []) refl refl ready_returns

compute_path-HasEnds_example : HasEnds (compute_path ready false).0 tg dut (tg ∷ [])
compute_path-HasEnds_example =
    compute_path-HasEnds false ready tg dut (tg ∷ []) refl refl ready_returns

abbrev two_nodes : Dict Node
two_nodes = (codes "TG", tg) ∷ (codes "DUT1", dut) ∷ []

-- The keys of the dictionary.
written : Option (NodePath × Result (Dict Value)) → Result (List Text)
written none = raise runtime_error
written (some (self, raise e)) = raise e
written (some (self, ok t_dict)) = ok (keys t_dict)

-- A value of the dictionary.
value_at : Text → Option (NodePath × Result (Dict Value)) → Option Value
value_at key none = none
value_at key (some (self, raise e)) = none
value_at key (some (self, ok t_dict)) = lookup key t_dict

circular :
    (value_at (codes "DUT1_pf_keys") (compute_circular_topology init two_nodes none 2 false true)
      ≡ some (names (codes "port1" ∷ codes "port2" ∷ [])))
    × (value_at (codes "dut1_if2") (compute_circular_topology init two_nodes none 2 false true)
        ≡ some (word (codes "port2")))
    × (value_at (codes "tg_if2") (compute_circular_topology init two_nodes none 2 false true)
        ≡ some (word (codes "port2")))
    × (written (compute_circular_topology init ((codes "DUT1", dut) ∷ []) none 2 false true)
        ≡ raise key_error)
unfolding program compute_circular_topology name_loop record_hop prefixes_of append_rounds
    append_duts append_tg value_at written next_interface get_interface_ip4_prefix_length show_int
    lookup insert append_node clear_path starts_with pop
circular = (refl, refl, refl, refl)

-- Without a TG each interface counts as one of a new host, also those of the same host in a row.
abbrev dut_2 : Node
dut_2 = host (codes "c") (codes "DUT")

abbrev three_duts : Dict Node
three_duts = (codes "DUT1", dut) ∷ (codes "DUT2", dut_2) ∷ (codes "DUT3", tg) ∷ []

without_tg :
    (value_at (codes "DUT2_pf_keys") (compute_circular_topology init three_duts none 2 true false)
      ≡ some (names (codes "port1" ∷ [])))
    × (value_at (codes "DUT4_pf_keys") (compute_circular_topology init three_duts none 2 true false)
        ≡ some (names (codes "port1" ∷ [])))
    × (written (compute_circular_topology init three_duts none 2 false false) ≡ raise runtime_error)
unfolding program compute_circular_topology name_loop record_hop prefixes_of append_rounds
    append_duts append_tg value_at written next_interface get_interface_ip4_prefix_length show_int
    lookup insert append_node clear_path starts_with pop
without_tg = (refl, refl, refl)

compute_circular_topology-Returns_example :
    Returns (compute_circular_topology init two_nodes none 2 false true)
compute_circular_topology-Returns_example =
    compute_circular_topology-Returns init two_nodes none 2 false true
