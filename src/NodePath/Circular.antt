-- ===== src/NodePath/Circular.antt =====
-- resources/libraries/python/NodePath.py: compute_circular_topology, which writes the names that the tests
-- use for the nodes and interfaces of a computed path.
use csit.Base.{
  ℕ, zero, suc, ◌+◌, ◌-◌, ◌/◌, ◌%◌, leb, Bool, true, false, not, ◌&&◌, ◌||◌, Option, none, some,
  List, [], ◌∷◌, ◌++◌, length, if◌then◌else◌,
}
use csit.Base.Int.{ℤ, pos, show_int}
use csit.Base.Dict.{Dict, lookup, insert, keys}
use csit.Base.Text.{Text, codes, text_eq, starts_with}
use csit.Base.Result.{Result, ok, raise, runtime_error, key_error, ◌>>=◌}
use csit.Topology.{Node}
use csit.Topology.Query.{
  get_interface_mac, get_interface_vlan, get_interface_pci_addr, get_interface_ip4,
}
use csit.Topology.Neighbours.{PrefixLength, get_interface_ip4_prefix_length}
use csit.NodePath.{
  NodePath, Hop, Filter, append_node, compute_path, next_interface, clear_path, after,
}

-- `t in s`
abbrev pub contains : Text → Text → Bool
contains [] t = starts_with [] t
contains (c ∷ s) t = starts_with (c ∷ s) t || contains s t

-- `s.lower()` of an ASCII text.
abbrev pub lower : Text → Text
lower [] = []
lower (c ∷ s) = (if leb 65 c && leb c 90 then c + 32 else c) ∷ lower s

-- A value of the dictionary that is returned.
pub data Value : Type 0 where
  names : List Text → Value
  count : ℕ → Value
  word : Text → Value
  a_node : Node → Value
  texts : List (Option Text) → Value
  vlans : List (Option ℤ) → Value
  lengths : List PrefixLength → Value
  one : Option Text → Value
  one_length : PrefixLength → Value

abbrev pub duts_of : List Text → List Text
duts_of [] = []
duts_of (key ∷ rest) =
    let later = duts_of rest in if contains key (codes "DUT") then key ∷ later else later

-- A call's builder and end, and the statements after it.
abbrev pub Step : Type 0
Step = NodePath × Result (Unit {0})

abbrev pub appended : NodePath → Option Node → Filter → Step
appended self none filter_list = (self, raise key_error)
appended self (some node) filter_list = (append_node self node filter_list, ok tt)

abbrev pub and_step : Step → (NodePath → Step) → Step
and_step (self, result) next = after result self next

unfoldable pub append_duts : NodePath → Dict Node → List Text → Filter → Step
append_duts self nodes [] filter_list = (self, ok tt)
append_duts self nodes (dut ∷ duts) filter_list =
    and_step (appended self (lookup dut nodes) filter_list)
      (λ next. append_duts next nodes duts filter_list)

unfoldable pub append_tg : NodePath → Dict Node → Bool → Step
append_tg self nodes false = (self, ok tt)
append_tg self nodes true = appended self (lookup (codes "TG") nodes) none

-- The `for` loop over half of the physical functions.
unfoldable pub append_rounds : ℕ → NodePath → Dict Node → List Text → Filter → Bool → Step
append_rounds zero self nodes duts filter_list topo_has_tg = (self, ok tt)
append_rounds (suc n) self nodes duts filter_list topo_has_tg =
    and_step (append_tg self nodes topo_has_tg) (λ with_tg.
      and_step (append_duts with_tg nodes duts filter_list)
        (λ with_duts. append_rounds n with_duts nodes duts filter_list topo_has_tg))

-- The indices of nodes and interfaces, and the last host.
pub record Indices : Type 0 where
  pub n_idx : ℕ
  pub t_idx : ℕ
  pub d_idx : ℕ
  pub prev_host : Option Text

pub record Prefixes : Type 0 where
  pub n_pfx : Text
  pub p_pfx : Text
  pub i_pfx : Text

abbrev pub numbered : Text → ℕ → Text
numbered s n = s ++ show_int (pos n)

abbrev pub prefixes : Text → ℕ → Prefixes
prefixes n_pfx i = record {
  n_pfx = n_pfx;
  p_pfx = numbered (codes "pf") i;
  i_pfx = numbered (codes "if") i;
}

-- `prev_host` is never set, so that it differs from every host.
abbrev pub differs : Option Text → Text → Bool
differs none this_host = true
differs (some host) this_host = not (text_eq host this_host)

unfoldable pub prefixes_of : Bool → Bool → Indices → Node → Result (Indices × Prefixes)
prefixes_of true always_same_link i node =
    if text_eq node.kind (codes "TG")
    then ok (record i { n_idx = 0; t_idx = i.t_idx + 1 }, prefixes (codes "TG") i.t_idx)
    else ok (
      record i { n_idx = i.n_idx + 1; d_idx = i.d_idx + 1 },
      prefixes (numbered (codes "DUT") (i.n_idx / 2 + 1)) (i.d_idx % 2 + i.t_idx - 1),
    )
prefixes_of false true i node =
    let moved = differs i.prev_host node.host in
    let n_idx = if moved then i.n_idx + 1 else i.n_idx in
    let d_idx = if moved then 1 else i.d_idx in
    ok
      (record i { n_idx = n_idx; d_idx = d_idx + 1 }, prefixes (numbered (codes "DUT") n_idx) d_idx)
prefixes_of false false i node = raise runtime_error

-- The lists that grow; no other kind of value has their keys.
abbrev pub texts_in : Option Value → List (Option Text)
texts_in (some (texts ts)) = ts
texts_in _ = []

abbrev pub names_in : Option Value → List Text
names_in (some (names ns)) = ns
names_in _ = []

-- Assignments one after another.
abbrev pub assign_all : Dict Value → List (Text × Value) → Dict Value
assign_all t_dict [] = t_dict
assign_all t_dict ((key, value) ∷ rest) = assign_all (insert key value t_dict) rest

unfoldable pub record_hop : Dict Value → Prefixes → Text → Node → Result (Dict Value)
record_hop t_dict p interface node = do
  let mac = get_interface_mac node interface
  let pci = get_interface_pci_addr node interface
  let ip4 = get_interface_ip4 node interface
  prefix ← get_interface_ip4_prefix_length node interface
  let np = p.n_pfx ++ codes "_" ++ p.p_pfx
  let ni = lower p.n_pfx ++ codes "_" ++ p.i_pfx
  let pf_pci = p.n_pfx ++ codes "_pf_pci"
  let pf_keys = p.n_pfx ++ codes "_pf_keys"
  let first = assign_all t_dict (
      (p.n_pfx, a_node node)
      ∷ (np, names (interface ∷ []))
      ∷ (np ++ codes "_mac", texts (mac ∷ []))
      ∷ (np ++ codes "_vlan", vlans (get_interface_vlan node interface ∷ []))
      ∷ (np ++ codes "_pci", texts (pci ∷ []))
      ∷ (np ++ codes "_ip4_addr", texts (ip4 ∷ []))
      ∷ (np ++ codes "_ip4_prefix", lengths (prefix ∷ []))
      ∷ [])
  let second = insert pf_pci (texts (texts_in (lookup pf_pci first) ++ pci ∷ [])) first
  let third = insert pf_keys (names (names_in (lookup pf_keys second) ++ interface ∷ [])) second
  ok (
      assign_all third (
        (ni, word interface)
        ∷ (ni ++ codes "_mac", one mac)
        ∷ (ni ++ codes "_pci", one pci)
        ∷ (ni ++ codes "_ip4_addr", one ip4)
        ∷ (ni ++ codes "_ip4_prefix", one_length prefix)
        ∷ []))

-- One round for an interface; `next` is the rest of the loop.
abbrev pub hop_recorded :
    Bool → Bool → Indices → Dict Value → Text → Node → Result (Indices × Dict Value)
hop_recorded topo_has_tg always_same_link i t_dict interface node = do
  (indices, p) ← prefixes_of topo_has_tg always_same_link i node
  written ← record_hop t_dict p interface node
  ok (indices, written)

abbrev pub go_on {ℓ κ} :
    {A : Type ℓ} {B : Type κ}
    → NodePath
    → Result A
    → (A → Option (NodePath × Result B))
    → Option (NodePath × Result B)
go_on self (raise e) next = some (self, raise e)
go_on self (ok a) next = next a

-- A hop of the path, or its end; `again` is the rest of the loop. It ends at a hop without
-- an interface, or with an empty key.
abbrev pub at_hop :
    Bool
    → Bool
    → Indices
    → Dict Value
    → (Indices → Dict Value → Option (NodePath × Result (Dict Value)))
    → NodePath
    → Option Hop
    → Option (NodePath × Result (Dict Value))
at_hop topo_has_tg always_same_link i t_dict again self none = some (self, ok t_dict)
at_hop topo_has_tg always_same_link i t_dict again self (some (none, node)) = some (self, ok t_dict)
at_hop topo_has_tg always_same_link i t_dict again self (some (some [], node)) =
    some (self, ok t_dict)
at_hop topo_has_tg always_same_link i t_dict again self (some (some (c ∷ interface), node)) =
    go_on self (hop_recorded topo_has_tg always_same_link i t_dict (c ∷ interface) node)
      (λ (indices, written). again indices written)

-- The `while` loop, for a number of rounds; `none` stands for more rounds.
unfoldable pub name_loop :
    ℕ → Bool → Bool → NodePath → Indices → Dict Value → Option (NodePath × Result (Dict Value))
name_loop zero topo_has_tg always_same_link self i t_dict = none
name_loop (suc rounds) topo_has_tg always_same_link self i t_dict =
    let (later, hop) = next_interface self in
    at_hop topo_has_tg always_same_link i t_dict
      (name_loop rounds topo_has_tg always_same_link later) later hop

-- Everything that is appended to the path before it is computed.
abbrev pub appended_all : NodePath → Dict Node → Filter → ℕ → Bool → Step
appended_all self nodes filter_list nic_pfs topo_has_tg =
    and_step (append_rounds (nic_pfs / 2) self nodes (duts_of (keys nodes)) filter_list topo_has_tg)
      (λ next. append_tg next nodes topo_has_tg)

abbrev pub start : List Text → Dict Value
start duts =
    (codes "duts", names duts)
    ∷ (codes "duts_count", count (length duts))
    ∷ (codes "int", word (codes "pf"))
    ∷ []

abbrev pub first_indices : Indices
first_indices = record { n_idx = 0; t_idx = 1; d_idx = 0; prev_host = none }

-- After the loop the path is cleared.
abbrev pub cleared :
    Option (NodePath × Result (Dict Value)) → Option (NodePath × Result (Dict Value))
cleared none = none
cleared (some (self, raise e)) = some (self, raise e)
cleared (some (self, ok t_dict)) = some (clear_path self, ok t_dict)

abbrev pub named_path : Bool → Bool → List Text → Step → Option (NodePath × Result (Dict Value))
named_path topo_has_tg always_same_link duts (self, raise e) = some (self, raise e)
named_path topo_has_tg always_same_link duts (self, ok _) = cleared (
    name_loop (suc (length self.path_iter)) topo_has_tg always_same_link self first_indices
      (start duts))

-- The loop has a round for each hop and one more.
unfoldable pub compute_circular_topology :
    NodePath → Dict Node → Filter → ℕ → Bool → Bool → Option (NodePath × Result (Dict Value))
compute_circular_topology self nodes filter_list nic_pfs always_same_link topo_has_tg =
    named_path topo_has_tg always_same_link (duts_of (keys nodes)) (
      and_step (appended_all self nodes filter_list nic_pfs topo_has_tg)
        (λ next. compute_path next always_same_link))
