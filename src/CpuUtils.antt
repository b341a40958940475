-- ===== src/CpuUtils.antt =====
-- resources/libraries/python/CpuUtils.py: which CPUs of a node serve a NUMA node, slices of them,
-- and the placement of network functions. A row of `cpuinfo` is a line of `lscpu -p` as integers.
-- Counts and indices are natural numbers; a float `nf_dtc` is `fraction`, since the code replaces it.
mod Slices
mod Trex
mod Placement
mod Sharing
mod Tests
use csit.Base.{
  ℕ, zero, suc, ◌+◌, ◌-◌, ◌*◌, ◌/◌, ◌%◌, Bool, true, false, not, ◌&&◌, ◌||◌, Option, none, some,
  List, [], ◌∷◌, ◌++◌, map, if◌then◌else◌, leb, ltb, ◌==◌, length, take, drop, slice, get_elem?,
  last?, any,
}
use csit.Base.Int.{ℤ, pos, int_eq, succ, show_int, read_int}
use csit.Base.Text.{Text, codes, non_empty, strip, join}
use csit.Base.Text.Words.{split}
use csit.Topology.{Node}
use csit.Topology.Query.{get_interfaces_numa_node}
use csit.Base.Result.{
  Result, ok, raise, runtime_error, index_error, key_error, type_error, zero_division_error, ◌>>=◌,
  ◌>>◌, raise_if, or_raise,
}

abbrev pub Row : Type 0
Row = List ℤ

abbrev pub nr_of_threads : ℕ
nr_of_threads = 2

pub str2int : Text → ℤ
str2int string = elim (read_int string) [ none ↦ pos 0 | some n ↦ n ]

row_eq : Row → Row → Bool
row_eq [] [] = true
row_eq (a ∷ r) (b ∷ s) = int_eq a b && row_eq r s
row_eq _ _ = false

-- `item[-4:]`
last_four : Row → Row
last_four item = drop (length item - 4) item

-- The `for` loop that counts.
count_shared : List Row → List Row → ℕ
unfolding row_eq
count_shared [] second = 0
count_shared (m ∷ first) second =
    (if any (row_eq m) second then 1 else 0) + count_shared first second

pub is_smt_enabled : List Row → Bool
unfolding last_four count_shared
is_smt_enabled cpu_info =
    let cpu_mems = map last_four cpu_info in
    let cpu_mems_len = length cpu_mems / nr_of_threads in
    count_shared (take cpu_mems_len cpu_mems) (drop cpu_mems_len cpu_mems) == cpu_mems_len

-- The lines of `lscpu -p` that are not comments, as integers.
parse_cpuinfo : List Text → List Row
unfolding str2int
parse_cpuinfo [] = []
parse_cpuinfo ([] ∷ lines) = parse_cpuinfo lines
parse_cpuinfo ((c ∷ line) ∷ lines) =
    let rest = parse_cpuinfo lines in
    if c == b'#' then rest else map str2int (split b',' (c ∷ line)) ∷ rest

-- Runs a command on a node over ssh: its standard output, or the error that is raised.
abbrev pub Exec : Type 0
Exec = Node → Text → Result Text

-- The nodes as they are left, also where a command fails. Assignments before a failure stay.
pub get_cpu_info : Exec → Node → Node × Result (Unit {0})
unfolding parse_cpuinfo
get_cpu_info exec node = elim (exec node (codes "uname -m")) [
  | raise e ↦ (node, raise e)
  | ok stdout ↦
      let with_arch = record node { arch = some (strip stdout) } in
      elim (exec with_arch (codes "lscpu -p")) [
        | raise e ↦ (with_arch, raise e)
        | ok lines ↦ (record with_arch { cpuinfo = some (parse_cpuinfo (split 10 lines)) }, ok tt)
      ]
]

pub get_cpu_info_from_all_nodes : Exec → List Node → List Node × Result (Unit {0})
unfolding get_cpu_info
get_cpu_info_from_all_nodes exec [] = ([], ok tt)
get_cpu_info_from_all_nodes exec (node ∷ nodes) =
    let (done, result) = get_cpu_info exec node in
    let (rest, result_2) = get_cpu_info_from_all_nodes exec nodes in
    elim result [ raise e ↦ (done ∷ nodes, raise e) | ok _ ↦ (done ∷ rest, result_2) ]

pub cpu_node_count : Node → Result ℤ
cpu_node_count node = do
  cpu_info ← or_raise runtime_error node.cpuinfo
  row ← or_raise index_error (last? cpu_info)
  numa ← or_raise index_error (get_elem? row 3)
  ok (succ numa)

-- The `for` loop that collects `cpu[0]` of the rows with `cpu[3] == cpu_node`.
cpus_of : ℤ → List Row → Result (List ℤ)
cpus_of cpu_node [] = ok []
cpus_of cpu_node (cpu ∷ cpu_info) = do
  numa ← or_raise index_error (get_elem? cpu 3)
  number ← or_raise index_error (get_elem? cpu 0)
  rest ← cpus_of cpu_node cpu_info
  ok (if int_eq numa cpu_node then number ∷ rest else rest)

pub cpu_list_per_node : Node → ℤ → Bool → Result (List ℤ)
unfolding cpus_of is_smt_enabled
cpu_list_per_node node cpu_node smt_used = do
  cpu_info ← or_raise runtime_error node.cpuinfo
  let smt_enabled = is_smt_enabled cpu_info
  raise_if (not smt_enabled && smt_used) runtime_error
  cpu_list ← cpus_of cpu_node cpu_info
  ok (
      if smt_enabled && not smt_used
      then take (length cpu_list / nr_of_threads) cpu_list
      else cpu_list)

-- The part of `cpu_slice_of_list_per_node` after the list is known.
pub slice_of : List ℤ → ℕ → ℕ → Bool → Result (List ℤ)
slice_of cpu_list skip_cnt cpu_cnt smt_used =
    let cpu_list_len = length cpu_list in
    let cnt = if cpu_cnt == 0 then cpu_list_len - skip_cnt else cpu_cnt in
    let half = cpu_list_len / nr_of_threads in
    if ltb cpu_list_len (cpu_cnt + skip_cnt)
    then raise runtime_error
    else ok (
        if smt_used
        then slice skip_cnt (skip_cnt + cnt) (take half cpu_list)
          ++ slice skip_cnt (skip_cnt + cnt) (drop half cpu_list)
        else slice skip_cnt (skip_cnt + cnt) cpu_list)

pub cpu_slice_of_list_per_node : Node → ℤ → ℕ → ℕ → Bool → Result (List ℤ)
unfolding slice_of
cpu_slice_of_list_per_node node cpu_node skip_cnt cpu_cnt smt_used = do
  cpu_list ← cpu_list_per_node node cpu_node smt_used
  slice_of cpu_list skip_cnt cpu_cnt smt_used

pub cpu_list_per_node_str : Node → ℤ → ℕ → ℕ → Text → Bool → Result Text
unfolding cpu_slice_of_list_per_node
cpu_list_per_node_str node cpu_node skip_cnt cpu_cnt sep smt_used = do
  cpu_list ← cpu_slice_of_list_per_node node cpu_node skip_cnt cpu_cnt smt_used
  ok (join sep (map show_int cpu_list))

-- `f"{cpu_list[0]}{sep}{cpu_list[-1]}"`
ends_str : Text → List ℤ → Result Text
ends_str sep cpu_list = do
  first ← or_raise index_error (get_elem? cpu_list 0)
  last ← or_raise index_error (last? cpu_list)
  ok (show_int first ++ (sep ++ show_int last))

ranges_str : Text → List ℤ → List ℤ → Result Text
unfolding ends_str
ranges_str sep cpu_list_0 cpu_list_1 = do
  range_0 ← ends_str sep cpu_list_0
  range_1 ← ends_str sep cpu_list_1
  ok (range_0 ++ (codes "," ++ range_1))

pub cpu_range_per_node_str : Node → ℤ → ℕ → ℕ → Text → Bool → Result Text
unfolding cpu_slice_of_list_per_node ranges_str
cpu_range_per_node_str node cpu_node skip_cnt cpu_cnt sep smt_used = do
  cpu_list ← cpu_slice_of_list_per_node node cpu_node skip_cnt cpu_cnt smt_used
  let half = length cpu_list / nr_of_threads
  if smt_used
      then ranges_str sep (take half cpu_list) (drop half cpu_list)
      else ends_str sep cpu_list

-- `nf_dtc`: an `int`, or a float, which the code replaces by 1 after its check.
pub data Cores : Type 0 where
  whole : ℕ → Cores
  fraction : Cores

abbrev pub is_whole : Cores → Bool
is_whole (whole n) = true
is_whole fraction = false

abbrev pub core_count : Cores → ℕ
core_count (whole n) = n
core_count fraction = 1

-- A chain and a node of it among all, both counted from 1, and the thread ratios.
pub record Request : Type 0 where
  pub nf_chains : ℕ
  pub nf_nodes : ℕ
  pub nf_chain : ℕ
  pub nf_node : ℕ
  pub nf_dtc : Cores
  pub nf_mtcr : ℕ
  pub nf_dtcr : ℕ
  pub skip_cnt : ℕ

-- `(nf_chains * nf_nodes + ratio - 1) // ratio`
abbrev pub cores_for : ℕ → ℕ → ℕ
cores_for nfs ratio = (nfs + ratio - 1) / ratio

abbrev pub odd : ℕ → Bool
odd n = n % 2 == 1

-- The part of `cpu_slice_of_list_for_nf` after the CPUs are known.
pub place_of : Bool → List ℤ → Request → Cores → Result (List ℤ)
place_of smt_used cpu_list r nf_dtc = do
  let sib = length cpu_list / nr_of_threads
  raise_if (not smt_used && not (is_whole nf_dtc)) runtime_error
  let dtc = core_count nf_dtc
  raise_if (r.nf_mtcr == 0) zero_division_error
  let mt_req = cores_for (r.nf_chains * r.nf_nodes) r.nf_mtcr
  raise_if (r.nf_dtcr == 0) zero_division_error
  let dt_req = cores_for (r.nf_chains * r.nf_nodes) r.nf_dtcr
  raise_if (ltb (if smt_used then sib else length cpu_list) (r.skip_cnt + mt_req + dt_req))
      runtime_error
  let offset = (r.nf_node - 1) + (r.nf_chain - 1) * r.nf_nodes
  let mt_skip = r.skip_cnt + offset % mt_req
  let dt_skip = r.skip_cnt + mt_req + (offset % dt_req) * dtc
  let data_cpus = slice dt_skip (dt_skip + dtc) cpu_list
  let siblings = slice (dt_skip + sib) (dt_skip + sib + dtc) cpu_list
  let main = if smt_used && odd (offset / mt_req) then mt_skip + sib else mt_skip
  ok (
      slice main (main + 1) cpu_list
      ++ (if smt_used
          then if is_whole nf_dtc
            then data_cpus ++ siblings
            else if odd (offset / dt_req)
            then siblings
            else data_cpus
          else data_cpus))

pub place : Bool → List ℤ → Request → Result (List ℤ)
unfolding place_of
place smt_used cpu_list r = place_of smt_used cpu_list r r.nf_dtc

pub cpu_slice_of_list_for_nf : Node → ℤ → Request → Result (List ℤ)
unfolding place
cpu_slice_of_list_for_nf node cpu_node r = do
  raise_if (not (leb 1 r.nf_chain && leb r.nf_chain r.nf_chains)) runtime_error
  raise_if (not (leb 1 r.nf_node && leb r.nf_node r.nf_nodes)) runtime_error
  cpu_info ← or_raise key_error node.cpuinfo
  let smt_used = is_smt_enabled cpu_info
  cpu_list ← cpu_list_per_node node cpu_node smt_used
  place smt_used cpu_list r

-- `get_affinity_trex` once the NUMA node of both interfaces is known: the main thread, the latency
-- thread, the NUMA node and the data plane threads.
pub trex_threads : Node → ℤ → ℕ → ℕ → ℕ → Result (ℤ × ℤ × ℤ × List ℤ)
trex_threads node cpu_node tg_mtc tg_dtc tg_ltc = do
  master_thread_id ← cpu_slice_of_list_per_node node cpu_node 0 tg_mtc false
  threads ← cpu_slice_of_list_per_node node cpu_node tg_mtc tg_dtc false
  latency_thread_id ← cpu_slice_of_list_per_node node cpu_node (tg_mtc + tg_dtc) tg_ltc false
  master ← or_raise index_error (get_elem? master_thread_id 0)
  latency ← or_raise index_error (get_elem? latency_thread_id 0)
  ok (master, latency, cpu_node, threads)

-- `int(None)` raises `TypeError`.
pub get_affinity_trex : Node → Text → Text → ℕ → ℕ → ℕ → Result (ℤ × ℤ × ℤ × List ℤ)
get_affinity_trex node if1_pci if2_pci tg_mtc tg_dtc tg_ltc = do
  cpu_node ← or_raise type_error (get_interfaces_numa_node node (if1_pci ∷ if2_pci ∷ []))
  trex_threads node cpu_node tg_mtc tg_dtc tg_ltc

abbrev pub cpu_cnt_system : ℕ
cpu_cnt_system = 1

abbrev pub cpu_cnt_main : ℕ
cpu_cnt_main = 1

-- cpu_slice_of_list_for_nf where the NUMA node is None: the tests of the chain and of the node come first,
-- then the CPU information, and `int(None)` of the list of CPUs raises `TypeError`.
abbrev pub nf_on_unknown : Node → Request → Result (List ℤ)
nf_on_unknown node r = do
  raise_if (not (leb 1 r.nf_chain && leb r.nf_chain r.nf_chains)) runtime_error
  raise_if (not (leb 1 r.nf_node && leb r.nf_node r.nf_nodes)) runtime_error
  cpu_info ← or_raise key_error node.cpuinfo
  raise type_error

-- `if1` and `if2` are the values of the test's variables for the node's interfaces; `vs_dtc` counts the
-- cores of the vswitch's data plane, and `skip_cnt` of the request is not used.
pub get_affinity_nf : Node → Text → Text → Request → ℕ → Result (List ℤ)
unfolding cpu_slice_of_list_for_nf
get_affinity_nf node if1 if2 r vs_dtc =
    let request = record r { skip_cnt = cpu_cnt_system + cpu_cnt_main + vs_dtc } in
    elim (get_interfaces_numa_node node (if1 ∷ if2 ∷ [])) [
      | none ↦ nf_on_unknown node request
      | some cpu_node ↦ cpu_slice_of_list_for_nf node cpu_node request
    ]
