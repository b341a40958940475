-- ===== src/CpuUtils/Tests.antt =====
-- Small nodes with and without thread siblings, and the theorems at them.
use csit.Base.{
  ◌%◌, if◌then◌else◌, ℕ, zero, suc, ◌+◌, ◌*◌, ◌-◌, ◌/◌, ◌<◌, min, true, false, none, some, List, [],
  ◌∷◌, ◌++◌, ◌≡◌, ◌≢◌, refl, arith, inr, length, take, drop, get_elem?,
}
use csit.Base.Int.{ℤ, pos, show_int, read_int}
use csit.Base.Text.{Text, codes, join, text_eq, strip}
use csit.Base.Text.Words.{split}
use csit.Base.Result.{Result, ok, raise, runtime_error}
use csit.Topology.{Node, no_keys}
use csit.CpuUtils.{
  Row, Request, whole, fraction, parse_cpuinfo, cpu_list_per_node, cpu_slice_of_list_per_node,
  cpu_range_per_node_str, cpu_list_per_node_str, cpu_slice_of_list_for_nf, place, trex_threads,
  cpu_node_count, get_affinity_trex, get_affinity_nf, get_cpu_info_from_all_nodes, is_smt_enabled,
}
use csit.Topology.Query.{get_interfaces_numa_node}
use csit.Base.Dict.{lookup}
use csit.CpuUtils.Slices.{
  wanted, StandsAt, cpu_slice_exact, cpu_slice_smt_exact, cpu_slice_smt_short,
}
use csit.CpuUtils.Trex.{IsDistinct, Avoids, trex_threads-IsDistinct}
use csit.CpuUtils.Placement.{offset, mt_req, data_at}
use csit.CpuUtils.Sharing.{other_nf, place_separate, place_count}

-- CPU number, core, socket, NUMA node and the caches.
abbrev row : ℕ → ℕ → Row
row cpu core =
    pos cpu ∷ pos core ∷ pos 0 ∷ pos 0 ∷ pos 0 ∷ pos core ∷ pos core ∷ pos core ∷ pos 0 ∷ []

abbrev with_cpuinfo : List Row → Node
with_cpuinfo rows = record {
  host = codes "dut";
  kind = codes "DUT";
  arch = none;
  cpuinfo = some rows;
  cryptodev = none;
  uio_driver = none;
  sockets = none;
  interfaces = [];
}

abbrev plain : Node
plain = with_cpuinfo (row 0 0 ∷ row 1 1 ∷ row 2 2 ∷ row 3 3 ∷ row 4 4 ∷ row 5 5 ∷ [])

abbrev siblings : Node
siblings = with_cpuinfo (row 0 0 ∷ row 1 1 ∷ row 2 2 ∷ row 3 0 ∷ row 4 1 ∷ row 5 2 ∷ [])

abbrev six : List ℤ
six = pos 0 ∷ pos 1 ∷ pos 2 ∷ pos 3 ∷ pos 4 ∷ pos 5 ∷ []

parsed :
    parse_cpuinfo (split 10 (codes "# CPU,Core\n0,0,,7\n\n1,1,x,7"))
    ≡ (pos 0 ∷ pos 0 ∷ pos 0 ∷ pos 7 ∷ []) ∷ (pos 1 ∷ pos 1 ∷ pos 0 ∷ pos 7 ∷ []) ∷ []
unfolding parse_cpuinfo split read_int
parsed = refl

plain_list : cpu_list_per_node plain (pos 0) false ≡ ok six
unfolding cpu_list_per_node
plain_list = refl

sibling_list : cpu_list_per_node siblings (pos 0) true ≡ ok six
unfolding cpu_list_per_node
sibling_list = refl

ranges : cpu_range_per_node_str siblings (pos 0) 1 2 (codes "-") true ≡ ok (codes "1-2,4-5")
unfolding cpu_range_per_node_str cpu_list_per_node show_int
ranges = refl

listed_str : cpu_list_per_node_str plain (pos 0) 1 3 (codes ",") false ≡ ok (codes "1,2,3")
unfolding cpu_list_per_node_str cpu_list_per_node show_int join
listed_str = refl

one_node : cpu_node_count plain ≡ ok (pos 1)
unfolding cpu_node_count
one_node = refl

abbrev based : Node
based = record plain { interfaces = (codes "p1", record no_keys { numa_node = some (pos 0) }) ∷ [] }

trex_affinity :
    get_affinity_trex based (codes "p1") (codes "p1") 1 2 1
    ≡ ok (pos 0, pos 3, pos 0, pos 1 ∷ pos 2 ∷ [])
unfolding get_affinity_trex trex_threads cpu_slice_of_list_per_node cpu_list_per_node
    get_interfaces_numa_node lookup text_eq
trex_affinity = refl

-- One CPU for the system, one for the vswitch's main thread and one for its data plane are skipped.
nf_affinity :
    get_affinity_nf based
      (codes "p1")
      (codes "p1")
      (record {
        nf_chains = 1;
        nf_nodes = 1;
        nf_chain = 1;
        nf_node = 1;
        nf_dtc = whole 1;
        nf_mtcr = 1;
        nf_dtcr = 1;
        skip_cnt = 0;
      })
      1
    ≡ ok (pos 3 ∷ pos 4 ∷ [])
unfolding get_affinity_nf cpu_slice_of_list_for_nf place is_smt_enabled cpu_list_per_node
    get_interfaces_numa_node lookup text_eq
nf_affinity = refl

no_affinity :
    get_affinity_trex plain (codes "p1") (codes "p1") 1 2 1
    ≡ ok (pos 0, pos 3, pos 0, pos 1 ∷ pos 2 ∷ [])
unfolding get_affinity_trex trex_threads cpu_slice_of_list_per_node cpu_list_per_node
    get_interfaces_numa_node lookup text_eq
no_affinity = refl

-- The second node answers nothing, and the first keeps what was read.
answers : Node → Text → Result Text
answers node command =
    if text_eq node.host (codes "mute")
    then raise runtime_error
    else if text_eq command (codes "uname -m")
    then ok (codes "x86_64\n")
    else ok (codes "#CPU\n0,0")

half_known :
    get_cpu_info_from_all_nodes answers (plain ∷ record plain { host = codes "mute" } ∷ []) ≡ (
      record plain { arch = some (codes "x86_64"); cpuinfo = some ((pos 0 ∷ pos 0 ∷ []) ∷ []) }
          ∷ record plain { host = codes "mute" }
          ∷ [],
      raise runtime_error,
    )
unfolding get_cpu_info_from_all_nodes answers text_eq split read_int strip parse_cpuinfo
half_known = refl

cpu_slice_exact_example :
    (r : List ℤ) × (cpu_slice_of_list_per_node plain (pos 0) 1 3 false ≡ ok r)
    × (length r ≡ wanted six 1 3)
    × StandsAt 1 r six
cpu_slice_exact_example = cpu_slice_exact plain (pos 0) 1 3 six plain_list (omega arith)

cpu_slice_smt_exact_example :
    (r0 : List ℤ) × (r1 : List ℤ) × (cpu_slice_of_list_per_node siblings (pos 0) 1 2 true
      ≡ ok (r0 ++ r1))
    × (length r0 ≡ wanted six 1 2)
    × (length r1 ≡ wanted six 1 2)
    × StandsAt 1 r0 (take (length six / 2) six)
    × StandsAt 1 r1 (drop (length six / 2) six)
cpu_slice_smt_exact_example =
    cpu_slice_smt_exact siblings (pos 0) 1 2 six sibling_list (omega arith) (omega arith)

cpu_slice_smt_short_example :
    (r : List ℤ) × (cpu_slice_of_list_per_node siblings (pos 0) 1 4 true ≡ ok r)
    × (length r < 2 * 4)
cpu_slice_smt_short_example =
    cpu_slice_smt_short siblings (pos 0) 1 4 six 3 sibling_list refl (omega arith) (omega arith)
      (omega arith)

number : ℤ → ℕ
number (pos n) = n
number _ = 0

six_place : (i : ℕ) (c : ℤ) → get_elem? six i ≡ some c → i ≡ number c
unfolding number
six_place zero c e = cc
six_place (suc zero) c e = cc
six_place (suc (suc zero)) c e = cc
six_place (suc (suc (suc zero))) c e = cc
six_place (suc (suc (suc (suc zero)))) c e = cc
six_place (suc (suc (suc (suc (suc zero))))) c e = cc
six_place (suc (suc (suc (suc (suc (suc n)))))) c e = cc

six-IsDistinct : IsDistinct six
six-IsDistinct i j c e1 e2 = omega (arith, six_place i c e1, six_place j c e2)

trex_threads-IsDistinct_example :
    (m : ℤ) × (l : ℤ) × (threads : List ℤ) × (trex_threads plain (pos 0) 1 3 1
      ≡ ok (m, l, pos 0, threads))
    × (length threads ≡ 3)
    × (m ≢ l)
    × Avoids m threads
    × Avoids l threads
    × IsDistinct threads
trex_threads-IsDistinct_example =
    trex_threads-IsDistinct plain (pos 0) six 1 3 1 plain_list six-IsDistinct (omega arith)
      (omega arith) (omega arith) (omega arith)

-- One chain of two functions, which share a main core.
abbrev first_nf : Request
first_nf = record {
  nf_chains = 1;
  nf_nodes = 2;
  nf_chain = 1;
  nf_node = 1;
  nf_dtc = whole 1;
  nf_mtcr = 2;
  nf_dtcr = 1;
  skip_cnt = 2;
}

placed_nfs :
    (cpu_slice_of_list_for_nf plain (pos 0) first_nf ≡ ok (pos 2 ∷ pos 3 ∷ []))
    × (cpu_slice_of_list_for_nf plain (pos 0) (other_nf first_nf 1 2) ≡ ok (pos 2 ∷ pos 4 ∷ []))
    × (cpu_slice_of_list_for_nf plain (pos 0) (other_nf first_nf 1 3) ≡ raise runtime_error)
    × (cpu_slice_of_list_for_nf siblings
          (pos 0)
          (record first_nf { nf_nodes = 1; nf_dtc = fraction; skip_cnt = 1 })
        ≡ ok (pos 1 ∷ pos 2 ∷ []))
unfolding cpu_slice_of_list_for_nf cpu_list_per_node
placed_nfs = (refl, refl, refl, refl)

place_separate_example :
    (m1 : ℤ) × (d1 : ℤ) × (m2 : ℤ) × (d2 : ℤ) × (place false six first_nf ≡ ok (m1 ∷ d1 ∷ []))
    × (place false six (other_nf first_nf 1 2) ≡ ok (m2 ∷ d2 ∷ []))
    × (d1 ≢ d2)
    × (m1 ≢ d1)
    × (m1 ≢ d2)
    × (m2 ≢ d1)
    × (m2 ≢ d2)
place_separate_example =
    place_separate six first_nf 1 2 six-IsDistinct refl refl (omega arith) (omega arith)
      (inr (omega arith))

-- Two data plane cores for the second function: the list ends behind the first.
abbrev two_cores : Request
two_cores = record first_nf { nf_node = 2; nf_dtc = whole 2; skip_cnt = 0; nf_mtcr = 1 }

place_count_example :
    (main : ℤ) × (data_cpus : List ℤ) × (place false (take 5 six) two_cores ≡ ok (main ∷ data_cpus))
    × (get_elem? (take 5 six) (two_cores.skip_cnt + offset two_cores % mt_req two_cores)
        ≡ some main)
    × (length data_cpus ≡ min 2 (length (take 5 six) - data_at two_cores 2))
    × ((i : ℕ) → i < 2 → get_elem? data_cpus i ≡ get_elem? (take 5 six) (data_at two_cores 2 + i))
place_count_example = place_count (take 5 six) two_cores 2 (omega arith) refl
