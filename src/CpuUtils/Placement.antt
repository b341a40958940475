-- ===== src/CpuUtils/Placement.antt =====
-- Where `cpu_slice_of_list_for_nf` places a network function.
use csit.Base.{
  ℕ, zero, suc, ◌+◌, ◌-◌, ◌*◌, ◌%◌, ◌≤◌, ◌<◌, false, ◌≡◌, ap, ◌∙◌, some, List, [], ◌∷◌, ◌++◌, arith,
  ◌==◌, length, take, drop, slice, get_elem?, get_elem?-lt, le→ltb_false,
}
use native.Mathlib.Nat.{mod-lt}
use csit.Base.Int.{ℤ}
use csit.Base.Result.{ok}
use csit.CpuUtils.{whole, Request, cores_for, place_of, place}

-- The guards of the code on the chain, the node and the ratios, and its test that the list has room.
pub record Fits (cpus : List ℤ) (r : Request) : Type 0 where
  pub chain_low : 1 ≤ r.nf_chain
  pub chain_high : r.nf_chain ≤ r.nf_chains
  pub node_low : 1 ≤ r.nf_node
  pub node_high : r.nf_node ≤ r.nf_nodes
  pub mtcr_pos : 1 ≤ r.nf_mtcr
  pub dtcr_pos : 1 ≤ r.nf_dtcr
  pub room :
      r.skip_cnt
        + cores_for (r.nf_chains * r.nf_nodes) r.nf_mtcr
        + cores_for (r.nf_chains * r.nf_nodes) r.nf_dtcr
      ≤ length cpus

abbrev pub offset : Request → ℕ
offset r = (r.nf_node - 1) + (r.nf_chain - 1) * r.nf_nodes

abbrev pub mt_req : Request → ℕ
mt_req r = cores_for (r.nf_chains * r.nf_nodes) r.nf_mtcr

abbrev pub dt_req : Request → ℕ
dt_req r = cores_for (r.nf_chains * r.nf_nodes) r.nf_dtcr

-- The place of the main thread and of the first data plane core.
abbrev pub main_at : Request → ℕ
main_at r = r.skip_cnt + offset r % mt_req r

abbrev pub data_at : Request → ℕ → ℕ
data_at r dtc = r.skip_cnt + mt_req r + offset r % dt_req r * dtc

-- A test that an argument is zero fails.
nonzero : (n : ℕ) → 1 ≤ n → (n == 0) ≡ false
nonzero n h = ground arith

place_of-plain :
    (cpus : List ℤ) (r : Request) (dtc : ℕ)
    → Fits cpus r
    → place_of false cpus r (whole dtc)
      ≡ ok (
          slice (main_at r) (main_at r + 1) cpus
          ++ slice (data_at r dtc) (data_at r dtc + dtc) cpus)
unfolding place_of
place_of-plain cpus r dtc f =
    rw (nonzero r.nf_mtcr f.mtcr_pos, nonzero r.nf_dtcr f.dtcr_pos, le→ltb_false _ _ f.room)

-- Without thread siblings: one CPU for the main thread and `dtc` for the data plane.
pub place-plain :
    (cpus : List ℤ) (r : Request) (dtc : ℕ)
    → Fits cpus r
    → r.nf_dtc ≡ whole dtc
    → place false cpus r
      ≡ ok (
          slice (main_at r) (main_at r + 1) cpus
          ++ slice (data_at r dtc) (data_at r dtc + dtc) cpus)
unfolding place
place-plain cpus r dtc f e = ap (place_of false cpus r) e ∙ place_of-plain cpus r dtc f

pub offset_bound :
    (chains nodes chain node : ℕ)
    → 1 ≤ chain
    → chain ≤ chains
    → 1 ≤ node
    → node ≤ nodes
    → (node - 1) + (chain - 1) * nodes < chains * nodes
offset_bound chains nodes chain node h1 h2 h3 h4 = grind arith

cores_for_pos : (nfs ratio : ℕ) → 1 ≤ nfs → 1 ≤ ratio → 1 ≤ cores_for nfs ratio
cores_for_pos nfs ratio h g = grind arith

pub slice_one :
    (p : ℕ) (cpus : List ℤ) (c : ℤ) → get_elem? cpus p ≡ some c → slice p (p + 1) cpus ≡ c ∷ []
slice_one p cpus c e =
    let count : p + 1 - p ≡ 1 = omega arith in ap (λ k. take k (drop p cpus)) count ∙ first p cpus e
  where
    first : (p : ℕ) (cpus : List ℤ) → get_elem? cpus p ≡ some c → take 1 (drop p cpus) ≡ c ∷ []
    first p [] e = cc
    first zero (x ∷ cpus) e = cc
    first (suc p) (x ∷ cpus) e = first p cpus e

pub nfs_pos :
    (chains nodes chain node : ℕ)
    → 1 ≤ chain
    → chain ≤ chains
    → 1 ≤ node
    → node ≤ nodes
    → 1 ≤ chains * nodes
nfs_pos chains nodes chain node h1 h2 h3 h4 =
    omega (arith, offset_bound chains nodes chain node h1 h2 h3 h4)

-- The places lie in their own ranges: the main thread's before the data plane's.
pub places_in_range :
    (cpus : List ℤ) (r : Request)
    → Fits cpus r
    → (main_at r < r.skip_cnt + mt_req r)
      × (r.skip_cnt + mt_req r ≤ data_at r 1)
      × (data_at r 1 < r.skip_cnt + mt_req r + dt_req r)
places_in_range cpus r f =
    let some_nf =
      nfs_pos r.nf_chains r.nf_nodes r.nf_chain r.nf_node f.chain_low f.chain_high f.node_low
        f.node_high in
    let mt = cores_for_pos (r.nf_chains * r.nf_nodes) r.nf_mtcr some_nf f.mtcr_pos in
    let dt = cores_for_pos (r.nf_chains * r.nf_nodes) r.nf_dtcr some_nf f.dtcr_pos in
    let main_low = mod-lt (offset r) mt in let data_low = mod-lt (offset r) dt in omega arith

-- A placed function with one data plane core: its two CPUs.
pub record Placed (cpus : List ℤ) (r : Request) : Type 0 where
  pub main : ℤ
  pub worker : ℤ
  pub returned : place false cpus r ≡ ok (main ∷ worker ∷ [])
  pub main_place : get_elem? cpus (main_at r) ≡ some main
  pub worker_place : get_elem? cpus (data_at r 1) ≡ some worker

pub Placed-one : (cpus : List ℤ) (r : Request) → Fits cpus r → r.nf_dtc ≡ whole 1 → Placed cpus r
Placed-one cpus r f e =
    let (low, middle, high) = places_in_range cpus r f in
    let (main, em) = get_elem?-lt cpus (main_at r) (omega (arith, f.room)) in
    let (worker, ew) = get_elem?-lt cpus (data_at r 1) (omega (arith, f.room)) in
    record {
      main = main;
      worker = worker;
      returned =
          place-plain cpus r 1 f e
          ∙ ap (λ l. ok (l ++ slice (data_at r 1) (data_at r 1 + 1) cpus))
              (slice_one (main_at r) cpus main em)
          ∙ ap (λ l. ok (main ∷ l)) (slice_one (data_at r 1) cpus worker ew);
      main_place = em;
      worker_place = ew;
    }
