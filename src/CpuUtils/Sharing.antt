-- ===== src/CpuUtils/Sharing.antt =====
-- Which CPUs network functions share, and how many a function gets.
use csit.Base.{
  ℕ, ◌+◌, ◌-◌, ◌*◌, ◌%◌, ◌<◌, min, false, ◌≡◌, ◌≢◌, ◌⊎◌, ap, ◌∙◌, some, List, [], ◌∷◌, ◌++◌, arith,
  length, slice, get_elem?, get_elem?-lt, get_elem?-take, get_elem?-drop, take, drop, length-take,
  length-drop,
}
use native.Mathlib.Nat.{mod-eq_of_lt}
use csit.Base.Int.{ℤ}
use csit.Base.Result.{ok}
use csit.CpuUtils.{whole, Request, cores_for, place}
use csit.CpuUtils.Trex.{IsDistinct}
use csit.CpuUtils.Placement.{
  Fits, offset, mt_req, dt_req, main_at, data_at, place-plain, offset_bound, places_in_range,
  slice_one, Placed-one,
}

-- The request of another function of the same placement.
abbrev pub other_nf : Request → ℕ → ℕ → Request
other_nf r chain node = record r { nf_chain = chain; nf_node = node }

-- Chain and node are told apart by the offset.
offset-injective : (n a1 b1 a2 b2 : ℕ) → a1 < n → a2 < n → a1 + b1 * n ≡ a2 + b2 * n → b1 ≡ b2
offset-injective n a1 b1 a2 b2 h1 h2 e = grind arith

-- Where cores are not shared, the offset is the place among the data plane cores.
data_at-unshared :
    (cpus : List ℤ) (r : Request)
    → Fits cpus r
    → r.nf_dtcr ≡ 1
    → data_at r 1 ≡ r.skip_cnt + mt_req r + offset r
data_at-unshared cpus r f apart =
    let nfs = r.nf_chains * r.nf_nodes in
    let all_nfs : cores_for nfs 1 ≡ nfs = omega arith in
    let below =
      offset_bound r.nf_chains r.nf_nodes r.nf_chain r.nf_node f.chain_low f.chain_high f.node_low
        f.node_high in
    let cores : dt_req r ≡ nfs = ap (cores_for nfs) apart ∙ all_nfs in
    let rest : offset r % dt_req r ≡ offset r = ap (λ k. offset r % k) cores ∙ mod-eq_of_lt below in
    omega (arith, rest)

-- On a node without thread siblings, two functions of one placement, in which the data plane does not
-- share cores and each function has one, both get a main CPU and a data plane CPU; their data plane
-- CPUs differ, and neither is a main CPU of the two.
pub place_separate :
    (cpus : List ℤ) (r : Request) (chain node : ℕ)
    → IsDistinct cpus
    → r.nf_dtc ≡ whole 1
    → r.nf_dtcr ≡ 1
    → Fits cpus r
    → Fits cpus (other_nf r chain node)
    → (r.nf_chain ≢ chain) ⊎ (r.nf_node ≢ node)
    → (m1 : ℤ) × (d1 : ℤ) × (m2 : ℤ) × (d2 : ℤ) × (place false cpus r ≡ ok (m1 ∷ d1 ∷ []))
      × (place false cpus (other_nf r chain node) ≡ ok (m2 ∷ d2 ∷ []))
      × (d1 ≢ d2)
      × (m1 ≢ d1)
      × (m1 ≢ d2)
      × (m2 ≢ d1)
      × (m2 ≢ d2)
place_separate cpus r chain node distinct one apart f1 f2 different =
    let r2 = other_nf r chain node in
    let p1 = Placed-one cpus r f1 one in
    let p2 = Placed-one cpus r2 f2 one in
    let range1 = places_in_range cpus r f1 in
    let range2 = places_in_range cpus r2 f2 in
    let clash =
      λ (i j : ℕ) (c d : ℤ) (ec : get_elem? cpus i ≡ some c) (ed : get_elem? cpus j ≡ some d)
          (same : c ≡ d).
        distinct i j d (ec ∙ ap some same) ed in
    (
      p1.main,
      p1.worker,
      p2.main,
      p2.worker,
      p1.returned,
      p2.returned,
      λ same.
          let at =
            clash (data_at r 1) (data_at r2 1) p1.worker p2.worker p1.worker_place p2.worker_place
              same in
          let same_offset : offset r ≡ offset r2 =
            omega
              (arith, at, data_at-unshared cpus r f1 apart, data_at-unshared cpus r2 f2 apart) in
          let same_chain =
            offset-injective r.nf_nodes (r.nf_node - 1) (r.nf_chain - 1) (node - 1) (chain - 1)
              (omega arith) (omega arith) same_offset in
          absurd (omega (arith, ap (λ k. k * r.nf_nodes) same_chain)),
      λ same. absurd (
          omega (
            arith,
            clash (main_at r) (data_at r 1) p1.main p1.worker p1.main_place p1.worker_place same,
          )),
      λ same. absurd (
          omega (
            arith,
            clash (main_at r) (data_at r2 1) p1.main p2.worker p1.main_place p2.worker_place same,
          )),
      λ same. absurd (
          omega (
            arith,
            clash (main_at r2) (data_at r 1) p2.main p1.worker p2.main_place p1.worker_place same,
          )),
      λ same. absurd (
          omega (
            arith,
            clash (main_at r2) (data_at r2 1) p2.main p2.worker p2.main_place p2.worker_place same,
          )),
    )

-- On a node without thread siblings, a request that passes the code's test returns the main CPU, which
-- stands behind the skipped ones at the function's turn among the main cores, and the data plane CPUs that
-- the list still has from their first place on, but not more than asked for: the test counts one CPU for
-- each core of the data plane, whatever `nf_dtc` is.
pub place_count :
    (cpus : List ℤ) (r : Request) (dtc : ℕ)
    → Fits cpus r
    → r.nf_dtc ≡ whole dtc
    → (main : ℤ) × (data_cpus : List ℤ) × (place false cpus r ≡ ok (main ∷ data_cpus))
      × (get_elem? cpus (r.skip_cnt + offset r % mt_req r) ≡ some main)
      × (length data_cpus ≡ min dtc (length cpus - data_at r dtc))
      × ((i : ℕ) → i < dtc → get_elem? data_cpus i ≡ get_elem? cpus (data_at r dtc + i))
place_count cpus r dtc f e =
    let (low, middle, high) = places_in_range cpus r f in
    let (main, em) = get_elem?-lt cpus (main_at r) (omega (arith, f.room)) in
    let count : data_at r dtc + dtc - data_at r dtc ≡ dtc = omega arith in
    let data_cpus = take dtc (drop (data_at r dtc) cpus) in
    (
      main,
      data_cpus,
      place-plain cpus r dtc f e
          ∙ (ap (λ l. ok (l ++ slice (data_at r dtc) (data_at r dtc + dtc) cpus))
                (slice_one (main_at r) cpus main em)
              ∙ ap (λ k. ok (main ∷ take k (drop (data_at r dtc) cpus))) count),
      em,
      omega (
        arith,
        length-take {0} dtc (drop (data_at r dtc) cpus),
        length-drop {0} (data_at r dtc) cpus,
      ),
      λ i below.
          get_elem?-take dtc i (drop (data_at r dtc) cpus) below
          ∙ get_elem?-drop (data_at r dtc) i cpus,
    )
