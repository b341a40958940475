-- ===== src/CpuUtils/Trex.antt =====
-- The CPUs of the traffic generator's threads, `get_affinity_trex` of CpuUtils.py.
use csit.Base.{
  ℕ, zero, suc, [], ◌∷◌, get_elem?-lt, ◌+◌, ◌≤◌, ◌<◌, ◌≡◌, ◌≢◌, sym, ap, ◌∙◌, some, List, false,
  arith, length, slice, get_elem?,
}
use csit.Base.Int.{ℤ}
use csit.Base.Result.{ok}
use csit.Topology.{Node}
use csit.CpuUtils.{cpu_list_per_node, cpu_slice_of_list_per_node, trex_threads}
use csit.CpuUtils.Slices.{length-slice, get_elem?-slice, wanted, cpu_slice_lem, slice_of-plain}

-- No CPU number is at two places of the list.
abbrev pub IsDistinct : List ℤ → Type 0
IsDistinct cpus = (i j : ℕ) (c : ℤ) → get_elem? cpus i ≡ some c → get_elem? cpus j ≡ some c → i ≡ j

-- `c` is at no place of the list.
abbrev pub Avoids : ℤ → List ℤ → Type 0
Avoids c cpus = (i : ℕ) → get_elem? cpus i ≢ some c

get_elem?-some_lt : (xs : List ℤ) (i : ℕ) (c : ℤ) → get_elem? xs i ≡ some c → i < length xs
get_elem?-some_lt [] i c e = cc
get_elem?-some_lt (x ∷ xs) zero c e = omega arith
get_elem?-some_lt (x ∷ xs) (suc i) c e = omega (arith, get_elem?-some_lt xs i c e)

wanted_pos : (cpus : List ℤ) (skip cnt : ℕ) → 1 ≤ cnt → wanted cpus skip cnt ≡ cnt
wanted_pos cpus skip cnt h = ground arith

-- A slice of a positive count, by places.
plain_slice :
    (node : Node) (cpu_node : ℤ) (cpus : List ℤ) (skip cnt : ℕ)
    → cpu_list_per_node node cpu_node false ≡ ok cpus
    → 1 ≤ cnt
    → cnt + skip ≤ length cpus
    → cpu_slice_of_list_per_node node cpu_node skip cnt false ≡ ok (slice skip (skip + cnt) cpus)
plain_slice node cpu_node cpus skip cnt e positive h =
    cpu_slice_lem node cpu_node skip cnt false cpus e
    ∙ slice_of-plain cpus skip cnt h
    ∙ ap (λ w. ok (slice skip (skip + w) cpus)) (wanted_pos cpus skip cnt positive)

module _ (node : Node) (cpu_node : ℤ) (cpus : List ℤ) (mtc dtc ltc : ℕ)
    (listed : cpu_list_per_node node cpu_node false ≡ ok cpus) (mtc_pos : 1 ≤ mtc)
    (dtc_pos : 1 ≤ dtc) (ltc_pos : 1 ≤ ltc) (fits : mtc + dtc + ltc ≤ length cpus) where
  trex_threads-ok :
      (m l : ℤ)
      → get_elem? cpus 0 ≡ some m
      → get_elem? cpus (mtc + dtc) ≡ some l
      → trex_threads node cpu_node mtc dtc ltc ≡ ok (m, l, cpu_node, slice mtc (mtc + dtc) cpus)
  unfolding trex_threads
  trex_threads-ok m l em el =
      let s1 = plain_slice node cpu_node cpus 0 mtc listed mtc_pos (omega arith) in
      let s2 = plain_slice node cpu_node cpus mtc dtc listed dtc_pos (omega arith) in
      let s3 = plain_slice node cpu_node cpus (mtc + dtc) ltc listed ltc_pos (omega arith) in
      let e1 =
        get_elem?-slice 0 mtc 0 cpus (omega arith) ∙ ap (get_elem? cpus) (omega arith) ∙ em in
      let e3 =
        get_elem?-slice (mtc + dtc) ltc 0 cpus (omega arith)
        ∙ ap (get_elem? cpus) (omega arith)
        ∙ el in
      rw (s1, s2, s3, e1, e3)

  worker-place :
      (i : ℕ) (c : ℤ)
      → get_elem? (slice mtc (mtc + dtc) cpus) i ≡ some c
      → (i < dtc) × (get_elem? cpus (mtc + i) ≡ some c)
  worker-place i c e =
      let below : i < dtc = omega (
        arith,
        get_elem?-some_lt (slice mtc (mtc + dtc) cpus) i c e,
        length-slice mtc dtc cpus (omega arith),
      ) in
      (below, sym (get_elem?-slice mtc dtc i cpus below) ∙ e)

-- On a node whose list of CPUs for a NUMA node has no repetition and is long enough, with at least one
-- thread of each kind, the call returns, and the main thread, the latency thread and the data plane
-- threads are on different CPUs, as many of the latter as asked for.
pub trex_threads-IsDistinct :
    (node : Node) (cpu_node : ℤ) (cpus : List ℤ) (mtc dtc ltc : ℕ)
    → cpu_list_per_node node cpu_node false ≡ ok cpus
    → IsDistinct cpus
    → 1 ≤ mtc
    → 1 ≤ dtc
    → 1 ≤ ltc
    → mtc + dtc + ltc ≤ length cpus
    → (m : ℤ) × (l : ℤ) × (threads : List ℤ) × (trex_threads node cpu_node mtc dtc ltc
        ≡ ok (m, l, cpu_node, threads))
      × (length threads ≡ dtc)
      × (m ≢ l)
      × Avoids m threads
      × Avoids l threads
      × IsDistinct threads
trex_threads-IsDistinct node cpu_node cpus mtc dtc ltc listed distinct hm hd hl fits =
    let (m, em) = get_elem?-lt cpus 0 (omega arith) in
    let (l, el) = get_elem?-lt cpus (mtc + dtc) (omega arith) in
    let place = worker-place node cpu_node cpus mtc dtc ltc listed hm hd hl fits in
    (
      m,
      l,
      slice mtc (mtc + dtc) cpus,
      trex_threads-ok node cpu_node cpus mtc dtc ltc listed hm hd hl fits m l em el,
      length-slice mtc dtc cpus (omega arith),
      λ same. absurd (omega (arith, distinct 0 (mtc + dtc) l (em ∙ ap some same) el)),
      λ i e. let (below, at) = place i m e in absurd (omega (arith, distinct 0 (mtc + i) m em at)),
      λ i e.
          let (below, at) = place i l e in
          absurd (omega (arith, distinct (mtc + dtc) (mtc + i) l el at)),
      λ i j c e1 e2.
          let (_, at1) = place i c e1 in
          let (_, at2) = place j c e2 in omega (arith, distinct (mtc + i) (mtc + j) c at1 at2),
    )
