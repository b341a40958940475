-- ===== src/CpuUtils/Slices.antt =====
-- How many CPUs a slice has and which ones, with and without thread siblings; when the code raises.
use csit.Base.{
  ℕ, zero, suc, ◌+◌, ◌-◌, ◌*◌, ◌/◌, ◌≤◌, ◌<◌, Bool, true, false, ◌≡◌, sym, ap, ◌∙◌, List, [], ◌∷◌,
  ◌++◌, arith, if◌then◌else◌, ◌==◌, length, take, drop, slice, get_elem?, length-take, length-drop,
  length-append, take-append-drop, get_elem?-drop, get_elem?-take, le→ltb_false, lt→ltb,
}
use csit.Base.Int.{ℤ}
use csit.Base.Result.{ok, raise, runtime_error}
use csit.Topology.{Node}
use csit.CpuUtils.{slice_of, cpu_list_per_node, cpu_slice_of_list_per_node}

module _ {ℓ} {A : Type ℓ} where
  pub length-slice :
      (lo n : ℕ) (xs : List A) → lo + n ≤ length xs → length (slice lo (lo + n) xs) ≡ n
  length-slice lo n xs h = omega (arith, length-take (lo + n - lo) (drop lo xs), length-drop lo xs)

  pub get_elem?-slice :
      (lo n i : ℕ) (xs : List A)
      → i < n
      → get_elem? (slice lo (lo + n) xs) i ≡ get_elem? xs (lo + i)
  get_elem?-slice lo n i xs h =
      get_elem?-take (lo + n - lo) i (drop lo xs) (omega arith) ∙ get_elem?-drop lo i xs

-- The count that a request stands for: zero asks for all that is left.
abbrev pub wanted : List ℤ → ℕ → ℕ → ℕ
wanted cpus skip cnt = if cnt == 0 then length cpus - skip else cnt

slice_of-raise :
    (cpus : List ℤ) (skip cnt : ℕ) (smt : Bool)
    → length cpus < cnt + skip
    → slice_of cpus skip cnt smt ≡ raise runtime_error
unfolding slice_of
slice_of-raise cpus skip cnt smt h = rw (lt→ltb _ _ h)

pub slice_of-plain :
    (cpus : List ℤ) (skip cnt : ℕ)
    → cnt + skip ≤ length cpus
    → slice_of cpus skip cnt false ≡ ok (slice skip (skip + wanted cpus skip cnt) cpus)
unfolding slice_of
slice_of-plain cpus skip cnt h = rw (le→ltb_false _ _ h)

slice_of-smt :
    (cpus : List ℤ) (skip cnt : ℕ)
    → cnt + skip ≤ length cpus
    → slice_of cpus skip cnt true
      ≡ ok (
          slice skip (skip + wanted cpus skip cnt) (take (length cpus / 2) cpus)
          ++ slice skip (skip + wanted cpus skip cnt) (drop (length cpus / 2) cpus))
unfolding slice_of
slice_of-smt cpus skip cnt h = rw (le→ltb_false _ _ h)

wanted-le :
    (cpus : List ℤ) (skip cnt : ℕ)
    → cnt + skip ≤ length cpus
    → skip + wanted cpus skip cnt ≤ length cpus
wanted-le cpus skip cnt h = ground arith

-- The slice of the node's list.
pub cpu_slice_lem :
    (node : Node) (cpu_node : ℤ) (skip cnt : ℕ) (smt : Bool) (cpus : List ℤ)
    → cpu_list_per_node node cpu_node smt ≡ ok cpus
    → cpu_slice_of_list_per_node node cpu_node skip cnt smt ≡ slice_of cpus skip cnt smt
unfolding cpu_slice_of_list_per_node
cpu_slice_lem node cpu_node skip cnt smt cpus e = rw e

-- `part` stands in `whole` right behind the first `skip` items.
abbrev pub StandsAt : ℕ → List ℤ → List ℤ → Type 0
StandsAt skip part whole = take skip whole ++ (part ++ drop (skip + length part) whole) ≡ whole

drop-drop : (n m : ℕ) (xs : List ℤ) → drop m (drop n xs) ≡ drop (n + m) xs
drop-drop zero m xs = ap (λ k. drop k xs) (omega arith)
drop-drop (suc n) zero [] = let e : suc n + zero ≡ suc (n + zero) = omega arith in rw e
drop-drop (suc n) (suc m) [] = let e : suc n + suc m ≡ suc (n + suc m) = omega arith in rw e
drop-drop (suc n) m (x ∷ xs) =
    let e : suc n + m ≡ suc (n + m) = omega arith in rw e (drop-drop n m xs)

slice-StandsAt :
    (skip w : ℕ) (xs : List ℤ) → skip + w ≤ length xs → StandsAt skip (slice skip (skip + w) xs) xs
slice-StandsAt skip w xs h =
    let len = length-slice skip w xs h in
    let count : skip + w - skip ≡ w = omega arith in
    let rest : drop (skip + length (slice skip (skip + w) xs)) xs
        ≡ drop (skip + w - skip) (drop skip xs) =
      ap (λ k. drop (skip + k) xs) (len ∙ sym count) ∙ sym (drop-drop skip (skip + w - skip) xs) in
    ap (λ t. take skip xs ++ (slice skip (skip + w) xs ++ t)) rest
    ∙ ap (λ t. take skip xs ++ t) (take-append-drop (skip + w - skip) (drop skip xs))
    ∙ take-append-drop skip xs

-- Without thread siblings, a request that fits the node's list returns exactly the wanted number of
-- CPUs, in the list's order and right behind the skipped ones; a count of zero wants all that is left.
pub cpu_slice_exact :
    (node : Node) (cpu_node : ℤ) (skip cnt : ℕ) (cpus : List ℤ)
    → cpu_list_per_node node cpu_node false ≡ ok cpus
    → cnt + skip ≤ length cpus
    → (r : List ℤ) × (cpu_slice_of_list_per_node node cpu_node skip cnt false ≡ ok r)
      × (length r ≡ wanted cpus skip cnt)
      × StandsAt skip r cpus
cpu_slice_exact node cpu_node skip cnt cpus e h =
    let w = wanted cpus skip cnt in
    let fits = wanted-le cpus skip cnt h in
    (
      slice skip (skip + w) cpus,
      cpu_slice_lem node cpu_node skip cnt false cpus e ∙ slice_of-plain cpus skip cnt h,
      length-slice skip w cpus fits,
      slice-StandsAt skip w cpus fits,
    )

-- With thread siblings, a request that fits one half of the node's list returns the wanted number of
-- CPUs from the first half, right behind the skipped ones, and then as many from the same place of the
-- second half.
pub cpu_slice_smt_exact :
    (node : Node) (cpu_node : ℤ) (skip cnt : ℕ) (cpus : List ℤ)
    → cpu_list_per_node node cpu_node true ≡ ok cpus
    → skip + wanted cpus skip cnt ≤ length cpus / 2
    → cnt + skip ≤ length cpus
    → (r0 : List ℤ) × (r1 : List ℤ) × (cpu_slice_of_list_per_node node cpu_node skip cnt true
        ≡ ok (r0 ++ r1))
      × (length r0 ≡ wanted cpus skip cnt)
      × (length r1 ≡ wanted cpus skip cnt)
      × StandsAt skip r0 (take (length cpus / 2) cpus)
      × StandsAt skip r1 (drop (length cpus / 2) cpus)
cpu_slice_smt_exact node cpu_node skip cnt cpus e fits h =
    let w = wanted cpus skip cnt in
    let half = length cpus / 2 in
    let in_first : skip + w ≤ length (take half cpus) = omega (arith, length-take half cpus) in
    let in_second : skip + w ≤ length (drop half cpus) = omega (arith, length-drop half cpus) in
    (
      slice skip (skip + w) (take half cpus),
      slice skip (skip + w) (drop half cpus),
      cpu_slice_lem node cpu_node skip cnt true cpus e ∙ slice_of-smt cpus skip cnt h,
      length-slice skip w (take half cpus) in_first,
      length-slice skip w (drop half cpus) in_second,
      slice-StandsAt skip w (take half cpus) in_first,
      slice-StandsAt skip w (drop half cpus) in_second,
    )

length-slice_le : (lo n : ℕ) (xs : List ℤ) → length (slice lo (lo + n) xs) ≤ length xs - lo
length-slice_le lo n xs = omega (arith, length-take (lo + n - lo) (drop lo xs), length-drop lo xs)

-- With thread siblings, the code's own test lets a request pass that one half cannot meet: if the
-- skipped and the requested CPUs together pass half of an even list, but not the whole list, the call
-- returns fewer than twice the requested CPUs and raises nothing.
pub cpu_slice_smt_short :
    (node : Node) (cpu_node : ℤ) (skip cnt : ℕ) (cpus : List ℤ) (half : ℕ)
    → cpu_list_per_node node cpu_node true ≡ ok cpus
    → length cpus ≡ half + half
    → half < skip + cnt
    → cnt + skip ≤ length cpus
    → 0 < cnt
    → (r : List ℤ) × (cpu_slice_of_list_per_node node cpu_node skip cnt true ≡ ok r)
      × (length r < 2 * cnt)
cpu_slice_smt_short node cpu_node skip cnt cpus half e even over h positive =
    let w = wanted cpus skip cnt in
    let r0 = slice skip (skip + w) (take (length cpus / 2) cpus) in
    let r1 = slice skip (skip + w) (drop (length cpus / 2) cpus) in
    (
      r0 ++ r1,
      cpu_slice_lem node cpu_node skip cnt true cpus e ∙ slice_of-smt cpus skip cnt h,
      omega (
        arith,
        length-append {0} r0 r1,
        length-slice_le skip w (take (length cpus / 2) cpus),
        length-slice_le skip w (drop (length cpus / 2) cpus),
        length-take {0} (length cpus / 2) cpus,
        length-drop {0} (length cpus / 2) cpus,
      ),
    )
