-- ===== src/Jumpavg.antt =====
-- resources/libraries/python/jumpavg: classify.py, BitCountingGroup.py and BitCountingGroupList.py.
-- Floats and the statistics of AvgStdevStats and BitCountingStats are an argument, a record. A list of
-- groups that the code copies before it changes is a value here.
pub mod Bits
mod Partition
mod Tests
use csit.Base.{
  Bool, true, false, Option, none, some, List, [], ◌∷◌, ◌++◌, map, if◌then◌else◌, last?,
}
use csit.Base.Text.{Text, codes}
use csit.Base.Result.{Result, ok, raise, index_error, ◌>>=◌}

-- A run is a float or statistics.
pub data Run (F S : Type 0) : Type 0 where
  value : F → Run F S
  summary : S → Run F S

-- An element of the argument of `classify`: a float, or an iterable of floats.
pub data Sample (F : Type 0) : Type 0 where
  single : F → Sample F
  several : List F → Sample F

-- `AvgStdevStats.for_runs`, its `avg`, `BitCountingStats.for_runs([stats], max_value, prev_avg).bits`,
-- and what is done with floats.
pub record Stats (F S : Type 0) : Type 0 where
  pub for_runs : List (Run F S) → S
  pub avg : S → F
  pub bits_of : S → F → Option F → F
  pub nothing : F
  pub add : F → F → F
  pub lt : F → F → Bool
  pub eq : F → F → Bool

pub record BitCountingGroup (F S : Type 0) : Type 0 where
  pub run_list : List (Run F S)
  pub stats : S
  pub cached_bits : Option F
  pub max_value : F
  pub prev_avg : Option F
  pub comment : Text

pub record BitCountingGroupList (F S : Type 0) : Type 0 where
  pub group_list : List (BitCountingGroup F S)
  pub bits_except_last : F
  pub max_value : F

module _ {F S : Type 0} (ops : Stats F S) where
  -- `BitCountingGroup(run_list=runs, max_value=max_value, prev_avg=prev_avg)`
  unfoldable pub new_group : List (Run F S) → F → Option F → BitCountingGroup F S
  new_group run_list max_value prev_avg = record {
    run_list = run_list;
    stats = ops.for_runs run_list;
    cached_bits = none;
    max_value = max_value;
    prev_avg = prev_avg;
    comment = codes "unknown";
  }

  abbrev pub read_cache : BitCountingGroup F S → F → Option F → BitCountingGroup F S × F
  read_cache self computed none = (record self { cached_bits = some computed }, computed)
  read_cache self computed (some cached) = (self, cached)

  -- The property `bits`: the group with its cache filled, and the bits.
  unfoldable pub group_bits : BitCountingGroup F S → BitCountingGroup F S × F
  group_bits self =
      read_cache self (ops.bits_of self.stats self.max_value self.prev_avg) self.cached_bits

  -- `append` of a group.
  unfoldable pub append_run : BitCountingGroup F S → Run F S → BitCountingGroup F S
  append_run self run = record self {
    run_list = self.run_list ++ run ∷ [];
    stats = ops.for_runs (summary self.stats ∷ run ∷ []);
    cached_bits = none;
  }

  -- The last group changed by `append_run`: `self.group_list[-1].append(run)`.
  unfoldable pub append_to_last :
      List (BitCountingGroup F S) → Run F S → Result (List (BitCountingGroup F S))
  append_to_last [] run = raise index_error
  append_to_last (g ∷ []) run = ok (append_run g run ∷ [])
  append_to_last (g ∷ h ∷ gs) run = do rest ← append_to_last (h ∷ gs) run; ok (g ∷ rest)

  -- The last group with its cache filled, and its bits; `None` for no group.
  unfoldable pub read_last : List (BitCountingGroup F S) → List (BitCountingGroup F S) × Option F
  read_last [] = ([], none)
  read_last (g ∷ []) = let (read, bits) = group_bits g in (read ∷ [], some bits)
  read_last (g ∷ h ∷ gs) = let (rest, bits) = read_last (h ∷ gs) in (g ∷ rest, bits)

  abbrev pub sum_bits :
      BitCountingGroupList F S
      → List (BitCountingGroup F S)
      → Option F
      → BitCountingGroupList F S × F
  sum_bits self read none = (self, ops.nothing)
  sum_bits self read (some b) = (record self { group_list = read }, ops.add self.bits_except_last b)

  -- The property `bits` of a list of groups.
  unfoldable pub bits : BitCountingGroupList F S → BitCountingGroupList F S × F
  bits self = let (read, last_bits) = read_last self.group_list in sum_bits self read last_bits

  abbrev pub average_of : Option (BitCountingGroup F S) → Option F
  average_of none = none
  average_of (some g) = some (ops.avg g.stats)

  -- For an argument that is a list of runs.
  unfoldable pub append_group_of_runs :
      BitCountingGroupList F S → List (Run F S) → BitCountingGroupList F S
  append_group_of_runs self runs =
      let new = new_group runs self.max_value (average_of (last? self.group_list)) in
      let (read, before) = bits self in
      record read { group_list = read.group_list ++ new ∷ []; bits_except_last = before }

  unfoldable pub append_run_to_to_last_group :
      BitCountingGroupList F S → Run F S → Result (BitCountingGroupList F S)
  append_run_to_to_last_group self run = do
    groups ← append_to_last self.group_list run
    ok (record self { group_list = groups })

  -- `extend` of a group, and of the last one.
  unfoldable pub extend_group : BitCountingGroup F S → List (Run F S) → BitCountingGroup F S
  extend_group self runs = record self {
    run_list = self.run_list ++ runs;
    stats = ops.for_runs (summary self.stats ∷ runs);
    cached_bits = none;
  }

  unfoldable pub extend_last :
      List (BitCountingGroup F S) → List (Run F S) → Result (List (BitCountingGroup F S))
  extend_last [] runs = raise index_error
  extend_last (g ∷ []) runs = ok (extend_group g runs ∷ [])
  extend_last (g ∷ h ∷ gs) runs = do rest ← extend_last (h ∷ gs) runs; ok (g ∷ rest)

  unfoldable pub extend_runs_to_last_group :
      BitCountingGroupList F S → List (Run F S) → Result (BitCountingGroupList F S)
  extend_runs_to_last_group self runs = do
    groups ← extend_last self.group_list runs
    ok (record self { group_list = groups })

  -- `append_group_of_runs` for an argument that is a group.
  unfoldable pub append_group :
      BitCountingGroupList F S → BitCountingGroup F S → BitCountingGroupList F S
  append_group self group =
      let new = record group {
        max_value = self.max_value;
        prev_avg = average_of (last? self.group_list);
        cached_bits = none;
      } in
      let (read, before) = bits self in
      record read { group_list = read.group_list ++ new ∷ []; bits_except_last = before }

  -- The inner loop over `open_at[:index]`: the list that replaces it, and the record at the end.
  unfoldable pub extend_open :
      List (BitCountingGroupList F S)
      → Run F S
      → BitCountingGroupList F S
      → Result (List (BitCountingGroupList F S) × BitCountingGroupList F S)
  extend_open [] run best = ok ([], best)
  extend_open (old_open ∷ olds) run best = do
    new_open ← append_run_to_to_last_group old_open run
    let (new_read, new_bits) = bits new_open
    let (best_read, best_bits) = bits best
    (rest, final) ← extend_open olds run (if ops.lt new_bits best_bits then new_read else best_read)
    ok (new_read ∷ rest, final)

  -- The outer loop, with the last of `closed_before`, which is `closed_before[index]`. Where the record
  -- is a list that `open_at` also holds, a read of its bits fills the cache of the record alone here.
  unfoldable pub classify_loop :
      List (BitCountingGroupList F S)
      → BitCountingGroupList F S
      → List (Run F S)
      → Result (BitCountingGroupList F S)
  classify_loop open_at closed [] = ok closed
  classify_loop open_at closed (run ∷ runs) = do
    let newly_open = append_group_of_runs closed (run ∷ [])
    (extended, best) ← extend_open open_at run newly_open
    classify_loop (extended ++ newly_open ∷ []) best runs

  unfoldable pub max_of : F → List F → F
  max_of max_value [] = max_value
  max_of max_value (v ∷ vs) = max_of (if ops.lt max_value v then v else max_value) vs

  -- The first loop: `max_value` and `processed_values`.
  unfoldable pub processed : F → List (Sample F) → F × List (Run F S)
  processed max_value [] = (max_value, [])
  processed max_value (single v ∷ values) =
      let (top, runs) = processed (if ops.lt max_value v then v else max_value) values in
      (top, value v ∷ runs)
  processed max_value (several vs ∷ values) =
      let (top, runs) = processed (max_of max_value vs) values in
      (top, summary (ops.for_runs (map value vs)) ∷ runs)

  abbrev pub comment_for : F → F → Text → Text
  comment_for average previous comment =
      if ops.eq average previous
      then codes "normal"
      else if ops.lt average previous
      then codes "regression"
      else if ops.lt previous average
      then codes "progression"
      else comment

  -- The last loop.
  unfoldable pub commented : F → List (BitCountingGroup F S) → List (BitCountingGroup F S)
  commented previous [] = []
  commented previous (g ∷ gs) =
      let average = ops.avg g.stats in
      record g { comment = comment_for average previous g.comment } ∷ commented average gs

  -- `partition[0]` raises `IndexError` for no group.
  abbrev pub finish :
      BitCountingGroupList F S → List (BitCountingGroup F S) → Result (BitCountingGroupList F S)
  finish partition [] = raise index_error
  finish partition (g ∷ gs) =
      ok (record partition { group_list = commented (ops.avg g.stats) (g ∷ gs) })

  unfoldable pub classify : List (Sample F) → Result (BitCountingGroupList F S)
  classify values = do
    let (max_value, runs) = processed ops.nothing values
    partition ←
        classify_loop []
          (record { group_list = []; bits_except_last = ops.nothing; max_value = max_value }) runs
    finish partition partition.group_list
