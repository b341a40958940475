-- ===== src/Jumpavg/Partition.antt =====
-- The loops of `classify`: the runs that its groups hold, and the bits that they keep.
use csit.Base.{List, [], ◌∷◌, ◌++◌, map, ◌≡◌}
use csit.Jumpavg.Bits.{IsCounted}
use csit.Jumpavg.{
  Run, value, summary, Sample, single, several, Stats, BitCountingGroup, BitCountingGroupList,
}

module _ {F S : Type 0} where
  -- The runs of the groups, one after the other.
  abbrev pub runs_of : List (BitCountingGroup F S) → List (Run F S)
  runs_of [] = []
  runs_of (g ∷ gs) = g.run_list ++ runs_of gs

module _ {F S : Type 0} (ops : Stats F S) where
  -- The groups hold these runs, and the kept numbers of bits are right.
  abbrev pub Covers : List (Run F S) → BitCountingGroupList F S → Type 0
  Covers runs self = (runs_of self.group_list ≡ runs) × IsCounted ops self

  -- What a sample becomes: a float stays, an iterable is replaced by its statistics.
  abbrev pub as_run : Sample F → Run F S
  as_run (single v) = value v
  as_run (several vs) = summary (ops.for_runs (map value vs))
