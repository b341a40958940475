-- ===== src/Jumpavg/Tests.antt =====
-- Whole numbers in place of floats and sums in place of averages, and the theorem at them.
use csit.Base.{ℕ, ◌+◌, ◌-◌, ◌/◌, ltb, ◌==◌, Option, none, some, List, [], ◌∷◌, ◌≡◌, refl}
use csit.Base.Result.{raise, index_error, ◌>>=◌}
use csit.Jumpavg.{
  Run, value, summary, Sample, single, several, Stats, BitCountingGroupList, group_bits, new_group,
  append_run, append_to_last, read_last, bits, append_group_of_runs, append_run_to_to_last_group,
  extend_group, extend_last, extend_runs_to_last_group, extend_open, classify_loop, max_of,
  processed, commented, classify,
}

-- The statistics are the number and the sum of the runs.
abbrev tally : List (Run ℕ (ℕ × ℕ)) → ℕ × ℕ
tally [] = (0, 0)
tally (value v ∷ runs) = let (n, sum) = tally runs in (n + 1, sum + v)
tally (summary (k, s) ∷ runs) = let (n, sum) = tally runs in (n + k, sum + s)

abbrev average : ℕ × ℕ → ℕ
average (n, sum) = sum / n

abbrev apart : ℕ → Option ℕ → ℕ
apart average none = 0
apart average (some before) = (average - before) + (before - average)

-- Few bits for a group that is as the one before it.
abbrev whole_stats : Stats ℕ (ℕ × ℕ)
whole_stats = record {
  for_runs = tally;
  avg = average;
  bits_of = λ s max_value prev_avg. 10 + apart (average s) prev_avg;
  nothing = 0;
  add = λ a b. a + b;
  lt = ltb;
  eq = λ a b. a == b;
}

abbrev samples : List (Sample ℕ)
samples = single 5 ∷ several (5 ∷ 7 ∷ []) ∷ single 90 ∷ []

program : Unit {0}
unfolding group_bits new_group append_run append_to_last read_last bits append_group_of_runs
    append_run_to_to_last_group extend_open classify_loop max_of processed commented classify
program = tt

largest : (processed whole_stats 0 samples).0 ≡ 90
unfolding program
largest = refl

no_samples : classify whole_stats [] ≡ raise index_error
unfolding program
no_samples = refl

-- One list of groups, extended at once and a run at a time.
abbrev one_group : BitCountingGroupList ℕ (ℕ × ℕ)
unfolding program
one_group =
    append_group_of_runs whole_stats
      (record { group_list = []; bits_except_last = 0; max_value = 9 }) (value 3 ∷ [])

extended : extend_runs_to_last_group whole_stats one_group (value 4 ∷ value 5 ∷ []) ≡ (do
  once ← append_run_to_to_last_group whole_stats one_group (value 4)
  append_run_to_to_last_group whole_stats once (value 5))
unfolding program one_group extend_runs_to_last_group extend_last extend_group
extended = refl
