-- ===== src/MlrSearch/Tests.antt =====
-- Searches with numbers in thousandths, for a device that forwards up to a rate, and the theorems there.
use csit.Base.{
  ℕ, zero, suc, ◌+◌, ◌-◌, ◌*◌, ◌/◌, ◌^◌, ltb, leb, ◌==◌, true, false, Option, none, some, List, [],
  ◌∷◌, ◌≡◌, refl, ◌⊎◌, arith, if◌then◌else◌,
}
use csit.Base.Int.{ℤ, pos, negsuc}
use csit.Base.Result.{Result, ok, raise, value_error, zero_division_error, runtime_error}
use csit.MlrSearch.{
  Floats, ReceiveRateMeasurement, ReceiveRateInterval, NdrPdrResult, ProgressState,
  MultipleLossRatioSearch, receive_rate_measurement, receive_rate_interval, expand_down, expand_up,
  half_step_up, half_relative_width, double_relative_width, double_step_down, double_step_up,
  result_width_in_goals,
}
use csit.MlrSearch.Intervals.{
  Order, Equality, Yields, WellFormed, Bounded, IsValid, new_interval-IsValid, new_interval-Bounded,
}
use csit.MlrSearch.Rates.{
  Settled, Expanding, IsAllowedIfAny, next_rate-Settled, ndrpdr_loss_fraction-IsAllowed,
}
use csit.MlrSearch.Finish.{Ends, Patience}
use csit.MlrSearch.Start.{Narrowed, narrow_down_ndr_and_pdr-Narrowed}
use csit.MlrSearch.Phase.{
  World, measured, measure_and_update_state, ndrpdr_loop, next_rate, new_interval,
  ndrpdr_loss_fraction, ndrpdr_width_goal, ndrpdr_duration,
}
use csit.MlrSearch.Search.{
  shorter_duration, second_rate, narrower_start, starting_interval, ndrpdr_phases, ndrpdr,
  narrow_down_ndr_and_pdr,
}

-- The largest root whose square is at most `n`, one binary digit after another.
abbrev root_from : ℕ → ℕ → ℕ → ℕ
root_from zero root n = root
root_from (suc bits) root n =
    let more = root + 2 ^ bits in root_from bits (if leb (more * more) n then more else root) n

abbrev whole : ℤ → ℕ
whole (pos n) = n * 1000
whole (negsuc n) = 0

abbrev divided : ℕ → ℕ → Result ℕ
divided a b = if b == 0 then raise zero_division_error else ok (a * 1000 / b)

-- A logarithm up to its sign, near one.
abbrev logarithm : ℕ → Result ℕ
logarithm a = if a == 0 then raise value_error else ok (1000 - a)

abbrev power : ℕ → ℕ → Result ℕ
power a b = if b == 0 then ok 1000 else ok a

abbrev thousandths : Floats ℕ
thousandths = record {
  lt = ltb;
  le = leb;
  eq = λ a b. a == b;
  add = λ a b. a + b;
  sub = λ a b. a - b;
  mul = λ a b. a * b / 1000;
  div = divided;
  sqrt = λ a. ok (root_from 10 0 (a * 1000));
  log = logarithm;
  pow = power;
  of_int = whole;
  of_nat = λ n. n * 1000;
  null = 0;
  unit = 1000;
  nearly_two = 1999;
}

-- Up to 42 packets per second pass.
abbrev forwards_42 : List (ReceiveRateMeasurement ℕ) → ℕ → ℕ → Result (ReceiveRateMeasurement ℕ)
forwards_42 before duration rate =
    let sent = rate * duration / 1000000 in
    receive_rate_measurement thousandths duration rate (pos sent)
      (pos (sent - 42 * duration / 1000))

abbrev search : MultipleLossRatioSearch ℕ
search = record {
  final_trial_duration = 30000;
  final_relative_width = 100;
  number_of_intermediate_phases = 1;
  initial_trial_duration = 10000;
  timeout = 600000;
  doublings = 1;
}

abbrev idle : World ℕ
idle = record { measurements = []; readings = 0 }

-- Ten seconds pass between two readings.
abbrev seconds : ℕ → ℕ
seconds n = n * 10000

abbrev found : Option (Result (World ℕ × NdrPdrResult ℕ)) → List ℕ
found none = []
found (some (raise e)) = 0 ∷ []
found (some (ok (world, result))) =
    result.ndr_interval.measured_low.target_tr ∷ result.ndr_interval.measured_high.target_tr
    ∷ result.pdr_interval.measured_low.target_tr ∷ result.pdr_interval.measured_high.target_tr
    ∷ world.readings ∷ []

program : Unit {0}
unfolding receive_rate_measurement receive_rate_interval expand_down expand_up half_step_up
    half_relative_width double_relative_width result_width_in_goals measured next_rate
    measure_and_update_state ndrpdr_loop new_interval ndrpdr_loss_fraction ndrpdr_width_goal
    ndrpdr_duration shorter_duration second_rate narrower_start starting_interval ndrpdr_phases
    ndrpdr narrow_down_ndr_and_pdr double_step_down double_step_up
program = tt

both_rates :
    found (narrow_down_ndr_and_pdr thousandths forwards_42 seconds 62 search idle 1000 100000 50)
    ≡ 42000 ∷ 46614 ∷ 42000 ∷ 46614 ∷ 6 ∷ []
unfolding program
both_rates = refl

-- A device that is too slow even for the minimal rate, and a clock that is too fast.
nothing_forwarded :
    found (narrow_down_ndr_and_pdr thousandths forwards_42 seconds 62 search idle 60000 100000 50)
    ≡ 60000 ∷ 100000 ∷ 60000 ∷ 100000 ∷ 5 ∷ []
unfolding program
nothing_forwarded = refl

timed_out :
    narrow_down_ndr_and_pdr thousandths forwards_42 (λ n. n * 700000) 62 search idle 1000 100000 50
    ≡ some (raise runtime_error)
unfolding program
timed_out = refl

double_steps :
    (double_step_down thousandths 100 1000 ≡ 811) × (double_step_up thousandths 100 1000 ≡ ok 1233)
unfolding program
double_steps = (refl, refl)

abbrev sample : ℕ → ℕ → ReceiveRateMeasurement ℕ
sample rate lost = record {
  duration = 30000;
  target_tr = rate;
  transmit_count = pos 3000;
  loss_count = pos (3 * lost);
  receive_count = pos (3000 - 3 * lost);
  transmit_rate = 100000;
  loss_rate = 100 * lost;
  receive_rate = 100000 - 100 * lost;
  loss_fraction = lost;
}

abbrev between_40_and : ℕ → ℕ → ReceiveRateInterval ℕ
between_40_and rate lost = record {
  measured_low = sample 40000 0;
  measured_high = sample rate lost;
  abs_tr_width = rate - 40000;
  rel_tr_width = (rate - 40000) * 1000 / rate;
}

asymmetric_ltb : (a b : ℕ) → ltb a b ≡ true → ltb b a ≡ false
asymmetric_ltb a b h = ground arith

total_ltb : (a b : ℕ) → ltb a b ≡ false → leb b a ≡ true
total_ltb a b h = ground arith

transitive_ltb : (a b c : ℕ) → ltb a b ≡ true → ltb b c ≡ true → ltb a c ≡ true
transitive_ltb a b c h k = ground arith

splits_ltb : (a b c : ℕ) → ltb a b ≡ false → ltb b c ≡ false → ltb a c ≡ false
splits_ltb a b c h k = ground arith

lower_differs_ltb : (a b : ℕ) → ltb a b ≡ true → (a == b) ≡ false
lower_differs_ltb a b h = ground arith

higher_differs_ltb : (a b : ℕ) → ltb a b ≡ true → (b == a) ≡ false
higher_differs_ltb a b h = ground arith

abbrev ordered : Order thousandths
ordered = record {
  asymmetric = asymmetric_ltb;
  total = total_ltb;
  transitive = transitive_ltb;
  splits = splits_ltb;
}

abbrev told_apart : Equality thousandths
told_apart = record { lower_differs = lower_differs_ltb; higher_differs = higher_differs_ltb }

abbrev state_at : ℕ → ℕ → ProgressState ℕ
state_at rate lost = record {
  result = record {
    ndr_interval = between_40_and rate lost;
    pdr_interval = between_40_and rate lost;
  };
  phases = 0;
  duration = 30000;
  width_goal = 100;
  packet_loss_ratio = 50;
  minimum_transmit_rate = 1000;
  maximum_transmit_rate = 100000;
}

patient_61 : Patience thousandths forwards_42 seconds search 61
patient_61 start n h = ground arith

narrow_down_ndr_and_pdr-Narrowed_example :
    Ends
      (Narrowed thousandths forwards_42 seconds search 1000 100000 50)
      (narrow_down_ndr_and_pdr thousandths forwards_42 seconds 62 search idle 1000 100000 50)
narrow_down_ndr_and_pdr-Narrowed_example =
    narrow_down_ndr_and_pdr-Narrowed thousandths forwards_42 seconds search idle 61 1000 100000 50
      ordered patient_61 refl

new_interval-IsValid_example :
    Yields
      (λ i.
        WellFormed thousandths i
        × IsValid thousandths 50 i
        × (((i.measured_low ≡ sample 45000 20) × (i.measured_high ≡ sample 80000 475))
            ⊎ ((i.measured_low ≡ sample 40000 0) × (i.measured_high ≡ sample 45000 20))))
      (new_interval thousandths (between_40_and 80000 475) (sample 45000 20) 50)
new_interval-IsValid_example =
    new_interval-IsValid thousandths (between_40_and 80000 475) (sample 45000 20) 50 ordered
      told_apart (refl, refl) (refl, refl)

-- A trial of thirty seconds.
abbrev LongTrial : ReceiveRateMeasurement ℕ → Type 0
LongTrial m = m.duration ≡ 30000

updated_in_order :
    Yields
      (Bounded thousandths LongTrial)
      (new_interval thousandths (between_40_and 80000 475) (sample 45000 20) 50)
updated_in_order =
    new_interval-Bounded thousandths LongTrial (between_40_and 80000 475) (sample 45000 20) 50
      ordered ((refl, refl), refl, refl) refl

next_rate-Settled_example :
    Settled thousandths (state_at 44000 80) (between_40_and 44000 80) 0
    × Settled thousandths (state_at 44000 80) (between_40_and 44000 80) 50
unfolding next_rate ndrpdr_loss_fraction ndrpdr_width_goal ndrpdr_duration
next_rate-Settled_example =
    next_rate-Settled thousandths search (state_at 44000 80) ordered refl refl

irreflexive_ltb : (a : ℕ) → ltb a a ≡ false
irreflexive_ltb a = ground arith

-- Doubling a width of a tenth gives 189 thousandths.
expands_down : (rate : ℕ) → ltb rate 1000 ≡ false → ltb rate (rate * 811 / 1000) ≡ false
expands_down rate h = ground arith

expands_up : (rate : ℕ) → ltb rate 1000 ≡ false → ltb (rate * 1000 / 811) rate ≡ false
expands_up rate h = ground arith

abbrev expanding : Expanding thousandths 1000 100 1
unfolding expand_down expand_up double_relative_width
expanding = record { down = expands_down; up = expands_up }

ndrpdr_loss_fraction-IsAllowed_example :
    Yields
      (IsAllowedIfAny thousandths (state_at 44000 0))
      (ndrpdr_loss_fraction thousandths search (state_at 44000 0) 100 100)
ndrpdr_loss_fraction-IsAllowed_example =
    ndrpdr_loss_fraction-IsAllowed thousandths search (state_at 44000 0) ordered irreflexive_ltb
      refl 100 100 expanding expanding (refl, refl) (refl, refl) (refl, refl) (refl, refl)

next_for_no_loss :
    ndrpdr_loss_fraction thousandths search (state_at 44000 0) 100 100 ≡ ok (some 54254)
unfolding program
next_for_no_loss = refl
