-- ===== src/MlrSearch.antt =====
-- resources/libraries/python/MLRsearch: the measurements, the intervals, and the widths of
-- MultipleLossRatioSearch.py. The operations of `float` are an argument, a record; those that raise for
-- some arguments, as a division by zero does, return a result.
pub mod Phase
pub mod Search
pub mod Intervals
pub mod Rates
pub mod Finish
mod Start
mod Tests
use csit.Base.{ℕ, zero, suc, Bool, true, false, List, if◌then◌else◌}
use csit.Base.Result.{Result, ok, raise, ◌>>=◌, zero_division_error}
use csit.Base.Int.{ℤ, ◌-ℤ◌}

pub record Floats (F : Type 0) : Type 0 where
  pub lt : F → F → Bool
  pub le : F → F → Bool
  pub eq : F → F → Bool
  pub add : F → F → F
  pub sub : F → F → F
  pub mul : F → F → F
  pub div : F → F → Result F
  pub sqrt : F → Result F
  pub log : F → Result F
  pub pow : F → F → Result F
  pub of_int : ℤ → F
  pub of_nat : ℕ → F
  -- The literals 0.0, 1.0 and 1.999.
  pub null : F
  pub unit : F
  pub nearly_two : F

-- `self.receive_count` and the rates are computed by the constructor.
pub record ReceiveRateMeasurement (F : Type 0) : Type 0 where
  pub duration : F
  pub target_tr : F
  pub transmit_count : ℤ
  pub loss_count : ℤ
  pub receive_count : ℤ
  pub transmit_rate : F
  pub loss_rate : F
  pub receive_rate : F
  pub loss_fraction : F

pub record ReceiveRateInterval (F : Type 0) : Type 0 where
  pub measured_low : ReceiveRateMeasurement F
  pub measured_high : ReceiveRateMeasurement F
  pub abs_tr_width : F
  pub rel_tr_width : F

pub record NdrPdrResult (F : Type 0) : Type 0 where
  pub ndr_interval : ReceiveRateInterval F
  pub pdr_interval : ReceiveRateInterval F

pub record ProgressState (F : Type 0) : Type 0 where
  pub result : NdrPdrResult F
  pub phases : ℕ
  pub duration : F
  pub width_goal : F
  pub packet_loss_ratio : F
  pub minimum_transmit_rate : F
  pub maximum_transmit_rate : F

-- The attributes of the search; the measurer is an argument of the operations that call it.
pub record MultipleLossRatioSearch (F : Type 0) : Type 0 where
  pub final_trial_duration : F
  pub final_relative_width : F
  pub number_of_intermediate_phases : ℕ
  pub initial_trial_duration : F
  pub timeout : F
  pub doublings : ℕ

module _ {F : Type 0} (ops : Floats F) where
  -- The builtin `max` and `min` of two: the first one, unless the second is larger, or smaller.
  abbrev pub larger : F → F → F
  larger a b = if ops.lt a b then b else a

  abbrev pub smaller : F → F → F
  smaller a b = if ops.lt b a then b else a

  unfoldable pub receive_rate_measurement : F → F → ℤ → ℤ → Result (ReceiveRateMeasurement F)
  receive_rate_measurement duration target_tr transmit_count loss_count = do
    let receive_count = transmit_count -ℤ loss_count
    transmit_rate ← ops.div (ops.of_int transmit_count) duration
    loss_rate ← ops.div (ops.of_int loss_count) duration
    receive_rate ← ops.div (ops.of_int receive_count) duration
    loss_fraction ← ops.div (ops.of_int loss_count) (ops.of_int transmit_count)
    ok (record {
      duration = duration;
      target_tr = target_tr;
      transmit_count = transmit_count;
      loss_count = loss_count;
      receive_count = receive_count;
      transmit_rate = transmit_rate;
      loss_rate = loss_rate;
      receive_rate = receive_rate;
      loss_fraction = loss_fraction;
    })

  -- `sort`, for bounds in order, and the secondary quantities.
  abbrev pub with_widths :
      ReceiveRateMeasurement F → ReceiveRateMeasurement F → Result (ReceiveRateInterval F)
  with_widths low high = do
    let abs_tr_width = ops.sub high.target_tr low.target_tr
    rel_tr_width ← ops.div abs_tr_width high.target_tr
    ok (record {
      measured_low = low;
      measured_high = high;
      abs_tr_width = abs_tr_width;
      rel_tr_width = rel_tr_width;
    })

  -- The constructor, which sorts the bounds.
  unfoldable pub receive_rate_interval :
      ReceiveRateMeasurement F → ReceiveRateMeasurement F → Result (ReceiveRateInterval F)
  receive_rate_interval low high =
      if ops.lt high.target_tr low.target_tr then with_widths high low else with_widths low high

  abbrev pub width_in_goals : ReceiveRateInterval F → F → Result F
  width_in_goals self relative_width_goal = do
    width ← ops.log (ops.sub ops.unit self.rel_tr_width)
    goal ← ops.log (ops.sub ops.unit relative_width_goal)
    ops.div width goal

  -- The two numbers of the message.
  unfoldable pub result_width_in_goals : NdrPdrResult F → F → Result (F × F)
  result_width_in_goals self relative_width_goal = do
    ndr ← width_in_goals self.ndr_interval relative_width_goal
    pdr ← width_in_goals self.pdr_interval relative_width_goal
    ok (ndr, pdr)

  unfoldable pub double_relative_width : F → F
  double_relative_width relative_width =
      ops.sub (ops.mul ops.nearly_two relative_width) (ops.mul relative_width relative_width)

  abbrev pub doubled : ℕ → F → F
  doubled zero relative_width = relative_width
  doubled (suc n) relative_width = doubled n (double_relative_width relative_width)

  unfoldable pub double_step_down : F → F → F
  double_step_down relative_width current_bound =
      ops.mul current_bound (ops.sub ops.unit (double_relative_width relative_width))

  unfoldable pub expand_down : F → ℕ → F → F
  expand_down relative_width doublings current_bound =
      ops.mul current_bound (ops.sub ops.unit (doubled doublings relative_width))

  unfoldable pub double_step_up : F → F → Result F
  double_step_up relative_width current_bound =
      ops.div current_bound (ops.sub ops.unit (double_relative_width relative_width))

  unfoldable pub expand_up : F → ℕ → F → Result F
  expand_up relative_width doublings current_bound =
      ops.div current_bound (ops.sub ops.unit (doubled doublings relative_width))

  unfoldable pub half_relative_width : F → Result F
  half_relative_width relative_width = do
    root ← ops.sqrt (ops.sub ops.unit relative_width)
    ok (ops.sub ops.unit root)

  unfoldable pub half_step_up : F → F → Result F
  half_step_up relative_width current_bound = do
    half ← half_relative_width relative_width
    ops.div current_bound (ops.sub ops.unit half)
