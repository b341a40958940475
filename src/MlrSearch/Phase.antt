-- ===== src/MlrSearch/Phase.antt =====
-- resources/libraries/python/MLRsearch/MultipleLossRatioSearch.py: one measurement, the choice of the
-- next rate, the loop of a phase, the phases before it, and the whole search. The measurer and the clock
-- are functions of what was measured and of how often the time was read.
use csit.Base.{ℕ, zero, suc, Bool, ◌&&◌, ◌||◌, Option, none, some, List, ◌∷◌, if◌then◌else◌}
use csit.Base.Result.{Result, ok, raise, ◌>>=◌, runtime_error}
use csit.MlrSearch.{
  Floats, ReceiveRateMeasurement, ReceiveRateInterval, ProgressState, MultipleLossRatioSearch,
  larger, smaller, receive_rate_interval, result_width_in_goals, expand_down, expand_up,
  half_step_up,
}

-- What the measurer returned, the latest first, and how often the time was read.
pub record World (F : Type 0) : Type 0 where
  pub measurements : List (ReceiveRateMeasurement F)
  pub readings : ℕ

-- What follows a part of the search, unless that part raises or needs more rounds.
abbrev pub and_then {ℓ κ} :
    {A : Type ℓ} {B : Type κ} → Option (Result A) → (A → Option (Result B)) → Option (Result B)
and_then none next = none
and_then (some (raise e)) next = some (raise e)
and_then (some (ok a)) next = next a

module _ {F : Type 0} (ops : Floats F) where
  -- The interval of the new bounds, where an old one stays.
  abbrev pub bounds :
      ReceiveRateInterval F
      → Option (ReceiveRateMeasurement F)
      → Option (ReceiveRateMeasurement F)
      → Result (ReceiveRateInterval F)
  bounds old_interval none none =
      receive_rate_interval ops old_interval.measured_low old_interval.measured_high
  bounds old_interval none (some new_hi) =
      receive_rate_interval ops old_interval.measured_low new_hi
  bounds old_interval (some new_lo) none =
      receive_rate_interval ops new_lo old_interval.measured_high
  bounds old_interval (some new_lo) (some new_hi) = receive_rate_interval ops new_lo new_hi

  unfoldable pub new_interval :
      ReceiveRateInterval F → ReceiveRateMeasurement F → F → Result (ReceiveRateInterval F)
  new_interval old_interval measurement packet_loss_ratio =
      let old_lo = old_interval.measured_low in
      let old_hi = old_interval.measured_high in
      if ops.eq measurement.target_tr old_lo.target_tr
        || ops.eq measurement.target_tr old_hi.target_tr
      then (if ops.eq measurement.target_tr old_lo.target_tr
          then bounds old_interval (some measurement) none
          else bounds old_interval none (some measurement))
      else if ops.lt packet_loss_ratio old_lo.loss_fraction
      then (if ops.lt measurement.target_tr old_lo.target_tr
          then bounds old_interval (some measurement) (some old_lo)
          else ok old_interval)
      else if ops.lt measurement.target_tr old_lo.target_tr
      then (if ops.lt packet_loss_ratio measurement.loss_fraction
          then bounds old_interval (some measurement) none
          else bounds old_interval none none)
      else if ops.lt old_hi.target_tr measurement.target_tr
      then (if ops.le old_hi.loss_fraction packet_loss_ratio
          then bounds old_interval (some old_hi) (some measurement)
          else bounds old_interval none none)
      else if ops.lt packet_loss_ratio measurement.loss_fraction
      then bounds old_interval none (some measurement)
      else bounds old_interval (some measurement) none

  -- Towards the minimal rate when a lower bound loses too much, or to measure it for longer.
  abbrev pub lower_rate :
      MultipleLossRatioSearch F → ProgressState F → ReceiveRateMeasurement F → F → F → Option F
  lower_rate self state lo allowed rel_width =
      if ops.lt allowed lo.loss_fraction
      then (if ops.lt state.minimum_transmit_rate lo.target_tr
          then some (
              larger ops state.minimum_transmit_rate
                (expand_down ops rel_width self.doublings lo.target_tr))
          else if ops.lt lo.duration state.duration
          then some state.minimum_transmit_rate
          else none)
      else none

  -- Towards the maximal rate when an upper bound loses too little.
  abbrev pub upper_rate :
      MultipleLossRatioSearch F
      → ProgressState F
      → ReceiveRateMeasurement F
      → F
      → F
      → Result (Option F)
  upper_rate self state hi allowed rel_width =
      if ops.le hi.loss_fraction allowed
      then (if ops.lt hi.target_tr state.maximum_transmit_rate
          then (do
            expanded ← expand_up ops rel_width self.doublings hi.target_tr
            ok (some (smaller ops state.maximum_transmit_rate expanded)))
          else if ops.lt hi.duration state.duration
          then ok (some state.maximum_transmit_rate)
          else ok none)
      else ok none

  -- `if result is None and ...`
  abbrev pub or_else : Option F → Result (Option F) → Result (Option F)
  or_else none next = next
  or_else (some rate) next = ok (some rate)

  -- The rest of a round, unless a rate is chosen.
  abbrev pub unless_chosen : Result (Option F) → Result (Option F) → Result (Option F)
  unless_chosen (raise e) next = raise e
  unless_chosen (ok chosen) next = or_else chosen next

  unfoldable pub ndrpdr_loss_fraction :
      MultipleLossRatioSearch F → ProgressState F → F → F → Result (Option F)
  ndrpdr_loss_fraction self state ndr_rel_width pdr_rel_width =
      let ndr = state.result.ndr_interval in
      let pdr = state.result.pdr_interval in
      let plr = state.packet_loss_ratio in
      or_else (lower_rate self state ndr.measured_low ops.null ndr_rel_width) (
        or_else (lower_rate self state pdr.measured_low plr pdr_rel_width) (
          unless_chosen (upper_rate self state ndr.measured_high ops.null ndr_rel_width)
            (upper_rate self state pdr.measured_high plr pdr_rel_width)))

  unfoldable pub ndrpdr_width_goal : ProgressState F → F → F → Result (Option F)
  ndrpdr_width_goal state ndr_rel_width pdr_rel_width =
      let ndr_lo = state.result.ndr_interval.measured_low in
      let pdr_lo = state.result.pdr_interval.measured_low in
      if ops.lt state.width_goal ndr_rel_width
      then (do rate ← half_step_up ops ndr_rel_width ndr_lo.target_tr; ok (some rate))
      else if ops.lt state.width_goal pdr_rel_width
      then (do rate ← half_step_up ops pdr_rel_width pdr_lo.target_tr; ok (some rate))
      else ok none

  unfoldable pub ndrpdr_duration : ProgressState F → F → F → Option F
  ndrpdr_duration state ndr_rel_width pdr_rel_width =
      let ndr = state.result.ndr_interval in
      let pdr = state.result.pdr_interval in
      if ops.lt ndr.measured_low.duration state.duration
      then some ndr.measured_low.target_tr
      else if ops.lt pdr.measured_low.duration state.duration
      then some pdr.measured_low.target_tr
      else if ops.lt ndr.measured_high.duration state.duration && ops.lt ops.null ndr_rel_width
      then some ndr.measured_high.target_tr
      else if ops.lt pdr.measured_high.duration state.duration && ops.lt ops.null pdr_rel_width
      then some pdr.measured_high.target_tr
      else none

  -- No width is left to narrow when a lower bound at the minimal rate still loses too much.
  abbrev pub hopeless : ProgressState F → ReceiveRateMeasurement F → F → Bool
  hopeless state lo allowed =
      ops.le lo.target_tr state.minimum_transmit_rate && ops.lt allowed lo.loss_fraction

  abbrev pub left_width : ProgressState F → ReceiveRateInterval F → F → F
  left_width state interval allowed =
      if hopeless state interval.measured_low allowed
      then ops.null
      else larger ops state.width_goal interval.rel_tr_width

  -- The rate to measure at next in a phase, if one is left.
  unfoldable pub next_rate : MultipleLossRatioSearch F → ProgressState F → Result (Option F)
  next_rate self state =
      let ndr = state.result.ndr_interval in
      let pdr = state.result.pdr_interval in
      let ndr_left = left_width state ndr ops.null in
      let pdr_left = left_width state pdr state.packet_loss_ratio in
      unless_chosen
        (ndrpdr_loss_fraction self state (larger ops state.width_goal ndr.rel_tr_width)
          (larger ops state.width_goal pdr.rel_tr_width))
        (unless_chosen (ndrpdr_width_goal state ndr_left pdr_left)
          (ok (ndrpdr_duration state ndr_left pdr_left)))

  module _ (measure : List (ReceiveRateMeasurement F) → F → F → Result (ReceiveRateMeasurement F))
      (clock : ℕ → F) where
    unfoldable pub measured : World F → F → F → Result (World F × ReceiveRateMeasurement F)
    measured world duration transmit_rate = do
      measurement ← measure world.measurements duration transmit_rate
      ok (record world { measurements = measurement ∷ world.measurements }, measurement)

    -- The debug message computes the widths, and raises when a logarithm does.
    unfoldable pub measure_and_update_state :
        MultipleLossRatioSearch F
        → World F
        → ProgressState F
        → F
        → Result (World F × ProgressState F)
    measure_and_update_state self world state transmit_rate = do
      goals ← result_width_in_goals ops state.result self.final_relative_width
      (after, measurement) ← measured world state.duration transmit_rate
      ndr_interval ← new_interval state.result.ndr_interval measurement ops.null
      pdr_interval ← new_interval state.result.pdr_interval measurement state.packet_loss_ratio
      ok (
        after,
        record state {
          result = record { ndr_interval = ndr_interval; pdr_interval = pdr_interval };
        },
      )

    abbrev pub read_clock : World F → World F
    read_clock world = record world { readings = suc world.readings }

    -- How a round ends: with an exception, with the phase done, or with one more round.
    abbrev pub continued :
        MultipleLossRatioSearch F
        → World F
        → ProgressState F
        → Result (Option F)
        → (World F × ProgressState F → Option (Result (World F × ProgressState F)))
        → Option (Result (World F × ProgressState F))
    continued self world state (raise e) again = some (raise e)
    continued self world state (ok none) again = some (ok (world, state))
    continued self world state (ok (some rate)) again =
        and_then (some (measure_and_update_state self world state rate)) again

    -- The `while` loop, for a number of rounds; `none` stands for more rounds.
    unfoldable pub ndrpdr_loop :
        ℕ
        → MultipleLossRatioSearch F
        → F
        → World F × ProgressState F
        → Option (Result (World F × ProgressState F))
    ndrpdr_loop zero self deadline (world, state) = none
    ndrpdr_loop (suc rounds) self deadline (world, state) =
        if ops.lt deadline (clock world.readings)
        then some (raise runtime_error)
        else continued self (read_clock world) state (next_rate self state)
            (ndrpdr_loop rounds self deadline)
