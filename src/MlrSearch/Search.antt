-- ===== src/MlrSearch/Search.antt =====
-- resources/libraries/python/MLRsearch/MultipleLossRatioSearch.py: the phases, and the whole search.
use csit.Base.{ℕ, zero, suc, Bool, true, false, ◌&&◌, Option, some, List, if◌then◌else◌}
use csit.Base.Result.{Result, ok, ◌>>=◌}
use csit.MlrSearch.{
  Floats, ReceiveRateMeasurement, ReceiveRateInterval, NdrPdrResult, ProgressState,
  MultipleLossRatioSearch, larger, smaller, receive_rate_interval, double_relative_width, doubled,
}
use csit.MlrSearch.Phase.{World, and_then, measured, read_clock, ndrpdr_loop}

module _ {F : Type 0} (ops : Floats F) where
  -- The duration of the phase before, which is the `suc phases`th.
  unfoldable pub shorter_duration : MultipleLossRatioSearch F → ℕ → F → Result F
  shorter_duration self phases duration = do
    duration_multiplier ← ops.div duration self.initial_trial_duration
    phase_exponent ← ops.div (ops.of_nat phases) (ops.of_nat (suc phases))
    power ← ops.pow duration_multiplier phase_exponent
    ok (ops.mul self.initial_trial_duration power)

  -- `state` for the phase before, and for this phase again.
  abbrev pub preceding : ProgressState F → ℕ → F → ProgressState F
  preceding state phases duration = record state {
    phases = phases;
    duration = duration;
    width_goal = double_relative_width ops state.width_goal;
  }

  abbrev pub restored : ProgressState F → ℕ → F → F → ProgressState F
  restored state phases duration width_goal = record state {
    phases = phases;
    duration = duration;
    width_goal = width_goal;
  }

  -- The two measurements to start with: at a rate above the other unless the bounds get sorted.
  abbrev pub in_order :
      Bool → ReceiveRateMeasurement F → ReceiveRateMeasurement F → Result (ReceiveRateInterval F)
  in_order true mrr_measurement second = receive_rate_interval ops mrr_measurement second
  in_order false mrr_measurement second = receive_rate_interval ops second mrr_measurement

  -- The state for a result, before the final phase and those before it.
  abbrev pub starting_state :
      MultipleLossRatioSearch F → NdrPdrResult F → F → F → F → ProgressState F
  starting_state self result minimum_transmit_rate maximum_transmit_rate packet_loss_ratio =
      record {
        result = result;
        phases = self.number_of_intermediate_phases;
        duration = self.final_trial_duration;
        width_goal = self.final_relative_width;
        packet_loss_ratio = packet_loss_ratio;
        minimum_transmit_rate = minimum_transmit_rate;
        maximum_transmit_rate = maximum_transmit_rate;
      }

  module _ (measure : List (ReceiveRateMeasurement F) → F → F → Result (ReceiveRateMeasurement F))
      (clock : ℕ → F) where
    -- `ndrpdr` of a state with a number of phases to go before, which the recursion is on.
    unfoldable pub ndrpdr_phases :
        ℕ
        → MultipleLossRatioSearch F
        → ℕ
        → World F
        → ProgressState F
        → Option (Result (World F × ProgressState F))
    ndrpdr_phases rounds self zero world state =
        ndrpdr_loop ops measure clock rounds self (ops.add (clock world.readings) self.timeout)
          (read_clock ops measure clock world, state)
    ndrpdr_phases rounds self (suc phases) world state =
        and_then (some (shorter_duration self phases state.duration)) (λ duration.
          and_then
            (ndrpdr_phases rounds self phases (read_clock ops measure clock world)
              (preceding state phases duration))
            (λ (after, next).
              ndrpdr_loop ops measure clock rounds self
                (ops.add (clock world.readings) self.timeout)
                (after, restored next (suc phases) state.duration state.width_goal)))

    unfoldable pub ndrpdr :
        ℕ
        → MultipleLossRatioSearch F
        → World F
        → ProgressState F
        → Option (Result (World F × ProgressState F))
    ndrpdr rounds self world state = ndrpdr_phases rounds self state.phases world state

    -- The second rate, and the interval with a measurement there, if it is strictly within the limits.
    unfoldable pub second_rate : F → ReceiveRateMeasurement F → F → Result F
    second_rate mrr mrr_measurement kept =
        if ops.lt ops.null mrr_measurement.loss_fraction
        then ok (smaller ops (ops.mul mrr kept) mrr_measurement.receive_rate)
        else ops.div mrr kept

    unfoldable pub narrower_start :
        MultipleLossRatioSearch F
        → World F
        → ReceiveRateMeasurement F
        → ReceiveRateMeasurement F
        → F
        → F
        → Bool
        → Result (World F × ReceiveRateInterval F)
    narrower_start self world line_measurement mrr_measurement mrr mrr2 true = do
      (after, second) ← measured ops measure clock world self.initial_trial_duration mrr2
      interval ← in_order (ops.lt mrr mrr2) mrr_measurement second
      ok (after, interval)
    narrower_start self world line_measurement mrr_measurement mrr mrr2 false = do
      interval ← receive_rate_interval ops mrr_measurement line_measurement
      ok (world, interval)

    -- The initial phase.
    unfoldable pub starting_interval :
        MultipleLossRatioSearch F → World F → F → F → Result (World F × ReceiveRateInterval F)
    starting_interval self world minimum_transmit_rate maximum_transmit_rate = do
      (after_line, line_measurement) ←
          measured ops measure clock world self.initial_trial_duration maximum_transmit_rate
      let initial_width_goal =
          doubled ops self.number_of_intermediate_phases self.final_relative_width
      let kept = ops.sub ops.unit initial_width_goal
      let max_lo = ops.mul maximum_transmit_rate kept
      let mrr = larger ops minimum_transmit_rate (smaller ops max_lo line_measurement.receive_rate)
      (after_mrr, mrr_measurement) ←
          measured ops measure clock after_line self.initial_trial_duration mrr
      mrr2 ← second_rate mrr mrr_measurement kept
      narrower_start self after_mrr line_measurement mrr_measurement mrr mrr2
          (ops.lt minimum_transmit_rate mrr2 && ops.lt mrr2 maximum_transmit_rate)

    unfoldable pub narrow_down_ndr_and_pdr :
        ℕ
        → MultipleLossRatioSearch F
        → World F
        → F
        → F
        → F
        → Option (Result (World F × NdrPdrResult F))
    narrow_down_ndr_and_pdr rounds self world minimum_transmit_rate maximum_transmit_rate
          packet_loss_ratio =
        and_then (some (starting_interval self world minimum_transmit_rate maximum_transmit_rate))
          (λ (after, interval).
            and_then
              (ndrpdr rounds self after (
                starting_state self (record { ndr_interval = interval; pdr_interval = interval })
                  minimum_transmit_rate maximum_transmit_rate packet_loss_ratio))
              (λ (last, state). some (ok (last, state.result))))
