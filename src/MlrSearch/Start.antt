-- ===== src/MlrSearch/Start.antt =====
-- The initial phase of resources/libraries/python/MLRsearch/MultipleLossRatioSearch.py, and the whole
-- search.
use csit.Base.{ℕ, suc, Bool, true, false, some, List, ◌∷◌, ◌≡◌, refl, sym, ap, ◌∙◌, inl, inr, arith}
use csit.Base.Result.{Result}
use csit.MlrSearch.{
  Floats, ReceiveRateMeasurement, ReceiveRateInterval, NdrPdrResult, MultipleLossRatioSearch,
}
use csit.MlrSearch.Intervals.{Order, Yields, Yields->>=, Bounded, receive_rate_interval-Bounded}
use csit.MlrSearch.Phase.{World, next_rate}
use csit.MlrSearch.Search.{
  in_order, second_rate, narrower_start, starting_interval, starting_state, narrow_down_ndr_and_pdr,
  ndrpdr,
}
use csit.MlrSearch.Rates.{Settled, next_rate-Settled}
use csit.MlrSearch.Finish.{
  Ends, Ends-and_then, Ends-Yields, Yields-any, Taken, Remembered, measured-Remembered, Patience,
  Searched, Done, ndrpdr_phases-Done,
}

module _ {F : Type 0} (ops : Floats F)
    (measure : List (ReceiveRateMeasurement F) → F → F → Result (ReceiveRateMeasurement F))
    (clock : ℕ → F) where
  abbrev pub Started : World F × ReceiveRateInterval F → Type 0
  Started (after, interval) = Bounded ops (Taken ops measure clock after.measurements) interval

  in_order-Bounded :
      (P : ReceiveRateMeasurement F → Type 0) (test : Bool) (m n : ReceiveRateMeasurement F)
      → Order ops
      → P m
      → P n
      → Yields (Bounded ops P) (in_order ops test m n)
  in_order-Bounded P true m n order h k = receive_rate_interval-Bounded ops P m n order h k
  in_order-Bounded P false m n order h k = receive_rate_interval-Bounded ops P n m order k h

  narrower_start-Started :
      (self : MultipleLossRatioSearch F) (world : World F) (line mrr_m : ReceiveRateMeasurement F)
      (mrr mrr2 : F) (within : Bool)
      → Order ops
      → Taken ops measure clock world.measurements line
      → Taken ops measure clock world.measurements mrr_m
      → Yields Started (narrower_start ops measure clock self world line mrr_m mrr mrr2 within)
  unfolding narrower_start
  narrower_start-Started self world line mrr_m mrr mrr2 true order h k =
      Yields->>= (Remembered ops measure clock world) Started _ _
        (measured-Remembered ops measure clock world self.initial_trial_duration mrr2)
        (λ (after, second) e.
          let P = Taken ops measure clock (second ∷ world.measurements) in
          Yields->>= (Bounded ops P) Started _ _
            (in_order-Bounded P (ops.lt mrr mrr2) mrr_m second order (inr k) (inl refl))
            (λ interval bounded. rw e bounded))
  narrower_start-Started self world line mrr_m mrr mrr2 false order h k =
      let P = Taken ops measure clock world.measurements in
      Yields->>= (Bounded ops P) Started _ _
        (receive_rate_interval-Bounded ops P mrr_m line order k h) (λ interval bounded. bounded)

  pub starting_interval-Started :
      (self : MultipleLossRatioSearch F) (world : World F) (min_rate max_rate : F)
      → Order ops
      → Yields Started (starting_interval ops measure clock self world min_rate max_rate)
  unfolding starting_interval
  starting_interval-Started self world min_rate max_rate order =
      Yields->>= (Remembered ops measure clock world) Started _ _
        (measured-Remembered ops measure clock world self.initial_trial_duration max_rate)
        (λ (after, line) e.
          Yields->>= (Remembered ops measure clock after) Started _ _
            (measured-Remembered ops measure clock after self.initial_trial_duration _)
            (λ (after_2, mrr_m) e_2.
              Yields->>= (λ _. Unit {0}) Started (second_rate ops measure clock _ mrr_m _) _
                (Yields-any _)
                (λ mrr2 _.
                  narrower_start-Started self after_2 line mrr_m _ mrr2 _ order
                    (rw (e_2, e) (inr (inl refl))) (rw e_2 (inl refl)))))

  -- What holds of the result of the search.
  abbrev pub Narrowed : MultipleLossRatioSearch F → F → F → F → World F × NdrPdrResult F → Type 0
  Narrowed self min_rate max_rate packet_loss_ratio (world, result) =
      let state = starting_state ops self result min_rate max_rate packet_loss_ratio in
      Searched ops measure clock world result
      × Settled ops state result.ndr_interval ops.null
      × Settled ops state result.pdr_interval packet_loss_ratio

  -- When the clock passes the timeout within a number of readings, and the goal of width is positive, the
  -- search comes to an end within one more round per phase: it raises, or it returns two intervals in
  -- order, with bounds that were measured, which are settled for the final duration and width.
  pub narrow_down_ndr_and_pdr-Narrowed :
      (self : MultipleLossRatioSearch F) (world : World F) (patience : ℕ)
      (min_rate max_rate packet_loss_ratio : F)
      → Order ops
      → Patience ops measure clock self patience
      → ops.lt ops.null self.final_relative_width ≡ true
      → Ends (Narrowed self min_rate max_rate packet_loss_ratio) (
          narrow_down_ndr_and_pdr ops measure clock
            (suc patience)
            self
            world
            min_rate
            max_rate
            packet_loss_ratio)
  unfolding narrow_down_ndr_and_pdr ndrpdr
  narrow_down_ndr_and_pdr-Narrowed self world patience min_rate max_rate packet_loss_ratio order
        patient positive =
      let Q = Narrowed self min_rate max_rate packet_loss_ratio in
      Ends-and_then Started Q
        (some (starting_interval ops measure clock self world min_rate max_rate)) _
        (Ends-Yields Started (starting_interval ops measure clock self world min_rate max_rate)
          (starting_interval-Started self world min_rate max_rate order))
        (λ (after, interval) started.
          let result : NdrPdrResult F = record {
            ndr_interval = interval;
            pdr_interval = interval;
          } in
          let state = starting_state ops self result min_rate max_rate packet_loss_ratio in
          Ends-and_then (Done ops measure clock self state after.readings) Q _ _
            (ndrpdr_phases-Done ops measure clock self patience order patient (suc patience)
              state.phases after state (omega arith) refl (started, started))
            (λ (last, final) ((found, same, _), done).
              let settled =
                next_rate-Settled ops self
                  (starting_state ops self final.result min_rate max_rate packet_loss_ratio) order
                  positive (ap (next_rate ops self) (sym same) ∙ done) in
              (found, settled.0, settled.1)))
