-- ===== src/MlrSearch/Rates.antt =====
-- The choice of the next rate in resources/libraries/python/MLRsearch/MultipleLossRatioSearch.py: what
-- holds when none is left, and where the rates for too much or too little loss lie.
use csit.Base.{ℕ, Bool, true, false, ◌&&◌, Option, none, some, ◌≡◌, ◌≢◌, refl, ◌⊎◌, arith}
use csit.Base.Result.{Result, ok, raise, ◌>>=◌}
use csit.MlrSearch.{
  Floats, ReceiveRateMeasurement, ReceiveRateInterval, ProgressState, MultipleLossRatioSearch,
  smaller, expand_down, expand_up, half_step_up,
}
use csit.MlrSearch.Intervals.{Order, Yields, Yields->>=}
use csit.MlrSearch.Phase.{
  lower_rate, upper_rate, or_else, unless_chosen, hopeless, left_width, next_rate,
  ndrpdr_loss_fraction, ndrpdr_width_goal, ndrpdr_duration,
}

module _ {F : Type 0} (ops : Floats F) where
  or_else-none :
      (chosen : Option F) (next : Result (Option F))
      → or_else ops chosen next ≡ ok none
      → (chosen ≡ none) × (next ≡ ok none)
  or_else-none none next h = (refl, h)
  or_else-none (some rate) next h = cc

  unless_chosen-none :
      (first next : Result (Option F))
      → unless_chosen ops first next ≡ ok none
      → (first ≡ ok none) × (next ≡ ok none)
  unless_chosen-none (raise e) next h = cc
  unless_chosen-none (ok none) next h = (refl, h)
  unless_chosen-none (ok (some rate)) next h = cc

  some-not_none :
      (m : Result F) (change : F → F) → (m >>= λ rate. ok (some (change rate))) ≢ ok none
  some-not_none (raise e) change h = cc
  some-not_none (ok rate) change h = cc

  -- What is true of an interval when no rate is left to measure at: for each bound, its loss is on the
  -- right side or its rate at the limit; the interval is narrow and the bounds were measured for long
  -- enough, or a lower bound at the minimal rate still loses too much.
  pub record Settled (state : ProgressState F) (i : ReceiveRateInterval F) (allowed : F)
      : Type 0 where
    pub low_valid :
        (ops.lt allowed i.measured_low.loss_fraction ≡ false)
        ⊎ (hopeless ops state i.measured_low allowed ≡ true)
    pub high_valid :
        (ops.le i.measured_high.loss_fraction allowed ≡ false)
        ⊎ (ops.lt i.measured_high.target_tr state.maximum_transmit_rate ≡ false)
    pub narrow :
        (ops.lt state.width_goal i.rel_tr_width ≡ false)
        ⊎ (hopeless ops state i.measured_low allowed ≡ true)
    pub low_long : ops.lt i.measured_low.duration state.duration ≡ false
    pub high_long :
        (ops.lt i.measured_high.duration state.duration ≡ false)
        ⊎ (hopeless ops state i.measured_low allowed ≡ true)

  module _ (self : MultipleLossRatioSearch F) (state : ProgressState F) where
    lower_rate-none :
        (lo : ReceiveRateMeasurement F) (allowed rel_width : F)
        → Order ops
        → lower_rate ops self state lo allowed rel_width ≡ none
        → (ops.lt allowed lo.loss_fraction ≡ false) ⊎ (hopeless ops state lo allowed ≡ true)
    lower_rate-none lo allowed rel_width order h =
        let low = order.total state.minimum_transmit_rate lo.target_tr in ground arith

    upper_rate-none :
        (hi : ReceiveRateMeasurement F) (allowed rel_width : F)
        → upper_rate ops self state hi allowed rel_width ≡ ok none
        → (ops.le hi.loss_fraction allowed ≡ false)
          ⊎ (ops.lt hi.target_tr state.maximum_transmit_rate ≡ false)
    upper_rate-none hi allowed rel_width h =
        let chosen =
          some-not_none (expand_up ops rel_width self.doublings hi.target_tr)
            (smaller ops state.maximum_transmit_rate) in
        ground arith

    ndrpdr_width_goal-none :
        (ndr_rel_width pdr_rel_width : F)
        → ndrpdr_width_goal ops state ndr_rel_width pdr_rel_width ≡ ok none
        → (ops.lt state.width_goal ndr_rel_width ≡ false)
          × (ops.lt state.width_goal pdr_rel_width ≡ false)
    unfolding ndrpdr_width_goal
    ndrpdr_width_goal-none ndr_rel_width pdr_rel_width h =
        let ndr = half_step_up ops ndr_rel_width state.result.ndr_interval.measured_low.target_tr in
        let pdr = half_step_up ops pdr_rel_width state.result.pdr_interval.measured_low.target_tr in
        let ndr_chosen = some-not_none ndr (λ rate. rate) in
        let pdr_chosen = some-not_none pdr (λ rate. rate) in ground arith

    left_width-narrow :
        (i : ReceiveRateInterval F) (allowed : F)
        → ops.lt state.width_goal (left_width ops state i allowed) ≡ false
        → (ops.lt state.width_goal i.rel_tr_width ≡ false)
          ⊎ (hopeless ops state i.measured_low allowed ≡ true)
    left_width-narrow i allowed h = ground arith

    left_width-positive :
        (i : ReceiveRateInterval F) (allowed : F)
        → Order ops
        → ops.lt ops.null state.width_goal ≡ true
        → (ops.lt ops.null (left_width ops state i allowed) ≡ true)
          ⊎ (hopeless ops state i.measured_low allowed ≡ true)
    left_width-positive i allowed order h =
        let t = order.transitive ops.null state.width_goal i.rel_tr_width in ground arith

    ndrpdr_duration-none :
        (ndr_rel_width pdr_rel_width : F)
        → ndrpdr_duration ops state ndr_rel_width pdr_rel_width ≡ none
        → (ops.lt state.result.ndr_interval.measured_low.duration state.duration ≡ false)
          × (ops.lt state.result.pdr_interval.measured_low.duration state.duration ≡ false)
          × ((ops.lt state.result.ndr_interval.measured_high.duration state.duration
                && ops.lt ops.null ndr_rel_width)
              ≡ false)
          × ((ops.lt state.result.pdr_interval.measured_high.duration state.duration
                && ops.lt ops.null pdr_rel_width)
              ≡ false)
    unfolding ndrpdr_duration
    ndrpdr_duration-none ndr_rel_width pdr_rel_width h = ground arith

  settled :
      (self : MultipleLossRatioSearch F) (state : ProgressState F) (i : ReceiveRateInterval F)
      (allowed rel_width : F)
      → Order ops
      → ops.lt ops.null state.width_goal ≡ true
      → lower_rate ops self state i.measured_low allowed rel_width ≡ none
      → upper_rate ops self state i.measured_high allowed rel_width ≡ ok none
      → ops.lt state.width_goal (left_width ops state i allowed) ≡ false
      → ops.lt i.measured_low.duration state.duration ≡ false
      → (ops.lt i.measured_high.duration state.duration
          && ops.lt ops.null (left_width ops state i allowed))
        ≡ false
      → Settled state i allowed
  settled self state i allowed rel_width order positive low high narrow low_long high_long =
      record {
        low_valid = lower_rate-none self state i.measured_low allowed rel_width order low;
        high_valid = upper_rate-none self state i.measured_high allowed rel_width high;
        narrow = left_width-narrow self state i allowed narrow;
        low_long = low_long;
        high_long = long _ _ _ (left_width-positive self state i allowed order positive) high_long;
      }
    where
      long :
          (short positive hopeless : Bool)
          → (positive ≡ true) ⊎ (hopeless ≡ true)
          → (short && positive) ≡ false
          → (short ≡ false) ⊎ (hopeless ≡ true)
      long short positive hopeless h k = ground arith

  -- When no rate is left to measure at, with a positive goal of width, both intervals are settled: for
  -- zero loss, and for the loss ratio.
  pub next_rate-Settled :
      (self : MultipleLossRatioSearch F) (state : ProgressState F)
      → Order ops
      → ops.lt ops.null state.width_goal ≡ true
      → next_rate ops self state ≡ ok none
      → Settled state state.result.ndr_interval ops.null
        × Settled state state.result.pdr_interval state.packet_loss_ratio
  unfolding next_rate ndrpdr_loss_fraction
  next_rate-Settled self state order positive h =
      let (by_loss, rest) = unless_chosen-none _ _ h in
      let (by_width, by_duration) = unless_chosen-none _ _ rest in
      let (ndr_lo, rest_2) = or_else-none _ _ by_loss in
      let (pdr_lo, rest_3) = or_else-none _ _ rest_2 in
      let (ndr_hi, pdr_hi) = unless_chosen-none _ _ rest_3 in
      let (ndr_narrow, pdr_narrow) = ndrpdr_width_goal-none self state _ _ by_width in
      let (ndr_low, pdr_low, ndr_high, pdr_high) =
        ndrpdr_duration-none self state _ _ (ok-inj _ _ by_duration) in
      (
        settled self state state.result.ndr_interval ops.null _ order positive ndr_lo ndr_hi
            ndr_narrow ndr_low ndr_high,
        settled self state state.result.pdr_interval state.packet_loss_ratio _ order positive pdr_lo
            pdr_hi pdr_narrow pdr_low pdr_high,
      )
    where
      ok-inj : (a b : Option F) → ok a ≡ ok b → a ≡ b
      ok-inj a b e = cc

  -- Expanding by a relative width moves a rate that is large enough down, or up.
  pub record Expanding (least w : F) (doublings : ℕ) : Type 0 where
    pub down :
        (rate : F)
        → ops.lt rate least ≡ false
        → ops.lt rate (expand_down ops w doublings rate) ≡ false
    pub up :
        (rate : F)
        → ops.lt rate least ≡ false
        → Yields (λ r. ops.lt r rate ≡ false) (expand_up ops w doublings rate)

  abbrev pub IsAllowed : ProgressState F → F → Type 0
  IsAllowed state rate =
      (ops.lt rate state.minimum_transmit_rate ≡ false)
      × (ops.lt state.maximum_transmit_rate rate ≡ false)

  abbrev pub IsAllowedIfAny : ProgressState F → Option F → Type 0
  IsAllowedIfAny state none = Unit
  IsAllowedIfAny state (some rate) = IsAllowed state rate

  module _ (self : MultipleLossRatioSearch F) (state : ProgressState F) (order : Order ops)
      (irreflexive : (a : F) → ops.lt a a ≡ false)
      (limits : ops.lt state.maximum_transmit_rate state.minimum_transmit_rate ≡ false) where
    lower_rate-IsAllowed :
        (lo : ReceiveRateMeasurement F) (allowed rel_width : F)
        → Expanding state.minimum_transmit_rate rel_width self.doublings
        → IsAllowed state lo.target_tr
        → IsAllowedIfAny state (lower_rate ops self state lo allowed rel_width)
    lower_rate-IsAllowed lo allowed rel_width expanding (above, below) =
        let lower = expand_down ops rel_width self.doublings lo.target_tr in
        let down = expanding.down lo.target_tr above in
        let high = order.splits state.maximum_transmit_rate lo.target_tr lower in
        let low = order.asymmetric state.minimum_transmit_rate lower in
        let same = irreflexive state.minimum_transmit_rate in ground arith

    upper_rate-IsAllowed :
        (hi : ReceiveRateMeasurement F) (allowed rel_width : F)
        → Expanding state.minimum_transmit_rate rel_width self.doublings
        → IsAllowed state hi.target_tr
        → Yields (IsAllowedIfAny state) (upper_rate ops self state hi allowed rel_width)
    upper_rate-IsAllowed hi allowed rel_width expanding (above, below) =
        let m : Result F = expand_up ops rel_width self.doublings hi.target_tr in
        let same = irreflexive state.maximum_transmit_rate in
        let expanded : Yields (IsAllowedIfAny state)
            (m >>= λ r. ok (some (smaller ops state.maximum_transmit_rate r))) =
          Yields->>= (λ r. ops.lt r hi.target_tr ≡ false) (IsAllowedIfAny state) m _
            (expanding.up hi.target_tr above)
            (λ r up.
              let low = order.splits r hi.target_tr state.minimum_transmit_rate in
              let high = order.asymmetric r state.maximum_transmit_rate in ground arith) in
        ground arith

    or_else-IsAllowed :
        (chosen : Option F) (next : Result (Option F))
        → IsAllowedIfAny state chosen
        → Yields (IsAllowedIfAny state) next
        → Yields (IsAllowedIfAny state) (or_else ops chosen next)
    or_else-IsAllowed none next h k = k
    or_else-IsAllowed (some rate) next h k = h

    unless_chosen-IsAllowed :
        (first next : Result (Option F))
        → Yields (IsAllowedIfAny state) first
        → Yields (IsAllowedIfAny state) next
        → Yields (IsAllowedIfAny state) (unless_chosen ops first next)
    unless_chosen-IsAllowed (raise e) next h k = tt
    unless_chosen-IsAllowed (ok chosen) next h k = or_else-IsAllowed chosen next h k

    -- With all bounds between the minimal and the maximal rate, which are in order, a rate that is chosen
    -- for the loss of a bound is between them too, when a step down does not go up, or a step up down.
    pub ndrpdr_loss_fraction-IsAllowed :
        (ndr_rel_width pdr_rel_width : F)
        → Expanding state.minimum_transmit_rate ndr_rel_width self.doublings
        → Expanding state.minimum_transmit_rate pdr_rel_width self.doublings
        → IsAllowed state state.result.ndr_interval.measured_low.target_tr
        → IsAllowed state state.result.ndr_interval.measured_high.target_tr
        → IsAllowed state state.result.pdr_interval.measured_low.target_tr
        → IsAllowed state state.result.pdr_interval.measured_high.target_tr
        → Yields
            (IsAllowedIfAny state)
            (ndrpdr_loss_fraction ops self state ndr_rel_width pdr_rel_width)
    unfolding ndrpdr_loss_fraction
    ndrpdr_loss_fraction-IsAllowed ndr_rel_width pdr_rel_width ndr_expands pdr_expands ndr_lo ndr_hi
          pdr_lo pdr_hi =
        let ndr = state.result.ndr_interval in
        let pdr = state.result.pdr_interval in
        let plr = state.packet_loss_ratio in
        or_else-IsAllowed _ _
          (lower_rate-IsAllowed ndr.measured_low ops.null ndr_rel_width ndr_expands ndr_lo)
          (or_else-IsAllowed _ _
            (lower_rate-IsAllowed pdr.measured_low plr pdr_rel_width pdr_expands pdr_lo)
            (unless_chosen-IsAllowed _ _
              (upper_rate-IsAllowed ndr.measured_high ops.null ndr_rel_width ndr_expands ndr_hi)
              (upper_rate-IsAllowed pdr.measured_high plr pdr_rel_width pdr_expands pdr_hi)))
