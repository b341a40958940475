-- ===== src/MlrSearch/Finish.antt =====
-- The phases of resources/libraries/python/MLRsearch/MultipleLossRatioSearch.py: the loop of a phase and
-- the recursion over the phases end, and what holds of the state then.
use csit.Base.{
  ℕ, zero, suc, ◌+◌, ◌-◌, ◌<◌, ◌≤◌, true, false, Option, none, some, List, [], ◌∷◌, ◌≡◌, refl, sym,
  ap, ◌∙◌, ◌⊎◌, inl, inr, arith, Bool-cases,
}
use csit.Base.Result.{Result, ok, raise}
use csit.MlrSearch.{
  Floats, ReceiveRateMeasurement, ReceiveRateInterval, NdrPdrResult, ProgressState,
  MultipleLossRatioSearch, result_width_in_goals,
}
use csit.MlrSearch.Intervals.{Order, Yields, Yields->>=, Bounded, new_interval-Bounded}
use csit.MlrSearch.Phase.{
  World, and_then, measured, measure_and_update_state, continued, read_clock, ndrpdr_loop,
  next_rate, new_interval,
}
use csit.MlrSearch.Search.{shorter_duration, preceding, restored, ndrpdr_phases}

-- The call comes to an end: it raises, or returns what has a property.
abbrev pub Ends {ℓ} : {A : Type ℓ} → (A → Type 0) → Option (Result A) → Type 0
Ends P none = ⊥
Ends P (some (raise e)) = Unit
Ends P (some (ok a)) = P a

pub Ends-and_then {ℓ κ} :
    {A : Type ℓ} {B : Type κ} (P : A → Type 0) (Q : B → Type 0) (m : Option (Result A))
    (next : A → Option (Result B))
    → Ends P m
    → ((a : A) → P a → Ends Q (next a))
    → Ends Q (and_then m next)
Ends-and_then P Q none next h k = elim h [ ]
Ends-and_then P Q (some (raise e)) next h k = tt
Ends-and_then P Q (some (ok a)) next h k = k a h

pub Ends-Yields {ℓ} : {A : Type ℓ} (P : A → Type 0) (m : Result A) → Yields P m → Ends P (some m)
Ends-Yields P (raise e) h = tt
Ends-Yields P (ok a) h = h

pub Yields-any {ℓ} : {A : Type ℓ} (m : Result A) → Yields (λ _. Unit {0}) m
Yields-any (raise e) = tt
Yields-any (ok a) = tt

pub Ends-map {ℓ} :
    {A : Type ℓ} (P Q : A → Type 0) (m : Option (Result A))
    → Ends P m
    → ((a : A) → P a → Q a)
    → Ends Q m
Ends-map P Q none h k = elim h [ ]
Ends-map P Q (some (raise e)) h k = tt
Ends-map P Q (some (ok a)) h k = k a h

module _ {F : Type 0} (ops : Floats F)
    (measure : List (ReceiveRateMeasurement F) → F → F → Result (ReceiveRateMeasurement F))
    (clock : ℕ → F) where
  -- A measurement is one of those that the measurer returned.
  abbrev pub Taken : List (ReceiveRateMeasurement F) → ReceiveRateMeasurement F → Type 0
  Taken [] m = ⊥
  Taken (n ∷ ns) m = (m ≡ n) ⊎ Taken ns m

  -- Both intervals are in order, have the widths of their bounds, and have bounds that were measured.
  abbrev pub Searched : World F → NdrPdrResult F → Type 0
  Searched world result =
      Bounded ops (Taken world.measurements) result.ndr_interval
      × Bounded ops (Taken world.measurements) result.pdr_interval

  -- The state may have another result, but not another setup.
  abbrev pub SameSetup : ProgressState F → ProgressState F → Type 0
  SameSetup before after = after ≡ (record before { result = after.result })

  -- A step of a phase, from a state and a number of readings of the clock.
  abbrev pub Kept : ProgressState F → ℕ → World F × ProgressState F → Type 0
  Kept state readings (world, after) =
      Searched world after.result × SameSetup state after × (readings ≤ world.readings)

  -- A phase that is done has no rate left to measure at.
  abbrev pub Done :
      MultipleLossRatioSearch F → ProgressState F → ℕ → World F × ProgressState F → Type 0
  Done self state readings (world, after) =
      Kept state readings (world, after) × (next_rate ops self after ≡ ok none)

  -- After a number of readings, `timeout` has passed.
  abbrev pub Patience : MultipleLossRatioSearch F → ℕ → Type 0
  Patience self patience =
      (start n : ℕ)
      → start + patience ≤ n
      → ops.lt (ops.add (clock start) self.timeout) (clock n) ≡ true

  new_interval-Taken :
      (ms : List (ReceiveRateMeasurement F)) (m : ReceiveRateMeasurement F)
      (i : ReceiveRateInterval F) (packet_loss_ratio : F)
      → Order ops
      → Bounded ops (Taken ms) i
      → Yields (Bounded ops (Taken (m ∷ ms))) (new_interval ops i m packet_loss_ratio)
  new_interval-Taken ms m i packet_loss_ratio order (w, l, h) =
      new_interval-Bounded ops (Taken (m ∷ ms)) i m packet_loss_ratio order (w, inr l, inr h)
        (inl refl)

  -- A measurement is remembered, and nothing else of the world changes.
  abbrev pub Remembered : World F → World F × ReceiveRateMeasurement F → Type 0
  Remembered world (after, m) = after ≡ (record world { measurements = m ∷ world.measurements })

  pub measured-Remembered :
      (world : World F) (duration rate : F)
      → Yields (Remembered world) (measured ops measure clock world duration rate)
  unfolding measured
  measured-Remembered world duration rate =
      Yields->>= (λ _. Unit {0}) (Remembered world) (measure world.measurements duration rate) _
        (Yields-any _) (λ m _. refl)

  measure_and_update_state-Kept :
      (self : MultipleLossRatioSearch F) (world : World F) (state : ProgressState F) (rate : F)
      → Order ops
      → Searched world state.result
      → Yields
          (Kept state world.readings)
          (measure_and_update_state ops measure clock self world state rate)
  unfolding measure_and_update_state
  measure_and_update_state-Kept self world state rate order (ndr, pdr) =
      let Q = Kept state world.readings in
      let P = λ (m : ReceiveRateMeasurement F). Bounded ops (Taken (m ∷ world.measurements)) in
      Yields->>= _ Q (result_width_in_goals ops state.result self.final_relative_width) _
        (Yields-any _)
        (λ goals _.
          Yields->>= (Remembered world) Q _ _ (measured-Remembered world state.duration rate)
            (λ (after, m) e.
              Yields->>= (P m) Q _ _
                (new_interval-Taken _ m state.result.ndr_interval ops.null order ndr)
                (λ ndr_interval ndr_kept.
                  Yields->>= (P m) Q _ _
                    (new_interval-Taken _ m state.result.pdr_interval state.packet_loss_ratio order
                      pdr)
                    (λ pdr_interval pdr_kept. rw e ((ndr_kept, pdr_kept), refl, omega arith)))))

  SameSetup-trans : (a b c : ProgressState F) → SameSetup a b → SameSetup b c → SameSetup a c
  SameSetup-trans a b c h k = k ∙ ap (λ (s : ProgressState F). record s { result = c.result }) h

  restored-SameSetup :
      (state next : ProgressState F) (phases : ℕ) (duration : F)
      → state.phases ≡ suc phases
      → SameSetup (preceding ops state phases duration) next
      → SameSetup state (restored ops next (suc phases) state.duration state.width_goal)
  restored-SameSetup state next phases duration same kept =
      ap (λ s. restored ops s (suc phases) state.duration state.width_goal) kept
      ∙ ap (λ p. record state { result = next.result; phases = p }) (sym same)

  module _ (self : MultipleLossRatioSearch F) (patience : ℕ) (order : Order ops)
      (patient : Patience self patience) where
    continued-Done :
        (world : World F) (state : ProgressState F) (next : Result (Option F))
        (again : World F × ProgressState F → Option (Result (World F × ProgressState F)))
        → Searched world state.result
        → next_rate ops self state ≡ next
        → ((after : World F) (later : ProgressState F)
            → Kept state world.readings (after, later)
            → Ends (Done self later after.readings) (again (after, later)))
        → Ends
            (Done self state world.readings)
            (continued ops measure clock self world state next again)
    continued-Done world state (raise e) again searched h k = tt
    continued-Done world state (ok none) again searched h k = ((searched, refl, omega arith), h)
    continued-Done world state (ok (some rate)) again searched h k =
        Ends-and_then (Kept state world.readings) (Done self state world.readings)
          (some (measure_and_update_state ops measure clock self world state rate)) again
          (Ends-Yields (Kept state world.readings)
            (measure_and_update_state ops measure clock self world state rate)
            (measure_and_update_state-Kept self world state rate order searched))
          (λ (after, later) (found, same, more).
            Ends-map (Done self later after.readings) (Done self state world.readings) _
              (k after later (found, same, more))
              (λ (last, final) ((found_2, same_2, more_2), done).
                ((found_2, SameSetup-trans state later final same same_2, omega arith), done)))

    before_timeout :
        (start n : ℕ)
        → ops.lt (ops.add (clock start) self.timeout) (clock n) ≡ false
        → n < start + patience
    before_timeout start n early = let late = patient start n in ground arith

    ndrpdr_loop-Done :
        (rounds start : ℕ) (world : World F) (state : ProgressState F)
        → start ≤ world.readings
        → suc (start + patience - world.readings) ≤ rounds
        → Searched world state.result
        → Ends (Done self state world.readings) (
            ndrpdr_loop ops measure clock rounds self
              (ops.add (clock start) self.timeout)
              (world, state))
    unfolding ndrpdr_loop
    ndrpdr_loop-Done zero start world state later enough searched = elim enough [ ]
    ndrpdr_loop-Done (suc rounds) start world state later enough searched =
        let deadline = ops.add (clock start) self.timeout in
        elim (Bool-cases (ops.lt deadline (clock world.readings))) [
          | inl late ↦ rw late tt
          | inr early ↦
              let in_time : world.readings < start + patience =
                before_timeout start world.readings early in
              rw early (
                Ends-map (Done self state (suc world.readings)) (Done self state world.readings) _
                  (continued-Done (read_clock ops measure clock world) state
                    (next_rate ops self state) (ndrpdr_loop ops measure clock rounds self deadline)
                    searched refl
                    (λ after next (found, same, more).
                      ndrpdr_loop-Done rounds start after next (omega arith) (omega arith) found))
                  (λ (last, final) ((found, same, more), done). ((found, same, omega arith), done)))
        ]

    -- The recursion over the phases: a phase starts from the state that the one before left.
    pub ndrpdr_phases-Done :
        (rounds phases : ℕ) (world : World F) (state : ProgressState F)
        → suc patience ≤ rounds
        → state.phases ≡ phases
        → Searched world state.result
        → Ends
            (Done self state world.readings)
            (ndrpdr_phases ops measure clock rounds self phases world state)
    unfolding ndrpdr_phases
    ndrpdr_phases-Done rounds zero world state enough same searched =
        Ends-map (Done self state (suc world.readings)) (Done self state world.readings) _
          (ndrpdr_loop-Done rounds world.readings (read_clock ops measure clock world) state
            (omega arith) (omega arith) searched)
          (λ (last, final) ((found, same, more), done). ((found, same, omega arith), done))
    ndrpdr_phases-Done rounds (suc phases) world state enough same searched =
        Ends-and_then (λ _. Unit {0}) (Done self state world.readings)
          (some (shorter_duration ops self phases state.duration)) _
          (Ends-Yields (λ _. Unit {0}) (shorter_duration ops self phases state.duration)
            (Yields-any _))
          (λ duration _.
            let inner = preceding ops state phases duration in
            Ends-and_then (Done self inner (suc world.readings)) (Done self state world.readings) _
              _
              (ndrpdr_phases-Done rounds phases (read_clock ops measure clock world) inner enough
                refl searched)
              (λ (after, next) ((found, kept, more), done).
                let again = restored ops next (suc phases) state.duration state.width_goal in
                Ends-map (Done self again after.readings) (Done self state world.readings) _
                  (ndrpdr_loop-Done rounds world.readings after again (omega arith) (omega arith)
                    found)
                  (λ (last, final) ((found_2, kept_2, more_2), done_2). (
                    (
                      found_2,
                      SameSetup-trans state again final
                          (restored-SameSetup state next phases duration same kept) kept_2,
                      omega arith,
                    ),
                    done_2,
                  ))))
