-- ===== src/DropRateSearch/Combined.antt =====
-- The combined search of DropRateSearch.py, on both others.
use csit.Base.{
  ℕ, suc, Bool, true, false, Option, none, some, List, ◌≡◌, refl, sym, ap, subst, ◌∙◌, ◌⊎◌, inl,
  inr, if◌then◌else◌, Bool-cases,
}
use csit.Base.Result.{Result, ok, raise, runtime_error, plain_exception}
use csit.DropRateSearch.{
  Ops, DropRateSearch, SearchResults, top_down, success, failure, suspicious, tried, passes,
  converged, concluded, linear_search, in_range, is_found, verify_search_result, refine,
  kept_or_suspicious, combined_search, floats_are_close_equal,
}
use csit.DropRateSearch.Linear.{
  Step, at, Since, Since-trans, Since-refl, attempts-Since, linear_search-Ended, attempts-measured,
  and-true_left, and-true_right, both,
}
use csit.DropRateSearch.Binary.{Halving, Passed, Passed-next, Refined, binary_search-Refined}

module _ {F : Type 0} (ops : Ops F) where
  -- Rates in a total order, where a step up does not go down.
  pub record Growing (step : F) : Type 0 where
    pub itself : (a : F) → ops.le a a ≡ true
    pub total : (a b : F) → ops.lt a b ≡ false → ops.le b a ≡ true
    pub grows : (a : F) → ops.le a (ops.add a step) ≡ true

  module _ (measure_loss : List F → F → Bool) where
    -- A rate in range that the object's result names, and that passed its trials in this search.
    abbrev pub Found : DropRateSearch F → DropRateSearch F → Type 0
    Found self final =
        (rate : F) × (verify_search_result final ≡ ok (some rate))
        × Passed ops measure_loss rate self final
        × (in_range ops self rate ≡ true)

    -- How the combined search ends: a found rate, or an exception after the lowest rate failed in the last
    -- trials.
    abbrev pub Combined : DropRateSearch F → DropRateSearch F → Result (Unit {0}) → Type 0
    Combined self final result =
        ((result ≡ ok tt) × Found self final)
        ⊎ ((result ≡ raise runtime_error)
            × (before : List F) × Since ops measure_loss self.measured before
            × (passes ops measure_loss self.rate_min (at ops measure_loss self before) ≡ false)
            × (final
                ≡ concluded (tried ops measure_loss self.rate_min (at ops measure_loss self before))
                    failure none))

    -- The binary search's result, or the linear search's where the former has none.
    kept-Found :
        (self final : DropRateSearch F) (temp_rate : F) (found : Option F)
        → Found self (concluded final suspicious (some temp_rate))
        → ((rate : F)
            → found ≡ some rate
            → verify_search_result final ≡ ok (some rate)
            → Found self final)
        → final.search_result_rate ≡ found
        → final.search_result ≡ some (converged ops found)
        → (last : DropRateSearch F) × (kept_or_suspicious ops measure_loss final
              (some temp_rate)
              final.search_result
            ≡ some (last, ok tt))
          × Found self last
    unfolding verify_search_result
    kept-Found self final temp_rate none temp new same judged = (
      concluded final suspicious (some temp_rate),
      ap (kept_or_suspicious ops measure_loss final (some temp_rate)) judged,
      temp,
    )
    kept-Found self final temp_rate (some rate) temp new same judged =
        elim (Bool-cases (ops.truth rate)) [
          | inl e ↦
              let is_success : final.search_result ≡ some success = judged ∙ rw e refl in
              (
                final,
                ap (kept_or_suspicious ops measure_loss final (some temp_rate)) is_success,
                new rate refl (
                    subst
                      (λ (r : Option SearchResults).
                        (if is_found r then ok final.search_result_rate else raise plain_exception)
                        ≡ ok (some rate))
                      (sym is_success) (ap ok same)),
              )
          | inr e ↦
              let is_failure : final.search_result ≡ some failure = judged ∙ rw e refl in
              (
                concluded final suspicious (some temp_rate),
                ap (kept_or_suspicious ops measure_loss final (some temp_rate)) is_failure,
                temp,
              )
        ]

    -- The upper end of the refining search.
    abbrev limited : DropRateSearch F → F → F
    limited self rate =
        if ops.lt self.rate_max (ops.add rate self.rate_linear_step)
        then self.rate_max
        else ops.add rate self.rate_linear_step

    limited_ordered :
        (self : DropRateSearch F) (rate : F)
        → Growing self.rate_linear_step
        → ops.le rate self.rate_max ≡ true
        → (ops.le rate (limited self rate) ≡ true)
          × (ops.le (limited self rate) self.rate_max ≡ true)
    limited_ordered self rate growing high =
        elim (Bool-cases (ops.lt self.rate_max (ops.add rate self.rate_linear_step))) [
          | inl e ↦ rw e (high, growing.itself self.rate_max)
          | inr e ↦ rw e (
            growing.grows rate,
            growing.total self.rate_max (ops.add rate self.rate_linear_step) e,
          )
        ]

    abbrev succeeded : DropRateSearch F → List F → F → DropRateSearch F
    succeeded self measured rate = concluded (at ops measure_loss self measured) success (some rate)

    abbrev refining : DropRateSearch F → List F → F → DropRateSearch F
    refining self measured rate = record (succeeded self measured rate) {
      search_result_rate = none;
    }

    Refined-Found :
        (self final : DropRateSearch F) (measured : List F) (rate : F)
        (laws : Halving ops self.binary_convergence_threshold)
        → in_range ops self rate ≡ true
        → ops.le (limited self rate) self.rate_max ≡ true
        → Since ops measure_loss self.measured measured
        → Refined ops measure_loss rate (limited self rate) (refining self measured rate) final
        → (found : F) → final.search_result_rate ≡ some found
        → verify_search_result final ≡ ok (some found)
        → Found self final
    Refined-Found self final measured rate laws inside high grown (inl same) found e verified = cc
    Refined-Found self final measured rate laws inside high grown
          (inr (r, is_r, passed, low, below)) found e verified =
        let same : found ≡ r = cc in
        (
          found,
          verified,
          subst (λ x. Passed ops measure_loss x self final) (sym same)
              (Passed-next ops measure_loss r self (refining self measured rate) final
                (refl, refl, grown) passed),
          subst (λ x. in_range ops self x ≡ true) (sym same)
              (both _ _
                (laws.trans self.rate_min rate r
                  (and-true_left (ops.le self.rate_min rate) (ops.le rate self.rate_max) inside)
                  low)
                (laws.trans r (limited self rate) self.rate_max below high)),
        )

    -- The linear search's rate passed, whatever is measured after its last trials.
    linear-Passed :
        (self final : DropRateSearch F) (before measured : List F) (rate : F)
        → Since ops measure_loss self.measured before
        → passes ops measure_loss rate (at ops measure_loss self before) ≡ true
        → tried ops measure_loss rate (at ops measure_loss self before)
          ≡ at ops measure_loss self measured
        → Since ops measure_loss measured final.measured
        → Passed ops measure_loss rate self final
    linear-Passed self final before measured rate since passed m later = (
      at ops measure_loss self before,
      refl,
      refl,
      since,
      subst (λ l. Since ops measure_loss l final.measured)
          (sym (ap (λ (s : DropRateSearch F). s.measured) m)) later,
      passed,
    )

    refine-Found :
        (self : DropRateSearch F) (before measured : List F) (rate : F)
        → Halving ops self.binary_convergence_threshold
        → Growing self.rate_linear_step
        → in_range ops self rate ≡ true
        → Since ops measure_loss self.measured before
        → passes ops measure_loss rate (at ops measure_loss self before) ≡ true
        → tried ops measure_loss rate (at ops measure_loss self before)
          ≡ at ops measure_loss self measured
        → (calls : ℕ) × (final : DropRateSearch F) × (refine ops measure_loss calls
              (succeeded self measured rate, ok tt)
            ≡ some (final, ok tt))
          × Found self final
    unfolding refine
    refine-Found self before measured rate laws growing inside since passed m =
        let high = and-true_right (ops.le self.rate_min rate) (ops.le rate self.rate_max) inside in
        let low = and-true_left (ops.le self.rate_min rate) (ops.le rate self.rate_max) inside in
        let (above, below) = limited_ordered self rate growing high in
        let (final, returns, judged, kept, later) =
          binary_search-Refined ops measure_loss rate (limited self rate)
            (refining self measured rate) laws low above below in
        let calls = suc (suc (laws.size rate (limited self rate))) in
        let grown = Since-trans ops measure_loss self.measured before measured since (
          subst (λ l. Since ops measure_loss before l) (ap (λ (s : DropRateSearch F). s.measured) m)
            (attempts-Since ops measure_loss self.max_attempts rate
              (at ops measure_loss self before))) in
        let (last, ends, found) =
          kept-Found self final rate final.search_result_rate
            (
              rate,
              unfold verify_search_result in refl,
              linear-Passed self final before measured rate since passed m later,
              inside,
            )
            (Refined-Found self final measured rate laws inside below grown kept) refl judged in
        elim (Bool-cases (floats_are_close_equal ops rate self.rate_max)) [
          | inl e ↦ (
            calls,
            succeeded self measured rate,
            rw e refl,
            (
              rate,
              unfold verify_search_result in refl,
              linear-Passed self (succeeded self measured rate) before measured rate since passed m
                  (Since-refl ops measure_loss measured),
              inside,
            ),
          )
          | inr e ↦ (calls, last, rw (e, returns) ends, found)
        ]

    -- The combined search on a linear search's outcome.
    combined-linear :
        (rounds calls : ℕ) (start_rate : F) (self after : DropRateSearch F)
        → linear_search ops measure_loss rounds start_rate self ≡ some (after, ok tt)
        → combined_search ops measure_loss rounds calls start_rate self
          ≡ refine ops measure_loss calls (after, ok tt)
    unfolding combined_search
    combined-linear rounds calls start_rate self after e = rw (e, combined_search) refl

    -- From the top down and from a rate in range, with rates in a total order that halving respects,
    -- the combined search comes to an end within enough rounds and calls. Either it returns, and the
    -- verified result is a rate in range that passed its trials in this search, whose measurements are in
    -- the history that is left, or it raises `RuntimeError` after the lowest rate was tried last and did
    -- not pass.
    pub combined_search-Combined :
        (start_rate : F) (self : DropRateSearch F)
        (step : Step ops self.rate_min self.rate_max self.rate_linear_step)
        → Halving ops self.binary_convergence_threshold
        → Growing self.rate_linear_step
        → self.search_linear_direction ≡ top_down
        → in_range ops self start_rate ≡ true
        → (calls : ℕ) × (final : DropRateSearch F) × (result : Result (Unit {0})) × (combined_search
              ops measure_loss
              (suc (suc (step.height start_rate)))
              calls
              start_rate
              self
            ≡ some (final, result))
          × Combined self final result
    combined_search-Combined start_rate self step laws growing down inside =
        let rounds = suc (suc (step.height start_rate)) in
        let (before, after, linear, ended, since) =
          linear_search-Ended ops measure_loss start_rate self step down inside in
        elim ended [
          | inl (rate, ranged, passed, e) ↦
              let (measured, m) =
                attempts-measured ops measure_loss self.max_attempts rate
                  (at ops measure_loss self before) in
              let done = e ∙ ap (λ (s : DropRateSearch F). concluded s success (some rate)) m in
              let (calls, final, refines, found) =
                refine-Found self before measured rate laws growing ranged since passed m in
              (
                calls,
                final,
                ok tt,
                combined-linear rounds calls start_rate self after linear
                    ∙ ap (λ (s : DropRateSearch F). refine ops measure_loss calls (s, ok tt)) done
                    ∙ refines,
                inl (refl, found),
              )
          | inr (lost, e) ↦
              let last =
                concluded (tried ops measure_loss self.rate_min (at ops measure_loss self before))
                  failure none in
              (
                0,
                last,
                raise runtime_error,
                combined-linear rounds 0 start_rate self after linear
                    ∙ ap (λ (s : DropRateSearch F). refine ops measure_loss 0 (s, ok tt)) e
                    ∙ (unfold refine in refl),
                inr (refl, before, since, lost, refl),
              )
        ]
