-- ===== src/DropRateSearch/Binary.antt =====
-- The binary search of DropRateSearch.py, and the laws of rates that it needs.
use csit.Base.{
  ℕ, zero, suc, ◌<◌, ◌≤◌, Bool, true, false, some, List, ◌≡◌, refl, sym, subst, ap, ◌∙◌, ◌⊎◌, inl,
  inr, arith, Bool-cases,
}
use csit.Base.Result.{ok}
use csit.DropRateSearch.{
  Ops, DropRateSearch, tried, passes, converged, binary_rate, binary_search, in_range,
}
use csit.DropRateSearch.Linear.{
  Since, Since-trans, Since-refl, attempts-measured, attempts-Since, both,
}

module _ {F : Type 0} (ops : Ops F) where
  abbrev pub mid : F → F → F
  mid b_min b_max = binary_rate ops b_min b_max true

  -- The order of rates, and that halving an interval comes to an end: unless the last rate, an end of
  -- the interval, is close to the middle, both halves are smaller.
  pub record Halving (threshold : F) : Type 0 where
    pub trans : (a b c : F) → ops.le a b ≡ true → ops.le b c ≡ true → ops.le a c ≡ true
    pub not_less : (a b : F) → ops.le a b ≡ true → ops.lt b a ≡ false
    pub mid_ge : (a b : F) → ops.le a b ≡ true → ops.le a (mid a b) ≡ true
    pub mid_le : (a b : F) → ops.le a b ≡ true → ops.le (mid a b) b ≡ true
    pub size : F → F → ℕ
    pub size_lower : (a b : F) → ops.le a b ≡ true → size a (mid a b) ≤ size a b
    pub size_upper : (a b : F) → ops.le a b ≡ true → size (mid a b) b ≤ size a b
    pub progress :
        (a b last : F)
        → ops.le a b ≡ true
        → (last ≡ a) ⊎ (last ≡ b)
        → ops.lt (ops.distance last (mid a b)) threshold ≡ false
        → (size a (mid a b) < size a b) × (size (mid a b) b < size a b)

  module _ (measure_loss : List F → F → Bool) where
    -- The trials at a rate passed during the search: they were held with the object's number of attempts
    -- and its way of judging them, after what was measured before the search, and their measurements are
    -- in the history that the search leaves.
    abbrev pub Passed : F → DropRateSearch F → DropRateSearch F → Type 0
    Passed rate self final =
        (before : DropRateSearch F) × (before.max_attempts ≡ self.max_attempts)
        × (before.search_result_type ≡ self.search_result_type)
        × Since ops measure_loss self.measured before.measured
        × Since ops measure_loss (tried ops measure_loss rate before).measured final.measured
        × (passes ops measure_loss rate before ≡ true)

    -- The rate that a search leaves: the earlier one, or one of the interval that passed its trials.
    abbrev pub Refined : F → F → DropRateSearch F → DropRateSearch F → Type 0
    Refined b_min b_max self final =
        (final.search_result_rate ≡ self.search_result_rate)
        ⊎ ((rate : F) × (final.search_result_rate ≡ some rate)
            × Passed rate self final
            × (ops.le b_min rate ≡ true)
            × (ops.le rate b_max ≡ true))

    abbrev pub Ends : ℕ → F → F → DropRateSearch F → Type 0
    Ends calls b_min b_max self =
        (final : DropRateSearch F) × (binary_search ops measure_loss calls b_min b_max true self
          ≡ some (final, ok tt))
        × (final.search_result ≡ some (converged ops final.search_result_rate))
        × Refined b_min b_max self final
        × Since ops measure_loss self.measured final.measured

    -- The next call's object: only the rates and the history differ.
    abbrev pub Grows : DropRateSearch F → DropRateSearch F → Type 0
    Grows self next =
        (next.max_attempts ≡ self.max_attempts)
        × (next.search_result_type ≡ self.search_result_type)
        × Since ops measure_loss self.measured next.measured

    pub Passed-next :
        (rate : F) (self next final : DropRateSearch F)
        → Grows self next
        → Passed rate next final
        → Passed rate self final
    Passed-next rate self next final (same, kind, grown) (before, n, k, since, later, passed) = (
      before,
      n ∙ same,
      k ∙ kind,
      Since-trans ops measure_loss self.measured next.measured before.measured grown since,
      later,
      passed,
    )

    module _ (calls : ℕ) (a b : F) (self : DropRateSearch F) (range_a : in_range ops self a ≡ true)
        (range_b : in_range ops self b ≡ true) (ordered : ops.lt b a ≡ false) where
      abbrev started : DropRateSearch F
      started = record self { last_binary_rate = mid a b }

      abbrev far : Bool
      far = ops.lt (ops.distance self.last_binary_rate (mid a b)) self.binary_convergence_threshold

      binary-close :
          far ≡ true
          → binary_search ops measure_loss (suc calls) a b true self
            ≡ some (
              record self { search_result = some (converged ops self.search_result_rate) },
              ok tt,
            )
      unfolding binary_search
      binary-close close = rw (range_a, range_b, ordered, close) refl

      binary-upper :
          far ≡ false
          → passes ops measure_loss (mid a b) started ≡ true
          → binary_search ops measure_loss (suc calls) a b true self
            ≡ binary_search ops measure_loss calls
                (mid a b)
                b
                true
                (record (tried ops measure_loss (mid a b) started) {
                  search_result_rate = some (mid a b);
                })
      unfolding binary_search
      binary-upper apart passed = rw (range_a, range_b, ordered, apart, passed) refl

      binary-lower :
          far ≡ false
          → passes ops measure_loss (mid a b) started ≡ false
          → binary_search ops measure_loss (suc calls) a b true self
            ≡ binary_search ops measure_loss calls a
                (mid a b)
                true
                (tried ops measure_loss (mid a b) started)
      unfolding binary_search
      binary-lower apart lost = rw (range_a, range_b, ordered, apart, lost) refl

    Refined-upper :
        (a b : F) (self next final : DropRateSearch F) {threshold : F} (laws : Halving threshold)
        → ops.le a b ≡ true
        → Grows self next
        → Passed (mid a b) self final
        → next.search_result_rate ≡ some (mid a b)
        → Refined (mid a b) b next final
        → Refined a b self final
    Refined-upper a b self next final laws order grown passed e (inl same) =
        inr (mid a b, same ∙ e, passed, laws.mid_ge a b order, laws.mid_le a b order)
    Refined-upper a b self next final laws order grown passed e
          (inr (rate, is_rate, passed_2, low, high)) =
        inr (
          rate,
          is_rate,
          Passed-next rate self next final grown passed_2,
          laws.trans a (mid a b) rate (laws.mid_ge a b order) low,
          high,
        )

    Refined-lower :
        (a b : F) (self next final : DropRateSearch F) {threshold : F} (laws : Halving threshold)
        → ops.le a b ≡ true
        → Grows self next
        → next.search_result_rate ≡ self.search_result_rate
        → Refined a (mid a b) next final
        → Refined a b self final
    Refined-lower a b self next final laws order grown e (inl same) = inl (same ∙ e)
    Refined-lower a b self next final laws order grown e (inr (rate, is_rate, passed, low, high)) =
        inr (
          rate,
          is_rate,
          Passed-next rate self next final grown passed,
          low,
          laws.trans rate (mid a b) b high (laws.mid_le a b order),
        )

    Ends-next :
        (calls : ℕ) (a b a_2 b_2 : F) (self next after : DropRateSearch F)
        → binary_search ops measure_loss (suc calls) a b true self
          ≡ binary_search ops measure_loss calls a_2 b_2 true after
        → after ≡ next
        → Grows self next
        → ((final : DropRateSearch F)
            → Since ops measure_loss next.measured final.measured
            → Refined a_2 b_2 next final
            → Refined a b self final)
        → Ends calls a_2 b_2 next
        → Ends (suc calls) a b self
    Ends-next calls a b a_2 b_2 self next after e same (n, k, grown) keep
          (final, returns, judged, refined, since) =
        (
          final,
          e ∙ ap (binary_search ops measure_loss calls a_2 b_2 true) same ∙ returns,
          judged,
          keep final since refined,
          Since-trans ops measure_loss self.measured next.measured final.measured grown since,
        )

    -- Calls enough for an interval: one more if the last rate is not one of its ends.
    Enough : ℕ → {threshold : F} → Halving threshold → F → F → DropRateSearch F → Type 0
    Enough calls laws a b self =
        (suc (suc (laws.size a b)) ≤ calls)
        ⊎ (((self.last_binary_rate ≡ a) ⊎ (self.last_binary_rate ≡ b))
            × (suc (laws.size a b) ≤ calls))

    Enough-lower :
        (calls : ℕ) (a b : F) (self : DropRateSearch F)
        (laws : Halving self.binary_convergence_threshold)
        → ops.le a b ≡ true
        → ops.lt (ops.distance self.last_binary_rate (mid a b)) self.binary_convergence_threshold
          ≡ false
        → Enough (suc calls) laws a b self
        → suc (laws.size a (mid a b)) ≤ calls
    unfolding Enough
    Enough-lower calls a b self laws order apart (inl n) = omega (arith, laws.size_lower a b order)
    Enough-lower calls a b self laws order apart (inr (ends, n)) =
        let smaller = (laws.progress a b self.last_binary_rate order ends apart).0 in omega arith

    Enough-upper :
        (calls : ℕ) (a b : F) (self : DropRateSearch F)
        (laws : Halving self.binary_convergence_threshold)
        → ops.le a b ≡ true
        → ops.lt (ops.distance self.last_binary_rate (mid a b)) self.binary_convergence_threshold
          ≡ false
        → Enough (suc calls) laws a b self
        → suc (laws.size (mid a b) b) ≤ calls
    unfolding Enough
    Enough-upper calls a b self laws order apart (inl n) = omega (arith, laws.size_upper a b order)
    Enough-upper calls a b self laws order apart (inr (ends, n)) =
        let smaller = (laws.progress a b self.last_binary_rate order ends apart).1 in omega arith

    not-Enough :
        (a b : F) (self : DropRateSearch F) {threshold : F} (laws : Halving threshold)
        → Enough 0 laws a b self
        → ⊥
    unfolding Enough
    not-Enough a b self laws (inl n) = omega arith
    not-Enough a b self laws (inr (ends, n)) = omega arith

    binary_search-Ends :
        (calls : ℕ) (a b : F) (self : DropRateSearch F)
        (laws : Halving self.binary_convergence_threshold)
        → ops.le self.rate_min a ≡ true
        → ops.le a b ≡ true
        → ops.le b self.rate_max ≡ true
        → Enough calls laws a b self
        → Ends calls a b self
    binary_search-Ends zero a b self laws low order high enough =
        elim (not-Enough a b self laws enough) [ ]
    binary_search-Ends (suc calls) a b self laws low order high enough =
        let range_a = both _ _ low (laws.trans a b self.rate_max order high) in
        let range_b = both _ _ (laws.trans self.rate_min a b low order) high in
        let ordered = laws.not_less a b order in
        let (measured, e) =
          attempts-measured ops measure_loss self.max_attempts (mid a b)
            (started calls a b self range_a range_b ordered) in
        let lower = record self { last_binary_rate = mid a b; measured = measured } in
        let upper = record lower { search_result_rate = some (mid a b) } in
        let history = ap (λ (s : DropRateSearch F). s.measured) e in
        let grown =
          subst (λ l. Since ops measure_loss self.measured l) history
            (attempts-Since ops measure_loss self.max_attempts (mid a b)
              (started calls a b self range_a range_b ordered)) in
        elim (Bool-cases (far calls a b self range_a range_b ordered)) [
          | inl close ↦ (
            record self { search_result = some (converged ops self.search_result_rate) },
            binary-close calls a b self range_a range_b ordered close,
            refl,
            inl refl,
            Since-refl ops measure_loss self.measured,
          )
          | inr apart ↦
              elim (Bool-cases
                (passes ops measure_loss (mid a b) (record self { last_binary_rate = mid a b }))) [
                  | inl passed ↦
                      Ends-next calls a b (mid a b) b self upper _
                        (binary-upper calls a b self range_a range_b ordered apart passed)
                        (ap
                          (λ (s : DropRateSearch F). record s {
                            search_result_rate = some (mid a b);
                          })
                          e)
                        (refl, refl, grown)
                        (λ final since.
                          Refined-upper a b self upper final laws order (refl, refl, grown)
                            (
                              started calls a b self range_a range_b ordered,
                              refl,
                              refl,
                              Since-refl ops measure_loss self.measured,
                              subst (λ l. Since ops measure_loss l final.measured) (sym history)
                                  since,
                              passed,
                            )
                            refl)
                        (binary_search-Ends calls (mid a b) b upper laws
                          (laws.trans self.rate_min a (mid a b) low (laws.mid_ge a b order))
                          (laws.mid_le a b order) high
                          (unfold Enough in
                            inr (inl refl, Enough-upper calls a b self laws order apart enough)))
                  | inr lost ↦
                      Ends-next calls a b a (mid a b) self lower _
                        (binary-lower calls a b self range_a range_b ordered apart lost) e
                        (refl, refl, grown)
                        (λ final since.
                          Refined-lower a b self lower final laws order (refl, refl, grown) refl)
                        (binary_search-Ends calls a (mid a b) lower laws low (laws.mid_ge a b order)
                          (laws.trans (mid a b) b self.rate_max (laws.mid_le a b order) high)
                          (unfold Enough in
                            inr (inr refl, Enough-lower calls a b self laws order apart enough)))
                ]
        ]

    -- From an interval in range and from its middle, the binary search returns within as many calls as
    -- halving takes. The rate that it leaves as the result is the one it found there, or a rate of the
    -- interval that passed its trials in this search, whose measurements are in the history that is left. The
    -- search counts as a success exactly when the rate is there and not zero.
    pub binary_search-Refined :
        (b_min b_max : F) (self : DropRateSearch F)
        (laws : Halving self.binary_convergence_threshold)
        → ops.le self.rate_min b_min ≡ true
        → ops.le b_min b_max ≡ true
        → ops.le b_max self.rate_max ≡ true
        → (final : DropRateSearch F) × (binary_search ops measure_loss
              (suc (suc (laws.size b_min b_max)))
              b_min
              b_max
              true
              self
            ≡ some (final, ok tt))
          × (final.search_result ≡ some (converged ops final.search_result_rate))
          × Refined b_min b_max self final
          × Since ops measure_loss self.measured final.measured
    binary_search-Refined b_min b_max self laws low order high =
        binary_search-Ends (suc (suc (laws.size b_min b_max))) b_min b_max self laws low order high
          (unfold Enough in inl (omega arith))
