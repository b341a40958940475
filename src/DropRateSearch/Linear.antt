-- ===== src/DropRateSearch/Linear.antt =====
-- The linear search of DropRateSearch.py, and the laws of rates that it needs.
use csit.Base.{
  ℕ, zero, suc, ◌<◌, ◌≤◌, Bool, true, false, ◌&&◌, none, some, List, [], ◌∷◌, ◌++◌, append_assoc,
  ◌≡◌, refl, sym, ap, subst, ◌∙◌, ◌⊎◌, inl, inr, arith, Bool-cases,
}
use csit.Base.Result.{ok}
use csit.DropRateSearch.{
  Ops, DropRateSearch, SearchDirection, top_down, success, failure, tried, passes, concluded,
  linear_next, linear_loop, linear_search, attempts, in_range,
}

module _ {A : Type 0} (d : SearchDirection) (p b m : Bool) (u found failed at_min further : A)
    (down : d ≡ top_down) where
  next_found : p ≡ true → linear_next d p b m u found failed at_min further ≡ found
  next_found hp = rw (down, hp) refl

  next_failed :
      p ≡ false → b ≡ true → m ≡ true → linear_next d p b m u found failed at_min further ≡ failed
  next_failed hp hb hm = rw (down, hp, hb, hm) refl

  next_at_min :
      p ≡ false → b ≡ true → m ≡ false → linear_next d p b m u found failed at_min further ≡ at_min
  next_at_min hp hb hm = rw (down, hp, hb, hm) refl

  next_further : p ≡ false → b ≡ false → linear_next d p b m u found failed at_min further ≡ further
  next_further hp hb = rw (down, hp, hb) refl

pub both : (x y : Bool) → x ≡ true → y ≡ true → (x && y) ≡ true
both x y h k = rw (h, k) refl

pub and-true_left : (x y : Bool) → (x && y) ≡ true → x ≡ true
and-true_left true y h = refl
and-true_left false y h = cc

pub and-true_right : (x y : Bool) → (x && y) ≡ true → y ≡ true
and-true_right true y h = h
and-true_right false y h = cc

module _ {F : Type 0} (ops : Ops F) where
  -- Boundaries in order, and a positive step, which takes a rate below the lowest after finitely many
  -- rounds.
  pub record Step (rate_min rate_max step : F) : Type 0 where
    pub height : F → ℕ
    pub falls :
        (rate : F)
        → ops.lt (ops.sub rate step) rate_min ≡ false
        → height (ops.sub rate step) < height rate
    pub below : ops.lt (ops.sub rate_min step) rate_min ≡ true
    pub itself : ops.eq rate_min rate_min ≡ true
    pub same : (rate : F) → ops.eq rate rate_min ≡ true → rate ≡ rate_min
    pub within : (rate : F) → ops.lt rate rate_min ≡ false → ops.le rate_min rate ≡ true
    pub lowers :
        (rate : F) → ops.le rate rate_max ≡ true → ops.le (ops.sub rate step) rate_max ≡ true
    pub least : ops.le rate_min rate_min ≡ true
    pub ordered : ops.le rate_min rate_max ≡ true

module _ {F : Type 0} (ops : Ops F) (measure_loss : List F → F → Bool) where
  -- Everything measured before has been kept, under what was measured since.
  abbrev pub Since : List F → List F → Type 0
  Since earlier measured = (more : List F) × (measured ≡ more ++ earlier)

  pub Since-trans : (a b c : List F) → Since a b → Since b c → Since a c
  Since-trans a b c (m, e) (n, f) =
      (n ++ m, f ∙ (ap (λ (l : List F). n ++ l) e ∙ sym (append_assoc n m a)))

  pub Since-refl : (a : List F) → Since a a
  Since-refl a = ([], refl)

  -- The object before its last trials, when some rates have been measured.
  abbrev pub at : DropRateSearch F → List F → DropRateSearch F
  at self before = record self { measured = before }

  -- How a linear search ends, with what was measured before the last trials: with a rate in range that
  -- passed just then, or with the lowest one failing.
  abbrev pub Ended : DropRateSearch F → List F → DropRateSearch F → Type 0
  Ended self before after =
      ((rate : F) × (in_range ops self rate ≡ true)
        × (passes ops measure_loss rate (at self before) ≡ true)
        × (after ≡ concluded (tried ops measure_loss rate (at self before)) success (some rate)))
      ⊎ ((passes ops measure_loss self.rate_min (at self before) ≡ false)
          × (after
              ≡ concluded (tried ops measure_loss self.rate_min (at self before)) failure none))

  -- The trials at a rate leave the object alone: only the history of measured rates grows.
  pub attempts-measured :
      (n : ℕ) (rate : F) (self : DropRateSearch F)
      → (measured : List F) × ((attempts ops measure_loss n rate self).0
          ≡ (record self { measured = measured }))
  unfolding attempts
  attempts-measured zero rate self = (self.measured, refl)
  attempts-measured (suc n) rate self =
      attempts-measured n rate (record self { measured = rate ∷ self.measured })

  -- And the history that they leave has grown by the rate.
  pub attempts-Since :
      (n : ℕ) (rate : F) (self : DropRateSearch F)
      → Since self.measured (attempts ops measure_loss n rate self).0.measured
  unfolding attempts
  attempts-Since zero rate self = Since-refl self.measured
  attempts-Since (suc n) rate self =
      Since-trans self.measured (rate ∷ self.measured) _ (rate ∷ [], refl)
        (attempts-Since n rate (record self { measured = rate ∷ self.measured }))

  -- The loop returns, and ends as described, after what was measured when it began.
  abbrev pub Ends : ℕ → F → DropRateSearch F → Type 0
  Ends rounds rate self =
      (before : List F) × (after : DropRateSearch F) × (linear_loop ops measure_loss rounds rate
          self
        ≡ some (after, ok tt))
      × Ended self before after
      × Since self.measured before

  Ends-passed :
      (rounds : ℕ) (rate : F) (self : DropRateSearch F)
      → self.search_linear_direction ≡ top_down
      → in_range ops self rate ≡ true
      → passes ops measure_loss rate self ≡ true
      → Ends (suc rounds) rate self
  unfolding linear_loop
  Ends-passed rounds rate self down inside passed = (
    self.measured,
    concluded (tried ops measure_loss rate self) success (some rate),
    next_found _ _ _ _ _ _ _ _ _ down passed,
    inl (rate, inside, passed, refl),
    Since-refl self.measured,
  )

  Ends-at_min :
      (rounds : ℕ) (self : DropRateSearch F)
      → 0 < rounds
      → self.search_linear_direction ≡ top_down
      → Step ops self.rate_min self.rate_max self.rate_linear_step
      → Ends rounds self.rate_min self
  unfolding linear_loop
  Ends-at_min zero self some_round down step = elim some_round [ ]
  Ends-at_min (suc rounds) self some_round down step =
      elim (Bool-cases (passes ops measure_loss self.rate_min self)) [
        | inl passed ↦
            Ends-passed rounds self.rate_min self down (both _ _ step.least step.ordered) passed
        | inr lost ↦ (
          self.measured,
          concluded (tried ops measure_loss self.rate_min self) failure none,
          next_failed _ _ _ _ _ _ _ _ _ down lost step.below step.itself,
          inr (lost, refl),
          Since-refl self.measured,
        )
      ]

  -- What a further round is, on an object that only measured more.
  Ends-next :
      (rounds : ℕ) (rate rate_2 : F) (self after : DropRateSearch F) (measured : List F)
      → linear_loop ops measure_loss (suc rounds) rate self
        ≡ linear_loop ops measure_loss rounds rate_2 after
      → after ≡ at self measured
      → Since self.measured after.measured
      → Ends rounds rate_2 (at self measured)
      → Ends (suc rounds) rate self
  Ends-next rounds rate rate_2 self after measured e same grown
        (before, final, returns, ended, since) =
      (
        before,
        final,
        e ∙ ap (linear_loop ops measure_loss rounds rate_2) same ∙ returns,
        ended,
        Since-trans self.measured measured before
            (subst (λ (s : DropRateSearch F). Since self.measured s.measured) same grown) since,
      )

  linear_loop-Ended :
      (rounds : ℕ) (rate : F) (self : DropRateSearch F)
      (step : Step ops self.rate_min self.rate_max self.rate_linear_step)
      → self.search_linear_direction ≡ top_down
      → in_range ops self rate ≡ true
      → suc (suc (step.height rate)) ≤ rounds
      → Ends rounds rate self
  linear_loop-Ended zero rate self step down inside enough = elim enough [ ]
  linear_loop-Ended (suc rounds) rate self step down inside enough =
      let lower = ops.sub rate self.rate_linear_step in
      let after = tried ops measure_loss rate self in
      let high =
        step.lowers rate
          (and-true_right (ops.le self.rate_min rate) (ops.le rate self.rate_max) inside) in
      let (measured, e) = attempts-measured self.max_attempts rate self in
      let next = record self { measured = measured } in
      let grown = attempts-Since self.max_attempts rate self in
      elim (Bool-cases (passes ops measure_loss rate self)) [
        | inl passed ↦ Ends-passed rounds rate self down inside passed
        | inr lost ↦ elim (Bool-cases (ops.lt lower self.rate_min)) [
          | inr low ↦
              Ends-next rounds rate lower self after measured
                (unfold linear_loop in next_further _ _ _ _ _ _ _ _ _ down lost low) e grown
                (linear_loop-Ended rounds lower next step down
                  (both _ _ (step.within lower low) high) (omega (arith, step.falls rate low)))
          | inl low ↦ elim (Bool-cases (ops.eq rate self.rate_min)) [
            | inl same ↦
                subst (λ r. Ends (suc rounds) r self) (sym (step.same rate same))
                  (Ends-at_min (suc rounds) self (omega arith) down step)
            | inr differs ↦
                Ends-next rounds rate self.rate_min self after measured
                  (unfold linear_loop in next_at_min _ _ _ _ _ _ _ _ _ down lost low differs) e
                  grown (Ends-at_min rounds next (omega arith) down step)
          ]
        ]
      ]

  -- From the top down, a linear search from a rate in range returns within as many rounds as the steps
  -- need. It ends as a success with a rate in range that passed in the last trials, or as a failure
  -- after the lowest rate was tried last and did not pass; nothing else of the setup changes. Its last
  -- trials come after whatever was measured before the search.
  pub linear_search-Ended :
      (start_rate : F) (self : DropRateSearch F)
      (step : Step ops self.rate_min self.rate_max self.rate_linear_step)
      → self.search_linear_direction ≡ top_down
      → in_range ops self start_rate ≡ true
      → (before : List F) × (after : DropRateSearch F) × (linear_search ops measure_loss
            (suc (suc (step.height start_rate)))
            start_rate
            self
          ≡ some (after, ok tt))
        × Ended self before after
        × Since self.measured before
  unfolding linear_search
  linear_search-Ended start_rate self step down inside = rw inside (
      linear_loop-Ended (suc (suc (step.height start_rate))) start_rate self step down inside
        (omega arith))
