-- ===== src/MlrSearch/Intervals.antt =====
-- The intervals of resources/libraries/python/MLRsearch: the laws of an order of rates, what the
-- constructor of an interval does, and the update of an interval by a measurement.
use csit.Base.{true, false, ◌≡◌, refl, sym, subst, ◌⊎◌, inl, inr, arith, Bool-cases}
use csit.Base.Result.{Exception, Result, ok, raise, ◌>>=◌}
use csit.MlrSearch.{
  Floats, ReceiveRateMeasurement, ReceiveRateInterval, with_widths, receive_rate_interval,
}
use csit.MlrSearch.Phase.{new_interval}

-- `<` and `<=` on rates and loss fractions that are numbers.
pub record Order {F : Type 0} (ops : Floats F) : Type 0 where
  pub asymmetric : (a b : F) → ops.lt a b ≡ true → ops.lt b a ≡ false
  pub total : (a b : F) → ops.lt a b ≡ false → ops.le b a ≡ true
  pub transitive : (a b c : F) → ops.lt a b ≡ true → ops.lt b c ≡ true → ops.lt a c ≡ true
  pub splits : (a b c : F) → ops.lt a b ≡ false → ops.lt b c ≡ false → ops.lt a c ≡ false

-- A property of what a call returns, if it does not raise.
abbrev pub Yields {ℓ κ} : {A : Type ℓ} → (A → Type κ) → Result A → Type κ
Yields P (raise e) = Unit
Yields P (ok a) = P a

pub Yields->>= {ℓ κ μ ν} :
    {A : Type ℓ} {B : Type κ} (P : A → Type μ) (Q : B → Type ν) (m : Result A) (next : A → Result B)
    → Yields P m
    → ((a : A) → P a → Yields Q (next a))
    → Yields Q (m >>= next)
Yields->>= P Q (raise e) next h k = tt
Yields->>= P Q (ok a) next h k = k a h

pub Yields-map {ℓ κ μ} :
    {A : Type ℓ} (P : A → Type κ) (Q : A → Type μ) (m : Result A)
    → Yields P m
    → ((a : A) → P a → Q a)
    → Yields Q m
Yields-map P Q (raise e) h k = tt
Yields-map P Q (ok a) h k = k a h

pub Result-cases {ℓ} :
    {A : Type ℓ} (m : Result A) → ((e : Exception) × (m ≡ raise e)) ⊎ ((a : A) × (m ≡ ok a))
Result-cases (raise e) = inl (e, refl)
Result-cases (ok a) = inr (a, refl)

module _ {F : Type 0} (ops : Floats F) where
  -- Bounds in order, and widths that are those of the bounds.
  abbrev pub WellFormed : ReceiveRateInterval F → Type 0
  WellFormed i =
      (ops.lt i.measured_high.target_tr i.measured_low.target_tr ≡ false)
      × (with_widths ops i.measured_low i.measured_high ≡ ok i)

  -- Each bound is one of two measurements.
  abbrev pub Between :
      ReceiveRateMeasurement F → ReceiveRateMeasurement F → ReceiveRateInterval F → Type 0
  Between a b i =
      ((i.measured_low ≡ a) × (i.measured_high ≡ b))
      ⊎ ((i.measured_low ≡ b) × (i.measured_high ≡ a))

  -- What an interval of two measurements is, with the lower one first.
  abbrev pub Ordered :
      ReceiveRateMeasurement F → ReceiveRateMeasurement F → ReceiveRateInterval F → Type 0
  Ordered low high i = WellFormed i × (i.measured_low ≡ low) × (i.measured_high ≡ high)

  with_widths-Ordered :
      (low high : ReceiveRateMeasurement F)
      → ops.lt high.target_tr low.target_tr ≡ false
      → Yields (Ordered low high) (with_widths ops low high)
  with_widths-Ordered low high h =
      elim (Result-cases (ops.div (ops.sub high.target_tr low.target_tr) high.target_tr)) [
        | inl (e, raised) ↦ rw raised tt
        | inr (w, divided) ↦ rw divided ((h, rw divided refl), refl, refl)
      ]

  pub receive_rate_interval-Ordered :
      (low high : ReceiveRateMeasurement F)
      → ops.lt high.target_tr low.target_tr ≡ false
      → Yields (Ordered low high) (receive_rate_interval ops low high)
  unfolding receive_rate_interval
  receive_rate_interval-Ordered low high h =
      rw (h, receive_rate_interval) (with_widths-Ordered low high h)

  pub receive_rate_interval-Between :
      (low high : ReceiveRateMeasurement F)
      → Order ops
      → Yields (λ i. WellFormed i × Between low high i) (receive_rate_interval ops low high)
  unfolding receive_rate_interval
  receive_rate_interval-Between low high order =
      elim (Bool-cases (ops.lt high.target_tr low.target_tr)) [
        | inl swapped ↦
            rw (swapped, receive_rate_interval)
              (Yields-map _ _ (with_widths ops high low)
                (with_widths-Ordered high low (order.asymmetric _ _ swapped))
                (λ i (w, l, h). (w, inr (l, h))))
        | inr kept ↦
            Yields-map _ _ (receive_rate_interval ops low high)
              (receive_rate_interval-Ordered low high kept) (λ i (w, l, h). (w, inl (l, h)))
      ]

  -- An interval whose bounds have a property.
  abbrev pub Bounded {κ} : (ReceiveRateMeasurement F → Type κ) → ReceiveRateInterval F → Type κ
  Bounded P i = WellFormed i × P i.measured_low × P i.measured_high

  pub receive_rate_interval-Bounded {κ} :
      (P : ReceiveRateMeasurement F → Type κ) (low high : ReceiveRateMeasurement F)
      → Order ops
      → P low
      → P high
      → Yields (Bounded P) (receive_rate_interval ops low high)
  receive_rate_interval-Bounded P low high order l h =
      Yields-map _ _ (receive_rate_interval ops low high)
        (receive_rate_interval-Between low high order)
        (λ i (w, ends). elim ends [
          | inl (e, d) ↦ (w, subst P (sym e) l, subst P (sym d) h)
          | inr (e, d) ↦ (w, subst P (sym e) h, subst P (sym d) l)
        ])

  -- An updated interval is in order, has the widths of its bounds, and has no other bounds than those of
  -- the old one and the measurement: what holds of these holds of its bounds.
  pub new_interval-Bounded {κ} :
      (P : ReceiveRateMeasurement F → Type κ) (old : ReceiveRateInterval F)
      (m : ReceiveRateMeasurement F) (packet_loss_ratio : F)
      → Order ops
      → Bounded P old
      → P m
      → Yields (Bounded P) (new_interval ops old m packet_loss_ratio)
  unfolding new_interval
  new_interval-Bounded P old m packet_loss_ratio order (w, l, h) p =
      let a = old.measured_low in
      let b = old.measured_high in
      let new = receive_rate_interval-Bounded P in
      let mb : Yields (Bounded P) (receive_rate_interval ops m b) = new _ _ order p h in
      let am : Yields (Bounded P) (receive_rate_interval ops a m) = new _ _ order l p in
      let ma : Yields (Bounded P) (receive_rate_interval ops m a) = new _ _ order p l in
      let ab : Yields (Bounded P) (receive_rate_interval ops a b) = new _ _ order l h in
      let bm : Yields (Bounded P) (receive_rate_interval ops b m) = new _ _ order h p in
      ground arith

  -- A lower bound without too much loss, and an upper bound with too much.
  abbrev pub IsValid : F → ReceiveRateInterval F → Type 0
  IsValid packet_loss_ratio i =
      (ops.lt packet_loss_ratio i.measured_low.loss_fraction ≡ false)
      × (ops.lt packet_loss_ratio i.measured_high.loss_fraction ≡ true)

  -- The measurement is strictly within the interval.
  abbrev pub IsInternal : ReceiveRateInterval F → ReceiveRateMeasurement F → Type 0
  IsInternal old m =
      (ops.lt old.measured_low.target_tr m.target_tr ≡ true)
      × (ops.lt m.target_tr old.measured_high.target_tr ≡ true)

  -- `==` tells rates apart that `<` does.
  pub record Equality : Type 0 where
    pub lower_differs : (a b : F) → ops.lt a b ≡ true → ops.eq a b ≡ false
    pub higher_differs : (a b : F) → ops.lt a b ≡ true → ops.eq b a ≡ false

  -- A measurement strictly within a valid interval becomes the bound that its own loss says, the other
  -- bound stays, and the interval is valid again.
  pub new_interval-IsValid :
      (old : ReceiveRateInterval F) (m : ReceiveRateMeasurement F) (packet_loss_ratio : F)
      → Order ops
      → Equality
      → IsValid packet_loss_ratio old
      → IsInternal old m
      → Yields
          (λ i.
            WellFormed i
            × IsValid packet_loss_ratio i
            × (((i.measured_low ≡ m) × (i.measured_high ≡ old.measured_high))
                ⊎ ((i.measured_low ≡ old.measured_low) × (i.measured_high ≡ m))))
          (new_interval ops old m packet_loss_ratio)
  unfolding new_interval
  new_interval-IsValid old m plr order equality (low_ok, high_lossy) (above, below) =
      rw
        (
          equality.higher_differs _ _ above,
          equality.lower_differs _ _ below,
          low_ok,
          order.asymmetric _ _ above,
          order.asymmetric _ _ below,
        )
        (elim (Bool-cases (ops.lt plr m.loss_fraction)) [
          | inl lossy ↦ rw lossy (
              Yields-map _ _ (receive_rate_interval ops old.measured_low m)
                (receive_rate_interval-Ordered _ _ (order.asymmetric _ _ above))
                (λ i (w, l, h). (w, (rw l low_ok, rw h lossy), inr (l, h))))
          | inr fine ↦ rw fine (
              Yields-map _ _ (receive_rate_interval ops m old.measured_high)
                (receive_rate_interval-Ordered _ _ (order.asymmetric _ _ below))
                (λ i (w, l, h). (w, (rw l fine, rw h high_lossy), inl (l, h))))
        ])
