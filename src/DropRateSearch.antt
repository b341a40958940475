-- ===== src/DropRateSearch.antt =====
-- resources/libraries/python/DropRateSearch.py: the searches for the highest rate with acceptable loss.
-- A rate is a `float` of Python: its operations are an argument, a record. `measure_loss` is abstract
-- in the source: whether a trial at a rate passes is any function of the rates measured before it.
pub mod Setters
pub mod Linear
pub mod Binary
mod Combined
mod Tests
use csit.Base.{
  ℕ, zero, suc, ltb, Bool, true, false, not, ◌&&◌, ◌||◌, Option, none, some, List, [], ◌∷◌,
  if◌then◌else◌, any,
}
use csit.Base.Int.{ℤ}
use csit.Base.Text.{Text, codes}
use csit.Base.Result.{Result, ok, raise, value_error, plain_exception, runtime_error, type_error}

-- What the code does with rates: `<`, `<=`, `==`, `+`, `-`, `x / 2`, `abs(x - y)`, zero, `bool(x)`,
-- and `1e-9 * x`.
pub record Ops (F : Type 0) : Type 0 where
  pub lt : F → F → Bool
  pub le : F → F → Bool
  pub eq : F → F → Bool
  pub add : F → F → F
  pub sub : F → F → F
  pub half : F → F
  pub distance : F → F → F
  pub none_at_all : F
  pub truth : F → Bool
  pub billionth : F → F

pub data SearchDirection : Type 0 where
  top_down bottom_up : SearchDirection

pub data SearchResults : Type 0 where
  success failure suspicious : SearchResults

pub data SearchResultType : Type 0 where
  best_of_n worst_of_n : SearchResultType

pub data RateType : Type 0 where
  percentage bits_per_second packets_per_second : RateType

pub data LossAcceptanceType : Type 0 where
  frames_lost percentage_lost : LossAcceptanceType

-- How a round of the linear search goes on, from whether the rate passes, whether the next one is
-- below the lowest, and whether this one is the lowest.
abbrev pub linear_next {ℓ} :
    {A : Type ℓ} → SearchDirection → Bool → Bool → Bool → A → A → A → A → A → A
linear_next bottom_up passed below lowest unknown found failed at_min further = unknown
linear_next top_down true below lowest unknown found failed at_min further = found
linear_next top_down false false lowest unknown found failed at_min further = further
linear_next top_down false true true unknown found failed at_min further = failed
linear_next top_down false true false unknown found failed at_min further = at_min

-- The attributes, and the rates measured so far, the latest first.
pub record DropRateSearch (F : Type 0) : Type 0 where
  pub duration : ℤ
  pub rate_start : F
  pub rate_type : RateType
  pub loss_acceptance : F
  pub loss_acceptance_type : LossAcceptanceType
  pub frame_size : Text
  pub rate_linear_step : F
  pub last_binary_rate : F
  pub search_linear_direction : SearchDirection
  pub rate_max : F
  pub rate_min : F
  pub binary_convergence_threshold : F
  pub max_attempts : ℕ
  pub search_result_type : SearchResultType
  pub search_result : Option SearchResults
  pub search_result_rate : Option F
  pub measured : List F

abbrev pub all_true : List Bool → Bool
all_true [] = true
all_true (b ∷ bs) = b && all_true bs

-- `_get_best_of_n` and `_get_worst_of_n`, and the choice between them.
unfoldable pub get_res_based_on_search_type : SearchResultType → List Bool → Bool
get_res_based_on_search_type best_of_n res_list = any (λ b. b) res_list
get_res_based_on_search_type worst_of_n res_list = all_true res_list

-- The search result, if it is one, for `verify_search_result` and `combined_search`.
abbrev pub is_found : Option SearchResults → Bool
is_found none = false
is_found (some success) = true
is_found (some failure) = false
is_found (some suspicious) = true

module _ {F : Type 0} where
  unfoldable pub verify_search_result : DropRateSearch F → Result (Option F)
  verify_search_result self =
      if is_found self.search_result then ok self.search_result_rate else raise plain_exception

  abbrev pub concluded : DropRateSearch F → SearchResults → Option F → DropRateSearch F
  concluded self result rate = record self {
    search_result = some result;
    search_result_rate = rate;
  }

module _ {F : Type 0} (ops : Ops F) where
  unfoldable pub set_search_rate_boundaries : DropRateSearch F → F → F → Result (DropRateSearch F)
  set_search_rate_boundaries self max_rate min_rate =
      if ops.le min_rate ops.none_at_all
      then raise value_error
      else if ops.lt max_rate min_rate
      then raise value_error
      else ok (record self { rate_max = max_rate; rate_min = min_rate })

  unfoldable pub set_max_attempts : DropRateSearch F → ℕ → Result (DropRateSearch F)
  set_max_attempts self max_attempts =
      if ltb 0 max_attempts
      then ok (record self { max_attempts = max_attempts })
      else raise value_error

  -- `self._rate_min <= rate <= self._rate_max`
  abbrev pub in_range : DropRateSearch F → F → Bool
  in_range self rate = ops.le self.rate_min rate && ops.le rate self.rate_max

  -- The `for` loop of trials at one rate.
  unfoldable pub attempts :
      (List F → F → Bool) → ℕ → F → DropRateSearch F → DropRateSearch F × List Bool
  attempts measure_loss zero rate self = (self, [])
  attempts measure_loss (suc n) rate self =
      let tried = record self { measured = rate ∷ self.measured } in
      let (last, res) = attempts measure_loss n rate tried in
      (last, measure_loss self.measured rate ∷ res)

  abbrev pub larger : F → F → F
  larger a b = if ops.lt a b then b else a

  -- With the default tolerances, `rel_tol` a billionth and `abs_tol` zero.
  unfoldable pub floats_are_close_equal : F → F → Bool
  floats_are_close_equal num_a num_b =
      let size = larger (ops.distance num_a ops.none_at_all) (ops.distance num_b ops.none_at_all) in
      if ops.eq num_a num_b
      then true
      else ops.le (ops.distance num_b num_a) (larger (ops.billionth size) ops.none_at_all)

  -- `SUCCESS if self._search_result_rate else FAILURE`
  abbrev pub converged : Option F → SearchResults
  converged none = failure
  converged (some rate) = if ops.truth rate then success else failure

  abbrev pub binary_rate : F → F → Bool → F
  binary_rate b_min b_max skip_max_rate =
      if skip_max_rate then ops.add (ops.half (ops.sub b_max b_min)) b_min else b_max

  -- The recursion, for a number of calls; `none` stands for more calls.
  module _ (measure_loss : List F → F → Bool) where
    abbrev pub tried : F → DropRateSearch F → DropRateSearch F
    tried rate self = (attempts measure_loss self.max_attempts rate self).0

    -- `res` after the loop: whether the rate passes.
    abbrev pub passes : F → DropRateSearch F → Bool
    passes rate self =
        get_res_based_on_search_type self.search_result_type
          (attempts measure_loss self.max_attempts rate self).1

    -- The `while` loop, for a number of rounds; `none` stands for more rounds.
    unfoldable pub linear_loop :
        ℕ → F → DropRateSearch F → Option (DropRateSearch F × Result (Unit {0}))
    linear_loop zero rate self = none
    linear_loop (suc rounds) rate self =
        let after = tried rate self in
        let lower = ops.sub rate self.rate_linear_step in
        let at_min = linear_loop rounds self.rate_min after in
        let further = linear_loop rounds lower after in
        linear_next self.search_linear_direction (passes rate self) (ops.lt lower self.rate_min)
          (ops.eq rate self.rate_min) (some (after, raise plain_exception))
          (some (concluded after success (some rate), ok tt))
          (some (concluded after failure none, ok tt)) at_min further

    unfoldable pub linear_search :
        ℕ → F → DropRateSearch F → Option (DropRateSearch F × Result (Unit {0}))
    linear_search rounds start_rate self =
        let searched = linear_loop rounds start_rate self in
        if in_range self start_rate then searched else some (self, raise value_error)

    unfoldable pub binary_search :
        ℕ → F → F → Bool → DropRateSearch F → Option (DropRateSearch F × Result (Unit {0}))
    binary_search zero b_min b_max skip_max_rate self = none
    binary_search (suc calls) b_min b_max skip_max_rate self =
        let rate = binary_rate b_min b_max skip_max_rate in
        let started = record self { last_binary_rate = rate } in
        let after = tried rate started in
        let lower_half = binary_search calls b_min rate true after in
        let upper_half =
          binary_search calls rate b_max true (record after { search_result_rate = some rate }) in
        if not (in_range self b_min)
        then some (self, raise value_error)
        else if not (in_range self b_max)
        then some (self, raise value_error)
        else if ops.lt b_max b_min
        then some (self, raise value_error)
        else if ops.lt (ops.distance self.last_binary_rate rate) self.binary_convergence_threshold
        then some (record self { search_result = some (converged self.search_result_rate) }, ok tt)
        else if passes rate started
        then upper_half
        else lower_half

    -- What `combined_search` does after the binary search, and its result.
    abbrev pub kept_or_suspicious :
        DropRateSearch F
        → Option F
        → Option SearchResults
        → Option (DropRateSearch F × Result (Unit {0}))
    kept_or_suspicious self temp_rate (some success) = some (self, ok tt)
    kept_or_suspicious self temp_rate _ = some (concluded self suspicious temp_rate, ok tt)

    abbrev pub refined :
        Option F
        → Option (DropRateSearch F × Result (Unit {0}))
        → Option (DropRateSearch F × Result (Unit {0}))
    refined temp_rate none = none
    refined temp_rate (some (self, raise e)) = some (self, raise e)
    refined temp_rate (some (self, ok _)) = kept_or_suspicious self temp_rate self.search_result

    -- And after the linear search; `float(None)` and `None + x` raise `TypeError`.
    unfoldable pub refine :
        ℕ → DropRateSearch F × Result (Unit {0}) → Option (DropRateSearch F × Result (Unit {0}))
    refine calls (self, raise e) = some (self, raise e)
    refine calls (self, ok _) =
        if is_found self.search_result
        then (elim self.search_result_rate [
          | none ↦ some (self, raise type_error)
          | some b_min ↦
              let b_max = ops.add b_min self.rate_linear_step in
              let limited = if ops.lt self.rate_max b_max then self.rate_max else b_max in
              let searched =
                binary_search calls b_min limited true
                  (record self { search_result_rate = none }) in
              if floats_are_close_equal b_min self.rate_max
              then some (self, ok tt)
              else refined (some b_min) searched
        ])
        else some (self, raise runtime_error)

    unfoldable pub combined_search :
        ℕ → ℕ → F → DropRateSearch F → Option (DropRateSearch F × Result (Unit {0}))
    combined_search rounds calls start_rate self = elim (linear_search rounds start_rate self) [
      | none ↦ none
      | some (after, result) ↦ refine calls (after, result)
    ]
