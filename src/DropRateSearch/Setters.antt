-- ===== src/DropRateSearch/Setters.antt =====
-- resources/libraries/python/DropRateSearch.py: the methods that set and read one attribute.
use csit.Base.{ℕ, Bool, true, false, if◌then◌else◌}
use csit.Base.Int.{ℤ}
use csit.Base.Text.{Text, codes}
use csit.Base.Result.{Result, ok, raise, value_error}
use csit.DropRateSearch.{
  Ops, DropRateSearch, RateType, percentage, bits_per_second, packets_per_second,
  LossAcceptanceType, frames_lost, percentage_lost, SearchResultType, best_of_n, worst_of_n,
}

abbrev pub is_percentage : LossAcceptanceType → Bool
is_percentage frames_lost = false
is_percentage percentage_lost = true

abbrev pub rate_type_text : RateType → Text
rate_type_text percentage = codes "%"
rate_type_text bits_per_second = codes "bps"
rate_type_text packets_per_second = codes "pps"

module _ {F : Type 0} where
  unfoldable pub set_loss_acceptance : Ops F → DropRateSearch F → F → Result (DropRateSearch F)
  set_loss_acceptance ops self loss_acceptance =
      if ops.le ops.none_at_all loss_acceptance
      then ok (record self { loss_acceptance = loss_acceptance })
      else raise value_error

  unfoldable pub get_loss_acceptance : DropRateSearch F → F
  get_loss_acceptance self = self.loss_acceptance

  unfoldable pub set_loss_acceptance_type_percentage : DropRateSearch F → DropRateSearch F
  set_loss_acceptance_type_percentage self = record self { loss_acceptance_type = percentage_lost }

  unfoldable pub set_loss_acceptance_type_frames : DropRateSearch F → DropRateSearch F
  set_loss_acceptance_type_frames self = record self { loss_acceptance_type = frames_lost }

  unfoldable pub loss_acceptance_type_is_percentage : DropRateSearch F → Bool
  loss_acceptance_type_is_percentage self = is_percentage self.loss_acceptance_type

  unfoldable pub set_search_linear_step : DropRateSearch F → F → DropRateSearch F
  set_search_linear_step self step_rate = record self { rate_linear_step = step_rate }

  -- For one of the types; nothing else is passed.
  unfoldable pub set_search_rate_type : DropRateSearch F → RateType → DropRateSearch F
  set_search_rate_type self rate_type = record self { rate_type = rate_type }

  unfoldable pub set_search_rate_type_percentage : DropRateSearch F → DropRateSearch F
  set_search_rate_type_percentage self = set_search_rate_type self percentage

  unfoldable pub set_search_rate_type_bps : DropRateSearch F → DropRateSearch F
  set_search_rate_type_bps self = set_search_rate_type self bits_per_second

  unfoldable pub set_search_rate_type_pps : DropRateSearch F → DropRateSearch F
  set_search_rate_type_pps self = set_search_rate_type self packets_per_second

  unfoldable pub set_search_frame_size : DropRateSearch F → Text → DropRateSearch F
  set_search_frame_size self frame_size = record self { frame_size = frame_size }

  unfoldable pub set_duration : DropRateSearch F → ℤ → DropRateSearch F
  set_duration self duration = record self { duration = duration }

  unfoldable pub get_duration : DropRateSearch F → ℤ
  get_duration self = self.duration

  unfoldable pub set_binary_convergence_threshold : DropRateSearch F → F → DropRateSearch F
  set_binary_convergence_threshold self convergence = record self {
    binary_convergence_threshold = convergence;
  }

  unfoldable pub get_binary_convergence_threshold : DropRateSearch F → F
  get_binary_convergence_threshold self = self.binary_convergence_threshold

  unfoldable pub get_rate_type_str : DropRateSearch F → Text
  get_rate_type_str self = rate_type_text self.rate_type

  unfoldable pub get_max_attempts : DropRateSearch F → ℕ
  get_max_attempts self = self.max_attempts

  unfoldable pub set_search_result_type : DropRateSearch F → SearchResultType → DropRateSearch F
  set_search_result_type self search_type = record self { search_result_type = search_type }

  unfoldable pub set_search_result_type_best_of_n : DropRateSearch F → DropRateSearch F
  set_search_result_type_best_of_n self = set_search_result_type self best_of_n

  unfoldable pub set_search_result_type_worst_of_n : DropRateSearch F → DropRateSearch F
  set_search_result_type_worst_of_n self = set_search_result_type self worst_of_n
