-- ===== src/DropRateSearch/Tests.antt =====
-- Searches over whole rates, for a device that passes up to a rate, and the theorems at them.
use csit.Base.{
  ℕ, ◌+◌, ◌-◌, ◌/◌, ◌<◌, ◌≤◌, ltb, leb, ◌==◌, ==_iff, Bool, true, false, Option, none, some, List,
  [], ◌≡◌, refl, ◌⊎◌, inl, inr, arith,
}
use csit.Base.Result.{Result, ok, raise, value_error, runtime_error}
use csit.DropRateSearch.{
  Ops, DropRateSearch, percentage, frames_lost, top_down, best_of_n, attempts, linear_search,
  linear_loop, binary_search, combined_search, refine, get_res_based_on_search_type,
  floats_are_close_equal, set_search_rate_boundaries, set_max_attempts, verify_search_result,
  converged,
}
use csit.Base.Int.{pos, negsuc}
use csit.Base.Text.{codes}
use csit.DropRateSearch.Setters.{
  set_loss_acceptance, set_loss_acceptance_type_percentage, loss_acceptance_type_is_percentage,
  set_loss_acceptance_type_frames, set_search_rate_type_pps, set_search_rate_type,
  get_rate_type_str, set_duration, get_duration,
}
use csit.DropRateSearch.Linear.{Since, Step, Ended, linear_search-Ended}
use csit.DropRateSearch.Binary.{Halving, Refined, binary_search-Refined}
use csit.DropRateSearch.Combined.{Growing, Combined, combined_search-Combined}

abbrev whole_rates : Ops ℕ
whole_rates = record {
  lt = ltb;
  le = leb;
  eq = λ a b. a == b;
  add = λ a b. a + b;
  sub = λ a b. a - b;
  half = λ a. a / 2;
  distance = λ a b. (a - b) + (b - a);
  none_at_all = 0;
  truth = ltb 0;
  billionth = λ a. a / 1000000000;
}

abbrev ready : DropRateSearch ℕ
ready = record {
  duration = pos 60;
  rate_start = 100;
  rate_type = percentage;
  loss_acceptance = 0;
  loss_acceptance_type = frames_lost;
  frame_size = codes "64";
  rate_linear_step = 10;
  last_binary_rate = 0;
  search_linear_direction = top_down;
  rate_max = 100;
  rate_min = 1;
  binary_convergence_threshold = 2;
  max_attempts = 1;
  search_result_type = best_of_n;
  search_result = none;
  search_result_rate = none;
  measured = [];
}

abbrev passes_up_to : ℕ → List ℕ → ℕ → Bool
passes_up_to limit before rate = leb rate limit

falls_by_10 : (rate : ℕ) → ltb (rate - 10) 1 ≡ false → rate - 10 < rate
falls_by_10 rate h = ground arith

at_least_1 : (rate : ℕ) → ltb rate 1 ≡ false → leb 1 rate ≡ true
at_least_1 rate h = ground arith

lowers_by_10 : (rate : ℕ) → leb rate 100 ≡ true → leb (rate - 10) 100 ≡ true
lowers_by_10 rate h = ground arith

abbrev ten_steps : Step whole_rates 1 100 10
ten_steps = record {
  height = λ r. r;
  falls = falls_by_10;
  below = refl;
  itself = refl;
  same = λ rate h. (==_iff rate 1).0 h;
  within = at_least_1;
  lowers = lowers_by_10;
  least = refl;
  ordered = refl;
}

module _ (a b : ℕ) (order : leb a b ≡ true) where
  middle_ge : leb a ((b - a) / 2 + a) ≡ true
  middle_ge = ground arith

  middle_le : leb ((b - a) / 2 + a) b ≡ true
  middle_le = ground arith

  middle_lower : ((b - a) / 2 + a) - a ≤ b - a
  middle_lower = ground arith

  middle_upper : b - ((b - a) / 2 + a) ≤ b - a
  middle_upper = ground arith

  middle_apart :
      (last : ℕ)
      → (last ≡ a) ⊎ (last ≡ b)
      → ltb ((last - ((b - a) / 2 + a)) + (((b - a) / 2 + a) - last)) 2 ≡ false
      → (((b - a) / 2 + a) - a < b - a) × (b - ((b - a) / 2 + a) < b - a)
  middle_apart last (inl e) apart = (ground arith, ground arith)
  middle_apart last (inr e) apart = (ground arith, ground arith)

leb_trans : (a b c : ℕ) → leb a b ≡ true → leb b c ≡ true → leb a c ≡ true
leb_trans a b c h k = ground arith

leb→ltb_false : (a b : ℕ) → leb a b ≡ true → ltb b a ≡ false
leb→ltb_false a b h = ground arith

abbrev halving : Halving whole_rates 2
halving = record {
  trans = leb_trans;
  not_less = leb→ltb_false;
  mid_ge = middle_ge;
  mid_le = middle_le;
  size = λ a b. b - a;
  size_lower = middle_lower;
  size_upper = middle_upper;
  progress = λ a b last h. middle_apart a b h last;
}

program : Unit {0}
unfolding attempts linear_search linear_loop binary_search combined_search refine
    get_res_based_on_search_type floats_are_close_equal set_search_rate_boundaries set_max_attempts
    verify_search_result
program = tt

-- Whether a search ended with a result, and its rate.
abbrev rate_of : Option (DropRateSearch ℕ × Result (Unit {0})) → Result (Option ℕ)
rate_of none = raise runtime_error
rate_of (some (self, ok _)) = verify_search_result self
rate_of (some (self, raise e)) = raise e

linear_42 : rate_of (linear_search whole_rates (passes_up_to 42) 20 100 ready) ≡ ok (some 40)
unfolding program
linear_42 = refl

combined_42 : rate_of (combined_search whole_rates (passes_up_to 42) 20 20 100 ready) ≡ ok (some 42)
unfolding program
combined_42 = refl

nothing_passes :
    rate_of (combined_search whole_rates (passes_up_to 0) 20 20 100 ready) ≡ raise runtime_error
unfolding program
nothing_passes = refl

too_fast : rate_of (linear_search whole_rates (passes_up_to 42) 20 101 ready) ≡ raise value_error
unfolding program
too_fast = refl

no_attempts : set_max_attempts whole_rates ready 0 ≡ raise value_error
unfolding program
no_attempts = refl

zero_rate : set_search_rate_boundaries whole_rates ready 100 0 ≡ raise value_error
unfolding program
zero_rate = refl

setters :
    (get_rate_type_str (set_search_rate_type_pps ready) ≡ codes "pps")
    × (loss_acceptance_type_is_percentage (set_loss_acceptance_type_percentage ready) ≡ true)
    × (loss_acceptance_type_is_percentage
          (set_loss_acceptance_type_frames (set_loss_acceptance_type_percentage ready))
        ≡ false)
    × (get_duration (set_duration ready (negsuc 0)) ≡ negsuc 0)
    × (set_loss_acceptance whole_rates ready 3 ≡ ok (record ready { loss_acceptance = 3 }))
unfolding get_rate_type_str set_search_rate_type_pps set_search_rate_type
    loss_acceptance_type_is_percentage set_loss_acceptance_type_percentage
    set_loss_acceptance_type_frames get_duration set_duration set_loss_acceptance
setters = (refl, refl, refl, refl, refl)

linear_search-Ended_example :
    (before : List ℕ) × (after : DropRateSearch ℕ) × (linear_search whole_rates
        (passes_up_to 42)
        102
        100
        ready
      ≡ some (after, ok tt))
    × Ended whole_rates (passes_up_to 42) ready before after
    × Since whole_rates (passes_up_to 42) [] before
linear_search-Ended_example =
    linear_search-Ended whole_rates (passes_up_to 42) 100 ready ten_steps refl refl

binary_search-Refined_example :
    (final : DropRateSearch ℕ) × (binary_search whole_rates (passes_up_to 42) 12 40 50 true ready
      ≡ some (final, ok tt))
    × (final.search_result ≡ some (converged whole_rates final.search_result_rate))
    × Refined whole_rates (passes_up_to 42) 40 50 ready final
    × Since whole_rates (passes_up_to 42) [] final.measured
binary_search-Refined_example =
    binary_search-Refined whole_rates (passes_up_to 42) 40 50 ready halving refl refl refl

at_least_itself : (a : ℕ) → leb a a ≡ true
at_least_itself a = ground arith

not_ltb→leb : (a b : ℕ) → ltb a b ≡ false → leb b a ≡ true
not_ltb→leb a b h = ground arith

up_by_10 : (a : ℕ) → leb a (a + 10) ≡ true
up_by_10 a = ground arith

abbrev growing : Growing whole_rates 10
growing = record { itself = at_least_itself; total = not_ltb→leb; grows = up_by_10 }

combined_search-Combined_example :
    (calls : ℕ) × (final : DropRateSearch ℕ) × (result : Result (Unit {0})) × (combined_search
        whole_rates
        (passes_up_to 42)
        102
        calls
        100
        ready
      ≡ some (final, result))
    × Combined whole_rates (passes_up_to 42) ready final result
combined_search-Combined_example =
    combined_search-Combined whole_rates (passes_up_to 42) 100 ready ten_steps halving growing refl
      refl
