-- ===== src/Base/Text/Trim.antt =====
-- A trimmed text is not empty and has whitespace at neither end.
use Prim.Native.Nat.{ℕ}
use mathlib.Core.Path.{◌≡◌, refl}
use mathlib.Core.Logic.{◌⊎◌, inl, inr}
use mathlib.Core.Bool.{Bool, true, false, not, ◌&&◌}
use mathlib.Core.List.{List, [], ◌∷◌, ◌++◌}
use native.Mathlib.Omega.{arith}
use csit.Base.Tests.{if◌then◌else◌}
use csit.Base.Lists.{All}
use csit.Base.Text.{Text, is_space, non_empty, lstrip, rstrip, strip, join}

abbrev pub starts_ok : Text → Bool
starts_ok [] = false
starts_ok (c ∷ s) = not (is_space c)

abbrev pub ends_ok : Text → Bool
ends_ok [] = false
ends_ok (c ∷ []) = not (is_space c)
ends_ok (c ∷ d ∷ s) = ends_ok (d ∷ s)

pub record IsTrim (s : Text) : Type 0 where
  pub starts : starts_ok s ≡ true
  pub ends : ends_ok s ≡ true

-- A prefix, which may be empty.
abbrev pub IsEmptyOrTrim : Text → Type 0
IsEmptyOrTrim s = (s ≡ []) ⊎ IsTrim s

abbrev drop_space : ℕ → Text → Text
drop_space c r = if not (non_empty r) && is_space c then [] else c ∷ r

ends_ok-drop_space :
    (c : ℕ) (r : Text)
    → (r ≡ []) ⊎ (ends_ok r ≡ true)
    → (drop_space c r ≡ []) ⊎ (ends_ok (drop_space c r) ≡ true)
ends_ok-drop_space c [] h = ground arith
ends_ok-drop_space c (d ∷ r) (inl e) = cc
ends_ok-drop_space c (d ∷ r) (inr e) = inr e

ends_ok-rstrip : (s : Text) → (rstrip s ≡ []) ⊎ (ends_ok (rstrip s) ≡ true)
unfolding rstrip
ends_ok-rstrip [] = inl refl
ends_ok-rstrip (c ∷ s) = ends_ok-drop_space c (rstrip s) (ends_ok-rstrip s)

starts_ok-lstrip : (s : Text) → (lstrip s ≡ []) ⊎ (starts_ok (lstrip s) ≡ true)
unfolding lstrip
starts_ok-lstrip [] = inl refl
starts_ok-lstrip (c ∷ s) = ground (arith, starts_ok-lstrip s)

starts_ok-rstrip : (s : Text) → starts_ok s ≡ true → starts_ok (rstrip s) ≡ true
unfolding rstrip
starts_ok-rstrip [] h = h
starts_ok-rstrip (c ∷ s) h = ground arith

IsTrim-rstrip : (s : Text) → (s ≡ []) ⊎ (starts_ok s ≡ true) → IsEmptyOrTrim (rstrip s)
IsTrim-rstrip s (inl e) = inl (rw e (unfold rstrip in refl))
IsTrim-rstrip s (inr h) = elim (ends_ok-rstrip s) [
  | inl e ↦ inl e
  | inr g ↦ inr (record { starts = starts_ok-rstrip s h; ends = g })
]

pub strip-IsTrim : (s : Text) → IsEmptyOrTrim (strip s)
unfolding strip
strip-IsTrim s = IsTrim-rstrip (lstrip s) (starts_ok-lstrip s)

pub strip-IsTrim_of_non_empty : (s : Text) → non_empty (strip s) ≡ true → IsTrim (strip s)
strip-IsTrim_of_non_empty s h = elim (strip-IsTrim s) [ inl e ↦ cc | inr t ↦ t ]

starts_ok-append : (s t : Text) → starts_ok s ≡ true → starts_ok (s ++ t) ≡ true
starts_ok-append [] t h = cc
starts_ok-append (c ∷ s) t h = h

ends_ok-cons : (c : ℕ) (s : Text) → ends_ok s ≡ true → ends_ok (c ∷ s) ≡ true
ends_ok-cons c [] h = cc
ends_ok-cons c (d ∷ s) h = h

ends_ok-append : (s t : Text) → ends_ok t ≡ true → ends_ok (s ++ t) ≡ true
ends_ok-append [] t h = h
ends_ok-append (c ∷ s) t h = ends_ok-cons c (s ++ t) (ends_ok-append s t h)

pub IsTrim-append : {s t : Text} (u : Text) → IsTrim s → IsTrim t → IsTrim (s ++ (u ++ t))
IsTrim-append {s} {t} u h g = record {
  starts = starts_ok-append s (u ++ t) h.starts;
  ends = ends_ok-append s (u ++ t) (ends_ok-append u t g.ends);
}

pub IsTrim-prefix : {s t : Text} → IsEmptyOrTrim s → IsTrim t → IsTrim (s ++ t)
IsTrim-prefix {s} {t} (inl e) g = rw e g
IsTrim-prefix {s} {t} (inr h) g = IsTrim-append [] h g

-- Trimmed texts joined by any separator have whitespace at neither end.
pub join-IsTrim :
    (sep s : Text) (ts : List Text) → IsTrim s → All IsTrim ts → IsTrim (join sep (s ∷ ts))
unfolding join
join-IsTrim sep s [] h g = h
join-IsTrim sep s (t ∷ ts) h g = IsTrim-append sep h (join-IsTrim sep t ts g.0 g.1)

lstrip_of_starts_ok : (s : Text) → starts_ok s ≡ true → lstrip s ≡ s
unfolding lstrip
lstrip_of_starts_ok [] h = refl
lstrip_of_starts_ok (c ∷ s) h = ground arith

rstrip_of_ends_ok : (s : Text) → ends_ok s ≡ true → rstrip s ≡ s
unfolding rstrip
rstrip_of_ends_ok [] h = refl
rstrip_of_ends_ok (c ∷ []) h = ground arith
rstrip_of_ends_ok (c ∷ d ∷ s) h = rw (rstrip_of_ends_ok (d ∷ s) h)

-- Stripping what is stripped changes nothing.
pub strip_of_trim : (s : Text) → IsEmptyOrTrim s → strip s ≡ s
unfolding strip
strip_of_trim s (inl e) = rw e
strip_of_trim s (inr h) = rw (lstrip_of_starts_ok s h.starts) (rstrip_of_ends_ok s h.ends)
