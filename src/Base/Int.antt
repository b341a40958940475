-- ===== src/Base/Int.antt =====
-- Python's integers: `negsuc n` is -(n + 1). With `==`, the successor, `str` and `int`.
use Prim.Native.Nat.{ℕ, zero, suc, ◌+◌, ◌-◌, ◌*◌, ◌/◌, ◌%◌}
use mathlib.Core.Path.{◌≡◌, refl}
use mathlib.Core.Logic.{◌↔◌}
use mathlib.Core.Bool.{Bool, true, false, ◌&&◌, ◌||◌}
use mathlib.Core.Option
use mathlib.Core.Option.{Option, none, some}
use mathlib.Core.List.{[], ◌∷◌}
use native.Mathlib.Omega.{arith}
use csit.Base.Tests.{◌==◌, leb, ltb, if◌then◌else◌}
use csit.Base.Text.{Text, strip}

pub data ℤ : Type 0 where
  pos : ℕ → ℤ
  negsuc : ℕ → ℤ

abbrev pub int_eq : ℤ → ℤ → Bool
int_eq (pos a) (pos b) = a == b
int_eq (negsuc a) (negsuc b) = a == b
int_eq _ _ = false

pub int_eq_iff : (a b : ℤ) → (int_eq a b ≡ true) ↔ (a ≡ b)
int_eq_iff (pos a) (pos b) = ground arith
int_eq_iff _ _ = ground arith

-- `a + 1`
abbrev pub succ : ℤ → ℤ
succ (pos n) = pos (suc n)
succ (negsuc zero) = pos 0
succ (negsuc (suc n)) = negsuc n

-- The difference of two naturals.
abbrev pub difference : ℕ → ℕ → ℤ
difference a b = if leb b a then pos (a - b) else negsuc (b - suc a)

infixl 60 ◌-ℤ◌
abbrev pub ◌-ℤ◌ : ℤ → ℤ → ℤ
pos a -ℤ pos b = difference a b
pos a -ℤ negsuc b = pos (a + suc b)
negsuc a -ℤ pos b = negsuc (a + b)
negsuc a -ℤ negsuc b = difference b a

-- The decimal digits of `n`, in front of `tail`; any fuel above `n` is enough.
unfoldable pub digits_of : ℕ → ℕ → Text → Text
digits_of zero n tail = tail
digits_of (suc fuel) n tail =
    let rest = digits_of fuel (n / 10) ((48 + n % 10) ∷ tail) in
    if ltb n 10 then (48 + n) ∷ tail else rest

-- `str(a)`
unfoldable pub show_int : ℤ → Text
unfolding digits_of
show_int (pos n) = digits_of (suc n) n []
show_int (negsuc n) = 45 ∷ digits_of (suc (suc n)) (suc n) []

is_digit : ℕ → Bool
is_digit c = leb 48 c && leb c 57

-- Digits with single underscores between them, as `int` reads them.
read_digits : ℕ → Bool → Text → Option ℕ
read_digits n after_digit [] = if after_digit then some n else none
read_digits n after_digit (c ∷ s) =
    let digit = is_digit c in
    let next = read_digits (if digit then n * 10 + (c - 48) else n) digit s in
    if digit || (after_digit && c == 95) then next else none

negated : ℕ → ℤ
negated zero = pos 0
negated (suc n) = negsuc n

read_signed : Text → Option ℤ
read_signed [] = none
read_signed (c ∷ s) =
    if c == 45
    then Option.map negated (read_digits 0 false s)
    else Option.map pos (read_digits 0 false (if c == 43 then s else c ∷ s))

-- `int(s)` of an ASCII text; no value stands for `ValueError`.
unfoldable pub read_int : Text → Option ℤ
unfolding read_signed read_digits is_digit negated strip
read_int s = read_signed (strip s)

read_int_runs :
    (read_int (45 ∷ 49 ∷ 50 ∷ []) ≡ some (negsuc 11))
    × (read_int (32 ∷ 49 ∷ 95 ∷ 48 ∷ 10 ∷ []) ≡ some (pos 10))
    × (read_int [] ≡ none)
    × (show_int (negsuc 119) ≡ 45 ∷ 49 ∷ 50 ∷ 48 ∷ [])
unfolding read_int show_int
read_int_runs = (refl, refl, refl, refl)
