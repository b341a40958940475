-- ===== src/Base/Text/Words.antt =====
-- Splitting a text at one character, and its inverse on words that do not hold the character.
use Prim.Native.Nat.{ℕ}
use mathlib.Core.Path.{◌≡◌, refl, ap}
use mathlib.Core.Bool.{Bool, true, not, ◌&&◌}
use mathlib.Core.List.{List, [], ◌∷◌, ◌++◌}
use native.Mathlib.Omega.{arith}
use csit.Base.Tests.{◌==◌, if◌then◌else◌}
use csit.Base.Lists.{All}
use csit.Base.Text.{Text, join}

-- `s.split(c)` for one character `c`: as many texts as there are separators, and one.
abbrev on_head : ℕ → List Text → List Text
on_head x [] = (x ∷ []) ∷ []
on_head x (w ∷ ws) = (x ∷ w) ∷ ws

unfoldable pub split : ℕ → Text → List Text
split c [] = [] ∷ []
split c (x ∷ s) = let rest = split c s in if x == c then [] ∷ rest else on_head x rest

-- `c in s` fails.
abbrev pub lacks : ℕ → Text → Bool
lacks c [] = true
lacks c (x ∷ s) = not (x == c) && lacks c s

abbrev pub Lacks : ℕ → Text → Type 0
Lacks c s = lacks c s ≡ true

pub split-append : (c : ℕ) (s t : Text) → Lacks c s → split c (s ++ c ∷ t) ≡ s ∷ split c t
unfolding split
split-append c [] t h = ground arith
split-append c (x ∷ s) t h = ground (arith, split-append c s t)

pub split-word : (c : ℕ) (s : Text) → Lacks c s → split c s ≡ s ∷ []
unfolding split
split-word c [] h = refl
split-word c (x ∷ s) h = ground (arith, split-word c s)

-- Splitting at the separator gives back words that do not hold it.
pub split-join :
    (c : ℕ) (s : Text) (ts : List Text)
    → Lacks c s
    → All (Lacks c) ts
    → split c (join (c ∷ []) (s ∷ ts)) ≡ s ∷ ts
unfolding join
split-join c s [] h g = split-word c s h
split-join c s (t ∷ ts) h g =
    rw (split-append c s _ h) (ap (λ l. s ∷ l) (split-join c t ts g.0 g.1))
