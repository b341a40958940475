-- ===== src/Base/Text/Lines.antt =====
-- `str.splitlines`, and `in` of two texts.
use Prim.Native.Nat.{ℕ}
use mathlib.Core.Bool.{Bool, false, ◌&&◌, ◌||◌}
use mathlib.Core.List.{List, [], ◌∷◌}
use csit.Base.Tests.{◌==◌, leb, if◌then◌else◌}
use csit.Base.Text.{Text, starts_with}

-- `str.splitlines`: the characters that end a line, and the lines after a carriage return or not.
abbrev is_line_break : ℕ → Bool
is_line_break x =
    (leb 10 x && leb x 13) || (leb 28 x && leb x 30) || (x == 133) || (x == 0x2028) || (x == 0x2029)

abbrev on_head : ℕ → List Text → List Text
on_head x [] = (x ∷ []) ∷ []
on_head x (line ∷ lines) = (x ∷ line) ∷ lines

lines_from : Bool → Text → List Text
lines_from after_cr [] = []
lines_from after_cr (x ∷ s) =
    let rest = lines_from (x == 13) s in
    if after_cr && (x == 10) then rest else if is_line_break x then [] ∷ rest else on_head x rest

unfoldable pub splitlines : Text → List Text
unfolding lines_from
splitlines s = lines_from false s

-- `word in text`
unfoldable pub contains : Text → Text → Bool
unfolding starts_with
contains word [] = starts_with [] word
contains word (c ∷ s) = starts_with (c ∷ s) word || contains word s
