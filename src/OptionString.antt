-- ===== src/OptionString.antt =====
-- resources/libraries/python/OptionString.py: a builder of option strings. A method that mutates
-- `self` and returns it is a function to the new state; the constructor's `parts` and the object
-- arguments are `Object`, of which the code reads `str`, the truth value and `is None` only.
pub mod Parts
pub mod Clean
mod Tests
use csit.Base.{Bool, true, false, Option, none, some, List, [], ◌∷◌, ◌++◌, map, if◌then◌else◌}
use csit.Base.Dict.{Dict, get_or}
use csit.Base.Text.{Text, codes, non_empty, strip, join}

-- A Python object: `None`, or one with its `str` and its truth value.
pub data Object : Type 0 where
  none_value : Object
  object : (shown : Text) (truth : Bool) → Object

abbrev pub text : Text → Object
text s = object s (non_empty s)

-- `str(o)` and `bool(o)`
abbrev pub str : Object → Text
str none_value = codes "None"
str (object shown truth) = shown

abbrev pub truth_of : Object → Bool
truth_of none_value = false
truth_of (object shown truth) = truth

pub record OptionString : Type 0 where
  pub parts : List Text
  pub prefix : Text

-- `OptionString(parts, prefix)`
unfoldable pub init : List Object → Object → OptionString
init parts prefix = record { parts = map str parts; prefix = strip (str prefix) }

unfoldable pub change_prefix : OptionString → Object → OptionString
change_prefix self prefix = record self { prefix = strip (str prefix) }

unfoldable pub extend : OptionString → OptionString → OptionString
extend self other = record self { parts = self.parts ++ other.parts }

-- `u"" if part is None else str(part).strip()`
unfoldable pub converted : Object → Text
converted none_value = []
converted (object shown truth) = strip shown

-- The new state, and the converted part without its prefix.
unfoldable pub check_and_add : OptionString → Object → Bool → OptionString × Text
check_and_add self part prefixed =
    let word = converted part in
    let prefixed_part = if prefixed then self.prefix ++ word else word in
    if non_empty word
    then (record self { parts = self.parts ++ prefixed_part ∷ [] }, word)
    else (self, word)

unfoldable pub add : OptionString → Object → OptionString
unfolding check_and_add
add self parameter = (check_and_add self parameter true).0

unfoldable pub add_if : OptionString → Object → Object → OptionString
unfolding add
add_if self parameter condition = if truth_of condition then add self parameter else self

-- `temp` of `add_with_value` and `add_equals` after both calls, if both added.
abbrev pub two_parts : OptionString → Object → Object → (OptionString → OptionString) → OptionString
two_parts self parameter value use_temp =
    let temp = init [] (text self.prefix) in
    let (temp_1, word) = check_and_add temp parameter true in
    let (temp_2, word_2) = check_and_add temp_1 value false in
    if non_empty word then if non_empty word_2 then use_temp temp_2 else self else self

unfoldable pub add_with_value : OptionString → Object → Object → OptionString
unfolding check_and_add init extend
add_with_value self parameter value = two_parts self parameter value (extend self)

unfoldable pub add_equals : OptionString → Object → Object → OptionString
unfolding check_and_add init
add_equals self parameter value =
    two_parts self parameter value
      (λ temp. record self { parts = self.parts ++ join (codes "=") temp.parts ∷ [] })

unfoldable pub add_with_value_if : OptionString → Object → Object → Object → OptionString
unfolding add_with_value
add_with_value_if self parameter value condition =
    if truth_of condition then add_with_value self parameter value else self

unfoldable pub add_equals_if : OptionString → Object → Object → Object → OptionString
unfolding add_equals
add_equals_if self parameter value condition =
    if truth_of condition then add_equals self parameter value else self

-- `default=u""` and `default=u"False"`: an argument, or the default in its place.
abbrev pub or_empty_text : Option Object → Object
or_empty_text none = text (codes "")
or_empty_text (some default) = default

abbrev pub or_false_text : Option Object → Object
or_false_text none = text (codes "False")
or_false_text (some default) = default

unfoldable pub add_with_value_from_dict :
    OptionString → Object → Text → Dict Object → Option Object → OptionString
unfolding add_with_value
add_with_value_from_dict self parameter key mapping default =
    add_with_value self parameter (get_or key mapping (or_empty_text default))

unfoldable pub add_equals_from_dict :
    OptionString → Object → Text → Dict Object → Option Object → OptionString
unfolding add_equals
add_equals_from_dict self parameter key mapping default =
    add_equals self parameter (get_or key mapping (or_empty_text default))

unfoldable pub add_if_from_dict :
    OptionString → Object → Text → Dict Object → Option Object → OptionString
unfolding add_if
add_if_from_dict self parameter key mapping default =
    add_if self parameter (get_or key mapping (or_false_text default))

unfoldable pub add_with_value_if_from_dict :
    OptionString → Object → Object → Text → Dict Object → Option Object → OptionString
unfolding add_with_value_if
add_with_value_if_from_dict self parameter value key mapping default =
    add_with_value_if self parameter value (get_or key mapping (or_false_text default))

unfoldable pub add_equals_if_from_dict :
    OptionString → Object → Object → Text → Dict Object → Option Object → OptionString
unfolding add_equals_if
add_equals_if_from_dict self parameter value key mapping default =
    add_equals_if self parameter value (get_or key mapping (or_false_text default))

-- `str(self)`
unfoldable pub to_str : OptionString → Text
to_str self = join (codes " ") self.parts
