-- ===== src/OptionString/Parts.antt =====
-- What each way of adding does to the parts.
use csit.Base.{
  Bool, ◌≡◌, ap, ◌&&◌, List, [], ◌∷◌, ◌++◌, none, some, false, refl, arith, if◌then◌else◌,
}
use csit.Base.Dict.{Dict, lookup, get_or-missing}
use csit.Base.Text.{Text, codes, non_empty, join}
use csit.Base.Text.Trim.{IsEmptyOrTrim, strip_of_trim}
use csit.OptionString.{
  OptionString, Object, truth_of, or_false_text, converted, add, add_if, add_with_value_if,
  add_equals_if, add_with_value, add_equals, add_if_from_dict, add_with_value_if_from_dict,
  add_equals_if_from_dict,
}

-- A value that the code adds: it converts to a non-empty text.
abbrev pub adds : Object → Bool
adds o = non_empty (converted o)

abbrev pub with_parts : OptionString → List Text → OptionString
with_parts self more = record self { parts = self.parts ++ more }

pub add_lem :
    (self : OptionString) (p : Object)
    → add self p ≡ (if adds p then with_parts self ((self.prefix ++ converted p) ∷ []) else self)
unfolding add
add_lem self p = ground arith

module _ (self : OptionString) (p v : Object) (trim : IsEmptyOrTrim self.prefix) where
  pub add_with_value_lem : add_with_value self p v ≡ (
      if adds p && adds v
      then with_parts self ((self.prefix ++ converted p) ∷ converted v ∷ [])
      else self)
  unfolding add_with_value
  add_with_value_lem = ground (arith, strip_of_trim self.prefix trim)

  pub add_equals_lem : add_equals self p v ≡ (
      if adds p && adds v
      then with_parts self (((self.prefix ++ converted p) ++ (codes "=" ++ converted v)) ∷ [])
      else self)
  unfolding add_equals join
  add_equals_lem = ground (arith, strip_of_trim self.prefix trim)

-- A parameter and its value are added together or not at all: both when both convert to a non-empty
-- text, as two parts or as one part with an equals sign, with the prefix on the parameter alone;
-- else the builder is unchanged. The builder's own prefix is taken to be stripped.
pub add_pair_atomic :
    (self : OptionString) (p v : Object)
    → IsEmptyOrTrim self.prefix
    → (add_with_value self p v ≡ (
        if adds p && adds v
        then with_parts self ((self.prefix ++ converted p) ∷ converted v ∷ [])
        else self))
      × (add_equals self p v ≡ (
          if adds p && adds v
          then with_parts self (((self.prefix ++ converted p) ++ (codes "=" ++ converted v)) ∷ [])
          else self))
add_pair_atomic self p v trim = (add_with_value_lem self p v trim, add_equals_lem self p v trim)

-- Without an argument for the default condition, a key that the mapping lacks makes the three methods
-- add what their unconditional counterparts add; with an argument that is false, they add nothing then.
pub missing_key_adds :
    (self : OptionString) (p v condition : Object) (key : Text) (mapping : Dict Object)
    → lookup key mapping ≡ none
    → truth_of condition ≡ false
    → ((add_if_from_dict self p key mapping none ≡ add self p)
        × (add_with_value_if_from_dict self p v key mapping none ≡ add_with_value self p v)
        × (add_equals_if_from_dict self p v key mapping none ≡ add_equals self p v))
      × ((add_if_from_dict self p key mapping (some condition) ≡ self)
          × (add_with_value_if_from_dict self p v key mapping (some condition) ≡ self)
          × (add_equals_if_from_dict self p v key mapping (some condition) ≡ self))
unfolding add_if_from_dict add_with_value_if_from_dict add_equals_if_from_dict add_if
    add_with_value_if add_equals_if
missing_key_adds self p v condition key mapping missing is_false =
    let absent = get_or-missing key mapping (or_false_text none) missing in
    let given = get_or-missing key mapping condition missing in
    (
      (
        ap (add_if self p) absent,
        ap (add_with_value_if self p v) absent,
        ap (add_equals_if self p v) absent,
      ),
      (rw (given, is_false) refl, rw (given, is_false) refl, rw (given, is_false) refl),
    )
