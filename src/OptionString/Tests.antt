-- ===== src/OptionString/Tests.antt =====
-- Runs of the builder, and its theorems at concrete builders.
use csit.Base.{none, some, ◌≡◌, refl, ◌&&◌, [], ◌∷◌, ◌++◌, inl, All, if◌then◌else◌}
use csit.Base.Text.{codes, strip, lstrip, rstrip, is_space, join}
use csit.Base.Dict.{lookup}
use csit.Base.Text.Trim.{strip-IsTrim_of_non_empty, IsTrim, IsEmptyOrTrim}
use csit.OptionString.{
  OptionString, none_value, text, init, add, add_with_value, add_equals, add_if_from_dict,
  add_with_value_if_from_dict, add_equals_if_from_dict, converted, to_str,
}
use csit.OptionString.Parts.{adds, with_parts, add_pair_atomic, missing_key_adds}
use csit.OptionString.Clean.{
  StartsTrimmed, Calls, start, then_call, adding, with_value, equals, build, build_trimmed,
}

abbrev dashed : OptionString
dashed = record { parts = codes "cmd" ∷ []; prefix = codes "--" }

abbrev history : Calls
history =
    then_call
      (then_call (then_call (start (text (codes "cmd") ∷ [])) (adding (text (codes " v "))))
        (equals (text (codes "n")) (text (codes "2"))))
      (with_value (text (codes "empty")) none_value)

run_history : to_str (build (text (codes "-")) history) ≡ codes "cmd -v -n=2"
unfolding build to_str join strip init converted add add_equals add_with_value
run_history = refl

trimmed_word : IsTrim (codes "cmd")
unfolding strip lstrip rstrip is_space
trimmed_word = strip-IsTrim_of_non_empty (codes "cmd") refl

build_trimmed_example :
    All IsTrim (build (text (codes "-")) history).parts
    × IsEmptyOrTrim (to_str (build (text (codes "-")) history))
unfolding StartsTrimmed
build_trimmed_example =
    build_trimmed (text (codes "-")) history ((((trimmed_word, tt), tt), tt), tt)

abbrev command : OptionString
command = record { parts = codes "ls" ∷ codes "-l" ∷ []; prefix = [] }

add_pair_atomic_example :
    (add_with_value command (text (codes "a")) none_value ≡ (
      if adds (text (codes "a")) && adds none_value
      then with_parts command
          ((command.prefix ++ converted (text (codes "a"))) ∷ converted none_value ∷ [])
      else command))
    × (add_equals command (text (codes "a")) none_value ≡ (
        if adds (text (codes "a")) && adds none_value
        then with_parts command (
            ((command.prefix ++ converted (text (codes "a")))
              ++ (codes "=" ++ converted none_value))
            ∷ [])
        else command))
add_pair_atomic_example = add_pair_atomic command (text (codes "a")) none_value (inl refl)

missing_key_adds_example :
    ((add_if_from_dict command (text (codes "v")) (codes "verbose") [] none
        ≡ add command (text (codes "v")))
      × (add_with_value_if_from_dict command
            (text (codes "v"))
            (text (codes "2"))
            (codes "verbose")
            []
            none
          ≡ add_with_value command (text (codes "v")) (text (codes "2")))
      × (add_equals_if_from_dict command
            (text (codes "v"))
            (text (codes "2"))
            (codes "verbose")
            []
            none
          ≡ add_equals command (text (codes "v")) (text (codes "2"))))
    × ((add_if_from_dict command (text (codes "v")) (codes "verbose") [] (some none_value)
          ≡ command)
        × (add_with_value_if_from_dict command
              (text (codes "v"))
              (text (codes "2"))
              (codes "verbose")
              []
              (some none_value)
            ≡ command)
        × (add_equals_if_from_dict command
              (text (codes "v"))
              (text (codes "2"))
              (codes "verbose")
              []
              (some none_value)
            ≡ command))
unfolding lookup
missing_key_adds_example =
    missing_key_adds command (text (codes "v")) (text (codes "2")) none_value (codes "verbose") []
      refl refl
