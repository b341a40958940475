-- ===== src/OptionString/Clean.antt =====
-- The parts of a builder of OptionString.py after any calls, and the text that shows them.
use csit.Base.{
  Option, map, Bool, true, false, ◌&&◌, ◌≡◌, refl, List, [], ◌∷◌, ◌++◌, inl, inr, arith, All,
  Bool-cases, if◌then◌else◌,
}
use csit.Base.Dict.{Dict, get_or}
use csit.Base.Text.{Text, codes, join}
use csit.Base.Text.Trim.{
  IsTrim, IsEmptyOrTrim, strip-IsTrim, strip-IsTrim_of_non_empty, IsTrim-append, IsTrim-prefix,
  join-IsTrim,
}
use csit.OptionString.{
  OptionString, Object, none_value, object, str, truth_of, or_empty_text, or_false_text,
  check_and_add, init, change_prefix, extend, converted, add, add_if, add_with_value, add_equals,
  add_with_value_if, add_equals_if, add_with_value_from_dict, add_equals_from_dict,
  add_if_from_dict, add_with_value_if_from_dict, add_equals_if_from_dict, to_str,
}
use csit.OptionString.Parts.{adds, with_parts, add_lem, add_with_value_lem, add_equals_lem}

pub record IsClean (o : OptionString) : Type 0 where
  pub parts : All IsTrim o.parts
  pub prefix : IsEmptyOrTrim o.prefix

-- The history of a builder: the parts that its constructor is given, and calls of its methods with
-- their arguments, where the argument of `extend` has such a history too.
mutual
  pub data Call : Type 0 where
    prefix : Object → Call
    extending : (other_prefix : Object) → Calls → Call
    checking : Object → Bool → Call
    adding : Object → Call
    adding_if : Object → Object → Call
    with_value equals : Object → Object → Call
    with_value_if equals_if : Object → Object → Object → Call
    with_value_from_dict equals_from_dict if_from_dict :
        Object → Text → Dict Object → Option Object → Call
    with_value_if_from_dict equals_if_from_dict :
        Object → Object → Text → Dict Object → Option Object → Call

  pub data Calls : Type 0 where
    start : List Object → Calls
    then_call : Calls → Call → Calls

unfoldable mutual
  unfolding change_prefix add_if add_with_value_if add_equals_if add_with_value_from_dict
      add_equals_from_dict add_if_from_dict add_with_value_if_from_dict add_equals_if_from_dict

  pub call : OptionString → Call → OptionString
  call o (prefix p) = change_prefix o p
  call o (extending q cs) = extend o (build q cs)
  call o (checking p prefixed) = (check_and_add o p prefixed).0
  call o (adding p) = add o p
  call o (adding_if p c) = add_if o p c
  call o (with_value p v) = add_with_value o p v
  call o (equals p v) = add_equals o p v
  call o (with_value_if p v c) = add_with_value_if o p v c
  call o (equals_if p v c) = add_equals_if o p v c
  call o (with_value_from_dict p k m d) = add_with_value_from_dict o p k m d
  call o (equals_from_dict p k m d) = add_equals_from_dict o p k m d
  call o (if_from_dict p k m d) = add_if_from_dict o p k m d
  call o (with_value_if_from_dict p v k m d) = add_with_value_if_from_dict o p v k m d
  call o (equals_if_from_dict p v k m d) = add_equals_if_from_dict o p v k m d

  pub build : Object → Calls → OptionString
  build q (start initial) = init initial q
  build q (then_call cs c) = call (build q cs) c

-- The parts given to a constructor show as texts that are not empty and have no whitespace at their
-- ends, for the builder and for those that it is extended by.
unfoldable mutual
  pub StartsTrimmed : Calls → Type 0
  StartsTrimmed (start initial) = All IsTrim (map str initial)
  StartsTrimmed (then_call cs c) = StartsTrimmed cs × ExtendsTrimmed c

  pub ExtendsTrimmed : Call → Type 0
  ExtendsTrimmed (extending q cs) = StartsTrimmed cs
  ExtendsTrimmed _ = Unit

All-append {ℓ κ} :
    {A : Type ℓ} (P : A → Type κ) (xs ys : List A) → All P xs → All P ys → All P (xs ++ ys)
All-append P [] ys h g = g
All-append P (x ∷ xs) ys h g = (h.0, All-append P xs ys h.1 g)

converted-IsTrim : (p : Object) → adds p ≡ true → IsTrim (converted p)
unfolding converted
converted-IsTrim none_value h = cc
converted-IsTrim (object s t) h = strip-IsTrim_of_non_empty s h

extend-IsClean : (o other : OptionString) → IsClean o → IsClean other → IsClean (extend o other)
unfolding extend
extend-IsClean o other h g = record {
  parts = All-append IsTrim o.parts other.parts h.parts g.parts;
  prefix = h.prefix;
}

with_parts-IsClean :
    (o : OptionString) (more : List Text)
    → IsClean o
    → All IsTrim more
    → IsClean (with_parts o more)
with_parts-IsClean o more h g = record {
  parts = All-append IsTrim o.parts more h.parts g;
  prefix = h.prefix;
}

abbrev Keeps : (OptionString → OptionString) → Type 0
Keeps f = (o : OptionString) → IsClean o → IsClean (f o)

add-IsClean : (p : Object) → Keeps (λ o. add o p)
add-IsClean p o h = elim (Bool-cases (adds p)) [
  | inl e ↦
      rw (add_lem o p, e)
        (with_parts-IsClean o _ h (IsTrim-prefix h.prefix (converted-IsTrim p e), tt))
  | inr e ↦ rw (add_lem o p, e) h
]

-- A part that is added without the prefix, or with it.
check_and_add-IsClean : (p : Object) (prefixed : Bool) → Keeps (λ o. (check_and_add o p prefixed).0)
unfolding check_and_add
check_and_add-IsClean p prefixed o h = elim (Bool-cases (adds p)) [
  | inl e ↦ elim (Bool-cases prefixed) [
    | inl with_prefix ↦
        rw (e, with_prefix)
          (with_parts-IsClean o _ h (IsTrim-prefix h.prefix (converted-IsTrim p e), tt))
    | inr without ↦ rw (e, without) (with_parts-IsClean o _ h (converted-IsTrim p e, tt))
  ]
  | inr e ↦ rw e h
]

both_add : (p v : Object) → (adds p && adds v) ≡ true → (adds p ≡ true) × (adds v ≡ true)
both_add p v h = ground arith

add_with_value-IsClean : (p v : Object) → Keeps (λ o. add_with_value o p v)
add_with_value-IsClean p v o h = elim (Bool-cases (adds p && adds v)) [
  | inl e ↦
      let (e_p, e_v) = both_add p v e in
      rw (add_with_value_lem o p v h.prefix, e)
        (with_parts-IsClean o _ h
          (IsTrim-prefix h.prefix (converted-IsTrim p e_p), (converted-IsTrim v e_v, tt)))
  | inr e ↦ rw (add_with_value_lem o p v h.prefix, e) h
]

add_equals-IsClean : (p v : Object) → Keeps (λ o. add_equals o p v)
add_equals-IsClean p v o h = elim (Bool-cases (adds p && adds v)) [
  | inl e ↦
      let (e_p, e_v) = both_add p v e in
      rw (add_equals_lem o p v h.prefix, e)
        (with_parts-IsClean o _ h (
          IsTrim-append (codes "=") (IsTrim-prefix h.prefix (converted-IsTrim p e_p))
              (converted-IsTrim v e_v),
          tt,
        ))
  | inr e ↦ rw (add_equals_lem o p v h.prefix, e) h
]

Keeps-if :
    (f : OptionString → OptionString) (b : Bool) → Keeps f → Keeps (λ o. if b then f o else o)
Keeps-if f true k o h = k o h
Keeps-if f false k o h = h

init-IsClean :
    (initial : List Object) (p : Object) → All IsTrim (map str initial) → IsClean (init initial p)
unfolding init
init-IsClean initial p h = record { parts = h; prefix = strip-IsTrim (str p) }

mutual
  unfolding StartsTrimmed call build change_prefix add_if add_with_value_if add_equals_if
      add_with_value_from_dict add_equals_from_dict add_if_from_dict add_with_value_if_from_dict
      add_equals_if_from_dict

  call-IsClean : (c : Call) → ExtendsTrimmed c → Keeps (λ o. call o c)
  call-IsClean (prefix p) s o h = record { parts = h.parts; prefix = strip-IsTrim (str p) }
  call-IsClean (extending q cs) s o h = extend-IsClean o (build q cs) h (build-IsClean q cs s)
  call-IsClean (checking p b) s o h = check_and_add-IsClean p b o h
  call-IsClean (adding p) s o h = add-IsClean p o h
  call-IsClean (adding_if p c) s o h = Keeps-if _ (truth_of c) (add-IsClean p) o h
  call-IsClean (with_value p v) s o h = add_with_value-IsClean p v o h
  call-IsClean (equals p v) s o h = add_equals-IsClean p v o h
  call-IsClean (with_value_if p v c) s o h =
      Keeps-if _ (truth_of c) (add_with_value-IsClean p v) o h
  call-IsClean (equals_if p v c) s o h = Keeps-if _ (truth_of c) (add_equals-IsClean p v) o h
  call-IsClean (with_value_from_dict p k m d) s o h =
      add_with_value-IsClean p (get_or k m (or_empty_text d)) o h
  call-IsClean (equals_from_dict p k m d) s o h =
      add_equals-IsClean p (get_or k m (or_empty_text d)) o h
  call-IsClean (if_from_dict p k m d) s o h =
      Keeps-if _ (truth_of (get_or k m (or_false_text d))) (add-IsClean p) o h
  call-IsClean (with_value_if_from_dict p v k m d) s o h =
      Keeps-if _ (truth_of (get_or k m (or_false_text d))) (add_with_value-IsClean p v) o h
  call-IsClean (equals_if_from_dict p v k m d) s o h =
      Keeps-if _ (truth_of (get_or k m (or_false_text d))) (add_equals-IsClean p v) o h

  build-IsClean : (q : Object) (cs : Calls) → StartsTrimmed cs → IsClean (build q cs)
  build-IsClean q (start initial) s = init-IsClean initial q s
  build-IsClean q (then_call cs c) (s, e) = call-IsClean c e (build q cs) (build-IsClean q cs s)

join_of_clean : (ts : List Text) → All IsTrim ts → IsEmptyOrTrim (join (codes " ") ts)
unfolding join
join_of_clean [] h = inl refl
join_of_clean (t ∷ ts) h = inr (join-IsTrim (codes " ") t ts h.0 h.1)

-- A builder goes through any calls, with any arguments. If the parts that it and the builders that it is
-- extended by are constructed with show as texts that are not empty and have no whitespace at their
-- ends, then so do all its parts, and the builder shows as the empty text or as such a text.
pub build_trimmed :
    (p : Object) (cs : Calls)
    → StartsTrimmed cs
    → All IsTrim (build p cs).parts × IsEmptyOrTrim (to_str (build p cs))
unfolding to_str
build_trimmed p cs s =
    let clean = (build-IsClean p cs s).parts in (clean, join_of_clean (build p cs).parts clean)
