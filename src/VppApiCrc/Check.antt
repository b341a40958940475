-- ===== src/VppApiCrc/Check.antt =====
-- `_process_crc` and the loop over the messages of a file: what is expected and reported afterwards.
use csit.Base.{
  Bool, true, ◌&&◌, some, List, [], ◌∷◌, ◌≡◌, refl, sym, ap, ◌∙◌, inl, inr, if◌then◌else◌,
  Bool-cases,
}
use csit.Base.Dict.{Dict, insert, truthy}
use csit.Base.Text.{Text}
use csit.Base.Result.{ok, raise}
use csit.VppApiCrc.{
  Crcs, Checker, Outcome, Item, get_name, get_crc, settle, process_crc, narrowed, and_then,
  check_messages,
}
use csit.VppApiCrc.Survivors.{
  compatible, filtered, NoRepeat, NoRepeat-filtered, without_failing-eq-filtered,
}
use csit.VppApiCrc.Process.{
  Tracked, IsValid, Tracked-mono, Tracked-filtered, Tracked-self, Looped, process_loop-Looped,
  restrict-ok,
}

-- What processing one CRC makes of a checker, given the collections that fit it.
abbrev pub Processed : Checker → Text → Text → Dict Crcs → Outcome → Type 0
Processed self api_name crc fitting (after, result) =
    (result ≡ ok tt)
    × (after.expected ≡ narrowed self.expected fitting)
    × (after.reported
        ≡ (if truthy fitting then self.reported else insert api_name (some crc) self.reported))
    × (after.found ≡ insert api_name crc self.found)
    × IsValid after

settle-Processed :
    (self : Checker) (api_name crc : Text) (missing fitting : Dict Crcs)
    → IsValid (record self { missing = missing })
    → NoRepeat fitting
    → Tracked fitting missing
    → Processed self api_name crc fitting (
        settle
          (record self { found = insert api_name crc self.found })
          api_name
          crc
          missing
          (ok fitting))
settle-Processed self api_name crc missing [] valid n t = (refl, refl, refl, refl, valid)
settle-Processed self api_name crc missing (c ∷ cs) valid n t =
    let (left, e, same) = restrict-ok (c ∷ cs) missing t in
    rw e (refl, refl, refl, refl, (n, Tracked-self (c ∷ cs) left (λ k h. same k ∙ h)))

-- On a valid checker, `_process_crc` raises nothing. It narrows the expected collections to those
-- that do not hold the API under another CRC, in their order; if there are none, the expected
-- collections stay and the API is reported with its CRC. The CRC is remembered as found, and the
-- checker stays valid.
pub process_crc-exact :
    (self : Checker) (api_name crc : Text)
    → IsValid self
    → Processed self api_name crc
        (filtered (compatible api_name crc) self.expected)
        (process_crc self api_name crc)
unfolding process_crc Looped
process_crc-exact self api_name crc (n, t) =
    let test = compatible api_name crc in
    let (missing, loops, keeps) =
      process_loop-Looped api_name crc self.expected self.missing self.expected t in
    let later = Tracked-mono self.expected self.missing missing keeps t in
    rw (loops, without_failing-eq-filtered test self.expected n)
      (settle-Processed self api_name crc missing (filtered test self.expected) (n, later)
        (NoRepeat-filtered test self.expected n)
        (Tracked-filtered test self.expected missing later))

-- The name and the CRC of each message, if each has them.
abbrev pub Parsed : List (List Item) → List (Text × Text) → Type 0
Parsed [] [] = Unit
Parsed [] (p ∷ pairs) = ⊥
Parsed (m ∷ msgs) [] = ⊥
Parsed (m ∷ msgs) ((api_name, crc) ∷ pairs) =
    (get_name m ≡ ok api_name) × (get_crc m ≡ ok crc) × Parsed msgs pairs

-- A collection that fits every one of the CRCs.
abbrev pub fits_all : List (Text × Text) → Crcs → Bool
fits_all [] crcs = true
fits_all ((api_name, crc) ∷ pairs) crcs = compatible api_name crc crcs && fits_all pairs crcs

filtered-filtered :
    (p q : Crcs → Bool) (d : Dict Crcs) → filtered q (filtered p d) ≡ filtered (λ c. p c && q c) d
filtered-filtered p q [] = refl
filtered-filtered p q ((name, crcs) ∷ d) = elim (Bool-cases (p crcs)) [
  | inl e ↦ rw (e, filtered-filtered p q d) refl
  | inr e ↦ rw (e, filtered-filtered p q d) refl
]

filtered-true : (d : Dict Crcs) → filtered (λ c. true) d ≡ d
filtered-true [] = refl
filtered-true ((name, crcs) ∷ d) = ap (λ (r : Dict Crcs). (name, crcs) ∷ r) (filtered-true d)

truthy-filtered : (q : Crcs → Bool) (d : Dict Crcs) → truthy (filtered q d) ≡ true → truthy d ≡ true
truthy-filtered q [] h = h
truthy-filtered q (c ∷ d) h = refl

narrowed-truthy : (d fitting : Dict Crcs) → truthy fitting ≡ true → narrowed d fitting ≡ fitting
narrowed-truthy d [] h = cc
narrowed-truthy d (c ∷ cs) h = refl

-- A checker whose expected collections are those of an earlier one that fit some CRCs.
abbrev pub KeptFitting : Checker → List (Text × Text) → Outcome → Type 0
KeptFitting self pairs (after, result) =
    (result ≡ ok tt)
    × (after.expected ≡ filtered (fits_all pairs) self.expected)
    × (after.reported ≡ self.reported)
    × IsValid after

-- One message that fits, before messages that fit.
and_then-KeptFitting :
    (self : Checker) (api_name crc : Text) (pairs : List (Text × Text)) (out : Outcome)
    (rest : Checker → Outcome)
    → truthy (filtered (compatible api_name crc) self.expected) ≡ true
    → Processed self api_name crc (filtered (compatible api_name crc) self.expected) out
    → KeptFitting out.0 pairs (rest out.0)
    → KeptFitting self ((api_name, crc) ∷ pairs) (and_then out rest)
and_then-KeptFitting self api_name crc pairs (next, ok _) rest some_fit (_, exp, rep, _, _)
      (k0, k1, k2, k3) =
    let test = compatible api_name crc in
    let narrow = exp ∙ narrowed-truthy self.expected (filtered test self.expected) some_fit in
    (
      k0,
      k1
          ∙ ap (filtered (fits_all pairs)) narrow
          ∙ filtered-filtered test (fits_all pairs) self.expected,
      k2 ∙ rep ∙ rw some_fit refl,
      k3,
    )
and_then-KeptFitting self api_name crc pairs (next, raise e) rest some_fit (h, _, _, _, _) kept = cc

check_messages-cons :
    (self : Checker) (m : List Item) (msgs : List (List Item)) (api_name crc : Text)
    → get_name m ≡ ok api_name
    → get_crc m ≡ ok crc
    → check_messages self (m ∷ msgs)
      ≡ and_then (process_crc self api_name crc) (λ s. check_messages s msgs)
unfolding check_messages
check_messages-cons self m msgs api_name crc has_name has_crc =
    rw (has_name, has_crc, check_messages) refl

-- If each message has a name and a CRC, and an expected collection fits them all, then on a valid
-- checker the loop over the messages raises nothing, reports nothing new, and leaves as expected the
-- collections that fit all the messages, in their order; the checker stays valid.
pub check_messages-exact :
    (self : Checker) (msgs : List (List Item)) (pairs : List (Text × Text))
    → IsValid self
    → Parsed msgs pairs
    → truthy (filtered (fits_all pairs) self.expected) ≡ true
    → KeptFitting self pairs (check_messages self msgs)
check_messages-exact self [] [] valid parsed some_fit =
    unfold check_messages in (refl, sym (filtered-true self.expected), refl, valid)
check_messages-exact self [] (p ∷ pairs) valid parsed some_fit = elim parsed [ ]
check_messages-exact self (m ∷ msgs) [] valid parsed some_fit = elim parsed [ ]
check_messages-exact self (m ∷ msgs) ((api_name, crc) ∷ pairs) valid (has_name, has_crc, parsed)
      some_fit =
    let test = compatible api_name crc in
    let both = ap truthy (filtered-filtered test (fits_all pairs) self.expected) ∙ some_fit in
    let first_fits = truthy-filtered (fits_all pairs) (filtered test self.expected) both in
    let step = process_crc-exact self api_name crc valid in
    let (_, exp, _, _, valid_2) = step in
    let narrow = exp ∙ narrowed-truthy self.expected (filtered test self.expected) first_fits in
    let later = ap (λ (d : Dict Crcs). truthy (filtered (fits_all pairs) d)) narrow ∙ both in
    rw (check_messages-cons self m msgs api_name crc has_name has_crc) (
      and_then-KeptFitting self api_name crc pairs (process_crc self api_name crc)
        (λ s. check_messages s msgs) first_fits step
        (check_messages-exact (process_crc self api_name crc).0 msgs pairs valid_2 parsed later))
