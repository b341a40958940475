-- ===== src/VppApiCrc/Report.antt =====
-- `check_api_name` and `report_initial_conflicts`: what is reported, once, and when a call returns.
use csit.Base.{
  Bool, true, false, Option, none, some, [], ◌∷◌, ◌≡◌, refl, sym, ap, subst, ◌∙◌, ◌↔◌, ◌⊎◌, inl,
  inr, arith, if◌then◌else◌, Bool-cases,
}
use csit.Base.Dict.{Dict, lookup, insert, has, remove, lookup-insert}
use csit.Base.Text.{Text, text_eq, text_eq_iff}
use csit.Base.Result.{ok, raise, runtime_error}
use csit.VppApiCrc.{
  Crcs, Checker, narrowed, matches, matching, known_loop, check_api_name, report_initial_conflicts,
  log_and_raise,
}
use csit.VppApiCrc.Survivors.{
  filtered, without_failing, NoRepeat, NoRepeat-filtered, without_failing-eq-filtered,
}

-- Some collection holds the API under the CRC.
abbrev pub Supported : Text → Text → Dict Crcs → Type 0
Supported api_name crc [] = ⊥
Supported api_name crc ((name, crcs) ∷ d) =
    (lookup api_name crcs ≡ some crc) ⊎ Supported api_name crc d

known-Supported :
    (crc : Text) (known : Option Text) (later : Bool) (S : Type 0)
    → (later ≡ true) ↔ S
    → ((elim known [ none ↦ later | some k ↦ if text_eq k crc then true else later ]) ≡ true)
      ↔ ((known ≡ some crc) ⊎ S)
known-Supported crc none later S (to, from) =
    (λ h. inr (to h), λ h. elim h [ inl e ↦ cc | inr s ↦ from s ])
known-Supported crc (some k) later S (to, from) = elim (Bool-cases (text_eq k crc)) [
  | inl e ↦ (λ h. inl (ap some ((text_eq_iff k crc).0 e)), λ h. rw e refl)
  | inr e ↦
      let same : (if text_eq k crc then true else later) ≡ later = rw e refl in
      (
        λ h. inr (to (sym same ∙ h)),
        λ h. elim h [ inl f ↦ ground (arith, text_eq_iff k crc) | inr s ↦ same ∙ from s ],
      )
]

matching-Supported :
    (api_name crc : Text) (d : Dict Crcs)
    → (matching api_name crc d ≡ true) ↔ Supported api_name crc d
unfolding matching
matching-Supported api_name crc [] = (λ h. cc, λ h. elim h [ ])
matching-Supported api_name crc ((name, crcs) ∷ d) =
    known-Supported crc (lookup api_name crcs) (matching api_name crc d) (Supported api_name crc d)
      (matching-Supported api_name crc d)

check-reported :
    (self : Checker) (api_name : Text)
    → has api_name self.reported ≡ true
    → check_api_name self api_name ≡ (self, ok tt)
unfolding check_api_name
check-reported self api_name h = rw h refl

-- The expected collections that a check of the API leaves.
abbrev pub left : Checker → Text → Dict Crcs
left self api_name = narrowed self.expected (known_loop api_name self.expected self.expected)

abbrev pub known : Checker → Text → Checker
known self api_name = record self { expected = left self api_name }

abbrev pub noted : Checker → Text → Checker
noted self api_name = record self {
  expected = left self api_name;
  reported = insert api_name (lookup api_name self.found) self.reported;
}

check-known :
    (self : Checker) (api_name : Text)
    → has api_name self.reported ≡ false
    → matches api_name (lookup api_name self.found) (left self api_name) ≡ true
    → check_api_name self api_name ≡ (known self api_name, ok tt)
unfolding check_api_name
check-known self api_name h m = rw (h, m) refl

check-noted :
    (self : Checker) (api_name : Text)
    → has api_name self.reported ≡ false
    → matches api_name (lookup api_name self.found) (left self api_name) ≡ false
    → check_api_name self api_name ≡ (noted self api_name, log_and_raise (noted self api_name))
unfolding check_api_name
check-noted self api_name h m = rw (h, m) refl

known_loop-eq-without_failing :
    (api_name : Text) (old d : Dict Crcs)
    → known_loop api_name old d ≡ without_failing (λ crcs. has api_name crcs) old d
unfolding known_loop
known_loop-eq-without_failing api_name [] d = refl
known_loop-eq-without_failing api_name ((name, crcs) ∷ old) d =
    known_loop-eq-without_failing api_name old (if has api_name crcs then d else remove name d)

filtered_self :
    (test : Crcs → Bool) (d : Dict Crcs) → filtered test (filtered test d) ≡ filtered test d
filtered_self test [] = refl
filtered_self test ((name, crcs) ∷ d) = elim (Bool-cases (test crcs)) [
  | inl e ↦ rw e (rw e (ap (λ (r : Dict Crcs). (name, crcs) ∷ r) (filtered_self test d)))
  | inr e ↦ rw e (filtered_self test d)
]

narrowed-filtered :
    (test : Crcs → Bool) (d f : Dict Crcs)
    → filtered test d ≡ f
    → narrowed (narrowed d f) (filtered test (narrowed d f)) ≡ narrowed d f
narrowed-filtered test d [] e = rw e refl
narrowed-filtered test d (c ∷ cs) e =
    ap (λ (r : Dict Crcs). narrowed (c ∷ cs) r)
      (ap (filtered test) (sym e) ∙ filtered_self test d ∙ e)

pub left-filtered :
    (self : Checker) (api_name : Text)
    → NoRepeat self.expected
    → left self api_name
      ≡ narrowed self.expected (filtered (λ crcs. has api_name crcs) self.expected)
left-filtered self api_name n = ap (narrowed self.expected) (
    known_loop-eq-without_failing api_name self.expected self.expected
    ∙ without_failing-eq-filtered (λ crcs. has api_name crcs) self.expected n)

NoRepeat-narrowed : (d f : Dict Crcs) → NoRepeat d → NoRepeat f → NoRepeat (narrowed d f)
NoRepeat-narrowed d [] n m = n
NoRepeat-narrowed d (c ∷ cs) n m = m

left-known :
    (self : Checker) (api_name : Text)
    → NoRepeat self.expected
    → left (known self api_name) api_name ≡ left self api_name
left-known self api_name n =
    let test = λ (crcs : Crcs). has api_name crcs in
    let rest = filtered test self.expected in
    let e = left-filtered self api_name n in
    let n2 =
      subst (λ d. NoRepeat d) (sym e)
        (NoRepeat-narrowed self.expected rest n (NoRepeat-filtered test self.expected n)) in
    left-filtered (known self api_name) api_name n2
    ∙ ap (λ (d : Dict Crcs). narrowed d (filtered test d)) e
    ∙ narrowed-filtered test self.expected rest refl
    ∙ sym e

-- Whatever an API's first check says, the second changes nothing and returns.
pub check_api_name_twice :
    (self : Checker) (api_name : Text)
    → NoRepeat self.expected
    → check_api_name (check_api_name self api_name).0 api_name
      ≡ ((check_api_name self api_name).0, ok tt)
check_api_name_twice self api_name n = elim (Bool-cases (has api_name self.reported)) [
  | inl h ↦ rw (check-reported self api_name h) (check-reported self api_name h)
  | inr h ↦ elim (Bool-cases (matches api_name (lookup api_name self.found) (left self api_name))) [
    | inl m ↦ rw (check-known self api_name h m) (
        check-known (known self api_name) api_name h (rw (left-known self api_name n) m)
        ∙ ap (λ (d : Dict Crcs). (record self { expected = d }, ok tt))
            (left-known self api_name n))
    | inr m ↦ rw (check-noted self api_name h m) (
        check-reported (noted self api_name) api_name (
          ground (
            arith,
            lookup-insert api_name api_name (lookup api_name self.found) self.reported,
            text_eq_iff api_name api_name,
          )))
  ]
]

-- A found CRC under which some collection holds the API.
abbrev pub Found : Text → Option Text → Dict Crcs → Type 0
Found api_name found d = (crc : Text) × (found ≡ some crc) × Supported api_name crc d

matches-Found :
    (api_name : Text) (found : Option Text) (d : Dict Crcs)
    → (matches api_name found d ≡ true) ↔ Found api_name found d
matches-Found api_name none d = (λ h. cc, λ (crc, e, s). cc)
matches-Found api_name (some crc) d =
    let (to, from) = matching-Supported api_name crc d in
    (
      λ h. (crc, refl, to h),
      λ (crc_2, e, s).
          let same : crc_2 ≡ crc = cc in from (subst (λ c. Supported api_name c d) same s),
    )

log_and_raise-fails :
    (self : Checker) → self.fail_on_mismatch ≡ true → log_and_raise self ≡ raise runtime_error
unfolding log_and_raise
log_and_raise-fails self h = rw h refl

-- With `fail_on_mismatch`, the first check of an API that is not yet reported returns exactly when
-- its CRC was found in the API files and a collection that the check leaves expected holds the API
-- under that CRC.
pub check_api_name-Found :
    (self : Checker) (api_name : Text)
    → self.fail_on_mismatch ≡ true
    → has api_name self.reported ≡ false
    → ((check_api_name self api_name).1 ≡ ok tt)
      ↔ Found api_name (lookup api_name self.found) (check_api_name self api_name).0.expected
check_api_name-Found self api_name fails h =
    let (to, from) = matches-Found api_name (lookup api_name self.found) (left self api_name) in
    elim (Bool-cases (matches api_name (lookup api_name self.found) (left self api_name))) [
      | inl m ↦ rw (check-known self api_name h m) (λ r. to m, λ f. refl)
      | inr m ↦ rw (check-noted self api_name h m) (
        ground (arith, log_and_raise-fails (noted self api_name) fails),
        λ f. let g = from f in cc,
      )
    ]

marked-reports :
    (self : Checker) (report_missing : Bool)
    → self.initial_conflicts_reported ≡ true
    → report_initial_conflicts self report_missing ≡ (self, ok tt)
unfolding report_initial_conflicts
marked-reports self report_missing h = rw h refl

marks :
    (self : Checker) (report_missing : Bool)
    → (report_initial_conflicts self report_missing).0.initial_conflicts_reported ≡ true
unfolding report_initial_conflicts
marks self report_missing = ground arith

-- Whatever the first report says, a second one changes nothing and returns.
pub report_initial_conflicts_twice :
    (self : Checker) (first second : Bool)
    → report_initial_conflicts (report_initial_conflicts self first).0 second
      ≡ ((report_initial_conflicts self first).0, ok tt)
report_initial_conflicts_twice self first second =
    marked-reports (report_initial_conflicts self first).0 second (marks self first)
