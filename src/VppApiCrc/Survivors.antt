-- ===== src/VppApiCrc/Survivors.antt =====
-- The collections that the loop of `_process_crc` removes one by one, and those that pass a test.
use csit.Base.{
  Bool, true, false, none, some, [], ◌∷◌, ◌≡◌, refl, ap, ◌∙◌, inl, inr, arith, if◌then◌else◌,
  Bool-cases,
}
use csit.Base.Dict.{Dict, lookup, remove, has, lookup-remove}
use csit.Base.Text.{Text, text_eq, text_eq_iff}
use csit.VppApiCrc.{Crcs}

-- A collection that does not know the API, or knows it under this CRC.
abbrev pub compatible : Text → Text → Crcs → Bool
compatible api_name crc crcs = elim (lookup api_name crcs) [
  | none ↦ true
  | some known ↦ text_eq known crc
]

-- The collections of a dictionary that pass a test.
abbrev pub filtered : (Crcs → Bool) → Dict Crcs → Dict Crcs
filtered test [] = []
filtered test ((name, crcs) ∷ d) =
    let rest = filtered test d in if test crcs then (name, crcs) ∷ rest else rest

-- What a loop leaves that removes the collections failing a test, one by one.
abbrev pub without_failing : (Crcs → Bool) → Dict Crcs → Dict Crcs → Dict Crcs
without_failing test [] d = d
without_failing test ((name, crcs) ∷ old) d =
    without_failing test old (if test crcs then d else remove name d)

abbrev pub NoRepeat : Dict Crcs → Type 0
NoRepeat [] = Unit
NoRepeat ((name, crcs) ∷ d) = (has name d ≡ false) × NoRepeat d

pub has-cons :
    (k name : Text) (crcs : Crcs) (d : Dict Crcs)
    → has k ((name, crcs) ∷ d) ≡ (if text_eq name k then true else has k d)
unfolding lookup
has-cons k name crcs d = ground arith

pub has-remove :
    (k j : Text) (d : Dict Crcs) → has j (remove k d) ≡ (if text_eq k j then false else has j d)
has-remove k j d = ground (arith, lookup-remove k j d)

remove-absent : (k : Text) (d : Dict Crcs) → has k d ≡ false → remove k d ≡ d
unfolding remove
remove-absent k [] h = refl
remove-absent k ((name, crcs) ∷ d) h = ground (arith, has-cons k name crcs d, remove-absent k d)

has-filtered :
    (test : Crcs → Bool) (k : Text) (d : Dict Crcs)
    → has k d ≡ false
    → has k (filtered test d) ≡ false
has-filtered test k [] h = h
has-filtered test k ((name, crcs) ∷ d) h =
    ground
      (arith, has-cons k name crcs d, has-cons k name crcs (filtered test d), has-filtered test k d)

pub NoRepeat-filtered :
    (test : Crcs → Bool) (d : Dict Crcs) → NoRepeat d → NoRepeat (filtered test d)
NoRepeat-filtered test [] n = tt
NoRepeat-filtered test ((name, crcs) ∷ d) n = elim (Bool-cases (test crcs)) [
  | inl e ↦ rw e (has-filtered test name d n.0, NoRepeat-filtered test d n.1)
  | inr e ↦ rw e (NoRepeat-filtered test d n.1)
]

-- A collection that is not among the old ones stays in front.
without_failing-cons :
    (test : Crcs → Bool) (old : Dict Crcs) (name : Text) (crcs : Crcs) (d : Dict Crcs)
    → has name old ≡ false
    → without_failing test old ((name, crcs) ∷ d) ≡ (name, crcs) ∷ without_failing test old d
unfolding remove
without_failing-cons test [] name crcs d h = refl
without_failing-cons test ((j, other) ∷ old) name crcs d h =
    let apart : text_eq name j ≡ false =
      ground (arith, text_eq_iff name j, text_eq_iff j name, has-cons name j other old) in
    let later : has name old ≡ false = ground (arith, has-cons name j other old) in
    elim (Bool-cases (test other)) [
      | inl e ↦ rw e (without_failing-cons test old name crcs d later)
      | inr e ↦ rw (e, apart) (without_failing-cons test old name crcs (remove j d) later)
    ]

-- With no name twice, what the loop leaves of the old collections are those that pass.
pub without_failing-eq-filtered :
    (test : Crcs → Bool) (d : Dict Crcs) → NoRepeat d → without_failing test d d ≡ filtered test d
unfolding remove
without_failing-eq-filtered test [] n = refl
without_failing-eq-filtered test ((name, crcs) ∷ d) n =
    let same : text_eq name name ≡ true = (text_eq_iff name name).1 refl in
    elim (Bool-cases (test crcs)) [
      | inl e ↦ rw e (
          without_failing-cons test d name crcs d n.0
          ∙ ap (λ (r : Dict Crcs). (name, crcs) ∷ r) (without_failing-eq-filtered test d n.1))
      | inr e ↦ rw (e, same, remove-absent name d n.0) (without_failing-eq-filtered test d n.1)
    ]
