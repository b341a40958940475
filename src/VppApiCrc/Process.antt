-- ===== src/VppApiCrc/Process.antt =====
-- The loop and the restriction in `_process_crc`, on collections with their maps of missing APIs.
use csit.Base.{
  Bool, true, Option, none, some, [], ◌∷◌, ◌≡◌, refl, sym, ◌∙◌, inl, inr, arith, if◌then◌else◌, All,
  Bool-cases, Option-cases,
}
use csit.Base.Dict.{Dict, lookup, insert, remove, has, lookup-insert}
use csit.Base.Text.{Text, text_eq, text_eq_iff}
use csit.Base.Result.{ok}
use csit.VppApiCrc.{Crcs, Checker, pop_missing, round, process_loop, restrict}
use csit.VppApiCrc.Survivors.{compatible, filtered, without_failing, NoRepeat, has-cons}

-- Each collection of a dictionary has its map of missing APIs.
abbrev pub Tracked : Dict Crcs → Dict Crcs → Type 0
Tracked d missing = All (λ c. has c.0 missing ≡ true) d

-- No collection is expected twice, and each expected one is tracked.
abbrev pub IsValid : Checker → Type 0
IsValid self = NoRepeat self.expected × Tracked self.expected self.missing

unfoldable pub Keeps : Dict Crcs → Dict Crcs → Type 0
Keeps missing later = (k : Text) → has k missing ≡ true → has k later ≡ true

has-insert : (j : Text) (v : Crcs) (missing : Dict Crcs) → Keeps missing (insert j v missing)
unfolding Keeps
has-insert j v missing k h = ground (arith, lookup-insert j k v missing)

pub Tracked-mono :
    (d missing later : Dict Crcs) → Keeps missing later → Tracked d missing → Tracked d later
unfolding Keeps
Tracked-mono [] missing later keeps t = tt
Tracked-mono (c ∷ d) missing later keeps t = (keeps c.0 t.0, Tracked-mono d missing later keeps t.1)

pub Tracked-filtered :
    (test : Crcs → Bool) (d missing : Dict Crcs)
    → Tracked d missing
    → Tracked (filtered test d) missing
Tracked-filtered test [] missing t = tt
Tracked-filtered test ((name, crcs) ∷ d) missing t = elim (Bool-cases (test crcs)) [
  | inl e ↦ rw e (t.0, Tracked-filtered test d missing t.1)
  | inr e ↦ rw e (Tracked-filtered test d missing t.1)
]

pop_missing-ok :
    (name api_name : Text) (missing : Dict Crcs)
    → has name missing ≡ true
    → (later : Dict Crcs) × (pop_missing name api_name missing ≡ ok later) × Keeps missing later
unfolding pop_missing insert
pop_missing-ok name api_name missing h = elim (Option-cases (lookup name missing)) [
  | inl e ↦ cc
  | inr (crcs, e) ↦ (
    insert name (remove api_name crcs) missing,
    rw (e, pop_missing) refl,
    has-insert name (remove api_name crcs) missing,
  )
]

-- How the loop ends: with tracked collections, it leaves those that fit.
unfoldable pub Looped : Text → Text → Dict Crcs → Dict Crcs → Dict Crcs → Type 0
Looped api_name crc old missing new_expected =
    (later : Dict Crcs) × (process_loop api_name crc old missing new_expected
      ≡ (later, ok (without_failing (compatible api_name crc) old new_expected)))
    × Keeps missing later

-- One round, on what the old collection knows of the API, before a loop that ends so.
round-Looped :
    (api_name crc name : Text) (known : Option Text) (old missing new_expected : Dict Crcs)
    → has name missing ≡ true
    → Tracked old missing
    → ((mid new_2 : Dict Crcs) → Tracked old mid → Looped api_name crc old mid new_2)
    → (later : Dict Crcs) × (round api_name crc name known missing new_expected
          (process_loop api_name crc old)
        ≡ (
          later,
          ok (
              without_failing (compatible api_name crc) old (
                if (elim known [ none ↦ true | some k ↦ text_eq k crc ])
                then new_expected
                else remove name new_expected)),
        ))
      × Keeps missing later
unfolding round Looped
round-Looped api_name crc name none old missing new_expected h t ends = ends missing new_expected t
round-Looped api_name crc name (some known) old missing new_expected h t ends =
    let (mid, pops, kept) = pop_missing-ok name api_name missing h in
    let (later, loops, keeps) = ends mid new_expected (Tracked-mono old missing mid kept t) in
    elim (Bool-cases (text_eq known crc)) [
      | inl e ↦ rw (e, pops) (later, loops, unfold Keeps in λ k g. keeps k (kept k g))
      | inr e ↦ rw e (ends missing (remove name new_expected) t)
    ]

pub process_loop-Looped :
    (api_name crc : Text) (old missing new_expected : Dict Crcs)
    → Tracked old missing
    → Looped api_name crc old missing new_expected
unfolding Looped process_loop
process_loop-Looped api_name crc [] missing new_expected t =
    (missing, refl, unfold Keeps in λ k h. h)
process_loop-Looped api_name crc ((name, crcs) ∷ old) missing new_expected t =
    round-Looped api_name crc name (lookup api_name crcs) old missing new_expected t.0 t.1
      (process_loop-Looped api_name crc old)

-- The restriction to tracked collections succeeds and tracks them.
pub restrict-ok :
    (d missing : Dict Crcs)
    → Tracked d missing
    → (left : Dict Crcs) × (restrict d missing ≡ ok left) × ((k : Text) → has k left ≡ has k d)
unfolding restrict
restrict-ok [] missing t = ([], refl, λ k. refl)
restrict-ok ((name, crcs) ∷ d) missing t =
    let (others, e, same) = restrict-ok d missing t.1 in
    elim (Option-cases (lookup name missing)) [
      | inl e2 ↦ let h = t.0 in cc
      | inr (mine, e2) ↦ (
        (name, mine) ∷ others,
        rw (e2, e, restrict) refl,
        λ k. has-cons k name mine others ∙ rw (same k) (sym (has-cons k name crcs d)),
      )
    ]

pub Tracked-self :
    (d all : Dict Crcs) → ((k : Text) → has k d ≡ true → has k all ≡ true) → Tracked d all
Tracked-self [] all h = tt
Tracked-self ((name, crcs) ∷ d) all h =
    let same : text_eq name name ≡ true = (text_eq_iff name name).1 refl in
    (
      h name (has-cons name name crcs d ∙ rw same refl),
      Tracked-self d all (λ k g. h k (ground (arith, has-cons k name crcs d, g))),
    )
