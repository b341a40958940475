-- ===== src/VppApiCrc.antt =====
-- resources/libraries/python/VppApiCrc.py: which collections of VPP API CRCs fit the messages seen.
-- The collections of supported_crcs.yaml and the files that `os.walk` yields are arguments.
mod Survivors
pub mod Process
pub mod Check
pub mod Report
mod Tests
use csit.Base.{Bool, true, false, not, ◌&&◌, Option, none, some, List, [], ◌∷◌, if◌then◌else◌}
use csit.Base.Dict.{Dict, lookup, insert, remove, has, truthy}
use csit.Base.Text.{Text, codes, non_empty, text_eq, ends_with}
use csit.Base.Result.{Result, ok, raise, runtime_error, key_error, ◌>>=◌}

-- A collection: API names with their CRCs.
abbrev pub Crcs : Type 0
Crcs = Dict Text

pub record Checker : Type 0 where
  pub fail_on_mismatch : Bool
  pub expected : Dict Crcs
  pub missing : Dict Crcs
  pub found : Crcs
  pub reported : Dict (Option Text)
  pub initial_conflicts_reported : Bool

abbrev pub Outcome : Type 0
Outcome = Checker × Result (Unit {0})

-- The console line is not modelled.
unfoldable pub log_and_raise : Checker → Result (Unit {0})
log_and_raise self = if self.fail_on_mismatch then raise runtime_error else ok tt

unfoldable pub register_collection : Checker → Text → Crcs → Result Checker
register_collection self collection_name mapping =
    if has collection_name self.expected
    then raise runtime_error
    else ok (record self {
      expected = insert collection_name mapping self.expected;
      missing = insert collection_name mapping self.missing;
    })

unfoldable pub register_all : Checker → Dict Crcs → Result Checker
register_all self [] = ok self
register_all self ((name, mapping) ∷ collections) = do
  next ← register_collection self name mapping
  register_all next collections

-- An item of a message in the intermediate json: a dict with its value under "crc", a list, or a text.
pub data Item : Type 0 where
  mapping : (crc : Option Text) → Item
  sequence : Item
  scalar : Text → Item

unfoldable pub get_name : List Item → Result Text
get_name [] = raise runtime_error
get_name (mapping crc ∷ items) = get_name items
get_name (sequence ∷ items) = get_name items
get_name (scalar name ∷ items) = ok name

-- A CRC that is there and not empty.
abbrev pub crc_of : Item → Option Text
crc_of (mapping (some crc)) = if non_empty crc then some crc else none
crc_of _ = none

-- The loop runs over the reversed message, so a later item comes first.
unfoldable pub get_crc : List Item → Result Text
get_crc [] = raise runtime_error
get_crc (item ∷ items) = elim (get_crc items) [
  | ok crc ↦ ok crc
  | raise e ↦ elim (crc_of item) [ none ↦ raise e | some crc ↦ ok crc ]
]

-- `self._missing[collection_name].pop(api_name, None)`
unfoldable pub pop_missing : Text → Text → Dict Crcs → Result (Dict Crcs)
pop_missing collection_name api_name missing = elim (lookup collection_name missing) [
  | none ↦ raise key_error
  | some crcs ↦ ok (insert collection_name (remove api_name crcs) missing)
]

-- One round of the `for` loop of `_process_crc`, on one old collection.
abbrev pub Round : Type 0
Round = Dict Crcs × Result (Dict Crcs)

abbrev pub popped :
    Result (Dict Crcs) → Dict Crcs → Dict Crcs → (Dict Crcs → Dict Crcs → Round) → Round
popped (ok missing_2) missing new_expected next = next missing_2 new_expected
popped (raise e) missing new_expected next = (missing, raise e)

unfoldable pub round :
    Text
    → Text
    → Text
    → Option Text
    → Dict Crcs
    → Dict Crcs
    → (Dict Crcs → Dict Crcs → Round)
    → Round
round api_name crc name none missing new_expected next = next missing new_expected
round api_name crc name (some known) missing new_expected next =
    let fits = popped (pop_missing name api_name missing) missing new_expected next in
    let offends = next missing (remove name new_expected) in
    if text_eq known crc then fits else offends

-- The loop: `missing` as it is left, and `new_expected` or the exception that ended it.
unfoldable pub process_loop : Text → Text → Dict Crcs → Dict Crcs → Dict Crcs → Round
process_loop api_name crc [] missing new_expected = (missing, ok new_expected)
process_loop api_name crc ((name, crcs) ∷ old) missing new_expected =
    round api_name crc name (lookup api_name crcs) missing new_expected
      (process_loop api_name crc old)

-- `{name: self._missing[name] for name in new_expected}`
unfoldable pub restrict : Dict Crcs → Dict Crcs → Result (Dict Crcs)
restrict [] missing = ok []
restrict ((name, crcs) ∷ rest) missing = elim (lookup name missing) [
  | none ↦ raise key_error
  | some left ↦ do others ← restrict rest missing; ok ((name, left) ∷ others)
]

abbrev pub finish : Checker → Dict Crcs → Dict Crcs → Result (Dict Crcs) → Outcome
finish self missing new_expected (ok restricted) =
    (record self { expected = new_expected; missing = restricted }, ok tt)
finish self missing new_expected (raise e) =
    (record self { expected = new_expected; missing = missing }, raise e)

-- What follows the loop.
abbrev pub settle : Checker → Text → Text → Dict Crcs → Result (Dict Crcs) → Outcome
settle self api_name crc missing (raise e) = (record self { missing = missing }, raise e)
settle self api_name crc missing (ok []) =
    (record self { missing = missing; reported = insert api_name (some crc) self.reported }, ok tt)
settle self api_name crc missing (ok (c ∷ cs)) =
    finish self missing (c ∷ cs) (restrict (c ∷ cs) missing)

unfoldable pub process_crc : Checker → Text → Text → Outcome
process_crc self api_name crc =
    let remembered = record self { found = insert api_name crc self.found } in
    let (missing, result) = process_loop api_name crc self.expected self.missing self.expected in
    settle remembered api_name crc missing result

abbrev pub and_then : Outcome → (Checker → Outcome) → Outcome
and_then (self, result) next = elim result [ ok _ ↦ next self | raise e ↦ (self, raise e) ]

unfoldable pub check_messages : Checker → List (List Item) → Outcome
check_messages self [] = (self, ok tt)
check_messages self (msg_obj ∷ msgs) = elim (get_name msg_obj) [
  | raise e ↦ (self, raise e)
  | ok msg_name ↦ elim (get_crc msg_obj) [
    | raise e ↦ (self, raise e)
    | ok msg_crc ↦ and_then (process_crc self msg_name msg_crc) (λ s. check_messages s msgs)
  ]
]

-- The files of the directory, by name, with their messages.
unfoldable pub check_dir : Checker → List (Text × List (List Item)) → Outcome
check_dir self [] = (self, ok tt)
check_dir self ((filename, msgs) ∷ files) =
    let later = λ (s : Checker). check_dir s files in
    if ends_with filename (codes ".api.json")
    then and_then (check_messages self msgs) later
    else later self

unfoldable pub init : Bool → Dict Crcs → List (Text × List (List Item)) → Result Checker
init fail_on_mismatch collections files = do
  registered ←
      register_all
        (record {
          fail_on_mismatch = fail_on_mismatch;
          expected = [];
          missing = [];
          found = [];
          reported = [];
          initial_conflicts_reported = false;
        })
        collections
  let (checked, result) = check_dir registered files
  elim result [ ok _ ↦ ok checked | raise e ↦ raise e ]

-- `{name: mapp for name, mapp in self._missing.items() if mapp}`
unfoldable pub non_empty_maps : Dict Crcs → Dict Crcs
non_empty_maps [] = []
non_empty_maps ((name, mapp) ∷ rest) =
    let others = non_empty_maps rest in if truthy mapp then (name, mapp) ∷ others else others

unfoldable pub report_missing_of : Checker → Bool → Outcome
unfolding log_and_raise non_empty_maps
report_missing_of self report_missing =
    if report_missing && truthy (non_empty_maps self.missing)
    then (self, log_and_raise self)
    else (self, ok tt)

unfoldable pub report_initial_conflicts : Checker → Bool → Outcome
unfolding report_missing_of
report_initial_conflicts self report_missing =
    let marked = record self { initial_conflicts_reported = true } in
    let cleared = record marked { reported = [] } in
    if self.initial_conflicts_reported
    then (self, ok tt)
    else if truthy self.reported
    then and_then (cleared, log_and_raise cleared) (λ s. report_missing_of s report_missing)
    else report_missing_of marked report_missing

-- The first `for` loop of `check_api_name`.
unfoldable pub known_loop : Text → Dict Crcs → Dict Crcs → Dict Crcs
known_loop api_name [] new_expected = new_expected
known_loop api_name ((name, crcs) ∷ old) new_expected =
    known_loop api_name old (if has api_name crcs then new_expected else remove name new_expected)

-- The second: whether a collection holds the API under the CRC.
unfoldable pub matching : Text → Text → Dict Crcs → Bool
matching api_name crc [] = false
matching api_name crc ((name, crcs) ∷ rest) =
    let later = matching api_name crc rest in
    elim (lookup api_name crcs) [
      | none ↦ later
      | some known ↦ if text_eq known crc then true else later
    ]

abbrev pub narrowed : Dict Crcs → Dict Crcs → Dict Crcs
narrowed expected [] = expected
narrowed expected (c ∷ cs) = c ∷ cs

abbrev pub matches : Text → Option Text → Dict Crcs → Bool
matches api_name none expected = false
matches api_name (some crc) expected = matching api_name crc expected

unfoldable pub check_api_name : Checker → Text → Outcome
unfolding log_and_raise
check_api_name self api_name =
    let expected = narrowed self.expected (known_loop api_name self.expected self.expected) in
    let crc = lookup api_name self.found in
    let known = record self { expected = expected } in
    let noted = record known { reported = insert api_name crc self.reported } in
    if has api_name self.reported
    then (self, ok tt)
    else if matches api_name crc expected
    then (known, ok tt)
    else (noted, log_and_raise noted)
