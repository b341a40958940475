-- ===== src/VppApiCrc/Tests.antt =====
-- Two collections and messages that one or both of them fit, and the theorems at them.
use csit.Base.{true, false, some, List, [], ◌∷◌, ◌≡◌, refl, ◌↔◌}
use csit.Base.Dict.{Dict, lookup, insert, remove}
use csit.Base.Text.{Text, codes, text_eq, ends_with}
use csit.Base.Result.{ok, raise, runtime_error}
use csit.VppApiCrc.{
  Crcs, Checker, Item, mapping, sequence, scalar, init, register_all, get_name, get_crc,
  process_crc, check_messages, check_dir, check_api_name, report_initial_conflicts, pop_missing,
  round, process_loop, restrict, non_empty_maps, report_missing_of, known_loop, matching,
  log_and_raise, register_collection,
}
use csit.VppApiCrc.Survivors.{compatible, filtered}
use csit.VppApiCrc.Check.{Processed, process_crc-exact, KeptFitting, check_messages-exact}
use csit.VppApiCrc.Report.{
  Found, check_api_name_twice, check_api_name-Found, report_initial_conflicts_twice,
}

abbrev ping : Text
ping = codes "ping"

abbrev old_crcs : Crcs
old_crcs = (ping, codes "0x1") ∷ (codes "show", codes "0x7") ∷ []

abbrev new_crcs : Crcs
new_crcs = (ping, codes "0x2") ∷ []

abbrev collections : Dict Crcs
collections = (codes "old", old_crcs) ∷ (codes "new", new_crcs) ∷ []

abbrev ready : Checker
ready = record {
  fail_on_mismatch = true;
  expected = collections;
  missing = collections;
  found = [];
  reported = [];
  initial_conflicts_reported = false;
}

abbrev message : Text → Text → List Item
message name crc = scalar name ∷ sequence ∷ mapping (some crc) ∷ []

program : Unit {0}
unfolding init register_all register_collection get_name get_crc process_crc check_messages
    check_dir check_api_name report_initial_conflicts pop_missing round process_loop restrict
    non_empty_maps report_missing_of known_loop matching log_and_raise lookup insert remove text_eq
    ends_with
program = tt

init-ready : init true collections [] ≡ ok ready
unfolding program
init-ready = refl

-- A name that comes before a CRC, and a later CRC before an earlier one.
last_crc :
    get_crc (scalar ping ∷ mapping (some (codes "0x1")) ∷ mapping (some (codes "0x2")) ∷ [])
    ≡ ok (codes "0x2")
unfolding program
last_crc = refl

nameless : get_name (sequence ∷ []) ≡ raise runtime_error
unfolding program
nameless = refl

abbrev processed : Checker
processed = (process_crc ready ping (codes "0x2")).0

only_new : processed.expected ≡ (codes "new", new_crcs) ∷ []
unfolding program
only_new = refl

-- No collection fits, so both stay and the API is reported.
conflict : (process_crc ready ping (codes "0x3")).0.reported ≡ (ping, some (codes "0x3")) ∷ []
unfolding program
conflict = refl

unknown_api : (check_api_name processed (codes "pong")).1 ≡ raise runtime_error
unfolding program
unknown_api = refl

other_files : check_dir ready ((codes "ping.api", (sequence ∷ []) ∷ []) ∷ []) ≡ (ready, ok tt)
unfolding program
other_files = refl

process_crc-exact_example :
    Processed ready ping
      (codes "0x2")
      (filtered (compatible ping (codes "0x2")) collections)
      (process_crc ready ping (codes "0x2"))
unfolding program
process_crc-exact_example =
    process_crc-exact ready ping (codes "0x2") ((refl, (refl, tt)), (refl, (refl, tt)))

check_messages-exact_example :
    KeptFitting ready ((ping, codes "0x1") ∷ (codes "show", codes "0x7") ∷ []) (
      check_messages ready (message ping (codes "0x1") ∷ message (codes "show") (codes "0x7") ∷ []))
unfolding program
check_messages-exact_example =
    check_messages-exact ready
      (message ping (codes "0x1") ∷ message (codes "show") (codes "0x7") ∷ [])
      ((ping, codes "0x1") ∷ (codes "show", codes "0x7") ∷ [])
      ((refl, (refl, tt)), (refl, (refl, tt))) (refl, refl, (refl, refl, tt)) refl

check_api_name_twice_example :
    check_api_name (check_api_name ready (codes "pong")).0 (codes "pong")
    ≡ ((check_api_name ready (codes "pong")).0, ok tt)
unfolding program
check_api_name_twice_example = check_api_name_twice ready (codes "pong") (refl, (refl, tt))

check_api_name-Found_example :
    ((check_api_name processed ping).1 ≡ ok tt)
    ↔ Found ping (lookup ping processed.found) (check_api_name processed ping).0.expected
unfolding program
check_api_name-Found_example = check_api_name-Found processed ping refl refl

second_report :
    report_initial_conflicts (report_initial_conflicts processed true).0 false
    ≡ ((report_initial_conflicts processed true).0, ok tt)
unfolding program
second_report = report_initial_conflicts_twice processed true false
