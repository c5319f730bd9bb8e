-- ===== src/Examples/Storage.antt =====
-- An alert, its evidence, and a database that fails once.
use boars_head_compliance_de.Prelude.{
  ℕ, ◌<◌, ◌≡◌, refl, String, true, false, none, some, List, [], ◌∷◌, arith, ◌==◌, if◌then◌else◌,
}
use boars_head_compliance_de.Float.{seconds}
use boars_head_compliance_de.Evidence.{ItemArgs, list_evidence}
use boars_head_compliance_de.Events.{ComplianceEvent, EvidenceCaptureEvent}
use boars_head_compliance_de.Persistence.{
  Tables, Attempt, Worker, Pass, persist_violation, persist_with_retry, persist_passes,
  has_violation,
}
use boars_head_compliance_de.Persistence.{group_eq, persist_pass}
use boars_head_compliance_de.Persistence.Pairing.{
  IsElsewhere, IsWritten, in_later_tick, persist_pass-pairs,
}
use boars_head_compliance_de.Prelude.Dict.{get}
use boars_head_compliance_de.Persistence.Rows.{IsSound, trail, persist_passes-IsSound}
use boars_head_compliance_de.Persistence.Retries.{AttemptRaises, persist_with_retry-first}

abbrev alert : ComplianceEvent
alert = record {
  camera_id = "cam";
  zone_id = "zone";
  person_id = 7;
  timestamp = seconds 40;
  outcome = "violation";
  rule_name = "handwash";
  group_id = some "group";
}

abbrev item : ItemArgs
item = record {
  frame_id = 100;
  timestamp = seconds 20;
  thumbnail = none;
  camera_id = "cam";
  zone_id = "zone";
  person_id = 7;
  shot = none;
}

abbrev items_of : String × List ItemArgs → List ItemArgs
items_of p = p.1

abbrev evidence : EvidenceCaptureEvent list_evidence
evidence = record {
  group_id = some "group";
  camera_id = "cam";
  zone_id = "zone";
  payload = ("group", item ∷ item ∷ []);
  timestamp = seconds 40;
}

abbrev empty_tables : Tables
empty_tables = record { violations = []; groups = []; items = []; notifications = []; audit = [] }

abbrev attempt : ℕ → Attempt
attempt n = record {
  raises = n == 2;
  violation_id = n;
  evidence_group_id = n;
  notification_id = n;
  writes = λ seq. true;
}

abbrev pass : Pass list_evidence items_of
pass = record {
  evidence = none;
  alert = some alert;
  arrivals = λ tick. if tick == 5 then some evidence else none;
  attempts = attempt;
}

abbrev worker : Worker list_evidence items_of
worker = record { pending = []; tables = empty_tables }

-- the alert comes twice
persist_passes-IsSound_example :
    IsSound (persist_passes list_evidence items_of (pass ∷ pass ∷ []) worker).tables
unfolding trail
persist_passes-IsSound_example =
    persist_passes-IsSound list_evidence items_of (pass ∷ pass ∷ []) worker (record {
      unique = tt;
      notified = refl;
      grouped = tt;
      counted = refl;
      created = refl;
      frozen = refl;
      sent = refl;
      sent_for = refl;
    })

succeeds : (persist_violation (attempt 1) alert (some (item ∷ [])) empty_tables).0 ≡ false
unfolding persist_violation has_violation
succeeds = refl

raises_before :
    (j : ℕ) → 1 < j → j < 3 → AttemptRaises attempt alert (some (item ∷ [])) empty_tables j
unfolding persist_violation
raises_before j a b = let two : j ≡ 2 = omega arith in rw two refl

persist_with_retry-first_example :
    persist_with_retry 3 attempt alert (some (item ∷ [])) empty_tables
    ≡ (false, (persist_violation (attempt 1) alert (some (item ∷ [])) empty_tables).1)
persist_with_retry-first_example =
    persist_with_retry-first attempt alert (some (item ∷ [])) empty_tables 3 1 (omega arith)
      succeeds raises_before

second_raises : (j : ℕ) → 1 < j → j < 3 → (attempt j).raises ≡ true
second_raises j a b = ground arith

IsElsewhere-before :
    (j : ℕ) → 5 < j → j < 20 → IsElsewhere list_evidence items_of (some "group") (pass.arrivals j)
IsElsewhere-before j a b = let later : (j == 5) ≡ false = ground arith in rw later tt

persist_pass-pairs_example :
    IsWritten
      (attempt 1)
      "group"
      alert
      (item ∷ item ∷ [])
      empty_tables
      (persist_pass list_evidence items_of pass worker).tables
    × (get (some "group") (persist_pass list_evidence items_of pass worker).pending ≡ none)
unfolding has_violation get
persist_pass-pairs_example =
    persist_pass-pairs list_evidence items_of pass worker alert "group" evidence 1 refl refl refl
      (in_later_tick 5 refl tt (omega arith) refl refl IsElsewhere-before) (omega arith) refl
      second_raises
