-- ===== src/Persistence.antt =====
-- backend/app/infrastructure/database/persistence_worker.py: alerts are paired with their evidence
-- and written in one transaction. A table is the list of its rows; of a row the columns are kept that
-- are not the same text in every row. Where an attempt raises, its transaction is rolled back.
pub mod Rows
pub mod Retries
pub mod Pairing
use boars_head_compliance_de.Prelude.{
  ℕ, zero, suc, ◌+◌, min, String, ◌≡◌, ◌↔◌, refl, ap, Bool, true, false, Option, none, some, List,
  [], ◌∷◌, ◌++◌, length, if◌then◌else◌,
}
use mathlib.Core.Option.{some-injective}
use text.Mathlib.Text.{◌==◌ as str_eq}
use text.Mathlib.TextEquality.{eq_iff}
use boars_head_compliance_de.Prelude.Dict.{Eq, Dict, get, put, pop}
use boars_head_compliance_de.Float.{Micros}
use boars_head_compliance_de.Evidence.{EvidenceLib, ItemArgs}
use boars_head_compliance_de.Events.{ComplianceEvent, EvidenceCaptureEvent}

pub record Violation : Type 0 where
  pub id : ℕ
  pub group_id : String
  pub camera_id : String
  pub zone_id : String
  pub track_id : ℕ
  pub started_at : Option Micros
  pub confirmed_at : Micros

pub record EvidenceGroup : Type 0 where
  pub id : ℕ
  pub group_id : String
  pub violation_id : ℕ
  pub started_at : Option Micros
  pub frozen_at : Micros
  pub item_count : ℕ

-- `stored` says whether the thumbnail's file was written
pub record EvidenceItem : Type 0 where
  pub evidence_group_id : ℕ
  pub frame_id : ℕ
  pub sequence_number : ℕ
  pub captured_at : Micros
  pub stored : Bool

pub record Notification : Type 0 where
  pub id : ℕ
  pub violation_id : ℕ

pub data Action : Type 0 where
  violation_created : Action
  evidence_frozen : Action
  notification_created : Action

pub record AuditLog : Type 0 where
  pub action : Action
  pub entity_id : ℕ
  pub correlation_id : String

pub record Tables : Type 0 where
  pub violations : List Violation
  pub groups : List EvidenceGroup
  pub items : List EvidenceItem
  pub notifications : List Notification
  pub audit : List AuditLog

-- violation_repo.get_by_group_id(group_id) is not None
unfoldable pub has_violation : String → List Violation → Bool
has_violation group [] = false
has_violation group (v ∷ vs) =
    let rest = has_violation group vs in if str_eq v.group_id group then true else rest

-- min(item.timestamp for item in items)
unfoldable pub earliest : List ItemArgs → Option Micros
earliest [] = none
earliest (i ∷ items) = elim (earliest items) [
  | none ↦ some i.timestamp
  | some t ↦ some (min i.timestamp t)
]

-- What one attempt meets: whether something raises, the ids of the new rows, and the numbers of the
-- items whose file is written.
pub record Attempt : Type 0 where
  pub raises : Bool
  pub violation_id : ℕ
  pub evidence_group_id : ℕ
  pub notification_id : ℕ
  pub writes : ℕ → Bool

unfoldable pub item_rows : Attempt → ℕ → List ItemArgs → List EvidenceItem
item_rows a seq [] = []
item_rows a seq (i ∷ items) =
    record {
      evidence_group_id = a.evidence_group_id;
      frame_id = i.frame_id;
      sequence_number = seq;
      captured_at = i.timestamp;
      stored = elim i.thumbnail [ none ↦ false | some bytes ↦ a.writes seq ];
    }
    ∷ item_rows a (seq + 1) items

abbrev pub audit_row : Action → ℕ → String → AuditLog
audit_row action entity group = record {
  action = action;
  entity_id = entity;
  correlation_id = group;
}

unfoldable pub add_violation : Attempt → String → ComplianceEvent → Option Micros → Tables → Tables
add_violation a group alert started db = record db {
  violations =
      db.violations
      ++ record {
        id = a.violation_id;
        group_id = group;
        camera_id = alert.camera_id;
        zone_id = alert.zone_id;
        track_id = alert.person_id;
        started_at = started;
        confirmed_at = alert.timestamp;
      }
        ∷ [];
}

-- the evidence group and its items
unfoldable pub add_evidence :
    Attempt → String → ComplianceEvent → Option Micros → List ItemArgs → Tables → Tables
add_evidence a group alert started items db = record db {
  groups =
      db.groups
      ++ record {
        id = a.evidence_group_id;
        group_id = group;
        violation_id = a.violation_id;
        started_at = started;
        frozen_at = alert.timestamp;
        item_count = length items;
      }
        ∷ [];
  items = db.items ++ item_rows a 0 items;
}

-- the notification and the audit trail, with the entry for the evidence
unfoldable pub add_notification : Attempt → String → List AuditLog → Tables → Tables
add_notification a group frozen db = record db {
  notifications =
      db.notifications ++ record { id = a.notification_id; violation_id = a.violation_id } ∷ [];
  audit =
      db.audit
      ++ audit_row violation_created a.violation_id group
        ∷ (frozen ++ audit_row notification_created a.notification_id group ∷ []);
}

-- the rows of one violation, in the order in which they are saved
unfoldable pub add_rows :
    Attempt → String → ComplianceEvent → Option (List ItemArgs) → Tables → Tables
add_rows a group alert none db = add_notification a group [] (add_violation a group alert none db)
add_rows a group alert (some items) db =
    add_notification a group (audit_row evidence_frozen a.evidence_group_id group ∷ []) (
      add_evidence a group alert (earliest items) items
        (add_violation a group alert (earliest items) db))

-- `_persist_violation`, by the items of the evidence, if there is any; whether it raises. A violation
-- without a group breaks the constraint of its column.
unfoldable pub persist_violation :
    Attempt → ComplianceEvent → Option (List ItemArgs) → Tables → Bool × Tables
persist_violation a alert evidence db = elim alert.group_id [
  | none ↦ (true, db)
  | some group ↦
      if a.raises
      then (true, db)
      else if has_violation group db.violations
      then (false, db)
      else (false, add_rows a group alert evidence db)
]

-- `_persist_violation_with_retry` for `n` attempts, by the attempts that are left
unfoldable pub persist_with_retry :
    ℕ → (ℕ → Attempt) → ComplianceEvent → Option (List ItemArgs) → Tables → Bool × Tables
persist_with_retry zero attempts alert evidence db = (true, db)
persist_with_retry (suc n) attempts alert evidence db =
    let (raised, db') = persist_violation (attempts n) alert evidence db in
    elim raised [ false ↦ (false, db') | true ↦ persist_with_retry n attempts alert evidence db' ]

abbrev pub same_group : Option String → Option String → Bool
same_group none none = true
same_group none (some b) = false
same_group (some a) none = false
same_group (some a) (some b) = str_eq a b

pub same_group_iff : (a b : Option String) → (same_group a b ≡ true) ↔ (a ≡ b)
same_group_iff none none = (λ h. refl, λ h. refl)
same_group_iff none (some b) = (λ h. cc, λ h. cc)
same_group_iff (some a) none = (λ h. cc, λ h. cc)
same_group_iff (some a) (some b) =
    (λ h. ap some ((eq_iff a b).0 h), λ h. (eq_iff a b).1 (some-injective a b h))

instance abbrev pub group_eq : Eq (Option String)
group_eq = record { beq = same_group; beq_iff = same_group_iff }

module _ (ev : EvidenceLib) (items_of : EvidenceLib.Payload ev → List ItemArgs) where
  -- `_pending_evidence`; a `group_id` may be None
  abbrev pub Pending : Type 0
  Pending = Dict (Option String) (EvidenceCaptureEvent ev)

  -- `_drain_evidence_topic`, by what `get` returns; `none` is an empty queue or an exception
  unfoldable pub drain_evidence : Option (EvidenceCaptureEvent ev) → Pending → Pending
  drain_evidence none pending = pending
  drain_evidence (some event) pending = put event.group_id event pending

  -- the loop that waits for the evidence of a group, by the ticks that are left
  unfoldable pub await_evidence :
      ℕ
      → (ℕ → Option (EvidenceCaptureEvent ev))
      → Option String
      → Pending
      → Option (EvidenceCaptureEvent ev) × Pending
  await_evidence zero arrivals group pending = (none, pending)
  await_evidence (suc n) arrivals group pending =
      let pending' = drain_evidence (arrivals n) pending in
      elim (get group pending') [
        | some event ↦ (some event, pop group pending')
        | none ↦ await_evidence n arrivals group pending'
      ]

  pub record Worker : Type 0 where
    pub pending : Pending
    pub tables : Tables

  -- One pass of the loop: what `get` returns on the two topics, on the evidence topic while an alert
  -- waits, and what the attempts meet.
  pub record Pass : Type 0 where
    pub evidence : Option (EvidenceCaptureEvent ev)
    pub alert : Option ComplianceEvent
    pub arrivals : ℕ → Option (EvidenceCaptureEvent ev)
    pub attempts : ℕ → Attempt

  abbrev pub items_of_event : Option (EvidenceCaptureEvent ev) → Option (List ItemArgs)
  items_of_event none = none
  items_of_event (some event) = some (items_of event.payload)

  -- `_drain_alert_topic`
  unfoldable pub drain_alert : Option ComplianceEvent → Pass → Worker → Worker
  drain_alert none p w = w
  drain_alert (some alert) p w =
      let (evidence, pending) = await_evidence 20 p.arrivals alert.group_id w.pending in
      record {
        pending = pending;
        tables = (persist_with_retry 3 p.attempts alert (items_of_event evidence) w.tables).1;
      }

  -- the body of the loop of `_run`
  unfoldable pub persist_pass : Pass → Worker → Worker
  persist_pass p w =
      drain_alert p.alert p (record w { pending = drain_evidence p.evidence w.pending })

  unfoldable pub persist_passes : List Pass → Worker → Worker
  persist_passes [] w = w
  persist_passes (p ∷ passes) w = persist_passes passes (persist_pass p w)
