-- ===== src/Persistence/Rows.antt =====
-- What the tables hold after any run of the worker.
use boars_head_compliance_de.Prelude.{
  ℕ, zero, suc, ◌+◌, ◌≡◌, refl, ap, ap₂, sym, ◌∙◌, String, Bool, true, false, Option, none, some,
  List, [], ◌∷◌, ◌++◌, map, length, arith, Bool-cases, Option-cases, ◌⊎◌, inl, inr, if◌then◌else◌,
  All, All-append,
}
use mathlib.Core.List.{append-nil, append_assoc, map-append}
use text.Mathlib.Text.{◌==◌ as str_eq}
use text.Mathlib.TextEquality.{eq_iff}
use boars_head_compliance_de.Evidence.{EvidenceLib, ItemArgs}
use boars_head_compliance_de.Events.{ComplianceEvent}
use boars_head_compliance_de.Persistence.{
  Violation, EvidenceGroup, EvidenceItem, Notification, Action, violation_created, evidence_frozen,
  notification_created, AuditLog, Tables, Attempt, has_violation, item_rows, add_violation,
  add_evidence, add_notification, add_rows, persist_violation, persist_with_retry, Worker, Pass,
  drain_alert, persist_pass, persist_passes,
}

-- no two violations of one group
abbrev pub IsUnique : List Violation → Type 0
IsUnique [] = Unit
IsUnique (v ∷ vs) = (has_violation v.group_id vs ≡ false) × IsUnique vs

-- a number, as often as a count says
abbrev pub repeated : ℕ → ℕ → List ℕ
repeated zero id = []
repeated (suc n) id = id ∷ repeated n id

-- for each evidence group its id, as often as it has items
abbrev pub owners : List EvidenceGroup → List ℕ
owners [] = []
owners (g ∷ groups) = repeated g.item_count g.id ++ owners groups

-- what the audit trail says of one kind of action: the entities, with the groups they are of
abbrev pub same_action : Action → Action → Bool
same_action violation_created violation_created = true
same_action evidence_frozen evidence_frozen = true
same_action notification_created notification_created = true
same_action _ _ = false

unfoldable pub trail : Action → List AuditLog → List (ℕ × String)
trail action [] = []
trail action (entry ∷ entries) =
    let rest = trail action entries in
    if same_action action entry.action then (entry.entity_id, entry.correlation_id) ∷ rest else rest

-- one of the violations has this id and this group
abbrev pub IsOf : ℕ → String → List Violation → Type 0
IsOf id group [] = ⊥
IsOf id group (v ∷ vs) = ((v.id ≡ id) × (v.group_id ≡ group)) ⊎ IsOf id group vs

pub record IsSound (db : Tables) : Type 0 where
  pub unique : IsUnique db.violations
  pub notified :
      map (λ (n : Notification). n.violation_id) db.notifications
      ≡ map (λ (v : Violation). v.id) db.violations
  pub grouped : All (λ (g : EvidenceGroup). IsOf g.violation_id g.group_id db.violations) db.groups
  pub counted : map (λ (i : EvidenceItem). i.evidence_group_id) db.items ≡ owners db.groups
  pub created :
      trail violation_created db.audit ≡ map (λ (v : Violation). (v.id, v.group_id)) db.violations
  pub frozen :
      trail evidence_frozen db.audit ≡ map (λ (g : EvidenceGroup). (g.id, g.group_id)) db.groups
  pub sent :
      map (λ (p : ℕ × String). p.0) (trail notification_created db.audit)
      ≡ map (λ (n : Notification). n.id) db.notifications
  pub sent_for :
      map (λ (p : ℕ × String). p.1) (trail notification_created db.audit)
      ≡ map (λ (v : Violation). v.group_id) db.violations

has_violation-append :
    (group : String) (vs : List Violation) (w : Violation)
    → has_violation group (vs ++ w ∷ [])
      ≡ (if has_violation group vs then true else str_eq w.group_id group)
unfolding has_violation
has_violation-append group [] w = ground arith
has_violation-append group (v ∷ vs) w = ground (arith, has_violation-append group vs w)

IsUnique-append :
    (vs : List Violation) (w : Violation)
    → IsUnique vs
    → has_violation w.group_id vs ≡ false
    → IsUnique (vs ++ w ∷ [])
unfolding has_violation
IsUnique-append [] w h e = (refl, tt)
IsUnique-append (v ∷ vs) w h e = (
  ground (
    arith,
    has_violation-append v.group_id vs w,
    eq_iff v.group_id w.group_id,
    eq_iff w.group_id v.group_id,
    h.0,
    e,
  ),
  IsUnique-append vs w h.1 (ground (arith, e)),
)

trail-append :
    (action : Action) (xs ys : List AuditLog)
    → trail action (xs ++ ys) ≡ trail action xs ++ trail action ys
unfolding trail
trail-append action [] ys = refl
trail-append action (x ∷ xs) ys = ground (arith, trail-append action xs ys)

owners-append :
    (groups : List EvidenceGroup) (g : EvidenceGroup)
    → owners (groups ++ g ∷ []) ≡ owners groups ++ repeated g.item_count g.id
owners-append [] g = append-nil (repeated g.item_count g.id)
owners-append (h ∷ groups) g =
    ap (λ ids. repeated h.item_count h.id ++ ids) (owners-append groups g)
    ∙ sym (append_assoc (repeated h.item_count h.id) (owners groups) _)

item_rows-owner :
    (a : Attempt) (seq : ℕ) (items : List ItemArgs)
    → map (λ (i : EvidenceItem). i.evidence_group_id) (item_rows a seq items)
      ≡ repeated (length items) a.evidence_group_id
unfolding item_rows
item_rows-owner a seq [] = refl
item_rows-owner a seq (i ∷ items) =
    ap (λ ids. a.evidence_group_id ∷ ids) (item_rows-owner a (seq + 1) items)

IsOf-append :
    (id : ℕ) (group : String) (vs : List Violation) (w : Violation)
    → IsOf id group vs
    → IsOf id group (vs ++ w ∷ [])
IsOf-append id group [] w h = absurd h
IsOf-append id group (v ∷ vs) w (inl h) = inl h
IsOf-append id group (v ∷ vs) w (inr h) = inr (IsOf-append id group vs w h)

IsOf-last : (vs : List Violation) (w : Violation) → IsOf w.id w.group_id (vs ++ w ∷ [])
IsOf-last [] w = inl (refl, refl)
IsOf-last (v ∷ vs) w = inr (IsOf-last vs w)

grouped-append :
    (groups : List EvidenceGroup) (vs : List Violation) (w : Violation)
    → All (λ (g : EvidenceGroup). IsOf g.violation_id g.group_id vs) groups
    → All (λ (g : EvidenceGroup). IsOf g.violation_id g.group_id (vs ++ w ∷ [])) groups
grouped-append [] vs w h = tt
grouped-append (g ∷ groups) vs w h =
    (IsOf-append g.violation_id g.group_id vs w h.0, grouped-append groups vs w h.1)

add_rows-IsSound :
    (a : Attempt) (group : String) (alert : ComplianceEvent) (evidence : Option (List ItemArgs))
    (db : Tables)
    → has_violation group db.violations ≡ false
    → IsSound db
    → IsSound (add_rows a group alert evidence db)
unfolding add_rows add_violation add_evidence add_notification trail
add_rows-IsSound a group alert none db e h = record {
  unique = IsUnique-append db.violations _ h.unique e;
  notified = simp (map-append, h.notified) refl;
  grouped = grouped-append db.groups db.violations _ h.grouped;
  counted = h.counted;
  created = simp (trail-append, map-append, h.created) refl;
  frozen = simp (trail-append, append-nil) h.frozen;
  sent = simp (trail-append, map-append, h.sent) refl;
  sent_for = simp (trail-append, map-append, h.sent_for) refl;
}
add_rows-IsSound a group alert (some items) db e h = record {
  unique = IsUnique-append db.violations _ h.unique e;
  notified = simp (map-append, h.notified) refl;
  grouped =
      All-append _ db.groups _ (grouped-append db.groups db.violations _ h.grouped)
        (IsOf-last db.violations _, tt);
  counted =
      map-append _ db.items (item_rows a 0 items)
      ∙ ap₂ ◌++◌ h.counted (item_rows-owner a 0 items)
      ∙ sym (owners-append db.groups _);
  created = simp (trail-append, map-append, h.created) refl;
  frozen = simp (trail-append, map-append, h.frozen) refl;
  sent = simp (trail-append, map-append, h.sent) refl;
  sent_for = simp (trail-append, map-append, h.sent_for) refl;
}

persist_violation-IsSound :
    (a : Attempt) (alert : ComplianceEvent) (evidence : Option (List ItemArgs)) (db : Tables)
    → IsSound db
    → IsSound (persist_violation a alert evidence db).1
unfolding persist_violation add_rows add_violation add_notification add_evidence item_rows
persist_violation-IsSound a alert evidence db h = elim (Option-cases alert.group_id) [
  | inl e ↦ rw e h
  | inr (group, e) ↦ elim (Bool-cases a.raises) [
    | inl r ↦ rw (e, r) h
    | inr r ↦ elim (Bool-cases (has_violation group db.violations)) [
      | inl k ↦ rw (e, r, k) h
      | inr k ↦ rw (e, r, k) (add_rows-IsSound a group alert evidence db k h)
    ]
  ]
]

persist_with_retry-IsSound :
    (n : ℕ) (attempts : ℕ → Attempt) (alert : ComplianceEvent) (evidence : Option (List ItemArgs))
    (db : Tables)
    → IsSound db
    → IsSound (persist_with_retry n attempts alert evidence db).1
unfolding persist_with_retry
persist_with_retry-IsSound zero attempts alert evidence db h = h
persist_with_retry-IsSound (suc n) attempts alert evidence db h =
    let h' = persist_violation-IsSound (attempts n) alert evidence db h in
    elim (Bool-cases (persist_violation (attempts n) alert evidence db).0) [
      | inl r ↦
          rw (persist_with_retry, r) (persist_with_retry-IsSound n attempts alert evidence _ h')
      | inr r ↦ rw (persist_with_retry, r) h'
    ]

module _ (ev : EvidenceLib) (items_of : EvidenceLib.Payload ev → List ItemArgs) where
  drain_alert-IsSound :
      (alert : Option ComplianceEvent) (p : Pass ev items_of) (w : Worker ev items_of)
      → IsSound w.tables
      → IsSound (drain_alert ev items_of alert p w).tables
  unfolding drain_alert
  drain_alert-IsSound none p w h = h
  drain_alert-IsSound (some alert) p w h =
      persist_with_retry-IsSound 3 p.attempts alert _ w.tables h

  -- Whatever alerts and evidence arrive, in whatever order and however often, and whichever attempts
  -- raise, the tables stay in agreement: no group has two violations; the notifications are of the
  -- violations, one for each, in order; every evidence group is of a violation with its group's id,
  -- and the items are of the evidence groups in order, as many for each as it counts; the audit trail
  -- has one entry for each violation, evidence group and notification, with its id and its group, and
  -- no other of these kinds.
  pub persist_passes-IsSound :
      (passes : List (Pass ev items_of)) (w : Worker ev items_of)
      → IsSound w.tables
      → IsSound (persist_passes ev items_of passes w).tables
  unfolding persist_passes persist_pass
  persist_passes-IsSound [] w h = h
  persist_passes-IsSound (p ∷ passes) w h =
      persist_passes-IsSound passes _ (drain_alert-IsSound p.alert p _ h)
