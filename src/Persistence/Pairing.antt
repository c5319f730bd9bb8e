-- ===== src/Persistence/Pairing.antt =====
-- An alert waits for its evidence, and both are written together.
use boars_head_compliance_de.Prelude.{
  ℕ, zero, suc, ◌+◌, ◌<◌, ◌≡◌, refl, ap, sym, subst, ◌∙◌, String, Bool, true, false, Option, none,
  some, List, [], ◌∷◌, ◌++◌, map, length, All, arith, inl, inr, Bool-cases,
}
use boars_head_compliance_de.Prelude.Dict.{get, pop, get-pop, get-put, get-put_self, beq_refl}
use boars_head_compliance_de.Float.{Micros}
use boars_head_compliance_de.Evidence.{EvidenceLib, ItemArgs}
use boars_head_compliance_de.Events.{ComplianceEvent, EvidenceCaptureEvent}
use boars_head_compliance_de.Persistence.{
  group_eq, same_group, same_group_iff, EvidenceItem, violation_created, evidence_frozen,
  notification_created, earliest, item_rows, add_violation, add_evidence, add_notification, Attempt,
  Tables, has_violation, add_rows, persist_violation, persist_with_retry, Pending, drain_evidence,
  await_evidence, Worker, Pass, items_of_event, drain_alert, persist_pass,
}
use boars_head_compliance_de.Persistence.Retries.{
  persist_with_retry-first, lt_suc-cases, nothing_below,
}

writes_rows :
    (a : Attempt) (alert : ComplianceEvent) (evidence : Option (List ItemArgs)) (db : Tables)
    (group : String)
    → alert.group_id ≡ some group
    → has_violation group db.violations ≡ false
    → a.raises ≡ false
    → persist_violation a alert evidence db ≡ (false, add_rows a group alert evidence db)
unfolding persist_violation
writes_rows a alert evidence db group e k r = ground arith

raises_when :
    (a : Attempt) (alert : ComplianceEvent) (evidence : Option (List ItemArgs)) (db : Tables)
    → a.raises ≡ true
    → (persist_violation a alert evidence db).0 ≡ true
unfolding persist_violation
raises_when a alert evidence db r = ground arith

-- n numbers from the first
abbrev pub range : ℕ → ℕ → List ℕ
range first zero = []
range first (suc n) = first ∷ range (first + 1) n

-- The rows of one violation with its evidence, behind those of before: each row is linked to the
-- others by its ids, the items have the frames and the times of the evidence and are numbered from
-- 0, and the three entries of the audit trail carry the group.
abbrev pub IsWritten : Attempt → String → ComplianceEvent → List ItemArgs → Tables → Tables → Type 0
IsWritten a group alert items db db' =
    (db'.violations
      ≡ db.violations
        ++ record {
          id = a.violation_id;
          group_id = group;
          camera_id = alert.camera_id;
          zone_id = alert.zone_id;
          track_id = alert.person_id;
          started_at = earliest items;
          confirmed_at = alert.timestamp;
        }
          ∷ [])
    × (db'.groups
        ≡ db.groups
          ++ record {
            id = a.evidence_group_id;
            group_id = group;
            violation_id = a.violation_id;
            started_at = earliest items;
            frozen_at = alert.timestamp;
            item_count = length items;
          }
            ∷ [])
    × ((rows : List EvidenceItem) × (db'.items ≡ db.items ++ rows)
        × (map {B = ℕ × Micros} (λ (i : EvidenceItem). (i.frame_id, i.captured_at)) rows
            ≡ map {B = ℕ × Micros} (λ (i : ItemArgs). (i.frame_id, i.timestamp)) items)
        × (map (λ (i : EvidenceItem). i.sequence_number) rows ≡ range 0 (length items))
        × All (λ (i : EvidenceItem). i.evidence_group_id ≡ a.evidence_group_id) rows)
    × (db'.notifications
        ≡ db.notifications ++ record { id = a.notification_id; violation_id = a.violation_id } ∷ [])
    × (db'.audit
        ≡ db.audit
          ++ record {
            action = violation_created;
            entity_id = a.violation_id;
            correlation_id = group;
          }
            ∷ record {
              action = evidence_frozen;
              entity_id = a.evidence_group_id;
              correlation_id = group;
            }
            ∷ record {
              action = notification_created;
              entity_id = a.notification_id;
              correlation_id = group;
            }
            ∷ [])

item_rows-content :
    (a : Attempt) (seq : ℕ) (items : List ItemArgs)
    → (map {B = ℕ × Micros}
          (λ (i : EvidenceItem). (i.frame_id, i.captured_at))
          (item_rows a seq items)
        ≡ map {B = ℕ × Micros} (λ (i : ItemArgs). (i.frame_id, i.timestamp)) items)
      × (map (λ (i : EvidenceItem). i.sequence_number) (item_rows a seq items)
          ≡ range seq (length items))
      × All
          (λ (i : EvidenceItem). i.evidence_group_id ≡ a.evidence_group_id)
          (item_rows a seq items)
unfolding item_rows
item_rows-content a seq [] = (refl, refl, tt)
item_rows-content a seq (i ∷ items) =
    let (content, numbers, owned) = item_rows-content a (seq + 1) items in
    (ap (λ xs. (i.frame_id, i.timestamp) ∷ xs) content, ap (λ xs. seq ∷ xs) numbers, (refl, owned))

add_rows-IsWritten :
    (a : Attempt) (group : String) (alert : ComplianceEvent) (items : List ItemArgs) (db : Tables)
    → IsWritten a group alert items db (add_rows a group alert (some items) db)
unfolding add_rows add_violation add_evidence add_notification
add_rows-IsWritten a group alert items db =
    let (content, numbers, owned) = item_rows-content a 0 items in
    (refl, refl, (item_rows a 0 items, refl, content, numbers, owned), refl, refl)

module _ (ev : EvidenceLib) (items_of : EvidenceLib.Payload ev → List ItemArgs) where
  -- what arrives, if anything does, is of another group
  abbrev pub IsElsewhere : Option String → Option (EvidenceCaptureEvent ev) → Type 0
  IsElsewhere group none = Unit
  IsElsewhere group (some event) = ¬ (event.group_id ≡ group)

  get-drain_evidence :
      (o : Option (EvidenceCaptureEvent ev)) (e : EvidenceCaptureEvent ev) (group : Option String)
      (pending : Pending ev items_of)
      → o ≡ some e
      → e.group_id ≡ group
      → get group (drain_evidence ev items_of o pending) ≡ some e
  unfolding drain_evidence
  get-drain_evidence o e group pending h same = rw (h, ← same) (get-put_self e.group_id e pending)

  get-drain_evidence_other :
      (o : Option (EvidenceCaptureEvent ev)) (group : Option String) (pending : Pending ev items_of)
      → IsElsewhere group o
      → get group (drain_evidence ev items_of o pending) ≡ get group pending
  unfolding drain_evidence
  get-drain_evidence_other none group pending h = refl
  get-drain_evidence_other (some event) group pending h =
      let other : same_group event.group_id group ≡ false =
        elim (Bool-cases (same_group event.group_id group)) [
          | inl e ↦ absurd (h ((same_group_iff event.group_id group).0 e))
          | inr e ↦ e
        ] in
      get-put event.group_id group event pending ∙ rw other refl

  get-pop_self :
      (group : Option String) (pending : Pending ev items_of) → get group (pop group pending) ≡ none
  get-pop_self group pending = rw get-pop (rw (beq_refl group_eq group) refl)

  await_evidence-arrives :
      (n : ℕ) (arrivals : ℕ → Option (EvidenceCaptureEvent ev)) (group : Option String)
      (pending : Pending ev items_of) (k : ℕ) (e : EvidenceCaptureEvent ev)
      → k < n
      → get group pending ≡ none
      → ((j : ℕ) → k < j → j < n → IsElsewhere group (arrivals j))
      → arrivals k ≡ some e
      → e.group_id ≡ group
      → ((await_evidence ev items_of n arrivals group pending).0 ≡ some e)
        × (get group (await_evidence ev items_of n arrivals group pending).1 ≡ none)
  unfolding await_evidence
  await_evidence-arrives zero arrivals group pending k e l empty others h same =
      elim (nothing_below k l) [ ]
  await_evidence-arrives (suc n) arrivals group pending k e l empty others h same =
      let pending' = drain_evidence ev items_of (arrivals n) pending in
      elim (lt_suc-cases k n l) [
        | inl last ↦
            (let here : get group pending' ≡ some e =
                get-drain_evidence (arrivals n) e group pending (ap arrivals (sym last) ∙ h) same in
              (
                rw (await_evidence, here) refl,
                rw (await_evidence, here) (get-pop_self group pending'),
              ))
        | inr below ↦
            (let missing : get group pending' ≡ none =
                get-drain_evidence_other (arrivals n) group pending (others n below (omega arith))
                ∙ empty in
              let (got, gone) =
                await_evidence-arrives n arrivals group pending' k e below missing
                  (λ j a b. others j a (omega (arith, b))) h same in
              (rw (await_evidence, missing) got, rw (await_evidence, missing) gone))
      ]

  -- `Comes group pending p e`: in the pass `p`, `e` is the evidence of the group that the alert meets:
  -- what comes in the first tick; or else what the pass has taken just before; or else what was
  -- pending; or else what comes first in a later tick.
  pub data Comes (group : Option String) (pending : Pending ev items_of) (p : Pass ev items_of)
      (e : EvidenceCaptureEvent ev) : Type 0 where
    in_first_tick : p.arrivals 19 ≡ some e → e.group_id ≡ group → Comes group pending p e
    just_before :
        IsElsewhere group (p.arrivals 19)
        → p.evidence ≡ some e
        → e.group_id ≡ group
        → Comes group pending p e
    was_pending :
        IsElsewhere group (p.arrivals 19)
        → IsElsewhere group p.evidence
        → get group pending ≡ some e
        → Comes group pending p e
    in_later_tick :
        (tick : ℕ)
        → get group pending ≡ none
        → IsElsewhere group p.evidence
        → tick < 20
        → p.arrivals tick ≡ some e
        → e.group_id ≡ group
        → ((j : ℕ) → tick < j → j < 20 → IsElsewhere group (p.arrivals j))
        → Comes group pending p e

  await_evidence-at_hand :
      (n : ℕ) (arrivals : ℕ → Option (EvidenceCaptureEvent ev)) (group : Option String)
      (pending : Pending ev items_of) (e : EvidenceCaptureEvent ev)
      → get group (drain_evidence ev items_of (arrivals n) pending) ≡ some e
      → ((await_evidence ev items_of (suc n) arrivals group pending).0 ≡ some e)
        × (get group (await_evidence ev items_of (suc n) arrivals group pending).1 ≡ none)
  unfolding await_evidence
  await_evidence-at_hand n arrivals group pending e here =
      (rw (await_evidence, here) refl, rw (await_evidence, here) (get-pop_self group _))

  await_evidence-Comes :
      (group : Option String) (pending : Pending ev items_of) (p : Pass ev items_of)
      (e : EvidenceCaptureEvent ev)
      → Comes group pending p e
      → ((await_evidence ev items_of 20 p.arrivals group
            (drain_evidence ev items_of p.evidence pending)).0
          ≡ some e)
        × (get group
              (await_evidence ev items_of 20 p.arrivals group
                (drain_evidence ev items_of p.evidence pending)).1
            ≡ none)
  await_evidence-Comes group pending p e (in_first_tick comes same) =
      await_evidence-at_hand 19 p.arrivals group _ e
        (get-drain_evidence (p.arrivals 19) e group _ comes same)
  await_evidence-Comes group pending p e (just_before first comes same) =
      await_evidence-at_hand 19 p.arrivals group _ e (
        get-drain_evidence_other (p.arrivals 19) group _ first
        ∙ get-drain_evidence p.evidence e group pending comes same)
  await_evidence-Comes group pending p e (was_pending first before kept) =
      await_evidence-at_hand 19 p.arrivals group _ e (
        get-drain_evidence_other (p.arrivals 19) group _ first
        ∙ get-drain_evidence_other p.evidence group pending before
        ∙ kept)
  await_evidence-Comes group pending p e (in_later_tick tick empty before l comes same others) =
      await_evidence-arrives 20 p.arrivals group _ tick e l
        (get-drain_evidence_other p.evidence group pending before ∙ empty) others comes same

  drain_alert-pairs :
      (p : Pass ev items_of) (w : Worker ev items_of) (alert : ComplianceEvent) (group : String)
      (e : EvidenceCaptureEvent ev) (k : ℕ)
      → alert.group_id ≡ some group
      → has_violation group w.tables.violations ≡ false
      → (await_evidence ev items_of 20 p.arrivals alert.group_id w.pending).0 ≡ some e
      → k < 3
      → (p.attempts k).raises ≡ false
      → ((j : ℕ) → k < j → j < 3 → (p.attempts j).raises ≡ true)
      → (drain_alert ev items_of (some alert) p w).tables
        ≡ add_rows (p.attempts k) group alert (some (items_of e.payload)) w.tables
  unfolding drain_alert
  drain_alert-pairs p w alert group e k g new got m good bad =
      let items = some (items_of e.payload) in
      let written = writes_rows (p.attempts k) alert items w.tables group g new good in
      let retried =
        persist_with_retry-first p.attempts alert items w.tables 3 k m
          (ap (λ (r : Bool × Tables). r.0) written)
          (λ j a b. raises_when (p.attempts j) alert items w.tables (bad j a b)) in
      ap (λ o. (persist_with_retry 3 p.attempts alert (items_of_event ev items_of o) w.tables).1)
        got
      ∙ ap (λ (r : Bool × Tables). r.1) retried
      ∙ ap (λ (r : Bool × Tables). r.1) written

  -- When a pass of the worker takes an alert of a group that has no violation yet, evidence of the
  -- group comes in the first tick, with the pass, from before it or first in a later one of the 20
  -- ticks, and one of the three attempts does not raise, then this pass writes, with the ids of the
  -- first such attempt alone, one violation, one evidence group with the items of this very evidence,
  -- one notification and three audit entries, linked by their ids, and no evidence of the group stays
  -- pending.
  pub persist_pass-pairs :
      (p : Pass ev items_of) (w : Worker ev items_of) (alert : ComplianceEvent) (group : String)
      (e : EvidenceCaptureEvent ev) (k : ℕ)
      → p.alert ≡ some alert
      → alert.group_id ≡ some group
      → has_violation group w.tables.violations ≡ false
      → Comes alert.group_id w.pending p e
      → k < 3
      → (p.attempts k).raises ≡ false
      → ((j : ℕ) → k < j → j < 3 → (p.attempts j).raises ≡ true)
      → IsWritten
          (p.attempts k)
          group
          alert
          (items_of e.payload)
          w.tables
          (persist_pass ev items_of p w).tables
        × (get alert.group_id (persist_pass ev items_of p w).pending ≡ none)
  unfolding persist_pass drain_alert
  persist_pass-pairs p w alert group e k taken g new comes m good bad =
      let w' : Worker ev items_of = record w {
        pending = drain_evidence ev items_of p.evidence w.pending;
      } in
      let (got, gone) = await_evidence-Comes alert.group_id w.pending p e comes in
      let rows = drain_alert-pairs p w' alert group e k g new got m good bad in
      (
        subst (IsWritten (p.attempts k) group alert (items_of e.payload) w.tables)
            (sym (ap (λ o. (drain_alert ev items_of o p w').tables) taken ∙ rows))
            (add_rows-IsWritten (p.attempts k) group alert (items_of e.payload) w.tables),
        ap (λ o. get alert.group_id (drain_alert ev items_of o p w').pending) taken ∙ gone,
      )
