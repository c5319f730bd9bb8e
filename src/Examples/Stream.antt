-- ===== src/Examples/Stream.antt =====
-- The persons of a zone, and the end of its stream.
use boars_head_compliance_de.Prelude.{◌≡◌, refl, true, false, none, some, [], ◌∷◌, arith, inl}
use boars_head_compliance_de.Prelude.Int.{pos}
use boars_head_compliance_de.Prelude.Dict.{get, nat_eq}
use boars_head_compliance_de.Float.{seconds}
use boars_head_compliance_de.StateMachine.{near_sink_not_washing, is_terminal}
use boars_head_compliance_de.Temporal.{PersonState}
use boars_head_compliance_de.Absence.{absence_observation}
use boars_head_compliance_de.Evidence.{list_evidence}
use boars_head_compliance_de.Handwash.Outcomes.{verdicts}
use boars_head_compliance_de.Engine.{Run, process_persons, advance}
use boars_head_compliance_de.Engine.Cooldown.{IsVisiting}
use boars_head_compliance_de.Engine.Isolation.{process_persons-other}
use boars_head_compliance_de.Pipeline.{flush_event}
use boars_head_compliance_de.Pipeline.Flush.{absence-no_verdict, flush-keeps_visit}
use boars_head_compliance_de.Examples.{person, observed, event_at, uuid, shipped, never, idle}

abbrev guest : PersonState
guest = person near_sink_not_washing (seconds 1)

abbrev two_persons : Run list_evidence uuid shipped (seconds 5) never
two_persons = record {
  persons = (7, guest) ∷ (8, guest) ∷ [];
  evaluator = idle;
  published = [];
  publish_calls = 0;
  violations = 0;
  evidence_publish_failures = 0;
  log = [];
}

process_persons-other_example :
    get 8
      (process_persons list_evidence uuid shipped
        (seconds 5)
        never
        (event_at (seconds 2))
        (7 ∷ [])
        (observed true true (seconds 2) ∷ [])
        two_persons).persons
    ≡ get 8 two_persons.persons
process_persons-other_example =
    process_persons-other list_evidence uuid shipped (seconds 5) never (event_at (seconds 2))
      (7 ∷ []) 8 (observed true true (seconds 2) ∷ []) two_persons (omega arith, tt)

guest-IsVisiting : IsVisiting guest
guest-IsVisiting = record {
  at_sink = inl refl;
  grouped = ground arith;
  not_pending = refl;
  undecided = refl;
}

absence-no_verdict_example :
    let v =
      advance list_evidence uuid shipped
        (seconds 5)
        never
        (event_at (seconds 9))
        (absence_observation (event_at (seconds 9)) 7 guest)
        idle
        guest in
    (v.result.outcome ≡ none)
    × (verdicts v.log ≡ [])
    × (is_terminal v.result.person_state.current_state ≡ false)
absence-no_verdict_example =
    absence-no_verdict list_evidence uuid shipped (seconds 5) never idle (event_at (seconds 9)) 7
      guest guest-IsVisiting

flush-keeps_visit_example :
    let event = flush_event "cam" "zone" 25000 (seconds 9) (pos 99) in
    let v =
      advance list_evidence uuid shipped
        (seconds 5)
        never
        event
        (absence_observation event 7 guest)
        idle
        guest in
    (v.result.outcome ≡ none)
    × (verdicts v.log ≡ [])
    × (v.result.person_state.current_state ≡ near_sink_not_washing)
    × (v.result.person_state.group_id ≡ some "group")
flush-keeps_visit_example =
    flush-keeps_visit list_evidence uuid shipped (seconds 5) never idle "cam" "zone" 25000
      (seconds 9) 99 7 guest refl (omega arith) guest-IsVisiting
