-- ===== src/Examples/Visits.antt =====
-- A visit of two frames at the sink and a departure.
use boars_head_compliance_de.Prelude.{◌≡◌, refl, ◌+◌, ◌≤◌, some, [], ◌∷◌, arith, false, inr, List}
use boars_head_compliance_de.Float.{seconds}
use boars_head_compliance_de.StateMachine.{
  not_near_sink, near_sink_not_washing, not_washed, transition,
}
use boars_head_compliance_de.Temporal.{PersonState, update_and_analyze}
use boars_head_compliance_de.Evidence.{list_evidence, ListBuffer}
use boars_head_compliance_de.Handwash.{violation, live_buffer, Evaluator, Evaluation, evaluate}
use boars_head_compliance_de.Prelude.Dict.{get}
use boars_head_compliance_de.Handwash.Groups.{live_group}
use boars_head_compliance_de.Engine.{advance, published_group}
use boars_head_compliance_de.Engine.Visits.{
  Shot, after, violations_of, entries_of, violations-le-entries,
}
use boars_head_compliance_de.Engine.Cooldown.{state_after, verdict_on_time}
use boars_head_compliance_de.Engine.Groups.{Agree, person_key, advance-Agree, advance-evidence}
use boars_head_compliance_de.Examples.{person, observed, event_at, uuid, shipped, never, shot}

abbrev visitor : PersonState
visitor = person near_sink_not_washing (seconds 1)

abbrev departure : List (Shot list_evidence uuid shipped (seconds 5) never)
departure = shot (observed false false (seconds 2)) ∷ shot (observed false false (seconds 5)) ∷ []

violations-le-entries_example :
    violations_of list_evidence uuid shipped (seconds 5) never visitor departure
    ≤ entries_of list_evidence uuid shipped (seconds 5) never visitor departure + 1
violations-le-entries_example =
    violations-le-entries list_evidence uuid shipped (seconds 5) never visitor departure refl

verdict_on_time_example :
    let end =
      after list_evidence uuid shipped
        (seconds 5)
        never
        (shot (observed false false (seconds 12)))
        (state_after list_evidence uuid shipped (seconds 5) never visitor departure) in
    (violations_of list_evidence uuid shipped (seconds 5) never visitor departure ≡ 0)
    × (end.result.person_state.current_state ≡ not_washed)
    × (end.result.outcome ≡ some violation)
verdict_on_time_example =
    verdict_on_time list_evidence uuid shipped (seconds 5) never visitor
      (shot (observed false false (seconds 2))) (shot (observed false false (seconds 12)))
      (shot (observed false false (seconds 5)) ∷ []) (ground arith) (ground arith) (ground arith)
      (ground arith) (omega arith)

-- an evaluator that holds an empty buffer of the visitor's group
abbrev buffer : ListBuffer
buffer = record { group = "group"; items = []; closed = false }

abbrev holding : Evaluator list_evidence uuid shipped
holding = record { buffers = (person_key (event_at 0) 7, buffer) ∷ []; uuids = 1 }

abbrev left : PersonState
left = record visitor { current_state = not_near_sink; pending_exit_at = some (seconds 2) }

left-Agree :
    Agree list_evidence uuid shipped (seconds 5) never (event_at (seconds 12)) 7 holding left
unfolding live_group get
left-Agree = record {
  own = refl;
  linked = (refl, inr (refl, refl, refl, refl));
  pending = inr refl;
}

-- the frame that ends the visit of `left`
abbrev ending : Evaluation list_evidence uuid shipped
ending =
    advance list_evidence uuid shipped (seconds 5) never (event_at (seconds 12))
      (observed false false (seconds 12)) holding left

advance-Agree_example :
    Agree list_evidence uuid shipped
      (seconds 5)
      never
      (event_at (seconds 12))
      7
      ending.evaluator
      ending.result.person_state
advance-Agree_example =
    advance-Agree list_evidence uuid shipped (seconds 5) never (event_at (seconds 12))
      (observed false false (seconds 12)) holding left left-Agree

ending-evidence : ending.result.evidence ≡ some ("group", [])
unfolding advance evaluate update_and_analyze transition get
ending-evidence = refl

advance-evidence_example :
    (buf : ListBuffer) × (live_buffer list_evidence uuid shipped holding
        (person_key (event_at (seconds 12)) 7)
      ≡ some buf)
    × ((list_evidence.freeze buf).0 ≡ ("group", []))
    × (ending.result.outcome ≡ some violation)
    × (published_group list_evidence uuid shipped (seconds 5) never ending.result.person_state
        ≡ some "group")
advance-evidence_example =
    advance-evidence list_evidence uuid shipped (seconds 5) never (event_at (seconds 12))
      (observed false false (seconds 12)) holding left left-Agree ("group", []) ending-evidence
