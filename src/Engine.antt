-- ===== src/Engine.antt =====
-- backend/app/compliance/engine.py: the per-frame pipeline over the persons of a zone.
-- The evidence package, `uuid4` and the queue are parameters: `raises n` says whether the n-th
-- call of `publish` raises. The dict of persons is keyed by the person's number, not its text.
pub mod Visits
pub mod Cooldown
pub mod Groups
pub mod Isolation
use boars_head_compliance_de.Prelude.{
  ℕ, ◌+◌, String, Bool, true, false, not, ◌&&◌, ◌||◌, Option, none, some, List, [], ◌∷◌, ◌++◌, map,
  max, ltb, leb, ◌==◌, if◌then◌else◌, is_some,
}
use Prim.Native.String.{◌++◌ as append_text}
use boars_head_compliance_de.Prelude.Int.{ℤ, pos, pos_part, ◌-ℤ◌, ltb_ℤ}
use boars_head_compliance_de.Prelude.Dict.{Dict, nat_eq, string_eq, get, put}
use boars_head_compliance_de.Float.{Micros, Fps, zero_float, seconds, lasts_at_most}
use boars_head_compliance_de.Detection.{DetectionEvent}
use boars_head_compliance_de.Observation.{Observation}
use boars_head_compliance_de.StateMachine.{
  HandwashState, not_near_sink, near_sink_not_washing, washing, washed, not_washed, is_terminal,
  same_state, Reason, StateTransitionResult, transition,
}
use boars_head_compliance_de.Temporal.{
  PersonState, TemporalMetrics, initial_person_state, update_and_analyze,
}
use boars_head_compliance_de.Absence.{Persons, elem, absences}
use boars_head_compliance_de.ActionLog
use boars_head_compliance_de.ActionLog.{Action, LogLine, write_action_log}
use boars_head_compliance_de.Evidence.{EvidenceLib}
use boars_head_compliance_de.Events.{
  ComplianceEvent, EvidenceCaptureEvent, Message, evidence_capture, compliance_alert,
}
use boars_head_compliance_de.Handwash.{
  HandwashRuleConfig, Evaluator, Evaluation, Frame, violation, evaluate, has_active_session,
}

-- make_state_key of infrastructure/state_store/base.py
abbrev pub make_state_key : String → String → String
make_state_key camera_id zone_id = append_text camera_id (append_text ":" zone_id)

-- transition.reason in ("new_visit_after_terminal", "entered_sink_area")
abbrev pub begins_visit : Reason → Bool
begins_visit Reason.new_visit_after_terminal = true
begins_visit Reason.entered_sink_area = true
begins_visit _ = false

-- `_ACTION_NAMES`
abbrev action_name : Reason → Action
action_name Reason.entered_sink_area = ActionLog.entered_sink_area
action_name Reason.washing_confirmed = ActionLog.washing_started
action_name Reason.washing_stopped = ActionLog.near_sink_not_washing
action_name Reason.new_visit_after_terminal = ActionLog.entered_sink_area
action_name r = ActionLog.reason r

abbrev is_left : Reason → Bool
is_left Reason.left_sink_area = true
is_left _ = false

-- the line for a transition; the rule evaluator owns that of `left_sink_area`
unfoldable pub transition_log : DetectionEvent → ℕ → StateTransitionResult → List LogLine
transition_log event pid t =
    if t.transitioned && not (is_left t.reason)
    then write_action_log pid (action_name t.reason) event.frame_id event.source_fps t.new_state
      ∷ []
    else []

module _ (ev : EvidenceLib) (uuid : ℕ → String) (config : HandwashRuleConfig) (max_gap : Micros)
    (raises : ℕ → Bool) where
  -- what the loop over the persons changes
  pub record Run : Type 0 where
    pub persons : Persons
    pub evaluator : Evaluator ev uuid config
    pub published : List (Message ev)
    pub publish_calls : ℕ
    pub violations : ℕ
    pub evidence_publish_failures : ℕ
    pub log : List LogLine

  -- self._mq.publish(...): the message is queued, or the call raises
  abbrev publish : Message ev → Run → Run
  publish message r = record r {
    published = if raises r.publish_calls then r.published else r.published ++ message ∷ [];
    publish_calls = r.publish_calls + 1;
  }

  -- the first part of `_publish_violation`, and its `except`
  abbrev publish_evidence : Option (EvidenceCaptureEvent ev) → Run → Run
  publish_evidence none r = r
  publish_evidence (some event) r = record (publish (evidence_capture event) r) {
    evidence_publish_failures =
        if raises r.publish_calls
        then r.evidence_publish_failures + 1
        else r.evidence_publish_failures;
  }

  -- `_publish_violation`: the evidence, then the alert
  unfoldable pub publish_violation :
      String → String → ℕ → Micros → Option String → Option (ev.Payload) → Run → Run
  publish_violation camera_id zone_id person_id timestamp group_id evidence r =
      publish
        (compliance_alert (record {
          camera_id = camera_id;
          zone_id = zone_id;
          person_id = person_id;
          timestamp = timestamp;
          outcome = "violation";
          rule_name = "handwash_compliance";
          group_id = group_id;
        }))
        (publish_evidence
          (elim evidence [
            | none ↦ none
            | some payload ↦ some (record {
              group_id = group_id;
              camera_id = camera_id;
              zone_id = zone_id;
              payload = payload;
              timestamp = timestamp;
            })
          ])
          r)

  -- the state of the observed person, with `last_frame_id` where the person is seen
  unfoldable pub load_person : DetectionEvent → List ℕ → Observation → Persons → PersonState
  unfolding elem
  load_person event current obs persons =
      let s : PersonState = elim (get obs.person_id persons) [
        | none ↦ initial_person_state obs.person_id event.captured_at
        | some s ↦ s
      ] in
      if elem obs.person_id current then record s { last_frame_id = pos event.frame_id } else s

  -- `is_session_continuation`
  unfoldable pub is_continuation :
      Evaluator ev uuid config → DetectionEvent → ℕ → PersonState → Bool
  is_continuation e event pid s =
      is_some s.pending_exit_at
      && has_active_session ev uuid config e event.camera_id event.zone_id pid

  -- a new visit starts from the initial state, unless it continues the session
  unfoldable pub restart_visit :
      Evaluator ev uuid config → DetectionEvent → ℕ → Reason → PersonState → PersonState
  unfolding is_continuation initial_person_state
  restart_visit e event pid reason s =
      if begins_visit reason && not (is_continuation e event pid s)
      then record (initial_person_state pid event.captured_at) { last_frame_id = s.last_frame_id }
      else s

  abbrev pub frame_of : DetectionEvent → Observation → Frame
  frame_of event obs = record {
    camera_id = event.camera_id;
    zone_id = event.zone_id;
    timestamp = event.captured_at;
    thumbnail = if obs.is_synthetic && not obs.inside_sink_zone then none else event.thumbnail;
    frame_id = event.frame_id;
    source_fps = event.source_fps;
    detections = event.detections;
    frame_shape = event.frame_shape;
  }

  -- state machine, reset of the visit and analyzer, on the state that `load_person` gives
  unfoldable pub prepare :
      DetectionEvent
      → Observation
      → Evaluator ev uuid config
      → PersonState
      → PersonState × TemporalMetrics
  unfolding restart_visit
  prepare event obs e s =
      let t = transition s.current_state obs in
      update_and_analyze max_gap (restart_visit e event obs.person_id t.reason s) t
        obs.positive_frames obs.no_detection_frames obs.hand_movement_score

  -- the rule, on what `prepare` gives
  unfoldable pub advance :
      DetectionEvent
      → Observation
      → Evaluator ev uuid config
      → PersonState
      → Evaluation ev uuid config
  unfolding prepare
  advance event obs e s =
      let (s', m) = prepare event obs e s in evaluate ev uuid config e s' m (frame_of event obs)

  -- result.person_state.get("group_id", "unknown")
  abbrev pub published_group : PersonState → Option String
  published_group s = if s.has_group_key then s.group_id else some "unknown"

  -- the end of the loop's body, from the result of the evaluator on
  unfoldable pub record_result :
      DetectionEvent → Observation → List LogLine → Evaluation ev uuid config → Run → Run
  unfolding publish_violation
  record_result event obs lines v r =
      let s = v.result.person_state in
      let r' = record r {
        persons = put obs.person_id s r.persons;
        evaluator = v.evaluator;
        log = r.log ++ (lines ++ v.log);
      } in
      elim v.result.outcome [
        | none ↦ r'
        | some outcome ↦
            publish_violation event.camera_id event.zone_id obs.person_id event.captured_at
              (published_group s) v.result.evidence (record r' { violations = r'.violations + 1 })
      ]

  -- the body of the per-person loop
  unfoldable pub process_person : DetectionEvent → List ℕ → Observation → Run → Run
  unfolding record_result advance load_person transition_log
  process_person event current obs r =
      let s = load_person event current obs r.persons in
      record_result event obs (transition_log event obs.person_id (transition s.current_state obs))
        (advance event obs r.evaluator s) r

  unfoldable pub process_persons : DetectionEvent → List ℕ → List Observation → Run → Run
  process_persons event current [] r = r
  process_persons event current (obs ∷ rest) r =
      process_persons event current rest (process_person event current obs r)

  -- the engine between events: the zones of the store, and what outlives a call
  pub record Engine : Type 0 where
    pub store : Dict String Persons
    pub evaluator : Evaluator ev uuid config
    pub published : List (Message ev)
    pub publish_calls : ℕ
    pub violations : ℕ
    pub evidence_publish_failures : ℕ
    pub log : List LogLine
    pub state_store_gets : ℕ
    pub state_store_sets : ℕ

  abbrev pub zone_key : DetectionEvent → String
  zone_key event = make_state_key event.camera_id event.zone_id

  -- self._store.get(zone_key) or {"persons": {}}
  abbrev pub zone_persons : Engine → String → Persons
  zone_persons g key = elim (get key g.store) [ none ↦ [] | some persons ↦ persons ]

  -- `_process`, from the observations of the builder on
  unfoldable pub process_observations : DetectionEvent → List Observation → Engine → Engine
  unfolding process_persons absences
  process_observations event built g =
      let persons = zone_persons g (zone_key event) in
      let current = map (λ (o : Observation). o.person_id) built in
      let observations = built ++ absences event current persons in
      let g' = record g { state_store_gets = g.state_store_gets + 1 } in
      elim observations [
        | [] ↦ g'
        | first ∷ rest ↦
            (let r = process_persons event current (first ∷ rest) (record {
              persons = persons;
              evaluator = g.evaluator;
              published = g.published;
              publish_calls = g.publish_calls;
              violations = g.violations;
              evidence_publish_failures = g.evidence_publish_failures;
              log = g.log;
            }) in
              record g' {
                store = put (zone_key event) r.persons g.store;
                evaluator = r.evaluator;
                published = r.published;
                publish_calls = r.publish_calls;
                violations = r.violations;
                evidence_publish_failures = r.evidence_publish_failures;
                log = r.log;
                state_store_sets = g.state_store_sets + 1;
              })
      ]
