-- ===== src/Engine/Groups.antt =====
-- The evidence buffers and the persons' groups, from frame to frame.
use boars_head_compliance_de.Prelude.{ℕ, String, ◌≡◌, sym, ◌∙◌, subst, Bool, some, arith}
use boars_head_compliance_de.Float.{Micros}
use boars_head_compliance_de.Detection.{DetectionEvent}
use boars_head_compliance_de.Observation.{Observation}
use boars_head_compliance_de.StateMachine.{transition}
use boars_head_compliance_de.Temporal.{PersonState, TemporalMetrics, update_and_analyze}
use boars_head_compliance_de.Evidence.{EvidenceLib}
use boars_head_compliance_de.Handwash.{
  HandwashRuleConfig, BufferKey, buffer_key_eq, Evaluator, violation, live_buffer, key_of,
  has_active_session, evaluate,
}
use boars_head_compliance_de.Handwash.Groups.{IsLinked, IsPending, live_group, evaluate-Kept}
use boars_head_compliance_de.Handwash.Evidence.{evaluate-evidence}
use boars_head_compliance_de.Engine.{published_group, prepare, advance, frame_of}

abbrev pub person_key : DetectionEvent → ℕ → BufferKey
person_key event pid = record {
  camera_id = event.camera_id;
  zone_id = event.zone_id;
  person_id = pid;
}

module _ (ev : EvidenceLib) (uuid : ℕ → String) (config : HandwashRuleConfig) (max_gap : Micros)
    (raises : ℕ → Bool) where
  -- The stored state of person `pid` and the evaluator agree on the person's evidence.
  pub record Agree (event : DetectionEvent) (pid : ℕ) (e : Evaluator ev uuid config)
      (s : PersonState) : Type 0 where
    pub own : s.person_id ≡ pid
    pub linked : IsLinked ev uuid config e (person_key event pid) s
    pub pending : IsPending ev uuid config e (person_key event pid) s

  module _ (event : DetectionEvent) (obs : Observation) (e : Evaluator ev uuid config)
      (s : PersonState) (agree : Agree event obs.person_id e s) where
    abbrev prepared : PersonState × TemporalMetrics
    prepared = prepare ev uuid config max_gap raises event obs e s

    prepare_own : (prepare ev uuid config max_gap raises event obs e s).0.person_id ≡ obs.person_id
    unfolding prepare update_and_analyze transition
    prepare_own = ground arith

    prepare-IsLinked :
        IsLinked ev uuid config e
          (person_key event obs.person_id)
          (prepare ev uuid config max_gap raises event obs e s).0
    unfolding prepare update_and_analyze transition has_active_session live_group
    prepare-IsLinked = ground arith

    evaluate_own :
        (s' : PersonState) (m : TemporalMetrics)
        → (evaluate ev uuid config e s' m
            (frame_of ev uuid config max_gap raises event obs)).result.person_state.person_id
          ≡ s'.person_id
    unfolding evaluate
    evaluate_own s' m = ground arith

    IsLinked-there :
        IsLinked ev uuid config e
          (key_of ev uuid config (frame_of ev uuid config max_gap raises event obs) prepared.0)
          prepared.0
    IsLinked-there =
        subst (λ pid. IsLinked ev uuid config e (person_key event pid) prepared.0) (sym prepare_own)
          prepare-IsLinked

    -- Every frame keeps the agreement.
    pub advance-Agree :
        Agree event obs.person_id
          (advance ev uuid config max_gap raises event obs e s).evaluator
          (advance ev uuid config max_gap raises event obs e s).result.person_state
    unfolding advance
    advance-Agree =
        let f = frame_of ev uuid config max_gap raises event obs in
        let kept = evaluate-Kept ev uuid config f prepared.1 prepared.0 e IsLinked-there in
        let v = evaluate ev uuid config e prepared.0 prepared.1 f in
        record {
          own = evaluate_own prepared.0 prepared.1 ∙ prepare_own;
          linked =
              subst
                (λ pid.
                  IsLinked ev uuid config v.evaluator (person_key event pid) v.result.person_state)
                prepare_own kept.0;
          pending =
              subst
                (λ pid.
                  IsPending ev uuid config v.evaluator (person_key event pid) v.result.person_state)
                prepare_own kept.1;
        }

    -- The evidence of a violation is the person's live buffer, frozen, and it belongs to the group
    -- under which the alert is published.
    pub advance-evidence :
        (p : ev.Payload)
        → (advance ev uuid config max_gap raises event obs e s).result.evidence ≡ some p
        → (buf : ev.Buffer) × (live_buffer ev uuid config e (person_key event obs.person_id)
            ≡ some buf)
          × ((ev.freeze buf).0 ≡ p)
          × ((advance ev uuid config max_gap raises event obs e s).result.outcome ≡ some violation)
          × (published_group ev uuid config max_gap raises
                (advance ev uuid config max_gap raises event obs e s).result.person_state
              ≡ some (ev.payload_group p))
    unfolding advance
    advance-evidence p h =
        let f = frame_of ev uuid config max_gap raises event obs in
        let found = evaluate-evidence ev uuid config e prepared.0 prepared.1 f IsLinked-there p h in
        (
          found.0,
          subst (λ pid. live_buffer ev uuid config e (person_key event pid) ≡ some found.0)
              prepare_own found.1,
          found.2,
          found.3,
          rw found.4 found.5,
        )
