-- ===== src/Pipeline/Flush.antt =====
-- The end of a stream.
use boars_head_compliance_de.Prelude.{ℕ, ◌≤◌, String, ◌≡◌, Bool, false, none, arith, []}
use boars_head_compliance_de.Prelude.Int.{pos}
use boars_head_compliance_de.Float.{Micros, Fps}
use boars_head_compliance_de.Detection.{DetectionEvent}
use boars_head_compliance_de.StateMachine.{near_sink_not_washing, transition, is_terminal}
use boars_head_compliance_de.Temporal.{PersonState, update_and_analyze}
use boars_head_compliance_de.Absence.{absence_observation}
use boars_head_compliance_de.Evidence.{EvidenceLib}
use boars_head_compliance_de.Handwash.{HandwashRuleConfig, Evaluator, evaluate}
use boars_head_compliance_de.Handwash.Outcomes.{verdicts}
use boars_head_compliance_de.Engine.{advance}
use boars_head_compliance_de.Engine.Cooldown.{IsVisiting}
use boars_head_compliance_de.Pipeline.{flush_event}

module _ (ev : EvidenceLib) (uuid : ℕ → String) (config : HandwashRuleConfig) (max_gap : Micros)
    (raises : ℕ → Bool) (e : Evaluator ev uuid config) (event : DetectionEvent) (pid : ℕ)
    (s : PersonState) where
  -- One frame that a person is absent from gives no verdict and no violation for a visit that has a
  -- group, no violation yet and no open cooldown, and does not end in a terminal state.
  pub absence-no_verdict :
      IsVisiting s
      → let v = advance ev uuid config max_gap raises event (absence_observation event pid s) e s in
        (v.result.outcome ≡ none)
        × (verdicts v.log ≡ [])
        × (is_terminal v.result.person_state.current_state ≡ false)
  unfolding absence_observation advance update_and_analyze evaluate transition
  absence-no_verdict v = ground arith

module _ (ev : EvidenceLib) (uuid : ℕ → String) (config : HandwashRuleConfig) (max_gap : Micros)
    (raises : ℕ → Bool) (e : Evaluator ev uuid config) (camera_id zone_id : String) (fps : Fps)
    (now : Micros) (k : ℕ) (pid : ℕ) (s : PersonState) (last : s.last_frame_id ≡ pos k) where
  -- At six frames per second or more, the frame that a flush makes up for a zone keeps a person in
  -- a visit that has a group, no violation and no open cooldown, and who was seen last in the
  -- zone's newest frame, at the sink without washing, with the same group and without a verdict or
  -- a violation.
  pub flush-keeps_visit :
      6000 ≤ fps
      → IsVisiting s
      → let event = flush_event camera_id zone_id fps now (pos k) in
        let v = advance ev uuid config max_gap raises event (absence_observation event pid s) e s in
        (v.result.outcome ≡ none)
        × (verdicts v.log ≡ [])
        × (v.result.person_state.current_state ≡ near_sink_not_washing)
        × (v.result.person_state.group_id ≡ s.group_id)
  unfolding flush_event absence_observation advance update_and_analyze evaluate transition
  flush-keeps_visit fast v = ground arith
