-- ===== src/Handwash/Outcomes.antt =====
-- When the handwash rule gives a verdict, and which.
use boars_head_compliance_de.Prelude.{
  ℕ, ◌+◌, ◌≤◌, ◌<◌, String, ◌≡◌, ◌↔◌, false, none, some, arith, Option-cases, inl, inr, List, [],
  ◌∷◌, leb, if◌then◌else◌, not, ◌≢◌, ◌∙◌,
}
use boars_head_compliance_de.Float.{Micros}
use boars_head_compliance_de.StateMachine.{HandwashState, not_near_sink, washed, not_washed}
use boars_head_compliance_de.Temporal.{PersonState, TemporalMetrics}
use boars_head_compliance_de.ActionLog
use boars_head_compliance_de.ActionLog.{Verdict, LogLine}
use boars_head_compliance_de.Evidence.{EvidenceLib}
use boars_head_compliance_de.Handwash.{HandwashRuleConfig, Evaluator, Frame, violation, evaluate}

-- The visit has come to its end: the person is away from the sink and no violation stands; either
-- no group was opened and some time was spent at the sink, or the group's cooldown has run out.
pub data IsOver (cooldown : Micros) (s : PersonState) (m : TemporalMetrics) (now : Micros)
    : Type 0 where
  brief :
      s.current_state ≡ not_near_sink
      → s.violation_confirmed ≡ false
      → s.group_id ≡ none
      → 0 < m.washing_duration + m.at_sink_duration
      → IsOver cooldown s m now
  cooled :
      {g : String} {since : Micros}
      → s.current_state ≡ not_near_sink
      → s.violation_confirmed ≡ false
      → s.group_id ≡ some g
      → s.pending_exit_at ≡ some since
      → since + cooldown ≤ now
      → IsOver cooldown s m now

-- The verdicts of the PROCESS COMPLETE lines.
abbrev pub verdicts : List LogLine → List Verdict
verdicts [] = []
verdicts (l ∷ log) = elim l.result [
  | none ↦ verdicts log
  | some v ↦ elim l.action [ ActionLog.process_complete ↦ v ∷ verdicts log | _ ↦ verdicts log ]
]

-- What a visit earns by its washing time.
abbrev pub earned : Micros → Micros → Verdict
earned minimum washing_time =
    if leb minimum washing_time then Verdict.compliant else Verdict.violated

abbrev pub final_state : Verdict → HandwashState
final_state Verdict.compliant = washed
final_state Verdict.violated = not_washed

module _ (ev : EvidenceLib) (uuid : ℕ → String) (config : HandwashRuleConfig)
    (e : Evaluator ev uuid config) (s : PersonState) (m : TemporalMetrics) (f : Frame) where
  violation-of_IsOver :
      IsOver config.session_cooldown_seconds s m f.timestamp
      → m.washing_duration < config.minimum_washing_duration_seconds
      → (evaluate ev uuid config e s m f).result.outcome ≡ some violation
  unfolding evaluate
  violation-of_IsOver (brief a b c d) short = ground arith
  violation-of_IsOver (cooled a b c d k) short = ground arith

  IsOver-of_violation :
      (evaluate ev uuid config e s m f).result.outcome ≡ some violation
      → IsOver config.session_cooldown_seconds s m f.timestamp
        × (m.washing_duration < config.minimum_washing_duration_seconds)
  unfolding evaluate
  IsOver-of_violation h = elim (Option-cases s.group_id) [
    | inl a ↦ (brief (ground arith) (ground arith) a (ground arith), ground arith)
    | inr (g, b) ↦ elim (Option-cases s.pending_exit_at) [
      | inl c ↦ absurd (ground arith)
      | inr (since, c) ↦ (cooled (ground arith) (ground arith) b c (ground arith), ground arith)
    ]
  ]

  -- A violation is reported exactly when the visit is over and the washing time is short.
  pub evaluate-violation_iff :
      ((evaluate ev uuid config e s m f).result.outcome ≡ some violation) ↔ (
        IsOver config.session_cooldown_seconds s m f.timestamp
        × (m.washing_duration < config.minimum_washing_duration_seconds))
  evaluate-violation_iff = (IsOver-of_violation, λ h. violation-of_IsOver h.0 h.1)

  abbrev verdict : Verdict
  verdict = earned config.minimum_washing_duration_seconds m.washing_duration

  abbrev NowOver : Type 0
  NowOver = IsOver config.session_cooldown_seconds s m f.timestamp

  verdict-of_IsOver : NowOver → verdicts (evaluate ev uuid config e s m f).log ≡ verdict ∷ []
  unfolding evaluate
  verdict-of_IsOver (brief a b c d) = ground arith
  verdict-of_IsOver (cooled a b c d k) = ground arith

  IsOver-of_verdict :
      (v : Verdict) → verdicts (evaluate ev uuid config e s m f).log ≡ v ∷ [] → NowOver
  unfolding evaluate
  IsOver-of_verdict v h = elim (Option-cases s.group_id) [
    | inl a ↦ brief (ground arith) (ground arith) a (ground arith)
    | inr (g, b) ↦ elim (Option-cases s.pending_exit_at) [
      | inl c ↦ absurd (ground arith)
      | inr (since, c) ↦ cooled (ground arith) (ground arith) b c (ground arith)
    ]
  ]

  -- One PROCESS COMPLETE line is written exactly when the visit is over, and its verdict is the
  -- one that the washing time earns.
  pub evaluate-verdict_iff :
      (v : Verdict)
      → (verdicts (evaluate ev uuid config e s m f).log ≡ v ∷ []) ↔ (
          IsOver config.session_cooldown_seconds s m f.timestamp
          × (v ≡ earned config.minimum_washing_duration_seconds m.washing_duration))
  evaluate-verdict_iff v = (
    λ h. (IsOver-of_verdict v h, cc (h, verdict-of_IsOver (IsOver-of_verdict v h))),
    λ h. verdict-of_IsOver h.0 ∙ rw h.1,
  )

  -- When the visit is over, the person is left in the terminal state of the verdict, with the
  -- counters of the visit at zero; a violation stays on record, and no cooldown is open for a
  -- group.
  pub evaluate-closes :
      IsOver config.session_cooldown_seconds s m f.timestamp
      → let r = (evaluate ev uuid config e s m f).result.person_state in
        (r.current_state
          ≡ final_state (earned config.minimum_washing_duration_seconds m.washing_duration))
        × (r.washing_seconds ≡ 0)
        × (r.at_sink_seconds ≡ 0)
        × (r.violation_confirmed
            ≡ not (leb config.minimum_washing_duration_seconds m.washing_duration))
        × (s.group_id ≢ none → r.pending_exit_at ≡ none)
  unfolding evaluate
  evaluate-closes (brief a b c d) = ground arith
  evaluate-closes (cooled a b c d k) = ground arith
