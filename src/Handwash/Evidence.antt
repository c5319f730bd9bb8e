-- ===== src/Handwash/Evidence.antt =====
-- The evidence that a violation carries.
use boars_head_compliance_de.Prelude.{ℕ, String, ◌≡◌, true, some, arith, Option-cases, inl, inr}
use boars_head_compliance_de.Prelude.Dict.{get}
use boars_head_compliance_de.Temporal.{PersonState, TemporalMetrics}
use boars_head_compliance_de.Evidence.{EvidenceLib}
use boars_head_compliance_de.Handwash.{
  HandwashRuleConfig, buffer_key_eq, Evaluator, Frame, violation, live_buffer, key_of, evaluate,
}
use boars_head_compliance_de.Handwash.Groups.{IsLinked, live_group}

module _ (ev : EvidenceLib) (uuid : ℕ → String) (config : HandwashRuleConfig)
    (e : Evaluator ev uuid config) (s : PersonState) (m : TemporalMetrics) (f : Frame)
    (linked : IsLinked ev uuid config e (key_of ev uuid config f s) s) where
  -- Evidence comes only with a violation; it is the frozen live buffer of the person, and its
  -- group is the one that the alert is published under.
  pub evaluate-evidence :
      (p : ev.Payload)
      → (evaluate ev uuid config e s m f).result.evidence ≡ some p
      → (buf : ev.Buffer) × (live_buffer ev uuid config e (key_of ev uuid config f s) ≡ some buf)
        × ((ev.freeze buf).0 ≡ p)
        × ((evaluate ev uuid config e s m f).result.outcome ≡ some violation)
        × ((evaluate ev uuid config e s m f).result.person_state.has_group_key ≡ true)
        × ((evaluate ev uuid config e s m f).result.person_state.group_id
            ≡ some (ev.payload_group p))
  unfolding evaluate live_group
  evaluate-evidence p h = elim (Option-cases (get (key_of ev uuid config f s) e.buffers)) [
    | inl a ↦ absurd (ground (arith, a))
    | inr (buf, a) ↦ (
      buf,
      ground (arith, a),
      ground (arith, a),
      ground (arith, a),
      ground (arith, a),
      ground (arith, a, ev.freeze_group buf),
    )
  ]
