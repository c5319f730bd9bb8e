-- ===== src/Examples/Rule.antt =====
-- The rule on a person whose cooldown has run out.
use boars_head_compliance_de.Prelude.{◌≡◌, refl, ◌≢◌, ◌↔◌, ◌<◌, some, none, [], ◌∷◌, arith, true}
use boars_head_compliance_de.Prelude.Int.{pos}
use boars_head_compliance_de.Float.{seconds, zero_float}
use boars_head_compliance_de.StateMachine.{not_near_sink, not_washed}
use boars_head_compliance_de.Temporal.{PersonState, TemporalMetrics}
use boars_head_compliance_de.ActionLog.{Verdict}
use boars_head_compliance_de.Evidence.{list_evidence}
use boars_head_compliance_de.Handwash.{Frame, violation, evaluate}
use boars_head_compliance_de.Handwash.Outcomes.{
  IsOver, cooled, verdicts, earned, evaluate-violation_iff, evaluate-verdict_iff, evaluate-closes,
}
use boars_head_compliance_de.Examples.{person, uuid, shipped, idle}

abbrev gone : PersonState
gone = record (person not_near_sink (seconds 1)) { pending_exit_at = some (seconds 1) }

abbrev short_wash : TemporalMetrics
short_wash = record {
  at_sink_duration = seconds 1;
  washing_duration = seconds 3;
  sequence_valid = true;
  continuity_valid = true;
  observation_count = 3;
  current_state = not_near_sink;
  last_gap_seconds = pos 0;
  positive_frames = 0;
  no_detection_frames = 0;
  hand_movement_score = zero_float;
}

abbrev frame : Frame
frame = record {
  camera_id = "cam";
  zone_id = "zone";
  timestamp = seconds 12;
  thumbnail = none;
  frame_id = 400;
  source_fps = 25000;
  detections = [];
  frame_shape = (0, 0);
}

evaluate-violation_iff_example :
    ((evaluate list_evidence uuid shipped idle gone short_wash frame).result.outcome
      ≡ some violation)
    ↔ (IsOver (seconds 10) gone short_wash (seconds 12) × (seconds 3 < seconds 20))
evaluate-violation_iff_example =
    evaluate-violation_iff list_evidence uuid shipped idle gone short_wash frame

evaluate-verdict_iff_example :
    (verdicts (evaluate list_evidence uuid shipped idle gone short_wash frame).log
      ≡ Verdict.violated ∷ [])
    ↔ (IsOver (seconds 10) gone short_wash (seconds 12)
        × (Verdict.violated ≡ earned (seconds 20) (seconds 3)))
evaluate-verdict_iff_example =
    evaluate-verdict_iff list_evidence uuid shipped idle gone short_wash frame Verdict.violated

evaluate-closes_example :
    let r = (evaluate list_evidence uuid shipped idle gone short_wash frame).result.person_state in
    (r.current_state ≡ not_washed)
    × (r.washing_seconds ≡ 0)
    × (r.at_sink_seconds ≡ 0)
    × (r.violation_confirmed ≡ true)
    × (gone.group_id ≢ none → r.pending_exit_at ≡ none)
evaluate-closes_example =
    evaluate-closes list_evidence uuid shipped idle gone short_wash frame
      (cooled refl refl refl refl (omega arith))
