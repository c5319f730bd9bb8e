-- ===== src/Examples/Durations.antt =====
-- The durations of a person who washes for two seconds.
use boars_head_compliance_de.Prelude.{◌≡◌, ◌+◌, true, false, none, [], ◌∷◌, arith}
use boars_head_compliance_de.Float.{seconds}
use boars_head_compliance_de.StateMachine.{near_sink_not_washing, washing}
use boars_head_compliance_de.TemporalAnalyzer.{
  TemporalAnalyzer, observe, observe_all, violating, observe-confirms,
}
use boars_head_compliance_de.Temporal.Durations.{
  analyze, time_in, washing_so_far, at_sink_so_far, durations-time_in,
}
use boars_head_compliance_de.Examples.{person, observed}

durations-time_in_example :
    let s = person near_sink_not_washing (seconds 1) in
    let a = observed true true (seconds 2) in
    let b = observed true true (seconds 4) in
    ((analyze (seconds 5) s a (b ∷ [])).1.washing_duration
      ≡ washing_so_far s + time_in washing s.current_state s.last_seen_at (a ∷ b ∷ []))
    × ((analyze (seconds 5) s a (b ∷ [])).1.at_sink_duration
        ≡ at_sink_so_far s
          + time_in near_sink_not_washing s.current_state s.last_seen_at (a ∷ b ∷ []))
durations-time_in_example =
    durations-time_in (seconds 5) (person near_sink_not_washing (seconds 1))
      (observed true true (seconds 2)) (observed true true (seconds 4) ∷ []) (omega arith)
      (omega arith)

abbrev older : TemporalAnalyzer
older = record {
  min_seconds = seconds 2;
  debounce_frames = 3;
  violation_start = none;
  debounce_count = 0;
}

observe-confirms_example :
    (observe (seconds 5) true (
      observe_all
        ((seconds 1, true) ∷ (seconds 2, false) ∷ (seconds 3, true) ∷ violating (seconds 4 ∷ []))
        older)).0
    ≡ true
observe-confirms_example =
    observe-confirms ((seconds 1, true) ∷ []) (seconds 2) (seconds 3) (seconds 4 ∷ []) (seconds 5)
      older
