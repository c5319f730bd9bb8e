-- ===== src/Temporal/Durations.antt =====
-- The accumulated durations against a direct account of the time spent in each state.
use boars_head_compliance_de.Prelude.{◌+◌, ◌-◌, ◌≤◌, ◌≡◌, ◌∙◌, List, [], ◌∷◌, arith, if◌then◌else◌}
use boars_head_compliance_de.Float.{Micros}
use boars_head_compliance_de.Observation.{Observation}
use boars_head_compliance_de.StateMachine.{
  HandwashState, near_sink_not_washing, washing, same_state, transition,
}
use boars_head_compliance_de.Temporal.{PersonState, TemporalMetrics, update_and_analyze, total}

-- One frame of a person: the state machine, then the analyzer.
unfoldable pub observe : Micros → PersonState → Observation → PersonState × TemporalMetrics
observe max_gap s obs =
    update_and_analyze max_gap s (transition s.current_state obs) obs.positive_frames
      obs.no_detection_frames obs.hand_movement_score

-- The last result over the frames `obs ∷ rest`.
pub analyze : Micros → PersonState → Observation → List Observation → PersonState × TemporalMetrics
analyze max_gap s obs [] = observe max_gap s obs
analyze max_gap s obs (next ∷ rest) = analyze max_gap (observe max_gap s obs).0 next rest

-- The frames come in the order of their times, from `last` on.
abbrev pub InOrder : Micros → List Observation → Type 0
InOrder last [] = Unit
InOrder last (obs ∷ rest) = (last ≤ obs.timestamp) × InOrder obs.timestamp rest

-- The time between frames during which the machine was in `target`, frame by frame.
pub time_in : HandwashState → HandwashState → Micros → List Observation → Micros
time_in target state last [] = 0
time_in target state last (obs ∷ rest) =
    (if same_state state target then obs.timestamp - last else 0)
    + time_in target (transition state obs).new_state obs.timestamp rest

-- What the state dict accounts for up to the last frame seen.
unfoldable pub washing_so_far : PersonState → Micros
washing_so_far s = total s s.last_seen_at s.washing_seconds washing

unfoldable pub at_sink_so_far : PersonState → Micros
at_sink_so_far s = total s s.last_seen_at s.at_sink_seconds near_sink_not_washing

module _ (max_gap : Micros) (s : PersonState) (obs : Observation) where
  observe_state :
      ((observe max_gap s obs).0.current_state ≡ (transition s.current_state obs).new_state)
      × ((observe max_gap s obs).0.last_seen_at ≡ obs.timestamp)
  unfolding observe update_and_analyze transition
  observe_state = ground arith

  observe_metrics :
      ((observe max_gap s obs).1.washing_duration ≡ washing_so_far (observe max_gap s obs).0)
      × ((observe max_gap s obs).1.at_sink_duration ≡ at_sink_so_far (observe max_gap s obs).0)
  unfolding observe update_and_analyze washing_so_far at_sink_so_far
  observe_metrics = ground arith

  module _ (started : s.state_started_at ≤ s.last_seen_at)
      (order : s.last_seen_at ≤ obs.timestamp) where
    observe_started :
        (observe max_gap s obs).0.state_started_at ≤ (observe max_gap s obs).0.last_seen_at
    unfolding observe update_and_analyze transition
    observe_started = ground arith

    observe_washing :
        washing_so_far (observe max_gap s obs).0
        ≡ washing_so_far s
          + (if same_state s.current_state washing then obs.timestamp - s.last_seen_at else 0)
    unfolding observe update_and_analyze transition washing_so_far
    observe_washing = ground arith

    observe_at_sink :
        at_sink_so_far (observe max_gap s obs).0
        ≡ at_sink_so_far s
          + (if same_state s.current_state near_sink_not_washing
              then obs.timestamp - s.last_seen_at
              else 0)
    unfolding observe update_and_analyze transition at_sink_so_far
    observe_at_sink = ground arith

washing_duration-time_in :
    (max_gap : Micros) (s : PersonState) (obs : Observation) (rest : List Observation)
    → s.state_started_at ≤ s.last_seen_at
    → InOrder s.last_seen_at (obs ∷ rest)
    → (analyze max_gap s obs rest).1.washing_duration
      ≡ washing_so_far s + time_in washing s.current_state s.last_seen_at (obs ∷ rest)
unfolding analyze time_in
washing_duration-time_in max_gap s obs [] started order =
    omega (arith, (observe_metrics max_gap s obs).0, observe_washing max_gap s obs started order.0)
washing_duration-time_in max_gap s obs (next ∷ rest) started order =
    washing_duration-time_in max_gap (observe max_gap s obs).0 next rest
      (observe_started max_gap s obs started order.0) (rw (observe_state max_gap s obs).1 order.1)
    ∙ rw
        (
          (observe_state max_gap s obs).0,
          (observe_state max_gap s obs).1,
          observe_washing max_gap s obs started order.0,
        )
        (omega arith)

-- After any frames in order, the at-sink time of the metrics is what the state had accounted for,
-- and the time between frames that the machine then spent in NEAR_SINK_NOT_WASHING.
pub at_sink_duration-time_in :
    (max_gap : Micros) (s : PersonState) (obs : Observation) (rest : List Observation)
    → s.state_started_at ≤ s.last_seen_at
    → InOrder s.last_seen_at (obs ∷ rest)
    → (analyze max_gap s obs rest).1.at_sink_duration
      ≡ at_sink_so_far s + time_in near_sink_not_washing s.current_state s.last_seen_at (obs ∷ rest)
unfolding analyze time_in
at_sink_duration-time_in max_gap s obs [] started order =
    omega (arith, (observe_metrics max_gap s obs).1, observe_at_sink max_gap s obs started order.0)
at_sink_duration-time_in max_gap s obs (next ∷ rest) started order =
    at_sink_duration-time_in max_gap (observe max_gap s obs).0 next rest
      (observe_started max_gap s obs started order.0) (rw (observe_state max_gap s obs).1 order.1)
    ∙ rw
        (
          (observe_state max_gap s obs).0,
          (observe_state max_gap s obs).1,
          observe_at_sink max_gap s obs started order.0,
        )
        (omega arith)

-- After any frames whose times are in order, starting from a state that began no later than it was
-- last seen, each of the two durations of the metrics is what the state had accounted for, plus the
-- time between frames that the machine then spent in WASHING, or in NEAR_SINK_NOT_WASHING.
pub durations-time_in :
    (max_gap : Micros) (s : PersonState) (obs : Observation) (rest : List Observation)
    → s.state_started_at ≤ s.last_seen_at
    → InOrder s.last_seen_at (obs ∷ rest)
    → ((analyze max_gap s obs rest).1.washing_duration
        ≡ washing_so_far s + time_in washing s.current_state s.last_seen_at (obs ∷ rest))
      × ((analyze max_gap s obs rest).1.at_sink_duration
          ≡ at_sink_so_far s
            + time_in near_sink_not_washing s.current_state s.last_seen_at (obs ∷ rest))
durations-time_in max_gap s obs rest started order = (
  washing_duration-time_in max_gap s obs rest started order,
  at_sink_duration-time_in max_gap s obs rest started order,
)
