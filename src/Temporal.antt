-- ===== src/Temporal.antt =====
-- backend/app/compliance/temporal/{models,analyzer}.py: the per-person state and its durations.
-- The dict of a person is a record: a key that may be missing, or None, is an option, and an ISO
-- text is the instant that `_parse` reads back from it.
pub mod Durations
use boars_head_compliance_de.Prelude.{
  ℕ, ◌+◌, ◌-◌, Bool, true, false, Option, none, String, if◌then◌else◌, leb,
}
use boars_head_compliance_de.Prelude.Int.{ℤ, pos, negsuc, sub_ℕ, ltb_ℤ}
use boars_head_compliance_de.Float.{Float, zero_float, Micros}
use boars_head_compliance_de.StateMachine.{
  HandwashState, not_near_sink, near_sink_not_washing, washing, washed, not_washed, same_state,
  StateTransitionResult,
}

pub record TemporalMetrics : Type 0 where
  pub at_sink_duration : Micros
  pub washing_duration : Micros
  pub sequence_valid : Bool
  pub continuity_valid : Bool
  pub observation_count : ℕ
  pub current_state : HandwashState
  pub last_gap_seconds : ℤ
  pub positive_frames : ℕ
  pub no_detection_frames : ℕ
  pub hand_movement_score : Float

pub record PersonState : Type 0 where
  pub person_id : ℕ
  pub current_state : HandwashState
  pub state_started_at : Micros
  pub last_seen_at : Micros
  pub observation_count : ℕ
  pub sequence_valid : Bool
  pub at_sink_seconds : Micros
  pub washing_seconds : Micros
  pub last_frame_id : ℤ
  pub consecutive_absence_frames : ℕ
  pub positive_frames : ℕ
  pub no_detection_frames : ℕ
  pub hand_movement_score : Float
  pub washing_duration_logged : ℕ
  pub pending_exit_at : Option Micros
  -- written by the rule evaluator
  pub group_id : Option String
  -- whether the dict has the key `group_id`, be its value None
  pub has_group_key : Bool
  pub absence_started_at : Option Micros
  pub violation_confirmed : Bool

unfoldable pub initial_person_state : ℕ → Micros → PersonState
initial_person_state person_id timestamp = record {
  person_id = person_id;
  current_state = not_near_sink;
  state_started_at = timestamp;
  last_seen_at = timestamp;
  observation_count = 0;
  sequence_valid = true;
  at_sink_seconds = 0;
  washing_seconds = 0;
  last_frame_id = negsuc 0;
  consecutive_absence_frames = 0;
  positive_frames = 0;
  no_detection_frames = 0;
  hand_movement_score = zero_float;
  washing_duration_logged = 0;
  pending_exit_at = none;
  group_id = none;
  has_group_key = false;
  absence_started_at = none;
  violation_confirmed = false;
}

-- `state[key] += duration` for the key of `_STATE_SECONDS_KEY`, where the state has one
unfoldable pub add_duration : HandwashState → Micros → PersonState → PersonState
add_duration near_sink_not_washing duration s = record s {
  at_sink_seconds = s.at_sink_seconds + duration;
}
add_duration washing duration s = record s { washing_seconds = s.washing_seconds + duration }
add_duration _ duration s = s

-- the block under `if transition.transitioned`; `now - started_at` stops at 0 as the `max` does
finish_state : PersonState → StateTransitionResult → PersonState
unfolding add_duration
finish_state s t =
    if t.transitioned
    then record (add_duration t.previous_state (t.timestamp - s.state_started_at) s) {
      state_started_at = t.timestamp;
      current_state = t.new_state;
    }
    else s

-- `_total` of `_compute_metrics`
abbrev total : PersonState → Micros → Micros → HandwashState → Micros
total s now base state =
    base + (if same_state s.current_state state then now - s.state_started_at else 0)

unfoldable pub compute_metrics : PersonState → Micros → Bool → ℤ → TemporalMetrics
compute_metrics s now continuity_valid last_gap = record {
  at_sink_duration = total s now s.at_sink_seconds near_sink_not_washing;
  washing_duration = total s now s.washing_seconds washing;
  sequence_valid = s.sequence_valid;
  continuity_valid = continuity_valid;
  observation_count = s.observation_count;
  current_state = s.current_state;
  last_gap_seconds = last_gap;
  positive_frames = s.positive_frames;
  no_detection_frames = s.no_detection_frames;
  hand_movement_score = s.hand_movement_score;
}

-- the state that `update_and_analyze` returns
unfoldable pub update_state : PersonState → StateTransitionResult → ℕ → ℕ → Float → PersonState
unfolding finish_state
update_state s t positive no_detection movement =
    let s' = finish_state s t in
    record s' {
      positive_frames = positive;
      no_detection_frames = no_detection;
      hand_movement_score = movement;
      last_seen_at = t.timestamp;
      observation_count = s'.observation_count + 1;
    }

-- `max_gap` is the analyzer's threshold
unfoldable pub update_and_analyze :
    Micros → PersonState → StateTransitionResult → ℕ → ℕ → Float → PersonState × TemporalMetrics
unfolding update_state compute_metrics
update_and_analyze max_gap s t positive no_detection movement =
    let last_gap = sub_ℕ t.timestamp s.last_seen_at in
    let continuity_valid = if ltb_ℤ (pos max_gap) last_gap then false else true in
    let s' = update_state s t positive no_detection movement in
    (s', compute_metrics s' t.timestamp continuity_valid last_gap)
