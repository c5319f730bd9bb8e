-- ===== src/Examples.antt =====
-- Concrete inputs for the theorems: a camera at 25 frames per second, the shipped configuration.
mod Machine
mod Durations
mod Rule
mod Visits
mod Persons
mod Playlist
mod Streams
mod Display
mod States
mod Threads
mod Stream
mod Wire
mod Intake
mod Models
mod Storage
use boars_head_compliance_de.Prelude.{
  ℕ, ◌+◌, String, Bool, true, false, Option, none, some, List, [], ◌∷◌,
}
use boars_head_compliance_de.Prelude.Int.{ℤ, pos}
use boars_head_compliance_de.Float.{zero_float, seconds, Micros}
use boars_head_compliance_de.Detection.{DetectionEvent}
use boars_head_compliance_de.Observation.{Observation}
use boars_head_compliance_de.StateMachine.{HandwashState}
use boars_head_compliance_de.Temporal.{PersonState}
use boars_head_compliance_de.Evidence.{list_evidence}
use boars_head_compliance_de.Handwash.{HandwashRuleConfig, Evaluator}
use boars_head_compliance_de.Engine.Visits.{Shot}

abbrev uuid : ℕ → String
uuid n = "group"

abbrev never : ℕ → Bool
never n = false

-- config/config.yaml
abbrev shipped : HandwashRuleConfig
shipped = record {
  minimum_washing_duration_seconds = seconds 20;
  absence_threshold_seconds = seconds 10;
  evidence_buffer_max = 30;
  confirmation_frames = 5;
  reset_after_no_detection_seconds = seconds 1;
  min_hands_for_washing = 1;
  min_hand_movement = zero_float;
  require_hand_movement = true;
  person_box_expand_x = zero_float;
  person_box_expand_y = zero_float;
  max_person_sink_distance = zero_float;
  sink_horizontal_margin = zero_float;
  sink_top_margin = zero_float;
  sink_bottom_margin = zero_float;
  session_cooldown_seconds = seconds 10;
}

abbrev observed : Bool → Bool → Micros → Observation
observed inside hands now = record {
  camera_id = "cam";
  zone_id = "zone";
  person_id = 7;
  timestamp = now;
  frame_id = 100;
  inside_sink_zone = inside;
  hands_interacting = hands;
  hand_near_sink = inside;
  hand_count = 1;
  hand_movement_score = zero_float;
  positive_frames = 0;
  no_detection_frames = 0;
  water_detected = false;
  soap_detected = false;
  track_bbox = none;
  is_synthetic = false;
}

abbrev event_at : Micros → DetectionEvent
event_at now = record {
  camera_id = "cam";
  zone_id = "zone";
  frame_id = 100;
  captured_at = now;
  processed_at = now;
  detections = [];
  thumbnail = none;
  correlation_id = "";
  source_fps = 25000;
  frame_shape = (0, 0);
}

-- person 7, since `started` in `state`, with 3 seconds of washing before
abbrev person : HandwashState → Micros → PersonState
person state started = record {
  person_id = 7;
  current_state = state;
  state_started_at = started;
  last_seen_at = started;
  observation_count = 3;
  sequence_valid = true;
  at_sink_seconds = seconds 1;
  washing_seconds = seconds 3;
  last_frame_id = pos 99;
  consecutive_absence_frames = 2;
  positive_frames = 0;
  no_detection_frames = 0;
  hand_movement_score = zero_float;
  washing_duration_logged = 0;
  pending_exit_at = none;
  group_id = some "group";
  has_group_key = true;
  absence_started_at = some started;
  violation_confirmed = false;
}

abbrev idle : Evaluator list_evidence uuid shipped
idle = record { buffers = []; uuids = 0 }

abbrev shot : Observation → Shot list_evidence uuid shipped (seconds 5) never
shot obs = record {
  event = event_at obs.timestamp;
  obs = obs;
  evaluator = idle;
  last_frame_id = pos 100;
}
