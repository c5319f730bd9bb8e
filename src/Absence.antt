-- ===== src/Absence.antt =====
-- backend/app/compliance/engine.py, the loop "Supplement" of `_process`: observations are made up
-- for the persons of the zone that the frame does not show.
use boars_head_compliance_de.Prelude.{
  ℕ, Bool, true, false, not, ◌&&◌, ◌||◌, none, List, [], ◌∷◌, ltb, leb, ◌==◌, if◌then◌else◌,
  is_some,
}
use boars_head_compliance_de.Prelude.Int.{ℤ, pos, pos_part, ◌-ℤ◌, ltb_ℤ}
use boars_head_compliance_de.Prelude.Dict.{Dict, nat_eq, string_eq}
use boars_head_compliance_de.Float.{Micros, Fps, zero_float, seconds, lasts_at_most}
use boars_head_compliance_de.Detection.{DetectionEvent}
use boars_head_compliance_de.Observation.{Observation}
use boars_head_compliance_de.StateMachine.{not_near_sink, is_terminal, same_state}
use boars_head_compliance_de.Temporal.{PersonState}

abbrev pub max_lost_frames : ℕ
max_lost_frames = 5

abbrev pub zone_exit_grace_seconds : Micros
zone_exit_grace_seconds = seconds 1

-- the value of a zone's key in the state store
abbrev pub Persons : Type 0
Persons = Dict ℕ PersonState

-- x in xs
unfoldable pub elem : ℕ → List ℕ → Bool
elem x [] = false
elem x (y ∷ ys) = x == y || elem x ys

-- Absence: whether an unseen person is processed at all.
unfoldable pub needs_absence : PersonState → Bool
needs_absence p =
    if same_state p.current_state not_near_sink || is_terminal p.current_state
    then same_state p.current_state not_near_sink && is_some p.pending_exit_at
    else true

-- whether a person unseen for `frames` frames is still taken to be in the zone
unfoldable pub inside_zone : ℕ → Fps → Bool
inside_zone frames fps =
    if ltb 0 fps
    then lasts_at_most frames fps zone_exit_grace_seconds
    else leb frames max_lost_frames

abbrev pub frames_lost : DetectionEvent → PersonState → ℤ
frames_lost event p = pos event.frame_id -ℤ p.last_frame_id

unfoldable pub absence_observation : DetectionEvent → ℕ → PersonState → Observation
unfolding inside_zone
absence_observation event pid p = record {
  camera_id = event.camera_id;
  zone_id = event.zone_id;
  person_id = pid;
  timestamp = event.captured_at;
  frame_id = event.frame_id;
  inside_sink_zone = inside_zone (pos_part (frames_lost event p)) event.source_fps;
  hands_interacting = false;
  hand_near_sink = false;
  hand_count = 0;
  hand_movement_score = zero_float;
  positive_frames = 0;
  no_detection_frames = 0;
  water_detected = false;
  soap_detected = false;
  track_bbox = none;
  is_synthetic = true;
}

-- the loop "Supplement" over `zone_state["persons"].items()`
unfoldable pub absences : DetectionEvent → List ℕ → Persons → List Observation
unfolding needs_absence absence_observation elem
absences event current [] = []
absences event current ((pid, p) ∷ persons) =
    let rest = absences event current persons in
    if elem pid current || (not (needs_absence p) || ltb_ℤ (frames_lost event p) (pos 0))
    then rest
    else absence_observation event pid p ∷ rest
