-- ===== src/Builder/Build.antt =====
-- backend/app/compliance/observation.py, `build`: the record and the observation of each track.
use boars_head_compliance_de.Prelude.{
  ℕ, String, Bool, true, false, ◌&&◌, Option, none, some, List, [], ◌∷◌, map, length, select, leb,
  if◌then◌else◌,
}
use text.Mathlib.Text.{◌==◌ as str_eq}
use boars_head_compliance_de.Prelude.Int.{ℤ, pos, ◌+ℤ◌}
use boars_head_compliance_de.Prelude.Dict.{Dict, nat_eq, get, put}
use boars_head_compliance_de.Float.{Float, FloatOps, Micros}
use boars_head_compliance_de.Detection.{Detection}
use boars_head_compliance_de.Observation.{Observation}
use boars_head_compliance_de.Spatial.{Point, Box, box_center, point_distance, assign_person_to_sink}
use boars_head_compliance_de.Track.{Track}
use boars_head_compliance_de.Builder.{
  BuilderConfig, Tracking, Trackings, count_evidence, push_bounded, at_the_sink, get_or_create,
}
use boars_head_compliance_de.Builder.Hands.{Hands, int_box, assign_hands, empty_hands, near_sink}

module _ (ops : FloatOps) (config : BuilderConfig) where
  open ops use {add, mul, div, le, of_int, to_int, fraction}

  abbrev sum_x : Hands → ℤ
  sum_x [] = pos 0
  sum_x ((box, c) ∷ hands) = (box_center box).0 +ℤ sum_x hands

  abbrev sum_y : Hands → ℤ
  sum_y [] = pos 0
  sum_y ((box, c) ∷ hands) = (box_center box).1 +ℤ sum_y hands

  -- history[-1] and history[-2]
  abbrev last_two : List Point → Option (Point × Point)
  last_two [] = none
  last_two (p ∷ []) = none
  last_two (p ∷ q ∷ []) = some (q, p)
  last_two (p ∷ q ∷ r ∷ ps) = last_two (q ∷ r ∷ ps)

  -- the "Hand movement (EMA)" block
  unfoldable pub track_movement : Hands → Tracking → Tracking
  unfolding push_bounded
  track_movement [] t = record t { movement_score = mul t.movement_score (fraction 8 10) }
  track_movement (hand ∷ hands) t =
      let all = hand ∷ hands in
      let n = of_int (pos (length all)) in
      let center : Point =
        (to_int (div (of_int (sum_x all)) n), to_int (div (of_int (sum_y all)) n)) in
      let history = push_bounded config.movement_history_size center t.movement_history in
      record t {
        movement_history = history;
        movement_score = elim (last_two history) [
          | none ↦ t.movement_score
          | some (latest, previous) ↦
              add (mul (fraction 8 10) t.movement_score)
                (mul (fraction 2 10) (point_distance ops latest previous))
        ];
      }

  -- the "Washing evidence" block
  unfoldable pub washing_evidence : Hands → Bool → Float → Bool
  washing_evidence hands near score =
      leb config.min_hands (length hands)
      && near
      && (if config.require_movement then le config.min_movement score else true)

  -- everything that one frame does to a person's tracking record
  unfoldable pub update_tracking : Micros → Box → Hands → Hands → Tracking → Tracking
  unfolding near_sink track_movement washing_evidence count_evidence
  update_tracking now pbox sinks hands t =
      let sink_index = assign_person_to_sink ops pbox sinks config.max_sink_distance in
      let near = near_sink ops config sinks sink_index hands in
      let t' =
        track_movement hands (record t { last_seen_at = some now; sink_index = sink_index }) in
      let t2 =
        count_evidence config.washing_hold_frames (washing_evidence hands near t'.movement_score)
          t' in
      record t2 { last_hand_near_sink_at = if near then some now else t2.last_hand_near_sink_at }

  -- the observation of a track, with the person's record before and after the frame
  unfoldable pub observation_of :
      String → String → ℕ → Micros → Track → Hands → Hands → Tracking → Tracking → Observation
  unfolding near_sink int_box at_the_sink
  observation_of camera_id zone_id frame_id now track sinks hands before after =
      let near = near_sink ops config sinks after.sink_index hands in
      record {
        camera_id = camera_id;
        zone_id = zone_id;
        person_id = track.track_id;
        timestamp = now;
        frame_id = frame_id;
        inside_sink_zone = at_the_sink config.reset_seconds near now before.last_hand_near_sink_at;
        hands_interacting = leb config.confirm_frames after.positive_frames;
        hand_near_sink = near;
        hand_count = length hands;
        hand_movement_score = after.movement_score;
        positive_frames = after.positive_frames;
        no_detection_frames = after.no_detection_frames;
        water_detected = false;
        soap_detected = false;
        track_bbox = some track.detection.bbox;
        is_synthetic = false;
      }

  abbrev hands_of : ℕ → Dict ℕ Hands → Hands
  hands_of pid assigned = elim (get pid assigned) [ none ↦ [] | some hands ↦ hands ]

  -- the loop over the tracks
  unfoldable pub build_from :
      String
      → String
      → ℕ
      → Micros
      → Hands
      → Dict ℕ Hands
      → List Track
      → Trackings
      → List Observation × Trackings
  unfolding update_tracking observation_of get_or_create int_box
  build_from camera_id zone_id frame_id now sinks assigned [] trackings = ([], trackings)
  build_from camera_id zone_id frame_id now sinks assigned (track ∷ tracks) trackings =
      let before = get_or_create track.track_id trackings in
      let hands = hands_of track.track_id assigned in
      let after = update_tracking now (int_box ops track.detection.bbox) sinks hands before in
      let (rest, trackings') =
        build_from camera_id zone_id frame_id now sinks assigned tracks
          (put track.track_id after trackings) in
      (
        observation_of camera_id zone_id frame_id now track sinks hands before after ∷ rest,
        trackings',
      )

  abbrev box_of : Detection → Box × Float
  box_of d = (int_box ops d.bbox, d.confidence)

  abbrev of_class : String → List Detection → List Detection
  of_class name = select (λ (d : Detection). str_eq d.class_name name)

  unfoldable pub build :
      String
      → String
      → ℕ
      → Micros
      → List Track
      → List Detection
      → Trackings
      → List Observation × Trackings
  unfolding build_from assign_hands
  build camera_id zone_id frame_id now tracks detections trackings =
      let sinks = map box_of (of_class config.sink_class detections) in
      let assigned =
        assign_hands ops config tracks (of_class config.hand_class detections)
          (empty_hands ops config tracks []) in
      build_from camera_id zone_id frame_id now sinks assigned tracks trackings
