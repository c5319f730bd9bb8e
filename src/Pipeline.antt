-- ===== src/Pipeline.antt =====
-- backend/app/compliance/engine.py: `_process`, `process` and `flush` over the tracker, the builder
-- and the engine. No step but `publish` raises in the model, so `process` counts an evaluation.
pub mod Flush
use boars_head_compliance_de.Prelude.{
  ℕ, ◌+◌, String, Bool, Option, none, some, List, [], ◌∷◌, select, if◌then◌else◌,
}
use text.Mathlib.Text.{◌==◌ as str_eq}
use boars_head_compliance_de.Prelude.Int.{ℤ, pos, pos_part, ◌+ℤ◌, ltb_ℤ}
use boars_head_compliance_de.Prelude.Dict.{Dict, string_eq, get, put}
use boars_head_compliance_de.Float.{Float, FloatOps, Micros, Fps, seconds}
use boars_head_compliance_de.Detection.{Detection, DetectionEvent}
use boars_head_compliance_de.Temporal.{PersonState}
use boars_head_compliance_de.Absence.{Persons, max_lost_frames}
use boars_head_compliance_de.Evidence.{EvidenceLib}
use boars_head_compliance_de.Handwash.{HandwashRuleConfig}
use boars_head_compliance_de.Engine.{Engine, process_observations, make_state_key, zone_persons}
use boars_head_compliance_de.Tracker.{Tracker, update}
use boars_head_compliance_de.Builder.{BuilderConfig, Trackings, evict_stale}
use boars_head_compliance_de.Builder.Build.{build}

abbrev pub stale_eviction_seconds : Micros
stale_eviction_seconds = seconds 3

-- the greatest `last_frame_id` of the persons, at least `best`
unfoldable pub max_frame : ℤ → Persons → ℤ
max_frame best [] = best
max_frame best ((pid, p) ∷ persons) =
    max_frame (if ltb_ℤ best p.last_frame_id then p.last_frame_id else best) persons

-- max(max_frame + _MAX_LOST_FRAMES + 1, 1)
unfoldable pub flush_frame_id : ℤ → ℕ
flush_frame_id last =
    let frame = last +ℤ pos max_lost_frames +ℤ pos 1 in
    if ltb_ℤ frame (pos 1) then 1 else pos_part frame

unfoldable pub flush_event : String → String → Fps → Micros → ℤ → DetectionEvent
unfolding flush_frame_id
flush_event camera_id zone_id source_fps flush_ts last = record {
  camera_id = camera_id;
  zone_id = zone_id;
  frame_id = flush_frame_id last;
  captured_at = flush_ts;
  processed_at = flush_ts;
  detections = [];
  thumbnail = none;
  correlation_id = "stream_flush";
  source_fps = source_fps;
  frame_shape = (0, 0);
}

-- zone_key → (camera_id, zone_id, last_source_fps)
abbrev pub KnownZones : Type 0
KnownZones = Dict String (String × (String × Fps))

module _ (ev : EvidenceLib) (uuid : ℕ → String) (config : HandwashRuleConfig) (max_gap : Micros)
    (raises : ℕ → Bool) (ops : FloatOps) (builder : BuilderConfig) (iou_threshold : Float)
    (max_lost : ℕ) (person_class : String) where
  pub record Pipeline : Type 0 where
    pub engine : Engine ev uuid config max_gap raises
    pub tracker : Tracker
    pub trackings : Trackings
    pub evaluations : ℕ
    pub known_zones : KnownZones
    pub last_event_timestamp : Option Micros

  -- `_process`
  unfoldable pub process_event : DetectionEvent → Pipeline → Pipeline
  process_event event p =
      let people = select (λ (d : Detection). str_eq d.class_name person_class) event.detections in
      let (tracks, tracker) = update ops iou_threshold max_lost people p.tracker in
      let (observations, trackings) =
        build ops builder event.camera_id event.zone_id event.frame_id event.captured_at tracks
          event.detections p.trackings in
      record p {
        engine = process_observations ev uuid config max_gap raises event observations p.engine;
        tracker = tracker;
        trackings = evict_stale event.captured_at stale_eviction_seconds trackings;
      }

  -- `process`
  unfoldable pub process : DetectionEvent → Pipeline → Pipeline
  unfolding process_event
  process event p =
      let p' = process_event event (record p {
        known_zones =
            put (make_state_key event.camera_id event.zone_id)
              (event.camera_id, (event.zone_id, event.source_fps)) p.known_zones;
        last_event_timestamp = some event.captured_at;
      }) in
      record p' { evaluations = p'.evaluations + 1 }

  -- the body of the loop of `flush`; `now` is the clock's time
  unfoldable pub flush_zone : Micros → String → String × (String × Fps) → Pipeline → Pipeline
  unfolding process_event max_frame
  flush_zone now zone_key (camera_id, (zone_id, source_fps)) p =
      elim (zone_persons ev uuid config max_gap raises p.engine zone_key) [
        | [] ↦ p
        | (pid, s) ∷ persons ↦
            process_event
              (flush_event camera_id zone_id source_fps
                (elim p.last_event_timestamp [ none ↦ now | some t ↦ t ])
                (max_frame s.last_frame_id persons))
              p
      ]

  unfoldable pub flush_zones : Micros → KnownZones → Pipeline → Pipeline
  unfolding flush_zone
  flush_zones now [] p = p
  flush_zones now ((key, zone) ∷ zones) p = flush_zones now zones (flush_zone now key zone p)

  unfoldable pub flush : Micros → Pipeline → Pipeline
  unfolding flush_zones
  flush now p = flush_zones now p.known_zones p
