-- ===== src/Observation.antt =====
-- backend/app/compliance/observation.py: the domain view of one person in one frame
use boars_head_compliance_de.Prelude.{ℕ, String, Bool, Option}
use boars_head_compliance_de.Float.{Float, Micros}
use boars_head_compliance_de.Detection.{BoundingBox}

pub record Observation : Type 0 where
  pub camera_id : String
  pub zone_id : String
  pub person_id : ℕ
  pub timestamp : Micros
  pub frame_id : ℕ
  pub inside_sink_zone : Bool
  pub hands_interacting : Bool
  pub hand_near_sink : Bool
  pub hand_count : ℕ
  pub hand_movement_score : Float
  pub positive_frames : ℕ
  pub no_detection_frames : ℕ
  pub water_detected : Bool
  pub soap_detected : Bool
  pub track_bbox : Option BoundingBox
  pub is_synthetic : Bool
