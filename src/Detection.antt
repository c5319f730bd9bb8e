-- ===== src/Detection.antt =====
-- backend/app/inference/models/detection.py
use boars_head_compliance_de.Prelude.{ℕ, String, Option, List}
use boars_head_compliance_de.Float.{Float, Micros, Fps}

pub record BoundingBox : Type 0 where
  pub x1 : Float
  pub y1 : Float
  pub x2 : Float
  pub y2 : Float

pub record Detection : Type 0 where
  pub class_id : ℕ
  pub class_name : String
  pub bbox : BoundingBox
  pub confidence : Float
  pub use_case : String
  pub track_id : Option ℕ

-- the bytes of a JPEG image
abbrev pub Bytes : Type 0
Bytes = List ℕ

pub record DetectionEvent : Type 0 where
  pub camera_id : String
  pub zone_id : String
  pub frame_id : ℕ
  pub captured_at : Micros
  pub processed_at : Micros
  pub detections : List Detection
  pub thumbnail : Option Bytes
  pub correlation_id : String
  pub source_fps : Fps
  pub frame_shape : ℕ × ℕ
