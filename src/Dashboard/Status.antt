-- ===== src/Dashboard/Status.antt =====
-- frontend/repository/api.py with frontend/domain/models.py: the state of the system and of the cameras,
-- as the dashboard reads it from the health document. `none` is an exception; a value of another
-- JSON type than the one that is used is one too.
use text.Mathlib.Text.{◌==◌ as str_eq}
use boars_head_compliance_de.Prelude.{
  ℕ, ◌-◌, String, Bool, true, false, not, Option, none, some, List, [], ◌∷◌, map, ◌==◌,
  if◌then◌else◌,
}
use boars_head_compliance_de.Prelude.Int.{pos, ◌-ℤ◌}
use boars_head_compliance_de.Float.{Float, zero_float, Micros}
use boars_head_compliance_de.Serialization.{Json, int, str, Fields, end, find, as_fields, ◌>>=◌}
use boars_head_compliance_de.Inference.Resolver.{is_falsy}
use boars_head_compliance_de.Dashboard.{Builtins, as_number}

pub data CameraConnectionStatus : Type 0 where
  online : CameraConnectionStatus
  connecting : CameraConnectionStatus
  degraded : CameraConnectionStatus
  disconnected : CameraConnectionStatus
  error : CameraConnectionStatus
  stopped : CameraConnectionStatus

pub data ProcessingStatus : Type 0 where
  starting : ProcessingStatus
  warming_up : ProcessingStatus
  processing : ProcessingStatus
  backpressured : ProcessingStatus
  error : ProcessingStatus
  stopped : ProcessingStatus

pub data PipelineStageStatus : Type 0 where
  ok : PipelineStageStatus
  degraded : PipelineStageStatus
  error : PipelineStageStatus
  stopped : PipelineStageStatus
  starting : PipelineStageStatus

pub record SystemStatus : Type 0 where
  pub healthy : Bool
  pub backend_connected : Bool
  pub last_updated : Option Micros
  pub cameras_online : ℕ
  pub cameras_total : ℕ
  pub processing_active : ℕ
  pub processing_total : ℕ
  pub compliance_rate : Float
  pub violations_today : ℕ
  pub system_fps : Float

pub record IngestionInfo : Type 0 where
  pub connection : CameraConnectionStatus
  pub fps : Float
  pub frames_received : ℕ
  pub frames_processed : ℕ
  pub dropped_frames : ℕ
  pub last_frame_at : Option Micros

pub record PipelineStage : Type 0 where
  pub name : String
  pub status : PipelineStageStatus
  pub throughput_fps : Option Float
  pub avg_latency_ms : Option Json

-- the names and the zone are constants
pub record CameraStatus : Type 0 where
  pub camera_id : String
  pub zone_id : String
  pub connection : CameraConnectionStatus
  pub processing : ProcessingStatus
  pub ingestion : IngestionInfo
  pub pipeline_stages : List PipelineStage
  pub last_updated : Micros

-- d.get(key, {}), d.get(key, 0), d.get(key, 0.0), and the truth of d.get(key, False)
abbrev fields_of : String → Fields → Option Fields
fields_of key d = elim (find key d) [ none ↦ some end | some j ↦ as_fields j ]

abbrev as_int : Json → Option ℕ
as_int (int n) = some n
as_int other = none

abbrev int_of : String → Fields → Option ℕ
int_of key d = elim (find key d) [ none ↦ some 0 | some j ↦ as_int j ]

abbrev float_of : String → Fields → Option Float
float_of key d = elim (find key d) [ none ↦ some zero_float | some j ↦ as_number j ]

abbrev is_set : String → Fields → Bool
is_set key d = elim (find key d) [ none ↦ false | some j ↦ not (is_falsy j) ]

abbrev is_ok : Option Json → Bool
is_ok (some (str s)) = str_eq s "ok"
is_ok other = false

module _ (py : Builtins) where
  -- (evaluations - violations) / evaluations, or 1.0
  abbrev pub rate_of : ℕ → ℕ → Float
  rate_of evaluations violations =
      if evaluations == 0
      then py.fraction 1 1
      else py.divide (pos evaluations -ℤ pos violations) (pos evaluations)

  -- `get_system_status`, where `_get_health` returned the document or None
  unfoldable pub get_system_status : Option Fields → Micros → Option SystemStatus
  get_system_status none now = some (record {
    healthy = false;
    backend_connected = false;
    last_updated = none;
    cameras_online = 0;
    cameras_total = 0;
    processing_active = 0;
    processing_total = 0;
    compliance_rate = zero_float;
    violations_today = 0;
    system_fps = zero_float;
  })
  get_system_status (some document) now = do
    ingestion ← fields_of "ingestion" document
    inference ← fields_of "inference" document
    compliance ← fields_of "compliance" document
    fps ← float_of "current_fps" ingestion
    violations ← int_of "violations_total" compliance
    evaluations ← int_of "evaluations_total" compliance
    some (record {
      healthy = is_ok (find "status" document);
      backend_connected = true;
      last_updated = some now;
      cameras_online = if is_set "is_running" ingestion then 1 else 0;
      cameras_total = 1;
      processing_active = if is_set "is_running" inference then 1 else 0;
      processing_total = 1;
      compliance_rate = py.round (rate_of evaluations violations) 3;
      violations_today = violations;
      system_fps = py.round fps 2;
    })

  abbrev stage : Bool → Float → Option Json → String → PipelineStage
  stage running fps latency name = record {
    name = name;
    status = if running then PipelineStageStatus.ok else PipelineStageStatus.stopped;
    throughput_fps = if running then some fps else none;
    avg_latency_ms = latency;
  }

  -- `_build_pipeline_stages`
  unfoldable pub build_pipeline_stages : Fields → Fields → Float → List PipelineStage
  build_pipeline_stages ingestion inference fps =
      let inf = is_set "is_running" inference in
      stage (is_set "is_running" ingestion) fps none "Ingestion"
      ∷ stage inf fps (find "avg_inference_ms" inference) "YOLO Detection"
      ∷ map (stage inf fps none) (
          "IoU Tracker" ∷ "Observation Builder" ∷ "State Machine" ∷ "Temporal Analyzer"
          ∷ "Compliance Rule Engine" ∷ "Alert / Evidence" ∷ [])

  -- `get_cameras`
  unfoldable pub get_cameras : Option Fields → Micros → Option (List CameraStatus)
  unfolding build_pipeline_stages
  get_cameras none now = some []
  get_cameras (some document) now = do
    ingestion ← fields_of "ingestion" document
    inference ← fields_of "inference" document
    fps ← float_of "current_fps" ingestion
    frames_recv ← int_of "frames_published_total" ingestion
    frames_dropped ← int_of "frames_dropped_total" ingestion
    some (
        record {
          camera_id = "cam01";
          zone_id = "handwash_zone";
          connection =
              if is_set "is_running" ingestion
              then CameraConnectionStatus.online
              else CameraConnectionStatus.stopped;
          processing =
              if is_set "is_running" inference
              then ProcessingStatus.processing
              else ProcessingStatus.stopped;
          ingestion = record {
            connection =
                if is_set "is_running" ingestion
                then CameraConnectionStatus.online
                else CameraConnectionStatus.stopped;
            fps = py.round fps 2;
            frames_received = frames_recv;
            frames_processed = frames_recv - frames_dropped;
            dropped_frames = frames_dropped;
            last_frame_at = some now;
          };
          pipeline_stages = build_pipeline_stages ingestion inference fps;
          last_updated = now;
        }
        ∷ [])
