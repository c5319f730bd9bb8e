-- ===== src/Dashboard/Shown.antt =====
-- backend/app/main.py and frontend/repository/api.py together: what the dashboard shows of a backend.
use boars_head_compliance_de.Prelude.{
  ℕ, ◌-◌, String, ◌≡◌, refl, sym, ap, ap₂, ◌∙◌, arith, true, Option, none, some, List, [], ◌∷◌, map,
}
use boars_head_compliance_de.Float.{zero_float, Micros}
use boars_head_compliance_de.Ingestion.{IngestionMetrics}
use boars_head_compliance_de.Serialization.{find}
use boars_head_compliance_de.Dashboard.{
  Builtins, Application, ComplianceMetrics, InferenceMetrics, health,
}
use boars_head_compliance_de.Dashboard.Status.{
  CameraConnectionStatus, ProcessingStatus, PipelineStageStatus, SystemStatus, CameraStatus,
  PipelineStage, get_system_status, get_cameras, build_pipeline_stages, rate_of,
}

-- a counter of a part that may not be started
abbrev pub counter {ℓ} : {A : Type ℓ} → (A → ℕ) → Option A → ℕ
counter f none = 0
counter f (some m) = f m

abbrev pub evaluations_of : ComplianceMetrics → ℕ
evaluations_of m = m.evaluations

abbrev pub violations_of : ComplianceMetrics → ℕ
violations_of m = m.violations

abbrev pub dropped_of : IngestionMetrics → ℕ
dropped_of m = m.frames_dropped_total

abbrev idle_stage : String → PipelineStage
idle_stage name = record {
  name = name;
  status = PipelineStageStatus.stopped;
  throughput_fps = none;
  avg_latency_ms = none;
}

abbrev stage_names : List String
stage_names =
    "Ingestion" ∷ "YOLO Detection" ∷ "IoU Tracker" ∷ "Observation Builder" ∷ "State Machine"
    ∷ "Temporal Analyzer" ∷ "Compliance Rule Engine" ∷ "Alert / Evidence" ∷ []

module _ (py : Builtins) where
  abbrev shown_status : ℕ → ℕ → Micros → SystemStatus
  shown_status evaluations violations now = record {
    healthy = true;
    backend_connected = true;
    last_updated = some now;
    cameras_online = 0;
    cameras_total = 1;
    processing_active = 0;
    processing_total = 1;
    compliance_rate = py.round (rate_of py evaluations violations) 3;
    violations_today = violations;
    system_fps = py.round zero_float 2;
  }

  abbrev shown_camera : ℕ → Micros → CameraStatus
  shown_camera dropped now = record {
    camera_id = "cam01";
    zone_id = "handwash_zone";
    connection = CameraConnectionStatus.stopped;
    processing = ProcessingStatus.stopped;
    ingestion = record {
      connection = CameraConnectionStatus.stopped;
      fps = py.round zero_float 2;
      frames_received = 0;
      frames_processed = 0;
      dropped_frames = dropped;
      last_frame_at = some now;
    };
    pipeline_stages = map idle_stage stage_names;
    last_updated = now;
  }

  status-parts :
      (i : Option IngestionMetrics) (inf : Option InferenceMetrics) (c : Option ComplianceMetrics)
      (b : Application) (now : Micros)
      → get_system_status py
          (some (health py (record b { ingestion = i; inference = inf; compliance = c })))
          now
        ≡ some (shown_status (counter evaluations_of c) (counter violations_of c) now)
  unfolding get_system_status health find
  status-parts none none none b now = refl
  status-parts none none (some c) b now = refl
  status-parts none (some f) none b now = refl
  status-parts none (some f) (some c) b now = refl
  status-parts (some i) none none b now = refl
  status-parts (some i) none (some c) b now = refl
  status-parts (some i) (some f) none b now = refl
  status-parts (some i) (some f) (some c) b now = refl

  cameras-parts :
      (i : Option IngestionMetrics) (inf : Option InferenceMetrics) (b : Application) (now : Micros)
      → get_cameras py (some (health py (record b { ingestion = i; inference = inf }))) now
        ≡ some (shown_camera (counter dropped_of i) now ∷ [])
  unfolding get_cameras build_pipeline_stages health find
  cameras-parts none none b now = refl
  cameras-parts none (some f) b now = refl
  cameras-parts (some i) none b now =
      let none_left : 0 - i.frames_dropped_total ≡ 0 = omega arith in rw none_left refl
  cameras-parts (some i) (some f) b now =
      let none_left : 0 - i.frames_dropped_total ≡ 0 = omega arith in rw none_left refl

  -- Two backends that have counted the same evaluations, violations and dropped frames look the same
  -- to a dashboard that reads their health documents at the same time, in the state of the system and
  -- in that of the camera, whether or not the source is connected and the worker is running, and
  -- however many frames were received and processed.
  pub shown-unmoved :
      (b b' : Application) (now : Micros)
      → counter evaluations_of b.compliance ≡ counter evaluations_of b'.compliance
      → counter violations_of b.compliance ≡ counter violations_of b'.compliance
      → counter dropped_of b.ingestion ≡ counter dropped_of b'.ingestion
      → (get_system_status py (some (health py b)) now
          ≡ get_system_status py (some (health py b')) now)
        × (get_cameras py (some (health py b)) now ≡ get_cameras py (some (health py b')) now)
  shown-unmoved b b' now e v d = (
    status-parts b.ingestion b.inference b.compliance b now
        ∙ ap₂ (λ m n. some (shown_status m n now)) e v
        ∙ sym (status-parts b'.ingestion b'.inference b'.compliance b' now),
    cameras-parts b.ingestion b.inference b now
        ∙ ap (λ n. some (shown_camera n now ∷ [])) d
        ∙ sym (cameras-parts b'.ingestion b'.inference b' now),
  )
