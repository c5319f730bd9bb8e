-- ===== src/Dashboard.antt =====
-- backend/app/main.py: the health document, with the snapshots of ingestion/health/metrics.py,
-- inference/health/metrics.py and compliance/metrics.py. What the queue, the frame store and the
-- database answer when they are asked is given.
pub mod Status
pub mod Shown
pub mod Violations
pub mod RoundTrip
use boars_head_compliance_de.Prelude.{ℕ, String, Bool, Option, none, some, if◌then◌else◌}
use boars_head_compliance_de.Prelude.Int.{ℤ}
use boars_head_compliance_de.Float.{Float, Micros}
use boars_head_compliance_de.Ingestion.{IngestionMetrics}
use boars_head_compliance_de.Serialization.{
  Json, null, boolean, int, float, str, object, Fields, end, field,
}

-- of Python: isoformat and fromisoformat, round(x, n), a / b of integers, the decimal fraction n / d,
-- s.replace(a, b) and s.title()
pub record Builtins : Type 0 where
  pub isoformat : Micros → String
  pub fromisoformat : String → Option Micros
  pub round : Float → ℕ → Float
  pub divide : ℤ → ℤ → Float
  pub fraction : ℕ → ℕ → Float
  pub replace : String → String → String → String
  pub title : String → String

-- a value that is used as a float
abbrev pub as_number : Json → Option Float
as_number (float x) = some x
as_number other = none

pub record InferenceMetrics : Type 0 where
  pub frames_received_total : ℕ
  pub frames_processed_total : ℕ
  pub frame_store_miss_total : ℕ
  pub inference_total : ℕ
  pub inference_failures_total : ℕ
  pub thumbnail_failures_total : ℕ
  pub last_processed_at : Option Micros
  pub worker_running : Bool

pub record ComplianceMetrics : Type 0 where
  pub evaluations : ℕ
  pub violations : ℕ
  pub evaluation_failures : ℕ
  pub state_store_gets : ℕ
  pub state_store_sets : ℕ
  pub evidence_groups_created : ℕ
  pub evidence_groups_discarded : ℕ
  pub evidence_groups_confirmed : ℕ
  pub evidence_publish_failures : ℕ
  pub frames_processed : ℕ
  pub last_evaluation_duration : Float

-- the four answers of `qsize`, and that of `dropped_count`, or 0
pub record QueueSizes : Type 0 where
  pub frames_queued : ℕ
  pub frames_dropped : ℕ
  pub detections_queued : ℕ
  pub alerts_queued : ℕ
  pub evidence_queued : ℕ

-- the answer of `check_health`, and the counters
pub record DatabaseHealth : Type 0 where
  pub is_ok : Bool
  pub pending_events : ℕ
  pub write_failures : ℕ
  pub violations_persisted : ℕ
  pub evidence_items_persisted : ℕ
  pub audit_events_persisted : ℕ

-- the parts of the application that were started
pub record Application : Type 0 where
  pub ingestion : Option IngestionMetrics
  pub inference : Option InferenceMetrics
  pub compliance : Option ComplianceMetrics
  pub queue : QueueSizes
  pub frames_held : ℕ
  pub frames_evicted : ℕ
  pub database : Option DatabaseHealth

module _ (py : Builtins) where
  abbrev pub time_or_null : Option Micros → Json
  time_or_null none = null
  time_or_null (some t) = str (py.isoformat t)

  -- IngestionMetrics.snapshot
  abbrev pub ingestion_snapshot : IngestionMetrics → Fields
  ingestion_snapshot m = field "stream_connected" (boolean m.stream_connected) (
      field "last_frame_received_at" (time_or_null m.last_frame_received_at) (
        field "frames_received_total" (int m.frames_received_total) (
          field "frames_sampled_total" (int m.frames_sampled_total) (
            field "frames_dropped_total" (int m.frames_dropped_total) (
              field "invalid_frames_total" (int m.invalid_frames_total)
                (field "reconnect_count" (int m.reconnect_count) end))))))

  -- InferenceMetrics.snapshot
  abbrev pub inference_snapshot : InferenceMetrics → Fields
  inference_snapshot m = field "frames_received_total" (int m.frames_received_total) (
      field "frames_processed_total" (int m.frames_processed_total) (
        field "frame_store_miss_total" (int m.frame_store_miss_total) (
          field "inference_total" (int m.inference_total) (
            field "inference_failures_total" (int m.inference_failures_total) (
              field "thumbnail_failures_total" (int m.thumbnail_failures_total) (
                field "last_processed_at" (time_or_null m.last_processed_at)
                  (field "worker_running" (boolean m.worker_running) end)))))))

  -- ComplianceMetrics.snapshot
  abbrev pub compliance_snapshot : ComplianceMetrics → Fields
  compliance_snapshot m = field "evaluations_total" (int m.evaluations) (
      field "violations_total" (int m.violations) (
        field "evaluation_failures_total" (int m.evaluation_failures) (
          field "state_store_gets_total" (int m.state_store_gets) (
            field "state_store_sets_total" (int m.state_store_sets) (
              field "evidence_groups_created_total" (int m.evidence_groups_created) (
                field "evidence_groups_discarded_total" (int m.evidence_groups_discarded) (
                  field "evidence_groups_confirmed_total" (int m.evidence_groups_confirmed) (
                    field "evidence_publish_failures_total" (int m.evidence_publish_failures) (
                      field "frames_processed_total" (int m.frames_processed) (
                        field "last_evaluation_duration_seconds"
                          (float (py.round m.last_evaluation_duration 6)) end))))))))))

  abbrev pub queue_fields : QueueSizes → Fields
  queue_fields q = field "frames_queued" (int q.frames_queued) (
      field "frames_dropped" (int q.frames_dropped) (
        field "detections_queued" (int q.detections_queued) (
          field "alerts_queued" (int q.alerts_queued)
            (field "evidence_queued" (int q.evidence_queued) end))))

  abbrev pub database_fields : Option DatabaseHealth → Fields
  database_fields none = field "status" (str "disabled") end
  database_fields (some d) = field "status" (str (if d.is_ok then "ok" else "error")) (
      field "pending_writes" (int d.pending_events) (
        field "failed_writes" (int d.write_failures) (
          field "violations_persisted" (int d.violations_persisted) (
            field "evidence_items_persisted" (int d.evidence_items_persisted)
              (field "audit_events_persisted" (int d.audit_events_persisted) end)))))

  -- a part that was not started is an empty dict
  abbrev snapshot_or_empty {ℓ} : {A : Type ℓ} → (A → Fields) → Option A → Json
  snapshot_or_empty snapshot none = object end
  snapshot_or_empty snapshot (some m) = object (snapshot m)

  -- `health`
  unfoldable pub health : Application → Fields
  health b = field "status" (str "ok") (
      field "ingestion" (snapshot_or_empty ingestion_snapshot b.ingestion) (
        field "message_queue" (object (queue_fields b.queue)) (
          field "frame_store"
            (object (
              field "frames_held" (int b.frames_held)
                (field "frames_evicted_total" (int b.frames_evicted) end)))
            (field "inference" (snapshot_or_empty inference_snapshot b.inference) (
              field "compliance" (snapshot_or_empty compliance_snapshot b.compliance)
                (field "database" (object (database_fields b.database)) end))))))
