-- ===== src/Examples/Display.antt =====
-- What the dashboard shows of a backend that is running, with one violation.
use Prim.Native.String.compare
use text.Mathlib.Text.{◌==◌ as str_eq, is_eq}
use text.Mathlib.TextBridge.{of_list}
use boars_head_compliance_de.Prelude.{
  ℕ, zero, suc, String, ◌≡◌, refl, ap, true, false, none, some, List, [], ◌∷◌, map,
}
use boars_head_compliance_de.Float.{Micros}
use boars_head_compliance_de.Dashboard.{Builtins, Application, health}
use boars_head_compliance_de.Dashboard.Status.{get_system_status, get_cameras}
use boars_head_compliance_de.Dashboard.Shown.{shown-unmoved}
use boars_head_compliance_de.Dashboard.Violations.{
  ViolationRow, TemporalMetric, list_recent, latest_metric, api_violations, get_violations,
}
use boars_head_compliance_de.Dashboard.RoundTrip.{IsLatest, ReadsTimes, shown, get-api_violations}
use boars_head_compliance_de.Examples.Persons.{num}
use boars_head_compliance_de.Examples.Wire.{ones, unary, unary-IsInverse}

abbrev py : Builtins
py = record {
  isoformat = unary.isoformat;
  fromisoformat = unary.fromisoformat;
  round = λ x n. x;
  divide = λ a b. num 1;
  fraction = λ n d. num n;
  replace = λ s a b. s;
  title = λ s. s;
}

nonempty : (t : Micros) → str_eq (py.isoformat t) "" ≡ false
nonempty zero = ap is_eq (compare.cons-nil "," "")
nonempty (suc t) = ap is_eq (compare.cons-nil "1" (of_list (ones t ("," ∷ []))))

py-ReadsTimes : ReadsTimes py
py-ReadsTimes = record {
  isoformat-nonempty = nonempty;
  fromisoformat-isoformat = unary-IsInverse.fromisoformat-isoformat;
}

abbrev backend : Application
backend = record {
  ingestion = some (record {
    stream_connected = true;
    last_frame_received_at = some 9;
    frames_received_total = 200;
    frames_sampled_total = 40;
    frames_dropped_total = 3;
    invalid_frames_total = 0;
    reconnect_count = 0;
  });
  inference = some (record {
    frames_received_total = 40;
    frames_processed_total = 40;
    frame_store_miss_total = 0;
    inference_total = 40;
    inference_failures_total = 0;
    thumbnail_failures_total = 0;
    last_processed_at = some 9;
    worker_running = true;
  });
  compliance = none;
  queue = record {
    frames_queued = 0;
    frames_dropped = 3;
    detections_queued = 0;
    alerts_queued = 0;
    evidence_queued = 0;
  };
  frames_held = 4;
  frames_evicted = 0;
  database = none;
}

-- the same, with the source disconnected and the worker stopped
abbrev halted : Application
halted = record backend {
  ingestion = some (record {
    stream_connected = false;
    last_frame_received_at = none;
    frames_received_total = 7;
    frames_sampled_total = 7;
    frames_dropped_total = 3;
    invalid_frames_total = 0;
    reconnect_count = 5;
  });
  inference = none;
}

shown-unmoved_example :
    (get_system_status py (some (health py backend)) 10
      ≡ get_system_status py (some (health py halted)) 10)
    × (get_cameras py (some (health py backend)) 10 ≡ get_cameras py (some (health py halted)) 10)
shown-unmoved_example = shown-unmoved py backend halted 10 refl refl refl

abbrev row : String → Micros → ViolationRow
row group time = record {
  group_id = group;
  camera_id = "cam-01";
  zone_id = "sink";
  track_id = 2;
  violation_type = "HANDWASH_ABSENCE";
  reason_code = some "ABSENCE_THRESHOLD_EXCEEDED";
  reason = some "late";
  confirmed_at = time;
  started_at = none;
  status = "CONFIRMED";
}

abbrev metric : Micros → ℕ → TemporalMetric
metric time washed = record {
  camera_id = "cam-01";
  zone_id = "sink";
  track_id = 2;
  evaluated_at = time;
  washing_duration = num washed;
}

abbrev rows : List ViolationRow
rows = row "a" 5 ∷ row "b" 8 ∷ []

abbrev metrics : List TemporalMetric
metrics = metric 4 1 ∷ metric 6 2 ∷ metric 9 3 ∷ []

get-api_violations_example :
    (get_violations py 10 (api_violations py (num 5) (some (rows, metrics)) (some "cam-01") 1)
      ≡ map (shown py (num 5) 10 metrics) (list_recent (some "cam-01") 1 rows))
    × IsLatest (row "b" 8) metrics (latest_metric (row "b" 8) metrics)
get-api_violations_example =
    get-api_violations py (num 5) 10 py-ReadsTimes rows metrics (some "cam-01") 1 (row "b" 8)
