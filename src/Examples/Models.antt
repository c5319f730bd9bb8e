-- ===== src/Examples/Models.antt =====
-- One camera with two models, and what they see in a frame.
use boars_head_compliance_de.Prelude.{
  ℕ, ◌≡◌, refl, String, true, false, Option, none, some, List, [], ◌∷◌, arith, All,
}
use boars_head_compliance_de.Prelude.Dict.{string_eq, nat_eq, get, put}
use text.Mathlib.Text.{◌==◌ as str_eq}
use boars_head_compliance_de.Float.{Float, seconds}
use boars_head_compliance_de.Detection.{Detection, DetectionEvent}
use boars_head_compliance_de.Serialization.{
  Json, int, float, str, array, object, nil, cons, Fields, end, field, FrameEnvelope, find,
}
use boars_head_compliance_de.FrameStore.{take_frame}
use boars_head_compliance_de.Ingestion.{Image, ndarray}
use boars_head_compliance_de.Inference.{
  ModelSpec, Host, ok, ◌>>=◌, ◌>>◌, guard, or_fail, check_spec,
}
use boars_head_compliance_de.Inference.Resolver.{
  Resolver, build_spec, build_entry, build_entries, build_specs, build_cameras, lookup_models, seen,
  dedupe, build_zones, new_resolver, resolve,
}
use boars_head_compliance_de.Inference.Distinct.{HasDistinctPaths}
use boars_head_compliance_de.Inference.Specs.{IsValid, resolve-ready}
use boars_head_compliance_de.Inference.Detector.{
  Runtime, Detector, RawBox, infer, detections_of, detections_of_boxes,
}
use boars_head_compliance_de.Inference.Registry.{
  Registry, load_and_warm, load_missing, answer, get_detector, get_all, get_detector-once,
}
use boars_head_compliance_de.Inference.Cycle.{
  Thumbnails, Engine, infer_envelope, infer_resolved, infer_fetched, infer_frame, run_models,
  run_model, sort_detections, insert, comes_before, displayed, display_thresholds,
}
use boars_head_compliance_de.Inference.Order.{IsAsymmetric, IsMerged, infer_envelope-IsMerged}
use boars_head_compliance_de.Examples.Persons.{whole, num}

abbrev int_of : Json → Option ℕ
int_of (int n) = some n
int_of other = none

abbrev float_of : Json → Option Float
float_of (float x) = some x
float_of other = none

abbrev pub host : Host
host = record {
  ops = whole;
  to_int = int_of;
  to_float = float_of;
  is_blank = λ s. str_eq s "";
  normalised = λ s. s;
}

abbrev model : String → Json
model path = object (
    field "path" (str path) (field "confidence" (float (num 1)) (field "image_size" (int 640) end)))

-- two models of one file and one of another
abbrev config : Fields
config =
    field "models"
      (object (
        field "hands" (model "a.pt")
          (field "people" (model "b.pt") (field "again" (model "a.pt") end))))
      (field "cameras"
        (object (field "cam" (object (field "zones" (array (cons (str "sink") nil)) end)) end))
        (field "zones"
          (object (
            field "sink"
              (object (
                field "models"
                  (array (cons (str "hands") (cons (str "people") (cons (str "again") nil)))) end))
              end))
          end))

abbrev pub spec_of : String → String → ModelSpec
spec_of use_case path = record {
  use_case = use_case;
  model_path = path;
  confidence_threshold = num 1;
  device = "cpu";
  image_size = 640;
  tracker = none;
  presence_confidence_threshold = none;
}

abbrev specs : List ModelSpec
specs = spec_of "hands" "a.pt" ∷ spec_of "people" "b.pt" ∷ []

abbrev resolver : Resolver
resolver = record {
  camera_zones = ("cam", cons (str "sink") nil) ∷ [];
  zone_models = ("sink", specs) ∷ [];
}

built : new_resolver host config ≡ ok resolver
unfolding new_resolver build_specs build_entries build_entry build_spec build_cameras build_zones
    lookup_models dedupe seen check_spec guard or_fail ◌>>=◌ ◌>>◌ get put find
built = refl

resolved : resolve host "cam" "sink" resolver ≡ ok specs
unfolding resolve or_fail ◌>>=◌ get
resolved = refl

resolve-ready_example : All (IsValid host) specs × HasDistinctPaths host specs
resolve-ready_example = resolve-ready host config resolver "cam" "sink" specs built resolved

-- a library that loads every file, and finds one box of the confidence 1 in every frame
abbrev box : RawBox
box = record {
  cls = 0;
  xyxy = record { x1 = num 1; y1 = num 1; x2 = num 2; y2 = num 2 };
  id = none;
  conf = num 1;
}

abbrev pub runtime : Runtime
runtime = record {
  World = ℕ;
  Model = String;
  load = λ path n. (some path, n);
  call = λ tracker m image size conf device n.
      (some (record { names = []; boxes = some (box ∷ []) } ∷ []), n);
  str_of = λ n. "person";
}

abbrev thumbnails : Thumbnails
thumbnails = record { generate = λ image. none; generate_annotated = λ image ds. none }

abbrev empty_registry : Registry runtime
empty_registry = record { warmup = false; cache = [] }

abbrev hands_detector : Detector runtime
hands_detector = record { model = "a.pt"; spec = spec_of "hands" "a.pt" }

abbrev after : Registry runtime × ℕ
after =
    get_all host runtime (spec_of "people" "b.pt" ∷ [])
      (get_detector host runtime (spec_of "hands" "a.pt") (empty_registry, 0)).1

loads_first :
    (get_detector host runtime (spec_of "hands" "a.pt") (empty_registry, 0)).0 ≡ some hands_detector
unfolding get_detector answer load_missing load_and_warm get
loads_first = refl

get_detector-once_example :
    get_detector host runtime (spec_of "again" "a.pt") after ≡ (some hands_detector, after)
get_detector-once_example =
    get_detector-once host runtime (spec_of "hands" "a.pt") (spec_of "again" "a.pt")
      (spec_of "people" "b.pt" ∷ []) (empty_registry, 0) hands_detector loads_first refl

abbrev image : Image
image = ndarray (480 ∷ 640 ∷ 3 ∷ []) 1

abbrev engine : Engine host runtime thumbnails
engine = record {
  zone_id = "sink";
  resolver = resolver;
  draw_bboxes = true;
  frame_store = record {
    ttl = seconds 30;
    store = (4, record { frame = image; inserted_at = 0 }) ∷ [];
    evicted_total = 0;
  };
  registry = empty_registry;
  world = 0;
}

abbrev envelope : FrameEnvelope
envelope = record {
  camera_id = "cam";
  frame_id = 4;
  captured_at = 0;
  received_at = 0;
  topic = "ingestion.frames";
  correlation_id = "id";
  session_id = "";
  source_fps = 25000;
}

abbrev person_of : String → Detection
person_of use_case = record {
  class_id = 0;
  class_name = "person";
  bbox = box.xyxy;
  confidence = num 1;
  use_case = use_case;
  track_id = none;
}

abbrev event : DetectionEvent
event = record {
  camera_id = "cam";
  zone_id = "sink";
  frame_id = 4;
  captured_at = 0;
  processed_at = 7;
  detections = person_of "hands" ∷ person_of "people" ∷ [];
  thumbnail = none;
  correlation_id = "id";
  source_fps = 25000;
  frame_shape = (480, 640);
}

asymmetric : IsAsymmetric host
asymmetric x y h = ground arith

publishes : (infer_envelope host runtime thumbnails envelope 7 engine).0 ≡ some event
unfolding infer_envelope infer_resolved infer_fetched infer_frame run_models run_model
    sort_detections insert comes_before displayed display_thresholds resolve or_fail ◌>>=◌
    take_frame get put get_detector answer load_missing load_and_warm infer detections_of
    detections_of_boxes
publishes = refl

infer_envelope-IsMerged_example : IsMerged host runtime thumbnails envelope engine event
infer_envelope-IsMerged_example =
    infer_envelope-IsMerged host runtime thumbnails envelope 7 engine event asymmetric publishes
