-- ===== src/Inference/Detector.antt =====
-- backend/app/inference/yolo_detector.py and loader.py: one model and its run on a frame. The model
-- library is a parameter: its state, which its tracker changes, is passed along.
use boars_head_compliance_de.Prelude.{
  ℕ, String, Option, none, some, List, [], ◌∷◌, ◌++◌, if◌then◌else◌,
}
use text.Mathlib.Text.{◌==◌ as str_eq}
use boars_head_compliance_de.Prelude.Dict.{Dict, nat_eq, get}
use boars_head_compliance_de.Float.{Float}
use boars_head_compliance_de.Detection.{Detection, BoundingBox}
use boars_head_compliance_de.Ingestion.{Image}
use boars_head_compliance_de.Inference.{ModelSpec}

-- the entries of `result.boxes`, and a result
pub record RawBox : Type 0 where
  pub cls : ℕ
  pub xyxy : BoundingBox
  pub id : Option ℕ
  pub conf : Float

pub record RawResult : Type 0 where
  pub names : Dict ℕ String
  pub boxes : Option (List RawBox)

-- ultralytics.YOLO: `YOLO(path)`, and a model called on a frame with a tracker or without, the image
-- size, the confidence and the device. `none` is an exception. `str_of` is str(n).
pub record Runtime : Type 1 where
  pub World : Type 0
  pub Model : Type 0
  pub load : String → World → Option Model × World
  pub call :
      Option String → Model → Image → ℕ → Float → String → World → Option (List RawResult) × World
  pub str_of : ℕ → String

module _ (rt : Runtime) where
  open rt use {World, Model}

  pub record Detector : Type 0 where
    pub model : Model
    pub spec : ModelSpec

  abbrev infer_conf : ModelSpec → Float
  infer_conf spec = elim spec.presence_confidence_threshold [
    | none ↦ spec.confidence_threshold
    | some presence ↦ presence
  ]

  -- `if self._spec.tracker`
  abbrev tracker_of : Option String → Option String
  tracker_of none = none
  tracker_of (some name) = if str_eq name "" then none else some name

  -- names.get(cls_id, str(cls_id))
  abbrev class_name_of : ℕ → Dict ℕ String → String
  class_name_of cls_id names = elim (get cls_id names) [
    | none ↦ rt.str_of cls_id
    | some name ↦ name
  ]

  abbrev detection_of : String → Dict ℕ String → RawBox → Detection
  detection_of use_case names box = record {
    class_id = box.cls;
    class_name = class_name_of box.cls names;
    bbox = box.xyxy;
    confidence = box.conf;
    use_case = use_case;
    track_id = box.id;
  }

  unfoldable pub detections_of_boxes : String → Dict ℕ String → List RawBox → List Detection
  detections_of_boxes use_case names [] = []
  detections_of_boxes use_case names (box ∷ boxes) =
      detection_of use_case names box ∷ detections_of_boxes use_case names boxes

  unfoldable pub detections_of : String → List RawResult → List Detection
  detections_of use_case [] = []
  detections_of use_case (result ∷ results) =
      let rest = detections_of use_case results in
      elim result.boxes [
        | none ↦ rest
        | some boxes ↦ detections_of_boxes use_case result.names boxes ++ rest
      ]

  -- `none` is an InferenceRuntimeError
  unfoldable pub infer : Detector → Image → World → Option (List Detection) × World
  infer d frame world =
      let (results, world') =
        rt.call (tracker_of d.spec.tracker) d.model frame d.spec.image_size (infer_conf d.spec)
          d.spec.device world in
      (
        elim results [ none ↦ none | some found ↦ some (detections_of d.spec.use_case found) ],
        world',
      )
