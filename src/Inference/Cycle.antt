-- ===== src/Inference/Cycle.antt =====
-- backend/app/inference/engine.py: one cycle for a camera's zone. The thumbnails are a parameter;
-- debug frames and the annotated video, which are files, are left out.
use Prim.Native.Nat.{Ordering}
use Prim.Native.String.{compare}
use boars_head_compliance_de.Prelude.{
  ℕ, String, Bool, true, false, ◌&&◌, ◌||◌, Option, none, some, List, [], ◌∷◌, ◌++◌, if◌then◌else◌,
  ◌==◌, ltb, select,
}
use text.Mathlib.Text.{◌==◌ as str_eq}
use boars_head_compliance_de.Prelude.Dict.{Dict, string_eq, get, put}
use boars_head_compliance_de.Float.{Float, Micros}
use boars_head_compliance_de.Detection.{Detection, DetectionEvent, Bytes}
use boars_head_compliance_de.Serialization.{FrameEnvelope}
use boars_head_compliance_de.FrameStore.{FrameStore, take_frame}
use boars_head_compliance_de.Ingestion.{Image, ndarray}
use boars_head_compliance_de.Inference.{ModelSpec, Host, Result, ok, err}
use boars_head_compliance_de.Inference.Resolver.{Resolver, resolve}
use boars_head_compliance_de.Inference.Detector.{Runtime, infer}
use boars_head_compliance_de.Inference.Registry.{Registry, get_detector}

-- the two methods of ThumbnailGenerator
pub record Thumbnails : Type 0 where
  pub generate : Image → Option Bytes
  pub generate_annotated : Image → List Detection → Option Bytes

-- s < t
abbrev pub text_lt : String → String → Bool
text_lt s t = elim (compare s t) [ Ordering.lt ↦ true | _ ↦ false ]

-- (frame.shape[0], frame.shape[1]); an image of the frame store has these two dimensions
abbrev pub shape_of : Image → ℕ × ℕ
shape_of (ndarray (h ∷ w ∷ rest) pixels) = (h, w)
shape_of other = (0, 0)

module _ (host : Host) where
  -- the order of the keys (use_case, class_id, -confidence)
  unfoldable pub comes_before : Detection → Detection → Bool
  comes_before a b =
      text_lt a.use_case b.use_case
      || str_eq a.use_case b.use_case
        && (ltb a.class_id b.class_id
            || a.class_id == b.class_id && host.ops.lt b.confidence a.confidence)

  unfoldable pub insert : Detection → List Detection → List Detection
  insert d [] = d ∷ []
  insert d (e ∷ ds) = let later = insert d ds in if comes_before e d then e ∷ later else d ∷ e ∷ ds

  -- `sorted` by that key, which is stable
  unfoldable pub sort_detections : List Detection → List Detection
  sort_detections [] = []
  sort_detections (d ∷ ds) = insert d (sort_detections ds)

module _ (host : Host) (rt : Runtime) (thumbnails : Thumbnails) where
  open rt use {World}

  -- `_run_model`: a model that fails contributes nothing
  unfoldable pub run_model :
      ModelSpec → Image → Registry rt × World → List Detection × (Registry rt × World)
  run_model spec frame state =
      let (loaded, state') = get_detector host rt spec state in
      elim loaded [
        | none ↦ ([], state')
        | some detector ↦
            (let (found, world') = infer rt detector frame state'.1 in
              (elim found [ none ↦ [] | some detections ↦ detections ], (state'.0, world')))
      ]

  unfoldable pub run_models :
      List ModelSpec → Image → Registry rt × World → List Detection × (Registry rt × World)
  run_models [] frame state = ([], state)
  run_models (spec ∷ specs) frame state =
      let (detections, state') = run_model spec frame state in
      let (rest, state'') = run_models specs frame state' in (detections ++ rest, state'')

  -- {spec.use_case: spec.confidence_threshold for spec in specs}
  unfoldable pub display_thresholds : List ModelSpec → Dict String Float → Dict String Float
  display_thresholds [] thresholds = thresholds
  display_thresholds (spec ∷ specs) thresholds =
      display_thresholds specs (put spec.use_case spec.confidence_threshold thresholds)

  abbrev threshold_of : String → Dict String Float → Float
  threshold_of use_case thresholds = elim (get use_case thresholds) [
    | none ↦ host.ops.fraction 1 2
    | some x ↦ x
  ]

  unfoldable pub displayed : List ModelSpec → List Detection → List Detection
  displayed specs detections =
      let thresholds = display_thresholds specs [] in
      select (λ d. host.ops.le (threshold_of d.use_case thresholds) d.confidence) detections

  abbrev pub thumbnail_of : Bool → Image → List Detection → Option Bytes
  thumbnail_of draw_bboxes frame [] = thumbnails.generate frame
  thumbnail_of draw_bboxes frame (d ∷ ds) =
      if draw_bboxes
      then thumbnails.generate_annotated frame (d ∷ ds)
      else thumbnails.generate frame

  pub record Engine : Type 0 where
    pub zone_id : String
    pub resolver : Resolver
    pub draw_bboxes : Bool
    pub frame_store : FrameStore Image
    pub registry : Registry rt
    pub world : World

  -- steps 3 to 8 for the fetched frame
  unfoldable pub infer_frame :
      FrameEnvelope → Micros → List ModelSpec → Image → Engine → DetectionEvent × Engine
  infer_frame envelope now specs frame e =
      let (all_detections, (registry', world')) = run_models specs frame (e.registry, e.world) in
      let sorted_detections = sort_detections host all_detections in
      (
        record {
          camera_id = envelope.camera_id;
          zone_id = e.zone_id;
          frame_id = envelope.frame_id;
          captured_at = envelope.captured_at;
          processed_at = now;
          detections = sorted_detections;
          thumbnail = thumbnail_of e.draw_bboxes frame (displayed specs sorted_detections);
          correlation_id = envelope.correlation_id;
          source_fps = envelope.source_fps;
          frame_shape = shape_of frame;
        },
        record e { registry = registry'; world = world' },
      )

  unfoldable pub infer_fetched :
      Option Image
      → FrameEnvelope
      → Micros
      → List ModelSpec
      → Engine
      → Option DetectionEvent × Engine
  infer_fetched none envelope now specs e = (none, e)
  infer_fetched (some frame) envelope now specs e =
      let (event, e') = infer_frame envelope now specs frame e in (some event, e')

  unfoldable pub infer_resolved :
      Result (List ModelSpec) → FrameEnvelope → Micros → Engine → Option DetectionEvent × Engine
  infer_resolved (err fault) envelope now e = (none, e)
  infer_resolved (ok []) envelope now e = (none, e)
  infer_resolved (ok (spec ∷ specs)) envelope now e =
      let (fetched, frame_store') = take_frame envelope.frame_id e.frame_store in
      infer_fetched fetched envelope now (spec ∷ specs) (record e { frame_store = frame_store' })

  -- `process`: the event that is published, if one is
  unfoldable pub infer_envelope : FrameEnvelope → Micros → Engine → Option DetectionEvent × Engine
  infer_envelope envelope now e =
      infer_resolved (resolve host envelope.camera_id e.zone_id e.resolver) envelope now e
