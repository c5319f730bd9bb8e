-- ===== src/Inference/Resolver.antt =====
-- backend/app/inference/resolver/static.py
use boars_head_compliance_de.Prelude.{
  String, Bool, true, false, not, ◌||◌, Option, none, some, List, [], ◌∷◌, if◌then◌else◌, ◌==◌,
}
use Prim.Native.String.{◌++◌ as ◌++ₛ◌}
use text.Mathlib.Text.{◌==◌ as str_eq}
use boars_head_compliance_de.Prelude.Dict.{Dict, string_eq, get, put}
use boars_head_compliance_de.Float.{Float}
use boars_head_compliance_de.Serialization.{
  Json, null, boolean, int, float, rate, str, array, object, Items, nil, cons, Fields, end, field,
  find, as_text,
}
use boars_head_compliance_de.Inference.{
  ModelSpec, Host, Fault, model_config, unknown_model, unknown_camera, unknown_zone, uncaught,
  Result, ok, err, ◌>>=◌, ◌>>◌, guard, or_fail, check_spec,
}

-- `not x`
abbrev pub is_falsy : Json → Bool
is_falsy null = true
is_falsy (boolean b) = not b
is_falsy (int n) = n == 0
is_falsy (float x) = x.bits == 0
is_falsy (rate x) = x == 0
is_falsy (str s) = str_eq s ""
is_falsy (array nil) = true
is_falsy (array (cons j js)) = false
is_falsy (object end) = true
is_falsy (object (field k j rest)) = false

-- d.get(key, default)
abbrev get_default : String → Json → Fields → Json
get_default key default d = elim (find key d) [ none ↦ default | some j ↦ j ]

-- config.get(key, {}), which may not be empty, and its items
abbrev section : String → Fields → Result Fields
section key config = elim (get_default key (object end) config) [
  | object (field k j rest) ↦ ok (field k j rest)
  | other ↦ if is_falsy other then err (model_config key) else err uncaught
]

-- sub_cfg.get("tracker") or None
abbrev tracker_of : Json → Result (Option String)
tracker_of (str s) = ok (if str_eq s "" then none else some s)
tracker_of other = if is_falsy other then ok none else err uncaught

abbrev pub Specs : Type 0
Specs = Dict String ModelSpec

pub record Resolver : Type 0 where
  pub camera_zones : Dict String Items
  pub zone_models : Dict String (List ModelSpec)

module _ (host : Host) where
  open host use {to_int, to_float, normalised}

  -- float(x) if x is not None else None
  abbrev optional_float : Fault → Option Json → Result (Option Float)
  optional_float fault none = ok none
  optional_float fault (some null) = ok none
  optional_float fault (some j) = or_fail (to_float j) fault >>= λ x. ok (some x)

  -- ModelSpec(...) with the defaults for the device and the image size
  unfoldable pub build_spec : String → Json → Json → Json → Fields → Result ModelSpec
  build_spec spec_key use_case device image_size cfg = do
    let fault = model_config spec_key
    path ← or_fail (find "path" cfg) fault
    confidence ←
        or_fail (to_float (get_default "confidence" (float (host.ops.fraction 1 2)) cfg)) fault
    size ← or_fail (to_int (get_default "image_size" image_size cfg)) fault
    tracker ← tracker_of (get_default "tracker" null cfg)
    presence ← optional_float fault (find "presence_confidence" cfg)
    use_case' ← or_fail (as_text use_case) uncaught
    guard (not (host.is_blank use_case')) fault
    path' ← or_fail (as_text path) uncaught
    device' ← or_fail (as_text (get_default "device" device cfg)) fault
    check_spec host fault (record {
      use_case = use_case';
      model_path = path';
      confidence_threshold = confidence;
      device = device';
      image_size = size;
      tracker = tracker;
      presence_confidence_threshold = presence;
    })

  -- the loop over a nested group; `name` is the group's
  unfoldable pub build_nested : String → Json → Json → Json → Fields → Specs → Result Specs
  build_nested name use_case device image_size end specs = ok specs
  build_nested name use_case device image_size (field sub_name sub_cfg rest) specs = elim sub_cfg [
    | object cfg ↦ elim (find "path" cfg) [
      | none ↦ build_nested name use_case device image_size rest specs
      | some path ↦
          (let key = name ++ₛ "." ++ₛ sub_name in
            build_spec key use_case device image_size cfg >>= λ spec.
            build_nested name use_case device image_size rest (put key spec specs))
    ]
    | other ↦ build_nested name use_case device image_size rest specs
  ]

  -- one entry of `models:`
  unfoldable pub build_entry : String → Json → Specs → Result Specs
  build_entry name (object mcfg) specs =
      let use_case = get_default "use_case" (str name) mcfg in
      elim (find "path" mcfg) [
        | none ↦ or_fail (to_int (get_default "image_size" (int 640) mcfg)) uncaught >>= λ size.
            build_nested name use_case (get_default "device" (str "cpu") mcfg) (int size) mcfg specs
        | some path ↦
            build_spec name use_case (str "cpu") (int 640) mcfg >>= λ spec. ok (put name spec specs)
      ]
  build_entry name other specs = err uncaught

  unfoldable pub build_entries : Fields → Specs → Result Specs
  build_entries end specs = ok specs
  build_entries (field name mcfg rest) specs =
      build_entry name mcfg specs >>= λ specs'. build_entries rest specs'

  unfoldable pub build_specs : Fields → Result Specs
  build_specs config = section "models" config >>= λ models. build_entries models []

  unfoldable pub build_cameras : Fields → Result (Dict String Items)
  build_cameras end = ok []
  build_cameras (field cam_id (object cfg) rest) = elim (get_default "zones" (array nil) cfg) [
    | array zones ↦ build_cameras rest >>= λ cameras. ok ((cam_id, zones) ∷ cameras)
    | other ↦ err (model_config cam_id)
  ]
  build_cameras (field cam_id other rest) = err uncaught

  -- the names of a zone's models, looked up; a list or a dict is not hashable, and the error for
  -- another value that is no text is left without its name
  unfoldable pub lookup_models : Specs → Items → Result (List ModelSpec)
  lookup_models specs nil = ok []
  lookup_models specs (cons (str name) names) = elim (get name specs) [
    | none ↦ err (unknown_model name)
    | some spec ↦ lookup_models specs names >>= λ rest. ok (spec ∷ rest)
  ]
  lookup_models specs (cons (array items) names) = err uncaught
  lookup_models specs (cons (object fields) names) = err uncaught
  lookup_models specs (cons other names) = err (unknown_model "")

  unfoldable pub seen : String → List String → Bool
  seen key [] = false
  seen key (k ∷ keys) = str_eq k key || seen key keys

  -- the loop that keeps the first model of each path
  unfoldable pub dedupe : List String → List ModelSpec → List ModelSpec
  dedupe seen_paths [] = []
  dedupe seen_paths (spec ∷ specs) =
      let key = normalised spec.model_path in
      let more = spec ∷ dedupe (key ∷ seen_paths) specs in
      let same = dedupe seen_paths specs in if seen key seen_paths then same else more

  unfoldable pub build_zones : Specs → Fields → Result (Dict String (List ModelSpec))
  build_zones specs end = ok []
  build_zones specs (field zone_id (object cfg) rest) =
      elim (get_default "models" (array nil) cfg) [
        | array names ↦ lookup_models specs names >>= λ models.
            build_zones specs rest >>= λ zones. ok ((zone_id, dedupe [] models) ∷ zones)
        | other ↦ err (model_config zone_id)
      ]
  build_zones specs (field zone_id other rest) = err uncaught

  -- `__init__`
  unfoldable pub new_resolver : Fields → Result Resolver
  new_resolver config = do
    specs ← build_specs config
    cameras ← section "cameras" config >>= build_cameras
    zones ← section "zones" config >>= build_zones specs
    ok (record { camera_zones = cameras; zone_models = zones })

  unfoldable pub resolve : String → String → Resolver → Result (List ModelSpec)
  resolve camera_id zone_id r =
      or_fail (get camera_id r.camera_zones) (unknown_camera camera_id) >>= λ zones.
      or_fail (get zone_id r.zone_models) (unknown_zone zone_id)

  unfoldable pub zones_for_camera : String → Resolver → Result Items
  zones_for_camera camera_id r = or_fail (get camera_id r.camera_zones) (unknown_camera camera_id)
