-- ===== src/Inference/Registry.antt =====
-- backend/app/inference/registry.py: the cache of detectors by the path of their model. The calls of
-- `get` come one after another here, so the second look into the cache, under the lock, is the first.
use boars_head_compliance_de.Prelude.{
  ℕ, String, ◌≡◌, refl, ap, ◌∙◌, Bool, Option, none, some, List, [], ◌∷◌, arith, if◌then◌else◌,
}
use boars_head_compliance_de.Prelude.Dict.{Dict, string_eq, get, put, get-put, get-put_self}
use boars_head_compliance_de.Ingestion.{Image, ndarray}
use boars_head_compliance_de.Inference.{ModelSpec, Host}
use boars_head_compliance_de.Inference.Detector.{Runtime, Detector, infer}

pub record Registry (rt : Runtime) : Type 0 where
  pub warmup : Bool
  pub cache : Dict String (Detector rt)

module _ (host : Host) (rt : Runtime) where
  open rt use {World, Model}

  -- np.zeros((n, n, 3))
  abbrev pub dummy : ℕ → Image
  dummy n = ndarray (n ∷ n ∷ 3 ∷ []) 0

  -- `_load_and_warm`; an exception of the warm-up is logged
  unfoldable pub load_and_warm : Bool → ModelSpec → World → Option (Detector rt) × World
  load_and_warm warmup spec world =
      let (loaded, world') = rt.load spec.model_path world in
      elim loaded [
        | none ↦ (none, world')
        | some model ↦
            (let detector : Detector rt = record { model = model; spec = spec } in
              (
                some detector,
                if warmup then (infer rt detector (dummy spec.image_size) world').1 else world',
              ))
      ]

  abbrev pub key_of : ModelSpec → String
  key_of spec = host.normalised spec.model_path

  abbrev pub keep : String → Option (Detector rt) → Registry rt → Registry rt
  keep key none registry = registry
  keep key (some detector) registry = record registry { cache = put key detector registry.cache }

  -- the part of `get` under the lock
  unfoldable pub load_missing :
      ModelSpec → Registry rt → World → Option (Detector rt) × (Registry rt × World)
  load_missing spec registry world =
      let (loaded, world') = load_and_warm registry.warmup spec world in
      (loaded, (keep (key_of spec) loaded registry, world'))

  unfoldable pub answer :
      Option (Detector rt)
      → ModelSpec
      → Registry rt
      → World
      → Option (Detector rt) × (Registry rt × World)
  answer (some detector) spec registry world = (some detector, (registry, world))
  answer none spec registry world = load_missing spec registry world

  -- `get`; `none` is a ModelLoadError
  unfoldable pub get_detector :
      ModelSpec → Registry rt × World → Option (Detector rt) × (Registry rt × World)
  get_detector spec (registry, world) =
      answer (get (key_of spec) registry.cache) spec registry world

  -- calls one after another
  unfoldable pub get_all : List ModelSpec → Registry rt × World → Registry rt × World
  get_all [] state = state
  get_all (spec ∷ specs) state = get_all specs (get_detector spec state).1

  abbrev cached : String → Registry rt × World → Option (Detector rt)
  cached key state = get key state.0.cache

  get_detector-cached :
      (spec : ModelSpec) (state : Registry rt × World) (d : Detector rt)
      → cached (key_of spec) state ≡ some d
      → get_detector spec state ≡ (some d, state)
  unfolding get_detector answer
  get_detector-cached spec (registry, world) d h = ap (λ o. answer o spec registry world) h

  get-keep :
      (key : String) (o : Option (Detector rt)) (registry : Registry rt) (d : Detector rt)
      → o ≡ some d
      → get key (keep key o registry).cache ≡ some d
  get-keep key o registry d h = rw h (get-put_self key d registry.cache)

  answer-cached :
      (o : Option (Detector rt)) (spec : ModelSpec) (registry : Registry rt) (world : World)
      (d : Detector rt)
      → get (key_of spec) registry.cache ≡ o
      → (answer o spec registry world).0 ≡ some d
      → cached (key_of spec) (answer o spec registry world).1 ≡ some d
  unfolding answer load_missing
  answer-cached (some e) spec registry world d found h = found ∙ h
  answer-cached none spec registry world d found h = get-keep (key_of spec) _ registry d h

  cached-get_detector :
      (spec : ModelSpec) (state : Registry rt × World) (d : Detector rt)
      → (get_detector spec state).0 ≡ some d
      → cached (key_of spec) (get_detector spec state).1 ≡ some d
  unfolding get_detector
  cached-get_detector spec (registry, world) d h = answer-cached _ spec registry world d refl h

  get-keep_stays :
      (key other : String) (o : Option (Detector rt)) (registry : Registry rt) (d : Detector rt)
      → get other registry.cache ≡ none
      → get key registry.cache ≡ some d
      → get key (keep other o registry).cache ≡ some d
  get-keep_stays key other none registry d missing h = h
  get-keep_stays key other (some e) registry d missing h =
      ground (arith, get-put other key e registry.cache, string_eq.beq_iff other key)

  answer-stays :
      (key : String) (o : Option (Detector rt)) (spec : ModelSpec) (registry : Registry rt)
      (world : World) (d : Detector rt)
      → get (key_of spec) registry.cache ≡ o
      → get key registry.cache ≡ some d
      → cached key (answer o spec registry world).1 ≡ some d
  unfolding answer load_missing
  answer-stays key (some e) spec registry world d found h = h
  answer-stays key none spec registry world d found h =
      get-keep_stays key (key_of spec) _ registry d found h

  -- a detector that is in the cache stays there
  cached-stays :
      (key : String) (spec : ModelSpec) (state : Registry rt × World) (d : Detector rt)
      → cached key state ≡ some d
      → cached key (get_detector spec state).1 ≡ some d
  unfolding get_detector
  cached-stays key spec (registry, world) d h = answer-stays key _ spec registry world d refl h

  get_all-cached :
      (key : String) (specs : List ModelSpec) (state : Registry rt × World) (d : Detector rt)
      → cached key state ≡ some d
      → cached key (get_all specs state) ≡ some d
  unfolding get_all
  get_all-cached key [] state d h = h
  get_all-cached key (spec ∷ specs) state d h =
      get_all-cached key specs (get_detector spec state).1 d (cached-stays key spec state d h)

  -- Once a call of `get` has returned a detector, any later call for a model of the same normalised
  -- path returns this detector and loads nothing, whatever calls come in between; so the detector
  -- keeps the settings of the first model.
  pub get_detector-once :
      (first later : ModelSpec) (between : List ModelSpec) (state : Registry rt × World)
      (d : Detector rt)
      → (get_detector first state).0 ≡ some d
      → key_of later ≡ key_of first
      → get_detector later (get_all between (get_detector first state).1)
        ≡ (some d, get_all between (get_detector first state).1)
  get_detector-once first later between state d got same =
      get_detector-cached later _ d (
        rw same (get_all-cached (key_of first) between _ d (cached-get_detector first state d got)))
