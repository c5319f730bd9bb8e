-- ===== src/Inference/Specs.antt =====
-- backend/app/inference/resolver/static.py: what the resolver hands out has passed the checks of
-- backend/app/inference/model_spec.py, and the models of a zone are of different files.
use boars_head_compliance_de.Prelude.{String, ◌≡◌, true, false, List, [], All, ◌==◌}
use boars_head_compliance_de.Prelude.Dict.{Dict, string_eq, get}
use boars_head_compliance_de.Serialization.{
  Json, str, array, object, Items, nil, cons, Fields, end, field, find,
}
use boars_head_compliance_de.Inference.{
  ModelSpec, Host, Fault, ok, check_spec, is_fraction, is_device, presence_ok,
}
use boars_head_compliance_de.Inference.Resolver.{
  Specs, build_spec, build_nested, build_entry, build_entries, build_specs, lookup_models,
  build_zones, Resolver, new_resolver, resolve,
}
use boars_head_compliance_de.Inference.Ensures.{
  Ensures, Ensures-ok, Ensures-bind, Ensures-then, Ensures-guard, Ensures-or_fail, Ensures-elim,
  Ensures-array, not-eq-true, AllValues, put-AllValues, get-AllValues,
}
use boars_head_compliance_de.Inference.Distinct.{HasDistinctPaths, dedupe-distinct, All-dedupe}

module _ (host : Host) where
  open host use {normalised, is_blank}

  -- what the code checks of a model at its construction
  pub record IsValid (s : ModelSpec) : Type 0 where
    pub named : is_blank s.use_case ≡ false
    pub located : is_blank s.model_path ≡ false
    pub confident : is_fraction host s.confidence_threshold ≡ true
    pub device : is_device host s.device ≡ true
    pub sized : (s.image_size == 0) ≡ false
    pub presence : presence_ok host s.presence_confidence_threshold s.confidence_threshold ≡ true

  check_spec-IsValid : (fault : Fault) (s : ModelSpec) → Ensures IsValid (check_spec host fault s)
  unfolding check_spec Ensures
  check_spec-IsValid fault s = Ensures-guard IsValid _ fault _ λ a1.
      Ensures-guard IsValid _ fault _ λ a2. Ensures-guard IsValid _ fault _ λ a3.
        Ensures-guard IsValid _ fault _ λ a4. Ensures-guard IsValid _ fault _ λ a5.
          Ensures-guard IsValid _ fault _ λ a6. record {
            named = not-eq-true _ a1;
            located = not-eq-true _ a2;
            confident = a3;
            device = a4;
            sized = not-eq-true _ a5;
            presence = a6;
          }

  build_spec-IsValid :
      (key : String) (use_case device size : Json) (cfg : Fields)
      → Ensures IsValid (build_spec host key use_case device size cfg)
  unfolding build_spec
  build_spec-IsValid key use_case device size cfg = Ensures-then IsValid _ _ λ path.
      Ensures-then IsValid _ _ λ confidence. Ensures-then IsValid _ _ λ image.
        Ensures-then IsValid _ _ λ tracker. Ensures-then IsValid _ _ λ presence.
          Ensures-then IsValid _ _ λ use_case'. Ensures-guard IsValid _ _ _ λ named.
            Ensures-then IsValid _ _
              λ path'. Ensures-then IsValid _ _ λ device'. check_spec-IsValid _ _

  abbrev AllValid : Specs → Type 0
  AllValid = AllValues IsValid

  build_nested-AllValid :
      (name : String) (use_case device size : Json) (fields : Fields) (specs : Specs)
      → AllValid specs
      → Ensures AllValid (build_nested host name use_case device size fields specs)
  unfolding build_nested Ensures
  build_nested-AllValid name u d s end specs h = h
  build_nested-AllValid name u d s (field sub (object cfg) rest) specs h =
      Ensures-elim AllValid (find "path" cfg) _ _ (build_nested-AllValid name u d s rest specs h)
        λ path found.
          Ensures-bind IsValid AllValid _ _ (build_spec-IsValid _ u d s cfg) λ spec v.
            build_nested-AllValid name u d s rest _ (put-AllValues IsValid _ spec specs v h)
  build_nested-AllValid name u d s (field sub other rest) specs h =
      build_nested-AllValid name u d s rest specs h

  build_entry-AllValid :
      (name : String) (mcfg : Json) (specs : Specs)
      → AllValid specs
      → Ensures AllValid (build_entry host name mcfg specs)
  unfolding build_entry Ensures
  build_entry-AllValid name (object mcfg) specs h =
      Ensures-elim AllValid (find "path" mcfg) _ _
        (Ensures-then AllValid _ _ λ size. build_nested-AllValid name _ _ _ mcfg specs h)
        λ path found.
          Ensures-bind IsValid AllValid _ _ (build_spec-IsValid name _ _ _ mcfg)
            λ spec v. put-AllValues IsValid name spec specs v h
  build_entry-AllValid name other specs h = tt

  build_entries-AllValid :
      (fields : Fields) (specs : Specs)
      → AllValid specs
      → Ensures AllValid (build_entries host fields specs)
  unfolding build_entries Ensures
  build_entries-AllValid end specs h = h
  build_entries-AllValid (field name mcfg rest) specs h =
      Ensures-bind AllValid AllValid _ _ (build_entry-AllValid name mcfg specs h)
        λ specs' h'. build_entries-AllValid rest specs' h'

  build_specs-AllValid : (config : Fields) → Ensures AllValid (build_specs host config)
  unfolding build_specs AllValues
  build_specs-AllValid config =
      Ensures-then AllValid _ _ λ models. build_entries-AllValid models [] tt

  lookup_models-AllValid :
      (specs : Specs) (names : Items)
      → AllValid specs
      → Ensures (All IsValid) (lookup_models host specs names)
  unfolding lookup_models Ensures
  lookup_models-AllValid specs nil h = tt
  lookup_models-AllValid specs (cons (str name) names) h =
      Ensures-elim (All IsValid) (get name specs) _ _ tt λ spec found.
        Ensures-bind (All IsValid) (All IsValid) _ _ (lookup_models-AllValid specs names h)
          λ rest w. (get-AllValues IsValid name specs spec h found, w)
  lookup_models-AllValid specs (cons (array items) names) h = tt
  lookup_models-AllValid specs (cons (object fields) names) h = tt
  lookup_models-AllValid specs (cons other names) h = tt

  -- the models of every zone
  HasReadyZones : Dict String (List ModelSpec) → Type 0
  HasReadyZones = AllValues (λ specs. All IsValid specs × HasDistinctPaths host specs)

  build_zones-HasReadyZones :
      (specs : Specs) (fields : Fields)
      → AllValid specs
      → Ensures HasReadyZones (build_zones host specs fields)
  unfolding build_zones Ensures HasReadyZones AllValues
  build_zones-HasReadyZones specs end h = tt
  build_zones-HasReadyZones specs (field zone_id (object cfg) rest) h =
      Ensures-array HasReadyZones _ _ _ λ names.
        Ensures-bind (All IsValid) HasReadyZones _ _ (lookup_models-AllValid specs names h)
          λ models v.
            Ensures-bind HasReadyZones HasReadyZones _ _ (build_zones-HasReadyZones specs rest h)
              λ zones w.
                ((All-dedupe host IsValid [] models v, (dedupe-distinct host [] models).1), w)
  build_zones-HasReadyZones specs (field zone_id other rest) h = tt

  new_resolver-HasReadyZones :
      (config : Fields) → Ensures (λ r. HasReadyZones r.zone_models) (new_resolver host config)
  unfolding new_resolver Ensures
  new_resolver-HasReadyZones config =
      Ensures-bind AllValid _ _ _ (build_specs-AllValid config) λ specs valid.
        Ensures-then _ _ _ λ cameras.
          Ensures-bind HasReadyZones _ _ _
            (Ensures-then HasReadyZones _ _ λ zones. build_zones-HasReadyZones specs zones valid)
            λ zones ready. ready

  -- From a resolver that was built from a configuration, the models of a camera's zone have all
  -- passed the checks of a model, and no two of them are of the same file.
  pub resolve-ready :
      (config : Fields) (r : Resolver) (camera_id zone_id : String) (specs : List ModelSpec)
      → new_resolver host config ≡ ok r
      → resolve host camera_id zone_id r ≡ ok specs
      → All IsValid specs × HasDistinctPaths host specs
  unfolding resolve AllValues HasReadyZones
  resolve-ready config r camera_id zone_id specs built resolved =
      Ensures-ok _ (resolve host camera_id zone_id r)
        (Ensures-then _ _ _ λ zones. Ensures-or_fail _ (get zone_id r.zone_models) _ λ models found.
          get-AllValues _ zone_id r.zone_models models
            (Ensures-ok _ (new_resolver host config) (new_resolver-HasReadyZones config) built)
            found)
        resolved
