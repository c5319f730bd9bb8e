-- ===== src/Inference/Order.antt =====
-- backend/app/inference/engine.py: the detections of a published event.
use Prim.Native.String.{compare}
use mathlib.Core.List.{Perm}
use mathlib.Core.List.Perm
use text.Mathlib.Text.{◌==◌ as str_eq}
use text.Mathlib.TextEquality.{eq_iff}
use mathlib.Core.Option.{some-injective}
use boars_head_compliance_de.Prelude.{
  ℕ, Bool, ◌&&◌, ◌||◌, ltb, ◌==◌, ◌≡◌, ◌≤◌, refl, ap, sym, subst, ◌∙◌, true, false, Option, none,
  some, List, [], ◌∷◌, ◌++◌, ◌⊎◌, inl, inr, arith, Bool-cases,
}
use boars_head_compliance_de.Inference.Keys.{
  compare-swap, compare-swap_same, first_less, first_less-asym, later_keys, later_keys-asym,
  text_keys,
}
use boars_head_compliance_de.Float.{Float, Micros}
use boars_head_compliance_de.Detection.{Detection, DetectionEvent}
use boars_head_compliance_de.Serialization.{FrameEnvelope}
use boars_head_compliance_de.FrameStore.{take_frame}
use boars_head_compliance_de.Ingestion.{Image}
use boars_head_compliance_de.Inference.{ModelSpec, Host, Result, ok, err}
use boars_head_compliance_de.Inference.Resolver.{resolve}
use boars_head_compliance_de.Inference.Detector.{Runtime, Detector, infer}
use boars_head_compliance_de.Inference.Registry.{Registry, get_detector}
use boars_head_compliance_de.Inference.Cycle.{
  Thumbnails, text_lt, comes_before, insert, sort_detections, run_model, run_models, Engine,
  infer_frame, infer_fetched, infer_resolved, infer_envelope,
}

lesser_keys :
    (a b : Bool) (m n : ℕ) (c : Bool)
    → (a || b && (ltb m n || m == n && c)) ≡ false
    → (a ≡ false) × ((b ≡ false) ⊎ ((n ≤ m) × (¬ (m ≡ n) ⊎ (c ≡ false))))
lesser_keys true b m n c h = cc
lesser_keys false false m n c h = (refl, inl refl)
lesser_keys false true m n true h = (refl, inr (ground (arith, h), inl (ground (arith, h))))
lesser_keys false true m n false h = (refl, inr (ground (arith, h), inr refl))

module _ (host : Host) where
  -- no float is below one that is below it, which IEEE 754 gives for NaN too
  abbrev pub IsAsymmetric : Type 0
  IsAsymmetric = (x y : Float) → host.ops.lt x y ≡ true → host.ops.lt y x ≡ false

  comes_before-first_less :
      (a b : Detection)
      → comes_before host a b
        ≡ first_less
            (compare a.use_case b.use_case)
            (later_keys (host.ops.lt b.confidence a.confidence) a.class_id b.class_id)
  unfolding comes_before
  comes_before-first_less a b = text_keys (compare a.use_case b.use_case) _

  comes_before-asym :
      (a b : Detection)
      → IsAsymmetric
      → comes_before host a b ≡ true
      → comes_before host b a ≡ false
  unfolding comes_before
  comes_before-asym a b asym h =
      comes_before-first_less b a
      ∙ first_less-asym (compare a.use_case b.use_case) (compare b.use_case a.use_case) _ _
          (compare-swap a.use_case b.use_case) (compare-swap_same a.use_case b.use_case)
          (later_keys-asym a.class_id b.class_id _ _ (asym b.confidence a.confidence))
          (sym (comes_before-first_less a b) ∙ h)

  -- `d` may stand in front of `e`: the use case of `e` is not the lesser text; of one use case, the
  -- class of `d` is not the greater number; of one class, the confidence of `d` is not the lower.
  abbrev pub MayPrecede : Detection → Detection → Type 0
  MayPrecede d e =
      (text_lt e.use_case d.use_case ≡ false)
      × (¬ (e.use_case ≡ d.use_case)
          ⊎ ((d.class_id ≤ e.class_id)
              × (¬ (e.class_id ≡ d.class_id) ⊎ (host.ops.lt d.confidence e.confidence ≡ false))))

  MayPrecede-of : (d e : Detection) → comes_before host e d ≡ false → MayPrecede d e
  unfolding comes_before
  MayPrecede-of d e h =
      let (text, rest) = lesser_keys _ (str_eq e.use_case d.use_case) e.class_id d.class_id _ h in
      (
        text,
        elim rest [
          | inl differ ↦ inl (λ same. cc (differ, (eq_iff e.use_case d.use_case).1 same))
          | inr later ↦ inr later
        ],
      )

  -- each neighbour may precede the next
  abbrev pub IsRanked : List Detection → Type 0
  IsRanked [] = Unit
  IsRanked (d ∷ []) = Unit
  IsRanked (d ∷ e ∷ ds) = MayPrecede d e × IsRanked (e ∷ ds)

  -- none comes before the one in front of it
  abbrev IsOrdered : List Detection → Type 0
  IsOrdered [] = Unit
  IsOrdered (d ∷ []) = Unit
  IsOrdered (d ∷ e ∷ ds) = (comes_before host e d ≡ false) × IsOrdered (e ∷ ds)

  IsRanked-of : (ds : List Detection) → IsOrdered ds → IsRanked ds
  IsRanked-of [] h = tt
  IsRanked-of (d ∷ []) h = tt
  IsRanked-of (d ∷ e ∷ ds) h = (MayPrecede-of d e h.0, IsRanked-of (e ∷ ds) h.1)

  insert-IsOrdered_behind :
      (c d : Detection) (ds : List Detection)
      → IsAsymmetric
      → comes_before host c d ≡ true
      → IsOrdered (c ∷ ds)
      → IsOrdered (insert host d ds)
      → IsOrdered (c ∷ insert host d ds)
  unfolding insert
  insert-IsOrdered_behind c d [] asym b h k = (comes_before-asym c d asym b, tt)
  insert-IsOrdered_behind c d (e ∷ ds) asym b h k = elim (Bool-cases (comes_before host e d)) [
    | inl p ↦ rw p (h.0, rw p at k)
    | inr p ↦ rw p (comes_before-asym c d asym b, rw p at k)
  ]

  IsOrdered-tail : (d : Detection) (ds : List Detection) → IsOrdered (d ∷ ds) → IsOrdered ds
  IsOrdered-tail d [] h = tt
  IsOrdered-tail d (e ∷ ds) h = h.1

  insert-IsOrdered :
      (d : Detection) (ds : List Detection)
      → IsAsymmetric
      → IsOrdered ds
      → IsOrdered (insert host d ds)
  unfolding insert
  insert-IsOrdered d [] asym h = tt
  insert-IsOrdered d (e ∷ ds) asym h = elim (Bool-cases (comes_before host e d)) [
    | inl p ↦ rw p (
        insert-IsOrdered_behind e d ds asym p h
          (insert-IsOrdered d ds asym (IsOrdered-tail e ds h)))
    | inr p ↦ rw p (p, h)
  ]

  sort_detections-IsOrdered :
      (ds : List Detection) → IsAsymmetric → IsOrdered (sort_detections host ds)
  unfolding sort_detections
  sort_detections-IsOrdered [] asym = tt
  sort_detections-IsOrdered (d ∷ ds) asym =
      insert-IsOrdered d _ asym (sort_detections-IsOrdered ds asym)

  insert-Perm : (d : Detection) (ds : List Detection) → Perm (insert host d ds) (d ∷ ds)
  unfolding insert
  insert-Perm d [] = Perm.refl (d ∷ [])
  insert-Perm d (e ∷ ds) = elim (Bool-cases (comes_before host e d)) [
    | inl p ↦ rw p (Perm.trans (Perm.cons e (insert-Perm d ds)) (Perm.swap d e ds))
    | inr p ↦ rw p (Perm.refl (d ∷ e ∷ ds))
  ]

  sort_detections-Perm : (ds : List Detection) → Perm (sort_detections host ds) ds
  unfolding sort_detections
  sort_detections-Perm [] = Perm.refl []
  sort_detections-Perm (d ∷ ds) =
      Perm.trans (insert-Perm d (sort_detections host ds)) (Perm.cons d (sort_detections-Perm ds))

  module _ (rt : Runtime) (thumbnails : Thumbnails) where
    open rt use {World}

    -- What the models see in a frame, one after another: the next model does not load, or it raises
    -- and adds nothing, or it adds all that it finds. The cache and the model library go from one
    -- model to the next.
    pub data Sees (frame : Image)
        : List ModelSpec → Registry rt → World → List Detection → Type 0 where
      no_model : {r : Registry rt} {w : World} → Sees frame [] r w []
      unloaded :
          {spec : ModelSpec} {specs : List ModelSpec} {r r' : Registry rt} {w w' : World}
          {ds : List Detection}
          → get_detector host rt spec (r, w) ≡ (none, (r', w'))
          → Sees frame specs r' w' ds
          → Sees frame (spec ∷ specs) r w ds
      raised :
          {spec : ModelSpec} {specs : List ModelSpec} {r r' : Registry rt} {w w' w'' : World}
          {detector : Detector rt} {ds : List Detection}
          → get_detector host rt spec (r, w) ≡ (some detector, (r', w'))
          → infer rt detector frame w' ≡ (none, w'')
          → Sees frame specs r' w'' ds
          → Sees frame (spec ∷ specs) r w ds
      found :
          {spec : ModelSpec} {specs : List ModelSpec} {r r' : Registry rt} {w w' w'' : World}
          {detector : Detector rt} {here ds : List Detection}
          → get_detector host rt spec (r, w) ≡ (some detector, (r', w'))
          → infer rt detector frame w' ≡ (some here, w'')
          → Sees frame specs r' w'' ds
          → Sees frame (spec ∷ specs) r w (here ++ ds)

    abbrev with_loaded :
        Image
        → Option (Detector rt) × (Registry rt × World)
        → List Detection × (Registry rt × World)
    with_loaded frame l = elim l.0 [
      | none ↦ ([], l.1)
      | some detector ↦
          (let i = infer rt detector frame l.1.1 in
            (elim i.0 [ none ↦ [] | some detections ↦ detections ], (l.1.0, i.1)))
    ]

    run_models-cons :
        (spec : ModelSpec) (specs : List ModelSpec) (frame : Image) (r : Registry rt) (w : World)
        (m : List Detection × (Registry rt × World))
        → with_loaded frame (get_detector host rt spec (r, w)) ≡ m
        → m.0 ++ (run_models host rt thumbnails specs frame m.1).0
          ≡ (run_models host rt thumbnails (spec ∷ specs) frame (r, w)).0
    unfolding run_models run_model
    run_models-cons spec specs frame r w m e = sym (
        ap
          (λ (n : List Detection × (Registry rt × World)).
            n.0 ++ (run_models host rt thumbnails specs frame n.1).0)
          e)

    Sees-infer :
        (spec : ModelSpec) (specs : List ModelSpec) (frame : Image) (r r' : Registry rt)
        (w w' : World) (detector : Detector rt) (o : Option (List Detection) × World)
        → get_detector host rt spec (r, w) ≡ (some detector, (r', w'))
        → infer rt detector frame w' ≡ o
        → Sees frame specs r' o.1 (run_models host rt thumbnails specs frame (r', o.1)).0
        → Sees frame
            (spec ∷ specs)
            r
            w
            (run_models host rt thumbnails (spec ∷ specs) frame (r, w)).0
    Sees-infer spec specs frame r r' w w' detector (none, w'') g i rest =
        subst (Sees frame (spec ∷ specs) r w)
          (run_models-cons spec specs frame r w ([], (r', w''))
            (ap (with_loaded frame) g
              ∙ ap
                  (λ (o : Option (List Detection) × World).
                    (elim o.0 [ none ↦ [] | some detections ↦ detections ], (r', o.1)))
                  i))
          (raised g i rest)
    Sees-infer spec specs frame r r' w w' detector (some here, w'') g i rest =
        subst (Sees frame (spec ∷ specs) r w)
          (run_models-cons spec specs frame r w (here, (r', w''))
            (ap (with_loaded frame) g
              ∙ ap
                  (λ (o : Option (List Detection) × World).
                    (elim o.0 [ none ↦ [] | some detections ↦ detections ], (r', o.1)))
                  i))
          (found g i rest)

    Sees-load :
        (spec : ModelSpec) (specs : List ModelSpec) (frame : Image) (r : Registry rt) (w : World)
        (loaded : Option (Detector rt) × (Registry rt × World))
        → get_detector host rt spec (r, w) ≡ loaded
        → ((r' : Registry rt) (w' : World)
            → Sees frame specs r' w' (run_models host rt thumbnails specs frame (r', w')).0)
        → Sees frame
            (spec ∷ specs)
            r
            w
            (run_models host rt thumbnails (spec ∷ specs) frame (r, w)).0
    Sees-load spec specs frame r w (none, (r', w')) g rest =
        subst (Sees frame (spec ∷ specs) r w)
          (run_models-cons spec specs frame r w ([], (r', w')) (ap (with_loaded frame) g))
          (unloaded g (rest r' w'))
    Sees-load spec specs frame r w (some detector, (r', w')) g rest =
        Sees-infer spec specs frame r r' w w' detector _ g refl (rest r' _)

    Sees-run_models :
        (specs : List ModelSpec) (frame : Image) (r : Registry rt) (w : World)
        → Sees frame specs r w (run_models host rt thumbnails specs frame (r, w)).0
    unfolding run_models
    Sees-run_models [] frame r w = no_model
    Sees-run_models (spec ∷ specs) frame r w =
        Sees-load spec specs frame r w _ refl (Sees-run_models specs frame)

    -- The event is for a frame of the store that the zone's resolved models ran on, and has what they
    -- found, in order.
    abbrev pub IsMerged : FrameEnvelope → Engine host rt thumbnails → DetectionEvent → Type 0
    IsMerged envelope e event =
        (specs : List ModelSpec) × (frame : Image) × (seen : List Detection) × (resolve host
            envelope.camera_id e.zone_id e.resolver
          ≡ ok specs)
        × ((take_frame envelope.frame_id e.frame_store).0 ≡ some frame)
        × Sees frame specs e.registry e.world seen
        × IsRanked event.detections
        × Perm event.detections seen

    infer_fetched-IsMerged :
        (o : Option Image) (envelope : FrameEnvelope) (now : Micros) (specs : List ModelSpec)
        (e : Engine host rt thumbnails) (event : DetectionEvent)
        → IsAsymmetric
        → (infer_fetched host rt thumbnails o envelope now specs e).0 ≡ some event
        → (frame : Image) × (o ≡ some frame)
          × IsRanked event.detections
          × Perm event.detections
              (run_models host rt thumbnails specs frame (e.registry, e.world)).0
    unfolding infer_fetched infer_frame
    infer_fetched-IsMerged none envelope now specs e event asym h = cc
    infer_fetched-IsMerged (some frame) envelope now specs e event asym h =
        let found = (run_models host rt thumbnails specs frame (e.registry, e.world)).0 in
        let same : sort_detections host found ≡ event.detections =
          ap (λ (v : DetectionEvent). v.detections) (some-injective _ _ h) in
        (
          frame,
          refl,
          subst IsRanked same (IsRanked-of _ (sort_detections-IsOrdered found asym)),
          subst (λ ds. Perm ds found) same (sort_detections-Perm found),
        )

    infer_resolved-IsMerged :
        (r : Result (List ModelSpec)) (envelope : FrameEnvelope) (now : Micros)
        (e : Engine host rt thumbnails) (event : DetectionEvent)
        → IsAsymmetric
        → resolve host envelope.camera_id e.zone_id e.resolver ≡ r
        → (infer_resolved host rt thumbnails r envelope now e).0 ≡ some event
        → IsMerged envelope e event
    unfolding infer_resolved
    infer_resolved-IsMerged (err fault) envelope now e event asym same h = cc
    infer_resolved-IsMerged (ok []) envelope now e event asym same h = cc
    infer_resolved-IsMerged (ok (spec ∷ specs)) envelope now e event asym same h =
        let (frame, taken, ranked, perm) =
          infer_fetched-IsMerged _ envelope now (spec ∷ specs) _ event asym h in
        (
          spec ∷ specs,
          frame,
          _,
          same,
          taken,
          Sees-run_models (spec ∷ specs) frame e.registry e.world,
          ranked,
          perm,
        )

    -- If no float is below one that is below it, the event that a cycle publishes is for a frame that
    -- the frame store had, and its detections are all that the zone's models find in this frame, run
    -- one after another, where a model that does not load or that raises adds nothing. They are
    -- ordered by the text of the use case, then by ascending class, then by descending confidence.
    pub infer_envelope-IsMerged :
        (envelope : FrameEnvelope) (now : Micros) (e : Engine host rt thumbnails)
        (event : DetectionEvent)
        → IsAsymmetric
        → (infer_envelope host rt thumbnails envelope now e).0 ≡ some event
        → IsMerged envelope e event
    unfolding infer_envelope
    infer_envelope-IsMerged envelope now e event asym h =
        infer_resolved-IsMerged _ envelope now e event asym refl h
