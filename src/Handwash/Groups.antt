-- ===== src/Handwash/Groups.antt =====
-- The group of a person's evidence buffer and the `group_id` of the person's state.
use boars_head_compliance_de.Prelude.{
  ℕ, String, ◌≡◌, refl, ◌⊎◌, true, false, not, ◌&&◌, Option, none, some, List, arith, if◌then◌else◌,
  is_some, Option-cases, inl, inr,
}
use boars_head_compliance_de.Prelude.Dict.{get, put, pop, get-pop, get-put_self, beq_refl}
use boars_head_compliance_de.Detection.{Detection}
use boars_head_compliance_de.StateMachine.{
  HandwashState, not_near_sink, near_sink_not_washing, washing, washed, not_washed, is_terminal,
  same_state,
}
use boars_head_compliance_de.Temporal.{PersonState, TemporalMetrics}
use boars_head_compliance_de.Evidence.{EvidenceLib}
use boars_head_compliance_de.Handwash.{
  HandwashRuleConfig, BufferKey, Evaluation, quiet, dispatch, buffer_key_eq, Frame, Evaluator,
  live_buffer, key_of, item_of, add_item, open_group, finalise, handle_zone_exit, evaluate,
  confirm_violation, evaluate_washing, debounce, handle_near_sink_not_washing,
}

module _ (ev : EvidenceLib) (uuid : ℕ → String) (config : HandwashRuleConfig) where
  -- the group of the live buffer of a key
  unfoldable pub live_group : Evaluator ev uuid config → BufferKey → Option String
  live_group e key = elim (live_buffer ev uuid config e key) [
    | none ↦ none
    | some buf ↦ some (ev.group_of buf)
  ]

  is_some-live :
      (e : Evaluator ev uuid config) (key : BufferKey)
      → is_some (live_buffer ev uuid config e key) ≡ is_some (live_group e key)
  unfolding live_group
  is_some-live e key = ground arith

  live_group-put :
      (e : Evaluator ev uuid config) (key : BufferKey) (buf : ev.Buffer)
      → live_group (record e { buffers = put key buf e.buffers }) key
        ≡ (if ev.frozen buf then none else some (ev.group_of buf))
  unfolding live_group
  live_group-put e key buf = ground (arith, get-put_self key buf e.buffers)

  live_group-pop :
      (e : Evaluator ev uuid config) (key : BufferKey)
      → live_group (record e { buffers = pop key e.buffers }) key ≡ none
  unfolding live_group
  live_group-pop e key = ground (arith, get-pop key key e.buffers, beq_refl buffer_key_eq key)

  live_group-add_item :
      (f : Frame) (p : ℕ) (key : BufferKey) (shot : Option (List Detection × (ℕ × ℕ)))
      (e : Evaluator ev uuid config)
      → live_group (add_item ev uuid config f p key shot e) key ≡ live_group e key
  unfolding add_item live_group
  live_group-add_item f p key shot e = elim (Option-cases (get key e.buffers)) [
    | inl a ↦ ground (arith, a)
    | inr (buf, a) ↦
        (let it = item_of ev uuid config f p shot in
          ground (
            arith,
            a,
            get-put_self key (ev.add it buf) e.buffers,
            ev.add_frozen it buf,
            ev.add_group it buf,
          ))
  ]

  live_group-open :
      (f : Frame) (key : BufferKey) (s : PersonState) (e : Evaluator ev uuid config)
      → live_group (open_group ev uuid config f key s e).1 key ≡ some (uuid e.uuids)
  unfolding open_group live_group
  live_group-open f key s e =
      let g = uuid e.uuids in
      let n = config.evidence_buffer_max in
      let buf = ev.open_buffer n g f.camera_id f.zone_id in
      ground (
        arith,
        get-put_self key buf e.buffers,
        ev.open_frozen n g f.camera_id f.zone_id,
        ev.open_group n g f.camera_id f.zone_id,
      )

  live_group-confirm :
      (f : Frame) (key : BufferKey) (s : PersonState) (e : Evaluator ev uuid config)
      → live_group (confirm_violation ev uuid config f key s e).evaluator key ≡ none
  unfolding confirm_violation live_group
  live_group-confirm f key s e = elim (Option-cases (get key e.buffers)) [
    | inl a ↦ ground (arith, a)
    | inr (buf, a) ↦
        ground (arith, a, get-put_self key (ev.freeze buf).1 e.buffers, ev.freeze_frozen buf)
  ]

  -- A person with a violation on record is in a terminal state. The live buffer of a key, if there
  -- is one, is the one of the person's group, which is then undecided.
  abbrev pub IsLinked : Evaluator ev uuid config → BufferKey → PersonState → Type 0
  IsLinked e key s =
      ((s.violation_confirmed && not (is_terminal s.current_state)) ≡ false)
      × ((live_group e key ≡ none)
          ⊎ ((live_group e key ≡ s.group_id)
              × (s.has_group_key ≡ true)
              × (s.violation_confirmed ≡ false)
              × (is_terminal s.current_state ≡ false)))

  -- An absent person with a live buffer waits for the end of the cooldown.
  abbrev pub IsPending : Evaluator ev uuid config → BufferKey → PersonState → Type 0
  IsPending e key s =
      (live_group e key ≡ none)
      ⊎ ((same_state s.current_state not_near_sink && not (is_some s.pending_exit_at)) ≡ false)

  module _ (f : Frame) (m : TemporalMetrics) (s : PersonState) (e : Evaluator ev uuid config)
      (linked : IsLinked e (key_of ev uuid config f s) s) where
    abbrev pub Kept : Evaluation ev uuid config → Type 0
    Kept v =
        IsLinked v.evaluator (key_of ev uuid config f s) v.result.person_state
        × IsPending v.evaluator (key_of ev uuid config f s) v.result.person_state

    finalise-Kept : Kept (finalise ev uuid config f m s e)
    unfolding finalise
    finalise-Kept =
        let key = key_of ev uuid config f s in
        ground (
          arith,
          live_group-pop e key,
          live_group-confirm f key (record s { current_state = not_washed }) e,
        )

    handle_zone_exit-Kept : Kept (handle_zone_exit ev uuid config f m s e)
    unfolding handle_zone_exit
    handle_zone_exit-Kept =
        let key = key_of ev uuid config f s in
        ground (
          arith,
          live_group-pop e key,
          live_group-confirm f key (record s { current_state = not_washed }) e,
          live_group-confirm f key (record s { current_state = not_washed; pending_exit_at = none })
              e,
        )

    evaluate_washing-Kept :
        s.current_state ≡ washing → Kept (evaluate_washing ev uuid config f m s e)
    unfolding evaluate_washing
    evaluate_washing-Kept h =
        let key = key_of ev uuid config f s in
        let shot : Option (List Detection × (ℕ × ℕ)) = some (f.detections, f.frame_shape) in
        let opened = (open_group ev uuid config f key s e).1 in
        ground (
          arith,
          live_group-add_item f s.person_id key shot e,
          live_group-add_item f s.person_id key shot opened,
          live_group-open f key s e,
        )

    debounce-Kept : s.current_state ≡ near_sink_not_washing → Kept (debounce ev uuid config f s e)
    unfolding debounce
    debounce-Kept h =
        let key = key_of ev uuid config f s in
        let opened = (open_group ev uuid config f key s e).1 in
        ground (
          arith,
          live_group-add_item f s.person_id key none e,
          live_group-add_item f s.person_id key none opened,
          live_group-open f key s e,
        )

    handle_near_sink_not_washing-Kept :
        s.current_state ≡ near_sink_not_washing
        → Kept (handle_near_sink_not_washing ev uuid config f s e)
    unfolding handle_near_sink_not_washing
    handle_near_sink_not_washing-Kept h =
        let key = key_of ev uuid config f s in
        let shot : Option (List Detection × (ℕ × ℕ)) = some (f.detections, f.frame_shape) in
        let opened = (open_group ev uuid config f key s e).1 in
        ground (
          arith,
          live_group-add_item f s.person_id key none e,
          live_group-add_item f s.person_id key shot e,
          is_some-live e key,
          live_group-add_item f s.person_id key none opened,
          live_group-open f key s e,
        )

    quiet-Kept : is_terminal s.current_state ≡ true → Kept (quiet ev uuid config s e)
    quiet-Kept h = ground arith

    by_state :
        (P : Evaluation ev uuid config → Type 0) (state : HandwashState)
        → s.current_state ≡ state
        → (s.current_state ≡ not_near_sink → P (handle_zone_exit ev uuid config f m s e))
        → (s.current_state ≡ washing → P (evaluate_washing ev uuid config f m s e))
        → (s.current_state ≡ near_sink_not_washing
            → P (handle_near_sink_not_washing ev uuid config f s e))
        → (is_terminal s.current_state ≡ true → P (quiet ev uuid config s e))
        → P (dispatch ev uuid config state f m s e)
    by_state P not_near_sink h a b c d = a h
    by_state P washing h a b c d = b h
    by_state P near_sink_not_washing h a b c d = c h
    by_state P washed h a b c d = d (rw h)
    by_state P not_washed h a b c d = d (rw h)

    pub evaluate-Kept : Kept (evaluate ev uuid config e s m f)
    unfolding evaluate
    evaluate-Kept =
        by_state Kept s.current_state refl (λ _. handle_zone_exit-Kept) evaluate_washing-Kept
          handle_near_sink_not_washing-Kept quiet-Kept
