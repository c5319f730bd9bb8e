-- ===== src/Builder/Hands.antt =====
-- backend/app/compliance/observation.py, `build`: the hands of each person, and whether one is near the
-- person's sink.
use boars_head_compliance_de.Prelude.{
  ℕ, zero, suc, Bool, true, false, ◌&&◌, Option, none, some, List, [], ◌∷◌, ◌++◌, if◌then◌else◌,
}
use boars_head_compliance_de.Prelude.Dict.{Dict, nat_eq, get, put}
use boars_head_compliance_de.Float.{Float, FloatOps}
use boars_head_compliance_de.Detection.{BoundingBox, Detection}
use boars_head_compliance_de.Spatial.{
  Point, Box, box_center, point_distance, point_inside_expanded_box, hand_is_near_sink,
}
use boars_head_compliance_de.Track.{Track}
use boars_head_compliance_de.Builder.{BuilderConfig}

abbrev pub Hands : Type 0
Hands = List (Box × Float)

module _ (ops : FloatOps) where
  open ops use {to_int}

  -- (int(b.x1), int(b.y1), int(b.x2), int(b.y2))
  unfoldable pub int_box : BoundingBox → Box
  int_box b = record { x1 = to_int b.x1; y1 = to_int b.y1; x2 = to_int b.x2; y2 = to_int b.y2 }

module _ (ops : FloatOps) (config : BuilderConfig) where
  open ops use {lt, infinity}

  -- the loop over the tracks for one hand, with best_pid and best_dist
  unfoldable pub owner_from : Point → List Track → Option ℕ → Float → Option ℕ
  unfolding int_box
  owner_from center [] best_pid best_dist = best_pid
  owner_from center (track ∷ tracks) best_pid best_dist =
      let pbox = int_box ops track.detection.bbox in
      let dist = point_distance ops center (box_center pbox) in
      let closer =
        point_inside_expanded_box ops center pbox config.person_box_expand_x
          config.person_box_expand_y
        && lt dist best_dist in
      owner_from center tracks (if closer then some track.track_id else best_pid)
        (if closer then dist else best_dist)

  -- assignments[pid].append(hand)
  abbrev append_hand : ℕ → Box × Float → Dict ℕ Hands → Dict ℕ Hands
  append_hand pid hand assigned =
      put pid (elim (get pid assigned) [ none ↦ hand ∷ [] | some hands ↦ hands ++ hand ∷ [] ])
        assigned

  -- the loop over the hands
  unfoldable pub assign_hands : List Track → List Detection → Dict ℕ Hands → Dict ℕ Hands
  unfolding owner_from
  assign_hands tracks [] assigned = assigned
  assign_hands tracks (hand ∷ hands) assigned =
      let hbox = int_box ops hand.bbox in
      assign_hands tracks hands (elim (owner_from (box_center hbox) tracks none infinity) [
        | none ↦ assigned
        | some pid ↦ append_hand pid (hbox, hand.confidence) assigned
      ])

  abbrev pub empty_hands : List Track → Dict ℕ Hands → Dict ℕ Hands
  empty_hands [] assigned = assigned
  empty_hands (t ∷ tracks) assigned = empty_hands tracks (put t.track_id [] assigned)

  -- some hand is near the box of the assigned sink
  unfoldable pub any_near : Box → Hands → Bool
  any_near sink [] = false
  any_near sink ((hbox, c) ∷ hands) =
      if hand_is_near_sink ops hbox sink config.sink_h_margin config.sink_top_margin
        config.sink_bottom_margin
      then true
      else any_near sink hands

  -- sink_boxes[i]
  abbrev sink_at : Hands → ℕ → Option Box
  sink_at [] i = none
  sink_at ((box, c) ∷ boxes) zero = some box
  sink_at ((box, c) ∷ boxes) (suc i) = sink_at boxes i

  unfoldable pub near_sink : Hands → Option ℕ → Hands → Bool
  unfolding any_near
  near_sink sinks none hands = false
  near_sink sinks (some i) hands = elim (sink_at sinks i) [
    | none ↦ false
    | some sink ↦ any_near sink hands
  ]
