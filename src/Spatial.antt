-- ===== src/Spatial.antt =====
-- backend/app/compliance/spatial.py: boxes, distances, the sink of a person.
pub mod Nearest
use boars_head_compliance_de.Prelude.{
  ℕ, suc, Bool, true, false, ◌&&◌, Option, none, some, List, [], ◌∷◌, if◌then◌else◌,
}
use boars_head_compliance_de.Prelude.Int.{ℤ, pos, ◌+ℤ◌, ◌-ℤ◌, ◌*ℤ◌, half, leb_ℤ}
use boars_head_compliance_de.Float.{Float, FloatOps}

-- a point in pixels
abbrev pub Point : Type 0
Point = ℤ × ℤ

-- the tuple (x1, y1, x2, y2)
pub record Box : Type 0 where
  pub x1 : ℤ
  pub y1 : ℤ
  pub x2 : ℤ
  pub y2 : ℤ

unfoldable pub box_center : Box → Point
box_center box = (half (box.x1 +ℤ box.x2), half (box.y1 +ℤ box.y2))

module _ (ops : FloatOps) where
  open ops use {add, sub, mul, div, sqrt, lt, le, eq, of_int, to_int, infinity}

  unfoldable pub point_distance : Point → Point → Float
  point_distance p q =
      let dx = p.0 -ℤ q.0 in let dy = p.1 -ℤ q.1 in sqrt (of_int (dx *ℤ dx +ℤ dy *ℤ dy))

  unfoldable pub point_inside_expanded_box : Point → Box → Float → Float → Bool
  point_inside_expanded_box point box expand_x expand_y =
      let w = of_int (box.x2 -ℤ box.x1) in
      let h = of_int (box.y2 -ℤ box.y1) in
      le (sub (of_int box.x1) (mul w expand_x)) (of_int point.0)
      && le (of_int point.0) (add (of_int box.x2) (mul w expand_x))
      && le (sub (of_int box.y1) (mul h expand_y)) (of_int point.1)
      && le (of_int point.1) (add (of_int box.y2) (mul h expand_y))

  -- the distance from the person's anchor over the sink's diagonal; none, if the diagonal is 0
  unfoldable pub normalised : Box → Box → Option Float
  unfolding point_distance
  normalised person sink =
      let anchor : Point = (half (person.x1 +ℤ person.x2), person.y2) in
      let center : Point = (half (sink.x1 +ℤ sink.x2), half (sink.y1 +ℤ sink.y2)) in
      let sink_diag = point_distance (sink.x1, sink.y1) (sink.x2, sink.y2) in
      if eq sink_diag (of_int (pos 0))
      then none
      else some (div (point_distance anchor center) sink_diag)

  -- best_index and best_distance
  pub record Best : Type 0 where
    pub index : Option ℕ
    pub distance : Float

  -- the body of the loop over `sink_boxes`
  unfoldable pub closer : Box → Box → ℕ → Best → Best
  unfolding normalised
  closer person sink i best = elim (normalised person sink) [
    | none ↦ best
    | some d ↦ if lt d best.distance then record { index = some i; distance = d } else best
  ]

  unfoldable pub nearest_from : Box → List (Box × Float) → ℕ → Best → Best
  nearest_from person [] i best = best
  nearest_from person ((sink, c) ∷ sinks) i best =
      nearest_from person sinks (suc i) (closer person sink i best)

  unfoldable pub assign_person_to_sink : Box → List (Box × Float) → Float → Option ℕ
  unfolding nearest_from
  assign_person_to_sink person sinks max_distance_ratio =
      let best = nearest_from person sinks 0 (record { index = none; distance = infinity }) in
      elim best.index [
        | none ↦ none
        | some i ↦ if le best.distance max_distance_ratio then some i else none
      ]

  unfoldable pub hand_is_near_sink : Box → Box → Float → Float → Float → Bool
  hand_is_near_sink hand sink horizontal top bottom =
      let sw = of_int (sink.x2 -ℤ sink.x1) in
      let sh = of_int (sink.y2 -ℤ sink.y1) in
      leb_ℤ hand.x1 (sink.x2 +ℤ to_int (mul sw horizontal))
      && leb_ℤ (sink.x1 -ℤ to_int (mul sw horizontal)) hand.x2
      && leb_ℤ hand.y1 (sink.y2 +ℤ to_int (mul sh bottom))
      && leb_ℤ (sink.y1 -ℤ to_int (mul sh top)) hand.y2
