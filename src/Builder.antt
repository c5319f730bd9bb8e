-- ===== src/Builder.antt =====
-- backend/app/compliance/observation.py, ObservationBuilder: detections to one observation for each
-- tracked person. The builder's state is the dict of tracking records.
pub mod Hands
pub mod Build
pub mod Counters
use boars_head_compliance_de.Prelude.{
  ℕ, zero, suc, ◌+◌, ◌-◌, String, Bool, true, false, not, ◌&&◌, Option, none, some, List, [], ◌∷◌,
  ◌++◌, map, length, drop, select, ltb, leb, if◌then◌else◌, is_some,
}
use text.Mathlib.Text.{◌==◌ as str_eq}
use boars_head_compliance_de.Prelude.Int.{ℤ, pos, ◌+ℤ◌, ltb_ℤ, sub_ℕ}
use boars_head_compliance_de.Prelude.Dict.{Dict, nat_eq, get, put}
use boars_head_compliance_de.Float.{Float, FloatOps, Micros, zero_float}
use boars_head_compliance_de.Detection.{BoundingBox, Detection}
use boars_head_compliance_de.Observation.{Observation}
use boars_head_compliance_de.Spatial.{
  Point, Box, box_center, point_distance, point_inside_expanded_box, assign_person_to_sink,
  hand_is_near_sink,
}
use boars_head_compliance_de.Track.{Track}

pub record BuilderConfig : Type 0 where
  pub person_class : String
  pub sink_class : String
  pub hand_class : String
  pub person_box_expand_x : Float
  pub person_box_expand_y : Float
  pub max_sink_distance : Float
  pub sink_h_margin : Float
  pub sink_top_margin : Float
  pub sink_bottom_margin : Float
  pub min_hands : ℕ
  pub min_movement : Float
  pub require_movement : Bool
  pub confirm_frames : ℕ
  pub reset_seconds : Micros
  pub washing_hold_frames : ℕ
  pub movement_history_size : ℕ

-- the dict of a person in `_tracking`
pub record Tracking : Type 0 where
  pub movement_history : List Point
  pub movement_score : Float
  pub positive_frames : ℕ
  pub no_detection_frames : ℕ
  pub sink_index : Option ℕ
  pub last_hand_near_sink_at : Option Micros
  pub last_seen_at : Option Micros

abbrev pub new_tracking : Tracking
new_tracking = record {
  movement_history = [];
  movement_score = zero_float;
  positive_frames = 0;
  no_detection_frames = 0;
  sink_index = none;
  last_hand_near_sink_at = none;
  last_seen_at = none;
}

-- `history.append(x)` on a deque with a maximal length
unfoldable pub push_bounded {ℓ} : {A : Type ℓ} → ℕ → A → List A → List A
push_bounded size x xs = let ys = xs ++ x ∷ [] in drop (length ys - size) ys

-- the "Temporal confirmation" block: both counters
unfoldable pub count_evidence : ℕ → Bool → Tracking → Tracking
count_evidence hold evidence t =
    if evidence
    then record t { positive_frames = t.positive_frames + 1; no_detection_frames = 0 }
    else record t {
      no_detection_frames = t.no_detection_frames + 1;
      positive_frames = if leb hold (t.no_detection_frames + 1) then 0 else t.positive_frames;
    }

-- the "Reset check" block
unfoldable pub at_the_sink : Micros → Bool → Micros → Option Micros → Bool
at_the_sink reset near now none = near
at_the_sink reset near now (some last) = if near then true else ltb_ℤ (sub_ℕ now last) (pos reset)

abbrev pub Trackings : Type 0
Trackings = Dict ℕ Tracking

-- `_get_or_create`
unfoldable pub get_or_create : ℕ → Trackings → Tracking
get_or_create pid trackings = elim (get pid trackings) [ none ↦ new_tracking | some t ↦ t ]

-- whether a record is older than the threshold
abbrev pub is_stale : Micros → Micros → Tracking → Bool
is_stale now threshold t = elim t.last_seen_at [
  | none ↦ false
  | some seen ↦ ltb_ℤ (pos threshold) (sub_ℕ now seen)
]

unfoldable pub evict_stale : Micros → Micros → Trackings → Trackings
evict_stale now threshold [] = []
evict_stale now threshold ((pid, t) ∷ trackings) =
    let rest = evict_stale now threshold trackings in
    if is_stale now threshold t then rest else (pid, t) ∷ rest
