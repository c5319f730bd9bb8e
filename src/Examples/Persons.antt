-- ===== src/Examples/Persons.antt =====
-- Two detections of a camera: their sinks, their tracks, their counters.
use boars_head_compliance_de.Prelude.{
  ℕ, ◌+◌, ◌-◌, ◌*◌, ◌/◌, ◌≡◌, refl, true, false, Option, none, some, List, [], ◌∷◌, ◌++◌, arith,
  ltb, leb, ◌==◌,
}
use boars_head_compliance_de.Prelude.Int.{pos, pos_part}
use boars_head_compliance_de.Float.{Float, FloatOps, zero_float}
use boars_head_compliance_de.Detection.{Detection}
use boars_head_compliance_de.Spatial.{Box, closer, assign_person_to_sink, normalised}
use boars_head_compliance_de.Spatial.Nearest.{
  IsFloatOrder, get_elem?, assign_person_to_sink-nearest,
}
use boars_head_compliance_de.Builder.{new_tracking}
use boars_head_compliance_de.Builder.Counters.{count_frames, misses, positive_frames-since}
use boars_head_compliance_de.Tracker.{Tracker, update}
use boars_head_compliance_de.Tracker.Held.{held}
use boars_head_compliance_de.Tracker.Lost.{updates, updates-lost}
use boars_head_compliance_de.Tracker.Passthrough.{identities, update-passthrough}

abbrev pub num : ℕ → Float
num n = record { bits = n }

-- arithmetic on whole numbers
abbrev pub whole : FloatOps
whole = record {
  add = λ a b. num (a.bits + b.bits);
  sub = λ a b. num (a.bits - b.bits);
  mul = λ a b. num (a.bits * b.bits);
  div = λ a b. num (a.bits * 100 / b.bits);
  sqrt = λ a. a;
  lt = λ a b. ltb a.bits b.bits;
  le = λ a b. leb a.bits b.bits;
  eq = λ a b. a.bits == b.bits;
  of_int = λ z. num (pos_part z);
  to_int = λ a. pos a.bits;
  infinity = num 1000000;
  fraction = λ n d. num (n / d);
}

whole-IsFloatOrder : IsFloatOrder whole
whole-IsFloatOrder = record {
  irreflexive = λ a. ground arith;
  transitive = λ a b c h k. ground arith;
}

abbrev square : ℕ → ℕ → Box
square x y = record { x1 = pos x; y1 = pos y; x2 = pos (x + 20); y2 = pos (y + 20) }

abbrev sinks : List (Box × Float)
sinks = (square 90 10, zero_float) ∷ (square 0 30, zero_float) ∷ []

assigned : assign_person_to_sink whole (square 0 10) sinks (num 200) ≡ some 1
unfolding assign_person_to_sink closer
assigned = refl

assign_person_to_sink-nearest_example :
    (sink : Box) × (d : Float) × (get_elem? sinks 1 ≡ some sink)
    × (normalised whole (square 0 10) sink ≡ some d)
    × (whole.le d (num 200) ≡ true)
    × ((j : ℕ) (other : Box) (d' : Float)
        → get_elem? sinks j ≡ some other
        → normalised whole (square 0 10) other ≡ some d'
        → whole.lt d' d ≡ false)
assign_person_to_sink-nearest_example =
    assign_person_to_sink-nearest whole whole-IsFloatOrder (square 0 10) sinks (num 200) 1 assigned

positive_frames-since_example :
    (count_frames 3
      (true ∷ [] ++ (misses 3 ++ (true ∷ false ∷ false ∷ true ∷ [])))
      new_tracking).positive_frames
    ≡ 2
positive_frames-since_example =
    positive_frames-since 3 (true ∷ []) (true ∷ false ∷ false ∷ true ∷ []) new_tracking
      (omega arith) (omega arith, (omega arith, tt))

abbrev pub seen_as : Option ℕ → Detection
seen_as tid = record {
  class_id = 0;
  class_name = "person";
  bbox = record { x1 = num 0; y1 = num 0; x2 = num 20; y2 = num 40 };
  confidence = num 1;
  use_case = "handwash";
  track_id = tid;
}

-- a track that was last seen 29 frames ago
abbrev following : Tracker
following = record {
  tracks = record { track_id = 4; last_bbox = (seen_as none).bbox; age = 9; lost_frames = 29 } ∷ [];
  next_id = 5;
}

-- two frames without track 4, one of them empty: it is beyond the limit
updates-lost_example :
    held 4 (updates whole (num 30) 30 ((seen_as (some 6) ∷ []) ∷ [] ∷ []) following).tracks ≡ []
updates-lost_example =
    updates-lost whole (num 30) 30 4 ((seen_as (some 6) ∷ []) ∷ [] ∷ []) following
      (record { track_id = 4; last_bbox = (seen_as none).bbox; age = 9; lost_frames = 29 })
      (((6, refl, refl), tt), (tt, tt)) refl (omega arith)

update-passthrough_example :
    identities (update whole (num 30) 30 (seen_as (some 6) ∷ seen_as (some 4) ∷ []) following).0
    ≡ (some 6, seen_as (some 6)) ∷ (some 4, seen_as (some 4)) ∷ []
update-passthrough_example =
    update-passthrough whole (num 30) 30 (seen_as (some 6)) (seen_as (some 4) ∷ []) following
      (ground arith, (ground arith, tt))
