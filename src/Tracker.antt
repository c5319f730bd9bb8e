-- ===== src/Tracker.antt =====
-- backend/app/compliance/tracker.py, IoUTracker: identities by the ids of the detector's own
-- tracker, or by greedy overlap. A track object is a value; the code mutates each through one list.
pub mod Passthrough
pub mod Held
pub mod Keyed
pub mod Lost
use boars_head_compliance_de.Prelude.{
  ℕ, zero, suc, ◌+◌, Bool, true, false, not, ◌&&◌, Option, none, some, List, [], ◌∷◌, ◌++◌, map,
  leb, ◌==◌, if◌then◌else◌, is_some,
}
use boars_head_compliance_de.Prelude.Dict.{Dict, nat_eq, get, put}
use boars_head_compliance_de.Float.{Float, FloatOps, zero_float}
use boars_head_compliance_de.Detection.{BoundingBox, Detection}
use boars_head_compliance_de.Absence.{elem}
use boars_head_compliance_de.Track.{Track}

pub record ActiveTrack : Type 0 where
  pub track_id : ℕ
  pub last_bbox : BoundingBox
  pub age : ℕ
  pub lost_frames : ℕ

pub record Tracker : Type 0 where
  pub tracks : List ActiveTrack
  pub next_id : ℕ

-- `reset`, and the state after `__init__`
unfoldable pub fresh : Tracker
fresh = record { tracks = []; next_id = 1 }

-- next((t for t in tracks if t.track_id == tid), None)
unfoldable pub find_track : ℕ → List ActiveTrack → Option ActiveTrack
find_track tid [] = none
find_track tid (t ∷ ts) = if t.track_id == tid then some t else find_track tid ts

-- `existing.last_bbox = …; existing.age += 1; existing.lost_frames = 0`
abbrev pub refresh : BoundingBox → ActiveTrack → ActiveTrack
refresh bbox t = record t { last_bbox = bbox; age = t.age + 1; lost_frames = 0 }

-- the same object, changed in place: the first track with the id
unfoldable pub refresh_first : ℕ → BoundingBox → List ActiveTrack → List ActiveTrack
refresh_first tid bbox [] = []
refresh_first tid bbox (t ∷ ts) =
    let rest = refresh_first tid bbox ts in
    if t.track_id == tid then refresh bbox t ∷ ts else t ∷ rest

abbrev pub new_track : ℕ → BoundingBox → ActiveTrack
new_track tid bbox = record { track_id = tid; last_bbox = bbox; age = 1; lost_frames = 0 }

-- one detection of the passthrough loop
unfoldable pub pass_detection : ℕ → Detection → List ActiveTrack → Track × List ActiveTrack
unfolding find_track refresh_first
pass_detection tid det tracks = elim (find_track tid tracks) [
  | none ↦
      (record { track_id = tid; detection = det; age = 1 }, tracks ++ new_track tid det.bbox ∷ [])
  | some t ↦ (
    record { track_id = tid; detection = det; age = t.age + 1 },
    refresh_first tid det.bbox tracks,
  )
]

-- d.track_id for every detection, if all have one
unfoldable pub all_ids : List Detection → Option (List (ℕ × Detection))
all_ids [] = some []
all_ids (d ∷ ds) = elim d.track_id [
  | none ↦ none
  | some tid ↦ elim (all_ids ds) [ none ↦ none | some rest ↦ some ((tid, d) ∷ rest) ]
]

-- the passthrough loop
unfoldable pub pass_all : List (ℕ × Detection) → List ActiveTrack → List Track × List ActiveTrack
unfolding pass_detection
pass_all [] tracks = ([], tracks)
pass_all ((tid, d) ∷ ds) tracks =
    let (result, tracks') = pass_detection tid d tracks in
    let (results, tracks2) = pass_all ds tracks' in (result ∷ results, tracks2)

-- expire the tracks whose id is not among those seen
unfoldable pub expire : ℕ → List ℕ → List ActiveTrack → List ActiveTrack
unfolding elem
expire max_lost seen [] = []
expire max_lost seen (t ∷ ts) =
    let rest = expire max_lost seen ts in
    if elem t.track_id seen
    then t ∷ rest
    else if leb (t.lost_frames + 1) max_lost
    then record t { lost_frames = t.lost_frames + 1 } ∷ rest
    else rest

-- the tracks that are not in `updated` lose a frame, and stay up to the limit
unfoldable pub put_lost : ℕ → List ActiveTrack → Dict ℕ ActiveTrack → Dict ℕ ActiveTrack
put_lost max_lost [] updated = updated
put_lost max_lost (t ∷ ts) updated = put_lost max_lost ts (
    if is_some (get t.track_id updated)
    then updated
    else if leb (t.lost_frames + 1) max_lost
    then put t.track_id (record t { lost_frames = t.lost_frames + 1 }) updated
    else updated)

-- new tracks for the detections whose index is not taken
unfoldable pub put_new :
    List ℕ → ℕ → List Detection → ℕ → Dict ℕ ActiveTrack → Dict ℕ ActiveTrack × ℕ
unfolding elem
put_new taken i [] next_id updated = (updated, next_id)
put_new taken i (d ∷ ds) next_id updated =
    put_new taken (suc i) ds (if elem i taken then next_id else suc next_id)
      (if elem i taken then updated else put next_id (new_track next_id d.bbox) updated)

module _ (ops : FloatOps) where
  open ops use {add, sub, mul, div, lt, le, eq}

  -- Python's max and min: the second only if it is greater, or less
  abbrev py_max : Float → Float → Float
  py_max a b = if lt a b then b else a

  abbrev py_min : Float → Float → Float
  py_min a b = if lt b a then b else a

  -- `_iou`
  unfoldable pub iou : BoundingBox → BoundingBox → Float
  iou a b =
      let w = py_max zero_float (sub (py_min a.x2 b.x2) (py_max a.x1 b.x1)) in
      let h = py_max zero_float (sub (py_min a.y2 b.y2) (py_max a.y1 b.y1)) in
      let inter = mul w h in
      let area_a = mul (sub a.x2 a.x1) (sub a.y2 a.y1) in
      let area_b = mul (sub b.x2 b.x1) (sub b.y2 b.y1) in
      let union = sub (add area_a area_b) inter in
      if eq inter zero_float
      then zero_float
      else if lt zero_float union
      then div inter union
      else zero_float

  -- ==, on boxes
  abbrev same_bbox : BoundingBox → BoundingBox → Bool
  same_bbox a b = eq a.x1 b.x1 && eq a.y1 b.y1 && eq a.x2 b.x2 && eq a.y2 b.y2

  -- the loop over the detections for one track: best_det_idx, with the detection
  unfoldable pub best_from :
      BoundingBox
      → List ℕ
      → ℕ
      → List Detection
      → Float
      → Option (ℕ × Detection)
      → Option (ℕ × Detection)
  unfolding iou elem
  best_from bbox taken i [] best_iou best = best
  best_from bbox taken i (d ∷ ds) best_iou best =
      let score = iou bbox d.bbox in
      let better = not (elem i taken) && lt best_iou score in
      best_from bbox taken (suc i) ds (if better then score else best_iou)
        (if better then some (i, d) else best)

  -- matches: the track, and the index of its detection
  pub record Match : Type 0 where
    pub track : ActiveTrack
    pub index : ℕ
    pub detection : Detection

  -- the greedy loop over the tracks
  unfoldable pub match_tracks : Float → List Detection → List ActiveTrack → List ℕ → List Match
  unfolding best_from
  match_tracks threshold ds [] taken = []
  match_tracks threshold ds (t ∷ ts) taken =
      let found = best_from t.last_bbox taken 0 ds threshold none in
      let taken' : List ℕ = elim found [ none ↦ taken | some (i, d) ↦ i ∷ taken ] in
      let rest = match_tracks threshold ds ts taken' in
      elim found [
        | none ↦ rest
        | some (i, d) ↦ record { track = t; index = i; detection = d } ∷ rest
      ]

  abbrev indices : List Match → List ℕ
  indices [] = []
  indices (x ∷ xs) = x.index ∷ indices xs

  -- updated[track.track_id] = track, for the matched tracks
  unfoldable pub put_matches : List Match → Dict ℕ ActiveTrack → Dict ℕ ActiveTrack
  put_matches [] updated = updated
  put_matches (x ∷ xs) updated =
      put_matches xs (put x.track.track_id (refresh x.detection.bbox x.track) updated)

  -- the entry of a new detection: the first track of age 1 with its box
  unfoldable pub find_new : BoundingBox → List ActiveTrack → Option ActiveTrack
  find_new bbox [] = none
  find_new bbox (t ∷ ts) =
      if same_bbox t.last_bbox bbox && t.age == 1 then some t else find_new bbox ts

  unfoldable pub new_results : List ℕ → ℕ → List Detection → List ActiveTrack → List Track
  unfolding find_new elem
  new_results taken i [] tracks = []
  new_results taken i (d ∷ ds) tracks =
      let rest = new_results taken (suc i) ds tracks in
      if elem i taken then rest else elim (find_new d.bbox tracks) [
        | none ↦ rest
        | some t ↦ record { track_id = t.track_id; detection = d; age = 1 } ∷ rest
      ]

  abbrev match_result : Match → Track
  match_result x = record {
    track_id = x.track.track_id;
    detection = x.detection;
    age = x.track.age + 1;
  }

  -- the IoU branch of `update`
  unfoldable pub update_by_iou : Float → ℕ → List Detection → Tracker → List Track × Tracker
  unfolding match_tracks put_matches put_lost put_new new_results
  update_by_iou threshold max_lost ds tracker =
      let matches = match_tracks threshold ds tracker.tracks [] in
      let taken = indices matches in
      let kept = put_lost max_lost tracker.tracks (put_matches matches []) in
      let (updated, next_id) = put_new taken 0 ds tracker.next_id kept in
      let tracks = map (λ (p : ℕ × ActiveTrack). p.1) updated in
      (
        map match_result matches ++ new_results taken 0 ds tracks,
        record { tracks = tracks; next_id = next_id },
      )

  -- the ByteTrack branch of `update`
  unfoldable pub update_by_ids : ℕ → List (ℕ × Detection) → Tracker → List Track × Tracker
  unfolding pass_all expire
  update_by_ids max_lost ids tracker =
      let (result, tracks) = pass_all ids tracker.tracks in
      (
        result,
        record tracker { tracks = expire max_lost (map (λ (p : ℕ × Detection). p.0) ids) tracks },
      )

  unfoldable pub update : Float → ℕ → List Detection → Tracker → List Track × Tracker
  unfolding update_by_iou update_by_ids all_ids
  update threshold max_lost [] tracker = update_by_iou threshold max_lost [] tracker
  update threshold max_lost (d ∷ ds) tracker = elim (all_ids (d ∷ ds)) [
    | none ↦ update_by_iou threshold max_lost (d ∷ ds) tracker
    | some ids ↦ update_by_ids max_lost ids tracker
  ]
