-- ===== src/Tracker/Passthrough.antt =====
-- The ids of the detector's own tracker pass through.
use boars_head_compliance_de.Prelude.{
  ℕ, ◌≡◌, refl, ◌≢◌, ◌∙◌, Option, none, some, List, [], ◌∷◌, arith, Option-cases, inl, inr,
}
use boars_head_compliance_de.Float.{Float, FloatOps}
use boars_head_compliance_de.Detection.{Detection}
use boars_head_compliance_de.Track.{Track}
use boars_head_compliance_de.Tracker.{
  ActiveTrack, Tracker, pass_detection, pass_all, all_ids, update_by_ids, update,
}

-- the tracks with their ids, and the detections with theirs
abbrev pub identities : List Track → List (Option ℕ × Detection)
identities [] = []
identities (t ∷ ts) = (some t.track_id, t.detection) ∷ identities ts

abbrev pub own_ids : List Detection → List (Option ℕ × Detection)
own_ids [] = []
own_ids (d ∷ ds) = (d.track_id, d) ∷ own_ids ds

abbrev given : List (ℕ × Detection) → List (Option ℕ × Detection)
given [] = []
given ((tid, d) ∷ ids) = (some tid, d) ∷ given ids

-- Every detection has an id.
abbrev pub HasIds : List Detection → Type 0
HasIds [] = Unit
HasIds (d ∷ ds) = (d.track_id ≢ none) × HasIds ds

pass_detection_name :
    (tid : ℕ) (d : Detection) (ts : List ActiveTrack)
    → ((pass_detection tid d ts).0.track_id ≡ tid) × ((pass_detection tid d ts).0.detection ≡ d)
unfolding pass_detection
pass_detection_name tid d ts = ground arith

identities-pass_all :
    (ids : List (ℕ × Detection)) (ts : List ActiveTrack)
    → identities (pass_all ids ts).0 ≡ given ids
unfolding pass_all
identities-pass_all [] ts = refl
identities-pass_all ((tid, d) ∷ ids) ts = cc (
  (pass_detection_name tid d ts).0,
  (pass_detection_name tid d ts).1,
  identities-pass_all ids (pass_detection tid d ts).1,
)

all_ids-given :
    (ds : List Detection)
    → HasIds ds
    → (ids : List (ℕ × Detection)) × (all_ids ds ≡ some ids) × (given ids ≡ own_ids ds)
unfolding all_ids
all_ids-given [] h = ([], refl, refl)
all_ids-given (d ∷ ds) h =
    let rest = all_ids-given ds h.1 in
    elim (Option-cases d.track_id) [
      | inl a ↦ absurd (h.0 a)
      | inr (tid, a) ↦ ((tid, d) ∷ rest.0, ground (arith, a, rest.1), cc (a, rest.2))
    ]

module _ (ops : FloatOps) where
  -- When every detection of a frame has an id, the tracks are the detections in their order, each
  -- under its own id.
  pub update-passthrough :
      (threshold : Float) (n : ℕ) (d : Detection) (ds : List Detection) (tracker : Tracker)
      → HasIds (d ∷ ds)
      → identities (update ops threshold n (d ∷ ds) tracker).0 ≡ own_ids (d ∷ ds)
  unfolding update update_by_ids
  update-passthrough threshold n d ds tracker h =
      let (ids, a, b) = all_ids-given (d ∷ ds) h in
      rw (a, update) (identities-pass_all ids tracker.tracks ∙ b)
