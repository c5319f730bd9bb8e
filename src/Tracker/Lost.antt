-- ===== src/Tracker/Lost.antt =====
-- How long a track outlives the frames that show it.
use mathlib.Core.List.{append-nil}
use boars_head_compliance_de.Prelude.{
  ℕ, suc, ◌+◌, ◌≡◌, ◌≤◌, refl, ap, sym, ◌∙◌, true, false, some, List, [], ◌∷◌, map, length, arith,
  leb, All, ◌==◌, Bool-cases, inl, inr, if◌then◌else◌,
}
use boars_head_compliance_de.Float.{Float, FloatOps}
use boars_head_compliance_de.Detection.{Detection}
use boars_head_compliance_de.Absence.{elem}
use boars_head_compliance_de.Tracker.{
  ActiveTrack, Tracker, pass_all, best_from, put_matches, put_lost, put_new, update_by_iou,
  update_by_ids, update, all_ids, match_tracks,
}
use boars_head_compliance_de.Tracker.Held.{held, after_frames, lose_all, held-expire, held-pass_all}
use boars_head_compliance_de.Tracker.Keyed.{values, held-put_lost_missing, held-put_lost}

-- Every detection of the frame has an id of the detector's own tracker, and none has this one.
abbrev pub IsWithout : ℕ → List Detection → Type 0
IsWithout tid ds =
    All (λ (d : Detection). (j : ℕ) × (d.track_id ≡ some j) × ((j == tid) ≡ false)) ds

all_ids-IsWithout :
    (tid : ℕ) (ds : List Detection)
    → IsWithout tid ds
    → (ids : List (ℕ × Detection)) × (all_ids ds ≡ some ids)
      × (elem tid (map (λ (p : ℕ × Detection). p.0) ids) ≡ false)
unfolding all_ids elem
all_ids-IsWithout tid [] h = ([], refl, refl)
all_ids-IsWithout tid (d ∷ ds) h =
    let (j, named, other) = h.0 in
    let (ids, same, missing) = all_ids-IsWithout tid ds h.1 in
    ((j, d) ∷ ids, ground (arith, named, same), ground (arith, other, missing))

module _ (ops : FloatOps) where
  match_tracks-nil :
      (threshold : Float) (ts : List ActiveTrack) (taken : List ℕ)
      → match_tracks ops threshold [] ts taken ≡ []
  unfolding match_tracks best_from
  match_tracks-nil threshold [] taken = refl
  match_tracks-nil threshold (t ∷ ts) taken = match_tracks-nil threshold ts taken

  held-update_by_iou :
      (threshold : Float) (n tid : ℕ) (tracker : Tracker)
      → held tid (update_by_iou ops threshold n [] tracker).1.tracks
        ≡ held tid (values (put_lost n tracker.tracks []))
  unfolding update_by_iou put_new put_matches
  held-update_by_iou threshold n tid tracker =
      ap (λ matches. held tid (values (put_lost n tracker.tracks (put_matches ops matches []))))
        (match_tracks-nil threshold tracker.tracks [])

  held-update_by_ids :
      (n tid : ℕ) (ids : List (ℕ × Detection)) (tracker : Tracker)
      → elem tid (map (λ (p : ℕ × Detection). p.0) ids) ≡ false
      → held tid (update_by_ids ops n ids tracker).1.tracks ≡ lose_all n (held tid tracker.tracks)
  unfolding update_by_ids
  held-update_by_ids n tid ids tracker h =
      held-expire n tid _ (pass_all ids tracker.tracks).1 h
      ∙ ap (lose_all n) (held-pass_all tid ids tracker.tracks h)

  held-update :
      (threshold : Float) (n tid : ℕ) (ds : List Detection) (tracker : Tracker) (t : ActiveTrack)
      → IsWithout tid ds
      → held tid tracker.tracks ≡ t ∷ []
      → held tid (update ops threshold n ds tracker).1.tracks ≡ after_frames n 1 t
  unfolding update
  held-update threshold n tid [] tracker t h one =
      held-update_by_iou threshold n tid tracker
      ∙ held-put_lost n tid t tracker.tracks [] tt refl one
  held-update threshold n tid (d ∷ ds) tracker t h one =
      let (ids, same, missing) = all_ids-IsWithout tid (d ∷ ds) h in
      rw (update, same)
        (held-update_by_ids n tid ids tracker missing
          ∙ ap (lose_all n) one
          ∙ append-nil (after_frames n 1 t))

  held-update_none :
      (threshold : Float) (n tid : ℕ) (ds : List Detection) (tracker : Tracker)
      → IsWithout tid ds
      → held tid tracker.tracks ≡ []
      → held tid (update ops threshold n ds tracker).1.tracks ≡ []
  unfolding update
  held-update_none threshold n tid [] tracker h free =
      held-update_by_iou threshold n tid tracker
      ∙ held-put_lost_missing n tid tracker.tracks [] tt refl free
  held-update_none threshold n tid (d ∷ ds) tracker h free =
      let (ids, same, missing) = all_ids-IsWithout tid (d ∷ ds) h in
      rw (update, same) (held-update_by_ids n tid ids tracker missing ∙ ap (lose_all n) free)

  -- frames one after another
  pub updates : Float → ℕ → List (List Detection) → Tracker → Tracker
  updates threshold n [] tracker = tracker
  updates threshold n (ds ∷ frames) tracker =
      updates threshold n frames (update ops threshold n ds tracker).1

  held-updates_none :
      (threshold : Float) (n tid : ℕ) (frames : List (List Detection)) (tracker : Tracker)
      → All (IsWithout tid) frames
      → held tid tracker.tracks ≡ []
      → held tid (updates threshold n frames tracker).tracks ≡ []
  unfolding updates
  held-updates_none threshold n tid [] tracker h free = free
  held-updates_none threshold n tid (ds ∷ frames) tracker h free =
      held-updates_none threshold n tid frames _ h.1
        (held-update_none threshold n tid ds tracker h.0 free)

  after_frames-kept :
      (n k : ℕ) (t : ActiveTrack)
      → leb (t.lost_frames + 1) n ≡ true
      → after_frames n k (record t { lost_frames = t.lost_frames + 1 }) ≡ after_frames n (suc k) t
  after_frames-kept n k t b =
      ap (λ m. if leb m n then record t { lost_frames = m } ∷ [] else []) (omega arith)

  -- Of an id that one track has, unseen for no more frames than the limit: after any frames in which
  -- every detection has an id of its own and none has this one, be they empty or not, that track has
  -- been unseen for as many frames more and is otherwise the same, as long as this is within the
  -- limit; beyond the limit no track has the id.
  pub updates-lost :
      (threshold : Float) (n tid : ℕ) (frames : List (List Detection)) (tracker : Tracker)
      (t : ActiveTrack)
      → All (IsWithout tid) frames
      → held tid tracker.tracks ≡ t ∷ []
      → t.lost_frames ≤ n
      → held tid (updates threshold n frames tracker).tracks ≡ after_frames n (length frames) t
  unfolding updates
  updates-lost threshold n tid [] tracker t h one l =
      let within : leb (t.lost_frames + 0) n ≡ true = ground arith in
      let same : t.lost_frames + 0 ≡ t.lost_frames = omega arith in
      one ∙ sym (rw within (ap (λ m. record t { lost_frames = m } ∷ []) same))
  updates-lost threshold n tid (ds ∷ frames) tracker t h one l =
      let tracker' = (update ops threshold n ds tracker).1 in
      let step = held-update threshold n tid ds tracker t h.0 one in
      elim (Bool-cases (leb (t.lost_frames + 1) n)) [
        | inl b ↦
            (let t' : ActiveTrack = record t { lost_frames = t.lost_frames + 1 } in
              let one' : held tid tracker'.tracks ≡ t' ∷ [] = rw b at step in
              updates-lost threshold n tid frames tracker' t' h.1 one' (ground arith)
              ∙ after_frames-kept n (length frames) t b)
        | inr b ↦
            (let free : held tid tracker'.tracks ≡ [] = rw b at step in
              let gone : leb (t.lost_frames + suc (length frames)) n ≡ false = ground arith in
              held-updates_none threshold n tid frames tracker' h.1 free ∙ rw gone refl)
      ]
