-- ===== src/Tracker/Held.antt =====
-- The tracks of one id through the passthrough branch of `update`.
use mathlib.Core.List.{append-nil}
use boars_head_compliance_de.Prelude.{
  ℕ, ◌+◌, ◌≡◌, refl, ap, ◌∙◌, false, List, [], ◌∷◌, ◌++◌, map, arith, leb, select, ◌==◌, ==_iff,
  Bool-cases, Option-cases, inl, inr, if◌then◌else◌,
}
use boars_head_compliance_de.Detection.{BoundingBox, Detection}
use boars_head_compliance_de.Absence.{elem}
use boars_head_compliance_de.Tracker.{
  ActiveTrack, new_track, find_track, refresh_first, pass_detection, pass_all, expire,
}

-- the tracks of an id
abbrev pub held : ℕ → List ActiveTrack → List ActiveTrack
held tid ts = select (λ (t : ActiveTrack). t.track_id == tid) ts

-- a track after as many frames more without it, within the limit
abbrev pub after_frames : ℕ → ℕ → ActiveTrack → List ActiveTrack
after_frames n k t =
    if leb (t.lost_frames + k) n then record t { lost_frames = t.lost_frames + k } ∷ [] else []

abbrev pub lose_all : ℕ → List ActiveTrack → List ActiveTrack
lose_all n [] = []
lose_all n (t ∷ ts) = after_frames n 1 t ++ lose_all n ts

held-append :
    (tid : ℕ) (xs ys : List ActiveTrack) → held tid (xs ++ ys) ≡ held tid xs ++ held tid ys
held-append tid [] ys = refl
held-append tid (t ∷ xs) ys = ground (arith, held-append tid xs ys)

pub held-expire :
    (n tid : ℕ) (seen : List ℕ) (ts : List ActiveTrack)
    → elem tid seen ≡ false
    → held tid (expire n seen ts) ≡ lose_all n (held tid ts)
unfolding expire
held-expire n tid seen [] h = refl
held-expire n tid seen (t ∷ ts) h = elim (Bool-cases (t.track_id == tid)) [
  | inl e ↦
      (let unseen : elem t.track_id seen ≡ false = rw ((==_iff t.track_id tid).0 e) h in
        elim (Bool-cases (leb (t.lost_frames + 1) n)) [
          | inl b ↦
              rw (unseen, e, b, e)
                (ap (λ xs. record t { lost_frames = t.lost_frames + 1 } ∷ xs)
                  (held-expire n tid seen ts h))
          | inr b ↦ rw (unseen, e, b) (held-expire n tid seen ts h)
        ])
  | inr e ↦ elim (Bool-cases (elem t.track_id seen)) [
    | inl seen' ↦ rw (seen', e) (held-expire n tid seen ts h)
    | inr unseen ↦ elim (Bool-cases (leb (t.lost_frames + 1) n)) [
      | inl b ↦ rw (unseen, b, e) (held-expire n tid seen ts h)
      | inr b ↦ rw (unseen, b, e) (held-expire n tid seen ts h)
    ]
  ]
]

held-refresh_first :
    (tid other : ℕ) (bbox : BoundingBox) (ts : List ActiveTrack)
    → (other == tid) ≡ false
    → held tid (refresh_first other bbox ts) ≡ held tid ts
unfolding refresh_first
held-refresh_first tid other bbox [] h = refl
held-refresh_first tid other bbox (t ∷ ts) h =
    ground (arith, h, held-refresh_first tid other bbox ts h)

held-pass_detection :
    (tid other : ℕ) (d : Detection) (ts : List ActiveTrack)
    → (other == tid) ≡ false
    → held tid (pass_detection other d ts).1 ≡ held tid ts
unfolding pass_detection
held-pass_detection tid other d ts h = elim (Option-cases (find_track other ts)) [
  | inl a ↦
      rw (a, pass_detection)
        (held-append tid ts (new_track other d.bbox ∷ []) ∙ rw h (append-nil (held tid ts)))
  | inr (t, a) ↦ rw (a, pass_detection) (held-refresh_first tid other d.bbox ts h)
]

pub held-pass_all :
    (tid : ℕ) (ids : List (ℕ × Detection)) (ts : List ActiveTrack)
    → elem tid (map (λ (p : ℕ × Detection). p.0) ids) ≡ false
    → held tid (pass_all ids ts).1 ≡ held tid ts
unfolding pass_all elem
held-pass_all tid [] ts h = refl
held-pass_all tid ((other, d) ∷ ids) ts h =
    held-pass_all tid ids (pass_detection other d ts).1 (ground (arith, h))
    ∙ held-pass_detection tid other d ts (ground (arith, h))
