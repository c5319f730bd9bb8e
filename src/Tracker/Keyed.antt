-- ===== src/Tracker/Keyed.antt =====
-- The tracks of one id in the dictionary that the IoU branch of `update` fills.
use mathlib.Core.List.{cons-ne-nil, head-eq_of_cons-eq, tail-eq_of_cons-eq}
use boars_head_compliance_de.Prelude.{
  ℕ, ◌+◌, ◌≡◌, refl, sym, subst, ◌∙◌, true, false, none, List, [], ◌∷◌, map, arith, leb, All, ◌==◌,
  ==_iff, Bool-cases, Option-cases, inl, inr,
}
use boars_head_compliance_de.Prelude.Dict.{Dict, nat_eq, get, put}
use boars_head_compliance_de.Tracker.{ActiveTrack, put_lost}
use boars_head_compliance_de.Tracker.Held.{held, after_frames}

-- The dictionary that a frame fills has each track under its id.
abbrev Keyed : Dict ℕ ActiveTrack → Type 0
Keyed d = All (λ (p : ℕ × ActiveTrack). p.1.track_id ≡ p.0) d

abbrev pub values : Dict ℕ ActiveTrack → List ActiveTrack
values d = map (λ (p : ℕ × ActiveTrack). p.1) d

put-Keyed : (u : ActiveTrack) (d : Dict ℕ ActiveTrack) → Keyed d → Keyed (put u.track_id u d)
unfolding put
put-Keyed u [] k = (refl, tt)
put-Keyed u ((j, w) ∷ d) k = elim (Bool-cases (nat_eq.beq j u.track_id)) [
  | inl e ↦ rw e (sym ((==_iff j u.track_id).0 e), k.1)
  | inr e ↦ rw e (k.0, put-Keyed u d k.1)
]

held-put_other :
    (tid : ℕ) (u : ActiveTrack) (d : Dict ℕ ActiveTrack)
    → (u.track_id == tid) ≡ false
    → Keyed d
    → held tid (values (put u.track_id u d)) ≡ held tid (values d)
unfolding put
held-put_other tid u [] h k = rw h refl
held-put_other tid u ((j, w) ∷ d) h k = elim (Bool-cases (nat_eq.beq j u.track_id)) [
  | inl e ↦
      (let w_other : (w.track_id == tid) ≡ false = rw (k.0, (==_iff j u.track_id).0 e) h in
        rw (e, h, w_other) refl)
  | inr e ↦ rw e (ground (arith, held-put_other tid u d h k.1))
]

held-put_new :
    (u : ActiveTrack) (d : Dict ℕ ActiveTrack)
    → Keyed d
    → held u.track_id (values d) ≡ []
    → held u.track_id (values (put u.track_id u d)) ≡ u ∷ []
unfolding put
held-put_new u [] k h = ground arith
held-put_new u ((j, w) ∷ d) k h = elim (Bool-cases (nat_eq.beq j u.track_id)) [
  | inl e ↦
      (let w_same : (w.track_id == u.track_id) ≡ true = rw k.0 e in
        absurd (cons-ne-nil w _ (rw w_same at h)))
  | inr e ↦
      (let w_other : (w.track_id == u.track_id) ≡ false = rw k.0 e in
        rw (e, w_other) (held-put_new u d k.1 (rw w_other at h)))
]

get-held :
    (tid : ℕ) (d : Dict ℕ ActiveTrack) → Keyed d → get tid d ≡ none → held tid (values d) ≡ []
unfolding get
get-held tid [] k h = refl
get-held tid ((j, w) ∷ d) k h = ground (arith, k.0, h, get-held tid d k.1)

held-get :
    (tid : ℕ) (d : Dict ℕ ActiveTrack) → Keyed d → held tid (values d) ≡ [] → get tid d ≡ none
unfolding get
held-get tid [] k h = refl
held-get tid ((j, w) ∷ d) k h = ground (arith, k.0, h, held-get tid d k.1)

-- a track of an id that is there already stays as it is
held-put_lost_there :
    (n tid : ℕ) (u : ActiveTrack) (ts : List ActiveTrack) (d : Dict ℕ ActiveTrack)
    → Keyed d
    → held tid (values d) ≡ u ∷ []
    → held tid (values (put_lost n ts d)) ≡ u ∷ []
unfolding put_lost
held-put_lost_there n tid u [] d k h = h
held-put_lost_there n tid u (t ∷ ts) d k h = elim (Option-cases (get t.track_id d)) [
  | inr (v, a) ↦ rw a (held-put_lost_there n tid u ts d k h)
  | inl a ↦ elim (Bool-cases (leb (t.lost_frames + 1) n)) [
    | inr b ↦ rw (a, b) (held-put_lost_there n tid u ts d k h)
    | inl b ↦
        (let t' : ActiveTrack = record t { lost_frames = t.lost_frames + 1 } in
          let other : (t.track_id == tid) ≡ false = elim (Bool-cases (t.track_id == tid)) [
            | inr e ↦ e
            | inl e ↦
                (let same = (==_iff t.track_id tid).0 e in
                  let missing : held tid (values d) ≡ [] = get-held tid d k (rw (← same) a) in
                  absurd (cons-ne-nil u [] (sym h ∙ missing)))
          ] in
          rw (a, b)
            (held-put_lost_there n tid u ts (put t'.track_id t' d) (put-Keyed t' d k)
              (held-put_other tid t' d other k ∙ h)))
  ]
]

pub held-put_lost_missing :
    (n tid : ℕ) (ts : List ActiveTrack) (d : Dict ℕ ActiveTrack)
    → Keyed d
    → held tid (values d) ≡ []
    → held tid ts ≡ []
    → held tid (values (put_lost n ts d)) ≡ []
unfolding put_lost
held-put_lost_missing n tid [] d k h free = h
held-put_lost_missing n tid (t ∷ ts) d k h free = elim (Bool-cases (t.track_id == tid)) [
  | inl e ↦ absurd (cons-ne-nil t _ (rw e at free))
  | inr e ↦
      (let rest_free : held tid ts ≡ [] = rw e at free in
        let t' : ActiveTrack = record t { lost_frames = t.lost_frames + 1 } in
        elim (Option-cases (get t.track_id d)) [
          | inr (v, a) ↦ rw a (held-put_lost_missing n tid ts d k h rest_free)
          | inl a ↦ elim (Bool-cases (leb (t.lost_frames + 1) n)) [
            | inr b ↦ rw (a, b) (held-put_lost_missing n tid ts d k h rest_free)
            | inl b ↦
                rw (a, b)
                  (held-put_lost_missing n tid ts (put t'.track_id t' d) (put-Keyed t' d k)
                    (held-put_other tid t' d e k ∙ h) rest_free)
          ]
        ])
]

pub held-put_lost :
    (n tid : ℕ) (u : ActiveTrack) (ts : List ActiveTrack) (d : Dict ℕ ActiveTrack)
    → Keyed d
    → held tid (values d) ≡ []
    → held tid ts ≡ u ∷ []
    → held tid (values (put_lost n ts d)) ≡ after_frames n 1 u
unfolding put_lost
held-put_lost n tid u [] d k h one = absurd (cons-ne-nil u [] (sym one))
held-put_lost n tid u (t ∷ ts) d k h one =
    let t' : ActiveTrack = record t { lost_frames = t.lost_frames + 1 } in
    elim (Bool-cases (t.track_id == tid)) [
      | inl e ↦
          (let one' : t ∷ held tid ts ≡ u ∷ [] = rw e at one in
            let same = head-eq_of_cons-eq one' in
            let free = tail-eq_of_cons-eq one' in
            let tid_same = (==_iff t.track_id tid).0 e in
            let a : get t.track_id d ≡ none = rw tid_same (held-get tid d k h) in
            elim (Bool-cases (leb (t.lost_frames + 1) n)) [
              | inr b ↦ rw (a, b, ← same, b) (held-put_lost_missing n tid ts d k h free)
              | inl b ↦
                  rw (a, b, ← same, b)
                    (held-put_lost_there n tid t' ts (put t'.track_id t' d) (put-Keyed t' d k) (
                      subst (λ i. held i (values (put t'.track_id t' d)) ≡ t' ∷ []) tid_same
                        (held-put_new t' d k (rw tid_same h))))
            ])
      | inr e ↦
          (let one' : held tid ts ≡ u ∷ [] = rw e at one in
            elim (Option-cases (get t.track_id d)) [
              | inr (v, a) ↦ rw a (held-put_lost n tid u ts d k h one')
              | inl a ↦ elim (Bool-cases (leb (t.lost_frames + 1) n)) [
                | inr b ↦ rw (a, b) (held-put_lost n tid u ts d k h one')
                | inl b ↦
                    rw (a, b)
                      (held-put_lost n tid u ts (put t'.track_id t' d) (put-Keyed t' d k)
                        (held-put_other tid t' d e k ∙ h) one')
              ]
            ])
    ]
