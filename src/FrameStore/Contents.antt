-- ===== src/FrameStore/Contents.antt =====
-- What the frame store holds.
use boars_head_compliance_de.Prelude.{
  ℕ, ◌+◌, ◌≡◌, refl, Option, none, some, [], ◌∷◌, arith, length, ◌==◌, if◌then◌else◌,
}
use boars_head_compliance_de.Prelude.Dict.{Dict, nat_eq, get, put, get-put, get-pop}
use boars_head_compliance_de.Float.{Micros}
use boars_head_compliance_de.FrameStore.{
  Entry, FrameStore, is_expired, live, expired_ids, evict_expired, put_frame, take_frame,
}

module _ {ℓ} {A : Type ℓ} where
  -- the keys of a dictionary
  abbrev pub IsDistinct : Dict ℕ (Entry A) → Type ℓ
  IsDistinct [] = Unit
  IsDistinct ((k, e) ∷ d) = (get k d ≡ none) × IsDistinct d

  -- the frame under an id, if it is there and not expired
  abbrev pub visible : Micros → ℕ → FrameStore A → Option A
  visible now j s = elim (get j s.store) [
    | none ↦ none
    | some e ↦ if is_expired s.ttl now e then none else some e.frame
  ]

  get-live-none :
      (ttl now : Micros) (j : ℕ) (d : Dict ℕ (Entry A))
      → get j d ≡ none
      → get j (live ttl now d) ≡ none
  unfolding get live
  get-live-none ttl now j [] h = refl
  get-live-none ttl now j ((k, e) ∷ d) h = ground (arith, get-live-none ttl now j d)

  get-live :
      (ttl now : Micros) (j : ℕ) (d : Dict ℕ (Entry A))
      → IsDistinct d
      → get j (live ttl now d)
        ≡ elim (get j d) [ none ↦ none | some e ↦ if is_expired ttl now e then none else some e ]
  unfolding get live
  get-live ttl now j [] h = refl
  get-live ttl now j ((k, e) ∷ d) h =
      ground (arith, get-live ttl now j d h.1, get-live-none ttl now j d, h.0)

  -- A frame that was put is fetched once, and every other frame is fetched exactly if it was there
  -- and had not expired when the put looked.
  pub take_frame-put_frame :
      (now later : Micros) (i j : ℕ) (frame : A) (s : FrameStore A)
      → IsDistinct s.store
      → ((take_frame j (put_frame now later i frame s)).0
          ≡ (if i == j then some frame else visible now j s))
        × ((take_frame j (take_frame j (put_frame now later i frame s)).1).0 ≡ none)
  unfolding take_frame put_frame evict_expired
  take_frame-put_frame now later i j frame s h =
      let d = live s.ttl now s.store in
      let e : Entry A = record { frame = frame; inserted_at = later } in
      ground (arith, get-put i j e d, get-live s.ttl now j s.store h, get-pop j j (put i e d))

  length-live :
      (ttl now : Micros) (d : Dict ℕ (Entry A))
      → length (live ttl now d) + length (expired_ids ttl now d) ≡ length d
  unfolding live expired_ids
  length-live ttl now [] = omega arith
  length-live ttl now ((k, e) ∷ d) = ground (arith, length-live ttl now d)
