-- ===== src/FrameStore.antt =====
-- backend/app/infrastructure/frame_store/in_memory.py: frames by their id until they are fetched or
-- expire. `now` is what time.monotonic() returns.
pub mod Contents
use boars_head_compliance_de.Prelude.{
  ℕ, ◌+◌, Bool, true, false, not, Option, none, some, List, [], ◌∷◌, length, ltb, ◌==◌,
  if◌then◌else◌,
}
use boars_head_compliance_de.Prelude.Dict.{Dict, nat_eq, get, put, pop}
use boars_head_compliance_de.Float.{Micros}

pub record Entry {ℓ} (A : Type ℓ) : Type ℓ where
  pub frame : A
  pub inserted_at : Micros

pub record FrameStore {ℓ} (A : Type ℓ) : Type ℓ where
  pub ttl : Micros
  pub store : Dict ℕ (Entry A)
  pub evicted_total : ℕ

module _ {ℓ} {A : Type ℓ} where
  -- `__init__`; `none` is a ValueError
  unfoldable pub open_store : Micros → Option (FrameStore A)
  open_store ttl =
      if ttl == 0 then none else some (record { ttl = ttl; store = []; evicted_total = 0 })

  -- inserted_at < now - ttl
  abbrev pub is_expired : Micros → Micros → Entry A → Bool
  is_expired ttl now entry = ltb (entry.inserted_at + ttl) now

  unfoldable pub live : Micros → Micros → Dict ℕ (Entry A) → Dict ℕ (Entry A)
  live ttl now [] = []
  live ttl now ((fid, entry) ∷ entries) =
      let rest = live ttl now entries in
      if is_expired ttl now entry then rest else (fid, entry) ∷ rest

  unfoldable pub expired_ids : Micros → Micros → Dict ℕ (Entry A) → List ℕ
  expired_ids ttl now [] = []
  expired_ids ttl now ((fid, entry) ∷ entries) =
      let rest = expired_ids ttl now entries in
      if is_expired ttl now entry then fid ∷ rest else rest

  unfoldable pub evict_expired : Micros → FrameStore A → ℕ × FrameStore A
  unfolding live expired_ids
  evict_expired now s =
      let expired = length (expired_ids s.ttl now s.store) in
      (
        expired,
        record s { store = live s.ttl now s.store; evicted_total = s.evicted_total + expired },
      )

  -- the clock is read for the eviction and again for the new entry
  unfoldable pub put_frame : Micros → Micros → ℕ → A → FrameStore A → FrameStore A
  put_frame now later frame_id frame s =
      let s' = (evict_expired now s).1 in
      record s' { store = put frame_id (record { frame = frame; inserted_at = later }) s'.store }

  -- `get`
  unfoldable pub take_frame : ℕ → FrameStore A → Option A × FrameStore A
  take_frame frame_id s = (
    elim (get frame_id s.store) [ none ↦ none | some entry ↦ some entry.frame ],
    record s { store = pop frame_id s.store },
  )

  unfoldable pub size : FrameStore A → ℕ
  size s = length s.store
