-- ===== src/Ingestion/Video/Rows.antt =====
-- backend/app/ingestion/connectors/video.py: the rows of the table of the videos, numbered.
use boars_head_compliance_de.Prelude.{
  ℕ, suc, ◌+◌, ◌≡◌, refl, ap, ap₂, List, [], ◌∷◌, ◌++◌, map, length, arith,
}
use boars_head_compliance_de.Ingestion.Video.{Status, VideoIngestion, update_status}

-- The rows are numbered from `k` on.
unfoldable pub IsNumbered : ℕ → List VideoIngestion → Type 0
IsNumbered k [] = Unit
IsNumbered k (row ∷ rows) = (row.video_uuid ≡ k) × IsNumbered (suc k) rows

pub IsNumbered-append :
    (k : ℕ) (rows : List VideoIngestion) (row : VideoIngestion)
    → IsNumbered k rows
    → row.video_uuid ≡ k + length rows
    → IsNumbered k (rows ++ row ∷ [])
unfolding IsNumbered
IsNumbered-append k [] row h e = (omega (arith, e), tt)
IsNumbered-append k (r ∷ rows) row (h, hs) e =
    (h, IsNumbered-append (suc k) rows row hs (omega (arith, e)))

pub update_status-IsNumbered :
    (k id : ℕ) (status : Status) (rows : List VideoIngestion)
    → IsNumbered k rows
    → IsNumbered k (update_status id status rows)
unfolding IsNumbered update_status
update_status-IsNumbered k id status [] h = h
update_status-IsNumbered k id status (r ∷ rows) (h, hs) =
    (ground arith, update_status-IsNumbered (suc k) id status rows hs)

length-update_status :
    (id : ℕ) (status : Status) (rows : List VideoIngestion)
    → length (update_status id status rows) ≡ length rows
unfolding update_status
length-update_status id status [] = refl
length-update_status id status (r ∷ rows) = ap suc (length-update_status id status rows)

abbrev pub statuses : List VideoIngestion → List Status
statuses rows = map (λ row. row.status) rows

pub statuses-append :
    (rows : List VideoIngestion) (row : VideoIngestion)
    → statuses (rows ++ row ∷ []) ≡ statuses rows ++ row.status ∷ []
statuses-append [] row = refl
statuses-append (r ∷ rows) row = ap (λ rest. r.status ∷ rest) (statuses-append rows row)

-- the row that was inserted last gets the status, and no other
pub update_status-last :
    (k id : ℕ) (status : Status) (rows : List VideoIngestion) (row : VideoIngestion)
    → IsNumbered k rows
    → row.video_uuid ≡ id
    → id ≡ k + length rows
    → statuses (update_status id status (rows ++ row ∷ [])) ≡ statuses rows ++ status ∷ []
unfolding IsNumbered update_status
update_status-last k id status [] row h e e' = ground (arith, e)
update_status-last k id status (r ∷ rows) row (h, hs) e e' =
    ap₂ ◌∷◌ (ground (arith, h))
      (update_status-last (suc k) id status rows row hs e (omega (arith, e')))
