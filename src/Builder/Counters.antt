-- ===== src/Builder/Counters.antt =====
-- The confirmation counters over the frames of a person.
use boars_head_compliance_de.Prelude.{
  ℕ, zero, suc, ◌+◌, ◌≤◌, ◌<◌, ◌≡◌, refl, ◌∙◌, Bool, true, false, List, [], ◌∷◌, ◌++◌, arith,
}
use boars_head_compliance_de.Builder.{Tracking, count_evidence}

-- the record after frames with and without washing evidence
pub count_frames : ℕ → List Bool → Tracking → Tracking
count_frames hold [] t = t
count_frames hold (e ∷ es) t = count_frames hold es (count_evidence hold e t)

abbrev pub misses : ℕ → List Bool
misses zero = []
misses (suc n) = false ∷ misses n

-- how many of the frames have evidence
abbrev pub positives : List Bool → ℕ
positives [] = 0
positives (true ∷ es) = suc (positives es)
positives (false ∷ es) = positives es

-- After `run` misses already, the frames have no `hold` misses in a row.
abbrev pub NoRun : ℕ → ℕ → List Bool → Type 0
NoRun hold run [] = Unit
NoRun hold run (true ∷ es) = NoRun hold 0 es
NoRun hold run (false ∷ es) = (suc run < hold) × NoRun hold (suc run) es

count_frames-append :
    (hold : ℕ) (xs ys : List Bool) (t : Tracking)
    → count_frames hold (xs ++ ys) t ≡ count_frames hold ys (count_frames hold xs t)
unfolding count_frames
count_frames-append hold [] ys t = refl
count_frames-append hold (e ∷ xs) ys t = count_frames-append hold xs ys (count_evidence hold e t)

-- enough misses in a row clear the positive frames
cleared_by_misses :
    (hold n : ℕ) (t : Tracking)
    → 0 < n
    → hold ≤ t.no_detection_frames + n
    → (count_frames hold (misses n) t).positive_frames ≡ 0
unfolding count_frames count_evidence
cleared_by_misses hold zero t h k = elim h [ ]
cleared_by_misses hold (suc zero) t h k = ground arith
cleared_by_misses hold (suc (suc n)) t h k =
    cleared_by_misses hold (suc n) (count_evidence hold false t) (omega arith) (omega arith)

adds_up :
    (hold : ℕ) (es : List Bool) (t : Tracking)
    → NoRun hold t.no_detection_frames es
    → (count_frames hold es t).positive_frames ≡ t.positive_frames + positives es
unfolding count_frames count_evidence
adds_up hold [] t h = omega arith
adds_up hold (true ∷ es) t h = adds_up hold es (count_evidence hold true t) h ∙ omega arith
adds_up hold (false ∷ es) t h =
    adds_up hold es (count_evidence hold false t) (ground (arith, h.1)) ∙ ground (arith, h.0)

from_zero :
    (hold run : ℕ) (es : List Bool) (t : Tracking)
    → t.positive_frames ≡ 0
    → NoRun hold run es
    → (count_frames hold es t).positive_frames ≡ positives es
unfolding count_frames count_evidence
from_zero hold run [] t z h = z
from_zero hold run (true ∷ es) t z h = adds_up hold es (count_evidence hold true t) h ∙ omega arith
from_zero hold run (false ∷ es) t z h =
    from_zero hold (suc run) es (count_evidence hold false t) (ground arith) h.1

-- Whatever came before, after as many misses in a row as the hold window and then any frames with
-- no such run of misses, the positive frames are the number of those frames with evidence: they
-- need not be consecutive.
pub positive_frames-since :
    (hold : ℕ) (before after : List Bool) (t : Tracking)
    → 0 < hold
    → NoRun hold 0 after
    → (count_frames hold (before ++ (misses hold ++ after)) t).positive_frames ≡ positives after
positive_frames-since hold before after t nonzero h =
    let t1 = count_frames hold before t in
    rw count_frames-append (
      rw count_frames-append (
        from_zero hold 0 after (count_frames hold (misses hold) t1)
          (cleared_by_misses hold hold t1 nonzero (omega arith)) h))
