-- ===== src/TemporalAnalyzer.antt =====
-- backend/app/compliance/temporal_analyzer.py, the older analyzer: a violation is confirmed when it
-- has lasted.
use boars_head_compliance_de.Prelude.{
  ℕ, ◌+◌, ◌≡◌, refl, ap, ◌∙◌, Bool, true, false, ◌&&◌, Option, none, some, List, [], ◌∷◌, ◌++◌,
  length, leb, arith,
}
use boars_head_compliance_de.Float.{Micros}

pub record TemporalAnalyzer : Type 0 where
  pub min_seconds : Micros
  pub debounce_frames : ℕ
  pub violation_start : Option Micros
  pub debounce_count : ℕ

-- `self._violation_start`, set to `now` if it is None
abbrev start_of : Micros → Option Micros → Micros
start_of now none = now
start_of now (some start) = start

-- `now` is what time.monotonic() returns
unfoldable pub observe : Micros → Bool → TemporalAnalyzer → Bool × TemporalAnalyzer
observe now true a =
    let start = start_of now a.violation_start in
    let count = a.debounce_count + 1 in
    (
      leb (start + a.min_seconds) now && leb a.debounce_frames count,
      record a { violation_start = some start; debounce_count = count },
    )
observe now false a = (false, record a { violation_start = none; debounce_count = 0 })

-- frames one after another
unfoldable pub observe_all : List (Micros × Bool) → TemporalAnalyzer → TemporalAnalyzer
observe_all [] a = a
observe_all ((now, is_violation) ∷ frames) a = observe_all frames (observe now is_violation a).1

abbrev pub violating : List Micros → List (Micros × Bool)
violating [] = []
violating (now ∷ times) = (now, true) ∷ violating times

-- the analyzer in a run of violations
abbrev counting : Micros → ℕ → TemporalAnalyzer → TemporalAnalyzer
counting first n a = record a { violation_start = some first; debounce_count = n }

observe_all-violating :
    (times : List Micros) (first : Micros) (n : ℕ) (a : TemporalAnalyzer)
    → observe_all (violating times) (counting first n a) ≡ counting first (n + length times) a
unfolding observe_all observe
observe_all-violating [] first n a = ap (λ m. counting first m a) (omega arith)
observe_all-violating (now ∷ times) first n a =
    observe_all-violating times first (n + 1) a ∙ ap (λ m. counting first m a) (omega arith)

observe_all-append :
    (xs ys : List (Micros × Bool)) (a : TemporalAnalyzer)
    → observe_all (xs ++ ys) a ≡ observe_all ys (observe_all xs a)
unfolding observe_all
observe_all-append [] ys a = refl
observe_all-append ((now, b) ∷ xs) ys a = observe_all-append xs ys (observe now b a).1

-- the settings stay
counting-observe_all :
    (first : Micros) (n : ℕ) (frames : List (Micros × Bool)) (a : TemporalAnalyzer)
    → counting first n (observe_all frames a) ≡ counting first n a
unfolding observe_all observe
counting-observe_all first n [] a = refl
counting-observe_all first n ((now, true) ∷ frames) a = counting-observe_all first n frames _
counting-observe_all first n ((now, false) ∷ frames) a = counting-observe_all first n frames _

observe_all-quiet :
    (before : List (Micros × Bool)) (quiet first : Micros) (times : List Micros)
    (a : TemporalAnalyzer)
    → observe_all (before ++ (quiet, false) ∷ (first, true) ∷ violating times) a
      ≡ counting first (1 + length times) a
unfolding observe_all observe
observe_all-quiet before quiet first times a =
    observe_all-append before ((quiet, false) ∷ (first, true) ∷ violating times) a
    ∙ observe_all-violating times first 1 (observe_all before a)
    ∙ counting-observe_all first (1 + length times) before a

-- Whatever came before, after a frame without a violation, a violation from `first` on with more
-- frames of it is confirmed at `now` exactly if it has lasted for the minimum time and has at least
-- as many frames as the debounce asks for.
pub observe-confirms :
    (before : List (Micros × Bool)) (quiet first : Micros) (times : List Micros) (now : Micros)
    (a : TemporalAnalyzer)
    → (observe now true
        (observe_all (before ++ (quiet, false) ∷ (first, true) ∷ violating times) a)).0
      ≡ (leb (first + a.min_seconds) now && leb a.debounce_frames (length times + 2))
unfolding observe
observe-confirms before quiet first times now a =
    let count : 1 + length times + 1 ≡ length times + 2 = omega arith in
    ap (λ (b : TemporalAnalyzer). (observe now true b).0)
      (observe_all-quiet before quiet first times a)
    ∙ ap (λ n. leb (first + a.min_seconds) now && leb a.debounce_frames n) count
