-- ===== src/Dashboard/RoundTrip.antt =====
-- backend/app/main.py and frontend/repository/api.py: the violations that the dashboard gets are those
-- that the backend has.
use mathlib.Core.List.{Mem, mem-cons_self, mem-cons_of_mem}
use text.Mathlib.Text.{◌==◌ as str_eq}
use boars_head_compliance_de.Prelude.{
  ℕ, ◌≤◌, String, ◌≡◌, refl, ◌⊎◌, inl, inr, true, false, Option, none, some, List, [], ◌∷◌, map,
  ltb, arith, All, Bool-cases, Option-cases,
}
use boars_head_compliance_de.Float.{Float, Micros}
use boars_head_compliance_de.Serialization.{find}
use boars_head_compliance_de.Dashboard.{Builtins}
use boars_head_compliance_de.Dashboard.Violations.{
  ViolationRow, TemporalMetric, ShownViolation, list_recent, measures, later, latest_metric,
  reason_display, text_of, washing_of, violation_to_dict, api_violations, parse_violation,
  parse_all, get_violations,
}

-- The row chosen is one of the rows for the violation, and no later one is; or there is none.
pub IsLatest : ViolationRow → List TemporalMetric → Option TemporalMetric → Type 0
IsLatest v metrics none = All (λ m. measures v m ≡ false) metrics
IsLatest v metrics (some n) =
    Mem n metrics
    × (measures v n ≡ true)
    × All (λ m. (measures v m ≡ false) ⊎ (m.evaluated_at ≤ n.evaluated_at)) metrics

All-map {ℓ κ μ} :
    {A : Type ℓ} {P : A → Type κ} {Q : A → Type μ}
    → ((a : A) → P a → Q a)
    → (xs : List A) → All P xs
    → All Q xs
All-map f [] h = tt
All-map f (x ∷ xs) (h, hs) = (f x h, All-map f xs hs)

IsLatest-skip :
    (v : ViolationRow) (m : TemporalMetric) (metrics : List TemporalMetric)
    (o : Option TemporalMetric)
    → measures v m ≡ false
    → IsLatest v metrics o
    → IsLatest v (m ∷ metrics) o
unfolding IsLatest
IsLatest-skip v m metrics none h rest = (h, rest)
IsLatest-skip v m metrics (some n) h (among, fits, latest) =
    (mem-cons_of_mem m among, fits, (inl h, latest))

later-IsLatest :
    (v : ViolationRow) (m : TemporalMetric) (metrics : List TemporalMetric)
    (o : Option TemporalMetric)
    → measures v m ≡ true
    → IsLatest v metrics o
    → IsLatest v (m ∷ metrics) (later m o)
unfolding IsLatest
later-IsLatest v m metrics none h rest =
    (mem-cons_self, h, (inr (omega arith), All-map (λ k e. inl e) metrics rest))
later-IsLatest v m metrics (some n) h (among, fits, latest) =
    elim (Bool-cases (ltb m.evaluated_at n.evaluated_at)) [
      | inl e ↦ rw e (mem-cons_of_mem m among, fits, (inr (ground arith), latest))
      | inr e ↦ rw e (
        mem-cons_self,
        h,
        (
          inr (omega arith),
          All-map
              (λ k c. elim c [ inl not_measured ↦ inl not_measured | inr le ↦ inr (ground arith) ])
              metrics latest,
        ),
      )
    ]

latest_metric-IsLatest :
    (v : ViolationRow) (metrics : List TemporalMetric)
    → IsLatest v metrics (latest_metric v metrics)
unfolding latest_metric IsLatest
latest_metric-IsLatest v [] = tt
latest_metric-IsLatest v (m ∷ metrics) =
    let rest = latest_metric-IsLatest v metrics in
    elim (Bool-cases (measures v m)) [
      | inl e ↦ rw e (later-IsLatest v m metrics (latest_metric v metrics) e rest)
      | inr e ↦ rw e (IsLatest-skip v m metrics (latest_metric v metrics) e rest)
    ]

-- What the program relies on: a time as a text is not empty, and is read as the time it was.
pub record ReadsTimes (py : Builtins) : Type 0 where
  pub isoformat-nonempty : (t : Micros) → str_eq (py.isoformat t) "" ≡ false
  pub fromisoformat-isoformat : (t : Micros) → py.fromisoformat (py.isoformat t) ≡ some t

module _ (py : Builtins) (required : Float) (now : Micros) where
  abbrev pub shown : List TemporalMetric → ViolationRow → ShownViolation
  shown metrics v = record {
    group_id = v.group_id;
    camera_id = v.camera_id;
    camera_name = py.title (py.replace v.camera_id "-" " ");
    zone_id = v.zone_id;
    zone_name = py.title (py.replace v.zone_id "_" " ");
    timestamp = v.confirmed_at;
    rule_id = "handwash_compliance";
    reason = text_of v.reason_code;
    reason_display = reason_display (text_of v.reason_code) (text_of v.reason);
    washing_duration_seconds = washing_of py (latest_metric v metrics);
    required_duration_seconds = required;
  }

  parse-violation_to_dict :
      ReadsTimes py
      → (v : ViolationRow) (metrics : List TemporalMetric)
      → parse_violation py now (violation_to_dict py required v (some metrics))
        ≡ some (shown metrics v)
  unfolding parse_violation violation_to_dict find
  parse-violation_to_dict times v metrics = elim (Option-cases (latest_metric v metrics)) [
    | inl e ↦
        rw
          (times.isoformat-nonempty v.confirmed_at, times.fromisoformat-isoformat v.confirmed_at, e)
          refl
    | inr (m, e) ↦
        rw
          (times.isoformat-nonempty v.confirmed_at, times.fromisoformat-isoformat v.confirmed_at, e)
          refl
  ]

  parse_all-map :
      ReadsTimes py
      → (rows : List ViolationRow) (metrics : List TemporalMetric)
      → parse_all py now (map (λ v. violation_to_dict py required v (some metrics)) rows)
        ≡ some (map (shown metrics) rows)
  unfolding parse_all
  parse_all-map times [] metrics = refl
  parse_all-map times (v ∷ rows) metrics =
      rw (parse-violation_to_dict times v metrics, parse_all-map times rows metrics) refl

  -- Where times are read as they were written: the violations that the dashboard gets are, in their
  -- order, the rows that the database finds for the camera and the limit, each with its ids, its
  -- time of confirmation, its reason, the washing duration of the row chosen for it, and the required
  -- duration. And the row chosen for a violation is one of the metrics of its camera, zone and track
  -- that is not after the confirmation, and no later one of these; or there are no such metrics and
  -- no duration is shown.
  pub get-api_violations :
      ReadsTimes py
      → (rows : List ViolationRow) (metrics : List TemporalMetric) (camera : Option String)
        (limit : ℕ) (v : ViolationRow)
      → (get_violations py now (api_violations py required (some (rows, metrics)) camera limit)
          ≡ map (shown metrics) (list_recent camera limit rows))
        × IsLatest v metrics (latest_metric v metrics)
  unfolding get_violations api_violations
  get-api_violations times rows metrics camera limit v = (
    rw (parse_all-map times (list_recent camera limit rows) metrics) refl,
    latest_metric-IsLatest v metrics,
  )
