-- ===== src/Dashboard/Violations.antt =====
-- backend/app/main.py (`_violation_to_dict`, `api_violations`), backend/app/infrastructure/database/
-- repositories/violation.py and frontend/repository/api.py (`_parse_violation`): a violation from its row
-- to the dashboard. Of the rows the columns are kept that are read.
use text.Mathlib.Text.{◌==◌ as str_eq}
use boars_head_compliance_de.Prelude.{
  ℕ, zero, suc, String, Bool, true, ◌&&◌, Option, none, some, List, [], ◌∷◌, map, select, leb, ltb,
  ◌==◌, if◌then◌else◌,
}
use boars_head_compliance_de.Prelude.Dict.{Dict, string_eq, get}
use boars_head_compliance_de.Float.{Float, Micros}
use boars_head_compliance_de.Serialization.{
  Json, null, int, float, str, Fields, end, field, find, as_text, ◌>>=◌,
}
use boars_head_compliance_de.Dashboard.{Builtins, time_or_null, as_number}

pub record ViolationRow : Type 0 where
  pub group_id : String
  pub camera_id : String
  pub zone_id : String
  pub track_id : ℕ
  pub violation_type : String
  pub reason_code : Option String
  pub reason : Option String
  pub confirmed_at : Micros
  pub started_at : Option Micros
  pub status : String

pub record TemporalMetric : Type 0 where
  pub camera_id : String
  pub zone_id : String
  pub track_id : ℕ
  pub evaluated_at : Micros
  pub washing_duration : Float

pub record ShownViolation : Type 0 where
  pub group_id : String
  pub camera_id : String
  pub camera_name : String
  pub zone_id : String
  pub zone_name : String
  pub timestamp : Micros
  pub rule_id : String
  pub reason : String
  pub reason_display : String
  pub washing_duration_seconds : Option Float
  pub required_duration_seconds : Float

-- ORDER BY confirmed_at DESC; rows of the same time keep their order
unfoldable pub insert_row : ViolationRow → List ViolationRow → List ViolationRow
insert_row v [] = v ∷ []
insert_row v (w ∷ rows) =
    let rest = insert_row v rows in
    if ltb v.confirmed_at w.confirmed_at then w ∷ rest else v ∷ w ∷ rows

unfoldable pub latest_first : List ViolationRow → List ViolationRow
latest_first [] = []
latest_first (v ∷ rows) = insert_row v (latest_first rows)

abbrev take {ℓ} : {A : Type ℓ} → ℕ → List A → List A
take zero xs = []
take (suc n) [] = []
take (suc n) (x ∷ xs) = x ∷ take n xs

-- the filter for a camera; None and "" are no filter
abbrev of_camera : Option String → ViolationRow → Bool
of_camera none v = true
of_camera (some camera) v = if str_eq camera "" then true else str_eq v.camera_id camera

-- ViolationRepository.list_recent
unfoldable pub list_recent : Option String → ℕ → List ViolationRow → List ViolationRow
list_recent camera limit rows = take limit (latest_first (select (of_camera camera) rows))

-- the WHERE of the query in `_violation_to_dict`
abbrev pub measures : ViolationRow → TemporalMetric → Bool
measures v m =
    str_eq m.camera_id v.camera_id
    && str_eq m.zone_id v.zone_id
    && m.track_id == v.track_id
    && leb m.evaluated_at v.confirmed_at

abbrev pub later : TemporalMetric → Option TemporalMetric → Option TemporalMetric
later m none = some m
later m (some n) = if ltb m.evaluated_at n.evaluated_at then some n else some m

-- ORDER BY evaluated_at DESC and the first row
unfoldable pub latest_metric : ViolationRow → List TemporalMetric → Option TemporalMetric
latest_metric v [] = none
latest_metric v (m ∷ metrics) =
    let rest = latest_metric v metrics in if measures v m then later m rest else rest

-- `REASON_DISPLAY`
abbrev pub reason_texts : Dict String String
reason_texts =
    ("required_duration_not_reached", "Required washing duration was not reached")
    ∷ ("soap_not_detected", "Soap was not detected")
    ∷ ("water_not_detected", "Water was not detected")
    ∷ ("sequence_invalid", "Handwash sequence was not followed correctly")
    ∷ ("incomplete", "Handwashing was not completed")
    ∷ []

-- x or y, of texts
abbrev pub or_else : String → String → String
or_else s t = if str_eq s "" then t else s

abbrev pub text_of : Option String → String
text_of none = ""
text_of (some s) = s

abbrev pub reason_display : String → String → String
reason_display code text = elim (get code reason_texts) [
  | some shown ↦ or_else shown (or_else text code)
  | none ↦ or_else text code
]

-- v.get(key) of a float that may be None, and v.get(key, default)
abbrev float_or_none : Option Json → Option (Option Float)
float_or_none none = some none
float_or_none (some null) = some none
float_or_none (some j) = as_number j >>= λ x. some (some x)

abbrev float_or : Float → Option Json → Option Float
float_or default none = some default
float_or default (some j) = as_number j

-- v.get(key) or ""
abbrev text_or_blank : Option Json → Option String
text_or_blank none = some ""
text_or_blank (some null) = some ""
text_or_blank (some j) = as_text j

module _ (py : Builtins) where
  abbrev float_or_null : Option Float → Json
  float_or_null none = null
  float_or_null (some x) = float x

  abbrev pub washing_of : Option TemporalMetric → Option Float
  washing_of none = none
  washing_of (some m) = some (py.round m.washing_duration 2)

  -- the query; without a session or where it raises, None
  abbrev pub washing_shown : ViolationRow → Option (List TemporalMetric) → Option Float
  washing_shown v none = none
  washing_shown v (some metrics) = washing_of (latest_metric v metrics)

  -- `_violation_to_dict`, with `_required_washing_duration`
  unfoldable pub violation_to_dict : Float → ViolationRow → Option (List TemporalMetric) → Fields
  violation_to_dict required v session = field "group_id" (str v.group_id) (
      field "camera_id" (str v.camera_id) (
        field "zone_id" (str v.zone_id) (
          field "track_id" (int v.track_id) (
            field "violation_type" (str v.violation_type) (
              field "reason_code" (str (text_of v.reason_code)) (
                field "reason" (str (text_of v.reason)) (
                  field "confirmed_at" (str (py.isoformat v.confirmed_at)) (
                    field "started_at" (time_or_null py v.started_at) (
                      field "status" (str v.status) (
                        field "washing_duration_seconds" (float_or_null (washing_shown v session))
                          (field "required_duration_seconds" (float required) end)))))))))))

  -- `api_violations`; without a database there are none
  unfoldable pub api_violations :
      Float → Option (List ViolationRow × List TemporalMetric) → Option String → ℕ → List Fields
  api_violations required none camera limit = []
  api_violations required (some (rows, metrics)) camera limit =
      map (λ v. violation_to_dict required v (some metrics)) (list_recent camera limit rows)

  -- `fromisoformat(x) if x else now`
  abbrev time_or_now : Micros → Option Json → Option Micros
  time_or_now now none = some now
  time_or_now now (some null) = some now
  time_or_now now (some (str s)) = if str_eq s "" then some now else py.fromisoformat s
  time_or_now now (some other) = none

  -- `_parse_violation`; `none` is an exception
  unfoldable pub parse_violation : Micros → Fields → Option ShownViolation
  parse_violation now v = do
    timestamp ← time_or_now now (find "confirmed_at" v)
    reason_code ← text_or_blank (find "reason_code" v)
    reason_text ← text_or_blank (find "reason" v)
    camera_id ← find "camera_id" v >>= as_text
    zone_id ← find "zone_id" v >>= as_text
    group_id ← find "group_id" v >>= as_text
    washing ← float_or_none (find "washing_duration_seconds" v)
    required ← float_or (py.fraction 5 1) (find "required_duration_seconds" v)
    some (record {
      group_id = group_id;
      camera_id = camera_id;
      camera_name = py.title (py.replace camera_id "-" " ");
      zone_id = zone_id;
      zone_name = py.title (py.replace zone_id "_" " ");
      timestamp = timestamp;
      rule_id = "handwash_compliance";
      reason = reason_code;
      reason_display = reason_display reason_code reason_text;
      washing_duration_seconds = washing;
      required_duration_seconds = required;
    })

  -- `get_violations` of the answer; an exception in any of them gives the empty list
  unfoldable pub parse_all : Micros → List Fields → Option (List ShownViolation)
  parse_all now [] = some []
  parse_all now (v ∷ vs) = do
    shown ← parse_violation now v
    rest ← parse_all now vs
    some (shown ∷ rest)

  abbrev or_nothing : Option (List ShownViolation) → List ShownViolation
  or_nothing none = []
  or_nothing (some vs) = vs

  -- `get_violations`, where the backend answered
  unfoldable pub get_violations : Micros → List Fields → List ShownViolation
  get_violations now answer = or_nothing (parse_all now answer)
