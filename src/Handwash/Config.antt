-- ===== src/Handwash/Config.antt =====
-- backend/app/compliance/rules/config.py: the configuration of the rule from the section `compliance` of
-- the configuration file, and its checks. The numbers of the section are not negative. `none` is an
-- exception: a ValueError of the checks, or a value that is not converted.
use boars_head_compliance_de.Prelude.{
  ℕ, ◌<◌, String, ◌≡◌, refl, sym, ap, subst, ◌∙◌, inl, inr, Option-cases, Bool, true, false, not,
  ◌&&◌, Option, none, some, if◌then◌else◌, ltb, arith,
}
use boars_head_compliance_de.Float.{Float, Micros, seconds}
use boars_head_compliance_de.Serialization.{Json, Fields, end, find, as_fields, ◌>>=◌}
use boars_head_compliance_de.Inference.Resolver.{is_falsy}
use boars_head_compliance_de.Handwash.{HandwashRuleConfig}

-- int(x), float(x), and float(x) of a duration in seconds; the float of the fraction n / d
pub record Conversions : Type 0 where
  pub to_int : Json → Option ℕ
  pub to_float : Json → Option Float
  pub to_duration : Json → Option Micros
  pub fraction : ℕ → ℕ → Float

-- `__post_init__`
unfoldable pub check_config : HandwashRuleConfig → Option HandwashRuleConfig
check_config c =
    if ltb 0 c.minimum_washing_duration_seconds
      && ltb 0 c.evidence_buffer_max
      && ltb 0 c.confirmation_frames
      && ltb 0 c.min_hands_for_washing
    then some c
    else none

-- d.get(key, {}) that is used as a dict
abbrev section_of : String → Fields → Option Fields
section_of key d = elim (find key d) [ none ↦ some end | some j ↦ as_fields j ]

-- a conversion of d.get(key, default)
abbrev read_or {ℓ} : {A : Type ℓ} → (Json → Option A) → A → String → Fields → Option A
read_or convert default key d = elim (find key d) [ none ↦ some default | some j ↦ convert j ]

-- bool(d.get(key, True))
abbrev truth_or_true : String → Fields → Bool
truth_or_true key d = elim (find key d) [ none ↦ true | some j ↦ not (is_falsy j) ]

module _ (py : Conversions) where
  open py use {to_int, to_float, to_duration, fraction}

  -- the arguments of `from_config`'s call of the constructor
  unfoldable pub read_config : Fields → Option HandwashRuleConfig
  read_config compliance = do
    hw ← section_of "handwash" compliance
    wash ← section_of "washing" compliance
    assoc ← section_of "association" compliance
    minimum ← read_or to_duration (seconds 5) "minimum_washing_duration_seconds" hw
    absence ← read_or to_duration (seconds 5) "absence_threshold_seconds" hw
    buffer_max ← read_or to_int 10 "evidence_buffer_max" hw
    cooldown ← read_or to_duration (seconds 10) "session_cooldown_seconds" hw
    frames ← read_or to_int 3 "confirmation_frames" wash
    reset ← read_or to_duration (seconds 1) "reset_after_no_detection_seconds" wash
    hands ← read_or to_int 1 "min_hands" wash
    movement ← read_or to_float (fraction 2 1) "min_hand_movement" wash
    expand_x ← read_or to_float (fraction 15 100) "person_box_expand_x" assoc
    expand_y ← read_or to_float (fraction 20 100) "person_box_expand_y" assoc
    distance ← read_or to_float (fraction 2 1) "max_person_sink_distance" assoc
    horizontal ← read_or to_float (fraction 30 100) "sink_horizontal_margin" assoc
    top ← read_or to_float (fraction 150 100) "sink_top_margin" assoc
    bottom ← read_or to_float (fraction 20 100) "sink_bottom_margin" assoc
    some (record {
      minimum_washing_duration_seconds = minimum;
      absence_threshold_seconds = absence;
      evidence_buffer_max = buffer_max;
      confirmation_frames = frames;
      reset_after_no_detection_seconds = reset;
      min_hands_for_washing = hands;
      min_hand_movement = movement;
      require_hand_movement = truth_or_true "require_hand_movement" wash;
      person_box_expand_x = expand_x;
      person_box_expand_y = expand_y;
      max_person_sink_distance = distance;
      sink_horizontal_margin = horizontal;
      sink_top_margin = top;
      sink_bottom_margin = bottom;
      session_cooldown_seconds = cooldown;
    })

  -- `from_config`
  unfoldable pub config_from_section : Fields → Option HandwashRuleConfig
  config_from_section compliance = read_config compliance >>= check_config

-- What the checks are for.
pub record IsUsable (c : HandwashRuleConfig) : Type 0 where
  pub has_minimum : 0 < c.minimum_washing_duration_seconds
  pub keeps_evidence : 0 < c.evidence_buffer_max
  pub confirms : 0 < c.confirmation_frames
  pub needs_hands : 0 < c.min_hands_for_washing

abbrev passes : HandwashRuleConfig → Bool
passes c =
    ltb 0 c.minimum_washing_duration_seconds
    && ltb 0 c.evidence_buffer_max
    && ltb 0 c.confirmation_frames
    && ltb 0 c.min_hands_for_washing

IsUsable-of_passes : (c : HandwashRuleConfig) → passes c ≡ true → IsUsable c
IsUsable-of_passes c h = record {
  has_minimum = ground (arith, h);
  keeps_evidence = ground (arith, h);
  confirms = ground (arith, h);
  needs_hands = ground (arith, h);
}

if-some {ℓ} :
    {A : Type ℓ} (b : Bool) (d c : A) → (if b then some d else none) ≡ some c → (b ≡ true) × (d ≡ c)
if-some true d c h = (refl, cc)
if-some false d c h = cc

check_config-IsUsable : (d c : HandwashRuleConfig) → check_config d ≡ some c → IsUsable c
unfolding check_config
check_config-IsUsable d c h =
    let (passed, same) = if-some (passes d) d c h in
    subst IsUsable same (IsUsable-of_passes d passed)

-- A configuration that is read from a section asks for some washing, keeps some evidence, and needs
-- a frame and a hand at least.
config_from_section-IsUsable :
    (py : Conversions) (compliance : Fields) (c : HandwashRuleConfig)
    → config_from_section py compliance ≡ some c
    → IsUsable c
unfolding config_from_section
config_from_section-IsUsable py compliance c h = elim (Option-cases (read_config py compliance)) [
  | inl e ↦ (let absurd_none : none ≡ some c = sym (ap (λ o. o >>= check_config) e) ∙ h in cc)
  | inr (d, e) ↦ check_config-IsUsable d c (sym (ap (λ o. o >>= check_config) e) ∙ h)
]
