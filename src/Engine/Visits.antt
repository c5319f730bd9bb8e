-- ===== src/Engine/Visits.antt =====
-- One person over a sequence of frames: at most one violation for each entry to the sink area.
use boars_head_compliance_de.Prelude.{
  ℕ, ◌+◌, ◌≤◌, String, ◌≡◌, ◌≢◌, Bool, true, false, not, ◌&&◌, ◌||◌, none, List, [], ◌∷◌, arith,
  ◌==◌, if◌then◌else◌, is_some,
}
use boars_head_compliance_de.Prelude.Int.{ℤ}
use boars_head_compliance_de.Float.{Micros}
use boars_head_compliance_de.Detection.{DetectionEvent}
use boars_head_compliance_de.Observation.{Observation}
use boars_head_compliance_de.StateMachine.{not_near_sink, is_terminal, same_state, transition}
use boars_head_compliance_de.Temporal.{PersonState, update_and_analyze}
use boars_head_compliance_de.Evidence.{EvidenceLib}
use boars_head_compliance_de.Handwash.{HandwashRuleConfig, Evaluator, Evaluation, evaluate}
use boars_head_compliance_de.Engine.{advance}

-- No visit of the person is open.
abbrev pub is_settled : PersonState → Bool
is_settled s =
    is_terminal s.current_state && not (is_some s.pending_exit_at)
    || same_state s.current_state not_near_sink
      && (s.violation_confirmed
          || not (is_some s.group_id) && s.washing_seconds == 0 && s.at_sink_seconds == 0)

-- A cooldown belongs to a group.
abbrev pub cooldown_has_group : PersonState → Bool
cooldown_has_group s = not (is_some s.pending_exit_at) || is_some s.group_id

-- The frame takes the person into the sink area.
abbrev pub enters : PersonState → Observation → Bool
enters s obs = same_state s.current_state not_near_sink && obs.inside_sink_zone

module _ (ev : EvidenceLib) (uuid : ℕ → String) (config : HandwashRuleConfig) (max_gap : Micros)
    (raises : ℕ → Bool) where
  -- the person's part of the result of one frame
  abbrev pub step :
      DetectionEvent
      → Observation
      → Evaluator ev uuid config
      → PersonState
      → Evaluation ev uuid config
  step = advance ev uuid config max_gap raises

  settled_stays :
      (event : DetectionEvent) (obs : Observation) (e : Evaluator ev uuid config) (s : PersonState)
      → is_settled s ≡ true
      → enters s obs ≡ false
      → ((step event obs e s).result.outcome ≡ none)
        × (is_settled (step event obs e s).result.person_state ≡ true)
  unfolding advance update_and_analyze evaluate transition
  settled_stays event obs e s h k = ground arith

  violation_settles :
      (event : DetectionEvent) (obs : Observation) (e : Evaluator ev uuid config) (s : PersonState)
      → cooldown_has_group s ≡ true
      → (step event obs e s).result.outcome ≢ none
      → is_settled (step event obs e s).result.person_state ≡ true
  unfolding advance update_and_analyze evaluate transition
  violation_settles event obs e s h k = ground arith

  keeps_cooldown :
      (event : DetectionEvent) (obs : Observation) (e : Evaluator ev uuid config) (s : PersonState)
      → cooldown_has_group s ≡ true
      → cooldown_has_group (step event obs e s).result.person_state ≡ true
  unfolding advance update_and_analyze evaluate transition
  keeps_cooldown event obs e s h = ground arith

  -- What one frame has for a person: the evaluator may have served other persons since the last.
  pub record Shot : Type 0 where
    pub event : DetectionEvent
    pub obs : Observation
    pub evaluator : Evaluator ev uuid config
    pub last_frame_id : ℤ

  abbrev pub after : Shot → PersonState → Evaluation ev uuid config
  after x s = step x.event x.obs x.evaluator (record s { last_frame_id = x.last_frame_id })

  -- how many of the frames report a violation
  unfoldable pub violations_of : PersonState → List Shot → ℕ
  violations_of s [] = 0
  violations_of s (x ∷ xs) =
      (if is_some (after x s).result.outcome then 1 else 0)
      + violations_of (after x s).result.person_state xs

  -- how many of the frames take the person into the sink area
  pub entries_of : PersonState → List Shot → ℕ
  entries_of s [] = 0
  entries_of s (x ∷ xs) =
      (if enters s x.obs then 1 else 0) + entries_of (after x s).result.person_state xs

  abbrev pub open_visits : PersonState → ℕ
  open_visits s = if is_settled s then 0 else 1

  one_frame :
      (s : PersonState) (x : Shot)
      → cooldown_has_group s ≡ true
      → (if is_some (after x s).result.outcome then 1 else 0)
          + open_visits (after x s).result.person_state
        ≤ (if enters s x.obs then 1 else 0) + open_visits s
  one_frame s x h =
      let s' = record s { last_frame_id = x.last_frame_id } in
      ground (
        arith,
        settled_stays x.event x.obs x.evaluator s',
        violation_settles x.event x.obs x.evaluator s' h,
      )

  -- From a person with no visit open, every violation answers an entry of its own to the sink
  -- area; a visit that is open at the start may end in one more.
  pub violations-le-entries :
      (s : PersonState) (xs : List Shot)
      → cooldown_has_group s ≡ true
      → violations_of s xs ≤ entries_of s xs + open_visits s
  unfolding violations_of entries_of
  violations-le-entries s [] h = omega arith
  violations-le-entries s (x ∷ xs) h = omega (
    arith,
    one_frame s x h,
    violations-le-entries (after x s).result.person_state xs
        (keeps_cooldown x.event x.obs x.evaluator (record s { last_frame_id = x.last_frame_id }) h),
  )
