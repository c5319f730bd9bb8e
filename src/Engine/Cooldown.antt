-- ===== src/Engine/Cooldown.antt =====
-- A person who leaves the sink: the verdict comes with the first frame after the cooldown.
use boars_head_compliance_de.Prelude.{
  ℕ, ◌+◌, ◌-◌, ◌≤◌, ◌<◌, String, ◌≡◌, refl, ◌≢◌, ◌⊎◌, Bool, false, none, some, List, [], ◌∷◌, arith,
  if◌then◌else◌, leb,
}
use boars_head_compliance_de.Float.{Micros}
use boars_head_compliance_de.StateMachine.{
  not_near_sink, near_sink_not_washing, washing, same_state, transition,
}
use boars_head_compliance_de.Temporal.{PersonState, update_and_analyze}
use boars_head_compliance_de.Evidence.{EvidenceLib}
use boars_head_compliance_de.Handwash.{HandwashRuleConfig, violation, evaluate}
use boars_head_compliance_de.Handwash.Outcomes.{earned, final_state}
use boars_head_compliance_de.Engine.{advance}
use boars_head_compliance_de.Engine.Visits.{Shot, after, violations_of}

-- The person is at the sink in a visit that has a group and no verdict.
pub record IsVisiting (s : PersonState) : Type 0 where
  pub at_sink : (s.current_state ≡ near_sink_not_washing) ⊎ (s.current_state ≡ washing)
  pub grouped : s.group_id ≢ none
  pub not_pending : s.pending_exit_at ≡ none
  pub undecided : s.violation_confirmed ≡ false

-- The person left at `since` with `washed_for` of washing, and the visit waits for its verdict.
pub record IsWaiting (since washed_for : Micros) (s : PersonState) : Type 0 where
  pub away : s.current_state ≡ not_near_sink
  pub grouped : s.group_id ≢ none
  pub pending : s.pending_exit_at ≡ some since
  pub undecided : s.violation_confirmed ≡ false
  pub washing_time : s.washing_seconds ≡ washed_for

-- the washing time of a person who leaves at `now`
abbrev pub washing_time_at : Micros → PersonState → Micros
washing_time_at now s =
    s.washing_seconds + (if same_state s.current_state washing then now - s.state_started_at else 0)

module _ (ev : EvidenceLib) (uuid : ℕ → String) (config : HandwashRuleConfig) (max_gap : Micros)
    (raises : ℕ → Bool) where
  -- The frame, at `now`, has the person away from the sink.
  pub record IsAway (now : Micros) (x : Shot ev uuid config max_gap raises) : Type 0 where
    pub outside : x.obs.inside_sink_zone ≡ false
    pub seen_at : x.obs.timestamp ≡ now
    pub captured_at : x.event.captured_at ≡ now

  module _ (s : PersonState) (x : Shot ev uuid config max_gap raises) (now : Micros)
      (away : IsAway now x) where
    leaves :
        IsVisiting s
        → IsWaiting now
            (washing_time_at now s)
            (after ev uuid config max_gap raises x s).result.person_state
          × ((after ev uuid config max_gap raises x s).result.outcome ≡ none)
    unfolding advance update_and_analyze evaluate transition
    leaves v = ground arith

    waits :
        (since washed_for : Micros)
        → IsWaiting since washed_for s
        → since ≤ now
        → now < since + config.session_cooldown_seconds
        → IsWaiting since washed_for (after ev uuid config max_gap raises x s).result.person_state
          × ((after ev uuid config max_gap raises x s).result.outcome ≡ none)
    unfolding advance update_and_analyze evaluate transition
    waits since washed_for w early late = ground arith

    closes :
        (since washed_for : Micros)
        → IsWaiting since washed_for s
        → since + config.session_cooldown_seconds ≤ now
        → ((after ev uuid config max_gap raises x s).result.person_state.current_state
            ≡ final_state (earned config.minimum_washing_duration_seconds washed_for))
          × ((after ev uuid config max_gap raises x s).result.outcome ≡ (
              if leb config.minimum_washing_duration_seconds washed_for
              then none
              else some violation))
    unfolding advance update_and_analyze evaluate transition
    closes since washed_for w late = ground arith

  -- The frames all have the person away, from `since` on and before `limit`.
  abbrev pub StaysAway : Micros → Micros → List (Shot ev uuid config max_gap raises) → Type 0
  StaysAway since limit [] = Unit
  StaysAway since limit (x ∷ xs) =
      (IsAway x.obs.timestamp x × (since ≤ x.obs.timestamp) × (x.obs.timestamp < limit))
      × StaysAway since limit xs

  -- the person's state after the frames
  pub state_after : PersonState → List (Shot ev uuid config max_gap raises) → PersonState
  state_after s [] = s
  state_after s (x ∷ xs) =
      state_after (after ev uuid config max_gap raises x s).result.person_state xs

  keeps_IsWaiting :
      (since washed_for : Micros) (s : PersonState) (xs : List (Shot ev uuid config max_gap raises))
      → IsWaiting since washed_for s
      → StaysAway since (since + config.session_cooldown_seconds) xs
      → IsWaiting since washed_for (state_after s xs)
        × (violations_of ev uuid config max_gap raises s xs ≡ 0)
  unfolding state_after violations_of
  keeps_IsWaiting since washed_for s [] w away = (w, refl)
  keeps_IsWaiting since washed_for s (x ∷ xs) w away =
      let now = x.obs.timestamp in
      let step = waits s x now away.0.0 since washed_for w away.0.1 away.0.2 in
      let rest =
        keeps_IsWaiting since washed_for
          (after ev uuid config max_gap raises x s).result.person_state xs step.0 away.1 in
      (rest.0, rw step.1 (omega (arith, rest.1)))

  -- A person leaves the sink in the middle of a visit that has a group, and stays away. Until the
  -- cooldown has run out no frame reports a violation; the first frame after it gives the verdict
  -- that the washing time up to the leaving earns, and reports a violation if that is too short.
  pub verdict_on_time :
      (s : PersonState) (first last : Shot ev uuid config max_gap raises)
      (xs : List (Shot ev uuid config max_gap raises))
      → IsVisiting s
      → IsAway first.obs.timestamp first
      → StaysAway first.obs.timestamp (first.obs.timestamp + config.session_cooldown_seconds) xs
      → IsAway last.obs.timestamp last
      → first.obs.timestamp + config.session_cooldown_seconds ≤ last.obs.timestamp
      → let washed_for = washing_time_at first.obs.timestamp s in
        let end = after ev uuid config max_gap raises last (state_after s (first ∷ xs)) in
        (violations_of ev uuid config max_gap raises s (first ∷ xs) ≡ 0)
        × (end.result.person_state.current_state
            ≡ final_state (earned config.minimum_washing_duration_seconds washed_for))
        × (end.result.outcome ≡ (
            if leb config.minimum_washing_duration_seconds washed_for
            then none
            else some violation))
  unfolding state_after violations_of
  verdict_on_time s first last xs v left away returned late =
      let now = first.obs.timestamp in
      let washed_for = washing_time_at now s in
      let s1 = (after ev uuid config max_gap raises first s).result.person_state in
      let start = leaves s first now left v in
      let rest = keeps_IsWaiting now washed_for s1 xs start.0 away in
      let end =
        closes (state_after s1 xs) last last.obs.timestamp returned now washed_for rest.0 late in
      (rw start.1 (omega (arith, rest.1)), end.0, end.1)
