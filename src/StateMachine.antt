-- ===== src/StateMachine.antt =====
-- backend/app/compliance/state_machine.py: the transition table of one person's visit
pub mod Diagram
pub mod Runs
use boars_head_compliance_de.Prelude.{ℕ, Bool, true, false, not, List, [], ◌∷◌, if◌then◌else◌}
use boars_head_compliance_de.Float.{Micros}
use boars_head_compliance_de.Observation.{Observation}

pub data HandwashState : Type 0 where
  not_near_sink near_sink_not_washing washing washed not_washed : HandwashState

-- the `reason` strings of `_next`
pub data Reason : Type 0 where
  new_visit_after_terminal terminal_waiting_exit still_not_near left_sink_area : Reason
  entered_sink_area washing_confirmed still_near_sink washing_stopped still_washing : Reason
  no_transition : Reason

pub record StateTransitionResult : Type 0 where
  pub previous_state : HandwashState
  pub new_state : HandwashState
  pub timestamp : Micros
  pub person_id : ℕ
  pub transitioned : Bool
  pub sequence_valid : Bool
  pub reason : Reason

-- state in (WASHED, NOT_WASHED)
abbrev pub is_terminal : HandwashState → Bool
is_terminal washed = true
is_terminal not_washed = true
is_terminal _ = false

-- ==, on states
abbrev pub same_state : HandwashState → HandwashState → Bool
same_state not_near_sink not_near_sink = true
same_state near_sink_not_washing near_sink_not_washing = true
same_state washing washing = true
same_state washed washed = true
same_state not_washed not_washed = true
same_state _ _ = false

-- the rows of the table for a hand at the sink; the last two clauses are the final `return`
at_sink : HandwashState → Bool → HandwashState × Reason
at_sink not_near_sink hands = (near_sink_not_washing, entered_sink_area)
at_sink near_sink_not_washing hands =
    if hands then (washing, washing_confirmed) else (near_sink_not_washing, still_near_sink)
at_sink washing hands =
    if not hands then (near_sink_not_washing, washing_stopped) else (washing, still_washing)
at_sink state hands = (state, no_transition)

-- _next
unfoldable pub next_state : HandwashState → Observation → HandwashState × Reason
unfolding at_sink
next_state state obs =
    if is_terminal state
    then (if not obs.inside_sink_zone
        then (not_near_sink, new_visit_after_terminal)
        else (state, terminal_waiting_exit))
    else if not obs.inside_sink_zone
    then (if same_state state not_near_sink
        then (not_near_sink, still_not_near)
        else (not_near_sink, left_sink_area))
    else at_sink state obs.hands_interacting

unfoldable pub transition : HandwashState → Observation → StateTransitionResult
unfolding next_state
transition current_state obs = record {
  previous_state = current_state;
  new_state = (next_state current_state obs).0;
  timestamp = obs.timestamp;
  person_id = obs.person_id;
  transitioned = not (same_state (next_state current_state obs).0 current_state);
  sequence_valid = true;
  reason = (next_state current_state obs).1;
}

-- the states that the machine goes through when nothing else writes the state
pub run : HandwashState → List Observation → HandwashState
run state [] = state
run state (obs ∷ rest) = run (transition state obs).new_state rest
