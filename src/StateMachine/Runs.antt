-- ===== src/StateMachine/Runs.antt =====
-- What holds along a sequence of observations.
use boars_head_compliance_de.Prelude.{false, not, ◌≡◌, List, [], ◌∷◌, ◌++◌, arith, if◌then◌else◌}
use boars_head_compliance_de.Observation.{Observation}
use boars_head_compliance_de.StateMachine.{
  HandwashState, not_near_sink, near_sink_not_washing, washing, is_terminal, transition, run,
}

transition-not_terminal :
    (s : HandwashState) (obs : Observation)
    → is_terminal s ≡ false
    → is_terminal (transition s obs).new_state ≡ false
unfolding transition
transition-not_terminal s obs h = ground arith

-- The machine alone never reaches WASHED or NOT_WASHED.
pub run-not_terminal :
    (s : HandwashState) (obs : List Observation)
    → is_terminal s ≡ false
    → is_terminal (run s obs) ≡ false
unfolding run
run-not_terminal s [] h = h
run-not_terminal s (o ∷ obs) h =
    run-not_terminal (transition s o).new_state obs (transition-not_terminal s o h)

-- What two successive frames say of a person.
abbrev pub after_two : Observation → Observation → HandwashState
after_two a b =
    if not b.inside_sink_zone
    then not_near_sink
    else if not a.inside_sink_zone
    then near_sink_not_washing
    else if b.hands_interacting
    then washing
    else near_sink_not_washing

two_steps :
    (s : HandwashState) (a b : Observation)
    → is_terminal s ≡ false
    → (transition (transition s a).new_state b).new_state ≡ after_two a b
unfolding transition
two_steps s a b h = ground arith

-- From any state that is not terminal, the state after a history is decided by its last two
-- frames, whatever came before them.
pub run-last_two :
    (s : HandwashState) (obs : List Observation) (a b : Observation)
    → is_terminal s ≡ false
    → run s (obs ++ a ∷ b ∷ []) ≡ after_two a b
unfolding run
run-last_two s [] a b h = two_steps s a b h
run-last_two s (o ∷ obs) a b h =
    run-last_two (transition s o).new_state obs a b (transition-not_terminal s o h)
