-- ===== src/StateMachine/Diagram.antt =====
-- The state model of the header of state_machine.py, as a relation that the code is held against.
use boars_head_compliance_de.Prelude.{Bool, true, false, ◌≡◌, ◌⊎◌, List, [], ◌∷◌}
use boars_head_compliance_de.Observation.{Observation}
use boars_head_compliance_de.StateMachine.{
  HandwashState, not_near_sink, near_sink_not_washing, washing, washed, not_washed,
}

-- `Edge inside hands s t`: the arrows of the drawing and of the two lines below it, and the way back
-- from the two terminal states that the text gives, by what drives them: whether the hand is at the
-- sink, and whether washing is confirmed.
pub data Edge : Bool → Bool → HandwashState → HandwashState → Type 0 where
  enter : {h : Bool} → Edge true h not_near_sink near_sink_not_washing
  confirm : Edge true true near_sink_not_washing washing
  stop : Edge true false washing near_sink_not_washing
  leave : {h : Bool} → Edge false h near_sink_not_washing not_near_sink
  leave_washing : {h : Bool} → Edge false h washing not_near_sink
  leave_washed : {h : Bool} → Edge false h washed not_near_sink
  leave_not_washed : {h : Bool} → Edge false h not_washed not_near_sink

-- A walk through the diagram: an observation is followed along its edge, and where the state has no
-- edge for it, the state stays.
pub data Walk : List Observation → HandwashState → HandwashState → Type 0 where
  done : {s : HandwashState} → Walk [] s s
  follow :
      {s t u : HandwashState} {obs : Observation} {rest : List Observation}
      → Edge obs.inside_sink_zone obs.hands_interacting s t
      → Walk rest t u
      → Walk (obs ∷ rest) s u
  stay :
      {s u : HandwashState} {obs : Observation} {rest : List Observation}
      → ((t : HandwashState) → ¬ Edge obs.inside_sink_zone obs.hands_interacting s t)
      → Walk rest s u
      → Walk (obs ∷ rest) s u

-- A state follows its edge, or stays where there is none.
abbrev Moves : Bool → Bool → HandwashState → HandwashState → Type 0
Moves i h s t = Edge i h s t ⊎ ((t ≡ s) × ((u : HandwashState) → ¬ Edge i h s u))
