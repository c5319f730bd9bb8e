-- ===== src/ActionLog.antt =====
-- backend/app/compliance/action_log.py: the lines that the pipeline writes for people to read.
-- A line is kept as its fields; the text of `extra` is not modelled, nor is the rendering.
use boars_head_compliance_de.Prelude.{ℕ, Option, none}
use boars_head_compliance_de.Float.{Fps}
use boars_head_compliance_de.StateMachine.{HandwashState, Reason}

-- the action labels; `reason` is a label made by `reason.upper()`
pub data Action : Type 0 where
  washing_milestone : ℕ → Action
  entered_sink_area washing_started near_sink_not_washing : Action
  washed not_washed left_sink_area process_complete violation : Action
  reason : Reason → Action

pub data Verdict : Type 0 where
  compliant violated : Verdict

pub record LogLine : Type 0 where
  pub person_id : ℕ
  pub action : Action
  pub frame_number : ℕ
  pub fps : Fps
  pub state : HandwashState
  pub result : Option Verdict

-- write_action_log, with no `result`
abbrev pub write_action_log : ℕ → Action → ℕ → Fps → HandwashState → LogLine
write_action_log person_id action frame_number fps state = record {
  person_id = person_id;
  action = action;
  frame_number = frame_number;
  fps = fps;
  state = state;
  result = none;
}
