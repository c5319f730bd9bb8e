-- ===== src/Handwash.antt =====
-- backend/app/compliance/rules/{base,config,handwash}.py: the handwash rule for one person.
-- The evaluator's in-memory state is its evidence buffers and the number of `uuid.uuid4()` calls
-- made; `uuid n` is the text that call number n returns. Log lines come back with the result.
pub mod Outcomes
pub mod Groups
pub mod Evidence
pub mod Config
use boars_head_compliance_de.Prelude.{
  ℕ, ◌+◌, ◌-◌, ◌*◌, ◌/◌, String, ◌≡◌, ◌↔◌, Bool, true, false, not, ◌&&◌, Option, none, some, List,
  [], ◌∷◌, ◌++◌, arith, ltb, leb, ◌==◌, if◌then◌else◌, is_some,
}
use boars_head_compliance_de.Prelude.Dict.{Dict, Eq, nat_eq, string_eq, get, put, pop}
use boars_head_compliance_de.Float.{Float, Micros, Fps, seconds}
use boars_head_compliance_de.Detection.{Detection, Bytes}
use boars_head_compliance_de.StateMachine.{
  HandwashState, not_near_sink, near_sink_not_washing, washing, washed, not_washed,
}
use boars_head_compliance_de.Temporal.{PersonState, TemporalMetrics}
use boars_head_compliance_de.ActionLog
use boars_head_compliance_de.ActionLog.{Action, Verdict, LogLine, write_action_log}
use boars_head_compliance_de.Evidence.{EvidenceLib}

pub record HandwashRuleConfig : Type 0 where
  pub minimum_washing_duration_seconds : Micros
  pub absence_threshold_seconds : Micros
  pub evidence_buffer_max : ℕ
  pub confirmation_frames : ℕ
  pub reset_after_no_detection_seconds : Micros
  pub min_hands_for_washing : ℕ
  pub min_hand_movement : Float
  pub require_hand_movement : Bool
  pub person_box_expand_x : Float
  pub person_box_expand_y : Float
  pub max_person_sink_distance : Float
  pub sink_horizontal_margin : Float
  pub sink_top_margin : Float
  pub sink_bottom_margin : Float
  pub session_cooldown_seconds : Micros

abbrev pub min_sink_entry_frames : ℕ
min_sink_entry_frames = 2

-- (camera_id, zone_id, person_id)
pub record BufferKey : Type 0 where
  pub camera_id : String
  pub zone_id : String
  pub person_id : ℕ

abbrev pub same_key : BufferKey → BufferKey → Bool
same_key a b =
    string_eq.beq a.camera_id b.camera_id
    && string_eq.beq a.zone_id b.zone_id
    && (a.person_id == b.person_id)

pub same_key_iff : (a b : BufferKey) → (same_key a b ≡ true) ↔ (a ≡ b)
same_key_iff a b =
    ground (arith, string_eq.beq_iff a.camera_id b.camera_id, string_eq.beq_iff a.zone_id b.zone_id)

instance abbrev pub buffer_key_eq : Eq BufferKey
buffer_key_eq = record { beq = same_key; beq_iff = same_key_iff }

-- the arguments of `evaluate` other than the state and the metrics
pub record Frame : Type 0 where
  pub camera_id : String
  pub zone_id : String
  pub timestamp : Micros
  pub thumbnail : Option Bytes
  pub frame_id : ℕ
  pub source_fps : Fps
  pub detections : List Detection
  pub frame_shape : ℕ × ℕ

pub data Outcome : Type 0 where
  violation : Outcome

-- `_reset_visit`
unfoldable pub reset_visit : PersonState → PersonState
reset_visit s = record s {
  consecutive_absence_frames = 0;
  washing_duration_logged = 0;
  washing_seconds = 0;
  at_sink_seconds = 0;
}

-- the whole multiple of 5 seconds that the washing has reached
abbrev milestone : TemporalMetrics → ℕ
milestone m = m.washing_duration / seconds 5 * 5

module _ (ev : EvidenceLib) (uuid : ℕ → String) (config : HandwashRuleConfig) where
  open ev use {Payload, Buffer, item, open_buffer, add, freeze, frozen}

  pub record Evaluator : Type 0 where
    pub buffers : Dict BufferKey Buffer
    pub uuids : ℕ

  pub record RuleEvaluationResult : Type 0 where
    pub person_state : PersonState
    pub outcome : Option Outcome
    pub evidence : Option Payload

  -- the result of a call, the evaluator after it, and the lines that it logged
  pub record Evaluation : Type 0 where
    pub result : RuleEvaluationResult
    pub evaluator : Evaluator
    pub log : List LogLine

  -- a buffer that takes further items
  abbrev pub live_buffer : Evaluator → BufferKey → Option Buffer
  live_buffer e key = elim (get key e.buffers) [
    | none ↦ none
    | some buf ↦ if frozen buf then none else some buf
  ]

  unfoldable pub has_active_session : Evaluator → String → String → ℕ → Bool
  has_active_session e camera_id zone_id person_id =
      is_some
        (live_buffer e (record { camera_id = camera_id; zone_id = zone_id; person_id = person_id }))

  abbrev pub key_of : Frame → PersonState → BufferKey
  key_of f s = record { camera_id = f.camera_id; zone_id = f.zone_id; person_id = s.person_id }

  -- RuleEvaluationResult(person_state=state, outcome=None, evidence=None)
  abbrev pub quiet : PersonState → Evaluator → Evaluation
  quiet s e = record {
    result = record { person_state = s; outcome = none; evidence = none };
    evaluator = e;
    log = [];
  }

  -- EvidenceItem(...)
  unfoldable pub item_of : Frame → ℕ → Option (List Detection × (ℕ × ℕ)) → ev.Item
  item_of f person_id shot = item (record {
    frame_id = f.frame_id;
    timestamp = f.timestamp;
    thumbnail = f.thumbnail;
    camera_id = f.camera_id;
    zone_id = f.zone_id;
    person_id = person_id;
    shot = shot;
  })

  -- `buf.add(EvidenceItem(...))` on the live buffer of a key, if there is one
  unfoldable pub add_item :
      Frame → ℕ → BufferKey → Option (List Detection × (ℕ × ℕ)) → Evaluator → Evaluator
  add_item f person_id key shot e = elim (live_buffer e key) [
    | none ↦ e
    | some buf ↦ record e { buffers = put key (add (item_of f person_id shot) buf) e.buffers }
  ]

  -- a fresh group_id, and its buffer
  unfoldable pub open_group : Frame → BufferKey → PersonState → Evaluator → PersonState × Evaluator
  open_group f key s e =
      let group_id = uuid e.uuids in
      (
        record s {
          group_id = some group_id;
          has_group_key = true;
          absence_started_at = some f.timestamp;
        },
        record {
          buffers =
              put key (open_buffer config.evidence_buffer_max group_id f.camera_id f.zone_id)
                e.buffers;
          uuids = e.uuids + 1;
        },
      )

  -- `_discard_buffer`; the buffer that is popped has no other owner
  unfoldable pub discard_buffer : BufferKey → PersonState → Evaluator → PersonState × Evaluator
  discard_buffer key s e = (
    record s {
      group_id = none;
      has_group_key = true;
      absence_started_at = none;
      violation_confirmed = false;
      consecutive_absence_frames = 0;
    },
    record e { buffers = pop key e.buffers },
  )

  abbrev line : Frame → PersonState → Action → HandwashState → Option Verdict → LogLine
  line f s action state result =
      record (write_action_log s.person_id action f.frame_id f.source_fps state) { result = result }

  -- `_confirm_violation`
  unfoldable pub confirm_violation : Frame → BufferKey → PersonState → Evaluator → Evaluation
  confirm_violation f key s e = record {
    result = record {
      person_state = record s { violation_confirmed = true };
      outcome = some violation;
      evidence = elim (live_buffer e key) [ none ↦ none | some buf ↦ some (freeze buf).0 ];
    };
    evaluator = elim (live_buffer e key) [
      | none ↦ e
      | some buf ↦ record e { buffers = put key (freeze buf).1 e.buffers }
    ];
    log = line f s ActionLog.violation not_washed (some Verdict.violated) ∷ [];
  }

  -- the end of `_handle_zone_exit`: the verdict on the visit
  unfoldable pub finalise : Frame → TemporalMetrics → PersonState → Evaluator → Evaluation
  unfolding discard_buffer confirm_violation reset_visit
  finalise f m s e =
      if leb config.minimum_washing_duration_seconds m.washing_duration
      then (let (s', e') = discard_buffer (key_of f s) (record s { current_state = washed }) e in
          record {
            result = record { person_state = reset_visit s'; outcome = none; evidence = none };
            evaluator = e';
            log =
                line f s ActionLog.washed washed none
                ∷ line f s ActionLog.left_sink_area washed none
                ∷ line f s ActionLog.process_complete washed (some Verdict.compliant)
                ∷ [];
          })
      else (let v = confirm_violation f (key_of f s) (record s { current_state = not_washed }) e in
          record v {
            result = record v.result { person_state = reset_visit v.result.person_state };
            log =
                v.log
                ++ line f s ActionLog.not_washed not_washed none
                  ∷ line f s ActionLog.left_sink_area not_washed none
                  ∷ line f s ActionLog.process_complete not_washed (some Verdict.violated)
                  ∷ [];
          })

  -- the cooldown of an active session, by its `pending_exit_at`
  unfoldable pub cool_down :
      Option Micros → Frame → TemporalMetrics → PersonState → Evaluator → Evaluation
  unfolding finalise reset_visit
  cool_down none f m s e = quiet (record s { pending_exit_at = some f.timestamp }) e
  cool_down (some since) f m s e =
      if ltb f.timestamp since
      then quiet
          (reset_visit (record s {
            pending_exit_at = none;
            group_id = none;
            has_group_key = true;
            absence_started_at = none;
          }))
          (record e { buffers = pop (key_of f s) e.buffers })
      else if ltb (f.timestamp - since) config.session_cooldown_seconds
      then quiet s e
      else finalise f m (record s { pending_exit_at = none }) e

  -- `_handle_zone_exit`
  unfoldable pub handle_zone_exit : Frame → TemporalMetrics → PersonState → Evaluator → Evaluation
  unfolding cool_down finalise reset_visit
  handle_zone_exit f m s e =
      if s.violation_confirmed
      then quiet (record s { consecutive_absence_frames = 0 }) e
      else elim s.group_id [
        | none ↦
            if m.washing_duration == 0 && m.at_sink_duration == 0
            then quiet (reset_visit s) e
            else finalise f m s e
        | some group_id ↦ cool_down s.pending_exit_at f m s e
      ]

  -- `_handle_washing_active`
  unfoldable pub handle_washing_active : Frame → PersonState → Evaluator → PersonState × Evaluator
  unfolding open_group add_item
  handle_washing_active f s e =
      let s' = record s { pending_exit_at = none; consecutive_absence_frames = 0 } in
      let (s2, e2) = if is_some s'.group_id then (s', e) else open_group f (key_of f s) s' e in
      (s2, add_item f s.person_id (key_of f s) (some (f.detections, f.frame_shape)) e2)

  -- `_handle_near_sink_not_washing` from the comment "Debounce" on
  unfoldable pub debounce : Frame → PersonState → Evaluator → Evaluation
  unfolding open_group add_item
  debounce f s e =
      if is_some s.group_id
      then quiet s (add_item f s.person_id (key_of f s) none e)
      else (let s' = record s { consecutive_absence_frames = s.consecutive_absence_frames + 1 } in
          if ltb s'.consecutive_absence_frames min_sink_entry_frames
          then quiet s' e
          else (let (s2, e2) = open_group f (key_of f s) s' e in
              quiet s2 (add_item f s.person_id (key_of f s) none e2)))

  -- `_handle_near_sink_not_washing`
  unfoldable pub handle_near_sink_not_washing : Frame → PersonState → Evaluator → Evaluation
  unfolding debounce add_item
  handle_near_sink_not_washing f s e =
      if s.violation_confirmed
      then quiet s e
      else if not (is_some s.pending_exit_at)
      then debounce f s e
      else if is_some (live_buffer e (key_of f s))
      then quiet (record s { pending_exit_at = none; consecutive_absence_frames = 0 })
          (add_item f s.person_id (key_of f s) (some (f.detections, f.frame_shape)) e)
      else debounce f
          (record s {
            pending_exit_at = none;
            group_id = none;
            has_group_key = true;
            absence_started_at = none;
            violation_confirmed = false;
          })
          e

  -- the WASHING branch of `evaluate`
  unfoldable pub evaluate_washing : Frame → TemporalMetrics → PersonState → Evaluator → Evaluation
  unfolding handle_washing_active
  evaluate_washing f m s e =
      let due = leb 5 (milestone m) && ltb s.washing_duration_logged (milestone m) in
      let s' = if due then record s { washing_duration_logged = milestone m } else s in
      let (s2, e2) = handle_washing_active f s' e in
      record (quiet s2 e2) {
        log =
            if due
            then line f s (ActionLog.washing_milestone (milestone m)) washing none ∷ []
            else [];
      }

  -- the dispatch of `evaluate` on `current_state`
  abbrev dispatch : HandwashState → Frame → TemporalMetrics → PersonState → Evaluator → Evaluation
  dispatch not_near_sink f m s e = handle_zone_exit f m s e
  dispatch washing f m s e = evaluate_washing f m s e
  dispatch near_sink_not_washing f m s e = handle_near_sink_not_washing f s e
  dispatch _ f m s e = quiet s e

  unfoldable pub evaluate : Evaluator → PersonState → TemporalMetrics → Frame → Evaluation
  unfolding handle_zone_exit evaluate_washing handle_near_sink_not_washing
  evaluate e s m f = dispatch s.current_state f m s e
