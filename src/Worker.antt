-- ===== src/Worker.antt =====
-- backend/app/compliance/worker.py: the thread that feeds detection events to the engine. The queue
-- and the engine are those of an interface; `get` and `process` return an exception as a value.
pub mod Drain
use boars_head_compliance_de.Prelude.{
  ℕ, zero, suc, Bool, true, false, Option, none, some, List, [], ◌∷◌, if◌then◌else◌,
}
use boars_head_compliance_de.Detection.{DetectionEvent}

-- `mq.get` on `inference.detections`
pub data Poll : Type 0 where
  empty : Poll
  queue_error : Poll
  received : DetectionEvent → Poll

pub record WorkerOps : Type 1 where
  pub Queue : Type 0
  pub Engine : Type 0
  pub get : Queue → Poll × Queue
  -- whether the call raises, and the engine after it
  pub process : DetectionEvent → Engine → Bool × Engine
  pub flush : Engine → Engine

module _ (ops : WorkerOps) where
  open ops use {Queue, Engine, get, process, flush}

  -- What happens before one pass of the main loop: `stop` may be called, and other threads publish.
  pub record Round : Type 0 where
    pub stop_set : Bool
    pub arrivals : Queue → Queue

  -- the body of the main loop; an exception of `process` is logged
  unfoldable pub handle_poll : Poll → Engine → Engine
  handle_poll empty engine = engine
  handle_poll queue_error engine = engine
  handle_poll (received event) engine = (process event engine).1

  -- `while not stop_event.is_set()`; `none` is that the rounds are used up
  unfoldable pub work : List Round → Queue → Engine → Option (Queue × Engine)
  work [] queue engine = none
  work (r ∷ rounds) queue engine =
      let (poll, queue') = get (r.arrivals queue) in
      let rest = work rounds queue' (handle_poll poll engine) in
      if r.stop_set then some (queue, engine) else rest

  -- The loop that empties the queue, which ends at any exception. The first argument bounds its
  -- passes, and `none` is that they are used up.
  unfoldable pub drain : ℕ → Queue → Engine → Option (Queue × Engine)
  drain zero queue engine = none
  drain (suc passes) queue engine =
      let (poll, queue') = get queue in
      elim poll [
        | empty ↦ some (queue', engine)
        | queue_error ↦ some (queue', engine)
        | received event ↦
            (let (raised, engine') = process event engine in
              elim raised [ true ↦ some (queue', engine') | false ↦ drain passes queue' engine' ])
      ]

  -- `_run`
  unfoldable pub run : List Round → ℕ → Queue → Engine → Option (Queue × Engine)
  run rounds passes queue engine = elim (work rounds queue engine) [
    | none ↦ none
    | some (queue', engine') ↦ elim (drain passes queue' engine') [
      | none ↦ none
      | some (queue'', engine'') ↦ some (queue'', flush engine'')
    ]
  ]
