-- ===== src/Worker/Drain.antt =====
-- The end of the worker's thread over the in-memory queue.
use boars_head_compliance_de.Prelude.{
  ℕ, zero, suc, ◌<◌, String, ◌≡◌, refl, ◌∙◌, false, Option, none, some, List, [], ◌∷◌, arith,
  length,
}
use boars_head_compliance_de.Prelude.Dict.{string_eq, get-put_self}
use boars_head_compliance_de.Detection.{DetectionEvent}
use boars_head_compliance_de.Queue.{
  MessageQueue, get_message, topic_buffer, get_or_create, put_items,
}
use boars_head_compliance_de.Queue.Topics.{get_message-none, get_message-some}
use boars_head_compliance_de.Worker.{Poll, empty, received, WorkerOps, Round, work, drain, run}

abbrev pub detection_topic : String
detection_topic = "inference.detections"

abbrev poll_of :
    Option DetectionEvent × MessageQueue DetectionEvent → Poll × MessageQueue DetectionEvent
poll_of (none, q) = (empty, q)
poll_of (some event, q) = (received event, q)

module _ {E : Type 0} (process : DetectionEvent → E → E) (flush : E → E) where
  -- an engine that raises nothing, over the in-memory queue
  abbrev pub over_memory : WorkerOps
  over_memory = record {
    Queue = MessageQueue DetectionEvent;
    Engine = E;
    get = λ q. poll_of (get_message detection_topic q);
    process = λ event engine. (false, process event engine);
    flush = flush;
  }

  abbrev pub process_all : List DetectionEvent → E → E
  process_all [] engine = engine
  process_all (event ∷ events) engine = process_all events (process event engine)

  abbrev pub waiting : MessageQueue DetectionEvent → List DetectionEvent
  waiting q = (topic_buffer detection_topic (get_or_create detection_topic q)).items

  waiting-put_items :
      (events : List DetectionEvent) (q : MessageQueue DetectionEvent)
      → waiting (put_items detection_topic events q) ≡ events
  unfolding get_or_create
  waiting-put_items events q =
      ground (arith, get-put_self {V = List DetectionEvent} detection_topic events q.queues)

  waiting-get_or_create :
      (q : MessageQueue DetectionEvent) → waiting (get_or_create detection_topic q) ≡ waiting q
  unfolding get_or_create
  waiting-get_or_create q =
      ground (arith, get-put_self {V = List DetectionEvent} detection_topic [] q.queues)

  drain-empty :
      (passes : ℕ) (q : MessageQueue DetectionEvent) (engine : E)
      → waiting q ≡ []
      → drain over_memory (suc passes) q engine ≡ some (get_or_create detection_topic q, engine)
  unfolding drain
  drain-empty passes q engine e =
      let got = get_message-none 0 detection_topic q e in rw (got, drain) (rw got refl)

  drain-event :
      (passes : ℕ) (q : MessageQueue DetectionEvent) (engine : E) (event : DetectionEvent)
      (events : List DetectionEvent)
      → waiting q ≡ event ∷ events
      → drain over_memory (suc passes) q engine
        ≡ drain over_memory passes
            (put_items detection_topic events (get_or_create detection_topic q))
            (process event engine)
  unfolding drain
  drain-event passes q engine event events e =
      let got = get_message-some 0 detection_topic q event events e in rw (got, drain) (rw got refl)

  drain-waiting :
      (events : List DetectionEvent) (passes : ℕ) (q : MessageQueue DetectionEvent) (engine : E)
      → waiting q ≡ events
      → length events < passes
      → (q' : MessageQueue DetectionEvent) × (drain over_memory passes q engine
          ≡ some (q', process_all events engine))
        × (waiting q' ≡ [])
  unfolding drain
  drain-waiting events zero q engine e h = elim h [ ]
  drain-waiting [] (suc passes) q engine e h =
      (get_or_create detection_topic q, drain-empty passes q engine e, waiting-get_or_create q ∙ e)
  drain-waiting (event ∷ events) (suc passes) q engine e h =
      let q1 = put_items detection_topic events (get_or_create detection_topic q) in
      let (q', done, nothing) =
        drain-waiting events passes q1 (process event engine)
          (waiting-put_items events (get_or_create detection_topic q)) (omega arith) in
      (q', drain-event passes q engine event events e ∙ done, nothing)

  -- When the main loop has seen the stop, and no other thread publishes any more, the drain ends
  -- after one more pass than there are events waiting: all of them are processed, in their order,
  -- then the engine is flushed once, and no event is left.
  pub run-drains :
      (rounds : List (Round over_memory)) (passes : ℕ) (q q1 : MessageQueue DetectionEvent)
      (engine engine1 : E)
      → work over_memory rounds q engine ≡ some (q1, engine1)
      → length (waiting q1) < passes
      → (q2 : MessageQueue DetectionEvent) × (run over_memory rounds passes q engine
          ≡ some (q2, flush (process_all (waiting q1) engine1)))
        × (waiting q2 ≡ [])
  unfolding run
  run-drains rounds passes q q1 engine engine1 worked h =
      let (q2, done, nothing) = drain-waiting (waiting q1) passes q1 engine1 refl h in
      (q2, rw (worked, run) (rw (done, run) refl), nothing)
