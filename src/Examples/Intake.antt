-- ===== src/Examples/Intake.antt =====
-- From a camera to the compliance worker: small queues, stores and streams.
use boars_head_compliance_de.Prelude.{
  ℕ, ◌+◌, ◌*◌, ◌≤◌, ◌<◌, ◌≡◌, ◌↔◌, refl, Bool, true, false, none, some, List, [], ◌∷◌, length,
  arith, inr, if◌then◌else◌, ◌==◌,
}
use boars_head_compliance_de.Prelude.Dict.{string_eq, get, put}
use boars_head_compliance_de.Float.{Micros, seconds}
use boars_head_compliance_de.Detection.{DetectionEvent}
use boars_head_compliance_de.Serialization.{FrameEnvelope}
use boars_head_compliance_de.Queue.{
  Buffer, MessageQueue, put_loop, new, get_or_create, get_message, get_nowait,
}
use boars_head_compliance_de.Queue.Loop.{Added, put_loop-ends}
use boars_head_compliance_de.Queue.Log.{append}
use boars_head_compliance_de.Queue.Topics.{
  Call, publishing, getting, run as run_calls, replay, Refines, update, no_logs, new-Refines,
  run-new-Refines,
}
use boars_head_compliance_de.FrameStore.{FrameStore, put_frame, take_frame}
use boars_head_compliance_de.FrameStore.Contents.{visible, take_frame-put_frame}
use boars_head_compliance_de.Ingestion.{
  Image, ndarray, FrameEvent, Round, Reading, frame_read, temporary_failure, end_of_stream, Service,
  run,
}
use boars_head_compliance_de.Ingestion.Counts.{IsConsistent, Released, run-IsConsistent}
use boars_head_compliance_de.Ingestion.Rate.{ask, ask-rate}
use boars_head_compliance_de.Ingestion.Publisher.{
  frames_topic, envelope_of, publish_event, in_memory, publish_event-fetch,
}
use boars_head_compliance_de.Ingestion.Backoff.{
  RtspConnector, Attempt, succeeded, connect, reconnect, documented_delays, delays-documented,
}
use boars_head_compliance_de.Worker.{Round as WorkerRound, work, handle_poll, run as run_worker}
use boars_head_compliance_de.Worker.Drain.{
  detection_topic, over_memory, process_all, waiting, run-drains,
}
use boars_head_compliance_de.Examples.{event_at}

abbrev two_items : Buffer ℕ
two_items = record { items = 5 ∷ 6 ∷ []; dropped = 0 }

-- a consumer takes one item between the failed put and the eviction
abbrev busy : ℕ → ℕ
busy t = t

put_loop-ends_example :
    (b : Buffer ℕ) × (put_loop 2 3 busy 0 7 two_items ≡ some b) × Added 2 busy 7 two_items b
put_loop-ends_example = put_loop-ends 2 busy 7 1 0 two_items (inr (omega arith))

abbrev calls : List (Call ℕ)
calls =
    publishing "a" 1
    ∷ publishing "b" 2
    ∷ publishing "a" 3
    ∷ publishing "a" 4
    ∷ getting "a"
    ∷ getting "c"
    ∷ []

run-new-Refines_example :
    (q : MessageQueue ℕ) × (run_calls 2 calls new ≡ some ((replay 2 calls (no_logs 2)).0, q))
    × Refines 2 q (replay 2 calls (no_logs 2)).1
run-new-Refines_example = run-new-Refines 2 calls

abbrev image : Image
image = ndarray (480 ∷ 640 ∷ 3 ∷ []) 1

abbrev store : FrameStore Image
store = record {
  ttl = seconds 30;
  store = (4, record { frame = image; inserted_at = 0 }) ∷ [];
  evicted_total = 0;
}

take_frame-put_frame_example :
    ((take_frame 4 (put_frame (seconds 40) (seconds 40) 5 image store)).0
      ≡ (if 5 == 4 then some image else visible (seconds 40) 4 store))
    × ((take_frame 4 (take_frame 4 (put_frame (seconds 40) (seconds 40) 5 image store)).1).0 ≡ none)
unfolding get
take_frame-put_frame_example =
    take_frame-put_frame (seconds 40) (seconds 40) 5 4 image store (refl, tt)

abbrev service : Service
service = record {
  camera_id = "cam";
  frame_save_max = 1;
  sampler = record { interval = 200000; last_kept = 0; frames_checked = 0; frames_sampled = 0 };
  metrics = record {
    stream_connected = false;
    last_frame_received_at = none;
    frames_received_total = 0;
    frames_sampled_total = 0;
    frames_dropped_total = 0;
    invalid_frames_total = 0;
    reconnect_count = 0;
  };
  frame_id = 0;
  raw_frame_count = 0;
  published = [];
  saved_frames = [];
  saved_samples = [];
  closed = false;
}

abbrev round : Reading → Micros → Round
round reading now = record {
  stop_set = false;
  reading = reading;
  session_id = "session";
  native_fps = 25000;
  monotonic = now;
  received = now;
  now = now;
  correlation_id = "id";
}

-- a frame, an image without pixels, a lost connection, a frame too early, the end
abbrev rounds : List Round
rounds =
    round (frame_read image) (seconds 1)
    ∷ round (frame_read (ndarray [] 2)) (seconds 2)
    ∷ round (temporary_failure true) (seconds 3)
    ∷ round (frame_read image) 1100000
    ∷ round end_of_stream (seconds 4)
    ∷ []

run-IsConsistent_example :
    IsConsistent (run rounds service).1 × Released (run rounds service).0 (run rounds service).1
run-IsConsistent_example = run-IsConsistent rounds service (record {
  numbered = refl;
  valid = tt;
  sampled = refl;
  kept = refl;
  received = refl;
  checked = refl;
})

abbrev times : List Micros
times = 200000 ∷ 300000 ∷ 450000 ∷ []

ask-rate_example : (ask times service.sampler).frames_sampled * 200000 + 0 ≤ 0 * 200000 + 500000
ask-rate_example =
    ask-rate 500000 times service.sampler (omega arith)
      (omega arith, (omega arith, (omega arith, tt)))

abbrev event : FrameEvent
event = record {
  camera_id = "cam";
  frame_id = 5;
  captured_at = seconds 40;
  received_at = seconds 40;
  frame = image;
  correlation_id = "id";
  session_id = "session";
  source_fps = 25000;
}

abbrev envelope : FrameEnvelope
envelope = envelope_of frames_topic event

abbrev published : FrameStore Image × MessageQueue FrameEnvelope
published = publish_event (in_memory 2 (seconds 40) (seconds 41)) frames_topic event store new

publish_event-fetch_example :
    Refines 2 published.1
      (update 2 frames_topic (append 2 envelope (no_logs 2 frames_topic)) (no_logs 2))
    × ((take_frame 5 published.0).0
        ≡ (if envelope.frame_id == 5 then some image else visible (seconds 40) 5 store))
    × ((take_frame 5 (take_frame 5 published.0).1).0 ≡ none)
unfolding get
publish_event-fetch_example =
    publish_event-fetch 2 (seconds 40) (seconds 41) frames_topic event 5 store new (no_logs 2)
      (refl, tt) (new-Refines 2)

abbrev connector : RtspConnector
connector = record { initial_delay = seconds 1; max_delay = seconds 3; connected = false }

abbrev openings : List Bool
openings = false ∷ false ∷ false ∷ true ∷ []

abbrev attempt : Bool → Attempt
attempt stop_after = record { stop_before = false; stop_after = stop_after; opened = false }

abbrev attempts : List Attempt
attempts = attempt false ∷ attempt false ∷ attempt true ∷ []

delays-documented_example :
    let delays = documented_delays (seconds 1) (seconds 3) 0 in
    let (first, c1) = connect openings connector in
    let (again, c2) = reconnect attempts connector in
    (first.1 ≡ delays (length first.1))
    × ((c1.connected ≡ true) ↔ (first.0 ≡ succeeded))
    × (again.1 ≡ delays (length again.1))
    × ((c2.connected ≡ true) ↔ (again.0 ≡ succeeded))
delays-documented_example = delays-documented connector openings attempts (omega arith) refl

abbrev note : DetectionEvent → List DetectionEvent → List DetectionEvent
note event seen = event ∷ seen

abbrev clear : List DetectionEvent → List DetectionEvent
clear seen = []

abbrev backlog : List DetectionEvent → MessageQueue DetectionEvent
backlog events = record {
  queues = (detection_topic, events) ∷ [];
  dropped = (detection_topic, 0) ∷ [];
}

-- one pass, then `stop`, while three events wait
abbrev passes : List (WorkerRound (over_memory note clear))
passes =
    record { stop_set = false; arrivals = λ q. q }
    ∷ record { stop_set = true; arrivals = λ q. q }
    ∷ []

abbrev three : MessageQueue DetectionEvent
three = backlog (event_at 1 ∷ event_at 2 ∷ event_at 3 ∷ [])

abbrev two : MessageQueue DetectionEvent
two = backlog (event_at 2 ∷ event_at 3 ∷ [])

one_pass : work (over_memory note clear) passes three [] ≡ some (two, event_at 1 ∷ [])
unfolding work handle_poll get_message get_or_create get_nowait get put
one_pass = refl

two_fit : length (waiting note clear two) < 3
unfolding get get_or_create
two_fit = omega arith

run-drains_example :
    (q2 : MessageQueue DetectionEvent) × (run_worker (over_memory note clear) passes 3 three []
      ≡ some (q2, clear (process_all note clear (waiting note clear two) (event_at 1 ∷ []))))
    × (waiting note clear q2 ≡ [])
run-drains_example = run-drains note clear passes 3 three two [] (event_at 1 ∷ []) one_pass two_fit
