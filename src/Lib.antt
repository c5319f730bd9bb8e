-- ===== src/Lib.antt =====
-- The handwash compliance pipeline of the Boars-Head compliance detector (Python).
--
-- A camera's frames become detections of persons, sinks and hands. The compliance engine gives each
-- person an identity, decides for each frame who is at a sink and who washes, follows every person
-- through a state machine with the time spent in each state, and publishes an alert, with the
-- evidence frames, when a visit to the sink ends with too little washing.
--
-- Parts, roughly in the order in which a frame passes them:
--   Serialization   backend/app/infrastructure/redis/serialization.py: frames, detections and
--                   alerts as JSON, with the entry points in Serialization.Messages;
--                   backend/app/ingestion/models/frame_envelope.py
--   Ingestion       backend/app/ingestion: the service's loop with validator, sampler and counters;
--                   in Ingestion.Publisher the publisher, in Ingestion.Backoff the loops of
--                   connectors/rtsp.py, in Ingestion.Files and Ingestion.Video the play list of
--                   connectors/video.py
--   FrameStore      backend/app/infrastructure/frame_store/in_memory.py
--   Queue           backend/app/infrastructure/message_queue/in_memory.py, and the loop that it
--                   shares with backend/app/ingestion/buffering/bounded_buffer.py; Queue.Log is
--                   the abstract view of a topic
--   Inference       backend/app/inference: model_spec.py, with Inference.Resolver
--                   (resolver/static.py), Inference.Detector (yolo_detector.py), Inference.Registry
--                   (registry.py, its calls one after another), Inference.Threads (its calls by
--                   several threads, step by step) and Inference.Cycle (engine.py, `process`)
--   Persistence     backend/app/infrastructure/database/persistence_worker.py: alerts and evidence
--                   become rows of the tables of models/violations.py
--   Streams, Redis  backend/app/infrastructure/redis/message_queue.py, with config.py and
--                   metrics.py in Streams: the queue on Redis streams
--   StateStore      backend/app/infrastructure/state_store: the store in memory, and over Redis
--   Dashboard       backend/app/main.py: the health document and the violations, with the
--                   metrics' snapshots; in Dashboard.Status and Dashboard.Violations what
--                   frontend/repository/api.py makes of them for the pages
--   Worker          backend/app/compliance/worker.py: the thread that feeds the pipeline
--   Detection       backend/app/inference/models/detection.py: what the models saw
--   Pipeline        backend/app/compliance/engine.py: `process_event` is the upper half of
--                   `_process` and calls Tracker, Builder and Engine; `process` and `flush` are
--                   the entry points
--   Track, Tracker  backend/app/compliance/tracker.py: `update` with its two ways of matching
--   Spatial         backend/app/compliance/spatial.py: boxes, distances, the sink of a person
--   Builder         backend/app/compliance/observation.py, ObservationBuilder: the tracking
--                   records; in Builder.Hands the hands of each person, in Builder.Build `build`,
--                   which makes one observation for each track
--   Observation     backend/app/compliance/observation.py, the record
--   Absence         backend/app/compliance/engine.py: observations of persons that the frame does
--                   not show
--   Engine          backend/app/compliance/engine.py: `process_person` is the body of the loop of
--                   `_process`, `advance` what it computes for one person, `publish_violation`
--                   the alert
--   StateMachine    backend/app/compliance/state_machine.py
--   Temporal        backend/app/compliance/temporal/: the state of a person and the metrics
--   TemporalAnalyzer   backend/app/compliance/temporal_analyzer.py, an older analyzer of its own
--   Handwash        backend/app/compliance/rules: the rule with its visits, cooldown and evidence
--                   buffers; in Handwash.Config its configuration, as it is read and checked
--   Events, ActionLog   the messages and the lines of the action log
-- The other modules below a part hold theorems about it. Examples runs the theorems on a
-- camera at 25 frames per second with the configuration of config/config.yaml.
--
-- How the code is written down:
--   An object is a record, and a method takes and returns it. The dict of a person is the record
--   PersonState; `has_group_key` says whether the key `group_id` is there, since the code tells
--   an absent key from None. The dict of a zone's persons is keyed by the number that the code
--   writes as text. The engine's state store is a dictionary of zones.
--   An instant or a duration is a whole number of microseconds and a frame rate is a whole number
--   of frames per 1000 seconds, so a comparison is exact where the code compares rounded floats,
--   and an ISO text in a person's state is the instant it stands for. Scores, distances and
--   coordinates are floats, kept as their bits; the operations on them are the parameter
--   FloatOps.
--   Exceptions of decoding are `none`, and so is a value of another JSON type than the field's,
--   which the code would keep in the fields that it does not convert. Of the exceptions in the
--   engine only those of publish are modelled. In Inference an exception is a value of Result.
--   The loops of the pipeline are over lists. A loop that waits for the outside (the service, the
--   worker, the back-off) takes what happens in each of its passes as a list. Three loops have a
--   bound on their passes: `put_loop` of the queue, where two are enough, `drain` of the worker,
--   where one more than the waiting events is enough, and `play`, which reads a play list, where
--   one more than the frames is enough.
--   Threads that share an object are a list of events: each is a call of a thread or the next step
--   of one, and any list is a possible order.
--   What another thread does to a queue during `put_loop` is the number of items it takes at each
--   step. The sampler's interval is a whole number of microseconds.
--   `sorted` is an insertion sort, which is stable as Python's is.
--
-- Parameters: the evidence package, which is not in the repository (EvidenceLib, with a list as the
-- instance of the examples), uuid4 by the number of the call, the calls of publish that raise,
-- Python's float operations, and json, base64, datetime and conversions (Codec); int(), float() and
-- paths for a configuration (Host), the model library with its state (Runtime), the thumbnails, and
-- the queue and the engine of the worker (WorkerOps). The worker of the database takes
-- for each attempt whether it raises, and the ids of its rows. The Redis client with its server
-- (Client, KeyValueClient), what it delivers and keeps (Delivers, Keeps), and the builtins that
-- the configuration and the dashboard use (Conversions, Builtins). A video file comes with what cv2
-- makes of it, and a health document with the answers of the queue, the frame store and the database.
--
-- Not modelled: the drawing and encoding of images, files written for debugging, the pause between two
-- frames of a video, connections and SQLAlchemy, which are input and output around this core; the
-- messages and the route of the evidence, and the frame store over Redis; log calls other than the
-- action log; the pages and the sample data of the frontend, the migrations and the scripts that
-- write documents.
pub mod Prelude
pub mod Float
pub mod Detection
pub mod Observation
pub mod Spatial
pub mod Track
pub mod Builder
pub mod Tracker
pub mod StateMachine
pub mod Temporal
pub mod TemporalAnalyzer
pub mod ActionLog
pub mod Evidence
pub mod Handwash
pub mod Absence
pub mod Events
pub mod Engine
pub mod Pipeline
pub mod Serialization
pub mod Queue
pub mod FrameStore
pub mod Ingestion
pub mod Inference
pub mod Worker
pub mod Persistence
pub mod Streams
pub mod Redis
pub mod Dashboard
pub mod StateStore
mod Examples
