-- ===== src/Ingestion.antt =====
-- backend/app/ingestion/service.py, with models/frame_event.py, validation/frame_validator.py,
-- sampling/fps_sampler.py and health/metrics.py: from the frames of a source to published events.
-- What the source, the clocks and a caller of `stop` do is given as one `Round` for each pass of the
-- loop. An image is known by the properties of its array that the code reads.
pub mod Counts
pub mod Rate
pub mod Publisher
pub mod Backoff
pub mod Files
pub mod Video
use boars_head_compliance_de.Prelude.{
  ℕ, zero, suc, ◌+◌, ◌*◌, ◌/◌, String, Bool, true, false, not, ◌&&◌, ◌||◌, Option, none, some, List,
  [], ◌∷◌, ◌++◌, length, ltb, leb, ◌==◌, if◌then◌else◌,
}
use text.Mathlib.Text.{◌==◌ as str_eq}
use boars_head_compliance_de.Float.{Micros, Fps}

-- an object that may be a numpy array with a shape; `pixels` tells the arrays apart
pub data Image : Type 0 where
  missing : Image
  foreign : Image
  ndarray : (shape : List ℕ) → (pixels : ℕ) → Image

abbrev product : List ℕ → ℕ
product [] = 1
product (n ∷ ns) = n * product ns

-- the test of `shape[2]` where there are three dimensions
abbrev channels_valid : List ℕ → Bool
channels_valid (h ∷ w ∷ c ∷ []) = c == 1 || c == 3 || c == 4
channels_valid other = true

-- FrameValidator.validate
unfoldable pub validate : Image → Bool
validate missing = false
validate foreign = false
validate (ndarray shape pixels) =
    if product shape == 0
    then false
    else if ltb (length shape) 2
    then false
    else channels_valid shape

pub record FpsSampler : Type 0 where
  pub interval : Micros
  pub last_kept : Micros
  pub frames_checked : ℕ
  pub frames_sampled : ℕ

-- `__init__`; `none` is a ValueError
unfoldable pub open_sampler : Fps → Option FpsSampler
open_sampler target_fps =
    if target_fps == 0
    then none
    else some (record {
      interval = 1000000000 / target_fps;
      last_kept = 0;
      frames_checked = 0;
      frames_sampled = 0;
    })

-- `now` is what time.monotonic() returns
unfoldable pub should_process : Micros → FpsSampler → Bool × FpsSampler
should_process now s =
    if leb (s.last_kept + s.interval) now
    then (
      true,
      record s {
        frames_checked = s.frames_checked + 1;
        last_kept = now;
        frames_sampled = s.frames_sampled + 1;
      },
    )
    else (false, record s { frames_checked = s.frames_checked + 1 })

pub record IngestionMetrics : Type 0 where
  pub stream_connected : Bool
  pub last_frame_received_at : Option Micros
  pub frames_received_total : ℕ
  pub frames_sampled_total : ℕ
  pub frames_dropped_total : ℕ
  pub invalid_frames_total : ℕ
  pub reconnect_count : ℕ

pub record FrameEvent : Type 0 where
  pub camera_id : String
  pub frame_id : ℕ
  pub captured_at : Micros
  pub received_at : Micros
  pub frame : Image
  pub correlation_id : String
  pub session_id : String
  pub source_fps : Fps

-- `connector.read()`, with the outcome of `reconnect` after a temporary failure
pub data Reading : Type 0 where
  raises : Reading
  end_of_stream : Reading
  temporary_failure : (reconnected : Bool) → Reading
  frame_read : Image → Reading

pub record Round : Type 0 where
  -- whether `stop` was called before the test of the loop
  pub stop_set : Bool
  pub reading : Reading
  pub session_id : String
  pub native_fps : Fps
  -- time.monotonic(), the two readings of datetime.now, and uuid.uuid4()
  pub monotonic : Micros
  pub received : Micros
  pub now : Micros
  pub correlation_id : String

pub data Exit : Type 0 where
  stopped : Exit
  source_eof : Exit
  reconnect_aborted : Exit
  raised : Exit
  -- the rounds given are used up
  running : Exit

pub record Service : Type 0 where
  pub camera_id : String
  pub frame_save_max : ℕ
  pub sampler : FpsSampler
  pub metrics : IngestionMetrics
  pub frame_id : ℕ
  pub raw_frame_count : ℕ
  -- the calls of publisher.publish
  pub published : List FrameEvent
  -- the indices of the images written under `frames` and under `sample_frames`
  pub saved_frames : List ℕ
  pub saved_samples : List ℕ
  pub closed : Bool

abbrev saves : String → ℕ → ℕ → Bool
saves session_id limit index = not (str_eq session_id "") && ltb 0 limit && leb index limit

-- the part for a sampled frame
unfoldable pub publish_frame : Image → Round → Service → Service
publish_frame image r s =
    let frame_id = s.frame_id + 1 in
    record s {
      frame_id = frame_id;
      saved_samples =
          if saves r.session_id s.frame_save_max frame_id
          then s.saved_samples ++ frame_id ∷ []
          else s.saved_samples;
      published =
          s.published
          ++ record {
            camera_id = s.camera_id;
            frame_id = frame_id;
            captured_at = r.now;
            received_at = r.now;
            frame = image;
            correlation_id = r.correlation_id;
            session_id = r.session_id;
            source_fps = r.native_fps;
          }
            ∷ [];
      metrics = record s.metrics { frames_sampled_total = s.metrics.frames_sampled_total + 1 };
    }

-- the part for every frame, before the validation
unfoldable pub receive_frame : Round → Service → Service
receive_frame r s =
    let count = s.raw_frame_count + 1 in
    record s {
      raw_frame_count = count;
      saved_frames =
          if saves r.session_id s.frame_save_max count
          then s.saved_frames ++ count ∷ []
          else s.saved_frames;
      metrics = record s.metrics {
        frames_received_total = s.metrics.frames_received_total + 1;
        last_frame_received_at = some r.received;
      };
    }

-- the part for a frame, from `ReadStatus.FRAME` on
unfoldable pub handle_frame : Image → Round → Service → Service
handle_frame image r s =
    let s1 = receive_frame r s in
    let (kept, sampler) = should_process r.monotonic s1.sampler in
    let s2 : Service = record s1 { sampler = sampler } in
    if not (validate image)
    then record s1 {
      metrics = record s1.metrics { invalid_frames_total = s1.metrics.invalid_frames_total + 1 };
    }
    else if kept
    then publish_frame image r s2
    else s2

abbrev set_connected : Bool → Service → Service
set_connected b s = record s { metrics = record s.metrics { stream_connected = b } }

-- after a temporary failure and a reconnect
abbrev reconnect_counted : Service → Service
reconnect_counted s = record s {
  metrics = record s.metrics {
    stream_connected = true;
    reconnect_count = s.metrics.reconnect_count + 1;
  };
}

-- the body of `_loop` for a reading; `some` is a `break`, or an exception
unfoldable pub handle_reading : Reading → Round → Service → Option Exit × Service
handle_reading raises r s = (some raised, s)
handle_reading end_of_stream r s = (some source_eof, s)
handle_reading (temporary_failure true) r s = (none, reconnect_counted (set_connected false s))
handle_reading (temporary_failure false) r s = (some reconnect_aborted, set_connected false s)
handle_reading (frame_read image) r s = (none, handle_frame image r s)

-- one pass of the loop, with its test
unfoldable pub pass : Round → Service → Option Exit × Service
pass r s = if r.stop_set then (some stopped, s) else handle_reading r.reading r s

-- `_loop`
unfoldable pub loop : List Round → Service → Exit × Service
loop [] s = (running, s)
loop (r ∷ rounds) s =
    let (exit, s') = pass r s in elim exit [ none ↦ loop rounds s' | some e ↦ (e, s') ]

-- `run`, from the connect on; the `finally` block runs on every way out of the loop
unfoldable pub run : List Round → Service → Exit × Service
run rounds s =
    let (exit, s') = loop rounds (set_connected true s) in
    elim exit [
      | running ↦ (running, s')
      | other ↦ (other, record (set_connected false s') { closed = true })
    ]
