-- ===== src/Ingestion/Video.antt =====
-- backend/app/ingestion/connectors/video.py: the play list of a video source. What cv2 makes of a file
-- is given with the file; what it returns frame by frame is the list of the frames that are left. The
-- pause before a frame is not modelled, and a call of the database returns.
pub mod Rows
pub mod Steps
pub mod Playback
use Prim.Native.String.{compare}
use boars_head_compliance_de.Prelude.{
  ℕ, zero, suc, ◌+◌, ◌-◌, String, Bool, true, false, not, ◌&&◌, ◌||◌, Option, none, some, List, [],
  ◌∷◌, ◌++◌, map, length, get_elem?, if◌then◌else◌, ltb, ◌==◌,
}
use Prim.Native.Nat.{Ordering}
use text.Mathlib.Text.{◌==◌ as str_eq}
use boars_head_compliance_de.Float.{Fps}
use boars_head_compliance_de.Ingestion.{Image, Reading, raises, end_of_stream, frame_read}
use boars_head_compliance_de.Ingestion.Files.{
  Probe, Capture, VideoFile, describe_open_failure, found, opens, fails,
}

pub data Status : Type 0 where
  ingesting : Status
  completed : Status
  failed : Status

-- VideoIngestion; `video_uuid` numbers the rows
pub record VideoIngestion : Type 0 where
  pub video_uuid : ℕ
  pub video_name : String
  pub status : Status
  pub frame_sec : Option Fps
  pub total_frame_count : Option ℕ
  pub height : Option ℕ
  pub width : Option ℕ
  pub error_description : Option String

pub record VideoConnector : Type 0 where
  pub playlist : List VideoFile
  pub playlist_index : ℕ
  pub loop : Bool
  -- the table, where there is a database
  pub database : Option (List VideoIngestion)
  pub cap : Option Capture
  pub native_fps : Fps
  pub current_video_uuid : Option ℕ
  -- how many session ids were drawn
  pub sessions : ℕ

-- `__init__` after the play list is found
abbrev pub new_connector : List VideoFile → Bool → Option (List VideoIngestion) → VideoConnector
new_connector playlist loop database = record {
  playlist = playlist;
  playlist_index = 0;
  loop = loop;
  database = database;
  cap = none;
  native_fps = 25000;
  current_video_uuid = none;
  sessions = 0;
}

abbrev positive : ℕ → Option ℕ
positive n = if ltb 0 n then some n else none

abbrev pub failed_row : VideoFile → Option Probe → ℕ → VideoIngestion
failed_row file probe id = record {
  video_uuid = id;
  video_name = file.name;
  status = failed;
  frame_sec = none;
  total_frame_count = none;
  height = none;
  width = none;
  error_description = some (describe_open_failure file.lower_suffix probe);
}

abbrev pub opened_row : VideoFile → Capture → Fps → ℕ → VideoIngestion
opened_row file cap fps id = record {
  video_uuid = id;
  video_name = file.name;
  status = ingesting;
  frame_sec = some fps;
  total_frame_count = positive cap.frame_count;
  height = positive cap.height;
  width = positive cap.width;
  error_description = none;
}

-- `_insert_record`
abbrev pub insert_record : (ℕ → VideoIngestion) → List VideoIngestion → List VideoIngestion
insert_record row rows = rows ++ row (length rows) ∷ []

-- `_update_status`
unfoldable pub update_status : ℕ → Status → List VideoIngestion → List VideoIngestion
update_status id status [] = []
update_status id status (row ∷ rows) =
    let rest = update_status id status rows in
    (if row.video_uuid == id then record row { status = status } else row) ∷ rest

abbrev pub reported : Fps → Fps
reported fps = if ltb 0 fps then fps else 25000

-- `_open_current` on the file at the index; `false` is the RuntimeError
unfoldable pub open_file : VideoFile → VideoConnector → Bool × VideoConnector
open_file file c = elim file.contents [
  | fails probe ↦ (
    false,
    record c {
      cap = none;
      database = elim c.database [
        | none ↦ none
        | some rows ↦ some (insert_record (failed_row file probe) rows)
      ];
    },
  )
  | opens cap ↦ (
    true,
    record c {
      cap = some cap;
      native_fps = reported cap.fps;
      sessions = c.sessions + 1;
      database = elim c.database [
        | none ↦ none
        | some rows ↦ some (insert_record (opened_row file cap (reported cap.fps)) rows)
      ];
      current_video_uuid = elim c.database [
        | none ↦ c.current_video_uuid
        | some rows ↦ some (length rows)
      ];
    },
  )
]

-- no index is out of the play list
unfoldable pub open_current : VideoConnector → Bool × VideoConnector
open_current c = elim (get_elem? c.playlist c.playlist_index) [
  | none ↦ (false, c)
  | some file ↦ open_file file c
]

-- `_mark_current_completed`, and the same in `close`
unfoldable pub mark_current_completed : VideoConnector → VideoConnector
mark_current_completed c = elim c.database [
  | none ↦ c
  | some rows ↦ elim c.current_video_uuid [
    | none ↦ c
    | some id ↦ record c {
      database = some (update_status id completed rows);
      current_video_uuid = none;
    }
  ]
]

-- range(first, first + count)
unfoldable pub range : ℕ → ℕ → List ℕ
range first zero = []
range first (suc count) = first ∷ range (suc first) count

unfoldable pub candidates : VideoConnector → List ℕ
candidates c =
    range (c.playlist_index + 1) (length c.playlist - (c.playlist_index + 1))
    ++ (if c.loop then range 0 (c.playlist_index + 1) else [])

-- `return True`, or the next candidate
abbrev pub or_next :
    Bool × VideoConnector → (VideoConnector → Bool × VideoConnector) → Bool × VideoConnector
or_next (true, c) next = (true, c)
or_next (false, c) next = next c

-- the loop of `_advance`
unfoldable pub try_candidates : List ℕ → VideoConnector → Bool × VideoConnector
try_candidates [] c = (false, c)
try_candidates (idx ∷ rest) c =
    or_next (open_current (record c { playlist_index = idx })) (try_candidates rest)

unfoldable pub advance_playlist : VideoConnector → Bool × VideoConnector
advance_playlist c = try_candidates (candidates c) (mark_current_completed c)

-- `self._cap.read()`, which gives the frame, if there is one left
abbrev read_capture : Capture → VideoConnector → Reading × VideoConnector
read_capture cap c = elim cap.left [
  | [] ↦ (end_of_stream, c)
  | image ∷ left ↦ (frame_read image, record c { cap = some (record cap { left = left }) })
]

abbrev read_opened : VideoConnector → Reading × VideoConnector
read_opened c = elim c.cap [ none ↦ (raises, c) | some cap ↦ read_capture cap c ]

-- `read` from `_advance` on
unfoldable pub read_advanced : Bool × VideoConnector → Reading × VideoConnector
read_advanced (false, c) = (end_of_stream, c)
read_advanced (true, c) = read_opened c

-- `read`; `raises` is the RuntimeError before `connect`
unfoldable pub read_frame : VideoConnector → Reading × VideoConnector
read_frame c = elim c.cap [
  | none ↦ (raises, c)
  | some cap ↦ elim cap.left [
    | [] ↦ read_advanced (advance_playlist c)
    | image ∷ left ↦ read_capture cap c
  ]
]

unfoldable pub close_video : VideoConnector → VideoConnector
close_video c = record (mark_current_completed c) { cap = none }

-- The frames that a caller of `read` gets until another answer than a frame comes, and that answer;
-- `none` is that no such answer came within the given number of calls.
pub record Played : Type 0 where
  pub images : List Image
  pub answer : Option Reading
  pub connector : VideoConnector

abbrev pub go_on : Reading → VideoConnector → Played → Played
go_on (frame_read image) c rest = record rest { images = image ∷ rest.images }
go_on other c rest = record { images = []; answer = some other; connector = c }

unfoldable pub play : ℕ → VideoConnector → Played
play zero c = record { images = []; answer = none; connector = c }
play (suc fuel) c =
    let (reading, c') = read_frame c in let rest = play fuel c' in go_on reading c' rest
