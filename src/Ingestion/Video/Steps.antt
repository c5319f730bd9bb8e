-- ===== src/Ingestion/Video/Steps.antt =====
-- backend/app/ingestion/connectors/video.py: the steps from one file of a play list to the next.
use boars_head_compliance_de.Prelude.{
  ℕ, zero, suc, ◌+◌, ◌-◌, ◌≤◌, ◌<◌, ◌≡◌, refl, ap, ap₂, ◌∙◌, true, false, Option, none, some, List,
  [], ◌∷◌, ◌++◌, map, length, drop, get_elem?, arith, length-drop,
}
use mathlib.Core.List.{append-nil, append_assoc}
use boars_head_compliance_de.Float.{Fps}
use boars_head_compliance_de.Ingestion.{Image, Reading, end_of_stream, frame_read}
use boars_head_compliance_de.Ingestion.Video.{
  Status, completed, failed, VideoIngestion, VideoConnector, insert_record, update_status,
  open_file, open_current, mark_current_completed, range, candidates, try_candidates,
  advance_playlist, read_advanced, read_frame, Played, go_on, play, failed_row, opened_row,
  reported, or_next,
}
use boars_head_compliance_de.Ingestion.Files.{Capture, Probe, Contents, opens, fails, VideoFile}
use boars_head_compliance_de.Ingestion.Video.Rows.{
  IsNumbered, IsNumbered-append, update_status-IsNumbered, statuses, statuses-append,
  update_status-last,
}

-- the frames of a file, its row's last status, and that it has a frame if it opens
abbrev pub frames_in : Contents → List Image
frames_in (opens cap) = cap.left
frames_in (fails probe) = []

abbrev pub status_for : Contents → Status
status_for (opens cap) = completed
status_for (fails probe) = failed

abbrev pub HasFrameIn : Contents → Type 0
HasFrameIn (opens cap) = 0 < length cap.left
HasFrameIn (fails probe) = Unit

abbrev pub HasFrame : VideoFile → Type 0
HasFrame file = HasFrameIn file.contents

abbrev pub outcomes : List VideoFile → List Status
outcomes files = map (λ file. status_for file.contents) files

unfoldable pub all_frames : List VideoFile → List Image
all_frames [] = []
all_frames (file ∷ files) = frames_in file.contents ++ all_frames files

-- what a run leaves: the frames, the statuses of the rows, and the answer that ended it
abbrev statuses_in : Option (List VideoIngestion) → List Status
statuses_in none = []
statuses_in (some rows) = statuses rows

abbrev pub outcome_of : Played → List Image × (List Status × Option Reading)
outcome_of p = (p.images, (statuses_in p.connector.database, p.answer))

-- a connector that plays a file, and one between two files
abbrev pub playing :
    List VideoFile → ℕ → List VideoIngestion → Capture → Fps → ℕ → ℕ → VideoConnector
playing playlist index rows capture fps id n = record {
  playlist = playlist;
  playlist_index = index;
  loop = false;
  database = some rows;
  cap = some capture;
  native_fps = fps;
  current_video_uuid = some id;
  sessions = n;
}

abbrev pub between :
    List VideoFile → ℕ → List VideoIngestion → Option Capture → Fps → ℕ → VideoConnector
between playlist index rows capture fps n = record {
  playlist = playlist;
  playlist_index = index;
  loop = false;
  database = some rows;
  cap = capture;
  native_fps = fps;
  current_video_uuid = none;
  sessions = n;
}

abbrev pub played_on : ℕ → Reading × VideoConnector → Played
played_on fuel (reading, c) = go_on reading c (play fuel c)

-- what comes after the file that ended
abbrev pub Continues : List VideoFile → Type 0
Continues rest =
    (playlist : List VideoFile) (index next : ℕ) (rows : List VideoIngestion)
    (capture : Option Capture) (fps : Fps) (n fuel : ℕ)
    → drop next playlist ≡ rest
    → IsNumbered 0 rows
    → length (all_frames rest) ≤ fuel
    → outcome_of (
        played_on fuel (
          read_advanced (
            try_candidates (range next (length rest)) (between playlist index rows capture fps n))))
      ≡ (all_frames rest, (statuses rows ++ outcomes rest, some end_of_stream))

candidates-rest :
    (playlist rest : List VideoFile) (index : ℕ)
    → drop (suc index) playlist ≡ rest
    → range (index + 1) (length playlist - (index + 1)) ++ [] ≡ range (suc index) (length rest)
candidates-rest playlist rest index h =
    let first : index + 1 ≡ suc index = omega arith in
    append-nil _ ∙ ap₂ range first (omega (arith, ap length h, length-drop (suc index) playlist))

advance-rest :
    (playlist rest : List VideoFile) (index : ℕ) (rows : List VideoIngestion) (capture : Capture)
    (fps : Fps) (id n : ℕ)
    → drop (suc index) playlist ≡ rest
    → advance_playlist (playing playlist index rows capture fps id n)
      ≡ try_candidates
          (range (suc index) (length rest))
          (between playlist index (update_status id completed rows) (some capture) fps n)
unfolding advance_playlist mark_current_completed candidates
advance-rest playlist rest index rows capture fps id n h =
    ap
      (λ indices.
        try_candidates indices
          (between playlist index (update_status id completed rows) (some capture) fps n))
      (candidates-rest playlist rest index h)

-- a file that is played to its end, and then what comes after it
pub play-file :
    (rest : List VideoFile)
    → Continues rest
    → (left : List Image) (playlist : List VideoFile) (index : ℕ) (rows : List VideoIngestion)
      (row : VideoIngestion) (capture : Capture) (fps : Fps) (n fuel : ℕ)
    → drop (suc index) playlist ≡ rest
    → IsNumbered 0 rows
    → row.video_uuid ≡ length rows
    → length left + length (all_frames rest) ≤ fuel
    → outcome_of (
        play (suc fuel) (
          playing playlist index
            (rows ++ row ∷ [])
            (record capture { left = left })
            fps
            (length rows)
            n))
      ≡ (left ++ all_frames rest, (statuses rows ++ completed ∷ outcomes rest, some end_of_stream))
unfolding play read_frame
play-file rest go [] playlist index rows row capture fps n fuel h numbered e enough =
    ap (λ p. outcome_of (played_on fuel (read_advanced p)))
      (advance-rest playlist rest index (rows ++ row ∷ []) (record capture { left = [] }) fps
        (length rows) n h)
    ∙ go playlist index (suc index) _ _ fps n fuel h
        (update_status-IsNumbered 0 (length rows) completed _
          (IsNumbered-append 0 rows row numbered (omega (arith, e))))
        (omega arith)
    ∙ ap (λ (ss : List Status). (all_frames rest, (ss, some end_of_stream)))
        (ap (λ ss. ss ++ outcomes rest)
            (update_status-last 0 (length rows) completed rows row numbered e (omega arith))
          ∙ append_assoc (statuses rows) (completed ∷ []) (outcomes rest))
play-file rest go (image ∷ left) playlist index rows row capture fps n zero h numbered e enough =
    absurd (omega arith)
play-file rest go (image ∷ left) playlist index rows row capture fps n (suc fuel) h numbered e
      enough =
    ap (λ q. (image ∷ q.0, q.1))
      (play-file rest go left playlist index rows row capture fps n fuel h numbered e (omega arith))

pub open-found :
    (next : ℕ) (file : VideoFile) (c : VideoConnector)
    → get_elem? c.playlist next ≡ some file
    → open_current (record c { playlist_index = next })
      ≡ open_file file (record c { playlist_index = next })
unfolding open_current
open-found next file c h = rw (h, open_current) refl

pub open-fails :
    (file : VideoFile) (probe : Option Probe) (c : VideoConnector) (rows : List VideoIngestion)
    → file.contents ≡ fails probe
    → open_file file (record c { database = some rows }) ≡ (
      false,
      record c { cap = none; database = some (insert_record (failed_row file probe) rows) },
    )
unfolding open_file
open-fails file probe c rows e = rw e refl

pub open-opens :
    (file : VideoFile) (capture : Capture) (c : VideoConnector) (rows : List VideoIngestion)
    → file.contents ≡ opens capture
    → open_file file (record c { database = some rows }) ≡ (
      true,
      record c {
        cap = some capture;
        native_fps = reported capture.fps;
        sessions = c.sessions + 1;
        database = some (insert_record (opened_row file capture (reported capture.fps)) rows);
        current_video_uuid = some (length rows);
      },
    )
unfolding open_file
open-opens file capture c rows e = rw e refl

pub try-fails :
    (next : ℕ) (indices : List ℕ) (c c' : VideoConnector)
    → open_current (record c { playlist_index = next }) ≡ (false, c')
    → try_candidates (next ∷ indices) c ≡ try_candidates indices c'
unfolding try_candidates
try-fails next indices c c' e = ap (λ p. or_next p (try_candidates indices)) e

pub try-opens :
    (next : ℕ) (indices : List ℕ) (c c' : VideoConnector)
    → open_current (record c { playlist_index = next }) ≡ (true, c')
    → try_candidates (next ∷ indices) c ≡ (true, c')
unfolding try_candidates
try-opens next indices c c' e = ap (λ p. or_next p (try_candidates indices)) e

pub read-first :
    (video : Capture) (image : Image) (left : List Image) (c : VideoConnector)
    → video.left ≡ image ∷ left
    → read_advanced (true, record c { cap = some video })
      ≡ (frame_read image, record c { cap = some (record video { left = left }) })
unfolding read_advanced
read-first video image left c e = rw e refl

pub statuses-then :
    (rows : List VideoIngestion) (row : VideoIngestion) (ss : List Status)
    → statuses (rows ++ row ∷ []) ++ ss ≡ statuses rows ++ row.status ∷ ss
statuses-then rows row ss =
    ap (λ ss'. ss' ++ ss) (statuses-append rows row) ∙ append_assoc (statuses rows) _ ss
