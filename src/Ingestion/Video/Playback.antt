-- ===== src/Ingestion/Video/Playback.antt =====
-- backend/app/ingestion/connectors/video.py: a whole run of a play list.
use boars_head_compliance_de.Prelude.{
  ℕ, zero, suc, ◌+◌, ◌≤◌, ◌<◌, ◌≡◌, refl, sym, ap, ap₂, subst, ◌∙◌, false, Option, none, some, List,
  [], ◌∷◌, ◌++◌, length, drop-cons, arith, All, length-append, drop_zero,
}
use mathlib.Core.List.{append-nil}
use boars_head_compliance_de.Ingestion.{Image, end_of_stream}
use boars_head_compliance_de.Ingestion.Video.{
  Status, VideoIngestion, new_connector, open_current, range, try_candidates, read_advanced, play,
  failed_row, opened_row, reported,
}
use boars_head_compliance_de.Ingestion.Files.{Capture, Probe, Contents, opens, fails, VideoFile}
use boars_head_compliance_de.Ingestion.Video.Rows.{IsNumbered, IsNumbered-append, statuses}
use boars_head_compliance_de.Ingestion.Video.Steps.{
  frames_in, status_for, HasFrameIn, HasFrame, outcomes, all_frames, outcome_of, playing, between,
  played_on, Continues, play-file, open-found, open-fails, open-opens, try-fails, try-opens,
  read-first, statuses-then,
}

go-fails :
    (rest : List VideoFile)
    → Continues rest
    → (file : VideoFile) (probe : Option Probe) → file.contents ≡ fails probe
    → Continues (file ∷ rest)
unfolding range all_frames
go-fails rest go file probe e playlist index next rows capture fps n fuel h numbered enough =
    let (at, later) = drop-cons next playlist h in
    let c = between playlist index rows capture fps n in
    let failing = record c { playlist_index = next } in
    ap (λ p. outcome_of (played_on fuel (read_advanced p)))
      (try-fails next (range (suc next) (length rest)) c _
        (open-found next file c at ∙ open-fails file probe failing rows e))
    ∙ go playlist next (suc next) (rows ++ failed_row file probe (length rows) ∷ []) none fps n fuel
        later (IsNumbered-append 0 rows _ numbered (omega arith))
        (subst (λ images. length (images ++ all_frames rest) ≤ fuel) (ap frames_in e) enough)
    ∙ rw e (
        ap (λ (ss : List Status). (all_frames rest, (ss, some end_of_stream)))
          (statuses-then rows (failed_row file probe (length rows)) (outcomes rest)))

go-opens :
    (rest : List VideoFile)
    → Continues rest
    → (file : VideoFile) (video : Capture) (image : Image) (left : List Image)
    → file.contents ≡ opens video
    → video.left ≡ image ∷ left
    → Continues (file ∷ rest)
unfolding range all_frames read_advanced
go-opens rest go file video image left e e' playlist index next rows capture fps n zero h numbered
      enough =
    let some_frame : suc (length (left ++ all_frames rest)) ≤ 0 =
      subst (λ images. length (images ++ all_frames rest) ≤ 0) (ap frames_in e ∙ e') enough in
    absurd (omega arith)
go-opens rest go file video image left e e' playlist index next rows capture fps n (suc fuel) h
      numbered enough =
    let (at, later) = drop-cons next playlist h in
    let c = between playlist index rows capture fps n in
    let opening = record c { playlist_index = next } in
    ap (λ p. outcome_of (played_on (suc fuel) (read_advanced p)))
      (try-opens next (range (suc next) (length rest)) c _
        (open-found next file c at ∙ open-opens file video opening rows e))
    ∙ ap (λ r. outcome_of (played_on (suc fuel) r))
        (read-first video image left
          (playing playlist next
            (rows ++ opened_row file video (reported video.fps) (length rows) ∷ []) video
            (reported video.fps) (length rows) (n + 1))
          e')
    ∙ ap (λ q. (image ∷ q.0, q.1))
        (play-file rest go left playlist next rows
          (opened_row file video (reported video.fps) (length rows)) video (reported video.fps)
          (n + 1) fuel later numbered refl
          (omega (
            arith,
            length-append left (all_frames rest),
            subst (λ images. length (images ++ all_frames rest) ≤ suc fuel) (ap frames_in e ∙ e')
                enough,
          )))
    ∙ ap₂
        (λ images s.
          (images ++ all_frames rest, (statuses rows ++ s ∷ outcomes rest, some end_of_stream)))
        (sym (ap frames_in e ∙ e')) (sym (ap status_for e))

cases-left :
    (images : List Image) → 0 < length images → (x : Image) × (xs : List Image) × (images ≡ x ∷ xs)
cases-left [] h = absurd (omega arith)
cases-left (x ∷ xs) h = (x, xs, refl)

go-file :
    (rest : List VideoFile)
    → Continues rest
    → (file : VideoFile) (contents : Contents) → file.contents ≡ contents
    → HasFrameIn contents
    → Continues (file ∷ rest)
go-file rest go file (fails probe) e h = go-fails rest go file probe e
go-file rest go file (opens video) e h =
    let (image, left, e') = cases-left video.left h in go-opens rest go file video image left e e'

continues : (rest : List VideoFile) → All HasFrame rest → Continues rest
unfolding range try_candidates read_advanced all_frames
continues [] h = λ playlist index next rows capture fps n fuel at numbered enough.
    ap (λ (ss : List Status). ([], (ss, some end_of_stream))) (sym (append-nil (statuses rows)))
continues (file ∷ rest) (h, hs) = go-file rest (continues rest hs) file _ refl h

-- A source whose files after the first each have a frame if they can be opened, without `loop` and
-- with a database, is connected on its first file and read until an answer comes that is no frame.
-- Then the answer is the end of the stream, it comes within the number of all frames and one call,
-- the frames are those of the files that can be opened, in the order of the play list and none
-- skipped or repeated, and one row was added for each file in this order: completed if it could be
-- opened, failed if not.
pub outcome_of-play :
    (first : VideoFile) (files : List VideoFile) (video : Capture) (rows : List VideoIngestion)
    (fuel : ℕ)
    → first.contents ≡ opens video
    → All HasFrame files
    → IsNumbered 0 rows
    → length (all_frames (first ∷ files)) ≤ fuel
    → outcome_of
        (play (suc fuel) (open_current (new_connector (first ∷ files) false (some rows))).1)
      ≡ (
        all_frames (first ∷ files),
        (statuses rows ++ outcomes (first ∷ files), some end_of_stream),
      )
unfolding all_frames
outcome_of-play first files video rows fuel e h numbered enough =
    ap (λ p. outcome_of (play (suc fuel) p.1))
      (open-found 0 first (new_connector (first ∷ files) false (some rows)) refl
        ∙ open-opens first video (new_connector (first ∷ files) false (some rows)) rows e)
    ∙ play-file files (continues files h) video.left (first ∷ files) 0 rows
        (opened_row first video (reported video.fps) (length rows)) video (reported video.fps) 1
        fuel (drop_zero files) numbered refl
        (omega (
          arith,
          length-append video.left (all_frames files),
          subst (λ images. length (images ++ all_frames files) ≤ fuel) (ap frames_in e) enough,
        ))
    ∙ ap₂
        (λ images s.
          (images ++ all_frames files, (statuses rows ++ s ∷ outcomes files, some end_of_stream)))
        (sym (ap frames_in e)) (sym (ap status_for e))
