-- ===== src/Examples/Playlist.antt =====
-- A play list of three files, the second of which cannot be opened.
use boars_head_compliance_de.Prelude.{
  ℕ, ◌≡◌, refl, String, true, false, none, some, List, [], ◌∷◌, arith, length,
}
use boars_head_compliance_de.Ingestion.{Image, ndarray, end_of_stream}
use boars_head_compliance_de.Ingestion.Video.{
  completed, failed, new_connector, open_current, open_file, play, read_frame, read_advanced,
  advance_playlist, candidates, range, try_candidates, mark_current_completed,
}
use boars_head_compliance_de.Ingestion.Files.{
  Contents, opens, fails, Capture, VideoFile, collect_videos, sorted_videos, insert_file,
}
use boars_head_compliance_de.Ingestion.Video.Playback.{outcome_of-play}
use boars_head_compliance_de.Ingestion.Video.Steps.{outcome_of, all_frames}
use boars_head_compliance_de.Ingestion.Video.Rows.{IsNumbered}

abbrev image : ℕ → Image
image n = ndarray (480 ∷ 640 ∷ 3 ∷ []) n

abbrev capture : List Image → Capture
capture images = record {
  left = images;
  fps = 25000;
  frame_count = length images;
  width = 640;
  height = 480;
}

abbrev file : String → Contents → VideoFile
file name contents = record {
  name = name;
  lower_name = name;
  lower_suffix = ".mp4";
  contents = contents;
}

abbrev first : VideoFile
first = file "a.mp4" (opens (capture (image 1 ∷ image 2 ∷ [])))

abbrev cut_off : VideoFile
cut_off = file "b.mp4" (fails (some (record { size = 9; has_ftyp = true; has_moov = false })))

abbrev last : VideoFile
last = file "c.mp4" (opens (capture (image 3 ∷ [])))

abbrev blank : VideoFile
blank = file "b.mp4" (opens (capture []))

outcome_of-play_example :
    outcome_of
      (play 4 (open_current (new_connector (first ∷ cut_off ∷ last ∷ []) false (some []))).1)
    ≡ (image 1 ∷ image 2 ∷ image 3 ∷ [], (completed ∷ failed ∷ completed ∷ [], some end_of_stream))
unfolding all_frames IsNumbered
outcome_of-play_example =
    outcome_of-play first (cut_off ∷ last ∷ []) (capture (image 1 ∷ image 2 ∷ [])) [] 3 refl
      (tt, (omega arith, tt)) tt (omega arith)

-- A file that opens and has no frame ends the play list: the file after it is not played.
blank-ends :
    outcome_of (play 4 (open_current (new_connector (first ∷ blank ∷ last ∷ []) false none)).1)
    ≡ (image 1 ∷ image 2 ∷ [], ([], some end_of_stream))
unfolding play read_frame read_advanced advance_playlist candidates range try_candidates
    open_current open_file mark_current_completed
blank-ends = refl

collected : collect_videos false (last ∷ first ∷ []) ≡ some (first ∷ last ∷ [])
unfolding collect_videos sorted_videos insert_file
collected = refl
