-- ===== src/Ingestion/Files.antt =====
-- backend/app/ingestion/connectors/video.py: the files of a play list. What cv2 makes of a file is given
-- with the file; the frames that a capture still has are a list.
use Prim.Native.String.{compare}
use boars_head_compliance_de.Prelude.{
  ℕ, String, Bool, true, false, not, ◌&&◌, ◌||◌, Option, none, some, List, [], ◌∷◌, if◌then◌else◌,
  ◌==◌,
}
use Prim.Native.Nat.{Ordering}
use text.Mathlib.Text.{◌==◌ as str_eq}
use boars_head_compliance_de.Float.{Fps}
use boars_head_compliance_de.Ingestion.{Image}

-- what `_describe_open_failure` reads of a file; `has_ftyp` and `has_moov` are tests on its first 64
-- bytes
pub record Probe : Type 0 where
  pub size : ℕ
  pub has_ftyp : Bool
  pub has_moov : Bool

-- a `cv2.VideoCapture` that is open: CAP_PROP_FPS, _FRAME_COUNT, _FRAME_WIDTH, _FRAME_HEIGHT
pub record Capture : Type 0 where
  pub left : List Image
  pub fps : Fps
  pub frame_count : ℕ
  pub width : ℕ
  pub height : ℕ

-- a file that cv2 opens, and one that it does not; `none` is an OSError of the probe
pub data Contents : Type 0 where
  opens : Capture → Contents
  fails : Option Probe → Contents

-- a path, with `p.name.lower()` and `p.suffix.lower()`
pub record VideoFile : Type 0 where
  pub name : String
  pub lower_name : String
  pub lower_suffix : String
  pub contents : Contents

abbrev pub is_container : String → Bool
is_container suffix = str_eq suffix ".mp4" || str_eq suffix ".mov" || str_eq suffix ".m4v"

-- `_describe_open_failure`
unfoldable pub describe_open_failure : String → Option Probe → String
describe_open_failure suffix none = "File could not be read (I/O error)"
describe_open_failure suffix (some probe) =
    if probe.size == 0
    then "File is empty (0 bytes)"
    else if is_container suffix && (probe.has_ftyp && not probe.has_moov)
    then "Incomplete recording — moov atom missing (file was not finalised)"
    else "File could not be opened by cv2 (unsupported codec or corrupt container)"

abbrev is_video : String → Bool
is_video suffix =
    str_eq suffix ".mp4"
    || str_eq suffix ".avi"
    || str_eq suffix ".mov"
    || str_eq suffix ".mkv"
    || str_eq suffix ".m4v"

abbrev comes_after : String → String → Bool
comes_after s t = elim (compare s t) [ Ordering.gt ↦ true | _ ↦ false ]

-- `sorted` by `p.name.lower()`; files of the same key keep their order
unfoldable pub insert_file : VideoFile → List VideoFile → List VideoFile
insert_file f [] = f ∷ []
insert_file f (g ∷ files) =
    let rest = insert_file f files in
    if comes_after f.lower_name g.lower_name then g ∷ rest else f ∷ g ∷ files

unfoldable pub sorted_videos : List VideoFile → List VideoFile
sorted_videos [] = []
sorted_videos (f ∷ files) =
    let rest = sorted_videos files in if is_video f.lower_suffix then insert_file f rest else rest

abbrev pub found : List VideoFile → Option (List VideoFile)
found [] = none
found (f ∷ files) = some (f ∷ files)

-- `_collect_videos` for a file, and for a directory with its entries; `none` is a FileNotFoundError
unfoldable pub collect_videos : Bool → List VideoFile → Option (List VideoFile)
collect_videos true path = some path
collect_videos false entries = found (sorted_videos entries)
