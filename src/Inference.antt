-- ===== src/Inference.antt =====
-- backend/app/inference: model_spec.py here, the resolver, the registry, and one inference cycle in
-- the modules below. A configuration is a JSON value; the conversions of Python, the file system's
-- paths and the texts of only blanks are a parameter.
pub mod Resolver
pub mod Ensures
pub mod Distinct
pub mod Specs
pub mod Detector
pub mod Registry
pub mod Threads
pub mod Cycle
pub mod Keys
pub mod Order
use boars_head_compliance_de.Prelude.{
  ℕ, String, Bool, true, false, not, ◌&&◌, ◌||◌, Option, none, some, List, [], ◌∷◌, if◌then◌else◌,
  ◌==◌,
}
use text.Mathlib.Text.{◌==◌ as str_eq}
use boars_head_compliance_de.Float.{Float, FloatOps}
use boars_head_compliance_de.Serialization.{Json, null, str, Fields, find}

pub record ModelSpec : Type 0 where
  pub use_case : String
  pub model_path : String
  pub confidence_threshold : Float
  pub device : String
  pub image_size : ℕ
  pub tracker : Option String
  pub presence_confidence_threshold : Option Float

pub record Host : Type 0 where
  pub ops : FloatOps
  -- int(x) and float(x)
  pub to_int : Json → Option ℕ
  pub to_float : Json → Option Float
  -- not s.strip()
  pub is_blank : String → Bool
  -- os.path.normcase(os.path.abspath(path))
  pub normalised : String → String

-- Where the code raises: a ModelConfigError with its subject, one of the three lookup errors, or an
-- exception of Python that it does not turn into one of these.
pub data Fault : Type 0 where
  model_config : String → Fault
  unknown_model : String → Fault
  unknown_camera : String → Fault
  unknown_zone : String → Fault
  uncaught : Fault

pub data Result {ℓ} (A : Type ℓ) : Type ℓ where
  ok : A → Result A
  err : Fault → Result A

infixl 5 ◌>>=◌ ◌>>◌
unfoldable pub ◌>>=◌ {ℓ κ} : {A : Type ℓ} {B : Type κ} → Result A → (A → Result B) → Result B
ok a >>= f = f a
err e >>= f = err e

unfoldable pub ◌>>◌ {ℓ} : {B : Type ℓ} → Result (Unit {0}) → Result B → Result B
m >> k = m >>= λ _. k

unfoldable pub guard : Bool → Fault → Result (Unit {0})
guard true e = ok tt
guard false e = err e

unfoldable pub or_fail {ℓ} : {A : Type ℓ} → Option A → Fault → Result A
or_fail none e = err e
or_fail (some a) e = ok a

module _ (host : Host) where
  open host use {is_blank}

  -- 0.0 <= x <= 1.0
  abbrev pub is_fraction : Float → Bool
  is_fraction x = host.ops.le (host.ops.fraction 0 1) x && host.ops.le x (host.ops.fraction 1 1)

  abbrev pub is_device : String → Bool
  is_device device = str_eq device "cpu" || str_eq device "cuda" || str_eq device "mps"

  -- the tests of the lower threshold
  abbrev pub presence_ok : Option Float → Float → Bool
  presence_ok none confidence = true
  presence_ok (some presence) confidence =
      is_fraction presence && not (host.ops.lt confidence presence)

  -- `__post_init__`, where a ValueError is the fault given
  unfoldable pub check_spec : Fault → ModelSpec → Result ModelSpec
  check_spec fault s = do
    guard (not (is_blank s.use_case)) fault
    guard (not (is_blank s.model_path)) fault
    guard (is_fraction s.confidence_threshold) fault
    guard (is_device s.device) fault
    guard (not (s.image_size == 0)) fault
    guard (presence_ok s.presence_confidence_threshold s.confidence_threshold) fault
    ok s
