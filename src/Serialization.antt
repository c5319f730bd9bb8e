-- ===== src/Serialization.antt =====
-- backend/app/infrastructure/redis/serialization.py: the wire format of the topics
-- `ingestion.frames`, `inference.detections` and `compliance.alert`. `json`, `base64`, `datetime` and
-- the builtins `int` and `float` are a parameter; an exception in `deserialize` is `none`, and so
-- is a value of another JSON type than the field's, which the code keeps where it does not convert.
pub mod Messages
pub mod RoundTrip
use boars_head_compliance_de.Prelude.{
  ℕ, String, ◌≡◌, Bool, Option, none, some, List, [], ◌∷◌, if◌then◌else◌,
}
use text.Mathlib.Text.{◌==◌ as str_eq}
use boars_head_compliance_de.Float.{Float, Micros, Fps}
use boars_head_compliance_de.Detection.{BoundingBox, Detection, Bytes}

-- the values of Python's json module; `rate` is a float that is a frame rate
mutual
  pub data Json : Type 0 where
    null : Json
    boolean : Bool → Json
    int : ℕ → Json
    float : Float → Json
    rate : Fps → Json
    str : String → Json
    array : Items → Json
    object : Fields → Json

  pub data Items : Type 0 where
    nil : Items
    cons : Json → Items → Items

  pub data Fields : Type 0 where
    end : Fields
    field : String → Json → Fields → Fields

pub record Codec : Type 1 where
  -- the bytes of a stream field
  pub Wire : Type 0
  pub dumps : Json → Wire
  pub loads : Wire → Option Json
  pub isoformat : Micros → String
  pub fromisoformat : String → Option Micros
  pub b64encode : Bytes → String
  pub b64decode : String → Option Bytes
  -- int(x), and float(x) of a value and of a frame rate
  pub to_int : Json → Option ℕ
  pub to_float : Json → Option Float
  pub to_rate : Json → Option Fps

-- What the program relies on: each reader reads what its writer wrote.
pub record IsInverse (c : Codec) : Type 0 where
  pub loads-dumps : (j : Json) → c.loads (c.dumps j) ≡ some j
  pub fromisoformat-isoformat : (t : Micros) → c.fromisoformat (c.isoformat t) ≡ some t
  pub b64decode-b64encode : (b : Bytes) → c.b64decode (c.b64encode b) ≡ some b
  pub to_int-int : (n : ℕ) → c.to_int (int n) ≡ some n
  pub to_float-float : (x : Float) → c.to_float (float x) ≡ some x
  pub to_rate-rate : (x : Fps) → c.to_rate (rate x) ≡ some x

infixl 5 ◌>>=◌
abbrev pub ◌>>=◌ {ℓ κ} : {A : Type ℓ} {B : Type κ} → Option A → (A → Option B) → Option B
none >>= f = none
some a >>= f = f a

-- d[key]; d.get(key) gives `none` too
unfoldable pub find : String → Fields → Option Json
find key end = none
find key (field k v rest) = if str_eq k key then some v else find key rest

abbrev pub as_text : Json → Option String
as_text (str s) = some s
as_text _ = none

abbrev pub as_fields : Json → Option Fields
as_fields (object fields) = some fields
as_fields _ = none

abbrev pub as_items : Json → Option Items
as_items (array items) = some items
as_items _ = none

-- data.get(key, ""), where the value is a text
abbrev pub text_or_empty : Option Json → Option String
text_or_empty none = some ""
text_or_empty (some j) = as_text j

pub record FrameEnvelope : Type 0 where
  pub camera_id : String
  pub frame_id : ℕ
  pub captured_at : Micros
  pub received_at : Micros
  pub topic : String
  pub correlation_id : String
  pub session_id : String
  pub source_fps : Fps

module _ (c : Codec) where
  open c use {
    isoformat, fromisoformat, b64encode, b64decode, to_int, to_float, to_rate, dumps, loads,
  }

  -- `_str_to_dt`
  abbrev time : Json → Option Micros
  time j = as_text j >>= fromisoformat

  -- `_bytes_to_b64`
  abbrev bytes_to_b64 : Option Bytes → Json
  bytes_to_b64 none = null
  bytes_to_b64 (some b) = str (b64encode b)

  -- `_b64_to_bytes` of data.get(key)
  abbrev b64_to_bytes : Option Json → Option (Option Bytes)
  b64_to_bytes none = some none
  b64_to_bytes (some null) = some none
  b64_to_bytes (some (str s)) = b64decode s >>= λ b. some (some b)
  b64_to_bytes (some _) = none

  -- float(data.get("source_fps", 0.0))
  abbrev rate_or_zero : Option Json → Option Fps
  rate_or_zero none = some 0
  rate_or_zero (some j) = to_rate j

  unfoldable pub encode_frame_envelope : FrameEnvelope → Fields
  encode_frame_envelope o = field "camera_id" (str o.camera_id) (
      field "frame_id" (int o.frame_id) (
        field "captured_at" (str (isoformat o.captured_at)) (
          field "received_at" (str (isoformat o.received_at)) (
            field "topic" (str o.topic) (
              field "correlation_id" (str o.correlation_id) (
                field "session_id" (str o.session_id)
                  (field "source_fps" (rate o.source_fps) end)))))))

  unfoldable pub decode_frame_envelope : Fields → Option FrameEnvelope
  unfolding find
  decode_frame_envelope d = do
    camera_id ← find "camera_id" d >>= as_text
    frame_id ← find "frame_id" d >>= to_int
    captured_at ← find "captured_at" d >>= time
    received_at ← find "received_at" d >>= time
    topic ← find "topic" d >>= as_text
    correlation_id ← text_or_empty (find "correlation_id" d)
    session_id ← text_or_empty (find "session_id" d)
    source_fps ← rate_or_zero (find "source_fps" d)
    some (record {
      camera_id = camera_id;
      frame_id = frame_id;
      captured_at = captured_at;
      received_at = received_at;
      topic = topic;
      correlation_id = correlation_id;
      session_id = session_id;
      source_fps = source_fps;
    })

  unfoldable pub encode_detection : Detection → Json
  encode_detection d = object (
      field "class_id" (int d.class_id) (
        field "class_name" (str d.class_name) (
          field "confidence" (float d.confidence) (
            field "use_case" (str d.use_case) (
              field "bbox"
                (object (
                  field "x1" (float d.bbox.x1) (
                    field "y1" (float d.bbox.y1)
                      (field "x2" (float d.bbox.x2) (field "y2" (float d.bbox.y2) end)))))
                end)))))

  -- BoundingBox(**d): a coordinate is taken as it is
  abbrev as_float : Json → Option Float
  as_float (float x) = some x
  as_float _ = none

  unfoldable pub decode_detection : Json → Option Detection
  unfolding find
  decode_detection j = do
    d ← as_fields j
    box ← find "bbox" d >>= as_fields
    x1 ← find "x1" box >>= as_float
    y1 ← find "y1" box >>= as_float
    x2 ← find "x2" box >>= as_float
    y2 ← find "y2" box >>= as_float
    class_id ← find "class_id" d >>= to_int
    class_name ← find "class_name" d >>= as_text
    confidence ← find "confidence" d >>= to_float
    use_case ← find "use_case" d >>= as_text
    some (record {
      class_id = class_id;
      class_name = class_name;
      bbox = record { x1 = x1; y1 = y1; x2 = x2; y2 = y2 };
      confidence = confidence;
      use_case = use_case;
      track_id = none;
    })

  unfoldable pub encode_detections : List Detection → Items
  unfolding encode_detection
  encode_detections [] = nil
  encode_detections (d ∷ ds) = cons (encode_detection d) (encode_detections ds)

  unfoldable pub decode_detections : Items → Option (List Detection)
  decode_detections nil = some []
  decode_detections (cons j js) =
      let rest = decode_detections js in decode_detection j >>= λ d. rest >>= λ ds. some (d ∷ ds)
