-- ===== src/Serialization/Messages.antt =====
-- backend/app/infrastructure/redis/serialization.py: the messages and the two entry points. The
-- messages of `evidence.capture` are built of the evidence package's items and are left out.
use boars_head_compliance_de.Prelude.{String, Option, none, some, if◌then◌else◌}
use text.Mathlib.Text.{◌==◌ as str_eq}
use boars_head_compliance_de.Detection.{DetectionEvent}
use boars_head_compliance_de.Events.{ComplianceEvent}
use boars_head_compliance_de.Serialization.{
  Json, null, int, str, array, object, rate, Fields, end, field, Codec, find, as_text, as_fields,
  as_items, ◌>>=◌, text_or_empty, time, bytes_to_b64, b64_to_bytes, rate_or_zero, FrameEnvelope,
  encode_frame_envelope, decode_frame_envelope, encode_detections, decode_detections,
}

-- a domain object of a topic
pub data Domain : Type 0 where
  frame : FrameEnvelope → Domain
  detection : DetectionEvent → Domain
  alert : ComplianceEvent → Domain

-- a text or None
abbrev pub text_or_null : Option String → Json
text_or_null none = null
text_or_null (some s) = str s

abbrev pub text_or_none : Json → Option (Option String)
text_or_none null = some none
text_or_none (str s) = some (some s)
text_or_none _ = none

module _ (c : Codec) where
  open c use {Wire, isoformat, to_int, dumps, loads}

  unfoldable pub encode_detection_event : DetectionEvent → Fields
  encode_detection_event o = field "camera_id" (str o.camera_id) (
      field "zone_id" (str o.zone_id) (
        field "frame_id" (int o.frame_id) (
          field "captured_at" (str (isoformat o.captured_at)) (
            field "processed_at" (str (isoformat o.processed_at)) (
              field "detections" (array (encode_detections c o.detections)) (
                field "thumbnail" (bytes_to_b64 c o.thumbnail) (
                  field "correlation_id" (str o.correlation_id)
                    (field "source_fps" (rate o.source_fps) end))))))))

  -- `frame_shape` takes its default
  unfoldable pub decode_detection_event : Fields → Option DetectionEvent
  unfolding find
  decode_detection_event d = do
    camera_id ← find "camera_id" d >>= as_text
    zone_id ← find "zone_id" d >>= as_text
    frame_id ← find "frame_id" d >>= to_int
    captured_at ← find "captured_at" d >>= time c
    processed_at ← find "processed_at" d >>= time c
    items ← find "detections" d >>= as_items
    detections ← decode_detections c items
    thumbnail ← b64_to_bytes c (find "thumbnail" d)
    correlation_id ← text_or_empty (find "correlation_id" d)
    source_fps ← rate_or_zero c (find "source_fps" d)
    some (record {
      camera_id = camera_id;
      zone_id = zone_id;
      frame_id = frame_id;
      captured_at = captured_at;
      processed_at = processed_at;
      detections = detections;
      thumbnail = thumbnail;
      correlation_id = correlation_id;
      source_fps = source_fps;
      frame_shape = (0, 0);
    })

  unfoldable pub encode_compliance_event : ComplianceEvent → Fields
  encode_compliance_event o = field "camera_id" (str o.camera_id) (
      field "zone_id" (str o.zone_id) (
        field "person_id" (int o.person_id) (
          field "timestamp" (str (isoformat o.timestamp)) (
            field "outcome" (str o.outcome) (
              field "rule_name" (str o.rule_name)
                (field "group_id" (text_or_null o.group_id) end))))))

  unfoldable pub decode_compliance_event : Fields → Option ComplianceEvent
  unfolding find
  decode_compliance_event d = do
    camera_id ← find "camera_id" d >>= as_text
    zone_id ← find "zone_id" d >>= as_text
    person_id ← find "person_id" d >>= to_int
    timestamp ← find "timestamp" d >>= time c
    outcome ← find "outcome" d >>= as_text
    rule_name ← find "rule_name" d >>= as_text
    group_id ← find "group_id" d >>= text_or_none
    some (record {
      camera_id = camera_id;
      zone_id = zone_id;
      person_id = person_id;
      timestamp = timestamp;
      outcome = outcome;
      rule_name = rule_name;
      group_id = group_id;
    })

  -- `_TOPIC_TO_EVENT_TYPE`
  unfoldable pub event_type_of : String → Option String
  event_type_of topic =
      if str_eq topic "ingestion.frames"
      then some "frame.ingested"
      else if str_eq topic "inference.detections"
      then some "detection.created"
      else if str_eq topic "compliance.alert"
      then some "compliance.alert"
      else none

  -- `_ENCODERS`, for an event type; an object of another type has not the fields it reads
  unfoldable pub encoder : String → Domain → Option Fields
  unfolding encode_frame_envelope encode_detection_event encode_compliance_event
  encoder event_type (frame o) =
      if str_eq event_type "frame.ingested" then some (encode_frame_envelope c o) else none
  encoder event_type (detection o) =
      if str_eq event_type "detection.created" then some (encode_detection_event o) else none
  encoder event_type (alert o) =
      if str_eq event_type "compliance.alert" then some (encode_compliance_event o) else none

  -- `_DECODERS`, applied to the fields
  unfoldable pub decoder : String → Fields → Option Domain
  unfolding decode_frame_envelope decode_detection_event decode_compliance_event
  decoder event_type d =
      if str_eq event_type "frame.ingested"
      then (decode_frame_envelope c d >>= λ o. some (frame o))
      else if str_eq event_type "detection.created"
      then (decode_detection_event d >>= λ o. some (detection o))
      else if str_eq event_type "compliance.alert"
      then (decode_compliance_event d >>= λ o. some (alert o))
      else none

  -- a KeyError or an AttributeError is `none`
  unfoldable pub serialize : String → Domain → Option Wire
  unfolding event_type_of encoder
  serialize topic message = do
    event_type ← event_type_of topic
    fields ← encoder event_type message
    some (
        dumps
          (object (field "schema_version" (int 1) (field "event_type" (str event_type) fields))))

  -- the topic is only logged
  unfoldable pub deserialize : String → Wire → Option Domain
  unfolding decoder find
  deserialize topic data_bytes = do
    payload ← loads data_bytes >>= as_fields
    event_type ← find "event_type" payload >>= as_text
    decoder event_type payload
