-- ===== src/Serialization/RoundTrip.antt =====
-- What comes back from the wire.
use boars_head_compliance_de.Prelude.{String, ◌≡◌, refl, Option, none, some, List, [], ◌∷◌, map}
use boars_head_compliance_de.Detection.{Detection, DetectionEvent, Bytes}
use boars_head_compliance_de.Events.{ComplianceEvent}
use boars_head_compliance_de.Serialization.{
  Codec, IsInverse, find, FrameEnvelope, encode_frame_envelope, decode_frame_envelope,
  encode_detection, decode_detection, encode_detections, decode_detections, bytes_to_b64,
  b64_to_bytes,
}
use boars_head_compliance_de.Serialization.Messages.{
  text_or_null, text_or_none, Domain, frame, detection, alert, serialize, deserialize,
  event_type_of, encoder, decoder, encode_detection_event, decode_detection_event,
  encode_compliance_event, decode_compliance_event,
}

-- a detection without what the wire leaves out, the id of the model's tracker
abbrev pub without_track_id : Detection → Detection
without_track_id d = record d { track_id = none }

-- a message as it arrives
abbrev pub on_the_wire : Domain → Domain
on_the_wire (frame o) = frame o
on_the_wire (detection o) =
    detection (record o { detections = map without_track_id o.detections; frame_shape = (0, 0) })
on_the_wire (alert o) = alert o

abbrev pub topic_of : Domain → String
topic_of (frame o) = "ingestion.frames"
topic_of (detection o) = "inference.detections"
topic_of (alert o) = "compliance.alert"

module _ (c : Codec) (inverse : IsInverse c) where
  decode_detection-encode_detection :
      (d : Detection) → decode_detection c (encode_detection c d) ≡ some (without_track_id d)
  unfolding decode_detection encode_detection find
  decode_detection-encode_detection d = simp (inverse.to_int-int, inverse.to_float-float)

  decode_detections-encode_detections :
      (ds : List Detection)
      → decode_detections c (encode_detections c ds) ≡ some (map without_track_id ds)
  unfolding decode_detections encode_detections
  decode_detections-encode_detections [] = refl
  decode_detections-encode_detections (d ∷ ds) =
      simp (decode_detection-encode_detection d, decode_detections-encode_detections ds)

  b64_to_bytes-bytes_to_b64 : (b : Option Bytes) → b64_to_bytes c (some (bytes_to_b64 c b)) ≡ some b
  b64_to_bytes-bytes_to_b64 none = refl
  b64_to_bytes-bytes_to_b64 (some b) = simp (inverse.b64decode-b64encode)

  decode-encode_frame :
      (o : FrameEnvelope) → decode_frame_envelope c (encode_frame_envelope c o) ≡ some o
  unfolding decode_frame_envelope encode_frame_envelope find
  decode-encode_frame o =
      simp (inverse.to_int-int, inverse.fromisoformat-isoformat, inverse.to_rate-rate)

  decode-encode_detection_event :
      (o : DetectionEvent)
      → decode_detection_event c (encode_detection_event c o)
        ≡ some (record o { detections = map without_track_id o.detections; frame_shape = (0, 0) })
  unfolding decode_detection_event encode_detection_event find
  decode-encode_detection_event o = simp (
    inverse.to_int-int,
    inverse.fromisoformat-isoformat,
    inverse.to_rate-rate,
    decode_detections-encode_detections o.detections,
    b64_to_bytes-bytes_to_b64 o.thumbnail,
  )

  text_or_none-text_or_null : (g : Option String) → text_or_none (text_or_null g) ≡ some g
  text_or_none-text_or_null none = refl
  text_or_none-text_or_null (some s) = refl

  decode-encode_compliance_event :
      (o : ComplianceEvent) → decode_compliance_event c (encode_compliance_event c o) ≡ some o
  unfolding decode_compliance_event encode_compliance_event find
  decode-encode_compliance_event o =
      simp
        (text_or_none-text_or_null o.group_id, inverse.to_int-int, inverse.fromisoformat-isoformat)

  -- Where the readers of the codec undo its writers, a message that is sent under its topic arrives,
  -- and arrives as it was, but for a detection event: the track ids of its detections and its
  -- frame's shape are gone.
  pub deserialize-serialize :
      (message : Domain)
      → (bytes : c.Wire) × (serialize c (topic_of message) message ≡ some bytes)
        × (deserialize c (topic_of message) bytes ≡ some (on_the_wire message))
  unfolding serialize deserialize event_type_of encoder decoder find
  deserialize-serialize (frame o) = (_, refl, simp (inverse.loads-dumps, decode-encode_frame o))
  deserialize-serialize (detection o) =
      (_, refl, simp (inverse.loads-dumps, decode-encode_detection_event o))
  deserialize-serialize (alert o) =
      (_, refl, simp (inverse.loads-dumps, decode-encode_compliance_event o))
