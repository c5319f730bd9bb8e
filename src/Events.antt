-- ===== src/Events.antt =====
-- backend/app/compliance/events.py: the messages of a confirmed violation
use boars_head_compliance_de.Prelude.{ℕ, String, Option}
use boars_head_compliance_de.Float.{Micros}
use boars_head_compliance_de.Evidence.{EvidenceLib}

-- `outcome` is the text "violation" at every construction; a `group_id` may be None
pub record ComplianceEvent : Type 0 where
  pub camera_id : String
  pub zone_id : String
  pub person_id : ℕ
  pub timestamp : Micros
  pub outcome : String
  pub rule_name : String
  pub group_id : Option String

module _ (ev : EvidenceLib) where
  open ev use {Payload}

  pub record EvidenceCaptureEvent : Type 0 where
    pub group_id : Option String
    pub camera_id : String
    pub zone_id : String
    pub payload : Payload
    pub timestamp : Micros

  -- a message with its topic, `evidence.capture` or `compliance.alert`
  pub data Message : Type 0 where
    evidence_capture : EvidenceCaptureEvent → Message
    compliance_alert : ComplianceEvent → Message
