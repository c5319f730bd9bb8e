-- ===== src/Track.antt =====
-- backend/app/compliance/tracker.py: the Track that the tracker returns
use boars_head_compliance_de.Prelude.{ℕ}
use boars_head_compliance_de.Detection.{Detection}

pub record Track : Type 0 where
  pub track_id : ℕ
  pub detection : Detection
  pub age : ℕ
