-- ===== src/Evidence.antt =====
-- The evidence buffers of backend/app/compliance/evidence, a package that the repository does not
-- hold: its operations are a parameter, with what tests/compliance/test_evidence_buffer.py states
-- of them. A raise is not modelled: the callers test `frozen` before they add or freeze.
use boars_head_compliance_de.Prelude.{
  ℕ, String, ◌≡◌, refl, Bool, true, false, Option, List, [], ◌∷◌, ◌++◌,
}
use boars_head_compliance_de.Float.{Micros}
use boars_head_compliance_de.Detection.{Detection, Bytes}

-- the arguments of EvidenceItem(...); `shot` has `detections` and `frame_shape` where they are given
pub record ItemArgs : Type 0 where
  pub frame_id : ℕ
  pub timestamp : Micros
  pub thumbnail : Option Bytes
  pub camera_id : String
  pub zone_id : String
  pub person_id : ℕ
  pub shot : Option (List Detection × (ℕ × ℕ))

pub record EvidenceLib : Type 1 where
  pub Item : Type 0
  pub Payload : Type 0
  pub Buffer : Type 0
  pub item : ItemArgs → Item
  -- EvidenceBuffer(max_items, group_id, camera_id, zone_id)
  pub open_buffer : ℕ → String → String → String → Buffer
  pub add : Item → Buffer → Buffer
  pub freeze : Buffer → Payload × Buffer
  pub frozen : Buffer → Bool
  pub group_of : Buffer → String
  pub payload_group : Payload → String
  pub open_frozen : (n : ℕ) (g c z : String) → frozen (open_buffer n g c z) ≡ false
  pub open_group : (n : ℕ) (g c z : String) → group_of (open_buffer n g c z) ≡ g
  pub add_frozen : (i : Item) (b : Buffer) → frozen (add i b) ≡ frozen b
  pub add_group : (i : Item) (b : Buffer) → group_of (add i b) ≡ group_of b
  pub freeze_frozen : (b : Buffer) → frozen (freeze b).1 ≡ true
  pub freeze_group : (b : Buffer) → payload_group (freeze b).0 ≡ group_of b

-- A value that meets the laws: it keeps every item.
pub record ListBuffer : Type 0 where
  pub group : String
  pub items : List ItemArgs
  pub closed : Bool

abbrev pub list_evidence : EvidenceLib
list_evidence = record {
  Item = ItemArgs;
  Payload = String × List ItemArgs;
  Buffer = ListBuffer;
  item = λ i. i;
  open_buffer = λ n g c z. record { group = g; items = []; closed = false };
  add = λ i b. record b { items = b.items ++ i ∷ [] };
  freeze = λ b. ((b.group, b.items), record b { closed = true });
  frozen = λ b. b.closed;
  group_of = λ b. b.group;
  payload_group = λ p. p.0;
  open_frozen = λ n g c z. refl;
  open_group = λ n g c z. refl;
  add_frozen = λ i b. refl;
  add_group = λ i b. refl;
  freeze_frozen = λ b. refl;
  freeze_group = λ b. refl;
}
