-- ===== src/Examples/Streams.antt =====
-- A server that keeps every entry, with one group for a stream, which is not there at the start.
use text.Mathlib.Text.{◌==◌ as str_eq}
use boars_head_compliance_de.Prelude.{
  ℕ, zero, suc, ◌-◌, String, ◌≡◌, refl, ap, ◌∙◌, Bool, true, false, Option, none, some, List, [],
  ◌∷◌, ◌++◌, map, length, arith, if◌then◌else◌,
}
use boars_head_compliance_de.Prelude.Dict.{string_eq, beq_refl}
use boars_head_compliance_de.Float.{Micros}
use boars_head_compliance_de.Serialization.{Json}
use boars_head_compliance_de.Serialization.Messages.{Domain, detection}
use boars_head_compliance_de.Serialization.RoundTrip.{on_the_wire}
use boars_head_compliance_de.Redis.{new_queue, Call, publishes, gets, asks_size, perform_all}
use boars_head_compliance_de.Streams.{Reply, no_entry, failed, entry, Client, RedisConfig}
use boars_head_compliance_de.Redis.Counters.{Bounds, published_in, gets_in, perform_all-counters}
use boars_head_compliance_de.Redis.Delivery.{publish_all, get_all, get_all-publish_all}
use boars_head_compliance_de.Redis.Laws.{Delivers}
use boars_head_compliance_de.Examples.Wire.{unary, unary-IsInverse, pictured}

record Streams : Type 0 where
  entries : String → List Json
  unread : String → List Json
  groups : String → Bool
  unacked : String → ℕ

abbrev set {ℓ} : {A : Type ℓ} → String → A → (String → A) → String → A
set stream a f other = if str_eq stream other then a else f other

set_same {ℓ} : {A : Type ℓ} (stream : String) (a : A) (f : String → A) → set stream a f stream ≡ a
set_same stream a f = rw (beq_refl string_eq stream) refl

abbrev read_entries : String → List Json → Streams → Reply (Unit {0}) Json × Streams
read_entries stream [] s = (no_entry, s)
read_entries stream (payload ∷ rest) s = (
  entry tt (some payload),
  record s {
    unread = set stream rest s.unread;
    unacked = set stream (suc (s.unacked stream)) s.unacked;
  },
)

abbrev first_unacked : ℕ → Option (Option (Unit {0} × ℕ))
first_unacked zero = some none
first_unacked (suc n) = some (some (tt, 0))

-- a group gets all entries before it
abbrev make_group : String → Streams → Streams
make_group stream s = if s.groups stream then s else record s {
  groups = set stream true s.groups;
  unread = set stream (s.entries stream) s.unread;
  unacked = set stream 0 s.unacked;
}

-- NOGROUP
abbrev read_group : Bool → String → Streams → Reply (Unit {0}) Json × Streams
read_group true stream s = read_entries stream (s.unread stream) s
read_group false stream s = (failed, s)

abbrev client : Client Json
client = record {
  Server = Streams;
  MessageId = Unit {0};
  xadd = λ stream payload maxlen approximate s. (
    true,
    record s {
      entries = set stream (s.entries stream ++ payload ∷ []) s.entries;
      unread = set stream (s.unread stream ++ payload ∷ []) s.unread;
    },
  );
  xgroup_create = λ stream group s. make_group stream s;
  xreadgroup = λ group consumer stream block s. read_group (s.groups stream) stream s;
  xack = λ stream group id s.
      (true, record s { unacked = set stream (s.unacked stream - 1) s.unacked });
  xpending_range =
      λ stream group s. (if s.groups stream then first_unacked (s.unacked stream) else none, s);
  xclaim = λ stream group consumer idle id s. (some none, s);
  xlen = λ stream s. (some (length (s.entries stream)), s);
}

client-Delivers : Delivers client
client-Delivers = record {
  entries = λ stream s. s.entries stream;
  created = λ stream group s. s.groups stream;
  waiting = λ stream group s. s.unread stream;
  pending = λ stream group s. s.unacked stream;
  add = λ stream payload maxlen approximate s. (
    _,
    refl,
    λ room. set_same stream (s.entries stream ++ payload ∷ []) s.entries,
    λ group. (refl, refl, λ there room. set_same stream (s.unread stream ++ payload ∷ []) s.unread),
  );
  create_new = λ stream group s missing. rw missing (
    set_same stream true s.groups,
    set_same stream (s.entries stream) s.unread,
    set_same stream 0 s.unacked,
  );
  create_again = λ stream group s there. rw there refl;
  read = λ stream group consumer block s payload rest there e. (
    tt,
    (read_entries stream (payload ∷ rest) s).1,
    _,
    ap (λ b. read_group b stream s) there ∙ ap (λ es. read_entries stream es s) e,
    refl,
    there,
    set_same stream rest s.unread,
    set_same stream (set stream (suc (s.unacked stream)) s.unacked stream - 1)
          (set stream (suc (s.unacked stream)) s.unacked)
        ∙ omega (arith, set_same stream (suc (s.unacked stream)) s.unacked),
  );
  none_pending = λ stream group s there e. rw (there, e) refl;
}

abbrev config : RedisConfig
config = record {
  frame_ingested = "cv:frame:ingested";
  detection_created = "cv:detection:created";
  compliance_alert = "cv:compliance:alert";
  evidence_capture = "cv:evidence:capture";
  max_length = 10000;
  approximate_trim = true;
  pending_idle_timeout_ms = 60000;
  recovery_interval = 10000000;
}

abbrev empty : Streams
empty = record {
  entries = λ stream. [];
  unread = λ stream. [];
  groups = λ stream. false;
  unacked = λ stream. 0;
}

abbrev messages : List Domain
messages = detection pictured ∷ detection (record pictured { frame_id = 8 }) ∷ []

-- one call that recovers first, and one that waits for a second
abbrev requests : List (Option Micros × Micros)
requests = (none, 20000000) ∷ (some 1000000, 20500000) ∷ []

get_all-publish_all_example :
    get_all unary client "inference.detections" requests
      (publish_all unary client "inference.detections" messages (new_queue "host" config, empty))
    ≡ map (λ m. some (on_the_wire m)) messages
unfolding client-Delivers
get_all-publish_all_example =
    get_all-publish_all unary client client-Delivers "inference.detections" config unary-IsInverse
      messages requests (new_queue "host" config) empty (refl, (refl, tt)) refl (λ known. cc) refl
      (λ there. refl) (omega arith) refl

abbrev calls : List Call
calls =
    publishes "inference.detections" (detection pictured)
    ∷ publishes "ingestion.frames" (detection pictured)
    ∷ gets "inference.detections" none 0
    ∷ gets "inference.detections" (some 0) 30000000
    ∷ asks_size "inference.detections"
    ∷ []

perform_all-counters_example :
    Bounds 2 2 2 (perform_all unary client calls (new_queue "host" config, empty)).0.metrics
unfolding published_in gets_in
perform_all-counters_example = perform_all-counters unary client "host" config calls empty
