-- ===== src/Redis.antt =====
-- backend/app/infrastructure/redis/message_queue.py, with config.py and metrics.py: the message queue
-- on Redis streams. The Redis server and its client are a parameter, the state of the server being
-- passed along. The clock's readings come with the call.
pub mod Counters
pub mod Laws
pub mod Delivery
use Prim.Native.String.{◌++◌ as ◌++ₛ◌}
use text.Mathlib.Text.{◌==◌ as str_eq}
use boars_head_compliance_de.Prelude.{
  ℕ, suc, ◌+◌, ◌/◌, String, Bool, true, false, ◌&&◌, ◌||◌, not, Option, none, some, List, [], ◌∷◌,
  if◌then◌else◌, leb, ltb, ◌==◌,
}
use boars_head_compliance_de.Prelude.Dict.{Dict, string_eq, get, put}
use boars_head_compliance_de.Float.{Micros}
use boars_head_compliance_de.Serialization.{Codec}
use boars_head_compliance_de.Serialization.Messages.{Domain, serialize, deserialize}
use boars_head_compliance_de.Streams.{
  Reply, Client, RedisConfig, RedisMetrics, record_publish, record_publish_failure,
  record_stream_read, record_ack, record_processing_failure, record_pending_recovered,
  record_connection_failure, timed_out, failed, no_entry, entry,
}

pub record RedisStreamMessageQueue : Type 0 where
  pub consumer_name : String
  pub config : RedisConfig
  pub metrics : RedisMetrics
  pub last_recovery : Dict String Micros
  pub groups_initialised : List (String × String)

abbrev pub new_queue : String → RedisConfig → RedisStreamMessageQueue
new_queue consumer_name config = record {
  consumer_name = consumer_name;
  config = config;
  metrics = record {
    connection_failures = 0;
    publish_total = 0;
    publish_failure_total = 0;
    stream_read_total = 0;
    stream_ack_total = 0;
    stream_processing_failure_total = 0;
    stream_pending_recovered = 0;
  };
  last_recovery = [];
  groups_initialised = [];
}

unfoldable pub stream_for_topic : RedisConfig → String → String
stream_for_topic config topic =
    if str_eq topic "ingestion.frames"
    then config.frame_ingested
    else if str_eq topic "inference.detections"
    then config.detection_created
    else if str_eq topic "compliance.alert"
    then config.compliance_alert
    else if str_eq topic "evidence.capture"
    then config.evidence_capture
    else "cv:" ++ₛ topic

unfoldable pub consumer_group_for_topic : RedisConfig → String → String
consumer_group_for_topic config topic = stream_for_topic config topic ++ₛ ":workers"

abbrev pub is_initialised : String → String → List (String × String) → Bool
is_initialised stream group [] = false
is_initialised stream group ((s, g) ∷ rest) =
    (str_eq s stream && str_eq g group) || is_initialised stream group rest

abbrev value_or_zero : Option ℕ → ℕ
value_or_zero none = 0
value_or_zero (some n) = n

-- `_is_recovery_due` at the time `now`
unfoldable pub is_recovery_due :
    String → Micros → RedisStreamMessageQueue → Bool × RedisStreamMessageQueue
is_recovery_due topic now q =
    let last = value_or_zero (get topic q.last_recovery) in
    if leb (last + q.config.recovery_interval) now
    then (true, record q { last_recovery = put topic now q.last_recovery })
    else (false, q)

-- the `block` argument for a timeout: 0 is for ever; no timeout, one of 0 or less, or one in microseconds
unfoldable pub block_ms : Option Micros → Option ℕ
block_ms none = some 0
block_ms (some t) = if t == 0 then none else some (t / 1000)

module _ (codec : Codec) (client : Client codec.Wire) where
  open client use {Server, MessageId}

  abbrev pub QueueState : Type 0
  QueueState = RedisStreamMessageQueue × Server

  abbrev pub counted :
      (RedisMetrics → RedisMetrics) → RedisStreamMessageQueue → RedisStreamMessageQueue
  counted f q = record q { metrics = f q.metrics }

  -- `_ensure_group`
  unfoldable pub ensure_group : String → String → QueueState → QueueState
  ensure_group stream group (q, server) =
      if is_initialised stream group q.groups_initialised then (q, server) else (
        record q { groups_initialised = (stream, group) ∷ q.groups_initialised },
        client.xgroup_create stream group server,
      )

  -- deserialize(topic, fields.get(_FIELD)), which is None for None
  unfoldable pub decoded : String → Option codec.Wire → Option Domain
  decoded topic none = none
  decoded topic (some payload) = deserialize codec topic payload

  abbrev pub failure_counted : Option Domain → RedisStreamMessageQueue → RedisStreamMessageQueue
  failure_counted none q = counted record_processing_failure q
  failure_counted (some obj) q = q

  -- after the acknowledgement of a claimed entry, whose exception is that of the whole recovery
  unfoldable pub claim_acked : Bool → Option Domain → QueueState → Option Domain × QueueState
  claim_acked true obj (q, server) =
      (obj, (failure_counted obj (counted record_pending_recovered (counted record_ack q)), server))
  claim_acked false obj s = (none, s)

  -- `_try_recover_pending` from the deserialization on
  unfoldable pub take_claimed :
      String
      → String
      → String
      → MessageId
      → Option codec.Wire
      → QueueState
      → Option Domain × QueueState
  take_claimed topic stream group id payload (q, server) =
      let (acked, server') = client.xack stream group id server in
      claim_acked acked (decoded topic payload) (q, server')

  -- the answer to XCLAIM
  unfoldable pub claim_answered :
      String
      → String
      → String
      → MessageId
      → Option (Option (Option codec.Wire))
      → QueueState
      → Option Domain × QueueState
  claim_answered topic stream group id none s = (none, s)
  claim_answered topic stream group id (some none) s = (none, s)
  claim_answered topic stream group id (some (some payload)) s =
      take_claimed topic stream group id payload s

  -- the answer to XPENDING
  unfoldable pub claim_pending :
      String
      → String
      → String
      → Option (Option (MessageId × ℕ))
      → QueueState
      → Option Domain × QueueState
  claim_pending topic stream group none s = (none, s)
  claim_pending topic stream group (some none) s = (none, s)
  claim_pending topic stream group (some (some (id, idle))) (q, server) =
      let limit = q.config.pending_idle_timeout_ms in
      let (claimed, server') = client.xclaim stream group q.consumer_name limit id server in
      if ltb idle limit
      then (none, (q, server))
      else claim_answered topic stream group id claimed (q, server')

  -- `_try_recover_pending`
  unfoldable pub try_recover_pending :
      String → String → String → QueueState → Option Domain × QueueState
  try_recover_pending topic stream group (q, server) =
      let (pending, server') = client.xpending_range stream group server in
      claim_pending topic stream group pending (q, server')

  abbrev pub publish_counted : Bool → RedisStreamMessageQueue → RedisStreamMessageQueue
  publish_counted true q = counted record_publish q
  publish_counted false q = counted record_publish_failure q

  -- XADD of what `serialize` returned
  unfoldable pub add_payload : String → Option codec.Wire → QueueState → QueueState
  add_payload stream none (q, server) = (publish_counted false q, server)
  add_payload stream (some payload) (q, server) =
      let (added, server') =
        client.xadd stream payload q.config.max_length q.config.approximate_trim server in
      (publish_counted added q, server')

  -- `publish`; an exception of `serialize` or of the client is logged
  unfoldable pub publish : String → Domain → QueueState → QueueState
  publish topic message (q, server) =
      add_payload (stream_for_topic q.config topic) (serialize codec topic message) (q, server)

  -- after the acknowledgement of an entry that was read; `none` is queue.Empty
  unfoldable pub read_acked : Bool → Option Domain → QueueState → Option Domain × QueueState
  read_acked true obj (q, server) = (obj, (failure_counted obj (counted record_ack q), server))
  read_acked false obj (q, server) = (obj, (failure_counted obj q, server))

  -- `get` from the result of the read on
  unfoldable pub take_reply :
      String
      → String
      → String
      → Reply MessageId codec.Wire
      → QueueState
      → Option Domain × QueueState
  take_reply topic stream group timed_out s = (none, s)
  take_reply topic stream group failed (q, server) =
      (none, (counted record_connection_failure q, server))
  take_reply topic stream group no_entry s = (none, s)
  take_reply topic stream group (entry id payload) (q, server) =
      let (acked, server') = client.xack stream group id server in
      read_acked acked (decoded topic payload) (counted record_stream_read q, server')

  unfoldable pub read_new :
      String → String → String → Option ℕ → QueueState → Option Domain × QueueState
  read_new topic stream group block (q, server) =
      let (reply, server') = client.xreadgroup group q.consumer_name stream block server in
      take_reply topic stream group reply (q, server')

  -- the return of a recovered message, or the read
  unfoldable pub or_read :
      String → String → String → Option ℕ → Option Domain × QueueState → Option Domain × QueueState
  or_read topic stream group block (some obj, s) = (some obj, s)
  or_read topic stream group block (none, s) = read_new topic stream group block s

  unfoldable pub recover_if :
      Bool → String → String → String → QueueState → Option Domain × QueueState
  recover_if true topic stream group s = try_recover_pending topic stream group s
  recover_if false topic stream group s = (none, s)

  -- `get` from `_ensure_group` on
  unfoldable pub get_from :
      String → String → String → Option Micros → Micros → QueueState → Option Domain × QueueState
  get_from topic stream group timeout now s =
      let (q1, server1) = ensure_group stream group s in
      let (due, q2) = is_recovery_due topic now q1 in
      or_read topic stream group (block_ms timeout)
        (recover_if due topic stream group (q2, server1))

  -- `get` at the time `now`
  unfoldable pub get_message :
      String → Option Micros → Micros → QueueState → Option Domain × QueueState
  get_message topic timeout now (q, server) =
      get_from topic (stream_for_topic q.config topic) (consumer_group_for_topic q.config topic)
        timeout now (q, server)

  unfoldable pub qsize : String → QueueState → ℕ × QueueState
  qsize topic (q, server) =
      let (size, server') = client.xlen (stream_for_topic q.config topic) server in
      (value_or_zero size, (q, server'))

-- a call of the queue
pub data Call : Type 0 where
  publishes : String → Domain → Call
  gets : String → Option Micros → Micros → Call
  asks_size : String → Call

module _ (codec : Codec) (client : Client codec.Wire) where
  unfoldable pub perform : Call → QueueState codec client → QueueState codec client
  perform (publishes topic message) s = publish codec client topic message s
  perform (gets topic timeout now) s = (get_message codec client topic timeout now s).1
  perform (asks_size topic) s = (qsize codec client topic s).1

  unfoldable pub perform_all : List Call → QueueState codec client → QueueState codec client
  perform_all [] s = s
  perform_all (call ∷ calls) s = perform_all calls (perform call s)
