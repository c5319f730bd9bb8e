-- ===== src/Streams.antt =====
-- backend/app/infrastructure/redis/config.py and metrics.py, and the client of Redis streams: what the
-- queue of message_queue.py is built on.
use boars_head_compliance_de.Prelude.{ℕ, ◌+◌, String, Bool, Option}
use boars_head_compliance_de.Prelude.Dict.{string_eq}
use boars_head_compliance_de.Float.{Micros}

-- an answer to XREADGROUP: a TimeoutError, another exception, an empty result, or one entry with its
-- field `data`, if it has one
pub data Reply (MessageId : Type 0) (Wire : Type 0) : Type 0 where
  timed_out : Reply MessageId Wire
  failed : Reply MessageId Wire
  no_entry : Reply MessageId Wire
  entry : MessageId → Option Wire → Reply MessageId Wire

-- the client's calls; `false` and the outer `none` are exceptions
pub record Client (Wire : Type 0) : Type 1 where
  pub Server : Type 0
  pub MessageId : Type 0
  -- stream, data, maxlen, approximate
  pub xadd : String → Wire → ℕ → Bool → Server → Bool × Server
  -- stream and group; the code goes on whatever the answer is
  pub xgroup_create : String → String → Server → Server
  -- group, consumer, stream, block
  pub xreadgroup : String → String → String → Option ℕ → Server → Reply MessageId Wire × Server
  pub xack : String → String → MessageId → Server → Bool × Server
  -- the first pending entry, with the milliseconds since it was delivered
  pub xpending_range : String → String → Server → Option (Option (MessageId × ℕ)) × Server
  -- stream, group, consumer, min_idle_time, the id; and the entry's field, if it was claimed
  pub xclaim :
      String → String → String → ℕ → MessageId → Server → Option (Option (Option Wire)) × Server
  pub xlen : String → Server → Option ℕ × Server

pub record RedisConfig : Type 0 where
  pub frame_ingested : String
  pub detection_created : String
  pub compliance_alert : String
  pub evidence_capture : String
  pub max_length : ℕ
  pub approximate_trim : Bool
  pub pending_idle_timeout_ms : ℕ
  pub recovery_interval : Micros

-- RedisMetrics, but for the counters of the frame store
pub record RedisMetrics : Type 0 where
  pub connection_failures : ℕ
  pub publish_total : ℕ
  pub publish_failure_total : ℕ
  pub stream_read_total : ℕ
  pub stream_ack_total : ℕ
  pub stream_processing_failure_total : ℕ
  pub stream_pending_recovered : ℕ

abbrev pub record_publish : RedisMetrics → RedisMetrics
record_publish m = record m { publish_total = m.publish_total + 1 }

abbrev pub record_publish_failure : RedisMetrics → RedisMetrics
record_publish_failure m = record m { publish_failure_total = m.publish_failure_total + 1 }

abbrev pub record_stream_read : RedisMetrics → RedisMetrics
record_stream_read m = record m { stream_read_total = m.stream_read_total + 1 }

abbrev pub record_ack : RedisMetrics → RedisMetrics
record_ack m = record m { stream_ack_total = m.stream_ack_total + 1 }

abbrev pub record_processing_failure : RedisMetrics → RedisMetrics
record_processing_failure m = record m {
  stream_processing_failure_total = m.stream_processing_failure_total + 1;
}

abbrev pub record_pending_recovered : RedisMetrics → RedisMetrics
record_pending_recovered m = record m { stream_pending_recovered = m.stream_pending_recovered + 1 }

abbrev pub record_connection_failure : RedisMetrics → RedisMetrics
record_connection_failure m = record m { connection_failures = m.connection_failures + 1 }
