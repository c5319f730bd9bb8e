-- ===== src/Redis/Counters.antt =====
-- backend/app/infrastructure/redis/metrics.py: how the counters of the queue hang together.
use boars_head_compliance_de.Prelude.{
  ℕ, suc, ◌+◌, ◌≤◌, String, ◌≡◌, refl, Bool, true, false, Option, none, some, List, [], ◌∷◌, arith,
  subst, sym, ◌∙◌, if◌then◌else◌,
}
use boars_head_compliance_de.Float.{Micros}
use boars_head_compliance_de.Serialization.{Codec}
use boars_head_compliance_de.Serialization.Messages.{Domain}
use boars_head_compliance_de.Redis.{
  RedisStreamMessageQueue, new_queue, QueueState, ensure_group, is_recovery_due, take_claimed,
  claim_pending, try_recover_pending, publish, take_reply, read_new, or_read, recover_if, get_from,
  get_message, qsize, Call, publishes, gets, asks_size, perform, perform_all, claim_acked,
  claim_answered, read_acked, counted, failure_counted, publish_counted, add_payload,
}
use boars_head_compliance_de.Streams.{
  Reply, timed_out, failed, no_entry, entry, Client, RedisConfig, RedisMetrics, record_stream_read,
  record_ack, record_pending_recovered,
}

unfoldable pub published_in : List Call → ℕ
published_in [] = 0
published_in (publishes topic message ∷ calls) = suc (published_in calls)
published_in (gets topic timeout now ∷ calls) = published_in calls
published_in (asks_size topic ∷ calls) = published_in calls

unfoldable pub gets_in : List Call → ℕ
gets_in [] = 0
gets_in (publishes topic message ∷ calls) = gets_in calls
gets_in (gets topic timeout now ∷ calls) = suc (gets_in calls)
gets_in (asks_size topic ∷ calls) = gets_in calls

-- The counters after `p` calls of `publish`, with at most `r` answers to a read and `g` recoveries.
pub record Bounds (p r g : ℕ) (m : RedisMetrics) : Type 0 where
  pub publishes_counted : m.publish_total + m.publish_failure_total ≡ p
  pub reads_bounded : m.stream_read_total + m.connection_failures ≤ r
  pub recovered_bounded : m.stream_pending_recovered ≤ g
  pub acks_bounded : m.stream_ack_total ≤ m.stream_read_total + m.stream_pending_recovered
  pub recovered_acked : m.stream_pending_recovered ≤ m.stream_ack_total
  pub failures_bounded :
      m.stream_processing_failure_total ≤ m.stream_read_total + m.stream_pending_recovered

-- larger bounds
weaken : (p r g r' g' : ℕ) (m : RedisMetrics) → r ≤ r' → g ≤ g' → Bounds p r g m → Bounds p r' g' m
weaken p r g r' g' m hr hg h = record {
  publishes_counted = h.publishes_counted;
  reads_bounded = omega (arith, h.reads_bounded);
  recovered_bounded = omega (arith, h.recovered_bounded);
  acks_bounded = h.acks_bounded;
  recovered_acked = h.recovered_acked;
  failures_bounded = h.failures_bounded;
}

module _ (codec : Codec) (client : Client codec.Wire) where
  open client use {Server, MessageId}

  failure_counted-Bounds :
      (p r g : ℕ) (obj : Option Domain) (q : RedisStreamMessageQueue)
      → Bounds p r g q.metrics
      → suc q.metrics.stream_processing_failure_total
        ≤ q.metrics.stream_read_total + q.metrics.stream_pending_recovered
      → Bounds p r g (failure_counted codec client obj q).metrics
  failure_counted-Bounds p r g (some obj) q h room = h
  failure_counted-Bounds p r g none q h room = record {
    publishes_counted = h.publishes_counted;
    reads_bounded = h.reads_bounded;
    recovered_bounded = h.recovered_bounded;
    acks_bounded = h.acks_bounded;
    recovered_acked = h.recovered_acked;
    failures_bounded = omega (arith, room);
  }

  claim_acked-Bounds :
      (p r g : ℕ) (b : Bool) (obj : Option Domain) (s : QueueState codec client)
      → Bounds p r g s.0.metrics
      → Bounds p r (suc g) (claim_acked codec client b obj s).1.0.metrics
  unfolding claim_acked
  claim_acked-Bounds p r g false obj s h = weaken p r g r (suc g) _ (omega arith) (omega arith) h
  claim_acked-Bounds p r g true obj (q, server) h =
      failure_counted-Bounds p r (suc g) obj
        (counted codec client record_pending_recovered (counted codec client record_ack q))
        (record {
          publishes_counted = h.publishes_counted;
          reads_bounded = h.reads_bounded;
          recovered_bounded = omega (arith, h.recovered_bounded);
          acks_bounded = omega (arith, h.acks_bounded);
          recovered_acked = omega (arith, h.recovered_acked);
          failures_bounded = omega (arith, h.failures_bounded);
        })
        (omega (arith, h.failures_bounded))

  claim_answered-Bounds :
      (p r g : ℕ) (topic stream group : String) (id : MessageId)
      (claimed : Option (Option (Option codec.Wire))) (s : QueueState codec client)
      → Bounds p r g s.0.metrics
      → Bounds p r (suc g) (claim_answered codec client topic stream group id claimed s).1.0.metrics
  unfolding claim_answered take_claimed
  claim_answered-Bounds p r g topic stream group id none s h =
      weaken p r g r (suc g) _ (omega arith) (omega arith) h
  claim_answered-Bounds p r g topic stream group id (some none) s h =
      weaken p r g r (suc g) _ (omega arith) (omega arith) h
  claim_answered-Bounds p r g topic stream group id (some (some payload)) (q, server) h =
      claim_acked-Bounds p r g _ _ (q, _) h

  if-Bounds :
      (p r g : ℕ) (b : Bool) (x y : Option Domain × QueueState codec client)
      → Bounds p r g x.1.0.metrics
      → Bounds p r g y.1.0.metrics
      → Bounds p r g (if b then x else y).1.0.metrics
  if-Bounds p r g true x y hx hy = hx
  if-Bounds p r g false x y hx hy = hy

  claim_pending-Bounds :
      (p r g : ℕ) (topic stream group : String) (pending : Option (Option (MessageId × ℕ)))
      (s : QueueState codec client)
      → Bounds p r g s.0.metrics
      → Bounds p r (suc g) (claim_pending codec client topic stream group pending s).1.0.metrics
  unfolding claim_pending
  claim_pending-Bounds p r g topic stream group none s h =
      weaken p r g r (suc g) _ (omega arith) (omega arith) h
  claim_pending-Bounds p r g topic stream group (some none) s h =
      weaken p r g r (suc g) _ (omega arith) (omega arith) h
  claim_pending-Bounds p r g topic stream group (some (some (id, idle))) (q, server) h =
      if-Bounds p r (suc g) _ _ _ (weaken p r g r (suc g) _ (omega arith) (omega arith) h)
        (claim_answered-Bounds p r g topic stream group id _ (q, _) h)

  recover_if-Bounds :
      (p r g : ℕ) (due : Bool) (topic stream group : String) (s : QueueState codec client)
      → Bounds p r g s.0.metrics
      → Bounds p r (suc g) (recover_if codec client due topic stream group s).1.0.metrics
  unfolding recover_if try_recover_pending
  recover_if-Bounds p r g false topic stream group s h =
      weaken p r g r (suc g) _ (omega arith) (omega arith) h
  recover_if-Bounds p r g true topic stream group (q, server) h =
      claim_pending-Bounds p r g topic stream group _ (q, _) h

  read_acked-Bounds :
      (p r g : ℕ) (b : Bool) (obj : Option Domain) (q : RedisStreamMessageQueue) (server : Server)
      → Bounds p r g q.metrics
      → Bounds p
          (suc r)
          g
          (read_acked codec client b obj
            (counted codec client record_stream_read q, server)).1.0.metrics
  unfolding read_acked
  read_acked-Bounds p r g true obj q server h =
      failure_counted-Bounds p (suc r) g obj
        (counted codec client record_ack (counted codec client record_stream_read q))
        (record {
          publishes_counted = h.publishes_counted;
          reads_bounded = omega (arith, h.reads_bounded);
          recovered_bounded = h.recovered_bounded;
          acks_bounded = omega (arith, h.acks_bounded);
          recovered_acked = omega (arith, h.recovered_acked);
          failures_bounded = omega (arith, h.failures_bounded);
        })
        (omega (arith, h.failures_bounded))
  read_acked-Bounds p r g false obj q server h =
      failure_counted-Bounds p (suc r) g obj (counted codec client record_stream_read q)
        (record {
          publishes_counted = h.publishes_counted;
          reads_bounded = omega (arith, h.reads_bounded);
          recovered_bounded = h.recovered_bounded;
          acks_bounded = omega (arith, h.acks_bounded);
          recovered_acked = h.recovered_acked;
          failures_bounded = omega (arith, h.failures_bounded);
        })
        (omega (arith, h.failures_bounded))

  take_reply-Bounds :
      (p r g : ℕ) (topic stream group : String) (reply : Reply MessageId codec.Wire)
      (s : QueueState codec client)
      → Bounds p r g s.0.metrics
      → Bounds p (suc r) g (take_reply codec client topic stream group reply s).1.0.metrics
  unfolding take_reply
  take_reply-Bounds p r g topic stream group timed_out s h =
      weaken p r g (suc r) g _ (omega arith) (omega arith) h
  take_reply-Bounds p r g topic stream group no_entry s h =
      weaken p r g (suc r) g _ (omega arith) (omega arith) h
  take_reply-Bounds p r g topic stream group failed (q, server) h = record {
    publishes_counted = h.publishes_counted;
    reads_bounded = omega (arith, h.reads_bounded);
    recovered_bounded = h.recovered_bounded;
    acks_bounded = h.acks_bounded;
    recovered_acked = h.recovered_acked;
    failures_bounded = h.failures_bounded;
  }
  take_reply-Bounds p r g topic stream group (entry id payload) (q, server) h =
      read_acked-Bounds p r g _ _ q _ h

  or_read-Bounds :
      (p r g : ℕ) (topic stream group : String) (block : Option ℕ) (o : Option Domain)
      (s : QueueState codec client)
      → Bounds p r g s.0.metrics
      → Bounds p (suc r) g (or_read codec client topic stream group block (o, s)).1.0.metrics
  unfolding or_read read_new
  or_read-Bounds p r g topic stream group block (some obj) s h =
      weaken p r g (suc r) g _ (omega arith) (omega arith) h
  or_read-Bounds p r g topic stream group block none (q, server) h =
      take_reply-Bounds p r g topic stream group _ (q, _) h

  ensure_group-metrics :
      (stream group : String) (s : QueueState codec client)
      → (ensure_group codec client stream group s).0.metrics ≡ s.0.metrics
  unfolding ensure_group
  ensure_group-metrics stream group (q, server) = ground arith

  is_recovery_due-metrics :
      (topic : String) (now : Micros) (q : RedisStreamMessageQueue)
      → (is_recovery_due topic now q).1.metrics ≡ q.metrics
  unfolding is_recovery_due
  is_recovery_due-metrics topic now q = ground arith

  get_message-Bounds :
      (p r g : ℕ) (topic : String) (timeout : Option Micros) (now : Micros)
      (s : QueueState codec client)
      → Bounds p r g s.0.metrics
      → Bounds p (suc r) (suc g) (get_message codec client topic timeout now s).1.0.metrics
  unfolding get_message get_from
  get_message-Bounds p r g topic timeout now (q, server) h =
      or_read-Bounds p r (suc g) topic _ _ _ _ _ (
        recover_if-Bounds p r g _ topic _ _ _ (
          subst (Bounds p r g)
            (sym (is_recovery_due-metrics topic now _ ∙ ensure_group-metrics _ _ (q, server))) h))

  publish_counted-Bounds :
      (p r g : ℕ) (b : Bool) (q : RedisStreamMessageQueue)
      → Bounds p r g q.metrics
      → Bounds (suc p) r g (publish_counted codec client b q).metrics
  publish_counted-Bounds p r g true q h = record {
    publishes_counted = omega (arith, h.publishes_counted);
    reads_bounded = h.reads_bounded;
    recovered_bounded = h.recovered_bounded;
    acks_bounded = h.acks_bounded;
    recovered_acked = h.recovered_acked;
    failures_bounded = h.failures_bounded;
  }
  publish_counted-Bounds p r g false q h = record {
    publishes_counted = omega (arith, h.publishes_counted);
    reads_bounded = h.reads_bounded;
    recovered_bounded = h.recovered_bounded;
    acks_bounded = h.acks_bounded;
    recovered_acked = h.recovered_acked;
    failures_bounded = h.failures_bounded;
  }

  add_payload-Bounds :
      (p r g : ℕ) (stream : String) (payload : Option codec.Wire) (s : QueueState codec client)
      → Bounds p r g s.0.metrics
      → Bounds (suc p) r g (add_payload codec client stream payload s).0.metrics
  unfolding add_payload
  add_payload-Bounds p r g stream none (q, server) h = publish_counted-Bounds p r g false q h
  add_payload-Bounds p r g stream (some payload) (q, server) h = publish_counted-Bounds p r g _ q h

  perform_all-Bounds :
      (p r g p' n : ℕ) (calls : List Call) (s : QueueState codec client)
      → Bounds p r g s.0.metrics
      → p' ≡ published_in calls + p
      → n ≡ gets_in calls
      → Bounds p' (n + r) (n + g) (perform_all codec client calls s).0.metrics
  unfolding perform_all perform publish qsize published_in gets_in
  perform_all-Bounds p r g p' n [] s h ep en =
      subst (λ k. Bounds k (n + r) (n + g) s.0.metrics) {x = p} (omega (arith, ep))
        (weaken p r g (n + r) (n + g) s.0.metrics (omega arith) (omega arith) h)
  perform_all-Bounds p r g p' n (publishes topic message ∷ calls) (q, server) h ep en =
      perform_all-Bounds (suc p) r g p' n calls _ (add_payload-Bounds p r g _ _ (q, server) h)
        (omega (arith, ep)) en
  perform_all-Bounds p r g p' n (gets topic timeout now ∷ calls) s h ep en =
      let m = gets_in calls in
      let rest =
        perform_all-Bounds p (suc r) (suc g) p' m calls _
          (get_message-Bounds p r g topic timeout now s h) ep refl in
      weaken p' (m + suc r) (m + suc g) (n + r) (n + g) _ (omega (arith, en)) (omega (arith, en))
        rest
  perform_all-Bounds p r g p' n (asks_size topic ∷ calls) (q, server) h ep en =
      perform_all-Bounds p r g p' n calls (q, _) h ep en

  -- Whatever the Redis server answers, and whatever is called on a new queue: each publish is counted
  -- once, as published or as failed; the entries read and the failures of the connection are together
  -- no more than the calls of `get`, and neither are the recovered entries; each acknowledgement
  -- counted is of an entry read or recovered, and so is each processing failure; and the recovered
  -- entries are among the acknowledged ones.
  pub perform_all-counters :
      (consumer_name : String) (config : RedisConfig) (calls : List Call) (server : Server)
      → Bounds
          (published_in calls)
          (gets_in calls)
          (gets_in calls)
          (perform_all codec client calls (new_queue consumer_name config, server)).0.metrics
  perform_all-counters consumer_name config calls server =
      weaken _ (gets_in calls + 0) (gets_in calls + 0) _ _ _ (omega arith) (omega arith) (
        perform_all-Bounds 0 0 0 (published_in calls) (gets_in calls) calls
          (new_queue consumer_name config, server)
          (record {
            publishes_counted = refl;
            reads_bounded = omega arith;
            recovered_bounded = omega arith;
            acks_bounded = omega arith;
            recovered_acked = omega arith;
            failures_bounded = omega arith;
          })
          (omega arith) refl)
