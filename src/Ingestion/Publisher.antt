-- ===== src/Ingestion/Publisher.antt =====
-- backend/app/ingestion/publishing/message_queue_publisher.py: an event becomes an entry of the
-- frame store and an envelope in the message queue.
use boars_head_compliance_de.Prelude.{
  ℕ, String, ◌≡◌, ap, sym, subst, Bool, true, false, Option, none, some, if◌then◌else◌, ◌==◌,
}
use boars_head_compliance_de.Float.{Micros}
use boars_head_compliance_de.Serialization.{FrameEnvelope}
use boars_head_compliance_de.FrameStore.{FrameStore, put_frame, take_frame}
use boars_head_compliance_de.FrameStore.Contents.{IsDistinct, visible, take_frame-put_frame}
use boars_head_compliance_de.Queue.{MessageQueue, publish}
use boars_head_compliance_de.Queue.Topics.{Refines, update, publish-Refines}
use boars_head_compliance_de.Queue.Log.{Log, append}
use boars_head_compliance_de.Ingestion.{Image, FrameEvent}

abbrev pub frames_topic : String
frames_topic = "ingestion.frames"

-- the envelope of an event, which has no pixels
unfoldable pub envelope_of : String → FrameEvent → FrameEnvelope
envelope_of topic event = record {
  camera_id = event.camera_id;
  frame_id = event.frame_id;
  captured_at = event.captured_at;
  received_at = event.received_at;
  topic = topic;
  correlation_id = event.correlation_id;
  session_id = event.session_id;
  source_fps = event.source_fps;
}

-- The two operations of a back end that the publisher calls, the interfaces FrameStore and
-- MessageQueue. They return whether they raise.
pub record Backend : Type 1 where
  pub Store : Type 0
  pub Queue : Type 0
  pub put : ℕ → Image → Store → Bool × Store
  pub publish : String → FrameEnvelope → Queue → Bool × Queue

module _ (b : Backend) where
  open b use {Store, Queue}

  -- an exception of either call is logged, and ends the method
  unfoldable pub publish_event : String → FrameEvent → Store → Queue → Store × Queue
  publish_event topic event store queue =
      let (put_raised, store') = b.put event.frame_id event.frame store in
      let sent = (b.publish topic (envelope_of topic event) queue).1 in
      if put_raised then (store', queue) else (store', sent)

abbrev attempt :
    MessageQueue FrameEnvelope
    → Option (MessageQueue FrameEnvelope)
    → Bool × MessageQueue FrameEnvelope
attempt queue none = (true, queue)
attempt queue (some queue') = (false, queue')

-- The in-memory back end, which raises nothing. The clock is read twice, and `publish` always ends.
abbrev pub in_memory : (max_size : ℕ) → (now later : Micros) → Backend
in_memory max_size now later = record {
  Store = FrameStore Image;
  Queue = MessageQueue FrameEnvelope;
  put = λ frame_id image store. (false, put_frame now later frame_id image store);
  publish = λ topic envelope queue. attempt queue (publish max_size topic envelope queue);
}

-- Publishing an event over the in-memory store and queue appends its envelope to the topic, and to
-- no other, and stores its image: the consumer who fetches the frame that the envelope names gets
-- that image once, and gets for every other id the frame that was there and not expired.
pub publish_event-fetch :
    (max_size : ℕ) (now later : Micros) (topic : String) (event : FrameEvent) (j : ℕ)
    (store : FrameStore Image) (queue : MessageQueue FrameEnvelope)
    (logs : String → Log FrameEnvelope)
    → IsDistinct store.store
    → Refines max_size queue logs
    → let envelope = envelope_of topic event in
      let (store', queue') = publish_event (in_memory max_size now later) topic event store queue in
      Refines max_size queue' (update max_size topic (append max_size envelope (logs topic)) logs)
      × ((take_frame j store').0
          ≡ (if envelope.frame_id == j then some event.frame else visible now j store))
      × ((take_frame j (take_frame j store').1).0 ≡ none)
unfolding publish_event envelope_of
publish_event-fetch max_size now later topic event j store queue logs d h =
    let envelope = envelope_of topic event in
    let (queue', e, h') = publish-Refines max_size topic envelope queue logs h in
    let (found, gone) = take_frame-put_frame now later event.frame_id j event.frame store d in
    let sent = ap (λ o. (attempt queue o).1) (sym e) in
    (
      subst
          (λ q.
            Refines max_size q (update max_size topic (append max_size envelope (logs topic)) logs))
          sent h',
      found,
      gone,
    )
