-- ===== src/Queue.antt =====
-- backend/app/infrastructure/message_queue/in_memory.py, and backend/app/ingestion/buffering/
-- bounded_buffer.py, whose `put` is the same loop. A `queue.Queue` is the list of its items.
pub mod Loop
pub mod Log
pub mod Topics
use boars_head_compliance_de.Prelude.{
  ℕ, zero, suc, ◌+◌, String, Bool, true, false, ◌&&◌, Option, none, some, List, [], ◌∷◌, ◌++◌,
  length, drop, ltb, leb, if◌then◌else◌,
}
use boars_head_compliance_de.Prelude.Dict.{Dict, string_eq, get, put}

-- a `queue.Queue(maxsize)` with the counter of the items that its producer evicted
pub record Buffer {ℓ} (A : Type ℓ) : Type ℓ where
  pub items : List A
  pub dropped : ℕ

-- a thread that takes nothing
abbrev pub undisturbed : ℕ → ℕ
undisturbed t = 0

-- InMemoryMessageQueue
pub record MessageQueue {ℓ} (A : Type ℓ) : Type ℓ where
  pub queues : Dict String (List A)
  pub dropped : Dict String ℕ

module _ {ℓ} {A : Type ℓ} where
  -- `none` is queue.Empty
  unfoldable pub get_nowait : List A → Option (A × List A)
  get_nowait [] = none
  get_nowait (x ∷ xs) = some (x, xs)

  unfoldable pub new : MessageQueue A
  new = record { queues = []; dropped = [] }

  -- a topic that is not there is created empty
  abbrev pub topic_buffer : String → MessageQueue A → Buffer A
  topic_buffer topic q = record {
    items = elim (get topic q.queues) [ none ↦ [] | some items ↦ items ];
    dropped = elim (get topic q.dropped) [ none ↦ 0 | some n ↦ n ];
  }

  abbrev pub put_buffer : String → Buffer A → MessageQueue A → MessageQueue A
  put_buffer topic b q = record {
    queues = put topic b.items q.queues;
    dropped = put topic b.dropped q.dropped;
  }

  abbrev pub put_items : String → List A → MessageQueue A → MessageQueue A
  put_items topic items q = record q { queues = put topic items q.queues }

  unfoldable pub get_or_create : String → MessageQueue A → MessageQueue A
  get_or_create topic q = elim (get topic q.queues) [
    | none ↦ record { queues = put topic [] q.queues; dropped = put topic 0 q.dropped }
    | some items ↦ q
  ]

  -- `get` with a timeout: `none` is queue.Empty
  unfoldable pub get_message : String → MessageQueue A → Option A × MessageQueue A
  get_message topic q =
      let q' = get_or_create topic q in
      elim (get_nowait (topic_buffer topic q').items) [
        | none ↦ (none, q')
        | some (x, rest) ↦ (some x, put_items topic rest q')
      ]

  unfoldable pub qsize : String → MessageQueue A → ℕ × MessageQueue A
  unfolding get_or_create
  qsize topic q = let q' = get_or_create topic q in (length (topic_buffer topic q').items, q')

  unfoldable pub dropped_count : String → MessageQueue A → ℕ
  dropped_count topic q = elim (get topic q.dropped) [ none ↦ 0 | some n ↦ n ]

module _ {ℓ} {A : Type ℓ} (max_size : ℕ) where
  -- maxsize <= 0 is no bound
  unfoldable pub is_full : List A → Bool
  is_full items = ltb 0 max_size && leb max_size (length items)

  -- `none` is queue.Full
  unfoldable pub put_nowait : A → List A → Option (List A)
  unfolding is_full
  put_nowait item items = if is_full items then none else some (items ++ item ∷ [])

  -- The `while True` of `put`. Before its step number t another thread takes `takes t` items. The
  -- first argument bounds the rounds, and `none` is that they are used up.
  unfoldable pub put_loop : ℕ → (ℕ → ℕ) → ℕ → A → Buffer A → Option (Buffer A)
  unfolding put_nowait get_nowait
  put_loop zero takes t item b = none
  put_loop (suc rounds) takes t item b =
      let before = drop (takes t) b.items in
      elim (put_nowait item before) [
        | some items ↦ some (record b { items = items })
        | none ↦ elim (get_nowait (drop (takes (t + 1)) before)) [
          | none ↦ put_loop rounds takes (t + 2) item (record b { items = [] })
          | some (x, rest) ↦
              put_loop rounds takes (t + 2) item (record { items = rest; dropped = b.dropped + 1 })
        ]
      ]

  -- `put`, with the two rounds that always suffice
  unfoldable pub offer : A → Buffer A → Option (Buffer A)
  unfolding put_loop
  offer item b = put_loop 2 undisturbed 0 item b

  unfoldable pub publish : String → A → MessageQueue A → Option (MessageQueue A)
  publish topic message q =
      let q' = get_or_create topic q in
      elim (offer message (topic_buffer topic q')) [
        | none ↦ none
        | some b ↦ some (put_buffer topic b q')
      ]
