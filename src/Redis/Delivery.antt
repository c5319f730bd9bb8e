-- ===== src/Redis/Delivery.antt =====
-- backend/app/infrastructure/redis/message_queue.py: what is published arrives, in order, from a server
-- that answers and that delivers as the documentation of Redis streams has it.
use boars_head_compliance_de.Prelude.{
  ℕ, suc, ◌+◌, ◌≤◌, ◌<◌, String, ◌≡◌, refl, sym, ap, ap₂, subst, ◌∙◌, Bool, true, false, Option,
  none, some, List, [], ◌∷◌, ◌++◌, map, length, length-append, arith, All, Bool-cases, inl, inr,
  if◌then◌else◌,
}
use mathlib.Core.List.{append-nil, append_assoc}
use boars_head_compliance_de.Float.{Micros}
use boars_head_compliance_de.Serialization.{Codec, IsInverse}
use boars_head_compliance_de.Serialization.Messages.{Domain, serialize, deserialize}
use boars_head_compliance_de.Serialization.RoundTrip.{on_the_wire, topic_of, deserialize-serialize}
use boars_head_compliance_de.Redis.{
  RedisStreamMessageQueue, QueueState, stream_for_topic, consumer_group_for_topic, ensure_group,
  is_recovery_due, decoded, claim_pending, try_recover_pending, publish, add_payload, take_reply,
  read_acked, read_new, or_read, recover_if, counted, is_initialised, get_from, get_message,
  block_ms,
}
use boars_head_compliance_de.Streams.{Client, RedisConfig, record_stream_read}
use boars_head_compliance_de.Redis.Laws.{Delivers}

module _ (codec : Codec) (client : Client codec.Wire) (topic : String) where
  -- the calls one after another, and the answers
  pub publish_all : List Domain → QueueState codec client → QueueState codec client
  publish_all [] s = s
  publish_all (message ∷ messages) s = publish_all messages (publish codec client topic message s)

  pub get_all : List (Option Micros × Micros) → QueueState codec client → List (Option Domain)
  get_all [] s = []
  get_all ((timeout, now) ∷ requests) s =
      let (answer, s') = get_message codec client topic timeout now s in
      answer ∷ get_all requests s'

module _ (codec : Codec) (client : Client codec.Wire) (laws : Delivers client) (topic : String)
    (config : RedisConfig) where
  open client use {Server, MessageId}

  abbrev stream : String
  stream = stream_for_topic config topic

  abbrev group : String
  group = consumer_group_for_topic config topic

  -- what a read by the group will come to: all entries, as long as the group is not there
  abbrev pub ahead : Server → List codec.Wire
  ahead server =
      if laws.created stream group server
      then laws.waiting stream group server
      else laws.entries stream server

  -- The answers to come, with nothing pending. A group that the queue has noted is there.
  pub record IsAt (s : QueueState codec client) (answers : List (Option Domain)) : Type 0 where
    pub configured : s.0.config ≡ config
    pub noted :
        is_initialised stream group s.0.groups_initialised ≡ true
        → laws.created stream group s.1 ≡ true
    pub waits : map (deserialize codec topic) (ahead s.1) ≡ answers
    pub acknowledged : laws.created stream group s.1 ≡ true → laws.pending stream group s.1 ≡ 0

  -- The same, where the group is there.
  pub record IsReady (s : QueueState codec client) (answers : List (Option Domain)) : Type 0 where
    pub configured : s.0.config ≡ config
    pub present : laws.created stream group s.1 ≡ true
    pub waits : map (deserialize codec topic) (laws.waiting stream group s.1) ≡ answers
    pub acknowledged : laws.pending stream group s.1 ≡ 0

  IsReady-of :
      (s : QueueState codec client) (answers : List (Option Domain))
      → laws.created stream group s.1 ≡ true
      → IsAt s answers
      → IsReady s answers
  IsReady-of s answers there h = record {
    configured = h.configured;
    present = there;
    waits = rw there at h.waits;
    acknowledged = h.acknowledged there;
  }

  IsAt-of :
      (s : QueueState codec client) (answers : List (Option Domain))
      → IsReady s answers
      → IsAt s answers
  IsAt-of s answers h = record {
    configured = h.configured;
    noted = λ known. h.present;
    waits = rw h.present h.waits;
    acknowledged = λ there. h.acknowledged;
  }

  create-IsReady :
      (q : RedisStreamMessageQueue) (server : Server) (answers : List (Option Domain))
      → IsAt (q, server) answers
      → IsReady
          (
            record q { groups_initialised = (stream, group) ∷ q.groups_initialised },
            client.xgroup_create stream group server,
          )
          answers
  create-IsReady q server answers h = elim (Bool-cases (laws.created stream group server)) [
    | inl there ↦
        (let same = laws.create_again stream group server there in
          record {
            configured = h.configured;
            present = rw same there;
            waits = rw same (rw there at h.waits);
            acknowledged = rw same (h.acknowledged there);
          })
    | inr missing ↦
        (let (present, waits, pending) = laws.create_new stream group server missing in
          record {
            configured = h.configured;
            present = present;
            waits = rw waits (rw missing at h.waits);
            acknowledged = pending;
          })
  ]

  ensure_group-IsReady :
      (s : QueueState codec client) (answers : List (Option Domain))
      → IsAt s answers
      → IsReady (ensure_group codec client stream group s) answers
  unfolding ensure_group
  ensure_group-IsReady (q, server) answers h =
      elim (Bool-cases (is_initialised stream group q.groups_initialised)) [
        | inl known ↦ rw known (IsReady-of (q, server) answers (h.noted known) h)
        | inr new ↦ rw new (create-IsReady q server answers h)
      ]

  map-append_one {ℓ κ} :
      {A : Type ℓ} {B : Type κ} (f : A → B) (xs : List A) (x : A)
      → map f (xs ++ x ∷ []) ≡ map f xs ++ f x ∷ []
  map-append_one f [] x = refl
  map-append_one f (y ∷ xs) x = ap (λ ys. f y ∷ ys) (map-append_one f xs x)

  map-cons {ℓ κ} :
      {A : Type ℓ} {B : Type κ} (f : A → B) (xs : List A) {y : B} {ys : List B}
      → map f xs ≡ y ∷ ys
      → (x : A) × (rest : List A) × (xs ≡ x ∷ rest) × (f x ≡ y) × (map f rest ≡ ys)
  map-cons f [] e = cc
  map-cons f (x ∷ xs) e = (x, xs, refl, cc, cc)

  length-map {ℓ κ} :
      {A : Type ℓ} {B : Type κ} (f : A → B) (xs : List A) → length (map f xs) ≡ length xs
  length-map f [] = refl
  length-map f (x ∷ xs) = ap suc (length-map f xs)

  length-ahead :
      (s : QueueState codec client) (answers : List (Option Domain))
      → IsAt s answers
      → length answers < config.max_length
      → length (ahead s.1) < s.0.config.max_length
  length-ahead s answers h room = omega (
    arith,
    room,
    ap (λ c. c.max_length) h.configured,
    ap length h.waits,
    length-map (deserialize codec topic) (ahead s.1),
  )

  -- XADD puts the entry behind what the group will come to
  xadd-ahead :
      (payload : codec.Wire) (maxlen : ℕ) (approximate : Bool) (server : Server)
      → length (ahead server) < maxlen
      → (server' : Server) × (client.xadd stream payload maxlen approximate server
          ≡ (true, server'))
        × (laws.created stream group server' ≡ laws.created stream group server)
        × (laws.pending stream group server' ≡ laws.pending stream group server)
        × (ahead server' ≡ ahead server ++ payload ∷ [])
  xadd-ahead payload maxlen approximate server room =
      let (server', added, held, groups) = laws.add stream payload maxlen approximate server in
      let (same, pending, waits) = groups group in
      (
        server',
        added,
        same,
        pending,
        elim (Bool-cases (laws.created stream group server)) [
          | inl there ↦ rw (same, there) (waits there (rw there at room))
          | inr missing ↦ rw (same, missing) (held (rw missing at room))
        ],
      )

  add_payload-IsAt :
      (payload : codec.Wire) (q : RedisStreamMessageQueue) (server : Server)
      (answers : List (Option Domain))
      → IsAt (q, server) answers
      → length answers < config.max_length
      → IsAt
          (add_payload codec client stream (some payload) (q, server))
          (answers ++ deserialize codec topic payload ∷ [])
  unfolding add_payload
  add_payload-IsAt payload q server answers h room =
      let (server', added, same, pending, waits) =
        xadd-ahead payload q.config.max_length q.config.approximate_trim server
          (length-ahead (q, server) answers h room) in
      rw added (record {
        configured = h.configured;
        noted = λ known. same ∙ h.noted known;
        waits =
            ap (map (deserialize codec topic)) waits
            ∙ map-append_one _ _ payload
            ∙ ap (λ xs. xs ++ deserialize codec topic payload ∷ []) h.waits;
        acknowledged = λ there. pending ∙ h.acknowledged (sym same ∙ there);
      })

  publish_all-IsAt :
      IsInverse codec
      → (messages : List Domain) (answers : List (Option Domain)) (s : QueueState codec client)
      → All (λ m. topic_of m ≡ topic) messages
      → IsAt s answers
      → length answers + length messages ≤ config.max_length
      → IsAt
          (publish_all codec client topic messages s)
          (answers ++ map (λ m. some (on_the_wire m)) messages)
  unfolding publish_all publish
  publish_all-IsAt inverse [] answers s hs h room = subst (IsAt s) (sym (append-nil answers)) h
  publish_all-IsAt inverse (message ∷ messages) answers (q, server) (e, hs) h room =
      let (payload, sent, back) = deserialize-serialize codec inverse message in
      let sent' = subst (λ t. serialize codec t message ≡ some payload) e sent in
      let back' = subst (λ t. deserialize codec t payload ≡ some (on_the_wire message)) e back in
      let step : publish codec client topic message (q, server)
          ≡ add_payload codec client stream (some payload) (q, server) =
        ap₂ (λ c p. add_payload codec client (stream_for_topic c topic) p (q, server)) h.configured
          sent' in
      let added : IsAt (publish codec client topic message (q, server))
          (answers ++ some (on_the_wire message) ∷ []) =
        subst (λ s. IsAt s (answers ++ some (on_the_wire message) ∷ [])) (sym step)
          (subst
            (λ a.
              IsAt (add_payload codec client stream (some payload) (q, server)) (answers ++ a ∷ []))
            back' (add_payload-IsAt payload q server answers h (omega arith))) in
      subst (IsAt _) (append_assoc answers _ _) (
        publish_all-IsAt inverse messages (answers ++ some (on_the_wire message) ∷ []) _ hs added
          (omega (arith, length-append answers (some (on_the_wire message) ∷ []))))

  is_recovery_due-IsReady :
      (now : Micros) (q : RedisStreamMessageQueue) (server : Server)
      (answers : List (Option Domain))
      → IsReady (q, server) answers
      → IsReady ((is_recovery_due topic now q).1, server) answers
  unfolding is_recovery_due
  is_recovery_due-IsReady now q server answers h = record {
    configured = ground (arith, h.configured);
    present = h.present;
    waits = h.waits;
    acknowledged = h.acknowledged;
  }

  recover_if-none :
      (due : Bool) (q : RedisStreamMessageQueue) (server : Server) (answers : List (Option Domain))
      → IsReady (q, server) answers
      → recover_if codec client due topic stream group (q, server) ≡ (none, (q, server))
  unfolding recover_if try_recover_pending claim_pending
  recover_if-none false q server answers h = refl
  recover_if-none true q server answers h =
      rw (laws.none_pending stream group server h.present h.acknowledged) refl

  -- what is left after an entry was read and acknowledged
  read_acked-IsReady :
      (obj : Option Domain) (q : RedisStreamMessageQueue) (server : Server)
      (answers : List (Option Domain))
      → IsReady (q, server) answers
      → ((read_acked codec client true obj (q, server)).0 ≡ obj)
        × IsReady (read_acked codec client true obj (q, server)).1 answers
  unfolding read_acked
  read_acked-IsReady none q server answers h = (
    refl,
    record {
      configured = h.configured;
      present = h.present;
      waits = h.waits;
      acknowledged = h.acknowledged;
    },
  )
  read_acked-IsReady (some obj) q server answers h = (
    refl,
    record {
      configured = h.configured;
      present = h.present;
      waits = h.waits;
      acknowledged = h.acknowledged;
    },
  )

  -- the rest of `get` where nothing is pending
  read_new-IsReady :
      (block : Option ℕ) (q : RedisStreamMessageQueue) (server : Server) (answer : Option Domain)
      (answers : List (Option Domain))
      → IsReady (q, server) (answer ∷ answers)
      → ((read_new codec client topic stream group block (q, server)).0 ≡ answer)
        × IsReady (read_new codec client topic stream group block (q, server)).1 answers
  unfolding read_new take_reply decoded
  read_new-IsReady block q server answer answers h =
      let (payload, rest, waits, same, later) =
        map-cons (deserialize codec topic) (laws.waiting stream group server) h.waits in
      let (id, server', server'', read, acked, present, waits', pending) =
        laws.read stream group q.consumer_name block server payload rest h.present waits in
      let step : read_new codec client topic stream group block (q, server)
          ≡ read_acked codec client true (deserialize codec topic payload)
              (counted codec client record_stream_read q, server'') =
        ap (λ p. take_reply codec client topic stream group p.0 (q, p.1)) read
        ∙ ap
            (λ p.
              read_acked codec client p.0 (deserialize codec topic payload)
                (counted codec client record_stream_read q, p.1))
            acked in
      let (returned, left) =
        read_acked-IsReady (deserialize codec topic payload)
          (counted codec client record_stream_read q) server'' answers
          (record {
            configured = h.configured;
            present = present;
            waits = ap (map (deserialize codec topic)) waits' ∙ later;
            acknowledged = pending ∙ h.acknowledged;
          }) in
      (ap (λ p. p.0) step ∙ returned ∙ same, subst (λ p. IsReady p.1 answers) (sym step) left)

  get_from-IsAt :
      (timeout : Option Micros) (now : Micros) (s : QueueState codec client)
      (answer : Option Domain) (answers : List (Option Domain))
      → IsAt s (answer ∷ answers)
      → ((get_from codec client topic stream group timeout now s).0 ≡ answer)
        × IsReady (get_from codec client topic stream group timeout now s).1 answers
  unfolding get_from or_read
  get_from-IsAt timeout now s answer answers h =
      let ensured = ensure_group codec client stream group s in
      let due = is_recovery_due topic now ensured.0 in
      let at : IsReady (due.1, ensured.1) (answer ∷ answers) =
        is_recovery_due-IsReady now ensured.0 ensured.1 _ (ensure_group-IsReady s _ h) in
      subst
        (λ r.
          ((or_read codec client topic stream group (block_ms timeout) r).0 ≡ answer)
          × IsReady (or_read codec client topic stream group (block_ms timeout) r).1 answers)
        (sym (recover_if-none due.0 due.1 ensured.1 _ at))
        (read_new-IsReady (block_ms timeout) due.1 ensured.1 answer answers at)

  get_all-IsAt :
      (requests : List (Option Micros × Micros)) (answers : List (Option Domain))
      (s : QueueState codec client)
      → IsAt s answers
      → length requests ≡ length answers
      → get_all codec client topic requests s ≡ answers
  unfolding get_all get_message
  get_all-IsAt [] [] s h e = refl
  get_all-IsAt [] (answer ∷ answers) s h e = absurd (omega arith)
  get_all-IsAt (request ∷ requests) [] s h e = absurd (omega arith)
  get_all-IsAt ((timeout, now) ∷ requests) (answer ∷ answers) (q, server) h e =
      let step : get_message codec client topic timeout now (q, server)
          ≡ get_from codec client topic stream group timeout now (q, server) =
        ap
          (λ c.
            get_from codec client topic (stream_for_topic c topic)
              (consumer_group_for_topic c topic) timeout now (q, server))
          h.configured in
      let (returned, left) = get_from-IsAt timeout now (q, server) answer answers h in
      ap₂ ◌∷◌ (ap (λ p. p.0) step ∙ returned) (
        ap (λ p. get_all codec client topic requests p.1) step
        ∙ get_all-IsAt requests answers _ (IsAt-of _ answers left) (omega arith))

  -- With a server that delivers, a codec whose readers undo its writers, nothing pending for the group
  -- of the topic, and nothing ahead of it, where the group need not be there unless the queue has
  -- noted it: as many messages of the topic as the stream may hold at least are published, and as many
  -- calls of `get` return them, in their order, each as it is after the wire, whatever the timeouts
  -- and the clock's readings are.
  pub get_all-publish_all :
      IsInverse codec
      → (messages : List Domain) (requests : List (Option Micros × Micros))
        (q : RedisStreamMessageQueue) (server : Server)
      → All (λ m. topic_of m ≡ topic) messages
      → q.config ≡ config
      → (is_initialised stream group q.groups_initialised ≡ true
          → laws.created stream group server ≡ true)
      → ahead server ≡ []
      → (laws.created stream group server ≡ true → laws.pending stream group server ≡ 0)
      → length messages ≤ config.max_length
      → length requests ≡ length messages
      → get_all codec client topic requests (publish_all codec client topic messages (q, server))
        ≡ map (λ m. some (on_the_wire m)) messages
  get_all-publish_all inverse messages requests q server same configured noted waits pending room
        e =
      get_all-IsAt requests _ _
        (publish_all-IsAt inverse messages [] (q, server) same
          (record {
            configured = configured;
            noted = noted;
            waits = ap (map (deserialize codec topic)) waits;
            acknowledged = pending;
          })
          (omega (arith, room)))
        (omega (arith, e, length-map (λ m. some (on_the_wire m)) messages))
