-- ===== src/Queue/Topics.antt =====
-- The message queue refines a family of logs, one for each topic.
use boars_head_compliance_de.Prelude.{
  ℕ, String, ◌≡◌, refl, ap, sym, subst, inl, inr, Option, none, some, List, [], ◌∷◌, arith,
  if◌then◌else◌, Bool-cases,
}
use text.Mathlib.Text.{◌==◌ as str_eq}
use text.Mathlib.TextEquality.{eq_iff}
use boars_head_compliance_de.Prelude.Dict.{string_eq, get, get-put}
use boars_head_compliance_de.Queue.{
  Buffer, MessageQueue, topic_buffer, put_buffer, put_items, get_or_create, publish, get_nowait,
  get_message, new,
}
use boars_head_compliance_de.Queue.Log.{
  Log, append, next, Represents, offer-Represents, next-Represents,
}

-- the calls of producers and consumers
pub data Call {ℓ} (A : Type ℓ) : Type ℓ where
  publishing : String → A → Call A
  getting : String → Call A

module _ {ℓ} {A : Type ℓ} (max_size : ℕ) where
  -- the results of the calls of `get`, and the queue at the end
  pub run : List (Call A) → MessageQueue A → Option (List (Option A) × MessageQueue A)
  run [] q = some ([], q)
  run (publishing topic m ∷ calls) q = elim (publish max_size topic m q) [
    | none ↦ none
    | some q' ↦ run calls q'
  ]
  run (getting topic ∷ calls) q = elim (run calls (get_message topic q).1) [
    | none ↦ none
    | some (results, q') ↦ some ((get_message topic q).0 ∷ results, q')
  ]

  abbrev pub update : String → Log A → (String → Log A) → String → Log A
  update topic l logs other = if str_eq topic other then l else logs other

  -- the same calls on the logs
  pub replay : List (Call A) → (String → Log A) → List (Option A) × (String → Log A)
  replay [] logs = ([], logs)
  replay (publishing topic m ∷ calls) logs =
      replay calls (update topic (append max_size m (logs topic)) logs)
  replay (getting topic ∷ calls) logs =
      let (x, l) = next max_size (logs topic) in
      let (results, logs') = replay calls (update topic l logs) in (x ∷ results, logs')

  pub record Refines (q : MessageQueue A) (logs : String → Log A) : Type ℓ where
    pub created : (topic : String) → get topic q.queues ≡ none → get topic q.dropped ≡ none
    pub topics : (topic : String) → Represents max_size (logs topic) (topic_buffer topic q)

  topic_buffer-put_buffer :
      (topic other : String) (b : Buffer A) (q : MessageQueue A)
      → topic_buffer other (put_buffer topic b q)
        ≡ (if str_eq topic other then b else topic_buffer other q)
  topic_buffer-put_buffer topic other b q =
      ground (arith, get-put topic other b.items q.queues, get-put topic other b.dropped q.dropped)

  topic_buffer-get_or_create :
      (topic other : String) (q : MessageQueue A)
      → ((t : String) → get t q.queues ≡ none → get t q.dropped ≡ none)
      → topic_buffer other (get_or_create topic q) ≡ topic_buffer other q
  unfolding get_or_create
  topic_buffer-get_or_create topic other q h = ground (
    arith,
    h topic,
    eq_iff topic other,
    get-put topic other [] q.queues,
    get-put topic other 0 q.dropped,
  )

  get_or_create-created :
      (topic other : String) (q : MessageQueue A)
      → ((t : String) → get t q.queues ≡ none → get t q.dropped ≡ none)
      → get other (get_or_create topic q).queues ≡ none
      → get other (get_or_create topic q).dropped ≡ none
  unfolding get_or_create
  get_or_create-created topic other q h e =
      ground (arith, h other, get-put topic other [] q.queues, get-put topic other 0 q.dropped)

  put_buffer-created :
      (topic other : String) (b : Buffer A) (q : MessageQueue A)
      → (get other q.queues ≡ none → get other q.dropped ≡ none)
      → get other (put_buffer topic b q).queues ≡ none
      → get other (put_buffer topic b q).dropped ≡ none
  put_buffer-created topic other b q h e =
      ground
        (arith, h, get-put topic other b.items q.queues, get-put topic other b.dropped q.dropped)

  -- writing what represents a log back under its topic
  put_buffer-Refines :
      (topic : String) (l : Log A) (b : Buffer A) (q : MessageQueue A) (logs : String → Log A)
      → Refines q logs
      → Represents max_size l b
      → Refines (put_buffer topic b q) (update topic l logs)
  put_buffer-Refines topic l b q logs h r = record {
    created = λ other. put_buffer-created topic other b q (h.created other);
    topics = λ other.
        subst (Represents max_size (update topic l logs other))
          (sym (topic_buffer-put_buffer topic other b q))
          (elim (Bool-cases (str_eq topic other)) [
            | inl e ↦ rw e r
            | inr e ↦ rw e (h.topics other)
          ]);
  }

  get_or_create-Refines :
      (topic : String) (q : MessageQueue A) (logs : String → Log A)
      → Refines q logs
      → Refines (get_or_create topic q) logs
  get_or_create-Refines topic q logs h = record {
    created = λ other. get_or_create-created topic other q h.created;
    topics = λ other.
        subst (Represents max_size (logs other))
          (sym (topic_buffer-get_or_create topic other q h.created)) (h.topics other);
  }

  pub publish-Refines :
      (topic : String) (m : A) (q : MessageQueue A) (logs : String → Log A)
      → Refines q logs
      → (q' : MessageQueue A) × (publish max_size topic m q ≡ some q')
        × Refines q' (update topic (append max_size m (logs topic)) logs)
  unfolding publish
  publish-Refines topic m q logs h =
      let h' = get_or_create-Refines topic q logs h in
      let q1 = get_or_create topic q in
      let (b, e, r) =
        offer-Represents max_size m (logs topic) (topic_buffer topic q1) (h'.topics topic) in
      (
        put_buffer topic b q1,
        rw (e, publish) refl,
        put_buffer-Refines topic (append max_size m (logs topic)) b q1 logs h' r,
      )

  pub topic_buffer-put_items :
      (topic other : String) (items : List A) (q : MessageQueue A)
      → topic_buffer other (put_items topic items q) ≡ (
          if str_eq topic other
          then record (topic_buffer topic q) { items = items }
          else topic_buffer other q)
  topic_buffer-put_items topic other items q =
      ground (arith, eq_iff topic other, get-put topic other items q.queues)

  put_items-created :
      (topic other : String) (items : List A) (q : MessageQueue A)
      → (get other q.queues ≡ none → get other q.dropped ≡ none)
      → get other (put_items topic items q).queues ≡ none
      → get other (put_items topic items q).dropped ≡ none
  put_items-created topic other items q h e = ground (arith, h, get-put topic other items q.queues)

  put_items-Refines :
      (topic : String) (l : Log A) (items : List A) (q : MessageQueue A) (logs : String → Log A)
      → Refines q logs
      → Represents max_size l (record (topic_buffer topic q) { items = items })
      → Refines (put_items topic items q) (update topic l logs)
  put_items-Refines topic l items q logs h r = record {
    created = λ other. put_items-created topic other items q (h.created other);
    topics = λ other.
        subst (Represents max_size (update topic l logs other))
          (sym (topic_buffer-put_items topic other items q))
          (elim (Bool-cases (str_eq topic other)) [
            | inl e ↦ rw e r
            | inr e ↦ rw e (h.topics other)
          ]);
  }

  update_self :
      (topic : String) (q : MessageQueue A) (logs : String → Log A)
      → Refines q logs
      → Refines q (update topic (logs topic) logs)
  update_self topic q logs h = record {
    created = h.created;
    topics = λ other. elim (Bool-cases (str_eq topic other)) [
      | inl e ↦ rw e (rw ((eq_iff topic other).0 e) (h.topics other))
      | inr e ↦ rw e (h.topics other)
    ];
  }

  get_nowait-nil : (items : List A) → items ≡ [] → get_nowait items ≡ none
  unfolding get_nowait
  get_nowait-nil items e = rw e refl

  get_nowait-cons :
      (items : List A) (x : A) (rest : List A)
      → items ≡ x ∷ rest
      → get_nowait items ≡ some (x, rest)
  unfolding get_nowait
  get_nowait-cons items x rest e = rw e refl

  pub get_message-none :
      (topic : String) (q : MessageQueue A)
      → (topic_buffer topic (get_or_create topic q)).items ≡ []
      → get_message topic q ≡ (none, get_or_create topic q)
  unfolding get_message
  get_message-none topic q e = rw (get_nowait-nil _ e, get_message) refl

  pub get_message-some :
      (topic : String) (q : MessageQueue A) (x : A) (rest : List A)
      → (topic_buffer topic (get_or_create topic q)).items ≡ x ∷ rest
      → get_message topic q ≡ (some x, put_items topic rest (get_or_create topic q))
  unfolding get_message
  get_message-some topic q x rest e = rw (get_nowait-cons _ x rest e, get_message) refl

  get_message-Refines :
      (topic : String) (q : MessageQueue A) (logs : String → Log A)
      → Refines q logs
      → ((get_message topic q).0 ≡ (next max_size (logs topic)).0)
        × Refines (get_message topic q).1 (update topic (next max_size (logs topic)).1 logs)
  get_message-Refines topic q logs h =
      let h' = get_or_create-Refines topic q logs h in
      let q1 = get_or_create topic q in
      elim (next-Represents max_size (logs topic) (topic_buffer topic q1) (h'.topics topic)) [
        | inl (e, n) ↦ rw (get_message-none topic q e) (rw n (refl, update_self topic q1 logs h'))
        | inr (x, rest, e, n, r) ↦ rw (get_message-some topic q x rest e) (
          ap (λ p. p.0) (sym n),
          put_items-Refines topic (next max_size (logs topic)).1 rest q1 logs h' r,
        )
      ]

  -- Any calls, in any order and on any topics, give what the logs give, and leave a queue whose
  -- topics are the parts of the logs that are not read.
  pub run-Refines :
      (calls : List (Call A)) (q : MessageQueue A) (logs : String → Log A)
      → Refines q logs
      → (q' : MessageQueue A) × (run calls q ≡ some ((replay calls logs).0, q'))
        × Refines q' (replay calls logs).1
  unfolding run replay
  run-Refines [] q logs h = (q, refl, h)
  run-Refines (publishing topic m ∷ calls) q logs h =
      let (q1, e, h1) = publish-Refines topic m q logs h in
      rw (e, run) (run-Refines calls q1 (update topic (append max_size m (logs topic)) logs) h1)
  run-Refines (getting topic ∷ calls) q logs h =
      let (e, h1) = get_message-Refines topic q logs h in
      let (q2, e2, h2) =
        run-Refines calls (get_message topic q).1 (update topic (next max_size (logs topic)).1 logs)
          h1 in
      (q2, rw (e2, run) (rw e refl), h2)

  abbrev pub no_logs : String → Log A
  no_logs topic = record { stream = []; head = 0; skipped = 0 }

  pub new-Refines : Refines new no_logs
  unfolding new get
  new-Refines = record {
    created = λ topic e. refl;
    topics = λ topic. record {
      items = refl;
      dropped = refl;
      read = omega arith;
      within = inr (omega arith);
    };
  }

  -- From a new queue, any calls of `publish` and `get` in any order and on any topics all return,
  -- with the results that one log for each topic gives, where a reader skips what is more than the
  -- bound behind the end; at the end every topic holds the part of its log that is not read, within
  -- the bound, and has counted the skipped messages.
  pub run-new-Refines :
      (calls : List (Call A))
      → (q : MessageQueue A) × (run calls new ≡ some ((replay calls no_logs).0, q))
        × Refines q (replay calls no_logs).1
  run-new-Refines calls = run-Refines calls new no_logs new-Refines
