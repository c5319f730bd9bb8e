-- ===== src/StateStore/Equivalence.antt =====
-- The two stores of backend/app/infrastructure/state_store answer alike while nothing expires.
use text.Mathlib.TextLemmas.{append_cancel_left}
use Prim.Native.String.{◌++◌ as ◌++ₛ◌}
use boars_head_compliance_de.Prelude.{
  ℕ, String, ◌≡◌, refl, sym, subst, ap, ap₂, ◌∙◌, Bool, true, false, Option, none, some, List, [],
  ◌∷◌, if◌then◌else◌, Bool-cases, inl, inr,
}
use boars_head_compliance_de.Prelude.Dict.{Dict, beq_refl, string_eq, get, put, get-put}
use boars_head_compliance_de.Serialization.{Json, Codec}
use boars_head_compliance_de.StateStore.{
  InMemoryStateStore, new_memory_store, memory_get, memory_set, KeyValueClient, RedisStateStore,
  make_key, decode_state, decode_answer, redis_get, redis_set, Access, gets, sets,
}

-- `holds` is what a server has under a key: GET answers it and changes nothing, and SET writes it.
-- No key expires.
pub record Keeps {Wire : Type 0} (client : KeyValueClient Wire) : Type 0 where
  pub holds : String → client.Server → Option Wire
  pub get_key-holds :
      (key : String) (server : client.Server)
      → client.get_key key server ≡ (some (holds key server), server)
  pub holds-set_key :
      (key other : String) (payload : Wire) (ttl : ℕ) (server : client.Server)
      → holds other (client.set_key key payload ttl server).1
        ≡ (if string_eq.beq key other then some payload else holds other server)

-- the answers of the reads among some calls
unfoldable pub memory_answers : List Access → InMemoryStateStore → List (Option (Option Json))
memory_answers [] s = []
memory_answers (gets key ∷ calls) s = memory_get key s ∷ memory_answers calls s
memory_answers (sets key value ∷ calls) s = elim (memory_set key value s) [
  | none ↦ none ∷ []
  | some s' ↦ memory_answers calls s'
]

module _ (codec : Codec) (client : KeyValueClient codec.Wire) (r : RedisStateStore) where
  unfoldable pub redis_answers : List Access → client.Server → List (Option (Option Json))
  redis_answers [] server = []
  redis_answers (gets key ∷ calls) server =
      let (answer, server') = redis_get codec client key r server in
      answer ∷ redis_answers calls server'
  redis_answers (sets key value ∷ calls) server =
      redis_answers calls (redis_set codec client key value r server)

make_key-beq :
    (r : RedisStateStore) (key other : String)
    → string_eq.beq (make_key r key) (make_key r other) ≡ string_eq.beq key other
make_key-beq r key other = elim (Bool-cases (string_eq.beq key other)) [
  | inl e ↦
      subst (λ o. string_eq.beq (make_key r key) (make_key r o) ≡ string_eq.beq key o)
        ((string_eq.beq_iff key other).0 e)
        (beq_refl string_eq (make_key r key) ∙ sym (beq_refl string_eq key))
  | inr e ↦ elim (Bool-cases (string_eq.beq (make_key r key) (make_key r other))) [
    | inl same ↦
        (let keys : key ≡ other = append_cancel_left ":" key other (
            append_cancel_left r.prefix (":" ++ₛ key) (":" ++ₛ other)
              ((string_eq.beq_iff (make_key r key) (make_key r other)).0 same)) in
          let found = (string_eq.beq_iff key other).1 keys in cc)
    | inr different ↦ different ∙ sym e
  ]
]

module _ (codec : Codec) (inverse : (j : Json) → codec.loads (codec.dumps j) ≡ some j)
    (client : KeyValueClient codec.Wire) (laws : Keeps client) (r : RedisStateStore) where
  -- Under each key the server has what the dictionary has.
  abbrev Agrees : Dict String Json → client.Server → Type 0
  Agrees store server =
      (key : String)
      → decode_state codec client (laws.holds (make_key r key) server) ≡ get key store

  written :
      (b : Bool) (value : Json) (before : Option codec.Wire) (old : Option Json)
      → decode_state codec client before ≡ old
      → decode_state codec client (if b then some (codec.dumps value) else before)
        ≡ (if b then some value else old)
  written true value before old h = inverse value
  written false value before old h = h

  answers-Agrees :
      (calls : List Access) (store : Dict String Json) (server : client.Server)
      → Agrees store server
      → redis_answers codec client r calls server
        ≡ memory_answers calls (record { store = store; closed = false })
  unfolding redis_answers memory_answers redis_get redis_set memory_get memory_set
  answers-Agrees [] store server h = refl
  answers-Agrees (gets key ∷ calls) store server h =
      ap (λ p. decode_answer codec client p.0 ∷ redis_answers codec client r calls p.1)
        (laws.get_key-holds (make_key r key) server)
      ∙ ap₂ ◌∷◌ (ap some (h key)) (answers-Agrees calls store server h)
  answers-Agrees (sets key value ∷ calls) store server h =
      answers-Agrees calls (put key value store) _ (λ other.
        ap (decode_state codec client)
          (laws.holds-set_key (make_key r key) (make_key r other) (codec.dumps value) r.ttl server)
        ∙ ap
            (λ b.
              decode_state codec client
                (if b then some (codec.dumps value) else laws.holds (make_key r other) server))
            (make_key-beq r key other)
        ∙ written (string_eq.beq key other) value _ _ (h other)
        ∙ sym (get-put key other value store))

  -- Where a text of JSON is read as the value that it was written from, and the server keeps what it
  -- is given and nothing of it expires: from an empty dictionary, and a server with nothing under the
  -- store's keys, any reads and writes give the same answers over Redis as in memory.
  pub redis_answers-memory_answers :
      (calls : List Access) (server : client.Server)
      → ((key : String) → laws.holds (make_key r key) server ≡ none)
      → redis_answers codec client r calls server ≡ memory_answers calls new_memory_store
  unfolding get
  redis_answers-memory_answers calls server nothing =
      answers-Agrees calls [] server (λ key. ap (decode_state codec client) (nothing key))
