-- ===== src/StateStore.antt =====
-- backend/app/infrastructure/state_store/in_memory.py and redis_store.py: the two stores of the zones'
-- states. A state is a JSON value. The Redis client with its server is a parameter.
pub mod Equivalence
use Prim.Native.String.{◌++◌ as ◌++ₛ◌}
use boars_head_compliance_de.Prelude.{
  ℕ, String, Bool, true, false, Option, none, some, List, [], ◌∷◌, if◌then◌else◌,
}
use boars_head_compliance_de.Prelude.Dict.{Dict, string_eq, get, put}
use boars_head_compliance_de.Serialization.{Json, Codec}

pub record InMemoryStateStore : Type 0 where
  pub store : Dict String Json
  pub closed : Bool

abbrev pub new_memory_store : InMemoryStateStore
new_memory_store = record { store = []; closed = false }

-- `get` and `set`; the outer `none` is the RuntimeError of a closed store
unfoldable pub memory_get : String → InMemoryStateStore → Option (Option Json)
memory_get key s = if s.closed then none else some (get key s.store)

unfoldable pub memory_set : String → Json → InMemoryStateStore → Option InMemoryStateStore
memory_set key value s =
    if s.closed then none else some (record s { store = put key value s.store })

unfoldable pub memory_close : InMemoryStateStore → InMemoryStateStore
memory_close s = record { store = []; closed = true }

-- GET, where the outer `none` is an exception, and SET with an expiry in seconds, where `false` is one
pub record KeyValueClient (Wire : Type 0) : Type 1 where
  pub Server : Type 0
  pub get_key : String → Server → Option (Option Wire) × Server
  pub set_key : String → Wire → ℕ → Server → Bool × Server

pub record RedisStateStore : Type 0 where
  pub prefix : String
  pub ttl : ℕ

-- `_make_key`
abbrev pub make_key : RedisStateStore → String → String
make_key r key = r.prefix ++ₛ (":" ++ₛ key)

module _ (codec : Codec) (client : KeyValueClient codec.Wire) where
  open client use {Server}

  -- what is decoded of an answer; a decode error is logged
  abbrev pub decode_state : Option codec.Wire → Option Json
  decode_state none = none
  decode_state (some raw) = codec.loads raw

  abbrev pub decode_answer : Option (Option codec.Wire) → Option (Option Json)
  decode_answer none = none
  decode_answer (some raw) = some (decode_state raw)

  -- `get`; the outer `none` is the client's exception, which is not caught
  unfoldable pub redis_get : String → RedisStateStore → Server → Option (Option Json) × Server
  redis_get key r server =
      let (answer, server') = client.get_key (make_key r key) server in
      (decode_answer answer, server')

  -- `set`; an exception is logged
  unfoldable pub redis_set : String → Json → RedisStateStore → Server → Server
  redis_set key value r server =
      (client.set_key (make_key r key) (codec.dumps value) r.ttl server).1

-- a call of a store
pub data Access : Type 0 where
  gets : String → Access
  sets : String → Json → Access
