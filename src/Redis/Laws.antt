-- ===== src/Redis/Laws.antt =====
-- What backend/app/infrastructure/redis/message_queue.py relies on: a server that answers, and that
-- delivers as the documentation of Redis streams has it.
use boars_head_compliance_de.Prelude.{
  ℕ, ◌<◌, String, ◌≡◌, Bool, true, false, Option, none, some, List, [], ◌∷◌, ◌++◌, length,
}
use boars_head_compliance_de.Streams.{entry, Client}

-- `entries` are what a stream holds, the oldest first. A group that `created` says is there has a place
-- in its stream: `waiting` are the entries that were not delivered to it yet, and `pending` is how
-- many were delivered and not acknowledged. XGROUP CREATE with the id 0 makes a group that has all
-- entries before it, and changes nothing where the group is there (BUSYGROUP). Only a group that is
-- there can be read from. The trim leaves the youngest `maxlen` entries at least.
pub record Delivers {Wire : Type 0} (client : Client Wire) : Type 0 where
  pub entries : String → client.Server → List Wire
  pub created : String → String → client.Server → Bool
  pub waiting : String → String → client.Server → List Wire
  pub pending : String → String → client.Server → ℕ
  pub add :
      (stream : String) (payload : Wire) (maxlen : ℕ) (approximate : Bool) (server : client.Server)
      → (server' : client.Server) × (client.xadd stream payload maxlen approximate server
          ≡ (true, server'))
        × (length (entries stream server) < maxlen
            → entries stream server' ≡ entries stream server ++ payload ∷ [])
        × ((group : String)
            → (created stream group server' ≡ created stream group server)
              × (pending stream group server' ≡ pending stream group server)
              × (created stream group server ≡ true
                  → length (waiting stream group server) < maxlen
                  → waiting stream group server' ≡ waiting stream group server ++ payload ∷ []))
  pub create_new :
      (stream group : String) (server : client.Server)
      → created stream group server ≡ false
      → (created stream group (client.xgroup_create stream group server) ≡ true)
        × (waiting stream group (client.xgroup_create stream group server) ≡ entries stream server)
        × (pending stream group (client.xgroup_create stream group server) ≡ 0)
  pub create_again :
      (stream group : String) (server : client.Server)
      → created stream group server ≡ true
      → client.xgroup_create stream group server ≡ server
  pub read :
      (stream group consumer : String) (block : Option ℕ) (server : client.Server) (payload : Wire)
      (rest : List Wire)
      → created stream group server ≡ true
      → waiting stream group server ≡ payload ∷ rest
      → (id : client.MessageId) × (server' : client.Server) × (server'' : client.Server)
        × (client.xreadgroup group consumer stream block server
            ≡ (entry id (some payload), server'))
        × (client.xack stream group id server' ≡ (true, server''))
        × (created stream group server'' ≡ true)
        × (waiting stream group server'' ≡ rest)
        × (pending stream group server'' ≡ pending stream group server)
  pub none_pending :
      (stream group : String) (server : client.Server)
      → created stream group server ≡ true
      → pending stream group server ≡ 0
      → client.xpending_range stream group server ≡ (some none, server)
