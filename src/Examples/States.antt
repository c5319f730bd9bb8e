-- ===== src/Examples/States.antt =====
-- States that are written and read over a server that is a dictionary.
use boars_head_compliance_de.Prelude.{String, ◌≡◌, refl, true, some, List, [], ◌∷◌}
use boars_head_compliance_de.Prelude.Dict.{Dict, string_eq, get, put, get-put}
use boars_head_compliance_de.Serialization.{Json, str, int}
use boars_head_compliance_de.StateStore.{
  KeyValueClient, RedisStateStore, new_memory_store, Access, gets, sets,
}
use boars_head_compliance_de.StateStore.Equivalence.{
  Keeps, memory_answers, redis_answers, redis_answers-memory_answers,
}
use boars_head_compliance_de.Examples.Wire.{unary, unary-IsInverse}

abbrev client : KeyValueClient Json
client = record {
  Server = Dict String Json;
  get_key = λ key d. (some (get key d), d);
  set_key = λ key value ttl d. (true, put key value d);
}

client-Keeps : Keeps client
client-Keeps = record {
  holds = λ key d. get key d;
  get_key-holds = λ key d. refl;
  holds-set_key = λ key other payload ttl d. get-put key other payload d;
}

abbrev redis : RedisStateStore
redis = record { prefix = "cv:state"; ttl = 3600 }

abbrev accesses : List Access
accesses =
    gets "cam:sink"
    ∷ sets "cam:sink" (int 1)
    ∷ sets "cam:door" (str "a")
    ∷ gets "cam:sink"
    ∷ sets "cam:sink" (int 2)
    ∷ gets "cam:sink"
    ∷ []

redis_answers-memory_answers_example :
    redis_answers unary client redis accesses [] ≡ memory_answers accesses new_memory_store
unfolding client-Keeps get
redis_answers-memory_answers_example =
    redis_answers-memory_answers unary unary-IsInverse.loads-dumps client client-Keeps redis
      accesses [] (λ key. refl)
