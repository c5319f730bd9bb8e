-- ===== src/Inference/Threads.antt =====
-- backend/app/inference/registry.py: `get` called by several threads at once. A thread is between two
-- of the steps below; the load of a model, which other threads run beside, is begun by `recheck` and
-- ends with `finish`. A lock is known by its key, since the table of the locks keeps every entry.
pub mod Once
use boars_head_compliance_de.Prelude.{
  ℕ, String, Bool, Option, none, some, List, [], ◌∷◌, if◌then◌else◌, ◌==◌,
}
use boars_head_compliance_de.Prelude.Dict.{Dict, string_eq, get, put}
use boars_head_compliance_de.Inference.{ModelSpec, Host}
use boars_head_compliance_de.Inference.Detector.{Runtime, Detector}
use boars_head_compliance_de.Inference.Registry.{Registry, load_and_warm, key_of, keep}

-- the owner of each lock
abbrev pub Locks : Type 0
Locks = Dict String (Option ℕ)

-- `_get_or_create_lock`, which is run as a whole under `_meta_lock`
unfoldable pub ensure_lock : String → Locks → Locks
ensure_lock key locks = elim (get key locks) [ some owner ↦ locks | none ↦ put key none locks ]

module _ (rt : Runtime) where
  -- Where a thread is in `get`: before it, at its first line, at `_get_or_create_lock`, at the
  -- `with`, under the lock, in `_load_and_warm`, at the end of the `with` with the result (`none` is
  -- the error of the load), and after it.
  pub data Phase : Type 0 where
    idle : Phase
    called : ModelSpec → Phase
    missed : ModelSpec → Phase
    waiting : ModelSpec → Phase
    locked : ModelSpec → Phase
    loading : ModelSpec → Phase
    leaving : ModelSpec → Option (Detector rt) → Phase
    returned : Option (Detector rt) → Phase

  pub record System : Type 0 where
    pub registry : Registry rt
    pub world : rt.World
    pub locks : Locks
    pub threads : ℕ → Phase
    -- the keys of the models loaded so far, the last first
    pub loads : List String

-- a thread calls `get`, and a thread goes on by one step
pub data Event : Type 0 where
  calls : ℕ → ModelSpec → Event
  goes : ℕ → Event

module _ (host : Host) (rt : Runtime) where
  abbrev pub place : ℕ → Phase rt → (ℕ → Phase rt) → ℕ → Phase rt
  place i phase threads j = if i == j then phase else threads j

  abbrev move : ℕ → Phase rt → System rt → System rt
  move i phase s = record s { threads = place i phase s.threads }

  -- `if key in self._cache` without the lock
  unfoldable pub look : ℕ → ModelSpec → System rt → System rt
  look i spec s = elim (get (key_of host rt spec) s.registry.cache) [
    | some detector ↦ move i (returned (some detector)) s
    | none ↦ move i (missed spec) s
  ]

  unfoldable pub obtain_lock : ℕ → ModelSpec → System rt → System rt
  obtain_lock i spec s = record s {
    locks = ensure_lock (key_of host rt spec) s.locks;
    threads = place i (waiting spec) s.threads;
  }

  -- `with lock:` waits until the lock is free
  unfoldable pub acquire : ℕ → ModelSpec → System rt → System rt
  acquire i spec s = elim (get (key_of host rt spec) s.locks) [
    | none ↦ s
    | some (some owner) ↦ s
    | some none ↦
        move i (locked spec) (record s { locks = put (key_of host rt spec) (some i) s.locks })
  ]

  -- the second look into the cache
  unfoldable pub recheck : ℕ → ModelSpec → System rt → System rt
  recheck i spec s = elim (get (key_of host rt spec) s.registry.cache) [
    | some detector ↦ move i (leaving spec (some detector)) s
    | none ↦ move i (loading spec) s
  ]

  abbrev count_load : String → Option (Detector rt) → List String → List String
  count_load key none loads = loads
  count_load key (some detector) loads = key ∷ loads

  unfoldable pub store_loaded :
      ℕ → ModelSpec → Option (Detector rt) → rt.World → System rt → System rt
  store_loaded i spec loaded world s = record s {
    registry = keep host rt (key_of host rt spec) loaded s.registry;
    world = world;
    loads = count_load (key_of host rt spec) loaded s.loads;
    threads = place i (leaving spec loaded) s.threads;
  }

  unfoldable pub finish : ℕ → ModelSpec → System rt → System rt
  finish i spec s =
      let (loaded, world) = load_and_warm host rt s.registry.warmup spec s.world in
      store_loaded i spec loaded world s

  -- the end of the `with`
  unfoldable pub release : ℕ → ModelSpec → Option (Detector rt) → System rt → System rt
  release i spec result s = record s {
    locks = put (key_of host rt spec) none s.locks;
    threads = place i (returned result) s.threads;
  }

  unfoldable pub go : ℕ → Phase rt → System rt → System rt
  go i idle s = s
  go i (called spec) s = look i spec s
  go i (missed spec) s = obtain_lock i spec s
  go i (waiting spec) s = acquire i spec s
  go i (locked spec) s = recheck i spec s
  go i (loading spec) s = finish i spec s
  go i (leaving spec result) s = release i spec result s
  go i (returned result) s = s

  -- a thread in a call does not call again
  unfoldable pub call_get : ℕ → ModelSpec → Phase rt → System rt → System rt
  call_get i spec idle s = move i (called spec) s
  call_get i spec (returned result) s = move i (called spec) s
  call_get i spec (called other) s = s
  call_get i spec (missed other) s = s
  call_get i spec (waiting other) s = s
  call_get i spec (locked other) s = s
  call_get i spec (loading other) s = s
  call_get i spec (leaving other result) s = s

  unfoldable pub happen : Event → System rt → System rt
  happen (calls i spec) s = call_get i spec (s.threads i) s
  happen (goes i) s = go i (s.threads i) s

  unfoldable pub happen_all : List Event → System rt → System rt
  happen_all [] s = s
  happen_all (e ∷ events) s = happen_all events (happen e s)

  abbrev pub new_system : Bool → rt.World → System rt
  new_system warmup world = record {
    registry = record { warmup = warmup; cache = [] };
    world = world;
    locks = [];
    threads = λ i. idle;
    loads = [];
  }
