-- ===== src/Inference/Threads/Once.antt =====
-- backend/app/inference/registry.py: who may load a model, and what the loads so far have left.
use boars_head_compliance_de.Prelude.{
  ℕ, suc, ◌≤◌, String, ◌≡◌, ◌⊎◌, refl, ap, ◌≢◌, Bool, Option, none, some, List, [], ◌∷◌, arith,
  if◌then◌else◌, ◌==◌, ==_iff, Bool-cases, Option-cases, subst, inl, inr,
}
use boars_head_compliance_de.Prelude.Dict.{Dict, string_eq, get, put, get-put}
use boars_head_compliance_de.Inference.{ModelSpec, Host}
use boars_head_compliance_de.Inference.Detector.{Runtime, Detector}
use boars_head_compliance_de.Inference.Registry.{key_of, keep}
use boars_head_compliance_de.Inference.Threads.{
  Locks, ensure_lock, Phase, idle, called, missed, waiting, locked, leaving, obtain_lock, release,
  loading, returned, System, Event, calls, goes, place, look, acquire, recheck, store_loaded,
  finish, go, call_get, happen, happen_all, new_system, count_load,
}

-- how often a model is in the list
pub times : String → List String → ℕ
times key [] = 0
times key (other ∷ rest) = let n = times key rest in if string_eq.beq other key then suc n else n

is_key : (o : Option String) (key : String) → (o ≡ some key) ⊎ (o ≢ some key)
is_key none key = inr (λ e. cc)
is_key (some k) key = elim (Bool-cases (string_eq.beq k key)) [
  | inl e ↦ inl (ap some ((string_eq.beq_iff k key).0 e))
  | inr e ↦ inr (λ same. ground (arith, string_eq.beq_iff k key))
]

module _ (host : Host) (rt : Runtime) where
  -- the key of the lock that a thread has, and of the model that it loads
  pub owned : Phase rt → Option String
  owned (locked spec) = some (key_of host rt spec)
  owned (loading spec) = some (key_of host rt spec)
  owned idle = none
  owned (called spec) = none
  owned (leaving spec result) = some (key_of host rt spec)
  owned (missed spec) = none
  owned (waiting spec) = none
  owned (returned result) = none

  pub loaded_now : Phase rt → Option String
  loaded_now (loading spec) = some (key_of host rt spec)
  loaded_now (locked spec) = none
  loaded_now idle = none
  loaded_now (called spec) = none
  loaded_now (leaving spec result) = none
  loaded_now (missed spec) = none
  loaded_now (waiting spec) = none
  loaded_now (returned result) = none

  -- A thread under a lock is its owner, and a model that it loads is not in the cache.
  abbrev pub IsGuarded : Locks → Dict String (Detector rt) → ℕ → Phase rt → Type 0
  IsGuarded locks cache i phase =
      (key : String)
      → (owned phase ≡ some key → get key locks ≡ some (some i))
        × (loaded_now phase ≡ some key → get key cache ≡ none)

  -- A model was loaded once at most, and never when it is not in the cache.
  abbrev pub IsCounted : Dict String (Detector rt) → List String → Type 0
  IsCounted cache loads =
      (key : String) → (times key loads ≤ 1) × (get key cache ≡ none → times key loads ≡ 0)

  abbrev pub IsSafe : System rt → Type 0
  IsSafe s =
      ((i : ℕ) → IsGuarded s.locks s.registry.cache i (s.threads i))
      × IsCounted s.registry.cache s.loads

  loaded_now-owned :
      (phase : Phase rt) (key : String) → loaded_now phase ≡ some key → owned phase ≡ some key
  unfolding owned loaded_now
  loaded_now-owned (loading spec) key h = h
  loaded_now-owned (locked spec) key h = cc
  loaded_now-owned idle key h = cc
  loaded_now-owned (called spec) key h = cc
  loaded_now-owned (leaving spec result) key h = cc
  loaded_now-owned (missed spec) key h = cc
  loaded_now-owned (waiting spec) key h = cc
  loaded_now-owned (returned result) key h = cc

  place-IsGuarded :
      (i : ℕ) (phase : Phase rt) (threads : ℕ → Phase rt) (locks : Locks)
      (cache : Dict String (Detector rt))
      → ((j : ℕ) → i ≢ j → IsGuarded locks cache j (threads j))
      → IsGuarded locks cache i phase
      → (j : ℕ) → IsGuarded locks cache j (place host rt i phase threads j)
  place-IsGuarded i phase threads locks cache others own j = elim (Bool-cases (i == j)) [
    | inl e ↦ rw e (subst (λ k. IsGuarded locks cache k phase) ((==_iff i j).0 e) own)
    | inr e ↦ rw e (others j (λ same. ground (arith, ==_iff i j)))
  ]

  ensure_lock-IsGuarded :
      (key : String) (locks : Locks) (cache : Dict String (Detector rt)) (j : ℕ) (phase : Phase rt)
      → IsGuarded locks cache j phase
      → IsGuarded (ensure_lock key locks) cache j phase
  unfolding ensure_lock
  ensure_lock-IsGuarded key locks cache j phase h k =
      ground (arith, h k, get-put key k none locks, string_eq.beq_iff key k)

  -- a lock that nobody has is taken
  take-IsGuarded :
      (key : String) (i : ℕ) (locks : Locks) (cache : Dict String (Detector rt)) (j : ℕ)
      (phase : Phase rt)
      → get key locks ≡ some none
      → IsGuarded locks cache j phase
      → IsGuarded (put key (some i) locks) cache j phase
  take-IsGuarded key i locks cache j phase free h k =
      ground (arith, h k, get-put key k (some i) locks, string_eq.beq_iff key k)

  -- another thread gives its lock back
  give-IsGuarded :
      (key : String) (i : ℕ) (locks : Locks) (cache : Dict String (Detector rt)) (j : ℕ)
      (phase : Phase rt)
      → i ≢ j
      → get key locks ≡ some (some i)
      → IsGuarded locks cache j phase
      → IsGuarded (put key none locks) cache j phase
  give-IsGuarded key i locks cache j phase other mine h k =
      ground (arith, h k, get-put key k none locks, string_eq.beq_iff key k)

  -- another thread puts a detector in the cache
  store-IsGuarded :
      (key : String) (loaded : Option (Detector rt)) (i : ℕ) (s : System rt) (j : ℕ)
      (phase : Phase rt)
      → i ≢ j
      → get key s.locks ≡ some (some i)
      → IsGuarded s.locks s.registry.cache j phase
      → IsGuarded s.locks (keep host rt key loaded s.registry).cache j phase
  store-IsGuarded key none i s j phase other mine h k = h k
  store-IsGuarded key (some d) i s j phase other mine h k = ground (
    arith,
    h k,
    string_eq.beq_iff key k,
    get-put key k d s.registry.cache,
    loaded_now-owned phase k,
  )

  count_load-IsCounted :
      (key : String) (loaded : Option (Detector rt)) (s : System rt)
      → get key s.registry.cache ≡ none
      → IsCounted s.registry.cache s.loads
      → IsCounted (keep host rt key loaded s.registry).cache (count_load host rt key loaded s.loads)
  unfolding times
  count_load-IsCounted key none s missing h k = h k
  count_load-IsCounted key (some d) s missing h k =
      ground (arith, h k, get-put key k d s.registry.cache, string_eq.beq_iff key k)

  store-IsSafe :
      (i : ℕ) (spec : ModelSpec) (loaded : Option (Detector rt)) (world : rt.World) (s : System rt)
      → IsSafe s
      → get (key_of host rt spec) s.locks ≡ some (some i)
      → get (key_of host rt spec) s.registry.cache ≡ none
      → IsSafe (store_loaded host rt i spec loaded world s)
  unfolding store_loaded owned loaded_now
  store-IsSafe i spec loaded world s (guarded, counted) mine missing = (
    place-IsGuarded i (leaving spec loaded) s.threads _ _
        (λ j other.
          store-IsGuarded (key_of host rt spec) loaded i s j (s.threads j) other mine (guarded j))
        (λ k. (λ e. cc, λ e. cc)),
    count_load-IsCounted (key_of host rt spec) loaded s missing counted,
  )

  -- a thread goes to where it has no lock
  drop-IsSafe :
      (i : ℕ) (phase : Phase rt) (s : System rt) (locks : Locks)
      → owned phase ≡ none
      → ((j : ℕ) → i ≢ j → IsGuarded locks s.registry.cache j (s.threads j))
      → IsCounted s.registry.cache s.loads
      → IsSafe (record s { locks = locks; threads = place host rt i phase s.threads })
  drop-IsSafe i phase s locks free others counted = (
    place-IsGuarded i phase s.threads locks s.registry.cache others
        (λ k. (λ e. cc, λ e. let e' = loaded_now-owned phase k e in cc)),
    counted,
  )

  look-IsSafe :
      (i : ℕ) (spec : ModelSpec) (s : System rt) → IsSafe s → IsSafe (look host rt i spec s)
  unfolding look owned
  look-IsSafe i spec s (guarded, counted) =
      elim (Option-cases (get (key_of host rt spec) s.registry.cache)) [
        | inl e ↦
            rw (e, look) (drop-IsSafe i (missed spec) s s.locks refl (λ j other. guarded j) counted)
        | inr (d, e) ↦
            rw (e, look)
              (drop-IsSafe i (returned (some d)) s s.locks refl (λ j other. guarded j) counted)
      ]

  obtain_lock-IsSafe :
      (i : ℕ) (spec : ModelSpec) (s : System rt) → IsSafe s → IsSafe (obtain_lock host rt i spec s)
  unfolding obtain_lock owned
  obtain_lock-IsSafe i spec s (guarded, counted) =
      drop-IsSafe i (waiting spec) s (ensure_lock (key_of host rt spec) s.locks) refl
        (λ j other. ensure_lock-IsGuarded _ s.locks s.registry.cache j (s.threads j) (guarded j))
        counted

  acquire-IsSafe :
      (o : Option (Option ℕ)) (i : ℕ) (spec : ModelSpec) (s : System rt)
      → get (key_of host rt spec) s.locks ≡ o
      → IsSafe s
      → IsSafe (acquire host rt i spec s)
  unfolding acquire owned loaded_now
  acquire-IsSafe none i spec s e h = rw (e, acquire) h
  acquire-IsSafe (some (some owner)) i spec s e h = rw (e, acquire) h
  acquire-IsSafe (some none) i spec s e (guarded, counted) =
      rw (e, acquire)
        (
          place-IsGuarded i (locked spec) s.threads _ s.registry.cache
              (λ j other. take-IsGuarded _ i s.locks s.registry.cache j (s.threads j) e (guarded j))
              (λ k. (
                λ same. ground (
                  arith,
                  get-put (key_of host rt spec) k (some i) s.locks,
                  string_eq.beq_iff (key_of host rt spec) k,
                ),
                λ other. cc,
              )),
          counted,
        )

  recheck-IsSafe :
      (i : ℕ) (spec : ModelSpec) (s : System rt)
      → get (key_of host rt spec) s.locks ≡ some (some i)
      → IsSafe s
      → IsSafe (recheck host rt i spec s)
  unfolding recheck owned loaded_now
  recheck-IsSafe i spec s mine (guarded, counted) =
      elim (Option-cases (get (key_of host rt spec) s.registry.cache)) [
        | inl e ↦
            rw (e, recheck)
              (
                place-IsGuarded i (loading spec) s.threads s.locks s.registry.cache
                    (λ j other. guarded j) (λ k. (λ same. cc, λ same. cc)),
                counted,
              )
        | inr (d, e) ↦
            rw (e, recheck)
              (
                place-IsGuarded i (leaving spec (some d)) s.threads s.locks s.registry.cache
                    (λ j other. guarded j) (λ k. (λ same. cc, λ same. cc)),
                counted,
              )
      ]

  release-IsSafe :
      (i : ℕ) (spec : ModelSpec) (result : Option (Detector rt)) (s : System rt)
      → get (key_of host rt spec) s.locks ≡ some (some i)
      → IsSafe s
      → IsSafe (release host rt i spec result s)
  unfolding release owned
  release-IsSafe i spec result s mine (guarded, counted) =
      drop-IsSafe i (returned result) s (put (key_of host rt spec) none s.locks) refl
        (λ j other.
          give-IsGuarded _ i s.locks s.registry.cache j (s.threads j) other mine (guarded j))
        counted

  go-IsSafe :
      (i : ℕ) (phase : Phase rt) (s : System rt)
      → s.threads i ≡ phase
      → IsSafe s
      → IsSafe (go host rt i phase s)
  unfolding go owned loaded_now finish
  go-IsSafe i idle s at h = h
  go-IsSafe i (called spec) s at h = look-IsSafe i spec s h
  go-IsSafe i (missed spec) s at h = obtain_lock-IsSafe i spec s h
  go-IsSafe i (leaving spec result) s at h =
      release-IsSafe i spec result s ((h.0 i (key_of host rt spec)).0 (ap owned at)) h
  go-IsSafe i (waiting spec) s at h = acquire-IsSafe _ i spec s refl h
  go-IsSafe i (locked spec) s at h =
      recheck-IsSafe i spec s ((h.0 i (key_of host rt spec)).0 (ap owned at)) h
  go-IsSafe i (loading spec) s at h =
      store-IsSafe i spec _ _ s h ((h.0 i (key_of host rt spec)).0 (ap owned at))
        ((h.0 i (key_of host rt spec)).1 (ap loaded_now at))
  go-IsSafe i (returned result) s at h = h

  call-IsSafe :
      (i : ℕ) (spec : ModelSpec) (phase : Phase rt) (s : System rt)
      → IsSafe s
      → IsSafe (call_get host rt i spec phase s)
  unfolding call_get owned
  call-IsSafe i spec idle s (guarded, counted) =
      drop-IsSafe i (called spec) s s.locks refl (λ j other. guarded j) counted
  call-IsSafe i spec (returned result) s (guarded, counted) =
      drop-IsSafe i (called spec) s s.locks refl (λ j other. guarded j) counted
  call-IsSafe i spec (called other) s h = h
  call-IsSafe i spec (missed other) s h = h
  call-IsSafe i spec (leaving other result) s h = h
  call-IsSafe i spec (waiting other) s h = h
  call-IsSafe i spec (locked other) s h = h
  call-IsSafe i spec (loading other) s h = h

  happen-IsSafe : (e : Event) (s : System rt) → IsSafe s → IsSafe (happen host rt e s)
  unfolding happen
  happen-IsSafe (calls i spec) s h = call-IsSafe i spec (s.threads i) s h
  happen-IsSafe (goes i) s h = go-IsSafe i (s.threads i) s refl h

  happen_all-IsSafe :
      (events : List Event) (s : System rt) → IsSafe s → IsSafe (happen_all host rt events s)
  unfolding happen_all
  happen_all-IsSafe [] s h = h
  happen_all-IsSafe (e ∷ events) s h = happen_all-IsSafe events _ (happen-IsSafe e s h)

  -- a lock has one owner
  exclusive :
      (s : System rt) (key : String) (i j : ℕ)
      → (owned (s.threads i) ≡ some key → get key s.locks ≡ some (some i))
        × (loaded_now (s.threads i) ≡ some key → get key s.registry.cache ≡ none)
      → (owned (s.threads j) ≡ some key → get key s.locks ≡ some (some j))
        × (loaded_now (s.threads j) ≡ some key → get key s.registry.cache ≡ none)
      → (i ≡ j) ⊎ ((loaded_now (s.threads i) ≢ some key) ⊎ (loaded_now (s.threads j) ≢ some key))
  exclusive s key i j (hi, h) (hj, k) = elim (is_key (loaded_now (s.threads i)) key) [
    | inr not_i ↦ inr (inl not_i)
    | inl at_i ↦ elim (is_key (loaded_now (s.threads j)) key) [
      | inr not_j ↦ inr (inr not_j)
      | inl at_j ↦
          (let mine = hi (loaded_now-owned (s.threads i) key at_i) in
            let theirs = hj (loaded_now-owned (s.threads j) key at_j) in inl (cc))
    ]
  ]

  new_system-IsSafe : (warmup : Bool) (world : rt.World) → IsSafe (new_system host rt warmup world)
  unfolding owned loaded_now times get
  new_system-IsSafe warmup world = (λ i k. (λ e. cc, λ e. cc), λ k. (omega arith, λ e. refl))

  -- Whatever calls of `get` the threads make and in whatever order their steps run: a key is at most
  -- once among those of the loads that succeeded, so no model is loaded twice; and two threads that
  -- load a model at the same time load models of different keys.
  pub happen_all-once :
      (warmup : Bool) (world : rt.World) (events : List Event) (key : String) (i j : ℕ)
      → (times key (happen_all host rt events (new_system host rt warmup world)).loads ≤ 1)
        × ((i ≡ j)
            ⊎ ((loaded_now ((happen_all host rt events (new_system host rt warmup world)).threads i)
                  ≢ some key)
                ⊎ (loaded_now
                      ((happen_all host rt events (new_system host rt warmup world)).threads j)
                    ≢ some key)))
  happen_all-once warmup world events key i j =
      let s = happen_all host rt events (new_system host rt warmup world) in
      let (guarded, counted) = happen_all-IsSafe events _ (new_system-IsSafe warmup world) in
      ((counted key).0, exclusive s key i j (guarded i key) (guarded j key))
