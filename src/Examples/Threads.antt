-- ===== src/Examples/Threads.antt =====
-- Two threads that ask for the same model at once, and one that asks for another.
use boars_head_compliance_de.Prelude.{ℕ, ◌≤◌, ◌≡◌, ◌≢◌, ◌⊎◌, refl, false, some, List, [], ◌∷◌}
use boars_head_compliance_de.Prelude.Dict.{get, put}
use boars_head_compliance_de.Inference.Registry.{load_and_warm}
use boars_head_compliance_de.Inference.Threads.{
  Event, calls, goes, System, happen, happen_all, call_get, go, look, obtain_lock, release, acquire,
  recheck, finish, store_loaded, ensure_lock, new_system, loading,
}
use boars_head_compliance_de.Inference.Threads.Once.{times, loaded_now, happen_all-once}
use boars_head_compliance_de.Examples.Models.{host, runtime, spec_of}

-- all miss, the first and the third load side by side, and the second waits
abbrev events : List Event
events =
    calls 0 (spec_of "hands" "a.pt")
    ∷ calls 1 (spec_of "again" "a.pt")
    ∷ calls 2 (spec_of "people" "b.pt")
    ∷ goes 0
    ∷ goes 1
    ∷ goes 2
    ∷ goes 0
    ∷ goes 1
    ∷ goes 2
    ∷ goes 0
    ∷ goes 2
    ∷ goes 1
    ∷ goes 0
    ∷ goes 2
    ∷ []

abbrev finishing : List Event
finishing = goes 2 ∷ goes 0 ∷ goes 1 ∷ goes 0 ∷ goes 1 ∷ goes 1 ∷ goes 1 ∷ []

abbrev after : List Event → System runtime
after es = happen_all host runtime es (new_system host runtime false 0)

both-loading :
    ((after events).threads 0 ≡ loading (spec_of "hands" "a.pt"))
    × ((after events).threads 2 ≡ loading (spec_of "people" "b.pt"))
unfolding happen_all happen call_get go look obtain_lock acquire recheck finish store_loaded release
    ensure_lock load_and_warm get put
both-loading = (refl, refl)

loaded-once : (happen_all host runtime finishing (after events)).loads ≡ "a.pt" ∷ "b.pt" ∷ []
unfolding happen_all happen call_get go look obtain_lock acquire recheck finish store_loaded release
    ensure_lock load_and_warm get put
loaded-once = refl

happen_all-once_example :
    (times "a.pt" (after events).loads ≤ 1)
    × ((◌≡◌ {A = ℕ} 0 1)
        ⊎ ((loaded_now host runtime ((after events).threads 0) ≢ some "a.pt")
            ⊎ (loaded_now host runtime ((after events).threads 1) ≢ some "a.pt")))
happen_all-once_example = happen_all-once host runtime false 0 events "a.pt" 0 1
