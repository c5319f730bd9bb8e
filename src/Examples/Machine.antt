-- ===== src/Examples/Machine.antt =====
-- The state machine on concrete observations.
use boars_head_compliance_de.Prelude.{◌≡◌, refl, true, false, [], ◌∷◌}
use boars_head_compliance_de.StateMachine.{not_near_sink, washing, run}
use boars_head_compliance_de.StateMachine.Runs.{run-last_two}
use boars_head_compliance_de.Examples.{observed}

run-last_two_example :
    run not_near_sink (observed true true 1 ∷ observed true false 2 ∷ observed true true 3 ∷ [])
    ≡ washing
run-last_two_example =
    run-last_two not_near_sink (observed true true 1 ∷ []) (observed true false 2)
      (observed true true 3) refl
