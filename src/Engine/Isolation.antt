-- ===== src/Engine/Isolation.antt =====
-- A frame changes the state of the persons that it has observations for, and of no other.
use boars_head_compliance_de.Prelude.{
  ℕ, String, ◌≡◌, refl, ◌≢◌, ◌∙◌, Bool, some, List, [], ◌∷◌, arith, if◌then◌else◌, ◌==◌,
}
use boars_head_compliance_de.Prelude.Dict.{get, put, get-put, nat_eq}
use boars_head_compliance_de.Float.{Micros}
use boars_head_compliance_de.Detection.{DetectionEvent}
use boars_head_compliance_de.Observation.{Observation}
use boars_head_compliance_de.StateMachine.{transition}
use boars_head_compliance_de.ActionLog.{LogLine}
use boars_head_compliance_de.Evidence.{EvidenceLib}
use boars_head_compliance_de.Handwash.{HandwashRuleConfig, Evaluation}
use boars_head_compliance_de.Engine.{
  Run, record_result, process_person, process_persons, advance, load_person, transition_log,
}

-- No observation is of person `q`.
abbrev pub Unseen : ℕ → List Observation → Type 0
Unseen q [] = Unit
Unseen q (obs ∷ rest) = (obs.person_id ≢ q) × Unseen q rest

module _ (ev : EvidenceLib) (uuid : ℕ → String) (config : HandwashRuleConfig) (max_gap : Micros)
    (raises : ℕ → Bool) (event : DetectionEvent) (current : List ℕ) where
  record_result_persons :
      (obs : Observation) (lines : List LogLine) (v : Evaluation ev uuid config)
      (r : Run ev uuid config max_gap raises)
      → (record_result ev uuid config max_gap raises event obs lines v r).persons
        ≡ put obs.person_id v.result.person_state r.persons
  unfolding record_result
  record_result_persons obs lines v r = ground arith

  -- One observation writes its person's new state, and leaves every other person's.
  get-process_person :
      (q : ℕ) (obs : Observation) (r : Run ev uuid config max_gap raises)
      → get q (process_person ev uuid config max_gap raises event current obs r).persons ≡ (
          if obs.person_id == q
          then some
              (advance ev uuid config max_gap raises event obs r.evaluator (
                load_person ev uuid config max_gap raises event current obs
                  r.persons)).result.person_state
          else get q r.persons)
  unfolding process_person
  get-process_person q obs r =
      let s = load_person ev uuid config max_gap raises event current obs r.persons in
      let lines = transition_log event obs.person_id (transition s.current_state obs) in
      let v = advance ev uuid config max_gap raises event obs r.evaluator s in
      rw (record_result_persons obs lines v r)
        (get-put obs.person_id q v.result.person_state r.persons)

  -- The states after the persons' frames: for a person that no observation is of, the one before.
  pub process_persons-other :
      (q : ℕ) (observations : List Observation) (r : Run ev uuid config max_gap raises)
      → Unseen q observations
      → get q (process_persons ev uuid config max_gap raises event current observations r).persons
        ≡ get q r.persons
  unfolding process_persons process_person
  process_persons-other q [] r h = refl
  process_persons-other q (obs ∷ rest) r h =
      let s = load_person ev uuid config max_gap raises event current obs r.persons in
      let lines = transition_log event obs.person_id (transition s.current_state obs) in
      let v = advance ev uuid config max_gap raises event obs r.evaluator s in
      process_persons-other q rest
        (process_person ev uuid config max_gap raises event current obs r) h.1
      ∙ rw (record_result_persons obs lines v r)
          (ground (arith, get-put obs.person_id q v.result.person_state r.persons, h.0))
