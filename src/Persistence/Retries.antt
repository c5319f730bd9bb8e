-- ===== src/Persistence/Retries.antt =====
-- The retries of one alert.
use boars_head_compliance_de.Prelude.{
  ℕ, zero, suc, ◌<◌, ◌≡◌, refl, ap, sym, subst, ◌∙◌, true, false, Option, List, arith, ◌⊎◌, inl,
  inr,
}
use boars_head_compliance_de.Evidence.{ItemArgs}
use boars_head_compliance_de.Events.{ComplianceEvent}
use boars_head_compliance_de.Persistence.{Attempt, Tables, persist_violation, persist_with_retry}

pub nothing_below : (k : ℕ) → ¬ (k < zero)
nothing_below k h = omega arith

pub lt_suc-cases : (k n : ℕ) → k < suc n → (k ≡ n) ⊎ (k < n)
lt_suc-cases k n h = ground arith

-- the attempts that are made, of those from `n` down
module _ (attempts : ℕ → Attempt) (alert : ComplianceEvent) (evidence : Option (List ItemArgs))
    (db : Tables) where
  abbrev pub AttemptRaises : ℕ → Type 0
  AttemptRaises k = (persist_violation (attempts k) alert evidence db).0 ≡ true

  -- a raise leaves the tables
  keeps_tables :
      (k : ℕ) → AttemptRaises k → (persist_violation (attempts k) alert evidence db).1 ≡ db
  unfolding persist_violation
  keeps_tables k h = ground arith

  goes_on :
      (n : ℕ)
      → AttemptRaises n
      → persist_with_retry (suc n) attempts alert evidence db
        ≡ persist_with_retry n attempts alert evidence db
  unfolding persist_with_retry
  goes_on n h =
      rw (persist_with_retry, h)
        (ap (persist_with_retry n attempts alert evidence) (keeps_tables n h))

  ends_here :
      (n : ℕ)
      → (persist_violation (attempts n) alert evidence db).0 ≡ false
      → persist_with_retry (suc n) attempts alert evidence db
        ≡ (false, (persist_violation (attempts n) alert evidence db).1)
  unfolding persist_with_retry
  ends_here n h = rw (persist_with_retry, h) refl

  -- when every attempt raises, the tables are as they were
  persist_with_retry-gives_up :
      (n : ℕ)
      → ((k : ℕ) → k < n → AttemptRaises k)
      → persist_with_retry n attempts alert evidence db ≡ (true, db)
  unfolding persist_with_retry
  persist_with_retry-gives_up zero h = refl
  persist_with_retry-gives_up (suc n) h =
      goes_on n (h n (omega arith)) ∙ persist_with_retry-gives_up n (λ k l. h k (omega arith))

  -- Of `n` attempts, numbered from n - 1 down to 0, if one does not raise and all before it do, the
  -- tables are what this one alone leaves.
  pub persist_with_retry-first :
      (n k : ℕ)
      → k < n
      → (persist_violation (attempts k) alert evidence db).0 ≡ false
      → ((j : ℕ) → k < j → j < n → AttemptRaises j)
      → persist_with_retry n attempts alert evidence db
        ≡ (false, (persist_violation (attempts k) alert evidence db).1)
  persist_with_retry-first zero k l e h = elim (nothing_below k l) [ ]
  persist_with_retry-first (suc n) k l e h = elim (lt_suc-cases k n l) [
    | inl same ↦
        subst
          (λ j.
            persist_with_retry (suc n) attempts alert evidence db
            ≡ (false, (persist_violation (attempts j) alert evidence db).1))
          (sym same)
          (ends_here n
            (subst (λ j. (persist_violation (attempts j) alert evidence db).0 ≡ false) same e))
    | inr below ↦
        goes_on n (h n below (omega arith))
        ∙ persist_with_retry-first n k below e (λ j a b. h j a (omega arith))
  ]
