-- ===== src/Ingestion/Backoff.antt =====
-- backend/app/ingestion/connectors/rtsp.py: the loops that open a stream again and again. What the
-- stream and `stop_event` do is given; the delays slept are the result.
use boars_head_compliance_de.Prelude.{
  ℕ, zero, suc, ◌*◌, ◌^◌, ◌≤◌, ◌≡◌, ◌↔◌, refl, ap, Bool, true, false, ◌||◌, List, [], ◌∷◌, arith,
  min, length, if◌then◌else◌, Bool-cases, inl, inr,
}
use native.Mathlib.Omega.{pow_step}
use boars_head_compliance_de.Float.{Micros}

pub record RtspConnector : Type 0 where
  pub initial_delay : Micros
  pub max_delay : Micros
  -- whether `_cap` holds an open capture
  pub connected : Bool

pub data Outcome : Type 0 where
  succeeded : Outcome
  stopped : Outcome
  -- the attempts given are used up
  trying : Outcome

-- the loop of `connect`, by whether each capture opens: the delays slept
unfoldable pub connect_from : Micros → Micros → List Bool → Outcome × List Micros
connect_from max_delay delay [] = (trying, [])
connect_from max_delay delay (opened ∷ attempts) =
    let rest = connect_from max_delay (min (delay * 2) max_delay) attempts in
    if opened then (succeeded, []) else (rest.0, delay ∷ rest.1)

abbrev pub is_success : Outcome → Bool
is_success succeeded = true
is_success other = false

unfoldable pub connect : List Bool → RtspConnector → (Outcome × List Micros) × RtspConnector
unfolding connect_from
connect attempts c =
    let r = connect_from c.max_delay c.initial_delay attempts in
    (r, record c { connected = is_success r.0 || c.connected })

-- whether `stop_event` is set at the test and after the sleep, and whether the capture opens
pub record Attempt : Type 0 where
  pub stop_before : Bool
  pub stop_after : Bool
  pub opened : Bool

-- the loop of `reconnect`
unfoldable pub reconnect_from : Micros → Micros → List Attempt → Outcome × List Micros
reconnect_from max_delay delay [] = (trying, [])
reconnect_from max_delay delay (a ∷ attempts) =
    let rest = reconnect_from max_delay (min (delay * 2) max_delay) attempts in
    if a.stop_before
    then (stopped, [])
    else if a.stop_after
    then (stopped, delay ∷ [])
    else if a.opened
    then (succeeded, delay ∷ [])
    else (rest.0, delay ∷ rest.1)

unfoldable pub reconnect : List Attempt → RtspConnector → (Outcome × List Micros) × RtspConnector
unfolding reconnect_from
reconnect attempts c =
    let r = reconnect_from c.max_delay c.initial_delay attempts in
    (r, record c { connected = is_success r.0 })

-- min(initial_delay * 2^n, max_delay) for the n-th delays from `n` on
pub documented_delays : Micros → Micros → ℕ → ℕ → List Micros
documented_delays initial_delay max_delay n zero = []
documented_delays initial_delay max_delay n (suc k) =
    min (initial_delay * 2 ^ n) max_delay ∷ documented_delays initial_delay max_delay (suc n) k

double_min : (a p limit : ℕ) → min (min (a * p) limit * 2) limit ≡ min (a * (2 * p)) limit
double_min a p limit = grind arith

double_delay :
    (initial_delay max_delay n : ℕ)
    → min (min (initial_delay * 2 ^ n) max_delay * 2) max_delay
      ≡ min (initial_delay * 2 ^ suc n) max_delay
double_delay initial_delay max_delay n =
    rw (pow_step 2 n) (double_min initial_delay (2 ^ n) max_delay)

reconnect_delays :
    (initial_delay max_delay n : ℕ) (attempts : List Attempt)
    → let r = reconnect_from max_delay (min (initial_delay * 2 ^ n) max_delay) attempts in
      r.1 ≡ documented_delays initial_delay max_delay n (length r.1)
unfolding reconnect_from documented_delays
reconnect_delays initial_delay max_delay n [] = refl
reconnect_delays initial_delay max_delay n (a ∷ attempts) =
    rw (double_delay initial_delay max_delay n) (elim (Bool-cases a.stop_before) [
      | inl b ↦ simp b
      | inr b ↦ elim (Bool-cases a.stop_after) [
        | inl c ↦ simp (b, c)
        | inr c ↦ elim (Bool-cases a.opened) [
          | inl d ↦ simp (b, c, d)
          | inr d ↦
              simp (b, c, d)
                (ap (λ ds. min (initial_delay * 2 ^ n) max_delay ∷ ds)
                  (reconnect_delays initial_delay max_delay (suc n) attempts))
        ]
      ]
    ])

connect_delays :
    (initial_delay max_delay n : ℕ) (attempts : List Bool)
    → let r = connect_from max_delay (min (initial_delay * 2 ^ n) max_delay) attempts in
      r.1 ≡ documented_delays initial_delay max_delay n (length r.1)
unfolding connect_from documented_delays
connect_delays initial_delay max_delay n [] = refl
connect_delays initial_delay max_delay n (true ∷ attempts) = refl
connect_delays initial_delay max_delay n (false ∷ attempts) =
    rw (double_delay initial_delay max_delay n) (
      ap (λ ds. min (initial_delay * 2 ^ n) max_delay ∷ ds)
        (connect_delays initial_delay max_delay (suc n) attempts))

is_success_iff : (o : Outcome) → (is_success o ≡ true) ↔ (o ≡ succeeded)
is_success_iff succeeded = (λ h. refl, λ h. refl)
is_success_iff stopped = (λ h. cc, λ h. cc)
is_success_iff trying = (λ h. cc, λ h. cc)

is_success_or : (o : Outcome) → ((is_success o || false) ≡ true) ↔ (o ≡ succeeded)
is_success_or succeeded = is_success_iff succeeded
is_success_or stopped = is_success_iff stopped
is_success_or trying = is_success_iff trying

first_delay :
    (initial_delay max_delay : ℕ)
    → initial_delay ≤ max_delay
    → min (initial_delay * 2 ^ 0) max_delay ≡ initial_delay
first_delay initial_delay max_delay h = omega arith

-- Where the initial delay is within the maximum and no capture is open, the delays that `connect`
-- sleeps, and those of `reconnect`, whatever the stream and `stop_event` do, are
-- min(initial_delay * 2^n, max_delay) for n = 0, 1, …, and after either the connector holds a capture
-- exactly if the loop succeeded.
pub delays-documented :
    (c : RtspConnector) (openings : List Bool) (attempts : List Attempt)
    → c.initial_delay ≤ c.max_delay
    → c.connected ≡ false
    → let delays = documented_delays c.initial_delay c.max_delay 0 in
      let (first, c1) = connect openings c in
      let (again, c2) = reconnect attempts c in
      (first.1 ≡ delays (length first.1))
      × ((c1.connected ≡ true) ↔ (first.0 ≡ succeeded))
      × (again.1 ≡ delays (length again.1))
      × ((c2.connected ≡ true) ↔ (again.0 ≡ succeeded))
unfolding connect reconnect
delays-documented c openings attempts h closed =
    let start = first_delay c.initial_delay c.max_delay h in
    (
      rw start at (connect_delays c.initial_delay c.max_delay 0 openings),
      rw closed (is_success_or (connect_from c.max_delay c.initial_delay openings).0),
      rw start at (reconnect_delays c.initial_delay c.max_delay 0 attempts),
      is_success_iff (reconnect_from c.max_delay c.initial_delay attempts).0,
    )
