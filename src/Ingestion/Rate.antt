-- ===== src/Ingestion/Rate.antt =====
-- The sampler keeps the rate.
use boars_head_compliance_de.Prelude.{ℕ, ◌+◌, ◌*◌, ◌≤◌, ◌≡◌, refl, ◌∙◌, List, [], ◌∷◌, All, arith}
use boars_head_compliance_de.Float.{Micros}
use boars_head_compliance_de.Ingestion.{FpsSampler, should_process}

-- the sampler after it was asked at some times
pub ask : List Micros → FpsSampler → FpsSampler
ask [] s = s
ask (now ∷ times) s = ask times (should_process now s).1

mul_suc : (n i : ℕ) → (n + 1) * i ≡ n * i + i
mul_suc n i = grind arith

pub record IsPaced (start end : Micros) (n : ℕ) (s : FpsSampler) : Type 0 where
  pub spaced : s.frames_sampled * s.interval + start ≤ n * s.interval + s.last_kept
  pub before : s.last_kept ≤ end

should_process-IsPaced :
    (start end : Micros) (n : ℕ) (now : Micros) (s : FpsSampler)
    → now ≤ end
    → IsPaced start end n s
    → IsPaced start end n (should_process now s).1
unfolding should_process
should_process-IsPaced start end n now s le h = ground (arith, mul_suc s.frames_sampled s.interval)

ask-IsPaced :
    (start end : Micros) (n : ℕ) (times : List Micros) (s : FpsSampler)
    → All (λ t. t ≤ end) times
    → IsPaced start end n s
    → IsPaced start end n (ask times s)
unfolding ask
ask-IsPaced start end n [] s le h = h
ask-IsPaced start end n (now ∷ times) s le h =
    ask-IsPaced start end n times (should_process now s).1 le.1
      (should_process-IsPaced start end n now s le.0 h)

should_process-interval :
    (now : Micros) (s : FpsSampler) → (should_process now s).1.interval ≡ s.interval
unfolding should_process
should_process-interval now s = ground arith

ask-interval : (times : List Micros) (s : FpsSampler) → (ask times s).interval ≡ s.interval
unfolding ask
ask-interval [] s = refl
ask-interval (now ∷ times) s =
    ask-interval times (should_process now s).1 ∙ should_process-interval now s

-- Of any frames up to a time, in any order, the sampler keeps at most one for each interval between
-- the last frame that it had kept and that time.
pub ask-rate :
    (end : Micros) (times : List Micros) (s : FpsSampler)
    → s.last_kept ≤ end
    → All (λ t. t ≤ end) times
    → (ask times s).frames_sampled * s.interval + s.last_kept ≤ s.frames_sampled * s.interval + end
ask-rate end times s h le =
    let paced =
      ask-IsPaced s.last_kept end s.frames_sampled times s le
        (record { spaced = omega arith; before = h }) in
    omega (arith, rw (ask-interval times s) at (paced.spaced), paced.before)
