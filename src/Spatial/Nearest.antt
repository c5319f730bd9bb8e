-- ===== src/Spatial/Nearest.antt =====
-- The sink that a person is assigned to is a nearest one.
use boars_head_compliance_de.Prelude.{
  ℕ, zero, suc, ◌+◌, ◌≡◌, refl, ap, ◌∙◌, true, false, Option, none, some, List, [], ◌∷◌, arith, ◌⊎◌,
  inl, inr, Option-cases,
}
use boars_head_compliance_de.Float.{Float, FloatOps}
use boars_head_compliance_de.Spatial.{
  Box, normalised, Best, closer, nearest_from, assign_person_to_sink,
}

-- the sink at an index
abbrev pub get_elem? : List (Box × Float) → ℕ → Option Box
get_elem? [] i = none
get_elem? ((sink, c) ∷ sinks) zero = some sink
get_elem? ((sink, c) ∷ sinks) (suc i) = get_elem? sinks i

-- `<` on floats is a strict order, NaN included.
pub record IsFloatOrder (ops : FloatOps) : Type 0 where
  pub irreflexive : (a : Float) → ops.lt a a ≡ false
  pub transitive : (a b c : Float) → ops.lt a b ≡ true → ops.lt b c ≡ true → ops.lt a c ≡ true

module _ (ops : FloatOps) (order : IsFloatOrder ops) (person : Box) where
  -- the loop never moves away, and a sink that it has passed is not nearer than the best
  nearest_from-not_lt :
      (sinks : List (Box × Float)) (i : ℕ) (best : Best ops) (d : Float)
      → ops.lt d best.distance ≡ false
      → ops.lt d (nearest_from ops person sinks i best).distance ≡ false
  unfolding nearest_from closer
  nearest_from-not_lt [] i best d h = h
  nearest_from-not_lt ((sink, c) ∷ sinks) i best d h =
      nearest_from-not_lt sinks (suc i) (closer ops person sink i best) d
        (elim (Option-cases (normalised ops person sink)) [
          | inl a ↦ ground (arith, a)
          | inr (x, a) ↦ ground (arith, a, order.transitive d x best.distance, order.irreflexive d)
        ])

  passed-not_lt :
      (sinks : List (Box × Float)) (i : ℕ) (best : Best ops) (j : ℕ) (sink : Box) (d : Float)
      → get_elem? sinks j ≡ some sink
      → normalised ops person sink ≡ some d
      → ops.lt d (nearest_from ops person sinks i best).distance ≡ false
  unfolding nearest_from closer
  passed-not_lt [] i best j sink d at e = cc
  passed-not_lt ((s, c) ∷ sinks) i best zero sink d at e =
      nearest_from-not_lt sinks (suc i) (closer ops person s i best) d
        (ground (arith, order.irreflexive d))
  passed-not_lt ((s, c) ∷ sinks) i best (suc j) sink d at e =
      passed-not_lt sinks (suc i) (closer ops person s i best) j sink d at e

  -- where the best index and distance come from
  Source : List (Box × Float) → ℕ → Best ops → Best ops → Type 0
  Source sinks i best r =
      (r ≡ best)
      ⊎ ((k : ℕ) × (sink : Box) × (r.index ≡ some (i + k))
          × (get_elem? sinks k ≡ some sink)
          × (normalised ops person sink ≡ some r.distance))

  closer_cases :
      (sink : Box) (i : ℕ) (best : Best ops)
      → (closer ops person sink i best ≡ best)
        ⊎ (((closer ops person sink i best).index ≡ some i)
            × (normalised ops person sink ≡ some (closer ops person sink i best).distance))
  unfolding closer
  closer_cases sink i best = ground arith

  nearest_from-Source :
      (sinks : List (Box × Float)) (i : ℕ) (best : Best ops)
      → Source sinks i best (nearest_from ops person sinks i best)
  unfolding Source nearest_from
  nearest_from-Source [] i best = inl refl
  nearest_from-Source ((s, c) ∷ sinks) i best =
      elim (nearest_from-Source sinks (suc i) (closer ops person s i best)) [
        | inl same ↦ elim (closer_cases s i best) [
          | inl kept ↦ inl (same ∙ kept)
          | inr (a, b) ↦ inr (0, s, rw same (a ∙ ap some (omega arith)), refl, rw same b)
        ]
        | inr (k, sink, a, b, d) ↦ inr (suc k, sink, a ∙ ap some (omega arith), b, d)
      ]

  -- An assigned sink is in the list and within the ratio, and no sink of the list is nearer.
  pub assign_person_to_sink-nearest :
      (sinks : List (Box × Float)) (ratio : Float) (i : ℕ)
      → assign_person_to_sink ops person sinks ratio ≡ some i
      → (sink : Box) × (d : Float) × (get_elem? sinks i ≡ some sink)
        × (normalised ops person sink ≡ some d)
        × (ops.le d ratio ≡ true)
        × ((j : ℕ) (other : Box) (d' : Float)
            → get_elem? sinks j ≡ some other
            → normalised ops person other ≡ some d'
            → ops.lt d' d ≡ false)
  unfolding assign_person_to_sink Source
  assign_person_to_sink-nearest sinks ratio i h =
      let start : Best ops = record { index = none; distance = ops.infinity } in
      let best = nearest_from ops person sinks 0 start in
      elim (nearest_from-Source sinks 0 start) [
        | inl same ↦ absurd (ground (arith, same))
        | inr (k, sink, a, b, d) ↦
            (let e : k ≡ i = ground (arith, a) in
              (
                sink,
                best.distance,
                rw (← e) b,
                d,
                ground (arith, a),
                λ j other d' at n. passed-not_lt sinks 0 start j other d' at n,
              ))
      ]
