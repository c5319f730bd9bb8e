-- ===== src/Queue/Loop.antt =====
-- The loop of `put` ends, whatever another thread takes from the queue in the meantime.
use boars_head_compliance_de.Prelude.{
  ℕ, suc, ◌+◌, ◌≤◌, ◌<◌, ◌≡◌, refl, ap, sym, ◌∙◌, ◌⊎◌, inl, inr, true, false, none, some, List, [],
  ◌∷◌, ◌++◌, arith, length, drop, length-drop, drop-drop, drop-cons, length-append, Bool-cases,
}
use boars_head_compliance_de.Queue.{Buffer, is_full, put_nowait, get_nowait, put_loop}

-- a queue never holds more than its bound, where it has one
abbrev pub IsWithin {ℓ} : {A : Type ℓ} → ℕ → List A → Type 0
IsWithin max_size items = (max_size ≡ 0) ⊎ (length items ≤ max_size)

pub get_nowait-cases {ℓ} :
    {A : Type ℓ} (xs : List A)
    → ((get_nowait xs ≡ none) × (xs ≡ []))
      ⊎ ((x : A) × (rest : List A) × (get_nowait xs ≡ some (x, rest)) × (xs ≡ x ∷ rest))
unfolding get_nowait
get_nowait-cases [] = inl (refl, refl)
get_nowait-cases (x ∷ xs) = inr (x, xs, refl, refl)

module _ {ℓ} {A : Type ℓ} (max_size : ℕ) (takes : ℕ → ℕ) (item : A) where
  pub room-IsWithin :
      (xs : List A) → is_full max_size xs ≡ false → IsWithin max_size (xs ++ item ∷ [])
  unfolding is_full
  room-IsWithin xs h = ground (arith, length-append xs (item ∷ []))

  put_nowait-full : (xs : List A) → is_full max_size xs ≡ true → put_nowait max_size item xs ≡ none
  unfolding put_nowait
  put_nowait-full xs e = ground arith

  put_nowait-free :
      (xs : List A)
      → is_full max_size xs ≡ false
      → put_nowait max_size item xs ≡ some (xs ++ item ∷ [])
  unfolding put_nowait
  put_nowait-free xs e = ground arith

  pub free_puts :
      (r t : ℕ) (b : Buffer A)
      → is_full max_size (drop (takes t) b.items) ≡ false
      → put_loop max_size (suc r) takes t item b
        ≡ some (record b { items = drop (takes t) b.items ++ item ∷ [] })
  unfolding put_loop
  free_puts r t b e = rw (put_nowait-free (drop (takes t) b.items) e, put_loop) refl

  full_retries :
      (r t : ℕ) (b : Buffer A)
      → is_full max_size (drop (takes t) b.items) ≡ true
      → get_nowait (drop (takes (t + 1)) (drop (takes t) b.items)) ≡ none
      → put_loop max_size (suc r) takes t item b
        ≡ put_loop max_size r takes (t + 2) item (record b { items = [] })
  unfolding put_loop
  full_retries r t b e g =
      rw (put_nowait-full (drop (takes t) b.items) e, put_loop) (rw (g, put_loop) refl)

  pub full_evicts :
      (r t : ℕ) (b : Buffer A) (x : A) (rest : List A)
      → is_full max_size (drop (takes t) b.items) ≡ true
      → get_nowait (drop (takes (t + 1)) (drop (takes t) b.items)) ≡ some (x, rest)
      → put_loop max_size (suc r) takes t item b
        ≡ put_loop max_size r takes (t + 2) item (record { items = rest; dropped = b.dropped + 1 })
  unfolding put_loop
  full_evicts r t b x rest e g =
      rw (put_nowait-full (drop (takes t) b.items) e, put_loop) (rw (g, put_loop) refl)

  pub is_full-false :
      (xs : List A) → (max_size ≡ 0) ⊎ (length xs < max_size) → is_full max_size xs ≡ false
  unfolding is_full
  is_full-false xs h = ground arith

  pub is_full_iff :
      (xs : List A) → is_full max_size xs ≡ true → (0 < max_size) × (max_size ≤ length xs)
  unfolding is_full
  is_full_iff xs h = ground arith

  -- what is left after one `put`: the items but some at the front, and the new one
  abbrev pub Added : Buffer A → Buffer A → Type ℓ
  Added b b' =
      (k : ℕ) × (b'.items ≡ drop k b.items ++ item ∷ [])
      × (b.dropped ≤ b'.dropped)
      × (b'.dropped ≤ b.dropped + 1)
      × (b'.dropped ≤ b.dropped + k)
      × IsWithin max_size b'.items

  -- the outcome of a loop that runs `rounds` times at most
  abbrev Ends : ℕ → ℕ → Buffer A → Type ℓ
  Ends rounds t b =
      (b' : Buffer A) × (put_loop max_size rounds takes t item b ≡ some b') × Added b b'

  retry-Ends :
      (r t : ℕ) (b : Buffer A)
      → is_full max_size (drop (takes t) b.items) ≡ true
      → get_nowait (drop (takes (t + 1)) (drop (takes t) b.items)) ≡ none
      → drop (takes (t + 1)) (drop (takes t) b.items) ≡ []
      → Ends (suc (suc r)) t b
  retry-Ends r t b full g e =
      let free : is_full max_size [] ≡ false =
        is_full-false [] (inr (is_full_iff (drop (takes t) b.items) full).0) in
      let gone = sym e ∙ drop-drop (takes (t + 1)) (takes t) b.items in
      (
        record b { items = item ∷ [] },
        full_retries (suc r) t b full g ∙ free_puts r (t + 2) (record b { items = [] }) free,
        (
          takes t + takes (t + 1),
          ap (λ z. z ++ item ∷ []) gone,
          omega arith,
          omega arith,
          omega arith,
          room-IsWithin [] free,
        ),
      )

  evict-Ends :
      (r t : ℕ) (b : Buffer A) (x : A) (rest : List A)
      → IsWithin max_size b.items
      → is_full max_size (drop (takes t) b.items) ≡ true
      → get_nowait (drop (takes (t + 1)) (drop (takes t) b.items)) ≡ some (x, rest)
      → drop (takes (t + 1)) (drop (takes t) b.items) ≡ x ∷ rest
      → Ends (suc (suc r)) t b
  evict-Ends r t b x rest w full g e =
      let later = takes t + takes (t + 1) in
      let final = drop (takes (t + 2)) rest in
      let left : drop later b.items ≡ x ∷ rest =
        sym (drop-drop (takes (t + 1)) (takes t) b.items) ∙ e in
      let short : length final < max_size = ground (
        arith,
        length-drop (takes (t + 2)) rest,
        length-drop later b.items,
        ap length left,
        (is_full_iff (drop (takes t) b.items) full).0,
      ) in
      let free : is_full max_size final ≡ false = is_full-false final (inr short) in
      (
        record { items = final ++ item ∷ []; dropped = b.dropped + 1 },
        full_evicts (suc r) t b x rest full g
            ∙ free_puts r (t + 2) (record { items = rest; dropped = b.dropped + 1 }) free,
        (
          suc later + takes (t + 2),
          ap (λ z. z ++ item ∷ [])
              (ap (λ z. drop (takes (t + 2)) z) (sym (drop-cons later b.items left).1)
                ∙ drop-drop (takes (t + 2)) (suc later) b.items),
          omega arith,
          omega arith,
          omega arith,
          room-IsWithin final free,
        ),
      )

  -- A `put` into a queue within its bound ends after at most two rounds, whatever another thread
  -- takes: the items are those before but some at the front, followed by the new one, they are
  -- within the bound, and at most one item counts as dropped, and none if none is gone.
  pub put_loop-ends :
      (r t : ℕ) (b : Buffer A)
      → IsWithin max_size b.items
      → (b' : Buffer A) × (put_loop max_size (suc (suc r)) takes t item b ≡ some b') × Added b b'
  put_loop-ends r t b w =
      let before = drop (takes t) b.items in
      elim (Bool-cases (is_full max_size before)) [
        | inr free ↦ (
          record b { items = before ++ item ∷ [] },
          free_puts (suc r) t b free,
          (takes t, refl, omega arith, omega arith, omega arith, room-IsWithin before free),
        )
        | inl full ↦ elim (get_nowait-cases (drop (takes (t + 1)) before)) [
          | inl (g, e) ↦ retry-Ends r t b full g e
          | inr (x, rest, g, e) ↦ evict-Ends r t b x rest w full g e
        ]
      ]
