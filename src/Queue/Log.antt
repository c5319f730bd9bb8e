-- ===== src/Queue/Log.antt =====
-- What the message queue promises: each topic is a log, and its readers skip what does not fit.
use boars_head_compliance_de.Prelude.{
  ℕ, suc, ◌+◌, ◌-◌, ◌≤◌, ◌<◌, ◌≡◌, refl, ap, sym, ◌∙◌, ◌⊎◌, inl, inr, true, false, Option, none,
  some, List, [], ◌∷◌, ◌++◌, arith, length, drop, drop_zero, get_elem?, get_elem?-none, length-drop,
  drop-nil, drop-cons, drop-append, length-append, ◌==◌, max, Bool-cases, if◌then◌else◌,
}
use boars_head_compliance_de.Prelude.Dict.{string_eq}
use boars_head_compliance_de.Queue.{Buffer, is_full, get_nowait, offer, undisturbed}
use boars_head_compliance_de.Queue.Loop.{
  IsWithin, free_puts, full_evicts, is_full-false, is_full_iff, room-IsWithin, get_nowait-cases,
}

-- all that was published, the number of the next item to read, and how many were skipped unread
pub record Log {ℓ} (A : Type ℓ) : Type ℓ where
  pub stream : List A
  pub head : ℕ
  pub skipped : ℕ

module _ {ℓ} {A : Type ℓ} (max_size : ℕ) where
  -- the reader keeps within `max_size` items of the end, if there is a bound
  abbrev pub append : A → Log A → Log A
  append message l =
      let stream = l.stream ++ message ∷ [] in
      let head = if max_size == 0 then l.head else max l.head (length stream - max_size) in
      record { stream = stream; head = head; skipped = l.skipped + (head - l.head) }

  abbrev pub next : Log A → Option A × Log A
  next l = elim (get_elem? l.stream l.head) [
    | none ↦ (none, l)
    | some x ↦ (some x, record l { head = l.head + 1 })
  ]

  -- The buffer holds the part of the log that is not read.
  pub record Represents (l : Log A) (b : Buffer A) : Type ℓ where
    pub items : b.items ≡ drop l.head l.stream
    pub dropped : b.dropped ≡ l.skipped
    pub read : l.head ≤ length l.stream
    pub within : IsWithin max_size b.items

  offer-free :
      (m : A) (b : Buffer A)
      → is_full max_size b.items ≡ false
      → offer max_size m b ≡ some (record b { items = b.items ++ m ∷ [] })
  unfolding offer
  offer-free m b e =
      let same = drop_zero b.items in
      free_puts max_size undisturbed m 1 0 b (rw same e)
      ∙ ap (λ xs. some (record b { items = xs ++ m ∷ [] })) same

  offer-full :
      (m x : A) (rest : List A) (b : Buffer A)
      → IsWithin max_size b.items
      → is_full max_size b.items ≡ true
      → b.items ≡ x ∷ rest
      → offer max_size m b ≡ some (record { items = rest ++ m ∷ []; dropped = b.dropped + 1 })
  unfolding offer get_nowait
  offer-full m x rest b w full e =
      let same = drop_zero b.items in
      let two = ap (λ xs. drop 0 xs) same ∙ same ∙ e in
      let left : Buffer A = record { items = rest; dropped = b.dropped + 1 } in
      let short : length rest < max_size =
        ground (arith, w, ap length e, (is_full_iff max_size undisturbed m b.items full).0) in
      full_evicts max_size undisturbed m 1 0 b x rest (rw same full) (rw two refl)
      ∙ free_puts max_size undisturbed m 0 2 left
          (is_full-false max_size undisturbed m (drop 0 rest) (inr (rw (drop_zero rest) short)))
      ∙ ap (λ xs. some (record left { items = xs ++ m ∷ [] })) (drop_zero rest)

  head-free :
      (m : A) (l : Log A) (b : Buffer A)
      → Represents l b
      → is_full max_size b.items ≡ false
      → (append m l).head ≡ l.head
  unfolding is_full
  head-free m l b h free =
      ground
        (arith, length-append l.stream (m ∷ []), length-drop l.head l.stream, ap length h.items)

  head-full :
      (m : A) (l : Log A) (b : Buffer A)
      → Represents l b
      → is_full max_size b.items ≡ true
      → (append m l).head ≡ suc l.head
  unfolding is_full
  head-full m l b h full = ground (
    arith,
    h.within,
    length-append l.stream (m ∷ []),
    length-drop l.head l.stream,
    ap length h.items,
  )

  abbrev Appended : A → Log A → Buffer A → Type ℓ
  Appended m l b = (b' : Buffer A) × (offer max_size m b ≡ some b') × Represents (append m l) b'

  free_Appended :
      (m : A) (l : Log A) (b : Buffer A)
      → Represents l b
      → is_full max_size b.items ≡ false
      → Appended m l b
  free_Appended m l b h free =
      let hd = head-free m l b h free in
      (
        record b { items = b.items ++ m ∷ [] },
        offer-free m b free,
        record {
          items =
              ap (λ xs. xs ++ m ∷ []) h.items
              ∙ sym (drop-append l.head l.stream (m ∷ []) h.read)
              ∙ ap (λ n. drop n (l.stream ++ m ∷ [])) (sym hd);
          dropped = omega (arith, hd, h.dropped);
          read = omega (arith, hd, h.read, length-append l.stream (m ∷ []));
          within = room-IsWithin max_size undisturbed m b.items free;
        },
      )

  full_Appended :
      (m x : A) (rest : List A) (l : Log A) (b : Buffer A)
      → Represents l b
      → is_full max_size b.items ≡ true
      → b.items ≡ x ∷ rest
      → Appended m l b
  full_Appended m x rest l b h full e =
      let hd = head-full m l b h full in
      let left = drop-cons l.head l.stream (sym h.items ∙ e) in
      let len = ap length e in
      (
        record { items = rest ++ m ∷ []; dropped = b.dropped + 1 },
        offer-full m x rest b h.within full e,
        record {
          items =
              ap (λ xs. xs ++ m ∷ []) (sym left.1)
              ∙ sym (
                  drop-append (suc l.head) l.stream (m ∷ [])
                    (omega (arith, len, ap length h.items, length-drop l.head l.stream)))
              ∙ ap (λ n. drop n (l.stream ++ m ∷ [])) (sym hd);
          dropped = omega (arith, hd, h.dropped);
          read = omega (arith, hd, h.read, length-append l.stream (m ∷ []));
          within = ground (arith, h.within, len, length-append rest (m ∷ []));
        },
      )

  -- A message that is offered is appended to the log, with the same messages skipped.
  pub offer-Represents :
      (m : A) (l : Log A) (b : Buffer A)
      → Represents l b
      → (b' : Buffer A) × (offer max_size m b ≡ some b') × Represents (append m l) b'
  offer-Represents m l b h = elim (Bool-cases (is_full max_size b.items)) [
    | inr free ↦ free_Appended m l b h free
    | inl full ↦ elim (get_nowait-cases b.items) [
      | inl (g, e) ↦
          absurd (omega (arith, is_full_iff max_size undisturbed m b.items full, ap length e))
      | inr (x, rest, g, e) ↦ full_Appended m x rest l b h full e
    ]
  ]

  -- Reading takes the next item of the log.
  pub next-Represents :
      (l : Log A) (b : Buffer A)
      → Represents l b
      → ((b.items ≡ []) × (next l ≡ (none, l)))
        ⊎ ((x : A) × (rest : List A) × (b.items ≡ x ∷ rest)
            × (next l ≡ (some x, record l { head = l.head + 1 }))
            × Represents (next l).1 (record b { items = rest }))
  next-Represents l b h = elim (get_nowait-cases b.items) [
    | inl (g, e) ↦ inl (
      e,
      rw (get_elem?-none l.head l.stream (drop-nil l.head l.stream (sym h.items ∙ e)), next) refl,
    )
    | inr (x, rest, g, e) ↦
        (let left = drop-cons l.head l.stream (sym h.items ∙ e) in
          let read : next l ≡ (some x, record l { head = l.head + 1 }) = rw (left.0, next) refl in
          inr (
            x,
            rest,
            e,
            read,
            rw read (record {
              items = sym left.1 ∙ ap (λ n. drop n l.stream) (omega arith);
              dropped = h.dropped;
              read = omega (arith, ap length e, ap length h.items, length-drop l.head l.stream);
              within = ground (arith, h.within, ap length e);
            }),
          ))
  ]
