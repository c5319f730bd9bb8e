-- ===== src/Ingestion/Counts.antt =====
-- The counters and the frame ids of the ingestion loop agree, and every way out releases the source.
use boars_head_compliance_de.Prelude.{
  ℕ, zero, suc, ◌+◌, ◌≡◌, refl, ap, sym, ◌∙◌, Bool, true, false, List, [], ◌∷◌, ◌++◌, map, All,
  All-append, arith, if◌then◌else◌, Bool-cases, inl, inr, leb, ◌⊎◌, Option-cases, some,
}
use boars_head_compliance_de.Ingestion.{
  Image, validate, should_process, FrameEvent, Reading, raises, end_of_stream, temporary_failure,
  frame_read, Round, Exit, stopped, running, Service, publish_frame, receive_frame, handle_frame,
  set_connected, handle_reading, pass, loop, run,
}

-- 1, 2, …, n
abbrev pub count_up : ℕ → List ℕ
count_up zero = []
count_up (suc n) = count_up n ++ suc n ∷ []

abbrev pub ids : List FrameEvent → List ℕ
ids = map (λ (e : FrameEvent). e.frame_id)

abbrev pub AllValid : List FrameEvent → Type 0
AllValid = All (λ (e : FrameEvent). validate e.frame ≡ true)

pub record IsConsistent (s : Service) : Type 0 where
  pub numbered : ids s.published ≡ count_up s.frame_id
  pub valid : AllValid s.published
  pub sampled : s.metrics.frames_sampled_total ≡ s.frame_id
  pub kept : s.sampler.frames_sampled ≡ s.frame_id
  pub received : s.metrics.frames_received_total ≡ s.raw_frame_count
  pub checked :
      s.metrics.frames_received_total ≡ s.metrics.invalid_frames_total + s.sampler.frames_checked

ids-append :
    (xs : List FrameEvent) (e : FrameEvent) → ids (xs ++ e ∷ []) ≡ ids xs ++ e.frame_id ∷ []
ids-append [] e = refl
ids-append (x ∷ xs) e = ap (λ ns. x.frame_id ∷ ns) (ids-append xs e)

abbrev event_of : Image → Round → Service → FrameEvent
event_of image r s = record {
  camera_id = s.camera_id;
  frame_id = s.frame_id + 1;
  captured_at = r.now;
  received_at = r.now;
  frame = image;
  correlation_id = r.correlation_id;
  session_id = r.session_id;
  source_fps = r.native_fps;
}

count_up-next : (n : ℕ) → count_up (n + 1) ≡ count_up n ++ (n + 1) ∷ []
count_up-next n = let e : n + 1 ≡ suc n = omega arith in rw e refl

-- the records that one more frame leaves
publish_frame-numbered :
    (image : Image) (r : Round) (s : Service)
    → ids s.published ≡ count_up s.frame_id
    → ids (publish_frame image r s).published ≡ count_up (publish_frame image r s).frame_id
unfolding publish_frame
publish_frame-numbered image r s h =
    ids-append s.published (event_of image r s)
    ∙ ap (λ ns. ns ++ (s.frame_id + 1) ∷ []) h
    ∙ sym (count_up-next s.frame_id)

publish_frame-AllValid :
    (image : Image) (r : Round) (s : Service)
    → validate image ≡ true
    → AllValid s.published
    → AllValid (publish_frame image r s).published
unfolding publish_frame
publish_frame-AllValid image r s e h =
    All-append (λ (e : FrameEvent). validate e.frame ≡ true) s.published (event_of image r s ∷ []) h
      (e, tt)

-- a frame that the sampler keeps is published
publish_frame-IsConsistent :
    (image : Image) (r : Round) (s : Service)
    → validate image ≡ true
    → ids s.published ≡ count_up s.frame_id
    → AllValid s.published
    → s.metrics.frames_sampled_total ≡ s.frame_id
    → s.sampler.frames_sampled ≡ s.frame_id + 1
    → s.metrics.frames_received_total ≡ s.raw_frame_count
    → s.metrics.frames_received_total ≡ s.metrics.invalid_frames_total + s.sampler.frames_checked
    → IsConsistent (publish_frame image r s)
unfolding publish_frame
publish_frame-IsConsistent image r s e numbered valid sampled kept received checked = record {
  numbered = publish_frame-numbered image r s numbered;
  valid = publish_frame-AllValid image r s e valid;
  sampled = omega (arith, sampled);
  kept = kept;
  received = received;
  checked = checked;
}

-- a frame is counted, and is invalid, or not sampled, or published
handle_frame-IsConsistent :
    (image : Image) (r : Round) (s : Service)
    → IsConsistent s
    → IsConsistent (handle_frame image r s)
unfolding handle_frame receive_frame should_process
handle_frame-IsConsistent image r s h = elim (Bool-cases (validate image)) [
  | inr e ↦ rw e (record {
    numbered = h.numbered;
    valid = h.valid;
    sampled = h.sampled;
    kept = h.kept;
    received = omega (arith, h.received);
    checked = omega (arith, h.checked);
  })
  | inl e ↦ elim (Bool-cases (leb (s.sampler.last_kept + s.sampler.interval) r.monotonic)) [
    | inr k ↦ rw e (
        rw k (record {
          numbered = h.numbered;
          valid = h.valid;
          sampled = h.sampled;
          kept = h.kept;
          received = omega (arith, h.received);
          checked = omega (arith, h.checked);
        }))
    | inl k ↦ rw e (
        rw k (
          publish_frame-IsConsistent image r _ e h.numbered h.valid h.sampled
            (omega (arith, h.kept)) (omega (arith, h.received)) (omega (arith, h.checked))))
  ]
]

-- the connection plays no part
connection-IsConsistent :
    (connected : Bool) (reconnects : ℕ) (closed : Bool) (s : Service)
    → IsConsistent s
    → IsConsistent (record s {
      metrics = record s.metrics { stream_connected = connected; reconnect_count = reconnects };
      closed = closed;
    })
connection-IsConsistent connected reconnects closed s h = record {
  numbered = h.numbered;
  valid = h.valid;
  sampled = h.sampled;
  kept = h.kept;
  received = h.received;
  checked = h.checked;
}

handle_reading-IsConsistent :
    (reading : Reading) (r : Round) (s : Service)
    → IsConsistent s
    → IsConsistent (handle_reading reading r s).1
unfolding handle_reading
handle_reading-IsConsistent raises r s h = h
handle_reading-IsConsistent end_of_stream r s h = h
handle_reading-IsConsistent (temporary_failure true) r s h =
    connection-IsConsistent true (s.metrics.reconnect_count + 1) s.closed s h
handle_reading-IsConsistent (temporary_failure false) r s h =
    connection-IsConsistent false s.metrics.reconnect_count s.closed s h
handle_reading-IsConsistent (frame_read image) r s h = handle_frame-IsConsistent image r s h

pass-IsConsistent : (r : Round) (s : Service) → IsConsistent s → IsConsistent (pass r s).1
unfolding pass
pass-IsConsistent r s h =
    elim r.stop_set
      as (λ b. IsConsistent (if b then (some stopped, s) else handle_reading r.reading r s).1) [
        | true ↦ h
        | false ↦ handle_reading-IsConsistent r.reading r s h
      ]

-- one more pass, by whether it ends the loop
pub loop_cases :
    (r : Round) (rounds : List Round) (s : Service)
    → ((e : Exit) × (loop (r ∷ rounds) s ≡ (e, (pass r s).1)))
      ⊎ (loop (r ∷ rounds) s ≡ loop rounds (pass r s).1)
unfolding loop
loop_cases r rounds s = elim (Option-cases (pass r s).0) [
  | inl e ↦ inr (rw (e, loop) refl)
  | inr (x, e) ↦ inl (x, rw (e, loop) refl)
]

loop-IsConsistent :
    (rounds : List Round) (s : Service) → IsConsistent s → IsConsistent (loop rounds s).1
unfolding loop
loop-IsConsistent [] s h = h
loop-IsConsistent (r ∷ rounds) s h = elim (loop_cases r rounds s) [
  | inl (e, p) ↦ rw p (pass-IsConsistent r s h)
  | inr p ↦ rw p (loop-IsConsistent rounds (pass r s).1 (pass-IsConsistent r s h))
]

-- what `run` makes of the loop's way out
run_cases :
    (rounds : List Round) (s : Service)
    → ((run rounds s).0 ≡ running) × ((run rounds s).1 ≡ (loop rounds (set_connected true s)).1)
      ⊎ ((run rounds s).1
          ≡ record (set_connected false (loop rounds (set_connected true s)).1) { closed = true })
unfolding run
run_cases rounds s = ground arith

abbrev pub Released : Exit → Service → Type 0
Released exit s = (exit ≡ running) ⊎ ((s.closed ≡ true) × (s.metrics.stream_connected ≡ false))

-- Whatever the source, the clocks and `stop` do, a run of the service keeps its counters in
-- agreement: the events published are numbered 1, 2, … and hold valid frames only, they are as many
-- as the sampler kept, every frame read is invalid or was shown to the sampler. On every way out
-- (end of stream, stop, no reconnect, an exception) the source is closed and counts as disconnected.
pub run-IsConsistent :
    (rounds : List Round) (s : Service)
    → IsConsistent s
    → IsConsistent (run rounds s).1 × Released (run rounds s).0 (run rounds s).1
run-IsConsistent rounds s h =
    let start = connection-IsConsistent true s.metrics.reconnect_count s.closed s h in
    let s' = (loop rounds (set_connected true s)).1 in
    let h' = loop-IsConsistent rounds (set_connected true s) start in
    elim (run_cases rounds s) [
      | inl (e, p) ↦ (rw p h', inl e)
      | inr p ↦ (
        rw p (connection-IsConsistent false s'.metrics.reconnect_count true s' h'),
        inr (rw p (refl, refl)),
      )
    ]
