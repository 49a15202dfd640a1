-- ===== src/Timestamps/Order.antt =====
-- What `aggregate` gives after a run: the recorded events in the order in which they were recorded.
use hftperformance.Prelude.{
  ℕ, zero, suc, ◌+◌, ◌%◌, ◌^◌, ◌<◌, ◌≡◌, refl, sym, ◌∙◌, ap, subst, ◌⊎◌, inl, inr, true, false,
  List, [], ◌∷◌, ◌++◌, arith, All, All-imp, Bool-cases, length, leb, ltb, if◌then◌else◌,
}
use mathlib.Core.List.{append_assoc, append-nil}
use hftperformance.Prelude.Int.{ℤ}
use hftperformance.Timestamps.{
  EventType, TimestampEvent, Buffer, Manager, no_buffers, record_event, register_new_buffer,
  record_at, all_events, insert_event, sort_events, aggregate, Step, registers, records, step,
  run_steps,
}

-- The buffer of a place, by its thread's number.
abbrev pub id_at : ℕ → List Buffer → ℕ
id_at place [] = 0
id_at zero (b ∷ bs) = b.thread_id
id_at (suc place) (b ∷ bs) = id_at place bs

-- The event that a step records.
abbrev pub event_of : ℕ → EventType → ℤ → ℕ → Manager → TimestampEvent
event_of place type time payload m = record {
  timestamp = time;
  sequence = m.global_sequence;
  payload = payload;
  type = type;
  thread_id = id_at place m.buffers;
}

-- The events of the steps that have been answered with true, in the order of the steps.
abbrev pub recorded : ℕ → Step → Manager → List TimestampEvent
recorded capacity registers m = []
recorded capacity (records place type time payload) m =
    if (step capacity (records place type time payload) m).0
    then event_of place type time payload m ∷ []
    else []

abbrev pub log : ℕ → List Step → Manager → List TimestampEvent
log capacity [] m = []
log capacity (s ∷ steps) m = recorded capacity s m ++ log capacity steps (step capacity s m).1

-- The events of the list were recorded before the number was given out.
abbrev Before : ℕ → List TimestampEvent → Type 0
Before n es = All (λ e. e.sequence < n) es

insert_last :
    (e : TimestampEvent) (es : List TimestampEvent)
    → Before e.sequence es
    → insert_event e es ≡ es ++ e ∷ []
unfolding insert_event
insert_last e [] h = refl
insert_last e (x ∷ es) h = ground (arith, h.0, insert_last e es h.1)

insert_before :
    (x e : TimestampEvent) (es : List TimestampEvent)
    → x.sequence < e.sequence
    → insert_event x (es ++ e ∷ []) ≡ insert_event x es ++ e ∷ []
unfolding insert_event
insert_before x e [] h = ground (arith, h)
insert_before x e (y ∷ es) h = ground (arith, insert_before x e es h)

Before-insert_event :
    (n : ℕ) (e : TimestampEvent) (es : List TimestampEvent)
    → e.sequence < n
    → Before n es
    → Before n (insert_event e es)
unfolding insert_event
Before-insert_event n e [] h a = (h, tt)
Before-insert_event n e (x ∷ es) h a = elim (Bool-cases (ltb x.sequence e.sequence)) [
  | inl k ↦ rw k (a.0, Before-insert_event n e es h a.1)
  | inr k ↦ rw k (h, a)
]

Before-sort_events : (n : ℕ) (es : List TimestampEvent) → Before n es → Before n (sort_events es)
unfolding sort_events
Before-sort_events n [] a = tt
Before-sort_events n (e ∷ es) a =
    Before-insert_event n e (sort_events es) a.0 (Before-sort_events n es a.1)

-- The newest event comes last, wherever it stands.
sort_newest :
    (xs ys : List TimestampEvent) (e : TimestampEvent)
    → Before e.sequence (xs ++ ys)
    → sort_events (xs ++ e ∷ ys) ≡ sort_events (xs ++ ys) ++ e ∷ []
unfolding sort_events
sort_newest [] ys e h = insert_last e (sort_events ys) (Before-sort_events e.sequence ys h)
sort_newest (x ∷ xs) ys e h =
    ap (insert_event x) (sort_newest xs ys e h.1) ∙ insert_before x e (sort_events (xs ++ ys)) h.0

-- A buffer without events adds none.
all_events-register :
    (bs : List Buffer) (b : Buffer) → b.events ≡ [] → all_events (bs ++ b ∷ []) ≡ all_events bs
unfolding all_events
all_events-register [] b e = append-nil b.events ∙ e
all_events-register (c ∷ bs) b e = ap (λ es. c.events ++ es) (all_events-register bs b e)

-- What a record does: it is refused, or the new event is put somewhere among the others.
module _ (capacity : ℕ) (type : EventType) (time : ℤ) (payload : ℕ) (sequence : ℕ) where
  abbrev made : ℕ → TimestampEvent
  made id = record {
    timestamp = time;
    sequence = sequence;
    payload = payload;
    type = type;
    thread_id = id;
  }

  record_at_cases :
      (place : ℕ) (bs : List Buffer)
      → (record_at capacity place type time payload bs sequence ≡ (false, bs, sequence))
        ⊎ ((bs' : List Buffer) × (xs : List TimestampEvent) × (ys : List TimestampEvent)
            × (record_at capacity place type time payload bs sequence
                ≡ (true, bs', (sequence + 1) % 2 ^ 64))
            × (all_events bs ≡ xs ++ ys)
            × (all_events bs' ≡ xs ++ made (id_at place bs) ∷ ys))
  unfolding record_at record_event all_events
  record_at_cases place [] = inl refl
  record_at_cases zero (b ∷ bs) = elim (Bool-cases (leb capacity (length b.events))) [
    | inl k ↦ inl (rw k refl)
    | inr k ↦ inr (
      record b { events = b.events ++ made b.thread_id ∷ [] } ∷ bs,
      b.events,
      all_events bs,
      rw k refl,
      refl,
      append_assoc b.events (made b.thread_id ∷ []) (all_events bs),
    )
  ]
  record_at_cases (suc place) (b ∷ bs) = elim (record_at_cases place bs) [
    | inl e ↦ inl (ap (λ r. (r.0, b ∷ r.1, r.2)) e)
    | inr (bs', xs, ys, e, before, after) ↦ inr (
      b ∷ bs',
      b.events ++ xs,
      ys,
      ap (λ r. (r.0, b ∷ r.1, r.2)) e,
      ap (λ es. b.events ++ es) before ∙ sym (append_assoc b.events xs ys),
      ap (λ es. b.events ++ es) after ∙ sym (append_assoc b.events xs (made (id_at place bs) ∷ ys)),
    )
  ]

-- What a step has done to the sorted events.
record Logged (capacity : ℕ) (s : Step) (m m' : Manager) : Type 0 where
  sorted :
      sort_events (all_events m'.buffers)
      ≡ sort_events (all_events m.buffers) ++ recorded capacity s m
  earlier : Before m'.global_sequence (all_events m'.buffers)
  counted : m'.global_sequence < m.global_sequence + 2

step-Logged :
    (capacity : ℕ) (s : Step) (m : Manager)
    → m.global_sequence + 1 < 2 ^ 64
    → Before m.global_sequence (all_events m.buffers)
    → Logged capacity s m (step capacity s m).1
unfolding step register_new_buffer
step-Logged capacity registers m room a =
    let same : all_events (register_new_buffer m).buffers ≡ all_events m.buffers =
      all_events-register m.buffers _ refl in
    record {
      sorted = ap sort_events same ∙ sym (append-nil (sort_events (all_events m.buffers)));
      earlier = subst (Before m.global_sequence) (sym same) a;
      counted = omega arith;
    }
step-Logged capacity (records place type time payload) m room a =
    let n : ℕ = m.global_sequence in
    let new : TimestampEvent = event_of place type time payload m in
    elim (record_at_cases capacity type time payload n place m.buffers) [
      | inl e ↦
          let none_new : recorded capacity (records place type time payload) m ≡ [] =
            ap (λ r. if r.0 then new ∷ [] else []) e in
          rw e (record {
            sorted =
                sym (append-nil (sort_events (all_events m.buffers)))
                ∙ ap (λ es. sort_events (all_events m.buffers) ++ es) (sym none_new);
            earlier = a;
            counted = omega arith;
          })
      | inr (bs', xs, ys, e, before, after) ↦
          let new_one : recorded capacity (records place type time payload) m ≡ new ∷ [] =
            ap (λ r. if r.0 then new ∷ [] else []) e in
          let next : (n + 1) % 2 ^ 64 ≡ n + 1 = omega (arith, room) in
          let others : Before n (xs ++ ys) = subst (Before n) before a in
          rw e (record {
            sorted =
                ap sort_events after
                ∙ sort_newest xs ys new others
                ∙ ap (λ es. sort_events es ++ new ∷ []) (sym before)
                ∙ ap (λ es. sort_events (all_events m.buffers) ++ es) (sym new_one);
            earlier =
                subst (λ k. Before k (all_events bs')) (sym next)
                  (subst (Before (n + 1)) (sym after) (widen xs ys new others));
            counted = omega (arith, next);
          })
    ]
  where
    widen :
        (xs ys : List TimestampEvent) (new : TimestampEvent)
        → Before new.sequence (xs ++ ys)
        → Before (new.sequence + 1) (xs ++ new ∷ ys)
    widen [] ys new h = (omega arith, All-imp _ _ (λ x lt. omega (arith, lt)) ys h)
    widen (x ∷ xs) ys new h = (omega (arith, h.0), widen xs ys new h.1)

run_steps-log :
    (capacity : ℕ) (steps : List Step) (m : Manager)
    → m.global_sequence + length steps < 2 ^ 64
    → Before m.global_sequence (all_events m.buffers)
    → sort_events (all_events (run_steps capacity steps m).buffers)
      ≡ sort_events (all_events m.buffers) ++ log capacity steps m
unfolding run_steps
run_steps-log capacity [] m room a = sym (append-nil (sort_events (all_events m.buffers)))
run_steps-log capacity (s ∷ steps) m room a =
    let one = step-Logged capacity s m (omega (arith, room)) a in
    let m' : Manager = (step capacity s m).1 in
    run_steps-log capacity steps m' (omega (arith, room, one.counted)) one.earlier
    ∙ ap (λ es. es ++ log capacity steps m') one.sorted
    ∙ append_assoc (sort_events (all_events m.buffers)) (recorded capacity s m)
        (log capacity steps m')

-- After any schedule of fewer than 2 ^ 64 steps, in which threads register and record on new buffers,
-- `aggregate` sorted by sequence gives exactly the events of the calls that `record` has answered with true,
-- in the order of the calls, each with its thread's number.
pub aggregate-run_steps :
    (capacity : ℕ) (steps : List Step)
    → length steps < 2 ^ 64
    → aggregate true (run_steps capacity steps no_buffers) ≡ log capacity steps no_buffers
unfolding aggregate all_events sort_events
aggregate-run_steps capacity steps few =
    run_steps-log capacity steps no_buffers (omega (arith, few)) tt
