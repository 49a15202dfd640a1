-- ===== src/Spinlock/Tickets.antt =====
-- `TicketSpinlock`: one thread at a time holds the lock, in the order of the tickets.
use hftperformance.Prelude.{
  ℕ, ◌+◌, ◌^◌, ◌≤◌, ◌<◌, ◌≡◌, ◌≢◌, refl, sym, ◌∙◌, List, [], ◌∷◌, ◌==◌, arith, inl, inr, Bool-cases,
  subst, length,
}
use hftperformance.Spinlock.{
  Call, lock, try_lock, TicketSpinlock, Queueing, away, waiting, looked, buying, serving,
  take_ticket, serve_next, ticket_step, Customers, run_tickets, no_customers,
}
use hftperformance.Spinlock.Fair.{
  HasTicket, Serves, Looks, Serves-HasTicket, IsFair, MayMove, IsFair-move,
}

-- A step that leaves the counters.
same_desk :
    (l : TicketSpinlock) (f : ℕ → Queueing) (i : ℕ) (p : Queueing)
    → IsFair l f
    → ((t : ℕ) → HasTicket p t → HasTicket (f i) t)
    → ((t : ℕ) → Serves p t → t ≡ l.now_serving)
    → ((c : ℕ) → Looks p c → c ≤ l.now_serving)
    → MayMove l l f i p
same_desk l f i p v old served looks = record {
  not_back = (omega arith, omega arith);
  in_order = v.ordered;
  mine = λ t h. v.tickets i t (old t h);
  mine_new = λ t h. inl (old t h);
  mine_served = served;
  mine_looks = looks;
  others = λ j t differs h. (v.tickets j t h).0;
  others_served = λ j t differs h. v.served j t h;
}

-- A step that takes the next ticket.
next_desk :
    (l : TicketSpinlock) (f : ℕ → Queueing) (i : ℕ) (p : Queueing)
    → l.next_ticket + 1 < 2 ^ 64
    → IsFair l f
    → ((t : ℕ) → HasTicket p t → t ≡ l.next_ticket)
    → ((t : ℕ) → Serves p t → t ≡ l.now_serving)
    → ((c : ℕ) → Looks p c → c ≤ l.now_serving)
    → MayMove l (take_ticket l) f i p
unfolding take_ticket
next_desk l f i p room v next served looks = record {
  not_back = (omega arith, omega (arith, room));
  in_order = omega (arith, room, v.ordered);
  mine = λ t h. (omega (arith, next t h, v.ordered), omega (arith, next t h, room));
  mine_new = λ t h. inr (omega (arith, next t h));
  mine_served = served;
  mine_looks = looks;
  others = λ j t differs h. (v.tickets j t h).0;
  others_served = λ j t differs h. v.served j t h;
}

-- The step of `unlock`.
done_desk :
    (l : TicketSpinlock) (f : ℕ → Queueing) (i t : ℕ)
    → l.next_ticket + 1 < 2 ^ 64
    → IsFair l f
    → Serves (f i) t
    → MayMove l (serve_next l) f i away
unfolding serve_next
done_desk l f i t room v mine =
    let at_desk : t ≡ l.now_serving = v.served i t mine in
    let sold : t < l.next_ticket = (v.tickets i t (Serves-HasTicket (f i) t mine)).1 in
    record {
      not_back = (omega (arith, at_desk, sold, room), omega arith);
      in_order = omega (arith, at_desk, sold, room);
      mine = λ u h. absurd h;
      mine_new = λ u h. absurd h;
      mine_served = λ u h. absurd h;
      mine_looks = λ u h. absurd h;
      others = λ j u differs h.
          let apart : u ≢ t = λ same.
            differs
              (v.apart j i t (subst (HasTicket (f j)) same h) (Serves-HasTicket (f i) t mine)) in
          let above : l.now_serving < u = ground (arith, apart, at_desk, (v.tickets j u h).0) in
          omega (arith, above, sold, at_desk, room);
      others_served = λ j u differs h.
          let same : u ≡ t = v.served j u h ∙ sym at_desk in
          absurd (
            differs (
              v.apart j i t (subst (HasTicket (f j)) same (Serves-HasTicket (f j) u h))
                (Serves-HasTicket (f i) t mine)));
    }

-- The step of a thread, while the counters do not wrap.
step-MayMove :
    (call : Call) (q : Queueing) (l : TicketSpinlock) (f : ℕ → Queueing) (i : ℕ)
    → f i ≡ q
    → l.next_ticket + 1 < 2 ^ 64
    → IsFair l f
    → MayMove l (ticket_step call q l).1 f i (ticket_step call q l).0
unfolding ticket_step
step-MayMove lock away l f i at room v =
    next_desk l f i (waiting l.next_ticket) room v (λ t h. sym h) (λ t h. absurd h)
      (λ c h. absurd h)
step-MayMove try_lock away l f i at room v =
    same_desk l f i (looked l.now_serving) v (λ t h. absurd h) (λ t h. absurd h)
      (λ c h. omega (arith, h))
step-MayMove call (waiting t) l f i at room v = elim (Bool-cases (l.now_serving == t)) [
  | inl e ↦ rw e (
      same_desk l f i (serving t) v (λ u h. subst (λ q. HasTicket q u) (sym at) h)
        (λ u h. ground (arith, e, h)) (λ c h. absurd h))
  | inr e ↦ rw e (
      same_desk l f i (waiting t) v (λ u h. subst (λ q. HasTicket q u) (sym at) h) (λ u h. absurd h)
        (λ c h. absurd h))
]
step-MayMove call (looked c) l f i at room v = elim (Bool-cases (c == l.next_ticket)) [
  | inl e ↦ rw e (
      same_desk l f i (buying c) v (λ t h. absurd h) (λ t h. absurd h)
        (λ u h. v.looks i u (subst (λ q. Looks q u) (sym at) h)))
  | inr e ↦ rw e (same_desk l f i away v (λ t h. absurd h) (λ t h. absurd h) (λ c h. absurd h))
]
step-MayMove call (buying c) l f i at room v = elim (Bool-cases (l.next_ticket == c)) [
  | inl e ↦
      let seen : c ≤ l.now_serving = v.looks i c (subst (λ q. Looks q c) (sym at) refl) in
      rw e (
        next_desk l f i (serving c) room v (λ t h. ground (arith, e, h))
          (λ t h. ground (arith, e, h, seen, v.ordered)) (λ u h. absurd h))
  | inr e ↦ rw e (same_desk l f i away v (λ t h. absurd h) (λ t h. absurd h) (λ c h. absurd h))
]
step-MayMove call (serving t) l f i at room v =
    done_desk l f i t room v (subst (λ q. Serves q t) (sym at) refl)

next_ticket-step :
    (call : Call) (q : Queueing) (l : TicketSpinlock)
    → l.next_ticket + 1 < 2 ^ 64
    → (ticket_step call q l).1.next_ticket ≤ l.next_ticket + 1
unfolding ticket_step take_ticket serve_next
next_ticket-step lock away l room = omega (arith, room)
next_ticket-step try_lock away l room = omega arith
next_ticket-step call (waiting t) l room = omega arith
next_ticket-step call (looked c) l room = omega arith
next_ticket-step call (buying c) l room = ground (arith, room)
next_ticket-step call (serving t) l room = omega arith

run_tickets-IsFair :
    (schedule : List (ℕ × Call)) (s : Customers)
    → s.desk.next_ticket + length schedule < 2 ^ 64
    → IsFair s.desk s.thread
    → IsFair (run_tickets schedule s).desk (run_tickets schedule s).thread
unfolding run_tickets
run_tickets-IsFair [] s room v = v
run_tickets-IsFair ((i, call) ∷ schedule) s room v =
    let one : s.desk.next_ticket + 1 < 2 ^ 64 = omega (arith, room) in
    run_tickets-IsFair schedule _
      (omega (arith, next_ticket-step call (s.thread i) s.desk one, room))
      (IsFair-move s.desk _ s.thread i _ v
        (step-MayMove call (s.thread i) s.desk s.thread i refl one v))

no_customers-IsFair : IsFair no_customers.desk no_customers.thread
no_customers-IsFair = record {
  ordered = omega arith;
  tickets = λ j t h. absurd h;
  apart = λ i j t h _. absurd h;
  served = λ j t h. absurd h;
  looks = λ j c h. absurd h;
}

-- For every schedule of fewer than 2 ^ 64 steps on a new lock: the ticket of a thread that holds it is below
-- that of every other thread that waits or holds. So no two threads hold it, and they come in the order of
-- their tickets.
pub run_tickets-fair :
    (schedule : List (ℕ × Call)) (i j t u : ℕ)
    → length schedule < 2 ^ 64
    → Serves ((run_tickets schedule no_customers).thread i) t
    → HasTicket ((run_tickets schedule no_customers).thread j) u
    → i ≢ j
    → t < u
run_tickets-fair schedule i j t u short holds waits differs =
    let v = run_tickets-IsFair schedule no_customers (omega (arith, short)) no_customers-IsFair in
    let f : ℕ → Queueing = (run_tickets schedule no_customers).thread in
    let apart : t ≢ u = λ same.
      differs
        (v.apart i j u (subst (HasTicket (f i)) same (Serves-HasTicket (f i) t holds)) waits) in
    ground (arith, apart, v.served i t holds, (v.tickets j u waits).0)
