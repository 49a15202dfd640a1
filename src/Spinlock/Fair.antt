-- ===== src/Spinlock/Fair.antt =====
-- `TicketSpinlock`: the invariant on tickets, and what a step may do to keep it.
use hftperformance.Prelude.{
  ℕ, ◌≤◌, ◌<◌, ◌≡◌, ◌≢◌, ◌⊎◌, refl, sym, ◌∙◌, ◌==◌, arith, inl, inr, Bool-cases, update, subst,
}
use hftperformance.Spinlock.{TicketSpinlock, Queueing, away, waiting, looked, buying, serving}

-- The thread has the ticket; it holds the lock with the ticket; it has read the number in `try_lock`.
abbrev pub HasTicket : Queueing → ℕ → Type 0
HasTicket (waiting t) u = t ≡ u
HasTicket (serving t) u = t ≡ u
HasTicket _ u = ⊥

abbrev pub Serves : Queueing → ℕ → Type 0
Serves (serving t) u = t ≡ u
Serves _ u = ⊥

abbrev pub Looks : Queueing → ℕ → Type 0
Looks (looked c) u = c ≡ u
Looks (buying c) u = c ≡ u
Looks _ u = ⊥

pub Serves-HasTicket : (q : Queueing) (t : ℕ) → Serves q t → HasTicket q t
Serves-HasTicket away t h = h
Serves-HasTicket (waiting u) t h = absurd h
Serves-HasTicket (looked u) t h = h
Serves-HasTicket (buying u) t h = h
Serves-HasTicket (serving u) t h = h

-- The tickets of the threads are different numbers from the one served up to the next one; who holds the lock
-- has the one served.
pub record IsFair (l : TicketSpinlock) (f : ℕ → Queueing) : Type 0 where
  pub ordered : l.now_serving ≤ l.next_ticket
  pub tickets : (j t : ℕ) → HasTicket (f j) t → (l.now_serving ≤ t) × (t < l.next_ticket)
  pub apart : (i j t : ℕ) → HasTicket (f i) t → HasTicket (f j) t → i ≡ j
  pub served : (j t : ℕ) → Serves (f j) t → t ≡ l.now_serving
  pub looks : (j c : ℕ) → Looks (f j) c → c ≤ l.now_serving

-- What thread `i` may do with its step, to be at `p` with the lock as `m`.
pub record MayMove (l m : TicketSpinlock) (f : ℕ → Queueing) (i : ℕ) (p : Queueing) : Type 0 where
  pub not_back : (l.now_serving ≤ m.now_serving) × (l.next_ticket ≤ m.next_ticket)
  pub in_order : m.now_serving ≤ m.next_ticket
  pub mine : (t : ℕ) → HasTicket p t → (m.now_serving ≤ t) × (t < m.next_ticket)
  pub mine_new : (t : ℕ) → HasTicket p t → HasTicket (f i) t ⊎ (l.next_ticket ≤ t)
  pub mine_served : (t : ℕ) → Serves p t → t ≡ m.now_serving
  pub mine_looks : (c : ℕ) → Looks p c → c ≤ m.now_serving
  pub others : (j t : ℕ) → j ≢ i → HasTicket (f j) t → m.now_serving ≤ t
  pub others_served : (j t : ℕ) → j ≢ i → Serves (f j) t → t ≡ m.now_serving

-- Where a thread is after a step of thread `i`.
after_update :
    (f : ℕ → Queueing) (i : ℕ) (p : Queueing) (j : ℕ)
    → ((j ≡ i) × (update f i p j ≡ p)) ⊎ ((j ≢ i) × (update f i p j ≡ f j))
after_update f i p j = elim (Bool-cases (j == i)) [
  | inl e ↦ inl (ground (arith, e), rw e refl)
  | inr e ↦ inr ((λ same. ground (arith, e, same)), rw e refl)
]

pub IsFair-move :
    (l m : TicketSpinlock) (f : ℕ → Queueing) (i : ℕ) (p : Queueing)
    → IsFair l f
    → MayMove l m f i p
    → IsFair m (update f i p)
IsFair-move l m f i p v w = record {
  ordered = w.in_order;
  tickets = λ j t h. elim (after_update f i p j) [
    | inl (_, now) ↦ w.mine t (subst (λ q. HasTicket q t) now h)
    | inr (differs, now) ↦
        let old : HasTicket (f j) t = subst (λ q. HasTicket q t) now h in
        (w.others j t differs old, omega (arith, (v.tickets j t old).1, w.not_back.1))
  ];
  apart = λ j k t hj hk. elim (after_update f i p j) [
    | inl (is_i, now) ↦ elim (after_update f i p k) [
      | inl (also_i, _) ↦ is_i ∙ sym also_i
      | inr (differs, then_k) ↦
          let old : HasTicket (f k) t = subst (λ q. HasTicket q t) then_k hk in
          elim (w.mine_new t (subst (λ q. HasTicket q t) now hj)) [
            | inl before ↦ is_i ∙ v.apart i k t before old
            | inr above ↦ absurd (omega (arith, above, (v.tickets k t old).1))
          ]
    ]
    | inr (differs, now) ↦
        let old : HasTicket (f j) t = subst (λ q. HasTicket q t) now hj in
        elim (after_update f i p k) [
          | inl (is_i, then_k) ↦ elim (w.mine_new t (subst (λ q. HasTicket q t) then_k hk)) [
            | inl before ↦ v.apart j i t old before ∙ sym is_i
            | inr above ↦ absurd (omega (arith, above, (v.tickets j t old).1))
          ]
          | inr (_, then_k) ↦ v.apart j k t old (subst (λ q. HasTicket q t) then_k hk)
        ]
  ];
  served = λ j t h. elim (after_update f i p j) [
    | inl (_, now) ↦ w.mine_served t (subst (λ q. Serves q t) now h)
    | inr (differs, now) ↦ w.others_served j t differs (subst (λ q. Serves q t) now h)
  ];
  looks = λ j c h. elim (after_update f i p j) [
    | inl (_, now) ↦ w.mine_looks c (subst (λ q. Looks q c) now h)
    | inr (_, now) ↦ omega (arith, v.looks j c (subst (λ q. Looks q c) now h), w.not_back.0)
  ];
}
