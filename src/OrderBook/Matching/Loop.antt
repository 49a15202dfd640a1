-- ===== src/OrderBook/Matching/Loop.antt =====
-- The inner loop at one price level implements `take_queue`, and keeps the level, the index and the
-- pool right.
use hftperformance.Prelude.{
  ℕ, zero, suc, ◌<◌, ◌≡◌, refl, sym, ◌∙◌, ap, List, [], ◌∷◌, some, Bool, true, false, arith, NotIn,
  NotIn-append_left, length, inl, inr,
}
use mathlib.Core.Path.{ap₂}
use hftperformance.Prelude.Int.{ℤ, pos, ◌+ℤ◌, ◌-ℤ◌, ◌≤ℤ◌, ◌<ℤ◌, le_or_lt, int_laws, +ℤ_zero}
use hftperformance.Types.{Side}
use hftperformance.PriceLevel.{Store, PriceLevel, front, empty}
use hftperformance.PriceLevel.Queue.{IsQueue, empty-front}
use hftperformance.OrderBook.Matching.{Desk, match_front, match_level, level_goes_on}
use hftperformance.OrderBook.Matching.Accounts.{id_of}
use hftperformance.OrderBook.Matching.Trade.{remaining_at, SameTerms-refl, SameTerms-trans}
use hftperformance.OrderBook.Matching.Reference.{Deal, take_queue, sum_deals}
use hftperformance.OrderBook.Matching.Level.{resting_of, view, AtLevel}
use hftperformance.OrderBook.Matching.Told.{deal_of, Tells, Tells-refl, Tells-trans}
use hftperformance.OrderBook.Matching.Step.{
  Keeps, filled, partial, match_front-Outcome, match_front-Keeps, match_front-behind,
}

-- What the loop has done when it stops.
pub record LevelRun (reporting : Bool) (side : Side) (price : ℤ) (a : ℕ) (others : List ℕ)
    (d : Desk) (xs : List ℕ) (res : PriceLevel × Desk) : Type 0 where
  pub left : List ℕ
  pub free : List ℕ
  pub deals : List Deal
  pub at_level : AtLevel side price a others res.0 res.1 left free
  pub keeps : Keeps a xs d res.1
  pub fewer : (m : ℕ) → NotIn m xs → NotIn m left
  pub takes :
      take_queue price (remaining_at d.store a) (view d.store xs)
      ≡ (remaining_at res.1.store a, view res.1.store left, deals)
  pub volume : res.1.volume_matched ≡ d.volume_matched +ℤ sum_deals deals
  pub told : Tells reporting (id_of d.store a) deals d res.1
  pub stops : level_goes_on a res ≡ false

-- A loop whose test fails does nothing more, whatever its fuel.
match_level-stopped :
    (reporting : Bool) (time : ℤ) (a fuel : ℕ) (st : PriceLevel × Desk)
    → level_goes_on a st ≡ false
    → match_level reporting time a fuel st ≡ st
unfolding match_level
match_level-stopped reporting time a zero st h = refl
match_level-stopped reporting time a (suc fuel) st h = ground (arith, h)

match_level-next :
    (reporting : Bool) (time : ℤ) (a p fuel : ℕ) (st : PriceLevel × Desk)
    → level_goes_on a st ≡ true
    → front st.0 ≡ some p
    → match_level reporting time a (suc fuel) st
      ≡ match_level reporting time a fuel (match_front reporting time a p st)
unfolding match_level
match_level-next reporting time a p fuel st h f = ground (arith, h, f)

pub Keeps-refl : (a : ℕ) (xs : List ℕ) (d : Desk) → Keeps a xs d d
Keeps-refl a xs d = record {
  terms = λ m. SameTerms-refl (d.store m).order;
  lives = λ h. h;
  frame = λ m ha hx. refl;
}

pub Keeps-trans :
    (a : ℕ) (xs ys : List ℕ) (d e f : Desk)
    → ((m : ℕ) → NotIn m xs → NotIn m ys)
    → Keeps a xs d e
    → Keeps a ys e f
    → Keeps a xs d f
Keeps-trans a xs ys d e f sub h k = record {
  terms = λ m.
      SameTerms-trans (d.store m).order (e.store m).order (f.store m).order (h.terms m) (k.terms m);
  lives = λ l. k.lives (h.lives l);
  frame = λ m ha hx. k.frame m ha (sub m hx) ∙ h.frame m ha hx;
}

view-congr :
    (s t : Store) (a p : ℕ) (xs : List ℕ)
    → ((y : ℕ) → NotIn y (a ∷ p ∷ []) → (t y).order ≡ (s y).order)
    → NotIn a xs
    → NotIn p xs
    → view t xs ≡ view s xs
view-congr s t a p [] f ha hp = refl
view-congr s t a p (x ∷ xs) f ha hp =
    ap₂ (λ o vs. resting_of o ∷ vs) (f x ((λ e. ha.0 (sym e)), ((λ e. hp.0 (sym e)), tt)))
      (view-congr s t a p xs f ha.1 hp.1)

goes_on_empty :
    (a : ℕ) (level : PriceLevel) (d : Desk)
    → empty level ≡ true
    → level_goes_on a (level, d) ≡ false
unfolding level_goes_on
goes_on_empty a level d e = rw e

goes_on_done :
    (a : ℕ) (level : PriceLevel) (d : Desk)
    → remaining_at d.store a ≤ℤ pos 0
    → level_goes_on a (level, d) ≡ false
unfolding level_goes_on
goes_on_done a level d h = ground arith

goes_on :
    (a : ℕ) (level : PriceLevel) (d : Desk)
    → empty level ≡ false
    → pos 0 <ℤ remaining_at d.store a
    → level_goes_on a (level, d) ≡ true
unfolding level_goes_on
goes_on a level d e h = ground arith

not_empty :
    (s : Store) (l : PriceLevel) (x : ℕ) (xs : List ℕ) → IsQueue s l (x ∷ xs) → empty l ≡ false
unfolding empty
not_empty s l x xs v = ground (arith, v.head)

module _ (reporting : Bool) (time : ℤ) (side : Side) (price : ℤ) (a : ℕ) (others : List ℕ) where
  stopped-LevelRun :
      (fuel : ℕ) (level : PriceLevel) (d : Desk) (xs free : List ℕ)
      → AtLevel side price a others level d xs free
      → level_goes_on a (level, d) ≡ false
      → take_queue price (remaining_at d.store a) (view d.store xs)
        ≡ (remaining_at d.store a, view d.store xs, [])
      → LevelRun reporting side price a others d xs (match_level reporting time a fuel (level, d))
  stopped-LevelRun fuel level d xs free v h t =
      rw (match_level-stopped reporting time a fuel (level, d) h) (record {
        left = xs;
        free = free;
        deals = [];
        at_level = v;
        keeps = Keeps-refl a xs d;
        fewer = λ m n. n;
        takes = t;
        volume = sym (+ℤ_zero d.volume_matched);
        told = Tells-refl reporting (id_of d.store a) d;
        stops = h;
      })

  -- The continuation after a filled front order, and after the order that ended the want.
  after_filled :
      (p : ℕ) (d : Desk) (ys : List ℕ) (st res : PriceLevel × Desk)
      → pos 0 <ℤ remaining_at d.store a
      → remaining_at d.store p ≤ℤ remaining_at d.store a
      → remaining_at st.1.store a ≡ remaining_at d.store a -ℤ remaining_at d.store p
      → st.1.volume_matched ≡ d.volume_matched +ℤ remaining_at d.store p
      → Tells reporting
          (id_of d.store a)
          (deal_of d.store p price (remaining_at d.store p) ∷ [])
          d
          st.1
      → Keeps a (p ∷ ys) d st.1
      → view st.1.store ys ≡ view d.store ys
      → LevelRun reporting side price a others st.1 ys res
      → LevelRun reporting side price a others d (p ∷ ys) res
  unfolding take_queue
  after_filled p d ys st res want le r vol told k same run = record {
    left = run.left;
    free = run.free;
    deals = deal ∷ run.deals;
    at_level = run.at_level;
    keeps = Keeps-trans a (p ∷ ys) ys d st.1 res.1 (λ m n. n.1) k run.keeps;
    fewer = λ m n. run.fewer m n.1;
    takes = ground (arith, rest);
    volume = run.volume ∙ ap (λ x. x +ℤ sum_deals run.deals) vol ∙ omega int_laws;
    told =
        Tells-trans reporting (id_of d.store a) (id_of st.1.store a) (deal ∷ []) run.deals d st.1
          res.1 (k.terms a).order_id told run.told;
    stops = run.stops;
  }
    where
      deal : Deal
      deal = deal_of d.store p price (remaining_at d.store p)

      rest :
          take_queue price (remaining_at d.store a -ℤ remaining_at d.store p) (view d.store ys)
          ≡ (remaining_at res.1.store a, view res.1.store run.left, run.deals)
      rest = rw (← same, ← r) run.takes

  after_partial :
      (p fuel : ℕ) (d : Desk) (ys free : List ℕ) (st : PriceLevel × Desk)
      → pos 0 <ℤ remaining_at d.store a
      → remaining_at d.store a <ℤ remaining_at d.store p
      → AtLevel side price a others st.0 st.1 (p ∷ ys) free
      → remaining_at st.1.store a ≡ pos 0
      → remaining_at st.1.store p ≡ remaining_at d.store p -ℤ remaining_at d.store a
      → st.1.volume_matched ≡ d.volume_matched +ℤ remaining_at d.store a
      → Tells reporting
          (id_of d.store a)
          (deal_of d.store p price (remaining_at d.store a) ∷ [])
          d
          st.1
      → Keeps a (p ∷ ys) d st.1
      → view st.1.store ys ≡ view d.store ys
      → LevelRun reporting side price a others d (p ∷ ys) (match_level reporting time a fuel st)
  unfolding take_queue
  after_partial p fuel d ys free st want lt v r rp vol told k same =
      rw (match_level-stopped reporting time a fuel st stopped) (record {
        left = p ∷ ys;
        free = free;
        deals = deal ∷ [];
        at_level = v;
        keeps = k;
        fewer = λ m n. n;
        takes = ground (arith, same_id, want, lt, r, rp, same);
        volume = vol ∙ omega int_laws;
        told = told;
        stops = stopped;
      })
    where
      deal : Deal
      deal = deal_of d.store p price (remaining_at d.store a)

      stopped : level_goes_on a st ≡ false
      stopped = goes_on_done a st.0 st.1 (rw r (omega arith))

      same_id : id_of st.1.store p ≡ id_of d.store p
      same_id = (k.terms p).order_id

  behind :
      (level : PriceLevel) (d : Desk) (p : ℕ) (ys free : List ℕ)
      (v : AtLevel side price a others level d (p ∷ ys) free)
      → (want : pos 0 <ℤ remaining_at d.store a)
      → view (match_front reporting time a p (level, d)).1.store ys ≡ view d.store ys
  behind level d p ys free v want =
      view-congr d.store (match_front reporting time a p (level, d)).1.store a p ys
        (match_front-behind reporting time side price a p others level d ys free v want)
        (NotIn-append_left a (p ∷ ys) others v.accounts.distinct.0).1 v.queue.distinct.0

  -- With more fuel than the level has orders, the inner loop ends by its own test, has done what
  -- `take_queue` does, and leaves the level and the accounts right.
  pub match_level-LevelRun :
      (fuel : ℕ) (level : PriceLevel) (d : Desk) (xs free : List ℕ)
      → length xs < fuel
      → AtLevel side price a others level d xs free
      → LevelRun reporting side price a others d xs (match_level reporting time a fuel (level, d))
  match_level-LevelRun zero level d xs free h v = absurd (omega arith)
  match_level-LevelRun (suc fuel) level d [] free h v =
      stopped-LevelRun (suc fuel) level d [] free v
        (goes_on_empty a level d ((empty-front d.store level [] v.queue).1.1 refl))
        (unfold take_queue in refl)
  match_level-LevelRun (suc fuel) level d (p ∷ ys) free h v =
      elim (le_or_lt (remaining_at d.store a) (pos 0)) [
        | inl done ↦
            stopped-LevelRun (suc fuel) level d (p ∷ ys) free v (goes_on_done a level d done)
              (unfold take_queue in (ground arith))
        | inr want ↦
            rw
              (match_level-next reporting time a p fuel (level, d)
                (goes_on a level d (not_empty d.store level p ys v.queue) want)
                (empty-front d.store level (p ∷ ys) v.queue).0)
              (elim (match_front-Outcome reporting time side price a p others level d ys free v
                want) [
                  | filled le v' r vol told ↦
                      after_filled p d ys (match_front reporting time a p (level, d)) _ want le r
                        vol told
                        (match_front-Keeps reporting time side price a p others level d ys free v
                          want)
                        (behind level d p ys free v want)
                        (match_level-LevelRun fuel (match_front reporting time a p (level, d)).0
                          (match_front reporting time a p (level, d)).1 ys (p ∷ free) (omega arith)
                          v')
                  | partial lt v' r rp vol told ↦
                      after_partial p fuel d ys free (match_front reporting time a p (level, d))
                        want lt v' r rp vol told
                        (match_front-Keeps reporting time side price a p others level d ys free v
                          want)
                        (behind level d p ys free v want)
                ])
      ]
