-- ===== src/OrderBook/Matching/Sweep.antt =====
-- The outer loop over the levels of a side implements `take_levels`, keeps the side, the index and
-- the pool right, and ends only when nothing is wanted or no level crosses.
use hftperformance.Prelude.{
  ℕ, zero, suc, ◌+◌, ◌<◌, ◌≡◌, refl, sym, ◌∙◌, ap, subst, List, [], ◌∷◌, ◌++◌, Bool, true, false,
  not, arith, NotIn, NotIn-append_left, NotIn-append_right, length, if◌then◌else◌, inl, inr, ◌⊎◌,
  concat, List-cases, Bool-cases, Apart, Apart-symm, Distinct-append_apart, Distinct-append_left,
}
use mathlib.Core.List.{append_assoc}
use hftperformance.Prelude.Int.{ℤ, pos, ◌+ℤ◌, ◌≤ℤ◌, ◌<ℤ◌, le_or_lt, int_laws, +ℤ_zero}
use hftperformance.Types.{Side, buy, sell}
use hftperformance.PriceLevel.{PriceLevel, empty}
use hftperformance.PriceLevel.Links.{Agree}
use hftperformance.PriceLevel.Queue.{empty-front}
use hftperformance.OrderBook.Maps.{LevelMap}
use hftperformance.OrderBook.Matching.{Desk, match_level, match_levels, level_goes_on, no_cross}
use hftperformance.OrderBook.Matching.Accounts.{id_of, IsAccounted}
use hftperformance.OrderBook.Matching.Trade.{remaining_at}
use hftperformance.OrderBook.Matching.Reference.{
  Deal, take_levels, crosses, sum_deals, sum_deals-append,
}
use hftperformance.OrderBook.Matching.Told.{Tells, Tells-refl, Tells-trans}
use hftperformance.OrderBook.Matching.Step.{Keeps}
use hftperformance.OrderBook.Matching.Loop.{LevelRun, match_level-LevelRun, Keeps-refl, Keeps-trans}
use hftperformance.OrderBook.Matching.Ladder.{IsSide, IsSide-Agree, view_side, view_side-Agree}

-- Nothing is wanted any more, or the best level, if there is one, does not cross.
abbrev pub Ends : Side → ℤ → ℤ → LevelMap → Type 0
Ends side limit want [] = Unit
Ends side limit want ((price, l) ∷ m) = (want ≤ℤ pos 0) ⊎ (crosses side limit price ≡ false)

-- What the outer loop has done when it stops. `other` is the side that it goes through.
pub record Swept (reporting : Bool) (side other : Side) (a : ℕ) (others : List ℕ) (m : LevelMap)
    (d : Desk) (xss : List (List ℕ)) (res : LevelMap × Desk) : Type 0 where
  pub left : List (List ℕ)
  pub free : List ℕ
  pub deals : List Deal
  pub is_side : IsSide res.1.store other res.0 left
  pub accounts : IsAccounted res.1 (a ∷ concat left ++ others) free
  pub keeps : Keeps a (concat xss) d res.1
  pub takes :
      take_levels side (d.store a).order.price (remaining_at d.store a) (view_side d.store m xss)
      ≡ (remaining_at res.1.store a, view_side res.1.store res.0 left, deals)
  pub volume : res.1.volume_matched ≡ d.volume_matched +ℤ sum_deals deals
  pub told : Tells reporting (id_of d.store a) deals d res.1
  pub ends : Ends side (d.store a).order.price (remaining_at res.1.store a) res.0

no_cross-crosses :
    (side : Side) (limit price : ℤ) → crosses side limit price ≡ not (no_cross side limit price)
unfolding crosses no_cross
no_cross-crosses buy limit price = ground arith
no_cross-crosses sell limit price = ground arith

module _ (reporting : Bool) (time : ℤ) (side : Side) (a : ℕ) where
  levels-nil : (fuel : ℕ) (d : Desk) → match_levels reporting time side a fuel [] d ≡ ([], d)
  unfolding match_levels
  levels-nil zero d = refl
  levels-nil (suc fuel) d = refl

  levels-stopped :
      (fuel : ℕ) (price : ℤ) (l : PriceLevel) (m : LevelMap) (d : Desk)
      → (remaining_at d.store a ≤ℤ pos 0) ⊎ (crosses side (d.store a).order.price price ≡ false)
      → match_levels reporting time side a fuel ((price, l) ∷ m) d ≡ ((price, l) ∷ m, d)
  unfolding match_levels
  levels-stopped zero price l m d h = refl
  levels-stopped (suc fuel) price l m d h =
      ground (arith, h, no_cross-crosses side (d.store a).order.price price)

  levels-next :
      (fuel : ℕ) (price : ℤ) (l : PriceLevel) (m : LevelMap) (d : Desk)
      → pos 0 <ℤ remaining_at d.store a
      → crosses side (d.store a).order.price price ≡ true
      → let r = match_level reporting time a (l.order_count + 1) (l, d) in
        match_levels reporting time side a (suc fuel) ((price, l) ∷ m) d
        ≡ match_levels reporting time side a fuel (if empty r.0 then m else (price, r.0) ∷ m) r.1
  unfolding match_levels
  levels-next fuel price l m d want c =
      ground (arith, want, c, no_cross-crosses side (d.store a).order.price price)

-- After the inner loop either the level is empty or nothing is wanted.
level_ends :
    (a : ℕ) (res : PriceLevel × Desk)
    → level_goes_on a res ≡ false
    → (empty res.0 ≡ true) ⊎ ((empty res.0 ≡ false) × (remaining_at res.1.store a ≤ℤ pos 0))
unfolding level_goes_on
level_ends a (l, d) h = ground arith

pub Agree-Keeps :
    (a : ℕ) (xs ys : List ℕ) (d e : Desk)
    → Keeps a xs d e
    → NotIn a ys
    → Apart ys xs
    → Agree d.store e.store ys
Agree-Keeps a xs [] d e k h ap' = tt
Agree-Keeps a xs (y ∷ ys) d e k h ap' = (k.frame y h.0 ap'.0, Agree-Keeps a xs ys d e k h.1 ap'.1)

module _ (reporting : Bool) (time : ℤ) (side other : Side) (a : ℕ) (others : List ℕ) where
  stopped-Swept :
      (fuel : ℕ) (price : ℤ) (l : PriceLevel) (m : LevelMap) (d : Desk) (xs : List ℕ)
      (xss : List (List ℕ)) (free : List ℕ)
      → IsSide d.store other ((price, l) ∷ m) (xs ∷ xss)
      → IsAccounted d (a ∷ concat (xs ∷ xss) ++ others) free
      → (remaining_at d.store a ≤ℤ pos 0) ⊎ (crosses side (d.store a).order.price price ≡ false)
      → Swept reporting side other a others
          ((price, l) ∷ m)
          d
          (xs ∷ xss)
          (match_levels reporting time side a fuel ((price, l) ∷ m) d)
  unfolding take_levels
  stopped-Swept fuel price l m d xs xss free v acc h =
      rw (levels-stopped reporting time side a fuel price l m d h) (record {
        left = xs ∷ xss;
        free = free;
        deals = [];
        is_side = v;
        accounts = acc;
        keeps = Keeps-refl a (concat (xs ∷ xss)) d;
        takes = ground (arith, h);
        volume = sym (+ℤ_zero d.volume_matched);
        told = Tells-refl reporting (id_of d.store a) d;
        ends = h;
      })

  nil-Swept :
      (fuel : ℕ) (d : Desk) (free : List ℕ)
      → IsAccounted d (a ∷ others) free
      → Swept reporting side other a others [] d [] (match_levels reporting time side a fuel [] d)
  unfolding take_levels
  nil-Swept fuel d free acc = rw (levels-nil reporting time side a fuel d) (record {
    left = [];
    free = free;
    deals = [];
    is_side = tt;
    accounts = acc;
    keeps = Keeps-refl a [] d;
    takes = refl;
    volume = sym (+ℤ_zero d.volume_matched);
    told = Tells-refl reporting (id_of d.store a) d;
    ends = tt;
  })

  -- One level has been matched: `st` is its outcome, and the loop goes on with the rest `m`.
  module _ (price : ℤ) (l : PriceLevel) (m : LevelMap) (d : Desk) (xs : List ℕ)
      (xss : List (List ℕ)) (st : PriceLevel × Desk)
      (v : IsSide d.store other ((price, l) ∷ m) (xs ∷ xss)) (fresh : NotIn a (concat (xs ∷ xss)))
      (apart : Apart (concat xss) xs) (want : pos 0 <ℤ remaining_at d.store a)
      (c : crosses side (d.store a).order.price price ≡ true)
      (run : LevelRun reporting other price a (concat xss ++ others) d xs st) where
    rest-Agree : Agree d.store st.1.store (concat xss)
    rest-Agree =
        Agree-Keeps a xs (concat xss) d st.1 run.keeps (NotIn-append_right a xs (concat xss) fresh)
          apart

    same_limit : (st.1.store a).order.price ≡ (d.store a).order.price
    same_limit = (run.keeps.terms a).price

    Keeps-all : Keeps a (concat (xs ∷ xss)) d st.1
    Keeps-all = record {
      terms = run.keeps.terms;
      lives = run.keeps.lives;
      frame = λ n ha hn. run.keeps.frame n ha (NotIn-append_left n xs (concat xss) hn);
    }

    -- The level is used up.
    emptied-Swept :
        (res : LevelMap × Desk)
        → run.left ≡ []
        → Swept reporting side other a others m st.1 xss res
        → Swept reporting side other a others ((price, l) ∷ m) d (xs ∷ xss) res
    unfolding take_levels
    emptied-Swept res e s = record {
      left = s.left;
      free = s.free;
      deals = run.deals ++ s.deals;
      is_side = s.is_side;
      accounts = s.accounts;
      keeps =
          Keeps-trans a (concat (xs ∷ xss)) (concat xss) d st.1 res.1
            (λ n h. NotIn-append_right n xs (concat xss) h) Keeps-all s.keeps;
      takes = ground (arith, run.takes, e, want, c, later);
      volume =
          s.volume
          ∙ ap (λ x. x +ℤ sum_deals s.deals) run.volume
          ∙ rw (sum_deals-append run.deals s.deals) (omega int_laws);
      told =
          Tells-trans reporting (id_of d.store a) (id_of st.1.store a) run.deals s.deals d st.1
            res.1 (run.keeps.terms a).order_id run.told s.told;
      ends = subst (λ p. Ends side p (remaining_at res.1.store a) res.0) same_limit s.ends;
    }
      where
        later :
            take_levels side
              (d.store a).order.price
              (remaining_at st.1.store a)
              (view_side d.store m xss)
            ≡ (remaining_at res.1.store a, view_side res.1.store res.0 s.left, s.deals)
        later =
            subst
              (λ p.
                take_levels side p (remaining_at st.1.store a) (view_side d.store m xss)
                ≡ (remaining_at res.1.store a, view_side res.1.store res.0 s.left, s.deals))
              same_limit (rw (← view_side-Agree d.store st.1.store m xss rest-Agree) s.takes)

    -- The want is used up first.
    sated-Swept :
        (fuel : ℕ) (n : ℕ) (ns : List ℕ)
        → run.left ≡ n ∷ ns
        → remaining_at st.1.store a ≤ℤ pos 0
        → Swept reporting side other a others
            ((price, l) ∷ m)
            d
            (xs ∷ xss)
            (match_levels reporting time side a fuel ((price, st.0) ∷ m) st.1)
    unfolding take_levels
    sated-Swept fuel n ns e done =
        rw (levels-stopped reporting time side a fuel price st.0 m st.1 (inl done)) (record {
          left = run.left ∷ xss;
          free = run.free;
          deals = run.deals;
          is_side = (
            record {
              queue = run.at_level.queue;
              resting = run.at_level.resting;
              nonempty = rw e (λ q. cc);
            },
            v.1,
            IsSide-Agree d.store st.1.store other m xss rest-Agree v.2,
          );
          accounts =
              subst (λ live. IsAccounted st.1 (a ∷ live) run.free)
                (sym (append_assoc run.left (concat xss) others)) run.at_level.accounts;
          keeps = Keeps-all;
          takes =
              ground
                (arith, run.takes, e, want, c, view_side-Agree d.store st.1.store m xss rest-Agree);
          volume = run.volume;
          told = run.told;
          ends = inl done;
        })

  start_level :
      (price : ℤ) (l : PriceLevel) (m : LevelMap) (d : Desk) (xs : List ℕ) (xss : List (List ℕ))
      (free : List ℕ)
      → IsSide d.store other ((price, l) ∷ m) (xs ∷ xss)
      → IsAccounted d (a ∷ concat (xs ∷ xss) ++ others) free
      → LevelRun reporting other price a
          (concat xss ++ others)
          d
          xs
          (match_level reporting time a (l.order_count + 1) (l, d))
  start_level price l m d xs xss free v acc =
      match_level-LevelRun reporting time other price a (concat xss ++ others) (l.order_count + 1) l
        d xs free (omega (arith, v.0.queue.counted))
        (record {
          queue = v.0.queue;
          resting = v.0.resting;
          accounts =
              subst (λ live. IsAccounted d (a ∷ live) free) (append_assoc xs (concat xss) others)
                acc;
        })

  levels_apart :
      (d : Desk) (xs : List ℕ) (xss : List (List ℕ)) (free : List ℕ)
      → IsAccounted d (a ∷ concat (xs ∷ xss) ++ others) free
      → NotIn a (concat (xs ∷ xss)) × Apart (concat xss) xs
  levels_apart d xs xss free acc = (
    NotIn-append_left a (concat (xs ∷ xss)) others acc.distinct.0,
    Apart-symm xs (concat xss) (
        Distinct-append_apart xs (concat xss)
          (Distinct-append_left (concat (xs ∷ xss)) others acc.distinct.1)),
  )

  -- With more fuel than the side has levels, the outer loop ends by its own tests, has done what
  -- `take_levels` does, and leaves the side and the accounts right.
  pub match_levels-Swept :
      (fuel : ℕ) (m : LevelMap) (d : Desk) (xss : List (List ℕ)) (free : List ℕ)
      → length m < fuel
      → IsSide d.store other m xss
      → IsAccounted d (a ∷ concat xss ++ others) free
      → Swept reporting side other a others m d xss (match_levels reporting time side a fuel m d)
  match_levels-Swept zero m d xss free h v acc = absurd (omega arith)
  match_levels-Swept (suc fuel) [] d [] free h v acc = nil-Swept (suc fuel) d free acc
  match_levels-Swept (suc fuel) [] d (xs ∷ xss) free h v acc = absurd v
  match_levels-Swept (suc fuel) (e ∷ m) d [] free h v acc = absurd v
  match_levels-Swept (suc fuel) ((price, l) ∷ m) d (xs ∷ xss) free h v acc =
      elim (le_or_lt (remaining_at d.store a) (pos 0)) [
        | inl done ↦ stopped-Swept (suc fuel) price l m d xs xss free v acc (inl done)
        | inr want ↦ elim (Bool-cases (crosses side (d.store a).order.price price)) [
          | inr c ↦ stopped-Swept (suc fuel) price l m d xs xss free v acc (inr c)
          | inl c ↦
              let run = start_level price l m d xs xss free v acc in
              let (fresh, apart) = levels_apart d xs xss free acc in
              let st = match_level reporting time a (l.order_count + 1) (l, d) in
              let next = levels-next reporting time side a fuel price l m d want c in
              elim (level_ends a st run.stops) [
                | inl e ↦
                    let left = (empty-front st.1.store st.0 run.left run.at_level.queue).1.0 e in
                    rw (next, e)
                      (emptied-Swept price l m d xs xss st v fresh apart want c run _ left (
                        match_levels-Swept fuel m st.1 xss run.free (omega arith)
                          (IsSide-Agree d.store st.1.store other m xss
                            (rest-Agree price l m d xs xss st v fresh apart want c run) v.2)
                          (subst
                            (λ ys. IsAccounted st.1 (a ∷ ys ++ (concat xss ++ others)) run.free)
                            left run.at_level.accounts)))
                | inr (e, done) ↦ elim (List-cases run.left) [
                  | inl none_left ↦
                      let clash : ⊥ = cc (
                        (empty-front st.1.store st.0 run.left run.at_level.queue).1.1 none_left,
                        e,
                      ) in
                      absurd clash
                  | inr (n, ns, some_left) ↦
                      rw (next, e)
                        (sated-Swept price l m d xs xss st v fresh apart want c run fuel n ns
                          some_left done)
                ]
              ]
        ]
      ]
