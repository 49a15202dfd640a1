-- ===== src/OrderBook/Matching/Accounts.antt =====
-- Which nodes are in use: the index and the pool agree on it, and no node is lost.
use hftperformance.Prelude.{
  ℕ, ◌<◌, ◌≡◌, sym, ◌∙◌, ap, ◌≢◌, inl, inr, List, [], ◌∷◌, ◌++◌, some, arith, length, All, In,
  Distinct, Apart, ◌==◌, Bool-cases, ==_iff, In-remove, In-middle, Distinct-middle, Distinct-remove,
  All-remove, All-middle, Apart-middle, Apart-remove, length-middle, NotIn-of_In, Apart-cons,
}
use hftperformance.Prelude.Shuffle.{
  Shuffle, Shuffle-symm, In-Shuffle, All-shuffle, Apart-shuffle, Distinct-Shuffle, length-Shuffle,
}
use hftperformance.MemoryPool.{deallocate}
use hftperformance.MemoryPool.FreeList.{IsFreeList, deallocate-IsFreeList}
use hftperformance.PriceLevel.{Store}
use hftperformance.OrderBook.Maps.{OrderIndex, find_node, erase_node, find_node-erase_node}
use hftperformance.OrderBook.Matching.{Desk, retire}

-- The node that an index entry names holds an order of that id.
abbrev pub id_of : Store → ℕ → ℕ
id_of s n = (s n).order.order_id

-- The nodes `live` are exactly the indexed ones, and together with the free ones they are all nodes
-- of the pool.
pub record IsAccounted (d : Desk) (live free : List ℕ) : Type 0 where
  pub is_free : IsFreeList d.order_pool free
  pub distinct : Distinct live
  pub apart : Apart live free
  pub within : All (λ n. n < d.order_pool.capacity) live
  pub no_leak : d.order_pool.allocated_count ≡ length live
  pub sound : (id n : ℕ) → find_node id d.order_index ≡ some n → In n live × (id_of d.store n ≡ id)
  pub complete : (n : ℕ) → In n live → find_node (id_of d.store n) d.order_index ≡ some n

-- Only the ids matter of what the nodes hold.
pub IsAccounted-store :
    (d e : Desk) (live free : List ℕ)
    → e.order_index ≡ d.order_index
    → e.order_pool ≡ d.order_pool
    → ((n : ℕ) → id_of e.store n ≡ id_of d.store n)
    → IsAccounted d live free
    → IsAccounted e live free
IsAccounted-store d e live free hi hp hs v = record {
  is_free = rw hp v.is_free;
  distinct = v.distinct;
  apart = v.apart;
  within = rw hp v.within;
  no_leak = rw hp v.no_leak;
  sound = λ id n f. ((v.sound id n (rw hi at f)).0, hs n ∙ (v.sound id n (rw hi at f)).1);
  complete = λ n i. rw (hi, hs n) (v.complete n i);
}

erase_sound :
    (s : Store) (m : OrderIndex) (node id n : ℕ) (xs ys : List ℕ)
    → ((id n : ℕ) → find_node id m ≡ some n → In n (xs ++ node ∷ ys) × (id_of s n ≡ id))
    → find_node id (erase_node (id_of s node) m) ≡ some n
    → In n (xs ++ ys) × (id_of s n ≡ id)
erase_sound s m node id n xs ys sound f = elim (Bool-cases (id == id_of s node)) [
  | inl e ↦ absurd (ground (arith, find_node-erase_node (id_of s node) id m, f, e))
  | inr e ↦
      let old : find_node id m ≡ some n =
        ground (arith, find_node-erase_node (id_of s node) id m, f, e) in
      let was = sound id n old in
      let other : node ≢ n = λ same. ground (arith, ap (id_of s) same, was.1, e) in
      (In-remove n node xs ys was.0 other, was.1)
]

erase_complete :
    (s : Store) (m : OrderIndex) (node n : ℕ) (xs ys : List ℕ)
    → ((n : ℕ) → In n (xs ++ node ∷ ys) → find_node (id_of s n) m ≡ some n)
    → In n (xs ++ node ∷ ys)
    → n ≢ node
    → find_node (id_of s n) (erase_node (id_of s node) m) ≡ some n
erase_complete s m node n xs ys complete i ne = elim (Bool-cases (id_of s n == id_of s node)) [
  | inl e ↦
      let same : id_of s n ≡ id_of s node = (==_iff _ _).0 e in
      let both : some n ≡ some node =
        sym (complete n i) ∙ ap (λ k. find_node k m) same ∙ complete node (In-middle node xs ys) in
      absurd (ne (cc both))
  | inr e ↦ find_node-erase_node (id_of s node) (id_of s n) m ∙ rw e (complete n i)
]

In-insert : (n p : ℕ) (xs ys : List ℕ) → In n (xs ++ ys) → In n (xs ++ p ∷ ys)
In-insert n p [] ys i = inr i
In-insert n p (x ∷ xs) ys (inl e) = inl e
In-insert n p (x ∷ xs) ys (inr i) = inr (In-insert n p xs ys i)

-- `retire` takes one node out of the accounts and frees it.
pub retire-IsAccounted :
    (d : Desk) (node : ℕ) (xs ys free : List ℕ)
    → IsAccounted d (xs ++ node ∷ ys) free
    → IsAccounted (retire node d) (xs ++ ys) (node ∷ free)
unfolding retire deallocate
retire-IsAccounted d node xs ys free v = record {
  is_free =
      deallocate-IsFreeList d.order_pool node free v.is_free (All-middle _ xs ys node v.within)
        (Apart-middle xs ys free node v.apart) (omega (arith, v.no_leak, length-middle xs ys node));
  distinct = Distinct-remove xs ys node v.distinct;
  apart =
      Apart-cons node (xs ++ ys) free (Distinct-middle xs ys node v.distinct)
        (Apart-remove xs ys free node v.apart);
  within = All-remove _ xs ys node v.within;
  no_leak = omega (arith, v.no_leak, length-middle xs ys node, v.is_free.counted, v.is_free.small);
  sound = λ id n f. erase_sound d.store d.order_index node id n xs ys v.sound f;
  complete = λ n i.
      erase_complete d.store d.order_index node n xs ys v.complete (In-insert n node xs ys i)
        (NotIn-of_In n node (xs ++ ys) i (Distinct-middle xs ys node v.distinct));
}

-- The order in which the nodes are listed does not matter.
pub IsAccounted-Shuffle :
    (d : Desk) {xs ys : List ℕ} (free : List ℕ)
    → Shuffle xs ys
    → IsAccounted d xs free
    → IsAccounted d ys free
IsAccounted-Shuffle d free s v = record {
  is_free = v.is_free;
  distinct = Distinct-Shuffle s v.distinct;
  apart = Apart-shuffle free s v.apart;
  within = All-shuffle _ s v.within;
  no_leak = v.no_leak ∙ sym (length-Shuffle s);
  sound = λ id n f. (In-Shuffle n s (v.sound id n f).0, (v.sound id n f).1);
  complete = λ n i. v.complete n (In-Shuffle n (Shuffle-symm s) i);
}
