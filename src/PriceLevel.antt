-- ===== src/PriceLevel.antt =====
-- src/matching/price_level.hpp: the orders at one price, as an intrusive doubly linked list.
-- The nodes live in a store that the whole book shares: a node is an address, and `none` is the
-- null pointer. Each operation returns the level and the store that it leaves.
pub mod Links
pub mod Queue
pub mod Unlink
pub mod Remove
use hftperformance.Prelude.{ℕ, ◌+◌, ◌-◌, ◌%◌, ◌^◌, Bool, true, false, Option, none, some, update}
use hftperformance.Prelude.Int.{ℤ, pos, ◌+ℤ◌, ◌-ℤ◌}
use hftperformance.Order.{Order, remaining_quantity}

-- `struct OrderNode`, of order.hpp.
pub record OrderNode : Type 0 where
  pub order : Order
  pub prev : Option ℕ
  pub next : Option ℕ

abbrev pub Store : Type 0
Store = ℕ → OrderNode

-- Writes of one field through a pointer that may be null.
abbrev pub set_next : Store → ℕ → Option ℕ → Store
set_next s n v = update s n (record (s n) { next = v })

abbrev pub set_prev : Store → ℕ → Option ℕ → Store
set_prev s n v = update s n (record (s n) { prev = v })

abbrev pub set_order : Store → ℕ → Order → Store
set_order s n o = update s n (record (s n) { order = o })

pub record PriceLevel : Type 0 where
  pub price : ℤ
  pub head : Option ℕ
  pub tail : Option ℕ
  pub total_quantity : ℤ
  pub order_count : ℕ

-- The constructor.
unfoldable pub make_level : ℤ → PriceLevel
make_level price = record {
  price = price;
  head = none;
  tail = none;
  total_quantity = pos 0;
  order_count = 0;
}

-- `add_order`
unfoldable pub add_order : ℕ → PriceLevel → Store → PriceLevel × Store
add_order node l s =
    let linked = update s node (record (s node) { prev = l.tail; next = none }) in
    let rest : PriceLevel × Store = elim l.tail [
      | some t ↦ (l, set_next linked t (some node))
      | none ↦ (record l { head = some node }, linked)
    ] in
    (
      record (rest.0) {
        tail = some node;
        total_quantity = l.total_quantity +ℤ remaining_quantity (s node).order;
        order_count = (l.order_count + 1) % 2 ^ 64;
      },
      rest.1,
    )

-- The first conditional of `remove_order`: what stands before the node skips it.
unfoldable pub unlink_prev : ℕ → PriceLevel → Store → PriceLevel × Store
unlink_prev node l s = elim (s node).prev [
  | some p ↦ (l, set_next s p (s node).next)
  | none ↦ (record l { head = (s node).next }, s)
]

-- The second: what stands behind the node skips it.
unfoldable pub unlink_next : ℕ → PriceLevel → Store → PriceLevel × Store
unlink_next node l s = elim (s node).next [
  | some n ↦ (l, set_prev s n (s node).prev)
  | none ↦ (record l { tail = (s node).prev }, s)
]

-- The counters that `remove_order` lowers first.
unfoldable pub uncount : ℕ → PriceLevel → Store → PriceLevel
uncount node l s = record l {
  total_quantity = l.total_quantity -ℤ remaining_quantity (s node).order;
  order_count = (l.order_count + 2 ^ 64 - 1) % 2 ^ 64;
}

-- `remove_order`
unfoldable pub remove_order : ℕ → PriceLevel → Store → PriceLevel × Store
unfolding uncount unlink_prev unlink_next
remove_order node l s =
    let (l1, s1) = unlink_prev node (uncount node l s) s in
    let (l2, s2) = unlink_next node l1 s1 in
    (l2, update s2 node (record (s2 node) { prev = none; next = none }))

-- `front`
unfoldable pub front : PriceLevel → Option ℕ
front l = l.head

-- `pop_front`
unfoldable pub pop_front : PriceLevel → Store → Option ℕ × PriceLevel × Store
pop_front l s = elim l.head [
  | none ↦ (none, l, s)
  | some node ↦ let (l', s') = remove_order node l s in (some node, l', s')
]

-- `update_quantity`; the node is not used.
unfoldable pub update_quantity : ℤ → PriceLevel → PriceLevel
update_quantity filled l = record l { total_quantity = l.total_quantity -ℤ filled }

-- `empty`
unfoldable pub empty : PriceLevel → Bool
empty l = elim l.head [ none ↦ true | some _ ↦ false ]
