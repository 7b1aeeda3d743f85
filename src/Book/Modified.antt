-- ===== src/Book/Modified.antt =====
-- What `modifyOrder` of src/orderbook.cpp makes of an iceberg order.
use limit_order_book_matchin.Base.{
  ℕ, ◌<◌, ◌≡◌, ◌≢◌, refl, ap, ◌∙◌, true, ◌==◌, if◌then◌else◌, some, ℤ, arith, ◌∷◌,
}
use limit_order_book_matchin.Order.{
  Order, OrderKind, Side, buy, sell, cancel, is_iceberg, is_iceberg_kind, new_order, visible_qty,
}
use limit_order_book_matchin.PriceMap.{Ptr, Level, Levels}
use limit_order_book_matchin.OrderBook.State.{
  OrderBook, active_find, new_object, modify_object, add_to_book, with_levels,
}
use limit_order_book_matchin.OrderBook.Requests.{
  cancel_order, remove_order, replace_order, modify_order,
}
use limit_order_book_matchin.Book.Numbering.{new_object-lists}
use limit_order_book_matchin.Book.Index.{active_find-All}
use limit_order_book_matchin.Book.Renamed.{Entry, id_of, IsListed}
use limit_order_book_matchin.OrderBook.Sweep.{Sweep, available, match_front}

new_object-new : (o : Order) (b : OrderBook) → (new_object o b).object b.next_ptr ≡ o
unfolding new_object
new_object-new o b = ground arith

add_to_book-same_object : (order : Ptr) (b : OrderBook) → (add_to_book order b).object ≡ b.object
unfolding add_to_book
add_to_book-same_object order b = by_side (b.object order).side _
  where
    by_side : (x : Side) (m : Levels) → (with_levels x m b).object ≡ b.object
    by_side buy m = refl
    by_side sell m = refl

remove_order-other :
    (id : ℕ) (p q : Ptr) (b : OrderBook) → q ≢ p → (remove_order id p b).object q ≡ b.object q
unfolding remove_order modify_object
remove_order-other id p q b ne = by_side (b.object p).side _
  where
    by_side :
        (x : Side) (m : Levels)
        → (if p == q then cancel ((with_levels x m b).object p) else (with_levels x m b).object q)
          ≡ b.object q
    by_side buy m = ground (arith, ne)
    by_side sell m = ground (arith, ne)

-- The replacement, after the old order is cancelled.
replace_order-object :
    (id : ℕ) (p : Ptr) (price : ℤ) (qty : ℕ) (ts : ℤ) (b : OrderBook)
    → active_find id b.active_orders ≡ some p
    → p < b.next_ptr
    → let old = b.object p in
      (replace_order id p price qty ts b).object b.next_ptr
      ≡ new_order old.id ts old.side old.kind price qty
unfolding replace_order cancel_order
replace_order-object id p price qty ts b found less =
    let old = b.object p in
    let o = new_order old.id ts old.side old.kind price qty in
    let c = new_object o b in
    let same : active_find id c.active_orders ≡ some p =
      ap (active_find id) (new_object-lists o b).active ∙ found in
    ap (λ f. f b.next_ptr) (add_to_book-same_object b.next_ptr _)
    ∙ rw (same, cancel_order) (remove_order-other id p b.next_ptr c (λ e. omega (arith, less, e)))
    ∙ new_object-new o b

-- An order that shows nothing is popped from the front of its level by the next round, without a trade.
match_front-pops :
    (side : Side) (order : Ptr) (price : ℤ) (resting : Ptr) (rest : Level) (s : Sweep)
    → available (s.book.object resting) ≡ 0
    → match_front side order price (resting ∷ rest) s ≡ record s { level = rest }
unfolding match_front
match_front-pops side order price resting rest s e = rw (e, match_front) refl

-- What `new_order` makes of the kind of an iceberg.
new_order-available :
    (id : ℕ) (ts price : ℤ) (side : Side) (kind : OrderKind) (qty : ℕ)
    → is_iceberg_kind kind ≡ true
    → let o = new_order id ts side kind price qty in
      (is_iceberg o ≡ true) × (o.leaves_qty ≡ qty) × (available o ≡ 0)
unfolding new_order available is_iceberg visible_qty
new_order-available id ts price side kind qty h = (h, refl, rw h refl)

-- When `modifyOrder` finds an iceberg order, its replacement is an iceberg of the new quantity that shows
-- none of it: as long as it is as it was made, a round of a match that finds it at the front of a level
-- pops it without a trade.
pub modify_order-hides_all :
    (n id : ℕ) (p : Ptr) (price : ℤ) (qty : ℕ) (ts : ℤ) (b : OrderBook)
    → IsListed n b
    → active_find id b.active_orders ≡ some p
    → is_iceberg (b.object p) ≡ true
    → (side : Side) (order : Ptr) (level_price : ℤ) (rest : Level) (s : Sweep)
    → s.book.object b.next_ptr ≡ (modify_order id price qty ts b).0.object b.next_ptr
    → let o = (modify_order id price qty ts b).0.object b.next_ptr in
      (is_iceberg o ≡ true)
      × (o.leaves_qty ≡ qty)
      × (match_front side order level_price (b.next_ptr ∷ rest) s ≡ record s { level = rest })
unfolding is_iceberg modify_order
modify_order-hides_all n id p price qty ts b h found ice side order level_price rest s same =
    let (kind, leaves, hidden) = shows in
    (
      ap is_iceberg made ∙ kind,
      ap (λ (o : Order). o.leaves_qty) made ∙ leaves,
      match_front-pops side order level_price b.next_ptr rest s
          (ap available (same ∙ made) ∙ hidden),
    )
  where
    old : Order
    old = b.object p

    made :
        (modify_order id price qty ts b).0.object b.next_ptr
        ≡ new_order old.id ts old.side old.kind price qty
    made =
        rw (found, modify_order)
          (replace_order-object id p price qty ts b found
            (active_find-All (Entry (id_of b) b.next_ptr n) id b.active_orders found
              h.indexed.entries).2)

    shows :
        let o = new_order old.id ts old.side old.kind price qty in
        (is_iceberg o ≡ true) × (o.leaves_qty ≡ qty) × (available o ≡ 0)
    shows = new_order-available old.id ts price old.side old.kind qty ice
