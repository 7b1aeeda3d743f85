-- ===== src/Matching/Leaves.antt =====
-- What an order has left after the steps of a trade.
use limit_order_book_matchin.Base.{
  ℕ, ◌+◌, ◌-◌, ◌≡◌, refl, ap, ◌∙◌, inl, inr, ◌==◌, ℤ, arith, if◌then◌else◌,
}
use limit_order_book_matchin.Order.{Order, Side, fill, trigger, replenish}
use limit_order_book_matchin.PriceMap.{Ptr}
use limit_order_book_matchin.OrderBook.State.{OrderBook, modify_object}
use limit_order_book_matchin.OrderBook.Sweep.{Sweep, exchange, make_trade, execute}
use limit_order_book_matchin.Matching.Objects.{execute-object}

pub leaves_of-fill : (o : Order) (q : ℕ) → (fill o q).leaves_qty ≡ o.leaves_qty - q
unfolding fill
leaves_of-fill o q = ground arith

pub leaves_of-exchange :
    (order resting p : Ptr) (q : ℕ) (b : OrderBook)
    → ((exchange order resting q b).object p).leaves_qty
      ≡ (b.object p).leaves_qty
        - ((if order == p then q else 0) + (if resting == p then q else 0) + 0)
unfolding exchange modify_object
leaves_of-exchange order resting p q b =
    let first = leaves_of-fill (b.object order) q in
    let second = leaves_of-fill (b.object resting) q in
    let both = leaves_of-fill (fill (b.object order) q) q in ground (arith, first, second, both)

pub leaves_of-trigger : (o : Order) → (trigger o).leaves_qty ≡ o.leaves_qty
unfolding trigger
leaves_of-trigger o = refl

pub leaves_of-execute :
    (side : Side) (order resting : Ptr) (price : ℤ) (q : ℕ) (s : Sweep) (p : Ptr)
    → ((execute side order resting price q s).book.object p).leaves_qty
      ≡ ((exchange order resting q s.book).object p).leaves_qty
leaves_of-execute side order resting price q s p =
    elim (execute-object side order resting price q s p) [
      | inl e ↦ ap (λ (o : Order). o.leaves_qty) e
      | inr e ↦ ap (λ (o : Order). o.leaves_qty) e ∙ leaves_of-trigger _
    ]

pub leaves_of-replenish :
    (resting p : Ptr) (b : OrderBook)
    → ((modify_object resting replenish b).object p).leaves_qty ≡ (b.object p).leaves_qty
unfolding modify_object replenish
leaves_of-replenish resting p b = ground arith

pub trade-quantity :
    (side : Side) (order resting : Ptr) (price : ℤ) (q : ℕ) (b : OrderBook)
    → (make_trade side order resting price q b).quantity ≡ q
unfolding make_trade
trade-quantity side order resting price q b = refl
