-- ===== src/OrderBook/Sweep.antt =====
-- src/orderbook.cpp, the inner loop of `matchBuy` and `matchSell`: one price level is swept from its
-- front. The side is that of the incoming order, which is all in which the two methods differ.
use limit_order_book_matchin.Base.{
  ℕ, ◌+◌, min, Bool, not, ◌&&◌, List, [], ◌∷◌, ◌++◌, Option, some, ℤ, ◌==◌, if◌then◌else◌, is_empty,
  length, while,
}
use limit_order_book_matchin.Order.{
  Order, Side, buy, sell, u64, is_filled, is_iceberg, is_active, visible_qty, replenish, fill,
}
use limit_order_book_matchin.PriceMap.{Ptr, Level}
use limit_order_book_matchin.OrderBook.State.{OrderBook, Trade, modify_object, active_erase}
use limit_order_book_matchin.OrderBook.Stops.{check_stop_triggers}

-- The ids go to the trade by side: the incoming order is the buyer or the seller.
unfoldable pub make_trade : Side → Ptr → Ptr → ℤ → ℕ → OrderBook → Trade
make_trade side order resting price qty b = record {
  trade_id = b.next_trade_id;
  buy_order_id = elim side [ buy ↦ (b.object order).id | sell ↦ (b.object resting).id ];
  sell_order_id = elim side [ buy ↦ (b.object resting).id | sell ↦ (b.object order).id ];
  price = price;
  quantity = qty;
  timestamp_us = (b.object order).timestamp_us;
}

-- The locals of the inner loop: the level is a reference into the map, written back when it ends.
pub record Sweep : Type 0 where
  pub book : OrderBook
  pub level : Level
  pub result : List Trade

-- `order->fill(qty); resting->fill(qty);`
unfoldable pub exchange : Ptr → Ptr → ℕ → OrderBook → OrderBook
exchange order resting qty b =
    modify_object resting (λ o. fill o qty) (modify_object order (λ o. fill o qty) b)

-- `next_trade_id_++` and `trades_.push_back(t)`
unfoldable pub record_trade : Trade → OrderBook → OrderBook
record_trade t b = record b {
  next_trade_id = u64 (b.next_trade_id + 1);
  trades = b.trades ++ t ∷ [];
}

-- Both fills, the trade and its record, and the stops that its price sets off.
unfoldable pub execute : Side → Ptr → Ptr → ℤ → ℕ → Sweep → Sweep
execute side order resting price qty s =
    let b = exchange order resting qty s.book in
    let t = make_trade side order resting price qty b in
    record s { book = check_stop_triggers price (record_trade t b); result = s.result ++ t ∷ [] }

-- What becomes of the resting order: it leaves the book, shows its next lot, or stays as it is.
unfoldable pub settle : Ptr → Level → Sweep → Sweep
settle resting rest s =
    let r = s.book.object resting in
    if is_filled r
    then record s {
      book = record (s.book) { active_orders = active_erase r.id s.book.active_orders };
      level = rest;
    }
    else (if is_iceberg r && visible_qty r == 0
        then record s { book = modify_object resting replenish s.book }
        else s)

unfoldable pub available : Order → ℕ
available r = if is_iceberg r then visible_qty r else r.leaves_qty

-- One round of the inner loop, on the front of the level.
unfoldable pub match_front : Side → Ptr → ℤ → Level → Sweep → Sweep
match_front side order price [] s = s
match_front side order price (resting ∷ rest) s =
    let r = s.book.object resting in
    if available r == 0
    then record s { level = rest }
    else (let qty = min (s.book.object order).leaves_qty (available r) in
        settle resting rest (execute side order resting price qty s))

-- `order->isActive() && !level.empty()`
unfoldable pub level_test : Ptr → Sweep → Bool
level_test order s = is_active (s.book.object order) && not (is_empty s.level)

-- Enough for the inner loop: each round pops an order or takes from the incoming one's leaves.
abbrev pub level_fuel : Ptr → Sweep → ℕ
level_fuel order s = (s.book.object order).leaves_qty + length s.level + 2

unfoldable pub match_level : Side → Ptr → ℤ → Sweep → Option Sweep
match_level side order price s =
    while (level_test order) (λ t. some (match_front side order price t.level t))
      (level_fuel order s) s
