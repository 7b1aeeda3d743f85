-- ===== src/OrderBook/Matching.antt =====
-- src/orderbook.cpp: the outer loop of `matchBuy` and `matchSell`, and `match`.
use limit_order_book_matchin.Base.{
  ℕ, ◌+◌, Bool, true, not, ◌&&◌, ◌||◌, List, [], ◌∷◌, ◌++◌, Option, some, ℤ, ltb_ℤ, if◌then◌else◌,
  is_empty, length, while, ◌>>=◌,
}
use limit_order_book_matchin.Order.{Side, buy, sell, is_filled, is_market, is_stop_loss, is_active}
use limit_order_book_matchin.PriceMap.{Ptr, Levels}
use limit_order_book_matchin.OrderBook.State.{
  OrderBook, Trade, opposite, levels, with_levels, add_to_book,
}
use limit_order_book_matchin.OrderBook.Sweep.{Sweep, match_level}

-- The locals of the outer loop.
pub record Progress : Type 0 where
  pub book : OrderBook
  pub result : List Trade

-- A limit order may not trade past its price.
unfoldable pub past_limit : Side → ℤ → ℤ → Bool
past_limit buy level_price order_price = ltb_ℤ order_price level_price
past_limit sell level_price order_price = ltb_ℤ level_price order_price

abbrev pub best_is_past : Side → ℤ → Levels → Bool
best_is_past side order_price [] = true
best_is_past side order_price ((p, level) ∷ rest) = past_limit side p order_price

-- The test of the outer loop, with the `break` that follows it.
unfoldable pub book_test : Side → Ptr → Progress → Bool
book_test side order s =
    let o = s.book.object order in
    let m = levels (opposite side) s.book in
    is_active o && not (is_empty m) && (is_market o || not (best_is_past side o.price m))

unfoldable pub close_level : Side → ℤ → Levels → Sweep → Progress
close_level side price rest s = record {
  book =
      with_levels (opposite side) (if is_empty s.level then rest else (price, s.level) ∷ rest)
        s.book;
  result = s.result;
}

-- One round of the outer loop, on the best level.
unfoldable pub match_best : Side → Ptr → Levels → Progress → Option Progress
match_best side order [] s = some s
match_best side order ((price, level) ∷ rest) s =
    match_level side order price (record { book = s.book; level = level; result = s.result })
    >>= λ t. some (close_level side price rest t)

-- Enough for the outer loop: each round but the last erases a level.
abbrev pub book_fuel : Side → OrderBook → ℕ
book_fuel side b = length (levels (opposite side) b) + 2

-- `if (!order->isFilled() && !order->isMarket()) addToBook(order);`
unfoldable pub rest_in_book : Ptr → OrderBook → OrderBook
rest_in_book order b =
    let o = b.object order in
    if not (is_filled o) && not (is_market o) then add_to_book order b else b

unfoldable pub match_side : Side → Ptr → OrderBook → Option Progress
match_side side order b =
    while (book_test side order) (λ s. match_best side order (levels (opposite side) s.book) s)
      (book_fuel side b) (record { book = b; result = [] })
    >>= λ s. some (record s { book = rest_in_book order s.book })

unfoldable pub match_buy : Ptr → OrderBook → Option Progress
match_buy = match_side buy

unfoldable pub match_sell : Ptr → OrderBook → Option Progress
match_sell = match_side sell

-- `(order->side() == Side::BUY) ? matchBuy(order) : matchSell(order)`
unfoldable pub match_own_side : Ptr → OrderBook → Option Progress
match_own_side order b = elim (b.object order).side [
  | buy ↦ match_buy order b
  | sell ↦ match_sell order b
]

-- The `for` over a batch of stops.
unfoldable pub run_batch : List Ptr → Progress → Option Progress
run_batch [] s = some s
run_batch (stop ∷ rest) s = match_own_side stop s.book >>= λ t.
    run_batch rest (record { book = t.book; result = s.result ++ t.result })

-- One round of the `while` over the triggered stops: take the batch, clear the list, run it.
unfoldable pub run_triggered : Progress → Option Progress
run_triggered s =
    run_batch s.book.triggered_stops (record s { book = record (s.book) { triggered_stops = [] } })

unfoldable pub triggered_test : Progress → Bool
triggered_test s = not (is_empty s.book.triggered_stops)

-- Enough for the batches: no stop is triggered twice.
abbrev pub stops_left : Progress → ℕ
stops_left s = length s.book.triggered_stops + length s.book.pending_stops

unfoldable pub run_cascade : Progress → Option Progress
run_cascade s = while triggered_test run_triggered (stops_left s + 1) s

unfoldable pub match : Ptr → OrderBook → Option Progress
match order b =
    let o = b.object order in
    if is_stop_loss o && not o.triggered
    then some
        (record { book = record b { pending_stops = b.pending_stops ++ order ∷ [] }; result = [] })
    else match_own_side order b >>= run_cascade
