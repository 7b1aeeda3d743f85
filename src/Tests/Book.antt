-- ===== src/Tests/Book.antt =====
-- Cases of tests/test_orderbook.cpp, run on the model.
use limit_order_book_matchin.Base.{
  ℕ, List, [], ◌∷◌, Option, some, ◌≡◌, refl, ℤ, pos, map, ◌>>=◌, while,
}
use limit_order_book_matchin.Order.{
  Order, Side, buy, sell, limit, new_order, new_iceberg, new_stop_loss, is_filled, is_market,
  is_iceberg, is_stop_loss, is_active, visible_qty, replenish, trigger, fill,
}
use limit_order_book_matchin.PriceMap.{push_back, before}
use limit_order_book_matchin.OrderBook.State.{
  OrderBook, Trade, empty_book, new_object, modify_object, active_set, active_erase, add_to_book,
}
use limit_order_book_matchin.OrderBook.Stops.{check_stop_triggers, scan_stops, fires}
use limit_order_book_matchin.OrderBook.Sweep.{
  match_level, level_test, match_front, available, execute, exchange, make_trade, record_trade,
  settle,
}
use limit_order_book_matchin.OrderBook.Matching.{
  match, match_own_side, match_buy, match_sell, match_side, book_test, match_best, close_level,
  past_limit, rest_in_book, run_cascade, run_triggered, run_batch, triggered_test,
}
use limit_order_book_matchin.OrderBook.Requests.{active_order_count}

abbrev limit_order : ℕ → Side → ℕ → ℕ → Order
unfolding new_order
limit_order id side price qty = new_order id (pos id) side limit (pos price) qty

abbrev run : List Order → OrderBook → Option OrderBook
unfolding match new_object match_own_side match_buy match_sell match_side while book_test match_best
    match_level level_test match_front available execute exchange make_trade record_trade
    check_stop_triggers scan_stops fires settle modify_object fill trigger replenish close_level
    past_limit rest_in_book add_to_book push_back before active_set active_erase run_cascade
    run_triggered run_batch triggered_test is_filled is_market is_iceberg is_stop_loss is_active
    visible_qty
run [] b = some b
run (o ∷ os) b = match b.next_ptr (new_object o b) >>= λ s. run os s.book

abbrev start : OrderBook
unfolding empty_book new_order
start = empty_book (λ _. new_order 0 (pos 0) buy limit (pos 0) 0) 0

abbrev summary : OrderBook → List (ℕ × ℕ × ℕ × ℤ × ℕ)
summary b =
    map (λ (t : Trade). (t.trade_id, t.buy_order_id, t.sell_order_id, t.price, t.quantity)) b.trades

abbrev outcome : List Order → Option (List (ℕ × ℕ × ℕ × ℤ × ℕ) × ℕ)
unfolding run start active_order_count
outcome os = run os start >>= λ b. some (summary b, active_order_count b)

simple_cross_full_fill :
    outcome (limit_order 1 buy 1000000 100 ∷ limit_order 2 sell 1000000 100 ∷ [])
    ≡ some ((1, 1, 2, pos 1000000, 100) ∷ [], 0)
unfolding outcome
simple_cross_full_fill = refl

stops :
    outcome (
      limit_order 1 buy 995000 200
      ∷ new_stop_loss 2 (pos 2) sell (pos 995000) (pos 994000) 100
      ∷ limit_order 3 sell 995000 50
      ∷ [])
    ≡ some ((1, 1, 3, pos 995000, 50) ∷ (2, 1, 2, pos 995000, 100) ∷ [], 1)
unfolding outcome new_stop_loss
stops = refl

iceberg_consumed :
    outcome (new_iceberg 1 (pos 1) buy (pos 1000000) 200 100 ∷ limit_order 2 sell 1000000 200 ∷ [])
    ≡ some ((1, 1, 2, pos 1000000, 100) ∷ (2, 1, 2, pos 1000000, 100) ∷ [], 0)
unfolding outcome new_iceberg
iceberg_consumed = refl

-- An iceberg whose lot is larger than its total trades its whole lot: the buyer of 50 gets 100.
iceberg_overfill :
    outcome (new_iceberg 1 (pos 1) buy (pos 1000000) 50 100 ∷ limit_order 2 sell 1000000 200 ∷ [])
    ≡ some ((1, 1, 2, pos 1000000, 100) ∷ [], 1)
unfolding outcome new_iceberg
iceberg_overfill = refl

-- An iceberg that has traded at least its lot as the taker rests with nothing shown, and the next
-- order of the other side pops it from its level: the last order does not trade.
iceberg_lost :
    outcome (
      limit_order 1 sell 1000000 300
      ∷ new_iceberg 2 (pos 1) buy (pos 1000000) 500 100
      ∷ limit_order 3 sell 1000000 200
      ∷ [])
    ≡ some ((1, 2, 1, pos 1000000, 300) ∷ [], 2)
unfolding outcome new_iceberg
iceberg_lost = refl
