-- ===== src/Tests/Demos.antt =====
-- The demonstrations of src/main.cpp, run.
use limit_order_book_matchin.Base.{
  ℕ, ◌≡◌, refl, List, [], ◌∷◌, ◌++◌, map, some, ℤ, pos, while, ◌>>=◌,
}
use limit_order_book_matchin.Order.{
  buy, limit, new_order, new_iceberg, new_stop_loss, is_filled, is_market, is_iceberg, is_stop_loss,
  is_active, visible_qty, replenish, trigger, fill,
}
use limit_order_book_matchin.PriceMap.{push_back, before}
use limit_order_book_matchin.OrderBook.State.{
  Trade, empty_book, new_object, modify_object, active_set, active_erase, add_to_book,
}
use limit_order_book_matchin.OrderBook.Stops.{check_stop_triggers, scan_stops, fires}
use limit_order_book_matchin.OrderBook.Sweep.{
  match_level, level_test, match_front, available, execute, exchange, make_trade, record_trade,
  settle,
}
use limit_order_book_matchin.OrderBook.Matching.{
  match, match_own_side, match_buy, match_sell, match_side, book_test, match_best, close_level,
  past_limit, rest_in_book, run_cascade, run_triggered, run_batch, triggered_test,
}
use limit_order_book_matchin.MatchingEngine.{
  MatchingEngine, new_engine, submit, submit_limit, submit_market, submit_iceberg, submit_stop_loss,
  serve, serve_all,
}
use limit_order_book_matchin.Book.Fresh.{new_order-IsClosed}
use limit_order_book_matchin.Baseline.{Quote}
use limit_order_book_matchin.Baseline.Sessions.{limit_requests}
use limit_order_book_matchin.Demo.{
  iceberg_demo, stop_loss_demo, buy_thread, sell_thread, Merge, merged, from_left, from_right,
  MultiThreaded,
}
use limit_order_book_matchin.Demo.Apart.{MultiThreaded-idle}
use limit_order_book_matchin.Tests.Engine.{blank}

abbrev summary : MatchingEngine → List (ℕ × ℕ × ℤ × ℕ)
summary e =
    map (λ (t : Trade). (t.buy_order_id, t.sell_order_id, t.price, t.quantity)) e.book.trades

-- The iceberg takes the first sell order, and then trades in lots of what it shows.
iceberg_trades :
    (serve_all (iceberg_demo (λ n. pos n)) (new_engine (λ _. blank)) >>= λ e. some (summary e))
    ≡ some (
        (2, 1, pos 1000000, 30)
        ∷ (2, 3, pos 1000000, 70)
        ∷ (2, 3, pos 1000000, 50)
        ∷ (2, 4, pos 1000000, 50)
        ∷ (2, 4, pos 1000000, 100)
        ∷ (2, 4, pos 1000000, 100)
        ∷ (2, 4, pos 1000000, 50)
        ∷ [])
unfolding match match_own_side match_buy match_sell match_side while book_test match_best
    match_level level_test match_front available execute exchange make_trade record_trade
    check_stop_triggers scan_stops fires settle modify_object fill trigger replenish close_level
    past_limit rest_in_book add_to_book push_back before active_set active_erase run_cascade
    run_triggered run_batch triggered_test is_filled is_market is_iceberg is_stop_loss is_active
    visible_qty new_order new_iceberg new_stop_loss serve_all serve submit submit_limit
    submit_market submit_iceberg submit_stop_loss new_engine empty_book new_object iceberg_demo
iceberg_trades = refl

-- The market order clears the first bid, and the limit order's trade sets the stop off, which then sells
-- to the same bid: at the price of its trigger, above its limit.
stop_loss_trades :
    (serve_all (stop_loss_demo (λ n. pos n)) (new_engine (λ _. blank)) >>= λ e. some (summary e))
    ≡ some ((1, 4, pos 998000, 100) ∷ (2, 5, pos 995000, 50) ∷ (2, 3, pos 995000, 100) ∷ [])
unfolding match match_own_side match_buy match_sell match_side while book_test match_best
    match_level level_test match_front available execute exchange make_trade record_trade
    check_stop_triggers scan_stops fires settle modify_object fill trigger replenish close_level
    past_limit rest_in_book add_to_book push_back before active_set active_erase run_cascade
    run_triggered run_batch triggered_test is_filled is_market is_iceberg is_stop_loss is_active
    visible_qty new_order new_iceberg new_stop_loss serve_all serve submit submit_limit
    submit_market submit_iceberg submit_stop_loss new_engine empty_book new_object stop_loss_demo
stop_loss_trades = refl

-- The calls of one list, then those of the other.
in_turn : (xs ys : List Quote) → Merge xs ys (xs ++ ys)
in_turn [] [] = merged
in_turn [] (y ∷ ys) = from_right (in_turn [] ys)
in_turn (x ∷ xs) ys = from_left (in_turn xs ys)

abbrev thread_by_thread : List Quote
thread_by_thread = (buy_thread 0 ++ buy_thread 1) ++ (sell_thread 0 ++ sell_thread 1)

thread_by_thread-MultiThreaded : MultiThreaded thread_by_thread
thread_by_thread-MultiThreaded = record {
  bought = buy_thread 0 ++ buy_thread 1;
  sold = sell_thread 0 ++ sell_thread 1;
  buys = in_turn (buy_thread 0) (buy_thread 1);
  sells = in_turn (sell_thread 0) (sell_thread 1);
  both = in_turn (buy_thread 0 ++ buy_thread 1) (sell_thread 0 ++ sell_thread 1);
}

MultiThreaded-idle_example :
    (e : MatchingEngine) × (serve_all
        (limit_requests (λ n. pos n) thread_by_thread)
        (new_engine (λ _. blank))
      ≡ some e)
    × (e.book.trades ≡ [])
MultiThreaded-idle_example =
    MultiThreaded-idle (λ n. pos n) thread_by_thread blank
      (new_order-IsClosed 0 (pos 0) buy limit (pos 0) 0) thread_by_thread-MultiThreaded
