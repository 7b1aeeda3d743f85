-- ===== src/Tests/Orders.antt =====
-- A short session, and what can be done to its orders.
use limit_order_book_matchin.Base.{◌≡◌, refl, List, [], ◌∷◌, some, pos, while}
use limit_order_book_matchin.Order.{
  buy, limit, new_order, new_iceberg, new_stop_loss, is_filled, is_market, is_iceberg, is_stop_loss,
  is_active, visible_qty, replenish, trigger, fill,
}
use limit_order_book_matchin.PriceMap.{push_back, before}
use limit_order_book_matchin.OrderBook.State.{
  empty_book, new_object, modify_object, active_set, active_erase, add_to_book,
}
use limit_order_book_matchin.OrderBook.Stops.{check_stop_triggers, scan_stops, fires}
use limit_order_book_matchin.OrderBook.Sweep.{
  match_level, level_test, match_front, available, execute, exchange, make_trade, record_trade,
  settle,
}
use limit_order_book_matchin.OrderBook.Matching.{
  match, match_own_side, match_buy, match_sell, match_side, book_test, match_best, close_level,
  past_limit, rest_in_book, run_cascade, run_triggered, run_batch, triggered_test,
}
use limit_order_book_matchin.MatchingEngine.{
  MatchingEngine, new_engine, submit, submit_limit, submit_market, submit_iceberg, submit_stop_loss,
  serve, serve_all,
}
use limit_order_book_matchin.Order.{sell}
use limit_order_book_matchin.Base.{Option, true, none, arith}
use limit_order_book_matchin.Order.Quantities.{IsClosed}
use limit_order_book_matchin.Book.Fresh.{new_order-IsClosed}
use limit_order_book_matchin.Book.Renamed.{id_of}
use limit_order_book_matchin.MatchingEngine.{
  Request, limit_request, stop_loss_request, engine_cancel_order,
}
use limit_order_book_matchin.MatchingEngine.Orders.{TakenOut, engine_cancel_order-TakenOut}
use limit_order_book_matchin.Tests.Engine.{blank}

-- Two sell orders at one price, one above, and a stop.
abbrev short_session : List Request
short_session =
    limit_request sell (pos 100) 10 (pos 1)
    ∷ limit_request sell (pos 100) 5 (pos 2)
    ∷ limit_request sell (pos 101) 7 (pos 3)
    ∷ stop_loss_request sell (pos 90) (pos 80) 4 (pos 4)
    ∷ []

abbrev engine_or : MatchingEngine → Option MatchingEngine → MatchingEngine
engine_or d none = d
engine_or d (some e) = e

unfoldable short_end : MatchingEngine
unfolding match match_own_side match_buy match_sell match_side while book_test match_best
    match_level level_test match_front available execute exchange make_trade record_trade
    check_stop_triggers scan_stops fires settle modify_object fill trigger replenish close_level
    past_limit rest_in_book add_to_book push_back before active_set active_erase run_cascade
    run_triggered run_batch triggered_test is_filled is_market is_iceberg is_stop_loss is_active
    visible_qty new_order new_iceberg new_stop_loss serve_all serve submit submit_limit
    submit_market submit_iceberg submit_stop_loss new_engine empty_book new_object
short_end = engine_or (new_engine (λ _. blank)) (serve_all short_session (new_engine (λ _. blank)))

short_end_lem : serve_all short_session (new_engine (λ _. blank)) ≡ some short_end
unfolding match match_own_side match_buy match_sell match_side while book_test match_best
    match_level level_test match_front available execute exchange make_trade record_trade
    check_stop_triggers scan_stops fires settle modify_object fill trigger replenish close_level
    past_limit rest_in_book add_to_book push_back before active_set active_erase run_cascade
    run_triggered run_batch triggered_test is_filled is_market is_iceberg is_stop_loss is_active
    visible_qty new_order new_iceberg new_stop_loss serve_all serve submit submit_limit
    submit_market submit_iceberg submit_stop_loss new_engine empty_book new_object short_end
short_end_lem = refl

blank-IsClosed : IsClosed blank
blank-IsClosed = new_order-IsClosed 0 (pos 0) buy limit (pos 0) 0

engine_cancel_order-TakenOut_example :
    let r = engine_cancel_order (id_of short_end.book 1) short_end in
    (r.1 ≡ true) × TakenOut sell (0 ∷ []) 1 (2 ∷ []) short_end.book r.0.book
unfolding short_end
engine_cancel_order-TakenOut_example =
    engine_cancel_order-TakenOut short_session blank short_end_lem blank-IsClosed (omega arith) sell
      (0 ∷ []) 1 (2 ∷ []) refl
