-- ===== src/Tests/Sample.antt =====
-- A small book, on which the theorems about src/orderbook.cpp are applied.
use limit_order_book_matchin.Base.{
  ℕ, zero, suc, ◌≡◌, refl, [], ◌∷◌, Option, none, some, ℤ, pos, map, while, arith,
}
use limit_order_book_matchin.Order.{
  Order, Side, buy, sell, limit, new_order, new_iceberg, new_stop_loss, is_filled, is_market,
  is_iceberg, is_stop_loss, is_active, visible_qty, replenish, trigger, fill,
}
use limit_order_book_matchin.Order.Quantities.{IsClosed, IsSound, new_iceberg-IsSound}
use limit_order_book_matchin.PriceMap.{Ptr, push_back, before}
use limit_order_book_matchin.OrderBook.State.{
  OrderBook, Trade, levels, modify_object, active_set, active_erase, add_to_book,
}
use limit_order_book_matchin.OrderBook.Stops.{check_stop_triggers, scan_stops, fires}
use limit_order_book_matchin.OrderBook.Sweep.{
  match_level, level_test, match_front, available, execute, exchange, make_trade, record_trade,
  settle,
}
use limit_order_book_matchin.OrderBook.Matching.{
  Progress, match, match_own_side, match_buy, match_sell, match_side, book_test, match_best,
  close_level, past_limit, rest_in_book, run_cascade, run_triggered, run_batch, triggered_test,
}
use limit_order_book_matchin.Book.WellFormed.{IsWellFormed, SideOk}
use limit_order_book_matchin.Book.Uncrossed.{IsUncrossed}

-- A sell iceberg of 30 in lots of 10, a bid of 5, a pending sell stop of 4, and a buy order of 37.
unfoldable pub sample_object : Ptr → Order
unfolding new_order new_iceberg new_stop_loss
sample_object zero = new_iceberg 11 (pos 1) sell (pos 100) 30 10
sample_object (suc zero) = new_order 12 (pos 2) buy limit (pos 95) 5
sample_object (suc (suc zero)) = new_stop_loss 13 (pos 3) sell (pos 100) (pos 90) 4
sample_object (suc (suc (suc zero))) = new_order 14 (pos 4) buy limit (pos 101) 37
sample_object _ = new_order 0 (pos 0) buy limit (pos 0) 0

abbrev pub sample_book : OrderBook
sample_book = record {
  object = sample_object;
  next_ptr = 4;
  bids = (pos 95, 1 ∷ []) ∷ [];
  asks = (pos 100, 0 ∷ []) ∷ [];
  active_orders = (11, 0) ∷ (12, 1) ∷ [];
  pending_stops = 2 ∷ [];
  triggered_stops = [];
  trades = [];
  next_trade_id = 7;
}

abbrev or_else : Progress → Option Progress → Progress
or_else d none = d
or_else d (some r) = r

-- What a match of the buy order leaves.
unfoldable pub sample_run : Progress
unfolding match match_own_side match_buy match_sell match_side while book_test match_best
    match_level level_test match_front available execute exchange make_trade record_trade
    check_stop_triggers scan_stops fires settle modify_object fill trigger replenish close_level
    past_limit rest_in_book add_to_book push_back before active_set active_erase run_cascade
    run_triggered run_batch triggered_test is_filled is_market is_iceberg is_stop_loss is_active
    visible_qty sample_object new_order new_iceberg new_stop_loss
sample_run = or_else (record { book = sample_book; result = [] }) (match 3 sample_book)

pub sample_run_lem : match 3 sample_book ≡ some sample_run
unfolding match match_own_side match_buy match_sell match_side while book_test match_best
    match_level level_test match_front available execute exchange make_trade record_trade
    check_stop_triggers scan_stops fires settle modify_object fill trigger replenish close_level
    past_limit rest_in_book add_to_book push_back before active_set active_erase run_cascade
    run_triggered run_batch triggered_test is_filled is_market is_iceberg is_stop_loss is_active
    visible_qty sample_run sample_object new_order new_iceberg new_stop_loss
sample_run_lem = refl

-- Every order of the sample has something left, or is no order of it.
sample-IsClosed : (p : Ptr) → IsClosed (sample_object p)
unfolding is_active sample_object
sample-IsClosed zero = ground arith
sample-IsClosed (suc zero) = ground arith
sample-IsClosed (suc (suc zero)) = ground arith
sample-IsClosed (suc (suc (suc zero))) = ground arith
sample-IsClosed (suc (suc (suc (suc p)))) = λ _. refl

sample_sides : (side : Side) → SideOk side sample_object (levels side sample_book)
unfolding sample_object
sample_sides buy = ((tt, tt), ((refl, ((refl, refl), tt)), tt))
sample_sides sell = ((tt, tt), ((refl, ((refl, refl), tt)), tt))

pub sample-IsWellFormed : IsWellFormed sample_book
sample-IsWellFormed = record { sides = sample_sides; closed = sample-IsClosed }

abbrev trade_summary : Trade → ℕ × ℕ × ℕ × ℤ × ℕ
trade_summary t = (t.trade_id, t.buy_order_id, t.sell_order_id, t.price, t.quantity)

-- Three lots of the iceberg, then the stop that they trigger, against what the buy order left.
sample_trades :
    map trade_summary sample_run.result
    ≡ (7, 14, 11, pos 100, 10)
      ∷ (8, 14, 11, pos 100, 10)
      ∷ (9, 14, 11, pos 100, 10)
      ∷ (10, 14, 13, pos 101, 4)
      ∷ []
unfolding sample_run
sample_trades = refl

pub sample-IsUncrossed : IsUncrossed sample_book
sample-IsUncrossed = ((ground arith, tt), tt)

-- The same without the cascade.
unfoldable pub sample_side_run : Progress
unfolding match match_own_side match_buy match_sell match_side while book_test match_best
    match_level level_test match_front available execute exchange make_trade record_trade
    check_stop_triggers scan_stops fires settle modify_object fill trigger replenish close_level
    past_limit rest_in_book add_to_book push_back before active_set active_erase run_cascade
    run_triggered run_batch triggered_test is_filled is_market is_iceberg is_stop_loss is_active
    visible_qty sample_object new_order new_iceberg new_stop_loss
sample_side_run =
    or_else (record { book = sample_book; result = [] })
      (match_side (sample_object 3).side 3 sample_book)

pub sample_side_run_lem : match_side (sample_object 3).side 3 sample_book ≡ some sample_side_run
unfolding match match_own_side match_buy match_sell match_side while book_test match_best
    match_level level_test match_front available execute exchange make_trade record_trade
    check_stop_triggers scan_stops fires settle modify_object fill trigger replenish close_level
    past_limit rest_in_book add_to_book push_back before active_set active_erase run_cascade
    run_triggered run_batch triggered_test is_filled is_market is_iceberg is_stop_loss is_active
    visible_qty sample_side_run sample_object new_order new_iceberg new_stop_loss
sample_side_run_lem = refl

abbrev pub sample_iceberg : Order
sample_iceberg = new_iceberg 11 (pos 1) sell (pos 100) 30 10

pub sample_iceberg-IsSound : IsSound sample_iceberg
sample_iceberg-IsSound =
    new_iceberg-IsSound 11 (pos 1) sell (pos 100) 30 10 (omega arith) (omega arith)
