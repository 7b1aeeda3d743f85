-- ===== src/Tests/Baselines.antt =====
-- A session of limit orders on the book of benchmark/baseline_stl.cpp and on the engine.
use limit_order_book_matchin.Base.{
  ℕ, ◌≡◌, refl, All, List, [], ◌∷◌, map, some, ℤ, pos, arith, while, ◌>>=◌, ◌==◌, if◌then◌else◌,
}
use limit_order_book_matchin.Order.{
  Order, Side, buy, sell, limit, new_order, is_active, is_market, is_iceberg,
}
use limit_order_book_matchin.PriceMap.{Ptr, push_back, before}
use limit_order_book_matchin.OrderBook.State.{OrderBook, levels}
use limit_order_book_matchin.OrderBook.Matching.{Progress, match_side, past_limit}
use limit_order_book_matchin.Matching.Termination.{match_side_total}
use limit_order_book_matchin.Matching.Priority.Spent.{queue}
use limit_order_book_matchin.MatchingEngine.{MatchingEngine, new_engine, serve_all}
use limit_order_book_matchin.Book.Fresh.{new_order-IsClosed}
use limit_order_book_matchin.Baseline.{
  SimpleTrade, BaselineLob, simple_trade, serve_front, serving_test, serve_level, walking_test,
  walk_best, walk_levels, baseline_match, new_baseline, Quote, run_baseline,
}
use limit_order_book_matchin.Baseline.Termination.{baseline_match_total}
use limit_order_book_matchin.Baseline.Agreement.{Plain, simple_of}
use limit_order_book_matchin.Baseline.Equivalence.{IsPlain, match_side-baseline_match}
use limit_order_book_matchin.Baseline.Equivalence.Joining.{seen}
use limit_order_book_matchin.Baseline.Sessions.{limit_requests, run_baseline-serve_all}
use limit_order_book_matchin.Tests.Engine.{blank}

abbrev quote : Side → ℤ → ℕ → Quote
quote side price qty = record { side = side; price = price; qty = qty }

-- Two asks at one price, one above, and a buy that takes the first, part of the second, and no more.
abbrev quotes : List Quote
quotes =
    quote sell (pos 100) 10
    ∷ quote sell (pos 101) 5
    ∷ quote sell (pos 100) 7
    ∷ quote buy (pos 100) 12
    ∷ []

quotes_trades :
    (run_baseline quotes new_baseline >>= λ r. some r.1)
    ≡ some (simple_trade buy 4 1 (pos 100) 10 ∷ simple_trade buy 4 3 (pos 100) 2 ∷ [])
unfolding run_baseline baseline_match walk_levels walking_test walk_best serve_level serving_test
    serve_front while push_back before past_limit
quotes_trades = refl

abbrev lob : BaselineLob
lob = record {
  bids = [];
  asks = (pos 100, record { id = 1; price = pos 100; qty = 10 } ∷ []) ∷ [];
  next_id = 2;
}

baseline_match_total_example :
    (r : BaselineLob × List SimpleTrade) × (baseline_match buy (pos 100) 12 lob ≡ some r)
baseline_match_total_example = baseline_match_total buy (pos 100) 12 lob

run_baseline-serve_all_example :
    (e : MatchingEngine) × (serve_all (limit_requests (λ n. pos n) quotes) (new_engine (λ _. blank))
      ≡ some e)
    × (run_baseline quotes new_baseline ≡ some (seen e.next_id e.book, map simple_of e.book.trades))
run_baseline-serve_all_example =
    run_baseline-serve_all (λ n. pos n) quotes blank
      (new_order-IsClosed 0 (pos 0) buy limit (pos 0) 0)
      (omega arith, (omega arith, (omega arith, (omega arith, tt)))) (omega arith)

-- A book with one ask, and a buy order for more than it has.
unfoldable quoted_object : Ptr → Order
unfolding new_order
quoted_object p =
    if p == 0
    then new_order 1 (pos 1) sell limit (pos 100) 10
    else new_order 2 (pos 2) buy limit (pos 100) 12

abbrev quoted_book : OrderBook
quoted_book = record {
  object = quoted_object;
  next_ptr = 2;
  bids = [];
  asks = (pos 100, 0 ∷ []) ∷ [];
  active_orders = (1, 0) ∷ [];
  pending_stops = [];
  triggered_stops = [];
  trades = [];
  next_trade_id = 1;
}

abbrev quoted_run : (r : Progress) × (match_side (quoted_object 1).side 1 quoted_book ≡ some r)
quoted_run = match_side_total (quoted_object 1).side 1 quoted_book

quoted_book-IsPlain : IsPlain (λ p. p) 1 quoted_book
unfolding quoted_object new_order is_market is_iceberg is_active
quoted_book-IsPlain = record {
  limit = refl;
  live = refl;
  plain = by_side;
  once = λ i. ground arith;
}
  where
    by_side : (side : Side) → All (λ p. Plain (quoted_object p)) (queue (levels side quoted_book))
    by_side buy = tt
    by_side sell = ((refl, omega arith), tt)

match_side-baseline_match_example :
    baseline_match buy (pos 100) 12 (seen 2 quoted_book)
    ≡ some (seen 3 quoted_run.0.book, map simple_of quoted_run.0.result)
unfolding quoted_object new_order
match_side-baseline_match_example =
    match_side-baseline_match (λ p. p) 1 quoted_book quoted_run.1 quoted_book-IsPlain
