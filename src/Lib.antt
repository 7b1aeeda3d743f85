-- ===== src/Lib.antt =====
-- A limit order book with price-time priority: orders (include/order.h, src/order.cpp), the order book
-- that matches them (include/orderbook.h, src/orderbook.cpp), the engine that makes them and passes
-- requests on (include/matching_engine.h, src/matching_engine.cpp), the pool that they are allocated
-- from (include/memory_pool.h), the queued engine under benchmark/, whose consumer thread passes the
-- producers' events to an engine, and the plain book that benchmark/baseline_stl.cpp compares it with.
--
-- A caller gives an order to `OrderBook::match`. A stop order waits in `pending_stops_`. Any other
-- order is matched against the best levels of the other side by `matchBuy` or `matchSell`, and what
-- is left of it rests in the map of its own side, unless it is a market order. Each trade fills both
-- orders, is recorded, and runs `checkStopTriggers`, which stages the stops that its price fires;
-- `match` runs the staged stops in batches until none is left.
--
--   Order.antt               Order: the constructors and methods of include/order.h, src/order.cpp
--   Order/Quantities.antt    what they keep of the order's quantities
--   PriceMap.antt            the std::map of levels that a side of the book is
--   PriceMap/Sorted.antt     its order
--   OrderBook/State.antt     the members of OrderBook and addToBook
--   OrderBook/Stops.antt     checkStopTriggers
--   OrderBook/Sweep.antt     makeTrade and the inner loop of matchBuy and matchSell
--   OrderBook/Matching.antt  matchBuy, matchSell and match
--   OrderBook/Requests.antt  cancelOrder (cancelLocked), modifyOrder and the queries
--   Matching/*               what a match does: its loops, its trades (Fairness, Settlement,
--                            Ledger), its stops, its priority
--   Book/*                   what a match, a cancellation and a modification keep of the book: its form
--                            (WellFormed, Uncrossed), the objects it knows (Known, Fresh), which orders
--                            it holds (Tally), the index of ids (Index to Relisted), where an order comes to
--                            rest (Completed), and the requests (Restored, Waiting, Modified, Quotes)
--   Depth.antt               the rows and totals of printDepth
--   Depth/Totals.antt        its running totals
--   MatchingEngine.antt      MatchingEngine: the requests of src/matching_engine.cpp
--   MatchingEngine/*         sessions: any requests, one after another, and what can be done after them
--   ConcurrentEngine.antt    OrderEvent and ConcurrentMatchingEngine (benchmark/order_event.h,
--                            benchmark/concurrent_matching_engine.cpp)
--   ConcurrentEngine/*       its consumer and what the producers submit
--   Baseline.antt            BaselineLOB and the loop of run_baseline (benchmark/baseline_stl.cpp)
--   Baseline/Agreement.antt  what the baseline sees of an order; Level, Walk and Equivalence take the
--                            inner loop, the outer loop and the whole match in step, Plain and Sessions
--                            one order after another
--   Demo.antt                the demonstrations of src/main.cpp; Demo/Apart.antt on its threads
--   MemoryPool.antt          MemoryPool of include/memory_pool.h
--   MemoryPool/*             its free list, and which blocks are handed out
--   Base/*                   tests, integers, list lemmas and the while loop
--   Tests/*                  cases of tests/test_orderbook.cpp, a sample book, and the demonstrations run
--
-- A `std::shared_ptr<Order>` is the name of an object in the heap `object` of the book, so that the
-- incoming order, the levels, `active_` and the lists of stops share objects as in the program. A
-- level is a list of names, `bids_` and `asks_` are lists of levels in the order of their comparator,
-- and `active_` is an association list from ids. `matchBuy` and `matchSell` are one definition over
-- the side of the incoming order; all public methods hold the book's mutex throughout, so a method is
-- one function from a state to a state.
--
-- `uint64_t` is ℕ and `int64_t` is ℤ, with the wrap-around written out where the program can reach it:
-- the hidden quantity of an iceberg, the sum in `replenish`, the trade number. `spread` returns none
-- where its subtraction overflows. The result of `match` carries the new state of the book.
--
-- The loops run on fuel: the inner one on what the incoming order has left and the length of the
-- level, the outer one on the number of levels, the cascade on the number of stops that are staged or
-- pending. A round of the inner loop pops an order or takes from the incoming one, a round of the
-- outer one that is not the last erases a level, and no stop is triggered twice. The loop of `freeCount`
-- runs on the number of blocks, and the loops of the baseline on what the order wants and the length of
-- the level, and on the number of levels.
--
-- Not modelled: output (printBook, printTrades, print, the verbose log, the format of printDepth), the
-- mutexes, the reference counts of the shared pointers and which block of the pool an order lies in (the
-- engine makes an order as a new object of the book's heap), and so far the lock-free queue and the
-- generators of the workloads under benchmark/: the queue of events is the list of its contents, and a
-- workload is any list of calls. A request of the engine is served whole: that another thread may take
-- its id between `nextId` and `match` is left out.
mod Base
pub mod Order
pub mod PriceMap
pub mod OrderBook
mod Tests
pub mod Matching
pub mod Book
pub mod MemoryPool
pub mod Depth
pub mod Baseline
pub mod Demo
pub mod MatchingEngine
pub mod ConcurrentEngine
