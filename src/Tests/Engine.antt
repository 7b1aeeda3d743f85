-- ===== src/Tests/Engine.antt =====
-- A small session and a small pool, on which the theorems about the engine of src/matching_engine.cpp,
-- the pool of include/memory_pool.h and `modifyOrder` are applied.
use limit_order_book_matchin.Base.{
  ℕ, ◌+◌, ◌<◌, ◌≡◌, refl, false, List, [], ◌∷◌, ◌++◌, some, pos, arith, while, ◌>>=◌,
}
use limit_order_book_matchin.Order.{Order, Side, buy, sell, limit, new_order}
use limit_order_book_matchin.OrderBook.State.{levels}
use limit_order_book_matchin.OrderBook.Requests.{modify_order}
use limit_order_book_matchin.Book.Known.{LevelsKnown}
use limit_order_book_matchin.Book.WellFormed.{IsWellFormed}
use limit_order_book_matchin.Book.Uncrossed.{IsUncrossed}
use limit_order_book_matchin.Book.Fresh.{IsAllocated, modify_order-IsWellFormed, new_order-IsClosed}
use limit_order_book_matchin.MatchingEngine.{
  MatchingEngine, new_engine, Request, limit_request, market_request, iceberg_request,
  stop_loss_request, cancel_request, modify_request, serve_all,
}
use limit_order_book_matchin.MatchingEngine.Sessions.{IsReady, serve_all_total, serve_all-IsReady}
use limit_order_book_matchin.MatchingEngine.Uncrossed.{serve_all-IsUncrossed}
use limit_order_book_matchin.MemoryPool.{
  MemoryPool, new_pool, grow, link_slab, push_free, allocate, deallocate, free_count,
  total_capacity,
}
use limit_order_book_matchin.MemoryPool.Slots.{IsPool, new_pool-IsPool}
use limit_order_book_matchin.MemoryPool.Allocation.{
  Allocated, allocate-Allocated, deallocate-IsPool, free_count-total,
}
use limit_order_book_matchin.ConcurrentEngine.{Consumer, enqueue_market, enqueue_sentinel}
use limit_order_book_matchin.ConcurrentEngine.Dispatch.{
  Submission, limit_submission, market_submission, cancel_submission, enqueue_all, Served,
  consumer_loop-Served,
}
use limit_order_book_matchin.Depth.{
  Row, sum_rows, reversed, ask_lines, bid_lines, collect_rows, depth_asks,
}
use limit_order_book_matchin.Depth.Totals.{depth_asks_lem}
use limit_order_book_matchin.Tests.Sample.{sample_book, sample-IsWellFormed}

abbrev pub blank : Order
blank = new_order 0 (pos 0) buy limit (pos 0) 0

abbrev pub session : List Request
session =
    limit_request sell (pos 100) 30 (pos 1)
    ∷ iceberg_request sell (pos 101) 40 10 (pos 2)
    ∷ stop_loss_request sell (pos 100) (pos 90) 5 (pos 3)
    ∷ limit_request buy (pos 101) 45 (pos 4)
    ∷ market_request buy 3 (pos 5)
    ∷ cancel_request 2
    ∷ []

abbrev pub session_and_modify : List Request
session_and_modify =
    session ++ limit_request buy (pos 80) 7 (pos 6) ∷ modify_request 6 (pos 81) 9 (pos 7) ∷ []

abbrev pub session_end :
    (e : MatchingEngine) × (serve_all session (new_engine (λ _. blank)) ≡ some e)
session_end = serve_all_total session (new_engine (λ _. blank))

abbrev pub modified_end :
    (e : MatchingEngine) × (serve_all session_and_modify (new_engine (λ _. blank)) ≡ some e)
modified_end = serve_all_total session_and_modify (new_engine (λ _. blank))

serve_all_total_example :
    (e : MatchingEngine) × (serve_all session_and_modify (new_engine (λ _. blank)) ≡ some e)
serve_all_total_example = serve_all_total session_and_modify (new_engine (λ _. blank))

serve_all-IsReady_example : IsReady modified_end.0.book
serve_all-IsReady_example =
    serve_all-IsReady session_and_modify blank modified_end.1
      (new_order-IsClosed 0 (pos 0) buy limit (pos 0) 0)

serve_all-IsUncrossed_example : IsUncrossed session_end.0.book
serve_all-IsUncrossed_example =
    serve_all-IsUncrossed session blank (refl, (refl, (refl, (refl, (refl, (refl, tt))))))
      session_end.1 (new_order-IsClosed 0 (pos 0) buy limit (pos 0) 0)

pub sample-IsAllocated : IsAllocated sample_book
sample-IsAllocated = record { sides = known; stops = ((omega arith, tt), tt) }
  where
    known : (side : Side) → LevelsKnown (λ p. p < 4) (levels side sample_book)
    known buy = ((omega arith, tt), tt)
    known sell = ((omega arith, tt), tt)

modify_order-IsWellFormed_example :
    let c = (modify_order 12 (pos 97) 8 (pos 9) sample_book).0 in IsWellFormed c × IsAllocated c
modify_order-IsWellFormed_example =
    modify_order-IsWellFormed 12 (pos 97) 8 (pos 9) sample_book sample-IsAllocated
      sample-IsWellFormed

-- A pool of numbers in slabs of two.
abbrev pool : MemoryPool ℕ
pool = new_pool 2

some_size : 0 < pool.slab_size
unfolding new_pool grow link_slab push_free
some_size = omega arith

abbrev taken : Allocated 41 pool []
taken = allocate-Allocated 41 pool (new_pool-IsPool 2).0 [] some_size (new_pool-IsPool 2).1

three_taken :
    (allocate 41 pool >>= λ a.
    allocate 42 a.0 >>= λ b. allocate 43 b.0 >>= λ c. free_count (deallocate a.1 c.0))
    ≡ some 2
unfolding allocate new_pool grow link_slab push_free deallocate free_count while
three_taken = refl

allocate-Allocated_example : Allocated 41 pool []
allocate-Allocated_example =
    allocate-Allocated 41 pool (new_pool-IsPool 2).0 [] some_size (new_pool-IsPool 2).1

deallocate-IsPool_example : IsPool (deallocate taken.block taken.pool) (taken.block ∷ taken.free) []
deallocate-IsPool_example = deallocate-IsPool taken.pool taken.block taken.free [] [] taken.owned

free_count-total_example :
    (n : ℕ) × (free_count taken.pool ≡ some n) × (n + 1 ≡ total_capacity taken.pool)
free_count-total_example = free_count-total taken.pool taken.free (taken.block ∷ []) taken.owned

abbrev submissions : List Submission
submissions =
    limit_submission sell (pos 100) 30
    ∷ limit_submission buy (pos 101) 45
    ∷ market_submission sell 3
    ∷ cancel_submission 2
    ∷ []

abbrev new_consumer : Consumer
new_consumer = record {
  engine = new_engine (λ _. blank);
  events_processed = 0;
  dispatched = 0;
  queue = [];
  stopped = false;
}

consumer_loop-Served_example :
    Served
      (λ n. pos n)
      submissions
      (enqueue_sentinel (enqueue_all submissions []) ++ enqueue_market buy 9 [])
      (enqueue_market buy 9 [])
      new_consumer
consumer_loop-Served_example =
    consumer_loop-Served (λ n. pos n) submissions (enqueue_market buy 9 []) new_consumer

depth_asks_lem_example :
    depth_asks sample_book (pos 5)
    ≡ reversed (bid_lines 0 (collect_rows sample_book (pos 5) sample_book.asks []))
depth_asks_lem_example = depth_asks_lem sample_book (pos 5)

abbrev rows : List Row
rows = (pos 101, 5) ∷ (pos 102, 7) ∷ []

-- Two rows, the farther one first, under the total of both.
two_rows : ask_lines (sum_rows 0 rows) (reversed rows) ≡ (pos 102, 7, 12) ∷ (pos 101, 5, 5) ∷ []
unfolding ask_lines sum_rows
two_rows = refl
