-- ===== src/Tests/Witnesses.antt =====
-- The theorems, applied to the sample book.
use limit_order_book_matchin.Base.{
  ◌+◌, ◌≡◌, ◌⊎◌, inl, true, false, not, [], ◌∷◌, ◌++◌, none, some, pos, filter, arith,
}
use limit_order_book_matchin.Order.{
  sell, is_iceberg, new_order, new_iceberg, visible_qty, fill, replenish,
}
use limit_order_book_matchin.Order.Quantities.{
  IsSound, new_iceberg-IsSound, FilledBy, fill-IsSound, replenish-IsSound,
}
use limit_order_book_matchin.PriceMap.{Ptr}
use limit_order_book_matchin.OrderBook.State.{active_find}
use limit_order_book_matchin.OrderBook.Stops.{check_stop_triggers, fires}
use limit_order_book_matchin.OrderBook.Matching.{Progress, match}
use limit_order_book_matchin.OrderBook.Requests.{cancel_order}
use limit_order_book_matchin.Matching.Termination.{match_total}
use limit_order_book_matchin.Matching.Settlement.{match-Settled}
use limit_order_book_matchin.Matching.Settlement.Deals.{Settled}
use limit_order_book_matchin.Tests.Engine.{sample-IsAllocated}
use limit_order_book_matchin.Base.{◌<◌, [], arith}
use limit_order_book_matchin.Order.{buy}
use limit_order_book_matchin.Matching.Ledger.{match_side-volume, match-Posted}
use limit_order_book_matchin.Matching.Ledger.Balance.{volume, Posted}
use limit_order_book_matchin.Matching.Priority.{UsesFront, match_side-UsesFront}
use limit_order_book_matchin.Matching.Stops.{StopsRun, match-StopsRun}
use limit_order_book_matchin.Matching.Stops.Scan.{check_stop_triggers-split}
use limit_order_book_matchin.Book.WellFormed.{IsWellFormed, match-IsWellFormed}
use limit_order_book_matchin.Book.Uncrossed.{IsUncrossed, match-IsUncrossed}
use limit_order_book_matchin.Book.Cancel.{cancel_order-IsWellFormed}
use limit_order_book_matchin.Book.Removed.{Removed, cancel_order-Removed, cancel_order_twice}
use limit_order_book_matchin.Tests.Sample.{
  sample_object, sample_book, sample_run, sample_run_lem, sample_side_run, sample_side_run_lem,
  sample-IsWellFormed, sample_iceberg, sample_iceberg-IsSound, sample-IsUncrossed,
}

match_total_example : (r : Progress) × (match 3 sample_book ≡ some r)
match_total_example = match_total 3 sample_book

match-Settled_example :
    Settled (λ p. p < 4) sample_book.object sample_book [] sample_run.book sample_run.result
match-Settled_example =
    match-Settled (λ p. p < 4) 3 sample_book sample_run_lem sample-IsWellFormed (omega arith)
      sample-IsAllocated

match-IsUncrossed_example : IsUncrossed sample_run.book
match-IsUncrossed_example =
    match-IsUncrossed 3 sample_book sample_run_lem sample-IsWellFormed sample-IsUncrossed

match-IsWellFormed_example : IsWellFormed sample_run.book
match-IsWellFormed_example = match-IsWellFormed 3 sample_book sample_run_lem sample-IsWellFormed

match-Posted_example : Posted sample_book sample_run.book sample_run.result
match-Posted_example = match-Posted 3 sample_book sample_run_lem sample-IsWellFormed

match-StopsRun_example : StopsRun 3 sample_book sample_run
match-StopsRun_example = match-StopsRun 3 sample_book sample_run_lem

match_side-UsesFront_example :
    UsesFront buy 3 sample_book sample_side_run.book sample_side_run.result
unfolding sample_object new_order
match_side-UsesFront_example = match_side-UsesFront 3 sample_book sample_side_run_lem

match_side-volume_example :
    volume sample_side_run.result + (sample_side_run.book.object 3).leaves_qty ≡ 37
unfolding sample_object new_order
match_side-volume_example = match_side-volume 3 sample_book sample_side_run_lem sample-IsWellFormed

cancel_order-IsWellFormed_example : IsWellFormed (cancel_order 11 sample_book).0
cancel_order-IsWellFormed_example = cancel_order-IsWellFormed 11 sample_book sample-IsWellFormed

cancel_order-Removed_example :
    let c = cancel_order 11 sample_book in
    ((active_find 11 sample_book.active_orders ≡ none) × (c ≡ (sample_book, false)))
    ⊎ ((p : Ptr) × (active_find 11 sample_book.active_orders ≡ some p)
        × (c.1 ≡ true)
        × Removed 11 p sample_book c.0)
cancel_order-Removed_example = cancel_order-Removed 11 sample_book sample-IsWellFormed

cancel_order_twice_example : (cancel_order 11 (cancel_order 11 sample_book).0).1 ≡ false
cancel_order_twice_example = cancel_order_twice 11 sample_book sample-IsWellFormed

check_stop_triggers-split_example :
    let c = check_stop_triggers (pos 99) sample_book in
    (c.pending_stops ≡ filter (λ p. not (fires (pos 99) (sample_book.object p))) (2 ∷ []))
    × (c.triggered_stops ≡ [] ++ filter (λ p. fires (pos 99) (sample_book.object p)) (2 ∷ []))
check_stop_triggers-split_example = check_stop_triggers-split (pos 99) sample_book

new_iceberg-IsSound_example : IsSound (new_iceberg 11 (pos 1) sell (pos 100) 30 10)
new_iceberg-IsSound_example =
    new_iceberg-IsSound 11 (pos 1) sell (pos 100) 30 10 (omega arith) (omega arith)

fill-IsSound_example :
    IsSound (fill sample_iceberg 10) × FilledBy 10 sample_iceberg (fill sample_iceberg 10)
unfolding visible_qty new_iceberg is_iceberg new_order
fill-IsSound_example = fill-IsSound sample_iceberg 10 sample_iceberg-IsSound (inl (omega arith))

replenish-IsSound_example : IsSound (replenish sample_iceberg)
replenish-IsSound_example = replenish-IsSound sample_iceberg sample_iceberg-IsSound
