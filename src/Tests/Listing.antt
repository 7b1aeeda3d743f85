-- ===== src/Tests/Listing.antt =====
-- The theorems about the ids of src/orderbook.cpp, applied to the sample book and to a session.
use limit_order_book_matchin.Base.{
  ℕ, ◌+◌, ◌≤◌, ◌≡◌, ◌⊎◌, refl, inl, inr, true, ◌==◌, All, none, pos, arith, Bool-cases,
}
use limit_order_book_matchin.Order.{Side, buy, sell, limit, new_order, new_iceberg, new_stop_loss}
use limit_order_book_matchin.Book.Fresh.{new_order-IsClosed}
use limit_order_book_matchin.OrderBook.State.{levels, active_find}
use limit_order_book_matchin.OrderBook.Requests.{cancel_order, modify_order}
use limit_order_book_matchin.Book.Completed.{Completed, match_side-Completed}
use limit_order_book_matchin.Book.Known.{LevelsKnown}
use limit_order_book_matchin.Book.Tally.{one, tally_stops, total, match-total}
use limit_order_book_matchin.Book.Renamed.{Entry, id_of, IsListed}
use limit_order_book_matchin.Book.Gone.{NoneHas}
use limit_order_book_matchin.Book.Delisted.{cancel_order-NoneHas}
use limit_order_book_matchin.OrderBook.State.{add_to_book}
use limit_order_book_matchin.Order.{is_iceberg}
use limit_order_book_matchin.PriceMap.{Level}
use limit_order_book_matchin.OrderBook.Sweep.{match_front}
use limit_order_book_matchin.OrderBook.Requests.{best_bid, best_ask, spread}
use limit_order_book_matchin.Book.Modified.{modify_order-hides_all}
use limit_order_book_matchin.Book.Quotes.{best_lem, SpreadIs, spread-IsUncrossed, spread_fits}
use limit_order_book_matchin.Tests.Sample.{sample-IsUncrossed}
use limit_order_book_matchin.Base.{◌≤ℤ◌, ◌<ℤ◌, ◌-ℤ◌, ◌∷◌, ℤ, some, []}
use limit_order_book_matchin.OrderBook.State.{OrderBook}
use limit_order_book_matchin.Book.Restored.{Restored, cancel_order-add_to_book}
use limit_order_book_matchin.Book.Relisted.{modify_order-IsListed}
use limit_order_book_matchin.Tests.Sample.{
  sample_book, sample_object, sample_run, sample_run_lem, sample_side_run, sample_side_run_lem,
  sample-IsWellFormed,
}
use limit_order_book_matchin.Tests.Engine.{
  sample-IsAllocated, blank, session_and_modify, modified_end,
}
use limit_order_book_matchin.MatchingEngine.Listed.{serve_all-IsListed}

sample_levels :
    (side : Side)
    → LevelsKnown
        (λ p. Entry (id_of sample_book) 4 14 (id_of sample_book p, p))
        (levels side sample_book)
unfolding sample_object new_order new_iceberg
sample_levels buy = (((refl, omega arith, omega arith), tt), tt)
sample_levels sell = (((refl, omega arith, omega arith), tt), tt)

sample_unlisted :
    (i : ℕ)
    → (active_find i sample_book.active_orders ≡ none)
      ⊎ (tally_stops (id_of sample_book) i sample_book ≡ 0)
unfolding sample_object new_stop_loss active_find
sample_unlisted i = elim (Bool-cases (13 == i)) [
  | inl e ↦ inl (ground (arith, e))
  | inr e ↦ inr (ground (arith, e))
]

-- The ids of the sample are 11 to 13, and the next is 14.
sample-IsListed : IsListed 14 sample_book
unfolding sample_object new_order new_iceberg new_stop_loss active_find
sample-IsListed = record {
  ids = λ p. refl;
  indexed = record {
    found = (refl, (refl, tt));
    unique = λ i. ground arith;
    unlisted = sample_unlisted;
    entries = ((refl, omega arith, omega arith), ((refl, omega arith, omega arith), tt));
  };
  once = λ i. ground arith;
  batch_ok = tt;
  known = record { sides = sample_levels; stops = (((refl, omega arith, omega arith), tt), tt) };
}

match_side-Completed_example : Completed 3 sample_book sample_side_run.book
match_side-Completed_example =
    match_side-Completed 3 sample_book sample_side_run_lem sample-IsWellFormed

match-total_example :
    total (λ p. p) 3 sample_run.book ≤ total (λ p. p) 3 sample_book + one (λ p. p) 3 3
match-total_example = match-total (λ p. p) 3 3 sample_book sample_run_lem

cancel_order-NoneHas_example : let c = (cancel_order 11 sample_book).0 in NoneHas (id_of c) 11 c
unfolding cancel_order active_find
cancel_order-NoneHas_example =
    cancel_order-NoneHas 14 11 sample_book sample-IsWellFormed sample-IsListed refl

modify_order-IsListed_example : IsListed 14 (modify_order 12 (pos 97) 8 (pos 9) sample_book).0
modify_order-IsListed_example =
    modify_order-IsListed 14 12 (pos 97) 8 (pos 9) sample_book sample-IsAllocated
      sample-IsWellFormed sample-IsListed

serve_all-IsListed_example : IsListed modified_end.0.next_id modified_end.0.book
serve_all-IsListed_example =
    serve_all-IsListed session_and_modify blank modified_end.1
      (new_order-IsClosed 0 (pos 0) buy limit (pos 0) 0) (omega arith)

cancel_order-add_to_book_example :
    let r = cancel_order 14 (add_to_book 3 sample_book) in (r.1 ≡ true) × Restored 3 sample_book r.0
unfolding sample_object new_order
cancel_order-add_to_book_example =
    cancel_order-add_to_book 14 3 sample_book sample-IsWellFormed sample-IsListed (omega arith)

-- The sample after a modification of its iceberg, at the level of its new price.
abbrev modified : OrderBook
modified = (modify_order 11 (pos 97) 25 (pos 9) sample_book).0

modify_order-hides_all_example :
    (is_iceberg (modified.object 4) ≡ true)
    × ((modified.object 4).leaves_qty ≡ 25)
    × (match_front buy 3 (pos 97) (4 ∷ []) (record { book = modified; level = 4 ∷ []; result = [] })
        ≡ record { book = modified; level = []; result = [] })
unfolding sample_object new_iceberg is_iceberg active_find
modify_order-hides_all_example =
    modify_order-hides_all 14 11 0 (pos 97) 25 (pos 9) sample_book sample-IsListed refl refl buy 3
      (pos 97) [] (record { book = modified; level = 4 ∷ []; result = [] }) refl

best_lem_example :
    All (λ (e : ℤ × Level). e.0 ≤ℤ best_bid sample_book) sample_book.bids
    × All (λ (e : ℤ × Level). best_ask sample_book ≤ℤ e.0) sample_book.asks
best_lem_example = best_lem sample_book sample-IsWellFormed

spread-IsUncrossed_example : SpreadIs sample_book (spread sample_book)
spread-IsUncrossed_example = spread-IsUncrossed sample_book sample-IsUncrossed

spread_fits_example :
    (spread sample_book ≡ some (best_ask sample_book -ℤ best_bid sample_book))
    × (pos 0 <ℤ best_ask sample_book -ℤ best_bid sample_book)
unfolding best_bid best_ask
spread_fits_example =
    spread_fits sample_book sample-IsUncrossed (λ e. cc) (λ e. cc) (omega arith) (omega arith)
