-- ===== src/Book/Delisted.antt =====
-- What `cancelOrder` and `modifyOrder` of src/orderbook.cpp keep of the listing of the book.
pub mod Removal
use limit_order_book_matchin.Base.{
  ℕ, ◌≤◌, ◌<◌, ◌≡◌, ◌≢◌, refl, sym, ap, subst, ◌∙◌, inl, inr, Bool, true, false, ◌==◌, List, [],
  ◌∷◌, Option, none, some, ℤ, arith, All, All-append, All-map, if◌then◌else◌, Option-cases,
}
use limit_order_book_matchin.Order.{Order, Side, buy, sell, cancel}
use limit_order_book_matchin.PriceMap.{Ptr, Levels, remove_from_level}
use limit_order_book_matchin.OrderBook.State.{
  OrderBook, levels, with_levels, opposite, active_find, active_erase, modify_object,
}
use limit_order_book_matchin.OrderBook.Requests.{cancel_order, remove_order}
use limit_order_book_matchin.Matching.Priority.Spent.{queue}
use limit_order_book_matchin.Book.WellFormed.{IsWellFormed}
use limit_order_book_matchin.Book.Cancel.{active_find-erase, cancel_object-terms}
use limit_order_book_matchin.Matching.Frame.Scan.{Terms}
use limit_order_book_matchin.Book.Removed.{remove_order-Removed, remove_order-level}
use limit_order_book_matchin.Book.Fresh.{remove_order-next, remove_order-Known}
use limit_order_book_matchin.Book.Tally.{tally, tally_stops, tally-append}
use limit_order_book_matchin.Book.Index.{active_erase-All}
use limit_order_book_matchin.Book.Indexing.Entries.{resting_orders, All-split}
use limit_order_book_matchin.Book.Listed.{Listing}
use limit_order_book_matchin.Book.Renamed.{Entry, id_of, IsListed, Listing-rekeyed}
use limit_order_book_matchin.Book.Gone.{
  NoneHas, remove_order-NoneHas, queue-remove_from_level, tally-remove_from_level, All-both,
}
use limit_order_book_matchin.Book.Delisted.Removal.{
  remove_order-id, removed-NoneHas, removed-IsListed,
}

-- `cancelOrder` keeps the listing, whether the id is known or not.
pub cancel_order-IsListed :
    (n id : ℕ) (b : OrderBook) → IsWellFormed b → IsListed n b → IsListed n (cancel_order id b).0
unfolding cancel_order
cancel_order-IsListed n id b w h = elim (Option-cases (active_find id b.active_orders)) [
  | inl e ↦ rw (e, cancel_order) h
  | inr (p, e) ↦ rw (e, cancel_order) (removed-IsListed n id p b e w h)
]

-- In a well-formed, listed book, an id that `cancelOrder` cancels is then in no level of the book.
pub cancel_order-NoneHas :
    (n id : ℕ) (b : OrderBook)
    → IsWellFormed b
    → IsListed n b
    → (cancel_order id b).1 ≡ true
    → let c = (cancel_order id b).0 in NoneHas (id_of c) id c
unfolding cancel_order
cancel_order-NoneHas n id b w h ok = elim (Option-cases (active_find id b.active_orders)) [
  | inl e ↦ absurd (let f : false ≡ true = rw (e, cancel_order) at ok in cc)
  | inr (p, e) ↦
      rw (e, cancel_order)
        (λ side.
          moved p (queue (levels side (remove_order id p b))) (removed-NoneHas n id p b e w h side))
]
  where
    moved :
        (p : Ptr) (ps : List Ptr)
        → All (λ q. id_of b q ≢ id) ps
        → All (λ q. id_of (remove_order id p b) q ≢ id) ps
    moved p [] k = tt
    moved p (q ∷ ps) k = ((λ e. k.0 (sym (remove_order-id id p b q) ∙ e)), moved p ps k.1)
