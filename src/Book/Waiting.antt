-- ===== src/Book/Waiting.antt =====
-- The stop orders that wait for their trigger, seen by the requests of src/orderbook.cpp.
use limit_order_book_matchin.Base.{
  ℕ, ◌<◌, ◌≡◌, refl, sym, subst, inl, inr, false, List, [], ◌∷◌, ◌++◌, none, ℤ, arith,
}
use limit_order_book_matchin.PriceMap.{Ptr}
use limit_order_book_matchin.OrderBook.State.{OrderBook, active_find}
use limit_order_book_matchin.OrderBook.Requests.{cancel_order, modify_order}
use limit_order_book_matchin.Book.Tally.{tally, tally-append}
use limit_order_book_matchin.Book.Renamed.{id_of, IsListed}

-- An order of a list counts for its key.
tally_member :
    (key : Ptr → ℕ) (xs : List Ptr) (p : Ptr) (ys : List Ptr) → 0 < tally key (key p) (xs ++ p ∷ ys)
tally_member key [] p ys = ground arith
tally_member key (x ∷ xs) p ys = let h = tally_member key xs p ys in omega (arith, h)

refused :
    (b : OrderBook) (id : ℕ) (ts price : ℤ) (qty : ℕ)
    → active_find id b.active_orders ≡ none
    → (cancel_order id b ≡ (b, false)) × (modify_order id price qty ts b ≡ (b, false))
unfolding cancel_order modify_order
refused b id ts price qty e = (rw (e, cancel_order) refl, rw (e, modify_order) refl)

-- In a listed book `cancelOrder` and `modifyOrder` refuse the id of every stop order that still waits for
-- its trigger or to be run, and leave the book as it is.
pub modify_order_of_waiting :
    (n : ℕ) (b : OrderBook) (price : ℤ) (qty : ℕ) (ts : ℤ) (before : List Ptr) (stop : Ptr)
    (after : List Ptr)
    → IsListed n b
    → b.pending_stops ++ b.triggered_stops ≡ before ++ stop ∷ after
    → (cancel_order (id_of b stop) b ≡ (b, false))
      × (modify_order (id_of b stop) price qty ts b ≡ (b, false))
modify_order_of_waiting n b price qty ts before stop after h waits =
    refused b (id_of b stop) ts price qty (elim (h.indexed.unlisted (id_of b stop)) [
      | inl e ↦ e
      | inr z ↦ absurd (
          let a = tally-append (id_of b) (id_of b stop) b.pending_stops b.triggered_stops in
          let m =
            subst (λ l. 0 < tally (id_of b) (id_of b stop) l) (sym waits)
              (tally_member (id_of b) before stop after) in
          omega (arith, a, m, z))
    ])
