-- ===== src/MatchingEngine/Uncrossed.antt =====
-- Sessions of the engine of src/matching_engine.cpp without `modifyOrder`, and the crossing of
-- the book.
use limit_order_book_matchin.Base.{
  ℕ, ◌≡◌, subst, Bool, true, false, List, [], ◌∷◌, some, ℤ, pos, ◌<ℤ◌, not, ◌==◌, inl, inr, All,
  All-map, some_inj, >>=-eq-some, Option-cases,
}
use limit_order_book_matchin.Order.{Order, Side, buy, sell, limit, market}
use limit_order_book_matchin.Order.Quantities.{IsClosed}
use limit_order_book_matchin.PriceMap.{Ptr, Level, remove_from_level}
use limit_order_book_matchin.PriceMap.Sorted.{remove_from_level-All}
use limit_order_book_matchin.OrderBook.State.{
  OrderBook, empty_book, levels, with_levels, modify_object, new_object, active_find,
}
use limit_order_book_matchin.OrderBook.Matching.{match}
use limit_order_book_matchin.OrderBook.Requests.{remove_order, cancel_order}
use limit_order_book_matchin.Book.Uncrossed.{IsUncrossed, match-IsUncrossed}
use limit_order_book_matchin.Book.Fresh.{new_object-IsWellFormed, new_order-IsClosed}
use limit_order_book_matchin.MatchingEngine.{
  MatchingEngine, new_engine, submit, submit_limit, submit_market, submit_iceberg, submit_stop_loss,
  engine_cancel_order, Request, limit_request, market_request, iceberg_request, stop_loss_request,
  cancel_request, modify_request, serve, serve_all,
}
use limit_order_book_matchin.MatchingEngine.Sessions.{
  IsReady, with_id, serve-IsReady, new_engine-IsReady, new_iceberg-IsClosed, new_stop_loss-IsClosed,
}

remove_level-IsUncrossed :
    (side : Side) (price : ℤ) (keep : Ptr → Bool) (b : OrderBook)
    → IsUncrossed b
    → IsUncrossed (with_levels side (remove_from_level side price keep (levels side b)) b)
remove_level-IsUncrossed buy price keep b h =
    remove_from_level-All (λ (bid : ℤ × Level). All (λ (ask : ℤ × Level). bid.0 <ℤ ask.0) b.asks)
      buy price keep b.bids (λ p level _ k. k) h
remove_level-IsUncrossed sell price keep b h =
    All-map (λ (bid : ℤ × Level). All (λ (ask : ℤ × Level). bid.0 <ℤ ask.0) b.asks)
      (λ (bid : ℤ × Level).
        All (λ (ask : ℤ × Level). bid.0 <ℤ ask.0) (remove_from_level sell price keep b.asks))
      b.bids
      (λ bid k.
        remove_from_level-All (λ (ask : ℤ × Level). bid.0 <ℤ ask.0) sell price keep b.asks
          (λ p level _ l. l) k)
      h

remove_order-IsUncrossed :
    (id : ℕ) (p : Ptr) (b : OrderBook) → IsUncrossed b → IsUncrossed (remove_order id p b)
unfolding remove_order modify_object
remove_order-IsUncrossed id p b h =
    remove_level-IsUncrossed (b.object p).side (b.object p).price (λ q. not ((b.object q).id == id))
      b h

-- `cancelOrder` keeps every bid below every ask.
pub cancel_order-IsUncrossed :
    (id : ℕ) (b : OrderBook) → IsUncrossed b → IsUncrossed (cancel_order id b).0
unfolding cancel_order
cancel_order-IsUncrossed id b h = elim (Option-cases (active_find id b.active_orders)) [
  | inl e ↦ rw (e, cancel_order) h
  | inr (p, e) ↦ rw (e, cancel_order) (remove_order-IsUncrossed id p b h)
]

submit-IsUncrossed :
    (o : Order) (e : MatchingEngine) {f : MatchingEngine}
    → submit o e ≡ some f
    → IsClosed o
    → IsReady e.book
    → IsUncrossed e.book
    → IsUncrossed f.book
unfolding submit new_object
submit-IsUncrossed o e {f} ran closed h g =
    let c = new_object o e.book in
    let (r, matched, last) = >>=-eq-some (match e.book.next_ptr c) _ ran in
    subst (λ (x : MatchingEngine). IsUncrossed x.book) (some_inj last)
      (match-IsUncrossed e.book.next_ptr c matched
        (new_object-IsWellFormed o e.book closed h.allocated h.formed) (same g))
  where
    same : IsUncrossed e.book → IsUncrossed (new_object o e.book)
    same k = k

abbrev pub is_modify : Request → Bool
is_modify (modify_request id price qty now) = true
is_modify _ = false

serve-IsUncrossed :
    (q : Request) (e : MatchingEngine) {f : MatchingEngine}
    → is_modify q ≡ false
    → serve q e ≡ some f
    → IsReady e.book
    → IsUncrossed e.book
    → IsUncrossed f.book
unfolding serve submit_limit submit_market submit_iceberg submit_stop_loss engine_cancel_order
serve-IsUncrossed (limit_request side price qty now) e _ ran h g =
    submit-IsUncrossed _ e (with_id _ e.next_id ran) (new_order-IsClosed _ now side limit price qty)
      h g
serve-IsUncrossed (market_request side qty now) e _ ran h g =
    submit-IsUncrossed _ e ran (new_order-IsClosed _ now side market (pos 0) qty) h g
serve-IsUncrossed (iceberg_request side price total display now) e _ ran h g =
    submit-IsUncrossed _ e (with_id _ e.next_id ran)
      (new_iceberg-IsClosed _ now side price total display) h g
serve-IsUncrossed (stop_loss_request side trigger_price limit_price qty now) e _ ran h g =
    submit-IsUncrossed _ e (with_id _ e.next_id ran)
      (new_stop_loss-IsClosed _ now side trigger_price limit_price qty) h g
serve-IsUncrossed (cancel_request id) e _ ran h g =
    subst (λ (x : MatchingEngine). IsUncrossed x.book) (some_inj ran)
      (cancel_order-IsUncrossed id e.book g)
serve-IsUncrossed (modify_request id price qty now) e kind ran h g = cc

serve_all-keeps_apart :
    (qs : List Request) (e : MatchingEngine) {f : MatchingEngine}
    → All (λ q. is_modify q ≡ false) qs
    → serve_all qs e ≡ some f
    → IsReady e.book
    → IsUncrossed e.book
    → IsUncrossed f.book
unfolding serve_all
serve_all-keeps_apart [] e kind ran h g =
    subst (λ (x : MatchingEngine). IsUncrossed x.book) (some_inj ran) g
serve_all-keeps_apart (q ∷ qs) e kind ran h g =
    let (f, first, rest) = >>=-eq-some (serve q e) _ ran in
    serve_all-keeps_apart qs f kind.1 rest (serve-IsReady q e first h)
      (serve-IsUncrossed q e kind.0 first h g)

-- Whatever the engine has been asked since it was made, except to modify an order, every bid of its
-- book is below every ask. The content of memory before the first
-- order is any one that has nothing left if it is not active.
pub serve_all-IsUncrossed :
    (qs : List Request) (o : Order) {e : MatchingEngine}
    → All (λ q. is_modify q ≡ false) qs
    → serve_all qs (new_engine (λ _. o)) ≡ some e
    → IsClosed o
    → IsUncrossed e.book
unfolding new_engine empty_book
serve_all-IsUncrossed qs o kind ran closed =
    serve_all-keeps_apart qs (new_engine (λ _. o)) kind ran (new_engine-IsReady o closed) tt
