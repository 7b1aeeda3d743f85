-- ===== src/MatchingEngine/Listed.antt =====
-- Sessions of the engine of src/matching_engine.cpp, and the ids that `nextId` gives.
use limit_order_book_matchin.Base.{
  suc, ◌+◌, ◌^◌, ◌<◌, ◌≤◌, ◌≡◌, refl, sym, subst, List, [], ◌∷◌, some, arith, length, some_inj,
  >>=-eq-some, inl,
}
use limit_order_book_matchin.Order.{
  Order, Side, buy, sell, u64, new_order, new_iceberg, new_stop_loss,
}
use limit_order_book_matchin.Order.Quantities.{IsClosed}
use limit_order_book_matchin.OrderBook.State.{empty_book, new_object, levels, active_find}
use limit_order_book_matchin.OrderBook.Matching.{match}
use limit_order_book_matchin.Book.Renamed.{Entry, IsListed}
use limit_order_book_matchin.Book.Known.{LevelsKnown}
use limit_order_book_matchin.Book.Numbering.{match-IsListed}
use limit_order_book_matchin.Book.Delisted.{cancel_order-IsListed}
use limit_order_book_matchin.Book.Relisted.{modify_order-IsListed}
use limit_order_book_matchin.MatchingEngine.{
  MatchingEngine, new_engine, submit, submit_limit, submit_market, submit_iceberg, submit_stop_loss,
  engine_cancel_order, engine_modify_order, Request, limit_request, market_request, iceberg_request,
  stop_loss_request, cancel_request, modify_request, serve, serve_all,
}
use limit_order_book_matchin.MatchingEngine.Sessions.{
  IsReady, with_id, serve-IsReady, new_engine-IsReady,
}

-- The book is listed under ids below the next one, which has moved by one at most.
pub record Counted (e f : MatchingEngine) : Type 0 where
  pub listed : IsListed f.next_id f.book
  pub slow : f.next_id ≤ e.next_id + 1

submit-Counted :
    (o : Order) (e : MatchingEngine) {f : MatchingEngine}
    → submit o e ≡ some f
    → o.id ≡ e.next_id
    → e.next_id + 1 < 2 ^ 64
    → IsListed e.next_id e.book
    → Counted e f
unfolding submit
submit-Counted o e {f} ran own room h =
    let (r, matched, last) = >>=-eq-some (match e.book.next_ptr (new_object o e.book)) _ ran in
    let after = match-IsListed o e.book matched (subst (λ n. IsListed n e.book) (sym own) h) in
    let next : u64 (e.next_id + 1) ≡ suc o.id = omega (arith, own, room) in
    subst (λ (g : MatchingEngine). Counted e g) (some_inj last)
      (record {
        listed = subst (λ n. IsListed n r.book) (sym next) after;
        slow = omega (arith, next, own);
      })

pub serve-Counted :
    (q : Request) (e : MatchingEngine) {f : MatchingEngine}
    → serve q e ≡ some f
    → e.next_id + 1 < 2 ^ 64
    → IsReady e.book
    → IsListed e.next_id e.book
    → Counted e f
unfolding serve submit_limit submit_market submit_iceberg submit_stop_loss engine_cancel_order
    engine_modify_order new_order new_iceberg new_stop_loss
serve-Counted (limit_request side price qty now) e ran room ready h =
    submit-Counted _ e (with_id _ e.next_id ran) refl room h
serve-Counted (market_request side qty now) e ran room ready h = submit-Counted _ e ran refl room h
serve-Counted (iceberg_request side price total display now) e ran room ready h =
    submit-Counted _ e (with_id _ e.next_id ran) refl room h
serve-Counted (stop_loss_request side trigger_price limit_price qty now) e ran room ready h =
    submit-Counted _ e (with_id _ e.next_id ran) refl room h
serve-Counted (cancel_request id) e ran room ready h =
    subst (λ (g : MatchingEngine). Counted e g) (some_inj ran)
      (record {
        listed = cancel_order-IsListed e.next_id id e.book ready.formed h;
        slow = omega arith;
      })
serve-Counted (modify_request id price qty now) e ran room ready h =
    subst (λ (g : MatchingEngine). Counted e g) (some_inj ran)
      (record {
        listed =
            modify_order-IsListed e.next_id id price qty now e.book ready.allocated ready.formed h;
        slow = omega arith;
      })

serve_all-keeps_IsListed :
    (qs : List Request) (e : MatchingEngine) {f : MatchingEngine}
    → serve_all qs e ≡ some f
    → e.next_id + length qs < 2 ^ 64
    → IsReady e.book
    → IsListed e.next_id e.book
    → IsListed f.next_id f.book
unfolding serve_all
serve_all-keeps_IsListed [] e ran room ready h =
    subst (λ (g : MatchingEngine). IsListed g.next_id g.book) (some_inj ran) h
serve_all-keeps_IsListed (q ∷ qs) e ran room ready h =
    let (g, first, rest) = >>=-eq-some (serve q e) _ ran in
    let k = serve-Counted q e first (omega (arith, room)) ready h in
    serve_all-keeps_IsListed qs g rest (omega (arith, room, k.slow)) (serve-IsReady q e first ready)
      k.listed

pub new_engine-IsListed : (o : Order) → IsListed 1 (new_engine (λ _. o)).book
unfolding new_engine empty_book active_find
new_engine-IsListed o = record {
  ids = λ p. refl;
  indexed = record {
    found = tt;
    unique = λ i. omega arith;
    unlisted = λ i. inl refl;
    entries = tt;
  };
  once = λ i. omega arith;
  batch_ok = tt;
  known = record { sides = none_known; stops = (tt, tt) };
}
  where
    none_known :
        (side : Side)
        → LevelsKnown (λ p. Entry (λ _. o.id) 0 1 (o.id, p)) (levels side (empty_book (λ _. o) 0))
    none_known buy = tt
    none_known sell = tt

-- In a session of fewer than 2^64 - 1 requests with a new engine, each id stands at most once in the
-- levels and the lists of stops, every order that rests in a level is found in `active_` under its id,
-- and no order that waits for its trigger is. The content of memory before the first order is any one
-- that has nothing left if it is not active.
pub serve_all-IsListed :
    (qs : List Request) (o : Order) {e : MatchingEngine}
    → serve_all qs (new_engine (λ _. o)) ≡ some e
    → IsClosed o
    → length qs + 1 < 2 ^ 64
    → IsListed e.next_id e.book
unfolding new_engine
serve_all-IsListed qs o ran closed room =
    serve_all-keeps_IsListed qs (new_engine (λ _. o)) ran (omega (arith, room))
      (new_engine-IsReady o closed) (new_engine-IsListed o)
