-- ===== src/Baseline/Sessions.antt =====
-- Sessions of limit orders with the engine of src/matching_engine.cpp and with the baseline.
pub mod Arrival
use limit_order_book_matchin.Base.{
  ℕ, suc, ◌+◌, ◌^◌, ◌<◌, ◌≤◌, ◌≡◌, refl, sym, ap, subst, ◌∙◌, false, List, [], ◌∷◌, ◌++◌,
  append_assoc, append-nil, map, some, ℤ, arith, length, All, All-map, some_inj, >>=-eq-some, ◌>>=◌,
}
use limit_order_book_matchin.Order.{
  Order, limit, Side, buy, sell, new_order, is_market, is_iceberg, is_stop_loss, u64,
}
use limit_order_book_matchin.Order.Quantities.{IsClosed}
use limit_order_book_matchin.PriceMap.{Ptr}
use limit_order_book_matchin.OrderBook.State.{OrderBook, Trade, empty_book, new_object, levels}
use limit_order_book_matchin.OrderBook.Matching.{Progress, match, match_side}
use limit_order_book_matchin.Matching.Frame.Scan.{stops}
use limit_order_book_matchin.Matching.Ledger.{match-Posted}
use limit_order_book_matchin.Matching.Ledger.Balance.{Posted}
use limit_order_book_matchin.Matching.Priority.Spent.{queue}
use limit_order_book_matchin.Book.Renamed.{Entry, id_of, IsListed}
use limit_order_book_matchin.Book.Indexing.Entries.{LevelsKnown-queue}
use limit_order_book_matchin.Book.Tally.{tally, total, tally-append}
use limit_order_book_matchin.Book.Numbering.{new_object-once}
use limit_order_book_matchin.Book.Fresh.{new_object-IsWellFormed, new_order-IsClosed}
use limit_order_book_matchin.MatchingEngine.{
  MatchingEngine, new_engine, submit, submit_limit, Request, limit_request, serve, serve_all,
}
use limit_order_book_matchin.MatchingEngine.Sessions.{
  IsReady, with_id, serve-IsReady, new_engine-IsReady, serve_total,
}
use limit_order_book_matchin.MatchingEngine.Listed.{serve-Counted, new_engine-IsListed}
use limit_order_book_matchin.Baseline.{baseline_match, new_baseline, Quote, run_baseline}
use limit_order_book_matchin.Baseline.Agreement.{simple_of, view, Plain, Live, map-append}
use limit_order_book_matchin.Baseline.Walk.{view_levels, view_levels-same}
use limit_order_book_matchin.Baseline.Equivalence.{IsPlain, match_side-baseline_match}
use limit_order_book_matchin.Baseline.Equivalence.Joining.{seen}
use limit_order_book_matchin.Baseline.Plain.{new_order-Live, match-match_side, match_side-Plain}
use limit_order_book_matchin.Baseline.Sessions.Arrival.{
  InSession, is_new, kinds, comes-IsPlain, matched-baseline_match, matched-Posted,
}

-- The engine after a limit order, beside the baseline after the same call.
record Together (side : Side) (price : ℤ) (qty : ℕ) (e f : MatchingEngine) : Type 0 where
  session : InSession f
  slow : f.next_id ≤ e.next_id + 1
  made : List Trade
  posted : f.book.trades ≡ e.book.trades ++ made
  baseline :
      baseline_match side price qty (seen e.next_id e.book)
      ≡ some (seen f.next_id f.book, map simple_of made)

serve-Together :
    (side : Side) (price now : ℤ) (qty : ℕ) (e : MatchingEngine) {f : MatchingEngine}
    → serve (limit_request side price qty now) e ≡ some f
    → 0 < qty
    → e.next_id + 1 < 2 ^ 64
    → InSession e
    → Together side price qty e f
unfolding serve submit_limit submit new_object
serve-Together side price now qty e {f} ran some_left room h =
    let request = limit_request side price qty now in
    let k = serve-Counted request e ran room h.ready h.listed in
    let o = new_order e.next_id now side limit price qty in
    let (r, matched, last) =
      >>=-eq-some (match e.book.next_ptr (new_object o e.book)) _ (with_id _ e.next_id ran) in
    let same : record { book = r.book; next_id = u64 (e.next_id + 1) } ≡ f = some_inj last in
    let same_book : r.book ≡ f.book = ap (λ (g : MatchingEngine). g.book) same in
    let kind = kinds side price now qty e some_left h in
    let new = is_new side price now qty e some_left h in
    let (ran_side, none_left) =
      match-match_side e.book.next_ptr (new_object o e.book) matched h.none_waits
        (ap is_stop_loss new ∙ kind.2) in
    record {
      session = record {
        ready = serve-IsReady request e ran h.ready;
        listed = k.listed;
        plain = λ x.
            subst (λ (b : OrderBook). All (λ p. Plain (b.object p)) (queue (levels x b))) same_book
              (match_side-Plain (id_of (new_object o e.book)) e.book.next_ptr (new_object o e.book)
                x ran_side (comes-IsPlain side price now qty e some_left h)
                (ap is_iceberg new ∙ kind.1));
        none_waits = subst (λ (b : OrderBook). stops b ≡ 0) same_book none_left;
      };
      slow = k.slow;
      made = r.result;
      posted =
          ap (λ (b : OrderBook). b.trades) (sym same_book)
          ∙ (matched-Posted side price now qty e some_left h matched).trades;
      baseline =
          matched-baseline_match side price now qty e some_left h ran_side
          ∙ ap (λ (g : MatchingEngine). some (seen g.next_id g.book, map simple_of r.result)) same;
    }

-- The same calls as requests of the engine, at the times of a clock.
abbrev pub limit_requests : (ℕ → ℤ) → List Quote → List Request
limit_requests clock [] = []
limit_requests clock (q ∷ qs) =
    limit_request q.side q.price q.qty (clock 0) ∷ limit_requests (λ n. clock (suc n)) qs

run_together :
    (clock : ℕ → ℤ) (qs : List Quote) (e : MatchingEngine)
    → All (λ q. 0 < q.qty) qs
    → e.next_id + length qs < 2 ^ 64
    → InSession e
    → (f : MatchingEngine) × (made : List Trade) × (serve_all (limit_requests clock qs) e ≡ some f)
      × (f.book.trades ≡ e.book.trades ++ made)
      × (run_baseline qs (seen e.next_id e.book) ≡ some (seen f.next_id f.book, map simple_of made))
unfolding serve_all run_baseline
run_together clock [] e some_left room h = (e, [], refl, sym (append-nil e.book.trades), refl)
run_together clock (q ∷ qs) e some_left room h =
    let (g, ran) = serve_total (limit_request q.side q.price q.qty (clock 0)) e in
    let step =
      serve-Together q.side q.price (clock 0) q.qty e ran some_left.0 (omega (arith, room)) h in
    let (f, made, rest, posted, same) =
      run_together (λ n. clock (suc n)) qs g some_left.1 (omega (arith, room, step.slow))
        step.session in
    (
      f,
      step.made ++ made,
      ap (λ m. m >>= λ x. serve_all (limit_requests (λ n. clock (suc n)) qs) x) ran ∙ rest,
      posted ∙ ap (λ l. l ++ made) step.posted ∙ append_assoc e.book.trades step.made made,
      ap (λ m. m >>= λ r. run_baseline qs r.0 >>= λ u. some (u.0, r.1 ++ u.1)) step.baseline
          ∙ ap (λ m. m >>= λ u. some (u.0, map simple_of step.made ++ u.1)) same
          ∙ ap (λ l. some (seen f.next_id f.book, l)) (sym (map-append simple_of step.made made)),
    )

new_engine-InSession : (o : Order) → IsClosed o → InSession (new_engine (λ _. o))
unfolding new_engine empty_book
new_engine-InSession o closed = record {
  ready = new_engine-IsReady o closed;
  listed = new_engine-IsListed o;
  plain = none_rest;
  none_waits = refl;
}
  where
    none_rest : (side : Side) → All (λ p. Plain o) (queue (levels side (empty_book (λ _. o) 0)))
    none_rest buy = tt
    none_rest sell = tt

-- In a session of fewer than 2^64 - 1 limit orders of positive quantity, at any times, a new engine and a
-- new baseline end with the same levels, next id and trades: the engine answers every request, and the
-- baseline returns just what is seen of the engine's book and of its trades. The content of memory
-- before the first order is any one that has nothing left if it is not active.
pub run_baseline-serve_all :
    (clock : ℕ → ℤ) (qs : List Quote) (o : Order)
    → IsClosed o
    → All (λ q. 0 < q.qty) qs
    → length qs + 1 < 2 ^ 64
    → (e : MatchingEngine) × (serve_all (limit_requests clock qs) (new_engine (λ _. o)) ≡ some e)
      × (run_baseline qs new_baseline ≡ some (seen e.next_id e.book, map simple_of e.book.trades))
unfolding new_engine empty_book
run_baseline-serve_all clock qs o closed some_left room =
    let (f, made, ran, posted, same) =
      run_together clock qs (new_engine (λ _. o)) some_left (omega (arith, room))
        (new_engine-InSession o closed) in
    (f, ran, same ∙ ap (λ l. some (seen f.next_id f.book, map simple_of l)) (sym posted))
