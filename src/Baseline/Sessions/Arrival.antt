-- ===== src/Baseline/Sessions/Arrival.antt =====
-- A new limit order of the engine, as the baseline sees it.
use limit_order_book_matchin.Base.{
  ℕ, ◌+◌, ◌<◌, ◌≤◌, ◌≡◌, refl, sym, ap, subst, ◌∙◌, false, List, [], ◌∷◌, ◌++◌, map, some, ℤ, arith,
  All, All-map,
}
use limit_order_book_matchin.Order.{
  Order, limit, Side, buy, sell, new_order, is_market, is_iceberg, is_stop_loss, u64,
}
use limit_order_book_matchin.PriceMap.{Ptr}
use limit_order_book_matchin.OrderBook.State.{OrderBook, new_object, levels}
use limit_order_book_matchin.OrderBook.Matching.{Progress, match, match_side}
use limit_order_book_matchin.Matching.Frame.Scan.{stops}
use limit_order_book_matchin.Matching.Ledger.{match-Posted}
use limit_order_book_matchin.Matching.Ledger.Balance.{Posted}
use limit_order_book_matchin.Matching.Priority.Spent.{queue}
use limit_order_book_matchin.Book.Renamed.{Entry, id_of, IsListed}
use limit_order_book_matchin.Book.Indexing.Entries.{LevelsKnown-queue}
use limit_order_book_matchin.Book.Tally.{tally, total, tally-append}
use limit_order_book_matchin.Book.Numbering.{new_object-once}
use limit_order_book_matchin.Book.Fresh.{new_object-IsWellFormed, new_order-IsClosed}
use limit_order_book_matchin.MatchingEngine.{MatchingEngine}
use limit_order_book_matchin.MatchingEngine.Sessions.{IsReady}
use limit_order_book_matchin.Baseline.{baseline_match}
use limit_order_book_matchin.Baseline.Agreement.{simple_of, view, Plain, Live}
use limit_order_book_matchin.Baseline.Walk.{view_levels, view_levels-same}
use limit_order_book_matchin.Baseline.Equivalence.{IsPlain, match_side-baseline_match}
use limit_order_book_matchin.Baseline.Equivalence.Joining.{seen}
use limit_order_book_matchin.Baseline.Plain.{new_order-Live}

new_object-old :
    (o : Order) (b : OrderBook) (p : Ptr) → p < b.next_ptr → (new_object o b).object p ≡ b.object p
unfolding new_object
new_object-old o b p less = ground arith

new_object-new : (o : Order) (b : OrderBook) → (new_object o b).object b.next_ptr ≡ o
unfolding new_object
new_object-new o b = ground arith

-- The engine between two limit orders.
pub record InSession (e : MatchingEngine) : Type 0 where
  pub ready : IsReady e.book
  pub listed : IsListed e.next_id e.book
  pub plain : (side : Side) → All (λ p. Plain (e.book.object p)) (queue (levels side e.book))
  pub none_waits : stops e.book ≡ 0

module _ (o : Order) (e : MatchingEngine) (h : InSession e) where
  abbrev c : OrderBook
  c = new_object o e.book

  old : (side : Side) → All (λ p. p < e.book.next_ptr) (queue (levels side e.book))
  old side =
      All-map (λ p. Entry (id_of e.book) e.book.next_ptr e.next_id (id_of e.book p, p))
        (λ p. p < e.book.next_ptr) (queue (levels side e.book)) (λ p k. k.2)
        (LevelsKnown-queue _ (levels side e.book) (h.listed.known.sides side))

  same_orders :
      (ps : List Ptr) → All (λ p. p < e.book.next_ptr) ps → view c.object ps ≡ view e.book.object ps
  same_orders [] k = refl
  same_orders (p ∷ ps) k = rw (new_object-old o e.book p k.0, same_orders ps k.1) refl

  -- The baseline does not see the new order.
  new_object-seen : (n : ℕ) → seen n c ≡ seen n e.book
  unfolding new_object
  new_object-seen n =
      ap (λ l. record { bids = l; asks = view_levels c.object e.book.asks; next_id = n })
        (view_levels-same c.object e.book.object e.book.bids (same_orders _ (old buy)))
      ∙ ap (λ l. record { bids = view_levels e.book.object e.book.bids; asks = l; next_id = n })
          (view_levels-same c.object e.book.object e.book.asks (same_orders _ (old sell)))

  old-Plain :
      (ps : List Ptr)
      → All (λ p. p < e.book.next_ptr) ps
      → All (λ p. Plain (e.book.object p)) ps
      → All (λ p. Plain (c.object p)) ps
  old-Plain [] k g = tt
  old-Plain (p ∷ ps) k g =
      (subst Plain (sym (new_object-old o e.book p k.0)) g.0, old-Plain ps k.1 g.1)

-- A new limit order, and the book that it comes to.
module _ (side : Side) (price now : ℤ) (qty : ℕ) (e : MatchingEngine) (some_left : 0 < qty)
    (h : InSession e) where
  abbrev incoming : Order
  incoming = new_order e.next_id now side limit price qty

  abbrev place : Ptr
  place = e.book.next_ptr

  abbrev with_new : OrderBook
  with_new = new_object incoming e.book

  pub is_new : with_new.object place ≡ incoming
  is_new = new_object-new incoming e.book

  pub kinds :
      (is_market incoming ≡ false) × (is_iceberg incoming ≡ false) × (is_stop_loss incoming ≡ false)
  unfolding new_order is_market is_iceberg is_stop_loss
  kinds = (refl, refl, refl)

  same_levels : (x : Side) → levels x with_new ≡ levels x e.book
  unfolding new_object
  same_levels buy = refl
  same_levels sell = refl

  pub comes-IsPlain : IsPlain (id_of with_new) place with_new
  unfolding new_order
  comes-IsPlain = record {
    limit = ap is_market is_new ∙ kinds.0;
    live = subst (λ o. Live o) (sym is_new) (new_order-Live e.next_id now price side qty some_left);
    plain = λ x.
        subst (λ m. All (λ p. Plain (with_new.object p)) (queue m)) (sym (same_levels x))
          (old-Plain incoming e h _ (old incoming e h x) (h.plain x));
    once = λ i.
        once_by i
          (new_object-once incoming e.book i (subst (λ n. IsListed n e.book) own_id h.listed));
  }
    where
      own_id : e.next_id ≡ incoming.id
      own_id = refl

      once_by :
          (i : ℕ)
          → tally (id_of with_new) i (place ∷ []) + total (id_of with_new) i with_new ≤ 1
          → tally (id_of with_new) i (place ∷ queue with_new.asks ++ queue with_new.bids) ≤ 1
      once_by i k =
          let a = tally-append (id_of with_new) i (queue with_new.asks) (queue with_new.bids) in
          omega (arith, k, a)

  -- What the baseline does with the arguments of the order.
  pub matched-baseline_match :
      {r : Progress}
      → match_side (with_new.object place).side place with_new ≡ some r
      → baseline_match side price qty (seen e.next_id e.book)
        ≡ some (seen (u64 (e.next_id + 1)) r.book, map simple_of r.result)
  unfolding new_order
  matched-baseline_match {r} ran =
      subst
        (λ l.
          baseline_match side price qty l
          ≡ some (seen (u64 (e.next_id + 1)) r.book, map simple_of r.result))
        (new_object-seen incoming e h e.next_id)
        (subst
          (λ o.
            baseline_match o.side o.price o.leaves_qty (seen o.id with_new)
            ≡ some (seen (u64 (o.id + 1)) r.book, map simple_of r.result))
          is_new (match_side-baseline_match (id_of with_new) place with_new ran comes-IsPlain))

  pub matched-Posted :
      {r : Progress} → match place with_new ≡ some r → Posted e.book r.book r.result
  unfolding new_object
  matched-Posted ran =
      let p = match-Posted place with_new ran (
        new_object-IsWellFormed incoming e.book
          (new_order-IsClosed e.next_id now side limit price qty) h.ready.allocated
          h.ready.formed) in
      record { trades = p.trades; numbered = p.numbered }
