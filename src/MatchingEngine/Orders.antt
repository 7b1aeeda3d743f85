-- ===== src/MatchingEngine/Orders.antt =====
-- What the requests of src/matching_engine.cpp do to an order that rests, and to a stop that waits, after
-- any session.
use limit_order_book_matchin.Base.{
  ℕ, ◌+◌, ◌^◌, ◌<◌, ◌≤◌, ◌≡◌, ◌≢◌, refl, sym, ap, subst, ◌∙◌, Bool, true, false, not, ◌==◌, List,
  [], ◌∷◌, ◌++◌, some, arith, length, filter, All, All-map,
}
use limit_order_book_matchin.Order.{Order, Side, buy, sell, cancelled}
use limit_order_book_matchin.Order.Quantities.{IsClosed}
use limit_order_book_matchin.PriceMap.{Ptr, Levels}
use limit_order_book_matchin.OrderBook.State.{OrderBook, levels, opposite, active_find}
use limit_order_book_matchin.OrderBook.Requests.{cancel_order, remove_order}
use limit_order_book_matchin.Matching.Priority.Spent.{queue}
use limit_order_book_matchin.Book.Known.{LevelsKnown}
use limit_order_book_matchin.Book.WellFormed.{LevelOk, IsWellFormed}
use limit_order_book_matchin.Book.Tally.{one, tally, tally-append, tally_zero}
use limit_order_book_matchin.Book.Indexing.Entries.{All-split, LevelsKnown-queue}
use limit_order_book_matchin.Book.Renamed.{id_of, IsListed}
use limit_order_book_matchin.Book.Removed.{remove_order-Removed}
use limit_order_book_matchin.Book.Delisted.Removal.{removed-NoneHas}
use limit_order_book_matchin.MatchingEngine.{
  MatchingEngine, new_engine, engine_cancel_order, Request, cancel_request, modify_request,
  serve_all,
}
use limit_order_book_matchin.MatchingEngine.Sessions.{serve_all-IsReady}
use limit_order_book_matchin.MatchingEngine.Listed.{serve_all-IsListed}

filter-kept :
    (keep : Ptr → Bool) (zs : List Ptr) → All (λ q. keep q ≡ true) zs → filter keep zs ≡ zs
filter-kept keep [] h = refl
filter-kept keep (z ∷ zs) h = rw (h.0, filter-kept keep zs h.1) refl

filter-around :
    (keep : Ptr → Bool) (xs ys : List Ptr) (p : Ptr)
    → All (λ q. keep q ≡ true) xs
    → keep p ≡ false
    → All (λ q. keep q ≡ true) ys
    → filter keep (xs ++ p ∷ ys) ≡ xs ++ ys
filter-around keep [] ys p h drop k = rw drop (filter-kept keep ys k)
filter-around keep (x ∷ xs) ys p h drop k =
    rw h.0 (ap (λ l. x ∷ l) (filter-around keep xs ys p h.1 drop k))

-- `c` is `b` without the order, which is cancelled.
pub record TakenOut (side : Side) (before : List Ptr) (p : Ptr) (after : List Ptr) (b c : OrderBook)
    : Type 0 where
  pub left : queue (levels side c) ≡ before ++ after
  pub facing : levels (opposite side) c ≡ levels (opposite side) b
  pub status : (c.object p).status ≡ cancelled
  pub leaves : (c.object p).leaves_qty ≡ 0

module _ (side : Side) (before : List Ptr) (p : Ptr) (after : List Ptr) (n : ℕ) (b : OrderBook)
    (stands : queue (levels side b) ≡ before ++ p ∷ after) (w : IsWellFormed b)
    (h : IsListed n b) where
  abbrev own_id : ℕ
  own_id = id_of b p

  All-here : (P : Ptr → Type 0) → All P (queue (levels side b)) → P p
  All-here P k = (All-split P before (p ∷ after) (subst (All P) stands k)).1.0

  own_side : (b.object p).side ≡ side
  own_side =
      All-here (λ q. (b.object q).side ≡ side)
        (LevelsKnown-queue (λ q. (b.object q).side ≡ side) (levels side b)
          (sides (levels side b) (w.sides side).1))
    where
      sides :
          (m : Levels)
          → All (LevelOk side b.object) m
          → LevelsKnown (λ q. (b.object q).side ≡ side) m
      sides [] k = tt
      sides (e ∷ m) k =
          (All-map _ (λ q. (b.object q).side ≡ side) e.1 (λ q a. a.0) k.0.1, sides m k.1)

  found : active_find own_id b.active_orders ≡ some p
  found = All-here (λ q. active_find (id_of b q) b.active_orders ≡ some q) (by_side side)
    where
      both :
          All (λ q. active_find (id_of b q) b.active_orders ≡ some q) (queue b.asks)
          × All (λ q. active_find (id_of b q) b.active_orders ≡ some q) (queue b.bids)
      both =
          All-split (λ q. active_find (id_of b q) b.active_orders ≡ some q) (queue b.asks)
            (queue b.bids) h.indexed.found

      by_side :
          (x : Side)
          → All (λ q. active_find (id_of b q) b.active_orders ≡ some q) (queue (levels x b))
      by_side buy = both.1
      by_side sell = both.0

  alone : tally (id_of b) own_id (before ++ p ∷ after) ≤ 1
  alone = subst (λ l. tally (id_of b) own_id l ≤ 1) stands (by_side side)
    where
      by_side : (x : Side) → tally (id_of b) own_id (queue (levels x b)) ≤ 1
      by_side buy = omega (arith, h.once own_id)
      by_side sell = omega (arith, h.once own_id)

  abbrev keep : Ptr → Bool
  keep q = not ((b.object q).id == own_id)

  kept_if_zero : (ps : List Ptr) → tally (id_of b) own_id ps ≡ 0 → All (λ q. keep q ≡ true) ps
  kept_if_zero ps z =
      All-map (λ q. id_of b q ≢ own_id) (λ q. keep q ≡ true) ps (λ q ne. ground (arith, ne))
        (tally_zero (id_of b) own_id ps z)

  others_zero : (tally (id_of b) own_id before ≡ 0) × (tally (id_of b) own_id after ≡ 0)
  others_zero =
      let a = tally-append (id_of b) own_id before (p ∷ after) in
      let own : one (id_of b) own_id p ≡ 1 = ground arith in
      (omega (arith, a, own, alone), omega (arith, a, own, alone))

  removed-TakenOut : TakenOut side before p after b (remove_order own_id p b)
  removed-TakenOut =
      let r = remove_order-Removed own_id p b w in
      let c = remove_order own_id p b in
      let gone =
        All-map (λ q. id_of b q ≢ own_id) (λ q. keep q ≡ true) (queue (levels side c))
          (λ q ne. ground (arith, ne)) (removed-NoneHas n own_id p b found w h side) in
      let places =
        subst (λ x. filter keep (queue (levels x c)) ≡ filter keep (queue (levels x b))) own_side
          r.places in
      record {
        left =
            sym (filter-kept keep (queue (levels side c)) gone)
            ∙ places
            ∙ ap (filter keep) stands
            ∙ filter-around keep before after p (kept_if_zero before others_zero.0) (ground arith)
                (kept_if_zero after others_zero.1);
        facing = subst (λ x. levels (opposite x) c ≡ levels (opposite x) b) own_side r.facing;
        status = r.status;
        leaves = r.leaves;
      }

-- After any session of fewer than 2^64 - 1 requests with a new engine, every order that rests can be
-- cancelled by its id: the request succeeds, takes that order and no other out of the queue of its side,
-- leaves the other side as it is, and the order cancelled with nothing left. The content of memory before
-- the first order is any one that has nothing left if it is not active.
pub engine_cancel_order-TakenOut :
    (qs : List Request) (o : Order) {e : MatchingEngine}
    → serve_all qs (new_engine (λ _. o)) ≡ some e
    → IsClosed o
    → length qs + 1 < 2 ^ 64
    → (side : Side) (before : List Ptr) (p : Ptr) (after : List Ptr)
    → queue (levels side e.book) ≡ before ++ p ∷ after
    → let r = engine_cancel_order (id_of e.book p) e in
      (r.1 ≡ true) × TakenOut side before p after e.book r.0.book
unfolding engine_cancel_order cancel_order
engine_cancel_order-TakenOut qs o {e} ran closed room side before p after stands =
    let w = (serve_all-IsReady qs o ran closed).formed in
    let h = serve_all-IsListed qs o ran closed room in
    rw (found side before p after e.next_id e.book stands w h, cancel_order)
      (refl, removed-TakenOut side before p after e.next_id e.book stands w h)

-- A request about the id.
abbrev pub IsAbout : ℕ → Request → Type 0
IsAbout id (cancel_request i) = i ≡ id
IsAbout id (modify_request i price qty now) = i ≡ id
IsAbout id _ = ⊥
