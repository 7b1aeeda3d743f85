-- ===== src/Book/Delisted/Removal.antt =====
-- The removal of an order that the index knows.
use limit_order_book_matchin.Base.{
  ℕ, ◌≤◌, ◌<◌, ◌≡◌, ◌≢◌, refl, sym, ap, subst, ◌∙◌, inl, inr, Bool, true, false, ◌==◌, [], Option,
  none, some, ℤ, arith, All, All-append, if◌then◌else◌,
}
use limit_order_book_matchin.Order.{Order, Side, buy, sell, cancel}
use limit_order_book_matchin.PriceMap.{Ptr, Levels, remove_from_level}
use limit_order_book_matchin.OrderBook.State.{
  OrderBook, levels, with_levels, opposite, active_find, active_erase, modify_object,
}
use limit_order_book_matchin.OrderBook.Requests.{remove_order}
use limit_order_book_matchin.Matching.Priority.Spent.{queue}
use limit_order_book_matchin.Book.WellFormed.{IsWellFormed}
use limit_order_book_matchin.Book.Cancel.{active_find-erase, cancel_object-terms}
use limit_order_book_matchin.Matching.Frame.Scan.{Terms}
use limit_order_book_matchin.Book.Removed.{remove_order-Removed, remove_order-level}
use limit_order_book_matchin.Book.Fresh.{remove_order-next, remove_order-Known}
use limit_order_book_matchin.Book.Tally.{tally, tally_stops, tally-append}
use limit_order_book_matchin.Book.Index.{active_erase-All}
use limit_order_book_matchin.Book.Indexing.Entries.{All-split}
use limit_order_book_matchin.Book.Listed.{Listing}
use limit_order_book_matchin.Book.Renamed.{Entry, id_of, IsListed, Listing-rekeyed}
use limit_order_book_matchin.Book.Gone.{
  NoneHas, remove_order-NoneHas, queue-remove_from_level, tally-remove_from_level, All-both,
}

-- A removal erases the id from the index and leaves the stops.
remove_order-active :
    (id : ℕ) (p : Ptr) (b : OrderBook)
    → (remove_order id p b).active_orders ≡ active_erase id b.active_orders
unfolding remove_order modify_object
remove_order-active id p b = by_side (b.object p).side _
  where
    by_side :
        (x : Side) (m : Levels)
        → active_erase id (with_levels x m b).active_orders ≡ active_erase id b.active_orders
    by_side buy m = refl
    by_side sell m = refl

remove_order-stops :
    (id : ℕ) (p : Ptr) (b : OrderBook)
    → ((remove_order id p b).pending_stops ≡ b.pending_stops)
      × ((remove_order id p b).triggered_stops ≡ b.triggered_stops)
unfolding remove_order modify_object
remove_order-stops id p b = by_side (b.object p).side _
  where
    by_side :
        (x : Side) (m : Levels)
        → ((with_levels x m b).pending_stops ≡ b.pending_stops)
          × ((with_levels x m b).triggered_stops ≡ b.triggered_stops)
    by_side buy m = (refl, refl)
    by_side sell m = (refl, refl)

-- A cancelled order keeps its id.
pub remove_order-id :
    (id : ℕ) (p : Ptr) (b : OrderBook) (q : Ptr) → id_of (remove_order id p b) q ≡ id_of b q
unfolding remove_order
remove_order-id id p b q = by_side (b.object p).side _
  where
    by_side :
        (x : Side) (m : Levels) → id_of (modify_object p cancel (with_levels x m b)) q ≡ id_of b q
    by_side buy m = ap (λ (t : Terms). t.id) (cancel_object-terms p (with_levels buy m b) q)
    by_side sell m = ap (λ (t : Terms). t.id) (cancel_object-terms p (with_levels sell m b) q)

-- Each side is as it was, or has lost the order from its level.
remove_order-sides :
    (P : Levels → Levels → Type 0) (id : ℕ) (p : Ptr) (b : OrderBook)
    → IsWellFormed b
    → ((m : Levels) → P m m)
    → ((x : Side) (price : ℤ) (keep : Ptr → Bool) (m : Levels)
        → P (remove_from_level x price keep m) m)
    → (x : Side) → P (levels x (remove_order id p b)) (levels x b)
remove_order-sides P id p b w same less =
    pick o.side
      (subst (λ m. P m (levels o.side b)) (sym (remove_order-level id p b))
        (less o.side o.price _ (levels o.side b)))
      (subst (λ m. P m (levels (opposite o.side) b)) (sym (remove_order-Removed id p b w).facing)
        (same (levels (opposite o.side) b)))
  where
    o : Order
    o = b.object p

    pick :
        (y : Side)
        → P (levels y (remove_order id p b)) (levels y b)
        → P (levels (opposite y) (remove_order id p b)) (levels (opposite y) b)
        → (x : Side) → P (levels x (remove_order id p b)) (levels x b)
    pick buy h k buy = h
    pick buy h k sell = k
    pick sell h k sell = h
    pick sell h k buy = k

module _ (n id : ℕ) (p : Ptr) (b : OrderBook) (found : active_find id b.active_orders ≡ some p)
    (w : IsWellFormed b) (h : IsListed n b) where
  index_of :
      (side : Side)
      → All (λ q. active_find (id_of b q) b.active_orders ≡ some q) (queue (levels side b))
  index_of = by_side (
      All-split (λ q. active_find (id_of b q) b.active_orders ≡ some q) (queue b.asks)
        (queue b.bids) h.indexed.found)
    where
      by_side :
          All (λ q. active_find (id_of b q) b.active_orders ≡ some q) (queue b.asks)
            × All (λ q. active_find (id_of b q) b.active_orders ≡ some q) (queue b.bids)
          → (side : Side)
          → All (λ q. active_find (id_of b q) b.active_orders ≡ some q) (queue (levels side b))
      by_side (a, c) buy = c
      by_side (a, c) sell = a

  pub removed-NoneHas : NoneHas (id_of b) id (remove_order id p b)
  removed-NoneHas = remove_order-NoneHas id p b found w index_of

  still_found :
      (side : Side)
      → All
          (λ q. active_find (id_of b q) (remove_order id p b).active_orders ≡ some q)
          (queue (levels side (remove_order id p b)))
  still_found side =
      All-both (λ q. id_of b q ≢ id) (λ q. active_find (id_of b q) b.active_orders ≡ some q)
        (λ q. active_find (id_of b q) (remove_order id p b).active_orders ≡ some q)
        (queue (levels side (remove_order id p b)))
        (λ q ne e.
          ap (active_find (id_of b q)) (remove_order-active id p b)
          ∙ active_find-erase id (id_of b q) b.active_orders
          ∙ skip (id_of b q) ne (active_find (id_of b q) b.active_orders)
          ∙ e)
        (removed-NoneHas side)
        (remove_order-sides
          (λ m m'.
            All (λ q. active_find (id_of b q) b.active_orders ≡ some q) (queue m')
            → All (λ q. active_find (id_of b q) b.active_orders ≡ some q) (queue m))
          id p b w (λ m k. k)
          (λ x price keep m.
            queue-remove_from_level (λ q. active_find (id_of b q) b.active_orders ≡ some q) x price
              keep m)
          side (index_of side))
    where
      skip : (j : ℕ) → j ≢ id → (o : Option Ptr) → (if id == j then none else o) ≡ o
      skip j ne o = ground arith

  fewer :
      (i : ℕ) (side : Side)
      → tally (id_of b) i (queue (levels side (remove_order id p b)))
        ≤ tally (id_of b) i (queue (levels side b))
  fewer i =
      remove_order-sides (λ m m'. tally (id_of b) i (queue m) ≤ tally (id_of b) i (queue m')) id p b
        w (λ m. omega arith) (λ x price keep m. tally-remove_from_level (id_of b) i x price keep m)

  pub same_stops :
      (i : ℕ) → tally_stops (id_of b) i (remove_order id p b) ≡ tally_stops (id_of b) i b
  same_stops i =
      let (s, t) = remove_order-stops id p b in
      omega (arith, ap (tally (id_of b) i) s, ap (tally (id_of b) i) t)

  pub removed-Listing : Listing (id_of b) (Entry (id_of b) b.next_ptr n) [] (remove_order id p b)
  removed-Listing = record {
    ids = remove_order-id id p b;
    indexed = record {
      found =
          All-append _ (queue (remove_order id p b).asks) (queue (remove_order id p b).bids)
            (still_found sell) (still_found buy);
      unique = λ i. omega (
        arith,
        h.indexed.unique i,
        fewer i buy,
        fewer i sell,
        tally-append (id_of b) i (queue b.asks) (queue b.bids),
        tally-append (id_of b) i (queue (remove_order id p b).asks)
            (queue (remove_order id p b).bids),
      );
      unlisted = λ i. elim (h.indexed.unlisted i) [
        | inl e ↦ inl (
            ap (active_find i) (remove_order-active id p b)
            ∙ active_find-erase id i b.active_orders
            ∙ gone (id == i) (active_find i b.active_orders) e)
        | inr e ↦ inr (same_stops i ∙ e)
      ];
      entries =
          subst (All (Entry (id_of b) b.next_ptr n)) (sym (remove_order-active id p b))
            (active_erase-All (Entry (id_of b) b.next_ptr n) id b.active_orders h.indexed.entries);
    };
    once = λ i. omega (arith, h.once i, fewer i buy, fewer i sell, same_stops i);
    batch_ok = tt;
    known = remove_order-Known (λ q. Entry (id_of b) b.next_ptr n (id_of b q, q)) id p b h.known;
  }
    where
      gone : (x : Bool) (o : Option Ptr) → o ≡ none → (if x then none else o) ≡ none
      gone true o f = refl
      gone false o f = f

  pub removed-IsListed : IsListed n (remove_order id p b)
  removed-IsListed =
      Listing-rekeyed (id_of b) (id_of c) (Entry (id_of b) b.next_ptr n)
        (Entry (id_of c) c.next_ptr n) c c
        (record { bids = refl; asks = refl; pending = refl; triggered = refl; active = refl })
        (λ q _. remove_order-id id p b q)
        (λ i q e. (
          remove_order-id id p b q ∙ e.0,
          e.1,
          subst (λ m. q < m) (sym (remove_order-next id p b)) e.2,
        ))
        (λ q. refl) removed-Listing
    where
      c : OrderBook
      c = remove_order id p b
