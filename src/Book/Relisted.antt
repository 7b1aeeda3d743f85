-- ===== src/Book/Relisted.antt =====
-- What `modifyOrder` of src/orderbook.cpp keeps of the listing of the book.
use limit_order_book_matchin.Base.{
  ℕ, ◌+◌, ◌≤◌, ◌<◌, ◌≡◌, refl, sym, ap, subst, ◌∙◌, inl, inr, [], some, ℤ, arith, ℕ_discrete,
  Option-cases,
}
use limit_order_book_matchin.Order.{Order, Side, buy, sell, new_order}
use limit_order_book_matchin.PriceMap.{Ptr}
use limit_order_book_matchin.OrderBook.State.{
  OrderBook, levels, opposite, active_find, new_object, add_to_book,
}
use limit_order_book_matchin.OrderBook.Requests.{
  cancel_order, remove_order, modify_order, replace_order,
}
use limit_order_book_matchin.Matching.Frame.{add_to_book-Stable}
use limit_order_book_matchin.Matching.Frame.Scan.{Terms}
use limit_order_book_matchin.Matching.Priority.Spent.{queue}
use limit_order_book_matchin.Book.WellFormed.{IsWellFormed}
use limit_order_book_matchin.Book.Known.{add_to_book-Known}
use limit_order_book_matchin.Book.Fresh.{
  IsAllocated, new_object-IsWellFormed, new_order-IsClosed, remove_order-next,
}
use limit_order_book_matchin.Book.Tally.{
  one, tally, tally_stops, total, tally-append, tally-push_back, zero_tally,
}
use limit_order_book_matchin.Book.Index.{active_find-All}
use limit_order_book_matchin.Book.Indexing.{add_to_book-Indexed}
use limit_order_book_matchin.Book.Indexing.Entries.{add_to_book-Entered}
use limit_order_book_matchin.Book.Listed.{Listing, Indexed-turned, total-resting}
use limit_order_book_matchin.Book.Renamed.{Entry, id_of, IsListed, Listing-rekeyed}
use limit_order_book_matchin.Book.Numbering.{
  new_object-IsListed, new_object-own_id, new_object-size, new_object-lists, one_le,
}
use limit_order_book_matchin.Book.Gone.{NoneHas}
use limit_order_book_matchin.Book.Delisted.Removal.{removed-NoneHas, removed-Listing, same_stops}

module _ (key : Ptr → ℕ) (Q : ℕ × Ptr → Type 0) where
  add_to_book-total :
      (order : Ptr) (b : OrderBook) (i : ℕ)
      → total key i (add_to_book order b) ≡ total key i b + one key i order
  add_to_book-total order b i =
      let side = (b.object order).side in
      let c = add_to_book order b in
      let e = add_to_book-Entered side order b refl in
      omega (
        arith,
        total-resting key Q side i b,
        total-resting key Q side i c,
        tally-append key i (queue (levels (opposite side) b)) (queue (levels side b)),
        tally-append key i (queue (levels (opposite side) c)) (queue (levels side c)),
        ap (λ m. tally key i (queue m)) e.facing,
        ap (λ m. tally key i (queue m)) e.own_side,
        tally-push_back key i side (b.object order).price order (levels side b),
        ap (tally key i) e.pending,
        ap (tally key i) e.triggered,
      )

  -- An order whose id stands nowhere is added.
  add_to_book-Listing :
      (order : Ptr) (b : OrderBook)
      → total key (key order) b ≡ 0
      → Q (key order, order)
      → Listing key Q [] b
      → Listing key Q [] (add_to_book order b)
  add_to_book-Listing order b free q h = record {
    ids = λ p. ap (λ (t : Terms). t.id) ((add_to_book-Stable order b).terms_of p) ∙ h.ids p;
    indexed = Indexed-turned key Q side buy (add_to_book order b) (
        add_to_book-Indexed key Q side order b refl (h.ids order)
          (λ j. omega (arith, room j (ℕ_discrete (key order) j), total-resting key Q side j b)) q
          (Indexed-turned key Q buy side b h.indexed));
    once = λ i. omega (arith, room i (ℕ_discrete (key order) i), add_to_book-total order b i);
    batch_ok = tt;
    known = add_to_book-Known (λ p. Q (key p, p)) order b q h.known;
  }
    where
      side : Side
      side = (b.object order).side

      room : (j : ℕ) → Dec (key order ≡ j) → total key j b + one key j order ≤ 1
      room j (yes e) =
          subst (λ i. total key i b + one key i order ≤ 1) e
            (omega (arith, free, one_le key (key order) order))
      room j (no ne) =
          let k = h.once j in
          let z : one key j order ≡ 0 = ground (arith, ne) in omega (arith, k, z)

-- The order that `modifyOrder` makes.
abbrev replacement : Ptr → ℤ → ℕ → ℤ → OrderBook → Order
replacement p price qty ts b =
    new_order (b.object p).id ts (b.object p).side (b.object p).kind price qty

module _ (n id : ℕ) (p : Ptr) (price : ℤ) (qty : ℕ) (ts : ℤ) (b : OrderBook)
    (found : active_find id b.active_orders ≡ some p) (k : IsAllocated b) (w : IsWellFormed b)
    (h : IsListed n b) where
  replaced-IsListed :
      IsListed n
        (add_to_book b.next_ptr (remove_order id p (new_object (replacement p price qty ts b) b)))
  unfolding new_order
  replaced-IsListed =
      Listing-rekeyed (id_of c) (id_of e) Q (Entry (id_of e) e.next_ptr n) e e
        (record { bids = refl; asks = refl; pending = refl; triggered = refl; active = refl })
        (λ q _. after.ids q)
        (λ i q r.
          (after.ids q ∙ r.0, r.1, subst (λ m. q < m) (sym (size ∙ remove_order-next id p c)) r.2))
        (λ q. refl) after
    where
      o : Order
      o = replacement p price qty ts b

      c : OrderBook
      c = new_object o b

      d : OrderBook
      d = remove_order id p c

      e : OrderBook
      e = add_to_book b.next_ptr d

      Q : ℕ × Ptr → Type 0
      Q = Entry (id_of c) c.next_ptr n

      entry : Entry (id_of b) b.next_ptr n (id, p)
      entry =
          active_find-All (Entry (id_of b) b.next_ptr n) id b.active_orders found h.indexed.entries

      listed : IsListed n c
      listed = new_object-IsListed o n n b (omega arith) h

      formed : IsWellFormed c
      formed =
          new_object-IsWellFormed o b
            (new_order-IsClosed (b.object p).id ts (b.object p).side (b.object p).kind price qty) k
            w

      still : active_find id c.active_orders ≡ some p
      still = ap (active_find id) (new_object-lists o b).active ∙ found

      own : id_of c b.next_ptr ≡ id
      own = new_object-own_id o b ∙ entry.0

      size : e.next_ptr ≡ d.next_ptr
      size = (add_to_book-Stable b.next_ptr d).next_ptr

      gone : NoneHas (id_of c) id d
      gone = removed-NoneHas n id p c still formed listed

      no_stop : tally_stops (id_of c) id d ≡ 0
      no_stop = elim (listed.indexed.unlisted id) [
        | inl f ↦ absurd (let g = sym f ∙ still in cc)
        | inr z ↦ same_stops n id p c still formed listed id ∙ z
      ]

      nowhere : total (id_of c) id d ≡ 0
      nowhere = omega (
        arith,
        no_stop,
        zero_tally (id_of c) id (queue d.bids) (gone buy),
        zero_tally (id_of c) id (queue d.asks) (gone sell),
      )

      after : Listing (id_of c) Q [] e
      after =
          add_to_book-Listing (id_of c) Q b.next_ptr d
            (subst (λ i. total (id_of c) i d ≡ 0) (sym own) nowhere)
            (refl, subst (λ i. i < n) (sym own) entry.1, omega (arith, new_object-size o b))
            (removed-Listing n id p c still formed listed)

-- From a well-formed, listed book `modifyOrder` gives a listed book, whether the id is known or not.
pub modify_order-IsListed :
    (n id : ℕ) (price : ℤ) (qty : ℕ) (ts : ℤ) (b : OrderBook)
    → IsAllocated b
    → IsWellFormed b
    → IsListed n b
    → IsListed n (modify_order id price qty ts b).0
unfolding modify_order replace_order cancel_order
modify_order-IsListed n id price qty ts b k w h =
    elim (Option-cases (active_find id b.active_orders)) [
      | inl e ↦ rw (e, modify_order) h
      | inr (p, e) ↦
          rw (e, modify_order)
            (subst (λ (c : OrderBook). IsListed n (add_to_book b.next_ptr c)) (sym (cancelled p e))
              (replaced-IsListed n id p price qty ts b e k w h))
    ]
  where
    cancelled :
        (p : Ptr)
        → active_find id b.active_orders ≡ some p
        → let o = replacement p price qty ts b in
          (cancel_order id (new_object o b)).0 ≡ remove_order id p (new_object o b)
    cancelled p e =
        rw
          (
            ap (active_find id) (new_object-lists (replacement p price qty ts b) b).active ∙ e,
            cancel_order,
          )
          refl
