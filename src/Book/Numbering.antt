-- ===== src/Book/Numbering.antt =====
-- A new order with a new id is matched: the listing of the book before and after.
use limit_order_book_matchin.Base.{
  ℕ, suc, ◌+◌, ◌≤◌, ◌<◌, ◌≡◌, ◌≢◌, refl, sym, ap, subst, ◌∙◌, inl, inr, List, [], ◌∷◌, none, some,
  arith, All, All-map, Option-cases, ℕ_discrete,
}
use limit_order_book_matchin.Order.{Order, buy, sell}
use limit_order_book_matchin.PriceMap.{Ptr}
use limit_order_book_matchin.OrderBook.State.{OrderBook, new_object, active_find}
use limit_order_book_matchin.OrderBook.Matching.{Progress, match}
use limit_order_book_matchin.Matching.Priority.Spent.{queue}
use limit_order_book_matchin.Book.Known.{match-next_ptr}
use limit_order_book_matchin.Book.Tally.{one, tally, total, zero_tally}
use limit_order_book_matchin.Book.Index.{active_find-All}
use limit_order_book_matchin.Book.Indexing.Entries.{LevelsKnown-queue}
use limit_order_book_matchin.Book.Listed.{Listing, match-Listing}
use limit_order_book_matchin.Book.Renamed.{Entry, id_of, IsListed, SameLists, Listing-rekeyed}

-- An id that is not in use stands nowhere in the book, and is not found.
pub total_unused : (n i : ℕ) (b : OrderBook) → n ≤ i → IsListed n b → total (id_of b) i b ≡ 0
total_unused n i b le h = omega (
  arith,
  zero_tally (id_of b) i (queue b.bids)
      (apart (queue b.bids) (LevelsKnown-queue R b.bids (h.known.sides buy))),
  zero_tally (id_of b) i (queue b.asks)
      (apart (queue b.asks) (LevelsKnown-queue R b.asks (h.known.sides sell))),
  zero_tally (id_of b) i b.pending_stops (apart b.pending_stops h.known.stops.0),
  zero_tally (id_of b) i b.triggered_stops (apart b.triggered_stops h.known.stops.1),
)
  where
    R : Ptr → Type 0
    R p = Entry (id_of b) b.next_ptr n (id_of b p, p)

    apart : (ps : List Ptr) → All R ps → All (λ p. id_of b p ≢ i) ps
    apart ps = All-map R (λ p. id_of b p ≢ i) ps (λ p r e. omega (arith, r.1, e, le))

pub find_unused :
    (n i : ℕ) (b : OrderBook) → n ≤ i → IsListed n b → active_find i b.active_orders ≡ none
find_unused n i b le h = elim (Option-cases (active_find i b.active_orders)) [
  | inl e ↦ e
  | inr (p, e) ↦ absurd (
      let k =
        active_find-All (Entry (id_of b) b.next_ptr n) i b.active_orders e h.indexed.entries in
      omega (arith, k.1, le))
]

pub new_object-lists : (o : Order) (b : OrderBook) → SameLists b (new_object o b)
unfolding new_object
new_object-lists o b = record {
  bids = refl;
  asks = refl;
  pending = refl;
  triggered = refl;
  active = refl;
}

pub new_object-id :
    (o : Order) (b : OrderBook) (p : Ptr) → p < b.next_ptr → id_of (new_object o b) p ≡ id_of b p
unfolding new_object
new_object-id o b p less = ground arith

pub new_object-own_id : (o : Order) (b : OrderBook) → id_of (new_object o b) b.next_ptr ≡ o.id
unfolding new_object
new_object-own_id o b = ground arith

pub new_object-size : (o : Order) (b : OrderBook) → (new_object o b).next_ptr ≡ suc b.next_ptr
unfolding new_object
new_object-size o b = refl

-- The book does not see the new order.
pub new_object-IsListed :
    (o : Order) (n m : ℕ) (b : OrderBook) → n ≤ m → IsListed n b → IsListed m (new_object o b)
new_object-IsListed o n m b le h =
    Listing-rekeyed (id_of b) (id_of c) (Entry (id_of b) b.next_ptr n)
      (Entry (id_of c) c.next_ptr m) b c (new_object-lists o b) (λ p q. new_object-id o b p q.2)
      (λ i p q. (
        new_object-id o b p q.2 ∙ q.0,
        omega (arith, q.1, le),
        omega (arith, q.2, new_object-size o b),
      ))
      (λ p. refl) h
  where
    c : OrderBook
    c = new_object o b

pub one_le : (key : Ptr → ℕ) (i : ℕ) (p : Ptr) → one key i p ≤ 1
one_le key i p = ground arith

-- Its id is its own.
pub new_object-once :
    (o : Order) (b : OrderBook) (i : ℕ)
    → IsListed o.id b
    → let c = new_object o b in tally (id_of c) i (b.next_ptr ∷ []) + total (id_of c) i c ≤ 1
new_object-once o b i h = at_most (ℕ_discrete o.id i)
  where
    c : OrderBook
    c = new_object o b

    own : id_of c b.next_ptr ≡ o.id
    own = new_object-own_id o b

    at_most : Dec (o.id ≡ i) → tally (id_of c) i (b.next_ptr ∷ []) + total (id_of c) i c ≤ 1
    at_most (yes e) =
        let z =
          total_unused o.id i c (omega (arith, e))
            (new_object-IsListed o o.id o.id b (omega arith) h) in
        let k = one_le (id_of c) i b.next_ptr in omega (arith, z, k)
    at_most (no ne) =
        let k = (new_object-IsListed o o.id (suc o.id) b (omega arith) h).once i in
        let z : one (id_of c) i b.next_ptr ≡ 0 = ground (arith, own, ne) in omega (arith, k, z)

-- A match of the new order lists it too.
pub match-IsListed :
    (o : Order) (b : OrderBook) {r : Progress}
    → match b.next_ptr (new_object o b) ≡ some r
    → IsListed o.id b
    → IsListed (suc o.id) r.book
match-IsListed o b {r} ran h =
    Listing-rekeyed (id_of c) (id_of r.book) (Entry (id_of c) c.next_ptr (suc o.id))
      (Entry (id_of r.book) r.book.next_ptr (suc o.id)) r.book r.book
      (record { bids = refl; asks = refl; pending = refl; triggered = refl; active = refl })
      (λ p _. after.ids p)
      (λ i p q.
        (after.ids p ∙ q.0, q.1, subst (λ n. p < n) (sym (match-next_ptr b.next_ptr c ran)) q.2))
      (λ p. refl) after
  where
    c : OrderBook
    c = new_object o b

    Q : ℕ × Ptr → Type 0
    Q = Entry (id_of c) c.next_ptr (suc o.id)

    old : IsListed o.id c
    old = new_object-IsListed o o.id o.id b (omega arith) h

    listed : IsListed (suc o.id) c
    listed = new_object-IsListed o o.id (suc o.id) b (omega arith) h

    own : id_of c b.next_ptr ≡ o.id
    own = new_object-own_id o b

    after : Listing (id_of c) Q [] r.book
    after =
        match-Listing (id_of c) Q b.next_ptr c ran
          (ap (λ i. active_find i c.active_orders) own ∙ find_unused o.id o.id c (omega arith) old)
          (record {
            ids = listed.ids;
            indexed = listed.indexed;
            once = λ i. new_object-once o b i h;
            batch_ok = ((refl, omega (arith, own), omega (arith, new_object-size o b)), tt);
            known = listed.known;
          })
