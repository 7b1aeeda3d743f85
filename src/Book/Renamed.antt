-- ===== src/Book/Renamed.antt =====
-- The listing of the book when a new order is made, which is a new name with a new id.
use limit_order_book_matchin.Base.{
  ℕ, ◌+◌, ◌<◌, ◌≡◌, refl, sym, ap, subst, ◌∙◌, inl, inr, ◌==◌, List, [], ◌∷◌, some, arith, All,
  All-append, All-map, if◌then◌else◌,
}
use limit_order_book_matchin.Order.{Side, buy, sell}
use limit_order_book_matchin.PriceMap.{Ptr}
use limit_order_book_matchin.OrderBook.State.{OrderBook, active_find, levels}
use limit_order_book_matchin.Matching.Priority.Spent.{queue}
use limit_order_book_matchin.Book.Known.{Known}
use limit_order_book_matchin.Book.Tally.{tally, tally_stops}
use limit_order_book_matchin.Book.Indexing.Entries.{resting_orders, LevelsKnown-queue}
use limit_order_book_matchin.Book.Listed.{Listing}

-- An entry of `active_`: the id is that of the order, is in use, and the order has been made.
abbrev pub Entry : (Ptr → ℕ) → Ptr → ℕ → ℕ × Ptr → Type 0
Entry key next_ptr next_id e = (key e.1 ≡ e.0) × (e.0 < next_id) × (e.1 < next_ptr)

abbrev pub id_of : OrderBook → Ptr → ℕ
id_of b p = (b.object p).id

-- Every order of the book stands in one place under an id below `next_id` of its own; those that rest
-- are found in `active_` by their id, and those that wait for their trigger are not.
abbrev pub IsListed : ℕ → OrderBook → Type 0
IsListed next_id b = Listing (id_of b) (Entry (id_of b) b.next_ptr next_id) [] b

-- Two books with the same lists, in which the orders that one knows have the same ids.
pub record SameLists (b c : OrderBook) : Type 0 where
  pub bids : c.bids ≡ b.bids
  pub asks : c.asks ≡ b.asks
  pub pending : c.pending_stops ≡ b.pending_stops
  pub triggered : c.triggered_stops ≡ b.triggered_stops
  pub active : c.active_orders ≡ b.active_orders

module _ (key new_key : Ptr → ℕ) (R : Ptr → Type 0)
    (same : (p : Ptr) → R p → new_key p ≡ key p) where
  tally-same : (i : ℕ) (ps : List Ptr) → All R ps → tally new_key i ps ≡ tally key i ps
  tally-same i [] h = refl
  tally-same i (p ∷ ps) h =
      rw (same p h.0) (ap (λ n. (if key p == i then 1 else 0) + n) (tally-same i ps h.1))

  found-same :
      (active : List (ℕ × Ptr)) (ps : List Ptr)
      → All R ps
      → All (λ p. active_find (key p) active ≡ some p) ps
      → All (λ p. active_find (new_key p) active ≡ some p) ps
  found-same active [] h f = tt
  found-same active (p ∷ ps) h f =
      (ap (λ i. active_find i active) (same p h.0) ∙ f.0, found-same active ps h.1 f.1)

pub resting-Known : (R : Ptr → Type 0) (b : OrderBook) → Known R b → All R (resting_orders buy b)
resting-Known R b k =
    All-append R (queue b.asks) (queue b.bids) (LevelsKnown-queue R b.asks (k.sides sell))
      (LevelsKnown-queue R b.bids (k.sides buy))

-- The listing under other keys, for a book with the same lists.
pub Listing-rekeyed :
    (key new_key : Ptr → ℕ) (Q new_Q : ℕ × Ptr → Type 0) (b c : OrderBook)
    → SameLists b c
    → ((p : Ptr) → Q (key p, p) → new_key p ≡ key p)
    → ((i : ℕ) (p : Ptr) → Q (i, p) → new_Q (i, p))
    → ((p : Ptr) → (c.object p).id ≡ new_key p)
    → Listing key Q [] b
    → Listing new_key new_Q [] c
Listing-rekeyed key new_key Q new_Q b c lists same weaker ids h = record {
  ids = ids;
  indexed = record {
    found =
        rw (lists.bids, lists.asks, lists.active)
          (found-same key new_key R same b.active_orders (resting_orders buy b) resting
            h.indexed.found);
    unique = λ i.
        rw (lists.bids, lists.asks)
          (omega (
            arith,
            h.indexed.unique i,
            tally-same key new_key R same i (resting_orders buy b) resting,
          ));
    unlisted = λ i. elim (h.indexed.unlisted i) [
      | inl e ↦ inl (ap (active_find i) lists.active ∙ e)
      | inr e ↦ inr (stops_same i ∙ e)
    ];
    entries =
        rw lists.active (All-map Q new_Q b.active_orders (λ e. weaker e.0 e.1) h.indexed.entries);
  };
  once = λ i. omega (
    arith,
    h.once i,
    stops_same i,
    ap (λ m. tally new_key i (queue m)) lists.bids,
    ap (λ m. tally new_key i (queue m)) lists.asks,
    tally-same key new_key R same i (queue b.bids) (LevelsKnown-queue R b.bids (h.known.sides buy)),
    tally-same key new_key R same i (queue b.asks)
        (LevelsKnown-queue R b.asks (h.known.sides sell)),
  );
  batch_ok = tt;
  known = record {
    sides = by_side;
    stops = (
      rw lists.pending (All-map R S b.pending_stops up h.known.stops.0),
      rw lists.triggered (All-map R S b.triggered_stops up h.known.stops.1),
    );
  };
}
  where
    R : Ptr → Type 0
    R p = Q (key p, p)

    S : Ptr → Type 0
    S p = new_Q (new_key p, p)

    up : (p : Ptr) → R p → S p
    up p q = weaker (new_key p) p (subst (λ i. Q (i, p)) (sym (same p q)) q)

    resting : All R (resting_orders buy b)
    resting = resting-Known R b h.known

    stops_same : (i : ℕ) → tally_stops new_key i c ≡ tally_stops key i b
    stops_same i = omega (
      arith,
      ap (tally new_key i) lists.pending,
      ap (tally new_key i) lists.triggered,
      tally-same key new_key R same i b.pending_stops h.known.stops.0,
      tally-same key new_key R same i b.triggered_stops h.known.stops.1,
    )

    by_side : (side : Side) → All (λ e. All S e.1) (levels side c)
    by_side buy = rw lists.bids (
        All-map (λ e. All R e.1) (λ e. All S e.1) b.bids (λ e. All-map R S e.1 up)
          (h.known.sides buy))
    by_side sell = rw lists.asks (
        All-map (λ e. All R e.1) (λ e. All S e.1) b.asks (λ e. All-map R S e.1 up)
          (h.known.sides sell))
