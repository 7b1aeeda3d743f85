-- ===== src/Matching/Frame.antt =====
-- What a sweep of a level leaves alone: the terms of every order, both sides of the map, and the
-- number of stops that are pending or triggered.
pub mod Scan
use limit_order_book_matchin.Base.{
  ℕ, ◌+◌, ◌≡◌, refl, subst, ◌∙◌, not, ◌&&◌, ◌⊎◌, List, [], ◌∷◌, ◌++◌, some, ℤ, arith, length,
  length-append, Bool-cases, inl, inr,
}
use limit_order_book_matchin.Order.{
  Order, Side, buy, sell, OrderKind, trigger, fill, replenish, is_filled, is_market,
}
use limit_order_book_matchin.PriceMap.{Ptr, Level, Levels, push_back}
use limit_order_book_matchin.OrderBook.State.{
  OrderBook, Trade, modify_object, levels, with_levels, opposite, add_to_book,
}
use limit_order_book_matchin.OrderBook.Stops.{scan_stops, check_stop_triggers, fires}
use limit_order_book_matchin.OrderBook.Sweep.{
  Sweep, exchange, record_trade, match_front, execute, settle, match_level,
}
use limit_order_book_matchin.OrderBook.Matching.{Progress, match_side, close_level, rest_in_book}
use limit_order_book_matchin.Matching.Cases.Loops.{
  settle_cases, match_front_cases, match_level_inv, match_side_inv,
}
use limit_order_book_matchin.Matching.Frame.Scan.{
  terms-fill, terms-replenish, Kept, Kept-refl, Kept-trans, modify_object-Kept, Stable, Kept-Stable,
  Stable-refl, Stable-trans, Scanned, scan_stops-Scanned,
}

pub check_stop_triggers-Scanned :
    (price : ℤ) (b : OrderBook) → Scanned b.pending_stops b (check_stop_triggers price b)
unfolding check_stop_triggers
check_stop_triggers-Scanned price b = scan_stops-Scanned price b.pending_stops b

check_stop_triggers-Kept : (price : ℤ) (b : OrderBook) → Kept b (check_stop_triggers price b)
unfolding trigger
check_stop_triggers-Kept price b = record {
  terms_of = λ p. ground (arith, s.flagged p);
  bids = s.bids;
  asks = s.asks;
  next_ptr = s.next_ptr;
  stop_count = s.count;
}
  where
    s : Scanned b.pending_stops b (check_stop_triggers price b)
    s = check_stop_triggers-Scanned price b

pub exchange-Kept :
    (order resting : Ptr) (qty : ℕ) (b : OrderBook) → Kept b (exchange order resting qty b)
unfolding exchange
exchange-Kept order resting qty b = Kept-trans (filled order b) (filled resting _)
  where
    filled : (p : Ptr) (c : OrderBook) → Kept c (modify_object p (λ o. fill o qty) c)
    filled p c = modify_object-Kept p (λ o. fill o qty) c (λ o. terms-fill o qty)

record_trade-Kept : (t : Trade) (b : OrderBook) → Kept b (record_trade t b)
unfolding record_trade
record_trade-Kept t b = record {
  terms_of = λ p. refl;
  bids = refl;
  asks = refl;
  next_ptr = refl;
  stop_count = refl;
}

pub execute-Kept :
    (side : Side) (order resting : Ptr) (price : ℤ) (qty : ℕ) (s : Sweep)
    → Kept s.book (execute side order resting price qty s).book
unfolding execute
execute-Kept side order resting price qty s =
    Kept-trans (Kept-trans (exchange-Kept order resting qty s.book) (record_trade-Kept _ _))
      (check_stop_triggers-Kept price _)

pub settle-Kept :
    (resting : Ptr) (rest : Level) (s : Sweep) → Kept s.book (settle resting rest s).book
settle-Kept resting rest s =
    settle_cases (λ t. Kept s.book t.book) resting rest s
      (λ _. record {
        terms_of = λ p. refl;
        bids = refl;
        asks = refl;
        next_ptr = refl;
        stop_count = refl;
      })
      (λ _ _ _. modify_object-Kept resting replenish s.book terms-replenish)
      (λ _ _. Kept-refl s.book)

pub match_front-Kept :
    (side : Side) (order : Ptr) (price : ℤ) (resting : Ptr) (rest : Level) (s : Sweep)
    → Kept s.book (match_front side order price (resting ∷ rest) s).book
match_front-Kept side order price resting rest s =
    match_front_cases (λ t. Kept s.book t.book) side order price resting rest s
      (λ _. Kept-refl s.book)
      (λ _. Kept-trans (execute-Kept side order resting price _ s) (settle-Kept resting rest _))

pub match_level-Kept :
    (side : Side) (order : Ptr) (price : ℤ) (s : Sweep) {t : Sweep}
    → match_level side order price s ≡ some t
    → Kept s.book t.book
match_level-Kept side order price s e =
    (match_level_inv (λ t. Kept s.book t.book) side order price s e
      (λ u resting rest _ _ k. Kept-trans k (match_front-Kept side order price resting rest u))
      (Kept-refl s.book)).0

with_levels-Stable : (side : Side) (m : Levels) (b : OrderBook) → Stable b (with_levels side m b)
with_levels-Stable buy m b = record { terms_of = λ p. refl; next_ptr = refl; stop_count = refl }
with_levels-Stable sell m b = record { terms_of = λ p. refl; next_ptr = refl; stop_count = refl }

pub add_to_book-Stable : (order : Ptr) (b : OrderBook) → Stable b (add_to_book order b)
unfolding add_to_book
add_to_book-Stable order b =
    let o = b.object order in
    let k = with_levels-Stable o.side (push_back o.side o.price order (levels o.side b)) b in
    record { terms_of = k.terms_of; next_ptr = k.next_ptr; stop_count = k.stop_count }

pub rest_in_book-Stable : (order : Ptr) (b : OrderBook) → Stable b (rest_in_book order b)
unfolding rest_in_book
rest_in_book-Stable order b =
    let o = b.object order in
    elim (Bool-cases (not (is_filled o) && not (is_market o))) [
      | inl e ↦ rw (e, rest_in_book) (add_to_book-Stable order b)
      | inr e ↦ rw (e, rest_in_book) (Stable-refl b)
    ]

pub close_level-Stable :
    (side : Side) (order : Ptr) (s : Progress) (price : ℤ) (level : Level) (rest : Levels)
    (t : Sweep)
    → match_level side order price (record { book = s.book; level = level; result = s.result })
      ≡ some t
    → Stable s.book (close_level side price rest t).book
unfolding close_level
close_level-Stable side order s price level rest t swept =
    Stable-trans (Kept-Stable (match_level-Kept side order price _ swept))
      (with_levels-Stable (opposite side) _ t.book)

pub match_side-Stable :
    (side : Side) (order : Ptr) (b : OrderBook) {r : Progress}
    → match_side side order b ≡ some r
    → Stable b r.book
match_side-Stable side order b {r} e =
    let (s, k, _, last) =
      match_side_inv (λ s. Stable b s.book) side order b e
        (λ u price level rest t _ _ _ swept k.
          Stable-trans k (close_level-Stable side order u price level rest t swept))
        (Stable-refl b) in
    subst (λ u. Stable b u.book) last (Stable-trans k (rest_in_book-Stable order s.book))
