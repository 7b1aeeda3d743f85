-- ===== src/Matching/Complete.antt =====
-- Where `matchBuy` and `matchSell` of src/orderbook.cpp stop, and where the order ends up.
use limit_order_book_matchin.Base.{
  ℕ, ◌≡◌, refl, sym, subst, ap, ◌∙◌, ◌⊎◌, inl, inr, true, false, not, ◌&&◌, ◌||◌, List, [], ◌∷◌,
  some, ℤ, arith, is_empty, if◌then◌else◌, Bool-cases,
}
use limit_order_book_matchin.Order.{Order, Side, buy, sell, is_active, is_market, is_filled}
use limit_order_book_matchin.PriceMap.{Ptr, Level, Levels, push_back}
use limit_order_book_matchin.OrderBook.State.{OrderBook, levels, with_levels, opposite, add_to_book}
use limit_order_book_matchin.OrderBook.Sweep.{Sweep, match_level}
use limit_order_book_matchin.OrderBook.Matching.{
  Progress, match_side, past_limit, best_is_past, book_test, close_level, rest_in_book,
}
use limit_order_book_matchin.Matching.Cases.Loops.{match_side_inv}
use limit_order_book_matchin.Matching.Frame.{match_level-Kept, close_level-Stable}
use limit_order_book_matchin.Matching.Frame.Scan.{Terms, Kept, Stable, Stable-refl, Stable-trans}
use limit_order_book_matchin.Matching.Objects.{rest_in_book-object}
use limit_order_book_matchin.Matching.Priority.{rest_in_book-facing}

-- No level of the other side is open to the order: there is none, or the best is past its limit.
abbrev pub Blocked : Side → Order → Levels → Type 0
Blocked side o [] = Unit
Blocked side o ((price, level) ∷ rest) =
    (is_market o ≡ false) × (past_limit side price o.price ≡ true)

-- The test of the outer loop fails only then.
outer_test-false :
    (side : Side) (o : Order) (m : Levels)
    → (is_active o && not (is_empty m) && (is_market o || not (best_is_past side o.price m)))
      ≡ false
    → (is_active o ≡ false) ⊎ Blocked side o m
outer_test-false side o [] h = inr tt
outer_test-false side o ((price, level) ∷ rest) h = elim (Bool-cases (is_active o)) [
  | inl e ↦ inr (ground arith)
  | inr e ↦ inl e
]

pub own_side-close :
    (side : Side) (m : Levels) (b : OrderBook)
    → levels side (with_levels (opposite side) m b) ≡ levels side b
own_side-close buy m b = refl
own_side-close sell m b = refl

pub own_side-Kept : (side : Side) (b c : OrderBook) → Kept b c → levels side c ≡ levels side b
own_side-Kept buy b c k = k.bids
own_side-Kept sell b c k = k.asks

close_level-own_side :
    (side : Side) (order : Ptr) (s : Progress) (price : ℤ) (level : Level) (rest : Levels)
    (t : Sweep)
    → match_level side order price (record { book = s.book; level = level; result = s.result })
      ≡ some t
    → levels side (close_level side price rest t).book ≡ levels side s.book
unfolding close_level
close_level-own_side side order s price level rest t swept =
    own_side-close side _ t.book
    ∙ own_side-Kept side s.book t.book (match_level-Kept side order price _ swept)

-- The levels of the order's own side after `rest_in_book`.
abbrev pub joined : Side → Ptr → Order → Levels → Levels
joined side order o m =
    if not (is_filled o) && not (is_market o) then push_back side o.price order m else m

pub rest_in_book-own_side :
    (side : Side) (order : Ptr) (b : OrderBook)
    → (b.object order).side ≡ side
    → levels side (rest_in_book order b) ≡ joined side order (b.object order) (levels side b)
unfolding rest_in_book add_to_book
rest_in_book-own_side side order b own =
    elim (Bool-cases (not (is_filled o) && not (is_market o))) [
      | inl e ↦ rw (e, rest_in_book) (rw own (added side _ b _))
      | inr e ↦ rw (e, rest_in_book) refl
    ]
  where
    o : Order
    o = b.object order

    added :
        (x : Side) (m : Levels) (c : OrderBook) (n : List (ℕ × Ptr))
        → levels x (record (with_levels x m c) { active_orders = n }) ≡ m
    added buy m c n = refl
    added sell m c n = refl

-- What a run of the matching loop leaves.
pub record Complete (side : Side) (order : Ptr) (b c : OrderBook) : Type 0 where
  pub done :
      (is_active (c.object order) ≡ false)
      ⊎ Blocked side (c.object order) (levels (opposite side) c)
  pub own_side : levels side c ≡ joined side order (c.object order) (levels side b)

-- The end of a run: the loop has stopped, and the rest of the order has been dealt with.
rest_in_book-Complete :
    (side : Side) (order : Ptr) (b c : OrderBook)
    → (c.object order).side ≡ side
    → levels side c ≡ levels side b
    → (is_active (c.object order) ≡ false)
      ⊎ Blocked side (c.object order) (levels (opposite side) c)
    → Complete side order b (rest_in_book order c)
rest_in_book-Complete side order b c same_side own done = record {
  done = subst (Done (levels (opposite side) d)) (sym object_same) (
      subst (λ m. Done m (c.object order)) (sym (rest_in_book-facing order side c same_side)) done);
  own_side =
      rest_in_book-own_side side order c same_side
      ∙ ap (joined side order (c.object order)) own
      ∙ ap (λ o. joined side order o (levels side b)) (sym object_same);
}
  where
    d : OrderBook
    d = rest_in_book order c

    object_same : d.object order ≡ c.object order
    object_same = ap (λ (f : Ptr → Order). f order) (rest_in_book-object order c)

    Done : Levels → Order → Type 0
    Done m o = (is_active o ≡ false) ⊎ Blocked side o m

-- The matching loop ends only when the order is no longer active, or no level of the other side is open
-- to it: there is none left, or the order is not a market order and the best one is past its limit. On
-- the order's own side it has been pushed back to the level of its price if it has something left and is
-- not a market order, and nothing else has changed there.
pub match_side-Complete :
    (order : Ptr) (b : OrderBook) {r : Progress}
    → let side = (b.object order).side in
      match_side side order b ≡ some r → Complete side order b r.book
unfolding book_test
match_side-Complete order b {r} e =
    let (s, (k, own), stop, last) =
      match_side_inv (λ u. Stable b u.book × (levels side u.book ≡ levels side b)) side order b e
        (λ u price level rest t shape _ _ swept (k, own). (
          Stable-trans k (close_level-Stable side order u price level rest t swept),
          close_level-own_side side order u price level rest t swept ∙ own,
        ))
        (Stable-refl b, refl) in
    subst (λ (u : Progress). Complete side order b u.book) last
      (rest_in_book-Complete side order b s.book (ap (λ (y : Terms). y.side) (k.terms_of order)) own
        (outer_test-false side (s.book.object order) (levels (opposite side) s.book) stop))
  where
    side : Side
    side = (b.object order).side
