-- ===== src/Book/Known.antt =====
-- What is true of every pointer in the levels and the lists of stops stays true of them: a match adds
-- no pointer but the order's own.
use limit_order_book_matchin.Base.{
  ℕ, ◌≡◌, refl, sym, subst, ◌∙◌, Bool, true, false, not, ◌&&◌, [], ◌∷◌, some, ℤ, inl, inr, All,
  All-append, All-filter, Bool-cases, if◌then◌else◌, is_empty,
}
use limit_order_book_matchin.Order.{Order, Side, buy, sell, is_filled, is_market}
use limit_order_book_matchin.PriceMap.{Ptr, Level, Levels, push_back}
use limit_order_book_matchin.PriceMap.Sorted.{push_back-All}
use limit_order_book_matchin.OrderBook.State.{
  OrderBook, modify_object, levels, with_levels, opposite, add_to_book,
}
use limit_order_book_matchin.OrderBook.Stops.{check_stop_triggers, fires}
use limit_order_book_matchin.OrderBook.Sweep.{
  Sweep, exchange, record_trade, execute, settle, match_level,
}
use limit_order_book_matchin.OrderBook.Matching.{
  Progress, match_side, close_level, rest_in_book, match,
}
use limit_order_book_matchin.Matching.Cases.{match_cases, run_cascade_inv}
use limit_order_book_matchin.Matching.Cases.Loops.{
  settle_cases, match_front_cases, match_level_inv, match_side_inv,
}
use limit_order_book_matchin.Matching.Frame.{match_level-Kept, match_side-Stable}
use limit_order_book_matchin.Matching.Objects.{match_level-All}
use limit_order_book_matchin.Matching.Stops.Scan.{check_stop_triggers-split}

abbrev pub LevelsKnown : (Ptr → Type 0) → Levels → Type 0
LevelsKnown R m = All (λ (e : ℤ × Level). All R e.1) m

abbrev pub StopsKnown : (Ptr → Type 0) → OrderBook → Type 0
StopsKnown R b = All R b.pending_stops × All R b.triggered_stops

pub record Known (R : Ptr → Type 0) (b : OrderBook) : Type 0 where
  pub sides : (side : Side) → LevelsKnown R (levels side b)
  pub stops : StopsKnown R b

module _ (R : Ptr → Type 0) where
  check_stop_triggers-StopsKnown :
      (price : ℤ) (b : OrderBook) → StopsKnown R b → StopsKnown R (check_stop_triggers price b)
  check_stop_triggers-StopsKnown price b (h, k) =
      let (waiting, staged) = check_stop_triggers-split price b in
      (
        subst (All R) (sym waiting)
            (All-filter R (λ p. not (fires price (b.object p))) b.pending_stops h),
        subst (All R) (sym staged) (
            All-append R b.triggered_stops _ k
              (All-filter R (λ p. fires price (b.object p)) b.pending_stops h)),
      )

  execute-StopsKnown :
      (side : Side) (order resting : Ptr) (price : ℤ) (qty : ℕ) (s : Sweep)
      → StopsKnown R s.book
      → StopsKnown R (execute side order resting price qty s).book
  unfolding execute exchange record_trade modify_object
  execute-StopsKnown side order resting price qty s h = check_stop_triggers-StopsKnown price _ h

  settle-StopsKnown :
      (resting : Ptr) (rest : Level) (s : Sweep)
      → StopsKnown R s.book
      → StopsKnown R (settle resting rest s).book
  unfolding modify_object
  settle-StopsKnown resting rest s h =
      settle_cases (λ t. StopsKnown R t.book) resting rest s (λ _. h) (λ _ _ _. h) (λ _ _. h)

  match_level-StopsKnown :
      (side : Side) (order : Ptr) (price : ℤ) (s : Sweep) {t : Sweep}
      → match_level side order price s ≡ some t
      → StopsKnown R s.book
      → StopsKnown R t.book
  match_level-StopsKnown side order price s e h =
      (match_level_inv (λ u. StopsKnown R u.book) side order price s e
        (λ u resting rest _ _ k.
          match_front_cases (λ t. StopsKnown R t.book) side order price resting rest u (λ _. k)
            (λ _.
              settle-StopsKnown resting rest _ (execute-StopsKnown side order resting price _ u k)))
        h).0

  pub with_levels-Known :
      (side : Side) (m : Levels) (b : OrderBook)
      → LevelsKnown R m
      → Known R b
      → Known R (with_levels side m b)
  with_levels-Known buy m b h w = record { sides = by_side; stops = w.stops }
    where
      by_side : (side : Side) → LevelsKnown R (levels side (with_levels buy m b))
      by_side buy = h
      by_side sell = w.sides sell
  with_levels-Known sell m b h w = record { sides = by_side; stops = w.stops }
    where
      by_side : (side : Side) → LevelsKnown R (levels side (with_levels sell m b))
      by_side buy = w.sides buy
      by_side sell = h

  -- Only the levels and the stops count.
  pub Known-same :
      (b c : OrderBook) → c.bids ≡ b.bids → c.asks ≡ b.asks → StopsKnown R c → Known R b → Known R c
  Known-same b c bids asks stops w = record { sides = by_side; stops = stops }
    where
      by_side : (side : Side) → LevelsKnown R (levels side c)
      by_side buy = subst (LevelsKnown R) (sym bids) (w.sides buy)
      by_side sell = subst (LevelsKnown R) (sym asks) (w.sides sell)

  pub add_to_book-Known :
      (order : Ptr) (b : OrderBook) → R order → Known R b → Known R (add_to_book order b)
  unfolding add_to_book
  add_to_book-Known order b known w = Known-same (with_levels o.side added b) _ refl refl stops (
      with_levels-Known o.side added b
        (push_back-All (λ (e : ℤ × Level). All R e.1) o.side o.price order (levels o.side b)
          (known, tt) (λ p level _ h. All-append R level (order ∷ []) h (known, tt))
          (w.sides o.side))
        w)
    where
      o : Order
      o = b.object order

      added : Levels
      added = push_back o.side o.price order (levels o.side b)

      stops : StopsKnown R (with_levels o.side added b)
      stops = by_side o.side
        where
          by_side : (side : Side) → StopsKnown R (with_levels side added b)
          by_side buy = w.stops
          by_side sell = w.stops

  rest_in_book-Known :
      (order : Ptr) (b : OrderBook) → R order → Known R b → Known R (rest_in_book order b)
  unfolding rest_in_book
  rest_in_book-Known order b known w =
      let o = b.object order in
      elim (Bool-cases (not (is_filled o) && not (is_market o))) [
        | inl e ↦ rw (e, rest_in_book) (add_to_book-Known order b known w)
        | inr e ↦ rw (e, rest_in_book) w
      ]

  pub close_level-Known :
      (side : Side) (order : Ptr) (s : Progress) (price : ℤ) (level : Level) (rest : Levels)
      (t : Sweep)
      → levels (opposite side) s.book ≡ (price, level) ∷ rest
      → match_level side order price (record { book = s.book; level = level; result = s.result })
        ≡ some t
      → Known R s.book
      → Known R (close_level side price rest t).book
  unfolding close_level
  close_level-Known side order s price level rest t shape swept w =
      let k = match_level-Kept side order price _ swept in
      let old : LevelsKnown R ((price, level) ∷ rest) =
        subst (LevelsKnown R) shape (w.sides (opposite side)) in
      with_levels-Known (opposite side) _ t.book
        (left (is_empty t.level) rest (match_level-All R side order price _ swept old.0) old.1)
        (Known-same s.book t.book k.bids k.asks
          (match_level-StopsKnown side order price _ swept w.stops) w)
    where
      left :
          (x : Bool) (m : Levels)
          → All R t.level
          → LevelsKnown R m
          → LevelsKnown R (if x then m else (price, t.level) ∷ m)
      left true m h k = k
      left false m h k = (h, k)

  pub match_side-Known :
      (side : Side) (order : Ptr) (b : OrderBook) {r : Progress}
      → match_side side order b ≡ some r
      → R order
      → Known R b
      → Known R r.book
  match_side-Known side order b e known w =
      let (s, v, _, last) =
        match_side_inv (λ s. Known R s.book) side order b e
          (λ u price level rest t shape _ _ swept v.
            close_level-Known side order u price level rest t shape swept v)
          w in
      subst (λ (u : Progress). Known R u.book) last (rest_in_book-Known order s.book known v)

  -- The cascade runs stops that were pending or staged.
  pub match-Known :
      (order : Ptr) (b : OrderBook) {r : Progress}
      → match order b ≡ some r
      → R order
      → Known R b
      → Known R r.book
  match-Known order b {r} e known w =
      match_cases (λ u. Known R u.book) order b e
        (λ _.
          Known-same b _ refl refl
            (All-append R b.pending_stops (order ∷ []) w.stops.0 (known, tt), w.stops.1) w)
        (λ _ s ran cascade.
          (run_cascade_inv (λ batch u. All R batch × Known R u.book) s cascade
            (λ stop rest u t ran_stop (h, v).
              (h.1, match_side-Known (u.book.object stop).side stop u.book ran_stop h.0 v))
            (λ u (h, v). (v.stops.1, Known-same u.book _ refl refl (v.stops.0, tt) v))
            (tt, match_side-Known (b.object order).side order b ran known w)).0.1)

-- A match makes no order.
pub match-next_ptr :
    (order : Ptr) (b : OrderBook) {r : Progress}
    → match order b ≡ some r
    → r.book.next_ptr ≡ b.next_ptr
match-next_ptr order b e =
    match_cases (λ u. u.book.next_ptr ≡ b.next_ptr) order b e (λ _. refl)
      (λ _ s ran cascade.
        (run_cascade_inv (λ _ u. u.book.next_ptr ≡ b.next_ptr) s cascade
          (λ stop rest u t ran_stop h.
            (match_side-Stable (u.book.object stop).side stop u.book ran_stop).next_ptr ∙ h)
          (λ u h. h) (match_side-Stable (b.object order).side order b ran).next_ptr).0)
