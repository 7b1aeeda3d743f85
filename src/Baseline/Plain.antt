-- ===== src/Baseline/Plain.antt =====
-- What keeps a book plain, so that the order book and the baseline stay together from order to order.
use limit_order_book_matchin.Base.{
  ℕ, ◌+◌, ◌<◌, ◌≡◌, refl, sym, ap, subst, ◌∙◌, inl, inr, false, not, ◌&&◌, List, [], ◌∷◌, some, ℤ,
  arith, length, while, All, some_inj, Bool-cases,
}
use limit_order_book_matchin.Order.{
  Order, limit, is_iceberg_kind, Side, buy, sell, new_order, is_active, is_market, is_iceberg,
  is_stop_loss, is_filled,
}
use limit_order_book_matchin.PriceMap.{Ptr, Levels}
use limit_order_book_matchin.OrderBook.State.{OrderBook, levels, opposite}
use limit_order_book_matchin.OrderBook.Matching.{
  Progress, match_side, rest_in_book, match, run_cascade, triggered_test,
}
use limit_order_book_matchin.Matching.Cases.{match_cases}
use limit_order_book_matchin.Matching.Frame.{match_side-Stable}
use limit_order_book_matchin.Matching.Frame.Scan.{Terms, stops}
use limit_order_book_matchin.Matching.Objects.{rest_in_book-object}
use limit_order_book_matchin.Matching.Priority.{rest_in_book-facing}
use limit_order_book_matchin.Matching.Priority.Spent.{queue}
use limit_order_book_matchin.Matching.Complete.{joined, rest_in_book-own_side}
use limit_order_book_matchin.Book.Indexing.Entries.{All-split, queue-push_back}
use limit_order_book_matchin.Baseline.{Walking}
use limit_order_book_matchin.Baseline.Agreement.{Plain, Live}
use limit_order_book_matchin.Baseline.Walk.{InWalk}
use limit_order_book_matchin.Baseline.Equivalence.{IsPlain, match_side-InWalk}

pub new_order-Live :
    (id : ℕ) (now price : ℤ) (side : Side) (qty : ℕ)
    → 0 < qty
    → Live (new_order id now side limit price qty)
unfolding new_order is_active
new_order-Live id now price side qty h = ground arith

no_stops : (b : OrderBook) → stops b ≡ 0 → (b.triggered_stops ≡ []) × (b.pending_stops ≡ [])
no_stops b h = by_length b.triggered_stops b.pending_stops h
  where
    by_length : (xs ys : List Ptr) → length xs + length ys ≡ 0 → (xs ≡ []) × (ys ≡ [])
    by_length [] [] h = (refl, refl)
    by_length [] (y ∷ ys) h = absurd (omega (arith, h))
    by_length (x ∷ xs) ys h = absurd (omega (arith, h))

run_cascade-none :
    (s : Progress)
    → s.book.triggered_stops ≡ []
    → s.book.pending_stops ≡ []
    → run_cascade s ≡ some s
unfolding run_cascade triggered_test while
run_cascade-none s e f = rw (e, f) refl

-- With no stop in the book, a match is a run of the matching loop.
pub match-match_side :
    (order : Ptr) (b : OrderBook) {r : Progress}
    → match order b ≡ some r
    → stops b ≡ 0
    → is_stop_loss (b.object order) ≡ false
    → (match_side (b.object order).side order b ≡ some r) × (stops r.book ≡ 0)
match-match_side order b e no_stop plain =
    match_cases (λ u. (match_side (b.object order).side order b ≡ some u) × (stops u.book ≡ 0))
      order b e (λ w. absurd (ground (arith, w, plain)))
      (λ _ s ran cascade.
        let none_left : stops s.book ≡ 0 = (match_side-Stable _ order b ran).stop_count ∙ no_stop in
        let (e0, f0) = no_stops s.book none_left in
        let same : s ≡ _ = some_inj (sym (run_cascade-none s e0 f0) ∙ cascade) in
        subst (λ u. (match_side (b.object order).side order b ≡ some u) × (stops u.book ≡ 0)) same
          (ran, none_left))

-- The order that a walk leaves is plain if it has something left.
left-Plain :
    (key : Ptr → ℕ) (side : Side) (order : Ptr) (object0 : Ptr → Order) (own : Levels)
    (s : Progress) (t : Walking)
    → is_iceberg (object0 order) ≡ false
    → InWalk key side order object0 own s t
    → is_filled (s.book.object order) ≡ false
    → Plain (s.book.object order)
unfolding is_iceberg is_filled
left-Plain key side order object0 own s t shows h more =
    (ap (λ (x : Terms). is_iceberg_kind x.kind) (h.1.terms_of order) ∙ shows, ground (arith, more))

-- A plain book stays plain: what the walk leaves of it, and of the order.
pub rest_in_book-Plain :
    (key : Ptr → ℕ) (order : Ptr) (b : OrderBook) (s : Progress) (t : Walking) (x : Side)
    → is_iceberg (b.object order) ≡ false
    → InWalk key (b.object order).side order b.object (levels (b.object order).side b) s t
    → let c = rest_in_book order s.book in All (λ p. Plain (c.object p)) (queue (levels x c))
rest_in_book-Plain key order b s t x shows h =
    subst (λ f. All (λ p. Plain (f p)) (queue (levels x c)))
      (sym (rest_in_book-object order s.book)) (by_side side x own facing)
  where
    c : OrderBook
    c = rest_in_book order s.book

    side : Side
    side = (b.object order).side

    Q : Ptr → Type 0
    Q p = Plain (s.book.object p)

    same_side : (s.book.object order).side ≡ side
    same_side = ap (λ (y : Terms). y.side) (h.1.terms_of order)

    both : All Q (queue (levels (opposite side) s.book)) × All Q (queue (levels side b))
    both = All-split Q (queue (levels (opposite side) s.book)) (queue (levels side b)) h.1.plain

    facing : All Q (queue (levels (opposite side) c))
    facing =
        subst (λ m. All Q (queue m)) (sym (rest_in_book-facing order side s.book same_side)) both.0

    own_before : All Q (queue (levels side s.book))
    own_before = subst (λ m. All Q (queue m)) (sym h.0) both.1

    o : Order
    o = s.book.object order

    joined-Plain : All Q (queue (joined side order o (levels side s.book)))
    joined-Plain = elim (Bool-cases (not (is_filled o) && not (is_market o))) [
      | inl e ↦ rw e (
          queue-push_back Q side o.price order (levels side s.book)
            (left-Plain key side order b.object (levels side b) s t shows h (ground arith))
            own_before)
      | inr e ↦ rw e own_before
    ]

    own : All Q (queue (levels side c))
    own =
        subst (λ m. All Q (queue m)) (sym (rest_in_book-own_side side order s.book same_side))
          joined-Plain

    by_side :
        (y x : Side)
        → All Q (queue (levels y c))
        → All Q (queue (levels (opposite y) c))
        → All Q (queue (levels x c))
    by_side buy buy h k = h
    by_side buy sell h k = k
    by_side sell buy h k = k
    by_side sell sell h k = h

-- A run of the matching loop for an order that is not an iceberg leaves a plain book plain.
pub match_side-Plain :
    (key : Ptr → ℕ) (order : Ptr) (b : OrderBook) (x : Side) {r : Progress}
    → match_side (b.object order).side order b ≡ some r
    → IsPlain key order b
    → is_iceberg (b.object order) ≡ false
    → All (λ p. Plain (r.book.object p)) (queue (levels x r.book))
match_side-Plain key order b x e h shows =
    let (s, t, _, k, last) = match_side-InWalk key order b e h in
    subst (λ (u : Progress). All (λ p. Plain (u.book.object p)) (queue (levels x u.book))) last
      (rest_in_book-Plain key order b s t x shows k)
