-- ===== src/Book/Tally.antt =====
-- How often a name, or an id, stands in the book: in the levels of both sides and in the lists of stops.
-- A match only moves orders between these places, or drops them.
use limit_order_book_matchin.Base.{
  ℕ, ◌+◌, ◌≤◌, ◌≡◌, ◌≢◌, refl, ap, subst, ◌∙◌, Bool, not, ◌&&◌, ◌==◌, List, [], ◌∷◌, ◌++◌, some, ℤ,
  arith, All, inl, inr, Bool-cases, if◌then◌else◌, filter,
}
use limit_order_book_matchin.Order.{Order, Side, buy, sell, is_filled, is_market}
use limit_order_book_matchin.PriceMap.{Ptr, Level, Levels, before, push_back}
use limit_order_book_matchin.OrderBook.State.{
  OrderBook, levels, with_levels, opposite, modify_object, add_to_book,
}
use limit_order_book_matchin.OrderBook.Stops.{check_stop_triggers, fires}
use limit_order_book_matchin.OrderBook.Sweep.{
  Sweep, exchange, record_trade, execute, settle, match_level,
}
use limit_order_book_matchin.OrderBook.Matching.{
  Progress, match_side, close_level, rest_in_book, match,
}
use limit_order_book_matchin.Matching.Cases.{match_cases, run_cascade_inv}
use limit_order_book_matchin.Matching.Cases.Loops.{
  settle_cases, match_front_cases, match_level_inv, match_side_inv,
}
use limit_order_book_matchin.Matching.Priority.{match_side-UsesFront}
use limit_order_book_matchin.Matching.Priority.Spent.{queue}
use limit_order_book_matchin.Matching.Complete.{joined, match_side-Complete}
use limit_order_book_matchin.Matching.Stops.Scan.{check_stop_triggers-split}

module _ (key : Ptr → ℕ) (i : ℕ) where
  abbrev pub one : Ptr → ℕ
  one p = if key p == i then 1 else 0

  abbrev pub tally : List Ptr → ℕ
  tally [] = 0
  tally (p ∷ ps) = one p + tally ps

  abbrev pub tally_stops : OrderBook → ℕ
  tally_stops b = tally b.pending_stops + tally b.triggered_stops

  -- In the whole book.
  abbrev pub total : OrderBook → ℕ
  total b = tally (queue b.bids) + tally (queue b.asks) + tally_stops b

  pub tally-append : (ps qs : List Ptr) → tally (ps ++ qs) ≡ tally ps + tally qs
  tally-append [] qs = omega arith
  tally-append (p ∷ ps) qs = omega (arith, tally-append ps qs)

  pub tally-filter :
      (f : Ptr → Bool) (ps : List Ptr)
      → tally (filter (λ p. not (f p)) ps) + tally (filter f ps) ≡ tally ps
  tally-filter f [] = refl
  tally-filter f (p ∷ ps) = ground (arith, tally-filter f ps)

  -- A key that is not counted is nobody's.
  pub tally_zero : (ps : List Ptr) → tally ps ≡ 0 → All (λ p. key p ≢ i) ps
  tally_zero [] h = tt
  tally_zero (p ∷ ps) h = (ground arith, tally_zero ps (omega (arith, h)))

  pub zero_tally : (ps : List Ptr) → All (λ p. key p ≢ i) ps → tally ps ≡ 0
  zero_tally [] h = refl
  zero_tally (p ∷ ps) h = ground (arith, zero_tally ps h.1)

  pub tally-push_back :
      (side : Side) (price : ℤ) (order : Ptr) (m : Levels)
      → tally (queue (push_back side price order m)) ≡ tally (queue m) + one order
  unfolding push_back
  tally-push_back side price order [] = omega arith
  tally-push_back side price order ((p, level) ∷ rest) = elim (Bool-cases (before side price p)) [
    | inl e ↦ rw (e, push_back) (omega arith)
    | inr e ↦ elim (Bool-cases (before side p price)) [
      | inl f ↦
          rw (e, f, push_back)
            (omega (
              arith,
              tally-append level (queue (push_back side price order rest)),
              tally-append level (queue rest),
              tally-push_back side price order rest,
            ))
      | inr f ↦
          rw (e, f, push_back)
            (omega (
              arith,
              tally-append (level ++ order ∷ []) (queue rest),
              tally-append level (order ∷ []),
              tally-append level (queue rest),
            ))
    ]
  ]

  check_stop_triggers-tally :
      (price : ℤ) (b : OrderBook) → tally_stops (check_stop_triggers price b) ≡ tally_stops b
  check_stop_triggers-tally price b =
      let (waiting, staged) = check_stop_triggers-split price b in
      let f = λ (p : Ptr). fires price (b.object p) in
      omega (
        arith,
        ap tally waiting,
        ap tally staged,
        tally-filter f b.pending_stops,
        tally-append b.triggered_stops (filter f b.pending_stops),
      )

  pub execute-tally :
      (side : Side) (order resting : Ptr) (price : ℤ) (qty : ℕ) (s : Sweep)
      → tally_stops (execute side order resting price qty s).book ≡ tally_stops s.book
  unfolding execute exchange record_trade modify_object
  execute-tally side order resting price qty s = check_stop_triggers-tally price _

  settle-tally :
      (resting : Ptr) (rest : Level) (s : Sweep)
      → tally_stops (settle resting rest s).book ≡ tally_stops s.book
  unfolding modify_object
  settle-tally resting rest s =
      settle_cases (λ t. tally_stops t.book ≡ tally_stops s.book) resting rest s (λ _. refl)
        (λ _ _ _. refl) (λ _ _. refl)

  pub match_level-tally :
      (side : Side) (order : Ptr) (price : ℤ) (s : Sweep) {t : Sweep}
      → match_level side order price s ≡ some t
      → tally_stops t.book ≡ tally_stops s.book
  match_level-tally side order price s e =
      (match_level_inv (λ u. tally_stops u.book ≡ tally_stops s.book) side order price s e
        (λ u resting rest _ _ k.
          match_front_cases (λ t. tally_stops t.book ≡ tally_stops s.book) side order price resting
            rest u (λ _. k)
            (λ _. settle-tally resting rest _ ∙ execute-tally side order resting price _ u ∙ k))
        refl).0

  pub with_levels-tally :
      (side : Side) (m : Levels) (b : OrderBook)
      → tally_stops (with_levels side m b) ≡ tally_stops b
  with_levels-tally buy m b = refl
  with_levels-tally sell m b = refl

  rest_in_book-tally :
      (order : Ptr) (b : OrderBook) → tally_stops (rest_in_book order b) ≡ tally_stops b
  unfolding rest_in_book add_to_book
  rest_in_book-tally order b =
      elim (Bool-cases (not (is_filled (b.object order)) && not (is_market (b.object order)))) [
        | inl e ↦ rw (e, rest_in_book) (with_levels-tally (b.object order).side _ b)
        | inr e ↦ rw (e, rest_in_book) refl
      ]

  match_side-stops :
      (side : Side) (order : Ptr) (b : OrderBook) {r : Progress}
      → match_side side order b ≡ some r
      → tally_stops r.book ≡ tally_stops b
  unfolding close_level
  match_side-stops side order b e =
      let (s, k, _, last) =
        match_side_inv (λ u. tally_stops u.book ≡ tally_stops b) side order b e
          (λ u price level rest t _ _ _ swept k.
            with_levels-tally (opposite side) _ t.book
            ∙ match_level-tally side order price _ swept
            ∙ k)
          refl in
      subst (λ (u : Progress). tally_stops u.book ≡ tally_stops b) last
        (rest_in_book-tally order s.book ∙ k)

  tally-joined :
      (side : Side) (order : Ptr) (o : Order) (m : Levels)
      → tally (queue (joined side order o m)) ≤ tally (queue m) + one order
  tally-joined side order o m = elim (Bool-cases (not (is_filled o) && not (is_market o))) [
    | inl e ↦ rw e (omega (arith, tally-push_back side o.price order m))
    | inr e ↦ rw e (omega arith)
  ]

  pub both_sides :
      (side : Side) (b : OrderBook)
      → tally (queue (levels side b)) + tally (queue (levels (opposite side) b))
        ≡ tally (queue b.bids) + tally (queue b.asks)
  both_sides buy b = refl
  both_sides sell b = omega arith

  -- A run of the matching loop adds nothing to the book but the order.
  pub match_side-total :
      (order : Ptr) (b : OrderBook) {r : Progress}
      → match_side (b.object order).side order b ≡ some r
      → total r.book ≤ total b + one order
  match_side-total order b {r} e =
      let side = (b.object order).side in
      let front = match_side-UsesFront order b e in
      let whole = match_side-Complete order b e in
      omega (
        arith,
        both_sides side b,
        both_sides side r.book,
        match_side-stops side order b e,
        ap tally front.split,
        tally-append front.gone (queue (levels (opposite side) r.book)),
        ap (λ m. tally (queue m)) whole.own_side,
        tally-joined side order (r.book.object order) (levels side b),
      )

  -- However the orders are told apart, a match of an order makes none of them more frequent in the
  -- book, but for the order itself, which it adds at most once.
  pub match-total :
      (order : Ptr) (b : OrderBook) {r : Progress}
      → match order b ≡ some r
      → total r.book ≤ total b + one order
  match-total order b {r} e =
      match_cases (λ u. total u.book ≤ total b + one order) order b e
        (λ _. omega (arith, tally-append b.pending_stops (order ∷ [])))
        (λ _ s ran cascade. omega (
          arith,
          (run_cascade_inv (λ batch u. tally batch + total u.book ≤ total b + one order) s cascade
              (λ stop rest u t ran_stop h. omega (arith, h, match_side-total stop u.book ran_stop))
              (λ u h. omega (arith, h)) (omega (arith, match_side-total order b ran))).0,
        ))
