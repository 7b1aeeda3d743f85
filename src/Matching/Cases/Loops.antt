-- ===== src/Matching/Cases/Loops.antt =====
-- One case for each branch of the inner loop, and an invariant for the loops of a side.
use limit_order_book_matchin.Base.{
  ℕ, ◌≡◌, ◌≢◌, refl, All, All-append, sym, subst, Bool, true, false, not, ◌&&◌, ◌||◌, ◌==◌, ==_iff,
  min, [], ◌∷◌, some, ℤ, arith, is_empty, Bool-cases, &&-eq_true, cons_of_not_empty, some_inj,
  while, inl, inr, while_inv, >>=-eq-some,
}
use limit_order_book_matchin.Order.{
  Side, is_filled, is_iceberg, is_market, is_active, visible_qty, replenish,
}
use limit_order_book_matchin.PriceMap.{Ptr, Level, Levels}
use limit_order_book_matchin.OrderBook.State.{
  OrderBook, Trade, modify_object, active_erase, levels, opposite,
}
use limit_order_book_matchin.OrderBook.Sweep.{
  Sweep, exchange, make_trade, match_front, execute, settle, available, match_level, level_test,
  level_fuel,
}
use limit_order_book_matchin.OrderBook.Matching.{
  Progress, match_side, match_best, book_test, book_fuel, past_limit, best_is_past, close_level,
  rest_in_book,
}

module _ {κ} (P : Sweep → Type κ) where
  pub settle_cases :
      (resting : Ptr) (rest : Level) (s : Sweep)
      → let r = s.book.object resting in
        (is_filled r ≡ true
          → P (record s {
            book = record (s.book) { active_orders = active_erase r.id s.book.active_orders };
            level = rest;
          }))
        → (is_filled r ≡ false
            → is_iceberg r ≡ true
            → visible_qty r ≡ 0
            → P (record s { book = modify_object resting replenish s.book }))
        → (is_filled r ≡ false → (is_iceberg r && (visible_qty r == 0)) ≡ false → P s)
        → P (settle resting rest s)
  unfolding settle
  settle_cases resting rest s done again keep =
      let r = s.book.object resting in
      elim (Bool-cases (is_filled r)) [
        | inl e ↦ rw (e, settle) (done e)
        | inr e ↦ elim (Bool-cases (is_iceberg r && (visible_qty r == 0))) [
          | inl f ↦
              let (g, h) = &&-eq_true _ _ f in rw (e, f, settle) (again e g ((==_iff _ 0).0 h))
          | inr f ↦ rw (e, f, settle) (keep e f)
        ]
      ]

  pub match_front_cases :
      (side : Side) (order : Ptr) (price : ℤ) (resting : Ptr) (rest : Level) (s : Sweep)
      → let r = s.book.object resting in
        (available r ≡ 0 → P (record s { level = rest }))
        → (available r ≢ 0
            → P (
                settle resting rest (
                  execute side order resting price
                    (min (s.book.object order).leaves_qty (available r))
                    s)))
        → P (match_front side order price (resting ∷ rest) s)
  unfolding match_front
  match_front_cases side order price resting rest s empty trade =
      let a = available (s.book.object resting) in
      elim (Bool-cases (a == 0)) [
        | inl e ↦ rw (e, match_front) (empty ((==_iff a 0).0 e))
        | inr e ↦ rw (e, match_front) (trade (λ z. ground (arith)))
      ]

  pub match_level_inv :
      (side : Side) (order : Ptr) (price : ℤ) (s : Sweep) {t : Sweep}
      → match_level side order price s ≡ some t
      → ((u : Sweep) (resting : Ptr) (rest : Level)
          → u.level ≡ resting ∷ rest
          → is_active (u.book.object order) ≡ true
          → P u
          → P (match_front side order price (resting ∷ rest) u))
      → P s
      → P t × (level_test order t ≡ false)
  unfolding match_level level_test
  match_level_inv side order price s e keep =
      while_inv (level_test order) (λ t. some (match_front side order price t.level t)) P
        (λ u v p more step.
          let (act, filled) = &&-eq_true _ _ more in
          let (resting, rest, shape) = cons_of_not_empty u.level filled in
          subst P (some_inj step) (
            subst (λ l. P (match_front side order price l u)) (sym shape)
              (keep u resting rest shape act p)))
        (level_fuel order s) s e

-- What `settle` leaves alone of the trades.
settle-result :
    (resting : Ptr) (rest : Level) (s : Sweep) → (settle resting rest s).result ≡ s.result
settle-result resting rest s =
    settle_cases (λ t. t.result ≡ s.result) resting rest s (λ _. refl) (λ _ _ _. refl) (λ _ _. refl)

-- A round adds no trade, or one of the front order.
pub match_front-result {κ} :
    (Q : Trade → Type κ) (side : Side) (order : Ptr) (price : ℤ) (resting : Ptr) (rest : Level)
    (s : Sweep)
    → ((qty : ℕ)
        → qty ≡ min (s.book.object order).leaves_qty (available (s.book.object resting))
        → available (s.book.object resting) ≢ 0
        → Q (make_trade side order resting price qty (exchange order resting qty s.book)))
    → All Q s.result
    → All Q (match_front side order price (resting ∷ rest) s).result
unfolding execute
match_front-result Q side order price resting rest s new h =
    match_front_cases (λ t. All Q t.result) side order price resting rest s (λ _. h)
      (λ a.
        subst (All Q) (sym (settle-result resting rest _))
          (All-append Q s.result _ h (new _ refl a, tt)))

-- What the test of the outer loop says of the book that passes it.
pub outer_test :
    (running market : Bool) (side : Side) (order_price : ℤ) (m : Levels)
    → (running && not (is_empty m) && (market || not (best_is_past side order_price m))) ≡ true
    → (running ≡ true)
      × ((price : ℤ) × (level : Level) × (rest : Levels) × (m ≡ (price, level) ∷ rest)
          × ((market || not (past_limit side price order_price)) ≡ true))
outer_test running market side order_price [] h = ground arith
outer_test running market side order_price ((price, level) ∷ rest) h =
    (ground arith, (price, level, rest, refl, ground arith))

module _ {κ} (P : Progress → Type κ) where
  pub match_side_inv :
      (side : Side) (order : Ptr) (b : OrderBook) {r : Progress}
      → match_side side order b ≡ some r
      → ((s : Progress) (price : ℤ) (level : Level) (rest : Levels) (t : Sweep)
          → levels (opposite side) s.book ≡ (price, level) ∷ rest
          → is_active (s.book.object order) ≡ true
          → (is_market (s.book.object order)
              || not (past_limit side price (s.book.object order).price))
            ≡ true
          → match_level side order price
              (record { book = s.book; level = level; result = s.result })
            ≡ some t
          → P s
          → P (close_level side price rest t))
      → P (record { book = b; result = [] })
      → (s : Progress) × P s
        × (book_test side order s ≡ false)
        × (record s { book = rest_in_book order s.book } ≡ r)
  unfolding match_side book_test match_best
  match_side_inv side order b {r} e keep p =
      let (s, loop, last) =
        >>=-eq-some
          (while (book_test side order)
            (λ s. match_best side order (levels (opposite side) s.book) s) (book_fuel side b)
            (record { book = b; result = [] }))
          _ e in
      let (q, out) =
        while_inv (book_test side order)
          (λ s. match_best side order (levels (opposite side) s.book) s) P
          (λ u v p more step.
            let o = u.book.object order in
            let (act, (price, level, rest, shape, within)) =
              outer_test (is_active o) (is_market o) side o.price (levels (opposite side) u.book)
                more in
            let step' : match_best side order ((price, level) ∷ rest) u ≡ some v =
              subst (λ m. match_best side order m u ≡ some v) shape step in
            let (t, swept, closed) = >>=-eq-some _ _ step' in
            subst P (some_inj closed) (keep u price level rest t shape act within swept p))
          (book_fuel side b) (record { book = b; result = [] }) loop p in
      (s, q, out, some_inj last)
