-- ===== src/Matching/Cases.antt =====
-- Rules for reasoning about the matching loops: one case for each branch, and an invariant for each
-- loop.
pub mod Loops
use limit_order_book_matchin.Base.{
  ℕ, ◌≡◌, ◌≢◌, refl, All, All-append, sym, subst, Bool, true, false, not, ◌&&◌, ◌||◌, ◌==◌, ==_iff,
  min, List, [], ◌∷◌, ◌++◌, some, ℤ, arith, is_empty, Bool-cases, &&-eq_true, cons_of_not_empty,
  nil_of_is_empty, some_inj, ◌+◌, while, inl, inr, while_inv, >>=-eq-some,
}
use limit_order_book_matchin.Order.{
  Side, buy, sell, is_filled, is_iceberg, is_market, is_active, is_stop_loss, visible_qty,
  replenish,
}
use limit_order_book_matchin.PriceMap.{Ptr, Level, Levels}
use limit_order_book_matchin.OrderBook.State.{
  OrderBook, Trade, modify_object, active_erase, levels, opposite,
}
use limit_order_book_matchin.OrderBook.Sweep.{
  Sweep, exchange, make_trade, match_front, execute, settle, available, match_level, level_test,
  level_fuel,
}
use limit_order_book_matchin.OrderBook.Matching.{
  Progress, match_side, match_best, book_test, book_fuel, past_limit, best_is_past, close_level,
  rest_in_book, match, match_buy, match_sell, match_own_side, run_batch, run_triggered, run_cascade,
  triggered_test, stops_left,
}
use limit_order_book_matchin.Matching.Cases.Loops.{}

pub match_own_side-match_side :
    (order : Ptr) (b : OrderBook)
    → match_own_side order b ≡ match_side (b.object order).side order b
unfolding match_own_side match_buy match_sell
match_own_side-match_side order b = by_side (b.object order).side refl
  where
    by_side :
        (x : Side)
        → (b.object order).side ≡ x
        → match_own_side order b ≡ match_side (b.object order).side order b
    by_side buy e = rw (e, match_own_side)
    by_side sell e = rw (e, match_own_side)

-- An invariant of the cascade: of the stops of the batch that are still to run, and of the state.
module _ {κ} (P : List Ptr → Progress → Type κ) where
  abbrev Runs : Type κ
  Runs =
      (stop : Ptr) (rest : List Ptr) (s t : Progress)
      → match_side (s.book.object stop).side stop s.book ≡ some t
      → P (stop ∷ rest) s
      → P rest (record { book = t.book; result = s.result ++ t.result })

  pub run_batch_inv :
      (batch : List Ptr) (s : Progress) {r : Progress}
      → run_batch batch s ≡ some r
      → Runs
      → P batch s
      → P [] r
  unfolding run_batch
  run_batch_inv [] s e run p = subst (P []) (some_inj e) p
  run_batch_inv (stop ∷ rest) s e run p =
      let (t, ran, more) = >>=-eq-some (match_own_side stop s.book) _ e in
      run_batch_inv rest _ more run
        (run stop rest s t (rw (← match_own_side-match_side stop s.book) ran) p)

  pub run_cascade_inv :
      (s : Progress) {r : Progress}
      → run_cascade s ≡ some r
      → Runs
      → ((u : Progress)
          → P [] u
          → P u.book.triggered_stops (record u { book = record (u.book) { triggered_stops = [] } }))
      → P [] s
      → P [] r × (r.book.triggered_stops ≡ [])
  unfolding run_cascade run_triggered triggered_test
  run_cascade_inv s {r} e run clear p =
      let (q, out) =
        while_inv triggered_test run_triggered (P [])
          (λ u v pu more step. run_batch_inv u.book.triggered_stops _ step run (clear u pu))
          (stops_left s + 1) s e p in
      (q, nil_of_is_empty r.book.triggered_stops out)

-- `match` holds a stop back, or runs the order and then the cascade.
pub match_cases {κ} :
    (P : Progress → Type κ) (order : Ptr) (b : OrderBook) {r : Progress}
    → match order b ≡ some r
    → ((is_stop_loss (b.object order) && not (b.object order).triggered) ≡ true
        → P (record {
          book = record b { pending_stops = b.pending_stops ++ order ∷ [] };
          result = [];
        }))
    → ((is_stop_loss (b.object order) && not (b.object order).triggered) ≡ false
        → (s : Progress) → match_side (b.object order).side order b ≡ some s
        → run_cascade s ≡ some r
        → P r)
    → P r
unfolding match
match_cases P order b {r} e wait go =
    let o = b.object order in
    elim (Bool-cases (is_stop_loss o && not o.triggered)) [
      | inl w ↦ subst P (some_inj (rw (w, match) at e)) (wait w)
      | inr w ↦
          let (s, ran, cascade) =
            >>=-eq-some (match_own_side order b) run_cascade (rw (w, match) at e) in
          go w s (rw (← match_own_side-match_side order b) ran) cascade
    ]
