-- ===== src/Baseline/Level.antt =====
-- A round of the inner loop of the order book is a round of the baseline's.
pub mod Round
use limit_order_book_matchin.Base.{
  ℕ, ◌-◌, ◌<◌, ◌≤◌, min, ◌≡◌, ◌≢◌, refl, sym, ap, subst, ◌∙◌, Bool, true, false, not, ◌&&◌, List,
  [], ◌∷◌, ◌++◌, map, some, ℤ, ltb, ◌==◌, arith, if◌then◌else◌, is_empty, while_sim, All, some_inj,
  cons_of_not_empty, &&-eq_true,
}
use limit_order_book_matchin.Order.{Order, Side, is_filled, is_iceberg, is_active}
use limit_order_book_matchin.PriceMap.{Ptr, Level}
use limit_order_book_matchin.OrderBook.Sweep.{
  Sweep, exchange, make_trade, match_front, execute, available, match_level, level_test,
}
use limit_order_book_matchin.Matching.Cases.Loops.{settle_cases, match_front_cases}
use limit_order_book_matchin.Matching.Frame.{exchange-Kept, execute-Kept}
use limit_order_book_matchin.Matching.Frame.Scan.{Terms, Kept, Kept-trans}
use limit_order_book_matchin.Book.Tally.{tally}
use limit_order_book_matchin.Book.Indexing.Entries.{All-split}
use limit_order_book_matchin.Baseline.{
  SimpleOrder, simple_trade, Serving, serve_front, serving_test, serve_level,
}
use limit_order_book_matchin.Baseline.Agreement.{
  simple, simple_of, view, Plain, Live, Alike, InStep, apart_from, map-append, simple-make_trade,
  simple-fill, is_iceberg-fill, Live-fill, after, execute-order, execute-resting, view-other,
  other-Plain,
}
use limit_order_book_matchin.Baseline.Level.Round.{match_front-InStep}

is_empty-map {ℓ κ} :
    {A : Type ℓ} {B : Type κ} (f : A → B) (xs : List A) → is_empty (map f xs) ≡ is_empty xs
is_empty-map f [] = refl
is_empty-map f (x ∷ xs) = refl

-- The inner loops test the same.
level_test-serving_test :
    (key : Ptr → ℕ) (order : Ptr) (others : List Ptr) (s0 s : Sweep) (t : Serving)
    → InStep key order others s0 s t
    → level_test order s ≡ serving_test t
unfolding level_test serving_test
level_test-serving_test key order others s0 s t h =
    let same : is_empty t.queue ≡ is_empty s.level =
      ap is_empty (sym h.queue) ∙ is_empty-map (λ p. simple (s.book.object p)) s.level in
    let live : is_active (s.book.object order) ≡ ltb 0 t.qty = h.live ∙ ap (λ n. ltb 0 n) h.qty in
    rw (same, live) (&&-comm (ltb 0 t.qty) (not (is_empty s.level)))
  where
    &&-comm : (x y : Bool) → (x && y) ≡ (y && x)
    &&-comm x y = ground arith

-- The inner loops in step end in step.
pub match_level-InStep :
    (key : Ptr → ℕ) (side : Side) (order : Ptr) (id : ℕ) (price : ℤ) (others : List Ptr)
    (s0 : Sweep) (t0 : Serving) {s : Sweep} {t : Serving}
    → (s0.book.object order).id ≡ id
    → match_level side order price s0 ≡ some s
    → serve_level side id price t0 ≡ some t
    → InStep key order others s0 s0 t0
    → InStep key order others s0 s t
unfolding match_level serve_level level_test
match_level-InStep key side order id price others s0 t0 own e f h =
    while_sim (level_test order) (λ u. some (match_front side order price u.level u)) serving_test
      (λ v. some (serve_front side id price v.queue v)) (InStep key order others s0)
      (λ u v k. level_test-serving_test key order others s0 u v k)
      (λ u u' v v' k more step step'.
        let (resting, rest, shape) = cons_of_not_empty u.level (&&-eq_true _ _ more).1 in
        let looks : v.queue ≡ simple (u.book.object resting) ∷ view u.book.object rest =
          sym k.queue ∙ ap (view u.book.object) shape in
        let a : match_front side order price (resting ∷ rest) u ≡ u' =
          subst (λ l. match_front side order price l u ≡ u') shape (some_inj step) in
        let b : serve_front side id price (simple (u.book.object resting) ∷ view u.book.object rest)
              v
            ≡ v' =
          subst (λ l. serve_front side id price l v ≡ v') looks (some_inj step') in
        subst (λ x. InStep key order others s0 x v') a
          (subst (InStep key order others s0 _) b
            (match_front-InStep key side order id price others s0 u v resting rest shape own k)))
      _ _ s0 t0 e f h
