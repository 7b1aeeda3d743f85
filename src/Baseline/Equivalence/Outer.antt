-- ===== src/Baseline/Equivalence/Outer.antt =====
-- The outer loop of the order book and the walk of the baseline, in step.
use limit_order_book_matchin.Base.{
  ℕ, ◌≡◌, refl, ap, subst, ◌∙◌, inl, inr, Bool, false, not, ◌&&◌, ◌||◌, [], ◌∷◌, some, ℤ, ltb,
  is_empty, while, while_sim, Bool-cases,
}
use limit_order_book_matchin.Order.{Order, is_market_kind, Side, is_active, is_market}
use limit_order_book_matchin.PriceMap.{Ptr, Levels, before, push_back}
use limit_order_book_matchin.OrderBook.State.{levels, opposite}
use limit_order_book_matchin.OrderBook.Matching.{Progress, best_is_past, book_test, match_best}
use limit_order_book_matchin.Matching.Cases.Loops.{outer_test}
use limit_order_book_matchin.Matching.Frame.Scan.{Terms, terms}
use limit_order_book_matchin.Baseline.{Walking, best_blocked, walking_test, walk_best}
use limit_order_book_matchin.Baseline.Agreement.{simple, view, map-append}
use limit_order_book_matchin.Baseline.Walk.{view_levels, InWalk, match_best-InWalk}

pub same_market : (o o' : Order) → terms o' ≡ terms o → is_market o' ≡ is_market o
unfolding is_market
same_market o o' e = ap (λ (x : Terms). is_market_kind x.kind) e

-- The outer loops test the same.
book_test-walking_test :
    (key : Ptr → ℕ) (side : Side) (order : Ptr) (object0 : Ptr → Order) (own : Levels)
    (s : Progress) (t : Walking)
    → is_market (object0 order) ≡ false
    → InWalk key side order object0 own s t
    → book_test side order s ≡ walking_test side (object0 order).price t
unfolding book_test walking_test
book_test-walking_test key side order object0 own s t limit (own_same, h) =
    let o = s.book.object order in
    let active : is_active o ≡ ltb 0 t.qty = h.live ∙ ap (λ n. ltb 0 n) h.qty in
    let market = same_market (object0 order) o (h.terms_of order) ∙ limit in
    let price : o.price ≡ (object0 order).price = ap (λ (x : Terms). x.price) (h.terms_of order) in
    rw (active, market, price)
      (subst
        (λ f.
          test (levels (opposite side) s.book)
          ≡ (ltb 0 t.qty && not (is_empty f) && not (best_blocked side (object0 order).price f)))
        h.looks (by_levels (levels (opposite side) s.book)))
  where
    test : Levels → Bool
    test m =
        ltb 0 t.qty
        && not (is_empty m)
        && (false || not (best_is_past side (object0 order).price m))

    by_levels :
        (m : Levels)
        → test m ≡ (
            ltb 0 t.qty
            && not (is_empty (view_levels s.book.object m))
            && not (best_blocked side (object0 order).price (view_levels s.book.object m)))
    by_levels [] = refl
    by_levels ((price, level) ∷ rest) = refl

-- The walks in step end in step.
pub walk-InWalk :
    (key : Ptr → ℕ) (side : Side) (order : Ptr) (object0 : Ptr → Order) (own : Levels)
    (fuel fuel' : ℕ) (s s' : Progress) (t t' : Walking)
    → is_market (object0 order) ≡ false
    → while
        (book_test side order)
        (λ u. match_best side order (levels (opposite side) u.book) u)
        fuel
        s
      ≡ some s'
    → while
        (walking_test side (object0 order).price)
        (λ v. walk_best side (object0 order).id v.facing v)
        fuel'
        t
      ≡ some t'
    → InWalk key side order object0 own s t
    → InWalk key side order object0 own s' t'
unfolding book_test
walk-InWalk key side order object0 own fuel fuel' s s' t t' limit e f h =
    while_sim (book_test side order) (λ u. match_best side order (levels (opposite side) u.book) u)
      (walking_test side (object0 order).price) (λ v. walk_best side (object0 order).id v.facing v)
      (InWalk key side order object0 own)
      (λ u v k. book_test-walking_test key side order object0 own u v limit k)
      (λ u u' v v' k more step step'.
        let o = u.book.object order in
        let (act, (price, level, rest, shape, within)) =
          outer_test (is_active o) (is_market o) side o.price (levels (opposite side) u.book)
            more in
        match_best-InWalk key side order (object0 order).id object0 own rest price level u u' v v'
          refl shape step step' k)
      fuel fuel' s t e f h

-- An order joins its level in both.
pub view_levels-push_back :
    (object : Ptr → Order) (side : Side) (price : ℤ) (order : Ptr) (m : Levels)
    → view_levels object (push_back side price order m)
      ≡ push_back side price (simple (object order)) (view_levels object m)
unfolding push_back
view_levels-push_back object side price order [] = refl
view_levels-push_back object side price order ((p, level) ∷ rest) =
    let later = view_levels-push_back object side price order rest in
    elim (Bool-cases (before side price p)) [
      | inl e ↦ rw e refl
      | inr e ↦ elim (Bool-cases (before side p price)) [
        | inl f ↦ rw (e, f) (ap (λ m. (p, view object level) ∷ m) later)
        | inr f ↦
            rw (e, f)
              (ap (λ l. (p, l) ∷ view_levels object rest)
                (map-append (λ q. simple (object q)) level (order ∷ [])))
      ]
    ]
