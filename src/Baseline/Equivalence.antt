-- ===== src/Baseline/Equivalence.antt =====
-- The order book and the benchmark's baseline agree on plain limit orders.
pub mod Outer
pub mod Joining
use limit_order_book_matchin.Base.{
  ℕ, ◌+◌, ◌≤◌, ◌≡◌, refl, sym, ap, subst, ◌∙◌, inl, inr, Bool, true, false, not, ◌&&◌, ◌||◌, List,
  [], ◌∷◌, ◌++◌, map, Option, some, ℤ, ltb, arith, if◌then◌else◌, is_empty, while, while_sim, All,
  All-append, some_inj, >>=-eq-some, ◌>>=◌, Bool-cases,
}
use limit_order_book_matchin.Order.{
  Order, is_market_kind, Side, buy, sell, u64, is_active, is_market, is_filled,
}
use limit_order_book_matchin.PriceMap.{Ptr, Levels, before, push_back}
use limit_order_book_matchin.OrderBook.State.{OrderBook, levels, opposite}
use limit_order_book_matchin.OrderBook.Matching.{
  Progress, best_is_past, book_test, match_best, match_side, rest_in_book,
}
use limit_order_book_matchin.Matching.Cases.Loops.{outer_test}
use limit_order_book_matchin.Matching.Frame.Scan.{Terms, terms}
use limit_order_book_matchin.Matching.Objects.{rest_in_book-object}
use limit_order_book_matchin.Matching.Priority.{rest_in_book-facing}
use limit_order_book_matchin.Matching.Priority.Spent.{queue}
use limit_order_book_matchin.Matching.Complete.{joined, rest_in_book-own_side}
use limit_order_book_matchin.Book.Tally.{tally, tally-append}
use limit_order_book_matchin.Baseline.{
  SimpleOrder, SimpleTrade, SimpleLevels, BaselineLob, facing_levels, simple_levels, Walking,
  best_blocked, walking_test, walk_best, walk_levels, put_back, baseline_match,
}
use limit_order_book_matchin.Baseline.Termination.{walk_levels_total}
use limit_order_book_matchin.Baseline.Agreement.{simple, simple_of, view, Plain, Live, map-append}
use limit_order_book_matchin.Baseline.Level.Round.{is_filled-leaves}
use limit_order_book_matchin.Baseline.Walk.{
  view_levels, view_levels-same, InWalk, match_best-InWalk,
}
use limit_order_book_matchin.Baseline.Equivalence.Outer.{
  same_market, walk-InWalk, view_levels-push_back,
}
use limit_order_book_matchin.Baseline.Equivalence.Joining.{
  seen, seen-facing, seen-own, left, rest_in_book-seen,
}

-- A plain limit order, and a book whose resting orders hide nothing and have something left, with no
-- order in two places (by `key`, such as the id).
pub record IsPlain (key : Ptr → ℕ) (order : Ptr) (b : OrderBook) : Type 0 where
  pub limit : is_market (b.object order) ≡ false
  pub live : Live (b.object order)
  pub plain : (side : Side) → All (λ p. Plain (b.object p)) (queue (levels side b))
  pub once : (i : ℕ) → tally key i (order ∷ queue b.asks ++ queue b.bids) ≤ 1

facing_first :
    (key : Ptr → ℕ) (order : Ptr) (b : OrderBook) (side : Side) (i : ℕ)
    → tally key i (order ∷ queue b.asks ++ queue b.bids) ≤ 1
    → tally key i (order ∷ queue (levels (opposite side) b) ++ queue (levels side b)) ≤ 1
facing_first key order b buy i h = h
facing_first key order b sell i h =
    let e = tally-append key i (queue b.asks) (queue b.bids) in
    let f = tally-append key i (queue b.bids) (queue b.asks) in omega (arith, h, e, f)

-- The walk that the baseline starts for the order.
abbrev walk_of : Order → OrderBook → Walking
walk_of o b = record {
  facing = facing_levels o.side (seen o.id b);
  qty = o.leaves_qty;
  trades = [];
}

-- The run of the matching loop and the baseline's walk, in step to the end.
pub match_side-InWalk :
    (key : Ptr → ℕ) (order : Ptr) (b : OrderBook) {r : Progress}
    → let o = b.object order in
      match_side o.side order b ≡ some r
      → IsPlain key order b
      → (s : Progress) × (t : Walking) × (walk_levels o.side o.id o.price (walk_of o b) ≡ some t)
        × InWalk key o.side order b.object (levels o.side b) s t
        × (record s { book = rest_in_book order s.book } ≡ r)
unfolding match_side walk_levels
match_side-InWalk key order b e h =
    let o = b.object order in
    let side = o.side in
    let (s, looped, last) = >>=-eq-some _ _ e in
    let (t, walked) = walk_levels_total side o.id o.price (walk_of o b) in
    let start : InWalk key side order b.object (levels side b) (record { book = b; result = [] })
        (walk_of o b) =
      (
        refl,
        record {
          terms_of = λ p. refl;
          looks = sym (seen-facing side o.id b);
          plain =
              All-append _ (queue (levels (opposite side) b)) (queue (levels side b))
                (h.plain (opposite side)) (h.plain side);
          qty = refl;
          live = h.live;
          own_same = refl;
          trades = refl;
          once = λ i. facing_first key order b side i (h.once i);
        },
      ) in
    (
      s,
      t,
      walked,
      walk-InWalk key side order b.object (levels side b) _ _ _ s _ t h.limit looped walked start,
      some_inj last,
    )

-- For a plain limit order on a plain book, the matching loop of the order book and the baseline make the
-- same trades and leave the same levels, when the baseline's next id
-- is the order's.
pub match_side-baseline_match :
    (key : Ptr → ℕ) (order : Ptr) (b : OrderBook) {r : Progress}
    → let o = b.object order in
      match_side o.side order b ≡ some r
      → IsPlain key order b
      → (baseline_match o.side o.price o.leaves_qty (seen o.id b)
          ≡ some (seen (u64 (o.id + 1)) r.book, map simple_of r.result))
unfolding baseline_match
match_side-baseline_match key order b {r} e h =
    let o = b.object order in
    let side = o.side in
    let (s, t, walked, k, last) = match_side-InWalk key order b e h in
    let same : rest_in_book order s.book ≡ r.book = ap (λ (u : Progress). u.book) last in
    let same_result : s.result ≡ r.result = ap (λ (u : Progress). u.result) last in
    ap (λ m. m >>= (λ w. put_away side o (seen o.id b) w)) walked
    ∙ ap
        (λ own. some (
          put_back side t.facing
              (if ltb 0 t.qty
                then push_back side o.price (left key order b s t h.limit) own
                else own)
              (u64 (o.id + 1)),
          t.trades,
        ))
        (seen-own side o.id b)
    ∙ ap (λ l. some (l, t.trades)) (rest_in_book-seen key order b s t h.limit k (u64 (o.id + 1)))
    ∙ ap (λ c. some (seen (u64 (o.id + 1)) c, t.trades)) same
    ∙ ap (λ l. some (seen (u64 (o.id + 1)) r.book, l))
        (sym k.1.trades ∙ ap (map simple_of) same_result)
  where
    put_away : Side → Order → BaselineLob → Walking → Option (BaselineLob × List SimpleTrade)
    put_away side o l w =
        let own = simple_levels side l in
        some (
          put_back side w.facing
              (if ltb 0 w.qty
                then push_back side o.price (record { id = o.id; price = o.price; qty = w.qty }) own
                else own)
              (u64 (o.id + 1)),
          w.trades,
        )
