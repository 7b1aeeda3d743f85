-- ===== src/Matching/Termination.antt =====
-- The loops of `match` end: the fuel of the model is always enough.
use limit_order_book_matchin.Base.{
  ℕ, ◌+◌, ◌≤◌, ◌<◌, ◌≡◌, ◌≢◌, refl, sym, subst, ap, ◌∙◌, Bool, true, false, not, ◌&&◌, min, List,
  [], ◌∷◌, ◌++◌, some, ℤ, arith, length, Bool-cases, inl, inr, ◌⊎◌, if◌then◌else◌, &&-eq_true,
  cons_of_not_empty, nil_of_is_empty, while_total,
}
use limit_order_book_matchin.Order.{
  Order, Side, buy, sell, is_active, is_market, is_stop_loss, fill, trigger, replenish,
}
use limit_order_book_matchin.PriceMap.{Ptr, Level, Levels}
use limit_order_book_matchin.OrderBook.State.{OrderBook, modify_object, levels, opposite}
use limit_order_book_matchin.OrderBook.Sweep.{
  Sweep, exchange, match_front, execute, settle, available, match_level, level_test, level_fuel,
}
use limit_order_book_matchin.OrderBook.Matching.{
  Progress, match_side, match_best, book_test, book_fuel, close_level, rest_in_book, match,
  match_own_side, run_batch, run_triggered, run_cascade, triggered_test, stops_left,
}
use limit_order_book_matchin.Matching.Cases.{match_own_side-match_side}
use limit_order_book_matchin.Matching.Cases.Loops.{
  settle_cases, match_front_cases, match_level_inv, outer_test,
}
use limit_order_book_matchin.Matching.Objects.{execute-object}
use limit_order_book_matchin.Matching.Frame.{match_side-Stable}
use limit_order_book_matchin.Matching.Frame.Scan.{stops}

-- What is left to do for an order: a round lowers it, also one that trades nothing.
abbrev pub work : Order → ℕ
work o = o.leaves_qty + (if is_active o then 1 else 0)

fill-work :
    (o : Order) (a : ℕ) → is_active o ≡ true → a ≢ 0 → work (fill o (min o.leaves_qty a)) < work o
unfolding fill is_active
fill-work o a h k = ground arith

fill_twice-work :
    (o : Order) (a : ℕ)
    → is_active o ≡ true
    → a ≢ 0
    → work (fill (fill o (min o.leaves_qty a)) (min o.leaves_qty a)) < work o
unfolding fill is_active
fill_twice-work o a h k = ground arith

work-trigger : (o : Order) → work (trigger o) ≡ work o
unfolding trigger is_active
work-trigger o = refl

work-replenish : (o : Order) → work (replenish o) ≡ work o
unfolding replenish is_active
work-replenish o = ground arith

execute-work :
    (side : Side) (order resting : Ptr) (price : ℤ) (a : ℕ) (s : Sweep)
    → let o = s.book.object order in
      is_active o ≡ true
      → a ≢ 0
      → work ((execute side order resting price (min o.leaves_qty a) s).book.object order) < work o
unfolding modify_object exchange
execute-work side order resting price a s act some_left =
    let o = s.book.object order in
    ground (
      arith,
      execute-object side order resting price (min o.leaves_qty a) s order,
      fill-work o a act some_left,
      fill_twice-work o a act some_left,
      work-trigger (fill o (min o.leaves_qty a)),
      work-trigger (fill (fill o (min o.leaves_qty a)) (min o.leaves_qty a)),
    )

modify_object-work :
    (resting order : Ptr) (b : OrderBook)
    → work ((modify_object resting replenish b).object order) ≡ work (b.object order)
unfolding modify_object
modify_object-work resting order b = ground (arith, work-replenish (b.object resting))

settle-work :
    (order resting : Ptr) (rest : Level) (s : Sweep)
    → length rest ≤ length s.level
    → let t = settle resting rest s in
      work (t.book.object order) + length t.level ≤ work (s.book.object order) + length s.level
settle-work order resting rest s h =
    settle_cases
      (λ t.
        work (t.book.object order) + length t.level ≤ work (s.book.object order) + length s.level)
      resting rest s (λ _. omega arith)
      (λ _ _ _. omega (arith, modify_object-work resting order s.book)) (λ _ _. omega arith)

abbrev sweep_work : Ptr → Sweep → ℕ
sweep_work order s = work (s.book.object order) + length s.level

match_front-work :
    (side : Side) (order : Ptr) (price : ℤ) (resting : Ptr) (rest : Level) (s : Sweep)
    → s.level ≡ resting ∷ rest
    → is_active (s.book.object order) ≡ true
    → sweep_work order (match_front side order price (resting ∷ rest) s) < sweep_work order s
unfolding execute
match_front-work side order price resting rest s shape act =
    match_front_cases (λ t. sweep_work order t < sweep_work order s) side order price resting rest s
      (λ _. omega (arith, ap length shape))
      (λ some_left. omega (
        arith,
        ap length shape,
        settle-work order resting rest (
            execute side order resting price
              (min (s.book.object order).leaves_qty (available (s.book.object resting))) s),
        execute-work side order resting price (available (s.book.object resting)) s act some_left,
      ))

work-le : (o : Order) → work o ≤ o.leaves_qty + 1
work-le o = ground arith

pub match_level_total :
    (side : Side) (order : Ptr) (price : ℤ) (s : Sweep)
    → (t : Sweep) × (match_level side order price s ≡ some t)
unfolding match_level level_test
match_level_total side order price s =
    while_total (level_test order) (λ t. some (match_front side order price t.level t))
      (sweep_work order)
      (λ u more.
        let (act, filled) = &&-eq_true _ _ more in
        let (resting, rest, shape) = cons_of_not_empty u.level filled in
        (
          _,
          refl,
          subst (λ l. sweep_work order (match_front side order price l u) < sweep_work order u)
              (sym shape) (match_front-work side order price resting rest u shape act),
        ))
      (level_fuel order s) s (omega (arith, work-le (s.book.object order)))

-- A level that is left non-empty has used up the order.
pub match_level_done :
    (side : Side) (order : Ptr) (price : ℤ) (s : Sweep) {t : Sweep}
    → match_level side order price s ≡ some t
    → (t.level ≡ []) ⊎ (is_active (t.book.object order) ≡ false)
unfolding level_test
match_level_done side order price s {t} e = ground (
  arith,
  (match_level_inv (λ _. Unit {0}) side order price s e (λ _ _ _ _ _ _. tt) tt).1,
  nil_of_is_empty t.level,
)

-- The levels that the order may still visit.
abbrev rounds : Side → Ptr → Progress → ℕ
rounds side order s =
    length (levels (opposite side) s.book) + (if is_active (s.book.object order) then 1 else 0)

close_level-rounds :
    (side : Side) (order : Ptr) (price : ℤ) (level : Level) (rest : Levels) (s : Progress)
    (t : Sweep)
    → levels (opposite side) s.book ≡ (price, level) ∷ rest
    → is_active (s.book.object order) ≡ true
    → (t.level ≡ []) ⊎ (is_active (t.book.object order) ≡ false)
    → rounds side order (close_level side price rest t) < rounds side order s
unfolding close_level
close_level-rounds buy order price level rest s t shape act done = ground (arith, ap length shape)
close_level-rounds sell order price level rest s t shape act done = ground (arith, ap length shape)

match_best_total :
    (side : Side) (order : Ptr) (s : Progress) (price : ℤ) (level : Level) (rest : Levels)
    → levels (opposite side) s.book ≡ (price, level) ∷ rest
    → is_active (s.book.object order) ≡ true
    → (t : Progress) × (match_best side order (levels (opposite side) s.book) s ≡ some t)
      × (rounds side order t < rounds side order s)
unfolding match_best
match_best_total side order s price level rest shape act =
    let start : Sweep = record { book = s.book; level = level; result = s.result } in
    let (t, swept) = match_level_total side order price start in
    (
      close_level side price rest t,
      rw (shape, match_best, swept),
      close_level-rounds side order price level rest s t shape act
          (match_level_done side order price start swept),
    )

rounds_fuel :
    (side : Side) (running : Bool) (b : OrderBook)
    → length (levels (opposite side) b) + (if running then 1 else 0) < book_fuel side b
rounds_fuel side running b = ground arith

pub match_side_total :
    (side : Side) (order : Ptr) (b : OrderBook)
    → (t : Progress) × (match_side side order b ≡ some t)
unfolding match_side book_test
match_side_total side order b =
    let start : Progress = record { book = b; result = [] } in
    let (s, looped) =
      while_total (book_test side order)
        (λ s. match_best side order (levels (opposite side) s.book) s) (rounds side order)
        (λ u more.
          let o = u.book.object order in
          let (act, (price, level, rest, shape, _)) =
            outer_test (is_active o) (is_market o) side o.price (levels (opposite side) u.book)
              more in
          match_best_total side order u price level rest shape act)
        (book_fuel side b) start (rounds_fuel side (is_active (b.object order)) b) in
    (record s { book = rest_in_book order s.book }, rw (looped, match_side))

run_batch_total :
    (batch : List Ptr) (s : Progress)
    → (t : Progress) × (run_batch batch s ≡ some t) × (stops t.book ≡ stops s.book)
unfolding run_batch
run_batch_total [] s = (s, refl, refl)
run_batch_total (stop ∷ rest) s =
    let side = (s.book.object stop).side in
    let (t, ran) = match_side_total side stop s.book in
    let e : match_own_side stop s.book ≡ some t = match_own_side-match_side stop s.book ∙ ran in
    let (u, more, count) =
      run_batch_total rest (record { book = t.book; result = s.result ++ t.result }) in
    (u, rw (e, run_batch) more, count ∙ (match_side-Stable side stop s.book ran).stop_count)

run_cascade_total : (s : Progress) → (t : Progress) × (run_cascade s ≡ some t)
unfolding run_cascade run_triggered triggered_test
run_cascade_total s =
    while_total triggered_test run_triggered stops_left
      (λ u more.
        let (t, ran, count) =
          run_batch_total u.book.triggered_stops
            (record u { book = record (u.book) { triggered_stops = [] } }) in
        let (stop, rest, shape) = cons_of_not_empty u.book.triggered_stops more in
        (t, ran, omega (arith, count, ap length shape)))
      (stops_left s + 1) s (omega arith)

-- `match` returns for every order and every state of the book: neither the sweep of a level, nor
-- the walk over the levels, nor the cascade of triggered stops runs forever.
pub match_total : (order : Ptr) (b : OrderBook) → (r : Progress) × (match order b ≡ some r)
unfolding match
match_total order b =
    let o = b.object order in
    elim (Bool-cases (is_stop_loss o && not o.triggered)) [
      | inl wait ↦ (
        record { book = record b { pending_stops = b.pending_stops ++ order ∷ [] }; result = [] },
        rw (wait, match) refl,
      )
      | inr go ↦
          let (s, ran) = match_side_total o.side order b in
          let e : match_own_side order b ≡ some s = match_own_side-match_side order b ∙ ran in
          let (t, cascade) = run_cascade_total s in (t, rw (go, match, e) cascade)
    ]
