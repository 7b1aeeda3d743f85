-- ===== src/Baseline/Termination.antt =====
-- The loops of `BaselineLOB::match` end.
use limit_order_book_matchin.Base.{
  ℕ, suc, ◌+◌, ◌-◌, ◌<◌, min, ◌≡◌, refl, subst, true, false, not, ◌&&◌, List, [], ◌∷◌, some, ℤ, ltb,
  ◌==◌, arith, if◌then◌else◌, is_empty, length, while_total, while_inv, some_inj, bind_total,
  Bool-cases, inl, inr,
}
use limit_order_book_matchin.Order.{Side}
use limit_order_book_matchin.Baseline.{
  SimpleOrder, SimpleTrade, SimpleLevels, BaselineLob, Serving, serve_front, serving_test,
  serve_level, Walking, best_blocked, walking_test, walk_best, walk_levels, baseline_match,
  facing_levels,
}

-- A round pops an order or serves the incoming one.
serve_front-less :
    (side : Side) (id : ℕ) (price : ℤ) (q : List SimpleOrder) (s : Serving)
    → (not (is_empty q) && ltb 0 s.qty) ≡ true
    → let t = serve_front side id price q s in t.qty + length t.queue < s.qty + length q
unfolding serve_front
serve_front-less side id price [] s h = ground arith
serve_front-less side id price (r ∷ rest) s h =
    let tqty = min s.qty r.qty in
    elim (Bool-cases (r.qty - tqty == 0)) [
      | inl e ↦ rw (e, serve_front) (omega arith)
      | inr e ↦ rw (e, serve_front) (ground arith)
    ]

pub serve_level_total :
    (side : Side) (id : ℕ) (price : ℤ) (s : Serving)
    → (t : Serving) × (serve_level side id price s ≡ some t)
unfolding serve_level serving_test
serve_level_total side id price s =
    while_total serving_test (λ t. some (serve_front side id price t.queue t))
      (λ t. t.qty + length t.queue)
      (λ t more.
        (serve_front side id price t.queue t, refl, serve_front-less side id price t.queue t more))
      (s.qty + length s.queue + 1) s (omega arith)

-- It ends with the queue empty or the order served.
serve_level-done :
    (side : Side) (id : ℕ) (price : ℤ) (s : Serving) {t : Serving}
    → serve_level side id price s ≡ some t
    → (t.qty < s.qty + 1) × (serving_test t ≡ false)
unfolding serve_level serve_front
serve_level-done side id price s e =
    while_inv serving_test (λ t. some (serve_front side id price t.queue t))
      (λ t. t.qty < s.qty + 1)
      (λ u v h _ step.
        subst (λ (x : Serving). x.qty < s.qty + 1) (some_inj step) (less u.queue u h))
      (s.qty + length s.queue + 1) s e (omega arith)
  where
    less :
        (q : List SimpleOrder) (u : Serving)
        → u.qty < s.qty + 1
        → (serve_front side id price q u).qty < s.qty + 1
    less [] u h = h
    less (r ∷ rest) u h = omega arith

-- What is left to walk: the levels, and the order while it wants more.
abbrev walk_left : Walking → ℕ
walk_left s = length s.facing + (if ltb 0 s.qty then 1 else 0)

walk_best-less :
    (side : Side) (id : ℕ) (price : ℤ) (m : SimpleLevels) (s : Walking)
    → (ltb 0 s.qty && not (is_empty m) && not (best_blocked side price m)) ≡ true
    → (t : Walking) × (walk_best side id m s ≡ some t)
      × (walk_left t < length m + (if ltb 0 s.qty then 1 else 0))
unfolding walk_best serving_test
walk_best-less side id price [] s h = absurd (ground arith)
walk_best-less side id price ((p, q) ∷ rest) s h =
    let start : Serving = record { queue = q; qty = s.qty; trades = s.trades } in
    let (t, ran) = serve_level_total side id p start in
    let (small, done) = serve_level-done side id p start ran in
    (
      record {
        facing = if is_empty t.queue then rest else (p, t.queue) ∷ rest;
        qty = t.qty;
        trades = t.trades;
      },
      rw ran refl,
      less t.queue t.qty done small,
    )
  where
    less :
        (left : List SimpleOrder) (qty : ℕ)
        → (not (is_empty left) && ltb 0 qty) ≡ false
        → qty < s.qty + 1
        → length (if is_empty left then rest else (p, left) ∷ rest) + (if ltb 0 qty then 1 else 0)
          < suc (length rest) + (if ltb 0 s.qty then 1 else 0)
    less [] qty done small = ground arith
    less (x ∷ xs) qty done small = ground arith

pub walk_levels_total :
    (side : Side) (id : ℕ) (price : ℤ) (s : Walking)
    → (t : Walking) × (walk_levels side id price s ≡ some t)
unfolding walk_levels walking_test
walk_levels_total side id price s =
    while_total (walking_test side price) (λ t. walk_best side id t.facing t) walk_left
      (λ t more. walk_best-less side id price t.facing t more) (length s.facing + 2) s
      (ground arith)

-- `BaselineLOB::match` returns for every order and every state.
pub baseline_match_total :
    (side : Side) (price : ℤ) (qty : ℕ) (l : BaselineLob)
    → (r : BaselineLob × List SimpleTrade) × (baseline_match side price qty l ≡ some r)
unfolding baseline_match
baseline_match_total side price qty l =
    bind_total
      (walk_levels side l.next_id price
        (record { facing = facing_levels side l; qty = qty; trades = [] }))
      _ (walk_levels_total side l.next_id price _) (λ s. (_, refl))
