-- ===== src/Baseline.antt =====
-- benchmark/baseline_stl.cpp, `BaselineLOB`: the plain book that the order book is measured against. Its
-- two branches are one definition over the side of the incoming order, as in OrderBook/Matching.antt.
pub mod Termination
pub mod Agreement
pub mod Level
pub mod Walk
pub mod Equivalence
pub mod Plain
pub mod Sessions
use limit_order_book_matchin.Base.{
  ℕ, ◌+◌, ◌-◌, min, Bool, true, false, not, ◌&&◌, List, [], ◌∷◌, ◌++◌, Option, some, ℤ, ltb, ◌==◌,
  if◌then◌else◌, is_empty, length, while, ◌>>=◌,
}
use limit_order_book_matchin.Order.{Side, buy, sell, u64}
use limit_order_book_matchin.PriceMap.{push_back}
use limit_order_book_matchin.OrderBook.Matching.{past_limit}

pub record SimpleOrder : Type 0 where
  pub id : ℕ
  pub price : ℤ
  pub qty : ℕ

pub record SimpleTrade : Type 0 where
  pub buy_id : ℕ
  pub sell_id : ℕ
  pub price : ℤ
  pub qty : ℕ

abbrev pub SimpleLevels : Type 0
SimpleLevels = List (ℤ × List SimpleOrder)

pub record BaselineLob : Type 0 where
  pub bids : SimpleLevels
  pub asks : SimpleLevels
  pub next_id : ℕ

abbrev pub simple_levels : Side → BaselineLob → SimpleLevels
simple_levels buy l = l.bids
simple_levels sell l = l.asks

abbrev pub facing_levels : Side → BaselineLob → SimpleLevels
facing_levels buy l = l.asks
facing_levels sell l = l.bids

-- The locals of the inner loop: the queue of the level, what the order wants, and its trades.
pub record Serving : Type 0 where
  pub queue : List SimpleOrder
  pub qty : ℕ
  pub trades : List SimpleTrade

abbrev pub simple_trade : Side → ℕ → ℕ → ℤ → ℕ → SimpleTrade
simple_trade buy id resting_id price qty = record {
  buy_id = id;
  sell_id = resting_id;
  price = price;
  qty = qty;
}
simple_trade sell id resting_id price qty = record {
  buy_id = resting_id;
  sell_id = id;
  price = price;
  qty = qty;
}

unfoldable pub serve_front : Side → ℕ → ℤ → List SimpleOrder → Serving → Serving
serve_front side id price [] s = s
serve_front side id price (resting ∷ rest) s =
    let tqty = min s.qty resting.qty in
    let left : SimpleOrder = record resting { qty = resting.qty - tqty } in
    record {
      queue = if left.qty == 0 then rest else left ∷ rest;
      qty = s.qty - tqty;
      trades = s.trades ++ simple_trade side id resting.id price tqty ∷ [];
    }

-- `!q.empty() && qty > 0`
unfoldable pub serving_test : Serving → Bool
serving_test s = not (is_empty s.queue) && ltb 0 s.qty

-- Enough for the inner loop: each round pops an order or serves the incoming one.
unfoldable pub serve_level : Side → ℕ → ℤ → Serving → Option Serving
serve_level side id price s =
    while serving_test (λ t. some (serve_front side id price t.queue t))
      (s.qty + length s.queue + 1) s

-- The locals of the outer loop, with the map of the other side.
pub record Walking : Type 0 where
  pub facing : SimpleLevels
  pub qty : ℕ
  pub trades : List SimpleTrade

abbrev pub best_blocked : Side → ℤ → SimpleLevels → Bool
best_blocked side price [] = true
best_blocked side price ((p, q) ∷ rest) = past_limit side p price

-- The test of the outer loop, with the `break` that follows it.
unfoldable pub walking_test : Side → ℤ → Walking → Bool
walking_test side price s =
    ltb 0 s.qty && not (is_empty s.facing) && not (best_blocked side price s.facing)

unfoldable pub walk_best : Side → ℕ → SimpleLevels → Walking → Option Walking
walk_best side id [] s = some s
walk_best side id ((p, q) ∷ rest) s =
    serve_level side id p (record { queue = q; qty = s.qty; trades = s.trades }) >>= λ t.
    some (record {
      facing = if is_empty t.queue then rest else (p, t.queue) ∷ rest;
      qty = t.qty;
      trades = t.trades;
    })

-- Enough for the outer loop: each round but the last erases a level.
unfoldable pub walk_levels : Side → ℕ → ℤ → Walking → Option Walking
walk_levels side id price s =
    while (walking_test side price) (λ t. walk_best side id t.facing t) (length s.facing + 2) s

abbrev pub put_back : Side → SimpleLevels → SimpleLevels → ℕ → BaselineLob
put_back buy facing own next_id = record { bids = own; asks = facing; next_id = next_id }
put_back sell facing own next_id = record { bids = facing; asks = own; next_id = next_id }

unfoldable pub baseline_match : Side → ℤ → ℕ → BaselineLob → Option (BaselineLob × List SimpleTrade)
baseline_match side price qty l =
    walk_levels side l.next_id price
      (record { facing = facing_levels side l; qty = qty; trades = [] })
    >>= λ s.
        let own = simple_levels side l in
        let new : SimpleOrder = record { id = l.next_id; price = price; qty = s.qty } in
        some (
          put_back side s.facing (if ltb 0 s.qty then push_back side price new own else own)
              (u64 (l.next_id + 1)),
          s.trades,
        )

-- `BaselineLOB lob;`
abbrev pub new_baseline : BaselineLob
new_baseline = record { bids = []; asks = []; next_id = 1 }

-- The arguments of a call of `lob.match`.
pub record Quote : Type 0 where
  pub side : Side
  pub price : ℤ
  pub qty : ℕ

-- The loop of `run_baseline`, over the calls that its generators draw; the trades are kept.
unfoldable pub run_baseline : List Quote → BaselineLob → Option (BaselineLob × List SimpleTrade)
run_baseline [] l = some (l, [])
run_baseline (q ∷ qs) l = baseline_match q.side q.price q.qty l >>= λ r.
    run_baseline qs r.0 >>= λ s. some (s.0, r.1 ++ s.1)
