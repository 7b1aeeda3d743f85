-- ===== src/OrderBook/State.antt =====
-- include/orderbook.h: the state of the book, its heap of orders, and its two kinds of map.
use limit_order_book_matchin.Base.{
  ℕ, suc, List, [], ◌∷◌, Option, none, some, ℤ, ◌==◌, if◌then◌else◌,
}
use limit_order_book_matchin.Order.{Order, Side, buy, sell}
use limit_order_book_matchin.PriceMap.{Ptr, Levels, push_back}

pub record Trade : Type 0 where
  pub trade_id : ℕ
  pub buy_order_id : ℕ
  pub sell_order_id : ℕ
  pub price : ℤ
  pub quantity : ℕ
  pub timestamp_us : ℤ

-- `object` is the memory that the shared pointers point into, `next_ptr` the first unused name.
pub record OrderBook : Type 0 where
  pub object : Ptr → Order
  pub next_ptr : Ptr
  pub bids : Levels
  pub asks : Levels
  pub active_orders : List (ℕ × Ptr)
  pub pending_stops : List Ptr
  pub triggered_stops : List Ptr
  pub trades : List Trade
  pub next_trade_id : ℕ

unfoldable pub empty_book : (Ptr → Order) → Ptr → OrderBook
empty_book object next_ptr = record {
  object = object;
  next_ptr = next_ptr;
  bids = [];
  asks = [];
  active_orders = [];
  pending_stops = [];
  triggered_stops = [];
  trades = [];
  next_trade_id = 1;
}

-- `ptr->method()` for a method that changes the object.
unfoldable pub modify_object : Ptr → (Order → Order) → OrderBook → OrderBook
modify_object p f b = record b { object = λ q. if p == q then f (b.object p) else b.object q }

-- `std::make_shared<Order>(…)` and `std::shared_ptr<Order>(pool_.allocate(…), …)`
unfoldable pub new_object : Order → OrderBook → OrderBook
new_object o b =
    let p = b.next_ptr in
    record b { object = λ q. if p == q then o else b.object q; next_ptr = suc p }

-- The unordered_map from order ids: `m[id] = p`, `m.find(id)` and `m.erase(id)`.
unfoldable pub active_set : ℕ → Ptr → List (ℕ × Ptr) → List (ℕ × Ptr)
active_set id p [] = (id, p) ∷ []
active_set id p ((i, q) ∷ rest) = if i == id then (id, p) ∷ rest else (i, q) ∷ active_set id p rest

unfoldable pub active_find : ℕ → List (ℕ × Ptr) → Option Ptr
active_find id [] = none
active_find id ((i, q) ∷ rest) = if i == id then some q else active_find id rest

unfoldable pub active_erase : ℕ → List (ℕ × Ptr) → List (ℕ × Ptr)
active_erase id [] = []
active_erase id ((i, q) ∷ rest) =
    let others = active_erase id rest in if i == id then others else (i, q) ∷ others

abbrev pub opposite : Side → Side
opposite buy = sell
opposite sell = buy

abbrev pub levels : Side → OrderBook → Levels
levels buy b = b.bids
levels sell b = b.asks

abbrev pub with_levels : Side → Levels → OrderBook → OrderBook
with_levels buy m b = record b { bids = m }
with_levels sell m b = record b { asks = m }

unfoldable pub add_to_book : Ptr → OrderBook → OrderBook
add_to_book order b =
    let o = b.object order in
    let c = with_levels o.side (push_back o.side o.price order (levels o.side b)) b in
    record c { active_orders = active_set o.id order c.active_orders }
