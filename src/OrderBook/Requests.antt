-- ===== src/OrderBook/Requests.antt =====
-- src/orderbook.cpp: `cancelOrder`, `modifyOrder` and the queries.
use limit_order_book_matchin.Base.{
  ℕ, Bool, true, false, not, [], ◌∷◌, Option, none, some, ℤ, pos, ◌-ℤ◌, fits_i64, ◌==◌,
  if◌then◌else◌, length,
}
use limit_order_book_matchin.Order.{cancel, new_order}
use limit_order_book_matchin.PriceMap.{Ptr, Levels, remove_from_level}
use limit_order_book_matchin.OrderBook.State.{
  OrderBook, levels, with_levels, modify_object, new_object, active_find, active_erase, add_to_book,
}

-- The body of `cancelLocked` past the look-up.
unfoldable pub remove_order : ℕ → Ptr → OrderBook → OrderBook
remove_order order_id p b =
    let o = b.object p in
    let keep = λ (q : Ptr). not ((b.object q).id == order_id) in
    let c = with_levels o.side (remove_from_level o.side o.price keep (levels o.side b)) b in
    let d = modify_object p cancel c in
    record d { active_orders = active_erase order_id d.active_orders }

unfoldable pub cancel_order : ℕ → OrderBook → OrderBook × Bool
cancel_order order_id b = elim (active_find order_id b.active_orders) [
  | none ↦ (b, false)
  | some p ↦ (remove_order order_id p b, true)
]

-- The replacement is made before the old order is cancelled, and takes its place in `active_`.
unfoldable pub replace_order : ℕ → Ptr → ℤ → ℕ → ℤ → OrderBook → OrderBook
replace_order order_id p new_price new_qty new_timestamp_us b =
    let old = b.object p in
    let o = new_order old.id new_timestamp_us old.side old.kind new_price new_qty in
    add_to_book b.next_ptr (cancel_order order_id (new_object o b)).0

unfoldable pub modify_order : ℕ → ℤ → ℕ → ℤ → OrderBook → OrderBook × Bool
modify_order order_id new_price new_qty new_timestamp_us b =
    elim (active_find order_id b.active_orders) [
      | none ↦ (b, false)
      | some p ↦ (replace_order order_id p new_price new_qty new_timestamp_us b, true)
    ]

abbrev pub best_price : Levels → Option ℤ
best_price [] = none
best_price ((p, level) ∷ rest) = some p

abbrev pub price_or_zero : Option ℤ → ℤ
price_or_zero none = pos 0
price_or_zero (some p) = p

unfoldable pub best_bid : OrderBook → ℤ
best_bid b = price_or_zero (best_price b.bids)

unfoldable pub best_ask : OrderBook → ℤ
best_ask b = price_or_zero (best_price b.asks)

-- `none` is an overflow of `int64_t`, which is undefined behaviour.
abbrev pub spread_of : Option ℤ → Option ℤ → Option ℤ
spread_of none ask = some (pos 0)
spread_of (some bid) none = some (pos 0)
spread_of (some bid) (some ask) = let d = ask -ℤ bid in if fits_i64 d then some d else none

unfoldable pub spread : OrderBook → Option ℤ
spread b = spread_of (best_price b.bids) (best_price b.asks)

unfoldable pub bid_levels : OrderBook → ℕ
bid_levels b = length b.bids

unfoldable pub ask_levels : OrderBook → ℕ
ask_levels b = length b.asks

unfoldable pub active_order_count : OrderBook → ℕ
active_order_count b = length b.active_orders
