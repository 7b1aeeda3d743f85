-- ===== src/Order.antt =====
-- include/order.h and src/order.cpp: the order object, its three constructors and its methods.
-- `int64_t` is ℤ and `uint64_t` is ℕ with its wrap-around written out where it can occur.
pub mod Quantities
use limit_order_book_matchin.Base.{
  ℕ, ◌+◌, ◌-◌, ◌%◌, ◌^◌, min, Bool, true, false, not, ◌||◌, ℤ, pos, leb, ◌==◌, if◌then◌else◌,
}

pub data Side : Type 0 where
  buy sell : Side

pub data OrderKind : Type 0 where
  limit market iceberg stop_loss : OrderKind

pub data OrderStatus : Type 0 where
  active partial filled cancelled : OrderStatus

pub record Order : Type 0 where
  pub id : ℕ
  pub timestamp_us : ℤ
  pub side : Side
  pub kind : OrderKind
  pub price : ℤ
  pub quantity : ℕ
  pub leaves_qty : ℕ
  pub status : OrderStatus
  pub display_qty : ℕ
  pub hidden_qty : ℕ
  pub orig_display_qty : ℕ
  pub trigger_price : ℤ
  pub triggered : Bool

-- Arithmetic of `uint64_t`.
abbrev pub u64 : ℕ → ℕ
u64 n = n % 2 ^ 64

abbrev pub u64_sub : ℕ → ℕ → ℕ
u64_sub a b = u64 (a + 2 ^ 64 - b)

-- Limit or market.
unfoldable pub new_order : ℕ → ℤ → Side → OrderKind → ℤ → ℕ → Order
new_order id timestamp_us side kind price qty = record {
  id = id;
  timestamp_us = timestamp_us;
  side = side;
  kind = kind;
  price = price;
  quantity = qty;
  leaves_qty = qty;
  status = active;
  display_qty = 0;
  hidden_qty = 0;
  orig_display_qty = 0;
  trigger_price = pos 0;
  triggered = false;
}

unfoldable pub new_iceberg : ℕ → ℤ → Side → ℤ → ℕ → ℕ → Order
unfolding new_order
new_iceberg id timestamp_us side price total_qty display_qty =
    record (new_order id timestamp_us side iceberg price total_qty) {
      display_qty = display_qty;
      hidden_qty = u64_sub total_qty display_qty;
      orig_display_qty = display_qty;
    }

unfoldable pub new_stop_loss : ℕ → ℤ → Side → ℤ → ℤ → ℕ → Order
unfolding new_order
new_stop_loss id timestamp_us side trigger_price limit_price qty =
    record (new_order id timestamp_us side stop_loss limit_price qty) {
      trigger_price = trigger_price;
      triggered = false;
    }

unfoldable pub is_filled : Order → Bool
is_filled o = o.leaves_qty == 0

abbrev pub is_market_kind : OrderKind → Bool
is_market_kind market = true
is_market_kind _ = false

unfoldable pub is_market : Order → Bool
is_market o = is_market_kind o.kind

abbrev pub is_iceberg_kind : OrderKind → Bool
is_iceberg_kind iceberg = true
is_iceberg_kind _ = false

unfoldable pub is_iceberg : Order → Bool
is_iceberg o = is_iceberg_kind o.kind

abbrev pub is_stop_loss_kind : OrderKind → Bool
is_stop_loss_kind stop_loss = true
is_stop_loss_kind _ = false

unfoldable pub is_stop_loss : Order → Bool
is_stop_loss o = is_stop_loss_kind o.kind

abbrev pub is_active_status : OrderStatus → Bool
is_active_status active = true
is_active_status partial = true
is_active_status _ = false

unfoldable pub is_active : Order → Bool
is_active o = is_active_status o.status

unfoldable pub visible_qty : Order → ℕ
unfolding is_iceberg
visible_qty o = if is_iceberg o then o.display_qty else o.leaves_qty

unfoldable pub replenish : Order → Order
unfolding is_iceberg
replenish o =
    if not (is_iceberg o) || o.hidden_qty == 0
    then o
    else let lot = min o.hidden_qty o.orig_display_qty in
      record o { display_qty = u64 (o.display_qty + lot); hidden_qty = o.hidden_qty - lot }

unfoldable pub trigger : Order → Order
trigger o = record o { triggered = true }

unfoldable pub fill : Order → ℕ → Order
unfolding is_iceberg
fill o qty =
    if leb o.leaves_qty qty
    then (let done : Order = record o { leaves_qty = 0; status = filled } in
        if is_iceberg o then record done { display_qty = 0; hidden_qty = 0 } else done)
    else (let rest : Order = record o { leaves_qty = o.leaves_qty - qty; status = partial } in
        if is_iceberg o
        then record rest { display_qty = o.display_qty - min qty o.display_qty }
        else rest)

unfoldable pub cancel : Order → Order
cancel o = record o { leaves_qty = 0; status = cancelled }
