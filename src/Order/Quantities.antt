-- ===== src/Order/Quantities.antt =====
-- The quantities of an order: what the constructors set up and every method keeps.
use limit_order_book_matchin.Base.{
  ℕ, ◌+◌, ◌-◌, ◌^◌, ◌≤◌, ◌<◌, ◌≡◌, ◌≢◌, refl, ◌⊎◌, true, false, ℤ, arith,
}
use limit_order_book_matchin.Order.{
  Order, Side, OrderKind, iceberg, filled, partial, new_order, new_iceberg, is_filled, is_active,
  visible_qty, replenish, trigger, fill, cancel,
}

-- An order that is no longer active has nothing left.
abbrev pub IsClosed : Order → Type 0
IsClosed o = is_active o ≡ false → o.leaves_qty ≡ 0

pub record IsSound (o : Order) : Type 0 where
  pub closed : IsClosed o
  pub within : o.leaves_qty ≤ o.quantity
  pub small : o.quantity < 2 ^ 64
  -- An open iceberg's lot and reserve are what it has left.
  pub balanced : o.kind ≡ iceberg → is_active o ≡ true → o.display_qty + o.hidden_qty ≡ o.leaves_qty

new_order-IsSound :
    (id : ℕ) (ts : ℤ) (side : Side) (kind : OrderKind) (price : ℤ) (qty : ℕ)
    → qty < 2 ^ 64
    → kind ≢ iceberg
    → IsSound (new_order id ts side kind price qty)
unfolding new_order is_active
new_order-IsSound id ts side kind price qty h k = ground arith

-- The iceberg constructor makes a sound order of a total below 2^64 and a lot no larger than it.
pub new_iceberg-IsSound :
    (id : ℕ) (ts : ℤ) (side : Side) (price : ℤ) (total display : ℕ)
    → total < 2 ^ 64
    → display ≤ total
    → IsSound (new_iceberg id ts side price total display)
unfolding new_iceberg is_active
new_iceberg-IsSound id ts side price total display h k = ground arith

-- What a fill takes, and the state that it leaves the order in.
abbrev pub FilledBy : ℕ → Order → Order → Type 0
FilledBy qty o o' =
    (o'.leaves_qty ≡ o.leaves_qty - qty)
    × (((o'.leaves_qty ≡ 0) × (o'.status ≡ filled)) ⊎ ((0 < o'.leaves_qty) × (o'.status ≡ partial)))

-- A fill that is covered by what a sound order shows, or that fills it, takes its quantity, or all that
-- is left if that is less; leaves the order FILLED if nothing is left and PARTIAL otherwise; and keeps it
-- sound: it has no more left than its quantity, and an open iceberg's lot and reserve are what it has left.
pub fill-IsSound :
    (o : Order) (qty : ℕ)
    → IsSound o
    → qty ≤ visible_qty o ⊎ o.leaves_qty ≤ qty
    → IsSound (fill o qty) × FilledBy qty o (fill o qty)
unfolding fill visible_qty is_active
fill-IsSound o qty s h = (ground arith, (ground arith, ground arith))

-- `replenish` keeps a sound order sound: the lot it shows comes out of the reserve.
pub replenish-IsSound : (o : Order) → IsSound o → IsSound (replenish o)
unfolding replenish is_active
replenish-IsSound o s = ground arith

cancel-IsSound : (o : Order) → IsSound o → IsSound (cancel o)
unfolding cancel is_active
cancel-IsSound o s = ground arith

pub fill-IsClosed : (o : Order) (qty : ℕ) → IsClosed o → IsClosed (fill o qty)
unfolding fill is_active
fill-IsClosed o qty h = ground arith

pub trigger-IsClosed : (o : Order) → IsClosed o → IsClosed (trigger o)
unfolding trigger is_active
trigger-IsClosed o h = h

pub replenish-IsClosed : (o : Order) → IsClosed o → IsClosed (replenish o)
unfolding replenish is_active
replenish-IsClosed o h = ground arith

pub cancel-IsClosed : (o : Order) → IsClosed (cancel o)
unfolding cancel
cancel-IsClosed o = λ _. refl

-- An order with something left is active.
pub is_active_of_open : (o : Order) → IsClosed o → is_filled o ≡ false → is_active o ≡ true
unfolding is_filled
is_active_of_open o h e = ground arith
