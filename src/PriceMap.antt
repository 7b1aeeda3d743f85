-- ===== src/PriceMap.antt =====
-- The `std::map<int64_t, Level>` of include/orderbook.h: one side of the book, an association list
-- kept in the order of the map's comparator, `std::greater` for the bids and `std::less` for the
-- asks, so that its head is what `begin()` points at. The operations are those that
-- src/orderbook.cpp calls.
pub mod Sorted
use limit_order_book_matchin.Base.{
  ℕ, Bool, true, false, not, ◌&&◌, List, [], ◌∷◌, ◌++◌, ℤ, ltb_ℤ, if◌then◌else◌, is_empty, filter,
}
use limit_order_book_matchin.Order.{Side, buy, sell}

-- A `std::shared_ptr<Order>` is the name of an object; a level is a queue of them.
abbrev pub Ptr : Type 0
Ptr = ℕ

abbrev pub Level : Type 0
Level = List Ptr

abbrev pub Levels : Type 0
Levels = List (ℤ × Level)

-- The comparator of the map that holds the orders of a side.
unfoldable pub before : Side → ℤ → ℤ → Bool
before buy a b = ltb_ℤ b a
before sell a b = ltb_ℤ a b

-- `map[price].push_back(order)`
unfoldable pub push_back {ℓ} : {A : Type ℓ} → Side → ℤ → A → List (ℤ × List A) → List (ℤ × List A)
push_back side price order [] = (price, order ∷ []) ∷ []
push_back side price order ((p, level) ∷ rest) =
    let later = (p, level) ∷ push_back side price order rest in
    if before side price p
    then (price, order ∷ []) ∷ (p, level) ∷ rest
    else (if before side p price then later else (p, level ++ order ∷ []) ∷ rest)

-- The lambda `removeFromLevel` of `cancelLocked`: erase the orders that fail `keep` from the level
-- at `price`, and the level with them if it is then empty.
unfoldable pub remove_from_level : Side → ℤ → (Ptr → Bool) → Levels → Levels
remove_from_level side price keep [] = []
remove_from_level side price keep ((p, level) ∷ rest) =
    let kept = filter keep level in
    if not (before side price p) && not (before side p price)
    then (if is_empty kept then rest else (p, kept) ∷ rest)
    else (p, level) ∷ remove_from_level side price keep rest
