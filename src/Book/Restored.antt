-- ===== src/Book/Restored.antt =====
-- `cancelOrder` of src/orderbook.cpp undoes `addToBook`.
use limit_order_book_matchin.Base.{
  ℕ, ◌≤◌, ◌≡◌, ◌≢◌, refl, ap, ◌∙◌, inl, inr, Bool, true, false, not, ◌==◌, List, [], ◌∷◌, ◌++◌,
  some, none, ℤ, arith, All, All-map, Bool-cases, filter, is_empty,
}
use limit_order_book_matchin.Order.{Order, Side, buy, sell, cancel}
use limit_order_book_matchin.PriceMap.{Ptr, Level, Levels, before, push_back, remove_from_level}
use limit_order_book_matchin.PriceMap.Sorted.{before_irrefl, remove_from_level-cons}
use limit_order_book_matchin.OrderBook.State.{
  OrderBook, levels, with_levels, active_find, active_set, active_erase, add_to_book, modify_object,
}
use limit_order_book_matchin.OrderBook.Requests.{cancel_order, remove_order}
use limit_order_book_matchin.Matching.Priority.Spent.{queue}
use limit_order_book_matchin.Book.Known.{LevelsKnown}
use limit_order_book_matchin.Book.WellFormed.{LevelOk, IsWellFormed}
use limit_order_book_matchin.Book.Tally.{tally, tally_zero}
use limit_order_book_matchin.Book.Index.{active_find-set}
use limit_order_book_matchin.Book.Indexing.Entries.{queue-LevelsKnown}
use limit_order_book_matchin.Book.Renamed.{id_of, IsListed}
use limit_order_book_matchin.Book.Numbering.{total_unused, find_unused}

filter-added :
    {A : Type 0} (keep : A → Bool) (x : A) (xs : List A)
    → keep x ≡ false
    → All (λ y. keep y ≡ true) xs
    → filter keep (xs ++ x ∷ []) ≡ xs
filter-added keep x [] drop h = rw drop refl
filter-added keep x (y ∷ ys) drop h = rw (h.0, filter-added keep x ys drop h.1) refl

-- A new order at the back of its level, taken out again.
remove_from_level-push_back :
    (side : Side) (price : ℤ) (order : Ptr) (keep : Ptr → Bool) (m : Levels)
    → keep order ≡ false
    → All (λ (e : ℤ × Level). (is_empty e.1 ≡ false) × All (λ p. keep p ≡ true) e.1) m
    → remove_from_level side price keep (push_back side price order m) ≡ m
unfolding push_back
remove_from_level-push_back side price order keep [] drop h =
    let z = before_irrefl side price in
    rw (remove_from_level-cons side price keep price (order ∷ []) [], z, drop) refl
remove_from_level-push_back side price order keep ((p, level) ∷ rest) drop h =
    elim (Bool-cases (before side price p)) [
      | inl e ↦
          let z = before_irrefl side price in
          rw e (
            rw
              (
                remove_from_level-cons side price keep price (order ∷ []) ((p, level) ∷ rest),
                z,
                drop,
              )
              refl)
      | inr e ↦ elim (Bool-cases (before side p price)) [
        | inl f ↦
            rw (e, f)
              (rw
                (
                  remove_from_level-cons side price keep p level (push_back side price order rest),
                  e,
                  f,
                )
                (ap (λ l. (p, level) ∷ l)
                  (remove_from_level-push_back side price order keep rest drop h.1)))
        | inr f ↦
            rw (e, f)
              (rw
                (
                  remove_from_level-cons side price keep p (level ++ order ∷ []) rest,
                  e,
                  f,
                  filter-added keep order level drop h.0.1,
                  h.0.0,
                )
                refl)
      ]
    ]

active_erase-set :
    (id : ℕ) (p : Ptr) (m : List (ℕ × Ptr))
    → active_find id m ≡ none
    → active_erase id (active_set id p m) ≡ m
unfolding active_find active_set active_erase
active_erase-set id p [] h = ground arith
active_erase-set id p ((i, q) ∷ rest) h = elim (Bool-cases (i == id)) [
  | inl e ↦ absurd (let k : some q ≡ none = rw e at h in cc)
  | inr e ↦ rw e (rw e (ap (λ l. (i, q) ∷ l) (active_erase-set id p rest (rw e at h))))
]

-- `c` is `b` but for the order, which is cancelled.
pub record Restored (order : Ptr) (b c : OrderBook) : Type 0 where
  pub bids : c.bids ≡ b.bids
  pub asks : c.asks ≡ b.asks
  pub active_orders : c.active_orders ≡ b.active_orders
  pub pending_stops : c.pending_stops ≡ b.pending_stops
  pub cancelled : c.object order ≡ cancel (b.object order)
  pub others : (p : Ptr) → p ≢ order → c.object p ≡ b.object p

module _ (order : Ptr) (b : OrderBook) where
  abbrev o : Order
  o = b.object order

  abbrev keep : Ptr → Bool
  keep p = not ((b.object p).id == o.id)

  abbrev KeptLevels : Levels → Type 0
  KeptLevels = All (λ (e : ℤ × Level). (is_empty e.1 ≡ false) × All (λ p. keep p ≡ true) e.1)

  added-found : active_find o.id (add_to_book order b).active_orders ≡ some order
  unfolding add_to_book
  added-found = by_side o.side
    where
      by_side :
          (x : Side)
          → active_find o.id (
              active_set o.id order
                (with_levels x (push_back x o.price order (levels x b)) b).active_orders)
            ≡ some order
      by_side buy = active_find-set o.id o.id order b.active_orders ∙ ground arith
      by_side sell = active_find-set o.id o.id order b.active_orders ∙ ground arith

  remove_order-Restored :
      ((side : Side) → KeptLevels (levels side b))
      → active_find o.id b.active_orders ≡ none
      → Restored order b (remove_order o.id order (add_to_book order b))
  unfolding remove_order add_to_book modify_object
  remove_order-Restored others fresh = by_side o.side refl
    where
      drop : keep order ≡ false
      drop = ground arith

      gone :
          (x : Side)
          → remove_from_level x o.price keep (push_back x o.price order (levels x b)) ≡ levels x b
      gone x = remove_from_level-push_back x o.price order keep (levels x b) drop (others x)

      by_side :
          (x : Side) → o.side ≡ x → Restored order b (remove_order o.id order (add_to_book order b))
      by_side buy e = rw e (
          rw e (record {
            bids = gone buy;
            asks = refl;
            active_orders = active_erase-set o.id order b.active_orders fresh;
            pending_stops = refl;
            cancelled = ground arith;
            others = λ p ne. ground (arith, ne);
          }))
      by_side sell e = rw e (
          rw e (record {
            bids = refl;
            asks = gone sell;
            active_orders = active_erase-set o.id order b.active_orders fresh;
            pending_stops = refl;
            cancelled = ground arith;
            others = λ p ne. ground (arith, ne);
          }))

-- In a well-formed, listed book, `cancelOrder` undoes `addToBook` for an order whose id is new: it finds
-- the order by its id, and leaves both sides, `active_`, the pending stops and the other orders as they
-- were before, and the order cancelled.
pub cancel_order-add_to_book :
    (n : ℕ) (order : Ptr) (b : OrderBook)
    → IsWellFormed b
    → IsListed n b
    → n ≤ (b.object order).id
    → let r = cancel_order (b.object order).id (add_to_book order b) in
      (r.1 ≡ true) × Restored order b r.0
unfolding cancel_order
cancel_order-add_to_book n order b w h new =
    rw (added-found order b, cancel_order)
      (refl, remove_order-Restored order b kept (find_unused n (b.object order).id b new h))
  where
    id : ℕ
    id = (b.object order).id

    none_of :
        (ps : List Ptr)
        → tally (id_of b) id ps ≡ 0
        → All (λ p. not ((b.object p).id == id) ≡ true) ps
    none_of ps z =
        All-map (λ p. id_of b p ≢ id) (λ p. not ((b.object p).id == id) ≡ true) ps
          (λ p ne. ground (arith, ne)) (tally_zero (id_of b) id ps z)

    none_in : (side : Side) → tally (id_of b) id (queue (levels side b)) ≡ 0
    none_in buy = omega (arith, total_unused n id b new h)
    none_in sell = omega (arith, total_unused n id b new h)

    join :
        (side : Side) (m : Levels)
        → All (LevelOk side b.object) m
        → LevelsKnown (λ p. not ((b.object p).id == id) ≡ true) m
        → All
            (λ (e : ℤ × Level).
              (is_empty e.1 ≡ false) × All (λ p. not ((b.object p).id == id) ≡ true) e.1)
            m
    join side [] f g = tt
    join side (e ∷ m) f g = ((f.0.0, g.0), join side m f.1 g.1)

    kept : (side : Side) → KeptLevels order b (levels side b)
    kept side =
        join side (levels side b) (w.sides side).1
          (queue-LevelsKnown _ (levels side b) (none_of (queue (levels side b)) (none_in side)))
