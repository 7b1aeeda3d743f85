-- ===== src/Book/Removed.antt =====
-- `cancelOrder` of src/orderbook.cpp finds the order by its id, cancels it and forgets it.
use limit_order_book_matchin.Base.{
  ℕ, ◌≡◌, ◌≢◌, refl, sym, subst, ap, ◌∙◌, ◌⊎◌, Bool, true, false, not, ◌&&◌, ◌==◌, ==_refl, List,
  [], ◌∷◌, none, some, ℤ, arith, All, All-map, Option-cases, inl, inr, if◌then◌else◌, filter,
}
use limit_order_book_matchin.Matching.Priority.Spent.{queue}
use limit_order_book_matchin.OrderBook.State.{opposite}
use limit_order_book_matchin.Book.Places.{remove_from_level-queue, with_levels-facing}
use limit_order_book_matchin.Order.{Order, Side, buy, sell, cancelled, cancel}
use limit_order_book_matchin.PriceMap.{Ptr, Level, Levels, before, remove_from_level}
use limit_order_book_matchin.PriceMap.Sorted.{
  IsSorted, before_irrefl, remove_from_level_cases, remove_from_level_nil,
}
use limit_order_book_matchin.OrderBook.State.{
  OrderBook, levels, with_levels, modify_object, active_find,
}
use limit_order_book_matchin.OrderBook.Requests.{cancel_order, remove_order}
use limit_order_book_matchin.Book.WellFormed.{IsWellFormed}
use limit_order_book_matchin.Book.Cancel.{active_find-erase, erase-levels, cancel_object-levels}

filter-All : (keep : Ptr → Bool) (xs : List Ptr) → All (λ q. keep q ≡ true) (filter keep xs)
filter-All keep [] = tt
filter-All keep (x ∷ xs) = ground (arith, filter-All keep xs)

abbrev Clean : ℤ → (Ptr → Bool) → ℤ × Level → Type 0
Clean price keep e = e.0 ≡ price → All (λ q. keep q ≡ true) e.1

-- No level below that of the price has the price.
below_other :
    (side : Side) (p price q : ℤ)
    → (not (before side price p) && not (before side p price)) ≡ true
    → before side p q ≡ true
    → q ≡ price
    → ⊥
below_other side p price q e k f =
    let g : before side p price ≡ true = subst (λ y. before side p y ≡ true) f k in ground arith

other_level :
    (side : Side) (p price : ℤ)
    → (not (before side price p) && not (before side p price)) ≡ false
    → p ≡ price
    → ⊥
other_level side p price e f =
    let g : (not (before side price price) && not (before side price price)) ≡ false =
      subst (λ y. (not (before side price y) && not (before side y price)) ≡ false) f e in
    ground (arith, before_irrefl side price)

-- Nothing that fails `keep` is left in the level at the price.
remove_from_level-removed :
    (side : Side) (price : ℤ) (keep : Ptr → Bool) (m : Levels)
    → IsSorted side m
    → All (Clean price keep) (remove_from_level side price keep m)
remove_from_level-removed side price keep [] h =
    remove_from_level_nil (All (Clean price keep)) side price keep tt
remove_from_level-removed side price keep ((p, level) ∷ rest) h =
    remove_from_level_cases (All (Clean price keep)) side price keep p level rest (λ e _. below e)
      (λ e _. ((λ _. filter-All keep level), below e))
      (λ e. (
        (λ f. absurd (other_level side p price e f)),
        remove_from_level-removed side price keep rest h.1,
      ))
  where
    below :
        (not (before side price p) && not (before side p price)) ≡ true
        → All (Clean price keep) rest
    below e =
        All-map (λ (x : ℤ × Level). before side p x.0 ≡ true) (Clean price keep) rest
          (λ x k f. absurd (below_other side p price x.0 e k f)) h.0

with_levels_self :
    (side : Side) (m : Levels) (b : OrderBook) → levels side (with_levels side m b) ≡ m
with_levels_self buy m b = refl
with_levels_self sell m b = refl

with_levels-active :
    (side : Side) (m : Levels) (b : OrderBook)
    → (with_levels side m b).active_orders ≡ b.active_orders
with_levels-active buy m b = refl
with_levels-active sell m b = refl

-- What a cancellation of `id`, whose order is `p`, comes to.
pub record Removed (id : ℕ) (p : Ptr) (b c : OrderBook) : Type 0 where
  pub status : (c.object p).status ≡ cancelled
  pub leaves : (c.object p).leaves_qty ≡ 0
  pub forgotten : active_find id c.active_orders ≡ none
  pub others : (j : ℕ) → j ≢ id → active_find j c.active_orders ≡ active_find j b.active_orders
  pub places :
      let o = b.object p in
      let keep = λ (q : Ptr). not ((b.object q).id == id) in
      filter keep (queue (levels o.side c)) ≡ filter keep (queue (levels o.side b))
  pub facing : let o = b.object p in levels (opposite o.side) c ≡ levels (opposite o.side) b
  pub level :
      let o = b.object p in
      All (λ (e : ℤ × Level). e.0 ≡ o.price → All (λ q. (b.object q).id ≢ id) e.1) (levels o.side c)

-- The level of the order, after the removal.
pub remove_order-level :
    (id : ℕ) (p : Ptr) (b : OrderBook)
    → let o = b.object p in
      levels o.side (remove_order id p b)
      ≡ remove_from_level o.side o.price (λ q. not ((b.object q).id == id)) (levels o.side b)
unfolding remove_order
remove_order-level id p b =
    let o = b.object p in
    let left =
      remove_from_level o.side o.price (λ q. not ((b.object q).id == id)) (levels o.side b) in
    let shorter = with_levels o.side left b in
    erase-levels _ (modify_object p cancel shorter) o.side
    ∙ cancel_object-levels p shorter o.side
    ∙ with_levels_self o.side left b

ne_of_not_eq : (a b : ℕ) → not (a == b) ≡ true → a ≢ b
ne_of_not_eq a b h = ground arith

if_ne {ℓ} : {A : Type ℓ} (i j : ℕ) (x y : A) → j ≢ i → (if i == j then x else y) ≡ y
if_ne i j x y h = ground arith

pub remove_order-Removed :
    (id : ℕ) (p : Ptr) (b : OrderBook) → IsWellFormed b → Removed id p b (remove_order id p b)
unfolding remove_order modify_object cancel
remove_order-Removed id p b w = record {
  status = ground (arith, ==_refl p);
  leaves = ground (arith, ==_refl p);
  forgotten = active_find-erase id id _ ∙ rw (==_refl id) refl;
  others = λ j h.
      active_find-erase id j _
      ∙ if_ne id j none _ h
      ∙ ap (active_find j) (with_levels-active o.side left b);
  places =
      ap (λ m. filter keep (queue m)) (remove_order-level id p b)
      ∙ remove_from_level-queue o.side o.price keep (levels o.side b);
  facing =
      erase-levels _ (modify_object p cancel (with_levels o.side left b)) (opposite o.side)
      ∙ cancel_object-levels p (with_levels o.side left b) (opposite o.side)
      ∙ with_levels-facing o.side left b;
  level =
      subst (All (λ (e : ℤ × Level). e.0 ≡ o.price → All (λ q. (b.object q).id ≢ id) e.1))
        (sym (remove_order-level id p b))
        (All-map (Clean o.price keep)
          (λ (e : ℤ × Level). e.0 ≡ o.price → All (λ q. (b.object q).id ≢ id) e.1) left
          (λ e h f.
            All-map (λ q. keep q ≡ true) (λ q. (b.object q).id ≢ id) e.1
              (λ q. ne_of_not_eq (b.object q).id id) (h f))
          (remove_from_level-removed o.side o.price keep (levels o.side b) (w.sides o.side).0));
}
  where
    o : Order
    o = b.object p

    keep : Ptr → Bool
    keep q = not ((b.object q).id == id)

    left : Levels
    left = remove_from_level o.side o.price keep (levels o.side b)

-- In a well-formed book `cancelOrder` succeeds exactly when the id is known. It then marks the order as
-- cancelled with nothing left, removes its id from the level of its price, leaves the orders of other
-- ids in their places and the other side as it was, and forgets that id and no other; if the id is not
-- known, nothing changes.
pub cancel_order-Removed :
    (id : ℕ) (b : OrderBook)
    → IsWellFormed b
    → let c = cancel_order id b in
      ((active_find id b.active_orders ≡ none) × (c ≡ (b, false)))
      ⊎ ((p : Ptr) × (active_find id b.active_orders ≡ some p) × (c.1 ≡ true) × Removed id p b c.0)
unfolding cancel_order
cancel_order-Removed id b w = elim (Option-cases (active_find id b.active_orders)) [
  | inl e ↦ inl (e, rw (e, cancel_order) refl)
  | inr (p, e) ↦
      inr (p, e, rw (e, cancel_order) refl, rw (e, cancel_order) (remove_order-Removed id p b w))
]

-- In a well-formed book an order is cancelled once: a second request for the same id fails.
pub cancel_order_twice :
    (id : ℕ) (b : OrderBook) → IsWellFormed b → (cancel_order id (cancel_order id b).0).1 ≡ false
unfolding cancel_order
cancel_order_twice id b w = elim (Option-cases (active_find id b.active_orders)) [
  | inl e ↦ rw (e, cancel_order) (rw (e, cancel_order) refl)
  | inr (p, e) ↦
      rw (e, cancel_order) (rw ((remove_order-Removed id p b w).forgotten, cancel_order) refl)
]
