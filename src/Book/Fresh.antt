-- ===== src/Book/Fresh.antt =====
-- A new order is made under a name that the book does not use, and leaves the book as it was; and what
-- `cancelOrder` and `modifyOrder` keep of the names.
use limit_order_book_matchin.Base.{
  ℕ, suc, ◌<◌, ◌≡◌, refl, sym, subst, Bool, not, List, [], ◌∷◌, ℤ, inl, inr, arith, ◌==◌, All,
  All-map, All-filter, Option-cases,
}
use limit_order_book_matchin.Order.{Order, Side, buy, sell, OrderKind, is_active, new_order}
use limit_order_book_matchin.Order.Quantities.{IsClosed}
use limit_order_book_matchin.PriceMap.{Ptr, Level, Levels, remove_from_level}
use limit_order_book_matchin.PriceMap.Sorted.{remove_from_level-All}
use limit_order_book_matchin.OrderBook.State.{
  OrderBook, levels, with_levels, modify_object, new_object, active_find, add_to_book,
}
use limit_order_book_matchin.OrderBook.Requests.{
  remove_order, cancel_order, replace_order, modify_order,
}
use limit_order_book_matchin.Matching.Frame.{add_to_book-Stable}
use limit_order_book_matchin.Book.Known.{
  Known, LevelsKnown, Known-same, with_levels-Known, add_to_book-Known,
}
use limit_order_book_matchin.Book.WellFormed.{
  IsAt, LevelOk, SideOk, IsWellFormed, add_to_book-IsWellFormed,
}
use limit_order_book_matchin.Book.Cancel.{cancel_order-IsWellFormed}

-- Every pointer in the levels and the lists of stops is to an object that has been made.
abbrev pub IsAllocated : OrderBook → Type 0
IsAllocated b = Known (λ p. p < b.next_ptr) b

All-both {ℓ} :
    {A : Type ℓ} (P Q R : A → Type 0) (xs : List A)
    → ((a : A) → P a → Q a → R a)
    → All P xs
    → All Q xs
    → All R xs
All-both P Q R [] f h k = tt
All-both P Q R (x ∷ xs) f h k = (f x h.0 k.0, All-both P Q R xs f h.1 k.1)

new_object-old :
    (o : Order) (b : OrderBook) (p : Ptr) → p < b.next_ptr → (new_object o b).object p ≡ b.object p
unfolding new_object
new_object-old o b p less = ground arith

new_object-SideOk :
    (side : Side) (o : Order) (b : OrderBook) (m : Levels)
    → LevelsKnown (λ p. p < b.next_ptr) m
    → SideOk side b.object m
    → SideOk side (new_object o b).object m
new_object-SideOk side o b m known h = (
  h.0,
  All-both (LevelOk side b.object) (λ e. All (λ p. p < b.next_ptr) e.1)
      (LevelOk side (new_object o b).object) m
      (λ e (some_left, at) less. (
        some_left,
        All-both (λ p. IsAt side e.0 (b.object p)) (λ p. p < b.next_ptr)
            (λ p. IsAt side e.0 ((new_object o b).object p)) e.1
            (λ p k less. subst (IsAt side e.0) (sym (new_object-old o b p less)) k) at less,
      ))
      h.1 known,
)

new_object-IsClosed :
    (o : Order) (b : OrderBook) (p : Ptr)
    → IsClosed o
    → IsClosed (b.object p)
    → IsClosed ((new_object o b).object p)
unfolding new_object
new_object-IsClosed o b p new old = ground arith

pub new_object-IsWellFormed :
    (o : Order) (b : OrderBook)
    → IsClosed o
    → IsAllocated b
    → IsWellFormed b
    → IsWellFormed (new_object o b)
unfolding new_object
new_object-IsWellFormed o b closed known w = record {
  sides = by_side;
  closed = λ p. new_object-IsClosed o b p closed (w.closed p);
}
  where
    by_side : (side : Side) → SideOk side (new_object o b).object (levels side (new_object o b))
    by_side buy = new_object-SideOk buy o b b.bids (known.sides buy) (w.sides buy)
    by_side sell = new_object-SideOk sell o b b.asks (known.sides sell) (w.sides sell)

LevelsKnown-map :
    (R S : Ptr → Type 0) (m : Levels) → ((p : Ptr) → R p → S p) → LevelsKnown R m → LevelsKnown S m
LevelsKnown-map R S m f = All-map (λ e. All R e.1) (λ e. All S e.1) m (λ e. All-map R S e.1 f)

Known-map : (R S : Ptr → Type 0) (b : OrderBook) → ((p : Ptr) → R p → S p) → Known R b → Known S b
Known-map R S b f k = record {
  sides = λ side. LevelsKnown-map R S (levels side b) f (k.sides side);
  stops = (All-map R S b.pending_stops f k.stops.0, All-map R S b.triggered_stops f k.stops.1);
}

pub new_object-IsAllocated :
    (o : Order) (b : OrderBook) → IsAllocated b → IsAllocated (new_object o b)
unfolding new_object
new_object-IsAllocated o b k = Known-same (λ p. p < suc b.next_ptr) b _ refl refl up.stops up
  where
    up : Known (λ p. p < suc b.next_ptr) b
    up = Known-map (λ p. p < b.next_ptr) (λ p. p < suc b.next_ptr) b (λ p less. omega arith) k

-- The new name is below the next one.
pub new_object-next : (o : Order) (b : OrderBook) → b.next_ptr < (new_object o b).next_ptr
unfolding new_object
new_object-next o b = omega arith

pub remove_order-Known :
    (R : Ptr → Type 0) (id : ℕ) (p : Ptr) (b : OrderBook)
    → Known R b
    → Known R (remove_order id p b)
unfolding remove_order modify_object
remove_order-Known R id p b w = Known-same R shorter _ refl refl k.stops k
  where
    o : Order
    o = b.object p

    keep : Ptr → Bool
    keep q = not ((b.object q).id == id)

    shorter : OrderBook
    shorter = with_levels o.side (remove_from_level o.side o.price keep (levels o.side b)) b

    k : Known R shorter
    k =
        with_levels-Known R o.side _ b
          (remove_from_level-All (λ (e : ℤ × Level). All R e.1) o.side o.price keep
            (levels o.side b) (λ price level _ h. All-filter R keep level h) (w.sides o.side))
          w

pub remove_order-next :
    (id : ℕ) (p : Ptr) (b : OrderBook) → (remove_order id p b).next_ptr ≡ b.next_ptr
unfolding remove_order modify_object
remove_order-next id p b = by_side (b.object p).side _
  where
    by_side : (side : Side) (m : Levels) → (with_levels side m b).next_ptr ≡ b.next_ptr
    by_side buy m = refl
    by_side sell m = refl

pub cancel_order-next : (id : ℕ) (b : OrderBook) → (cancel_order id b).0.next_ptr ≡ b.next_ptr
unfolding cancel_order
cancel_order-next id b = elim (Option-cases (active_find id b.active_orders)) [
  | inl e ↦ rw (e, cancel_order) refl
  | inr (p, e) ↦ rw (e, cancel_order) (remove_order-next id p b)
]

pub cancel_order-Known :
    (R : Ptr → Type 0) (id : ℕ) (b : OrderBook) → Known R b → Known R (cancel_order id b).0
unfolding cancel_order
cancel_order-Known R id b w = elim (Option-cases (active_find id b.active_orders)) [
  | inl e ↦ rw (e, cancel_order) w
  | inr (p, e) ↦ rw (e, cancel_order) (remove_order-Known R id p b w)
]

pub cancel_order-IsAllocated :
    (id : ℕ) (b : OrderBook) → IsAllocated b → IsAllocated (cancel_order id b).0
cancel_order-IsAllocated id b k =
    subst (λ n. Known (λ p. p < n) (cancel_order id b).0) (sym (cancel_order-next id b))
      (cancel_order-Known (λ p. p < b.next_ptr) id b k)

pub new_order-IsClosed :
    (id : ℕ) (ts : ℤ) (side : Side) (kind : OrderKind) (price : ℤ) (qty : ℕ)
    → IsClosed (new_order id ts side kind price qty)
unfolding new_order is_active
new_order-IsClosed id ts side kind price qty = λ h. ground arith

-- `modifyOrder` keeps the book well formed and allocated.
replace_order-kept :
    (id : ℕ) (p : Ptr) (price : ℤ) (qty : ℕ) (ts : ℤ) (b : OrderBook)
    → IsAllocated b
    → IsWellFormed b
    → IsWellFormed (replace_order id p price qty ts b)
      × IsAllocated (replace_order id p price qty ts b)
unfolding replace_order
replace_order-kept id p price qty ts b k w = (
  add_to_book-IsWellFormed b.next_ptr d (
      cancel_order-IsWellFormed id c
        (new_object-IsWellFormed o b (new_order-IsClosed _ ts _ _ price qty) k w)),
  subst (λ n. Known (λ p. p < n) (add_to_book b.next_ptr d))
      (sym (add_to_book-Stable b.next_ptr d).next_ptr)
      (add_to_book-Known (λ p. p < d.next_ptr) b.next_ptr d
        (subst (λ n. b.next_ptr < n) (sym (cancel_order-next id c)) (new_object-next o b))
        (cancel_order-IsAllocated id c (new_object-IsAllocated o b k))),
)
  where
    o : Order
    o = new_order (b.object p).id ts (b.object p).side (b.object p).kind price qty

    c : OrderBook
    c = new_object o b

    d : OrderBook
    d = (cancel_order id c).0

-- From a well-formed book whose levels and stops point to orders that were made, `modifyOrder` gives
-- such a book, whether the id is known or not.
pub modify_order-IsWellFormed :
    (id : ℕ) (price : ℤ) (qty : ℕ) (ts : ℤ) (b : OrderBook)
    → IsAllocated b
    → IsWellFormed b
    → let c = (modify_order id price qty ts b).0 in IsWellFormed c × IsAllocated c
unfolding modify_order
modify_order-IsWellFormed id price qty ts b k w =
    elim (Option-cases (active_find id b.active_orders)) [
      | inl e ↦ rw (e, modify_order) (w, k)
      | inr (p, e) ↦ rw (e, modify_order) (replace_order-kept id p price qty ts b k w)
    ]
