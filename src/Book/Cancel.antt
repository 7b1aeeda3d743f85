-- ===== src/Book/Cancel.antt =====
-- `cancelOrder` of src/orderbook.cpp: what it removes, and what it leaves.
use limit_order_book_matchin.Base.{
  ℕ, ◌≡◌, refl, Bool, not, ◌==◌, List, [], ◌∷◌, none, arith, All-filter, Bool-cases, Option-cases,
  inl, inr, if◌then◌else◌,
}
use limit_order_book_matchin.Order.{Order, Side, buy, sell, cancel}
use limit_order_book_matchin.Order.Quantities.{IsClosed, cancel-IsClosed}
use limit_order_book_matchin.PriceMap.{Ptr, Levels, remove_from_level}
use limit_order_book_matchin.PriceMap.Sorted.{remove_from_level-All, remove_from_level-IsSorted}
use limit_order_book_matchin.OrderBook.State.{
  OrderBook, levels, with_levels, modify_object, active_find, active_erase,
}
use limit_order_book_matchin.OrderBook.Requests.{cancel_order, remove_order}
use limit_order_book_matchin.Matching.Frame.Scan.{terms}
use limit_order_book_matchin.Book.WellFormed.{
  IsAt, LevelOk, SideOk-terms, IsWellFormed, with_levels-IsWellFormed,
}

pub active_find-erase :
    (i j : ℕ) (m : List (ℕ × Ptr))
    → active_find j (active_erase i m) ≡ (if i == j then none else active_find j m)
unfolding active_find active_erase
active_find-erase i j [] = ground arith
active_find-erase i j ((k, p) ∷ m) = ground (arith, active_find-erase i j m)

terms-cancel : (o : Order) → terms (cancel o) ≡ terms o
unfolding cancel
terms-cancel o = refl

pub cancel_object-terms :
    (p : Ptr) (b : OrderBook) (q : Ptr)
    → terms ((modify_object p cancel b).object q) ≡ terms (b.object q)
unfolding modify_object
cancel_object-terms p b q = ground (arith, terms-cancel (b.object p))

cancel_object-IsClosed :
    (p : Ptr) (b : OrderBook) (q : Ptr)
    → IsClosed (b.object q)
    → IsClosed ((modify_object p cancel b).object q)
unfolding modify_object
cancel_object-IsClosed p b q h = elim (Bool-cases (p == q)) [
  | inl e ↦ rw (e, if◌then◌else◌) (cancel-IsClosed (b.object p))
  | inr e ↦ rw (e, if◌then◌else◌) h
]

pub cancel_object-levels :
    (p : Ptr) (b : OrderBook) (side : Side) → levels side (modify_object p cancel b) ≡ levels side b
unfolding modify_object
cancel_object-levels p b buy = refl
cancel_object-levels p b sell = refl

pub erase-levels :
    (n : List (ℕ × Ptr)) (b : OrderBook) (side : Side)
    → levels side (record b { active_orders = n }) ≡ levels side b
erase-levels n b buy = refl
erase-levels n b sell = refl

remove_order-IsWellFormed :
    (id : ℕ) (p : Ptr) (b : OrderBook) → IsWellFormed b → IsWellFormed (remove_order id p b)
unfolding remove_order
remove_order-IsWellFormed id p b w = record {
  sides = λ side.
      rw
        (
          erase-levels (active_erase id (modify_object p cancel shorter).active_orders)
              (modify_object p cancel shorter) side,
          cancel_object-levels p shorter side,
        )
        (SideOk-terms side shorter.object (modify_object p cancel shorter).object
          (cancel_object-terms p shorter) (levels side shorter) (v.sides side));
  closed = λ q. cancel_object-IsClosed p shorter q (v.closed q);
}
  where
    o : Order
    o = b.object p

    keep : Ptr → Bool
    keep q = not ((b.object q).id == id)

    left : Levels
    left = remove_from_level o.side o.price keep (levels o.side b)

    shorter : OrderBook
    shorter = with_levels o.side left b

    v : IsWellFormed shorter
    v =
        with_levels-IsWellFormed o.side left b
          (
            remove_from_level-IsSorted o.side o.price keep (levels o.side b) (w.sides o.side).0,
            remove_from_level-All (LevelOk o.side b.object) o.side o.price keep (levels o.side b)
                (λ price level some_left h.
                  (some_left, All-filter (λ q. IsAt o.side price (b.object q)) keep level h.1))
                (w.sides o.side).1,
          )
          w

-- `cancelOrder` keeps a well-formed book well formed, whether the id is known or not.
pub cancel_order-IsWellFormed :
    (id : ℕ) (b : OrderBook) → IsWellFormed b → IsWellFormed (cancel_order id b).0
unfolding cancel_order
cancel_order-IsWellFormed id b w = elim (Option-cases (active_find id b.active_orders)) [
  | inl e ↦ rw (e, cancel_order) w
  | inr (p, e) ↦ rw (e, cancel_order) (remove_order-IsWellFormed id p b w)
]
