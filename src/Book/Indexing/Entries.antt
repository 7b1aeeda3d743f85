-- ===== src/Book/Indexing/Entries.antt =====
-- The orders that rest in the levels, and what `addToBook` does to the parts of the book.
use limit_order_book_matchin.Base.{ℕ, ◌≡◌, refl, List, [], ◌∷◌, ◌++◌, ℤ, All, All-append}
use limit_order_book_matchin.Order.{Side, buy, sell}
use limit_order_book_matchin.PriceMap.{Ptr, Level, Levels, push_back}
use limit_order_book_matchin.PriceMap.Sorted.{push_back-All}
use limit_order_book_matchin.OrderBook.State.{
  OrderBook, modify_object, levels, with_levels, opposite, active_set, add_to_book,
}
use limit_order_book_matchin.OrderBook.Sweep.{Sweep, exchange, record_trade, execute}
use limit_order_book_matchin.Matching.Frame.{check_stop_triggers-Scanned}
use limit_order_book_matchin.Matching.Priority.Spent.{queue}
use limit_order_book_matchin.Book.Known.{LevelsKnown}

-- The orders that rest in the levels, those of the other side first.
abbrev pub resting_orders : Side → OrderBook → List Ptr
resting_orders side b = queue (levels (opposite side) b) ++ queue (levels side b)

pub All-split : (R : Ptr → Type 0) (xs ys : List Ptr) → All R (xs ++ ys) → All R xs × All R ys
All-split R [] ys h = (tt, h)
All-split R (x ∷ xs) ys h = let k = All-split R xs ys h.1 in ((h.0, k.0), k.1)

pub LevelsKnown-queue : (R : Ptr → Type 0) (m : Levels) → LevelsKnown R m → All R (queue m)
LevelsKnown-queue R [] h = tt
LevelsKnown-queue R ((p, level) ∷ rest) h =
    All-append R level (queue rest) h.0 (LevelsKnown-queue R rest h.1)

pub queue-LevelsKnown : (R : Ptr → Type 0) (m : Levels) → All R (queue m) → LevelsKnown R m
queue-LevelsKnown R [] h = tt
queue-LevelsKnown R ((p, level) ∷ rest) h =
    let k = All-split R level (queue rest) h in (k.0, queue-LevelsKnown R rest k.1)

pub queue-push_back :
    (R : Ptr → Type 0) (side : Side) (price : ℤ) (order : Ptr) (m : Levels)
    → R order
    → All R (queue m)
    → All R (queue (push_back side price order m))
queue-push_back R side price order m new old = LevelsKnown-queue R (push_back side price order m) (
    push_back-All (λ (e : ℤ × Level). All R e.1) side price order m (new, tt)
      (λ p level _ h. All-append R level (order ∷ []) h (new, tt)) (queue-LevelsKnown R m old))

pub execute-active :
    (side : Side) (order resting : Ptr) (price : ℤ) (qty : ℕ) (s : Sweep)
    → (execute side order resting price qty s).book.active_orders ≡ s.book.active_orders
unfolding execute exchange record_trade modify_object
execute-active side order resting price qty s = (check_stop_triggers-Scanned price _).active_orders

-- What `addToBook` does to the parts of the book.
pub record Entered (side : Side) (order : Ptr) (b c : OrderBook) : Type 0 where
  pub facing : levels (opposite side) c ≡ levels (opposite side) b
  pub own_side : levels side c ≡ push_back side (b.object order).price order (levels side b)
  pub active : c.active_orders ≡ active_set (b.object order).id order b.active_orders
  pub pending : c.pending_stops ≡ b.pending_stops
  pub triggered : c.triggered_stops ≡ b.triggered_stops

pub add_to_book-Entered :
    (side : Side) (order : Ptr) (b : OrderBook)
    → (b.object order).side ≡ side
    → Entered side order b (add_to_book order b)
unfolding add_to_book
add_to_book-Entered side order b own = rw own (entered side)
  where
    entered :
        (x : Side)
        → let d = with_levels x (push_back x (b.object order).price order (levels x b)) b in
          Entered x order b
            (record d { active_orders = active_set (b.object order).id order d.active_orders })
    entered buy = record {
      facing = refl;
      own_side = refl;
      active = refl;
      pending = refl;
      triggered = refl;
    }
    entered sell = record {
      facing = refl;
      own_side = refl;
      active = refl;
      pending = refl;
      triggered = refl;
    }
