-- ===== src/Matching/Priority/Spent.antt =====
-- The orders that show nothing to trade, and what keeps them so.
use limit_order_book_matchin.Base.{
  ℕ, ◌≡◌, ◌≢◌, refl, sym, subst, ap, ◌∙◌, inl, inr, true, ◌==◌, List, [], ◌∷◌, ◌++◌, ℤ, arith,
  if◌then◌else◌,
}
use limit_order_book_matchin.Order.{
  Order, Side, fill, trigger, replenish, is_filled, is_iceberg, visible_qty,
}
use limit_order_book_matchin.PriceMap.{Ptr, Level, Levels}
use limit_order_book_matchin.OrderBook.State.{OrderBook, modify_object}
use limit_order_book_matchin.OrderBook.Sweep.{
  Sweep, exchange, match_front, execute, settle, available,
}
use limit_order_book_matchin.Matching.Cases.Loops.{settle_cases, match_front_cases}
use limit_order_book_matchin.Matching.Objects.{execute-object}

-- The orders of a side, best level first and oldest first in a level.
abbrev pub queue : Levels → List Ptr
queue [] = []
queue ((p, level) ∷ rest) = level ++ queue rest

-- Nothing of the order can be traded now.
abbrev pub IsSpent : Order → Type 0
IsSpent o = available o ≡ 0

fill-IsSpent : (o : Order) (qty : ℕ) → IsSpent o → IsSpent (fill o qty)
unfolding fill available is_iceberg visible_qty
fill-IsSpent o qty h = ground arith

filled-IsSpent : (o : Order) (qty : ℕ) → is_filled (fill o qty) ≡ true → IsSpent (fill o qty)
unfolding fill available is_iceberg visible_qty is_filled
filled-IsSpent o qty h = ground arith

trigger-IsSpent : (o : Order) → available (trigger o) ≡ available o
unfolding available is_iceberg visible_qty trigger
trigger-IsSpent o = refl

trigger-is_filled : (o : Order) → is_filled (trigger o) ≡ is_filled o
unfolding is_filled trigger
trigger-is_filled o = refl

-- An order that is spent stays so in a trade of another order with the front one.
exchange-IsSpent :
    (order resting p : Ptr) (qty : ℕ) (b : OrderBook)
    → IsSpent (b.object p)
    → IsSpent ((exchange order resting qty b).object p)
unfolding exchange modify_object
exchange-IsSpent order resting p qty b h =
    ground (arith, fill-IsSpent (b.object p) qty h, fill-IsSpent (fill (b.object p) qty) qty)

exchange-resting :
    (order resting : Ptr) (qty : ℕ) (b : OrderBook)
    → (o : Order) × ((exchange order resting qty b).object resting ≡ fill o qty)
unfolding exchange modify_object
exchange-resting order resting qty b =
    (if order == resting then fill (b.object order) qty else b.object resting, ground arith)

execute-IsSpent :
    (side : Side) (order resting p : Ptr) (price : ℤ) (qty : ℕ) (s : Sweep)
    → IsSpent (s.book.object p)
    → IsSpent ((execute side order resting price qty s).book.object p)
execute-IsSpent side order resting p price qty s h =
    elim (execute-object side order resting price qty s p) [
      | inl e ↦ subst IsSpent (sym e) (exchange-IsSpent order resting p qty s.book h)
      | inr e ↦
          subst IsSpent (sym e) (trigger-IsSpent _ ∙ exchange-IsSpent order resting p qty s.book h)
    ]

-- If the front order is filled, it is spent.
pub execute-filled :
    (side : Side) (order resting : Ptr) (price : ℤ) (qty : ℕ) (s : Sweep)
    → let r = (execute side order resting price qty s).book.object resting in
      is_filled r ≡ true → IsSpent r
execute-filled side order resting price qty s h =
    let (o, e) = exchange-resting order resting qty s.book in
    elim (execute-object side order resting price qty s resting) [
      | inl f ↦ subst IsSpent (sym (f ∙ e)) (filled-IsSpent o qty (sym (ap is_filled (f ∙ e)) ∙ h))
      | inr f ↦
          let g = f ∙ ap trigger e in
          subst IsSpent (sym g) (
            trigger-IsSpent (fill o qty)
            ∙ filled-IsSpent o qty
                (sym (trigger-is_filled (fill o qty)) ∙ sym (ap is_filled g) ∙ h))
    ]

modify_object-other :
    (p q : Ptr) (f : Order → Order) (b : OrderBook)
    → p ≢ q
    → (modify_object p f b).object q ≡ b.object q
unfolding modify_object
modify_object-other p q f b h = ground arith

settle-IsSpent :
    (resting p : Ptr) (rest : Level) (s : Sweep)
    → resting ≢ p
    → IsSpent (s.book.object p)
    → IsSpent ((settle resting rest s).book.object p)
settle-IsSpent resting p rest s apart h =
    settle_cases (λ t. IsSpent (t.book.object p)) resting rest s (λ _. h)
      (λ _ _ _. subst IsSpent (sym (modify_object-other resting p replenish s.book apart)) h)
      (λ _ _. h)

-- What is spent stays spent.
pub match_front-IsSpent :
    (side : Side) (order : Ptr) (price : ℤ) (resting : Ptr) (rest : Level) (s : Sweep) (p : Ptr)
    → IsSpent (s.book.object p)
    → IsSpent ((match_front side order price (resting ∷ rest) s).book.object p)
match_front-IsSpent side order price resting rest s p h =
    match_front_cases (λ t. IsSpent (t.book.object p)) side order price resting rest s (λ _. h)
      (λ a.
        settle-IsSpent resting p rest _ (λ e. a (subst (λ q. IsSpent (s.book.object q)) (sym e) h))
          (execute-IsSpent side order resting p price _ s h))
