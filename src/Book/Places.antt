-- ===== src/Book/Places.antt =====
-- What the lambda `removeFromLevel` of `cancelLocked` in src/orderbook.cpp leaves in place.
use limit_order_book_matchin.Base.{
  ◌≡◌, refl, sym, ap, ◌∙◌, Bool, true, List, [], ◌∷◌, ◌++◌, ℤ, arith, filter, filter-ext,
  filter-filter, is_empty,
}
use limit_order_book_matchin.Order.{Side, buy, sell}
use limit_order_book_matchin.PriceMap.{Ptr, Levels, remove_from_level}
use limit_order_book_matchin.PriceMap.Sorted.{remove_from_level_cases, remove_from_level_nil}
use limit_order_book_matchin.OrderBook.State.{OrderBook, levels, with_levels, opposite}
use limit_order_book_matchin.Matching.Priority.Spent.{queue}

filter-append :
    (keep : Ptr → Bool) (xs ys : List Ptr)
    → filter keep (xs ++ ys) ≡ filter keep xs ++ filter keep ys
filter-append keep [] ys = refl
filter-append keep (x ∷ xs) ys = ground (arith, filter-append keep xs ys)

filter-twice : (keep : Ptr → Bool) (xs : List Ptr) → filter keep (filter keep xs) ≡ filter keep xs
filter-twice keep xs = filter-filter keep keep xs ∙ filter-ext _ keep xs (λ x. ground arith)

nil_of_empty : (xs : List Ptr) → is_empty xs ≡ true → xs ≡ []
nil_of_empty [] h = refl
nil_of_empty (x ∷ xs) h = cc

-- The removal drops no order that passes the test, and moves none.
pub remove_from_level-queue :
    (side : Side) (price : ℤ) (keep : Ptr → Bool) (m : Levels)
    → filter keep (queue (remove_from_level side price keep m)) ≡ filter keep (queue m)
remove_from_level-queue side price keep [] =
    remove_from_level_nil (λ n. filter keep (queue n) ≡ []) side price keep refl
remove_from_level-queue side price keep ((p, level) ∷ rest) =
    remove_from_level_cases (λ n. filter keep (queue n) ≡ filter keep (level ++ queue rest)) side
      price keep p level rest
      (λ _ f.
        sym (whole ∙ ap (λ l. l ++ filter keep (queue rest)) (nil_of_empty (filter keep level) f)))
      (λ _ _.
        filter-append keep (filter keep level) (queue rest)
        ∙ ap (λ l. l ++ filter keep (queue rest)) (filter-twice keep level)
        ∙ sym whole)
      (λ _.
        filter-append keep level (queue (remove_from_level side price keep rest))
        ∙ ap (λ l. filter keep level ++ l) (remove_from_level-queue side price keep rest)
        ∙ sym whole)
  where
    whole : filter keep (level ++ queue rest) ≡ filter keep level ++ filter keep (queue rest)
    whole = filter-append keep level (queue rest)

pub with_levels-facing :
    (side : Side) (m : Levels) (b : OrderBook)
    → levels (opposite side) (with_levels side m b) ≡ levels (opposite side) b
with_levels-facing buy m b = refl
with_levels-facing sell m b = refl
