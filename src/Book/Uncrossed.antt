-- ===== src/Book/Uncrossed.antt =====
-- The book does not cross: every bid is below every ask.
use limit_order_book_matchin.Base.{
  ◌≡◌, refl, sym, subst, ap, ◌∙◌, inl, inr, Bool, true, false, not, ◌&&◌, ◌||◌, List, [], ◌∷◌, some,
  ℤ, ◌<ℤ◌, arith, All, All-map, Bool-cases, if◌then◌else◌, is_empty,
}
use limit_order_book_matchin.Order.{Side, buy, sell, is_filled, is_market}
use limit_order_book_matchin.Order.Quantities.{is_active_of_open}
use limit_order_book_matchin.PriceMap.{Ptr, Level, Levels, before, push_back}
use limit_order_book_matchin.PriceMap.Sorted.{IsSorted, push_back-All, before_trans}
use limit_order_book_matchin.OrderBook.State.{OrderBook, levels, with_levels, opposite, add_to_book}
use limit_order_book_matchin.OrderBook.Sweep.{Sweep}
use limit_order_book_matchin.OrderBook.Matching.{
  Progress, match_side, book_test, best_is_past, past_limit, close_level, rest_in_book, match,
}
use limit_order_book_matchin.Matching.Cases.{match_cases, run_cascade_inv}
use limit_order_book_matchin.Matching.Cases.Loops.{match_side_inv}
use limit_order_book_matchin.Matching.Frame.{match_level-Kept, close_level-Stable}
use limit_order_book_matchin.Matching.Frame.Scan.{Terms, Kept, Stable, Stable-refl, Stable-trans}
use limit_order_book_matchin.Book.WellFormed.{
  IsWellFormed, IsWellFormed-same, close_level-IsWellFormed, match_side-IsWellFormed,
}

-- Each level of the second map is past the limit of an order at each price of the first.
abbrev pub Apart : Side → Levels → Levels → Type 0
Apart side m n =
    All (λ (e : ℤ × Level). All (λ (d : ℤ × Level). past_limit side d.0 e.0 ≡ true) n) m

-- Every bid is below every ask.
abbrev pub IsUncrossed : OrderBook → Type 0
IsUncrossed b = All (λ (bid : ℤ × Level). All (λ (ask : ℤ × Level). bid.0 <ℤ ask.0) b.asks) b.bids

All-swap :
    {A B : Type 0} (R : A → B → Type 0) (xs : List A) (ys : List B)
    → All (λ x. All (R x) ys) xs
    → All (λ y. All (λ x. R x y) xs) ys
All-swap R xs [] h = tt
All-swap R xs (y ∷ ys) h = (
  All-map (λ x. All (R x) (y ∷ ys)) (λ x. R x y) xs (λ x k. k.0) h,
  All-swap R xs ys (All-map (λ x. All (R x) (y ∷ ys)) (λ x. All (R x) ys) xs (λ x k. k.1) h),
)

past_limit_lt :
    (side : Side) (level_price order_price : ℤ)
    → past_limit side level_price order_price ≡ before (opposite side) order_price level_price
unfolding past_limit before
past_limit_lt buy p q = refl
past_limit_lt sell p q = refl

All-map₂ :
    {A B : Type 0} (R S : A → B → Type 0) (xs : List A) (ys : List B)
    → ((x : A) (y : B) → R x y → S x y)
    → All (λ x. All (R x) ys) xs
    → All (λ x. All (S x) ys) xs
All-map₂ R S xs ys f = All-map _ _ xs (λ x. All-map (R x) (S x) ys (f x))

abbrev Below : ℤ × Level → ℤ × Level → Type 0
Below bid ask = bid.0 <ℤ ask.0

abbrev Past : Side → ℤ × Level → ℤ × Level → Type 0
Past side e d = past_limit side d.0 e.0 ≡ true

Apart-IsUncrossed :
    (side : Side) (b : OrderBook)
    → (IsUncrossed b → Apart side (levels side b) (levels (opposite side) b))
      × (Apart side (levels side b) (levels (opposite side) b) → IsUncrossed b)
unfolding past_limit
Apart-IsUncrossed buy b = (
  All-map₂ Below (Past buy) b.bids b.asks (λ e d h. ground arith),
  All-map₂ (Past buy) Below b.bids b.asks (λ e d h. ground arith),
)
Apart-IsUncrossed sell b = (
  λ h.
      All-map₂ (λ d e. Below e d) (Past sell) b.asks b.bids (λ e d h. ground arith)
        (All-swap Below b.bids b.asks h),
  λ h.
      All-map₂ (λ d e. Past sell e d) Below b.bids b.asks (λ e d h. ground arith)
        (All-swap (Past sell) b.asks b.bids h),
)

-- If the best level is past the limit, so are all levels.
past-All :
    (side : Side) (order_price price : ℤ) (level : Level) (rest : Levels)
    → IsSorted (opposite side) ((price, level) ∷ rest)
    → past_limit side price order_price ≡ true
    → All (λ (d : ℤ × Level). past_limit side d.0 order_price ≡ true) ((price, level) ∷ rest)
past-All side order_price price level rest sorted h = (
  h,
  All-map (λ (d : ℤ × Level). before (opposite side) price d.0 ≡ true)
      (λ (d : ℤ × Level). past_limit side d.0 order_price ≡ true) rest
      (λ d k.
        past_limit_lt side d.0 order_price
        ∙ before_trans (opposite side) order_price price d.0
            (sym (past_limit_lt side price order_price) ∙ h) k)
      sorted.0,
)

-- Where the outer loop ends with an order that is open and not a market order, all levels are past
-- its limit.
stopped_past :
    (side : Side) (order_price : ℤ) (m : Levels)
    → IsSorted (opposite side) m
    → (true && not (is_empty m) && (false || not (best_is_past side order_price m))) ≡ false
    → All (λ (d : ℤ × Level). past_limit side d.0 order_price ≡ true) m
stopped_past side order_price [] sorted h = tt
stopped_past side order_price ((price, level) ∷ rest) sorted h =
    past-All side order_price price level rest sorted (ground arith)

with_levels-IsUncrossed :
    (side : Side) (m : Levels) (b : OrderBook)
    → Apart side m (levels (opposite side) b)
    → IsUncrossed (with_levels side m b)
with_levels-IsUncrossed buy m b h = (Apart-IsUncrossed buy (with_levels buy m b)).1 h
with_levels-IsUncrossed sell m b h = (Apart-IsUncrossed sell (with_levels sell m b)).1 h

pub add_to_book-IsUncrossed :
    (order : Ptr) (b : OrderBook)
    → let o = b.object order in
      All (λ (d : ℤ × Level). past_limit o.side d.0 o.price ≡ true) (levels (opposite o.side) b)
      → IsUncrossed b
      → IsUncrossed (add_to_book order b)
unfolding add_to_book
add_to_book-IsUncrossed order b past h =
    let o = b.object order in
    with_levels-IsUncrossed o.side (push_back o.side o.price order (levels o.side b)) b (
      push_back-All
        (λ (e : ℤ × Level).
          All (λ (d : ℤ × Level). past_limit o.side d.0 e.0 ≡ true) (levels (opposite o.side) b))
        o.side o.price order (levels o.side b) past (λ _ _ _ k. k)
        ((Apart-IsUncrossed o.side b).0 h))

-- A level that is popped or shortened keeps its price.
shrink {κ} :
    (Q : ℤ × Level → Type κ) (gone : Bool) (price : ℤ) (level level' : Level) (rest : Levels)
    → (Q (price, level) → Q (price, level'))
    → All Q ((price, level) ∷ rest)
    → All Q (if gone then rest else (price, level') ∷ rest)
shrink Q true price level level' rest f h = h.1
shrink Q false price level level' rest f h = (f h.0, h.1)

close_level-IsUncrossed :
    (side : Side) (order : Ptr) (s : Progress) (price : ℤ) (level : Level) (rest : Levels)
    (t : Sweep)
    → levels (opposite side) s.book ≡ (price, level) ∷ rest
    → Kept s.book t.book
    → IsUncrossed s.book
    → IsUncrossed (close_level side price rest t).book
unfolding close_level
close_level-IsUncrossed buy order s price level rest t shape k h =
    All-map _ _ t.book.bids
      (λ e. shrink (Below e) (is_empty t.level) price level t.level rest (λ q. q))
      (rw k.bids (subst (λ m. All (λ (e : ℤ × Level). All (Below e) m) s.book.bids) shape h))
close_level-IsUncrossed sell order s price level rest t shape k h =
    shrink (λ (e : ℤ × Level). All (Below e) t.book.asks) (is_empty t.level) price level t.level
      rest (λ q. q)
      (subst (All (λ (e : ℤ × Level). All (Below e) t.book.asks)) shape (rw (k.asks) h))

not_both : (a b : Bool) → (not a && not b) ≡ true → (a ≡ false) × (b ≡ false)
not_both a b h = ground arith

-- An order that is open at the end of its match was stopped by its limit, or found no more levels.
rest_in_book-IsUncrossed :
    (order : Ptr) (side : Side) (s : Progress)
    → (s.book.object order).side ≡ side
    → book_test side order s ≡ false
    → IsWellFormed s.book
    → IsUncrossed s.book
    → IsUncrossed (rest_in_book order s.book)
unfolding rest_in_book book_test
rest_in_book-IsUncrossed order side s own out w h =
    let o = s.book.object order in
    elim (Bool-cases (not (is_filled o) && not (is_market o))) [
      | inl e ↦
          let (left, not_market) = not_both _ _ e in
          let act = is_active_of_open o (w.closed order) left in
          let stopped : book_test o.side order s ≡ false =
            subst (λ x. book_test x order s ≡ false) (sym own) out in
          rw (e, rest_in_book)
            (add_to_book-IsUncrossed order s.book
              (stopped_past o.side o.price (levels (opposite o.side) s.book)
                (w.sides (opposite o.side)).0 (rw (act, not_market) at stopped))
              h)
      | inr e ↦ rw (e, rest_in_book) h
    ]

pub match_side-IsUncrossed :
    (side : Side) (order : Ptr) (b : OrderBook) {r : Progress}
    → match_side side order b ≡ some r
    → (b.object order).side ≡ side
    → IsWellFormed b
    → IsUncrossed b
    → IsUncrossed r.book
match_side-IsUncrossed side order b e own w h =
    let (s, (k, v, g), out, last) =
      match_side_inv (λ u. Stable b u.book × IsWellFormed u.book × IsUncrossed u.book) side order b
        e
        (λ u price level rest t shape _ _ swept (k, v, g). (
          Stable-trans k (close_level-Stable side order u price level rest t swept),
          close_level-IsWellFormed side order u price level rest t shape swept v,
          close_level-IsUncrossed side order u price level rest t shape
              (match_level-Kept side order price _ swept) g,
        ))
        (Stable-refl b, w, h) in
    subst (λ (u : Progress). IsUncrossed u.book) last
      (rest_in_book-IsUncrossed order side s (ap (λ (y : Terms). y.side) (k.terms_of order) ∙ own)
        out v g)

-- After a match of any order in a well-formed book, and of the stops that it sets off, every bid is
-- below every ask, if it was so before.
pub match-IsUncrossed :
    (order : Ptr) (b : OrderBook) {r : Progress}
    → match order b ≡ some r
    → IsWellFormed b
    → IsUncrossed b
    → IsUncrossed r.book
match-IsUncrossed order b e w h =
    match_cases (λ u. IsUncrossed u.book) order b e (λ _. h)
      (λ _ s ran cascade.
        (run_cascade_inv (λ _ u. IsWellFormed u.book × IsUncrossed u.book) s cascade
          (λ stop rest u t ran_stop (v, g). (
            match_side-IsWellFormed (u.book.object stop).side stop u.book ran_stop v,
            match_side-IsUncrossed (u.book.object stop).side stop u.book ran_stop refl v g,
          ))
          (λ u (v, g). (IsWellFormed-same refl refl refl v, g))
          (
            match_side-IsWellFormed (b.object order).side order b ran w,
            match_side-IsUncrossed (b.object order).side order b ran refl w h,
          )).0.1)
