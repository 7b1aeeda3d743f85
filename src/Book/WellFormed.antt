-- ===== src/Book/WellFormed.antt =====
-- The well-formed book: both maps sorted by their comparators, no empty level, and every order in
-- the level of its own price and side.
use limit_order_book_matchin.Base.{
  ◌≡◌, refl, sym, subst, ap, ◌∙◌, inl, inr, Bool, true, false, not, ◌&&◌, [], ◌∷◌, ◌++◌, some, ℤ,
  All, All-map, All-append, Bool-cases, if◌then◌else◌, is_empty, is_empty-append_single,
}
use limit_order_book_matchin.Order.{Order, Side, buy, sell, is_filled, is_market}
use limit_order_book_matchin.Order.Quantities.{
  IsClosed, fill-IsClosed, trigger-IsClosed, replenish-IsClosed,
}
use limit_order_book_matchin.PriceMap.{Ptr, Level, Levels, push_back}
use limit_order_book_matchin.PriceMap.Sorted.{IsSorted, push_back-All, push_back-IsSorted}
use limit_order_book_matchin.OrderBook.State.{OrderBook, levels, with_levels, opposite, add_to_book}
use limit_order_book_matchin.OrderBook.Sweep.{Sweep, match_level}
use limit_order_book_matchin.OrderBook.Matching.{
  Progress, match_side, close_level, rest_in_book, match,
}
use limit_order_book_matchin.Matching.Cases.{match_cases, run_cascade_inv}
use limit_order_book_matchin.Matching.Cases.Loops.{match_side_inv}
use limit_order_book_matchin.Matching.Frame.{match_level-Kept}
use limit_order_book_matchin.Matching.Frame.Scan.{terms, Kept}
use limit_order_book_matchin.Matching.Objects.{Each, Kind, match_level-Each, match_level-All}

abbrev pub IsAt : Side → ℤ → Order → Type 0
IsAt side price o = (o.side ≡ side) × (o.price ≡ price)

abbrev pub LevelOk : Side → (Ptr → Order) → ℤ × Level → Type 0
LevelOk side object e = (is_empty e.1 ≡ false) × All (λ p. IsAt side e.0 (object p)) e.1

abbrev pub SideOk : Side → (Ptr → Order) → Levels → Type 0
SideOk side object m = IsSorted side m × All (LevelOk side object) m

pub record IsWellFormed (b : OrderBook) : Type 0 where
  pub sides : (side : Side) → SideOk side b.object (levels side b)
  pub closed : Each IsClosed b

pub IsClosed-Kind : Kind IsClosed
IsClosed-Kind = record {
  of_fill = fill-IsClosed;
  of_trigger = trigger-IsClosed;
  of_replenish = replenish-IsClosed;
}

-- Only the terms of the orders matter to the shape of a side.
module _ (side : Side) (f g : Ptr → Order) (same : (p : Ptr) → terms (g p) ≡ terms (f p)) where
  pub IsAt-terms : (price : ℤ) (p : Ptr) → IsAt side price (f p) → IsAt side price (g p)
  IsAt-terms price p h = (ap (λ t. t.side) (same p) ∙ h.0, ap (λ t. t.price) (same p) ∙ h.1)

  pub SideOk-terms : (m : Levels) → SideOk side f m → SideOk side g m
  SideOk-terms m h = (
    h.0,
    All-map (LevelOk side f) (LevelOk side g) m
        (λ e k. (
          k.0,
          All-map (λ p. IsAt side e.0 (f p)) (λ p. IsAt side e.0 (g p)) e.1 (IsAt-terms e.0) k.1,
        ))
        h.1,
  )

pub IsWellFormed-same :
    {b c : OrderBook}
    → c.object ≡ b.object
    → c.bids ≡ b.bids
    → c.asks ≡ b.asks
    → IsWellFormed b
    → IsWellFormed c
IsWellFormed-same {b} {c} same bids asks w = record {
  sides = by_side;
  closed = subst (λ (f : Ptr → Order). (p : Ptr) → IsClosed (f p)) (sym same) w.closed;
}
  where
    by_side : (side : Side) → SideOk side c.object (levels side c)
    by_side buy = rw (same, bids) (w.sides buy)
    by_side sell = rw (same, asks) (w.sides sell)

Kept-levels : {b c : OrderBook} → Kept b c → (side : Side) → levels side c ≡ levels side b
Kept-levels k buy = k.bids
Kept-levels k sell = k.asks

Kept-sides :
    {b c : OrderBook}
    → Kept b c
    → ((side : Side) → SideOk side b.object (levels side b))
    → (side : Side) → SideOk side c.object (levels side c)
Kept-sides {b} {c} k h side =
    subst (SideOk side c.object) (sym (Kept-levels k side))
      (SideOk-terms side b.object c.object k.terms_of (levels side b) (h side))

pub with_levels-IsWellFormed :
    (side : Side) (m : Levels) (b : OrderBook)
    → SideOk side b.object m
    → IsWellFormed b
    → IsWellFormed (with_levels side m b)
with_levels-IsWellFormed buy m b h w = record { sides = by_side; closed = w.closed }
  where
    by_side : (side : Side) → SideOk side b.object (levels side (with_levels buy m b))
    by_side buy = h
    by_side sell = w.sides sell
with_levels-IsWellFormed sell m b h w = record { sides = by_side; closed = w.closed }
  where
    by_side : (side : Side) → SideOk side b.object (levels side (with_levels sell m b))
    by_side buy = w.sides buy
    by_side sell = h

pub add_to_book-IsWellFormed :
    (order : Ptr) (b : OrderBook) → IsWellFormed b → IsWellFormed (add_to_book order b)
unfolding add_to_book
add_to_book-IsWellFormed order b w =
    IsWellFormed-same {b = with_levels o.side added b} refl refl refl (
      with_levels-IsWellFormed o.side added b
        (
          push_back-IsSorted o.side o.price order (levels o.side b) (w.sides o.side).0,
          push_back-All (LevelOk o.side b.object) o.side o.price order (levels o.side b)
              (refl, ((refl, refl), tt)) joins (w.sides o.side).1,
        )
        w)
  where
    o : Order
    o = b.object order

    added : Levels
    added = push_back o.side o.price order (levels o.side b)

    joins :
        (p : ℤ) (level : Level)
        → p ≡ o.price
        → LevelOk o.side b.object (p, level)
        → LevelOk o.side b.object (p, level ++ order ∷ [])
    joins p level e h = (
      is_empty-append_single level order,
      All-append (λ q. IsAt o.side p (b.object q)) level (order ∷ []) h.1 ((refl, sym e), tt),
    )

rest_in_book-IsWellFormed :
    (order : Ptr) (b : OrderBook) → IsWellFormed b → IsWellFormed (rest_in_book order b)
unfolding rest_in_book
rest_in_book-IsWellFormed order b w =
    let o = b.object order in
    elim (Bool-cases (not (is_filled o) && not (is_market o))) [
      | inl e ↦ rw (e, rest_in_book) (add_to_book-IsWellFormed order b w)
      | inr e ↦ rw (e, rest_in_book) w
    ]

pub close_level-IsWellFormed :
    (side : Side) (order : Ptr) (s : Progress) (price : ℤ) (level : Level) (rest : Levels)
    (t : Sweep)
    → levels (opposite side) s.book ≡ (price, level) ∷ rest
    → match_level side order price (record { book = s.book; level = level; result = s.result })
      ≡ some t
    → IsWellFormed s.book
    → IsWellFormed (close_level side price rest t).book
unfolding close_level
close_level-IsWellFormed side order s price level rest t shape swept w =
    with_levels-IsWellFormed facing left t.book (shorter (is_empty t.level) refl) (record {
      sides = Kept-sides k w.sides;
      closed = match_level-Each IsClosed IsClosed-Kind side order price _ swept w.closed;
    })
  where
    facing : Side
    facing = opposite side

    k : Kept s.book t.book
    k = match_level-Kept side order price _ swept

    left : Levels
    left = if is_empty t.level then rest else (price, t.level) ∷ rest

    old : SideOk facing t.book.object ((price, level) ∷ rest)
    old =
        SideOk-terms facing s.book.object t.book.object k.terms_of ((price, level) ∷ rest)
          (subst (SideOk facing s.book.object) shape (w.sides facing))

    shorter : (x : Bool) → is_empty t.level ≡ x → SideOk facing t.book.object left
    shorter true e = rw (e, if◌then◌else◌) (old.0.1, old.1.1)
    shorter false e =
        rw (e, if◌then◌else◌)
          (
            old.0,
            (
              (
                e,
                match_level-All (λ p. IsAt facing price (t.book.object p)) side order price _ swept
                    old.1.0.1,
              ),
              old.1.1,
            ),
          )

pub match_side-IsWellFormed :
    (side : Side) (order : Ptr) (b : OrderBook) {r : Progress}
    → match_side side order b ≡ some r
    → IsWellFormed b
    → IsWellFormed r.book
match_side-IsWellFormed side order b e w =
    let (s, v, _, last) =
      match_side_inv (λ s. IsWellFormed s.book) side order b e
        (λ u price level rest t shape _ _ swept v.
          close_level-IsWellFormed side order u price level rest t shape swept v)
        w in
    subst (λ (u : Progress). IsWellFormed u.book) last (rest_in_book-IsWellFormed order s.book v)

-- `match` keeps the book well formed, for orders of every kind and through the cascade of stops: the
-- maps sorted with no empty level, each order in the level of its price and side, and no order that is
-- not active with anything left.
pub match-IsWellFormed :
    (order : Ptr) (b : OrderBook) {r : Progress}
    → match order b ≡ some r
    → IsWellFormed b
    → IsWellFormed r.book
match-IsWellFormed order b {r} e w =
    match_cases (λ u. IsWellFormed u.book) order b e (λ _. IsWellFormed-same refl refl refl w)
      (λ _ s ran cascade.
        (run_cascade_inv (λ _ u. IsWellFormed u.book) s cascade
          (λ stop rest u t ran_stop v.
            match_side-IsWellFormed (u.book.object stop).side stop u.book ran_stop v)
          (λ u v. IsWellFormed-same refl refl refl v)
          (match_side-IsWellFormed (b.object order).side order b ran w)).0)
