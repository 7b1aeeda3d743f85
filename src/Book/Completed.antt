-- ===== src/Book/Completed.antt =====
-- Where `matchBuy` and `matchSell` of src/orderbook.cpp stop, and where what is left of the order stands.
use limit_order_book_matchin.Base.{
  ◌≡◌, ◌≢◌, refl, sym, subst, ap, ◌∙◌, ◌⊎◌, inl, inr, true, false, List, [], ◌∷◌, ◌++◌,
  append_assoc, some, ℤ, ◌<ℤ◌, ◌≤ℤ◌, eq_of_parts, arith, All, All-map, All-append, Bool-cases,
}
use limit_order_book_matchin.Order.{
  Order, market, is_market_kind, Side, buy, sell, is_filled, is_market,
}
use limit_order_book_matchin.PriceMap.{Ptr, Level, Levels, before, push_back}
use limit_order_book_matchin.PriceMap.Sorted.{IsSorted, before_trans}
use limit_order_book_matchin.OrderBook.State.{OrderBook, levels, opposite}
use limit_order_book_matchin.OrderBook.Matching.{Progress, match_side, past_limit}
use limit_order_book_matchin.Matching.Complete.{Blocked, joined, Complete, match_side-Complete}
use limit_order_book_matchin.Matching.Fairness.{market_of_kind}
use limit_order_book_matchin.Matching.Frame.{match_side-Stable}
use limit_order_book_matchin.Matching.Frame.Scan.{Terms, terms}
use limit_order_book_matchin.Book.WellFormed.{IsWellFormed, match_side-IsWellFormed}

abbrev pub at_price : ℤ → Level → List (ℤ × Ptr)
at_price p [] = []
at_price p (q ∷ level) = (p, q) ∷ at_price p level

-- The orders of a side with their prices, from the best price on, and the oldest first at each.
abbrev pub priced : Levels → List (ℤ × Ptr)
priced [] = []
priced ((p, level) ∷ rest) = at_price p level ++ priced rest

-- A price as good as that of an order of the side, or better; and one that is worse.
abbrev pub AsGood : Side → ℤ → ℤ → Type 0
AsGood buy price p = price ≤ℤ p
AsGood sell price p = p ≤ℤ price

abbrev pub Worse : Side → ℤ → ℤ → Type 0
Worse buy price p = p <ℤ price
Worse sell price p = price <ℤ p

-- The order has come in behind all that are as good, and ahead of all that are worse.
pub record Placed (side : Side) (price : ℤ) (order : Ptr) (m n : Levels) : Type 0 where
  pub ahead : List (ℤ × Ptr)
  pub behind : List (ℤ × Ptr)
  pub were : priced m ≡ ahead ++ behind
  pub are : priced n ≡ ahead ++ (price, order) ∷ behind
  pub as_good : All (λ (e : ℤ × Ptr). AsGood side price e.0) ahead
  pub worse : All (λ (e : ℤ × Ptr). Worse side price e.0) behind

map-pairs-All {κ} :
    (Q : ℤ → Type κ) (p : ℤ) (level : Level) → Q p → All (λ (e : ℤ × Ptr). Q e.0) (at_price p level)
map-pairs-All Q p [] h = tt
map-pairs-All Q p (q ∷ level) h = (h, map-pairs-All Q p level h)

priced-All {κ} :
    (Q : ℤ → Type κ) (m : Levels)
    → All (λ (e : ℤ × Level). Q e.0) m
    → All (λ (e : ℤ × Ptr). Q e.0) (priced m)
priced-All Q [] h = tt
priced-All Q ((p, level) ∷ rest) h =
    All-append (λ (e : ℤ × Ptr). Q e.0) (at_price p level) (priced rest)
      (map-pairs-All Q p level h.0) (priced-All Q rest h.1)

before-Worse : (side : Side) (price p : ℤ) → before side price p ≡ true → Worse side price p
unfolding before
before-Worse buy price p h = ground (arith, h)
before-Worse sell price p h = ground (arith, h)

before-AsGood : (side : Side) (price p : ℤ) → before side price p ≡ false → AsGood side price p
unfolding before
before-AsGood buy price p h = ground (arith, h)
before-AsGood sell price p h = ground (arith, h)

same_price : (side : Side) (p q : ℤ) → before side p q ≡ false → before side q p ≡ false → p ≡ q
unfolding before
same_price buy p q h k = eq_of_parts p q (ground (arith, h, k))
same_price sell p q h k = eq_of_parts p q (ground (arith, h, k))

all-Worse :
    (side : Side) (price p : ℤ) (rest : Levels)
    → before side price p ≡ true
    → All (λ (e : ℤ × Level). before side p e.0 ≡ true) rest
    → All (λ (e : ℤ × Level). Worse side price e.0) rest
all-Worse side price p rest h k =
    All-map (λ (e : ℤ × Level). before side p e.0 ≡ true) (λ (e : ℤ × Level). Worse side price e.0)
      rest (λ e b. before-Worse side price e.0 (before_trans side price p e.0 h b)) k

pairs-append :
    (p : ℤ) (level : Level) (order : Ptr)
    → at_price p (level ++ order ∷ []) ≡ at_price p level ++ (p, order) ∷ []
pairs-append p [] order = refl
pairs-append p (q ∷ level) order = ap (λ l. (p, q) ∷ l) (pairs-append p level order)

push_back-Placed :
    (side : Side) (price : ℤ) (order : Ptr) (m : Levels)
    → IsSorted side m
    → Placed side price order m (push_back side price order m)
unfolding push_back
push_back-Placed side price order [] h = record {
  ahead = [];
  behind = [];
  were = refl;
  are = refl;
  as_good = tt;
  worse = tt;
}
push_back-Placed side price order ((p, level) ∷ rest) h = elim (Bool-cases (before side price p)) [
  | inl e ↦ rw e (record {
    ahead = [];
    behind = priced ((p, level) ∷ rest);
    were = refl;
    are = refl;
    as_good = tt;
    worse =
        priced-All (Worse side price) ((p, level) ∷ rest)
          (before-Worse side price p e, all-Worse side price p rest e h.0);
  })
  | inr e ↦ elim (Bool-cases (before side p price)) [
    | inl f ↦
        let k = push_back-Placed side price order rest h.1 in
        let here = at_price p level in
        rw (e, f)
          (record {
            ahead = here ++ k.ahead;
            behind = k.behind;
            were = ap (λ l. here ++ l) k.were ∙ sym (append_assoc here k.ahead k.behind);
            are =
                ap (λ l. here ++ l) k.are
                ∙ sym (append_assoc here k.ahead ((price, order) ∷ k.behind));
            as_good =
                All-append (λ (x : ℤ × Ptr). AsGood side price x.0) here k.ahead
                  (map-pairs-All (AsGood side price) p level (before-AsGood side price p e))
                  k.as_good;
            worse = k.worse;
          })
    | inr f ↦
        let here = at_price p level in
        let same = same_price side price p e f in
        rw (e, f)
          (record {
            ahead = here;
            behind = priced rest;
            were = refl;
            are =
                ap (λ l. l ++ priced rest) (pairs-append p level order)
                ∙ append_assoc here ((p, order) ∷ []) (priced rest)
                ∙ ap (λ x. here ++ (x, order) ∷ priced rest) (sym same);
            as_good = map-pairs-All (AsGood side price) p level (before-AsGood side price p e);
            worse = priced-All (Worse side price) rest (
                All-map (λ (x : ℤ × Level). before side p x.0 ≡ true)
                  (λ (x : ℤ × Level). Worse side price x.0) rest
                  (λ x b.
                    before-Worse side price x.0
                      (subst (λ y. before side y x.0 ≡ true) (sym same) b))
                  h.0);
          })
  ]
]

-- A price beyond the limit of an order of the side.
abbrev pub Beyond : Side → ℤ → ℤ → Type 0
Beyond buy limit_price p = limit_price <ℤ p
Beyond sell limit_price p = p <ℤ limit_price

-- Nothing on the facing levels is open to the order.
abbrev pub NoneOpen : Order → Levels → Type 0
NoneOpen o m = (m ≡ []) ⊎ ((o.kind ≢ market) × All (λ (e : ℤ × Level). Beyond o.side o.price e.0) m)

-- What a run of the matching loop of an order leaves.
pub record Completed (order : Ptr) (b c : OrderBook) : Type 0 where
  pub done :
      ((c.object order).leaves_qty ≡ 0)
      ⊎ NoneOpen (b.object order) (levels (opposite (b.object order).side) c)
  pub rests :
      ((((c.object order).leaves_qty ≡ 0) ⊎ ((b.object order).kind ≡ market))
        × (levels (b.object order).side c ≡ levels (b.object order).side b))
      ⊎ (((c.object order).leaves_qty ≢ 0)
          × ((b.object order).kind ≢ market)
          × Placed
              (b.object order).side
              (b.object order).price
              order
              (levels (b.object order).side b)
              (levels (b.object order).side c))

past-Beyond :
    (side : Side) (p limit_price : ℤ)
    → past_limit side p limit_price ≡ true
    → Beyond side limit_price p
unfolding past_limit
past-Beyond buy p limit_price h = ground (arith, h)
past-Beyond sell p limit_price h = ground (arith, h)

further-Beyond :
    (side : Side) (p q limit_price : ℤ)
    → Beyond side limit_price p
    → before (opposite side) p q ≡ true
    → Beyond side limit_price q
unfolding before
further-Beyond buy p q limit_price h k = ground (arith, h, k)
further-Beyond sell p q limit_price h k = ground (arith, h, k)

not_market : (o : Order) → is_market o ≡ false → o.kind ≢ market
unfolding is_market
not_market o h e =
    let k : is_market_kind market ≡ false = subst (λ x. is_market_kind x ≡ false) e h in cc

kind_of_market : (o : Order) → is_market o ≡ true → o.kind ≡ market
unfolding is_market
kind_of_market o h = market_of_kind o.kind h

-- If the best level is past the limit, all are.
Blocked-NoneOpen :
    (o o' : Order) (m : Levels)
    → o'.kind ≡ o.kind
    → o'.price ≡ o.price
    → IsSorted (opposite o.side) m
    → Blocked o.side o' m
    → NoneOpen o m
Blocked-NoneOpen o o' [] kind price sorted h = inl refl
Blocked-NoneOpen o o' ((p, level) ∷ rest) kind price sorted h =
    let first =
      past-Beyond o.side p o.price (subst (λ x. past_limit o.side p x ≡ true) price h.1) in
    inr (
      (λ e. not_market o' h.0 (kind ∙ e)),
      (
        first,
        All-map (λ (e : ℤ × Level). before (opposite o.side) p e.0 ≡ true)
            (λ (e : ℤ × Level). Beyond o.side o.price e.0) rest
            (λ e k. further-Beyond o.side p e.0 o.price first k) sorted.0,
      ),
    )

filled_of_test : (o : Order) → is_filled o ≡ true → o.leaves_qty ≡ 0
unfolding is_filled
filled_of_test o h = ground (arith, h)

open_of_test : (o : Order) → is_filled o ≡ false → o.leaves_qty ≢ 0
unfolding is_filled
open_of_test o h e = ground (arith, h, e)

-- In a well-formed book, the matching loop of an order ends only when the order has nothing left, or when
-- no level of the other side is open to it: there is none, or the order is not a market order and every
-- one is beyond its limit. If it has something left and is not a market order, it then stands on its own
-- side behind all orders at its price or better, and ahead of all at worse prices, and those are as they
-- were; otherwise its own side has not changed.
pub match_side-Completed :
    (order : Ptr) (b : OrderBook) {r : Progress}
    → match_side (b.object order).side order b ≡ some r
    → IsWellFormed b
    → Completed order b r.book
match_side-Completed order b {r} e w = record {
  done = elim whole.done [
    | inl idle ↦ inl (after.closed order idle)
    | inr blocked ↦ inr (
        Blocked-NoneOpen o o' (levels (opposite o.side) r.book) kind price
          (after.sides (opposite o.side)).0 blocked)
  ];
  rests = elim (Bool-cases (is_filled o')) [
    | inl f ↦ inl (inl (filled_of_test o' f), whole.own_side ∙ rw (f, joined) refl)
    | inr f ↦ elim (Bool-cases (is_market o')) [
      | inl g ↦ inl (inr (sym kind ∙ kind_of_market o' g), whole.own_side ∙ rw (f, g) refl)
      | inr g ↦ inr (
        open_of_test o' f,
        (λ x. not_market o' g (kind ∙ x)),
        subst (Placed o.side o.price order (levels o.side b))
            (sym (whole.own_side ∙ rw (f, g, price) refl))
            (push_back-Placed o.side o.price order (levels o.side b) (w.sides o.side).0),
      )
    ]
  ];
}
  where
    o : Order
    o = b.object order

    o' : Order
    o' = r.book.object order

    whole : Complete o.side order b r.book
    whole = match_side-Complete order b e

    after : IsWellFormed r.book
    after = match_side-IsWellFormed o.side order b e w

    same : terms o' ≡ terms o
    same = (match_side-Stable o.side order b e).terms_of order

    kind : o'.kind ≡ o.kind
    kind = ap (λ (t : Terms). t.kind) same

    price : o'.price ≡ o.price
    price = ap (λ (t : Terms). t.price) same
