-- ===== src/Book/Quotes.antt =====
-- What the queries of src/orderbook.cpp say of a book: the best prices and the spread.
use limit_order_book_matchin.Base.{
  ◌^◌, ◌≡◌, ◌≢◌, refl, sym, ◌∙◌, List, subst, ◌⊎◌, inl, inr, true, false, [], ◌∷◌, Option, some,
  none, ℤ, pos, ◌<ℤ◌, ◌≤ℤ◌, ◌-ℤ◌, fits_i64, -ℤ_parts, arith, All, All-map, Bool-cases,
}
use limit_order_book_matchin.Order.{buy, sell}
use limit_order_book_matchin.PriceMap.{Level, Levels, before}
use limit_order_book_matchin.PriceMap.Sorted.{IsSorted}
use limit_order_book_matchin.OrderBook.State.{OrderBook}
use limit_order_book_matchin.OrderBook.Requests.{
  best_price, price_or_zero, best_bid, best_ask, spread,
}
use limit_order_book_matchin.Book.WellFormed.{IsWellFormed}
use limit_order_book_matchin.Book.Uncrossed.{IsUncrossed}

bid_before : (p q : ℤ) → before buy p q ≡ true → q ≤ℤ p
unfolding before
bid_before p q h = ground (arith, h)

ask_before : (p q : ℤ) → before sell p q ≡ true → p ≤ℤ q
unfolding before
ask_before p q h = ground (arith, h)

-- In a well-formed book no bid is above `bestBid` and no ask below `bestAsk`.
pub best_lem :
    (b : OrderBook)
    → IsWellFormed b
    → All (λ (e : ℤ × Level). e.0 ≤ℤ best_bid b) b.bids
      × All (λ (e : ℤ × Level). best_ask b ≤ℤ e.0) b.asks
unfolding best_bid best_ask
best_lem b w = (bids b.bids (w.sides buy).0, asks b.asks (w.sides sell).0)
  where
    bids :
        (m : Levels)
        → IsSorted buy m
        → All (λ (e : ℤ × Level). e.0 ≤ℤ price_or_zero (best_price m)) m
    bids [] h = tt
    bids ((p, level) ∷ rest) h =
        (omega arith, All-map _ (λ (e : ℤ × Level). e.0 ≤ℤ p) rest (λ e k. bid_before p e.0 k) h.0)

    asks :
        (m : Levels)
        → IsSorted sell m
        → All (λ (e : ℤ × Level). price_or_zero (best_price m) ≤ℤ e.0) m
    asks [] h = tt
    asks ((p, level) ∷ rest) h =
        (omega arith, All-map _ (λ (e : ℤ × Level). p ≤ℤ e.0) rest (λ e k. ask_before p e.0 k) h.0)

-- A bid and an ask.
abbrev pub TwoSided : OrderBook → Type 0
TwoSided b = (b.bids ≢ []) × (b.asks ≢ [])

-- The three cases of `spread`, of which no book is in two: an empty side; both sides and a positive
-- distance that fits in an `int64_t`; both sides and one that does not.
abbrev pub SpreadIs : OrderBook → Option ℤ → Type 0
SpreadIs b r =
    (((b.bids ≡ []) ⊎ (b.asks ≡ [])) × (r ≡ some (pos 0)))
    ⊎ (TwoSided b
        × (pos 0 <ℤ best_ask b -ℤ best_bid b)
        × (fits_i64 (best_ask b -ℤ best_bid b) ≡ true)
        × (r ≡ some (best_ask b -ℤ best_bid b)))
    ⊎ (TwoSided b
        × (pos 0 <ℤ best_ask b -ℤ best_bid b)
        × (fits_i64 (best_ask b -ℤ best_bid b) ≡ false)
        × (r ≡ none))

sub_positive : (bid ask : ℤ) → bid <ℤ ask → pos 0 <ℤ ask -ℤ bid
sub_positive bid ask h = let e = -ℤ_parts ask bid in omega (arith, e, h)

cons_not_nil {ℓ} : {A : Type ℓ} {x : A} {xs : List A} → x ∷ xs ≢ []
cons_not_nil e = cc

-- In an uncrossed book `spread` is 0 when a side is empty. With a bid and an ask it is what the best
-- ask is above the best bid, which is positive, if that fits in an `int64_t`, and overflows if not.
pub spread-IsUncrossed : (b : OrderBook) → IsUncrossed b → SpreadIs b (spread b)
unfolding spread best_bid best_ask
spread-IsUncrossed b h = by_sides b.bids b.asks refl refl
  where
    by_sides : (m n : Levels) → b.bids ≡ m → b.asks ≡ n → SpreadIs b (spread b)
    by_sides [] n e f = inl (inl e, rw e refl)
    by_sides ((bid, level) ∷ rest) [] e f = inl (inr f, rw (e, f) refl)
    by_sides ((bid, level) ∷ rest) ((ask, other) ∷ others) e f =
        let apart : All
            (λ (x : ℤ × Level). All (λ (y : ℤ × Level). x.0 <ℤ y.0) ((ask, other) ∷ others))
            ((bid, level) ∷ rest) =
          subst
            (λ m.
              All (λ (x : ℤ × Level). All (λ (y : ℤ × Level). x.0 <ℤ y.0) ((ask, other) ∷ others))
                m)
            e
            (subst (λ n. All (λ (x : ℤ × Level). All (λ (y : ℤ × Level). x.0 <ℤ y.0) n) b.bids) f
              h) in
        let two : TwoSided b = ((λ z. cons_not_nil (sym e ∙ z)), λ z. cons_not_nil (sym f ∙ z)) in
        let positive = sub_positive bid ask apart.0.0 in
        elim (Bool-cases (fits_i64 (ask -ℤ bid))) [
          | inl g ↦ inr (inl (two, rw (e, f) positive, rw (e, f) g, rw (e, f, g) refl))
          | inr g ↦ inr (inr (two, rw (e, f) positive, rw (e, f) g, rw (e, f, g) refl))
        ]

-- In an uncrossed book with a bid and an ask, with no negative bid and asks in the range of `int64_t`,
-- `spread` does not overflow: it is what the best ask is above the best bid.
pub spread_fits :
    (b : OrderBook)
    → IsUncrossed b
    → b.bids ≢ []
    → b.asks ≢ []
    → pos 0 ≤ℤ best_bid b
    → best_ask b <ℤ pos (2 ^ 63)
    → (spread b ≡ some (best_ask b -ℤ best_bid b)) × (pos 0 <ℤ best_ask b -ℤ best_bid b)
spread_fits b h bids asks low high = elim (spread-IsUncrossed b h) [
  | inl (empty, _) ↦ absurd (elim empty [ inl e ↦ bids e | inr e ↦ asks e ])
  | inr rest ↦ elim rest [
    | inl (_, positive, _, e) ↦ (e, positive)
    | inr (_, positive, too_large, _) ↦ absurd (
        let e = -ℤ_parts (best_ask b) (best_bid b) in
        ground (arith, e, low, high, too_large, positive))
  ]
]
