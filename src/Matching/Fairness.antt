-- ===== src/Matching/Fairness.antt =====
-- A fair trade: who trades with whom, and at what price.
use limit_order_book_matchin.Base.{
  ℕ, ◌≡◌, refl, sym, subst, ap, ◌∙◌, Bool, true, false, not, ◌||◌, ◌∷◌, ℤ, ◌≤ℤ◌, ◌⊎◌, inl, inr,
  Bool-cases, arith, All, All-map,
}
use limit_order_book_matchin.Order.{
  Order, OrderKind, limit, market, iceberg, stop_loss, Side, buy, sell, is_market, is_market_kind,
}
use limit_order_book_matchin.PriceMap.{Ptr, Level, Levels}
use limit_order_book_matchin.OrderBook.State.{OrderBook, Trade, levels, opposite}
use limit_order_book_matchin.OrderBook.Sweep.{make_trade}
use limit_order_book_matchin.OrderBook.Matching.{past_limit}
use limit_order_book_matchin.Matching.Frame.Scan.{Terms, terms}
use limit_order_book_matchin.Book.WellFormed.{IsAt, IsAt-terms, SideOk, IsWellFormed}

-- The buyer or the seller of a trade in which the taker has the given side.
abbrev pub buyer : Side → ℕ → ℕ → ℕ
buyer buy taker maker = taker
buyer sell taker maker = maker

abbrev pub seller : Side → ℕ → ℕ → ℕ
seller buy taker maker = maker
seller sell taker maker = taker

-- A price that a limit allows.
abbrev pub Within : Side → ℤ → ℤ → Type 0
Within buy limit_price price = price ≤ℤ limit_price
Within sell limit_price price = limit_price ≤ℤ price

-- A trade between a taker and a maker of the other side, at the maker's price, which the taker's limit
-- allows unless it is a market order, under the ids of both.
pub record IsFair (object : Ptr → Order) (taker maker : Ptr) (t : Trade) : Type 0 where
  pub opposed : (object maker).side ≡ opposite (object taker).side
  pub bought_by : t.buy_order_id ≡ buyer (object taker).side (object taker).id (object maker).id
  pub sold_by : t.sell_order_id ≡ seller (object taker).side (object taker).id (object maker).id
  pub at_maker_price : t.price ≡ (object maker).price
  pub within_limit :
      ((object taker).kind ≡ market) ⊎ Within (object taker).side (object taker).price t.price
  pub timed : t.timestamp_us ≡ (object taker).timestamp_us

abbrev pub SameTerms : (Ptr → Order) → OrderBook → Type 0
SameTerms f b = (p : Ptr) → terms (b.object p) ≡ terms (f p)

pub is_market-terms : (o o' : Order) → terms o ≡ terms o' → is_market o ≡ is_market o'
unfolding is_market
is_market-terms o o' e = ap (λ (t : Terms). is_market_kind t.kind) e

pub market_of_kind : (k : OrderKind) → is_market_kind k ≡ true → k ≡ market
market_of_kind market h = refl
market_of_kind limit h = cc
market_of_kind iceberg h = cc
market_of_kind stop_loss h = cc

not_past :
    (side : Side) (price limit_price : ℤ)
    → past_limit side price limit_price ≡ false
    → Within side limit_price price
unfolding past_limit
not_past buy price limit_price h = ground (arith, h)
not_past sell price limit_price h = ground (arith, h)

-- What the test of the outer loop allows.
test-Within :
    (o : Order) (side : Side) (price : ℤ)
    → (is_market o || not (past_limit side price o.price)) ≡ true
    → (o.kind ≡ market) ⊎ Within side o.price price
unfolding is_market
test-Within o side price h = elim (Bool-cases (is_market_kind o.kind)) [
  | inl e ↦ inl (market_of_kind o.kind e)
  | inr e ↦ inr (not_past side price o.price (ground arith))
]

pub make_trade-IsFair :
    (f : Ptr → Order) (side : Side) (order : Ptr) (resting : Ptr) (price : ℤ) (qty : ℕ)
    (b : OrderBook)
    → (f order).side ≡ side
    → SameTerms f b
    → IsAt (opposite side) price (f resting)
    → (is_market (f order) || not (past_limit side price (f order).price)) ≡ true
    → IsFair f order resting (make_trade side order resting price qty b)
unfolding make_trade is_market
make_trade-IsFair f buy order resting price qty b own same at within = record {
  opposed = at.0 ∙ ap opposite (sym own);
  bought_by = rw own (ap (λ (t : Terms). t.id) (same order));
  sold_by = rw own (ap (λ (t : Terms). t.id) (same resting));
  at_maker_price = sym at.1;
  within_limit = rw own (test-Within (f order) buy price within);
  timed = ap (λ (t : Terms). t.timestamp_us) (same order);
}
make_trade-IsFair f sell order resting price qty b own same at within = record {
  opposed = at.0 ∙ ap opposite (sym own);
  bought_by = rw own (ap (λ (t : Terms). t.id) (same resting));
  sold_by = rw own (ap (λ (t : Terms). t.id) (same order));
  at_maker_price = sym at.1;
  within_limit = rw own (test-Within (f order) sell price within);
  timed = ap (λ (t : Terms). t.timestamp_us) (same order);
}

abbrev pub ok_to_cross : Side → ℤ → Order → Bool
ok_to_cross side price o = is_market o || not (past_limit side price o.price)

pub ok_to_cross-terms :
    (side : Side) (price : ℤ) (o o' : Order)
    → terms o ≡ terms o'
    → ok_to_cross side price o ≡ true
    → ok_to_cross side price o' ≡ true
ok_to_cross-terms side price o o' e h =
    rw (sym (is_market-terms o o' e), sym (ap (λ (t : Terms). t.price) e)) h

-- The orders of the best level are at its price and side.
pub best_level-IsAt :
    (f : Ptr → Order) (side : Side) (price : ℤ) (level : Level) (rest : Levels) (b : OrderBook)
    → SameTerms f b
    → levels side b ≡ (price, level) ∷ rest
    → IsWellFormed b
    → All (λ p. IsAt side price (f p)) level
best_level-IsAt f side price level rest b same shape w =
    All-map (λ p. IsAt side price (b.object p)) (λ p. IsAt side price (f p)) level
      (λ p. IsAt-terms side b.object f (λ q. sym (same q)) price p)
      (subst (SideOk side b.object) shape (w.sides side)).1.0.1
