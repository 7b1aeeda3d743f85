-- ===== src/Matching/Settlement/Deals.antt =====
-- Deals: trades with the orders that they are between, and what they take from each.
use limit_order_book_matchin.Base.{
  ℕ, ◌+◌, ◌-◌, ◌≡◌, refl, ap, ◌==◌, List, [], ◌∷◌, ◌++◌, map, arith, All, if◌then◌else◌,
}
use limit_order_book_matchin.Order.{Order}
use limit_order_book_matchin.PriceMap.{Ptr}
use limit_order_book_matchin.OrderBook.State.{OrderBook, Trade}
use limit_order_book_matchin.Matching.Fairness.{IsFair}

-- A trade with the orders that it is between.
pub record Deal : Type 0 where
  pub taker : Ptr
  pub maker : Ptr
  pub trade : Trade

-- What the deals take from an order, as the taker or the maker.
abbrev pub taken : Ptr → List Deal → ℕ
taken p [] = 0
taken p (d ∷ ds) =
    (if d.taker == p then d.trade.quantity else 0)
    + (if d.maker == p then d.trade.quantity else 0)
    + taken p ds

pub taken-append : (p : Ptr) (ds es : List Deal) → taken p (ds ++ es) ≡ taken p ds + taken p es
taken-append p [] es = omega arith
taken-append p (d ∷ ds) es = let h = taken-append p ds es in omega (arith, h)

pub deals-append :
    (ds es : List Deal)
    → map (λ (d : Deal). d.trade) (ds ++ es)
      ≡ map (λ (d : Deal). d.trade) ds ++ map (λ (d : Deal). d.trade) es
deals-append [] es = refl
deals-append (d ∷ ds) es = ap (λ l. d.trade ∷ l) (deals-append ds es)

-- On the way from `b` to `c` the trades after `before` are fair deals between orders that have `R`, and
-- every order has lost the quantities of its own.
pub record Settled (R : Ptr → Type 0) (f : Ptr → Order) (b : OrderBook) (before : List Trade)
    (c : OrderBook) (after : List Trade) : Type 0 where
  pub deals : List Deal
  pub result : after ≡ before ++ map (λ (d : Deal). d.trade) deals
  pub fair : All (λ (d : Deal). R d.taker × R d.maker × IsFair f d.taker d.maker d.trade) deals
  pub lost : (p : Ptr) → (c.object p).leaves_qty ≡ (b.object p).leaves_qty - taken p deals
