-- ===== src/Matching/Ledger.antt =====
-- The record of trades: what a match returns is what it adds to the history, under consecutive
-- numbers, and adds up to what the order has lost.
pub mod Balance
use limit_order_book_matchin.Base.{
  ℕ, ◌+◌, ◌≡◌, ◌≢◌, refl, sym, subst, ap, ◌∙◌, inl, inr, not, ◌&&◌, min, List, [], ◌∷◌, ◌++◌,
  append_assoc, append-nil, some, ℤ, arith, All, All-map, Bool-cases,
}
use limit_order_book_matchin.Order.{
  Order, Side, buy, sell, u64, fill, trigger, replenish, is_filled, is_market,
}
use limit_order_book_matchin.PriceMap.{Ptr, Level, Levels, push_back}
use limit_order_book_matchin.OrderBook.State.{
  OrderBook, Trade, modify_object, levels, with_levels, opposite, add_to_book,
}
use limit_order_book_matchin.OrderBook.Stops.{check_stop_triggers}
use limit_order_book_matchin.OrderBook.Sweep.{
  Sweep, exchange, record_trade, make_trade, match_front, execute, settle, available, match_level,
}
use limit_order_book_matchin.OrderBook.Matching.{
  Progress, match_side, close_level, rest_in_book, match,
}
use limit_order_book_matchin.Matching.Cases.{match_cases, run_cascade_inv}
use limit_order_book_matchin.Matching.Cases.Loops.{
  settle_cases, match_front_cases, match_level_inv, match_side_inv,
}
use limit_order_book_matchin.Matching.Frame.{check_stop_triggers-Scanned, close_level-Stable}
use limit_order_book_matchin.Matching.Frame.Scan.{Terms, Scanned, Stable, Stable-refl, Stable-trans}
use limit_order_book_matchin.Matching.Fairness.{best_level-IsAt}
use limit_order_book_matchin.Book.WellFormed.{
  IsAt, IsWellFormed, IsWellFormed-same, close_level-IsWellFormed, match_side-IsWellFormed,
}
use limit_order_book_matchin.Matching.Objects.{execute-object, match_front-All}
use limit_order_book_matchin.Matching.Ledger.Balance.{
  volume, Posted, Posted-none, Posted-trans, Takes, Takes-none, Takes-trans, match_level-Takes,
}

-- Changing the map leaves the record of trades, and the orders, as they are.
abbrev SameRecord : OrderBook → OrderBook → Type 0
SameRecord b c = (c.trades ≡ b.trades) × (c.next_trade_id ≡ b.next_trade_id) × (c.object ≡ b.object)

with_levels-record :
    (side : Side) (m : Levels) (b : OrderBook) → SameRecord b (with_levels side m b)
with_levels-record buy m b = (refl, refl, refl)
with_levels-record sell m b = (refl, refl, refl)

rest_in_book-record : (order : Ptr) (b : OrderBook) → SameRecord b (rest_in_book order b)
unfolding rest_in_book add_to_book
rest_in_book-record order b =
    let o = b.object order in
    elim (Bool-cases (not (is_filled o) && not (is_market o))) [
      | inl e ↦
          rw (e, rest_in_book)
            (let h =
                with_levels-record o.side (push_back o.side o.price order (levels o.side b)) b in
              (h.0, h.1, h.2))
      | inr e ↦ rw (e, rest_in_book) (refl, refl, refl)
    ]

Takes-record :
    (order : Ptr) (b c : OrderBook) (rs : List Trade) → SameRecord b c → Takes order b rs c rs
Takes-record order b c rs (e, f, g) =
    Takes-none order b c rs e f (ap (λ (h : Ptr → Order). (h order).leaves_qty) g)

apart_of_side :
    (side : Side) (price : ℤ) (order : Ptr) (b : OrderBook)
    → (b.object order).side ≡ side
    → (p : Ptr) → IsAt (opposite side) price (b.object p)
    → p ≢ order
apart_of_side buy price order b own p at e = cc
apart_of_side sell price order b own p at e = cc

pub match_side-Takes :
    (side : Side) (order : Ptr) (b : OrderBook) {r : Progress}
    → match_side side order b ≡ some r
    → (b.object order).side ≡ side
    → IsWellFormed b
    → Takes order b [] r.book r.result
unfolding close_level
match_side-Takes side order b {r} e own w =
    let (s, (_, _, g), _, last) =
      match_side_inv (λ u. Stable b u.book × IsWellFormed u.book × Takes order b [] u.book u.result)
        side order b e
        (λ u price level rest t shape _ _ swept (k, v, g).
          let start : Sweep = record { book = u.book; level = level; result = u.result } in
          let own_u = ap (λ (y : Terms). y.side) (k.terms_of order) ∙ own in
          (
            Stable-trans k (close_level-Stable side order u price level rest t swept),
            close_level-IsWellFormed side order u price level rest t shape swept v,
            Takes-trans
                (Takes-trans g (
                  match_level-Takes side order price start swept (
                    All-map (λ p. IsAt (opposite side) price (u.book.object p)) (λ p. p ≢ order)
                      level (apart_of_side side price order u.book own_u)
                      (best_level-IsAt u.book.object (opposite side) price level rest u.book
                        (λ _. refl) shape v))))
                (Takes-record order t.book _ t.result
                  (with_levels-record (opposite side) _ t.book)),
          ))
        (Stable-refl b, w, Takes-none order b b [] refl refl refl) in
    subst (λ (u : Progress). Takes order b [] u.book u.result) last
      (Takes-trans g (Takes-record order s.book _ s.result (rest_in_book-record order s.book)))

-- In a well-formed book an incoming order loses exactly what it trades: the quantities of the trades
-- that its matching loop returns and what it has left add up to what it had.
pub match_side-volume :
    (order : Ptr) (b : OrderBook) {r : Progress}
    → match_side (b.object order).side order b ≡ some r
    → IsWellFormed b
    → volume r.result + (r.book.object order).leaves_qty ≡ (b.object order).leaves_qty
match_side-volume order b e w =
    let k = match_side-Takes (b.object order).side order b e refl w in
    omega (arith, k.balance, ap volume k.result)

-- From a well-formed book, what `match` returns is what it appends to the history, stops included, and
-- its trades carry consecutive numbers from the book's next one on, which is moved past them.
pub match-Posted :
    (order : Ptr) (b : OrderBook) {r : Progress}
    → match order b ≡ some r
    → IsWellFormed b
    → Posted b r.book r.result
match-Posted order b e w =
    match_cases (λ u. Posted b u.book u.result) order b e (λ _. Posted-none b _ refl refl)
      (λ _ s ran cascade.
        (run_cascade_inv (λ _ u. IsWellFormed u.book × Posted b u.book u.result) s cascade
          (λ stop rest u t ran_stop (v, g).
            let side = (u.book.object stop).side in
            let k = match_side-Takes side stop u.book ran_stop refl v in
            (
              match_side-IsWellFormed side stop u.book ran_stop v,
              Posted-trans g (subst (Posted u.book t.book) (sym k.result) k.posted),
            ))
          (λ u (v, g). (
            IsWellFormed-same refl refl refl v,
            record { trades = g.trades; numbered = g.numbered },
          ))
          (let k = match_side-Takes (b.object order).side order b ran refl w in
            (
              match_side-IsWellFormed (b.object order).side order b ran w,
              subst (Posted b s.book) (sym k.result) k.posted,
            ))).0.1)
