-- ===== src/Matching/Priority.antt =====
-- Price-time priority: a match uses up the other side of the book from its front.
pub mod Spent
pub mod Turns
use limit_order_book_matchin.Base.{
  ℕ, ◌+◌, ◌-◌, ◌≡◌, ◌≢◌, refl, sym, subst, ap, ◌∙◌, inl, inr, true, not, ◌&&◌, ◌==◌, List, [], ◌∷◌,
  ◌++◌, append_assoc, append-nil, map, min, some, ℤ, arith, All, All-map, All-append, if◌then◌else◌,
  Bool-cases, is_empty,
}
use limit_order_book_matchin.Order.{
  Order, Side, buy, sell, fill, trigger, replenish, is_filled, is_iceberg, is_market, visible_qty,
}
use limit_order_book_matchin.PriceMap.{Ptr, Level, Levels}
use limit_order_book_matchin.OrderBook.State.{
  OrderBook, Trade, modify_object, levels, with_levels, opposite, add_to_book,
}
use limit_order_book_matchin.OrderBook.Sweep.{
  Sweep, exchange, make_trade, match_front, execute, settle, available, match_level,
}
use limit_order_book_matchin.OrderBook.Matching.{Progress, match_side, close_level, rest_in_book}
use limit_order_book_matchin.Matching.Cases.Loops.{
  settle_cases, match_front_cases, match_level_inv, match_side_inv,
}
use limit_order_book_matchin.Matching.Frame.{close_level-Stable, exchange-Kept, match_front-Kept}
use limit_order_book_matchin.Matching.Frame.Scan.{
  Terms, Kept, Kept-refl, Kept-trans, Stable, Stable-refl, Stable-trans,
}
use limit_order_book_matchin.Matching.Objects.{execute-object, rest_in_book-object}
use limit_order_book_matchin.Matching.Leaves.{
  leaves_of-exchange, leaves_of-execute, leaves_of-replenish, trade-quantity,
}
use limit_order_book_matchin.Matching.Priority.Spent.{
  queue, IsSpent, execute-filled, match_front-IsSpent,
}
use limit_order_book_matchin.Matching.Priority.Turns.{
  InTurn, InTurn-append, InTurn-split, maker_id, given, makers_of, trades_of, Served, Served-none,
  Sweeps, Sweeps-trans, match_level-Sweeps,
}

levels-with_levels :
    (side : Side) (m : Levels) (b : OrderBook) → levels side (with_levels side m b) ≡ m
levels-with_levels buy m b = refl
levels-with_levels sell m b = refl

pub queue-close :
    (price : ℤ) (level : Level) (rest : Levels)
    → queue (if is_empty level then rest else (price, level) ∷ rest) ≡ level ++ queue rest
queue-close price [] rest = refl
queue-close price (p ∷ ps) rest = refl

Served-append :
    (side : Side) (id : Ptr → ℕ) (order : Ptr) (a b : Ptr → Order) (before after more : List Ptr)
    (rs ss : List Trade)
    → Served side id order a before rs b after ss
    → Served side id order a (before ++ more) rs b (after ++ more) ss
Served-append side id order a b before after more rs ss h = record {
  fills = h.fills;
  gone = h.gone;
  turns = InTurn-append more h.turns;
  result = h.result;
  recorded = h.recorded;
  lost = h.lost;
  spent = h.spent;
}

with_levels-object :
    (side : Side) (m : Levels) (b : OrderBook) → (with_levels side m b).object ≡ b.object
with_levels-object buy m b = refl
with_levels-object sell m b = refl

close_level-Sweeps :
    (side : Side) (id : Ptr → ℕ) (order : Ptr) (s : Progress) (price : ℤ) (level : Level)
    (rest : Levels) (t : Sweep)
    → ((p : Ptr) → (s.book.object p).id ≡ id p)
    → levels (opposite side) s.book ≡ (price, level) ∷ rest
    → match_level side order price (record { book = s.book; level = level; result = s.result })
      ≡ some t
    → let u = close_level side price rest t in
      Sweeps side id order s.book.object
        (queue (levels (opposite side) s.book))
        s.result
        u.book.object
        (queue (levels (opposite side) u.book))
        u.result
unfolding close_level
close_level-Sweeps side id order s price level rest t named shape swept =
    let (stays, served) = match_level-Sweeps side id order price _ swept named in
    let left : Levels = if is_empty t.level then rest else (price, t.level) ∷ rest in
    rw
      (
        with_levels-object (opposite side) left t.book,
        levels-with_levels (opposite side) left t.book,
        shape,
        queue-close price t.level rest,
      )
      (
        stays,
        Served-append side id order s.book.object t.book.object level t.level (queue rest) s.result
            t.result served,
      )

-- The other side's queue is not touched when the order is added to its own.
pub rest_in_book-facing :
    (order : Ptr) (side : Side) (b : OrderBook)
    → (b.object order).side ≡ side
    → levels (opposite side) (rest_in_book order b) ≡ levels (opposite side) b
unfolding rest_in_book add_to_book
rest_in_book-facing order side b own =
    let o = b.object order in
    elim (Bool-cases (not (is_filled o) && not (is_market o))) [
      | inl e ↦ rw (e, rest_in_book) (rw own (facing side _ b _))
      | inr e ↦ rw (e, rest_in_book) refl
    ]
  where
    facing :
        (x : Side) (m : Levels) (c : OrderBook) (n : List (ℕ × Ptr))
        → levels (opposite x) (record (with_levels x m c) { active_orders = n })
          ≡ levels (opposite x) c
    facing buy m c n = refl
    facing sell m c n = refl

-- What a run of a side's matching loop of an order does to the queue of the other side: the trades with the
-- orders that they are with, in order, and the orders that left.
pub record UsesFront (side : Side) (order : Ptr) (b c : OrderBook) (result : List Trade)
    : Type 0 where
  pub fills : List (Ptr × Trade)
  pub gone : List Ptr
  pub trades : result ≡ trades_of fills
  pub turns :
      InTurn
        (makers_of fills)
        gone
        (queue (levels (opposite side) b))
        (queue (levels (opposite side) c))
  pub recorded : All (λ (x : Ptr × Trade). maker_id side x.1 ≡ (b.object x.0).id) fills
  pub lost :
      (p : Ptr) → p ≢ order → (c.object p).leaves_qty ≡ (b.object p).leaves_qty - given p fills
  pub split : queue (levels (opposite side) b) ≡ gone ++ queue (levels (opposite side) c)
  pub spent : All (λ p. IsSpent (c.object p)) gone

-- A run of the side's matching loop for an order uses up the other side from the front of its queue, in
-- price-time order: each trade is with the order that is at the front when it is made, under its id, and
-- the trades with it are all that an order other than the incoming one loses; an order leaves the queue
-- only from the front; and those that have left show nothing to trade.
pub match_side-UsesFront :
    (order : Ptr) (b : OrderBook) {r : Progress}
    → let side = (b.object order).side in
      match_side side order b ≡ some r → UsesFront side order b r.book r.result
match_side-UsesFront order b e =
    let side = (b.object order).side in
    let id = λ (p : Ptr). (b.object p).id in
    let (s, (k, g), _, last) =
      match_side_inv
        (λ u.
          Stable b u.book
          × Sweeps side id order b.object (queue (levels (opposite side) b)) [] u.book.object
              (queue (levels (opposite side) u.book)) u.result)
        side order b e
        (λ u price level rest t shape _ _ swept (k, g). (
          Stable-trans k (close_level-Stable side order u price level rest t swept),
          Sweeps-trans side id order b.object u.book.object _ _ _ _ [] u.result _ g (
              close_level-Sweeps side id order u price level rest t
                (λ p. ap (λ (y : Terms). y.id) (k.terms_of p)) shape swept),
        ))
        (
          Stable-refl b,
          ((λ p x. x), Served-none side id order b.object (queue (levels (opposite side) b)) []),
        ) in
    let facing =
      rest_in_book-facing order side s.book (ap (λ (y : Terms). y.side) (k.terms_of order)) in
    let turns =
      subst
        (λ m. InTurn (makers_of g.1.fills) g.1.gone (queue (levels (opposite side) b)) (queue m))
        (sym facing) g.1.turns in
    subst (λ (u : Progress). UsesFront side order b u.book u.result) last
      (record {
        fills = g.1.fills;
        gone = g.1.gone;
        trades = g.1.result;
        turns = turns;
        recorded = g.1.recorded;
        lost = λ p ne.
            ap (λ (f : Ptr → Order). (f p).leaves_qty) (rest_in_book-object order s.book)
            ∙ g.1.lost p ne;
        split = InTurn-split turns;
        spent =
            subst (λ (f : Ptr → Order). All (λ p. IsSpent (f p)) g.1.gone)
              (sym (rest_in_book-object order s.book)) g.1.spent;
      })
