-- ===== src/Matching/Ledger/Balance.antt =====
-- What a sweep of a level takes from the incoming order, and what it records.
use limit_order_book_matchin.Base.{
  ℕ, ◌+◌, ◌≡◌, ◌≢◌, refl, sym, subst, ap, ◌∙◌, min, List, [], ◌∷◌, ◌++◌, append_assoc, append-nil,
  some, ℤ, arith, All,
}
use limit_order_book_matchin.Order.{Order, Side, u64, fill, trigger, replenish}
use limit_order_book_matchin.PriceMap.{Ptr, Level}
use limit_order_book_matchin.OrderBook.State.{OrderBook, Trade, modify_object}
use limit_order_book_matchin.OrderBook.Stops.{check_stop_triggers}
use limit_order_book_matchin.OrderBook.Sweep.{
  Sweep, exchange, record_trade, make_trade, match_front, execute, settle, available, match_level,
}
use limit_order_book_matchin.Matching.Cases.Loops.{settle_cases, match_front_cases, match_level_inv}
use limit_order_book_matchin.Matching.Frame.{check_stop_triggers-Scanned}
use limit_order_book_matchin.Matching.Frame.Scan.{Scanned}
use limit_order_book_matchin.Matching.Objects.{execute-object, match_front-All}

-- The sum of the quantities.
abbrev pub volume : List Trade → ℕ
volume [] = 0
volume (t ∷ ts) = t.quantity + volume ts

volume-append : (ts us : List Trade) → volume (ts ++ us) ≡ volume ts + volume us
volume-append [] us = omega arith
volume-append (t ∷ ts) us = omega (arith, volume-append ts us)

-- The trades are numbered from `n` on, and the next number is `m`; numbers wrap as `uint64_t`.
abbrev pub Numbered : ℕ → List Trade → ℕ → Type 0
Numbered n [] m = m ≡ n
Numbered n (t ∷ ts) m = (t.trade_id ≡ n) × Numbered (u64 (n + 1)) ts m

Numbered-append :
    (n : ℕ) (ts : List Trade) (k : ℕ) (us : List Trade) (m : ℕ)
    → Numbered n ts k
    → Numbered k us m
    → Numbered n (ts ++ us) m
Numbered-append n [] k us m e h = subst (λ x. Numbered x us m) e h
Numbered-append n (t ∷ ts) k us m (e, g) h = (e, Numbered-append (u64 (n + 1)) ts k us m g h)

-- `new` is what was appended to the history on the way from `b` to `c`.
pub record Posted (b c : OrderBook) (new : List Trade) : Type 0 where
  pub trades : c.trades ≡ b.trades ++ new
  pub numbered : Numbered b.next_trade_id new c.next_trade_id

pub Posted-none :
    (b c : OrderBook) → c.trades ≡ b.trades → c.next_trade_id ≡ b.next_trade_id → Posted b c []
Posted-none b c e f = record { trades = e ∙ sym (append-nil b.trades); numbered = f }

pub Posted-trans :
    {a b c : OrderBook} {ts us : List Trade} → Posted a b ts → Posted b c us → Posted a c (ts ++ us)
Posted-trans {a} {b} {c} {ts} {us} p q = record {
  trades = q.trades ∙ ap (λ l. l ++ us) p.trades ∙ append_assoc a.trades ts us;
  numbered =
      Numbered-append a.next_trade_id ts b.next_trade_id us c.next_trade_id p.numbered q.numbered;
}

-- The part of a match in which `order` takes: its trades, and what they take from its leaves.
pub record Takes (order : Ptr) (b : OrderBook) (before : List Trade) (c : OrderBook)
    (after : List Trade) : Type 0 where
  pub new : List Trade
  pub result : after ≡ before ++ new
  pub posted : Posted b c new
  pub balance : volume new + (c.object order).leaves_qty ≡ (b.object order).leaves_qty

pub Takes-none :
    (order : Ptr) (b c : OrderBook) (rs : List Trade)
    → c.trades ≡ b.trades
    → c.next_trade_id ≡ b.next_trade_id
    → (c.object order).leaves_qty ≡ (b.object order).leaves_qty
    → Takes order b rs c rs
Takes-none order b c rs e f l = record {
  new = [];
  result = sym (append-nil rs);
  posted = Posted-none b c e f;
  balance = omega (arith, l);
}

pub Takes-trans :
    {order : Ptr} {a b c : OrderBook} {rs ss ts : List Trade}
    → Takes order a rs b ss
    → Takes order b ss c ts
    → Takes order a rs c ts
Takes-trans {order} {a} {b} {c} {rs} p q = record {
  new = p.new ++ q.new;
  result = q.result ∙ ap (λ l. l ++ q.new) p.result ∙ append_assoc rs p.new q.new;
  posted = Posted-trans p.posted q.posted;
  balance = omega (arith, volume-append p.new q.new, p.balance, q.balance);
}

leaves-fill :
    (o : Order) (a : ℕ)
    → min o.leaves_qty a + (fill o (min o.leaves_qty a)).leaves_qty ≡ o.leaves_qty
unfolding fill
leaves-fill o a = ground arith

leaves-replenish : (o : Order) → (replenish o).leaves_qty ≡ o.leaves_qty
unfolding replenish
leaves-replenish o = ground arith

exchange-taker :
    (order resting : Ptr) (qty : ℕ) (b : OrderBook)
    → resting ≢ order
    → (exchange order resting qty b).object order ≡ fill (b.object order) qty
unfolding exchange modify_object
exchange-taker order resting qty b apart = ground arith

leaves-execute :
    (side : Side) (order resting : Ptr) (price : ℤ) (qty : ℕ) (s : Sweep)
    → resting ≢ order
    → ((execute side order resting price qty s).book.object order).leaves_qty
      ≡ (fill (s.book.object order) qty).leaves_qty
unfolding trigger
leaves-execute side order resting price qty s apart = ground (
  arith,
  execute-object side order resting price qty s order,
  exchange-taker order resting qty s.book apart,
)

execute-Takes :
    (side : Side) (order resting : Ptr) (price : ℤ) (a : ℕ) (s : Sweep)
    → resting ≢ order
    → let t = execute side order resting price (min (s.book.object order).leaves_qty a) s in
      Takes order s.book s.result t.book t.result
unfolding execute record_trade exchange modify_object make_trade
execute-Takes side order resting price a s apart = record {
  new = t ∷ [];
  result = refl;
  posted = record { trades = scanned.trades; numbered = (refl, scanned.next_trade_id) };
  balance = omega (
    arith,
    leaves-execute side order resting price qty s apart,
    leaves-fill (s.book.object order) a,
  );
}
  where
    qty : ℕ
    qty = min (s.book.object order).leaves_qty a

    b : OrderBook
    b = exchange order resting qty s.book

    t : Trade
    t = make_trade side order resting price qty b

    scanned :
        Scanned
          (record_trade t b).pending_stops
          (record_trade t b)
          (check_stop_triggers price (record_trade t b))
    scanned = check_stop_triggers-Scanned price (record_trade t b)

leaves-modify_object :
    (resting order : Ptr) (b : OrderBook)
    → ((modify_object resting replenish b).object order).leaves_qty ≡ (b.object order).leaves_qty
unfolding modify_object
leaves-modify_object resting order b = ground (arith, leaves-replenish (b.object resting))

replenish-trades :
    (resting : Ptr) (b : OrderBook)
    → ((modify_object resting replenish b).trades ≡ b.trades)
      × ((modify_object resting replenish b).next_trade_id ≡ b.next_trade_id)
unfolding modify_object
replenish-trades resting b = (refl, refl)

settle-Takes :
    (order resting : Ptr) (rest : Level) (s : Sweep)
    → let t = settle resting rest s in Takes order s.book s.result t.book t.result
settle-Takes order resting rest s =
    settle_cases (λ t. Takes order s.book s.result t.book t.result) resting rest s
      (λ _. Takes-none order s.book _ s.result refl refl refl)
      (λ _ _ _.
        let (e, f) = replenish-trades resting s.book in
        Takes-none order s.book _ s.result e f (leaves-modify_object resting order s.book))
      (λ _ _. Takes-none order s.book s.book s.result refl refl refl)

match_front-Takes :
    (side : Side) (order : Ptr) (price : ℤ) (resting : Ptr) (rest : Level) (s : Sweep)
    → resting ≢ order
    → let t = match_front side order price (resting ∷ rest) s in
      Takes order s.book s.result t.book t.result
match_front-Takes side order price resting rest s apart =
    match_front_cases (λ t. Takes order s.book s.result t.book t.result) side order price resting
      rest s (λ _. Takes-none order s.book s.book s.result refl refl refl)
      (λ _.
        Takes-trans
          (execute-Takes side order resting price (available (s.book.object resting)) s apart)
          (settle-Takes order resting rest _))

pub match_level-Takes :
    (side : Side) (order : Ptr) (price : ℤ) (s : Sweep) {t : Sweep}
    → match_level side order price s ≡ some t
    → All (λ p. p ≢ order) s.level
    → Takes order s.book s.result t.book t.result
match_level-Takes side order price s e apart =
    (match_level_inv
      (λ u. All (λ p. p ≢ order) u.level × Takes order s.book s.result u.book u.result) side order
      price s e
      (λ u resting rest shape _ (h, k). (
        match_front-All (λ p. p ≢ order) side order price resting rest u shape h,
        Takes-trans k (
            match_front-Takes side order price resting rest u
              (subst (All (λ p. p ≢ order)) shape h).0),
      ))
      (apart, Takes-none order s.book s.book s.result refl refl refl)).0.1
