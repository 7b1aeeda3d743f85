-- ===== src/Matching/Priority/Turns.antt =====
-- Turns at the queue of the other side: who trades with the incoming order, and who leaves.
use limit_order_book_matchin.Base.{
  ℕ, ◌+◌, ◌-◌, ◌≡◌, ◌≢◌, refl, sym, subst, ap, ◌∙◌, ◌==◌, List, [], ◌∷◌, ◌++◌, append_assoc,
  append-nil, map, min, some, ℤ, arith, All, All-map, All-append, if◌then◌else◌,
}
use limit_order_book_matchin.Order.{Order, Side, buy, sell}
use limit_order_book_matchin.PriceMap.{Ptr, Level}
use limit_order_book_matchin.OrderBook.State.{OrderBook, Trade}
use limit_order_book_matchin.OrderBook.Sweep.{
  Sweep, exchange, make_trade, match_front, execute, available, match_level,
}
use limit_order_book_matchin.Matching.Cases.Loops.{settle_cases, match_front_cases, match_level_inv}
use limit_order_book_matchin.Matching.Frame.{exchange-Kept, match_front-Kept}
use limit_order_book_matchin.Matching.Frame.Scan.{Terms, Kept, Kept-refl, Kept-trans}
use limit_order_book_matchin.Matching.Leaves.{
  leaves_of-exchange, leaves_of-execute, leaves_of-replenish, trade-quantity,
}
use limit_order_book_matchin.Matching.Priority.Spent.{IsSpent, execute-filled, match_front-IsSpent}

-- Turns at a queue: each maker is at the front when it trades, and the orders that are gone have left from
-- the front.
pub data InTurn : List Ptr → List Ptr → List Ptr → List Ptr → Type 0 where
  no_turn : {q : List Ptr} → InTurn [] [] q q
  trades_at_front :
      {p : Ptr} {makers gone rest after : List Ptr}
      → InTurn makers gone (p ∷ rest) after
      → InTurn (p ∷ makers) gone (p ∷ rest) after
  leaves_front :
      {p : Ptr} {makers gone rest after : List Ptr}
      → InTurn makers gone rest after
      → InTurn makers (p ∷ gone) (p ∷ rest) after

InTurn-trans :
    {ms gs xs ys ns hs zs : List Ptr}
    → InTurn ms gs xs ys
    → InTurn ns hs ys zs
    → InTurn (ms ++ ns) (gs ++ hs) xs zs
InTurn-trans no_turn k = k
InTurn-trans (trades_at_front h) k = trades_at_front (InTurn-trans h k)
InTurn-trans (leaves_front h) k = leaves_front (InTurn-trans h k)

pub InTurn-append :
    {ms gs xs ys : List Ptr} (more : List Ptr)
    → InTurn ms gs xs ys
    → InTurn ms gs (xs ++ more) (ys ++ more)
InTurn-append more no_turn = no_turn
InTurn-append more (trades_at_front h) = trades_at_front (InTurn-append more h)
InTurn-append more (leaves_front h) = leaves_front (InTurn-append more h)

pub InTurn-split : {ms gs xs ys : List Ptr} → InTurn ms gs xs ys → xs ≡ gs ++ ys
InTurn-split no_turn = refl
InTurn-split (trades_at_front h) = InTurn-split h
InTurn-split (leaves_front {p} h) = ap (λ l. p ∷ l) (InTurn-split h)

-- The id under which the trade records the order that rested, for a taker of the given side.
abbrev pub maker_id : Side → Trade → ℕ
maker_id buy t = t.sell_order_id
maker_id sell t = t.buy_order_id

map-append {ℓ κ} :
    {A : Type ℓ} {B : Type κ} (f : A → B) (xs ys : List A) → map f (xs ++ ys) ≡ map f xs ++ map f ys
map-append f [] ys = refl
map-append f (x ∷ xs) ys = ap (λ l. f x ∷ l) (map-append f xs ys)

-- What the trades take from an order that is the maker of them.
abbrev pub given : Ptr → List (Ptr × Trade) → ℕ
given p [] = 0
given p (x ∷ xs) = (if x.0 == p then x.1.quantity else 0) + given p xs

given-append : (p : Ptr) (xs ys : List (Ptr × Trade)) → given p (xs ++ ys) ≡ given p xs + given p ys
given-append p [] ys = omega arith
given-append p (x ∷ xs) ys = let h = given-append p xs ys in omega (arith, h)

abbrev pub makers_of : List (Ptr × Trade) → List Ptr
makers_of = map (λ (x : Ptr × Trade). x.0)

abbrev pub trades_of : List (Ptr × Trade) → List Trade
trades_of = map (λ (x : Ptr × Trade). x.1)

execute-given :
    (side : Side) (order resting : Ptr) (price : ℤ) (q : ℕ) (s : Sweep) (p : Ptr)
    → p ≢ order
    → ((execute side order resting price q s).book.object p).leaves_qty
      ≡ (s.book.object p).leaves_qty
        - given p (
            (resting, make_trade side order resting price q (exchange order resting q s.book)) ∷ [])
execute-given side order resting price q s p ne =
    let a = leaves_of-execute side order resting price q s p in
    let e = leaves_of-exchange order resting p q s.book in
    let t = trade-quantity side order resting price q (exchange order resting q s.book) in
    ground (arith, a, e, t, ne)

-- On the way from the queue, the orders `f0` and the trades `old` to those after, the makers took turns and
-- gave what they traded, under their ids, and what is gone is spent.
pub record Served (side : Side) (id : Ptr → ℕ) (order : Ptr) (f0 : Ptr → Order) (before : List Ptr)
    (old : List Trade) (f : Ptr → Order) (after : List Ptr) (all : List Trade) : Type 0 where
  pub fills : List (Ptr × Trade)
  pub gone : List Ptr
  pub turns : InTurn (makers_of fills) gone before after
  pub result : all ≡ old ++ trades_of fills
  pub recorded : All (λ (x : Ptr × Trade). maker_id side x.1 ≡ id x.0) fills
  pub lost : (p : Ptr) → p ≢ order → (f p).leaves_qty ≡ (f0 p).leaves_qty - given p fills
  pub spent : All (λ p. IsSpent (f p)) gone

module _ (side : Side) (id : Ptr → ℕ) (order : Ptr) where
  pub Served-none :
      (f : Ptr → Order) (ps : List Ptr) (ts : List Trade) → Served side id order f ps ts f ps ts
  Served-none f ps ts = record {
    fills = [];
    gone = [];
    turns = no_turn;
    result = sym (append-nil ts);
    recorded = tt;
    lost = λ p ne. omega arith;
    spent = tt;
  }

  abbrev StaysSpent : (Ptr → Order) → (Ptr → Order) → Type 0
  StaysSpent f g = (p : Ptr) → IsSpent (f p) → IsSpent (g p)

  Served-trans :
      (a b c : Ptr → Order) (before middle after : List Ptr) (rs ss ts : List Trade)
      → StaysSpent b c
      → Served side id order a before rs b middle ss
      → Served side id order b middle ss c after ts
      → Served side id order a before rs c after ts
  Served-trans a b c before middle after rs ss ts stays g h = record {
    fills = g.fills ++ h.fills;
    gone = g.gone ++ h.gone;
    turns =
        subst (λ ms. InTurn ms (g.gone ++ h.gone) before after)
          (sym (map-append (λ (x : Ptr × Trade). x.0) g.fills h.fills))
          (InTurn-trans g.turns h.turns);
    result =
        h.result
        ∙ ap (λ l. l ++ trades_of h.fills) g.result
        ∙ append_assoc rs (trades_of g.fills) (trades_of h.fills)
        ∙ ap (λ l. rs ++ l) (sym (map-append (λ (x : Ptr × Trade). x.1) g.fills h.fills));
    recorded = All-append _ g.fills h.fills g.recorded h.recorded;
    lost = λ p ne. omega (arith, g.lost p ne, h.lost p ne, given-append p g.fills h.fills);
    spent =
        All-append (λ p. IsSpent (c p)) g.gone h.gone (All-map _ _ g.gone stays g.spent) h.spent;
  }

  make_trade-maker_id :
      (resting : Ptr) (price : ℤ) (q : ℕ) (b : OrderBook)
      → (b.object resting).id ≡ id resting
      → maker_id side (make_trade side order resting price q b) ≡ id resting
  unfolding make_trade
  make_trade-maker_id resting price q b e = by_side side
    where
      by_side : (x : Side) → maker_id x (make_trade x order resting price q b) ≡ id resting
      by_side buy = e
      by_side sell = e

  -- A round leaves the front order in place, or pops it when it is spent, and trades with no other.
  match_front-Served :
      (price : ℤ) (resting : Ptr) (rest : Level) (s : Sweep)
      → s.level ≡ resting ∷ rest
      → (s.book.object resting).id ≡ id resting
      → let t = match_front side order price (resting ∷ rest) s in
        Served side id order s.book.object s.level s.result t.book.object t.level t.result
  unfolding execute
  match_front-Served price resting rest s shape named =
      match_front_cases
        (λ t. Served side id order s.book.object s.level s.result t.book.object t.level t.result)
        side order price resting rest s
        (λ a. record {
          fills = [];
          gone = resting ∷ [];
          turns = rw shape (leaves_front no_turn);
          result = sym (append-nil s.result);
          recorded = tt;
          lost = λ p ne. omega arith;
          spent = (a, tt);
        })
        (λ _.
          let q = min (s.book.object order).leaves_qty (available (s.book.object resting)) in
          let c = exchange order resting q s.book in
          let u = execute side order resting price q s in
          let fill_of : List (Ptr × Trade) =
            (resting, make_trade side order resting price q c) ∷ [] in
          let under : All (λ (x : Ptr × Trade). maker_id side x.1 ≡ id x.0) fill_of = (
            make_trade-maker_id resting price q c (
                ap (λ (y : Terms). y.id) ((exchange-Kept order resting q s.book).terms_of resting)
                ∙ named),
            tt,
          ) in
          let gave : (p : Ptr)
              → p ≢ order
              → (u.book.object p).leaves_qty ≡ (s.book.object p).leaves_qty - given p fill_of =
            λ p ne. execute-given side order resting price q s p ne in
          settle_cases
            (λ t.
              Served side id order s.book.object s.level s.result t.book.object t.level t.result)
            resting rest u
            (λ full. record {
              fills = fill_of;
              gone = resting ∷ [];
              turns = rw shape (trades_at_front (leaves_front no_turn));
              result = refl;
              recorded = under;
              lost = gave;
              spent = (execute-filled side order resting price q s full, tt);
            })
            (λ _ _ _. record {
              fills = fill_of;
              gone = [];
              turns = rw shape (trades_at_front no_turn);
              result = refl;
              recorded = under;
              lost = λ p ne. leaves_of-replenish resting p u.book ∙ gave p ne;
              spent = tt;
            })
            (λ _ _. record {
              fills = fill_of;
              gone = [];
              turns = rw shape (trades_at_front no_turn);
              result = refl;
              recorded = under;
              lost = gave;
              spent = tt;
            }))

  abbrev pub Sweeps :
      (Ptr → Order) → List Ptr → List Trade → (Ptr → Order) → List Ptr → List Trade → Type 0
  Sweeps b before old c after all = StaysSpent b c × Served side id order b before old c after all

  pub Sweeps-trans :
      (a b c : Ptr → Order) (l m n : List Ptr) (rs ss ts : List Trade)
      → Sweeps a l rs b m ss
      → Sweeps b m ss c n ts
      → Sweeps a l rs c n ts
  Sweeps-trans a b c l m n rs ss ts (f, g) (h, k) =
      ((λ p x. h p (f p x)), Served-trans a b c l m n rs ss ts h g k)

  pub match_level-Sweeps :
      (price : ℤ) (s : Sweep) {t : Sweep}
      → match_level side order price s ≡ some t
      → ((p : Ptr) → (s.book.object p).id ≡ id p)
      → Sweeps s.book.object s.level s.result t.book.object t.level t.result
  match_level-Sweeps price s e named =
      (match_level_inv
        (λ u.
          Kept s.book u.book × Sweeps s.book.object s.level s.result u.book.object u.level u.result)
        side order price s e
        (λ u resting rest shape _ (kept, k). (
          Kept-trans kept (match_front-Kept side order price resting rest u),
          Sweeps-trans s.book.object u.book.object _ s.level u.level _ s.result u.result _ k (
            match_front-IsSpent side order price resting rest u,
            match_front-Served price resting rest u shape
                (ap (λ (y : Terms). y.id) (kept.terms_of resting) ∙ named resting),
          ),
        ))
        (Kept-refl s.book, ((λ p x. x), Served-none s.book.object s.level s.result))).0.1
