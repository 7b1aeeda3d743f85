-- ===== src/Baseline/Agreement.antt =====
-- One price level swept by the order book and by the baseline, in step.
use limit_order_book_matchin.Base.{
  ℕ, ◌-◌, ◌<◌, ◌≤◌, ◌≡◌, ◌≢◌, refl, sym, ap, subst, ◌∙◌, ◌⊎◌, inl, inr, false, List, [], ◌∷◌, ◌++◌,
  map, ℤ, ltb, arith, All,
}
use limit_order_book_matchin.Order.{Order, Side, buy, sell, fill, trigger, is_iceberg, is_active}
use limit_order_book_matchin.PriceMap.{Ptr}
use limit_order_book_matchin.OrderBook.State.{OrderBook, Trade, modify_object}
use limit_order_book_matchin.OrderBook.Sweep.{Sweep, exchange, make_trade, execute}
use limit_order_book_matchin.Matching.Frame.Scan.{Kept}
use limit_order_book_matchin.Matching.Objects.{execute-object}
use limit_order_book_matchin.Book.Tally.{tally, tally_zero}
use limit_order_book_matchin.Baseline.{SimpleOrder, SimpleTrade, simple_trade, Serving}

-- What the baseline keeps of an order and of a trade.
abbrev pub simple : Order → SimpleOrder
simple o = record { id = o.id; price = o.price; qty = o.leaves_qty }

abbrev pub simple_of : Trade → SimpleTrade
simple_of t = record {
  buy_id = t.buy_order_id;
  sell_id = t.sell_order_id;
  price = t.price;
  qty = t.quantity;
}

abbrev pub view : (Ptr → Order) → List Ptr → List SimpleOrder
view object = map (λ p. simple (object p))

-- An order that shows all that it has, and has something.
abbrev pub Plain : Order → Type 0
Plain o = (is_iceberg o ≡ false) × (0 < o.leaves_qty)

-- An order that is active as long as it has something left.
abbrev pub Live : Order → Type 0
Live o = is_active o ≡ ltb 0 o.leaves_qty

-- Two states of an order that the baseline does not tell apart.
abbrev pub Alike : Order → Order → Type 0
Alike o o' = (simple o' ≡ simple o) × (is_iceberg o' ≡ is_iceberg o) × (is_active o' ≡ is_active o)

Alike-trigger : (o o' : Order) → (o' ≡ o) ⊎ (o' ≡ trigger o) → Alike o o'
unfolding trigger is_iceberg is_active
Alike-trigger o o' (inl e) = subst (Alike o) (sym e) (refl, refl, refl)
Alike-trigger o o' (inr e) = subst (Alike o) (sym e) (refl, refl, refl)

pub simple-fill :
    (o : Order) (q : ℕ) → simple (fill o q) ≡ record (simple o) { qty = o.leaves_qty - q }
unfolding fill
simple-fill o q = ground arith

pub is_iceberg-fill : (o : Order) (q : ℕ) → is_iceberg (fill o q) ≡ is_iceberg o
unfolding fill is_iceberg
is_iceberg-fill o q = ground arith

pub Live-fill : (o : Order) (q : ℕ) → Live (fill o q)
unfolding fill is_active
Live-fill o q = ground arith

exchange-other :
    (order resting p : Ptr) (q : ℕ) (b : OrderBook)
    → p ≢ order
    → p ≢ resting
    → (exchange order resting q b).object p ≡ b.object p
unfolding exchange modify_object
exchange-other order resting p q b h k = ground arith

exchange-both :
    (order resting : Ptr) (q : ℕ) (b : OrderBook)
    → resting ≢ order
    → ((exchange order resting q b).object order ≡ fill (b.object order) q)
      × ((exchange order resting q b).object resting ≡ fill (b.object resting) q)
unfolding exchange modify_object
exchange-both order resting q b h = (ground arith, ground arith)

module _ (side : Side) (order resting : Ptr) (price : ℤ) (q : ℕ) (s : Sweep) where
  abbrev pub after : Ptr → Order
  after = (execute side order resting price q s).book.object

  execute-Alike : (p : Ptr) → Alike ((exchange order resting q s.book).object p) (after p)
  execute-Alike p = Alike-trigger _ _ (execute-object side order resting price q s p)

  execute-other : (p : Ptr) → p ≢ order → p ≢ resting → Alike (s.book.object p) (after p)
  execute-other p h k =
      subst (λ o. Alike o (after p)) (exchange-other order resting p q s.book h k) (execute-Alike p)

  pub execute-order : resting ≢ order → Alike (fill (s.book.object order) q) (after order)
  execute-order h =
      subst (λ o. Alike o (after order)) (exchange-both order resting q s.book h).0
        (execute-Alike order)

  pub execute-resting : resting ≢ order → Alike (fill (s.book.object resting) q) (after resting)
  execute-resting h =
      subst (λ o. Alike o (after resting)) (exchange-both order resting q s.book h).1
        (execute-Alike resting)

  -- The other orders look the same.
  pub view-other :
      (ps : List Ptr)
      → All (λ p. (p ≢ order) × (p ≢ resting)) ps
      → view after ps ≡ view s.book.object ps
  view-other [] h = refl
  view-other (p ∷ ps) h =
      let a = execute-other p h.0.0 h.0.1 in
      ap (λ o. o ∷ view after ps) a.0 ∙ ap (λ l. simple (s.book.object p) ∷ l) (view-other ps h.1)

  pub other-Plain :
      (ps : List Ptr)
      → All (λ p. (p ≢ order) × (p ≢ resting)) ps
      → All (λ p. Plain (s.book.object p)) ps
      → All (λ p. Plain (after p)) ps
  other-Plain [] h k = tt
  other-Plain (p ∷ ps) h k =
      let a = execute-other p h.0.0 h.0.1 in
      (
        (a.1 ∙ k.0.0, subst (λ n. 0 < n) (sym (ap (λ (x : SimpleOrder). x.qty) a.0)) k.0.1),
        other-Plain ps h.1 k.1,
      )

-- The order book and the baseline at the same place of a level: the same queue, the same quantity
-- wanted and the same trades; and what keeps them together: the orders of the level are plain, and no
-- order stands in two places (by `key`, the ids), of the level, of `others`, and the incoming order.
pub record InStep (key : Ptr → ℕ) (order : Ptr) (others : List Ptr) (s0 s : Sweep) (t : Serving)
    : Type 0 where
  pub kept : Kept s0.book s.book
  pub queue : view s.book.object s.level ≡ t.queue
  pub plain : All (λ p. Plain (s.book.object p)) s.level
  pub qty : (s.book.object order).leaves_qty ≡ t.qty
  pub live : Live (s.book.object order)
  pub others_same : view s.book.object others ≡ view s0.book.object others
  pub others_plain : All (λ p. Plain (s.book.object p)) others
  pub trades : map simple_of s.result ≡ t.trades
  pub once : (i : ℕ) → tally key i (order ∷ s.level ++ others) ≤ 1

-- Orders that stand in one place are apart from each other.
pub apart_from :
    (key : Ptr → ℕ) (order resting : Ptr) (ps : List Ptr)
    → ((i : ℕ) → tally key i (order ∷ resting ∷ ps) ≤ 1)
    → (resting ≢ order) × All (λ p. (p ≢ order) × (p ≢ resting)) ps
apart_from key order resting ps h = (
  (λ e.
      let k = h (key order) in let f : key resting ≡ key order = ap key e in ground (arith, k, f)),
  both ps (tally_zero key (key order) ps (let k = h (key order) in ground (arith, k)))
      (tally_zero key (key resting) ps (let k = h (key resting) in ground (arith, k))),
)
  where
    both :
        (qs : List Ptr)
        → All (λ p. key p ≢ key order) qs
        → All (λ p. key p ≢ key resting) qs
        → All (λ p. (p ≢ order) × (p ≢ resting)) qs
    both [] f g = tt
    both (q ∷ qs) f g = (((λ e. f.0 (ap key e)), λ e. g.0 (ap key e)), both qs f.1 g.1)

pub map-append {ℓ κ} :
    {A : Type ℓ} {B : Type κ} (f : A → B) (xs ys : List A) → map f (xs ++ ys) ≡ map f xs ++ map f ys
map-append f [] ys = refl
map-append f (x ∷ xs) ys = ap (λ l. f x ∷ l) (map-append f xs ys)

pub simple-make_trade :
    (side : Side) (order resting : Ptr) (price : ℤ) (q id : ℕ) (b : OrderBook)
    → (b.object order).id ≡ id
    → simple_of (make_trade side order resting price q b)
      ≡ simple_trade side id (b.object resting).id price q
unfolding make_trade
simple-make_trade buy order resting price q id b e = rw e refl
simple-make_trade sell order resting price q id b e = rw e refl
