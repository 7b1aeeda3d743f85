-- ===== src/Baseline/Level/Round.antt =====
-- A round of the inner loop of the order book is a round of the baseline.
use limit_order_book_matchin.Base.{
  ℕ, ◌-◌, ◌<◌, ◌≤◌, min, ◌≡◌, ◌≢◌, refl, sym, ap, subst, ◌∙◌, Bool, true, false, List, [], ◌∷◌,
  ◌++◌, map, ℤ, ltb, ◌==◌, arith, if◌then◌else◌, All,
}
use limit_order_book_matchin.Order.{Order, Side, is_filled, is_iceberg}
use limit_order_book_matchin.PriceMap.{Ptr, Level}
use limit_order_book_matchin.OrderBook.Sweep.{
  Sweep, exchange, make_trade, match_front, execute, available,
}
use limit_order_book_matchin.Matching.Cases.Loops.{settle_cases, match_front_cases}
use limit_order_book_matchin.Matching.Frame.{exchange-Kept, execute-Kept}
use limit_order_book_matchin.Matching.Frame.Scan.{Terms, Kept, Kept-trans}
use limit_order_book_matchin.Book.Tally.{tally}
use limit_order_book_matchin.Book.Indexing.Entries.{All-split}
use limit_order_book_matchin.Baseline.{SimpleOrder, simple_trade, Serving, serve_front}
use limit_order_book_matchin.Baseline.Agreement.{
  simple, simple_of, view, Plain, Live, Alike, InStep, apart_from, map-append, simple-make_trade,
  simple-fill, is_iceberg-fill, Live-fill, after, execute-order, execute-resting, view-other,
  other-Plain,
}

available-Plain : (o : Order) → Plain o → available o ≡ o.leaves_qty
unfolding available
available-Plain o h = rw h.0 refl

pub is_filled-leaves : (o : Order) → is_filled o ≡ (o.leaves_qty == 0)
unfolding is_filled
is_filled-leaves o = refl

Live-Alike : (o o' : Order) → Alike o o' → Live o → Live o'
Live-Alike o o' a h = a.2 ∙ h ∙ ap (λ (x : SimpleOrder). ltb 0 x.qty) (sym a.0)

module _ (key : Ptr → ℕ) (side : Side) (order : Ptr) (id : ℕ) (price : ℤ) (others : List Ptr)
    (s0 s : Sweep) (t : Serving) (resting : Ptr) (rest : Level) (shape : s.level ≡ resting ∷ rest)
    (own : (s0.book.object order).id ≡ id) (h : InStep key order others s0 s t) where
  abbrev r : Order
  r = s.book.object resting

  abbrev q : ℕ
  q = min (s.book.object order).leaves_qty (available r)

  -- The state that the baseline reaches.
  abbrev next : Serving
  next = serve_front side id price (simple r ∷ view s.book.object rest) t

  abbrev seen : Ptr → Order
  seen = after side order resting price q s

  once_here : (i : ℕ) → tally key i (order ∷ resting ∷ rest ++ others) ≤ 1
  once_here i = subst (λ l. tally key i (order ∷ l ++ others) ≤ 1) shape (h.once i)

  apart : (resting ≢ order) × All (λ p. (p ≢ order) × (p ≢ resting)) (rest ++ others)
  apart = apart_from key order resting (rest ++ others) once_here

  apart_rest : All (λ p. (p ≢ order) × (p ≢ resting)) rest
  apart_rest = (All-split (λ p. (p ≢ order) × (p ≢ resting)) rest others apart.1).0

  apart_others : All (λ p. (p ≢ order) × (p ≢ resting)) others
  apart_others = (All-split (λ p. (p ≢ order) × (p ≢ resting)) rest others apart.1).1

  front-Plain : Plain r × All (λ p. Plain (s.book.object p)) rest
  front-Plain = subst (All (λ p. Plain (s.book.object p))) shape h.plain

  q_same : q ≡ min t.qty r.leaves_qty
  q_same = omega (arith, h.qty, available-Plain r front-Plain.0)

  left_resting : simple (seen resting) ≡ record (simple r) { qty = r.leaves_qty - q }
  left_resting = (execute-resting side order resting price q s apart.0).0 ∙ simple-fill r q

  left_order : (seen order).leaves_qty ≡ (s.book.object order).leaves_qty - q
  left_order =
      ap (λ (x : SimpleOrder). x.qty)
        ((execute-order side order resting price q s apart.0).0
          ∙ simple-fill (s.book.object order) q)

  resting-Plain : 0 < r.leaves_qty - q → Plain (seen resting)
  resting-Plain less = (
    (execute-resting side order resting price q s apart.0).1
        ∙ is_iceberg-fill r q
        ∙ front-Plain.0.0,
    subst (λ n. 0 < n) (sym (ap (λ (x : SimpleOrder). x.qty) left_resting)) less,
  )

  -- A state with the orders after the trade, the level of the case, and the trade recorded.
  reached :
      (v : Sweep) (done : Bool)
      → v.book.object ≡ seen
      → Kept s0.book v.book
      → v.level ≡ (if done then rest else resting ∷ rest)
      → v.result
        ≡ s.result ++ make_trade side order resting price q (exchange order resting q s.book) ∷ []
      → (r.leaves_qty - q == 0) ≡ done
      → InStep key order others s0 v next
  unfolding serve_front
  reached v done objects k level result test = record {
    kept = k;
    queue = rw (objects, level, sym q_same, test) (by_done done);
    plain = rw (objects, level) (plain_by done test);
    qty = rw objects (left_order ∙ omega (arith, q_same, h.qty));
    live =
        rw objects
          (Live-Alike _ _ (execute-order side order resting price q s apart.0) (Live-fill _ q));
    others_same =
        rw objects (view-other side order resting price q s others apart_others ∙ h.others_same);
    others_plain =
        rw objects (other-Plain side order resting price q s others apart_others h.others_plain);
    trades =
        ap (map simple_of) result
        ∙ map-append simple_of s.result
            (make_trade side order resting price q (exchange order resting q s.book) ∷ [])
        ∙ ap
            (λ l.
              l
              ++ simple_of (make_trade side order resting price q (exchange order resting q s.book))
                ∷ [])
            h.trades
        ∙ ap (λ x. t.trades ++ x ∷ [])
            (simple-make_trade side order resting price q id (exchange order resting q s.book)
                same_own
              ∙ ap (λ i. simple_trade side id i price q) same_id
              ∙ ap (λ n. simple_trade side id r.id price n) q_same);
    once = λ i. rw level (once_by done i);
  }
    where
      same_own : ((exchange order resting q s.book).object order).id ≡ id
      same_own =
          ap (λ (x : Terms). x.id)
            ((Kept-trans h.kept (exchange-Kept order resting q s.book)).terms_of order)
          ∙ own

      same_id : ((exchange order resting q s.book).object resting).id ≡ r.id
      same_id = ap (λ (x : Terms). x.id) ((exchange-Kept order resting q s.book).terms_of resting)

      by_done :
          (d : Bool)
          → view seen (if d then rest else resting ∷ rest) ≡ (
              if d
              then view s.book.object rest
              else record (simple r) { qty = r.leaves_qty - q } ∷ view s.book.object rest)
      by_done true = view-other side order resting price q s rest apart_rest
      by_done false =
          ap (λ x. x ∷ view seen rest) left_resting
          ∙ ap (λ l. record (simple r) { qty = r.leaves_qty - q } ∷ l)
              (view-other side order resting price q s rest apart_rest)

      plain_by :
          (d : Bool)
          → (r.leaves_qty - q == 0) ≡ d
          → All (λ p. Plain (seen p)) (if d then rest else resting ∷ rest)
      plain_by true e = other-Plain side order resting price q s rest apart_rest front-Plain.1
      plain_by false e = (
        resting-Plain (ground arith),
        other-Plain side order resting price q s rest apart_rest front-Plain.1,
      )

      once_by :
          (d : Bool) (i : ℕ)
          → tally key i (order ∷ (if d then rest else resting ∷ rest) ++ others) ≤ 1
      once_by true i = omega (arith, once_here i)
      once_by false i = once_here i

  same_test : (d : Bool) → is_filled (seen resting) ≡ d → (r.leaves_qty - q == 0) ≡ d
  same_test d e =
      ap (λ (x : SimpleOrder). x.qty == 0) (sym left_resting)
      ∙ sym (is_filled-leaves (seen resting))
      ∙ e

  no_lot : (is_iceberg (seen resting)) ≡ false
  no_lot =
      (execute-resting side order resting price q s apart.0).1
      ∙ is_iceberg-fill r q
      ∙ front-Plain.0.0

  executed : Kept s0.book (execute side order resting price q s).book
  executed = Kept-trans h.kept (execute-Kept side order resting price q s)

  -- A round keeps the two in step.
  pub match_front-InStep :
      InStep key order others s0 (match_front side order price (resting ∷ rest) s) next
  unfolding execute
  match_front-InStep =
      let R = λ (v : Sweep). InStep key order others s0 v next in
      match_front_cases R side order price resting rest s
        (λ none_left. absurd (
          let p = front-Plain.0 in let a = available-Plain r p in omega (arith, none_left, a, p.1)))
        (λ _.
          settle_cases R resting rest (execute side order resting price q s)
            (λ e.
              reached _ true refl
                (record {
                  terms_of = λ p. executed.terms_of p;
                  bids = executed.bids;
                  asks = executed.asks;
                  next_ptr = executed.next_ptr;
                  stop_count = executed.stop_count;
                })
                refl refl (same_test true e))
            (λ _ ice _. absurd (let k = sym ice ∙ no_lot in ground (arith, k)))
            (λ e _. reached _ false refl executed shape refl (same_test false e)))
