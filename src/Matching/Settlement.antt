-- ===== src/Matching/Settlement.antt =====
-- The settlement of a match: between which orders each trade is, and what it takes from each.
pub mod Deals
use limit_order_book_matchin.Base.{
  ℕ, ◌+◌, ◌-◌, ◌≡◌, refl, sym, subst, ap, ◌∙◌, true, not, ◌||◌, ◌==◌, min, List, [], ◌∷◌, ◌++◌,
  append_assoc, append-nil, map, some, ℤ, arith, All, All-append, if◌then◌else◌,
}
use limit_order_book_matchin.Order.{Order, Side, buy, sell, is_market}
use limit_order_book_matchin.PriceMap.{Ptr, Level, Levels}
use limit_order_book_matchin.OrderBook.State.{OrderBook, Trade, with_levels, opposite}
use limit_order_book_matchin.OrderBook.Sweep.{
  Sweep, exchange, make_trade, match_front, execute, settle, available, match_level,
}
use limit_order_book_matchin.OrderBook.Matching.{
  Progress, match_side, past_limit, close_level, match,
}
use limit_order_book_matchin.Matching.Cases.{match_cases, run_cascade_inv}
use limit_order_book_matchin.Matching.Cases.Loops.{
  settle_cases, match_front_cases, match_level_inv, match_side_inv,
}
use limit_order_book_matchin.Matching.Frame.{
  match_front-Kept, exchange-Kept, close_level-Stable, match_side-Stable,
}
use limit_order_book_matchin.Matching.Frame.Scan.{
  Terms, Kept, Kept-refl, Kept-trans, Stable, Stable-refl, Stable-trans,
}
use limit_order_book_matchin.Matching.Objects.{match_front-All, rest_in_book-object}
use limit_order_book_matchin.Matching.Leaves.{
  leaves_of-exchange, leaves_of-execute, leaves_of-replenish, trade-quantity,
}
use limit_order_book_matchin.Matching.Fairness.{
  IsFair, SameTerms, make_trade-IsFair, ok_to_cross-terms, best_level-IsAt,
}
use limit_order_book_matchin.Book.Known.{
  LevelsKnown, Known, Known-same, close_level-Known, match_side-Known,
}
use limit_order_book_matchin.Book.WellFormed.{
  IsAt, IsWellFormed, IsWellFormed-same, close_level-IsWellFormed, match_side-IsWellFormed,
}
use limit_order_book_matchin.Matching.Settlement.Deals.{Deal, taken-append, deals-append, Settled}

module _ (R : Ptr → Type 0) (f : Ptr → Order) where
  -- A change that leaves the quantities alone settles nothing.
  Settled-none :
      (b c : OrderBook) (rs : List Trade)
      → ((p : Ptr) → (c.object p).leaves_qty ≡ (b.object p).leaves_qty)
      → Settled R f b rs c rs
  Settled-none b c rs same = record {
    deals = [];
    result = sym (append-nil rs);
    fair = tt;
    lost = λ p. omega (arith, same p);
  }

  Settled-trans :
      {a b c : OrderBook} {rs ss ts : List Trade}
      → Settled R f a rs b ss
      → Settled R f b ss c ts
      → Settled R f a rs c ts
  Settled-trans {a} {b} {c} {rs} g h = record {
    deals = g.deals ++ h.deals;
    result =
        h.result
        ∙ ap (λ l. l ++ map (λ (d : Deal). d.trade) h.deals) g.result
        ∙ append_assoc rs (map (λ (d : Deal). d.trade) g.deals)
            (map (λ (d : Deal). d.trade) h.deals)
        ∙ ap (λ l. rs ++ l) (sym (deals-append g.deals h.deals));
    fair = All-append _ g.deals h.deals g.fair h.fair;
    lost = λ p. omega (arith, g.lost p, h.lost p, taken-append p g.deals h.deals);
  }

  settle-Settled :
      (resting : Ptr) (rest : Level) (s : Sweep)
      → let t = settle resting rest s in Settled R f s.book s.result t.book t.result
  settle-Settled resting rest s =
      settle_cases (λ t. Settled R f s.book s.result t.book t.result) resting rest s
        (λ _. Settled-none s.book _ s.result (λ p. refl))
        (λ _ _ _. Settled-none s.book _ s.result (λ p. leaves_of-replenish resting p s.book))
        (λ _ _. Settled-none s.book s.book s.result (λ p. refl))

  module _ (side : Side) (order : Ptr) (own : (f order).side ≡ side) (known : R order) where
    execute-Settled :
        (resting : Ptr) (price : ℤ) (q : ℕ) (s : Sweep)
        → R resting
        → IsFair f order resting
            (make_trade side order resting price q (exchange order resting q s.book))
        → let t = execute side order resting price q s in
          Settled R f s.book s.result t.book t.result
    unfolding execute
    execute-Settled resting price q s stands fair = record {
      deals = deal ∷ [];
      result = refl;
      fair = ((known, stands, fair), tt);
      lost = λ p.
          leaves_of-execute side order resting price q s p
          ∙ leaves_of-exchange order resting p q s.book
          ∙ ap
              (λ n.
                (s.book.object p).leaves_qty
                - ((if order == p then n else 0) + (if resting == p then n else 0) + 0))
              (sym (trade-quantity side order resting price q (exchange order resting q s.book)));
    }
      where
        deal : Deal
        deal = record {
          taker = order;
          maker = resting;
          trade = make_trade side order resting price q (exchange order resting q s.book);
        }

    match_front-Settled :
        (resting : Ptr) (rest : Level) (price : ℤ) (s : Sweep)
        → R resting
        → SameTerms f s.book
        → IsAt (opposite side) price (f resting)
        → (is_market (f order) || not (past_limit side price (f order).price)) ≡ true
        → let t = match_front side order price (resting ∷ rest) s in
          Settled R f s.book s.result t.book t.result
    match_front-Settled resting rest price s stands same at within =
        match_front_cases (λ t. Settled R f s.book s.result t.book t.result) side order price
          resting rest s (λ _. Settled-none s.book s.book s.result (λ p. refl))
          (λ _.
            let q = min (s.book.object order).leaves_qty (available (s.book.object resting)) in
            Settled-trans
              (execute-Settled resting price q s stands (
                make_trade-IsFair f side order resting price q (exchange order resting q s.book) own
                  (λ p. (exchange-Kept order resting q s.book).terms_of p ∙ same p) at within))
              (settle-Settled resting rest (execute side order resting price q s)))

    match_level-Settled :
        (price : ℤ) (s : Sweep) {t : Sweep}
        → match_level side order price s ≡ some t
        → SameTerms f s.book
        → (is_market (f order) || not (past_limit side price (f order).price)) ≡ true
        → All (λ p. R p × IsAt (opposite side) price (f p)) s.level
        → Settled R f s.book s.result t.book t.result
    match_level-Settled price s e same within at =
        (match_level_inv
          (λ u.
            Kept s.book u.book
            × All (λ p. R p × IsAt (opposite side) price (f p)) u.level
            × Settled R f s.book s.result u.book u.result)
          side order price s e
          (λ u resting rest shape _ (k, at_u, h).
            let front = (subst (All (λ p. R p × IsAt (opposite side) price (f p))) shape at_u).0 in
            (
              Kept-trans k (match_front-Kept side order price resting rest u),
              match_front-All (λ p. R p × IsAt (opposite side) price (f p)) side order price resting
                  rest u shape at_u,
              Settled-trans h (
                  match_front-Settled resting rest price u front.0 (λ p. k.terms_of p ∙ same p)
                    front.1 within),
            ))
          (Kept-refl s.book, at, Settled-none s.book s.book s.result (λ p. refl))).0.2

    levels-object : (x : Side) (m : Levels) (b : OrderBook) → (with_levels x m b).object ≡ b.object
    levels-object buy m b = refl
    levels-object sell m b = refl

    All-pair : (P Q : Ptr → Type 0) (ps : List Ptr) → All P ps → All Q ps → All (λ p. P p × Q p) ps
    All-pair P Q [] h k = tt
    All-pair P Q (p ∷ ps) h k = ((h.0, k.0), All-pair P Q ps h.1 k.1)

    match_side-Settled :
        (b : OrderBook) {r : Progress}
        → match_side side order b ≡ some r
        → SameTerms f b
        → IsWellFormed b
        → Known R b
        → Settled R f b [] r.book r.result
    unfolding close_level
    match_side-Settled b {r} e same w known_b =
        let (s, (_, _, _, g), _, last) =
          match_side_inv
            (λ u.
              Stable b u.book
              × IsWellFormed u.book
              × Known R u.book
              × Settled R f b [] u.book u.result)
            side order b e
            (λ u price level rest t shape _ within swept (k, v, n, h).
              let same_u = λ (p : Ptr). k.terms_of p ∙ same p in
              let start : Sweep = record { book = u.book; level = level; result = u.result } in
              let stand : LevelsKnown R ((price, level) ∷ rest) =
                subst (LevelsKnown R) shape (n.sides (opposite side)) in
              (
                Stable-trans k (close_level-Stable side order u price level rest t swept),
                close_level-IsWellFormed side order u price level rest t shape swept v,
                close_level-Known R side order u price level rest t shape swept n,
                Settled-trans
                    (Settled-trans h (
                      match_level-Settled price start swept same_u
                        (ok_to_cross-terms side price (u.book.object order) (f order) (same_u order)
                          within)
                        (All-pair R (λ p. IsAt (opposite side) price (f p)) level stand.0
                          (best_level-IsAt f (opposite side) price level rest u.book same_u shape
                            v))))
                    (Settled-none t.book _ t.result (λ p.
                      ap (λ (g : Ptr → Order). (g p).leaves_qty)
                        (levels-object (opposite side) _ t.book))),
              ))
            (Stable-refl b, w, known_b, Settled-none b b [] (λ p. refl)) in
        subst (λ (u : Progress). Settled R f b [] u.book u.result) last
          (Settled-trans g (
            Settled-none s.book _ s.result
              (λ p. ap (λ (h : Ptr → Order). (h p).leaves_qty) (rest_in_book-object order s.book))))

Settled-after :
    {R : Ptr → Type 0} {f : Ptr → Order} {b c : OrderBook} {ts : List Trade} (rs : List Trade)
    → Settled R f b [] c ts
    → Settled R f b rs c (rs ++ ts)
Settled-after rs h = record {
  deals = h.deals;
  result = ap (λ l. rs ++ l) h.result;
  fair = h.fair;
  lost = h.lost;
}

-- The trades that `match` returns from a well-formed book, those of triggered stops included, are fair
-- deals: each is between a taker and a maker of the other side, at the maker's price, within the taker's
-- limit unless the taker is a market order, under the ids of both by side and with the taker's time.
-- The deals account for all that the match does to quantities: whichever order it is, it has left what it
-- had less the quantities of the deals in which it is the taker or the maker, and nothing if they are
-- more. Takers and makers are the order and those of the levels and stops of the book: they have every
-- `R` that these have.
pub match-Settled :
    (R : Ptr → Type 0) (order : Ptr) (b : OrderBook) {r : Progress}
    → match order b ≡ some r
    → IsWellFormed b
    → R order
    → Known R b
    → Settled R b.object b [] r.book r.result
match-Settled R order b {r} e w stands known =
    match_cases (λ u. Settled R b.object b [] u.book u.result) order b e
      (λ _. Settled-none R b.object b _ [] (λ p. refl))
      (λ _ s ran cascade.
        (run_cascade_inv
          (λ batch u.
            All R batch
            × SameTerms b.object u.book
            × IsWellFormed u.book
            × Known R u.book
            × Settled R b.object b [] u.book u.result)
          s cascade
          (λ stop rest u t ran_stop (h, k, v, n, g).
            let side = (u.book.object stop).side in
            (
              h.1,
              (λ p. (match_side-Stable side stop u.book ran_stop).terms_of p ∙ k p),
              match_side-IsWellFormed side stop u.book ran_stop v,
              match_side-Known R side stop u.book ran_stop h.0 n,
              Settled-trans R b.object g (
                  Settled-after u.result (
                    match_side-Settled R b.object side stop
                      (sym (ap (λ (y : Terms). y.side) (k stop))) h.0 u.book ran_stop k v n)),
            ))
          (λ u (h, k, v, n, g). (
            n.stops.1,
            k,
            IsWellFormed-same refl refl refl v,
            Known-same R u.book _ refl refl (n.stops.0, tt) n,
            record { deals = g.deals; result = g.result; fair = g.fair; lost = g.lost },
          ))
          (let side = (b.object order).side in
            (
              tt,
              (match_side-Stable side order b ran).terms_of,
              match_side-IsWellFormed side order b ran w,
              match_side-Known R side order b ran stands known,
              match_side-Settled R b.object side order refl stands b ran (λ p. refl) w known,
            ))).0.4)
