-- ===== src/Matching/Stops.antt =====
-- Which stops a match sets off: exactly those that some trade of it triggers.
pub mod Scan
use limit_order_book_matchin.Base.{
  ℕ, ◌≡◌, refl, sym, subst, ap, ◌∙◌, inl, inr, Bool, true, not, ◌&&◌, List, [], ◌∷◌, ◌++◌,
  append_assoc, append-nil, some, ℤ, arith, filter, filter-ext, filter-filter, filter_all,
  filter-cons_of_pass, filter-cons_of_fail, if◌then◌else◌, Bool-cases,
}
use limit_order_book_matchin.Order.{
  Order, Side, buy, sell, trigger, replenish, is_filled, is_market, is_stop_loss,
}
use limit_order_book_matchin.PriceMap.{Ptr, Level, Levels, push_back}
use limit_order_book_matchin.OrderBook.State.{
  OrderBook, Trade, modify_object, levels, with_levels, opposite, add_to_book,
}
use limit_order_book_matchin.OrderBook.Stops.{fires, fires_at, scan_stops, check_stop_triggers}
use limit_order_book_matchin.OrderBook.Sweep.{
  Sweep, exchange, record_trade, make_trade, execute, settle, match_level,
}
use limit_order_book_matchin.OrderBook.Matching.{
  Progress, match_side, close_level, rest_in_book, match,
}
use limit_order_book_matchin.Matching.Cases.{match_cases, run_cascade_inv}
use limit_order_book_matchin.Matching.Cases.Loops.{
  settle_cases, match_front_cases, match_level_inv, match_side_inv,
}
use limit_order_book_matchin.Matching.Frame.{
  match_front-Kept, exchange-Kept, close_level-Stable, match_side-Stable,
}
use limit_order_book_matchin.Matching.Frame.Scan.{
  Terms, terms, Kept, Kept-refl, Kept-trans, Stable, Stable-refl, Stable-trans,
}
use limit_order_book_matchin.Matching.Stops.Scan.{fires-terms, check_stop_triggers-split}

-- No trade fires the order.
abbrev pub quiet : List Trade → Order → Bool
quiet [] o = true
quiet (t ∷ ts) o = not (fires t.price o) && quiet ts o

quiet-append : (ts us : List Trade) (o : Order) → quiet (ts ++ us) o ≡ (quiet ts o && quiet us o)
quiet-append [] us o = refl
quiet-append (t ∷ ts) us o = rw (quiet-append ts us o) (ground arith)

quiet-terms : (ts : List Trade) (o o' : Order) → terms o ≡ terms o' → quiet ts o ≡ quiet ts o'
quiet-terms [] o o' e = refl
quiet-terms (t ∷ ts) o o' e = rw (fires-terms t.price o o' e, quiet-terms ts o o' e) refl

-- The stops of `ps` that no trade has fired are the pending ones.
abbrev Waiting : (Ptr → Order) → List Ptr → OrderBook → List Trade → Type 0
Waiting f ps b rs = b.pending_stops ≡ filter (λ p. quiet rs (f p)) ps

and_true : (x : Bool) → (x && true) ≡ x
and_true x = ground arith

modify_object-pending :
    (p : Ptr) (g : Order → Order) (b : OrderBook)
    → (modify_object p g b).pending_stops ≡ b.pending_stops
unfolding modify_object
modify_object-pending p g b = refl

exchange-pending :
    (order resting : Ptr) (qty : ℕ) (b : OrderBook)
    → (exchange order resting qty b).pending_stops ≡ b.pending_stops
unfolding exchange modify_object
exchange-pending order resting qty b = refl

with_levels-pending :
    (side : Side) (m : Levels) (b : OrderBook)
    → (with_levels side m b).pending_stops ≡ b.pending_stops
with_levels-pending buy m b = refl
with_levels-pending sell m b = refl

rest_in_book-pending :
    (order : Ptr) (b : OrderBook) → (rest_in_book order b).pending_stops ≡ b.pending_stops
unfolding rest_in_book add_to_book
rest_in_book-pending order b =
    let o = b.object order in
    elim (Bool-cases (not (is_filled o) && not (is_market o))) [
      | inl e ↦
          rw (e, rest_in_book)
            (with_levels-pending o.side (push_back o.side o.price order (levels o.side b)) b)
      | inr e ↦ rw (e, rest_in_book) refl
    ]

module _ (f : Ptr → Order) (ps : List Ptr) where
  execute-Waiting :
      (side : Side) (order resting : Ptr) (price : ℤ) (qty : ℕ) (s : Sweep)
      → ((p : Ptr) → terms (s.book.object p) ≡ terms (f p))
      → Waiting f ps s.book s.result
      → let t = execute side order resting price qty s in Waiting f ps t.book t.result
  unfolding execute record_trade make_trade
  execute-Waiting side order resting price qty s same h =
      (check_stop_triggers-split price d).0
      ∙ ap (filter (λ p. not (fires price (b.object p))))
          (exchange-pending order resting qty s.book ∙ h)
      ∙ filter-filter (λ p. quiet s.result (f p)) (λ p. not (fires price (b.object p))) ps
      ∙ filter-ext _ (λ p. quiet (s.result ++ t ∷ []) (f p)) ps
          (λ p.
            ap (λ x. quiet s.result (f p) && not x)
              (fires-terms price (b.object p) (f p)
                ((exchange-Kept order resting qty s.book).terms_of p ∙ same p))
            ∙ ap (λ x. quiet s.result (f p) && x) (sym (and_true (not (fires price (f p)))))
            ∙ sym (quiet-append s.result (t ∷ []) (f p)))
    where
      b : OrderBook
      b = exchange order resting qty s.book

      t : Trade
      t = make_trade side order resting price qty b

      d : OrderBook
      d = record_trade t b

  settle-Waiting :
      (resting : Ptr) (rest : Level) (s : Sweep)
      → Waiting f ps s.book s.result
      → let t = settle resting rest s in Waiting f ps t.book t.result
  settle-Waiting resting rest s h =
      settle_cases (λ t. Waiting f ps t.book t.result) resting rest s (λ _. h)
        (λ _ _ _. modify_object-pending resting replenish s.book ∙ h) (λ _ _. h)

  match_level-Waiting :
      (side : Side) (order : Ptr) (price : ℤ) (s : Sweep) {t : Sweep}
      → match_level side order price s ≡ some t
      → ((p : Ptr) → terms (s.book.object p) ≡ terms (f p))
      → Waiting f ps s.book s.result
      → Waiting f ps t.book t.result
  match_level-Waiting side order price s e same h =
      (match_level_inv (λ u. Kept s.book u.book × Waiting f ps u.book u.result) side order price s e
        (λ u resting rest shape _ (k, g). (
          Kept-trans k (match_front-Kept side order price resting rest u),
          match_front_cases (λ t. Waiting f ps t.book t.result) side order price resting rest u
              (λ _. g)
              (λ _.
                settle-Waiting resting rest _
                  (execute-Waiting side order resting price _ u (λ p. k.terms_of p ∙ same p) g)),
        ))
        (Kept-refl s.book, h)).0.1

  match_side-Waiting :
      (side : Side) (order : Ptr) (b : OrderBook) {r : Progress}
      → match_side side order b ≡ some r
      → ((p : Ptr) → terms (b.object p) ≡ terms (f p))
      → Waiting f ps b []
      → Waiting f ps r.book r.result
  unfolding close_level
  match_side-Waiting side order b e same h =
      let (s, (k, g), _, last) =
        match_side_inv (λ u. Stable b u.book × Waiting f ps u.book u.result) side order b e
          (λ u price level rest t _ _ _ swept (k, g). (
            Stable-trans k (close_level-Stable side order u price level rest t swept),
            with_levels-pending (opposite side) _ t.book
                ∙ match_level-Waiting side order price _ swept (λ p. k.terms_of p ∙ same p) g,
          ))
          (Stable-refl b, h) in
      subst (λ (u : Progress). Waiting f ps u.book u.result) last
        (rest_in_book-pending order s.book ∙ g)

Waiting-start : (f : Ptr → Order) (b : OrderBook) → Waiting f b.pending_stops b []
Waiting-start f b = sym (filter_all (λ p. quiet [] (f p)) b.pending_stops (λ _. refl))

Waiting-append :
    (f : Ptr → Order) (ps : List Ptr) (b c : OrderBook) (rs ts : List Trade)
    → Waiting f ps b rs
    → Waiting f b.pending_stops c ts
    → Waiting f ps c (rs ++ ts)
Waiting-append f ps b c rs ts h g =
    g
    ∙ ap (filter (λ p. quiet ts (f p))) h
    ∙ filter-filter (λ p. quiet rs (f p)) (λ p. quiet ts (f p)) ps
    ∙ filter-ext _ (λ p. quiet (rs ++ ts) (f p)) ps (λ p. sym (quiet-append rs ts (f p)))

-- An order that `match` holds back.
abbrev pub waits : Order → Bool
waits o = is_stop_loss o && not o.triggered

pub record StopsRun (order : Ptr) (b : OrderBook) (r : Progress) : Type 0 where
  pub pending :
      r.book.pending_stops
      ≡ filter (λ p. quiet r.result (b.object p)) b.pending_stops
        ++ (if waits (b.object order) then order ∷ [] else [])
  pub triggered : b.triggered_stops ≡ [] → r.book.triggered_stops ≡ []

-- After `match` the pending stops are exactly those that were pending and that none of its trades
-- fires, in their order, and the order itself if it is a stop that has not been triggered; and if no
-- triggered stop was staged before, none is left staged.
pub match-StopsRun :
    (order : Ptr) (b : OrderBook) {r : Progress} → match order b ≡ some r → StopsRun order b r
match-StopsRun order b {r} e =
    match_cases (StopsRun order b) order b e
      (λ wait. record {
        pending = rw wait (ap (λ l. l ++ order ∷ []) (Waiting-start b.object b));
        triggered = λ h. h;
      })
      (λ go s ran cascade.
        let (k, out) =
          run_cascade_inv
            (λ _ u.
              ((p : Ptr) → terms (u.book.object p) ≡ terms (b.object p))
              × Waiting b.object b.pending_stops u.book u.result)
            s cascade
            (λ stop rest u t ran_stop (same, g).
              let side = (u.book.object stop).side in
              (
                (λ p. (match_side-Stable side stop u.book ran_stop).terms_of p ∙ same p),
                Waiting-append b.object b.pending_stops u.book t.book u.result t.result g (
                    match_side-Waiting b.object u.book.pending_stops side stop u.book ran_stop same
                      (Waiting-start b.object u.book)),
              ))
            (λ u h. h)
            (
              (match_side-Stable (b.object order).side order b ran).terms_of,
              match_side-Waiting b.object b.pending_stops (b.object order).side order b ran
                  (λ _. refl) (Waiting-start b.object b),
            ) in
        record { pending = rw go (k.1 ∙ sym (append-nil _)); triggered = λ _. out })
