-- ===== src/Matching/Stops/Scan.antt =====
-- The scan of the pending stops splits them.
use limit_order_book_matchin.Base.{
  ◌≡◌, refl, sym, ap, ◌∙◌, inl, inr, Bool, not, List, [], ◌∷◌, ◌++◌, append_assoc, append-nil, ℤ,
  arith, filter, filter-ext, filter-cons_of_pass, filter-cons_of_fail, Bool-cases,
}
use limit_order_book_matchin.Order.{Order, trigger}
use limit_order_book_matchin.PriceMap.{Ptr}
use limit_order_book_matchin.OrderBook.State.{OrderBook, modify_object}
use limit_order_book_matchin.OrderBook.Stops.{fires, fires_at, scan_stops, check_stop_triggers}
use limit_order_book_matchin.Matching.Frame.Scan.{Terms, terms}

pub fires-terms : (price : ℤ) (o o' : Order) → terms o ≡ terms o' → fires price o ≡ fires price o'
unfolding fires
fires-terms price o o' e = ap (λ (t : Terms). fires_at price t.side t.trigger_price) e

-- The scan splits the stops that it is given by whether they fire, and keeps both in order.
record Split (price : ℤ) (ps : List Ptr) (b c : OrderBook) : Type 0 where
  pending : c.pending_stops ≡ filter (λ p. not (fires price (b.object p))) ps
  fired : c.triggered_stops ≡ b.triggered_stops ++ filter (λ p. fires price (b.object p)) ps

fires-trigger :
    (price : ℤ) (p : Ptr) (b : OrderBook) (q : Ptr)
    → fires price ((modify_object p trigger b).object q) ≡ fires price (b.object q)
unfolding modify_object fires trigger
fires-trigger price p b q = ground arith

scan_stops-Split :
    (price : ℤ) (ps : List Ptr) (b : OrderBook) → Split price ps b (scan_stops price ps b)
unfolding scan_stops
scan_stops-Split price [] b = record { pending = refl; fired = sym (append-nil b.triggered_stops) }
scan_stops-Split price (p ∷ ps) b = elim (Bool-cases (fires price (b.object p))) [
  | inl hit ↦
      let c : OrderBook = record (modify_object p trigger b) {
        triggered_stops = b.triggered_stops ++ p ∷ [];
      } in
      let ih = scan_stops-Split price ps c in
      rw (hit, scan_stops)
        (record {
          pending =
              ih.pending
              ∙ filter-ext (λ q. not (fires price (c.object q))) (missed b) ps
                  (λ q. ap not (fires-trigger price p b q))
              ∙ sym (filter-cons_of_fail (missed b) p ps (ap not hit));
          fired =
              ih.fired
              ∙ append_assoc b.triggered_stops (p ∷ []) _
              ∙ ap (λ l. b.triggered_stops ++ p ∷ l)
                  (filter-ext (λ q. fires price (c.object q)) (hits b) ps (fires-trigger price p b))
              ∙ ap (λ l. b.triggered_stops ++ l) (sym (filter-cons_of_pass (hits b) p ps hit));
        })
  | inr miss ↦
      let ih = scan_stops-Split price ps b in
      rw (miss, scan_stops)
        (record {
          pending =
              ap (λ l. p ∷ l) ih.pending ∙ sym (filter-cons_of_pass (missed b) p ps (ap not miss));
          fired =
              ih.fired
              ∙ ap (λ l. b.triggered_stops ++ l) (sym (filter-cons_of_fail (hits b) p ps miss));
        })
]
  where
    hits : OrderBook → Ptr → Bool
    hits d q = fires price (d.object q)

    missed : OrderBook → Ptr → Bool
    missed d q = not (fires price (d.object q))

-- `checkStopTriggers` stages the pending stops that the price fires, in order, and keeps the others
-- pending, in order.
pub check_stop_triggers-split :
    (price : ℤ) (b : OrderBook)
    → let c = check_stop_triggers price b in
      (c.pending_stops ≡ filter (λ p. not (fires price (b.object p))) b.pending_stops)
      × (c.triggered_stops
          ≡ b.triggered_stops ++ filter (λ p. fires price (b.object p)) b.pending_stops)
unfolding check_stop_triggers
check_stop_triggers-split price b =
    let s = scan_stops-Split price b.pending_stops b in (s.pending, s.fired)
