-- ===== src/Matching/Frame/Scan.antt =====
-- What no method of an order changes, what a sweep leaves alone, and the scan of the stops.
use limit_order_book_matchin.Base.{
  ℕ, ◌+◌, ◌≡◌, refl, ◌∙◌, ◌⊎◌, List, [], ◌∷◌, ◌++◌, ℤ, arith, length, length-append, Bool-cases,
  inl, inr,
}
use limit_order_book_matchin.Order.{Order, Side, OrderKind, trigger, fill, replenish}
use limit_order_book_matchin.PriceMap.{Ptr}
use limit_order_book_matchin.OrderBook.State.{OrderBook, modify_object}
use limit_order_book_matchin.OrderBook.Stops.{scan_stops, fires}

-- What no method of an order changes.
pub record Terms : Type 0 where
  pub id : ℕ
  pub timestamp_us : ℤ
  pub side : Side
  pub kind : OrderKind
  pub price : ℤ
  pub quantity : ℕ
  pub orig_display_qty : ℕ
  pub trigger_price : ℤ

abbrev pub terms : Order → Terms
terms o = record {
  id = o.id;
  timestamp_us = o.timestamp_us;
  side = o.side;
  kind = o.kind;
  price = o.price;
  quantity = o.quantity;
  orig_display_qty = o.orig_display_qty;
  trigger_price = o.trigger_price;
}

pub terms-fill : (o : Order) (qty : ℕ) → terms (fill o qty) ≡ terms o
unfolding fill
terms-fill o qty = ground arith

pub terms-replenish : (o : Order) → terms (replenish o) ≡ terms o
unfolding replenish
terms-replenish o = ground arith

-- The number of stops that have not been run.
abbrev pub stops : OrderBook → ℕ
stops b = length b.triggered_stops + length b.pending_stops

pub record Kept (b c : OrderBook) : Type 0 where
  pub terms_of : (p : Ptr) → terms (c.object p) ≡ terms (b.object p)
  pub bids : c.bids ≡ b.bids
  pub asks : c.asks ≡ b.asks
  pub next_ptr : c.next_ptr ≡ b.next_ptr
  pub stop_count : stops c ≡ stops b

pub Kept-refl : (b : OrderBook) → Kept b b
Kept-refl b = record {
  terms_of = λ p. refl;
  bids = refl;
  asks = refl;
  next_ptr = refl;
  stop_count = refl;
}

pub Kept-trans : {a b c : OrderBook} → Kept a b → Kept b c → Kept a c
Kept-trans k l = record {
  terms_of = λ p. l.terms_of p ∙ k.terms_of p;
  bids = l.bids ∙ k.bids;
  asks = l.asks ∙ k.asks;
  next_ptr = l.next_ptr ∙ k.next_ptr;
  stop_count = l.stop_count ∙ k.stop_count;
}

pub modify_object-Kept :
    (p : Ptr) (f : Order → Order) (b : OrderBook)
    → ((o : Order) → terms (f o) ≡ terms o)
    → Kept b (modify_object p f b)
unfolding modify_object
modify_object-Kept p f b h = record {
  terms_of = λ q. ground (arith, h (b.object p));
  bids = refl;
  asks = refl;
  next_ptr = refl;
  stop_count = refl;
}

-- The same for a whole match, which changes the map.
pub record Stable (b c : OrderBook) : Type 0 where
  pub terms_of : (p : Ptr) → terms (c.object p) ≡ terms (b.object p)
  pub next_ptr : c.next_ptr ≡ b.next_ptr
  pub stop_count : stops c ≡ stops b

pub Kept-Stable : {b c : OrderBook} → Kept b c → Stable b c
Kept-Stable k = record { terms_of = k.terms_of; next_ptr = k.next_ptr; stop_count = k.stop_count }

pub Stable-refl : (b : OrderBook) → Stable b b
Stable-refl b = record { terms_of = λ p. refl; next_ptr = refl; stop_count = refl }

pub Stable-trans : {a b c : OrderBook} → Stable a b → Stable b c → Stable a c
Stable-trans k l = record {
  terms_of = λ p. l.terms_of p ∙ k.terms_of p;
  next_ptr = l.next_ptr ∙ k.next_ptr;
  stop_count = l.stop_count ∙ k.stop_count;
}

-- The scan moves stops and flags them, and touches nothing else.
pub record Scanned (stops_given : List Ptr) (b c : OrderBook) : Type 0 where
  pub flagged : (p : Ptr) → (c.object p ≡ b.object p) ⊎ (c.object p ≡ trigger (b.object p))
  pub bids : c.bids ≡ b.bids
  pub asks : c.asks ≡ b.asks
  pub active_orders : c.active_orders ≡ b.active_orders
  pub trades : c.trades ≡ b.trades
  pub next_trade_id : c.next_trade_id ≡ b.next_trade_id
  pub next_ptr : c.next_ptr ≡ b.next_ptr
  pub count : stops c ≡ length b.triggered_stops + length stops_given

pub scan_stops-Scanned :
    (price : ℤ) (ps : List Ptr) (b : OrderBook) → Scanned ps b (scan_stops price ps b)
unfolding scan_stops modify_object trigger
scan_stops-Scanned price [] b = record {
  flagged = λ p. inl refl;
  bids = refl;
  asks = refl;
  active_orders = refl;
  trades = refl;
  next_trade_id = refl;
  next_ptr = refl;
  count = refl;
}
scan_stops-Scanned price (p ∷ ps) b = elim (Bool-cases (fires price (b.object p))) [
  | inl fired ↦
      let ih =
        scan_stops-Scanned price ps
          (record (modify_object p trigger b) { triggered_stops = b.triggered_stops ++ p ∷ [] }) in
      rw (fired, scan_stops)
        (record {
          flagged = λ q. ground (arith, ih.flagged q);
          bids = ih.bids;
          asks = ih.asks;
          active_orders = ih.active_orders;
          trades = ih.trades;
          next_trade_id = ih.next_trade_id;
          next_ptr = ih.next_ptr;
          count = omega (arith, ih.count, length-append b.triggered_stops (p ∷ []));
        })
  | inr not_fired ↦
      let ih = scan_stops-Scanned price ps b in
      rw (not_fired, scan_stops)
        (record {
          flagged = ih.flagged;
          bids = ih.bids;
          asks = ih.asks;
          active_orders = ih.active_orders;
          trades = ih.trades;
          next_trade_id = ih.next_trade_id;
          next_ptr = ih.next_ptr;
          count = omega (arith, ih.count);
        })
]
