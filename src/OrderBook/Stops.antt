-- ===== src/OrderBook/Stops.antt =====
-- src/orderbook.cpp, `checkStopTriggers`.
use limit_order_book_matchin.Base.{Bool, true, false, List, [], ◌∷◌, ◌++◌, ℤ, leb_ℤ}
use limit_order_book_matchin.Order.{Order, Side, buy, sell, trigger}
use limit_order_book_matchin.PriceMap.{Ptr}
use limit_order_book_matchin.OrderBook.State.{OrderBook, modify_object}

-- A sell fires when the price has fallen to its trigger, a buy when it has risen to it.
abbrev pub fires_at : ℤ → Side → ℤ → Bool
fires_at last_price sell trigger_price = leb_ℤ last_price trigger_price
fires_at last_price buy trigger_price = leb_ℤ trigger_price last_price

unfoldable pub fires : ℤ → Order → Bool
fires last_price stop = fires_at last_price stop.side stop.trigger_price

-- The scan of `checkStopTriggers` over the stops that the iterator has not passed yet.
unfoldable pub scan_stops : ℤ → List Ptr → OrderBook → OrderBook
scan_stops last_price [] b = record b { pending_stops = [] }
scan_stops last_price (stop ∷ rest) b = elim (fires last_price (b.object stop)) [
  | true ↦
      scan_stops last_price rest
        (record (modify_object stop trigger b) { triggered_stops = b.triggered_stops ++ stop ∷ [] })
  | false ↦
      let c = scan_stops last_price rest b in record c { pending_stops = stop ∷ c.pending_stops }
]

unfoldable pub check_stop_triggers : ℤ → OrderBook → OrderBook
check_stop_triggers last_price b = scan_stops last_price b.pending_stops b
