-- ===== src/Depth.antt =====
-- src/orderbook.cpp, `printBook` and `printDepth`: the rows and the running totals that they print.
pub mod Totals
use limit_order_book_matchin.Base.{
  ℕ, ◌+◌, List, [], ◌∷◌, ◌++◌, ℤ, pos, leb_ℤ, if◌then◌else◌, length,
}
use limit_order_book_matchin.Order.{u64, u64_sub, visible_qty}
use limit_order_book_matchin.PriceMap.{Level, Levels}
use limit_order_book_matchin.OrderBook.State.{OrderBook}

-- A price and the quantity that its level shows.
abbrev pub Row : Type 0
Row = ℤ × ℕ

-- A printed line: a row with its running total.
abbrev pub Line : Type 0
Line = ℤ × ℕ × ℕ

-- `for (auto& o : level) total += o->visibleQty();`
unfoldable pub level_total : OrderBook → ℕ → Level → ℕ
level_total b total [] = total
level_total b total (o ∷ level) = level_total b (u64 (total + visible_qty (b.object o))) level

-- The best levels of a side, at most as many as asked for.
unfoldable pub collect_rows : OrderBook → ℤ → Levels → List Row → List Row
collect_rows b levels [] rows = rows
collect_rows b levels ((price, level) ∷ rest) rows =
    let more = collect_rows b levels rest (rows ++ (price, level_total b 0 level) ∷ []) in
    if leb_ℤ levels (pos (length rows)) then rows else more

-- `for (auto& [p, q] : ask_rows) cum += q;`
unfoldable pub sum_rows : ℕ → List Row → ℕ
sum_rows cum [] = cum
sum_rows cum ((p, q) ∷ rows) = sum_rows (u64 (cum + q)) rows

-- The order from `rbegin` to `rend`.
abbrev pub reversed {ℓ} : {A : Type ℓ} → List A → List A
reversed [] = []
reversed (x ∷ xs) = reversed xs ++ x ∷ []

-- The loop that prints the asks, given in its order, from their sum down.
unfoldable pub ask_lines : ℕ → List Row → List Line
ask_lines cum [] = []
ask_lines cum ((p, q) ∷ rows) = (p, q, cum) ∷ ask_lines (u64_sub cum q) rows

-- The loop that prints the bids, from zero up.
unfoldable pub bid_lines : ℕ → List Row → List Line
bid_lines cum [] = []
bid_lines cum ((p, q) ∷ rows) = let c = u64 (cum + q) in (p, q, c) ∷ bid_lines c rows

unfoldable pub depth_asks : OrderBook → ℤ → List Line
depth_asks b levels =
    let rows = collect_rows b levels b.asks [] in ask_lines (sum_rows 0 rows) (reversed rows)

unfoldable pub depth_bids : OrderBook → ℤ → List Line
depth_bids b levels = bid_lines 0 (collect_rows b levels b.bids [])
