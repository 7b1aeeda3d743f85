-- ===== src/Depth/Totals.antt =====
-- The running totals of `printDepth` in src/orderbook.cpp.
use limit_order_book_matchin.Base.{
  ℕ, ◌+◌, ◌^◌, ◌<◌, ◌≡◌, refl, ap, ◌∙◌, List, [], ◌∷◌, ◌++◌, ℤ, pos, leb_ℤ, arith, length, inl, inr,
  Bool-cases, All, All-append,
}
use limit_order_book_matchin.Order.{u64, u64_sub, visible_qty}
use limit_order_book_matchin.PriceMap.{Level, Levels}
use limit_order_book_matchin.OrderBook.State.{OrderBook}
use limit_order_book_matchin.Depth.{
  Row, level_total, collect_rows, sum_rows, reversed, ask_lines, bid_lines, depth_asks,
}

abbrev Small : Row → Type 0
Small r = r.1 < 2 ^ 64

level_total_small :
    (b : OrderBook) (total : ℕ) (level : Level)
    → total < 2 ^ 64
    → level_total b total level < 2 ^ 64
unfolding level_total
level_total_small b total [] h = h
level_total_small b total (o ∷ level) h =
    level_total_small b (u64 (total + visible_qty (b.object o))) level (omega arith)

collect_rows-Small :
    (b : OrderBook) (levels : ℤ) (m : Levels) (rows : List Row)
    → All Small rows
    → All Small (collect_rows b levels m rows)
unfolding collect_rows
collect_rows-Small b levels [] rows h = h
collect_rows-Small b levels ((price, level) ∷ rest) rows h =
    elim (Bool-cases (leb_ℤ levels (pos (length rows)))) [
      | inl e ↦ rw (e, collect_rows) h
      | inr e ↦
          rw (e, collect_rows)
            (collect_rows-Small b levels rest _ (
              All-append Small rows ((price, level_total b 0 level) ∷ []) h
                (level_total_small b 0 level (omega arith), tt)))
    ]

-- What is left of the total after the lines of some rows.
abbrev left_after : ℕ → List Row → ℕ
left_after cum [] = cum
left_after cum (r ∷ rows) = left_after (u64_sub cum r.1) rows

left_after-append :
    (cum : ℕ) (xs ys : List Row) → left_after cum (xs ++ ys) ≡ left_after (left_after cum xs) ys
left_after-append cum [] ys = refl
left_after-append cum (x ∷ xs) ys = left_after-append (u64_sub cum x.1) xs ys

ask_lines-append :
    (cum : ℕ) (xs ys : List Row)
    → ask_lines cum (xs ++ ys) ≡ ask_lines cum xs ++ ask_lines (left_after cum xs) ys
unfolding ask_lines
ask_lines-append cum [] ys = refl
ask_lines-append cum ((p, q) ∷ xs) ys =
    ap (λ l. (p, q, cum) ∷ l) (ask_lines-append (u64_sub cum q) xs ys)

u64_sub-add : (a q : ℕ) → a < 2 ^ 64 → q < 2 ^ 64 → u64_sub (u64 (a + q)) q ≡ a
u64_sub-add a q h k = omega arith

-- Taking all rows off their sum leaves what it started from.
left_after-reversed :
    (cum : ℕ) (rows : List Row)
    → cum < 2 ^ 64
    → All Small rows
    → left_after (sum_rows cum rows) (reversed rows) ≡ cum
unfolding sum_rows
left_after-reversed cum [] h k = refl
left_after-reversed cum ((p, q) ∷ rows) h k =
    left_after-append (sum_rows (u64 (cum + q)) rows) (reversed rows) ((p, q) ∷ [])
    ∙ ap (λ c. u64_sub c q) (left_after-reversed (u64 (cum + q)) rows (omega arith) k.1)
    ∙ u64_sub-add cum q h k.0

ask_lines-reversed :
    (cum : ℕ) (rows : List Row)
    → cum < 2 ^ 64
    → All Small rows
    → ask_lines (sum_rows cum rows) (reversed rows) ≡ reversed (bid_lines cum rows)
unfolding ask_lines bid_lines sum_rows
ask_lines-reversed cum [] h k = refl
ask_lines-reversed cum ((p, q) ∷ rows) h k =
    let c = u64 (cum + q) in
    let less : c < 2 ^ 64 = omega arith in
    ask_lines-append (sum_rows c rows) (reversed rows) ((p, q) ∷ [])
    ∙ ap (λ l. l ++ ask_lines (left_after (sum_rows c rows) (reversed rows)) ((p, q) ∷ []))
        (ask_lines-reversed c rows less k.1)
    ∙ ap (λ d. reversed (bid_lines c rows) ++ (p, q, d) ∷ []) (left_after-reversed c rows less k.1)

-- The asks of `printDepth`, printed from the farthest in with a total that counts down, are the lines
-- of a total that counts up from the best ask, the farthest first; as for the bids, modulo 2^64.
pub depth_asks_lem :
    (b : OrderBook) (levels : ℤ)
    → depth_asks b levels ≡ reversed (bid_lines 0 (collect_rows b levels b.asks []))
unfolding depth_asks
depth_asks_lem b levels =
    ask_lines-reversed 0 (collect_rows b levels b.asks []) (omega arith)
      (collect_rows-Small b levels b.asks [] tt)
