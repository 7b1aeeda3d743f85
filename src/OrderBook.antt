-- ===== src/OrderBook.antt =====
-- include/orderbook.h and src/orderbook.cpp: the book and its operations, by child module.
--
-- Every public method holds the book's mutex from start to end, so a method is one function of the
-- state. `matchBuy` and `matchSell` are the same text up to the side: they are `match_buy` and
-- `match_sell`, the two instances of `match_side`.
pub mod State
pub mod Stops
pub mod Sweep
pub mod Matching
pub mod Requests
