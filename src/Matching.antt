-- ===== src/Matching.antt =====
-- What src/orderbook.cpp's matching guarantees: the theorems about OrderBook.Matching.
pub mod Cases
pub mod Frame
pub mod Objects
pub mod Termination
pub mod Fairness
pub mod Ledger
pub mod Stops
pub mod Priority
pub mod Complete
pub mod Leaves
pub mod Settlement
