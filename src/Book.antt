-- ===== src/Book.antt =====
-- The shape of the book of src/orderbook.cpp that its operations keep: theorems about OrderBook.
pub mod Known
pub mod WellFormed
pub mod Uncrossed
pub mod Cancel
pub mod Places
pub mod Removed
pub mod Fresh
pub mod Tally
pub mod Index
pub mod Indexing
pub mod Listed
pub mod Renamed
pub mod Numbering
pub mod Gone
pub mod Delisted
pub mod Relisted
pub mod Restored
pub mod Completed
pub mod Quotes
pub mod Waiting
pub mod Modified
