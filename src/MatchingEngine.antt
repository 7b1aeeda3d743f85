-- ===== src/MatchingEngine.antt =====
-- include/matching_engine.h and src/matching_engine.cpp: the requests of the engine. The pool gives each
-- order its memory; in the model that is a new object of the book's heap. The clock's reading `now_us`
-- is an argument, and what `verbose_` prints is left out.
pub mod Sessions
pub mod Uncrossed
pub mod Listed
pub mod Orders
use limit_order_book_matchin.Base.{ℕ, ◌+◌, Bool, List, [], ◌∷◌, Option, some, ℤ, pos, ◌>>=◌}
use limit_order_book_matchin.Order.{
  Order, Side, buy, limit, market, u64, new_order, new_iceberg, new_stop_loss,
}
use limit_order_book_matchin.OrderBook.State.{OrderBook, empty_book, new_object}
use limit_order_book_matchin.OrderBook.Matching.{match}
use limit_order_book_matchin.OrderBook.Requests.{cancel_order, modify_order}

pub record MatchingEngine : Type 0 where
  pub book : OrderBook
  pub next_id : ℕ

unfoldable pub new_engine : (ℕ → Order) → MatchingEngine
new_engine object = record { book = empty_book object 0; next_id = 1 }

-- The order is allocated and matched, under the id that `nextId` has taken.
unfoldable pub submit : Order → MatchingEngine → Option MatchingEngine
submit o e = match e.book.next_ptr (new_object o e.book) >>= λ r.
    some (record { book = r.book; next_id = u64 (e.next_id + 1) })

unfoldable pub submit_limit : Side → ℤ → ℕ → ℤ → MatchingEngine → Option (MatchingEngine × ℕ)
submit_limit side price qty now_us e =
    submit (new_order e.next_id now_us side limit price qty) e >>= λ f. some (f, e.next_id)

unfoldable pub submit_market : Side → ℕ → ℤ → MatchingEngine → Option MatchingEngine
submit_market side qty now_us e = submit (new_order e.next_id now_us side market (pos 0) qty) e

unfoldable pub submit_iceberg : Side → ℤ → ℕ → ℕ → ℤ → MatchingEngine → Option (MatchingEngine × ℕ)
submit_iceberg side price total_qty display_qty now_us e =
    submit (new_iceberg e.next_id now_us side price total_qty display_qty) e >>= λ f.
    some (f, e.next_id)

unfoldable pub submit_stop_loss :
    Side → ℤ → ℤ → ℕ → ℤ → MatchingEngine → Option (MatchingEngine × ℕ)
submit_stop_loss side trigger_price limit_price qty now_us e =
    submit (new_stop_loss e.next_id now_us side trigger_price limit_price qty) e >>= λ f.
    some (f, e.next_id)

unfoldable pub engine_cancel_order : ℕ → MatchingEngine → MatchingEngine × Bool
engine_cancel_order order_id e =
    let (b, ok) = cancel_order order_id e.book in (record e { book = b }, ok)

unfoldable pub engine_modify_order : ℕ → ℤ → ℕ → ℤ → MatchingEngine → MatchingEngine × Bool
engine_modify_order order_id new_price new_qty now_us e =
    let (b, ok) = modify_order order_id new_price new_qty now_us e.book in
    (record e { book = b }, ok)

-- The public interface, as data: a request with its arguments and the clock's reading.
pub data Request : Type 0 where
  limit_request : Side → ℤ → ℕ → ℤ → Request
  market_request : Side → ℕ → ℤ → Request
  iceberg_request : Side → ℤ → ℕ → ℕ → ℤ → Request
  stop_loss_request : Side → ℤ → ℤ → ℕ → ℤ → Request
  cancel_request : ℕ → Request
  modify_request : ℕ → ℤ → ℕ → ℤ → Request

unfoldable pub serve : Request → MatchingEngine → Option MatchingEngine
serve (limit_request side price qty now) e = submit_limit side price qty now e >>= λ r. some r.0
serve (market_request side qty now) e = submit_market side qty now e
serve (iceberg_request side price total display now) e =
    submit_iceberg side price total display now e >>= λ r. some r.0
serve (stop_loss_request side trigger_price limit_price qty now) e =
    submit_stop_loss side trigger_price limit_price qty now e >>= λ r. some r.0
serve (cancel_request id) e = some (engine_cancel_order id e).0
serve (modify_request id price qty now) e = some (engine_modify_order id price qty now e).0

-- A session: one request after another.
unfoldable pub serve_all : List Request → MatchingEngine → Option MatchingEngine
serve_all [] e = some e
serve_all (q ∷ qs) e = serve q e >>= λ f. serve_all qs f
