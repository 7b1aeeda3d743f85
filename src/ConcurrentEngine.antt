-- ===== src/ConcurrentEngine.antt =====
-- benchmark/order_event.h and benchmark/concurrent_matching_engine.cpp: producers put events in a queue,
-- one consumer thread takes them out and passes them to the engine. The queue is the list of its events,
-- first in front; `clock n` is what the engine's clock reads at the n-th event that is dispatched.
pub mod Dispatch
use limit_order_book_matchin.Base.{
  ℕ, suc, ◌+◌, Bool, true, false, List, [], ◌∷◌, ◌++◌, Option, some, ℤ, pos, ◌==◌, if◌then◌else◌,
  ◌>>=◌,
}
use limit_order_book_matchin.Order.{Side, buy, sell, u64}
use limit_order_book_matchin.MatchingEngine.{
  MatchingEngine, submit_limit, submit_market, engine_cancel_order,
}

-- The three kinds, and the value 255 that `stop` casts to one.
pub data EventKind : Type 0 where
  submit_limit_event submit_market_event cancel_event sentinel : EventKind

-- `side` is a character, by its code.
pub record OrderEvent : Type 0 where
  pub kind : EventKind
  pub order_id : ℕ
  pub side : ℕ
  pub price : ℤ
  pub quantity : ℕ
  pub timestamp_us : ℤ

unfoldable pub new_event : OrderEvent
new_event = record {
  kind = submit_limit_event;
  order_id = 0;
  side = 66;
  price = pos 0;
  quantity = 0;
  timestamp_us = pos 0;
}

abbrev pub side_char : Side → ℕ
side_char buy = 66
side_char sell = 83

abbrev pub side_of_char : ℕ → Side
side_of_char c = if c == 66 then buy else sell

unfoldable pub enqueue_limit : Side → ℤ → ℕ → List OrderEvent → List OrderEvent
enqueue_limit side price qty queue =
    queue
    ++ record new_event {
      kind = submit_limit_event;
      order_id = 0;
      side = side_char side;
      price = price;
      quantity = qty;
    }
      ∷ []

unfoldable pub enqueue_market : Side → ℕ → List OrderEvent → List OrderEvent
enqueue_market side qty queue =
    queue
    ++ record new_event {
      kind = submit_market_event;
      order_id = 0;
      side = side_char side;
      price = pos 0;
      quantity = qty;
    }
      ∷ []

unfoldable pub enqueue_cancel : ℕ → List OrderEvent → List OrderEvent
enqueue_cancel engine_order_id queue =
    queue
    ++ record new_event {
      kind = cancel_event;
      order_id = engine_order_id;
      side = 88;
      price = pos 0;
      quantity = 0;
    }
      ∷ []

-- What `stop` enqueues.
unfoldable pub enqueue_sentinel : List OrderEvent → List OrderEvent
enqueue_sentinel queue = queue ++ record new_event { kind = sentinel } ∷ []

-- The consumer: `dispatched` counts what `events_processed_` does, without its wrap-around.
pub record Consumer : Type 0 where
  pub engine : MatchingEngine
  pub events_processed : ℕ
  pub dispatched : ℕ
  pub queue : List OrderEvent
  pub stopped : Bool

-- The `switch` of the loop.
unfoldable pub dispatch : ℤ → OrderEvent → MatchingEngine → Option MatchingEngine
dispatch now ev e = elim ev.kind [
  | submit_limit_event ↦
      submit_limit (side_of_char ev.side) ev.price ev.quantity now e >>= λ r. some r.0
  | submit_market_event ↦ submit_market (side_of_char ev.side) ev.quantity now e
  | cancel_event ↦ some (engine_cancel_order ev.order_id e).0
  | sentinel ↦ some e
]

abbrev pub is_sentinel : EventKind → Bool
is_sentinel sentinel = true
is_sentinel _ = false

-- The loop, up to where it breaks or finds the queue empty and waits.
unfoldable pub consumer_loop : (ℕ → ℤ) → List OrderEvent → Consumer → Option Consumer
consumer_loop clock [] c = some (record c { queue = [] })
consumer_loop clock (ev ∷ queue) c = elim (is_sentinel ev.kind) [
  | true ↦ some (record c { queue = queue; stopped = true })
  | false ↦ dispatch (clock c.dispatched) ev c.engine >>= λ e. consumer_loop clock queue (record c {
    engine = e;
    events_processed = u64 (c.events_processed + 1);
    dispatched = suc c.dispatched;
  })
]
