-- ===== src/ConcurrentEngine/Dispatch.antt =====
-- What the producers of benchmark/concurrent_matching_engine.cpp submit is what the engine is asked.
use limit_order_book_matchin.Base.{
  ℕ, suc, ◌+◌, ◌≡◌, refl, sym, ap, subst, ◌∙◌, true, false, List, [], ◌∷◌, ◌++◌, append-nil,
  append_assoc, some, ℤ, arith, length,
}
use limit_order_book_matchin.Order.{Side, buy, sell, u64}
use limit_order_book_matchin.MatchingEngine.{
  MatchingEngine, Request, limit_request, market_request, cancel_request, serve, serve_all,
}
use limit_order_book_matchin.MatchingEngine.Sessions.{serve_total}
use limit_order_book_matchin.ConcurrentEngine.{
  OrderEvent, new_event, enqueue_limit, enqueue_market, enqueue_cancel, enqueue_sentinel, Consumer,
  dispatch, consumer_loop, is_sentinel,
}

-- What a producer may submit.
pub data Submission : Type 0 where
  limit_submission : Side → ℤ → ℕ → Submission
  market_submission : Side → ℕ → Submission
  cancel_submission : ℕ → Submission

unfoldable pub enqueue_one : Submission → List OrderEvent → List OrderEvent
enqueue_one (limit_submission side price qty) = enqueue_limit side price qty
enqueue_one (market_submission side qty) = enqueue_market side qty
enqueue_one (cancel_submission id) = enqueue_cancel id

unfoldable pub enqueue_all : List Submission → List OrderEvent → List OrderEvent
enqueue_all [] queue = queue
enqueue_all (s ∷ ss) queue = enqueue_all ss (enqueue_one s queue)

-- The requests of the submissions, from the n-th reading of the clock on.
abbrev pub request_of : ℤ → Submission → Request
request_of now (limit_submission side price qty) = limit_request side price qty now
request_of now (market_submission side qty) = market_request side qty now
request_of now (cancel_submission id) = cancel_request id

abbrev pub requests_of : (ℕ → ℤ) → ℕ → List Submission → List Request
requests_of clock n [] = []
requests_of clock n (s ∷ ss) = request_of (clock n) s ∷ requests_of clock (suc n) ss

enqueue_one-append :
    (s : Submission) (queue : List OrderEvent) → enqueue_one s queue ≡ queue ++ enqueue_one s []
unfolding enqueue_one enqueue_limit enqueue_market enqueue_cancel
enqueue_one-append (limit_submission side price qty) queue = refl
enqueue_one-append (market_submission side qty) queue = refl
enqueue_one-append (cancel_submission id) queue = refl

-- What is in the queue stays in front.
enqueue_all-append :
    (ss : List Submission) (queue : List OrderEvent)
    → enqueue_all ss queue ≡ queue ++ enqueue_all ss []
unfolding enqueue_all
enqueue_all-append [] queue = sym (append-nil queue)
enqueue_all-append (s ∷ ss) queue =
    enqueue_all-append ss (enqueue_one s queue)
    ∙ ap (λ l. l ++ enqueue_all ss []) (enqueue_one-append s queue)
    ∙ append_assoc queue (enqueue_one s []) (enqueue_all ss [])
    ∙ ap (λ l. queue ++ l) (sym (enqueue_all-append ss (enqueue_one s [])))

u64_step : (a n : ℕ) → u64 (u64 (a + 1) + n) ≡ u64 (a + suc n)
u64_step a n = omega arith

abbrev after_event : MatchingEngine → Consumer → Consumer
after_event e c = record c {
  engine = e;
  events_processed = u64 (c.events_processed + 1);
  dispatched = suc c.dispatched;
}

cons_inj : {x y : OrderEvent} → (x ∷ []) ≡ (y ∷ []) → x ≡ y
cons_inj {x} {y} e = ap (λ l. first x l) e
  where
    first : OrderEvent → List OrderEvent → OrderEvent
    first d [] = d
    first d (z ∷ zs) = z

abbrev Serves : ℤ → Submission → MatchingEngine → OrderEvent → Type 0
Serves now s e ev = (dispatch now ev e ≡ serve (request_of now s) e) × (is_sentinel ev.kind ≡ false)

dispatch-serve :
    (now : ℤ) (s : Submission) (ev : OrderEvent) (e : MatchingEngine)
    → enqueue_one s [] ≡ ev ∷ []
    → (dispatch now ev e ≡ serve (request_of now s) e) × (is_sentinel ev.kind ≡ false)
unfolding enqueue_one enqueue_limit enqueue_market enqueue_cancel dispatch serve
dispatch-serve now (limit_submission buy price qty) ev e shape =
    subst (Serves now (limit_submission buy price qty) e) (cons_inj shape) (refl, refl)
dispatch-serve now (limit_submission sell price qty) ev e shape =
    subst (Serves now (limit_submission sell price qty) e) (cons_inj shape) (refl, refl)
dispatch-serve now (market_submission buy qty) ev e shape =
    subst (Serves now (market_submission buy qty) e) (cons_inj shape) (refl, refl)
dispatch-serve now (market_submission sell qty) ev e shape =
    subst (Serves now (market_submission sell qty) e) (cons_inj shape) (refl, refl)
dispatch-serve now (cancel_submission id) ev e shape =
    subst (Serves now (cancel_submission id) e) (cons_inj shape) (refl, refl)

one_event : (s : Submission) → (ev : OrderEvent) × (enqueue_one s [] ≡ ev ∷ [])
unfolding enqueue_one enqueue_limit enqueue_market enqueue_cancel
one_event (limit_submission side price qty) = (_, refl)
one_event (market_submission side qty) = (_, refl)
one_event (cancel_submission id) = (_, refl)

consumer_loop-cons :
    (clock : ℕ → ℤ) (ev : OrderEvent) (queue : List OrderEvent) (c : Consumer) {e : MatchingEngine}
    → is_sentinel ev.kind ≡ false
    → dispatch (clock c.dispatched) ev c.engine ≡ some e
    → consumer_loop clock (ev ∷ queue) c ≡ consumer_loop clock queue (after_event e c)
unfolding consumer_loop
consumer_loop-cons clock ev queue c kind ran = rw (kind, ran, consumer_loop) refl

-- What the consumer has done when it stops.
pub record Served (clock : ℕ → ℤ) (ss : List Submission) (queue later : List OrderEvent)
    (c : Consumer) : Type 0 where
  pub final : Consumer
  pub returned : consumer_loop clock queue c ≡ some final
  pub served : serve_all (requests_of clock c.dispatched ss) c.engine ≡ some final.engine
  pub counted : u64 final.events_processed ≡ u64 (c.events_processed + length ss)
  pub left : final.queue ≡ later
  pub stopped : final.stopped ≡ true

-- The consumer serves the submissions that were queued before the sentinel, each once and in their
-- order, as requests to the engine; counts them modulo 2^64; and stops at the sentinel, with what was
-- queued behind it left.
pub consumer_loop-Served :
    (clock : ℕ → ℤ) (ss : List Submission) (later : List OrderEvent) (c : Consumer)
    → Served clock ss (enqueue_sentinel (enqueue_all ss []) ++ later) later c
unfolding enqueue_sentinel enqueue_all consumer_loop new_event serve_all
consumer_loop-Served clock [] later c = record {
  final = record c { queue = later; stopped = true };
  returned = refl;
  served = refl;
  counted = ap u64 (omega arith);
  left = refl;
  stopped = refl;
}
consumer_loop-Served clock (s ∷ ss) later c =
    let (ev, shape) = one_event s in
    let (same, kind) = dispatch-serve (clock c.dispatched) s ev c.engine shape in
    let (e, ran) = serve_total (request_of (clock c.dispatched) s) c.engine in
    let ih = consumer_loop-Served clock ss later (after_event e c) in
    record {
      final = ih.final;
      returned =
          ap (λ q. consumer_loop clock (enqueue_sentinel q ++ later) c)
            (enqueue_all-append ss (enqueue_one s []) ∙ ap (λ l. l ++ enqueue_all ss []) shape)
          ∙ consumer_loop-cons clock ev _ c kind (same ∙ ran)
          ∙ ih.returned;
      served = rw ran ih.served;
      counted = ih.counted ∙ u64_step c.events_processed (length ss);
      left = ih.left;
      stopped = ih.stopped;
    }
