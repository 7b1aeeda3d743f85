-- ===== src/Demo/Apart.antt =====
-- The multi-threaded demonstration of src/main.cpp makes no trade, however its threads interleave.
pub mod Idle
use limit_order_book_matchin.Base.{
  ℕ, zero, suc, ◌+◌, ◌<◌, ◌≡◌, refl, sym, ap, ◌∙◌, inl, inr, Bool, false, not, ◌&&◌, List, [], ◌∷◌,
  ◌++◌, map, Option, some, ℤ, pos, ◌<ℤ◌, ◌≤ℤ◌, ltb, arith, if◌then◌else◌, is_empty, length, while,
  ◌>>=◌, some_inj, All, All-map, Bool-cases,
}
use limit_order_book_matchin.Order.{Order, Side, buy, sell, u64}
use limit_order_book_matchin.Order.Quantities.{IsClosed}
use limit_order_book_matchin.PriceMap.{before, push_back}
use limit_order_book_matchin.OrderBook.Matching.{past_limit}
use limit_order_book_matchin.MatchingEngine.{MatchingEngine, new_engine, serve_all}
use limit_order_book_matchin.Baseline.{
  SimpleOrder, SimpleLevels, BaselineLob, facing_levels, simple_levels, Walking, best_blocked,
  walking_test, walk_best, walk_levels, put_back, baseline_match, new_baseline, Quote, run_baseline,
}
use limit_order_book_matchin.Baseline.Agreement.{simple_of}
use limit_order_book_matchin.Baseline.Sessions.{limit_requests, run_baseline-serve_all}
use limit_order_book_matchin.Demo.{
  calls, buy_call, sell_call, buy_thread, sell_thread, Merge, merged, from_left, from_right,
  MultiThreaded,
}
use limit_order_book_matchin.Demo.Apart.Idle.{Outside, LobOutside, run_baseline-idle}

Merge-All {κ} :
    (P : Quote → Type κ) {xs ys zs : List Quote} → Merge xs ys zs → All P xs → All P ys → All P zs
Merge-All P merged h k = tt
Merge-All P (from_left m) h k = (h.0, Merge-All P m h.1 k)
Merge-All P (from_right m) h k = (k.0, Merge-All P m h k.1)

Merge-length : {xs ys zs : List Quote} → Merge xs ys zs → length zs ≡ length xs + length ys
Merge-length merged = refl
Merge-length (from_left m) = omega (arith, Merge-length m)
Merge-length (from_right m) = omega (arith, Merge-length m)

calls-All {κ} :
    (P : Quote → Type κ) (f : ℕ → Quote) (first count : ℕ)
    → ((i : ℕ) → P (f i))
    → All P (calls f first count)
calls-All P f first zero h = tt
calls-All P f first (suc count) h = (h first, calls-All P f (suc first) count h)

-- What every call of the demonstration is.
abbrev Call : Quote → Type 0
Call q = Outside (pos 990000) (pos 1010000) (omega arith) q.side q.price × (0 < q.qty)

buy_thread-Call : (t : ℕ) → All Call (buy_thread t)
unfolding buy_thread
buy_thread-Call t = calls-All Call (buy_call t) 0 50 (λ i. (omega arith, omega arith))

sell_thread-Call : (t : ℕ) → All Call (sell_thread t)
unfolding sell_thread
sell_thread-Call t = calls-All Call (sell_call t) 0 50 (λ i. (omega arith, omega arith))

MultiThreaded-Call : (all : List Quote) → MultiThreaded all → All Call all
MultiThreaded-Call all m =
    Merge-All Call m.both (Merge-All Call m.buys (buy_thread-Call 0) (buy_thread-Call 1))
      (Merge-All Call m.sells (sell_thread-Call 0) (sell_thread-Call 1))

MultiThreaded-length : (all : List Quote) → MultiThreaded all → length all ≡ 200
unfolding buy_thread sell_thread
MultiThreaded-length all m =
    omega (arith, Merge-length m.buys, Merge-length m.sells, Merge-length m.both)

map-nil {ℓ κ} : {A : Type ℓ} {B : Type κ} (f : A → B) (xs : List A) → map f xs ≡ [] → xs ≡ []
map-nil f [] h = refl
map-nil f (x ∷ xs) h = cc

-- However the calls of its four threads interleave, the multi-threaded demonstration answers all of them
-- and makes no trade. The content of memory before the first order is any one that has nothing left
-- if it is not active.
pub MultiThreaded-idle :
    (clock : ℕ → ℤ) (all : List Quote) (o : Order)
    → IsClosed o
    → MultiThreaded all
    → (e : MatchingEngine) × (serve_all (limit_requests clock all) (new_engine (λ _. o)) ≡ some e)
      × (e.book.trades ≡ [])
MultiThreaded-idle clock all o closed m =
    let long = MultiThreaded-length all m in
    let fits = MultiThreaded-Call all m in
    let (e, ran, same) =
      run_baseline-serve_all clock all o closed
        (All-map Call (λ q. 0 < q.qty) all (λ q c. c.1) fits) (omega (arith, long)) in
    let (l, idle) =
      run_baseline-idle (pos 990000) (pos 1010000) (omega arith) all new_baseline
        (All-map Call (λ q. Outside (pos 990000) (pos 1010000) (omega arith) q.side q.price) all
          (λ q c. c.0) fits)
        nothing in
    (e, ran, map-nil simple_of e.book.trades (ap (λ r. r.1) (some_inj (sym same ∙ idle))))
  where
    nothing : LobOutside (pos 990000) (pos 1010000) (omega arith) new_baseline
    nothing = (tt, tt)
