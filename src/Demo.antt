-- ===== src/Demo.antt =====
-- src/main.cpp: the demonstrations, as the requests that they make of a new engine. The times of the
-- requests are those of a clock; what is printed in between is left out.
pub mod Apart
use limit_order_book_matchin.Base.{ℕ, zero, suc, ◌+◌, ◌-◌, ◌*◌, List, [], ◌∷◌, ◌++◌, ℤ, pos}
use limit_order_book_matchin.Order.{Side, buy, sell}
use limit_order_book_matchin.MatchingEngine.{
  Request, limit_request, market_request, iceberg_request, stop_loss_request,
}
use limit_order_book_matchin.Baseline.{Quote}

unfoldable pub iceberg_demo : (ℕ → ℤ) → List Request
iceberg_demo clock =
    limit_request sell (pos 1000000) 30 (clock 0)
    ∷ iceberg_request buy (pos 1000000) 500 100 (clock 1)
    ∷ limit_request sell (pos 1000000) 120 (clock 2)
    ∷ limit_request sell (pos 1000000) 300 (clock 3)
    ∷ []

unfoldable pub stop_loss_demo : (ℕ → ℤ) → List Request
stop_loss_demo clock =
    limit_request buy (pos 998000) 100 (clock 0)
    ∷ limit_request buy (pos 995000) 200 (clock 1)
    ∷ stop_loss_request sell (pos 995000) (pos 994000) 100 (clock 2)
    ∷ market_request sell 100 (clock 3)
    ∷ limit_request sell (pos 995000) 50 (clock 4)
    ∷ []

-- `for (int i = first; i < first + count; ++i)`, with one call a round.
abbrev pub calls {ℓ} : {A : Type ℓ} → (ℕ → A) → (first count : ℕ) → List A
calls f first zero = []
calls f first (suc count) = f first ∷ calls f (suc first) count

abbrev pub buy_call : ℕ → ℕ → Quote
buy_call t i = record { side = buy; price = pos (990000 - t * 5000 - i * 1000); qty = 10 }

abbrev pub sell_call : ℕ → ℕ → Quote
sell_call t i = record { side = sell; price = pos (1010000 + t * 5000 + i * 1000); qty = 10 }

-- The calls of one thread.
unfoldable pub buy_thread : ℕ → List Quote
buy_thread t = calls (buy_call t) 0 50

unfoldable pub sell_thread : ℕ → List Quote
sell_thread t = calls (sell_call t) 0 50

-- The calls of two threads, one whole call after another.
pub data Merge : List Quote → List Quote → List Quote → Type 0 where
  merged : Merge [] [] []
  from_left : {q : Quote} {xs ys zs : List Quote} → Merge xs ys zs → Merge (q ∷ xs) ys (q ∷ zs)
  from_right : {q : Quote} {xs ys zs : List Quote} → Merge xs ys zs → Merge xs (q ∷ ys) (q ∷ zs)

-- A run of the four threads.
pub record MultiThreaded (all : List Quote) : Type 0 where
  pub bought : List Quote
  pub sold : List Quote
  pub buys : Merge (buy_thread 0) (buy_thread 1) bought
  pub sells : Merge (sell_thread 0) (sell_thread 1) sold
  pub both : Merge bought sold all

unfoldable pub depth_demo : (ℕ → ℤ) → List Request
depth_demo clock =
    calls (λ i. limit_request buy (pos (1000000 - (i + 1) * 5000)) (50 + i * 10) (clock i)) 0 5
    ++ calls
        (λ i. limit_request sell (pos (1000000 + (i + 1) * 5000)) (40 + i * 15) (clock (5 + i))) 0 5
