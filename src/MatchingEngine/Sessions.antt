-- ===== src/MatchingEngine/Sessions.antt =====
-- Sessions of the engine of src/matching_engine.cpp: any requests, one after another, from a new engine.
use limit_order_book_matchin.Base.{
  ℕ, ◌+◌, ◌<◌, ◌≡◌, refl, sym, subst, ◌∙◌, List, [], ◌∷◌, Option, some, ℤ, pos, arith, All, ◌>>=◌,
  >>=-eq-some, some_inj, Option-cases, inl, inr,
}
use limit_order_book_matchin.Order.{
  Order, Side, buy, sell, limit, market, u64, new_order, new_iceberg, new_stop_loss, is_active,
}
use limit_order_book_matchin.Order.Quantities.{IsClosed}
use limit_order_book_matchin.PriceMap.{Ptr}
use limit_order_book_matchin.OrderBook.State.{OrderBook, empty_book, new_object, levels}
use limit_order_book_matchin.OrderBook.Matching.{Progress, match}
use limit_order_book_matchin.Matching.Termination.{match_total}
use limit_order_book_matchin.Book.Known.{Known, match-Known, match-next_ptr}
use limit_order_book_matchin.Book.WellFormed.{IsWellFormed, SideOk, match-IsWellFormed}
use limit_order_book_matchin.Book.Cancel.{cancel_order-IsWellFormed}
use limit_order_book_matchin.Book.Fresh.{
  IsAllocated, new_object-IsWellFormed, new_object-IsAllocated, new_object-next,
  cancel_order-IsAllocated, modify_order-IsWellFormed, new_order-IsClosed,
}
use limit_order_book_matchin.MatchingEngine.{
  MatchingEngine, new_engine, submit, submit_limit, submit_market, submit_iceberg, submit_stop_loss,
  engine_cancel_order, engine_modify_order, Request, limit_request, market_request, iceberg_request,
  stop_loss_request, cancel_request, modify_request, serve, serve_all,
}

submit_total : (o : Order) (e : MatchingEngine) → (f : MatchingEngine) × (submit o e ≡ some f)
unfolding submit
submit_total o e =
    let (r, ran) = match_total e.book.next_ptr (new_object o e.book) in
    (record { book = r.book; next_id = u64 (e.next_id + 1) }, rw ran refl)

abbrev labelled : MatchingEngine → ℕ → Option (MatchingEngine × ℕ)
labelled g id = some (g, id)

-- A submission that also returns its id returns if the submission does.
unlabel :
    (m : Option MatchingEngine) (id : ℕ)
    → (f : MatchingEngine) × (m ≡ some f)
    → (f : MatchingEngine) × (((m >>= λ g. labelled g id) >>= λ r. some r.0) ≡ some f)
unlabel m id (f, e) = (f, rw e refl)

pub serve_total : (q : Request) (e : MatchingEngine) → (f : MatchingEngine) × (serve q e ≡ some f)
unfolding serve submit_limit submit_market submit_iceberg submit_stop_loss
serve_total (limit_request side price qty now) e = unlabel _ e.next_id (submit_total _ e)
serve_total (market_request side qty now) e = submit_total _ e
serve_total (iceberg_request side price total display now) e =
    unlabel _ e.next_id (submit_total _ e)
serve_total (stop_loss_request side trigger_price limit_price qty now) e =
    unlabel _ e.next_id (submit_total _ e)
serve_total (cancel_request id) e = (_, refl)
serve_total (modify_request id price qty now) e = (_, refl)

-- The engine serves every list of requests from every state: no request makes it loop forever.
pub serve_all_total :
    (qs : List Request) (e : MatchingEngine) → (f : MatchingEngine) × (serve_all qs e ≡ some f)
unfolding serve_all
serve_all_total [] e = (e, refl)
serve_all_total (q ∷ qs) e =
    let (f, ran) = serve_total q e in let (g, rest) = serve_all_total qs f in (g, rw ran rest)

-- The state between two requests.
pub record IsReady (b : OrderBook) : Type 0 where
  pub formed : IsWellFormed b
  pub allocated : IsAllocated b

match-IsReady :
    (order : Ptr) (b : OrderBook) {r : Progress}
    → match order b ≡ some r
    → order < b.next_ptr
    → IsReady b
    → IsReady r.book
match-IsReady order b {r} ran less h = record {
  formed = match-IsWellFormed order b ran h.formed;
  allocated =
      subst (λ n. Known (λ p. p < n) r.book) (sym (match-next_ptr order b ran))
        (match-Known (λ p. p < b.next_ptr) order b ran less h.allocated);
}

submit-IsReady :
    (o : Order) (e : MatchingEngine) {f : MatchingEngine}
    → submit o e ≡ some f
    → IsClosed o
    → IsReady e.book
    → IsReady f.book
unfolding submit
submit-IsReady o e {f} ran closed h =
    let (r, matched, last) = >>=-eq-some (match e.book.next_ptr (new_object o e.book)) _ ran in
    subst (λ (g : MatchingEngine). IsReady g.book) (some_inj last)
      (match-IsReady e.book.next_ptr (new_object o e.book) matched (new_object-next o e.book)
        (record {
          formed = new_object-IsWellFormed o e.book closed h.allocated h.formed;
          allocated = new_object-IsAllocated o e.book h.allocated;
        }))

pub new_iceberg-IsClosed :
    (id : ℕ) (ts : ℤ) (side : Side) (price : ℤ) (total display : ℕ)
    → IsClosed (new_iceberg id ts side price total display)
unfolding new_iceberg new_order is_active
new_iceberg-IsClosed id ts side price total display = λ h. ground arith

pub new_stop_loss-IsClosed :
    (id : ℕ) (ts : ℤ) (side : Side) (trigger_price limit_price : ℤ) (qty : ℕ)
    → IsClosed (new_stop_loss id ts side trigger_price limit_price qty)
unfolding new_stop_loss new_order is_active
new_stop_loss-IsClosed id ts side trigger_price limit_price qty = λ h. ground arith

-- A submission that also returns its id.
pub with_id :
    (m : Option MatchingEngine) (id : ℕ) {f : MatchingEngine}
    → ((m >>= λ g. labelled g id) >>= λ r. some r.0) ≡ some f
    → m ≡ some f
with_id m id e = elim (Option-cases m) [ inl n ↦ cc | inr (g, n) ↦ n ∙ (rw n at e) ]

pub serve-IsReady :
    (q : Request) (e : MatchingEngine) {f : MatchingEngine}
    → serve q e ≡ some f
    → IsReady e.book
    → IsReady f.book
unfolding serve submit_limit submit_market submit_iceberg submit_stop_loss engine_cancel_order
    engine_modify_order
serve-IsReady (limit_request side price qty now) e ran h =
    submit-IsReady _ e (with_id _ e.next_id ran) (new_order-IsClosed _ now side limit price qty) h
serve-IsReady (market_request side qty now) e ran h =
    submit-IsReady _ e ran (new_order-IsClosed _ now side market (pos 0) qty) h
serve-IsReady (iceberg_request side price total display now) e ran h =
    submit-IsReady _ e (with_id _ e.next_id ran)
      (new_iceberg-IsClosed _ now side price total display) h
serve-IsReady (stop_loss_request side trigger_price limit_price qty now) e ran h =
    submit-IsReady _ e (with_id _ e.next_id ran)
      (new_stop_loss-IsClosed _ now side trigger_price limit_price qty) h
serve-IsReady (cancel_request id) e ran h =
    subst (λ (g : MatchingEngine). IsReady g.book) (some_inj ran)
      (record {
        formed = cancel_order-IsWellFormed id e.book h.formed;
        allocated = cancel_order-IsAllocated id e.book h.allocated;
      })
serve-IsReady (modify_request id price qty now) e ran h =
    let k = modify_order-IsWellFormed id price qty now e.book h.allocated h.formed in
    subst (λ (g : MatchingEngine). IsReady g.book) (some_inj ran)
      (record { formed = k.0; allocated = k.1 })

serve_all-keeps :
    (qs : List Request) (e : MatchingEngine) {f : MatchingEngine}
    → serve_all qs e ≡ some f
    → IsReady e.book
    → IsReady f.book
unfolding serve_all
serve_all-keeps [] e ran h = subst (λ (g : MatchingEngine). IsReady g.book) (some_inj ran) h
serve_all-keeps (q ∷ qs) e ran h =
    let (g, first, rest) = >>=-eq-some (serve q e) _ ran in
    serve_all-keeps qs g rest (serve-IsReady q e first h)

pub new_engine-IsReady : (o : Order) → IsClosed o → IsReady (new_engine (λ _. o)).book
unfolding new_engine empty_book
new_engine-IsReady o closed = record {
  formed = record { sides = formed; closed = λ _. closed };
  allocated = record { sides = known; stops = (tt, tt) };
}
  where
    formed : (side : Side) → SideOk side (λ _. o) (levels side (empty_book (λ _. o) 0))
    formed buy = (tt, tt)
    formed sell = (tt, tt)

    known :
        (side : Side)
        → All (λ e. All (λ (p : Ptr). p < 0) e.1) (levels side (empty_book (λ _. o) 0))
    known buy = tt
    known sell = tt

-- Whatever the engine has been asked since it was made, its book is well formed, and every pointer in
-- its levels and lists of stops is to an order that was made. The content of memory before the first
-- order is any one that has nothing left if it is not active.
pub serve_all-IsReady :
    (qs : List Request) (o : Order) {e : MatchingEngine}
    → serve_all qs (new_engine (λ _. o)) ≡ some e
    → IsClosed o
    → IsReady e.book
serve_all-IsReady qs o ran closed =
    serve_all-keeps qs (new_engine (λ _. o)) ran (new_engine-IsReady o closed)
