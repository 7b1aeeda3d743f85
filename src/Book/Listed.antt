-- ===== src/Book/Listed.antt =====
-- Every order of the book stands in one place, under an id of its own, and is found by it if it rests.
use limit_order_book_matchin.Base.{
  ℕ, ◌+◌, ◌≤◌, ◌≡◌, refl, sym, ap, subst, ◌∙◌, ◌⊎◌, inl, inr, List, [], ◌∷◌, ◌++◌, none, some,
  arith, All, All-append, ℕ_discrete,
}
use limit_order_book_matchin.Order.{Side, buy, sell}
use limit_order_book_matchin.PriceMap.{Ptr}
use limit_order_book_matchin.OrderBook.State.{OrderBook, active_find}
use limit_order_book_matchin.OrderBook.Matching.{Progress, match_side, match}
use limit_order_book_matchin.Matching.Cases.{match_cases, run_cascade_inv}
use limit_order_book_matchin.Matching.Frame.{match_side-Stable}
use limit_order_book_matchin.Matching.Frame.Scan.{Terms}
use limit_order_book_matchin.Matching.Priority.Spent.{queue}
use limit_order_book_matchin.Book.Known.{Known, Known-same, match_side-Known}
use limit_order_book_matchin.Book.Tally.{tally, tally_stops, total, tally-append, match_side-total}
use limit_order_book_matchin.Book.Index.{Indexed, Indexed-moved}
use limit_order_book_matchin.Book.Indexing.{match_side-Indexed}
use limit_order_book_matchin.Book.Indexing.Entries.{resting_orders, All-split}

module _ (key : Ptr → ℕ) (Q : ℕ × Ptr → Type 0) where
  Indexed-fewer :
      (ps : List Ptr) (b c : OrderBook)
      → c.active_orders ≡ b.active_orders
      → ((i : ℕ) → tally_stops key i c ≤ tally_stops key i b)
      → Indexed key Q ps b
      → Indexed key Q ps c
  Indexed-fewer ps b c active stops h = record {
    found = subst (λ a. All (λ p. active_find (key p) a ≡ some p) ps) (sym active) h.found;
    unique = h.unique;
    unlisted = λ i. elim (h.unlisted i) [
      | inl e ↦ inl (ap (active_find i) active ∙ e)
      | inr e ↦ inr (omega (arith, e, stops i))
    ];
    entries = subst (All Q) (sym active) h.entries;
  }

  -- Seen from the one side or from the other.
  pub Indexed-turned :
      (side x : Side) (b : OrderBook)
      → Indexed key Q (resting_orders side b) b
      → Indexed key Q (resting_orders x b) b
  Indexed-turned buy buy b h = h
  Indexed-turned sell sell b h = h
  Indexed-turned buy sell b h = swapped (queue b.asks) (queue b.bids) b h
    where
      swapped :
          (xs ys : List Ptr) (b : OrderBook)
          → Indexed key Q (xs ++ ys) b
          → Indexed key Q (ys ++ xs) b
      swapped xs ys b =
          Indexed-moved key Q (xs ++ ys) (ys ++ xs) b
            (λ R k. let (k0, k1) = All-split R xs ys k in All-append R ys xs k1 k0)
            (λ i. omega (arith, tally-append key i xs ys, tally-append key i ys xs))
  Indexed-turned sell buy b h = swapped (queue b.bids) (queue b.asks) b h
    where
      swapped :
          (xs ys : List Ptr) (b : OrderBook)
          → Indexed key Q (xs ++ ys) b
          → Indexed key Q (ys ++ xs) b
      swapped xs ys b =
          Indexed-moved key Q (xs ++ ys) (ys ++ xs) b
            (λ R k. let (k0, k1) = All-split R xs ys k in All-append R ys xs k1 k0)
            (λ i. omega (arith, tally-append key i xs ys, tally-append key i ys xs))

  pub total-resting :
      (side : Side) (i : ℕ) (b : OrderBook)
      → tally key i (resting_orders side b) + tally_stops key i b ≡ total key i b
  total-resting buy i b = omega (arith, tally-append key i (queue b.asks) (queue b.bids))
  total-resting sell i b = omega (arith, tally-append key i (queue b.bids) (queue b.asks))

  -- The invariant, with the names of the orders of a batch that is being run.
  pub record Listing (batch : List Ptr) (b : OrderBook) : Type 0 where
    pub ids : (p : Ptr) → (b.object p).id ≡ key p
    pub indexed : Indexed key Q (resting_orders buy b) b
    pub once : (i : ℕ) → tally key i batch + total key i b ≤ 1
    pub batch_ok : All (λ p. Q (key p, p)) batch
    pub known : Known (λ p. Q (key p, p)) b

  run_one :
      (order : Ptr) (rest : List Ptr) (b : OrderBook) {r : Progress}
      → match_side (b.object order).side order b ≡ some r
      → Listing (order ∷ rest) b
      → Listing rest r.book
  run_one order rest b {r} e h =
      let side = (b.object order).side in
      let same =
        λ (p : Ptr). ap (λ (y : Terms). y.id) ((match_side-Stable side order b e).terms_of p) in
      record {
        ids = λ p. same p ∙ h.ids p;
        indexed = Indexed-turned side buy r.book (
            match_side-Indexed key Q side order b e refl h.ids
              (λ j. omega (arith, h.once j, total-resting side j b)) h.batch_ok.0
              (Indexed-turned buy side b h.indexed));
        once = λ i. omega (arith, h.once i, match_side-total key i order b e);
        batch_ok = h.batch_ok.1;
        known = match_side-Known (λ p. Q (key p, p)) side order b e h.batch_ok.0 h.known;
      }

  -- A match keeps the listing, for an order that is not in the book and whose id is not in use.
  pub match-Listing :
      (order : Ptr) (b : OrderBook) {r : Progress}
      → match order b ≡ some r
      → active_find (key order) b.active_orders ≡ none
      → Listing (order ∷ []) b
      → Listing [] r.book
  match-Listing order b {r} e fresh h =
      match_cases (λ u. Listing [] u.book) order b e
        (λ _. record {
          ids = h.ids;
          indexed = waiting;
          once = λ i. omega (arith, h.once i, tally-append key i b.pending_stops (order ∷ []));
          batch_ok = tt;
          known =
              Known-same (λ p. Q (key p, p)) b _ refl refl
                (
                  All-append (λ p. Q (key p, p)) b.pending_stops (order ∷ []) h.known.stops.0
                      (h.batch_ok.0, tt),
                  h.known.stops.1,
                )
                h.known;
        })
        (λ _ s ran cascade.
          (run_cascade_inv (λ batch u. Listing batch u.book) s cascade
            (λ stop rest u t ran_stop g. run_one stop rest u.book ran_stop g)
            (λ u g. record {
              ids = g.ids;
              indexed =
                  Indexed-fewer (resting_orders buy u.book) u.book _ refl (λ i. omega arith)
                    g.indexed;
              once = λ i. omega (arith, g.once i);
              batch_ok = g.known.stops.1;
              known =
                  Known-same (λ p. Q (key p, p)) u.book _ refl refl (g.known.stops.0, tt) g.known;
            })
            (run_one order [] b ran h)).0)
    where
      c : OrderBook
      c = record b { pending_stops = b.pending_stops ++ order ∷ [] }

      waiting : Indexed key Q (resting_orders buy b) c
      waiting = record {
        found = h.indexed.found;
        unique = h.indexed.unique;
        unlisted = λ i. elim (h.indexed.unlisted i) [
          | inl none_there ↦ inl none_there
          | inr no_stop ↦ by_id i no_stop (ℕ_discrete (key order) i)
        ];
        entries = h.indexed.entries;
      }
        where
          by_id :
              (i : ℕ)
              → tally_stops key i b ≡ 0
              → Dec (key order ≡ i)
              → (active_find i b.active_orders ≡ none) ⊎ (tally_stops key i c ≡ 0)
          by_id i z (yes e) = inl (subst (λ j. active_find j b.active_orders ≡ none) e fresh)
          by_id i z (no ne) =
              inr (
                let g = tally-append key i b.pending_stops (order ∷ []) in ground (arith, g, z, ne))
