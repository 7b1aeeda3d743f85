-- ===== src/Book/Indexing.antt =====
-- A match keeps `active_` an index of the orders that rest in the book.
pub mod Entries
use limit_order_book_matchin.Base.{
  ℕ, ◌+◌, ◌≤◌, ◌≡◌, refl, sym, ap, subst, ◌∙◌, inl, inr, not, ◌&&◌, List, [], ◌∷◌, ◌++◌,
  append_assoc, some, ℤ, arith, All, All-append, Bool-cases, if◌then◌else◌, is_empty,
}
use limit_order_book_matchin.Order.{Side, buy, sell, is_filled, is_market}
use limit_order_book_matchin.PriceMap.{Ptr, Level, Levels, push_back}
use limit_order_book_matchin.PriceMap.Sorted.{push_back-All}
use limit_order_book_matchin.OrderBook.State.{
  OrderBook, modify_object, levels, with_levels, opposite, active_set, add_to_book,
}
use limit_order_book_matchin.OrderBook.Sweep.{
  Sweep, exchange, record_trade, match_front, execute, match_level,
}
use limit_order_book_matchin.OrderBook.Matching.{Progress, match_side, close_level, rest_in_book}
use limit_order_book_matchin.Matching.Cases.Loops.{
  settle_cases, match_front_cases, match_level_inv, match_side_inv,
}
use limit_order_book_matchin.Matching.Frame.{
  execute-Kept, match_front-Kept, match_level-Kept, check_stop_triggers-Scanned, close_level-Stable,
}
use limit_order_book_matchin.Matching.Frame.Scan.{
  Terms, Kept, Kept-refl, Kept-trans, Stable, Stable-refl, Stable-trans,
}
use limit_order_book_matchin.Matching.Priority.{queue-close}
use limit_order_book_matchin.Matching.Priority.Spent.{queue}
use limit_order_book_matchin.Matching.Complete.{own_side-close, own_side-Kept}
use limit_order_book_matchin.Book.Known.{LevelsKnown}
use limit_order_book_matchin.Book.Tally.{
  one, tally, tally_stops, tally-append, tally-push_back, execute-tally, match_level-tally,
  with_levels-tally,
}
use limit_order_book_matchin.Book.Index.{
  Indexed, Indexed-same, Indexed-pop, Indexed-erase, Indexed-set, Indexed-moved,
}
use limit_order_book_matchin.Book.Indexing.Entries.{
  resting_orders, All-split, queue-push_back, execute-active, Entered, add_to_book-Entered,
}

module _ (key : Ptr → ℕ) (Q : ℕ × Ptr → Type 0) where
  -- A round: the front order leaves the level and the index together, if it leaves.
  match_front-Indexed :
      (side : Side) (order : Ptr) (price : ℤ) (resting : Ptr) (rest : Level) (others : List Ptr)
      (s : Sweep)
      → s.level ≡ resting ∷ rest
      → (s.book.object resting).id ≡ key resting
      → Indexed key Q (s.level ++ others) s.book
      → let t = match_front side order price (resting ∷ rest) s in
        Indexed key Q (t.level ++ others) t.book
        × ((j : ℕ) → tally key j t.level ≤ tally key j s.level)
  unfolding execute modify_object
  match_front-Indexed side order price resting rest others s shape own h =
      match_front_cases Good side order price resting rest s
        (λ _. (Indexed-pop key Q resting (rest ++ others) s.book front, less))
        (λ _.
          let t = execute side order resting price _ s in
          let traded = λ (ps : List Ptr) (k : Indexed key Q ps s.book).
            Indexed-same key Q ps s.book t.book (execute-active side order resting price _ s)
              (λ i. execute-tally key i side order resting price _ s) k in
          settle_cases Good resting rest t
            (λ _. (
              Indexed-erase key Q resting (rest ++ others) t.book _
                  (sym (
                    ap (λ (y : Terms). y.id)
                      ((execute-Kept side order resting price _ s).terms_of resting)
                    ∙ own))
                  (traded (resting ∷ rest ++ others) front),
              less,
            ))
            (λ _ _ _. (
              Indexed-same key Q (s.level ++ others) t.book _ refl (λ _. refl)
                  (traded (s.level ++ others) h),
              λ j. omega arith,
            ))
            (λ _ _. (traded (s.level ++ others) h, λ j. omega arith)))
    where
      Good : Sweep → Type 0
      Good t =
          Indexed key Q (t.level ++ others) t.book
          × ((j : ℕ) → tally key j t.level ≤ tally key j s.level)

      front : Indexed key Q (resting ∷ rest ++ others) s.book
      front = subst (λ l. Indexed key Q (l ++ others) s.book) shape h

      less : (j : ℕ) → tally key j rest ≤ tally key j s.level
      less j = omega (arith, ap (tally key j) shape)

  match_level-Indexed :
      (side : Side) (order : Ptr) (price : ℤ) (others : List Ptr) (s : Sweep) {t : Sweep}
      → match_level side order price s ≡ some t
      → ((p : Ptr) → (s.book.object p).id ≡ key p)
      → Indexed key Q (s.level ++ others) s.book
      → Indexed key Q (t.level ++ others) t.book
        × ((j : ℕ) → tally key j t.level ≤ tally key j s.level)
  match_level-Indexed side order price others s e ids h =
      let r =
        (match_level_inv
          (λ u.
            Kept s.book u.book
            × Indexed key Q (u.level ++ others) u.book
            × ((j : ℕ) → tally key j u.level ≤ tally key j s.level))
          side order price s e
          (λ u resting rest shape _ (k, g, less).
            let (g', less') =
              match_front-Indexed side order price resting rest others u shape
                (ap (λ (y : Terms). y.id) (k.terms_of resting) ∙ ids resting) g in
            (
              Kept-trans k (match_front-Kept side order price resting rest u),
              g',
              λ j. omega (arith, less j, less' j),
            ))
          (Kept-refl s.book, h, λ j. omega arith)).0 in
      (r.1, r.2)

  -- The state of a run of the outer loop: the index, and no order more often than before.
  record Steady (side : Side) (b c : OrderBook) : Type 0 where
    indexed : Indexed key Q (resting_orders side c) c
    fewer :
        (j : ℕ)
        → tally key j (resting_orders side c) + tally_stops key j c
          ≤ tally key j (resting_orders side b) + tally_stops key j b

  close_level-Steady :
      (side : Side) (order : Ptr) (b : OrderBook) (s : Progress) (price : ℤ) (level : Level)
      (rest : Levels) (t : Sweep)
      → levels (opposite side) s.book ≡ (price, level) ∷ rest
      → match_level side order price (record { book = s.book; level = level; result = s.result })
        ≡ some t
      → ((p : Ptr) → (s.book.object p).id ≡ key p)
      → Steady side b s.book
      → Steady side b (close_level side price rest t).book
  unfolding close_level
  close_level-Steady side order b s price level rest t shape swept ids h = record {
    indexed =
        subst (λ ps. Indexed key Q ps c) (sym now)
          (Indexed-same key Q (t.level ++ others) t.book c (active (opposite side) left t.book)
            (λ i. with_levels-tally key i (opposite side) left t.book) done.0);
    fewer = λ j. omega (
      arith,
      h.fewer j,
      done.1 j,
      match_level-tally key j side order price start swept,
      with_levels-tally key j (opposite side) left t.book,
      ap (tally key j) now,
      ap (tally key j) before,
      tally-append key j t.level others,
      tally-append key j level others,
    );
  }
    where
      start : Sweep
      start = record { book = s.book; level = level; result = s.result }

      others : List Ptr
      others = queue rest ++ queue (levels side s.book)

      left : Levels
      left = if is_empty t.level then rest else (price, t.level) ∷ rest

      c : OrderBook
      c = with_levels (opposite side) left t.book

      before : resting_orders side s.book ≡ level ++ others
      before =
          ap (λ m. queue m ++ queue (levels side s.book)) shape
          ∙ append_assoc level (queue rest) (queue (levels side s.book))

      facing_now : (x : Side) (m : Levels) (d : OrderBook) → levels x (with_levels x m d) ≡ m
      facing_now buy m d = refl
      facing_now sell m d = refl

      active :
          (x : Side) (m : Levels) (d : OrderBook)
          → (with_levels x m d).active_orders ≡ d.active_orders
      active buy m d = refl
      active sell m d = refl

      own : levels side c ≡ levels side s.book
      own =
          own_side-close side left t.book
          ∙ own_side-Kept side s.book t.book (match_level-Kept side order price start swept)

      now : resting_orders side c ≡ t.level ++ others
      now =
          ap (λ m. queue m ++ queue (levels side c)) (facing_now (opposite side) left t.book)
          ∙ ap (λ l. l ++ queue (levels side c)) (queue-close price t.level rest)
          ∙ ap (λ m. (t.level ++ queue rest) ++ queue m) own
          ∙ append_assoc t.level (queue rest) (queue (levels side s.book))

      done :
          Indexed key Q (t.level ++ others) t.book
          × ((j : ℕ) → tally key j t.level ≤ tally key j level)
      done =
          match_level-Indexed side order price others start swept ids
            (subst (λ ps. Indexed key Q ps s.book) before h.indexed)

  -- The rest of the order joins its side, and the index with it.
  pub add_to_book-Indexed :
      (side : Side) (order : Ptr) (b : OrderBook)
      → (b.object order).side ≡ side
      → (b.object order).id ≡ key order
      → ((j : ℕ) → tally key j (resting_orders side b) + tally_stops key j b + one key j order ≤ 1)
      → Q (key order, order)
      → Indexed key Q (resting_orders side b) b
      → let c = add_to_book order b in Indexed key Q (resting_orders side c) c
  add_to_book-Indexed side order b own id free q h =
      subst (λ ps. Indexed key Q ps c) (sym now)
        (Indexed-same key Q after entered c
          (e.active ∙ ap (λ i. active_set i order b.active_orders) id)
          (λ j. omega (arith, ap (tally key j) e.pending, ap (tally key j) e.triggered))
          (Indexed-moved key Q (order ∷ f ++ queue m) after entered
            (λ R k.
              let k' = All-split R f (queue m) k.1 in
              All-append R f (queue n) k'.0 (queue-push_back R side price order m k.0 k'.1))
            (λ i. omega (
              arith,
              tally-append key i f (queue m),
              tally-append key i f (queue n),
              tally-push_back key i side price order m,
            ))
            (Indexed-set key Q order (f ++ queue m) b (key order) refl free q h)))
    where
      f : List Ptr
      f = queue (levels (opposite side) b)

      m : Levels
      m = levels side b

      price : ℤ
      price = (b.object order).price

      n : Levels
      n = push_back side price order m

      after : List Ptr
      after = f ++ queue n

      entered : OrderBook
      entered = record b { active_orders = active_set (key order) order b.active_orders }

      c : OrderBook
      c = add_to_book order b

      e : Entered side order b c
      e = add_to_book-Entered side order b own

      now : resting_orders side c ≡ after
      now = ap (λ x. queue x ++ queue (levels side c)) e.facing ∙ ap (λ x. f ++ queue x) e.own_side

  rest_in_book-Indexed :
      (side : Side) (order : Ptr) (b : OrderBook)
      → (b.object order).side ≡ side
      → (b.object order).id ≡ key order
      → ((j : ℕ) → tally key j (resting_orders side b) + tally_stops key j b + one key j order ≤ 1)
      → Q (key order, order)
      → Indexed key Q (resting_orders side b) b
      → let c = rest_in_book order b in Indexed key Q (resting_orders side c) c
  unfolding rest_in_book
  rest_in_book-Indexed side order b own id free q h =
      elim (Bool-cases (not (is_filled (b.object order)) && not (is_market (b.object order)))) [
        | inl e ↦ rw (e, rest_in_book) (add_to_book-Indexed side order b own id free q h)
        | inr e ↦ rw (e, rest_in_book) h
      ]

  pub match_side-Indexed :
      (side : Side) (order : Ptr) (b : OrderBook) {r : Progress}
      → match_side side order b ≡ some r
      → (b.object order).side ≡ side
      → ((p : Ptr) → (b.object p).id ≡ key p)
      → ((j : ℕ) → tally key j (resting_orders side b) + tally_stops key j b + one key j order ≤ 1)
      → Q (key order, order)
      → Indexed key Q (resting_orders side b) b
      → Indexed key Q (resting_orders side r.book) r.book
  match_side-Indexed side order b e own ids free q h =
      let (s, (k, g), _, last) =
        match_side_inv (λ u. Stable b u.book × Steady side b u.book) side order b e
          (λ u price level rest t shape _ _ swept (k, g). (
            Stable-trans k (close_level-Stable side order u price level rest t swept),
            close_level-Steady side order b u price level rest t shape swept
                (λ p. ap (λ (y : Terms). y.id) (k.terms_of p) ∙ ids p) g,
          ))
          (Stable-refl b, record { indexed = h; fewer = λ j. omega arith }) in
      subst (λ (u : Progress). Indexed key Q (resting_orders side u.book) u.book) last
        (rest_in_book-Indexed side order s.book
          (ap (λ (y : Terms). y.side) (k.terms_of order) ∙ own)
          (ap (λ (y : Terms). y.id) (k.terms_of order) ∙ ids order)
          (λ j. omega (arith, free j, g.fewer j)) q g.indexed)
