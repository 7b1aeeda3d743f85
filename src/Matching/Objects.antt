-- ===== src/Matching/Objects.antt =====
-- A property that the orders' own methods keep holds of every order after a match; and what is true
-- of all orders of a level stays true of those that a sweep leaves in it.
use limit_order_book_matchin.Base.{
  ℕ, ◌≡◌, refl, sym, subst, ◌⊎◌, inl, inr, not, ◌&&◌, ◌==◌, ◌∷◌, some, ℤ, All, Bool-cases,
  if◌then◌else◌,
}
use limit_order_book_matchin.Order.{
  Order, Side, buy, sell, fill, trigger, replenish, is_filled, is_market,
}
use limit_order_book_matchin.PriceMap.{Ptr, Level, Levels, push_back}
use limit_order_book_matchin.OrderBook.State.{
  OrderBook, modify_object, levels, with_levels, opposite, add_to_book,
}
use limit_order_book_matchin.OrderBook.Sweep.{
  Sweep, exchange, record_trade, make_trade, match_front, execute, match_level,
}
use limit_order_book_matchin.OrderBook.Matching.{Progress, match_side, close_level, rest_in_book}
use limit_order_book_matchin.Matching.Cases.Loops.{
  settle_cases, match_front_cases, match_level_inv, match_side_inv,
}
use limit_order_book_matchin.Matching.Frame.{check_stop_triggers-Scanned}

abbrev pub Each {κ} : (Order → Type κ) → OrderBook → Type κ
Each Q b = (p : Ptr) → Q (b.object p)

pub record Kind {κ} (Q : Order → Type κ) : Type κ where
  pub of_fill : (o : Order) (qty : ℕ) → Q o → Q (fill o qty)
  pub of_trigger : (o : Order) → Q o → Q (trigger o)
  pub of_replenish : (o : Order) → Q o → Q (replenish o)

modify_object-Each {κ} :
    (Q : Order → Type κ) (p : Ptr) (f : Order → Order) (b : OrderBook)
    → ((o : Order) → Q o → Q (f o))
    → Each Q b
    → Each Q (modify_object p f b)
unfolding modify_object
modify_object-Each Q p f b keep h q = elim (Bool-cases (p == q)) [
  | inl e ↦ rw (e, if◌then◌else◌) (keep (b.object p) (h p))
  | inr e ↦ rw (e, if◌then◌else◌) (h q)
]

-- The objects after `execute`: those after both fills, up to the flag of a stop.
pub execute-object :
    (side : Side) (order resting : Ptr) (price : ℤ) (qty : ℕ) (s : Sweep) (p : Ptr)
    → let o = (exchange order resting qty s.book).object p in
      let o' = (execute side order resting price qty s).book.object p in (o' ≡ o) ⊎ (o' ≡ trigger o)
unfolding execute record_trade
execute-object side order resting price qty s p =
    let b = exchange order resting qty s.book in
    (check_stop_triggers-Scanned price
        (record_trade (make_trade side order resting price qty b) b)).flagged
      p

module _ {κ} (Q : Order → Type κ) (kept : Kind Q) where
  open kept use {of_fill, of_trigger, of_replenish}

  execute-Each :
      (side : Side) (order resting : Ptr) (price : ℤ) (qty : ℕ) (s : Sweep)
      → Each Q s.book
      → Each Q (execute side order resting price qty s).book
  unfolding exchange
  execute-Each side order resting price qty s h p =
      let f = λ (o : Order). fill o qty in
      let both : Each Q (exchange order resting qty s.book) =
        modify_object-Each Q resting f (modify_object order f s.book) (λ o. of_fill o qty)
          (modify_object-Each Q order f s.book (λ o. of_fill o qty) h) in
      elim (execute-object side order resting price qty s p) [
        | inl e ↦ subst Q (sym e) (both p)
        | inr e ↦ subst Q (sym e) (of_trigger _ (both p))
      ]

  match_front-Each :
      (side : Side) (order : Ptr) (price : ℤ) (resting : Ptr) (rest : Level) (s : Sweep)
      → Each Q s.book
      → Each Q (match_front side order price (resting ∷ rest) s).book
  match_front-Each side order price resting rest s h =
      match_front_cases (λ t. Each Q t.book) side order price resting rest s (λ _. h)
        (λ _.
          let after = execute-Each side order resting price _ s h in
          settle_cases (λ t. Each Q t.book) resting rest (execute side order resting price _ s)
            (λ _. after) (λ _ _ _. modify_object-Each Q resting replenish _ of_replenish after)
            (λ _ _. after))

  pub match_level-Each :
      (side : Side) (order : Ptr) (price : ℤ) (s : Sweep) {t : Sweep}
      → match_level side order price s ≡ some t
      → Each Q s.book
      → Each Q t.book
  match_level-Each side order price s e h =
      (match_level_inv (λ t. Each Q t.book) side order price s e
        (λ u resting rest _ _ k. match_front-Each side order price resting rest u k) h).0

with_levels-object :
    (side : Side) (m : Levels) (b : OrderBook) → (with_levels side m b).object ≡ b.object
with_levels-object buy m b = refl
with_levels-object sell m b = refl

pub rest_in_book-object : (order : Ptr) (b : OrderBook) → (rest_in_book order b).object ≡ b.object
unfolding rest_in_book add_to_book
rest_in_book-object order b =
    let o = b.object order in
    elim (Bool-cases (not (is_filled o) && not (is_market o))) [
      | inl e ↦
          rw (e, rest_in_book)
            (with_levels-object o.side (push_back o.side o.price order (levels o.side b)) b)
      | inr e ↦ rw (e, rest_in_book) refl
    ]

module _ {κ} (Q : Order → Type κ) (kept : Kind Q) where
  pub match_side-Each :
      (side : Side) (order : Ptr) (b : OrderBook) {r : Progress}
      → match_side side order b ≡ some r
      → Each Q b
      → Each Q r.book
  unfolding close_level
  match_side-Each side order b e h =
      let (s, k, _, last) =
        match_side_inv (λ s. Each Q s.book) side order b e
          (λ u price level rest t _ _ _ swept k.
            subst (λ (f : Ptr → Order). (p : Ptr) → Q (f p))
              (sym (with_levels-object (opposite side) _ t.book))
              (match_level-Each Q kept side order price _ swept k))
          h in
      subst (λ (u : Progress). Each Q u.book) last
        (subst (λ (f : Ptr → Order). (p : Ptr) → Q (f p)) (sym (rest_in_book-object order s.book))
          k)

-- What is true of all orders of a level is true of those that a sweep leaves: it only pops.
module _ {κ} (R : Ptr → Type κ) where
  execute-level :
      (side : Side) (order resting : Ptr) (price : ℤ) (qty : ℕ) (s : Sweep)
      → (execute side order resting price qty s).level ≡ s.level
  unfolding execute
  execute-level side order resting price qty s = refl

  pub match_front-All :
      (side : Side) (order : Ptr) (price : ℤ) (resting : Ptr) (rest : Level) (s : Sweep)
      → s.level ≡ resting ∷ rest
      → All R s.level
      → All R (match_front side order price (resting ∷ rest) s).level
  match_front-All side order price resting rest s shape h =
      let tail = (subst (All R) shape h).1 in
      match_front_cases (λ t. All R t.level) side order price resting rest s (λ _. tail)
        (λ _.
          let whole = subst (All R) (sym (execute-level side order resting price _ s)) h in
          settle_cases (λ t. All R t.level) resting rest _ (λ _. tail) (λ _ _ _. whole)
            (λ _ _. whole))

  pub match_level-All :
      (side : Side) (order : Ptr) (price : ℤ) (s : Sweep) {t : Sweep}
      → match_level side order price s ≡ some t
      → All R s.level
      → All R t.level
  match_level-All side order price s e h =
      (match_level_inv (λ t. All R t.level) side order price s e
        (λ u resting rest shape _ k. match_front-All side order price resting rest u shape k) h).0
