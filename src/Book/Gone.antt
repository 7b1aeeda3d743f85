-- ===== src/Book/Gone.antt =====
-- After `cancelLocked` of src/orderbook.cpp no order of the book has the id.
use limit_order_book_matchin.Base.{
  ℕ, ◌≤◌, ◌≡◌, ◌≢◌, refl, sym, ap, subst, ◌∙◌, Bool, not, ◌==◌, List, [], ◌∷◌, ◌++◌, some, some_inj,
  ℤ, ℤ_discrete, arith, All, All-append, All-map, All-filter, filter,
}
use limit_order_book_matchin.Order.{Order, Side, buy, sell}
use limit_order_book_matchin.PriceMap.{Ptr, Level, Levels, remove_from_level}
use limit_order_book_matchin.PriceMap.Sorted.{
  remove_from_level_cases, remove_from_level_nil, remove_from_level-All,
}
use limit_order_book_matchin.OrderBook.State.{OrderBook, levels, opposite, active_find}
use limit_order_book_matchin.OrderBook.Requests.{remove_order}
use limit_order_book_matchin.Matching.Priority.Spent.{queue}
use limit_order_book_matchin.Book.WellFormed.{IsAt, LevelOk, IsWellFormed}
use limit_order_book_matchin.Book.Removed.{Removed, remove_order-Removed, remove_order-level}
use limit_order_book_matchin.Book.Tally.{tally, tally-append, tally-filter}
use limit_order_book_matchin.Book.Indexing.Entries.{All-split, LevelsKnown-queue, queue-LevelsKnown}

-- The removal makes no order more frequent.
pub tally-remove_from_level :
    (key : Ptr → ℕ) (i : ℕ) (side : Side) (price : ℤ) (keep : Ptr → Bool) (m : Levels)
    → tally key i (queue (remove_from_level side price keep m)) ≤ tally key i (queue m)
tally-remove_from_level key i side price keep [] =
    remove_from_level_nil (λ n. tally key i (queue n) ≤ 0) side price keep (omega arith)
tally-remove_from_level key i side price keep ((p, level) ∷ rest) =
    let f = tally-filter key i keep level in
    let whole = tally-append key i level (queue rest) in
    remove_from_level_cases (λ n. tally key i (queue n) ≤ tally key i (level ++ queue rest)) side
      price keep p level rest (λ _ _. omega (arith, whole))
      (λ _ _. omega (arith, whole, f, tally-append key i (filter keep level) (queue rest)))
      (λ _. omega (
        arith,
        whole,
        tally-append key i level (queue (remove_from_level side price keep rest)),
        tally-remove_from_level key i side price keep rest,
      ))

pub queue-remove_from_level :
    (R : Ptr → Type 0) (side : Side) (price : ℤ) (keep : Ptr → Bool) (m : Levels)
    → All R (queue m)
    → All R (queue (remove_from_level side price keep m))
queue-remove_from_level R side price keep m h =
    LevelsKnown-queue R (remove_from_level side price keep m) (
      remove_from_level-All (λ (e : ℤ × Level). All R e.1) side price keep m
        (λ p level _ k. All-filter R keep level k) (queue-LevelsKnown R m h))

-- Both facts of an order of a queue, and a third that follows.
pub All-both :
    (P Q R : Ptr → Type 0) (ps : List Ptr)
    → ((p : Ptr) → P p → Q p → R p)
    → All P ps
    → All Q ps
    → All R ps
All-both P Q R [] f h k = tt
All-both P Q R (p ∷ ps) f h k = (f p h.0 k.0, All-both P Q R ps f h.1 k.1)

-- No order of the levels has the id.
abbrev pub NoneHas : (Ptr → ℕ) → ℕ → OrderBook → Type 0
NoneHas key id b = (side : Side) → All (λ p. key p ≢ id) (queue (levels side b))

module _ (id : ℕ) (p : Ptr) (b : OrderBook) (found : active_find id b.active_orders ≡ some p)
    (w : IsWellFormed b)
    (index : (side : Side)
      → All
          (λ q. active_find (b.object q).id b.active_orders ≡ some q)
          (queue (levels side b))) where
  private_name :
      (q : Ptr)
      → active_find (b.object q).id b.active_orders ≡ some q
      → (b.object q).id ≡ id
      → q ≡ p
  private_name q e same = some_inj (sym e ∙ ap (λ i. active_find i b.active_orders) same ∙ found)

  own_side_gone :
      (m : Levels)
      → All (LevelOk (b.object p).side b.object) m
      → All (λ (e : ℤ × Level). e.0 ≡ (b.object p).price → All (λ q. (b.object q).id ≢ id) e.1) m
      → All (λ q. active_find (b.object q).id b.active_orders ≡ some q) (queue m)
      → All (λ q. (b.object q).id ≢ id) (queue m)
  own_side_gone [] ok h f = tt
  own_side_gone ((price, level) ∷ rest) ok h f =
      let (f0, f1) =
        All-split (λ q. active_find (b.object q).id b.active_orders ≡ some q) level (queue rest)
          f in
      All-append (λ q. (b.object q).id ≢ id) level (queue rest)
        (here (ℤ_discrete price (b.object p).price) f0) (own_side_gone rest ok.1 h.1 f1)
    where
      here :
          Dec (price ≡ (b.object p).price)
          → All (λ q. active_find (b.object q).id b.active_orders ≡ some q) level
          → All (λ q. (b.object q).id ≢ id) level
      here (yes e) f0 = h.0 e
      here (no ne) f0 =
          All-both (λ q. IsAt (b.object p).side price (b.object q))
            (λ q. active_find (b.object q).id b.active_orders ≡ some q) (λ q. (b.object q).id ≢ id)
            level
            (λ q at e same. ne (sym at.1 ∙ ap (λ r. (b.object r).price) (private_name q e same)))
            ok.0.1 f0

  other_side_gone :
      (m : Levels)
      → All (LevelOk (opposite (b.object p).side) b.object) m
      → All (λ q. active_find (b.object q).id b.active_orders ≡ some q) (queue m)
      → All (λ q. (b.object q).id ≢ id) (queue m)
  other_side_gone m ok f =
      All-both (λ q. (b.object q).side ≡ opposite (b.object p).side)
        (λ q. active_find (b.object q).id b.active_orders ≡ some q) (λ q. (b.object q).id ≢ id)
        (queue m)
        (λ q at e same.
          other (b.object p).side (sym (ap (λ r. (b.object r).side) (private_name q e same)) ∙ at))
        (sides m ok) f
    where
      other : (x : Side) → x ≡ opposite x → ⊥
      other buy e = cc
      other sell e = cc

      sides :
          (n : Levels)
          → All (LevelOk (opposite (b.object p).side) b.object) n
          → All (λ q. (b.object q).side ≡ opposite (b.object p).side) (queue n)
      sides [] k = tt
      sides ((price, level) ∷ rest) k =
          All-append (λ q. (b.object q).side ≡ opposite (b.object p).side) level (queue rest)
            (All-map (λ q. IsAt (opposite (b.object p).side) price (b.object q))
              (λ q. (b.object q).side ≡ opposite (b.object p).side) level (λ q at. at.0) k.0.1)
            (sides rest k.1)

  -- What is found is the only order of the id, and it is removed.
  pub remove_order-NoneHas : NoneHas (λ q. (b.object q).id) id (remove_order id p b)
  remove_order-NoneHas = by_side (b.object p).side refl
    where
      o : Order
      o = b.object p

      keep : Ptr → Bool
      keep q = not ((b.object q).id == id)

      gone : Removed id p b (remove_order id p b)
      gone = remove_order-Removed id p b w

      Indexed_by : List Ptr → Type 0
      Indexed_by = All (λ q. active_find (b.object q).id b.active_orders ≡ some q)

      own : All (λ q. (b.object q).id ≢ id) (queue (levels o.side (remove_order id p b)))
      own =
          own_side_gone (levels o.side (remove_order id p b))
            (subst (All (LevelOk o.side b.object)) (sym (remove_order-level id p b)) (
              remove_from_level-All (LevelOk o.side b.object) o.side o.price keep (levels o.side b)
                (λ price level some_left h.
                  (some_left, All-filter (λ q. IsAt o.side price (b.object q)) keep level h.1))
                (w.sides o.side).1))
            gone.level
            (subst (λ m. Indexed_by (queue m)) (sym (remove_order-level id p b))
              (queue-remove_from_level (λ q. active_find (b.object q).id b.active_orders ≡ some q)
                o.side o.price keep (levels o.side b) (index o.side)))

      facing :
          All (λ q. (b.object q).id ≢ id) (queue (levels (opposite o.side) (remove_order id p b)))
      facing =
          subst (λ m. All (λ q. (b.object q).id ≢ id) (queue m)) (sym gone.facing)
            (other_side_gone (levels (opposite o.side) b) (w.sides (opposite o.side)).1
              (index (opposite o.side)))

      by_side : (x : Side) → o.side ≡ x → NoneHas (λ q. (b.object q).id) id (remove_order id p b)
      by_side x e side =
          pick x side (subst AllGone e own) (subst (λ y. AllGone (opposite y)) e facing)
        where
          AllGone : Side → Type 0
          AllGone y = All (λ q. (b.object q).id ≢ id) (queue (levels y (remove_order id p b)))

          pick : (x y : Side) → AllGone x → AllGone (opposite x) → AllGone y
          pick buy buy h k = h
          pick buy sell h k = k
          pick sell sell h k = h
          pick sell buy h k = k
