-- ===== src/Baseline/Walk.antt =====
-- A round of the outer loop of the order book is a round of the baseline's.
use limit_order_book_matchin.Base.{
  ℕ, ◌≤◌, ◌≡◌, refl, sym, ap, subst, ◌∙◌, List, [], ◌∷◌, ◌++◌, append_assoc, map, some, ℤ,
  if◌then◌else◌, is_empty, All, All-append, some_inj, >>=-eq-some,
}
use limit_order_book_matchin.Order.{Order, Side, buy, sell}
use limit_order_book_matchin.PriceMap.{Ptr, Level, Levels}
use limit_order_book_matchin.OrderBook.State.{OrderBook, Trade, levels, with_levels, opposite}
use limit_order_book_matchin.OrderBook.Sweep.{Sweep}
use limit_order_book_matchin.OrderBook.Matching.{Progress, match_best, close_level}
use limit_order_book_matchin.Matching.Frame.Scan.{Terms, terms, Kept-refl}
use limit_order_book_matchin.Matching.Complete.{own_side-close, own_side-Kept}
use limit_order_book_matchin.Matching.Priority.{queue-close}
use limit_order_book_matchin.Matching.Priority.Spent.{queue}
use limit_order_book_matchin.Book.Tally.{tally}
use limit_order_book_matchin.Book.Indexing.Entries.{All-split}
use limit_order_book_matchin.Baseline.{SimpleLevels, Serving, Walking, walk_best}
use limit_order_book_matchin.Baseline.Agreement.{simple, simple_of, view, Plain, Live, InStep}
use limit_order_book_matchin.Baseline.Level.{match_level-InStep}

-- The levels of the book as the baseline keeps them.
abbrev pub view_levels : (Ptr → Order) → Levels → SimpleLevels
view_levels object = map (λ (e : ℤ × Level). (e.0, view object e.1))

cons_inj {ℓ} : {A : Type ℓ} {x y : A} {xs ys : List A} → (x ∷ xs) ≡ (y ∷ ys) → (x ≡ y) × (xs ≡ ys)
cons_inj e = (cc, cc)

view-split :
    (f g : Ptr → Order) (xs ys : List Ptr)
    → view f (xs ++ ys) ≡ view g (xs ++ ys)
    → (view f xs ≡ view g xs) × (view f ys ≡ view g ys)
view-split f g [] ys h = (refl, h)
view-split f g (x ∷ xs) ys h =
    let (head, tail) = cons_inj h in
    let (left, right) = view-split f g xs ys tail in
    (ap (λ o. o ∷ view f xs) head ∙ ap (λ l. simple (g x) ∷ l) left, right)

-- Levels whose orders look the same look the same.
pub view_levels-same :
    (f g : Ptr → Order) (m : Levels)
    → view f (queue m) ≡ view g (queue m)
    → view_levels f m ≡ view_levels g m
view_levels-same f g [] h = refl
view_levels-same f g ((price, level) ∷ rest) h =
    let (here, later) = view-split f g level (queue rest) h in
    ap (λ l. (price, l) ∷ view_levels f rest) here
    ∙ ap (λ m. (price, view g level) ∷ m) (view_levels-same f g rest later)

-- The order book and the baseline at the same place of the walk. `own` is the order's own side, which
-- the walk leaves as it is, and `object0` the orders as they were.
pub record Abreast (key : Ptr → ℕ) (order : Ptr) (object0 : Ptr → Order) (own : Levels)
    (object : Ptr → Order) (facing : Levels) (result : List Trade) (t : Walking) : Type 0 where
  pub terms_of : (p : Ptr) → terms (object p) ≡ terms (object0 p)
  pub looks : view_levels object facing ≡ t.facing
  pub plain : All (λ p. Plain (object p)) (queue facing ++ queue own)
  pub qty : (object order).leaves_qty ≡ t.qty
  pub live : Live (object order)
  pub own_same : view object (queue own) ≡ view object0 (queue own)
  pub trades : map simple_of result ≡ t.trades
  pub once : (i : ℕ) → tally key i (order ∷ queue facing ++ queue own) ≤ 1

close_parts {κ} :
    (P : (Ptr → Order) → Levels → Type κ) (side : Side) (m : Levels) (b : OrderBook)
    → P b.object m
    → P
        (with_levels (opposite side) m b).object
        (levels (opposite side) (with_levels (opposite side) m b))
close_parts P buy m b h = h
close_parts P sell m b h = h

-- The two walks, with the order's own side as it was.
abbrev pub InWalk : (Ptr → ℕ) → Side → Ptr → (Ptr → Order) → Levels → Progress → Walking → Type 0
InWalk key side order object0 own s t =
    (levels side s.book ≡ own)
    × Abreast key order object0 own s.book.object (levels (opposite side) s.book) s.result t

module _ (key : Ptr → ℕ) (side : Side) (order : Ptr) (id : ℕ) (object0 : Ptr → Order)
    (own rest : Levels) (price : ℤ) (level : Level) (b : OrderBook) (result : List Trade)
    (t : Walking)
    (h : Abreast key order object0 own b.object ((price, level) ∷ rest) result t) where
  abbrev others : List Ptr
  others = queue rest ++ queue own

  abbrev from : Sweep
  from = record { book = b; level = level; result = result }

  abbrev seen_from : Serving
  seen_from = record { queue = view b.object level; qty = t.qty; trades = t.trades }

  assoc : (xs : List Ptr) → (xs ++ queue rest) ++ queue own ≡ xs ++ others
  assoc xs = append_assoc xs (queue rest) (queue own)

  split-Plain : All (λ p. Plain (b.object p)) level × All (λ p. Plain (b.object p)) others
  split-Plain =
      All-split (λ p. Plain (b.object p)) level others
        (subst (All (λ p. Plain (b.object p))) (assoc level) h.plain)

  -- The inner loops start in step.
  start-InStep : InStep key order others from from seen_from
  start-InStep = record {
    kept = Kept-refl b;
    queue = refl;
    plain = split-Plain.0;
    qty = h.qty;
    live = h.live;
    others_same = refl;
    others_plain = split-Plain.1;
    trades = h.trades;
    once = λ i. subst (λ l. tally key i (order ∷ l) ≤ 1) (assoc level) (h.once i);
  }

  -- What the baseline leaves of the facing levels.
  abbrev rest_of : Serving → SimpleLevels
  rest_of v =
      if is_empty v.queue
      then view_levels b.object rest
      else (price, v.queue) ∷ view_levels b.object rest

  module _ (s : Sweep) (v : Serving) (k : InStep key order others from s v) where
    abbrev closed : Levels
    closed = if is_empty s.level then rest else (price, s.level) ∷ rest

    closed_orders : queue closed ++ queue own ≡ s.level ++ others
    closed_orders = ap (λ l. l ++ queue own) (queue-close price s.level rest) ∙ assoc s.level

    sides_same :
        (view s.book.object (queue rest) ≡ view b.object (queue rest))
        × (view s.book.object (queue own) ≡ view b.object (queue own))
    sides_same = view-split s.book.object b.object (queue rest) (queue own) k.others_same

    closed-looks : view_levels s.book.object closed ≡ rest_of v
    closed-looks =
        subst
          (λ q. view_levels s.book.object closed ≡ (
            if is_empty q
            then view_levels b.object rest
            else (price, q) ∷ view_levels b.object rest))
          k.queue (by_level s.level)
      where
        rest_same : view_levels s.book.object rest ≡ view_levels b.object rest
        rest_same = view_levels-same s.book.object b.object rest sides_same.0

        by_level :
            (l : Level)
            → view_levels s.book.object (if is_empty l then rest else (price, l) ∷ rest) ≡ (
                if is_empty (view s.book.object l)
                then view_levels b.object rest
                else (price, view s.book.object l) ∷ view_levels b.object rest)
        by_level [] = rest_same
        by_level (p ∷ ps) = ap (λ m. (price, view s.book.object (p ∷ ps)) ∷ m) rest_same

    -- The inner loops end in step with the walk.
    close-Abreast :
        Abreast key order object0 own s.book.object closed s.result
          (record { facing = rest_of v; qty = v.qty; trades = v.trades })
    close-Abreast = record {
      terms_of = λ p. k.kept.terms_of p ∙ h.terms_of p;
      looks = closed-looks;
      plain =
          subst (All (λ p. Plain (s.book.object p))) (sym closed_orders)
            (All-append _ s.level others k.plain k.others_plain);
      qty = k.qty;
      live = k.live;
      own_same = sides_same.1 ∙ h.own_same;
      trades = k.trades;
      once = λ i. subst (λ l. tally key i (order ∷ l) ≤ 1) (sym closed_orders) (k.once i);
    }

    pub close-InWalk :
        levels side b ≡ own
        → InWalk key side order object0 own
            (close_level side price rest s)
            (record { facing = rest_of v; qty = v.qty; trades = v.trades })
    unfolding close_level
    close-InWalk own_here = (
      own_side-close side closed s.book ∙ own_side-Kept side b s.book k.kept ∙ own_here,
      close_parts
          (λ f m.
            Abreast key order object0 own f m s.result
              (record { facing = rest_of v; qty = v.qty; trades = v.trades }))
          side closed s.book close-Abreast,
    )

-- A round keeps the walks in step.
pub match_best-InWalk :
    (key : Ptr → ℕ) (side : Side) (order : Ptr) (id : ℕ) (object0 : Ptr → Order) (own rest : Levels)
    (price : ℤ) (level : Level) (s s' : Progress) (t t' : Walking)
    → (object0 order).id ≡ id
    → levels (opposite side) s.book ≡ (price, level) ∷ rest
    → match_best side order (levels (opposite side) s.book) s ≡ some s'
    → walk_best side id t.facing t ≡ some t'
    → InWalk key side order object0 own s t
    → InWalk key side order object0 own s' t'
unfolding match_best walk_best close_level
match_best-InWalk key side order id object0 own rest price level s s' t t' same_id shape step step'
      (own_same, h) =
    let g : Abreast key order object0 own s.book.object ((price, level) ∷ rest) s.result t =
      subst (λ m. Abreast key order object0 own s.book.object m s.result t) shape h in
    let step1 : match_best side order ((price, level) ∷ rest) s ≡ some s' =
      subst (λ m. match_best side order m s ≡ some s') shape step in
    let step2 : walk_best side id (view_levels s.book.object ((price, level) ∷ rest)) t ≡ some t' =
      subst (λ m. walk_best side id m t ≡ some t') (sym g.looks) step' in
    let (u, swept, closed_book) = >>=-eq-some _ _ step1 in
    let (v, served, closed_seen) = >>=-eq-some _ _ step2 in
    let k =
      match_level-InStep key side order id price (queue rest ++ queue own)
        (record { book = s.book; level = level; result = s.result })
        (record { queue = view s.book.object level; qty = t.qty; trades = t.trades })
        (ap (λ (x : Terms). x.id) (g.terms_of order) ∙ same_id) swept served
        (start-InStep key side order id object0 own rest price level s.book s.result t g) in
    let end =
      close-InWalk key side order id object0 own rest price level s.book s.result t g u v k
        own_same in
    subst (λ x. InWalk key side order object0 own x t') (some_inj closed_book)
      (subst (λ y. InWalk key side order object0 own (close_level side price rest u) y)
        (some_inj closed_seen) end)
