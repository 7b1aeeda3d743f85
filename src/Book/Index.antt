-- ===== src/Book/Index.antt =====
-- `active_` of include/orderbook.h as an index of the orders that rest in the levels.
use limit_order_book_matchin.Base.{
  ℕ, ◌+◌, ◌≤◌, ◌≡◌, ◌≢◌, refl, sym, subst, ◌∙◌, ◌⊎◌, inl, inr, Bool, true, false, ◌==◌, List, [],
  ◌∷◌, Option, none, some, arith, All, some_inj, Bool-cases, if◌then◌else◌,
}
use limit_order_book_matchin.PriceMap.{Ptr}
use limit_order_book_matchin.OrderBook.State.{OrderBook, active_set, active_find, active_erase}
use limit_order_book_matchin.Book.Cancel.{active_find-erase}
use limit_order_book_matchin.Book.Tally.{one, tally, tally_stops, tally_zero}

pub active_find-set :
    (i j : ℕ) (p : Ptr) (m : List (ℕ × Ptr))
    → active_find j (active_set i p m) ≡ (if i == j then some p else active_find j m)
unfolding active_find active_set
active_find-set i j p [] = ground arith
active_find-set i j p ((k, q) ∷ m) = ground (arith, active_find-set i j p m)

module _ (Q : ℕ × Ptr → Type 0) where
  pub active_set-All :
      (i : ℕ) (p : Ptr) (m : List (ℕ × Ptr)) → Q (i, p) → All Q m → All Q (active_set i p m)
  unfolding active_set
  active_set-All i p [] q h = (q, tt)
  active_set-All i p ((k, r) ∷ m) q h = elim (Bool-cases (k == i)) [
    | inl e ↦ rw (e, active_set) (q, h.1)
    | inr e ↦ rw (e, active_set) (h.0, active_set-All i p m q h.1)
  ]

  pub active_erase-All : (i : ℕ) (m : List (ℕ × Ptr)) → All Q m → All Q (active_erase i m)
  unfolding active_erase
  active_erase-All i [] h = tt
  active_erase-All i ((k, r) ∷ m) h = elim (Bool-cases (k == i)) [
    | inl e ↦ rw (e, active_erase) (active_erase-All i m h.1)
    | inr e ↦ rw (e, active_erase) (h.0, active_erase-All i m h.1)
  ]

  -- What is found is an entry.
  pub active_find-All :
      (i : ℕ) {p : Ptr} (m : List (ℕ × Ptr)) → active_find i m ≡ some p → All Q m → Q (i, p)
  unfolding active_find
  active_find-All i [] e h = cc
  active_find-All i {p} ((k, r) ∷ m) e h = elim (Bool-cases (k == i)) [
    | inl f ↦
        let same : k ≡ i = ground arith in
        let here : r ≡ p = some_inj (rw (f, active_find) at e) in
        subst (λ x. Q (x, p)) same (subst (λ x. Q (k, x)) here h.0)
    | inr f ↦ active_find-All i m (rw (f, active_find) at e) h.1
  ]

-- The order is found under its id.
abbrev pub Found : (Ptr → ℕ) → List (ℕ × Ptr) → Ptr → Type 0
Found key active p = active_find (key p) active ≡ some p

-- The orders `ps` rest in the book, each once and under its own id; each is found in `active_orders`, no
-- stop that waits is, and every entry satisfies `Q`.
pub record Indexed (key : Ptr → ℕ) (Q : ℕ × Ptr → Type 0) (ps : List Ptr) (b : OrderBook)
    : Type 0 where
  pub found : All (Found key b.active_orders) ps
  pub unique : (i : ℕ) → tally key i ps ≤ 1
  pub unlisted : (i : ℕ) → (active_find i b.active_orders ≡ none) ⊎ (tally_stops key i b ≡ 0)
  pub entries : All Q b.active_orders

module _ (key : Ptr → ℕ) (Q : ℕ × Ptr → Type 0) where
  pub Indexed-same :
      (ps : List Ptr) (b c : OrderBook)
      → c.active_orders ≡ b.active_orders
      → ((i : ℕ) → tally_stops key i c ≡ tally_stops key i b)
      → Indexed key Q ps b
      → Indexed key Q ps c
  Indexed-same ps b c active stops h = record {
    found = subst (λ a. All (Found key a) ps) (sym active) h.found;
    unique = h.unique;
    unlisted = λ i.
        subst (λ a. (active_find i a ≡ none) ⊎ (tally_stops key i c ≡ 0)) (sym active)
          (subst (λ n. (active_find i b.active_orders ≡ none) ⊎ (n ≡ 0)) (sym (stops i))
            (h.unlisted i));
    entries = subst (All Q) (sym active) h.entries;
  }

  pub Indexed-pop :
      (p : Ptr) (ps : List Ptr) (b : OrderBook) → Indexed key Q (p ∷ ps) b → Indexed key Q ps b
  Indexed-pop p ps b h = record {
    found = h.found.1;
    unique = λ i. omega (arith, h.unique i);
    unlisted = h.unlisted;
    entries = h.entries;
  }

  -- The id of the front order is forgotten; no other order has it.
  pub Indexed-erase :
      (p : Ptr) (ps : List Ptr) (b : OrderBook) (i : ℕ)
      → key p ≡ i
      → Indexed key Q (p ∷ ps) b
      → Indexed key Q ps (record b { active_orders = active_erase i b.active_orders })
  Indexed-erase p ps b i own h = record {
    found = kept ps (tally_zero key i ps alone) h.found.1;
    unique = λ j. omega (arith, h.unique j);
    unlisted = λ j. elim (h.unlisted j) [
      | inl e ↦ inl (active_find-erase i j b.active_orders ∙ gone (i == j) _ e)
      | inr e ↦ inr e
    ];
    entries = active_erase-All Q i b.active_orders h.entries;
  }
    where
      alone : tally key i ps ≡ 0
      alone = let h1 = h.unique i in ground (arith, h1, own)

      gone : (x : Bool) (o : Option Ptr) → o ≡ none → (if x then none else o) ≡ none
      gone true o f = refl
      gone false o f = f

      other :
          (q : Ptr)
          → key q ≢ i
          → Found key b.active_orders q
          → Found key (active_erase i b.active_orders) q
      other q ne e = active_find-erase i (key q) b.active_orders ∙ skip (key q) ne _ ∙ e
        where
          skip : (j : ℕ) → j ≢ i → (o : Option Ptr) → (if i == j then none else o) ≡ o
          skip j ne o = ground arith

      kept :
          (qs : List Ptr)
          → All (λ q. key q ≢ i) qs
          → All (Found key b.active_orders) qs
          → All (Found key (active_erase i b.active_orders)) qs
      kept [] n f = tt
      kept (q ∷ qs) n f = (other q n.0 f.0, kept qs n.1 f.1)

  -- A new order is entered under an id that nobody has.
  pub Indexed-set :
      (order : Ptr) (ps : List Ptr) (b : OrderBook) (i : ℕ)
      → key order ≡ i
      → ((j : ℕ) → tally key j ps + tally_stops key j b + one key j order ≤ 1)
      → Q (i, order)
      → Indexed key Q ps b
      → Indexed key Q (order ∷ ps) (record b { active_orders = active_set i order b.active_orders })
  Indexed-set order ps b i own free q h = record {
    found = (here (key order) own, kept ps (tally_zero key i ps alone) h.found);
    unique = λ j. omega (arith, free j);
    unlisted = λ j. elim (Bool-cases (i == j)) [
      | inl e ↦ inr (let f = free j in ground (arith, f, own))
      | inr e ↦ elim (h.unlisted j) [
        | inl f ↦ inl (active_find-set i j order b.active_orders ∙ rw e f)
        | inr f ↦ inr f
      ]
    ];
    entries = active_set-All Q i order b.active_orders q h.entries;
  }
    where
      alone : tally key i ps ≡ 0
      alone = let f = free i in ground (arith, f, own)

      here : (j : ℕ) → j ≡ i → active_find j (active_set i order b.active_orders) ≡ some order
      here j e = active_find-set i j order b.active_orders ∙ hit j e (active_find j b.active_orders)
        where
          hit : (j : ℕ) → j ≡ i → (o : Option Ptr) → (if i == j then some order else o) ≡ some order
          hit j e o = ground arith

      other :
          (q : Ptr)
          → key q ≢ i
          → Found key b.active_orders q
          → Found key (active_set i order b.active_orders) q
      other q ne e = active_find-set i (key q) order b.active_orders ∙ skip (key q) ne _ ∙ e
        where
          skip : (j : ℕ) → j ≢ i → (o : Option Ptr) → (if i == j then some order else o) ≡ o
          skip j ne o = ground arith

      kept :
          (qs : List Ptr)
          → All (λ q. key q ≢ i) qs
          → All (Found key b.active_orders) qs
          → All (Found key (active_set i order b.active_orders)) qs
      kept [] n f = tt
      kept (q ∷ qs) n f = (other q n.0 f.0, kept qs n.1 f.1)

  -- The orders may be listed in another order.
  pub Indexed-moved :
      (ps qs : List Ptr) (b : OrderBook)
      → ((R : Ptr → Type 0) → All R ps → All R qs)
      → ((i : ℕ) → tally key i qs ≡ tally key i ps)
      → Indexed key Q ps b
      → Indexed key Q qs b
  Indexed-moved ps qs b all same h = record {
    found = all (Found key b.active_orders) h.found;
    unique = λ i. omega (arith, h.unique i, same i);
    unlisted = h.unlisted;
    entries = h.entries;
  }
