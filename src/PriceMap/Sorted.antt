-- ===== src/PriceMap/Sorted.antt =====
-- The order of a side's levels, kept by the map operations, and what they keep of each level.
use limit_order_book_matchin.Base.{
  ◌≡◌, refl, inl, inr, Bool, true, false, not, ◌&&◌, [], ◌∷◌, ◌++◌, ℤ, arith, eq_of_parts, All,
  All-map, Bool-cases, filter, is_empty, if◌then◌else◌,
}
use limit_order_book_matchin.Order.{Side, buy, sell}
use limit_order_book_matchin.PriceMap.{Ptr, Level, Levels, before, push_back, remove_from_level}

pub before_total :
    (side : Side) (a b : ℤ) → before side a b ≡ false → before side b a ≡ false → a ≡ b
unfolding before
before_total buy a b h k = eq_of_parts a b (ground arith)
before_total sell a b h k = eq_of_parts a b (ground arith)

pub before_irrefl : (side : Side) (a : ℤ) → before side a a ≡ false
unfolding before
before_irrefl buy a = ground arith
before_irrefl sell a = ground arith

pub before_trans :
    (side : Side) (a b c : ℤ)
    → before side a b ≡ true
    → before side b c ≡ true
    → before side a c ≡ true
unfolding before
before_trans buy a b c h k = ground arith
before_trans sell a b c h k = ground arith

-- Each level is better than all below it, so no price has two levels.
abbrev pub IsSorted : Side → Levels → Type 0
IsSorted side [] = Unit
IsSorted side ((p, level) ∷ rest) =
    All (λ (e : ℤ × Level). before side p e.0 ≡ true) rest × IsSorted side rest

pub remove_from_level-cons :
    (side : Side) (price : ℤ) (keep : Ptr → Bool) (p : ℤ) (level : Level) (rest : Levels)
    → remove_from_level side price keep ((p, level) ∷ rest) ≡ (
        if not (before side price p) && not (before side p price)
        then (if is_empty (filter keep level) then rest else (p, filter keep level) ∷ rest)
        else (p, level) ∷ remove_from_level side price keep rest)
unfolding remove_from_level
remove_from_level-cons side price keep p level rest = refl

module _ {κ} (P : Levels → Type κ) (side : Side) (price : ℤ) (keep : Ptr → Bool) where
  pub remove_from_level_nil : P [] → P (remove_from_level side price keep [])
  unfolding remove_from_level
  remove_from_level_nil h = h

  pub remove_from_level_cases :
      (p : ℤ) (level : Level) (rest : Levels)
      → let here = not (before side price p) && not (before side p price) in
        (here ≡ true → is_empty (filter keep level) ≡ true → P rest)
        → (here ≡ true → is_empty (filter keep level) ≡ false → P ((p, filter keep level) ∷ rest))
        → (here ≡ false → P ((p, level) ∷ remove_from_level side price keep rest))
        → P (remove_from_level side price keep ((p, level) ∷ rest))
  remove_from_level_cases p level rest gone shorter other =
      elim (Bool-cases (not (before side price p) && not (before side p price))) [
        | inl e ↦ elim (Bool-cases (is_empty (filter keep level))) [
          | inl f ↦ rw (remove_from_level-cons side price keep p level rest, e, f) (gone e f)
          | inr f ↦ rw (remove_from_level-cons side price keep p level rest, e, f) (shorter e f)
        ]
        | inr e ↦ rw (remove_from_level-cons side price keep p level rest, e) (other e)
      ]

module _ {κ} (Q : ℤ × Level → Type κ) where
  pub push_back-All :
      (side : Side) (price : ℤ) (order : Ptr) (m : Levels)
      → Q (price, order ∷ [])
      → ((p : ℤ) (level : Level) → p ≡ price → Q (p, level) → Q (p, level ++ order ∷ []))
      → All Q m
      → All Q (push_back side price order m)
  unfolding push_back
  push_back-All side price order [] new old h = (new, tt)
  push_back-All side price order ((p, level) ∷ rest) new old h =
      elim (Bool-cases (before side price p)) [
        | inl e ↦ rw (e, push_back) (new, h)
        | inr e ↦ elim (Bool-cases (before side p price)) [
          | inl f ↦ rw (e, f, push_back) (h.0, push_back-All side price order rest new old h.1)
          | inr f ↦ rw (e, f, push_back) (old p level (before_total side p price f e) h.0, h.1)
        ]
      ]

  pub remove_from_level-All :
      (side : Side) (price : ℤ) (keep : Ptr → Bool) (m : Levels)
      → ((p : ℤ) (level : Level)
          → is_empty (filter keep level) ≡ false
          → Q (p, level)
          → Q (p, filter keep level))
      → All Q m
      → All Q (remove_from_level side price keep m)
  remove_from_level-All side price keep [] old h = remove_from_level_nil (All Q) side price keep tt
  remove_from_level-All side price keep ((p, level) ∷ rest) old h =
      remove_from_level_cases (All Q) side price keep p level rest (λ _ _. h.1)
        (λ _ f. (old p level f h.0, h.1))
        (λ _. (h.0, remove_from_level-All side price keep rest old h.1))

-- The map stays sorted by its comparator when an order is added.
pub push_back-IsSorted :
    (side : Side) (price : ℤ) (order : Ptr) (m : Levels)
    → IsSorted side m
    → IsSorted side (push_back side price order m)
unfolding push_back
push_back-IsSorted side price order [] h = (tt, tt)
push_back-IsSorted side price order ((p, level) ∷ rest) h =
    elim (Bool-cases (before side price p)) [
      | inl e ↦
          rw (e, push_back)
            (
              (
                e,
                All-map (λ (x : ℤ × Level). before side p x.0 ≡ true)
                    (λ (x : ℤ × Level). before side price x.0 ≡ true) rest
                    (λ x k. before_trans side price p x.0 e k) h.0,
              ),
              h,
            )
      | inr e ↦ elim (Bool-cases (before side p price)) [
        | inl f ↦
            rw (e, f, push_back)
              (
                push_back-All (λ (x : ℤ × Level). before side p x.0 ≡ true) side price order rest f
                    (λ _ _ _ k. k) h.0,
                push_back-IsSorted side price order rest h.1,
              )
        | inr f ↦ rw (e, f, push_back) h
      ]
    ]

-- It stays sorted when orders, and with the last of them a level, are removed.
pub remove_from_level-IsSorted :
    (side : Side) (price : ℤ) (keep : Ptr → Bool) (m : Levels)
    → IsSorted side m
    → IsSorted side (remove_from_level side price keep m)
remove_from_level-IsSorted side price keep [] h =
    remove_from_level_nil (IsSorted side) side price keep tt
remove_from_level-IsSorted side price keep ((p, level) ∷ rest) h =
    remove_from_level_cases (IsSorted side) side price keep p level rest (λ _ _. h.1) (λ _ _. h)
      (λ _. (
        remove_from_level-All (λ (x : ℤ × Level). before side p x.0 ≡ true) side price keep rest
            (λ _ _ _ k. k) h.0,
        remove_from_level-IsSorted side price keep rest h.1,
      ))
