-- ===== src/Base/Lists.antt =====
-- Lists measured by native numbers, filtered by Boolean tests, and predicates on all members.
use Prim.Native.Nat.{ℕ, suc, ◌+◌}
use mathlib.Core.Path.{◌≡◌, refl}
use mathlib.Core.Bool.{Bool, true, false, not, ◌&&◌}
use mathlib.Core.List.{List, [], ◌∷◌, ◌++◌}
use native.Mathlib.Omega.{arith}
use limit_order_book_matchin.Base.Tests.{if◌then◌else◌}

module _ {ℓ} {A : Type ℓ} where
  abbrev pub length : List A → ℕ
  length [] = 0
  length (x ∷ xs) = suc (length xs)

  abbrev pub is_empty : List A → Bool
  is_empty [] = true
  is_empty (x ∷ xs) = false

  -- The members that pass a test, in order.
  abbrev pub filter : (A → Bool) → List A → List A
  filter p [] = []
  filter p (x ∷ xs) = let rest = filter p xs in if p x then x ∷ rest else rest

  pub length-append : (xs ys : List A) → length (xs ++ ys) ≡ length xs + length ys
  length-append [] ys = omega arith
  length-append (x ∷ xs) ys = omega (arith, length-append xs ys)

  pub filter-cons_of_pass :
      (p : A → Bool) (x : A) (xs : List A) → p x ≡ true → filter p (x ∷ xs) ≡ x ∷ filter p xs
  filter-cons_of_pass p x xs h = rw h

  pub filter-cons_of_fail :
      (p : A → Bool) (x : A) (xs : List A) → p x ≡ false → filter p (x ∷ xs) ≡ filter p xs
  filter-cons_of_fail p x xs h = rw h

  pub filter-ext :
      (p q : A → Bool) (xs : List A) → ((x : A) → p x ≡ q x) → filter p xs ≡ filter q xs
  filter-ext p q [] h = refl
  filter-ext p q (x ∷ xs) h = rw (h x, filter-ext p q xs h)

  -- Two filters in a row are one.
  pub filter-filter :
      (p q : A → Bool) (xs : List A) → filter q (filter p xs) ≡ filter (λ x. p x && q x) xs
  filter-filter p q [] = refl
  filter-filter p q (x ∷ xs) = ground (arith, filter-filter p q xs)

  pub filter_all : (p : A → Bool) (xs : List A) → ((x : A) → p x ≡ true) → filter p xs ≡ xs
  filter_all p [] h = refl
  filter_all p (x ∷ xs) h = rw (h x, filter_all p xs h)

  pub is_empty-append_single : (xs : List A) (x : A) → is_empty (xs ++ x ∷ []) ≡ false
  is_empty-append_single [] x = refl
  is_empty-append_single (y ∷ xs) x = refl

  pub cons_of_not_empty :
      (xs : List A) → not (is_empty xs) ≡ true → (x : A) × (ys : List A) × (xs ≡ x ∷ ys)
  cons_of_not_empty [] h = cc
  cons_of_not_empty (x ∷ xs) h = (x, xs, refl)

  pub nil_of_is_empty : (xs : List A) → not (is_empty xs) ≡ false → xs ≡ []
  nil_of_is_empty [] h = refl
  nil_of_is_empty (x ∷ xs) h = cc

module _ {ℓ κ} {A : Type ℓ} (P : A → Type κ) where
  abbrev pub All : List A → Type κ
  All [] = Unit
  All (x ∷ xs) = P x × All xs

module _ {ℓ κ} {A : Type ℓ} (P : A → Type κ) where
  pub All-append : (xs ys : List A) → All P xs → All P ys → All P (xs ++ ys)
  All-append [] ys h k = k
  All-append (x ∷ xs) ys h k = (h.0, All-append xs ys h.1 k)

  pub All-filter : (p : A → Bool) (xs : List A) → All P xs → All P (filter p xs)
  All-filter p [] h = tt
  All-filter p (x ∷ xs) h = ground (arith, All-filter p xs h.1)

  pub All-map {μ} : (Q : A → Type μ) (xs : List A) → ((a : A) → P a → Q a) → All P xs → All Q xs
  All-map Q [] f h = tt
  All-map Q (x ∷ xs) f h = (f x h.0, All-map Q xs f h.1)
