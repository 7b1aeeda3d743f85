-- ===== src/Base/Loops.antt =====
-- `while (test) body` with fuel; `none` means that the fuel ran out, or that the body's did.
use Prim.Native.Nat.{ℕ, zero, suc, ◌<◌}
use mathlib.Core.Path.{◌≡◌, refl, sym, subst, ◌∙◌}
use mathlib.Core.Bool.{Bool, true, false}
use mathlib.Core.Option.{Option, none, some}
use native.Mathlib.Omega.{arith}
use limit_order_book_matchin.Base.Tests.{Bool-cases}
use mathlib.Core.Logic.{inl, inr}

infixl 5 ◌>>=◌
abbrev pub ◌>>=◌ {ℓ κ} : {A : Type ℓ} {B : Type κ} → Option A → (A → Option B) → Option B
none >>= f = none
some a >>= f = f a

-- Inversion of a successful bind.
pub >>=-eq-some {ℓ κ} :
    {A : Type ℓ} {B : Type κ} (m : Option A) (f : A → Option B) {b : B}
    → (m >>= f) ≡ some b
    → (a : A) × (m ≡ some a) × (f a ≡ some b)
>>=-eq-some none f h = cc
>>=-eq-some (some a) f h = (a, refl, h)

pub bind_total {ℓ κ} :
    {A : Type ℓ} {B : Type κ} (m : Option A) (f : A → Option B)
    → (a : A) × (m ≡ some a)
    → ((a : A) → (b : B) × (f a ≡ some b))
    → (b : B) × ((m >>= f) ≡ some b)
bind_total m f (a, e) g = let (b, h) = g a in (b, rw e h)

pub some_inj {ℓ} : {A : Type ℓ} {a b : A} → some a ≡ some b → a ≡ b
some_inj e = cc

module _ {ℓ} {S : Type ℓ} (test : S → Bool) (body : S → Option S) where
  unfoldable pub while : ℕ → S → Option S
  while zero s = none
  while (suc fuel) s = elim (test s) [ true ↦ body s >>= (λ t. while fuel t) | false ↦ some s ]

  -- If every round returns and lowers the measure, fuel above the measure is enough.
  pub while_total :
      (measure : S → ℕ)
      → ((s : S) → test s ≡ true → (t : S) × (body s ≡ some t) × (measure t < measure s))
      → (fuel : ℕ) (s : S) → measure s < fuel
      → (t : S) × (while fuel s ≡ some t)
  unfolding while
  while_total measure step zero s h = absurd (omega arith)
  while_total measure step (suc fuel) s h = elim (Bool-cases (test s)) [
    | inl more ↦
        let (t, e, less) = step s more in
        let (u, f) = while_total measure step fuel t (omega arith) in (u, rw (more, while, e) f)
    | inr done ↦ (s, rw (done, while))
  ]

  -- What every round keeps holds at the end, where the test fails.
  pub while_inv {κ} :
      (P : S → Type κ)
      → ((s t : S) → P s → test s ≡ true → body s ≡ some t → P t)
      → (fuel : ℕ) (s : S) {t : S} → while fuel s ≡ some t
      → P s
      → P t × (test t ≡ false)
  unfolding while
  while_inv P keep zero s e h = cc
  while_inv P keep (suc fuel) s {t} e h = elim (Bool-cases (test s)) [
    | inl more ↦
        let e' : (body s >>= (λ u. while fuel u)) ≡ some t = rw (more, while) at e in
        let (u, f, g) = >>=-eq-some (body s) (λ u. while fuel u) e' in
        while_inv P keep fuel u g (keep s u h more f)
    | inr done ↦
        let q : s ≡ t = some_inj (rw (done, while) at e) in
        (subst P q h, subst (λ u. test u ≡ false) q done)
  ]

-- Two loops in step: a relation that every round keeps, and under which both tests agree.
module _ {ℓ κ} {S : Type ℓ} {T : Type κ} (test : S → Bool) (body : S → Option S) (test' : T → Bool)
    (body' : T → Option T) where
  pub while_sim {μ} :
      (R : S → T → Type μ)
      → ((s : S) (t : T) → R s t → test s ≡ test' t)
      → ((s s' : S) (t t' : T)
          → R s t
          → test s ≡ true
          → body s ≡ some s'
          → body' t ≡ some t'
          → R s' t')
      → (fuel fuel' : ℕ) (s : S) (t : T) {s' : S} {t' : T} → while test body fuel s ≡ some s'
      → while test' body' fuel' t ≡ some t'
      → R s t
      → R s' t'
  unfolding while
  while_sim R same step zero fuel' s t e f r = cc
  while_sim R same step (suc fuel) zero s t e f r = cc
  while_sim R same step (suc fuel) (suc fuel') s t {s'} {t'} e f r = elim (Bool-cases (test s)) [
    | inl more ↦
        let more' = sym (same s t r) ∙ more in
        let e' : (body s >>= (λ u. while test body fuel u)) ≡ some s' = rw (more, while) at e in
        let f' : (body' t >>= (λ u. while test' body' fuel' u)) ≡ some t' =
          rw (more', while) at f in
        let (u, e0, e1) = >>=-eq-some (body s) (λ u. while test body fuel u) e' in
        let (v, f0, f1) = >>=-eq-some (body' t) (λ u. while test' body' fuel' u) f' in
        while_sim R same step fuel fuel' u v e1 f1 (step s u t v r more e0 f0)
    | inr done ↦
        let done' = sym (same s t r) ∙ done in
        let p : s ≡ s' = some_inj (rw (done, while) at e) in
        let q : t ≡ t' = some_inj (rw (done', while) at f) in
        subst (λ u. R u t') p (subst (λ v. R s v) q r)
  ]
