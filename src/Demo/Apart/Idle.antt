-- ===== src/Demo/Apart/Idle.antt =====
-- Orders that meet no level of the other side make no trade.
use limit_order_book_matchin.Base.{
  ℕ, zero, suc, ◌+◌, ◌<◌, ◌≡◌, refl, ap, ◌∙◌, inl, inr, Bool, false, not, ◌&&◌, List, [], ◌∷◌, ◌++◌,
  Option, some, ℤ, ◌<ℤ◌, ◌≤ℤ◌, ltb, arith, if◌then◌else◌, is_empty, length, while, ◌>>=◌, All,
  Bool-cases,
}
use limit_order_book_matchin.Order.{Side, buy, sell, u64}
use limit_order_book_matchin.PriceMap.{before, push_back}
use limit_order_book_matchin.OrderBook.Matching.{past_limit}
use limit_order_book_matchin.Baseline.{
  SimpleOrder, SimpleLevels, BaselineLob, facing_levels, simple_levels, Walking, best_blocked,
  walking_test, walk_best, walk_levels, put_back, baseline_match, Quote, run_baseline,
}

while_done {ℓ} :
    {S : Type ℓ} (test : S → Bool) (body : S → Option S) (fuel : ℕ) (s : S)
    → test s ≡ false
    → 0 < fuel
    → while test body fuel s ≡ some s
unfolding while
while_done test body zero s h k = absurd (omega (arith, k))
while_done test body (suc fuel) s h k = rw (h, while) refl

module _ (low high : ℤ) (gap : low <ℤ high) where
  -- Buys at `low` or below, sells at `high` or above.
  abbrev pub Outside : Side → ℤ → Type 0
  Outside buy p = p ≤ℤ low
  Outside sell p = high ≤ℤ p

  abbrev LevelsOutside : Side → SimpleLevels → Type 0
  LevelsOutside side = All (λ (e : ℤ × List SimpleOrder). Outside side e.0)

  abbrev pub LobOutside : BaselineLob → Type 0
  LobOutside l = LevelsOutside buy l.bids × LevelsOutside sell l.asks

  push_back-Outside :
      (side : Side) (price : ℤ) (o : SimpleOrder) (m : SimpleLevels)
      → Outside side price
      → LevelsOutside side m
      → LevelsOutside side (push_back side price o m)
  unfolding push_back
  push_back-Outside side price o [] new h = (new, tt)
  push_back-Outside side price o ((p, level) ∷ rest) new h =
      elim (Bool-cases (before side price p)) [
        | inl e ↦ rw e (new, h)
        | inr e ↦ elim (Bool-cases (before side p price)) [
          | inl f ↦ rw (e, f) (h.0, push_back-Outside side price o rest new h.1)
          | inr f ↦ rw (e, f) (h.0, h.1)
        ]
      ]

  blocked :
      (side : Side) (price : ℤ) (l : BaselineLob)
      → Outside side price
      → LobOutside l
      → (not (is_empty (facing_levels side l))
          && not (best_blocked side price (facing_levels side l)))
        ≡ false
  unfolding past_limit
  blocked buy price l h k = by_levels l.asks k.1
    where
      by_levels :
          (m : SimpleLevels)
          → LevelsOutside sell m
          → (not (is_empty m) && not (best_blocked buy price m)) ≡ false
      by_levels [] g = refl
      by_levels ((p, q) ∷ rest) g = let high_p : high ≤ℤ p = g.0 in ground (arith, h, high_p, gap)
  blocked sell price l h k = by_levels l.bids k.0
    where
      by_levels :
          (m : SimpleLevels)
          → LevelsOutside buy m
          → (not (is_empty m) && not (best_blocked sell price m)) ≡ false
      by_levels [] g = refl
      by_levels ((p, q) ∷ rest) g = let low_p : p ≤ℤ low = g.0 in ground (arith, h, low_p, gap)

  rests-Outside :
      (side : Side) (price : ℤ) (qty id : ℕ) (m : SimpleLevels)
      → Outside side price
      → LevelsOutside side m
      → LevelsOutside side (
          if ltb 0 qty
          then push_back side price (record { id = id; price = price; qty = qty }) m
          else m)
  rests-Outside side price qty id m new h = elim (Bool-cases (ltb 0 qty)) [
    | inl e ↦
        rw e (push_back-Outside side price (record { id = id; price = price; qty = qty }) m new h)
    | inr e ↦ rw e h
  ]

  put_back-Outside :
      (side : Side) (own : SimpleLevels) (n : ℕ) (l : BaselineLob)
      → LobOutside l
      → LevelsOutside side own
      → LobOutside (put_back side (facing_levels side l) own n)
  put_back-Outside buy own n l k h = (h, k.1)
  put_back-Outside sell own n l k h = (k.0, h)

  own-Outside :
      (side : Side) (l : BaselineLob) → LobOutside l → LevelsOutside side (simple_levels side l)
  own-Outside buy l k = k.0
  own-Outside sell l k = k.1

  -- Such an order meets no level: it makes no trade, and rests.
  baseline_match-idle :
      (side : Side) (price : ℤ) (qty : ℕ) (l : BaselineLob)
      → Outside side price
      → LobOutside l
      → (l' : BaselineLob) × (baseline_match side price qty l ≡ some (l', [])) × LobOutside l'
  unfolding baseline_match walk_levels walking_test
  baseline_match-idle side price qty l h k =
      let start : Walking = record { facing = facing_levels side l; qty = qty; trades = [] } in
      let b = blocked side price l h k in
      let own =
        if ltb 0 qty
        then push_back side price (record { id = l.next_id; price = price; qty = qty })
            (simple_levels side l)
        else simple_levels side l in
      (
        put_back side (facing_levels side l) own (u64 (l.next_id + 1)),
        ap
            (λ m. m >>= λ s. some (
              put_back side s.facing
                  (if ltb 0 s.qty
                    then push_back side price
                        (record { id = l.next_id; price = price; qty = s.qty })
                        (simple_levels side l)
                    else simple_levels side l)
                  (u64 (l.next_id + 1)),
              s.trades,
            ))
            (while_done (walking_test side price) (λ t. walk_best side l.next_id t.facing t)
              (length start.facing + 2) start (idle (ltb 0 qty) _ _ b) (omega arith)),
        put_back-Outside side own (u64 (l.next_id + 1)) l k (
            rests-Outside side price qty l.next_id (simple_levels side l) h (own-Outside side l k)),
      )
    where
      idle : (x y z : Bool) → (y && z) ≡ false → (x && y && z) ≡ false
      idle x y z e = ground arith

  pub run_baseline-idle :
      (qs : List Quote) (l : BaselineLob)
      → All (λ q. Outside q.side q.price) qs
      → LobOutside l
      → (l' : BaselineLob) × (run_baseline qs l ≡ some (l', []))
  unfolding run_baseline
  run_baseline-idle [] l h k = (l, refl)
  run_baseline-idle (q ∷ qs) l h k =
      let (l', e, k') = baseline_match-idle q.side q.price q.qty l h.0 k in
      let (last, f) = run_baseline-idle qs l' h.1 k' in
      (
        last,
        ap (λ m. m >>= λ r. run_baseline qs r.0 >>= λ s. some (s.0, r.1 ++ s.1)) e
            ∙ ap (λ m. m >>= λ s. some (s.0, [] ++ s.1)) f,
      )
