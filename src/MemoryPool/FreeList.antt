-- ===== src/MemoryPool/FreeList.antt =====
-- The free list of include/memory_pool.h as a list of blocks.
use limit_order_book_matchin.Base.{
  ℕ, zero, suc, ◌+◌, ◌<◌, ◌≡◌, ◌≢◌, refl, sym, ap, subst, ◌∙◌, List, [], ◌∷◌, Option, none, some,
  ◌==◌, if◌then◌else◌, length, All, arith, while, ◌>>=◌,
}
use limit_order_book_matchin.MemoryPool.{
  Block, MemoryPool, push_free, free_count, walk_test, walk_next,
}

-- The blocks from a pointer on are those of the list.
abbrev pub Chain : (Block → Option Block) → Option Block → List Block → Type 0
Chain next head [] = head ≡ none
Chain next head (b ∷ bs) = (head ≡ some b) × Chain next (next b) bs

abbrev pub Distinct : List Block → Type 0
Distinct [] = Unit
Distinct (b ∷ bs) = All (λ c. b ≢ c) bs × Distinct bs

-- A chain does not see a link that is not its own.
pub Chain-frame :
    (next : Block → Option Block) (b : Block) (to head : Option Block) (bs : List Block)
    → All (λ c. b ≢ c) bs
    → Chain next head bs
    → Chain (λ c. if b == c then to else next c) head bs
Chain-frame next b to head [] apart h = h
Chain-frame next b to head (c ∷ cs) (ne, apart) (e, h) =
    (e, rw (not_same b c to next ne) (Chain-frame next b to (next c) cs apart h))
  where
    not_same :
        (x y : Block) (o : Option Block) (f : Block → Option Block)
        → x ≢ y
        → (if x == y then o else f y) ≡ f y
    not_same x y o f ne = ground arith

pub push_free-Chain {ℓ} :
    {T : Type ℓ} (b : Block) (p : MemoryPool T) (bs : List Block)
    → All (λ c. b ≢ c) bs
    → Chain p.next p.free_list bs
    → Chain (push_free b p).next (push_free b p).free_list (b ∷ bs)
unfolding push_free
push_free-Chain b p bs apart h = (
  refl,
  rw (same b p.free_list (p.next b)) (Chain-frame p.next b p.free_list p.free_list bs apart h),
)
  where
    same : (x : Block) (o other : Option Block) → (if x == x then o else other) ≡ o
    same x o other = ground arith

abbrev counted : ℕ → Option (Option Block × ℕ)
counted n = some (none, n)

ended : {n m : ℕ} → n ≡ m → counted n ≡ counted m
ended e = ap counted e

-- The walk over a chain counts it.
while_walk {ℓ} :
    {T : Type ℓ} (p : MemoryPool T) (bs : List Block) (head : Option Block) (n fuel : ℕ)
    → Chain p.next head bs
    → length bs < fuel
    → while walk_test (walk_next p) fuel (head, n) ≡ some (none, length bs + n)
unfolding while
while_walk p [] head n zero h less = absurd (omega arith)
while_walk p [] head n (suc fuel) h less =
    subst
      (λ (o : Option Block).
        while walk_test (walk_next p) (suc fuel) (o, n) ≡ some (none, length {A = Block} [] + n))
      (sym h) (ended (omega arith))
while_walk p (b ∷ bs) head n zero h less = absurd (omega arith)
while_walk p (b ∷ bs) head n (suc fuel) (e, h) less =
    subst
      (λ (o : Option Block).
        while walk_test (walk_next p) (suc fuel) (o, n) ≡ some (none, length (b ∷ bs) + n))
      (sym e) (while_walk p bs (p.next b) (suc n) fuel h (omega arith) ∙ ended (omega arith))

-- `freeCount` returns the length of the free list.
pub free_count-length {ℓ} :
    {T : Type ℓ} (p : MemoryPool T) (bs : List Block)
    → Chain p.next p.free_list bs
    → length bs < p.next_block + 1
    → free_count p ≡ some (length bs)
unfolding free_count
free_count-length p bs h less =
    ap (λ w. w >>= λ v. some v.1) (while_walk p bs p.free_list 0 (p.next_block + 1) h less)
    ∙ ap some (omega arith)
