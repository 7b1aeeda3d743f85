-- ===== src/MemoryPool/Allocation.antt =====
-- The blocks that `allocate` and `deallocate` of include/memory_pool.h move, and the counts.
use limit_order_book_matchin.Base.{
  ℕ, zero, suc, ◌+◌, ◌<◌, ◌≡◌, ◌≢◌, refl, sym, ap, subst, ◌∙◌, List, [], ◌∷◌, ◌++◌, Option, none,
  some, ◌==◌, if◌then◌else◌, length, length-append, All, All-map, arith,
}
use limit_order_book_matchin.MemoryPool.{
  Block, MemoryPool, push_free, grow, grow_if_empty, take_front, allocate, deallocate, free_count,
  total_capacity,
}
use limit_order_book_matchin.MemoryPool.FreeList.{Distinct, push_free-Chain, free_count-length}
use limit_order_book_matchin.MemoryPool.Slots.{Apart, IsPool, stack, grow-IsPool, grow-value}

-- Taking the front block moves it from one list to the other.
take_front-IsPool {ℓ} :
    {T : Type ℓ} (x : T) (p : MemoryPool T) (b : Block) (free used : List Block)
    → IsPool p (b ∷ free) used
    → (q : MemoryPool T) × (take_front x p p.free_list ≡ some (q, b))
      × IsPool q free (b ∷ used)
      × (q.value b ≡ some x)
      × ((c : Block) → b ≢ c → q.value c ≡ p.value c)
take_front-IsPool {T} x p b free used h = (
  q,
  ap (take_front x p) h.chain.0,
  record {
    chain = h.chain.1;
    free_once = h.free_once.1;
    used_once = (h.apart.0, h.used_once);
    apart = apart_cons free h.free_once.0 h.apart.1;
    below = (h.below.0.1, (h.below.0.0, h.below.1));
    count = omega (arith, h.count);
    slabs = h.slabs;
  },
  here b (some x) (p.value b),
  λ c ne. there b c (some x) (p.value c) ne,
)
  where
    q : MemoryPool T
    q = record p { free_list = p.next b; value = λ c. if b == c then some x else p.value c }

    apart_cons : (cs : List Block) → All (λ c. b ≢ c) cs → Apart cs used → Apart cs (b ∷ used)
    apart_cons [] h k = tt
    apart_cons (c ∷ cs) h k = (((λ e. h.0 (sym e)), k.0), apart_cons cs h.1 k.1)

    here : (c : Block) (o other : Option T) → (if c == c then o else other) ≡ o
    here c o other = ground arith

    there : (c d : Block) (o other : Option T) → c ≢ d → (if c == d then o else other) ≡ other
    there c d o other ne = ground arith

-- What a call of `allocate` gives: a block that was not handed out, with the object in it, and the
-- objects of the others as they were.
pub record Allocated {ℓ} {T : Type ℓ} (x : T) (p : MemoryPool T) (used : List Block) : Type ℓ where
  pub pool : MemoryPool T
  pub block : Block
  pub free : List Block
  pub result : allocate x p ≡ some (pool, block)
  pub owned : IsPool pool free (block ∷ used)
  pub holds : pool.value block ≡ some x
  pub others : (c : Block) → block ≢ c → pool.value c ≡ p.value c

-- In a pool with slabs of at least one block, whose blocks are each free or handed out, `allocate`
-- always gives a block that was not handed out, which then holds the object; the other objects stay,
-- and the blocks are again each free or handed out.
pub allocate-Allocated {ℓ} :
    {T : Type ℓ} (x : T) (p : MemoryPool T) (free used : List Block)
    → 0 < p.slab_size
    → IsPool p free used
    → Allocated x p used
unfolding allocate
allocate-Allocated {T} x p (b ∷ free) used some_size h =
    let (q, e, k, v, keep) = take_front-IsPool x p b free used h in
    record {
      pool = q;
      block = b;
      free = free;
      result = ap grown h.chain.0 ∙ e;
      owned = k;
      holds = v;
      others = keep;
    }
  where
    grown : Option Block → Option (MemoryPool T × Block)
    grown o = take_front x (grow_if_empty p o) (grow_if_empty p o).free_list
allocate-Allocated {T} x p [] used some_size h =
    let g = grow-IsPool p [] used h in
    let (b, bs, shape) = stack_cons p.slab_size p.next_block some_size in
    let (q, e, k, v, keep) =
      take_front-IsPool x (grow p) b bs used (subst (λ l. IsPool (grow p) l used) shape g) in
    record {
      pool = q;
      block = b;
      free = bs;
      result = ap grown h.chain ∙ e;
      owned = k;
      holds = v;
      others = λ c ne. keep c ne ∙ ap (λ f. f c) (grow-value p);
    }
  where
    grown : Option Block → Option (MemoryPool T × Block)
    grown o = take_front x (grow_if_empty p o) (grow_if_empty p o).free_list

    stack_more :
        (n : ℕ) (c : Block) (cs : List Block) (d : Block)
        → (b : Block) × (bs : List Block) × (stack n c (d ∷ cs) ≡ b ∷ bs)
    stack_more zero c cs d = (d, cs, refl)
    stack_more (suc n) c cs d = stack_more n (suc c) (d ∷ cs) c

    stack_cons :
        (n : ℕ) (c : Block) → 0 < n → (b : Block) × (bs : List Block) × (stack n c [] ≡ b ∷ bs)
    stack_cons zero c h = absurd (omega arith)
    stack_cons (suc n) c h = stack_more n (suc c) [] c

-- A member taken out of the middle.
All-middle {κ} :
    (P : Block → Type κ) (us : List Block) (b : Block) (vs : List Block)
    → All P (us ++ b ∷ vs)
    → P b × All P (us ++ vs)
All-middle P [] b vs h = h
All-middle P (u ∷ us) b vs h = let k = All-middle P us b vs h.1 in (k.0, (h.0, k.1))

Distinct-middle :
    (us : List Block) (b : Block) (vs : List Block)
    → Distinct (us ++ b ∷ vs)
    → All (λ c. b ≢ c) (us ++ vs) × Distinct (us ++ vs)
Distinct-middle [] b vs h = h
Distinct-middle (u ∷ us) b vs h =
    let k = All-middle (λ c. u ≢ c) us b vs h.0 in
    let m = Distinct-middle us b vs h.1 in (((λ e. k.0 (sym e)), m.0), (k.1, m.1))

-- `deallocate` of a block that is handed out moves it to the front of the free list, and no other: the
-- blocks are again each free or handed out.
pub deallocate-IsPool {ℓ} :
    {T : Type ℓ} (p : MemoryPool T) (b : Block) (free us vs : List Block)
    → IsPool p free (us ++ b ∷ vs)
    → IsPool (deallocate b p) (b ∷ free) (us ++ vs)
unfolding deallocate push_free
deallocate-IsPool p b free us vs h = record {
  chain =
      push_free-Chain b (record p { value = λ c. if b == c then none else p.value c }) free
        (others free h.apart) h.chain;
  free_once = (others free h.apart, h.free_once);
  used_once = m.1;
  apart = (m.0, All-map _ _ free (λ c k. (All-middle (λ d. c ≢ d) us b vs k).1) h.apart);
  below = ((l.0, h.below.0), l.1);
  count = omega (arith, h.count, length-append us (b ∷ vs), length-append us vs);
  slabs = h.slabs;
}
  where
    m : All (λ c. b ≢ c) (us ++ vs) × Distinct (us ++ vs)
    m = Distinct-middle us b vs h.used_once

    l : (b < p.next_block) × All (λ c. c < p.next_block) (us ++ vs)
    l = All-middle (λ c. c < p.next_block) us b vs h.below.1

    others : (cs : List Block) → Apart cs (us ++ b ∷ vs) → All (λ c. b ≢ c) cs
    others cs = All-map _ (λ c. b ≢ c) cs (λ c k e. (All-middle (λ d. c ≢ d) us b vs k).0 (sym e))

-- In a pool whose blocks are each free or handed out, `freeCount` returns, and what it returns and the
-- number of blocks that are handed out add up to `totalCapacity`.
pub free_count-total {ℓ} :
    {T : Type ℓ} (p : MemoryPool T) (free used : List Block)
    → IsPool p free used
    → (n : ℕ) × (free_count p ≡ some n) × (n + length used ≡ total_capacity p)
unfolding total_capacity
free_count-total p free used h =
    (length free, free_count-length p free h.chain (omega (arith, h.count)), h.count ∙ sym h.slabs)
