-- ===== src/MemoryPool/Slots.antt =====
-- Who owns the blocks of include/memory_pool.h: each is in the free list or handed out.
use limit_order_book_matchin.Base.{
  ℕ, zero, suc, ◌+◌, ◌*◌, ◌<◌, ◌≤◌, ◌≡◌, ◌≢◌, refl, sym, subst, ◌∙◌, List, [], ◌∷◌, ◌++◌, none,
  length, length-append, All, All-map, arith,
}
use limit_order_book_matchin.MemoryPool.{Block, MemoryPool, push_free, link_slab, grow, new_pool}
use limit_order_book_matchin.MemoryPool.FreeList.{Chain, Distinct, push_free-Chain}

abbrev pub Apart : List Block → List Block → Type 0
Apart free used = All (λ b. All (λ c. b ≢ c) used) free

-- `free` are the blocks of the free list and `used` those that are handed out: no block is twice in
-- them, and together they are as many as the memory has.
pub record IsPool {ℓ} {T : Type ℓ} (p : MemoryPool T) (free used : List Block) : Type 0 where
  pub chain : Chain p.next p.free_list free
  pub free_once : Distinct free
  pub used_once : Distinct used
  pub apart : Apart free used
  pub below : All (λ b. b < p.next_block) free × All (λ b. b < p.next_block) used
  pub count : length free + length used ≡ p.next_block
  pub slabs : length p.slabs * p.slab_size ≡ p.next_block

-- A block above all of a list is not in it.
above : (b n : ℕ) (bs : List Block) → n ≤ b → All (λ c. c < n) bs → All (λ c. b ≢ c) bs
above b n bs h = All-map (λ c. c < n) (λ c. b ≢ c) bs (λ c less e. omega (arith, e))

-- The blocks `b`, …, `b + n - 1`, the last one first, on top of a list.
abbrev pub stack : ℕ → Block → List Block → List Block
stack zero b bs = bs
stack (suc n) b bs = stack n (suc b) (b ∷ bs)

-- What the loop of `grow` keeps, with the memory that it has linked so far ending at `b`.
record Linked {ℓ} {T : Type ℓ} (p : MemoryPool T) (b : Block) (free used : List Block)
    : Type 0 where
  chain : Chain p.next p.free_list free
  free_once : Distinct free
  apart : Apart free used
  below : All (λ c. c < b) free × All (λ c. c < b) used
  count : length free + length used ≡ b

Linked-push {ℓ} :
    {T : Type ℓ} (b : Block) (p : MemoryPool T) (free used : List Block)
    → Linked p b free used
    → Linked (push_free b p) (suc b) (b ∷ free) used
Linked-push b p free used h = record {
  chain = push_free-Chain b p free new h.chain;
  free_once = (new, h.free_once);
  apart = (above b b used (omega arith) h.below.1, h.apart);
  below = (
    (omega arith, All-map (λ c. c < b) (λ c. c < suc b) free (λ c less. omega arith) h.below.0),
    All-map (λ c. c < b) (λ c. c < suc b) used (λ c less. omega arith) h.below.1,
  );
  count = omega (arith, h.count);
}
  where
    new : All (λ c. b ≢ c) free
    new = above b b free (omega arith) h.below.0

link_slab-Linked {ℓ} :
    {T : Type ℓ} (n : ℕ) (b : Block) (p : MemoryPool T) (free used : List Block)
    → Linked p b free used
    → Linked (link_slab n b p) (b + n) (stack n b free) used
unfolding link_slab
link_slab-Linked zero b p free used h = subst (λ m. Linked p m free used) (omega arith) h
link_slab-Linked (suc n) b p free used h =
    subst (λ m. Linked (link_slab n (suc b) (push_free b p)) m (stack n (suc b) (b ∷ free)) used)
      (omega arith)
      (link_slab-Linked n (suc b) (push_free b p) (b ∷ free) used (Linked-push b p free used h))

-- The loop leaves the other fields.
record SameSlabs {ℓ} {T : Type ℓ} (p q : MemoryPool T) : Type ℓ where
  slabs : q.slabs ≡ p.slabs
  slab_size : q.slab_size ≡ p.slab_size
  next_block : q.next_block ≡ p.next_block
  value : q.value ≡ p.value

link_slab-same {ℓ} :
    {T : Type ℓ} (n : ℕ) (b : Block) (p : MemoryPool T) → SameSlabs p (link_slab n b p)
unfolding link_slab push_free
link_slab-same zero b p = record { slabs = refl; slab_size = refl; next_block = refl; value = refl }
link_slab-same (suc n) b p =
    let k = link_slab-same n (suc b) (push_free b p) in
    record { slabs = k.slabs; slab_size = k.slab_size; next_block = k.next_block; value = k.value }

-- `grow` adds a slab of free blocks and touches no other.
pub grow-IsPool {ℓ} :
    {T : Type ℓ} (p : MemoryPool T) (free used : List Block)
    → IsPool p free used
    → IsPool (grow p) (stack p.slab_size p.next_block free) used
unfolding grow
grow-IsPool {T} p free used h = record {
  chain = l.chain;
  free_once = l.free_once;
  used_once = h.used_once;
  apart = l.apart;
  below =
      subst (λ m. All (λ c. c < m) (stack p.slab_size p.next_block free) × All (λ c. c < m) used)
        (sym k.next_block) l.below;
  count = l.count ∙ sym k.next_block;
  slabs =
      rw (k.slabs, k.slab_size, k.next_block, length-append p.slabs (p.next_block ∷ []))
        (grown (length p.slabs) p.slab_size p.next_block h.slabs);
}
  where
    start : MemoryPool T
    start = record p {
      slabs = p.slabs ++ p.next_block ∷ [];
      next_block = p.next_block + p.slab_size;
    }

    k : SameSlabs start (link_slab p.slab_size p.next_block start)
    k = link_slab-same p.slab_size p.next_block start

    l :
        Linked
          (link_slab p.slab_size p.next_block start)
          (p.next_block + p.slab_size)
          (stack p.slab_size p.next_block free)
          used
    l = link_slab-Linked p.slab_size p.next_block start free used (record {
      chain = h.chain;
      free_once = h.free_once;
      apart = h.apart;
      below = h.below;
      count = h.count;
    })

    grown : (n size total : ℕ) → n * size ≡ total → (n + 1) * size ≡ total + size
    grown n size total e = ground (arith, e)

pub grow-value {ℓ} : {T : Type ℓ} (p : MemoryPool T) → (grow p).value ≡ p.value
unfolding grow
grow-value p = (link_slab-same p.slab_size p.next_block _).value

-- A new pool has one slab, all of it free.
pub new_pool-IsPool {ℓ} :
    {T : Type ℓ} (n : ℕ) → (free : List Block) × IsPool (new_pool {T = T} n) free []
unfolding new_pool
new_pool-IsPool {T} n = (
  stack n 0 [],
  grow-IsPool empty [] [] (record {
    chain = refl;
    free_once = tt;
    used_once = tt;
    apart = tt;
    below = (tt, tt);
    count = refl;
    slabs = omega arith;
  }),
)
  where
    empty : MemoryPool T
    empty = record {
      next = λ _. none;
      value = λ _. none;
      free_list = none;
      slabs = [];
      slab_size = n;
      next_block = 0;
    }
