-- ===== src/MemoryPool.antt =====
-- include/memory_pool.h: slabs of equal blocks, and a free list through their `next` fields. A block
-- is named by a number; a slab is named by its first block, and the memory from `next_block` on has
-- not been handed out by `new Block[]`. Each public method holds the pool's mutex while it reads or
-- writes these fields.
pub mod FreeList
pub mod Slots
pub mod Allocation
use limit_order_book_matchin.Base.{
  ℕ, zero, suc, ◌+◌, ◌*◌, Bool, true, false, List, [], ◌∷◌, ◌++◌, Option, none, some, ◌==◌,
  if◌then◌else◌, length, while, ◌>>=◌,
}

abbrev pub Block : Type 0
Block = ℕ

-- `value` is the object that lives in a block, if one does.
pub record MemoryPool {ℓ} (T : Type ℓ) : Type ℓ where
  pub next : Block → Option Block
  pub value : Block → Option T
  pub free_list : Option Block
  pub slabs : List Block
  pub slab_size : ℕ
  pub next_block : Block

-- The locals of `freeCount`.
abbrev pub Walk : Type 0
Walk = Option Block × ℕ

abbrev pub walk_test : Walk → Bool
walk_test (none, count) = false
walk_test (some b, count) = true

module _ {ℓ} {T : Type ℓ} where
  -- `slab[i].next = free_list_; free_list_ = &slab[i];`, also the end of `deallocate`.
  unfoldable pub push_free : Block → MemoryPool T → MemoryPool T
  push_free b p = record p {
    next = λ c. if b == c then p.free_list else p.next c;
    free_list = some b;
  }

  -- The loop of `grow`, with the number of rounds that are left.
  unfoldable pub link_slab : ℕ → Block → MemoryPool T → MemoryPool T
  link_slab zero b p = p
  link_slab (suc n) b p = link_slab n (suc b) (push_free b p)

  unfoldable pub grow : MemoryPool T → MemoryPool T
  grow p =
      let slab = p.next_block in
      link_slab p.slab_size slab
        (record p { slabs = p.slabs ++ slab ∷ []; next_block = slab + p.slab_size })

  unfoldable pub new_pool : ℕ → MemoryPool T
  new_pool slab_size = grow (record {
    next = λ _. none;
    value = λ _. none;
    free_list = none;
    slabs = [];
    slab_size = slab_size;
    next_block = 0;
  })

  abbrev pub grow_if_empty : MemoryPool T → Option Block → MemoryPool T
  grow_if_empty p none = grow p
  grow_if_empty p (some b) = p

  -- `block = free_list_; free_list_ = block->next;` and the constructor; a null pointer is `none`.
  abbrev pub take_front : T → MemoryPool T → Option Block → Option (MemoryPool T × Block)
  take_front x p none = none
  take_front x p (some b) =
      some (record p { free_list = p.next b; value = λ c. if b == c then some x else p.value c }, b)

  unfoldable pub allocate : T → MemoryPool T → Option (MemoryPool T × Block)
  allocate x p = let q = grow_if_empty p p.free_list in take_front x q q.free_list

  -- The destructor, then the push on the free list.
  unfoldable pub deallocate : Block → MemoryPool T → MemoryPool T
  deallocate b p = push_free b (record p { value = λ c. if b == c then none else p.value c })

  abbrev pub walk_next : MemoryPool T → Walk → Option Walk
  walk_next p (none, count) = some (none, count)
  walk_next p (some b, count) = some (p.next b, suc count)

  -- No free list is longer than the memory.
  unfoldable pub free_count : MemoryPool T → Option ℕ
  free_count p = while walk_test (walk_next p) (p.next_block + 1) (p.free_list, 0) >>= λ w. some w.1

  unfoldable pub total_capacity : MemoryPool T → ℕ
  total_capacity p = length p.slabs * p.slab_size
