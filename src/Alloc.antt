-- ===== src/Alloc.antt =====
-- alloc.c: the heap of the daemon with its limit. `max` is CONFIG_MAX_HEAPSIZE_IN_KBYTE * 1024; a `size_t`
-- has 64 bits. What `malloc` and `calloc` of the system return is an argument: an address or none.
pub mod Accounts
use cjet.Base.{
  ℕ, ◌+◌, ◌-◌, ◌*◌, ◌%◌, ◌^◌, Bool, true, false, Option, none, some, List, [], ◌∷◌, ltb, ◌==◌,
  if◌then◌else◌,
}

-- `struct memblock`, by its address
pub record Memblock : Type 0 where
  pub address : ℕ
  pub size : ℕ

-- `allocated_memory` and the blocks that are in use
pub record Heap : Type 0 where
  pub allocated_memory : ℕ
  pub blocks : List Memblock

abbrev pub size_t : ℕ → ℕ
size_t n = n % 2 ^ 64

module _ (max : ℕ) where
  -- What `cjet_malloc` and `cjet_calloc` do from their `alloc_size` on
  unfoldable pub allocate : ℕ → Option ℕ → Heap → Option ℕ × Heap
  allocate alloc_size system h =
      if ltb max (size_t (h.allocated_memory + alloc_size)) then (none, h) else elim system [
        | none ↦ (none, h)
        | some ptr ↦ (
          some ptr,
          record {
            allocated_memory = size_t (h.allocated_memory + alloc_size);
            blocks = record { address = ptr; size = alloc_size } ∷ h.blocks;
          },
        )
      ]

  -- `cjet_malloc`
  unfoldable pub cjet_malloc : ℕ → Option ℕ → Heap → Option ℕ × Heap
  unfolding allocate
  cjet_malloc size system h = allocate (size_t (size + 8)) system h

  -- `cjet_calloc`
  unfoldable pub cjet_calloc : ℕ → ℕ → Option ℕ → Heap → Option ℕ × Heap
  unfolding allocate
  cjet_calloc nmemb size system h = allocate (size_t (nmemb * size + 8)) system h

-- The block of a pointer, and the blocks without it
unfoldable pub find_block : ℕ → List Memblock → Option (ℕ × List Memblock)
find_block ptr [] = none
find_block ptr (b ∷ blocks) =
    let rest = find_block ptr blocks in
    if b.address == ptr
    then some (b.size, blocks)
    else elim rest [ none ↦ none | some (size, others) ↦ some (size, b ∷ others) ]

-- `cjet_free`, none for a pointer that is not in use
unfoldable pub cjet_free : ℕ → Heap → Option Heap
unfolding find_block
cjet_free ptr h = elim (find_block ptr h.blocks) [
  | none ↦ none
  | some (size, others) ↦
      some
        (record { allocated_memory = size_t (h.allocated_memory + 2 ^ 64 - size); blocks = others })
]
