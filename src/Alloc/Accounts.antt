-- ===== src/Alloc/Accounts.antt =====
-- The accounts of alloc.c: `allocated_memory` is what the blocks in use take, and within the limit.
use cjet.Base.{
  ℕ, ◌+◌, ◌-◌, ◌*◌, ◌^◌, ◌≤◌, ◌<◌, Option, none, some, List, [], ◌∷◌, ◌≡◌, refl, ap, arith, All,
}
use cjet.Alloc.{Memblock, Heap, size_t, allocate, cjet_malloc, cjet_calloc, find_block, cjet_free}

-- The calls of the daemon, with what the system returns
pub data Call : Type 0 where
  malloc : ℕ → Option ℕ → Call
  calloc : ℕ → ℕ → Option ℕ → Call
  free : ℕ → Call

-- No system gives out 2^63 bytes or more: it returns NULL.
abbrev pub IsPossible : Call → Type 0
IsPossible (malloc size system) = (ptr : ℕ) → system ≡ some ptr → size_t (size + 8) < 2 ^ 63
IsPossible (calloc nmemb size system) =
    (ptr : ℕ) → system ≡ some ptr → size_t (nmemb * size + 8) < 2 ^ 63
IsPossible (free ptr) = Unit {0}

unfoldable pub total : List Memblock → ℕ
total [] = 0
total (b ∷ blocks) = b.size + total blocks

module _ (max : ℕ) where
  -- The calls one after another, none when a pointer is freed that is not in use
  unfoldable pub run_calls : List Call → Heap → Option Heap
  unfolding cjet_malloc cjet_calloc cjet_free
  run_calls [] h = some h
  run_calls (malloc size system ∷ calls) h = run_calls calls (cjet_malloc max size system h).1
  run_calls (calloc nmemb size system ∷ calls) h =
      run_calls calls (cjet_calloc max nmemb size system h).1
  run_calls (free ptr ∷ calls) h = elim (cjet_free ptr h) [
    | none ↦ none
    | some h' ↦ run_calls calls h'
  ]

  abbrev pub Balanced : Heap → Type 0
  Balanced h = (h.allocated_memory ≡ total h.blocks) × (h.allocated_memory ≤ max)

  allocate-Balanced :
      (alloc_size : ℕ) (system : Option ℕ) (h : Heap)
      → max < 2 ^ 63
      → ((ptr : ℕ) → system ≡ some ptr → alloc_size < 2 ^ 63)
      → Balanced h
      → Balanced (allocate max alloc_size system h).1
  unfolding allocate total
  allocate-Balanced alloc_size none h small possible balanced = ground arith
  allocate-Balanced alloc_size (some ptr) h small possible balanced =
      let fits = possible ptr refl in ground (arith, fits, balanced)

  find_block-total :
      (ptr size : ℕ) (blocks others : List Memblock)
      → find_block ptr blocks ≡ some (size, others)
      → total blocks ≡ size + total others
  unfolding find_block total
  find_block-total ptr size [] others found = absurd cc
  find_block-total ptr size (b ∷ blocks) others found =
      by_rest (find_block ptr blocks) refl (λ s o is. find_block-total ptr s blocks o is)
    where
      by_rest :
          (r : Option (ℕ × List Memblock))
          → find_block ptr blocks ≡ r
          → ((s : ℕ) (o : List Memblock)
              → find_block ptr blocks ≡ some (s, o)
              → total blocks ≡ s + total o)
          → b.size + total blocks ≡ size + total others
      by_rest none missing rest = ground (arith, found, missing)
      by_rest (some (s, o)) there rest = ground (arith, found, there, rest s o there)

  cjet_free-Balanced :
      (ptr : ℕ) (h h' : Heap) → max < 2 ^ 63 → Balanced h → cjet_free ptr h ≡ some h' → Balanced h'
  unfolding cjet_free
  cjet_free-Balanced ptr h h' small balanced done = by_block (find_block ptr h.blocks) refl
    where
      by_block : (r : Option (ℕ × List Memblock)) → find_block ptr h.blocks ≡ r → Balanced h'
      by_block none missing = absurd (ground (arith, missing, done))
      by_block (some (s, o)) there =
          let sum : total h.blocks ≡ s + total o = find_block-total ptr s h.blocks o there in
          let left : h'.blocks ≡ o = ground (arith, there, done) in
          let count : h'.allocated_memory ≡ size_t (h.allocated_memory + 2 ^ 64 - s) =
            ground (arith, there, done) in
          let rests : total h'.blocks ≡ total o = ap total left in
          (omega (arith, balanced, sum, count, rests), omega (arith, balanced, sum, count))

  run_calls-kept :
      (calls : List Call) (h h' : Heap)
      → max < 2 ^ 63
      → All IsPossible calls
      → Balanced h
      → run_calls calls h ≡ some h'
      → Balanced h'
  unfolding run_calls cjet_malloc cjet_calloc
  run_calls-kept [] h h' small possible balanced done = ground (arith, balanced, done)
  run_calls-kept (malloc size system ∷ calls) h h' small possible balanced done =
      run_calls-kept calls (allocate max (size_t (size + 8)) system h).1 h' small possible.1
        (allocate-Balanced (size_t (size + 8)) system h small possible.0 balanced) done
  run_calls-kept (calloc nmemb size system ∷ calls) h h' small possible balanced done =
      run_calls-kept calls (allocate max (size_t (nmemb * size + 8)) system h).1 h' small possible.1
        (allocate-Balanced (size_t (nmemb * size + 8)) system h small possible.0 balanced) done
  run_calls-kept (free ptr ∷ calls) h h' small possible balanced done =
      by_free (cjet_free ptr h) refl
        (λ next is.
          run_calls-kept calls next h' small possible.1
            (cjet_free-Balanced ptr h next small balanced is))
        done
    where
      by_free :
          (r : Option Heap)
          → cjet_free ptr h ≡ r
          → ((next : Heap)
              → cjet_free ptr h ≡ some next
              → run_calls calls next ≡ some h'
              → Balanced h')
          → elim r as (λ _. Option Heap) [ none ↦ none | some next ↦ run_calls calls next ]
            ≡ some h'
          → Balanced h'
      by_free none is rest never = absurd cc
      by_free (some next) is rest ended = rest next is ended

-- After any calls from the start that free only pointers in use, on a system that gives out no
-- block of 2^63 bytes, and for a limit below that: allocated_memory is the sum of the sizes of the
-- blocks in use, the headers included, and is within the limit.
pub run_calls-Balanced :
    (max : ℕ) (calls : List Call) (h : Heap)
    → max < 2 ^ 63
    → All IsPossible calls
    → run_calls max calls (record { allocated_memory = 0; blocks = [] }) ≡ some h
    → (h.allocated_memory ≡ total h.blocks) × (h.allocated_memory ≤ max)
unfolding total
run_calls-Balanced max calls h small possible done =
    run_calls-kept max calls (record { allocated_memory = 0; blocks = [] }) h small possible
      (refl, omega arith) done
