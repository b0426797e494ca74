-- ===== src/Malloc/Tests.antt =====
-- prj3/prj3-malloc: runs of the allocator from an empty heap at address 8, and the theorems at a
-- small free list.
use system_programing.Common.{
  ℕ, ◌+◌, ◌*◌, ◌^◌, ◌≡◌, inl, refl, arith, List, [], ◌∷◌, Option, none, some, false, ◌>>=◌, ◌==◌,
  if◌then◌else◌,
}
use system_programing.Malloc.{
  Heap, block_size, put, connect, insert_list, erase, mem_sbrk, or3, pack, set_alloc, clr_alloc,
  set_tag, clr_tag, set_size, hdrp, ftrp, next_block, prev_block,
}
use system_programing.Malloc.Blocks.{
  merge_next, merge_prev, merge_both, coalesce, add_block, even_bytes, extend_heap, better,
  fit_loop, find_fit_at_list, release_rest, place_low, place_high, place,
}
use system_programing.Malloc.Api.{
  mem_init, lay_out, first_free, mm_init, alloc_size, grow, mm_malloc, mm_free, memcpy, grow_last,
  split, take_all, merge, move, relocate, mm_realloc,
}
use system_programing.Malloc.Check.{
  mem_heap_lo, mem_heap_hi, check_list, is_marked, missed_coalescing, is_outside, check_blocks,
  and_then, mm_check,
}
use system_programing.Malloc.FreeList.{Ring}
use system_programing.Malloc.Fit.{Found, find_fit_at_list-Found}

abbrev fresh : Heap
fresh = (mm_init (mem_init 8 (λ p. 0))).1

abbrev Run : Type 0
Run = Option (Option ℕ × Heap)

abbrev then_malloc : Run → ℕ → Run
then_malloc r size = r >>= λ x. mm_malloc x.1 9 size

abbrev then_free : Run → ℕ → Run
then_free r ptr = r >>= λ x. some (x.0, mm_free x.1 ptr)

abbrev then_realloc : Run → ℕ → ℕ → Run
then_realloc r ptr size = r >>= λ x. mm_realloc x.1 9 (some ptr) size

abbrev addr : Run → Option (Option ℕ)
addr r = r >>= λ x. some x.0

abbrev start : Run
start = some (none, fresh)

abbrev size_at : Run → ℕ → Option ℕ
size_at r ptr = r >>= λ x. some (block_size x.1 ptr)

-- A small request is cut from the front of the free block, a large one from its end.
malloc_runs :
    (addr (then_malloc start 10) ≡ some (some 32))
    × (addr (then_malloc start 100) ≡ some (some 4024))
    × (addr (then_malloc (then_malloc start 10) 10) ≡ some (some 48))
unfolding or3 pack set_alloc clr_alloc set_tag clr_tag set_size hdrp block_size ftrp next_block
    prev_block put connect insert_list erase mem_sbrk merge_next merge_prev merge_both coalesce
    add_block even_bytes extend_heap better fit_loop find_fit_at_list release_rest place_low
    place_high place mem_init lay_out first_free mm_init alloc_size grow mm_malloc mm_free memcpy
    grow_last split take_all merge move relocate mm_realloc
malloc_runs = (refl, refl, refl)

-- A freed block is used again, and free neighbours become one block.
free_runs :
    (addr (then_malloc (then_free (then_malloc (then_malloc start 10) 10) 32) 12) ≡ some (some 32))
    × (size_at (then_free (then_malloc start 100) 4024) 32 ≡ some 4096)
unfolding or3 pack set_alloc clr_alloc set_tag clr_tag set_size hdrp block_size ftrp next_block
    prev_block put connect insert_list erase mem_sbrk merge_next merge_prev merge_both coalesce
    add_block even_bytes extend_heap better fit_loop find_fit_at_list release_rest place_low
    place_high place mem_init lay_out first_free mm_init alloc_size grow mm_malloc mm_free memcpy
    grow_last split take_all merge move relocate mm_realloc
free_runs = (refl, refl)

-- A free last block counts towards a request that makes the heap grow.
grow_run : size_at (then_malloc start 5000) 32 ≡ some 5008
unfolding or3 pack set_alloc clr_alloc set_tag clr_tag set_size hdrp block_size ftrp next_block
    prev_block put connect insert_list erase mem_sbrk merge_next merge_prev merge_both coalesce
    add_block even_bytes extend_heap better fit_loop find_fit_at_list release_rest place_low
    place_high place mem_init lay_out first_free mm_init alloc_size grow mm_malloc mm_free memcpy
    grow_last split take_all merge move relocate mm_realloc
grow_run = refl

-- In place with a free neighbour, elsewhere without.
realloc_runs :
    (addr (then_realloc (then_malloc start 10) 32 40) ≡ some (some 32))
    × (addr (then_realloc (then_malloc (then_malloc start 10) 10) 32 40) ≡ some (some 64))
unfolding or3 pack set_alloc clr_alloc set_tag clr_tag set_size hdrp block_size ftrp next_block
    prev_block put connect insert_list erase mem_sbrk merge_next merge_prev merge_both coalesce
    add_block even_bytes extend_heap better fit_loop find_fit_at_list release_rest place_low
    place_high place mem_init lay_out first_free mm_init alloc_size grow mm_malloc mm_free memcpy
    grow_last split take_all merge move relocate mm_realloc
realloc_runs = (refl, refl)

-- The block at 32 grows over the header of the allocated block at 2120.
realloc_overlap :
    (addr (then_malloc start 2000) ≡ some (some 2120))
    × (size_at (then_realloc (then_malloc (then_malloc start 2000) 2072) 32 2088) 32 ≡ some 2096)
unfolding or3 pack set_alloc clr_alloc set_tag clr_tag set_size hdrp block_size ftrp next_block
    prev_block put connect insert_list erase mem_sbrk merge_next merge_prev merge_both coalesce
    add_block even_bytes extend_heap better fit_loop find_fit_at_list release_rest place_low
    place_high place mem_init lay_out first_free mm_init alloc_size grow mm_malloc mm_free memcpy
    grow_last split take_all merge move relocate mm_realloc
realloc_overlap = (refl, refl)

-- Free blocks of 24 bytes at 160 and of 64 bytes at 32, in this order; the head is at 12.
abbrev word_at : List (ℕ × ℕ) → ℕ → ℕ
word_at [] q = 0
word_at ((p, v) ∷ words) q = if p == q then v else word_at words q

abbrev two_free : Heap
two_free = record {
  mem = word_at (
      (12, 20)
      ∷ (16, 148)
      ∷ (28, 66)
      ∷ (32, 148)
      ∷ (36, 0)
      ∷ (156, 26)
      ∷ (160, 0)
      ∷ (164, 20)
      ∷ []);
  mem_start_brk = 8;
  mem_brk = 4128;
  mem_max_addr = 8 + 20 * 2 ^ 20;
  heap_head = 24;
  heap_tail = 4124;
  free_head = 12;
}

two_free-Ring : Ring two_free (160 ∷ 32 ∷ [])
two_free-Ring = (
  ((refl, refl), ((refl, refl), (refl, refl))),
  (
    (omega arith, inl refl, omega arith, (omega arith, (omega arith, tt))),
    (
      (omega arith, omega arith, omega arith, (omega arith, tt)),
      ((omega arith, omega arith), omega arith),
    ),
  ),
)

find_fit_at_list-Found_example :
    (r : Option ℕ × Heap) × ((find_fit_at_list two_free 3 24 ≡ some r)
      × Found two_free 24 (160 ∷ 32 ∷ []) r)
find_fit_at_list-Found_example =
    find_fit_at_list-Found two_free 3 24 (160 ∷ 32 ∷ []) two_free-Ring (omega arith)

-- The allocator's own check finds nothing after these runs.
check_runs :
    (mm_check fresh 9 ≡ some false)
    × ((then_free (then_malloc (then_malloc start 10) 10) 32 >>= λ x. mm_check x.1 9) ≡ some false)
unfolding or3 pack set_alloc clr_alloc set_tag clr_tag set_size hdrp block_size ftrp next_block
    prev_block put connect insert_list erase mem_sbrk merge_next merge_prev merge_both coalesce
    add_block even_bytes extend_heap better fit_loop find_fit_at_list release_rest place_low
    place_high place mem_init lay_out first_free mm_init alloc_size grow mm_malloc mm_free memcpy
    grow_last split take_all merge move relocate mm_realloc mem_heap_lo mem_heap_hi check_list
    is_marked missed_coalescing is_outside check_blocks and_then mm_check
check_runs = (refl, refl)

-- Behind the overlap its walk over the blocks meets a size of 0 and goes on at the same place.
overlap_run :
    (then_realloc (then_malloc (then_malloc start 2000) 2072) 32 2088 >>= λ x. mm_check x.1 30)
    ≡ none
unfolding or3 pack set_alloc clr_alloc set_tag clr_tag set_size hdrp block_size ftrp next_block
    prev_block put connect insert_list erase mem_sbrk merge_next merge_prev merge_both coalesce
    add_block even_bytes extend_heap better fit_loop find_fit_at_list release_rest place_low
    place_high place mem_init lay_out first_free mm_init alloc_size grow mm_malloc mm_free memcpy
    grow_last split take_all merge move relocate mm_realloc mem_heap_lo mem_heap_hi check_list
    is_marked missed_coalescing is_outside check_blocks and_then mm_check
overlap_run = refl
