-- ===== src/Malloc/Blocks.antt =====
-- prj3/prj3-malloc/mm.c: coalescing, growth of the heap, the search of the free list, placement.
use system_programing.Common.{
  ℕ, zero, suc, ◌*◌, ◌%◌, ◌^◌, not, ◌&&◌, ◌||◌, Option, none, some, ltb, leb, ◌==◌, if◌then◌else◌,
}
use system_programing.Malloc.{
  Heap, add32, sub32, put, pack, get_size, get_alloc, get_tag, set_alloc, clr_alloc, set_tag,
  clr_tag, set_size, hdrp, block_size, ftrp, next_block, prev_block, succ, insert_list, erase,
  mem_sbrk,
}

-- Case 2 of `coalesce`: the block behind is free.
unfoldable pub merge_next : Heap → ℕ → ℕ → ℕ × Heap
merge_next h bp size =
    let h1 = erase h (next_block h bp) in
    let total = add32 size (get_size h1 (hdrp (next_block h1 bp))) in
    let h2 = set_size h1 (hdrp bp) total in (bp, put h2 (ftrp h2 bp) (pack total 0))

-- Case 3: the block before is free.
unfoldable pub merge_prev : Heap → ℕ → ℕ → ℕ × Heap
merge_prev h bp size =
    let h1 = erase h (prev_block h bp) in
    let total = add32 size (get_size h1 (hdrp (prev_block h1 bp))) in
    let h2 = put h1 (ftrp h1 bp) (pack total 0) in
    let h3 = set_size h2 (hdrp (prev_block h2 bp)) total in (prev_block h3 bp, h3)

-- Case 4: both are free.
unfoldable pub merge_both : Heap → ℕ → ℕ → ℕ × Heap
merge_both h bp size =
    let h1 = erase h (prev_block h bp) in
    let h2 = erase h1 (next_block h1 bp) in
    let total =
      add32 size
        (add32 (get_size h2 (hdrp (prev_block h2 bp))) (get_size h2 (hdrp (next_block h2 bp)))) in
    let h3 = set_size h2 (hdrp (prev_block h2 bp)) total in
    let h4 = put h3 (ftrp h3 (next_block h3 bp)) (pack total 0) in (prev_block h4 bp, h4)

unfoldable pub coalesce : Heap → ℕ → ℕ × Heap
coalesce h bp =
    let prev_alloc = get_tag h (hdrp bp) == 1 in
    let next_alloc = get_alloc h (hdrp (next_block h bp)) == 1 in
    let size = get_size h (hdrp bp) in
    if prev_alloc && next_alloc
    then (bp, h)
    else if prev_alloc && not next_alloc
    then merge_next h bp size
    else if not prev_alloc && next_alloc
    then merge_prev h bp size
    else merge_both h bp size

-- The new block of `size` bytes at `bp`, where the epilogue was, and the new epilogue.
unfoldable pub add_block : Heap → ℕ → ℕ → ℕ × Heap
add_block h bp size =
    let h1 = set_size h (hdrp bp) size in
    let h2 = clr_alloc h1 (hdrp bp) in
    let h3 = put h2 (ftrp h2 bp) (pack size 0) in
    let h4 = put h3 (hdrp (next_block h3 bp)) (pack 0 1) in
    coalesce (record h4 { heap_tail = hdrp (next_block h4 bp) }) bp

unfoldable pub even_bytes : ℕ → ℕ
even_bytes words = if words % 2 == 1 then add32 words 1 * 4 % 2 ^ 32 else words * 4 % 2 ^ 32

unfoldable pub extend_heap : Heap → ℕ → Option ℕ × Heap
extend_heap h words =
    let size = even_bytes words in
    let brk = mem_sbrk h size in
    elim brk.0 [
      | none ↦ (none, brk.1)
      | some bp ↦ (let r = add_block brk.1 bp size in (some r.0, r.1))
    ]

-- One block of the free list against the best one yet.
unfoldable pub better : Heap → ℕ → ℕ → Option ℕ → Option ℕ
better h size cur none = if leb size (block_size h cur) then some cur else none
better h size cur (some temp) =
    if leb size (block_size h cur) && ltb (block_size h cur) (block_size h temp)
    then some cur
    else some temp

-- The `while` loop from `cur`; `none` says that it still runs after that many rounds.
unfoldable pub fit_loop : Heap → ℕ → ℕ → ℕ → Option ℕ → Option (Option ℕ)
fit_loop h size zero cur temp = none
fit_loop h size (suc fuel) cur temp =
    let next = succ h cur in
    let rest = fit_loop h size fuel next (better h size next temp) in
    if next == h.free_head then some temp else rest

unfoldable pub find_fit_at_list : Heap → ℕ → ℕ → Option (Option ℕ × Heap)
find_fit_at_list h fuel size = elim (fit_loop h size fuel h.free_head none) [
  | none ↦ none
  | some none ↦ some (none, h)
  | some (some temp) ↦ some (some temp, erase h temp)
]

-- The rest of a block goes back on the free list; `next` is the rest, `bp` what is allocated.
unfoldable pub release_rest : Heap → ℕ → ℕ → Heap
release_rest h bp next =
    let h1 = set_tag h (hdrp (next_block h bp)) in
    let r = coalesce h1 next in
    let h2 = set_tag r.1 (hdrp r.0) in
    let h3 = clr_alloc h2 (hdrp r.0) in
    let h4 = clr_tag h3 (hdrp (next_block h3 r.0)) in insert_list h4 r.0 h4.free_head

-- The first `asize` bytes are allocated.
unfoldable pub place_low : Heap → ℕ → ℕ → ℕ → ℕ × Heap
place_low h bp asize next_size =
    let h1 = set_size h (hdrp bp) asize in
    let next = next_block h1 bp in
    let h2 = put h1 (hdrp next) (pack next_size 0) in
    let h3 = put h2 (ftrp h2 next) (pack next_size 0) in (bp, release_rest h3 bp next)

-- The last `asize` bytes are allocated.
unfoldable pub place_high : Heap → ℕ → ℕ → ℕ → ℕ × Heap
place_high h next asize next_size =
    let h1 = set_size h (hdrp next) next_size in
    let h2 = put h1 (ftrp h1 next) (pack next_size 0) in
    let bp = next_block h2 next in
    let h3 = set_alloc h2 (hdrp bp) in
    let h4 = set_size h3 (hdrp bp) asize in (bp, release_rest h4 bp next)

unfoldable pub place : Heap → ℕ → ℕ → ℕ × Heap
place h bp asize =
    let size = block_size h bp in
    let h1 = set_alloc h (hdrp bp) in
    let next_size = sub32 size asize in
    let r =
      if not (size == asize) && leb 16 next_size
      then (if ltb asize 96 || ltb next_size 32
          then place_low h1 bp asize next_size
          else place_high h1 bp asize next_size)
      else (bp, h1) in
    (r.0, set_tag r.1 (hdrp (next_block r.1 r.0)))
