-- ===== src/Malloc/Api.antt =====
-- prj3/prj3-malloc: memlib.c's `mem_init`, and mm.c's `mm_init`, `mm_malloc`, `mm_free` and
-- `mm_realloc`.
use system_programing.Common.{
  ℕ, zero, suc, ◌+◌, ◌-◌, ◌*◌, ◌/◌, ◌^◌, ◌&&◌, Option, none, some, ltb, leb, ◌==◌, if◌then◌else◌,
  ◌>>=◌,
}
use system_programing.Common.Int.{ℤ, pos, negsuc}
use Prim.Native.Nat.{max}
use system_programing.Malloc.{
  Heap, add32, sub32, get, put, pack, get_size, get_alloc, get_tag, set_alloc, clr_alloc, set_tag,
  clr_tag, set_size, hdrp, block_size, ftrp, next_block, prev_block, insert_list, erase, mem_sbrk,
}
use system_programing.Malloc.Blocks.{coalesce, extend_heap, find_fit_at_list, place}

-- `base` is what the `malloc` of the C library gives; what its memory holds is not known.
unfoldable pub mem_init : ℕ → (ℕ → ℕ) → Heap
mem_init base mem = record {
  mem = mem;
  mem_start_brk = base;
  mem_brk = base;
  mem_max_addr = base + 20 * 2 ^ 20;
  heap_head = 0;
  heap_tail = 0;
  free_head = 0;
}

-- The padding, the head of the free list, the prologue and the epilogue.
unfoldable pub lay_out : Heap → ℕ → Heap
lay_out h head =
    let h1 = put (record h { free_head = add32 head 4; heap_head = add32 head 16 }) head 0 in
    let h2 = put h1 (add32 head 4) 0 in
    let h3 = put h2 (add32 head 8) 0 in
    let h4 = put h3 (add32 head 12) (pack 8 1) in
    let h5 = put h4 (add32 head 16) (pack 8 1) in put h5 (add32 head 20) (pack 0 3)

unfoldable pub first_free : Heap → Heap
first_free h =
    let h1 = set_tag h (hdrp (next_block h h.heap_head)) in
    insert_list h1 (next_block h1 h1.heap_head) h1.free_head

unfoldable pub mm_init : Heap → ℤ × Heap
mm_init h =
    let brk = mem_sbrk h 24 in
    elim brk.0 [
      | none ↦ (negsuc 0, record brk.1 { heap_head = 2 ^ 32 - 1 })
      | some head ↦
          (let r = extend_heap (lay_out brk.1 head) (4096 / 4) in
            elim r.0 [ none ↦ (negsuc 0, r.1) | some bp ↦ (pos 0, first_free r.1) ])
    ]

-- ALIGN on a 32-bit `size_t`
abbrev pub align : ℕ → ℕ
align size = add32 size 7 / 8 * 8

-- Room for the header and the payload, at least two double words.
unfoldable pub alloc_size : ℕ → ℕ
alloc_size size =
    max 16 (if leb 4 (sub32 (align size) size) then align size else add32 (align size) 8)

-- A new block at the end; a free last block counts towards the size. As in mm.c, the size is read
-- one word before the epilogue header.
unfoldable pub grow : Heap → ℕ → Option ℕ × Heap
grow h asize =
    let extendsize = max asize 4096 in
    let missing =
      if get_tag h h.heap_tail == 0
      then sub32 extendsize (get_size h (sub32 h.heap_tail 4))
      else extendsize in
    let r = extend_heap h (missing / 4) in
    elim r.0 [ none ↦ (none, r.1) | some bp ↦ (let b = place r.1 bp asize in (some b.0, b.1)) ]

-- The outer `none`: the search of the free list still runs after `fuel` rounds. The inner one is
-- the null pointer.
unfoldable pub mm_malloc : Heap → ℕ → ℕ → Option (Option ℕ × Heap)
mm_malloc h fuel size =
    if size == 0
    then some (none, h)
    else find_fit_at_list h fuel (alloc_size size) >>= λ r. some (elim r.0 [
      | none ↦ grow r.1 (alloc_size size)
      | some bp ↦ (let b = place r.1 bp (alloc_size size) in (some b.0, b.1))
    ])

unfoldable pub mm_free : Heap → ℕ → Heap
mm_free h ptr =
    let size = get_size h (hdrp ptr) in
    let h1 = clr_alloc h (hdrp ptr) in
    let h2 = set_size h1 (ftrp h1 ptr) size in
    let h3 = clr_tag h2 (hdrp (next_block h2 ptr)) in
    let r = coalesce h3 ptr in
    let h4 = clr_tag r.1 (hdrp (next_block r.1 r.0)) in insert_list h4 r.0 h4.free_head

-- `memcpy` of whole words. Where the two overlap, C leaves the result open; here the words are
-- copied from the lowest up.
unfoldable pub memcpy : Heap → ℕ → ℕ → ℕ → Heap
memcpy h new old zero = h
memcpy h new old (suc words) = memcpy (put h new (get h old)) (add32 new 4) (add32 old 4) words

-- The block grows at the end of the heap; `have` bytes of `asize` are there.
unfoldable pub grow_last : Heap → ℕ → ℕ → ℕ → Option ℕ × Heap
grow_last h ptr asize missing =
    let r = extend_heap h (missing / 4) in
    elim r.0 [
      | none ↦ (none, r.1)
      | some bp ↦
          (let h1 = set_size r.1 (hdrp ptr) asize in
            let h2 = set_size h1 (ftrp h1 ptr) asize in
            (some ptr, set_tag h2 (hdrp (next_block h2 ptr))))
    ]

-- The tail of the merged block is split off.
unfoldable pub split : Heap → ℕ → ℕ → ℕ → Heap
split h new asize sum_size =
    let h1 = set_size h (hdrp new) asize in
    let h2 = set_size h1 (ftrp h1 new) asize in
    let h3 = set_alloc h2 (hdrp new) in
    let h4 = put h3 (hdrp (next_block h3 new)) (pack (sub32 sum_size asize) 0) in
    let h5 = put h4 (ftrp h4 (next_block h4 new)) (pack (sub32 sum_size asize) 0) in
    let h6 = set_tag h5 (hdrp (next_block h5 new)) in
    let r = coalesce h6 (next_block h6 new) in
    let h7 = insert_list r.1 r.0 r.1.free_head in clr_tag h7 (hdrp (next_block h7 r.0))

unfoldable pub take_all : Heap → ℕ → ℕ → Heap
take_all h new sum_size =
    let h1 = set_size h (hdrp new) sum_size in
    let h2 = set_size h1 (ftrp h1 new) sum_size in
    let h3 = set_alloc h2 (hdrp new) in set_tag h3 (hdrp (next_block h3 new))

-- The block and its free neighbours hold `asize` bytes.
unfoldable pub merge : Heap → ℕ → ℕ → ℕ → ℕ → ℕ × Heap
merge h ptr asize sum_size copy_size =
    let h1 = clr_alloc h (hdrp ptr) in
    let h2 = clr_tag h1 (hdrp (next_block h1 ptr)) in
    let r = coalesce h2 ptr in
    let h3 = memcpy r.1 r.0 ptr (copy_size / 4) in
    (
      r.0,
      if leb (add32 asize 16) sum_size
          then split h3 r.0 asize sum_size
          else take_all h3 r.0 sum_size,
    )

unfoldable pub move : Heap → ℕ → ℕ → ℕ → ℕ → Option (Option ℕ × Heap)
move h fuel ptr size copy_size = mm_malloc h fuel size >>= λ r. some (elim r.0 [
  | none ↦ (none, r.1)
  | some new ↦ (some new, mm_free (memcpy r.1 new ptr (add32 copy_size 4 / 4)) ptr)
])

-- The block is not the last one: by its neighbours.
unfoldable pub relocate : Heap → ℕ → ℕ → ℕ → ℕ → Option (Option ℕ × Heap)
relocate h fuel ptr size copy_size =
    let asize = alloc_size size in
    let next = next_block h ptr in
    let next_size = if get_alloc h (hdrp next) == 0 then block_size h next else 0 in
    let prev_size =
      if get_alloc h (hdrp (prev_block h ptr)) == 0 then block_size h (prev_block h ptr) else 0 in
    let sum_size = add32 (add32 (block_size h ptr) prev_size) next_size in
    if (next_size == 0 && hdrp (next_block h next) == h.heap_tail)
      && ltb (add32 next_size (block_size h ptr)) asize
    then some (
        grow_last (erase h next) ptr asize
          (sub32 (sub32 asize (block_size (erase h next) ptr)) next_size))
    else if leb asize sum_size
    then (let r = merge h ptr asize sum_size copy_size in some (some r.0, r.1))
    else move h fuel ptr size copy_size

-- The first read is of the header of `ptr`, before the test for null: there is no such word at
-- the null pointer, and this is `none` too.
unfoldable pub mm_realloc : Heap → ℕ → Option ℕ → ℕ → Option (Option ℕ × Heap)
mm_realloc h fuel none size = none
mm_realloc h fuel (some ptr) size =
    let copy_size = sub32 (block_size h ptr) 8 in
    let tagged = set_tag h (hdrp (next_block h ptr)) in
    if size == 0
    then some (none, mm_free h ptr)
    else if leb (alloc_size size) (block_size h ptr)
    then some (some ptr, h)
    else if add32 (ftrp h ptr) 4 == h.heap_tail
    then some
        (grow_last tagged ptr (alloc_size size) (sub32 (alloc_size size) (block_size tagged ptr)))
    else relocate h fuel ptr size copy_size
