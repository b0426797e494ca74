-- ===== src/Malloc/Layout/Extend.antt =====
-- prj3/prj3-malloc/mm.c: `extend_heap` on the list of blocks.
use system_programing.Common.{
  ℕ, ◌+◌, ◌/◌, ◌%◌, ◌^◌, ◌≤◌, ◌<◌, ◌≡◌, refl, sym, ap, ◌∙◌, arith, ◌⊎◌, inl, inr, List, [], ◌||◌,
  Bool, true, false, leb, ltb, Option, none, some, Bool-cases,
}
use system_programing.Malloc.{
  add32, Heap, put, hdrp, ftrp, next_block, block_size, clr_alloc, set_size, mem_sbrk,
}
use system_programing.Malloc.Blocks.{coalesce, add_block, even_bytes, extend_heap}
use system_programing.Malloc.Layout.{Block, end}
use system_programing.Malloc.Layout.Bag.{last_free}
use system_programing.Malloc.Layout.Focus.{first, Focus, IsHeap}
use system_programing.Malloc.Layout.Coalesced.{Coalesced, coalesce_at}
use system_programing.Malloc.Layout.Coalesce.{coalesce-Coalesced}
use system_programing.Malloc.Layout.NewBlock.{
  raised, new_block, add_block_at, new_same, new_Focus, extended,
}

even_bytes_at : (size : ℕ) → size % 8 ≡ 0 → size < 2 ^ 32 → even_bytes (size / 4) ≡ size
unfolding even_bytes
even_bytes_at size s b = ground arith

abbrev no_room : Heap → ℕ → Bool
no_room h size = leb (2 ^ 31) size || ltb h.mem_max_addr (add32 h.mem_brk size)

abbrev found : ℕ × Heap → Option ℕ × Heap
found r = (some r.0, r.1)

-- `extend_heap` behind its call of `mem_sbrk`.
abbrev given : ℕ → Option ℕ × Heap → Option ℕ × Heap
given size (none, k) = (none, k)
given size (some bp, k) = found (add_block k bp size)

given_at :
    (size : ℕ) (o : Option ℕ) (k : Heap)
    → elim o [ none ↦ (none, k) | some bp ↦ (let r = add_block k bp size in (some r.0, r.1)) ]
      ≡ given size (o, k)
given_at size none k = refl
given_at size (some bp) k = refl

extend_heap_at :
    (h : Heap) (words : ℕ)
    → extend_heap h words ≡ given (even_bytes words) (mem_sbrk h (even_bytes words))
unfolding extend_heap
extend_heap_at h words =
    given_at (even_bytes words) (mem_sbrk h (even_bytes words)).0 (mem_sbrk h (even_bytes words)).1

mem_sbrk-none : (h : Heap) (size : ℕ) → no_room h size ≡ true → mem_sbrk h size ≡ (none, h)
unfolding mem_sbrk
mem_sbrk-none h size c = ground arith

mem_sbrk-some :
    (h : Heap) (size : ℕ)
    → no_room h size ≡ false
    → h.mem_brk + size < 2 ^ 32
    → mem_sbrk h size ≡ (some h.mem_brk, raised h size)
unfolding mem_sbrk
mem_sbrk-some h size c b =
    let exact : add32 h.mem_brk size ≡ h.mem_brk + size = omega arith in
    let free : no_room h size ≡ false = c in rw (free, exact) refl

extend_heap-none :
    (h : Heap) (words size : ℕ)
    → even_bytes words ≡ size
    → no_room h size ≡ true
    → extend_heap h words ≡ (none, h)
extend_heap-none h words size e c =
    extend_heap_at h words
    ∙ ap (λ o. given o (mem_sbrk h o)) e
    ∙ ap (given size) (mem_sbrk-none h size c)

extend_heap-some :
    (h : Heap) (words size : ℕ)
    → even_bytes words ≡ size
    → no_room h size ≡ false
    → h.mem_brk + size < 2 ^ 32
    → extend_heap h words ≡ found (add_block (raised h size) h.mem_brk size)
extend_heap-some h words size e c b =
    extend_heap_at h words
    ∙ ap (λ o. given o (mem_sbrk h o)) e
    ∙ ap (given size) (mem_sbrk-some h size c b)

extended_at :
    (h : Heap) (bs : List Block) (size : ℕ)
    → h.heap_tail ≡ end (first h) bs
    → record (new_block (raised h size) (end (first h) bs) size) {
      heap_tail = end (first h) bs + size;
    }
      ≡ extended h bs size
unfolding put set_size clr_alloc
extended_at h bs size t =
    ap (λ (o : ℕ). record (extended h bs size) { heap_tail = o + size }) (sym t)

-- `extend_heap` by a multiple of 8 bytes, where no address wraps: no room, and nothing changes; or there is a free block of
-- that many bytes, or of more together with a free block before it.
pub extend_heap-Coalesced :
    {h : Heap} {bs : List Block} {xs : List ℕ} (size : ℕ)
    → IsHeap h bs xs
    → size % 8 ≡ 0
    → 8 ≤ size
    → 16 ≤ last_free 0 bs + size
    → h.mem_max_addr + size < 2 ^ 32
    → (extend_heap h (size / 4) ≡ (none, h))
      ⊎ ((r : ℕ × Heap) × ((extend_heap h (size / 4) ≡ (some r.0, r.1))
            × Coalesced (extended h bs size) bs size [] r))
extend_heap-Coalesced {h} {bs} {xs} size i s l wide b =
    let e = end (first h) bs in
    let even = even_bytes_at size s (omega arith) in
    elim (Bool-cases (no_room h size)) [
      | inl full ↦ inl (extend_heap-none h (size / 4) size even full)
      | inr free ↦
          let below : h.mem_brk + size < 2 ^ 32 = omega (arith, i.bounds.room) in
          let room : h.mem_brk + size ≤ h.mem_max_addr = ground arith in
          let f = new_Focus size i s l room in
          let brk : h.mem_brk ≡ e + 4 = i.bounds.brk in
          let at =
            ap (λ o. add_block (raised h size) o size) brk
            ∙ add_block_at (raised h size) e size s l (omega (arith, i.bounds.low))
            ∙ ap (λ o. coalesce o (e + 4)) (extended_at h bs size i.bounds.tail) in
          inr (
            coalesce (extended h bs size) (e + 4),
            (
              extend_heap-some h (size / 4) size even free below ∙ ap found at,
              coalesce-Coalesced f i.spread tt wide,
            ),
          )
    ]

-- The first block.
pub extend_heap-first :
    {h : Heap} {xs : List ℕ} (size : ℕ)
    → IsHeap h [] xs
    → size % 8 ≡ 0
    → 8 ≤ size
    → size < 2 ^ 31
    → h.mem_brk + size ≤ h.mem_max_addr
    → (extend_heap h (size / 4) ≡ (some (first h + 4), extended h [] size))
      × Focus (extended h [] size) [] (size, 0) [] xs
      × ((q : ℕ) → q < first h → (extended h [] size).mem q ≡ h.mem q)
extend_heap-first {h} {xs} size i s l b room =
    let e = first h in
    let f = new_Focus size i s l room in
    let even = even_bytes_at size s (omega arith) in
    let below : h.mem_brk + size < 2 ^ 32 = omega (arith, room, i.bounds.low) in
    let free : no_room h size ≡ false = ground arith in
    let at =
      ap (λ o. add_block (raised h size) o size) i.bounds.brk
      ∙ add_block_at (raised h size) e size s l (omega (arith, i.bounds.brk, i.bounds.low))
      ∙ ap (λ o. coalesce o (e + 4)) (extended_at h [] size i.bounds.tail)
      ∙ coalesce_at (extended h [] size) e size 1 1 f.mid.0.0.0 f.mid.0.0.2 f.mid.1.1
          (omega (arith, i.bounds.brk, i.bounds.low)) in
    (
      extend_heap-some h (size / 4) size even free below ∙ ap found at,
      f,
      λ q o. new_same (raised h size) e size q l (inl o),
    )

add_block-tail :
    (h : Heap) (tail bp size : ℕ)
    → add_block h bp size ≡ add_block (record h { heap_tail = tail }) bp size
unfolding add_block put set_size clr_alloc hdrp ftrp next_block block_size
add_block-tail h tail bp size = refl

-- Where there is room, the epilogue that the heap remembers does not matter.
pub extend_heap-tail :
    (h : Heap) (tail size : ℕ)
    → size % 8 ≡ 0
    → size < 2 ^ 31
    → h.mem_brk + size ≤ h.mem_max_addr
    → h.mem_brk + size < 2 ^ 32
    → extend_heap h (size / 4) ≡ extend_heap (record h { heap_tail = tail }) (size / 4)
extend_heap-tail h tail size s b room below =
    let even = even_bytes_at size s (omega arith) in
    let free : no_room h size ≡ false = ground arith in
    extend_heap-some h (size / 4) size even free below
    ∙ ap found (add_block-tail (raised h size) tail h.mem_brk size)
    ∙ sym (extend_heap-some (record h { heap_tail = tail }) (size / 4) size even free below)
