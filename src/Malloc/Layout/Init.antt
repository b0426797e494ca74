-- ===== src/Malloc/Layout/Init.antt =====
-- prj3/prj3-malloc: `mm_init` makes a heap of one free block.
use system_programing.Common.{
  ℕ, ◌+◌, ◌-◌, ◌*◌, ◌/◌, ◌%◌, ◌^◌, ◌≤◌, ◌<◌, ◌≡◌, refl, sym, subst, ap, ◌∙◌, arith, inl, [], ◌∷◌,
  Option, none, some,
}
use system_programing.Common.Int.{ℤ, pos, negsuc}
use system_programing.Malloc.{
  Heap, or3, pack, put, get_size, hdrp, next_block, get_tag, set_tag, insert_list, mem_sbrk,
}
use system_programing.Malloc.Blocks.{extend_heap}
use system_programing.Malloc.Api.{mem_init, lay_out, first_free, mm_init}
use system_programing.Malloc.Layout.Focus.{first, IsHeap}
use system_programing.Malloc.Layout.Mark.{hdrp_at, next_at}
use system_programing.Malloc.Layout.HighAt.{set_tag_same}
use system_programing.Malloc.Layout.Insert.{insert-IsHeap}
use system_programing.Malloc.Layout.NewBlock.{extended}
use system_programing.Malloc.Layout.Extend.{extend_heap-first, extend_heap-tail}

abbrev begun : ℕ → (ℕ → ℕ) → Heap
begun base mem = lay_out (mem_sbrk (mem_init base mem) 24).1 base

-- The heap of no blocks: its epilogue is the header behind the prologue. `heap_tail` is set later.
empty-IsHeap :
    (base : ℕ) (mem : ℕ → ℕ)
    → base % 8 ≡ 0
    → base + 20 * 2 ^ 20 + 8 ≤ 2 ^ 32
    → IsHeap (record (begun base mem) { heap_tail = base + 20 }) [] []
unfolding lay_out mem_sbrk mem_init put pack or3
empty-IsHeap base mem a b = record {
  tags = ground arith;
  fine = tt;
  spread = tt;
  ring = ((ground arith, ground arith), ((omega arith, omega arith), inl refl));
  bag = λ x. refl;
  bounds = record {
    tail = ground arith;
    brk = ground arith;
    room = ground arith;
    low = ground arith;
    aligned = ground arith;
  };
}

-- Behind the extension: the block goes on the list; its tag is set already.
first_free_at :
    (h : Heap)
    → h.heap_head ≡ h.free_head + 12
    → h.free_head + 100 < 2 ^ 32
    → get_size h (h.free_head + 8) ≡ 8
    → get_tag h (first h) ≡ 1
    → first_free h ≡ insert_list h (first h + 4) h.free_head
unfolding first_free
first_free_at h e b s t =
    let p = h.free_head + 8 in
    let head : h.heap_head ≡ p + 4 = omega arith in
    let next : next_block h h.heap_head ≡ p + 8 + 4 =
      ap (next_block h) head ∙ next_at h p 8 s (omega arith) in
    let here : hdrp (next_block h h.heap_head) ≡ first h =
      ap hdrp next ∙ hdrp_at (p + 8) (omega arith) ∙ omega arith in
    let same : set_tag h (hdrp (next_block h h.heap_head)) ≡ h =
      ap (set_tag h) here ∙ set_tag_same h (first h) t in
    ap (λ k. insert_list k (next_block k k.heap_head) k.free_head) same
    ∙ ap (λ o. insert_list h o h.free_head) (next ∙ omega arith)

-- `mm_init` behind its two calls.
abbrev given : Option ℕ × Heap → ℤ × Heap
given (none, k) = (negsuc 0, k)
given (some bp, k) = (pos 0, first_free k)

given_at :
    (o : Option ℕ) (k : Heap)
    → elim o [ none ↦ (negsuc 0, k) | some bp ↦ (pos 0, first_free k) ] ≡ given (o, k)
given_at none k = refl
given_at (some bp) k = refl

init_brk :
    (base : ℕ) (mem : ℕ → ℕ)
    → base + 20 * 2 ^ 20 + 8 ≤ 2 ^ 32
    → mem_sbrk (mem_init base mem) 24
      ≡ (some base, record (mem_init base mem) { mem_brk = base + 24 })
unfolding mem_sbrk mem_init
init_brk base mem b = ground arith

abbrev begin_with : Option ℕ × Heap → ℤ × Heap
begin_with (none, k) = (negsuc 0, record k { heap_head = 2 ^ 32 - 1 })
begin_with (some head, k) = given (extend_heap (lay_out k head) (4096 / 4))

begin_at :
    (o : Option ℕ) (k : Heap)
    → elim o [
      | none ↦ (negsuc 0, record k { heap_head = 2 ^ 32 - 1 })
      | some head ↦
          (let r = extend_heap (lay_out k head) (4096 / 4) in
            elim r.0 [ none ↦ (negsuc 0, r.1) | some bp ↦ (pos 0, first_free r.1) ])
    ]
      ≡ begin_with (o, k)
begin_at none k = refl
begin_at (some head) k = let r = extend_heap (lay_out k head) (4096 / 4) in given_at r.0 r.1

mm_init_at : (h : Heap) → mm_init h ≡ begin_with (mem_sbrk h 24)
unfolding mm_init
mm_init_at h = begin_at (mem_sbrk h 24).0 (mem_sbrk h 24).1

begun_words :
    (base : ℕ) (mem : ℕ → ℕ)
    → base + 20 * 2 ^ 20 + 8 ≤ 2 ^ 32
    → ((begun base mem).heap_head ≡ base + 16)
      × ((begun base mem).free_head ≡ base + 4)
      × (get_size (begun base mem) (base + 12) ≡ 8)
      × ((begun base mem).mem_brk ≡ base + 24)
      × ((begun base mem).mem_max_addr ≡ base + 20 * 2 ^ 20)
unfolding lay_out mem_sbrk mem_init put pack or3
begun_words base mem b = (ground arith, ground arith, ground arith, ground arith, ground arith)

-- `mm_init` on the fresh simulated memory, whose start is a multiple of 8 and whose 20 MB lie within
-- the address space, returns 0 and a heap of one free block of 4096 bytes, which is on the free list.
pub mm_init-IsHeap :
    (base : ℕ) (mem : ℕ → ℕ)
    → base % 8 ≡ 0
    → base + 20 * 2 ^ 20 + 8 ≤ 2 ^ 32
    → (h : Heap) × ((mm_init (mem_init base mem) ≡ (pos 0, h))
        × IsHeap h ((4096, 0) ∷ []) ((base + 24) ∷ []))
mm_init-IsHeap base mem a b =
    let k = begun base mem in
    let k' = record k { heap_tail = base + 20 } in
    let w = begun_words base mem b in
    let empty = empty-IsHeap base mem a b in
    let room : k.mem_brk + 4096 ≤ k.mem_max_addr = omega arith in
    let (at, f, same) = extend_heap-first 4096 empty refl (omega arith) (omega arith) room in
    let x = extended k' [] 4096 in
    let size : get_size x (k.free_head + 8) ≡ 8 =
      ap (λ o. o / 8 * 8) (same (k.free_head + 8) (omega arith))
      ∙ ap (get_size k) (omega arith)
      ∙ w.2 in
    let free = first_free_at x (omega arith) (omega arith) size f.mid.0.0.2 in
    let whole =
      mm_init_at (mem_init base mem)
      ∙ ap begin_with (init_brk base mem b)
      ∙ ap given (
          ap (λ (o : Option ℕ × Heap). extend_heap (lay_out o.1 base) (4096 / 4))
            (sym (init_brk base mem b))
          ∙ extend_heap-tail k (base + 20) 4096 refl (omega arith) room (omega arith)
          ∙ at) in
    (
      first_free x,
      (
        whole,
        subst (λ o. IsHeap (first_free x) ((4096, 0) ∷ []) (o ∷ [])) (omega arith)
            (subst (λ o. IsHeap o ((4096, 0) ∷ []) ((first k + 4) ∷ [])) (sym free)
              (insert-IsHeap f (tt, omega arith, tt) (omega arith))),
      ),
    )
