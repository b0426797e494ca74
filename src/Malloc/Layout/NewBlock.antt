-- ===== src/Malloc/Layout/NewBlock.antt =====
-- prj3/prj3-malloc/mm.c: the new block that `extend_heap` writes behind all others.
use system_programing.Common.{
  ℕ, ◌+◌, ◌-◌, ◌/◌, ◌%◌, ◌^◌, ◌≤◌, ◌<◌, ◌≡◌, refl, arith, ◌⊎◌, inl, inr, List, [], ◌∷◌,
}
use system_programing.Malloc.{Heap, or3, pack, put, get_size, clr_alloc, set_size}
use system_programing.Malloc.Blocks.{coalesce, add_block}
use system_programing.Malloc.FreeList.{with_mem}
use system_programing.Malloc.Layout.{Block, Head, Foot, Seg, Tags, end, last_used}
use system_programing.Malloc.Layout.Frame.{le-end, Seg-below, count_free-between}
use system_programing.Malloc.Layout.Bag.{All-of_count}
use system_programing.Malloc.Layout.Focus.{first, Focus, IsHeap, Ring-kept}
use system_programing.Malloc.Layout.Mark.{hdrp_at, ftrp_at, next_at}

pub Tags-Seg :
    (m : ℕ → ℕ) (u w : ℕ) (bs : List Block)
    → Tags m u w bs
    → Seg m u w bs × Head m (last_used u bs) (end w bs) (0, 1)
Tags-Seg m u w [] t = (tt, t)
Tags-Seg m u w (b ∷ bs) t = let (s, e) = Tags-Seg m b.1 (w + b.0) bs t.1 in ((t.0, s), e)

-- The heap with a break and an epilogue that are `size` bytes further on.
abbrev pub longer : Heap → ℕ → Heap
longer h size = record h { mem_brk = h.mem_brk + size; heap_tail = h.heap_tail + size }

abbrev pub raised : Heap → ℕ → Heap
raised h size = record h { mem_brk = h.mem_brk + size }

-- The words of the new block and the new epilogue, whose header is at `e + size`.
abbrev pub new_block : Heap → ℕ → ℕ → Heap
new_block h e size =
    put (put (clr_alloc (set_size h e size) e) (e + size - 4) (pack size 0)) (e + size) (pack 0 1)

new_sizes :
    (h : Heap) (e size : ℕ)
    → size % 8 ≡ 0
    → 8 ≤ size
    → (get_size (clr_alloc (set_size h e size) e) e ≡ size)
      × (get_size (put (clr_alloc (set_size h e size) e) (e + size - 4) (pack size 0)) e ≡ size)
      × (get_size (new_block h e size) e ≡ size)
unfolding put set_size clr_alloc or3 pack
new_sizes h e size m l = (ground arith, ground arith, ground arith)

pub add_block_at :
    (h : Heap) (e size : ℕ)
    → size % 8 ≡ 0
    → 8 ≤ size
    → e + size + 8 ≤ 2 ^ 32
    → add_block h (e + 4) size
      ≡ coalesce (record (new_block h e size) { heap_tail = e + size }) (e + 4)
unfolding add_block
add_block_at h e size m l b =
    let k = new_sizes h e size m l in
    let h2 = clr_alloc (set_size h e size) e in
    let h3 = put h2 (e + size - 4) (pack size 0) in
    let h4 = new_block h e size in
    let e1 = hdrp_at e (omega arith) in
    let e2 = ftrp_at h2 e size k.0 l b in
    let e3 = next_at h3 e size k.1 b in
    let e4 = hdrp_at (e + size) (omega arith) in
    let e5 = next_at h4 e size k.2 b in rw (e1, e2, e3, e4, e5, e4) refl

new_words :
    (h : Heap) (e size u : ℕ)
    → size % 8 ≡ 0
    → 8 ≤ size
    → h.mem e / 2 % 2 ≡ u
    → Head (new_block h e size).mem u e (size, 0)
      × Foot (new_block h e size).mem e (size, 0)
      × Head (new_block h e size).mem 0 (e + size) (0, 1)
unfolding put set_size clr_alloc or3 pack
new_words h e size u m l t = (ground arith, inr (ground arith), ground arith)

pub new_same :
    (h : Heap) (e size q : ℕ)
    → 8 ≤ size
    → (q < e) ⊎ (e + size < q)
    → (new_block h e size).mem q ≡ h.mem q
unfolding put set_size clr_alloc
new_same h e size q l o = ground arith

-- The new block is in the focus, behind all others.
pub new_Focus :
    {h : Heap} {bs : List Block} {xs : List ℕ} (size : ℕ)
    → IsHeap h bs xs
    → size % 8 ≡ 0
    → 8 ≤ size
    → h.mem_brk + size ≤ h.mem_max_addr
    → Focus
        (with_mem (longer h size) (new_block (raised h size) (end (first h) bs) size).mem)
        bs
        (size, 0)
        []
        xs
new_Focus {h} {bs} {xs} size i s l room =
    let e = end (first h) bs in
    let m = (new_block (raised h size) e size).mem in
    let (seg, tail) = Tags-Seg h.mem 1 (first h) bs i.tags in
    let words = new_words (raised h size) e size (last_used 1 bs) s l tail.2 in
    let same : (q : ℕ) → (q < e) ⊎ (e + size < q) → m q ≡ h.mem q =
      λ q o. new_same (raised h size) e size q l o in
    let low = le-end (first h) bs in
    record {
      seg = Seg-below h.mem m 1 (first h) bs (λ q o. same q (inl o)) i.fine seg;
      mid = ((words.0, words.1), words.2);
      fine = (i.fine, ((s, l, omega arith), tt));
      ring =
          Ring-kept h m e (e + size) xs same (omega arith)
            (All-of_count _ xs (λ x c.
              let r = count_free-between x (first h) bs i.fine (omega (arith, i.bag x)) in
              inl (omega arith)))
            i.ring;
      bag = λ x. omega (arith, i.bag x);
      bounds = record {
        tail = omega (arith, i.bounds.tail);
        brk = omega (arith, i.bounds.brk);
        room = room;
        low = i.bounds.low;
        aligned = i.bounds.aligned;
      };
    }

-- What the heap is before `coalesce` runs in `extend_heap`.
abbrev pub extended : Heap → List Block → ℕ → Heap
extended h bs size =
    with_mem (longer h size) (new_block (raised h size) (end (first h) bs) size).mem

pub extended-keeps :
    (h : Heap) (bs : List Block) (size q : ℕ)
    → 8 ≤ size
    → q < end (first h) bs
    → (extended h bs size).mem q ≡ h.mem q
extended-keeps h bs size q l o = new_same (raised h size) (end (first h) bs) size q l (inl o)
