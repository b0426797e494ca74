-- ===== src/Malloc/Layout/Free.antt =====
-- prj3/prj3-malloc/mm.c: `mm_free` on the list of blocks.
use system_programing.Common.{
  ℕ, ◌+◌, ◌≤◌, ◌≡◌, refl, sym, subst, ap, ◌∙◌, arith, inr, List, ◌∷◌, ◌++◌,
}
use system_programing.Malloc.{
  Heap, hdrp, next_block, clr_tag, clr_alloc, set_size, insert_list, connect, put,
}
use system_programing.Malloc.Blocks.{coalesce}
use system_programing.Malloc.Api.{mm_free}
use system_programing.Malloc.FreeList.{with_mem}
use system_programing.Malloc.Layout.{Block, Spread, end, last_used, used}
use system_programing.Malloc.Layout.Frame.{Body-around, le-end, Tags-head, Tags-split}
use system_programing.Malloc.Layout.Bag.{
  count_free-append, Fine-parts, Spread-parts, end-append, used-append, last_free,
}
use system_programing.Malloc.Layout.Clear.{Outer}
use system_programing.Malloc.Layout.Focus.{first, Bounds, Focus, IsHeap, Focus-set}
use system_programing.Malloc.Layout.Mark.{marked-keeps, marked, marked-Focus, hdrp_at, next_at}
use system_programing.Malloc.Layout.Coalesced.{Coalesced}
use system_programing.Malloc.Layout.Coalesce.{coalesce-Coalesced}
use system_programing.Malloc.Layout.Insert.{insert-keeps, insert-IsHeap}

-- The heap around one of its allocated blocks.
pub Focus-used :
    {h : Heap} {xs : List ℕ} (pre : List Block) (s : ℕ) (post : List Block)
    → IsHeap h (pre ++ (s, 1) ∷ post) xs
    → Focus h pre (s, 1) post xs
Focus-used {h} {xs} pre s post i =
    let (seg, mid) = Tags-split h.mem 1 (first h) pre ((s, 1) ∷ post) i.tags in
    record {
      seg = seg;
      mid = mid;
      fine =
          let (a, b) = Fine-parts pre ((s, 1) ∷ post) i.fine in
          (a, ((b.0.0, omega arith, b.0.2), b.1));
      ring = i.ring;
      bag = λ x. omega (arith, i.bag x, count_free-append x (first h) pre ((s, 1) ∷ post));
      bounds = subst (Bounds h) (end-append (first h) pre ((s, 1) ∷ post)) i.bounds;
    }

-- The last steps of `mm_free`.
abbrev finished : ℕ × Heap → Heap
finished r = let h4 = clr_tag r.1 (hdrp (next_block r.1 r.0)) in insert_list h4 r.0 h4.free_head

mm_free_at : (h : Heap) (ptr : ℕ) → mm_free h ptr ≡ finished (coalesce (marked h ptr) ptr)
unfolding mm_free
mm_free_at h ptr = refl

finished-IsHeap :
    {h : Heap} {pre : List Block} {s : ℕ} {post : List Block} {xs : List ℕ}
    → Focus h pre (s, 0) post xs
    → Spread 1 pre × (1 ≤ last_used 1 pre) × Spread 0 post
    → 16 ≤ s
    → IsHeap
        (finished (end (first h) pre + 4, h))
        (pre ++ (s, 0) ∷ post)
        ((end (first h) pre + 4) ∷ xs)
      × ((q : ℕ)
          → Outer q h pre (end (first h) pre + s) post
          → (finished (end (first h) pre + 4, h)).mem q ≡ h.mem q)
unfolding put clr_tag
finished-IsHeap {h} {pre} {s} {post} {xs} f tight wide =
    let w = end (first h) pre in
    let hd = f.mid.0.0 in
    let foot = f.mid.0.1 in
    let tag = Tags-head h.mem 0 (w + s) post f.mid.1 in
    let l = le-end (w + s) post in
    let m = (clr_tag h (w + s)).mem in
    let e1 : hdrp (next_block h (w + 4)) ≡ w + s =
      ap hdrp (next_at h w s hd.0 (omega (arith, f.bounds.brk, f.bounds.room, f.bounds.low)))
      ∙ hdrp_at (w + s) (omega (arith, f.bounds.brk, f.bounds.room, f.bounds.low)) in
    let g : Focus (with_mem h m) pre (s, 0) post xs =
      Focus-set m 0 f (λ q o. ground arith) (ground arith) (inr (ground arith)) (ground arith)
        (omega arith) in
    subst
      (λ a.
        IsHeap (insert_list (clr_tag h a) (w + 4) h.free_head) (pre ++ (s, 0) ∷ post) ((w + 4) ∷ xs)
        × ((q : ℕ)
            → Outer q h pre (w + s) post
            → (insert_list (clr_tag h a) (w + 4) h.free_head).mem q ≡ h.mem q))
      (sym e1)
      (
        insert-IsHeap g tight wide,
        λ q o.
            let out = Body-around q (first h) (w + s) pre post o in
            insert-keeps q g wide o ∙ ground arith,
      )

-- What a heap is after `mm_free`.
abbrev pub Freed : Heap → Heap → List Block → ℕ → List Block → Type 0
Freed h h' pre s post =
    (bs : List Block) × ((xs : List ℕ) × (IsHeap h' bs xs
        × (used (first h) bs ≡ used (first h) pre ++ used (end (first h) pre + s) post)
        × (h'.free_head ≡ h.free_head)
        × ((q : ℕ) → Outer q h pre (end (first h) pre + s) post → h'.mem q ≡ h.mem q)))

finished_head : (r : ℕ × Heap) → (finished r).free_head ≡ r.1.free_head
unfolding insert_list connect put clr_tag
finished_head r = refl

Coalesced-Freed :
    {h : Heap} {pre : List Block} {s : ℕ} {post : List Block} {r : ℕ × Heap}
    → Coalesced h pre s post r
    → Freed h (finished r) pre s post
Coalesced-Freed {h} {pre} {s} {post} {r} c = (
  c.before ++ (c.size, 0) ∷ c.behind,
  (
    (end (first h) c.before + 4) ∷ c.list,
    (
      subst
          (λ k.
            IsHeap (finished k) (c.before ++ (c.size, 0) ∷ c.behind)
              ((end (first h) c.before + 4) ∷ c.list))
          (sym c.at) (finished-IsHeap c.focus c.tight c.wide).0,
      used-append (first h) c.before ((c.size, 0) ∷ c.behind) ∙ c.same_used,
      finished_head r ∙ ap (λ o. o.1.free_head) c.at,
      λ q o.
          ap (λ k. (finished k).mem q) c.at
          ∙ (finished-IsHeap c.focus c.tight c.wide).1 q (c.outer q o)
          ∙ c.keeps q o,
    ),
  ),
)

-- A heap of blocks stays one when any of its allocated blocks is freed: its allocated blocks are then
-- the others, with the same words, no two free blocks are neighbours, and the free list has each free block once.
pub mm_free-IsHeap :
    (h : Heap) (pre : List Block) (s : ℕ) (post : List Block) (xs : List ℕ)
    → IsHeap h (pre ++ (s, 1) ∷ post) xs
    → Freed h (mm_free h (end (first h) pre + 4)) pre s post
unfolding put clr_alloc set_size clr_tag
mm_free-IsHeap h pre s post xs i =
    let w = end (first h) pre in
    let f = marked-Focus (Focus-used pre s post i) in
    let (a, b) = Spread-parts 1 pre ((s, 1) ∷ post) i.spread in
    let wide : 16 ≤ last_free 0 pre + s =
      omega (arith, (Fine-parts pre ((s, 1) ∷ post) i.fine).1) in
    let (bs, (ys, (j, same, head, keeps))) = Coalesced-Freed (coalesce-Coalesced f a b.1 wide) in
    let g = Focus-used pre s post i in
    subst (λ k. Freed h k pre s post) (sym (mm_free_at h (w + 4)))
      (
        bs,
        (
          ys,
          (
            j,
            same,
            head,
            λ q o. keeps q o ∙ marked-keeps q g (Body-around q (first h) (w + s) pre post o),
          ),
        ),
      )
