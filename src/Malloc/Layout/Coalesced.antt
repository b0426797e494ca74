-- ===== src/Malloc/Layout/Coalesced.antt =====
-- prj3/prj3-malloc/mm.c: what `coalesce` leaves of the list of blocks.
use system_programing.Common.{
  ℕ, ◌+◌, ◌^◌, ◌≤◌, ◌≡◌, refl, subst, arith, inl, inr, List, [], ◌∷◌, ◌++◌, ◌==◌, if◌then◌else◌,
  not, ◌&&◌,
}
use system_programing.Malloc.{Heap, get_size, get_alloc, get_tag}
use system_programing.Malloc.Blocks.{merge_next, merge_prev, merge_both, coalesce}
use system_programing.Malloc.FreeList.{with_mem}
use system_programing.Malloc.Layout.{Body, Block, Spread, end, last_used, used}
use system_programing.Malloc.Layout.Frame.{Body-append, le-end}
use system_programing.Malloc.Layout.Bag.{last_free}
use system_programing.Malloc.Layout.Focus.{first, Focus}
use system_programing.Malloc.Layout.Mark.{hdrp_at, next_at}
use system_programing.Malloc.Layout.Clear.{Outer}

-- The four cases by the two bits.
abbrev pub by_bits : Heap → ℕ → ℕ → ℕ → ℕ → ℕ × Heap
by_bits h bp size tag alloc =
    let prev_alloc = tag == 1 in
    let next_alloc = alloc == 1 in
    if prev_alloc && next_alloc
    then (bp, h)
    else if prev_alloc && not next_alloc
    then merge_next h bp size
    else if not prev_alloc && next_alloc
    then merge_prev h bp size
    else merge_both h bp size

pub coalesce_at :
    (h : Heap) (w s tag alloc : ℕ)
    → get_size h w ≡ s
    → get_tag h w ≡ tag
    → get_alloc h (w + s) ≡ alloc
    → w + s + 8 ≤ 2 ^ 32
    → coalesce h (w + 4) ≡ by_bits h (w + 4) s tag alloc
unfolding coalesce
coalesce_at h w s tag alloc a b c l =
    let e1 = hdrp_at w (omega arith) in
    let e2 = next_at h w s a l in
    let e3 = hdrp_at (w + s) (omega arith) in rw (e1, e2, e3, a, b, c) refl

-- What `coalesce` makes of a free block of `s` bytes: where it starts and ends, that its neighbours
-- are allocated, that the allocated blocks are the same, and how far it reaches back.
pub record Coalesced (h : Heap) (pre : List Block) (s : ℕ) (post : List Block) (r : ℕ × Heap)
    : Type 0 where
  pub before : List Block
  pub size : ℕ
  pub behind : List Block
  pub list : List ℕ
  pub mem : ℕ → ℕ
  pub at : r ≡ (end (first h) before + 4, with_mem h mem)
  pub focus : Focus (with_mem h mem) before (size, 0) behind list
  pub tight : Spread 1 before × (1 ≤ last_used 1 before) × Spread 0 behind
  pub same_used :
      used (first h) before ++ used (end (first h) before + size) behind
      ≡ used (first h) pre ++ used (end (first h) pre + s) post
  pub wide : 16 ≤ size
  pub outer :
      (q : ℕ)
      → Outer q h pre (end (first h) pre + s) post
      → Outer q h before (end (first h) before + size) behind
  pub keeps : (q : ℕ) → Outer q h pre (end (first h) pre + s) post → mem q ≡ h.mem q
  pub reach : last_free 0 pre + s ≤ size

pub room_at :
    {h : Heap} {pre : List Block} {b : Block} {post : List Block} {xs : List ℕ}
    → Focus h pre b post xs
    → end (first h) pre + b.0 + 8 ≤ 2 ^ 32
room_at {h} {pre} {b} {post} f =
    omega (arith, le-end (end (first h) pre + b.0) post, f.bounds.brk, f.bounds.room, f.bounds.low)

-- A free neighbour has no word of an allocated block.
pub Outer-next :
    (h : Heap) (pre : List Block) (s t : ℕ) (post : List Block) (q : ℕ)
    → Outer q h pre (end (first h) pre + s) ((t, 0) ∷ post)
    → Outer q h pre (end (first h) pre + (s + t)) post
Outer-next h pre s t post q (inl i) = inl i
Outer-next h pre s t post q (inr (inl i)) = absurd (omega (arith, i.0))
Outer-next h pre s t post q (inr (inr i)) = inr (subst (λ e. Body q e post) (omega arith) i)

pub Outer-prev :
    (h : Heap) (pre : List Block) (t e e' : ℕ) (post : List Block) (q : ℕ)
    → e' ≡ e
    → Outer q h (pre ++ (t, 0) ∷ []) e' post
    → Outer q h pre e post
Outer-prev h pre t e e' post q p (inl i) = elim (Body-append q (first h) pre ((t, 0) ∷ []) i) [
  | inl j ↦ inl j
  | inr j ↦ elim j [ inl k ↦ absurd (omega (arith, k.0)) | inr k ↦ absurd k ]
]
Outer-prev h pre t e e' post q p (inr i) = inr (subst (λ o. Body q o post) p i)
