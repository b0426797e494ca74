-- ===== src/Malloc/Layout/Placed.antt =====
-- prj3/prj3-malloc/mm.c: what `place` leaves, and a whole block that is allocated.
use system_programing.Common.{
  ℕ, ◌+◌, ◌%◌, ◌^◌, ◌≤◌, ◌≡◌, refl, subst, ap, ◌∙◌, arith, inl, List, [], ◌∷◌, ◌++◌,
}
use system_programing.Malloc.{
  Heap, or3, put, get_size, hdrp, next_block, set_alloc, set_tag, insert_list,
}
use system_programing.Malloc.FreeList.{with_mem}
use system_programing.Malloc.Layout.{Block, Tags, Fine, Spread, end, last_used, used}
use system_programing.Malloc.Layout.Frame.{Body-around, le-end, Tags-head, Tags-split}
use system_programing.Malloc.Layout.Bag.{end-append}
use system_programing.Malloc.Layout.Clear.{Outer}
use system_programing.Malloc.Layout.Focus.{first, Bounds, Focus, Focus-set, IsHeap}
use system_programing.Malloc.Layout.Mark.{hdrp_at, next_at}
use system_programing.Malloc.Layout.Insert.{insert_with}
use system_programing.Malloc.Layout.Split.{Focus-close}
use system_programing.Malloc.Layout.HighAt.{set_tag_same}

-- A free block with allocated neighbours.
abbrev pub Tight : List Block → List Block → Type 0
Tight pre post = Spread 1 pre × (1 ≤ last_used 1 pre) × Spread 0 post

-- The heap after a placement of `a` bytes between `pre` and `post`: the block at the returned pointer
-- has that size at least, and else the allocated blocks are the same.
pub record Placed (h : Heap) (pre : List Block) (s : ℕ) (post : List Block) (a : ℕ) (r : ℕ × Heap)
    : Type 0 where
  pub before : List Block
  pub size : ℕ
  pub behind : List Block
  pub list : List ℕ
  pub mem : ℕ → ℕ
  pub at : r ≡ (end (first h) before + 4, with_mem h mem)
  pub heap : IsHeap (with_mem h mem) (before ++ (size, 1) ∷ behind) list
  pub enough : a ≤ size
  pub same_before : used (first h) before ≡ used (first h) pre
  pub keeps : (q : ℕ) → Outer q h pre (end (first h) pre + s) post → mem q ≡ h.mem q
  pub same_behind : used (end (first h) before + size) behind ≡ used (end (first h) pre + s) post

-- The last step of `place`.
abbrev pub tagged : ℕ × Heap → ℕ × Heap
tagged r = (r.0, set_tag r.1 (hdrp (next_block r.1 r.0)))

next_header :
    (h : Heap) (w s : ℕ)
    → get_size h w ≡ s
    → w + s + 8 ≤ 2 ^ 32
    → hdrp (next_block h (w + 4)) ≡ w + s
next_header h w s e l = ap hdrp (next_at h w s e l) ∙ hdrp_at (w + s) (omega arith)

-- Behind a split the tag that `place` sets last is set.
tagged-same :
    (h : Heap) (pre : List Block) (s : ℕ) (post : List Block) (xs : List ℕ)
    → IsHeap h (pre ++ (s, 1) ∷ post) xs
    → tagged (end (first h) pre + 4, h) ≡ (end (first h) pre + 4, h)
tagged-same h pre s post xs i =
    let w = end (first h) pre in
    let (seg, mid) = Tags-split h.mem 1 (first h) pre ((s, 1) ∷ post) i.tags in
    let tag = Tags-head h.mem 1 (w + s) post mid.1 in
    let b = subst (Bounds h) (end-append (first h) pre ((s, 1) ∷ post)) i.bounds in
    let l = le-end (w + s) post in
    let e = next_header h w s mid.0.0.0 (omega (arith, b.brk, b.room, b.low)) in
    ap (λ k. (w + 4, k)) (ap (set_tag h) e ∙ set_tag_same h (w + s) tag)

pub tagged-Placed :
    {h : Heap} {pre : List Block} {s : ℕ} {post : List Block} {a : ℕ} {r : ℕ × Heap}
    → Placed h pre s post a r
    → Placed h pre s post a (tagged r)
tagged-Placed {h} {pre} {s} {post} {a} {r} p = record {
  before = p.before;
  size = p.size;
  behind = p.behind;
  list = p.list;
  mem = p.mem;
  heap = p.heap;
  enough = p.enough;
  same_before = p.same_before;
  keeps = p.keeps;
  same_behind = p.same_behind;
  at = ap tagged p.at ∙ tagged-same (with_mem h p.mem) p.before p.size p.behind p.list p.heap;
}

pub after_used : (post : List Block) → Spread 0 post → Spread 1 post
after_used [] a = tt
after_used (b ∷ post) a = (omega arith, a.1)

pub behind_used :
    (m : ℕ → ℕ) (v e : ℕ) (post : List Block)
    → Tags m v e post
    → Fine post
    → Spread 0 post
    → m e % 2 ≡ 1
behind_used m v e [] t f a = t.1
behind_used m v e (b ∷ post) t f a = omega (arith, t.0.0.1, f.0, a.0)

-- The whole block is allocated.
pub whole-Placed :
    {h : Heap} {pre : List Block} {s : ℕ} {post : List Block} {xs : List ℕ} (a : ℕ)
    → Focus h pre (s, 0) post xs
    → Tight pre post
    → a ≤ s
    → 16 ≤ s
    → Placed h pre s post a (tagged (end (first h) pre + 4, set_alloc h (end (first h) pre)))
unfolding put set_tag set_alloc or3
whole-Placed {h} {pre} {s} {post} {xs} a f tight le wide =
    let w = end (first h) pre in
    let hd = f.mid.0.0 in
    let foot = f.mid.0.1 in
    let l = le-end (w + s) post in
    let h1 = set_alloc h w in
    let m = (set_tag h1 (w + s)).mem in
    let e =
      next_header h1 w s (ground arith)
        (omega (arith, f.bounds.brk, f.bounds.room, f.bounds.low)) in
    let g : Focus (with_mem h m) pre (s, 1) post xs =
      Focus-set m 1 f (λ q o. ground arith) (ground arith) (inl refl) (ground arith)
        (omega arith) in
    record {
      before = pre;
      size = s;
      behind = post;
      list = xs;
      mem = m;
      at = ap (λ k. (w + 4, set_tag h1 k)) e;
      heap = Focus-close g tight.0 (after_used post tight.2) wide;
      enough = le;
      same_before = refl;
      keeps = λ q o. let out = Body-around q (first h) (w + s) pre post o in ground arith;
      same_behind = refl;
    }

abbrev with_rest : ℕ → ℕ → Heap → ℕ × Heap
with_rest ptr rest k = (ptr, insert_list k rest k.free_head)

-- The free rest goes on the list.
pub listed_again :
    (h k : Heap) (m : ℕ → ℕ) (p q ptr : ℕ)
    → k ≡ with_mem h m
    → p ≡ q
    → with_rest ptr p k ≡ (ptr, with_mem h (insert_list (with_mem h m) q h.free_head).mem)
listed_again h k m p q ptr a b =
    ap (with_rest ptr p) a
    ∙ ap (λ o. with_rest ptr o (with_mem h m)) b
    ∙ ap (λ (o : Heap). (ptr, o)) (insert_with (with_mem h m) q)
