-- ===== src/Malloc/Layout/Mark.antt =====
-- prj3/prj3-malloc/mm.c: the allocated bit of a block, with its footer and the tag behind it.
use system_programing.Common.{
  ℕ, ◌+◌, ◌-◌, ◌^◌, ◌≤◌, ◌<◌, ◌≡◌, ◌≢◌, refl, sym, subst, ap, ◌∙◌, arith, ◌⊎◌, inr, List,
}
use system_programing.Malloc.{
  Heap, or3, put, get_size, hdrp, ftrp, next_block, block_size, clr_alloc, clr_tag, set_size,
}
use system_programing.Malloc.Layout.{Block, Head, end, last_used}
use system_programing.Malloc.Layout.Frame.{le-end}
use system_programing.Malloc.Layout.Focus.{first, Focus, Focus-set}

-- The three writes with which `mm_free` marks its block.
abbrev pub marked : Heap → ℕ → Heap
marked h ptr =
    let size = get_size h (hdrp ptr) in
    let h1 = clr_alloc h (hdrp ptr) in
    let h2 = set_size h1 (ftrp h1 ptr) size in clr_tag h2 (hdrp (next_block h2 ptr))

pub hdrp_at : (w : ℕ) → w + 4 < 2 ^ 32 → hdrp (w + 4) ≡ w
unfolding hdrp
hdrp_at w l = omega arith

-- Where the macros lead from a block whose header word has the size `s`.
pub ftrp_at :
    (h : Heap) (w s : ℕ)
    → get_size h w ≡ s
    → 8 ≤ s
    → w + s + 8 ≤ 2 ^ 32
    → ftrp h (w + 4) ≡ w + s - 4
unfolding ftrp block_size hdrp
ftrp_at h w s e a l = let e1 = hdrp_at w (omega arith) in ground arith

pub next_at :
    (h : Heap) (w s : ℕ) → get_size h w ≡ s → w + s + 8 ≤ 2 ^ 32 → next_block h (w + 4) ≡ w + s + 4
unfolding next_block block_size hdrp
next_at h w s e l = let e1 = hdrp_at w (omega arith) in ground arith

pub get_size-put_ne : (h : Heap) (p v q : ℕ) → p ≢ q → get_size (put h p v) q ≡ get_size h q
unfolding put
get_size-put_ne h p v q n = ground arith

pub get_size-set_size_ne :
    (h : Heap) (p v q : ℕ) → p ≢ q → get_size (set_size h p v) q ≡ get_size h q
unfolding put set_size
get_size-set_size_ne h p v q n = ground arith

get_size-clr_alloc : (h : Heap) (w : ℕ) → get_size (clr_alloc h w) w ≡ get_size h w
unfolding put clr_alloc
get_size-clr_alloc h w = ground arith

-- The addresses that it writes to, for the block of `s` bytes whose header is at `w`.
marked_at :
    (h : Heap) (u w s : ℕ)
    → Head h.mem u w (s, 1)
    → 8 ≤ s
    → w + s + 8 ≤ 2 ^ 32
    → marked h (w + 4) ≡ clr_tag (set_size (clr_alloc h w) (w + s - 4) s) (w + s)
marked_at h u w s hd b c =
    let h1 = clr_alloc h w in
    let s1 : get_size h1 w ≡ s = get_size-clr_alloc h w ∙ hd.0 in
    let s2 : get_size (set_size h1 (w + s - 4) s) w ≡ s =
      get_size-set_size_ne h1 (w + s - 4) s w (omega arith) ∙ s1 in
    let e1 = hdrp_at w (omega arith) in
    let e2 = ftrp_at h1 w s s1 b c in
    let e3 = next_at (set_size h1 (w + s - 4) s) w s s2 c in
    let e4 = hdrp_at (w + s) (omega arith) in rw (e1, hd.0, e2, e3, e4) refl

-- `mm_free` marks an allocated block as free.
pub marked-Focus :
    {h : Heap} {pre : List Block} {s : ℕ} {post : List Block} {xs : List ℕ}
    → Focus h pre (s, 1) post xs
    → Focus (marked h (end (first h) pre + 4)) pre (s, 0) post xs
unfolding put clr_alloc set_size clr_tag or3
marked-Focus {h} {pre} {s} {post} {xs} f =
    let w = end (first h) pre in
    let fine = f.fine.1.0 in
    let hd = f.mid.0.0 in
    let l = le-end (w + s) post in
    let m = (clr_tag (set_size (clr_alloc h w) (w + s - 4) s) (w + s)).mem in
    let at =
      marked_at h (last_used 1 pre) w s hd fine.1
        (omega (arith, f.bounds.brk, f.bounds.room, f.bounds.low)) in
    subst (λ g. Focus g pre (s, 0) post xs) (sym at)
      (Focus-set m 0 f (λ q o. ground arith) (ground arith) (inr (ground arith)) (ground arith)
        (omega arith))

pub marked-keeps :
    {h : Heap} {pre : List Block} {s : ℕ} {post : List Block} {xs : List ℕ} (q : ℕ)
    → Focus h pre (s, 1) post xs
    → (q < end (first h) pre) ⊎ (end (first h) pre + s < q)
    → (marked h (end (first h) pre + 4)).mem q ≡ h.mem q
unfolding put clr_alloc set_size clr_tag
marked-keeps {h} {pre} {s} {post} {xs} q f o =
    let w = end (first h) pre in
    let wide = f.fine.1.0.1 in
    let l = le-end (w + s) post in
    let at =
      marked_at h (last_used 1 pre) w s f.mid.0.0 wide
        (omega (arith, f.bounds.brk, f.bounds.room, f.bounds.low)) in
    ap (λ (k : Heap). k.mem q) at ∙ ground arith
