-- ===== src/Malloc/Layout/Alloc.antt =====
-- prj3/prj3-malloc/mm.c: `mm_malloc` on the list of blocks.
use system_programing.Common.{
  ℕ, ◌+◌, ◌^◌, ◌≤◌, ◌<◌, ◌≡◌, refl, sym, subst, ap, ◌∙◌, arith, inl, inr, List, ◌∷◌, ◌++◌, ◌==◌,
  false, Option, none, some, Option-cases, length,
}
use system_programing.Malloc.{Heap, get_size, block_size, erase}
use system_programing.Malloc.Blocks.{find_fit_at_list, place}
use system_programing.Malloc.Api.{alloc_size, grow, mm_malloc}
use system_programing.Malloc.Size.{alloc_size-fits}
use system_programing.Malloc.Fit.{Found, find_fit_at_list-Found, find_fit_at_list-ended}
use system_programing.Malloc.FreeList.{with_mem}
use system_programing.Malloc.Layout.{Body, Block, end, used}
use system_programing.Malloc.Layout.Bag.{used-append}
use system_programing.Malloc.Layout.Focus.{first, IsHeap}
use system_programing.Malloc.Layout.Frame.{Body-append}
use system_programing.Malloc.Layout.Clear.{Outer}
use system_programing.Malloc.Layout.Mark.{hdrp_at}
use system_programing.Malloc.Layout.Coalesced.{room_at}
use system_programing.Malloc.Layout.Place.{place-Placed}
use system_programing.Malloc.Layout.Take.{listed_Off}
use system_programing.Malloc.Layout.Grow.{Allocated, found, Placed-Allocated, grow-Allocated}

-- `mm_malloc` behind the search.
abbrev after_find : ℕ → Option ℕ × Heap → Option ℕ × Heap
after_find a (none, k) = grow k a
after_find a (some bp, k) = found (place k bp a)

after_find_at :
    (a : ℕ) (o : Option ℕ) (k : Heap)
    → elim o [ none ↦ grow k a | some bp ↦ (let b = place k bp a in (some b.0, b.1)) ]
      ≡ after_find a (o, k)
after_find_at a none k = refl
after_find_at a (some bp) k = refl

mm_malloc_at :
    (h : Heap) (fuel size : ℕ) (r : Option ℕ × Heap)
    → 0 < size
    → find_fit_at_list h fuel (alloc_size size) ≡ some r
    → mm_malloc h fuel size ≡ some (after_find (alloc_size size) r)
unfolding mm_malloc
mm_malloc_at h fuel size r l e =
    let zero_size : (size == 0) ≡ false = ground arith in
    rw (zero_size, e) (ap some (after_find_at (alloc_size size) r.0 r.1))

Outer-free :
    (h : Heap) (pre : List Block) (s : ℕ) (post : List Block) (q : ℕ)
    → Body q (first h) (pre ++ (s, 0) ∷ post)
    → Outer q h pre (end (first h) pre + s) post
Outer-free h pre s post q b = elim (Body-append q (first h) pre ((s, 0) ∷ post) b) [
  | inl i ↦ inl i
  | inr i ↦ elim i [ inl j ↦ absurd (omega (arith, j.0)) | inr j ↦ inr j ]
]

Found-Allocated :
    {h : Heap} {bs : List Block} {xs : List ℕ} (size : ℕ) (r : Option ℕ × Heap)
    → IsHeap h bs xs
    → 0 < size
    → h.mem_max_addr + size + 4112 ≤ 2 ^ 32
    → Found h (alloc_size size) xs r
    → Allocated h bs size (after_find (alloc_size size) r)
unfolding block_size
Found-Allocated {h} {bs} {xs} size (none, k) i l u f =
    let fits = alloc_size-fits size l (omega arith) in
    subst (λ o. Allocated h bs size (grow o (alloc_size size))) (sym f.0)
      (grow-Allocated (alloc_size size) size i (fits.0, fits.1) (omega arith) fits.2 f.1)
Found-Allocated {h} {bs} {xs} size (some t, k) i l u f =
    let fits = alloc_size-fits size l (omega arith) in
    let (ys, (zs, (e, ring))) = f.2 in
    let (pre, (s, (post, (split, at, (m, (erased, focus, tight, big, wide, kept)))))) =
      listed_Off ys t zs i e in
    let w = end (first h) pre in
    let size_at : block_size h t ≡ s =
      ap (block_size h) (sym at)
      ∙ ap (get_size h) (hdrp_at w (omega (arith, room_at focus)))
      ∙ big in
    let p = place-Placed (alloc_size size) focus tight (fits.0, fits.1) (omega (arith, f.0.1)) in
    let used_at = ap (used (first h)) split ∙ used-append (first h) pre ((s, 0) ∷ post) in
    let same : k ≡ with_mem h m = f.1 ∙ ap (erase h) (sym at) ∙ erased in
    let here : found (place (with_mem h m) (w + 4) (alloc_size size))
        ≡ found (place k t (alloc_size size)) =
      ap (λ o. found (place o (w + 4) (alloc_size size))) (sym same)
      ∙ ap (λ o. found (place k o (alloc_size size))) at in
    subst (Allocated h bs size) here (
      Placed-Allocated h.mem bs size p used_at fits.2 (λ q b.
        let o = Outer-free h pre s post q (subst (λ l. Body q (first h) l) split b) in
        p.keeps q o ∙ kept q o))

-- On a heap of blocks, with more rounds than it has free blocks, a request for 1 or more bytes, of
-- a size that mem_sbrk can add to any address of the heap without a wrap, ends. It returns the null
-- pointer and the same heap; or the address of a block that is now allocated besides the others, a
-- multiple of 8 with room for the bytes, and a heap of blocks again, with the same words in the
-- others.
pub mm_malloc-Allocated :
    (h : Heap) (fuel size : ℕ) (bs : List Block) (xs : List ℕ)
    → IsHeap h bs xs
    → length xs < fuel
    → 0 < size
    → h.mem_max_addr + size + 4112 ≤ 2 ^ 32
    → (r : Option ℕ × Heap) × ((mm_malloc h fuel size ≡ some r) × Allocated h bs size r)
mm_malloc-Allocated h fuel size bs xs i l low high =
    let (r, (e, f)) = find_fit_at_list-Found h fuel (alloc_size size) xs i.ring l in
    (
      after_find (alloc_size size) r,
      (mm_malloc_at h fuel size r low e, Found-Allocated size r i low high f),
    )

abbrev from_some : Option ℕ × Heap → Option (Option ℕ × Heap) → Option ℕ × Heap
from_some d none = d
from_some d (some r) = r

some_same : {a b : Option ℕ × Heap} → some a ≡ some b → a ≡ b
some_same {a} {b} e = ap (from_some a) e

-- The same for a call that ends, whatever its fuel.
pub mm_malloc-ended :
    (h : Heap) (fuel size : ℕ) (bs : List Block) (xs : List ℕ) (r : Option ℕ × Heap)
    → IsHeap h bs xs
    → 0 < size
    → h.mem_max_addr + size + 4112 ≤ 2 ^ 32
    → mm_malloc h fuel size ≡ some r
    → Allocated h bs size r
unfolding mm_malloc
mm_malloc-ended h fuel size bs xs r i low high e =
    elim (Option-cases (find_fit_at_list h fuel (alloc_size size))) [
      | inl running ↦ ground arith
      | inr (x, done) ↦
          let at : some (after_find (alloc_size size) x) ≡ some r =
            sym (mm_malloc_at h fuel size x low done) ∙ e in
          subst (Allocated h bs size) (some_same at) (
            Found-Allocated size x i low high
              (find_fit_at_list-ended h fuel (alloc_size size) xs x i.ring done))
    ]
