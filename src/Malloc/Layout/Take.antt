-- ===== src/Malloc/Layout/Take.antt =====
-- prj3/prj3-malloc/mm.c: a free block that the search takes off the list, on the list of blocks.
use system_programing.Common.{ℕ, ◌+◌, ◌-◌, ◌≤◌, ◌≡◌, sym, subst, ap, ◌∙◌, arith, List, ◌∷◌, ◌++◌}
use system_programing.Malloc.{Heap, get_size, erase}
use system_programing.Malloc.FreeList.{with_mem}
use system_programing.Malloc.Layout.{Block, end, count_free, count}
use system_programing.Malloc.Layout.Frame.{Tags-split}
use system_programing.Malloc.Layout.Bag.{
  count-append, count_free-append, Fine-parts, Spread-parts, end-append, free_at,
}
use system_programing.Malloc.Layout.Focus.{first, Bounds, Focus, IsHeap}
use system_programing.Malloc.Layout.Clear.{Outer, Gap}
use system_programing.Malloc.Layout.Gap.{erase-Gap}
use system_programing.Malloc.Layout.Placed.{Tight}

-- What ERASE leaves around a free block.
abbrev pub Off : Heap → List Block → ℕ → List Block → List ℕ → Type 0
Off h pre s post xs =
    (m : ℕ → ℕ) × ((erase h (end (first h) pre + 4) ≡ with_mem h m)
      × Focus (with_mem h m) pre (s, 0) post xs
      × Tight pre post
      × (get_size h (end (first h) pre) ≡ s)
      × (16 ≤ s)
      × ((q : ℕ) → Outer q h pre (end (first h) pre + s) post → m q ≡ h.mem q))

off :
    {h : Heap} (pre : List Block) (s : ℕ) (post : List Block) (ys zs : List ℕ)
    → IsHeap h (pre ++ (s, 0) ∷ post) (ys ++ (end (first h) pre + 4) ∷ zs)
    → Off h pre s post (ys ++ zs)
off {h} pre s post ys zs i =
    let w = end (first h) pre in
    let (seg, mid) = Tags-split h.mem 1 (first h) pre ((s, 0) ∷ post) i.tags in
    let (fine, fine') = Fine-parts pre ((s, 0) ∷ post) i.fine in
    let (spread, last) = Spread-parts 1 pre ((s, 0) ∷ post) i.spread in
    let gap : Gap h pre 0 (w + s) post = record {
      seg = seg;
      mid = mid.1;
      fine = (fine, fine'.1);
      wide = omega (arith, fine'.0);
      bounds = subst (Bounds h) (end-append (first h) pre ((s, 0) ∷ post)) i.bounds;
    } in
    let bag : (y : ℕ)
        → count y (ys ++ zs) ≡ count_free y (first h) pre + count_free y (w + s) post =
      λ y. omega (
        arith,
        i.bag y,
        count-append y ys ((w + 4) ∷ zs),
        count-append y ys zs,
        count_free-append y (first h) pre ((s, 0) ∷ post),
      ) in
    let (m, (same, (g, listed), k, kept)) = erase-Gap ys (w + 4) zs i.ring gap bag in
    let k0 : m w ≡ h.mem w = k w (omega arith) (omega arith) in
    let k1 : m (w + s - 4) ≡ h.mem (w + s - 4) =
      k (w + s - 4) (omega (arith, fine'.0)) (omega arith) in
    let hd = mid.0.0 in
    let foot = mid.0.1 in
    (
      m,
      (
        same,
        record {
          seg = g.seg;
          mid = ((ground (arith, k0, hd), ground (arith, k1, foot)), g.mid);
          fine = (fine, ((fine'.0.0, omega (arith, fine'.0), fine'.0.2), fine'.1));
          ring = listed.0;
          bag = listed.1;
          bounds = g.bounds;
        },
        (spread, omega (arith, last.0), last.1),
        hd.0,
        fine'.0.1,
        kept,
      ),
    )

-- A pointer of the free list is that of a free block.
pub listed_Off :
    {h : Heap} {bs : List Block} {xs : List ℕ} (ys : List ℕ) (t : ℕ) (zs : List ℕ)
    → IsHeap h bs xs
    → xs ≡ ys ++ t ∷ zs
    → (pre : List Block) × ((s : ℕ) × ((post : List Block) × ((bs ≡ pre ++ (s, 0) ∷ post)
            × (end (first h) pre + 4 ≡ t)
            × Off h pre s post (ys ++ zs))))
listed_Off {h} {bs} {xs} ys t zs i e =
    let c : count t xs ≡ count t (ys ++ t ∷ zs) = ap (count t) e in
    let c' = count-append t ys (t ∷ zs) in
    let (pre, (s, (post, (split, at)))) = free_at t (first h) bs (ground (arith, i.bag t)) in
    let e' : xs ≡ ys ++ (end (first h) pre + 4) ∷ zs = e ∙ ap (λ o. ys ++ o ∷ zs) (sym at) in
    (
      pre,
      (
        s,
        (
          post,
          (
            split,
            at,
            off pre s post ys zs
                (subst (IsHeap h (pre ++ (s, 0) ∷ post)) e' (subst (λ l. IsHeap h l xs) split i)),
          ),
        ),
      ),
    )
