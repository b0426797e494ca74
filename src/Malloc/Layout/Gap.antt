-- ===== src/Malloc/Layout/Gap.antt =====
-- prj3/prj3-malloc/mm.c: the blocks and the free list around a part of the heap that is in change.
use system_programing.Common.{
  ℕ, ◌+◌, ◌%◌, ◌≤◌, ◌<◌, ◌≡◌, ◌≢◌, refl, sym, subst, ap, arith, ◌⊎◌, inl, inr, List, [], ◌∷◌, ◌++◌,
  ◌==◌, if◌then◌else◌, All,
}
use system_programing.Malloc.{Heap, add32, succ, pred, erase, put}
use system_programing.Malloc.FreeList.{Ring, Links, with_mem}
use system_programing.Malloc.FreeList.Erase.{erase-Ring, erase-same}
use system_programing.Malloc.Layout.{Block, Head, Foot, end, last_used, count_free, count}
use system_programing.Malloc.Layout.Frame.{
  count_free-between, le-end, Tags-Aside, Seg-Aside, Tags-retag, Seg-below,
}
use system_programing.Malloc.Layout.Bag.{count-append, All-of_count, split_at}
use system_programing.Malloc.Layout.Focus.{
  first, Bounds, Bounds-mem, Focus, Retagged, SameOutside, Ring-kept,
}
use system_programing.Malloc.Layout.Clear.{
  Gap, Listed, Outer, Clear, Clear-low, either, Clear-links,
}

-- Two words that are no header or footer change.
Gap-aside :
    {h : Heap} {pre : List Block} {v e : ℕ} {post : List Block} (m : ℕ → ℕ) (p q : ℕ)
    → Gap h pre v e post
    → ((r : ℕ) → r ≢ p → r ≢ q → m r ≡ h.mem r)
    → Clear p h pre e post
    → Clear q h pre e post
    → Gap (with_mem h m) pre v e post
Gap-aside {h} {pre} {v} {e} {post} m p q g k a b = record {
  seg = Seg-Aside h.mem m p q 1 (first h) pre k a.0 b.0 g.seg;
  mid = Tags-Aside h.mem m p q v e post k a.1 b.1 g.mid;
  fine = g.fine;
  wide = g.wide;
  bounds = Bounds-mem h m (end e post) g.bounds;
}

-- The neighbours on the list.
pred_listed :
    (h : Heap) (p : ℕ) (xs : List ℕ) (x : ℕ) (ys : List ℕ) (q : ℕ)
    → Links h p (xs ++ x ∷ ys) q
    → (pred h x ≡ p) ⊎ (0 < count (pred h x) xs)
pred_listed h p [] x ys q l = inl l.0.1
pred_listed h p (w ∷ xs) x ys q l = elim (pred_listed h w xs x ys q l.1) [
  | inl e ↦ inr (ground arith)
  | inr c ↦ inr (omega arith)
]

succ_listed :
    (h : Heap) (p : ℕ) (xs : List ℕ) (x : ℕ) (ys : List ℕ) (q : ℕ)
    → Links h p (xs ++ x ∷ ys) q
    → (succ h x ≡ q) ⊎ (0 < count (succ h x) ys)
succ_listed h p [] x [] q l = inl l.1.0
succ_listed h p [] x (y ∷ ys) q l = let e = l.1.0.0 in inr (ground arith)
succ_listed h p (w ∷ xs) x ys q l = succ_listed h w xs x ys q l.1

erase_with : (h : Heap) (x : ℕ) → erase h x ≡ with_mem h (erase h x).mem
unfolding erase put
erase_with h x = refl

short : (h : Heap) (e y : ℕ) → Bounds h e → y ≤ e → add32 y 4 ≡ y + 4
short h e y b l = omega (arith, b.tail, b.brk, b.room, b.low)

pred-Clear :
    {h : Heap} {pre : List Block} {v e : ℕ} {post : List Block} (xs : List ℕ) (x : ℕ) (ys : List ℕ)
    → Ring h (xs ++ x ∷ ys)
    → Gap h pre v e post
    → ((y : ℕ) → count y (xs ++ ys) ≡ count_free y (first h) pre + count_free y e post)
    → Clear (add32 (pred h x) 4) h pre e post
pred-Clear {h} {pre} {v} {e} {post} xs x ys r g bag =
    let p = pred h x in
    let l1 = le-end (first h) pre in
    let l2 = le-end e post in
    elim (pred_listed h h.free_head xs x ys h.free_head r.0) [
      | inl same ↦
          let s = short h (end e post) p g.bounds (omega (arith, same, g.wide)) in
          subst (λ a. Clear a h pre e post) (sym s) (Clear-low (p + 4) g (omega (arith, same)))
      | inr c ↦
          let k = Clear-links p g (omega (arith, bag p, count-append p xs ys)) in
          let s = short h (end e post) p g.bounds (omega (arith, k.2)) in
          subst (λ a. Clear a h pre e post) (sym s) k.1
    ]

succ-Clear :
    {h : Heap} {pre : List Block} {v e : ℕ} {post : List Block} (xs : List ℕ) (x : ℕ) (ys : List ℕ)
    → Ring h (xs ++ x ∷ ys)
    → Gap h pre v e post
    → ((y : ℕ) → count y (xs ++ ys) ≡ count_free y (first h) pre + count_free y e post)
    → Clear (succ h x) h pre e post
succ-Clear {h} xs x ys r g bag =
    let q = succ h x in
    elim (succ_listed h h.free_head xs x ys h.free_head r.0) [
      | inl same ↦ Clear-low q g (omega (arith, same))
      | inr c ↦ (Clear-links q g (omega (arith, bag q, count-append q xs ys))).0
    ]

-- ERASE of a block of the list keeps all others where the list without it has just these.
pub erase-Gap :
    {h : Heap} {pre : List Block} {v e : ℕ} {post : List Block} (xs : List ℕ) (x : ℕ) (ys : List ℕ)
    → Ring h (xs ++ x ∷ ys)
    → Gap h pre v e post
    → ((y : ℕ) → count y (xs ++ ys) ≡ count_free y (first h) pre + count_free y e post)
    → (m : ℕ → ℕ) × ((erase h x ≡ with_mem h m)
        × (Gap (with_mem h m) pre v e post × Listed (with_mem h m) pre e post (xs ++ ys))
        × ((q : ℕ) → end (first h) pre ≤ q → q ≤ e → m q ≡ h.mem q)
        × ((q : ℕ) → Outer q h pre e post → m q ≡ h.mem q))
erase-Gap {h} {pre} {v} {e} {post} xs x ys r g bag =
    let m = (erase h x).mem in
    let back = erase_with h x in
    let a = pred-Clear xs x ys r g bag in
    let b = succ-Clear xs x ys r g bag in
    let same = λ (q : ℕ). erase-same h xs x ys q r in
    (
      m,
      (
        back,
        (
          Gap-aside m (add32 (pred h x) 4) (succ h x) g same a b,
          (subst (λ k. Ring k (xs ++ ys)) back (erase-Ring h xs x ys r), bag),
        ),
        λ q l u. same q (omega (arith, a.2)) (omega (arith, b.2)),
        λ q o. same q (a.3 q o) (b.3 q o),
      ),
    )

-- The gap becomes a block.
pub Gap-fill :
    {h : Heap} {pre : List Block} {v : ℕ} {post : List Block} {xs : List ℕ} (m : ℕ → ℕ) (s a : ℕ)
    → Gap h pre v (end (first h) pre + s) post
    → Listed h pre (end (first h) pre + s) post xs
    → SameOutside h.mem m (end (first h) pre) (end (first h) pre + s)
    → Head m (last_used 1 pre) (end (first h) pre) (s, a)
    → Foot m (end (first h) pre) (s, a)
    → Retagged h.mem m (end (first h) pre + s) a
    → (s % 8 ≡ 0) × (a < 2)
    → Focus (with_mem h m) pre (s, a) post xs
Gap-fill {h} {pre} {v} {post} {xs} m s a g listed k head foot tag two =
    let w = end (first h) pre in
    let e = w + s in
    let l = le-end (first h) pre in
    let apart : All (λ x. (x + 8 ≤ w) ⊎ (e < x)) xs = All-of_count _ xs (λ x c.
      elim (either x (count_free x (first h) pre) (count_free x e post)
        (omega (arith, listed.1 x))) [
          | inl p ↦ let r = count_free-between x (first h) pre g.fine.0 p in inl (omega arith)
          | inr p ↦ let r = count_free-between x e post g.fine.1 p in inr (omega arith)
        ]) in
    record {
      seg = Seg-below h.mem m 1 (first h) pre (λ q p. k q (inl p)) g.fine.0 g.seg;
      mid = ((head, foot), Tags-retag h.mem m v a e post (λ q p. k q (inr p)) tag g.fine.1 g.mid);
      fine = (g.fine.0, ((two.0, omega (arith, g.wide), two.1), g.fine.1));
      ring = Ring-kept h m w e xs k (omega arith) apart listed.0;
      bag = listed.1;
      bounds = Bounds-mem h m (end e post) g.bounds;
    }

-- A block that the free blocks around the gap lack is taken out of the list.
pub take_out :
    (xs : List ℕ) (x : ℕ) (c : ℕ → ℕ)
    → ((y : ℕ) → count y xs ≡ (if x == y then 1 else 0) + c y)
    → (ys : List ℕ) × ((zs : List ℕ) × ((xs ≡ ys ++ x ∷ zs) × ((y : ℕ) → count y (ys ++ zs) ≡ c y)))
take_out xs x c b =
    let (ys, (zs, e)) = split_at x xs (ground (arith, b x)) in
    (
      ys,
      (
        zs,
        (
          e,
          λ y.
              let f : count y xs ≡ count y (ys ++ x ∷ zs) = ap (count y) e in
              omega (arith, b y, f, count-append y ys (x ∷ zs), count-append y ys zs),
        ),
      ),
    )
