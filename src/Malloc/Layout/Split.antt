-- ===== src/Malloc/Layout/Split.antt =====
-- prj3/prj3-malloc/mm.c: a free block becomes allocated, as a whole or in part.
use system_programing.Common.{
  ℕ, ◌+◌, ◌%◌, ◌≤◌, ◌≡◌, refl, sym, subst, arith, inl, inr, List, [], ◌∷◌, ◌++◌,
}
use system_programing.Malloc.{Heap}
use system_programing.Malloc.FreeList.{with_mem}
use system_programing.Malloc.Layout.{
  Block, Head, Foot, Tags, Spread, end, last_used, count_free, count,
}
use system_programing.Malloc.Layout.Frame.{le-end, Seg-below, Seg-join, Tags-retag, Tags-join}
use system_programing.Malloc.Layout.Bag.{
  count_free-append, Fine-append, Spread-append, end-append, last_used-append,
}
use system_programing.Malloc.Layout.Focus.{
  first, Bounds, Bounds-mem, Focus, IsHeap, Retagged, SameOutside, Ring-kept, around-Focus,
}

-- With an allocated block in the focus the heap is as it should be.
pub Focus-close :
    {h : Heap} {pre : List Block} {s : ℕ} {post : List Block} {xs : List ℕ}
    → Focus h pre (s, 1) post xs
    → Spread 1 pre
    → Spread 1 post
    → 16 ≤ s
    → IsHeap h (pre ++ (s, 1) ∷ post) xs
Focus-close {h} {pre} {s} {post} {xs} f a b wide = record {
  tags = Tags-join h.mem 1 (first h) pre ((s, 1) ∷ post) f.seg f.mid;
  fine = Fine-append pre ((s, 1) ∷ post) f.fine.0 ((f.fine.1.0.0, wide, f.fine.1.0.2), f.fine.1.1);
  spread = Spread-append 1 pre ((s, 1) ∷ post) a (omega arith, b);
  ring = f.ring;
  bag = λ x. omega (arith, f.bag x, count_free-append x (first h) pre ((s, 1) ∷ post));
  bounds = subst (Bounds h) (sym (end-append (first h) pre ((s, 1) ∷ post))) f.bounds;
}

abbrev pub Sized : ℕ → Type 0
Sized a = (a % 8 ≡ 0) × (16 ≤ a)

-- The first `a` bytes stay free and the other `n` bytes are allocated.
pub split_high :
    {h : Heap} {pre : List Block} {s a n : ℕ} {post : List Block} {xs : List ℕ} (m : ℕ → ℕ)
    → Focus h pre (s, 0) post xs
    → s ≡ a + n
    → Sized a × Sized n
    → SameOutside h.mem m (end (first h) pre) (end (first h) pre + s)
    → Head m (last_used 1 pre) (end (first h) pre) (a, 0)
    → Foot m (end (first h) pre) (a, 0)
    → Head m 0 (end (first h) pre + a) (n, 1)
    → Retagged h.mem m (end (first h) pre + s) 1
    → Focus (with_mem h m) pre (a, 0) ((n, 1) ∷ post) xs
split_high {h} {pre} {s} {a} {n} {post} {xs} m f e sized k head foot head' tag =
    let w = end (first h) pre in
    let l = le-end (first h) pre in
    let p : w + s ≡ w + a + n = omega arith in
    record {
      seg = Seg-below h.mem m 1 (first h) pre (λ q o. k q (inl o)) f.fine.0 f.seg;
      mid = (
        (head, foot),
        (
          (head', inl refl),
          subst (λ o. Tags m 1 o post) p
              (Tags-retag h.mem m 0 1 (w + s) post (λ q o. k q (inr o)) tag f.fine.1.1 f.mid.1),
        ),
      );
      fine = (
        f.fine.0,
        ((sized.0.0, omega arith, omega arith), ((sized.1.0, sized.1.1, omega arith), f.fine.1.1)),
      );
      ring = Ring-kept h m w (w + s) xs k (omega arith) (around-Focus f) f.ring;
      bag = λ x.
          subst (λ o. count x xs ≡ count_free x (first h) pre + (0 + count_free x o post)) p
            (omega (arith, f.bag x));
      bounds = Bounds-mem h m _ (subst (λ o. Bounds h (end o post)) p f.bounds);
    }

-- The first `a` bytes are allocated and the other `n` bytes stay free.
pub split_low :
    {h : Heap} {pre : List Block} {s a n : ℕ} {post : List Block} {xs : List ℕ} (m : ℕ → ℕ)
    → Focus h pre (s, 0) post xs
    → s ≡ a + n
    → Sized a × Sized n
    → SameOutside h.mem m (end (first h) pre) (end (first h) pre + s)
    → Head m (last_used 1 pre) (end (first h) pre) (a, 1)
    → Head m 1 (end (first h) pre + a) (n, 0)
    → Foot m (end (first h) pre + a) (n, 0)
    → Retagged h.mem m (end (first h) pre + s) 0
    → Focus (with_mem h m) (pre ++ (a, 1) ∷ []) (n, 0) post xs
split_low {h} {pre} {s} {a} {n} {post} {xs} m f e sized k head head' foot tag =
    let w = end (first h) pre in
    let l = le-end (first h) pre in
    let p : w + a ≡ end (first h) (pre ++ (a, 1) ∷ []) =
      sym (end-append (first h) pre ((a, 1) ∷ [])) in
    let q : w + s ≡ end (first h) (pre ++ (a, 1) ∷ []) + n = omega arith in
    let u : 1 ≡ last_used 1 (pre ++ (a, 1) ∷ []) = sym (last_used-append 1 pre ((a, 1) ∷ [])) in
    let low = Seg-below h.mem m 1 (first h) pre (λ q o. k q (inl o)) f.fine.0 f.seg in
    record {
      seg = Seg-join m 1 (first h) pre ((a, 1) ∷ []) low ((head, inl refl), tt);
      mid = (
        subst (λ o. Head m (last_used 1 (pre ++ (a, 1) ∷ [])) o (n, 0) × Foot m o (n, 0)) p
            (subst (λ v. Head m v (w + a) (n, 0) × Foot m (w + a) (n, 0)) u (head', foot)),
        subst (λ o. Tags m 0 o post) q
            (Tags-retag h.mem m 0 0 (w + s) post (λ q o. k q (inr o)) tag f.fine.1.1 f.mid.1),
      );
      fine = (
        Fine-append pre ((a, 1) ∷ []) f.fine.0 ((sized.0.0, sized.0.1, omega arith), tt),
        ((sized.1.0, omega arith, omega arith), f.fine.1.1),
      );
      ring = Ring-kept h m w (w + s) xs k (omega arith) (around-Focus f) f.ring;
      bag = λ x.
          subst
            (λ o. count x xs ≡ count_free x (first h) (pre ++ (a, 1) ∷ []) + count_free x o post) q
            (omega (arith, f.bag x, count_free-append x (first h) pre ((a, 1) ∷ [])));
      bounds = Bounds-mem h m _ (subst (λ o. Bounds h (end o post)) q f.bounds);
    }
