-- ===== src/Malloc/Layout/Parts.antt =====
-- prj3/prj3-malloc/mm.c: the two ways in which `place` splits a block.
use system_programing.Common.{
  ℕ, ◌+◌, ◌≤◌, ◌≡◌, refl, sym, subst, ap, ◌∙◌, arith, inl, inr, List, [], ◌∷◌, ◌++◌, append_assoc,
  append-nil,
}
use system_programing.Malloc.{Heap, get_alloc, set_alloc, insert_list}
use system_programing.Malloc.Blocks.{place_low, place_high}
use system_programing.Malloc.FreeList.{with_mem}
use system_programing.Malloc.Layout.{Body, Block, Head, Fine, end, last_used, used}
use system_programing.Malloc.Layout.Frame.{Body-around, Body-left, le-end}
use system_programing.Malloc.Layout.Bag.{
  Spread-append, end-append, last_used-append, used-append, last_cases,
}
use system_programing.Malloc.Layout.Clear.{Outer}
use system_programing.Malloc.Layout.Focus.{first, Focus, IsHeap, Retagged}
use system_programing.Malloc.Layout.Coalesced.{room_at}
use system_programing.Malloc.Layout.Insert.{insert-keeps, insert-IsHeap, insert_with}
use system_programing.Malloc.Layout.Split.{Sized, split_low, split_high}
use system_programing.Malloc.Layout.LowAt.{
  low, place_low_at, low-Head, low_rest, low_behind, low_outside, low_with,
}
use system_programing.Malloc.Layout.HighAt.{
  high, place_high_at, high-Head, high_block, high_behind, high_outside, high_with,
}
use system_programing.Malloc.Layout.Placed.{Tight, Placed, after_used, behind_used, listed_again}

-- The words of the other allocated blocks, around a rest of the block.
Outer-low :
    (h : Heap) (pre : List Block) (a e e' : ℕ) (post : List Block) (q : ℕ)
    → e ≡ e'
    → Outer q h pre e post
    → Outer q h (pre ++ (a, 1) ∷ []) e' post
Outer-low h pre a e e' post q p (inl i) = inl (Body-left q (first h) pre ((a, 1) ∷ []) i)
Outer-low h pre a e e' post q p (inr i) = inr (subst (λ o. Body q o post) p i)

Outer-high :
    (h : Heap) (pre : List Block) (e e' a : ℕ) (post : List Block) (q : ℕ)
    → e ≡ e' + a
    → Outer q h pre e post
    → Outer q h pre e' ((a, 1) ∷ post)
Outer-high h pre e e' a post q p (inl i) = inl i
Outer-high h pre e e' a post q p (inr i) = inr (inr (subst (λ o. Body q o post) p i))

-- The first part is allocated.
pub low-Placed :
    {h : Heap} {pre : List Block} {s a n : ℕ} {post : List Block} {xs : List ℕ}
    → Focus h pre (s, 0) post xs
    → Tight pre post
    → s ≡ a + n
    → Sized a × Sized n
    → Placed h pre s post a
        (place_low (set_alloc h (end (first h) pre)) (end (first h) pre + 4) a n)
low-Placed {h} {pre} {s} {a} {n} {post} {xs} f tight e sized =
    let w = end (first h) pre in
    let hd = f.mid.0.0 in
    let l = le-end (w + s) post in
    let p : w + s ≡ w + a + n = omega arith in
    let alloc =
      subst (λ o. get_alloc h o ≡ 1) p
        (behind_used h.mem 0 (w + s) post f.mid.1 f.fine.1.1 tight.2) in
    let m0 = (low h w a n).mem in
    let head = low-Head h w a n sized.0 sized.1.1 in
    let rest = low_rest h w a n sized.0.1 sized.1 in
    let f1 : Focus (with_mem h m0) (pre ++ (a, 1) ∷ []) (n, 0) post xs =
      split_low m0 f e sized (λ q o. low_outside h w a n q sized.0.1 sized.1.1 (omega arith))
        (head.0, head.1, head.2 ∙ hd.2) rest.0 rest.1
        (subst (λ o. Retagged h.mem m0 o 0) (sym p) (low_behind h w a n sized.0.1 sized.1.1)) in
    let W : end (first h) (pre ++ (a, 1) ∷ []) ≡ w + a = end-append (first h) pre ((a, 1) ∷ []) in
    let tight' : Tight (pre ++ (a, 1) ∷ []) post = (
      Spread-append 1 pre ((a, 1) ∷ []) tight.0 (omega arith, tt),
      omega (arith, last_used-append 1 pre ((a, 1) ∷ [])),
      tight.2,
    ) in
    let i = insert-IsHeap f1 tight' sized.1.1 in
    record {
      before = pre;
      size = a;
      behind = (n, 0) ∷ post;
      list = (end (first h) (pre ++ (a, 1) ∷ []) + 4) ∷ xs;
      mem = (insert_list (with_mem h m0) (end (first h) (pre ++ (a, 1) ∷ []) + 4) h.free_head).mem;
      at =
          place_low_at h w a n sized.0 sized.1 alloc
            (omega (arith, f.bounds.brk, f.bounds.room, f.bounds.low))
          ∙ listed_again h (low h w a n) m0 (w + a + 4) _ (w + 4) (low_with h w a n)
              (ap (λ o. o + 4) (sym W));
      heap =
          subst
            (λ k.
              IsHeap k (pre ++ (a, 1) ∷ (n, 0) ∷ post)
                ((end (first h) (pre ++ (a, 1) ∷ []) + 4) ∷ xs))
            (insert_with (with_mem h m0) _)
            (subst
              (λ bs.
                IsHeap
                  (insert_list (with_mem h m0) (end (first h) (pre ++ (a, 1) ∷ []) + 4) h.free_head)
                  bs ((end (first h) (pre ++ (a, 1) ∷ []) + 4) ∷ xs))
              (append_assoc pre ((a, 1) ∷ []) ((n, 0) ∷ post)) i);
      enough = omega arith;
      same_before = refl;
      keeps = λ q o.
          insert-keeps q f1 sized.1.1 (Outer-low h pre a (w + s) _ post q (omega (arith, W)) o)
          ∙ low_outside h w a n q sized.0.1 sized.1.1
              (omega (arith, Body-around q (first h) (w + s) pre post o));
      same_behind = ap (λ o. used o post) (sym p);
    }

only_used : (pre : List Block) → Fine pre → 1 ≤ last_used 1 pre → last_used 1 pre ≡ 1
only_used pre f l = elim (last_cases pre f) [
  | inl e ↦ e.0
  | inr (cs, (t, e)) ↦
      let u : last_used 1 pre ≡ 0 = ap (last_used 1) e ∙ last_used-append 1 cs ((t, 0) ∷ []) in
      absurd (omega arith)
]

-- The last part is allocated.
pub high-Placed :
    {h : Heap} {pre : List Block} {s a n : ℕ} {post : List Block} {xs : List ℕ}
    → Focus h pre (s, 0) post xs
    → Tight pre post
    → s ≡ n + a
    → Sized n × Sized a
    → Placed h pre s post a
        (place_high (set_alloc h (end (first h) pre)) (end (first h) pre + 4) a n)
high-Placed {h} {pre} {s} {a} {n} {post} {xs} f tight e sized =
    let w = end (first h) pre in
    let hd = f.mid.0.0 in
    let used_before : last_used 1 pre ≡ 1 = only_used pre f.fine.0 tight.1 in
    let p : w + s ≡ w + n + a = omega arith in
    let m0 = (high h w n a).mem in
    let head = high-Head h w n a sized.0 sized.1.1 (hd.2 ∙ used_before) in
    let f1 : Focus (with_mem h m0) pre (n, 0) ((a, 1) ∷ post) xs =
      split_high m0 f e sized (λ q o. high_outside h w n a q sized.0.1 sized.1.1 (omega arith))
        (subst (λ v. Head m0 v w (n, 0)) (sym used_before) head.0) head.1
        (high_block h w n a sized.0.1 sized.1)
        (subst (λ o. Retagged h.mem m0 o 1) (sym p) (high_behind h w n a sized.0.1 sized.1.1)) in
    let W : end (first h) (pre ++ (n, 0) ∷ []) ≡ w + n = end-append (first h) pre ((n, 0) ∷ []) in
    let i = insert-IsHeap f1 (tight.0, tight.1, (omega arith, after_used post tight.2)) sized.0.1 in
    record {
      before = pre ++ (n, 0) ∷ [];
      size = a;
      behind = post;
      list = (w + 4) ∷ xs;
      mem = (insert_list (with_mem h m0) (w + 4) h.free_head).mem;
      at =
          place_high_at h w n a sized.0 sized.1 (hd.2 ∙ used_before) (omega (arith, room_at f))
          ∙ listed_again h (high h w n a) m0 (w + 4) (w + 4) (w + n + 4) (high_with h w n a) refl
          ∙ ap
              (λ (o : ℕ). (o + 4, with_mem h (insert_list (with_mem h m0) (w + 4) h.free_head).mem))
              (sym W);
      heap =
          subst (λ k. IsHeap k ((pre ++ (n, 0) ∷ []) ++ (a, 1) ∷ post) ((w + 4) ∷ xs))
            (insert_with (with_mem h m0) _)
            (subst
              (λ bs. IsHeap (insert_list (with_mem h m0) (w + 4) h.free_head) bs ((w + 4) ∷ xs))
              (sym (append_assoc pre ((n, 0) ∷ []) ((a, 1) ∷ post))) i);
      enough = omega arith;
      same_before = used-append (first h) pre ((n, 0) ∷ []) ∙ append-nil (used (first h) pre);
      keeps = λ q o.
          insert-keeps q f1 sized.0.1 (Outer-high h pre (w + s) (w + n) a post q (omega arith) o)
          ∙ high_outside h w n a q sized.0.1 sized.1.1
              (omega (arith, Body-around q (first h) (w + s) pre post o));
      same_behind = ap (λ o. used o post) (omega (arith, W));
    }
