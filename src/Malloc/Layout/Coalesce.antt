-- ===== src/Malloc/Layout/Coalesce.antt =====
-- prj3/prj3-malloc/mm.c: `coalesce` on the list of blocks.
use system_programing.Common.{
  ℕ, zero, suc, ◌+◌, ◌≤◌, ◌≡◌, refl, sym, subst, ap, ◌∙◌, arith, inl, inr, List, [], ◌∷◌, ◌++◌,
  append-nil,
}
use system_programing.Malloc.{Heap, get_alloc}
use system_programing.Malloc.Blocks.{coalesce}
use system_programing.Malloc.Layout.{Block, Spread, end, last_used, used}
use system_programing.Malloc.Layout.Bag.{
  end-append, last_used-append, Fine-parts, Spread-parts, used-append, last_free, last_free-append,
  last_cases,
}
use system_programing.Malloc.Layout.Focus.{first, Focus}
use system_programing.Malloc.Layout.Cases.{merge_next-Focus, merge_prev-Focus, merge_both-Focus}
use system_programing.Malloc.Layout.Coalesced.{
  coalesce_at, Coalesced, room_at, Outer-next, Outer-prev,
}

-- Case 1.
coalesce-neither :
    {h : Heap} {pre : List Block} {s : ℕ} {post : List Block} {xs : List ℕ}
    → Focus h pre (s, 0) post xs
    → (last_used 1 pre ≡ 1) × (last_free 0 pre ≡ 0)
    → get_alloc h (end (first h) pre + s) ≡ 1
    → Spread 1 pre
    → Spread 0 post
    → 16 ≤ last_free 0 pre + s
    → Coalesced h pre s post (coalesce h (end (first h) pre + 4))
coalesce-neither {h} {pre} {s} {post} {xs} f u n a b c =
    let w = end (first h) pre in
    let hd = f.mid.0.0 in
    record {
      before = pre;
      size = s;
      behind = post;
      list = xs;
      mem = h.mem;
      at = coalesce_at h w s 1 1 hd.0 (hd.2 ∙ u.0) n (room_at f);
      focus = f;
      tight = (a, omega (arith, u.0), b);
      same_used = refl;
      wide = omega (arith, c, u.1);
      outer = λ q o. o;
      keeps = λ q o. refl;
      reach = omega (arith, u.1);
    }

-- Case 2.
coalesce-next :
    {h : Heap} {pre : List Block} {s t : ℕ} {post : List Block} {xs : List ℕ}
    → Focus h pre (s, 0) ((t, 0) ∷ post) xs
    → (last_used 1 pre ≡ 1) × (last_free 0 pre ≡ 0)
    → Spread 1 pre
    → Spread 0 post
    → 16 ≤ last_free 0 pre + s
    → Coalesced h pre s ((t, 0) ∷ post) (coalesce h (end (first h) pre + 4))
coalesce-next {h} {pre} {s} {t} {post} {xs} f u a b c =
    let w = end (first h) pre in
    let hd = f.mid.0.0 in
    let (ys, (m, (e, g, kept))) = merge_next-Focus f in
    let p : w + (s + t) ≡ w + s + t = omega arith in
    record {
      before = pre;
      size = s + t;
      behind = post;
      list = ys;
      mem = m;
      at = coalesce_at h w s 1 0 hd.0 (hd.2 ∙ u.0) f.mid.1.0.0.1 (room_at f) ∙ e;
      focus = g;
      tight = (a, omega (arith, u.0), b);
      same_used = ap (λ e. used (first h) pre ++ used e post) p;
      wide = omega (arith, c, u.1);
      outer = λ q o. Outer-next h pre s t post q o;
      keeps = λ q o. kept q (Outer-next h pre s t post q o);
      reach = omega (arith, u.1);
    }

-- The allocated blocks, and the reach, where the block before is free.
used_prev :
    (w : ℕ) (pre : List Block) (t e e' : ℕ) (post : List Block)
    → e ≡ e'
    → used w pre ++ used e post ≡ used w (pre ++ (t, 0) ∷ []) ++ used e' post
used_prev w pre t e e' post a =
    let b : used w (pre ++ (t, 0) ∷ []) ≡ used w pre =
      used-append w pre ((t, 0) ∷ []) ∙ append-nil (used w pre) in
    ap (λ o. used w pre ++ used o post) a ∙ ap (λ l. l ++ used e' post) (sym b)

-- Case 3.
coalesce-prev :
    {h : Heap} (pre : List Block) (t : ℕ) {s : ℕ} {post : List Block} {xs : List ℕ}
    → Focus h (pre ++ (t, 0) ∷ []) (s, 0) post xs
    → get_alloc h (end (first h) (pre ++ (t, 0) ∷ []) + s) ≡ 1
    → Spread 1 (pre ++ (t, 0) ∷ [])
    → Spread 0 post
    → Coalesced h (pre ++ (t, 0) ∷ []) s post (coalesce h (end (first h) (pre ++ (t, 0) ∷ []) + 4))
coalesce-prev {h} pre t {s} {post} {xs} f n a b =
    let w = end (first h) (pre ++ (t, 0) ∷ []) in
    let hd = f.mid.0.0 in
    let (spread, last) = Spread-parts 1 pre ((t, 0) ∷ []) a in
    let (ys, (m, (e, g, kept))) = merge_prev-Focus t f in
    record {
      before = pre;
      size = s + t;
      behind = post;
      list = ys;
      mem = m;
      at =
          coalesce_at h w s 0 1 hd.0 (hd.2 ∙ last_used-append 1 pre ((t, 0) ∷ [])) n (room_at f)
          ∙ e;
      focus = g;
      tight = (spread, omega (arith, last.0), b);
      same_used =
          used_prev (first h) pre t _ (w + s) post
            (omega (arith, end-append (first h) pre ((t, 0) ∷ [])));
      wide = omega (arith, (Fine-parts pre ((t, 0) ∷ []) f.fine.0).1);
      outer = λ q o.
          Outer-prev h pre t _ (w + s) post q
            (omega (arith, end-append (first h) pre ((t, 0) ∷ []))) o;
      keeps = λ q o. kept q (
          Outer-prev h pre t _ (w + s) post q
            (omega (arith, end-append (first h) pre ((t, 0) ∷ []))) o);
      reach = omega (arith, last_free-append 0 pre ((t, 0) ∷ []));
    }

-- Case 4.
coalesce-both :
    {h : Heap} (pre : List Block) (t : ℕ) {s : ℕ} (r : ℕ) {post : List Block} {xs : List ℕ}
    → Focus h (pre ++ (t, 0) ∷ []) (s, 0) ((r, 0) ∷ post) xs
    → Spread 1 (pre ++ (t, 0) ∷ [])
    → Spread 0 post
    → Coalesced h
        (pre ++ (t, 0) ∷ [])
        s
        ((r, 0) ∷ post)
        (coalesce h (end (first h) (pre ++ (t, 0) ∷ []) + 4))
coalesce-both {h} pre t {s} r {post} {xs} f a b =
    let w = end (first h) (pre ++ (t, 0) ∷ []) in
    let hd = f.mid.0.0 in
    let (spread, last) = Spread-parts 1 pre ((t, 0) ∷ []) a in
    let (ys, (m, (e, g, kept))) = merge_both-Focus t r f in
    record {
      before = pre;
      size = s + (t + r);
      behind = post;
      list = ys;
      mem = m;
      at =
          coalesce_at h w s 0 0 hd.0 (hd.2 ∙ last_used-append 1 pre ((t, 0) ∷ [])) f.mid.1.0.0.1
            (room_at f)
          ∙ e;
      focus = g;
      tight = (spread, omega (arith, last.0), b);
      same_used =
          used_prev (first h) pre t _ (w + s + r) post
            (omega (arith, end-append (first h) pre ((t, 0) ∷ [])));
      wide = omega (arith, (Fine-parts pre ((t, 0) ∷ []) f.fine.0).1);
      outer = λ q o.
          Outer-prev h pre t _ (w + (s + r)) post q
            (omega (arith, end-append (first h) pre ((t, 0) ∷ [])))
            (Outer-next h (pre ++ (t, 0) ∷ []) s r post q o);
      keeps = λ q o. kept q (
          Outer-prev h pre t _ (w + (s + r)) post q
            (omega (arith, end-append (first h) pre ((t, 0) ∷ [])))
            (Outer-next h (pre ++ (t, 0) ∷ []) s r post q o));
      reach = omega (arith, last_free-append 0 pre ((t, 0) ∷ []));
    }

after_used :
    {h : Heap} {pre : List Block} {s : ℕ} (post : List Block) {xs : List ℕ}
    → Focus h pre (s, 0) post xs
    → (last_used 1 pre ≡ 1) × (last_free 0 pre ≡ 0)
    → Spread 1 pre
    → Spread 1 post
    → 16 ≤ last_free 0 pre + s
    → Coalesced h pre s post (coalesce h (end (first h) pre + 4))
after_used [] f u a b c = coalesce-neither f u f.mid.1.1 a tt c
after_used ((t, zero) ∷ post) f u a b c = coalesce-next f u a b.1 c
after_used ((t, suc n) ∷ post) f u a b c =
    coalesce-neither f u (omega (arith, f.mid.1.0.0.1, f.fine.1.1.0)) a (omega arith, b.1) c

after_free :
    {h : Heap} (pre : List Block) (t : ℕ) {s : ℕ} (post : List Block) {xs : List ℕ}
    → Focus h (pre ++ (t, 0) ∷ []) (s, 0) post xs
    → Spread 1 (pre ++ (t, 0) ∷ [])
    → Spread 1 post
    → Coalesced h (pre ++ (t, 0) ∷ []) s post (coalesce h (end (first h) (pre ++ (t, 0) ∷ []) + 4))
after_free pre t [] f a b = coalesce-prev pre t f f.mid.1.1 a tt
after_free pre t ((r, zero) ∷ post) f a b = coalesce-both pre t r f a b.1
after_free pre t ((r, suc n) ∷ post) f a b =
    coalesce-prev pre t f (omega (arith, f.mid.1.0.0.1, f.fine.1.1.0)) a (omega arith, b.1)

-- A free block that is not on the list and its free neighbours become one block.
pub coalesce-Coalesced :
    {h : Heap} {pre : List Block} {s : ℕ} {post : List Block} {xs : List ℕ}
    → Focus h pre (s, 0) post xs
    → Spread 1 pre
    → Spread 1 post
    → 16 ≤ last_free 0 pre + s
    → Coalesced h pre s post (coalesce h (end (first h) pre + 4))
coalesce-Coalesced {h} {pre} {s} {post} {xs} f a b c = elim (last_cases pre f.fine.0) [
  | inl u ↦ after_used post f u a b c
  | inr (cs, (t, e)) ↦
      subst (λ p. Coalesced h p s post (coalesce h (end (first h) p + 4))) (sym e)
        (after_free cs t post (subst (λ p. Focus h p (s, 0) post xs) e f) (subst (Spread 1) e a) b)
]
