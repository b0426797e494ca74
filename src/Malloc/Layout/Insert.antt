-- ===== src/Malloc/Layout/Insert.antt =====
-- prj3/prj3-malloc/mm.c: INSERT_LIST on the list of blocks.
use system_programing.Common.{
  ℕ, ◌+◌, ◌^◌, ◌≤◌, ◌<◌, ◌≡◌, ◌≢◌, refl, sym, subst, arith, ◌⊎◌, inl, inr, List, [], ◌∷◌, ◌++◌,
  All-map,
}
use system_programing.Malloc.{Heap, add32, succ, insert_list, connect, put}
use system_programing.Malloc.FreeList.{Ring, Links, Fits, Apart, with_mem, insert_list-Ring}
use system_programing.Malloc.Layout.{Block, Fine, Spread, end, last_used, count_free, count, Aside}
use system_programing.Malloc.Layout.Frame.{
  le-end, Aside-low, Aside-links, Tags-Aside_four, Tags-join,
}
use system_programing.Malloc.Layout.Bag.{count_free-append, Fine-append, Spread-append, end-append}
use system_programing.Malloc.Layout.Clear.{Gap, Outer, Outer-between, Clear-links}
use system_programing.Malloc.Layout.Focus.{first, Bounds, Bounds-mem, Focus, IsHeap, around-Focus}

-- The words that INSERT_LIST behind the head leaves alone.
insert_list-same :
    (h : Heap) (new r : ℕ)
    → Fits new × Fits h.free_head × Apart new h.free_head
    → r ≢ new
    → r ≢ add32 new 4
    → r ≢ succ h h.free_head
    → r ≢ add32 h.free_head 4
    → (insert_list h new h.free_head).mem r ≡ h.mem r
unfolding insert_list connect put
insert_list-same h new r f a b c d = ground arith

pub insert_with :
    (h : Heap) (new : ℕ)
    → insert_list h new h.free_head ≡ with_mem h (insert_list h new h.free_head).mem
unfolding insert_list connect put
insert_with h new = refl

first_listed :
    (h : Heap) (xs : List ℕ)
    → Links h h.free_head xs h.free_head
    → (succ h h.free_head ≡ h.free_head) ⊎ (0 < count (succ h h.free_head) xs)
first_listed h [] l = inl l.0
first_listed h (x ∷ xs) l = let e = l.0.0 in inr (ground arith)

all_free :
    {h : Heap} {pre : List Block} {s : ℕ} {post : List Block} {xs : List ℕ}
    → Focus h pre (s, 0) post xs
    → (x : ℕ)
    → count x ((end (first h) pre + 4) ∷ xs) ≡ count_free x (first h) (pre ++ (s, 0) ∷ post)
all_free {h} {pre} {s} {post} {xs} f x =
    omega (arith, f.bag x, count_free-append x (first h) pre ((s, 0) ∷ post))

-- Link words of the list are no headers or footers.
link-Aside :
    (h : Heap) (bs : List Block) (y : ℕ)
    → Fine bs
    → (y ≡ h.free_head) ⊎ (0 < count_free y (first h) bs)
    → Aside y (first h) bs × Aside (y + 4) (first h) bs
link-Aside h bs y f (inl e) =
    (Aside-low y (first h) bs (omega arith) f, Aside-low (y + 4) (first h) bs (omega arith) f)
link-Aside h bs y f (inr c) = Aside-links y (first h) bs f c

-- INSERT_LIST of the block in the focus leaves the allocated blocks alone.
pub insert-keeps :
    {h : Heap} {pre : List Block} {s : ℕ} {post : List Block} {xs : List ℕ} (q : ℕ)
    → Focus h pre (s, 0) post xs
    → 16 ≤ s
    → Outer q h pre (end (first h) pre + s) post
    → (insert_list h (end (first h) pre + 4) h.free_head).mem q ≡ h.mem q
insert-keeps {h} {pre} {s} {post} {xs} q f wide o =
    let w = end (first h) pre in
    let g : Gap h pre 0 (w + s) post = record {
      seg = f.seg;
      mid = f.mid.1;
      fine = (f.fine.0, f.fine.1.1);
      wide = omega arith;
      bounds = f.bounds;
    } in
    let l = le-end (first h) pre in
    let l' = le-end (w + s) post in
    let b : w + s + 8 ≤ 2 ^ 32 = omega (arith, f.bounds.brk, f.bounds.room, f.bounds.low) in
    let out = Outer-between q g o in
    let next : q ≢ succ h h.free_head = elim (first_listed h xs f.ring.0) [
      | inl e ↦ omega (arith, e, out.0)
      | inr c ↦
          (Clear-links (succ h h.free_head) g (omega (arith, f.bag (succ h h.free_head)))).0.3 q o
    ] in
    insert_list-same h (w + 4) q (omega arith, omega arith, inr (omega arith))
      (omega (arith, out.1)) (omega (arith, out.1)) next (omega (arith, out.0))

-- The free block of the focus goes on the list: then the heap is as it should be.
pub insert-IsHeap :
    {h : Heap} {pre : List Block} {s : ℕ} {post : List Block} {xs : List ℕ}
    → Focus h pre (s, 0) post xs
    → Spread 1 pre × (1 ≤ last_used 1 pre) × Spread 0 post
    → 16 ≤ s
    → IsHeap
        (insert_list h (end (first h) pre + 4) h.free_head)
        (pre ++ (s, 0) ∷ post)
        ((end (first h) pre + 4) ∷ xs)
insert-IsHeap {h} {pre} {s} {post} {xs} f tight wide =
    let w = end (first h) pre in
    let bs = pre ++ (s, 0) ∷ post in
    let m = (insert_list h (w + 4) h.free_head).mem in
    let l = le-end (first h) pre in
    let l' = le-end (w + s) post in
    let b : w + s + 8 ≤ 2 ^ 32 = omega (arith, f.bounds.brk, f.bounds.room, f.bounds.low) in
    let bag = all_free f in
    let fine =
      Fine-append pre ((s, 0) ∷ post) f.fine.0 ((f.fine.1.0.0, wide, f.fine.1.0.2), f.fine.1.1) in
    let fits : Fits (w + 4) = omega arith in
    let fits' : Fits h.free_head = omega arith in
    let apart : Apart (w + 4) h.free_head = inr (omega arith) in
    let new = link-Aside h bs (w + 4) fine (inr (ground (arith, bag (w + 4)))) in
    let head = link-Aside h bs h.free_head fine (inl refl) in
    let next = link-Aside h bs (succ h h.free_head) fine (elim (first_listed h xs f.ring.0) [
      | inl e ↦ inl e
      | inr c ↦ inr (omega (arith, bag (succ h h.free_head)))
    ]) in
    let e1 : add32 (w + 4) 4 ≡ w + 4 + 4 = omega arith in
    let e2 : add32 h.free_head 4 ≡ h.free_head + 4 = omega arith in
    let others =
      All-map (λ x. (x + 8 ≤ w) ⊎ (w + s < x)) (λ x. (x + 8 ≤ w) ⊎ (w + s < x)) (Apart (w + 4))
        (λ x o o'. ground arith) xs (around-Focus f) (around-Focus f) in
    let back = insert_with h (w + 4) in
    subst (λ k. IsHeap k bs ((w + 4) ∷ xs)) (sym back)
      (record {
        tags =
            Tags-Aside_four h.mem m (w + 4) (add32 (w + 4) 4) (succ h h.free_head)
              (add32 h.free_head 4) 1 (first h) bs
              (λ r. insert_list-same h (w + 4) r (fits, fits', apart))
              (new.0, subst (λ a. Aside a (first h) bs) (sym e1) new.1)
              (next.0, subst (λ a. Aside a (first h) bs) (sym e2) head.1)
              (Tags-join h.mem 1 (first h) pre ((s, 0) ∷ post) f.seg f.mid);
        fine = fine;
        spread = Spread-append 1 pre ((s, 0) ∷ post) tight.0 (omega (arith, tight.1), tight.2);
        ring =
            subst (λ k. Ring k ((w + 4) ∷ xs)) back
              (insert_list-Ring h (w + 4) xs fits apart others f.ring);
        bag = bag;
        bounds =
            subst (Bounds (with_mem h m)) (sym (end-append (first h) pre ((s, 0) ∷ post)))
              (Bounds-mem h m _ f.bounds);
      })
