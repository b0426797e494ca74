-- ===== src/Malloc/Layout/Cases.antt =====
-- prj3/prj3-malloc/mm.c: the three merges of `coalesce` on the list of blocks.
use system_programing.Common.{
  ℕ, ◌+◌, ◌≤◌, ◌≡◌, sym, subst, ap, ◌∙◌, arith, inl, inr, List, [], ◌∷◌, ◌++◌,
}
use system_programing.Malloc.{Heap, or3, pack, put, set_size}
use system_programing.Malloc.Blocks.{merge_next, merge_prev, merge_both}
use system_programing.Malloc.FreeList.{Ring, with_mem}
use system_programing.Malloc.Layout.{Body, Block, end}
use system_programing.Malloc.Layout.Frame.{le-end}
use system_programing.Malloc.Layout.Bag.{end-append}
use system_programing.Malloc.Layout.Opening.{
  grown_same, open_next, Gap-grown, Gap-grown_back, behind, erase_behind, erase_ahead,
}
use system_programing.Malloc.Layout.Focus.{first, Focus}
use system_programing.Malloc.Layout.Clear.{Gap, Outer, Outer-between}
use system_programing.Malloc.Layout.Gap.{take_out, erase-Gap}
use system_programing.Malloc.Layout.Merge.{
  grown, grown_back, merge_next_at, merge_prev_at, merge_both_at,
}

-- What a merge makes of the heap: the block at `w` has the size `s` and is in the focus.
abbrev pub Became : Heap → List Block → ℕ → List Block → ℕ × Heap → Type 0
Became h pre s post r =
    (xs : List ℕ) × ((m : ℕ → ℕ) × ((r ≡ (end (first h) pre + 4, with_mem h m))
        × Focus (with_mem h m) pre (s, 0) post xs
        × ((q : ℕ) → Outer q h pre (end (first h) pre + s) post → m q ≡ h.mem q)))

Outer-grown :
    {h : Heap} {pre : List Block} {n : ℕ} {post : List Block}
    → Gap h pre 0 (end (first h) pre + n) post
    → (q : ℕ) → 8 ≤ n
    → Outer q h pre (end (first h) pre + n) post
    → ((grown h (end (first h) pre) n).mem q ≡ h.mem q)
      × ((grown_back h (end (first h) pre) n).mem q ≡ h.mem q)
Outer-grown {h} {pre} {n} g q l o =
    let r = Outer-between q g o in grown_same h (end (first h) pre) n q l (omega (arith, r.1))

Outer-wider :
    (h : Heap) (pre : List Block) (s t r : ℕ) (post : List Block) (q : ℕ)
    → Outer q h pre (end (first h) pre + (s + (t + r))) post
    → Outer q h pre (end (first h) pre + (s + t)) ((r, 0) ∷ post)
Outer-wider h pre s t r post q (inl i) = inl i
Outer-wider h pre s t r post q (inr i) = inr (inr (subst (λ e. Body q e post) (omega arith) i))

pub merge_next-Focus :
    {h : Heap} {pre : List Block} {s t : ℕ} {post : List Block} {xs : List ℕ}
    → Focus h pre (s, 0) ((t, 0) ∷ post) xs
    → Became h pre (s + t) post (merge_next h (end (first h) pre + 4) s)
unfolding put set_size or3 pack
merge_next-Focus {h} {pre} {s} {t} {post} {xs} f =
    let w = end (first h) pre in
    let (gap, bag) = open_next f in
    let (ys, (zs, (e, rest))) = take_out xs (w + s + 4) _ bag in
    let (m, (same, (g, listed), k, kept)) =
      erase-Gap ys (w + s + 4) zs (subst (Ring h) e f.ring) gap rest in
    let h1 = with_mem h m in
    let fine = f.fine.1 in
    let k0 = k w (omega arith) (omega arith) in
    let k1 = k (w + s) (omega arith) (omega arith) in
    let hd = f.mid.0.0 in
    let hd' = f.mid.1.0.0 in
    let l = le-end (w + s + t) post in
    let at =
      merge_next_at h h1 w s t (sym same) hd.0 (ground arith, ground arith)
        (fine.0.1, fine.1.0.1, omega (arith, fine.0.0, fine.1.0.0))
        (omega (arith, f.bounds.brk, f.bounds.room, f.bounds.low)) in
    (
      ys ++ zs,
      (
        (grown h1 w (s + t)).mem,
        (
          at,
          Gap-grown (s + t) g listed (ground (arith, k0, hd), ground (arith, k0, hd))
              (omega (arith, fine.0.0, fine.1.0.0)),
          λ q o. (Outer-grown g q (omega (arith, fine.0.1, fine.1.0.1)) o).0 ∙ kept q o,
        ),
      ),
    )

pub merge_prev-Focus :
    {h : Heap} {pre : List Block} (t : ℕ) {s : ℕ} {post : List Block} {xs : List ℕ}
    → Focus h (pre ++ (t, 0) ∷ []) (s, 0) post xs
    → Became h pre (s + t) post (merge_prev h (end (first h) (pre ++ (t, 0) ∷ []) + 4) s)
unfolding put set_size or3 pack
merge_prev-Focus {h} {pre} t {s} {post} {xs} f =
    let w = end (first h) pre in
    let v = behind {t = t} f in
    let (ys, (m, (same, o, kept))) = erase_behind v in
    let h1 = with_mem h m in
    let fine = v.fine in
    let l = le-end (w + (s + t)) post in
    let at : merge_prev h (w + t + 4) s ≡ (w + 4, grown_back h1 w (s + t)) =
      merge_prev_at h h1 w t s (sym same) v.foot (o.size, o.next, o.foot) (fine.3, fine.1)
        (omega (arith, v.room)) in
    (
      ys,
      (
        (grown_back h1 w (s + t)).mem,
        (
          ap (λ a. merge_prev h (a + 4) s) (end-append (first h) pre ((t, 0) ∷ [])) ∙ at,
          Gap-grown_back (s + t) o.gap o.listed o.word (omega arith),
          λ q i. (Outer-grown o.gap q (omega arith) i).1 ∙ kept q i,
        ),
      ),
    )

pub merge_both-Focus :
    {h : Heap} {pre : List Block} (t : ℕ) {s : ℕ} (r : ℕ) {post : List Block} {xs : List ℕ}
    → Focus h (pre ++ (t, 0) ∷ []) (s, 0) ((r, 0) ∷ post) xs
    → Became h pre (s + (t + r)) post (merge_both h (end (first h) (pre ++ (t, 0) ∷ []) + 4) s)
unfolding put set_size or3 pack
merge_both-Focus {h} {pre} t {s} r {post} {xs} f =
    let w = end (first h) pre in
    let v = behind {t = t} f in
    let fine = v.fine in
    let fine' = f.fine.1.1.0 in
    let (ys, (m, (same, o, kept))) = erase_behind v in
    let h1 = with_mem h m in
    let (ys', (m', (same', o', last, kept'))) =
      erase_ahead {t = t} {s = s} o (fine.1, fine.3, fine'.1) in
    let h2 = with_mem h m' in
    let l = le-end (w + (s + t) + r) post in
    let at : merge_both h (w + t + 4) s ≡ (w + 4, grown h2 w (s + (t + r))) =
      merge_both_at h h1 h2 w t s r (sym same) (sym same') v.foot o.next
        (o'.size, o'.next, o'.foot, last) (fine.3, fine.1, fine'.1) (omega (arith, v.room)) in
    (
      ys',
      (
        (grown h2 w (s + (t + r))).mem,
        (
          ap (λ a. merge_both h (a + 4) s) (end-append (first h) pre ((t, 0) ∷ [])) ∙ at,
          Gap-grown (s + (t + r)) o'.gap o'.listed o'.word (omega (arith, fine'.0)),
          λ q i.
              (Outer-grown o'.gap q (omega arith) i).0
              ∙ kept' q i
              ∙ kept q (Outer-wider h pre s t r post q i),
        ),
      ),
    )
