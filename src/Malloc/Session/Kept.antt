-- ===== src/Malloc/Session/Kept.antt =====
-- prj3/prj3-malloc/mm.c: what every call of a client keeps.
use system_programing.Common.{
  ℕ, zero, suc, ◌+◌, ◌≤◌, ◌<◌, ◌≡◌, refl, sym, ap, subst, ◌∙◌, arith, inl, List, [], ◌∷◌, ◌++◌,
  none, some,
}
use system_programing.Common.Int.{ℤ}
use system_programing.Malloc.{Heap, put, write_word}
use system_programing.Malloc.Api.{mm_free}
use system_programing.Malloc.Layout.{Block, Fine, end, used}
use system_programing.Malloc.Layout.Frame.{Tags-head}
use system_programing.Malloc.Layout.Bag.{Fine-parts, Spread-parts}
use system_programing.Malloc.Layout.Focus.{first, IsHeap, Focus-set}
use system_programing.Malloc.Layout.Free.{Focus-used, mm_free-IsHeap}
use system_programing.Malloc.Layout.Split.{Focus-close}
use system_programing.Malloc.FreeList.{with_mem}
use system_programing.Malloc.Layout.Alloc.{mm_malloc-ended}
use system_programing.Malloc.Layout.Init.{mm_init-IsHeap}
use system_programing.Malloc.Session.{Session, begins, gets, fails, frees, writes}
use system_programing.Malloc.Session.Cover.{Cover, Cover-free, rest_of, head_of}

abbrev pub Holds : Heap → List (ℕ × ℕ) → Type 0
Holds h held =
    (bs : List Block) × ((xs : List ℕ) × (IsHeap h bs xs × Cover held (used (first h) bs)))

abbrev filled : List (ℕ × ℕ) → ℕ
filled [] = 0
filled (b ∷ bs) = 1

-- An allocated block among the blocks.
pub used_at :
    (w : ℕ) (bs : List Block) (vs : List (ℕ × ℕ)) (p n : ℕ) (ws : List (ℕ × ℕ))
    → Fine bs
    → used w bs ≡ vs ++ (p, n) ∷ ws
    → (pre : List Block) × ((post : List Block) × ((bs ≡ pre ++ (n, 1) ∷ post)
          × (end w pre + 4 ≡ p)
          × (used w pre ≡ vs)
          × (used (end w pre + n) post ≡ ws)))
used_at w [] [] p n ws f e = absurd (omega (arith, ap filled e))
used_at w [] (v ∷ vs) p n ws f e = absurd (omega (arith, ap filled e))
used_at w ((s, zero) ∷ bs) vs p n ws f e =
    let (pre, (post, (i, j, k, l))) = used_at (w + s) bs vs p n ws f.1 e in
    ((s, 0) ∷ pre, (post, (ap (λ o. (s, 0) ∷ o) i, j, k, l)))
used_at w ((s, suc a) ∷ bs) [] p n ws f e =
    let size : s ≡ n = ap (λ l. (head_of (0, 0) l).1) e in
    let bit : a ≡ 0 = omega (arith, f.0) in
    (
      [],
      (
        bs,
        (
          ap (λ o. (s, suc o) ∷ bs) bit ∙ ap (λ o. (o, 1) ∷ bs) size,
          ap (λ l. (head_of (0, 0) l).0) e,
          refl,
          ap (λ o. used (w + o) bs) (sym size) ∙ ap rest_of e,
        ),
      ),
    )
used_at w ((s, suc a) ∷ bs) (v ∷ vs) p n ws f e =
    let (pre, (post, (i, j, k, l))) = used_at (w + s) bs vs p n ws f.1 (ap rest_of e) in
    let h : (w + 4, s) ≡ v = ap (head_of v) e in
    (
      (s, suc a) ∷ pre,
      (post, (ap (λ o. (s, suc a) ∷ o) i, j, ap (λ o. (w + 4, s) ∷ o) k ∙ ap (λ o. o ∷ vs) h, l)),
    )

pub put_with : (h : Heap) (q v : ℕ) → put h q v ≡ with_mem h (write_word h.mem q v)
unfolding put
put_with h q v = refl

-- A client may write to all words of an allocated block but its header.
write-IsHeap :
    (h : Heap) (pre : List Block) (n : ℕ) (post : List Block) (xs : List ℕ) (q v : ℕ)
    → IsHeap h (pre ++ (n, 1) ∷ post) xs
    → end (first h) pre + 4 ≤ q
    → q < end (first h) pre + n
    → IsHeap (put h q v) (pre ++ (n, 1) ∷ post) xs
write-IsHeap h pre n post xs q v i low high =
    let w = end (first h) pre in
    let m = write_word h.mem q v in
    let f = Focus-used pre n post i in
    let hd = f.mid.0.0 in
    let tag = Tags-head h.mem 1 (w + n) post f.mid.1 in
    let (a, b) = Spread-parts 1 pre ((n, 1) ∷ post) i.spread in
    let (fine, fine') = Fine-parts pre ((n, 1) ∷ post) i.fine in
    let g =
      Focus-set m 1 f (λ r o. ground arith) (ground arith) (inl refl) (ground arith)
        (omega arith) in
    subst (λ k. IsHeap k (pre ++ (n, 1) ∷ post) xs) (sym (put_with h q v))
      (Focus-close g a b.1 fine'.0.1)

-- All calls and writes keep the heap a heap of blocks, with the held blocks as the allocated ones.
pub Session-Holds :
    (h : Heap) (held : List (ℕ × ℕ)) (known : ℕ → ℕ) → Session h held known → Holds h held
Session-Holds _ _ _ (begins base mem h known a b e) =
    let (k, (e', i)) = mm_init-IsHeap base mem a b in
    let same : k ≡ h = ap (λ (o : ℤ × Heap). o.1) (sym e' ∙ e) in
    subst (λ o. Holds o []) same ((4096, 0) ∷ [], ((base + 24) ∷ [], (i, refl)))
Session-Holds _ _ _ (gets h rest known fuel size ptr h' s low high e) =
    let (bs, (xs, (i, c))) = Session-Holds h rest known s in
    let (cs, (ys, (us, (vs, (n, (j, e1, e2, le, align, head, keeps)))))) =
      mm_malloc-ended h fuel size bs xs (some ptr, h') i low high e in
    let w : first h' ≡ first h = ap (λ o. o + 16) head in
    (cs, (ys, (j, (us, (n, (vs, (ap (λ o. used o cs) w ∙ e2, le, subst (Cover rest) e1 c)))))))
Session-Holds _ _ _ (fails h held known fuel size h' s low high e) =
    let (bs, (xs, (i, c))) = Session-Holds h held known s in
    let same : h' ≡ h = mm_malloc-ended h fuel size bs xs (none, h') i low high e in
    subst (λ o. Holds o held) (sym same) (bs, (xs, (i, c)))
Session-Holds _ _ _ (frees h us ptr size vs known s) =
    let (bs, (xs, (i, c))) = Session-Holds h (us ++ (ptr, size) ∷ vs) known s in
    let (ls, (n, (rs, (e, le, c')))) = Cover-free us (ptr, size) vs (used (first h) bs) c in
    let (pre, (post, (split, at, before, behind))) = used_at (first h) bs ls ptr n rs i.fine e in
    let (cs, (ys, (j, same, head, keeps))) =
      mm_free-IsHeap h pre n post xs (subst (λ o. IsHeap h o xs) split i) in
    let w : first (mm_free h (end (first h) pre + 4)) ≡ first h = ap (λ o. o + 16) head in
    let u : used (first (mm_free h (end (first h) pre + 4))) cs ≡ ls ++ rs =
      ap (λ o. used o cs) w
      ∙ same
      ∙ ap (λ l. l ++ used (end (first h) pre + n) post) before
      ∙ ap (λ l. ls ++ l) behind in
    subst (λ o. Holds (mm_free h o) (us ++ vs)) at
      (cs, (ys, (j, subst (Cover (us ++ vs)) (sym u) c')))
Session-Holds _ _ _ (writes h us ptr size vs known q v s inside align) =
    let (bs, (xs, (i, c))) = Session-Holds h (us ++ (ptr, size) ∷ vs) known s in
    let (ls, (n, (rs, (e, le, c')))) = Cover-free us (ptr, size) vs (used (first h) bs) c in
    let (pre, (post, (split, at, before, behind))) = used_at (first h) bs ls ptr n rs i.fine e in
    let j =
      write-IsHeap h pre n post xs q v (subst (λ o. IsHeap h o xs) split i) (omega arith)
        (omega arith) in
    subst (λ o. Holds o (us ++ (ptr, size) ∷ vs)) (sym (put_with h q v))
      (
        bs,
        (
          xs,
          (
            subst (λ o. IsHeap o bs xs) (put_with h q v)
                (subst (λ o. IsHeap (put h q v) o xs) (sym split) j),
            c,
          ),
        ),
      )
