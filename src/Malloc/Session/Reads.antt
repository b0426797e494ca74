-- ===== src/Malloc/Session/Reads.antt =====
-- prj3/prj3-malloc/mm.c: a client finds in its blocks what it has written.
use system_programing.Common.{
  ℕ, zero, suc, ◌+◌, ◌≤◌, ◌<◌, ◌≡◌, sym, ap, subst, ◌∙◌, arith, inl, inr, List, [], ◌∷◌, ◌++◌, All,
  All-append, All-map, none, some,
}
use system_programing.Malloc.{Heap, put, write_word}
use system_programing.Malloc.Layout.{Block, Fine, end, used, Body}
use system_programing.Malloc.Layout.Bag.{Fine-parts}
use system_programing.Malloc.Api.{mm_free}
use system_programing.Malloc.Layout.Clear.{Outer}
use system_programing.Malloc.Layout.Focus.{first, IsHeap}
use system_programing.Malloc.Layout.Free.{mm_free-IsHeap}
use system_programing.Malloc.Layout.Alloc.{mm_malloc-ended}
use system_programing.Malloc.Session.{
  Session, Inside, Reads, learned, begins, gets, fails, frees, writes,
}
use system_programing.Malloc.Session.Cover.{Cover, Cover-free}
use system_programing.Malloc.Session.Kept.{used_at, Session-Holds, put_with}
use system_programing.Malloc.Session.Safety.{map-All, Cover-All, All-rest}

-- The words of an allocated block of `n` bytes, up to the header behind it.
abbrev Within : (ℕ → Type 0) → ℕ × ℕ → Type 0
Within P b = (q : ℕ) → b.0 ≤ q → q + 4 < b.0 + b.1 → P q

used-Body : (w : ℕ) (bs : List Block) → Fine bs → All (Within (λ q. Body q w bs)) (used w bs)
used-Body w [] f = tt
used-Body w ((s, zero) ∷ bs) f =
    map-All (Within (λ q. Body q (w + s) bs)) (Within (λ q. Body q w ((s, 0) ∷ bs)))
      (λ b k q l u. inr (k q l u)) (used (w + s) bs) (used-Body (w + s) bs f.1)
used-Body w ((s, suc a) ∷ bs) f = (
  λ q l u. inl (omega (arith, f.0), l, omega (arith, u)),
  map-All (Within (λ q. Body q (w + s) bs)) (Within (λ q. Body q w ((s, suc a) ∷ bs)))
      (λ b k q l u. inr (k q l u)) (used (w + s) bs) (used-Body (w + s) bs f.1),
)

-- What holds of the words of allocated blocks holds of those of held ones.
held_words :
    (P : ℕ → Type 0) (held us : List (ℕ × ℕ))
    → Cover held us
    → All (Within P) us
    → All (λ b. (q : ℕ) → Inside q b → P q) held
held_words P held us c a =
    Cover-All (Within P) (λ b. (q : ℕ) → Inside q b → P q)
      (λ p n size le k q i. k q i.0 (omega (arith, i.1))) held us c a

-- A client that asks for no 0 bytes and never for so many that mem_sbrk wraps, and that frees only
-- what it holds and writes only within it, finds every word of its blocks as
-- it has last written it, or as the word was when it got the block, after any calls of mm_malloc and
-- mm_free from mm_init on.
pub Session-Reads :
    (h : Heap) (held : List (ℕ × ℕ)) (known : ℕ → ℕ)
    → Session h held known
    → All (Reads h known) held
Session-Reads _ _ _ (begins base mem h known a b e) = tt
Session-Reads _ _ _ (gets h rest known fuel size ptr h' s low high e) =
    let (bs, (xs, (i, c))) = Session-Holds h rest known s in
    let (cs, (ys, (us, (vs, (n, (j, e1, e2, le, align, head, keeps)))))) =
      mm_malloc-ended h fuel size bs xs (some ptr, h') i low high e in
    let now = learned known h' ptr size in
    let words =
      held_words (λ q. Body q (first h) bs) rest (used (first h) bs) c
        (used-Body (first h) bs i.fine) in
    (
      λ q in_block. ground arith,
      All-map (λ b. (q : ℕ) → Inside q b → Body q (first h) bs) (Reads h known) (Reads h' now)
          (λ b k r q in_block. let same = keeps q (k q in_block) ∙ r q in_block in ground arith)
          rest words (Session-Reads h rest known s),
    )
Session-Reads _ _ _ (fails h held known fuel size h' s low high e) =
    let (bs, (xs, (i, c))) = Session-Holds h held known s in
    let same : h' ≡ h = mm_malloc-ended h fuel size bs xs (none, h') i low high e in
    subst (λ o. All (Reads o known) held) (sym same) (Session-Reads h held known s)
Session-Reads _ _ _ (frees h us ptr size vs known s) =
    let (bs, (xs, (i, c))) = Session-Holds h (us ++ (ptr, size) ∷ vs) known s in
    let (ls, (n, (rs, (e, le, c')))) = Cover-free us (ptr, size) vs (used (first h) bs) c in
    let (pre, (post, (split, at, before, behind))) = used_at (first h) bs ls ptr n rs i.fine e in
    let (cs, (ys, (j, same, head, keeps))) =
      mm_free-IsHeap h pre n post xs (subst (λ o. IsHeap h o xs) split i) in
    let w = end (first h) pre in
    let (fine, fine') = Fine-parts pre ((n, 1) ∷ post) (subst Fine split i.fine) in
    let outer =
      All-append (Within (λ q. Outer q h pre (w + n) post)) (used (first h) pre) (used (w + n) post)
        (map-All (Within (λ q. Body q (first h) pre)) (Within (λ q. Outer q h pre (w + n) post))
          (λ b k q l u. inl (k q l u)) (used (first h) pre) (used-Body (first h) pre fine))
        (map-All (Within (λ q. Body q (w + n) post)) (Within (λ q. Outer q h pre (w + n) post))
          (λ b k q l u. inr (k q l u)) (used (w + n) post) (used-Body (w + n) post fine'.1)) in
    let lists : used (first h) pre ++ used (w + n) post ≡ ls ++ rs =
      ap (λ l. l ++ used (w + n) post) before ∙ ap (λ l. ls ++ l) behind in
    let words =
      held_words (λ q. Outer q h pre (w + n) post) (us ++ vs) (ls ++ rs) c'
        (subst (All (Within (λ q. Outer q h pre (w + n) post))) lists outer) in
    subst (λ o. All (Reads (mm_free h o) known) (us ++ vs)) at
      (All-map (λ b. (q : ℕ) → Inside q b → Outer q h pre (w + n) post) (Reads h known)
        (Reads (mm_free h (w + 4)) known)
        (λ b k r q in_block. keeps q (k q in_block) ∙ r q in_block) (us ++ vs) words
        (All-rest (Reads h known) us (ptr, size) vs
          (Session-Reads h (us ++ (ptr, size) ∷ vs) known s)).1)
Session-Reads _ _ _ (writes h us ptr size vs known q v s inside align) =
    map-All (Reads h known) (Reads (put h q v) (write_word known q v))
      (λ b r p in_block.
        let e = r p in_block in ap (λ (k : Heap). k.mem p) (put_with h q v) ∙ ground arith)
      (us ++ (ptr, size) ∷ vs) (Session-Reads h (us ++ (ptr, size) ∷ vs) known s)
