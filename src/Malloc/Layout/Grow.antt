-- ===== src/Malloc/Layout/Grow.antt =====
-- prj3/prj3-malloc/mm.c: `grow` on the list of blocks.
use system_programing.Common.{
  ℕ, ◌+◌, ◌-◌, ◌*◌, ◌/◌, ◌%◌, ◌^◌, ◌≤◌, ◌<◌, ◌≡◌, refl, sym, subst, ap, ◌∙◌, arith, inl, inr, List,
  [], ◌∷◌, ◌++◌, append-nil, ◌==◌, if◌then◌else◌, Option, none, some, All, Bool-cases,
}
use Prim.Native.Nat.{max}
use system_programing.Malloc.{Heap, sub32, get_size, get_tag, block_size}
use system_programing.Malloc.Blocks.{extend_heap, place}
use system_programing.Malloc.Api.{grow}
use system_programing.Malloc.Layout.{Body, Block, Fine, end, last_used, count, used}
use system_programing.Malloc.Layout.Frame.{Body-between, Seg-split}
use system_programing.Malloc.Layout.Bag.{
  count_free-append, Fine-parts, end-append, last_used-append, used-append, last_free,
  last_free-append, last_cases,
}
use system_programing.Malloc.Layout.Focus.{first, IsHeap}
use system_programing.Malloc.Layout.NewBlock.{extended-keeps}
use system_programing.Malloc.Layout.Mark.{hdrp_at}
use system_programing.Malloc.Layout.Split.{Sized}
use system_programing.Malloc.Layout.Placed.{Placed}
use system_programing.Malloc.Layout.Place.{place-Placed}
use system_programing.Malloc.Layout.NewBlock.{Tags-Seg}
use system_programing.Malloc.Layout.Extend.{extend_heap-Coalesced}

-- A block of at least `size + 4` bytes at the address that is now allocated besides the blocks `bs`,
-- and their words are as they were in `mem`.
abbrev pub Gave : ℕ → (ℕ → ℕ) → List Block → ℕ → ℕ × Heap → Type 0
Gave head mem bs size (ptr, h') =
    (cs : List Block) × ((ys : List ℕ) × ((us : List Block) × ((vs : List Block) × ((n : ℕ)
            × (IsHeap h' cs ys
                × (used (head + 16) bs ≡ us ++ vs)
                × (used (head + 16) cs ≡ us ++ (ptr, n) ∷ vs)
                × (size + 4 ≤ n)
                × (ptr % 8 ≡ 0)
                × (h'.free_head ≡ head)
                × ((q : ℕ) → Body q (head + 16) bs → h'.mem q ≡ mem q))))))

-- What a call for `size` bytes returns: the null pointer and the same heap; or an address that is a
-- multiple of 8, of a block that is now allocated besides the others and has room for the bytes.
abbrev pub Allocated : Heap → List Block → ℕ → Option ℕ × Heap → Type 0
Allocated h bs size (none, h') = h' ≡ h
Allocated h bs size (some ptr, h') = Gave h.free_head h.mem bs size (ptr, h')

end_aligned : (w : ℕ) (bs : List Block) → Fine bs → end w bs % 8 ≡ w % 8
end_aligned w [] f = refl
end_aligned w (b ∷ bs) f = omega (arith, end_aligned (w + b.0) bs f.1, f.0.0)

abbrev pub found : ℕ × Heap → Option ℕ × Heap
found r = (some r.0, r.1)

pub Placed-Allocated :
    {k : Heap} {pre : List Block} {s : ℕ} {post : List Block} {a : ℕ} {r : ℕ × Heap} (mem : ℕ → ℕ)
    (bs : List Block) (size : ℕ)
    → (p : Placed k pre s post a r)
    → used (first k) bs ≡ used (first k) pre ++ used (end (first k) pre + s) post
    → size + 4 ≤ a
    → ((q : ℕ) → Body q (first k) bs → p.mem q ≡ mem q)
    → Gave k.free_head mem bs size r
Placed-Allocated {k} {pre} {s} {post} {a} {r} mem bs size p e le keeps =
    let (fine, rest) = Fine-parts p.before ((p.size, 1) ∷ p.behind) p.heap.fine in
    let w = end (first k) p.before in
    subst (Gave k.free_head mem bs size) (sym p.at) (
      p.before ++ (p.size, 1) ∷ p.behind,
      (
        p.list,
        (
          used (first k) pre,
          (
            used (end (first k) pre + s) post,
            (
              p.size,
              (
                p.heap,
                e,
                used-append (first k) p.before ((p.size, 1) ∷ p.behind)
                    ∙ ap (λ l. l ++ (w + 4, p.size) ∷ used (w + p.size) p.behind) p.same_before
                    ∙ ap (λ l. used (first k) pre ++ (w + 4, p.size) ∷ l) p.same_behind,
                omega (arith, p.enough),
                omega (arith, end_aligned (first k) p.before fine, p.heap.bounds.aligned),
                refl,
                keeps,
              ),
            ),
          ),
        ),
      ),
    )

-- `grow` behind its call of `extend_heap`.
abbrev given : ℕ → Option ℕ × Heap → Option ℕ × Heap
given a (none, k) = (none, k)
given a (some bp, k) = found (place k bp a)

given_at :
    (a : ℕ) (o : Option ℕ) (k : Heap)
    → elim o [ none ↦ (none, k) | some bp ↦ (let b = place k bp a in (some b.0, b.1)) ]
      ≡ given a (o, k)
given_at a none k = refl
given_at a (some bp) k = refl

abbrev missing_bytes : Heap → ℕ → ℕ
missing_bytes h a =
    if get_tag h h.heap_tail == 0
    then sub32 (max a 4096) (get_size h (sub32 h.heap_tail 4))
    else max a 4096

grow_at : (h : Heap) (a : ℕ) → grow h a ≡ given a (extend_heap h (missing_bytes h a / 4))
unfolding grow
grow_at h a = let r = extend_heap h (missing_bytes h a / 4) in given_at a r.0 r.1

grown-Allocated :
    {h : Heap} {bs : List Block} {xs : List ℕ} (a missing size : ℕ)
    → IsHeap h bs xs
    → Sized a
    → size + 4 ≤ a
    → (missing % 8 ≡ 0) × (8 ≤ missing) × (h.mem_max_addr + missing < 2 ^ 32)
    → (16 ≤ last_free 0 bs + missing) × (a ≤ last_free 0 bs + missing)
    → Allocated h bs size (given a (extend_heap h (missing / 4)))
grown-Allocated {h} {bs} {xs} a missing size i sized le m l =
    elim (extend_heap-Coalesced missing i m.0 m.1 l.0 m.2) [
      | inl e ↦ subst (λ o. Allocated h bs size (given a o)) (sym e) refl
      | inr (r, (e, c)) ↦
          let p = place-Placed a c.focus c.tight sized (omega (arith, c.reach)) in
          let u = c.same_used ∙ append-nil (used (first h) bs) in
          subst (λ o. Allocated h bs size (given a o)) (sym (e ∙ ap found c.at))
            (Placed-Allocated h.mem bs size p (sym u) le (λ q b.
              p.keeps q (c.outer q (inl b))
              ∙ c.keeps q (inl b)
              ∙ extended-keeps h bs missing q m.1 (Body-between q (first h) bs b).1))
    ]

All-at : (P : ℕ → Type 0) (x : ℕ) (xs : List ℕ) → All P xs → 0 < count x xs → P x
All-at P x [] a c = absurd (omega arith)
All-at P x (y ∷ xs) a c = elim (Bool-cases (y == x)) [
  | inl same ↦ subst P (ground arith) a.0
  | inr other ↦ All-at P x xs a.1 (ground arith)
]

-- The free last block as `grow` reads it.
last_at :
    {h : Heap} {xs : List ℕ} (cs : List Block) (t a : ℕ)
    → IsHeap h (cs ++ (t, 0) ∷ []) xs
    → All (λ x. block_size h x < a) xs
    → (get_size h (sub32 h.heap_tail 4) ≡ t) × (t < a) × (t % 8 ≡ 0) × (16 ≤ t)
unfolding block_size
last_at {h} {xs} cs t a i small =
    let w = end (first h) cs in
    let (seg, tail) = Tags-Seg h.mem 1 (first h) (cs ++ (t, 0) ∷ []) i.tags in
    let (seg', (pair, rest)) = Seg-split h.mem 1 (first h) cs ((t, 0) ∷ []) seg in
    let (fine, last) = Fine-parts cs ((t, 0) ∷ []) i.fine in
    let e = end-append (first h) cs ((t, 0) ∷ []) in
    let b = i.bounds in
    let at : sub32 h.heap_tail 4 ≡ w + t - 4 = omega (arith, b.tail, b.brk, b.room, b.low) in
    let foot : h.mem (w + t - 4) / 8 * 8 ≡ t = elim pair.1 [
      | inl z ↦ absurd (omega (arith, z))
      | inr z ↦ z
    ] in
    let c : 0 < count (w + 4) xs =
      ground (arith, i.bag (w + 4), count_free-append (w + 4) (first h) cs ((t, 0) ∷ [])) in
    let less = All-at (λ x. block_size h x < a) (w + 4) xs small c in
    let hd : block_size h (w + 4) ≡ t =
      ap (get_size h) (hdrp_at w (omega (arith, b.tail, b.brk, b.room, b.low))) ∙ pair.0.0 in
    (ap (get_size h) at ∙ foot, omega arith, last.0.0, last.0.1)

pub grow-Allocated :
    {h : Heap} {bs : List Block} {xs : List ℕ} (a size : ℕ)
    → IsHeap h bs xs
    → Sized a
    → h.mem_max_addr + max a 4096 < 2 ^ 32
    → size + 4 ≤ a
    → All (λ x. block_size h x < a) xs
    → Allocated h bs size (grow h a)
grow-Allocated {h} {bs} {xs} a size i sized b le small =
    let tag : get_tag h h.heap_tail ≡ last_used 1 bs =
      ap (get_tag h) i.bounds.tail ∙ (Tags-Seg h.mem 1 (first h) bs i.tags).1.2 in
    subst (Allocated h bs size) (sym (grow_at h a)) (elim (last_cases bs i.fine) [
      | inl (u, f) ↦
          let m : missing_bytes h a ≡ max a 4096 = ground arith in
          subst (λ o. Allocated h bs size (given a (extend_heap h (o / 4)))) (sym m)
            (grown-Allocated a (max a 4096) size i sized le
              (ground arith, ground arith, ground arith) (ground arith, ground arith))
      | inr (cs, (t, e)) ↦
          let k = last_at cs t a (subst (λ l. IsHeap h l xs) e i) small in
          let u : last_used 1 bs ≡ 0 = ap (last_used 1) e ∙ last_used-append 1 cs ((t, 0) ∷ []) in
          let f : last_free 0 bs ≡ t = ap (last_free 0) e ∙ last_free-append 0 cs ((t, 0) ∷ []) in
          let m : missing_bytes h a ≡ max a 4096 - t = ground arith in
          subst (λ o. Allocated h bs size (given a (extend_heap h (o / 4)))) (sym m)
            (grown-Allocated a (max a 4096 - t) size i sized le
              (ground arith, ground arith, ground arith) (ground arith, ground arith))
    ])
