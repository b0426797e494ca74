-- ===== src/Malloc/Layout/Focus.antt =====
-- prj3/prj3-malloc/mm.c: the state of the heap around one block.
use system_programing.Common.{
  ℕ, ◌+◌, ◌*◌, ◌/◌, ◌%◌, ◌^◌, ◌≤◌, ◌<◌, ◌≡◌, arith, ◌⊎◌, inl, inr, List, ◌∷◌, All, All-map,
}
use system_programing.Malloc.{Heap}
use system_programing.Malloc.FreeList.{
  Ring, with_mem, Kept, Links-Kept, Nodes-Apart, Nodes-start, Fits, Apart,
}
use system_programing.Malloc.Layout.{
  Block, Head, Foot, Seg, Tags, Fine, Spread, end, last_used, count_free, count,
}
use system_programing.Malloc.Layout.Frame.{count_free-between, le-end, Seg-below, Tags-retag}
use system_programing.Malloc.Layout.Bag.{All-of_count}

-- The header of the first block, behind the prologue.
abbrev pub first : Heap → ℕ
first h = h.free_head + 16

-- The globals fit a heap whose epilogue header is at `e`, and addresses do not wrap.
pub record Bounds (h : Heap) (e : ℕ) : Type 0 where
  pub tail : h.heap_tail ≡ e
  pub brk : h.mem_brk ≡ e + 4
  pub room : h.mem_brk ≤ h.mem_max_addr
  pub low : h.mem_max_addr + 8 ≤ 2 ^ 32
  pub aligned : h.free_head % 8 ≡ 4

-- A block in the focus may be of 8 bytes.
abbrev pub Even : Block → Type 0
Even b = (b.0 % 8 ≡ 0) × (8 ≤ b.0) × (b.1 < 2)

-- The block `b` between `pre` and `post` is not on the free list; all other free blocks are, once.
pub record Focus (h : Heap) (pre : List Block) (b : Block) (post : List Block) (xs : List ℕ)
    : Type 0 where
  pub seg : Seg h.mem 1 (first h) pre
  pub mid : Tags h.mem (last_used 1 pre) (end (first h) pre) (b ∷ post)
  pub fine : Fine pre × (Even b × Fine post)
  pub ring : Ring h xs
  pub bag :
      (x : ℕ)
      → count x xs ≡ count_free x (first h) pre + count_free x (end (first h) pre + b.0) post
  pub bounds : Bounds h (end (end (first h) pre + b.0) post)

-- The heap as a list of blocks and the free list: every free block is on the list once, and no two
-- free blocks are neighbours.
pub record IsHeap (h : Heap) (bs : List Block) (xs : List ℕ) : Type 0 where
  pub tags : Tags h.mem 1 (first h) bs
  pub fine : Fine bs
  pub spread : Spread 1 bs
  pub ring : Ring h xs
  pub bag : (x : ℕ) → count x xs ≡ count_free x (first h) bs
  pub bounds : Bounds h (end (first h) bs)

pub Bounds-mem : (h : Heap) (m : ℕ → ℕ) (e : ℕ) → Bounds h e → Bounds (with_mem h m) e
Bounds-mem h m e b = record {
  tail = b.tail;
  brk = b.brk;
  room = b.room;
  low = b.low;
  aligned = b.aligned;
}

Kept-links :
    (h : Heap) (m : ℕ → ℕ) (lo hi x : ℕ)
    → ((q : ℕ) → (q < lo) ⊎ (hi < q) → m q ≡ h.mem q)
    → Fits x
    → (x + 8 ≤ lo) ⊎ (hi < x)
    → Kept m h.mem x
Kept-links h m lo hi x k f (inl o) =
    let e = k (x + 4) (inl (omega arith)) in (k x (inl (omega arith)), ground arith)
Kept-links h m lo hi x k f (inr o) =
    let e = k (x + 4) (inr (omega arith)) in (k x (inr (omega arith)), ground arith)

-- The free list survives changes between two addresses where no listed block lies.
pub Ring-kept :
    (h : Heap) (m : ℕ → ℕ) (lo hi : ℕ) (xs : List ℕ)
    → ((q : ℕ) → (q < lo) ⊎ (hi < q) → m q ≡ h.mem q)
    → h.free_head + 8 ≤ lo
    → All (λ x. (x + 8 ≤ lo) ⊎ (hi < x)) xs
    → Ring h xs
    → Ring (with_mem h m) xs
Ring-kept h m lo hi xs k l a r =
    let start = Nodes-start h.free_head xs h.free_head r.1 in
    let e = k (h.free_head + 4) (inl (omega arith)) in
    (
      Links-Kept h m h.free_head xs h.free_head (ground arith)
          (All-map (λ x. Fits x × Apart x h.free_head) (λ x. (x + 8 ≤ lo) ⊎ (hi < x)) (Kept m h.mem)
            (λ x f o. Kept-links h m lo hi x k f.0 o) xs
            (Nodes-Apart h.free_head xs h.free_head r.1) a)
          (k h.free_head (inl (omega arith))) r.0,
      r.1,
    )

one_positive : (a b : ℕ) → 0 < a + b → (0 < a) ⊎ (0 < b)
one_positive a b c = ground arith

-- The listed blocks lie before the header of the focus or behind its end.
pub around-Focus :
    {h : Heap} {pre : List Block} {b : Block} {post : List Block} {xs : List ℕ}
    → Focus h pre b post xs
    → All (λ x. (x + 8 ≤ end (first h) pre) ⊎ (end (first h) pre + b.0 < x)) xs
around-Focus {h} {pre} {b} {post} {xs} f = All-of_count _ xs (λ x c.
    let w = end (first h) pre in
    elim (one_positive (count_free x (first h) pre) (count_free x (w + b.0) post)
      (omega (arith, f.bag x))) [
        | inl p ↦ let r = count_free-between x (first h) pre f.fine.0 p in inl (omega arith)
        | inr p ↦ let r = count_free-between x (w + b.0) post f.fine.1.1 p in inr (omega arith)
      ])

-- The words of the header at `e` but for its tag, which is `u`.
abbrev pub Retagged : (ℕ → ℕ) → (ℕ → ℕ) → ℕ → ℕ → Type 0
Retagged m n e u = (n e / 8 * 8 ≡ m e / 8 * 8) × (n e % 2 ≡ m e % 2) × (n e / 2 % 2 ≡ u)

-- Nothing outside of the words from `w` to `e` changes.
abbrev pub SameOutside : (ℕ → ℕ) → (ℕ → ℕ) → ℕ → ℕ → Type 0
SameOutside m n w e = (q : ℕ) → (q < w) ⊎ (e < q) → n q ≡ m q

-- The block in the focus gets another allocated bit.
pub Focus-set :
    {h : Heap} {pre : List Block} {b : Block} {post : List Block} {xs : List ℕ} (m : ℕ → ℕ) (a : ℕ)
    → Focus h pre b post xs
    → SameOutside h.mem m (end (first h) pre) (end (first h) pre + b.0)
    → Head m (last_used 1 pre) (end (first h) pre) (b.0, a)
    → Foot m (end (first h) pre) (b.0, a)
    → Retagged h.mem m (end (first h) pre + b.0) a
    → a < 2
    → Focus (with_mem h m) pre (b.0, a) post xs
Focus-set {h} {pre} {b} {post} {xs} m a f k head foot tag two =
    let w = end (first h) pre in
    let l = le-end (first h) pre in
    record {
      seg = Seg-below h.mem m 1 (first h) pre (λ q p. k q (inl p)) f.fine.0 f.seg;
      mid = (
        (head, foot),
        Tags-retag h.mem m b.1 a (w + b.0) post (λ q p. k q (inr p)) tag f.fine.1.1 f.mid.1,
      );
      fine = (f.fine.0, ((f.fine.1.0.0, f.fine.1.0.1, two), f.fine.1.1));
      ring = Ring-kept h m w (w + b.0) xs k (omega arith) (around-Focus f) f.ring;
      bag = f.bag;
      bounds = Bounds-mem h m _ f.bounds;
    }
