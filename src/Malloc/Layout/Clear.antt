-- ===== src/Malloc/Layout/Clear.antt =====
-- prj3/prj3-malloc/mm.c: a part of the heap that is in change, and what is clear of the blocks around it.
use system_programing.Common.{ℕ, ◌+◌, ◌≤◌, ◌<◌, ◌≡◌, ◌≢◌, arith, ◌⊎◌, inl, inr, List}
use system_programing.Malloc.{Heap}
use system_programing.Malloc.FreeList.{Ring}
use system_programing.Malloc.Layout.{Block, Seg, Tags, Fine, end, count_free, count, Aside, Body}
use system_programing.Malloc.Layout.Frame.{
  Body-between, Body-links, count_free-between, le-end, Aside-low, Aside-high, Aside-links,
}
use system_programing.Malloc.Layout.Focus.{first, Bounds}

-- The heap but for the words from the header behind `pre` up to the header at `e`, whose tag is `v`.
pub record Gap (h : Heap) (pre : List Block) (v e : ℕ) (post : List Block) : Type 0 where
  pub seg : Seg h.mem 1 (first h) pre
  pub mid : Tags h.mem v e post
  pub fine : Fine pre × Fine post
  pub wide : end (first h) pre + 8 ≤ e
  pub bounds : Bounds h (end e post)

-- The free list has the free blocks around the gap, each once.
abbrev pub Listed : Heap → List Block → ℕ → List Block → List ℕ → Type 0
Listed h pre e post xs =
    Ring h xs × ((x : ℕ) → count x xs ≡ count_free x (first h) pre + count_free x e post)

-- A word of an allocated block around the gap.
abbrev pub Outer : ℕ → Heap → List Block → ℕ → List Block → Type 0
Outer q h pre e post = Body q (first h) pre ⊎ Body q e post

-- No header or footer of the blocks around the gap, nor a word in it or in an allocated block.
abbrev pub Clear : ℕ → Heap → List Block → ℕ → List Block → Type 0
Clear a h pre e post =
    Aside a (first h) pre
    × Aside a e post
    × ((a < end (first h) pre) ⊎ (e < a))
    × ((q : ℕ) → Outer q h pre e post → q ≢ a)

pub Outer-between :
    {h : Heap} {pre : List Block} {v e : ℕ} {post : List Block} (q : ℕ)
    → Gap h pre v e post
    → Outer q h pre e post
    → (first h + 4 ≤ q) × ((q < end (first h) pre) ⊎ (e + 4 ≤ q))
Outer-between {h} {pre} {v} {e} {post} q g (inl i) =
    let r = Body-between q (first h) pre i in (r.0, inl r.1)
Outer-between {h} {pre} {v} {e} {post} q g (inr i) =
    let r = Body-between q e post i in
    let l = le-end (first h) pre in (omega (arith, g.wide), inr r.0)

pub Clear-low :
    {h : Heap} {pre : List Block} {v e : ℕ} {post : List Block} (a : ℕ)
    → Gap h pre v e post
    → a < first h
    → Clear a h pre e post
Clear-low {h} {pre} {v} {e} {post} a g l =
    let b = le-end (first h) pre in
    (
      Aside-low a (first h) pre l g.fine.0,
      Aside-low a e post (omega (arith, g.wide)) g.fine.1,
      inl (omega arith),
      λ q o. omega (arith, Outer-between q g o),
    )

pub either : (x : ℕ) (a b : ℕ) → 0 < a + b → (0 < a) ⊎ (0 < b)
either x a b c = ground arith

Outer-links :
    {h : Heap} {pre : List Block} {v e : ℕ} {post : List Block} (q y : ℕ)
    → Gap h pre v e post
    → 0 < count_free y (first h) pre + count_free y e post
    → Outer q h pre e post
    → (q ≢ y) × (q ≢ y + 4)
Outer-links {h} {pre} {v} {e} {post} q y g c o =
    let wide = g.wide in
    elim (either y (count_free y (first h) pre) (count_free y e post) c) [
      | inl p ↦
          let b = count_free-between y (first h) pre g.fine.0 p in
          elim o [
            | inl i ↦ Body-links q y (first h) pre g.fine.0 p i
            | inr i ↦ let r = Body-between q e post i in (omega arith, omega arith)
          ]
      | inr p ↦
          let b = count_free-between y e post g.fine.1 p in
          elim o [
            | inl i ↦ let r = Body-between q (first h) pre i in (omega arith, omega arith)
            | inr i ↦ Body-links q y e post g.fine.1 p i
          ]
    ]

pub Clear-links :
    {h : Heap} {pre : List Block} {v e : ℕ} {post : List Block} (y : ℕ)
    → Gap h pre v e post
    → 0 < count_free y (first h) pre + count_free y e post
    → Clear y h pre e post × Clear (y + 4) h pre e post × (y + 12 ≤ end e post)
Clear-links {h} {pre} {v} {e} {post} y g c =
    let apart = λ (q : ℕ). Outer-links q y g c in
    elim (either y (count_free y (first h) pre) (count_free y e post) c) [
      | inl p ↦
          let b = count_free-between y (first h) pre g.fine.0 p in
          let (i, j) = Aside-links y (first h) pre g.fine.0 p in
          let wide = g.wide in
          let l = le-end e post in
          (
            (i, Aside-low y e post (omega arith) g.fine.1, inl (omega arith), λ q o. (apart q o).0),
            (
              j,
              Aside-low (y + 4) e post (omega arith) g.fine.1,
              inl (omega arith),
              λ q o. (apart q o).1,
            ),
            omega arith,
          )
      | inr p ↦
          let b = count_free-between y e post g.fine.1 p in
          let (i, j) = Aside-links y e post g.fine.1 p in
          let wide = g.wide in
          (
            (Aside-high y (first h) pre (omega arith), i, inr (omega arith), λ q o. (apart q o).0),
            (
              Aside-high (y + 4) (first h) pre (omega arith),
              j,
              inr (omega arith),
              λ q o. (apart q o).1,
            ),
            b.1,
          )
    ]
