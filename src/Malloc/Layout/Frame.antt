-- ===== src/Malloc/Layout/Frame.antt =====
-- prj3/prj3-malloc/mm.c: what a change of the memory leaves of the blocks.
use system_programing.Common.{
  ℕ, ◌+◌, ◌-◌, ◌*◌, ◌/◌, ◌%◌, ◌≤◌, ◌<◌, ◌≡◌, ◌≢◌, arith, ◌⊎◌, inl, inr, List, [], ◌∷◌, ◌++◌, ◌==◌,
  if◌then◌else◌,
}
use system_programing.Malloc.Layout.{
  Block, Seg, Tags, Fine, end, last_used, count_free, Aside, Body,
}

pub le-end : (w : ℕ) (bs : List Block) → w ≤ end w bs
le-end w [] = omega arith
le-end w (b ∷ bs) = omega (arith, le-end (w + b.0) bs)

-- The blocks from `w` on keep their words where all words from `w` on are kept.
Tags-above :
    (m n : ℕ → ℕ) (u w : ℕ) (bs : List Block)
    → ((q : ℕ) → w ≤ q → n q ≡ m q)
    → Fine bs
    → Tags m u w bs
    → Tags n u w bs
Tags-above m n u w [] k f t = let e = k w (omega arith) in ground arith
Tags-above m n u w (b ∷ bs) k f t =
    let e = k w (omega arith) in
    let e' = k (w + b.0 - 4) (omega arith) in
    (ground arith, Tags-above m n b.1 (w + b.0) bs (λ q l. k q (omega arith)) f.1 t.1)

-- The first header may get another tag.
pub Tags-retag :
    (m n : ℕ → ℕ) (u u' w : ℕ) (bs : List Block)
    → ((q : ℕ) → w < q → n q ≡ m q)
    → (n w / 8 * 8 ≡ m w / 8 * 8) × (n w % 2 ≡ m w % 2) × (n w / 2 % 2 ≡ u')
    → Fine bs
    → Tags m u w bs
    → Tags n u' w bs
Tags-retag m n u u' w [] k e f t = ground arith
Tags-retag m n u u' w (b ∷ bs) k e f t =
    let e' = k (w + b.0 - 4) (omega arith) in
    (ground arith, Tags-above m n b.1 (w + b.0) bs (λ q l. k q (omega arith)) f.1 t.1)

-- The blocks up to `end w bs` keep their words where all words below it are kept.
pub Seg-below :
    (m n : ℕ → ℕ) (u w : ℕ) (bs : List Block)
    → ((q : ℕ) → q < end w bs → n q ≡ m q)
    → Fine bs
    → Seg m u w bs
    → Seg n u w bs
Seg-below m n u w [] k f t = tt
Seg-below m n u w (b ∷ bs) k f t =
    let l = le-end (w + b.0) bs in
    let e = k w (omega arith) in
    let e' = k (w + b.0 - 4) (omega arith) in
    (ground arith, Seg-below m n b.1 (w + b.0) bs k f.1 t.1)

pub Tags-split :
    (m : ℕ → ℕ) (u w : ℕ) (bs cs : List Block)
    → Tags m u w (bs ++ cs)
    → Seg m u w bs × Tags m (last_used u bs) (end w bs) cs
Tags-split m u w [] cs t = (tt, t)
Tags-split m u w (b ∷ bs) cs t = let (s, r) = Tags-split m b.1 (w + b.0) bs cs t.1 in ((t.0, s), r)

pub Tags-join :
    (m : ℕ → ℕ) (u w : ℕ) (bs cs : List Block)
    → Seg m u w bs
    → Tags m (last_used u bs) (end w bs) cs
    → Tags m u w (bs ++ cs)
Tags-join m u w [] cs s t = t
Tags-join m u w (b ∷ bs) cs s t = (s.0, Tags-join m b.1 (w + b.0) bs cs s.1 t)

pub Tags-head : (m : ℕ → ℕ) (u w : ℕ) (bs : List Block) → Tags m u w bs → m w / 2 % 2 ≡ u
Tags-head m u w [] t = t.2
Tags-head m u w (b ∷ bs) t = t.0.0.2

pub Seg-split :
    (m : ℕ → ℕ) (u w : ℕ) (bs cs : List Block)
    → Seg m u w (bs ++ cs)
    → Seg m u w bs × Seg m (last_used u bs) (end w bs) cs
Seg-split m u w [] cs t = (tt, t)
Seg-split m u w (b ∷ bs) cs t = let (s, r) = Seg-split m b.1 (w + b.0) bs cs t.1 in ((t.0, s), r)

pub Seg-join :
    (m : ℕ → ℕ) (u w : ℕ) (bs cs : List Block)
    → Seg m u w bs
    → Seg m (last_used u bs) (end w bs) cs
    → Seg m u w (bs ++ cs)
Seg-join m u w [] cs s t = t
Seg-join m u w (b ∷ bs) cs s t = (s.0, Seg-join m b.1 (w + b.0) bs cs s.1 t)

count_free_cases :
    (x w : ℕ) (b : Block) (bs : List Block)
    → 0 < count_free x w (b ∷ bs)
    → ((b.1 ≡ 0) × (w + 4 ≡ x)) ⊎ (0 < count_free x (w + b.0) bs)
count_free_cases x w b bs c = ground arith

-- The payload of a free block lies between the ends of the list.
pub count_free-between :
    (x w : ℕ) (bs : List Block)
    → Fine bs
    → 0 < count_free x w bs
    → (w + 4 ≤ x) × (x + 12 ≤ end w bs)
count_free-between x w [] f c = absurd (omega arith)
count_free-between x w (b ∷ bs) f c =
    let l = le-end (w + b.0) bs in
    elim (count_free_cases x w b bs c) [
      | inl here ↦ ground arith
      | inr there ↦ let r = count_free-between x (w + b.0) bs f.1 there in omega arith
    ]

pub Aside-low : (a w : ℕ) (bs : List Block) → a < w → Fine bs → Aside a w bs
Aside-low a w [] l f = omega arith
Aside-low a w (b ∷ bs) l f = (omega arith, omega arith, Aside-low a (w + b.0) bs (omega arith) f.1)

pub Aside-high : (a w : ℕ) (bs : List Block) → end w bs < a → Aside a w bs
Aside-high a w [] l = omega arith
Aside-high a w (b ∷ bs) l =
    let e = le-end (w + b.0) bs in (omega arith, omega arith, Aside-high a (w + b.0) bs l)

-- Both link words of a free block are aside from the headers and footers.
pub Aside-links :
    (x w : ℕ) (bs : List Block)
    → Fine bs
    → 0 < count_free x w bs
    → Aside x w bs × Aside (x + 4) w bs
Aside-links x w [] f c = absurd (omega arith)
Aside-links x w (b ∷ bs) f c = elim (count_free_cases x w b bs c) [
  | inl here ↦ (
    (omega arith, omega arith, Aside-low x (w + b.0) bs (omega arith) f.1),
    (omega arith, omega arith, Aside-low (x + 4) (w + b.0) bs (omega arith) f.1),
  )
  | inr there ↦
      let (i, j) = Aside-links x (w + b.0) bs f.1 there in
      let r = count_free-between x (w + b.0) bs f.1 there in
      ((omega arith, omega arith, i), (omega arith, omega arith, j))
]

-- The blocks stay where all but two words aside from them do.
pub Tags-Aside :
    (m n : ℕ → ℕ) (p q u w : ℕ) (bs : List Block)
    → ((r : ℕ) → r ≢ p → r ≢ q → n r ≡ m r)
    → Aside p w bs
    → Aside q w bs
    → Tags m u w bs
    → Tags n u w bs
Tags-Aside m n p q u w [] k a b t = let e = k w (omega arith) (omega arith) in ground arith
Tags-Aside m n p q u w (c ∷ bs) k a b t =
    let e = k w (omega arith) (omega arith) in
    let e' = k (w + c.0 - 4) (omega arith) (omega arith) in
    (ground arith, Tags-Aside m n p q c.1 (w + c.0) bs k a.2 b.2 t.1)

pub Seg-Aside :
    (m n : ℕ → ℕ) (p q u w : ℕ) (bs : List Block)
    → ((r : ℕ) → r ≢ p → r ≢ q → n r ≡ m r)
    → Aside p w bs
    → Aside q w bs
    → Seg m u w bs
    → Seg n u w bs
Seg-Aside m n p q u w [] k a b t = tt
Seg-Aside m n p q u w (c ∷ bs) k a b t =
    let e = k w (omega arith) (omega arith) in
    let e' = k (w + c.0 - 4) (omega arith) (omega arith) in
    (ground arith, Seg-Aside m n p q c.1 (w + c.0) bs k a.2 b.2 t.1)

-- The same for four words.
pub Tags-Aside_four :
    (m n : ℕ → ℕ) (p q p' q' u w : ℕ) (bs : List Block)
    → ((r : ℕ) → r ≢ p → r ≢ q → r ≢ p' → r ≢ q' → n r ≡ m r)
    → Aside p w bs × Aside q w bs
    → Aside p' w bs × Aside q' w bs
    → Tags m u w bs
    → Tags n u w bs
Tags-Aside_four m n p q p' q' u w bs k a b t =
    let o = λ (r : ℕ). if r == p then n r else if r == q then n r else m r in
    Tags-Aside o n p' q' u w bs (λ r i j. ground (arith, k r)) b.0 b.1
      (Tags-Aside m o p q u w bs (λ r i j. ground arith) a.0 a.1 t)

pub Body-between : (q w : ℕ) (bs : List Block) → Body q w bs → (w + 4 ≤ q) × (q < end w bs)
Body-between q w [] i = absurd i
Body-between q w (b ∷ bs) (inl i) = let l = le-end (w + b.0) bs in (i.1, omega (arith, i.2))
Body-between q w (b ∷ bs) (inr i) =
    let r = Body-between q (w + b.0) bs i in (omega (arith, r.0), r.1)

-- The link words of free blocks are in no allocated block.
pub Body-links :
    (q x w : ℕ) (bs : List Block)
    → Fine bs
    → 0 < count_free x w bs
    → Body q w bs
    → (q ≢ x) × (q ≢ x + 4)
Body-links q x w [] f c i = absurd i
Body-links q x w (b ∷ bs) f c (inl i) = elim (count_free_cases x w b bs c) [
  | inl here ↦ absurd (omega (arith, i.0, here.0))
  | inr there ↦
      let r = count_free-between x (w + b.0) bs f.1 there in
      (omega (arith, i.2), omega (arith, i.2))
]
Body-links q x w (b ∷ bs) f c (inr i) = elim (count_free_cases x w b bs c) [
  | inl here ↦ let r = Body-between q (w + b.0) bs i in (omega (arith, f.0), omega (arith, f.0))
  | inr there ↦ Body-links q x (w + b.0) bs f.1 there i
]

pub Body-append :
    (q w : ℕ) (bs cs : List Block) → Body q w (bs ++ cs) → Body q w bs ⊎ Body q (end w bs) cs
Body-append q w [] cs i = inr i
Body-append q w (b ∷ bs) cs (inl i) = inl (inl i)
Body-append q w (b ∷ bs) cs (inr i) = elim (Body-append q (w + b.0) bs cs i) [
  | inl j ↦ inl (inr j)
  | inr j ↦ inr j
]

pub Body-left : (q w : ℕ) (bs cs : List Block) → Body q w bs → Body q w (bs ++ cs)
Body-left q w [] cs i = absurd i
Body-left q w (b ∷ bs) cs (inl i) = inl i
Body-left q w (b ∷ bs) cs (inr i) = inr (Body-left q (w + b.0) bs cs i)

-- Around a stretch of the heap, such a word is not in it and is no header behind it.
pub Body-around :
    (q w e : ℕ) (pre post : List Block) → Body q w pre ⊎ Body q e post → (q < end w pre) ⊎ (e < q)
Body-around q w e pre post (inl i) = inl (Body-between q w pre i).1
Body-around q w e pre post (inr i) = let r = Body-between q e post i in inr (omega (arith, r.0))
