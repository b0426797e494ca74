-- ===== src/Malloc/Layout/Opening.antt =====
-- prj3/prj3-malloc/mm.c: a block and its free neighbours as one gap, and ERASE of the neighbours.
use system_programing.Common.{
  ℕ, ◌+◌, ◌-◌, ◌*◌, ◌/◌, ◌%◌, ◌^◌, ◌≤◌, ◌<◌, ◌≡◌, subst, ap, ◌∙◌, arith, ◌⊎◌, inl, inr, List, [],
  ◌∷◌, ◌++◌, ◌==◌, if◌then◌else◌,
}
use system_programing.Malloc.{Heap, or3, pack, put, get_size, set_size, erase}
use system_programing.Malloc.FreeList.{Ring, with_mem}
use system_programing.Malloc.Layout.{Block, Head, Tags, end, last_used, count_free, count}
use system_programing.Malloc.Layout.Frame.{le-end, Seg-split, Tags-head}
use system_programing.Malloc.Layout.Bag.{end-append, count_free-append, Fine-parts}
use system_programing.Malloc.Layout.Focus.{first, Bounds, Focus}
use system_programing.Malloc.Layout.Clear.{Outer, Gap, Listed}
use system_programing.Malloc.Layout.Gap.{Gap-fill, take_out, erase-Gap}
use system_programing.Malloc.Layout.Merge.{grown, grown_back}

-- The block of the focus and the free one behind it as one gap.
pub open_next :
    {h : Heap} {pre : List Block} {s t : ℕ} {post : List Block} {xs : List ℕ}
    → Focus h pre (s, 0) ((t, 0) ∷ post) xs
    → Gap h pre 0 (end (first h) pre + (s + t)) post
      × ((y : ℕ)
          → count y xs
            ≡ (if end (first h) pre + s + 4 == y then 1 else 0)
              + (count_free y (first h) pre + count_free y (end (first h) pre + (s + t)) post))
open_next {h} {pre} {s} {t} {post} {xs} f =
    let w = end (first h) pre in
    let p : w + s + t ≡ w + (s + t) = omega arith in
    (
      subst (λ e. Gap h pre 0 e post) p
          (record {
            seg = f.seg;
            mid = f.mid.1.1;
            fine = (f.fine.0, f.fine.1.1.1);
            wide = omega (arith, f.fine.1);
            bounds = f.bounds;
          }),
      λ y.
          subst
            (λ e.
              count y xs
              ≡ (if w + s + 4 == y then 1 else 0)
                + (count_free y (first h) pre + count_free y e post))
            p (omega (arith, f.bag y)),
    )

-- The gap between `pre` and `post` as one free block of `n` bytes.
pub Gap-grown :
    {h : Heap} {pre post : List Block} {xs : List ℕ} (n : ℕ)
    → Gap h pre 0 (end (first h) pre + n) post
    → Listed h pre (end (first h) pre + n) post xs
    → (h.mem (end (first h) pre) % 2 ≡ 0) × (h.mem (end (first h) pre) / 2 % 2 ≡ last_used 1 pre)
    → n % 8 ≡ 0
    → Focus (with_mem h (grown h (end (first h) pre) n).mem) pre (n, 0) post xs
unfolding put set_size or3 pack
Gap-grown {h} {pre} {post} {xs} n g listed hd f =
    let w = end (first h) pre in
    let tag = Tags-head h.mem 0 (w + n) post g.mid in
    let wide = g.wide in
    Gap-fill (grown h w n).mem n 0 g listed (λ q o. ground arith) (ground arith)
      (inr (ground arith)) (ground arith) (f, omega arith)

pub Gap-grown_back :
    {h : Heap} {pre post : List Block} {xs : List ℕ} (n : ℕ)
    → Gap h pre 0 (end (first h) pre + n) post
    → Listed h pre (end (first h) pre + n) post xs
    → (h.mem (end (first h) pre) % 2 ≡ 0) × (h.mem (end (first h) pre) / 2 % 2 ≡ last_used 1 pre)
    → n % 8 ≡ 0
    → Focus (with_mem h (grown_back h (end (first h) pre) n).mem) pre (n, 0) post xs
unfolding put set_size or3 pack
Gap-grown_back {h} {pre} {post} {xs} n g listed hd f =
    let w = end (first h) pre in
    let tag = Tags-head h.mem 0 (w + n) post g.mid in
    let wide = g.wide in
    Gap-fill (grown_back h w n).mem n 0 g listed (λ q o. ground arith) (ground arith)
      (inr (ground arith)) (ground arith) (f, omega arith)

widen :
    {h : Heap} {pre : List Block} {v e r a : ℕ} {post : List Block}
    → Gap h pre v e ((r, a) ∷ post)
    → Gap h pre a (e + r) post
widen {h} {pre} {v} {e} {r} {a} {post} g = record {
  seg = g.seg;
  mid = g.mid.1;
  fine = (g.fine.0, g.fine.1.1);
  wide = omega (arith, g.wide);
  bounds = g.bounds;
}

pub grown_same :
    (h : Heap) (w n q : ℕ)
    → 8 ≤ n
    → (q < w) ⊎ (w + n ≤ q)
    → ((grown h w n).mem q ≡ h.mem q) × ((grown_back h w n).mem q ≡ h.mem q)
unfolding put set_size
grown_same h w n q l o = (ground arith, ground arith)

-- A free block before the focus: the words of both, and both as one gap.
pub record Behind (h : Heap) (pre : List Block) (t s : ℕ) (post : List Block) (xs : List ℕ)
    : Type 0 where
  pub head : Head h.mem (last_used 1 pre) (end (first h) pre) (t, 0)
  pub foot : get_size h (end (first h) pre + t - 4) ≡ t
  pub size : get_size h (end (first h) pre + t) ≡ s
  pub fine : (t % 8 ≡ 0) × (16 ≤ t) × (s % 8 ≡ 0) × (8 ≤ s)
  pub gap : Gap h pre 0 (end (first h) pre + (s + t)) post
  pub bag :
      (y : ℕ)
      → count y xs
        ≡ (if end (first h) pre + 4 == y then 1 else 0)
          + (count_free y (first h) pre + count_free y (end (first h) pre + (s + t)) post)
  pub ring : Ring h xs
  pub room : end (end (first h) pre + (s + t)) post + 8 ≤ 2 ^ 32

end_prev :
    (w : ℕ) (pre : List Block) (t s : ℕ) → end w (pre ++ (t, 0) ∷ []) + s ≡ end w pre + (s + t)
end_prev w pre t s = omega (arith, end-append w pre ((t, 0) ∷ []))

pub behind :
    {h : Heap} {pre : List Block} {t s : ℕ} {post : List Block} {xs : List ℕ}
    → Focus h (pre ++ (t, 0) ∷ []) (s, 0) post xs
    → Behind h pre t s post xs
behind {h} {pre} {t} {s} {post} {xs} f =
    let w = end (first h) pre in
    let p = end-append (first h) pre ((t, 0) ∷ []) in
    let p' = end_prev (first h) pre t s in
    let (seg, (pair, tail)) = Seg-split h.mem 1 (first h) pre ((t, 0) ∷ []) f.seg in
    let (fine, last) = Fine-parts pre ((t, 0) ∷ []) f.fine.0 in
    let l = le-end (w + (s + t)) post in
    let b = subst (λ e. Bounds h (end e post)) p' f.bounds in
    record {
      head = pair.0;
      foot = elim pair.1 [ inl e ↦ absurd (omega (arith, e)) | inr e ↦ e ];
      size = subst (λ e. get_size h e ≡ s) p f.mid.0.0.0;
      fine = (last.0.0, last.0.1, f.fine.1.0.0, f.fine.1.0.1);
      gap = record {
        seg = seg;
        mid = subst (λ e. Tags h.mem 0 e post) p' f.mid.1;
        fine = (fine, f.fine.1.1);
        wide = omega (arith, f.fine.1.0.1);
        bounds = b;
      };
      bag = λ y.
          let c =
            subst
              (λ e. count y xs ≡ count_free y (first h) (pre ++ (t, 0) ∷ []) + count_free y e post)
              p' (f.bag y) in
          omega (arith, c, count_free-append y (first h) pre ((t, 0) ∷ []));
      ring = f.ring;
      room = omega (arith, b.brk, b.room, b.low);
    }

-- The gap of `n` bytes starts with a free block of `t` bytes and one of `s` bytes, both off the list.
pub record Open (h : Heap) (pre : List Block) (t s n : ℕ) (post : List Block) (xs : List ℕ)
    : Type 0 where
  pub size : get_size h (end (first h) pre) ≡ t
  pub word :
      (h.mem (end (first h) pre) % 2 ≡ 0) × (h.mem (end (first h) pre) / 2 % 2 ≡ last_used 1 pre)
  pub foot : get_size h (end (first h) pre + t - 4) ≡ t
  pub next : get_size h (end (first h) pre + t) ≡ s
  pub gap : Gap h pre 0 (end (first h) pre + n) post
  pub listed : Listed h pre (end (first h) pre + n) post xs

pub erase_behind :
    {h : Heap} {pre : List Block} {t s : ℕ} {post : List Block} {xs : List ℕ}
    → Behind h pre t s post xs
    → (ys : List ℕ) × ((m : ℕ → ℕ) × ((erase h (end (first h) pre + 4) ≡ with_mem h m)
          × Open (with_mem h m) pre t s (s + t) post ys
          × ((q : ℕ) → Outer q h pre (end (first h) pre + (s + t)) post → m q ≡ h.mem q)))
erase_behind {h} {pre} {t} {s} {post} {xs} v =
    let w = end (first h) pre in
    let (ys, (zs, (e, rest))) = take_out xs (w + 4) _ v.bag in
    let (m, (same, (g, listed), k, kept)) =
      erase-Gap ys (w + 4) zs (subst (Ring h) e v.ring) v.gap rest in
    let fine = v.fine in
    let k0 : m w ≡ h.mem w = k w (omega arith) (omega arith) in
    let k1 : m (w + t) ≡ h.mem (w + t) = k (w + t) (omega arith) (omega arith) in
    let k2 : m (w + t - 4) ≡ h.mem (w + t - 4) = k (w + t - 4) (omega arith) (omega arith) in
    (
      ys ++ zs,
      (
        m,
        (
          same,
          record {
            size = ap (λ a. a / 8 * 8) k0 ∙ v.head.0;
            word = (ap (λ a. a % 2) k0 ∙ v.head.1, ap (λ a. a / 2 % 2) k0 ∙ v.head.2);
            foot = ap (λ a. a / 8 * 8) k2 ∙ v.foot;
            next = ap (λ a. a / 8 * 8) k1 ∙ v.size;
            gap = g;
            listed = listed;
          },
          kept,
        ),
      ),
    )

-- The block behind is free too.
pub erase_ahead :
    {h : Heap} {pre : List Block} {t s r : ℕ} {post : List Block} {xs : List ℕ}
    → Open h pre t s (s + t) ((r, 0) ∷ post) xs
    → (16 ≤ t) × (8 ≤ s) × (16 ≤ r)
    → (ys : List ℕ) × ((m : ℕ → ℕ) × ((erase h (end (first h) pre + t + s + 4) ≡ with_mem h m)
          × Open (with_mem h m) pre t s (s + (t + r)) post ys
          × (get_size (with_mem h m) (end (first h) pre + t + s) ≡ r)
          × ((q : ℕ) → Outer q h pre (end (first h) pre + (s + (t + r))) post → m q ≡ h.mem q)))
erase_ahead {h} {pre} {t} {s} {r} {post} {xs} o fine =
    let w = end (first h) pre in
    let e = w + (s + t) in
    let p : e + r ≡ w + (s + (t + r)) = omega arith in
    let q : e ≡ w + t + s = omega arith in
    let bag : (y : ℕ)
        → count y xs
          ≡ (if w + t + s + 4 == y then 1 else 0)
            + (count_free y (first h) pre + count_free y (w + (s + (t + r))) post) =
      λ y.
        subst
          (λ b.
            count y xs
            ≡ (if b + 4 == y then 1 else 0)
              + (count_free y (first h) pre + count_free y (w + (s + (t + r))) post))
          q
          (subst
            (λ c.
              count y xs
              ≡ (if e + 4 == y then 1 else 0) + (count_free y (first h) pre + count_free y c post))
            p (omega (arith, o.listed.1 y))) in
    let (ys, (zs, (split, rest))) = take_out xs (w + t + s + 4) _ bag in
    let (m, (same, (g, listed), k, kept)) =
      erase-Gap ys (w + t + s + 4) zs (subst (Ring h) split o.listed.0)
        (subst (λ a. Gap h pre 0 a post) p (widen o.gap)) rest in
    let k0 : m w ≡ h.mem w = k w (omega arith) (omega arith) in
    let k1 : m (w + t) ≡ h.mem (w + t) = k (w + t) (omega arith) (omega arith) in
    let k2 : m (w + t - 4) ≡ h.mem (w + t - 4) = k (w + t - 4) (omega arith) (omega arith) in
    let k3 : m (w + t + s) ≡ h.mem (w + t + s) = k (w + t + s) (omega arith) (omega arith) in
    let last : get_size h (w + t + s) ≡ r = subst (λ a. get_size h a ≡ r) q o.gap.mid.0.0.0 in
    (
      ys ++ zs,
      (
        m,
        (
          same,
          record {
            size = ap (λ a. a / 8 * 8) k0 ∙ o.size;
            word = (ap (λ a. a % 2) k0 ∙ o.word.0, ap (λ a. a / 2 % 2) k0 ∙ o.word.1);
            foot = ap (λ a. a / 8 * 8) k2 ∙ o.foot;
            next = ap (λ a. a / 8 * 8) k1 ∙ o.next;
            gap = g;
            listed = listed;
          },
          ap (λ a. a / 8 * 8) k3 ∙ last,
          kept,
        ),
      ),
    )
