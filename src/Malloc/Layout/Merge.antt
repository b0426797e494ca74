-- ===== src/Malloc/Layout/Merge.antt =====
-- prj3/prj3-malloc/mm.c: `coalesce` and the free blocks next to a block.
use system_programing.Common.{ℕ, ◌+◌, ◌-◌, ◌%◌, ◌^◌, ◌≤◌, ◌<◌, ◌≡◌, refl, sym, ap, ◌∙◌, arith}
use system_programing.Malloc.{
  Heap, add32, sub32, or3, pack, put, get_size, prev_block, set_size, erase,
}
use system_programing.Malloc.Blocks.{merge_next, merge_prev, merge_both}
use system_programing.Malloc.Layout.Mark.{
  hdrp_at, ftrp_at, next_at, get_size-put_ne, get_size-set_size_ne,
}

prev_at :
    (h : Heap) (w t : ℕ)
    → get_size h (w + t - 4) ≡ t
    → 16 ≤ t
    → w + t + 8 ≤ 2 ^ 32
    → prev_block h (w + t + 4) ≡ w + 4
unfolding prev_block
prev_at h w t e a l =
    let c : sub32 (w + t + 4) 8 ≡ w + t - 4 = omega arith in
    let d : get_size h (sub32 (w + t + 4) 8) ≡ t = ap (get_size h) c ∙ e in ground arith

pub get_size-set_size : (h : Heap) (p s : ℕ) → s % 8 ≡ 0 → get_size (set_size h p s) p ≡ s
unfolding put set_size or3
get_size-set_size h p s e = ground arith

add_at : (s t : ℕ) → s + t < 2 ^ 32 → add32 s t ≡ s + t
add_at s t l = omega arith

-- The block of `n` bytes at `w`, as case 2 and case 4 write its header and footer, and as case 3 does.
abbrev pub grown : Heap → ℕ → ℕ → Heap
grown h w n = put (set_size h w n) (w + n - 4) (pack n 0)

abbrev pub grown_back : Heap → ℕ → ℕ → Heap
grown_back h w n = set_size (put h (w + n - 4) (pack n 0)) w n

pub merge_next_at :
    (h h1 : Heap) (w s t : ℕ)
    → h1 ≡ erase h (w + s + 4)
    → get_size h w ≡ s
    → (get_size h1 w ≡ s) × (get_size h1 (w + s) ≡ t)
    → (8 ≤ s) × (16 ≤ t) × ((s + t) % 8 ≡ 0)
    → w + (s + t) + 8 ≤ 2 ^ 32
    → merge_next h (w + 4) s ≡ (w + 4, grown h1 w (s + t))
unfolding merge_next
merge_next_at h h1 w s t same a b c l =
    let e1 = next_at h w s a (omega arith) in
    let e2 = next_at h1 w s b.0 (omega arith) in
    let e3 = hdrp_at (w + s) (omega arith) in
    let e4 = hdrp_at w (omega arith) in
    let e5 = add_at s t (omega arith) in
    let e6 =
      ftrp_at (set_size h1 w (s + t)) w (s + t) (get_size-set_size h1 w (s + t) c.2) (omega arith)
        l in
    rw (e1, sym same, e2, e3, b.1, e5, e4, e6) refl

pub merge_prev_at :
    (h h1 : Heap) (w t s : ℕ)
    → h1 ≡ erase h (w + 4)
    → get_size h (w + t - 4) ≡ t
    → (get_size h1 w ≡ t) × (get_size h1 (w + t) ≡ s) × (get_size h1 (w + t - 4) ≡ t)
    → (8 ≤ s) × (16 ≤ t)
    → w + t + s + 8 ≤ 2 ^ 32
    → merge_prev h (w + t + 4) s ≡ (w + 4, grown_back h1 w (s + t))
unfolding merge_prev
merge_prev_at h h1 w t s same a b c l =
    let f = w + (s + t) - 4 in
    let h2 = put h1 f (pack (s + t) 0) in
    let e0 : w + t + s - 4 ≡ f = omega arith in
    let e1 = prev_at h w t a c.1 (omega arith) in
    let e2 = prev_at h1 w t b.2 c.1 (omega arith) in
    let e3 = hdrp_at w (omega arith) in
    let e4 = ftrp_at h1 (w + t) s b.1 c.0 l in
    let e5 = add_at s t (omega arith) in
    let k2 = get_size-put_ne h1 f (pack (s + t) 0) (w + t - 4) (omega arith) ∙ b.2 in
    let e6 = prev_at h2 w t k2 c.1 (omega arith) in
    let k3 = get_size-set_size_ne h2 w (s + t) (w + t - 4) (omega arith) ∙ k2 in
    let e7 = prev_at (set_size h2 w (s + t)) w t k3 c.1 (omega arith) in
    rw (e1, sym same, e2, e3, b.0, e5, e4, e0, e6, e3, e7) refl

pub merge_both_at :
    (h h1 h2 : Heap) (w t s r : ℕ)
    → h1 ≡ erase h (w + 4)
    → h2 ≡ erase h1 (w + t + s + 4)
    → get_size h (w + t - 4) ≡ t
    → get_size h1 (w + t) ≡ s
    → (get_size h2 w ≡ t)
      × (get_size h2 (w + t) ≡ s)
      × (get_size h2 (w + t - 4) ≡ t)
      × (get_size h2 (w + t + s) ≡ r)
    → (8 ≤ s) × (16 ≤ t) × (16 ≤ r)
    → w + t + s + r + 8 ≤ 2 ^ 32
    → merge_both h (w + t + 4) s ≡ (w + 4, grown h2 w (s + (t + r)))
unfolding merge_both
merge_both_at h h1 h2 w t s r same same2 a a1 b c l =
    let total = s + (t + r) in
    let h3 = set_size h2 w total in
    let f = w + total - 4 in
    let h4 = put h3 f (pack total 0) in
    let e1 = prev_at h w t a c.1 (omega arith) in
    let e2 = next_at h1 (w + t) s a1 (omega arith) in
    let e3 = prev_at h2 w t b.2 c.1 (omega arith) in
    let e4 = hdrp_at w (omega arith) in
    let e5 = next_at h2 (w + t) s b.1 (omega arith) in
    let e6 = hdrp_at (w + t + s) (omega arith) in
    let e7 = add_at t r (omega arith) in
    let e8 = add_at s (t + r) (omega arith) in
    let k5 = get_size-set_size_ne h2 w total (w + t) (omega arith) ∙ b.1 in
    let e9 = next_at h3 (w + t) s k5 (omega arith) in
    let k6 = get_size-set_size_ne h2 w total (w + t + s) (omega arith) ∙ b.3 in
    let e10 = ftrp_at h3 (w + t + s) r k6 (omega (arith, c.2)) (omega arith) in
    let k7 = get_size-set_size_ne h2 w total (w + t - 4) (omega arith) ∙ b.2 in
    let k8 = get_size-put_ne h3 f (pack total 0) (w + t - 4) (omega arith) ∙ k7 in
    let e0 : w + t + s + r - 4 ≡ f = omega arith in
    let e11 = prev_at h4 w t k8 c.1 (omega arith) in
    rw (e1, sym same, e2, sym same2, e3, e4, e5, e6, b.0, b.3, e7, e8, e9, e10, e0, e11) refl
