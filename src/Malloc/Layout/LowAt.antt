-- ===== src/Malloc/Layout/LowAt.antt =====
-- prj3/prj3-malloc/mm.c: the addresses and words of `place_low`.
use system_programing.Common.{ℕ, ◌+◌, ◌-◌, ◌/◌, ◌%◌, ◌^◌, ◌≤◌, ◌<◌, ◌≡◌, refl, arith, ◌⊎◌, inr}
use system_programing.Malloc.{
  Heap, or3, pack, put, get_size, get_alloc, get_tag, set_alloc, clr_alloc, set_tag, clr_tag,
  set_size, insert_list,
}
use system_programing.Malloc.Blocks.{release_rest, place_low}
use system_programing.Malloc.FreeList.{with_mem}
use system_programing.Malloc.Layout.{Head, Foot}
use system_programing.Malloc.Layout.Focus.{Retagged}
use system_programing.Malloc.Layout.Mark.{hdrp_at, ftrp_at, next_at}
use system_programing.Malloc.Layout.Merge.{get_size-set_size}
use system_programing.Malloc.Layout.Coalesced.{coalesce_at}

-- `place_low` up to the tag of the rest, and up to INSERT_LIST.
abbrev pub low_tagged : Heap → ℕ → ℕ → ℕ → Heap
low_tagged h w a n =
    set_tag (put (put (set_size (set_alloc h w) w a) (w + a) (pack n 0)) (w + a + n - 4) (pack n 0))
      (w + a)

abbrev pub low : Heap → ℕ → ℕ → ℕ → Heap
low h w a n = clr_tag (clr_alloc (set_tag (low_tagged h w a n) (w + a)) (w + a)) (w + a + n)

get_size-put : (h : Heap) (p n : ℕ) → n % 8 ≡ 0 → get_size (put h p (pack n 0)) p ≡ n
unfolding put pack or3
get_size-put h p n e = ground arith

low_sizes :
    (h : Heap) (w a n : ℕ)
    → (a % 8 ≡ 0) × (16 ≤ a)
    → (n % 8 ≡ 0) × (16 ≤ n)
    → get_alloc h (w + a + n) ≡ 1
    → (get_size
          (put (put (set_size (set_alloc h w) w a) (w + a) (pack n 0)) (w + a + n - 4) (pack n 0))
          w
        ≡ a)
      × (get_size (low_tagged h w a n) (w + a) ≡ n)
      × (get_tag (low_tagged h w a n) (w + a) ≡ 1)
      × (get_alloc (low_tagged h w a n) (w + a + n) ≡ 1)
      × (get_size (clr_alloc (set_tag (low_tagged h w a n) (w + a)) (w + a)) (w + a) ≡ n)
unfolding put pack or3 set_size set_alloc set_tag clr_alloc
low_sizes h w a n s t b = (ground arith, ground arith, ground arith, ground arith, ground arith)

pub place_low_at :
    (h : Heap) (w a n : ℕ)
    → (a % 8 ≡ 0) × (16 ≤ a)
    → (n % 8 ≡ 0) × (16 ≤ n)
    → get_alloc h (w + a + n) ≡ 1
    → w + a + n + 8 ≤ 2 ^ 32
    → place_low (set_alloc h w) (w + 4) a n
      ≡ (w + 4, insert_list (low h w a n) (w + a + 4) (low h w a n).free_head)
unfolding place_low release_rest
place_low_at h w a n s t b l =
    let h1 = set_size (set_alloc h w) w a in
    let h2 = put h1 (w + a) (pack n 0) in
    let h3 = put h2 (w + a + n - 4) (pack n 0) in
    let h4 = low_tagged h w a n in
    let h5 = clr_alloc (set_tag h4 (w + a)) (w + a) in
    let k = low_sizes h w a n s t b in
    let e1 = hdrp_at w (omega arith) in
    let e2 = next_at h1 w a (get_size-set_size (set_alloc h w) w a s.0) (omega arith) in
    let e3 = hdrp_at (w + a) (omega arith) in
    let e4 = ftrp_at h2 (w + a) n (get_size-put h1 (w + a) n t.0) (omega (arith, t.1)) l in
    let e5 = next_at h3 w a k.0 (omega arith) in
    let e6 = coalesce_at h4 (w + a) n 1 1 k.1 k.2 k.3 l in
    let e7 = next_at h5 (w + a) n k.4 l in
    let e8 = hdrp_at (w + a + n) (omega arith) in rw (e1, e2, e3, e4, e5, e3, e6, e3, e7, e8) refl

-- The words behind the writes of `place_low`.
pub low_outside :
    (h : Heap) (w a n q : ℕ)
    → 16 ≤ a
    → 16 ≤ n
    → (q < w) ⊎ (w + a + n < q)
    → (low h w a n).mem q ≡ h.mem q
unfolding put set_size set_alloc set_tag clr_alloc clr_tag
low_outside h w a n q s t o = ground arith

pub low-Head :
    (h : Heap) (w a n : ℕ)
    → (a % 8 ≡ 0) × (16 ≤ a)
    → 16 ≤ n
    → Head (low h w a n).mem (h.mem w / 2 % 2) w (a, 1)
unfolding put set_size set_alloc set_tag clr_alloc clr_tag or3 pack
low-Head h w a n s t = ground arith

pub low_rest :
    (h : Heap) (w a n : ℕ)
    → 16 ≤ a
    → (n % 8 ≡ 0) × (16 ≤ n)
    → Head (low h w a n).mem 1 (w + a) (n, 0) × Foot (low h w a n).mem (w + a) (n, 0)
unfolding put set_size set_alloc set_tag clr_alloc clr_tag or3 pack
low_rest h w a n s t = (ground arith, inr (ground arith))

pub low_behind :
    (h : Heap) (w a n : ℕ) → 16 ≤ a → 16 ≤ n → Retagged h.mem (low h w a n).mem (w + a + n) 0
unfolding put set_size set_alloc set_tag clr_alloc clr_tag
low_behind h w a n s t = ground arith

pub low_with : (h : Heap) (w a n : ℕ) → low h w a n ≡ with_mem h (low h w a n).mem
unfolding put set_size set_alloc set_tag clr_alloc clr_tag
low_with h w a n = refl
