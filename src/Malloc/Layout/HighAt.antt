-- ===== src/Malloc/Layout/HighAt.antt =====
-- prj3/prj3-malloc/mm.c: the addresses and words of `place_high`.
use system_programing.Common.{
  ℕ, ◌+◌, ◌-◌, ◌*◌, ◌/◌, ◌%◌, ◌^◌, ◌≤◌, ◌<◌, ◌≡◌, refl, ap, ◌∙◌, arith, ◌⊎◌, inr,
}
use system_programing.Malloc.{
  Heap, or3, pack, put, write_word, get_size, get_alloc, get_tag, set_alloc, clr_alloc, set_tag,
  clr_tag, set_size, insert_list,
}
use system_programing.Malloc.Blocks.{release_rest, place_high}
use system_programing.Malloc.FreeList.{with_mem}
use system_programing.Malloc.Layout.{Head, Foot}
use system_programing.Malloc.Layout.Focus.{Retagged}
use system_programing.Malloc.Layout.Mark.{hdrp_at, ftrp_at, next_at}
use system_programing.Malloc.Layout.Merge.{get_size-set_size}
use system_programing.Malloc.Layout.Coalesced.{coalesce_at}

-- Setting a tag that is set changes nothing.
pub set_tag_same : (h : Heap) (p : ℕ) → get_tag h p ≡ 1 → set_tag h p ≡ h
unfolding set_tag put or3
set_tag_same h p e =
    let same : (q : ℕ) → write_word h.mem p (or3 (h.mem p) 2) q ≡ h.mem q = λ q. ground arith in
    ap (with_mem h) (λ i q. same q i)

-- `place_high`: `n` bytes stay free and the next `a` bytes are allocated.
abbrev pub high_front : Heap → ℕ → ℕ → Heap
high_front h w n = put (set_size (set_alloc h w) w n) (w + n - 4) (pack n 0)

abbrev pub high_tagged : Heap → ℕ → ℕ → ℕ → Heap
high_tagged h w n a =
    set_tag (set_size (set_alloc (high_front h w n) (w + n)) (w + n) a) (w + n + a)

abbrev pub high : Heap → ℕ → ℕ → ℕ → Heap
high h w n a = clr_tag (clr_alloc (set_tag (high_tagged h w n a) w) w) (w + n)

high_sizes :
    (h : Heap) (w n a : ℕ)
    → (n % 8 ≡ 0) × (16 ≤ n)
    → (a % 8 ≡ 0) × (16 ≤ a)
    → get_tag h w ≡ 1
    → (get_size (high_front h w n) w ≡ n)
      × (get_size (set_size (set_alloc (high_front h w n) (w + n)) (w + n) a) (w + n) ≡ a)
      × (get_size (high_tagged h w n a) w ≡ n)
      × (get_tag (high_tagged h w n a) w ≡ 1)
      × (get_alloc (high_tagged h w n a) (w + n) ≡ 1)
      × (get_size (clr_alloc (set_tag (high_tagged h w n a) w) w) w ≡ n)
unfolding put pack or3 set_size set_alloc set_tag clr_alloc
high_sizes h w n a s t b =
    (ground arith, ground arith, ground arith, ground arith, ground arith, ground arith)

pub place_high_at :
    (h : Heap) (w n a : ℕ)
    → (n % 8 ≡ 0) × (16 ≤ n)
    → (a % 8 ≡ 0) × (16 ≤ a)
    → get_tag h w ≡ 1
    → w + n + a + 8 ≤ 2 ^ 32
    → place_high (set_alloc h w) (w + 4) a n
      ≡ (w + n + 4, insert_list (high h w n a) (w + 4) (high h w n a).free_head)
unfolding place_high release_rest
place_high_at h w n a s t b l =
    let h1 = set_size (set_alloc h w) w n in
    let h2 = high_front h w n in
    let h4 = set_size (set_alloc h2 (w + n)) (w + n) a in
    let h5 = high_tagged h w n a in
    let h6 = clr_alloc (set_tag h5 w) w in
    let k = high_sizes h w n a s t b in
    let e1 = hdrp_at w (omega arith) in
    let e2 =
      ftrp_at h1 w n (get_size-set_size (set_alloc h w) w n s.0) (omega (arith, s.1))
        (omega arith) in
    let e3 = next_at h2 w n k.0 (omega arith) in
    let e4 = hdrp_at (w + n) (omega arith) in
    let e5 = next_at h4 (w + n) a k.1 l in
    let e6 = hdrp_at (w + n + a) (omega arith) in
    let e7 = coalesce_at h5 w n 1 1 k.2 k.3 k.4 (omega arith) in
    let e8 = next_at h6 w n k.5 (omega arith) in rw (e1, e2, e3, e4, e5, e6, e7, e1, e8, e4) refl

-- The words behind the writes of `place_high`.
pub high_outside :
    (h : Heap) (w n a q : ℕ)
    → 16 ≤ n
    → 16 ≤ a
    → (q < w) ⊎ (w + n + a < q)
    → (high h w n a).mem q ≡ h.mem q
unfolding put set_size set_alloc set_tag clr_alloc clr_tag
high_outside h w n a q s t o = ground arith

high_words :
    (h : Heap) (w n a : ℕ)
    → (n % 8 ≡ 0) × (16 ≤ n)
    → 16 ≤ a
    → h.mem w / 2 % 2 ≡ 1
    → (get_size (high_tagged h w n a) w ≡ n)
      × (get_tag (high_tagged h w n a) w ≡ 1)
      × (get_size (high_tagged h w n a) (w + n - 4) ≡ n)
unfolding put set_size set_alloc set_tag or3 pack
high_words h w n a s t b = (ground arith, ground arith, ground arith)

high_block_words :
    (h : Heap) (w n a : ℕ)
    → 16 ≤ n
    → (a % 8 ≡ 0) × (16 ≤ a)
    → (get_size (high_tagged h w n a) (w + n) ≡ a) × (get_alloc (high_tagged h w n a) (w + n) ≡ 1)
unfolding put set_size set_alloc set_tag or3 pack
high_block_words h w n a s t = (ground arith, ground arith)

high_end :
    (h : Heap) (w n a : ℕ)
    → 16 ≤ n
    → 16 ≤ a
    → Retagged h.mem (high_tagged h w n a).mem (w + n + a) 1
unfolding put set_size set_alloc set_tag or3
high_end h w n a s t = ground arith

-- The last three writes.
abbrev cleared : Heap → ℕ → ℕ → Heap
cleared h w n = clr_tag (clr_alloc (set_tag h w) w) (w + n)

cleared-Head :
    (h : Heap) (w n : ℕ)
    → 16 ≤ n
    → get_size h w ≡ n
    → get_tag h w ≡ 1
    → get_size h (w + n - 4) ≡ n
    → Head (cleared h w n).mem 1 w (n, 0) × Foot (cleared h w n).mem w (n, 0)
unfolding put set_tag clr_alloc clr_tag or3
cleared-Head h w n s a b c = (ground arith, inr (ground arith))

cleared_block :
    (h : Heap) (w n a : ℕ)
    → 16 ≤ n
    → get_size h (w + n) ≡ a
    → get_alloc h (w + n) ≡ 1
    → Head (cleared h w n).mem 0 (w + n) (a, 1)
unfolding put set_tag clr_alloc clr_tag or3
cleared_block h w n a s b c = ground arith

cleared_end :
    (h : Heap) (w n a : ℕ) → 16 ≤ n → 16 ≤ a → (cleared h w n).mem (w + n + a) ≡ h.mem (w + n + a)
unfolding put set_tag clr_alloc clr_tag
cleared_end h w n a s t = ground arith

pub high-Head :
    (h : Heap) (w n a : ℕ)
    → (n % 8 ≡ 0) × (16 ≤ n)
    → 16 ≤ a
    → h.mem w / 2 % 2 ≡ 1
    → Head (high h w n a).mem 1 w (n, 0) × Foot (high h w n a).mem w (n, 0)
high-Head h w n a s t b =
    let k = high_words h w n a s t b in cleared-Head (high_tagged h w n a) w n s.1 k.0 k.1 k.2

pub high_block :
    (h : Heap) (w n a : ℕ)
    → 16 ≤ n
    → (a % 8 ≡ 0) × (16 ≤ a)
    → Head (high h w n a).mem 0 (w + n) (a, 1)
high_block h w n a s t =
    let k = high_block_words h w n a s t in cleared_block (high_tagged h w n a) w n a s k.0 k.1

pub high_behind :
    (h : Heap) (w n a : ℕ) → 16 ≤ n → 16 ≤ a → Retagged h.mem (high h w n a).mem (w + n + a) 1
high_behind h w n a s t =
    let e = cleared_end (high_tagged h w n a) w n a s t in
    let k = high_end h w n a s t in
    (ap (λ v. v / 8 * 8) e ∙ k.0, ap (λ v. v % 2) e ∙ k.1, ap (λ v. v / 2 % 2) e ∙ k.2)

pub high_with : (h : Heap) (w n a : ℕ) → high h w n a ≡ with_mem h (high h w n a).mem
unfolding put set_size set_alloc set_tag clr_alloc clr_tag
high_with h w n a = refl
