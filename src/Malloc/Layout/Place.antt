-- ===== src/Malloc/Layout/Place.antt =====
-- prj3/prj3-malloc/mm.c: `place` on the list of blocks.
use system_programing.Common.{
  ℕ, ◌+◌, ◌-◌, ◌^◌, ◌≤◌, ◌<◌, ◌≡◌, refl, sym, subst, arith, List, ◌==◌, if◌then◌else◌, not, ◌&&◌,
  ◌||◌, Bool, true, false, leb, ltb,
}
use system_programing.Malloc.{Heap, sub32, get_size, block_size, set_alloc}
use system_programing.Malloc.Blocks.{place_low, place_high, place}
use system_programing.Malloc.Layout.{Block, end}
use system_programing.Malloc.Layout.Focus.{first, Focus}
use system_programing.Malloc.Layout.Mark.{hdrp_at}
use system_programing.Malloc.Layout.Coalesced.{room_at}
use system_programing.Malloc.Layout.Split.{Sized}
use system_programing.Malloc.Layout.Placed.{Tight, Placed, tagged, tagged-Placed, whole-Placed}
use system_programing.Malloc.Layout.Parts.{low-Placed, high-Placed}

place_at :
    (h : Heap) (w s a : ℕ)
    → get_size h w ≡ s
    → w + 4 < 2 ^ 32
    → place h (w + 4) a
      ≡ tagged (
          if not (s == a) && leb 16 (sub32 s a)
          then (if ltb a 96 || ltb (sub32 s a) 32
              then place_low (set_alloc h w) (w + 4) a (sub32 s a)
              else place_high (set_alloc h w) (w + 4) a (sub32 s a))
          else (w + 4, set_alloc h w))
unfolding place block_size
place_at h w s a e l = let e1 = hdrp_at w l in rw (e1, e) refl

either_way :
    (P : ℕ × Heap → Type 0) (b : Bool) (x y : ℕ × Heap)
    → (b ≡ true → P x)
    → (b ≡ false → P y)
    → P (if b then x else y)
either_way P true x y f g = f refl
either_way P false x y f g = g refl

-- `place` on a free block that is off the list, large enough, with allocated neighbours.
pub place-Placed :
    {h : Heap} {pre : List Block} {s : ℕ} {post : List Block} {xs : List ℕ} (a : ℕ)
    → Focus h pre (s, 0) post xs
    → Tight pre post
    → Sized a
    → a ≤ s
    → Placed h pre s post a (place h (end (first h) pre + 4) a)
place-Placed {h} {pre} {s} {post} {xs} a f tight sized le =
    let w = end (first h) pre in
    let room = room_at f in
    let wide = f.fine.1.0 in
    let n : sub32 s a ≡ s - a = omega arith in
    subst (Placed h pre s post a) (sym (place_at h w s a f.mid.0.0.0 (omega arith))) (
      either_way (λ r. Placed h pre s post a (tagged r)) (not (s == a) && leb 16 (sub32 s a)) _ _
        (λ big. tagged-Placed (
          either_way (Placed h pre s post a) (ltb a 96 || ltb (sub32 s a) 32) _ _
            (λ o. low-Placed f tight (omega arith) (sized, (omega arith, ground arith)))
            (λ o. high-Placed f tight (omega arith) ((omega arith, ground arith), sized))))
        (λ all. whole-Placed a f tight le (omega arith)))
