-- ===== src/Malloc/Check.antt =====
-- prj3/prj3-malloc/mm.c: `mm_check`, and memlib.c's bounds of the heap.
use system_programing.Common.{
  ℕ, zero, suc, ◌-◌, ◌<◌, ◌≡◌, ◌≢◌, arith, Bool, true, false, not, ◌&&◌, ◌||◌, List, [], ◌∷◌,
  Option, none, some, All, All-map, length, ltb, ◌==◌, if◌then◌else◌,
}
use system_programing.Malloc.{Heap, sub32, get_alloc, get_tag, hdrp, ftrp, next_block, pred, succ}
use system_programing.Malloc.FreeList.{Apart, Fits, Links, Ring, Nodes-Apart}

unfoldable pub mem_heap_lo : Heap → ℕ
mem_heap_lo h = h.mem_start_brk

unfoldable pub mem_heap_hi : Heap → ℕ
mem_heap_hi h = h.mem_brk - 1

unfoldable pub mem_heapsize : Heap → ℕ
mem_heapsize h = h.mem_brk - h.mem_start_brk

unfoldable pub mem_reset_brk : Heap → Heap
mem_reset_brk h = record h { mem_brk = h.mem_start_brk }

-- A loop along the free list from `next` on that returns 1 at the first block that is bad; `none`
-- says that it still runs after that many rounds.
unfoldable pub check_list : Heap → (ℕ → Bool) → ℕ → ℕ → Option Bool
check_list h bad zero next = none
check_list h bad (suc fuel) next =
    let rest = check_list h bad fuel (succ h next) in
    if next == h.free_head then some false else if bad next then some true else rest

-- A block of the free list that is marked as allocated, or whose next block has the tag set.
unfoldable pub is_marked : Heap → ℕ → Bool
is_marked h next = get_alloc h (hdrp next) == 1 || get_tag h (hdrp (next_block h next)) == 1

-- A block that lies behind the one before it in the list.
unfoldable pub missed_coalescing : Heap → ℕ → Bool
missed_coalescing h next = not (pred h next == 0) && sub32 (hdrp next) (ftrp h (pred h next)) == 8

unfoldable pub is_outside : Heap → ℕ → Bool
is_outside h next = ltb next (mem_heap_lo h) || ltb (mem_heap_hi h) next

-- The loop over all blocks from `next` on.
unfoldable pub check_blocks : Heap → ℕ → ℕ → Option Bool
check_blocks h zero next = none
check_blocks h (suc fuel) next =
    let rest = check_blocks h fuel (next_block h next) in
    if hdrp (next_block h next) == h.heap_tail
    then some false
    else if ltb (hdrp next) (mem_heap_lo h) || ltb (mem_heap_hi h) (ftrp h next)
    then some true
    else rest

-- One check, and the next one if it finds nothing.
unfoldable pub and_then : Option Bool → Option Bool → Option Bool
and_then none later = none
and_then (some true) later = some true
and_then (some false) later = later

-- `some true` is 1, an inconsistency; `some false` is 0.
unfoldable pub mm_check : Heap → ℕ → Option Bool
mm_check h fuel = and_then (check_list h (is_marked h) fuel (succ h h.free_head)) (
    and_then (check_list h (missed_coalescing h) fuel (succ h h.free_head)) (
      and_then (check_list h (is_outside h) fuel (succ h h.free_head))
        (and_then (check_blocks h fuel h.heap_head) (some (ltb (mem_heap_hi h) h.heap_tail)))))

abbrev pub any : (ℕ → Bool) → List ℕ → Bool
any bad [] = false
any bad (x ∷ xs) = if bad x then true else any bad xs

check_list-Links :
    (h : Heap) (bad : ℕ → Bool) (fuel p : ℕ) (xs : List ℕ)
    → length xs < fuel
    → All (λ x. x ≢ h.free_head) xs
    → Links h p xs h.free_head
    → check_list h bad fuel (succ h p) ≡ some (any bad xs)
unfolding check_list
check_list-Links h bad zero p xs f a l = absurd (omega arith)
check_list-Links h bad (suc fuel) p [] f a l = ground arith
check_list-Links h bad (suc fuel) p (x ∷ xs) f a l =
    let rest = check_list-Links h bad fuel x xs (omega arith) a.1 l.1 in ground arith

-- On a heap with a circular free list and more rounds of fuel than it has blocks, each of the three
-- checks of the free list ends, and reports an inconsistency exactly if a block of the list is bad.
pub check_list-Ring :
    (h : Heap) (bad : ℕ → Bool) (fuel : ℕ) (xs : List ℕ)
    → Ring h xs
    → length xs < fuel
    → check_list h bad fuel (succ h h.free_head) ≡ some (any bad xs)
check_list-Ring h bad fuel xs r f =
    check_list-Links h bad fuel h.free_head xs f
      (All-map (λ x. Fits x × Apart x h.free_head) (λ x. Fits x × Apart x h.free_head)
        (λ x. x ≢ h.free_head) (λ x p q. ground arith) xs
        (Nodes-Apart h.free_head xs h.free_head r.1) (Nodes-Apart h.free_head xs h.free_head r.1))
      r.0
