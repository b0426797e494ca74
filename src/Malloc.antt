-- ===== src/Malloc.antt =====
-- prj3/prj3-malloc: the allocator of mm.c over the simulated memory of memlib.c. This file has the
-- memory, the macros on words and pointers, and `mem_sbrk`; the build is for 32 bits (`-m32`).
pub mod Blocks
pub mod Api
pub mod Size
pub mod Check
pub mod FreeList
pub mod Fit
pub mod Layout
pub mod Session
mod Tests
use Prim.Native.Nat.{max}
use system_programing.Common.{
  ℕ, ◌+◌, ◌-◌, ◌*◌, ◌/◌, ◌%◌, ◌^◌, Bool, true, false, Option, none, some, ltb, leb, ◌==◌, ◌||◌,
  if◌then◌else◌,
}

-- The words of the heap by address (every access of mm.c is to a multiple of 4), the break, the
-- bounds of the simulated memory, and the globals of mm.c.
pub record Heap : Type 0 where
  pub mem : ℕ → ℕ
  pub mem_start_brk : ℕ
  pub mem_brk : ℕ
  pub mem_max_addr : ℕ
  pub heap_head : ℕ
  pub heap_tail : ℕ
  pub free_head : ℕ

-- `unsigned int` and pointer arithmetic.
abbrev pub add32 : ℕ → ℕ → ℕ
add32 a b = (a + b) % 2 ^ 32

abbrev pub sub32 : ℕ → ℕ → ℕ
sub32 a b = (a + 2 ^ 32 - b) % 2 ^ 32

-- `x | y`, where `y` has the low three bits at most.
unfoldable pub or3 : ℕ → ℕ → ℕ
or3 x y =
    x / 8 * 8
    + (max (x % 2) (y % 2) + 2 * max (x / 2 % 2) (y / 2 % 2) + 4 * max (x / 4 % 2) (y / 4 % 2))

abbrev pub get : Heap → ℕ → ℕ
get h p = h.mem p

abbrev pub write_word : (ℕ → ℕ) → ℕ → ℕ → ℕ → ℕ
write_word mem p v q = if p == q then v else mem q

unfoldable pub put : Heap → ℕ → ℕ → Heap
put h p v = record h { mem = write_word h.mem p v }

unfoldable pub pack : ℕ → ℕ → ℕ
pack size alloc = or3 size alloc

-- `GET(p) & ~0x7`, `GET(p) & 0x1` and `GET(p) & 0x2` (here 0 or 1).
abbrev pub get_size : Heap → ℕ → ℕ
get_size h p = get h p / 8 * 8

abbrev pub get_alloc : Heap → ℕ → ℕ
get_alloc h p = get h p % 2

abbrev pub get_tag : Heap → ℕ → ℕ
get_tag h p = get h p / 2 % 2

unfoldable pub set_alloc : Heap → ℕ → Heap
set_alloc h p = put h p (or3 (get h p) 1)

unfoldable pub clr_alloc : Heap → ℕ → Heap
clr_alloc h p = put h p (get h p - get h p % 2)

unfoldable pub set_tag : Heap → ℕ → Heap
set_tag h p = put h p (or3 (get h p) 2)

unfoldable pub clr_tag : Heap → ℕ → Heap
clr_tag h p = put h p (get h p - 2 * (get h p / 2 % 2))

unfoldable pub set_size : Heap → ℕ → ℕ → Heap
set_size h p size = put h p (or3 size (get h p % 8))

unfoldable pub hdrp : ℕ → ℕ
hdrp ptr = sub32 ptr 4

unfoldable pub block_size : Heap → ℕ → ℕ
block_size h ptr = get_size h (hdrp ptr)

unfoldable pub ftrp : Heap → ℕ → ℕ
ftrp h ptr = sub32 (add32 ptr (block_size h ptr)) 8

unfoldable pub next_block : Heap → ℕ → ℕ
next_block h ptr = add32 ptr (block_size h ptr)

unfoldable pub prev_block : Heap → ℕ → ℕ
prev_block h ptr = sub32 ptr (get_size h (sub32 ptr 8))

-- The links of a free block hold offsets from `free_head`.
abbrev pub pred : Heap → ℕ → ℕ
pred h ptr = add32 h.free_head (get h ptr)

abbrev pub succ : Heap → ℕ → ℕ
succ h ptr = add32 h.free_head (get h (add32 ptr 4))

abbrev pub offset : Heap → ℕ → ℕ
offset h ptr = sub32 ptr h.free_head

-- `CONNECT`: SET_SUCC, then SET_PRED
unfoldable pub connect : Heap → ℕ → ℕ → Heap
connect h a b = let h1 = put h (add32 a 4) (offset h b) in put h1 b (offset h1 a)

-- `INSERT_LIST`: the successor of `target` is read before the links change.
unfoldable pub insert_list : Heap → ℕ → ℕ → Heap
insert_list h new target =
    let h1 = put h (add32 new 4) (offset h (succ h target)) in
    let h2 = put h1 (succ h1 target) (offset h1 new) in connect h2 target new

-- `ERASE`: the macro reads PRED and SUCC anew in each of its two stores.
unfoldable pub erase : Heap → ℕ → Heap
erase h ptr =
    let h1 = put h (add32 (pred h ptr) 4) (offset h (succ h ptr)) in
    put h1 (succ h1 ptr) (offset h1 (pred h1 ptr))

-- `mem_sbrk` takes an `int`, and the sum of pointers wraps; `none` is (void *)-1.
unfoldable pub mem_sbrk : Heap → ℕ → Option ℕ × Heap
mem_sbrk h incr =
    if leb (2 ^ 31) incr || ltb h.mem_max_addr (add32 h.mem_brk incr)
    then (none, h)
    else (some h.mem_brk, record h { mem_brk = add32 h.mem_brk incr })
