-- ===== src/Malloc/Size.antt =====
-- prj3/prj3-malloc/mm.c: the size of a block for a request.
use system_programing.Common.{ℕ, ◌+◌, ◌-◌, ◌%◌, ◌^◌, ◌≤◌, ◌<◌, ◌≡◌, arith, ◌⊎◌}
use system_programing.Malloc.Api.{alloc_size}

-- For a request of 1 to 2^32 - 16 bytes the size is a multiple of 8, at least 16, leaves a word
-- for the header, and is at most 16 or at most 11 more than the request.
pub alloc_size-fits :
    (size : ℕ)
    → 0 < size
    → size ≤ 2 ^ 32 - 16
    → (alloc_size size % 8 ≡ 0)
      × (16 ≤ alloc_size size)
      × (size + 4 ≤ alloc_size size)
      × ((alloc_size size ≡ 16) ⊎ (alloc_size size ≤ size + 11))
unfolding alloc_size
alloc_size-fits size low high = ground arith

-- A request within 7 bytes of 2^32 is given the smallest block, of 16 bytes: ALIGN wraps to 0.
pub alloc_size-wraps : (size : ℕ) → 2 ^ 32 - 7 ≤ size → size < 2 ^ 32 → alloc_size size ≡ 16
unfolding alloc_size
alloc_size-wraps size low high = ground arith
