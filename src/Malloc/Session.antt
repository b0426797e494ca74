-- ===== src/Malloc/Session.antt =====
-- prj3/prj3-malloc/mm.c: a client that calls the allocator.
pub mod Cover
pub mod Kept
pub mod Safety
pub mod Reads
mod Tests
use system_programing.Common.{
  ℕ, zero, suc, ◌+◌, ◌-◌, ◌*◌, ◌%◌, ◌^◌, ◌≤◌, ◌<◌, ◌≡◌, ◌≢◌, refl, ◌⊎◌, List, [], ◌∷◌, ◌++◌, Option,
  none, some, All, leb, ◌&&◌, if◌then◌else◌,
}
use system_programing.Common.Int.{ℤ, pos}
use system_programing.Malloc.{Heap, put, write_word}
use system_programing.Malloc.Api.{mem_init, mm_init, mm_malloc, mm_free}

-- A word between the start of a block and its end.
abbrev pub Inside : ℕ → ℕ × ℕ → Type 0
Inside q b = (b.0 ≤ q) × (q + 4 ≤ b.0 + b.1)

-- What the client knows of its words once it has a new block: those of the block as they are.
abbrev pub learned : (ℕ → ℕ) → Heap → ℕ → ℕ → ℕ → ℕ
learned known h ptr size q = if leb ptr q && leb (q + 4) (ptr + size) then h.mem q else known q

-- The heap after any calls and writes; what the client holds, which are the addresses that it was
-- given and has not freed, each with the number of bytes that it asked for; and what it knows its
-- words to be, from its own writes. No request is so large that mem_sbrk wraps.
pub data Session : Heap → List (ℕ × ℕ) → (ℕ → ℕ) → Type 0 where
  begins :
      (base : ℕ) (mem : ℕ → ℕ) (h : Heap) (known : ℕ → ℕ)
      → base % 8 ≡ 0
      → base + 20 * 2 ^ 20 + 8 ≤ 2 ^ 32
      → mm_init (mem_init base mem) ≡ (pos 0, h)
      → Session h [] known
  gets :
      (h : Heap) (held : List (ℕ × ℕ)) (known : ℕ → ℕ) (fuel size ptr : ℕ) (h' : Heap)
      → Session h held known
      → 0 < size
      → h.mem_max_addr + size + 4112 ≤ 2 ^ 32
      → mm_malloc h fuel size ≡ some (some ptr, h')
      → Session h' ((ptr, size) ∷ held) (learned known h' ptr size)
  fails :
      (h : Heap) (held : List (ℕ × ℕ)) (known : ℕ → ℕ) (fuel size : ℕ) (h' : Heap)
      → Session h held known
      → 0 < size
      → h.mem_max_addr + size + 4112 ≤ 2 ^ 32
      → mm_malloc h fuel size ≡ some (none, h')
      → Session h' held known
  frees :
      (h : Heap) (us : List (ℕ × ℕ)) (ptr size : ℕ) (vs : List (ℕ × ℕ)) (known : ℕ → ℕ)
      → Session h (us ++ (ptr, size) ∷ vs) known
      → Session (mm_free h ptr) (us ++ vs) known
  writes :
      (h : Heap) (us : List (ℕ × ℕ)) (ptr size : ℕ) (vs : List (ℕ × ℕ)) (known : ℕ → ℕ) (q v : ℕ)
      → Session h (us ++ (ptr, size) ∷ vs) known
      → Inside q (ptr, size)
      → q % 4 ≡ 0
      → Session (put h q v) (us ++ (ptr, size) ∷ vs) (write_word known q v)

-- The bytes of two blocks do not overlap.
abbrev pub Disjoint : ℕ × ℕ → ℕ × ℕ → Type 0
Disjoint a b = (a.0 + a.1 ≤ b.0) ⊎ (b.0 + b.1 ≤ a.0)

-- Every held block is aligned, lies behind the prologue and below the break, and overlaps with no other.
abbrev pub Sound : Heap → List (ℕ × ℕ) → Type 0
Sound h [] = Unit
Sound h (b ∷ bs) =
    ((b.0 % 8 ≡ 0) × (h.free_head + 20 ≤ b.0) × (b.0 + b.1 ≤ h.mem_brk) × All (Disjoint b) bs)
    × Sound h bs

-- Every word of a held block is as the client knows it.
abbrev pub Reads : Heap → (ℕ → ℕ) → ℕ × ℕ → Type 0
Reads h known b = (q : ℕ) → Inside q b → h.mem q ≡ known q
