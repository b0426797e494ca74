-- ===== src/Malloc/Layout.antt =====
-- prj3/prj3-malloc/mm.c: the heap as a list of blocks, by the words of their headers and footers.
pub mod Frame
pub mod Bag
pub mod Focus
pub mod Clear
pub mod Gap
pub mod Mark
pub mod Merge
pub mod Opening
pub mod Cases
pub mod Coalesced
pub mod Coalesce
pub mod Insert
pub mod Free
pub mod Split
pub mod LowAt
pub mod HighAt
pub mod Placed
pub mod Parts
pub mod Place
pub mod NewBlock
pub mod Extend
pub mod Take
pub mod Grow
pub mod Alloc
pub mod Init
mod Tests
use system_programing.Common.{
  ℕ, zero, suc, ◌+◌, ◌-◌, ◌*◌, ◌/◌, ◌%◌, ◌^◌, ◌≤◌, ◌<◌, ◌≡◌, ◌≢◌, ◌⊎◌, List, [], ◌∷◌, ◌++◌, ◌==◌,
  if◌then◌else◌,
}
use system_programing.Malloc.{Heap}
use system_programing.Malloc.FreeList.{Ring}

-- The size of a block and its allocated bit. A list of blocks lies from the address of its first
-- header on: the block of size `s` with its header at `w` has its payload at `w + 4`, its footer at
-- `w + s - 4` and the next header at `w + s`.
abbrev pub Block : Type 0
Block = ℕ × ℕ

-- A header word: size, allocated bit, and the tag, which is the allocated bit of the block before.
abbrev pub Head : (ℕ → ℕ) → ℕ → ℕ → Block → Type 0
Head m u w b = (m w / 8 * 8 ≡ b.0) × (m w % 2 ≡ b.1) × (m w / 2 % 2 ≡ u)

-- A free block has its size in the footer too.
abbrev pub Foot : (ℕ → ℕ) → ℕ → Block → Type 0
Foot m w b = (b.1 ≡ 1) ⊎ (m (w + b.0 - 4) / 8 * 8 ≡ b.0)

abbrev pub Seg : (ℕ → ℕ) → ℕ → ℕ → List Block → Type 0
Seg m u w [] = Unit
Seg m u w (b ∷ bs) = (Head m u w b × Foot m w b) × Seg m b.1 (w + b.0) bs

-- Up to the epilogue, a header of size 0.
abbrev pub Tags : (ℕ → ℕ) → ℕ → ℕ → List Block → Type 0
Tags m u w [] = Head m u w (0, 1)
Tags m u w (b ∷ bs) = (Head m u w b × Foot m w b) × Tags m b.1 (w + b.0) bs

abbrev pub Fine : List Block → Type 0
Fine [] = Unit
Fine (b ∷ bs) = ((b.0 % 8 ≡ 0) × (16 ≤ b.0) × (b.1 < 2)) × Fine bs

-- No free block behind a free one.
abbrev pub Spread : ℕ → List Block → Type 0
Spread u [] = Unit
Spread u (b ∷ bs) = (1 ≤ u + b.1) × Spread b.1 bs

abbrev pub end : ℕ → List Block → ℕ
end w [] = w
end w (b ∷ bs) = end (w + b.0) bs

abbrev pub last_used : ℕ → List Block → ℕ
last_used u [] = u
last_used u (b ∷ bs) = last_used b.1 bs

-- How often a pointer is the payload of a free block of the list, and of a list of pointers.
abbrev pub count_free : ℕ → ℕ → List Block → ℕ
count_free x w [] = 0
count_free x w (b ∷ bs) =
    (if b.1 == 0 then (if w + 4 == x then 1 else 0) else 0) + count_free x (w + b.0) bs

abbrev pub count : ℕ → List ℕ → ℕ
count x [] = 0
count x (y ∷ ys) = (if y == x then 1 else 0) + count x ys

-- No header and no footer of the blocks, nor the header behind them.
abbrev pub Aside : ℕ → ℕ → List Block → Type 0
Aside q w [] = q ≢ w
Aside q w (b ∷ bs) = (q ≢ w) × (q ≢ w + b.0 - 4) × Aside q (w + b.0) bs

-- The allocated blocks: payload and size.
abbrev pub used : ℕ → List Block → List (ℕ × ℕ)
used w [] = []
used w ((s, zero) ∷ bs) = used (w + s) bs
used w ((s, suc a) ∷ bs) = (w + 4, s) ∷ used (w + s) bs

-- A word of an allocated block behind its header.
abbrev pub Body : ℕ → ℕ → List Block → Type 0
Body q w [] = ⊥
Body q w (b ∷ bs) = ((b.1 ≡ 1) × (w + 4 ≤ q) × (q < w + b.0)) ⊎ Body q (w + b.0) bs
