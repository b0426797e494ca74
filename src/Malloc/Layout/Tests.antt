-- ===== src/Malloc/Layout/Tests.antt =====
-- prj3/prj3-malloc: the theorems on the list of blocks at a heap of three blocks.
use system_programing.Common.{
  ℕ, ◌+◌, ◌*◌, ◌^◌, ◌≡◌, refl, inl, inr, arith, List, [], ◌∷◌, Option, some, ◌==◌, if◌then◌else◌,
}
use system_programing.Common.Int.{pos}
use system_programing.Malloc.{Heap}
use system_programing.Malloc.Api.{mem_init, mm_init, mm_malloc, mm_free}
use system_programing.Malloc.Layout.Focus.{IsHeap}
use system_programing.Malloc.Layout.Free.{Freed, mm_free-IsHeap}
use system_programing.Malloc.Layout.Grow.{Allocated}
use system_programing.Malloc.Layout.Alloc.{mm_malloc-Allocated}
use system_programing.Malloc.Layout.Init.{mm_init-IsHeap}

abbrev word_at : List (ℕ × ℕ) → ℕ → ℕ
word_at [] q = 0
word_at ((p, v) ∷ words) q = if p == q then v else word_at words q

-- A free block of 32 bytes, an allocated one of 24 bytes at 64, a free one of 40 bytes.
abbrev three_blocks : Heap
three_blocks = record {
  mem = word_at (
      (12, 20)
      ∷ (16, 76)
      ∷ (28, 34)
      ∷ (32, 76)
      ∷ (36, 0)
      ∷ (56, 32)
      ∷ (60, 25)
      ∷ (84, 42)
      ∷ (88, 0)
      ∷ (92, 20)
      ∷ (120, 40)
      ∷ (124, 1)
      ∷ []);
  mem_start_brk = 8;
  mem_brk = 128;
  mem_max_addr = 8 + 20 * 2 ^ 20;
  heap_head = 24;
  heap_tail = 124;
  free_head = 12;
}

three_blocks-IsHeap : IsHeap three_blocks ((32, 0) ∷ (24, 1) ∷ (40, 0) ∷ []) (88 ∷ 32 ∷ [])
three_blocks-IsHeap = record {
  tags = (
    ((refl, refl, refl), inr refl),
    (((refl, refl, refl), inl refl), (((refl, refl, refl), inr refl), (refl, refl, refl))),
  );
  fine = (
    (refl, omega arith, omega arith),
    ((refl, omega arith, omega arith), ((refl, omega arith, omega arith), tt)),
  );
  spread = (omega arith, (omega arith, (omega arith, tt)));
  ring = (
    ((refl, refl), ((refl, refl), (refl, refl))),
    (
      (omega arith, inl refl, omega arith, (omega arith, (omega arith, tt))),
      (
        (omega arith, omega arith, omega arith, (omega arith, tt)),
        ((omega arith, omega arith), omega arith),
      ),
    ),
  );
  bag = λ x. ground arith;
  bounds = record {
    tail = refl;
    brk = refl;
    room = omega arith;
    low = omega arith;
    aligned = refl;
  };
}

mm_free-IsHeap_example :
    Freed three_blocks (mm_free three_blocks 64) ((32, 0) ∷ []) 24 ((40, 0) ∷ [])
mm_free-IsHeap_example =
    mm_free-IsHeap three_blocks ((32, 0) ∷ []) 24 ((40, 0) ∷ []) (88 ∷ 32 ∷ []) three_blocks-IsHeap

mm_malloc-Allocated_example :
    (r : Option ℕ × Heap) × ((mm_malloc three_blocks 3 10 ≡ some r)
      × Allocated three_blocks ((32, 0) ∷ (24, 1) ∷ (40, 0) ∷ []) 10 r)
mm_malloc-Allocated_example =
    mm_malloc-Allocated three_blocks 3 10 ((32, 0) ∷ (24, 1) ∷ (40, 0) ∷ []) (88 ∷ 32 ∷ [])
      three_blocks-IsHeap (omega arith) (omega arith) (omega arith)

mm_init-IsHeap_example :
    (h : Heap) × ((mm_init (mem_init 8 (λ p. 0)) ≡ (pos 0, h))
      × IsHeap h ((4096, 0) ∷ []) (32 ∷ []))
mm_init-IsHeap_example = mm_init-IsHeap 8 (λ p. 0) refl (omega arith)
