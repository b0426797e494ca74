-- ===== src/Malloc/Session/Tests.antt =====
-- prj3/prj3-malloc: a client that gets two blocks and writes to one.
use system_programing.Common.{All, ℕ, ◌≡◌, refl, arith, [], ◌∷◌, Option, none, some}
use system_programing.Common.Int.{pos}
use system_programing.Malloc.{
  Heap, write_word, put, connect, insert_list, erase, mem_sbrk, or3, pack, set_alloc, clr_alloc,
  set_tag, clr_tag, set_size, hdrp, block_size, ftrp, next_block, prev_block,
}
use system_programing.Malloc.Blocks.{
  merge_next, merge_prev, merge_both, coalesce, add_block, even_bytes, extend_heap, better,
  fit_loop, find_fit_at_list, release_rest, place_low, place_high, place,
}
use system_programing.Malloc.Api.{
  mem_init, lay_out, first_free, mm_init, alloc_size, grow, mm_malloc, mm_free,
}
use system_programing.Malloc.Session.{Session, Sound, Reads, learned, begins, gets, writes}
use system_programing.Malloc.Session.Reads.{Session-Reads}
use system_programing.Malloc.Session.Safety.{Session-Sound}

abbrev fresh : Heap
fresh = (mm_init (mem_init 8 (λ p. 0))).1

abbrev heap_of : Option (Option ℕ × Heap) → Heap
heap_of none = fresh
heap_of (some r) = r.1

abbrev got : Heap
got = heap_of (mm_malloc fresh 9 10)

fresh_run : mm_init (mem_init 8 (λ p. 0)) ≡ (pos 0, fresh)
unfolding or3 pack set_alloc clr_alloc set_tag clr_tag set_size hdrp block_size ftrp next_block
    prev_block put connect insert_list erase mem_sbrk merge_next merge_prev merge_both coalesce
    add_block even_bytes extend_heap better fit_loop find_fit_at_list release_rest place_low
    place_high place mem_init lay_out first_free mm_init alloc_size grow mm_malloc mm_free
fresh_run = refl

got_run : mm_malloc fresh 9 10 ≡ some (some 32, got)
unfolding or3 pack set_alloc clr_alloc set_tag clr_tag set_size hdrp block_size ftrp next_block
    prev_block put connect insert_list erase mem_sbrk merge_next merge_prev merge_both coalesce
    add_block even_bytes extend_heap better fit_loop find_fit_at_list release_rest place_low
    place_high place mem_init lay_out first_free mm_init alloc_size grow mm_malloc mm_free
got_run = refl

fresh_limit : fresh.mem_max_addr ≡ 20971528
unfolding or3 pack set_alloc clr_alloc set_tag clr_tag set_size hdrp block_size ftrp next_block
    prev_block put connect insert_list erase mem_sbrk merge_next merge_prev merge_both coalesce
    add_block even_bytes extend_heap better fit_loop find_fit_at_list release_rest place_low
    place_high place mem_init lay_out first_free mm_init alloc_size grow mm_malloc mm_free
fresh_limit = refl

got_limit : (put got 36 7).mem_max_addr ≡ 20971528
unfolding or3 pack set_alloc clr_alloc set_tag clr_tag set_size hdrp block_size ftrp next_block
    prev_block put connect insert_list erase mem_sbrk merge_next merge_prev merge_both coalesce
    add_block even_bytes extend_heap better fit_loop find_fit_at_list release_rest place_low
    place_high place mem_init lay_out first_free mm_init alloc_size grow mm_malloc mm_free
got_limit = refl

abbrev got_next : Heap
got_next = heap_of (mm_malloc (put got 36 7) 9 20)

got_next_run : mm_malloc (put got 36 7) 9 20 ≡ some (some 48, got_next)
unfolding or3 pack set_alloc clr_alloc set_tag clr_tag set_size hdrp block_size ftrp next_block
    prev_block put connect insert_list erase mem_sbrk merge_next merge_prev merge_both coalesce
    add_block even_bytes extend_heap better fit_loop find_fit_at_list release_rest place_low
    place_high place mem_init lay_out first_free mm_init alloc_size grow mm_malloc mm_free
got_next_run = refl

-- It asks for 10 bytes and writes a word.
abbrev written : ℕ → ℕ
written = write_word (learned (λ p. 0) got 32 10) 36 7

one_block : Session (put got 36 7) ((32, 10) ∷ []) written
one_block =
    writes got [] 32 10 [] (learned (λ p. 0) got 32 10) 36 7
      (gets fresh [] (λ p. 0) 9 10 32 got
        (begins 8 (λ p. 0) fresh (λ p. 0) refl (omega arith) fresh_run) (omega arith)
        (omega (arith, fresh_limit)) got_run)
      (omega arith, omega arith) refl

-- It asks for 20 bytes more.
two_blocks : Session got_next ((48, 20) ∷ (32, 10) ∷ []) (learned written got_next 48 20)
two_blocks =
    gets (put got 36 7) ((32, 10) ∷ []) written 9 20 48 got_next one_block (omega arith)
      (omega (arith, got_limit)) got_next_run

Session-Sound_example : Sound got_next ((48, 20) ∷ (32, 10) ∷ [])
Session-Sound_example =
    Session-Sound got_next ((48, 20) ∷ (32, 10) ∷ []) (learned written got_next 48 20) two_blocks

Session-Reads_example :
    All (Reads got_next (learned written got_next 48 20)) ((48, 20) ∷ (32, 10) ∷ [])
Session-Reads_example =
    Session-Reads got_next ((48, 20) ∷ (32, 10) ∷ []) (learned written got_next 48 20) two_blocks
