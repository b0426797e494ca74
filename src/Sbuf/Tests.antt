-- ===== src/Sbuf/Tests.antt =====
-- prj2/task2_new/stockserver.c: runs of the bounded buffer, and the theorems at them.
use system_programing.Common.{
  ℕ, ◌+◌, ◌%◌, ◌<◌, ◌≤◌, ◌≡◌, refl, arith, List, ◌++◌, some, get_elem?, length,
}
use system_programing.Sbuf.{
  next_item, call_insert, p_slots, insert_p_mutex, write, insert_v_mutex, v_items, call_remove,
  p_items, remove_p_mutex, System, step, Reach, here, later, sbuf_init, put,
}
use system_programing.Sbuf.Safety.{
  buffer_mutual_exclusion, fifo, read_finds_oldest, SomeMoves, buffer_no_deadlock,
}

abbrev Run : ℕ → Type 0
Run n = (s : System) × Reach 2 n s

-- Thread 0 is about to write connection 7.
abbrev writing_run : Run 4
unfolding sbuf_init
writing_run = (
  _,
  later
      (later (later here (step 0 (omega arith) (call_insert 7)))
        (step 0 (omega arith) (p_slots (omega arith))))
      (step 0 (omega arith) (insert_p_mutex (omega arith))),
)

buffer_mutual_exclusion_example : ◌≡◌ {A = ℕ} 0 0
unfolding sbuf_init
buffer_mutual_exclusion_example =
    buffer_mutual_exclusion writing_run.1 0 0 (omega arith) (omega arith) refl refl

-- The connection is in the buffer, and thread 1 is about to read it.
abbrev reading_run : Run 4
unfolding sbuf_init put
reading_run = (
  _,
  later
      (later
        (later
          (later
            (later (later writing_run.1 (step 0 (omega arith) (write (omega arith))))
              (step 0 (omega arith) insert_v_mutex))
            (step 0 (omega arith) v_items))
          (step 1 (omega arith) call_remove))
        (step 1 (omega arith) (p_items (omega arith))))
      (step 1 (omega arith) (remove_p_mutex (omega arith))),
)

read_finds_oldest_example :
    (item : ℕ) × (next_item reading_run.0.mem ≡ some item)
    × (get_elem? reading_run.0.mem.written (length reading_run.0.mem.taken) ≡ some item)
unfolding sbuf_init put
read_finds_oldest_example = read_finds_oldest reading_run.1 1 (omega arith) refl

fifo_example :
    (pending : List ℕ) × (reading_run.0.mem.written ≡ reading_run.0.mem.taken ++ pending)
    × (length pending ≤ 4)
    × ((k : ℕ)
        → k < length pending
        → get_elem? reading_run.0.mem.buf ((reading_run.0.mem.front + 1 + k) % reading_run.0.mem.n)
          ≡ get_elem? pending k)
unfolding sbuf_init put
fifo_example = fifo reading_run.1

-- Thread 0 waits for a slot, and thread 1 for an item.
abbrev waiting_run : Run 4
unfolding sbuf_init
waiting_run = (
  _,
  later (later here (step 0 (omega arith) (call_insert 7))) (step 1 (omega arith) call_remove),
)

buffer_no_deadlock_example : SomeMoves 2 waiting_run.0
unfolding sbuf_init
buffer_no_deadlock_example =
    buffer_no_deadlock waiting_run.1 (omega arith) 0 1 7 (omega arith) (omega arith) (omega arith)
      refl refl
