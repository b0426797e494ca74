-- ===== src/ReadWrite/Tests.antt =====
-- prj2/task2_new/stock_endpoint.c: a reader and a writer at one node, and the theorems.
use system_programing.Common.{ℕ, ◌<◌, ◌≡◌, ◌≢◌, refl, arith}
use system_programing.Common.Int.{pos, negsuc, ◌+ℤ◌, ◌≤ℤ◌, add_int, wrap32}
use system_programing.ReadWrite.{
  Pc, Move, Node, new_node, outside, reading, call_read, enter, call_write, acquire, accept, load,
  store, System, step, Reach, here, later,
}
use system_programing.ReadWrite.Counts.{settled, writing}
use system_programing.ReadWrite.Invariant.{sum}
use system_programing.ReadWrite.Safety.{
  writer_excludes, stale_count_races, no_lost_update, lock_no_deadlock,
}

abbrev Run : Type 0
Run = (s : System) × Reach 2 (pos 10) 0 s

-- Thread 1 has been let in to read; thread 0 has taken the lock to sell 3.
abbrev writing_run : Run
unfolding new_node
writing_run = (
  _,
  later
      (later
        (later (later here (step 0 (omega arith) refl (call_write (negsuc 2) (omega arith))))
          (step 0 (omega arith) refl (acquire (omega arith))))
        (step 1 (omega arith) refl call_read))
      (step 1 (omega arith) refl (enter (omega arith))),
)

writer_excludes_example :
    (settled (writing_run.0.pc 1) ≡ 0) × (writing (writing_run.0.pc 1) ≡ 1 → ◌≡◌ {A = ℕ} 0 1)
unfolding new_node
writer_excludes_example =
    writer_excludes (omega arith) (omega arith) writing_run.1 0 1 (omega arith) (omega arith) refl

lock_no_deadlock_example :
    (i : ℕ) × (i < 2)
    × (writing_run.0.pc i ≢ outside)
    × ((m : Node) × (p : Pc) × Move writing_run.0.mem (writing_run.0.pc i) m p)
unfolding new_node
lock_no_deadlock_example =
    lock_no_deadlock (omega arith) (omega arith) writing_run.1 (λ j. refl) 1 (omega arith) (λ e. cc)

-- The sale is stored.
abbrev stored_run : Run
unfolding new_node add_int wrap32 ◌+ℤ◌
stored_run = (
  _,
  later
      (later (later writing_run.1 (step 0 (omega arith) refl (accept refl)))
        (step 0 (omega arith) refl load))
      (step 0 (omega arith) refl store),
)

no_lost_update_example :
    (pos 0 ≤ℤ stored_run.0.mem.cnt) × (stored_run.0.mem.cnt ≡ pos 10 +ℤ sum stored_run.0.mem.stored)
unfolding new_node add_int wrap32 ◌+ℤ◌
no_lost_update_example = no_lost_update (omega arith) (omega arith) stored_run.1

stale_count_races_example :
    (s : System) × Reach 2 (pos 10) 3 s × (s.pc 1 ≡ reading) × (writing (s.pc 0) ≡ 1)
stale_count_races_example = stale_count_races (pos 10) 3 (λ e. absurd (omega arith))
