-- ===== src/ReadWrite/Counts.antt =====
-- prj2/task2_new/stock_endpoint.c: what the semaphores and the count of readers stand for.
use Prim.Native.Nat.{min}
use system_programing.Common.{ℕ, ◌+◌, ◌<◌, ◌≡◌, arith}
use system_programing.Common.Threads.{put_at, tally, tally-put_at}
use system_programing.ReadWrite.{
  Node, Pc, read_count, read_first, read_lock, read_entered, reading, read_leave, read_uncount,
  read_last, read_unlock, read_left, write_test, write_load, write_store, write_unlock, Move,
  call_read, enter, count, is_first, not_first, lock, entered, read, leave, uncount, is_last,
  not_last, unlock, left, call_write, acquire, refuse, accept, load, store, release,
}

-- The places between `P` and `V` of `mutex_read`, by what they say of `mutex`.
abbrev pub passing : Pc → ℕ
passing read_first = 1
passing _ = 0

abbrev pub waiting : Pc → ℕ
waiting read_lock = 1
waiting _ = 0

abbrev pub testing : Pc → ℕ
testing (read_last _) = 1
testing _ = 0

abbrev pub unlocking : Pc → ℕ
unlocking (read_unlock _) = 1
unlocking _ = 0

abbrev pub at_door : Pc → ℕ
at_door read_count = 1
at_door read_entered = 1
at_door (read_uncount _) = 1
at_door (read_left _) = 1
at_door _ = 0

-- A reader that may rely on `mutex`.
abbrev pub settled : Pc → ℕ
settled read_entered = 1
settled reading = 1
settled (read_leave _) = 1
settled (read_uncount _) = 1
settled _ = 0

-- A writer between `P` and `V` of `mutex`.
abbrev pub writing : Pc → ℕ
writing (write_test _) = 1
writing (write_load _) = 1
writing (write_store _ _) = 1
writing (write_unlock _) = 1
writing _ = 0

pub record Counts (threads : ℕ) (m : Node) (pc : ℕ → Pc) : Type 0 where
  pub door :
      m.mutex_read
        + tally passing threads pc
        + tally waiting threads pc
        + tally testing threads pc
        + tally unlocking threads pc
        + tally at_door threads pc
      ≡ 1
  pub readers :
      m.read_cnt ≡ tally passing threads pc + tally waiting threads pc + tally settled threads pc
  pub held :
      m.mutex
        + tally writing threads pc
        + min 1 (tally settled threads pc + tally testing threads pc + tally unlocking threads pc)
      ≡ 1
  pub first : 0 < tally waiting threads pc → m.read_cnt ≡ 1
  pub last : 0 < tally unlocking threads pc → m.read_cnt ≡ 0

module _ {threads : ℕ} {m : Node} {pc : ℕ → Pc} (inv : Counts threads m pc) (i : ℕ)
    (lt : i < threads) where
  open inv use {door, readers, held, first, last}

  -- The tallies after thread `i` has gone from `p` to `p'`.
  pub record Moved (p p' : Pc) : Type 0 where
    c1 : tally passing threads (put_at pc i p') + passing p ≡ tally passing threads pc + passing p'
    c2 : tally waiting threads (put_at pc i p') + waiting p ≡ tally waiting threads pc + waiting p'
    c3 : tally testing threads (put_at pc i p') + testing p ≡ tally testing threads pc + testing p'
    c4 :
        tally unlocking threads (put_at pc i p') + unlocking p
        ≡ tally unlocking threads pc + unlocking p'
    c5 : tally at_door threads (put_at pc i p') + at_door p ≡ tally at_door threads pc + at_door p'
    c6 : tally settled threads (put_at pc i p') + settled p ≡ tally settled threads pc + settled p'
    c7 : tally writing threads (put_at pc i p') + writing p ≡ tally writing threads pc + writing p'

  pub moved : {p : Pc} → pc i ≡ p → (p' : Pc) → Moved p p'
  moved e p' = rw (← e) (record {
    c1 = tally-put_at passing threads pc i p' lt;
    c2 = tally-put_at waiting threads pc i p' lt;
    c3 = tally-put_at testing threads pc i p' lt;
    c4 = tally-put_at unlocking threads pc i p' lt;
    c5 = tally-put_at at_door threads pc i p' lt;
    c6 = tally-put_at settled threads pc i p' lt;
    c7 = tally-put_at writing threads pc i p' lt;
  })

  pub Move-Counts :
      {p p' : Pc} {m' : Node} → Move m p m' p' → Moved p p' → Counts threads m' (put_at pc i p')
  Move-Counts call_read c = omega arith
  Move-Counts (enter h) c = omega arith
  Move-Counts count c = omega arith
  Move-Counts (is_first h) c = omega arith
  Move-Counts (not_first h) c = omega arith
  Move-Counts (lock h) c = omega arith
  Move-Counts entered c = omega arith
  Move-Counts read c = omega arith
  Move-Counts (leave h) c = omega arith
  Move-Counts uncount c = omega arith
  Move-Counts (is_last h) c = omega arith
  Move-Counts (not_last h) c = omega arith
  Move-Counts unlock c = omega arith
  Move-Counts left c = omega arith
  Move-Counts (call_write a h) c = omega arith
  Move-Counts (acquire h) c = omega arith
  Move-Counts (refuse h) c = omega arith
  Move-Counts (accept h) c = omega arith
  Move-Counts load c = omega arith
  Move-Counts store c = omega arith
  Move-Counts release c = omega arith
