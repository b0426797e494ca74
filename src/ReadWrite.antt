-- ===== src/ReadWrite.antt =====
-- prj2/task2_new/stock_endpoint.c: one node of the tree under its two semaphores. Threads that
-- serve `show` read it in `set_stocks_info`, threads that serve `buy` and `sell` write it in
-- `update_stock`. No thread holds a semaphore of two nodes, so a node is taken alone. SIGINT runs
-- `terminate_handler` in the thread that it interrupts: the handler reads the nodes too, ends in
-- `exit`, and never goes back to the thread.
pub mod Counts
pub mod Invariant
pub mod Safety
mod Tests
use system_programing.Common.{ℕ, ◌+◌, ◌-◌, ◌<◌, ◌≡◌, ◌≢◌, Bool, true, false, List, [], ◌∷◌}
use system_programing.Common.Int.{ℤ, pos, ltb_ℤ, add_int, IsInt}
use system_programing.Common.Threads.{put_at}
use system_programing.Stock.{Status, not_enough, success}

-- The fields of `struct stock` that threads share. `read_cnt` counts threads: it stays far below
-- the end of `int`.
pub record Node : Type 0 where
  pub cnt : ℤ
  pub read_cnt : ℕ
  pub mutex : ℕ
  pub mutex_read : ℕ
  pub stored : List ℤ  -- the amounts of the successful updates so far, which no code reads

-- As `insert_stock` makes it: it leaves `read_cnt` as `malloc` has it, here a number `stale`.
unfoldable pub new_node : ℤ → ℕ → Node
new_node cnt stale = record { cnt = cnt; read_cnt = stale; mutex = 1; mutex_read = 1; stored = [] }

-- The statement that a thread is about to execute.
pub data Pc : Type 0 where
  outside : Pc
  -- `set_stocks_info`
  read_enter : Pc  -- P(&cur->mutex_read)
  read_count : Pc  -- cur->read_cnt++
  read_first : Pc  -- if (cur->read_cnt == 1)
  read_lock : Pc  -- P(&cur->mutex)
  read_entered : Pc  -- V(&cur->mutex_read)
  reading : Pc  -- sprintf
  read_leave : (seen : ℤ) → Pc  -- P(&cur->mutex_read)
  read_uncount : (seen : ℤ) → Pc  -- cur->read_cnt--
  read_last : (seen : ℤ) → Pc  -- if (cur->read_cnt == 0)
  read_unlock : (seen : ℤ) → Pc  -- V(&cur->mutex)
  read_left : (seen : ℤ) → Pc  -- V(&cur->mutex_read)
  -- `update_stock`
  write_lock : (amount : ℤ) → Pc  -- P(&target_stock->mutex)
  write_test : (amount : ℤ) → Pc  -- if (target_stock->cnt + cnt < 0)
  write_load : (amount : ℤ) → Pc  -- target_stock->cnt += cnt, the read
  write_store : (amount seen : ℤ) → Pc  -- and the write
  write_unlock : Status → Pc  -- V(&target_stock->mutex)

pub data Move (m : Node) : Pc → Node → Pc → Type 0 where
  call_read : Move m outside m read_enter
  enter :
      0 < m.mutex_read → Move m read_enter (record m { mutex_read = m.mutex_read - 1 }) read_count
  count : Move m read_count (record m { read_cnt = m.read_cnt + 1 }) read_first
  is_first : m.read_cnt ≡ 1 → Move m read_first m read_lock
  not_first : m.read_cnt ≢ 1 → Move m read_first m read_entered
  lock : 0 < m.mutex → Move m read_lock (record m { mutex = m.mutex - 1 }) read_entered
  entered : Move m read_entered (record m { mutex_read = m.mutex_read + 1 }) reading
  read : Move m reading m (read_leave m.cnt)
  leave :
      {seen : ℤ}
      → 0 < m.mutex_read
      → Move m (read_leave seen) (record m { mutex_read = m.mutex_read - 1 }) (read_uncount seen)
  uncount :
      {seen : ℤ}
      → Move m (read_uncount seen) (record m { read_cnt = m.read_cnt - 1 }) (read_last seen)
  is_last : {seen : ℤ} → m.read_cnt ≡ 0 → Move m (read_last seen) m (read_unlock seen)
  not_last : {seen : ℤ} → m.read_cnt ≢ 0 → Move m (read_last seen) m (read_left seen)
  unlock :
      {seen : ℤ} → Move m (read_unlock seen) (record m { mutex = m.mutex + 1 }) (read_left seen)
  left : {seen : ℤ} → Move m (read_left seen) (record m { mutex_read = m.mutex_read + 1 }) outside
  call_write : (amount : ℤ) → IsInt amount → Move m outside m (write_lock amount)
  acquire :
      {amount : ℤ}
      → 0 < m.mutex
      → Move m (write_lock amount) (record m { mutex = m.mutex - 1 }) (write_test amount)
  refuse :
      {amount : ℤ}
      → ltb_ℤ (add_int m.cnt amount) (pos 0) ≡ true
      → Move m (write_test amount) m (write_unlock not_enough)
  accept :
      {amount : ℤ}
      → ltb_ℤ (add_int m.cnt amount) (pos 0) ≡ false
      → Move m (write_test amount) m (write_load amount)
  load : {amount : ℤ} → Move m (write_load amount) m (write_store amount m.cnt)
  store :
      {amount seen : ℤ}
      → Move m
          (write_store amount seen)
          (record m { cnt = add_int seen amount; stored = amount ∷ m.stored })
          (write_unlock success)
  release : {st : Status} → Move m (write_unlock st) (record m { mutex = m.mutex + 1 }) outside

-- Thread `i` stands at `pc i`, and the handler that has interrupted it at `pc (threads + i)`.
pub record System : Type 0 where
  pub mem : Node
  pub pc : ℕ → Pc
  pub interrupted : ℕ → Bool

pub data Step (threads : ℕ) (s : System) : System → Type 0 where
  step :
      (i : ℕ) {m : Node} {p : Pc}
      → i < threads
      → s.interrupted i ≡ false
      → Move s.mem (s.pc i) m p
      → Step threads s (record s { mem = m; pc = put_at s.pc i p })
  -- SIGINT arrives at thread `i`, and `write_to_file` comes to this node.
  interrupt :
      (i : ℕ)
      → i < threads
      → s.interrupted i ≡ false
      → Step threads s (record s {
        pc = put_at s.pc (threads + i) read_enter;
        interrupted = put_at s.interrupted i true;
      })
  -- The handler visits the node once.
  handle :
      (i : ℕ) {m : Node} {p : Pc}
      → i < threads
      → s.interrupted i ≡ true
      → s.pc (threads + i) ≢ outside
      → Move s.mem (s.pc (threads + i)) m p
      → Step threads s (record s { mem = m; pc = put_at s.pc (threads + i) p })

abbrev pub start : ℤ → ℕ → System
start cnt stale = record { mem = new_node cnt stale; pc = λ _. outside; interrupted = λ _. false }

pub data Reach (threads : ℕ) (cnt : ℤ) (stale : ℕ) : System → Type 0 where
  here : Reach threads cnt stale (start cnt stale)
  later : {s t : System} → Reach threads cnt stale s → Step threads s t → Reach threads cnt stale t
