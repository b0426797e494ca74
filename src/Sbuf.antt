-- ===== src/Sbuf.antt =====
-- prj2/task2_new/stockserver.c: the bounded buffer `sbuf_t` between the main thread, which accepts
-- connections, and the worker threads. One step is one semaphore operation or one statement on the
-- buffer; the threads interleave in any order.
pub mod Invariant
pub mod Safety
mod Tests
use system_programing.Common.{
  ℕ, zero, suc, ◌+◌, ◌-◌, ◌%◌, ◌^◌, ◌<◌, ◌≡◌, List, [], ◌∷◌, ◌++◌, Option, none, some, get_elem?,
  set, replicate,
}
use system_programing.Common.Threads.{put_at}

-- `sbuf_t`, and the items that have been written to the buffer and read from it so far, which no
-- code reads. A counter of type `int` is its value: the steps keep it below 2 ^ 31.
pub record Shared : Type 0 where
  pub buf : List ℕ
  pub n : ℕ
  pub front : ℕ
  pub rear : ℕ
  pub mutex : ℕ
  pub slots : ℕ
  pub items : ℕ
  pub written : List ℕ
  pub taken : List ℕ

-- `sbuf_init(sp, n)`
unfoldable pub sbuf_init : ℕ → Shared
sbuf_init n = record {
  buf = replicate n 0;
  n = n;
  front = 0;
  rear = 0;
  mutex = 1;
  slots = n;
  items = 0;
  written = [];
  taken = [];
}

-- `sp->buf[(++sp->rear) % (sp->n)] = item`, where the increment does not overflow: `Move.write` asks
-- for that.
unfoldable pub put : Shared → ℕ → Shared
put m item = record m {
  rear = m.rear + 1;
  buf = set m.buf ((m.rear + 1) % m.n) item;
  written = m.written ++ item ∷ [];
}

-- `item = sp->buf[(++sp->front) % (sp->n)]`; `front` stays at or below `rear`.
unfoldable pub next_item : Shared → Option ℕ
next_item m = get_elem? m.buf ((m.front + 1) % m.n)

unfoldable pub drop_next : Shared → ℕ → Shared
drop_next m item = record m { front = m.front + 1; taken = m.taken ++ item ∷ [] }

-- The statement that a thread is about to execute, in `sbuf_insert` and in `sbuf_remove`.
pub data Pc : Type 0 where
  outside : Pc
  insert_wait_slot : (item : ℕ) → Pc
  insert_wait_mutex : (item : ℕ) → Pc
  insert_write : (item : ℕ) → Pc
  insert_unlock : Pc
  insert_announce : Pc
  remove_wait_item : Pc
  remove_wait_mutex : Pc
  remove_read : Pc
  remove_unlock : (item : ℕ) → Pc
  remove_announce : (item : ℕ) → Pc
  serve : (connfd : ℕ) → Pc

-- `P` waits until the semaphore is positive. Any thread may call either function: in the program
-- the main thread inserts, and each worker removes, serves and closes what it has got.
pub data Move (m : Shared) : Pc → Shared → Pc → Type 0 where
  call_insert : (connfd : ℕ) → Move m outside m (insert_wait_slot connfd)
  p_slots :
      {item : ℕ}
      → 0 < m.slots
      → Move m (insert_wait_slot item) (record m { slots = m.slots - 1 }) (insert_wait_mutex item)
  insert_p_mutex :
      {item : ℕ}
      → 0 < m.mutex
      → Move m (insert_wait_mutex item) (record m { mutex = m.mutex - 1 }) (insert_write item)
  -- The overflow of `++sp->rear` is undefined: there is no step.
  write : {item : ℕ} → m.rear + 1 < 2 ^ 31 → Move m (insert_write item) (put m item) insert_unlock
  insert_v_mutex : Move m insert_unlock (record m { mutex = m.mutex + 1 }) insert_announce
  v_items : Move m insert_announce (record m { items = m.items + 1 }) outside
  call_remove : Move m outside m remove_wait_item
  p_items :
      0 < m.items → Move m remove_wait_item (record m { items = m.items - 1 }) remove_wait_mutex
  remove_p_mutex :
      0 < m.mutex → Move m remove_wait_mutex (record m { mutex = m.mutex - 1 }) remove_read
  read :
      {item : ℕ}
      → next_item m ≡ some item
      → Move m remove_read (drop_next m item) (remove_unlock item)
  remove_v_mutex :
      {item : ℕ}
      → Move m (remove_unlock item) (record m { mutex = m.mutex + 1 }) (remove_announce item)
  v_slots :
      {item : ℕ} → Move m (remove_announce item) (record m { slots = m.slots + 1 }) (serve item)
  close : {connfd : ℕ} → Move m (serve connfd) m outside

pub record System : Type 0 where
  pub mem : Shared
  pub pc : ℕ → Pc

pub data Step (threads : ℕ) (s : System) : System → Type 0 where
  step :
      (i : ℕ) {m : Shared} {p : Pc}
      → i < threads
      → Move s.mem (s.pc i) m p
      → Step threads s (record { mem = m; pc = put_at s.pc i p })

abbrev pub start : ℕ → System
start n = record { mem = sbuf_init n; pc = λ _. outside }

pub data Reach (threads n : ℕ) : System → Type 0 where
  here : Reach threads n (start n)
  later : {s t : System} → Reach threads n s → Step threads s t → Reach threads n t
