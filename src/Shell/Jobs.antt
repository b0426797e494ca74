-- ===== src/Shell/Jobs.antt =====
-- prj1/20191630/phase3/myshell.c: the doubly linked list of jobs, on an explicit heap.
pub mod Chain
pub mod Change
pub mod Remove
use system_programing.Common.{
  ℕ, zero, suc, ◌+◌, Bool, true, false, List, [], ◌∷◌, ◌++◌, Option, none, some, ◌>>=◌, ◌==◌,
  if◌then◌else◌,
}
use system_programing.Common.Int.{ℤ, pos}
use system_programing.Common.Text.{Bytes, codes, newline}
use system_programing.Common.Decimal.{print_int}

-- PROCESS_RUNNING, PROCESS_STOP, PROCESS_DONE, PROCESS_TERMINATE
pub data JobState : Type 0 where
  running : JobState
  stop : JobState
  done : JobState
  terminate : JobState

-- `struct JOB`; `none` is the null pointer.
pub record Job : Type 0 where
  pub prev : Option ℕ
  pub next : Option ℕ
  pub id : ℕ
  pub status : JobState
  pub pid : ℕ
  pub command : Bytes

abbrev pub Heap : Type 0
Heap = ℕ → Option Job

-- The globals that the job functions use, the heap, and what goes out: the text that is printed
-- and the signals that are sent. `fresh` is the address that `malloc` returns next.
pub record Shell : Type 0 where
  pub cell : Heap
  pub fresh : ℕ
  pub first_job : Option ℕ
  pub last_job : Option ℕ
  pub curruent_job_id : ℕ
  pub current_pid : ℕ
  pub current_command : Bytes
  pub output : List Bytes
  pub signals : List (ℕ × ℕ)

abbrev pub write : Heap → ℕ → Option Job → Heap
write cell p j q = if p == q then j else cell q

abbrev pub ptr_eq : Option ℕ → Option ℕ → Bool
ptr_eq none none = true
ptr_eq none (some q) = false
ptr_eq (some p) none = false
ptr_eq (some p) (some q) = p == q

-- Each match moves the rest of the text one place down, and the place is looked at again.
unfoldable pub remove_char : Bytes → ℕ → Bytes
remove_char [] ch = []
remove_char (c ∷ str) ch = if c == ch then remove_char str ch else c ∷ remove_char str ch

unfoldable pub state_name : JobState → Bytes
state_name done = codes "Done"
state_name running = codes "Running"
state_name stop = codes "Stopped"
state_name terminate = codes "Terminated"

abbrev pub puts : Shell → Bytes → Shell
puts s text = record s { output = s.output ++ text ∷ [] }

-- `[%d]\t%s\t\t %s\n`
unfoldable pub print_bg_process_state : Shell → Job → JobState → Shell
print_bg_process_state s job status = puts s (
    codes "["
    ++ (print_int (pos job.id)
        ++ (codes "]"
            ++ (9 ∷ state_name status)
            ++ (9 ∷ 9 ∷ codes " ")
            ++ job.command
            ++ newline ∷ [])))

-- `[%d] %d\n`
unfoldable pub print_bg_process_create : Shell → ℕ → ℕ → Shell
print_bg_process_create s pid id =
    puts s (codes "[" ++ print_int (pos id) ++ codes "] " ++ print_int (pos pid) ++ newline ∷ [])

-- `last_job->next = new_job`, where there is a last job; `none` is a bad pointer.
unfoldable pub set_next : Heap → Option ℕ → Option ℕ → Option Heap
set_next cell none next = some cell
set_next cell (some p) next = cell p >>= λ j. some (write cell p (some (record j { next = next })))

unfoldable pub set_prev : Heap → Option ℕ → Option ℕ → Option Heap
set_prev cell none prev = some cell
set_prev cell (some p) prev = cell p >>= λ j. some (write cell p (some (record j { prev = prev })))

unfoldable pub new_job : Shell → ℕ → Bytes → Bool → Job
new_job s pid command is_stop = record {
  prev = s.last_job;
  next = none;
  id = s.curruent_job_id;
  status = if is_stop then stop else running;
  pid = pid;
  command = remove_char command b'&';
}

-- The new job in the heap and at the end of the list.
unfoldable pub enlist : Shell → Heap → Job → Shell
enlist s cell job = record s {
  cell = write cell s.fresh (some job);
  fresh = s.fresh + 1;
  first_job = elim s.first_job [ none ↦ some s.fresh | some p ↦ some p ];
  last_job = some s.fresh;
  curruent_job_id = s.curruent_job_id + 1;
}

unfoldable pub announce : Shell → Job → Bool → Shell
announce s job true = print_bg_process_state s job stop
announce s job false = print_bg_process_create s job.pid job.id

-- `create_bg_process`; the old last job gets its `next` first.
unfoldable pub create_bg_process : Shell → ℕ → Bytes → Bool → Option Shell
create_bg_process s pid command is_stop = do
  let job = new_job s pid command is_stop
  cell ← set_next s.cell s.last_job (some s.fresh)
  some (announce (enlist s cell job) job is_stop)

-- The next ID once the last job of the list is gone.
unfoldable pub next_id : Heap → Option ℕ → Option ℕ
next_id cell none = some 1
next_id cell (some p) = cell p >>= λ j. some (j.id + 1)

-- `remove_job_node`; `free` makes the address one that no read may follow.
unfoldable pub remove_job_node : Shell → ℕ → Option Shell
remove_job_node s p = do
  job ← s.cell p
  let is_last = ptr_eq (some p) s.last_job
  id ← (if is_last then next_id s.cell job.prev else some s.curruent_job_id)
  cell ← set_prev s.cell job.next job.prev
  cell' ← set_next cell job.prev job.next
  some (record s {
    cell = write cell' p none;
    first_job = if ptr_eq (some p) s.first_job then job.next else s.first_job;
    last_job = if is_last then job.prev else s.last_job;
    curruent_job_id = id;
  })
