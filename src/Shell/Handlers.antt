-- ===== src/Shell/Handlers.antt =====
-- prj1/20191630/phase3/myshell.c: the signal handlers and the commands jobs, kill, fg and bg. A
-- walk through the list takes fuel: more than the number of jobs is enough.
pub mod Walk
pub mod Reap
pub mod Suspend
use system_programing.Common.{
  ℕ, zero, suc, ◌+◌, Bool, true, false, List, [], ◌∷◌, ◌++◌, Option, none, some, ◌>>=◌, ◌==◌,
  if◌then◌else◌,
}
use system_programing.Common.Int.{ℤ, pos, ◌==ℤ◌}
use system_programing.Common.Text.{Bytes, codes, str_eq, newline}
use system_programing.Common.Decimal.{atoi, print_int}
use system_programing.Shell.Jobs.{
  JobState, running, stop, done, terminate, Job, Heap, Shell, write, puts, remove_char,
  print_bg_process_state, create_bg_process, remove_job_node,
}

abbrev pub sigkill : ℕ
sigkill = 9

abbrev pub sigcont : ℕ
sigcont = 18

abbrev pub sigstop : ℕ
sigstop = 19

abbrev pub kill : Shell → ℕ → ℕ → Shell
kill s pid sig = record s { signals = s.signals ++ (pid, sig) ∷ [] }

-- `while (job != NULL) { if (test) …; job = job->next; }` up to the first hit. The outer `none` is
-- a read through a bad pointer, or the end of the fuel.
unfoldable pub find_job : (Job → Bool) → ℕ → Heap → Option ℕ → Option (Option (ℕ × Job))
find_job test zero cell cur = none
find_job test (suc fuel) cell none = some none
find_job test (suc fuel) cell (some p) = elim (cell p) [
  | none ↦ none
  | some j ↦ elim (test j) [ true ↦ some (some (p, j)) | false ↦ find_job test fuel cell j.next ]
]

-- What `waitpid(-1, &status, WNOHANG)` says of a child that has ended.
pub data Exit : Type 0 where
  exited : Exit
  signaled : (sig : ℕ) → Exit

-- A normal exit and SIGKILL end the job; a job that another signal has ended stays in the list.
unfoldable pub settle : Shell → ℕ → Job → Exit → Option Shell
settle s p job exited = remove_job_node (print_bg_process_state (puts s (newline ∷ [])) job done) p
settle s p job (signaled sig) =
    if sig == sigkill
    then remove_job_node (print_bg_process_state (puts s (newline ∷ [])) job terminate) p
    else some s

-- The loop over the children that have ended. `cur` is set once, before the loop, and each search
-- goes on from where the last one stopped.
unfoldable pub reap : ℕ → Shell → Option ℕ → List (ℕ × Exit) → Option Shell
reap fuel s cur [] = some s
reap fuel s cur ((pid, status) ∷ children) = find_job (λ j. j.pid == pid) fuel s.cell cur >>= λ r.
    elim r [
      | none ↦ reap fuel s none children
      | some (p, job) ↦ settle s p job status >>= λ s'. reap fuel s' (some p) children
    ]

-- The handler of SIGCHLD.
unfoldable pub terminate_process_handler : ℕ → Shell → List (ℕ × Exit) → Option Shell
terminate_process_handler fuel s children = reap fuel s s.first_job children

abbrev pub stopped_job : Job → Job
stopped_job job = record job { status = stop; command = remove_char job.command b'&' }

-- The handler of SIGTSTP.
unfoldable pub suspend_process_handler : ℕ → Shell → Option Shell
suspend_process_handler fuel s =
    if s.current_pid == 0
    then some s
    else find_job (λ j. j.pid == s.current_pid) fuel s.cell s.first_job >>= λ r. elim r [
      | none ↦ create_bg_process s s.current_pid s.current_command true
      | some (p, job) ↦
          some (
            kill (record s { cell = write s.cell p (some (stopped_job job)) }) s.current_pid
              sigstop)
    ]

-- The handler of SIGCONT.
unfoldable pub resume_process_handler : Shell → Shell
resume_process_handler s = kill s s.current_pid sigcont

-- The handler of SIGINT: every job with the current PID is killed.
unfoldable pub kill_matching : ℕ → Shell → ℕ → Option ℕ → Option Shell
kill_matching zero s pid cur = none
kill_matching (suc fuel) s pid none = some s
kill_matching (suc fuel) s pid (some p) = elim (s.cell p) [
  | none ↦ none
  | some j ↦ kill_matching fuel (if j.pid == pid then kill s pid sigkill else s) pid j.next
]

unfoldable pub terminate_current_process_handler : ℕ → Shell → Option Shell
terminate_current_process_handler fuel s =
    if s.current_pid == 0 then some s else kill_matching fuel s s.current_pid s.first_job

-- `jobs`: a line for each job.
unfoldable pub print_jobs : ℕ → Shell → Option ℕ → Option Shell
print_jobs zero s cur = none
print_jobs (suc fuel) s none = some s
print_jobs (suc fuel) s (some p) = elim (s.cell p) [
  | none ↦ none
  | some j ↦
      print_jobs fuel (print_bg_process_state s j (elim j.status [ running ↦ running | _ ↦ stop ]))
        j.next
]

-- The argument `%n` of kill, fg and bg.
unfoldable pub job_number : List Bytes → Option ℤ
job_number ((c ∷ digits) ∷ more) = if c == b'%' then some (atoi digits) else none
job_number _ = none

-- One of the three commands: a usage line, "no such job", or `act` on the job found.
unfoldable pub with_job : ℕ → Shell → Bytes → List Bytes → (ℕ → Job → Option Shell) → Option Shell
with_job fuel s name args act = elim (job_number args) [
  | none ↦ some (puts s (name ++ codes ": usage: " ++ name ++ codes " <job>" ++ newline ∷ []))
  | some n ↦ find_job (λ j. pos j.id ==ℤ n) fuel s.cell s.first_job >>= λ r. elim r [
    | none ↦ some (puts s (name ++ codes ": no such job" ++ newline ∷ []))
    | some (p, job) ↦ act p job
  ]
]

-- `fg`: the outcome of `waitpid` is an input.
unfoldable pub foreground : Bool → Shell → ℕ → Job → Option Shell
foreground is_stopped s p job =
    let s1 = puts (puts s job.command) (newline ∷ []) in
    let s2 = kill (record s1 { current_pid = job.pid }) job.pid sigcont in
    if is_stopped then some (print_bg_process_state s2 job stop) else remove_job_node s2 p

unfoldable pub background : Shell → ℕ → Job → Option Shell
background s p job =
    let command = job.command ++ codes " &" in
    let line = codes "[" ++ print_int (pos job.id) ++ codes "] " ++ command ++ newline ∷ [] in
    let s1 = puts (record s { current_pid = job.pid }) line in
    let cell = write s.cell p (some (record job { status = running; command = command })) in
    some (kill (record s1 { cell = cell }) job.pid sigcont)

abbrev pub answered : Option Shell → Option (Bool × Shell)
answered none = none
answered (some s) = some (true, s)

-- `process_background_command`: the first result says whether it was one of the four.
unfoldable pub process_background_command : ℕ → Bool → Shell → List Bytes → Option (Bool × Shell)
process_background_command fuel is_stopped s [] = none
process_background_command fuel is_stopped s (name ∷ args) =
    if str_eq name (codes "jobs")
    then answered (print_jobs fuel s s.first_job)
    else if str_eq name (codes "kill")
    then answered (with_job fuel s name args (λ p job. some (kill s job.pid sigkill)))
    else if str_eq name (codes "fg")
    then answered (with_job fuel s name args (foreground is_stopped s))
    else if str_eq name (codes "bg")
    then answered (with_job fuel s name args (background s))
    else some (false, s)
