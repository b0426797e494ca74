-- ===== src/Shell/Tests.antt =====
-- prj1/20191630/phase3/myshell.c: a shell with two jobs, and the theorems at it.
use system_programing.Common.{
  ℕ, zero, suc, ◌≡◌, refl, arith, true, false, List, [], ◌∷◌, ◌++◌, none, some, inl,
}
use system_programing.Common.Text.{codes}
use system_programing.Shell.Jobs.{running, stop, Heap, Shell, create_bg_process, remove_job_node}
use system_programing.Shell.Jobs.Chain.{Entry, linked}
use system_programing.Shell.Jobs.Change.{Holds, created, create_bg_process-Holds}
use system_programing.Shell.Jobs.Remove.{remove_job_node-Holds}
use system_programing.Shell.Handlers.{
  exited, terminate_process_handler, suspend_process_handler, terminate_current_process_handler,
  sigstop,
}
use system_programing.Shell.Handlers.Reap.{
  handler_one_child, handler_misses_jobs, handler_reads_freed,
}
use system_programing.Shell.Handlers.Suspend.{
  halted, suspend_new_job, suspend_job, killed, interrupt_kills,
}

abbrev sleeper : Entry
sleeper = record { addr = 0; id = 1; status = running; pid = 100; command = codes "sleep 9 " }

abbrev editor : Entry
editor = record { addr = 1; id = 2; status = stop; pid = 101; command = codes "vi" }

abbrev heap : Heap
heap zero = some (linked sleeper none (some 1))
heap (suc zero) = some (linked editor (some 0) none)
heap _ = none

abbrev shell_of : ℕ → Shell
shell_of pid = record {
  cell = heap;
  fresh = 2;
  first_job = some 0;
  last_job = some 1;
  curruent_job_id = 3;
  current_pid = pid;
  current_command = codes "top";
  output = [];
  signals = [];
}

abbrev two : List Entry
two = sleeper ∷ editor ∷ []

shell_of-Holds : (pid : ℕ) → Holds (shell_of pid) two
shell_of-Holds pid = record {
  chain = (refl, (refl, tt));
  distinct = omega arith;
  old = omega arith;
  first = refl;
  last = refl;
  ids = omega arith;
  id = refl;
}

create_bg_process-Holds_example :
    (s' : Shell) × (create_bg_process (shell_of 7) 102 (codes "make&") false ≡ some s')
    × Holds s' (two ++ created (shell_of 7) 102 (codes "make&") false ∷ [])
create_bg_process-Holds_example =
    create_bg_process-Holds (shell_of 7) two 102 (codes "make&") false (shell_of-Holds 7)

remove_job_node-Holds_example :
    (s' : Shell) × (remove_job_node (shell_of 7) 1 ≡ some s') × Holds s' (sleeper ∷ [])
remove_job_node-Holds_example =
    remove_job_node-Holds (shell_of 7) (sleeper ∷ []) editor [] (shell_of-Holds 7)

handler_one_child_example :
    (s' : Shell) × (terminate_process_handler 3 (shell_of 7) ((101, exited) ∷ []) ≡ some s')
    × Holds s' (sleeper ∷ [])
handler_one_child_example =
    handler_one_child 3 (shell_of 7) (sleeper ∷ []) editor [] exited (shell_of-Holds 7) (refl, tt)
      (inl refl) (omega arith)

handler_misses_jobs_example :
    terminate_process_handler 3 (shell_of 7) ((55, exited) ∷ (101, exited) ∷ []) ≡ some (shell_of 7)
handler_misses_jobs_example =
    handler_misses_jobs 3 (shell_of 7) two 55 exited ((101, exited) ∷ []) (shell_of-Holds 7)
      (refl, (refl, tt)) (omega arith)

handler_reads_freed_example :
    terminate_process_handler 3 (shell_of 7) ((100, exited) ∷ (101, exited) ∷ []) ≡ none
handler_reads_freed_example =
    handler_reads_freed 3 (shell_of 7) [] sleeper (editor ∷ []) exited (101, exited) []
      (shell_of-Holds 7) tt (inl refl) (omega arith)

suspend_new_job_example :
    (s' : Shell) × (suspend_process_handler 3 (shell_of 7) ≡ some s')
    × Holds s' (two ++ created (shell_of 7) 7 (codes "top") true ∷ [])
suspend_new_job_example =
    suspend_new_job 3 (shell_of 7) two (shell_of-Holds 7) refl (refl, (refl, tt)) (omega arith)

suspend_job_example :
    (s' : Shell) × (suspend_process_handler 3 (shell_of 101) ≡ some s')
    × Holds s' (sleeper ∷ halted editor ∷ [])
    × (s'.signals ≡ (101, sigstop) ∷ [])
suspend_job_example =
    suspend_job 3 (shell_of 101) (sleeper ∷ []) editor [] (shell_of-Holds 101) refl refl (refl, tt)
      (omega arith)

interrupt_kills_example :
    terminate_current_process_handler 3 (shell_of 101)
    ≡ some (record (shell_of 101) { signals = [] ++ killed 101 two })
interrupt_kills_example =
    interrupt_kills 3 (shell_of 101) two (shell_of-Holds 101) refl (omega arith)
