-- ===== src/Shell/Handlers/Reap.antt =====
-- prj1/20191630/phase3/myshell.c: the handler of SIGCHLD and the children that have ended.
use system_programing.Common.{
  ℕ, zero, suc, ◌<◌, ◌≡◌, ◌∙◌, ap, refl, arith, false, List, [], ◌∷◌, ◌++◌, none, some, All, ◌==◌,
  length, ◌>>=◌, ◌⊎◌, inl, inr,
}
use system_programing.Shell.Jobs.{
  Job, JobState, done, terminate, Shell, puts, print_bg_process_state,
}
use system_programing.Shell.Jobs.Chain.{Entry, linked, head_or, last_or}
use system_programing.Shell.Jobs.Change.{Holds}
use system_programing.Shell.Jobs.Remove.{remove_job_node-Holds, remove_job_node_frees}
use system_programing.Shell.Handlers.{
  find_job, Exit, exited, signaled, settle, reap, terminate_process_handler, sigkill,
}
use system_programing.Shell.Handlers.Walk.{find_job-miss, find_job-hit, find_job_freed}

-- No entry belongs to the process.
abbrev pub NoPid : ℕ → List Entry → Type 0
NoPid pid xs = All (λ x. (x.pid == pid) ≡ false) xs

Holds-print :
    (s : Shell) (line : List ℕ) (job : Job) (status : JobState) (xs : List Entry)
    → Holds s xs
    → Holds (print_bg_process_state (puts s line) job status) xs
unfolding print_bg_process_state
Holds-print s line job status xs h = record {
  chain = h.chain;
  distinct = h.distinct;
  old = h.old;
  first = h.first;
  last = h.last;
  ids = h.ids;
  id = h.id;
}

-- A job that has exited, or that SIGKILL has ended, leaves the list.
settle-Holds :
    (s : Shell) (xs : List Entry) (x : Entry) (ys : List Entry) (job : Job) (e : Exit)
    → (e ≡ exited) ⊎ (e ≡ signaled sigkill)
    → Holds s (xs ++ x ∷ ys)
    → (s' : Shell) × (settle s x.addr job e ≡ some s') × Holds s' (xs ++ ys)
unfolding settle
settle-Holds s xs x ys job e (inl p) h = rw p (
    remove_job_node-Holds (print_bg_process_state (puts s (10 ∷ [])) job done) xs x ys
      (Holds-print s (10 ∷ []) job done (xs ++ x ∷ ys) h))
settle-Holds s xs x ys job e (inr p) h = rw p (
    remove_job_node-Holds (print_bg_process_state (puts s (10 ∷ [])) job terminate) xs x ys
      (Holds-print s (10 ∷ []) job terminate (xs ++ x ∷ ys) h))

settle_frees :
    (s : Shell) (p : ℕ) (job : Job) (e : Exit) (s' : Shell)
    → (e ≡ exited) ⊎ (e ≡ signaled sigkill)
    → settle s p job e ≡ some s'
    → s'.cell p ≡ none
unfolding settle
settle_frees s p job e s' (inl q) d = remove_job_node_frees _ p s' (rw q at d)
settle_frees s p job e s' (inr q) d = remove_job_node_frees _ p s' (rw q at d)

-- One child has exited or was killed, and it is a job of a well-formed list with no earlier job of
-- its PID: with more fuel than earlier jobs the handler takes that job off the list, meets no bad
-- pointer, and the list stays well formed.
pub handler_one_child :
    (fuel : ℕ) (s : Shell) (xs : List Entry) (x : Entry) (ys : List Entry) (e : Exit)
    → Holds s (xs ++ x ∷ ys)
    → NoPid x.pid xs
    → (e ≡ exited) ⊎ (e ≡ signaled sigkill)
    → length xs < fuel
    → (s' : Shell) × (terminate_process_handler fuel s ((x.pid, e) ∷ []) ≡ some s')
      × Holds s' (xs ++ ys)
unfolding terminate_process_handler reap
handler_one_child fuel s xs x ys e h np k f =
    let job = linked x (last_or xs none) (head_or ys none) in
    let (s', d, h') = settle-Holds s xs x ys job e k h in
    let found =
      ap (find_job (λ j. j.pid == x.pid) fuel s.cell) h.first
      ∙ find_job-hit (λ j. j.pid == x.pid) (λ y. y.pid == x.pid) fuel s.cell none xs x ys
          (λ z p q. refl) h.chain np (ground arith) f in
    (s', rw (found, ◌>>=◌) (rw (d, ◌>>=◌)), h')

reap_at_end :
    (fuel : ℕ) (s : Shell) (children : List (ℕ × Exit))
    → 0 < fuel
    → reap fuel s none children ≡ some s
unfolding reap find_job
reap_at_end zero s children f = absurd (omega arith)
reap_at_end (suc fuel) s [] f = refl
reap_at_end (suc fuel) s ((pid, e) ∷ children) f = reap_at_end (suc fuel) s children f

-- The first child that ended is no job of a well-formed list, shorter than the fuel: the search ends at the end of the list and is never started
-- anew, so every further child is passed over, and a job among them stays in the list.
pub handler_misses_jobs :
    (fuel : ℕ) (s : Shell) (xs : List Entry) (pid : ℕ) (e : Exit) (children : List (ℕ × Exit))
    → Holds s xs
    → NoPid pid xs
    → length xs < fuel
    → terminate_process_handler fuel s ((pid, e) ∷ children) ≡ some s
unfolding terminate_process_handler reap
handler_misses_jobs fuel s xs pid e children h np f =
    let missed =
      ap (find_job (λ j. j.pid == pid) fuel s.cell) h.first
      ∙ find_job-miss (λ j. j.pid == pid) (λ y. y.pid == pid) fuel s.cell none xs (λ z p q. refl)
          h.chain np f in
    rw (missed, ◌>>=◌) (reap_at_end fuel s children (omega arith))

-- The first child has exited or was killed and is a job, with no earlier job of its PID, and a
-- second child has ended too: the job is removed and freed, and the search for the second child
-- reads the freed job, a bad pointer, whatever the second child is.
pub handler_reads_freed :
    (fuel : ℕ) (s : Shell) (xs : List Entry) (x : Entry) (ys : List Entry) (e : Exit)
    (second : ℕ × Exit) (children : List (ℕ × Exit))
    → Holds s (xs ++ x ∷ ys)
    → NoPid x.pid xs
    → (e ≡ exited) ⊎ (e ≡ signaled sigkill)
    → length xs < fuel
    → terminate_process_handler fuel s ((x.pid, e) ∷ second ∷ children) ≡ none
unfolding terminate_process_handler reap
handler_reads_freed zero s xs x ys e second children h np k f = absurd (omega arith)
handler_reads_freed (suc fuel) s xs x ys e second children h np k f =
    let job = linked x (last_or xs none) (head_or ys none) in
    let (s', d, h') = settle-Holds s xs x ys job e k h in
    let found =
      ap (find_job (λ j. j.pid == x.pid) (suc fuel) s.cell) h.first
      ∙ find_job-hit (λ j. j.pid == x.pid) (λ y. y.pid == x.pid) (suc fuel) s.cell none xs x ys
          (λ z p q. refl) h.chain np (ground arith) f in
    let freed = settle_frees s x.addr job e s' k d in
    let bad = find_job_freed (λ j. j.pid == second.0) fuel s'.cell x.addr freed in
    rw (found, ◌>>=◌) (rw (d, ◌>>=◌) (rw (bad, ◌>>=◌)))
