-- ===== src/Shell/Handlers/Suspend.antt =====
-- prj1/20191630/phase3/myshell.c: the handlers of SIGTSTP and SIGINT.
use system_programing.Common.{
  ℕ, zero, suc, ◌+◌, ◌<◌, ◌≡◌, ◌≢◌, ◌∙◌, ap, sym, refl, arith, true, false, List, [], ◌∷◌, ◌++◌,
  Option, none, some, All, Bool-cases, inl, inr, ◌==◌, length, ◌>>=◌, if◌then◌else◌, append_assoc,
  append-nil,
}
use system_programing.Shell.Jobs.{Job, stop, Heap, Shell, write, remove_char}
use system_programing.Shell.Jobs.Chain.{
  Entry, linked, head_or, last_or, Chain, Distinct, Chain-write, Chain-append, Chain-split,
  write_self, head_or-append, last_or-append, Apart-tail, Distinct-append_parts,
}
use system_programing.Shell.Jobs.Change.{
  Holds, created, create_bg_process-Holds, Increasing, id_after-append,
}
use system_programing.Shell.Handlers.{
  find_job, kill, sigstop, sigkill, stopped_job, suspend_process_handler, kill_matching,
  terminate_current_process_handler,
}
use system_programing.Shell.Handlers.Walk.{find_job-miss, find_job-hit}
use system_programing.Shell.Handlers.Reap.{NoPid}

-- The entry of a job that has been stopped.
abbrev pub halted : Entry → Entry
halted x = record x { status = stop; command = remove_char x.command b'&' }

-- There is a foreground process and it is no job of the well-formed list, shorter than the fuel:
-- the SIGTSTP handler makes it the last job, stopped, and the list is well formed.
pub suspend_new_job :
    (fuel : ℕ) (s : Shell) (xs : List Entry)
    → Holds s xs
    → (s.current_pid == 0) ≡ false
    → NoPid s.current_pid xs
    → length xs < fuel
    → (s' : Shell) × (suspend_process_handler fuel s ≡ some s')
      × Holds s' (xs ++ created s s.current_pid s.current_command true ∷ [])
unfolding suspend_process_handler
suspend_new_job fuel s xs h fg np f =
    let pid = s.current_pid in
    let (s', e, h') = create_bg_process-Holds s xs pid s.current_command true h in
    let missed =
      ap (find_job (λ j. j.pid == pid) fuel s.cell) h.first
      ∙ find_job-miss (λ j. j.pid == pid) (λ y. y.pid == pid) fuel s.cell none xs (λ z p q. refl)
          h.chain np f in
    (s', rw fg (rw (missed, ◌>>=◌) e), h')

-- Replacing what an entry says, and not where it lies, keeps a list a list.
Chain-replace :
    (cell : Heap) (xs : List Entry) (x : Entry) (ys : List Entry)
    → Distinct (xs ++ x ∷ ys)
    → Chain cell none (xs ++ x ∷ ys) none
    → Chain
        (write cell x.addr (some (stopped_job (linked x (last_or xs none) (head_or ys none)))))
        none
        (xs ++ halted x ∷ ys)
        none
Chain-replace cell xs x ys d c =
    let j : Option Job = some (stopped_job (linked x (last_or xs none) (head_or ys none))) in
    let (cx, cy) = Chain-split cell none xs (x ∷ ys) none c in
    let (dx, dy, ax) = Distinct-append_parts xs (x ∷ ys) d in
    Chain-append (write cell x.addr j) none xs (halted x ∷ ys) none
      (Chain-write cell x.addr j none xs (some x.addr) (Apart-tail x ys xs ax).0 cx)
      (write_self cell x.addr j, Chain-write cell x.addr j (some x.addr) ys none dy.0 cy.1)

All-replace {ℓ} :
    (P : Entry → Type ℓ) (xs : List Entry) (x y : Entry) (ys : List Entry)
    → (P x → P y)
    → All P (xs ++ x ∷ ys)
    → All P (xs ++ y ∷ ys)
All-replace P [] x y ys f a = (f a.0, a.1)
All-replace P (z ∷ xs) x y ys f a = (a.0, All-replace P xs x y ys f a.1)

Distinct-replace :
    (xs : List Entry) (x : Entry) (ys : List Entry)
    → Distinct (xs ++ x ∷ ys)
    → Distinct (xs ++ halted x ∷ ys)
Distinct-replace [] x ys d = d
Distinct-replace (z ∷ xs) x ys d = (
  All-replace (λ w. z.addr ≢ w.addr) xs x (halted x) ys (λ n. n) d.0,
  Distinct-replace xs x ys d.1,
)

Increasing-replace :
    (low : ℕ) (xs : List Entry) (x : Entry) (ys : List Entry)
    → Increasing low (xs ++ x ∷ ys)
    → Increasing low (xs ++ halted x ∷ ys)
Increasing-replace low [] x ys i = i
Increasing-replace low (z ∷ xs) x ys i = (i.0, Increasing-replace (z.id + 1) xs x ys i.1)

-- The foreground process is a job already, the first with its PID in a well-formed list, with fewer
-- jobs before it than the fuel: it is marked as stopped where it stands, and SIGSTOP
-- is sent to it and to no other process.
pub suspend_job :
    (fuel : ℕ) (s : Shell) (xs : List Entry) (x : Entry) (ys : List Entry)
    → Holds s (xs ++ x ∷ ys)
    → (s.current_pid == 0) ≡ false
    → x.pid ≡ s.current_pid
    → NoPid s.current_pid xs
    → length xs < fuel
    → (s' : Shell) × (suspend_process_handler fuel s ≡ some s')
      × Holds s' (xs ++ halted x ∷ ys)
      × (s'.signals ≡ s.signals ++ (s.current_pid, sigstop) ∷ [])
unfolding suspend_process_handler
suspend_job fuel s xs x ys h fg e np f =
    let pid = s.current_pid in
    let job = linked x (last_or xs none) (head_or ys none) in
    let s' : Shell =
      kill (record s { cell = write s.cell x.addr (some (stopped_job job)) }) pid sigstop in
    let found =
      ap (find_job (λ j. j.pid == pid) fuel s.cell) h.first
      ∙ find_job-hit (λ j. j.pid == pid) (λ y. y.pid == pid) fuel s.cell none xs x ys
          (λ z p q. refl) h.chain np (ground arith) f in
    (
      s',
      rw fg (rw (found, ◌>>=◌)),
      record {
        chain = Chain-replace s.cell xs x ys h.distinct h.chain;
        distinct = Distinct-replace xs x ys h.distinct;
        old = All-replace (λ z. z.addr < s.fresh) xs x (halted x) ys (λ l. l) h.old;
        first =
            h.first
            ∙ head_or-append xs (x ∷ ys) none
            ∙ sym (head_or-append xs (halted x ∷ ys) none);
        last =
            h.last ∙ last_or-append xs (x ∷ ys) none ∙ sym (last_or-append xs (halted x ∷ ys) none);
        ids = Increasing-replace 1 xs x ys h.ids;
        id = h.id ∙ id_after-append xs (x ∷ ys) 1 ∙ sym (id_after-append xs (halted x ∷ ys) 1);
      },
      refl,
    )

-- SIGKILL for each job of the process, once.
abbrev pub killed : ℕ → List Entry → List (ℕ × ℕ)
killed pid [] = []
killed pid (x ∷ xs) = if x.pid == pid then (pid, sigkill) ∷ killed pid xs else killed pid xs

kill_matching_lem :
    (fuel : ℕ) (s : Shell) (pid : ℕ) (prev : Option ℕ) (xs : List Entry)
    → Chain s.cell prev xs none
    → length xs < fuel
    → kill_matching fuel s pid (head_or xs none)
      ≡ some (record s { signals = s.signals ++ killed pid xs })
unfolding kill_matching
kill_matching_lem zero s pid prev xs c f = absurd (omega arith)
kill_matching_lem (suc fuel) s pid prev [] c f =
    ap (λ l. some (record s { signals = l })) (sym (append-nil s.signals))
kill_matching_lem (suc fuel) s pid prev (x ∷ xs) c f = elim (Bool-cases (x.pid == pid)) [
  | inl same ↦ rw c.0 (
      rw same (
        kill_matching_lem fuel (kill s pid sigkill) pid (some x.addr) xs c.1 (omega arith)
        ∙ ap (λ l. some (record s { signals = l }))
            (append_assoc s.signals ((pid, sigkill) ∷ []) (killed pid xs))))
  | inr other ↦ rw c.0 (rw other (kill_matching_lem fuel s pid (some x.addr) xs c.1 (omega arith)))
]

-- With a foreground process and a well-formed list of jobs, shorter than the fuel, the SIGINT
-- handler sends SIGKILL once for each job with the PID of the current process, to that PID, and
-- changes nothing else of the shell.
pub interrupt_kills :
    (fuel : ℕ) (s : Shell) (xs : List Entry)
    → Holds s xs
    → (s.current_pid == 0) ≡ false
    → length xs < fuel
    → terminate_current_process_handler fuel s
      ≡ some (record s { signals = s.signals ++ killed s.current_pid xs })
unfolding terminate_current_process_handler
interrupt_kills fuel s xs h fg f = rw fg (
    ap (kill_matching fuel s s.current_pid) h.first
    ∙ kill_matching_lem fuel s s.current_pid none xs h.chain f)
