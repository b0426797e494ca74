-- ===== src/Shell/Jobs/Change.antt =====
-- prj1/20191630/phase3/myshell.c: `create_bg_process` as a change of a list of jobs.
use system_programing.Common.{
  ℕ, ◌+◌, ◌<◌, ◌≤◌, ◌≡◌, refl, sym, ap, ◌∙◌, arith, Bool, true, false, List, [], ◌∷◌, ◌++◌, Option,
  none, some, if◌then◌else◌, All, All-append, ◌>>=◌,
}
use system_programing.Common.Text.{Bytes}
use system_programing.Shell.Jobs.{
  stop, running, Job, Heap, Shell, write, remove_char, new_job, enlist, announce, create_bg_process,
  print_bg_process_state, print_bg_process_create,
}
use system_programing.Shell.Jobs.Chain.{
  Entry, linked, head_or, last_or, Chain, Avoids, Distinct, write_self, Chain-write, Chain-append,
  last_or-append, set_next-Chain, Apart-symm, Distinct-append,
}

-- The ID that the next job gets: one more than the last of the list.
abbrev pub id_after : List Entry → ℕ → ℕ
id_after [] id = id
id_after (x ∷ xs) id = id_after xs (x.id + 1)

-- The IDs grow along the list.
abbrev pub Increasing : ℕ → List Entry → Type 0
Increasing low [] = Unit
Increasing low (x ∷ xs) = (low ≤ x.id) × Increasing (x.id + 1) xs

-- The shell's list of jobs is `xs`.
pub record Holds (s : Shell) (xs : List Entry) : Type 0 where
  pub chain : Chain s.cell none xs none
  pub distinct : Distinct xs
  pub old : All (λ x. x.addr < s.fresh) xs
  pub first : s.first_job ≡ head_or xs none
  pub last : s.last_job ≡ last_or xs none
  pub ids : Increasing 1 xs
  pub id : s.curruent_job_id ≡ id_after xs 1

-- The job that `create_bg_process` adds.
abbrev pub created : Shell → ℕ → Bytes → Bool → Entry
created s pid command is_stop = record {
  addr = s.fresh;
  id = s.curruent_job_id;
  status = if is_stop then stop else running;
  pid = pid;
  command = remove_char command b'&';
}

Avoids-fresh : (fresh : ℕ) (xs : List Entry) → All (λ x. x.addr < fresh) xs → Avoids fresh xs
Avoids-fresh fresh [] h = tt
Avoids-fresh fresh (x ∷ xs) h = (omega arith, Avoids-fresh fresh xs h.1)

Increasing-append :
    (low : ℕ) (xs ys : List Entry)
    → Increasing low xs
    → Increasing (id_after xs low) ys
    → Increasing low (xs ++ ys)
Increasing-append low [] ys i j = j
Increasing-append low (x ∷ xs) ys i j = (i.0, Increasing-append (x.id + 1) xs ys i.1 j)

pub id_after-append :
    (xs ys : List Entry) (id : ℕ) → id_after (xs ++ ys) id ≡ id_after ys (id_after xs id)
id_after-append [] ys id = refl
id_after-append (x ∷ xs) ys id = id_after-append xs ys (x.id + 1)

All-lt-suc : (n : ℕ) (xs : List Entry) → All (λ x. x.addr < n) xs → All (λ x. x.addr < n + 1) xs
All-lt-suc n [] h = tt
All-lt-suc n (x ∷ xs) h = (omega arith, All-lt-suc n xs h.1)

-- What is printed is no matter of the list.
Holds-announce :
    (s : Shell) (job : Job) (is_stop : Bool) (xs : List Entry)
    → Holds s xs
    → Holds (announce s job is_stop) xs
unfolding announce print_bg_process_state print_bg_process_create
Holds-announce s job true xs h = record {
  chain = h.chain;
  distinct = h.distinct;
  old = h.old;
  first = h.first;
  last = h.last;
  ids = h.ids;
  id = h.id;
}
Holds-announce s job false xs h = record {
  chain = h.chain;
  distinct = h.distinct;
  old = h.old;
  first = h.first;
  last = h.last;
  ids = h.ids;
  id = h.id;
}

first-append :
    (xs : List Entry) (x : Entry) (p : Option ℕ)
    → p ≡ head_or xs none
    → (elim p as (λ q. Option ℕ) [ none ↦ some x.addr | some q ↦ some q ])
      ≡ head_or (xs ++ x ∷ []) none
first-append [] x p e = rw e
first-append (y ∷ xs) x p e = rw e

last-append : (xs : List Entry) (x : Entry) → some x.addr ≡ last_or (xs ++ x ∷ []) none
last-append xs x = sym (last_or-append xs (x ∷ []) none)

enlist-Holds :
    (s : Shell) (xs : List Entry) (pid : ℕ) (command : Bytes) (is_stop : Bool) (cell : Heap)
    → Holds s xs
    → Chain cell none xs (some s.fresh)
    → Holds
        (enlist s cell (new_job s pid command is_stop))
        (xs ++ created s pid command is_stop ∷ [])
unfolding enlist new_job
enlist-Holds s xs pid command is_stop cell h c =
    let x = created s pid command is_stop in
    let job = new_job s pid command is_stop in
    let away = Avoids-fresh s.fresh xs h.old in
    record {
      chain =
          Chain-append (write cell s.fresh (some job)) none xs (x ∷ []) none
            (Chain-write cell s.fresh (some job) none xs (some s.fresh) away c)
            (write_self cell s.fresh (some job) ∙ ap (λ p. some (linked x p none)) h.last, tt);
      distinct =
          Distinct-append xs (x ∷ []) h.distinct (tt, tt) (Apart-symm (x ∷ []) xs (away, tt));
      old =
          All-append (λ y. y.addr < s.fresh + 1) xs (x ∷ []) (All-lt-suc s.fresh xs h.old)
            (omega arith, tt);
      first = first-append xs x s.first_job h.first;
      last = last-append xs x;
      ids = Increasing-append 1 xs (x ∷ []) h.ids (omega (arith, h.id), tt);
      id = ap (λ n. n + 1) refl ∙ sym (id_after-append xs (x ∷ []) 1);
    }

-- On a well-formed list of jobs create_bg_process meets no bad pointer: the new job stands at the
-- end of the list, with an ID above all others, and the list is well formed.
pub create_bg_process-Holds :
    (s : Shell) (xs : List Entry) (pid : ℕ) (command : Bytes) (is_stop : Bool)
    → Holds s xs
    → (s' : Shell) × (create_bg_process s pid command is_stop ≡ some s')
      × Holds s' (xs ++ created s pid command is_stop ∷ [])
unfolding create_bg_process
create_bg_process-Holds s xs pid command is_stop h =
    let job = new_job s pid command is_stop in
    let (cell, e, c, frame) = set_next-Chain s.cell xs none (some s.fresh) h.distinct h.chain in
    (
      announce (enlist s cell job) job is_stop,
      rw (h.last, e, ◌>>=◌),
      Holds-announce (enlist s cell job) job is_stop _
          (enlist-Holds s xs pid command is_stop cell h c),
    )
