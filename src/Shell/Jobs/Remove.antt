-- ===== src/Shell/Jobs/Remove.antt =====
-- prj1/20191630/phase3/myshell.c: `remove_job_node` as a change of a list of jobs.
use system_programing.Common.{
  ℕ, ◌+◌, ◌<◌, ◌≤◌, ◌≡◌, ◌≢◌, refl, sym, ap, ◌∙◌, arith, Bool, true, false, List, [], ◌∷◌, ◌++◌,
  Option, none, some, if◌then◌else◌, All-append, All-append_parts, Option-cases, inl, inr,
  append-nil,
}
use system_programing.Shell.Jobs.{
  Heap, Shell, write, ptr_eq, set_next, set_prev, next_id, remove_job_node,
}
use system_programing.Shell.Jobs.Chain.{
  Entry, linked, head_or, last_or, Chain, Avoids, Distinct, write_self, Chain-write, Chain-append,
  Chain-split, last_or-append, set_next-Chain, set_prev-Chain, Apart-symm, Apart-tail,
  Distinct-append_parts, Distinct-append, Chain-frame,
}
use system_programing.Shell.Jobs.Change.{id_after, Increasing, Holds, id_after-append}

-- What `first_job`, `last_job` and the next ID become.
first_removed :
    (xs : List Entry) (x : Entry) (ys : List Entry)
    → Avoids x.addr xs
    → (if ptr_eq (some x.addr) (head_or (xs ++ x ∷ ys) none)
        then head_or ys none
        else head_or (xs ++ x ∷ ys) none)
      ≡ head_or (xs ++ ys) none
first_removed [] x ys a = ground arith
first_removed (z ∷ xs) x ys a = let ne : x.addr ≢ z.addr = a.0 in ground arith

last-Avoids :
    (p q : ℕ) (ys : List Entry)
    → p ≢ q
    → Avoids p ys
    → ptr_eq (some p) (last_or ys (some q)) ≡ false
last-Avoids p q [] ne a = ground arith
last-Avoids p q (y ∷ ys) ne a = last-Avoids p y.addr ys a.0 a.1

is_last :
    (xs : List Entry) (x : Entry) (ys : List Entry)
    → Avoids x.addr ys
    → ptr_eq (some x.addr) (last_or (xs ++ x ∷ ys) none)
      ≡ elim ys as (λ _. Bool) [ [] ↦ true | _ ∷ _ ↦ false ]
is_last xs x [] a = rw (last_or-append xs (x ∷ []) none) (ground arith)
is_last xs x (y ∷ ys) a =
    rw (last_or-append xs (x ∷ y ∷ ys) none) (last-Avoids x.addr y.addr ys a.0 a.1)

last_removed :
    (xs : List Entry) (x : Entry) (ys : List Entry)
    → Avoids x.addr ys
    → (if ptr_eq (some x.addr) (last_or (xs ++ x ∷ ys) none)
        then last_or xs none
        else last_or (xs ++ x ∷ ys) none)
      ≡ last_or (xs ++ ys) none
last_removed xs x [] a = rw (is_last xs x [] a) (ap (λ zs. last_or zs none) (sym (append-nil xs)))
last_removed xs x (y ∷ ys) a =
    rw (is_last xs x (y ∷ ys) a)
      (last_or-append xs (x ∷ y ∷ ys) none ∙ sym (last_or-append xs (y ∷ ys) none))

next_id-Chain :
    (cell : Heap) (xs : List Entry) (prev next : Option ℕ) (id : ℕ)
    → next_id cell prev ≡ some id
    → Chain cell prev xs next
    → next_id cell (last_or xs prev) ≡ some (id_after xs id)
next_id-Chain cell [] prev next id e c = e
next_id-Chain cell (x ∷ xs) prev next id e c =
    next_id-Chain cell xs (some x.addr) next (x.id + 1) (unfold next_id in rw c.0) c.1

id_removed :
    (s : Shell) (xs : List Entry) (x : Entry) (ys : List Entry)
    → Avoids x.addr ys
    → Chain s.cell none xs (some x.addr)
    → s.curruent_job_id ≡ id_after (xs ++ x ∷ ys) 1
    → (if ptr_eq (some x.addr) (last_or (xs ++ x ∷ ys) none)
        then next_id s.cell (last_or xs none)
        else some s.curruent_job_id)
      ≡ some (id_after (xs ++ ys) 1)
id_removed s xs x [] a c e = rw (is_last xs x [] a) (
    next_id-Chain s.cell xs none (some x.addr) 1 (unfold next_id in refl) c
    ∙ ap (λ zs. some (id_after zs 1)) (sym (append-nil xs)))
id_removed s xs x (y ∷ ys) a c e =
    rw (is_last xs x (y ∷ ys) a)
      (ap some (e ∙ id_after-append xs (x ∷ y ∷ ys) 1 ∙ sym (id_after-append xs (y ∷ ys) 1)))

Increasing-weaken :
    (low low' : ℕ) (ys : List Entry) → low ≤ low' → Increasing low' ys → Increasing low ys
Increasing-weaken low low' [] le i = tt
Increasing-weaken low low' (y ∷ ys) le i = (omega arith, i.1)

Increasing-remove :
    (low : ℕ) (xs : List Entry) (x : Entry) (ys : List Entry)
    → Increasing low (xs ++ x ∷ ys)
    → Increasing low (xs ++ ys)
Increasing-remove low [] x ys i = Increasing-weaken low (x.id + 1) ys (omega arith) i.1
Increasing-remove low (z ∷ xs) x ys i = (i.0, Increasing-remove (z.id + 1) xs x ys i.1)

-- The heap after the neighbours are linked and the job is freed.
unlinked :
    (cell : Heap) (xs : List Entry) (x : Entry) (ys : List Entry)
    → Distinct (xs ++ x ∷ ys)
    → Chain cell none (xs ++ x ∷ ys) none
    → (c1 : Heap) × (c2 : Heap) × (cell x.addr
        ≡ some (linked x (last_or xs none) (head_or ys none)))
      × Chain cell none xs (some x.addr)
      × (set_prev cell (head_or ys none) (last_or xs none) ≡ some c1)
      × (set_next c1 (last_or xs none) (head_or ys none) ≡ some c2)
      × Chain (write c2 x.addr none) none (xs ++ ys) none
      × Distinct (xs ++ ys)
      × Avoids x.addr xs
      × Avoids x.addr ys
unlinked cell xs x ys d c =
    let (cx, cy) = Chain-split cell none xs (x ∷ ys) none c in
    let (dx, dy, ax) = Distinct-append_parts xs (x ∷ ys) d in
    let apart = Apart-tail x ys xs ax in
    let back = Apart-symm xs ys apart.1 in
    let (c1, e1, y1, f1) = set_prev-Chain cell ys (some x.addr) (last_or xs none) dy.1 cy.1 in
    let x1 = Chain-frame cell c1 xs ys none (some x.addr) f1 apart.1 cx in
    let (c2, e2, x2, f2) = set_next-Chain c1 xs (some x.addr) (head_or ys none) dx x1 in
    let y2 = Chain-frame c1 c2 ys xs (last_or xs none) none f2 back y1 in
    (
      c1,
      c2,
      cy.0,
      cx,
      e1,
      e2,
      Chain-append (write c2 x.addr none) none xs ys none
          (Chain-write c2 x.addr none none xs (head_or ys none) apart.0 x2)
          (Chain-write c2 x.addr none (last_or xs none) ys none dy.0 y2),
      Distinct-append xs ys dx dy.1 apart.1,
      apart.0,
      dy.0,
    )

-- On a well-formed list remove_job_node meets no bad pointer for any job of the list: the list
-- without that job is left, well formed, so that its neighbours are linked with each other and the
-- next ID is one above the last job's.
pub remove_job_node-Holds :
    (s : Shell) (xs : List Entry) (x : Entry) (ys : List Entry)
    → Holds s (xs ++ x ∷ ys)
    → (s' : Shell) × (remove_job_node s x.addr ≡ some s') × Holds s' (xs ++ ys)
unfolding remove_job_node
remove_job_node-Holds s xs x ys h =
    let (c1, c2, here, cx, e1, e2, c', d', ax, ay) = unlinked s.cell xs x ys h.distinct h.chain in
    let (ox, oy) = All-append_parts (λ z. z.addr < s.fresh) xs (x ∷ ys) h.old in
    (
      record s {
        cell = write c2 x.addr none;
        first_job = head_or (xs ++ ys) none;
        last_job = last_or (xs ++ ys) none;
        curruent_job_id = id_after (xs ++ ys) 1;
      },
      rw here (
          rw h.last (
            rw (id_removed s xs x ys ay cx h.id) (
              rw e1 (
                rw e2
                  (rw h.first (rw (first_removed xs x ys ax) (rw (last_removed xs x ys ay)))))))),
      record {
        chain = c';
        distinct = d';
        old = All-append (λ z. z.addr < s.fresh) xs ys ox oy.1;
        first = refl;
        last = refl;
        ids = Increasing-remove 1 xs x ys h.ids;
        id = refl;
      },
    )

-- The freed job is gone from the heap.
pub remove_job_node_frees :
    (s : Shell) (p : ℕ) (s' : Shell) → remove_job_node s p ≡ some s' → s'.cell p ≡ none
unfolding remove_job_node
remove_job_node_frees s p s' h = elim (Option-cases (s.cell p)) [
  | inl e ↦ absurd (ground (arith, e))
  | inr (job, e) ↦
      elim (Option-cases
        (if ptr_eq (some p) s.last_job then next_id s.cell job.prev else some s.curruent_job_id)) [
          | inl e1 ↦ absurd (ground (arith, e, e1))
          | inr (id, e1) ↦ elim (Option-cases (set_prev s.cell job.next job.prev)) [
            | inl e2 ↦ absurd (ground (arith, e, e1, e2))
            | inr (c1, e2) ↦ elim (Option-cases (set_next c1 job.prev job.next)) [
              | inl e3 ↦ absurd (ground (arith, e, e1, e2, e3))
              | inr (c2, e3) ↦ ground (arith, e, e1, e2, e3, write_self c2 p none)
            ]
          ]
        ]
]
