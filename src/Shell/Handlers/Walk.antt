-- ===== src/Shell/Handlers/Walk.antt =====
-- prj1/20191630/phase3/myshell.c: walks through the list of jobs.
use system_programing.Common.{
  ℕ, zero, suc, ◌<◌, ◌≡◌, ◌∙◌, refl, arith, Bool, true, false, List, [], ◌∷◌, ◌++◌, Option, none,
  some, All, length,
}
use system_programing.Shell.Jobs.{Job, Heap}
use system_programing.Shell.Jobs.Chain.{Entry, linked, head_or, last_or, Chain}
use system_programing.Shell.Handlers.{find_job}

-- The test does not look at the links.
abbrev pub Blind : (Job → Bool) → (Entry → Bool) → Type 0
Blind test t = (x : Entry) (prev next : Option ℕ) → test (linked x prev next) ≡ t x

-- With fuel for the whole list, a list on which nothing passes is walked to its end.
pub find_job-miss :
    (test : Job → Bool) (t : Entry → Bool) (fuel : ℕ) (cell : Heap) (prev : Option ℕ)
    (xs : List Entry)
    → Blind test t
    → Chain cell prev xs none
    → All (λ x. t x ≡ false) xs
    → length xs < fuel
    → find_job test fuel cell (head_or xs none) ≡ some none
unfolding find_job
find_job-miss test t zero cell prev xs b c a f = absurd (omega arith)
find_job-miss test t (suc fuel) cell prev [] b c a f = refl
find_job-miss test t (suc fuel) cell prev (x ∷ xs) b c a f =
    let e = b x prev (head_or xs none) in
    let ih = find_job-miss test t fuel cell (some x.addr) xs b c.1 a.1 (omega arith) in
    rw c.0 (rw (e ∙ a.0) ih)

-- The first entry that passes is found.
pub find_job-hit :
    (test : Job → Bool) (t : Entry → Bool) (fuel : ℕ) (cell : Heap) (prev : Option ℕ)
    (xs : List Entry) (x : Entry) (ys : List Entry)
    → Blind test t
    → Chain cell prev (xs ++ x ∷ ys) none
    → All (λ z. t z ≡ false) xs
    → t x ≡ true
    → length xs < fuel
    → find_job test fuel cell (head_or (xs ++ x ∷ ys) none)
      ≡ some (some (x.addr, linked x (last_or xs prev) (head_or ys none)))
unfolding find_job
find_job-hit test t zero cell prev xs x ys b c a h f = absurd (omega arith)
find_job-hit test t (suc fuel) cell prev [] x ys b c a h f =
    rw c.0 (rw (b x prev (head_or ys none) ∙ h))
find_job-hit test t (suc fuel) cell prev (z ∷ xs) x ys b c a h f =
    let ih = find_job-hit test t fuel cell (some z.addr) xs x ys b c.1 a.1 h (omega arith) in
    rw c.0 (rw (b z prev (head_or (xs ++ x ∷ ys) none) ∙ a.0) ih)

-- A walk that starts at a freed job reads through a bad pointer.
pub find_job_freed :
    (test : Job → Bool) (fuel : ℕ) (cell : Heap) (p : ℕ)
    → cell p ≡ none
    → find_job test (suc fuel) cell (some p) ≡ none
unfolding find_job
find_job_freed test fuel cell p h = rw (h, find_job)
