-- ===== src/Shell/Jobs/Chain.antt =====
-- prj1/20191630/phase3/myshell.c: the jobs that a heap holds between two pointers, as a list.
use system_programing.Common.{
  ℕ, ◌≡◌, ◌≢◌, refl, sym, ◌∙◌, arith, List, [], ◌∷◌, ◌++◌, Option, none, some, All, All-append,
  All-append_parts, All-map,
}
use system_programing.Common.Text.{Bytes}
use system_programing.Shell.Jobs.{JobState, Job, Heap, write, set_next, set_prev}

-- A job without its links, and where it lies.
pub record Entry : Type 0 where
  pub addr : ℕ
  pub id : ℕ
  pub status : JobState
  pub pid : ℕ
  pub command : Bytes

abbrev pub linked : Entry → Option ℕ → Option ℕ → Job
linked x prev next = record {
  prev = prev;
  next = next;
  id = x.id;
  status = x.status;
  pid = x.pid;
  command = x.command;
}

-- The address of the first entry, or `next` behind an empty list; likewise of the last.
abbrev pub head_or : List Entry → Option ℕ → Option ℕ
head_or [] next = next
head_or (x ∷ xs) next = some x.addr

abbrev pub last_or : List Entry → Option ℕ → Option ℕ
last_or [] prev = prev
last_or (x ∷ xs) prev = last_or xs (some x.addr)

-- The entries lie in the heap with the links of a list from `prev` to `next`.
abbrev pub Chain : Heap → Option ℕ → List Entry → Option ℕ → Type 0
Chain cell prev [] next = Unit
Chain cell prev (x ∷ xs) next =
    (cell x.addr ≡ some (linked x prev (head_or xs next))) × Chain cell (some x.addr) xs next

-- No entry lies at the address.
abbrev pub Avoids : ℕ → List Entry → Type 0
Avoids p xs = All (λ x. p ≢ x.addr) xs

abbrev pub Distinct : List Entry → Type 0
Distinct [] = Unit
Distinct (x ∷ xs) = Avoids x.addr xs × Distinct xs

pub write_self : (cell : Heap) (p : ℕ) (j : Option Job) → write cell p j p ≡ j
write_self cell p j = ground arith

pub write_ne : (cell : Heap) (p q : ℕ) (j : Option Job) → p ≢ q → write cell p j q ≡ cell q
write_ne cell p q j ne = ground arith

-- A write elsewhere leaves a list alone.
pub Chain-write :
    (cell : Heap) (p : ℕ) (j : Option Job) (prev : Option ℕ) (xs : List Entry) (next : Option ℕ)
    → Avoids p xs
    → Chain cell prev xs next
    → Chain (write cell p j) prev xs next
Chain-write cell p j prev [] next a c = tt
Chain-write cell p j prev (x ∷ xs) next a c =
    (write_ne cell p x.addr j a.0 ∙ c.0, Chain-write cell p j (some x.addr) xs next a.1 c.1)

-- Two lists that meet are one.
pub Chain-append :
    (cell : Heap) (prev : Option ℕ) (xs ys : List Entry) (next : Option ℕ)
    → Chain cell prev xs (head_or ys next)
    → Chain cell (last_or xs prev) ys next
    → Chain cell prev (xs ++ ys) next
Chain-append cell prev [] ys next c d = d
Chain-append cell prev (x ∷ []) ys next c d = (c.0, d)
Chain-append cell prev (x ∷ y ∷ xs) ys next c d =
    (c.0, Chain-append cell (some x.addr) (y ∷ xs) ys next c.1 d)

pub Chain-split :
    (cell : Heap) (prev : Option ℕ) (xs ys : List Entry) (next : Option ℕ)
    → Chain cell prev (xs ++ ys) next
    → Chain cell prev xs (head_or ys next) × Chain cell (last_or xs prev) ys next
Chain-split cell prev [] ys next c = (tt, c)
Chain-split cell prev (x ∷ []) ys next c = ((c.0, tt), c.1)
Chain-split cell prev (x ∷ y ∷ xs) ys next c =
    let (a, b) = Chain-split cell (some x.addr) (y ∷ xs) ys next c.1 in ((c.0, a), b)

pub head_or-append :
    (xs ys : List Entry) (next : Option ℕ) → head_or (xs ++ ys) next ≡ head_or xs (head_or ys next)
head_or-append [] ys next = refl
head_or-append (x ∷ xs) ys next = refl

pub last_or-append :
    (xs ys : List Entry) (prev : Option ℕ) → last_or (xs ++ ys) prev ≡ last_or ys (last_or xs prev)
last_or-append [] ys prev = refl
last_or-append (x ∷ xs) ys prev = last_or-append xs ys (some x.addr)

set_next_last :
    (cell : Heap) (x : Entry) (xs : List Entry) (prev next next' : Option ℕ)
    → Distinct (x ∷ xs)
    → Chain cell prev (x ∷ xs) next
    → (cell' : Heap) × (set_next cell (last_or (x ∷ xs) prev) next' ≡ some cell')
      × Chain cell' prev (x ∷ xs) next'
      × ((q : ℕ) → Avoids q (x ∷ xs) → cell' q ≡ cell q)
unfolding set_next
set_next_last cell x [] prev next next' d c = (
  write cell x.addr (some (linked x prev next')),
  rw c.0,
  (write_self cell x.addr (some (linked x prev next')), tt),
  λ q a. write_ne cell x.addr q (some (linked x prev next')) (λ e. a.0 (sym e)),
)
set_next_last cell x (y ∷ xs) prev next next' d c =
    let (cell', e, c', frame) = set_next_last cell y xs (some x.addr) next next' d.1 c.1 in
    (cell', e, (frame x.addr d.0 ∙ c.0, c'), λ q a. frame q a.1)

-- `next` of the last entry is set, and the list goes on to another place.
pub set_next-Chain :
    (cell : Heap) (xs : List Entry) (next next' : Option ℕ)
    → Distinct xs
    → Chain cell none xs next
    → (cell' : Heap) × (set_next cell (last_or xs none) next' ≡ some cell')
      × Chain cell' none xs next'
      × ((q : ℕ) → Avoids q xs → cell' q ≡ cell q)
set_next-Chain cell [] next next' d c = (cell, unfold set_next in refl, tt, λ q a. refl)
set_next-Chain cell (x ∷ xs) next next' d c = set_next_last cell x xs none next next' d c

-- `prev` of the first entry is set, and the list comes from another place.
pub set_prev-Chain :
    (cell : Heap) (xs : List Entry) (prev prev' : Option ℕ)
    → Distinct xs
    → Chain cell prev xs none
    → (cell' : Heap) × (set_prev cell (head_or xs none) prev' ≡ some cell')
      × Chain cell' prev' xs none
      × ((q : ℕ) → Avoids q xs → cell' q ≡ cell q)
unfolding set_prev
set_prev-Chain cell [] prev prev' d c = (cell, refl, tt, λ q a. refl)
set_prev-Chain cell (x ∷ xs) prev prev' d c =
    let j : Option Job = some (linked x prev' (head_or xs none)) in
    (
      write cell x.addr j,
      rw c.0,
      (write_self cell x.addr j, Chain-write cell x.addr j (some x.addr) xs none d.0 c.1),
      λ q a. write_ne cell x.addr q j (λ e. a.0 (sym e)),
    )

-- No entry of one list lies where one of the other does.
abbrev pub Apart : List Entry → List Entry → Type 0
Apart xs ys = All (λ x. Avoids x.addr ys) xs

Apart-nil : (ys : List Entry) → Apart ys []
Apart-nil [] = tt
Apart-nil (y ∷ ys) = (tt, Apart-nil ys)

pub Apart-symm : (xs ys : List Entry) → Apart xs ys → Apart ys xs
Apart-symm [] ys a = Apart-nil ys
Apart-symm (x ∷ xs) ys a =
    All-map (λ y. x.addr ≢ y.addr) (λ y. Avoids y.addr xs) (λ y. Avoids y.addr (x ∷ xs))
      (λ y p q. ((λ e. p (sym e)), q)) ys a.0 (Apart-symm xs ys a.1)

pub Distinct-append_parts :
    (xs ys : List Entry) → Distinct (xs ++ ys) → Distinct xs × Distinct ys × Apart xs ys
Distinct-append_parts [] ys d = (tt, d, tt)
Distinct-append_parts (x ∷ xs) ys d =
    let (dx, dy, a) = Distinct-append_parts xs ys d.1 in
    let (ax, ay) = All-append_parts (λ y. x.addr ≢ y.addr) xs ys d.0 in ((ax, dx), dy, (ay, a))

pub Distinct-append :
    (xs ys : List Entry) → Distinct xs → Distinct ys → Apart xs ys → Distinct (xs ++ ys)
Distinct-append [] ys dx dy a = dy
Distinct-append (x ∷ xs) ys dx dy a =
    (All-append (λ y. x.addr ≢ y.addr) xs ys dx.0 a.0, Distinct-append xs ys dx.1 dy a.1)

-- A heap that differs only at addresses of `ys` holds what is apart from `ys`.
pub Chain-frame :
    (cell cell' : Heap) (xs ys : List Entry) (prev next : Option ℕ)
    → ((q : ℕ) → Avoids q ys → cell' q ≡ cell q)
    → Apart xs ys
    → Chain cell prev xs next
    → Chain cell' prev xs next
Chain-frame cell cell' [] ys prev next frame a c = tt
Chain-frame cell cell' (x ∷ xs) ys prev next frame a c =
    (frame x.addr a.0 ∙ c.0, Chain-frame cell cell' xs ys (some x.addr) next frame a.1 c.1)

pub Apart-tail :
    (x : Entry) (ys xs : List Entry) → Apart xs (x ∷ ys) → Avoids x.addr xs × Apart xs ys
Apart-tail x ys [] a = (tt, tt)
Apart-tail x ys (z ∷ xs) a =
    let (b, c) = Apart-tail x ys xs a.1 in (((λ e. a.0.0 (sym e)), b), (a.0.1, c))
