-- ===== src/Server/Places.antt =====
-- prj2/task1/stockserver.c: the pool of clients and what changes it.
use system_programing.Common.{
  ℕ, zero, suc, ◌+◌, ◌≤◌, ◌<◌, ◌≡◌, ◌≢◌, subst, arith, ◌⊎◌, inl, inr, Bool, true, false, Bool-cases,
  Option, none, some, ◌==◌, ltb, leb, if◌then◌else◌, >>=-eq-some, Option-cases,
}
use system_programing.Common.Threads.{put_at}
use system_programing.Common.Int.{ℤ, negsuc, add_int}
use system_programing.Server.{
  Pool, fd_setsize, init_pool, free_place, admit, add_client, close_client,
}

-- A pool with its fresh descriptor: what `accept` gives is positive and not watched.
abbrev pub IsFresh : ℕ → Pool → ℕ → Type 0
IsFresh listenfd p fd = (0 < fd) × (fd ≢ listenfd) × (p.read_set fd ≡ false)

-- Each client has one place, below `maxi`, and its descriptor is watched; nothing else is watched
-- but the listening descriptor.
pub record IsPool (listenfd : ℕ) (p : Pool) : Type 0 where
  pub place :
      (i fd : ℕ)
      → p.clientfd i ≡ some fd
      → (i < p.places) × (p.read_set fd ≡ true) × (fd ≤ p.maxfd) × (0 < fd) × (fd ≢ listenfd)
  pub one : (i j fd : ℕ) → p.clientfd i ≡ some fd → p.clientfd j ≡ some fd → i ≡ j
  pub owner :
      (fd : ℕ) → p.read_set fd ≡ true → (fd ≡ listenfd) ⊎ ((i : ℕ) × (p.clientfd i ≡ some fd))
  pub inside : (fd : ℕ) → p.read_set fd ≡ true → fd < fd_setsize
  pub bound : p.places ≤ fd_setsize
  pub listening : (p.read_set listenfd ≡ true) × (listenfd ≤ p.maxfd)

pub init_pool-IsPool : (listenfd : ℕ) → listenfd < fd_setsize → IsPool listenfd (init_pool listenfd)
unfolding init_pool
init_pool-IsPool listenfd low = record {
  place = λ i fd e. ground arith;
  one = λ i j fd e f. ground arith;
  owner = λ fd e. ground arith;
  inside = λ fd e. ground arith;
  bound = omega arith;
  listening = (ground arith, omega arith);
}

-- A place that is free, and below the bound.
free_place-some :
    (clientfd : ℕ → Option ℕ) (k i j : ℕ)
    → free_place clientfd k i ≡ some j
    → (clientfd j ≡ none) × (j < i + k)
unfolding free_place
free_place-some clientfd zero i j e = ground arith
free_place-some clientfd (suc k) i j e = elim (Option-cases (clientfd i)) [
  | inl free ↦ ground arith
  | inr (fd, used) ↦ let r = free_place-some clientfd k (i + 1) j (ground arith) in ground arith
]

-- The pool with a client more.
abbrev admitted : ℕ → Pool → ℕ → Pool
admitted connfd p i = record p {
  clientfd = put_at p.clientfd i (some connfd);
  read_set = put_at p.read_set connfd true;
  maxfd = if ltb p.maxfd connfd then connfd else p.maxfd;
  places = if leb p.places i then i + 1 else p.places;
}

admit-IsPool :
    (listenfd connfd : ℕ) (p : Pool) (i : ℕ)
    → IsPool listenfd p
    → IsFresh listenfd p connfd
    → p.clientfd i ≡ none
    → i < fd_setsize
    → connfd < fd_setsize
    → IsPool listenfd (admitted connfd p i)
admit-IsPool listenfd connfd p i h f free b low = record {
  place = λ j fd e. let old = h.place j fd in ground arith;
  one = λ j k fd d e.
      let old = h.one j k fd in let at_j = h.place j fd in let at_k = h.place k fd in ground arith;
  owner = λ fd e. elim (Bool-cases (connfd == fd)) [
    | inl new ↦ inr (i, ground arith)
    | inr other ↦ elim (h.owner fd (ground arith)) [
      | inl l ↦ inl l
      | inr (j, at) ↦ inr (j, ground arith)
    ]
  ];
  inside = λ fd e. let old = h.inside fd in ground arith;
  bound = let b' = h.bound in ground arith;
  listening = let l = h.listening in ground arith;
}

pub close_client-IsPool :
    (listenfd connfd : ℕ) (p : Pool) (i : ℕ)
    → IsPool listenfd p
    → p.clientfd i ≡ some connfd
    → IsPool listenfd (close_client connfd p i)
unfolding close_client
close_client-IsPool listenfd connfd p i h c = record {
  place = λ j fd e. let old = h.place j fd in let same = h.one i j connfd c in ground arith;
  one = λ j k fd d e. let old = h.one j k fd in ground arith;
  owner = λ fd e. elim (h.owner fd (ground arith)) [
    | inl l ↦ inl l
    | inr (j, at) ↦ inr (j, ground arith)
  ];
  inside = λ fd e. let old = h.inside fd in ground arith;
  bound = h.bound;
  listening = let l = h.listening in let at = h.place i connfd c in ground arith;
}

-- The numbers that `select` gives are no part of it.
pub IsPool-selected :
    (listenfd : ℕ) (p : Pool) (ready : ℕ → Bool) (count : ℤ)
    → IsPool listenfd p
    → IsPool listenfd (record p { ready_set = ready; nready = count })
IsPool-selected listenfd p ready count h = record {
  place = h.place;
  one = h.one;
  owner = h.owner;
  inside = h.inside;
  bound = h.bound;
  listening = h.listening;
}

add_client-IsPool :
    (listenfd connfd : ℕ) (p p' : Pool)
    → IsPool listenfd p
    → IsFresh listenfd p connfd
    → add_client connfd p ≡ some p'
    → IsPool listenfd p'
unfolding add_client admit
add_client-IsPool listenfd connfd p p' h f e =
    let nready = add_int p.nready (negsuc 0) in
    let (i, d, c) =
      >>=-eq-some (free_place p.clientfd fd_setsize 0)
        (λ i. admit connfd (record p { nready = nready }) i) e in
    let low' : connfd < fd_setsize = ground arith in
    let same : admitted connfd (record p { nready = nready }) i ≡ p' = ground arith in
    let (free, low) = free_place-some p.clientfd fd_setsize 0 i d in
    subst (IsPool listenfd) same (
      admit-IsPool listenfd connfd (record p { nready = nready }) i
        (IsPool-selected listenfd p p.ready_set nready h) f free low low')

pub arrival-IsPool :
    (listenfd connfd : ℕ) (p p' : Pool) (ready : Bool)
    → IsPool listenfd p
    → IsFresh listenfd p connfd
    → (if ready then add_client connfd p else some p) ≡ some p'
    → IsPool listenfd p'
arrival-IsPool listenfd connfd p p' true h f e = add_client-IsPool listenfd connfd p p' h f e
arrival-IsPool listenfd connfd p p' false h f e =
    let same : p ≡ p' = ground arith in subst (IsPool listenfd) same h

-- Every place that a search passes is in use.
free_place-none :
    (clientfd : ℕ → Option ℕ) (k i : ℕ)
    → free_place clientfd k i ≡ none
    → (j : ℕ) → i ≤ j
    → j < i + k
    → (fd : ℕ) × (clientfd j ≡ some fd)
unfolding free_place
free_place-none clientfd zero i e j low high = absurd (omega arith)
free_place-none clientfd (suc k) i e j low high = elim (Option-cases (clientfd i)) [
  | inl free ↦ ground arith
  | inr (fd, used) ↦ elim (Bool-cases (i == j)) [
    | inl here ↦ (fd, ground arith)
    | inr there ↦ free_place-none clientfd k (i + 1) (ground arith) j (ground arith) (omega arith)
  ]
]

-- From a well-formed pool and a descriptor that is positive, below FD_SETSIZE and not watched,
-- add_client gives the descriptor a place that was free and keeps all other places, and the pool
-- stays well formed; or it gives up, and each of the FD_SETSIZE places holds a client.
pub add_client-total :
    (listenfd connfd : ℕ) (p : Pool)
    → IsPool listenfd p
    → IsFresh listenfd p connfd
    → connfd < fd_setsize
    → ((p' : Pool) × (add_client connfd p ≡ some p')
        × IsPool listenfd p'
        × ((i : ℕ) × (p.clientfd i ≡ none)
            × (p'.clientfd i ≡ some connfd)
            × ((j : ℕ) → i ≢ j → p'.clientfd j ≡ p.clientfd j)))
      ⊎ ((add_client connfd p ≡ none)
          × ((j : ℕ) → j < fd_setsize → (fd : ℕ) × (p.clientfd j ≡ some fd)))
unfolding add_client admit
add_client-total listenfd connfd p h f below =
    elim (Option-cases (free_place p.clientfd fd_setsize 0)) [
      | inl full ↦
          inr (
            ground arith,
            λ j low. free_place-none p.clientfd fd_setsize 0 full j (omega arith) low,
          )
      | inr (i, at) ↦ inl (
          let p' = admitted connfd (record p { nready = add_int p.nready (negsuc 0) }) i in
          let e : add_client connfd p ≡ some p' = ground arith in
          let (free, low) = free_place-some p.clientfd fd_setsize 0 i at in
          (
            p',
            e,
            add_client-IsPool listenfd connfd p p' h f e,
            (i, free, ground arith, λ j ne. ground arith),
          ))
    ]
