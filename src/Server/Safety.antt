-- ===== src/Server/Safety.antt =====
-- prj2/task1/stockserver.c: the pool from round to round.
use system_programing.Common.{
  ℕ, zero, suc, ◌+◌, ◌≡◌, subst, arith, inl, inr, Bool-cases, [], ◌∷◌, ◌++◌, some, ltb,
  if◌then◌else◌, >>=-eq-some, Option-cases, ◌&&◌,
}
use system_programing.Common.Text.{Bytes, codes, str_eq, newline}
use system_programing.Common.Int.{pos, negsuc, add_int, ltb_ℤ}
use system_programing.Stock.Request.{process_request}
use system_programing.Stock.Request.Restart.{process_request-IsSound}
use system_programing.Stock.Update.{IsSound}
use system_programing.Server.{
  add_client, Server, Round, send, closed, answer, check_client, check_from, check_clients,
  selected, serve_round,
}
use system_programing.Server.Places.{
  IsPool, IsFresh, IsPool-selected, arrival-IsPool, close_client-IsPool,
}

-- The server is well formed, if it has not crashed.
abbrev pub IsServer : ℕ → Server → Type 0
IsServer listenfd s = IsPool listenfd s.pool × IsSound s.root

answer-IsServer :
    (listenfd : ℕ) (s : Server) (connfd i : ℕ) (buf : Bytes) {s' : Server}
    → IsServer listenfd s
    → s.pool.clientfd i ≡ some connfd
    → answer s connfd i buf ≡ some s'
    → IsServer listenfd s'
unfolding answer
answer-IsServer listenfd s connfd i [] {s'} h at e =
    let same : closed s connfd i ≡ s' = ground arith in
    subst (IsServer listenfd) same (close_client-IsPool listenfd connfd s.pool i h.0 at, h.1)
answer-IsServer listenfd s connfd i (c ∷ buf) {s'} h at e =
    elim (Bool-cases (str_eq (c ∷ buf) (codes "exit" ++ newline ∷ []))) [
      | inl exit ↦
          let same : closed (send s connfd (c ∷ buf)) connfd i ≡ s' = ground arith in
          subst (IsServer listenfd) same (close_client-IsPool listenfd connfd s.pool i h.0 at, h.1)
      | inr other ↦ elim (Bool-cases (str_eq (c ∷ buf) (newline ∷ []))) [
        | inl blank ↦ let same : s ≡ s' = ground arith in subst (IsServer listenfd) same h
        | inr line ↦
            let (r, d, f) =
              >>=-eq-some (process_request s.root (c ∷ buf))
                (λ r. some (send (record s { root = r.1 }) connfd r.0)) (rw (other, line) at e) in
            let same : send (record s { root = r.1 }) connfd r.0 ≡ s' = ground arith in
            subst (IsServer listenfd) same (h.0, process_request-IsSound s.root (c ∷ buf) h.1 d)
      ]
    ]

abbrev counted : Server → Server
counted s = record s { pool = record s.pool { nready = add_int s.pool.nready (negsuc 0) } }

recount : (listenfd : ℕ) (s : Server) → IsServer listenfd s → IsServer listenfd (counted s)
recount listenfd s h =
    (IsPool-selected listenfd s.pool s.pool.ready_set (add_int s.pool.nready (negsuc 0)) h.0, h.1)

check_client-IsServer :
    (listenfd : ℕ) (line : ℕ → Bytes) (s : Server) (i : ℕ) {s' : Server}
    → IsServer listenfd s
    → check_client line s i ≡ some s'
    → IsServer listenfd s'
unfolding check_client
check_client-IsServer listenfd line s i {s'} h e = elim (Option-cases (s.pool.clientfd i)) [
  | inl free ↦ let same : s ≡ s' = ground arith in subst (IsServer listenfd) same h
  | inr (connfd, at) ↦ elim (Bool-cases (ltb 0 connfd && s.pool.ready_set connfd)) [
    | inl ready ↦
        answer-IsServer listenfd (counted s) connfd i (line connfd) {s' = s'} (recount listenfd s h)
          at (ground arith)
    | inr idle ↦ let same : s ≡ s' = ground arith in subst (IsServer listenfd) same h
  ]
]

check_from-IsServer :
    (listenfd : ℕ) (line : ℕ → Bytes) (k i : ℕ) (s : Server) {s' : Server}
    → IsServer listenfd s
    → check_from line k i s ≡ some s'
    → IsServer listenfd s'
unfolding check_from
check_from-IsServer listenfd line zero i s {s'} h e =
    let same : s ≡ s' = ground arith in subst (IsServer listenfd) same h
check_from-IsServer listenfd line (suc k) i s {s'} h e =
    elim (Bool-cases (ltb_ℤ (pos 0) s.pool.nready)) [
      | inl some_ready ↦
          let (t, d, f) =
            >>=-eq-some (check_client line s i) (check_from line k (i + 1)) {b = s'}
              (ground arith) in
          check_from-IsServer listenfd line k (i + 1) t
            (check_client-IsServer listenfd line s i h d) f
      | inr none_ready ↦ let same : s ≡ s' = ground arith in subst (IsServer listenfd) same h
    ]

-- `accept` returns a descriptor that is not in use.
abbrev pub Accepts : ℕ → Server → Round → Type 0
Accepts listenfd s r = IsFresh listenfd s.pool r.connfd

-- From a well-formed pool and a sound tree, where accept gives a positive descriptor that is not
-- watched, a round of the main loop that does not crash, by FD_SET past the set or otherwise,
-- whatever select reports and the clients send, leads to a well-formed pool and a sound tree.
pub serve_round-IsServer :
    (listenfd : ℕ) (s : Server) (r : Round) {s' : Server}
    → IsServer listenfd s
    → Accepts listenfd s r
    → serve_round listenfd s r ≡ some s'
    → IsServer listenfd s'
unfolding serve_round check_clients
serve_round-IsServer listenfd s r {s'} h a e =
    let (p, d, f) =
      >>=-eq-some
        (if r.ready listenfd
          then add_client r.connfd (selected s.pool r)
          else some (selected s.pool r))
        (λ p. check_clients r.line (record s { pool = p })) e in
    let idle = IsPool-selected listenfd s.pool r.ready r.count h.0 in
    let pool : IsPool listenfd p =
      arrival-IsPool listenfd r.connfd (selected s.pool r) p (r.ready listenfd) idle a d in
    check_from-IsServer listenfd r.line p.places 0 (record s { pool = p }) (pool, h.1) f
