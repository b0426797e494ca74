-- ===== src/Server.antt =====
-- prj2/task1/stockserver.c: the pool of clients, and one round of the server's loop. `select`,
-- `accept` and the streams of the clients are parameters: what they give in a round is `Round`.
pub mod Places
pub mod Safety
mod Tests
use system_programing.Common.{
  ℕ, zero, suc, ◌+◌, Bool, true, false, not, ◌&&◌, List, [], ◌∷◌, ◌++◌, Option, none, some, ltb,
  leb, if◌then◌else◌, ◌>>=◌,
}
use system_programing.Common.Threads.{put_at}
use system_programing.Common.Int.{ℤ, pos, negsuc, add_int, ltb_ℤ}
use system_programing.Common.Text.{Bytes, codes, str_eq, newline}
use system_programing.Stock.{Tree}
use system_programing.Stock.Request.{process_request}

-- `pool`; a set of descriptors is a test on them, a place of `clientfd` that holds -1 is `none`,
-- and `places` is `maxi + 1`. The sets and the places are of FD_SETSIZE, 1024; a use of FD_SET past
-- its set is undefined.
pub record Pool : Type 0 where
  pub maxfd : ℕ
  pub read_set : ℕ → Bool
  pub ready_set : ℕ → Bool
  pub nready : ℤ
  pub places : ℕ
  pub clientfd : ℕ → Option ℕ

abbrev pub fd_setsize : ℕ
fd_setsize = 1024

-- FD_ZERO and FD_SET leave `ready_set` and `nready` as the static pool has them; the listening
-- descriptor, one of the first that the process opens, is below FD_SETSIZE.
unfoldable pub init_pool : ℕ → Pool
init_pool listenfd = record {
  maxfd = listenfd;
  read_set = put_at (λ _. false) listenfd true;
  ready_set = λ _. false;
  nready = pos 0;
  places = 0;
  clientfd = λ _. none;
}

-- The first place that is not in use, of `k` places from `i` on.
unfoldable pub free_place : (ℕ → Option ℕ) → ℕ → ℕ → Option ℕ
free_place clientfd zero i = none
free_place clientfd (suc k) i = elim (clientfd i) [
  | none ↦ some i
  | some fd ↦ free_place clientfd k (i + 1)
]

-- The body of the loop of `add_client` at a free place; `none`: FD_SET writes past `read_set`.
unfoldable pub admit : ℕ → Pool → ℕ → Option Pool
admit connfd p i =
    if ltb connfd fd_setsize
    then some (record p {
      clientfd = put_at p.clientfd i (some connfd);
      read_set = put_at p.read_set connfd true;
      maxfd = if ltb p.maxfd connfd then connfd else p.maxfd;
      places = if leb p.places i then i + 1 else p.places;
    })
    else none

-- `none`: every place is in use, and `app_error` ends the server; or the descriptor is past the set.
unfoldable pub add_client : ℕ → Pool → Option Pool
add_client connfd p = free_place p.clientfd fd_setsize 0 >>= λ i.
    admit connfd (record p { nready = add_int p.nready (negsuc 0) }) i

unfoldable pub close_client : ℕ → Pool → ℕ → Pool
close_client connfd p i = record p {
  read_set = put_at p.read_set connfd false;
  clientfd = put_at p.clientfd i none;
}

-- The pool, the stocks, and what has been sent to which descriptor.
pub record Server : Type 0 where
  pub pool : Pool
  pub root : Tree
  pub sent : List (ℕ × Bytes)

abbrev pub send : Server → ℕ → Bytes → Server
send s connfd response = record s { sent = s.sent ++ (connfd, response) ∷ [] }

abbrev pub closed : Server → ℕ → ℕ → Server
closed s connfd i = record s { pool = close_client connfd s.pool i }

-- A line of a ready client; the empty text is the end of its stream. `none` is a crash.
unfoldable pub answer : Server → ℕ → ℕ → Bytes → Option Server
answer s connfd i [] = some (closed s connfd i)
answer s connfd i (c ∷ buf) =
    if str_eq (c ∷ buf) (codes "exit" ++ newline ∷ [])
    then some (closed (send s connfd (c ∷ buf)) connfd i)
    else if str_eq (c ∷ buf) (newline ∷ [])
    then some s
    else process_request s.root (c ∷ buf) >>= λ r. some (send (record s { root = r.1 }) connfd r.0)

-- One place of the pool.
unfoldable pub check_client : (ℕ → Bytes) → Server → ℕ → Option Server
check_client line s i = elim (s.pool.clientfd i) [
  | none ↦ some s
  | some connfd ↦
      if ltb 0 connfd && s.pool.ready_set connfd
      then answer (record s { pool = record s.pool { nready = add_int s.pool.nready (negsuc 0) } })
          connfd i (line connfd)
      else some s
]

-- The `for` loop, with `k` places left; it stops when no ready client is left.
unfoldable pub check_from : (ℕ → Bytes) → ℕ → ℕ → Server → Option Server
check_from line zero i s = some s
check_from line (suc k) i s = elim (ltb_ℤ (pos 0) s.pool.nready) [
  | true ↦ check_client line s i >>= λ s'. check_from line k (i + 1) s'
  | false ↦ some s
]

unfoldable pub check_clients : (ℕ → Bytes) → Server → Option Server
check_clients line s = check_from line s.pool.places 0 s

-- What a round gets from outside: the set and the number that `select` returns, the descriptor
-- that `accept` would return, and the line that each client has sent.
pub record Round : Type 0 where
  pub ready : ℕ → Bool
  pub count : ℤ
  pub connfd : ℕ
  pub line : ℕ → Bytes

abbrev pub selected : Pool → Round → Pool
selected p r = record p { ready_set = r.ready; nready = r.count }

-- The body of the loop of `main`.
unfoldable pub serve_round : ℕ → Server → Round → Option Server
serve_round listenfd s r =
    (if r.ready listenfd then add_client r.connfd (selected s.pool r) else some (selected s.pool r))
    >>= λ p. check_clients r.line (record s { pool = p })
