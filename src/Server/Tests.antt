-- ===== src/Server/Tests.antt =====
-- prj2/task1/stockserver.c: rounds of the server on a small tree, and the theorems at them.
use system_programing.Common.{
  ℕ, ◌<◌, ◌≡◌, ◌≢◌, ◌⊎◌, refl, arith, true, List, [], ◌∷◌, ◌++◌, Option, none, some, ◌==◌, ◌>>=◌,
}
use system_programing.Common.Threads.{put_at}
use system_programing.Common.Int.{pos, add_int, wrap32, ◌+ℤ◌}
use system_programing.Common.Text.{Bytes, codes, newline}
use system_programing.Stock.{leaf}
use system_programing.Stock.Update.{IsSound}
use system_programing.Server.{
  Pool, fd_setsize, init_pool, free_place, admit, add_client, close_client, Server, Round, answer,
  check_client, check_from, check_clients, serve_round,
}
use system_programing.Server.Places.{IsPool, init_pool-IsPool, add_client-total}
use system_programing.Server.Safety.{IsServer, serve_round-IsServer}

abbrev server : Server
server = record { pool = init_pool 3; root = leaf; sent = [] }

-- A connection arrives, and the listening descriptor alone is ready.
abbrev arrival : ℕ → Round
arrival connfd = record { ready = λ fd. fd == 3; count = pos 1; connfd = connfd; line = λ fd. [] }

-- One client sends a line.
abbrev request : ℕ → Bytes → Round
request connfd text = record {
  ready = λ fd. fd == connfd;
  count = pos 1;
  connfd = 0;
  line = λ fd. text;
}

abbrev rounds : Server → List Round → Option Server
rounds s [] = some s
rounds s (r ∷ rs) = serve_round 3 s r >>= λ s'. rounds s' rs

abbrev sent_in : List Round → Option (List (ℕ × Bytes))
sent_in rs = rounds server rs >>= λ s. some s.sent

-- Two clients; a line of the second and the end of the first.
sent_run :
    sent_in (
      arrival 4
      ∷ arrival 5
      ∷ request 5 (newline ∷ [])
      ∷ request 4 (codes "exit" ++ newline ∷ [])
      ∷ [])
    ≡ some ((4, codes "exit" ++ newline ∷ []) ∷ [])
unfolding init_pool free_place admit add_client close_client answer check_client check_from
    check_clients serve_round add_int wrap32 ◌+ℤ◌
sent_run = refl

-- The place of a client that has left is used again.
place_run :
    (rounds server (arrival 4 ∷ arrival 5 ∷ request 4 [] ∷ arrival 6 ∷ []) >>= λ s.
    s.pool.clientfd 0)
    ≡ some 6
unfolding init_pool free_place admit add_client close_client answer check_client check_from
    check_clients serve_round add_int wrap32 ◌+ℤ◌
place_run = refl

abbrev first_pool : Pool
first_pool = init_pool 3

abbrev one_client : Server
one_client = record {
  pool = record {
    maxfd = 4;
    read_set = put_at first_pool.read_set 4 true;
    ready_set = λ fd. fd == 3;
    nready = pos 0;
    places = 1;
    clientfd = put_at first_pool.clientfd 0 (some 4);
  };
  root = leaf;
  sent = [];
}

leaf-IsSound : IsSound leaf
leaf-IsSound = omega arith

one_client_run : serve_round 3 server (arrival 4) ≡ some one_client
unfolding init_pool free_place admit add_client close_client answer check_client check_from
    check_clients serve_round add_int wrap32 ◌+ℤ◌
one_client_run = refl

serve_round-IsServer_example : IsServer 3 one_client
unfolding init_pool free_place admit add_client close_client answer check_client check_from
    check_clients serve_round add_int wrap32 ◌+ℤ◌
serve_round-IsServer_example =
    serve_round-IsServer 3 server (arrival 4) (init_pool-IsPool 3 (omega arith), leaf-IsSound)
      (omega arith, ground arith, refl) one_client_run

add_client-total_example :
    ((p' : Pool) × (add_client 4 first_pool ≡ some p')
      × IsPool 3 p'
      × ((i : ℕ) × (first_pool.clientfd i ≡ none)
          × (p'.clientfd i ≡ some 4)
          × ((j : ℕ) → i ≢ j → p'.clientfd j ≡ first_pool.clientfd j)))
    ⊎ ((add_client 4 first_pool ≡ none)
        × ((j : ℕ) → j < fd_setsize → (fd : ℕ) × (first_pool.clientfd j ≡ some fd)))
unfolding init_pool
add_client-total_example =
    add_client-total 3 4 first_pool (init_pool-IsPool 3 (omega arith))
      (omega arith, ground arith, refl) (omega arith)
