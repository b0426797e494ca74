-- ===== src/Stock/Locked/Agree.antt =====
-- prj2/task2_new/stock_endpoint.c: a request with all guards free, against the server of prj2/task1.
use system_programing.Common.{◌≡◌, ◌⊎◌, [], ◌∷◌, ◌++◌, Option, none, some, ◌>>=◌}
use system_programing.Common.Text.{Bytes, codes, newline}
use system_programing.Stock.{Tree, leaf, node}
use system_programing.Stock.Locked.{Guard, Guards, no_node, guards}

-- No thread reads or writes the node or is at its door.
abbrev pub IsFree : Guard → Type 0
IsFree g = (g.read_cnt ≡ 0) × (g.mutex ≡ 1) × (g.mutex_read ≡ 1)

-- There is a guard for each node of the tree, and each is free.
abbrev pub AllFree : Tree → Guards → Type 0
AllFree leaf gs = Unit
AllFree (node l s r) no_node = ⊥
AllFree (node l s r) (guards a g b) = AllFree l a × IsFree g × AllFree r b

abbrev inside : Guard → Guard
inside g = record { read_cnt = 1; mutex = 0; mutex_read = 1 }

-- What a server without guards returns, and the guards as they are.
abbrev pub with_guards : Guards → Option (Bytes × Tree) → Option (Bytes × Tree × Guards)
with_guards gs plain = plain >>= λ r. some (r.0, r.1, gs)

-- The two servers answer alike, and the guards are as they were; or the request names no stock, which
-- the one of task1 says, and which crashes the one of task2_new.
abbrev pub Agrees : Tree → Guards → Option (Bytes × Tree × Guards) → Option (Bytes × Tree) → Type 0
Agrees root gs locked plain =
    (locked ≡ with_guards gs plain)
    ⊎ ((locked ≡ none) × (plain ≡ some (codes "Stock Not found" ++ newline ∷ [], root)))
