-- ===== src/Stock/Locked.antt =====
-- prj2/task2_new/stock_endpoint.c: requests of one thread on a tree whose nodes are guarded by two
-- semaphores and a count of readers. The tree, the lookup and the replies are as in prj2/task1.
pub mod Agree
use system_programing.Common.{
  ℕ, zero, suc, ◌+◌, ◌-◌, ◌==◌, List, [], ◌∷◌, Option, none, some, if◌then◌else◌, ◌>>=◌,
}
use system_programing.Common.Int.{ℤ, pos, add_int, neg_int, ltb_ℤ}
use system_programing.Common.Text.{Bytes, codes, str_eq, strtok}
use system_programing.Stock.{
  Tree, leaf, node, Status, not_enough, success, Address, left_stock, right_stock, get_stock,
  stock_at, set_cnt, line, strcat,
}
use system_programing.Stock.Request.{is_blank, buy_reply, sell_reply, next_number}

-- The shared fields of a node that guard it; semaphores by their values.
pub record Guard : Type 0 where
  pub read_cnt : ℕ
  pub mutex : ℕ
  pub mutex_read : ℕ

-- The guards of a tree's nodes.
pub data Guards : Type 0 where
  no_node : Guards
  guards : (left : Guards) → Guard → (right : Guards) → Guards

-- `P`; `none` says that it waits, for good if no other thread runs.
unfoldable pub wait : ℕ → Option ℕ
wait zero = none
wait (suc n) = some n

-- `V`
unfoldable pub post : ℕ → ℕ
post n = n + 1

-- `set_stocks_info` before its `sprintf`, and behind its `strcat`.
unfoldable pub enter_read : Guard → Option Guard
enter_read g = do
  door ← wait g.mutex_read
  mutex ← if g.read_cnt + 1 == 1 then wait g.mutex else some g.mutex
  some (record { read_cnt = g.read_cnt + 1; mutex = mutex; mutex_read = post door })

unfoldable pub leave_read : Guard → Option Guard
leave_read g = do
  door ← wait g.mutex_read
  some (record {
    read_cnt = g.read_cnt - 1;
    mutex = if g.read_cnt - 1 == 0 then post g.mutex else g.mutex;
    mutex_read = post door;
  })

-- `set_stocks_info`; `none` is a wait, or an overflow of the buffer.
unfoldable pub show_guarded : Tree → Guards → Bytes → Option (Bytes × Guards)
show_guarded leaf gs stock_info = some (stock_info, gs)
show_guarded (node l s r) no_node stock_info = none
show_guarded (node l s r) (guards a g b) stock_info = do
  g' ← enter_read g
  node_info ← strcat stock_info (line s)
  g'' ← leave_read g'
  (left_info, a') ← show_guarded l a node_info
  (info, b') ← show_guarded r b left_info
  some (info, guards a' g'' b')

-- `P(&target_stock->mutex)` and `V(&target_stock->mutex)`.
unfoldable pub wait_at : Guards → Address → Option Guards
wait_at no_node target = none
wait_at (guards a g b) [] = do mutex ← wait g.mutex; some (guards a (record g { mutex = mutex }) b)
wait_at (guards a g b) (left_stock ∷ target) = do a' ← wait_at a target; some (guards a' g b)
wait_at (guards a g b) (right_stock ∷ target) = do b' ← wait_at b target; some (guards a g b')

unfoldable pub post_at : Guards → Address → Guards
post_at no_node target = no_node
post_at (guards a g b) [] = guards a (record g { mutex = post g.mutex }) b
post_at (guards a g b) (left_stock ∷ target) = guards (post_at a target) g b
post_at (guards a g b) (right_stock ∷ target) = guards a g (post_at b target)

-- Where `get_stock` has returned the null pointer the first `P` is a wait on a bad address, and `none`.
unfoldable pub locked_update : Tree → Guards → ℤ → ℤ → Option (Status × Tree × Guards)
locked_update root gs id cnt = elim (get_stock root id) [
  | none ↦ none
  | some target ↦ wait_at gs target >>= λ gs'. elim (stock_at root target) [
    | none ↦ none
    | some s ↦
        if ltb_ℤ (add_int s.cnt cnt) (pos 0)
        then some (not_enough, root, post_at gs' target)
        else some (success, set_cnt root target (add_int s.cnt cnt), post_at gs' target)
  ]
]

unfoldable pub locked_buy : Tree → Guards → Bytes → Option (Bytes × Tree × Guards)
locked_buy root gs s = do
  (id, s') ← next_number s
  (cnt, s'') ← next_number s'
  (state, root', gs') ← locked_update root gs id (neg_int cnt)
  some (buy_reply state, root', gs')

unfoldable pub locked_sell : Tree → Guards → Bytes → Option (Bytes × Tree × Guards)
locked_sell root gs s = do
  (id, s') ← next_number s
  (cnt, s'') ← next_number s'
  (state, root', gs') ← locked_update root gs id cnt
  some (sell_reply state, root', gs')

unfoldable pub locked_dispatch : Tree → Guards → Bytes → Bytes → Option (Bytes × Tree × Guards)
locked_dispatch root gs prefix s =
    if str_eq prefix (codes "show")
    then (show_guarded root gs [] >>= λ r. some (r.0, root, r.1))
    else if str_eq prefix (codes "buy")
    then locked_buy root gs s
    else if str_eq prefix (codes "sell")
    then locked_sell root gs s
    else some ([], root, gs)

unfoldable pub locked_request : Tree → Guards → Bytes → Option (Bytes × Tree × Guards)
locked_request root gs command = do
  (prefix, s) ← strtok is_blank command
  locked_dispatch root gs prefix s

-- `connect_client`: the lines of a connection, up to the end of its stream; the replies, the tree and
-- the guards.
unfoldable pub connect_client : Tree → Guards → List Bytes → Option (List Bytes × Tree × Guards)
connect_client root gs [] = some ([], root, gs)
connect_client root gs (buf ∷ lines) = do
  (response, root', gs') ← locked_request root gs buf
  (responses, last_root, last_gs) ← connect_client root' gs' lines
  some (response ∷ responses, last_root, last_gs)
