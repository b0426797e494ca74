-- ===== src/Stock/Request.antt =====
-- `process_request` of prj2/task1/stock_endpoint.c: one command line of a client.
pub mod Protocol
pub mod Restart
use system_programing.Common.{
  ℕ, Bool, true, false, List, [], ◌∷◌, ◌++◌, Option, none, some, ◌||◌, ◌==◌, if◌then◌else◌, ◌>>=◌,
}
use system_programing.Common.Int.{ℤ, neg_int}
use system_programing.Common.Text.{Bytes, codes, str_eq, newline, space, strtok}
use system_programing.Common.Decimal.{atoi}
use system_programing.Stock.{
  Tree, Status, not_found, not_enough, success, update_stock, set_stocks_info,
}

-- The delimiters " \n".
abbrev pub is_blank : ℕ → Bool
is_blank c = c == space || c == newline

escape : Bytes → Bytes
escape s = 27 ∷ s

unfoldable pub green_success : Bytes
unfolding escape
green_success = escape (codes "[0;32msuccess") ++ escape (codes "[0m") ++ newline ∷ []

unfoldable pub buy_reply : Status → Bytes
unfolding green_success
buy_reply success = codes "[buy] " ++ green_success
buy_reply not_found = codes "Stock Not found" ++ newline ∷ []
buy_reply not_enough = codes "Not enough left stock" ++ newline ∷ []

-- The `switch` of `sell` has no case for `NOT_ENOUGH`: the zeroed buffer is sent.
unfoldable pub sell_reply : Status → Bytes
unfolding green_success
sell_reply success = codes "[sell] " ++ green_success
sell_reply not_found = codes "Stock Not found" ++ newline ∷ []
sell_reply not_enough = []

-- `atoi(strtok(NULL, " \n"))`; `none` is `atoi` of the null pointer, a crash.
unfoldable pub next_number : Bytes → Option (ℤ × Bytes)
next_number s = do (token, rest) ← strtok is_blank s; some (atoi token, rest)

unfoldable pub buy : Tree → Bytes → Option (Bytes × Tree)
buy root s = do
  (id, s') ← next_number s
  (cnt, s'') ← next_number s'
  (state, root') ← update_stock root id (neg_int cnt)
  some (buy_reply state, root')

unfoldable pub sell : Tree → Bytes → Option (Bytes × Tree)
sell root s = do
  (id, s') ← next_number s
  (cnt, s'') ← next_number s'
  (state, root') ← update_stock root id cnt
  some (sell_reply state, root')

-- The branches on the first word; any other word is answered by the zeroed buffer.
unfoldable pub dispatch : Tree → Bytes → Bytes → Option (Bytes × Tree)
dispatch root prefix s =
    if str_eq prefix (codes "show")
    then (set_stocks_info root [] >>= λ stock_info. some (stock_info, root))
    else if str_eq prefix (codes "buy")
    then buy root s
    else if str_eq prefix (codes "sell")
    then sell root s
    else some ([], root)

-- The text that is sent back and the new tree. `none` is a crash: a line without a word, or a
-- command without its numbers, hands the null pointer to `strcmp` or `atoi`; or `show` overflows the
-- buffer.
unfoldable pub process_request : Tree → Bytes → Option (Bytes × Tree)
process_request root command = do (prefix, s) ← strtok is_blank command; dispatch root prefix s
