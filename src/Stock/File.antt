-- ===== src/Stock/File.antt =====
-- `init_stock` and `write_to_file` of prj2/task1/stock_endpoint.c: stock.txt read and written.
pub mod Restore
use system_programing.Common.{
  ℕ, zero, suc, ◌+◌, Bool, true, false, List, [], ◌∷◌, Option, none, some, ◌||◌, ◌==◌,
  if◌then◌else◌, length,
}
use system_programing.Common.Text.{Bytes}
use system_programing.Common.Decimal.{skip_space, scan_int}
use system_programing.Stock.{Tree, leaf, insert_stock, set_stocks_info}

drop_sign : Bytes → Bytes
drop_sign [] = []
drop_sign (c ∷ s) = if c == b'-' || c == b'+' then s else c ∷ s

-- What a failed `%d` leaves in the stream: it has read white space and a sign.
unfoldable pub unread : Bytes → Bytes
unfolding drop_sign
unread s = drop_sign (skip_space s)

-- How the loop ends: with a tree, or with a node of which a field was never read (`fscanf` has
-- returned 1 or 2, and `cnt` or `price` is indeterminate); `running` if the fuel is used up. With
-- `overrun` the listing of the tree has written past `stock_info`.
pub data Loaded : Type 0 where
  loaded : Tree → Loaded
  indeterminate : Loaded
  running : Loaded
  overrun : Loaded

-- The stream is at its end as soon as a read has met it, that is, if nothing is left.
abbrev pub at_end : Bytes → Bool
at_end [] = true
at_end (c ∷ s) = false

-- A round of `while (!feof(fp))`; the test stands behind the body, since it holds at the start.
unfoldable pub load_loop : ℕ → Bytes → Tree → Loaded
load_loop zero s root = running
load_loop (suc fuel) s root = elim (scan_int s) [
  | none ↦ elim (at_end (unread s)) [ true ↦ loaded root | false ↦ load_loop fuel (unread s) root ]
  | some (id, s1) ↦ elim (scan_int s1) [
    | none ↦ indeterminate
    | some (cnt, s2) ↦ elim (scan_int s2) [
      | none ↦ indeterminate
      | some (price, s3) ↦ elim (at_end s3) [
        | true ↦ loaded (insert_stock root id price cnt)
        | false ↦ load_loop fuel s3 (insert_stock root id price cnt)
      ]
    ]
  ]
]

-- The call of `set_stocks_info` behind the loop.
unfoldable pub list_loaded : Loaded → Loaded
list_loaded (loaded root) = elim (set_stocks_info root []) [
  | none ↦ overrun
  | some info ↦ loaded root
]
list_loaded l = l

-- Every round that goes on with a number read has consumed bytes, so this fuel is enough for
-- `Restore`; where a text holds no number to read the loop has no end (`load_loop-spins`).
unfoldable pub init_stock : Bytes → Loaded
init_stock text = list_loaded (load_loop (length text + 1) text leaf)

-- The new content of stock.txt; `none` is the overflow of `stock_info`.
unfoldable pub write_to_file : Tree → Bytes → Option Bytes
write_to_file root stock_info = set_stocks_info root stock_info
