-- ===== src/Stock.antt =====
-- prj2/task1/stock_endpoint.c: the stocks as an unbalanced search tree, looked up and updated in
-- place. Nodes are never moved or freed, so a pointer to a node is the way to it from the root.
pub mod Order
pub mod Find
pub mod Listing
pub mod Update
pub mod Request
pub mod Locked
pub mod Coarse
pub mod Ledger
pub mod File
mod Tests
use system_programing.Common.{
  ℕ, Bool, true, false, List, [], ◌∷◌, ◌++◌, Option, none, some, if◌then◌else◌, length, ltb, ◌>>=◌,
}
use system_programing.Common.Int.{ℤ, pos, ltb_ℤ, ◌==ℤ◌, add_int}
use system_programing.Common.Text.{Bytes, newline, space}
use system_programing.Common.Decimal.{print_int}
use mathlib.Core.Option

-- The fields of `struct stock` but for the links; the server of task1 leaves `mutex` alone.
pub record Stock : Type 0 where
  pub id : ℤ
  pub price : ℤ
  pub cnt : ℤ

pub data Tree : Type 0 where
  leaf : Tree
  node : (left_stock : Tree) → Stock → (right_stock : Tree) → Tree

-- The loop goes down to the first missing link; an equal ID goes right.
unfoldable pub insert_node : Tree → Stock → Tree
insert_node leaf new_stock = node leaf new_stock leaf
insert_node (node l cur r) new_stock =
    if ltb_ℤ new_stock.id cur.id
    then node (insert_node l new_stock) cur r
    else node l cur (insert_node r new_stock)

abbrev pub insert_stock : Tree → ℤ → ℤ → ℤ → Tree
insert_stock root id price cnt = insert_node root (record { id = id; price = price; cnt = cnt })

-- A step from a node to one of its links.
pub data Link : Type 0 where
  left_stock : Link
  right_stock : Link

abbrev pub Address : Type 0
Address = List Link

-- `none` is the null pointer.
unfoldable pub get_stock : Tree → ℤ → Option Address
get_stock leaf id = none
get_stock (node l cur r) id =
    if cur.id ==ℤ id
    then some []
    else if ltb_ℤ id cur.id
    then Option.map (λ a. left_stock ∷ a) (get_stock l id)
    else Option.map (λ a. right_stock ∷ a) (get_stock r id)

-- A read through a pointer; `none` where no node is.
unfoldable pub stock_at : Tree → Address → Option Stock
stock_at leaf a = none
stock_at (node l s r) [] = some s
stock_at (node l s r) (left_stock ∷ a) = stock_at l a
stock_at (node l s r) (right_stock ∷ a) = stock_at r a

-- A write of the field `cnt` through a pointer.
unfoldable pub set_cnt : Tree → Address → ℤ → Tree
set_cnt leaf a v = leaf
set_cnt (node l s r) [] v = node l (record s { cnt = v }) r
set_cnt (node l s r) (left_stock ∷ a) v = node (set_cnt l a v) s r
set_cnt (node l s r) (right_stock ∷ a) v = node l s (set_cnt r a v)

pub data Status : Type 0 where
  not_found : Status
  not_enough : Status
  success : Status

-- The pointer is read as `get_stock` returned it; `none` is a read through a pointer to no node,
-- which `Update.update_stock-total` rules out.
unfoldable pub update_stock : Tree → ℤ → ℤ → Option (Status × Tree)
update_stock root id cnt = elim (get_stock root id) [
  | none ↦ some (not_found, root)
  | some target ↦ elim (stock_at root target) [
    | none ↦ none
    | some s ↦
        if ltb_ℤ (add_int s.cnt cnt) (pos 0)
        then some (not_enough, root)
        else some (success, set_cnt root target (add_int s.cnt cnt))
  ]
]

-- `sprintf(temp, "%d %d %d\n", …)`
unfoldable pub line : Stock → Bytes
line s = print_int s.id ++ (space ∷ print_int s.cnt ++ (space ∷ print_int s.price ++ newline ∷ []))

abbrev pub maxbuf : ℕ
maxbuf = 8192

-- `strcat` to a buffer of MAXBUF bytes; `none` where the text and its end do not fit.
unfoldable pub strcat : Bytes → Bytes → Option Bytes
strcat buf text = if ltb (length (buf ++ text)) maxbuf then some (buf ++ text) else none

-- The node, then its left, then its right, each appended to the buffer; `none` is its overflow.
unfoldable pub add_stocks_info : Tree → Bytes → Option Bytes
add_stocks_info leaf stock_info = some stock_info
add_stocks_info (node l s r) stock_info = do
  node_info ← strcat stock_info (line s)
  left_info ← add_stocks_info l node_info
  add_stocks_info r left_info

-- The call at the root first empties the buffer.
unfoldable pub set_stocks_info : Tree → Bytes → Option Bytes
set_stocks_info root stock_info = add_stocks_info root []
