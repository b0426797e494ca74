-- ===== src/Stock/Order.antt =====
-- prj2/task1/stock_endpoint.c: the order of the tree, smaller IDs left, others right.
use system_programing.Common.{arith, List, [], ◌∷◌, ◌++◌, All, All-append}
use system_programing.Common.Int.{ℤ, ◌<ℤ◌, ◌≤ℤ◌}
use system_programing.Stock.{
  Stock, Tree, leaf, node, insert_node, left_stock, right_stock, Address, set_cnt,
}

-- Every stock of the tree satisfies `P`.
abbrev pub AllIn {ℓ} : (Stock → Type ℓ) → Tree → Type ℓ
AllIn P leaf = Unit
AllIn P (node l s r) = AllIn P l × P s × AllIn P r

abbrev pub IsOrdered : Tree → Type 0
IsOrdered leaf = Unit
IsOrdered (node l s r) =
    AllIn (λ x. x.id <ℤ s.id) l × AllIn (λ x. s.id ≤ℤ x.id) r × IsOrdered l × IsOrdered r

-- The stocks in the order in which `set_stocks_info` writes them.
abbrev pub preorder : Tree → List Stock
preorder leaf = []
preorder (node l s r) = s ∷ preorder l ++ preorder r

-- Every stock of the tree that satisfies `P` satisfies `Q`.
pub AllIn-map {ℓ} :
    (P Q : Stock → Type ℓ) → ((s : Stock) → P s → Q s) → (t : Tree) → AllIn P t → AllIn Q t
AllIn-map P Q f leaf h = tt
AllIn-map P Q f (node l s r) h = (AllIn-map P Q f l h.0, f s h.1, AllIn-map P Q f r h.2)

pub All-preorder {ℓ} : (P : Stock → Type ℓ) (t : Tree) → AllIn P t → All P (preorder t)
All-preorder P leaf h = tt
All-preorder P (node l s r) h =
    (h.1, All-append P (preorder l) (preorder r) (All-preorder P l h.0) (All-preorder P r h.2))

pub AllIn-insert_node {ℓ} :
    (P : Stock → Type ℓ) (t : Tree) (s : Stock) → P s → AllIn P t → AllIn P (insert_node t s)
unfolding insert_node
AllIn-insert_node P leaf s p a = (tt, p, tt)
AllIn-insert_node P (node l x r) s p a =
    ground (arith, AllIn-insert_node P l s p a.0, AllIn-insert_node P r s p a.2)

-- Insertion keeps the order, equal IDs included.
pub insert_node-IsOrdered : (t : Tree) (s : Stock) → IsOrdered t → IsOrdered (insert_node t s)
unfolding insert_node
insert_node-IsOrdered leaf s o = (tt, tt, tt, tt)
insert_node-IsOrdered (node l x r) s o = ground (
  arith,
  insert_node-IsOrdered l s o.2,
  insert_node-IsOrdered r s o.3,
  AllIn-insert_node (λ y. y.id <ℤ x.id) l s,
  AllIn-insert_node (λ y. x.id ≤ℤ y.id) r s,
)

-- A write of `cnt` keeps what does not speak of counts.
pub AllIn-set_cnt {ℓ} :
    (P : Stock → Type ℓ) (v : ℤ)
    → ((s : Stock) → P s → P (record s { cnt = v }))
    → (t : Tree) (a : Address) → AllIn P t
    → AllIn P (set_cnt t a v)
unfolding set_cnt
AllIn-set_cnt P v keep leaf a h = tt
AllIn-set_cnt P v keep (node l s r) [] h = (h.0, keep s h.1, h.2)
AllIn-set_cnt P v keep (node l s r) (left_stock ∷ a) h = (AllIn-set_cnt P v keep l a h.0, h.1, h.2)
AllIn-set_cnt P v keep (node l s r) (right_stock ∷ a) h = (h.0, h.1, AllIn-set_cnt P v keep r a h.2)

pub set_cnt-IsOrdered : (t : Tree) (a : Address) (v : ℤ) → IsOrdered t → IsOrdered (set_cnt t a v)
unfolding set_cnt
set_cnt-IsOrdered leaf a v o = tt
set_cnt-IsOrdered (node l s r) [] v o = o
set_cnt-IsOrdered (node l s r) (left_stock ∷ a) v o =
    (AllIn-set_cnt (λ x. x.id <ℤ s.id) v (λ x h. h) l a o.0, o.1, set_cnt-IsOrdered l a v o.2, o.3)
set_cnt-IsOrdered (node l s r) (right_stock ∷ a) v o =
    (o.0, AllIn-set_cnt (λ x. s.id ≤ℤ x.id) v (λ x h. h) r a o.1, o.2, set_cnt-IsOrdered r a v o.3)
