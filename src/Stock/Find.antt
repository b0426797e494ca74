-- ===== src/Stock/Find.antt =====
-- prj2/task1/stock_endpoint.c: lookups in the search tree, and insertion as lookups see it.
use system_programing.Common.{
  ◌≡◌, refl, arith, Bool, true, false, Option, none, some, [], ◌∷◌, ◌>>=◌, if◌then◌else◌,
  Bool-cases, inl, inr,
}
use system_programing.Common.Int.{ℤ, ltb_ℤ, ◌==ℤ◌, ◌<ℤ◌, ◌≤ℤ◌, eq_of_parts}
use system_programing.Stock.Order.{AllIn, AllIn-map, IsOrdered}
use system_programing.Stock.{
  Stock, Tree, leaf, node, insert_node, left_stock, right_stock, Address, get_stock, stock_at,
  set_cnt,
}

-- The stock that `get_stock` points to.
unfoldable pub find : Tree → ℤ → Option Stock
find t id = get_stock t id >>= stock_at t

pub find-node :
    (l : Tree) (s : Stock) (r : Tree) (q : ℤ)
    → find (node l s r) q
      ≡ (if s.id ==ℤ q then some s else if ltb_ℤ q s.id then find l q else find r q)
unfolding find get_stock stock_at
find-node l s r q = ground arith

-- What a search of the whole tree finds, which does not rely on its order: the first stock of the ID
-- in the order in which the stocks are written.
abbrev pub named : Tree → ℤ → Option Stock
named leaf q = none
named (node l s r) q =
    if s.id ==ℤ q then some s else elim (named l q) [ none ↦ named r q | some x ↦ some x ]

named-none : (t : Tree) (q : ℤ) → AllIn (λ s. (s.id ==ℤ q) ≡ false) t → named t q ≡ none
named-none leaf q a = refl
named-none (node l s r) q a = ground (arith, named-none l q a.0, named-none r q a.2)

-- On an ordered tree the two agree.
pub find-named : (t : Tree) (q : ℤ) → IsOrdered t → find t q ≡ named t q
find-named leaf q o = unfold find get_stock in refl
find-named (node l s r) q o = elim (Bool-cases (s.id ==ℤ q)) [
  | inl here ↦ ground (arith, find-node l s r q)
  | inr other ↦ elim (Bool-cases (ltb_ℤ q s.id)) [
    | inl below ↦
        let no =
          named-none r q (
            AllIn-map (λ x. s.id ≤ℤ x.id) (λ x. (x.id ==ℤ q) ≡ false) (λ x h. ground arith) r
              o.1) in
        ground (arith, find-node l s r q, find-named l q o.2)
    | inr above ↦
        let no =
          named-none l q (
            AllIn-map (λ x. x.id <ℤ s.id) (λ x. (x.id ==ℤ q) ≡ false) (λ x h. ground arith) l
              o.0) in
        ground (arith, find-node l s r q, find-named r q o.3)
  ]
]

-- The first stock inserted under an ID is the one found; no other ID is disturbed.
pub find-insert_node :
    (t : Tree) (s : Stock) (q : ℤ)
    → find (insert_node t s) q
      ≡ elim (find t q) [ none ↦ if s.id ==ℤ q then some s else none | some x ↦ some x ]
unfolding insert_node
find-insert_node leaf s q = unfold find get_stock stock_at in ground arith
find-insert_node (node l x r) s q = ground (
  arith,
  find-node l x r q,
  find-node (insert_node l s) x r q,
  find-node l x (insert_node r s) q,
  find-insert_node l s q,
  find-insert_node r s q,
)

-- A stock is found under its own ID.
pub find-id : (t : Tree) (q : ℤ) {s : Stock} → find t q ≡ some s → s.id ≡ q
find-id leaf q h = unfold find get_stock in cc
find-id (node l x r) q {s} h = ground (
  arith,
  find-node l x r q,
  eq_of_parts x.id q,
  λ (e : find l q ≡ some s). find-id l q e,
  λ (e : find r q ≡ some s). find-id r q e,
)

abbrev pub is_some {ℓ} : {A : Type ℓ} → Option A → Bool
is_some none = false
is_some (some a) = true

-- A pointer that `get_stock` returns leads to a stock.
pub get_stock-find : (t : Tree) (q : ℤ) → is_some (get_stock t q) ≡ is_some (find t q)
unfolding get_stock
get_stock-find leaf q = unfold find in refl
get_stock-find (node l x r) q =
    ground (arith, find-node l x r q, get_stock-find l q, get_stock-find r q)

pub find_at : (t : Tree) (q : ℤ) {a : Address} → get_stock t q ≡ some a → stock_at t a ≡ find t q
unfolding find
find_at t q h = ground arith

abbrev pub with_cnt : ℤ → Option Stock → Option Stock
with_cnt v none = none
with_cnt v (some s) = some (record s { cnt = v })

-- A write through the pointer that `get_stock` returned changes what is found under that ID, and
-- nothing else.
pub find-set_cnt :
    (t : Tree) (id : ℤ) (a : Address) (v : ℤ) (q : ℤ)
    → get_stock t id ≡ some a
    → find (set_cnt t a v) q ≡ (if id ==ℤ q then with_cnt v (find t q) else find t q)
unfolding get_stock set_cnt
find-set_cnt leaf id a v q h = cc
find-set_cnt (node l x r) id [] v q h =
    ground (arith, find-node l x r q, find-node l (record x { cnt = v }) r q, eq_of_parts x.id id)
find-set_cnt (node l x r) id (left_stock ∷ a) v q h = ground (
  arith,
  find-node l x r q,
  find-node (set_cnt l a v) x r q,
  eq_of_parts id q,
  λ (e : get_stock l id ≡ some a). find-set_cnt l id a v q e,
)
find-set_cnt (node l x r) id (right_stock ∷ a) v q h = ground (
  arith,
  find-node l x r q,
  find-node l x (set_cnt r a v) q,
  eq_of_parts id q,
  λ (e : get_stock r id ≡ some a). find-set_cnt r id a v q e,
)
