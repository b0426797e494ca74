-- ===== src/Stock/Update.antt =====
-- prj2/task1/stock_endpoint.c: `update_stock` against a map from IDs to stocks, and its counts.
use system_programing.Common.{
  ◌≡◌, refl, sym, ap, ◌∙◌, subst, arith, true, false, Bool-cases, Option-cases, inl, inr, Option,
  none, some, List, if◌then◌else◌,
}
use mathlib.Core.Path.{ap₂}
use system_programing.Common.Int.{
  ℤ, pos, ltb_ℤ, ◌==ℤ◌, ◌≤ℤ◌, ◌+ℤ◌, eq_of_parts, IsInt, add_int, wrap32-IsInt,
}
use system_programing.Stock.{
  Stock, Tree, Link, get_stock, set_cnt, Status, not_found, not_enough, success, update_stock,
}
use system_programing.Stock.Order.{AllIn, IsOrdered, AllIn-set_cnt, set_cnt-IsOrdered}
use system_programing.Stock.Find.{
  find, named, find-named, is_some, get_stock-find, find_at, find-set_cnt,
}

-- What an update answers, by the stock that the ID names.
abbrev pub outcome : Option Stock → ℤ → Status
outcome none cnt = not_found
outcome (some s) cnt = if ltb_ℤ (add_int s.cnt cnt) (pos 0) then not_enough else success

-- What the ID names afterwards.
abbrev pub settled : Option Stock → ℤ → Option Stock
settled none cnt = none
settled (some s) cnt =
    if ltb_ℤ (add_int s.cnt cnt) (pos 0)
    then some s
    else some (record s { cnt = add_int s.cnt cnt })

-- The three ways in which an update ends.
pub data Updated (root : Tree) (id cnt : ℤ) : Type 0 where
  missing :
      find root id ≡ none → update_stock root id cnt ≡ some (not_found, root) → Updated root id cnt
  short :
      (s : Stock)
      → find root id ≡ some s
      → ltb_ℤ (add_int s.cnt cnt) (pos 0) ≡ true
      → update_stock root id cnt ≡ some (not_enough, root)
      → Updated root id cnt
  done :
      (s : Stock) (a : List Link)
      → find root id ≡ some s
      → get_stock root id ≡ some a
      → ltb_ℤ (add_int s.cnt cnt) (pos 0) ≡ false
      → update_stock root id cnt ≡ some (success, set_cnt root a (add_int s.cnt cnt))
      → Updated root id cnt

some_of_is_some {ℓ} : {A : Type ℓ} (o : Option A) → is_some o ≡ true → (a : A) × (o ≡ some a)
some_of_is_some none h = cc
some_of_is_some (some a) h = (a, refl)

pub update_stock_cases : (root : Tree) (id cnt : ℤ) → Updated root id cnt
unfolding update_stock
update_stock_cases root id cnt = elim (Option-cases (get_stock root id)) [
  | inl e ↦ missing (ground (arith, get_stock-find root id)) (rw (e, update_stock))
  | inr (a, e) ↦
      let (s, f) = some_of_is_some (find root id) (ground (arith, get_stock-find root id)) in
      elim (Bool-cases (ltb_ℤ (add_int s.cnt cnt) (pos 0))) [
        | inl low ↦ short s f low (ground (arith, find_at root id e))
        | inr high ↦ done s a f e high (ground (arith, find_at root id e))
      ]
]

update_stock_found :
    (root : Tree) (id cnt : ℤ)
    → IsOrdered root
    → (root' : Tree) × (update_stock root id cnt ≡ some (outcome (find root id) cnt, root'))
      × IsOrdered root'
      × ((q : ℤ) → find root' q ≡ (if id ==ℤ q then settled (find root id) cnt else find root q))
update_stock_found root id cnt o = go (update_stock_cases root id cnt)
  where
    go :
        Updated root id cnt
        → (root' : Tree) × (update_stock root id cnt ≡ some (outcome (find root id) cnt, root'))
          × IsOrdered root'
          × ((q : ℤ)
              → find root' q ≡ (if id ==ℤ q then settled (find root id) cnt else find root q))
    go (missing f e) = (root, ground arith, o, λ q. ground (arith, eq_of_parts id q))
    go (short s f low e) = (root, ground arith, o, λ q. ground (arith, eq_of_parts id q))
    go (done s a f g high e) = (
      set_cnt root a (add_int s.cnt cnt),
      ground arith,
      set_cnt-IsOrdered root a (add_int s.cnt cnt) o,
      λ q. ground (arith, eq_of_parts id q, find-set_cnt root id a (add_int s.cnt cnt) q g),
    )

-- On an ordered tree an update never follows a bad pointer. Its answer and its effect are those on
-- the map that a search of the whole tree gives: the ID's stock gets the new count if that is no
-- negative `int`, every other ID keeps its stock, and the tree stays ordered.
pub update_stock-total :
    (root : Tree) (id cnt : ℤ)
    → IsOrdered root
    → (root' : Tree) × (update_stock root id cnt ≡ some (outcome (named root id) cnt, root'))
      × IsOrdered root'
      × ((q : ℤ) → named root' q ≡ (if id ==ℤ q then settled (named root id) cnt else named root q))
update_stock-total root id cnt o =
    let (root', e, o', f) = update_stock_found root id cnt o in
    (
      root',
      e ∙ ap (λ x. some (outcome x cnt, root')) (find-named root id o),
      o',
      λ q.
          sym (find-named root' q o')
          ∙ f q
          ∙ ap₂ (λ x y. if id ==ℤ q then settled x cnt else y) (find-named root id o)
              (find-named root q o),
    )

-- The fields hold values of type `int`.
abbrev pub IsTyped : Stock → Type 0
IsTyped s = IsInt s.id × IsInt s.price × IsInt s.cnt

-- What holds of every tree that the server builds, whatever stock.txt says.
pub record IsStored (root : Tree) : Type 0 where
  pub ordered : IsOrdered root
  pub typed : AllIn IsTyped root

-- The same with no negative count.
abbrev pub IsGood : Stock → Type 0
IsGood s = IsInt s.id × IsInt s.price × IsInt s.cnt × (pos 0 ≤ℤ s.cnt)

pub record IsSound (root : Tree) : Type 0 where
  pub ordered : IsOrdered root
  pub good : AllIn IsGood root

add_int-IsInt : (a b : ℤ) → IsInt (add_int a b)
unfolding add_int
add_int-IsInt a b = wrap32-IsInt (a +ℤ b)

-- A predicate that survives the write of the new count survives the update.
pub update_stock_keeps {ℓ} :
    (P : Tree → Type ℓ) (root : Tree) (id cnt : ℤ) {st : Status} {root' : Tree}
    → ((a : List Link) (v : ℤ) → IsInt v → ltb_ℤ v (pos 0) ≡ false → P (set_cnt root a v))
    → P root
    → update_stock root id cnt ≡ some (st, root')
    → P root'
update_stock_keeps P root id cnt {st} {root'} write p h = go (update_stock_cases root id cnt)
  where
    go : Updated root id cnt → P root'
    go (missing f e) = subst P (ground arith) p
    go (short s f low e) = subst P (ground arith) p
    go (done s a f g high e) =
        let v = add_int s.cnt cnt in
        let same : set_cnt root a v ≡ root' = ground arith in
        subst P same (write a v (add_int-IsInt s.cnt cnt) high)

-- Whatever the amount, overflow included, an update keeps the order and the counts not negative.
pub update_stock-IsSound :
    (root : Tree) (id cnt : ℤ) {st : Status} {root' : Tree}
    → IsSound root
    → update_stock root id cnt ≡ some (st, root')
    → IsSound root'
update_stock-IsSound root id cnt sound h =
    update_stock_keeps IsSound root id cnt
      (λ a v i n. record {
        ordered = set_cnt-IsOrdered root a v sound.ordered;
        good = AllIn-set_cnt IsGood v (λ s g. (g.0, g.1, i, ground arith)) root a sound.good;
      })
      sound h

pub update_stock-IsStored :
    (root : Tree) (id cnt : ℤ) {st : Status} {root' : Tree}
    → IsStored root
    → update_stock root id cnt ≡ some (st, root')
    → IsStored root'
update_stock-IsStored root id cnt stored h =
    update_stock_keeps IsStored root id cnt
      (λ a v i n. record {
        ordered = set_cnt-IsOrdered root a v stored.ordered;
        typed = AllIn-set_cnt IsTyped v (λ s g. (g.0, g.1, i)) root a stored.typed;
      })
      stored h
