-- ===== src/Stock/Ledger.antt =====
-- prj2/task1/stock_endpoint.c: sequences of updates, and what they tell the clients.
use system_programing.Common.{
  ◌≡◌, refl, sym, ◌∙◌, Bool-cases, inl, inr, arith, List, [], ◌∷◌, Option, some, if◌then◌else◌,
  ◌>>=◌, All,
}
use system_programing.Common.Int.{
  ℤ, pos, ◌==ℤ◌, ◌+ℤ◌, eq_of_parts, IsInt, add_int, add_int_exact, +ℤ_parts,
}
use system_programing.Stock.{
  Stock, Tree, leaf, node, set_cnt, get_stock, Status, not_found, not_enough, success, update_stock,
}
use system_programing.Stock.Order.{AllIn}
use system_programing.Stock.Find.{find, find-node, find-set_cnt}
use system_programing.Stock.Update.{
  Updated, missing, short, done, update_stock_cases, IsGood, IsSound, update_stock-IsSound,
}

pub find-AllIn {ℓ} :
    (P : Stock → Type ℓ) (t : Tree) (q : ℤ) {s : Stock} → AllIn P t → find t q ≡ some s → P s
find-AllIn P leaf q a h = unfold find get_stock in cc
find-AllIn P (node l x r) q {s} a h = ground (
  arith,
  find-node l x r q,
  λ (e : find l q ≡ some s). find-AllIn P l q a.0 e,
  λ (e : find r q ≡ some s). find-AllIn P r q a.2 e,
)

-- Calls of `update_stock` in order: what each answers, and the tree at the end.
unfoldable pub update_all : Tree → List (ℤ × ℤ) → Option (List Status × Tree)
update_all root [] = some ([], root)
update_all root ((id, cnt) ∷ ops) =
    update_stock root id cnt >>= λ p. update_all p.1 ops >>= λ r. some (p.0 ∷ r.0, r.1)

-- The sum of the amounts for stock `q` that were answered with success.
abbrev pub gained : ℤ → List (ℤ × ℤ) → List Status → ℤ
gained q [] sts = pos 0
gained q (op ∷ ops) [] = pos 0
gained q ((id, cnt) ∷ ops) (success ∷ sts) =
    if id ==ℤ q then cnt +ℤ gained q ops sts else gained q ops sts
gained q (op ∷ ops) (st ∷ sts) = gained q ops sts

zero-+ℤ : (a : ℤ) → a +ℤ pos 0 ≡ a
zero-+ℤ a = eq_of_parts _ _ (omega (arith, +ℤ_parts))

+ℤ-assoc : (a b c : ℤ) → a +ℤ b +ℤ c ≡ a +ℤ (b +ℤ c)
+ℤ-assoc a b c = eq_of_parts _ _ (omega (arith, +ℤ_parts))

-- One update from a sound tree: its answer, and what it does to the stock `q`.
record Step (root : Tree) (id cnt q : ℤ) (s : Stock) : Type 0 where
  st : Status
  root' : Tree
  answer : update_stock root id cnt ≡ some (st, root')
  sound : IsSound root'
  s' : Stock
  found : find root' q ≡ some s'
  same_price : s'.price ≡ s.price
  count :
      (rest : ℤ) (ops : List (ℤ × ℤ)) (sts : List Status)
      → gained q ops sts ≡ rest
      → s'.cnt +ℤ rest ≡ s.cnt +ℤ gained q ((id, cnt) ∷ ops) (st ∷ sts)

step :
    (root : Tree) (id cnt q : ℤ) (s : Stock)
    → IsSound root
    → IsInt cnt
    → find root q ≡ some s
    → Step root id cnt q s
step root id cnt q s sound i f = go (update_stock_cases root id cnt)
  where
    go : Updated root id cnt → Step root id cnt q s
    go (missing g e) = record {
      st = not_found;
      root' = root;
      answer = e;
      sound = sound;
      s' = s;
      found = f;
      same_price = refl;
      count = λ rest ops sts h. ground arith;
    }
    go (short x g low e) = record {
      st = not_enough;
      root' = root;
      answer = e;
      sound = sound;
      s' = s;
      found = f;
      same_price = refl;
      count = λ rest ops sts h. ground arith;
    }
    go (done x a g e high u) = record {
      st = success;
      root' = set_cnt root a (add_int x.cnt cnt);
      answer = u;
      sound = update_stock-IsSound root id cnt sound u;
      s' = if id ==ℤ q then record s { cnt = add_int x.cnt cnt } else s;
      found = ground (arith, find-set_cnt root id a (add_int x.cnt cnt) q e);
      same_price = ground arith;
      count = λ rest ops sts h. elim (Bool-cases (id ==ℤ q)) [
        | inl same ↦
            let here : x ≡ s = ground (arith, eq_of_parts id q) in
            let g' = find-AllIn IsGood root id sound.good g in
            let exact = add_int_exact x.cnt cnt g'.2 i g'.3 high in
            rw same (cc (here, h, exact, +ℤ-assoc x.cnt cnt rest))
        | inr other ↦ rw (other, h)
      ];
    }

-- Over any sequence of updates none follows a bad pointer, and in the end the count of a stock
-- is its count at the start and what the successful updates of it amount to, as integers: no sum
-- has wrapped, and nothing was sold twice. The price is as it was.
pub update_all-gained :
    (ops : List (ℤ × ℤ)) (root : Tree) (q : ℤ) (s : Stock)
    → IsSound root
    → All (λ op. IsInt op.1) ops
    → find root q ≡ some s
    → (sts : List Status) × (root' : Tree) × (s' : Stock) × (update_all root ops
        ≡ some (sts, root'))
      × IsSound root'
      × (find root' q ≡ some s')
      × (s'.cnt ≡ s.cnt +ℤ gained q ops sts)
      × (s'.price ≡ s.price)
unfolding update_all
update_all-gained [] root q s sound i f = ([], root, s, refl, sound, f, sym (zero-+ℤ s.cnt), refl)
update_all-gained ((id, cnt) ∷ ops) root q s sound i f =
    let one = step root id cnt q s sound i.0 f in
    let (sts, root', s', e, sound', f', c, p) =
      update_all-gained ops one.root' q one.s' one.sound i.1 one.found in
    (
      one.st ∷ sts,
      root',
      s',
      rw one.answer (rw e),
      sound',
      f',
      c ∙ one.count (gained q ops sts) ops sts refl,
      p ∙ one.same_price,
    )
