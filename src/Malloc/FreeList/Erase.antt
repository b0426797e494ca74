-- ===== src/Malloc/FreeList/Erase.antt =====
-- prj3/prj3-malloc/mm.c: `ERASE` on the circular list.
use system_programing.Common.{
  ℕ, ◌≡◌, ◌≢◌, refl, sym, subst, arith, inr, List, [], ◌∷◌, ◌++◌, All, All-append, All-append_parts,
  All-map,
}
use system_programing.Malloc.{Heap, add32, get, succ, pred, erase, put}
use system_programing.Malloc.FreeList.{
  Apart, Kin, Fits, Links, Nodes, Ring, Kept, Links-Kept, Nodes-start, Nodes-end, Nodes-Apart,
  Nodes-Apart_start, both,
}

-- From a block that lies apart from all of the list, the neighbours of `x` lie apart too; the
-- end may be related to it in another way.
far :
    (h : Heap) (a : ℕ) (R : ℕ → Type 0)
    → ((y : ℕ) → Apart a y → R y)
    → (p : ℕ) (xs : List ℕ) (x : ℕ) (ys : List ℕ) (q : ℕ) → All (Apart a) (p ∷ xs ++ x ∷ ys)
    → R q
    → Links h p (xs ++ x ∷ ys) q
    → Apart a (pred h x) × R (succ h x)
far h a R i p [] x [] q s k l = (subst (λ c. Apart a c) (sym l.0.1) s.0, subst R (sym l.1.0) k)
far h a R i p [] x (y ∷ ys) q s k l =
    (subst (λ c. Apart a c) (sym l.0.1) s.0, subst R (sym l.1.0.0) (i y s.1.1.0))
far h a R i p (w ∷ xs) x ys q s k l = far h a R i w xs x ys q s.1 k l.1

far_or_end :
    (h : Heap) (a p : ℕ) (xs : List ℕ) (x : ℕ) (ys : List ℕ) (q : ℕ)
    → All (Apart a) (p ∷ xs ++ x ∷ ys)
    → Kin a q
    → Links h p (xs ++ x ∷ ys) q
    → Apart a (pred h x) × Kin a (succ h x)
far_or_end h a = far h a (Kin a) (λ y. inr)

abbrev Around : Heap → ℕ → ℕ → Type 0
Around h p x =
    Fits (pred h x)
    × Fits (succ h x)
    × Fits x
    × Apart (pred h x) x
    × Apart x (succ h x)
    × Kin p (pred h x)

around :
    (h : Heap) (p : ℕ) (xs : List ℕ) (x : ℕ) (ys : List ℕ) (q : ℕ)
    → Nodes p (xs ++ x ∷ ys) q
    → Links h p (xs ++ x ∷ ys) q
    → Around h p x
around h p [] x [] q n l = ground arith
around h p [] x (y ∷ ys) q n l = let f = Nodes-start y ys q n.1.1 in ground arith
around h p (w ∷ xs) x ys q n l =
    let r = around h w xs x ys q n.1 l.1 in
    let f = far_or_end h p w xs x ys q n.0.3 n.0.1 l.1 in (r.0, r.1, r.2, r.3, r.4, inr f.0)

-- A word that is no link of a neighbour of `x`.
erase-get :
    (h : Heap) (p x r : ℕ)
    → Around h p x
    → r ≢ add32 (pred h x) 4
    → r ≢ succ h x
    → get (erase h x) r ≡ get h r
unfolding erase put
erase-get h p x r a d e = ground arith

-- The neighbours of `x` are linked with each other.
erase-joins :
    (h : Heap) (p x : ℕ)
    → Around h p x
    → Kin (pred h x) (succ h x)
    → Fits h.free_head
    → (succ (erase h x) (pred h x) ≡ succ h x) × (pred (erase h x) (succ h x) ≡ pred h x)
unfolding erase put
erase-joins h p x a d f = ground arith

-- The blocks behind `x` keep their links.
after :
    (h : Heap) (p x y : ℕ) (ys : List ℕ) (q : ℕ)
    → Around h p x
    → pred h x ≡ p
    → succ h x ≡ y
    → All (Apart p) (y ∷ ys)
    → Kin p q
    → Nodes y ys q
    → Apart y q
    → Links h y ys q
    → Links (erase h x) y ys q
unfolding erase put
after h p x y ys q a e f s k n d l =
    let start = Nodes-start y ys q n in
    let end = Nodes-end y ys q n in
    let kept =
      All-map (λ z. Apart p z × Apart y z) (λ z. Fits z × Apart z q) (Kept (erase h x).mem h.mem)
        (λ z b c. (
          erase-get h p x z a (ground arith) (ground arith),
          erase-get h p x (add32 z 4) a (ground arith) (ground arith),
        ))
        ys (both (Apart p) (Apart y) ys s.1 (Nodes-Apart_start y ys q n)) (Nodes-Apart y ys q n) in
    Links-Kept h (erase h x).mem y ys q
      (erase-get h p x (add32 y 4) a (ground arith) (ground arith)) kept
      (erase-get h p x q a (ground arith) (ground arith)) l

-- A block before `x` lies apart from the one behind `x`.
Apart-next :
    (h : Heap) (w : ℕ) (xs : List ℕ) (x : ℕ) (ys : List ℕ) (q : ℕ)
    → Nodes w (xs ++ x ∷ ys) q
    → Apart w q
    → Links h w (xs ++ x ∷ ys) q
    → Apart w (succ h x)
Apart-next h w [] x [] q n d l = subst (λ c. Apart w c) (sym l.1.0) d
Apart-next h w [] x (y ∷ ys) q n d l = subst (λ c. Apart w c) (sym l.1.0.0) n.0.3.1.0
Apart-next h w (v ∷ xs) x ys q n d l = (far h w (Apart w) (λ y e. e) v xs x ys q n.0.3 d l.1).1

erase-head : (h : Heap) (x : ℕ) → (erase h x).free_head ≡ h.free_head
unfolding erase put
erase-head h x = refl

erase-Links :
    (h : Heap) (p : ℕ) (xs : List ℕ) (x : ℕ) (ys : List ℕ) (q : ℕ)
    → Fits h.free_head
    → Nodes p (xs ++ x ∷ ys) q
    → Links h p (xs ++ x ∷ ys) q
    → Links (erase h x) p (xs ++ ys) q
erase-Links h p [] x [] q f n l =
    let a = around h p [] x [] q n l in let j = erase-joins h p x a (ground arith) f in ground arith
erase-Links h p [] x (y ∷ ys) q f n l =
    let a = around h p [] x (y ∷ ys) q n l in
    let j = erase-joins h p x a (ground arith) f in
    (ground arith, after h p x y ys q a l.0.1 l.1.0.0 n.0.3.1 n.0.1 n.1.1 n.1.0.2 l.1.1)
erase-Links h p (w ∷ xs) x ys q f n l =
    let a = around h w xs x ys q n.1 l.1 in
    let b = far_or_end h p w xs x ys q n.0.3 n.0.1 l.1 in
    let c = Apart-next h w xs x ys q n.1 n.0.2 l.1 in
    let before = erase-get h w x (add32 p 4) a (ground arith) (ground arith) in
    let back = erase-get h w x w a (ground arith) (ground arith) in
    let head = erase-head h x in ((ground arith, ground arith), erase-Links h w xs x ys q f n.1 l.1)

Nodes-erase :
    (p : ℕ) (xs : List ℕ) (x : ℕ) (ys : List ℕ) (q : ℕ)
    → Nodes p (xs ++ x ∷ ys) q
    → Nodes p (xs ++ ys) q
Nodes-erase p [] x [] q n = ((n.0.0, n.1.0.1), n.0.1)
Nodes-erase p [] x (y ∷ ys) q n = ((n.0.0, n.0.1, n.1.0.2, n.0.3.1), n.1.1)
Nodes-erase p (w ∷ xs) x ys q n =
    let parts = All-append_parts (Apart p) xs (x ∷ ys) n.0.3.1 in
    (
      (n.0.0, n.0.1, n.0.2, (n.0.3.0, All-append (Apart p) xs ys parts.0 parts.1.1)),
      Nodes-erase w xs x ys q n.1,
    )

-- ERASE of any block of the circular free list leaves a circular list of the others, in their order.
pub erase-Ring :
    (h : Heap) (xs : List ℕ) (x : ℕ) (ys : List ℕ)
    → Ring h (xs ++ x ∷ ys)
    → Ring (erase h x) (xs ++ ys)
erase-Ring h xs x ys r =
    subst (λ f. Links (erase h x) f (xs ++ ys) f × Nodes f (xs ++ ys) f) (sym (erase-head h x))
      (
        erase-Links h h.free_head xs x ys h.free_head
            (Nodes-start h.free_head (xs ++ x ∷ ys) h.free_head r.1) r.1 r.0,
        Nodes-erase h.free_head xs x ys h.free_head r.1,
      )

between :
    (h : Heap) (p : ℕ) (xs : List ℕ) (x : ℕ) (ys : List ℕ) (q : ℕ)
    → Nodes p (xs ++ x ∷ ys) q
    → Links h p (xs ++ x ∷ ys) q
    → (o : ℕ) × Around h o x
between h p [] x ys q n l = (p, around h p [] x ys q n l)
between h p (w ∷ xs) x ys q n l = between h w xs x ys q n.1 l.1

-- The words that ERASE of a listed block leaves alone.
pub erase-same :
    (h : Heap) (xs : List ℕ) (x : ℕ) (ys : List ℕ) (r : ℕ)
    → Ring h (xs ++ x ∷ ys)
    → r ≢ add32 (pred h x) 4
    → r ≢ succ h x
    → get (erase h x) r ≡ get h r
erase-same h xs x ys r ring a b =
    let (o, k) = between h h.free_head xs x ys h.free_head ring.1 ring.0 in erase-get h o x r k a b
