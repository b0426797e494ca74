-- ===== src/Malloc/FreeList.antt =====
-- prj3/prj3-malloc/mm.c: the circular list of free blocks in the words of the heap.
pub mod Erase
use system_programing.Common.{
  ℕ, zero, suc, ◌+◌, ◌-◌, ◌%◌, ◌^◌, ◌≤◌, ◌<◌, ◌≡◌, ◌≢◌, refl, sym, ◌∙◌, arith, ◌⊎◌, inl, inr, List,
  [], ◌∷◌, ◌++◌, All, All-append, All-append_parts, All-map,
}
use system_programing.Malloc.{Heap, add32, sub32, get, succ, pred, connect, insert_list, erase, put}

-- The links of two blocks lie apart; or it is the same block.
abbrev pub Apart : ℕ → ℕ → Type 0
Apart a b = (a + 8 ≤ b) ⊎ (b + 8 ≤ a)

abbrev pub Kin : ℕ → ℕ → Type 0
Kin a b = (a ≡ b) ⊎ Apart a b

abbrev pub Fits : ℕ → Type 0
Fits a = a + 8 ≤ 2 ^ 32

-- The successors from `p` are the list and then `q`, and the predecessors lead back.
abbrev pub Links : Heap → ℕ → List ℕ → ℕ → Type 0
Links h p [] q = (succ h p ≡ q) × (pred h q ≡ p)
Links h p (x ∷ xs) q = ((succ h p ≡ x) × (pred h x ≡ p)) × Links h x xs q

-- The blocks from `p` to `q` lie apart, where the two ends may be the same.
abbrev pub Nodes : ℕ → List ℕ → ℕ → Type 0
Nodes p [] q = (Fits p × Fits q) × Kin p q
Nodes p (x ∷ xs) q = (Fits p × Kin p q × Apart x q × All (Apart p) (x ∷ xs)) × Nodes x xs q

-- The free list of the heap, in the order in which a search visits it.
abbrev pub Ring : Heap → List ℕ → Type 0
Ring h xs = Links h h.free_head xs h.free_head × Nodes h.free_head xs h.free_head

abbrev pub with_mem : Heap → (ℕ → ℕ) → Heap
with_mem h m = record h { mem = m }

abbrev pub Kept : (ℕ → ℕ) → (ℕ → ℕ) → ℕ → Type 0
Kept m n x = (m x ≡ n x) × (m (add32 x 4) ≡ n (add32 x 4))

-- Links that no write touches.
pub Links-Kept :
    (h : Heap) (m : ℕ → ℕ) (p : ℕ) (xs : List ℕ) (q : ℕ)
    → m (add32 p 4) ≡ h.mem (add32 p 4)
    → All (Kept m h.mem) xs
    → m q ≡ h.mem q
    → Links h p xs q
    → Links (with_mem h m) p xs q
Links-Kept h m p [] q a b c d = ground arith
Links-Kept h m p (x ∷ xs) q a b c d = (ground arith, Links-Kept h m x xs q b.0.1 b.1 c d.1)

pub Nodes-start : (p : ℕ) (xs : List ℕ) (q : ℕ) → Nodes p xs q → Fits p
Nodes-start p [] q n = n.0.0
Nodes-start p (x ∷ xs) q n = n.0.0

pub Nodes-end : (p : ℕ) (xs : List ℕ) (q : ℕ) → Nodes p xs q → Fits q
Nodes-end p [] q n = n.0.1
Nodes-end p (x ∷ xs) q n = Nodes-end x xs q n.1

-- Every block of the list lies apart from the end and in the address space.
pub Nodes-Apart : (p : ℕ) (xs : List ℕ) (q : ℕ) → Nodes p xs q → All (λ x. Fits x × Apart x q) xs
Nodes-Apart p [] q n = tt
Nodes-Apart p (x ∷ xs) q n = ((Nodes-start x xs q n.1, n.0.2), Nodes-Apart x xs q n.1)

-- Another first block.
pub Nodes-from :
    (p new : ℕ) (xs : List ℕ) (q : ℕ)
    → Fits new
    → Kin new q
    → All (Apart new) xs
    → Nodes p xs q
    → Nodes new xs q
Nodes-from p new [] q f k a n = ((f, n.0.1), k)
Nodes-from p new (x ∷ xs) q f k a n = ((f, k, n.0.2, a), n.1)

-- The first block lies apart from the others.
pub Nodes-Apart_start : (p : ℕ) (xs : List ℕ) (q : ℕ) → Nodes p xs q → All (Apart p) xs
Nodes-Apart_start p [] q n = tt
Nodes-Apart_start p (x ∷ xs) q n = n.0.3

pub both : (P Q : ℕ → Type 0) (xs : List ℕ) → All P xs → All Q xs → All (λ x. P x × Q x) xs
both P Q = All-map P Q (λ x. P x × Q x) (λ x a b. (a, b))

-- The block `x` follows the head, and `new` lies apart from both.
abbrev InFront : Heap → ℕ → ℕ → Type 0
InFront h new x =
    Fits new
    × Fits h.free_head
    × Fits x
    × Apart new h.free_head
    × (succ h h.free_head ≡ x)
    × Apart new x
    × Apart x h.free_head

-- `INSERT_LIST` in front of `x` leaves the other blocks' links alone.
insert_list-Kept :
    (h : Heap) (new x y : ℕ)
    → InFront h new x
    → Apart new y × Apart x y
    → Fits y × Apart y h.free_head
    → Kept (insert_list h new h.free_head).mem h.mem y
unfolding insert_list connect put
insert_list-Kept h new x y a b c = ground arith

-- INSERT_LIST of a block that lies in the address space and apart from the head and from all blocks
-- of a circular list, with the head as target, makes it the first block of the list.
pub insert_list-Ring :
    (h : Heap) (new : ℕ) (xs : List ℕ)
    → Fits new
    → Apart new h.free_head
    → All (Apart new) xs
    → Ring h xs
    → Ring (insert_list h new h.free_head) (new ∷ xs)
unfolding insert_list connect put
insert_list-Ring h new [] f a b r = ground arith
insert_list-Ring h new (x ∷ xs) f a b r =
    let n = r.1 in
    let fits : InFront h new x =
      (f, n.0.0, Nodes-start x xs h.free_head n.1, a, r.0.0.0, b.0, n.0.2) in
    let kept =
      All-map (λ y. Apart new y × Apart x y) (λ y. Fits y × Apart y h.free_head)
        (Kept (insert_list h new h.free_head).mem h.mem) (λ y. insert_list-Kept h new x y fits) xs
        (both (Apart new) (Apart x) xs b.1 (Nodes-Apart_start x xs h.free_head n.1))
        (Nodes-Apart x xs h.free_head n.1) in
    (
      (
        ground arith,
        (
          ground arith,
          Links-Kept h (insert_list h new h.free_head).mem x xs h.free_head (ground arith) kept
              (ground arith) r.0.1,
        ),
      ),
      (
        (n.0.0, inl refl, a, (omega arith, n.0.3)),
        Nodes-from h.free_head new (x ∷ xs) h.free_head f (inr a) b n,
      ),
    )
