-- ===== src/Malloc/Fit.antt =====
-- prj3/prj3-malloc/mm.c: what `find_fit_at_list` finds on the free list.
use system_programing.Common.{
  ℕ, zero, suc, ◌≤◌, ◌<◌, ◌≡◌, ◌≢◌, refl, sym, ap, subst, ◌∙◌, arith, ◌⊎◌, inl, inr, List, [], ◌∷◌,
  ◌++◌, append_assoc, append-nil, Option, none, some, All, All-append, All-map, length,
  Option-cases,
}
use system_programing.Malloc.{Heap, erase, block_size}
use system_programing.Malloc.Blocks.{better, fit_loop, find_fit_at_list}
use system_programing.Malloc.FreeList.{Apart, Fits, Links, Ring, Nodes-Apart}
use system_programing.Malloc.FreeList.Erase.{erase-Ring}

-- The choice among the listed blocks, from the best one yet.
abbrev best_of : Heap → ℕ → Option ℕ → List ℕ → Option ℕ
best_of h size temp [] = temp
best_of h size temp (x ∷ xs) = best_of h size (better h size x temp) xs

-- The loop goes once around the list and stops.
fit_loop-best_of :
    (h : Heap) (size fuel cur : ℕ) (temp : Option ℕ) (xs : List ℕ)
    → length xs < fuel
    → All (λ x. x ≢ h.free_head) xs
    → Links h cur xs h.free_head
    → fit_loop h size fuel cur temp ≡ some (best_of h size temp xs)
unfolding fit_loop
fit_loop-best_of h size zero cur temp xs f a l = absurd (omega arith)
fit_loop-best_of h size (suc fuel) cur temp [] f a l = ground arith
fit_loop-best_of h size (suc fuel) cur temp (x ∷ xs) f a l =
    let rest = fit_loop-best_of h size fuel x (better h size x temp) xs (omega arith) a.1 l.1 in
    ground arith

abbrev AtLeast : Heap → ℕ → ℕ → ℕ → Type 0
AtLeast h size t x = size ≤ block_size h x → block_size h t ≤ block_size h x

-- Among the blocks none has the size; or this one has it, and is a smallest of those.
abbrev pub Best : Heap → ℕ → List ℕ → Option ℕ → Type 0
Best h size seen none = All (λ x. block_size h x < size) seen
Best h size seen (some t) =
    ((ys : List ℕ) × ((zs : List ℕ) × (seen ≡ ys ++ t ∷ zs)))
    × (size ≤ block_size h t)
    × All (AtLeast h size t) seen

snoc : (P : ℕ → Type 0) (xs : List ℕ) (x : ℕ) → All P xs → P x → All P (xs ++ x ∷ [])
snoc P xs x a p = All-append P xs (x ∷ []) a (p, tt)

weaken : (P Q : ℕ → Type 0) → ((x : ℕ) → P x → Q x) → (xs : List ℕ) → All P xs → All Q xs
weaken P Q f xs p = All-map P P Q (λ x a b. f x a) xs p p

better_cases :
    (h : Heap) (size x : ℕ) (temp : Option ℕ)
    → ((better h size x temp ≡ some x)
        × (size ≤ block_size h x)
        × ((t : ℕ) → temp ≡ some t → block_size h x < block_size h t))
      ⊎ ((better h size x temp ≡ temp)
          × ((block_size h x < size)
              ⊎ ((t : ℕ) × ((temp ≡ some t) × (block_size h t ≤ block_size h x)))))
unfolding better
better_cases h size x none = ground arith
better_cases h size x (some t) = ground arith

better-Best :
    (h : Heap) (size : ℕ) (seen : List ℕ) (x : ℕ) (temp : Option ℕ)
    → Best h size seen temp
    → Best h size (seen ++ x ∷ []) (better h size x temp)
better-Best h size seen x none b = elim (better_cases h size x none) [
  | inl (e, big, low) ↦ subst (Best h size (seen ++ x ∷ [])) (sym e) (
    (seen, ([], refl)),
    big,
    snoc (AtLeast h size x) seen x
        (weaken (λ y. block_size h y < size) (AtLeast h size x) (λ y p q. omega arith) seen b)
        (λ q. omega arith),
  )
  | inr (e, why) ↦
      subst (Best h size (seen ++ x ∷ [])) (sym e)
        (snoc (λ y. block_size h y < size) seen x b (ground arith))
]
better-Best h size seen x (some t) (split, fits, least) = elim (better_cases h size x (some t)) [
  | inl (e, big, low) ↦ subst (Best h size (seen ++ x ∷ [])) (sym e) (
    (seen, ([], refl)),
    big,
    snoc (AtLeast h size x) seen x
        (weaken (AtLeast h size t) (AtLeast h size x) (λ y p q. omega (arith, low t refl, p q)) seen
          least)
        (λ q. omega arith),
  )
  | inr (e, why) ↦ subst (Best h size (seen ++ x ∷ [])) (sym e) (
    (
      split.0,
      (
        split.1.0 ++ x ∷ [],
        ap (λ zs. zs ++ x ∷ []) split.1.1 ∙ append_assoc split.0 (t ∷ split.1.0) (x ∷ []),
      ),
    ),
    fits,
    snoc (AtLeast h size t) seen x least (ground arith),
  )
]

best_of-Best :
    (h : Heap) (size : ℕ) (seen : List ℕ) (temp : Option ℕ) (xs : List ℕ)
    → Best h size seen temp
    → Best h size (seen ++ xs) (best_of h size temp xs)
best_of-Best h size seen temp [] b = subst (λ all. Best h size all temp) (sym (append-nil seen)) b
best_of-Best h size seen temp (x ∷ xs) b =
    subst (λ all. Best h size all (best_of h size temp (x ∷ xs))) (append_assoc seen (x ∷ []) xs)
      (best_of-Best h size (seen ++ x ∷ []) (better h size x temp) xs
        (better-Best h size seen x temp b))

-- What a search returns: no block and the same heap where all are too small, or a smallest block
-- of those that fit, and a heap whose free list lacks that block alone.
abbrev pub Found : Heap → ℕ → List ℕ → Option ℕ × Heap → Type 0
Found h size xs (none, h') = (h' ≡ h) × Best h size xs none
Found h size xs (some t, h') =
    Best h size xs (some t)
    × (h' ≡ erase h t)
    × ((ys : List ℕ) × ((zs : List ℕ) × ((xs ≡ ys ++ t ∷ zs) × Ring h' (ys ++ zs))))

-- The choice is taken off the list.
taken :
    (h : Heap) (fuel size : ℕ) (xs : List ℕ) (temp : Option ℕ)
    → Ring h xs
    → fit_loop h size fuel h.free_head none ≡ some temp
    → Best h size xs temp
    → (r : Option ℕ × Heap) × ((find_fit_at_list h fuel size ≡ some r) × Found h size xs r)
unfolding find_fit_at_list
taken h fuel size xs none r e b = ((none, h), (ground arith, (refl, b)))
taken h fuel size xs (some t) r e b =
    let (ys, (zs, same)) = b.0 in
    let ring = erase-Ring h ys t zs (subst (Ring h) same r) in
    ((some t, erase h t), (ground arith, (b, refl, (ys, (zs, (same, ring))))))

-- On a heap with a free list, with more rounds than it has blocks, the search ends. It returns no
-- block and leaves the heap as it is, if every free block is smaller than asked; or it returns a
-- smallest of the free blocks that are large enough, and takes that one off the list.
pub find_fit_at_list-Found :
    (h : Heap) (fuel size : ℕ) (xs : List ℕ)
    → Ring h xs
    → length xs < fuel
    → (r : Option ℕ × Heap) × ((find_fit_at_list h fuel size ≡ some r) × Found h size xs r)
find_fit_at_list-Found h fuel size xs r f =
    let ne =
      weaken (λ x. Fits x × Apart x h.free_head) (λ x. x ≢ h.free_head) (λ x p. ground arith) xs
        (Nodes-Apart h.free_head xs h.free_head r.1) in
    let loop = fit_loop-best_of h size fuel h.free_head none xs f ne r.0 in
    taken h fuel size xs (best_of h size none xs) r loop (best_of-Best h size [] none xs tt)

-- Whatever the fuel, a loop that ends has gone once around the list.
fit_loop-ended :
    (h : Heap) (size fuel cur : ℕ) (temp : Option ℕ) (xs : List ℕ) (r : Option ℕ)
    → All (λ x. x ≢ h.free_head) xs
    → Links h cur xs h.free_head
    → fit_loop h size fuel cur temp ≡ some r
    → r ≡ best_of h size temp xs
unfolding fit_loop
fit_loop-ended h size zero cur temp xs r a l e = ground arith
fit_loop-ended h size (suc fuel) cur temp [] r a l e = ground arith
fit_loop-ended h size (suc fuel) cur temp (x ∷ xs) r a l e =
    fit_loop-ended h size fuel x (better h size x temp) xs r a.1 l.1 (ground arith)

-- A search that ends has found what it should, whatever the fuel.
pub find_fit_at_list-ended :
    (h : Heap) (fuel size : ℕ) (xs : List ℕ) (r : Option ℕ × Heap)
    → Ring h xs
    → find_fit_at_list h fuel size ≡ some r
    → Found h size xs r
unfolding find_fit_at_list
find_fit_at_list-ended h fuel size xs r ring e =
    let ne =
      weaken (λ x. Fits x × Apart x h.free_head) (λ x. x ≢ h.free_head) (λ x p. ground arith) xs
        (Nodes-Apart h.free_head xs h.free_head ring.1) in
    elim (Option-cases (fit_loop h size fuel h.free_head none)) [
      | inl running ↦ ground arith
      | inr (t, done) ↦
          let same = fit_loop-ended h size fuel h.free_head none xs t ne ring.0 done in
          let (r', (e', f)) =
            taken h fuel size xs t ring done
              (subst (Best h size xs) (sym same) (best_of-Best h size [] none xs tt)) in
          subst (Found h size xs) (ground arith) f
    ]
