-- ===== src/Malloc/Session/Cover.antt =====
-- prj3/prj3-malloc/mm.c: the blocks that a client holds and the allocated blocks of the heap.
use system_programing.Common.{ℕ, ◌+◌, ◌≤◌, ◌≡◌, refl, sym, ap, subst, ◌∙◌, List, [], ◌∷◌, ◌++◌}

-- Each held block is an allocated one with 4 bytes more at least, and there are no others.
abbrev pub Cover : List (ℕ × ℕ) → List (ℕ × ℕ) → Type 0
Cover [] us = us ≡ []
Cover (b ∷ held) us =
    (vs : List (ℕ × ℕ)) × ((n : ℕ) × ((ws : List (ℕ × ℕ)) × ((us ≡ vs ++ (b.0, n) ∷ ws)
          × (b.1 + 4 ≤ n)
          × Cover held (vs ++ ws))))

-- An element of a list without `x`, in the list with `x`.
abbrev pub Both : List (ℕ × ℕ) → ℕ × ℕ → List (ℕ × ℕ) → ℕ × ℕ → List (ℕ × ℕ) → Type 0
Both us x c y d =
    (c' : List (ℕ × ℕ)) × ((d' : List (ℕ × ℕ)) × ((e : List (ℕ × ℕ)) × ((f : List (ℕ × ℕ)) × ((us
              ≡ c' ++ y ∷ d')
            × (c' ++ d' ≡ e ++ x ∷ f)
            × (e ++ f ≡ c ++ d)))))

abbrev pub rest_of : List (ℕ × ℕ) → List (ℕ × ℕ)
rest_of [] = []
rest_of (b ∷ bs) = bs

abbrev pub head_of : ℕ × ℕ → List (ℕ × ℕ) → ℕ × ℕ
head_of x [] = x
head_of x (b ∷ bs) = b

pub exchange :
    (a : List (ℕ × ℕ)) (x : ℕ × ℕ) (b c : List (ℕ × ℕ)) (y : ℕ × ℕ) (d : List (ℕ × ℕ))
    → a ++ b ≡ c ++ y ∷ d
    → Both (a ++ x ∷ b) x c y d
exchange [] x b c y d p = (x ∷ c, (d, ([], (c ++ d, (ap (λ l. x ∷ l) p, refl, refl)))))
exchange (z ∷ a) x b [] y d p =
    ([], (a ++ x ∷ b, (a, (b, (ap (λ o. o ∷ a ++ x ∷ b) (ap (head_of z) p), refl, ap rest_of p)))))
exchange (z ∷ a) x b (w ∷ c) y d p =
    let (c', (d', (e, (f, (i, j, k))))) = exchange a x b c y d (ap rest_of p) in
    (
      z ∷ c',
      (
        d',
        (
          z ∷ e,
          (
            f,
            (
              ap (λ l. z ∷ l) i,
              ap (λ l. z ∷ l) j,
              ap (λ l. z ∷ l) k ∙ ap (λ o. o ∷ c ++ d) (ap (head_of z) p),
            ),
          ),
        ),
      ),
    )

-- Any held block can be taken first.
pub Cover-free :
    (us : List (ℕ × ℕ)) (b : ℕ × ℕ) (vs : List (ℕ × ℕ)) (bs : List (ℕ × ℕ))
    → Cover (us ++ b ∷ vs) bs
    → Cover (b ∷ us ++ vs) bs
Cover-free [] b vs bs c = c
Cover-free (u ∷ us) b vs bs (ls, (n, (cs, (e, l, c)))) =
    let (ls', (n', (cs', (e', l', c')))) = Cover-free us b vs (ls ++ cs) c in
    let (c1, (d1, (e1, (f1, (i, j, k))))) = exchange ls (u.0, n) cs ls' (b.0, n') cs' e' in
    (c1, (n', (d1, (e ∙ i, l', (e1, (n, (f1, (j, l, subst (Cover (us ++ vs)) (sym k) c'))))))))
