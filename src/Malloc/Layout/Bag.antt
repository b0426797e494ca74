-- ===== src/Malloc/Layout/Bag.antt =====
-- prj3/prj3-malloc/mm.c: the free blocks and the pointers of the free list, by how often each occurs.
use system_programing.Common.{
  ℕ, zero, suc, ◌+◌, ◌<◌, ◌≡◌, refl, ap, arith, ◌⊎◌, inl, inr, List, [], ◌∷◌, ◌++◌, ◌==◌,
  if◌then◌else◌, All, Bool-cases,
}
use system_programing.Malloc.Layout.{Block, end, last_used, count_free, count, Fine, Spread, used}

pub count-append : (x : ℕ) (xs ys : List ℕ) → count x (xs ++ ys) ≡ count x xs + count x ys
count-append x [] ys = omega arith
count-append x (y ∷ xs) ys = omega (arith, count-append x xs ys)

pub count_free-append :
    (x w : ℕ) (bs cs : List Block)
    → count_free x w (bs ++ cs) ≡ count_free x w bs + count_free x (end w bs) cs
count_free-append x w [] cs = omega arith
count_free-append x w (b ∷ bs) cs = omega (arith, count_free-append x (w + b.0) bs cs)

pub end-append : (w : ℕ) (bs cs : List Block) → end w (bs ++ cs) ≡ end (end w bs) cs
end-append w [] cs = refl
end-append w (b ∷ bs) cs = end-append (w + b.0) bs cs

pub last_used-append :
    (u : ℕ) (bs cs : List Block) → last_used u (bs ++ cs) ≡ last_used (last_used u bs) cs
last_used-append u [] cs = refl
last_used-append u (b ∷ bs) cs = last_used-append b.1 bs cs

pub Fine-append : (bs cs : List Block) → Fine bs → Fine cs → Fine (bs ++ cs)
Fine-append [] cs f g = g
Fine-append (b ∷ bs) cs f g = (f.0, Fine-append bs cs f.1 g)

pub Fine-parts : (bs cs : List Block) → Fine (bs ++ cs) → Fine bs × Fine cs
Fine-parts [] cs f = (tt, f)
Fine-parts (b ∷ bs) cs f = let (g, h) = Fine-parts bs cs f.1 in ((f.0, g), h)

pub Spread-append :
    (u : ℕ) (bs cs : List Block) → Spread u bs → Spread (last_used u bs) cs → Spread u (bs ++ cs)
Spread-append u [] cs f g = g
Spread-append u (b ∷ bs) cs f g = (f.0, Spread-append b.1 bs cs f.1 g)

pub Spread-parts :
    (u : ℕ) (bs cs : List Block) → Spread u (bs ++ cs) → Spread u bs × Spread (last_used u bs) cs
Spread-parts u [] cs f = (tt, f)
Spread-parts u (b ∷ bs) cs f = let (g, h) = Spread-parts b.1 bs cs f.1 in ((f.0, g), h)

-- What occurs in a list splits it.
pub split_at :
    (x : ℕ) (xs : List ℕ) → 0 < count x xs → (ys : List ℕ) × ((zs : List ℕ) × (xs ≡ ys ++ x ∷ zs))
split_at x [] c = absurd (omega arith)
split_at x (y ∷ xs) c = elim (Bool-cases (y == x)) [
  | inl same ↦ let e : y ≡ x = ground arith in ([], (xs, ap (λ z. z ∷ xs) e))
  | inr other ↦
      let (ys, (zs, e)) = split_at x xs (ground arith) in (y ∷ ys, (zs, ap (λ l. y ∷ l) e))
]

pub All-of_count : (P : ℕ → Type 0) (xs : List ℕ) → ((x : ℕ) → 0 < count x xs → P x) → All P xs
All-of_count P [] f = tt
All-of_count P (y ∷ xs) f = (f y (ground arith), All-of_count P xs (λ x c. f x (omega arith)))

-- The blocks around a free one, by its payload.
pub free_at :
    (x w : ℕ) (bs : List Block)
    → 0 < count_free x w bs
    → (pre : List Block) × ((s : ℕ) × ((post : List Block) × ((bs ≡ pre ++ (s, 0) ∷ post)
            × (end w pre + 4 ≡ x))))
free_at x w [] c = absurd (omega arith)
free_at x w ((s, zero) ∷ bs) c = elim (Bool-cases (w + 4 == x)) [
  | inl same ↦ ([], (s, (bs, (refl, ground arith))))
  | inr other ↦
      let (pre, (t, (post, (e, at)))) = free_at x (w + s) bs (ground arith) in
      ((s, 0) ∷ pre, (t, (post, (ap (λ l. (s, 0) ∷ l) e, at))))
]
free_at x w ((s, suc a) ∷ bs) c =
    let (pre, (t, (post, (e, at)))) = free_at x (w + s) bs (ground arith) in
    ((s, suc a) ∷ pre, (t, (post, (ap (λ l. (s, suc a) ∷ l) e, at))))

pub used-append : (w : ℕ) (bs cs : List Block) → used w (bs ++ cs) ≡ used w bs ++ used (end w bs) cs
used-append w [] cs = refl
used-append w ((s, zero) ∷ bs) cs = used-append (w + s) bs cs
used-append w ((s, suc a) ∷ bs) cs = ap (λ l. (w + 4, s) ∷ l) (used-append (w + s) bs cs)

-- The size of the last block, if it is free.
abbrev pub last_free : ℕ → List Block → ℕ
last_free n [] = n
last_free n (b ∷ bs) = last_free (if b.1 == 0 then b.0 else 0) bs

pub last_free-append :
    (n : ℕ) (bs cs : List Block) → last_free n (bs ++ cs) ≡ last_free (last_free n bs) cs
last_free-append n [] cs = refl
last_free-append n (b ∷ bs) cs = last_free-append (if b.1 == 0 then b.0 else 0) bs cs

-- The last block is allocated, or it is a free one.
pub last_cases :
    (bs : List Block)
    → Fine bs
    → ((last_used 1 bs ≡ 1) × (last_free 0 bs ≡ 0))
      ⊎ ((cs : List Block) × ((t : ℕ) × (bs ≡ cs ++ (t, 0) ∷ [])))
last_cases [] f = inl (refl, refl)
last_cases ((t, zero) ∷ []) f = inr ([], (t, refl))
last_cases ((t, suc a) ∷ []) f = inl (omega (arith, f.0), ground arith)
last_cases (b ∷ c ∷ bs) f = elim (last_cases (c ∷ bs) f.1) [
  | inl e ↦ inl e
  | inr (cs, (t, e)) ↦ inr (b ∷ cs, (t, ap (λ l. b ∷ l) e))
]
