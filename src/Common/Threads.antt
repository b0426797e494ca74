-- ===== src/Common/Threads.antt =====
-- Threads under an interleaving: a program counter for each, and how many stand at a set of places.
use Prim.Native.Nat.{ℕ, zero, suc, ◌+◌, ◌≤◌, ◌<◌}
use mathlib.Core.Path.{◌≡◌, refl}
use mathlib.Core.Logic.{◌≢◌, inl, inr}
use native.Mathlib.Omega.{arith}
use system_programing.Common.Tests.{◌==◌, if◌then◌else◌, Bool-cases}

module _ {A : Type 0} where
  -- The family with a new value at index `i`.
  abbrev pub put_at : (ℕ → A) → ℕ → A → ℕ → A
  put_at pc i p j = if i == j then p else pc j

  -- The weights of the first `n` threads, added up.
  pub tally : (A → ℕ) → ℕ → (ℕ → A) → ℕ
  tally weight zero pc = 0
  tally weight (suc n) pc = weight (pc n) + tally weight n pc

  tally_beyond :
      (weight : A → ℕ) (n : ℕ) (pc : ℕ → A) (i : ℕ) (p : A)
      → n ≤ i
      → tally weight n (put_at pc i p) ≡ tally weight n pc
  unfolding tally
  tally_beyond weight zero pc i p h = refl
  tally_beyond weight (suc n) pc i p h = ground (arith, tally_beyond weight n pc i p)

  pub tally-put_at :
      (weight : A → ℕ) (n : ℕ) (pc : ℕ → A) (i : ℕ) (p : A)
      → i < n
      → tally weight n (put_at pc i p) + weight (pc i) ≡ tally weight n pc + weight p
  unfolding tally
  tally-put_at weight zero pc i p h = absurd (omega arith)
  tally-put_at weight (suc n) pc i p h =
      ground (arith, tally-put_at weight n pc i p, tally_beyond weight n pc i p)

  pub weight-le-tally :
      (weight : A → ℕ) (n : ℕ) (pc : ℕ → A) (i : ℕ) → i < n → weight (pc i) ≤ tally weight n pc
  unfolding tally
  weight-le-tally weight zero pc i h = absurd (omega arith)
  weight-le-tally weight (suc n) pc i h = ground (arith, weight-le-tally weight n pc i)

  pub two-le-tally :
      (weight : A → ℕ) (n : ℕ) (pc : ℕ → A) (i j : ℕ)
      → i < n
      → j < n
      → i ≢ j
      → weight (pc i) + weight (pc j) ≤ tally weight n pc
  unfolding tally
  two-le-tally weight zero pc i j hi hj ne = absurd (omega arith)
  two-le-tally weight (suc n) pc i j hi hj ne = ground (
    arith,
    two-le-tally weight n pc i j,
    weight-le-tally weight n pc i,
    weight-le-tally weight n pc j,
  )

  pub tally_zero :
      (weight : A → ℕ) (n : ℕ) (pc : ℕ → A)
      → ((i : ℕ) → i < n → weight (pc i) ≡ 0)
      → tally weight n pc ≡ 0
  unfolding tally
  tally_zero weight zero pc h = refl
  tally_zero weight (suc n) pc h =
      omega (arith, h n (omega arith), tally_zero weight n pc (λ i l. h i (omega arith)))

  -- Where the weights add up to something, a thread has a weight.
  pub tally_pos :
      (weight : A → ℕ) (n : ℕ) (pc : ℕ → A)
      → 0 < tally weight n pc
      → (i : ℕ) × (i < n) × (0 < weight (pc i))
  unfolding tally
  tally_pos weight zero pc h = absurd (omega arith)
  tally_pos weight (suc n) pc h = elim (Bool-cases (weight (pc n) == 0)) [
    | inl none ↦ let (i, lt, w) = tally_pos weight n pc (ground arith) in (i, omega arith, w)
    | inr some ↦ (n, omega arith, ground arith)
  ]

  -- What holds of the new counter and of the other threads' holds of all.
  pub put_at_all {ℓ} :
      (P : A → Type ℓ) (pc : ℕ → A) (i : ℕ) (p : A) (j : ℕ)
      → P p
      → (i ≢ j → P (pc j))
      → P (put_at pc i p j)
  put_at_all P pc i p j here there = elim (Bool-cases (i == j)) [
    | inl same ↦ rw same here
    | inr other ↦ rw other (there (ground arith))
  ]
