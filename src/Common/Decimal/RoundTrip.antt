-- ===== src/Common/Decimal/RoundTrip.antt =====
-- Numbers through `%d` of printf, and back through `%d` of scanf and `atoi`.
use Prim.Native.Nat.{ℕ, zero, suc, ◌+◌, ◌-◌, ◌*◌, ◌/◌, ◌%◌, ◌<◌}
use mathlib.Core.Path.{◌≡◌, refl, ◌∙◌, ap, subst}
use mathlib.Core.Logic.{◌≢◌, inl, inr}
use mathlib.Core.Bool.{Bool, true, false, ◌||◌}
use mathlib.Core.Option.{some}
use mathlib.Core.List.{[], ◌∷◌, ◌++◌, append_assoc}
use native.Mathlib.Omega.{arith}
use system_programing.Common.Tests.{◌==◌, ltb, Bool-cases}
use system_programing.Common.Lists.{All, All-append}
use system_programing.Common.Text.{Bytes, is_space, is_digit}
use system_programing.Common.Int.{ℤ, pos, negsuc, wrap32, IsInt, wrap32_id, wrap32-IsInt}
use system_programing.Common.Decimal.{
  print_digits, print_nat, print_int, skip_space, read_digits, to_int, read_unsigned, read_signed,
  scan_int, atoi,
}

-- The text does not go on with a digit.
abbrev pub Stops : Bytes → Type 0
Stops [] = Unit
Stops (c ∷ s) = is_digit c ≡ false

abbrev StartsWithDigit : Bytes → Type 0
StartsWithDigit [] = ⊥
StartsWithDigit (c ∷ s) = is_digit c ≡ true

StartsWithDigit-append : (s t : Bytes) → StartsWithDigit s → StartsWithDigit (s ++ t)
StartsWithDigit-append [] t h = absurd h
StartsWithDigit-append (c ∷ s) t h = h

print_digits-StartsWithDigit : (f n : ℕ) → n < f → StartsWithDigit (print_digits f n)
unfolding print_digits
print_digits-StartsWithDigit zero n h = absurd (omega arith)
print_digits-StartsWithDigit (suc f) n h = elim (Bool-cases (ltb n 10)) [
  | inl small ↦ rw small (ground arith)
  | inr big ↦ rw big (
      StartsWithDigit-append (print_digits f (n / 10)) _
        (print_digits-StartsWithDigit f (n / 10) (ground arith)))
]

read_digits-step :
    (c : ℕ) (s : Bytes) (acc : ℕ)
    → is_digit c ≡ true
    → read_digits (c ∷ s) acc ≡ read_digits s (acc * 10 + (c - 48))
unfolding read_digits
read_digits-step c s acc h = rw h

read_digits-stop : (s : Bytes) (acc : ℕ) → Stops s → read_digits s acc ≡ (acc, s)
unfolding read_digits
read_digits-stop [] acc h = refl
read_digits-stop (c ∷ s) acc h = rw h

read_digits-print_digits :
    (f n : ℕ) (rest : Bytes) → n < f → read_digits (print_digits f n ++ rest) 0 ≡ read_digits rest n
unfolding print_digits
read_digits-print_digits zero n rest h = absurd (omega arith)
read_digits-print_digits (suc f) n rest h = elim (Bool-cases (ltb n 10)) [
  | inl small ↦
      rw small
        (read_digits-step (48 + n) rest 0 (ground arith) ∙ ap (read_digits rest) (ground arith))
  | inr big ↦ rw big (
      ap (λ t. read_digits t 0) (append_assoc (print_digits f (n / 10)) ((48 + n % 10) ∷ []) rest)
      ∙ read_digits-print_digits f (n / 10) ((48 + n % 10) ∷ rest) (ground arith)
      ∙ read_digits-step (48 + n % 10) rest (n / 10) (ground arith)
      ∙ ap (read_digits rest) (omega arith))
]

read_unsigned_digits :
    (minus : Bool) (s : Bytes) (n : ℕ) (rest : Bytes)
    → StartsWithDigit s
    → read_digits s 0 ≡ (n, rest)
    → read_unsigned minus s ≡ some (to_int minus n, rest)
unfolding read_unsigned
read_unsigned_digits minus [] n rest h e = absurd h
read_unsigned_digits minus (c ∷ s) n rest h e = rw h (ap (λ p. some (to_int minus p.0, p.1)) e)

read_signed_digits : (s : Bytes) → StartsWithDigit s → read_signed s ≡ read_unsigned false s
unfolding read_signed
read_signed_digits [] h = absurd h
read_signed_digits (c ∷ s) h = ground arith

print_nat-read :
    (minus : Bool) (n : ℕ) (rest : Bytes)
    → Stops rest
    → StartsWithDigit (print_nat n ++ rest)
      × (read_unsigned minus (print_nat n ++ rest) ≡ some (to_int minus n, rest))
unfolding print_nat
print_nat-read minus n rest stop =
    let starts =
      StartsWithDigit-append (print_digits (suc n) n) rest
        (print_digits-StartsWithDigit (suc n) n (omega arith)) in
    (
      starts,
      read_unsigned_digits minus _ n rest starts
          (read_digits-print_digits (suc n) n rest (omega arith) ∙ read_digits-stop rest n stop),
    )

to_int_pos : (n : ℕ) → IsInt (pos n) → to_int false n ≡ pos n
to_int_pos n i = ap (λ m. wrap32 (pos m)) (omega arith) ∙ wrap32_id (pos n) i

to_int_negsuc : (n : ℕ) → IsInt (negsuc n) → to_int true (suc n) ≡ negsuc n
to_int_negsuc n i = ap (λ m. wrap32 (negsuc m)) (omega arith) ∙ wrap32_id (negsuc n) i

read_signed-print_int :
    (v : ℤ) (rest : Bytes)
    → IsInt v
    → Stops rest
    → read_signed (print_int v ++ rest) ≡ some (v, rest)
unfolding print_int
read_signed-print_int (pos n) rest i stop =
    let back = print_nat-read false n rest stop in
    read_signed_digits _ back.0 ∙ back.1 ∙ ap (λ w. some (w, rest)) (to_int_pos n i)
read_signed-print_int (negsuc n) rest i stop =
    unfold read_signed in
    ((print_nat-read true (suc n) rest stop).1 ∙ ap (λ w. some (w, rest)) (to_int_negsuc n i))

-- A number is no white space at its first byte.
abbrev NoSpace : Bytes → Type 0
NoSpace [] = Unit
NoSpace (c ∷ s) = is_space c ≡ false

skip_space-NoSpace : (s : Bytes) → NoSpace s → skip_space s ≡ s
unfolding skip_space
skip_space-NoSpace [] h = refl
skip_space-NoSpace (c ∷ s) h = rw h

NoSpace-digit : (s : Bytes) → StartsWithDigit s → NoSpace s
NoSpace-digit [] h = tt
NoSpace-digit (c ∷ s) h = ground arith

print_int-NoSpace : (v : ℤ) (rest : Bytes) → Stops rest → NoSpace (print_int v ++ rest)
unfolding print_int
print_int-NoSpace (pos n) rest stop = NoSpace-digit _ (print_nat-read false n rest stop).0
print_int-NoSpace (negsuc n) rest stop = refl

-- scanf's `%d` reads a printed `int` back, and stops behind it.
pub scan_int-print_int :
    (v : ℤ) (rest : Bytes) → IsInt v → Stops rest → scan_int (print_int v ++ rest) ≡ some (v, rest)
unfolding scan_int
scan_int-print_int v rest i stop =
    ap read_signed (skip_space-NoSpace _ (print_int-NoSpace v rest stop))
    ∙ read_signed-print_int v rest i stop

-- A blank before the number is passed over.
pub scan_int_space : (c : ℕ) (s : Bytes) → is_space c ≡ true → scan_int (c ∷ s) ≡ scan_int s
unfolding scan_int skip_space
scan_int_space c s h = rw h

pub atoi-print_int : (v : ℤ) (rest : Bytes) → IsInt v → Stops rest → atoi (print_int v ++ rest) ≡ v
unfolding atoi
atoi-print_int v rest i stop = rw (scan_int-print_int v rest i stop, atoi)

-- What `%d` writes: a minus sign or digits, and at least one byte.
abbrev pub is_number_byte : ℕ → Bool
is_number_byte c = is_digit c || c == b'-'

print_digits-digits : (f n : ℕ) → All (λ c. is_number_byte c ≡ true) (print_digits f n)
unfolding print_digits
print_digits-digits zero n = tt
print_digits-digits (suc f) n = elim (Bool-cases (ltb n 10)) [
  | inl small ↦ rw small (ground arith, tt)
  | inr big ↦ rw big (
      All-append (λ c. is_number_byte c ≡ true) (print_digits f (n / 10)) _
        (print_digits-digits f (n / 10)) (ground arith, tt))
]

pub print_int-bytes : (v : ℤ) → All (λ c. is_number_byte c ≡ true) (print_int v)
unfolding print_int print_nat
print_int-bytes (pos n) = print_digits-digits (suc n) n
print_int-bytes (negsuc n) = (refl, print_digits-digits (suc (suc n)) (suc n))

pub print_int-ne-nil : (v : ℤ) → print_int v ≢ []
unfolding print_int
print_int-ne-nil (pos n) e =
    subst StartsWithDigit e
      (unfold print_nat in print_digits-StartsWithDigit (suc n) n (omega arith))
print_int-ne-nil (negsuc n) e = cc

to_int-IsInt : (minus : Bool) (n : ℕ) → IsInt (to_int minus n)
to_int-IsInt false n = wrap32-IsInt _
to_int-IsInt true zero = (omega arith, omega arith)
to_int-IsInt true (suc n) = wrap32-IsInt _

read_unsigned-IsInt :
    (minus : Bool) (s : Bytes) {v : ℤ} {rest : Bytes}
    → read_unsigned minus s ≡ some (v, rest)
    → IsInt v
unfolding read_unsigned
read_unsigned-IsInt minus [] h = absurd (cc)
read_unsigned-IsInt minus (c ∷ s) h = ground (arith, to_int-IsInt minus (read_digits (c ∷ s) 0).0)

-- What scanf reads is an `int`, whatever the text.
pub scan_int-IsInt : (s : Bytes) {v : ℤ} {rest : Bytes} → scan_int s ≡ some (v, rest) → IsInt v
unfolding scan_int
scan_int-IsInt s h = go (skip_space s) h
  where
    go : (s : Bytes) {v : ℤ} {rest : Bytes} → read_signed s ≡ some (v, rest) → IsInt v
    go [] h = absurd (unfold read_signed in cc)
    go (c ∷ s) {v} {rest} h =
        unfold read_signed in
        ground (
          arith,
          λ (e : read_unsigned true s ≡ some (v, rest)). read_unsigned-IsInt true s e,
          λ (e : read_unsigned false s ≡ some (v, rest)). read_unsigned-IsInt false s e,
          λ (e : read_unsigned false (c ∷ s) ≡ some (v, rest)). read_unsigned-IsInt false (c ∷ s) e,
        )
