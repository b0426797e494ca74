-- ===== src/Malloc/Session/Safety.antt =====
-- prj3/prj3-malloc/mm.c: the blocks that a client holds do not overlap.
use system_programing.Common.{
  ℕ, zero, suc, ◌+◌, ◌%◌, ◌≤◌, ◌≡◌, refl, subst, arith, inl, inr, List, [], ◌∷◌, ◌++◌, All,
  All-append, All-append_parts, All-map,
}
use system_programing.Malloc.{Heap}
use system_programing.Malloc.Layout.{Block, Fine, end, used}
use system_programing.Malloc.Layout.Frame.{le-end}
use system_programing.Malloc.Layout.Bag.{Fine-parts}
use system_programing.Malloc.Layout.Focus.{first}
use system_programing.Malloc.Session.{Session, Disjoint, Sound}
use system_programing.Malloc.Session.Cover.{Cover, exchange}
use system_programing.Malloc.Session.Kept.{used_at, Session-Holds}

abbrev Between : ℕ → ℕ → ℕ × ℕ → Type 0
Between w e b = (w + 4 ≤ b.0) × (b.0 + b.1 ≤ e + 4) × (b.0 % 8 ≡ (w + 4) % 8)

pub map-All :
    (P Q : ℕ × ℕ → Type 0) → ((b : ℕ × ℕ) → P b → Q b) → (bs : List (ℕ × ℕ)) → All P bs → All Q bs
map-All P Q f bs a = All-map P P Q (λ b p q. f b p) bs a a

used-Between : (w : ℕ) (bs : List Block) → Fine bs → All (Between w (end w bs)) (used w bs)
used-Between w [] f = tt
used-Between w ((s, zero) ∷ bs) f =
    map-All (Between (w + s) (end (w + s) bs)) (Between w (end (w + s) bs))
      (λ b p. omega (arith, p, f.0.0)) (used (w + s) bs) (used-Between (w + s) bs f.1)
used-Between w ((s, suc a) ∷ bs) f = (
  omega (arith, le-end (w + s) bs),
  map-All (Between (w + s) (end (w + s) bs)) (Between w (end (w + s) bs))
      (λ b p. omega (arith, p, f.0.0)) (used (w + s) bs) (used-Between (w + s) bs f.1),
)

-- Any element is disjoint from all others.
abbrev Separate : List (ℕ × ℕ) → Type 0
Separate us =
    (vs : List (ℕ × ℕ)) (b : ℕ × ℕ) (ws : List (ℕ × ℕ))
    → us ≡ vs ++ b ∷ ws
    → All (Disjoint b) (vs ++ ws)

used-Separate : (w : ℕ) (bs : List Block) → Fine bs → Separate (used w bs)
used-Separate w bs f vs (p, n) ws e =
    let (pre, (post, (split, at, before, behind))) = used_at w bs vs p n ws f e in
    let (fine, fine') = Fine-parts pre ((n, 1) ∷ post) (subst Fine split f) in
    subst (λ l. All (Disjoint (p, n)) (l ++ ws)) before
      (subst (λ l. All (Disjoint (p, n)) (used w pre ++ l)) behind
        (All-append (Disjoint (p, n)) (used w pre) (used (end w pre + n) post)
          (map-All (Between w (end w pre)) (Disjoint (p, n)) (λ b q. inr (omega (arith, q)))
            (used w pre) (used-Between w pre fine))
          (map-All (Between (end w pre + n) (end (end w pre + n) post)) (Disjoint (p, n))
            (λ b q. inl (omega (arith, q))) (used (end w pre + n) post)
            (used-Between (end w pre + n) post fine'.1))))

Separate-rest :
    (c : List (ℕ × ℕ)) (y : ℕ × ℕ) (d : List (ℕ × ℕ)) → Separate (c ++ y ∷ d) → Separate (c ++ d)
Separate-rest c y d s a x b e =
    let (c', (d', (e1, (f1, (i, j, k))))) = exchange c y d a x b e in
    let (low, high) =
      All-append_parts (Disjoint x) e1 (y ∷ f1) (subst (All (Disjoint x)) j (s c' x d' i)) in
    subst (All (Disjoint x)) k (All-append (Disjoint x) e1 f1 low high.1)

pub All-rest :
    (P : ℕ × ℕ → Type 0) (c : List (ℕ × ℕ)) (y : ℕ × ℕ) (d : List (ℕ × ℕ))
    → All P (c ++ y ∷ d)
    → P y × All P (c ++ d)
All-rest P c y d a =
    let (low, high) = All-append_parts P c (y ∷ d) a in (high.0, All-append P c d low high.1)

-- What holds of allocated blocks holds of the held ones.
pub Cover-All :
    (P Q : ℕ × ℕ → Type 0)
    → ((p n size : ℕ) → size + 4 ≤ n → P (p, n) → Q (p, size))
    → (held us : List (ℕ × ℕ)) → Cover held us
    → All P us
    → All Q held
Cover-All P Q f [] us c a = tt
Cover-All P Q f ((p, size) ∷ held) us (vs, (n, (ws, (e, le, c)))) a =
    let (here, rest) = All-rest P vs (p, n) ws (subst (All P) e a) in
    (f p n size le here, Cover-All P Q f held (vs ++ ws) c rest)

Cover-Sound :
    (h : Heap) (w e : ℕ) (held us : List (ℕ × ℕ))
    → w ≡ first h
    → w % 8 ≡ 4
    → h.mem_brk ≡ e + 4
    → Cover held us
    → Separate us
    → All (Between w e) us
    → Sound h held
Cover-Sound h w e [] us i j k c s a = tt
Cover-Sound h w e ((p, size) ∷ held) us i j k (vs, (n, (ws, (eq, le, c)))) s a =
    let (here, rest) = All-rest (Between w e) vs (p, n) ws (subst (All (Between w e)) eq a) in
    (
      (
        omega (arith, here),
        omega (arith, here),
        omega (arith, here),
        Cover-All (Disjoint (p, n)) (Disjoint (p, size)) (λ q m z l d. omega (arith, d)) held
            (vs ++ ws) c (s vs (p, n) ws eq),
      ),
      Cover-Sound h w e held (vs ++ ws) i j k c (Separate-rest vs (p, n) ws (subst Separate eq s))
          rest,
    )

-- After any calls of mm_malloc and mm_free from mm_init on, and any writes of words between them,
-- where no request is for 0 bytes or so large that mem_sbrk wraps, and
-- where the client frees only what it holds and writes only within it, every block that it holds
-- starts at a multiple of 8, lies behind the prologue and below the break, and overlaps with no
-- other that it holds.
pub Session-Sound :
    (h : Heap) (held : List (ℕ × ℕ)) (known : ℕ → ℕ) → Session h held known → Sound h held
Session-Sound h held known s =
    let (bs, (xs, (i, c))) = Session-Holds h held known s in
    Cover-Sound h (first h) (end (first h) bs) held (used (first h) bs) refl
      (omega (arith, i.bounds.aligned)) i.bounds.brk c (used-Separate (first h) bs i.fine)
      (used-Between (first h) bs i.fine)
