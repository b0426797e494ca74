-- ===== src/ReadWrite/Invariant.antt =====
-- prj2/task2_new/stock_endpoint.c: the invariant of a node, in every reachable state.
use system_programing.Common.{ℕ, ◌+◌, ◌<◌, ◌≡◌, ◌≢◌, refl, ap, ◌∙◌, arith, false, List, [], ◌∷◌}
use system_programing.Common.Int.{
  ℤ, pos, ltb_ℤ, add_int, add_int_exact, ◌+ℤ◌, ◌≤ℤ◌, IsInt, wrap32-IsInt, +ℤ_parts, eq_of_parts,
}
use system_programing.Common.Threads.{put_at, tally, two-le-tally, tally_zero, put_at_all}
use system_programing.Stock.{success}
use system_programing.ReadWrite.{
  Node, new_node, Pc, outside, write_lock, write_test, write_load, write_store, write_unlock, Move,
  call_read, enter, count, is_first, not_first, lock, entered, read, leave, uncount, is_last,
  not_last, unlock, left, call_write, acquire, refuse, accept, load, store, release, System, step,
  interrupt, handle, start, Reach, here, later,
}
use system_programing.ReadWrite.Counts.{
  passing, waiting, testing, unlocking, at_door, settled, writing, Counts, Move-Counts, moved,
}

-- What a writer knows of the count while it holds `mutex`.
abbrev pub Fresh : ℤ → Pc → Type 0
Fresh cnt (write_lock a) = IsInt a
Fresh cnt (write_test a) = IsInt a
Fresh cnt (write_load a) = IsInt a × (ltb_ℤ (add_int cnt a) (pos 0) ≡ false)
Fresh cnt (write_store a seen) = IsInt a × (ltb_ℤ (add_int cnt a) (pos 0) ≡ false) × (seen ≡ cnt)
Fresh cnt _ = Unit

abbrev pub sum : List ℤ → ℤ
sum [] = pos 0
sum (a ∷ more) = a +ℤ sum more

pub record Inv (threads : ℕ) (cnt : ℤ) (m : Node) (pc : ℕ → Pc) : Type 0 where
  pub counts : Counts threads m pc
  pub typed : IsInt m.cnt
  pub good : pos 0 ≤ℤ m.cnt
  pub total : m.cnt ≡ cnt +ℤ sum m.stored
  pub fresh : (j : ℕ) → j < threads → Fresh m.cnt (pc j)

module _ {threads : ℕ} {cnt : ℤ} {m : Node} {pc : ℕ → Pc} (inv : Inv threads cnt m pc) (i : ℕ)
    (lt : i < threads) where
  open inv use {counts, typed, good, total, fresh}

  -- While a writer is at work no other thread is one.
  alone : (j : ℕ) → j < threads → i ≢ j → writing (pc i) ≡ 1 → writing (pc j) ≡ 0
  alone j lt' ne w = omega (arith, counts.held, two-le-tally writing threads pc i j lt lt' ne)

  -- A thread that does not write knows nothing of the count.
  Fresh-change : (old new : ℤ) (p : Pc) → writing p ≡ 0 → Fresh old p → Fresh new p
  Fresh-change old new (write_lock a) w f = f
  Fresh-change old new (write_test a) w f = absurd (omega arith)
  Fresh-change old new (write_load a) w f = absurd (omega arith)
  Fresh-change old new (write_store a seen) w f = absurd (omega arith)
  Fresh-change old new (write_unlock st) w f = tt
  Fresh-change old new _ w f = tt

  add_int-IsInt : (a b : ℤ) → IsInt (add_int a b)
  add_int-IsInt a b = unfold add_int in wrap32-IsInt (a +ℤ b)

  -- Every step but `store` leaves the count.
  quiet :
      {p p' : Pc} (m' : Node)
      → pc i ≡ p
      → Move m p m' p'
      → m'.cnt ≡ m.cnt
      → m'.stored ≡ m.stored
      → Fresh m.cnt p'
      → Inv threads cnt m' (put_at pc i p')
  quiet {p} {p'} m' e mv same log f = record {
    counts = Move-Counts counts i lt mv (moved counts i lt e p');
    typed = rw same typed;
    good = rw same good;
    total = rw (same, log) total;
    fresh = λ j lt'. rw same (put_at_all (Fresh m.cnt) pc i p' j f (λ _. fresh j lt'));
  }

  store-Inv :
      (a seen : ℤ)
      → pc i ≡ write_store a seen
      → Inv threads cnt
          (record m { cnt = add_int seen a; stored = a ∷ m.stored })
          (put_at pc i (write_unlock success))
  store-Inv a seen e =
      let f : Fresh m.cnt (write_store a seen) = rw e at (fresh i lt) in
      let same : add_int seen a ≡ add_int m.cnt a = ap (λ c. add_int c a) f.2 in
      let exact = add_int_exact m.cnt a typed f.0 good f.1 in
      record {
        counts = Move-Counts counts i lt store (moved counts i lt e (write_unlock success));
        typed = add_int-IsInt seen a;
        good = rw same (ground arith);
        total = same ∙ exact ∙ ap (λ c. c +ℤ a) total ∙ eq_of_parts _ _ (omega (arith, +ℤ_parts));
        fresh = λ j lt'.
            put_at_all (Fresh (add_int seen a)) pc i (write_unlock success) j tt
              (λ ne. Fresh-change m.cnt _ (pc j) (alone j lt' ne (rw e)) (fresh j lt'));
      }

  Move-Inv :
      {p p' : Pc} {m' : Node} → pc i ≡ p → Move m p m' p' → Inv threads cnt m' (put_at pc i p')
  Move-Inv e (acquire h) = quiet _ e (acquire h) refl refl (rw e at (fresh i lt))
  Move-Inv e (refuse h) = quiet _ e (refuse h) refl refl tt
  Move-Inv e (accept h) = quiet _ e (accept h) refl refl (rw e at (fresh i lt), h)
  Move-Inv e load =
      let (a, b) = let f : Fresh m.cnt (write_load _) = rw e at (fresh i lt) in f in
      quiet _ e load refl refl (a, b, refl)
  Move-Inv e (store {amount} {seen}) = store-Inv amount seen e
  Move-Inv e (call_write a h) = quiet _ e (call_write a h) refl refl h
  Move-Inv e call_read = quiet _ e call_read refl refl tt
  Move-Inv e (enter h) = quiet _ e (enter h) refl refl tt
  Move-Inv e count = quiet _ e count refl refl tt
  Move-Inv e (is_first h) = quiet _ e (is_first h) refl refl tt
  Move-Inv e (not_first h) = quiet _ e (not_first h) refl refl tt
  Move-Inv e (lock h) = quiet _ e (lock h) refl refl tt
  Move-Inv e entered = quiet _ e entered refl refl tt
  Move-Inv e read = quiet _ e read refl refl tt
  Move-Inv e (leave h) = quiet _ e (leave h) refl refl tt
  Move-Inv e uncount = quiet _ e uncount refl refl tt
  Move-Inv e (is_last h) = quiet _ e (is_last h) refl refl tt
  Move-Inv e (not_last h) = quiet _ e (not_last h) refl refl tt
  Move-Inv e unlock = quiet _ e unlock refl refl tt
  Move-Inv e left = quiet _ e left refl refl tt
  Move-Inv e release = quiet _ e release refl refl tt

zero_tally :
    (weight : Pc → ℕ) (threads : ℕ) → weight outside ≡ 0 → tally weight threads (λ _. outside) ≡ 0
zero_tally weight threads h = tally_zero weight threads (λ _. outside) (λ i l. h)

start-Inv :
    (threads : ℕ) (cnt : ℤ)
    → IsInt cnt
    → pos 0 ≤ℤ cnt
    → Inv threads cnt (start cnt 0).mem (start cnt 0).pc
unfolding new_node
start-Inv threads cnt t g = record {
  counts = omega (
    arith,
    zero_tally passing threads refl,
    zero_tally waiting threads refl,
    zero_tally testing threads refl,
    zero_tally unlocking threads refl,
    zero_tally at_door threads refl,
    zero_tally settled threads refl,
    zero_tally writing threads refl,
  );
  typed = t;
  good = g;
  total = eq_of_parts _ _ (omega (arith, +ℤ_parts));
  fresh = λ j l. tt;
}

-- A thread that has not been interrupted has no handler.
pub Reach-idle :
    {threads : ℕ} {cnt : ℤ} {stale : ℕ} {s : System}
    → Reach threads cnt stale s
    → (j : ℕ) → s.interrupted j ≡ false
    → s.pc (threads + j) ≡ outside
Reach-idle here j e = refl
Reach-idle (later r (step i lt on mv)) j e = let old = Reach-idle r j e in ground arith
Reach-idle (later {s} r (interrupt i lt on)) j e = let old = Reach-idle r j in ground arith
Reach-idle (later r (handle i lt off ne mv)) j e = let old = Reach-idle r j e in ground arith

-- The invariant holds in every reachable state, if `read_cnt` has been 0 at the start.
pub Reach-Inv :
    {threads : ℕ} {cnt : ℤ} {s : System}
    → IsInt cnt
    → pos 0 ≤ℤ cnt
    → Reach threads cnt 0 s
    → Inv (threads + threads) cnt s.mem s.pc
Reach-Inv {threads} {cnt} t g here = start-Inv (threads + threads) cnt t g
Reach-Inv t g (later r (step i lt on mv)) = Move-Inv (Reach-Inv t g r) i (omega arith) refl mv
Reach-Inv {threads} t g (later r (interrupt i lt on)) =
    Move-Inv (Reach-Inv t g r) (threads + i) (omega arith) (Reach-idle r i on) call_read
Reach-Inv {threads} t g (later r (handle i lt off ne mv)) =
    Move-Inv (Reach-Inv t g r) (threads + i) (omega arith) refl mv
