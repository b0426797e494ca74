-- ===== src/ReadWrite/Safety.antt =====
-- prj2/task2_new/stock_endpoint.c: the readers and writers of a node in its reachable states.
use system_programing.Common.{
  ℕ, true, false, ◌+◌, ◌-◌, ◌<◌, ◌≤◌, ◌≡◌, ◌≢◌, ◌⊎◌, inl, inr, refl, sym, ap, ◌∙◌, arith, dec_lt,
  ℕ_discrete, Bool-cases,
}
use system_programing.Common.Int.{ℤ, pos, ltb_ℤ, add_int, ◌+ℤ◌, ◌≤ℤ◌, IsInt}
use system_programing.Common.Threads.{tally, weight-le-tally, two-le-tally, tally_pos}
use system_programing.ReadWrite.{
  Node, new_node, Pc, outside, read_enter, read_count, read_first, read_lock, read_entered, reading,
  read_leave, read_uncount, read_last, read_unlock, read_left, write_lock, write_test, write_load,
  write_store, write_unlock, Move, call_read, call_write, Step, interrupt, handle, step, here,
  later, enter, count, is_first, not_first, lock, entered, read, leave, uncount, is_last, not_last,
  unlock, left, acquire, refuse, accept, load, store, release, System, Reach,
}
use system_programing.ReadWrite.Counts.{
  passing, waiting, testing, unlocking, at_door, settled, writing,
}
use system_programing.ReadWrite.Invariant.{sum, Inv, Reach-Inv, Reach-idle}

module _ {threads : ℕ} {cnt : ℤ} (s : System) (inv : Inv threads cnt s.mem s.pc) where
  excludes :
      (i j : ℕ)
      → i < threads
      → j < threads
      → writing (s.pc i) ≡ 1
      → (settled (s.pc j) ≡ 0) × (writing (s.pc j) ≡ 1 → i ≡ j)
  excludes i j hi hj w = (
    omega (
      arith,
      inv.counts.held,
      weight-le-tally writing threads s.pc i hi,
      weight-le-tally settled threads s.pc j hj,
    ),
    λ w'. elim (ℕ_discrete i j) [
      | yes e ↦ e
      | no ne ↦
          absurd (omega (arith, inv.counts.held, two-le-tally writing threads s.pc i j hi hj ne))
    ],
  )

  abbrev CanMove : Pc → Type 0
  CanMove p = (m : Node) × (p' : Pc) × Move s.mem p m p'

  -- A thread in the middle of a call can move.
  abbrev SomeMoves : Type 0
  SomeMoves = (i : ℕ) × (i < threads) × (s.pc i ≢ outside) × CanMove (s.pc i)

  one_of :
      (weight : Pc → ℕ)
      → weight outside ≡ 0
      → ((i : ℕ) → i < threads → 0 < weight (s.pc i) → CanMove (s.pc i) ⊎ SomeMoves)
      → 0 < tally weight threads s.pc
      → SomeMoves
  one_of weight out go h =
      let (i, hi, w) = tally_pos weight threads s.pc h in
      elim (go i hi w) [
        | inl moves ↦ (i, hi, λ e. absurd (omega (arith, out, ap weight e)), moves)
        | inr other ↦ other
      ]

  writer_moves : (p : Pc) → 0 < writing p → CanMove p
  writer_moves (write_test a) h = elim (Bool-cases (ltb_ℤ (add_int s.mem.cnt a) (pos 0))) [
    | inl low ↦ (_, _, refuse low)
    | inr high ↦ (_, _, accept high)
  ]
  writer_moves (write_load a) h = (_, _, load)
  writer_moves (write_store a seen) h = (_, _, store)
  writer_moves (write_unlock st) h = (_, _, release)
  writer_moves _ h = absurd (omega arith)

  abbrev inside_door : Pc → ℕ
  inside_door p = passing p + testing p + unlocking p + at_door p

  -- A thread that holds `mutex_read` and does not wait for `mutex`.
  door_moves : (p : Pc) → 0 < inside_door p → CanMove p
  door_moves read_count h = (_, _, count)
  door_moves read_first h = elim (ℕ_discrete s.mem.read_cnt 1) [
    | yes e ↦ (_, _, is_first e)
    | no ne ↦ (_, _, not_first ne)
  ]
  door_moves read_entered h = (_, _, entered)
  door_moves (read_uncount v) h = (_, _, uncount)
  door_moves (read_last v) h = elim (ℕ_discrete s.mem.read_cnt 0) [
    | yes e ↦ (_, _, is_last e)
    | no ne ↦ (_, _, not_last ne)
  ]
  door_moves (read_unlock v) h = (_, _, unlock)
  door_moves (read_left v) h = (_, _, left)
  door_moves _ h = absurd (omega arith)

  writers : 0 < tally writing threads s.pc → SomeMoves
  writers = one_of writing refl (λ i hi w. inl (writer_moves (s.pc i) w))

  door_side :
      (weight : Pc → ℕ)
      → weight outside ≡ 0
      → ((p : Pc) → weight p ≤ inside_door p)
      → 0 < tally weight threads s.pc
      → SomeMoves
  door_side weight out le =
      one_of weight out (λ i hi w. inl (door_moves (s.pc i) (omega (arith, le (s.pc i)))))

  lock_moves : (p : Pc) → 0 < waiting p → 0 < s.mem.mutex → CanMove p
  lock_moves read_lock h free = (_, _, lock free)
  lock_moves _ h free = absurd (omega arith)

  -- The first reader waits for a writer at most.
  first_reader : 0 < tally waiting threads s.pc → SomeMoves
  first_reader h = elim (dec_lt 0 s.mem.mutex) [
    | yes free ↦ one_of waiting refl (λ i hi w. inl (lock_moves (s.pc i) w free)) h
    | no taken ↦
        writers
          (omega (arith, inv.counts.held, inv.counts.door, inv.counts.readers, inv.counts.first h))
  ]

  door_free_or_moves : (0 < s.mem.mutex_read) ⊎ SomeMoves
  door_free_or_moves = elim (dec_lt 0 s.mem.mutex_read) [
    | yes free ↦ inl free
    | no h0 ↦ elim (dec_lt 0 (tally waiting threads s.pc)) [
      | yes h ↦ inr (first_reader h)
      | no h1 ↦ elim (dec_lt 0 (tally passing threads s.pc)) [
        | yes h ↦ inr (door_side passing refl (λ p. omega arith) h)
        | no h2 ↦ elim (dec_lt 0 (tally testing threads s.pc)) [
          | yes h ↦ inr (door_side testing refl (λ p. omega arith) h)
          | no h3 ↦ elim (dec_lt 0 (tally unlocking threads s.pc)) [
            | yes h ↦ inr (door_side unlocking refl (λ p. omega arith) h)
            | no h4 ↦
                inr (door_side at_door refl (λ p. omega arith) (omega (arith, inv.counts.door)))
          ]
        ]
      ]
    ]
  ]

  settled_moves : (p : Pc) → 0 < settled p → CanMove p ⊎ SomeMoves
  settled_moves read_entered h = inl (_, _, entered)
  settled_moves reading h = inl (_, _, read)
  settled_moves (read_leave v) h = elim door_free_or_moves [
    | inl free ↦ inl (_, _, leave free)
    | inr other ↦ inr other
  ]
  settled_moves (read_uncount v) h = inl (_, _, uncount)
  settled_moves _ h = absurd (omega arith)

  lock_free_or_moves : (0 < s.mem.mutex) ⊎ SomeMoves
  lock_free_or_moves = elim (dec_lt 0 s.mem.mutex) [
    | yes free ↦ inl free
    | no h0 ↦ elim (dec_lt 0 (tally writing threads s.pc)) [
      | yes h ↦ inr (writers h)
      | no h1 ↦ elim (dec_lt 0 (tally testing threads s.pc)) [
        | yes h ↦ inr (door_side testing refl (λ p. omega arith) h)
        | no h2 ↦ elim (dec_lt 0 (tally unlocking threads s.pc)) [
          | yes h ↦ inr (door_side unlocking refl (λ p. omega arith) h)
          | no h3 ↦ inr (
              one_of settled refl (λ i hi w. settled_moves (s.pc i) w)
                (omega (arith, inv.counts.held)))
        ]
      ]
    ]
  ]

  -- One step of a thread that is in a call, or of one that it waits for.
  in_call : (p : Pc) → p ≢ outside → CanMove p ⊎ SomeMoves
  in_call outside ne = absurd (ne refl)
  in_call read_enter ne = elim door_free_or_moves [
    | inl free ↦ inl (_, _, enter free)
    | inr other ↦ inr other
  ]
  in_call read_lock ne = elim lock_free_or_moves [
    | inl free ↦ inl (_, _, lock free)
    | inr other ↦ inr other
  ]
  in_call (read_leave v) ne = settled_moves (read_leave v) (omega arith)
  in_call reading ne = inl (_, _, read)
  in_call (write_lock a) ne = elim lock_free_or_moves [
    | inl free ↦ inl (_, _, acquire free)
    | inr other ↦ inr other
  ]
  in_call read_count ne = inl (_, _, count)
  in_call read_entered ne = inl (_, _, entered)
  in_call (read_uncount v) ne = inl (_, _, uncount)
  in_call (read_unlock v) ne = inl (_, _, unlock)
  in_call (read_left v) ne = inl (_, _, left)
  in_call read_first ne = inl (door_moves read_first (omega arith))
  in_call (read_last v) ne = inl (door_moves (read_last v) (omega arith))
  in_call p ne = inl (writer_moves p (omega arith))

  some_moves : (i : ℕ) → i < threads → s.pc i ≢ outside → SomeMoves
  some_moves i hi ne = elim (in_call (s.pc i) ne) [
    | inl moves ↦ (i, hi, ne, moves)
    | inr other ↦ other
  ]

module _ {threads : ℕ} {cnt : ℤ} {s : System} (typed : IsInt cnt) (good : pos 0 ≤ℤ cnt)
    (r : Reach threads cnt 0 s) where
  -- On a node that malloc has given with a `read_cnt` of 0, whose count starts as an `int` that is
  -- not negative: while a thread is at work as a writer,
  -- interrupted or not, no other thread is one, and no thread and no handler reads the node.
  pub writer_excludes :
      (i j : ℕ)
      → i < threads
      → j < threads + threads
      → writing (s.pc i) ≡ 1
      → (settled (s.pc j) ≡ 0) × (writing (s.pc j) ≡ 1 → i ≡ j)
  writer_excludes i j hi hj w = excludes s (Reach-Inv typed good r) i j (omega arith) hj w

  -- On a node that malloc has given with a `read_cnt` of 0, whose count starts as an `int` that is
  -- not negative: the count is never negative, and is the
  -- count at the start and every amount stored since, as integers: no update is lost to another
  -- thread, and none is applied twice.
  pub no_lost_update : (pos 0 ≤ℤ s.mem.cnt) × (s.mem.cnt ≡ cnt +ℤ sum s.mem.stored)
  no_lost_update = let inv = Reach-Inv typed good r in (inv.good, inv.total)

  -- No deadlock, on a node that malloc has given with a `read_cnt` of 0, whose count starts as an
  -- `int` that is not negative, and as long as no thread has
  -- been interrupted: while a call is under way, a thread in the middle of a call can move.
  pub lock_no_deadlock :
      ((j : ℕ) → s.interrupted j ≡ false)
      → (i : ℕ) → i < threads
      → s.pc i ≢ outside
      → (j : ℕ) × (j < threads)
        × (s.pc j ≢ outside)
        × ((m : Node) × (p : Pc) × Move s.mem (s.pc j) m p)
  lock_no_deadlock quiet i hi ne =
      let (j, hj, ne', moves) = some_moves s (Reach-Inv typed good r) i (omega arith) ne in
      elim (dec_lt j threads) [
        | yes h ↦ (j, h, ne', moves)
        | no h ↦
            let k = j - threads in
            let same : threads + k ≡ j = omega arith in
            absurd (ne' (ap s.pc (sym same) ∙ Reach-idle r k (quiet k)))
      ]

-- An interrupted writer stays where it is at every step, so `mutex` is never given back, and by
-- `writer_excludes` its own handler never reads the node.
pub interrupted_writer-stays :
    {threads : ℕ} {s t : System} (i : ℕ)
    → i < threads
    → s.interrupted i ≡ true
    → writing (s.pc i) ≡ 1
    → Step threads s t
    → (t.interrupted i ≡ true) × (t.pc i ≡ s.pc i)
interrupted_writer-stays i hi on w (step j lt off mv) = ground arith
interrupted_writer-stays i hi on w (interrupt j lt off) = ground arith
interrupted_writer-stays i hi on w (handle j lt on' ne mv) = ground arith

-- A positive `read_cnt` at the start lets a reader in beside a writer: for each such number and
-- each count there is a run of two threads in which one reads the node while the other is about to
-- change it.
pub stale_count_races :
    (cnt : ℤ) (stale : ℕ)
    → stale ≢ 0
    → (s : System) × Reach 2 cnt stale s × (s.pc 1 ≡ reading) × (writing (s.pc 0) ≡ 1)
unfolding new_node
stale_count_races cnt stale ne = (
  _,
  later
      (later
        (later
          (later
            (later
              (later (later here (step 0 (omega arith) refl (call_write (pos 1) (omega arith))))
                (step 0 (omega arith) refl (acquire (omega arith))))
              (step 1 (omega arith) refl call_read))
            (step 1 (omega arith) refl (enter (omega arith))))
          (step 1 (omega arith) refl count))
        (step 1 (omega arith) refl (not_first (λ e. ne (omega arith)))))
      (step 1 (omega arith) refl entered),
  refl,
  refl,
)
