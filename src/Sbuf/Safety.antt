-- ===== src/Sbuf/Safety.antt =====
-- prj2/task2_new/stockserver.c: what the bounded buffer promises in every reachable state.
use system_programing.Common.{
  ℕ, ◌+◌, ◌-◌, ◌%◌, ◌^◌, ◌<◌, ◌≤◌, ◌≡◌, refl, ap, ◌∙◌, arith, List, ◌++◌, some, get_elem?, length,
  length-append, get_elem?-some, get_elem?-append_right, prefix_of_get_elem?, dec_lt, ℕ_discrete,
  ◌⊎◌, inl, inr,
}
use system_programing.Common.Threads.{tally, weight-le-tally, two-le-tally, tally_pos}
use system_programing.Sbuf.{
  Shared, next_item, Pc, insert_wait_slot, insert_wait_mutex, insert_write, insert_unlock,
  insert_announce, remove_wait_item, remove_wait_mutex, remove_read, remove_unlock, remove_announce,
  Move, p_slots, insert_p_mutex, write, insert_v_mutex, v_items, p_items, remove_p_mutex, read,
  remove_v_mutex, v_slots, System, Reach,
}
use system_programing.Sbuf.Invariant.{locks, slot_taken, item_taken, Inv, Reach-Inv}

-- Two threads are never between `P(&sp->mutex)` and `V(&sp->mutex)` together.
pub buffer_mutual_exclusion :
    {threads n : ℕ} {s : System}
    → Reach threads n s
    → (i j : ℕ) → i < threads
    → j < threads
    → locks (s.pc i) ≡ 1
    → locks (s.pc j) ≡ 1
    → i ≡ j
buffer_mutual_exclusion {threads} {s} r i j hi hj li lj = elim (ℕ_discrete i j) [
  | yes e ↦ e
  | no ne ↦ absurd (omega (arith, lock, two-le-tally locks threads s.pc i j hi hj ne))
]
  where
    open (Reach-Inv r) use {lock}

-- The items come out in the order in which they went in, none lost and none twice: what has been
-- taken is a prefix of what has been written, and the rest, at most `n` items, lies in `buf`, each in
-- the slot from which a later `sbuf_remove` reads it.
pub fifo :
    {threads n : ℕ} {s : System}
    → Reach threads n s
    → (pending : List ℕ) × (s.mem.written ≡ s.mem.taken ++ pending)
      × (length pending ≤ n)
      × ((k : ℕ)
          → k < length pending
          → get_elem? s.mem.buf ((s.mem.front + 1 + k) % s.mem.n) ≡ get_elem? pending k)
fifo {threads} {n} {s} r =
    let (pending, e) =
      prefix_of_get_elem? s.mem.taken s.mem.written
        (λ k h. inv.fifo k (omega (arith, inv.taken_count))) in
    let count = ap length e ∙ length-append {0} s.mem.taken pending in
    (
      pending,
      e,
      omega (arith, count, inv.slot_count, inv.written_count, inv.taken_count),
      λ k l.
          ap (λ c. get_elem? s.mem.buf ((s.mem.front + 1 + k) % c)) inv.cap
          ∙ inv.contents (s.mem.front + 1 + k) (omega arith)
              (omega (arith, count, inv.written_count, inv.taken_count))
          ∙ ap (λ xs. get_elem? xs (s.mem.front + 1 + k - 1)) e
          ∙ get_elem?-append_right s.mem.taken pending (s.mem.front + 1 + k - 1) k
              (omega (arith, inv.taken_count)),
    )
  where
    inv : Inv threads n s.mem s.pc
    inv = Reach-Inv r

-- A thread about to read finds the oldest item that is still there.
pub read_finds_oldest :
    {threads n : ℕ} {s : System}
    → Reach threads n s
    → (i : ℕ) → i < threads
    → s.pc i ≡ remove_read
    → (item : ℕ) × (next_item s.mem ≡ some item)
      × (get_elem? s.mem.written (length s.mem.taken) ≡ some item)
unfolding next_item
read_finds_oldest {threads} {n} {s} r i hi e =
    let (item, w) =
      get_elem?-some s.mem.written s.mem.front (omega (arith, inv.written_count, left)) in
    (
      item,
      ap (λ c. get_elem? s.mem.buf ((s.mem.front + 1) % c)) inv.cap
          ∙ inv.contents (s.mem.front + 1) (omega arith) (omega (arith, left))
          ∙ ap (get_elem? s.mem.written) (omega arith)
          ∙ w,
      ap (get_elem? s.mem.written) inv.taken_count ∙ w,
    )
  where
    inv : Inv threads n s.mem s.pc
    inv = Reach-Inv r

    left : s.mem.front < s.mem.rear
    left =
        omega (arith, inv.item_count, ap item_taken e, weight-le-tally item_taken threads s.pc i hi)

-- Thread `i` can make a step.
abbrev pub CanMove : System → ℕ → Type 0
CanMove s i = (m : Shared) × (p : Pc) × Move s.mem (s.pc i) m p

abbrev pub SomeMoves : ℕ → System → Type 0
SomeMoves threads s = (i : ℕ) × (i < threads) × CanMove s i

module _ {threads n : ℕ} {s : System} (r : Reach threads n s)
    (below : s.mem.rear + 1 < 2 ^ 31) where
  inv : Inv threads n s.mem s.pc
  inv = Reach-Inv r

  -- The holder of the lock is never blocked.
  holder :
      (i : ℕ) (p : Pc)
      → i < threads
      → s.pc i ≡ p
      → 0 < locks p
      → (m : Shared) × (p' : Pc) × Move s.mem p m p'
  holder i (insert_write x) hi e h = (_, _, write below)
  holder i insert_unlock hi e h = (_, _, insert_v_mutex)
  holder i remove_read hi e h = let (item, f, _) = read_finds_oldest r i hi e in (_, _, read f)
  holder i (remove_unlock x) hi e h = (_, _, remove_v_mutex)
  holder i _ hi e h = absurd (omega arith)

  -- The lock is free, or its holder moves.
  lock_free_or_moves : (0 < s.mem.mutex) ⊎ SomeMoves threads s
  lock_free_or_moves = elim (dec_lt 0 s.mem.mutex) [
    | yes free ↦ inl free
    | no held ↦
        let (i, hi, h) = tally_pos locks threads s.pc (omega (arith, inv.lock)) in
        inr (i, hi, holder i (s.pc i) hi refl h)
  ]

  wait_mutex :
      (i : ℕ) (p : Pc)
      → i < threads
      → s.pc i ≡ p
      → (0 < s.mem.mutex → (m : Shared) × (p' : Pc) × Move s.mem p m p')
      → SomeMoves threads s
  wait_mutex i p hi e go = elim lock_free_or_moves [
    | inl free ↦ (i, hi, rw e (go free))
    | inr moves ↦ moves
  ]

  -- A thread that holds a slot or an item back moves, or waits for a lock whose holder moves.
  under_way :
      (i : ℕ) (p : Pc)
      → i < threads
      → s.pc i ≡ p
      → 0 < slot_taken p + item_taken p
      → SomeMoves threads s
  under_way i (insert_wait_mutex x) hi e h =
      wait_mutex i _ hi e (λ free. (_, _, insert_p_mutex free))
  under_way i (insert_write x) hi e h = (i, hi, rw e (holder i _ hi e (omega arith)))
  under_way i insert_unlock hi e h = (i, hi, rw e (_, _, insert_v_mutex))
  under_way i insert_announce hi e h = (i, hi, rw e (_, _, v_items))
  under_way i remove_wait_mutex hi e h = wait_mutex i _ hi e (λ free. (_, _, remove_p_mutex free))
  under_way i remove_read hi e h = (i, hi, rw e (holder i _ hi e (omega arith)))
  under_way i (remove_unlock x) hi e h = (i, hi, rw e (_, _, remove_v_mutex))
  under_way i (remove_announce x) hi e h = (i, hi, rw e (_, _, v_slots))
  under_way i _ hi e h = absurd (omega arith)

  -- A buffer with a slot never blocks a thread that inserts and a thread that removes for good:
  -- some thread can move, short of the overflow of `rear`.
  pub buffer_no_deadlock :
      (i j item : ℕ)
      → 0 < n
      → i < threads
      → j < threads
      → s.pc i ≡ insert_wait_slot item
      → s.pc j ≡ remove_wait_item
      → SomeMoves threads s
  buffer_no_deadlock i j item pos hi hj ei ej = elim (dec_lt 0 s.mem.slots) [
    | yes free ↦ (i, hi, rw ei (_, _, p_slots free))
    | no full ↦ elim (dec_lt 0 s.mem.items) [
      | yes there ↦ (j, hj, rw ej (_, _, p_items there))
      | no empty ↦ elim (dec_lt 0 (tally slot_taken threads s.pc)) [
        | yes held ↦
            let (k, hk, h) = tally_pos slot_taken threads s.pc held in
            under_way k (s.pc k) hk refl (omega arith)
        | no unheld ↦
            let (k, hk, h) =
              tally_pos item_taken threads s.pc (omega (arith, inv.slot_count, inv.item_count)) in
            under_way k (s.pc k) hk refl (omega arith)
      ]
    ]
  ]
