-- ===== src/Sbuf/Invariant.antt =====
-- prj2/task2_new/stockserver.c: what the semaphores of `sbuf_t` count, and what the buffer holds.
use system_programing.Common.{
  ℕ, ◌+◌, ◌-◌, ◌%◌, ◌^◌, ◌<◌, ◌≤◌, ◌≡◌, ◌≢◌, refl, sym, ap, ◌∙◌, arith, [], ◌∷◌, some, get_elem?,
  set, length, length-set, length-replicate, length-append, get_elem?-set_self, get_elem?-set_ne,
  get_elem?-append_left, get_elem?-append_end, dec_lt,
}
use system_programing.Common.Threads.{put_at, tally, tally-put_at, weight-le-tally, tally_zero}
use system_programing.Sbuf.{
  Shared, sbuf_init, put, next_item, drop_next, Pc, outside, insert_wait_mutex, insert_write,
  insert_unlock, insert_announce, remove_wait_mutex, remove_read, remove_unlock, remove_announce,
  Move, call_insert, p_slots, insert_p_mutex, write, insert_v_mutex, v_items, call_remove, p_items,
  remove_p_mutex, read, remove_v_mutex, v_slots, close, System, step, start, Reach, here, later,
}

-- Between `P(&sp->mutex)` and `V(&sp->mutex)`.
abbrev pub locks : Pc → ℕ
locks (insert_write _) = 1
locks insert_unlock = 1
locks remove_read = 1
locks (remove_unlock _) = 1
locks _ = 0

-- A slot that `slots` does not count, though no item lies in it.
abbrev pub slot_taken : Pc → ℕ
slot_taken (insert_wait_mutex _) = 1
slot_taken (insert_write _) = 1
slot_taken (remove_unlock _) = 1
slot_taken (remove_announce _) = 1
slot_taken _ = 0

-- An item that lies in the buffer, though `items` does not count it.
abbrev pub item_taken : Pc → ℕ
item_taken insert_unlock = 1
item_taken insert_announce = 1
item_taken remove_wait_mutex = 1
item_taken remove_read = 1
item_taken _ = 0

pub record Inv (threads n : ℕ) (m : Shared) (pc : ℕ → Pc) : Type 0 where
  pub cap : m.n ≡ n
  pub size : length m.buf ≡ n
  pub small : m.rear < 2 ^ 31
  pub lock : m.mutex + tally locks threads pc ≡ 1
  pub slot_count : m.slots + tally slot_taken threads pc + m.rear ≡ n + m.front
  pub item_count : m.items + tally item_taken threads pc + m.front ≡ m.rear
  pub written_count : length m.written ≡ m.rear
  pub taken_count : length m.taken ≡ m.front
  pub contents :
      (k : ℕ) → m.front < k → k ≤ m.rear → get_elem? m.buf (k % n) ≡ get_elem? m.written (k - 1)
  pub fifo : (k : ℕ) → k < m.front → get_elem? m.taken k ≡ get_elem? m.written k

-- Two positions less than a whole turn apart lie in different slots.
mod_ne : (k r n : ℕ) → k < r → r < k + n → r % n ≢ k % n
mod_ne k r n h l = grind arith

module _ {threads n : ℕ} {m : Shared} {pc : ℕ → Pc} (inv : Inv threads n m pc) (i : ℕ)
    (lt : i < threads) where
  open inv use {
    cap, size, small, lock, slot_count, item_count, written_count, taken_count, contents, fifo,
  }

  -- The three counts after thread `i` has gone from `p` to `p'`.
  record Counts (p p' : Pc) : Type 0 where
    locks' : tally locks threads (put_at pc i p') + locks p ≡ tally locks threads pc + locks p'
    slots' :
        tally slot_taken threads (put_at pc i p') + slot_taken p
        ≡ tally slot_taken threads pc + slot_taken p'
    items' :
        tally item_taken threads (put_at pc i p') + item_taken p
        ≡ tally item_taken threads pc + item_taken p'
    slot_here : slot_taken p ≤ tally slot_taken threads pc
    item_here : item_taken p ≤ tally item_taken threads pc

  counts : {p : Pc} → pc i ≡ p → (p' : Pc) → Counts p p'
  counts {p} e p' = rw (← e) (record {
    locks' = tally-put_at locks threads pc i p' lt;
    slots' = tally-put_at slot_taken threads pc i p' lt;
    items' = tally-put_at item_taken threads pc i p' lt;
    slot_here = weight-le-tally slot_taken threads pc i lt;
    item_here = weight-le-tally item_taken threads pc i lt;
  })

  -- A step on the semaphores alone.
  semaphores :
      {p p' : Pc} (mutex slots items : ℕ)
      → Counts p p'
      → mutex + locks p' ≡ m.mutex + locks p
      → slots + slot_taken p' ≡ m.slots + slot_taken p
      → items + item_taken p' ≡ m.items + item_taken p
      → Inv threads n (record m { mutex = mutex; slots = slots; items = items }) (put_at pc i p')
  semaphores mutex slots items c a b d = record {
    cap = cap;
    size = size;
    small = small;
    lock = omega arith;
    slot_count = omega arith;
    item_count = omega arith;
    written_count = written_count;
    taken_count = taken_count;
    contents = contents;
    fifo = fifo;
  }

  -- An index into the buffer is in range, where the buffer has a slot at all.
  slot_in_range : (k : ℕ) → 0 < n → k % m.n < length m.buf
  slot_in_range k h = omega arith

  write-Inv :
      (item : ℕ)
      → pc i ≡ insert_write item
      → m.rear + 1 < 2 ^ 31
      → Inv threads n (put m item) (put_at pc i insert_unlock)
  unfolding put
  write-Inv item e below =
      let c = counts e insert_unlock in
      let j : ℕ = (m.rear + 1) % m.n in
      record {
        cap = cap;
        size = length-set m.buf j item ∙ size;
        small = below;
        lock = omega arith;
        slot_count = omega arith;
        item_count = omega arith;
        written_count = length-append m.written (item ∷ []) ∙ omega arith;
        taken_count = taken_count;
        contents = λ k a b. elim (dec_lt k (m.rear + 1)) [
          | yes old ↦
              let apart : j ≢ k % n = rw cap (mod_ne k (m.rear + 1) n old (omega arith)) in
              get_elem?-set_ne m.buf item apart
              ∙ contents k a (omega arith)
              ∙ sym (get_elem?-append_left m.written (item ∷ []) (k - 1) (omega arith))
          | no new ↦
              let last : k ≡ m.rear + 1 = omega arith in
              let there : k % n ≡ j = rw (cap, last) in
              ap (get_elem? (set m.buf j item)) there
              ∙ get_elem?-set_self m.buf j item (slot_in_range (m.rear + 1) (omega arith))
              ∙ sym (get_elem?-append_end m.written item (k - 1) (omega arith))
        ];
        fifo = λ k a. fifo k a ∙ sym (get_elem?-append_left m.written (item ∷ []) k (omega arith));
      }

  read-Inv :
      (item : ℕ)
      → pc i ≡ remove_read
      → next_item m ≡ some item
      → Inv threads n (drop_next m item) (put_at pc i (remove_unlock item))
  unfolding next_item drop_next
  read-Inv item e found =
      let c = counts e (remove_unlock item) in
      record {
        cap = cap;
        size = size;
        small = small;
        lock = omega arith;
        slot_count = omega arith;
        item_count = omega arith;
        written_count = written_count;
        taken_count = length-append m.taken (item ∷ []) ∙ omega arith;
        contents = λ k a b. contents k (omega arith) b;
        fifo = λ k a. elim (dec_lt k m.front) [
          | yes old ↦ get_elem?-append_left m.taken (item ∷ []) k (omega arith) ∙ fifo k old
          | no new ↦
              let last : k ≡ m.front = omega arith in
              let first = contents (m.front + 1) (omega arith) (omega arith) in
              get_elem?-append_end m.taken item k (omega arith)
              ∙ sym found
              ∙ ap (λ c. get_elem? m.buf ((m.front + 1) % c)) cap
              ∙ first
              ∙ ap (get_elem? m.written) (omega arith)
        ];
      }

  Move-Inv :
      {p p' : Pc} {m' : Shared} → pc i ≡ p → Move m p m' p' → Inv threads n m' (put_at pc i p')
  Move-Inv e (call_insert x) = semaphores _ _ _ (counts e _) refl refl refl
  Move-Inv e (p_slots h) = semaphores _ _ _ (counts e _) refl (omega arith) refl
  Move-Inv e (insert_p_mutex h) = semaphores _ _ _ (counts e _) (omega arith) refl refl
  Move-Inv e (write {item} h) = write-Inv item e h
  Move-Inv e insert_v_mutex = semaphores _ _ _ (counts e _) (omega arith) refl refl
  Move-Inv e v_items = semaphores _ _ _ (counts e _) refl refl (omega arith)
  Move-Inv e call_remove = semaphores _ _ _ (counts e _) refl refl refl
  Move-Inv e (p_items h) = semaphores _ _ _ (counts e _) refl refl (omega arith)
  Move-Inv e (remove_p_mutex h) = semaphores _ _ _ (counts e _) (omega arith) refl refl
  Move-Inv e (read {item} h) = read-Inv item e h
  Move-Inv e remove_v_mutex = semaphores _ _ _ (counts e _) (omega arith) refl refl
  Move-Inv e v_slots = semaphores _ _ _ (counts e _) refl (omega arith) refl
  Move-Inv e close = semaphores _ _ _ (counts e _) refl refl refl

start-Inv : (threads n : ℕ) → Inv threads n (start n).mem (start n).pc
unfolding sbuf_init
start-Inv threads n = record {
  cap = refl;
  size = length-replicate n 0;
  small = omega arith;
  lock = omega (arith, tally_zero locks threads (λ _. outside) (λ i l. refl));
  slot_count = omega (arith, tally_zero slot_taken threads (λ _. outside) (λ i l. refl));
  item_count = omega (arith, tally_zero item_taken threads (λ _. outside) (λ i l. refl));
  written_count = refl;
  taken_count = refl;
  contents = λ k a b. absurd (omega arith);
  fifo = λ k a. absurd (omega arith);
}

-- Every step keeps the counts and the contents, so they hold in every reachable state.
pub Reach-Inv : {threads n : ℕ} {s : System} → Reach threads n s → Inv threads n s.mem s.pc
Reach-Inv {threads} {n} here = start-Inv threads n
Reach-Inv (later r (step i lt mv)) = Move-Inv (Reach-Inv r) i lt refl mv
