-- ===== src/Stock/Coarse.antt =====
-- prj2/task2/stock_endpoint.c: one semaphore for each node, which set_stocks_info holds until it has
-- visited both subtrees. The tree and the replies are as in prj2/task1.
use system_programing.Common.{
  ℕ, zero, suc, ◌+◌, ◌<◌, ◌≡◌, refl, ap, ◌∙◌, length, Option-cases, arith, inl, inr, [], Option,
  none, some, ◌>>=◌, Bool, true, leb, ◌&&◌, if◌then◌else◌,
}
use system_programing.Common.Text.{Bytes}
use system_programing.Stock.Listing.{listing, add_stocks_info-fits}
use system_programing.Stock.{Tree, leaf, node, line, maxbuf, strcat, add_stocks_info}

-- The values of the nodes' semaphores.
pub data Locks : Type 0 where
  no_lock : Locks
  mutexes : (left : Locks) → (mutex : ℕ) → (right : Locks) → Locks

-- `set_stocks_info`; `none` says that it waits at a semaphore that is 0, or overflows the buffer.
unfoldable pub show_locked : Tree → Locks → Bytes → Option (Bytes × Locks)
show_locked leaf locks stock_info = some (stock_info, locks)
show_locked (node l s r) no_lock stock_info = none
show_locked (node l s r) (mutexes a zero b) stock_info = none
show_locked (node l s r) (mutexes a (suc mutex) b) stock_info = do
  node_info ← strcat stock_info (line s)
  (left_info, a') ← show_locked l a node_info
  (info, b') ← show_locked r b left_info
  some (info, mutexes a' (mutex + 1) b')

-- `write_to_file`: the new content of stock.txt, from an empty buffer of MAXBUF bytes.
unfoldable pub write_locked : Tree → Locks → Option (Bytes × Locks)
write_locked root locks = show_locked root locks []

-- There is a semaphore for each node.
abbrev pub Belong : Locks → Tree → Type 0
Belong no_lock leaf = Unit
Belong no_lock (node l s r) = ⊥
Belong (mutexes a mutex b) leaf = ⊥
Belong (mutexes a mutex b) (node l s r) = Belong a l × Belong b r

abbrev pub all_free : Locks → Bool
all_free no_lock = true
all_free (mutexes a mutex b) = leb 1 mutex && (all_free a && all_free b)

show_locked-all_free :
    (root : Tree) (locks : Locks) (stock_info : Bytes)
    → Belong locks root
    → show_locked root locks stock_info ≡ (
        if all_free locks
        then (add_stocks_info root stock_info >>= λ info. some (info, locks))
        else none)
unfolding show_locked add_stocks_info
show_locked-all_free leaf no_lock stock_info f = refl
show_locked-all_free leaf (mutexes a mutex b) stock_info f = absurd f
show_locked-all_free (node l s r) no_lock stock_info f = absurd f
show_locked-all_free (node l s r) (mutexes a zero b) stock_info f = refl
show_locked-all_free (node l s r) (mutexes a (suc mutex) b) stock_info f =
    let back : mutex + 1 ≡ suc mutex = omega arith in
    elim (Option-cases (strcat stock_info (line s))) [
      | inl full ↦ ground arith
      | inr (info, fits) ↦
          let e1 = show_locked-all_free l a info f.0 in
          elim (Option-cases (add_stocks_info l info)) [
            | inl full ↦ ground arith
            | inr (left_info, fits') ↦
                let e2 = show_locked-all_free r b left_info f.1 in
                elim (Option-cases (add_stocks_info r left_info)) [
                  | inl full ↦ ground arith
                  | inr (last, fits'') ↦ ground arith
                ]
          ]
    ]

-- On a tree with its semaphores, whose listing is below MAXBUF bytes, write_to_file has the lines of
-- all stocks for stock.txt and leaves the semaphores as they were, if all are free; if one of them is
-- held, by whatever thread, it waits.
pub write_locked-all_free :
    (root : Tree) (locks : Locks)
    → Belong locks root
    → length (listing root) < maxbuf
    → write_locked root locks ≡ (if all_free locks then some (listing root, locks) else none)
unfolding write_locked
write_locked-all_free root locks f b =
    show_locked-all_free root locks [] f
    ∙ ap (λ o. if all_free locks then (o >>= λ info. some (info, locks)) else none)
        (add_stocks_info-fits root b)
