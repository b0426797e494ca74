-- ===== src/Stock/File/Restore.antt =====
-- prj2/task1/stock_endpoint.c: a tree on its way through stock.txt and back.
use system_programing.Common.{
  ℕ, zero, suc, ◌+◌, ◌<◌, ◌≤◌, true, false, List, [], ◌∷◌, ◌++◌, none, some, ◌≡◌, refl, ap, ◌∙◌,
  ◌≢◌, arith, Bool-cases, Option-cases, subst, inl, inr, length, length-append, All, append_assoc,
}
use mathlib.Core.Path.{ap₂}
use system_programing.Common.Int.{ltb_ℤ, ◌<ℤ◌, ◌≤ℤ◌}
use system_programing.Common.Text.{Bytes, newline, space, is_digit, is_space}
use system_programing.Common.Decimal.{print_int, scan_int, skip_space, read_signed, read_unsigned}
use system_programing.Common.Decimal.RoundTrip.{scan_int-print_int, scan_int_space, scan_int-IsInt}
use system_programing.Stock.{Stock, Tree, leaf, node, insert_node, line, maxbuf, set_stocks_info}
use system_programing.Stock.Order.{
  IsOrdered, preorder, All-preorder, AllIn-insert_node, insert_node-IsOrdered,
}
use system_programing.Stock.Listing.{text, listing, add_stocks_info-fits}
use system_programing.Stock.Update.{IsTyped, IsStored}
use system_programing.Stock.File.{
  Loaded, indeterminate, overrun, list_loaded, at_end, unread, loaded, running, load_loop,
  init_stock, write_to_file,
}

-- Insertion of stocks one after another.
abbrev insert_all : Tree → List Stock → Tree
insert_all t [] = t
insert_all t (s ∷ ss) = insert_all (insert_node t s) ss

insert_all-append :
    (t : Tree) (xs ys : List Stock) → insert_all t (xs ++ ys) ≡ insert_all (insert_all t xs) ys
insert_all-append t [] ys = refl
insert_all-append t (x ∷ xs) ys = insert_all-append (insert_node t x) xs ys

insert_all-left :
    (l : Tree) (s : Stock) (r : Tree) (xs : List Stock)
    → All (λ x. x.id <ℤ s.id) xs
    → insert_all (node l s r) xs ≡ node (insert_all l xs) s r
unfolding insert_node
insert_all-left l s r [] h = refl
insert_all-left l s r (x ∷ xs) h =
    let below : ltb_ℤ x.id s.id ≡ true = ground arith in
    rw below (insert_all-left (insert_node l x) s r xs h.1)

insert_all-right :
    (l : Tree) (s : Stock) (r : Tree) (xs : List Stock)
    → All (λ x. s.id ≤ℤ x.id) xs
    → insert_all (node l s r) xs ≡ node l s (insert_all r xs)
unfolding insert_node
insert_all-right l s r [] h = refl
insert_all-right l s r (x ∷ xs) h =
    let above : ltb_ℤ x.id s.id ≡ false = ground arith in
    rw above (insert_all-right l s (insert_node r x) xs h.1)

-- Inserted in the order in which they are written, the stocks of an ordered tree rebuild it.
insert_all-preorder : (t : Tree) → IsOrdered t → insert_all leaf (preorder t) ≡ t
unfolding insert_node
insert_all-preorder leaf o = refl
insert_all-preorder (node l s r) o =
    insert_all-append (node leaf s leaf) (preorder l) (preorder r)
    ∙ ap (λ t. insert_all t (preorder r))
        (insert_all-left leaf s leaf (preorder l) (All-preorder (λ x. x.id <ℤ s.id) l o.0))
    ∙ insert_all-right (insert_all leaf (preorder l)) s leaf (preorder r)
        (All-preorder (λ x. s.id ≤ℤ x.id) r o.1)
    ∙ ap₂ (λ a b. node a s b) (insert_all-preorder l o.2) (insert_all-preorder r o.3)

line-append :
    (s : Stock) (rest : Bytes)
    → line s ++ rest
      ≡ print_int s.id
        ++ (space ∷ (print_int s.cnt ++ (space ∷ (print_int s.price ++ (newline ∷ rest)))))
unfolding line
line-append s rest = simp append_assoc

length-line : (s : Stock) → 0 < length (line s)
unfolding line
length-line s = omega (
  arith,
  length-append {0} (print_int s.id)
      (space ∷ (print_int s.cnt ++ (space ∷ (print_int s.price ++ newline ∷ [])))),
)

-- One round reads one line, and stops before its end.
load_loop-line :
    (f : ℕ) (s : Stock) (rest : Bytes) (root : Tree)
    → IsTyped s
    → load_loop (suc f) (line s ++ rest) root ≡ load_loop f (newline ∷ rest) (insert_node root s)
unfolding load_loop
load_loop-line f s rest root g =
    let r3 : Bytes = newline ∷ rest in
    let r2 : Bytes = space ∷ (print_int s.price ++ r3) in
    let r1 : Bytes = space ∷ (print_int s.cnt ++ r2) in
    let e1 : scan_int (line s ++ rest) ≡ some (s.id, r1) =
      ap scan_int (line-append s rest) ∙ scan_int-print_int s.id r1 g.0 refl in
    let e2 : scan_int r1 ≡ some (s.cnt, r2) =
      scan_int_space space (print_int s.cnt ++ r2) refl ∙ scan_int-print_int s.cnt r2 g.2 refl in
    let e3 : scan_int r2 ≡ some (s.price, r3) =
      scan_int_space space (print_int s.price ++ r3) refl
      ∙ scan_int-print_int s.price r3 g.1 refl in
    ground (arith, e1, e2, e3)

-- The end of a line is white space before the next.
load_loop-newline :
    (f : ℕ) (s : Bytes) (root : Tree) → load_loop f (newline ∷ s) root ≡ load_loop f s root
unfolding load_loop
load_loop-newline zero s root = refl
load_loop-newline (suc f) s root =
    let e : unread (newline ∷ s) ≡ unread s = unfold unread skip_space in refl in
    ground (arith, e, scan_int_space newline s refl)

load_loop-text :
    (ss : List Stock) (f : ℕ) (root : Tree)
    → All IsTyped ss
    → length ss < f
    → load_loop f (text ss) root ≡ loaded (insert_all root ss)
load_loop-text ss zero root g h = absurd (omega arith)
load_loop-text [] (suc f) root g h = unfold load_loop scan_int skip_space unread read_signed in refl
load_loop-text (s ∷ ss) (suc f) root g h =
    load_loop-line f s (text ss) root g.0
    ∙ load_loop-newline f (text ss) (insert_node root s)
    ∙ load_loop-text ss f (insert_node root s) g.1 (omega arith)

length-text : (ss : List Stock) → length ss ≤ length (text ss)
length-text [] = omega arith
length-text (s ∷ ss) =
    omega (arith, length-append {0} (line s) (text ss), length-text ss, length-line s)

list_loaded-fits :
    (root : Tree) → length (listing root) < maxbuf → list_loaded (loaded root) ≡ loaded root
unfolding list_loaded set_stocks_info
list_loaded-fits root b = let e = add_stocks_info-fits root b in ground arith

-- For an ordered tree with fields of type `int`, whose listing is below MAXBUF bytes, write_to_file
-- writes a text of which init_stock makes the tree as it was, node for node.
pub init_stock-write_to_file :
    (root : Tree) (stock_info : Bytes)
    → IsStored root
    → length (listing root) < maxbuf
    → (t : Bytes) × (write_to_file root stock_info ≡ some t) × (init_stock t ≡ loaded root)
unfolding init_stock write_to_file set_stocks_info
init_stock-write_to_file root stock_info stored b = (
  listing root,
  add_stocks_info-fits root b,
  ap list_loaded (
        load_loop-text (preorder root) _ leaf (All-preorder IsTyped root stored.typed)
          (omega (arith, length-text (preorder root)))
        ∙ ap loaded (insert_all-preorder root stored.ordered))
      ∙ list_loaded-fits root b,
)

insert_node-IsStored :
    (root : Tree) (s : Stock) → IsStored root → IsTyped s → IsStored (insert_node root s)
insert_node-IsStored root s stored t = record {
  ordered = insert_node-IsOrdered root s stored.ordered;
  typed = AllIn-insert_node IsTyped root s t stored.typed;
}

load_loop-IsStored :
    (f : ℕ) (s : Bytes) (root : Tree) {root' : Tree}
    → IsStored root
    → load_loop f s root ≡ loaded root'
    → IsStored root'
unfolding load_loop
load_loop-IsStored zero s root stored h = absurd (cc)
load_loop-IsStored (suc f) s root {root'} stored h = elim (Option-cases (scan_int s)) [
  | inl e ↦ elim (Bool-cases (at_end (unread s))) [
    | inl z ↦ let same : root ≡ root' = ground arith in subst IsStored same stored
    | inr z ↦ load_loop-IsStored f (unread s) root stored (ground arith)
  ]
  | inr ((id, s1), e1) ↦ elim (Option-cases (scan_int s1)) [
    | inl e2 ↦ absurd (ground arith)
    | inr ((cnt, s2), e2) ↦ elim (Option-cases (scan_int s2)) [
      | inl e3 ↦ absurd (ground arith)
      | inr ((price, s3), e3) ↦
          let new : Stock = record { id = id; price = price; cnt = cnt } in
          let stored' =
            insert_node-IsStored root new stored
              (scan_int-IsInt s e1, scan_int-IsInt s2 e3, scan_int-IsInt s1 e2) in
          elim (Bool-cases (at_end s3)) [
            | inl z ↦
                let same : insert_node root new ≡ root' = ground arith in
                subst IsStored same stored'
            | inr z ↦ load_loop-IsStored f s3 (insert_node root new) stored' (ground arith)
          ]
    ]
  ]
]

list_loaded-IsStored :
    (l : Loaded) {root : Tree}
    → ((t : Tree) → l ≡ loaded t → IsStored t)
    → list_loaded l ≡ loaded root
    → IsStored root
unfolding list_loaded
list_loaded-IsStored (loaded t) {root} stored h = elim (Option-cases (set_stocks_info t [])) [
  | inl full ↦ absurd (ground arith)
  | inr (info, fits) ↦ stored root (ground arith)
]
list_loaded-IsStored indeterminate {root} stored h = stored root h
list_loaded-IsStored running {root} stored h = stored root h
list_loaded-IsStored overrun {root} stored h = stored root h

-- Any text: the tree that is read is ordered.
pub init_stock-IsStored :
    (content : Bytes) {root : Tree} → init_stock content ≡ loaded root → IsStored root
unfolding init_stock
init_stock-IsStored content h =
    list_loaded-IsStored (load_loop (length content + 1) content leaf)
      (λ root e. load_loop-IsStored _ content leaf (record { ordered = tt; typed = tt }) e) h

-- No number, no end: where the text starts with a byte that no `%d` reads, `feof` is never met.
pub load_loop-spins :
    (fuel c : ℕ) (s : Bytes) (root : Tree)
    → is_space c ≡ false
    → is_digit c ≡ false
    → c ≢ b'-'
    → c ≢ b'+'
    → load_loop fuel (c ∷ s) root ≡ running
unfolding load_loop
load_loop-spins zero c s root sp dg m p = refl
load_loop-spins (suc fuel) c s root sp dg m p =
    let e1 : scan_int (c ∷ s) ≡ none =
      unfold scan_int skip_space read_signed read_unsigned in ground arith in
    let e2 : unread (c ∷ s) ≡ c ∷ s = unfold unread skip_space in ground arith in
    let ih = load_loop-spins fuel c s root sp dg m p in ground (arith, e1, e2, ih)
