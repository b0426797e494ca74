-- ===== src/Stock/Listing.antt =====
-- prj2/task1/stock_endpoint.c: what `set_stocks_info` puts into its buffer.
use system_programing.Common.{
  ◌<◌, ◌≡◌, refl, sym, ap, ◌∙◌, arith, Bool-cases, inl, inr, List, [], ◌∷◌, ◌++◌, Option, none,
  some, true, false, ltb, if◌then◌else◌, length, length-append, append_assoc, append-nil, ◌>>=◌,
}
use system_programing.Common.Text.{Bytes}
use system_programing.Stock.{Stock, Tree, leaf, node, line, maxbuf, strcat, add_stocks_info}
use system_programing.Stock.Order.{preorder}

-- The lines of stocks.
abbrev pub text : List Stock → Bytes
text [] = []
text (s ∷ ss) = line s ++ text ss

pub text-append : (xs ys : List Stock) → text (xs ++ ys) ≡ text xs ++ text ys
text-append [] ys = refl
text-append (x ∷ xs) ys =
    ap (λ t. line x ++ t) (text-append xs ys) ∙ sym (append_assoc (line x) (text xs) (text ys))

-- What the whole tree is written as.
abbrev pub listing : Tree → Bytes
listing root = text (preorder root)

-- A text that has room in the buffer, its end included.
abbrev pub fitted : Bytes → Option Bytes
fitted b = if ltb (length b) maxbuf then some b else none

pub listing-node :
    (info : Bytes) (l : Tree) (s : Stock) (r : Tree)
    → ((info ++ line s) ++ listing l) ++ listing r ≡ info ++ listing (node l s r)
listing-node info l s r = simp (append_assoc, text-append)

too_long : (b c : Bytes) → ltb (length b) maxbuf ≡ false → fitted (b ++ c) ≡ none
too_long b c h = ground (arith, length-append b c)

pub add_stocks_info-listing :
    (t : Tree) (info : Bytes)
    → length info < maxbuf
    → add_stocks_info t info ≡ fitted (info ++ listing t)
unfolding add_stocks_info strcat
add_stocks_info-listing leaf info b =
    let fits : ltb (length info) maxbuf ≡ true = ground arith in rw (append-nil info, fits) refl
add_stocks_info-listing (node l s r) info b =
    let e = ap fitted (listing-node info l s r) in
    let a = info ++ line s in
    elim (Bool-cases (ltb (length a) maxbuf)) [
      | inr full ↦
          rw (full, ◌>>=◌)
            (sym (too_long a (listing l ++ listing r) full)
              ∙ ap fitted (sym (append_assoc a (listing l) (listing r)))
              ∙ e)
      | inl fits ↦
          let el = add_stocks_info-listing l a (ground arith) in
          elim (Bool-cases (ltb (length (a ++ listing l)) maxbuf)) [
            | inr full ↦
                rw (fits, ◌>>=◌, el, full, ◌>>=◌)
                  (sym (too_long (a ++ listing l) (listing r) full) ∙ e)
            | inl fits' ↦
                rw (fits, ◌>>=◌, el, fits', ◌>>=◌)
                  (add_stocks_info-listing r (a ++ listing l) (ground arith) ∙ e)
          ]
    ]

-- An empty buffer takes the listing if that has room.
pub add_stocks_info-fits :
    (t : Tree) → length (listing t) < maxbuf → add_stocks_info t [] ≡ some (listing t)
add_stocks_info-fits t b =
    let fits : ltb (length (listing t)) maxbuf ≡ true = ground arith in
    add_stocks_info-listing t [] (omega arith) ∙ rw fits refl
