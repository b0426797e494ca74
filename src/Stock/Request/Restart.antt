-- ===== src/Stock/Request/Restart.antt =====
-- prj2/task1/stock_endpoint.c: lines of clients one after another, up to the next start.
use system_programing.Common.{
  length, ◌<◌, ◌≡◌, refl, subst, arith, true, Bool-cases, inl, inr, List, [], ◌∷◌, Option, none,
  some, ◌>>=◌, >>=-eq-some, All,
}
use system_programing.Common.Int.{ℤ, neg_int}
use system_programing.Common.Text.{Bytes, codes, str_eq, strtok, skip_delims}
use system_programing.Stock.Listing.{listing}
use system_programing.Stock.{maxbuf, set_stocks_info, Tree, Status, update_stock}
use system_programing.Stock.Update.{IsStored, IsSound, update_stock-IsStored, update_stock-IsSound}
use system_programing.Stock.Request.{
  is_blank, next_number, buy, sell, dispatch, process_request, buy_reply, sell_reply,
}
use system_programing.Stock.File.{loaded, init_stock, write_to_file}
use system_programing.Stock.File.Restore.{init_stock-write_to_file, init_stock-IsStored}

-- What an update keeps, a request keeps, whatever its text.
module _ {ℓ} (P : Tree → Type ℓ)
    (keep : (root : Tree) (id cnt : ℤ) (p : Status × Tree)
      → P root
      → update_stock root id cnt ≡ some p
      → P p.1) where
  traded :
      (root : Tree) (s : Bytes) (amount : ℤ → ℤ) (answer : Status → Bytes) (p : Bytes × Tree)
      → P root
      → (next_number s >>= λ a. next_number a.1 >>= λ b.
          update_stock root a.0 (amount b.0) >>= λ c. some (answer c.0, c.1))
        ≡ some p
      → P p.1
  traded root s amount answer p h e =
      let (a, _, e1) = >>=-eq-some (next_number s) _ e in
      let (b, _, e2) = >>=-eq-some (next_number a.1) _ e1 in
      let (c, u, e3) = >>=-eq-some (update_stock root a.0 (amount b.0)) _ e2 in
      let same : c.1 ≡ p.1 = ground arith in subst P same (keep root a.0 (amount b.0) c h u)

  buy_keeps : (root : Tree) (s : Bytes) (p : Bytes × Tree) → P root → buy root s ≡ some p → P p.1
  unfolding buy
  buy_keeps root s p h e = traded root s neg_int buy_reply p h e

  sell_keeps : (root : Tree) (s : Bytes) (p : Bytes × Tree) → P root → sell root s ≡ some p → P p.1
  unfolding sell
  sell_keeps root s p h e = traded root s (λ v. v) sell_reply p h e

  dispatch_keeps :
      (root : Tree) (prefix s : Bytes) (p : Bytes × Tree)
      → P root
      → dispatch root prefix s ≡ some p
      → P p.1
  unfolding dispatch
  dispatch_keeps root prefix s p h e = elim (Bool-cases (str_eq prefix (codes "show"))) [
    | inl show ↦
        let (info, _, e') =
          >>=-eq-some (set_stocks_info root []) (λ info. some (info, root)) {b = p}
            (ground arith) in
        let same : root ≡ p.1 = ground arith in subst P same h
    | inr not_show ↦ elim (Bool-cases (str_eq prefix (codes "buy"))) [
      | inl bought ↦ buy_keeps root s p h (ground arith)
      | inr not_buy ↦ elim (Bool-cases (str_eq prefix (codes "sell"))) [
        | inl sold ↦ sell_keeps root s p h (ground arith)
        | inr other ↦ let same : root ≡ p.1 = ground arith in subst P same h
      ]
    ]
  ]

  process_request_keeps :
      (root : Tree) (command : Bytes) {p : Bytes × Tree}
      → P root
      → process_request root command ≡ some p
      → P p.1
  unfolding process_request
  process_request_keeps root command {p} h e =
      let (t, _, d) = >>=-eq-some (strtok is_blank command) _ e in dispatch_keeps root t.0 t.1 p h d

-- Requests one after another: the replies and the tree, or `none` for a crash.
unfoldable pub serve : Tree → List Bytes → Option (List Bytes × Tree)
serve root [] = some ([], root)
serve root (command ∷ commands) =
    process_request root command >>= λ p. serve p.1 commands >>= λ r. some (p.0 ∷ r.0, r.1)

serve_keeps {ℓ} :
    (P : Tree → Type ℓ)
    (keep : (root : Tree) (command : Bytes) (p : Bytes × Tree)
      → P root
      → process_request root command ≡ some p
      → P p.1)
    (commands : List Bytes) (root : Tree) {r : List Bytes × Tree}
    → P root
    → serve root commands ≡ some r
    → P r.1
unfolding serve
serve_keeps P keep [] root {r} h e = let same : root ≡ r.1 = ground arith in subst P same h
serve_keeps P keep (command ∷ commands) root {r} h e =
    let (p, d, e1) = >>=-eq-some (process_request root command) _ e in
    let (q, d', e2) = >>=-eq-some (serve p.1 commands) _ e1 in
    let same : q.1 ≡ r.1 = ground arith in
    subst P same (serve_keeps P keep commands p.1 (keep root command p h d) d')

pub process_request-IsSound :
    (root : Tree) (command : Bytes) {p : Bytes × Tree}
    → IsSound root
    → process_request root command ≡ some p
    → IsSound p.1
process_request-IsSound root command =
    process_request_keeps IsSound (λ t id cnt q s u. update_stock-IsSound t id cnt s u) root command

-- No line of a client, however malformed, makes the tree unordered or a count negative.
pub serve-IsSound :
    (commands : List Bytes) (root : Tree) {replies : List Bytes} {root' : Tree}
    → IsSound root
    → serve root commands ≡ some (replies, root')
    → IsSound root'
serve-IsSound commands root sound e =
    serve_keeps IsSound (λ t c p s d. process_request-IsSound t c s d) commands root sound e

serve-IsStored :
    (commands : List Bytes) (root : Tree) {replies : List Bytes} {root' : Tree}
    → IsStored root
    → serve root commands ≡ some (replies, root')
    → IsStored root'
serve-IsStored commands root stored e =
    serve_keeps IsStored
      (λ t c p s d.
        process_request_keeps IsStored (λ t id cnt q s u. update_stock-IsStored t id cnt s u) t c s
          d)
      commands root stored e

-- The server starts from a stock.txt that it can read, serves any lines, and writes the file on
-- exit, where the listing of the tree is below MAXBUF bytes: the next start builds the very tree that
-- the exit saw.
pub restart :
    (text : Bytes) (commands : List Bytes) (stock_info : Bytes) {root root' : Tree}
    {replies : List Bytes}
    → init_stock text ≡ loaded root
    → serve root commands ≡ some (replies, root')
    → length (listing root') < maxbuf
    → (t : Bytes) × (write_to_file root' stock_info ≡ some t) × (init_stock t ≡ loaded root')
restart text commands stock_info {root} {root'} l e =
    init_stock-write_to_file root' stock_info
      (serve-IsStored commands root (init_stock-IsStored text l) e)

-- A line of blanks has no first word, and crashes the server.
pub process_request_blank :
    (root : Tree) (command : Bytes)
    → All (λ c. is_blank c ≡ true) command
    → process_request root command ≡ none
unfolding process_request strtok skip_delims
process_request_blank root command h = rw (skip_blank command h)
  where
    skip_blank : (s : Bytes) → All (λ c. is_blank c ≡ true) s → skip_delims is_blank s ≡ []
    skip_blank [] h = refl
    skip_blank (c ∷ s) h = rw h.0 (skip_blank s h.1)
