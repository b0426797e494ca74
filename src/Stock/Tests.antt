-- ===== src/Stock/Tests.antt =====
-- prj2/task1/stock_endpoint.c: a small book of stocks, requests to it, and the theorems at them.
use system_programing.Common.{
  length, ◌<◌, ◌≡◌, refl, arith, List, [], ◌∷◌, ◌++◌, none, some, ◌>>=◌, if◌then◌else◌,
}
use system_programing.Common.Int.{ℤ, pos, negsuc, ◌+ℤ◌, ◌==ℤ◌, neg_int, neg, add_int, wrap32}
use system_programing.Common.Text.{Bytes, codes, newline, space, strtok, skip_delims, take_token}
use system_programing.Common.Decimal.{
  atoi, scan_int, skip_space, read_signed, read_unsigned, read_digits, print_int, print_nat,
  print_digits,
}
use system_programing.Stock.{
  Stock, Tree, leaf, node, insert_node, Status, success, update_stock, get_stock, stock_at, set_cnt,
  set_stocks_info, add_stocks_info, line, maxbuf, strcat,
}
use system_programing.Stock.Order.{IsOrdered, insert_node-IsOrdered}
use system_programing.Stock.Find.{find, named, find-insert_node}
use system_programing.Stock.Update.{IsSound, IsStored, outcome, settled, update_stock-total}
use system_programing.Stock.Ledger.{update_all, gained, update_all-gained}
use system_programing.Stock.Request.{
  next_number, buy, dispatch, process_request, buy_reply, sell_reply,
}
use system_programing.Stock.Request.Protocol.{request, process_request-trades}
use system_programing.Stock.Coarse.{no_lock, mutexes, write_locked, write_locked-all_free}
use system_programing.Stock.Listing.{listing}
use system_programing.Stock.Locked.{
  Guard, Guards, guards, no_node, wait, post, wait_at, post_at, locked_update, locked_buy,
  locked_dispatch, locked_request, connect_client,
}
use system_programing.Stock.Request.Restart.{serve, serve-IsSound, restart, process_request_blank}
use system_programing.Stock.File.{
  list_loaded, loaded, running, unread, load_loop, init_stock, write_to_file,
}
use system_programing.Stock.File.Restore.{init_stock-write_to_file, load_loop-spins}

abbrev apple : Stock
apple = record { id = pos 2; price = pos 2000; cnt = pos 10 }

abbrev pear : Stock
pear = record { id = pos 1; price = pos 300; cnt = pos 4 }

abbrev book : Tree
book = node (node leaf pear leaf) apple leaf

book-IsSound : IsSound book
book-IsSound = omega arith

book-IsStored : IsStored book
book-IsStored = omega arith

abbrev book_text : Bytes
book_text = codes "2 10 2000" ++ newline ∷ (codes "1 4 300" ++ newline ∷ [])

book_written : set_stocks_info book [] ≡ some book_text
unfolding strcat set_stocks_info add_stocks_info line print_int print_nat print_digits
book_written = refl

book_read : init_stock book_text ≡ loaded book
unfolding init_stock load_loop scan_int skip_space read_signed read_unsigned read_digits wrap32
    insert_node unread list_loaded strcat set_stocks_info add_stocks_info line print_int print_nat
    print_digits
book_read = refl

abbrev buy_line : Bytes
buy_line = codes "buy 2 3" ++ newline ∷ []

abbrev book_after : Tree
book_after = node (node leaf pear leaf) (record apple { cnt = pos 7 }) leaf

bought : process_request book buy_line ≡ some (buy_reply success, book_after)
unfolding process_request dispatch buy next_number strtok skip_delims take_token atoi scan_int
    skip_space read_signed read_unsigned read_digits wrap32 neg_int neg update_stock get_stock
    stock_at set_cnt add_int ◌+ℤ◌
bought = refl

served : serve book (buy_line ∷ []) ≡ some (buy_reply success ∷ [], book_after)
unfolding serve
served = rw bought

insert_node-IsOrdered_example : IsOrdered (insert_node book pear)
insert_node-IsOrdered_example = insert_node-IsOrdered book pear book-IsSound.ordered

find-insert_node_example : find (insert_node book pear) (pos 1) ≡ elim (find book (pos 1)) [
  | none ↦ if pear.id ==ℤ pos 1 then some pear else none
  | some x ↦ some x
]
find-insert_node_example = find-insert_node book pear (pos 1)

update_stock-total_example :
    (root' : Tree) × (update_stock book (pos 2) (negsuc 2)
      ≡ some (outcome (named book (pos 2)) (negsuc 2), root'))
    × IsOrdered root'
    × ((q : ℤ)
        → named root' q
          ≡ (if pos 2 ==ℤ q then settled (named book (pos 2)) (negsuc 2) else named book q))
update_stock-total_example = update_stock-total book (pos 2) (negsuc 2) book-IsStored.ordered

apple_found : find book (pos 2) ≡ some apple
unfolding find get_stock stock_at
apple_found = refl

abbrev trades : List (ℤ × ℤ)
trades = (pos 2, negsuc 2) ∷ (pos 2, negsuc 20) ∷ (pos 2, pos 5) ∷ []

update_all-gained_example :
    (sts : List Status) × (root' : Tree) × (s' : Stock) × (update_all book trades
      ≡ some (sts, root'))
    × IsSound root'
    × (find root' (pos 2) ≡ some s')
    × (s'.cnt ≡ apple.cnt +ℤ gained (pos 2) trades sts)
    × (s'.price ≡ apple.price)
update_all-gained_example =
    update_all-gained trades book (pos 2) apple book-IsSound (omega arith) apple_found

process_request-trades_example :
    (process_request book (request (codes "buy") (pos 2) (pos 3))
      ≡ (update_stock book (pos 2) (neg_int (pos 3)) >>= λ p. some (buy_reply p.0, p.1)))
    × (process_request book (request (codes "sell") (pos 2) (pos 3))
        ≡ (update_stock book (pos 2) (pos 3) >>= λ p. some (sell_reply p.0, p.1)))
process_request-trades_example =
    process_request-trades book (pos 2) (pos 3) (omega arith) (omega arith)

-- The guards of the book, which nobody holds.
abbrev free_guards : Guards
free_guards =
    let free : Guard = record { read_cnt = 0; mutex = 1; mutex_read = 1 } in
    guards (guards no_node free no_node) free no_node

-- Two lines of a connection, and a blank one.
connection_runs :
    ((connect_client book free_guards (codes "buy 2 3" ∷ codes "x" ∷ []) >>= λ r. some r.0)
      ≡ some (buy_reply success ∷ [] ∷ []))
    × (connect_client book free_guards ((newline ∷ []) ∷ []) ≡ none)
unfolding connect_client locked_request locked_dispatch locked_buy locked_update next_number strtok
    skip_delims take_token atoi scan_int skip_space read_signed read_unsigned read_digits wrap32
    neg_int neg get_stock stock_at set_cnt add_int ◌+ℤ◌ wait_at post_at wait post
connection_runs = (refl, refl)

abbrev one_stock : Tree
one_stock = node leaf (record { id = pos 1; price = pos 100; cnt = pos 7 }) leaf

one_stock_short : length (listing one_stock) < maxbuf
unfolding line print_int print_nat print_digits
one_stock_short = omega arith

book_after_short : length (listing book_after) < maxbuf
unfolding line print_int print_nat print_digits
book_after_short = omega arith

book_short : length (listing book) < maxbuf
unfolding line print_int print_nat print_digits
book_short = omega arith

write_locked-all_free_example :
    write_locked one_stock (mutexes no_lock 1 no_lock)
    ≡ some (listing one_stock, mutexes no_lock 1 no_lock)
write_locked-all_free_example =
    write_locked-all_free one_stock (mutexes no_lock 1 no_lock) (tt, tt) one_stock_short

serve-IsSound_example : IsSound book_after
serve-IsSound_example = serve-IsSound (buy_line ∷ []) book book-IsSound served

restart_example :
    (t : Bytes) × (write_to_file book_after [] ≡ some t) × (init_stock t ≡ loaded book_after)
restart_example = restart book_text (buy_line ∷ []) [] book_read served book_after_short

init_stock-write_to_file_example :
    (t : Bytes) × (write_to_file book [] ≡ some t) × (init_stock t ≡ loaded book)
init_stock-write_to_file_example = init_stock-write_to_file book [] book-IsStored book_short

load_loop-spins_example : load_loop 50 (codes "x1 2 3") leaf ≡ running
load_loop-spins_example =
    load_loop-spins 50 b'x' (codes "1 2 3") leaf refl refl (omega arith) (omega arith)

process_request_blank_example : process_request book (space ∷ newline ∷ []) ≡ none
process_request_blank_example = process_request_blank book (space ∷ newline ∷ []) (refl, (refl, tt))
