-- ===== src/Lib.antt =====
-- The system programming projects: a shell (prj1), a stock server in several versions (prj2) and
-- a memory allocator (prj3), all in C. The programs share no code; within each, the parts call
-- each other as follows.
--
-- - prj2, the stock server. stockserver.c takes connections and hands each line of a client to
--   process_request of stock_endpoint.c, which works on a binary search tree of stocks; at the
--   end of the server the tree goes to stock.txt, and init_stock reads it at the next start.
--   task1 serves all clients from one thread with select; task2_new has a bounded buffer of
--   connections, worker threads, and a reader-writer lock in every node of the tree.
-- - prj1, the shell. The main loop starts a foreground or background process; background jobs
--   stand in a doubly linked list, which the handlers of SIGCHLD, SIGTSTP and SIGINT and the
--   commands jobs, kill, fg and bg walk and change.
-- - prj3, the allocator. mm.c keeps blocks with boundary tags over the memory of memlib.c, and a
--   circular list of the free ones.
--
-- Which file models what:
-- - Common: tests on numbers, lists, integers with int arithmetic (Common/Int: the wrap of a
--   32-bit int), text as lists of bytes (Common/Text: strtok), decimal printing and reading
--   (Common/Decimal: %d, atoi, fscanf), and interleavings of threads (Common/Threads). Text and
--   Decimal are the parts of the C library that the sources use.
-- - Stock: prj2/task1/stock_endpoint.c. `Tree` is root_tree, `insert_node` and `insert_stock`
--   are insert_stock, `get_stock` returns the path to a node in place of a pointer,
--   `update_stock`, `set_stocks_info` and `write_to_file` have the names of the C functions.
--   Stock/Request has process_request, where `none` is a crash of the server; Stock/File has
--   init_stock and its loop. Stock/Locked has the requests of prj2/task2_new/stock_endpoint.c
--   over the semaphores and counts of readers of the nodes (`Guards`), where update_stock takes
--   the lock of the node before it tests for null, and connect_client of
--   prj2/task2_new/stockserver.c over them; Locked/Agree compares them with those of task1.
--   Stock/Coarse has set_stocks_info and write_to_file of prj2/task2, over the semaphores of the
--   nodes. Stock/Order, Find, Listing, Update, Ledger, Request/Protocol, Request/Restart and
--   File/Restore have the proofs.
-- - Server: prj2/task1/stockserver.c. `Pool` is pool, with sets of descriptors as tests on them
--   and `places` for maxi + 1; `serve_round` is the body of main's loop, where `Round` holds
--   what select, accept and the clients give. Server/Places has the proofs on the pool,
--   Server/Safety those on a round.
-- - Sbuf: sbuf_init, sbuf_insert and sbuf_remove of prj2/task2_new/stockserver.c. `Shared` is
--   sbuf_t, with the semaphores as numbers; a `Move` is one statement of one thread, and a run
--   is any interleaving. Sbuf/Invariant and Sbuf/Safety have the proofs. Ghost fields record
--   what has been written and taken.
-- - ReadWrite: set_stocks_info and update_stock of prj2/task2_new/stock_endpoint.c at one node,
--   and SIGINT, whose handler takes the place of the thread that it interrupts. insert_stock
--   does not set read_cnt: it starts at a number that is a parameter, a negative one left out.
--   ReadWrite/Counts, ReadWrite/Invariant and ReadWrite/Safety have the proofs.
-- - Shell: prj1/20191630/phase3/myshell.c. Shell/Jobs has the heap of jobs, create_bg_process
--   and remove_job_node, where an address without a job is a bad pointer and `none` the crash
--   that reading it is; Shell/Handlers has the signal handlers and process_background_command.
--   What is printed and which signals are sent is kept as two lists. Shell/History has the
--   command history and its file, Shell/Parse the parser from a line to the arguments of a
--   pipeline and the built-in commands, Shell/Execute execute_command, where the result says
--   what is to run. Jobs/Chain, Jobs/Change, Jobs/Remove, Handlers/Walk, Handlers/Reap,
--   Handlers/Suspend, History/RoundTrip, Parse/Words and Parse/Background have the proofs.
-- - Malloc: prj3/prj3-malloc/mm.c, with mem_init, mem_sbrk and the bounds of memlib.c. Malloc
--   has the memory, as a function from addresses to words, and the macros; Malloc/Blocks has
--   coalesce, extend_heap, find_fit_at_list and place, Malloc/Api has mm_init, mm_malloc,
--   mm_free and mm_realloc. Malloc/Check has mm_check. Malloc/FreeList, FreeList/Erase, Fit and
--   Size have the proofs on the free list and on sizes. Malloc/Layout describes the heap as a
--   list of blocks, each a size and an allocated bit, side by side from the prologue to the
--   epilogue, with the free list beside it; Layout/Focus has `IsHeap`, which says that words and
--   lists agree, and `Focus`, the state around one block while an operation is under way.
--   Layout/Free has mm_free, Layout/Alloc mm_malloc and Layout/Init mm_init; the other files of
--   Layout have what these need: coalescing, placing, extending, and the two list operations.
--   Malloc/Session is a client: its calls and its writes as a relation between heaps and what it
--   holds. mm_realloc is run in Malloc/Tests, among others on an input where it grows over an
--   allocated block, and is no part of Layout and Session.
-- - The files called Tests run the code on small inputs and apply the theorems to them.
--
-- Bounds and fuel. Numbers of type int wrap at 2^31, and size_t and addresses in prj3 at 2^32,
-- since the build is for 32 bits. The overflow of stock_info (MAXBUF, 8192 bytes), of args
-- (MAX_PIPELINE, 10 commands) and of a set of descriptors (FD_SETSIZE, 1024) is an outcome of
-- the functions that write there. Loops over a tree, a list or a text are structural. These
-- loops run on fuel: the loop of init_stock, which need not end; the walks along the job list,
-- which need one round for each job and one more; the search of the free list, which needs one
-- round for each free block and one more; the walk of mm_check over all blocks; the loops of the
-- shell over a file and over a command line, where each round consumes a byte and the fuel is
-- the number of bytes, or one more. Where a theorem speaks of such a loop it says how much fuel
-- it takes.
--
-- What is not modelled: sockets, select, fork, exec and pipes (input and output); the client
-- programs; csapp.c, a copy of a textbook library; the driver and timers of prj3, which are a
-- handout; phases 1 and 2 of the shell and the rest of prj2/task2, earlier versions of what is
-- modelled; the limits of the other char buffers. The replacement of !! and !# in the shell
-- works on the raw buffer behind the end of a string and is left out too.
pub mod Common
pub mod Stock
pub mod Sbuf
pub mod ReadWrite
pub mod Shell
pub mod Server
pub mod Malloc
