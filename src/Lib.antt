-- ===== src/Lib.antt =====
-- bflib, a C library of data structures and helpers: a binary heap, a cyclic counter, integers of
-- variable length, integers in network order, a red-black tree, a
-- linked list, strings of octets, timers, and a watcher of addresses.
--
-- The files and the code they model (paths from the root of the repository):
--   Heap        heap.c, the struct, the array and the sift loops; Heap/Calls has the functions of
--               heap.h under their C names. The children hold proofs: Heap/Order the heap order,
--               Heap/Memory the cells as a collection, Heap/Up, Heap/Down and Heap/Hipify the sift
--               loops, Heap/Accessor the loops over all cells, and below Heap/Calls one file for
--               each group of functions.
--   Counter     counter.c; Counter/Cycle has its proofs.
--   Uintvar     uintvar.c; Uintvar/RoundTrip has its proofs.
--   Netint      netint.c; Netint/Octets has its proofs.
--   Tree        tree.c: the tree, tree_find, tree_insert and the folds. The children hold proofs:
--               Tree/Balance the red-black invariant, Tree/Insert the cases of the insertion,
--               Tree/Sorted sorted lists of entries, with Tree/Sorted/Walk and Tree/Sorted/Map the
--               walks and calls on them, Tree/Folds the folds.
--               Tree/Delete has tree_delete, its children the proofs: Sibling and Mend of
--               the cases, Unlink and Heir of the node that goes, Map of the call; Tree/Info has
--               tree_info and tree_check_integrity, its children their proofs, Tree/Destroy
--               tree_destroy.
--   LinkedList  list.c: the struct and the functions on one list; LinkedList/Build has those that
--               make a list of another, and list_sort. The children hold proofs.
--   Octstr      octstr.c: the struct and the calls that make, change, cut and join strings. The
--               children Octstr/Convert, Octstr/Compare, Octstr/Strip and Octstr/Search have the
--               integers in strings and octstr_to_hex, the comparison, the search for an octet
--               with octstr_strip, and the search for a string with octstr_find_and_replace and
--               the calls that read a C string; Octstr/Contents and Octstr/Edit hold proofs.
--   Timer       timer.c: events in the heap, and the calls on them. Timer/Loop has etimer_run as
--               steps beside the calls of other threads and of callbacks; the other children hold
--               proofs: Timer/Ready of the events that are due, Timer/Queue of the calls,
--               Timer/Timeout of the time to wait, and below Timer/Loop of what the steps keep.
--   AddrWatch   addrwatch.c: the watcher over the list, and its round. The children hold proofs:
--               AddrWatch/Items what a round is to do, AddrWatch/Addresses the calls that
--               change the list, AddrWatch/Watch the round. AddrWatch/Loop has
--               addr_watcher_watchloop as turns: below it Plan says which of them make a round and
--               what the rounds do, OneTurn is about one turn, and Rounds about all.
--   TailQueue   what sys/queue.h says of tail queues, a parameter of LinkedList;
--               TailQueue/Sequence shows that it can be met.
--   Base, Run   the names, lemmas and results that the others share.
--
-- State is passed explicitly: a function that changes a struct returns the new one beside its
-- result, and NULL or -1 is `none`. A call ends in a `Run`: a value, a fault (an access outside
-- the allocated block or through NULL, and in etimer_after, etimer_mafter and the total of
-- addr_watcher_watchloop a signed overflow) or fuel that ran out; a theorem about a call says that it
-- returns a value. The loops of heap_up and heap_down have fuel of one more than the position and
-- the size: each round moves up or down the tree. tree_delete1 has one more than the number of
-- ancestors, as each call of itself is at the parent. The loops over a list have one more than
-- the addresses given out. octstr_find_and_replace1 has one more than the length, as each round
-- moves on by the length of the string searched for. The loops of timer.c that empty the heap
-- have one more than its size. All other loops recur on the rounds that are left.
--
-- Integers are natural numbers; a `long` of the heap is an index and stays below twice the number
-- of items plus two, so it does not overflow, and the 64-bit arithmetic of counter.c and
-- uintvar.c wraps as written; the count of a round in addrwatch.c, at most
-- the number of addresses, is taken to fit an int, and the seconds that etimer_calc_timeout and
-- addr_watcher_watchloop compute with a long. Delays and timeouts are not negative.
-- Object representation, htonl and ntohl are parameters of Netint
-- (Netint.Host).
--
-- Not modelled: malloc failing, the mutexes beyond making each locked part one step, epoll and
-- the pipe of timer.c beyond the count of its bytes; of octstr.c the calls on bits, iconv,
-- sprintf and files; and the files bits.c and die.c.
pub mod AddrWatch
pub mod Base
pub mod Counter
pub mod Run
pub mod Heap
pub mod Netint
pub mod Uintvar
pub mod Timer
pub mod Tree
pub mod TailQueue
pub mod LinkedList
pub mod Octstr
