-- ===== src/Lib.antt =====
-- Verification of the C programs of the repository: a collection of stand-alone programs on
-- transactions, threads and files, and of LeetCode solutions. No program calls another, so each part
-- below stands alone and shares the helpers of Base; ThirdMax also has its nodes from MedianFinder, and
-- the order of its values from Tree/Sorted.
--
-- Base: helpers (Boolean tests, lists, C strings, integers over the native numbers). A C string is the
-- list of its bytes before the final zero. An `int` is an integer or a natural number; clocks, ids and
-- sizes are taken to stay in its range, while the counters of Counters and the hash of ConcurrentMap
-- keep their wrap-around.
--
-- Mvcc (transaction_mvcc.c): mvcc_read, mvcc_write, acquire_lock, release_locks, begin_tx, commit_tx
-- and abort_tx as functions on one state: the keys with their versions, newest write first, the
-- transactions with their locks, the clock and the wait-for graph. Mvcc/Run has main as a chain of
-- these. Deadlock (the same file): detect_cycle_util with its marks, and the loop over the roots; its
-- recursion runs on fuel, as many levels as there are transactions, since no path of the search meets
-- a vertex twice.
--
-- ConcurrentMap (COCURRENTHASHMAP.c): hash_str with its wrap-around at 2 ^ 64, and map_create,
-- map_insert, map_get and map_remove on the chains of the buckets. A call holds the lock of its bucket
-- from start to end, so calls are atomic; any order of calls is a list of them. map_destroy gives the
-- values that it frees, in order. ConcurrentMap/Main has worker as a step relation over all
-- interleavings of the calls, and what main frees after the joins.
--
-- BoundedQueue (producer_consumer.c): queue_init, queue_push and queue_pop on the ring buffer, where a
-- call that would wait has no result yet; BoundedQueue/Threads has the producers and consumers as a
-- step relation over all interleavings of their calls, and BoundedQueue/Conditions with the threads that
-- wait on not_full and not_empty, the signals that wake them, and wake-ups without one.
--
-- WordCount (wordcount.c): the borders that main gives its threads, count_words over a piece, and the
-- sum in any order of the threads. What isalnum answers is that of the C locale. WordCount/Main has
-- main by the results of its calls.
--
-- Allocator (2502.c): allocatorCreate, allocatorAllocate and allocatorFreeMemory on the cells.
--
-- Tree (98.c, 100.c, 104.c, 450.c, 700.c) and Tree/Balance (109.c, 876.c, 1382.c): functions on binary
-- trees and lists; a NULL pointer is a leaf. buildBalanced and buildTree run on fuel, the number of the
-- elements, since each call has fewer of them, and the loop of middleNode on the length of its list.
-- Tree/Traversal (94.c) is the traversal with its own stack; a write past one of its arrays is none, and
-- one pass more than the cells of the result is enough.
--
-- Wal (Wal.c): the log and the database as lists of lines, append_file, write_transaction and recover,
-- with what snprintf cuts and what fgets reads at once of a line, and with what fsync has brought of the
-- log to the disk; Wal/Commands has main and its commands.
--
-- Counters (Shared_counter.c, Shared_Counter.c, Atomic_counter_Mutex_Counter.c): children and threads
-- that raise counters, as step relations. Counters/Benchmark has main of the last, with the two
-- counters that it prints, and atol a parameter.
--
-- FileCopy (low_level_sys_call.c): main, given its arguments and the results of its system calls.
--
-- UrlShortener (535.c): encode and decode, with what sprintf and sscanf do for %d.
--
-- Lru (146.c): the cache as a store of nodes whose fields are functions of the pointer, with the list
-- through prev and next and the hash chains through hnext. The walks along a chain run on fuel, the
-- number of nodes ever made plus one, which is more than a chain holds. A use of a node that was never
-- allocated is none. Keys are natural numbers, as the hash is taken of a non-negative int.
--
-- RangeSum (327.c): countRangeSum and mergeCount on an array of unbounded integers, as no `long`
-- overflows on 32-bit numbers, with the cast of the result to `int`; the loops on k, j
-- and t by the rounds that remain; mergeCount runs on fuel, the length of its part, as each call has a
-- shorter one. CountSmaller (315.c): insert into the tree with counts, and countSmaller.
--
-- SlidingWindow (239.c): maxSlidingWindow with its queue of indices in an array.
--
-- Anagrams (49.c): hash, insert, sortString and groupAnagrams, with the table a function of the bucket.
-- A `char` is signed.
--
-- Subsequence (1143.c): the table of longestCommonSubsequence. Parentheses (20.c): isValid, with its
-- stack as a list, the top first.
--
-- FileSearch (Memory_Mapped_File.c): search_keyword on the bytes of the file, and map_file and main
-- by the results of their system calls.
--
-- MedianFinder (295.c): the red-black tree with sizes. A node that is reached through parent pointers is
-- its subtree with the path above it, so that each assignment through a pointer is a change of one of
-- the two. The loop of insertFixup runs on fuel, one more than the length of the path, since a round
-- leaves a shorter path. A sum of two values that is no `int` is none.
--
-- ThirdMax (414.c): insertValue, fixInsert, findKthLargest and thirdMax on nodes in the same form; fixInsert runs on fuel, two more than twice the length of the path, since a round
-- that leaves a path as long has turned a right child into a left one.
--
-- SortedArray (1649.c): update, query and createSortedArray, with the global array a function of the
-- index, and index & -index on 32 bits. update runs on fuel MAX_VAL + 1, as a round raises the index,
-- and query on the index plus one.
--
-- FileMerge (largefilemerge.c): main by the results of its calls, with the ring as the operations that
-- are pending; any of them may complete next. What stands in the buffers is left out.
--
-- Arrays (1.c, 217.c, 387.c): twoSum, containsDuplicate with qsort a parameter, and firstUniqChar.
--
-- Not modelled: 1206.c, a skip list whose levels come from rand. Left out, as they are calls of the
-- kernel and timing with little logic: Asyn_IO.c and io-direct-vs-buffered.c. Of
-- Atomic_counter_Mutex_Counter.c the timing is left out. Printing is left out where it is not a result,
-- failing allocations but in WordCount/Main and FileMerge, and freeing memory but in Allocator, Lru and
-- map_destroy.
pub mod Base
pub mod Mvcc
pub mod Deadlock
pub mod ConcurrentMap
pub mod BoundedQueue
pub mod WordCount
pub mod Allocator
pub mod Tree
pub mod Wal
pub mod Counters
pub mod FileCopy
pub mod UrlShortener
pub mod Lru
pub mod RangeSum
pub mod CountSmaller
pub mod SlidingWindow
pub mod Anagrams
pub mod Subsequence
pub mod Parentheses
pub mod FileSearch
pub mod MedianFinder
pub mod ThirdMax
pub mod SortedArray
pub mod FileMerge
pub mod Arrays
