-- ===== src/Lib.antt =====
-- Verification of the concurrency control and index code of DBx1000 with B-skiplists.
--
-- The program is a main-memory transaction benchmark. A transaction (system/txn.cpp) reads rows
-- through an index (storage/) and guards each access by one of several concurrency control schemes
-- (concurrency_control/), chosen when the program is built.
--
-- RowLock.antt: concurrency_control/row_lock.cpp, the lock of one row under NO_WAIT, WAIT_DIE and
-- DL_DETECT. Row_lock::lock_get is lock_get, lock_release is lock_release; each runs under the
-- row's latch and is one step. The linked lists of owners and waiters are lists.
-- BSkip.antt: storage/RW_bskiplist, the leaves of the B-skiplist index (include/LeafNode.hpp,
-- src/LeafNode.cpp) and their use in src/insert.cpp, the nodes of all levels (Node.hpp,
-- InternalNode.hpp), the list that the constructor builds, the searches exists and value, the range
-- queries map_range_length and map_range (src/range.cpp), and insert for a key that flip_coins
-- promotes to no level, insert_unpromoted; the nodes that a promotion divides above the leaves and
-- delete are not modelled. The loops of a range query take fuel: more than the keys and the length
-- it is given is enough. The search find_index_binary takes
-- fuel; one more than the number of keys is enough. The walk along a level takes fuel; more than the
-- key is enough, since headers rise. The address of a new leaf is an argument, as memory is given
-- out by code that is not modelled.
-- IndexRwBskiplist.antt: storage/index_rw_bskiplist.cpp, the index over that list; index_exist,
-- index_read and index_next have the source's names, and a thread's slots are a Cursor. index_insert
-- is not modelled. YcsbTxn.antt: benchmarks/ycsb_txn.cpp, the rows of a SCAN request over that index.
-- IndexHash.antt: storage/index_hash.cpp; index_insert and index_read have the source's names.
-- OptCc.antt: the central validation of concurrency_control/occ.cpp. central_validate is cut at its
-- latch: enter is its first critical section, leave the second, and check the comparisons between
-- them; transactions may interleave there.
-- OptCc/PerRow.antt: per_row_validate of that file, with concurrency_control/row_occ.cpp and the loop
-- of txn_man::cleanup; rows stay latched, so it is one step. BubbleSort.antt is the sort of both
-- occ.cpp and silo.cpp.
-- RowTictoc.antt: the timestamp word of concurrency_control/row_tictoc.cpp, and the operations on it,
-- with the names of the source. The other threads are the values that each read finds.
-- DlDetect.antt: concurrency_control/dl_detect.cpp; add_dep, clear_dep and detect_cycle have the
-- source's names, nextNode is next_node and its loop scan. The search takes fuel; more than the number
-- of threads is enough, since each call marks one.
-- Silo.antt: concurrency_control/silo.cpp and row_silo.cpp. txn_man::validate_silo is cut at each
-- access to the word of a row: Phase says where it stands, step is what it does next.
-- Run.antt: results that may be a failure, or the end of the fuel, shared by the others.
-- Vll.antt: concurrency_control/row_vll.cpp and vll.cpp. Row_vll's counters, and the queue of
-- VLLMan: beginTxn is begin_txn, finishTxn is finish_txn, and the section of vllMainLoop under the
-- mutex is main_enter. Vll/System.antt is the threads in that loop, between whose sections others run.
-- RowTs.antt: concurrency_control/row_ts.cpp, timestamp ordering of one row without the Thomas
-- write rule. access, update_buffer and cal_min have the source's names; buffer_req and debuffer_req
-- are one function for each of their uses. update_buffer takes fuel; more than the number of
-- buffered prewrites is enough.
-- RowMvcc.antt: concurrency_control/row_mvcc.cpp, multiversion timestamp ordering of one row. A row_t
-- is its address and heap the contents at each address. The branches of Row_mvcc::access are
-- access_read, access_prewrite, access_write (W_REQ) and access_abort (XP_REQ); reserveRow is
-- reserve_row, its garbage collection collect; update_buffer and buffer_req have the source's names.
-- glob_manager->get_min_ts and the address of a new row_t are arguments. RowMvcc/Steps.antt is a run of
-- accesses, in which a transaction also changes the copy it was granted.
-- Plock.antt: concurrency_control/plock.cpp, the lock of one partition under HSTORE. PartMan::lock
-- is part_lock and PartMan::unlock is part_unlock; Plock, which takes several, is not modelled.
-- Base.antt: lists, tests, 32-bit counters and failed assertions, shared by the others.
--
-- Not modelled: memory allocation, statistics, clocks, and the code of other projects under
-- storage/ (the BP-tree's tlx, the ParallelTools, folly). Of the B-skiplist, insertion of a key that
-- is promoted, delete and the locks of nodes; of the index over it, index_insert. Of HSTORE, the lock
-- of several partitions; of Silo, Row_silo::access; of TicToc, the validation in tictoc.cpp. Hekaton,
-- the other indices, and the transactions and threads that call all of these (system/) are left out.
pub mod BSkip
pub mod Base
pub mod BubbleSort
pub mod DlDetect
pub mod IndexHash
pub mod IndexRwBskiplist
pub mod OptCc
pub mod Plock
pub mod RowLock
pub mod RowMvcc
pub mod RowTictoc
pub mod RowTs
pub mod Run
pub mod Silo
pub mod Vll
pub mod YcsbTxn
