-- ===== src/Lib.antt =====
-- The C programs of this repository: the data structures of data_structure_and_algorithm, the
-- sorts of clrs, and the database library, the queue of jobs and the table of counted objects of
-- apue. Each program is a file of its own that shares no state with the others; a main calls the
-- functions of one file, but for clrs/exercises/02.3.7.c, which includes clrs/sorting.c.
--
-- Avl models data_structure_and_algorithm/avl/avltree.c, with the functions height,
-- preorder_avltree, inorder_avltree, postorder_avltree, findmin, findmax, the four rotations,
-- insert_node, find, delete_node and destroy_avltree. SearchTree models
-- data_structure_and_algorithm/binary_search_tree/binary_search_tree.c (MakeEmpty, Find, FindMin,
-- Delete). LeftistHeap models
-- data_structure_and_algorithm/priority_queue/leftist_heap/leftist_heap.c (merge, merge1, insert1,
-- deletemin1) and BinaryHeap models data_structure_and_algorithm/priority_queue/heap/heap.c
-- (initialize, insert, deletemin). DisjointSet models
-- data_structure_and_algorithm/the_disjoint_set/disjset.c, Stack
-- data_structure_and_algorithm/stack/stack.c and Queue data_structure_and_algorithm/queue/queue.c.
-- Sorting.Shell, Sorting.Insertion, Sorting.Merge and Sorting.Heapsort model
-- data_structure_and_algorithm/sort/shellsort.c,
-- data_structure_and_algorithm/sort/insertion_sort.c,
-- data_structure_and_algorithm/sort/mergesort.c and data_structure_and_algorithm/sort/heapsort.c;
-- Clrs, Clrs.Bubble, Clrs.Select, Clrs.Shell, Clrs.MergeSort, Clrs.HeapSort and Clrs.QuickSort
-- model swap, bubblesort, selectsort, insertsort, shellsort, mergesort, heapsort and my_qsort of
-- clrs/sorting.c, Clrs.MaxSubarray clrs/exercises/04.1.3maxsubarray.c, Clrs.Inversions
-- clrs/problems/02.4inversions.c, whose loops are a merge sort's, and Clrs.FindSum
-- clrs/exercises/02.3.7.c, whose main sorts with the mergesort of clrs/sorting.c and then
-- searches. HashSep models data_structure_and_algorithm/hashtable/hashsep/hashsep.c
-- (initializee_table, find, insert) and HashQuad
-- data_structure_and_algorithm/hashtable/hashquad/hashquad.c (initialize_table, find, insert,
-- rehash). LinkedList models data_structure_and_algorithm/list/list.c (IsEmpty, IsLast, Find,
-- FindPrevious, Delete, Insert, DeleteList), and JobQueue apue/11.6.4job_queue.c (queue_init,
-- job_insert, job_append, job_remove, job_find). The children of a module hold its proofs, Base
-- what all share, and Tests runs and instances.
--
-- FooTable models apue/11.6.2avoid_deadlock1.c (foo_alloc, foo_hold, foo_find, foo_rele). Each
-- function also gives the locks that it takes and gives back, in order; foo_rele is two steps,
-- rele_first and rele_second, since it gives the object's lock back between them and another
-- thread may come in. FooTable.Locks has threads as what they hold and what they have still to do,
-- with a step relation in which a lock that is held is not taken, and FooTable.Traces the threads
-- that make calls.
--
-- Database models apue/20db/db.c: Database has the state, Database.Files the system's operations
-- on a file, Database.Text the numbers and strings of the C library, Database.Records the
-- functions _db_readptr, _db_writeptr, _db_readidx, _db_writeidx, _db_readdat and _db_writedat,
-- and Database.Operations _db_hash, _db_find_and_lock, _db_findfree, _db_dodelete, db_fetch,
-- db_store and db_delete, and Database.Scan db_open, db_rewind and db_nextrec. The functions of
-- the interface call those of Database.Records, which call the file operations. A hash chain is a
-- list of records that the index file holds as text.
--
-- The linked list, the queue of jobs and the table of counted objects stand in an explicit memory,
-- a function from addresses to nodes, since the caller keeps positions in it. The operations on
-- the queue of jobs are single steps, because each holds the queue's lock throughout. A tree is a
-- data type: the code never shares a node between two trees, so a pointer is the tree below it,
-- and a function that changes nodes in place returns the new tree. An array is a list, and an
-- access outside it is a fault, as is one through NULL. The Run type tells a value, a fault and
-- the end of the fuel apart, and Yields says that a run ends with a value and what holds of it. An
-- int that is only compared and moved is kept as its place in the order of the ints (its value
-- plus 2^31), a natural number; where the sign matters it is an integer, and a sum outside int,
-- which C leaves undefined, is a fault. Array indices stay below twice the length of an array, so
-- that int does not overflow on them. The success of malloc is an argument. Messages that the code
-- prints are left out.
--
-- The fuel of a loop is a bound on its rounds: an index and one more where the index falls, the
-- length and one more for the search of 02.3.7.c, whose two places approach each other, the length
-- of the stretch and one more for a merge sort and its merges, the size of the two heaps for the
-- merge of leftist heaps, whose proof uses only the length of the right spines, for the disjoint
-- sets an argument that has to exceed the depth of the element, for probing one that has to exceed
-- the number of cells passed, and for the linked list one that has to exceed the number of its
-- nodes behind the header, for job_find the number of jobs, and for foo_find and foo_rele the
-- number of objects in the bucket. The fuel of a search in the database has to exceed the number
-- of records on the chain and on the free list.
--
-- A function that a file calls and does not define is a parameter with the law that the code
-- relies on: swapchildren and isempty of the leftist heap, isfull, isempty and mindata of the
-- binary heap, IsFull of the stack and the queue, hash, nextprime and mintablesize of the hash
-- tables. Where a name is misspelt in the source, the comment of the module says how it is read.
--
-- Not modelled are Insert of binary_search_tree.c, which returns no value although its result is
-- assigned, the binomial queue, the quicksort of data_structure_and_algorithm, the other exercises
-- of clrs, and db_close and _db_free of the database, which only release memory and descriptors.
-- The other programs of apue, network and kernel are input and output through the operating
-- system, and apue/apue.3e is the source distribution of a book.
pub mod Avl
pub mod Base
pub mod BinaryHeap
pub mod Clrs
pub mod Database
pub mod DisjointSet
pub mod FooTable
pub mod HashQuad
pub mod HashSep
pub mod JobQueue
pub mod LeftistHeap
pub mod LinkedList
pub mod Queue
pub mod SearchTree
pub mod Sorting
pub mod Stack
mod Tests
