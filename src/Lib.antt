-- ===== src/Lib.antt =====
-- logstats: the server that counts the names, addresses, result codes and record types of a DNS
-- query log and answers with the most frequent ones.
--
-- The program. A house keeper (src/log_topn.c) reads lines of a log and hands each to the view that
-- the line names (src/log_view_tree.c); the view (src/log_view_stats.c) counts the result code and
-- the record type and puts the queried name and the client's address into a name tree each
-- (src/log_name_tree.c). A name tree shares the nodes of its names between a red-black tree, an
-- array heap of the names seen most often (src/log_heap.c), a doubly linked list in the order of last
-- use (src/zip_lru_list.c) and two memory pools (src/dig_mem_pool.c). A reply for the top n names copies
-- the heap, sorts the copy and takes its first entries.
--
-- The files, with the code that they model:
--   Base          numbers, lists and tests that the other files share
--   Heap          src/log_heap.c and .h: one function for each of its functions, over any type of
--                 elements and any memory that the callbacks read and write; sift_up is the loop of
--                 heap_insert, sift_down the loop that heap_delete, heap_sort, heap_adjust_siftdown and
--                 heap_replace_least share
--   Lru           src/zip_lru_list.c on a memory of nodes by address; an access through a pointer to no
--                 node, and a failed ASSERT, is the outcome `none`
--   MemPool       src/dig_mem_pool.c on the words at each address
--   NameTree      src/log_name_tree.c: the state is the tree's record with the memories it works on;
--                 NameTree/Tree is what it relies on of the search tree, NameTree/Closest the search for
--                 the closest name;
--                 NameTree/Create holds the creation, the end and the size of a tree
--   ViewStats     src/log_view_stats.c: tables, counters and replies; ViewStats/View is the view with its
--                 two trees, and ViewStats/Memory view_stats_set_memsize with its two loops
--   ViewTree      src/log_view_tree.c: the views by name, and the statistics that are allocated for them
--   LogLine       handle_string_log of src/log_topn.c: the words of a line and the calls of log_handle
--   HouseKeeper   the rest of src/log_topn.c: log_handle, a round of qps_thread, creation and end;
--                 HouseKeeper/Requests has the requests that socket_thread serves, HouseKeeper/Session the
--                 thread itself with the frames around them, and HouseKeeper/Steps the state machine
--   Main          src/main.c: the loop that follows the log, with a writer that appends to the file and
--                 replaces it between the program's calls. The theorems that no line is lost exclude runs
--                 that can lose lines: a replacement between fopen or an end of file and the lstat behind it, one
--                 by a file that is not empty or has the same inode, writes to the replaced file, lines by
--                 halves or of more than 1023 bytes, and a stream that stays at the end of file
--   Config        src/log_utils.c: the configuration file, strip and rev_find_str
--   Socket        socket_read and socket_write of src/zip_socket.c on a stream, against the answers of the
--                 kernel
--   Addr          src/zip_addr.c, on a little-endian machine
--   Tests         concrete runs
--
-- Machine integers. Counters of 32 bits wrap (`% 2 ^ 32`) where the code adds to them. The indices
-- of a heap are below 10000, so that `2 * i + 1` does not overflow an `int`.
--
-- Loops on fuel. sift_down is started with the length of the array, and each round at least
-- doubles the free position; sift_up is started with one more than the free position, and each
-- round at least halves it; the loops of view_stats_set_memsize and view_tree_set_memsize are
-- given one round more than their list has nodes, and each round removes one; the loops of name_tree_destroy
-- over chunks have one round more than the pools have elements, and no chunk is without an element; the loop over the
-- words of a line has the 20 rounds of the source; the search for the closest name has one round
-- more than the name has bytes, and each round but that from a name of one part to the root
-- shortens it by a part; destroy_loop is started with one more than the list's count. The loop of
-- socket_thread has one round more than the client has requests. The loop of src/main.c has no end; its
-- steps are counted. The loop of lru_list_search need not end, so that its fuel is an argument.
--
-- Parameters. malloc's results are arguments, with 0 or `none` for NULL. The red-black tree of
-- src/dig_rb_tree.c is a copy of a library's, and stands as the record SearchTree of operations and
-- laws. inet_pton, inet_ntop, atoi and the conversions of printf are records of functions, with the laws
-- that a theorem needs among its hypotheses; the answers of read and write are lists. The packing and unpacking
-- of messages, which protobuf-c generates, is the record Wire. Whether a stream stays at the end of file that
-- it has met is the argument `sticky` of Main.
--
-- Memory. The elements of a pool are words for the pool and nodes for the name tree: mem_pool_free writes its
-- link into both, over the first bytes of the name of a node that it takes back. Elements that were never
-- a node are words only. That the elements of a chunk fit into it is not checked, as in the source.
--
-- Not modelled. The mutex around a pool and around the house keeper: every operation runs with the
-- lock held, and is one step. Printing, the start of threads, the other system calls on sockets, signals,
-- the radix tree, the string list, the packing of a message, and the arguments of the program. A file whose
-- path is a symbolic link, and errors of reading it, are outside Main.
pub mod Addr
pub mod Base
pub mod Config
pub mod Heap
pub mod HouseKeeper
pub mod LogLine
pub mod Lru
pub mod Main
pub mod MemPool
pub mod NameTree
pub mod Socket
pub mod Tests
pub mod ViewStats
pub mod ViewTree
