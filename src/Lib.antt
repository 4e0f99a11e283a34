-- ===== src/Lib.antt =====
-- The user-level thread library (threads/), the free maps, files and inodes of the file system (fs/), the
-- request buffer of the web server (webserver/), and the sorted points and the word count of warmup/.
--
-- The thread library keeps a table of 1024 threads and a ready queue that is threaded through the
-- table by the links `next_ready`; -1 ends it. Interrupts are off while an operation runs, so that the
-- operations are atomic and each is a function from the state to a state with what it returns.
--   Thread: the table, the constants and what a call ends with (threads/thread.c, threads/thread.h).
--   Thread/Context: clean_exit_array, thread_init, thread_id, the context switch and thread_stub.
--   Thread/Create, Yield, Kill: thread_create, thread_yield and thread_exit, thread_kill.
--   Thread/Wait: wait queues with thread_sleep and thread_wakeup.
--   Thread/Lock: locks and condition variables, built on the wait queues.
--   Thread/View: the abstract view of the ready queue, a list, and what each operation is to do with it.
--   Thread/Links, Pick, Choose, Refine, Exit, Slots, Killed, Sleep, Wake, Clean, Locking: the proofs.
-- A call that switches to another thread ends with `switched`; what runs then is `resume` of the new
-- current thread. An index outside the table is a `fault`, and a search whose links go round `spins`.
-- The searches run on fuel for one round more than there are threads, which is enough for a queue of
-- distinct threads; so is the fuel of the loop that wakes every waiting thread.
-- A thread's program and its registers but for the stack pointer are not modelled, and `malloc` is a
-- parameter of each call that allocates. Printing is left out, as are the timer and signals of
-- threads/interrupt.c, of which only the flag that turns interrupts on and off is kept.
--
-- The bitmaps are arrays of bytes with a bit for each block or inode.
--   Fs/Bitmap: the operations of fs/bitmap.c; a failed assertion is a result of its own.
--   Fs/Bitmap/Words, Bits, Alloc, Count, Make: a byte's laws and what the operations do bit by bit.
-- Their loops are bounded by the sizes that the code counts up to.
--
-- The file system keeps a bitmap of the data blocks in memory and writes each change to the device.
--   Fs/Device: reading and writing whole blocks (fs/block.c), on a device of bytes.
--   Fs/Super: allocation and release of blocks and inodes (fs/super.c). How the compiler lays the super
--     block out is a parameter.
--   Fs/Super/Blocks: proofs on the map on the device and on the count of used blocks.
--   Fs/Mount: making a file system (fs/mktestfs.c) and opening and closing it (fs/super.c). Reading the super
--     block out of its block is a parameter, like its layout.
--   Fs/Mount/Makes, Reopens: proofs on a new file system and on one that was closed.
--
-- A file is a tree of blocks: ten in the inode, 2048 behind an indirect block and 2048 times 2048 behind
-- a doubly indirect one.
--   Fs/Inode: the inode on the device (fs/inode.h) and the numbers in a block, the lowest byte first.
--   Fs/Read: testfs_read_block (fs/read_write.c).
--   Fs/Read/Addresses: where the tree has each logical block.
--   Fs/Read/Data: testfs_read_data. Fs/Read/Data/Rounds, Steps, Bytes: its loop, and the bytes that it
--     reads. The fuel is one round more than the blocks that the size spans.
--   Fs/File: how a file gets and gives back a block (fs/inode.c); a failed assertion ends the program.
--   Fs/Allocate: testfs_allocate_block (fs/read_write.c), which adds a block to the tree.
--   Fs/Device/Writes, Fs/Inode/Numbers, Fs/File/Gains, Frees: what a write, a number that is stored, and a
--     block that is gained or lost change.
--   Fs/Allocate/Slots, Tree: the invariant of a file. Direct, Indirect, Layers, Thirds, Doubly and
--     Failures follow the code through the layers, and Adds has the whole.
--   Fs/Write: testfs_write_data (fs/read_write.c). Fs/Write/Rounds: its loop; the fuel is one round more
--     than the blocks of the size.
--
-- The inodes in memory stand in a hash table with their reference counts, and are written back when
-- dirty. A `struct dinode` is taken to have 64 bytes, its members in order.
--   Fs/Inodes: the table, and testfs_get_inode, testfs_sync_inode, testfs_put_inode and
--     testfs_create_inode (fs/inode.c). The hash is a parameter, and the chains of fs/list.h are lists; an
--     inode in memory is named by its number.
--   Fs/Free: testfs_free_blocks (fs/read_write.c) and testfs_remove_inode (fs/inode.c). Fs/Free/Direct,
--     Blocks: a file without indirect blocks.
--   Fs/Inodes/Chains, Encoding, Table, Sync, Create: the chains, the inode as bytes, and the abstract
--     table.
--
-- The web server's main thread puts connections into a ring buffer, from which the workers take them.
--   Webserver/Buffer: a round of server_request and of thread_init (webserver/server_thread.c), each with
--     the lock held; a round that waits on a condition variable says so.
--   Webserver/Buffer/Refine: proofs on the ring buffer as a queue.
--   Webserver/Workers: the interleavings of the rounds as a step relation, with the threads that wait.
--   Webserver/Workers/Order: proofs on the order of the connections and on the threads that wait.
--
-- The cache of the web server is a hash table of files with a list of its entries, from the one that was
-- not used for longest to the last one. The threads look a file up, take a reference while they send it,
-- and put it into the cache when they have read it themselves.
--   Webserver/Cache: cache_lookup with set_LRU, hashtable_insert and evict_LRU_hash
--     (webserver/server_thread.c). A use of freed memory or of NULL is a result of its own.
--   Webserver/Cache/Names, Rows, Evict, Insert: the list, a row, and what the calls do.
--   Webserver/Requests: do_server_request, whose parts with the lock held are steps of any number of
--     threads. The sockets and the files themselves belong to webserver/request.c: which file a thread asks
--     for and what it reads is open.
--   Webserver/Requests/References, Counts, Stored, Kept: the reference counts over all orders of the steps.
--   Webserver/Requests/Race: an order of the steps in which a file is lost between two of them.
--
-- The sorted points are a linked list behind a dummy node, here the list of its points.
--   Warmup/Points: warmup/sorted_points.c and point_compare of warmup/point.c. The type double is a
--     parameter with its comparisons, `+`, `*` and sqrt.
--   Warmup/Points/Order, Remove, Duplicates: insertion, removal, and the deletion of duplicates.
--
-- The word count parses a text into words and counts them in a hash table of 2 ^ 24 entries, each with
-- the nodes behind it.
--   Warmup/Words: parse_string, wc_init and wc_output (warmup/wc.c). A text is the list of its bytes; what
--     `malloc` leaves in the table is a parameter. The fuel is one round more than the text has bytes.
--   Warmup/Words/Hash: stringToHash with lookup3; the fuel is one round more than the length has dozens.
--   Warmup/Words/Hash/Bytes: what lookup3 reads and returns.
--   Warmup/Words/Parse, Chains, Counts, Loop: the words of a text, an entry, the table, the whole.
--
-- Not modelled: the directories (fs/dir.c), which stand on the reading and writing of files; the shell of the
-- file system, which parses commands and prints; the requests and clients of the web server, which are calls of
-- the sockets of the operating system.
pub mod Common
pub mod Thread
pub mod Tests
pub mod Fs
pub mod Webserver
pub mod Warmup
