-- ===== src/Lib.antt =====
-- The programs of an operating systems course: three filters, a shell, a simulator of scheduling
-- policies, a bounded buffer of a producer and a consumer, a lock for readers and writers, two request
-- queues of a web server, a demand-paged virtual memory with its disk, and a file system on a disk
-- emulator. They are separate programs; what they share is in Common.
--
-- Common
--   Lists has C arrays as lists, Int the signed integers over native numbers, Tests the Boolean tests,
--   Family the per-thread states of a program with any number of threads and the weights summed over
--   them, Calls the ways in which a C call ends (Outcome).
--
-- VirtualMemory: Assignment6/vm_assignment
--   PageTable      page_table.c, page_table.h: the table, page_table_create, page_table_set_entry,
--                  page_table_get_entry, internal_fault_handler
--   Handler        main.c: page_fault_handler with its three policies (rand, fifo, custom), and the
--                  start of main
--   Access         a program as the list of the addresses that it touches, with what lrand48 would give
--                  at each; touch and run
--   Disk           disk.c: disk_open, disk_read, disk_write; the handler does not call them
--   Replacement, Service, SecondChance, Runs, Comparison, Fifo
--                  the proofs; Fifo has the abstract FIFO policy, a queue of pages
--   The hardware, mmap, mprotect and the signal are read as follows: an access to a page that has
--   permission bits goes on; any other calls internal_fault_handler with its address. The handler gives a
--   page both rights at once. The loop of the custom policy has the rounds of the code, twice the number
--   of frames, and ends before they run out.
--
-- FileSystem: Assignment7/lab7
--   Block             include/sfs/fs.h: the union Block as its 4096 bytes, its words (the machine stores the
--                     low byte first), the superblock and the inodes
--   Emulator          library/disk.cpp, include/sfs/disk.h: the disk as its blocks with the counters of
--                     reads, writes and mounts; open, sanity_check, read, write, mount, unmount
--   State             the members of the class FileSystem, load_inode, save_inode, allocate_free_block
--   Format            library/fs.cpp: format and mount
--   Operations        create, remove and stat
--   Transfer, Writing read and write
--   Debug             debug, as the lines that it prints
--   Commands          shell/sfssh.cpp: copyin and copyout, on files of the host that are given by their
--                     bytes; the number of rounds that their loops may make is an argument, and the theorem
--                     on them holds from two rounds on
--   Console           shell/sfssh.cpp: the command functions, and what the loop of main does with a line
--   Layout, Table, Formatting, Mounting, Creation, Removal, Allocation, Reading, ReadFile, Owning,
--   WriteRound, WriteLoop, WriteEnd, WriteSettle, WriteFile, ReadBack, CopyBack, Consistency, Same,
--   Emptied, Calls, Sequences
--                     the proofs; those on write are for its first five blocks, which need no indirect block.
--                     Calls has the calls of a client as steps, each from the state that the one before
--                     left, and Sequences the states that they reach
--   The one disk stands in the state of the file system. Its calls of the system succeed. An exception of
--   sanity_check is caught nowhere and ends the process (aborts); an access outside free_bitmap, outside
--   a block of pointers or to a block that was not filled is the outcome undefined. The loops run on the
--   rounds that are left of their bounds. The loop of read runs on one round more than the bytes asked
--   for, which is enough since each round moves a byte at least. format and mount work out a tenth of the
--   number of blocks in floating point; the whole numbers here agree with it for up to 2^24 blocks, and
--   the theorem on them asks for no more.
--
-- ProducerConsumer: Assignment4/ProCon.c
--   ProducerConsumer  struct prodcons, init, the tests and the effects of put and get
--   Contents          the buffer as a queue
--   Threads           put, get, producer and consumer as a step relation: a step is what a thread does
--                     between two points where another thread may run. A wait gives up the mutex; a
--                     signal makes the waiting thread ready; a wait may also return with no signal.
--   Safety, Progress  the proofs
--
-- ReadersWriters: Assignment4/ReaWri.c
--   ReadersWriters    rwl, initlock, and readlock, readunlock, writelock, writeunlock, reader, writer as
--                     a step relation over any number of threads
--   Counting, Exclusion, Sleepers, Wakeups, Progress
--                     the proofs
--
-- RequestPool: Assignment5/web_server/webserver_pool.c, scheduling mode FCFS
--   RequestPool       the ring of requests, main and workerThreads as a step relation over any number of
--                     workers; a request is a number, and what tcp.c and request.c do with it is no step
--   Ring, Order, Sleep
--                     the proofs
--
-- Scheduler: Assignment3/scheduler.c
--   Scheduler         the table and its sort; Sort and Totals have the proofs about it
--   Fcfs              FCFS, with first come, first served as an abstract policy
--   Srbf              SRBF: the loop (srbf_step, srbf_loop), the final loop (set_waits) and the whole
--                     (srbf); Loop, Inv, Rounds and Completes have the proofs
--   RoundRobin        RR: the loop (rr_step, rr_loop) and the whole (rr); Turns, FirstLap, Ends and
--                     Waiting have the proofs
--   The loop of SRBF runs on as much fuel as the sum of the bursts and the number of processes together,
--   which is enough whenever the sum is not negative. The loop of RR takes its fuel as an argument, since
--   it does not always end. An access outside an array is the outcome undefined.
--
-- Shell: Assignment2/shell4.c
--   Shell             strsep, parseCmd and pipeParser
--   Builtin           ownCmd, execute1 and executeBack, up to the call of execvp, with their proofs
--   Controller        checkSymExecute, sColParser and a round of the loop of controller: what it asks of the
--                     system, and whether the shell then goes on, has called exit, has done what is undefined
--                     or never goes on; whether a call of wait returns is a parameter
--   Words, Arguments, Lines
--                     the proofs
--   The loop of parseCmd takes a place or a piece of the line in each round, which bounds it.
--
-- RequestQueue: Assignment5/web_server/Meg(Sanit).c
--   RequestQueue      the linked list of struct node as a chain, enqueue, remove_fcfs, a round of the loop of
--                     remove_sff and the guard of main; whether strstr finds "thumb" is a parameter
--   Steps             main and worker under the mutex in mode FCFS
--   Sff               main and worker in mode SFF: a worker keeps the mutex from round to round; Round and
--                     Order have the proofs
--
-- Filters: Assignment1/Ques1.c, Ques2.c, Ques3.c
--   Filters           the loops of the three programs; Case, Count and Echo have the proofs. swap_text is
--                     applied to the bytes that the one call of read gives.
--
-- Integers are unbounded where the code computes with small counts. The fault address is reduced to 32
-- bits as in the code, and the file system keeps the width of its words, sizes and block numbers.
--
-- Not modelled: Assignment1/Ques4.c and Ques5.c (pipelines of processes), what the processes of the
-- shell do, the other shell of Assignment2, PrintStats and the menu of Assignment3, the requests and files
-- of the web server, the connections of tcp.c (a copied library), mode SFF of the thread pool, and the test
-- programs of Assignment6. Output other than that of the file system and its shell, delays and the release
-- of memory have no model.
pub mod Common
pub mod FileSystem
pub mod Filters
pub mod VirtualMemory
pub mod ProducerConsumer
pub mod ReadersWriters
pub mod RequestPool
pub mod RequestQueue
pub mod Scheduler
pub mod Shell
