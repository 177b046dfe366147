-- ===== src/Lib.antt =====
-- The programs of this repository: PMan, a manager of background processes (a1/PMan.c); the
-- airline check-in simulation and a circular queue (a2); diskinfo and disklist, which read FAT-12 disk
-- images (a3).
-- The programs share no code. Each has a module of its own, over the module of shared helpers and that
-- of the C library's functions on text.
--
-- Base: Boolean tests and lemmas on lists and numbers; C's `int` (Base/Ints); `Run`, the result of
--   C code: a value, `fault` for an access that C does not allow (through NULL, to freed memory, outside
--   an array or the mapped file), or `out_of_fuel`.
--
-- Disk: a3/disklist.c and a3/diskinfo.c.
--   Disk/Image: the file that `mmap` maps, `p`, as a size and bytes; a read behind it is a fault.
--   Disk/Fat: `get_FAT_entry` and `get_free_space_FAT_entry`, and where the table lies. Disk/Fat/Packed
--     states how two 12-bit entries lie in three bytes.
--   Disk/Entry: the 32-byte directory entries: which of them are skipped, files or directories, and
--     `print_filename`, `print_subdir_name`, `print_datetime`, `filesize`. What is printed is a list
--     with one constructor for each `printf`. The usable size of each block of `malloc` is a parameter,
--     since the code asks for one byte and stores more; so is the content of the two blocks that
--     diskinfo prints as strings.
--   Disk/Forest: the tree of files and directories that an image shows, as a relation between the image
--     and the tree. It describes the image apart from the functions that count and list.
--   Disk/Info: diskinfo, `main` and all functions that it calls. Disk/Info/Count and Disk/Info/Root
--     relate `parse_sub` and `print_num_of_files` to the tree, Disk/Info/Free counts the free clusters,
--     Disk/Info/Volume is about all that `main` prints.
--   Disk/Listing: disklist, `main` and all functions that it calls. The path block that the recursion
--     shares is passed on and returned. Disk/Listing/Lines and Disk/Listing/Paths say which paths
--     `parse_sub` prints, Disk/Listing/Root which a whole listing has, Disk/Listing/Ends that it comes
--     to an end.
--   Chains of sectors may be circular in an image, and the code then never ends: the loops over chains
--   and the recursion run on fuel. For an image that shows a tree, its depth is enough fuel.
--   Disk/Sample is an image of 80 sectors, Disk/Tests applies the theorems to it.
--   Disk/Signed: a3/diskinfo-2.c, which reads bytes as signed `char`s and counts the files of the root
--     directory alone; Disk/Signed/Agreement compares it with diskinfo.
--
-- Text: `strcmp`, `strtok` with one separator, `strtol` and `atoi` on bytes, as PMan and the check-in
--   simulation use them.
--
-- Pman: a1/PMan.c.
--   Pman/Store: the nodes in memory by address, the global `head`, and `check_pid`, `bglist_entry`,
--     `removeNode` and the insertion of `bg_entry`, with every read and write through a pointer.
--     Pman/Store/Linked says when the store holds a list of jobs. Fuel above the list's length is enough.
--   Pman/Effects: what a command prints and which signals it sends, a list of effects; and what the
--     system answers, with the bytes that a block of `malloc` holds and those behind `argv`.
--   Pman/Stat: `statData`, `statusData` and `pstat_entry`.
--   Pman/Commands: `bg_entry`, `bgsig_entry`, `check_zombieProcess` and a round of `main`, which
--     dispatches the words of a line. `kill`, `fork`, the address from `malloc`, the answers of
--     `waitpid`, and the lines of the files in /proc are parameters.
--     Where the answers of `waitpid` are used up, the model's loop waits: `out_of_fuel`. `main_loop` runs
--     the rounds of a list of lines.
--   Pman/Shell: what the shell promises, on a list of jobs instead of nodes: the commands, what each does
--     to the jobs, a round and a session of many lines. It shares with the model of the code only what
--     touches no memory: the splitting of a line, the files in /proc, the room of copied texts.
--     Pman/Shell/Refines and Pman/Shell/Sessions compare it with `main`.
--
-- RingQueue: a2/customerQueue.h, a bounded queue in an array used in a circle, with its unsigned
--   arithmetic. RingQueue/Order compares any sequence of calls with a bounded list.
--
-- Checkin: a2/A2.c.
--   Checkin/Input: `addCustomertoList` and the loop of `main` that reads the customer file. `atof` is a
--     parameter, and so is the type of its numbers.
--   Checkin/Main: `main` from its argument to the start of the threads, with `createClerkArray` and
--     what `customerArray` holds. Checkin/Main/Starts joins the file, `main` and the threads.
--   Checkin/Queue: `createNode`, `Queue_Enqueue`, `Queue_Dequeue` and `checkHead` on nodes in memory.
--   Checkin/Desk: one class's queue with `queue_length`, `queue_status` and `winner_selected`, and what
--     the threads do to them under the queue's mutex: a customer enters, a customer comes back from the
--     wait, a clerk calls. `Reached` relates the states that any order of these sections leads to;
--     a customer may come back at any time. Both classes run the same sections, but that
--     only business customers clear the status afterwards.
--   Checkin/Threads: `Customer_entry` and `clerk_entry` as threads. The state has both desks, the owners
--     of the queues' mutexes and of `request_queue_mutex`, the counters of customers, and where each
--     thread stands; `customer_entry` and `clerk_entry` are one step of a thread. Checkin/Threads/Runs has
--     the executions: steps in any order, and waits that return early. There may be any number of
--     customers, and there are the clerks 1 to 5. Checkin/Threads/Agreement relates a state to the
--     sections that each desk has seen. Checkin/Threads/Forgotten is about clerks that wait for ever,
--     Checkin/Threads/Served about one customer from the call of its queue until it leaves,
--     Checkin/Threads/Stuck about states in which all threads wait, and Checkin/Threads/Stuck/Lost about
--     a signal between a clerk's test and its wait that leads to one.
--   Checkin/Finish: the whole program from the start of the threads on: the threads, with
--     `get_current_system_time` at each customer's steps and the waiting times that they add up, and
--     `main`, which joins the customers and prints the averages. `double` is a parameter, and the clock
--     may show any time. Checkin/Finish/History reads the visits to the queues off an execution,
--     Checkin/Finish/Joins and Checkin/Finish/Averages are about `main` and the waits.
--     Checkin/Finish/Whole joins the customer file, `main` and the averages.
--
-- Samples: the samples that no program uses.
--   Samples/Mutex: a2/pt_mutex.c, five threads that increment a counter under a mutex, and `main`, in any
--     order of their steps. The loop's 1000000 rounds are the source's. Samples/Mutex/Counting says what
--     the counter is at each moment, Samples/Mutex/Rounds and Samples/Mutex/Completion build a whole run.
--   Samples/Convar: a2/pt_convar.c, a thread that waits for the signal of another. Samples/Convar/Lost
--     is about a signal that is sent before the wait.
--   Samples/Stamp: a3/sample_time_date_print.c, the time stamp of a directory entry.
--   Samples/Arguments: a1/args.c and a1/inf.c, the programs that PMan is tried on.
--   Samples/Clock: a2/sample_gettimeofday.c.
--   Samples/Create: a2/pthread_create.c, ten threads and `main` in any order of their steps.
--     Samples/Create/Serviced says what they print.
--
-- Not modelled: the child of `fork` behind `execvp`, `usleep` and `free` of argument strings; memory that
--   `malloc` cannot give; in a2/A2.c a `pthread_create` or `pthread_join` that fails, and the lines that
--   the threads print; the other samples of system calls (a2/pthread_attr.c, a2/pthread_join.c and
--   a3/mmap_test.c), which no program uses, and of which a2/pthread_join.c prints a variable that
--   nothing sets.
pub mod Base
pub mod Checkin
pub mod Disk
pub mod Pman
pub mod RingQueue
pub mod Samples
pub mod Text
