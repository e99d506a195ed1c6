-- ===== src/Lib.antt =====
-- C programs of the notes, modelled function by function.
--
-- Base holds what all parts share: lists, strings and integers over the native numbers, Boolean
-- tests, the linear search that the C code writes as a loop with an early return, and counting in
-- lists.
--
-- Bbcp models APUE/homework/hw1/bbcp.c, which copies a file.
--   Bbcp/Main        main() over the calls of the system, a record of functions on a type World of
--                    states of the outside
--   Bbcp/Laws        what is relied on of the calls that copy: what is left to read, what the target
--                    holds, and whether both are one file
--   Bbcp/Copied, Bbcp/Endless
--                    proofs; Bbcp/Tests: a disk that obeys the laws
-- The loop takes fuel, one round for each byte of the source and one more being enough for two files.
--
-- Dtree models The-Linux-Programming-Interface/tlpi-dist/inotify/inotify_dtree.c, a program that
-- keeps a cache of the directories below some roots in step with the file system by inotify events.
--   Dtree/Paths      pathnames as lists of bytes; strcmp(), strncmp(), strncpy() and snprintf() as the
--                    program uses them
--   Dtree/Kernel     what the program calls and the repository does not hold: system calls, nftw(),
--                    sscanf(), atoi(), allocation, the constants of <limits.h>. A record over a
--                    type World of states of the outside, which any call may change; its laws, where
--                    a theorem needs one (PATH_MAX at least 2, a size above 0), are hypotheses
--   Dtree/State      the globals as a record, and a monad in which a call returns, ends the process,
--                    aborts, or reads or writes what C leaves undefined
--   Dtree/Cache      struct watch and the array wlCache: find_watch is findWatch(), find_free and resize
--                    are the parts of findEmptyCacheSlot(), pathname_to_cache_slot is
--                    pathnameToCacheSlot(); and the map from descriptors to pathnames that it
--                    stands for
--   Dtree/Slots      the functions on the cache that call out or end the process
--   Dtree/Roots      rootDirPaths: copyRootDirPaths(), findRootDirPath(), zapRootDirPath()
--   Dtree/Subtree    traverseTree(), watchDir(), rewriteCachedPaths(), zapSubtree(), reinitialize()
--   Dtree/Events     processNextInotifyEvent(): branch_of is the ladder of tests on the mask, and each
--                    branch is a definition of its own
--   Dtree/Reader     processInotifyEvents(): the buffer is the list of its events with the number of
--                    bytes left in it
--   Dtree/Commands   executeCommand(); Dtree/Main: the options and main()
--   Dtree/Invariant, Dtree/Counter, Dtree/Consumed, Dtree/Progress, Dtree/Ending, Dtree/Refine,
--   Dtree/Check, Dtree/Rebuild
--                    proofs; Dtree/Tests: a small file system and instances on it
--
-- Ints that are used as -1 or an index are options; watch descriptors are integers. A read of the
-- slot evCacheSlot before it is assigned, of `arg` where sscanf() converted none, of `sb` before
-- the first lstat(), or through a stream or array that was not obtained, and a read() of more bytes
-- into `buf` than it has, which a large argument of the option -b allows, is the outcome
-- `undefined`, of which the theorems say nothing. A string that strncpy() cuts at PATH_MAX has no NUL in C; the model ends it there,
-- as the program's own list of limitations excludes such pathnames. A file that nftw() reports is
-- taken from the world at the start of the traversal. The loop over the events of a buffer takes
-- fuel, one round for each event being enough where no second read() is made; main()'s endless loop
-- is the family of its first rounds.
--
-- Sockets models the routines of The-Linux-Programming-Interface/tlpi-dist/sockets that read and
-- write on when a call is interrupted or does only a part.
--   Sockets/Reading  readn() of rdwrn.c and readLine() of read_line.c, over a read() that is a parameter
--   Sockets/Writing  writen() of rdwrn.c; Sockets/LineBuffer: readLineBuf() of read_line_buf.c
--   Sockets/Stream   what the theorems rely on of read(), as a record of laws with counts of the
--                    calls that have failed or been interrupted, and what a line is
--   Sockets/Exactly, Sockets/Whole, Sockets/Line, Sockets/BytesLeft,
--   Sockets/Buffered
--                    proofs; Sockets/Tests: a pipe that obeys the laws
--
-- A loop takes fuel and gives `none` without enough of it; the theorems say how much is enough, one
-- round for each byte, each interruption and one more, and prove that there is a result then. A
-- count of -1 is an absent count; errno is not modelled. Sizes are natural numbers without a bound:
-- they are at most the size of a buffer in memory.
--
-- Randtree models The-Linux-Programming-Interface/tlpi-dist/inotify/rand_dtree.c, which makes, removes
-- and renames directories at random.
--   Randtree/Names   strstr(), strrchr() and the counting of slashes as the program uses them
--   Randtree/Rounds  the loop of main(): what it does to the tree is the list of its calls of mkdir(),
--                    rmdir() and rename()
--   Randtree/Marked, Randtree/Kept, Randtree/Swept
--                    proofs; Randtree/Tests: a tree with one directory
-- nftw(), random() and the calls on the tree are parameters. Division by zero and a null pointer are
-- the outcome `undefined`. The inner loop of the case 'c' has fuel, DLIM + 1 rounds being enough.
--
-- Seqnum models The-Linux-Programming-Interface/tlpi-dist/sockets/is_seqnum_sv.c, whose clients ask for
-- sequence numbers: Seqnum/Server is the loop of main() over its clients, each served through
-- read_line of Sockets/Reading; Seqnum/Request and Seqnum/Distinct hold proofs, Seqnum/Tests two
-- clients. accept(), write(), close(), atoi() and the conversion of printf() are parameters.
-- readLine() has the same fuel for each client.
--
-- Ls models APUE/apue-code/05/make-examples, the program ls; its files are ls.c, cmp.c, print.c,
-- util.c and stat_flags.c.
--   Ls/Options       the switch of ls_main() on a letter; Ls/Choices: what the letters decide on
--   Ls/Compare       the ten functions of cmp.c, the choice of one in ls_main(), and mastercmp()
--   Ls/Escape        util.c: printwc(), printescaped() and safe_print()
--   Ls/Listed        a file as printing reads it, the DISPLAY of ls.h, printaname() and printtotal()
--   Ls/Columns       printscol(), printcol(), printacol() and printstream()
--   Ls/Long          printlong(), printtime() and printlink()
--   Ls/Measure       the loop of display(): which files are printed, and the widths of the fields
--   Ls/Show          display() and traverse(); Ls/Main: the rest of ls_main()
--   Ls/Flags         flags_to_string() and string_to_flags() of stat_flags.c
--   Ls/Keys, Ls/Order, Ls/Master, Ls/FlagWords, Ls/FlagTrip, Ls/Layout, Ls/Rows, Ls/Sheet, Ls/Texts,
--   Ls/Counted, Ls/Width, Ls/Tally, Ls/Endings, Ls/Traversed
--                    proofs; Ls/Tests, Ls/Listings: instances
-- A record Locale has the multibyte functions of the C library, strvis(), humanize_number(),
-- printf() with commas, and the names of users and groups; Outside has strmode(), ctime(),
-- readlink() and the time; a Traversal has fts_read() and fts_set(); Surroundings has what
-- ls_main() asks of its environment. A text is a list of bytes, and what a function prints comes
-- with the number that it returns. A read outside the table of printcol() is `none`.
-- printescaped()'s loop has as much fuel as there are bytes; the loop of traverse() takes
-- a round for each read of fts. Messages to stderr are left out, and the exits where malloc() or
-- humanize_number() fails. Sums of blocks and of sizes are taken modulo 2^64. Of strcmp() only the
-- sign is fixed; the model takes 1 and -1. Whether fts_level is FTS_ROOTLEVEL is a Boolean of the
-- entry. A word of file flags is the function of its named bits; strsep() is the list of the
-- tokens; strlcat() never cuts, as the names of all flags take 42 of the 128 bytes.
--
-- Timers models The-Linux-Programming-Interface/tlpi-dist/timers/itimerspec_from_str.c:
-- Timers/Setting is itimerspecFromStr(), with atoi() as a parameter and strchr() as the cutting of
-- a list; Timers/Written holds the proof, Timers/Tests an instance.
--
-- Semaphores models The-Linux-Programming-Interface/tlpi-dist/svsem/binary_sems.c:
-- Semaphores/Binary has its functions over semop() and semctl(), which are parameters;
-- Semaphores/Counting the laws of semop() and proofs, Semaphores/Tests a set of semaphores that
-- obeys them. The laws speak of the units that this process holds, as other processes may change the
-- values while semop() waits; that it returns at all is assumed. reserveSem()'s loop takes fuel, a round for each interruption and one more.
--
-- Transfer models svshm_xfr_writer.c and svshm_xfr_reader.c of
-- The-Linux-Programming-Interface/tlpi-dist/svshm, which pass a stream through shared memory:
-- Transfer/System has both programs as a step relation, where a step is one call or test of one of
-- them; Transfer/Invariant and Transfer/Progress the proofs, Transfer/Tests runs. Signals, which
-- the binary semaphores restart, and the creation and removal of the memory and the semaphores are
-- left out. The counters are natural numbers, which the ints of the programs equal on inputs of less
-- than 2^31 bytes.
--
-- Messages models svmsg_file_server.c and svmsg_file_client.c of
-- The-Linux-Programming-Interface/tlpi-dist/svmsg: clients ask a server for files, and a child of the
-- server sends each its file in pieces over a message queue of its own.
--   Messages/Serving the step relations of a client, of the child that serves it, and of the whole
--   Messages/Fair    what holds of a client and its child; Messages/Shared: of all together
--   Messages/Delivered, Messages/Waiting, Messages/Spent
--                    proofs; Messages/Tests: a run
-- A step is one system call with the assignments up to the next. The Boolean `faults` says whether
-- calls may fail for reasons of their own; `room` says whether the queue of a client takes one more
-- message, and the server's always does. What open() finds is fixed for each client. read() may
-- return any piece that is not empty and that fits. No one else writes to the queues.
--
-- Threads models two programs of The-Linux-Programming-Interface/tlpi-dist/threads.
--   Threads/Joining  thread_multijoin.c: threads that announce their end, and main(), which joins them
--   Threads/Producing
--                    prod_condvar.c: threads that produce units, and main(), which consumes them
--   Threads/Joined, Threads/Ended, Threads/Bounded, Threads/Produced, Threads/Consumed,
--   Threads/Supplied
--                    proofs; Threads/Tests: runs
-- Each is a step relation on its variables, its mutex and the places of its threads, in which any
-- thread may take the next step. A step is one call or one test; the assignments between two calls
-- that only the holder of the mutex makes are one step. pthread_cond_wait() gives up the mutex as
-- it falls asleep, may wake up for no reason, and takes the mutex again as a step of its own; a
-- signal wakes main() if it sleeps and is lost if not. No call fails.
-- The ints of prod_condvar.c are natural numbers: arguments are taken as not negative, and the ints
-- equal these numbers where the arguments add up to less than 2^31.
--
-- Acl models The-Linux-Programming-Interface/tlpi-dist/acl/acl_update.c.
--   Acl/Parse        parseEntrySpec() and parseACL(), over the two functions that look up names
--   Acl/Calls        libacl as a record over a type World, which any call may change and in which any may
--                    fail, and how a part of the program ends
--   Acl/Update       findEntry(), setPerms() and updateACL(); Acl/Main: main()
--   Acl/Specs, Acl/Written, Acl/Bounds, Acl/Defined, Acl/Safe
--                    proofs; Acl/Tests: instances
-- The null bytes that the parser writes are the cutting of a list, in Base/Strings. Permissions
-- that parseEntrySpec() leaves unset are absent, and setting them is the outcome `undefined`.
-- findEntry()'s loop takes fuel, and ends in `running` without enough of it: how many entries a
-- list has is libacl's.
--
-- Not modelled: messages to the terminal and the log, the handler of SIGALRM, which does nothing,
-- and the installing of it. The programs of the repository that only demonstrate system calls, the
-- copies of the book's library, and the code in other languages are left out.
pub mod Base
pub mod Acl
pub mod Bbcp
pub mod Dtree
pub mod Ls
pub mod Messages
pub mod Randtree
pub mod Semaphores
pub mod Seqnum
pub mod Sockets
pub mod Threads
pub mod Timers
pub mod Transfer
