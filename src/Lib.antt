-- ===== src/Lib.antt =====
-- Verification of the C programs of this repository: two operating system kernels, a transport protocol, a
-- shell's job control, a cache simulator, a library of sorts, a transpose and a set of bit puzzles; and of
-- its disjoint sets and its regular expressions in C++. Paths below are from the repository's root.
--
-- Miniproc is OS/WeensyOS/MiniprocOS, a kernel with cooperative processes. Machine holds the process
-- table, Memory the bytes of physical memory and `memcpy`, Schedule `schedule`, Fork `do_fork`,
-- `copy_stack` and `do_newthread`, Interrupt the handler with one function per system call, and Boot
-- `start`. The kernel never returns from a handler: its result is the process that runs next, or a loop
-- that does nothing. The loop of `schedule` gets 16 rounds, one for each descriptor; then it has
-- looked at each of them, and the table has not changed. The program loader is a parameter. Invariant, Slots,
-- Children, Wake, Exit, Kill and Resume hold the proofs.
--
-- Srt is Networks/DartNet/SRT. Framing is common/seg.c: segments between marks in a byte stream, where
-- send(2), recv(2) and rand(3) are parameters. Tcb is common/list.h: the doubly linked lists of connection
-- blocks on an explicit store, with NULL as `none`. Client and Server are client/srt_client.c and
-- server/srt_server.c: the socket calls, and the handler that a second thread runs on every segment that
-- arrives. What the handler receives in a round of `try_send`, before the state is written and in the
-- sleep, is an explicit list of segments, and so is what it receives between two reads of the state in
-- accept; a round of the handler is one step. An index outside the table of ports, a failed assertion and
-- a dereferenced NULL are results of the model.
--
-- Shell is C/CSAPPLab/shell/tsh.c. Jobs is the job list, Control the commands fg and bg, the wait for the
-- foreground job and the handler of SIGCHLD, whose reports of waitpid(2) are explicit lists. Command is
-- the parsing of a command line; its loop gets as many rounds as the line has characters, and each round
-- takes one or more.
--
-- Cache is C/CSAPPLab/cache/csim.c. The lines of a set are nodes on a heap, with NULL as `none`; Init
-- builds the sets from the results of malloc(3), and Lru is the specification: for each set the tags in
-- the order of their last use. Chain and Lru.Moves follow the list operations, Lru.Serve an access,
-- Lru.Trace the trace, Init.World the whole program, and Init.Hits compares sets of different sizes. The
-- search of a set gets one round more than the set has lines. fgets and sscanf are left out, a trace is a
-- list of accesses. From 31 set bits on the shift 1 << bits_sets of an int is undefined, and the run has no
-- result. The other sizes are numbers, and the counters do not wrap.
--
-- Memos is OS/WeensyOS/MemOS. Paging has the page tables of x86.h and k-hardware.c in a physical memory of
-- pages of words, Pages the table of page owners of kernel.c, and Kernel its processes, fork and the
-- scheduler, and Handler the system calls and the exception handler. Both fields of a page's entry are
-- bytes. The kernel ends in a process that runs, in the search for one, or in a panic. Pages.Counting
-- counts the free pages and those that a fork takes. Kernel.Forking, Copying, Fork, Steps and Child follow a
-- fork through its loop over the user's pages, Handler.Exiting an exit and Handler.Alloc a request for a
-- page. The checks of set_pagetable, which compare addresses of the linker, the loader, the console and the
-- set-up of the hardware are left out.
--
-- Sort is Algorithm/Sort/sort.h, on an array of any elements with a comparison that is a parameter: the
-- insertion sort in Sort itself, and a module each for the quick, the heap and the introspective sort.
-- Order has the lists that the array is compared with, and Moves what a sort of a part of the array may
-- change. Quick.Sides and Quick.Partition follow the three-way partition, whose loop gets one round for
-- each element, Heap.Chil, Heap.Sink and Heap.Build the heap, whose loops get a round more than it has
-- elements, and Heap.Taken its removal. The recursion of the quick sort gets as many units of fuel as the
-- part has elements, and that of the introspective sort goes on the depth that is left. heap_sort builds
-- a heap of 11 ints whatever the size of its elements is, so for elements of another size it has no result.
--
-- UnionFind is Algorithm/UnionFind/UnionFind.hpp. Roots is the root of an element as a relation, Compress
-- the shortening of paths, Twice and Link the two halves of connect. The recursion of root gets the sum of
-- the weights as fuel: a parent weighs more than its child.
--
-- Regex is PL/Regex: the tree of AST.hpp, and the visitors of Derivative.hpp as functions on it. Language is
-- the language of a tree, Engine and Search are DerivativeEngine.hpp.
--
-- Transpose is C/CSAPPLab/cache/trans.c, on matrices as memory, one row after the other.
--
-- Bits is C/CSAPPLab/bits/bits.c. Word has the C operators on 32-bit words, Integer and Float the puzzles,
-- Signs and Division the proofs against integer arithmetic, Digits the C operators from the lowest digit on
-- and Logic the puzzles that build one operator from others. The loop of float_i2f gets 32 rounds, as many
-- as a word has bits.
--
-- Not modelled: C/CSAPPLab/malloclab/mm.c, which holds unresolved merge conflicts; the lab handouts, drivers
-- and binaries; the proxy and the network demonstrations, which are calls of the system; the parser and the
-- automaton of PL/Regex, the containers of Algorithm and the other programs in C++; and those in Python,
-- Scheme and shell. Printing, sleeping and the creation of threads and processes are left out everywhere.
pub mod Prelude
pub mod Miniproc
pub mod Srt
pub mod Shell
pub mod Bits
pub mod Cache
pub mod Transpose
pub mod UnionFind
pub mod Memos
pub mod Regex
pub mod Sort
