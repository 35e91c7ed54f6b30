-- ===== src/Lib.antt =====
-- Verification library of the CS360 assignments.
--
-- The repository has the independent C programs of four assignments; the only ones that meet are
-- userapp, which writes its process id to kmlab, and tiny, which runs adder.
--
-- Base (Tests, Lists, Chars, Format, Find, Digits): natural numbers, lists, C strings as lists of
-- bytes, the text of numbers, and what strchr, strstr, strtok, sscanf and atoi find in a text.
--
-- Fssim models assignment-1-aanthoonyy-main/lab1_devito.c, the simulator of a Unix filesystem tree.
-- A node is a record on an explicit heap, a pointer is a number with 0 as NULL, and a function of
-- the source is a run over the whole program state: the globals root and cwd, the heap, the
-- addresses that malloc will return, the text of fssim_devito.txt, and the output so far. A read
-- through a null or dangling pointer and a strcpy past the 64 bytes of a name are faults. Each loop
-- and each recursive call takes one unit of fuel: one for each node that a loop passes, and two for
-- each node that searchTree or save visits; reload takes one for each line, and has enough with one
-- for each byte of the file.
--   Fssim/Commands: initialize, ls, cd, rmdir, rm, pwd, searchTree, mkdir, creat.
--   Fssim/Disk: save and reload. Fssim/Shell: main's command loop, on lines as one fgets stores
--   them.
--   Fssim/Forest, Edit, Invariant: the tree that a heap holds, how a write changes it, and when a
--   state is well formed.
--   Fssim/Search, Show, Where, Make, Cd, Remove, Saved: the theorems on the commands.
--   Fssim/Append and Session (Names, Steps, Insert, Reload, Lines, Whole): whole sessions.
--   Fssim/Shape (Found, Unique) and Session/Entry, Rebuild, RoundTrip: the tree without its
--   addresses, and save followed by reload.
--   Fssim/Tests, Session/Tests: example trees.
-- Not modelled there: the end of the input, which the source does not test for, the bytes that an
-- uninitialised buffer holds, and a file that cannot be opened for writing: saving takes fopen with
-- w+ to succeed, and does not test it.
--
-- Sched models assignment-2-aanthoonyy-main/scheduler.c, the simulator of FCFS, SJF and round
-- robin. A pointer to a process is its index in process_list; a queue is the list of the pointers
-- that it links. The file of random numbers is the list of the numbers that atoi reads in its
-- lines. The 32-bit counters wrap. A step without a result is undefined behaviour in C: a division
-- by zero or a read through NULL, or an array without elements.
--   Sched: processes, queues, randomOS. Sched/Cycle: the four steps of a cycle.
--   Sched/Rounds: sortQueue, the three loops, and their sequence in main.
--   Sched/Random, Reading, Sort, Fcfs (Lists, Turns, Order, Written, Arrived, Step1, Started,
--   Step2, Running, Step3, Draws, Update, Step4, Idle, Total, Result, Served), Sjf, Rr (Quantum),
--   Skipped: the theorems.
--   Sched/Tests: two example processes.
-- The fuel of a loop is its number of cycles; for FCFS and SJF it is chosen from the CPU time that
-- all processes need and the last arrival, for round robin from the CPU time. Sched/Sjf and
-- Sched/Rr take these two loops from the start, as if each were the first. Sched/Input is the parse
-- of the input line, Sched/Report and Sched/Summary the printing helpers, with what they do with a
-- double as a parameter, and Sched/Program the whole run from the input to the output. Sched/Linked
-- has the queue with its nodes on a heap, and Sched/Linked/Nodes and Refines relate it to the list.
-- Sched/Keeps: what no cycle changes.
--
-- Kmlab models assignment-3-aanthoonyy-main/kmlab.c and kmlab_given.h: the list of registered
-- processes, the proc file's handlers, the timer with its work function, and the module's init and
-- exit. Ll models ll.c, the linked list example, and Userapp userapp.c. A list head is the list of
-- its entries; what the modules rely on of the kernel's list_add and list_add_tail is a hypothesis
-- (ListLaws), and a call that may fail takes a Boolean or an option for its outcome. The handlers
-- run one after the other. Not modelled: the lock, and the kernel's log where no result depends on
-- it. A file status that a failed load leaves at the top of /proc has no module behind it, and
-- reads and writes of it are not steps. Kmlab/Steps has the runs of kmlab. Kmlab/Times, Reading and
-- Steps/Safety, Ll/Nodes have the theorems, and Tests examples.
--
-- Tiny models assignment-4-aanthoonyy-main/tiny/tiny.c, the web server, and Tiny/Adder its CGI
-- program tiny/cgi-bin/adder.c. What sprintf leaves where source and destination overlap, as they
-- do in adder.c, is a parameter (Printf). Proxy models proxy.c. A connection is the list of the
-- lines that the RIO functions of the CS:APP library read from it; that library (csapp.c), the file
-- system and the servers that the proxy connects to are parameters (World, Net). A text that does
-- not fit into its buffer is a fault. Tiny/Uri, Headers, Status, Sum and Proxy/Uri, Forwarding have
-- the theorems, and Tests examples. Not modelled: what the servers print for themselves.
--
-- csapp.c and csapp.h, of which the repository has two copies, are a textbook's library, and
-- kmlab.mod.c is generated by the kernel build.
pub mod Base
pub mod Fssim
pub mod Kmlab
pub mod Ll
pub mod Proxy
pub mod Sched
pub mod Tiny
pub mod Userapp
