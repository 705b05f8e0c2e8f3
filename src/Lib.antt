-- ===== src/Lib.antt =====
-- The exercises of this repository are small C programs. Those with logic of their own are modelled here:
--
--   Tokens        stok, the word splitter of heap/task.c, structures/task.c and
--                 pipes/command_interpreter/cmd.c: `walk` is the pointer loop, `index_loop` that of cmd.c.
--   Contacts      the contact books. Contacts/Sort is the sort of both programs; Contacts/HeapBook is
--                 heap/task.c with its block from malloc, Contacts/BookFile its reading and writing of
--                 book.txt, Contacts/Menu its command loop and Contacts/Program its `main` from end to end;
--                 Contacts/Menu/Commands says what the words of a session should do. Contacts/ArrayBook is
--                 structures/task.c, Contacts/ArrayMenu its command loop and Contacts/ArrayProgram its `main`.
--   Shop          threads/shop.c: shoppers and a delivery thread over shops with a mutex each, as a step
--                 relation (`Move`, `Step`, `Steps`).
--   RawSocket     the clients of raw_socket/UDP, raw_socket/UDP_with_Headers and
--                 raw_socket/UDP_WITH_ALL_HEADERS: check_sum, the headers, the receiving loop, the reply.
--   FileManager   file_manager/file_manage.c: both panels and every key.
--   Interpreter   pipes/command_interpreter/cmd.c: the path, `cd`, the dispatch and the loop over lines.
--   Editor        work_with_file/text_editor.c: keys, saving and the menu.
--   Calculator    static_lib/calcul.c and dynamic_lib/calcul.c with the functions they link.
--   Plugins       lib/calc.c: the names cut out of the arguments, and the loop.
--   Chat          the chat over message queues: queue/chat/server.c, and in Chat/Client the messages and the
--                 screen of queue/chat/client.c; Chat/Screen has clients and server together, as far as the bytes
--                 that are not behind the struct.
--   SharedChat    the chat over shared memory, shared_memory/chat/server.c and client.c, as a step relation;
--                 SharedChat/Client has the texts that a client writes.
--   ThreadServer  sokets2/1-2scheme/server.c: a thread for each connection.
--   Pool          sokets2/3scheme/server.c: workers that take connections from a queue.
--   TwoPools      sokets2/4scheme/server.c: a pool for connections and one for datagrams.
--   KernelModule  modules/sys-proc_module/test2.c and modules/read-write_module/test.c: the handlers, and what
--                 is registered at loading.
--   Exchange      the servers and clients of sokets1: one message each way.
--   Calls         the servers and clients of sokets1, sokets2, data_exchange and raw_socket as sequences of system
--                 calls: Calls/Protocol says in which order calls on a socket make sense, Calls/Connections,
--                 Calls/Datagrams and Calls/Servers are the `main` of the programs, Calls/Handlers their signal handlers,
--                 and Calls/Watching and Calls/Signals have both together.
--   Processes     the exercises with fork: pipes/1tsk, queue/SystemV, queue/Posix, shared_memory/SystemV,
--                 shared_memory/Posix and signals/1tsk in Processes/Scripts, file_manager/process in Processes/Trees. A program is a
--                 `Script`, and `step` is what a call does to processes, pipe, queue and shared memory, as
--                 documented; Processes/Explore tries all orders of steps.
--   Fifos         pipes/2tsk/1tsk.c and 2tsk.c: the opening of two fifos by two processes.
--   Bot           sokets2/attack-bot/bot.c: a thousand threads that each start a client and wait for it.
--   Spiral        arrays/task4.c for a square of any size.
--   Tables        arrays/task1.c, task2.c and task3.c for arrays of any size.
--   Bits          bit_operations/first_task.c and pointers/task.c: the bytes of an int.
--   Prelude       what the modules share: Boolean tests, lists measured by native numbers, bytes, integers,
--                 families. Examples has concrete runs.
--
-- How the code is read. A C string is the list of its bytes without the NUL; a function that writes a
-- buffer returns the new buffer. `none` is undefined behaviour (an access out of bounds, a string that
-- does not fit, an unset pointer) unless a file says otherwise. malloc and realloc are an `Allocator`,
-- curses is a record `Curses`, opendir and scandir are functions, the packets that arrive are a list, and
-- input is a list of words, lines or keys: nothing is said of what these libraries do beyond that.
-- Threads and processes interleave in any order: a step relation has a constructor for each access to what
-- they share, and for each answer that the code tests. The kernel's copies between its memory and a caller's
-- are a record `Copies`. Counters are numbers with no overflow, but the stocks in Shop, which a delivery keeps
-- below 2^31; the calculators' ints have 32 bits and check_sum its 16. In Processes stdout is a terminal: a
-- line is out when it is printed.
--
-- Loops are recursion on the list they walk or on a count of rounds. The counts are those of the code
-- (`size - i` rounds of a for loop), so no run stops early: `purge` has the old size as its count, and
-- both `run_menu` the number of words typed, of which each round reads one or more. The spiral of N rows
-- has N rounds, and a turn takes two rows. `all_end` looks as many steps ahead as the `bound` of a program says,
-- and fails where a run is longer. The endless loops of the servers in Calls run any number of rounds.
--
-- Not modelled: modules/hello_module, which prints a line; signals/2tsk, a sleep and a kill; the failure of pipe, fork and of the calls that open a
-- queue or shared memory; the locks of the kernel modules, whose handlers run one at a time; the bytes behind a
-- struct that msgsnd and msgrcv reach in the chat over message queues; texts of the chat over shared memory
-- that are read while half written. The messages of
-- a program that are always the same are left out but in Processes, and so are the colours of a terminal,
-- except that of a name in FileManager.
pub mod Prelude
pub mod Tokens
pub mod Contacts
pub mod Shop
pub mod RawSocket
pub mod FileManager
pub mod Interpreter
pub mod Editor
pub mod Calculator
pub mod Plugins
pub mod Chat
pub mod SharedChat
pub mod Pool
pub mod ThreadServer
pub mod TwoPools
pub mod KernelModule
pub mod Exchange
pub mod Calls
pub mod Processes
pub mod Fifos
pub mod Bot
pub mod Spiral
pub mod Tables
pub mod Bits
mod Examples
