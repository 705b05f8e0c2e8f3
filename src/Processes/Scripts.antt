-- ===== src/Processes/Scripts.antt =====
-- The programs of pipes/1tsk, queue/SystemV, queue/Posix, shared_memory/SystemV, shared_memory/Posix and
-- signals/1tsk.
use study_eltex.Prelude.{ℕ, Bool, true, false, Option, some, [], ◌∷◌, Bytes, codes}
use study_eltex.Processes.{
  string, Line, Script, exit, close_read, close_write, copy, clear, write, print, fork, wait, send,
  receive, mq_receive, copy_in, copy_out, kill, sleep,
}

abbrev pub text : Bytes → ℕ → ℕ → Line
text format pid ppid = record { format = format; values = [] }

abbrev pub reading : Bytes → Option Bytes → ℕ → ℕ → Line
reading format value pid ppid = record { format = format; values = string value ∷ [] }

-- pipes/1tsk/1tsk.c: the child reads what the parent writes.
abbrev pub child_copies : Script
child_copies = close_write (copy (print (text (codes ", ^-^\n")) (close_read (exit 0))))

abbrev pub relay : Script
relay = fork child_copies (
    close_read (
      print (text (codes "Hello\n")) (
        write (codes "Hello")
          (close_write (wait (λ status. print (text (codes "8\n")) (exit 0)))))))

-- pipes/1tsk/2tsk.c: the parent reads what the child has written.
abbrev pub child_writes : Script
child_writes =
    close_read (print (text (codes "Hello\n")) (write (codes "Hello") (close_write (exit 0))))

abbrev pub relay_back : Script
relay_back =
    fork child_writes
      (close_write (wait (λ status. copy (print (text (codes ", bye\n")) (close_read (exit 0))))))

-- queue/SystemV/client.c and server.c. `found` says whether execl finds the client; where it does not, the child
-- goes on in the server's own code.
abbrev pub queue_client : Script
queue_client = receive 0 (λ rcv.
    print (reading (codes "sent message: %s\n") rcv) (send 3 (codes "Hi, I'm Maksi %)") (exit 0)))

abbrev pub queue_rest : Script
queue_rest =
    receive 3 (λ rcv. print (reading (codes "received message: %s\n") rcv) (clear (exit 0)))

abbrev pub queue_server : (found : Bool) → Script
queue_server found =
    send 1 (codes "Hello, I'm Lilo ^-^")
      (fork (elim found [ true ↦ queue_client | false ↦ queue_rest ]) (wait (λ status. queue_rest)))

-- queue/Posix/client.c and server.c. The last calls take the name of the queue away and close it, which leaves it
-- to a process that has it open.
abbrev pub mq_client : Script
mq_client = mq_receive (λ buf.
    print (reading (codes "sent message: %s\n") (some buf)) (send 0 (codes "I'm OK!") (exit 0)))

abbrev pub mq_rest : Script
mq_rest = mq_receive (λ buf. print (reading (codes "recieve message: %s\n") (some buf)) (exit 0))

abbrev pub mq_server : (found : Bool) → Script
mq_server found =
    send 0 (codes "Heeeey, how are U??")
      (fork (elim found [ true ↦ mq_client | false ↦ mq_rest ]) (wait (λ status. mq_rest)))

-- shared_memory/SystemV/client.c and server.c, and those of shared_memory/Posix.
abbrev pub memory_client : Bytes → Script
memory_client answer =
    copy_out (λ shared. print (reading (codes "%s\n") shared) (copy_in answer (exit 0)))

abbrev pub memory_rest : Script
memory_rest = copy_out (λ shared. print (reading (codes "%s\n") shared) (exit 0))

abbrev pub memory_server : (greeting answer : Bytes) (found : Bool) → Script
memory_server greeting answer found = copy_in greeting (
    fork (elim found [ true ↦ memory_client answer | false ↦ memory_rest ])
      (wait (λ status. memory_rest)))

abbrev pub shm_server : (found : Bool) → Script
shm_server = memory_server (codes "Hello") (codes "Hi! Have a good day)")

abbrev pub mmap_server : (found : Bool) → Script
mmap_server = memory_server (codes "Today is 19th of July") (codes "OMG, awesome!")

-- signals/1tsk/task.c: the child ends its parent, whose handler for SIGINT is the default before and after it is
-- set to that.
abbrev pub kills_parent : Script
kills_parent = print (text (codes "Program 2 started.\n")) (
    print (text (codes "Program 2 sends signal to program 1.\n"))
      (kill (λ pid ppid. ppid) (print (text (codes "Program 2 finished.\n")) (exit 0))))

abbrev pub interrupted : Script
interrupted = print (text (codes "Program 1 started.\n")) (fork kills_parent sleep)
