-- ===== src/MyFs/Examples/Files.antt =====
-- Runs of the open files of course_design/myfs_kernel.c, and of the programs that use them, on a small
-- kfifo.
use grade15_1linux.Common.{
  ℕ, zero, suc, NoNul, none, ◌-◌, ◌≡◌, ◌≢◌, ◌↔◌, ◌⊎◌, refl, true, some, arith, List, [], ◌∷◌, ◌++◌,
  Bytes, length, take, drop, min, pos, eacces, replicate,
}
use grade15_1linux.MyFs.Fifo.{Kfifo, FifoLaws}
use grade15_1linux.MyFs.Fifo.Queue.{Op, read, write, queue_run, received, sent}
use grade15_1linux.MyFs.File.{MyfsFileInfo, OpenCalls, myfs_file_open}
use grade15_1linux.MyFs.File.Access.{myfs_file_open_inverted}
use grade15_1linux.MyFs.File.Session.{run, Reliable, run-queue, run_order}
use grade15_1linux.MyFs.Clients.{message, Answers, Ended, open_file, test1, test1rdonly}
use grade15_1linux.MyFs.Clients.Exchange.{Opens, Reads, test1-Reads, test1rdonly_faults}

abbrev junk : MyfsFileInfo
junk = record { open_time = 77; open_count = 41 }

-- A user with the number 1000 whom the check lets in.
abbrev allowed : OpenCalls
allowed = record { kmalloc = some junk; now = 5; uid = 1000; inode_permission = pos 0 }

myfs_file_open_inverted_example :
    (((myfs_file_open allowed none).0 ≡ eacces) ↔ ((pos 0 ≡ pos 0) × (allowed.uid ≢ 0)))
    × (((myfs_file_open allowed none).0 ≡ pos 0) ↔ ((pos 0 ≢ pos 0) ⊎ (allowed.uid ≡ 0)))
myfs_file_open_inverted_example = myfs_file_open_inverted allowed none refl

abbrev plain_fifo : Kfifo Bytes
plain_fifo = record {
  to_user = λ f user n. record {
    ret = pos 0;
    moved = min n (length f);
    user = take n f ++ drop (min n (length f)) user;
    fifo = drop n f;
  };
  from_user = λ f user n. record {
    ret = pos 0;
    moved = min n (64 - length f);
    user = user;
    fifo = f ++ take (min n (64 - length f)) user;
  };
}

plain_fifo-FifoLaws : FifoLaws plain_fifo
plain_fifo-FifoLaws = record {
  held = λ f. f;
  read_count = λ f user n ok. refl;
  read_user = λ f user n ok big. refl;
  read_held = λ f user n ok. refl;
  write_count = λ f user n ok. refl;
  write_held = λ f user n ok big. refl;
}

plain_fifo-Reliable : Reliable plain_fifo
plain_fifo-Reliable = record { reads = λ f user n h. refl; writes = λ f user n h. refl }

-- What one file is given is read from another.
abbrev calls : List Op
calls = write 1 (b'h' ∷ b'i' ∷ []) ∷ read 2 (replicate 5 0) 5 ∷ []

calls_result : queue_run calls [] ≡ ((pos 2, []) ∷ (pos 2, b'h' ∷ b'i' ∷ []) ∷ [], [])
unfolding queue_run
calls_result = refl

run-queue_example :
    let (replies, f') = run plain_fifo calls [] in (replies, f') ≡ queue_run calls []
unfolding run plain_fifo-FifoLaws
run-queue_example =
    run-queue plain_fifo plain_fifo-FifoLaws calls [] plain_fifo-Reliable (omega arith)

run_order_example :
    let (replies, f') = run plain_fifo calls [] in received replies ++ f' ≡ sent calls replies
unfolding run plain_fifo-FifoLaws
run_order_example =
    run_order plain_fifo plain_fifo-FifoLaws calls [] plain_fifo-Reliable (omega arith)

-- The kernel's answers to a program that runs as root.
abbrev as_root : Answers
as_root = record { path = pos 0; calls = record allowed { uid = 0 }; fd = 3; malloc = true }

as_root-Opens : Opens as_root
unfolding open_file myfs_file_open
as_root-Opens = record {
  fd = refl;
  block = (record { open_time = 5; open_count = 42 }, refl);
  memory = refl;
}

test1-Reads_example :
    (e : Ended Bytes) × (test1 plain_fifo as_root [] ≡ some e)
    × Reads plain_fifo plain_fifo-FifoLaws plain_fifo-Reliable ([] ++ message) e
unfolding plain_fifo-FifoLaws
test1-Reads_example =
    test1-Reads plain_fifo plain_fifo-FifoLaws plain_fifo-Reliable as_root [] as_root-Opens
      (omega arith)

ones : (n : ℕ) → NoNul (take n (replicate n 1))
ones zero = tt
ones (suc n) = ((λ e. omega (arith, e)), ones n)

test1rdonly_faults_example : test1rdonly plain_fifo as_root (replicate 20 1) ≡ none
unfolding plain_fifo-FifoLaws
test1rdonly_faults_example =
    test1rdonly_faults plain_fifo plain_fifo-FifoLaws plain_fifo-Reliable as_root (replicate 20 1)
      as_root-Opens (omega arith) (ones 20)
