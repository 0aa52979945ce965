-- ===== src/Lib.antt =====
-- The course's kernel modules and threaded programs, as one library of verified models.
--
-- Files of the repository and their modules:
--   course_design/myfs_kernel.c, course_design/myfs_kernel_ubuntu.c: MyFs. Nodes has `myfs_get_inode`,
--     `myfs_mknod`, `myfs_mkdir` and `myfs_creat`; Tree has `myfs_creat_by_name`, `myfs_creat_file`,
--     `myfs_creat_dir`, `myfs_init` and `myfs_exit`, with `myfs_get_sb` and `myfs_fill_super` (Tree/Mounting),
--     the tree that a load leaves (Tree/Build, Tree/Loaded) and the exit (Tree/Unload); File
--     has the operations of an open file, and Fifo the kfifo behind them. The second file differs in
--     the test of `myfs_file_open` and in the modes of two files, which are parameters or definitions named with `_ubuntu`.
--   course_design/test1.c, test2.c, test1rdonly.c and test2rdonly.c: MyFs/Clients, programs over the
--     operations of File.
--   exp4/exp_4_2_ramdisk_driver.c, exp4/exp_4_2_original.c: Ramdisk. Request is `my_request`, Ioctl
--     `my_ioctl`, Module the second file's `my_init` and `my_exit`; names with `_original` are the second file's.
--   exp4/exp_4_2.c: BlockDevice. Request is `requestHandler`, Disk `device_read` and `device_write`,
--     Module `exp_4_2_init` and `exp_4_2_exit`.
--   exp3/exp3.1.c: ProcHello, with `proc_write`, `proc_read`, `initexp3_1` and `exitexp3_1`; Interleaving has
--     the two handlers called by many processes at once, as a step relation.
--   exp2/exp2.4/map_driver.c: MapDriver. Mapping is `mapdrv_mmap` and `map_fault`, Pages `mapdrv_init`
--     and `mapdrv_exit`.
--   exp2/exp2.4/maptest_read.c and maptest_write.c: MapDriver/Users, programs that map the
--     driver's memory.
--   exp1/exp1.4.c, exp3/exp3.2.c: Counter, the two threads and the semaphore, as a step relation.
--   exp1/exp1.1.c, exp1/exp1.2.1.c, exp1/exp1.2.2.c, exp2/exp2.1.1.c, exp2/exp2.1.2.c: Processes, each `main`
--     behind its fork, with the buffer of its output.
--   exp1/exp1.3.c: Join, `main` and the thread that it joins, as a step relation.
--   exp1/exp1_8.c: TaskList, `task_info_init` and the kernel that adds tasks, as a step relation; in
--     Leaving tasks also go.
--   exp1/exp1.5.c: Pipe, the parent, its two children and the pipe, as a step relation.
--   exp2/exp2.2.cpp: Vectors, `main` with the number of rounds as a parameter.
--   exp2/exp2.3.cpp: LinkedList, `main` over an explicit heap.
--   exp4/exp4_1_kernel.c: CharDevice, `device_init` and `device_exit`, with the handlers in Handlers.
--   exp4/exp4.1.user.c: CharDevice/User, `main` over the handlers.
-- Common has the names, lists and lemmas that they share, UserCopy the kernel's copies from and to a
-- user's memory. In each part, the modules below it hold the proofs, and Examples runs on concrete
-- inputs. The test programs use the file system, the mapping driver and the character device; the others
-- do not call each other and share the kernel.
--
-- How the code is modelled:
--   - The kernel's functions are not code of the repository. They are fields of a record (Vfs, Kfifo,
--     BlkQueue, UserCopy) with what the code relies on as a record of laws, or, where the code only
--     looks at their values, those values (Answers, OpenCalls). Each Examples has a concrete kernel
--     that meets the laws.
--   - Static variables and objects of the kernel are records that the functions take and return. The
--     entries and exits of the modules also record their calls, from which Resources and Lifetime
--     compute what a module holds of the kernel.
--   - Return values are integers with the kernel's error numbers. An access outside an array, or
--     through a pointer that is null or an error, is `none`, `fault` or `crashed`, never a value.
--   - Products and sums that the source computes in 32 or 64 bits are cut with `% 2 ^ 32` or
--     `% 2 ^ 64`. The addresses of MapDriver.Pages do not wrap: the kernel's memory ends far below 2^64.
--   - The C++ program may fault or run on: `done`, `fault` and `running`. What the assignment to a string
--     does in memory from `malloc`, where no constructor has run, is a parameter of it, since C++ does not
--     say; so is `malloc`. LinkedList/Undefined takes it as an error, LinkedList/Words as working.
--   - Printing in the kernel, sleeping, and fields that are only printed are left out.
--
-- Bounds and fuel: MapDriver's loops over the ten pages run on eleven rounds, one for each page and one
-- for the last test; a program's string in the mapped memory is read on one round for each byte that
-- is mapped. `my_request` runs on fuel, one round for each segment of the queue. The two
-- loops of LinkedList run on fuel, one round for each word and one more, and the loop of Vectors on one
-- round more than the program makes, whose number is below 2^31, so that its counter does not overflow. All
-- other loops are recursion on lists. The runs of Counter, Join, Pipe, TaskList and ProcHello.Interleaving
-- have no fuel: they are families of the steps made. The counter of TaskList faults where it would
-- overflow.
--
-- Not modelled: memory of a task that is freed while TaskList walks (the kernel frees it only when
-- interrupts have been on again), and a `strlen` of ProcHello.Interleaving that the compiler would make once
-- instead of three times; handlers that only print (`mapdrv_open`, `map_vopen`,
-- `map_vclose` of the mapping driver, `device_open`, `device_release` and `device_ioctl` of exp4/exp_4_2.c), and two
-- modules that only print (exp1/exp1.6.c and exp4/exp4_2_evil.c). `my_init` and `my_exit` of
-- exp4/exp_4_2_ramdisk_driver.c are not modelled: the entry calls `blk_put_queue` with two arguments and assigns
-- its value, where the kernel's takes one and returns nothing. ProcHello.Interleaving leaves out the read of
-- PROC_MSG by the `printk` of `proc_write` and the zeros that a `copy_from_user` that fails may leave.
pub mod Common
pub mod UserCopy
pub mod ProcHello
pub mod MyFs
pub mod Ramdisk
pub mod BlockDevice
pub mod MapDriver
pub mod Counter
pub mod CharDevice
pub mod LinkedList
pub mod Pipe
pub mod TaskList
pub mod Join
pub mod Vectors
pub mod Processes
