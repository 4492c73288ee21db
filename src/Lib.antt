-- ===== src/Lib.antt =====
-- Verification of the programs of an operating systems course: the simple file system, the virtual
-- memory, the job scheduler, the bitmap images, the fractals, the small shell and the copying programs.
--
-- "06. File Systems" (disk.c, fs.c, shell.c) is modelled in FileSystem. FileSystem.Machine has the
-- static variables of disk.c and fs.c as one record, and runs that return, abort, reach undefined
-- behaviour or use up their fuel. FileSystem.Block is union fs_block, 4096 bytes that are read as
-- characters or as little-endian ints; FileSystem.Inode has struct fs_inode and struct
-- fs_superblock on it. FileSystem.Disk is disk.c. FileSystem.Format, Mount, Table (fs_create,
-- fs_delete, fs_getsize), Bitmap (getNextBlock), Write and Read have the operations of fs.c, each
-- loop as a function of its own. FileSystem.Copy has do_copyin and do_copyout of shell.c, which call
-- fs_write and fs_read. FileSystem.Debug has fs_debug, by the lines that it prints. FileSystem.Shell
-- has the commands of main of shell.c, which call all of these; its children Parse and Session have
-- the words of a line (sscanf, atoi) and the loop over the lines. The other children of these modules
-- hold the proofs, FileSystem.Tests and FileSystem.Shell.Tests the examples.
--
-- "05. Virtual Memory" (main.c, page_table.c, disk.c) is modelled in VirtualMemory. Memory has the
-- page table, the frames, the disk and the static variables of main.c; PageTable has the operations
-- of page_table.c and disk.c; Handler has page_fault_handler, with the three algorithms; Start has
-- page_table_create and main up to the start of the program; Access is a program that reads and
-- writes bytes, whose faults run internal_fault_handler. View has the content of the virtual memory
-- that this stands for and the invariant of table, frames and disk; the children of Handler and of
-- Access hold the proofs.
--
-- "04. Job Scheduler" (jobs.h, and what jobsched.c does with it) is modelled in JobScheduler. Job has
-- the jobs and create_job; Queue has queue_job, set_njobs, numJobsRunning and job_complete; Remove
-- has remove_job; Select has run_job and select_job_to_run, in two halves: the second begins where a
-- thread that sleeps for a free place wakes up. Steps has the steps of the shell, the scheduler
-- thread, the handler of SIGCHLD and the started programs, in any order. Shell has the commands status,
-- drain and wait of jobsched.c, the last two as places at which the shell stops while the others go on;
-- Shell.Commands has the reading of a line and the choice of a command.
--
-- "03. Parallel Programming" (bitmap.c, fractal.c, fractalthread.c, fractaltask.c, mandel.c) is
-- modelled in Bitmap and Fractal. Bitmap has bitmap_get, bitmap_set and bitmap_reset; Bitmap.Wrap,
-- Bitmap.Pixel and Bitmap.Reset have the proofs. Fractal.Draw has the loops of compute_image, and one
-- round of them on its own, which is a step of a thread; Fractal.Color has compute_point and
-- value_to_color of each program; Fractal.Bands the split of the rows among threads and tasks;
-- Fractal.Threads the threads of fractalthread.c; Fractal.Tasks the list of tasks, the mutex and the
-- threads of fractaltask.c, with the place of each thread in compute_image. Fractal.Equivalence
-- compares the images of the threads and the tasks with that of one loop. Fractal.Main has main of fractal.c, from the options to
-- the file. Bitmap.Rgba has the macros of bitmap.h; Bitmap.File
-- has bitmap_create, bitmap_save and bitmap, which reads a file; its children hold the proofs.
--
-- "01. System Calls and Error Checking" (filecopy.c, treecopy.c) is modelled in Copying: the loops of
-- reads and writes, and main of filecopy.c. Copying.Tree has filecpy, walk and main of treecopy.c,
-- which use the same loops, over a tree of what readdir gives. Chunks, Failed and Tree.Kept have the
-- proofs.
--
-- "02. Processes and the Shell" (myshell.c) is modelled in MyShell: each command, the reading of a line,
-- and the loop of main. Its words are those of JobScheduler.Shell.Commands, since both programs read
-- a line in the same way. Wait has the proofs.
--
-- Common has the tests on numbers, lists and the ints that the parts share, and runs.
--
-- Conventions. In FileSystem an int that may be negative is a ℤ; sizes, lengths, indices and loop
-- variables that start at 0 are numbers, as are page and frame numbers in VirtualMemory. Sums of
-- ints are not cut off at 2^31: the theorems bound the numbers that are stored. But a disk, and a virtual
-- memory, has less than 2^19 blocks of 4096 bytes in every state, since disk_init and
-- page_table_create multiply beyond the range of an int for more; and the counts of filecopy.c and
-- treecopy.c and the next id of a job are undefined beyond that range. What a local
-- variable holds before it is written is the argument `junk`. An access out of an array is undefined
-- behaviour, and a block number out of the disk aborts. The loops of fs.c over a range recur on the
-- rounds that are left; the loop of fs_create has nblocks + 1 rounds of fuel, since a read of block
-- nblocks aborts, and the second loop of fs_write the length plus 1. The loop of do_copyin has as
-- many rounds as the host file has bytes, and one: fread takes a byte or more each time. That of
-- do_copyout has 24577, since fs_read gives nothing from byte 24576 on. The input of the shell is the
-- list of the lines that fgets gives, and the files of the host are lists of bytes. The values of
-- rand() are a list, and the loops that call it are cut off at its end. A read of the virtual memory is tried
-- twice and a write three times: a page faults once to come in, and once to become writable.
--
-- The linked list of jobs is a list, and an operation under the mutex is one step. The result of
-- fork() is an argument. The loops that wrap a coordinate round have as many rounds of fuel as the
-- coordinate is away from 0, and one. The arithmetic on double and double complex is the parameter
-- Doubles, of which nothing is assumed; single-precision floats are the parameter Floats, exact up to
-- 2^24. A color is none where the code divides by 0 or leaves the range of an int. A step of a thread
-- that draws is one pixel, or the end of a row; the mutex of fractaltask.c is the thread that holds it.
-- The test of fractaltask.c under the mutex and task_dequeue are one step.
--
-- The argument `system` of Copying says for each system call, in their order, whether it fails and how
-- much a read or a write transfers. A file that is written is what is in front of its offset and what
-- is behind; the source of a copy is not changed by it. The loop of writes has fuel above the size of the
-- buffer, 8192, and the loop of reads fuel above the length of the source, since each call
-- transfers a byte or more. Names of files are kept as they are, and the paths made of them are not
-- modelled. The system calls of MyShell, the macros on a status and atoi are the fields of a record,
-- over a state of which nothing is known; the child of a fork is a part of that. The loops of
-- waitpid have fuel above the number of calls that fail.
--
-- main of fractal.c takes what getopt gives, letter by letter, and atof and atoi as arguments; an image
-- whose width or height is not positive is not followed.
--
-- Not modelled: what is printed, but for fs_debug, myshell, the shell of the file system and the command
-- status; show_help, and main of the fractal programs but fractal.c; disk_close; the access patterns
-- of program.c, with the library functions that they call; list.c, which prints what readdir gives; the
-- examples of threads of the second part; and earlier versions of programs.
pub mod Bitmap
pub mod Common
pub mod Copying
pub mod FileSystem
pub mod Fractal
pub mod JobScheduler
pub mod MyShell
pub mod VirtualMemory
