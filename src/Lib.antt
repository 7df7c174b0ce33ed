-- ===== src/Lib.antt =====
-- Linux 0.01 RAF: a small Unix kernel in C, with a transposition cipher added to its system calls.
--
-- The parts and the files that model them:
--
-- kernel/sys.c, the cipher. Crypt/Sort.antt has the key's copy in lower case and the quicksort of its
-- letters (to_lower_case, partition, sort_index_and_global); Crypt/Transpose.antt has the transposition
-- of one block (buffer_encr, buffer_decr, copy_to_buffer). A char array is a list of bytes, and `char` is
-- signed. The key's array is passed as an argument where the code has the global `global_key`.
-- Crypt/Password.antt has the setting of the key, on an array of 100 bytes.
--
-- kernel/mktime.c: Mktime.antt has kernel_mktime, Mktime/Calendar.antt the Gregorian calendar.
--
-- mm/memory.c: Mem.antt has every routine that changes the page map or a page table. The state is the
-- machine of Mem/Monad.antt: `mem_map` and the 32-bit words at byte addresses; a routine returns, panics,
-- indexes `mem_map` out of range, or ends the task. Loops over tables are structural on their number of
-- entries. Mem/Words, Mem/Pages, Mem/Tables, Mem/CopyOnWrite and Mem/Sharing hold the proofs.
--
-- kernel/sched.c: Sched.antt has the task table, schedule, do_timer and the calls on the current task. A
-- pointer to a task is its index. The `while (1)` of schedule runs on fuel 2, which Sched/Choice shows to be
-- enough; counters and priorities are patterns of 32 bits. Sched/Sleep.antt has sleep_on and wake_up on one queue as steps in any order: a call of sleep_on is
-- cut where it calls schedule.
--
-- fs/pipe.c, with the pipe macros of include/linux/fs.h and the pipe branches of fs/inode.c: Fs/Pipe.antt has
-- read_pipe and write_pipe. A call that sleeps is kept as a value. Fs/Pipe/System.antt runs calls on one pipe
-- in any order; Ring.antt reads a ring of bytes. wake_up wakes the first of the queue, and each
-- of the others is woken by the one before it, as sleep_on has it.
--
-- fs/fcntl.c and sys_close of fs/open.c: Fs/Files.antt has the descriptors of one task and the table of open
-- files; an open file is named by its index, and the calls of iput are recorded. Fs/Files/Counts.antt and
-- Fs/Files/Calls.antt hold the proofs.
--
-- kernel/exit.c: Sched/Signals.antt has kill, exit and waitpid on the task table; the pause inside waitpid and the
-- call of schedule in release are outcomes. kernel/sys.c, users, groups and sessions: Sched/Ids.antt.
--
-- kernel/tty_io.c and include/linux/tty.h: Tty.antt has the queues and copy_to_cooked; Tty/Queues.antt reads
-- a queue as a list, and Tty/Line.antt has the editing of a line on a list. The loop's fuel is the number
-- of characters in the read queue, of which each round takes one. The terminal's function `write` is a parameter of
-- what calls it, and acts on the whole terminal, of which the device is a part. Tty/Output.antt has the inner loop of tty_write, with fuel for the room in the
-- write queue, of which each round takes one place; Tty/Posted.antt says what goes out.
--
-- fs/bitmap.c, blocks: Fs/Bitmap.antt has new_block and free_block. A bitmap block is its 8192 bits, and the
-- buffers are those of fs/buffer.c on a cache in which getblk never waits; Fs/Bitmap/Allocation.antt has the
-- proof.
--
-- kernel/console.c: Console.antt has the screen, the cursor and the scrolling, Console/Commands.antt the control
-- sequences that draw, Console/Write.antt the state machine of con_write on a terminal's write queue. Video
-- memory is a function from byte addresses to words, on which the string instructions run as loops over their
-- counts. Console/Memory.antt says what they leave, Console/Cursor, Console/Drawing and Console/Safety hold the
-- invariant, Console/Screen, Console/Editing and Console/Rows read the window as rows of cells. respond calls
-- copy_to_cooked of Tty.antt, whose echo calls con_write again, to a depth that is given: a call that would be
-- deeper draws nothing, and the theorem holds for every depth (Console/Echo.antt); without
-- ECHO the depth 1 is enough (Console/Depth.antt). Console/Tool.antt has the tool window of
-- F1, its clipboard's keys and what they draw; Console/Overlay.antt and Console/Clipboard.antt hold the proofs.
--
-- include/string.h: Strings.antt has the functions on blocks and those that copy, Strings/Search.antt those that
-- compare and search. A loop that ends at a zero byte runs on fuel 2^32, a round for each address; the theorems
-- show this to be enough. Strings/Contents.antt reads a string in memory as a list of bytes; Strings/Blocks,
-- Strings/Joined, Strings/Order, Strings/Spans, Strings/Substring and Strings/Tokens hold the proofs.
--
-- kernel/vsprintf.c: Print.antt has the numbers, with 32 rounds for the digits, and Print/Format.antt the format
-- strings, with fuel for the length of the format; Print/RoundTrip.antt has the proof.
--
-- kernel/fork.c: Sched/Fork.antt has the choice of a process number, in 65 rounds at most, and of a slot, and the
-- child in the task table; Sched/Pids.antt has the proof.
--
-- fs/inode.c, _bmap: Fs/Zones.antt has bmap and create_block on the zones of an inode and the words of its blocks
-- of indices. new_block is taken through the interface Allocator, whose laws Fs/Zones/Disk.antt proves of new_block of
-- fs/bitmap.c, by Fs/Bitmap/Next.antt; the times and flags of the inode are left out.
-- Fs/Zones/Places.antt names the places of a number, Fills.antt says what a new block in an empty place changes,
-- Blocks.antt and Answer.antt follow the steps, Created.antt has the result.
-- Prelude.antt passes on the library's names and has the tests, lists, counts and signed integers that the
-- parts share. Examples/ applies the theorems at concrete inputs.
--
-- Not modelled: the buffer cache and all that stands on it (fs/buffer.c, fs/namei.c, fs/inode.c but for
-- pipes and _bmap, the walks of the cipher over files), the drivers of the keyboard, the serial line and the hard disk, the directory list of the tool window, traps,
-- booting, program loading, and the user programs. invalidate reloads a register of the processor, which the
-- machine does not have.
pub mod Prelude
pub mod Console
pub mod Crypt
pub mod Mktime
pub mod Mem
pub mod Sched
pub mod Ring
pub mod Fs
pub mod Tty
pub mod Strings
pub mod Print
mod Examples
