-- ===== src/Fs/Pipe.antt =====
-- fs/pipe.c, with the pipe macros of include/linux/fs.h and the pipe branches of fs/inode.c: a pipe is
-- an inode with a page of bytes that goes round. A call that sleeps is kept as a value: what it has left
-- to do once `sleep_on` returns.

pub mod Fifo
pub mod System
pub mod Waiting
use linux_0_01raf.Prelude.{
  ℕ, zero, suc, ◌+◌, ◌-◌, ◌%◌, Bool, true, false, Option, none, some, List, [], ◌∷◌, ◌++◌, ◌==◌,
  if◌then◌else◌, length, get_or, set, replicate,
}
use linux_0_01raf.Prelude.Int.{ℤ, pos, negsuc}
use linux_0_01raf.Ring.{stretch}

abbrev pub page_size : ℕ
page_size = 4096

-- A call inside the kernel: `reading count`, or `writing bytes done` with `done` bytes written before.
pub data Call : Type 0 where
  reading : ℕ → Call
  writing : List ℕ → ℕ → Call

-- A pipe's inode. `page` is what `i_size` points at, `head` and `tail` are `i_zone[0]` and `i_zone[1]`,
-- `i_wait` is the queue of the calls that sleep on it: the last that fell asleep first, and each has the
-- next as its `tmp`. `runnable` has a chain for each call that was woken and has not gone on: that call, and
-- those that sleep behind it, which it wakes one by one.
pub record Inode : Type 0 where
  pub page : List ℕ
  pub head : ℕ
  pub tail : ℕ
  pub i_count : ℕ
  pub i_wait : List Call
  pub runnable : List (Call × List Call)

-- the masks of `long` differences: 2 ^ 32 is a multiple of the page
unfoldable pub pipe_size : Inode → ℕ
pipe_size inode = (inode.head + 4294967296 - inode.tail) % 4096

unfoldable pub pipe_empty : Inode → Bool
pipe_empty inode = inode.head == inode.tail

unfoldable pub pipe_full : Inode → Bool
pipe_full inode = pipe_size inode == 4095

unfoldable pub inc_pipe : ℕ → ℕ
inc_pipe index = (index + 1) % 4096

-- `garbage` is what the page held before
unfoldable pub get_pipe_inode : List ℕ → Inode
get_pipe_inode garbage = record {
  page = garbage;
  head = 0;
  tail = 0;
  i_count = 2;
  i_wait = [];
  runnable = [];
}

-- the first call of a chain is woken, if there is one
unfoldable pub add_chain : List Call → List (Call × List Call) → List (Call × List Call)
add_chain [] chains = chains
add_chain (call ∷ calls) chains = chains ++ ((call, calls) ∷ [])

unfoldable pub wake_up : Inode → Inode
wake_up inode = record inode { i_wait = []; runnable = add_chain inode.i_wait inode.runnable }

unfoldable pub sleep_on : Call → Inode → Inode
sleep_on call inode = record inode { i_wait = call ∷ inode.i_wait }

-- What a call did until it returned or slept: the bytes it moved, `returned` when it did,
-- and if it sent SIGPIPE to its task.
pub record Result : Type 0 where
  pub inode : Inode
  pub moved : List ℕ
  pub returned : Option ℤ
  pub sigpipe : Bool

unfoldable pub next_byte : Inode → ℕ
next_byte inode = get_or inode.page inode.tail 0

unfoldable pub take_byte : Inode → Inode
take_byte inode = record inode { tail = inc_pipe inode.tail }

unfoldable pub put_byte : ℕ → Inode → Inode
put_byte byte inode = record inode {
  page = set inode.page inode.head byte;
  head = inc_pipe inode.head;
}

-- the second loop of `read_pipe`
unfoldable pub drain : ℕ → Inode → Result
drain zero inode = record { inode = inode; moved = []; returned = none; sigpipe = false }
drain (suc count) inode =
    let rest = drain count (take_byte inode) in
    if pipe_empty inode
    then record { inode = inode; moved = []; returned = none; sigpipe = false }
    else record rest { moved = next_byte inode ∷ rest.moved }

unfoldable pub read_pipe : ℕ → Inode → Result
read_pipe count inode =
    if pipe_empty inode
    then if inode.i_count == 2
      then record {
        inode = sleep_on (reading count) (wake_up inode);
        moved = [];
        returned = none;
        sigpipe = false;
      }
      else record { inode = wake_up inode; moved = []; returned = some (pos 0); sigpipe = false }
    else let done = drain count inode in
      record done { inode = wake_up done.inode; returned = some (pos (length done.moved)) }

-- the loop of `write_pipe`, which a woken writer goes on with
unfoldable pub write_loop : List ℕ → ℕ → Inode → Result
write_loop [] done inode = record {
  inode = wake_up inode;
  moved = [];
  returned = some (pos done);
  sigpipe = false;
}
write_loop (byte ∷ bytes) done inode =
    let rest = write_loop bytes (suc done) (wake_up (put_byte byte inode)) in
    if pipe_full inode
    then if inode.i_count == 2
      then record {
        inode = sleep_on (writing (byte ∷ bytes) done) (wake_up inode);
        moved = [];
        returned = none;
        sigpipe = false;
      }
      else record { inode = wake_up inode; moved = []; returned = some (pos done); sigpipe = true }
    else record rest { moved = byte ∷ rest.moved }

unfoldable pub write_pipe : List ℕ → Inode → Result
write_pipe bytes inode =
    if inode.i_count == 2
    then write_loop bytes 0 (wake_up inode)
    else record { inode = wake_up inode; moved = []; returned = some (negsuc 0); sigpipe = true }

-- the pipe branch of `iput`, for an end that is closed. At 0 the page is freed too: nobody can read it.
unfoldable pub iput_pipe : Inode → Inode
iput_pipe inode = let woken = wake_up inode in record woken { i_count = woken.i_count - 1 }

-- what the pipe holds, oldest first
unfoldable pub contents : Inode → List ℕ
contents inode = stretch inode.page 4096 inode.tail (pipe_size inode)
