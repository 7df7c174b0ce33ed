-- ===== src/Fs/Files.antt =====
-- fs/fcntl.c and sys_close of fs/open.c: the descriptors of one task, and the table of open files with
-- its reference counts. A pointer to an open file is its index in `file_table`.
pub mod Counts
pub mod Lowest
pub mod Calls
use linux_0_01raf.Prelude.{
  ℕ, zero, suc, ◌+◌, ◌-◌, ◌*◌, ◌/◌, ◌%◌, ◌^◌, Bool, true, false, Option, none, some, List, [], ◌∷◌,
  leb, ◌==◌, if◌then◌else◌, get_or, set,
}
use linux_0_01raf.Prelude.Int.{ℤ, pos, negsuc}

abbrev pub nr_open : ℕ
nr_open = 20

-- struct file
pub record File : Type 0 where
  pub f_mode : ℕ
  pub f_flags : ℕ
  pub f_count : ℕ
  pub f_inode : Option ℕ
  pub f_pos : ℤ

abbrev pub no_file : File
no_file = record { f_mode = 0; f_flags = 0; f_count = 0; f_inode = none; f_pos = pos 0 }

-- `filp` and `close_on_exec` of the current task, the table of open files, and the inodes that `iput`
-- was called on, the latest first
pub record Files : Type 0 where
  pub filp : List (Option ℕ)
  pub close_on_exec : ℕ
  pub file_table : List File
  pub iputs : List (Option ℕ)

-- A call returns, or stops the kernel.
pub data Outcome : Type 0 where
  returns : ℤ → Files → Outcome
  panic : Outcome

-- include/errno.h, negated
abbrev pub ebadf : ℤ
ebadf = negsuc 8

abbrev pub einval : ℤ
einval = negsuc 21

abbrev pub emfile : ℤ
emfile = negsuc 23

-- x & ~(1 << k)
unfoldable pub clear_bit : ℕ → ℕ → ℕ
clear_bit x k = if x / 2 ^ k % 2 == 0 then x else x - 2 ^ k

-- x | (1 << k)
unfoldable pub set_bit : ℕ → ℕ → ℕ
set_bit x k = if x / 2 ^ k % 2 == 0 then x + 2 ^ k else x

abbrev pub file_at : Files → ℕ → File
file_at s f = get_or s.file_table f no_file

abbrev pub with_count : Files → ℕ → ℕ → List File
with_count s f n = set s.file_table f (record (file_at s f) { f_count = n })

-- while (arg < NR_OPEN) if (current->filp[arg]) arg++; else break;
-- for `n` descriptors from `arg` on
unfoldable pub next_free : List (Option ℕ) → ℕ → ℕ → ℕ
next_free filp zero arg = arg
next_free filp (suc n) arg =
    let rest = next_free filp n (arg + 1) in
    elim (get_or filp arg none) [ none ↦ arg | some f ↦ rest ]

-- current->close_on_exec &= ~(1<<arg); (current->filp[arg] = current->filp[fd])->f_count++;
unfoldable pub install : ℕ → ℕ → Files → Files
install f arg s = record s {
  filp = set s.filp arg (some f);
  close_on_exec = clear_bit s.close_on_exec arg;
  file_table = with_count s f (((file_at s f).f_count + 1) % 65536);
}

unfoldable pub dupfd : ℕ → ℕ → Files → Outcome
dupfd fd arg s = if leb nr_open fd then returns ebadf s else elim (get_or s.filp fd none) [
  | none ↦ returns ebadf s
  | some f ↦
      if leb nr_open arg
      then returns einval s
      else let free = next_free s.filp (nr_open - arg) arg in
        if leb nr_open free then returns emfile s else returns (pos free) (install f free s)
]

-- the last part of `sys_close`, for a descriptor that is open
unfoldable pub drop_file : ℕ → Files → Outcome
drop_file f s =
    let count = (file_at s f).f_count in
    let t = record s { file_table = with_count s f (count - 1) } in
    if count == 0
    then panic
    else if count - 1 == 0
    then returns (pos 0) (record t { iputs = (file_at s f).f_inode ∷ t.iputs })
    else returns (pos 0) t

unfoldable pub sys_close : ℕ → Files → Outcome
sys_close fd s = if leb nr_open fd then returns einval s else elim (get_or s.filp fd none) [
  | none ↦ returns einval (record s { close_on_exec = clear_bit s.close_on_exec fd })
  | some f ↦
      drop_file f
        (record s { filp = set s.filp fd none; close_on_exec = clear_bit s.close_on_exec fd })
]

unfoldable pub sys_dup2 : ℕ → ℕ → Files → Outcome
sys_dup2 oldfd newfd s = elim (sys_close newfd s) [
  | panic ↦ panic
  | returns answer t ↦ dupfd oldfd newfd t
]

unfoldable pub sys_dup : ℕ → Files → Outcome
sys_dup fildes s = dupfd fildes 0 s

-- the commands of include/fcntl.h
abbrev pub f_dupfd : ℕ
f_dupfd = 0

abbrev pub f_getfd : ℕ
f_getfd = 1

abbrev pub f_setfd : ℕ
f_setfd = 2

abbrev pub f_getfl : ℕ
f_getfl = 3

abbrev pub f_setfl : ℕ
f_setfl = 4

-- f_flags with the bits O_APPEND | O_NONBLOCK, 02000 and 04000 in octal, taken from `arg`
unfoldable pub new_flags : ℕ → ℕ → ℕ
new_flags f_flags arg = f_flags - f_flags / 1024 % 4 * 1024 + arg / 1024 % 4 * 1024

-- sys_fcntl for an open descriptor. Its locks and unknown commands answer -1 alike.
unfoldable pub do_fcntl : ℕ → ℕ → ℕ → ℕ → Files → Outcome
do_fcntl fd f cmd arg s =
    if cmd == f_dupfd
    then dupfd fd arg s
    else if cmd == f_getfd
    then returns (pos (s.close_on_exec / 2 ^ fd % 2)) s
    else if cmd == f_setfd
    then returns (pos 0) (record s {
      close_on_exec =
          if arg % 2 == 1 then set_bit s.close_on_exec fd else clear_bit s.close_on_exec fd;
    })
    else if cmd == f_getfl
    then returns (pos (file_at s f).f_flags) s
    else if cmd == f_setfl
    then returns (pos 0) (record s {
      file_table =
          set s.file_table f
            (record (file_at s f) { f_flags = new_flags (file_at s f).f_flags arg });
    })
    else returns (negsuc 0) s

unfoldable pub sys_fcntl : ℕ → ℕ → ℕ → Files → Outcome
sys_fcntl fd cmd arg s =
    if leb nr_open fd
    then returns ebadf s
    else elim (get_or s.filp fd none) [ none ↦ returns ebadf s | some f ↦ do_fcntl fd f cmd arg s ]

-- for (i=0 ; i<NR_OPEN ; i++) if (current->filp[i]) sys_close(i);
-- of `do_exit`, for `n` descriptors from `i` on
unfoldable pub close_all : ℕ → ℕ → Files → Outcome
close_all zero i s = returns (pos 0) s
close_all (suc n) i s = elim (get_or s.filp i none) [
  | none ↦ close_all n (i + 1) s
  | some f ↦ elim (sys_close i s) [ panic ↦ panic | returns answer t ↦ close_all n (i + 1) t ]
]
