-- ===== src/Tty.antt =====
-- kernel/tty_io.c and include/linux/tty.h: the queues of a terminal, and the editing of what is typed.
-- `char` is signed: a byte from 128 on is below 32, and differs from every control character.

pub mod Queues
pub mod Line
pub mod Edited
pub mod Cooked
pub mod Output
pub mod Posted
use linux_0_01raf.Prelude.{
  ℕ, zero, suc, ◌+◌, ◌-◌, ◌*◌, ◌/◌, ◌%◌, ◌^◌, Bool, true, false, not, ◌&&◌, ◌||◌, Option, none,
  some, List, [], ◌∷◌, ltb, leb, ◌==◌, if◌then◌else◌, get_or, set,
}
use linux_0_01raf.Prelude.Int.{ℤ, pos, negsuc}
use linux_0_01raf.Ring.{stretch}
use linux_0_01raf.Sched.{Task, Tasks, each_task, or_bit}
use linux_0_01raf.Sched.Signals.{eq_ℤ}

abbrev pub tty_buf_size : ℕ
tty_buf_size = 1024

-- struct tty_queue, but for the tasks that wait on it
pub record Queue : Type 0 where
  pub data_count : ℕ
  pub head : ℕ
  pub tail : ℕ
  pub buf : List ℕ

unfoldable pub inc : ℕ → ℕ
inc a = (a + 1) % 1024

unfoldable pub dec : ℕ → ℕ
dec a = (a + 1023) % 1024

unfoldable pub is_empty : Queue → Bool
is_empty q = q.head == q.tail

-- the difference of unsigned words, masked
unfoldable pub left : Queue → ℕ
left q = (q.tail + 4294967296 - q.head - 1) % 1024

unfoldable pub is_full : Queue → Bool
is_full q = left q == 0

unfoldable pub chars : Queue → ℕ
chars q = (q.head + 4294967296 - q.tail) % 1024

unfoldable pub last : Queue → ℕ
last q = get_or q.buf (dec q.head) 0

unfoldable pub next_char : Queue → ℕ
next_char q = get_or q.buf q.tail 0

-- GETCH: the queue without its next character
unfoldable pub getch : Queue → Queue
getch q = record q { tail = inc q.tail }

unfoldable pub putch : ℕ → Queue → Queue
putch c q = record q { buf = set q.buf q.head c; head = inc q.head }

-- DEC(queue.head)
unfoldable pub unput : Queue → Queue
unput q = record q { head = dec q.head }

-- struct termios
pub record Termios : Type 0 where
  pub c_iflag : ℕ
  pub c_oflag : ℕ
  pub c_lflag : ℕ
  pub c_cc : List ℕ

-- struct tty_struct, and the task table, which `tty_intr` signals. `device` is the state that the function
-- `write` of the terminal acts on; that function is a parameter of all that calls it.
pub record Tty (C : Type 0) : Type 0 where
  pub termios : Termios
  pub pgrp : ℤ
  pub stopped : ℕ
  pub read_q : Queue
  pub write_q : Queue
  pub secondary : Queue
  pub task : Tasks
  pub device : C

abbrev pub flag : ℕ → ℕ → Bool
flag x k = x / 2 ^ k % 2 == 1

-- the bits of include/termios.h
abbrev pub i_crnl : Termios → Bool
i_crnl tty = flag tty.c_iflag 8

abbrev pub i_nocr : Termios → Bool
i_nocr tty = flag tty.c_iflag 7

abbrev pub i_nlcr : Termios → Bool
i_nlcr tty = flag tty.c_iflag 6

abbrev pub i_uclc : Termios → Bool
i_uclc tty = flag tty.c_iflag 9

abbrev pub l_isig : Termios → Bool
l_isig tty = flag tty.c_lflag 0

abbrev pub l_canon : Termios → Bool
l_canon tty = flag tty.c_lflag 1

abbrev pub l_echo : Termios → Bool
l_echo tty = flag tty.c_lflag 3

abbrev pub l_echoctl : Termios → Bool
l_echoctl tty = flag tty.c_lflag 9

-- a `signed char` against an unsigned one of `c_cc`
abbrev pub is_cc : Termios → ℕ → ℕ → Bool
is_cc tty k c = (c == get_or tty.c_cc k 0) && ltb c 128

abbrev pub is_erase : Termios → ℕ → Bool
is_erase tty c = is_cc tty 2 c

abbrev pub is_eof : Termios → ℕ → Bool
is_eof tty c = is_cc tty 4 c

abbrev pub is_start : Termios → ℕ → Bool
is_start tty c = is_cc tty 8 c

abbrev pub is_stop : Termios → ℕ → Bool
is_stop tty c = is_cc tty 9 c

abbrev pub is_intr : Termios → ℕ → Bool
is_intr tty c = is_cc tty 0 c

-- c<32, for a `signed char`
abbrev pub is_control : ℕ → Bool
is_control c = ltb c 32 || leb 128 c

-- The macro of include/ctype.h: it adds 'a'+'A'. The table it reads has no entry for negative
-- characters: they are taken to be no capitals.
unfoldable pub tolower : ℕ → ℕ
tolower c = if leb 65 c && leb c 90 then (c + 162) % 256 else c

unfoldable pub tty_intr : {C : Type 0} → ℕ → Tty C → Tty C
tty_intr signal tty = elim tty.pgrp [
  | negsuc n ↦ tty
  | pos zero ↦ tty
  | pos (suc n) ↦ record tty {
    task =
        each_task
          (λ t.
            if eq_ℤ t.pgrp tty.pgrp then record t { signal = or_bit t.signal (signal - 1) } else t)
          tty.task;
  }
]

-- PUTCH(c,tty->write_q)
unfoldable pub echo : {C : Type 0} → ℕ → Tty C → Tty C
echo c tty = record tty { write_q = putch c tty.write_q }

-- the first tests on a character: nothing for one that is ignored
unfoldable pub map_newline : Termios → ℕ → Option ℕ
map_newline termios c =
    if c == 13
    then (if i_crnl termios then some 10 else if i_nocr termios then none else some c)
    else if (c == 10) && i_nlcr termios
    then some 13
    else some c

unfoldable pub count_line : {C : Type 0} → ℕ → Tty C → Tty C
count_line c tty =
    if (c == 10) || is_eof tty.termios c
    then record tty {
      secondary = record tty.secondary { data_count = (tty.secondary.data_count + 1) % 2 ^ 32 };
    }
    else tty

unfoldable pub contents : Queue → List ℕ
contents q = stretch q.buf 1024 q.tail (chars q)

-- `write` is tty->write
module _ {C : Type 0} (write : Tty C → Tty C) where
  unfoldable pub flush : Tty C → Tty C
  flush tty = write tty

  unfoldable pub erase : Tty C → Tty C
  erase tty =
      let c = last tty.secondary in
      if is_empty tty.secondary || ((c == 10) || is_eof tty.termios c)
      then tty
      else let echoed =
          if l_echo tty.termios
          then flush (echo 127 (if is_control c then echo 127 tty else tty))
          else tty in
        record echoed { secondary = unput echoed.secondary }

  unfoldable pub echo_char : ℕ → Tty C → Tty C
  echo_char c tty =
      if not (l_echo tty.termios)
      then tty
      else flush (
          if c == 10
          then echo 13 (echo 10 tty)
          else if is_control c
          then (if l_echoctl tty.termios then echo ((c + 64) % 256) (echo 94 tty) else tty)
          else echo c tty)

  unfoldable pub keep : ℕ → Tty C → Tty C
  keep c tty =
      let echoed = echo_char c (count_line c tty) in
      record echoed { secondary = putch c echoed.secondary }

  -- if (!L_ISIG(tty)): the test is the code's
  unfoldable pub intr_or_keep : ℕ → Tty C → Tty C
  intr_or_keep c tty =
      if not (l_isig tty.termios) && is_intr tty.termios c then tty_intr 2 tty else keep c tty

  -- the loop's body behind GETCH, for a character that is not ignored
  unfoldable pub edit : ℕ → Tty C → Tty C
  edit c tty =
      if l_canon tty.termios
      then if is_erase tty.termios c
        then erase tty
        else if is_stop tty.termios c
        then record tty { stopped = 1 }
        else if is_start tty.termios c
        then record tty { stopped = 0 }
        else intr_or_keep c tty
      else intr_or_keep c tty

  unfoldable pub cook_char : ℕ → Tty C → Tty C
  cook_char c tty = elim (map_newline tty.termios c) [
    | none ↦ tty
    | some d ↦ edit (if i_uclc tty.termios then tolower d else d) tty
  ]

  -- while (!EMPTY(tty->read_q) && !FULL(tty->secondary)): each round takes a character
  unfoldable pub cook_loop : ℕ → Tty C → Tty C
  cook_loop zero tty = tty
  cook_loop (suc n) tty =
      let rest =
        cook_loop n (cook_char (next_char tty.read_q) (record tty { read_q = getch tty.read_q })) in
      if is_empty tty.read_q || is_full tty.secondary then tty else rest

  -- `wake_up` of the readers is left out: the queue has no tasks here
  unfoldable pub copy_to_cooked : Tty C → Tty C
  copy_to_cooked tty = cook_loop (chars tty.read_q) tty
