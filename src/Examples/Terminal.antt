-- ===== src/Examples/Terminal.antt =====
-- kernel/tty_io.c: the theorems at a concrete terminal.
use linux_0_01raf.Prelude.{ℕ, ◌≡◌, refl, false, [], ◌∷◌, arith, replicate, length-replicate}
use linux_0_01raf.Prelude.Int.{pos}
use linux_0_01raf.Tty.{Queue, Termios, Tty, copy_to_cooked, map_newline}
use linux_0_01raf.Tty.Queues.{IsQueue}
use linux_0_01raf.Tty.Output.{Output, put_chars}
use linux_0_01raf.Tty.Posted.{Posted, put_chars-Posted}
use linux_0_01raf.Tty.Edited.{Quiet}
use linux_0_01raf.Tty.Cooked.{Cooked, copy_to_cooked-Cooked}
use linux_0_01raf.Tty.Line.{ends_line, rub, add_char, edit_line, type_char, type_chars}

-- the console's modes: ICRNL, and ICANON | ECHO | ECHOCTL
abbrev modes : Termios
modes = record {
  c_iflag = 256;
  c_oflag = 0;
  c_lflag = 522;
  c_cc = 3 ∷ 28 ∷ 127 ∷ 21 ∷ 4 ∷ 0 ∷ 1 ∷ 0 ∷ 17 ∷ 19 ∷ 25 ∷ 0 ∷ 18 ∷ 15 ∷ 23 ∷ 22 ∷ 0 ∷ [];
}

abbrev fresh : Queue
fresh = record { data_count = 0; head = 0; tail = 0; buf = replicate 1024 0 }

-- "ac", the erase character, "b" and a carriage return were typed
abbrev console : Tty Unit
console = record {
  termios = modes;
  pgrp = pos 0;
  stopped = 0;
  read_q = record {
    data_count = 0;
    head = 5;
    tail = 0;
    buf = 97 ∷ 99 ∷ 127 ∷ 98 ∷ 13 ∷ replicate 1019 0;
  };
  write_q = fresh;
  secondary = fresh;
  task = [];
  device = tt;
}

read_q-IsQueue : IsQueue console.read_q
unfolding IsQueue
read_q-IsQueue = (refl, omega arith, omega arith)

fresh-IsQueue : IsQueue fresh
unfolding IsQueue
fresh-IsQueue = (length-replicate {A = ℕ} 1024 0, omega arith, omega arith)

-- a serial line sends what is in the write queue
abbrev send : Tty Unit → Tty Unit
send t = record t { write_q = record t.write_q { tail = t.write_q.head } }

send-Quiet : (t : Tty Unit) → Quiet t (send t)
send-Quiet t = record { quiet_termios = refl; quiet_input = refl; quiet_line = refl }

copy_to_cooked-Cooked_example : Cooked console (copy_to_cooked send console)
copy_to_cooked-Cooked_example =
    copy_to_cooked-Cooked send send-Quiet console read_q-IsQueue fresh-IsQueue

-- the specification, run
line_typed : type_chars modes (97 ∷ 99 ∷ 127 ∷ 98 ∷ 13 ∷ []) [] ≡ 97 ∷ 98 ∷ 10 ∷ []
unfolding type_chars type_char edit_line add_char rub ends_line map_newline
line_typed = refl

-- OPOST | ONLCR, and a text of two letters and a newline
abbrev two_letters : Output
two_letters = record { write_q = fresh; cr_flag = false; rest = 104 ∷ 105 ∷ 10 ∷ [] }

put_chars-Posted_example :
    Posted
      (record modes { c_oflag = 5 })
      two_letters
      (put_chars (record modes { c_oflag = 5 }) two_letters)
put_chars-Posted_example = put_chars-Posted (record modes { c_oflag = 5 }) two_letters fresh-IsQueue
