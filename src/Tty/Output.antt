-- ===== src/Tty/Output.antt =====
-- kernel/tty_io.c: the inner loop of `tty_write`, which maps characters and puts them into the write queue.
use linux_0_01raf.Prelude.{
  ℕ, zero, suc, ◌-◌, Bool, true, false, not, ◌&&◌, List, [], ◌∷◌, leb, ◌==◌, if◌then◌else◌,
}
use linux_0_01raf.Tty.{Queue, Termios, flag, left, is_full, putch}

-- the bits of include/termios.h
abbrev pub o_post : Termios → Bool
o_post t = flag t.c_oflag 0

abbrev pub o_lcuc : Termios → Bool
o_lcuc t = flag t.c_oflag 1

abbrev pub o_nlcr : Termios → Bool
o_nlcr t = flag t.c_oflag 2

abbrev pub o_crnl : Termios → Bool
o_crnl t = flag t.c_oflag 3

abbrev pub o_nlret : Termios → Bool
o_nlret t = flag t.c_oflag 5

-- the macro of include/ctype.h
unfoldable pub toupper : ℕ → ℕ
toupper c = if leb 97 c && leb c 122 then c - 32 else c

-- the first two tests on a character
unfoldable pub map_output : Termios → ℕ → ℕ
map_output t c =
    if o_post t
    then if (c == 13) && o_crnl t then 10 else if (c == 10) && o_nlret t then 13 else c
    else c

-- a newline before which a carriage return has to go
unfoldable pub wants_return : Termios → Bool → ℕ → Bool
wants_return t cr_flag c = o_post t && ((map_output t c == 10) && (not cr_flag && o_nlcr t))

unfoldable pub output_char : Termios → ℕ → ℕ
output_char t c = if o_post t && o_lcuc t then toupper (map_output t c) else map_output t c

-- `cr_flag` is static: it outlives a call. `rest` is what is not taken from `buf` yet.
pub record Output : Type 0 where
  pub write_q : Queue
  pub cr_flag : Bool
  pub rest : List ℕ

-- while (nr>0 && !FULL(tty->write_q)): each round puts one character
unfoldable pub put_loop : ℕ → Termios → Output → Output
put_loop zero t o = o
put_loop (suc n) t o = elim o.rest [
  | [] ↦ o
  | c ∷ cs ↦
      let returned = put_loop n t (record o { write_q = putch 13 o.write_q; cr_flag = true }) in
      let written =
        put_loop n t
          (record { write_q = putch (output_char t c) o.write_q; cr_flag = false; rest = cs }) in
      if is_full o.write_q then o else if wants_return t o.cr_flag c then returned else written
]

unfoldable pub put_chars : Termios → Output → Output
put_chars t o = put_loop (left o.write_q) t o
