-- ===== src/Console/Write.antt =====
-- kernel/console.c: con_write, which takes the characters of the write queue one by one.
use linux_0_01raf.Prelude.{
  ℕ, zero, suc, ◌+◌, ◌-◌, ◌*◌, ◌%◌, ◌&&◌, ◌||◌, List, [], ◌∷◌, ltb, leb, ◌==◌, if◌then◌else◌,
  get_or, set, replicate,
}
use linux_0_01raf.Tty.{Termios, Tty, is_erase, chars, next_char, getch, putch, copy_to_cooked}
use linux_0_01raf.Console.{
  lines, columns, npar_max, add32, sub32, Console, store, gotoxy, lf, ri, cr, del, save_cur,
  restore_cur,
}
use linux_0_01raf.Console.Commands.{csi_J, csi_K, csi_L, csi_M, csi_P, csi_at, csi_m}

-- x -= columns; pos -= columns<<1; lf()
unfoldable pub next_line : Console → Console
next_line c = lf (record c { x = sub32 c.x columns; pos = sub32 c.pos (columns * 2) })

unfoldable pub put_char : ℕ → Console → Console
put_char ch c =
    let at = if leb columns c.x then next_line c else c in
    record at {
      video = store at.pos (at.attr * 256 + ch) at.video;
      pos = add32 at.pos 2;
      x = add32 at.x 1;
    }

unfoldable pub backspace : Console → Console
backspace c = if c.x == 0 then c else record c { x = c.x - 1; pos = sub32 c.pos 2 }

unfoldable pub tab : Console → Console
tab c =
    let step = 8 - c.x % 8 in
    let at = record c { x = add32 c.x step; pos = add32 c.pos (step * 2) } in
    if ltb columns at.x then next_line at else at

-- case 0
unfoldable pub text_char : Termios → ℕ → Console → Console
text_char termios ch c =
    if ltb 31 ch && ltb ch 127
    then put_char ch c
    else if ch == 27
    then record c { state = 1 }
    else if (ch == 10) || ((ch == 11) || (ch == 12))
    then lf c
    else if ch == 13
    then cr c
    else if is_erase termios ch
    then del c
    else if ch == 8
    then backspace c
    else if ch == 9
    then tab c
    else c

-- the console's terminal
abbrev pub Terminal : Type 0
Terminal = Tty Console

-- "\033[?1;2c"
abbrev pub response : List ℕ
response = 27 ∷ 91 ∷ 63 ∷ 49 ∷ 59 ∷ 50 ∷ 99 ∷ []

unfoldable pub answer : List ℕ → Terminal → Terminal
answer [] t = t
answer (p ∷ ps) t = answer ps (record t { read_q = putch p t.read_q })

-- if (par) par--;
abbrev pub less_one : ℕ → ℕ
less_one par = par - 1

-- if (!par) par++;
abbrev pub at_least_one : ℕ → ℕ
at_least_one par = if par == 0 then 1 else par

-- case 'r'
unfoldable pub set_region : ℕ → ℕ → Console → Console
set_region first last c =
    if ltb first last && leb last lines then record c { top = first; bottom = last } else c

-- case 4: parameters are set to zero before the next sequence, and are passed as they are then
unfoldable pub command : ℕ → Console → Console
command ch s =
    let c = record s { state = 0 } in
    let p = get_or c.par 0 0 in
    let q = get_or c.par 1 0 in
    if (ch == 71) || (ch == 96)
    then gotoxy (less_one p) c.y c
    else if ch == 65
    then gotoxy c.x (sub32 c.y (at_least_one p)) c
    else if (ch == 66) || (ch == 101)
    then gotoxy c.x (add32 c.y (at_least_one p)) c
    else if (ch == 67) || (ch == 97)
    then gotoxy (add32 c.x (at_least_one p)) c.y c
    else if ch == 68
    then gotoxy (sub32 c.x (at_least_one p)) c.y c
    else if ch == 69
    then gotoxy 0 (add32 c.y (at_least_one p)) c
    else if ch == 70
    then gotoxy 0 (sub32 c.y (at_least_one p)) c
    else if ch == 100
    then gotoxy c.x (less_one p) c
    else if (ch == 72) || (ch == 102)
    then gotoxy (less_one q) (less_one p) c
    else if ch == 74
    then csi_J p c
    else if ch == 75
    then csi_K p c
    else if ch == 76
    then csi_L p c
    else if ch == 77
    then csi_M p c
    else if ch == 80
    then csi_P p c
    else if ch == 64
    then csi_at p c
    else if ch == 109
    then csi_m c
    else if ch == 114
    then set_region (less_one p) (if q == 0 then lines else q) c
    else if ch == 115
    then save_cur c
    else if ch == 117
    then restore_cur c
    else c

-- par[npar]=10*par[npar]+c-'0'
unfoldable pub add_digit : ℕ → Console → Console
add_digit ch c = record c { par = set c.par c.npar (sub32 (10 * get_or c.par c.npar 0 + ch) 48) }

-- case 3, which falls through to case 4
unfoldable pub parameter_char : ℕ → Console → Console
parameter_char ch c =
    if (ch == 59) && ltb c.npar (npar_max - 1)
    then record c { npar = c.npar + 1 }
    else if leb 48 ch && leb ch 57
    then add_digit ch c
    else command ch (record c { state = 4 })

-- case 2, which falls through to case 3
unfoldable pub bracket_char : ℕ → Console → Console
bracket_char ch c =
    let clear = record c { par = replicate npar_max 0; npar = 0; state = 3; ques = ch == 63 } in
    if ch == 63 then clear else parameter_char ch clear

-- `echo_write` is tty->write, con_write itself, in a call from inside con_write
module _ (echo_write : Terminal → Terminal) where
  -- PUTCH of each character of RESPONSE, and copy_to_cooked, which echoes
  unfoldable pub respond : Terminal → Terminal
  respond t = copy_to_cooked echo_write (answer response t)

  -- case 1. The last two tests are on `x`, as in the code.
  unfoldable pub escape_char : ℕ → Terminal → Terminal
  escape_char ch t =
      let c = record t.device { state = 0 } in
      if ch == 91
      then record t { device = record t.device { state = 2 } }
      else if ch == 69
      then record t { device = gotoxy 0 (add32 c.y 1) c }
      else if ch == 77
      then record t { device = ri c }
      else if ch == 68
      then record t { device = lf c }
      else if ch == 90
      then respond (record t { device = c })
      else if c.x == 55
      then record t { device = save_cur c }
      else if c.x == 56
      then record t { device = restore_cur c }
      else record t { device = c }

  unfoldable pub write_char : ℕ → Terminal → Terminal
  write_char ch t =
      let c = t.device in
      if c.state == 0
      then record t { device = text_char t.termios ch c }
      else if c.state == 1
      then escape_char ch t
      else if c.state == 2
      then record t { device = bracket_char ch c }
      else if c.state == 3
      then record t { device = parameter_char ch c }
      else if c.state == 4
      then record t { device = command ch c }
      else t

  -- while (nr--): the queue is read whether or not it still has characters
  unfoldable pub write_loop : ℕ → Terminal → Terminal
  write_loop zero t = t
  write_loop (suc nr) t =
      write_loop nr (write_char (next_char t.write_q) (record t { write_q = getch t.write_q }))

-- con_write in which calls stand inside each other at most `depth` deep: a call that is deeper draws nothing.
-- `set_cursor` is a write to the video controller.
unfoldable pub con_write : ℕ → Terminal → Terminal
con_write zero t = t
con_write (suc depth) t = write_loop (con_write depth) (chars t.write_q) t
