-- ===== src/Examples/Screens.antt =====
-- kernel/console.c: the theorems at concrete screens, and con_write on short texts.
use linux_0_01raf.Prelude.{
  false, ℕ, zero, suc, ◌+◌, ◌*◌, ◌≡◌, refl, List, [], ◌∷◌, arith, replicate, length-replicate,
  get_or, drop, if◌then◌else◌, ltb, leb, ◌==◌, ◌&&◌, not, Bool,
}
use linux_0_01raf.Prelude.Int.{pos}
use linux_0_01raf.Tty.{Queue, inc, chars, next_char, getch}
use linux_0_01raf.Console.{blank, Console, scrup, lf}
use linux_0_01raf.Console.Commands.{csi_M, csi_P, attribute, attributes, csi_m}
use linux_0_01raf.Console.Cursor.{OnScreen}
use linux_0_01raf.Console.Screen.{cell, scrolled_up, scrup-cell}
use linux_0_01raf.Console.Editing.{csi_M-cell}
use linux_0_01raf.Console.Rows.{csi_P-cell}
use linux_0_01raf.Console.Drawing.{number_of}
use linux_0_01raf.Console.Write.{
  Terminal, next_line, put_char, text_char, escape_char, bracket_char, parameter_char, add_digit,
  command, write_char, write_loop, con_write,
}
use linux_0_01raf.Console.Tool.{Tool, zero_at, row_length}
use linux_0_01raf.Console.ClipRows.{IsClip}
use linux_0_01raf.Console.Clipboard.{
  types, erases, down, up, IsTool, press_all, Keeps, press_all-Keeps,
}

-- the digits of the address, as if they stood in memory
abbrev memory : ℕ → ℕ
memory a = a

abbrev at_boot : Console
at_boot = record {
  origin = 0xb8000;
  scr_end = 0xb8fa0;
  pos = 0xb8000 + 2 * (24 * 80 + 78);
  x = 78;
  y = 24;
  top = 0;
  bottom = 25;
  state = 0;
  npar = 0;
  par = replicate 16 0;
  ques = Bool.false;
  attr = 7;
  saved_x = 0;
  saved_y = 0;
  video = memory;
}

at_boot-OnScreen : OnScreen at_boot
unfolding OnScreen
at_boot-OnScreen = ground arith

-- "A", escape, "[4m", "BC"
abbrev text : List ℕ
text = 65 ∷ 27 ∷ 91 ∷ 52 ∷ 109 ∷ 66 ∷ 67 ∷ []

abbrev quiet : Queue
quiet = record { data_count = 0; head = 0; tail = 0; buf = [] }

abbrev terminal : Terminal
terminal = record {
  termios = record { c_iflag = 0; c_oflag = 0; c_lflag = 0; c_cc = 3 ∷ 28 ∷ 127 ∷ [] };
  pgrp = pos 0;
  stopped = 0;
  read_q = quiet;
  write_q = record { data_count = 0; head = 7; tail = 0; buf = text };
  secondary = quiet;
  task = [];
  device = at_boot;
}

-- the last character has wrapped, and the screen has scrolled
written : (con_write 1 terminal).device.x ≡ 1
unfolding con_write write_loop write_char text_char put_char next_line lf scrup escape_char
    bracket_char parameter_char add_digit command csi_m attributes attribute chars next_char getch
    inc
written = refl

scrup-cell_example : cell (scrup at_boot) 3 23 ≡ scrolled_up 0 25 (cell at_boot) 3 23
scrup-cell_example = scrup-cell at_boot 3 23 at_boot-OnScreen (omega arith) (omega arith)

csi_M-cell_example : cell (csi_M 2 at_boot) 3 23 ≡ (
    if ltb 23 24
    then cell at_boot 3 23
    else if ltb (23 + number_of 25 2) 25
    then cell at_boot 3 (23 + number_of 25 2)
    else blank)
csi_M-cell_example = csi_M-cell 2 at_boot 3 23 at_boot-OnScreen (omega arith) (omega arith)

csi_P-cell_example : cell (csi_P 1 at_boot) 78 24 ≡ (
    if not ((24 == 24) && leb 78 78)
    then cell at_boot 78 24
    else if ltb (78 + number_of 80 1) 80
    then cell at_boot (78 + number_of 80 1) 24
    else blank)
csi_P-cell_example = csi_P-cell 1 at_boot 78 24 at_boot-OnScreen (omega arith) (omega arith)

-- an empty clipboard
abbrev window : Tool
window = record {
  con = at_boot;
  tool = 2;
  text_clip = replicate 200 0;
  selected_index_clip = 9;
  name = replicate 200 0;
  selected_index = 0;
  list_count = 0;
  current_addres = 47 ∷ replicate 19 0;
}

get_or-zeros : (n k : ℕ) → ◌≡◌ {A = ℕ} (get_or (replicate n 0) k 0) 0
get_or-zeros zero k = refl
get_or-zeros (suc n) zero = refl
get_or-zeros (suc n) (suc k) = get_or-zeros n k

zero_at-zeros : (n k : ℕ) → zero_at (drop k (replicate n 0)) ≡ 0
unfolding zero_at
zero_at-zeros zero zero = refl
zero_at-zeros zero (suc k) = refl
zero_at-zeros (suc n) zero = refl
zero_at-zeros (suc n) (suc k) = zero_at-zeros n k

window-IsTool : IsTool window
unfolding IsTool IsClip row_length
window-IsTool = (
  at_boot-OnScreen,
  (
    length-replicate {A = ℕ} 200 0,
    λ i h. omega (arith, zero_at-zeros 200 (20 * i)),
    λ i k a b c. get_or-zeros 200 (20 * i + k),
  ),
  omega arith,
)

press_all-Keeps_example :
    Keeps window (press_all (types 97 ∷ down ∷ types 98 ∷ erases ∷ up ∷ []) window)
press_all-Keeps_example =
    press_all-Keeps (types 97 ∷ down ∷ types 98 ∷ erases ∷ up ∷ []) window window-IsTool
