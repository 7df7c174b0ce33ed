-- ===== src/Console/Tool.antt =====
-- kernel/console.c: the tool window of F1, which is drawn over the text: the clipboard, and the list of a
-- directory's names. The arrays `char [10][20]` are lists of 200 bytes, so that a row with no zero byte runs
-- on into the next.
use linux_0_01raf.Prelude.{
  ℕ, zero, suc, ◌+◌, ◌-◌, ◌*◌, ◌/◌, ◌%◌, List, [], ◌∷◌, ltb, leb, ◌==◌, if◌then◌else◌, get_or, set,
  drop, length,
}
use linux_0_01raf.Tty.{Queue, putch}
use linux_0_01raf.Console.{add32, sub32, Console, store, gotoxy, save_cur, restore_cur}

abbrev pub tool_col_start : ℕ
tool_col_start = 57

abbrev pub tool_col_end : ℕ
tool_col_end = 79

abbrev pub tool_line_end : ℕ
tool_line_end = 12

-- for (i=first; ...; i++), `n` times
unfoldable pub for_loop : ℕ → ℕ → (ℕ → Console → Console) → Console → Console
for_loop zero first body c = c
for_loop (suc n) first body c = for_loop n (first + 1) body (body first c)

-- gotoxy, and a character with an attribute at the cursor
unfoldable pub plot : ℕ → ℕ → ℕ → ℕ → Console → Console
plot attr ch x y c =
    let at = gotoxy x y c in record at { video = store at.pos (attr * 256 + ch) at.video }

-- in the attribute of the console
unfoldable pub draw : ℕ → ℕ → ℕ → Console → Console
draw ch x y c = plot c.attr ch x y c

-- gotoxy, and another attribute for the character there
unfoldable pub tint : ℕ → ℕ → ℕ → Console → Console
tint colour x y c =
    let at = gotoxy x y c in
    record at { video = store at.pos (colour * 256 + at.video at.pos % 256) at.video }

unfoldable pub frame_lines : Console → Console
frame_lines c =
    for_loop 12 0 (λ i. draw 35 (tool_col_end - 1) i)
      (for_loop 12 0 (λ i. draw 35 tool_col_start i)
        (for_loop 21 tool_col_start (λ i. draw 35 i (tool_line_end - 1))
          (for_loop 21 tool_col_start (λ i. draw 35 i 0) c)))

unfoldable pub tool_draw : Console → Console
tool_draw c = restore_cur (
    for_loop 10 1 (λ i. for_loop 20 (tool_col_start + 1) (λ j. draw 32 j i))
      (frame_lines (save_cur c)))

-- strlen, on the rest of an array
unfoldable pub zero_at : List ℕ → ℕ
zero_at [] = 0
zero_at (c ∷ cs) = if c == 0 then 0 else suc (zero_at cs)

unfoldable pub row_length : List ℕ → ℕ → ℕ
row_length rows i = zero_at (drop (20 * i) rows)

-- TOOL_COL_START + (12 - k) - 1
abbrev pub col_write_start : ℕ → ℕ
col_write_start length = sub32 (tool_col_start + 11) (length / 2)

-- a row's text, centred in line `i` + 1
unfoldable pub draw_row : ℕ → List ℕ → ℕ → Console → Console
draw_row col rows i c =
    let n = row_length rows i in
    for_loop n 0 (λ j. plot col (get_or rows (20 * i + j) 0) (add32 (col_write_start n) j) (i + 1))
      c

unfoldable pub draw_list_clip : List ℕ → Console → Console
draw_list_clip text_clip c =
    restore_cur (for_loop 10 0 (λ i. draw_row 0x06 text_clip i) (save_cur c))

-- mark_selected_clip and mark_selected, on their indices
unfoldable pub mark_selected : ℕ → Console → Console
mark_selected index c =
    restore_cur (for_loop 20 (tool_col_start + 1) (λ j. tint 0x30 j (index + 1)) (save_cur c))

-- `pathname` without its zero byte
unfoldable pub set_path_name : List ℕ → Console → Console
set_path_name pathname c =
    let n = length pathname in
    let start = col_write_start n in
    restore_cur (
      draw 93 (add32 start n) 0 (
        for_loop n 0 (λ i. draw (get_or pathname i 0) (add32 start i) 0)
          (draw 91 (sub32 start 1) 0 (save_cur c))))

-- "clipboard"
abbrev pub clipboard_title : List ℕ
clipboard_title = 99 ∷ 108 ∷ 105 ∷ 112 ∷ 98 ∷ 111 ∷ 97 ∷ 114 ∷ 100 ∷ []

-- the static variables of the tool
pub record Tool : Type 0 where
  pub con : Console
  pub tool : ℕ
  pub text_clip : List ℕ
  pub selected_index_clip : ℕ
  pub name : List ℕ
  pub selected_index : ℕ
  pub list_count : ℕ
  pub current_addres : List ℕ

-- draw_list_clip(); mark_selected_clip(); set_path_name("clipboard"), on a window that is drawn again
unfoldable pub redraw_clip : Tool → Tool
redraw_clip t = record t {
  con =
      set_path_name clipboard_title
        (mark_selected t.selected_index_clip (draw_list_clip t.text_clip (tool_draw t.con)));
}

unfoldable pub put_char_to_clip : ℕ → Tool → Tool
put_char_to_clip character t =
    let i = t.selected_index_clip in
    let n = row_length t.text_clip i in
    if ltb n 19
    then redraw_clip (record t { text_clip = set t.text_clip (20 * i + n) character })
    else t

unfoldable pub remove_char_for_clip : Tool → Tool
remove_char_for_clip t =
    let i = t.selected_index_clip in
    let n = row_length t.text_clip i in
    if n == 0 then t else redraw_clip (record t { text_clip = set t.text_clip (20 * i + n - 1) 0 })

-- the order in which the arrows draw: the title before the rows
unfoldable pub redraw_arrow : Tool → Tool
redraw_arrow t = record t {
  con =
      mark_selected t.selected_index_clip
        (draw_list_clip t.text_clip (set_path_name clipboard_title (tool_draw t.con)));
}

-- arr_down and arr_up, where `tool` is 2
unfoldable pub clip_down : Tool → Tool
clip_down t = redraw_arrow (record t {
  selected_index_clip = if ltb (t.selected_index_clip + 1) 10 then t.selected_index_clip + 1 else 0;
})

unfoldable pub clip_up : Tool → Tool
clip_up t = redraw_arrow (record t {
  selected_index_clip = if leb 1 t.selected_index_clip then t.selected_index_clip - 1 else 9;
})

-- PUTCH of the bytes of an array from `k` on, up to the zero byte
unfoldable pub put_text : List ℕ → ℕ → Queue → Queue
put_text rows zero q = q
put_text [] (suc n) q = q
put_text (c ∷ cs) (suc n) q = put_text cs n (putch c q)

-- what goes to the read queue of tty_table[0]
unfoldable pub paste_to_con : Tool → Queue → Queue
paste_to_con t q =
    if t.tool == 2
    then put_text (drop (20 * t.selected_index_clip) t.text_clip)
        (row_length t.text_clip t.selected_index_clip) q
    else put_text (drop (20 * t.selected_index) t.name) (row_length t.name t.selected_index)
        (put_text t.current_addres (zero_at t.current_addres) q)
