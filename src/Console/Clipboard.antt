-- ===== src/Console/Clipboard.antt =====
-- kernel/console.c: the keys of the clipboard keep its rows and the screen in order.
use linux_0_01raf.Prelude.{
  ℕ, ◌+◌, ◌-◌, ◌*◌, ◌≤◌, ◌<◌, ◌≡◌, ◌≢◌, ◌∙◌, ap, refl, inl, inr, arith, true, false, ltb, ◌==◌,
  Bool-cases, List, [], ◌∷◌, set,
}
use linux_0_01raf.Console.Cursor.{OnScreen, SameElsewhere}
use linux_0_01raf.Console.Tool.{
  row_length, tool_draw, draw_list_clip, mark_selected, set_path_name, clipboard_title, Tool,
  redraw_clip, redraw_arrow, put_char_to_clip, remove_char_for_clip, clip_down, clip_up,
}
use linux_0_01raf.Console.Overlay.{
  Returns, Returns-trans, tool_draw-Returns, draw_list_clip-Returns, mark_selected-Returns,
  set_path_name-Returns,
}
use linux_0_01raf.Console.ClipRows.{
  IsClip, put-IsClip, remove-IsClip, set_same, set_twice, longer_row, row_byte,
}

put_text_clip :
    (ch : ℕ) (t : Tool)
    → ltb (row_length t.text_clip t.selected_index_clip) 19 ≡ true
    → ((put_char_to_clip ch t).text_clip
        ≡ set t.text_clip
            (20 * t.selected_index_clip + row_length t.text_clip t.selected_index_clip)
            ch)
      × ((put_char_to_clip ch t).selected_index_clip ≡ t.selected_index_clip)
unfolding put_char_to_clip redraw_clip
put_text_clip ch t h = rw h (refl, refl)

erased_text :
    (t : Tool) (rows : List ℕ) (i : ℕ)
    → t.text_clip ≡ rows
    → t.selected_index_clip ≡ i
    → (row_length rows i == 0) ≡ false
    → (remove_char_for_clip t).text_clip ≡ set rows (20 * i + row_length rows i - 1) 0
unfolding remove_char_for_clip redraw_clip
erased_text t rows i e f h =
    let more : (row_length t.text_clip t.selected_index_clip == 0) ≡ false = rw (e, f) h in
    rw more (rw (e, f) refl)

-- Typing a character into a row of the clipboard that has room, and erasing it, restores all rows.
pub remove_char_for_clip-put_char_to_clip :
    (ch : ℕ) (t : Tool)
    → IsClip t.text_clip
    → t.selected_index_clip ≤ 9
    → row_length t.text_clip t.selected_index_clip < 19
    → ch ≢ 0
    → (remove_char_for_clip (put_char_to_clip ch t)).text_clip ≡ t.text_clip
remove_char_for_clip-put_char_to_clip ch t k hi hn ne =
    let rows = t.text_clip in
    let i = t.selected_index_clip in
    let n = row_length rows i in
    let longer = longer_row rows i ch k hi hn ne in
    let typed = put_text_clip ch t (ground arith) in
    let more : (row_length (set rows (20 * i + n) ch) i == 0) ≡ false = ground (arith, longer) in
    erased_text (put_char_to_clip ch t) (set rows (20 * i + n) ch) i typed.0 typed.1 more
    ∙ ap (λ q. set (set rows (20 * i + n) ch) q 0)
        {x = 20 * i + row_length (set rows (20 * i + n) ch) i - 1} (omega (arith, longer))
    ∙ set_twice rows (20 * i + n) ch 0
    ∙ set_same rows (20 * i + n) 0 (row_byte rows i)

-- the keys
pub data Key : Type 0 where
  types : ℕ → Key
  erases down up : Key

unfoldable pub press : Key → Tool → Tool
press (types ch) t = put_char_to_clip ch t
press erases t = remove_char_for_clip t
press down t = clip_down t
press up t = clip_up t

unfoldable pub press_all : List Key → Tool → Tool
press_all [] t = t
press_all (k ∷ ks) t = press_all ks (press k t)

unfoldable pub IsTool : Tool → Type 0
IsTool t = OnScreen t.con × IsClip t.text_clip × (t.selected_index_clip ≤ 9)

redraw_clip-Returns : (t : Tool) → IsTool t → Returns t.con (redraw_clip t).con
unfolding redraw_clip IsTool IsClip Returns
redraw_clip-Returns t (g, k, h) =
    let a = tool_draw-Returns t.con g in
    let b = draw_list_clip-Returns t.text_clip k.1 (tool_draw t.con) a.0 in
    let c =
      mark_selected-Returns t.selected_index_clip h (draw_list_clip t.text_clip (tool_draw t.con))
        b.0 in
    let d =
      set_path_name-Returns clipboard_title (omega arith)
        (mark_selected t.selected_index_clip (draw_list_clip t.text_clip (tool_draw t.con))) c.0 in
    Returns-trans _ _ _ (Returns-trans _ _ _ (Returns-trans _ _ _ a b) c) d

redraw_arrow-Returns : (t : Tool) → IsTool t → Returns t.con (redraw_arrow t).con
unfolding redraw_arrow IsTool IsClip Returns
redraw_arrow-Returns t (g, k, h) =
    let a = tool_draw-Returns t.con g in
    let b = set_path_name-Returns clipboard_title (omega arith) (tool_draw t.con) a.0 in
    let c =
      draw_list_clip-Returns t.text_clip k.1 (set_path_name clipboard_title (tool_draw t.con))
        b.0 in
    let d =
      mark_selected-Returns t.selected_index_clip h
        (draw_list_clip t.text_clip (set_path_name clipboard_title (tool_draw t.con))) c.0 in
    Returns-trans _ _ _ (Returns-trans _ _ _ (Returns-trans _ _ _ a b) c) d

unfoldable pub Keeps : Tool → Tool → Type 0
Keeps t u = IsTool u × Returns t.con u.con

redraw_clip-Keeps : (t : Tool) → IsTool t → Keeps t (redraw_clip t)
unfolding Keeps IsTool redraw_clip Returns
redraw_clip-Keeps t g = let r = redraw_clip-Returns t g in ((r.0, g.1, g.2), r)

redraw_arrow-Keeps : (t : Tool) → IsTool t → Keeps t (redraw_arrow t)
unfolding Keeps IsTool redraw_arrow Returns
redraw_arrow-Keeps t g = let r = redraw_arrow-Returns t g in ((r.0, g.1, g.2), r)

Keeps-refl : (t : Tool) → IsTool t → Keeps t t
unfolding Keeps IsTool Returns SameElsewhere
Keeps-refl t g = (g, (g.0, (refl, refl, refl, refl), λ b o. refl, λ i j a b c. refl))

press-Keeps : (k : Key) (t : Tool) → IsTool t → Keeps t (press k t)
unfolding press put_char_to_clip remove_char_for_clip clip_down clip_up IsTool Keeps
press-Keeps (types ch) t (g, k, h) =
    elim (Bool-cases (ltb (row_length t.text_clip t.selected_index_clip) 19)) [
      | inl room ↦ rw room (
          redraw_clip-Keeps _
            (g, put-IsClip t.text_clip t.selected_index_clip ch k h (ground arith), h))
      | inr full ↦ rw full (Keeps-refl t (g, k, h))
    ]
press-Keeps erases t (g, k, h) =
    elim (Bool-cases (row_length t.text_clip t.selected_index_clip == 0)) [
      | inl empty ↦ rw empty (Keeps-refl t (g, k, h))
      | inr more ↦ rw more (
          redraw_clip-Keeps _
            (g, remove-IsClip t.text_clip t.selected_index_clip k h (ground arith), h))
    ]
press-Keeps down t (g, k, h) = redraw_arrow-Keeps _ (g, k, ground arith)
press-Keeps up t (g, k, h) = redraw_arrow-Keeps _ (g, k, ground arith)

-- Where the cursor is on the screen and the clipboard has ten rows of at most 19 bytes: any keys of the
-- clipboard leave both so, with one of the ten rows selected and the cursor where it was; and they change
-- no cell beside the tool window, and no memory outside video memory.
pub press_all-Keeps : (ks : List Key) (t : Tool) → IsTool t → Keeps t (press_all ks t)
unfolding press_all Keeps
press_all-Keeps [] t g = Keeps-refl t g
press_all-Keeps (k ∷ ks) t g =
    let one = press-Keeps k t g in
    let rest = press_all-Keeps ks (press k t) one.0 in
    (rest.0, Returns-trans t.con (press k t).con (press_all ks (press k t)).con one.1 rest.1)
