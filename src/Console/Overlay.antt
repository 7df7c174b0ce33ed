-- ===== src/Console/Overlay.antt =====
-- kernel/console.c: what the tool window changes on the screen.
use linux_0_01raf.Prelude.{
  ℕ, zero, suc, ◌+◌, ◌*◌, ◌≤◌, ◌<◌, ◌≡◌, ◌∙◌, refl, ◌⊎◌, arith, false, ◌||◌, leb, List, length,
  get_or,
}
use linux_0_01raf.Console.{add32, sub32, Console, store, gotoxy, save_cur, restore_cur}
use linux_0_01raf.Console.Cursor.{OnScreen, SameElsewhere}
use linux_0_01raf.Console.Screen.{cell}
use linux_0_01raf.Console.Tool.{
  for_loop, plot, draw, tint, frame_lines, tool_draw, row_length, col_write_start, draw_row,
  draw_list_clip, mark_selected, set_path_name,
}

-- the cells outside the tool window
abbrev pub Beside : ℕ → ℕ → Type 0
Beside i j = (i < 57) ⊎ ((78 < i) ⊎ (11 < j))

-- The window on video memory and the saved cursor stay, and so do the cells beside the tool window, and all
-- other memory.
unfoldable pub Overlays : Console → Console → Type 0
Overlays c d =
    OnScreen d
    × (d.origin ≡ c.origin)
    × ((d.saved_x ≡ c.saved_x) × (d.saved_y ≡ c.saved_y))
    × SameElsewhere c.video d.video
    × ((i j : ℕ) → i < 80 → j < 25 → Beside i j → cell d i j ≡ cell c i j)

Overlays-refl : (c : Console) → OnScreen c → Overlays c c
unfolding Overlays SameElsewhere
Overlays-refl c g = (g, refl, (refl, refl), λ b o. refl, λ i j p q r. refl)

Overlays-trans : (c d e : Console) → Overlays c d → Overlays d e → Overlays c e
unfolding Overlays SameElsewhere
Overlays-trans c d e (g, o, (x, y), m, k) (h, p, (v, w), n, l) =
    (h, p ∙ o, (v ∙ x, w ∙ y), λ b u. n b u ∙ m b u, λ i j a b r. l i j a b r ∙ k i j a b r)

-- a store to a cell of the tool window, with the cursor there
stored :
    (x y v : ℕ) (c : Console)
    → 57 ≤ x
    → x ≤ 78
    → y ≤ 11
    → OnScreen c
    → Overlays c (record (gotoxy x y c) { video = store (gotoxy x y c).pos v (gotoxy x y c).video })
unfolding Overlays OnScreen SameElsewhere gotoxy cell
stored x y v c a b d (xi, yi, p, e, ev, lo, hi, r, m, sx, sy) =
    let on : leb 80 x || leb 25 y ≡ false = ground arith in
    rw on ((ground arith, refl, (refl, refl), λ b2 o. ground arith, λ i j hi2 hj bs. ground arith))

plot-Overlays :
    (attr ch x y : ℕ) (c : Console)
    → 57 ≤ x
    → x ≤ 78
    → y ≤ 11
    → OnScreen c
    → Overlays c (plot attr ch x y c)
unfolding plot
plot-Overlays attr ch x y c a b d g = stored x y (attr * 256 + ch) c a b d g

draw-Overlays :
    (ch x y : ℕ) (c : Console) → 57 ≤ x → x ≤ 78 → y ≤ 11 → OnScreen c → Overlays c (draw ch x y c)
unfolding draw
draw-Overlays ch x y c a b d g = plot-Overlays c.attr ch x y c a b d g

tint-Overlays :
    (colour x y : ℕ) (c : Console)
    → 57 ≤ x
    → x ≤ 78
    → y ≤ 11
    → OnScreen c
    → Overlays c (tint colour x y c)
unfolding tint
tint-Overlays colour x y c a b d g = stored x y _ c a b d g

on_screen : (c d : Console) → Overlays c d → OnScreen d
unfolding Overlays
on_screen c d o = o.0

-- operations that do so from any console on the screen
abbrev Overlay : (Console → Console) → Type 0
Overlay f = (c : Console) → OnScreen c → Overlays c (f c)

then-Overlay : (f g : Console → Console) → Overlay f → Overlay g → Overlay (λ c. g (f c))
then-Overlay f g p q c o =
    Overlays-trans c (f c) (g (f c)) (p c o) (q (f c) (on_screen c (f c) (p c o)))

for_loop-Overlay :
    (n first : ℕ) (body : ℕ → Console → Console)
    → ((k : ℕ) → first ≤ k → k < first + n → Overlay (body k))
    → Overlay (for_loop n first body)
unfolding for_loop
for_loop-Overlay zero first body h c g = Overlays-refl c g
for_loop-Overlay (suc n) first body h c g =
    let one = h first (omega arith) (omega arith) c g in
    Overlays-trans c (body first c) _ one (
      for_loop-Overlay n (first + 1) body (λ k a b. h k (omega arith) (omega arith)) (body first c)
        (on_screen c _ one))

-- What a call of the tool does: the cursor is where it was, on the screen, and only cells of the tool window
-- may have changed.
unfoldable pub Returns : Console → Console → Type 0
Returns c d =
    OnScreen d
    × ((d.x ≡ c.x) × (d.y ≡ c.y) × (d.pos ≡ c.pos) × (d.origin ≡ c.origin))
    × SameElsewhere c.video d.video
    × ((i j : ℕ) → i < 80 → j < 25 → Beside i j → cell d i j ≡ cell c i j)

pub Returns-trans : (c d e : Console) → Returns c d → Returns d e → Returns c e
unfolding Returns SameElsewhere
Returns-trans c d e (g, (a, b, p, o), m, k) (h, (a2, b2, p2, o2), n, l) = (
  h,
  (a2 ∙ a, b2 ∙ b, p2 ∙ p, o2 ∙ o),
  λ q u. n q u ∙ m q u,
  λ i j u v w. l i j u v w ∙ k i j u v w,
)

restored :
    (c d : Console)
    → OnScreen c
    → Overlays (record c { saved_x = c.x; saved_y = c.y }) d
    → Returns c (restore_cur d)
unfolding Overlays OnScreen Returns SameElsewhere restore_cur cell
restored c d (xi, yi, p, e, ev, lo, hi, r, m, sx, sy)
      ((xi2, yi2, p2, e2, ev2, lo2, hi2, r2, m2, sx2, sy2), o, (x, y), k, l) =
    (ground arith, ground arith, k, l)

-- save_cur, an overlay, restore_cur
bracket :
    (f : Console → Console)
    → Overlay f
    → (c : Console) → OnScreen c
    → Returns c (restore_cur (f (save_cur c)))
unfolding OnScreen save_cur
bracket f h c (xi, yi, p, e, ev, lo, hi, r, m, sx, sy) =
    restored c (f (save_cur c)) (xi, yi, p, e, ev, lo, hi, r, m, sx, sy)
      (h (record c { saved_x = c.x; saved_y = c.y }) (xi, yi, p, e, ev, lo, hi, r, m, xi, yi))

frame_lines-Overlay : Overlay frame_lines
unfolding frame_lines
frame_lines-Overlay =
    then-Overlay _ _
      (then-Overlay _ _
        (then-Overlay _ _
          (for_loop-Overlay 21 57 (λ i. draw 35 i 0)
            (λ k a b c g. draw-Overlays 35 k 0 c a (omega arith) (omega arith) g))
          (for_loop-Overlay 21 57 (λ i. draw 35 i 11)
            (λ k a b c g. draw-Overlays 35 k 11 c a (omega arith) (omega arith) g)))
        (for_loop-Overlay 12 0 (λ i. draw 35 57 i)
          (λ k a b c g. draw-Overlays 35 57 k c (omega arith) (omega arith) (omega arith) g)))
      (for_loop-Overlay 12 0 (λ i. draw 35 78 i)
        (λ k a b c g. draw-Overlays 35 78 k c (omega arith) (omega arith) (omega arith) g))

pub tool_draw-Returns : (c : Console) → OnScreen c → Returns c (tool_draw c)
unfolding tool_draw
tool_draw-Returns = bracket _ (
    then-Overlay _ _ frame_lines-Overlay (
      for_loop-Overlay 10 1 _ (λ i a b.
        for_loop-Overlay 20 58 (λ j. draw 32 j i)
          (λ j u v c g. draw-Overlays 32 j i c (omega arith) (omega arith) (omega arith) g))))

draw_row-Overlay :
    (col i : ℕ) (rows : List ℕ) → row_length rows i ≤ 19 → i ≤ 9 → Overlay (draw_row col rows i)
unfolding draw_row
draw_row-Overlay col i rows l h = for_loop-Overlay (row_length rows i) 0 _ (λ j a b c g.
    plot-Overlays col (get_or rows (20 * i + j) 0) (add32 (col_write_start (row_length rows i)) j)
      (i + 1) c (omega arith) (omega arith) (omega arith) g)

-- every row has its zero byte
abbrev pub Terminated : List ℕ → Type 0
Terminated rows = (i : ℕ) → i ≤ 9 → row_length rows i ≤ 19

pub draw_list_clip-Returns :
    (rows : List ℕ)
    → Terminated rows
    → (c : Console) → OnScreen c
    → Returns c (draw_list_clip rows c)
unfolding draw_list_clip
draw_list_clip-Returns rows t = bracket _ (
    for_loop-Overlay 10 0 (λ i. draw_row 0x06 rows i)
      (λ i a b. draw_row-Overlay 0x06 i rows (t i (omega arith)) (omega arith)))

pub mark_selected-Returns :
    (index : ℕ) → index ≤ 9 → (c : Console) → OnScreen c → Returns c (mark_selected index c)
unfolding mark_selected
mark_selected-Returns index h = bracket _ (
    for_loop-Overlay 20 58 (λ j. tint 0x30 j (index + 1))
      (λ j a b c g. tint-Overlays 0x30 j (index + 1) c (omega arith) (omega arith) (omega arith) g))

pub set_path_name-Returns :
    (s : List ℕ) → length s ≤ 20 → (c : Console) → OnScreen c → Returns c (set_path_name s c)
unfolding set_path_name
set_path_name-Returns s h = bracket _ (
    then-Overlay _ _
      (then-Overlay _ _
        (λ c g.
          draw-Overlays 91 (sub32 (col_write_start (length s)) 1) 0 c (omega arith) (omega arith)
            (omega arith) g)
        (for_loop-Overlay (length s) 0
          (λ i. draw (get_or s i 0) (add32 (col_write_start (length s)) i) 0)
          (λ i a b c g.
            draw-Overlays (get_or s i 0) (add32 (col_write_start (length s)) i) 0 c (omega arith)
              (omega arith) (omega arith) g)))
      (λ c g.
        draw-Overlays 93 (add32 (col_write_start (length s)) (length s)) 0 c (omega arith)
          (omega arith) (omega arith) g))
