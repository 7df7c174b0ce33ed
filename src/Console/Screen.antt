-- ===== src/Console/Screen.antt =====
-- kernel/console.c: the window as 25 rows of 80 cells, and what scrolling does to them, wherever in video
-- memory the window stands.
use linux_0_01raf.Prelude.{
  ℕ, ◌+◌, ◌-◌, ◌*◌, ◌%◌, ◌^◌, ◌≤◌, ◌<◌, ◌≡◌, ◌∙◌, ap, refl, inl, inr, arith, true, false, ◌&&◌, ltb,
  leb, ◌==◌, if◌then◌else◌, Bool-cases,
}
use linux_0_01raf.Console.{
  screen_start, screen_end, blank, add32, sub32, mul32, region_longs, Video, Console, stosw, stosl,
  movsl, stosw_down, movsl_down, rewind, scrup, scrdown,
}
use linux_0_01raf.Console.Memory.{
  stosw-Outside, stosw_inside, stosl-Outside, stosl_inside, movsl-Outside, movsl_inside,
  movsl_down-Outside, movsl_down_inside, stosw_down-Outside, stosw_down_inside,
}
use linux_0_01raf.Console.Cursor.{OnScreen}

-- the cell in column `i` of row `j`
unfoldable pub cell : Console → ℕ → ℕ → ℕ
cell c i j = c.video (c.origin + 2 * (j * 80 + i))

-- a picture after the rows from `top` on and before `bottom` have moved up by one
unfoldable pub scrolled_up : ℕ → ℕ → (ℕ → ℕ → ℕ) → ℕ → ℕ → ℕ
scrolled_up top bottom p i j =
    if leb top j && ltb (j + 1) bottom
    then p i (j + 1)
    else if j + 1 == bottom
    then blank
    else p i j

unfoldable pub scrolled_down : ℕ → ℕ → (ℕ → ℕ → ℕ) → ℕ → ℕ → ℕ
scrolled_down top bottom p i j =
    if ltb top j && ltb j bottom then p i (j - 1) else if j == top then blank else p i j

pub stosw_at : (n a v : ℕ) (m : Video) (b : ℕ) (k : ℕ) → k < n → b ≡ a + 2 * k → stosw n a v m b ≡ v
stosw_at n a v m b k h e = ap (stosw n a v m) e ∙ stosw_inside n a v m k h

movsl_at :
    (n d s : ℕ) (m : Video) (b t k : ℕ)
    → d + 4 ≤ s
    → k < 2 * n
    → b ≡ d + 2 * k
    → s + 2 * k ≡ t
    → movsl n d s m b ≡ m t
movsl_at n d s m b t k l h e f = ap (movsl n d s m) e ∙ movsl_inside n d s m k l h ∙ ap m f

scrup-full :
    (c : Console) (i j : ℕ)
    → OnScreen c
    → i < 80
    → j < 25
    → c.top ≡ 0
    → c.bottom ≡ 25
    → cell (scrup c) i j ≡ (if ltb j 24 then cell c i (j + 1) else blank)
unfolding OnScreen scrup rewind cell
scrup-full c i j (xi, yi, p, e, ev, lo, hi, r, m, sx, sy) hi_ hj t b =
    let full : (c.top == 0) && (c.bottom == 25) ≡ true = ground arith in
    elim (Bool-cases (ltb screen_end ((c.scr_end + 160) % 2 ^ 32))) [
      | inl end ↦
          rw (full, end)
            (elim (Bool-cases (ltb j 24)) [
              | inl upper ↦ rw upper (
                  stosw-Outside 80 (screen_start + 3840) blank _ _ (ground arith)
                  ∙ movsl_at 960 screen_start ((c.origin + 160) % 2 ^ 32) c.video _ _ (j * 80 + i)
                      (omega arith) (ground arith) (omega arith) (omega arith))
              | inr last ↦
                  rw last (stosw_at 80 (screen_start + 3840) blank _ _ i hi_ (ground arith))
            ])
      | inr fits ↦
          rw (full, fits)
            (elim (Bool-cases (ltb j 24)) [
              | inl upper ↦ rw upper (
                  stosl-Outside 40 _ 0x07200720 c.video _ (ground arith) ∙ ap c.video (omega arith))
              | inr last ↦ rw last (
                  ap (stosl 40 _ 0x07200720 c.video) (ground arith)
                  ∙ stosl_inside 40 (sub32 (add32 c.scr_end 160) 160) 0x07200720 c.video i refl
                      (omega arith))
            ])
    ]

scrup-part :
    (c : Console) (i j : ℕ)
    → OnScreen c
    → i < 80
    → j < 25
    → (c.top == 0) && (c.bottom == 25) ≡ false
    → cell (scrup c) i j ≡ scrolled_up c.top c.bottom (cell c) i j
unfolding OnScreen scrup cell scrolled_up
scrup-part c i j (xi, yi, p, e, ev, lo, hi, r, m, sx, sy) hi_ hj part =
    let longs = region_longs c.top c.bottom in
    let to = add32 c.origin (mul32 160 c.top) in
    let from = add32 c.origin (mul32 160 (add32 c.top 1)) in
    rw part (elim (Bool-cases (leb c.top j && ltb (j + 1) c.bottom)) [
      | inl inner ↦ rw inner (
          stosw-Outside 80 (to + 4 * longs) blank _ _ (ground arith)
          ∙ movsl_at longs to from c.video _ _ ((j - c.top) * 80 + i) (omega arith) (ground arith)
              (ground arith) (ground arith))
      | inr outer ↦ elim (Bool-cases (j + 1 == c.bottom)) [
        | inl last ↦ rw (outer, last) (stosw_at 80 (to + 4 * longs) blank _ _ i hi_ (ground arith))
        | inr other ↦
            rw (outer, other)
              (stosw-Outside 80 (to + 4 * longs) blank _ _ (ground arith)
                ∙ movsl-Outside longs to from c.video _ (ground arith))
      ]
    ])

whole :
    (c : Console) (i j : ℕ)
    → (c.top == 0) && (c.bottom == 25) ≡ true
    → j < 25
    → (if ltb j 24 then cell c i (j + 1) else blank) ≡ scrolled_up c.top c.bottom (cell c) i j
unfolding scrolled_up
whole c i j t h = ground arith

-- Where the cursor is on the screen: scrolling up moves each row of the region up by one, makes the
-- last blank, and leaves the others, whether the window moves, goes back to the start of video memory, or
-- the rows are copied.
pub scrup-cell :
    (c : Console) (i j : ℕ)
    → OnScreen c
    → i < 80
    → j < 25
    → cell (scrup c) i j ≡ scrolled_up c.top c.bottom (cell c) i j
scrup-cell c i j g hi hj = elim (Bool-cases ((c.top == 0) && (c.bottom == 25))) [
  | inl full ↦ scrup-full c i j g hi hj (ground arith) (ground arith) ∙ whole c i j full hj
  | inr part ↦ scrup-part c i j g hi hj part
]

pub scrdown-cell :
    (c : Console) (i j : ℕ)
    → OnScreen c
    → i < 80
    → j < 25
    → cell (scrdown c) i j ≡ scrolled_down c.top c.bottom (cell c) i j
unfolding OnScreen scrdown cell scrolled_down
scrdown-cell c i j (xi, yi, p, e, ev, lo, hi, r, m, sx, sy) hi_ hj =
    let longs = region_longs c.top c.bottom in
    elim (Bool-cases (ltb c.top j && ltb j c.bottom)) [
      | inl inner ↦ rw inner (
          stosw_down-Outside 80 (c.origin + 160 * c.top) _ blank _ _ (omega arith) (omega arith)
            (ground arith)
          ∙ ap (movsl_down longs _ _ c.video) (ground arith)
          ∙ movsl_down_inside longs (c.origin + 160 * (c.top + 1)) (c.origin + 160 * c.top) _ _
              c.video ((j - c.top - 1) * 80 + i) (omega arith) (omega arith) (omega arith)
              (omega arith) (ground arith)
          ∙ ap c.video (ground arith))
      | inr outer ↦ elim (Bool-cases (j == c.top)) [
        | inl first ↦
            rw (outer, first)
              (ap (stosw_down 80 _ blank _) (ground arith)
                ∙ stosw_down_inside 80 (c.origin + 160 * c.top) _ blank _ i (omega arith)
                    (omega arith) hi_)
        | inr other ↦
            rw (outer, other)
              (stosw_down-Outside 80 (c.origin + 160 * c.top) _ blank _ _ (omega arith)
                  (omega arith) (ground arith)
                ∙ movsl_down-Outside longs (c.origin + 160 * (c.top + 1)) _ _ c.video _
                    (omega arith) (omega arith) (ground arith))
      ]
    ]
