-- ===== src/Console/Editing.antt =====
-- kernel/console.c: what the control sequences that erase, insert and delete do to the cells.
use linux_0_01raf.Prelude.{
  ℕ, zero, suc, ◌+◌, ◌-◌, ◌*◌, ◌<◌, ◌≡◌, ◌∙◌, refl, inl, inr, arith, Bool, true, false, ◌&&◌, ◌||◌,
  ltb, leb, ltb→lt, ◌==◌, if◌then◌else◌, Bool-cases,
}
use linux_0_01raf.Console.{blank, Console, stosw, scrup, scrdown, rewind}
use linux_0_01raf.Console.Commands.{csi_J, csi_K, csi_L, csi_M, insert_line, delete_line, repeat}
use linux_0_01raf.Console.Memory.{stosw-Outside}
use linux_0_01raf.Console.Cursor.{OnScreen, Stays}
use linux_0_01raf.Console.Drawing.{
  number_of, clamp_lem, below, insert_line-Stays, delete_line-Stays,
}
use linux_0_01raf.Console.Screen.{
  cell, scrolled_up, scrolled_down, scrup-cell, scrdown-cell, stosw_at,
}

pub on_screen : (c d : Console) → Stays c d → OnScreen d
unfolding Stays
on_screen c d s = s.0

delete_line-cell :
    (c : Console) (i j : ℕ)
    → OnScreen c
    → i < 80
    → j < 25
    → cell (delete_line c) i j ≡ scrolled_up c.y 25 (cell c) i j
unfolding delete_line cell
delete_line-cell c i j g hi hj =
    scrup-cell (record c { top = c.y; bottom = 25 }) i j (below c g) hi hj

delete_line-y : (c : Console) → (delete_line c).y ≡ c.y
unfolding delete_line scrup rewind
delete_line-y c = ground arith

insert_line-cell :
    (c : Console) (i j : ℕ)
    → OnScreen c
    → i < 80
    → j < 25
    → cell (insert_line c) i j ≡ scrolled_down c.y 25 (cell c) i j
unfolding insert_line cell scrdown
insert_line-cell c i j g hi hj =
    scrdown-cell (record c { top = c.y; bottom = 25 }) i j (below c g) hi hj

insert_line-y : (c : Console) → (insert_line c).y ≡ c.y
unfolding insert_line scrdown
insert_line-y c = refl

-- one line more, on the cells of a column
one_up :
    (n y z j : ℕ) (p q : ℕ → ℕ)
    → ((k : ℕ) → k < 25 → q k ≡ scrolled_up y 25 (λ i. p) 0 k)
    → y < 25
    → z ≡ y
    → j < 25
    → (if ltb j z then q j else if ltb (j + n) 25 then q (j + n) else blank)
      ≡ (if ltb j y then p j else if ltb (j + suc n) 25 then p (j + suc n) else blank)
unfolding scrolled_up
one_up n y z j p q h hy e hj = elim (Bool-cases (ltb (j + n) 25)) [
  | inl inside ↦ ground (arith, h j hj, h (j + n) (ltb→lt (j + n) 25 inside))
  | inr outside ↦ ground (arith, h j hj)
]

one_down :
    (n y z j : ℕ) (p q : ℕ → ℕ)
    → ((k : ℕ) → k < 25 → q k ≡ scrolled_down y 25 (λ i. p) 0 k)
    → z ≡ y
    → j < 25
    → (if ltb j z then q j else if leb (z + n) j then q (j - n) else blank)
      ≡ (if ltb j y then p j else if leb (y + suc n) j then p (j - suc n) else blank)
unfolding scrolled_down
one_down n y z j p q h e hj = ground (arith, h j hj, h (j - n) (omega arith))

pub rows_in : (c : Console) → OnScreen c → c.y < 25
unfolding OnScreen
rows_in c g = g.1

deleted :
    (n : ℕ) (c : Console) (i j : ℕ)
    → OnScreen c
    → i < 80
    → j < 25
    → cell (repeat delete_line n c) i j
      ≡ (if ltb j c.y then cell c i j else if ltb (j + n) 25 then cell c i (j + n) else blank)
unfolding repeat scrolled_up
deleted zero c i j g hi hj = ground arith
deleted (suc n) c i j g hi hj =
    deleted n (delete_line c) i j (on_screen c _ (delete_line-Stays c g)) hi hj
    ∙ one_up n c.y (delete_line c).y j (cell c i) (cell (delete_line c) i)
        (λ k hk. delete_line-cell c i k g hi hk) (rows_in c g) (delete_line-y c) hj

inserted :
    (n : ℕ) (c : Console) (i j : ℕ)
    → OnScreen c
    → i < 80
    → j < 25
    → cell (repeat insert_line n c) i j
      ≡ (if ltb j c.y then cell c i j else if leb (c.y + n) j then cell c i (j - n) else blank)
unfolding repeat scrolled_down
inserted zero c i j g hi hj = ground arith
inserted (suc n) c i j g hi hj =
    inserted n (insert_line c) i j (on_screen c _ (insert_line-Stays c g)) hi hj
    ∙ one_down n c.y (insert_line c).y j (cell c i) (cell (insert_line c) i)
        (λ k hk. insert_line-cell c i k g hi hk) (insert_line-y c) hj

-- Where the cursor is on the screen: deleting lines, 1 for the number 0 and at most 25, moves the rows
-- below those up to the cursor's, leaves the rows above it, and makes the rows that are left over blank.
pub csi_M-cell :
    (nr : ℕ) (c : Console) (i j : ℕ)
    → OnScreen c
    → i < 80
    → j < 25
    → cell (csi_M nr c) i j ≡ (
        if ltb j c.y
        then cell c i j
        else if ltb (j + number_of 25 nr) 25
        then cell c i (j + number_of 25 nr)
        else blank)
unfolding csi_M
csi_M-cell nr c i j g hi hj =
    rw (clamp_lem 25 nr (omega arith)) (deleted (number_of 25 nr) c i j g hi hj)

pub csi_L-cell :
    (nr : ℕ) (c : Console) (i j : ℕ)
    → OnScreen c
    → i < 80
    → j < 25
    → cell (csi_L nr c) i j ≡ (
        if ltb j c.y
        then cell c i j
        else if leb (c.y + number_of 25 nr) j
        then cell c i (j - number_of 25 nr)
        else blank)
unfolding csi_L
csi_L-cell nr c i j g hi hj =
    rw (clamp_lem 25 nr (omega arith)) (inserted (number_of 25 nr) c i j g hi hj)

-- the cells that `csi_J` makes blank
unfoldable pub erases_display : ℕ → Console → ℕ → ℕ → Bool
erases_display par c i j =
    ((par == 0) && leb (c.y * 80 + c.x) (j * 80 + i))
    || (((par == 1) && ltb (j * 80 + i) (c.y * 80 + c.x)) || (par == 2))

-- a fill of `n` words from the cell `start` on, which are the cells that pass the test
erased :
    (c : Console) (a n start i j : ℕ) (test : Bool)
    → a ≡ c.origin + 2 * start
    → (leb start (j * 80 + i) && ltb (j * 80 + i) (start + n)) ≡ test
    → stosw n a blank c.video (c.origin + 2 * (j * 80 + i)) ≡ (if test then blank else cell c i j)
unfolding cell
erased c a n start i j true e h =
    stosw_at n a blank c.video _ (j * 80 + i - start) (ground arith) (ground arith)
erased c a n start i j false e h = stosw-Outside n a blank c.video _ (ground arith)

-- Where the cursor is on the screen: `csi_J` makes the cells from the cursor on, or before it, or all, blank,
-- and leaves the others.
pub csi_J-cell :
    (par : ℕ) (c : Console) (i j : ℕ)
    → OnScreen c
    → i < 80
    → j < 25
    → cell (csi_J par c) i j ≡ (if erases_display par c i j then blank else cell c i j)
unfolding csi_J OnScreen cell erases_display
csi_J-cell par c i j (xi, yi, p, e, ev, lo, hi, r, m, sx, sy) hi_ hj =
    elim (Bool-cases (par == 0)) [
      | inl e0 ↦ rw e0 (erased c c.pos _ (c.y * 80 + c.x) i j _ p (ground arith))
      | inr n0 ↦ elim (Bool-cases (par == 1)) [
        | inl e1 ↦ rw (n0, e1) (erased c c.origin _ 0 i j _ (omega arith) (ground arith))
        | inr n1 ↦ elim (Bool-cases (par == 2)) [
          | inl e2 ↦
              rw (n0, n1, e2) (erased c c.origin 2000 0 i j true (omega arith) (ground arith))
          | inr n2 ↦ rw (n0, n1, n2) refl
        ]
      ]
    ]

unfoldable pub erases_line : ℕ → Console → ℕ → ℕ → Bool
erases_line par c i j =
    (j == c.y) && (((par == 0) && leb c.x i) || (((par == 1) && ltb i c.x) || (par == 2)))

pub csi_K-cell :
    (par : ℕ) (c : Console) (i j : ℕ)
    → OnScreen c
    → i < 80
    → j < 25
    → cell (csi_K par c) i j ≡ (if erases_line par c i j then blank else cell c i j)
unfolding csi_K OnScreen cell erases_line
csi_K-cell par c i j (xi, yi, p, e, ev, lo, hi, r, m, sx, sy) hi_ hj =
    elim (Bool-cases (par == 0)) [
      | inl e0 ↦ elim (Bool-cases (leb 80 c.x)) [
        | inl behind ↦ rw (e0, behind) (ground arith)
        | inr on ↦ rw (e0, on) (erased c c.pos _ (c.y * 80 + c.x) i j _ p (ground arith))
      ]
      | inr n0 ↦ elim (Bool-cases (par == 1)) [
        | inl e1 ↦ rw (n0, e1) (erased c _ _ (c.y * 80) i j _ (omega arith) (ground arith))
        | inr n1 ↦ elim (Bool-cases (par == 2)) [
          | inl e2 ↦ rw (n0, n1, e2) (erased c _ 80 (c.y * 80) i j _ (omega arith) (ground arith))
          | inr n2 ↦ rw (n0, n1, n2) (ground arith)
        ]
      ]
    ]
