-- ===== src/Console/Rows.antt =====
-- kernel/console.c: what inserting and deleting characters does to the cursor's row.
use linux_0_01raf.Prelude.{
  ℕ, zero, suc, ◌+◌, ◌-◌, ◌*◌, ◌<◌, ◌≡◌, ◌∙◌, ap, refl, inl, inr, arith, Bool, not, ◌&&◌, ltb, leb,
  ltb→lt, ◌==◌, if◌then◌else◌, Bool-cases,
}
use linux_0_01raf.Console.{blank, Console}
use linux_0_01raf.Console.Commands.{
  csi_P, csi_at, insert_char, delete_char, repeat, shift_left, shift_right,
}
use linux_0_01raf.Console.Memory.{
  shift_left-Outside, shift_left_inside, shift_left_last, shift_right-Outside, shift_right_inside,
  shift_right_first,
}
use linux_0_01raf.Console.Drawing.{number_of, clamp_lem}
use linux_0_01raf.Console.Cursor.{OnScreen}
use linux_0_01raf.Console.Drawing.{insert_char-Stays, delete_char-Stays}
use linux_0_01raf.Console.Editing.{on_screen}
use linux_0_01raf.Console.Screen.{cell}

-- deleting and inserting in a row, on its cells
delete_char-cell :
    (c : Console) (i j : ℕ)
    → OnScreen c
    → i < 80
    → j < 25
    → cell (delete_char c) i j ≡ (
        if not ((j == c.y) && leb c.x i)
        then cell c i j
        else if ltb (i + 1) 80
        then cell c (i + 1) j
        else blank)
unfolding delete_char OnScreen cell
delete_char-cell c i j (xi, yi, p, e, ev, lo, hi, r, m, sx, sy) hi_ hj =
    elim (Bool-cases (leb 80 c.x)) [
      | inl behind ↦ rw behind (ground arith)
      | inr on ↦ rw on (elim (Bool-cases ((j == c.y) && leb c.x i)) [
        | inr off ↦ rw off (shift_left-Outside _ c.pos c.video _ (ground arith))
        | inl row ↦ rw row (elim (Bool-cases (ltb (i + 1) 80)) [
          | inl more ↦ rw more (
              ap (shift_left _ c.pos c.video) (ground arith)
              ∙ shift_left_inside (80 - c.x - 1) c.pos c.video (i - c.x) (ground arith)
              ∙ ap c.video (ground arith))
          | inr last ↦ rw last (
              ap (shift_left _ c.pos c.video) (ground arith)
              ∙ shift_left_last (80 - c.x - 1) c.pos c.video)
        ])
      ])
    ]

insert_char-cell :
    (c : Console) (i j : ℕ)
    → OnScreen c
    → i < 80
    → j < 25
    → cell (insert_char c) i j ≡ (
        if not ((j == c.y) && leb c.x i)
        then cell c i j
        else if ltb c.x i
        then cell c (i - 1) j
        else blank)
unfolding insert_char OnScreen cell
insert_char-cell c i j (xi, yi, p, e, ev, lo, hi, r, m, sx, sy) hi_ hj =
    elim (Bool-cases ((j == c.y) && leb c.x i)) [
      | inr off ↦ rw off (shift_right-Outside _ c.pos blank c.video _ (ground arith))
      | inl row ↦ rw row (elim (Bool-cases (ltb c.x i)) [
        | inl more ↦ rw more (
            ap (shift_right _ c.pos blank c.video) (ground arith)
            ∙ shift_right_inside (80 - c.x) c.pos blank c.video (i - c.x - 1) (ground arith)
            ∙ ap c.video (ground arith))
        | inr first ↦
            let count : 80 - c.x ≡ suc (80 - c.x - 1) = ground arith in
            rw first (
              ap (λ k. shift_right k c.pos blank c.video (c.origin + 2 * (j * 80 + i))) count
              ∙ ap (shift_right (suc (80 - c.x - 1)) c.pos blank c.video) (ground arith)
              ∙ shift_right_first (80 - c.x - 1) c.pos blank c.video)
      ])
    ]

-- one character more, on the cells of a row
one_left :
    (n x z i : ℕ) (row : Bool) (p q : ℕ → ℕ)
    → ((k : ℕ)
        → k < 80
        → q k ≡ (if not (row && leb x k) then p k else if ltb (k + 1) 80 then p (k + 1) else blank))
    → z ≡ x
    → i < 80
    → (if not (row && leb z i) then q i else if ltb (i + n) 80 then q (i + n) else blank)
      ≡ (if not (row && leb x i) then p i else if ltb (i + suc n) 80 then p (i + suc n) else blank)
one_left n x z i row p q h e hi = elim (Bool-cases (ltb (i + n) 80)) [
  | inl inside ↦ ground (arith, h i hi, h (i + n) (ltb→lt (i + n) 80 inside))
  | inr outside ↦ ground (arith, h i hi)
]

one_right :
    (n x z i : ℕ) (row : Bool) (p q : ℕ → ℕ)
    → ((k : ℕ)
        → k < 80
        → q k ≡ (if not (row && leb x k) then p k else if ltb x k then p (k - 1) else blank))
    → z ≡ x
    → i < 80
    → (if not (row && leb z i) then q i else if leb (z + n) i then q (i - n) else blank)
      ≡ (if not (row && leb x i) then p i else if leb (x + suc n) i then p (i - suc n) else blank)
one_right n x z i row p q h e hi = ground (arith, h i hi, h (i - n) (omega arith))

delete_char-place : (c : Console) → ((delete_char c).x ≡ c.x) × ((delete_char c).y ≡ c.y)
unfolding delete_char
delete_char-place c = ground arith

insert_char-place : (c : Console) → ((insert_char c).x ≡ c.x) × ((insert_char c).y ≡ c.y)
unfolding insert_char
insert_char-place c = (refl, refl)

deleted :
    (n : ℕ) (c : Console) (i j : ℕ)
    → OnScreen c
    → i < 80
    → j < 25
    → cell (repeat delete_char n c) i j ≡ (
        if not ((j == c.y) && leb c.x i)
        then cell c i j
        else if ltb (i + n) 80
        then cell c (i + n) j
        else blank)
unfolding repeat
deleted zero c i j g hi hj = ground arith
deleted (suc n) c i j g hi hj =
    deleted n (delete_char c) i j (on_screen c _ (delete_char-Stays c g)) hi hj
    ∙ ap
        (λ b.
          if not (b && leb (delete_char c).x i)
          then cell (delete_char c) i j
          else if ltb (i + n) 80
          then cell (delete_char c) (i + n) j
          else blank)
        (ap (λ k. j == k) ((delete_char-place c).1))
    ∙ one_left n c.x (delete_char c).x i (j == c.y) (λ k. cell c k j)
        (λ k. cell (delete_char c) k j) (λ k hk. delete_char-cell c k j g hk hj)
        ((delete_char-place c).0) hi

inserted :
    (n : ℕ) (c : Console) (i j : ℕ)
    → OnScreen c
    → i < 80
    → j < 25
    → cell (repeat insert_char n c) i j ≡ (
        if not ((j == c.y) && leb c.x i)
        then cell c i j
        else if leb (c.x + n) i
        then cell c (i - n) j
        else blank)
unfolding repeat
inserted zero c i j g hi hj = ground arith
inserted (suc n) c i j g hi hj =
    inserted n (insert_char c) i j (on_screen c _ (insert_char-Stays c g)) hi hj
    ∙ ap
        (λ b.
          if not (b && leb (insert_char c).x i)
          then cell (insert_char c) i j
          else if leb ((insert_char c).x + n) i
          then cell (insert_char c) (i - n) j
          else blank)
        (ap (λ k. j == k) ((insert_char-place c).1))
    ∙ one_right n c.x (insert_char c).x i (j == c.y) (λ k. cell c k j)
        (λ k. cell (insert_char c) k j) (λ k hk. insert_char-cell c k j g hk hj)
        ((insert_char-place c).0) hi

-- Where the cursor is on the screen: deleting characters, 1 for the number 0 and at most 80, moves the rest
-- of the cursor's row to the cursor, makes the cells that are left over blank, and leaves all else.
pub csi_P-cell :
    (nr : ℕ) (c : Console) (i j : ℕ)
    → OnScreen c
    → i < 80
    → j < 25
    → cell (csi_P nr c) i j ≡ (
        if not ((j == c.y) && leb c.x i)
        then cell c i j
        else if ltb (i + number_of 80 nr) 80
        then cell c (i + number_of 80 nr) j
        else blank)
unfolding csi_P
csi_P-cell nr c i j g hi hj =
    rw (clamp_lem 80 nr (omega arith)) (deleted (number_of 80 nr) c i j g hi hj)

-- Where the cursor is on the screen: inserting characters, 1 for the number 0 and at most 80, moves the
-- cursor's row from the cursor on to the right, makes the cells it leaves blank, and leaves all else.
pub csi_at-cell :
    (nr : ℕ) (c : Console) (i j : ℕ)
    → OnScreen c
    → i < 80
    → j < 25
    → cell (csi_at nr c) i j ≡ (
        if not ((j == c.y) && leb c.x i)
        then cell c i j
        else if leb (c.x + number_of 80 nr) i
        then cell c (i - number_of 80 nr) j
        else blank)
unfolding csi_at
csi_at-cell nr c i j g hi hj =
    rw (clamp_lem 80 nr (omega arith)) (inserted (number_of 80 nr) c i j g hi hj)
