-- ===== src/Console/Drawing.antt =====
-- kernel/console.c: the control sequences that draw leave the cursor on the screen, and write to video
-- memory alone.
use linux_0_01raf.Prelude.{
  ℕ, zero, suc, ◌+◌, ◌≡◌, ◌<◌, if◌then◌else◌, refl, inl, inr, arith, leb, ◌==◌, Bool-cases, get_or,
}
use linux_0_01raf.Console.{lines, blank, sub32, rewind, Video, Console, scrup, lf}
use linux_0_01raf.Console.Commands.{
  csi_J, csi_K, attributes, insert_char, delete_char, insert_line, delete_line, repeat, attribute,
  clamp,
}
use linux_0_01raf.Console.Memory.{stosw-Outside, shift_left-Outside, shift_right-Outside}
use linux_0_01raf.Console.Cursor.{
  OnScreen, SameElsewhere, SameParser, Stays, scrup-Stays, scrdown-Stays, lf-Stays, Stays-trans,
  Stays-refl,
}
use linux_0_01raf.Console.Write.{next_line}

pub drawn :
    (c : Console) (m : Video)
    → OnScreen c
    → SameElsewhere c.video m
    → Stays c (record c { video = m })
unfolding Stays OnScreen SameParser
drawn c m g s = (g, s, (refl, refl, refl))

pub csi_J-Stays : (par : ℕ) (c : Console) → OnScreen c → Stays c (csi_J par c)
unfolding csi_J OnScreen SameElsewhere
csi_J-Stays par c (xi, yi, p, e, ev, lo, hi, r, m, sx, sy) =
    let g : OnScreen c = (xi, yi, p, e, ev, lo, hi, r, m, sx, sy) in
    elim (Bool-cases (par == 0)) [
      | inl e0 ↦ rw e0 (drawn c _ g (λ b o. stosw-Outside _ c.pos blank c.video b (ground arith)))
      | inr n0 ↦ elim (Bool-cases (par == 1)) [
        | inl e1 ↦
            rw (n0, e1)
              (drawn c _ g (λ b o. stosw-Outside _ c.origin blank c.video b (ground arith)))
        | inr n1 ↦ elim (Bool-cases (par == 2)) [
          | inl e2 ↦
              rw (n0, n1, e2)
                (drawn c _ g (λ b o. stosw-Outside 2000 c.origin blank c.video b (ground arith)))
          | inr n2 ↦ rw (n0, n1, n2) (Stays-refl c g)
        ]
      ]
    ]

pub csi_K-Stays : (par : ℕ) (c : Console) → OnScreen c → Stays c (csi_K par c)
unfolding csi_K OnScreen SameElsewhere
csi_K-Stays par c (xi, yi, p, e, ev, lo, hi, r, m, sx, sy) =
    let g : OnScreen c = (xi, yi, p, e, ev, lo, hi, r, m, sx, sy) in
    elim (Bool-cases (par == 0)) [
      | inl e0 ↦ elim (Bool-cases (leb 80 c.x)) [
        | inl behind ↦ rw (e0, behind) (Stays-refl c g)
        | inr on ↦
            rw (e0, on) (drawn c _ g (λ b o. stosw-Outside _ c.pos blank c.video b (ground arith)))
      ]
      | inr n0 ↦ elim (Bool-cases (par == 1)) [
        | inl e1 ↦
            rw (n0, e1) (drawn c _ g (λ b o. stosw-Outside _ _ blank c.video b (ground arith)))
        | inr n1 ↦ elim (Bool-cases (par == 2)) [
          | inl e2 ↦
              rw (n0, n1, e2)
                (drawn c _ g (λ b o. stosw-Outside 80 _ blank c.video b (ground arith)))
          | inr n2 ↦ rw (n0, n1, n2) (Stays-refl c g)
        ]
      ]
    ]

pub insert_char-Stays : (c : Console) → OnScreen c → Stays c (insert_char c)
unfolding insert_char OnScreen SameElsewhere
insert_char-Stays c (xi, yi, p, e, ev, lo, hi, r, m, sx, sy) =
    drawn c _ (xi, yi, p, e, ev, lo, hi, r, m, sx, sy)
      (λ b o. shift_right-Outside _ c.pos blank c.video b (ground arith))

pub delete_char-Stays : (c : Console) → OnScreen c → Stays c (delete_char c)
unfolding delete_char OnScreen SameElsewhere
delete_char-Stays c (xi, yi, p, e, ev, lo, hi, r, m, sx, sy) =
    let g : OnScreen c = (xi, yi, p, e, ev, lo, hi, r, m, sx, sy) in
    elim (Bool-cases (leb 80 c.x)) [
      | inl behind ↦ rw behind (Stays-refl c g)
      | inr on ↦ rw on (drawn c _ g (λ b o. shift_left-Outside _ c.pos c.video b (ground arith)))
    ]

-- the lines from the cursor's on as the scrolling region
pub below : (c : Console) → OnScreen c → OnScreen (record c { top = c.y; bottom = lines })
unfolding OnScreen
below c (xi, yi, p, e, ev, lo, hi, r, m, sx, sy) = ground arith

margins :
    (c d : Console) (g : OnScreen c)
    → OnScreen d
    → OnScreen (record d { top = c.top; bottom = c.bottom })
unfolding OnScreen
margins c d (xi, yi, p, e, ev, lo, hi, r, m, sx, sy)
      (xi2, yi2, p2, e2, ev2, lo2, hi2, r2, m2, sx2, sy2) =
    ground arith

pub insert_line-Stays : (c : Console) → OnScreen c → Stays c (insert_line c)
unfolding insert_line Stays SameParser
insert_line-Stays c g =
    let d = scrdown-Stays (record c { top = c.y; bottom = lines }) (below c g) in
    (margins c _ g d.0, d.1, d.2)

pub delete_line-Stays : (c : Console) → OnScreen c → Stays c (delete_line c)
unfolding delete_line Stays SameParser
delete_line-Stays c g =
    let d = scrup-Stays (record c { top = c.y; bottom = lines }) (below c g) in
    (margins c _ g d.0, d.1, d.2)

pub repeat-Stays :
    (f : Console → Console)
    → ((c : Console) → OnScreen c → Stays c (f c))
    → (n : ℕ) (c : Console) → OnScreen c
    → Stays c (repeat f n c)
unfolding repeat Stays
repeat-Stays f h zero c g = Stays-refl c g
repeat-Stays f h (suc n) c g =
    let one = h c g in Stays-trans c (f c) (repeat f n (f c)) one (repeat-Stays f h n (f c) one.0)

pub attributes-Stays : (n i : ℕ) (c : Console) → OnScreen c → Stays c (attributes n i c)
unfolding attributes Stays OnScreen SameParser
attributes-Stays zero i c g = Stays-refl c g
attributes-Stays (suc n) i c g =
    attributes-Stays n (i + 1) (record c { attr = attribute (get_or c.par i 0) c.attr }) g

pub next_line-Stays :
    (c : Console)
    → OnScreen (record c { x = sub32 c.x 80; pos = sub32 c.pos 160 })
    → Stays c (next_line c)
unfolding next_line Stays SameParser
next_line-Stays c g = lf-Stays (record c { x = sub32 c.x 80; pos = sub32 c.pos 160 }) g

lf-x : (c : Console) → (lf c).x ≡ c.x
unfolding lf scrup rewind
lf-x c = ground arith

pub next_line-x : (c : Console) → (next_line c).x ≡ sub32 c.x 80
unfolding next_line
next_line-x c = lf-x (record c { x = sub32 c.x 80; pos = sub32 c.pos 160 })

-- a number of lines or characters: 1 for 0, and no more than the limit
abbrev pub number_of : ℕ → ℕ → ℕ
number_of limit nr = if nr == 0 then 1 else if leb nr limit then nr else limit

pub clamp_lem : (limit nr : ℕ) → 0 < limit → clamp limit nr ≡ number_of limit nr
unfolding clamp
clamp_lem limit nr h = ground arith
