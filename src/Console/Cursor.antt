-- ===== src/Console/Cursor.antt =====
-- kernel/console.c: the cursor's motions and scrolling leave the cursor on the screen, and write to
-- video memory alone.
use linux_0_01raf.Prelude.{
  ℕ, ◌+◌, ◌*◌, ◌%◌, ◌^◌, ◌≤◌, ◌<◌, ◌≡◌, ◌∙◌, refl, ◌⊎◌, inl, inr, arith, ◌&&◌, ltb, ◌==◌,
  Bool-cases,
}
use linux_0_01raf.Console.{
  screen_start, screen_end, blank, Video, Console, movsl, gotoxy, region_longs, rewind, scrup,
  scrdown, lf, ri, cr, del, save_cur, restore_cur,
}
use linux_0_01raf.Console.Memory.{
  stosw-Outside, stosl-Outside, movsl-Outside, movsl_down-Outside, stosw_down-Outside,
}

-- The cursor may stand behind the last column, where the next character finds it.
unfoldable pub OnScreen : Console → Type 0
OnScreen c =
    (c.x ≤ 80)
    × (c.y < 25)
    × (c.pos ≡ c.origin + 2 * (c.y * 80 + c.x))
    × (c.scr_end ≡ c.origin + 4000)
    × (c.origin % 2 ≡ 0)
    × (screen_start ≤ c.origin)
    × (c.scr_end ≤ screen_end)
    × (c.top < c.bottom)
    × (c.bottom ≤ 25)
    × (c.saved_x ≤ 80)
    × (c.saved_y < 25)

unfoldable pub SameElsewhere : Video → Video → Type 0
SameElsewhere m n = (b : ℕ) → (b < screen_start) ⊎ (screen_end ≤ b) → n b ≡ m b

unfoldable pub SameParser : Console → Console → Type 0
SameParser c d = (d.state ≡ c.state) × (d.npar ≡ c.npar) × (d.par ≡ c.par)

-- what an operation that ends in `d` may have done to `c`
unfoldable pub Stays : Console → Console → Type 0
Stays c d = OnScreen d × SameElsewhere c.video d.video × SameParser c d

pub scrup-OnScreen : (c : Console) → OnScreen c → OnScreen (scrup c)
unfolding OnScreen scrup rewind
scrup-OnScreen c (xi, yi, p, e, ev, lo, hi, r, b, sx, sy) = ground arith

scrup-SameElsewhere : (c : Console) → OnScreen c → SameElsewhere c.video (scrup c).video
unfolding OnScreen SameElsewhere scrup rewind
scrup-SameElsewhere c (xi, yi, p, e, ev, lo, hi, r, m, sx, sy) b o =
    elim (Bool-cases ((c.top == 0) && (c.bottom == 25))) [
      | inl full ↦ elim (Bool-cases (ltb screen_end ((c.scr_end + 160) % 2 ^ 32))) [
        | inl end ↦ rw full (
            rw end (
              stosw-Outside 80 (screen_start + 3840) blank
                (movsl 960 screen_start ((c.origin + 160) % 2 ^ 32) c.video) b (ground arith)
              ∙ movsl-Outside 960 screen_start ((c.origin + 160) % 2 ^ 32) c.video b
                  (ground arith)))
        | inr fits ↦ rw full (rw fits (stosl-Outside 40 _ 0x07200720 c.video b (ground arith)))
      ]
      | inr part ↦ rw part (
          stosw-Outside 80 _ blank _ b (ground arith)
          ∙ movsl-Outside (region_longs c.top c.bottom) _ _ c.video b (ground arith))
    ]

pub scrdown-OnScreen : (c : Console) → OnScreen c → OnScreen (scrdown c)
unfolding OnScreen scrdown
scrdown-OnScreen c (xi, yi, p, e, ev, lo, hi, r, b, sx, sy) = ground arith

scrdown-SameElsewhere : (c : Console) → OnScreen c → SameElsewhere c.video (scrdown c).video
unfolding OnScreen SameElsewhere scrdown
scrdown-SameElsewhere c (xi, yi, p, e, ev, lo, hi, r, m, sx, sy) b o =
    stosw_down-Outside 80 (c.origin + 160 * c.top) _ blank _ b (omega arith) (omega arith)
      (ground arith)
    ∙ movsl_down-Outside (region_longs c.top c.bottom) (c.origin + 160 * (c.top + 1)) _ _ c.video b
        (omega arith) (omega arith) (ground arith)

scrup-SameParser : (c : Console) → SameParser c (scrup c)
unfolding SameParser scrup rewind
scrup-SameParser c = ground arith

pub scrup-Stays : (c : Console) → OnScreen c → Stays c (scrup c)
unfolding Stays
scrup-Stays c g = (scrup-OnScreen c g, scrup-SameElsewhere c g, scrup-SameParser c)

pub scrdown-Stays : (c : Console) → OnScreen c → Stays c (scrdown c)
unfolding Stays SameParser scrdown
scrdown-Stays c g = (scrdown-OnScreen c g, scrdown-SameElsewhere c g, (refl, refl, refl))

pub lf-Stays : (c : Console) → OnScreen c → Stays c (lf c)
unfolding lf OnScreen Stays SameElsewhere SameParser
lf-Stays c (xi, yi, p, e, ev, lo, hi, r, b, sx, sy) =
    let up = scrup-Stays c (xi, yi, p, e, ev, lo, hi, r, b, sx, sy) in
    elim (Bool-cases (ltb ((c.y + 1) % 2 ^ 32) c.bottom)) [
      | inl down ↦ rw down (ground arith)
      | inr last ↦ rw last up
    ]

pub ri-Stays : (c : Console) → OnScreen c → Stays c (ri c)
unfolding ri OnScreen Stays SameElsewhere SameParser
ri-Stays c (xi, yi, p, e, ev, lo, hi, r, b, sx, sy) =
    let down = scrdown-Stays c (xi, yi, p, e, ev, lo, hi, r, b, sx, sy) in
    elim (Bool-cases (ltb c.top c.y)) [ inl up ↦ rw up (ground arith) | inr first ↦ rw first down ]

pub cr-Stays : (c : Console) → OnScreen c → Stays c (cr c)
unfolding OnScreen Stays SameElsewhere SameParser cr
cr-Stays c (xi, yi, p, e, ev, lo, hi, r, b, sx, sy) = ground arith

pub del-Stays : (c : Console) → OnScreen c → Stays c (del c)
unfolding OnScreen Stays SameElsewhere SameParser del
del-Stays c (xi, yi, p, e, ev, lo, hi, r, b, sx, sy) = ground arith

pub gotoxy-Stays : (nx ny : ℕ) (c : Console) → OnScreen c → Stays c (gotoxy nx ny c)
unfolding OnScreen Stays SameElsewhere SameParser gotoxy
gotoxy-Stays nx ny c (xi, yi, p, e, ev, lo, hi, r, b, sx, sy) = ground arith

pub save_cur-Stays : (c : Console) → OnScreen c → Stays c (save_cur c)
unfolding OnScreen Stays SameElsewhere SameParser save_cur
save_cur-Stays c (xi, yi, p, e, ev, lo, hi, r, b, sx, sy) = ground arith

pub restore_cur-Stays : (c : Console) → OnScreen c → Stays c (restore_cur c)
unfolding OnScreen Stays SameElsewhere SameParser restore_cur
restore_cur-Stays c (xi, yi, p, e, ev, lo, hi, r, b, sx, sy) = ground arith

pub Stays-trans : (c d e : Console) → Stays c d → Stays d e → Stays c e
unfolding Stays SameElsewhere SameParser
Stays-trans c d e (g, s, (k, l, m)) (h, t, (n, p, q)) =
    (h, λ b o. t b o ∙ s b o, (n ∙ k, p ∙ l, q ∙ m))

pub Stays-refl : (c : Console) → OnScreen c → Stays c c
unfolding Stays SameElsewhere SameParser
Stays-refl c g = (g, λ b o. refl, (refl, refl, refl))
