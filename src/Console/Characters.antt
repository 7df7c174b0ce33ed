-- ===== src/Console/Characters.antt =====
-- kernel/console.c: putting characters and tabs leaves the cursor on the screen.
use linux_0_01raf.Prelude.{
  ℕ, ◌+◌, ◌-◌, ◌*◌, ◌%◌, ◌<◌, ◌≡◌, sym, subst, inl, inr, arith, Bool, true, false, ltb, leb,
  if◌then◌else◌, Bool-cases,
}
use linux_0_01raf.Console.{add32, sub32, Console, store}
use linux_0_01raf.Console.Cursor.{OnScreen, SameElsewhere, SameParser, Stays, Stays-trans}
use linux_0_01raf.Console.Drawing.{next_line-Stays, next_line-x}
use linux_0_01raf.Console.Write.{next_line, put_char, backspace, tab}

pub if-Stays : (b : Bool) (c d e : Console) → Stays c d → Stays c e → Stays c (if b then d else e)
if-Stays true c d e p q = p
if-Stays false c d e p q = q

-- a character goes to a column of the screen
placed :
    (v : ℕ) (c : Console)
    → OnScreen c
    → c.x < 80
    → Stays c (record c { video = store c.pos v c.video; pos = add32 c.pos 2; x = add32 c.x 1 })
unfolding Stays OnScreen SameElsewhere SameParser
placed v c (xi, yi, p, e, ev, lo, hi, r, m, sx, sy) h = ground arith

carried :
    (c : Console)
    → OnScreen c
    → leb 80 c.x ≡ true
    → OnScreen (record c { x = sub32 c.x 80; pos = sub32 c.pos 160 })
unfolding OnScreen
carried c (xi, yi, p, e, ev, lo, hi, r, m, sx, sy) h = ground arith

at_start : (c : Console) → OnScreen c → leb 80 c.x ≡ true → sub32 c.x 80 < 80
unfolding OnScreen
at_start c (xi, yi, p, e, ev, lo, hi, r, m, sx, sy) h = ground arith

pub put_char-Stays : (ch : ℕ) (c : Console) → OnScreen c → Stays c (put_char ch c)
unfolding put_char Stays
put_char-Stays ch c g = elim (Bool-cases (leb 80 c.x)) [
  | inl behind ↦
      let next = next_line-Stays c (carried c g behind) in
      rw behind (
        Stays-trans c (next_line c) _ next (
          placed ((next_line c).attr * 256 + ch) (next_line c) next.0
            (subst (λ k. k < 80) (sym (next_line-x c)) (at_start c g behind))))
  | inr on ↦ rw on (placed (c.attr * 256 + ch) c g (ground arith))
]

pub backspace-Stays : (c : Console) → OnScreen c → Stays c (backspace c)
unfolding backspace Stays OnScreen SameElsewhere SameParser
backspace-Stays c (xi, yi, p, e, ev, lo, hi, r, m, sx, sy) = ground arith

stop_on :
    (c : Console)
    → OnScreen c
    → ltb 80 (add32 c.x (8 - c.x % 8)) ≡ false
    → Stays c (record c { x = add32 c.x (8 - c.x % 8); pos = add32 c.pos ((8 - c.x % 8) * 2) })
unfolding Stays OnScreen SameElsewhere SameParser
stop_on c (xi, yi, p, e, ev, lo, hi, r, m, sx, sy) h = ground arith

stop_behind :
    (c : Console)
    → OnScreen c
    → ltb 80 (add32 c.x (8 - c.x % 8)) ≡ true
    → OnScreen (record c {
      x = sub32 (add32 c.x (8 - c.x % 8)) 80;
      pos = sub32 (add32 c.pos ((8 - c.x % 8) * 2)) 160;
    })
unfolding OnScreen
stop_behind c (xi, yi, p, e, ev, lo, hi, r, m, sx, sy) h = ground arith

pub tab-Stays : (c : Console) → OnScreen c → Stays c (tab c)
unfolding tab Stays SameParser
tab-Stays c g = elim (Bool-cases (ltb 80 (add32 c.x (8 - c.x % 8)))) [
  | inl behind ↦ rw behind (
      next_line-Stays
        (record c { x = add32 c.x (8 - c.x % 8); pos = add32 c.pos ((8 - c.x % 8) * 2) })
        (stop_behind c g behind))
  | inr on ↦ rw on (stop_on c g on)
]
