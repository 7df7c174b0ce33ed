-- ===== src/Console/Commands.antt =====
-- kernel/console.c: the control sequences that erase, insert, delete and set the attribute.
use linux_0_01raf.Prelude.{ℕ, zero, suc, ◌+◌, ◌-◌, ◌*◌, ◌/◌, ltb, leb, ◌==◌, if◌then◌else◌, get_or}
use linux_0_01raf.Console.{
  lines, columns, blank, sub32, mul32, Video, Console, store, stosw, scrup, scrdown,
}

unfoldable pub csi_J : ℕ → Console → Console
csi_J par c =
    if par == 0
    then record c { video = stosw (sub32 c.scr_end c.pos / 2) c.pos blank c.video }
    else if par == 1
    then record c { video = stosw (sub32 c.pos c.origin / 2) c.origin blank c.video }
    else if par == 2
    then record c { video = stosw (columns * lines) c.origin blank c.video }
    else c

unfoldable pub csi_K : ℕ → Console → Console
csi_K par c =
    let start = sub32 c.pos (mul32 c.x 2) in
    if par == 0
    then (if leb columns c.x
        then c
        else record c { video = stosw (columns - c.x) c.pos blank c.video })
    else if par == 1
    then record c { video = stosw (if ltb c.x columns then c.x else columns) start blank c.video }
    else if par == 2
    then record c { video = stosw columns start blank c.video }
    else c

-- the attribute that one parameter sets
unfoldable pub attribute : ℕ → ℕ → ℕ
attribute par attr =
    if par == 0
    then 0x07
    else if par == 1
    then 0x0f
    else if par == 4
    then 0x0f
    else if par == 7
    then 0x70
    else if par == 27
    then 0x07
    else attr

-- from `i` on, with `n` parameters to go
unfoldable pub attributes : ℕ → ℕ → Console → Console
attributes zero i c = c
attributes (suc n) i c =
    attributes n (i + 1) (record c { attr = attribute (get_or c.par i 0) c.attr })

unfoldable pub csi_m : Console → Console
csi_m c = attributes (c.npar + 1) 0 c

-- `n` rounds: a word goes in at `p`, and the one that was there is the next to go in
unfoldable pub shift_right : ℕ → ℕ → ℕ → Video → Video
shift_right zero p old m = m
shift_right (suc n) p old m = shift_right n (p + 2) (m p) (store p old m)

unfoldable pub insert_char : Console → Console
insert_char c = record c { video = shift_right (columns - c.x) c.pos blank c.video }

unfoldable pub shift_left : ℕ → ℕ → Video → Video
shift_left zero p m = store p blank m
shift_left (suc n) p m = shift_left n (p + 2) (store p (m (p + 2)) m)

unfoldable pub delete_char : Console → Console
delete_char c =
    if leb columns c.x then c else record c { video = shift_left (columns - c.x - 1) c.pos c.video }

unfoldable pub insert_line : Console → Console
insert_line c = record (scrdown (record c { top = c.y; bottom = lines })) {
  top = c.top;
  bottom = c.bottom;
}

unfoldable pub delete_line : Console → Console
delete_line c = record (scrup (record c { top = c.y; bottom = lines })) {
  top = c.top;
  bottom = c.bottom;
}

-- The count of a command: a number above the limit, as an unsigned one, becomes the limit.
unfoldable pub clamp : ℕ → ℕ → ℕ
clamp limit nr = if ltb limit nr then limit else if nr == 0 then 1 else nr

-- while (nr--)
unfoldable pub repeat : (Console → Console) → ℕ → Console → Console
repeat f zero c = c
repeat f (suc n) c = repeat f n (f c)

unfoldable pub csi_at : ℕ → Console → Console
csi_at nr c = repeat insert_char (clamp columns nr) c

unfoldable pub csi_L : ℕ → Console → Console
csi_L nr c = repeat insert_line (clamp lines nr) c

unfoldable pub csi_P : ℕ → Console → Console
csi_P nr c = repeat delete_char (clamp columns nr) c

unfoldable pub csi_M : ℕ → Console → Console
csi_M nr c = repeat delete_line (clamp lines nr) c
