-- ===== src/Console.antt =====
-- kernel/console.c: the screen, its cursor, and its scrolling. Video memory is a function from byte
-- addresses to the 16-bit words stored there; every access is at an even distance from `screen_start`.
pub mod Memory
pub mod Cursor
pub mod Commands
pub mod Write
pub mod Drawing
pub mod Characters
pub mod Depth
pub mod Echo
pub mod Safety
pub mod Screen
pub mod Editing
pub mod Rows
pub mod Tool
pub mod Overlay
pub mod ClipRows
pub mod Clipboard
use linux_0_01raf.Prelude.{
  ℕ, zero, suc, ◌+◌, ◌-◌, ◌*◌, ◌/◌, ◌%◌, ◌^◌, Bool, ◌&&◌, ◌||◌, List, ltb, leb, ◌==◌, if◌then◌else◌,
  replicate,
}

abbrev pub screen_start : ℕ
screen_start = 0xb8000

abbrev pub screen_end : ℕ
screen_end = 0xc0000

abbrev pub lines : ℕ
lines = 25

abbrev pub columns : ℕ
columns = 80

abbrev pub npar_max : ℕ
npar_max = 16

-- a space in the normal attribute
abbrev pub blank : ℕ
blank = 0x0720

-- unsigned long, which has 32 bits
abbrev pub add32 : ℕ → ℕ → ℕ
add32 a b = (a + b) % 2 ^ 32

abbrev pub sub32 : ℕ → ℕ → ℕ
sub32 a b = (a + 2 ^ 32 - b % 2 ^ 32) % 2 ^ 32

abbrev pub mul32 : ℕ → ℕ → ℕ
mul32 a b = a * b % 2 ^ 32

abbrev pub Video : Type 0
Video = ℕ → ℕ

-- the static variables
pub record Console : Type 0 where
  pub origin : ℕ
  pub scr_end : ℕ
  pub pos : ℕ
  pub x : ℕ
  pub y : ℕ
  pub top : ℕ
  pub bottom : ℕ
  pub state : ℕ
  pub npar : ℕ
  pub par : List ℕ
  pub ques : Bool
  pub attr : ℕ
  pub saved_x : ℕ
  pub saved_y : ℕ
  pub video : Video

-- their initial values, on a given memory
unfoldable pub initial : Video → Console
initial m = record {
  origin = screen_start;
  scr_end = screen_start + 4000;
  pos = 0;
  x = 0;
  y = 0;
  top = 0;
  bottom = lines;
  state = 0;
  npar = 0;
  par = replicate npar_max 0;
  ques = Bool.false;
  attr = 0x07;
  saved_x = 0;
  saved_y = 0;
  video = m;
}

abbrev pub store : ℕ → ℕ → Video → Video
store a v m = λ b. if b == a then v else m b

-- cld; rep stosw
unfoldable pub stosw : ℕ → ℕ → ℕ → Video → Video
stosw zero a v m = m
stosw (suc n) a v m = stosw n (a + 2) v (store a v m)

-- cld; rep stosl, of a long as its two words
unfoldable pub stosl : ℕ → ℕ → ℕ → Video → Video
stosl zero a v m = m
stosl (suc n) a v m = stosl n (a + 4) v (store (a + 2) (v / 65536) (store a (v % 65536) m))

-- cld; rep movsl
unfoldable pub movsl : ℕ → ℕ → ℕ → Video → Video
movsl zero d s m = m
movsl (suc n) d s m = movsl n (d + 4) (s + 4) (store (d + 2) (m (s + 2)) (store d (m s) m))

-- std; rep movsl
unfoldable pub movsl_down : ℕ → ℕ → ℕ → Video → Video
movsl_down zero d s m = m
movsl_down (suc n) d s m =
    movsl_down n (d - 4) (s - 4) (store (d + 2) (m (s + 2)) (store d (m s) m))

-- std; rep stosw
unfoldable pub stosw_down : ℕ → ℕ → ℕ → Video → Video
stosw_down zero a v m = m
stosw_down (suc n) a v m = stosw_down n (a - 2) v (store a v m)

-- origin+((y*columns+x)<<1)
abbrev pub cell_address : ℕ → ℕ → ℕ → ℕ
cell_address origin x y = add32 origin (mul32 (add32 (mul32 y columns) x) 2)

unfoldable pub gotoxy : ℕ → ℕ → Console → Console
gotoxy new_x new_y c =
    if leb columns new_x || leb lines new_y
    then c
    else record c { x = new_x; y = new_y; pos = cell_address c.origin new_x new_y }

-- (bottom-top-1)*columns>>1
abbrev pub region_longs : ℕ → ℕ → ℕ
region_longs top bottom = mul32 (sub32 (sub32 bottom top) 1) columns / 2

-- the window on video memory is at its end: its lines but the first go to the start
unfoldable pub rewind : Console → Console
rewind c = record c {
  scr_end = sub32 c.scr_end (sub32 c.origin screen_start);
  pos = sub32 c.pos (sub32 c.origin screen_start);
  origin = screen_start;
  video =
      stosw columns (screen_start + 4 * ((lines - 1) * columns / 2)) blank
        (movsl ((lines - 1) * columns / 2) screen_start c.origin c.video);
}

-- `set_origin` is a write to the video controller
unfoldable pub scrup : Console → Console
scrup c =
    let up = record c {
      origin = add32 c.origin (columns * 2);
      pos = add32 c.pos (columns * 2);
      scr_end = add32 c.scr_end (columns * 2);
    } in
    let longs = region_longs c.top c.bottom in
    let to = add32 c.origin (mul32 (columns * 2) c.top) in
    if (c.top == 0) && (c.bottom == lines)
    then if ltb screen_end up.scr_end then rewind up else record up {
      video = stosl (columns / 2) (sub32 up.scr_end (columns * 2)) 0x07200720 c.video;
    }
    else record c {
      video =
          stosw columns (to + 4 * longs) blank
            (movsl longs to (add32 c.origin (mul32 (columns * 2) (add32 c.top 1))) c.video);
    }

-- `addl $2,%edi` between the two loops
unfoldable pub scrdown : Console → Console
scrdown c =
    let longs = region_longs c.top c.bottom in
    let to = sub32 (add32 c.origin (mul32 (columns * 2) c.bottom)) 4 in
    record c {
      video = stosw_down columns (to - 4 * longs + 2) blank (
          movsl_down longs to (sub32 (add32 c.origin (mul32 (columns * 2) (sub32 c.bottom 1))) 4)
            c.video);
    }

unfoldable pub lf : Console → Console
lf c =
    if ltb (add32 c.y 1) c.bottom
    then record c { y = add32 c.y 1; pos = add32 c.pos (columns * 2) }
    else scrup c

unfoldable pub ri : Console → Console
ri c =
    if ltb c.top c.y then record c { y = c.y - 1; pos = sub32 c.pos (columns * 2) } else scrdown c

unfoldable pub cr : Console → Console
cr c = record c { pos = sub32 c.pos (mul32 c.x 2); x = 0 }

unfoldable pub del : Console → Console
del c =
    let at = sub32 c.pos 2 in
    if c.x == 0 then c else record c { pos = at; x = c.x - 1; video = store at blank c.video }

unfoldable pub save_cur : Console → Console
save_cur c = record c { saved_x = c.x; saved_y = c.y }

unfoldable pub restore_cur : Console → Console
restore_cur c = record c {
  x = c.saved_x;
  y = c.saved_y;
  pos = cell_address c.origin c.saved_x c.saved_y;
}

-- `con_init`, on the cursor that the start-up code left at 0x90000+510
unfoldable pub con_init : ℕ → ℕ → Video → Console
con_init boot_x boot_y m = gotoxy boot_x boot_y (initial m)
