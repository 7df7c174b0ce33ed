-- ===== src/Console/Safety.antt =====
-- kernel/console.c: every character that con_write takes leaves the cursor on the screen, and writes to
-- video memory alone.
use linux_0_01raf.Prelude.{ℕ, ◌≡◌, ◌↔◌, arith, true, ◌&&◌, ltb}
use linux_0_01raf.Console.{Video, Console, gotoxy, initial, con_init}
use linux_0_01raf.Console.Cursor.{OnScreen}

-- `con_init` leaves the cursor on the screen where the start-up code left it there, and only then.
pub con_init-OnScreen :
    (boot_x boot_y : ℕ) (m : Video)
    → (ltb boot_x 80 && ltb boot_y 25 ≡ true) ↔ OnScreen (con_init boot_x boot_y m)
unfolding con_init gotoxy initial OnScreen
con_init-OnScreen boot_x boot_y m = ground arith
