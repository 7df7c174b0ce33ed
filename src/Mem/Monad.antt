-- ===== src/Mem/Monad.antt =====
-- The machine under mm/memory.c: words of physical memory, the page map, and how a routine ends.
use linux_0_01raf.Prelude.{
  ℕ, ◌+◌, ◌-◌, ◌*◌, ◌/◌, ◌%◌, Bool, List, ltb, ◌==◌, if◌then◌else◌, length, get_or, set,
}

-- `mem_map`, and the 32-bit words at byte addresses. The page directory stands at address 0.
pub record Machine : Type 0 where
  pub mem_map : List ℕ
  pub words : ℕ → ℕ

-- A routine returns, panics, reads or writes outside `mem_map`, or ends the task by `do_exit`.
pub data Run (A : Type 0) : Type 0 where
  done : A → Machine → Run A
  panic : Run A
  stray : Run A
  exited : Machine → Run A

abbrev pub M : Type 0 → Type 0
M A = Machine → Run A

infixl 5 ◌>>=◌ ◌>>◌
abbrev pub ◌>>=◌ : {A B : Type 0} → M A → (A → M B) → M B
◌>>=◌ m f s = elim (m s) [ done a t ↦ f a t | panic ↦ panic | stray ↦ stray | exited t ↦ exited t ]

abbrev pub ◌>>◌ : {B : Type 0} → M (Unit {0}) → M B → M B
m >> k = m >>= λ _. k

abbrev pub pure : {A : Type 0} → A → M A
pure a s = done a s

abbrev pub panics : {A : Type 0} → M A
panics s = panic

-- do_exit(SIGSEGV): the task does not come back
abbrev pub do_exit : {A : Type 0} → M A
do_exit s = exited s

abbrev pub write_word : (ℕ → ℕ) → ℕ → ℕ → ℕ → ℕ
write_word w a v b = if b == a then v else w b

abbrev pub load : ℕ → M ℕ
load a s = done (s.words a) s

abbrev pub store : ℕ → ℕ → M (Unit {0})
store a v s = done tt (record s { words = write_word s.words a v })

-- mem_map[i]
abbrev pub read_map : ℕ → M ℕ
read_map i s = if ltb i (length s.mem_map) then done (get_or s.mem_map i 0) s else stray

-- mem_map[i] = v, an unsigned short
abbrev pub write_map : ℕ → ℕ → M (Unit {0})
write_map i v s =
    if ltb i (length s.mem_map)
    then done tt (record s { mem_map = set s.mem_map i (v % 65536) })
    else stray

-- 0xfffff000 & x
abbrev pub page_of : ℕ → ℕ
page_of x = x / 4096 * 4096

-- 1 & x
abbrev pub present : ℕ → Bool
present x = x % 2 == 1

-- x | 7
abbrev pub or_7 : ℕ → ℕ
or_7 x = x - x % 8 + 7

-- x | 2
abbrev pub or_2 : ℕ → ℕ
or_2 x = if x / 2 % 2 == 0 then x + 2 else x

-- x & ~2
abbrev pub clear_2 : ℕ → ℕ
clear_2 x = if x / 2 % 2 == 0 then x else x - 2
