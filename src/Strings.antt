-- ===== src/Strings.antt =====
-- include/string.h: the inline functions on strings and blocks of memory. Memory is a function from addresses
-- to bytes, a pointer is an address, and NULL is 0. No address of a run wraps around the end of memory. A
-- loop that ends at a byte of the strings runs on fuel, a round for each address there is; out of fuel,
-- nothing is returned.
pub mod Search
pub mod Blocks
pub mod Contents
pub mod Joined
pub mod Order
pub mod Tokens
pub mod Spans
pub mod Substring
use linux_0_01raf.Prelude.{
  ℕ, zero, suc, ◌+◌, ◌-◌, ◌%◌, ◌^◌, Bool, true, false, Option, none, some, ltb, leb, ◌==◌,
  if◌then◌else◌,
}
use linux_0_01raf.Prelude.Int.{ℤ, pos, negsuc}

abbrev pub Memory : Type 0
Memory = ℕ → ℕ

abbrev pub put : ℕ → ℕ → Memory → Memory
put a v m = λ b. if b == a then v else m b

abbrev pub addresses : ℕ
addresses = 2 ^ 32

-- rep movsb, upwards
unfoldable pub movsb : ℕ → ℕ → ℕ → Memory → Memory
movsb zero d s m = m
movsb (suc n) d s m = movsb n (d + 1) (s + 1) (put d (m s) m)

-- rep movsb, downwards
unfoldable pub movsb_down : ℕ → ℕ → ℕ → Memory → Memory
movsb_down zero d s m = m
movsb_down (suc n) d s m = movsb_down n (d - 1) (s - 1) (put d (m s) m)

-- rep stosb
unfoldable pub stosb : ℕ → ℕ → ℕ → Memory → Memory
stosb zero d v m = m
stosb (suc n) d v m = stosb n (d + 1) v (put d v m)

-- the registers behind `repne scasb`
pub record Scan : Type 0 where
  pub cx : ℕ
  pub di : ℕ
  pub zf : Bool

-- repne scasb: with the count 0 it leaves the zero flag as it was
unfoldable pub scasb : ℕ → ℕ → ℕ → Bool → Memory → Scan
scasb zero al di zf m = record { cx = 0; di = di; zf = zf }
scasb (suc n) al di zf m =
    let rest = scasb n al (di + 1) false m in
    if m di == al then record { cx = n; di = di + 1; zf = true } else rest

unfoldable pub memcpy : ℕ → ℕ → ℕ → Memory → Memory
memcpy dest src n m = movsb n dest src m

unfoldable pub memmove : ℕ → ℕ → ℕ → Memory → Memory
memmove dest src n m =
    if ltb dest src then memcpy dest src n m else movsb_down n (n + dest - 1) (n + src - 1) m

unfoldable pub memset : ℕ → ℕ → ℕ → Memory → Memory
memset s c count m = stosb count s (c % 256) m

unfoldable pub memchr : ℕ → ℕ → ℕ → Memory → ℕ
memchr cs c count m =
    let r = scasb count c cs false m in if count == 0 then 0 else if r.zf then r.di - 1 else 0

-- a byte as a `signed char` is below another
abbrev pub below_signed : ℕ → ℕ → Bool
below_signed a b = ltb ((a + 128) % 256) ((b + 128) % 256)

-- `repe cmpsb` and the jumps behind it. The count 0 leaves the flags of the code before: `zf` and `lt`.
unfoldable pub memcmp : Bool → Bool → ℕ → ℕ → ℕ → Memory → ℤ
memcmp zf lt cs ct zero m = if zf then pos 0 else if lt then pos 1 else negsuc 0
memcmp zf lt cs ct (suc n) m =
    let rest = memcmp true false (cs + 1) (ct + 1) n m in
    if m ct == m cs then rest else if below_signed (m ct) (m cs) then pos 1 else negsuc 0

unfoldable pub strlen : ℕ → Memory → ℕ
strlen s m = let r = scasb 0xffffffff 0 s false m in (0xffffffff - r.cx + 0xffffffff) % 2 ^ 32

-- lodsb, stosb, until a zero byte is copied
unfoldable pub copy_loop : ℕ → ℕ → ℕ → Memory → Option Memory
copy_loop zero src dest m = none
copy_loop (suc fuel) src dest m =
    let out = put dest (m src) m in
    let rest = copy_loop fuel (src + 1) (dest + 1) out in if m src == 0 then some out else rest

unfoldable pub strcpy : ℕ → ℕ → Memory → Option Memory
strcpy dest src m = copy_loop addresses src dest m

unfoldable pub strcat : ℕ → ℕ → Memory → Option Memory
strcat dest src m = let r = scasb 0xffffffff 0 dest false m in copy_loop addresses src (r.di - 1) m

-- `count` is an `int`: below 0 it copies nothing, as 0 does
unfoldable pub strncpy : ℕ → ℕ → ℕ → Memory → Memory
strncpy dest src zero m = m
strncpy dest src (suc count) m =
    let out = put dest (m src) m in
    let rest = strncpy (dest + 1) (src + 1) count out in
    if m src == 0 then stosb count (dest + 1) 0 out else rest

-- lodsb, stosb, until a zero byte is copied, or `count` bytes, behind which a zero is put
unfoldable pub append_loop : ℕ → ℕ → ℕ → Memory → Memory
append_loop zero src dest m = put dest 0 m
append_loop (suc count) src dest m =
    let out = put dest (m src) m in
    let rest = append_loop count (src + 1) (dest + 1) out in
    if m src == 0 then put (dest + 1) 0 out else rest

unfoldable pub strncat : ℕ → ℕ → ℕ → Memory → Memory
strncat dest src count m =
    let r = scasb 0xffffffff 0 dest false m in append_loop count src (r.di - 1) m
