-- ===== src/Strings/Contents.antt =====
-- include/string.h: strings as lists of bytes, and the functions that measure, copy and join them.
use linux_0_01raf.Prelude.{
  ℕ, zero, suc, ◌+◌, ◌^◌, ◌≤◌, ◌<◌, ◌≡◌, ◌≢◌, ◌∙◌, ◌⊎◌, inl, arith, false, Option, some, List, [],
  ◌∷◌, length,
}
use linux_0_01raf.Strings.{Memory, put, addresses, Scan, scasb, strlen, copy_loop, strcpy}
use linux_0_01raf.Strings.Blocks.{Outside, put-ne}

-- the bytes of a string stand at an address, and a zero byte behind them
unfoldable pub StringAt : Memory → ℕ → List ℕ → Type 0
StringAt m a [] = m a ≡ 0
StringAt m a (c ∷ cs) = (m a ≡ c) × (c ≢ 0) × StringAt m (a + 1) cs

-- the registers behind `repne scasb`, for the zero byte at the end of a string
unfoldable pub AtEnd : ℕ → ℕ → ℕ → Scan → Type 0
AtEnd n a l r = (r.cx + l + 1 ≡ n) × (r.di ≡ a + l + 1)

pub scasb-AtEnd :
    (s : List ℕ) (n a : ℕ) (m : Memory)
    → StringAt m a s
    → length s < n
    → AtEnd n a (length s) (scasb n 0 a false m)
unfolding StringAt scasb AtEnd
scasb-AtEnd [] zero a m h l = absurd (omega arith)
scasb-AtEnd [] (suc n) a m h l = ground arith
scasb-AtEnd (c ∷ cs) zero a m h l = absurd (omega arith)
scasb-AtEnd (c ∷ cs) (suc n) a m (e, ne, h) l =
    let rest = scasb-AtEnd cs n (a + 1) m h (omega arith) in ground (arith, rest)

-- `strlen` of a string of fewer than 2 ^ 32 - 1 bytes is their number.
pub strlen-StringAt :
    (s : List ℕ) (a : ℕ) (m : Memory)
    → StringAt m a s
    → length s < 0xffffffff
    → strlen a m ≡ length s
unfolding strlen AtEnd
strlen-StringAt s a m h l = let r = scasb-AtEnd s 0xffffffff a m h l in grind (arith, r)

-- a write elsewhere
pub StringAt-other :
    (s : List ℕ) (a : ℕ) (m n : Memory)
    → ((b : ℕ) → a ≤ b → b ≤ a + length s → n b ≡ m b)
    → StringAt m a s
    → StringAt n a s
unfolding StringAt
StringAt-other [] a m n f h = f a (omega arith) (omega arith) ∙ h
StringAt-other (c ∷ cs) a m n f (e, ne, h) = (
  f a (omega arith) (omega arith) ∙ e,
  ne,
  StringAt-other cs (a + 1) m n (λ b l u. f b (omega arith) (omega arith)) h,
)

-- what a copy of a string of `s` bytes to `dest` leaves
unfoldable pub Copied : ℕ → List ℕ → Memory → Option Memory → Type 0
Copied dest s m r =
    (out : Memory) × (r ≡ some out)
    × StringAt out dest s
    × ((b : ℕ) → Outside dest (length s + 1) b → out b ≡ m b)

pub copy_loop-Copied :
    (s : List ℕ) (fuel src dest : ℕ) (m : Memory)
    → StringAt m src s
    → length s < fuel
    → (dest + length s < src) ⊎ (src + length s < dest)
    → Copied dest s m (copy_loop fuel src dest m)
unfolding StringAt copy_loop Copied
copy_loop-Copied [] zero src dest m h l o = absurd (omega arith)
copy_loop-Copied (c ∷ cs) zero src dest m h l o = absurd (omega arith)
copy_loop-Copied [] (suc fuel) src dest m h l o =
    (put dest (m src) m, ground arith, ground arith, λ b u. put-ne dest (m src) m b (ground arith))
copy_loop-Copied (c ∷ cs) (suc fuel) src dest m (e, ne, h) l o =
    let out = put dest (m src) m in
    let same : StringAt out (src + 1) cs =
      StringAt-other cs (src + 1) m out (λ b p q. put-ne dest (m src) m b (ground arith)) h in
    let rest =
      copy_loop-Copied cs fuel (src + 1) (dest + 1) out same (omega arith) (ground arith) in
    (
      rest.0,
      ground (arith, rest.1),
      (rest.3 dest (inl (omega arith)) ∙ ground arith, ne, rest.2),
      λ b u. rest.3 b (ground arith) ∙ put-ne dest (m src) m b (ground arith),
    )

-- `strcpy`, of a string of fewer than 2 ^ 32 bytes to a place that it does not overlap, returns, has copied
-- the string, and has changed nothing else.
pub strcpy-Copied :
    (s : List ℕ) (src dest : ℕ) (m : Memory)
    → StringAt m src s
    → length s < 2 ^ 32
    → (dest + length s < src) ⊎ (src + length s < dest)
    → Copied dest s m (strcpy dest src m)
unfolding strcpy
strcpy-Copied s src dest m h l o = copy_loop-Copied s addresses src dest m h l o
