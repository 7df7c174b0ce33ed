-- ===== src/Strings/Blocks.antt =====
-- include/string.h: what the functions on blocks leave in memory.
use linux_0_01raf.Prelude.{
  ℕ, zero, suc, ◌+◌, ◌-◌, ◌≤◌, ◌<◌, ◌≡◌, ◌≢◌, ◌∙◌, ap, refl, ◌⊎◌, inl, inr, arith, ltb, ltb→lt,
  Bool-cases,
}
use linux_0_01raf.Strings.{Memory, put, movsb, movsb_down, memcpy, memmove}

abbrev pub Outside : ℕ → ℕ → ℕ → Type 0
Outside a n b = (b < a) ⊎ (a + n ≤ b)

pub put-ne : (a v : ℕ) (m : Memory) (b : ℕ) → b ≢ a → put a v m b ≡ m b
put-ne a v m b h = ground arith

movsb-Outside : (n d s : ℕ) (m : Memory) (b : ℕ) → Outside d n b → movsb n d s m b ≡ m b
unfolding movsb
movsb-Outside zero d s m b o = refl
movsb-Outside (suc n) d s m b o =
    movsb-Outside n (d + 1) (s + 1) (put d (m s) m) b (ground arith) ∙ ground arith

movsb_inside : (n d s : ℕ) (m : Memory) (k : ℕ) → d < s → k < n → movsb n d s m (d + k) ≡ m (s + k)
unfolding movsb
movsb_inside zero d s m k l h = absurd (omega arith)
movsb_inside (suc n) d s m zero l h =
    movsb-Outside n (d + 1) (s + 1) (put d (m s) m) (d + 0) (inl (omega arith)) ∙ ground arith
movsb_inside (suc n) d s m (suc k) l h =
    ap (movsb n (d + 1) (s + 1) (put d (m s) m)) (omega arith)
    ∙ movsb_inside n (d + 1) (s + 1) (put d (m s) m) k (omega arith) (omega arith)
    ∙ put-ne d (m s) m (s + 1 + k) (ground arith)
    ∙ ap m (omega arith)

-- `n` bytes, the last at `d`, the first at `to`
movsb_down-Outside :
    (n to d s : ℕ) (m : Memory) (b : ℕ)
    → d + 1 ≡ to + n
    → Outside to n b
    → movsb_down n d s m b ≡ m b
unfolding movsb_down
movsb_down-Outside zero to d s m b e o = refl
movsb_down-Outside (suc zero) to d s m b e o = ground arith
movsb_down-Outside (suc (suc n)) to d s m b e o =
    movsb_down-Outside (suc n) to (d - 1) (s - 1) (put d (m s) m) b (omega arith) (ground arith)
    ∙ ground arith

movsb_down_inside :
    (n to from d s : ℕ) (m : Memory) (k : ℕ)
    → from ≤ to
    → d + 1 ≡ to + n
    → s + 1 ≡ from + n
    → k < n
    → movsb_down n d s m (to + k) ≡ m (from + k)
unfolding movsb_down
movsb_down_inside zero to from d s m k l e f h = absurd (omega arith)
movsb_down_inside (suc zero) to from d s m k l e f h = ground arith
movsb_down_inside (suc (suc n)) to from d s m k l e f h = elim (Bool-cases (ltb k (suc n))) [
  | inl lower ↦
      movsb_down_inside (suc n) to from (d - 1) (s - 1) (put d (m s) m) k l (omega arith)
        (omega arith) (ltb→lt k (suc n) lower)
      ∙ put-ne d (m s) m (from + k) (ground arith)
  | inr upper ↦
      movsb_down-Outside (suc n) to (d - 1) (s - 1) (put d (m s) m) (to + k) (omega arith)
        (inr (ground arith))
      ∙ ground arith
]

-- the bytes of a block, and the others, after a copy of `n` bytes
unfoldable pub IsCopy : ℕ → ℕ → ℕ → Memory → Memory → Type 0
IsCopy dest src n m out =
    ((k : ℕ) → k < n → out (dest + k) ≡ m (src + k)) × ((b : ℕ) → Outside dest n b → out b ≡ m b)

upwards : (dest src n : ℕ) (m : Memory) → dest < src → IsCopy dest src n m (movsb n dest src m)
unfolding IsCopy
upwards dest src n m h =
    (λ k hk. movsb_inside n dest src m k h hk, λ b o. movsb-Outside n dest src m b o)

downwards :
    (dest src n : ℕ) (m : Memory)
    → src ≤ dest
    → IsCopy dest src n m (movsb_down n (n + dest - 1) (n + src - 1) m)
unfolding IsCopy movsb_down
downwards dest src zero m h = (λ k hk. absurd (omega arith), λ b o. refl)
downwards dest src (suc n) m h = (
  λ k hk. movsb_down_inside (suc n) dest src _ _ m k h (omega arith) (omega arith) hk,
  λ b o. movsb_down-Outside (suc n) dest _ _ m b (omega arith) o,
)

-- `memmove` copies a block to any place, whether or not the two overlap, and changes nothing else.
pub memmove-IsCopy : (dest src n : ℕ) (m : Memory) → IsCopy dest src n m (memmove dest src n m)
unfolding memcpy memmove
memmove-IsCopy dest src n m = elim (Bool-cases (ltb dest src)) [
  | inl up ↦ rw up (upwards dest src n m (ltb→lt dest src up))
  | inr down ↦ rw down (downwards dest src n m (ground arith))
]
