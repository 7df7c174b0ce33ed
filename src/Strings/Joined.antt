-- ===== src/Strings/Joined.antt =====
-- include/string.h: strcat and strncpy.
use linux_0_01raf.Prelude.{
  ℕ, zero, suc, ◌+◌, ◌-◌, ◌^◌, ◌≤◌, ◌<◌, ◌≡◌, ◌∙◌, ap, refl, subst, ◌⊎◌, inl, arith, true, false,
  ◌==◌, some, List, [], ◌∷◌, ◌++◌, length, get_or,
}
use linux_0_01raf.Strings.{Memory, put, addresses, scasb, stosb, copy_loop, strcat, strncpy}
use linux_0_01raf.Strings.Blocks.{Outside, put-ne}
use linux_0_01raf.Strings.Contents.{
  StringAt, AtEnd, scasb-AtEnd, StringAt-other, Copied, copy_loop-Copied,
}

-- a string that continues where the bytes of another one end
StringAt-append :
    (p s : List ℕ) (a : ℕ) (m n : Memory)
    → StringAt m a p
    → ((b : ℕ) → a ≤ b → b < a + length p → n b ≡ m b)
    → StringAt n (a + length p) s
    → StringAt n a (p ++ s)
unfolding StringAt
StringAt-append [] s a m n h f k = subst (λ b. StringAt n b s) (omega arith) k
StringAt-append (c ∷ cs) s a m n (e, ne, h) f k = (
  f a (omega arith) (omega arith) ∙ e,
  ne,
  StringAt-append cs s (a + 1) m n h (λ b l u. f b (omega arith) (omega arith))
      (subst (λ b. StringAt n b s) (omega arith) k),
)

-- `strcat`, of strings that it does not overlap and that are short enough, returns, has put the second behind
-- the first, and has changed nothing else.
pub strcat-StringAt :
    (p s : List ℕ) (dest src : ℕ) (m : Memory)
    → StringAt m dest p
    → StringAt m src s
    → length p < 0xffffffff
    → length s < 2 ^ 32
    → (dest + length p + length s < src) ⊎ (src + length s < dest)
    → (out : Memory) × (strcat dest src m ≡ some out)
      × StringAt out dest (p ++ s)
      × ((b : ℕ) → Outside (dest + length p) (length s + 1) b → out b ≡ m b)
unfolding strcat AtEnd Copied
strcat-StringAt p s dest src m hp hs lp ls o =
    let r = scasb-AtEnd p 0xffffffff dest m hp lp in
    let from : (scasb 0xffffffff 0 dest false m).di - 1 ≡ dest + length p = omega (arith, r.1) in
    let copy = copy_loop-Copied s addresses src (dest + length p) m hs ls (ground arith) in
    (
      copy.0,
      ap (λ d. copy_loop addresses src d m) from ∙ copy.1,
      StringAt-append p s dest m copy.0 hp (λ b l u. copy.3 b (inl u)) copy.2,
      copy.3,
    )

stosb-Outside : (n d v : ℕ) (m : Memory) (b : ℕ) → Outside d n b → stosb n d v m b ≡ m b
unfolding stosb
stosb-Outside zero d v m b o = refl
stosb-Outside (suc n) d v m b o =
    stosb-Outside n (d + 1) v (put d v m) b (ground arith) ∙ ground arith

stosb_inside : (n d v : ℕ) (m : Memory) (k : ℕ) → k < n → stosb n d v m (d + k) ≡ v
unfolding stosb
stosb_inside zero d v m k h = absurd (omega arith)
stosb_inside (suc n) d v m zero h =
    stosb-Outside n (d + 1) v (put d v m) (d + 0) (inl (omega arith)) ∙ ground arith
stosb_inside (suc n) d v m (suc k) h =
    ap (stosb n (d + 1) v (put d v m)) (omega arith)
    ∙ stosb_inside n (d + 1) v (put d v m) k (omega arith)

at_each :
    (n : ℕ) (f g : ℕ → ℕ)
    → f 0 ≡ g 0
    → ((k : ℕ) → k < n → f (suc k) ≡ g (suc k))
    → (k : ℕ) → k < suc n
    → f k ≡ g k
at_each n f g z h zero l = z
at_each n f g z h (suc k) l = h k (omega arith)

-- `strncpy`, of a string to a block of `count` bytes that it does not overlap, fills the block with the bytes
-- of the string, and with zeros behind them, and changes nothing else. A string of `count` bytes or more is
-- cut off, with no zero byte behind it.
pub strncpy_fills :
    (s : List ℕ) (count src dest : ℕ) (m : Memory)
    → StringAt m src s
    → (dest + count ≤ src) ⊎ (src + length s < dest)
    → ((k : ℕ) → k < count → strncpy dest src count m (dest + k) ≡ get_or s k 0)
      × ((b : ℕ) → Outside dest count b → strncpy dest src count m b ≡ m b)
unfolding StringAt strncpy
strncpy_fills s zero src dest m h o = (λ k l. absurd (omega arith), λ b u. refl)
strncpy_fills [] (suc count) src dest m h o =
    let out = put dest (m src) m in
    let stop : (m src == 0) ≡ true = ground arith in
    rw stop (
      at_each count (λ k. stosb count (dest + 1) 0 out (dest + k)) (λ k. 0)
          (stosb-Outside count (dest + 1) 0 out (dest + 0) (inl (omega arith)) ∙ ground arith)
          (λ k l.
            ap (stosb count (dest + 1) 0 out) (omega arith)
            ∙ stosb_inside count (dest + 1) 0 out k l),
      λ b u.
          stosb-Outside count (dest + 1) 0 out b (ground arith)
          ∙ put-ne dest (m src) m b (ground arith),
    )
strncpy_fills (c ∷ cs) (suc count) src dest m (e, ne, h) o =
    let out = put dest (m src) m in
    let go : (m src == 0) ≡ false = ground arith in
    let same : StringAt out (src + 1) cs =
      StringAt-other cs (src + 1) m out (λ b p q. put-ne dest (m src) m b (ground arith)) h in
    let rest = strncpy_fills cs count (src + 1) (dest + 1) out same (ground arith) in
    rw go (
      at_each count (λ k. strncpy (dest + 1) (src + 1) count out (dest + k))
          (λ k. get_or (c ∷ cs) k 0) (rest.1 (dest + 0) (inl (omega arith)) ∙ ground arith)
          (λ k l. ap (strncpy (dest + 1) (src + 1) count out) (omega arith) ∙ rest.0 k l),
      λ b u. rest.1 b (ground arith) ∙ put-ne dest (m src) m b (ground arith),
    )
