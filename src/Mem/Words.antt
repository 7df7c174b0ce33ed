-- ===== src/Mem/Words.antt =====
-- mm/memory.c: clearing and copying words, what changes and what does not.
use linux_0_01raf.Prelude.{ℕ, zero, suc, ◌+◌, ◌-◌, ◌*◌, ◌≤◌, ◌<◌, ◌≡◌, ◌∙◌, ap, refl, ◌⊎◌, arith}
use linux_0_01raf.Mem.Monad.{write_word}
use linux_0_01raf.Mem.{clear_words, copy_words}

pub write_word_self : (w : ℕ → ℕ) (a v : ℕ) → write_word w a v a ≡ v
write_word_self w a v = ground arith

pub write_word_ne : (w : ℕ → ℕ) (a v b : ℕ) → (b < a) ⊎ (a < b) → write_word w a v b ≡ w b
write_word_ne w a v b h = ground arith

pub clear_words_outside :
    (n a b : ℕ) (w : ℕ → ℕ)
    → (a < b) ⊎ (b + 4 * n < a + 4)
    → 4 * n ≤ a + 4
    → clear_words n a w b ≡ w b
unfolding clear_words
clear_words_outside zero a b w h l = refl
clear_words_outside (suc n) a b w h l =
    clear_words_outside n (a - 4) b (write_word w a 0) (omega arith) (omega arith)
    ∙ write_word_ne w a 0 b (omega arith)

-- the word `k` places below the first is cleared
pub clear_words_at :
    (n a k : ℕ) (w : ℕ → ℕ) → k < n → 4 * n ≤ a + 4 → clear_words n a w (a - 4 * k) ≡ 0
unfolding clear_words
clear_words_at zero a k w h l = elim h [ ]
clear_words_at (suc zero) a zero w h l = ground arith
clear_words_at (suc (suc n)) a zero w h l =
    clear_words_outside (suc n) (a - 4) (a - 4 * 0) (write_word w a 0) (omega arith) (omega arith)
    ∙ ground arith
clear_words_at (suc n) a (suc k) w h l =
    ap (λ b. clear_words n (a - 4) (write_word w a 0) b) shift
    ∙ clear_words_at n (a - 4) k (write_word w a 0) (omega arith) (omega arith)
  where
    shift : a - 4 * suc k ≡ a - 4 - 4 * k
    shift = omega arith

pub copy_words_outside :
    (n from to b : ℕ) (w : ℕ → ℕ) → (b < to) ⊎ (to + 4 * n ≤ b) → copy_words n from to w b ≡ w b
unfolding copy_words
copy_words_outside zero from to b w h = refl
copy_words_outside (suc n) from to b w h =
    copy_words_outside n (from + 4) (to + 4) b (write_word w to (w from)) (omega arith)
    ∙ write_word_ne w to (w from) b (omega arith)

-- where the two ranges are apart, the copy has the words of the original
pub copy_words_at :
    (n from to k : ℕ) (w : ℕ → ℕ)
    → k < n
    → (from + 4 * n ≤ to) ⊎ (to + 4 * n ≤ from)
    → copy_words n from to w (to + 4 * k) ≡ w (from + 4 * k)
unfolding copy_words
copy_words_at zero from to k w h d = elim h [ ]
copy_words_at (suc n) from to zero w h d =
    ap (λ b. copy_words n (from + 4) (to + 4) (write_word w to (w from)) b) {y = to} (omega arith)
    ∙ copy_words_outside n (from + 4) (to + 4) to (write_word w to (w from)) (omega arith)
    ∙ write_word_self w to (w from)
    ∙ ap w (omega arith)
copy_words_at (suc n) from to (suc k) w h d =
    ap (λ b. copy_words n (from + 4) (to + 4) (write_word w to (w from)) b) {y = to + 4 + 4 * k}
      (omega arith)
    ∙ copy_words_at n (from + 4) (to + 4) k (write_word w to (w from)) (omega arith) (omega arith)
    ∙ write_word_ne w to (w from) (from + 4 + 4 * k) (omega arith)
    ∙ ap w (omega arith)
