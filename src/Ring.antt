-- ===== src/Ring.antt =====
-- Byte rings: an array read from a start index on, going round at its size. The tty queues of
-- include/linux/tty.h and the pipes of include/linux/fs.h are such rings.
use linux_0_01raf.Prelude.{
  ℕ, zero, suc, ◌+◌, ◌%◌, ◌≤◌, ◌<◌, ◌≡◌, ◌≢◌, ◌∙◌, ap, refl, sym, List, [], ◌∷◌, ◌++◌, arith,
  length, get_or, set, get_or-set_self, get_or-set_ne,
}
use native.Mathlib.Nat.{mod-add-mod}

-- the `n` bytes from index `i` on
unfoldable pub stretch : List ℕ → ℕ → ℕ → ℕ → List ℕ
stretch buf size i zero = []
stretch buf size i (suc n) = get_or buf i 0 ∷ stretch buf size ((i + 1) % size) n

pub length-stretch : (buf : List ℕ) (size i n : ℕ) → length (stretch buf size i n) ≡ n
unfolding stretch
length-stretch buf size i zero = refl
length-stretch buf size i (suc n) = ap suc (length-stretch buf size ((i + 1) % size) n)

-- fewer steps than the size do not lead back to the start
no_return : (size i n : ℕ) → i < size → suc n < size → (i + suc n) % size ≢ i
no_return size i n a b = grind arith

step_round : (size i n : ℕ) → ((i + 1) % size + n) % size ≡ (i + suc n) % size
step_round size i n = mod-add-mod (i + 1) size n ∙ ap (λ (k : ℕ). k % size) (omega arith)

-- a byte written just behind a stretch extends it
pub stretch-set :
    (buf : List ℕ) (size v n i j : ℕ)
    → size ≤ length buf
    → i < size
    → n < size
    → j ≡ (i + n) % size
    → stretch (set buf j v) size i (suc n) ≡ stretch buf size i n ++ (v ∷ [])
unfolding stretch
stretch-set buf size v zero i j l a b e =
    let e' : j ≡ i = grind arith in rw (e', get_or-set_self buf i v 0 (omega arith))
stretch-set buf size v (suc n) i j l a b e =
    let ne : j ≢ i = λ q. no_return size i n a b (sym e ∙ q) in
    let rest =
      stretch-set buf size v n ((i + 1) % size) j l (grind arith) (omega arith)
        (e ∙ sym (step_round size i n)) in
    λ k. get_or-set_ne buf j i v 0 ne k ∷ rest k

-- a stretch that is one byte longer ends with one byte more
pub stretch-suc :
    (buf : List ℕ) (size i n : ℕ)
    → i < size
    → stretch buf size i (suc n) ≡ stretch buf size i n ++ (get_or buf ((i + n) % size) 0 ∷ [])
unfolding stretch
stretch-suc buf size i zero a =
    let e : i ≡ (i + 0) % size = grind arith in ap (λ k. get_or buf k 0 ∷ []) e
stretch-suc buf size i (suc n) a =
    ap (◌∷◌ (get_or buf i 0)) (stretch-suc buf size ((i + 1) % size) n (grind arith))
    ∙ ap (λ k. get_or buf i 0 ∷ (stretch buf size ((i + 1) % size) n ++ (get_or buf k 0 ∷ [])))
        (step_round size i n)
