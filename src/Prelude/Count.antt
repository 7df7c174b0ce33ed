-- ===== src/Prelude/Count.antt =====
-- Occurrences of a number in a list, and what they say of the list's length.
use linux_0_01raf.Prelude.{
  ℕ, zero, suc, ◌+◌, ◌≤◌, ◌<◌, ◌≡◌, refl, List, [], ◌∷◌, ◌++◌, arith, ltb, ◌==◌, if◌then◌else◌,
  length, get_or, set,
}

abbrev pub count : ℕ → List ℕ → ℕ
count v [] = 0
count v (x ∷ xs) = (if x == v then 1 else 0) + count v xs

-- a list that holds the numbers below `n`, each once, and no other
abbrev pub IsPermBelow : ℕ → List ℕ → Type 0
IsPermBelow n xs = (v : ℕ) → count v xs ≡ (if ltb v n then 1 else 0)

pub count-append : (v : ℕ) (xs ys : List ℕ) → count v (xs ++ ys) ≡ count v xs + count v ys
count-append v [] ys = omega arith
count-append v (x ∷ xs) ys = omega (arith, count-append v xs ys)

-- a write exchanges one occurrence for another
pub count-set :
    (v : ℕ) (xs : List ℕ) (i w : ℕ)
    → i < length xs
    → count v (set xs i w) + (if get_or xs i 0 == v then 1 else 0)
      ≡ count v xs + (if w == v then 1 else 0)
count-set v [] i w h = absurd (omega arith)
count-set v (x ∷ xs) zero w h = omega arith
count-set v (x ∷ xs) (suc i) w h = omega (arith, count-set v xs i w (omega arith))

pub lt_of_count : (n x : ℕ) (xs : List ℕ) → IsPermBelow n (x ∷ xs) → x < n
lt_of_count n x xs h = ground (arith, h x)

count_positive : (xs : List ℕ) (k : ℕ) → k < length xs → 1 ≤ count (get_or xs k 0) xs
count_positive [] k h = absurd (omega arith)
count_positive (x ∷ xs) zero h = ground arith
count_positive (x ∷ xs) (suc k) h = omega (arith, count_positive xs k (omega arith))

pub below_of_perm :
    (n : ℕ) (xs : List ℕ) (k : ℕ) → IsPermBelow n xs → k < length xs → get_or xs k 0 < n
below_of_perm n xs k h l = ground (arith, h (get_or xs k 0), count_positive xs k l)

sum_below : ℕ → (ℕ → ℕ) → ℕ
sum_below zero f = 0
sum_below (suc n) f = f n + sum_below n f

sum_below-zero : (n : ℕ) → sum_below n (λ v. 0) ≡ 0
unfolding sum_below
sum_below-zero zero = refl
sum_below-zero (suc n) = omega (arith, sum_below-zero n)

sum_below_bump :
    (n x : ℕ) (f : ℕ → ℕ)
    → sum_below n (λ v. (if x == v then 1 else 0) + f v)
      ≡ (if ltb x n then 1 else 0) + sum_below n f
unfolding sum_below
sum_below_bump zero x f = ground arith
sum_below_bump (suc n) x f = ground (arith, sum_below_bump n x f)

length-sum_below :
    (n : ℕ) (xs : List ℕ)
    → ((v : ℕ) → n ≤ v → count v xs ≡ 0)
    → length xs ≡ sum_below n (λ v. count v xs)
length-sum_below n [] h = omega (arith, sum_below-zero n)
length-sum_below n (x ∷ xs) h = ground (
  arith,
  h x,
  sum_below_bump n x (λ v. count v xs),
  length-sum_below n xs (λ v p. ground (arith, h v)),
)

sum_below_ones : (n : ℕ) (f : ℕ → ℕ) → ((v : ℕ) → v < n → f v ≡ 1) → sum_below n f ≡ n
unfolding sum_below
sum_below_ones zero f h = refl
sum_below_ones (suc n) f h =
    omega (arith, h n (omega arith), sum_below_ones n f (λ v p. h v (omega arith)))

-- the numbers below `n`, each once, are `n` numbers
pub length_of_perm : (n : ℕ) (xs : List ℕ) → IsPermBelow n xs → length xs ≡ n
length_of_perm n xs h = omega (
  arith,
  length-sum_below n xs (λ v p. ground (arith, h v)),
  sum_below_ones n (λ v. count v xs) (λ v p. ground (arith, h v)),
)
