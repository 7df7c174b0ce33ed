-- ===== src/Print/RoundTrip.antt =====
-- kernel/vsprintf.c: a number that is printed can be read again.
use linux_0_01raf.Prelude.{
  ℕ, zero, suc, ◌+◌, ◌-◌, ◌/◌, ◌%◌, ◌^◌, ◌≤◌, ◌<◌, ◌≡◌, ◌∙◌, ap, refl, Bool, true, false, ◌&&◌,
  some, List, [], ◌∷◌, ◌++◌, leb, ◌==◌, if◌then◌else◌, replicate, Bool-cases, arith, inl, inr,
}
use linux_0_01raf.Prelude.Int.{ℤ}
use linux_0_01raf.Print.{
  is_digit, skip_digits, skip_atoi, has_sign, has_plus, has_space, digit, digits_loop, reversed,
  sign_of, prefix_of, number,
}

-- spaces, a sign, and digits, as a 32-bit pattern
unfoldable pub read : List ℕ → ℕ
read [] = 0
read (c ∷ cs) =
    if c == 32
    then read cs
    else if c == 45
    then (2 ^ 32 - (skip_atoi cs).0) % 2 ^ 32
    else if c == 43
    then (skip_atoi cs).0
    else (skip_atoi (c ∷ cs)).0

starts_digit : List ℕ → Bool
starts_digit [] = false
starts_digit (c ∷ cs) = is_digit c

unfoldable AreDigits : List ℕ → Type 0
AreDigits [] = 0 ≤ 0
AreDigits (d ∷ ds) = (is_digit d ≡ true) × AreDigits ds

read-spaces : (k : ℕ) (s : List ℕ) → read (replicate k 32 ++ s) ≡ read s
unfolding read
read-spaces zero s = refl
read-spaces (suc k) s = read-spaces k s

read-digits : (s : List ℕ) → starts_digit s ≡ true → read s ≡ (skip_atoi s).0
unfolding read starts_digit
read-digits [] h = absurd (cc h)
read-digits (c ∷ cs) h = ground arith

skip_digits-zeros : (k : ℕ) (s : List ℕ) → skip_digits 0 (replicate k 48 ++ s) ≡ skip_digits 0 s
unfolding skip_digits
skip_digits-zeros zero s = refl
skip_digits-zeros (suc k) s = skip_digits-zeros k s

skip_digits-spaces : (k m : ℕ) → (skip_digits m (replicate k 32)).0 ≡ m
unfolding skip_digits
skip_digits-spaces zero m = refl
skip_digits-spaces (suc k) m = refl

digit_ten : (type d : ℕ) → d < 10 → digit type d ≡ 48 + d
unfolding digit
digit_ten type d h = ground arith

one_digit :
    (type m : ℕ) (out : List ℕ)
    → m < 2 ^ 32
    → skip_digits (m / 10) (digit type (m % 10) ∷ out) ≡ skip_digits m out
unfolding skip_digits
one_digit type m out b = rw (digit_ten type (m % 10) (omega arith)) (
    let is : is_digit (48 + m % 10) ≡ true = ground arith in
    rw is (ap (λ k. skip_digits k out) (omega arith)))

skip_digits-digits_loop :
    (n type m : ℕ) (out : List ℕ)
    → m < 2 ^ n
    → m < 2 ^ 32
    → skip_digits 0 (reversed (digits_loop n type 10 m) out) ≡ skip_digits m out
unfolding digits_loop reversed
skip_digits-digits_loop zero type m out h b = ap (λ k. skip_digits k out) (omega arith)
skip_digits-digits_loop (suc n) type m out h b = elim (Bool-cases (m == 0)) [
  | inl z ↦ rw z (ap (λ k. skip_digits k out) (ground arith))
  | inr more ↦ rw more (
      skip_digits-digits_loop n type (m / 10) (digit type (m % 10) ∷ out) (grind arith)
        (omega arith)
      ∙ one_digit type m out b)
]

digits_loop-AreDigits : (n type m : ℕ) → AreDigits (digits_loop n type 10 m)
unfolding digits_loop AreDigits
digits_loop-AreDigits zero type m = omega arith
digits_loop-AreDigits (suc n) type m = elim (Bool-cases (m == 0)) [
  | inl z ↦ rw z (omega arith)
  | inr more ↦ rw more (
      rw (digit_ten type (m % 10) (omega arith))
        (ground arith, digits_loop-AreDigits n type (m / 10)))
]

reversed-starts :
    (tmp out : List ℕ)
    → AreDigits tmp
    → starts_digit out ≡ true
    → starts_digit (reversed tmp out) ≡ true
unfolding reversed AreDigits starts_digit
reversed-starts [] out a h = h
reversed-starts (d ∷ ds) out (e, a) h = reversed-starts ds (d ∷ out) a e

zeros-starts :
    (k : ℕ) (s : List ℕ) → starts_digit s ≡ true → starts_digit (replicate k 48 ++ s) ≡ true
unfolding starts_digit
zeros-starts zero s h = h
zeros-starts (suc k) s h = refl

-- the digits of a number, lowest first
abbrev digits_of : ℕ → ℕ → List ℕ
digits_of type m = if m == 0 then 48 ∷ [] else digits_loop 32 type 10 m

one_starts : (type d : ℕ) (out : List ℕ) → d < 10 → starts_digit (digit type d ∷ out) ≡ true
unfolding starts_digit
one_starts type d out h = rw (digit_ten type d h) (ground arith)

zero_starts : (out : List ℕ) → starts_digit (reversed (48 ∷ []) out) ≡ true
unfolding starts_digit reversed
zero_starts out = refl

zero_value : (k : ℕ) → (skip_digits 0 (reversed (48 ∷ []) (replicate k 32))).0 ≡ 0
unfolding skip_digits reversed
zero_value k = skip_digits-spaces k 0

loop-starts :
    (n type m : ℕ) (out : List ℕ)
    → (m == 0) ≡ false
    → starts_digit (reversed (digits_loop (suc n) type 10 m) out) ≡ true
unfolding digits_loop reversed
loop-starts n type m out h = rw h (
    reversed-starts (digits_loop n type 10 (m / 10)) (digit type (m % 10) ∷ out)
      (digits_loop-AreDigits n type (m / 10)) (one_starts type (m % 10) out (omega arith)))

first_digit : (type m : ℕ) (out : List ℕ) → starts_digit (reversed (digits_of type m) out) ≡ true
first_digit type m out = elim (Bool-cases (m == 0)) [
  | inl z ↦ rw z (zero_starts out)
  | inr more ↦ rw more (loop-starts 31 type m out more)
]

digits-value :
    (type m k : ℕ)
    → m < 2 ^ 32
    → (skip_digits 0 (reversed (digits_of type m) (replicate k 32))).0 ≡ m
digits-value type m k b = elim (Bool-cases (m == 0)) [
  | inl z ↦ rw z (zero_value k ∙ ground arith)
  | inr more ↦ rw more (
      ap (λ r. r.0) (skip_digits-digits_loop 32 type m (replicate k 32) (omega arith) b)
      ∙ skip_digits-spaces k m)
]

read-sign_of :
    (type : ℕ) (negative : Bool) (body : List ℕ)
    → starts_digit body ≡ true
    → read (sign_of type negative ++ body)
      ≡ (if negative then (2 ^ 32 - (skip_atoi body).0) % 2 ^ 32 else (skip_atoi body).0)
unfolding sign_of read
read-sign_of type true body h = refl
read-sign_of type false body h = elim (Bool-cases (has_plus type)) [
  | inl plus ↦ rw plus refl
  | inr none_ ↦ elim (Bool-cases (has_space type)) [
    | inl space ↦ rw (none_, space) (read-digits body h)
    | inr bare ↦ rw (none_, bare) (read-digits body h)
  ]
]

prefix_ten : (type : ℕ) → prefix_of type 10 ≡ []
unfolding prefix_of
prefix_ten type = ground arith

skip_atoi-body :
    (type m a b k : ℕ)
    → m < 2 ^ 32
    → (skip_atoi
        (replicate a 48 ++ (replicate b 48 ++ reversed (digits_of type m) (replicate k 32)))).0
      ≡ m
unfolding skip_atoi
skip_atoi-body type m a b k h =
    ap (λ r. r.0) (skip_digits-zeros a _ ∙ skip_digits-zeros b _) ∙ digits-value type m k h

-- the parts that `number` writes one after another, for any paddings
text-read :
    (type m s a b k : ℕ) (negative : Bool)
    → m < 2 ^ 32
    → read (
        replicate s 32
        ++ (sign_of type negative
            ++ (prefix_of type 10
                ++ (replicate a 48
                    ++ (replicate b 48 ++ reversed (digits_of type m) (replicate k 32))))))
      ≡ (if negative then (2 ^ 32 - m) % 2 ^ 32 else m)
text-read type m s a b k negative h =
    let body = replicate a 48 ++ (replicate b 48 ++ reversed (digits_of type m) (replicate k 32)) in
    read-spaces s _
    ∙ ap (λ p. read (sign_of type negative ++ (p ++ body))) (prefix_ten type)
    ∙ read-sign_of type negative body
        (zeros-starts a _ (zeros-starts b _ (first_digit type m (replicate k 32))))
    ∙ ap (λ v. if negative then (2 ^ 32 - v) % 2 ^ 32 else v) (skip_atoi-body type m a b k h)

-- In base 10, for any size, precision and flags: `number` returns, and reading what it writes, spaces, a sign
-- and digits, gives back the 32-bit pattern of the number, printed as signed or not.
pub read-number :
    (num : ℕ) (size precision : ℤ) (type : ℕ)
    → num < 2 ^ 32
    → (out : List ℕ) × (number num 10 size precision type ≡ some out) × (read out ≡ num)
unfolding number
read-number num size precision type h = elim (Bool-cases (has_sign type && leb (2 ^ 31) num)) [
  | inl negative ↦
      rw negative
        (_, refl, text-read type (2 ^ 32 - num) _ _ _ _ true (ground arith) ∙ ground arith)
  | inr positive ↦ rw positive (_, refl, text-read type num _ _ _ _ false h)
]
