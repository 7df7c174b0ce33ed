-- ===== src/Crypt/Password/Setting.antt =====
-- kernel/sys.c: which keys `sys_set_key` takes, and what it leaves in `global_key`.
use linux_0_01raf.Prelude.{
  ℕ, zero, suc, ◌+◌, ◌-◌, ◌≤◌, ◌<◌, ◌≡◌, ◌∙◌, ap, sym, refl, ◌⊎◌, inl, inr, Bool, true, false, ◌||◌,
  none, some, List, [], ◌∷◌, ◌++◌, arith, ltb, Bool-cases, length, length-replicate, set, drop,
  replicate,
}
use mathlib.Core.List.{append_assoc}
use linux_0_01raf.Crypt.Password.{
  Keys, returns, stray, pow_loop, pow_check, clear_loop, clear_key, write_key, sys_set_key,
}

-- the lengths that `pow_check` takes
pow_check_lem : (len : ℕ) → pow_check len ≡ true → (len ≤ 64) ⊎ ((128 ≤ len) × (len ≤ 512))
unfolding pow_check pow_loop
pow_check_lem len h = ground arith

set-append : (pre l : List ℕ) (v w : ℕ) → set (pre ++ (w ∷ l)) (length pre) v ≡ pre ++ (v ∷ l)
set-append [] l v w = refl
set-append (x ∷ pre) l v w = ap (◌∷◌ x) (set-append pre l v w)

length-snoc : (pre : List ℕ) (v : ℕ) → length (pre ++ (v ∷ [])) ≡ suc (length pre)
length-snoc [] v = refl
length-snoc (x ∷ pre) v = ap suc (length-snoc pre v)

-- clearing goes over the rest of the array
clear_loop_lem :
    (pre l : List ℕ) → clear_loop (length l) (length pre) (pre ++ l) ≡ pre ++ replicate (length l) 0
unfolding clear_loop
clear_loop_lem pre [] = refl
clear_loop_lem pre (x ∷ l) =
    ap (clear_loop (length l) (length pre + 1)) (set-append pre l 0 x)
    ∙ ap (λ m. clear_loop (length l) (length pre + 1) m) (sym (append_assoc pre (0 ∷ []) l))
    ∙ ap (λ n. clear_loop (length l) n (pre ++ (0 ∷ []) ++ l)) (omega (arith, length-snoc pre 0))
    ∙ clear_loop_lem (pre ++ (0 ∷ [])) l
    ∙ append_assoc pre (0 ∷ []) (replicate (length l) 0)

-- writing goes over the front of the array
write_key_lem :
    (cs pre l : List ℕ)
    → length cs ≤ length l
    → length pre + length cs ≤ 100
    → write_key cs (length pre) (pre ++ l) ≡ some (pre ++ (cs ++ drop (length cs) l))
unfolding write_key
write_key_lem [] pre l h g = refl
write_key_lem (c ∷ cs) pre [] h g = absurd (omega arith)
write_key_lem (c ∷ cs) pre (x ∷ l) h g =
    let inside : ltb (length pre) 100 ≡ true = ground arith in
    let next =
      write_key_lem cs (pre ++ (c ∷ [])) l (omega arith) (omega (arith, length-snoc pre c)) in
    rw (write_key, inside)
      (ap (write_key cs (length pre + 1)) (set-append pre l c x)
        ∙ ap (write_key cs (length pre + 1)) (sym (append_assoc pre (c ∷ []) l))
        ∙ ap (λ n. write_key cs n (pre ++ (c ∷ []) ++ l)) (omega (arith, length-snoc pre c))
        ∙ next
        ∙ ap some (append_assoc pre (c ∷ []) (cs ++ drop (length cs) l)))

drop-replicate : (n m v : ℕ) → drop n (replicate (n + m) v) ≡ replicate m v
drop-replicate zero m v = let e : 0 + m ≡ m = omega arith in ap (λ k. replicate k v) e
drop-replicate (suc n) m v =
    let e : suc n + m ≡ suc (n + m) = omega arith in
    ap (λ k. drop (suc n) (replicate k v)) e ∙ drop-replicate n m v

write_key_stray :
    (cs : List ℕ) (i : ℕ) (key : List ℕ) → i ≤ 100 → 100 < i + length cs → write_key cs i key ≡ none
unfolding write_key
write_key_stray [] i key a h = absurd (omega arith)
write_key_stray (c ∷ cs) i key a h = elim (Bool-cases (ltb i 100)) [
  | inr e ↦ rw (write_key, e) refl
  | inl e ↦
      rw (write_key, e) (write_key_stray cs (i + 1) (set key i c) (ground arith) (omega arith))
]

or_true : (b : Bool) → (b || true) ≡ true
or_true true = refl
or_true false = refl

-- `sys_set_key` on a key of `length key` bytes, with an array of 100: a length that `pow_check` refuses
-- changes nothing; any other is at most 64, and then the array holds the key and zeros behind it and is
-- marked as set; or it is at least 128, and then the key is written behind the end of the array.
pub sys_set_key_lem :
    (key : List ℕ) (k : Keys)
    → length k.global_key ≡ 100
    → ((pow_check (length key) ≡ false) × (sys_set_key key k ≡ returns k))
      ⊎ ((length key ≤ 64)
          × (sys_set_key key k
              ≡ returns
                  (record { global_key = key ++ replicate (100 - length key) 0; is_key_set = 1 })))
      ⊎ ((128 ≤ length key) × (sys_set_key key k ≡ stray))
unfolding sys_set_key clear_key
sys_set_key_lem key k l = elim (Bool-cases (pow_check (length key))) [
  | inr no_power ↦
      inl (no_power, rw (sys_set_key, no_power) (rw (or_true (ltb 1024 (length key))) refl))
  | inl power ↦ elim (pow_check_lem (length key) power) [
    | inl short ↦
        let small : ltb 1024 (length key) ≡ false = ground arith in
        let front =
          write_key_lem key [] (replicate 100 0) (omega (arith, length-replicate {A = ℕ} 100 0))
            (omega arith) in
        let rest : 100 ≡ length key + (100 - length key) = omega arith in
        let written : write_key key 0 (clear_loop 100 0 k.global_key)
            ≡ some (key ++ replicate (100 - length key) 0) =
          ap (write_key key 0) cleared
          ∙ front
          ∙ ap (λ n. some (key ++ drop (length key) (replicate n 0))) rest
          ∙ ap (λ m. some (key ++ m)) (drop-replicate (length key) (100 - length key) 0) in
        inr (inl (short, rw (sys_set_key, small, power) (rw written refl)))
    | inr (long, most) ↦
        let large : ltb 1024 (length key) ≡ false = ground arith in
        inr (
          inr (
            long,
            rw (sys_set_key, large)
                (rw power (
                  rw
                    (write_key_stray key 0 (clear_loop 100 0 k.global_key) (omega arith)
                      (omega arith))
                    refl)),
          ))
  ]
]
  where
    cleared : clear_loop 100 0 k.global_key ≡ replicate 100 0
    cleared =
        ap (λ n. clear_loop n 0 k.global_key) (sym l)
        ∙ clear_loop_lem [] k.global_key
        ∙ ap (λ n. replicate n 0) l
