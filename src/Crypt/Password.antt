-- ===== src/Crypt/Password.antt =====
-- kernel/sys.c: setting and clearing the key of the cipher.
pub mod Setting
use linux_0_01raf.Prelude.{
  ℕ, zero, suc, ◌+◌, ◌-◌, ◌*◌, Bool, true, false, not, ◌||◌, Option, none, some, List, [], ◌∷◌, ltb,
  ◌==◌, if◌then◌else◌, length, set, replicate,
}

-- the static variables `global_key` and `is_key_set`
pub record Keys : Type 0 where
  pub global_key : List ℕ
  pub is_key_set : ℕ

-- A call returns, or it has written behind the end of `global_key`.
pub data Outcome : Type 0 where
  returns : Keys → Outcome
  stray : Outcome

-- the loop of `pow_check`, for `rounds` rounds
unfoldable pub pow_loop : ℕ → ℕ → ℕ → Bool
pow_loop zero num len = false
pow_loop (suc rounds) num len =
    let rest = pow_loop rounds (num * 2) len in if num == len then true else rest

unfoldable pub pow_check : ℕ → Bool
pow_check len = pow_loop 10 1 len

-- for(i = 0; i < 100; i++) global_key[i] = 0;
unfoldable pub clear_loop : ℕ → ℕ → List ℕ → List ℕ
clear_loop zero i key = key
clear_loop (suc rounds) i key = clear_loop rounds (i + 1) (set key i 0)

unfoldable pub clear_key : Keys → Keys
clear_key k = record k { global_key = clear_loop 100 0 k.global_key }

-- The loop of `sys_set_key` on the user's bytes; `global_key` has 100.
unfoldable pub write_key : List ℕ → ℕ → List ℕ → Option (List ℕ)
write_key [] i key = some key
write_key (c ∷ cs) i key =
    let rest = write_key cs (i + 1) (set key i c) in if ltb i 100 then rest else none

-- `key` is what the user's pointer leads to, as far as `len` bytes.
unfoldable pub sys_set_key : List ℕ → Keys → Outcome
sys_set_key key k =
    if ltb 1024 (length key) || not (pow_check (length key))
    then returns k
    else elim (write_key key 0 (clear_key k).global_key) [
      | none ↦ stray
      | some written ↦ returns (record { global_key = written; is_key_set = 1 })
    ]

unfoldable pub sys_clear_key : Keys → Keys
sys_clear_key k = record (clear_key k) { is_key_set = 0 }
