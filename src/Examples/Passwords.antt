-- ===== src/Examples/Passwords.antt =====
-- kernel/sys.c: the theorem on `sys_set_key` at a concrete key.
use linux_0_01raf.Prelude.{
  ℕ, ◌-◌, ◌≤◌, ◌≡◌, ◌⊎◌, false, List, [], ◌∷◌, ◌++◌, length-replicate, replicate,
}
use linux_0_01raf.Crypt.Password.{Keys, returns, stray, pow_check, sys_set_key}
use linux_0_01raf.Crypt.Password.Setting.{sys_set_key_lem}

-- "abcd"
abbrev letters : List ℕ
letters = 97 ∷ 98 ∷ 99 ∷ 100 ∷ []

-- a longer key is still set
abbrev old_keys : Keys
old_keys = record { global_key = replicate 100 120; is_key_set = 1 }

sys_set_key_lem_example :
    ((pow_check 4 ≡ false) × (sys_set_key letters old_keys ≡ returns old_keys))
    ⊎ ((4 ≤ 64)
        × (sys_set_key letters old_keys
            ≡ returns (record { global_key = letters ++ replicate (100 - 4) 0; is_key_set = 1 })))
    ⊎ ((128 ≤ 4) × (sys_set_key letters old_keys ≡ stray))
sys_set_key_lem_example = sys_set_key_lem letters old_keys (length-replicate {A = ℕ} 100 120)
