-- ===== src/Crypt/Transpose/Order.antt =====
-- The order in which the transposition reads the places of a block: each place once.
use linux_0_01raf.Prelude.{
  ℕ, zero, suc, ◌+◌, ◌-◌, ◌%◌, ◌≤◌, ◌<◌, ◌≡◌, ◌∙◌, ap, inl, inr, Bool, true, false, List, [], ◌∷◌,
  ◌++◌, ◌&&◌, arith, ltb, leb, ◌==◌, if◌then◌else◌, Bool-cases,
}
use native.Mathlib.Nat.{mod-eq_of_lt, mod-eq-sub-mod, mod-lt}
use linux_0_01raf.Prelude.Count.{count, count-append, IsPermBelow}

-- the places of one column, from `num` on
unfoldable pub column : ℕ → ℕ → ℕ → ℕ → List ℕ
column gb len zero num = []
column gb len (suc fuel) num = elim (ltb num len) [
  | true ↦ num ∷ column gb len fuel (num + gb)
  | false ↦ []
]

-- the places of all columns, in the order of `index`
unfoldable pub order : ℕ → ℕ → List ℕ → List ℕ
unfolding column
order gb len [] = []
order gb len (num ∷ index) = column gb len len num ++ order gb len index

-- `p` is in the column that starts at `num`
abbrev in_column : ℕ → ℕ → ℕ → ℕ → Bool
in_column gb len num p = ltb p len && (leb num p && ((p - num) % gb == 0))

in_column_step :
    (gb len num p : ℕ)
    → 0 < gb
    → num < len
    → (if num == p then 1 else 0) + (if in_column gb len (num + gb) p then 1 else 0)
      ≡ (if in_column gb len num p then 1 else 0)
in_column_step gb len num p h l = ground (
  arith,
  mod-eq_of_lt {n = p - num} {m = gb},
  mod-eq-sub-mod {n = p - num} {m = gb},
  ap (λ (t : ℕ). t % gb) shift,
)
  where
    shift : p - (num + gb) ≡ p - num - gb
    shift = omega arith

count-column :
    (gb len fuel num p : ℕ)
    → 0 < gb
    → len ≤ num + fuel
    → count p (column gb len fuel num) ≡ (if in_column gb len num p then 1 else 0)
unfolding column
count-column gb len zero num p h f = ground arith
count-column gb len (suc fuel) num p h f = elim (Bool-cases (ltb num len)) [
  | inl more ↦
      rw (more, column)
        (omega (
          arith,
          count-column gb len fuel (num + gb) p h (omega arith),
          in_column_step gb len num p h (ground arith),
        ))
  | inr done ↦ rw (done, column) (ground arith)
]

column_of_shift : (gb c p : ℕ) → c < gb → c ≤ p → (p - c) % gb ≡ 0 → p % gb ≡ c
column_of_shift gb c p h le e = grind arith

shift_of_column : (gb c p : ℕ) → c < gb → p % gb ≡ c → (p - c) % gb ≡ 0
shift_of_column gb c p h e = grind arith

same_column :
    (gb len c p : ℕ)
    → c < gb
    → ◌≡◌ {A = ℕ}
        (if in_column gb len c p then 1 else 0)
        (if ltb p len && (p % gb == c) then 1 else 0)
same_column gb len c p h = ground (arith, column_of_shift gb c p h, shift_of_column gb c p h)

-- the column that starts at `c` holds the places that leave `c` after division
count-column_start :
    (gb len c p : ℕ)
    → c < gb
    → count p (column gb len len c) ≡ (if ltb p len && (p % gb == c) then 1 else 0)
count-column_start gb len c p h =
    count-column gb len len c p (omega arith) (omega arith) ∙ same_column gb len c p h

-- every place of the block is in the order as often as its column is in the index
count-order :
    (gb len p : ℕ) (index : List ℕ)
    → ((c : ℕ) → gb ≤ c → count c index ≡ 0)
    → count p (order gb len index) ≡ (if ltb p len then count (p % gb) index else 0)
unfolding order
count-order gb len p [] h = ground arith
count-order gb len p (c ∷ index) h = ground (
  arith,
  count-append p (column gb len len c) (order gb len index),
  count-column_start gb len c p,
  h c,
  count-order gb len p index (λ k q. ground (arith, h k)),
)

-- With the columns each once in the index, the order holds each place of the block once.
pub order-IsPermBelow :
    (gb len : ℕ) (index : List ℕ)
    → 0 < gb
    → IsPermBelow gb index
    → IsPermBelow len (order gb len index)
order-IsPermBelow gb len index pos h p =
    ground
      (arith, count-order gb len p index (λ c q. ground (arith, h c)), h (p % gb), mod-lt p pos)
