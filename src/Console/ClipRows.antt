-- ===== src/Console/ClipRows.antt =====
-- kernel/console.c: the rows of the clipboard as texts with zeros behind them.
use linux_0_01raf.Prelude.{
  equal, ℕ, zero, suc, ◌+◌, ◌-◌, ◌*◌, ◌≤◌, ◌<◌, ◌≡◌, ◌≢◌, ◌∙◌, ap, refl, sym, subst, ◌⊎◌, inl, inr,
  arith, false, ◌==◌, Bool-cases, List, [], ◌∷◌, length, get_or, set, drop, length-set,
  get_or-set_self, get_or-set_ne,
}
use linux_0_01raf.Console.Tool.{zero_at, row_length}
use linux_0_01raf.Console.Overlay.{Terminated}

get_or-drop : (n : ℕ) (xs : List ℕ) (k : ℕ) → get_or (drop n xs) k 0 ≡ get_or xs (n + k) 0
get_or-drop zero xs k = ap (λ i. get_or xs i 0) (omega arith)
get_or-drop (suc n) [] k = refl
get_or-drop (suc n) (x ∷ xs) k =
    get_or-drop n xs k ∙ ap (λ i. get_or (x ∷ xs) i 0) {x = suc (n + k)} (omega arith)

zero_at_byte : (xs : List ℕ) → get_or xs (zero_at xs) 0 ≡ 0
unfolding zero_at
zero_at_byte [] = refl
zero_at_byte (c ∷ cs) = elim (Bool-cases (c == 0)) [
  | inl z ↦ rw z (ground arith)
  | inr n ↦ rw n (zero_at_byte cs)
]

zero_at_before : (xs : List ℕ) (k : ℕ) → k < zero_at xs → get_or xs k 0 ≢ 0
unfolding zero_at
zero_at_before [] k h = absurd (omega arith)
zero_at_before (c ∷ cs) zero h = ground arith
zero_at_before (c ∷ cs) (suc k) h = zero_at_before cs k (ground arith)

zero_at_unique :
    (xs : List ℕ) (n : ℕ)
    → ((k : ℕ) → k < n → get_or xs k 0 ≢ 0)
    → get_or xs n 0 ≡ 0
    → zero_at xs ≡ n
unfolding zero_at
zero_at_unique [] zero h z = refl
zero_at_unique [] (suc n) h z = absurd (h 0 (omega arith) refl)
zero_at_unique (c ∷ cs) zero h z = ground arith
zero_at_unique (c ∷ cs) (suc n) h z =
    let more : (c == 0) ≡ false = ground (arith, h 0 (omega arith)) in
    rw more (ap suc (zero_at_unique cs n (λ k l. h (suc k) (omega arith)) z))

-- the same on a row
pub row_byte : (rows : List ℕ) (i : ℕ) → get_or rows (20 * i + row_length rows i) 0 ≡ 0
unfolding row_length
row_byte rows i =
    sym (get_or-drop (20 * i) rows (row_length rows i)) ∙ zero_at_byte (drop (20 * i) rows)

row_before : (rows : List ℕ) (i k : ℕ) → k < row_length rows i → get_or rows (20 * i + k) 0 ≢ 0
unfolding row_length
row_before rows i k h e = zero_at_before (drop (20 * i) rows) k h (get_or-drop (20 * i) rows k ∙ e)

row_unique :
    (rows : List ℕ) (i n : ℕ)
    → ((k : ℕ) → k < n → get_or rows (20 * i + k) 0 ≢ 0)
    → get_or rows (20 * i + n) 0 ≡ 0
    → row_length rows i ≡ n
unfolding row_length
row_unique rows i n h z =
    zero_at_unique (drop (20 * i) rows) n (λ k l e. h k l (sym (get_or-drop (20 * i) rows k) ∙ e))
      (get_or-drop (20 * i) rows n ∙ z)

-- ten rows of at most 19 bytes that are not zero, and zeros behind them
unfoldable pub IsClip : List ℕ → Type 0
IsClip rows =
    (length rows ≡ 200)
    × Terminated rows
    × ((i k : ℕ) → i ≤ 9 → k < 20 → row_length rows i ≤ k → get_or rows (20 * i + k) 0 ≡ 0)

-- a write into row `i`, for the other rows
other_row :
    (rows : List ℕ) (i n v j : ℕ)
    → IsClip rows
    → i ≤ 9
    → j ≤ 9
    → n < 20
    → j ≢ i
    → row_length (set rows (20 * i + n) v) j ≡ row_length rows j
unfolding IsClip
other_row rows i n v j (l, t, z) hi hj hn ne =
    let few = t j hj in
    row_unique (set rows (20 * i + n) v) j (row_length rows j)
      (λ k h e.
        row_before rows j k h
          (sym (get_or-set_ne rows (20 * i + n) (20 * j + k) v 0 (ground arith)) ∙ e))
      (get_or-set_ne rows (20 * i + n) (20 * j + row_length rows j) v 0 (ground arith)
        ∙ row_byte rows j)

-- the row that a character is put behind, and that one is taken from
pub longer_row :
    (rows : List ℕ) (i v : ℕ)
    → IsClip rows
    → i ≤ 9
    → row_length rows i < 19
    → v ≢ 0
    → row_length (set rows (20 * i + row_length rows i) v) i ≡ row_length rows i + 1
unfolding IsClip
longer_row rows i v (l, t, z) hi hn ne =
    let n = row_length rows i in
    let at = get_or-set_self rows (20 * i + n) v 0 (omega arith) in
    row_unique (set rows (20 * i + n) v) i (n + 1)
      (λ k h e. elim (Bool-cases (k == n)) [
        | inl last ↦ ne (
            sym at
            ∙ ap (λ q. get_or (set rows (20 * i + n) v) (20 * i + q) 0) (sym (equal k n last))
            ∙ e)
        | inr before ↦
            row_before rows i k (ground arith)
              (sym (get_or-set_ne rows (20 * i + n) (20 * i + k) v 0 (ground arith)) ∙ e)
      ])
      (get_or-set_ne rows (20 * i + n) (20 * i + (n + 1)) v 0 (omega arith)
        ∙ z i (n + 1) hi (omega arith) (omega arith))

shorter_row :
    (rows : List ℕ) (i : ℕ)
    → IsClip rows
    → i ≤ 9
    → 1 ≤ row_length rows i
    → row_length (set rows (20 * i + row_length rows i - 1) 0) i ≡ row_length rows i - 1
unfolding IsClip
shorter_row rows i (l, t, z) hi hn =
    let n = row_length rows i in
    let few = t i hi in
    row_unique (set rows (20 * i + n - 1) 0) i (n - 1)
      (λ k h e.
        row_before rows i k (omega arith)
          (sym (get_or-set_ne rows (20 * i + n - 1) (20 * i + k) 0 0 (omega arith)) ∙ e))
      (ap (λ q. get_or (set rows (20 * i + n - 1) 0) q 0) {x = 20 * i + (n - 1)} (omega arith)
        ∙ get_or-set_self rows (20 * i + n - 1) 0 0 (omega arith))

own_zero :
    (rows : List ℕ) (i n v e k : ℕ)
    → length rows ≡ 200
    → i ≤ 9
    → k < 20
    → e ≤ k
    → (n < e) ⊎ (v ≡ 0)
    → (k ≢ n → get_or rows (20 * i + k) 0 ≡ 0)
    → get_or (set rows (20 * i + n) v) (20 * i + k) 0 ≡ 0
own_zero rows i n v e k l hi hk he w clean = elim (Bool-cases (k == n)) [
  | inr other ↦
      get_or-set_ne rows (20 * i + n) (20 * i + k) v 0 (ground arith) ∙ clean (ground arith)
  | inl same ↦
      let zero_ : v ≡ 0 = ground arith in
      ap (λ q. get_or (set rows (20 * i + n) v) (20 * i + q) 0) (equal k n same)
      ∙ get_or-set_self rows (20 * i + n) v 0 (ground arith)
      ∙ zero_
]

-- zeros stay behind the text of each row, where one byte of row `i` is written and its text then ends at `k`
zeros_behind :
    (rows : List ℕ) (i n v e : ℕ)
    → IsClip rows
    → i ≤ 9
    → n < 20
    → row_length (set rows (20 * i + n) v) i ≡ e
    → e ≤ 19
    → (n < e) ⊎ (v ≡ 0)
    → ((k : ℕ) → k < 20 → e ≤ k → k ≢ n → get_or rows (20 * i + k) 0 ≡ 0)
    → IsClip (set rows (20 * i + n) v)
unfolding IsClip
zeros_behind rows i n v e (l, t, z) hi hn he few w clean = (
  length-set rows (20 * i + n) v ∙ l,
  λ j hj. elim (Bool-cases (j == i)) [
    | inl same ↦
        subst (λ q. row_length (set rows (20 * i + n) v) q ≤ 19) (sym (equal j i same))
          (omega arith)
    | inr other ↦
        let q = other_row rows i n v j (l, t, z) hi hj hn (ground arith) in
        let p = t j hj in omega arith
  ],
  λ j k hj hk le. elim (Bool-cases (j == i)) [
    | inl same ↦
        let e_k : e ≤ k =
          subst (λ q. q ≤ k) (ap (row_length (set rows (20 * i + n) v)) (equal j i same) ∙ he) le in
        ap (λ q. get_or (set rows (20 * i + n) v) (20 * q + k) 0) (equal j i same)
        ∙ own_zero rows i n v e k l hi hk e_k w (clean k hk e_k)
    | inr other ↦
        let q = other_row rows i n v j (l, t, z) hi hj hn (ground arith) in
        get_or-set_ne rows (20 * i + n) (20 * j + k) v 0 (ground arith) ∙ z j k hj hk (omega arith)
  ],
)

pub set_same : (xs : List ℕ) (k v : ℕ) → get_or xs k 0 ≡ v → set xs k v ≡ xs
set_same [] k v e = refl
set_same (x ∷ xs) zero v e = ap (λ y. y ∷ xs) (sym e)
set_same (x ∷ xs) (suc k) v e = ap (◌∷◌ x) (set_same xs k v e)

pub set_twice : (xs : List ℕ) (k u v : ℕ) → set (set xs k u) k v ≡ set xs k v
set_twice [] k u v = refl
set_twice (x ∷ xs) zero u v = refl
set_twice (x ∷ xs) (suc k) u v = ap (◌∷◌ x) (set_twice xs k u v)

rest_zero :
    (rows : List ℕ) (i k : ℕ)
    → IsClip rows
    → i ≤ 9
    → k < 20
    → row_length rows i ≤ k
    → get_or rows (20 * i + k) 0 ≡ 0
unfolding IsClip
rest_zero rows i k c hi hk h = c.2 i k hi hk h

row_few : (rows : List ℕ) (i : ℕ) → IsClip rows → i ≤ 9 → row_length rows i ≤ 19
unfolding IsClip
row_few rows i c hi = c.1 i hi

pub put-IsClip :
    (rows : List ℕ) (i v : ℕ)
    → IsClip rows
    → i ≤ 9
    → row_length rows i < 19
    → IsClip (set rows (20 * i + row_length rows i) v)
put-IsClip rows i zero k hi hn =
    subst IsClip (sym (set_same rows (20 * i + row_length rows i) 0 (row_byte rows i))) k
put-IsClip rows i (suc v) k hi hn =
    zeros_behind rows i (row_length rows i) (suc v) (row_length rows i + 1) k hi (omega arith)
      (longer_row rows i (suc v) k hi hn (λ e. cc e)) (omega arith) (inl (omega arith))
      (λ j a b c. rest_zero rows i j k hi a (omega arith))

pub remove-IsClip :
    (rows : List ℕ) (i : ℕ)
    → IsClip rows
    → i ≤ 9
    → 1 ≤ row_length rows i
    → IsClip (set rows (20 * i + row_length rows i - 1) 0)
remove-IsClip rows i k hi hn =
    let n = row_length rows i in
    let few = row_few rows i k hi in
    let place : 20 * i + (n - 1) ≡ 20 * i + n - 1 = omega arith in
    subst (λ q. IsClip (set rows q 0)) place
      (zeros_behind rows i (n - 1) 0 (n - 1) k hi (omega arith)
        (ap (λ q. row_length (set rows q 0) i) place ∙ shorter_row rows i k hi hn) (omega arith)
        (inr refl) (λ j a b c. rest_zero rows i j k hi a (omega arith)))
