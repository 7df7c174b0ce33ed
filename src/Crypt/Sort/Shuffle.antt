-- ===== src/Crypt/Sort/Shuffle.antt =====
-- The sort only exchanges places inside its range: what follows for the two arrays.
use linux_0_01raf.Prelude.{
  ℕ, ◌≤◌, ◌<◌, ◌≡◌, refl, ◌⊎◌, inl, inr, List, arith, ◌==◌, if◌then◌else◌, Bool-cases, length,
  get_or, set, length-set, get_or-set_self, get_or-set_ne,
}
use linux_0_01raf.Prelude.Count.{count, count-set}
use linux_0_01raf.Crypt.Sort.{Arrays, key_at, index_at, swap, exchange}

-- `t` comes from `s` by exchanges of places from `lo` up to `hi`
pub data Shuffle (lo hi : ℕ) : Arrays → Arrays → Type 0 where
  same : {s : Arrays} → Shuffle lo hi s s
  next :
      {s t : Arrays} (i j : ℕ)
      → lo ≤ i
      → i < hi
      → lo ≤ j
      → j < hi
      → Shuffle lo hi (exchange i j s) t
      → Shuffle lo hi s t

pub trans : {lo hi : ℕ} {s t u : Arrays} → Shuffle lo hi s t → Shuffle lo hi t u → Shuffle lo hi s u
trans same q = q
trans (next i j a b c d p) q = next i j a b c d (trans p q)

pub widen :
    {lo hi lo' hi' : ℕ} {s t : Arrays}
    → lo' ≤ lo
    → hi ≤ hi'
    → Shuffle lo hi s t
    → Shuffle lo' hi' s t
widen l h same = same
widen l h (next i j a b c d p) =
    next i j (omega arith) (omega arith) (omega arith) (omega arith) (widen l h p)

pub length-swap : (xs : List ℕ) (i j : ℕ) → length (swap xs i j) ≡ length xs
unfolding swap
length-swap xs i j = omega (
  arith,
  length-set xs i (get_or xs j 0),
  length-set (set xs i (get_or xs j 0)) j (get_or xs i 0),
)

-- the elements after an exchange
pub get_or-swap :
    (xs : List ℕ) (i j k : ℕ)
    → i < length xs
    → j < length xs
    → get_or (swap xs i j) k 0
      ≡ (if k == j then get_or xs i 0 else if k == i then get_or xs j 0 else get_or xs k 0)
unfolding swap
get_or-swap xs i j k hi hj = ground (
  arith,
  length-set xs i (get_or xs j 0),
  get_or-set_self (set xs i (get_or xs j 0)) j (get_or xs i 0) 0,
  get_or-set_ne (set xs i (get_or xs j 0)) j k (get_or xs i 0) 0,
  get_or-set_self xs i (get_or xs j 0) 0,
  get_or-set_ne xs i k (get_or xs j 0) 0,
)

pub count-swap :
    (v : ℕ) (xs : List ℕ) (i j : ℕ)
    → i < length xs
    → j < length xs
    → count v (swap xs i j) ≡ count v xs
unfolding swap
count-swap v xs i j hi hj = ground (
  arith,
  length-set xs i (get_or xs j 0),
  count-set v xs i (get_or xs j 0),
  count-set v (set xs i (get_or xs j 0)) j (get_or xs i 0),
  get_or-set_self xs i (get_or xs j 0) 0,
  get_or-set_ne xs i j (get_or xs j 0) 0,
)

-- both arrays reach beyond the range that is sorted
pub record Fits (hi : ℕ) (s : Arrays) : Type 0 where
  pub index_fits : hi ≤ length s.index_array
  pub key_fits : hi ≤ length s.global_key_local

pub Fits-exchange : {hi : ℕ} {s : Arrays} (i j : ℕ) → Fits hi s → Fits hi (exchange i j s)
unfolding exchange
Fits-exchange {s} i j f = omega (
  arith,
  f.index_fits,
  f.key_fits,
  length-swap s.index_array i j,
  length-swap s.global_key_local i j,
)

pub Shuffle-Fits : {lo hi n : ℕ} {s t : Arrays} → Shuffle lo hi s t → Fits n s → Fits n t
Shuffle-Fits same f = f
Shuffle-Fits (next i j a b c d p) f = Shuffle-Fits p (Fits-exchange i j f)

pub Shuffle-length :
    {lo hi : ℕ} {s t : Arrays} → Shuffle lo hi s t → length t.index_array ≡ length s.index_array
unfolding exchange
Shuffle-length same = refl
Shuffle-length (next {s} i j a b c d p) =
    omega (arith, Shuffle-length p, length-swap s.index_array i j)

-- no index is lost or doubled
pub Shuffle-count :
    {lo hi : ℕ} {s t : Arrays} (v : ℕ)
    → Shuffle lo hi s t
    → Fits hi s
    → count v t.index_array ≡ count v s.index_array
unfolding exchange
Shuffle-count v same f = refl
Shuffle-count v (next {s} i j a b c d p) f =
    ground
      (arith, Shuffle-count v p (Fits-exchange i j f), count-swap v s.index_array i j, f.index_fits)

-- places outside the range keep their letters
pub Shuffle-outside :
    {lo hi : ℕ} {s t : Arrays} (k : ℕ)
    → Shuffle lo hi s t
    → Fits hi s
    → (k < lo) ⊎ (hi ≤ k)
    → key_at t k ≡ key_at s k
unfolding exchange
Shuffle-outside k same f o = refl
Shuffle-outside k (next {s} i j a b c d p) f o = ground (
  arith,
  Shuffle-outside k p (Fits-exchange i j f) o,
  get_or-swap s.global_key_local i j k,
  f.key_fits,
)

-- what holds of every letter of the range before still does after
pub Shuffle-all :
    {lo hi : ℕ} {s t : Arrays} (P : ℕ → Type 0)
    → Shuffle lo hi s t
    → Fits hi s
    → ((k : ℕ) → lo ≤ k → k < hi → P (key_at s k))
    → (k : ℕ) → lo ≤ k
    → k < hi
    → P (key_at t k)
unfolding exchange
Shuffle-all P same f h = h
Shuffle-all {lo} {hi} P (next {s} i j a b c d p) f h = Shuffle-all P p (Fits-exchange i j f) moved
  where
    moved : (k : ℕ) → lo ≤ k → k < hi → P (key_at (exchange i j s) k)
    moved k l u =
        rw
          (get_or-swap s.global_key_local i j k (omega (arith, f.key_fits))
            (omega (arith, f.key_fits)))
          (elim (Bool-cases (k == j)) [
            | inl e ↦ rw e (h i a b)
            | inr ne ↦
                rw ne (elim (Bool-cases (k == i)) [
                  | inl e ↦ rw e (h j c d)
                  | inr ne' ↦ rw ne' (h k l u)
                ])
          ])

-- each letter of the range stands beside its index in `key`
abbrev pub IsAligned : ℕ → List ℕ → Arrays → Type 0
IsAligned n key s = (k : ℕ) → k < n → key_at s k ≡ get_or key (index_at s k) 0

-- letters and indices move together
pub Shuffle-IsAligned :
    {lo hi : ℕ} {s t : Arrays} (key : List ℕ)
    → Shuffle lo hi s t
    → Fits hi s
    → IsAligned hi key s
    → IsAligned hi key t
unfolding exchange
Shuffle-IsAligned key same f h = h
Shuffle-IsAligned {hi} key (next {s} i j a b c d p) f h =
    Shuffle-IsAligned key p (Fits-exchange i j f) moved
  where
    moved : IsAligned hi key (exchange i j s)
    moved k u = ground (
      arith,
      get_or-swap s.global_key_local i j k,
      get_or-swap s.index_array i j k,
      f.index_fits,
      f.key_fits,
      h k u,
      h i b,
      h j d,
    )
