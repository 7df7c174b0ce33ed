-- ===== src/Crypt/Transpose/Key.antt =====
-- The index that the sorted key gives: each column once, in the order of the letters.
use linux_0_01raf.Prelude.{
  ℕ, zero, suc, ◌+◌, ◌≤◌, ◌<◌, ◌≡◌, ◌∙◌, sym, ◌&&◌, refl, true, List, [], ◌∷◌, arith, ltb,
  if◌then◌else◌, length, get_or,
}
use linux_0_01raf.Prelude.Count.{count, IsPermBelow, length_of_perm, below_of_perm}
use linux_0_01raf.Crypt.Sort.{Arrays, char_le, index_at, key_at, strlen, lower, to_lower_case}
use linux_0_01raf.Crypt.Sort.Shuffle.{Fits, Shuffle-count, IsAligned, Shuffle-IsAligned}
use linux_0_01raf.Crypt.Sort.Sorted.{Sorts, sort-Sorts}
use linux_0_01raf.Crypt.Transpose.{identity_indices, sorted_key}

length-identity_indices : (n i : ℕ) → length (identity_indices n i) ≡ n
unfolding identity_indices
length-identity_indices zero i = refl
length-identity_indices (suc n) i = omega (arith, length-identity_indices n (i + 1))

get_or-identity_indices : (n i k : ℕ) → k < n → get_or (identity_indices n i) k 0 ≡ i + k
unfolding identity_indices
get_or-identity_indices zero i k h = absurd (omega arith)
get_or-identity_indices (suc n) i zero h = omega arith
get_or-identity_indices (suc n) i (suc k) h =
    omega (arith, get_or-identity_indices n (i + 1) k (omega arith))

count-identity_indices :
    (n i v : ℕ)
    → count v (identity_indices n i) ≡ (if ltb v i then 0 else if ltb v (i + n) then 1 else 0)
unfolding identity_indices
count-identity_indices zero i v = ground arith
count-identity_indices (suc n) i v = ground (arith, count-identity_indices n (i + 1) v)

length-to_lower_case : (key : List ℕ) → length (to_lower_case key) ≡ strlen key
unfolding to_lower_case strlen
length-to_lower_case [] = refl
length-to_lower_case (c ∷ cs) = ground (arith, length-to_lower_case cs)

-- the arrays before the sort
abbrev unsorted : List ℕ → Arrays
unsorted key = record {
  index_array = identity_indices (strlen key) 0;
  global_key_local = to_lower_case key;
}

unsorted-Fits : (key : List ℕ) → Fits (strlen key) (unsorted key)
unsorted-Fits key = omega (arith, length-identity_indices (strlen key) 0, length-to_lower_case key)

sorted_key-Sorts : (key : List ℕ) → Sorts 0 (strlen key) (unsorted key) (sorted_key key)
unfolding sorted_key
sorted_key-Sorts key =
    sort-Sorts (strlen key) 0 (strlen key) (unsorted key) (omega arith) (unsorted-Fits key)

-- The sorted index holds each column below the key's length once.
pub sorted_key-IsPermBelow : (key : List ℕ) → IsPermBelow (strlen key) (sorted_key key).index_array
sorted_key-IsPermBelow key v = ground (
  arith,
  Shuffle-count v (sorted_key-Sorts key).moves (unsorted-Fits key),
  count-identity_indices (strlen key) 0 v,
)

unsorted-IsAligned : (key : List ℕ) → IsAligned (strlen key) (to_lower_case key) (unsorted key)
unsorted-IsAligned key k h = rw (get_or-identity_indices (strlen key) 0 k h) (ground arith)

-- the letter that a capital becomes, and any other byte itself
abbrev pub small_letter : ℕ → ℕ
small_letter c = if ltb 64 c && ltb c 91 then 32 + c else c

get_or-to_lower_case :
    (key : List ℕ) (k : ℕ)
    → k < strlen key
    → get_or (to_lower_case key) k 0 ≡ small_letter (get_or key k 0)
unfolding to_lower_case strlen lower
get_or-to_lower_case [] k h = absurd (omega arith)
get_or-to_lower_case (c ∷ cs) zero h = ground arith
get_or-to_lower_case (c ∷ cs) (suc k) h = ground (arith, get_or-to_lower_case cs k)

-- The index that `buffer_encr` and `buffer_decr` compute from any key holds each column below the
-- key's length exactly once, and the columns' letters, in lower case, stand in the order of `char`.
pub key_order :
    (key : List ℕ)
    → IsPermBelow (strlen key) (sorted_key key).index_array
      × ((a b : ℕ)
          → a ≤ b
          → b < strlen key
          → char_le
              (small_letter (get_or key (index_at (sorted_key key) a) 0))
              (small_letter (get_or key (index_at (sorted_key key) b) 0))
            ≡ true)
key_order key = (
  sorted_key-IsPermBelow key,
  λ a b h l. rw (letter a (omega arith), letter b l) (sorted.ordered a b (omega arith) h l),
)
  where
    sorted : Sorts 0 (strlen key) (unsorted key) (sorted_key key)
    sorted = sorted_key-Sorts key

    aligned : IsAligned (strlen key) (to_lower_case key) (sorted_key key)
    aligned =
        Shuffle-IsAligned (to_lower_case key) sorted.moves (unsorted-Fits key)
          (unsorted-IsAligned key)

    perm : IsPermBelow (strlen key) (sorted_key key).index_array
    perm = sorted_key-IsPermBelow key

    letter :
        (k : ℕ)
        → k < strlen key
        → small_letter (get_or key (index_at (sorted_key key) k) 0) ≡ key_at (sorted_key key) k
    letter k h = sym (
        aligned k h
        ∙ get_or-to_lower_case key _ (
            below_of_perm (strlen key) (sorted_key key).index_array k perm
              (omega (arith, length_of_perm (strlen key) (sorted_key key).index_array perm))))
