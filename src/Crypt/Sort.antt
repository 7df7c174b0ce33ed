-- ===== src/Crypt/Sort.antt =====
-- kernel/sys.c: the key's lower-case copy, and the quicksort that orders its letters.
pub mod Shuffle
pub mod Sorted
use linux_0_01raf.Prelude.{
  ℕ, zero, suc, ◌+◌, ◌-◌, ◌%◌, ◌&&◌, List, [], ◌∷◌, true, false, Bool, ltb, leb, ◌==◌,
  if◌then◌else◌, get_or, set,
}

-- `char` is signed: the place of a byte in the order of `signed char`.
abbrev pub char_rank : ℕ → ℕ
char_rank c = (c + 128) % 256

abbrev pub char_le : ℕ → ℕ → Bool
char_le a b = leb (char_rank a) (char_rank b)

-- the length of the string at the start of an array that holds a NUL
unfoldable pub strlen : List ℕ → ℕ
strlen [] = 0
strlen (c ∷ cs) = if c == 0 then 0 else suc (strlen cs)

unfoldable pub lower : ℕ → ℕ
lower c = if leb 65 c && leb c 90 then c + 32 else c

-- what the loop writes to `new_string`
unfoldable pub to_lower_case : List ℕ → List ℕ
unfolding lower
to_lower_case [] = []
to_lower_case (c ∷ cs) = if c == 0 then [] else lower c ∷ to_lower_case cs

-- the two arrays that the sort permutes together
pub record Arrays : Type 0 where
  pub index_array : List ℕ
  pub global_key_local : List ℕ

abbrev pub key_at : Arrays → ℕ → ℕ
key_at s i = get_or s.global_key_local i 0

abbrev pub index_at : Arrays → ℕ → ℕ
index_at s i = get_or s.index_array i 0

pub swap : List ℕ → ℕ → ℕ → List ℕ
swap xs i j = set (set xs i (get_or xs j 0)) j (get_or xs i 0)

-- the exchange of places `i` and `j` through `tmp` and `numTmp`
pub exchange : ℕ → ℕ → Arrays → Arrays
unfolding swap
exchange i j s = record {
  index_array = swap s.index_array i j;
  global_key_local = swap s.global_key_local i j;
}

-- The loop over `j`. The C variable `i` starts at `low - 1`: here it is kept plus one.
partition_loop : ℕ → ℕ → ℕ → ℕ → Arrays → ℕ × Arrays
partition_loop zero pivot j i s = (i, s)
partition_loop (suc rounds) pivot j i s =
    let keep = char_le (key_at s j) pivot in
    partition_loop rounds pivot (j + 1) (if keep then i + 1 else i)
      (if keep then exchange i j s else s)

pub partition : Arrays → ℕ → ℕ → ℕ × Arrays
unfolding partition_loop
partition s low high =
    let (i, t) = partition_loop (high - low) (key_at s high) low low s in (i, exchange i high t)

-- The C argument `high` can be -1: here it is passed plus one. The fuel bounds the recursion's depth.
pub sort_index_and_global : ℕ → Arrays → ℕ → ℕ → Arrays
sort_index_and_global zero s low end = s
sort_index_and_global (suc fuel) s low end = elim (ltb (low + 1) end) [
  | true ↦
      let (part, t) = partition s low (end - 1) in
      sort_index_and_global fuel (sort_index_and_global fuel t low part) (part + 1) end
  | false ↦ s
]
