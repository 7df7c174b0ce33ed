-- ===== src/Crypt/Transpose.antt =====
-- kernel/sys.c: `buffer_encr` and `buffer_decr`, a columnar transposition of one block. The columns
-- are as many as the key has letters, and are read in the order of the letters.
pub mod Order
pub mod Key
pub mod RoundTrip
use linux_0_01raf.Prelude.{
  ℕ, zero, suc, ◌+◌, ◌≡◌, refl, List, [], ◌∷◌, true, false, ltb, length, get_or, set, take,
}
use linux_0_01raf.Crypt.Sort.{Arrays, strlen, to_lower_case, sort_index_and_global}

-- for(i = 0; i < gb; i++) index_array[i] = i;
pub identity_indices : ℕ → ℕ → List ℕ
identity_indices zero i = []
identity_indices (suc n) i = i ∷ identity_indices n (i + 1)

-- the arrays after `sort_index_and_global(index_array, global_key_local, 0, gb - 1)`
pub sorted_key : List ℕ → Arrays
unfolding identity_indices strlen
sorted_key key =
    let gb = strlen key in
    sort_index_and_global gb
      (record { index_array = identity_indices gb 0; global_key_local = to_lower_case key }) 0 gb

-- `char old_buffer[len]; copy_to_buffer(old_buffer, buffer, len);`
abbrev pub copy_to_buffer : ℕ → List ℕ → List ℕ
copy_to_buffer len buffer = take len buffer

-- while(num < len) { buffer[counter++] = old_buffer[num]; num += gb; }
-- The step `gb` is at least 1 where the loop is entered, so `len` rounds suffice.
pub encr_column : ℕ → ℕ → List ℕ → ℕ → ℕ → ℕ → List ℕ → ℕ × List ℕ
encr_column gb len old zero num counter buffer = (counter, buffer)
encr_column gb len old (suc fuel) num counter buffer = elim (ltb num len) [
  | true ↦
      encr_column gb len old fuel (num + gb) (counter + 1) (set buffer counter (get_or old num 0))
  | false ↦ (counter, buffer)
]

pub encr_columns : ℕ → ℕ → List ℕ → List ℕ → ℕ → List ℕ → List ℕ
unfolding encr_column
encr_columns gb len old [] counter buffer = buffer
encr_columns gb len old (num ∷ index) counter buffer =
    let (counter', buffer') = encr_column gb len old len num counter buffer in
    encr_columns gb len old index counter' buffer'

unfoldable pub buffer_encr : List ℕ → List ℕ → ℕ → List ℕ
unfolding encr_columns sorted_key
buffer_encr global_key buffer len =
    let s = sorted_key global_key in
    encr_columns (strlen global_key) len (copy_to_buffer len buffer) s.index_array 0 buffer

-- while(num < len) { buffer[num] = old_buffer[counter++]; num += gb; }
pub decr_column : ℕ → ℕ → List ℕ → ℕ → ℕ → ℕ → List ℕ → ℕ × List ℕ
decr_column gb len old zero num counter buffer = (counter, buffer)
decr_column gb len old (suc fuel) num counter buffer = elim (ltb num len) [
  | true ↦
      decr_column gb len old fuel (num + gb) (counter + 1) (set buffer num (get_or old counter 0))
  | false ↦ (counter, buffer)
]

pub decr_columns : ℕ → ℕ → List ℕ → List ℕ → ℕ → List ℕ → List ℕ
unfolding decr_column
decr_columns gb len old [] counter buffer = buffer
decr_columns gb len old (num ∷ index) counter buffer =
    let (counter', buffer') = decr_column gb len old len num counter buffer in
    decr_columns gb len old index counter' buffer'

unfoldable pub buffer_decr : List ℕ → List ℕ → ℕ → List ℕ
unfolding decr_columns sorted_key
buffer_decr global_key buffer len =
    let s = sorted_key global_key in
    decr_columns (strlen global_key) len (copy_to_buffer len buffer) s.index_array 0 buffer
