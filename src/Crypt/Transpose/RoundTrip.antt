-- ===== src/Crypt/Transpose/RoundTrip.antt =====
-- Decryption with the same key undoes the encryption of a block.
use linux_0_01raf.Prelude.{
  ℕ, zero, suc, ◌+◌, ◌≤◌, ◌<◌, ◌≡◌, ◌≢◌, ◌⊎◌, inl, inr, ◌∙◌, sym, refl, ap, List, [], ◌∷◌, ◌++◌,
  arith, ◌==◌, Bool-cases, length, get_or, set, take, length-set, get_or-set_self, get_or-set_ne,
  eq_of_get_or,
}
use linux_0_01raf.Prelude.Count.{count, IsPermBelow, length_of_perm, lt_of_count}
use linux_0_01raf.Crypt.Sort.{strlen}
use linux_0_01raf.Crypt.Transpose.{
  encr_column, encr_columns, buffer_encr, decr_column, decr_columns, buffer_decr, sorted_key,
}
use linux_0_01raf.Crypt.Transpose.Order.{column, order, order-IsPermBelow}
use linux_0_01raf.Crypt.Transpose.Key.{sorted_key-IsPermBelow}

-- buffer[counter++] = old[p] for each place p of a list
pub gather : List ℕ → List ℕ → ℕ → List ℕ → List ℕ
gather old [] counter buffer = buffer
gather old (p ∷ ps) counter buffer =
    gather old ps (counter + 1) (set buffer counter (get_or old p 0))

-- buffer[p] = old[counter++] for each place p of a list
scatter : List ℕ → List ℕ → ℕ → List ℕ → List ℕ
scatter old [] counter buffer = buffer
scatter old (p ∷ ps) counter buffer =
    scatter old ps (counter + 1) (set buffer p (get_or old counter 0))

gather-append :
    (old xs ys : List ℕ) (c : ℕ) (b : List ℕ)
    → gather old (xs ++ ys) c b ≡ gather old ys (c + length xs) (gather old xs c b)
unfolding gather
gather-append old [] ys c b = ap (λ k. gather old ys k b) (omega arith)
gather-append old (x ∷ xs) ys c b =
    gather-append old xs ys (c + 1) (set b c (get_or old x 0))
    ∙ ap (λ k. gather old ys k (gather old xs (c + 1) (set b c (get_or old x 0)))) (omega arith)

scatter-append :
    (old xs ys : List ℕ) (c : ℕ) (b : List ℕ)
    → scatter old (xs ++ ys) c b ≡ scatter old ys (c + length xs) (scatter old xs c b)
unfolding scatter
scatter-append old [] ys c b = ap (λ k. scatter old ys k b) (omega arith)
scatter-append old (x ∷ xs) ys c b =
    scatter-append old xs ys (c + 1) (set b x (get_or old c 0))
    ∙ ap (λ k. scatter old ys k (scatter old xs (c + 1) (set b x (get_or old c 0)))) (omega arith)

module _ (gb len : ℕ) (old : List ℕ) where
  encr_column-counter :
      (fuel num c : ℕ) (b : List ℕ)
      → (encr_column gb len old fuel num c b).0 ≡ c + length (column gb len fuel num)
  unfolding encr_column column
  encr_column-counter zero num c b = omega arith
  encr_column-counter (suc fuel) num c b =
      ground (arith, encr_column-counter fuel (num + gb) (c + 1) (set b c (get_or old num 0)))

  encr_column-buffer :
      (fuel num c : ℕ) (b : List ℕ)
      → (encr_column gb len old fuel num c b).1 ≡ gather old (column gb len fuel num) c b
  unfolding encr_column column gather
  encr_column-buffer zero num c b = refl
  encr_column-buffer (suc fuel) num c b =
      ground (arith, encr_column-buffer fuel (num + gb) (c + 1) (set b c (get_or old num 0)))

  encr_columns-gather :
      (index : List ℕ) (c : ℕ) (b : List ℕ)
      → encr_columns gb len old index c b ≡ gather old (order gb len index) c b
  unfolding encr_columns order gather
  encr_columns-gather [] c b = refl
  encr_columns-gather (num ∷ index) c b =
      let ps = column gb len len num in
      let out = encr_column gb len old len num c b in
      encr_columns-gather index out.0 out.1
      ∙ rw (encr_column-counter len num c b, encr_column-buffer len num c b)
          (sym (gather-append old ps (order gb len index) c b))

  decr_column-counter :
      (fuel num c : ℕ) (b : List ℕ)
      → (decr_column gb len old fuel num c b).0 ≡ c + length (column gb len fuel num)
  unfolding decr_column column
  decr_column-counter zero num c b = omega arith
  decr_column-counter (suc fuel) num c b =
      ground (arith, decr_column-counter fuel (num + gb) (c + 1) (set b num (get_or old c 0)))

  decr_column-buffer :
      (fuel num c : ℕ) (b : List ℕ)
      → (decr_column gb len old fuel num c b).1 ≡ scatter old (column gb len fuel num) c b
  unfolding decr_column column scatter
  decr_column-buffer zero num c b = refl
  decr_column-buffer (suc fuel) num c b =
      ground (arith, decr_column-buffer fuel (num + gb) (c + 1) (set b num (get_or old c 0)))

  decr_columns-scatter :
      (index : List ℕ) (c : ℕ) (b : List ℕ)
      → decr_columns gb len old index c b ≡ scatter old (order gb len index) c b
  unfolding decr_columns order scatter
  decr_columns-scatter [] c b = refl
  decr_columns-scatter (num ∷ index) c b =
      let ps = column gb len len num in
      let out = decr_column gb len old len num c b in
      decr_columns-scatter index out.0 out.1
      ∙ rw (decr_column-counter len num c b, decr_column-buffer len num c b)
          (sym (scatter-append old ps (order gb len index) c b))

length-gather : (old ps : List ℕ) (c : ℕ) (b : List ℕ) → length (gather old ps c b) ≡ length b
unfolding gather
length-gather old [] c b = refl
length-gather old (p ∷ ps) c b =
    length-gather old ps (c + 1) (set b c (get_or old p 0)) ∙ length-set b c (get_or old p 0)

length-scatter : (old ps : List ℕ) (c : ℕ) (b : List ℕ) → length (scatter old ps c b) ≡ length b
unfolding scatter
length-scatter old [] c b = refl
length-scatter old (p ∷ ps) c b =
    length-scatter old ps (c + 1) (set b p (get_or old c 0)) ∙ length-set b p (get_or old c 0)

-- places before the counter are left alone
gather-before :
    (old ps : List ℕ) (c k : ℕ) (b : List ℕ) → k < c → get_or (gather old ps c b) k 0 ≡ get_or b k 0
unfolding gather
gather-before old [] c k b h = refl
gather-before old (p ∷ ps) c k b h =
    gather-before old ps (c + 1) k (set b c (get_or old p 0)) (omega arith)
    ∙ get_or-set_ne b c k (get_or old p 0) 0 (omega arith)

-- the k-th place of the list is read into the k-th place after the counter
gather-at :
    (old ps : List ℕ) (c k : ℕ) (b : List ℕ)
    → k < length ps
    → c + length ps ≤ length b
    → get_or (gather old ps c b) (c + k) 0 ≡ get_or old (get_or ps k 0) 0
unfolding gather
gather-at old [] c k b h l = absurd (omega arith)
gather-at old (p ∷ ps) c zero b h l =
    ap (λ j. get_or (gather old ps (c + 1) (set b c (get_or old p 0))) j 0) (omega arith)
    ∙ gather-before old ps (c + 1) c (set b c (get_or old p 0)) (omega arith)
    ∙ get_or-set_self b c (get_or old p 0) 0 (omega arith)
gather-at old (p ∷ ps) c (suc k) b h l =
    ap (λ j. get_or (gather old ps (c + 1) (set b c (get_or old p 0))) j 0) (omega arith)
    ∙ gather-at old ps (c + 1) k (set b c (get_or old p 0)) (omega arith)
        (omega (arith, length-set b c (get_or old p 0)))

-- If the values to write are those of `b`, then the places written, and those that were right, are.
scatter-restores :
    (b old ps : List ℕ) (c p : ℕ) (out : List ℕ)
    → ((k : ℕ) → k < length ps → get_or old (c + k) 0 ≡ get_or b (get_or ps k 0) 0)
    → p < length out
    → (count p ps ≢ 0) ⊎ (get_or out p 0 ≡ get_or b p 0)
    → get_or (scatter old ps c out) p 0 ≡ get_or b p 0
unfolding scatter
scatter-restores b old [] c p out h l (inl ne) = absurd (ne refl)
scatter-restores b old [] c p out h l (inr e) = e
scatter-restores b old (q ∷ ps) c p out h l d =
    scatter-restores b old ps (c + 1) p (set out q (get_or old c 0))
      (λ k x. ap (λ j. get_or old j 0) (omega arith) ∙ h (suc k) (omega arith))
      (omega (arith, length-set out q (get_or old c 0))) (now d)
  where
    here : get_or old c 0 ≡ get_or b q 0
    here = ap (λ j. get_or old j 0) (omega arith) ∙ h 0 (omega arith)

    now :
        (count p (q ∷ ps) ≢ 0) ⊎ (get_or out p 0 ≡ get_or b p 0)
        → (count p ps ≢ 0) ⊎ (get_or (set out q (get_or old c 0)) p 0 ≡ get_or b p 0)
    now o = elim (Bool-cases (q == p)) [
      | inl e ↦
          let e' : q ≡ p = ground arith in
          inr (ground (arith, here, get_or-set_self out p (get_or old c 0) 0))
      | inr ne ↦ elim o [
        | inl m ↦ inl (ground arith)
        | inr w ↦ inr (ground (arith, get_or-set_ne out q p (get_or old c 0) 0))
      ]
    ]

-- writing in an order that holds each place once, and reading back in it, restores the block
scatter-gather :
    (b ps : List ℕ)
    → IsPermBelow (length b) ps
    → scatter (gather b ps 0 b) ps 0 (gather b ps 0 b) ≡ b
scatter-gather b ps h =
    eq_of_get_or 0 _ _ (length-scatter enc ps 0 enc ∙ length-gather b ps 0 b) (λ p l.
      scatter-restores b enc ps 0 p enc
        (λ k x. gather-at b ps 0 k b x (omega (arith, length_of_perm (length b) ps h)))
        (omega (arith, length-scatter enc ps 0 enc))
        (inl (ground (arith, h p, length-scatter enc ps 0 enc, length-gather b ps 0 b))))
  where
    enc : List ℕ
    enc = gather b ps 0 b

take-length : (xs : List ℕ) (n : ℕ) → length xs ≡ n → take n xs ≡ xs
take-length [] zero e = refl
take-length [] (suc n) e = refl
take-length (x ∷ xs) zero e = absurd (omega arith)
take-length (x ∷ xs) (suc n) e = ap (λ t. x ∷ t) (take-length xs n (omega arith))

nil_of_perm : (xs : List ℕ) → IsPermBelow 0 xs → xs ≡ []
nil_of_perm [] h = refl
nil_of_perm (x ∷ xs) h = absurd (omega (arith, lt_of_count 0 x xs h))

-- the index and the places that a key gives for a block
abbrev places : List ℕ → ℕ → List ℕ
places key len = order (strlen key) len (sorted_key key).index_array

pub buffer_encr-gather :
    (key buffer : List ℕ) (len : ℕ)
    → length buffer ≡ len
    → buffer_encr key buffer len ≡ gather buffer (places key len) 0 buffer
unfolding buffer_encr
buffer_encr-gather key buffer len e =
    rw (take-length buffer len e)
      (encr_columns-gather (strlen key) len buffer (sorted_key key).index_array 0 buffer)

buffer_decr-scatter :
    (key buffer : List ℕ) (len : ℕ)
    → length buffer ≡ len
    → buffer_decr key buffer len ≡ scatter buffer (places key len) 0 buffer
unfolding buffer_decr
buffer_decr-scatter key buffer len e =
    rw (take-length buffer len e)
      (decr_columns-scatter (strlen key) len buffer (sorted_key key).index_array 0 buffer)

-- with an empty key nothing is written
places_restore :
    (key buffer : List ℕ) (len : ℕ)
    → length buffer ≡ len
    → let enc = gather buffer (places key len) 0 buffer in
      scatter enc (places key len) 0 enc ≡ buffer
places_restore key buffer len e = elim (Bool-cases (strlen key == 0)) [
  | inl z ↦
      let z' : strlen key ≡ 0 = ground arith in
      let empty : (sorted_key key).index_array ≡ [] =
        nil_of_perm (sorted_key key).index_array (rw z' at (sorted_key-IsPermBelow key)) in
      rw empty (unfold gather scatter order in refl)
  | inr nz ↦ scatter-gather buffer (places key len) (
      rw e (
        order-IsPermBelow (strlen key) len (sorted_key key).index_array (ground arith)
          (sorted_key-IsPermBelow key)))
]

-- Decrypting an encrypted block with the key that encrypted it gives the block back, for every key,
-- every length and every content of that length.
pub buffer_decr-buffer_encr :
    (key buffer : List ℕ) (len : ℕ)
    → length buffer ≡ len
    → buffer_decr key (buffer_encr key buffer len) len ≡ buffer
buffer_decr-buffer_encr key buffer len e = rw (buffer_encr-gather key buffer len e) (
    buffer_decr-scatter key (gather buffer (places key len) 0 buffer) len
      (length-gather buffer (places key len) 0 buffer ∙ e)
    ∙ places_restore key buffer len e)
