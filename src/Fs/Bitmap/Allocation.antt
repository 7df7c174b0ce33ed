-- ===== src/Fs/Bitmap/Allocation.antt =====
-- fs/bitmap.c: a block that `new_block` returns was free, and `free_block` gives it back.
use linux_0_01raf.Prelude.{
  ℕ, zero, suc, ◌+◌, ◌-◌, ◌*◌, ◌/◌, ◌%◌, ◌≤◌, ◌<◌, ◌≡◌, ◌∙◌, ap, sym, refl, ◌⊎◌, inl, inr, Bool,
  true, false, Option, none, some, List, [], ◌∷◌, arith, ltb, leb, ◌==◌, Bool-cases, Option-cases,
  length, get_or, set, replicate, get_or-set_self,
}
use linux_0_01raf.Fs.Bitmap.{
  Buffer, Device, returns, find_first_zero, bits_of, mark, find_map, put_buffer, taken_buffer,
  clear_new, new_block, clear_block_bit, free_block,
}

find_first_zero_lem :
    (bits : List Bool)
    → find_first_zero bits < length bits
    → get_or bits (find_first_zero bits) true ≡ false
unfolding find_first_zero
find_first_zero_lem [] h = elim h [ ]
find_first_zero_lem (false ∷ bits) h = refl
find_first_zero_lem (true ∷ bits) h = find_first_zero_lem bits (omega arith)

all_set : (bits : List Bool) (j : ℕ) → j < find_first_zero bits → get_or bits j true ≡ true
unfolding find_first_zero
all_set [] j h = elim h [ ]
all_set (false ∷ bits) j h = elim h [ ]
all_set (true ∷ bits) zero h = refl
all_set (true ∷ bits) (suc j) h = all_set bits j (omega arith)

set_back :
    {A : Type 0} (xs : List A) (i : ℕ) (v w d : A)
    → i < length xs
    → get_or xs i d ≡ w
    → set (set xs i v) i w ≡ xs
set_back [] i v w d h e = elim h [ ]
set_back (x ∷ xs) zero v w d h e = ap (λ k. k ∷ xs) (sym e)
set_back (x ∷ xs) (suc i) v w d h e = ap (◌∷◌ x) (set_back xs i v w d (omega arith) e)

get_or_below :
    {A : Type 0} (xs : List (Option A)) (i : ℕ) (a : A) → get_or xs i none ≡ some a → i < length xs
get_or_below [] i a e = cc
get_or_below (x ∷ xs) zero a e = omega arith
get_or_below (x ∷ xs) (suc i) a e = let h = get_or_below xs i a e in omega arith

-- the bit of a block; a bit behind the bitmap counts as set
abbrev pub is_used : Device → ℕ → Bool
is_used d block =
    get_or (bits_of d ((block - (d.s_firstdatazone - 1)) / 8192))
      ((block - (d.s_firstdatazone - 1)) % 8192) true

-- bitmap blocks of 8192 bits, of which the first bit stands for no block; and nobody holds the buffer
-- of a block that is free
pub record IsDevice (d : Device) : Type 0 where
  pub first : 1 ≤ d.s_firstdatazone
  pub reserved : get_or (bits_of d 0) 0 true ≡ true
  pub size : (i : ℕ) (bits : List Bool) → get_or d.s_zmap i none ≡ some bits → length bits ≡ 8192
  pub unheld :
      (block : ℕ) (bh : Buffer)
      → d.buffers block ≡ some bh
      → (bh.b_count ≡ 0) ⊎ (is_used d block ≡ true)

-- what the search over `n` bitmap blocks from `i` on has found
pub record FoundBit (d : Device) (i j : ℕ) : Type 0 where
  pub bits : List Bool
  pub is_map : get_or d.s_zmap i none ≡ some bits
  pub in_map : j < 8192
  pub is_zero : get_or bits j true ≡ false

pub find_map-cases :
    (n i : ℕ) (d : Device)
    → IsDevice d
    → (find_map n i d ≡ none) ⊎ ((a b : ℕ) × (find_map n i d ≡ some (a, b)) × FoundBit d a b)
unfolding find_map
find_map-cases zero i d k = inl refl
find_map-cases (suc n) i d k = elim (Option-cases (get_or d.s_zmap i none)) [
  | inl e ↦ rw (find_map, e) (find_map-cases n (i + 1) d k)
  | inr (bits, e) ↦ elim (Bool-cases (ltb (find_first_zero bits) 8192)) [
    | inr miss ↦ rw (find_map, e) (rw miss (find_map-cases n (i + 1) d k))
    | inl hit ↦
        rw (find_map, e)
          (rw hit (
            inr (
              i,
              find_first_zero bits,
              refl,
              record {
                bits = bits;
                is_map = e;
                in_map = ground arith;
                is_zero = find_first_zero_lem bits (ground (arith, k.size i bits e));
              },
            )))
  ]
]

-- `block` was free, is used now, and lies on the device; `free_block` takes it back, and the bitmap is
-- what it was.
pub record Allocated (d : Device) (block : ℕ) (t : Device) : Type 0 where
  pub was_free : is_used d block ≡ false
  pub now_used : is_used t block ≡ true
  pub first_zone : d.s_firstdatazone ≤ block
  pub last_zone : block < d.s_nzones
  pub freed : Device
  pub frees : free_block block t ≡ returns tt freed
  pub restored : freed.s_zmap ≡ d.s_zmap

clear_block_bit_lem :
    (e : Device) (block a b : ℕ) (bits : List Bool)
    → (block - (e.s_firstdatazone - 1)) / 8192 ≡ a
    → (block - (e.s_firstdatazone - 1)) % 8192 ≡ b
    → get_or e.s_zmap a none ≡ some bits
    → get_or bits b false ≡ true
    → clear_block_bit block e
      ≡ returns tt (record (mark a b false e) { s_zmap = set e.s_zmap a (some (set bits b false)) })
unfolding clear_block_bit mark
clear_block_bit_lem e block a b bits x y z w =
    rw (clear_block_bit, x) (rw z (rw y (rw w (rw x (rw (bits_of, z) refl)))))

module _ (d : Device) (i j : ℕ) (k : IsDevice d) (f : FoundBit d i j) where
  -- the block of the bit
  abbrev pub number : ℕ
  number = j + (i * 8192 + d.s_firstdatazone - 1)

  number-div : (number - (d.s_firstdatazone - 1)) / 8192 ≡ i
  number-div = omega (arith, k.first, f.in_map)

  number-mod : (number - (d.s_firstdatazone - 1)) % 8192 ≡ j
  number-mod = omega (arith, k.first, f.in_map)

  pub bits_of_map : bits_of d i ≡ f.bits
  bits_of_map = rw (bits_of, f.is_map) refl

  not_first : 1 ≤ j + i * 8192
  not_first = elim (Bool-cases (j + i * 8192 == 0)) [
    | inr ne ↦ ground arith
    | inl e ↦
        let zi : i ≡ 0 = ground arith in
        let zj : j ≡ 0 = ground arith in
        let z : get_or (bits_of d 0) 0 true ≡ false =
          ap (λ a. get_or (bits_of d a) 0 true) (sym zi)
          ∙ ap (λ a. get_or (bits_of d i) a true) (sym zj)
          ∙ ap (λ b. get_or b j true) bits_of_map
          ∙ f.is_zero in
        cc (k.reserved)
  ]

  was_free_lem : is_used d number ≡ false
  was_free_lem =
      ap (λ a. get_or (bits_of d a) ((number - (d.s_firstdatazone - 1)) % 8192) true) number-div
      ∙ ap (λ a. get_or (bits_of d i) a true) number-mod
      ∙ ap (λ b. get_or b j true) bits_of_map
      ∙ f.is_zero

  abbrev pub marked : Device
  marked = record d {
    s_zmap = set d.s_zmap i (some (set f.bits j true));
    zmap_dirt = set d.zmap_dirt i true;
  }

  pub mark_lem : mark i j true d ≡ marked
  unfolding mark
  mark_lem = rw (bits_of, f.is_map) refl

  abbrev pub made : Device
  made = record marked {
    buffers = put_buffer d.buffers number (
        some (record { b_data = replicate 1024 0; b_uptodate = true; b_dirt = true; b_count = 0 }));
  }

  pub clear_new_lem : clear_new number marked ≡ returns number made
  unfolding clear_new taken_buffer
  clear_new_lem = elim (Option-cases (d.buffers number)) [
    | inl e ↦ rw (clear_new, taken_buffer, e) refl
    | inr (bh, e) ↦ elim (k.unheld number bh e) [
      | inl free ↦
          let one : bh.b_count + 1 == 1 ≡ true = ground arith in
          rw (clear_new, taken_buffer, e) (rw one refl)
      | inr used ↦ absurd (cc (was_free_lem))
    ]
  ]

  pub in_zmap : i < length d.s_zmap
  in_zmap = get_or_below d.s_zmap i f.bits f.is_map

  pub in_bits : j < length f.bits
  in_bits = omega (arith, k.size i f.bits f.is_map, f.in_map)

  made_map : get_or made.s_zmap i none ≡ some (set f.bits j true)
  made_map = get_or-set_self d.s_zmap i (some (set f.bits j true)) none in_zmap

  now_used_lem : is_used made number ≡ true
  now_used_lem =
      ap (λ a. get_or (bits_of made a) ((number - (d.s_firstdatazone - 1)) % 8192) true) number-div
      ∙ ap (λ a. get_or (bits_of made i) a true) number-mod
      ∙ ap (λ o. get_or (elim o [ none ↦ [] | some bits ↦ bits ]) j true) made_map
      ∙ get_or-set_self f.bits j true true in_bits

  -- `free_block` with the buffer, which is not to be written
  abbrev taken : Device
  taken = record made {
    buffers = put_buffer made.buffers number (
        some
          (record { b_data = replicate 1024 0; b_uptodate = false; b_dirt = false; b_count = 0 }));
  }

  abbrev released : Device
  released = record (mark i j false taken) {
    s_zmap = set taken.s_zmap i (some (set (set f.bits j true) j false));
  }

  buffer_lem :
      made.buffers number
      ≡ some (record { b_data = replicate 1024 0; b_uptodate = true; b_dirt = true; b_count = 0 })
  buffer_lem = let self : number == number ≡ true = ground arith in rw self refl

  frees_lem : leb d.s_nzones number ≡ false → free_block number made ≡ returns tt released
  unfolding free_block
  frees_lem inside =
      let low : ltb number d.s_firstdatazone ≡ false = ground (arith, k.first, not_first) in
      rw (free_block, low)
        (rw inside (
          rw buffer_lem (
            clear_block_bit_lem taken number i j (set f.bits j true) number-div number-mod made_map
              (get_or-set_self f.bits j true false in_bits))))

  restored_lem : released.s_zmap ≡ d.s_zmap
  restored_lem =
      ap (λ b. set made.s_zmap i (some b)) (set_back f.bits j true false true in_bits f.is_zero)
      ∙ set_back d.s_zmap i (some (set f.bits j true)) (some f.bits) none in_zmap f.is_map

  pub allocated : leb d.s_nzones number ≡ false → Allocated d number made
  allocated inside = record {
    was_free = was_free_lem;
    now_used = now_used_lem;
    first_zone = omega (arith, k.first, not_first);
    last_zone = ground arith;
    freed = released;
    frees = frees_lem inside;
    restored = restored_lem;
  }

-- On a device whose bitmap blocks have 8192 bits, with the first bit set, a first data zone of at least
-- 1, and no holder of the buffer of a free block: `new_block` returns; its answer is 0, or a block in the
-- data zones that was free and is used now, and `free_block` of it returns and restores the bitmap.
pub new_block-Allocated :
    (d : Device)
    → IsDevice d
    → (block : ℕ) × (t : Device) × (new_block d ≡ returns block t)
      × ((block ≡ 0) ⊎ Allocated d block t)
unfolding new_block
new_block-Allocated d k = elim (find_map-cases 8 0 d k) [
  | inl e ↦ (0, d, rw (new_block, e) refl, inl refl)
  | inr (i, j, e, f) ↦ elim (Bool-cases (leb d.s_nzones (number d i j k f))) [
    | inl beyond ↦ (0, mark i j true d, rw (new_block, e) (rw beyond refl), inl refl)
    | inr inside ↦ (
      number d i j k f,
      made d i j k f,
      rw (new_block, e)
          (rw inside
            (ap (clear_new (number d i j k f)) (mark_lem d i j k f) ∙ clear_new_lem d i j k f)),
      inr (allocated d i j k f inside),
    )
  ]
]
