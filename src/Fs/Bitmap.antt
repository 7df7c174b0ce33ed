-- ===== src/Fs/Bitmap.antt =====
-- fs/bitmap.c: the blocks of a device, free or used. A block of the bitmap is its 8192 bits, in the order
-- in which `btsl` and `bsfl` count them. The buffers are those of fs/buffer.c as far as the two routines use
-- them: `getblk` answers the buffer of a block that has one, else a fresh one, and never has to wait.
pub mod Allocation
pub mod Next
use linux_0_01raf.Prelude.{
  ℕ, zero, suc, ◌+◌, ◌-◌, ◌*◌, ◌/◌, ◌%◌, Bool, true, false, not, ◌&&◌, ◌||◌, Option, none, some,
  List, [], ◌∷◌, ltb, leb, ◌==◌, if◌then◌else◌, get_or, set, replicate,
}

-- struct buffer_head
pub record Buffer : Type 0 where
  pub b_data : List ℕ
  pub b_uptodate : Bool
  pub b_dirt : Bool
  pub b_count : ℕ

-- The super block of a device, with its bitmap blocks `s_zmap` and the dirty marks of their buffers; and
-- the buffers of the device's blocks.
pub record Device : Type 0 where
  pub s_firstdatazone : ℕ
  pub s_nzones : ℕ
  pub s_zmap : List (Option (List Bool))
  pub zmap_dirt : List Bool
  pub buffers : ℕ → Option Buffer

-- A routine returns, panics, or follows a null pointer.
pub data Outcome (A : Type 0) : Type 0 where
  returns : A → Device → Outcome A
  panic : Outcome A
  fault : Outcome A

-- the index of the first bit that is 0, or the number of bits
unfoldable pub find_first_zero : List Bool → ℕ
find_first_zero [] = 0
find_first_zero (false ∷ bits) = 0
find_first_zero (true ∷ bits) = suc (find_first_zero bits)

abbrev pub bits_of : Device → ℕ → List Bool
bits_of d i = elim (get_or d.s_zmap i none) [ none ↦ [] | some bits ↦ bits ]

-- set_bit and clear_bit on the bitmap block `i`, with b_dirt = 1
unfoldable pub mark : ℕ → ℕ → Bool → Device → Device
mark i j value d = record d {
  s_zmap = set d.s_zmap i (some (set (bits_of d i) j value));
  zmap_dirt = set d.zmap_dirt i true;
}

-- for (i=0 ; i<8 ; i++) …: `n` bitmap blocks from `i` on
unfoldable pub find_map : ℕ → ℕ → Device → Option (ℕ × ℕ)
find_map zero i d = none
find_map (suc n) i d =
    let rest = find_map n (i + 1) d in
    elim (get_or d.s_zmap i none) [
      | none ↦ rest
      | some bits ↦ let j = find_first_zero bits in if ltb j 8192 then some (i, j) else rest
    ]

abbrev pub put_buffer : (ℕ → Option Buffer) → ℕ → Option Buffer → ℕ → Option Buffer
put_buffer f b v k = if k == b then v else f k

-- what the call of `getblk` answers
unfoldable pub taken_buffer : ℕ → Device → Buffer
taken_buffer block d = elim (d.buffers block) [
  | none ↦ record { b_data = []; b_uptodate = false; b_dirt = false; b_count = 1 }
  | some bh ↦ record bh { b_count = bh.b_count + 1 }
]

-- The last part of `new_block`: the buffer is taken, cleared, marked and given back.
unfoldable pub clear_new : ℕ → Device → Outcome ℕ
clear_new j d =
    let bh = taken_buffer j d in
    if bh.b_count == 1
    then returns j (record d {
      buffers = put_buffer d.buffers j (
          some
            (record { b_data = replicate 1024 0; b_uptodate = true; b_dirt = true; b_count = 0 }));
    })
    else panic

-- The answer is 0 where no block is free, and where the first free one lies behind the device.
unfoldable pub new_block : Device → Outcome ℕ
new_block d = elim (find_map 8 0 d) [
  | none ↦ returns 0 d
  | some (i, j) ↦
      let block = j + (i * 8192 + d.s_firstdatazone - 1) in
      if leb d.s_nzones block
      then returns 0 (mark i j true d)
      else clear_new block (mark i j true d)
]

-- the last part of `free_block`
unfoldable pub clear_block_bit : ℕ → Device → Outcome (Unit {0})
clear_block_bit block d =
    let number = block - (d.s_firstdatazone - 1) in
    elim (get_or d.s_zmap (number / 8192) none) [
      | none ↦ fault
      | some bits ↦
          if get_or bits (number % 8192) false
          then returns tt (mark (number / 8192) (number % 8192) false d)
          else panic
    ]

-- `get_hash_table` takes the buffer. One that somebody else holds too keeps the block from being freed,
-- and is not given back.
unfoldable pub free_block : ℕ → Device → Outcome (Unit {0})
free_block block d =
    if ltb block d.s_firstdatazone || leb d.s_nzones block then panic else elim (d.buffers block) [
      | none ↦ clear_block_bit block d
      | some bh ↦
          if not (bh.b_count + 1 == 1)
          then returns tt (record d {
            buffers = put_buffer d.buffers block (some (record bh { b_count = bh.b_count + 1 }));
          })
          else clear_block_bit block (record d {
            buffers =
                put_buffer d.buffers block
                  (some (record bh { b_dirt = false; b_uptodate = false }));
          })
    ]
