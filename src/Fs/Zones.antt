-- ===== src/Fs/Zones.antt =====
-- fs/inode.c: _bmap, which finds the disk block of a block of a file, or makes it. The blocks of indices are
-- 512 words of 16 bits. `new_block` is taken through an interface; whether a block can be read from the disk
-- is given.
pub mod Places
pub mod Fills
pub mod Blocks
pub mod Answer
pub mod Created
pub mod Disk
use linux_0_01raf.Prelude.{
  ℕ, zero, suc, ◌+◌, ◌-◌, ◌*◌, ◌/◌, ◌%◌, ◌^◌, ◌<◌, ◌≡◌, ◌≢◌, ◌⊎◌, Bool, true, false, not, ◌&&◌,
  ◌||◌, Option, none, some, List, ltb, leb, ◌==◌, if◌then◌else◌, get_or, set,
}

-- What _bmap relies on: `new_block` answers 0, or a block that was free and is used now, the number fits the
-- 16 bits of a zone (s_nzones has 16 bits), and no used block is taken back.
pub record Allocator (S : Type 0) : Type 0 where
  pub new_block : S → ℕ × S
  pub is_used : S → ℕ → Bool
  pub bounded : (s : S) → (new_block s).0 < 2 ^ 16
  pub fresh :
      (s : S)
      → ((new_block s).0 ≡ 0)
        ⊎ ((is_used s (new_block s).0 ≡ false) × (is_used (new_block s).1 (new_block s).0 ≡ true))
  pub kept : (s : S) (b : ℕ) → is_used s b ≡ true → is_used (new_block s).1 b ≡ true

-- i_zone of an inode, the words of the blocks, and the state of the allocator; the inode's times and the flags
-- for writing back are left out
pub record Zones (S : Type 0) : Type 0 where
  pub i_zone : List ℕ
  pub words : ℕ → ℕ → ℕ
  pub store : S

module _ {S : Type 0} (disk : Allocator S) (readable : ℕ → Bool) where
  -- new_block clears the block that it answers
  unfoldable pub allocate : Zones S → ℕ × Zones S
  allocate z =
      let b = (disk.new_block z.store).0 in
      (
        b,
        record z {
          words = λ k j. if not (b == 0) && (k == b) then 0 else z.words k j;
          store = (disk.new_block z.store).1;
        },
      )

  unfoldable pub fill_zone : ℕ → Zones S → Zones S
  unfolding allocate
  fill_zone k z =
      let r = allocate z in
      if get_or z.i_zone k 0 == 0
      then (if r.0 % 2 ^ 16 == 0
          then r.1
          else record r.1 { i_zone = set z.i_zone k (r.0 % 2 ^ 16) })
      else z

  -- the word `k` of the block `blk`
  unfoldable pub fill_word : ℕ → ℕ → Zones S → ℕ × Zones S
  fill_word blk k z =
      let r = allocate z in
      if z.words blk k == 0
      then (if r.0 == 0 then (0, r.1) else (
        r.0,
        record r.1 {
          words = λ l j. if (l == blk) && (j == k) then r.0 % 2 ^ 16 else r.1.words l j;
        },
      ))
      else (z.words blk k, z)

  abbrev pub zone_or_fill : Bool → ℕ → Zones S → Zones S
  zone_or_fill create k z = if create then fill_zone k z else z

  abbrev pub word_or_fill : Bool → ℕ → ℕ → Zones S → ℕ × Zones S
  word_or_fill create blk k z = if create then fill_word blk k z else (z.words blk k, z)

  unfoldable pub single : Bool → ℕ → Zones S → ℕ × Zones S
  single create k z =
      let ind = get_or z.i_zone 7 0 in
      if (ind == 0) || not (readable ind) then (0, z) else word_or_fill create ind k z

  unfoldable pub double : Bool → ℕ → Zones S → ℕ × Zones S
  double create k z =
      let ind = get_or z.i_zone 8 0 in
      let r = word_or_fill create ind (k / 512) z in
      if (ind == 0) || not (readable ind)
      then (0, z)
      else if (r.0 == 0) || not (readable r.0)
      then (0, r.1)
      else word_or_fill create r.0 (k % 512) r.1

  -- _bmap: a panic for a block behind the last one
  unfoldable pub bmap_or_create : Bool → ℕ → Zones S → Option (ℕ × Zones S)
  bmap_or_create create block z =
      if leb (7 + 512 + 512 * 512) block
      then none
      else if ltb block 7
      then some (get_or (zone_or_fill create block z).i_zone block 0, zone_or_fill create block z)
      else if ltb block 519
      then some (single create (block - 7) (zone_or_fill create 7 z))
      else some (double create (block - 519) (zone_or_fill create 8 z))

  unfoldable pub bmap : ℕ → Zones S → Option (ℕ × Zones S)
  bmap block z = bmap_or_create false block z

  unfoldable pub create_block : ℕ → Zones S → Option (ℕ × Zones S)
  create_block block z = bmap_or_create true block z
