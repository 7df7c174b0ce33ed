-- ===== src/Examples/FileBlocks.antt =====
-- fs/inode.c: a block of an empty file is made.
use linux_0_01raf.Prelude.{
  ℕ, zero, suc, ◌+◌, ◌*◌, ◌<◌, ◌≡◌, ◌≢◌, refl, true, some, get_or, replicate, arith,
}
use linux_0_01raf.Fs.Zones.{Zones, bmap, create_block}
use linux_0_01raf.Fs.Zones.Places.{Place, in_zone, in_single, in_double, in_leaf, value}
use linux_0_01raf.Fs.Zones.Fills.{IsTree}
use linux_0_01raf.Fs.Zones.Disk.{Disk, bitmap_blocks}
use linux_0_01raf.Examples.Blocks.{free_disk, free_disk-IsDevice}
use linux_0_01raf.Fs.Zones.Created.{create_block-Created}

-- a file with no blocks, on the disk on which all blocks are free
abbrev empty_file : Zones Disk
empty_file = record {
  i_zone = replicate 9 0;
  words = λ k j. 0;
  store = (free_disk, free_disk-IsDevice, omega arith);
}

no_zone : (k n : ℕ) → get_or {A = ℕ} (replicate n 0) k 0 ≡ 0
no_zone k zero = refl
no_zone zero (suc n) = refl
no_zone (suc k) (suc n) = no_zone k n

no_block : (p : Place) → value empty_file p ≡ 0
unfolding value
no_block (in_zone k) = no_zone k 9
no_block (in_single k) = refl
no_block (in_double k) = refl
no_block (in_leaf i j) = refl

empty_file-IsTree : IsTree bitmap_blocks empty_file
unfolding IsTree
empty_file-IsTree = (refl, λ p h. absurd (h (no_block p)), λ p q h. absurd (h (no_block p)))

create_block-Created_example :
    (n : ℕ) × (u : Zones Disk) × (create_block bitmap_blocks (λ b. true) 600 empty_file
      ≡ some (n, u))
    × IsTree bitmap_blocks u
    × (bmap bitmap_blocks (λ b. true) 600 u ≡ some (n, u))
    × ((other : ℕ)
        → other < 7 + 512 + 512 * 512
        → other ≢ 600
        → (m : ℕ) × (bmap bitmap_blocks (λ b. true) other empty_file ≡ some (m, empty_file))
          × (bmap bitmap_blocks (λ b. true) other u ≡ some (m, u)))
    × ((m : ℕ)
        → bmap bitmap_blocks (λ b. true) 600 empty_file ≡ some (m, empty_file)
        → m ≢ 0
        → n ≡ m)
create_block-Created_example =
    create_block-Created bitmap_blocks (λ b. true) (λ b. refl) 600 empty_file empty_file-IsTree
      (omega arith)
