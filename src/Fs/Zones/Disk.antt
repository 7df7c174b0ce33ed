-- ===== src/Fs/Zones/Disk.antt =====
-- fs/inode.c on fs/bitmap.c: _bmap takes its blocks from new_block on a device.
use linux_0_01raf.Prelude.{ℕ, ◌^◌, ◌<◌, ◌≡◌, ◌⊎◌, inl, inr, true, false, arith}
use linux_0_01raf.Fs.Bitmap.{Device}
use linux_0_01raf.Fs.Bitmap.Allocation.{IsDevice, is_used}
use linux_0_01raf.Fs.Bitmap.Next.{new_block-Next}
use linux_0_01raf.Fs.Zones.{Allocator}

-- a device whose number of zones fits s_nzones
abbrev pub Disk : Type 0
Disk = (d : Device) × IsDevice d × (d.s_nzones < 2 ^ 16)

-- new_block of fs/bitmap.c, on such a device
abbrev pub disk_new_block : Disk → ℕ × Disk
disk_new_block s =
    let r = new_block-Next s.0 s.1 in (r.0, (r.1, r.3.device, omega (arith, r.3.zones, s.2)))

pub disk_new_block-bounded : (s : Disk) → (disk_new_block s).0 < 2 ^ 16
disk_new_block-bounded s = elim (new_block-Next s.0 s.1).3.outcome [
  | inl z ↦ omega (arith, z)
  | inr a ↦ omega (arith, a.last_zone, s.2)
]

pub disk_new_block-fresh :
    (s : Disk)
    → ((disk_new_block s).0 ≡ 0)
      ⊎ ((is_used s.0 (disk_new_block s).0 ≡ false)
          × (is_used (disk_new_block s).1.0 (disk_new_block s).0 ≡ true))
disk_new_block-fresh s = elim (new_block-Next s.0 s.1).3.outcome [
  | inl z ↦ inl z
  | inr a ↦ inr (a.was_free, a.now_used)
]

pub disk_new_block-kept :
    (s : Disk) (b : ℕ) → is_used s.0 b ≡ true → is_used (disk_new_block s).1.0 b ≡ true
disk_new_block-kept s b h = (new_block-Next s.0 s.1).3.kept b h

-- the laws that _bmap relies on hold of new_block
abbrev pub bitmap_blocks : Allocator Disk
bitmap_blocks = record {
  new_block = disk_new_block;
  is_used = λ s b. is_used s.0 b;
  bounded = disk_new_block-bounded;
  fresh = disk_new_block-fresh;
  kept = disk_new_block-kept;
}
