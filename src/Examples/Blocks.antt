-- ===== src/Examples/Blocks.antt =====
-- fs/bitmap.c: the theorem at a concrete device.
use linux_0_01raf.Prelude.{
  ℕ, zero, suc, ◌≡◌, ◌∙◌, sym, ap, refl, ◌⊎◌, Bool, true, false, Option, none, some, List, ◌∷◌,
  arith, length, get_or, replicate, length-replicate,
}
use linux_0_01raf.Fs.Bitmap.{Device, returns, new_block}
use linux_0_01raf.Fs.Bitmap.Allocation.{IsDevice, Allocated, new_block-Allocated}

-- one bitmap block, in which all but the first bit are free
abbrev pub free_disk : Device
free_disk = record {
  s_firstdatazone = 10;
  s_nzones = 1000;
  s_zmap = some (true ∷ replicate 8191 false) ∷ replicate 7 none;
  zmap_dirt = replicate 8 false;
  buffers = λ block. none;
}

length_of : Option (List Bool) → ℕ
length_of none = 8192
length_of (some bits) = length bits

no_maps : (n i : ℕ) → length_of (get_or (replicate n none) i none) ≡ 8192
unfolding length_of
no_maps zero i = refl
no_maps (suc n) zero = refl
no_maps (suc n) (suc i) = no_maps n i

pub free_disk-IsDevice : IsDevice free_disk
unfolding length_of
free_disk-IsDevice = record {
  first = omega arith;
  reserved = refl;
  size = sized;
  unheld = λ block bh e. cc;
}
  where
    sized :
        (i : ℕ) (bits : List Bool) → get_or free_disk.s_zmap i none ≡ some bits → length bits ≡ 8192
    sized zero bits e = sym (ap length_of e) ∙ ap suc (length-replicate {A = Bool} 8191 false)
    sized (suc i) bits e = sym (ap length_of e) ∙ no_maps 7 i

new_block-Allocated_example :
    (block : ℕ) × (t : Device) × (new_block free_disk ≡ returns block t)
    × ((block ≡ 0) ⊎ Allocated free_disk block t)
new_block-Allocated_example = new_block-Allocated free_disk free_disk-IsDevice
