-- ===== src/Fs/Zones/Created.antt =====
-- fs/inode.c: create_block makes the block of the file that bmap finds then, and leaves the others.
use linux_0_01raf.Prelude.{
  ℕ, ◌+◌, ◌*◌, ◌<◌, ◌≡◌, ◌≢◌, ◌∙◌, ap, refl, sym, Bool, true, false, ltb, some, arith, Bool-cases,
  inl, inr,
}
use linux_0_01raf.Fs.Zones.{Allocator, Zones, bmap, create_block}
use linux_0_01raf.Fs.Zones.Places.{
  Place, in_zone, in_single, in_double, in_leaf, same_place, same_place_lem, value, place_of,
}
use linux_0_01raf.Fs.Zones.Fills.{IsTree}
use linux_0_01raf.Fs.Zones.Blocks.{is_index, Grows}
use linux_0_01raf.Fs.Zones.Answer.{Answers, Answered, bmap-value, create-Answers}

-- the block of the file that a place is for
block_at : Place → ℕ
block_at (in_zone k) = k
block_at (in_single k) = 7 + k
block_at (in_double k) = 0
block_at (in_leaf i j) = 519 + i * 512 + j

block_at-place_of : (block : ℕ) → block_at (place_of block) ≡ block
unfolding block_at place_of
block_at-place_of block = elim (Bool-cases (ltb block 7)) [
  | inl low ↦ rw low refl
  | inr high ↦ elim (Bool-cases (ltb block 519)) [
    | inl low ↦ rw (high, low) (ground arith)
    | inr more ↦ rw (high, more) (ground arith)
  ]
]

-- two blocks of a file have two places
apart : (a b : ℕ) → a ≢ b → same_place (place_of a) (place_of b) ≡ false
apart a b ne = elim (Bool-cases (same_place (place_of a) (place_of b))) [
  | inl same ↦
      absurd (
        ne
          (sym (block_at-place_of a) ∙ ap block_at (same_place_lem _ _ same) ∙ block_at-place_of b))
  | inr other ↦ other
]

is_index-place_of : (block : ℕ) → is_index (place_of block) ≡ false
unfolding is_index place_of
is_index-place_of block = elim (Bool-cases (ltb block 7)) [
  | inl low ↦ rw low (ground arith)
  | inr high ↦ elim (Bool-cases (ltb block 519)) [
    | inl low ↦ rw (high, low) refl
    | inr more ↦ rw (high, more) refl
  ]
]

module _ {S : Type 0} (disk : Allocator S) (readable : ℕ → Bool) where
  -- When every block can be read, the numbers in the inode's zones and blocks of indices are of used blocks,
  -- no number but 0 is at two places, and `block` is below 7 + 512 + 512 * 512, then create_block answers a
  -- number and an inode for which this holds again, and bmap then answers that number for `block`. For every
  -- other block of the file bmap answers as before, and when bmap had a number but 0 for `block`, it is that
  -- number.
  pub create_block-Created :
      (reads : (b : ℕ) → readable b ≡ true) (block : ℕ) (z : Zones S)
      → IsTree disk z
      → block < 7 + 512 + 512 * 512
      → (n : ℕ) × (u : Zones S) × (create_block disk readable block z ≡ some (n, u))
        × IsTree disk u
        × (bmap disk readable block u ≡ some (n, u))
        × ((other : ℕ)
            → other < 7 + 512 + 512 * 512
            → other ≢ block
            → (m : ℕ) × (bmap disk readable other z ≡ some (m, z))
              × (bmap disk readable other u ≡ some (m, u)))
        × ((m : ℕ) → bmap disk readable block z ≡ some (m, z) → m ≢ 0 → n ≡ m)
  unfolding Answered Answers Grows
  create_block-Created reads block z t h =
      let (r, e, a) = create-Answers disk readable reads block z t h in
      let (s, same, kept) = a.0 in
      let at = a.1 in
      (
        r.0,
        r.1,
        e,
        s,
        bmap-value disk readable reads block r.1 h ∙ ap (λ m. some (m, r.1)) at,
        λ other w ne. (
          value z (place_of other),
          bmap-value disk readable reads other z w,
          bmap-value disk readable reads other r.1 w
              ∙ ap (λ m. some (m, r.1))
                  (same (place_of other) (rw (apart other block ne, is_index-place_of other) refl)),
        ),
        λ m w more.
            let old : value z (place_of block) ≡ m =
              cc (w, bmap-value disk readable reads block z h) in
            sym at ∙ kept (place_of block) (λ v. more (sym old ∙ v)) ∙ old,
      )
