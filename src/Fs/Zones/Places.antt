-- ===== src/Fs/Zones/Places.antt =====
-- fs/inode.c: the places where an inode keeps numbers of blocks.
use linux_0_01raf.Prelude.{
  equal, ℕ, ◌-◌, ◌/◌, ◌%◌, ◌≡◌, ◌≢◌, ap, refl, Bool, true, false, ◌&&◌, ltb, ◌==◌, if◌then◌else◌,
  get_or, arith, Bool-cases, inl, inr,
}
use linux_0_01raf.Fs.Zones.{Zones}

pub data Place : Type 0 where
  in_zone in_single in_double : ℕ → Place
  in_leaf : ℕ → ℕ → Place

unfoldable pub same_place : Place → Place → Bool
same_place (in_zone k) (in_zone l) = k == l
same_place (in_single k) (in_single l) = k == l
same_place (in_double k) (in_double l) = k == l
same_place (in_leaf k i) (in_leaf l j) = (k == l) && (i == j)
same_place p q = false

pub same_place_lem : (p q : Place) → same_place p q ≡ true → p ≡ q
unfolding same_place
same_place_lem (in_zone k) (in_zone l) h = ap in_zone (equal k l h)
same_place_lem (in_single k) (in_single l) h = ap in_single (equal k l h)
same_place_lem (in_double k) (in_double l) h = ap in_double (equal k l h)
same_place_lem (in_leaf k i) (in_leaf l j) h =
    λ t. in_leaf (equal k l (ground arith) t) (equal i j (ground arith) t)
same_place_lem _ _ h = absurd (cc h)

same_self : (k : ℕ) → (k == k) ≡ true
same_self k = ground arith

pub same_place_self : (p : Place) → same_place p p ≡ true
unfolding same_place
same_place_self (in_zone k) = same_self k
same_place_self (in_single k) = same_self k
same_place_self (in_double k) = same_self k
same_place_self (in_leaf k j) = rw (same_self k) (same_self j)

-- the word `j` of the block `x`, if there is a block
abbrev pub lookup : (ℕ → ℕ → ℕ) → ℕ → ℕ → ℕ
lookup words x j = if x == 0 then 0 else words x j

-- the number at a place, 0 where there is none
unfoldable pub value : {S : Type 0} → Zones S → Place → ℕ
value z (in_zone k) = get_or z.i_zone k 0
value z (in_single k) = lookup z.words (get_or z.i_zone 7 0) k
value z (in_double k) = lookup z.words (get_or z.i_zone 8 0) k
value z (in_leaf k j) = lookup z.words (lookup z.words (get_or z.i_zone 8 0) k) j

pub lookup_same :
    (w v : ℕ → ℕ → ℕ) (x y j : ℕ) → y ≡ x → (x ≢ 0 → v x j ≡ w x j) → lookup v y j ≡ lookup w x j
lookup_same w v x y j e h = elim (Bool-cases (x == 0)) [
  | inl z ↦ rw (e, z) refl
  | inr more ↦ rw (e, more) (h (ground arith))
]

pub lookup_new : (w v : ℕ → ℕ → ℕ) (x y j : ℕ) → x ≡ 0 → v y j ≡ 0 → lookup v y j ≡ lookup w x j
lookup_new w v x y j e h =
    rw e (elim (Bool-cases (y == 0)) [ inl z ↦ rw z refl | inr more ↦ rw more h ])

-- the place for a block of the file
unfoldable pub place_of : ℕ → Place
place_of block =
    if ltb block 7
    then in_zone block
    else if ltb block 519
    then in_single (block - 7)
    else in_leaf ((block - 519) / 512) ((block - 519) % 512)
