-- ===== src/Fs/Zones/Blocks.antt =====
-- fs/inode.c: create_block makes one block of the file and leaves the others.
use linux_0_01raf.Prelude.{
  ℕ, ◌%◌, ◌^◌, ◌<◌, ◌≡◌, ◌≢◌, ◌∙◌, ap, refl, sym, subst, Bool, true, false, ◌||◌, leb, ◌==◌,
  if◌then◌else◌, get_or, length, length-set, arith, Bool-cases, ◌⊎◌, inl, inr,
}
use linux_0_01raf.Fs.Zones.{Allocator, Zones, allocate, fill_zone, fill_word}
use linux_0_01raf.Fs.Zones.Places.{
  Place, in_zone, in_single, in_double, in_leaf, same_place, same_place_lem, same_place_self, value,
  lookup_same,
}
use linux_0_01raf.Fs.Zones.Fills.{
  IsTree, Filled, Filled-IsTree, zone_filled, zone_places, word_filled,
}

pick :
    {A : Type 0} (c d : Bool) (x y w : A)
    → c ≡ true
    → d ≡ false
    → (if c then (if d then x else y) else w) ≡ y
pick c d x y w e f = rw (e, f) refl

unfoldable pub is_index : Place → Bool
is_index (in_zone k) = leb 7 k
is_index (in_single k) = false
is_index (in_double k) = true
is_index (in_leaf k j) = false

module _ {S : Type 0} (disk : Allocator S) (target : Place) where
  -- the places that may get a block on the way to the target
  abbrev pub may_fill : Place → Bool
  may_fill q = same_place q target || is_index q

  -- from `z` to `u` such places were filled, and no number was changed
  unfoldable pub Grows : Zones S → Zones S → Type 0
  Grows z u =
      IsTree disk u
      × ((q : Place) → may_fill q ≡ false → value u q ≡ value z q)
      × ((q : Place) → value z q ≢ 0 → value u q ≡ value z q)

  pub Grows-refl : (z : Zones S) → IsTree disk z → Grows z z
  unfolding Grows
  Grows-refl z t = (t, λ q h. refl, λ q h. refl)

  pub Grows-trans : (z u v : Zones S) → Grows z u → Grows u v → Grows z v
  unfolding Grows
  Grows-trans z u v (t, a, b) (s, c, d) =
      (s, λ q h. c q h ∙ a q h, λ q h. d q (λ w. h (sym (b q h) ∙ w)) ∙ b q h)

  Filled-Grows :
      (p : Place) (b : ℕ) (z u : Zones S)
      → IsTree disk z
      → Filled disk p b z u
      → may_fill p ≡ true
      → value z p ≡ 0
      → Grows z u
  unfolding Grows
  Filled-Grows p b z u t f m e = (
    Filled-IsTree disk p b z u t f,
    λ q h. elim (Bool-cases (same_place q p)) [
      | inl here ↦ cc (same_place_lem q p here, m, h)
      | inr there ↦ f.places q ∙ rw there refl
    ],
    λ q h. elim (Bool-cases (same_place q p)) [
      | inl here ↦ absurd (h (ap (value z) (same_place_lem q p here) ∙ e))
      | inr there ↦ f.places q ∙ rw there refl
    ],
  )

  -- the same numbers, with another state of the allocator
  same_values :
      (z u : Zones S)
      → u.i_zone ≡ z.i_zone
      → ((l j : ℕ) → u.words l j ≡ z.words l j)
      → (q : Place) → value u q ≡ value z q
  unfolding value
  same_values z u e w (in_zone k) = ap (λ zs. get_or zs k 0) e
  same_values z u e w (in_single k) =
      lookup_same z.words u.words _ _ k (ap (λ zs. get_or zs 7 0) e) (λ h. w _ k)
  same_values z u e w (in_double k) =
      lookup_same z.words u.words _ _ k (ap (λ zs. get_or zs 8 0) e) (λ h. w _ k)
  same_values z u e w (in_leaf k j) =
      lookup_same z.words u.words (value z (in_double k)) _ j
        (lookup_same z.words u.words _ _ k (ap (λ zs. get_or zs 8 0) e) (λ h. w _ k)) (λ h. w _ j)

  full-Grows :
      (z u : Zones S)
      → IsTree disk z
      → u.i_zone ≡ z.i_zone
      → ((l j : ℕ) → u.words l j ≡ z.words l j)
      → ((b : ℕ) → disk.is_used z.store b ≡ true → disk.is_used u.store b ≡ true)
      → Grows z u
  unfolding Grows IsTree
  full-Grows z u (n, used, one) e w k =
      let v = same_values z u e w in
      (
        (
          ap length e ∙ n,
          λ p h. ap (disk.is_used u.store) (v p) ∙ k (value z p) (used p (λ x. h (v p ∙ x))),
          λ p q h x. one p q (λ y. h (v p ∙ y)) (sym (v p) ∙ x ∙ v q),
        ),
        λ q h. v q,
        λ q h. v q,
      )

  size_of : (z : Zones S) → IsTree disk z → length z.i_zone ≡ 9
  unfolding IsTree
  size_of z t = t.0

  -- a call of new_block
  new_cases :
      (s : S)
      → (((disk.new_block s).0 == 0) ≡ true)
        ⊎ ((((disk.new_block s).0 == 0) ≡ false)
            × (disk.is_used s (disk.new_block s).0 ≡ false)
            × (disk.is_used (disk.new_block s).1 (disk.new_block s).0 ≡ true))
  new_cases s = elim (Bool-cases ((disk.new_block s).0 == 0)) [
    | inl z ↦ inl z
    | inr more ↦ elim (disk.fresh s) [
      | inl e ↦ absurd (ground arith)
      | inr (a, b) ↦ inr (more, a, b)
    ]
  ]

  module _ (readable : ℕ → Bool) (z : Zones S) (t : IsTree disk z) where
    abbrev new : ℕ
    new = (disk.new_block z.store).0

    short : new % 2 ^ 16 ≡ new
    short = omega (arith, disk.bounded z.store)

    abbrev store : S
    store = (disk.new_block z.store).1

    pub fill_zone-Grows :
        (k : ℕ) → k < 9 → may_fill (in_zone k) ≡ true → Grows z (fill_zone disk readable k z)
    unfolding fill_zone allocate value
    fill_zone-Grows k hk m = elim (Bool-cases (get_or z.i_zone k 0 == 0)) [
      | inr there ↦ rw there (Grows-refl z t)
      | inl empty ↦ elim (new_cases z.store) [
        | inl full ↦
            rw (empty, short, full)
              (full-Grows z _ t refl (λ l j. refl) (λ b h. disk.kept z.store b h))
        | inr (more, free, used) ↦
            let e : get_or z.i_zone k 0 ≡ 0 = ground arith in
            let nb : new ≢ 0 = ground arith in
            let u = zone_filled disk z t new free k store hk e nb in
            let same : u ≡ fill_zone disk readable k z = rw (empty, short, more) refl in
            subst (λ v. Grows z v) same
              (Filled-Grows (in_zone k) new z u t
                (record {
                  size = length-set z.i_zone k new ∙ size_of z t;
                  places = zone_places disk z t new free k store hk e nb;
                  was_free = free;
                  now_used = used;
                  kept = λ b h. disk.kept z.store b h;
                })
                m e)
      ]
    ]

    -- a word of a block of the inode, at the place `p`
    module _ (p : Place) (blk k : ℕ) (h : blk ≢ 0) (owned : disk.is_used z.store blk ≡ true)
        (here : value z p ≡ z.words blk k) (m : may_fill p ≡ true)
        (places : (b : ℕ) (free : disk.is_used z.store b ≡ false) (s : S) (old : blk ≢ b)
            (nb : b ≢ 0)
          → value z p ≡ 0
          → (q : Place)
          → value (word_filled disk z t b free blk k s old nb) q
            ≡ (if same_place q p then b else value z q)) where
      pub fill_word-Grows :
          Grows z (fill_word disk readable blk k z).1
          × (value (fill_word disk readable blk k z).1 p ≡ (fill_word disk readable blk k z).0)
      unfolding fill_word allocate
      fill_word-Grows = elim (Bool-cases (z.words blk k == 0)) [
        | inr there ↦ rw there (Grows-refl z t, here)
        | inl empty ↦ elim (new_cases z.store) [
          | inl full ↦
              rw (empty, full)
                (
                  full-Grows z _ t refl (λ l j. refl) (λ b w. disk.kept z.store b w),
                  same_values z _ refl (λ l j. refl) p ∙ here ∙ ground arith,
                )
          | inr (more, free, used) ↦
              let e : value z p ≡ 0 = here ∙ ground arith in
              let nb : new ≢ 0 = ground arith in
              let old : blk ≢ new = λ w. cc (owned, free, w) in
              let u = word_filled disk z t new free blk k store old nb in
              let f = places new free store old nb e in
              let same : (new, u) ≡ fill_word disk readable blk k z =
                rw short (sym (pick (z.words blk k == 0) (new == 0) _ _ _ empty more)) in
              subst (λ v. Grows z v.1 × (value v.1 p ≡ v.0)) same
                (
                  Filled-Grows p new z u t
                      (record {
                        size = size_of z t;
                        places = f;
                        was_free = free;
                        now_used = used;
                        kept = λ b w. disk.kept z.store b w;
                      })
                      m e,
                  f p ∙ rw (same_place_self p) refl,
                )
        ]
      ]
