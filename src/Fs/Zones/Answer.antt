-- ===== src/Fs/Zones/Answer.antt =====
-- fs/inode.c: what bmap and create_block answer.
use linux_0_01raf.Prelude.{
  ℕ, ◌+◌, ◌-◌, ◌*◌, ◌/◌, ◌%◌, ◌<◌, ◌≡◌, ◌≢◌, ◌∙◌, ap, refl, sym, subst, Bool, true, false, ltb, leb,
  ◌==◌, some, get_or, arith, Bool-cases, inl, inr,
}
use linux_0_01raf.Fs.Zones.{
  Allocator, Zones, fill_zone, fill_word, single, double, bmap_or_create, bmap, create_block,
}
use linux_0_01raf.Fs.Zones.Places.{
  Place, in_zone, in_single, in_double, in_leaf, same_place_self, value, lookup, place_of,
}
use linux_0_01raf.Fs.Zones.Fills.{IsTree, single_places, double_places, leaf_places}
use linux_0_01raf.Fs.Zones.Blocks.{
  is_index, may_fill, Grows, Grows-refl, Grows-trans, fill_zone-Grows, fill_word-Grows,
}

module _ {S : Type 0} (disk : Allocator S) (readable : ℕ → Bool)
    (reads : (b : ℕ) → readable b ≡ true) (target : Place) where
  -- what a step answers is the number at a place
  unfoldable pub Answers : Place → Zones S → ℕ × Zones S → Type 0
  Answers p z r = Grows disk target z r.1 × (value r.1 p ≡ r.0)

  owned :
      (z : Zones S)
      → IsTree disk z
      → (p : Place) → value z p ≢ 0
      → disk.is_used z.store (value z p) ≡ true
  unfolding IsTree
  owned z t p h = t.1 p h

  Grows-IsTree : (z u : Zones S) → Grows disk target z u → IsTree disk u
  unfolding Grows
  Grows-IsTree z u g = g.0

  word_in : (w : ℕ → ℕ → ℕ) (x j : ℕ) → x ≢ 0 → lookup w x j ≡ w x j
  word_in w x j h = ground arith

  no_word : (w : ℕ → ℕ → ℕ) (x j : ℕ) → (x == 0) ≡ true → lookup w x j ≡ 0
  no_word w x j h = rw h refl

  single-Answers :
      (k : ℕ) (z : Zones S)
      → IsTree disk z
      → may_fill disk target (in_single k) ≡ true
      → Answers (in_single k) z (single disk readable true k z)
  unfolding Answers single value
  single-Answers k z t m = elim (Bool-cases (get_or z.i_zone 7 0 == 0)) [
    | inl none_ ↦ rw none_ (Grows-refl disk target z t, no_word z.words _ k none_)
    | inr there ↦
        let h : get_or z.i_zone 7 0 ≢ 0 = ground arith in
        rw (there, reads (get_or z.i_zone 7 0))
          (fill_word-Grows disk target readable z t (in_single k) (get_or z.i_zone 7 0) k h
            (owned z t (in_zone 7) h) (word_in z.words _ k h) m
            (λ b free s old nb e.
              single_places disk z t b free (get_or z.i_zone 7 0) k s old nb refl h))
  ]

  leaf_none : (z : Zones S) (a k : ℕ) → value z (in_double a) ≡ 0 → value z (in_leaf a k) ≡ 0
  unfolding value
  leaf_none z a k h = ap (λ x. lookup z.words x k) h

  double_word :
      (k : ℕ) (z : Zones S)
      → IsTree disk z
      → may_fill disk target (in_double k) ≡ true
      → get_or z.i_zone 8 0 ≢ 0
      → Answers (in_double k) z (fill_word disk readable (get_or z.i_zone 8 0) k z)
  unfolding Answers value
  double_word k z t m h =
      fill_word-Grows disk target readable z t (in_double k) (get_or z.i_zone 8 0) k h
        (owned z t (in_zone 8) h) (word_in z.words _ k h) m
        (λ b free s old nb e.
          double_places disk z t b free (get_or z.i_zone 8 0) k s old nb refl h e)

  leaf_word :
      (a k blk : ℕ) (z : Zones S)
      → IsTree disk z
      → may_fill disk target (in_leaf a k) ≡ true
      → value z (in_double a) ≡ blk
      → blk ≢ 0
      → Answers (in_leaf a k) z (fill_word disk readable blk k z)
  unfolding Answers value
  leaf_word a k blk z t m e h =
      fill_word-Grows disk target readable z t (in_leaf a k) blk k h
        (subst (λ x. disk.is_used z.store x ≡ true) e
          (owned z t (in_double a) (λ w. h (sym e ∙ w))))
        (ap (λ x. lookup z.words x k) e ∙ word_in z.words blk k h) m
        (λ b free s old nb x. leaf_places disk z t b free blk k s old nb a (sym e) h)

  double-Answers :
      (k : ℕ) (z : Zones S)
      → IsTree disk z
      → may_fill disk target (in_double (k / 512)) ≡ true
      → may_fill disk target (in_leaf (k / 512) (k % 512)) ≡ true
      → Answers (in_leaf (k / 512) (k % 512)) z (double disk readable true k z)
  unfolding Answers double value
  double-Answers k z t m n = elim (Bool-cases (get_or z.i_zone 8 0 == 0)) [
    | inl none_ ↦ rw none_ (
      Grows-refl disk target z t,
      leaf_none z (k / 512) (k % 512) (no_word z.words _ (k / 512) none_),
    )
    | inr there ↦
        let ind = get_or z.i_zone 8 0 in
        let r = fill_word disk readable ind (k / 512) z in
        let one : Answers (in_double (k / 512)) z r = double_word (k / 512) z t m (ground arith) in
        rw (there, reads ind)
          (elim (Bool-cases (r.0 == 0)) [
            | inl full ↦ rw full (one.0, leaf_none r.1 (k / 512) (k % 512) (one.1 ∙ ground arith))
            | inr more ↦
                let two =
                  leaf_word (k / 512) (k % 512) r.0 r.1 (Grows-IsTree z r.1 one.0) n one.1
                    (ground arith) in
                rw (more, reads r.0) (Grows-trans disk target z r.1 _ one.0 two.0, two.1)
          ])
  ]

  zone-Answers :
      (k : ℕ) (z : Zones S)
      → IsTree disk z
      → k < 9
      → may_fill disk target (in_zone k) ≡ true
      → Answers
          (in_zone k)
          z
          (get_or (fill_zone disk readable k z).i_zone k 0, fill_zone disk readable k z)
  unfolding Answers value
  zone-Answers k z t h m = (fill_zone-Grows disk target readable z t k h m, refl)

  -- the zone of a block of indices first
  then-Answers :
      (k : ℕ) (p : Place) (z : Zones S) (f : Zones S → ℕ × Zones S)
      → IsTree disk z
      → k < 9
      → may_fill disk target (in_zone k) ≡ true
      → ((u : Zones S) → IsTree disk u → Answers p u (f u))
      → Answers p z (f (fill_zone disk readable k z))
  unfolding Answers
  then-Answers k p z f t h m g =
      let one = fill_zone-Grows disk target readable z t k h m in
      let two = g (fill_zone disk readable k z) (Grows-IsTree z _ one) in
      (Grows-trans disk target z (fill_zone disk readable k z) _ one two.0, two.1)

module _ {S : Type 0} (disk : Allocator S) (readable : ℕ → Bool)
    (reads : (b : ℕ) → readable b ≡ true) where
  single-value : (k : ℕ) (z : Zones S) → single disk readable false k z ≡ (value z (in_single k), z)
  unfolding single value
  single-value k z = elim (Bool-cases (get_or z.i_zone 7 0 == 0)) [
    | inl none_ ↦ rw none_ refl
    | inr there ↦ rw (there, reads (get_or z.i_zone 7 0)) refl
  ]

  double-value :
      (k : ℕ) (z : Zones S)
      → double disk readable false k z ≡ (value z (in_leaf (k / 512) (k % 512)), z)
  unfolding double value
  double-value k z = elim (Bool-cases (get_or z.i_zone 8 0 == 0)) [
    | inl none_ ↦ rw none_ refl
    | inr there ↦ elim (Bool-cases (z.words (get_or z.i_zone 8 0) (k / 512) == 0)) [
      | inl none_ ↦ rw (there, reads (get_or z.i_zone 8 0), none_) refl
      | inr more ↦
          rw
            (
              there,
              reads (get_or z.i_zone 8 0),
              more,
              reads (z.words (get_or z.i_zone 8 0) (k / 512)),
            )
            refl
    ]
  ]

  within : (block : ℕ) → block < 7 + 512 + 512 * 512 → leb (7 + 512 + 512 * 512) block ≡ false
  within block h = ground arith

  pub bmap-value :
      (block : ℕ) (z : Zones S)
      → block < 7 + 512 + 512 * 512
      → bmap disk readable block z ≡ some (value z (place_of block), z)
  unfolding bmap bmap_or_create value place_of
  bmap-value block z h = elim (Bool-cases (ltb block 7)) [
    | inl low ↦ rw (within block h, low) refl
    | inr high ↦ elim (Bool-cases (ltb block 519)) [
      | inl low ↦ rw (within block h, high, low) (ap some (single-value (block - 7) z))
      | inr more ↦ rw (within block h, high, more) (ap some (double-value (block - 519) z))
    ]
  ]

  place_of_own : (block : ℕ) → may_fill disk (place_of block) (place_of block) ≡ true
  place_of_own block = rw (same_place_self (place_of block)) refl

  index_filled :
      (block : ℕ) (p : Place) → is_index p ≡ true → may_fill disk (place_of block) p ≡ true
  index_filled block p h = ground arith

  place_low : (block : ℕ) → ltb block 7 ≡ true → place_of block ≡ in_zone block
  unfolding place_of
  place_low block h = rw h refl

  place_single :
      (block : ℕ)
      → ltb block 7 ≡ false
      → ltb block 519 ≡ true
      → place_of block ≡ in_single (block - 7)
  unfolding place_of
  place_single block h g = rw (h, g) refl

  place_leaf :
      (block : ℕ)
      → ltb block 7 ≡ false
      → ltb block 519 ≡ false
      → place_of block ≡ in_leaf ((block - 519) / 512) ((block - 519) % 512)
  unfolding place_of
  place_leaf block h g = rw (h, g) refl

  own_at : (block : ℕ) (p : Place) → place_of block ≡ p → may_fill disk (place_of block) p ≡ true
  own_at block p e = subst (λ q. may_fill disk (place_of block) q ≡ true) e (place_of_own block)

  unfoldable pub Answered : ℕ → Zones S → ℕ × Zones S → Type 0
  Answered block z r = Answers disk readable reads (place_of block) (place_of block) z r

  at :
      (block : ℕ) (p : Place) (z : Zones S) (r : ℕ × Zones S)
      → place_of block ≡ p
      → Answers disk readable reads (place_of block) p z r
      → Answered block z r
  unfolding Answered
  at block p z r e a = subst (λ q. Answers disk readable reads (place_of block) q z r) (sym e) a

  pub create-Answers :
      (block : ℕ) (z : Zones S)
      → IsTree disk z
      → block < 7 + 512 + 512 * 512
      → (r : ℕ × Zones S) × (create_block disk readable block z ≡ some r) × Answered block z r
  unfolding create_block bmap_or_create is_index
  create-Answers block z t h = elim (Bool-cases (ltb block 7)) [
    | inl low ↦
        let e = place_low block low in
        (
          _,
          rw (within block h, low) refl,
          at block _ z _ e (
              zone-Answers disk readable reads (place_of block) block z t (ground arith)
                (own_at block _ e)),
        )
    | inr high ↦ elim (Bool-cases (ltb block 519)) [
      | inl low ↦
          let e = place_single block high low in
          (
            _,
            rw (within block h, high, low) refl,
            at block _ z _ e (
                then-Answers disk readable reads (place_of block) 7 _ z
                  (single disk readable true (block - 7)) t (omega arith)
                  (index_filled block (in_zone 7) refl)
                  (λ u s.
                    single-Answers disk readable reads (place_of block) (block - 7) u s
                      (own_at block _ e))),
          )
      | inr more ↦
          let e = place_leaf block high more in
          (
            _,
            rw (within block h, high, more) refl,
            at block _ z _ e (
                then-Answers disk readable reads (place_of block) 8 _ z
                  (double disk readable true (block - 519)) t (omega arith)
                  (index_filled block (in_zone 8) refl)
                  (λ u s.
                    double-Answers disk readable reads (place_of block) (block - 519) u s
                      (index_filled block (in_double ((block - 519) / 512)) refl)
                      (own_at block _ e))),
          )
    ]
  ]
