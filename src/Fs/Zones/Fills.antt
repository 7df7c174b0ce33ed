-- ===== src/Fs/Zones/Fills.antt =====
-- fs/inode.c: what a new block in an empty place changes.
use linux_0_01raf.Prelude.{
  equal, ℕ, ◌<◌, ◌≡◌, ◌≢◌, ◌∙◌, ap, refl, sym, true, false, not, ◌&&◌, ◌==◌, if◌then◌else◌, List,
  get_or, set, length, get_or-set_self, get_or-set_ne, arith, Bool-cases, inl, inr,
}
use linux_0_01raf.Fs.Zones.{Allocator, Zones}
use linux_0_01raf.Fs.Zones.Places.{
  Place, in_zone, in_single, in_double, in_leaf, same_place, same_place_lem, value, lookup,
  lookup_same, lookup_new,
}

pub get_or-set :
    (zs : List ℕ) (k j b : ℕ)
    → k < length zs
    → get_or (set zs k b) j 0 ≡ (if j == k then b else get_or zs j 0)
get_or-set zs k j b h = elim (Bool-cases (j == k)) [
  | inl same ↦
      rw same (ap (λ i. get_or (set zs k b) i 0) (equal j k same) ∙ get_or-set_self zs k b 0 h)
  | inr other ↦ rw other (get_or-set_ne zs k j b 0 (ground arith))
]

module _ {S : Type 0} (disk : Allocator S) where
  -- the numbers in an inode are of used blocks, and no block has two places
  unfoldable pub IsTree : Zones S → Type 0
  IsTree z =
      (length z.i_zone ≡ 9)
      × ((p : Place) → value z p ≢ 0 → disk.is_used z.store (value z p) ≡ true)
      × ((p q : Place) → value z p ≢ 0 → value z p ≡ value z q → p ≡ q)

  -- a new block `b` in the place `p`
  pub record Filled (p : Place) (b : ℕ) (z u : Zones S) : Type 0 where
    pub size : length u.i_zone ≡ 9
    pub places : (q : Place) → value u q ≡ (if same_place q p then b else value z q)
    pub was_free : disk.is_used z.store b ≡ false
    pub now_used : disk.is_used u.store b ≡ true
    pub kept : (k : ℕ) → disk.is_used z.store k ≡ true → disk.is_used u.store k ≡ true

  -- the new block's number is at no other place
  clash :
      (p : Place) (b : ℕ) (z u : Zones S)
      → IsTree z
      → Filled p b z u
      → (q r : Place) → same_place q p ≡ true
      → same_place r p ≡ false
      → value u q ≢ 0
      → value u q ≢ value u r
  unfolding IsTree
  clash p b z u (n, used, one) f q r here there h e =
      let eq : value u q ≡ b = f.places q ∙ rw here refl in
      let er : value u r ≡ value z r = f.places r ∙ rw there refl in
      let more : value z r ≢ 0 = λ w. h (e ∙ er ∙ w) in cc (used r more, f.was_free, eq, er, e)

  pub Filled-IsTree : (p : Place) (b : ℕ) (z u : Zones S) → IsTree z → Filled p b z u → IsTree u
  unfolding IsTree
  Filled-IsTree p b z u (n, used, one) f = (
    f.size,
    λ q h. elim (Bool-cases (same_place q p)) [
      | inl here ↦ ap (disk.is_used u.store) (f.places q ∙ rw here refl) ∙ f.now_used
      | inr there ↦
          let e : value u q ≡ value z q = f.places q ∙ rw there refl in
          ap (disk.is_used u.store) e ∙ f.kept (value z q) (used q (λ w. h (e ∙ w)))
    ],
    λ q r h e. elim (Bool-cases (same_place q p)) [
      | inl here ↦ elim (Bool-cases (same_place r p)) [
        | inl also ↦ same_place_lem q p here ∙ sym (same_place_lem r p also)
        | inr there ↦ absurd (clash p b z u (n, used, one) f q r here there h e)
      ]
      | inr there ↦ elim (Bool-cases (same_place r p)) [
        | inl here ↦ absurd (clash p b z u (n, used, one) f r q here there (λ w. h (e ∙ w)) (sym e))
        | inr also ↦
            let eq : value u q ≡ value z q = f.places q ∙ rw there refl in
            let er : value u r ≡ value z r = f.places r ∙ rw also refl in
            one q r (λ w. h (eq ∙ w)) (sym eq ∙ e ∙ er)
      ]
    ],
  )

  module _ (z : Zones S) (t : IsTree z) (b : ℕ) (free : disk.is_used z.store b ≡ false) where
    -- no block of the inode is the new one
    fresh : (p : Place) → value z p ≢ 0 → value z p ≢ b
    unfolding IsTree
    fresh p h e = cc (t.1 p h, free, e)

    -- the words, with those of the new block cleared
    abbrev pub cleared : ℕ → ℕ → ℕ
    cleared l j = if not (b == 0) && (l == b) then 0 else z.words l j

    cleared-other : (x j : ℕ) → x ≢ b → cleared x j ≡ z.words x j
    cleared-other x j h = ground arith

    cleared-new : (j : ℕ) → b ≢ 0 → cleared b j ≡ 0
    cleared-new j h = ground arith

    module _ (k : ℕ) (s : S) (hk : k < 9) (e : get_or z.i_zone k 0 ≡ 0) (nb : b ≢ 0) where
      abbrev pub zone_filled : Zones S
      zone_filled = record { i_zone = set z.i_zone k b; words = cleared; store = s }

      zone_at :
          (j : ℕ) → get_or (set z.i_zone k b) j 0 ≡ (if j == k then b else get_or z.i_zone j 0)
      unfolding IsTree
      zone_at j = get_or-set z.i_zone k j b (omega (arith, t.0))

      -- a word of the block in the zone `a`
      word_at :
          (a j : ℕ)
          → (get_or z.i_zone a 0 ≢ 0 → get_or z.i_zone a 0 ≢ b)
          → lookup cleared (get_or (set z.i_zone k b) a 0) j
            ≡ lookup z.words (get_or z.i_zone a 0) j
      word_at a j f = elim (Bool-cases (a == k)) [
        | inl here ↦
            let new : get_or (set z.i_zone k b) a 0 ≡ b = zone_at a ∙ rw here refl in
            lookup_new z.words cleared (get_or z.i_zone a 0) (get_or (set z.i_zone k b) a 0) j
              (ap (λ q. get_or z.i_zone q 0) (equal a k here) ∙ e)
              (ap (λ x. cleared x j) new ∙ cleared-new j nb)
        | inr there ↦
            lookup_same z.words cleared (get_or z.i_zone a 0) (get_or (set z.i_zone k b) a 0) j
              (zone_at a ∙ rw there refl) (λ h. cleared-other _ j (f h))
      ]

      pub zone_places :
          (q : Place) → value zone_filled q ≡ (if same_place q (in_zone k) then b else value z q)
      unfolding value same_place
      zone_places (in_zone j) = zone_at j
      zone_places (in_single j) = word_at 7 j (fresh (in_zone 7))
      zone_places (in_double j) = word_at 8 j (fresh (in_zone 8))
      zone_places (in_leaf i j) =
          lookup_same z.words cleared (value z (in_double i)) _ j (word_at 8 i (fresh (in_zone 8)))
            (λ h. cleared-other _ j (fresh (in_double i) h))

    -- the word `k` of the block `blk`
    module _ (blk k : ℕ) (s : S) (old : blk ≢ b) (nb : b ≢ 0) where
      abbrev pub written : ℕ → ℕ → ℕ
      written l j = if (l == blk) && (j == k) then b else cleared l j

      abbrev pub word_filled : Zones S
      word_filled = record { i_zone = z.i_zone; words = written; store = s }

      written-other : (x j : ℕ) → x ≢ blk → x ≢ b → written x j ≡ z.words x j
      written-other x j h g = ground arith

      written-same : (j : ℕ) → written blk j ≡ (if j == k then b else z.words blk j)
      written-same j = ground arith

      written-new : (j : ℕ) → written b j ≡ 0
      written-new j = ground arith

      -- a word of another block of the inode
      other_at :
          (p : Place) (j : ℕ)
          → value z p ≢ blk
          → lookup written (value z p) j ≡ lookup z.words (value z p) j
      other_at p j ne =
          lookup_same z.words written (value z p) (value z p) j refl
            (λ h. written-other _ j ne (fresh p h))

      apart : (p q : Place) → value z q ≢ 0 → p ≢ q → value z p ≢ value z q
      unfolding IsTree
      apart p q h ne e = ne (t.2 p q (λ w. h (sym e ∙ w)) e)

      -- the word of the block that is written
      own_at :
          (j : ℕ) → blk ≢ 0 → lookup written blk j ≡ (if j == k then b else lookup z.words blk j)
      own_at j h = ground (arith, written-same j)

      -- a leaf whose block is another one, reached through words that are left
      leaf_at :
          (i j : ℕ)
          → get_or z.i_zone 8 0 ≢ blk
          → value z (in_double i) ≢ blk
          → value word_filled (in_leaf i j) ≡ value z (in_leaf i j)
      unfolding value
      leaf_at i j h g =
          lookup_same z.words written (value z (in_double i)) _ j (other_at (in_zone 8) i h)
            (λ w. written-other _ j g (fresh (in_double i) w))

      pub single_places :
          blk ≡ get_or z.i_zone 7 0
          → blk ≢ 0
          → (q : Place)
          → value word_filled q ≡ (if same_place q (in_single k) then b else value z q)
      unfolding value same_place
      single_places e h (in_zone j) = refl
      single_places e h (in_single j) = rw (sym e) (own_at j h)
      single_places e h (in_double j) =
          other_at (in_zone 8) j
            (λ w. apart (in_zone 8) (in_zone 7) (λ v. h (e ∙ v)) (λ v. cc v) (w ∙ e))
      single_places e h (in_leaf i j) =
          leaf_at i j (λ w. apart (in_zone 8) (in_zone 7) (λ v. h (e ∙ v)) (λ v. cc v) (w ∙ e))
            (λ w. apart (in_double i) (in_zone 7) (λ v. h (e ∙ v)) (λ v. cc v) (w ∙ e))

      pub double_places :
          blk ≡ get_or z.i_zone 8 0
          → blk ≢ 0
          → value z (in_double k) ≡ 0
          → (q : Place)
          → value word_filled q ≡ (if same_place q (in_double k) then b else value z q)
      unfolding value same_place
      double_places e h empty (in_zone j) = refl
      double_places e h empty (in_single j) =
          other_at (in_zone 7) j
            (λ w. apart (in_zone 7) (in_zone 8) (λ v. h (e ∙ v)) (λ v. cc v) (w ∙ e))
      double_places e h empty (in_double j) = rw (sym e) (own_at j h)
      double_places e h empty (in_leaf i j) = elim (Bool-cases (i == k)) [
        | inl here ↦
            let new : lookup written (get_or z.i_zone 8 0) i ≡ b =
              ap (λ x. lookup written x i) (sym e) ∙ own_at i h ∙ rw here refl in
            lookup_new z.words written (value z (in_double i)) _ j
              (ap (λ x. value z (in_double x)) (equal i k here) ∙ empty)
              (ap (λ x. written x j) new ∙ written-new j)
        | inr there ↦
            let kept : lookup written (get_or z.i_zone 8 0) i ≡ value z (in_double i) =
              ap (λ x. lookup written x i) (sym e)
              ∙ own_at i h
              ∙ rw there (ap (λ x. lookup z.words x i) e) in
            lookup_same z.words written (value z (in_double i)) _ j kept (λ w.
              written-other _ j
                (λ v. apart (in_double i) (in_zone 8) (λ u. h (e ∙ u)) (λ u. cc u) (v ∙ e))
                (fresh (in_double i) w))
      ]

      pub leaf_places :
          (a : ℕ)
          → blk ≡ value z (in_double a)
          → blk ≢ 0
          → (q : Place)
          → value word_filled q ≡ (if same_place q (in_leaf a k) then b else value z q)
      unfolding value same_place
      leaf_places a e h (in_zone j) = refl
      leaf_places a e h (in_single j) =
          other_at (in_zone 7) j
            (λ w. apart (in_zone 7) (in_double a) (λ v. h (e ∙ v)) (λ v. cc v) (w ∙ e))
      leaf_places a e h (in_double j) =
          other_at (in_zone 8) j
            (λ w. apart (in_zone 8) (in_double a) (λ v. h (e ∙ v)) (λ v. cc v) (w ∙ e))
      leaf_places a e h (in_leaf i j) =
          let at8 : get_or z.i_zone 8 0 ≢ blk =
            λ w. apart (in_zone 8) (in_double a) (λ v. h (e ∙ v)) (λ v. cc v) (w ∙ e) in
          elim (Bool-cases (i == a)) [
            | inl here ↦
                let ind : value z (in_double i) ≡ blk =
                  ap (λ x. value z (in_double x)) (equal i a here) ∙ sym e in
                let now : lookup written (get_or z.i_zone 8 0) i ≡ blk =
                  other_at (in_zone 8) i at8 ∙ ind in
                rw here (
                  ap (λ x. lookup written x j) now
                  ∙ own_at j h
                  ∙ ap (λ x. if j == k then b else lookup z.words x j) (sym ind))
            | inr there ↦ rw there (
                leaf_at i j at8 (λ w.
                  apart (in_double i) (in_double a) (λ v. h (e ∙ v))
                    (λ v. let ia : i ≡ a = cc v in ground arith) (w ∙ e)))
          ]
