-- ===== src/Crypt/Sort/Sorted.antt =====
-- The partition step and the whole sort: what they exchange, and that the letters come out ordered.
use linux_0_01raf.Prelude.{
  ℕ, zero, suc, ◌+◌, ◌-◌, ◌≤◌, ◌<◌, ◌≡◌, ◌∙◌, inl, inr, true, false, arith, ltb, ◌==◌,
  if◌then◌else◌, Bool-cases,
}
use linux_0_01raf.Crypt.Sort.{
  Arrays, key_at, char_le, exchange, partition_loop, partition, sort_index_and_global,
}
use linux_0_01raf.Crypt.Sort.Shuffle.{
  Shuffle, same, next, trans, widen, Fits, Fits-exchange, get_or-swap, Shuffle-Fits,
  Shuffle-outside, Shuffle-all,
}

-- the letters of `s` from `lo` up to `i` are at most the pivot, those from `i` up to `j` are above it
pub record Split (pivot lo i j : ℕ) (s : Arrays) : Type 0 where
  pub below : (k : ℕ) → lo ≤ k → k < i → char_le (key_at s k) pivot ≡ true
  pub above : (k : ℕ) → i ≤ k → k < j → char_le (key_at s k) pivot ≡ false

key_at-exchange :
    {hi : ℕ} {s : Arrays} (i j k : ℕ)
    → Fits hi s
    → i < hi
    → j < hi
    → key_at (exchange i j s) k
      ≡ (if k == j then key_at s i else if k == i then key_at s j else key_at s k)
unfolding exchange
key_at-exchange {s} i j k f a b =
    get_or-swap s.global_key_local i j k (omega (arith, f.key_fits)) (omega (arith, f.key_fits))

Split-keep :
    {pivot lo i j hi : ℕ} {s : Arrays}
    → Fits hi s
    → lo ≤ i
    → i ≤ j
    → j < hi
    → char_le (key_at s j) pivot ≡ true
    → Split pivot lo i j s
    → Split pivot lo (i + 1) (j + 1) (exchange i j s)
Split-keep {i} {j} f a b c e p = record {
  below = λ k l u. rw (key_at-exchange i j k f (omega arith) c) (ground (arith, p.below k));
  above =
      λ k l u. rw (key_at-exchange i j k f (omega arith) c) (ground (arith, p.above k, p.above i));
}

Split-skip :
    {pivot lo i j : ℕ} {s : Arrays}
    → char_le (key_at s j) pivot ≡ false
    → Split pivot lo i j s
    → Split pivot lo i (j + 1) s
Split-skip {j} {s} e p = record {
  below = p.below;
  above = λ k l u. elim (Bool-cases (k == j)) [
    | inl q ↦ ground (arith, p.above k)
    | inr q ↦ p.above k l (ground arith)
  ];
}

-- what the loop has done when it stops
record Looped (pivot lo hi j : ℕ) (s : Arrays) (out : ℕ × Arrays) : Type 0 where
  moves : Shuffle lo hi s out.1
  low_end : lo ≤ out.0
  high_end : out.0 ≤ j
  split : Split pivot lo out.0 j out.1

partition_loop-Looped :
    (rounds pivot j i lo hi j' : ℕ) (s : Arrays)
    → j + rounds ≡ j'
    → j' ≤ hi
    → lo ≤ i
    → i ≤ j
    → Fits hi s
    → Split pivot lo i j s
    → Looped pivot lo hi j' s (partition_loop rounds pivot j i s)
unfolding partition_loop
partition_loop-Looped zero pivot j i lo hi j' s e h a b f p =
    let e' : j ≡ j' = omega arith in
    record { moves = same; low_end = a; high_end = omega arith; split = rw (← e') p }
partition_loop-Looped (suc rounds) pivot j i lo hi j' s e h a b f p =
    elim (Bool-cases (char_le (key_at s j) pivot)) [
      | inl keep ↦
          let rest =
            partition_loop-Looped rounds pivot (j + 1) (i + 1) lo hi j' (exchange i j s)
              (omega arith) h (omega arith) (omega arith) (Fits-exchange i j f)
              (Split-keep f a b (omega arith) keep p) in
          rw keep (record {
            moves = next i j a (omega arith) (omega arith) (omega arith) rest.moves;
            low_end = rest.low_end;
            high_end = rest.high_end;
            split = rest.split;
          })
      | inr skip ↦ rw skip (
          partition_loop-Looped rounds pivot (j + 1) i lo hi j' s (omega arith) h a (omega arith) f
            (Split-skip skip p))
    ]

-- what `partition` returns: the pivot's place, and the arrays divided by it
pub record Parted (lo high : ℕ) (s : Arrays) (out : ℕ × Arrays) : Type 0 where
  pub moves : Shuffle lo (suc high) s out.1
  pub low_end : lo ≤ out.0
  pub high_end : out.0 ≤ high
  pub below : (k : ℕ) → lo ≤ k → k < out.0 → char_le (key_at out.1 k) (key_at out.1 out.0) ≡ true
  pub above :
      (k : ℕ) → out.0 < k → k < suc high → char_le (key_at out.1 k) (key_at out.1 out.0) ≡ false

pub partition-Parted :
    (s : Arrays) (low high : ℕ)
    → low ≤ high
    → Fits (suc high) s
    → Parted low high s (partition s low high)
unfolding partition
partition-Parted s low high le f = finish (partition_loop (high - low) pivot low low s) loop
  where
    pivot : ℕ
    pivot = key_at s high

    narrow : Fits high s
    narrow = omega (arith, f.index_fits, f.key_fits)

    loop : Looped pivot low high high s (partition_loop (high - low) pivot low low s)
    loop =
        partition_loop-Looped (high - low) pivot low low low high high s (omega arith) (omega arith)
          (omega arith) (omega arith) narrow
          (record { below = λ k l u. absurd (omega arith); above = λ k l u. absurd (omega arith) })

    finish :
        (out : ℕ × Arrays)
        → Looped pivot low high high s out
        → Parted low high s (out.0, exchange out.0 high out.1)
    finish out d =
        let g = Shuffle-Fits d.moves f in
        let kept : key_at out.1 high ≡ pivot =
          Shuffle-outside high d.moves narrow (inr (omega arith)) in
        let at =
          λ (k : ℕ). key_at-exchange out.0 high k g (omega (arith, d.high_end)) (omega arith) in
        record {
          moves =
              trans (widen (omega arith) (omega arith) d.moves)
                (next out.0 high d.low_end (omega (arith, d.high_end)) le (omega arith) same);
          low_end = d.low_end;
          high_end = d.high_end;
          below = λ k l u. rw (at k, at out.0) (ground (arith, kept, d.split.below k, d.high_end));
          above = λ k l u.
              rw (at k, at out.0)
                (ground (arith, kept, d.split.above k, d.split.above out.0, d.high_end));
        }

-- the letters from `lo` up to `hi` stand in order
abbrev pub IsOrdered : ℕ → ℕ → Arrays → Type 0
IsOrdered lo hi s = (a b : ℕ) → lo ≤ a → a ≤ b → b < hi → char_le (key_at s a) (key_at s b) ≡ true

pub record Sorts (lo hi : ℕ) (s t : Arrays) : Type 0 where
  pub moves : Shuffle lo hi s t
  pub ordered : IsOrdered lo hi t

-- a divided range whose two parts are sorted is sorted
Sorts-parts :
    {lo hi part : ℕ} {s t u v : Arrays}
    → Fits hi s
    → Shuffle lo hi s t
    → lo ≤ part
    → part < hi
    → ((k : ℕ) → lo ≤ k → k < part → char_le (key_at t k) (key_at t part) ≡ true)
    → ((k : ℕ) → part < k → k < hi → char_le (key_at t k) (key_at t part) ≡ false)
    → Sorts lo part t u
    → Sorts (part + 1) hi u v
    → Sorts lo hi s v
Sorts-parts {lo} {hi} {part} {t} {u} {v} fs m l h below above p q = record {
  moves = trans m (
      trans (widen (omega arith) (omega arith) p.moves)
        (widen (omega arith) (omega arith) q.moves));
  ordered = order;
}
  where
    ft : Fits hi t
    ft = Shuffle-Fits m fs

    fp : Fits part t
    fp = omega (arith, ft.index_fits, ft.key_fits)

    fu : Fits hi u
    fu = Shuffle-Fits p.moves ft

    mid : key_at v part ≡ key_at t part
    mid =
        Shuffle-outside part q.moves fu (inl (omega arith))
        ∙ Shuffle-outside part p.moves fp (inr (omega arith))

    left : (k : ℕ) → k < part → key_at v k ≡ key_at u k
    left k x = Shuffle-outside k q.moves fu (inl (omega arith))

    low_side : (k : ℕ) → lo ≤ k → k < part → char_le (key_at v k) (key_at t part) ≡ true
    low_side k x y =
        rw (left k y) (Shuffle-all (λ c. char_le c (key_at t part) ≡ true) p.moves fp below k x y)

    right : (k : ℕ) → part < k → k < hi → char_le (key_at u k) (key_at t part) ≡ false
    right k x y = rw (Shuffle-outside k p.moves fp (inr (omega arith))) (above k x y)

    high_side : (k : ℕ) → part < k → k < hi → char_le (key_at v k) (key_at t part) ≡ false
    high_side k x y =
        Shuffle-all (λ c. char_le c (key_at t part) ≡ false) q.moves fu
          (λ j a b. right j (omega arith) b) k (omega arith) y

    order : IsOrdered lo hi v
    order a b x y z =
        ground (arith, mid, left a, left b, p.ordered a b, q.ordered a b, low_side a, high_side b)

pub sort-Sorts :
    (fuel lo hi : ℕ) (s : Arrays)
    → hi ≤ lo + fuel
    → Fits hi s
    → Sorts lo hi s (sort_index_and_global fuel s lo hi)
unfolding sort_index_and_global
sort-Sorts zero lo hi s e f = record { moves = same; ordered = λ a b x y z. absurd (omega arith) }
sort-Sorts (suc fuel) lo hi s e f = elim (Bool-cases (ltb (lo + 1) hi)) [
  | inr short ↦
      rw (short, sort_index_and_global)
        (record {
          moves = same;
          ordered = λ a b x y z. let q : a ≡ b = ground arith in rw q (ground arith);
        })
  | inl more ↦
      let l : lo + 1 < hi = ground arith in
      let n : suc (hi - 1) ≡ hi = omega arith in
      let g : Fits (suc (hi - 1)) s = rw n f in
      let p = partition-Parted s lo (hi - 1) (omega arith) g in
      let out = partition s lo (hi - 1) in
      let moves : Shuffle lo hi s out.1 = widen (omega arith) (omega arith) p.moves in
      let g' : Fits hi out.1 = Shuffle-Fits p.moves f in
      let q =
        sort-Sorts fuel lo out.0 out.1 (omega (arith, p.high_end))
          (omega (arith, g'.index_fits, g'.key_fits, p.high_end)) in
      rw (more, sort_index_and_global)
        (Sorts-parts f moves p.low_end (omega (arith, p.high_end)) p.below
          (λ k a b. p.above k a (omega arith)) q
          (sort-Sorts fuel (out.0 + 1) hi (sort_index_and_global fuel out.1 lo out.0)
            (omega (arith, p.low_end)) (Shuffle-Fits q.moves g')))
]
