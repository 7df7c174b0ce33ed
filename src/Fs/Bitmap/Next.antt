-- ===== src/Fs/Bitmap/Next.antt =====
-- fs/bitmap.c: a device on which new_block was called is one on which it can be called again.
use linux_0_01raf.Prelude.{
  ℕ, ◌≡◌, ◌≢◌, ◌∙◌, ap, sym, refl, ◌⊎◌, inl, inr, Bool, true, Option, none, some, List, [], arith,
  leb, ◌==◌, equal, Bool-cases, length, get_or, set, replicate, length-set, get_or-set_self,
  get_or-set_ne,
}
use linux_0_01raf.Fs.Bitmap.{Buffer, Device, returns, bits_of, clear_new, new_block}
use linux_0_01raf.Fs.Bitmap.Allocation.{
  is_used, IsDevice, FoundBit, find_map-cases, Allocated, number, marked, made, mark_lem,
  clear_new_lem, allocated, in_zmap, in_bits, bits_of_map,
}

-- what holds of a device after `new_block` has answered `block`
pub record Next (d : Device) (block : ℕ) (t : Device) : Type 0 where
  pub device : IsDevice t
  pub zones : t.s_nzones ≡ d.s_nzones
  pub kept : (b : ℕ) → is_used d b ≡ true → is_used t b ≡ true
  pub outcome : (block ≡ 0) ⊎ Allocated d block t

module _ (d : Device) (i j : ℕ) (k : IsDevice d) (f : FoundBit d i j) where
  map_same : get_or (marked d i j k f).s_zmap i none ≡ some (set f.bits j true)
  map_same = get_or-set_self d.s_zmap i (some (set f.bits j true)) none (in_zmap d i j k f)

  map_other : (q : ℕ) → q ≢ i → get_or (marked d i j k f).s_zmap q none ≡ get_or d.s_zmap q none
  map_other q ne = get_or-set_ne d.s_zmap i q (some (set f.bits j true)) none (λ e. ne (sym e))

  bit_kept :
      (q r : ℕ)
      → get_or (bits_of d q) r true ≡ true
      → get_or (bits_of (marked d i j k f) q) r true ≡ true
  bit_kept q r h = elim (Bool-cases (q == i)) [
    | inr other ↦
        ap (λ o. get_or (elim o [ none ↦ [] | some bits ↦ bits ]) r true)
          (map_other q (ground arith))
        ∙ h
    | inl same ↦
        let e = equal q i same in
        let there : get_or f.bits r true ≡ true =
          ap (λ l. get_or l r true) (sym (bits_of_map d i j k f))
          ∙ ap (λ a. get_or (bits_of d a) r true) (sym e)
          ∙ h in
        ap (λ a. get_or (bits_of (marked d i j k f) a) r true) e
        ∙ ap (λ o. get_or (elim o [ none ↦ [] | some bits ↦ bits ]) r true) map_same
        ∙ elim (Bool-cases (r == j)) [
          | inl at ↦
              ap (λ a. get_or (set f.bits j true) a true) (equal r j at)
              ∙ get_or-set_self f.bits j true true (in_bits d i j k f)
          | inr ne ↦ get_or-set_ne f.bits j r true true (ground arith) ∙ there
        ]
  ]

  used_kept : (b : ℕ) → is_used d b ≡ true → is_used (marked d i j k f) b ≡ true
  used_kept b h = bit_kept _ _ h

  length_kept :
      (q : ℕ) (bits : List Bool)
      → get_or (marked d i j k f).s_zmap q none ≡ some bits
      → length bits ≡ 8192
  length_kept q bits h = elim (Bool-cases (q == i)) [
    | inr other ↦ k.size q bits (sym (map_other q (ground arith)) ∙ h)
    | inl same ↦
        let both : some (set f.bits j true) ≡ some bits =
          sym map_same
          ∙ ap (λ a. get_or (marked d i j k f).s_zmap a none) (sym (equal q i same))
          ∙ h in
        let here : set f.bits j true ≡ bits = cc both in
        ap length (sym here) ∙ length-set f.bits j true ∙ k.size i f.bits f.is_map
  ]

  -- the marked device, with other buffers
  marked-IsDevice :
      (buffers : ℕ → Option Buffer)
      → ((b : ℕ) (bh : Buffer)
          → buffers b ≡ some bh
          → (bh.b_count ≡ 0) ⊎ (is_used (marked d i j k f) b ≡ true))
      → IsDevice (record (marked d i j k f) { buffers = buffers })
  marked-IsDevice buffers h = record {
    first = k.first;
    reserved = bit_kept 0 0 k.reserved;
    size = length_kept;
    unheld = h;
  }

  still_unheld :
      (b : ℕ) (bh : Buffer)
      → d.buffers b ≡ some bh
      → (bh.b_count ≡ 0) ⊎ (is_used (marked d i j k f) b ≡ true)
  still_unheld b bh h = elim (k.unheld b bh h) [
    | inl none_held ↦ inl none_held
    | inr used ↦ inr (used_kept b used)
  ]

  made_unheld :
      (b : ℕ) (bh : Buffer)
      → (made d i j k f).buffers b ≡ some bh
      → (bh.b_count ≡ 0) ⊎ (is_used (marked d i j k f) b ≡ true)
  made_unheld b bh h = elim (Bool-cases (b == number d i j k f)) [
    | inr other ↦ still_unheld b bh (sym (rw other refl) ∙ h)
    | inl new ↦
        let clear : Buffer = record {
          b_data = replicate 1024 0;
          b_uptodate = true;
          b_dirt = true;
          b_count = 0;
        } in
        let both : some clear ≡ some bh = sym (rw new refl) ∙ h in
        let here : clear ≡ bh = cc both in inl (ap (λ (x : Buffer). x.b_count) (sym here))
  ]

-- what `new_block` does to a device, and that the device stays one
pub new_block-Next :
    (d : Device)
    → IsDevice d
    → (block : ℕ) × (t : Device) × (new_block d ≡ returns block t) × Next d block t
unfolding new_block
new_block-Next d k = elim (find_map-cases 8 0 d k) [
  | inl e ↦ (
    0,
    d,
    rw (new_block, e) refl,
    record { device = k; zones = refl; kept = λ b h. h; outcome = inl refl },
  )
  | inr (i, j, e, f) ↦ elim (Bool-cases (leb d.s_nzones (number d i j k f))) [
    | inl beyond ↦ (
      0,
      marked d i j k f,
      rw (new_block, e) (rw beyond (ap (returns 0) (mark_lem d i j k f))),
      record {
        device = marked-IsDevice d i j k f d.buffers (still_unheld d i j k f);
        zones = refl;
        kept = used_kept d i j k f;
        outcome = inl refl;
      },
    )
    | inr inside ↦ (
      number d i j k f,
      made d i j k f,
      rw (new_block, e)
          (rw inside
            (ap (clear_new (number d i j k f)) (mark_lem d i j k f) ∙ clear_new_lem d i j k f)),
      record {
        device = marked-IsDevice d i j k f (made d i j k f).buffers (made_unheld d i j k f);
        zones = refl;
        kept = used_kept d i j k f;
        outcome = inr (allocated d i j k f inside);
      },
    )
  ]
]
