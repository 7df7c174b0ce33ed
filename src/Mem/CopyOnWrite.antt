-- ===== src/Mem/CopyOnWrite.antt =====
-- mm/memory.c: `un_wp_page`, the copy of a shared page on a write.
use linux_0_01raf.Prelude.{
  ℕ, ◌+◌, ◌-◌, ◌*◌, ◌%◌, ◌≤◌, ◌<◌, ◌≡◌, ◌≢◌, ◌∙◌, sym, ap, subst, refl, ◌⊎◌, inl, inr, true, false,
  arith, ltb, lt→ltb, leb, ◌==◌, length, get_or, set, length-set, get_or-set_ne,
}
use linux_0_01raf.Mem.Monad.{Machine, Run, done, ◌>>=◌, write_word, page_of, or_2, or_7}
use linux_0_01raf.Mem.Words.{write_word_self, write_word_ne, copy_words_at, copy_words_outside}
use linux_0_01raf.Mem.{
  low_mem, high_memory, paging_pages, map_nr, get_free_page, copy_words, copy_page, sole_owner,
  un_wp_page,
}
use linux_0_01raf.Mem.Pages.{Taken, NoneFree, get_free_page_lem, get_or-default}

pub Taken-of :
    (s t : Machine) (page : ℕ) → get_free_page s ≡ done page t → page ≢ 0 → Taken s page t
Taken-of s t page e ne = go (get_free_page_lem s)
  where
    go :
        (p : ℕ) × (u : Machine) × (get_free_page s ≡ done p u) × (NoneFree s p u ⊎ Taken s p u)
        → Taken s page t
    go (p, u, e', inl n) = absurd (ne (cc (n.null)))
    go (p, u, e', inr k) =
        let same : ◌≡◌ {A = Run ℕ} (done p u) (done page t) = sym e' ∙ e in
        let ep : p ≡ page = cc in
        let eu : u ≡ t = cc in
        subst (λ (q : ℕ). Taken s q t) ep (subst (λ (v : Machine). Taken s p v) eu k)

sole_owner-true :
    (s : Machine) (old : ℕ)
    → length s.mem_map ≡ paging_pages
    → low_mem ≤ old
    → old < high_memory
    → get_or s.mem_map (map_nr old) 0 ≡ 1
    → sole_owner old s ≡ done true s
unfolding sole_owner
sole_owner-true s old l a b e = ground arith

-- a page with one owner gets its write bit back, and nothing else changes
pub un_wp_page_sole :
    (s : Machine) (slot : ℕ)
    → length s.mem_map ≡ paging_pages
    → low_mem ≤ page_of (s.words slot)
    → page_of (s.words slot) < high_memory
    → get_or s.mem_map (map_nr (page_of (s.words slot))) 0 ≡ 1
    → un_wp_page slot s
      ≡ done tt (record s { words = write_word s.words slot (or_2 (s.words slot)) })
unfolding un_wp_page
un_wp_page_sole s slot l a b c =
    rw (un_wp_page, ◌>>=◌, sole_owner-true s (page_of (s.words slot)) l a b c)

-- the state that the copy of a shared page leaves
abbrev pub unshared : Machine → ℕ → ℕ → Machine → ℕ → Machine
unshared s slot page t count = record {
  mem_map = set t.mem_map (map_nr (page_of (s.words slot))) (count - 1);
  words = copy_words 1024 (page_of (s.words slot)) page (write_word t.words slot (or_7 page));
}

sole_owner_shared :
    (s : Machine) (old count : ℕ)
    → length s.mem_map ≡ paging_pages
    → low_mem ≤ old
    → old < high_memory
    → get_or s.mem_map (map_nr old) 0 ≡ count
    → 2 ≤ count
    → sole_owner old s ≡ done false s
unfolding sole_owner
sole_owner_shared s old count l a b e c = ground arith

pub un_wp_page_shared :
    (s t : Machine) (slot page count : ℕ)
    → length s.mem_map ≡ paging_pages
    → low_mem ≤ page_of (s.words slot)
    → page_of (s.words slot) < high_memory
    → get_or s.mem_map (map_nr (page_of (s.words slot))) 0 ≡ count
    → 2 ≤ count
    → count < 65536
    → get_free_page s ≡ done page t
    → page ≢ 0
    → un_wp_page slot s ≡ done tt (unshared s slot page t count)
unfolding un_wp_page copy_page
un_wp_page_shared s t slot page count l a b e c u g ne =
    rw (un_wp_page, ◌>>=◌, sole_owner_shared s (page_of (s.words slot)) count l a b e c, g)
      (rw (not_null, above) (rw (◌>>=◌, inside, counted, less, inside)))
  where
    k : Taken s page t
    k = Taken-of s t page g ne

    old : ℕ
    old = map_nr (page_of (s.words slot))

    not_null : (page == 0) ≡ false
    not_null = ground arith

    above : leb low_mem (page_of (s.words slot)) ≡ true
    above = ground arith

    in_map : old < paging_pages
    in_map = omega arith

    inside : ltb old (length t.mem_map) ≡ true
    inside = rw (k.counted, length-set, l) (lt→ltb old paging_pages in_map)

    apart : k.index ≢ old
    apart q = ground (
      arith,
      k.was_free,
      get_or-default s.mem_map old 1 0 (rw l in_map),
      ap (λ (i : ℕ). get_or s.mem_map i 1) q,
    )

    counted : get_or t.mem_map old 0 ≡ count
    counted = rw k.counted (get_or-set_ne s.mem_map k.index old 1 0 apart ∙ e)

    less : (count + 65535) % 65536 ≡ count - 1
    less = omega arith

-- A page with several owners is copied on a write. Let the entry at `slot` map a page of the page map
-- that is counted at least twice, let a free page be found, and let the entry lie outside both pages,
-- which differ. Then `un_wp_page` returns, the entry maps the new page with its three low bits set,
-- the new page has the words of the old, the old page is counted once less, and every word outside
-- the entry and the new page is what it was.
pub un_wp_page_copies :
    (s t : Machine) (slot page count : ℕ)
    → length s.mem_map ≡ paging_pages
    → low_mem ≤ page_of (s.words slot)
    → page_of (s.words slot) < high_memory
    → get_or s.mem_map (map_nr (page_of (s.words slot))) 0 ≡ count
    → 2 ≤ count
    → count < 65536
    → get_free_page s ≡ done page t
    → page ≢ 0
    → (slot < page) ⊎ (page + 4096 ≤ slot)
    → (slot < page_of (s.words slot)) ⊎ (page_of (s.words slot) + 4096 ≤ slot)
    → (u : Machine) × (un_wp_page slot s ≡ done tt u)
      × (u.words slot ≡ or_7 page)
      × ((k : ℕ) → k < 1024 → u.words (page + 4 * k) ≡ s.words (page_of (s.words slot) + 4 * k))
      × (u.mem_map ≡ set t.mem_map (map_nr (page_of (s.words slot))) (count - 1))
      × ((a : ℕ) → a ≢ slot → (a < page) ⊎ (page + 4096 ≤ a) → u.words a ≡ s.words a)
un_wp_page_copies s t slot page count l a b e c u g ne out out' = (
  unshared s slot page t count,
  un_wp_page_shared s t slot page count l a b e c u g ne,
  copy_words_outside 1024 old page slot w (omega arith) ∙ write_word_self t.words slot (or_7 page),
  λ i h.
      copy_words_at 1024 old page i w h apart
      ∙ write_word_ne t.words slot (or_7 page) (old + 4 * i) (omega arith)
      ∙ k.kept (old + 4 * i) (omega (arith, apart)),
  refl,
  λ x d o.
      copy_words_outside 1024 old page x w (omega arith)
      ∙ write_word_ne t.words slot (or_7 page) x (omega arith)
      ∙ k.kept x o,
)
  where
    k : Taken s page t
    k = Taken-of s t page g ne

    old : ℕ
    old = page_of (s.words slot)

    w : ℕ → ℕ
    w = write_word t.words slot (or_7 page)

    -- a page counted at least twice is not the free one
    other : k.index ≢ map_nr old
    other q = ground (
      arith,
      k.was_free,
      get_or-default s.mem_map (map_nr old) 1 0 (rw l (omega arith)),
      ap (λ (i : ℕ). get_or s.mem_map i 1) q,
    )

    apart : (old + 4 * 1024 ≤ page) ⊎ (page + 4 * 1024 ≤ old)
    apart = omega (arith, k.address, k.in_map, other)
