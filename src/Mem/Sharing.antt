-- ===== src/Mem/Sharing.antt =====
-- mm/memory.c: `copy_page_tables` shares the pages of one table with another, for `fork`.
use linux_0_01raf.Prelude.{
  ℕ, zero, suc, ◌+◌, ◌*◌, ◌%◌, ◌≤◌, ◌<◌, ◌≡◌, ◌∙◌, ap, refl, ◌⊎◌, inl, inr, Bool, true, false, ◌&&◌,
  arith, ltb, lt→ltb, ◌==◌, if◌then◌else◌, Bool-cases, length, get_or, set, length-set,
  get_or-set_self, get_or-set_ne,
}
use linux_0_01raf.Mem.Monad.{Machine, done, ◌>>=◌, write_word, present, clear_2}
use linux_0_01raf.Mem.{low_mem, high_memory, paging_pages, map_nr, copy_entry, copy_table}

-- an entry whose page is shared: present, and above `low_mem` without its write bit
unfoldable pub is_shared : ℕ → Bool
is_shared e = present e && ltb low_mem (clear_2 e)

-- how many of the `n` entries from `table` on share the page number `p`
unfoldable pub shares : (ℕ → ℕ) → ℕ → ℕ → ℕ → ℕ
unfolding is_shared
shares w zero table p = 0
shares w (suc n) table p =
    (if is_shared (w table) && (map_nr (clear_2 (w table)) == p) then 1 else 0)
    + shares w n (table + 4) p

shares_ext :
    (w v : ℕ → ℕ) (n table p : ℕ)
    → ((i : ℕ) → i < n → w (table + 4 * i) ≡ v (table + 4 * i))
    → shares w n table p ≡ shares v n table p
unfolding shares
shares_ext w v zero table p h = refl
shares_ext w v (suc n) table p h =
    let e : w table ≡ v table = ap w (omega arith) ∙ h 0 (omega arith) ∙ ap v (omega arith) in
    let rest = shares_ext w v n (table + 4) p (λ i l.
      ap w {y = table + 4 * suc i} (omega arith) ∙ h (suc i) (omega arith) ∙ ap v (omega arith)) in
    rw (e, rest)

-- the state after one entry
abbrev entry_copied : Machine → ℕ → ℕ → Machine
entry_copied s from to =
    let e = s.words from in
    let page = clear_2 e in
    record {
      mem_map =
          if present e
          then (if ltb low_mem page
              then set s.mem_map (map_nr page) (get_or s.mem_map (map_nr page) 0 + 1)
              else s.mem_map)
          else s.mem_map;
      words =
          if present e
          then (if ltb low_mem page
              then write_word (write_word s.words to page) from page
              else write_word s.words to page)
          else s.words;
    }

copy_entry_lem :
    (s : Machine) (from to : ℕ)
    → length s.mem_map ≡ paging_pages
    → (present (s.words from) ≡ true → clear_2 (s.words from) < high_memory)
    → ((p : ℕ) → get_or s.mem_map p 0 + 1 < 65536)
    → copy_entry from to s ≡ done tt (entry_copied s from to)
unfolding copy_entry
copy_entry_lem s from to l h u = elim (Bool-cases (present (s.words from))) [
  | inr p ↦ rw (copy_entry, p)
  | inl p ↦ elim (Bool-cases (ltb low_mem (clear_2 (s.words from)))) [
    | inr q ↦ rw p (rw q)
    | inl q ↦
        let page = clear_2 (s.words from) in
        let inside : ltb (map_nr page) (length s.mem_map) ≡ true =
          rw l (lt→ltb (map_nr page) paging_pages (ground (arith, h p))) in
        let small : (get_or s.mem_map (map_nr page) 0 + 1) % 65536
            ≡ get_or s.mem_map (map_nr page) 0 + 1 =
          omega (arith, u (map_nr page)) in
        rw p (rw q (rw (◌>>=◌, inside, small, inside)))
  ]
]

-- what sharing `n` entries has done to the two tables and to the counts
pub record Shared (s : Machine) (n from to : ℕ) (t : Machine) : Type 0 where
  pub new_entries :
      (i : ℕ)
      → i < n
      → present (s.words (from + 4 * i)) ≡ true
      → t.words (to + 4 * i) ≡ clear_2 (s.words (from + 4 * i))
  pub absent_entries :
      (i : ℕ)
      → i < n
      → present (s.words (from + 4 * i)) ≡ false
      → t.words (to + 4 * i) ≡ s.words (to + 4 * i)
  pub old_entries :
      (i : ℕ)
      → i < n
      → t.words (from + 4 * i) ≡ (
          if is_shared (s.words (from + 4 * i))
          then clear_2 (s.words (from + 4 * i))
          else s.words (from + 4 * i))
  pub outside :
      (a : ℕ)
      → (a < from) ⊎ (from + 4 * n ≤ a)
      → (a < to) ⊎ (to + 4 * n ≤ a)
      → t.words a ≡ s.words a
  pub counts : (p : ℕ) → get_or t.mem_map p 0 ≡ get_or s.mem_map p 0 + shares s.words n from p

-- the counts and words after one entry
count_copied :
    (s : Machine) (from to p : ℕ)
    → length s.mem_map ≡ paging_pages
    → (present (s.words from) ≡ true → clear_2 (s.words from) < high_memory)
    → get_or (entry_copied s from to).mem_map p 0
      ≡ get_or s.mem_map p 0
        + (if is_shared (s.words from) && (map_nr (clear_2 (s.words from)) == p) then 1 else 0)
unfolding is_shared
count_copied s from to p l h = ground (
  arith,
  get_or-set_self s.mem_map p (get_or s.mem_map p 0 + 1) 0,
  get_or-set_ne s.mem_map (map_nr (clear_2 (s.words from))) p
      (get_or s.mem_map (map_nr (clear_2 (s.words from))) 0 + 1) 0,
)

length_copied :
    (s : Machine) (from to : ℕ) → length (entry_copied s from to).mem_map ≡ length s.mem_map
length_copied s from to = ground (
  arith,
  length-set s.mem_map (map_nr (clear_2 (s.words from)))
      (get_or s.mem_map (map_nr (clear_2 (s.words from))) 0 + 1),
)

words_copied :
    (s : Machine) (from to a : ℕ)
    → (a < from) ⊎ (from < a)
    → (a < to) ⊎ (to < a)
    → (entry_copied s from to).words a ≡ s.words a
words_copied s from to a h k = ground arith

old_copied :
    (s : Machine) (from to : ℕ)
    → (from < to) ⊎ (to < from)
    → (entry_copied s from to).words from
      ≡ (if is_shared (s.words from) then clear_2 (s.words from) else s.words from)
unfolding is_shared
old_copied s from to h = ground arith

new_copied :
    (s : Machine) (from to : ℕ)
    → (from < to) ⊎ (to < from)
    → present (s.words from) ≡ true
    → (entry_copied s from to).words to ≡ clear_2 (s.words from)
new_copied s from to h p = ground arith

absent_copied :
    (s : Machine) (from to : ℕ)
    → present (s.words from) ≡ false
    → (entry_copied s from to).words to ≡ s.words to
absent_copied s from to p = ground arith

module _ (s t : Machine) (n from to : ℕ) (l : length s.mem_map ≡ paging_pages)
    (d : (from + 4 * suc n ≤ to) ⊎ (to + 4 * suc n ≤ from))
    (h : present (s.words from) ≡ true → clear_2 (s.words from) < high_memory)
    (sh : Shared (entry_copied s from to) n (from + 4) (to + 4) t) where
  same_word :
      (a : ℕ)
      → (a < from) ⊎ (from < a)
      → (a < to) ⊎ (to < a)
      → (entry_copied s from to).words a ≡ s.words a
  same_word a x y = words_copied s from to a x y

  new_entries_cons :
      (i : ℕ)
      → i < suc n
      → present (s.words (from + 4 * i)) ≡ true
      → t.words (to + 4 * i) ≡ clear_2 (s.words (from + 4 * i))
  new_entries_cons zero x p =
      let z : from + 4 * 0 ≡ from = omega arith in
      let z' : to + 4 * 0 ≡ to = omega arith in
      rw (z, z')
        (sh.outside to (omega arith) (omega arith) ∙ new_copied s from to (omega arith) (rw z at p))
  new_entries_cons (suc i) x p =
      let z : from + 4 * suc i ≡ from + 4 + 4 * i = omega arith in
      let z' : to + 4 * suc i ≡ to + 4 + 4 * i = omega arith in
      let w = same_word (from + 4 + 4 * i) (omega arith) (omega arith) in
      rw (z, z') (sh.new_entries i (omega arith) (rw w (rw z at p)) ∙ ap clear_2 w)

  absent_entries_cons :
      (i : ℕ)
      → i < suc n
      → present (s.words (from + 4 * i)) ≡ false
      → t.words (to + 4 * i) ≡ s.words (to + 4 * i)
  absent_entries_cons zero x p =
      let z : from + 4 * 0 ≡ from = omega arith in
      let z' : to + 4 * 0 ≡ to = omega arith in
      rw z' (sh.outside to (omega arith) (omega arith) ∙ absent_copied s from to (rw z at p))
  absent_entries_cons (suc i) x p =
      let z : from + 4 * suc i ≡ from + 4 + 4 * i = omega arith in
      let z' : to + 4 * suc i ≡ to + 4 + 4 * i = omega arith in
      let w = same_word (from + 4 + 4 * i) (omega arith) (omega arith) in
      rw z' (
        sh.absent_entries i (omega arith) (rw w (rw z at p))
        ∙ same_word (to + 4 + 4 * i) (omega arith) (omega arith))

  old_entries_cons :
      (i : ℕ)
      → i < suc n
      → t.words (from + 4 * i) ≡ (
          if is_shared (s.words (from + 4 * i))
          then clear_2 (s.words (from + 4 * i))
          else s.words (from + 4 * i))
  old_entries_cons zero x =
      let z : from + 4 * 0 ≡ from = omega arith in
      rw z (sh.outside from (omega arith) (omega arith) ∙ old_copied s from to (omega arith))
  old_entries_cons (suc i) x =
      let z : from + 4 * suc i ≡ from + 4 + 4 * i = omega arith in
      let w = same_word (from + 4 + 4 * i) (omega arith) (omega arith) in
      rw z (sh.old_entries i (omega arith) ∙ ap (λ (e : ℕ). if is_shared e then clear_2 e else e) w)

  counts_cons :
      (p : ℕ) → get_or t.mem_map p 0 ≡ get_or s.mem_map p 0 + shares s.words (suc n) from p
  unfolding shares
  counts_cons p = omega (
    arith,
    sh.counts p,
    count_copied s from to p l h,
    shares_ext (entry_copied s from to).words s.words n (from + 4) p
        (λ i x. same_word (from + 4 + 4 * i) (omega arith) (omega arith)),
  )

  Shared-cons : Shared s (suc n) from to t
  Shared-cons = record {
    new_entries = new_entries_cons;
    absent_entries = absent_entries_cons;
    old_entries = old_entries_cons;
    outside =
        λ a x y. sh.outside a (omega arith) (omega arith) ∙ same_word a (omega arith) (omega arith);
    counts = counts_cons;
  }

-- Sharing a table. Let `n` entries stand at `from` and at `to` in ranges that are apart, let each
-- present one map a page below `high_memory`, and let no count reach 65536 - n. Then the copy returns,
-- each present entry stands in the new table without its write bit, where an entry is absent the new table
-- is as before, the old table's entries of pages
-- above `low_mem` have lost theirs too, no other word has changed, and the count of every page has
-- grown by the number of entries that share it.
pub copy_table-Shared :
    (n from to : ℕ) (s : Machine)
    → length s.mem_map ≡ paging_pages
    → (from + 4 * n ≤ to) ⊎ (to + 4 * n ≤ from)
    → ((i : ℕ)
        → i < n
        → present (s.words (from + 4 * i)) ≡ true
        → clear_2 (s.words (from + 4 * i)) < high_memory)
    → ((p : ℕ) → get_or s.mem_map p 0 + n < 65536)
    → (t : Machine) × (copy_table n from to s ≡ done tt t) × Shared s n from to t
unfolding copy_table shares
copy_table-Shared zero from to s l d h u = (
  s,
  refl,
  record {
    new_entries = λ i x. elim x [ ];
    absent_entries = λ i x. elim x [ ];
    old_entries = λ i x. elim x [ ];
    outside = λ a x y. refl;
    counts = λ p. omega arith;
  },
)
copy_table-Shared (suc n) from to s l d h u =
    let (t, run, sh) =
      copy_table-Shared n (from + 4) (to + 4) (entry_copied s from to) (length_copied s from to ∙ l)
        (omega arith)
        (λ i x.
          rw (words_copied s from to (from + 4 + 4 * i) (omega arith) (omega arith), shift i)
            (h (suc i) (omega arith)))
        (λ p. ground (arith, count_copied s from to p l h0, u p)) in
    (t, rw (copy_table, ◌>>=◌, now) run, Shared-cons s t n from to l d h0 sh)
  where
    first : from + 4 * 0 ≡ from
    first = omega arith

    shift : (i : ℕ) → from + 4 + 4 * i ≡ from + 4 * suc i
    shift i = omega arith

    h0 : present (s.words from) ≡ true → clear_2 (s.words from) < high_memory
    h0 = rw first at (h 0 (omega arith))

    now : copy_entry from to s ≡ done tt (entry_copied s from to)
    now = copy_entry_lem s from to l h0 (λ p. omega (arith, u p))
