-- ===== src/Mem/Tables.antt =====
-- mm/memory.c: `put_page` against the walk that the processor makes, and the sharing of a table.
use linux_0_01raf.Prelude.{
  ℕ, ◌+◌, ◌*◌, ◌/◌, ◌%◌, ◌^◌, ◌≤◌, ◌<◌, ◌≡◌, ◌≢◌, ◌⊎◌, inl, inr, true, false, arith, ltb, lt→ltb,
  ◌==◌, if◌then◌else◌, Bool-cases, length, get_or, Option, some, none,
}
use linux_0_01raf.Mem.Monad.{Machine, done, ◌>>=◌, write_word, page_of, present, or_7}
use linux_0_01raf.Mem.{low_mem, high_memory, paging_pages, map_nr, get_free_page, put_page}
use linux_0_01raf.Mem.Words.{write_word_self, write_word_ne}
use linux_0_01raf.Mem.Pages.{Taken, NoneFree, get_free_page_lem}

-- The entry that the processor finds for an address: it walks the directory at address 0 and the
-- table that the directory's entry names.
unfoldable pub translate : (ℕ → ℕ) → ℕ → Option ℕ
translate w address =
    let dir = w (address / 2 ^ 22 * 4) in
    if present dir then some (w (page_of dir + address / 4096 % 1024 * 4)) else none

-- `put_page` of a page in the map makes the page's entry what the processor finds at the address,
-- with the three low bits set, where a table is present that does not lie in the directory.
pub put_page-translate-present :
    (s : Machine) (page address : ℕ)
    → low_mem ≤ page
    → page < high_memory
    → length s.mem_map ≡ paging_pages
    → address < 2 ^ 32
    → present (s.words (address / 2 ^ 22 * 4)) ≡ true
    → 4096 ≤ s.words (address / 2 ^ 22 * 4)
    → (t : Machine) × (put_page page address s ≡ done page t)
      × (translate t.words address ≡ some (or_7 page))
unfolding put_page translate
put_page-translate-present s page address a b l h p n = (
  record s { words = write_word s.words slot (or_7 page) },
  rw (put_page, ◌>>=◌, inside, p),
  rw (still, p, write_word_self s.words slot (or_7 page)),
)
  where
    slot : ℕ
    slot = page_of (s.words (address / 2 ^ 22 * 4)) + address / 4096 % 1024 * 4

    inside : ltb (map_nr page) (length s.mem_map) ≡ true
    inside = rw l (lt→ltb (map_nr page) paging_pages (omega arith))

    still :
        write_word s.words slot (or_7 page) (address / 2 ^ 22 * 4) ≡ s.words (address / 2 ^ 22 * 4)
    still = write_word_ne s.words slot (or_7 page) (address / 2 ^ 22 * 4) (omega arith)

not_absent :
    (w : ℕ → ℕ) (a tmp page slot : ℕ)
    → tmp % 4096 ≡ 0
    → a < 4096
    → 4096 ≤ tmp
    → tmp ≤ slot
    → write_word (write_word w a (or_7 tmp)) slot (or_7 page) a ≡ or_7 tmp
not_absent w a tmp page slot e l h m = ground arith

put_page-translate_absent :
    (s t : Machine) (page address tmp : ℕ)
    → low_mem ≤ page
    → page < high_memory
    → length s.mem_map ≡ paging_pages
    → address < 2 ^ 32
    → present (s.words (address / 2 ^ 22 * 4)) ≡ false
    → get_free_page s ≡ done tmp t
    → Taken s tmp t
    → (u : Machine) × (put_page page address s ≡ done page u)
      × (translate u.words address ≡ some (or_7 page))
unfolding put_page translate
put_page-translate_absent s t page address tmp a b l h p g k = (
  record t { words = write_word (write_word t.words dir (or_7 tmp)) slot (or_7 page) },
  rw (put_page, ◌>>=◌, inside, p) (rw (◌>>=◌, g) (rw not_null)),
  rw (table, set_up)
      (rw (same_page, write_word_self (write_word t.words dir (or_7 tmp)) slot (or_7 page))),
)
  where
    dir : ℕ
    dir = address / 2 ^ 22 * 4

    slot : ℕ
    slot = tmp + address / 4096 % 1024 * 4

    inside : ltb (map_nr page) (length s.mem_map) ≡ true
    inside = rw l (lt→ltb (map_nr page) paging_pages (omega arith))

    not_null : (tmp == 0) ≡ false
    not_null = ground (arith, k.address)

    aligned : tmp % 4096 ≡ 0
    aligned = omega (arith, k.address)

    table : write_word (write_word t.words dir (or_7 tmp)) slot (or_7 page) dir ≡ or_7 tmp
    table =
        not_absent t.words dir tmp page slot aligned (omega arith) (omega (arith, k.address))
          (omega arith)

    set_up : present (or_7 tmp) ≡ true
    set_up = ground (arith, aligned)

    same_page : page_of (or_7 tmp) ≡ tmp
    same_page = omega (arith, aligned)

-- For a page of the page map and any address, where a table that is present does not lie in the
-- directory, `put_page` returns: either the page, and then the processor finds the page at the
-- address with the three low bits set; or 0 with nothing changed, and then the address had no table
-- and no page is free.
pub put_page-translate :
    (s : Machine) (page address : ℕ)
    → low_mem ≤ page
    → page < high_memory
    → length s.mem_map ≡ paging_pages
    → address < 2 ^ 32
    → (present (s.words (address / 2 ^ 22 * 4)) ≡ true → 4096 ≤ s.words (address / 2 ^ 22 * 4))
    → ((u : Machine) × (put_page page address s ≡ done page u)
        × (translate u.words address ≡ some (or_7 page)))
      ⊎ ((put_page page address s ≡ done 0 s)
          × (translate s.words address ≡ none)
          × ((i : ℕ) → i < paging_pages → get_or s.mem_map i 1 ≢ 0))
unfolding put_page translate
put_page-translate s page address a b l h n =
    elim (Bool-cases (present (s.words (address / 2 ^ 22 * 4)))) [
      | inl p ↦ inl (put_page-translate-present s page address a b l h p (n p))
      | inr p ↦ go p (get_free_page_lem s)
    ]
  where
    inside : ltb (map_nr page) (length s.mem_map) ≡ true
    inside = rw l (lt→ltb (map_nr page) paging_pages (omega arith))

    go :
        present (s.words (address / 2 ^ 22 * 4)) ≡ false
        → (tmp : ℕ) × (t : Machine) × (get_free_page s ≡ done tmp t)
          × (NoneFree s tmp t ⊎ Taken s tmp t)
        → ((u : Machine) × (put_page page address s ≡ done page u)
            × (translate u.words address ≡ some (or_7 page)))
          ⊎ ((put_page page address s ≡ done 0 s)
              × (translate s.words address ≡ none)
              × ((i : ℕ) → i < paging_pages → get_or s.mem_map i 1 ≢ 0))
    go p (tmp, t, g, inr k) = inl (put_page-translate_absent s t page address tmp a b l h p g k)
    go p (tmp, t, g, inl f) =
        inr (
          rw (put_page, ◌>>=◌, inside, p) (rw (◌>>=◌, g) (rw f.null (rw f.unchanged))),
          rw p,
          f.full,
        )
