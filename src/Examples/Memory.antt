-- ===== src/Examples/Memory.antt =====
-- mm/memory.c: the theorems at concrete page maps and tables.
use linux_0_01raf.Prelude.{
  ℕ, zero, suc, ◌+◌, ◌-◌, ◌*◌, ◌≤◌, ◌<◌, ◌≡◌, ◌≢◌, refl, ◌⊎◌, inl, none, some, [], ◌∷◌, ◌++◌, arith,
  ◌==◌, if◌then◌else◌, length, get_or, set, replicate, length-replicate,
}
use linux_0_01raf.Mem.Monad.{Machine, done, panic, stray, page_of, or_7, clear_2}
use linux_0_01raf.Mem.{
  low_mem, high_memory, paging_pages, map_nr, scan_free, clear_words, get_free_page, free_page,
  un_wp_page, put_page, copy_table,
}
use linux_0_01raf.Mem.Pages.{
  Taken, NoneFree, get_free_page_lem, free_page_lem, free_page-get_free_page,
}
use linux_0_01raf.Mem.CopyOnWrite.{un_wp_page_copies}
use linux_0_01raf.Mem.Tables.{translate, put_page-translate}
use linux_0_01raf.Mem.Sharing.{Shared, copy_table-Shared}

-- all pages free, no table
abbrev empty : Machine
empty = record { mem_map = replicate 1536 0; words = λ a. 0 }

-- all pages used twice but the last, and a table at 4096 that maps the first page behind `low_mem`
abbrev busy : Machine
busy = record {
  mem_map = replicate 1535 2 ++ (0 ∷ []);
  words = λ a. if a == 4096 then low_mem + 4096 + 7 else 0;
}

get_or-replicate : (n i v : ℕ) → get_or (replicate n v) i 0 ≤ v
get_or-replicate zero i v = omega arith
get_or-replicate (suc n) zero v = omega arith
get_or-replicate (suc n) (suc i) v = get_or-replicate n i v

empty-length : length empty.mem_map ≡ paging_pages
empty-length = length-replicate {A = ℕ} 1536 0

busy-length : length busy.mem_map ≡ paging_pages
busy-length = refl

get_free_page_lem_example :
    (page : ℕ) × (t : Machine) × (get_free_page empty ≡ done page t)
    × (NoneFree empty page t ⊎ Taken empty page t)
get_free_page_lem_example = get_free_page_lem empty

-- the last page, as `get_free_page` takes it
abbrev last_page : ℕ
last_page = 0x7ff000

free_page_lem_example :
    (last_page < low_mem → free_page last_page empty ≡ done tt empty)
    × (high_memory < last_page → free_page last_page empty ≡ panic)
    × (last_page ≡ high_memory → free_page last_page empty ≡ stray)
    × (low_mem ≤ last_page
        → last_page < high_memory
        → free_page last_page empty ≡ (
            let count = get_or empty.mem_map (map_nr last_page) 0 in
            if count == 0
            then panic
            else done tt
                (record empty { mem_map = set empty.mem_map (map_nr last_page) (count - 1) })))
free_page_lem_example =
    free_page_lem empty last_page empty-length (omega arith)
      (λ i. omega (arith, get_or-replicate 1536 i 0))

-- `empty` and `busy` after `get_free_page`
abbrev empty_taken : Machine
empty_taken = record {
  mem_map = set empty.mem_map 1535 1;
  words = clear_words 1024 (1535 * 4096 + low_mem + 4092) empty.words;
}

abbrev busy_taken : Machine
busy_taken = record {
  mem_map = set busy.mem_map 1535 1;
  words = clear_words 1024 (1535 * 4096 + low_mem + 4092) busy.words;
}

empty-takes : get_free_page empty ≡ done last_page empty_taken
unfolding get_free_page scan_free
empty-takes = refl

busy-takes : get_free_page busy ≡ done last_page busy_taken
unfolding get_free_page scan_free
busy-takes = refl

free_page-get_free_page_example :
    free_page last_page empty_taken ≡ done tt (record empty_taken { mem_map = empty.mem_map })
free_page-get_free_page_example =
    free_page-get_free_page empty empty_taken last_page empty-length empty-takes (omega arith)

un_wp_page_copies_example :
    (u : Machine) × (un_wp_page 4096 busy ≡ done tt u)
    × (u.words 4096 ≡ or_7 last_page)
    × ((k : ℕ)
        → k < 1024
        → u.words (last_page + 4 * k) ≡ busy.words (page_of (busy.words 4096) + 4 * k))
    × (u.mem_map ≡ set busy_taken.mem_map (map_nr (page_of (busy.words 4096))) 1)
    × ((a : ℕ) → a ≢ 4096 → (a < last_page) ⊎ (last_page + 4096 ≤ a) → u.words a ≡ busy.words a)
un_wp_page_copies_example =
    un_wp_page_copies busy busy_taken 4096 last_page 2 busy-length (omega arith) (omega arith) refl
      (omega arith) (omega arith) busy-takes (omega arith) (inl (omega arith)) (inl (omega arith))

put_page-translate_example :
    ((u : Machine) × (put_page last_page 0x1234 empty ≡ done last_page u)
      × (translate u.words 0x1234 ≡ some (or_7 last_page)))
    ⊎ ((put_page last_page 0x1234 empty ≡ done 0 empty)
        × (translate empty.words 0x1234 ≡ none)
        × ((i : ℕ) → i < paging_pages → get_or empty.mem_map i 1 ≢ 0))
put_page-translate_example =
    put_page-translate empty last_page 0x1234 (omega arith) (omega arith) empty-length (omega arith)
      (λ e. ground arith)

-- `busy` with every page in use
abbrev full : Machine
full = record busy { mem_map = replicate 1536 2 }

full-entry : (i : ℕ) → i < 1 → clear_2 (full.words (4096 + 4 * i)) < high_memory
full-entry zero h = omega arith
full-entry (suc i) h = absurd (omega arith)

copy_table-Shared_example :
    (t : Machine) × (copy_table 1 4096 8192 full ≡ done tt t) × Shared full 1 4096 8192 t
copy_table-Shared_example =
    copy_table-Shared 1 4096 8192 full (length-replicate {A = ℕ} 1536 2) (inl (omega arith))
      (λ i h p. full-entry i h) (λ p. omega (arith, get_or-replicate 1536 p 2))
