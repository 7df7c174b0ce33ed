-- ===== src/Mem.antt =====
-- mm/memory.c: the page map with its reference counts, the page tables, and copy-on-write.
pub mod Monad
pub mod Words
pub mod Pages
pub mod CopyOnWrite
pub mod Tables
pub mod Sharing
use linux_0_01raf.Prelude.{
  ℕ, zero, suc, ◌+◌, ◌-◌, ◌*◌, ◌/◌, ◌%◌, ◌^◌, Option, none, some, List, Bool, true, false, not,
  ◌||◌, ◌&&◌, ltb, leb, ◌==◌, if◌then◌else◌, length, get_or, set,
}
use linux_0_01raf.Mem.Monad.{
  Machine, M, done, ◌>>=◌, ◌>>◌, pure, panics, do_exit, write_word, load, store, read_map,
  write_map, page_of, present, or_7, or_2, clear_2,
}

-- include/linux/config.h and mm/memory.c
abbrev pub high_memory : ℕ
high_memory = 0x800000

abbrev pub buffer_end : ℕ
buffer_end = 0x200000

abbrev pub low_mem : ℕ
low_mem = buffer_end

abbrev pub paging_pages : ℕ
paging_pages = (high_memory - low_mem) / 4096

-- #define MAP_NR(addr) (((addr)-LOW_MEM)>>12), on unsigned words: an address below `low_mem` wraps.
abbrev pub map_nr : ℕ → ℕ
map_nr addr = (addr + 2 ^ 32 - low_mem) % 2 ^ 32 / 4096

-- `std ; repne ; scasw`: the last of the first `n` entries that is 0
unfoldable pub scan_free : List ℕ → ℕ → Option ℕ
scan_free mem_map zero = none
scan_free mem_map (suc n) = elim (get_or mem_map n 1 == 0) [
  | true ↦ some n
  | false ↦ scan_free mem_map n
]

-- `rep ; stosl` downwards from `a`
unfoldable pub clear_words : ℕ → ℕ → (ℕ → ℕ) → ℕ → ℕ
clear_words zero a w = w
clear_words (suc n) a w = clear_words n (a - 4) (write_word w a 0)

-- The physical address of the last free page, now marked used and cleared; 0 if there is none.
unfoldable pub get_free_page : M ℕ
get_free_page s = elim (scan_free s.mem_map paging_pages) [
  | none ↦ done 0 s
  | some i ↦
      let page = i * 4096 + low_mem in
      done page
        (record { mem_map = set s.mem_map i 1; words = clear_words 1024 (page + 4092) s.words })
]

unfoldable pub free_page : ℕ → M (Unit {0})
free_page addr =
    if ltb addr low_mem
    then pure tt
    else if ltb high_memory addr
    then panics
    else do n ← read_map (map_nr addr); if n == 0 then panics else write_map (map_nr addr) (n - 1)

-- The inner loop of `free_page_tables`, over the entries of one table.
unfoldable pub free_table : ℕ → ℕ → M (Unit {0})
free_table zero pg_table = pure tt
free_table (suc n) pg_table =
    let rest = free_table n (pg_table + 4) in
    do
      entry ← load pg_table
      if present entry then free_page (page_of entry) else pure tt
      store pg_table 0
      rest

-- Its outer loop, over `size` entries of the directory.
unfoldable pub free_dirs : ℕ → ℕ → M (Unit {0})
free_dirs zero dir = pure tt
free_dirs (suc size) dir =
    let rest = free_dirs size (dir + 4) in
    do
      entry ← load dir
      if not (present entry)
          then rest
          else do free_table 1024 (page_of entry); free_page (page_of entry); store dir 0; rest

-- `size + 0x3fffff` wraps at 32 bits. `invalidate` loads cr3, which the model does not have.
unfoldable pub free_page_tables : ℕ → ℕ → M ℕ
free_page_tables from size =
    if not (from % 0x400000 == 0)
    then panics
    else if from == 0
    then panics
    else do free_dirs ((size + 0x3fffff) % 2 ^ 32 / 2 ^ 22) (from / 2 ^ 22 * 4); pure 0

-- One page of `copy_page_tables`: a present entry is shared without the write bit, and a page above
-- `low_mem` loses it in the old table too and is counted once more.
unfoldable pub copy_entry : ℕ → ℕ → M (Unit {0})
copy_entry from_page_table to_page_table = do
  entry ← load from_page_table
  if not (present entry) then pure tt else do
    let this_page = clear_2 entry
    store to_page_table this_page
    if ltb low_mem this_page
        then (do
          store from_page_table this_page
          n ← read_map (map_nr this_page)
          write_map (map_nr this_page) (n + 1))
        else pure tt

unfoldable pub copy_table : ℕ → ℕ → ℕ → M (Unit {0})
copy_table zero from_page_table to_page_table = pure tt
copy_table (suc nr) from_page_table to_page_table =
    let rest = copy_table nr (from_page_table + 4) (to_page_table + 4) in
    do copy_entry from_page_table to_page_table; rest

-- The result is 0, or 1 for the code's -1: out of memory.
unfoldable pub copy_dirs : ℕ → ℕ → ℕ → ℕ → M ℕ
copy_dirs from zero from_dir to_dir = pure 0
copy_dirs from (suc size) from_dir to_dir =
    let rest = copy_dirs from size (from_dir + 4) (to_dir + 4) in
    do
      to_entry ← load to_dir
      from_entry ← load from_dir
      if present to_entry then panics else if not (present from_entry) then rest else do
        to_page_table ← get_free_page
        if to_page_table == 0 then pure 1 else do
          store to_dir (or_7 to_page_table)
          copy_table (if from == 0 then 0xA0 else 1024) (page_of from_entry) to_page_table
          rest

unfoldable pub copy_page_tables : ℕ → ℕ → ℕ → M ℕ
copy_page_tables from to size =
    if not (from % 0x400000 == 0) || not (to % 0x400000 == 0)
    then panics
    else copy_dirs from ((size + 0x3fffff) % 2 ^ 32 / 2 ^ 22) (from / 2 ^ 22 * 4) (to / 2 ^ 22 * 4)

-- The two messages to the console are left out: neither test stops the routine. The second reads
-- `mem_map` at any page's number, which the code does with no test of the range.
unfoldable pub put_page : ℕ → ℕ → M ℕ
put_page page address = do
  read_map (map_nr page) >>= λ _. pure tt
  entry ← load (address / 2 ^ 22 * 4)
  if present entry
      then (do store (page_of entry + address / 4096 % 1024 * 4) (or_7 page); pure page)
      else do
        tmp ← get_free_page
        if tmp == 0 then pure 0 else do
          store (address / 2 ^ 22 * 4) (or_7 tmp)
          store (tmp + address / 4096 % 1024 * 4) (or_7 page)
          pure page

-- `rep ; movsl` upwards
unfoldable pub copy_words : ℕ → ℕ → ℕ → (ℕ → ℕ) → ℕ → ℕ
copy_words zero from to w = w
copy_words (suc n) from to w = copy_words n (from + 4) (to + 4) (write_word w to (w from))

unfoldable pub copy_page : ℕ → ℕ → M (Unit {0})
copy_page from to s = done tt (record s { words = copy_words 1024 from to s.words })

-- `if (old_page >= LOW_MEM && mem_map[MAP_NR(old_page)]==1)`
unfoldable pub sole_owner : ℕ → M Bool
sole_owner old_page =
    if leb low_mem old_page then (do n ← read_map (map_nr old_page); pure (n == 1)) else pure false

unfoldable pub un_wp_page : ℕ → M (Unit {0})
un_wp_page table_entry = do
  entry ← load table_entry
  let old_page = page_of entry
  sole ← sole_owner old_page
  if sole then store table_entry (or_2 entry) else do
    new_page ← get_free_page
    if new_page == 0 then do_exit else do
      if leb low_mem old_page
          then (do n ← read_map (map_nr old_page); write_map (map_nr old_page) (n + 65535))
          else pure tt
      store table_entry (or_7 new_page)
      copy_page old_page new_page

unfoldable pub do_wp_page : ℕ → ℕ → M (Unit {0})
do_wp_page error_code address = do
  dir ← load (address / 2 ^ 22 * 4)
  un_wp_page (address / 2 ^ 12 % 1024 * 4 + page_of dir)

unfoldable pub write_verify : ℕ → M (Unit {0})
write_verify address = do
  page ← load (address / 2 ^ 22 * 4)
  if not (present page) then pure tt else do
    let slot = page_of page + address / 2 ^ 12 % 1024 * 4
    entry ← load slot
    if entry % 4 == 1 then un_wp_page slot else pure tt

unfoldable pub do_no_page : ℕ → ℕ → M (Unit {0})
do_no_page error_code address = do
  tmp ← get_free_page
  if tmp == 0
      then do_exit
      else do page ← put_page tmp address; if page == 0 then do_exit else pure tt
