-- ===== src/Mem/Pages.antt =====
-- mm/memory.c: taking a free page and giving it back.
use linux_0_01raf.Prelude.{
  subst, ℕ, zero, suc, ◌+◌, ◌-◌, ◌*◌, ◌^◌, ◌≤◌, ◌<◌, ◌≡◌, ◌≢◌, ◌∙◌, sym, ap, if◌then◌else◌, refl,
  ◌⊎◌, inl, inr, none, some, List, [], ◌∷◌, arith, ◌==◌, Bool-cases, Option-cases, length, get_or,
  set, length-set, get_or-set_self,
}
use linux_0_01raf.Mem.Monad.{Machine, done, panic, stray}
use linux_0_01raf.Mem.Words.{clear_words_at, clear_words_outside}
use linux_0_01raf.Mem.{
  low_mem, high_memory, paging_pages, map_nr, scan_free, clear_words, get_free_page, free_page,
}

scan_free-some : (m : List ℕ) (n i : ℕ) → scan_free m n ≡ some i → (i < n) × (get_or m i 1 ≡ 0)
unfolding scan_free
scan_free-some m zero i e = cc
scan_free-some m (suc n) i e = ground (arith, scan_free-some m n i)

scan_free-none : (m : List ℕ) (n i : ℕ) → scan_free m n ≡ none → i < n → get_or m i 1 ≢ 0
unfolding scan_free
scan_free-none m zero i e h = elim h [ ]
scan_free-none m (suc n) i e h = elim (Bool-cases (i == n)) [
  | inl q ↦ let q' : i ≡ n = ground arith in ground arith
  | inr q ↦ ground (arith, scan_free-none m n i)
]

-- what `get_free_page` has done when it returns `page`
pub record Taken (s : Machine) (page : ℕ) (t : Machine) : Type 0 where
  pub index : ℕ
  pub in_map : index < paging_pages
  pub address : page ≡ index * 4096 + low_mem
  pub was_free : get_or s.mem_map index 1 ≡ 0
  pub counted : t.mem_map ≡ set s.mem_map index 1
  pub cleared : (k : ℕ) → k < 1024 → t.words (page + 4 * k) ≡ 0
  pub kept : (a : ℕ) → (a < page) ⊎ (page + 4096 ≤ a) → t.words a ≡ s.words a

-- no entry of the map is free, and nothing has changed
pub record NoneFree (s : Machine) (page : ℕ) (t : Machine) : Type 0 where
  pub null : page ≡ 0
  pub unchanged : t ≡ s
  pub full : (i : ℕ) → i < paging_pages → get_or s.mem_map i 1 ≢ 0

taken :
    (s : Machine) (i : ℕ)
    → i < paging_pages
    → get_or s.mem_map i 1 ≡ 0
    → Taken s (i * 4096 + low_mem) (record {
      mem_map = set s.mem_map i 1;
      words = clear_words 1024 (i * 4096 + low_mem + 4092) s.words;
    })
taken s i h f = record {
  index = i;
  in_map = h;
  address = refl;
  was_free = f;
  counted = refl;
  cleared = λ k l.
      ap (λ a. clear_words 1024 (i * 4096 + low_mem + 4092) s.words a)
        {y = i * 4096 + low_mem + 4092 - 4 * (1023 - k)} (omega arith)
      ∙ clear_words_at 1024 (i * 4096 + low_mem + 4092) (1023 - k) s.words (omega arith)
          (omega arith);
  kept = λ a o.
      clear_words_outside 1024 (i * 4096 + low_mem + 4092) a s.words (omega arith) (omega arith);
}

-- `get_free_page` always returns. Either no page is free, it returns 0 and nothing changes; or it
-- returns the address of a page that was free, which is then counted once and cleared, with no other
-- word of memory and no other count changed.
pub get_free_page_lem :
    (s : Machine)
    → (page : ℕ) × (t : Machine) × (get_free_page s ≡ done page t)
      × (NoneFree s page t ⊎ Taken s page t)
unfolding get_free_page
get_free_page_lem s = elim (Option-cases (scan_free s.mem_map paging_pages)) [
  | inl e ↦ (
    0,
    s,
    rw (e, get_free_page),
    inl (record {
      null = refl;
      unchanged = refl;
      full = λ i h. scan_free-none s.mem_map paging_pages i e h;
    }),
  )
  | inr (i, e) ↦
      let (h, f) = scan_free-some s.mem_map paging_pages i e in
      (
        i * 4096 + low_mem,
        record {
          mem_map = set s.mem_map i 1;
          words = clear_words 1024 (i * 4096 + low_mem + 4092) s.words;
        },
        rw (e, get_free_page),
        inr (taken s i h f),
      )
]

-- a page's number in the map
pub map_nr_of_page : (i : ℕ) → i < paging_pages → map_nr (i * 4096 + low_mem) ≡ i
map_nr_of_page i h = omega arith

set-set : (xs : List ℕ) (i v w : ℕ) → set (set xs i v) i w ≡ set xs i w
set-set [] i v w = refl
set-set (x ∷ xs) zero v w = refl
set-set (x ∷ xs) (suc i) v w = ap (λ t. x ∷ t) (set-set xs i v w)

set_same : (xs : List ℕ) (i v : ℕ) → get_or xs i v ≡ v → set xs i v ≡ xs
set_same [] i v e = refl
set_same (x ∷ xs) zero v e = ap (λ t. t ∷ xs) (sym e)
set_same (x ∷ xs) (suc i) v e = ap (λ t. x ∷ t) (set_same xs i v e)

pub get_or-default : (xs : List ℕ) (i d e : ℕ) → i < length xs → get_or xs i d ≡ get_or xs i e
get_or-default [] i d e h = absurd (omega arith)
get_or-default (x ∷ xs) zero d e h = refl
get_or-default (x ∷ xs) (suc i) d e h = get_or-default xs i d e (omega arith)

-- `free_page` on every address below 2^32, with a page map of `paging_pages` unsigned shorts: an
-- address below `low_mem` changes nothing; one above `high_memory` panics; `high_memory` itself passes
-- both tests and indexes `mem_map` behind its end; any other lowers the count of its page, and panics
-- exactly if that is 0.
pub free_page_lem :
    (s : Machine) (addr : ℕ)
    → length s.mem_map ≡ paging_pages
    → addr < 2 ^ 32
    → ((i : ℕ) → get_or s.mem_map i 0 < 65536)
    → (addr < low_mem → free_page addr s ≡ done tt s)
      × (high_memory < addr → free_page addr s ≡ panic)
      × (addr ≡ high_memory → free_page addr s ≡ stray)
      × (low_mem ≤ addr
          → addr < high_memory
          → free_page addr s ≡ (
              let count = get_or s.mem_map (map_nr addr) 0 in
              if count == 0
              then panic
              else done tt (record s { mem_map = set s.mem_map (map_nr addr) (count - 1) })))
unfolding free_page
free_page_lem s addr l w u =
    (ground arith, ground arith, λ e. ground arith, λ a b. ground (arith, u (map_nr addr)))

free_page-Taken :
    (s t : Machine) (page : ℕ)
    → length s.mem_map ≡ paging_pages
    → Taken s page t
    → free_page page t ≡ done tt (record t { mem_map = s.mem_map })
unfolding free_page
free_page-Taken s t page l k = ground (
  arith,
  k.address,
  k.in_map,
  k.counted,
  map_nr_of_page k.index,
  length-set s.mem_map k.index 1,
  get_or-set_self s.mem_map k.index 1 0,
  set-set s.mem_map k.index 1 0,
  set_same s.mem_map k.index 0,
  get_or-default s.mem_map k.index 1 0,
  k.was_free,
)

same_done : (page p : ℕ) (t u : Machine) → done page t ≡ done p u → (page ≡ p) × (t ≡ u)
same_done page p t u e = (cc e, cc e)

-- Giving a page back that was just taken restores the page map: where `get_free_page` answers a page other
-- than 0, `free_page` of it returns, with the map as it was before the two calls and the words as they were
-- between them.
pub free_page-get_free_page :
    (s t : Machine) (page : ℕ)
    → length s.mem_map ≡ paging_pages
    → get_free_page s ≡ done page t
    → page ≢ 0
    → free_page page t ≡ done tt (record t { mem_map = s.mem_map })
free_page-get_free_page s t page l e ne =
    let (p, u, f, r) = get_free_page_lem s in
    let (same, after) = same_done p page u t (sym f ∙ e) in
    elim r [
      | inl n ↦ absurd (ne (sym same ∙ n.null))
      | inr k ↦
          free_page-Taken s t page l
            (subst (λ v. Taken s page v) after (subst (λ q. Taken s q u) same k))
    ]
