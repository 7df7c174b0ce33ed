-- ===== src/Examples/Descriptors.antt =====
-- fs/fcntl.c and fs/open.c: the theorems at a concrete table of open files.
use linux_0_01raf.Prelude.{
  ℕ, zero, suc, ◌+◌, ◌<◌, ◌≡◌, ◌≢◌, ap, refl, ◌⊎◌, Option, none, some, List, [], ◌∷◌, arith, get_or,
  replicate,
}
use linux_0_01raf.Prelude.Int.{pos}
use linux_0_01raf.Fs.Files.{Files, returns, nr_open, emfile, sys_dup}
use linux_0_01raf.Fs.Files.Counts.{Counted, Keeps, names, refs}
use linux_0_01raf.Fs.Files.Calls.{Call, dup, dup2, fcntl, close, exit, calls, calls-Keeps}
use linux_0_01raf.Fs.Files.Lowest.{sys_dup_lem}

-- descriptor 0 names the only open file
abbrev one_open : Files
one_open = record {
  filp = some 0 ∷ replicate 19 none;
  close_on_exec = 0;
  file_table =
      record { f_mode = 1; f_flags = 0; f_count = 1; f_inode = some 7; f_pos = pos 0 } ∷ [];
  iputs = [];
}

get_or-none : (n i : ℕ) → get_or {A = Option ℕ} (replicate n none) i none ≡ none
get_or-none zero i = refl
get_or-none (suc n) zero = refl
get_or-none (suc n) (suc i) = get_or-none n i

one_open-Counted : Counted (λ f. 0) one_open
unfolding refs names
one_open-Counted = record { size = refl; valid = below; counted = count }
  where
    number : Option ℕ → ℕ
    number none = 0
    number (some f) = f

    below : (i f : ℕ) → get_or one_open.filp i none ≡ some f → f < 1
    below zero f e = let z : 0 ≡ f = ap number e in omega arith
    below (suc i) f e = let g = get_or-none 19 i in cc

    count :
        (f : ℕ)
        → f < 1
        → (get_or one_open.file_table f (record {
          f_mode = 0;
          f_flags = 0;
          f_count = 0;
          f_inode = none;
          f_pos = pos 0;
        })).f_count
          ≡ refs f one_open.filp + 0
    count zero h = refl
    count (suc f) h = absurd (omega arith)

abbrev some_calls : List Call
some_calls = dup 0 ∷ dup2 1 5 ∷ fcntl 5 0 3 ∷ close 0 ∷ close 0 ∷ exit ∷ []

calls-Keeps_example : Keeps (λ f. 0) (calls some_calls one_open)
calls-Keeps_example = calls-Keeps (λ f. 0) (λ f. omega arith) some_calls one_open one_open-Counted

sys_dup_lem_example :
    ((new : ℕ) × (t : Files) × (sys_dup 0 one_open ≡ returns (pos new) t)
      × (get_or one_open.filp new none ≡ none)
      × ((j : ℕ) → j < new → get_or one_open.filp j none ≢ none)
      × (get_or t.filp new none ≡ some 0)
      × ((j : ℕ) → j ≢ new → get_or t.filp j none ≡ get_or one_open.filp j none))
    ⊎ ((sys_dup 0 one_open ≡ returns emfile one_open)
        × ((j : ℕ) → j < nr_open → get_or one_open.filp j none ≢ none))
sys_dup_lem_example = sys_dup_lem 0 0 one_open refl (omega arith) refl
