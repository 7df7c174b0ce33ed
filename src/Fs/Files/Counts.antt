-- ===== src/Fs/Files/Counts.antt =====
-- fs/fcntl.c and fs/open.c: `f_count` is the number of descriptors that name an open file.
use linux_0_01raf.Prelude.{
  ℕ, zero, suc, ◌+◌, ◌-◌, ◌%◌, ◌≤◌, ◌<◌, ◌≡◌, ◌≢◌, ◌∙◌, ap, sym, refl, inl, inr, Option, none, some,
  List, [], ◌∷◌, arith, ◌==◌, if◌then◌else◌, Bool-cases, length, length-set, get_or, set,
  get_or-set_self, get_or-set_ne,
}
use linux_0_01raf.Prelude.Int.{ℤ}
use linux_0_01raf.Fs.Files.{
  File, Files, Outcome, returns, nr_open, no_file, file_at, with_count, install,
}

unfoldable pub names : Option ℕ → ℕ → ℕ
names none f = 0
names (some g) f = if g == f then 1 else 0

-- how many descriptors name the open file `f`
unfoldable pub refs : ℕ → List (Option ℕ) → ℕ
refs f [] = 0
refs f (o ∷ os) = names o f + refs f os

refs-set :
    (f i : ℕ) (os : List (Option ℕ)) (o : Option ℕ)
    → i < length os
    → refs f (set os i o) + names (get_or os i none) f ≡ refs f os + names o f
unfolding refs
refs-set f i [] o h = elim h [ ]
refs-set f zero (p ∷ os) o h = omega arith
refs-set f (suc i) (p ∷ os) o h = omega (arith, refs-set f i os o (omega arith))

refs-length : (f : ℕ) (os : List (Option ℕ)) → refs f os ≤ length os
unfolding refs names
refs-length f [] = omega arith
refs-length f (none ∷ os) = omega (arith, refs-length f os)
refs-length f (some g ∷ os) = ground (arith, refs-length f os)

names-none : (f : ℕ) → names none f ≡ 0
unfolding names
names-none f = refl

names_self : (f : ℕ) → names (some f) f ≡ 1
unfolding names
names_self f = ground arith

names_ne : (f g : ℕ) → f ≢ g → names (some f) g ≡ 0
unfolding names
names_ne f g n = ground arith

refs-install :
    (f g arg : ℕ) (os : List (Option ℕ))
    → arg < length os
    → get_or os arg none ≡ none
    → refs g (set os arg (some f)) ≡ refs g os + names (some f) g
refs-install f g arg os h e =
    let zero : names (get_or os arg none) g ≡ 0 = ap (λ o. names o g) e ∙ names-none g in
    omega (arith, refs-set g arg os (some f) h)

refs-drop :
    (f g fd : ℕ) (os : List (Option ℕ))
    → fd < length os
    → get_or os fd none ≡ some f
    → refs g (set os fd none) + names (some f) g ≡ refs g os
refs-drop f g fd os h e =
    let was : names (get_or os fd none) g ≡ names (some f) g = ap (λ o. names o g) e in
    omega (arith, refs-set g fd os none h, names-none g)

-- every entry that names a file names one below `n`
abbrev pub IsBelow : List (Option ℕ) → ℕ → Type 0
IsBelow os n = (i f : ℕ) → get_or os i none ≡ some f → f < n

IsBelow-set :
    (os : List (Option ℕ)) (n i : ℕ) (o : Option ℕ)
    → IsBelow os n
    → ((f : ℕ) → o ≡ some f → f < n)
    → i < length os
    → IsBelow (set os i o) n
IsBelow-set os n i o b new h j f e = elim (Bool-cases (i == j)) [
  | inl same ↦
      let same' : i ≡ j = ground arith in
      new f (sym (get_or-set_self os i o none h) ∙ ap (λ k. get_or (set os i o) k none) same' ∙ e)
  | inr ne ↦ b j f (sym (get_or-set_ne os i j o none (ground arith)) ∙ e)
]

-- The counts are right: `others f` descriptors of other tasks name the file `f`.
pub record Counted (others : ℕ → ℕ) (s : Files) : Type 0 where
  pub size : length s.filp ≡ nr_open
  pub valid : IsBelow s.filp (length s.file_table)
  pub counted : (f : ℕ) → f < length s.file_table → (file_at s f).f_count ≡ refs f s.filp + others f

-- A call that returns with right counts.
abbrev pub Keeps : (ℕ → ℕ) → Outcome → Type 0
Keeps others r = (answer : ℤ) × (t : Files) × (r ≡ returns answer t) × Counted others t

-- a change of one count
with_count_self :
    (s : Files) (f n : ℕ)
    → f < length s.file_table
    → (get_or (with_count s f n) f no_file).f_count ≡ n
with_count_self s f n h =
    ap (λ (x : File). x.f_count)
      (get_or-set_self s.file_table f (record (file_at s f) { f_count = n }) no_file h)

with_count_ne :
    (s : Files) (f g n : ℕ)
    → f ≢ g
    → (get_or (with_count s f n) g no_file).f_count ≡ (file_at s g).f_count
with_count_ne s f g n h =
    ap (λ (x : File). x.f_count)
      (get_or-set_ne s.file_table f g (record (file_at s f) { f_count = n }) no_file h)

module _ (others : ℕ → ℕ) (few : (f : ℕ) → others f + 20 < 65536) where
  pub install-Counted :
      (f arg : ℕ) (s : Files)
      → Counted others s
      → f < length s.file_table
      → arg < nr_open
      → get_or s.filp arg none ≡ none
      → Counted others (install f arg s)
  unfolding install
  install-Counted f arg s c l a e = record {
    size = length-set s.filp arg (some f) ∙ c.size;
    valid = λ i g q.
        rw
          (length-set s.file_table f
            (record (file_at s f) { f_count = ((file_at s f).f_count + 1) % 65536 }))
          (IsBelow-set s.filp (length s.file_table) arg (some f) c.valid
            (λ h r. let x : f ≡ h = cc in rw (← x) l) in_filp i g q);
    counted = λ g h. elim (Bool-cases (f == g)) [
      | inl same ↦
          let same' : f ≡ g = ground arith in
          rw (← same') (
            with_count_self s f (((file_at s f).f_count + 1) % 65536) l
            ∙ omega (
              arith,
              c.counted f l,
              few f,
              refs-length f (set s.filp arg (some f)),
              length-set s.filp arg (some f),
              refs-length f s.filp,
              c.size,
              refs-install f f arg s.filp in_filp e,
              names_self f,
            ))
      | inr ne ↦
          let ne' : f ≢ g = ground arith in
          with_count_ne s f g (((file_at s f).f_count + 1) % 65536) ne'
          ∙ omega (
            arith,
            c.counted g (in_table g h),
            refs-install f g arg s.filp in_filp e,
            names_ne f g ne',
          )
    ];
  }
    where
      in_filp : arg < length s.filp
      in_filp = omega (arith, c.size)

      in_table :
          (g : ℕ)
          → g < length (with_count s f (((file_at s f).f_count + 1) % 65536))
          → g < length s.file_table
      in_table g h =
          rw
            (sym (
              length-set s.file_table f
                (record (file_at s f) { f_count = ((file_at s f).f_count + 1) % 65536 })))
            h

  -- one name less, one count less
  pub dropped-Counted :
      (f fd close_on_exec : ℕ) (iputs : List (Option ℕ)) (s : Files)
      → Counted others s
      → get_or s.filp fd none ≡ some f
      → fd < nr_open
      → Counted others (record {
        filp = set s.filp fd none;
        close_on_exec = close_on_exec;
        file_table = with_count s f ((file_at s f).f_count - 1);
        iputs = iputs;
      })
  dropped-Counted f fd close_on_exec iputs s c e a = record {
    size = length-set s.filp fd none ∙ c.size;
    valid = λ i g q.
        rw
          (length-set s.file_table f (record (file_at s f) { f_count = (file_at s f).f_count - 1 }))
          (IsBelow-set s.filp (length s.file_table) fd none c.valid (λ h r. cc) in_filp i g q);
    counted = λ g h. elim (Bool-cases (f == g)) [
      | inl same ↦
          let same' : f ≡ g = ground arith in
          rw (← same') (
            with_count_self s f ((file_at s f).f_count - 1) l
            ∙ omega (arith, c.counted f l, refs-drop f f fd s.filp in_filp e, names_self f))
      | inr ne ↦
          let ne' : f ≢ g = ground arith in
          with_count_ne s f g ((file_at s f).f_count - 1) ne'
          ∙ omega (
            arith,
            c.counted g (in_table g h),
            refs-drop f g fd s.filp in_filp e,
            names_ne f g ne',
          )
    ];
  }
    where
      in_filp : fd < length s.filp
      in_filp = omega (arith, c.size)

      l : f < length s.file_table
      l = c.valid fd f e

      in_table :
          (g : ℕ)
          → g < length (with_count s f ((file_at s f).f_count - 1))
          → g < length s.file_table
      in_table g h =
          rw
            (sym (
              length-set s.file_table f
                (record (file_at s f) { f_count = (file_at s f).f_count - 1 })))
            h

  -- an open file is counted at least once
  pub named_positive :
      (f fd : ℕ) (s : Files)
      → Counted others s
      → get_or s.filp fd none ≡ some f
      → fd < nr_open
      → 1 ≤ (file_at s f).f_count
  named_positive f fd s c e a = omega (
    arith,
    c.counted f (c.valid fd f e),
    refs-drop f f fd s.filp (omega (arith, c.size)) e,
    names_self f,
  )
