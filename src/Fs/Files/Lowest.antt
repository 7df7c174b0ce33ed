-- ===== src/Fs/Files/Lowest.antt =====
-- fs/fcntl.c: a duplicated descriptor is the lowest that is free.
use linux_0_01raf.Prelude.{
  ℕ, zero, suc, ◌+◌, ◌≤◌, ◌<◌, ◌≡◌, ◌≢◌, ◌∙◌, ap, sym, refl, ◌⊎◌, inl, inr, false, Option, none,
  some, List, arith, leb, ◌==◌, Bool-cases, Option-cases, length, get_or, get_or-set_self,
  get_or-set_ne,
}
use linux_0_01raf.Prelude.Int.{pos}
use linux_0_01raf.Fs.Files.{Files, returns, nr_open, next_free, install, dupfd, sys_dup, emfile}

-- the lowest free descriptor from `arg` on, or the end of the range
pub record Lowest (filp : List (Option ℕ)) (n arg r : ℕ) : Type 0 where
  pub from : arg ≤ r
  pub upto : r ≤ arg + n
  pub is_free : r < arg + n → get_or filp r none ≡ none
  pub used : (j : ℕ) → arg ≤ j → j < r → get_or filp j none ≢ none

pub next_free-Lowest :
    (filp : List (Option ℕ)) (n arg : ℕ) → Lowest filp n arg (next_free filp n arg)
unfolding next_free
next_free-Lowest filp zero arg = record {
  from = omega arith;
  upto = omega arith;
  is_free = λ h. absurd (omega arith);
  used = λ j a b. absurd (omega arith);
}
next_free-Lowest filp (suc n) arg = elim (Option-cases (get_or filp arg none)) [
  | inl e ↦
      rw (next_free, e)
        (record {
          from = omega arith;
          upto = omega arith;
          is_free = λ h. e;
          used = λ j a b. absurd (omega arith);
        })
  | inr (f, e) ↦
      let rest = next_free-Lowest filp n (arg + 1) in
      rw (next_free, e)
        (record {
          from = omega (arith, rest.from);
          upto = omega (arith, rest.upto);
          is_free = λ h. rest.is_free (omega arith);
          used = λ j a b q. elim (Bool-cases (j == arg)) [
            | inl same ↦
                let same' : j ≡ arg = ground arith in
                let q' : get_or filp arg none ≡ none =
                  ap (λ k. get_or filp k none) (sym same') ∙ q in
                cc
            | inr ne ↦ rest.used j (ground arith) b q
          ];
        })
]

-- `dup` answers the lowest descriptor that is free, which then names the same file; it answers EMFILE
-- only if no descriptor is free.
pub sys_dup_lem :
    (fd f : ℕ) (s : Files)
    → length s.filp ≡ nr_open
    → fd < nr_open
    → get_or s.filp fd none ≡ some f
    → ((new : ℕ) × (t : Files) × (sys_dup fd s ≡ returns (pos new) t)
        × (get_or s.filp new none ≡ none)
        × ((j : ℕ) → j < new → get_or s.filp j none ≢ none)
        × (get_or t.filp new none ≡ some f)
        × ((j : ℕ) → j ≢ new → get_or t.filp j none ≡ get_or s.filp j none))
      ⊎ ((sys_dup fd s ≡ returns emfile s) × ((j : ℕ) → j < nr_open → get_or s.filp j none ≢ none))
unfolding sys_dup dupfd install
sys_dup_lem fd f s l h e = elim (Bool-cases (leb nr_open (next_free s.filp nr_open 0))) [
  | inl full ↦ inr (
    rw (sys_dup, dupfd, inside) (rw e (rw full refl)),
    λ j b. low.used j (omega arith) (ground arith),
  )
  | inr found ↦ inl (
    next_free s.filp nr_open 0,
    install f (next_free s.filp nr_open 0) s,
    rw (sys_dup, dupfd, inside) (rw e (rw found refl)),
    low.is_free (ground arith),
    λ j b. low.used j (omega arith) b,
    get_or-set_self s.filp (next_free s.filp nr_open 0) (some f) none (ground arith),
    λ j n. get_or-set_ne s.filp (next_free s.filp nr_open 0) j (some f) none (λ q. n (sym q)),
  )
]
  where
    inside : leb nr_open fd ≡ false
    inside = ground arith

    low : Lowest s.filp nr_open 0 (next_free s.filp nr_open 0)
    low = next_free-Lowest s.filp nr_open 0
